-- ===== src/Prelude/Update.antt =====
-- A table as the list of its rows: what an UPDATE does to the rows that its WHERE selects, and what
-- it does to a count and to a property of all rows.
use Prim.Native.Nat.{◌+◌, ◌≤◌}
use mathlib.Core.Path.{◌≡◌, refl}
use mathlib.Core.Logic.{inl, inr}
use mathlib.Core.Bool.{Bool, true, false}
use mathlib.Core.List.{List, [], ◌∷◌, ◌++◌}
use native.Mathlib.Omega.{arith}
use open_dilim.Prelude.Tests.{if◌then◌else◌, Bool-cases}
use open_dilim.Prelude.Lists.{count, any, All, count-append, any-count}
use open_dilim.Prelude.Text.{Text, text_eq, text_eq_iff}

module _ {ℓ} {A : Type ℓ} where
  unfoldable pub update_where : (A → Bool) → (A → A) → List A → List A
  update_where p f [] = []
  update_where p f (x ∷ xs) = (if p x then f x else x) ∷ update_where p f xs

  -- No row comes to pass a test that it did not pass.
  pub count-update_where :
      (p q : A → Bool) (f : A → A) (xs : List A)
      → ((x : A) → p x ≡ true → q (f x) ≡ true → q x ≡ true)
      → count q (update_where p f xs) ≤ count q xs
  unfolding update_where
  count-update_where p q f [] keeps = omega arith
  count-update_where p q f (x ∷ xs) keeps =
      ground (arith, count-update_where p q f xs keeps, keeps x)

  -- The test keeps its answer on every row.
  pub count-update_where_same :
      (p q : A → Bool) (f : A → A) (xs : List A)
      → ((x : A) → q (f x) ≡ q x)
      → count q (update_where p f xs) ≡ count q xs
  unfolding update_where
  count-update_where_same p q f [] same = refl
  count-update_where_same p q f (x ∷ xs) same =
      ground (arith, count-update_where_same p q f xs same, same x)

  pub any-update_where_same :
      (p q : A → Bool) (f : A → A) (xs : List A)
      → ((x : A) → q (f x) ≡ q x)
      → any q (update_where p f xs) ≡ any q xs
  unfolding update_where
  any-update_where_same p q f [] same = refl
  any-update_where_same p q f (x ∷ xs) same =
      ground (arith, any-update_where_same p q f xs same, same x)

  -- Where every row that passes `q` is changed into one that does not, none passes it any more.
  pub any-update_where_out :
      (p q : A → Bool) (f : A → A) (xs : List A)
      → ((x : A) → q x ≡ true → p x ≡ true)
      → ((x : A) → p x ≡ true → q (f x) ≡ false)
      → any q (update_where p f xs) ≡ false
  unfolding update_where
  any-update_where_out p q f [] within out = refl
  any-update_where_out p q f (x ∷ xs) within out =
      ground (arith, any-update_where_out p q f xs within out, out x, within x)

  -- An update that takes out what it touches uses up a row for each touch.
  pub count-update_where_out :
      (p q : A → Bool) (f : A → A) (xs : List A)
      → ((x : A) → p x ≡ true → q x ≡ true)
      → ((x : A) → p x ≡ true → q (f x) ≡ false)
      → count q (update_where p f xs) + count p xs ≤ count q xs
  unfolding update_where
  count-update_where_out p q f [] into out = omega arith
  count-update_where_out p q f (x ∷ xs) into out =
      ground (arith, count-update_where_out p q f xs into out, into x, out x)

  -- Rows that are touched and come to pass.
  pub count-update_where_into :
      (p q r : A → Bool) (f : A → A) (xs : List A)
      → ((x : A) → r x ≡ true → p x ≡ true)
      → ((x : A) → r x ≡ true → q (f x) ≡ true)
      → count r xs ≤ count q (update_where p f xs)
  unfolding update_where
  count-update_where_into p q r f [] hit into = omega arith
  count-update_where_into p q r f (x ∷ xs) hit into =
      ground (arith, count-update_where_into p q r f xs hit into, hit x, into x)

  -- Where no row passes `s`, the rows that pass afterwards are those that `r` tells before.
  pub count-update_where_exact :
      (s p q r : A → Bool) (f : A → A) (xs : List A)
      → any s xs ≡ false
      → ((x : A) → s x ≡ false → q (if p x then f x else x) ≡ r x)
      → count q (update_where p f xs) ≡ count r xs
  unfolding update_where
  count-update_where_exact s p q r f [] none each = refl
  count-update_where_exact s p q r f (x ∷ xs) none each =
      rw (each x (ground arith))
        (ground (arith, count-update_where_exact s p q r f xs (ground arith) each))

  -- Two tests that exclude one another, and a test that both imply.
  pub count-disjoint :
      (p q r : A → Bool) (xs : List A)
      → ((x : A) → p x ≡ true → r x ≡ true)
      → ((x : A) → q x ≡ true → r x ≡ true)
      → ((x : A) → p x ≡ true → q x ≡ false)
      → count p xs + count q xs ≤ count r xs
  count-disjoint p q r [] pr qr apart = omega arith
  count-disjoint p q r (x ∷ xs) pr qr apart =
      ground (arith, count-disjoint p q r xs pr qr apart, pr x, qr x, apart x)

  -- Nothing is selected, nothing is changed.
  pub update_where-none :
      (p : A → Bool) (f : A → A) (xs : List A) → any p xs ≡ false → update_where p f xs ≡ xs
  unfolding update_where
  update_where-none p f [] h = refl
  update_where-none p f (x ∷ xs) h = ground (arith, update_where-none p f xs)

module _ {ℓ} {A : Type ℓ} where
  pub any-append-left : (q : A → Bool) (xs ys : List A) → any q xs ≡ true → any q (xs ++ ys) ≡ true
  any-append-left q [] ys h = cc
  any-append-left q (x ∷ xs) ys h = ground (arith, any-append-left q xs ys)

  -- A row that passes is still there afterwards.
  pub any-update_where :
      (p q : A → Bool) (f : A → A) (xs : List A)
      → ((x : A) → p x ≡ true → q x ≡ true → q (f x) ≡ true)
      → any q xs ≡ true
      → any q (update_where p f xs) ≡ true
  unfolding update_where
  any-update_where p q f [] keeps h = cc
  any-update_where p q f (x ∷ xs) keeps h = ground (arith, any-update_where p q f xs keeps, keeps x)

  -- A row that is touched comes to pass.
  pub any-update_where_hit :
      (p q : A → Bool) (f : A → A) (xs : List A)
      → ((x : A) → p x ≡ true → q (f x) ≡ true)
      → any p xs ≡ true
      → any q (update_where p f xs) ≡ true
  unfolding update_where
  any-update_where_hit p q f [] into h = cc
  any-update_where_hit p q f (x ∷ xs) into h =
      ground (arith, any-update_where_hit p q f xs into, into x)

  -- A key that no row has, and one row with it: every key is still had once at most.
  pub count-append_new :
      (key_of : A → Text) (row : A) (xs : List A)
      → any (λ r. text_eq (key_of r) (key_of row)) xs ≡ false
      → ((key : Text) → count (λ r. text_eq (key_of r) key) xs ≤ 1)
      → (key : Text) → count (λ r. text_eq (key_of r) key) (xs ++ row ∷ []) ≤ 1
  count-append_new key_of row xs fresh one key =
      rw (count-append (λ r. text_eq (key_of r) key) xs (row ∷ []))
        elim (Bool-cases (text_eq (key_of row) key)) [
          | inl same ↦
              let e : key_of row ≡ key = (text_eq_iff (key_of row) key).0 same in
              let zero_before : count (λ r. text_eq (key_of r) key) xs ≡ 0 =
                any-count (λ r. text_eq (key_of r) key) xs (rw e at fresh) in
              rw (same, zero_before) (omega arith)
          | inr other ↦ rw other (omega (arith, one key))
        ]

module _ {ℓ κ μ} {A : Type ℓ} (P : A → Type κ) (R : A → Type μ) where
  pub All-update_where :
      (p : A → Bool) (f : A → A)
      → ((x : A) → p x ≡ true → P x → R (f x))
      → ((x : A) → P x → R x)
      → (xs : List A) → All P xs
      → All R (update_where p f xs)
  unfolding update_where
  All-update_where p f hit miss [] h = tt
  All-update_where p f hit miss (x ∷ xs) (px, h) = elim (Bool-cases (p x)) [
    | inl e ↦ rw e (hit x e px, All-update_where p f hit miss xs h)
    | inr e ↦ rw e (miss x px, All-update_where p f hit miss xs h)
  ]

  pub All-map : ((x : A) → P x → R x) → (xs : List A) → All P xs → All R xs
  All-map each [] h = tt
  All-map each (x ∷ xs) (px, h) = (each x px, All-map each xs h)

module _ {ℓ κ} {A : Type ℓ} (P : A → Type κ) where
  -- No row comes to pass a test, where that takes a property of all rows.
  pub count-update_where_every :
      (p q : A → Bool) (f : A → A)
      → ((x : A) → P x → p x ≡ true → q (f x) ≡ true → q x ≡ true)
      → (xs : List A) → All P xs
      → count q (update_where p f xs) ≤ count q xs
  unfolding update_where
  count-update_where_every p q f keeps [] h = omega arith
  count-update_where_every p q f keeps (x ∷ xs) (px, h) =
      ground (arith, count-update_where_every p q f keeps xs h, keeps x px)
