-- ===== src/Prelude/Lists.antt =====
-- Lists measured and searched by native numbers and Boolean tests.
use Prim.Native.Nat.{ℕ, zero, suc, ◌+◌, ◌-◌, ◌≤◌}
use mathlib.Core.Path.{◌≡◌, refl}
use mathlib.Core.Logic.{inl, inr}
use mathlib.Core.Bool.{Bool, true, false, ◌||◌}
use mathlib.Core.Option.{Option, none, some}
use mathlib.Core.List.{List, [], ◌∷◌, ◌++◌}
use native.Mathlib.Omega.{arith}
use open_dilim.Prelude.Tests.{if◌then◌else◌, Bool-cases, Option-cases}

module _ {ℓ} {A : Type ℓ} where
  abbrev pub length : List A → ℕ
  length [] = 0
  length (x ∷ xs) = suc (length xs)

  abbrev pub take : ℕ → List A → List A
  take zero xs = []
  take (suc n) [] = []
  take (suc n) (x ∷ xs) = x ∷ take n xs

  abbrev pub drop : ℕ → List A → List A
  drop zero xs = xs
  drop (suc n) [] = []
  drop (suc n) (x ∷ xs) = drop n xs

  abbrev pub any : (A → Bool) → List A → Bool
  any p [] = false
  any p (x ∷ xs) = p x || any p xs

  -- The elements that pass a test, in their order.
  abbrev pub select : (A → Bool) → List A → List A
  select p [] = []
  select p (x ∷ xs) = if p x then x ∷ select p xs else select p xs

  -- How many elements pass a test.
  abbrev pub count : (A → Bool) → List A → ℕ
  count p [] = 0
  count p (x ∷ xs) = if p x then suc (count p xs) else count p xs

  pub length-append : (xs ys : List A) → length (xs ++ ys) ≡ length xs + length ys
  length-append [] ys = omega arith
  length-append (x ∷ xs) ys = omega (arith, length-append xs ys)

  pub length-take : (n : ℕ) (xs : List A) → length (take n xs) ≤ n
  length-take zero xs = omega arith
  length-take (suc n) [] = omega arith
  length-take (suc n) (x ∷ xs) = omega (arith, length-take n xs)

  pub length-drop : (n : ℕ) (xs : List A) → length (drop n xs) ≡ length xs - n
  length-drop zero xs = omega arith
  length-drop (suc n) [] = omega arith
  length-drop (suc n) (x ∷ xs) = omega (arith, length-drop n xs)

  pub take-append-drop : (n : ℕ) (xs : List A) → take n xs ++ drop n xs ≡ xs
  take-append-drop zero xs = refl
  take-append-drop (suc n) [] = refl
  take-append-drop (suc n) (x ∷ xs) = rw (take-append-drop n xs)

  pub count-append : (p : A → Bool) (xs ys : List A) → count p (xs ++ ys) ≡ count p xs + count p ys
  count-append p [] ys = omega arith
  count-append p (x ∷ xs) ys = ground (arith, count-append p xs ys)

  pub any-append : (p : A → Bool) (xs ys : List A) → any p (xs ++ ys) ≡ any p xs || any p ys
  any-append p [] ys = refl
  any-append p (x ∷ xs) ys = ground (arith, any-append p xs ys)

  pub any-split :
      (p : A → Bool) (n : ℕ) (xs : List A) → any p xs ≡ any p (take n xs) || any p (drop n xs)
  any-split p zero xs = refl
  any-split p (suc n) [] = refl
  any-split p (suc n) (x ∷ xs) = ground (arith, any-split p n xs)

  -- A selection keeps an element that passes both tests.
  pub any-select :
      (p q : A → Bool) (xs : List A)
      → ((x : A) → p x ≡ true → q x ≡ true)
      → any p xs ≡ true
      → any p (select q xs) ≡ true
  any-select p q [] keeps h = cc
  any-select p q (x ∷ xs) keeps h = ground (arith, any-select p q xs keeps, keeps x)

  -- What is found among the first of a list, or among the selected of it.
  pub any-take : (p : A → Bool) (n : ℕ) (xs : List A) → any p (take n xs) ≡ true → any p xs ≡ true
  any-take p zero xs h = cc
  any-take p (suc n) [] h = cc
  any-take p (suc n) (x ∷ xs) h = ground (arith, any-take p n xs)

  pub any-selected :
      (p q s : A → Bool) (xs : List A)
      → ((x : A) → p x ≡ true → q x ≡ true → s x ≡ true)
      → any p (select q xs) ≡ true
      → any s xs ≡ true
  any-selected p q s [] both h = cc
  any-selected p q s (x ∷ xs) both h = ground (arith, any-selected p q s xs both, both x)

  pub any-count : (p : A → Bool) (xs : List A) → any p xs ≡ false → count p xs ≡ 0
  any-count p [] h = refl
  any-count p (x ∷ xs) h = ground (arith, any-count p xs)

  pub count-any : (p : A → Bool) (xs : List A) → any p xs ≡ true → 1 ≤ count p xs
  count-any p [] h = ground arith
  count-any p (x ∷ xs) h = ground (arith, count-any p xs)

module _ {ℓ} {A : Type ℓ} where
  pub select-none : (p : A → Bool) (xs : List A) → any p xs ≡ false → select p xs ≡ []
  select-none p [] h = refl
  select-none p (x ∷ xs) h = ground (arith, select-none p xs)

  pub select-append :
      (p : A → Bool) (xs ys : List A) → select p (xs ++ ys) ≡ select p xs ++ select p ys
  select-append p [] ys = refl
  select-append p (x ∷ xs) ys = elim (Bool-cases (p x)) [
    | inl e ↦ rw (e, select-append p xs ys)
    | inr e ↦ rw (e, select-append p xs ys)
  ]

  abbrev pub get_first : List A → Option A
  get_first [] = none
  get_first (x ∷ xs) = some x

module _ {ℓ κ} {A : Type ℓ} {B : Type κ} where
  -- The results that are there, in their order.
  abbrev pub collect : (A → Option B) → List A → List B
  collect f [] = []
  collect f (x ∷ xs) = elim (f x) [ none ↦ collect f xs | some y ↦ y ∷ collect f xs ]

module _ {ℓ κ} {A : Type ℓ} (P : A → Type κ) where
  abbrev pub All : List A → Type κ
  All [] = Unit
  All (x ∷ xs) = P x × All xs

  pub All-append : (xs ys : List A) → All xs → All ys → All (xs ++ ys)
  All-append [] ys h k = k
  All-append (x ∷ xs) ys (p, h) k = (p, All-append xs ys h k)

  pub All-take : (n : ℕ) (xs : List A) → All xs → All (take n xs)
  All-take zero xs h = tt
  All-take (suc n) [] h = tt
  All-take (suc n) (x ∷ xs) (p, h) = (p, All-take n xs h)

module _ {ℓ κ μ} {A : Type ℓ} (P : A → Type κ) (R : A → Type μ) where
  -- What holds of all elements, with the test that they pass.
  pub All-select :
      (q : A → Bool)
      → ((x : A) → P x → q x ≡ true → R x)
      → (xs : List A) → All P xs
      → All R (select q xs)
  All-select q keep [] h = tt
  All-select q keep (x ∷ xs) (p, h) = elim (Bool-cases (q x)) [
    | inl e ↦ rw e (keep x p e, All-select q keep xs h)
    | inr e ↦ rw e (All-select q keep xs h)
  ]

module _ {ℓ κ} {A : Type ℓ} (P : A → Type κ) where
  pub All-of : ((x : A) → P x) → (xs : List A) → All P xs
  All-of every [] = tt
  All-of every (x ∷ xs) = (every x, All-of every xs)

module _ {ℓ κ μ} {A : Type ℓ} {B : Type κ} (Q : B → Type μ) (f : A → Option B) where
  pub All-collect {ν} :
      (P : A → Type ν)
      → ((x : A) (y : B) → P x → f x ≡ some y → Q y)
      → (xs : List A) → All P xs
      → All Q (collect f xs)
  All-collect P keep [] h = tt
  All-collect P keep (x ∷ xs) (p, h) = elim (Option-cases (f x)) [
    | inl e ↦ rw (e, collect) (All-collect P keep xs h)
    | inr (y, e) ↦ rw (e, collect) (keep x y p e, All-collect P keep xs h)
  ]

  pub length-collect : (xs : List A) → length (collect f xs) ≤ length xs
  length-collect [] = omega arith
  length-collect (x ∷ xs) = elim (Option-cases (f x)) [
    | inl e ↦ rw (e, collect) (omega (arith, length-collect xs))
    | inr (y, e) ↦ rw (e, collect) (omega (arith, length-collect xs))
  ]
