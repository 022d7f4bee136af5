-- ===== src/Prelude/Space.antt =====
-- What trimming leaves: the characters that are not white space.
use mathlib.Core.List.{reverse, reverse-cons, reverse-append, reverse-reverse}
use open_dilim.Prelude.Tests.{Bool-cases}
use open_dilim.Prelude.Lists.{select, select-append}
use open_dilim.Prelude.Text.{Text, is_space, trim, trim_start, trim_end}
use Prim.Native.Nat.{ℕ}
use mathlib.Core.Path.{◌≡◌, refl, sym, ap, ◌∙◌}
use mathlib.Core.Logic.{inl, inr}
use mathlib.Core.Bool.{true, false, not}
use mathlib.Core.List.{[], ◌∷◌, ◌++◌, append-nil}

abbrev pub solid : Text → Text
solid t = select (λ c. not (is_space c)) t

pub solid-append : (s t : Text) → solid (s ++ t) ≡ solid s ++ solid t
solid-append s t = select-append (λ c. not (is_space c)) s t

solid-space : (c : ℕ) (t : Text) → is_space c ≡ true → solid (c ∷ t) ≡ solid t
solid-space c t e = rw e refl

solid-visible : (c : ℕ) (t : Text) → is_space c ≡ false → solid (c ∷ t) ≡ c ∷ solid t
solid-visible c t e = rw e refl

trim_start-space : (c : ℕ) (t : Text) → is_space c ≡ true → trim_start (c ∷ t) ≡ trim_start t
unfolding trim_start
trim_start-space c t e = rw e refl

trim_start-visible : (c : ℕ) (t : Text) → is_space c ≡ false → trim_start (c ∷ t) ≡ c ∷ t
unfolding trim_start
trim_start-visible c t e = rw e refl

solid-trim_start : (t : Text) → solid (trim_start t) ≡ solid t
solid-trim_start [] = unfold trim_start in refl
solid-trim_start (c ∷ t) = elim (Bool-cases (is_space c)) [
  | inl e ↦ ap solid (trim_start-space c t e) ∙ solid-trim_start t ∙ sym (solid-space c t e)
  | inr e ↦ ap solid (trim_start-visible c t e)
]

solid-reverse_last :
    (c : ℕ) (t : Text)
    → solid (reverse t) ≡ reverse (solid t)
    → solid (reverse t) ++ solid (c ∷ []) ≡ reverse (solid (c ∷ t))
solid-reverse_last c t h = elim (Bool-cases (is_space c)) [
  | inl e ↦ rw (solid-space c t e, solid-space c [] e, append-nil) h
  | inr e ↦
      rw (solid-visible c t e, solid-visible c [] e, reverse-cons c (solid t))
        (ap (λ s. s ++ c ∷ []) h)
]

solid-reverse : (t : Text) → solid (reverse t) ≡ reverse (solid t)
solid-reverse [] = refl
solid-reverse (c ∷ t) =
    ap solid (reverse-cons c t)
    ∙ solid-append (reverse t) (c ∷ [])
    ∙ solid-reverse_last c t (solid-reverse t)

solid-trim_end : (t : Text) → solid (trim_end t) ≡ solid t
unfolding trim_end
solid-trim_end t = rw (
  solid-reverse (trim_start (reverse t)),
  solid-trim_start (reverse t),
  solid-reverse t,
  reverse-reverse (solid t),
)

-- Trimming loses white space only.
pub solid-trim : (t : Text) → solid (trim t) ≡ solid t
unfolding trim
solid-trim t = solid-trim_end (trim_start t) ∙ solid-trim_start t

trim_start-suffix : (t : Text) → (head : Text) × (head ++ trim_start t ≡ t)
trim_start-suffix [] = ([], unfold trim_start in refl)
trim_start-suffix (c ∷ t) = elim (Bool-cases (is_space c)) [
  | inl e ↦
      let (head, p) = trim_start-suffix t in
      (c ∷ head, ap (λ s. c ∷ head ++ s) (trim_start-space c t e) ∙ ap (λ s. c ∷ s) p)
  | inr e ↦ ([], trim_start-visible c t e)
]

-- What is left is the beginning of the text.
pub trim_end-prefix : (t : Text) → (tail : Text) × (trim_end t ++ tail ≡ t)
unfolding trim_end
trim_end-prefix t =
    let (head, p) = trim_start-suffix (reverse t) in
    (
      reverse head,
      sym (reverse-append head (trim_start (reverse t))) ∙ ap reverse p ∙ reverse-reverse t,
    )
