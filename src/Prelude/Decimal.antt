-- ===== src/Prelude/Decimal.antt =====
-- Decimal numerals: what a template string prints for a natural number, and how it is read back.
use Prim.Native.Nat.{ℕ, zero, suc, ◌+◌, ◌*◌, ◌-◌, ◌/◌, ◌%◌, ◌<◌}
use mathlib.Core.Path.{◌≡◌, refl, sym, ap, ◌∙◌, subst}
use mathlib.Core.Logic.{◌≢◌}
use mathlib.Core.Bool.{true}
use mathlib.Core.List.{[], ◌∷◌, ◌++◌}
use native.Mathlib.Omega.{arith}
use open_dilim.Prelude.Tests.{ltb, if◌then◌else◌}
use open_dilim.Prelude.Lists.{All, All-append}
use open_dilim.Prelude.Text.{Text, is_digit}

show_digits : ℕ → ℕ → Text
show_digits zero n = []
show_digits (suc fuel) n =
    let rest = show_digits fuel (n / 10) in
    if ltb n 10 then (b'0' + n) ∷ [] else rest ++ (b'0' + n % 10) ∷ []

unfoldable pub show : ℕ → Text
unfolding show_digits
show n = show_digits (suc n) n

unfoldable pub read_from : ℕ → Text → ℕ
read_from acc [] = acc
read_from acc (c ∷ s) = read_from (acc * 10 + (c - b'0')) s

read_from-append :
    (acc : ℕ) (s : Text) (c : ℕ) → read_from acc (s ++ c ∷ []) ≡ read_from acc s * 10 + (c - b'0')
unfolding read_from
read_from-append acc [] c = refl
read_from-append acc (d ∷ s) c = read_from-append (acc * 10 + (d - b'0')) s c

read_from-show_digits : (fuel n : ℕ) → n < fuel → read_from 0 (show_digits fuel n) ≡ n
unfolding show_digits read_from
read_from-show_digits zero n h = absurd (omega arith)
read_from-show_digits (suc fuel) n h = ground (
  arith,
  read_from-append 0 (show_digits fuel (n / 10)) (b'0' + n % 10),
  read_from-show_digits fuel (n / 10),
)

pub read_from-show : (n : ℕ) → read_from 0 (show n) ≡ n
unfolding show
read_from-show n = read_from-show_digits (suc n) n (omega arith)

pub show_injective : (m n : ℕ) → show m ≡ show n → m ≡ n
show_injective m n h = sym (read_from-show m) ∙ ap (read_from 0) h ∙ read_from-show n

abbrev IsDigit : ℕ → Type 0
IsDigit c = is_digit c ≡ true

show_digits-IsDigit : (fuel n : ℕ) → All IsDigit (show_digits fuel n)
unfolding show_digits is_digit
show_digits-IsDigit zero n = tt
show_digits-IsDigit (suc fuel) n = ground (
  arith,
  All-append IsDigit (show_digits fuel (n / 10)) ((b'0' + n % 10) ∷ [])
      (show_digits-IsDigit fuel (n / 10)) (ground arith, tt),
)

pub show-IsDigit : (n : ℕ) → All (λ c. is_digit c ≡ true) (show n)
unfolding show
show-IsDigit n = show_digits-IsDigit (suc n) n

digit_ne_colon : (c : ℕ) → is_digit c ≡ true → c ≢ b':'
unfolding is_digit
digit_ne_colon c h = ground arith

abbrev pub Avoids : ℕ → Text → Type 0
Avoids mark s = All (λ c. c ≢ mark) s

Avoids-digits : (s : Text) → All IsDigit s → Avoids b':' s
Avoids-digits [] h = tt
Avoids-digits (c ∷ s) (p, h) = (digit_ne_colon c p, Avoids-digits s h)

pub show-Avoids : (n : ℕ) → Avoids b':' (show n)
show-Avoids n = Avoids-digits (show n) (show-IsDigit n)

Avoids-absurd : (mark : ℕ) (a s : Text) → Avoids mark (a ++ mark ∷ s) → ⊥
Avoids-absurd mark [] s (p, h) = p refl
Avoids-absurd mark (x ∷ a) s (p, h) = Avoids-absurd mark a s h

-- Two texts that end in a mark and a tail without it are equal only part by part.
pub last_mark :
    (mark : ℕ) (a b s t : Text)
    → Avoids mark s
    → Avoids mark t
    → a ++ mark ∷ s ≡ b ++ mark ∷ t
    → (a ≡ b) × (s ≡ t)
last_mark mark [] [] s t hs ht e = (refl, cc)
last_mark mark [] (y ∷ b) s t hs ht e =
    absurd (Avoids-absurd mark b t (subst (Avoids mark) (cc) hs))
last_mark mark (x ∷ a) [] s t hs ht e =
    absurd (Avoids-absurd mark a s (subst (Avoids mark) (cc) ht))
last_mark mark (x ∷ a) (y ∷ b) s t hs ht e =
    let (p, q) = last_mark mark a b s t hs ht (cc) in (cc, q)
