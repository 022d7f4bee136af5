-- ===== src/Prelude/Split.antt =====
-- `text.split(sep)` for a separator of one character, and `text.split(/\s+/)`.
use Prim.Native.Nat.{ℕ}
use mathlib.Core.Bool.{Bool, true, false}
use mathlib.Core.List.{List, [], ◌∷◌, ◌++◌}
use open_dilim.Prelude.Tests.{◌==◌, if◌then◌else◌}
use open_dilim.Prelude.Text.{Text, is_space}

-- The parts between the separators, `current` read so far.
unfoldable pub split_on_from : ℕ → Text → Text → List Text
split_on_from sep current [] = current ∷ []
split_on_from sep current (c ∷ s) =
    let closed = split_on_from sep [] s in
    let longer = split_on_from sep (current ++ c ∷ []) s in
    if c == sep then current ∷ closed else longer

unfoldable pub split_on : ℕ → Text → List Text
unfolding split_on_from
split_on sep text = split_on_from sep [] text

-- `in_gap` says that the character before was white space too.
split_spaces_from : Bool → Text → Text → List Text
unfolding is_space
split_spaces_from in_gap current [] = current ∷ []
split_spaces_from in_gap current (c ∷ s) =
    let still = split_spaces_from true current s in
    let closed = split_spaces_from true [] s in
    let longer = split_spaces_from false (current ++ c ∷ []) s in
    if is_space c then (if in_gap then still else current ∷ closed) else longer

unfoldable pub split_spaces : Text → List Text
unfolding split_spaces_from
split_spaces text = split_spaces_from false [] text
