-- ===== src/Broadcast/Split.antt =====
-- Splitting a reply into bubbles at marker lines (src/broadcast/split.ts).
pub mod Content
pub mod Lines
use open_dilim.Prelude.{
  ℕ, zero, suc, ◌+◌, ◌*◌, ◌-◌, ◌≤◌, ◌≡◌, refl, Bool, true, false, ◌&&◌, ◌||◌, List, [], ◌∷◌, ◌++◌,
  leb, ◌==◌, if◌then◌else◌, length, take, drop, min,
}
use open_dilim.Prelude.Split.{split_on}
use open_dilim.Prelude.Text.{Text, trim, is_empty}

abbrev pub newline : ℕ
newline = 10

abbrev pub max_chunks : ℕ
max_chunks = 4

unfoldable pub split_lines : Text → List Text
unfolding split_on
split_lines text = split_on newline text

is_blank : ℕ → Bool
is_blank c = c == b' ' || c == 9

skip_blanks : Text → Text
unfolding is_blank
skip_blanks [] = []
skip_blanks (c ∷ s) = if is_blank c then skip_blanks s else c ∷ s

-- `-{3,}[ \t]*$`, with the hyphens read so far.
hyphens : ℕ → Text → Bool
unfolding skip_blanks
hyphens n [] = leb 3 n
hyphens n (c ∷ s) =
    let more = hyphens (n + 1) s in
    if c == b'-' then more else leb 3 n && is_empty (skip_blanks (c ∷ s))

-- `SPLIT_MARKER`, /^[ \t]*-{3,}[ \t]*$/.
unfoldable pub is_split_marker : Text → Bool
unfolding hyphens skip_blanks
is_split_marker line = hyphens 0 (skip_blanks line)

unfoldable pub join : Text → List Text → Text
join sep [] = []
join sep (x ∷ []) = x
join sep (x ∷ y ∷ rest) = x ++ sep ++ join sep (y ∷ rest)

-- `flush`: the lines gathered so far become a chunk, unless they are blank.
unfoldable pub flush : List Text → List Text → List Text
unfolding join
flush chunks current =
    let chunk = trim (join (newline ∷ []) current) in
    if is_empty chunk then chunks else chunks ++ chunk ∷ []

-- The loop over the lines.
unfoldable pub gather : List Text → List Text → List Text → List Text
unfolding flush is_split_marker
gather chunks current [] = flush chunks current
gather chunks current (line ∷ lines) =
    let flushed = gather (flush chunks current) [] lines in
    let longer = gather chunks (current ++ line ∷ []) lines in
    if is_split_marker line then flushed else longer

-- What exceeds the limit goes into the last bubble.
unfoldable pub merge_rest : List Text → List Text
unfolding join
merge_rest chunks =
    if leb (length chunks) max_chunks
    then chunks
    else take (max_chunks - 1) chunks ++ join (newline ∷ []) (drop (max_chunks - 1) chunks) ∷ []

unfoldable pub split_reply : Text → List Text
unfolding gather merge_rest split_lines
split_reply text = merge_rest (gather [] [] (split_lines text))

abbrev pub base_delay_ms : ℕ
base_delay_ms = 400

abbrev pub ms_per_char : ℕ
ms_per_char = 15

abbrev pub max_delay_ms : ℕ
max_delay_ms = 2500

unfoldable pub typing_delay_ms : Text → ℕ
typing_delay_ms chunk = min (base_delay_ms + length chunk * ms_per_char) max_delay_ms
