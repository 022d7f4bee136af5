-- ===== src/Broadcast/Split/Content.antt =====
-- What the bubbles of a reply hold (splitReply of src/broadcast/split.ts).
use open_dilim.Prelude.{
  ℕ, zero, suc, ◌≤◌, ◌≡◌, refl, sym, ap, ◌∙◌, true, false, not, List, [], ◌∷◌, ◌++◌, append_assoc,
  append-nil, arith, Bool-cases, inl, inr, leb, length, take, drop, take-append-drop, length-take,
  length-append, select, All, All-append,
}
use open_dilim.Prelude.Text.{Text, trim, is_empty, is_space}
use open_dilim.Prelude.Space.{solid, solid-append, solid-trim}
use open_dilim.Broadcast.Split.{
  newline, max_chunks, split_lines, is_split_marker, join, flush, gather, merge_rest, split_reply,
}

-- The characters of a list of texts that are not white space, in their order.
abbrev pub solid_all : List Text → Text
solid_all [] = []
solid_all (t ∷ ts) = solid t ++ solid_all ts

abbrev pub unmarked : List Text → List Text
unmarked lines = select (λ line. not (is_split_marker line)) lines

abbrev NotEmpty : Text → Type 0
NotEmpty t = is_empty t ≡ false

solid_all-append : (ts us : List Text) → solid_all (ts ++ us) ≡ solid_all ts ++ solid_all us
solid_all-append [] us = refl
solid_all-append (t ∷ ts) us =
    ap (λ s. solid t ++ s) (solid_all-append ts us)
    ∙ sym (append_assoc (solid t) (solid_all ts) (solid_all us))

solid-newline : (t : Text) → solid ((newline ∷ []) ++ t) ≡ solid t
solid-newline t = unfold is_space in refl

solid-join : (ts : List Text) → solid (join (newline ∷ []) ts) ≡ solid_all ts
unfolding join
solid-join [] = refl
solid-join (t ∷ []) = sym (append-nil (solid t))
solid-join (t ∷ u ∷ ts) =
    ap solid (append_assoc t (newline ∷ []) (join (newline ∷ []) (u ∷ ts)))
    ∙ solid-append t ((newline ∷ []) ++ join (newline ∷ []) (u ∷ ts))
    ∙ ap (λ s. solid t ++ s) (solid-newline (join (newline ∷ []) (u ∷ ts)) ∙ solid-join (u ∷ ts))

empty-text : (t : Text) → is_empty t ≡ true → t ≡ []
empty-text [] h = refl
empty-text (c ∷ t) h = cc

-- What is flushed is what was gathered.
trimmed : (current : List Text) → solid (trim (join (newline ∷ []) current)) ≡ solid_all current
trimmed current = solid-trim (join (newline ∷ []) current) ∙ solid-join current

flush-solid :
    (chunks current : List Text)
    → solid_all (flush chunks current) ≡ solid_all chunks ++ solid_all current
unfolding flush
flush-solid chunks current = elim (Bool-cases (is_empty (trim (join (newline ∷ []) current)))) [
  | inl e ↦
      let nothing : solid_all current ≡ [] =
        sym (trimmed current) ∙ ap solid (empty-text (trim (join (newline ∷ []) current)) e) in
      rw (e, nothing) (sym (append-nil (solid_all chunks)))
  | inr e ↦ rw e (
      solid_all-append chunks (trim (join (newline ∷ []) current) ∷ [])
      ∙ ap (λ s. solid_all chunks ++ s)
          (append-nil (solid (trim (join (newline ∷ []) current))) ∙ trimmed current))
]

flush-NotEmpty :
    (chunks current : List Text) → All NotEmpty chunks → All NotEmpty (flush chunks current)
unfolding flush
flush-NotEmpty chunks current h =
    elim (Bool-cases (is_empty (trim (join (newline ∷ []) current)))) [
      | inl e ↦ rw e h
      | inr e ↦
          rw e (All-append NotEmpty chunks (trim (join (newline ∷ []) current) ∷ []) h (e, tt))
    ]

gather-solid :
    (chunks current lines : List Text)
    → solid_all (gather chunks current lines)
      ≡ (solid_all chunks ++ solid_all current) ++ solid_all (unmarked lines)
unfolding gather
gather-solid chunks current [] =
    flush-solid chunks current ∙ sym (append-nil (solid_all chunks ++ solid_all current))
gather-solid chunks current (line ∷ lines) = elim (Bool-cases (is_split_marker line)) [
  | inl e ↦ rw e (
      gather-solid (flush chunks current) [] lines
      ∙ ap (λ s. s ++ solid_all (unmarked lines))
          (append-nil (solid_all (flush chunks current)) ∙ flush-solid chunks current))
  | inr e ↦ rw e (
      gather-solid chunks (current ++ line ∷ []) lines
      ∙ ap (λ s. (solid_all chunks ++ s) ++ solid_all (unmarked lines))
          (solid_all-append current (line ∷ [])
            ∙ ap (λ s. solid_all current ++ s) (append-nil (solid line)))
      ∙ ap (λ s. s ++ solid_all (unmarked lines))
          (sym (append_assoc (solid_all chunks) (solid_all current) (solid line)))
      ∙ append_assoc (solid_all chunks ++ solid_all current) (solid line)
          (solid_all (unmarked lines)))
]

gather-NotEmpty :
    (chunks current lines : List Text)
    → All NotEmpty chunks
    → All NotEmpty (gather chunks current lines)
unfolding gather
gather-NotEmpty chunks current [] h = flush-NotEmpty chunks current h
gather-NotEmpty chunks current (line ∷ lines) h = elim (Bool-cases (is_split_marker line)) [
  | inl e ↦ rw e (gather-NotEmpty (flush chunks current) [] lines (flush-NotEmpty chunks current h))
  | inr e ↦ rw e (gather-NotEmpty chunks (current ++ line ∷ []) lines h)
]

merge_rest-solid : (chunks : List Text) → solid_all (merge_rest chunks) ≡ solid_all chunks
unfolding merge_rest
merge_rest-solid chunks = elim (Bool-cases (leb (length chunks) max_chunks)) [
  | inl e ↦ rw e refl
  | inr e ↦ rw e (
      solid_all-append (take 3 chunks) (join (newline ∷ []) (drop 3 chunks) ∷ [])
      ∙ ap (λ s. solid_all (take 3 chunks) ++ s)
          (append-nil (solid (join (newline ∷ []) (drop 3 chunks))) ∙ solid-join (drop 3 chunks))
      ∙ sym (solid_all-append (take 3 chunks) (drop 3 chunks))
      ∙ ap solid_all (take-append-drop 3 chunks))
]

merge_rest-length : (chunks : List Text) → length (merge_rest chunks) ≤ max_chunks
unfolding merge_rest
merge_rest-length chunks = ground (
  arith,
  length-append (take 3 chunks) (join (newline ∷ []) (drop 3 chunks) ∷ []),
  length-take 3 chunks,
)

join-NotEmpty : (t : Text) (ts : List Text) → NotEmpty t → NotEmpty (join (newline ∷ []) (t ∷ ts))
unfolding join
join-NotEmpty (c ∷ t) [] h = refl
join-NotEmpty (c ∷ t) (u ∷ ts) h = refl
join-NotEmpty [] ts h = cc

last_join-NotEmpty :
    (n : ℕ) (chunks : List Text)
    → suc n ≤ length chunks
    → All NotEmpty chunks
    → All NotEmpty (take n chunks ++ join (newline ∷ []) (drop n chunks) ∷ [])
last_join-NotEmpty n [] enough h = absurd (omega arith)
last_join-NotEmpty zero (t ∷ ts) enough (p, h) = (join-NotEmpty t ts p, tt)
last_join-NotEmpty (suc n) (t ∷ ts) enough (p, h) = (p, last_join-NotEmpty n ts (omega arith) h)

merge_rest-NotEmpty : (chunks : List Text) → All NotEmpty chunks → All NotEmpty (merge_rest chunks)
unfolding merge_rest
merge_rest-NotEmpty chunks h = elim (Bool-cases (leb (length chunks) max_chunks)) [
  | inl e ↦ rw e h
  | inr e ↦ rw e (last_join-NotEmpty 3 chunks (ground arith) h)
]

-- A reply becomes at most four bubbles, none of them empty, which together hold every character of
-- its lines that are no marker, in order and white space apart.
pub split_reply-Chunked :
    (text : Text)
    → (length (split_reply text) ≤ max_chunks)
      × All (λ chunk. is_empty chunk ≡ false) (split_reply text)
      × (solid_all (split_reply text) ≡ solid_all (unmarked (split_lines text)))
unfolding split_reply
split_reply-Chunked text = (
  merge_rest-length (gather [] [] (split_lines text)),
  merge_rest-NotEmpty _ (gather-NotEmpty [] [] (split_lines text) tt),
  merge_rest-solid (gather [] [] (split_lines text)) ∙ gather-solid [] [] (split_lines text),
)
