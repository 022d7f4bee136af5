-- ===== src/Broadcast/Split/Lines.antt =====
-- The lines of a text (`split("\n")` in splitReply of src/broadcast/split.ts).
use open_dilim.Prelude.{
  ◌≡◌, refl, sym, ap, ◌∙◌, List, [], ◌∷◌, ◌++◌, append_assoc, append-nil, Bool-cases, inl, inr,
  ◌==◌, ==_iff, All, All-append, ◌≢◌, arith,
}
use open_dilim.Prelude.Text.{Text}
use open_dilim.Prelude.Split.{split_on_from, split_on}
use open_dilim.Broadcast.Split.{newline, split_lines, join}

join-head :
    (current line : Text) (rest : List Text)
    → join (newline ∷ []) ((current ++ line) ∷ rest) ≡ current ++ join (newline ∷ []) (line ∷ rest)
unfolding join
join-head current line [] = refl
join-head current line (u ∷ rest) =
    ap (λ s. s ++ join (newline ∷ []) (u ∷ rest)) (append_assoc current line (newline ∷ []))
    ∙ append_assoc current (line ++ newline ∷ []) (join (newline ∷ []) (u ∷ rest))

join-cons :
    (line u : Text) (rest : List Text)
    → join (newline ∷ []) (line ∷ u ∷ rest) ≡ line ++ newline ∷ join (newline ∷ []) (u ∷ rest)
unfolding join
join-cons line u rest = append_assoc line (newline ∷ []) (join (newline ∷ []) (u ∷ rest))

split_on_from-cons :
    (current text : Text)
    → (line : Text) × (rest : List Text) × (split_on_from newline current text ≡ line ∷ rest)
unfolding split_on_from
split_on_from-cons current [] = (current, [], refl)
split_on_from-cons current (c ∷ text) = elim (Bool-cases (c == newline)) [
  | inl e ↦ (current, split_on_from newline [] text, rw e refl)
  | inr e ↦
      let (line, rest, p) = split_on_from-cons (current ++ c ∷ []) text in (line, rest, rw e p)
]

join-split_on_from :
    (current text : Text)
    → join (newline ∷ []) (split_on_from newline current text) ≡ current ++ text
unfolding split_on_from
join-split_on_from current [] = unfold join in sym (append-nil current)
join-split_on_from current (c ∷ text) = elim (Bool-cases (c == newline)) [
  | inl e ↦
      let (line, rest, p) = split_on_from-cons [] text in
      rw e (
        ap (λ ls. join (newline ∷ []) (current ∷ ls)) p
        ∙ join-cons current line rest
        ∙ ap (λ ls. current ++ newline ∷ join (newline ∷ []) ls) (sym p)
        ∙ ap (λ s. current ++ newline ∷ s) (join-split_on_from [] text)
        ∙ ap (λ d. current ++ d ∷ text) (sym ((==_iff c newline).0 e)))
  | inr e ↦ rw e (join-split_on_from (current ++ c ∷ []) text ∙ append_assoc current (c ∷ []) text)
]

split_on_from-Avoids :
    (current text : Text)
    → All (λ c. c ≢ newline) current
    → All (All (λ c. c ≢ newline)) (split_on_from newline current text)
unfolding split_on_from
split_on_from-Avoids current [] h = (h, tt)
split_on_from-Avoids current (c ∷ text) h = elim (Bool-cases (c == newline)) [
  | inl e ↦ rw e (h, split_on_from-Avoids [] text tt)
  | inr e ↦ rw e (
      split_on_from-Avoids (current ++ c ∷ []) text
        (All-append (λ d. d ≢ newline) current (c ∷ []) h (λ same. ground (arith), tt)))
]

-- The lines hold no newline, and joined by newlines they are the text.
pub join-split_lines :
    (text : Text)
    → (join (newline ∷ []) (split_lines text) ≡ text)
      × All (All (λ c. c ≢ newline)) (split_lines text)
unfolding split_lines split_on
join-split_lines text = (join-split_on_from [] text, split_on_from-Avoids [] text tt)
