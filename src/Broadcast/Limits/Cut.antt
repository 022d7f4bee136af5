-- ===== src/Broadcast/Limits/Cut.antt =====
-- Cutting a text to the limit of its channel (capForChannel of src/broadcast/limits.ts).
use open_dilim.Prelude.{
  ◌-◌, ◌≤◌, ◌≡◌, refl, sym, ap, ◌∙◌, ◌⊎◌, inl, inr, ◌++◌, append_assoc, arith, leb, Bool-cases,
  length, length-append, length-take, take, drop, take-append-drop,
}
use open_dilim.Prelude.Text.{Text, trim_end}
use open_dilim.Prelude.Space.{trim_end-prefix}
use open_dilim.Broadcast.Limits.{truncation_suffix, limit_for_channel, cap_for_channel}

-- The text itself, or a beginning of it with the note that it was cut.
abbrev pub CutOf : Text → Text → Type 0
CutOf text cut =
    (cut ≡ text)
    ⊎ ((kept : Text) × (rest : Text) × (kept ++ rest ≡ text) × (cut ≡ kept ++ truncation_suffix))

limit_for_channel-room : (channel : Text) → length truncation_suffix ≤ limit_for_channel channel
unfolding limit_for_channel
limit_for_channel-room channel = ground arith

trim_end-le : (t : Text) → length (trim_end t) ≤ length t
trim_end-le t =
    let (tail, p) = trim_end-prefix t in omega (arith, length-append (trim_end t) tail, ap length p)

-- What is sent fits the channel. A text that fits is sent as it is; a longer one is cut at a point,
-- with the note in place of the rest.
pub cap_for_channel-Cut :
    (channel text : Text)
    → (length (cap_for_channel channel text) ≤ limit_for_channel channel)
      × CutOf text (cap_for_channel channel text)
      × (length text ≤ limit_for_channel channel → cap_for_channel channel text ≡ text)
unfolding cap_for_channel
cap_for_channel-Cut channel text =
    elim (Bool-cases (leb (length text) (limit_for_channel channel))) [
      | inl e ↦ rw e (ground arith, inl refl, λ _. refl)
      | inr e ↦
          let kept : Text = take (limit_for_channel channel - length truncation_suffix) text in
          let (tail, p) = trim_end-prefix kept in
          rw e (
            omega (
              arith,
              length-append (trim_end kept) truncation_suffix,
              trim_end-le kept,
              length-take (limit_for_channel channel - length truncation_suffix) text,
              limit_for_channel-room channel,
            ),
            inr (
              trim_end kept,
              tail ++ drop (limit_for_channel channel - length truncation_suffix) text,
              sym (append_assoc (trim_end kept) tail _)
                  ∙ ap (λ s. s ++ drop (limit_for_channel channel - length truncation_suffix) text)
                      p
                  ∙ take-append-drop (limit_for_channel channel - length truncation_suffix) text,
              refl,
            ),
            λ fits. absurd (ground arith),
          )
    ]
