-- ===== src/Broker/Queue/Retry.antt =====
-- Which pending messages are claimed again, and what XCLAIM replies with (reclaimStale of
-- src/broker/queue.ts).
use open_dilim.Prelude.{
  ℕ, ◌≤◌, ◌≡◌, refl, Bool, true, false, ◌&&◌, ◌||◌, ◌++◌, Option, some, List, [], ◌∷◌, map, any,
  select, collect, get_first, length, All, Bool-cases, Option-cases, inl, inr, leb, ltb, arith,
}
use open_dilim.Prelude.Update.{All-map}
use open_dilim.Prelude.Text.{text_eq_sym, Text, text_eq}
use open_dilim.Broker.Replies.{StreamEntry, PendingEntry}
use open_dilim.Broker.Replies.RoundTrip.{pending_entry}
use open_dilim.Broker.Stream.{PelRow, Redis, has_entry_id, has_pel_id, is_stale, claimed_entry}
use open_dilim.Broker.Queue.{sort_out, dead_letter_by_id, max_deliveries}
use open_dilim.Broker.Queue.Returns.{Returns, pure-Returns, bind-Returns, any_task, if-Returns}

-- The ids of the entries that were not delivered too often.
abbrev pub retry_ids : List PendingEntry → List Text
retry_ids entries = map (λ e. e.id) (select (λ e. ltb e.deliveries max_deliveries) entries)

pub sort_out-ids :
    (entries : List PendingEntry) → Returns (λ ids. ids ≡ retry_ids entries) (sort_out entries)
unfolding sort_out
sort_out-ids [] = pure-Returns refl
sort_out-ids (entry ∷ entries) =
    if-Returns (leb max_deliveries entry.deliveries)
      (λ often.
        bind-Returns (any_task (dead_letter_by_id entry.id))
          (λ _ _. rw (few often) (sort_out-ids entries)))
      (λ seldom.
        bind-Returns (sort_out-ids entries) (λ ids e. pure-Returns (rw (e, many seldom) refl)))
  where
    few : leb max_deliveries entry.deliveries ≡ true → ltb entry.deliveries max_deliveries ≡ false
    few h = ground arith

    many : leb max_deliveries entry.deliveries ≡ false → ltb entry.deliveries max_deliveries ≡ true
    many h = ground arith

first-passes :
    {A : Type 0} (p : A → Bool) (xs : List A) (x : A)
    → get_first (select p xs) ≡ some x
    → p x ≡ true
first-passes p [] x h = cc
first-passes p (y ∷ ys) x h = elim (Bool-cases (p y)) [
  | inl passes ↦ let e : y ≡ x = (let h' = rw passes at h in cc) in rw (← e) passes
  | inr fails ↦ first-passes p ys x (rw fails at h)
]

abbrev pub asked_row : Text → PelRow → Bool
asked_row id row = has_pel_id id row && ltb row.deliveries max_deliveries

pub retry_ids-row :
    (id : Text) (rows : List PelRow)
    → any (text_eq id) (retry_ids (map pending_entry rows)) ≡ true
    → any (asked_row id) rows ≡ true
retry_ids-row id [] h = cc
retry_ids-row id (row ∷ rows) h = elim (Bool-cases (ltb row.deliveries max_deliveries)) [
  | inl few ↦
      let h' : text_eq id row.id || any (text_eq id) (retry_ids (map pending_entry rows)) ≡ true =
        rw few at h in
      ground (arith, retry_ids-row id rows, text_eq_sym id row.id)
  | inr many ↦
      let h' : any (text_eq id) (retry_ids (map pending_entry rows)) ≡ true = rw many at h in
      ground (arith, retry_ids-row id rows)
]

pub length-retry_ids :
    (rows : List PelRow) → length (retry_ids (map pending_entry rows)) ≤ length rows
length-retry_ids [] = omega arith
length-retry_ids (row ∷ rows) = ground (arith, length-retry_ids rows)

pub length-collect :
    {A B : Type 0} (f : A → Option B) (xs : List A) → length (collect f xs) ≤ length xs
length-collect f [] = omega arith
length-collect f (x ∷ xs) = elim (Option-cases (f x)) [
  | inl e ↦ rw (e, length) (omega (arith, length-collect f xs))
  | inr (y, e) ↦ rw (e, length) (omega (arith, length-collect f xs))
]

pub collect-asked :
    (f : Text → Option StreamEntry)
    → ((id : Text) (e : StreamEntry) → f id ≡ some e → text_eq e.id id ≡ true)
    → (ids : List Text) → All (λ e. any (text_eq e.id) ids ≡ true) (collect f ids)
collect-asked f sound [] = tt
collect-asked f sound (id ∷ ids) =
    let later : All (λ e. any (text_eq e.id) (id ∷ ids) ≡ true) (collect f ids) =
      All-map (λ e. any (text_eq e.id) ids ≡ true) (λ e. any (text_eq e.id) (id ∷ ids) ≡ true)
        (λ e h. ground arith) (collect f ids) (collect-asked f sound ids) in
    elim (Option-cases (f id)) [
      | inl e ↦ rw (e, All) later
      | inr (entry, e) ↦ rw (e, All) (rw (sound id entry e) refl, later)
    ]

-- What XCLAIM replies with has an id that was asked for.
pub claimed_entry-id :
    (min_idle : ℕ) (r : Redis) (id : Text) (e : StreamEntry)
    → claimed_entry min_idle r id ≡ some e
    → text_eq e.id id ≡ true
claimed_entry-id min_idle r id e h =
    elim (Bool-cases (any (λ row. has_pel_id id row && is_stale min_idle r row) r.pel)) [
      | inl there ↦ first-passes (has_entry_id id) (r.seen ++ r.unread) e (rw there at h)
      | inr gone ↦ (let h' = rw gone at h in cc)
    ]
