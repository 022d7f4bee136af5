-- ===== src/Usage/Ledger/Agreement.antt =====
-- The counter of a room agrees with its ledger (src/usage/store.ts).
use mathlib.Core.List.{append_cancel_right}
use open_dilim.Prelude.{
  subst, ℕ, ◌+◌, ◌≤◌, ◌≡◌, refl, sym, ◌∙◌, true, false, ◌&&◌, Option, none, some, List, [], ◌∷◌,
  ◌++◌, arith, Bool-cases, inl, inr, if◌then◌else◌, leb, ◌==◌,
}
use open_dilim.Prelude.Text.{Text, codes, text_eq, text_eq_iff, text_eq_refl}
use open_dilim.Task.{ok, thrown, unavailable}
use open_dilim.Usage.Pricing.{cost_pico_usd}
use open_dilim.Usage.Ledger.{
  UsageEntry, LedgerRow, Counter, Store, counter_key, is_expired, live, read_counter, write_counter,
  sum_from_ledger, midnight, restored, cached_or_sum, spent_today_pico_usd, ledger_row, is_recorded,
  incremented, with_deadline, count_up, record_usage,
}

-- The counter of the room is there and holds the sum of the ledger.
pub record Agrees (room : Text) (s : Store) : Type 0 where
  pub counter : Counter
  pub there : read_counter s (counter_key room s.day) ≡ some counter
  pub value : counter.value ≡ sum_from_ledger room s.day s.ledger

drop_prefix : (s t : Text) → codes "dilim:cost:" ++ s ≡ codes "dilim:cost:" ++ t → s ≡ t
drop_prefix s t e = cc

counter_key_injective : (a b day : Text) → counter_key a day ≡ counter_key b day → a ≡ b
unfolding counter_key
counter_key_injective a b day e = append_cancel_right a b (b':' ∷ day) (drop_prefix _ _ e)

pub sum-append :
    (room day : Text) (ledger : List LedgerRow) (r : LedgerRow)
    → sum_from_ledger room day (ledger ++ r ∷ [])
      ≡ sum_from_ledger room day ledger
        + (if text_eq r.conversation_id room && text_eq r.usage_day day then r.cost else 0)
unfolding sum_from_ledger
sum-append room day [] r = ground arith
sum-append room day (x ∷ xs) r = ground (arith, sum-append room day xs r)

-- A counter that was just written is read back, unless it has expired.
read-write :
    (key : Text) (c : Counter) (s : Store)
    → is_expired s.clock c.expires ≡ false
    → read_counter (write_counter key c s) key ≡ some c
read-write key c s fresh = rw (text_eq_refl key, fresh) refl

read-write_other :
    (key other : Text) (c : Counter) (s : Store)
    → text_eq other key ≡ false
    → read_counter (write_counter key c s) other ≡ read_counter s other
read-write_other key other c s apart = rw apart refl

live-fresh :
    (now : ℕ) (c : Option Counter) (d : Counter)
    → live now c ≡ some d
    → is_expired now d.expires ≡ false
live-fresh now none d e = cc
live-fresh now (some c) d e = elim (Bool-cases (is_expired now c.expires)) [
  | inl old ↦ cc
  | inr fresh ↦ cc
]

module _ (entry : UsageEntry) (s : Store) where
  pub record_usage-down : s.sql_down ≡ true → record_usage entry s ≡ (thrown unavailable, s)
  unfolding record_usage
  record_usage-down down = ground arith

  pub record_usage-known :
      s.sql_down ≡ false
      → is_recorded entry.msg_id s.ledger ≡ true
      → record_usage entry s ≡ (ok tt, s)
  unfolding record_usage
  record_usage-known on known = ground arith

  pub record_usage-new :
      s.sql_down ≡ false
      → is_recorded entry.msg_id s.ledger ≡ false
      → record_usage entry s
        ≡ count_up
            (counter_key entry.conversation_id s.day)
            (cost_pico_usd entry.usage)
            (record s { ledger = s.ledger ++ ledger_row s.day entry ∷ [] })
  unfolding record_usage
  record_usage-new on new = ground arith

module _ (s : Store) (lasting : 1 ≤ s.seconds_left) (up : s.redis_down ≡ false) where
  midnight-fresh : leb (midnight s) s.clock ≡ false
  midnight-fresh = ground arith

  counted-fresh :
      (cost : ℕ) (c : Counter)
      → is_expired s.clock c.expires ≡ false
      → is_expired s.clock (with_deadline cost (midnight s) (incremented cost (some c))).expires
        ≡ false
  unfolding with_deadline incremented
  counted-fresh cost c fresh = elim (Bool-cases (c.value + cost == cost)) [
    | inl new ↦ rw (new, midnight-fresh) refl
    | inr old ↦ rw old fresh
  ]

  counted-value :
      (cost : ℕ) (c : Counter)
      → (with_deadline cost (midnight s) (incremented cost (some c))).value ≡ c.value + cost
  unfolding with_deadline incremented
  counted-value cost c = ground arith

  module _ (room : Text) (entry : UsageEntry) where
    abbrev key : Text
    key = counter_key entry.conversation_id s.day

    abbrev inserted : Store
    inserted = record s { ledger = s.ledger ++ ledger_row s.day entry ∷ [] }

    pub count_up_lem : count_up key (cost_pico_usd entry.usage) inserted ≡ (
      ok tt,
      write_counter key
          (with_deadline
            (cost_pico_usd entry.usage)
            (midnight s)
            (incremented (cost_pico_usd entry.usage) (read_counter s key)))
          inserted,
    )
    unfolding count_up
    count_up_lem = rw up refl

    abbrev counted : Counter → Counter
    counted c =
        with_deadline (cost_pico_usd entry.usage) (midnight s)
          (incremented (cost_pico_usd entry.usage) (some c))

    own-Agrees :
        Agrees entry.conversation_id s
        → Agrees entry.conversation_id (count_up key (cost_pico_usd entry.usage) inserted).1
    own-Agrees a =
        rw (count_up_lem, a.there)
          (record {
            counter = counted a.counter;
            there = read-write key (counted a.counter) inserted (
                counted-fresh (cost_pico_usd entry.usage) a.counter
                  (live-fresh s.clock (s.counters key) a.counter a.there));
            value =
                rw
                  (
                    counted-value (cost_pico_usd entry.usage) a.counter,
                    sum-append entry.conversation_id s.day s.ledger (ledger_row s.day entry),
                    text_eq_refl entry.conversation_id,
                    text_eq_refl s.day,
                    a.value,
                  )
                  refl;
          })

    keys_apart :
        text_eq entry.conversation_id room ≡ false → text_eq (counter_key room s.day) key ≡ false
    keys_apart other = elim (Bool-cases (text_eq (counter_key room s.day) key)) [
      | inl e ↦
          let same =
            counter_key_injective room entry.conversation_id s.day
              ((text_eq_iff (counter_key room s.day) key).0 e) in
          cc ((text_eq_iff entry.conversation_id room).1 (sym same))
      | inr e ↦ e
    ]

    other-Agrees :
        text_eq entry.conversation_id room ≡ false
        → Agrees room s
        → Agrees room (count_up key (cost_pico_usd entry.usage) inserted).1
    other-Agrees other a = rw count_up_lem (record {
      counter = a.counter;
      there = read-write_other key (counter_key room s.day) _ inserted (keys_apart other) ∙ a.there;
      value =
          rw (sum-append room s.day s.ledger (ledger_row s.day entry), other)
            (omega (arith, a.value));
    })

    counted-Agrees :
        Agrees room s → Agrees room (count_up key (cost_pico_usd entry.usage) inserted).1
    counted-Agrees a = elim (Bool-cases (text_eq entry.conversation_id room)) [
      | inl same ↦
          let e : entry.conversation_id ≡ room = (text_eq_iff entry.conversation_id room).0 same in
          subst (λ r. Agrees r (count_up key (cost_pico_usd entry.usage) inserted).1) e
            (own-Agrees (rw (← e) at a))
      | inr other ↦ other-Agrees other a
    ]

    -- If the counter of a room is there and holds what the ledger says that the room spent today, then
    -- so it does after the usage of any message of any room was recorded, be it new or known or be the
    -- ledger down; as long as Redis is up and the day lasts.
    pub record_usage-Agrees : Agrees room s → Agrees room (record_usage entry s).1
    record_usage-Agrees a = elim (Bool-cases s.sql_down) [
      | inl down ↦ rw (record_usage-down entry s down) a
      | inr on ↦ elim (Bool-cases (is_recorded entry.msg_id s.ledger)) [
        | inl known ↦ rw (record_usage-known entry s on known) a
        | inr new ↦ rw (record_usage-new entry s on new) (counted-Agrees a)
      ]
    ]

-- What the port then tells is the sum of the ledger.
pub spent_today-Agrees :
    (room : Text) (s : Store)
    → s.redis_down ≡ false
    → Agrees room s
    → spent_today_pico_usd room s ≡ (ok (sum_from_ledger room s.day s.ledger), s)
unfolding spent_today_pico_usd cached_or_sum
spent_today-Agrees room s up a = rw (up, a.there, a.value) refl

-- A room whose counter is missing is told the sum of its ledger, and has its counter back, agreeing
-- with the ledger; both servers are up and the day lasts.
pub spent_today-restores :
    (room : Text) (s : Store)
    → s.redis_down ≡ false
    → s.sql_down ≡ false
    → 1 ≤ s.seconds_left
    → read_counter s (counter_key room s.day) ≡ none
    → ((spent_today_pico_usd room s).0 ≡ ok (sum_from_ledger room s.day s.ledger))
      × Agrees room (spent_today_pico_usd room s).1
unfolding spent_today_pico_usd cached_or_sum restored
spent_today-restores room s up on lasting missing =
    rw (up, missing, on)
      (
        refl,
        record {
          counter = record {
            value = sum_from_ledger room s.day s.ledger;
            expires = some (midnight s);
          };
          there = read-write (counter_key room s.day) _ s (ground arith);
          value = refl;
        },
      )

new_counter :
    (cost deadline : ℕ)
    → with_deadline cost deadline (incremented cost none)
      ≡ record { value = cost; expires = some deadline }
unfolding with_deadline incremented
new_counter cost deadline = ground arith

-- Where the counter of its room is missing when the usage of a new message is recorded, the room is
-- afterwards told that it spent today what this message cost, whatever the ledger says; both servers
-- are up and the day lasts.
pub record_usage-forgets :
    (entry : UsageEntry) (s : Store)
    → s.redis_down ≡ false
    → s.sql_down ≡ false
    → 1 ≤ s.seconds_left
    → is_recorded entry.msg_id s.ledger ≡ false
    → read_counter s (counter_key entry.conversation_id s.day) ≡ none
    → (spent_today_pico_usd entry.conversation_id (record_usage entry s).1).0
      ≡ ok (cost_pico_usd entry.usage)
unfolding spent_today_pico_usd cached_or_sum
record_usage-forgets entry s up on lasting new missing =
    rw
      (
        record_usage-new entry s on new,
        count_up_lem s lasting up entry.conversation_id entry,
        missing,
        new_counter (cost_pico_usd entry.usage) (midnight s),
      )
      (told
        (write_counter (counter_key entry.conversation_id s.day) counter
          (record s { ledger = s.ledger ++ ledger_row s.day entry ∷ [] }))
        up
        (read-write (counter_key entry.conversation_id s.day) counter
          (record s { ledger = s.ledger ++ ledger_row s.day entry ∷ [] })
          (midnight-fresh s lasting up)))
  where
    counter : Counter
    counter = record { value = cost_pico_usd entry.usage; expires = some (midnight s) }

    told :
        (after : Store)
        → after.redis_down ≡ false
        → read_counter after (counter_key entry.conversation_id after.day) ≡ some counter
        → (spent_today_pico_usd entry.conversation_id after).0 ≡ ok (cost_pico_usd entry.usage)
    told after up' there = rw (up', there) refl
