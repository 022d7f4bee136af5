-- ===== src/Proactive/Pending/Latest.antt =====
-- The latest question of a person in a room is the one that waits (schedule of
-- src/proactive/pending.ts).
use open_dilim.Prelude.{
  subst, ℕ, ◌+◌, ◌≤◌, ◌≡◌, refl, Bool, false, Option, none, some, List, [], ◌∷◌, arith, Bool-cases,
  Option-cases, inl, inr, if◌then◌else◌, count, select,
}
use open_dilim.Prelude.Text.{Text, text_eq, text_eq_refl, text_eq→eq, is_empty}
use open_dilim.Workflow.Row.{get, ◌>>=◌}
use open_dilim.Proactive.Pending.{
  PendingQuestion, Member, Waiting, key_of, payload, parse_pending_question, is_member, add_member,
  schedule,
}

-- A member waits once.
abbrev pub WaitsOnce : Waiting → Type 0
WaitsOnce w = (key : Text) → count (is_member key) w.due ≤ 1

count-add_member_other :
    (key other : Text) (score : ℕ) (ms : List Member)
    → text_eq key other ≡ false
    → count (is_member other) (add_member key score ms) ≡ count (is_member other) ms
unfolding add_member
count-add_member_other key other score [] apart = ground arith
count-add_member_other key other score (m ∷ ms) apart =
    let rest = count-add_member_other key other score ms apart in
    elim (Bool-cases (is_member key m)) [
      | inl hit ↦ rw hit refl
      | inr miss ↦ rw miss (ground (arith, rest))
    ]

-- A member is added at most once.
pub count-add_member_le :
    (key other : Text) (score : ℕ) (ms : List Member)
    → count (is_member other) (add_member key score ms)
      ≤ (if text_eq key other then 1 else 0) + count (is_member other) ms
unfolding add_member
count-add_member_le key other score [] = ground arith
count-add_member_le key other score (m ∷ ms) =
    let rest = count-add_member_le key other score ms in
    elim (Bool-cases (is_member key m)) [
      | inl hit ↦ rw hit (ground arith)
      | inr miss ↦ rw miss (ground (arith, rest))
    ]

select_zero : (p : Member → Bool) (ms : List Member) → count p ms ≡ 0 → select p ms ≡ []
select_zero p [] h = refl
select_zero p (m ∷ ms) h = ground (arith, select_zero p ms)

-- The entries of a member.
abbrev pub entries : Text → Waiting → List Member
entries key w = select (is_member key) w.due

own_entry :
    (key : Text) (score : ℕ) (ms : List Member)
    → count (is_member key) ms ≤ 1
    → (select (is_member key) (add_member key score ms) ≡ record { key = key; score = score } ∷ [])
      × (count (is_member key) (add_member key score ms) ≡ 1)
unfolding add_member
own_entry key score [] one = rw (text_eq_refl key) (refl, refl)
own_entry key score (m ∷ ms) one =
    let rest = own_entry key score ms in
    elim (Bool-cases (is_member key m)) [
      | inl hit ↦
          let none_left : count (is_member key) ms ≡ 0 = ground arith in
          let same : m.key ≡ key = text_eq→eq m.key key hit in
          rw (hit, hit, select_zero (is_member key) ms none_left, none_left)
            ((λ i. record { key = same i; score = score } ∷ []), refl)
      | inr miss ↦ rw (miss, miss) (rest (ground arith))
    ]

abbrev pub NamedOrNot : Option Text → Type 0
NamedOrNot none = Unit
NamedOrNot (some name) = is_empty name ≡ false

-- A question that names its channel and its room, and whose name, if it has one, is not empty.
abbrev pub IsWhole : PendingQuestion → Type 0
IsWhole q =
    (is_empty q.channel ≡ false) × (is_empty q.conversation_id ≡ false) × NamedOrNot q.sender_name

reads_back : (q : PendingQuestion) → IsWhole q → parse_pending_question (payload q) ≡ some q
unfolding parse_pending_question get text_eq
reads_back q (channel, room, name) = elim (Option-cases q.sender_name) [
  | inl e ↦ rw (e, channel, room) refl
  | inr (n, e) ↦ let named = rw e at name in rw (e, channel, room, named) refl
]

-- After a question was scheduled, each member still waits once, the person who asked it waits from
-- the new instant on, and what is read for them is that question, whatever waited for them before.
pub schedule-latest :
    (q : PendingQuestion) (fire_at_ms : ℕ) (w : Waiting)
    → WaitsOnce w
    → IsWhole q
    → WaitsOnce (schedule q fire_at_ms w)
      × (entries (key_of q) (schedule q fire_at_ms w)
          ≡ record { key = key_of q; score = fire_at_ms } ∷ [])
      × ((do raw ← (schedule q fire_at_ms w).payloads (key_of q); parse_pending_question raw)
          ≡ some q)
unfolding schedule
schedule-latest q fire_at_ms w set whole = (
  λ key. elim (Bool-cases (text_eq (key_of q) key)) [
    | inl same ↦
        let e : key_of q ≡ key = text_eq→eq (key_of q) key same in
        let (_, one) = own_entry (key_of q) fire_at_ms w.due (set (key_of q)) in
        subst (λ k. count (is_member k) (add_member (key_of q) fire_at_ms w.due) ≤ 1) e
          (omega (arith, one))
    | inr other ↦
        omega (arith, count-add_member_other (key_of q) key fire_at_ms w.due other, set key)
  ],
  (own_entry (key_of q) fire_at_ms w.due (set (key_of q))).0,
  rw (text_eq_refl (key_of q)) (reads_back q whole),
)
