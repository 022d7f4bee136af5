-- ===== src/Proactive/Pending/Claims.antt =====
-- A waiting question is picked up once (schedule and claimDue of src/proactive/pending.ts).
use open_dilim.Prelude.{
  ℕ, ◌+◌, ◌≤◌, ◌≡◌, refl, Bool, true, false, not, ◌&&◌, Option, none, some, List, [], ◌∷◌, arith,
  Bool-cases, Option-cases, inl, inr, if◌then◌else◌, count, select, count-any,
}
use open_dilim.Prelude.Text.{Text, text_eq, text_eq_iff}
use open_dilim.Workflow.Row.{get}
use open_dilim.Proactive.Pending.{
  PendingQuestion, Member, Waiting, Gaps, key_of, payload, parse_pending_question, is_member,
  set_payload, add_due, remove_member, delete_payload, read_question, claim_removed, claim_member,
  with_claimed, claim_members, due_members, claim_due,
}
use open_dilim.Proactive.Pending.Latest.{count-add_member_le}

-- What the instances send: schedule is a storing and an adding, a claim a removing and a deleting.
pub data Command : Type 0 where
  storing : PendingQuestion → Command
  adding : Text → ℕ → Command
  removing : Text → Command
  deleting : Text → Command

unfoldable pub execute : Command → Waiting → Waiting
execute (storing q) w = set_payload q w
execute (adding key t) w = add_due key t w
execute (removing key) w = (remove_member key w).1
execute (deleting key) w = delete_payload key w

unfoldable pub run : List Command → Waiting → Waiting
unfolding execute
run [] w = w
run (c ∷ rest) w = run rest (execute c w)

-- How many of the commands removed the member, and how many put it there.
unfoldable pub taken : Text → Command → Waiting → ℕ
taken key (removing key') w = if text_eq key' key && (remove_member key' w).0 then 1 else 0
taken key _ w = 0

unfoldable pub takes : Text → List Command → Waiting → ℕ
unfolding taken execute
takes key [] w = 0
takes key (c ∷ rest) w = taken key c w + takes key rest (execute c w)

unfoldable pub additions : Text → List Command → ℕ
additions key [] = 0
additions key (adding key' t ∷ rest) =
    let later = additions key rest in if text_eq key' key then 1 + later else later
additions key (c ∷ rest) = additions key rest

abbrev pub waiting : Text → Waiting → ℕ
waiting key w = count (is_member key) w.due

count-select : (p q : Member → Bool) (ms : List Member) → count q (select p ms) ≤ count q ms
count-select p q [] = omega arith
count-select p q (m ∷ ms) = ground (arith, count-select p q ms)

count-removed : (p : Member → Bool) (ms : List Member) → count p (select (λ m. not (p m)) ms) ≡ 0
count-removed p [] = refl
count-removed p (m ∷ ms) = elim (Bool-cases (p m)) [
  | inl e ↦ rw e (count-removed p ms)
  | inr e ↦ rw (e, e) (count-removed p ms)
]

removing_step :
    (key key' : Text) (w : Waiting)
    → taken key (removing key') w + waiting key (remove_member key' w).1 ≤ waiting key w
unfolding taken remove_member
removing_step key key' w = elim (Bool-cases (text_eq key' key)) [
  | inl same ↦
      rw ((text_eq_iff key' key).0 same)
        (ground (arith, count-removed (is_member key) w.due, count-any (is_member key) w.due))
  | inr other ↦
      rw other (ground (arith, count-select (λ m. not (is_member key' m)) (is_member key) w.due))
]

-- Each removal uses up a member that waited or was added.
takes_le :
    (key : Text) (commands : List Command) (w : Waiting)
    → takes key commands w + waiting key (run commands w) ≤ additions key commands + waiting key w
unfolding takes additions run execute taken
takes_le key [] w = omega arith
takes_le key (storing q ∷ rest) w = omega (arith, takes_le key rest (set_payload q w))
takes_le key (deleting key' ∷ rest) w = omega (arith, takes_le key rest (delete_payload key' w))
takes_le key (adding key' t ∷ rest) w =
    ground (arith, takes_le key rest (add_due key' t w), count-add_member_le key' key t w.due)
takes_le key (removing key' ∷ rest) w =
    omega (arith, removing_step key key' w, takes_le key rest (remove_member key' w).1)

-- What is filed under a key is a question of that key, if it can be read.
abbrev pub IsFiled : Waiting → Type 0
IsFiled w =
    (key : Text) (q : PendingQuestion) → read_question (w.payloads key) ≡ some q → key_of q ≡ key

payload_key :
    (q q' : PendingQuestion) → parse_pending_question (payload q) ≡ some q' → key_of q' ≡ key_of q
unfolding parse_pending_question get text_eq
payload_key q q' e = elim (Option-cases q.sender_name) [
  | inl none_named ↦ (let e' = rw none_named at e in ground arith)
  | inr (name, named) ↦ (let e' = rw named at e in ground arith)
]

pub execute-IsFiled : (c : Command) (w : Waiting) → IsFiled w → IsFiled (execute c w)
unfolding execute parse_pending_question
execute-IsFiled (storing q) w filed key q' e = elim (Bool-cases (text_eq key (key_of q))) [
  | inl same ↦
      let e' : parse_pending_question (payload q) ≡ some q' = rw same at e in
      rw ((text_eq_iff key (key_of q)).0 same) (payload_key q q' e')
  | inr other ↦ filed key q' (rw other at e)
]
execute-IsFiled (adding key' t) w filed key q' e = filed key q' e
execute-IsFiled (removing key') w filed key q' e = filed key q' (unfold remove_member in e)
execute-IsFiled (deleting key') w filed key q' e = elim (Bool-cases (text_eq key key')) [
  | inl same ↦ (let never = rw same at e in cc)
  | inr other ↦ filed key q' (rw other at e)
]

run-IsFiled : (commands : List Command) (w : Waiting) → IsFiled w → IsFiled (run commands w)
unfolding run
run-IsFiled [] w filed = filed
run-IsFiled (c ∷ rest) w filed = run-IsFiled rest (execute c w) (execute-IsFiled c w filed)

-- What others send before each command of a claim.
pub record Sent : Type 0 where
  pub before_remove : List Command
  pub before_read : List Command
  pub before_delete : List Command

abbrev pub gaps_of : Sent → Gaps
gaps_of sent = record {
  before_remove = run sent.before_remove;
  before_read = run sent.before_read;
  before_delete = run sent.before_delete;
}

abbrev pub is_of : Text → PendingQuestion → Bool
is_of key q = text_eq (key_of q) key

module _ (key : Text) where
  -- How often others put the member there, or removed it, around the claim of one member.
  abbrev pub additions_around : Sent → ℕ
  additions_around sent =
      additions key sent.before_remove
      + additions key sent.before_read
      + additions key sent.before_delete

  abbrev takes_after : Sent → Bool × Waiting → ℕ
  takes_after sent (false, w) = 0
  takes_after sent (true, w) =
      takes key sent.before_read w + takes key sent.before_delete (run sent.before_read w)

  abbrev takes_around : Text → Sent → Waiting → ℕ
  takes_around member sent w =
      takes key sent.before_remove w
      + takes_after sent (remove_member member (run sent.before_remove w))

  abbrev handed : Option PendingQuestion → ℕ
  handed none = 0
  handed (some q) = if is_of key q then 1 else 0

  handed-key :
      (member : Text) (raw : Option PendingQuestion)
      → ((q : PendingQuestion) → raw ≡ some q → key_of q ≡ member)
      → handed raw ≤ (if text_eq member key then 1 else 0)
  handed-key member none named = omega arith
  handed-key member (some q) named = rw (named q refl) (omega arith)

  removed_le :
      (member : Text) (sent : Sent) (r : Bool × Waiting)
      → IsFiled r.1
      → handed (claim_removed member (gaps_of sent) r).0
          + takes_after sent r
          + waiting key (claim_removed member (gaps_of sent) r).1
        ≤ (if text_eq member key && r.0 then 1 else 0)
          + additions key sent.before_read
          + additions key sent.before_delete
          + waiting key r.1
  removed_le member sent (false, w) filed = omega arith
  removed_le member sent (true, w) filed =
      let read = run sent.before_read w in
      ground (
        arith,
        handed-key member (read_question (read.payloads member))
            (λ q e. run-IsFiled sent.before_read w filed member q e),
        takes_le key sent.before_read w,
        takes_le key sent.before_delete read,
      )

  member_le :
      (member : Text) (sent : Sent) (w : Waiting)
      → IsFiled w
      → handed (claim_member member (gaps_of sent) w).0
          + takes_around member sent w
          + waiting key (claim_member member (gaps_of sent) w).1
        ≤ additions_around sent + waiting key w
  unfolding claim_member taken
  member_le member sent w filed =
      let before = run sent.before_remove w in
      omega (
        arith,
        takes_le key sent.before_remove w,
        removing_step key member before,
        removed_le member sent (remove_member member before)
            (unfold remove_member in run-IsFiled sent.before_remove w filed),
      )

  claim_removed-IsFiled :
      (member : Text) (sent : Sent) (r : Bool × Waiting)
      → IsFiled r.1
      → IsFiled (claim_removed member (gaps_of sent) r).1
  unfolding execute
  claim_removed-IsFiled member sent (false, w) filed = filed
  claim_removed-IsFiled member sent (true, w) filed =
      execute-IsFiled (deleting member) (run sent.before_delete (run sent.before_read w)) (
        run-IsFiled sent.before_delete (run sent.before_read w)
          (run-IsFiled sent.before_read w filed))

  claim_member-IsFiled :
      (member : Text) (sent : Sent) (w : Waiting)
      → IsFiled w
      → IsFiled (claim_member member (gaps_of sent) w).1
  unfolding claim_member
  claim_member-IsFiled member sent w filed =
      claim_removed-IsFiled member sent (remove_member member (run sent.before_remove w))
        (unfold remove_member in run-IsFiled sent.before_remove w filed)

  module _ (others : Text → Sent) where
    abbrev pub gaps : Text → Gaps
    gaps member = gaps_of (others member)

    abbrev pub additions_by_others : List Text → ℕ
    additions_by_others [] = 0
    additions_by_others (member ∷ rest) =
        additions_around (others member) + additions_by_others rest

    abbrev pub takes_by_others : List Text → Waiting → ℕ
    takes_by_others [] w = 0
    takes_by_others (member ∷ rest) w =
        takes_around member (others member) w
        + takes_by_others rest (claim_member member (gaps member) w).1

    count-with_claimed :
        (q : Option PendingQuestion) (rest : List PendingQuestion)
        → count (is_of key) (with_claimed q rest) ≡ handed q + count (is_of key) rest
    count-with_claimed none rest = omega arith
    count-with_claimed (some q) rest = ground arith

    members_le :
        (members : List Text) (w : Waiting)
        → IsFiled w
        → count (is_of key) (claim_members members gaps w).0
            + takes_by_others members w
            + waiting key (claim_members members gaps w).1
          ≤ additions_by_others members + waiting key w
    unfolding claim_members
    members_le [] w filed = omega arith
    members_le (member ∷ rest) w filed =
        let next = (claim_member member (gaps member) w).1 in
        omega (
          arith,
          count-with_claimed (claim_member member (gaps member) w).0
              (claim_members rest gaps next).0,
          member_le member (others member) w filed,
          members_le rest next (claim_member-IsFiled member (others member) w filed),
        )

    -- Whatever other instances send before each command of claimDue, where what is filed under each
    -- member is a question of that member: a person's questions in a room that this call returns, the
    -- times that others removed the member meanwhile, and the member if it waits afterwards, are
    -- together no more than the times that others added it meanwhile, and the member if it waited
    -- before. So no question is returned unless its member was there and this call removed it.
    pub claim_due-le :
        (now_ms : ℕ) (w : Waiting)
        → IsFiled w
        → count (is_of key) (claim_due now_ms gaps w).0
            + takes_by_others (due_members now_ms w) w
            + waiting key (claim_due now_ms gaps w).1
          ≤ additions_by_others (due_members now_ms w) + waiting key w
    unfolding claim_due
    claim_due-le now_ms w filed = members_le (due_members now_ms w) w filed
