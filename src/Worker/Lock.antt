-- ===== src/Worker/Lock.antt =====
-- One task at a time for each room (ConversationLock of src/worker/lock.ts). The tasks are numbered in
-- the order of the calls of `run`; `settled` says that the tail of a task has settled, which it does
-- when its task has returned or thrown, and `chains` is the map of tails.
pub mod Order
pub mod Turns
use open_dilim.Prelude.{
  ℕ, suc, ◌≡◌, Bool, true, false, not, ◌&&◌, Option, none, some, [], ltb, ◌==◌, if◌then◌else◌,
}
use open_dilim.Prelude.Text.{Text, text_eq}

pub record ConversationLock : Type 0 where
  pub count : ℕ
  pub key_of : ℕ → Text
  pub prev_of : ℕ → Option ℕ
  pub started : ℕ → Bool
  pub settled : ℕ → Bool
  pub chains : Text → Option ℕ

abbrev pub set_at {ℓ} : {A : Type ℓ} → ℕ → A → (ℕ → A) → ℕ → A
set_at n v f m = if m == n then v else f m

abbrev pub no_tasks : ConversationLock
no_tasks = record {
  count = 0;
  key_of = λ _. [];
  prev_of = λ _. none;
  started = λ _. false;
  settled = λ _. false;
  chains = λ _. none;
}

-- `run`: the task waits for the tail of its room, if there is one, and becomes the tail.
abbrev pub run : Text → ConversationLock → ConversationLock
run key l = record l {
  count = suc l.count;
  key_of = set_at l.count key l.key_of;
  prev_of = set_at l.count (l.chains key) l.prev_of;
  chains = λ k. if text_eq k key then some l.count else l.chains k;
}

abbrev pub is_settled : Option ℕ → ConversationLock → Bool
is_settled none l = true
is_settled (some p) l = l.settled p

-- `prev.then(task)` may start the task.
abbrev pub is_ready : ℕ → ConversationLock → Bool
is_ready i l = ltb i l.count && not (l.started i) && is_settled (l.prev_of i) l

abbrev pub is_running : ℕ → ConversationLock → Bool
is_running i l = l.started i && not (l.settled i)

abbrev pub start : ℕ → ConversationLock → ConversationLock
start i l = record l { started = set_at i true l.started }

abbrev pub settle : ℕ → ConversationLock → ConversationLock
settle i l = record l { settled = set_at i true l.settled }

abbrev pub is_tail : ℕ → Option ℕ → Bool
is_tail i none = false
is_tail i (some p) = p == i

-- `tail.finally`: the map forgets the room whose tail this is.
abbrev pub forget : ℕ → ConversationLock → ConversationLock
forget i l = record l {
  chains = λ k. if text_eq k (l.key_of i) && is_tail i (l.chains k) then none else l.chains k;
}

pub data Step (l : ConversationLock) : ConversationLock → Type 0 where
  runs : (key : Text) → Step l (run key l)
  starts : (i : ℕ) → is_ready i l ≡ true → Step l (start i l)
  settles : (i : ℕ) → is_running i l ≡ true → Step l (settle i l)
  forgets : (i : ℕ) → l.settled i ≡ true → Step l (forget i l)

pub data Reach : ConversationLock → Type 0 where
  fresh : Reach no_tasks
  later : {l m : ConversationLock} → Reach l → Step l m → Reach m
