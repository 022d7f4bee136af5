-- ===== src/Announcement/Actions/Calculus.antt =====
-- What a task does to the tables of announcements, it does by statements of the store: the rules for
-- the ways in which tasks are put together (src/announcements).
use open_dilim.Prelude.{
  ◌≡◌, refl, Bool, true, false, List, [], ◌∷◌, ◌++◌, Bool-cases, inl, inr, All, All-append,
  if◌then◌else◌,
}
use open_dilim.Prelude.Text.{Text}
use open_dilim.Task.{Task, Result, ok, thrown, continue, ◌>>=◌, pure, ignore_failure}
use open_dilim.Chat.Ports.{Bus}
use open_dilim.Announcement.Types.{Database, ApproveInput}
use open_dilim.Announcement.Store.Runs.{Statement, approving, execute, run}
use open_dilim.Announcement.Drafts.{World, statement, query, on_bus, others_run}

pub run-append : (ss ts : List Statement) (db : Database) → run (ss ++ ts) db ≡ run ts (run ss db)
unfolding run
run-append [] ts db = refl
run-append (s ∷ ss) ts db = run-append ss ts (execute s db)

-- A statement that approves only what `A` allows.
abbrev pub Only : (ApproveInput → Type 0) → Statement → Type 0
Only A (approving input now) = A input
Only A _ = Unit {0}

module _ (A : ApproveInput → Type 0) where
  -- The task changes the tables as a run of such statements does.
  abbrev pub Refines : World → World → Type 0
  Refines before after = (ss : List Statement) × All (Only A) ss × (after.db ≡ run ss before.db)

  pub record RefinesTask {B : Type 0} (m : Task World B) : Type 0 where
    pub apply : (w : World) → Refines w (m w).1

module _ {A : ApproveInput → Type 0} where
  pub Refines-same : (w w' : World) → w'.db ≡ w.db → Refines A w w'
  unfolding run
  Refines-same w w' e = ([], tt, e)

  pub Refines-one :
      (s : Statement) (w w' : World) → Only A s → w'.db ≡ execute s w.db → Refines A w w'
  unfolding run
  Refines-one s w w' a e = (s ∷ [], (a, tt), e)

  pub Refines-trans : (u v w : World) → Refines A u v → Refines A v w → Refines A u w
  Refines-trans u v w (ss, a, e) (ts, b, f) =
      (ss ++ ts, All-append (Only A) ss ts a b, rw (run-append ss ts u.db) (rw (← e) f))

  pub bind-Refines :
      {B : Type 0} {C : Type 0} {m : Task World B} {f : B → Task World C}
      → RefinesTask A m
      → ((b : B) → RefinesTask A (f b))
      → RefinesTask A (m >>= f)
  bind-Refines {B} {C} {m} {f} hm hf = record { apply = λ w. go w (m w) (hm.apply w) }
    where
      go : (w : World) (r : Result B × World) → Refines A w r.1 → Refines A w (continue f r).1
      go w (ok b, v) h = Refines-trans w v (f b v).1 h ((hf b).apply v)
      go w (thrown e, v) h = h

  pub ignore-Refines :
      {m : Task World (Unit {0})} → RefinesTask A m → RefinesTask A (ignore_failure m)
  ignore-Refines h = record { apply = h.apply }

  pub pure-Refines : {B : Type 0} {b : B} → RefinesTask A (pure b)
  pure-Refines = record { apply = λ w. Refines-same w w refl }

  pub on_bus-Refines : {B : Type 0} (m : Task Bus B) → RefinesTask A (on_bus m)
  on_bus-Refines m = record { apply = λ w. Refines-same w (on_bus m w).1 refl }

  pub query-Refines : {B : Type 0} (name : Text) (f : Database → B) → RefinesTask A (query name f)
  query-Refines name f = record {
    apply = λ w. elim (Bool-cases (w.sql_fails name)) [
      | inl fails ↦ rw fails (Refines-same w w refl)
      | inr works ↦ rw works (Refines-same w w refl)
    ];
  }

  pub statement-Refines :
      {B : Type 0} (name : Text) (f : Database → Result B × Database)
      → ((db : Database) → (ss : List Statement) × All (Only A) ss × ((f db).1 ≡ run ss db))
      → RefinesTask A (statement name f)
  statement-Refines name f h = record {
    apply = λ w. elim (Bool-cases (w.sql_fails name)) [
      | inl fails ↦ rw fails (Refines-same w w refl)
      | inr works ↦ rw works (h w.db)
    ];
  }

  pub others-Refines :
      (others : List Statement) → All (Only A) others → RefinesTask A (others_run (run others))
  others-Refines others a = record { apply = λ w. (others, a, refl) }

  -- Both branches of a test.
  pub if-Refines :
      {B : Type 0} {m n : Task World B} (b : Bool)
      → RefinesTask A m
      → RefinesTask A n
      → RefinesTask A (λ w. (if b then m else n) w)
  if-Refines true h k = h
  if-Refines false h k = k
