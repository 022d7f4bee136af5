-- ===== src/Workflow/Poller/Claiming.antt =====
-- A reminder goes out only behind a granted claim (remind of src/workflows/poller.ts).
use open_dilim.Prelude.{
  ℕ, zero, suc, ◌≤◌, ◌<◌, ◌≡◌, refl, sym, ◌∙◌, ◌⊎◌, inl, inr, Bool, true, false, Option, none, some,
  List, [], ◌∷◌, ◌++◌, ap, arith, length, take, drop, length-drop, take-append-drop,
}
use open_dilim.Task.{Result, ok, thrown, pure, continue, bind-ok}
use open_dilim.Workflow.Types.{PendingRequest, WorkflowDef, resolve_def}
use open_dilim.Workflow.Schedule.{next_remind_at}
use open_dilim.Workflow.Schedule.Hours.{next_remind_at-later}
use open_dilim.Workflow.Row.{Runtime}
use open_dilim.Workflow.Store.{Table, claim_remind}
use open_dilim.Workflow.Store.Runs.{Statement, run}
use open_dilim.Chat.Ports.{Bus}
use open_dilim.Workflow.Ask.{World, build_ask_envelope}
use open_dilim.Workflow.Ask.Delivery.{Dispatched, dispatch_ask-Dispatched}
use open_dilim.Workflow.Poller.{
  asked_again, ask_if_claimed, claim_and_ask, remind_with, remind_expected, remind, remind_safely,
  remind_batch, remind_batches, remind_batch_size,
}

-- The claim was granted and moved the reminder forward, and the ask with the next number was queued.
pub record IsReminded (request : PendingRequest) (now_ms : ℕ) (table : Table) (before : Bus)
    (after : World) : Type 0 where
  pub def : WorkflowDef
  pub expected : ℕ
  pub next : ℕ
  pub read : request.next_remind_at ≡ some expected
  pub later : now_ms < next
  pub claimed : (claim_remind request.id expected next table).0 ≡ true
  pub moved : after.table ≡ (claim_remind request.id expected next table).1
  pub queued :
      after.ingress
      ≡ before.ingress ++ build_ask_envelope def (asked_again request) now_ms true ∷ []

module _ (runtime : Runtime) (registry : List WorkflowDef) (request : PendingRequest) (now_ms : ℕ)
    (table : Table) where
  abbrev pub Reminded : Bus → World → Type 0
  Reminded before after =
      (after.ingress ≡ before.ingress) ⊎ IsReminded request now_ms table before after

  module _ (def : WorkflowDef) (expected next : ℕ) (read : request.next_remind_at ≡ some expected)
      (later : now_ms < next) (w : World) where
    asked_Reminded :
        (before : World) (r : Result Bool) (w' : World)
        → before.ingress ≡ w.ingress
        → before.table ≡ (claim_remind request.id expected next table).1
        → (claim_remind request.id expected next table).0 ≡ true
        → Dispatched def (asked_again request) now_ms true before r w'
        → Reminded w.bus (continue {A = Bool} (λ _. pure tt) (r, w')).1
    asked_Reminded before (ok true) w' same moved claimed d = inr (record {
      def = def;
      expected = expected;
      next = next;
      read = read;
      later = later;
      claimed = claimed;
      moved = d.table ∙ moved;
      queued = rw (← same) d.queued;
    })
    asked_Reminded before (ok false) w' same moved claimed d = inl (rw d.1 same)
    asked_Reminded before (thrown e) w' same moved claimed (table, sent, down, inl unqueued) =
        inl (unqueued ∙ same)
    asked_Reminded before (thrown e) w' same moved claimed
          (table, sent, down, inr (fresh, queued)) =
        inr (record {
          def = def;
          expected = expected;
          next = next;
          read = read;
          later = later;
          claimed = claimed;
          moved = table ∙ moved;
          queued = rw (← same) queued;
        })

    claimed_Reminded :
        (claimed : Bool) (w' : World)
        → w'.ingress ≡ w.ingress
        → w'.table ≡ (claim_remind request.id expected next table).1
        → (claim_remind request.id expected next table).0 ≡ claimed
        → Reminded w.bus (ask_if_claimed def request now_ms claimed w').1
    unfolding ask_if_claimed
    claimed_Reminded false w' same moved e = inl same
    claimed_Reminded true w' same moved e =
        asked_Reminded w' _ _ same moved e
          (dispatch_ask-Dispatched def (asked_again request) now_ms true w')

module _ (runtime : Runtime) (registry : List WorkflowDef) (request : PendingRequest) (now_ms : ℕ)
    (others : List Statement) where
  claim_and_ask-Reminded :
      (def : WorkflowDef) (expected : ℕ) (next : Option ℕ) (w : World)
      → request.next_remind_at ≡ some expected
      → next_remind_at def now_ms ≡ next
      → Reminded runtime registry request now_ms w.table w.bus
          (claim_and_ask def request now_ms others expected next w).1
  unfolding claim_and_ask
  claim_and_ask-Reminded def expected none w read e = inl refl
  claim_and_ask-Reminded def expected (some next) w read e =
      claimed_Reminded runtime registry request now_ms w.table def expected next read
        (next_remind_at-later def now_ms next e).0 w _
        (record w { table = (claim_remind request.id expected next w.table).1 }) refl refl refl

  remind_with-Reminded :
      (def : Option WorkflowDef) (expected : ℕ) (w : World)
      → request.next_remind_at ≡ some expected
      → Reminded runtime registry request now_ms w.table w.bus
          (remind_with request now_ms others expected def w).1
  unfolding remind_with
  remind_with-Reminded none expected w read = inl refl
  remind_with-Reminded (some def) expected w read =
      claim_and_ask-Reminded def expected (next_remind_at def now_ms) w read refl

  remind_expected-Reminded :
      (expected : Option ℕ) (w : World)
      → request.next_remind_at ≡ expected
      → Reminded runtime registry request now_ms
          (run runtime others w.table)
          w.bus
          (remind_expected runtime registry request now_ms others expected w).1
  unfolding remind_expected
  remind_expected-Reminded none w read = inl refl
  remind_expected-Reminded (some expected) w read =
      remind_with-Reminded (resolve_def request.workflow registry) expected
        (record w { table = run runtime others w.table }) read

  -- Whatever other instances did to the table since the request was read: either the reminder
  -- queues nothing, or its claim of the instant that was read is granted on the table as it then
  -- stands, moves the reminder past the present, and exactly one ask is queued, with the next number.
  pub remind-Reminded :
      (w : World)
      → Reminded runtime registry request now_ms
          (run runtime others w.table)
          w.bus
          (remind runtime registry request now_ms others w).1
  unfolding remind
  remind-Reminded w = remind_expected-Reminded request.next_remind_at w refl

module _ (runtime : Runtime) (registry : List WorkflowDef) (now_ms : ℕ)
    (others : PendingRequest → List Statement) where
  remind_batch-append :
      (xs ys : List PendingRequest) (w : World)
      → remind_batch runtime registry (xs ++ ys) now_ms others w
        ≡ remind_batch runtime registry ys now_ms others
            (remind_batch runtime registry xs now_ms others w).1
  unfolding remind_batch remind_safely
  remind_batch-append [] ys w = refl
  remind_batch-append (x ∷ xs) ys w =
      remind_batch-append xs ys (remind runtime registry x now_ms (others x) w).1

  remind_batch-ok :
      (xs : List PendingRequest) (w : World)
      → (remind_batch runtime registry xs now_ms others w).0 ≡ ok tt
  unfolding remind_batch remind_safely
  remind_batch-ok [] w = refl
  remind_batch-ok (x ∷ xs) w = remind_batch-ok xs (remind runtime registry x now_ms (others x) w).1

  -- With a round for each due request, the batches together remind of every due request, each once
  -- and in order, and never throw.
  pub remind_batches-remind_batch :
      (rounds : ℕ) (due : List PendingRequest) (w : World)
      → length due ≤ rounds
      → remind_batches runtime registry rounds due now_ms others w
        ≡ (ok tt, (remind_batch runtime registry due now_ms others w).1)
  unfolding remind_batches
  remind_batches-remind_batch zero [] w enough = unfold remind_batch in refl
  remind_batches-remind_batch (suc rounds) [] w enough = unfold remind_batch in refl
  remind_batches-remind_batch zero (x ∷ xs) w enough = absurd (omega arith)
  remind_batches-remind_batch (suc rounds) (x ∷ xs) w enough =
      bind-ok (remind_batch runtime registry first now_ms others) w after
        (λ _. remind_batches runtime registry rounds rest now_ms others)
        (λ i. (remind_batch-ok first w i, after))
      ∙ remind_batches-remind_batch rounds rest after
          (omega (arith, length-drop remind_batch_size (x ∷ xs)))
      ∙ λ i. (ok tt, whole i)
    where
      first : List PendingRequest
      first = take remind_batch_size (x ∷ xs)

      rest : List PendingRequest
      rest = drop remind_batch_size (x ∷ xs)

      after : World
      after = (remind_batch runtime registry first now_ms others w).1

      whole :
          (remind_batch runtime registry rest now_ms others after).1
          ≡ (remind_batch runtime registry (x ∷ xs) now_ms others w).1
      whole =
          sym (ap (λ p. p.1) (remind_batch-append first rest w))
          ∙ ap (λ l. (remind_batch runtime registry l now_ms others w).1)
              (take-append-drop remind_batch_size (x ∷ xs))
