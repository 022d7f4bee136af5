-- ===== src/Workflow/Open/Branches.antt =====
-- What opening a request leads to, on every branch (openRequest of src/workflows/engine.ts).
use open_dilim.Prelude.{
  subst, ◌≡◌, refl, sym, ◌⊎◌, inl, inr, Bool, true, false, Option, none, some, List, Bool-cases,
}
use open_dilim.Prelude.Text.{Text}
use open_dilim.Task.{Result, ok, thrown, pure, continue, bind-ok, bind-thrown}
use open_dilim.Chat.{same_room}
use open_dilim.Chat.Ports.{Bus, is_marked}
use open_dilim.Workflow.Types.{PendingRequest, TargetResolution, WorkflowDef}
use open_dilim.Workflow.Row.{Runtime}
use open_dilim.Workflow.Store.{Table, OpenPendingInput, open_pending}
use open_dilim.Workflow.Queries.{find_open}
use open_dilim.Workflow.Queries.Lookup.{find_open-open_pending}
use open_dilim.Workflow.Store.Runs.{Statement, run}
use open_dilim.Workflow.Ask.{World, dispatch_ask}
use open_dilim.Workflow.Ask.Delivery.{ask_key, Dispatched, dispatch_ask-Dispatched}
use open_dilim.Workflow.Open.{
  OpenInput, OpenOutcome, asked, Others, ask_first, raced_outcome, after_insert, pending_input,
  with_target, if_unanswered, if_not_open, with_subject, open_request,
}

module _ (runtime : Runtime) (def : WorkflowDef) (input : OpenInput) (subject : Text) where
  -- The request can be looked up, and unless the room asked itself the ask is marked as sent.
  pub record IsAsked (request : PendingRequest) (self_room : Bool) (before : Bus) (after : World)
      : Type 0 where
    pub recorded : find_open runtime def.name subject after.table ≡ some request
    pub self : self_room ≡ same_room request.target request.origin
    pub quiet : self_room ≡ true → after.bus ≡ before
    pub marked : self_room ≡ false → is_marked (ask_key request) after.bus ≡ true

  abbrev pub Opened : Bus → Result OpenOutcome → World → Type 0
  Opened before (ok (asked request self_room)) after = IsAsked request self_room before after
  Opened before (thrown e) after =
      (after.bus ≡ before)
      ⊎ ((request : PendingRequest) × (find_open runtime def.name subject after.table
            ≡ some request))
  Opened before (ok _) after = after.bus ≡ before

  first_outcome : PendingRequest → Result Bool → Result OpenOutcome
  first_outcome request (ok sent) = ok (asked request false)
  first_outcome request (thrown e) = thrown e

  ask_first_self :
      (request : PendingRequest) (w : World)
      → same_room request.target request.origin ≡ true
      → ask_first runtime def input request w ≡ (ok (asked request true), w)
  unfolding ask_first
  ask_first_self request w self = rw self

  ask_first-other :
      (request : PendingRequest) (w w' : World) (r : Result Bool)
      → same_room request.target request.origin ≡ false
      → dispatch_ask def request input.now_ms false w ≡ (r, w')
      → ask_first runtime def input request w ≡ (first_outcome request r, w')
  unfolding ask_first first_outcome
  ask_first-other request w w' (ok sent) other e = rw other (
      bind-ok (dispatch_ask def request input.now_ms false) w w' (λ _. pure (asked request false))
        e)
  ask_first-other request w w' (thrown f) other e = rw other (
      bind-thrown (dispatch_ask def request input.now_ms false) w w'
        (λ _. pure (asked request false)) e)

  first_outcome-Opened :
      (request : PendingRequest) (w w' : World) (r : Result Bool)
      → same_room request.target request.origin ≡ false
      → find_open runtime def.name subject w.table ≡ some request
      → Dispatched def request input.now_ms false w r w'
      → Opened w.bus (first_outcome request r) w'
  unfolding first_outcome
  first_outcome-Opened request w w' (ok true) other there d = record {
    recorded = rw d.table there;
    self = sym other;
    quiet = λ h. cc;
    marked = λ _. d.marked;
  }
  first_outcome-Opened request w w' (ok false) other there d = record {
    recorded = rw d.1 there;
    self = sym other;
    quiet = λ h. cc;
    marked = λ _. rw d.1 d.0;
  }
  first_outcome-Opened request w w' (thrown e) other there d = inr (request, rw d.0 there)

  ask_first-Opened :
      (request : PendingRequest) (w : World)
      → find_open runtime def.name subject w.table ≡ some request
      → Opened w.bus
          (ask_first runtime def input request w).0
          (ask_first runtime def input request w).1
  ask_first-Opened request w there = elim (Bool-cases (same_room request.target request.origin)) [
    | inl self ↦
        rw (ask_first_self request w self)
          (record { recorded = there; self = sym self; quiet = λ _. refl; marked = λ h. cc })
    | inr other ↦ rw (ask_first-other request w _ _ other refl) (
        first_outcome-Opened request w _ _ other there
          (dispatch_ask-Dispatched def request input.now_ms false w))
  ]

  raced-Opened :
      (w : World) (raced : Option PendingRequest)
      → Opened w.bus (ok (raced_outcome runtime subject raced)) w
  unfolding raced_outcome
  raced-Opened w none = refl
  raced-Opened w (some request) = refl

  module _ (others : Others) (uuid : Text) where
    abbrev after_others : List Statement → World → World
    after_others statements w = record w { table = run runtime statements w.table }

    after_insert-Opened :
        (inserted : Option PendingRequest) (w : World)
        → ((request : PendingRequest)
            → inserted ≡ some request
            → find_open runtime def.name subject w.table ≡ some request)
        → Opened w.bus
            (after_insert runtime def input others subject inserted w).0
            (after_insert runtime def input others subject inserted w).1
    unfolding after_insert
    after_insert-Opened (some request) w there = ask_first-Opened request w (there request refl)
    after_insert-Opened none w there =
        raced-Opened (after_others others.after_open w)
          (find_open runtime def.name subject (run runtime others.after_open w.table))

    inserted-Opened :
        (request : OpenPendingInput) (w : World) (r : Result (Option PendingRequest))
        (table : Table)
        → request.workflow ≡ def.name
        → request.subject ≡ some subject
        → open_pending runtime uuid w.clock request w.table ≡ (r, table)
        → Opened w.bus
            (continue
              (after_insert runtime def input others subject)
              (r, record w { table = table })).0
            (continue
              (after_insert runtime def input others subject)
              (r, record w { table = table })).1
    inserted-Opened request w (thrown e) table named given done = inl refl
    inserted-Opened request w (ok inserted) table named given done =
        after_insert-Opened inserted (record w { table = table })
          (λ found h.
            subst (λ name. find_open runtime name subject table ≡ some found) named
              (find_open-open_pending runtime uuid w.clock request w.table subject given found table
                (subst (λ i. open_pending runtime uuid w.clock request w.table ≡ (ok i, table)) h
                  done)))

    with_target-Opened :
        (target : TargetResolution) (w : World)
        → Opened w.bus
            (with_target runtime def input others uuid subject target w).0
            (with_target runtime def input others uuid subject target w).1
    unfolding with_target pending_input
    with_target-Opened TargetResolution.unknown_subject w = refl
    with_target-Opened (TargetResolution.no_room detail) w = refl
    with_target-Opened (TargetResolution.failed reason) w = refl
    with_target-Opened (TargetResolution.room target state) w =
        inserted-Opened (pending_input runtime def input subject target state) w _ _ refl refl refl

    if_unanswered-Opened :
        (answered : Option PendingRequest) (w : World)
        → Opened w.bus
            (if_unanswered runtime def input others uuid subject answered w).0
            (if_unanswered runtime def input others uuid subject answered w).1
    unfolding if_unanswered
    if_unanswered-Opened (some request) w = refl
    if_unanswered-Opened none w =
        with_target-Opened (def.resolve_target subject)
          (after_others others.after_resolve_target (after_others others.after_find_answered w))

    if_not_open-Opened :
        (waiting : Option PendingRequest) (w : World)
        → Opened w.bus
            (if_not_open runtime def input others uuid subject waiting w).0
            (if_not_open runtime def input others uuid subject waiting w).1
    unfolding if_not_open
    if_not_open-Opened (some request) w = refl
    if_not_open-Opened none w = if_unanswered-Opened _ (after_others others.after_find_open w)

    -- Every outcome for a subject that is valid, whatever the table holds and other instances do to it
    -- between the queries: a request that is reported as
    -- asked can be looked up, with its ask marked as sent unless the room asked itself; every other
    -- outcome leaves the queue, the histories, the marks and the sent messages alone; and a call
    -- that throws leaves them alone too or has recorded the request.
    pub open_request-Opened :
        (w : World)
        → def.normalize_subject input.subject ≡ some subject
        → Opened w.bus
            (open_request runtime def input others uuid w).0
            (open_request runtime def input others uuid w).1
    unfolding open_request with_subject
    open_request-Opened w given =
        rw given (if_not_open-Opened (find_open runtime def.name subject w.table) w)
