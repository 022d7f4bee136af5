-- ===== src/Broker/Queue/Calculus.antt =====
-- What a task of the broker does to the stream, it does by commands of Stream/Runs: the rules for the
-- ways in which tasks are put together (src/broker/queue.ts). What must be true of the stream before
-- a task is kept by the commands of the others.
use open_dilim.Prelude.{
  ◌≡◌, refl, Bool, true, false, List, [], ◌∷◌, ◌++◌, Bool-cases, inl, inr, if◌then◌else◌, arith,
}
use open_dilim.Prelude.Update.{any-append-left}
use open_dilim.Prelude.Text.{Text}
use open_dilim.Task.{Task, Result, ok, thrown, continue, ◌>>=◌, pure, ignore_failure}
use open_dilim.Workflow.Types.{Value}
use open_dilim.Broker.Stream.{Redis, xadd, trim_oldest, xreadgroup, xclaim, xack, xdel, xadd_dlq}
use open_dilim.Broker.Stream.Runs.{
  Command, adding, reading, claiming, confirming, dead_lettering, releasing, deleting, elapsing,
  is_settled, has_src_id, confirm, execute, run,
}
use open_dilim.Broker.Queue.{
  World, Node, Fate, served, refused, reply_lost, next_turn, awaited, serve, send, breathe, on_node,
}

pub run-append : (cs ds : List Command) (r : Redis) → run (cs ++ ds) r ≡ run ds (run cs r)
unfolding run
run-append [] ds r = refl
run-append (c ∷ cs) ds r = run-append cs ds (execute c r)

-- What is settled stays settled.
settled-execute :
    (id : Text) (c : Command) (r : Redis)
    → is_settled id r ≡ true
    → is_settled id (execute c r) ≡ true
unfolding execute xadd trim_oldest xreadgroup xclaim confirm xack xdel xadd_dlq
settled-execute id (adding entry cut) r h = h
settled-execute id (reading consumer n) r h = h
settled-execute id (claiming consumer min_idle ids) r h = h
settled-execute id (confirming other) r h = ground arith
settled-execute id (dead_lettering payload other) r h = ground (
  arith,
  any-append-left (has_src_id id) r.dlq (record { payload = payload; src_id = other } ∷ []),
)
settled-execute id (releasing other) r h = elim (Bool-cases (is_settled other r)) [
  | inl e ↦ rw e h
  | inr e ↦ rw e h
]
settled-execute id (deleting other) r h = elim (Bool-cases (is_settled other r)) [
  | inl e ↦ rw e h
  | inr e ↦ rw e h
]
settled-execute id (elapsing ms) r h = h

pub settled-run :
    (id : Text) (cs : List Command) (r : Redis)
    → is_settled id r ≡ true
    → is_settled id (run cs r) ≡ true
unfolding run
settled-run id [] r h = h
settled-run id (c ∷ cs) r h = settled-run id cs (execute c r) (settled-execute id c r h)

abbrev pub Refines : World → World → Type 0
Refines before after = (cs : List Command) × (after.redis ≡ run cs before.redis)

abbrev pub After : {B : Type 0} → (B → Redis → Type 0) → Result B × World → Type 0
After Q (ok b, w) = Q b w.redis
After Q (thrown e, w) = Unit {0}

-- From a stream with `P`, the task changes it as a run of commands does, and returns with `Q`.
pub record Triple {B : Type 0} (P : Redis → Type 0) (m : Task World B) (Q : B → Redis → Type 0)
    : Type 0 where
  pub apply : (w : World) → P w.redis → Refines w (m w).1 × After Q (m w)

abbrev pub Always : Redis → Type 0
Always r = Unit {0}

abbrev pub Lawful : {B : Type 0} → Task World B → Type 0
Lawful m = Triple Always m (λ _. Always)

abbrev pub Settled : Text → Redis → Type 0
Settled id r = is_settled id r ≡ true

-- What the commands of the others keep.
abbrev pub IsStable : (Redis → Type 0) → Type 0
IsStable P = (cs : List Command) (r : Redis) → P r → P (run cs r)

pub Refines-trans : (u v w : World) → Refines u v → Refines v w → Refines u w
Refines-trans u v w (cs, e) (ds, f) = (cs ++ ds, rw (run-append cs ds u.redis) (rw (← e) f))

Refines-same : (w w' : World) → w'.redis ≡ w.redis → Refines w w'
unfolding run
Refines-same w w' e = ([], e)

pub pure-Lawful : {B : Type 0} {b : B} → Lawful (pure b)
pure-Lawful = record { apply = λ w _. (Refines-same w w refl, tt) }

pub on_node-Lawful : (f : Node → Node) → Lawful (on_node f)
on_node-Lawful f = record { apply = λ w _. (Refines-same w (on_node f w).1 refl, tt) }

pub breathe-Lawful : Lawful breathe
unfolding breathe awaited
breathe-Lawful = record { apply = λ w _. (((next_turn w.turns).foreign, refl), tt) }

pub bind-Triple :
    {B : Type 0} {C : Type 0} {P : Redis → Type 0} {Q : B → Redis → Type 0} {S : C → Redis → Type 0}
    {m : Task World B} {f : B → Task World C}
    → Triple P m Q
    → ((b : B) → Triple (Q b) (f b) S)
    → Triple P (m >>= f) S
bind-Triple {B} {C} {P} {Q} {S} {m} {f} hm hf = record { apply = λ w p. go w (m w) (hm.apply w p) }
  where
    go :
        (w : World) (r : Result B × World)
        → Refines w r.1 × After Q r
        → Refines w (continue f r).1 × After S (continue f r)
    go w (ok b, v) (h, q) =
        let next = (hf b).apply v q in (Refines-trans w v (f b v).1 h next.0, next.1)
    go w (thrown e, v) (h, q) = (h, tt)

pub ignore-Lawful : {m : Task World (Unit {0})} → Lawful m → Lawful (ignore_failure m)
ignore-Lawful h = record { apply = λ w _. ((h.apply w tt).0, tt) }

pub if-Lawful :
    {B : Type 0} {m n : Task World B} (b : Bool)
    → Lawful m
    → Lawful n
    → Lawful (λ w. (if b then m else n) w)
if-Lawful true h k = h
if-Lawful false h k = k

-- A command that is sent, with what the others do before it.
module _ {P Q : Redis → Type 0} (command : Redis → Value × Redis) (cs : List Command) where
  serve-Triple :
      ((r : Redis) → P r → (command r).1 ≡ run cs r)
      → ((r : Redis) → P r → Q (command r).1)
      → (fate : Fate) → Triple P (serve command fate) (λ _. Q)
  unfolding run
  serve-Triple same post served = record { apply = λ w p. ((cs, same w.redis p), post w.redis p) }
  serve-Triple same post refused = record { apply = λ w p. (Refines-same w w refl, tt) }
  serve-Triple same post reply_lost = record { apply = λ w p. ((cs, same w.redis p), tt) }

  pub send-Triple :
      IsStable P
      → ((r : Redis) → P r → (command r).1 ≡ run cs r)
      → ((r : Redis) → P r → Q (command r).1)
      → Triple P (send command) (λ _. Q)
  unfolding send awaited
  send-Triple stable same post = record { apply = go }
    where
      go : (w : World) → P w.redis → Refines w (send command w).1 × After (λ _. Q) (send command w)
      go w p =
          let turn = next_turn w.turns in
          let h =
            (serve-Triple same post turn.fate).apply (awaited w) (stable turn.foreign w.redis p) in
          (Refines-trans w (awaited w) (send command w).1 (turn.foreign, refl) h.0, h.1)

-- A query, and a command of the others' kind, whatever the stream is like.
pub query-Lawful : (reply : Redis → Value) → Lawful (send (λ r. (reply r, r)))
unfolding run
query-Lawful reply = send-Triple (λ r. (reply r, r)) [] (λ _ _ _. tt) (λ _ _. refl) (λ _ _. tt)

pub command-Lawful :
    (reply : Redis → Value) (c : Command) → Lawful (send (λ r. (reply r, execute c r)))
unfolding run
command-Lawful reply c =
    send-Triple (λ r. (reply r, execute c r)) (c ∷ []) (λ _ _ _. tt) (λ _ _. refl) (λ _ _. tt)
