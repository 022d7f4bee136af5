-- ===== src/Broker/Queue/Returns.antt =====
-- What a task of the broker returns, whatever the others do: the rules for the ways in which tasks are
-- put together (src/broker/queue.ts).
use open_dilim.Prelude.{◌≡◌, refl, Bool, true, false, if◌then◌else◌}
use open_dilim.Task.{Task, Result, ok, thrown, continue, ◌>>=◌, pure}
use open_dilim.Workflow.Types.{Value}
use open_dilim.Broker.Stream.{Redis}
use open_dilim.Broker.Queue.{
  World, Fate, served, refused, reply_lost, next_turn, awaited, serve, send,
}

abbrev pub Ok : {B : Type 0} → (B → Type 0) → Result B → Type 0
Ok Q (ok b) = Q b
Ok Q (thrown e) = Unit {0}

-- Whatever the task returns has `Q`.
pub record Returns {B : Type 0} (Q : B → Type 0) (m : Task World B) : Type 0 where
  pub apply : (w : World) → Ok Q (m w).0

pub pure-Returns : {B : Type 0} {Q : B → Type 0} {b : B} → Q b → Returns Q (pure b)
pure-Returns q = record { apply = λ _. q }

pub bind-Returns :
    {B : Type 0} {C : Type 0} {Q : B → Type 0} {S : C → Type 0} {m : Task World B}
    {f : B → Task World C}
    → Returns Q m
    → ((b : B) → Q b → Returns S (f b))
    → Returns S (m >>= f)
bind-Returns {B} {C} {Q} {S} {m} {f} hm hf = record { apply = λ w. go (m w) (hm.apply w) }
  where
    go : (r : Result B × World) → Ok Q r.0 → Ok S (continue f r).0
    go (ok b, v) q = (hf b q).apply v
    go (thrown e, v) q = tt

pub weaken :
    {B : Type 0} {Q S : B → Type 0} {m : Task World B}
    → ((b : B) → Q b → S b)
    → Returns Q m
    → Returns S m
weaken {B} {Q} {S} {m} into h = record { apply = λ w. go (m w).0 (h.apply w) }
  where
    go : (r : Result B) → Ok Q r → Ok S r
    go (ok b) q = into b q
    go (thrown e) q = tt

serve-Returns :
    {Q : Value → Type 0} (command : Redis → Value × Redis) (fate : Fate)
    → ((r : Redis) → Q (command r).0)
    → Returns Q (serve command fate)
serve-Returns command served q = record { apply = λ w. q w.redis }
serve-Returns command refused q = record { apply = λ w. tt }
serve-Returns command reply_lost q = record { apply = λ w. tt }

pub send-Returns :
    {Q : Value → Type 0} (command : Redis → Value × Redis)
    → ((r : Redis) → Q (command r).0)
    → Returns Q (send command)
unfolding send
send-Returns command q = record {
  apply = λ w. (serve-Returns command (next_turn w.turns).fate q).apply (awaited w);
}

pub any_task : {B : Type 0} (m : Task World B) → Returns (λ _. Unit {0}) m
any_task {B} m = record { apply = λ w. go (m w).0 }
  where
    go : (r : Result B) → Ok (λ _. Unit {0}) r
    go (ok b) = tt
    go (thrown e) = tt

pub if-Returns :
    {B : Type 0} {Q : B → Type 0} {m n : Task World B} (b : Bool)
    → (b ≡ true → Returns Q m)
    → (b ≡ false → Returns Q n)
    → Returns Q (λ w. (if b then m else n) w)
if-Returns true h k = h refl
if-Returns false h k = k refl
