-- ===== src/Broker/Stream/Runs.antt =====
-- Every command that the instances send to the ingress stream (src/broker/queue.ts), so that a list
-- of commands is any interleaving of theirs. An entry is dropped from the pending ones by a worker
-- that acknowledges it (`confirming`); the other commands that take an entry away do so only to one
-- that a worker acknowledged or that is among the dead letters.
use open_dilim.Prelude.{ℕ, ◌+◌, Bool, ◌||◌, List, [], ◌∷◌, any, if◌then◌else◌}
use open_dilim.Prelude.Text.{Text, text_eq}
use open_dilim.Broker.Replies.{StreamEntry}
use open_dilim.Broker.Stream.{Redis, DeadLetter, xadd, xreadgroup, xclaim, xack, xdel, xadd_dlq}

pub data Command : Type 0 where
  adding : StreamEntry → ℕ → Command
  reading : Text → ℕ → Command
  claiming : Text → ℕ → List Text → Command
  confirming : Text → Command
  dead_lettering : Text → Text → Command
  releasing : Text → Command
  deleting : Text → Command
  elapsing : ℕ → Command

abbrev pub is_acked : Text → Redis → Bool
is_acked id r = any (text_eq id) r.acked

abbrev pub has_src_id : Text → DeadLetter → Bool
has_src_id id letter = text_eq letter.src_id id

abbrev pub is_dead : Text → Redis → Bool
is_dead id r = any (has_src_id id) r.dlq

-- A worker acknowledged the entry, or it is among the dead letters.
abbrev pub is_settled : Text → Redis → Bool
is_settled id r = is_acked id r || is_dead id r

unfoldable pub confirm : Text → Redis → Redis
unfolding xack
confirm id r = xack id (record r { acked = id ∷ r.acked })

unfoldable pub execute : Command → Redis → Redis
unfolding xadd xreadgroup xclaim confirm xack xdel xadd_dlq
execute (adding entry cut) r = xadd entry cut r
execute (reading consumer n) r = xreadgroup consumer n r
execute (claiming consumer min_idle ids) r = xclaim consumer min_idle ids r
execute (confirming id) r = confirm id r
execute (dead_lettering payload id) r = xadd_dlq payload id r
execute (releasing id) r = if is_settled id r then xack id r else r
execute (deleting id) r = if is_settled id r then xdel id r else r
execute (elapsing ms) r = record r { clock = r.clock + ms }

unfoldable pub run : List Command → Redis → Redis
unfolding execute
run [] r = r
run (c ∷ cs) r = run cs (execute c r)
