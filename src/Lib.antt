-- ===== src/Lib.antt =====
-- A verification library for the messaging back end of open-dilim (TypeScript, src/): a server that
-- answers in chat rooms with language-model agents. Rooms ask other rooms for facts and are told the
-- answers (workflows), jobs run on cron schedules, questions that nobody answers are picked up,
-- replies are split and cut for their channels, and the cost of the models is metered and limited for
-- each room and day.
--
-- The files and the code that they model:
--   Prelude, Prelude/*: tests, lists and UPDATE ... WHERE over native numbers, texts as lists of
--     UTF-16 code units, decimal numerals, white space, splitting at a separator, a stable sort.
--   Task: an `async` method as an action on explicit state, which returns or throws; what it changed
--     before it threw stays changed.
--   Chat, Chat/*: the types that all parts share (src/types/index.ts, src/broadcast/types.ts) and the
--     ports: dedupe gate (src/state/dedupe.ts), room history (append of src/state/session.ts), ingress
--     stream (publish of src/broker/queue.ts, which Broker models down to Redis), broadcaster. Each
--     command to Redis is served, refused, or served without its reply, as the state says.
--   Broadcast, Broadcast/*: capForChannel (src/broadcast/limits.ts), splitReply and typingDelayMs
--     (src/broadcast/split.ts).
--   Workflow, Workflow/*: src/workflows. Types and Row are PendingRequest, WorkflowDef, the registry and
--     the reading of rows; Store and Queries are SqlPendingStore; Ask, Open and Answer are engine.ts;
--     Poller is poller.ts; Service is service.ts; Schedule is schedule.ts. Store/Runs lists every
--     statement that the instances of the server can send, so that a run of statements is any
--     interleaving of theirs. openRequest, answerRequest and remind take what other instances do
--     between their queries as arguments.
--   Scheduler, Scheduler/*: src/scheduler. Number, Calendar, Cron and Next are schedule.ts; Repo is
--     repo.ts; Fire is fire.ts; Poller is poller.ts.
--   Usage, Usage/*: src/usage. Pricing is pricing.ts and the limits of budget.ts; Meter is meter.ts;
--     Ledger is store.ts; Gate is gate.ts.
--   Proactive, Proactive/*: Pending is src/proactive/pending.ts; Poller is src/proactive/poller.ts, with
--     `recent` of src/state/session.ts.
--   Worker, Worker/*: Lock is src/worker/lock.ts, as the steps that its promises can take; Burst is
--     src/worker/burst.ts, with src/state/turn-marker.ts, isSupersedable of
--     src/message-ingest/ingestor.ts, markLatestTurn of src/message-ingest/gateway.ts and parseCommand
--     of src/flash-command/registry.ts as far as it tells which texts are commands.
--   Announcement, Announcement/*: src/announcements. Types is types.ts with the tables that it works on;
--     Store is the statements of SqlAnnouncementStore; Queries is its queries, SqlApproverRoomLookup and
--     rooms.ts; Drafts is drafts.ts and the state; Notices and Service are service.ts, both ports; Poller is
--     poller.ts.
--     Store/Runs lists every statement, as for the workflows, and Actions every call of the ports and
--     every tick, with what other instances do in between.
--   Broker, Broker/*: src/broker. Replies is resp.ts; Stream is what the commands do to the stream on
--     Redis, and Stream/Runs lists them; Queue is RedisStreamBroker; Actions is what an instance is
--     asked to do. Before each command that an instance awaits, the others send theirs.
-- In each part the modules below a component prove what they are named for, and `Tests` holds runs on
-- small inputs.
--
-- A workflow and a job meet the rest of the server in the same way: they mark a message id at the
-- dedupe gate, append a turn to the history of a room, and put an envelope on the ingress stream. The
-- store hands out the right to do so by a compare-and-swap on the instant of the next reminder or run.
--
-- Conventions and bounds. Times are milliseconds since the epoch, natural numbers. A statement on a
-- table is one atomic step, and a table is the list of its rows in insertion order; the clock of the
-- database is the `clock` of the state. The rounds of steps_from (one more than the last value), of the
-- batches of the poller (one for each request), of in_year (one for each day) and of search_days (one
-- more than 366 * 8, as in the code) are enough, which the theorems about them show or do not need.
-- Amounts of money are exact; vndToPicoUsd rounds its quotient to a double in the program, and so
-- does Number() with literals of more than 15 digits.
--
-- Not modelled: the platforms' and the providers' clients, SQL itself, Intl (the day of the books and
-- the seconds that it has left stand in the state), timers around the ticks, logging. JSON.parse and
-- the parsing of dates out of strings are parameters (Runtime). The reminders of one batch run in order
-- here and concurrently in the program. `resolveTarget`, the texts and the normalizers of a workflow
-- are fields of WorkflowDef. The marker of a burst is kept as the number whose decimal text Redis
-- holds. Each command of schedule and claimDue (src/proactive/pending.ts) is a step of its own, with what
-- others do before it; that such a command fails is not modelled. In the announcements, the ids that Postgres and crypto.randomUUID make are arguments, as is
-- the order of texts by the collation; a draft is kept as its value, not as its JSON; which statements
-- fail stands in the state. The two queries of approve fail together, as one statement; in the program
-- the second can fail after the first has changed its rows. Ids are compared as texts, where Postgres
-- and ANNOUNCEMENT_ID_PATTERN do not tell upper from lower case. A channel that limits.ts does not
-- name has the limit for all others, also where its name is that of a property of every object, such
-- as `constructor`. A platform call that throws is taken to have sent nothing. Of the broker, ensureGroup
-- and the pause after an error are left out. The rest of the worker, so also the turns that the gate of
-- the budget lets through, the intake of the
-- proactive funnel and its judge, the rest of the message ingest, the memory, the agents and the tools
-- are not modelled.
pub mod Prelude
pub mod Task
pub mod Chat
pub mod Broadcast
pub mod Workflow
pub mod Scheduler
pub mod Usage
pub mod Proactive
pub mod Worker
pub mod Announcement
pub mod Broker
