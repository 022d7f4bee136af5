-- ===== src/Broker/Stream.antt =====
-- The ingress stream on Redis, as far as the commands of src/broker/queue.ts reach: the entries that
-- the group has read and those it has not, its pending entries in the order of their ids, and the
-- stream of dead letters. `acked` and `trimmed` note what was acknowledged by a worker and what XADD
-- cut off. Redis is version 7 (docker-compose.yml): XCLAIM forgets a row whose entry is gone.
pub mod Runs
pub mod Safe
use open_dilim.Prelude.{
  ℕ, ◌+◌, ◌-◌, min, Bool, true, false, not, ◌&&◌, ◌||◌, Option, none, some, List, [], ◌∷◌, ◌++◌,
  map, any, select, collect, get_first, take, drop, length, leb, if◌then◌else◌,
}
use open_dilim.Prelude.Update.{update_where}
use open_dilim.Prelude.Text.{Text, codes, text_eq}
use open_dilim.Workflow.Types.{
  Value, null, integer, text, array, object, Items, nil, cons, end, field,
}
use open_dilim.Broker.Replies.{StreamEntry}

pub record PelRow : Type 0 where
  pub id : Text
  pub consumer : Text
  pub since : ℕ
  pub deliveries : ℕ

pub record DeadLetter : Type 0 where
  pub payload : Text
  pub src_id : Text

pub record Redis : Type 0 where
  pub clock : ℕ
  pub seen : List StreamEntry
  pub unread : List StreamEntry
  pub pel : List PelRow
  pub dlq : List DeadLetter
  pub acked : List Text
  pub trimmed : List Text

abbrev pub stream_maxlen : ℕ
stream_maxlen = 100000

abbrev pub has_entry_id : Text → StreamEntry → Bool
has_entry_id id entry = text_eq entry.id id

abbrev pub has_pel_id : Text → PelRow → Bool
has_pel_id id row = text_eq row.id id

abbrev pub entry_id : StreamEntry → Text
entry_id entry = entry.id

-- How many of the oldest entries XADD MAXLEN ~ cuts off: what it likes, as long as `stream_maxlen`
-- entries are left.
unfoldable pub excess : ℕ → Redis → ℕ
excess cut r = min cut (length r.seen + length r.unread - stream_maxlen)

unfoldable pub trim_oldest : ℕ → Redis → Redis
trim_oldest n r = record r {
  seen = drop n r.seen;
  unread = drop (n - length r.seen) r.unread;
  trimmed = r.trimmed ++ map entry_id (take n r.seen ++ take (n - length r.seen) r.unread);
}

unfoldable pub xadd : StreamEntry → ℕ → Redis → Redis
unfolding excess trim_oldest
xadd entry cut r =
    let longer = record r { unread = r.unread ++ entry ∷ [] } in
    trim_oldest (excess cut longer) longer

abbrev pub new_row : Text → ℕ → StreamEntry → PelRow
new_row consumer now entry = record {
  id = entry.id;
  consumer = consumer;
  since = now;
  deliveries = 1;
}

-- `XREADGROUP ... >`: the first entries that the group has not read.
unfoldable pub xreadgroup : Text → ℕ → Redis → Redis
xreadgroup consumer n r = record r {
  seen = r.seen ++ take n r.unread;
  unread = drop n r.unread;
  pel = r.pel ++ map (new_row consumer r.clock) (take n r.unread);
}

abbrev pub is_stale : ℕ → Redis → PelRow → Bool
is_stale min_idle r row = leb (row.since + min_idle) r.clock

abbrev pub stale_rows : ℕ → ℕ → Redis → List PelRow
stale_rows min_idle n r = take n (select (is_stale min_idle r) r.pel)

abbrev pub is_listed : List Text → PelRow → Bool
is_listed ids row = any (text_eq row.id) ids

abbrev pub is_claimable : ℕ → List Text → Redis → PelRow → Bool
is_claimable min_idle ids r row = is_listed ids row && is_stale min_idle r row

abbrev pub claimed_row : Text → ℕ → PelRow → PelRow
claimed_row consumer now row = record row {
  consumer = consumer;
  since = now;
  deliveries = row.deliveries + 1;
}

abbrev pub is_in_stream : Text → Redis → Bool
is_in_stream id r = any (has_entry_id id) r.unread || any (has_entry_id id) r.seen

abbrev pub is_gone : ℕ → List Text → Redis → PelRow → Bool
is_gone min_idle ids r row = is_claimable min_idle ids r row && not (is_in_stream row.id r)

unfoldable pub xclaim : Text → ℕ → List Text → Redis → Redis
xclaim consumer min_idle ids r = record r {
  pel =
      update_where (is_claimable min_idle ids r) (claimed_row consumer r.clock)
        (select (λ row. not (is_gone min_idle ids r row)) r.pel);
}

abbrev pub entries_with : Text → Redis → List StreamEntry
entries_with id r = select (has_entry_id id) (r.seen ++ r.unread)

abbrev pub claimed_entry : ℕ → Redis → Text → Option StreamEntry
claimed_entry min_idle r id =
    if any (λ row. has_pel_id id row && is_stale min_idle r row) r.pel
    then get_first (entries_with id r)
    else none

-- The entries that XCLAIM replies with.
abbrev pub claimed_entries : ℕ → List Text → Redis → List StreamEntry
claimed_entries min_idle ids r = collect (claimed_entry min_idle r) ids

unfoldable pub xack : Text → Redis → Redis
xack id r = record r { pel = select (λ row. not (has_pel_id id row)) r.pel }

unfoldable pub xdel : Text → Redis → Redis
xdel id r = record r {
  seen = select (λ entry. not (has_entry_id id entry)) r.seen;
  unread = select (λ entry. not (has_entry_id id entry)) r.unread;
}

unfoldable pub xadd_dlq : Text → Text → Redis → Redis
xadd_dlq payload id r = record r { dlq = r.dlq ++ record { payload = payload; src_id = id } ∷ [] }

abbrev entry_reply : Text → StreamEntry → Value
entry_reply name entry =
    array
      (cons (text entry.id) (cons (array (cons (text name) (cons (text entry.payload) nil))) nil))

abbrev pub entry_items : Text → List StreamEntry → Items
entry_items name [] = nil
entry_items name (entry ∷ entries) = cons (entry_reply name entry) (entry_items name entries)

unfoldable pub entries_reply : Text → List StreamEntry → Value
entries_reply name entries = array (entry_items name entries)

-- XREADGROUP names the stream, in a map (RESP3) or in an array (RESP2), and is null when it waited
-- in vain.
unfoldable pub read_reply : Bool → Text → Text → List StreamEntry → Value
unfolding entries_reply
read_reply resp3 stream name [] = null
read_reply true stream name (entry ∷ entries) =
    object (field stream (entries_reply name (entry ∷ entries)) end)
read_reply false stream name (entry ∷ entries) =
    array (cons (array (cons (text stream) (cons (entries_reply name (entry ∷ entries)) nil))) nil)

abbrev pending_row_reply : ℕ → PelRow → Value
pending_row_reply now row = array (
    cons (text row.id) (
      cons (text row.consumer)
        (cons (integer (now - row.since)) (cons (integer row.deliveries) nil))))

abbrev pub pending_items : ℕ → List PelRow → Items
pending_items now [] = nil
pending_items now (row ∷ rows) = cons (pending_row_reply now row) (pending_items now rows)

unfoldable pub pending_reply : ℕ → List PelRow → Value
pending_reply now rows = array (pending_items now rows)
