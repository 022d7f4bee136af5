-- ===== src/Broker/Replies/RoundTrip.antt =====
-- What Redis replies is what the parsers of src/broker/resp.ts read back, in both protocols.
use open_dilim.Prelude.{◌≡◌, refl, Bool, true, false, List, [], ◌∷◌, map, append-nil}
use open_dilim.Prelude.Text.{Text, text_eq_refl}
use open_dilim.Broker.Replies.{
  StreamEntry, PendingEntry, field_in, field_value, entries_in, parse_entries, entries_of_streams,
  entries_of_values, parse_read_reply, pending_in, parse_pending,
}
use open_dilim.Broker.Stream.{
  PelRow, entries_reply, entry_items, read_reply, pending_reply, pending_items,
}

entries_in-entry_items :
    (name : Text) (entries : List StreamEntry)
    → entries_in name (entry_items name entries) ≡ entries
unfolding entries_in field_value field_in
entries_in-entry_items name [] = refl
entries_in-entry_items name (entry ∷ entries) =
    rw (text_eq_refl name, entries_in-entry_items name entries)

pub parse_entries-entries_reply :
    (name : Text) (entries : List StreamEntry)
    → parse_entries (entries_reply name entries) name ≡ entries
unfolding parse_entries entries_reply
parse_entries-entries_reply name entries = entries_in-entry_items name entries

-- What XREADGROUP replies, whichever protocol is spoken, is read as the entries that it hands over.
pub parse_read_reply-read_reply :
    (resp3 : Bool) (stream name : Text) (entries : List StreamEntry)
    → parse_read_reply (read_reply resp3 stream name entries) name ≡ entries
unfolding parse_read_reply read_reply entries_of_streams entries_of_values
parse_read_reply-read_reply resp3 stream name [] = refl
parse_read_reply-read_reply true stream name (entry ∷ entries) =
    rw (parse_entries-entries_reply name (entry ∷ entries)) (append-nil (entry ∷ entries))
parse_read_reply-read_reply false stream name (entry ∷ entries) =
    rw (parse_entries-entries_reply name (entry ∷ entries)) (append-nil (entry ∷ entries))

abbrev pub pending_entry : PelRow → PendingEntry
pending_entry row = record { id = row.id; deliveries = row.deliveries }

pending_in-pending_items :
    (now : _) (rows : List PelRow) → pending_in (pending_items now rows) ≡ map pending_entry rows
unfolding pending_in
pending_in-pending_items now [] = refl
pending_in-pending_items now (row ∷ rows) = rw (pending_in-pending_items now rows)

pub parse_pending-pending_reply :
    (now : _) (rows : List PelRow) → parse_pending (pending_reply now rows) ≡ map pending_entry rows
unfolding parse_pending pending_reply
parse_pending-pending_reply now rows = pending_in-pending_items now rows
