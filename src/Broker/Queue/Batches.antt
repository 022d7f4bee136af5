-- ===== src/Broker/Queue/Batches.antt =====
-- Which messages a round of the loop gets, and how many (src/broker/queue.ts).
use open_dilim.Prelude.{
  ℕ, ◌+◌, ◌-◌, ◌≤◌, ◌&&◌, leb, any-selected, any-take, min, ◌≡◌, refl, ap, ◌∙◌, Bool, true, Option,
  List, [], ◌∷◌, map, any, select, take, length, length-take, All, Bool-cases, inl, inr, ltb, arith,
}
use open_dilim.Prelude.Update.{All-map}
use open_dilim.Prelude.Text.{Text, text_eq}
use open_dilim.Workflow.Types.{Value}
use open_dilim.Broker.Replies.{StreamEntry, PendingEntry, parse_pending}
use open_dilim.Broker.Replies.RoundTrip.{
  parse_entries-entries_reply, parse_read_reply-read_reply, pending_entry,
  parse_pending-pending_reply,
}
use open_dilim.Broker.Stream.{
  PelRow, Redis, is_stale, stale_rows, claimed_entry, claimed_entries, entries_reply, read_reply,
  pending_reply, has_pel_id, xclaim, xreadgroup,
}
use open_dilim.Task.{Result, ok, thrown, continue}
use open_dilim.Broker.Stream.Runs.{run}
use open_dilim.Broker.Queue.{
  World, Fate, served, refused, reply_lost, next_turn, awaited, serve, send, claim_again,
  reclaim_listed, list_and_reclaim, reclaim_stale, read_new, or_read_new, fetch, data_field,
  ingress_stream, reclaim_interval_ms, reclaim_min_idle_ms, reclaim_batch,
}
use open_dilim.Broker.Queue.Returns.{Ok, Returns, pure-Returns, bind-Returns, weaken, send-Returns}
use open_dilim.Broker.Queue.Retry.{
  retry_ids, sort_out-ids, asked_row, retry_ids-row, length-retry_ids, length-collect,
  collect-asked, claimed_entry-id,
}

-- The stream when the pending messages are listed: the others were served before.
abbrev pub listed_at : World → Redis
listed_at w = run (next_turn w.turns).foreign w.redis

-- A pending message with this id that was delivered less than three times, the last time five
-- minutes ago or earlier.
abbrev pub is_overdue : Redis → Text → PelRow → Bool
is_overdue listed id row =
    has_pel_id id row && ltb row.deliveries 3 && leb (row.since + 300_000) listed.clock

-- Each entry was overdue when it was listed, and there are not more of them than were asked for.
pub record IsRetried (limit : ℕ) (listed : Redis) (entries : List StreamEntry) : Type 0 where
  pub retried : All (λ e. any (is_overdue listed e.id) listed.pel ≡ true) entries
  pub bounded : length entries ≤ limit

module _ (consumer : Text) where
  abbrev Asked : List Text → List StreamEntry → Type 0
  Asked ids entries =
      All (λ e. any (text_eq e.id) ids ≡ true) entries × (length entries ≤ length ids)

  claim_again-Asked : (ids : List Text) → Returns (Asked ids) (claim_again consumer ids)
  unfolding claim_again
  claim_again-Asked [] = pure-Returns (tt, omega arith)
  claim_again-Asked (first ∷ rest) =
      let ids = first ∷ rest in
      bind-Returns
        (send-Returns
          {Q = λ raw.
            (r : Redis) × (raw
              ≡ entries_reply data_field (claimed_entries reclaim_min_idle_ms ids r))}
          (λ r. (
            entries_reply data_field (claimed_entries reclaim_min_idle_ms ids r),
            xclaim consumer reclaim_min_idle_ms ids r,
          ))
          (λ r. (r, refl)))
        (λ raw (r, e). pure-Returns (
          rw (e, parse_entries-entries_reply data_field (claimed_entries reclaim_min_idle_ms ids r))
            (
              collect-asked (claimed_entry reclaim_min_idle_ms r)
                  (claimed_entry-id reclaim_min_idle_ms r) ids,
              length-collect (claimed_entry reclaim_min_idle_ms r) ids,
            )))

  -- The ids of what was listed, and of that only what was delivered seldom enough.
  module _ (limit : ℕ) (listed : Redis) where
    abbrev rows : List PelRow
    rows = stale_rows reclaim_min_idle_ms (min limit reclaim_batch) listed

    asked-overdue :
        (id : Text) → any (asked_row id) rows ≡ true → any (is_overdue listed id) listed.pel ≡ true
    asked-overdue id h =
        any-selected (asked_row id) (is_stale reclaim_min_idle_ms listed) (is_overdue listed id)
          listed.pel (λ row asked stale. ground arith)
          (any-take (asked_row id) (min limit reclaim_batch)
            (select (is_stale reclaim_min_idle_ms listed) listed.pel) h)

    length-rows : length rows ≤ limit
    length-rows = omega (
      arith,
      length-take (min limit reclaim_batch)
          (select (is_stale reclaim_min_idle_ms listed) listed.pel),
    )

    Asked-IsRetried :
        (ids : List Text) (entries : List StreamEntry)
        → ids ≡ retry_ids (map pending_entry rows)
        → Asked ids entries
        → IsRetried limit listed entries
    Asked-IsRetried ids entries e (asked, fewer) = record {
      retried =
          All-map (λ e. any (text_eq e.id) ids ≡ true)
            (λ e. any (is_overdue listed e.id) listed.pel ≡ true)
            (λ entry h. asked-overdue entry.id (retry_ids-row entry.id rows (rw e at h))) entries
            asked;
      bounded = omega (arith, length-retry_ids rows, length-rows, fewer, ap length e);
    }

    reclaim_listed-IsRetried :
        (pending : List PendingEntry)
        → pending ≡ map pending_entry rows
        → Returns (IsRetried limit listed) (reclaim_listed consumer pending)
    unfolding reclaim_listed
    reclaim_listed-IsRetried [] e = pure-Returns (record { retried = tt; bounded = omega arith })
    reclaim_listed-IsRetried (first ∷ rest) e = bind-Returns (sort_out-ids (first ∷ rest)) (λ ids f.
        weaken (λ entries. Asked-IsRetried ids entries (f ∙ ap retry_ids e))
          (claim_again-Asked ids))

  -- The reply to the listing, if it comes, is that of the stream as it then was.
  listing-IsRetried :
      (limit : ℕ) (fate : Fate) (v : World)
      → Ok
          (IsRetried limit v.redis)
          (continue
            (λ raw. reclaim_listed consumer (parse_pending raw))
            (serve (λ r. (pending_reply r.clock (rows limit r), r)) fate v)).0
  listing-IsRetried limit served v =
      rw (parse_pending-pending_reply v.redis.clock (rows limit v.redis)) (
        (reclaim_listed-IsRetried limit v.redis (map pending_entry (rows limit v.redis)) refl).apply
          v)
  listing-IsRetried limit refused v = tt
  listing-IsRetried limit reply_lost v = tt

  list_and_reclaim-IsRetried :
      (limit : ℕ) (w : World)
      → Ok (IsRetried limit (listed_at w)) (list_and_reclaim consumer limit w).0
  unfolding list_and_reclaim send awaited
  list_and_reclaim-IsRetried limit w = listing-IsRetried limit (next_turn w.turns).fate (awaited w)

  -- Whatever the others send before and in between: what the loop claims again is at most as much as
  -- it asked for, and each message of it was pending for five minutes in the stream as it was when the
  -- loop listed it, and delivered fewer than three times.
  pub reclaim_stale-IsRetried :
      (limit : ℕ) (w : World)
      → Ok (IsRetried limit (listed_at w)) (reclaim_stale consumer limit w).0
  unfolding reclaim_stale
  reclaim_stale-IsRetried limit w =
      elim (Bool-cases (ltb (w.redis.clock - w.node.last_reclaim_at) reclaim_interval_ms)) [
        | inl early ↦ rw early (record { retried = tt; bounded = omega arith })
        | inr late ↦ rw late (
            list_and_reclaim-IsRetried limit
              (record w { node = record w.node { last_reclaim_at = w.redis.clock } }))
      ]

  reclaim_stale-bounded :
      (limit : ℕ) → Returns (λ entries. length entries ≤ limit) (reclaim_stale consumer limit)
  reclaim_stale-bounded limit = record {
    apply = λ w. go w (reclaim_stale consumer limit w).0 (reclaim_stale-IsRetried limit w);
  }
    where
      go :
          (w : World) (r : Result (List StreamEntry))
          → Ok (IsRetried limit (listed_at w)) r
          → Ok (λ entries. length entries ≤ limit) r
      go w (ok entries) h = h.bounded
      go w (thrown e) h = tt

  module _ (resp3 : Bool) where
    read_new-bounded :
        (count : ℕ) → Returns (λ entries. length entries ≤ count) (read_new consumer resp3 count)
    unfolding read_new
    read_new-bounded count =
        bind-Returns
          (send-Returns
            {Q = λ raw.
              (r : Redis) × (raw
                ≡ read_reply resp3 ingress_stream data_field (take count r.unread))}
            (λ r. (
              read_reply resp3 ingress_stream data_field (take count r.unread),
              xreadgroup consumer count r,
            ))
            (λ r. (r, refl)))
          (λ raw (r, e). pure-Returns (
            rw
              (e, parse_read_reply-read_reply resp3 ingress_stream data_field (take count r.unread))
              (length-take count r.unread)))

    module _ (parse_json : Text → Option Value) where
      or_read_new-bounded :
          (want : ℕ) (reclaimed : List StreamEntry)
          → length reclaimed ≤ want
          → Returns
              (λ entries. length entries ≤ want)
              (or_read_new parse_json consumer resp3 want reclaimed)
      unfolding or_read_new
      or_read_new-bounded want [] h = read_new-bounded want
      or_read_new-bounded want (first ∷ rest) h = pure-Returns h

      -- A round gets no more messages than workers wait for one.
      pub fetch-bounded :
          (want : ℕ)
          → Returns (λ entries. length entries ≤ want) (fetch parse_json consumer resp3 want)
      unfolding fetch
      fetch-bounded want =
          bind-Returns (reclaim_stale-bounded want)
            (λ reclaimed h. or_read_new-bounded want reclaimed h)
