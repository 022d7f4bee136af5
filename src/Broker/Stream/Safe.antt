-- ===== src/Broker/Stream/Safe.antt =====
-- No command loses a message: what stays true of an entry of the ingress stream whatever the
-- instances send (src/broker/queue.ts).
use open_dilim.Prelude.{
  any-append, any-split, any-select, ℕ, ◌+◌, ◌-◌, ◌≡◌, refl, Bool, true, false, not, ◌&&◌, ◌||◌,
  List, [], ◌∷◌, ◌++◌, map, any, select, take, length, Bool-cases, inl, inr, arith,
}
use open_dilim.Prelude.Update.{update_where, any-update_where}
use open_dilim.Prelude.Text.{text_eq_sym, Text, text_eq, text_eq_iff, text_eq_refl}
use open_dilim.Broker.Replies.{StreamEntry}
use open_dilim.Broker.Stream.{
  PelRow, Redis, has_entry_id, has_pel_id, entry_id, excess, trim_oldest, xadd, new_row, xreadgroup,
  is_claimable, is_gone, claimed_row, xclaim, xack, xdel, xadd_dlq,
}
use open_dilim.Broker.Stream.Runs.{
  Command, adding, reading, claiming, confirming, dead_lettering, releasing, deleting, elapsing,
  is_settled, has_src_id, confirm, execute, run,
}

-- The entry waits in the stream for its first reader, or is pending with its payload still there, or
-- is settled, or was cut off by XADD.
unfoldable pub is_safe : Text → Redis → Bool
is_safe id r =
    any (has_entry_id id) r.unread
    || any (has_entry_id id) r.seen && any (has_pel_id id) r.pel
    || is_settled id r
    || any (text_eq id) r.trimmed

any-ids :
    (id : Text) (entries : List StreamEntry)
    → any (has_entry_id id) entries ≡ true
    → any (text_eq id) (map entry_id entries) ≡ true
any-ids id [] h = cc
any-ids id (entry ∷ entries) h = ground (arith, any-ids id entries, text_eq_sym entry.id id)

any-new_row :
    (id consumer : Text) (now : ℕ) (entries : List StreamEntry)
    → any (has_pel_id id) (map (new_row consumer now) entries) ≡ any (has_entry_id id) entries
any-new_row id consumer now [] = refl
any-new_row id consumer now (entry ∷ entries) = rw (any-new_row id consumer now entries)

module _ (id : Text) where
  pub trim_oldest-is_safe :
      (n : ℕ) (r : Redis) → is_safe id r ≡ true → is_safe id (trim_oldest n r) ≡ true
  unfolding is_safe trim_oldest
  trim_oldest-is_safe n r h =
      let m = n - length r.seen in
      ground (
        arith,
        any-split (has_entry_id id) n r.seen,
        any-split (has_entry_id id) m r.unread,
        any-append (has_entry_id id) (take n r.seen) (take m r.unread),
        any-append (text_eq id) r.trimmed (map entry_id (take n r.seen ++ take m r.unread)),
        any-ids id (take n r.seen ++ take m r.unread),
      )

  longer-is_safe :
      (entry : StreamEntry) (r : Redis)
      → is_safe id r ≡ true
      → is_safe id (record r { unread = r.unread ++ entry ∷ [] }) ≡ true
  unfolding is_safe
  longer-is_safe entry r h = ground (arith, any-append (has_entry_id id) r.unread (entry ∷ []))

  xreadgroup-is_safe :
      (consumer : Text) (n : ℕ) (r : Redis)
      → is_safe id r ≡ true
      → is_safe id (xreadgroup consumer n r) ≡ true
  unfolding is_safe xreadgroup
  xreadgroup-is_safe consumer n r h = ground (
    arith,
    any-split (has_entry_id id) n r.unread,
    any-append (has_entry_id id) r.seen (take n r.unread),
    any-append (has_pel_id id) r.pel (map (new_row consumer r.clock) (take n r.unread)),
    any-new_row id consumer r.clock (take n r.unread),
  )

  -- A pending row whose entry is in the stream stays pending when it is claimed.
  claimed_rows-any :
      (consumer : Text) (min_idle : ℕ) (ids : List Text) (r : Redis)
      → any (has_entry_id id) r.seen ≡ true
      → any (has_pel_id id) r.pel ≡ true
      → any (has_pel_id id) (
          update_where
            (is_claimable min_idle ids r)
            (claimed_row consumer r.clock)
            (select (λ row. not (is_gone min_idle ids r row)) r.pel))
        ≡ true
  claimed_rows-any consumer min_idle ids r there pending =
      any-update_where (is_claimable min_idle ids r) (has_pel_id id) (claimed_row consumer r.clock)
        (select (λ row. not (is_gone min_idle ids r row)) r.pel) (λ row _ same. same)
        (any-select (has_pel_id id) (λ row. not (is_gone min_idle ids r row)) r.pel stays pending)
    where
      stays : (row : PelRow) → has_pel_id id row ≡ true → not (is_gone min_idle ids r row) ≡ true
      stays row same = rw ((text_eq_iff row.id id).0 same, there) (ground arith)

  xclaim-is_safe :
      (consumer : Text) (min_idle : ℕ) (ids : List Text) (r : Redis)
      → is_safe id r ≡ true
      → is_safe id (xclaim consumer min_idle ids r) ≡ true
  unfolding is_safe xclaim
  xclaim-is_safe consumer min_idle ids r h =
      ground (arith, claimed_rows-any consumer min_idle ids r)

  -- A row of another id is kept by a selection that takes out `other`.
  keeps-any :
      {A : Type 0} (id_of : A → Text) (other : Text) (rows : List A)
      → text_eq id other ≡ false
      → any (λ row. text_eq (id_of row) id) rows ≡ true
      → any (λ row. text_eq (id_of row) id) (select (λ row. not (text_eq (id_of row) other)) rows)
        ≡ true
  keeps-any id_of other rows apart =
      any-select (λ row. text_eq (id_of row) id) (λ row. not (text_eq (id_of row) other)) rows
        (λ row same. rw ((text_eq_iff (id_of row) id).0 same, apart) refl)

  -- What is taken out is another entry, or one that is settled.
  xack-is_safe :
      (other : Text) (r : Redis)
      → is_settled other r ≡ true
      → is_safe id r ≡ true
      → is_safe id (xack other r) ≡ true
  unfolding is_safe xack
  xack-is_safe other r settled h = elim (Bool-cases (text_eq id other)) [
    | inl same ↦ rw ((text_eq_iff id other).0 same) (ground arith)
    | inr apart ↦ ground (arith, keeps-any (λ row. row.id) other r.pel apart)
  ]

  xdel-is_safe :
      (other : Text) (r : Redis)
      → is_settled other r ≡ true
      → is_safe id r ≡ true
      → is_safe id (xdel other r) ≡ true
  unfolding is_safe xdel
  xdel-is_safe other r settled h = elim (Bool-cases (text_eq id other)) [
    | inl same ↦ rw ((text_eq_iff id other).0 same) (ground arith)
    | inr apart ↦ ground (
      arith,
      keeps-any (λ entry. entry.id) other r.seen apart,
      keeps-any (λ entry. entry.id) other r.unread apart,
    )
  ]

  confirm-is_safe :
      (other : Text) (r : Redis) → is_safe id r ≡ true → is_safe id (confirm other r) ≡ true
  unfolding confirm
  confirm-is_safe other r h =
      xack-is_safe other (record r { acked = other ∷ r.acked }) (rw (text_eq_refl other) refl)
        (unfold is_safe in ground arith)

  xadd_dlq-is_safe :
      (payload other : Text) (r : Redis)
      → is_safe id r ≡ true
      → is_safe id (xadd_dlq payload other r) ≡ true
  unfolding is_safe xadd_dlq
  xadd_dlq-is_safe payload other r h =
      ground (
        arith,
        any-append (has_src_id id) r.dlq (record { payload = payload; src_id = other } ∷ []),
      )

  elapse-is_safe :
      (ms : ℕ) (r : Redis)
      → is_safe id r ≡ true
      → is_safe id (record r { clock = r.clock + ms }) ≡ true
  unfolding is_safe
  elapse-is_safe ms r h = h

  pub execute-is_safe :
      (c : Command) (r : Redis) → is_safe id r ≡ true → is_safe id (execute c r) ≡ true
  unfolding execute xadd
  execute-is_safe (adding entry cut) r h =
      let longer = record r { unread = r.unread ++ entry ∷ [] } in
      trim_oldest-is_safe (excess cut longer) longer (longer-is_safe entry r h)
  execute-is_safe (reading consumer n) r h = xreadgroup-is_safe consumer n r h
  execute-is_safe (claiming consumer min_idle ids) r h = xclaim-is_safe consumer min_idle ids r h
  execute-is_safe (confirming other) r h = confirm-is_safe other r h
  execute-is_safe (dead_lettering payload other) r h = xadd_dlq-is_safe payload other r h
  execute-is_safe (releasing other) r h = elim (Bool-cases (is_settled other r)) [
    | inl settled ↦ rw settled (xack-is_safe other r settled h)
    | inr open_yet ↦ rw open_yet h
  ]
  execute-is_safe (deleting other) r h = elim (Bool-cases (is_settled other r)) [
    | inl settled ↦ rw settled (xdel-is_safe other r settled h)
    | inr open_yet ↦ rw open_yet h
  ]
  execute-is_safe (elapsing ms) r h = elapse-is_safe ms r h

  pub run-is_safe :
      (cs : List Command) (r : Redis) → is_safe id r ≡ true → is_safe id (run cs r) ≡ true
  unfolding run
  run-is_safe [] r h = h
  run-is_safe (c ∷ cs) r h = run-is_safe cs (execute c r) (execute-is_safe c r h)
