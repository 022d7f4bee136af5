-- ===== src/Announcement/Service/Queueing.antt =====
-- Every outcome of the confirmation of a draft (queue of src/announcements/service.ts), and that a
-- draft is confirmed once.
use open_dilim.Prelude.{
  ℕ, ◌≡◌, ◌≢◌, subst, refl, ◌⊎◌, inl, inr, true, false, Option, none, some, List, [], ◌∷◌,
  Bool-cases, length,
}
use open_dilim.Prelude.Text.{Text, codes, text_eq, text_eq→eq, text_eq_refl}
use open_dilim.Task.{Result, ok, thrown, unavailable, bind-ok, bind-thrown}
use open_dilim.Announcement.Types.{
  Database, DealerRoom, ApproverRoom, AnnouncementDraft, QueueOutcome, queued,
}
use open_dilim.Announcement.Store.{create}
use open_dilim.Announcement.Queries.{all_enabled, room_of}
use open_dilim.Announcement.Drafts.{World, unexpired, draft_key, take_draft}
use open_dilim.Announcement.Service.{
  QueueInput, creation, Approver, room, missing, room_or_missing, all_rooms, approver_of,
  resolve_approver, write_announcement, queue_for, queue_draft, queue_with, queue,
}
use open_dilim.Announcement.Notices.{Config, notify_approver}

module _ (config : Config) (input : QueueInput) (uuid : Text) (ids : ℕ → Text)
    (others : Database → Database) (w : World) where
  abbrev pub taken : Option AnnouncementDraft
  taken = unexpired input.draft_id w.bus.clock (w.drafts (draft_key input.draft_id))

  -- The announcement was written from the draft of the one who confirms it, for all rooms of dealers,
  -- and the draft is gone.
  pub record IsQueued (id : Text) (n : ℕ) (after : World) : Type 0 where
    pub draft : AnnouncementDraft
    pub found : taken ≡ some draft
    pub own : draft.author_sender_id ≡ input.sender_id
    pub gone : after.drafts (draft_key input.draft_id) ≡ none
    pub some_rooms : n ≡ length (all_enabled config.collate w.db)
    pub written :
        create uuid ids w.bus.clock
          (creation input draft (all_enabled config.collate w.db))
          (others w.db)
        ≡ (ok id, after.db)

  abbrev pub Queued : Result QueueOutcome → World → Type 0
  Queued (ok (queued id n)) after = IsQueued id n after
  Queued (ok _) after = (after.db ≡ w.db) × (after.bus ≡ w.bus)
  Queued (thrown e) after = after.bus ≡ w.bus

  abbrev without_draft : World
  without_draft = (take_draft input.draft_id w).1

  module _ (up : w.redis_down ≡ false) (approver : ApproverRoom) (draft : AnnouncementDraft)
      (found : taken ≡ some draft)
      (own : text_eq draft.author_sender_id input.sender_id ≡ true) where
    module _ (first : DealerRoom) (rest : List DealerRoom)
        (e : all_enabled config.collate w.db ≡ first ∷ rest) where
      abbrev created : Result Text × Database
      created = create uuid ids w.bus.clock (creation input draft (first ∷ rest)) (others w.db)

      written-Queued :
          (r : Result Text)
          → w.sql_fails (codes "create") ≡ false
          → created.0 ≡ r
          → Queued
              (queue_for config input uuid ids others approver draft (first ∷ rest) without_draft).0
              (queue_for config input uuid ids others approver draft (first ∷ rest) without_draft).1
      unfolding queue_for take_draft write_announcement notify_approver
      written-Queued (thrown x) works result = rw (up, works, result) refl
      written-Queued (ok id) works result =
          rw (up, works, result)
            (record {
              draft = draft;
              found = found;
              own = text_eq→eq draft.author_sender_id input.sender_id own;
              gone = rw (text_eq_refl (draft_key input.draft_id)) refl;
              some_rooms = rw e refl;
              written = rw e (λ i. (result i, created.1));
            })

    queue_for-Queued :
        (rooms : List DealerRoom)
        → all_enabled config.collate w.db ≡ rooms
        → Queued
            (queue_for config input uuid ids others approver draft rooms without_draft).0
            (queue_for config input uuid ids others approver draft rooms without_draft).1
    unfolding queue_for take_draft write_announcement
    queue_for-Queued [] e = rw up (refl, refl)
    queue_for-Queued (first ∷ rest) e = elim (Bool-cases (w.sql_fails (codes "create"))) [
      | inl fails ↦ rw (up, fails) refl
      | inr works ↦ written-Queued first rest e _ works refl
    ]

  rooms_read :
      w.redis_down ≡ false
      → w.sql_fails (codes "allEnabled") ≡ false
      → all_rooms config without_draft ≡ (ok (all_enabled config.collate w.db), without_draft)
  unfolding take_draft
  rooms_read up works = rw (up, works) refl

  queue_draft-own :
      (approver : ApproverRoom) (d : AnnouncementDraft)
      → w.redis_down ≡ false
      → w.sql_fails (codes "allEnabled") ≡ false
      → text_eq d.author_sender_id input.sender_id ≡ true
      → queue_draft config input uuid ids others approver (some d) without_draft
        ≡ queue_for config input uuid ids others approver d
            (all_enabled config.collate w.db)
            without_draft
  unfolding queue_draft
  queue_draft-own approver d up works own = rw own (
      bind-ok (all_rooms config) without_draft without_draft
        (queue_for config input uuid ids others approver d) (rooms_read up works))

  queue_draft-Queued :
      (approver : ApproverRoom) (d : Option AnnouncementDraft)
      → w.redis_down ≡ false
      → taken ≡ d
      → Queued
          (queue_draft config input uuid ids others approver d without_draft).0
          (queue_draft config input uuid ids others approver d without_draft).1
  unfolding queue_draft take_draft
  queue_draft-Queued approver none up e = rw up (refl, refl)
  queue_draft-Queued approver (some d) up e =
      elim (Bool-cases (text_eq d.author_sender_id input.sender_id)) [
        | inr foreign ↦ rw (up, foreign) (refl, refl)
        | inl own ↦ elim (Bool-cases (w.sql_fails (codes "allEnabled"))) [
          | inl fails ↦ rw (up, own, fails) refl
          | inr works ↦
              rw (queue_draft-own approver d up works own)
                (queue_for-Queued up approver d e own (all_enabled config.collate w.db) refl)
        ]
      ]

  draft_taken : w.redis_down ≡ false → take_draft input.draft_id w ≡ (ok taken, without_draft)
  unfolding take_draft
  draft_taken up = rw up refl

  queue_with-Queued :
      (a : Approver)
      → Queued
          (queue_with config input uuid ids others a w).0
          (queue_with config input uuid ids others a w).1
  unfolding queue_with
  queue_with-Queued (missing detail) = (refl, refl)
  queue_with-Queued (room r) = elim (Bool-cases w.redis_down) [
    | inl down ↦ unfold take_draft in rw down refl
    | inr up ↦
        rw
          (bind-ok (take_draft input.draft_id) w without_draft
            (queue_draft config input uuid ids others r) (draft_taken up))
          (queue_draft-Queued r taken up refl)
  ]

  resolved :
      (user : Option Text)
      → ((a : Approver) × (approver_of config.approver_channel user w ≡ (ok a, w)))
        ⊎ (approver_of config.approver_channel user w ≡ (thrown unavailable, w))
  resolved none = inl (_, refl)
  resolved (some user) = elim (Bool-cases (w.sql_fails (codes "roomOf"))) [
    | inl fails ↦ inr (rw fails refl)
    | inr works ↦ inl (room_or_missing (room_of config.approver_channel user w.db), rw works refl)
  ]

  -- Every outcome of the confirmation of a draft, whatever other instances do before it is written.
  -- If it is reported as waiting for approval, then the draft was there, its author is the one who
  -- confirms it, it is gone, and the announcement was written with its text for all rooms of dealers,
  -- whose number is told. Every other outcome leaves the tables and the messages alone, and a call that
  -- throws has sent nothing.
  pub queue-Queued :
      Queued (queue config input uuid ids others w).0 (queue config input uuid ids others w).1
  unfolding queue resolve_approver
  queue-Queued = elim (resolved config.approver_user_id) [
    | inl (a, e) ↦
        rw
          (bind-ok (approver_of config.approver_channel config.approver_user_id) w w
            (queue_with config input uuid ids others) e)
          (queue_with-Queued a)
    | inr e ↦
        rw
          (bind-thrown (approver_of config.approver_channel config.approver_user_id) w w
            (queue_with config input uuid ids others) e)
          refl
  ]

-- A draft is confirmed once: after a confirmation was reported as waiting for approval, the next call
-- with the same draft is not, whoever makes it and whatever other instances do to the tables.
pub queue-once :
    (config : Config) (input : QueueInput) (uuid : Text) (ids : ℕ → Text)
    (others : Database → Database) (w : World) (id : Text) (n : ℕ)
    → (queue config input uuid ids others w).0 ≡ ok (queued id n)
    → (input' : QueueInput) (uuid' : Text) (ids' : ℕ → Text) (others' : Database → Database)
    → input'.draft_id ≡ input.draft_id
    → (id' : Text) (n' : ℕ)
    → (queue config input' uuid' ids' others' (queue config input uuid ids others w).1).0
      ≢ ok (queued id' n')
queue-once config input uuid ids others w id n first input' uuid' ids' others' same id' n' second =
    let q =
      subst (λ r. Queued config input uuid ids others w r after) first
        (queue-Queued config input uuid ids others w) in
    let q' =
      subst
        (λ r.
          Queued config input' uuid' ids' others' after r
            (queue config input' uuid' ids' others' after).1)
        second (queue-Queued config input' uuid' ids' others' after) in
    let missing : after.drafts (draft_key input'.draft_id) ≡ none = rw same q.gone in
    (let found = rw missing at q'.found in cc)
  where
    after : World
    after = (queue config input uuid ids others w).1
