-- ===== src/Announcement/Actions/Calls.antt =====
-- The calls of the two ports refine the statements of the store (src/announcements/service.ts).
use open_dilim.Announcement.Actions.Calculus.{
  Only, RefinesTask, bind-Refines, ignore-Refines, pure-Refines, on_bus-Refines, query-Refines,
  statement-Refines, others-Refines, if-Refines,
}
use open_dilim.Announcement.Actions.Methods.{
  create-Refines, approve-Refines, reject-Refines, put-Refines, take_draft-Refines,
}
use open_dilim.Prelude.{
  ℕ, ◌≡◌, Bool, true, false, not, Option, none, some, List, [], ◌∷◌, Bool-cases, inl, inr, All, ltb,
  length,
}
use open_dilim.Prelude.Text.{Text, codes, text_eq}
use open_dilim.Task.{ok}
use open_dilim.Announcement.Types.{
  DealerRoom, ApproveInput, AnnouncementKind, AnnouncementDraft, ApproverRoom, queued, approved_for,
  was_rejected,
}
use open_dilim.Announcement.Store.{create, approve, reject}
use open_dilim.Announcement.Store.Runs.{Statement, run}
use open_dilim.Announcement.Service
use open_dilim.Announcement.Notices.{
  is_announcement_id, notify_approver, notify_origin, strictest_limit, tell_origin,
}
use open_dilim.Announcement.Service.{
  QueueInput, draft, queue, status_of, approve_for, reject_for, awaiting, is_approver,
}
use open_dilim.Announcement.Notices.{Config}

module _ {A : ApproveInput → Type 0} where
  pub notify_origin-Refines : (id text : Text) → RefinesTask A (notify_origin id text)
  unfolding notify_origin
  notify_origin-Refines id text = ignore-Refines (bind-Refines (query-Refines _ _) told)
    where
      told : (o : Option ApproverRoom) → RefinesTask A (tell_origin text o)
      told none = pure-Refines
      told (some origin) = on_bus-Refines _

  pub notify_approver-Refines :
      (room : ApproverRoom) (id text : Text) (n : ℕ) (kind : AnnouncementKind)
      → RefinesTask A (notify_approver room id text n kind)
  unfolding notify_approver
  notify_approver-Refines room id text n kind = on_bus-Refines _

  module _ (config : Config) where
    pub draft_for-Refines :
        (text author uuid : Text) (rooms : List DealerRoom)
        → RefinesTask A (Service.draft_for text author uuid rooms)
    unfolding Service.draft_for
    draft_for-Refines text author uuid [] = pure-Refines
    draft_for-Refines text author uuid (room ∷ rooms) =
        if-Refines (ltb (strictest_limit room rooms) (length text)) pure-Refines
          (bind-Refines (put-Refines _ _) (λ _. pure-Refines))

    pub draft-Refines : (text author uuid : Text) → RefinesTask A (draft text author uuid config)
    unfolding draft
    draft-Refines text author uuid =
        bind-Refines (query-Refines _ _) (draft_for-Refines text author uuid)

    module _ (input : QueueInput) (uuid : Text) (ids : ℕ → Text) (others : List Statement)
        (o : All (Only A) others) where
      pub write_announcement-Refines :
          (d : AnnouncementDraft) (rooms : List DealerRoom)
          → RefinesTask A (Service.write_announcement config input uuid ids (run others) d rooms)
      unfolding Service.write_announcement
      write_announcement-Refines d rooms = record {
        apply = λ w.
            (statement-Refines (codes "create")
                (create uuid ids w.bus.clock (Service.creation input d rooms))
                (create-Refines uuid ids w.bus.clock (Service.creation input d rooms))).apply
              w;
      }

      pub queue_for-Refines :
          (approver : ApproverRoom) (d : AnnouncementDraft) (rooms : List DealerRoom)
          → RefinesTask A (Service.queue_for config input uuid ids (run others) approver d rooms)
      unfolding Service.queue_for
      queue_for-Refines approver d [] = pure-Refines
      queue_for-Refines approver d (first ∷ rest) = bind-Refines (others-Refines others o) (λ _.
          bind-Refines (write_announcement-Refines d (first ∷ rest)) (λ id.
            bind-Refines
              (ignore-Refines
                (notify_approver-Refines approver id d.text (length (first ∷ rest)) input.kind))
              (λ _. pure-Refines {b = queued id (length (first ∷ rest))})))

      pub queue_draft-Refines :
          (room : ApproverRoom) (d : Option AnnouncementDraft)
          → RefinesTask A (Service.queue_draft config input uuid ids (run others) room d)
      unfolding Service.queue_draft
      queue_draft-Refines room none = pure-Refines
      queue_draft-Refines room (some d) =
          if-Refines (text_eq d.author_sender_id input.sender_id)
            (bind-Refines (query-Refines _ _) (queue_for-Refines room d)) pure-Refines

      pub queue_with-Refines :
          (a : Service.Approver)
          → RefinesTask A (Service.queue_with config input uuid ids (run others) a)
      unfolding Service.queue_with
      queue_with-Refines (Service.missing detail) = pure-Refines
      queue_with-Refines (Service.room r) =
          bind-Refines (take_draft-Refines input.draft_id) (queue_draft-Refines r)

      pub approver_of-Refines :
          (user : Option Text) → RefinesTask A (Service.approver_of config.approver_channel user)
      approver_of-Refines none = pure-Refines
      approver_of-Refines (some user) = bind-Refines (query-Refines _ _) (λ _. pure-Refines)

      pub queue-Refines : RefinesTask A (queue config input uuid ids (run others))
      unfolding queue Service.resolve_approver
      queue-Refines = bind-Refines (approver_of-Refines config.approver_user_id) queue_with-Refines

    pub status_of-Refines : (sender : Text) (id : Option Text) → RefinesTask A (status_of sender id)
    unfolding status_of
    status_of-Refines sender id = bind-Refines (wanted id) by_id
      where
        wanted : (id' : Option Text) → RefinesTask A (Service.or_latest sender id')
        wanted none = query-Refines _ _
        wanted (some id') = pure-Refines

        by_id : (id' : Option Text) → RefinesTask A (Service.status_by_id id')
        by_id none = pure-Refines
        by_id (some id') = if-Refines (is_announcement_id id') (query-Refines _ _) pure-Refines

    pub record_approval-Refines :
        (id user : Text) (now_ms : ℕ) (others : List Statement)
        → A (Service.approval id user now_ms)
        → All (Only A) others
        → RefinesTask A (Service.record_approval id user now_ms (run others))
    unfolding Service.record_approval
    record_approval-Refines id user now_ms others a o = record {
      apply = λ w.
          (statement-Refines (codes "approve")
              (λ db. (
                ok (approve (Service.approval id user now_ms) w.bus.clock (run others) db).0,
                (approve (Service.approval id user now_ms) w.bus.clock (run others) db).1,
              ))
              (λ db.
                approve-Refines (Service.approval id user now_ms) w.bus.clock others db a o)).apply
            w;
    }

    pub record_rejection-Refines :
        (id user reason : Text) → RefinesTask A (Service.record_rejection id user reason)
    unfolding Service.record_rejection
    record_rejection-Refines id user reason = record {
      apply = λ w.
          (statement-Refines (codes "reject")
              (λ db. (
                ok (reject (Service.rejection id user reason) w.bus.clock db).0,
                (reject (Service.rejection id user reason) w.bus.clock db).1,
              ))
              (reject-Refines (Service.rejection id user reason) w.bus.clock)).apply
            w;
    }

    pub tell_approved-Refines :
        (id : Text) (n : Option ℕ) → RefinesTask A (Service.tell_approved id n)
    unfolding Service.tell_approved
    tell_approved-Refines id none = pure-Refines
    tell_approved-Refines id (some n) =
        bind-Refines (notify_origin-Refines id _) (λ _. pure-Refines {b = approved_for n})

    pub tell_rejected-Refines :
        (id reason : Text) (done : Bool) → RefinesTask A (Service.tell_rejected id reason done)
    unfolding Service.tell_rejected
    tell_rejected-Refines id reason false = pure-Refines
    tell_rejected-Refines id reason true =
        bind-Refines (notify_origin-Refines id _) (λ _. pure-Refines {b = was_rejected})

    -- An approval is recorded for the approver only.
    pub approve_for-Refines :
        (id user : Text) (now_ms : ℕ) (others : List Statement)
        → (is_approver config user ≡ true → A (Service.approval id user now_ms))
        → All (Only A) others
        → RefinesTask A (approve_for id user config now_ms (run others))
    unfolding approve_for
    approve_for-Refines id user now_ms others a o = elim (Bool-cases (is_approver config user)) [
      | inr stranger ↦ rw stranger pure-Refines
      | inl approver ↦ rw approver (
          if-Refines (not (is_announcement_id id)) pure-Refines (
            bind-Refines (record_approval-Refines id user now_ms others (a approver) o)
              (tell_approved-Refines id)))
    ]

    pub reject_for-Refines :
        (id user reason : Text) → RefinesTask A (reject_for id user config reason)
    unfolding reject_for
    reject_for-Refines id user reason = if-Refines (not (is_approver config user)) pure-Refines (
        if-Refines (not (is_announcement_id id)) pure-Refines (
          bind-Refines (record_rejection-Refines id user reason) (tell_rejected-Refines id reason)))

    pub awaiting-Refines : (user : Text) → RefinesTask A (awaiting config user)
    unfolding awaiting
    awaiting-Refines user = if-Refines (is_approver config user) (query-Refines _ _) pure-Refines
