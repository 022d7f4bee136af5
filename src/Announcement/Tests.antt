-- ===== src/Announcement/Tests.antt =====
-- Runs of announcements on small inputs, and the theorems at them (src/announcements).
use open_dilim.Prelude.{
  ℕ, ◌≤◌, ◌≡◌, ◌≢◌, refl, subst, true, false, ◌&&◌, none, some, List, [], ◌∷◌, ◌++◌, arith, any,
  if◌then◌else◌, count, All, length,
}
use open_dilim.Prelude.Decimal.{show}
use open_dilim.Prelude.Sort.{sort_by}
use open_dilim.Prelude.Update.{update_where}
use open_dilim.Prelude.Text.{Text, codes, text_eq}
use open_dilim.Task.{ok}
use open_dilim.Chat.Ports.{Outages, served, send, append}
use open_dilim.Announcement.Types.{
  DeliveryRow, Database, DealerRoom, ApproverRoom, het_hang, kind_text, ClaimDeliveryInput,
  ApproveInput, Delivery, queued, approved_for,
}
use open_dilim.Announcement.Store
use open_dilim.Announcement.Store.{
  create, insert_targets, has_distinct_ids, new_announcement, approve_rows, claim, mark_sent,
  is_claimable, is_awaiting, state_of,
}
use open_dilim.Announcement.Store.Gate.{IsSound, run-IsSound}
use open_dilim.Announcement.Store.Claims.{claims_le_one}
use open_dilim.Announcement.Store.Runs.{
  Statement, creating, approving, claiming, marking_sent, run, grants,
}
use open_dilim.Announcement.Queries.{
  due_for_send, is_due, all_enabled, origin_of, room_of, joined, to_delivery,
}
use open_dilim.Announcement.Drafts.{World, draft_key, take_draft}
use open_dilim.Announcement.Service
use open_dilim.Announcement.Notices.{notify_approver}
use open_dilim.Announcement.Service.{QueueInput, queue, is_approver, approve_for}
use open_dilim.Announcement.Notices.{Config, is_announcement_id, room_target}
use open_dilim.Announcement.Service.Queueing.{Queued, queue-Queued, queue-once}
use open_dilim.Announcement.Service.Deciding.{
  is_fresh, is_due_of, told, approve_again, approve_rows-is_due,
}
use open_dilim.Announcement.Poller.{
  deliver, deliver_expected, if_claimed, send_and_mark, after_sending, sent_entry, backoff_from,
}
use open_dilim.Broadcast.Limits.{cap_for_channel}
use open_dilim.Announcement.Poller.Sending.{Delivered, deliver-Delivered}
use open_dilim.Announcement.Actions.{Action, drafting, queueing, approving_for, ticking, act_all}
use open_dilim.Announcement.Actions.Calculus.{Only}
use open_dilim.Announcement.Actions.Refinement.{act_all-Refines}
use open_dilim.Announcement.Actions.Signature.{IsOther, needs_approval}

abbrev empty : Database
empty = record {
  announcements = [];
  deliveries = [];
  blocks = record { channel = codes "zalo"; group_id = codes "g2" } ∷ [];
  groups =
      record {
        channel = codes "zalo";
        group_id = codes "g1";
        customer_id = codes "c1";
        enabled = true;
        updated_at = 1;
      }
      ∷ record {
        channel = codes "zalo";
        group_id = codes "g2";
        customer_id = codes "c2";
        enabled = true;
        updated_at = 1;
      }
      ∷ [];
  bindings =
      record {
        channel = codes "ops";
        sender_id = codes "s9";
        user_id = codes "u9";
        bound_at = 1;
        revoked_at = none;
      }
      ∷ [];
}

abbrev uuid : Text
uuid = codes "0a1b2c3d-0000-0000-0000-00000000000A"

abbrev ids : ℕ → Text
ids n = codes "d" ++ show n

abbrev warehouse : ApproverRoom
warehouse = record { channel = codes "zalo"; conversation_id = codes "kho" }

abbrev two_rooms : List DealerRoom
two_rooms =
    record { channel = codes "zalo"; group_id = codes "g1"; customer_id = codes "c1" }
    ∷ record { channel = codes "zalo"; group_id = codes "g2"; customer_id = codes "c2" }
    ∷ []

abbrev approve_it : ApproveInput
approve_it = record { announcement_id = uuid; approved_by = codes "u9"; first_attempt_at = 100 }

abbrev first_claim : ClaimDeliveryInput
first_claim = record { id = codes "d0"; expected = 100; next = 500 }

abbrev statements : List Statement
statements =
    creating uuid ids 50 (record {
      kind = het_hang;
      text = codes "hết mã X";
      created_by = codes "s1";
      origin = warehouse;
      rooms = two_rooms;
    })
    ∷ approving approve_it 90
    ∷ claiming first_claim
    ∷ claiming first_claim
    ∷ marking_sent (codes "d0") 120
    ∷ []

empty-IsSound : IsSound empty
empty-IsSound = record {
  one_announcement = λ id. omega arith;
  one_delivery = λ id. omega arith;
  one_target = λ id room. omega arith;
  gated = tt;
}

run-IsSound_example : IsSound (run statements empty)
run-IsSound_example = run-IsSound statements empty empty-IsSound

abbrev after_approval : Database
after_approval = record empty {
  announcements =
      record {
        id = uuid;
        kind = codes "het_hang";
        text = codes "hết mã X";
        status = 1;
        created_by = codes "s1";
        origin_channel = codes "zalo";
        origin_conversation = codes "kho";
        approved_by = some (codes "u9");
        approved_at = some 90;
        reject_reason = none;
        created_at = 50;
      }
      ∷ [];
  deliveries =
      record {
        id = codes "d0";
        announcement_id = uuid;
        channel = codes "zalo";
        group_id = codes "g1";
        customer_id = codes "c1";
        status = 0;
        attempts = 0;
        last_error = none;
        next_attempt_at = some 100;
        sent_at = none;
      }
      ∷ record {
        id = codes "d1";
        announcement_id = uuid;
        channel = codes "zalo";
        group_id = codes "g2";
        customer_id = codes "c2";
        status = 0;
        attempts = 0;
        last_error = none;
        next_attempt_at = none;
        sent_at = none;
      }
      ∷ [];
}

-- The blocked room stays locked.
runs_to :
    run
      (creating uuid ids 50 (record {
        kind = het_hang;
        text = codes "hết mã X";
        created_by = codes "s1";
        origin = warehouse;
        rooms = two_rooms;
      })
        ∷ approving approve_it 90
        ∷ [])
      empty
    ≡ after_approval
unfolding run create insert_targets has_distinct_ids new_announcement kind_text approve_rows
    Store.is_unlocked is_awaiting update_where text_eq show
runs_to = refl

due_once : length (due_for_send 100 after_approval) ≡ 1
unfolding due_for_send is_due joined to_delivery sort_by text_eq
due_once = refl

claims_le_one_example :
    grants (codes "d0") 100 (claiming first_claim ∷ claiming first_claim ∷ []) after_approval ≤ 1
claims_le_one_example =
    claims_le_one (codes "d0") 100 (claiming first_claim ∷ claiming first_claim ∷ []) after_approval
      (subst IsSound runs_to (run-IsSound _ empty empty-IsSound)) one_there
      (omega arith, (omega arith, tt))
  where
    one_there : 1 ≤ count (λ d. text_eq d.id (codes "d0")) after_approval.deliveries
    one_there = unfold text_eq in omega arith

abbrev config : Config
config = record {
  approver_user_id = some (codes "u9");
  approver_channel = codes "ops";
  collate = λ a b. true;
}

abbrev outages : Outages
outages = record {
  dedupe = λ _. served;
  rpush = λ _. served;
  ltrim = λ _. served;
  expire = λ _. served;
  broker = λ _. served;
  broadcaster = λ _. false;
}

abbrev world : World
world = record {
  db = empty;
  drafts = λ key. none;
  redis_down = false;
  sql_fails = λ method. false;
  bus = record {
    clock = 50;
    outages = outages;
    seen = [];
    history = λ room. [];
    ingress = [];
    sent = [];
  };
}

abbrev confirmed : QueueInput
confirmed = record {
  draft_id = codes "12345678";
  kind = het_hang;
  sender_id = codes "s1";
  origin = warehouse;
}

-- The draft is written and confirmed, and someone who is not the approver approves it.
abbrev unsigned : List Action
unsigned =
    drafting (codes "hết mã X") (codes "s1") (codes "1234567890")
    ∷ queueing confirmed uuid ids []
    ∷ approving_for uuid (codes "s1") 90 []
    ∷ ticking 200 (λ d. [])
    ∷ []

stranger : is_approver config (codes "s1") ≡ true → ⊥
stranger h = unfold is_approver text_eq in cc

needs_approval_example :
    All
      (λ d. text_eq d.announcement_id uuid ≡ false)
      (due_for_send 300 (act_all config unsigned world).db)
    × ((input : ClaimDeliveryInput)
        → any
            (λ d. text_eq d.announcement_id uuid && is_claimable input d)
            (act_all config unsigned world).db.deliveries
          ≡ false)
needs_approval_example =
    needs_approval uuid config unsigned world 300 tt
      (tt, (tt, ((λ h. absurd (stranger h), tt), ((λ d. tt), tt))))

act_all-Refines_example :
    (ss : List Statement) × All (Only (IsOther uuid)) ss
    × ((act_all config unsigned world).db ≡ run ss world.db)
act_all-Refines_example =
    act_all-Refines (IsOther uuid) config unsigned world
      (tt, (tt, ((λ h. absurd (stranger h), tt), ((λ d. tt), tt))))

abbrev row : Delivery
row = record {
  id = codes "d0";
  announcement_id = uuid;
  channel = codes "zalo";
  group_id = codes "g1";
  customer_id = codes "c1";
  text = codes "hết mã X";
  attempts = 0;
  next_attempt_at = some 100;
}

abbrev approved_world : World
approved_world = record world { db = after_approval }

abbrev nobody : Database → Database
nobody db = db

deliver-Delivered_example :
    Delivered row 200 nobody approved_world (deliver row 200 nobody approved_world).1
deliver-Delivered_example = deliver-Delivered row 200 nobody approved_world

sends_one : length (deliver row 200 nobody approved_world).1.bus.sent ≡ 1
unfolding deliver deliver_expected if_claimed send_and_mark after_sending claim is_claimable
    mark_sent send append sent_entry cap_for_channel backoff_from update_where text_eq
sends_one = refl

abbrev drafted_world : World
drafted_world = record world {
  drafts = λ key.
      if text_eq key (codes "dilim:announce:draft:12345678")
      then some (record { text = codes "hết mã X"; author_sender_id = codes "s1"; expires = 1000 })
      else none;
}

queue-Queued_example :
    Queued config confirmed uuid ids nobody drafted_world
      (queue config confirmed uuid ids nobody drafted_world).0
      (queue config confirmed uuid ids nobody drafted_world).1
queue-Queued_example = queue-Queued config confirmed uuid ids nobody drafted_world

is_confirmed : (queue config confirmed uuid ids nobody drafted_world).0 ≡ ok (queued uuid 1)
unfolding queue create show notify_approver send Service.resolve_approver Service.queue_with
    Service.queue_draft Service.queue_for Service.write_announcement all_enabled draft_key
    take_draft room_of text_eq
is_confirmed = refl

queue-once_example :
    (queue config confirmed uuid ids nobody
      (queue config confirmed uuid ids nobody drafted_world).1).0
    ≢ ok (queued uuid 1)
queue-once_example =
    queue-once config confirmed uuid ids nobody drafted_world uuid 1 is_confirmed confirmed uuid ids
      nobody refl uuid 1

approves : is_approver config (codes "u9") ≡ true
unfolding is_approver text_eq
approves = refl

is_uuid : is_announcement_id uuid ≡ true
unfolding is_announcement_id
is_uuid = refl

approve_again_example :
    ((approve_for uuid (codes "u9") config 200 nobody approved_world).0 ≡ ok (approved_for 0))
    × ((approve_for uuid (codes "u9") config 200 nobody approved_world).1.db ≡ after_approval)
    × ((approve_for uuid (codes "u9") config 200 nobody approved_world).1.bus.sent
        ≡ [] ++ record { target = room_target warehouse true; text = told 0 } ∷ [])
approve_again_example =
    approve_again config uuid (codes "u9") 200 approved_world approves is_uuid refl
      (unfold is_awaiting text_eq in refl) (unfold state_of text_eq in refl) warehouse refl
      (unfold origin_of text_eq in refl) refl

abbrev idle_row : Text → DeliveryRow
idle_row group = record {
  id = group;
  announcement_id = uuid;
  channel = codes "zalo";
  group_id = group;
  customer_id = codes "c1";
  status = 0;
  attempts = 0;
  last_error = none;
  next_attempt_at = none;
  sent_at = none;
}

abbrev waiting : Database
waiting = record after_approval {
  announcements =
      record {
        id = uuid;
        kind = codes "het_hang";
        text = codes "hết mã X";
        status = 0;
        created_by = codes "s1";
        origin_channel = codes "zalo";
        origin_conversation = codes "kho";
        approved_by = none;
        approved_at = none;
        reject_reason = none;
        created_at = 50;
      }
      ∷ [];
  deliveries = idle_row (codes "g1") ∷ idle_row (codes "g2") ∷ [];
  blocks = record { channel = codes "zalo"; group_id = codes "g2" } ∷ [];
}

approve_rows-is_due_example :
    count
      (is_due_of uuid 150 (approve_rows approve_it 90 waiting).1)
      (approve_rows approve_it 90 waiting).1.deliveries
    ≡ count (is_fresh uuid waiting.blocks) waiting.deliveries
approve_rows-is_due_example =
    approve_rows-is_due approve_it 90 150 waiting (unfold is_awaiting text_eq in refl)
      (unfold text_eq in refl) (omega arith)
