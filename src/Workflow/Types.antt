-- ===== src/Workflow/Types.antt =====
-- The data of a pending request and of a workflow definition (src/workflows/types.ts,
-- src/workflows/registry.ts, PendingStatus of src/db/schema.ts). `Value` is what a driver or JSON
-- can hand over; numbers below zero do not occur in the columns that are read.
use open_dilim.Prelude.{ℕ, Bool, false, Option, none, some, List, [], ◌∷◌, if◌then◌else◌}
use open_dilim.Prelude.Text.{Text, text_eq}
use open_dilim.Chat.{RoomRef}

mutual
  pub data Value : Type 0 where
    null : Value
    boolean : Bool → Value
    integer : ℕ → Value
    fraction : Value
    text : Text → Value
    date : ℕ → Value
    array : Items → Value
    object : Fields → Value

  pub data Items : Type 0 where
    nil : Items
    cons : Value → Items → Items

  pub data Fields : Type 0 where
    end : Fields
    field : Text → Value → Fields → Fields

pub data PendingStatus : Type 0 where
  pending approved denied expired : PendingStatus

unfoldable pub status_code : PendingStatus → ℕ
status_code pending = 0
status_code approved = 1
status_code denied = 2
status_code expired = 3

pub record PendingRequest : Type 0 where
  pub id : Text
  pub workflow : Text
  pub subject : Option Text
  pub target : RoomRef
  pub origin : RoomRef
  pub requester_id : Text
  pub state : Fields
  pub ask_count : ℕ
  pub next_remind_at : Option ℕ
  pub expires_at : ℕ
  pub status : PendingStatus
  pub answer : Option Text

pub data TargetResolution : Type 0 where
  room : RoomRef → Option Fields → TargetResolution
  unknown_subject : TargetResolution
  no_room : Text → TargetResolution
  failed : Text → TargetResolution

-- `resolveTarget` calls another system: its answer is a parameter of the definition.
pub record WorkflowDef : Type 0 where
  pub name : Text
  pub ttl_ms : ℕ
  pub remind_interval_ms : ℕ
  pub office_hours_only : Bool
  pub normalize_subject : Text → Option Text
  pub normalize_answer : Text → Text → Option Text
  pub resolve_target : Text → TargetResolution
  pub ask_text : PendingRequest → Bool → Text
  pub result_text : PendingRequest → Text

-- `undefined` for a missing subject is no text, so it never equals one.
unfoldable pub subject_is : Option Text → Text → Bool
subject_is none s = false
subject_is (some t) s = text_eq t s

-- `WorkflowRegistry`, a `Map` by name in the order of registration.
unfoldable pub register : WorkflowDef → List WorkflowDef → List WorkflowDef
register def [] = def ∷ []
register def (d ∷ ds) = if text_eq d.name def.name then def ∷ ds else d ∷ register def ds

unfoldable pub resolve_def : Text → List WorkflowDef → Option WorkflowDef
resolve_def name [] = none
resolve_def name (d ∷ ds) = if text_eq d.name name then some d else resolve_def name ds
