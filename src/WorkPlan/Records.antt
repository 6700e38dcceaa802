-- ===== src/WorkPlan/Records.antt =====
-- internal/workplan/model.go: the records of a work plan. An embedded struct is a field, and where a
-- validator tells a nil slice from an empty one, the slice is a `Slice`.
use mathlib.Core.Int.{ℤ}
use changesaga.Prelude.{ℕ, Bool, true, false, Option, List, [], Text, Table}

-- `time.Time`, as far as the validator reads it: `IsZero`, and whether the location is UTC.
pub record Time : Type 0 where
  pub seconds : ℕ
  pub is_utc : Bool

-- A slice: nil, or its elements. `append` and `range` take nil as no elements.
pub data Slice (A : Type 0) : Type 0 where
  null : Slice A
  slice : List A → Slice A

abbrev pub elements : {A : Type 0} → Slice A → List A
elements null = []
elements (slice xs) = xs

abbrev pub is_null : {A : Type 0} → Slice A → Bool
is_null null = true
is_null (slice xs) = false

pub record Identity : Type 0 where
  pub schema : Text
  pub version : ℕ
  pub id : Text
  pub created_at : Time

pub record TouchSelector : Type 0 where
  pub kind : Text
  pub value : Text

pub record TouchArea : Type 0 where
  pub repository : Text
  pub selector : TouchSelector
  pub intents : Slice Text
  pub reason : Text

pub record MergeUnit : Type 0 where
  pub id : Text
  pub repository : Text
  pub source_branch : Text
  pub target_branch : Text
  pub required : Bool

pub record EventBase : Type 0 where
  pub schema : Text
  pub version : ℕ
  pub id : Text
  pub parents : Slice Text
  pub created_at : Time
  pub summary : Text
  pub request_id : Text
  pub request_digest : Text

pub record WaveRevision : Type 0 where
  pub schema : Text
  pub version : ℕ
  pub id : Text
  pub wave : Text
  pub parents : Slice Text
  pub title : Text
  pub objective : Text
  pub order : ℤ
  pub entry_conditions : Slice Text
  pub exit_conditions : Slice Text
  pub created_at : Time
  pub request_id : Text
  pub request_digest : Text

pub record Wave : Type 0 where
  pub identity : Identity
  pub revisions : List WaveRevision
  pub heads : List Text
  pub current_revision : Option WaveRevision

pub record WorkItemRevision : Type 0 where
  pub schema : Text
  pub version : ℕ
  pub id : Text
  pub work_item : Text
  pub parents : Slice Text
  pub title : Text
  pub objective : Text
  pub deliverables : Slice Text
  pub wave : Text
  pub relations : Slice Text
  pub dependencies : Slice Text
  pub contracts : Slice Text
  pub expected_touch_areas : Slice TouchArea
  pub completion_checks : Slice Text
  pub merge_units : Slice MergeUnit
  pub created_at : Time
  pub request_id : Text
  pub request_digest : Text

pub record ProgressEvent : Type 0 where
  pub base : EventBase
  pub work_item : Text
  pub state : Text
  pub reason : Text

pub record Workspace : Type 0 where
  pub provider : Text
  pub id : Text
  pub repository_id : Text
  pub branch : Text
  pub source_branch : Text
  pub label : Text

pub record WorkspaceEvent : Type 0 where
  pub base : EventBase
  pub work_item : Text
  pub action : Text
  pub role : Text
  pub workspace : Workspace

pub record MergeEvent : Type 0 where
  pub base : EventBase
  pub work_item : Text
  pub unit : Text
  pub state : Text
  pub head_oid : Text
  pub merge_oid : Text
  pub revert_oid : Text

pub record WorkItem : Type 0 where
  pub identity : Identity
  pub revisions : List WorkItemRevision
  pub heads : List Text
  pub progress : List ProgressEvent
  pub workspaces : List WorkspaceEvent
  pub merges : List MergeEvent
  pub current_revision : Option WorkItemRevision
  pub current_progress : Option ProgressEvent

pub record DependencyCondition : Type 0 where
  pub kind : Text
  pub contract_revision : Text

pub record Dependency : Type 0 where
  pub schema : Text
  pub version : ℕ
  pub id : Text
  pub prerequisite : Text
  pub dependent : Text
  pub condition : DependencyCondition
  pub reason : Text
  pub created_at : Time
  pub request_id : Text
  pub request_digest : Text

pub record ContractRevision : Type 0 where
  pub schema : Text
  pub version : ℕ
  pub id : Text
  pub contract : Text
  pub parents : Slice Text
  pub kind : Text
  pub provider : Text
  pub consumer : Text
  pub statement : Text
  pub acceptance : Slice Text
  pub created_at : Time
  pub request_id : Text
  pub request_digest : Text

pub record ContractEvent : Type 0 where
  pub base : EventBase
  pub contract : Text
  pub state : Text
  pub evidence : Slice Text

pub record Contract : Type 0 where
  pub identity : Identity
  pub revisions : List ContractRevision
  pub heads : List Text
  pub events : List ContractEvent
  pub current_revision : Option ContractRevision
  pub current_event : Option ContractEvent

pub record RequestRecord : Type 0 where
  pub operation : Text
  pub digest : Text
  pub resource : Text
  pub event_id : Text
  pub path : Text

pub record Conflict : Type 0 where
  pub kind : Text
  pub resource : Text
  pub heads : List Text

pub record Issue : Type 0 where
  pub severity : Text
  pub path : Text
  pub message : Text

pub record Validation : Type 0 where
  pub valid : Bool
  pub issues : List Issue

pub record Plan : Type 0 where
  pub root : Text
  pub saga_id : Text
  pub waves : Table Wave
  pub work_items : Table WorkItem
  pub dependencies : Table Dependency
  pub contracts : Table Contract
  pub requests : Table RequestRecord
  pub conflicts : List Conflict
