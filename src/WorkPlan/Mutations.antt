-- ===== src/WorkPlan/Mutations.antt =====
-- internal/workplan/mutation.go: what the mutations share. The clock, the identifier of a new event,
-- the digest of a request and the disk are parameters; the error of a mutation is a constructor with
-- the texts that its message holds.
pub mod Transitions
pub mod Events
pub mod Requests
pub mod Create
pub mod Waves
pub mod WorkItems
pub mod Contracts
pub mod Created
pub mod Replay
pub mod Recorded
pub mod Acyclic
pub mod CreateReplay
pub mod Guards
pub mod Steps
pub mod Progress
use changesaga.Prelude.{
  ℕ, zero, suc, ◌+◌, ◌-◌, Bool, true, false, not, ◌&&◌, Option, none, some, List, [], ◌∷◌, ◌++◌,
  map, Text, codes, text_eq, sort_texts, filter, length, ltb, leb, ◌==◌, Result, ok, err, ◌>>=◌,
  ◌>>◌, require, if◌then◌else◌,
}
use changesaga.WorkPlan.Records.{
  Time, Slice, null, slice, EventBase, ProgressEvent, WorkspaceEvent, MergeEvent, ContractEvent,
  Dependency, Identity, WaveRevision, WorkItemRevision, ContractRevision, Issue,
}
use changesaga.WorkPlan.Nodes.{is_nil}
use changesaga.WorkPlan.Checks.{Library, version, schema}

pub record MutationResult : Type 0 where
  pub urn : Text
  pub path : Text
  pub created : List Text
  pub event_ids : List Text
  pub replayed : Bool

-- The record that a mutation writes, with the identifier of the resource that it belongs to.
pub data Written : Type 0 where
  progress_event : Text → ProgressEvent → Written
  workspace_event : Text → WorkspaceEvent → Written
  merge_event : Text → MergeEvent → Written
  contract_event : Text → ContractEvent → Written
  dependency_record : Dependency → Written
  wave_package : Identity → WaveRevision → Written
  wave_revision : Text → WaveRevision → Written
  work_item_package : Identity → WorkItemRevision → ProgressEvent → Written
  work_item_revision : Text → WorkItemRevision → Written
  contract_package : Identity → ContractRevision → ContractEvent → Written
  contract_revision : Text → ContractRevision → Written
  -- A request that was made before writes nothing.
  nothing : Written

pub data MutationError : Type 0 where
  not_marshalled : MutationError
  invalid_request_id : MutationError
  load_failed : Text → MutationError
  invalid_plan : Text → MutationError
  not_locked : Text → MutationError
  different_payload : Text → MutationError
  does_not_exist : Text → MutationError
  limit_reached : Text → ℕ → MutationError
  head_conflict : Text → List Text → MutationError
  invalid_transition : Text → Text → Text → MutationError
  no_initial_event : MutationError
  initial_must_be : Text → MutationError
  already : Text → MutationError
  requires_reason : Text → MutationError
  unknown_merge_unit : MutationError
  invalid_id : MutationError
  invalid_reference : Text → MutationError
  cannot_have_parents : Text → MutationError
  already_exists : Text → MutationError
  invalid_candidate : Text → Text → MutationError
  not_written : Text → MutationError

abbrev pub Outcome : Type 0
Outcome = Written × MutationResult

-- What a call takes from outside: `m.now()`, which is in UTC, `store.EventID`, and the disk, which
-- answers with an error or none. Paths are relative to the root.
pub record World : Type 0 where
  pub now : Time
  pub event_id : Time → Text
  pub ensure_dir : Text → Option Text
  pub write_json : Text → Option Text
  pub commit_dir : Text → Option Text

abbrev pub max_events_per_stream : ℕ
max_events_per_stream = 50000

abbrev pub max_dependencies : ℕ
max_dependencies = 50000

abbrev pub max_revisions_per_resource : ℕ
max_revisions_per_resource = 10000

abbrev pub done_or : (Text → MutationError) → Option Text → Result MutationError (Unit {0})
done_or e none = ok tt
done_or e (some message) = err (e message)

-- The element, or an error.
abbrev pub found_or : {A : Type 0} → MutationError → Option A → Result MutationError A
found_or e none = err e
found_or e (some x) = ok x

-- `emptyStrings`
abbrev pub empty_strings : {A : Type 0} → Slice A → Slice A
empty_strings null = slice []
empty_strings (slice xs) = slice xs

-- `createdAt.UTC()`
abbrev pub utc : Time → Time
utc t = record t { is_utc = true }

-- `stampEvent`
unfoldable pub stamp_event : World → Text → Text → EventBase → EventBase
stamp_event w request_id digest e = record e {
  schema = schema (codes "workplan-event");
  version = version;
  id = if is_nil e.id then w.event_id w.now else e.id;
  parents = empty_strings e.parents;
  created_at = if e.created_at.seconds == 0 then w.now else utc e.created_at;
  request_id = request_id;
  request_digest = digest;
}

-- `stampRevision`, on the time of creation.
abbrev pub stamp_time : World → Time → Time
stamp_time w t = if t.seconds == 0 then w.now else utc t

-- The end of a mutation that commits a directory.
unfoldable pub commit :
    World → Text → Text → List Text → List Text → Written → Result MutationError Outcome
commit w path urn created event_ids written =
    done_or not_written (w.commit_dir path)
    >> ok (
      written,
      record { urn = urn; path = path; created = created; event_ids = event_ids; replayed = false },
    )

-- The base of the first event of a new resource.
abbrev pub first_event : World → Text → Text → EventBase
first_event w request_id digest = record {
  schema = schema (codes "workplan-event");
  version = version;
  id = w.event_id w.now;
  parents = slice [];
  created_at = w.now;
  summary = [];
  request_id = request_id;
  request_digest = digest;
}

abbrev pub new_identity : World → Text → Text → Identity
new_identity w name id = record {
  schema = schema name;
  version = version;
  id = id;
  created_at = w.now;
}

abbrev pub same_texts : List Text → List Text → Bool
same_texts [] [] = true
same_texts (s ∷ ss) (t ∷ ts) = text_eq s t && same_texts ss ts
same_texts _ _ = false

-- `sameSet`
unfoldable pub same_set : List Text → List Text → Bool
unfolding sort_texts text_eq
same_set left right =
    if length left == length right then same_texts (sort_texts left) (sort_texts right) else false

abbrev pub error_text : Issue → Text
error_text i = i.path ++ (codes ": " ++ i.message)

abbrev pub join_semicolons : List Text → Text
join_semicolons [] = []
join_semicolons (t ∷ []) = t
join_semicolons (t ∷ u ∷ ts) = t ++ (codes "; " ++ join_semicolons (u ∷ ts))

-- `messages[:n]`, of at least so many.
abbrev pub first_texts : ℕ → List Text → List Text
first_texts zero ts = []
first_texts (suc n) [] = []
first_texts (suc n) (t ∷ ts) = t ∷ first_texts n ts

-- `joinIssues`
unfoldable pub join_issues : Library → List Issue → Text
unfolding text_eq
join_issues lib issues =
    let messages =
      map error_text (filter (λ (i : Issue). text_eq i.severity (codes "error")) issues) in
    join_semicolons (
      if ltb 3 (length messages)
      then first_texts 3 messages
        ++ ((codes "and " ++ (lib.itoa (length messages - 3) ++ codes " more")) ∷ [])
      else messages)
