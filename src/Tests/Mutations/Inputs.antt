-- ===== src/Tests/Mutations/Inputs.antt =====
-- The inputs of the runs of the mutations.
use changesaga.Prelude.{true, false, none, some, List, [], ◌∷◌, ◌++◌, Text, codes}
use changesaga.WorkPlan.Records.{
  Time, EventBase, MergeUnit, WorkItem, WorkItemRevision, ProgressEvent, MergeEvent, Dependency,
  Contract, ContractEvent, Plan, Validation, slice,
}
use changesaga.WorkPlan.Checks.{Library, schema}
use changesaga.WorkPlan.Mutations.WorkItems.{planned, stamp_work_item_revision}
use changesaga.WorkPlan.Mutations.Created.{loaded}
use changesaga.WorkPlan.Mutations.{
  work_item_package, new_identity, World, Outcome, merge_event, progress_event, dependency_record,
}
use changesaga.WorkPlan.Mutations.Events.{stamp_merge, stamp_progress}
use changesaga.WorkPlan.Mutations.Create.{stamp_dependency}

abbrev pub no_issues : Validation
no_issues = record { valid = true; issues = [] }

abbrev pub lib : Library
lib = record {
  trim_space = λ t. t;
  parse_url = λ t. some (record { is_absolute = true; has_user = false; host = t });
  clean = λ t. t;
  itoa = λ n. 48 ∷ [];
}

abbrev pub now : Time
now = record { seconds = 9; is_utc = true }

abbrev pub world : World
world = record {
  now = now;
  event_id = λ t. codes "e9";
  ensure_dir = λ t. none;
  write_json = λ t. none;
  commit_dir = λ t. none;
}

abbrev pub base : Text → List Text → EventBase
base id parents = record {
  schema = schema (codes "workplan-event");
  version = 3;
  id = id;
  parents = slice parents;
  created_at = now;
  summary = [];
  request_id = [];
  request_digest = [];
}

abbrev pub item_urn : Text
item_urn = codes "urn:change-saga:s1:work-item:w1"

abbrev pub progress_urn : Text → Text
progress_urn id = item_urn ++ (codes ":progress-event:" ++ id)

abbrev pub progress : Text → List Text → Text → ProgressEvent
progress id parents state = record {
  base = base id parents;
  work_item = item_urn;
  state = state;
  reason = codes "why";
}

abbrev pub revision : WorkItemRevision
revision = record {
  schema = schema (codes "workplan-revision");
  version = 3;
  id = codes "r1";
  work_item = item_urn;
  parents = slice [];
  title = codes "title";
  objective = codes "objective";
  deliverables = slice (codes "code" ∷ []);
  wave = [];
  relations = slice [];
  dependencies = slice [];
  contracts = slice [];
  expected_touch_areas = slice [];
  completion_checks = slice [];
  merge_units = slice [];
  created_at = now;
  request_id = [];
  request_digest = [];
}

-- An item whose progress has two heads.
abbrev pub item : WorkItem
item = record {
  identity = record {
    schema = schema (codes "work-item");
    version = 3;
    id = codes "w1";
    created_at = now;
  };
  revisions = revision ∷ [];
  heads = [];
  progress =
      progress (codes "e1") [] (codes "planned")
      ∷ progress (codes "e2") (progress_urn (codes "e1") ∷ []) (codes "ready")
      ∷ progress (codes "e3") (progress_urn (codes "e1") ∷ []) (codes "blocked")
      ∷ [];
  workspaces = [];
  merges = [];
  current_revision = none;
  current_progress = none;
}

abbrev pub plan : Plan
plan = record {
  root = codes "saga";
  saga_id = codes "s1";
  waves = [];
  work_items = (codes "w1", item) ∷ (codes "w2", item) ∷ [];
  dependencies = [];
  contracts = [];
  requests = [];
  conflicts = [];
}

abbrev pub digest : Text
digest = codes "0123456789abcdef0123456789abcdef0123456789abcdef0123456789abcdef"

abbrev pub request : Text
request = codes "req"

-- An event that joins both heads.
abbrev pub joined : ProgressEvent
joined =
    progress [] (progress_urn (codes "e3") ∷ progress_urn (codes "e2") ∷ []) (codes "in_progress")

abbrev pub outcome : Outcome
outcome = (
  progress_event (codes "w1") (stamp_progress lib world plan request digest (codes "w1") joined),
  record {
    urn = progress_urn (codes "e9");
    path = codes "___workplan/work-items/w1.work-item/events/progress/e9.json";
    created = [];
    event_ids = codes "e9" ∷ [];
    replayed = false;
  },
)

-- An item whose streams have ended, and a contract.
abbrev pub cancelled : ProgressEvent
cancelled = progress (codes "e1") [] (codes "cancelled")

abbrev pub abandoned : MergeEvent
abandoned = record {
  base = base (codes "m1") [];
  work_item = item_urn;
  unit = codes "u";
  state = codes "abandoned";
  head_oid = [];
  merge_oid = [];
  revert_oid = [];
}

abbrev pub waived : ContractEvent
waived = record {
  base = base (codes "c1") [];
  contract = codes "urn:change-saga:s1:contract:c";
  state = codes "waived";
  evidence = slice [];
}

abbrev pub ended : WorkItem
ended = record item { progress = cancelled ∷ []; merges = abandoned ∷ [] }

abbrev pub ended_contract : Contract
ended_contract = record {
  identity = item.identity;
  revisions = [];
  heads = [];
  events = waived ∷ [];
  current_revision = none;
  current_event = none;
}

abbrev pub order : Dependency
order = record {
  schema = [];
  version = 0;
  id = codes "d1";
  prerequisite = item_urn;
  dependent = codes "urn:change-saga:s1:work-item:w2";
  condition = record { kind = codes "progress_done"; contract_revision = [] };
  reason = codes "order";
  created_at = now;
  request_id = [];
  request_digest = [];
}

abbrev pub ordered : Outcome
ordered = (
  dependency_record (stamp_dependency lib world request digest order),
  record {
    urn = codes "urn:change-saga:s1:dependency:d1";
    path = codes "___workplan/dependencies/d1.dependency";
    created = codes "urn:change-saga:s1:dependency:d1" ∷ [];
    event_ids = [];
    replayed = false;
  },
)

abbrev pub order_path : Text
order_path = codes "___workplan/dependencies/d1.dependency/dependency.json"

-- A plan without items, the item that is created in it, and an event of its merge unit.
abbrev pub empty_plan : Plan
empty_plan = record plan { work_items = [] }

-- A revision with a merge unit.
abbrev unit : MergeUnit
unit = record {
  id = codes "u";
  repository = codes "https://h/r";
  source_branch = codes "b";
  target_branch = codes "main";
  required = true;
}

abbrev pub merging : WorkItemRevision
merging = record revision { merge_units = slice (unit ∷ []) }

-- The item that is created with it, as a load returns it.
abbrev pub new_item : WorkItem
new_item = loaded lib world empty_plan request digest plan (codes "w1") merging

abbrev pub new_outcome : Outcome
new_outcome = (
  work_item_package (new_identity world (codes "work-item") (codes "w1"))
      (stamp_work_item_revision lib world empty_plan request digest merging)
      (planned lib world empty_plan request digest (codes "w1")),
  record {
    urn = item_urn;
    path = codes "___workplan/work-items/w1.work-item";
    created = item_urn ∷ [];
    event_ids = codes "e9" ∷ [];
    replayed = false;
  },
)

abbrev pub to_merge : MergeEvent
to_merge = record abandoned { state = codes "planned" }

abbrev pub merge_outcome : Outcome
merge_outcome = (
  merge_event (codes "w1") (stamp_merge lib world plan request digest (codes "w1") to_merge),
  record {
    urn = item_urn ++ codes ":merge-event:m1";
    path = codes "___workplan/work-items/w1.work-item/events/merges/m1.json";
    created = [];
    event_ids = codes "m1" ∷ [];
    replayed = false;
  },
)
