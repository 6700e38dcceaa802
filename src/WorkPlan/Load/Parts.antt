-- ===== src/WorkPlan/Load/Parts.antt =====
-- internal/workplan/load.go: a resource while it is loaded, with what its revisions and events add.
use changesaga.Prelude.{none, List, [], ◌∷◌, ◌++◌, Text, codes, Table, put, if◌then◌else◌}
use changesaga.WorkPlan.Records.{
  Identity, Wave, WaveRevision, WorkItem, WorkItemRevision, Contract, ContractRevision,
  RequestRecord, Plan, elements,
}
use changesaga.WorkPlan.Nodes.{add_issues, is_nil}
use changesaga.WorkPlan.Mutations.Requests.{Registered, register_request}
use changesaga.WorkPlan.Load.Walks.{Walk}

-- A resource with the plan that it will be a part of.
abbrev pub Part : Type 0 → Type 0
Part A = Walk (A × Plan)

abbrev pub set_requests : Plan → Table RequestRecord → Plan
set_requests plan requests = record plan { requests = requests }

-- The resource with the record, and the plan with the record's request.
abbrev pub keep_registered : {A : Type 0} → A × Registered → Part A → Part A
keep_registered (resource, (requests, issues)) ((old, plan), v) =
    ((resource, set_requests plan requests), add_issues v issues)

-- The request of a revision: the first creates the resource.
abbrev pub revision_request : Text → Text → Text → List Text → Text → Text → RequestRecord
revision_request kind resource id parents digest path = record {
  operation = if is_nil parents then kind ++ codes "-create" else kind ++ codes "-revision";
  digest = digest;
  resource = if is_nil parents then resource else resource ++ (codes ":revision:" ++ id);
  event_id = [];
  path = path;
}

abbrev pub load_wave_revision : Text → WaveRevision → Part Wave → Part Wave
load_wave_revision path r ((wave, plan), v) =
    keep_registered
      (
        record wave { revisions = wave.revisions ++ (r ∷ []) },
        register_request plan.requests r.request_id (
            revision_request (codes "wave") r.wave r.id (elements r.parents) r.request_digest path),
      )
      ((wave, plan), v)

abbrev pub load_work_item_revision : Text → WorkItemRevision → Part WorkItem → Part WorkItem
load_work_item_revision path r ((item, plan), v) =
    keep_registered
      (
        record item { revisions = item.revisions ++ (r ∷ []) },
        register_request plan.requests r.request_id (
            revision_request (codes "work-item") r.work_item r.id (elements r.parents)
              r.request_digest path),
      )
      ((item, plan), v)

abbrev pub load_contract_revision : Text → ContractRevision → Part Contract → Part Contract
load_contract_revision path r ((contract, plan), v) =
    keep_registered
      (
        record contract { revisions = contract.revisions ++ (r ∷ []) },
        register_request plan.requests r.request_id (
            revision_request (codes "contract") r.contract r.id (elements r.parents)
              r.request_digest path),
      )
      ((contract, plan), v)

-- The callback of a stream, with one of the functions that enter an event.
abbrev pub load_event :
    {A E : Type 0}
    → (Text → E → A → Table RequestRecord → A × Registered)
    → Text
    → E
    → Part A
    → Part A
load_event load path e ((resource, plan), v) =
    keep_registered (load path e resource plan.requests) ((resource, plan), v)

abbrev pub new_wave : Identity → Wave
new_wave identity = record {
  identity = identity;
  revisions = [];
  heads = [];
  current_revision = none;
}

abbrev pub new_work_item : Identity → WorkItem
new_work_item identity = record {
  identity = identity;
  revisions = [];
  heads = [];
  progress = [];
  workspaces = [];
  merges = [];
  current_revision = none;
  current_progress = none;
}

abbrev pub new_contract : Identity → Contract
new_contract identity = record {
  identity = identity;
  revisions = [];
  heads = [];
  events = [];
  current_revision = none;
  current_event = none;
}

abbrev pub put_wave : Text → Wave × Plan → Plan
put_wave id (wave, plan) = record plan { waves = put id wave plan.waves }

abbrev pub put_work_item : Text → WorkItem × Plan → Plan
put_work_item id (item, plan) = record plan { work_items = put id item plan.work_items }

abbrev pub put_contract : Text → Contract × Plan → Plan
put_contract id (contract, plan) = record plan { contracts = put id contract plan.contracts }
