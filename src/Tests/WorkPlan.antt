-- ===== src/Tests/WorkPlan.antt =====
-- internal/workplan at fixed inputs.
use changesaga.Prelude.{
  ◌≡◌, refl, ◌↔◌, ◌⊎◌, true, false, some, none, List, [], ◌∷◌, Text, codes, text_eq, last_index,
  has, sort_texts, add_all, if◌then◌else◌, err,
}
use changesaga.LivingId.{Reference, revision, contract, no_design, build, valid_id}
use changesaga.WorkPlan.Records.{Time, EventBase, WorkItem, Plan, Validation, slice}
use changesaga.WorkPlan.Graph.{
  RevisionNode, EventNode, Graph, graph_walk, graph_cycle, visit, enter, parents_of, visit_each,
}
use changesaga.WorkPlan.Graph.Paths.{Cycle}
use changesaga.WorkPlan.Graph.Cycle.{graph_cycle_iff-Cycle}
use changesaga.WorkPlan.Nodes.{validate_revision_graph, validate_event_graph}
use changesaga.WorkPlan.Nodes.Accepted.{
  IsRevisionGraph, IsEventGraph, validate_revision_graph-IsRevisionGraph,
  validate_event_graph-IsEventGraph,
}
use changesaga.WorkPlan.Urns.{progress_event_urn, item_event_urn, invalid_names}
use changesaga.WorkPlan.Readiness.{accept, dependency_satisfied, contract_revision_ids}
use changesaga.WorkPlan.Readiness.Identifiers.{contract_revision_ids-build}
use changesaga.WorkPlan.Readiness.Satisfied.{IsSatisfied, dependency_satisfied_iff-IsSatisfied}

-- Three nodes in a ring.
abbrev ring : Graph
ring =
    (codes "a", codes "b" ∷ [])
    ∷ (codes "b", codes "x" ∷ codes "c" ∷ [])
    ∷ (codes "c", codes "a" ∷ [])
    ∷ []

ring_cyclic : graph_walk ring ≡ some true
unfolding graph_walk visit enter visit_each parents_of text_eq
ring_cyclic = refl

graph_cycle_iff-Cycle_example :
    (graph_walk ring ≡ some (graph_cycle ring)) × ((graph_cycle ring ≡ true) ↔ Cycle ring)
graph_cycle_iff-Cycle_example = graph_cycle_iff-Cycle ring

abbrev no_issues : Validation
no_issues = record { valid = true; issues = [] }

abbrev revisions : List RevisionNode
revisions =
    record { id = codes "r1"; parents = [] }
    ∷ record { id = codes "r2"; parents = codes "r1" ∷ [] }
    ∷ []

validate_revision_graph-IsRevisionGraph_example :
    ((validate_revision_graph no_issues (codes "p") revisions).0 ≡ no_issues)
    ↔ IsRevisionGraph revisions
validate_revision_graph-IsRevisionGraph_example =
    validate_revision_graph-IsRevisionGraph no_issues (codes "p") revisions

abbrev events : List EventNode
events =
    record { id = codes "e1"; parents = []; state = codes "planned" }
    ∷ record { id = codes "e2"; parents = codes "e1" ∷ codes "e1" ∷ []; state = codes "done" }
    ∷ []

validate_event_graph-IsEventGraph_example :
    ((validate_event_graph no_issues (codes "p") events true).0 ≡ no_issues)
    ↔ (((events ≡ []) × (true ≡ false)) ⊎ IsEventGraph events)
validate_event_graph-IsEventGraph_example =
    validate_event_graph-IsEventGraph no_issues (codes "p") events true

-- A revision of a contract that is called "contract".
abbrev of_contract : Text → Reference
of_contract contract_id = record {
  saga_id = codes "s1";
  kind = revision;
  id = codes "r1";
  parent_id = contract_id;
  parent_kind = contract;
  design_kind = no_design;
}

contract_revision_ids-build_example :
    contract_revision_ids (codes "urn:change-saga:s1:contract:contract:revision:r1") ≡ (
      if text_eq (codes "contract") (codes "contract")
      then none
      else some (codes "contract", codes "r1"))
unfolding build valid_id
contract_revision_ids-build_example =
    contract_revision_ids-build (of_contract (codes "contract")) refl refl refl

contract_panics :
    contract_revision_ids (codes "urn:change-saga:s1:contract:contract:revision:r1") ≡ none
unfolding text_eq
contract_panics = contract_revision_ids-build_example

abbrev created : Time
created = record { seconds = 1; is_utc = true }

abbrev event : Text → List Text → EventBase
event id parents = record {
  schema = [];
  version = 3;
  id = id;
  parents = slice parents;
  created_at = created;
  summary = [];
  request_id = [];
  request_digest = [];
}

abbrev item_urn : Text
item_urn = codes "urn:change-saga:s1:work-item:w1"

abbrev item : WorkItem
item = record {
  identity = record { schema = []; version = 3; id = codes "w1"; created_at = created };
  revisions = [];
  heads = [];
  progress =
      record {
        base = event (codes "e1") [];
        work_item = item_urn;
        state = codes "planned";
        reason = [];
      }
      ∷ record {
        base = event (codes "e2") (codes "urn:change-saga:s1:work-item:w1:progress-event:e1" ∷ []);
        work_item = item_urn;
        state = codes "done";
        reason = [];
      }
      ∷ [];
  workspaces = [];
  merges = [];
  current_revision = none;
  current_progress = none;
}

abbrev plan : Plan
plan = record {
  root = codes "saga";
  saga_id = codes "s1";
  waves = [];
  work_items = (codes "w1", item) ∷ [];
  dependencies =
      (
        codes "d1",
        record {
          schema = [];
          version = 3;
          id = codes "d1";
          prerequisite = item_urn;
          dependent = codes "urn:change-saga:s1:work-item:w2";
          condition = record { kind = codes "progress_done"; contract_revision = [] };
          reason = codes "order";
          created_at = created;
          request_id = [];
          request_digest = [];
        },
      )
      ∷ [];
  contracts = [];
  requests = [];
  conflicts = [];
}

dependency_satisfied_iff-IsSatisfied_example :
    (dependency_satisfied plan (codes "d1") ≡ accept) ↔ IsSatisfied plan (codes "d1")
dependency_satisfied_iff-IsSatisfied_example =
    dependency_satisfied_iff-IsSatisfied plan (codes "d1")

dependency_run : dependency_satisfied plan (codes "d1") ≡ accept
unfolding dependency_satisfied text_eq last_index has sort_texts add_all
dependency_run = refl

invalid_item : progress_event_urn (codes "s") [] (codes "e") ≡ err (codes "work item" ∷ [])
unfolding item_event_urn invalid_names valid_id
invalid_item = refl
