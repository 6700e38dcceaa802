-- ===== src/Tests/Dependencies.antt =====
-- The dependency graph of internal/workplan at fixed inputs.
use changesaga.Prelude.{
  get, ◌≡◌, refl, ◌↔◌, ◌⊎◌, true, some, List, [], ◌∷◌, Text, codes, text_eq, text_lt, sort_texts,
  map,
}
use changesaga.WorkPlan.Records.{Dependency, Plan, Validation}
use changesaga.WorkPlan.Graph.{Marks, parents_of}
use changesaga.WorkPlan.Graph.Paths.{Cycle}
use changesaga.WorkPlan.Dag.{
  closed, clear, find_cycle, visit_roots, visit_node, visit_nexts, stack_from,
}
use changesaga.WorkPlan.Dag.Linked.{IsClosedWalk}
use changesaga.WorkPlan.Dag.Decides.{find_cycle-decides}
use changesaga.WorkPlan.Dependencies.{
  sorted_dependencies, validate_dependency_dag, dependency_graph,
}
use changesaga.WorkPlan.Dependencies.Accepted.{
  IsAcyclic, edge_keys, validate_dependency_dag-IsAcyclic,
}
use changesaga.WorkPlan.Nodes.Issues.{IsDistinct}

abbrev depends : Text → Text → Text → Text × Dependency
depends id before after = (
  id,
  record {
    schema = [];
    version = 3;
    id = id;
    prerequisite = before;
    dependent = after;
    condition = record { kind = codes "progress_done"; contract_revision = [] };
    reason = codes "order";
    created_at = record { seconds = 1; is_utc = true };
    request_id = [];
    request_digest = [];
  },
)

-- a, then b, then c, then b again.
abbrev circular : Plan
circular = record {
  root = codes "saga";
  saga_id = codes "s1";
  waves = [];
  work_items = [];
  dependencies =
      depends (codes "d2") (codes "b") (codes "c")
      ∷ depends (codes "d1") (codes "a") (codes "b")
      ∷ depends (codes "d3") (codes "c") (codes "b")
      ∷ [];
  contracts = [];
  requests = [];
  conflicts = [];
}

abbrev no_issues : Validation
no_issues = record { valid = true; issues = [] }

validate_dependency_dag-IsAcyclic_example :
    (validate_dependency_dag circular no_issues ≡ no_issues) ↔ (
      IsDistinct (edge_keys (sorted_dependencies circular))
      × IsAcyclic (sorted_dependencies circular))
validate_dependency_dag-IsAcyclic_example = validate_dependency_dag-IsAcyclic circular no_issues

find_cycle-decides_example :
    ((path : List Text) × (find_cycle (dependency_graph circular) ≡ some (closed path))
      × IsClosedWalk (dependency_graph circular) path)
    ⊎ ((after : Marks) × (find_cycle (dependency_graph circular) ≡ some (clear after))
        × (Cycle (dependency_graph circular) → ⊥))
find_cycle-decides_example = find_cycle-decides (dependency_graph circular)

circular_run :
    map (λ i. i.message) (validate_dependency_dag circular no_issues).issues
    ≡ codes "dependency cycle: b -> c -> b" ∷ []
unfolding validate_dependency_dag find_cycle dependency_graph sorted_dependencies visit_roots
    visit_node visit_nexts stack_from text_eq text_lt sort_texts get parents_of
circular_run = refl
