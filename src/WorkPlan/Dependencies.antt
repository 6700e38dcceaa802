-- ===== src/WorkPlan/Dependencies.antt =====
-- internal/workplan/validate.go: `validateDependencyDAG` around its search: the dependencies that stand
-- twice, the graph of the others, and the issue of a cycle.
pub mod Edges
pub mod Accepted
use changesaga.Prelude.{
  Table, get, put, true, Option, none, some, List, [], ◌∷◌, ◌++◌, map, Text, codes, text_eq,
  sort_texts, if◌then◌else◌,
}
use changesaga.WorkPlan.Records.{Dependency, Plan, Validation, Issue}
use changesaga.WorkPlan.Graph.{Graph}
use changesaga.WorkPlan.Nodes.{error_if, add_issues}
use changesaga.WorkPlan.Dag.{Search, closed, clear, find_cycle}

-- The dependencies by identifier, in the order of `sortedKeys`.
unfoldable pub in_order : List Text → Table Dependency → List (Text × Dependency)
unfolding get
in_order [] t = []
in_order (id ∷ ids) t = with_found (get id t) (in_order ids t)
  where
    with_found : Option Dependency → List (Text × Dependency) → List (Text × Dependency)
    with_found none rest = rest
    with_found (some d) rest = (id, d) ∷ rest

abbrev pub table_keys : {A : Type 0} → Table A → List Text
table_keys = map (λ e. e.0)

unfoldable pub sorted_dependencies : Plan → List (Text × Dependency)
unfolding in_order sort_texts
sorted_dependencies plan = in_order (sort_texts (table_keys plan.dependencies)) plan.dependencies

abbrev pub edge_key : Dependency → Text
edge_key d =
    d.prerequisite
    ++ (0 ∷ d.dependent ++ (0 ∷ d.condition.kind ++ (0 ∷ d.condition.contract_revision)))

abbrev pub dependency_path : Text → Text
dependency_path id =
    codes "___workplan/dependencies/" ++ (id ++ codes ".dependency/dependency.json")

-- `edges[key] = id`, unless the key stands already.
abbrev pub enter_edge : Text → Text → Table Text → Option Text → Table Text
enter_edge key id edges (some prior) = edges
enter_edge key id edges none = put key id edges

abbrev pub duplicate_issue : Text → Option Text → List Issue
duplicate_issue id none = []
duplicate_issue id (some prior) =
    error_if true (dependency_path id) (codes "duplicates dependency " ++ prior)

-- The first loop: a dependency that stands already is reported, a new one is entered.
unfoldable pub duplicate_edges : Table Text → List (Text × Dependency) → List Issue
unfolding get put
duplicate_edges edges [] = []
duplicate_edges edges ((id, d) ∷ ds) =
    let prior = get (edge_key d) edges in
    duplicate_issue id prior ++ duplicate_edges (enter_edge (edge_key d) id edges prior) ds

-- `graph[node] = append(graph[node], next)`.
unfoldable pub append_edge : Text → Text → Graph → Graph
append_edge node next [] = (node, next ∷ []) ∷ []
append_edge node next ((n, ns) ∷ g) =
    if text_eq n node then (n, ns ++ (next ∷ [])) ∷ g else (n, ns) ∷ append_edge node next g

unfoldable pub add_edges : List (Text × Dependency) → Graph → Graph
unfolding append_edge
add_edges [] g = g
add_edges ((id, d) ∷ ds) g = add_edges ds (append_edge d.prerequisite d.dependent g)

unfoldable pub sort_edges : Graph → Graph
unfolding sort_texts
sort_edges [] = []
sort_edges ((n, ns) ∷ g) = (n, sort_texts ns) ∷ sort_edges g

unfoldable pub dependency_graph : Plan → Graph
unfolding sorted_dependencies add_edges sort_edges
dependency_graph plan = sort_edges (add_edges (sorted_dependencies plan) [])

-- `strings.Join(cycle, " -> ")`
abbrev pub join_arrows : List Text → Text
join_arrows [] = []
join_arrows (t ∷ []) = t
join_arrows (t ∷ u ∷ ts) = t ++ codes " -> " ++ join_arrows (u ∷ ts)

abbrev pub cycle_issues : Option Search → List Issue
cycle_issues none = []
cycle_issues (some (clear marks)) = []
cycle_issues (some (closed path)) =
    error_if true (codes "___workplan/dependencies")
      (codes "dependency cycle: " ++ join_arrows path)

unfoldable pub validate_dependency_dag : Plan → Validation → Validation
unfolding duplicate_edges find_cycle dependency_graph
validate_dependency_dag plan v = add_issues v (
    duplicate_edges [] (sorted_dependencies plan)
    ++ cycle_issues (find_cycle (dependency_graph plan)))
