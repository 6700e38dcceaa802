-- ===== src/WorkPlan/Graph.antt =====
-- internal/workplan/validate.go: the cycle check of revision graphs and event graphs, `graphCycle`,
-- which walks from a node to its parents.
pub mod Paths
pub mod Verdict
pub mod Fuel
pub mod Cycle
use changesaga.Prelude.{
  ℕ, zero, suc, ◌+◌, Bool, true, false, Option, none, some, List, [], ◌∷◌, ◌++◌, map, Text, text_eq,
  length, if◌then◌else◌,
}

pub record RevisionNode : Type 0 where
  pub id : Text
  pub parents : List Text

pub record EventNode : Type 0 where
  pub id : Text
  pub parents : List Text
  pub state : Text

-- `map[string][]string`, in some order of its keys.
abbrev pub Graph : Type 0
Graph = List (Text × List Text)

-- `graph[n]`, which is empty on a missing key.
unfoldable pub parents_of : Graph → Text → List Text
parents_of [] n = []
parents_of ((m, ps) ∷ g) n = if text_eq m n then ps else parents_of g n

-- `graph[n] = parents`.
unfoldable pub set_parents : Text → List Text → Graph → Graph
set_parents n ps [] = (n, ps) ∷ []
set_parents n ps ((m, qs) ∷ g) = if text_eq m n then (m, ps) ∷ g else (m, qs) ∷ set_parents n ps g

abbrev pub keys : Graph → List Text
keys = map (λ e. e.0)

-- The values 0, 1 and 2 of `state`.
pub data Mark : Type 0 where
  unvisited visiting visited : Mark

abbrev pub Marks : Type 0
Marks = Text → Mark

abbrev pub set_mark : Text → Mark → Marks → Marks
set_mark n k marks = λ m. if text_eq m n then k else marks m

-- What a visit returns, with the marks it leaves; `none` if its fuel ran out.
abbrev pub Visit : Type 0
Visit = Option (Bool × Marks)

-- `if visit(p) { return true }`, and what follows.
abbrev pub unless_found : (Marks → Visit) → Visit → Visit
unless_found rest none = none
unless_found rest (some (true, marks)) = some (true, marks)
unless_found rest (some (false, marks)) = rest marks

-- Both loops of `graphCycle`: over the parents of a node, and over the keys.
unfoldable pub visit_each : (Text → Marks → Visit) → List Text → Marks → Visit
visit_each go [] marks = some (false, marks)
visit_each go (p ∷ ps) marks = unless_found (visit_each go ps) (go p marks)

abbrev pub leave : Text → Marks → Visit
leave n marks = some (false, set_mark n visited marks)

-- The body of `visit`, by the mark of the node.
unfoldable pub enter : (Marks → Visit) → Text → Marks → Mark → Visit
enter walk n marks visiting = some (true, marks)
enter walk n marks visited = some (false, marks)
enter walk n marks unvisited = unless_found (leave n) (walk (set_mark n visiting marks))

unfoldable pub visit : Graph → ℕ → Text → Marks → Visit
unfolding enter visit_each parents_of
visit g zero n marks = none
visit g (suc fuel) n marks = enter (visit_each (visit g fuel) (parents_of g n)) n marks (marks n)

abbrev pub all_parents : Graph → List Text
all_parents [] = []
all_parents ((n, ps) ∷ g) = ps ++ all_parents g

-- Every node that a walk can meet.
abbrev pub nodes : Graph → List Text
nodes g = keys g ++ all_parents g

abbrev pub found : Visit → Option Bool
found none = none
found (some (b, marks)) = some b

-- A walk is at most as deep as there are nodes.
unfoldable pub graph_walk : Graph → Option Bool
unfolding visit visit_each
graph_walk g = found (visit_each (visit g (suc (length (nodes g)))) (keys g) (λ _. unvisited))

abbrev pub is_true : Option Bool → Bool
is_true none = false
is_true (some b) = b

unfoldable pub graph_cycle : Graph → Bool
unfolding graph_walk
graph_cycle g = is_true (graph_walk g)

unfoldable pub graph_of_revisions : List RevisionNode → Graph → Graph
unfolding set_parents
graph_of_revisions [] g = g
graph_of_revisions (n ∷ ns) g = graph_of_revisions ns (set_parents n.id n.parents g)

unfoldable pub graph_cycle_revisions : List RevisionNode → Bool
unfolding graph_cycle graph_of_revisions
graph_cycle_revisions ns = graph_cycle (graph_of_revisions ns [])

unfoldable pub graph_of_events : List EventNode → Graph → Graph
unfolding set_parents
graph_of_events [] g = g
graph_of_events (n ∷ ns) g = graph_of_events ns (set_parents n.id n.parents g)

unfoldable pub graph_cycle_events : List EventNode → Bool
unfolding graph_cycle graph_of_events
graph_cycle_events ns = graph_cycle (graph_of_events ns [])
