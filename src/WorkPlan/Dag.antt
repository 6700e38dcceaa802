-- ===== src/WorkPlan/Dag.antt =====
-- internal/workplan/validate.go: the search of `validateDependencyDAG`, which reports the first cycle
-- that its walk closes, as the list of its nodes.
pub mod Linked
pub mod Verdict
pub mod Decides
use changesaga.Prelude.{
  ℕ, zero, suc, ◌+◌, Option, none, some, List, [], ◌∷◌, ◌++◌, map, Text, codes, text_eq, sort_texts,
  length, if◌then◌else◌,
}
use changesaga.WorkPlan.Graph.{
  Graph, parents_of, keys, nodes, Mark, unvisited, visiting, visited, Marks, set_mark,
}

-- What a walk returns: the cycle it reports, or the marks it leaves.
pub data Search : Type 0 where
  closed : List Text → Search
  clear : Marks → Search

-- `stack[start:]` from the first entry that is the node.
unfoldable pub stack_from : Text → List Text → List Text
stack_from n [] = []
stack_from n (s ∷ ss) = if text_eq s n then s ∷ ss else stack_from n ss

abbrev pub then_clear : (Marks → Option Search) → Option Search → Option Search
then_clear rest none = none
then_clear rest (some (closed path)) = some (closed path)
then_clear rest (some (clear marks)) = rest marks

-- A successor that is being visited closes a cycle, a new one is visited, an old one is passed over.
unfoldable pub visit_next :
    (List Text → Text → Marks → Option Search)
    → (Marks → Option Search)
    → List Text
    → Text
    → Marks
    → Mark
    → Option Search
unfolding stack_from
visit_next go rest stack n marks visiting = some (closed (stack_from n stack ++ (n ∷ [])))
visit_next go rest stack n marks visited = rest marks
visit_next go rest stack n marks unvisited = then_clear rest (go stack n marks)

-- The loop over the successors; the stack ends with the node they follow.
unfoldable pub visit_nexts :
    (List Text → Text → Marks → Option Search) → List Text → List Text → Marks → Option Search
unfolding visit_next
visit_nexts go stack [] marks = some (clear marks)
visit_nexts go stack (n ∷ ns) marks =
    visit_next go (visit_nexts go stack ns) stack n marks (marks n)

abbrev pub close_node : Text → Marks → Option Search
close_node node marks = some (clear (set_mark node visited marks))

-- `visit`, with the stack as it stands before.
unfoldable pub visit_node : Graph → ℕ → List Text → Text → Marks → Option Search
unfolding visit_nexts parents_of
visit_node g zero stack node marks = none
visit_node g (suc fuel) stack node marks = then_clear (close_node node) (
    visit_nexts (visit_node g fuel) (stack ++ (node ∷ [])) (parents_of g node)
      (set_mark node visiting marks))

-- `state[node] == 0 && visit(node)` for one key.
unfoldable pub visit_root :
    Graph → ℕ → (Marks → Option Search) → Text → Marks → Mark → Option Search
unfolding visit_node
visit_root g fuel rest node marks unvisited = then_clear rest (visit_node g fuel [] node marks)
visit_root g fuel rest node marks visiting = rest marks
visit_root g fuel rest node marks visited = rest marks

unfoldable pub visit_roots : Graph → ℕ → List Text → Marks → Option Search
unfolding visit_root
visit_roots g fuel [] marks = some (clear marks)
visit_roots g fuel (n ∷ ns) marks = visit_root g fuel (visit_roots g fuel ns) n marks (marks n)

-- The search of `validateDependencyDAG`.
unfoldable pub find_cycle : Graph → Option Search
unfolding visit_roots
find_cycle g = visit_roots g (suc (length (nodes g))) (sort_texts (keys g)) (λ _. unvisited)
