-- ===== src/WorkPlan/Dag/Verdict.antt =====
-- What the search leaves behind: a closed walk, or marks whose finished nodes lie on no cycle.
use mathlib.Core.List.Memᴰ
use mathlib.Core.List.{Memᴰ}
use changesaga.Prelude.{
  ℕ, zero, suc, ◌≡◌, refl, sym, ◌∙◌, false, Option, none, some, List, [], ◌∷◌, ◌++◌, Text, All, inl,
  inr,
}
use changesaga.WorkPlan.Graph.{
  Graph, parents_of, Mark, unvisited, visiting, visited, Marks, set_mark,
}
use changesaga.WorkPlan.Graph.Paths.{Edge}
use changesaga.WorkPlan.Graph.Verdict.{
  set_mark-cases, Finished, Keeps, leave-Outcome, Finished-visiting,
}
use changesaga.WorkPlan.Dag.{
  Search, closed, clear, then_clear, visit_next, visit_nexts, close_node, visit_node, visit_root,
  visit_roots,
}
use changesaga.WorkPlan.Dag.Linked.{IsLinked, IsClosedWalk, IsLinked-snoc, closed_walk}

module _ (g : Graph) where
  -- Only nodes of the stack are being visited.
  abbrev pub IsOpenOn : List Text → Marks → Type 0
  IsOpenOn stack marks = (m : Text) → marks m ≡ visiting → Memᴰ m stack

  abbrev pub Result : List Text → Marks → Option Search → Type 0
  Result ns before none = Unit {0}
  Result ns before (some (closed path)) = IsClosedWalk g path
  Result ns before (some (clear after)) =
      Finished g after × Keeps g before after × All (λ n. after n ≡ visited) ns

  same_marks : (marks : Marks) → Keeps g marks marks
  same_marks marks = (λ m e. e, λ m e. e)

  -- A node that is finished in between is finished at the end.
  carry :
      (p : Text) (ps : List Text) {before middle : Marks}
      → Keeps g before middle
      → middle p ≡ visited
      → (v : Option Search) → Result ps middle v
      → Result (p ∷ ps) before v
  carry p ps k e none o = tt
  carry p ps k e (some (closed path)) o = o
  carry p ps k e (some (clear after)) o =
      (o.0, (λ m a. k.0 m (o.1.0 m a), λ m a. o.1.1 m (k.1 m a)), (o.1.1 p e, o.2))

  then-Result :
      (p : Text) (ps : List Text) (before : Marks) (rest : Marks → Option Search)
      → ((middle : Marks)
          → Finished g middle
          → Keeps g before middle
          → Result ps middle (rest middle))
      → (v : Option Search) → Result (p ∷ []) before v
      → Result (p ∷ ps) before (then_clear rest v)
  then-Result p ps before rest h none o = tt
  then-Result p ps before rest h (some (closed path)) o = o
  then-Result p ps before rest h (some (clear middle)) o =
      carry p ps o.1 o.2.0 (rest middle) (h middle o.0 o.1)

  close-Result :
      (n : Text) (marks : Marks) (v : Option Search)
      → marks n ≡ unvisited
      → Result (parents_of g n) (set_mark n visiting marks) v
      → Result (n ∷ []) marks (then_clear (close_node n) v)
  close-Result n marks none new o = tt
  close-Result n marks (some (closed path)) new o = o
  close-Result n marks (some (clear after)) new o =
      leave-Outcome g n marks (some (false, after)) new o

  module _ (go : List Text → Text → Marks → Option Search) (ss : List Text) (node : Text)
      (linked : IsLinked g (ss ++ (node ∷ [])))
      (each : (n : Text) (marks : Marks)
        → Edge g node n
        → Finished g marks
        → IsOpenOn (ss ++ (node ∷ [])) marks
        → marks n ≡ unvisited
        → Result (n ∷ []) marks (go (ss ++ (node ∷ [])) n marks)) where
    next-Result :
        (n : Text) (ns : List Text) (marks : Marks) (rest : Marks → Option Search)
        → Edge g node n
        → Finished g marks
        → IsOpenOn (ss ++ (node ∷ [])) marks
        → ((middle : Marks)
            → Finished g middle
            → Keeps g marks middle
            → Result ns middle (rest middle))
        → (k : Mark) → marks n ≡ k
        → Result (n ∷ ns) marks (visit_next go rest (ss ++ (node ∷ [])) n marks k)
    unfolding visit_next
    next-Result n ns marks rest edge fin on h visiting e =
        closed_walk g ss node n linked edge (on n e)
    next-Result n ns marks rest edge fin on h visited e =
        carry n ns (same_marks marks) e (rest marks) (h marks fin (same_marks marks))
    next-Result n ns marks rest edge fin on h unvisited e =
        then-Result n ns marks rest h (go (ss ++ (node ∷ [])) n marks) (each n marks edge fin on e)

    nexts-Result :
        (ns : List Text) (marks : Marks)
        → ((p : Text) → Memᴰ p ns → Edge g node p)
        → Finished g marks
        → IsOpenOn (ss ++ (node ∷ [])) marks
        → Result ns marks (visit_nexts go (ss ++ (node ∷ [])) ns marks)
    unfolding visit_nexts
    nexts-Result [] marks edges fin on = (fin, same_marks marks, tt)
    nexts-Result (n ∷ ns) marks edges fin on =
        next-Result n ns marks (visit_nexts go (ss ++ (node ∷ [])) ns) (edges n (Memᴰ.head refl))
          fin on
          (λ middle fin' k.
            nexts-Result ns middle (λ p i. edges p (Memᴰ.tail i)) fin' (λ m e. on m (k.0 m e)))
          (marks n) refl

  IsOpenOn-visiting :
      (stack : List Text) (node : Text) (marks : Marks)
      → IsOpenOn stack marks
      → IsOpenOn (stack ++ (node ∷ [])) (set_mark node visiting marks)
  IsOpenOn-visiting stack node marks on m e = elim (set_mark-cases node visiting marks m) [
    | inl s ↦ Memᴰ.append_right stack (Memᴰ.head s.0)
    | inr s ↦ Memᴰ.append_left (node ∷ []) (on m (sym s.1 ∙ e))
  ]

  visit_node-Result :
      (fuel : ℕ) (stack : List Text) (node : Text) (marks : Marks)
      → IsLinked g (stack ++ (node ∷ []))
      → Finished g marks
      → IsOpenOn stack marks
      → marks node ≡ unvisited
      → Result (node ∷ []) marks (visit_node g fuel stack node marks)
  unfolding visit_node
  visit_node-Result zero stack node marks linked fin on new = tt
  visit_node-Result (suc fuel) stack node marks linked fin on new = close-Result node marks _ new (
      nexts-Result (visit_node g fuel) stack node linked
        (λ n middle edge fin' on' new'.
          visit_node-Result fuel (stack ++ (node ∷ [])) n middle
            (IsLinked-snoc g stack node n linked edge) fin' on' new')
        (parents_of g node) (set_mark node visiting marks) (λ p i. i)
        (Finished-visiting g node marks fin) (IsOpenOn-visiting stack node marks on))

  root-Result :
      (fuel : ℕ) (n : Text) (ns : List Text) (marks : Marks) (rest : Marks → Option Search)
      → Finished g marks
      → IsOpenOn [] marks
      → ((middle : Marks)
          → Finished g middle
          → Keeps g marks middle
          → Result ns middle (rest middle))
      → (k : Mark) → marks n ≡ k
      → Result (n ∷ ns) marks (visit_root g fuel rest n marks k)
  unfolding visit_root
  root-Result fuel n ns marks rest fin on h visiting e = elim (on n e) [ ]
  root-Result fuel n ns marks rest fin on h visited e =
      carry n ns (same_marks marks) e (rest marks) (h marks fin (same_marks marks))
  root-Result fuel n ns marks rest fin on h unvisited e =
      then-Result n ns marks rest h (visit_node g fuel [] n marks)
        (visit_node-Result fuel [] n marks tt fin on e)

  pub roots-Result :
      (fuel : ℕ) (ns : List Text) (marks : Marks)
      → Finished g marks
      → IsOpenOn [] marks
      → Result ns marks (visit_roots g fuel ns marks)
  unfolding visit_roots
  roots-Result fuel [] marks fin on = (fin, same_marks marks, tt)
  roots-Result fuel (n ∷ ns) marks fin on =
      root-Result fuel n ns marks (visit_roots g fuel ns) fin on
        (λ middle fin' k. roots-Result fuel ns middle fin' (λ m e. on m (k.0 m e))) (marks n) refl
