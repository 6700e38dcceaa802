-- ===== src/WorkPlan/Dag/Decides.antt =====
-- The search comes to an end, with a closed walk exactly if there is a cycle.
use mathlib.Core.List.Memᴰ
use mathlib.Core.List.{Memᴰ}
use changesaga.Prelude.{
  ℕ, zero, suc, ◌<◌, ◌≡◌, refl, ◌⊎◌, inl, inr, true, Option, none, some, List, [], ◌∷◌, ◌++◌, Text,
  length, sort_texts, sort_texts-Memᴰ, arith,
}
use changesaga.WorkPlan.Graph.{
  Graph, parents_of, keys, nodes, all_parents, Mark, unvisited, visiting, visited, Marks, set_mark,
}
use changesaga.WorkPlan.Graph.Paths.{Ends-no_return, Cycle}
use changesaga.WorkPlan.Graph.Fuel.{
  left, Shrinks, left-set_mark, Shrinks-set_mark, left-Shrinks, Edge-nodes, count_if-length,
}
use changesaga.WorkPlan.Graph.Cycle.{All-at, Walk-keys, unvisited-ne-visited, unvisited-ne-visiting}
use changesaga.WorkPlan.Dag.{
  Search, closed, clear, then_clear, visit_next, visit_nexts, close_node, visit_node, visit_root,
  visit_roots, find_cycle,
}
use changesaga.WorkPlan.Dag.Linked.{IsClosedWalk}
use changesaga.WorkPlan.Dag.Verdict.{Result, roots-Result}

module _ (g : Graph) where
  -- The fuel did not run out.
  abbrev Answers : Marks → Option Search → Type 0
  Answers before none = ⊥
  Answers before (some (closed path)) = Unit {0}
  Answers before (some (clear after)) = Shrinks g before after

  through :
      (before middle : Marks) (v : Option Search)
      → Shrinks g before middle
      → Answers middle v
      → Answers before v
  through before middle none s a = a
  through before middle (some (closed path)) s a = tt
  through before middle (some (clear after)) s a = λ m e. s m (a m e)

  then-Answers :
      (before : Marks) (rest : Marks → Option Search)
      → ((middle : Marks) → Shrinks g before middle → Answers middle (rest middle))
      → (v : Option Search) → Answers before v
      → Answers before (then_clear rest v)
  then-Answers before rest h none a = a
  then-Answers before rest h (some (closed path)) a = tt
  then-Answers before rest h (some (clear middle)) a =
      through before middle (rest middle) a (h middle a)

  close-Answers :
      (n : Text) (marks : Marks) (v : Option Search)
      → Answers (set_mark n visiting marks) v
      → Answers marks (then_clear (close_node n) v)
  close-Answers n marks none a = a
  close-Answers n marks (some (closed path)) a = tt
  close-Answers n marks (some (clear after)) a = λ m e.
      Shrinks-set_mark g n visiting marks refl m (a m (Shrinks-set_mark g n visited after refl m e))

  next-Answers :
      (go : List Text → Text → Marks → Option Search) (rest : Marks → Option Search)
      (stack : List Text) (n : Text) (marks : Marks)
      → (marks n ≡ unvisited → Answers marks (go stack n marks))
      → ((middle : Marks) → Shrinks g marks middle → Answers middle (rest middle))
      → (k : Mark) → marks n ≡ k
      → Answers marks (visit_next go rest stack n marks k)
  unfolding visit_next
  next-Answers go rest stack n marks each h visiting e = tt
  next-Answers go rest stack n marks each h visited e = h marks (λ m i. i)
  next-Answers go rest stack n marks each h unvisited e =
      then-Answers marks rest h (go stack n marks) (each e)

  nexts-Answers :
      (go : List Text → Text → Marks → Option Search) (fuel : ℕ) (stack : List Text)
      → ((n : Text) (marks : Marks)
          → Memᴰ n (nodes g)
          → marks n ≡ unvisited
          → left g marks < fuel
          → Answers marks (go stack n marks))
      → (ns : List Text) (marks : Marks) → ((p : Text) → Memᴰ p ns → Memᴰ p (nodes g))
      → left g marks < fuel
      → Answers marks (visit_nexts go stack ns marks)
  unfolding visit_nexts
  nexts-Answers go fuel stack each [] marks known lt = λ m e. e
  nexts-Answers go fuel stack each (n ∷ ns) marks known lt =
      next-Answers go (visit_nexts go stack ns) stack n marks
        (λ new. each n marks (known n (Memᴰ.head refl)) new lt)
        (λ middle s.
          nexts-Answers go fuel stack each ns middle (λ p i. known p (Memᴰ.tail i))
            (omega (arith, left-Shrinks g marks middle s)))
        (marks n) refl

  visit_node-Answers :
      (fuel : ℕ) (stack : List Text) (n : Text) (marks : Marks)
      → Memᴰ n (nodes g)
      → marks n ≡ unvisited
      → left g marks < fuel
      → Answers marks (visit_node g fuel stack n marks)
  unfolding visit_node
  visit_node-Answers zero stack n marks i new lt = elim lt [ ]
  visit_node-Answers (suc fuel) stack n marks i new lt = close-Answers n marks _ (
      nexts-Answers (visit_node g fuel) fuel (stack ++ (n ∷ []))
        (visit_node-Answers fuel (stack ++ (n ∷ []))) (parents_of g n) (set_mark n visiting marks)
        (Edge-nodes g n) (omega (arith, left-set_mark g n marks i new)))

  root-Answers :
      (fuel : ℕ) (n : Text) (marks : Marks) (rest : Marks → Option Search)
      → Memᴰ n (nodes g)
      → left g marks < fuel
      → ((middle : Marks) → Shrinks g marks middle → Answers middle (rest middle))
      → (k : Mark) → marks n ≡ k
      → Answers marks (visit_root g fuel rest n marks k)
  unfolding visit_root
  root-Answers fuel n marks rest i lt h visiting e = h marks (λ m j. j)
  root-Answers fuel n marks rest i lt h visited e = h marks (λ m j. j)
  root-Answers fuel n marks rest i lt h unvisited e =
      then-Answers marks rest h (visit_node g fuel [] n marks)
        (visit_node-Answers fuel [] n marks i e lt)

  roots-Answers :
      (fuel : ℕ) (ns : List Text) (marks : Marks)
      → ((p : Text) → Memᴰ p ns → Memᴰ p (nodes g))
      → left g marks < fuel
      → Answers marks (visit_roots g fuel ns marks)
  unfolding visit_roots
  roots-Answers fuel [] marks known lt = λ m e. e
  roots-Answers fuel (n ∷ ns) marks known lt =
      root-Answers fuel n marks (visit_roots g fuel ns) (known n (Memᴰ.head refl)) lt
        (λ middle s.
          roots-Answers fuel ns middle (λ p i. known p (Memᴰ.tail i))
            (omega (arith, left-Shrinks g marks middle s)))
        (marks n) refl

  decide :
      (v : Option Search)
      → Result g (sort_texts (keys g)) (λ _. unvisited) v
      → Answers (λ _. unvisited) v
      → ((path : List Text) × (v ≡ some (closed path)) × IsClosedWalk g path)
        ⊎ ((after : Marks) × (v ≡ some (clear after)) × (Cycle g → ⊥))
  decide none o a = absurd a
  decide (some (closed path)) o a = inl (path, refl, o)
  decide (some (clear after)) o a = inr (
    after,
    refl,
    λ c.
        Ends-no_return
          (o.0 c.0 (
            All-at g (λ n. after n ≡ visited) (sort_texts (keys g)) o.2 c.0
              ((sort_texts-Memᴰ c.0 (keys g)).1 (Walk-keys g c.1))))
          c.1,
  )

-- The search of `validateDependencyDAG` comes to an end on every graph: it returns a list of nodes
-- that follow each other and end where they start, or the graph has no cycle.
pub find_cycle-decides :
    (g : Graph)
    → ((path : List Text) × (find_cycle g ≡ some (closed path)) × IsClosedWalk g path)
      ⊎ ((after : Marks) × (find_cycle g ≡ some (clear after)) × (Cycle g → ⊥))
unfolding find_cycle
find_cycle-decides g =
    let fuel = suc (length (nodes g)) in
    decide g (visit_roots g fuel (sort_texts (keys g)) (λ _. unvisited))
      (roots-Result g fuel (sort_texts (keys g)) (λ _. unvisited)
        (λ m e. absurd (unvisited-ne-visited e)) (λ m e. absurd (unvisited-ne-visiting e)))
      (roots-Answers g fuel (sort_texts (keys g)) (λ _. unvisited)
        (λ p i. Memᴰ.append_left (all_parents g) ((sort_texts-Memᴰ p (keys g)).0 i))
        (omega (arith, count_if-length (λ m. true) (nodes g))))
