-- ===== src/WorkPlan/Graph/Cycle.antt =====
-- The verdict of `graphCycle`.
use mathlib.Core.List.Memᴰ
use mathlib.Core.List.{Memᴰ}
use changesaga.Prelude.{
  suc, ◌≡◌, ◌≢◌, refl, sym, subst, ◌↔◌, ◌⊎◌, inl, inr, true, false, none, some, List, [], ◌∷◌, Text,
  text_eq, text_eq_sound, Bool-cases, length, arith, All,
}
use changesaga.WorkPlan.Graph.{
  Graph, parents_of, unvisited, visited, visiting, Visit, visit_each, visit, nodes, keys,
  graph_walk, graph_cycle, found, all_parents,
}
use changesaga.WorkPlan.Graph.Paths.{Edge, Walk, last, first, Ends-no_return, Cycle}
use changesaga.WorkPlan.Graph.Verdict.{Outcome, visit_each-Outcome, visit-Outcome}
use changesaga.WorkPlan.Graph.Fuel.{Returns, visit_each-Returns, visit-Returns, count_if-length}

-- Only a key has parents.
Edge-keys : (g : Graph) (n p : Text) → Edge g n p → Memᴰ n (keys g)
unfolding parents_of
Edge-keys [] n p i = elim i [ ]
Edge-keys ((m, ps) ∷ g) n p i = elim (Bool-cases (text_eq m n)) [
  | inl e ↦ Memᴰ.head (sym (text_eq_sound m n e))
  | inr e ↦ Memᴰ.tail (Edge-keys g n p (rw e at i))
]

pub Walk-keys : (g : Graph) {n m : Text} → Walk g n m → Memᴰ n (keys g)
Walk-keys g (last e) = Edge-keys g _ _ e
Walk-keys g (first e p) = Edge-keys g _ _ e

pub unvisited-ne-visited : unvisited ≢ visited
unvisited-ne-visited e = cc

pub unvisited-ne-visiting : unvisited ≢ visiting
unvisited-ne-visiting e = cc

module _ (g : Graph) where
  pub All-at : (P : Text → Type 0) (ns : List Text) → All P ns → (n : Text) → Memᴰ n ns → P n
  All-at P [] h n i = elim i [ ]
  All-at P (m ∷ ns) h n (Memᴰ.head e) = subst P (sym e) h.0
  All-at P (m ∷ ns) h n (Memᴰ.tail i) = All-at P ns h.1 n i

  verdict :
      (v : Visit)
      → Outcome g (keys g) (λ _. unvisited) v
      → Returns g (λ _. unvisited) v
      → ((found v ≡ some true) × Cycle g) ⊎ ((found v ≡ some false) × (Cycle g → ⊥))
  verdict none o r = absurd r
  verdict (some (true, after)) o r = inl (refl, o)
  verdict (some (false, after)) o r = inr (
    refl,
    λ c.
        Ends-no_return
          (o.0 c.0 (All-at (λ n. after n ≡ visited) (keys g) o.2 c.0 (Walk-keys g c.1))) c.1,
  )

  graph_walk-cases :
      ((graph_walk g ≡ some true) × Cycle g) ⊎ ((graph_walk g ≡ some false) × (Cycle g → ⊥))
  unfolding graph_walk
  graph_walk-cases =
      let fuel = suc (length (nodes g)) in
      verdict (visit_each (visit g fuel) (keys g) (λ _. unvisited))
        (visit_each-Outcome g (visit g fuel) (visit-Outcome g fuel) (keys g) (λ _. unvisited)
          (λ m e. absurd (unvisited-ne-visited e)) (λ p i m e. absurd (unvisited-ne-visiting e)))
        (visit_each-Returns g (visit g fuel) fuel (visit-Returns g fuel) (keys g) (λ _. unvisited)
          (λ p i. Memᴰ.append_left (all_parents g) i)
          (omega (arith, count_if-length (λ m. true) (nodes g))))

-- `graphCycle` decides the question for every graph and in whatever order the map is walked: it
-- comes to an end, and it returns true exactly if some node is its own ancestor.
pub graph_cycle_iff-Cycle :
    (g : Graph) → (graph_walk g ≡ some (graph_cycle g)) × ((graph_cycle g ≡ true) ↔ Cycle g)
unfolding graph_cycle
graph_cycle_iff-Cycle g = elim (graph_walk-cases g) [
  | inl c ↦ rw c.0 (refl, (λ h. c.1, λ h. refl))
  | inr c ↦ rw c.0 (refl, (λ h. cc, λ h. absurd (c.1 h)))
]
