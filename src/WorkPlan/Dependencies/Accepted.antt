-- ===== src/WorkPlan/Dependencies/Accepted.antt =====
-- Which dependencies `validateDependencyDAG` accepts.
use mathlib.Core.List.Memᴰ
use mathlib.Core.List.{Memᴰ}
use changesaga.Prelude.{
  Table, get, put, ◌≡◌, refl, ◌↔◌, inl, inr, sym, ◌∙◌, none, List, [], ◌∷◌, map, Text, text_eq,
  text_eq_sound, text_eq_complete, Bool-cases, Option-cases, arith,
}
use changesaga.WorkPlan.Records.{Dependency, Plan, Validation}
use changesaga.WorkPlan.Graph.{Graph}
use changesaga.WorkPlan.Graph.Paths.{Walk, last, first, Cycle}
use changesaga.WorkPlan.Nodes.Issues.{IsDistinctFrom, IsDistinct, both_empty, add_issues-same}
use changesaga.WorkPlan.Dag.{find_cycle}
use changesaga.WorkPlan.Dag.Linked.{closed_walk-Cycle}
use changesaga.WorkPlan.Dag.Decides.{find_cycle-decides}
use changesaga.WorkPlan.Dependencies.{
  edge_key, table_keys, duplicate_edges, sorted_dependencies, dependency_graph, cycle_issues,
  validate_dependency_dag,
}
use changesaga.WorkPlan.Dependencies.Edges.{IsConnected, dependency_graph-Edge}

-- A chain of dependencies.
pub data Leads (ds : List (Text × Dependency)) : Text → Text → Type 0 where
  one : {a b : Text} → IsConnected ds a b → Leads ds a b
  more : {a b c : Text} → IsConnected ds a b → Leads ds b c → Leads ds a c

module _ (plan : Plan) where
  Walk-Leads :
      {a b : Text} → Walk (dependency_graph plan) a b → Leads (sorted_dependencies plan) a b
  Walk-Leads (last e) = one ((dependency_graph-Edge plan _ _).0 e)
  Walk-Leads (first e w) = more ((dependency_graph-Edge plan _ _).0 e) (Walk-Leads w)

  Leads-Walk :
      {a b : Text} → Leads (sorted_dependencies plan) a b → Walk (dependency_graph plan) a b
  Leads-Walk (one c) = last ((dependency_graph-Edge plan _ _).1 c)
  Leads-Walk (more c l) = first ((dependency_graph-Edge plan _ _).1 c) (Leads-Walk l)

-- No chain of dependencies returns to where it starts.
abbrev pub IsAcyclic : List (Text × Dependency) → Type 0
IsAcyclic ds = (a : Text) → Leads ds a a → ⊥

get-absent : (k : Text) (t : Table Text) → (get k t ≡ none) ↔ (Memᴰ k (table_keys t) → ⊥)
unfolding get
get-absent k [] = (λ h i. elim i [ ], λ h. refl)
get-absent k ((j, x) ∷ t) = elim (Bool-cases (text_eq j k)) [
  | inl e ↦ rw e (λ h. cc, λ h. absurd (h (Memᴰ.head (sym (text_eq_sound j k e)))))
  | inr e ↦ rw e (
    λ h i. elim (Memᴰ.cases_cons i) [
      | inl same ↦ ground (arith, text_eq_complete j k (sym same))
      | inr m ↦ (get-absent k t).0 h m
    ],
    λ h. (get-absent k t).1 (λ m. h (Memᴰ.tail m)),
  )
]

put-keys :
    (m k x : Text) (t : Table Text) → Memᴰ m (table_keys (put k x t)) ↔ Memᴰ m (k ∷ table_keys t)
unfolding put
put-keys m k x [] = (λ i. i, λ i. i)
put-keys m k x ((j, y) ∷ t) = elim (Bool-cases (text_eq j k)) [
  | inl e ↦ rw e (
    λ i. Memᴰ.tail i,
    λ i. elim (Memᴰ.cases_cons i) [
      | inl same ↦ Memᴰ.head (same ∙ sym (text_eq_sound j k e))
      | inr n ↦ n
    ],
  )
  | inr e ↦ rw e (
    λ i. elim (Memᴰ.cases_cons i) [
      | inl same ↦ Memᴰ.tail (Memᴰ.head same)
      | inr n ↦ elim (Memᴰ.cases_cons ((put-keys m k x t).0 n)) [
        | inl same ↦ Memᴰ.head same
        | inr o ↦ Memᴰ.tail (Memᴰ.tail o)
      ]
    ],
    λ i. elim (Memᴰ.cases_cons i) [
      | inl same ↦ Memᴰ.tail ((put-keys m k x t).1 (Memᴰ.head same))
      | inr n ↦ elim (Memᴰ.cases_cons n) [
        | inl same ↦ Memᴰ.head same
        | inr o ↦ Memᴰ.tail ((put-keys m k x t).1 (Memᴰ.tail o))
      ]
    ],
  )
]

-- A set is known by its members.
IsDistinctFrom-members :
    (s t ts : List Text)
    → ((m : Text) → Memᴰ m t → Memᴰ m s)
    → IsDistinctFrom s ts
    → IsDistinctFrom t ts
IsDistinctFrom-members s t [] h d = tt
IsDistinctFrom-members s t (x ∷ ts) h d = (
  λ i. d.0 (h x i),
  IsDistinctFrom-members (x ∷ s) (x ∷ t) ts
      (λ m i. elim (Memᴰ.cases_cons i) [ inl e ↦ Memᴰ.head e | inr j ↦ Memᴰ.tail (h m j) ]) d.1,
)

abbrev pub edge_keys : List (Text × Dependency) → List Text
edge_keys = map (λ e. edge_key e.1)

duplicate_edges-empty :
    (edges : Table Text) (ds : List (Text × Dependency))
    → (duplicate_edges edges ds ≡ []) ↔ IsDistinctFrom (table_keys edges) (edge_keys ds)
unfolding duplicate_edges
duplicate_edges-empty edges [] = (λ h. tt, λ h. refl)
duplicate_edges-empty edges (e ∷ ds) = elim (Option-cases (get (edge_key e.1) edges)) [
  | inl n ↦ rw n (
      let rest = duplicate_edges-empty (put (edge_key e.1) e.0 edges) ds in
      (
        λ h. (
          (get-absent (edge_key e.1) edges).0 n,
          IsDistinctFrom-members _ _ (edge_keys ds)
              (λ m i. (put-keys m (edge_key e.1) e.0 edges).1 i) (rest.0 h),
        ),
        λ d. rest.1 (
            IsDistinctFrom-members _ _ (edge_keys ds)
              (λ m i. (put-keys m (edge_key e.1) e.0 edges).0 i) d.1),
      ))
  | inr (prior, p) ↦ rw p (λ h. cc, λ d. cc (p, (get-absent (edge_key e.1) edges).1 d.0))
]

cycle_issues-empty : (g : Graph) → (cycle_issues (find_cycle g) ≡ []) ↔ (Cycle g → ⊥)
cycle_issues-empty g = elim (find_cycle-decides g) [
  | inl c ↦ rw c.1 (λ h. cc, λ h. absurd (h (closed_walk-Cycle g c.0 c.2)))
  | inr c ↦ rw c.1 (λ h. c.2, λ h. refl)
]

-- `validateDependencyDAG` adds no issue exactly if no two dependencies have one key of endpoints and
-- condition and no chain of dependencies returns to where it starts.
pub validate_dependency_dag-IsAcyclic :
    (plan : Plan) (v : Validation)
    → (validate_dependency_dag plan v ≡ v)
      ↔ (IsDistinct (edge_keys (sorted_dependencies plan)) × IsAcyclic (sorted_dependencies plan))
unfolding validate_dependency_dag
validate_dependency_dag-IsAcyclic plan v =
    let parts =
      both_empty (duplicate_edges-empty [] (sorted_dependencies plan))
        (cycle_issues-empty (dependency_graph plan)) in
    (
      λ h. let q = parts.0 ((add_issues-same v _).0 h) in (q.0, λ a l. q.1 (a, Leads-Walk plan l)),
      λ h. (add_issues-same v _).1 (parts.1 (h.0, λ c. h.1 c.0 (Walk-Leads plan c.1))),
    )
