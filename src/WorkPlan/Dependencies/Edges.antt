-- ===== src/WorkPlan/Dependencies/Edges.antt =====
-- The edges of the dependency graph are the dependencies.
use mathlib.Core.List.Memᴰ
use mathlib.Core.List.{Memᴰ}
use changesaga.Prelude.{
  ◌≡◌, ◌↔◌, ◌⊎◌, inl, inr, sym, ◌∙◌, List, [], ◌∷◌, Text, text_eq, text_eq_sound, text_eq_complete,
  sort_texts-Memᴰ, Bool-cases, arith,
}
use changesaga.WorkPlan.Records.{Dependency, Plan}
use changesaga.WorkPlan.Graph.{Graph, parents_of}
use changesaga.WorkPlan.Graph.Paths.{Edge}
use changesaga.WorkPlan.Dependencies.{
  append_edge, add_edges, sort_edges, sorted_dependencies, dependency_graph,
}

-- The one dependency leads from its prerequisite to its dependent.
abbrev pub Connects : Text → Text → Dependency → Type 0
Connects a b d = (a ≡ d.prerequisite) × (b ≡ d.dependent)

-- Some dependency of the list leads from one to the other.
abbrev pub IsConnected : List (Text × Dependency) → Text → Text → Type 0
IsConnected [] a b = ⊥
IsConnected (e ∷ ds) a b = Connects a b e.1 ⊎ IsConnected ds a b

append_edge-Edge :
    (node next a b : Text) (g : Graph)
    → Edge (append_edge node next g) a b ↔ (((a ≡ node) × (b ≡ next)) ⊎ Edge g a b)
unfolding append_edge parents_of
append_edge-Edge node next a b [] = elim (Bool-cases (text_eq node a)) [
  | inl e ↦ rw e (
    λ i. elim (Memᴰ.cases_cons i) [
      | inl same ↦ inl (sym (text_eq_sound node a e), same)
      | inr j ↦ elim j [ ]
    ],
    λ c. elim c [ inl h ↦ Memᴰ.head h.1 | inr j ↦ elim j [ ] ],
  )
  | inr e ↦ rw e (
    λ i. elim i [ ],
    λ c. elim c [ inl h ↦ ground (arith, text_eq_complete node a (sym h.0)) | inr j ↦ elim j [ ] ],
  )
]
append_edge-Edge node next a b ((n, ns) ∷ g) = elim (Bool-cases (text_eq n node)) [
  | inl e ↦ elim (Bool-cases (text_eq n a)) [
    | inl f ↦
        rw (e, f)
          (
            λ i. elim (Memᴰ.append_cases ns i) [
              | inl j ↦ inr j
              | inr j ↦ elim (Memᴰ.cases_cons j) [
                | inl same ↦ inl (sym (text_eq_sound n a f) ∙ text_eq_sound n node e, same)
                | inr k ↦ elim k [ ]
              ]
            ],
            λ c. elim c [
              | inl h ↦ Memᴰ.append_right ns (Memᴰ.head h.1)
              | inr j ↦ Memᴰ.append_left (next ∷ []) j
            ],
          )
    | inr f ↦
        rw (e, f)
          (
            λ i. inr i,
            λ c. elim c [
              | inl h ↦ ground (arith, text_eq_complete n a (text_eq_sound n node e ∙ sym h.0))
              | inr j ↦ j
            ],
          )
  ]
  | inr e ↦ elim (Bool-cases (text_eq n a)) [
    | inl f ↦
        rw (e, f)
          (
            λ i. inr i,
            λ c. elim c [
              | inl h ↦ ground (arith, text_eq_complete n node (text_eq_sound n a f ∙ h.0))
              | inr j ↦ j
            ],
          )
    | inr f ↦ rw (e, f) (append_edge-Edge node next a b g)
  ]
]

add_edges-Edge :
    (ds : List (Text × Dependency)) (g : Graph) (a b : Text)
    → Edge (add_edges ds g) a b ↔ (IsConnected ds a b ⊎ Edge g a b)
unfolding add_edges
add_edges-Edge [] g a b = (inr, λ c. elim c [ inl h ↦ elim h [ ] | inr i ↦ i ])
add_edges-Edge (e ∷ ds) g a b =
    let here = append_edge-Edge e.1.prerequisite e.1.dependent a b g in
    let rest = add_edges-Edge ds (append_edge e.1.prerequisite e.1.dependent g) a b in
    (
      λ i. elim (rest.0 i) [
        | inl h ↦ inl (inr h)
        | inr j ↦ elim (here.0 j) [ inl h ↦ inl (inl h) | inr k ↦ inr k ]
      ],
      λ c. rest.1 (elim c [
        | inl h ↦ elim h [ inl k ↦ inr (here.1 (inl k)) | inr k ↦ inl k ]
        | inr i ↦ inr (here.1 (inr i))
      ]),
    )

sort_edges-Edge : (g : Graph) (a b : Text) → Edge (sort_edges g) a b ↔ Edge g a b
unfolding sort_edges parents_of
sort_edges-Edge [] a b = (λ i. i, λ i. i)
sort_edges-Edge ((n, ns) ∷ g) a b = elim (Bool-cases (text_eq n a)) [
  | inl e ↦ rw e (sort_texts-Memᴰ b ns)
  | inr e ↦ rw e (sort_edges-Edge g a b)
]

-- An edge of the graph is a dependency of the plan.
pub dependency_graph-Edge :
    (plan : Plan) (a b : Text)
    → Edge (dependency_graph plan) a b ↔ IsConnected (sorted_dependencies plan) a b
unfolding dependency_graph parents_of
dependency_graph-Edge plan a b =
    let sorted = sort_edges-Edge (add_edges (sorted_dependencies plan) []) a b in
    let added = add_edges-Edge (sorted_dependencies plan) [] a b in
    (
      λ i. elim (added.0 (sorted.0 i)) [ inl h ↦ h | inr j ↦ elim j [ ] ],
      λ h. sorted.1 (added.1 (inl h)),
    )
