-- ===== src/WorkPlan/Nodes/Accepted.antt =====
-- Which graphs of revisions and events the validator accepts, and what their heads are.

use mathlib.Core.List.{Memᴰ}
use changesaga.Prelude.{
  has_absent, arith, ◌≡◌, refl, ◌≢◌, ◌↔◌, ◌⊎◌, inl, inr, Bool, false, not, List, [], ◌∷◌, Text,
  codes, has, add_all, add_all-Memᴰ, sort_texts-Memᴰ, filter-Memᴰ, All,
}
use changesaga.WorkPlan.Records.{Validation}
use changesaga.WorkPlan.Graph.{
  RevisionNode, EventNode, graph_of_revisions, graph_of_events, graph_cycle_revisions,
  graph_cycle_events,
}
use changesaga.WorkPlan.Graph.Paths.{Cycle}
use changesaga.WorkPlan.Graph.Cycle.{graph_cycle_iff-Cycle}
use changesaga.WorkPlan.Nodes.{
  heads_of, initial_count, revision_ids, revision_parents, event_ids, event_parents,
  validate_revision_graph, validate_event_graph, initial_message,
}
use changesaga.WorkPlan.Nodes.Issues.{
  IsDistinct, ParentsExist, both_empty, error_if-empty, duplicate_issues-empty,
  revision_parent_issues-empty, event_parent_issues-empty, one-initial_iff, acyclic_iff,
  add_issues-same, has-absent_iff,
}

-- A resource's revisions: at least one, with distinct identifiers, with parents among them, one of
-- them without parents, and none its own ancestor.
abbrev pub IsRevisionGraph : List RevisionNode → Type 0
IsRevisionGraph ns =
    (ns ≢ [])
    × IsDistinct (revision_ids ns)
    × ParentsExist (revision_ids ns) (revision_parents ns)
    × (initial_count (revision_parents ns) ≡ 1)
    × (Cycle (graph_of_revisions ns []) → ⊥)

-- A stream of events: the same, with distinct parents at every event.
abbrev pub IsEventGraph : List EventNode → Type 0
IsEventGraph ns =
    IsDistinct (event_ids ns)
    × All (λ ps. IsDistinct ps × All (λ p. Memᴰ p (event_ids ns)) ps) (event_parents ns)
    × (initial_count (event_parents ns) ≡ 1)
    × (Cycle (graph_of_events ns []) → ⊥)

revisions_acyclic :
    (ns : List RevisionNode)
    → (graph_cycle_revisions ns ≡ false) ↔ (Cycle (graph_of_revisions ns []) → ⊥)
unfolding graph_cycle_revisions
revisions_acyclic ns = acyclic_iff (graph_cycle_iff-Cycle (graph_of_revisions ns [])).1

events_acyclic :
    (ns : List EventNode) → (graph_cycle_events ns ≡ false) ↔ (Cycle (graph_of_events ns []) → ⊥)
unfolding graph_cycle_events
events_acyclic ns = acyclic_iff (graph_cycle_iff-Cycle (graph_of_events ns [])).1

-- `validateRevisionGraph` adds no issue exactly if the revisions form such a graph.
pub validate_revision_graph-IsRevisionGraph :
    (v : Validation) (path : Text) (ns : List RevisionNode)
    → ((validate_revision_graph v path ns).0 ≡ v) ↔ IsRevisionGraph ns
unfolding validate_revision_graph
validate_revision_graph-IsRevisionGraph v path [] =
    (λ h. cc ((add_issues-same v _).0 h), λ h. absurd (h.0 refl))
validate_revision_graph-IsRevisionGraph v path (n ∷ ns) =
    let ids = revision_ids (n ∷ ns) in
    let pss = revision_parents (n ∷ ns) in
    let parts = both_empty (duplicate_issues-empty path (codes "duplicate revision id") [] ids) (
      both_empty (revision_parent_issues-empty path ids pss) (
        both_empty
          (error_if-empty _ path (codes "revision graph must have exactly one initial revision")
            (one-initial_iff (initial_count pss)))
          (error_if-empty _ path (codes "revision graph must be acyclic")
            (revisions_acyclic (n ∷ ns))))) in
    (
      λ h. let q = parts.0 ((add_issues-same v _).0 h) in (λ e. cc, q.0, q.1.0, q.1.1.0, q.1.1.1),
      λ h. (add_issues-same v _).1 (parts.1 (h.1, (h.2, (h.3, h.4)))),
    )

-- `validateEventGraph` adds no issue exactly if the stream is empty and need not start, or its events
-- form such a graph.
pub validate_event_graph-IsEventGraph :
    (v : Validation) (path : Text) (ns : List EventNode) (require_initial : Bool)
    → ((validate_event_graph v path ns require_initial).0 ≡ v)
      ↔ (((ns ≡ []) × (require_initial ≡ false)) ⊎ IsEventGraph ns)
unfolding validate_event_graph
validate_event_graph-IsEventGraph v path [] require_initial = (
  λ h. inl (
    refl,
    (error_if-empty require_initial path _ (λ e. e, λ e. e)).0 ((add_issues-same v _).0 h),
  ),
  λ c. (add_issues-same v _).1 (elim c [
    | inl h ↦ (error_if-empty require_initial path _ (λ e. e, λ e. e)).1 h.1
    | inr h ↦ cc (h.2)
  ]),
)
validate_event_graph-IsEventGraph v path (n ∷ ns) require_initial =
    let ids = event_ids (n ∷ ns) in
    let pss = event_parents (n ∷ ns) in
    let parts = both_empty (duplicate_issues-empty path (codes "duplicate event id") [] ids) (
      both_empty (event_parent_issues-empty path ids pss) (
        both_empty
          (error_if-empty _ path (initial_message require_initial)
            (one-initial_iff (initial_count pss)))
          (error_if-empty _ path (codes "event graph must be acyclic")
            (events_acyclic (n ∷ ns))))) in
    (
      λ h. let q = parts.0 ((add_issues-same v _).0 h) in inr (q.0, q.1.0, q.1.1.0, q.1.1.1),
      λ c.
          (add_issues-same v _).1
            (parts.1 (elim c [ inl h ↦ cc h.0 | inr h ↦ (h.0, (h.1, (h.2, h.3))) ])),
    )

-- The heads are exactly the identifiers that are no node's parent.
pub heads_of-Memᴰ :
    (h : Text) (ids children : List Text)
    → Memᴰ h (heads_of ids children) ↔ (Memᴰ h ids × (Memᴰ h children → ⊥))
unfolding heads_of
heads_of-Memᴰ h ids children = (
  λ i.
      let j =
        (filter-Memᴰ (λ id. not (has id children)) h (add_all [] ids)).0
          ((sort_texts-Memᴰ h _).0 i) in
      (
        elim ((add_all-Memᴰ h [] ids).0 j.0) [ inl k ↦ elim k [ ] | inr k ↦ k ],
        has_absent h children (ground arith),
      ),
  λ i. (sort_texts-Memᴰ h _).1 (
      (filter-Memᴰ (λ id. not (has id children)) h (add_all [] ids)).1
        ((add_all-Memᴰ h [] ids).1 (inr i.0), rw ((has-absent_iff h children).1 i.1))),
)
