-- ===== src/WorkPlan/Mutations/Acyclic.antt =====
-- The dependencies stay acyclic when one is created.
use changesaga.Prelude.{
  ◌≡◌, refl, sym, ap, ◌∙◌, true, false, Option, none, some, List, [], ◌∷◌, ◌++◌, append-nil, Text,
  length, ltb, get, has_key, Table, ok, >>=-eq-ok, require-eq-ok, ok-injective,
}
use changesaga.LivingId.{valid_id}
use changesaga.LivingId.Urns.{dependency_urn}
use changesaga.WorkPlan.Records.{Dependency, Plan, Validation}
use changesaga.WorkPlan.Dag.{Search, clear, closed, find_cycle}
use changesaga.WorkPlan.Nodes.{add_issues}
use changesaga.WorkPlan.Nodes.Issues.{IsDistinct}
use changesaga.WorkPlan.Nodes.Errors.{
  HasOnlyErrors, no_errors-append, append-HasOnlyErrors, error_if-HasOnlyErrors,
}
use changesaga.WorkPlan.Checks.{Library, has_errors}
use changesaga.WorkPlan.Items.{text_or_empty}
use changesaga.WorkPlan.Conditions.{dependency_issues}
use changesaga.WorkPlan.Dependencies.{
  duplicate_edges, duplicate_issue, enter_edge, edge_key, cycle_issues, sorted_dependencies,
  dependency_graph, validate_dependency_dag,
}
use changesaga.WorkPlan.Dependencies.Accepted.{
  IsAcyclic, edge_keys, validate_dependency_dag-IsAcyclic,
}
use changesaga.WorkPlan.Mutations.{Outcome, World, max_dependencies, done_or, not_written}
use changesaga.WorkPlan.Mutations.Create.{
  stamp_dependency, probe, probe_validation, create_dependency,
}
use changesaga.WorkPlan.Mutations.Recorded.{false_of_not}

duplicate_issue-HasOnlyErrors :
    (id : Text) (prior : Option Text) → HasOnlyErrors (duplicate_issue id prior)
duplicate_issue-HasOnlyErrors id none = λ h. refl
duplicate_issue-HasOnlyErrors id (some prior) = error_if-HasOnlyErrors true _ _

duplicate_edges-HasOnlyErrors :
    (edges : Table Text) (ds : List (Text × Dependency)) → HasOnlyErrors (duplicate_edges edges ds)
unfolding duplicate_edges
duplicate_edges-HasOnlyErrors edges [] = λ h. refl
duplicate_edges-HasOnlyErrors edges ((id, d) ∷ ds) =
    let prior = get (edge_key d) edges in
    append-HasOnlyErrors (duplicate_issue id prior) _ (duplicate_issue-HasOnlyErrors id prior)
      (duplicate_edges-HasOnlyErrors (enter_edge (edge_key d) id edges prior) ds)

cycle_issues-HasOnlyErrors : (s : Option Search) → HasOnlyErrors (cycle_issues s)
cycle_issues-HasOnlyErrors none = λ h. refl
cycle_issues-HasOnlyErrors (some (clear marks)) = λ h. refl
cycle_issues-HasOnlyErrors (some (closed path)) = error_if-HasOnlyErrors true _ _

-- Behind checks without errors, the graph of the dependencies is accepted.
no_errors-IsAcyclic :
    (plan : Plan) (v : Validation)
    → has_errors (validate_dependency_dag plan v).issues ≡ false
    → IsDistinct (edge_keys (sorted_dependencies plan)) × IsAcyclic (sorted_dependencies plan)
unfolding validate_dependency_dag
no_errors-IsAcyclic plan v h =
    let dag =
      duplicate_edges [] (sorted_dependencies plan)
      ++ cycle_issues (find_cycle (dependency_graph plan)) in
    let none_added =
      append-HasOnlyErrors (duplicate_edges [] (sorted_dependencies plan)) _
        (duplicate_edges-HasOnlyErrors [] (sorted_dependencies plan))
        (cycle_issues-HasOnlyErrors (find_cycle (dependency_graph plan)))
        (no_errors-append v.issues dag h).1 in
    (validate_dependency_dag-IsAcyclic plan v).0 (
      ap (λ is. record v { issues = is })
        (ap (λ is. v.issues ++ is) none_added ∙ append-nil v.issues))

module _ (lib : Library) (w : World) (request_id digest : Text) where
  -- The conditions under which `CreateDependency` writes, and what it returns.
  pub create_dependency-eq-ok :
      (d : Dependency) (plan : Plan) (out : Outcome)
      → create_dependency lib w request_id digest d plan ≡ ok out
      → (valid_id d.id ≡ true)
        × (has_key d.id plan.dependencies ≡ false)
        × (ltb (length plan.dependencies) max_dependencies ≡ true)
        × (has_errors (probe_validation lib w request_id digest plan d).issues ≡ false)
        × (out.1.urn ≡ text_or_empty (dependency_urn plan.saga_id d.id))
  unfolding create_dependency
  create_dependency-eq-ok d plan out h =
      let (valid, h1) = require-eq-ok _ _ _ h in
      let (new, h2) = require-eq-ok _ _ _ h1 in
      let (limit, h3) = require-eq-ok _ _ _ h2 in
      let (checked, h4) = require-eq-ok _ _ _ h3 in
      let (u, made, h5) = >>=-eq-ok (done_or not_written (w.ensure_dir _)) _ h4 in
      let (v, wrote, h6) = >>=-eq-ok (done_or not_written (w.commit_dir _)) _ h5 in
      (
        valid,
        false_of_not _ new,
        limit,
        false_of_not _ checked,
        ap (λ (o : Outcome). o.1.urn) (sym (ok-injective h6)),
      )

  -- A dependency is created only if it has a new identifier, and if the dependencies with it have no
  -- duplicate and no cycle.
  pub create_dependency-IsAcyclic :
      (d : Dependency) (plan : Plan) (out : Outcome)
      → create_dependency lib w request_id digest d plan ≡ ok out
      → let ds = sorted_dependencies (probe lib w request_id digest plan d) in
        (has_key d.id plan.dependencies ≡ false) × IsDistinct (edge_keys ds) × IsAcyclic ds
  unfolding probe_validation
  create_dependency-IsAcyclic d plan out h =
      let (valid, new, limit, checked, named) = create_dependency-eq-ok d plan out h in
      let (distinct, acyclic) =
        no_errors-IsAcyclic (probe lib w request_id digest plan d)
          (add_issues (record { valid = true; issues = [] })
            (dependency_issues lib (probe lib w request_id digest plan d)
              (stamp_dependency lib w request_id digest d)))
          checked in
      (new, distinct, acyclic)
