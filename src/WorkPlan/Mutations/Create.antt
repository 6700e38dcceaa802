-- ===== src/WorkPlan/Mutations/Create.antt =====
-- internal/workplan/mutation.go: `CreateDependency`, behind the lock and the look-up of the request.
use changesaga.Prelude.{
  true, false, not, [], ◌∷◌, ◌++◌, Text, codes, length, ltb, get, put, has_key, Result, ok, ◌>>◌,
  require,
}
use changesaga.LivingId.{valid_id}
use changesaga.LivingId.Urns.{dependency_urn}
use changesaga.WorkPlan.Records.{Dependency, Plan, Validation}
use changesaga.WorkPlan.Nodes.{add_issues}
use changesaga.WorkPlan.Checks.{Library, root_dir, schema, version, has_errors}
use changesaga.WorkPlan.Items.{text_or_empty}
use changesaga.WorkPlan.Conditions.{dependency_issues}
use changesaga.WorkPlan.Dependencies.{validate_dependency_dag}
use changesaga.WorkPlan.Mutations.{
  dependency_record, MutationError, limit_reached, invalid_id, already_exists, invalid_candidate,
  not_written, Outcome, World, max_dependencies, done_or, join_issues,
}

module _ (lib : Library) (w : World) (request_id digest : Text) where
  abbrev pub stamp_dependency : Dependency → Dependency
  stamp_dependency d = record d {
    schema = schema (codes "dependency");
    version = version;
    created_at = w.now;
    request_id = request_id;
    request_digest = digest;
  }

  -- The copy of the plan with the dependency.
  abbrev pub probe : Plan → Dependency → Plan
  probe plan d = record plan { dependencies = put d.id (stamp_dependency d) plan.dependencies }

  -- What `validateDependency` and `validateDependencyDAG` add on the probe.
  unfoldable pub probe_validation : Plan → Dependency → Validation
  unfolding put dependency_issues validate_dependency_dag
  probe_validation plan d = validate_dependency_dag (probe plan d) (
      add_issues (record { valid = true; issues = [] })
        (dependency_issues lib (probe plan d) (stamp_dependency d)))

  -- The body of `CreateDependency`.
  unfoldable pub create_dependency : Dependency → Plan → Result MutationError Outcome
  unfolding valid_id get probe_validation has_errors join_issues dependency_urn
  create_dependency d plan =
      let issues = (probe_validation plan d).issues in
      let urn = text_or_empty (dependency_urn plan.saga_id d.id) in
      let collection = root_dir ++ codes "/dependencies" in
      let path = collection ++ (codes "/" ++ (d.id ++ codes ".dependency")) in
      require (valid_id d.id) invalid_id
      >> (require (not (has_key d.id plan.dependencies)) (already_exists d.id)
          >> (require (ltb (length plan.dependencies) max_dependencies)
                (limit_reached (codes "dependency") max_dependencies)
              >> (require (not (has_errors issues))
                    (invalid_candidate (codes "dependency") (join_issues lib issues))
                  >> (done_or not_written (w.ensure_dir collection)
                      >> (done_or not_written (w.commit_dir path)
                          >> ok (
                            dependency_record (stamp_dependency d),
                            record {
                              urn = urn;
                              path = path;
                              created = urn ∷ [];
                              event_ids = [];
                              replayed = false;
                            },
                          ))))))
