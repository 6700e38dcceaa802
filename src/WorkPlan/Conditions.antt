-- ===== src/WorkPlan/Conditions.antt =====
-- internal/workplan/validate.go: `validateDependency`, with the contract that its condition pins.
use changesaga.Prelude.{
  Bool, true, false, not, ◌||◌, Option, none, some, List, [], ◌∷◌, ◌++◌, Text, codes, text_eq, has,
  get, Result, ok, err, ◌==◌, if◌then◌else◌,
}
use changesaga.LivingId
use changesaga.LivingId.{wave, contract, revision, valid_id}
use changesaga.LivingId.Parse
use changesaga.WorkPlan.Records.{ContractRevision, Contract, Dependency, Issue, Plan}
use changesaga.WorkPlan.Nodes.{error_if, is_nil}
use changesaga.WorkPlan.Checks.{
  Library, root_dir, version, schema, all_issues, valid_time, request_issues, work_item_reference,
  is_blank,
}
use changesaga.WorkPlan.Revisions.{is_kind}
use changesaga.WorkPlan.Items.{find}

module _ (lib : Library) (plan : Plan) where
  abbrev pub warning_if : Bool → Text → Text → List Issue
  warning_if true path message =
      record { severity = codes "warning"; path = path; message = message } ∷ []
  warning_if false path message = []

  -- The checks of a condition's contract revision, behind the look-up of the contract.
  abbrev pub found_revision_issues :
      Dependency → Text → Contract → Option ContractRevision → List Issue
  found_revision_issues d path c none =
      error_if true path (codes "condition contract revision does not exist")
  found_revision_issues d path c (some r) =
      error_if (not (text_eq r.provider d.prerequisite) || not (text_eq r.consumer d.dependent))
        path (codes "condition contract provider/consumer must match dependency endpoints")
      ++ warning_if (not (has d.condition.contract_revision c.heads)) path
          (codes "condition pins a stale contract revision")

  abbrev pub found_contract_issues : Dependency → Text → Text → Option Contract → List Issue
  found_contract_issues d path id none =
      error_if true path (codes "condition contract does not exist")
  found_contract_issues d path id (some c) =
      found_revision_issues d path c (find (λ (r : ContractRevision). text_eq r.id id) c.revisions)

  unfoldable pub pinned_issues :
      Dependency → Text → Result LivingId.Error LivingId.Reference → List Issue
  unfolding text_eq get has
  pinned_issues d path (err e) =
      error_if true path (codes "contract_fulfilled requires an exact contract revision URN")
  pinned_issues d path (ok r) =
      if not (text_eq r.saga_id plan.saga_id)
        || not (is_kind r.kind revision)
        || not (is_kind r.parent_kind contract)
      then error_if true path (codes "contract_fulfilled requires an exact contract revision URN")
      else found_contract_issues d path r.id (get r.parent_id plan.contracts)

  -- The switch on the kind of the condition.
  unfoldable pub condition_issues : Dependency → Text → List Issue
  unfolding text_eq pinned_issues Parse.parse
  condition_issues d path =
      if text_eq d.condition.kind (codes "progress_done")
        || text_eq d.condition.kind (codes "merge_integrated")
      then error_if (not (is_nil d.condition.contract_revision)) path
          (codes "only contract_fulfilled names a contract revision")
      else if text_eq d.condition.kind (codes "contract_fulfilled")
      then pinned_issues d path (Parse.parse d.condition.contract_revision)
      else error_if true path (
          codes
            "dependency condition must be progress_done, merge_integrated, or contract_fulfilled")

  -- `validateDependency`
  unfoldable pub dependency_issues : Dependency → List Issue
  unfolding text_eq valid_id request_issues work_item_reference condition_issues
  dependency_issues d =
      let path =
        root_dir ++ (codes "/dependencies/" ++ (d.id ++ codes ".dependency/dependency.json")) in
      all_issues (
        error_if
          (not (text_eq d.schema (schema (codes "dependency")))
            || not (d.version == version)
            || not (valid_id d.id)
            || not (valid_time d.created_at)
            || is_blank lib d.reason)
          path (codes "dependency requires the v3 schema, stable id, reason, and UTC creation time")
        ∷ request_issues path d.request_id d.request_digest
        ∷ error_if
            (not (work_item_reference plan d.prerequisite)
              || not (work_item_reference plan d.dependent))
            path (codes "dependency endpoints must be existing work items")
        ∷ error_if (text_eq d.prerequisite d.dependent) path
            (codes "dependency cannot be a self-edge")
        ∷ condition_issues d path
        ∷ [])
