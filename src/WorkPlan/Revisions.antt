-- ===== src/WorkPlan/Revisions.antt =====
-- internal/workplan/validate.go: the checks of a work item's revision (`validateWorkItemRevision`,
-- `validateTouchArea`).
use changesaga.Prelude.{
  ℕ, suc, Bool, true, false, not, ◌&&◌, ◌||◌, Option, none, some, List, [], ◌∷◌, ◌++◌, Text, codes,
  text_eq, has, has_prefix, contains, any, all, length, Table, has_key, get, Result, ok, err, leb,
  ◌==◌, if◌then◌else◌,
}
use changesaga.LivingId
use changesaga.LivingId.{
  kind_text, valid_id, is_alnum, wave, work_item, contract, dependency, revision,
}
use changesaga.LivingId.Parse
use changesaga.WorkPlan.Records.{
  TouchArea, MergeUnit, WorkItemRevision, ContractRevision, Contract, Issue, Plan, is_null,
  elements,
}
use changesaga.WorkPlan.Nodes.{error_if, duplicate_strings, is_nil}
use changesaga.WorkPlan.Checks.{
  Library, all_issues, each_issues, one_of, valid_time, version, schema, request_issues,
  reference_is, in_saga, is_blank, valid_repository, string_list_issues, starts_alnum,
  is_request_byte,
}

-- `strings.ContainsAny(value, chars)`
abbrev pub contains_any : Text → Text → Bool
contains_any value chars = any (λ c. any (λ d. c == d) chars) value

-- The pattern of logical selectors.
unfoldable pub is_logical : Text → Bool
is_logical t = starts_alnum t && all (λ c. is_request_byte c || c == 47) t && leb (length t) 256

module _ (lib : Library) where
  -- `path.Clean(value) != value` and the other tests of a selector's path.
  unfoldable pub is_selector_path : Text → Bool
  unfolding text_eq contains has_prefix
  is_selector_path value = not (
      is_nil value
      || contains value (92 ∷ [])
      || has_prefix value (codes "/")
      || not (text_eq (lib.clean value) value)
      || text_eq value (codes ".")
      || has_prefix value (codes "../")
      || contains value (codes "/../")
      || contains value (codes "//"))

  unfoldable pub selector_issues : Text → Text → Text → List Issue
  unfolding text_eq contains is_logical is_selector_path
  selector_issues path kind value =
      if text_eq kind (codes "logical")
      then error_if (not (is_logical value)) path (codes "logical touch-area selector is invalid")
      else if not (is_selector_path value)
      then error_if true path
          (codes "touch-area selector must be a normalized repository-relative slash path")
      else error_if (not (text_eq kind (codes "glob")) && contains_any value (codes "*?[]{}!")) path
          (codes "file and directory touch areas cannot contain glob syntax")
        ++ error_if
            (text_eq kind (codes "glob")
              && (contains_any value (codes "[]{}!") || contains value (codes "***")))
            path (codes "glob touch areas allow only *, ?, and **")

  -- `validateTouchArea`
  unfoldable pub touch_area_issues : Text → ℕ → TouchArea → List Issue
  unfolding text_eq has duplicate_strings selector_issues
  touch_area_issues path index area =
      if not (valid_repository lib area.repository)
        || not (
            one_of area.selector.kind
              (codes "file" ∷ codes "directory" ∷ codes "glob" ∷ codes "logical" ∷ []))
        || is_nil (elements area.intents)
      then error_if true path (
          codes "expected touch area "
          ++ (lib.itoa index ++ codes " has an invalid repository, selector, or intents"))
      else all_issues (
          error_if (duplicate_strings (elements area.intents)) path
            (codes "touch-area intents must be unique")
          ∷ error_if (is_null area.intents) path
              (codes "touch-area intents must be an array, not null")
          ∷ each_issues
              (λ intent.
                error_if
                  (not (
                    one_of intent (
                      codes "read"
                      ∷ codes "add"
                      ∷ codes "modify"
                      ∷ codes "delete"
                      ∷ codes "rename"
                      ∷ codes "test"
                      ∷ codes "document"
                      ∷ [])))
                  path (codes "invalid touch-area intent"))
              (elements area.intents)
          ∷ selector_issues path area.selector.kind area.selector.value
          ∷ [])

  unfoldable pub touch_areas_issues : Text → ℕ → List TouchArea → List Issue
  unfolding touch_area_issues
  touch_areas_issues path index [] = []
  touch_areas_issues path index (a ∷ areas) =
      touch_area_issues path index a ++ touch_areas_issues path (suc index) areas

  -- The loop over the merge units, with the identifiers seen.
  unfoldable pub merge_unit_issues : Text → ℕ → List Text → List MergeUnit → List Issue
  unfolding has valid_id
  merge_unit_issues path index seen [] = []
  merge_unit_issues path index seen (u ∷ units) =
      error_if
        (not (valid_id u.id)
          || has u.id seen
          || not (valid_repository lib u.repository)
          || is_blank lib u.source_branch
          || is_blank lib u.target_branch)
        path
        (codes "merge unit "
          ++ (lib.itoa index
              ++ codes " requires a unique id, repository, source branch, and target branch"))
      ++ merge_unit_issues path (suc index) (u.id ∷ seen) units

-- A reference to a resource of one kind, which the plan has.
abbrev pub existing_issues :
    {A : Type 0} → Table A → Text → Text → Text → Option LivingId.Reference → List Issue
existing_issues table path wrong missing none = error_if true path wrong
existing_issues table path wrong missing (some r) = error_if (not (has_key r.id table)) path missing

-- `contractHasRevision`
unfoldable pub contract_has_revision : Contract → Text → Bool
unfolding text_eq
contract_has_revision c id = any (λ (r : ContractRevision). text_eq r.id id) c.revisions

abbrev pub has_revision : Text → Option Contract → Bool
has_revision id none = false
has_revision id (some c) = contract_has_revision c id

abbrev pub is_kind : LivingId.Kind → LivingId.Kind → Bool
is_kind j k = text_eq (kind_text j) (kind_text k)

unfoldable pub contract_reference_issues :
    Plan → Text → Result LivingId.Error LivingId.Reference → List Issue
unfolding text_eq get contract_has_revision
contract_reference_issues plan path (err e) =
    error_if true path
      (codes "contract references must be contract or contract-revision URNs in this Saga")
contract_reference_issues plan path (ok r) =
    if not (text_eq r.saga_id plan.saga_id)
      || (not (is_kind r.kind contract)
          && not (is_kind r.kind revision && is_kind r.parent_kind contract))
    then error_if true path
        (codes "contract references must be contract or contract-revision URNs in this Saga")
    else if is_kind r.kind contract && not (has_key r.id plan.contracts)
    then error_if true path (codes "contract reference does not exist")
    else error_if
        (is_kind r.kind revision && not (has_revision r.id (get r.parent_id plan.contracts))) path
        (codes "contract revision reference does not exist")

module _ (lib : Library) (plan : Plan) where
  abbrev pub has_null : WorkItemRevision → Bool
  has_null r =
      is_null r.parents
      || is_null r.deliverables
      || is_null r.relations
      || is_null r.dependencies
      || is_null r.contracts
      || is_null r.expected_touch_areas
      || is_null r.completion_checks
      || is_null r.merge_units

  unfoldable pub wave_reference_issues : Text → Text → List Issue
  unfolding text_eq get Parse.parse
  wave_reference_issues path value =
      if is_nil value
      then []
      else existing_issues plan.waves path (codes "wave must be a wave URN in this Saga")
          (codes "wave does not exist") (in_saga plan.saga_id wave (Parse.parse value))

  -- `validateWorkItemRevision`
  unfoldable pub work_item_revision_issues : Text → Text → WorkItemRevision → List Issue
  unfolding text_eq valid_id request_issues reference_is duplicate_strings wave_reference_issues
      string_list_issues Parse.parse get contract_reference_issues touch_areas_issues
      merge_unit_issues
  work_item_revision_issues item_id path r = all_issues (
      error_if
        (not (text_eq r.schema (schema (codes "workplan-revision")))
          || not (r.version == version)
          || not (valid_id r.id)
          || not (valid_time r.created_at)
          || is_blank lib r.title
          || is_blank lib r.objective
          || is_nil (elements r.deliverables))
        path
        (codes
          "work-item revision requires the v3 revision schema, stable id, title, objective, deliverables, and UTC creation time")
      ∷ request_issues path r.request_id r.request_digest
      ∷ error_if (has_null r) path (codes "work-item revision collections must be arrays, not null")
      ∷ error_if (not (reference_is r.work_item plan.saga_id work_item item_id)) path
          (codes "work-item revision target does not match its package")
      ∷ error_if (duplicate_strings (elements r.parents)) path
          (codes "revision parents must be unique")
      ∷ wave_reference_issues path r.wave
      ∷ string_list_issues lib path (codes "deliverables") (elements r.deliverables) true
      ∷ string_list_issues lib path (codes "completion checks") (elements r.completion_checks) false
      ∷ each_issues
          (λ d.
            existing_issues plan.dependencies path
              (codes "dependency references must be dependency URNs in this Saga")
              (codes "dependency reference does not exist")
              (in_saga plan.saga_id dependency (Parse.parse d)))
          (elements r.dependencies)
      ∷ each_issues (λ c. contract_reference_issues plan path (Parse.parse c))
          (elements r.contracts)
      ∷ touch_areas_issues lib path 0 (elements r.expected_touch_areas)
      ∷ merge_unit_issues lib path 0 [] (elements r.merge_units)
      ∷ [])
