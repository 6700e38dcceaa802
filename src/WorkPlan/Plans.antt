-- ===== src/WorkPlan/Plans.antt =====
-- internal/workplan/validate.go: `validatePlan`, over the resources in the order of their identifiers.
use changesaga.Prelude.{Option, none, some, List, [], ◌∷◌, ◌++◌, Text, sort_texts, get, put}
use changesaga.WorkPlan.Records.{Wave, WorkItem, Contract, Dependency, Validation, Plan}
use changesaga.WorkPlan.Nodes.{add_issues}
use changesaga.WorkPlan.Checks.{Library}
use changesaga.WorkPlan.Items.{Checked, validate_work_item}
use changesaga.WorkPlan.Contracts.{validate_wave, validate_contract}
use changesaga.WorkPlan.Conditions.{dependency_issues}
use changesaga.WorkPlan.Dependencies.{table_keys, validate_dependency_dag}

-- What a loop of `validatePlan` does to the plan and to the validation.
abbrev pub Pass : Type 0
Pass = Plan × Validation

abbrev pub note_checked : {A : Type 0} → (A → Plan → Plan) → Checked A → Pass → Pass
note_checked store checked (plan, v) = (
  record (store checked.resource plan) { conflicts = plan.conflicts ++ checked.conflicts },
  add_issues v checked.issues,
)

abbrev pub store_wave : Text → Wave → Plan → Plan
store_wave id w plan = record plan { waves = put id w plan.waves }

abbrev pub store_item : Text → WorkItem → Plan → Plan
store_item id i plan = record plan { work_items = put id i plan.work_items }

abbrev pub store_contract : Text → Contract → Plan → Plan
store_contract id c plan = record plan { contracts = put id c plan.contracts }

module _ (lib : Library) where
  abbrev pub pass_wave : Text → Option Wave → Pass → Pass
  pass_wave id none p = p
  pass_wave id (some w) p = note_checked (store_wave id) (validate_wave lib p.0 w) p

  abbrev pub pass_item : Text → Option WorkItem → Pass → Pass
  pass_item id none p = p
  pass_item id (some i) p = note_checked (store_item id) (validate_work_item lib p.0 i) p

  abbrev pub pass_contract : Text → Option Contract → Pass → Pass
  pass_contract id none p = p
  pass_contract id (some c) p = note_checked (store_contract id) (validate_contract lib p.0 c) p

  abbrev pub pass_dependency : Option Dependency → Pass → Pass
  pass_dependency none p = p
  pass_dependency (some d) p = (p.0, add_issues p.1 (dependency_issues lib p.0 d))

  unfoldable pub pass_waves : List Text → Pass → Pass
  unfolding get put validate_wave
  pass_waves [] p = p
  pass_waves (id ∷ ids) p = pass_waves ids (pass_wave id (get id p.0.waves) p)

  unfoldable pub pass_items : List Text → Pass → Pass
  unfolding get put validate_work_item
  pass_items [] p = p
  pass_items (id ∷ ids) p = pass_items ids (pass_item id (get id p.0.work_items) p)

  unfoldable pub pass_contracts : List Text → Pass → Pass
  unfolding get put validate_contract
  pass_contracts [] p = p
  pass_contracts (id ∷ ids) p = pass_contracts ids (pass_contract id (get id p.0.contracts) p)

  unfoldable pub pass_dependencies : List Text → Pass → Pass
  unfolding get dependency_issues
  pass_dependencies [] p = p
  pass_dependencies (id ∷ ids) p =
      pass_dependencies ids (pass_dependency (get id p.0.dependencies) p)

  unfoldable pub validate_plan : Plan → Validation → Pass
  unfolding pass_waves pass_items pass_contracts pass_dependencies validate_dependency_dag
      sort_texts
  validate_plan plan v =
      let waves = pass_waves (sort_texts (table_keys plan.waves)) (plan, v) in
      let items = pass_items (sort_texts (table_keys plan.work_items)) waves in
      let contracts = pass_contracts (sort_texts (table_keys plan.contracts)) items in
      let dependencies = pass_dependencies (sort_texts (table_keys plan.dependencies)) contracts in
      (dependencies.0, validate_dependency_dag dependencies.0 dependencies.1)
