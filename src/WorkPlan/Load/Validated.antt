-- ===== src/WorkPlan/Load/Validated.antt =====
-- internal/workplan/validate.go: `validatePlan` keeps the identifiers of a plan's resources.
use changesaga.Prelude.{
  ◌≡◌, refl, ap, inl, inr, some, List, [], ◌∷◌, Text, text_eq, Table, get, put, sort_texts,
  Bool-cases, Option-cases,
}
use changesaga.WorkPlan.Records.{Wave, WorkItem, Contract, Plan, Conflict}
use changesaga.WorkPlan.Checks.{Library}
use changesaga.WorkPlan.Dependencies.{table_keys, validate_dependency_dag}
use changesaga.WorkPlan.Plans.{
  Pass, pass_wave, pass_item, pass_contract, pass_dependency, pass_waves, pass_items,
  pass_contracts, pass_dependencies, validate_plan, store_wave, store_item, store_contract,
}
use changesaga.WorkPlan.Load.Kept.{
  Extends, Extends-refl, Extends-trans, clean_before, add_issues-Extends,
}
use changesaga.WorkPlan.Load.Collected.{
  Collection, wave_packages, work_item_packages, contract_packages, dependency_packages, ids_of,
}

-- The entry of a key that is there takes its place.
table_keys-put_again :
    {A : Type 0} (k : Text) (x y : A) (t : Table A)
    → get k t ≡ some y
    → table_keys (put k x t) ≡ table_keys t
unfolding get put
table_keys-put_again k x y [] h = cc
table_keys-put_again k x y ((j, z) ∷ t) h = elim (Bool-cases (text_eq j k)) [
  | inl e ↦ rw e refl
  | inr e ↦ rw e (ap (λ ks. j ∷ ks) (table_keys-put_again k x y t (rw e at h)))
]

abbrev with_conflicts : Plan → List Conflict → Plan
with_conflicts plan conflicts = record plan { conflicts = conflicts }

store_wave-ids :
    (c : Collection) (id : Text) (x y : Wave) (plan : Plan) (cs : List Conflict)
    → get id plan.waves ≡ some y
    → ids_of c (with_conflicts (store_wave id x plan) cs) ≡ ids_of c plan
store_wave-ids wave_packages id x y plan cs h = table_keys-put_again id x y plan.waves h
store_wave-ids work_item_packages id x y plan cs h = refl
store_wave-ids contract_packages id x y plan cs h = refl
store_wave-ids dependency_packages id x y plan cs h = refl

store_item-ids :
    (c : Collection) (id : Text) (x y : WorkItem) (plan : Plan) (cs : List Conflict)
    → get id plan.work_items ≡ some y
    → ids_of c (with_conflicts (store_item id x plan) cs) ≡ ids_of c plan
store_item-ids wave_packages id x y plan cs h = refl
store_item-ids work_item_packages id x y plan cs h = table_keys-put_again id x y plan.work_items h
store_item-ids contract_packages id x y plan cs h = refl
store_item-ids dependency_packages id x y plan cs h = refl

store_contract-ids :
    (c : Collection) (id : Text) (x y : Contract) (plan : Plan) (cs : List Conflict)
    → get id plan.contracts ≡ some y
    → ids_of c (with_conflicts (store_contract id x plan) cs) ≡ ids_of c plan
store_contract-ids wave_packages id x y plan cs h = refl
store_contract-ids work_item_packages id x y plan cs h = refl
store_contract-ids contract_packages id x y plan cs h = table_keys-put_again id x y plan.contracts h
store_contract-ids dependency_packages id x y plan cs h = refl

module _ (lib : Library) (c : Collection) where
  pass_waves-Extends : (ids : List Text) (p : Pass) → Extends (ids_of c) p (pass_waves lib ids p)
  unfolding pass_waves
  pass_waves-Extends [] p = Extends-refl (ids_of c) p
  pass_waves-Extends (id ∷ ids) p =
      Extends-trans (ids_of c) p (pass_wave lib id (get id p.0.waves) p)
        (pass_waves lib ids (pass_wave lib id (get id p.0.waves) p))
        (elim (Option-cases (get id p.0.waves)) [
          | inl e ↦ rw e (Extends-refl (ids_of c) p)
          | inr (w, e) ↦ rw e (λ clean. (clean_before p.1 _ clean, store_wave-ids c id _ w p.0 _ e))
        ])
        (pass_waves-Extends ids (pass_wave lib id (get id p.0.waves) p))

  pass_items-Extends : (ids : List Text) (p : Pass) → Extends (ids_of c) p (pass_items lib ids p)
  unfolding pass_items
  pass_items-Extends [] p = Extends-refl (ids_of c) p
  pass_items-Extends (id ∷ ids) p =
      Extends-trans (ids_of c) p (pass_item lib id (get id p.0.work_items) p)
        (pass_items lib ids (pass_item lib id (get id p.0.work_items) p))
        (elim (Option-cases (get id p.0.work_items)) [
          | inl e ↦ rw e (Extends-refl (ids_of c) p)
          | inr (i, e) ↦ rw e (λ clean. (clean_before p.1 _ clean, store_item-ids c id _ i p.0 _ e))
        ])
        (pass_items-Extends ids (pass_item lib id (get id p.0.work_items) p))

  pass_contracts-Extends :
      (ids : List Text) (p : Pass) → Extends (ids_of c) p (pass_contracts lib ids p)
  unfolding pass_contracts
  pass_contracts-Extends [] p = Extends-refl (ids_of c) p
  pass_contracts-Extends (id ∷ ids) p =
      Extends-trans (ids_of c) p (pass_contract lib id (get id p.0.contracts) p)
        (pass_contracts lib ids (pass_contract lib id (get id p.0.contracts) p))
        (elim (Option-cases (get id p.0.contracts)) [
          | inl e ↦ rw e (Extends-refl (ids_of c) p)
          | inr (k, e) ↦
              rw e (λ clean. (clean_before p.1 _ clean, store_contract-ids c id _ k p.0 _ e))
        ])
        (pass_contracts-Extends ids (pass_contract lib id (get id p.0.contracts) p))

  pass_dependencies-Extends :
      (ids : List Text) (p : Pass) → Extends (ids_of c) p (pass_dependencies lib ids p)
  unfolding pass_dependencies
  pass_dependencies-Extends [] p = Extends-refl (ids_of c) p
  pass_dependencies-Extends (id ∷ ids) p =
      Extends-trans (ids_of c) p (pass_dependency lib (get id p.0.dependencies) p)
        (pass_dependencies lib ids (pass_dependency lib (get id p.0.dependencies) p))
        (elim (Option-cases (get id p.0.dependencies)) [
          | inl e ↦ rw e (Extends-refl (ids_of c) p)
          | inr (d, e) ↦ rw e (add_issues-Extends (ids_of c) p _)
        ])
        (pass_dependencies-Extends ids (pass_dependency lib (get id p.0.dependencies) p))

  -- A plan that is found valid has the identifiers that it had before.
  pub validate_plan-Extends : (p : Pass) → Extends (ids_of c) p (validate_plan lib p.0 p.1)
  unfolding validate_plan validate_dependency_dag
  validate_plan-Extends p =
      let waves = pass_waves lib (sort_texts (table_keys p.0.waves)) p in
      let items = pass_items lib (sort_texts (table_keys p.0.work_items)) waves in
      let contracts = pass_contracts lib (sort_texts (table_keys p.0.contracts)) items in
      let dependencies =
        pass_dependencies lib (sort_texts (table_keys p.0.dependencies)) contracts in
      let settled = validate_plan lib p.0 p.1 in
      let keep = Extends-trans (ids_of c) in
      keep p waves settled (pass_waves-Extends (sort_texts (table_keys p.0.waves)) p) (
        keep waves items settled (pass_items-Extends (sort_texts (table_keys p.0.work_items)) waves)
          (keep items contracts settled
            (pass_contracts-Extends (sort_texts (table_keys p.0.contracts)) items)
            (keep contracts dependencies settled
              (pass_dependencies-Extends (sort_texts (table_keys p.0.dependencies)) contracts)
              (add_issues-Extends (ids_of c) dependencies _))))
