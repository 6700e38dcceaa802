-- ===== src/WorkPlan/Load/Others.antt =====
-- internal/workplan/load.go: the scan of one collection keeps the resources of the others.
use changesaga.Prelude.{
  ◌≡◌, refl, ◌∙◌, subst, Bool, true, false, not, ◌||◌, inl, inr, [], ◌∷◌, ◌++◌, Text, codes,
  text_eq, has_suffix, trim_suffix, Bool-cases, Result-cases, Table, has_key, Result, ok,
  ok-injective, >>=-eq-ok,
}
use changesaga.LivingId.{valid_id}
use changesaga.WorkPlan.Records.{
  Identity, Wave, WorkItem, Contract, Dependency, RequestRecord, Plan,
}
use changesaga.WorkPlan.Mutations.Requests.{load_dependency}
use changesaga.WorkPlan.Load.{scan_waves, scan_work_items, scan_contracts, scan_dependencies}
use changesaga.WorkPlan.Load.Disk.{Node, read_dir, child, real_dir, Reader, under, read_strict_json}
use changesaga.WorkPlan.Load.Walks.{
  Walk, add_error, check_package_id, scan_packages, scan_package, enforce_entry_limit,
}
use changesaga.WorkPlan.Load.Parts.{
  Part, set_requests, put_wave, put_work_item, put_contract, new_wave, new_work_item, new_contract,
}
use changesaga.WorkPlan.Load.Resources.{
  scan_resource, scan_wave, scan_work_item, scan_contract, scan_dependency, keep_dependency,
  scan_wave_parts, scan_work_item_parts, scan_contract_parts,
}
use changesaga.WorkPlan.Load.Kept.{
  Extends, Extends-trans, clean_before, add_issues-Extends, each_entry-Extends, ensure_only-Extends,
}
use changesaga.WorkPlan.Load.Streams.{
  scan_wave_parts-Extends, scan_work_item_parts-Extends, scan_contract_parts-Extends,
}
use changesaga.WorkPlan.Load.Collected.{
  Collection, wave_packages, work_item_packages, contract_packages, dependency_packages, ids_of,
  scan_of,
}

module _ {X : Type 0} (part : Plan → X) where
  scan_packages-Extends :
      (suffix dir_path : Text) (load : Text → Text → Node → Walk Plan → Result Text (Walk Plan))
      → ((path name : Text) (node : Node) (w x : Walk Plan)
          → load path name node w ≡ ok x
          → Extends part w x)
      → (node : Node) (w x : Walk Plan) → scan_packages dir_path node suffix load w ≡ ok x
      → Extends part w x
  unfolding scan_packages
  scan_packages-Extends suffix dir_path load kept node w x h =
      let (es, listed, loop) = >>=-eq-ok (read_dir node) _ h in
      each_entry-Extends part (scan_package dir_path suffix load) package_kept es w x loop
    where
      package_kept :
          (name : Text) (n : Node) (y z : Walk Plan)
          → scan_package dir_path suffix load name n y ≡ ok z
          → Extends part y z
      package_kept name n y z same =
          elim (Bool-cases (not (has_suffix name suffix) || not (real_dir n))) [
            | inl e ↦
                subst (Extends part y) (ok-injective (rw e at same)) (add_issues-Extends part y _)
            | inr e ↦ elim (Bool-cases (not (valid_id (trim_suffix name suffix)))) [
              | inl f ↦
                  subst (Extends part y) (ok-injective (rw (e, f) at same))
                    (add_issues-Extends part y _)
              | inr f ↦ kept _ _ n y z (rw (e, f) at same)
            ]
          ]

  scan_resource-Extends :
      {A : Type 0} (reader : Reader) (kind : Text) (exists : Plan → Text → Bool)
      (start : Identity → A) (scan : Text → Node → Part A → Result Text (Part A))
      (enter : Text → A × Plan → Plan) (allowed : Table Bool)
      → ((path : Text) (node : Node) (w x : Part A)
          → scan path node w ≡ ok x
          → Extends (λ s. part s.1) w x)
      → ((id : Text) (s : A × Plan) → part (enter id s) ≡ part s.1)
      → (path name : Text) (node : Node) (w x : Walk Plan)
      → scan_resource reader kind exists start scan enter allowed path name node w ≡ ok x
      → Extends part w x
  unfolding scan_resource
  scan_resource-Extends reader kind exists start scan enter allowed kept enters path name node
        (plan, v) x h =
      elim (Result-cases (
        read_strict_json reader reader.decode_identity (under path (kind ++ codes ".json"))
          (child node (kind ++ codes ".json")))) [
            | inr (message, e) ↦
                subst (Extends part (plan, v)) (ok-injective (rw e at h))
                  (add_issues-Extends part (plan, v) _)
            | inl (identity, e) ↦
                let checked = check_package_id path name identity.id (plan, v) in
                elim (Bool-cases (exists plan identity.id)) [
                  | inl f ↦ subst (Extends part (plan, v)) (ok-injective (rw (e, f) at h)) (
                      Extends-trans part (plan, v) checked
                        (add_error path (codes "duplicate " ++ (kind ++ codes " id")) checked)
                        (add_issues-Extends part (plan, v) _) (add_issues-Extends part checked _))
                  | inr f ↦
                      let (p, scanned, finished) =
                        >>=-eq-ok (scan path node ((start identity, plan), checked.1)) _
                          (rw (e, f) at h) in
                      λ clean.
                        let (clean_p, put_in) =
                          ensure_only-Extends part path node
                            ((kind ++ codes ".json", false) ∷ allowed) (enter identity.id p.0, p.1)
                            x finished clean in
                        let (clean_start, same_part) = kept path node _ p scanned clean_p in
                        (clean_before v _ clean_start, put_in ∙ enters identity.id p.0 ∙ same_part)
                ]
          ]

  scan_dependency-Extends :
      (reader : Reader)
      → ((plan : Plan) (ds : Table Dependency) (rs : Table RequestRecord)
          → part (record plan { dependencies = ds; requests = rs }) ≡ part plan)
      → (path name : Text) (node : Node) (w x : Walk Plan)
      → scan_dependency reader path name node w ≡ ok x
      → Extends part w x
  unfolding scan_dependency
  scan_dependency-Extends reader same path name node (plan, v) x h =
      elim (Result-cases (
        read_strict_json reader reader.decode_dependency (under path (codes "dependency.json"))
          (child node (codes "dependency.json")))) [
            | inr (message, e) ↦
                subst (Extends part (plan, v)) (ok-injective (rw e at h))
                  (add_issues-Extends part (plan, v) _)
            | inl (d, e) ↦
                let checked = check_package_id path name d.id (plan, v) in
                let loaded =
                  load_dependency (under path (codes "dependency.json")) d plan.dependencies
                    plan.requests in
                let kept = keep_dependency reader loaded checked in
                Extends-trans part (plan, v) kept x
                  (Extends-trans part (plan, v) checked kept (add_issues-Extends part (plan, v) _)
                    (λ clean. (clean_before checked.1 _ clean, same plan _ _)))
                  (ensure_only-Extends part path node ((codes "dependency.json", false) ∷ []) kept x
                    (rw e at h))
          ]

-- The directory of a collection.
abbrev pub dir_of : Collection → Text
dir_of wave_packages = codes "waves"
dir_of work_item_packages = codes "work-items"
dir_of contract_packages = codes "contracts"
dir_of dependency_packages = codes "dependencies"

abbrev Apart : Collection → Collection → Type 0
Apart c d = text_eq (dir_of d) (dir_of c) ≡ false

keeps_requests :
    (c : Collection) (plan : Plan) (rs : Table RequestRecord)
    → ids_of c (set_requests plan rs) ≡ ids_of c plan
keeps_requests wave_packages plan rs = refl
keeps_requests work_item_packages plan rs = refl
keeps_requests contract_packages plan rs = refl
keeps_requests dependency_packages plan rs = refl

keeps_wave :
    (c : Collection)
    → Apart c wave_packages
    → (id : Text) (s : Wave × Plan) → ids_of c (put_wave id s) ≡ ids_of c s.1
unfolding text_eq
keeps_wave wave_packages apart id s = cc
keeps_wave work_item_packages apart id s = refl
keeps_wave contract_packages apart id s = refl
keeps_wave dependency_packages apart id s = refl

keeps_work_item :
    (c : Collection)
    → Apart c work_item_packages
    → (id : Text) (s : WorkItem × Plan) → ids_of c (put_work_item id s) ≡ ids_of c s.1
unfolding text_eq
keeps_work_item wave_packages apart id s = refl
keeps_work_item work_item_packages apart id s = cc
keeps_work_item contract_packages apart id s = refl
keeps_work_item dependency_packages apart id s = refl

keeps_contract :
    (c : Collection)
    → Apart c contract_packages
    → (id : Text) (s : Contract × Plan) → ids_of c (put_contract id s) ≡ ids_of c s.1
unfolding text_eq
keeps_contract wave_packages apart id s = refl
keeps_contract work_item_packages apart id s = refl
keeps_contract contract_packages apart id s = cc
keeps_contract dependency_packages apart id s = refl

keeps_dependency :
    (c : Collection)
    → Apart c dependency_packages
    → (plan : Plan) (ds : Table Dependency) (rs : Table RequestRecord)
    → ids_of c (record plan { dependencies = ds; requests = rs }) ≡ ids_of c plan
unfolding text_eq
keeps_dependency wave_packages apart plan ds rs = refl
keeps_dependency work_item_packages apart plan ds rs = refl
keeps_dependency contract_packages apart plan ds rs = refl
keeps_dependency dependency_packages apart plan ds rs = cc

-- The scan of a collection keeps the identifiers of each other.
pub scan_of-Extends :
    (reader : Reader) (c d : Collection)
    → text_eq (dir_of d) (dir_of c) ≡ false
    → (path : Text) (node : Node) (w x : Walk Plan) → scan_of reader d path node w ≡ ok x
    → Extends (ids_of c) w x
unfolding scan_waves scan_work_items scan_contracts scan_dependencies scan_wave scan_work_item
    scan_contract
scan_of-Extends reader c wave_packages apart path node w x h =
    let (u, e, scanned) = >>=-eq-ok (enforce_entry_limit reader node 10000 (codes "wave")) _ h in
    scan_packages-Extends (ids_of c) (codes ".wave") path (scan_wave reader)
      (scan_resource-Extends (ids_of c) reader (codes "wave") (λ plan id. has_key id plan.waves)
        new_wave (scan_wave_parts reader) put_wave ((codes "revisions", true) ∷ [])
        (scan_wave_parts-Extends reader (ids_of c) (keeps_requests c)) (keeps_wave c apart))
      node w x scanned
scan_of-Extends reader c work_item_packages apart path node w x h =
    let (u, e, scanned) =
      >>=-eq-ok (enforce_entry_limit reader node 20000 (codes "work-item")) _ h in
    scan_packages-Extends (ids_of c) (codes ".work-item") path (scan_work_item reader)
      (scan_resource-Extends (ids_of c) reader (codes "work-item")
        (λ plan id. has_key id plan.work_items) new_work_item (scan_work_item_parts reader)
        put_work_item ((codes "revisions", true) ∷ (codes "events", true) ∷ [])
        (scan_work_item_parts-Extends reader (ids_of c) (keeps_requests c))
        (keeps_work_item c apart))
      node w x scanned
scan_of-Extends reader c contract_packages apart path node w x h =
    let (u, e, scanned) =
      >>=-eq-ok (enforce_entry_limit reader node 20000 (codes "contract")) _ h in
    scan_packages-Extends (ids_of c) (codes ".contract") path (scan_contract reader)
      (scan_resource-Extends (ids_of c) reader (codes "contract")
        (λ plan id. has_key id plan.contracts) new_contract (scan_contract_parts reader)
        put_contract ((codes "revisions", true) ∷ (codes "events", true) ∷ [])
        (scan_contract_parts-Extends reader (ids_of c) (keeps_requests c)) (keeps_contract c apart))
      node w x scanned
scan_of-Extends reader c dependency_packages apart path node w x h =
    let (u, e, scanned) =
      >>=-eq-ok (enforce_entry_limit reader node 50000 (codes "dependency")) _ h in
    scan_packages-Extends (ids_of c) (codes ".dependency") path (scan_dependency reader)
      (scan_dependency-Extends (ids_of c) reader (keeps_dependency c apart)) node w x scanned
