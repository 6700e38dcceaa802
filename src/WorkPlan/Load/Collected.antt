-- ===== src/WorkPlan/Load/Collected.antt =====
-- internal/workplan/load.go: the resources that a walk without an error puts into a plan.
use changesaga.Prelude.{
  ◌≡◌, refl, sym, ◌∙◌, ap, true, false, not, inl, inr, List, [], ◌∷◌, ◌++◌, Text, codes, text_eq,
  text_eq_sound, has_key, Bool-cases, Result-cases, Result, ok, >>=-eq-ok, arith,
}
use changesaga.WorkPlan.Records.{Plan, Dependency}
use changesaga.WorkPlan.Nodes.Errors.{no_errors-append}
use changesaga.WorkPlan.Checks.{has_errors}
use changesaga.WorkPlan.Dependencies.{table_keys}
use changesaga.WorkPlan.Mutations.Requests.{load_dependency}
use changesaga.WorkPlan.Load.{scan_waves, scan_work_items, scan_contracts, scan_dependencies}
use changesaga.WorkPlan.Load.Disk.{Node, Reader, child, read_strict_json, under}
use changesaga.WorkPlan.Load.Walks.{Walk, check_package_id, enforce_entry_limit}
use changesaga.WorkPlan.Load.Resources.{
  keep_dependency, scan_contract, scan_contract_parts, scan_dependency, scan_wave, scan_wave_parts,
  scan_work_item, scan_work_item_parts,
}
use changesaga.WorkPlan.Load.Parts.{
  new_contract, new_wave, new_work_item, put_contract, put_wave, put_work_item,
}
use changesaga.WorkPlan.Load.Kept.{
  IsClean, clean_before, clean_of_error_if, add_error-ne_clean, ensure_only-Extends,
}
use changesaga.WorkPlan.Load.Names.{
  IsCollected, AddsName, scan_packages-IsCollected, scan_resource-AddsName, table_keys-put,
  has_key-has,
}
use changesaga.WorkPlan.Load.Streams.{
  scan_wave_parts-Extends, scan_work_item_parts-Extends, scan_contract_parts-Extends,
}

pub data Collection : Type 0 where
  wave_packages work_item_packages contract_packages dependency_packages : Collection

abbrev pub suffix_of : Collection → Text
suffix_of wave_packages = codes ".wave"
suffix_of work_item_packages = codes ".work-item"
suffix_of contract_packages = codes ".contract"
suffix_of dependency_packages = codes ".dependency"

-- The identifiers of a plan's resources, in the order in which they came.
abbrev pub ids_of : Collection → Plan → List Text
ids_of wave_packages plan = table_keys plan.waves
ids_of work_item_packages plan = table_keys plan.work_items
ids_of contract_packages plan = table_keys plan.contracts
ids_of dependency_packages plan = table_keys plan.dependencies

abbrev pub scan_of : Reader → Collection → Text → Node → Walk Plan → Result Text (Walk Plan)
scan_of reader wave_packages = scan_waves reader
scan_of reader work_item_packages = scan_work_items reader
scan_of reader contract_packages = scan_contracts reader
scan_of reader dependency_packages = scan_dependencies reader

module _ (reader : Reader) where
  scan_wave-AddsName : AddsName (ids_of wave_packages) (scan_wave reader)
  unfolding scan_wave
  scan_wave-AddsName =
      scan_resource-AddsName reader (ids_of wave_packages) (codes "wave")
        (λ plan id. has_key id plan.waves) new_wave (scan_wave_parts reader) put_wave
        ((codes "revisions", true) ∷ []) (λ plan id. has_key-has id plan.waves)
        (scan_wave_parts-Extends reader (ids_of wave_packages) (λ plan requests. refl))
        (λ id s absent. table_keys-put id s.0 s.1.waves (has_key-has id s.1.waves ∙ absent))

  scan_work_item-AddsName : AddsName (ids_of work_item_packages) (scan_work_item reader)
  unfolding scan_work_item
  scan_work_item-AddsName =
      scan_resource-AddsName reader (ids_of work_item_packages) (codes "work-item")
        (λ plan id. has_key id plan.work_items) new_work_item (scan_work_item_parts reader)
        put_work_item ((codes "revisions", true) ∷ (codes "events", true) ∷ [])
        (λ plan id. has_key-has id plan.work_items)
        (scan_work_item_parts-Extends reader (ids_of work_item_packages) (λ plan requests. refl))
        (λ id s absent.
          table_keys-put id s.0 s.1.work_items (has_key-has id s.1.work_items ∙ absent))

  scan_contract-AddsName : AddsName (ids_of contract_packages) (scan_contract reader)
  unfolding scan_contract
  scan_contract-AddsName =
      scan_resource-AddsName reader (ids_of contract_packages) (codes "contract")
        (λ plan id. has_key id plan.contracts) new_contract (scan_contract_parts reader)
        put_contract ((codes "revisions", true) ∷ (codes "events", true) ∷ [])
        (λ plan id. has_key-has id plan.contracts)
        (scan_contract_parts-Extends reader (ids_of contract_packages) (λ plan requests. refl))
        (λ id s absent. table_keys-put id s.0 s.1.contracts (has_key-has id s.1.contracts ∙ absent))

  -- A dependency that is entered without an error is new.
  keep_dependency-new :
      (path : Text) (d : Dependency) (w : Walk Plan)
      → IsClean (keep_dependency reader (load_dependency path d w.0.dependencies w.0.requests) w)
      → IsClean w
        × (ids_of dependency_packages
              (keep_dependency reader (load_dependency path d w.0.dependencies w.0.requests) w).0
            ≡ ids_of dependency_packages w.0 ++ (d.id ∷ []))
  unfolding load_dependency has_errors text_eq
  keep_dependency-new path d (plan, v) clean = elim (Bool-cases (has_key d.id plan.dependencies)) [
    | inl e ↦ let both = no_errors-append v.issues _ (rw e at clean) in absurd (ground arith)
    | inr e ↦ (clean_before v _ clean, rw e (table_keys-put d.id d plan.dependencies e))
  ]

  scan_dependency-AddsName : AddsName (ids_of dependency_packages) (scan_dependency reader)
  unfolding scan_dependency
  scan_dependency-AddsName dir_path name node (plan, v) x h clean =
      elim (Result-cases (
        read_strict_json reader reader.decode_dependency (under dir_path (codes "dependency.json"))
          (child node (codes "dependency.json")))) [
            | inr (message, e) ↦ absurd (add_error-ne_clean _ _ (plan, v) x (rw e at h) clean)
            | inl (d, e) ↦
                let path = under dir_path (codes "dependency.json") in
                let checked = check_package_id dir_path name d.id (plan, v) in
                let loaded = load_dependency path d plan.dependencies plan.requests in
                let (clean_kept, put_in) =
                  ensure_only-Extends (ids_of dependency_packages) dir_path node
                    ((codes "dependency.json", false) ∷ []) (keep_dependency reader loaded checked)
                    x (rw e at h) clean in
                let (clean_checked, names) = keep_dependency-new path d checked clean_kept in
                let wrong =
                  clean_of_error_if v (not (text_eq name d.id)) dir_path
                    (codes "record id must match package name") clean_checked in
                let same : name ≡ d.id = text_eq_sound name d.id (ground arith) in
                (
                  clean_before v _ clean_checked,
                  put_in ∙ names ∙ ap (λ n. ids_of dependency_packages plan ++ (n ∷ [])) (sym same),
                )
          ]

-- A scan of a collection that ends without an error adds the names of its packages.
pub scan_of-IsCollected :
    (reader : Reader) (c : Collection) (path : Text) (node : Node) (w x : Walk Plan)
    → scan_of reader c path node w ≡ ok x
    → has_errors x.1.issues ≡ false
    → IsClean w × IsCollected (suffix_of c) node (ids_of c w.0) (ids_of c x.0)
unfolding scan_waves scan_work_items scan_contracts scan_dependencies
scan_of-IsCollected reader wave_packages path node w x h clean =
    let (u, e, scanned) = >>=-eq-ok (enforce_entry_limit reader node 10000 (codes "wave")) _ h in
    scan_packages-IsCollected (ids_of wave_packages) (codes ".wave") path (scan_wave reader)
      (scan_wave-AddsName reader) node w x scanned clean
scan_of-IsCollected reader work_item_packages path node w x h clean =
    let (u, e, scanned) =
      >>=-eq-ok (enforce_entry_limit reader node 20000 (codes "work-item")) _ h in
    scan_packages-IsCollected (ids_of work_item_packages) (codes ".work-item") path
      (scan_work_item reader) (scan_work_item-AddsName reader) node w x scanned clean
scan_of-IsCollected reader contract_packages path node w x h clean =
    let (u, e, scanned) =
      >>=-eq-ok (enforce_entry_limit reader node 20000 (codes "contract")) _ h in
    scan_packages-IsCollected (ids_of contract_packages) (codes ".contract") path
      (scan_contract reader) (scan_contract-AddsName reader) node w x scanned clean
scan_of-IsCollected reader dependency_packages path node w x h clean =
    let (u, e, scanned) =
      >>=-eq-ok (enforce_entry_limit reader node 50000 (codes "dependency")) _ h in
    scan_packages-IsCollected (ids_of dependency_packages) (codes ".dependency") path
      (scan_dependency reader) (scan_dependency-AddsName reader) node w x scanned clean
