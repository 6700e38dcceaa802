-- ===== src/WorkPlan/Load/Whole.antt =====
-- internal/workplan/load.go: the resources of a plan that `Load` finds valid.
use changesaga.Prelude.{
  ◌≡◌, refl, sym, ◌∙◌, ap, subst, true, not, inl, inr, Option, none, some, [], Text, codes,
  Bool-cases, ok, ok-injective, >>=-eq-ok, arith,
}
use changesaga.WorkPlan.Records.{Plan, Validation}
use changesaga.WorkPlan.Checks.{Library, root_dir}
use changesaga.WorkPlan.Load.{
  empty_plan, scan_workplan_root, wrap_error, check_manifest, load_workplan, load,
}
use changesaga.WorkPlan.Load.Disk.{
  Node, read_dir, child, real_dir, Reader, under, read_selected_manifest,
}
use changesaga.WorkPlan.Load.Walks.{Walk}
use changesaga.WorkPlan.Load.Collected.{
  Collection, wave_packages, work_item_packages, contract_packages, dependency_packages, ids_of,
}
use changesaga.WorkPlan.Load.Others.{dir_of}
use changesaga.WorkPlan.Load.Validated.{validate_plan-Extends}
use changesaga.WorkPlan.Load.Root.{
  IsLoaded, HasNames, collection_dir, child-read_dir, names_of-read_dir, each_entry-IsLoaded,
}

module _ (reader : Reader) (c : Collection) where
  load_workplan-IsLoaded :
      (lib : Library) (work : Option Node) (w x : Walk Plan)
      → HasNames work
      → load_workplan reader lib work w ≡ ok x
      → x.1.valid ≡ true
      → IsLoaded c (collection_dir work c) (ids_of c w.0) (ids_of c x.0)
  unfolding load_workplan scan_workplan_root
  load_workplan-IsLoaded lib none w x table h valid = ap (λ y. ids_of c y.0) (sym (ok-injective h))
  load_workplan-IsLoaded lib (some work) w x table h valid =
      elim (Bool-cases (not (real_dir work))) [
        | inl e ↦ let refused = ap (λ y. y.1.valid) (ok-injective (rw e at h)) ∙ valid in absurd cc
        | inr e ↦
            let (y, scanned, settled) =
              >>=-eq-ok (scan_workplan_root reader work w) _ (rw e at h) in
            let (es, listed, loop) = >>=-eq-ok (read_dir work) _ scanned in
            let no_error = ap (λ z. z.1.valid) (ok-injective settled) ∙ valid in
            let (clean_y, same) = validate_plan-Extends lib c y (ground arith) in
            let (clean_w, loaded) =
              each_entry-IsLoaded reader c es w y (names_of-read_dir work es table listed) loop
                clean_y in
            let found =
              subst (λ o. IsLoaded c o (ids_of c w.0) (ids_of c y.0))
                (sym (child-read_dir work (dir_of c) es listed)) loaded in
            subst (IsLoaded c (child work (dir_of c)) (ids_of c w.0))
              (sym same ∙ ap (λ z. ids_of c z.0) (ok-injective settled)) found
      ]

no_ids : (c : Collection) (root saga_id : Text) → ids_of c (empty_plan root saga_id) ≡ []
no_ids wave_packages root saga_id = refl
no_ids work_item_packages root saga_id = refl
no_ids contract_packages root saga_id = refl
no_ids dependency_packages root saga_id = refl

-- If the entries of the work plan's root have distinct names and `Load` finds the plan valid, then for
-- each kind of resource every entry of the kind's directory is a package whose name is a valid
-- identifier, and the plan's identifiers of that kind are exactly the packages' names, in the order of
-- the entries; there are none if the directory is missing.
pub load-IsLoaded :
    (reader : Reader) (lib : Library) (c : Collection) (root : Text) (node : Node) (plan : Plan)
    (v : Validation)
    → HasNames (child node root_dir)
    → load reader lib root (some node) ≡ ok (plan, v)
    → v.valid ≡ true
    → IsLoaded c (collection_dir (child node root_dir) c) [] (ids_of c plan)
unfolding load
load-IsLoaded reader lib c root node plan v table h valid =
    elim (Bool-cases (not (real_dir node))) [
      | inl e ↦ let refused = rw e at h in absurd cc
      | inr e ↦
          let (manifest, read, rest) =
            >>=-eq-ok
              (wrap_error reader (codes "read saga.json: ") (
                read_selected_manifest reader (under root (codes "saga.json"))
                  (child node (codes "saga.json"))))
              _ (rw e at h) in
          let start =
            check_manifest reader manifest.0 manifest.1
              (empty_plan root manifest.1, record { valid = true; issues = [] }) in
          subst (λ ids. IsLoaded c (collection_dir (child node root_dir) c) ids (ids_of c plan))
            (no_ids c root manifest.1)
            (load_workplan-IsLoaded reader c lib (child node root_dir) start (plan, v) table rest
              valid)
    ]
