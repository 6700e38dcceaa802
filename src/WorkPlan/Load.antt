-- ===== src/WorkPlan/Load.antt =====
-- internal/workplan/load.go: `Load`, over the tree of files of a Saga.
pub mod Disk
pub mod Walks
pub mod Files
pub mod Parts
pub mod Resources
pub mod Kept
pub mod Names
pub mod Streams
pub mod Collected
pub mod Others
pub mod Validated
pub mod Root
pub mod Whole
use changesaga.Prelude.{
  ℕ, Bool, true, false, not, Option, none, some, List, [], ◌∷◌, ◌++◌, Text, codes, text_eq, Result,
  ok, err, ◌>>=◌, ◌>>◌, ◌==◌, if◌then◌else◌,
}
use changesaga.LivingId.{valid_id}
use changesaga.WorkPlan.Records.{Plan, Validation}
use changesaga.WorkPlan.Checks.{Library, version, root_dir, has_errors}
use changesaga.WorkPlan.Plans.{Pass, validate_plan}
use changesaga.WorkPlan.Mutations.Requests.{Loaded}
use changesaga.WorkPlan.Load.Disk.{
  Node, Reader, child, read_dir, read_selected_manifest, real_dir, under,
}
use changesaga.WorkPlan.Load.Walks.{
  Walk, add_error, add_error_if, each_entry, enforce_entry_limit, scan_packages,
}
use changesaga.WorkPlan.Load.Resources.{scan_contract, scan_dependency, scan_wave, scan_work_item}

abbrev pub empty_plan : Text → Text → Plan
empty_plan root saga_id = record {
  root = root;
  saga_id = saga_id;
  waves = [];
  work_items = [];
  dependencies = [];
  contracts = [];
  requests = [];
  conflicts = [];
}

module _ (reader : Reader) where
  -- `scanWaves`
  unfoldable pub scan_waves : Text → Node → Walk Plan → Result Text (Walk Plan)
  unfolding scan_packages scan_wave
  scan_waves path node w =
      enforce_entry_limit reader node 10000 (codes "wave")
      >> scan_packages path node (codes ".wave") (scan_wave reader) w

  -- `scanWorkItems`
  unfoldable pub scan_work_items : Text → Node → Walk Plan → Result Text (Walk Plan)
  unfolding scan_packages scan_work_item
  scan_work_items path node w =
      enforce_entry_limit reader node 20000 (codes "work-item")
      >> scan_packages path node (codes ".work-item") (scan_work_item reader) w

  -- `scanDependencies`
  unfoldable pub scan_dependencies : Text → Node → Walk Plan → Result Text (Walk Plan)
  unfolding scan_packages scan_dependency
  scan_dependencies path node w =
      enforce_entry_limit reader node 50000 (codes "dependency")
      >> scan_packages path node (codes ".dependency") (scan_dependency reader) w

  -- `scanContracts`
  unfoldable pub scan_contracts : Text → Node → Walk Plan → Result Text (Walk Plan)
  unfolding scan_packages scan_contract
  scan_contracts path node w =
      enforce_entry_limit reader node 20000 (codes "contract")
      >> scan_packages path node (codes ".contract") (scan_contract reader) w

  -- `scanEmptyCompatibilityEvents`
  unfoldable pub scan_empty_events : Text → Node → Walk Plan → Result Text (Walk Plan)
  unfolding each_entry
  scan_empty_events path node w = do
    entries ← read_dir node
    each_entry (λ name n x. ok (add_error (under path name) (codes "unknown plan-global event") x))
        entries w

  -- The table `known` of `scanWorkplanRoot`.
  abbrev pub loader : Text → Option (Text → Node → Walk Plan → Result Text (Walk Plan))
  loader name =
      if text_eq name (codes "waves")
      then some scan_waves
      else if text_eq name (codes "work-items")
      then some scan_work_items
      else if text_eq name (codes "dependencies")
      then some scan_dependencies
      else if text_eq name (codes "contracts")
      then some scan_contracts
      else if text_eq name (codes "events")
      then some scan_empty_events
      else none

  abbrev pub scan_collection :
      Option (Text → Node → Walk Plan → Result Text (Walk Plan))
      → Text
      → Node
      → Walk Plan
      → Result Text (Walk Plan)
  scan_collection none path node w = ok (add_error path (codes "unknown work-plan entry") w)
  scan_collection (some scan) path node w =
      if not (real_dir node)
      then ok (add_error path (codes "work-plan collection must be a real directory") w)
      else scan path node w

  -- `scanWorkplanRoot`
  unfoldable pub scan_workplan_root : Node → Walk Plan → Result Text (Walk Plan)
  unfolding each_entry text_eq scan_waves scan_work_items scan_dependencies scan_contracts
      scan_empty_events
  scan_workplan_root node w = do
    entries ← read_dir node
    each_entry (λ name. scan_collection (loader name) (under root_dir name)) entries w

  abbrev pub wrap_error : {A : Type 0} → Text → Result Text A → Result Text A
  wrap_error context (ok a) = ok a
  wrap_error context (err e) = err (context ++ e)

  -- `validation.Valid = !hasErrors(validation)`
  abbrev pub settle : Pass → Pass
  settle (plan, v) = (plan, record v { valid = not (has_errors v.issues) })

  -- The issues of the manifest.
  abbrev pub check_manifest : ℕ → Text → Walk Plan → Walk Plan
  check_manifest manifest_version id w =
      add_error_if (not (valid_id id)) (codes "saga.json") (codes "saga id is invalid") (
        add_error_if (not (manifest_version == version)) (codes "saga.json")
          (codes "work plans require a version 3 Saga") w)

  -- What `Load` does behind the manifest, with the directory of the work plan.
  unfoldable pub load_workplan : Library → Option Node → Walk Plan → Loaded
  unfolding scan_workplan_root validate_plan has_errors
  load_workplan lib none w = ok (settle w)
  load_workplan lib (some node) w =
      if not (real_dir node)
      then ok (unsettled (add_error root_dir (codes "work-plan root must be a real directory") w))
      else (scan_workplan_root node w >>= λ x. ok (settle (validate_plan lib x.0 x.1)))
    where
      unsettled : Pass → Pass
      unsettled (plan, v) = (plan, record v { valid = false })

  -- `Load` on the root's absolute path and what stands there.
  unfoldable pub load : Library → Text → Option Node → Loaded
  unfolding read_selected_manifest child valid_id load_workplan
  load lib root none = err (codes "open saga: " ++ reader.missing root)
  load lib root (some node) =
      if not (real_dir node)
      then err (codes "saga root must be a real directory")
      else (wrap_error (codes "read saga.json: ") (
            read_selected_manifest reader (under root (codes "saga.json"))
              (child node (codes "saga.json")))
          >>= λ manifest. load_workplan lib (child node root_dir) (
              check_manifest manifest.0 manifest.1
                (empty_plan root manifest.1, record { valid = true; issues = [] })))
