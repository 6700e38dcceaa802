-- ===== src/WorkPlan/Load/Walks.antt =====
-- internal/workplan/load.go: the walk over the directories of a work plan. A path is relative to the
-- Saga's root.
use changesaga.Prelude.{
  ℕ, Bool, true, false, not, ◌||◌, Option, none, some, List, [], ◌∷◌, ◌++◌, Text, codes, text_eq,
  has_suffix, trim_suffix, Table, get, length, ltb, Result, ok, ◌>>=◌, require, if◌then◌else◌,
}
use changesaga.LivingId.{valid_id}
use changesaga.WorkPlan.Records.{Validation}
use changesaga.WorkPlan.Nodes.{error_if, add_issues}
use changesaga.WorkPlan.Load.Disk.{Node, Reader, read_dir, real_dir, real_file, under}

-- What a walk changes: the plan, or a resource with the plan, and the validation.
abbrev pub Walk : Type 0 → Type 0
Walk S = S × Validation

abbrev pub add_error : {S : Type 0} → Text → Text → Walk S → Walk S
add_error path message (s, v) = (s, add_issues v (error_if true path message))

-- `addIssue` under a condition.
abbrev pub add_error_if : {S : Type 0} → Bool → Text → Text → Walk S → Walk S
add_error_if wrong path message (s, v) = (s, add_issues v (error_if wrong path message))

-- A loop over the entries of a directory that an error ends.
unfoldable pub each_entry :
    {S : Type 0} → (Text → Node → S → Result Text S) → List (Text × Node) → S → Result Text S
each_entry step [] s = ok s
each_entry step ((name, node) ∷ es) s = step name node s >>= each_entry step es

-- `ensureOnly`, where an allowed name is that of a directory (`true`) or of a file.
abbrev pub ensure_entry : {S : Type 0} → Text → Node → Option Bool → Walk S → Walk S
ensure_entry path node none w = add_error path (codes "unknown package entry") w
ensure_entry path node (some true) w =
    add_error_if (not (real_dir node)) path (codes "entry must be a real directory") w
ensure_entry path node (some false) w =
    add_error_if (not (real_file node)) path (codes "entry must be a regular file") w

abbrev pub ensure_step :
    {S : Type 0} → Text → Table Bool → Text → Node → Walk S → Result Text (Walk S)
ensure_step path allowed name node w = ok (ensure_entry (under path name) node (get name allowed) w)

unfoldable pub ensure_only : {S : Type 0} → Text → Node → Table Bool → Walk S → Result Text (Walk S)
unfolding each_entry get
ensure_only path node allowed w = do
  entries ← read_dir node
  each_entry (ensure_step path allowed) entries w

-- `checkPackageID`
abbrev pub check_package_id : {S : Type 0} → Text → Text → Text → Walk S → Walk S
check_package_id path name id w =
    add_error_if (not (text_eq name id)) path (codes "record id must match package name") w

-- `enforceEntryLimit`
abbrev pub enforce_entry_limit : Reader → Node → ℕ → Text → Result Text (Unit {0})
enforce_entry_limit reader node limit kind = do
  entries ← read_dir node
  require (not (ltb limit (length entries)))
      (kind ++ (codes " limit of " ++ (reader.decimal limit ++ codes " exceeded")))

-- One round of `scanPackages`, with the suffix and the callback.
abbrev pub scan_package :
    {S : Type 0}
    → Text
    → Text
    → (Text → Text → Node → Walk S → Result Text (Walk S))
    → Text
    → Node
    → Walk S
    → Result Text (Walk S)
scan_package dir_path suffix load name node w =
    if not (has_suffix name suffix) || not (real_dir node)
    then ok (add_error path (codes "entries must be real *" ++ (suffix ++ codes " packages")) w)
    else if not (valid_id (trim_suffix name suffix))
    then ok (add_error path (codes "package name is not a stable id") w)
    else load path (trim_suffix name suffix) node w
  where
    path : Text
    path = under dir_path name

-- `scanPackages`
unfoldable pub scan_packages :
    {S : Type 0}
    → Text
    → Node
    → Text
    → (Text → Text → Node → Walk S → Result Text (Walk S))
    → Walk S
    → Result Text (Walk S)
unfolding each_entry has_suffix trim_suffix valid_id
scan_packages dir_path node suffix load w = do
  entries ← read_dir node
  each_entry (scan_package dir_path suffix load) entries w
