-- ===== src/WorkPlan/Load/Files.antt =====
-- internal/workplan/load.go: the records of revisions and events.
use changesaga.Prelude.{
  false, not, ◌&&◌, ◌||◌, Option, none, some, List, [], ◌∷◌, Text, codes, text_eq, has_suffix,
  split, contains, trim_suffix, length, ltb, Result, ok, err, ◌>>=◌, ◌>>◌, require, if◌then◌else◌,
}
use changesaga.LivingId.{valid_id}
use changesaga.WorkPlan.Nodes.{is_nil}
use changesaga.WorkPlan.Load.Disk.{
  Node, Reader, child, read_dir, read_strict_json, real_dir, real_file, under,
}
use changesaga.WorkPlan.Load.Walks.{Walk, add_error, add_error_if, each_entry, ensure_only}

-- The last name of a path, and the name of the directory it stands in.
abbrev last_name : List Text → Text
last_name [] = []
last_name (n ∷ []) = n
last_name (n ∷ m ∷ ns) = last_name (m ∷ ns)

abbrev parent_name : List Text → Text
parent_name [] = []
parent_name (n ∷ []) = codes "."
parent_name (n ∷ m ∷ []) = n
parent_name (n ∷ m ∷ k ∷ ns) = parent_name (m ∷ k ∷ ns)

-- `filepath.Base(path)`, and `filepath.Base(filepath.Dir(path))`.
abbrev pub base_name : Text → Text
unfolding split
base_name path = last_name (split path 47)

abbrev package_name : Text → Text
unfolding split
package_name path = parent_name (split path 47)

-- The checks of `readRecord` on the identifier of a record: of a file called revision.json, whatever
-- directory it stands in, against its package, and of another file of events against the file.
unfoldable pub check_record_id : {S : Type 0} → Text → Text → Walk S → Walk S
unfolding split contains has_suffix trim_suffix text_eq
check_record_id path id w =
    if is_nil id
    then w
    else if text_eq (base_name path) (codes "revision.json")
    then add_error_if (not (text_eq (trim_suffix (package_name path) (codes ".revision")) id)) path
        (codes "revision id must match its package name") w
    else if has_suffix path (codes ".json") && contains path (codes "/events/")
    then add_error_if (not (text_eq (trim_suffix (base_name path) (codes ".json")) id)) path
        (codes "event id must match its file name") w
    else w

module _ (reader : Reader) where
  -- `readRecord`, with `decodedRecordID` of the record and what its callers do with the record.
  unfoldable pub read_record :
      {S A : Type 0}
      → (Text → Result Text A)
      → (A → Text)
      → (A → Walk S → Walk S)
      → Text
      → Option Node
      → Walk S
      → Walk S
  unfolding read_strict_json check_record_id
  read_record {S} {A} decode id_of use_record path node w =
      of_read (read_strict_json reader decode path node)
    where
      of_read : Result Text A → Walk S
      of_read (err e) = add_error path e w
      of_read (ok x) = use_record x (check_record_id path (id_of x) w)

-- One round of `scanRevisions`.
abbrev pub scan_revision :
    {S : Type 0}
    → Text
    → (Text → Option Node → Walk S → Walk S)
    → Text
    → Node
    → Walk S
    → Result Text (Walk S)
scan_revision dir_path load name node w =
    if not (has_suffix name (codes ".revision")) || not (real_dir node)
    then ok (add_error path (codes "revisions must be real <id>.revision packages") w)
    else if not (valid_id (trim_suffix name (codes ".revision")))
    then ok (add_error path (codes "revision package name is invalid") w)
    else ensure_only path node ((codes "revision.json", false) ∷ [])
        (load (under path (codes "revision.json")) (child node (codes "revision.json")) w)
  where
    path : Text
    path = under dir_path name

-- `scanRevisions`
unfoldable pub scan_revisions :
    {S : Type 0}
    → (Text → Option Node → Walk S → Walk S)
    → Text
    → Node
    → Walk S
    → Result Text (Walk S)
unfolding child each_entry ensure_only has_suffix trim_suffix valid_id
scan_revisions {S} load package_path pack w = of_dir (child pack (codes "revisions"))
  where
    of_dir : Option Node → Result Text (Walk S)
    of_dir none = ok w
    of_dir (some node) =
        if not (real_dir node)
        then ok (
            add_error (under package_path (codes "revisions"))
              (codes "revisions must be a real directory") w)
        else (read_dir node >>= λ entries.
            require (not (ltb 10000 (length entries))) (codes "revision limit of 10000 exceeded")
            >> each_entry (scan_revision (under package_path (codes "revisions")) load) entries w)

-- One round of `scanEventFiles`.
abbrev pub scan_event_file :
    {S : Type 0}
    → Text
    → (Text → Option Node → Walk S → Walk S)
    → Text
    → Node
    → Walk S
    → Result Text (Walk S)
scan_event_file dir_path load name node w = ok (
    if not (has_suffix name (codes ".json")) || not (real_file node)
    then add_error (under dir_path name) (codes "events must be regular <id>.json files") w
    else load (under dir_path name) (some node) w)

-- `scanEventFiles`
unfoldable pub scan_event_files :
    {S : Type 0}
    → (Text → Option Node → Walk S → Walk S)
    → Text
    → Node
    → Walk S
    → Result Text (Walk S)
unfolding each_entry has_suffix trim_suffix
scan_event_files load dir_path node w = do
  entries ← read_dir node
  require (not (ltb 50000 (length entries))) (codes "event limit of 50000 exceeded")
  each_entry (scan_event_file dir_path load) entries w
