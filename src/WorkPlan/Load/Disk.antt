-- ===== src/WorkPlan/Load/Disk.antt =====
-- internal/workplan/load.go: the tree of files and the reading of records. The disk does not change while
-- it is read.
use changesaga.Prelude.{
  ℕ, Bool, true, false, not, Option, none, some, List, [], ◌∷◌, ◌++◌, Text, codes, get, length, ltb,
  Result, ok, err, ◌>>=◌, ◌>>◌, require,
}
use changesaga.WorkPlan.Records.{
  Identity, WaveRevision, WorkItemRevision, ContractRevision, ProgressEvent, WorkspaceEvent,
  MergeEvent, ContractEvent, Dependency,
}

-- A regular file with its bytes, or the error of reading it; a directory with its entries in the order
-- of their names, and the error of listing it, if there is one; a link or anything else.
mutual
  pub data Node : Type 0 where
    file : Result Text Text → Node
    dir : Option Text → Entries → Node
    other : Node

  pub data Entries : Type 0 where
    end : Entries
    entry : Text → Node → Entries → Entries

abbrev pub to_list : Entries → List (Text × Node)
to_list end = []
to_list (entry name node es) = (name, node) ∷ to_list es

-- `os.ReadDir`
abbrev pub read_dir : Node → Result Text (List (Text × Node))
read_dir (dir none es) = ok (to_list es)
read_dir (dir (some e) es) = err e
read_dir (file content) = err (codes "not a directory")
read_dir other = err (codes "not a directory")

-- The node of a name in a directory.
unfoldable pub child : Node → Text → Option Node
unfolding get
child (dir unlisted es) name = get name (to_list es)
child (file content) name = none
child other name = none

-- `realDir`, and the test of `Lstat` on a directory.
abbrev pub real_dir : Node → Bool
real_dir (dir unlisted es) = true
real_dir _ = false

-- `realFile`
abbrev pub real_file : Node → Bool
real_file (file content) = true
real_file _ = false

-- What the code takes from the system and from encoding/json. A decoder is the strict one, with the
-- test for data behind the record; its error is the printed one. A version is not negative.
pub record Reader : Type 0 where
  -- The error of `os.Lstat` on a path where nothing is, of the root or below it.
  pub missing : Text → Text
  pub decimal : ℕ → Text
  pub decode_manifest : Text → Result Text (ℕ × Text)
  pub decode_identity : Text → Result Text Identity
  pub decode_wave_revision : Text → Result Text WaveRevision
  pub decode_work_item_revision : Text → Result Text WorkItemRevision
  pub decode_contract_revision : Text → Result Text ContractRevision
  pub decode_progress : Text → Result Text ProgressEvent
  pub decode_workspace : Text → Result Text WorkspaceEvent
  pub decode_merge : Text → Result Text MergeEvent
  pub decode_contract_event : Text → Result Text ContractEvent
  pub decode_dependency : Text → Result Text Dependency

abbrev pub max_record_bytes : ℕ
max_record_bytes = 1048576

-- `filepath.Join` on a path and the name of an entry.
abbrev pub under : Text → Text → Text
under path name = path ++ (47 ∷ name)

module _ (reader : Reader) where
  -- `readStrictJSON`
  unfoldable pub read_strict_json :
      {A : Type 0} → (Text → Result Text A) → Text → Option Node → Result Text A
  read_strict_json decode path none = err (reader.missing path)
  read_strict_json decode path (some (file content)) = do
    bytes ← content
    require (not (ltb max_record_bytes (length bytes)))
        (codes "record exceeds " ++ (reader.decimal max_record_bytes ++ codes " byte limit"))
    decode bytes
  read_strict_json decode path (some _) = err (codes "record must be a regular file")

  -- `readSelectedManifest`
  unfoldable pub read_selected_manifest : Text → Option Node → Result Text (ℕ × Text)
  read_selected_manifest path none = err (reader.missing path)
  read_selected_manifest path (some (file content)) = content >>= reader.decode_manifest
  read_selected_manifest path (some _) = err (codes "manifest must be a regular file")
