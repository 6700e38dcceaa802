-- ===== src/DiffUri/Validate.antt =====
-- internal/diffuri/diffuri.go: `Validate` and `validatePath`. Go's int is ℕ: a negative line is refused
-- like line 0, with the same error.
use changesaga.Prelude.{
  Bool, false, not, ◌&&◌, ◌||◌, [], ◌∷◌, ◌++◌, Text, codes, text_eq, has, has_prefix, Result, err,
  ◌>>=◌, ◌>>◌, require, leb, ◌==◌, if◌then◌else◌,
}
use changesaga.DiffUri.{Reference}
use changesaga.DiffUri.Urls.{Library, is_blank}
use changesaga.DiffUri.Repository.{canonical_repository}

abbrev pub is_event_kind : Text → Bool
is_event_kind event = has event (
    codes "add"
    ∷ codes "delete"
    ∷ codes "type-change"
    ∷ codes "rename"
    ∷ codes "mode"
    ∷ codes "binary"
    ∷ codes "modify"
    ∷ [])

abbrev pub contains_nul : Text → Bool
contains_nul [] = false
contains_nul (c ∷ t) = c == 0 || contains_nul t

-- "C:" and the like.
abbrev pub has_drive : Text → Bool
has_drive (c ∷ d ∷ t) = ((leb 65 c && leb c 90) || (leb 97 c && leb c 122)) && d == 58
has_drive (c ∷ []) = false
has_drive [] = false

module _ (lib : Library) where
  unfoldable pub is_valid_path : Text → Bool
  unfolding has_prefix
  is_valid_path value =
      not (
        is_blank value
        || text_eq value (codes ".")
        || text_eq value (codes "..")
        || has_prefix value (codes "../")
        || not (lib.is_utf8 value)
        || contains_nul value
        || has_prefix value (codes "/")
        || not (text_eq (lib.clean value) value))
      && not (has_drive value)

  unfoldable pub validate_line : Reference → Result Text (Unit {0})
  unfolding is_valid_path
  validate_line r = do
    require
        (is_valid_path r.path
          && (text_eq r.side (codes "old") || text_eq r.side (codes "new"))
          && leb 1 r.start
          && leb r.start r.end)
        (codes "line URI requires path, old/new side, and a valid range")
    require (is_blank r.event && is_blank r.old_path && is_blank r.new_path)
        (codes "line URI cannot contain event parameters")

  abbrev pub event_paths : Reference → Result Text (Unit {0})
  event_paths r =
      if text_eq r.event (codes "rename")
      then require (is_blank r.path && is_valid_path r.old_path && is_valid_path r.new_path)
          (codes "rename URI requires exactly old_path and new_path")
      else require (is_valid_path r.path && is_blank r.old_path && is_blank r.new_path)
          (r.event ++ codes " URI requires exactly path")

  unfoldable pub validate_event : Reference → Result Text (Unit {0})
  unfolding is_valid_path
  validate_event r = do
    require (is_event_kind r.event)
        (codes "event URI requires add, delete, type-change, rename, mode, binary, or modify")
    event_paths r

  unfoldable pub validate_file : Reference → Result Text (Unit {0})
  unfolding is_valid_path
  validate_file r = do
    require (is_valid_path r.path) (codes "file URI requires path")
    require
        (is_blank r.side
          && r.start == 0
          && r.end == 0
          && is_blank r.event
          && is_blank r.old_path
          && is_blank r.new_path)
        (codes "file URI cannot contain line or event parameters")

  unfoldable pub validate_kind : Reference → Result Text (Unit {0})
  unfolding validate_line validate_event validate_file
  validate_kind r =
      if text_eq r.kind (codes "line")
      then validate_line r
      else if text_eq r.kind (codes "event")
      then validate_event r
      else if text_eq r.kind (codes "file")
      then validate_file r
      else err (codes "kind must be line, event, or file")

  unfoldable pub validate : Reference → Result Text (Unit {0})
  unfolding validate_kind canonical_repository
  validate r = do
    repository ← canonical_repository lib r.repository
    require (text_eq repository r.repository) (codes "repository URI is not canonical")
    require (not (is_blank r.base_oid || is_blank r.head_oid))
        (codes "base and head identities are required")
    validate_kind r
