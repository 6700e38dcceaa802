-- ===== src/GitDiff.antt =====
-- internal/gitdiff/gitdiff.go: the atoms of a comparison.
pub mod Paths
pub mod Parse
pub mod TypeChanges
pub mod ChangeSets
pub mod Catalog
use changesaga.Prelude.{ℕ, List, Text}

-- The smallest part of a comparison that can be covered: a changed line, or an event of a file.
pub record Atom : Type 0 where
  pub key : Text
  pub uri : Text
  pub kind : Text
  pub path : Text
  pub side : Text
  pub line : ℕ
  pub content : Text
  pub event : Text
  pub old_path : Text
  pub new_path : Text

pub record DisplayLine : Type 0 where
  pub kind : Text
  pub path : Text
  pub old_line : ℕ
  pub new_line : ℕ
  pub content : Text
  pub atom_key : Text
  pub event : Text
  pub old_path : Text
  pub new_path : Text

pub record ChangeSet : Type 0 where
  pub repository : Text
  pub base : Text
  pub head : Text
  pub base_oid : Text
  pub head_oid : Text
  pub atoms : List Atom
  pub saga_changes : List Atom
  pub display_lines : List DisplayLine
