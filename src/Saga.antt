-- ===== src/Saga.antt =====
-- internal/saga/model.go: the parts of a loaded document that coverage and impact read.
use changesaga.Prelude.{ℕ, Bool, List, Text}

pub record DiffReference : Type 0 where
  pub uri : Text
  pub note : Text

pub record DiffFile : Type 0 where
  pub path : Text
  pub version : ℕ
  pub diffs : List DiffReference

pub record Landmark : Type 0 where
  pub path : Text
  pub id : Text
  pub label : Text
  pub target : Text
  pub diffs : List DiffFile

pub record Fragment : Type 0 where
  pub path : Text
  pub id : Text
  pub title : Text
  pub entrypoint : Text
  pub target : Text
  pub diffs : List DiffFile
  pub landmarks : List Landmark

-- The fields of a section without its children.
pub record SectionData : Type 0 where
  pub path : Text
  pub kind : Text
  pub id : Text
  pub title : Text
  pub target : Text
  pub fragments : List Fragment
  pub diffs : List DiffFile

-- A section holds a list of sections. The loader builds a tree: no section is its own descendant.
mutual
  pub data Section : Type 0 where
    section : SectionData → Sections → Section

  pub data Sections : Type 0 where
    nil : Sections
    cons : Section → Sections → Sections

pub record Issue : Type 0 where
  pub severity : Text
  pub path : Text
  pub message : Text

pub record Validation : Type 0 where
  pub valid : Bool
  pub issues : List Issue

pub record Manifest : Type 0 where
  pub id : Text
  pub title : Text

-- A loaded document: its manifest and its own section.
pub record Saga : Type 0 where
  pub manifest : Manifest
  pub section : Section
