-- ===== src/Impact/Records.antt =====
-- internal/impact/impact.go: the records of an impact analysis.
use changesaga.Prelude.{ℕ, Bool, List, Text, Table}
use changesaga.GitDiff.{Atom}
use changesaga.Coverage.Visit.{Assignment}

pub record SourceIdentity : Type 0 where
  pub repository : Text
  pub base : Text
  pub head : Text
  pub base_oid : Text
  pub head_oid : Text

pub record BaselineStatus : Type 0 where
  pub saga_id : Text
  pub title : Text
  pub source : SourceIdentity
  pub complete : Bool
  pub covered : ℕ
  pub total : ℕ
  pub uncovered : ℕ
  pub stale : ℕ
  pub overlapping : ℕ

pub record IncomingStatus : Type 0 where
  pub saga_id : Text
  pub title : Text
  pub source : SourceIdentity

pub record Summary : Type 0 where
  pub incoming_atoms : ℕ
  pub direct_intersections : ℕ
  pub contextual_additions : ℕ
  pub new_content_required : ℕ
  pub targets_must_update : ℕ
  pub targets_consider_update : ℕ

pub record Change : Type 0 where
  pub relationship : Text
  pub atom : Atom

pub record TargetImpact : Type 0 where
  pub target : Text
  pub kind : Text
  pub title : Text
  pub location : Text
  pub content_path : Text
  pub action : Text
  pub evidence_files : List Text
  pub changes : List Change

pub record UnownedChange : Type 0 where
  pub atom : Atom
  pub reason : Text

pub record Diagnostic : Type 0 where
  pub code : Text
  pub message : Text

pub record Analysis : Type 0 where
  pub schema : Text
  pub mode : Text
  pub basis : Text
  pub content_compared : Bool
  pub baseline : BaselineStatus
  pub incoming : IncomingStatus
  pub summary : Summary
  pub targets : List TargetImpact
  pub new_content : List UnownedChange
  pub diagnostics : List Diagnostic

pub record TargetLocation : Type 0 where
  pub kind : Text
  pub title : Text
  pub location : Text
  pub content_path : Text

-- The sets of strings are lists without repetition.
pub record TargetAccumulator : Type 0 where
  pub location : TargetLocation
  pub action : Text
  pub evidence : List Text
  pub changes : Table Change

abbrev pub OwnerSet : Type 0
OwnerSet = Table (List Assignment)
