-- ===== src/Coverage/Report.antt =====
-- The reports: `Evaluate`, `SelectTarget`, `newReport`, `finishReport`.
pub mod Rollup
pub mod Evaluate
pub mod Complete
pub mod Distinct
pub mod Agree
use changesaga.Prelude.{
  ℕ, zero, suc, ◌+◌, ◌-◌, Bool, true, false, ◌&&◌, List, [], ◌∷◌, ◌++◌, map, Text, codes, text_eq,
  text_lt, ltb, ◌==◌, if◌then◌else◌, length, any,
}
use changesaga.DiffUri.{UriParser}
use changesaga.GitDiff.{Atom, ChangeSet}
use changesaga.Saga.{DiffFile, Section, Issue, Validation}
use changesaga.Coverage.Index.{AtomIndex, build_index, is_empty}
use changesaga.Coverage.Visit.{Assignment, Orphan, Pass, document_visits, visit_files, visit_all}

pub record Summary : Type 0 where
  pub total : ℕ
  pub covered : ℕ
  pub uncovered : ℕ
  pub overlapping : ℕ
  pub orphaned : ℕ
  pub saga_changes : ℕ

pub record Overlap : Type 0 where
  pub atom : Atom
  pub covered_by : List Assignment

pub record TargetSummary : Type 0 where
  pub target : Text
  pub covered : ℕ

pub record Report : Type 0 where
  pub complete : Bool
  pub coverage_scope : Text
  pub summary : Summary
  pub uncovered : List Atom
  pub overlaps : List Overlap
  pub orphans : List Orphan
  pub targets : List TargetSummary
  pub saga_changes : List Atom
  pub repository : Text
  pub base : Text
  pub head : Text
  pub base_oid : Text
  pub head_oid : Text
  pub schema_valid : Bool
  pub schema_issues : List Issue
  pub ownership : List (Text × List Assignment)

-- `targetCounts[target]++`.
unfoldable pub bump : Text → List (Text × ℕ) → List (Text × ℕ)
bump t [] = (t, 1) ∷ []
bump t ((u, n) ∷ m) = if text_eq u t then (u, n + 1) ∷ m else (u, n) ∷ bump t m

-- `Ownership[key] = owners`.
unfoldable pub own :
    Text → List Assignment → List (Text × List Assignment) → List (Text × List Assignment)
own k os [] = (k, os) ∷ []
own k os ((j, ps) ∷ m) = if text_eq j k then (j, os) ∷ m else (j, ps) ∷ own k os m

abbrev pub seen_before : Text → List Text → Bool
seen_before t = any (λ s. text_eq s t)

-- Each target of an overlap is counted once.
unfoldable pub bump_distinct : List Text → List Assignment → List (Text × ℕ) → List (Text × ℕ)
unfolding bump
bump_distinct seen [] counts = counts
bump_distinct seen (o ∷ os) counts =
    let old = seen_before o.target seen in
    bump_distinct (if old then seen else o.target ∷ seen) os
      (if old then counts else bump o.target counts)

-- `assignments[i]` changed in place.
unfoldable pub modify_at : {A : Type 0} → ℕ → (A → A) → List A → List A
modify_at i f [] = []
modify_at zero f (x ∷ xs) = f x ∷ xs
modify_at (suc i) f (x ∷ xs) = x ∷ modify_at i f xs

-- What `visitDiffs` does with a match.
unfoldable pub add_owner : Assignment → ℕ → List (List Assignment) → List (List Assignment)
unfolding modify_at
add_owner a i = modify_at i (λ os. os ++ (a ∷ []))

-- The variables of the second loop of `Evaluate`.
pub record Tally : Type 0 where
  pub ownership : List (Text × List Assignment)
  pub uncovered : List Atom
  pub overlaps : List Overlap
  pub counts : List (Text × ℕ)

unfoldable pub tally_atom : Atom → List Assignment → Tally → Tally
unfolding own bump bump_distinct
tally_atom atom [] t = record t { uncovered = t.uncovered ++ (atom ∷ []) }
tally_atom atom (o ∷ []) t = record t {
  ownership = own atom.key (o ∷ []) t.ownership;
  counts = bump o.target t.counts;
}
tally_atom atom (o ∷ p ∷ os) t = record t {
  ownership = own atom.key (o ∷ p ∷ os) t.ownership;
  overlaps = t.overlaps ++ (record { atom = atom; covered_by = o ∷ p ∷ os } ∷ []);
  counts = bump_distinct [] (o ∷ p ∷ os) t.counts;
}

-- The atoms and their owners have one length.
unfoldable pub tally : List Atom → List (List Assignment) → Tally → Tally
unfolding tally_atom
tally [] assignments t = t
tally (atom ∷ atoms) [] t = t
tally (atom ∷ atoms) (os ∷ assignments) t = tally atoms assignments (tally_atom atom os t)

unfoldable pub new_report : Validation → ChangeSet → Report
new_report validation changes = record {
  complete = false;
  coverage_scope = codes "mapping_only";
  summary = record {
    total = 0;
    covered = 0;
    uncovered = 0;
    overlapping = 0;
    orphaned = 0;
    saga_changes = 0;
  };
  uncovered = [];
  overlaps = [];
  orphans = [];
  targets = [];
  saga_changes = changes.saga_changes;
  repository = changes.repository;
  base = changes.base;
  head = changes.head;
  base_oid = changes.base_oid;
  head_oid = changes.head_oid;
  schema_valid = validation.valid;
  schema_issues = validation.issues;
  ownership = [];
}

-- `sort.Slice` by the target. No two entries have one target, so every sort gives this order.
unfoldable pub insert_target : Text × ℕ → List TargetSummary → List TargetSummary
insert_target (t, n) [] = record { target = t; covered = n } ∷ []
insert_target (t, n) (u ∷ us) =
    if text_lt u.target t
    then u ∷ insert_target (t, n) us
    else record { target = t; covered = n } ∷ u ∷ us

unfoldable pub sorted_targets : List (Text × ℕ) → List TargetSummary
unfolding insert_target
sorted_targets [] = []
sorted_targets (c ∷ cs) = insert_target c (sorted_targets cs)

unfoldable pub finish_report : Report → List (Text × ℕ) → ℕ → ℕ → ℕ → ℕ → Report
unfolding sorted_targets
finish_report report counts total uncovered overlapping saga_changes = record report {
  targets = sorted_targets counts;
  summary = record {
    total = total;
    covered = total - uncovered;
    uncovered = uncovered;
    overlapping = overlapping;
    orphaned = length report.orphans;
    saga_changes = saga_changes;
  };
  complete = report.schema_valid && uncovered == 0 && length report.orphans == 0;
}

-- `Evaluate` behind the pass over the evidence: what it reports of the orphans and the owners.
unfoldable pub evaluate_pass :
    Validation → ChangeSet → List Orphan → List (List Assignment) → Report
unfolding tally new_report finish_report
evaluate_pass validation changes orphans assignments =
    let t =
      tally changes.atoms assignments
        (record { ownership = []; uncovered = []; overlaps = []; counts = [] }) in
    finish_report
      (record (new_report validation changes) {
        orphans = orphans;
        ownership = t.ownership;
        uncovered = t.uncovered;
        overlaps = t.overlaps;
      })
      t.counts (length changes.atoms) (length t.uncovered) (length t.overlaps)
      (length changes.saga_changes)

-- `len(owners) > 0`.
abbrev pub has_owner : List Assignment → Bool
has_owner [] = false
has_owner (o ∷ os) = true

-- The atoms that have an owner, in order.
unfoldable pub owned : List Atom → List (List Assignment) → List Atom
owned [] assignments = []
owned (atom ∷ atoms) [] = []
owned (atom ∷ atoms) (os ∷ assignments) =
    let rest = owned atoms assignments in if has_owner os then atom ∷ rest else rest

module _ (parser : UriParser) (changes : ChangeSet) where
  -- A pass before the first visit.
  abbrev pub start : {S : Type 0} → S → Pass S
  start state = record { index = build_index parser changes; orphans = []; state = state }

  unfoldable pub evaluate : Section → Validation → Report
  unfolding add_owner evaluate_pass
  evaluate document validation =
      let pass =
        visit_all parser add_owner (document_visits document)
          (start (map (λ _. []) changes.atoms)) in
      evaluate_pass validation changes pass.orphans pass.state

  unfoldable pub select_target : List DiffFile → List Atom
  unfolding add_owner owned
  select_target files =
      let pass = visit_files parser add_owner [] files (start (map (λ _. []) changes.atoms)) in
      owned changes.atoms pass.state
