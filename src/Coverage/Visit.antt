-- ===== src/Coverage/Visit.antt =====
-- The walk over the document's evidence: `walkDocumentDiffs`, `walkSections`, and the common shape of
-- `visitDiffs` and `visitDiffsSummary`, which differ in what they do with a matched atom.
pub mod Owners
pub mod Observe
use changesaga.Prelude.{
  ℕ, zero, suc, ◌+◌, Bool, true, false, List, [], ◌∷◌, ◌++◌, Text, codes, ◌==◌, if◌then◌else◌,
  Result, ok, err,
}
use changesaga.DiffUri.{Reference, UriParser, matches}
use changesaga.Saga.{
  DiffReference, DiffFile, Landmark, Fragment, SectionData, Section, Sections, section, nil, cons,
}
use changesaga.Coverage.Index.{IndexedAtom, AtomIndex, candidates}

pub record Assignment : Type 0 where
  pub target : Text
  pub diff_file : Text
  pub diff : ℕ

pub record Orphan : Type 0 where
  pub assignment : Assignment
  pub reference : DiffReference
  pub reason : Text

-- What one pass over the evidence changes: the index, which sorts itself when it is asked, the
-- orphans, and the state of the caller.
pub record Pass (S : Type 0) : Type 0 where
  pub index : AtomIndex
  pub orphans : List Orphan
  pub state : S

abbrev pub mismatch : Text
mismatch = codes "diff URI does not match the current source comparison"

-- A target with its evidence files, in the order of the visits.
abbrev pub Visit : Type 0
Visit = Text × List DiffFile

unfoldable pub landmark_visits : List Landmark → List Visit
landmark_visits [] = []
landmark_visits (l ∷ ls) = (l.target, l.diffs) ∷ landmark_visits ls

unfoldable pub fragment_visits : List Fragment → List Visit
unfolding landmark_visits
fragment_visits [] = []
fragment_visits (f ∷ fs) = (f.target, f.diffs) ∷ landmark_visits f.landmarks ++ fragment_visits fs

-- `walkSections` with the callback of `walkDocumentDiffs`: a section other than the document's own,
-- then its fragments and their landmarks, then its children.
unfoldable mutual
  unfolding fragment_visits

  pub section_visits : Section → List Visit
  section_visits (section d children) =
      ((d.target, d.diffs) ∷ fragment_visits d.fragments) ++ children_visits children

  pub children_visits : Sections → List Visit
  children_visits nil = []
  children_visits (cons s ss) = section_visits s ++ children_visits ss

-- The document's own section comes first, before the walk, which then passes it over.
unfoldable pub document_visits : Section → List Visit
unfolding section_visits children_visits fragment_visits
document_visits (section d children) =
    (d.target, d.diffs) ∷ (fragment_visits d.fragments ++ children_visits children)

module _ {S : Type 0} (add : Assignment → ℕ → S → S) where
  -- The loop over the candidates: the state and the number of matches.
  unfoldable pub visit_candidates : Assignment → Reference → List IndexedAtom → S → ℕ → S × ℕ
  visit_candidates a selector [] s matched = (s, matched)
  visit_candidates a selector (c ∷ cs) s matched =
      let found = matches selector c.reference in
      visit_candidates a selector cs (if found then add a c.index s else s)
        (if found then suc matched else matched)

module _ (parser : UriParser) {S : Type 0} (add : Assignment → ℕ → S → S) where
  -- The body of the loop over the references of a file, behind the parse of the URI.
  unfoldable pub visit_parsed : Assignment → DiffReference → Pass S → Result Text Reference → Pass S
  unfolding visit_candidates
  visit_parsed a reference p (err reason) = record p {
    orphans = p.orphans ++ (record { assignment = a; reference = reference; reason = reason } ∷ []);
  }
  visit_parsed a reference p (ok selector) =
      let (index, cs) = candidates selector p.index in
      let (s, matched) = visit_candidates add a selector cs p.state 0 in
      record {
        index = index;
        orphans =
            if matched == 0
            then p.orphans
              ++ (record { assignment = a; reference = reference; reason = mismatch } ∷ [])
            else p.orphans;
        state = s;
      }

  unfoldable pub visit_reference : Assignment → DiffReference → Pass S → Pass S
  unfolding visit_parsed
  visit_reference a reference p = visit_parsed a reference p (parser.parse reference.uri)

  -- `Diff` counts the references of a file from 1.
  unfoldable pub visit_references : Text → Text → ℕ → List DiffReference → Pass S → Pass S
  unfolding visit_reference
  visit_references target path i [] p = p
  visit_references target path i (r ∷ rs) p =
      visit_references target path (suc i) rs
        (visit_reference (record { target = target; diff_file = path; diff = i + 1 }) r p)

  unfoldable pub visit_files : Text → List DiffFile → Pass S → Pass S
  unfolding visit_references
  visit_files target [] p = p
  visit_files target (f ∷ fs) p = visit_files target fs (visit_references target f.path 0 f.diffs p)

  unfoldable pub visit_all : List Visit → Pass S → Pass S
  unfolding visit_files
  visit_all [] p = p
  visit_all ((target, files) ∷ vs) p = visit_all vs (visit_files target files p)
