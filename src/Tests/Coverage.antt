-- ===== src/Tests/Coverage.antt =====
-- internal/coverage at fixed inputs: a document with two evidence files on a comparison of three
-- lines and a rename.
use changesaga.Prelude.{
  ℕ, ◌≤◌, ◌+◌, ◌≡◌, refl, ◌↔◌, true, false, not, List, [], ◌∷◌, map, length, filter, count_if, All,
  Text, codes, text_eq, if◌then◌else◌, text_lt, Result, ok, err, arith,
}
use changesaga.DiffUri.{Reference, UriParser, matches}
use changesaga.GitDiff.{Atom, ChangeSet}
use changesaga.Saga.{DiffFile, Section, section, nil, cons, SectionData, Validation}
use changesaga.Coverage.Index.{build_index, candidates, atom_reference}
use changesaga.Coverage.Index.Build.{indexed_from, references, build_index-IsIndexOf}
use changesaga.Coverage.Index.Candidates.{candidates_complete}
use changesaga.Coverage.Visit.{document_visits, visit_all, visit_files}
use changesaga.Coverage.Visit.Owners.{orphans_of, claims_of_files}
use changesaga.Coverage.Report.{evaluate, select_target, finish_report, tally}
use changesaga.Coverage.Report.Rollup.{evaluate_summary}
use changesaga.Coverage.Report.Evaluate.{
  plain_report, evaluate-plain_report, is_claimed, select_target-filter,
}
use changesaga.Coverage.Report.Complete.{
  evidence, atom_owners, is_covered, shared, evaluate_accounts, evaluate_complete,
}
use changesaga.Coverage.Report.Agree.{evaluate_summary-evaluate}

-- A selector of lines of one file.
abbrev pub lines_of : Text → ℕ → ℕ → Reference
lines_of path start end = record {
  repository = codes "r";
  base_oid = codes "b";
  head_oid = codes "h";
  kind = codes "line";
  path = path;
  side = codes "new";
  start = start;
  end = end;
  event = [];
  old_path = [];
  new_path = [];
}

-- A parser of three texts.
unfoldable pub parse_sample : Text → Result Text Reference
parse_sample t =
    if text_eq t (codes "x1-2")
    then ok (lines_of (codes "x") 1 2)
    else if text_eq t (codes "x2-9")
    then ok (lines_of (codes "x") 2 9)
    else if text_eq t (codes "y1-1")
    then ok (lines_of (codes "y") 1 1)
    else err (codes "no URI")

pub parse_sample-ordered : (uri : Text) (r : Reference) → parse_sample uri ≡ ok r → r.start ≤ r.end
unfolding parse_sample
parse_sample-ordered uri r h = ground arith

abbrev pub sample : UriParser
sample = record { parse = parse_sample; ordered = parse_sample-ordered }

abbrev pub line_atom : Text → ℕ → Text → Atom
line_atom path line key = record {
  key = key;
  uri = [];
  kind = codes "line";
  path = path;
  side = codes "new";
  line = line;
  content = [];
  event = [];
  old_path = [];
  new_path = [];
}

abbrev pub changes : ChangeSet
changes = record {
  repository = codes "r";
  base = codes "main";
  head = codes "topic";
  base_oid = codes "b";
  head_oid = codes "h";
  atoms =
      line_atom (codes "x") 2 (codes "k2")
      ∷ line_atom (codes "x") 1 (codes "k1")
      ∷ line_atom (codes "x") 3 (codes "k3")
      ∷ [];
  saga_changes = [];
  display_lines = [];
}

abbrev pub cites : Text → DiffFile
cites uri = record { path = codes "f"; version = 1; diffs = record { uri = uri; note = [] } ∷ [] }

abbrev pub node : Text → List DiffFile → SectionData
node target files = record {
  path = [];
  kind = [];
  id = [];
  title = [];
  target = target;
  fragments = [];
  diffs = files;
}

abbrev pub document : Section
document = section (node (codes "root") (cites (codes "x1-2") ∷ [])) (
    cons (section (node (codes "child") (cites (codes "x2-9") ∷ cites (codes "y1-1") ∷ [])) nil)
      nil)

abbrev pub validation : Validation
validation = record { valid = true; issues = [] }

evaluate-plain_report_example :
    evaluate sample changes document validation ≡ plain_report sample changes document validation
evaluate-plain_report_example = evaluate-plain_report sample changes document validation

evaluate_complete_example : ((evaluate sample changes document validation).complete ≡ true) ↔ (
    (true ≡ true)
    × All (λ a. is_covered sample changes document validation a ≡ true) changes.atoms
    × (orphans_of sample
          (references sample changes changes.atoms)
          (evidence sample changes document validation)
        ≡ []))
evaluate_complete_example = evaluate_complete sample changes document validation

evaluate_accounts_example :
    let r = evaluate sample changes document validation in
    (r.uncovered
      ≡ filter (λ a. not (is_covered sample changes document validation a)) changes.atoms)
    × (r.overlaps ≡ shared (atom_owners sample changes document validation) changes.atoms)
    × (r.summary.covered
        ≡ length (filter (is_covered sample changes document validation) changes.atoms))
    × (r.summary.covered + r.summary.uncovered ≡ 3)
    × (r.summary.overlapping ≡ length r.overlaps)
evaluate_accounts_example = evaluate_accounts sample changes document validation

evaluate_summary-evaluate_example :
    let r = evaluate_summary sample changes document validation in
    let q = evaluate sample changes document validation in
    (r.summary ≡ q.summary)
    × (r.targets ≡ q.targets)
    × (r.orphans ≡ q.orphans)
    × (r.complete ≡ q.complete)
unfolding document_visits
evaluate_summary-evaluate_example =
    evaluate_summary-evaluate sample changes document validation (λ e. cc, (λ e. cc, tt))

select_target-filter_example :
    select_target sample changes (cites (codes "x2-9") ∷ [])
    ≡ filter
        (λ a.
          is_claimed sample
            (claims_of_files [] (cites (codes "x2-9") ∷ []))
            (atom_reference sample changes a))
        changes.atoms
select_target-filter_example = select_target-filter sample changes (cites (codes "x2-9") ∷ [])

candidates_complete_example :
    count_if
      (λ c. matches (lines_of (codes "x") 1 2) c.reference)
      (candidates (lines_of (codes "x") 1 2) (build_index sample changes)).1
    ≡ count_if
        (λ c. matches (lines_of (codes "x") 1 2) c.reference)
        (indexed_from 0 (references sample changes changes.atoms))
candidates_complete_example =
    candidates_complete (λ c. matches (lines_of (codes "x") 1 2) c.reference)
      (lines_of (codes "x") 1 2) (indexed_from 0 (references sample changes changes.atoms))
      (build_index sample changes) (build_index-IsIndexOf sample changes) (omega arith) (λ c e. e)

-- Line 2 has two owners; the third claim, on another file, is the one orphan.
sample_run :
    let r = evaluate sample changes document validation in
    (r.summary ≡ record {
      total = 3;
      covered = 3;
      uncovered = 0;
      overlapping = 1;
      orphaned = 1;
      saga_changes = 0;
    })
    × (r.complete ≡ false)
    × (map (λ t. t.covered) r.targets ≡ 2 ∷ 2 ∷ [])
unfolding evaluate document_visits build_index candidates matches text_eq parse_sample visit_all
    visit_files tally finish_report text_lt
sample_run = (refl, refl, refl)
