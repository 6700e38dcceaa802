-- ===== src/Coverage/Report/Rollup.antt =====
-- `EvaluateSummary`: the report without the owners.
use changesaga.Prelude.{
  ℕ, zero, suc, ◌+◌, List, [], ◌∷◌, ◌++◌, map, Text, text_eq, ltb, ◌==◌, if◌then◌else◌, length,
}
use changesaga.DiffUri.{UriParser}
use changesaga.GitDiff.{ChangeSet}
use changesaga.Saga.{Section, Validation}
use changesaga.Coverage.Index.{is_empty}
use changesaga.Coverage.Visit.{Assignment, Orphan, document_visits, visit_all}
use changesaga.Coverage.Report.{
  start, Report, bump, seen_before, modify_at, new_report, finish_report,
}

-- What the loops of `EvaluateSummary` keep for the atoms: a count and a first target each, and, in a
-- map by position, the further targets.
pub record SummaryAssignment : Type 0 where
  pub owners : ℕ
  pub first_target : Text

pub record SummaryState : Type 0 where
  pub assignments : List SummaryAssignment
  pub other_targets : ℕ → List Text

-- `addSummaryAssignment` on one atom: its assignment and its further targets.
unfoldable pub add_target : Text → SummaryAssignment × List Text → SummaryAssignment × List Text
add_target t (s, others) =
    let counted = record s { owners = s.owners + 1 } in
    if is_empty s.first_target
    then (record counted { first_target = t }, others)
    else if text_eq s.first_target t
    then (counted, others)
    else if seen_before t others
    then (counted, others)
    else (counted, others ++ (t ∷ []))

unfoldable pub target_at : ℕ → List SummaryAssignment → SummaryAssignment
target_at i [] = record { owners = 0; first_target = [] }
target_at zero (x ∷ xs) = x
target_at (suc i) (x ∷ xs) = target_at i xs

unfoldable pub add_summary_assignment : Assignment → ℕ → SummaryState → SummaryState
unfolding add_target modify_at target_at
add_summary_assignment a i st =
    let (s, others) = add_target a.target (target_at i st.assignments, st.other_targets i) in
    record {
      assignments = modify_at i (λ _. s) st.assignments;
      other_targets = λ j. if j == i then others else st.other_targets j;
    }

unfoldable pub bump_all : List Text → List (Text × ℕ) → List (Text × ℕ)
unfolding bump
bump_all [] counts = counts
bump_all (t ∷ ts) counts = bump_all ts (bump t counts)

-- The variables of the second loop of `EvaluateSummary`.
pub record Counts : Type 0 where
  pub uncovered : ℕ
  pub overlapping : ℕ
  pub counts : List (Text × ℕ)

unfoldable pub summarise_atom : SummaryAssignment → List Text → Counts → Counts
unfolding bump bump_all
summarise_atom s others c =
    if s.owners == 0 then record c { uncovered = c.uncovered + 1 } else record c {
      overlapping = if ltb 1 s.owners then c.overlapping + 1 else c.overlapping;
      counts = bump_all others (bump s.first_target c.counts);
    }

unfoldable pub summarise : ℕ → List SummaryAssignment → (ℕ → List Text) → Counts → Counts
unfolding summarise_atom
summarise i [] others c = c
summarise i (s ∷ ss) others c = summarise (suc i) ss others (summarise_atom s (others i) c)

-- `EvaluateSummary` behind the pass.
unfoldable pub summarise_pass : Validation → ChangeSet → List Orphan → SummaryState → Report
unfolding summarise new_report finish_report
summarise_pass validation changes orphans st =
    let c =
      summarise 0 st.assignments st.other_targets
        (record { uncovered = 0; overlapping = 0; counts = [] }) in
    finish_report (record (new_report validation changes) { orphans = orphans }) c.counts
      (length changes.atoms) c.uncovered c.overlapping (length changes.saga_changes)

abbrev pub empty_summary : SummaryAssignment
empty_summary = record { owners = 0; first_target = [] }

module _ (parser : UriParser) (changes : ChangeSet) where
  unfoldable pub evaluate_summary : Section → Validation → Report
  unfolding add_summary_assignment summarise_pass
  evaluate_summary document validation =
      let pass = visit_all parser add_summary_assignment (document_visits document) (
        start parser changes (record {
          assignments = map (λ _. empty_summary) changes.atoms;
          other_targets = λ _. [];
        })) in
      summarise_pass validation changes pass.orphans pass.state
