-- ===== src/Coverage/Report/Agree.antt =====
-- `EvaluateSummary` gives the verdict, the counts, the target rollups and the orphans of `Evaluate`.
pub mod Kept
pub mod Counters
use changesaga.Prelude.{
  ℕ, zero, suc, ◌+◌, ◌≡◌, refl, sym, ap, ◌∙◌, ◌≢◌, true, false, List, [], ◌∷◌, map, Option, some,
  Text, ◌==◌, length, length-append, All, All-append, get_elem?, Bool-cases, inl, inr, arith, ltb,
  subst, ==_iff,
}
use mathlib.Core.Option
use changesaga.DiffUri.{Reference, UriParser}
use changesaga.GitDiff.{Atom, ChangeSet}
use changesaga.Saga.{DiffReference, DiffFile, Section, Validation}
use changesaga.Coverage.Index.{atom_reference}
use changesaga.Coverage.Index.Build.{references, build_index-IsIndexOf}
use changesaga.Coverage.Visit.{Assignment, Orphan, Pass, Visit, document_visits}
use changesaga.Coverage.Visit.Owners.{
  Claim, claims_atom, owners, orphans_of, claims_of, claims_of_files, claims_of_references,
  visit_claims, visit_all-claims,
}
use changesaga.Coverage.Visit.Observe.{
  IsLocal, answered, reference_at, visit_claims-at, visit_claims-orphans,
}
use changesaga.Coverage.Report.{
  Tally, tally_atom, tally, new_report, finish_report, evaluate_pass, evaluate, start, bump,
  bump_distinct,
}
use changesaga.Coverage.Report.Rollup.{
  Counts, SummaryAssignment, SummaryState, target_at, add_summary_assignment, summarise_atom,
  summarise, summarise_pass, evaluate_summary, empty_summary, bump_all,
}
use changesaga.Coverage.Report.Complete.{overlap}
use changesaga.Coverage.Report.Evaluate.{
  plain_owners, plain_report, evaluate-plain_report, get_elem?-modify_at,
}
use changesaga.Coverage.Report.Distinct.{
  distinct_from, bump_distinct-bump_all, keep, answered-keep_first,
}
use changesaga.Coverage.Report.Agree.Kept.{HasTarget, kept_at, kept, add_summary_assignment-local}
use changesaga.Coverage.Report.Agree.Counters.{Agrees, paired, summarise-Agrees, zero_others}

-- The targets of a document's visits are names.
abbrev pub AllNamed : List Visit → Type 0
AllNamed = All (λ v. v.0 ≢ [])

abbrev Named : List Claim → Type 0
Named = All (λ c. c.assignment.target ≢ [])

claims_of_references-Named :
    (target path : Text) (i : ℕ) (rs : List DiffReference)
    → target ≢ []
    → Named (claims_of_references target path i rs)
claims_of_references-Named target path i [] h = tt
claims_of_references-Named target path i (r ∷ rs) h =
    (h, claims_of_references-Named target path (suc i) rs h)

claims_of_files-Named :
    (target : Text) (fs : List DiffFile) → target ≢ [] → Named (claims_of_files target fs)
claims_of_files-Named target [] h = tt
claims_of_files-Named target (f ∷ fs) h =
    All-append _ (claims_of_references target f.path 0 f.diffs) (claims_of_files target fs)
      (claims_of_references-Named target f.path 0 f.diffs h) (claims_of_files-Named target fs h)

claims_of-Named : (vs : List Visit) → AllNamed vs → Named (claims_of vs)
claims_of-Named [] h = tt
claims_of-Named ((target, files) ∷ vs) (hv, hs) =
    All-append _ (claims_of_files target files) (claims_of vs)
      (claims_of_files-Named target files hv) (claims_of-Named vs hs)

module _ (parser : UriParser) where
  owners-HasTarget :
      (cs : List Claim) (o : Option Reference) → Named cs → All HasTarget (owners parser cs o)
  unfolding owners
  owners-HasTarget [] o h = tt
  owners-HasTarget (c ∷ cs) o (hc, hs) = elim (Bool-cases (claims_atom parser c o)) [
    | inl e ↦ rw e (hc, owners-HasTarget cs o hs)
    | inr e ↦ rw e (owners-HasTarget cs o hs)
  ]

module _ (parser : UriParser) (changes : ChangeSet) where
  abbrev start_summary : SummaryState
  start_summary = record {
    assignments = map (λ _. empty_summary) changes.atoms;
    other_targets = λ _. [];
  }

  abbrev owners_of : List Claim → Atom → List Assignment
  owners_of cs a = owners parser cs (atom_reference parser changes a)

  position :
      (cs : List Claim) (atoms : List Atom) (j : ℕ)
      → Option.map
          (answered keep (owners parser cs (reference_at (references parser changes atoms) j)))
          (Option.map (λ s. (s, [])) (get_elem? (map (λ _. empty_summary) atoms) j))
        ≡ Option.map (λ a. kept (owners_of cs a)) (get_elem? atoms j)
  position cs [] j = refl
  position cs (atom ∷ atoms) zero = refl
  position cs (atom ∷ atoms) (suc j) = position cs atoms j

  abbrev visited : List Claim → Pass SummaryState
  visited cs = visit_claims parser add_summary_assignment cs (start parser changes start_summary)

  visited-kept :
      (cs : List Claim) (j : ℕ)
      → kept_at (visited cs).state j
        ≡ Option.map (λ a. kept (owners_of cs a)) (get_elem? changes.atoms j)
  visited-kept cs j =
      visit_claims-at parser kept_at add_summary_assignment keep add_summary_assignment-local
        (references parser changes changes.atoms) cs (start parser changes start_summary) j
        (build_index-IsIndexOf parser changes)
      ∙ position cs changes.atoms j

  visited_orphans :
      (cs : List Claim)
      → (visited cs).orphans ≡ orphans_of parser (references parser changes changes.atoms) cs
  visited_orphans cs =
      visit_claims-orphans parser kept_at add_summary_assignment keep add_summary_assignment-local
        (references parser changes changes.atoms) cs (start parser changes start_summary)
        (build_index-IsIndexOf parser changes)

  no_tally-Agrees :
      Agrees
        (record { ownership = []; uncovered = []; overlaps = []; counts = [] })
        (record { uncovered = 0; overlapping = 0; counts = [] })
  no_tally-Agrees = record { uncovered = refl; overlapping = refl; counts = refl }

  pass_agrees :
      (validation : Validation) (orphans : List Orphan) (st : SummaryState)
      (f : Atom → List Assignment)
      → ((a : Atom) → All HasTarget (f a))
      → ((j : ℕ) → kept_at st j ≡ Option.map (λ a. kept (f a)) (get_elem? changes.atoms j))
      → let r = summarise_pass validation changes orphans st in
        let q = evaluate_pass validation changes orphans (map f changes.atoms) in
        (r.summary ≡ q.summary)
        × (r.targets ≡ q.targets)
        × (r.orphans ≡ q.orphans)
        × (r.complete ≡ q.complete)
  unfolding summarise_pass evaluate_pass finish_report new_report
  pass_agrees validation orphans st f named same =
      let agrees =
        summarise-Agrees f changes.atoms 0 st.assignments st.other_targets _ _ named
          (λ j. zero_others j st ∙ same j) no_tally-Agrees in
      (rw (agrees.uncovered, agrees.overlapping), rw agrees.counts, refl, rw agrees.uncovered)

  visits_agree :
      (document : Section) (validation : Validation)
      → AllNamed (document_visits document)
      → let r = evaluate_summary parser changes document validation in
        let q = plain_report parser changes document validation in
        (r.summary ≡ q.summary)
        × (r.targets ≡ q.targets)
        × (r.orphans ≡ q.orphans)
        × (r.complete ≡ q.complete)
  unfolding evaluate_summary plain_report plain_owners
  visits_agree document validation named =
      let cs = claims_of (document_visits document) in
      rw (visit_all-claims parser add_summary_assignment (document_visits document) _) (
        rw (visited_orphans cs) (
          pass_agrees validation (orphans_of parser (references parser changes changes.atoms) cs)
            (visited cs).state (owners_of cs)
            (λ a.
              owners-HasTarget parser cs (atom_reference parser changes a)
                (claims_of-Named _ named))
            (visited-kept cs)))

  -- `EvaluateSummary`, which keeps no list of owners, agrees with `Evaluate` on the counts, the
  -- rollups by target, the orphans and the verdict, if every visited target has a name.
  pub evaluate_summary-evaluate :
      (document : Section) (validation : Validation)
      → AllNamed (document_visits document)
      → let r = evaluate_summary parser changes document validation in
        let q = evaluate parser changes document validation in
        (r.summary ≡ q.summary)
        × (r.targets ≡ q.targets)
        × (r.orphans ≡ q.orphans)
        × (r.complete ≡ q.complete)
  evaluate_summary-evaluate document validation named =
      rw (evaluate-plain_report parser changes document validation)
        (visits_agree document validation named)
