-- ===== src/Coverage/Report/Agree/Kept.antt =====
-- What `EvaluateSummary` keeps of the owners of one atom, position by position.
use changesaga.Prelude.{
  ℕ, zero, suc, ◌≡◌, refl, ◌≢◌, true, false, List, [], ◌∷◌, Option, some, Text, ◌==◌, get_elem?,
  Bool-cases, inl, inr, arith, subst, ==_iff,
}
use mathlib.Core.Option
use changesaga.Coverage.Visit.{Assignment}
use changesaga.Coverage.Visit.Observe.{IsLocal, answered}
use changesaga.Coverage.Report.Rollup.{
  SummaryAssignment, SummaryState, target_at, add_summary_assignment, empty_summary,
}
use changesaga.Coverage.Report.Evaluate.{get_elem?-modify_at}
use changesaga.Coverage.Report.Distinct.{keep}

abbrev pub HasTarget : Assignment → Type 0
HasTarget a = a.target ≢ []

-- What the summary keeps of the atom at a position.
abbrev pub kept_at : SummaryState → ℕ → Option (SummaryAssignment × List Text)
kept_at st j = Option.map (λ s. (s, st.other_targets j)) (get_elem? st.assignments j)

target_at-get_elem? :
    (i : ℕ) (xs : List SummaryAssignment) {x : SummaryAssignment}
    → get_elem? xs i ≡ some x
    → target_at i xs ≡ x
unfolding target_at
target_at-get_elem? i [] h = cc
target_at-get_elem? zero (x ∷ xs) h = cc
target_at-get_elem? (suc i) (x ∷ xs) h = target_at-get_elem? i xs h

modified_same :
    (f : SummaryAssignment × List Text → SummaryAssignment × List Text) (i : ℕ) (os : List Text)
    (xs : List SummaryAssignment)
    → Option.map
        (λ s. (s, (f (target_at i xs, os)).1))
        (Option.map (λ _. (f (target_at i xs, os)).0) (get_elem? xs i))
      ≡ Option.map f (Option.map (λ s. (s, os)) (get_elem? xs i))
unfolding target_at
modified_same f i os [] = refl
modified_same f zero os (x ∷ xs) = refl
modified_same f (suc i) os (x ∷ xs) = modified_same f i os xs

==_refl : (i : ℕ) → (i == i) ≡ true
==_refl i = ground arith

kept_at_same :
    (a : Assignment) (i : ℕ) (st : SummaryState)
    → kept_at (add_summary_assignment a i st) i ≡ Option.map (keep a) (kept_at st i)
unfolding add_summary_assignment
kept_at_same a i st =
    rw (get_elem?-modify_at _ i i st.assignments, ==_refl i)
      (modified_same (keep a) i (st.other_targets i) st.assignments)

kept_at_other :
    (a : Assignment) (i j : ℕ) (st : SummaryState)
    → (i == j) ≡ false
    → kept_at (add_summary_assignment a i st) j ≡ kept_at st j
unfolding add_summary_assignment
kept_at_other a i j st e =
    let back : (j == i) ≡ false = ground arith in
    rw (get_elem?-modify_at _ i j st.assignments, e, back)

pub add_summary_assignment-local : IsLocal kept_at add_summary_assignment keep
add_summary_assignment-local a i st j = elim (Bool-cases (i == j)) [
  | inl e ↦ rw e (
      subst (λ k. kept_at (add_summary_assignment a i st) k ≡ Option.map (keep a) (kept_at st k))
        ((==_iff i j).0 e) (kept_at_same a i st))
  | inr e ↦ rw e (kept_at_other a i j st e)
]

-- The owners found for each atom, as the summary keeps them.
abbrev pub kept : List Assignment → SummaryAssignment × List Text
kept os = answered keep os (empty_summary, [])
