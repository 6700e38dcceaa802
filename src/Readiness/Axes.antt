-- ===== src/Readiness/Axes.antt =====
-- What a projection counts, and what its verdict says.
use changesaga.Prelude.{
  ℕ, ◌+◌, ◌≡◌, refl, ◌≢◌, ◌↔◌, sym, ◌∙◌, Bool, true, not, ◌&&◌, List, [], ◌∷◌, ◌++◌, map,
  append_assoc, append-nil, sort_by, count_if-sort_by, length-sort_by, all-count_if, length,
  count_if, all, All, ltb, ◌==◌, Bool-cases, inl, inr, arith,
}
use changesaga.Readiness.{
  Criterion, Axis, Projection, urn_lt, project, evaluate_each, close, evaluate,
}
use changesaga.Readiness.Delivered.{is_delivered, project-is_delivered}

-- What the loop has counted and appended.
each-requirement :
    (cs : List Criterion) (p : Projection)
    → (evaluate_each cs p).requirement_coverage.covered
      ≡ p.requirement_coverage.covered + count_if (λ c. c.designed) cs
unfolding evaluate_each
each-requirement [] p = omega arith
each-requirement (c ∷ cs) p = each-requirement cs _ ∙ ground arith

each-plan :
    (cs : List Criterion) (p : Projection)
    → (evaluate_each cs p).plan_coverage.covered
      ≡ p.plan_coverage.covered + count_if (λ c. c.planned) cs
unfolding evaluate_each
each-plan [] p = omega arith
each-plan (c ∷ cs) p = each-plan cs _ ∙ ground arith

each-delivery :
    (cs : List Criterion) (p : Projection)
    → (evaluate_each cs p).delivery_coverage.covered
      ≡ p.delivery_coverage.covered + count_if is_delivered cs
unfolding evaluate_each
each-delivery [] p = omega arith
each-delivery (c ∷ cs) p = each-delivery cs _ ∙ rw (project-is_delivered c) (ground arith)

each-criteria :
    (cs : List Criterion) (p : Projection)
    → (evaluate_each cs p).criteria ≡ p.criteria ++ map project cs
unfolding evaluate_each
each-criteria [] p = sym (append-nil p.criteria)
each-criteria (c ∷ cs) p =
    each-criteria cs _ ∙ append_assoc p.criteria (project c ∷ []) (map project cs)

-- The axis counts the criteria that pass the test, and the rest as missing.
abbrev pub Counts : (Criterion → Bool) → List Criterion → Axis → Type 0
Counts p cs a =
    (a.total ≡ length cs) × (a.covered ≡ count_if p cs) × (a.missing ≡ count_if (λ c. not (p c)) cs)

count_if_split :
    {A : Type 0} (p : A → Bool) (xs : List A)
    → count_if p xs + count_if (λ x. not (p x)) xs ≡ length xs
count_if_split p [] = omega arith
count_if_split p (x ∷ xs) = ground (arith, count_if_split p xs)

close-Counts :
    (p : Criterion → Bool) (cs : List Criterion) (n : ℕ)
    → n ≡ count_if p (sort_by urn_lt cs)
    → Counts p cs
        (close (length (sort_by urn_lt cs)) (record { total = 0; covered = n; missing = 0 }))
close-Counts p cs n h = (
  length-sort_by urn_lt cs,
  h ∙ count_if-sort_by urn_lt p cs,
  omega (arith, length-sort_by urn_lt cs, h, count_if-sort_by urn_lt p cs, count_if_split p cs),
)

-- The three axes count, each for itself, the designed, the planned and the delivered criteria, where
-- delivered means that some evidence has a text, that no blocker other than a missing design or work
-- item stands, and that no path leads upstream. The results stand in the order of the URNs.
pub evaluate-Counts :
    (cs : List Criterion)
    → let p = evaluate cs in
      Counts (λ c. c.designed) cs p.requirement_coverage
      × Counts (λ c. c.planned) cs p.plan_coverage
      × Counts is_delivered cs p.delivery_coverage
      × (p.criteria ≡ map project (sort_by urn_lt cs))
unfolding evaluate
evaluate-Counts cs = (
  close-Counts _ cs _ (each-requirement (sort_by urn_lt cs) _ ∙ omega arith),
  close-Counts _ cs _ (each-plan (sort_by urn_lt cs) _ ∙ omega arith),
  close-Counts _ cs _ (each-delivery (sort_by urn_lt cs) _ ∙ omega arith),
  each-criteria (sort_by urn_lt cs) _,
)

verdict :
    (cs : List Criterion)
    → let p = evaluate cs in
      p.peer_review_ready ≡ (ltb 0 p.delivery_coverage.total && p.delivery_coverage.missing == 0)
unfolding evaluate
verdict cs = refl

all-All : {A : Type 0} (p : A → Bool) (xs : List A) → (all p xs ≡ true) ↔ All (λ x. p x ≡ true) xs
all-All p [] = (λ h. tt, λ h. refl)
all-All p (x ∷ xs) = elim (Bool-cases (p x)) [
  | inl e ↦ rw e (λ h. (refl, (all-All p xs).0 h), λ h. (all-All p xs).1 h.1)
  | inr e ↦ rw e (λ h. cc, λ h. cc (h.0))
]

ready-all :
    (cs : List Criterion)
    → (evaluate cs).peer_review_ready ≡ (ltb 0 (length cs) && all is_delivered cs)
ready-all cs =
    let (total, covered, missing) = (evaluate-Counts cs).2 in
    verdict cs ∙ rw (total, missing, all-count_if is_delivered cs)

-- A Saga is ready for peer review exactly if it has a criterion and every criterion is delivered:
-- neither a design nor a plan of work is asked for.
pub evaluate-ready :
    (cs : List Criterion)
    → ((evaluate cs).peer_review_ready ≡ true) ↔ ((cs ≢ []) × All (λ c. is_delivered c ≡ true) cs)
evaluate-ready [] = rw (ready-all []) (λ h. cc, λ h. absurd (h.0 refl))
evaluate-ready (c ∷ cs) =
    let each = all-All is_delivered (c ∷ cs) in
    (λ h. (λ e. cc, each.0 (sym (nonempty c cs) ∙ h)), λ h. nonempty c cs ∙ each.1 h.1)
  where
    nonempty :
        (d : Criterion) (ds : List Criterion)
        → (evaluate (d ∷ ds)).peer_review_ready ≡ all is_delivered (d ∷ ds)
    nonempty d ds = ready-all (d ∷ ds) ∙ ground arith
