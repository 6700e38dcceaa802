-- ===== src/Tests/Readiness.antt =====
-- internal/readiness at fixed inputs.
use changesaga.Prelude.{
  ◌≡◌, refl, ◌≢◌, ◌↔◌, true, false, List, [], ◌∷◌, map, codes, Text, All, sort_by, text_lt, text_eq,
}
use changesaga.Readiness.{Criterion, urn_lt, project, evaluate}
use changesaga.Readiness.Delivered.{is_delivered}
use changesaga.Readiness.Axes.{Counts, evaluate-Counts, evaluate-ready}

abbrev criterion : Text → List Text → Criterion
criterion urn evidence = record {
  urn = urn;
  designed = false;
  planned = true;
  evidence = evidence;
  direct_blockers =
      record { code = codes "design_missing"; resource = []; detail = []; path = [] } ∷ [];
  upstream_paths = [];
}

abbrev criteria : List Criterion
criteria = criterion (codes "b") ([] ∷ codes "e" ∷ []) ∷ criterion (codes "a") (codes "e" ∷ []) ∷ []

evaluate-Counts_example :
    let p = evaluate criteria in
    Counts (λ c. c.designed) criteria p.requirement_coverage
    × Counts (λ c. c.planned) criteria p.plan_coverage
    × Counts is_delivered criteria p.delivery_coverage
    × (p.criteria ≡ map project (sort_by urn_lt criteria))
evaluate-Counts_example = evaluate-Counts criteria

evaluate-ready_example :
    ((evaluate criteria).peer_review_ready ≡ true)
    ↔ ((criteria ≢ []) × All (λ c. is_delivered c ≡ true) criteria)
evaluate-ready_example = evaluate-ready criteria

-- A missing design does not stand in the way of the review.
ready_run : (evaluate criteria).peer_review_ready ≡ true
unfolding evaluate sort_by text_lt text_eq
ready_run = refl
