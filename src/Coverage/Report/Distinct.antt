-- ===== src/Coverage/Report/Distinct.antt =====
-- The distinct targets of an atom's owners, as the two evaluators find them.
use changesaga.Prelude.{
  ℕ, suc, ◌+◌, ◌≡◌, refl, ap, ◌∙◌, ◌≢◌, true, false, ◌||◌, List, [], ◌∷◌, ◌++◌, append_assoc,
  append-nil, Text, text_eq, if◌then◌else◌, length, Bool-cases, inl, inr, arith,
}
use changesaga.Coverage.Index.{is_empty}
use changesaga.Coverage.Visit.{Assignment}
use changesaga.Coverage.Visit.Observe.{answered}
use changesaga.Coverage.Report.{bump, bump_distinct, seen_before}
use changesaga.Coverage.Report.Rollup.{SummaryAssignment, bump_all, add_target, empty_summary}

-- The targets that stand in no place before, in order.
abbrev pub distinct_from : List Text → List Assignment → List Text
distinct_from seen [] = []
distinct_from seen (o ∷ os) =
    let old = distinct_from seen os in
    let new = o.target ∷ distinct_from (o.target ∷ seen) os in
    if seen_before o.target seen then old else new

pub bump_distinct-bump_all :
    (seen : List Text) (os : List Assignment) (counts : List (Text × ℕ))
    → bump_distinct seen os counts ≡ bump_all (distinct_from seen os) counts
unfolding bump_distinct bump_all
bump_distinct-bump_all seen [] counts = refl
bump_distinct-bump_all seen (o ∷ os) counts = elim (Bool-cases (seen_before o.target seen)) [
  | inl e ↦ step-old e ∙ bump_distinct-bump_all seen os counts ∙ rw e
  | inr e ↦ step-new e ∙ bump_distinct-bump_all (o.target ∷ seen) os (bump o.target counts) ∙ rw e
]
  where
    step-old :
        seen_before o.target seen ≡ true
        → bump_distinct seen (o ∷ os) counts ≡ bump_distinct seen os counts
    step-old e =
        ap
          (λ b.
            bump_distinct (if b then seen else o.target ∷ seen) os
              (if b then counts else bump o.target counts))
          e

    step-new :
        seen_before o.target seen ≡ false
        → bump_distinct seen (o ∷ os) counts
          ≡ bump_distinct (o.target ∷ seen) os (bump o.target counts)
    step-new e =
        ap
          (λ b.
            bump_distinct (if b then seen else o.target ∷ seen) os
              (if b then counts else bump o.target counts))
          e

-- Only membership matters.
abbrev SameSeen : List Text → List Text → Type 0
SameSeen s s' = (t : Text) → seen_before t s ≡ seen_before t s'

distinct_from_congr :
    (s s' : List Text) (os : List Assignment)
    → SameSeen s s'
    → distinct_from s os ≡ distinct_from s' os
distinct_from_congr s s' [] h = refl
distinct_from_congr s s' (o ∷ os) h = ground (
  arith,
  h o.target,
  distinct_from_congr s s' os h,
  distinct_from_congr (o.target ∷ s) (o.target ∷ s') os
      (λ t. ap (λ b. text_eq o.target t || b) (h t)),
)

seen_before-append :
    (t u : Text) (s : List Text) → seen_before t (s ++ (u ∷ [])) ≡ (text_eq u t || seen_before t s)
seen_before-append t u [] = refl
seen_before-append t u (v ∷ s) = ground (arith, seen_before-append t u s)

SameSeen-last : (f u : Text) (s : List Text) → SameSeen (f ∷ s ++ (u ∷ [])) (u ∷ f ∷ s)
SameSeen-last f u s t = ground (arith, seen_before-append t u s)

-- What `addSummaryAssignment` keeps of an atom.
abbrev pub keep : Assignment → SummaryAssignment × List Text → SummaryAssignment × List Text
keep a = add_target a.target

abbrev counted : ℕ → SummaryAssignment → SummaryAssignment
counted n s = record s { owners = s.owners + n }

abbrev HasTarget : Assignment → Type 0
HasTarget a = a.target ≢ []

not_empty : (t : Text) → t ≢ [] → is_empty t ≡ false
not_empty [] h = absurd (h refl)
not_empty (c ∷ t) h = refl

keep_old :
    (a : Assignment) (s : SummaryAssignment) (others : List Text)
    → s.first_target ≢ []
    → seen_before a.target (s.first_target ∷ others) ≡ true
    → keep a (s, others) ≡ (counted 1 s, others)
unfolding add_target
keep_old a s others h old = ground (arith, not_empty s.first_target h)

keep_new :
    (a : Assignment) (s : SummaryAssignment) (others : List Text)
    → s.first_target ≢ []
    → seen_before a.target (s.first_target ∷ others) ≡ false
    → keep a (s, others) ≡ (counted 1 s, others ++ (a.target ∷ []))
unfolding add_target
keep_new a s others h new = ground (arith, not_empty s.first_target h)

answered-keep :
    (os : List Assignment) (s : SummaryAssignment) (others : List Text)
    → s.first_target ≢ []
    → answered keep os (s, others)
      ≡ (counted (length os) s, others ++ distinct_from (s.first_target ∷ others) os)
answered-keep [] s others h = rw append-nil (ground arith)
answered-keep (o ∷ os) s others h =
    elim (Bool-cases (seen_before o.target (s.first_target ∷ others))) [
      | inl e ↦
          ap (answered keep os) (keep_old o s others h e)
          ∙ answered-keep os (counted 1 s) others h
          ∙ rw e (ground arith)
      | inr e ↦
          ap (answered keep os) (keep_new o s others h e)
          ∙ answered-keep os (counted 1 s) (others ++ (o.target ∷ [])) h
          ∙ rw
              (
                e,
                append_assoc,
                distinct_from_congr (s.first_target ∷ others ++ (o.target ∷ []))
                    (o.target ∷ s.first_target ∷ others) os
                    (SameSeen-last s.first_target o.target others),
              )
              (ground arith)
    ]

-- The first target and the further ones are the distinct targets, and every owner is counted.
pub answered-keep_first :
    (o : Assignment) (os : List Assignment)
    → o.target ≢ []
    → answered keep (o ∷ os) (empty_summary, []) ≡ (
      record { owners = suc (length os); first_target = o.target },
      distinct_from (o.target ∷ []) os,
    )
unfolding add_target
answered-keep_first o os h =
    answered-keep os (record { owners = 1; first_target = o.target }) [] h ∙ (ground arith)
