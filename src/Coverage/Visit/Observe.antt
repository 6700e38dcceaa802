-- ===== src/Coverage/Visit/Observe.antt =====
-- What a pass over the evidence leaves at one atom, whatever the caller keeps for an atom, and the
-- orphans that it reports.
use changesaga.Prelude.{
  ℕ, zero, suc, ◌+◌, ◌≡◌, refl, sym, ap, ◌∙◌, Bool, true, false, not, ◌&&◌, List, [], ◌∷◌, ◌++◌,
  append_assoc, append-nil, Option, none, some, ◌==◌, if◌then◌else◌, Result, ok, err, count_if, any,
  get_elem?, Bool-cases, inl, inr, arith, ◌≤◌, ◌⊎◌,
}
use mathlib.Core.Option
use changesaga.DiffUri.{Reference, UriParser, matches}
use changesaga.Coverage.Index.{IndexedAtom, candidates}
use changesaga.Coverage.Index.Buckets.{IsIndexOf}
use changesaga.Coverage.Index.Candidates.{candidates_complete, candidates-IsIndexOf}
use changesaga.Coverage.Index.Build.{
  indexed_from, hit, hit_once, selects, selects_at, to_number, any-selects,
}
use changesaga.Coverage.Visit.{Assignment, Pass, visit_candidates, visit_reference}
use changesaga.Coverage.Visit.Owners.{
  Claim, claims_atom, owners, orphans_of, orphan_parsed, visit_claims,
}

-- The reference at a position; none past the end.
abbrev pub reference_at : List (Option Reference) → ℕ → Option Reference
reference_at [] j = none
reference_at (o ∷ rs) zero = o
reference_at (o ∷ rs) (suc j) = reference_at rs j

selects-reference_at :
    (s : Reference) (rs : List (Option Reference)) (j : ℕ)
    → selects_at s (get_elem? rs j) ≡ selects s (reference_at rs j)
selects-reference_at s [] j = refl
selects-reference_at s (o ∷ rs) zero = refl
selects-reference_at s (o ∷ rs) (suc j) = selects-reference_at s rs j

Result-cases : {E A : Type 0} (r : Result E A) → ((a : A) × (r ≡ ok a)) ⊎ ((e : E) × (r ≡ err e))
Result-cases (ok a) = inl (a, refl)
Result-cases (err e) = inr (e, refl)

module _ {S O : Type 0} (obs : S → ℕ → Option O) (add : Assignment → ℕ → S → S)
    (step : Assignment → O → O) where
  -- Handing an assignment to the atom at one position changes what is kept there, and only that.
  abbrev pub IsLocal : Type 0
  IsLocal =
      (a : Assignment) (i : ℕ) (s : S) (j : ℕ)
      → obs (add a i s) j ≡ (if i == j then Option.map (step a) (obs s j) else obs s j)

abbrev times : {O : Type 0} → ℕ → (O → O) → Option O → Option O
times zero f o = o
times (suc n) f o = times n f (Option.map f o)

abbrev pub answered : {O : Type 0} → (Assignment → O → O) → List Assignment → O → O
answered step [] o = o
answered step (a ∷ rest) o = answered step rest (step a o)

right_of_and : (a b : Bool) → (a && b) ≡ true → b ≡ true
right_of_and a b h = ground arith

once :
    {O : Type 0} (f : O → O) (b : Bool) (o : Option O)
    → times (to_number b) f o ≡ (if b then Option.map f o else o)
once f true o = refl
once f false o = refl

either :
    {A : Type 0} (b : Bool) (xs : List A) (x : A)
    → (if not b then xs ++ (x ∷ []) else xs) ≡ xs ++ (if b then [] else x ∷ [])
either true xs x = sym (append-nil xs)
either false xs x = refl

map_id : {O : Type 0} (o : Option O) → Option.map (λ x. x) o ≡ o
map_id none = refl
map_id (some x) = refl

answered_step :
    {O : Type 0} (step : Assignment → O → O) (a : Assignment) (b : Bool) (rest : List Assignment)
    (o : Option O)
    → Option.map (answered step rest) (if b then Option.map (step a) o else o)
      ≡ Option.map (answered step (if b then a ∷ rest else rest)) o
answered_step step a true rest none = refl
answered_step step a true rest (some x) = refl
answered_step step a false rest o = refl

module _ (parser : UriParser) {S O : Type 0} (obs : S → ℕ → Option O) (add : Assignment → ℕ → S → S)
    (step : Assignment → O → O) (local : IsLocal obs add step) where
  visit_step :
      (a : Assignment) (s : Reference) (c : IndexedAtom) (cs : List IndexedAtom) (st : S) (m : ℕ)
      {b : Bool}
      → matches s c.reference ≡ b
      → visit_candidates add a s (c ∷ cs) st m
        ≡ visit_candidates add a s cs (if b then add a c.index st else st) (if b then suc m else m)
  unfolding visit_candidates
  visit_step a s c cs st m e =
      ap
        (λ b.
          visit_candidates add a s cs (if b then add a c.index st else st) (if b then suc m else m))
        e

  visit_candidates-at :
      (a : Assignment) (s : Reference) (cs : List IndexedAtom) (st : S) (m j : ℕ)
      → obs (visit_candidates add a s cs st m).0 j
        ≡ times (count_if (hit j s) cs) (step a) (obs st j)
  visit_candidates-at a s [] st m j = unfold visit_candidates in refl
  visit_candidates-at a s (c ∷ cs) st m j = elim (Bool-cases (matches s c.reference)) [
    | inr e ↦
        rw (visit_step a s c cs st m e, e)
          (elim (Bool-cases (c.index == j)) [
            | inl f ↦ rw f (visit_candidates-at a s cs st m j)
            | inr f ↦ rw f (visit_candidates-at a s cs st m j)
          ])
    | inl e ↦
        rw (visit_step a s c cs st m e, e)
          (elim (Bool-cases (c.index == j)) [
            | inl f ↦ rw f (
                visit_candidates-at a s cs (add a c.index st) (suc m) j
                ∙ ap (times (count_if (hit j s) cs) (step a)) (rw f at (local a c.index st j)))
            | inr f ↦ rw f (
                visit_candidates-at a s cs (add a c.index st) (suc m) j
                ∙ ap (times (count_if (hit j s) cs) (step a)) (rw f at (local a c.index st j)))
          ])
  ]

  visit_candidates-matched :
      (a : Assignment) (s : Reference) (cs : List IndexedAtom) (st : S) (m : ℕ)
      → (visit_candidates add a s cs st m).1 ≡ m + count_if (λ c. matches s c.reference) cs
  visit_candidates-matched a s [] st m = unfold visit_candidates in (omega arith)
  visit_candidates-matched a s (c ∷ cs) st m = elim (Bool-cases (matches s c.reference)) [
    | inr e ↦ rw (visit_step a s c cs st m e, e) (visit_candidates-matched a s cs st m)
    | inl e ↦
        rw (visit_step a s c cs st m e, e)
          (omega (arith, visit_candidates-matched a s cs (add a c.index st) (suc m)))
  ]

  module _ (rs : List (Option Reference)) where
    abbrev Indexed : Pass S → Type 0
    Indexed p = IsIndexOf (indexed_from 0 rs) p.index

    visit_reference-Indexed :
        (c : Claim) (p : Pass S)
        → Indexed p
        → Indexed (visit_reference parser add c.assignment c.reference p)
    unfolding visit_reference
    visit_reference-Indexed c p h = elim (Result-cases (parser.parse c.reference.uri)) [
      | inl (s, e) ↦ rw e (candidates-IsIndexOf s _ p.index h)
      | inr (r, e) ↦ rw e h
    ]

    hits :
        (s : Reference) (p : Pass S) (j : ℕ)
        → Indexed p
        → s.start ≤ s.end
        → count_if (hit j s) (candidates s p.index).1 ≡ to_number (selects s (reference_at rs j))
    hits s p j h le =
        candidates_complete (hit j s) s (indexed_from 0 rs) p.index h le (λ c. right_of_and _ _)
        ∙ hit_once s j rs
        ∙ ap to_number (selects-reference_at s rs j)

    visit_reference-at :
        (c : Claim) (p : Pass S) (j : ℕ)
        → Indexed p
        → obs (visit_reference parser add c.assignment c.reference p).state j ≡ (
            if claims_atom parser c (reference_at rs j)
            then Option.map (step c.assignment) (obs p.state j)
            else obs p.state j)
    unfolding visit_reference
    visit_reference-at c p j h = elim (Result-cases (parser.parse c.reference.uri)) [
      | inl (s, e) ↦ rw e (
          visit_candidates-at c.assignment s (candidates s p.index).1 p.state 0 j
          ∙ ap (λ n. times n (step c.assignment) (obs p.state j))
              (hits s p j h (parser.ordered _ s e))
          ∙ once (step c.assignment) (selects s (reference_at rs j)) (obs p.state j))
      | inr (r, e) ↦ rw e refl
    ]

    none_matched :
        (s : Reference) (a : Assignment) (p : Pass S)
        → Indexed p
        → s.start ≤ s.end
        → ((visit_candidates add a s (candidates s p.index).1 p.state 0).1 == 0)
          ≡ not (any (selects s) rs)
    none_matched s a p h le =
        ap (λ n. n == 0)
          (visit_candidates-matched a s (candidates s p.index).1 p.state 0
            ∙ ap (λ n. 0 + n)
                (candidates_complete (λ c. matches s c.reference) s (indexed_from 0 rs) p.index h le
                  (λ c e. e))
            ∙ (omega arith))
        ∙ any-selects s 0 rs

    visit_reference-orphans :
        (c : Claim) (p : Pass S)
        → Indexed p
        → (visit_reference parser add c.assignment c.reference p).orphans
          ≡ p.orphans ++ orphan_parsed rs c (parser.parse c.reference.uri)
    unfolding visit_reference
    visit_reference-orphans c p h = elim (Result-cases (parser.parse c.reference.uri)) [
      | inl (s, e) ↦
          rw (e, none_matched s c.assignment p h (parser.ordered _ s e))
            (either (any (selects s) rs) p.orphans _)
      | inr (r, e) ↦ rw e refl
    ]

    pub visit_claims-at :
        (cs : List Claim) (p : Pass S) (j : ℕ)
        → Indexed p
        → obs (visit_claims parser add cs p).state j
          ≡ Option.map (answered step (owners parser cs (reference_at rs j))) (obs p.state j)
    unfolding visit_claims owners
    visit_claims-at [] p j h = sym (map_id (obs p.state j))
    visit_claims-at (c ∷ cs) p j h =
        visit_claims-at cs _ j (visit_reference-Indexed c p h)
        ∙ ap (Option.map (answered step (owners parser cs (reference_at rs j))))
            (visit_reference-at c p j h)
        ∙ answered_step step c.assignment (claims_atom parser c (reference_at rs j))
            (owners parser cs (reference_at rs j)) (obs p.state j)

    pub visit_claims-orphans :
        (cs : List Claim) (p : Pass S)
        → Indexed p
        → (visit_claims parser add cs p).orphans ≡ p.orphans ++ orphans_of parser rs cs
    unfolding visit_claims orphans_of
    visit_claims-orphans [] p h = sym (append-nil p.orphans)
    visit_claims-orphans (c ∷ cs) p h =
        visit_claims-orphans cs _ (visit_reference-Indexed c p h)
        ∙ ap (λ os. os ++ orphans_of parser rs cs) (visit_reference-orphans c p h)
        ∙ append_assoc p.orphans _ _
