-- ===== src/Coverage/Report/Complete.antt =====
-- What the lists, the counts and the verdict of a report say of the atoms.
use changesaga.Prelude.{
  ℕ, suc, ◌+◌, ◌-◌, ◌≡◌, refl, sym, ap, ◌∙◌, ◌↔◌, Bool, true, false, not, ◌&&◌, List, [], ◌∷◌, ◌++◌,
  map, append_assoc, append-nil, ◌==◌, if◌then◌else◌, length, filter, fun_ext, All, Bool-cases, inl,
  inr, arith, ltb,
}
use changesaga.DiffUri.{UriParser}
use changesaga.GitDiff.{Atom, ChangeSet}
use changesaga.Saga.{Section, Validation}
use changesaga.Coverage.Index.{atom_reference}
use changesaga.Coverage.Index.Build.{references}
use changesaga.Coverage.Visit.{Assignment, document_visits}
use changesaga.Coverage.Visit.Owners.{Claim, owners, orphans_of, claims_of}
use changesaga.Coverage.Report.{
  Overlap, Tally, tally_atom, tally, new_report, finish_report, evaluate_pass, evaluate, has_owner,
}
use changesaga.Coverage.Report.Evaluate.{
  plain_report, evaluate-plain_report, is_claimed, has_owner-owners,
}

-- More than one owner.
abbrev pub is_shared : List Assignment → Bool
is_shared os = ltb 1 (length os)

abbrev pub overlap : Atom → List Assignment → Overlap
overlap atom os = record { atom = atom; covered_by = os }

module _ (f : Atom → List Assignment) where
  abbrev pub unowned : List Atom → List Atom
  unowned = filter (λ a. not (has_owner (f a)))

  abbrev pub shared : List Atom → List Overlap
  shared atoms = map (λ a. overlap a (f a)) (filter (λ a. is_shared (f a)) atoms)

  tally_atom-uncovered :
      (atom : Atom) (os : List Assignment) (t : Tally)
      → (tally_atom atom os t).uncovered
        ≡ (if not (has_owner os) then t.uncovered ++ (atom ∷ []) else t.uncovered)
  unfolding tally_atom
  tally_atom-uncovered atom [] t = refl
  tally_atom-uncovered atom (o ∷ []) t = refl
  tally_atom-uncovered atom (o ∷ p ∷ os) t = refl

  tally_atom-overlaps :
      (atom : Atom) (os : List Assignment) (t : Tally)
      → (tally_atom atom os t).overlaps
        ≡ (if is_shared os then t.overlaps ++ (overlap atom os ∷ []) else t.overlaps)
  unfolding tally_atom
  tally_atom-overlaps atom [] t = refl
  tally_atom-overlaps atom (o ∷ []) t = refl
  tally_atom-overlaps atom (o ∷ p ∷ os) t = ground arith

  pub tally-uncovered :
      (atoms : List Atom) (t : Tally)
      → (tally atoms (map f atoms) t).uncovered ≡ t.uncovered ++ unowned atoms
  unfolding tally
  tally-uncovered [] t = sym (append-nil t.uncovered)
  tally-uncovered (atom ∷ atoms) t = elim (Bool-cases (has_owner (f atom))) [
    | inl e ↦
        tally-uncovered atoms (tally_atom atom (f atom) t)
        ∙ rw (tally_atom-uncovered atom (f atom) t, e)
    | inr e ↦
        tally-uncovered atoms (tally_atom atom (f atom) t)
        ∙ rw (tally_atom-uncovered atom (f atom) t, e)
            (append_assoc t.uncovered (atom ∷ []) (unowned atoms))
  ]

  pub tally-overlaps :
      (atoms : List Atom) (t : Tally)
      → (tally atoms (map f atoms) t).overlaps ≡ t.overlaps ++ shared atoms
  unfolding tally
  tally-overlaps [] t = sym (append-nil t.overlaps)
  tally-overlaps (atom ∷ atoms) t = elim (Bool-cases (is_shared (f atom))) [
    | inl e ↦
        tally-overlaps atoms (tally_atom atom (f atom) t)
        ∙ rw (tally_atom-overlaps atom (f atom) t, e)
            (append_assoc t.overlaps (overlap atom (f atom) ∷ []) (shared atoms))
    | inr e ↦
        tally-overlaps atoms (tally_atom atom (f atom) t)
        ∙ rw (tally_atom-overlaps atom (f atom) t, e)
  ]

length-filter_split :
    {A : Type 0} (p : A → Bool) (xs : List A)
    → length (filter p xs) + length (filter (λ x. not (p x)) xs) ≡ length xs
length-filter_split p [] = omega arith
length-filter_split p (x ∷ xs) = elim (Bool-cases (p x)) [
  | inl e ↦ rw e (omega (arith, length-filter_split p xs))
  | inr e ↦ rw e (omega (arith, length-filter_split p xs))
]

suc-ne-zero : (n : ℕ) → (suc n == 0) ≡ true → ⊥
suc-ne-zero n h = ground arith

-- Nothing is left out exactly if everything passes.
filter_empty :
    {A : Type 0} (p : A → Bool) (xs : List A)
    → ((length (filter (λ x. not (p x)) xs) == 0) ≡ true) ↔ All (λ x. p x ≡ true) xs
filter_empty p [] = (λ h. tt, λ h. refl)
filter_empty p (x ∷ xs) = elim (Bool-cases (p x)) [
  | inl e ↦ (λ h. (e, (filter_empty p xs).0 (rw e at h)), λ h. rw e ((filter_empty p xs).1 h.1))
  | inr e ↦ (λ h. absurd (suc-ne-zero _ (rw e at h)), λ h. cc (rw e at h.0))
]

filter_congr :
    {A : Type 0} (p q : A → Bool)
    → ((a : A) → p a ≡ q a)
    → (xs : List A) → filter p xs ≡ filter q xs
filter_congr p q h xs = rw (fun_ext h)

-- A list is empty exactly if its length is 0.
length-eq-zero : {A : Type 0} (xs : List A) → ((length xs == 0) ≡ true) ↔ (xs ≡ [])
length-eq-zero [] = (λ h. refl, λ h. refl)
length-eq-zero (x ∷ xs) = (λ h. absurd (suc-ne-zero (length xs) h), λ h. cc)

-- A conjunction of three tests, two of them read as propositions.
all_three :
    (a b c : Bool) (P Q : Type 0)
    → (b ≡ true) ↔ P
    → (c ≡ true) ↔ Q
    → ((a && b && c) ≡ true) ↔ ((a ≡ true) × P × Q)
all_three true true c P Q p q = (λ h. (refl, p.0 refl, q.0 h), λ h. q.1 h.2)
all_three true false c P Q p q = (λ h. cc, λ h. p.1 h.1)
all_three false b c P Q p q = (λ h. cc, λ h. h.0)

abbrev no_tally : Tally
no_tally = record { ownership = []; uncovered = []; overlaps = []; counts = [] }

module _ (parser : UriParser) (changes : ChangeSet) (document : Section)
    (validation : Validation) where
  -- The evidence of the document, in order.
  abbrev pub evidence : List Claim
  evidence = claims_of (document_visits document)

  abbrev pub atom_owners : Atom → List Assignment
  atom_owners a = owners parser evidence (atom_reference parser changes a)

  -- Some reference of the document selects the atom.
  abbrev pub is_covered : Atom → Bool
  is_covered a = is_claimed parser evidence (atom_reference parser changes a)

  unowned-covered :
      unowned atom_owners changes.atoms ≡ filter (λ a. not (is_covered a)) changes.atoms
  unowned-covered =
      filter_congr _ _
        (λ a. ap not (has_owner-owners parser evidence (atom_reference parser changes a)))
        changes.atoms

  plain-uncovered :
      (plain_report parser changes document validation).uncovered
      ≡ filter (λ a. not (is_covered a)) changes.atoms
  unfolding plain_report evaluate_pass finish_report
  plain-uncovered = tally-uncovered atom_owners changes.atoms no_tally ∙ unowned-covered

  plain-overlaps :
      (plain_report parser changes document validation).overlaps ≡ shared atom_owners changes.atoms
  unfolding plain_report evaluate_pass finish_report
  plain-overlaps = tally-overlaps atom_owners changes.atoms no_tally

  plain-counts :
      let r = plain_report parser changes document validation in
      (r.summary.total ≡ length changes.atoms)
      × (r.summary.uncovered ≡ length r.uncovered)
      × (r.summary.covered ≡ length changes.atoms - length r.uncovered)
      × (r.summary.overlapping ≡ length r.overlaps)
      × (r.summary.orphaned ≡ length r.orphans)
      × (r.complete ≡ (validation.valid && length r.uncovered == 0 && length r.orphans == 0))
  unfolding plain_report evaluate_pass finish_report new_report
  plain-counts = (refl, refl, refl, refl, refl, refl)

  -- A report accounts for every atom once: the uncovered atoms are exactly those that no reference of
  -- the document selects, the overlaps exactly those with more than one owner, each with all its
  -- owners in document order, and the counts add up to the number of atoms.
  pub evaluate_accounts :
      let r = evaluate parser changes document validation in
      (r.uncovered ≡ filter (λ a. not (is_covered a)) changes.atoms)
      × (r.overlaps ≡ shared atom_owners changes.atoms)
      × (r.summary.covered ≡ length (filter is_covered changes.atoms))
      × (r.summary.covered + r.summary.uncovered ≡ length changes.atoms)
      × (r.summary.overlapping ≡ length r.overlaps)
  evaluate_accounts = rw (evaluate-plain_report parser changes document validation) (
    plain-uncovered,
    plain-overlaps,
    omega (
      arith,
      plain-counts,
      ap length plain-uncovered,
      length-filter_split is_covered changes.atoms,
    ),
    omega (
      arith,
      plain-counts,
      ap length plain-uncovered,
      length-filter_split is_covered changes.atoms,
    ),
    plain-counts.3,
  )

  verdict_parts : (plain_report parser changes document validation).complete ≡ (
      validation.valid
      && length (filter (λ a. not (is_covered a)) changes.atoms) == 0
      && length (orphans_of parser (references parser changes changes.atoms) evidence) == 0)
  unfolding plain_report evaluate_pass finish_report new_report
  verdict_parts =
      ap
        (λ (us : List Atom).
          validation.valid
          && length us == 0
          && length (orphans_of parser (references parser changes changes.atoms) evidence) == 0)
        plain-uncovered

  uncovered_iff :
      ((length (filter (λ a. not (is_covered a)) changes.atoms) == 0) ≡ true)
      ↔ All (λ a. is_covered a ≡ true) changes.atoms
  uncovered_iff = filter_empty is_covered changes.atoms

  orphans_iff :
      ((length (orphans_of parser (references parser changes changes.atoms) evidence) == 0) ≡ true)
      ↔ (orphans_of parser (references parser changes changes.atoms) evidence ≡ [])
  orphans_iff = length-eq-zero _

  -- The verdict: a report is complete exactly if the document is valid, every atom is selected by some
  -- reference of the document, and every reference parses and selects some atom.
  pub evaluate_complete : ((evaluate parser changes document validation).complete ≡ true) ↔ (
      (validation.valid ≡ true)
      × All (λ a. is_covered a ≡ true) changes.atoms
      × (orphans_of parser (references parser changes changes.atoms) evidence ≡ []))
  evaluate_complete =
      rw (evaluate-plain_report parser changes document validation)
        (rw verdict_parts (all_three _ _ _ _ _ uncovered_iff orphans_iff))
