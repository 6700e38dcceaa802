-- ===== src/Coverage/Report/Evaluate.antt =====
-- `Evaluate` and `SelectTarget` against the plain description of coverage.
use changesaga.Prelude.{
  ℕ, zero, suc, ◌≡◌, refl, sym, ap, ◌∙◌, Bool, List, [], ◌∷◌, ◌++◌, map, append_assoc, append-nil,
  Option, some, ◌==◌, if◌then◌else◌, filter, get_elem?, get_elem?-ext, any, fun_ext, Bool-cases,
  inl, inr, arith,
}
use mathlib.Core.Option
use changesaga.DiffUri.{Reference, UriParser}
use changesaga.GitDiff.{Atom, ChangeSet}
use changesaga.Saga.{DiffFile, Section, Validation}
use changesaga.Coverage.Index.{atom_reference}
use changesaga.Coverage.Index.Build.{references, build_index-IsIndexOf}
use changesaga.Coverage.Visit.{Assignment, document_visits}
use changesaga.Coverage.Visit.Owners.{
  Claim, claims_atom, owners, orphans_of, claims_of, claims_of_files, visit_claims,
  visit_all-claims, visit_files-claims,
}
use changesaga.Coverage.Visit.Observe.{
  IsLocal, answered, reference_at, visit_claims-at, visit_claims-orphans,
}
use changesaga.Coverage.Report.{
  Report, modify_at, add_owner, evaluate, owned, select_target, has_owner, start, evaluate_pass,
}

pub get_elem?-modify_at :
    {A : Type 0} (f : A → A) (i j : ℕ) (xs : List A)
    → get_elem? (modify_at i f xs) j
      ≡ (if i == j then Option.map f (get_elem? xs j) else get_elem? xs j)
unfolding modify_at
get_elem?-modify_at f i j [] = ground arith
get_elem?-modify_at f zero zero (x ∷ xs) = refl
get_elem?-modify_at f zero (suc j) (x ∷ xs) = ground arith
get_elem?-modify_at f (suc i) zero (x ∷ xs) = ground arith
get_elem?-modify_at f (suc i) (suc j) (x ∷ xs) = ground (arith, get_elem?-modify_at f i j xs)

-- The assignments that one atom keeps.
abbrev step : Assignment → List Assignment → List Assignment
step a os = os ++ (a ∷ [])

abbrev owners_at : List (List Assignment) → ℕ → Option (List Assignment)
owners_at = get_elem?

add_owner-local : IsLocal owners_at add_owner step
unfolding add_owner
add_owner-local a i s j = get_elem?-modify_at (step a) i j s

answered_all : (os before : List Assignment) → answered step os before ≡ before ++ os
answered_all [] before = sym (append-nil before)
answered_all (o ∷ os) before =
    answered_all os (before ++ (o ∷ [])) ∙ append_assoc before (o ∷ []) os

module _ (parser : UriParser) (changes : ChangeSet) where
  -- The plain description: the owners of every atom, by trying every claim on it.
  unfoldable pub plain_owners : List Claim → List (List Assignment)
  plain_owners cs =
      map (λ atom. owners parser cs (atom_reference parser changes atom)) changes.atoms

  position :
      (cs : List Claim) (atoms : List Atom) (j : ℕ)
      → Option.map
          (answered step (owners parser cs (reference_at (references parser changes atoms) j)))
          (get_elem? (map (λ _. []) atoms) j)
        ≡ get_elem? (map (λ atom. owners parser cs (atom_reference parser changes atom)) atoms) j
  position cs [] j = refl
  position cs (atom ∷ atoms) zero =
      ap some (answered_all (owners parser cs (atom_reference parser changes atom)) [])
  position cs (atom ∷ atoms) (suc j) = position cs atoms j

  visit_claims-owners :
      (cs : List Claim)
      → (visit_claims parser add_owner cs
          (start parser changes (map (λ _. []) changes.atoms))).state
        ≡ plain_owners cs
  unfolding plain_owners
  visit_claims-owners cs = get_elem?-ext _ _ (λ j.
      visit_claims-at parser owners_at add_owner step add_owner-local
        (references parser changes changes.atoms) cs
        (start parser changes (map (λ _. []) changes.atoms)) j
        (build_index-IsIndexOf parser changes)
      ∙ position cs changes.atoms j)

  visit_claims-reports :
      (cs : List Claim)
      → (visit_claims parser add_owner cs
          (start parser changes (map (λ _. []) changes.atoms))).orphans
        ≡ orphans_of parser (references parser changes changes.atoms) cs
  visit_claims-reports cs =
      visit_claims-orphans parser owners_at add_owner step add_owner-local
        (references parser changes changes.atoms) cs
        (start parser changes (map (λ _. []) changes.atoms)) (build_index-IsIndexOf parser changes)

module _ (parser : UriParser) (changes : ChangeSet) (document : Section)
    (validation : Validation) where
  -- The report that trying every claim on every atom gives, with no index, sort or search.
  unfoldable pub plain_report : Report
  unfolding plain_owners
  plain_report =
      let cs = claims_of (document_visits document) in
      evaluate_pass validation changes
        (orphans_of parser (references parser changes changes.atoms) cs)
        (plain_owners parser changes cs)

  -- The report of `Evaluate`, whose index sorts its buckets and searches them, is the report that
  -- trying every reference of the document on every atom gives: the same owners in document order,
  -- the same orphans with the same reasons, and the same counts.
  pub evaluate-plain_report : evaluate parser changes document validation ≡ plain_report
  unfolding evaluate plain_report
  evaluate-plain_report = rw (
    visit_all-claims parser add_owner (document_visits document) _,
    visit_claims-owners parser changes (claims_of (document_visits document)),
    visit_claims-reports parser changes (claims_of (document_visits document)),
  )

owned-filter :
    (f : Atom → List Assignment) (atoms : List Atom)
    → owned atoms (map f atoms) ≡ filter (λ a. has_owner (f a)) atoms
unfolding owned
owned-filter f [] = refl
owned-filter f (atom ∷ atoms) = rw (owned-filter f atoms)

module _ (parser : UriParser) where
  -- Some claim of a list selects a reference.
  abbrev pub is_claimed : List Claim → Option Reference → Bool
  is_claimed cs o = any (λ c. claims_atom parser c o) cs

  pub has_owner-owners :
      (cs : List Claim) (o : Option Reference) → has_owner (owners parser cs o) ≡ is_claimed cs o
  unfolding owners
  has_owner-owners [] o = refl
  has_owner-owners (c ∷ cs) o = elim (Bool-cases (claims_atom parser c o)) [
    | inl e ↦ rw e
    | inr e ↦ rw e (has_owner-owners cs o)
  ]

filter_congr :
    {A : Type 0} (p q : A → Bool) (h : (a : A) → p a ≡ q a) (xs : List A)
    → filter p xs ≡ filter q xs
filter_congr p q h xs = rw (fun_ext h)

-- `SelectTarget` returns, in order, exactly the atoms that some reference of the files selects.
pub select_target-filter :
    (parser : UriParser) (changes : ChangeSet) (files : List DiffFile)
    → select_target parser changes files
      ≡ filter
          (λ a. is_claimed parser (claims_of_files [] files) (atom_reference parser changes a))
          changes.atoms
unfolding select_target plain_owners
select_target-filter parser changes files =
    rw
      (
        visit_files-claims parser add_owner [] files _,
        visit_claims-owners parser changes (claims_of_files [] files),
        owned-filter,
      )
      (filter_congr _ _
        (λ a. has_owner-owners parser (claims_of_files [] files) (atom_reference parser changes a))
        changes.atoms)
