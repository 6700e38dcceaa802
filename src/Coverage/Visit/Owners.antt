-- ===== src/Coverage/Visit/Owners.antt =====
-- What a pass over the evidence does to one atom, against the plain description: the atom is handed
-- to every reference, in document order, whose selector matches it.
use changesaga.Prelude.{
  ℕ, suc, ◌+◌, ◌≡◌, refl, Bool, false, List, [], ◌∷◌, ◌++◌, Option, Text, if◌then◌else◌, Result, ok,
  err, any,
}
use changesaga.DiffUri.{Reference, UriParser}
use changesaga.Saga.{DiffReference, DiffFile}
use changesaga.Coverage.Index.Build.{selects}
use changesaga.Coverage.Visit.{
  Assignment, Orphan, Pass, mismatch, Visit, visit_reference, visit_references, visit_files,
  visit_all,
}

-- One reference of the evidence, with its assignment.
pub record Claim : Type 0 where
  pub assignment : Assignment
  pub reference : DiffReference

-- The references in document order.
abbrev pub claims_of_references : Text → Text → ℕ → List DiffReference → List Claim
claims_of_references target path i [] = []
claims_of_references target path i (r ∷ rs) =
    record {
      assignment = record { target = target; diff_file = path; diff = i + 1 };
      reference = r;
    }
    ∷ claims_of_references target path (suc i) rs

abbrev pub claims_of_files : Text → List DiffFile → List Claim
claims_of_files target [] = []
claims_of_files target (f ∷ fs) =
    claims_of_references target f.path 0 f.diffs ++ claims_of_files target fs

abbrev pub claims_of : List Visit → List Claim
claims_of [] = []
claims_of ((target, files) ∷ vs) = claims_of_files target files ++ claims_of vs

abbrev pub selects_parsed : Result Text Reference → Option Reference → Bool
selects_parsed (ok s) o = selects s o
selects_parsed (err e) o = false

-- The orphan that a claim leaves among the references, if it leaves one.
abbrev pub orphan_parsed : List (Option Reference) → Claim → Result Text Reference → List Orphan
orphan_parsed rs c (err reason) =
    record { assignment = c.assignment; reference = c.reference; reason = reason } ∷ []
orphan_parsed rs c (ok s) =
    if any (selects s) rs
    then []
    else record { assignment = c.assignment; reference = c.reference; reason = mismatch } ∷ []

module _ (parser : UriParser) where
  -- The claim's selector matches the reference.
  abbrev pub claims_atom : Claim → Option Reference → Bool
  claims_atom c o = selects_parsed (parser.parse c.reference.uri) o

  -- The assignments of an atom, in document order.
  unfoldable pub owners : List Claim → Option Reference → List Assignment
  owners [] o = []
  owners (c ∷ cs) o =
      let rest = owners cs o in if claims_atom c o then c.assignment ∷ rest else rest

  -- The claims that no atom answers, each with its reason.
  unfoldable pub orphans_of : List (Option Reference) → List Claim → List Orphan
  orphans_of rs [] = []
  orphans_of rs (c ∷ cs) = orphan_parsed rs c (parser.parse c.reference.uri) ++ orphans_of rs cs

  module _ {S : Type 0} (add : Assignment → ℕ → S → S) where
    unfoldable pub visit_claims : List Claim → Pass S → Pass S
    visit_claims [] p = p
    visit_claims (c ∷ cs) p =
        visit_claims cs (visit_reference parser add c.assignment c.reference p)

    visit_claims-append :
        (cs ds : List Claim) (p : Pass S)
        → visit_claims (cs ++ ds) p ≡ visit_claims ds (visit_claims cs p)
    unfolding visit_claims
    visit_claims-append [] ds p = refl
    visit_claims-append (c ∷ cs) ds p = visit_claims-append cs ds _

    visit_references-claims :
        (target path : Text) (i : ℕ) (rs : List DiffReference) (p : Pass S)
        → visit_references parser add target path i rs p
          ≡ visit_claims (claims_of_references target path i rs) p
    unfolding visit_claims visit_references
    visit_references-claims target path i [] p = refl
    visit_references-claims target path i (r ∷ rs) p =
        visit_references-claims target path (suc i) rs _

    pub visit_files-claims :
        (target : Text) (fs : List DiffFile) (p : Pass S)
        → visit_files parser add target fs p ≡ visit_claims (claims_of_files target fs) p
    unfolding visit_files
    visit_files-claims target [] p = unfold visit_claims in refl
    visit_files-claims target (f ∷ fs) p =
        rw
          (
            visit_claims-append (claims_of_references target f.path 0 f.diffs)
                (claims_of_files target fs) p,
            ← visit_references-claims target f.path 0 f.diffs p,
          )
          (visit_files-claims target fs _)

    pub visit_all-claims :
        (vs : List Visit) (p : Pass S) → visit_all parser add vs p ≡ visit_claims (claims_of vs) p
    unfolding visit_all
    visit_all-claims [] p = unfold visit_claims in refl
    visit_all-claims ((target, files) ∷ vs) p =
        rw
          (
            visit_claims-append (claims_of_files target files) (claims_of vs) p,
            ← visit_files-claims target files p,
          )
          (visit_all-claims vs _)
