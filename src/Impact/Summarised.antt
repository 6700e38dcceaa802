-- ===== src/Impact/Summarised.antt =====
-- What `Analyze` reports as new content, and the counts of its summary.

use mathlib.Core.List.{Memᴰ}
use changesaga.Prelude.{
  suc, ◌+◌, ◌≡◌, refl, ap, ◌∙◌, Bool, false, not, ◌&&◌, ◌||◌, Option, List, [], ◌∷◌, map, Text, has,
  filter, count_if, length, length-sort_by, sort_by, arith,
}
use changesaga.GitDiff.{Atom, ChangeSet}
use changesaga.GitDiff.Parse.Keys.{keys, IsUnique}
use changesaga.Saga.{Saga}
use changesaga.Coverage.Report.{Report}
use changesaga.Impact.Owners.{has_owners}
use changesaga.Impact.Targets.{unowned_less, index_targets}
use changesaga.Impact.Analyze.{
  direct_owners, contextual_owners, empty_projection, projection, analyze,
}
use changesaga.Impact.Marks.{length-mark_all}
use changesaga.Impact.Accounts.{
  unowned, project_atoms-new_content, project_atoms-direct, project_atoms-contextual,
}
use changesaga.Impact.Kinds.{owners_disjoint}

length-map : {A B : Type 0} (f : A → B) (xs : List A) → length (map f xs) ≡ length xs
length-map f [] = refl
length-map f (x ∷ xs) = ap suc (length-map f xs)

-- A list falls into those that pass one of two tests that exclude each other, and the others.
partition :
    (p q : Atom → Bool) (xs : List Atom)
    → ((a : Atom) → Memᴰ a xs → (p a && q a) ≡ false)
    → length xs ≡ count_if p xs + count_if q xs + length (filter (λ a. not (p a || q a)) xs)
partition p q [] h = refl
partition p q (x ∷ xs) h =
    ground (arith, h x (Memᴰ.head refl), partition p q xs (λ a i. h a (Memᴰ.tail i)))

module _ (document : Saga) (baseline : ChangeSet) (report : Report) (incoming : ChangeSet)
    (mode : Text) (incoming_saga : Option Saga) where
  -- The atom removes or alters source that some target owns.
  abbrev pub hits : Atom → Bool
  hits a = has_owners (direct_owners baseline report incoming a.key)

  -- The atom adds a line next to source that some target owns.
  abbrev pub borders : Atom → Bool
  borders a = has_owners (contextual_owners baseline report incoming a.key)

  unfolded_new :
      (projection document baseline report incoming).new_content
      ≡ map unowned (filter (λ a. not (hits a || borders a)) incoming.atoms)
  unfolding projection has
  unfolded_new =
      project_atoms-new_content (index_targets document.manifest.title document.section)
        (direct_owners baseline report incoming) (contextual_owners baseline report incoming)
        incoming.atoms empty_projection (λ k h. cc)

  direct_count :
      IsUnique (keys incoming.atoms)
      → length (projection document baseline report incoming).direct_atoms
        ≡ count_if hits incoming.atoms
  unfolding projection has
  direct_count u =
      ap length (
        project_atoms-direct (index_targets document.manifest.title document.section)
          (direct_owners baseline report incoming) (contextual_owners baseline report incoming)
          incoming.atoms empty_projection)
      ∙ length-mark_all (λ k. has_owners (direct_owners baseline report incoming k)) incoming.atoms
          [] u (λ k i. refl)
      ∙ omega arith

  contextual_count :
      IsUnique (keys incoming.atoms)
      → length (projection document baseline report incoming).contextual_atoms
        ≡ count_if borders incoming.atoms
  unfolding projection has
  contextual_count u =
      ap length (
        project_atoms-contextual (index_targets document.manifest.title document.section)
          (direct_owners baseline report incoming) (contextual_owners baseline report incoming)
          incoming.atoms empty_projection)
      ∙ length-mark_all (λ k. has_owners (contextual_owners baseline report incoming k))
          incoming.atoms [] u (λ k i. refl)
      ∙ omega arith

  -- The new content is, sorted, every incoming atom that has neither kind of owner, with its reason,
  -- and nothing else.
  pub analyze-new_content :
      (analyze document baseline report incoming mode incoming_saga).new_content
      ≡ sort_by unowned_less (map unowned (filter (λ a. not (hits a || borders a)) incoming.atoms))
  unfolding analyze
  analyze-new_content = ap (sort_by unowned_less) unfolded_new

  -- If the incoming keys are unique, every incoming atom is counted once: as a direct intersection,
  -- as a contextual addition or as new content.
  pub analyze_accounts :
      IsUnique (keys incoming.atoms)
      → let s = (analyze document baseline report incoming mode incoming_saga).summary in
        s.incoming_atoms ≡ s.direct_intersections + s.contextual_additions + s.new_content_required
  unfolding analyze
  analyze_accounts u =
      let rest = filter (λ a. not (hits a || borders a)) incoming.atoms in
      let new_count =
        length-sort_by unowned_less (projection document baseline report incoming).new_content
        ∙ ap length unfolded_new
        ∙ length-map unowned rest in
      partition hits borders incoming.atoms (λ a i. owners_disjoint baseline report incoming a u i)
      ∙ rw (direct_count u, contextual_count u, new_count) refl
