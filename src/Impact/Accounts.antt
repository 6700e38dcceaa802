-- ===== src/Impact/Accounts.antt =====
-- What `Analyze` does with each incoming atom: the new content, and the counts of the summary.

use changesaga.Prelude.{
  ◌≡◌, refl, sym, ap, ◌∙◌, inl, inr, Bool, true, not, ◌&&◌, ◌||◌, List, [], ◌∷◌, ◌++◌, map,
  append_assoc, Text, text_eq, text_eq_sound, text_eq_refl, has, filter, Bool-cases, if◌then◌else◌,
  append-nil, Table, arith,
}
use changesaga.GitDiff.{Atom}
use changesaga.Impact.Records.{TargetLocation, OwnerSet, UnownedChange}
use changesaga.Impact.Owners.{has_owners}
use changesaga.Impact.Analyze.{
  Projection, unowned_reason, project_direct, project_contextual, project_unowned, project_atoms,
}
use changesaga.Impact.Marks.{mark, has-mark, mark_all}

abbrev pub unowned : Atom → UnownedChange
unowned a = record { atom = a; reason = unowned_reason a }

module _ (locations : Table TargetLocation) (direct contextual : Text → OwnerSet) where
  abbrev pub is_direct : Text → Bool
  is_direct k = has_owners (direct k)

  abbrev pub is_contextual : Text → Bool
  is_contextual k = has_owners (contextual k)

  abbrev pub is_owned : Text → Bool
  is_owned k = is_direct k || is_contextual k

  -- The loop's body up to its last test.
  abbrev marked : Atom → Projection → Projection
  marked a p =
      project_contextual locations direct contextual a
        (project_direct locations direct contextual a p)

  abbrev step : Atom → Projection → Projection
  step a p = project_unowned locations direct contextual a (marked a p)

  marked_sets :
      (a : Atom) (p : Projection)
      → ((marked a p).direct_atoms ≡ mark (is_direct a.key) a.key p.direct_atoms)
        × ((marked a p).contextual_atoms ≡ mark (is_contextual a.key) a.key p.contextual_atoms)
        × ((marked a p).owned_atoms
            ≡ mark (is_contextual a.key) a.key (mark (is_direct a.key) a.key p.owned_atoms))
        × ((marked a p).new_content ≡ p.new_content)
  unfolding project_direct project_contextual
  marked_sets a p = elim (Bool-cases (is_direct a.key)) [
    | inl d ↦ elim (Bool-cases (is_contextual a.key)) [
      | inl c ↦ rw (d, c) (refl, refl, refl, refl)
      | inr c ↦ rw (d, c) (refl, refl, refl, refl)
    ]
    | inr d ↦ elim (Bool-cases (is_contextual a.key)) [
      | inl c ↦ rw (d, c) (refl, refl, refl, refl)
      | inr c ↦ rw (d, c) (refl, refl, refl, refl)
    ]
  ]

  unowned_sets :
      (a : Atom) (p : Projection)
      → let q = project_unowned locations direct contextual a p in
        (q.direct_atoms ≡ p.direct_atoms)
        × (q.contextual_atoms ≡ p.contextual_atoms)
        × (q.owned_atoms ≡ p.owned_atoms)
        × (q.new_content
            ≡ p.new_content ++ (if has a.key p.owned_atoms then [] else unowned a ∷ []))
  unfolding project_unowned
  unowned_sets a p = elim (Bool-cases (has a.key p.owned_atoms)) [
    | inl e ↦ rw e (refl, refl, refl, sym (append-nil p.new_content))
    | inr e ↦ rw e (refl, refl, refl, refl)
  ]

  -- The keys recorded as owned are the keys of atoms that have an owner.
  abbrev pub OnlyOwned : Projection → Type 0
  OnlyOwned p = (k : Text) → has k p.owned_atoms ≡ true → is_owned k ≡ true

  marked_owned :
      (a : Atom) (p : Projection) (k : Text)
      → has k (marked a p).owned_atoms
        ≡ (has k p.owned_atoms || (is_owned a.key && text_eq a.key k))
  marked_owned a p k =
      ap (has k) (marked_sets a p).2
      ∙ has-mark (is_contextual a.key) k a.key (mark (is_direct a.key) a.key p.owned_atoms)
      ∙ rw (has-mark (is_direct a.key) k a.key p.owned_atoms) (ground arith)

  step-OnlyOwned : (a : Atom) (p : Projection) → OnlyOwned p → OnlyOwned (step a p)
  step-OnlyOwned a p h k e =
      let owned = ap (has k) (sym (unowned_sets a (marked a p)).2) ∙ e in
      let cases = sym (marked_owned a p k) ∙ owned in
      elim (Bool-cases (has k p.owned_atoms)) [
        | inl old ↦ h k old
        | inr fresh ↦
            ground
              (arith, text_eq_sound a.key k, ap is_owned (text_eq_sound a.key k (ground arith)))
      ]

  step_new :
      (a : Atom) (p : Projection)
      → OnlyOwned p
      → (step a p).new_content ≡ p.new_content ++ (if is_owned a.key then [] else unowned a ∷ [])
  step_new a p h =
      (unowned_sets a (marked a p)).3
      ∙ rw ((marked_sets a p).3, marked_owned a p a.key, text_eq_refl a.key)
          (ap (λ b. p.new_content ++ (if b then [] else unowned a ∷ [])) (ground (arith, h a.key)))

  -- The new content is that of before and the atoms without an owner, in order.
  pub project_atoms-new_content :
      (atoms : List Atom) (p : Projection)
      → OnlyOwned p
      → (project_atoms locations direct contextual atoms p).new_content
        ≡ p.new_content ++ map unowned (filter (λ a. not (is_owned a.key)) atoms)
  unfolding project_atoms
  project_atoms-new_content [] p h = sym (append-nil p.new_content)
  project_atoms-new_content (a ∷ atoms) p h =
      project_atoms-new_content atoms (step a p) (step-OnlyOwned a p h)
      ∙ rw (step_new a p h) (elim (Bool-cases (is_owned a.key)) [
        | inl e ↦ rw (e, append-nil p.new_content) refl
        | inr e ↦ rw e (append_assoc p.new_content (unowned a ∷ []) _)
      ])

  pub project_atoms-direct :
      (atoms : List Atom) (p : Projection)
      → (project_atoms locations direct contextual atoms p).direct_atoms
        ≡ mark_all is_direct atoms p.direct_atoms
  unfolding project_atoms
  project_atoms-direct [] p = refl
  project_atoms-direct (a ∷ atoms) p =
      project_atoms-direct atoms (step a p)
      ∙ ap (mark_all is_direct atoms) ((unowned_sets a (marked a p)).0 ∙ (marked_sets a p).0)

  pub project_atoms-contextual :
      (atoms : List Atom) (p : Projection)
      → (project_atoms locations direct contextual atoms p).contextual_atoms
        ≡ mark_all is_contextual atoms p.contextual_atoms
  unfolding project_atoms
  project_atoms-contextual [] p = refl
  project_atoms-contextual (a ∷ atoms) p =
      project_atoms-contextual atoms (step a p)
      ∙ ap (mark_all is_contextual atoms) ((unowned_sets a (marked a p)).1 ∙ (marked_sets a p).1)
