-- ===== src/Impact/Updates.antt =====
-- The targets that `Analyze` reports, each once, with the action it asks for.
use changesaga.Prelude.{
  ◌≡◌, refl, ap, ◌∙◌, inl, inr, Bool, true, false, ◌&&◌, ◌||◌, Option, none, some, List, [], ◌∷◌,
  map, Text, text_eq, any, count_if, count_if-map, count_if-sort_by, Table, get, has_key, is_some,
  holds, IsTable, count_entry, sort_by, fun_ext, Bool-cases, if◌then◌else◌, arith,
}
use changesaga.GitDiff.{Atom, ChangeSet}
use changesaga.Saga.{Saga}
use changesaga.Coverage.Report.{Report}
use changesaga.Impact.Records.{TargetImpact, TargetLocation, TargetAccumulator, OwnerSet}
use changesaga.Impact.Owners.{has_owners}
use changesaga.Impact.Targets.{must_update, impact_less, target_impact, index_targets}
use changesaga.Impact.Analyze.{
  Projection, project_direct, project_contextual, project_unowned, project_atoms, direct_owners,
  contextual_owners, empty_projection, projection, analyze,
}
use changesaga.Impact.Accumulated.{
  urgent, add_target_changes-has_key, add_target_changes-IsTable, add_target_changes-urgent,
  add_target_changes-calm,
}

module _ (locations : Table TargetLocation) (direct contextual : Text → OwnerSet)
    (target : Text) where
  abbrev owns : Atom → Bool
  owns a = has_key target (direct a.key)

  abbrev is_near : Atom → Bool
  is_near a = has_key target (contextual a.key)

  no_owner : (os : OwnerSet) → has_owners os ≡ false → has_key target os ≡ false
  unfolding get
  no_owner [] h = refl
  no_owner (o ∷ os) h = cc

  after_direct :
      (a : Atom) (p : Projection)
      → let q = project_direct locations direct contextual a p in
        (has_key target q.accumulators ≡ (has_key target p.accumulators || owns a))
        × (holds urgent (get target q.accumulators)
            ≡ (holds urgent (get target p.accumulators) || owns a))
        × (IsTable p.accumulators → IsTable q.accumulators)
  unfolding project_direct
  after_direct a p = elim (Bool-cases (has_owners (direct a.key))) [
    | inl e ↦ rw e (
      add_target_changes-has_key locations target (direct a.key) a _ _ p.accumulators,
      add_target_changes-urgent locations target (direct a.key) a _ p.accumulators,
      add_target_changes-IsTable locations target (direct a.key) a _ _ p.accumulators,
    )
    | inr e ↦ rw (e, no_owner (direct a.key) e) (ground arith, ground arith, λ h. h)
  ]

  after_contextual :
      (a : Atom) (p : Projection)
      → let q = project_contextual locations direct contextual a p in
        (has_key target q.accumulators ≡ (has_key target p.accumulators || is_near a))
        × (holds urgent (get target q.accumulators) ≡ holds urgent (get target p.accumulators))
        × (IsTable p.accumulators → IsTable q.accumulators)
  unfolding project_contextual
  after_contextual a p = elim (Bool-cases (has_owners (contextual a.key))) [
    | inl e ↦ rw e (
      add_target_changes-has_key locations target (contextual a.key) a _ _ p.accumulators,
      add_target_changes-calm locations target (contextual a.key) a _ p.accumulators,
      add_target_changes-IsTable locations target (contextual a.key) a _ _ p.accumulators,
    )
    | inr e ↦ rw (e, no_owner (contextual a.key) e) (ground arith, refl, λ h. h)
  ]

  after_unowned :
      (a : Atom) (p : Projection)
      → (project_unowned locations direct contextual a p).accumulators ≡ p.accumulators
  unfolding project_unowned
  after_unowned a p = ground arith

  -- What the loop over the atoms does for the target.
  project_atoms-target :
      (atoms : List Atom) (p : Projection)
      → let q = project_atoms locations direct contextual atoms p in
        (has_key target q.accumulators
          ≡ (has_key target p.accumulators || any (λ a. owns a || is_near a) atoms))
        × (holds urgent (get target q.accumulators)
            ≡ (holds urgent (get target p.accumulators) || any owns atoms))
        × (IsTable p.accumulators → IsTable q.accumulators)
  unfolding project_atoms
  project_atoms-target [] p = (ground arith, ground arith, λ h. h)
  project_atoms-target (a ∷ atoms) p =
      let p1 = project_direct locations direct contextual a p in
      let p2 = project_contextual locations direct contextual a p1 in
      let p3 = project_unowned locations direct contextual a p2 in
      let d = after_direct a p in
      let c = after_contextual a p1 in
      let u = after_unowned a p2 in
      let rest = project_atoms-target atoms p3 in
      (
        rest.0 ∙ rw (u, c.0, d.0) (ground arith),
        rest.1 ∙ rw (u, c.1, d.1) (ground arith),
        λ h. rest.2 (rw u (c.2 (d.2 h))),
      )

abbrev pub names : Text → TargetImpact → Bool
names target i = text_eq i.target target

abbrev pub names_urgent : Text → TargetImpact → Bool
names_urgent target i = text_eq i.target target && text_eq i.action must_update

reported :
    (p : TargetAccumulator → Bool) (q : TargetImpact → Bool) (target : Text)
    (accs : Table TargetAccumulator)
    → ((e : Text × TargetAccumulator) → q (target_impact e) ≡ (text_eq e.0 target && p e.1))
    → IsTable accs
    → count_if q (sort_by impact_less (map target_impact accs))
      ≡ (if holds p (get target accs) then 1 else 0)
reported p q target accs same h =
    count_if-sort_by impact_less q (map target_impact accs)
    ∙ count_if-map q target_impact accs
    ∙ ap (λ f. count_if f accs) (fun_ext same)
    ∙ count_entry p target accs h

named :
    (target : Text) (e : Text × TargetAccumulator)
    → names target (target_impact e) ≡ (text_eq e.0 target && true)
unfolding target_impact
named target (t, acc) = ground arith

named_urgent :
    (target : Text) (e : Text × TargetAccumulator)
    → names_urgent target (target_impact e) ≡ (text_eq e.0 target && urgent e.1)
unfolding target_impact
named_urgent target (t, acc) = refl

is_there : (o : Option TargetAccumulator) → holds (λ acc. true) o ≡ is_some o
is_there none = refl
is_there (some acc) = refl

module _ (document : Saga) (baseline : ChangeSet) (report : Report) (incoming : ChangeSet) where
  -- The target owns source that the atom removes or alters.
  abbrev pub is_hit : Text → Atom → Bool
  is_hit target a = has_key target (direct_owners baseline report incoming a.key)

  -- The target owns source next to the atom, which adds a line.
  abbrev pub is_neighbour : Text → Atom → Bool
  is_neighbour target a = has_key target (contextual_owners baseline report incoming a.key)

  projection-target :
      (target : Text)
      → let accs = (projection document baseline report incoming).accumulators in
        (has_key target accs ≡ any (λ a. is_hit target a || is_neighbour target a) incoming.atoms)
        × (holds urgent (get target accs) ≡ any (is_hit target) incoming.atoms)
        × IsTable accs
  unfolding projection get
  projection-target target =
      let facts =
        project_atoms-target (index_targets document.manifest.title document.section)
          (direct_owners baseline report incoming) (contextual_owners baseline report incoming)
          target incoming.atoms empty_projection in
      (facts.0, facts.1, facts.2 tt)

  -- `Analyze` reports a target exactly if it owns source that some incoming atom removes or alters,
  -- or source next to an added line, and then once; it asks for an update of the target exactly if
  -- the first holds.
  pub analyze-targets :
      (mode : Text) (incoming_saga : Option Saga) (target : Text)
      → let r = analyze document baseline report incoming mode incoming_saga in
        (count_if (names target) r.targets
          ≡ (if any (λ a. is_hit target a || is_neighbour target a) incoming.atoms then 1 else 0))
        × (count_if (names_urgent target) r.targets
            ≡ (if any (is_hit target) incoming.atoms then 1 else 0))
  unfolding analyze
  analyze-targets mode incoming_saga target =
      let accs = (projection document baseline report incoming).accumulators in
      let facts = projection-target target in
      (
        reported (λ acc. true) (names target) target accs (named target) facts.2
            ∙ ap (λ b. if b then 1 else 0) (is_there (get target accs) ∙ facts.0),
        reported urgent (names_urgent target) target accs (named_urgent target) facts.2
            ∙ ap (λ b. if b then 1 else 0) facts.1,
      )
