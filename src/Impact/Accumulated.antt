-- ===== src/Impact/Accumulated.antt =====
-- What one incoming atom does to the accumulator of a target.
use changesaga.Prelude.{
  ◌≡◌, refl, ◌∙◌, inl, inr, Bool, true, ◌||◌, Option, none, some, List, [], ◌∷◌, Text, text_eq,
  text_eq_sound, Table, get, put, value_or, has_key, has_key-put, holds, holds-put, IsTable,
  put-IsTable, Bool-cases, arith,
}
use changesaga.GitDiff.{Atom}
use changesaga.Coverage.Visit.{Assignment}
use changesaga.Impact.Records.{TargetLocation, TargetAccumulator, OwnerSet}
use changesaga.Impact.Targets.{
  must_update, consider_update, accumulate, new_accumulator, no_location, add_target_changes,
}

abbrev pub urgent : TargetAccumulator → Bool
urgent acc = text_eq acc.action must_update

module _ (locations : Table TargetLocation) (target : Text) where
  pub add_target_changes-has_key :
      (owners : OwnerSet) (atom : Atom) (relationship action : Text)
      (accs : Table TargetAccumulator)
      → has_key target (add_target_changes locations owners atom relationship action accs)
        ≡ (has_key target accs || has_key target owners)
  unfolding add_target_changes get
  add_target_changes-has_key [] atom relationship action accs = ground arith
  add_target_changes-has_key ((t, found) ∷ owners) atom relationship action accs =
      let acc =
        accumulate found atom relationship action (
          value_or (new_accumulator (value_or no_location (get t locations)) action)
            (get t accs)) in
      add_target_changes-has_key owners atom relationship action (put t acc accs)
      ∙ ground (arith, has_key-put target t acc accs)

  pub add_target_changes-IsTable :
      (owners : OwnerSet) (atom : Atom) (relationship action : Text)
      (accs : Table TargetAccumulator)
      → IsTable accs
      → IsTable (add_target_changes locations owners atom relationship action accs)
  unfolding add_target_changes
  add_target_changes-IsTable [] atom relationship action accs h = h
  add_target_changes-IsTable ((t, found) ∷ owners) atom relationship action accs h =
      add_target_changes-IsTable owners atom relationship action _ (put-IsTable t _ accs h)

  urgent_now :
      (found : List Assignment) (atom : Atom) (relationship : Text) (acc : TargetAccumulator)
      → urgent (accumulate found atom relationship must_update acc) ≡ true
  unfolding accumulate text_eq
  urgent_now found atom relationship acc = refl

  pub add_target_changes-urgent :
      (owners : OwnerSet) (atom : Atom) (relationship : Text) (accs : Table TargetAccumulator)
      → holds urgent
          (get target (add_target_changes locations owners atom relationship must_update accs))
        ≡ (holds urgent (get target accs) || has_key target owners)
  unfolding add_target_changes get
  add_target_changes-urgent [] atom relationship accs = ground arith
  add_target_changes-urgent ((t, found) ∷ owners) atom relationship accs =
      let before =
        value_or (new_accumulator (value_or no_location (get t locations)) must_update)
          (get t accs) in
      let acc = accumulate found atom relationship must_update before in
      add_target_changes-urgent owners atom relationship (put t acc accs)
      ∙ rw (holds-put urgent target t acc accs, urgent_now found atom relationship before)
          (elim (Bool-cases (text_eq t target)) [ inl e ↦ rw e (ground arith) | inr e ↦ rw e refl ])

  as_before :
      (found : List Assignment) (atom : Atom) (relationship : Text) (location : TargetLocation)
      (old : Option TargetAccumulator)
      → urgent (
          accumulate found atom relationship consider_update
            (value_or (new_accumulator location consider_update) old))
        ≡ holds urgent old
  unfolding accumulate text_eq
  as_before found atom relationship location none = refl
  as_before found atom relationship location (some acc) = refl

  pub add_target_changes-calm :
      (owners : OwnerSet) (atom : Atom) (relationship : Text) (accs : Table TargetAccumulator)
      → holds urgent
          (get target (add_target_changes locations owners atom relationship consider_update accs))
        ≡ holds urgent (get target accs)
  unfolding add_target_changes
  add_target_changes-calm [] atom relationship accs = refl
  add_target_changes-calm ((t, found) ∷ owners) atom relationship accs =
      let location = value_or no_location (get t locations) in
      let acc =
        accumulate found atom relationship consider_update
          (value_or (new_accumulator location consider_update) (get t accs)) in
      add_target_changes-calm owners atom relationship (put t acc accs)
      ∙ rw
          (
            holds-put urgent target t acc accs,
            as_before found atom relationship location (get t accs),
          )
          (elim (Bool-cases (text_eq t target)) [
            | inl e ↦ let same = text_eq_sound t target e in rw (e, same) refl
            | inr e ↦ rw e refl
          ])
