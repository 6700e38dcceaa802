-- ===== src/Impact/Mentions.antt =====
-- Which sets of owners mention a target, as assignments are merged into them.
use changesaga.Prelude.{
  ◌≡◌, refl, ◌⊎◌, inl, inr, Bool, true, ◌||◌, List, [], ◌∷◌, ◌++◌, Text, text_eq, any, get, put,
  value_or, has_key, has_key-put, Bool-cases, arith,
}
use changesaga.Coverage.Visit.{Assignment}
use changesaga.Impact.Records.{OwnerSet}
use changesaga.Impact.Owners.{same_evidence, merge_assignment, merge_assignments, merge_owner_sets}

module _ (target : Text) where
  -- Some of the assignments is to the target.
  abbrev pub assigns : List Assignment → Bool
  assigns = any (λ a. text_eq a.target target)

  abbrev pub mentions : OwnerSet → Bool
  mentions = any (λ e. assigns e.1)

  any-append : (xs ys : List Assignment) → assigns (xs ++ ys) ≡ (assigns xs || assigns ys)
  any-append [] ys = refl
  any-append (x ∷ xs) ys = ground (arith, any-append xs ys)

  mentions-put :
      (k : Text) (a : Assignment) (os : OwnerSet)
      → mentions (put k (value_or [] (get k os) ++ (a ∷ [])) os)
        ≡ (mentions os || text_eq a.target target)
  unfolding get put
  mentions-put k a [] = ground arith
  mentions-put k a ((j, found) ∷ os) = elim (Bool-cases (text_eq j k)) [
    | inl e ↦ rw (e, any-append found (a ∷ [])) (ground arith)
    | inr e ↦ ground (arith, mentions-put k a os)
  ]

  merge_assignment-mentions :
      (os : OwnerSet) (a : Assignment)
      → mentions (merge_assignment os a) ≡ true
      → (mentions os ≡ true) ⊎ (text_eq a.target target ≡ true)
  unfolding merge_assignment
  merge_assignment-mentions os a h =
      elim (Bool-cases (any (same_evidence a) (value_or [] (get a.target os)))) [
        | inl e ↦ inl (rw e at h)
        | inr e ↦ elim (Bool-cases (mentions os)) [
          | inl m ↦ inl m
          | inr m ↦ inr (rw (e, mentions-put a.target a os, m) at h)
        ]
      ]

  pub merge_assignments-mentions :
      (os : OwnerSet) (found : List Assignment)
      → mentions (merge_assignments os found) ≡ true
      → (mentions os ≡ true) ⊎ (assigns found ≡ true)
  unfolding merge_assignments
  merge_assignments-mentions os [] h = inl h
  merge_assignments-mentions os (a ∷ found) h =
      elim (merge_assignments-mentions (merge_assignment os a) found h) [
        | inl m ↦ elim (merge_assignment-mentions os a m) [
          | inl n ↦ inl n
          | inr t ↦ inr (rw t refl)
        ]
        | inr n ↦ inr (ground arith)
      ]

  has_key-put_self :
      (a : Assignment) (x : List Assignment) (os : OwnerSet)
      → has_key target (put a.target x os) ≡ true
      → (has_key target os ≡ true) ⊎ (text_eq a.target target ≡ true)
  has_key-put_self a x os h = elim (Bool-cases (text_eq a.target target)) [
    | inl e ↦ inr e
    | inr e ↦ inl (rw (has_key-put target a.target x os, e) at h)
  ]

  merge_assignment-has_key :
      (os : OwnerSet) (a : Assignment)
      → has_key target (merge_assignment os a) ≡ true
      → (has_key target os ≡ true) ⊎ (text_eq a.target target ≡ true)
  unfolding merge_assignment
  merge_assignment-has_key os a h =
      elim (Bool-cases (any (same_evidence a) (value_or [] (get a.target os)))) [
        | inl e ↦ inl (rw e at h)
        | inr e ↦ has_key-put_self a _ os (rw e at h)
      ]

  pub merge_assignments-has_key :
      (os : OwnerSet) (found : List Assignment)
      → has_key target (merge_assignments os found) ≡ true
      → (has_key target os ≡ true) ⊎ (assigns found ≡ true)
  unfolding merge_assignments
  merge_assignments-has_key os [] h = inl h
  merge_assignments-has_key os (a ∷ found) h =
      elim (merge_assignments-has_key (merge_assignment os a) found h) [
        | inl m ↦ elim (merge_assignment-has_key os a m) [ inl n ↦ inl n | inr t ↦ inr (rw t refl) ]
        | inr n ↦ inr (ground arith)
      ]

  pub merge_owner_sets-has_key :
      (os source : OwnerSet)
      → has_key target (merge_owner_sets os source) ≡ true
      → (has_key target os ≡ true) ⊎ (mentions source ≡ true)
  unfolding merge_owner_sets
  merge_owner_sets-has_key os [] h = inl h
  merge_owner_sets-has_key os ((t, found) ∷ source) h =
      elim (merge_owner_sets-has_key (merge_assignments os found) source h) [
        | inl m ↦ elim (merge_assignments-has_key os found m) [
          | inl n ↦ inl n
          | inr n ↦ inr (rw n refl)
        ]
        | inr n ↦ inr (ground arith)
      ]
