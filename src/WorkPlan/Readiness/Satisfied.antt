-- ===== src/WorkPlan/Readiness/Satisfied.antt =====
-- When `DependencySatisfied` says yes.
use changesaga.Prelude.{
  Table, get, ℕ, suc, ◌≡◌, refl, ◌↔◌, ◌⊎◌, inl, inr, ap, Bool, true, Option, none, some, [], ◌∷◌,
  Text, codes, text_eq, text_eq_sound, text_eq_complete, All, any, ◌==◌, Bool-cases, arith, ◌<◌,
}
use changesaga.WorkPlan.Records.{
  MergeUnit, WorkItem, DependencyCondition, Dependency, Contract, Plan,
}
use changesaga.WorkPlan.Readiness.{
  Verdict, accept, expect_state, merges_satisfied, progress_satisfied, is_current,
  contract_satisfied, contract_of, condition_satisfied, dependency_satisfied, found_dependency,
  prerequisite_satisfied, single_state, progress_heads, merge_heads, contract_heads,
  current_merge_units, contract_revision_ids, work_item_id,
}

-- The item's progress events have one head, and its state is "done".
abbrev pub ProgressDone : WorkItem → Type 0
ProgressDone item = single_state (progress_heads item) ≡ some (codes "done")

-- The merge events of the unit have one head, and its state is "integrated".
abbrev pub Integrated : WorkItem → Text → Type 0
Integrated item unit = single_state (merge_heads item unit) ≡ some (codes "integrated")

abbrev pub has_required : Table MergeUnit → Bool
has_required = any (λ u. u.1.required)

-- Some unit is required, and every required one is integrated.
abbrev pub MergesIntegrated : WorkItem → Table MergeUnit → Type 0
MergesIntegrated item units =
    (has_required units ≡ true) × All (λ u. u.1.required ≡ true → Integrated item u.0) units

-- The URN names a contract's one current revision, and the contract's events have one head, whose
-- state is "fulfilled".
abbrev pub ContractFulfilled : Plan → Text → Type 0
ContractFulfilled plan urn =
    (ids : Text × Text) × (c : Contract) × (contract_revision_ids urn ≡ some ids)
    × (get ids.0 plan.contracts ≡ some c)
    × (is_current c.heads ids.1 ≡ true)
    × (single_state (contract_heads c) ≡ some (codes "fulfilled"))

abbrev pub ConditionHolds : Plan → WorkItem → DependencyCondition → Type 0
ConditionHolds plan item c =
    ((c.kind ≡ codes "progress_done") × ProgressDone item)
    ⊎ (((c.kind ≡ codes "merge_integrated") × MergesIntegrated item (current_merge_units item))
        ⊎ ((c.kind ≡ codes "contract_fulfilled") × ContractFulfilled plan c.contract_revision))

abbrev pub IsSatisfied : Plan → Text → Type 0
IsSatisfied plan id =
    (d : Dependency) × (item : WorkItem) × (get id plan.dependencies ≡ some d)
    × (get (work_item_id d.prerequisite) plan.work_items ≡ some item)
    × ConditionHolds plan item d.condition

some-injective : {A : Type 0} {a b : A} → ◌≡◌ {A = Option A} (some a) (some b) → a ≡ b
some-injective h = cc

expect_state_iff :
    (state conflicted other : Text) (s : Option Text) (next : Verdict)
    → (expect_state state conflicted other s next ≡ accept) ↔ ((s ≡ some state) × (next ≡ accept))
expect_state_iff state conflicted other none next = (λ h. cc, λ h. cc (h.0))
expect_state_iff state conflicted other (some s) next = elim (Bool-cases (text_eq s state)) [
  | inl e ↦ rw e (λ h. (ap some (text_eq_sound s state e), h), λ h. h.1)
  | inr e ↦ rw e (λ h. cc, λ h. ground (arith, text_eq_complete s state (some-injective h.0)))
]

abbrev MergesFrom : WorkItem → Table MergeUnit → ℕ → Type 0
MergesFrom item units n =
    ((has_required units ≡ true) ⊎ (0 < n))
    × All (λ u. u.1.required ≡ true → Integrated item u.0) units

not_both : (n : ℕ) → (n == 0) ≡ true → 0 < n → ⊥
not_both n e h = ground arith

merges_satisfied_iff :
    (item : WorkItem) (units : Table MergeUnit) (n : ℕ)
    → (merges_satisfied item units n ≡ accept) ↔ MergesFrom item units n
unfolding merges_satisfied
merges_satisfied_iff item [] n = elim (Bool-cases (n == 0)) [
  | inl e ↦ rw e (λ h. cc, λ m. elim m.0 [ inl r ↦ cc | inr r ↦ absurd (not_both n e r) ])
  | inr e ↦ rw e (λ h. (inr (ground arith), tt), λ m. refl)
]
merges_satisfied_iff item ((id, u) ∷ us) n = elim (Bool-cases u.required) [
  | inl e ↦ rw e (
    λ h.
        let (one, rest) = (expect_state_iff _ _ _ _ _).0 h in
        (inl refl, (λ r. one, ((merges_satisfied_iff item us (suc n)).0 rest).1)),
    λ m.
        (expect_state_iff _ _ _ _ _).1
          (m.1.0 refl, (merges_satisfied_iff item us (suc n)).1 (inr (omega arith), m.1.1)),
  )
  | inr e ↦ rw e (
    λ h. let m = (merges_satisfied_iff item us n).0 h in (m.0, (λ r. cc, m.1)),
    λ m. (merges_satisfied_iff item us n).1 (m.0, m.1.1),
  )
]

contract_satisfied_iff :
    (c : Contract) (revision : Text)
    → (contract_satisfied (some c) revision ≡ accept) ↔ (
        (is_current c.heads revision ≡ true)
        × (single_state (contract_heads c) ≡ some (codes "fulfilled")))
unfolding contract_satisfied
contract_satisfied_iff c revision = elim (Bool-cases (is_current c.heads revision)) [
  | inl e ↦ rw e (
    λ h. (refl, ((expect_state_iff _ _ _ _ _).0 h).0),
    λ h. (expect_state_iff _ _ _ _ _).1 (h.1, refl),
  )
  | inr e ↦ rw e (λ h. cc, λ h. cc (h.0))
]

module _ (plan : Plan) where
  with_contract :
      (urn : Text) (ids : Text × Text)
      → contract_revision_ids urn ≡ some ids
      → (g : Option Contract) → get ids.0 plan.contracts ≡ g
      → contract_satisfied g ids.1 ≡ accept
      → ContractFulfilled plan urn
  unfolding contract_satisfied
  with_contract urn ids e none k h = cc
  with_contract urn ids e (some c) k h =
      let (current, state) = (contract_satisfied_iff c ids.1).0 h in (ids, c, e, k, current, state)

  with_ids :
      (urn : Text) (o : Option (Text × Text))
      → contract_revision_ids urn ≡ o
      → contract_of plan o ≡ accept
      → ContractFulfilled plan urn
  with_ids urn none e h = cc
  with_ids urn (some ids) e h = with_contract urn ids e (get ids.0 plan.contracts) refl h

  contract_of_iff :
      (urn : Text)
      → (contract_of plan (contract_revision_ids urn) ≡ accept) ↔ ContractFulfilled plan urn
  contract_of_iff urn = (
    with_ids urn (contract_revision_ids urn) refl,
    λ f. rw (f.2, f.3) ((contract_satisfied_iff f.1 f.0.1).1 (f.4, f.5)),
  )

  progress_iff : (item : WorkItem) → (progress_satisfied item ≡ accept) ↔ ProgressDone item
  unfolding progress_satisfied
  progress_iff item =
      (λ h. ((expect_state_iff _ _ _ _ _).0 h).0, λ h. (expect_state_iff _ _ _ _ _).1 (h, refl))

  merges_iff :
      (item : WorkItem) (units : Table MergeUnit)
      → (merges_satisfied item units 0 ≡ accept) ↔ MergesIntegrated item units
  merges_iff item units = (
    λ h.
        let m = (merges_satisfied_iff item units 0).0 h in
        (elim m.0 [ inl r ↦ r | inr r ↦ absurd (not_both 0 refl r) ], m.1),
    λ m. (merges_satisfied_iff item units 0).1 (inl m.0, m.1),
  )

  condition_iff :
      (item : WorkItem) (c : DependencyCondition)
      → (condition_satisfied plan item c ≡ accept) ↔ ConditionHolds plan item c
  unfolding condition_satisfied text_eq
  condition_iff item c = (λ h. forward h, backward)
    where
      forward : condition_satisfied plan item c ≡ accept → ConditionHolds plan item c
      forward h = elim (Bool-cases (text_eq c.kind (codes "progress_done"))) [
        | inl e ↦
            inl (text_eq_sound c.kind (codes "progress_done") e, (progress_iff item).0 (rw e at h))
        | inr e ↦ elim (Bool-cases (text_eq c.kind (codes "merge_integrated"))) [
          | inl f ↦ inr (
              inl (
                text_eq_sound c.kind (codes "merge_integrated") f,
                (merges_iff item (current_merge_units item)).0 (rw (e, f) at h),
              ))
          | inr f ↦ elim (Bool-cases (text_eq c.kind (codes "contract_fulfilled"))) [
            | inl g ↦ inr (
                inr (
                  text_eq_sound c.kind (codes "contract_fulfilled") g,
                  (contract_of_iff c.contract_revision).0 (rw (e, f, g) at h),
                ))
            | inr g ↦ cc (rw (e, f, g) at h)
          ]
        ]
      ]

      backward : ConditionHolds plan item c → condition_satisfied plan item c ≡ accept
      backward k = elim k [
        | inl p ↦ rw p.0 ((progress_iff item).1 p.1)
        | inr q ↦ elim q [
          | inl m ↦ rw m.0 ((merges_iff item (current_merge_units item)).1 m.1)
          | inr f ↦ rw f.0 ((contract_of_iff c.contract_revision).1 f.1)
        ]
      ]

  found_iff :
      (d : Dependency)
      → (found_dependency plan (some d) ≡ accept) ↔ (
          (item : WorkItem) × (get (work_item_id d.prerequisite) plan.work_items ≡ some item)
          × ConditionHolds plan item d.condition)
  found_iff d = (
    with_item (get (work_item_id d.prerequisite) plan.work_items) refl,
    λ k. rw (k.1) ((condition_iff k.0 d.condition).1 k.2),
  )
    where
      with_item :
          (o : Option WorkItem)
          → get (work_item_id d.prerequisite) plan.work_items ≡ o
          → prerequisite_satisfied plan d o ≡ accept
          → ((item : WorkItem) × (get (work_item_id d.prerequisite) plan.work_items ≡ some item)
              × ConditionHolds plan item d.condition)
      with_item none e h = cc
      with_item (some item) e h = (item, e, (condition_iff item d.condition).0 h)

-- `DependencySatisfied` says yes exactly if the dependency and its prerequisite exist and the
-- condition holds: the item's progress has one head and it is done, or some merge unit is required
-- and every required one has one head and it is integrated, or the condition names the one current
-- revision of a contract whose events have one head and it is fulfilled.
pub dependency_satisfied_iff-IsSatisfied :
    (plan : Plan) (id : Text) → (dependency_satisfied plan id ≡ accept) ↔ IsSatisfied plan id
unfolding dependency_satisfied
dependency_satisfied_iff-IsSatisfied plan id = (
  with_dependency (get id plan.dependencies) refl,
  λ k. rw (k.2) ((found_iff plan k.0).1 (k.1, k.3, k.4)),
)
  where
    with_dependency :
        (o : Option Dependency)
        → get id plan.dependencies ≡ o
        → found_dependency plan o ≡ accept
        → IsSatisfied plan id
    with_dependency none e h = cc
    with_dependency (some d) e h =
        let (item, found, holds) = (found_iff plan d).0 h in (d, item, e, found, holds)
