-- ===== src/Coverage/Index/Sorting.antt =====
-- Sorting by the start line and binary search: a sorted slice holds every atom that starts in the range.
use changesaga.Prelude.{
  ℕ, suc, ◌-◌, ◌≤◌, ◌<◌, ◌≡◌, refl, sym, ◌∙◌, ap, Bool, true, false, List, [], ◌∷◌, ltb, leb,
  ltb→lt, count_if, All, Bool-cases, inl, inr, arith,
}
use changesaga.DiffUri.{Reference}
use changesaga.Coverage.Index.{
  IndexedAtom, insert_by_start, sort_by_start, search, drop, take, slice, in_range,
}

abbrev AtLeast : ℕ → List IndexedAtom → Type 0
AtLeast n = All (λ w. n ≤ w.reference.start)

abbrev pub Sorted : List IndexedAtom → Type 0
Sorted [] = Unit
Sorted (v ∷ vs) = AtLeast v.reference.start vs × Sorted vs

-- The line range of a reference is in order.
abbrev pub IsOrdered : IndexedAtom → Type 0
IsOrdered v = v.reference.start ≤ v.reference.end

AtLeast-weaken : (m n : ℕ) (vs : List IndexedAtom) → m ≤ n → AtLeast n vs → AtLeast m vs
AtLeast-weaken m n [] h all = tt
AtLeast-weaken m n (v ∷ vs) h (hv, hs) = (omega arith, AtLeast-weaken m n vs h hs)

insert-AtLeast :
    (n : ℕ) (v : IndexedAtom) (vs : List IndexedAtom)
    → n ≤ v.reference.start
    → AtLeast n vs
    → AtLeast n (insert_by_start v vs)
unfolding insert_by_start
insert-AtLeast n v [] h all = (h, tt)
insert-AtLeast n v (w ∷ ws) h (hw, hs) = ground (arith, insert-AtLeast n v ws h hs)

insert-Sorted :
    (v : IndexedAtom) (vs : List IndexedAtom) → Sorted vs → Sorted (insert_by_start v vs)
unfolding insert_by_start
insert-Sorted v [] h = (tt, tt)
insert-Sorted v (w ∷ ws) (hw, hs) = ground (
  arith,
  insert-AtLeast w.reference.start v ws,
  insert-Sorted v ws hs,
  AtLeast-weaken v.reference.start w.reference.start ws,
)

pub sort-Sorted : (vs : List IndexedAtom) → Sorted (sort_by_start vs)
unfolding sort_by_start
sort-Sorted [] = tt
sort-Sorted (v ∷ vs) = insert-Sorted v (sort_by_start vs) (sort-Sorted vs)

count_if-insert :
    (p : IndexedAtom → Bool) (v : IndexedAtom) (vs : List IndexedAtom)
    → count_if p (insert_by_start v vs) ≡ count_if p (v ∷ vs)
unfolding insert_by_start
count_if-insert p v [] = refl
count_if-insert p v (w ∷ ws) = ground (arith, count_if-insert p v ws)

pub count_if-sort :
    (p : IndexedAtom → Bool) (vs : List IndexedAtom) → count_if p (sort_by_start vs) ≡ count_if p vs
unfolding sort_by_start
count_if-sort p [] = refl
count_if-sort p (v ∷ vs) =
    ground (arith, count_if-insert p v (sort_by_start vs), count_if-sort p vs)

insert-All :
    (P : IndexedAtom → Type 0) (v : IndexedAtom) (vs : List IndexedAtom)
    → P v
    → All P vs
    → All P (insert_by_start v vs)
unfolding insert_by_start
insert-All P v [] h hs = (h, tt)
insert-All P v (w ∷ ws) h (hw, hs) = elim (Bool-cases (ltb w.reference.start v.reference.start)) [
  | inl e ↦ rw e (hw, insert-All P v ws h hs)
  | inr e ↦ rw e (h, (hw, hs))
]

pub sort-All :
    (P : IndexedAtom → Type 0) (vs : List IndexedAtom) → All P vs → All P (sort_by_start vs)
unfolding sort_by_start
sort-All P [] h = tt
sort-All P (v ∷ vs) (hv, hs) = insert-All P v (sort_by_start vs) hv (sort-All P vs hs)

-- The test implies that an atom starts in the range.
abbrev pub Within : (IndexedAtom → Bool) → ℕ → ℕ → List IndexedAtom → Type 0
Within p lo hi = All (λ v. p v ≡ true → (lo ≤ v.reference.start) × (v.reference.start ≤ hi))

count_above :
    (p : IndexedAtom → Bool) (lo hi n : ℕ) (vs : List IndexedAtom)
    → hi < n
    → AtLeast n vs
    → Within p lo hi vs
    → count_if p vs ≡ 0
count_above p lo hi n [] h all within = refl
count_above p lo hi n (v ∷ vs) h (hv, hs) (wv, ws) = elim (Bool-cases (p v)) [
  | inl e ↦ absurd (omega (arith, wv e))
  | inr e ↦ rw e (count_above p lo hi n vs h hs ws)
]

count_if-take :
    (p : IndexedAtom → Bool) (lo hi : ℕ) (vs : List IndexedAtom)
    → Sorted vs
    → Within p lo hi vs
    → count_if p (take (search (λ v. ltb hi v.reference.start) vs) vs) ≡ count_if p vs
unfolding take search
count_if-take p lo hi [] sorted within = refl
count_if-take p lo hi (v ∷ vs) (above, sorted) (wv, ws) =
    elim (Bool-cases (ltb hi v.reference.start)) [
      | inl e ↦ rw e (
          sym (
            count_above p lo hi v.reference.start (v ∷ vs) (ltb→lt _ _ e) (omega arith, above)
              (wv, ws)))
      | inr e ↦ rw e (ground (arith, count_if-take p lo hi vs sorted ws))
    ]

take_sub_zero :
    (p : IndexedAtom → Bool) (n : ℕ) (vs : List IndexedAtom)
    → count_if p (take (n - 0) vs) ≡ count_if p (take n vs)
take_sub_zero p n vs = ap (λ k. count_if p (take k vs)) (omega arith)

take_sub_suc :
    (p : IndexedAtom → Bool) (m n : ℕ) (vs : List IndexedAtom)
    → count_if p (take (suc m - suc n) vs) ≡ count_if p (take (m - n) vs)
take_sub_suc p m n vs = ap (λ k. count_if p (take k vs)) (omega arith)

count_if-slice :
    (p : IndexedAtom → Bool) (lo hi : ℕ) (vs : List IndexedAtom)
    → lo ≤ hi
    → Sorted vs
    → Within p lo hi vs
    → count_if p (
        slice
          (search (λ v. leb lo v.reference.start) vs)
          (search (λ v. ltb hi v.reference.start) vs)
          vs)
      ≡ count_if p vs
unfolding slice search drop take
count_if-slice p lo hi [] le sorted within = refl
count_if-slice p lo hi (v ∷ vs) le (above, sorted) (wv, ws) =
    elim (Bool-cases (leb lo v.reference.start)) [
      | inl e ↦ rw e (
          take_sub_zero p (search (λ w. ltb hi w.reference.start) (v ∷ vs)) (v ∷ vs)
          ∙ count_if-take p lo hi (v ∷ vs) (above, sorted) (wv, ws))
      | inr e ↦
          let below : ltb hi v.reference.start ≡ false = ground arith in
          let outside : p v ≡ false = ground arith in
          rw (e, below, outside)
            (take_sub_suc p (search (λ w. ltb hi w.reference.start) vs)
                (search (λ w. leb lo w.reference.start) vs)
                (drop (search (λ w. leb lo w.reference.start) vs) vs)
              ∙ count_if-slice p lo hi vs le sorted ws)
    ]

pub count_if-in_range :
    (p : IndexedAtom → Bool) (selector : Reference) (vs : List IndexedAtom)
    → selector.start ≤ selector.end
    → Sorted vs
    → Within p selector.start selector.end vs
    → count_if p (in_range selector vs) ≡ count_if p vs
unfolding in_range
count_if-in_range p selector vs le sorted within =
    count_if-slice p selector.start selector.end vs le sorted within
