-- ===== src/Coverage/Index/Buckets.antt =====
-- The buckets: what an index holds of the atoms, kept when a bucket is sorted in place.
use changesaga.Prelude.{
  ◌≡◌, refl, ◌∙◌, Bool, true, ◌&&◌, not, List, [], ◌∷◌, Text, text_eq, text_eq_iff, if◌then◌else◌,
  any, count_if, All, Bool-cases, inl, inr, arith,
}
use changesaga.DiffUri.{Reference, is_line}
use changesaga.Coverage.Index.{
  IndexedAtom, AtomIndex, line_index_key, bucket, set_bucket, sort_by_start, sort_bucket,
  line_candidates,
}
use changesaga.Coverage.Index.Sorting.{Sorted, IsOrdered, sort-Sorted, count_if-sort, sort-All}

-- The map operations.
pub bucket-set_bucket :
    (k j : Text) (vs : List IndexedAtom) (m : List (Text × List IndexedAtom))
    → bucket j (set_bucket k vs m) ≡ (if text_eq k j then vs else bucket j m)
unfolding bucket set_bucket
bucket-set_bucket k j vs [] = refl
bucket-set_bucket k j vs ((i, ws) ∷ m) =
    ground (arith, text_eq_iff i k, text_eq_iff i j, text_eq_iff k j, bucket-set_bucket k j vs m)

bucket-sort_bucket :
    (k j : Text) (m : List (Text × List IndexedAtom))
    → bucket j (sort_bucket k m) ≡ (if text_eq k j then sort_by_start (bucket j m) else bucket j m)
unfolding bucket sort_bucket sort_by_start
bucket-sort_bucket k j [] = ground arith
bucket-sort_bucket k j ((i, ws) ∷ m) =
    ground (arith, text_eq_iff i k, text_eq_iff i j, text_eq_iff k j, bucket-sort_bucket k j m)

-- What the index holds of the atoms' references: `all` lists them with their positions.
abbrev pub in_bucket : Text → IndexedAtom → Bool
in_bucket k c = is_line c.reference && text_eq (line_index_key c.reference) k

pub record IsIndexOf (everything : List IndexedAtom) (index : AtomIndex) : Type 0 where
  pub lines_count :
      (k : Text) (p : IndexedAtom → Bool)
      → count_if p (bucket k index.lines) ≡ count_if (λ c. p c && in_bucket k c) everything
  pub events_count :
      (p : IndexedAtom → Bool)
      → count_if p index.events ≡ count_if (λ c. p c && not (is_line c.reference)) everything
  pub ordered : (k : Text) → All IsOrdered (bucket k index.lines)
  pub sorted :
      (k : Text) → any (λ j. text_eq j k) index.sorted ≡ true → Sorted (bucket k index.lines)

sort_bucket-count :
    (k j : Text) (p : IndexedAtom → Bool) (m : List (Text × List IndexedAtom))
    → count_if p (bucket j (sort_bucket k m)) ≡ count_if p (bucket j m)
sort_bucket-count k j p m = elim (Bool-cases (text_eq k j)) [
  | inl e ↦ rw (bucket-sort_bucket k j m, e) (count_if-sort p (bucket j m))
  | inr e ↦ rw (bucket-sort_bucket k j m, e)
]

sort_bucket-IsOrdered :
    (k j : Text) (m : List (Text × List IndexedAtom))
    → All IsOrdered (bucket j m)
    → All IsOrdered (bucket j (sort_bucket k m))
sort_bucket-IsOrdered k j m h = elim (Bool-cases (text_eq k j)) [
  | inl e ↦ rw (bucket-sort_bucket k j m, e) (sort-All IsOrdered (bucket j m) h)
  | inr e ↦ rw (bucket-sort_bucket k j m, e) h
]

sort_bucket-Sorted :
    (k j : Text) (m : List (Text × List IndexedAtom)) (flags : List Text)
    → (any (λ i. text_eq i j) flags ≡ true → Sorted (bucket j m))
    → any (λ i. text_eq i j) (k ∷ flags) ≡ true
    → Sorted (bucket j (sort_bucket k m))
sort_bucket-Sorted k j m flags before flagged = elim (Bool-cases (text_eq k j)) [
  | inl e ↦ rw (bucket-sort_bucket k j m, e) (sort-Sorted (bucket j m))
  | inr e ↦ rw (bucket-sort_bucket k j m, e) (before (rw e at flagged))
]

sort_bucket-IsIndexOf :
    (k : Text) (everything : List IndexedAtom) (index : AtomIndex)
    → IsIndexOf everything index
    → IsIndexOf everything
        (record index { lines = sort_bucket k index.lines; sorted = k ∷ index.sorted })
sort_bucket-IsIndexOf k everything index h = record {
  lines_count = λ j p. sort_bucket-count k j p index.lines ∙ h.lines_count j p;
  events_count = h.events_count;
  ordered = λ j. sort_bucket-IsOrdered k j index.lines (h.ordered j);
  sorted = λ j. sort_bucket-Sorted k j index.lines index.sorted (h.sorted j);
}

-- Asking for candidates keeps the index an index of the same atoms.
pub line_candidates-IsIndexOf :
    (selector : Reference) (everything : List IndexedAtom) (index : AtomIndex)
    → IsIndexOf everything index
    → IsIndexOf everything (line_candidates selector index).0
unfolding line_candidates
line_candidates-IsIndexOf selector everything index h =
    elim (Bool-cases (any (λ k. text_eq k (line_index_key selector)) index.sorted)) [
      | inl e ↦ rw e h
      | inr e ↦ rw e (sort_bucket-IsIndexOf (line_index_key selector) everything index h)
    ]
