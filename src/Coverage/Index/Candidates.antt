-- ===== src/Coverage/Index/Candidates.antt =====
-- No candidate that a selector matches is left out.
use changesaga.Prelude.{
  ℕ, ◌≤◌, ◌≡◌, refl, ◌∙◌, Bool, true, false, ◌&&◌, List, Text, text_eq, text_eq_refl, text_eq_sound,
  ◌==◌, any, count_if, count_if_congr, All-intro, All-map, Bool-cases, inl, inr, arith,
}
use changesaga.DiffUri.{Reference, is_line, matches}
use changesaga.Coverage.Index.{
  IndexedAtom, AtomIndex, line_index_key, bucket, sort_by_start, line_candidates, candidates,
}
use changesaga.Coverage.Index.Sorting.{
  Within, IsOrdered, sort-Sorted, count_if-sort, sort-All, count_if-in_range,
}
use changesaga.Coverage.Index.Buckets.{IsIndexOf, in_bucket, line_candidates-IsIndexOf}

-- The candidates are counted as the bucket is, by a test that only atoms in the range pass.
count_if-line_candidates :
    (p : IndexedAtom → Bool) (selector : Reference) (everything : List IndexedAtom)
    (index : AtomIndex)
    → IsIndexOf everything index
    → selector.start ≤ selector.end
    → ((c : IndexedAtom)
        → IsOrdered c
        → p c ≡ true
        → (selector.start ≤ c.reference.start) × (c.reference.start ≤ selector.end))
    → count_if p (line_candidates selector index).1
      ≡ count_if (λ c. p c && in_bucket (line_index_key selector) c) everything
unfolding line_candidates
count_if-line_candidates p selector everything index h le within =
    elim (Bool-cases (any (λ k. text_eq k key) index.sorted)) [
      | inl e ↦
          rw e
            (count_if-in_range p selector values le (h.sorted key e) inside ∙ h.lines_count key p)
      | inr e ↦ rw e (
          count_if-in_range p selector (sort_by_start values) le (sort-Sorted values)
            (sort-All _ values inside)
          ∙ count_if-sort p values
          ∙ h.lines_count key p)
    ]
  where
    key : Text
    key = line_index_key selector

    values : List IndexedAtom
    values = bucket key index.lines

    inside : Within p selector.start selector.end values
    inside = All-map IsOrdered _ within values (h.ordered key)

-- What a match says.
pub matches_kind : (s a : Reference) → matches s a ≡ true → text_eq s.kind a.kind ≡ true
unfolding matches
matches_kind s a h = ground arith

matches_line :
    (s a : Reference)
    → matches s a ≡ true
    → is_line s ≡ true
    → (text_eq s.repository a.repository ≡ true)
      × (text_eq s.base_oid a.base_oid ≡ true)
      × (text_eq s.head_oid a.head_oid ≡ true)
      × (text_eq s.path a.path ≡ true)
      × (text_eq s.side a.side ≡ true)
      × (s.start ≤ a.start)
      × (a.end ≤ s.end)
unfolding matches
matches_line s a h l = ground arith

-- Two references that match have the same key, so the bucket of the selector's key misses none.
matches-line_index_key :
    (s a : Reference) → matches s a ≡ true → is_line s ≡ true → line_index_key a ≡ line_index_key s
unfolding line_index_key
matches-line_index_key s a h l =
    let m = matches_line s a h l in
    cc (
      text_eq_sound s.repository a.repository m.0,
      text_eq_sound s.base_oid a.base_oid m.1,
      text_eq_sound s.head_oid a.head_oid m.2,
      text_eq_sound s.path a.path m.3,
      text_eq_sound s.side a.side m.4,
    )

matches-is_line : (s a : Reference) → matches s a ≡ true → is_line a ≡ is_line s
matches-is_line s a h = rw (text_eq_sound s.kind a.kind (matches_kind s a h))

matches-in_bucket :
    (s a : Reference) (i : ℕ)
    → matches s a ≡ true
    → is_line s ≡ true
    → in_bucket (line_index_key s) (record { index = i; reference = a }) ≡ true
matches-in_bucket s a i h l =
    rw (matches-is_line s a h, l, matches-line_index_key s a h l) (text_eq_refl (line_index_key s))

-- The atom at position `i`, if the selector matches it.
abbrev pub hit : ℕ → Reference → IndexedAtom → Bool
hit i s c = (c.index == i) && matches s c.reference

pub candidates-IsIndexOf :
    (selector : Reference) (everything : List IndexedAtom) (index : AtomIndex)
    → IsIndexOf everything index
    → IsIndexOf everything (candidates selector index).0
unfolding candidates
candidates-IsIndexOf selector everything index h = elim (Bool-cases (is_line selector)) [
  | inl e ↦ rw e (line_candidates-IsIndexOf selector everything index h)
  | inr e ↦ rw e h
]

absorb : (a b : Bool) → (a ≡ true → b ≡ true) → (a && b) ≡ a
absorb true b h = h refl
absorb false b h = refl

-- The index changes nothing but the time: a test that passes only atoms which the selector matches
-- passes as many of the candidates as of all the atoms.
pub candidates_complete :
    (p : IndexedAtom → Bool) (selector : Reference) (everything : List IndexedAtom)
    (index : AtomIndex)
    → IsIndexOf everything index
    → selector.start ≤ selector.end
    → ((c : IndexedAtom) → p c ≡ true → matches selector c.reference ≡ true)
    → count_if p (candidates selector index).1 ≡ count_if p everything
unfolding candidates
candidates_complete p selector everything index h le only = elim (Bool-cases (is_line selector)) [
  | inl e ↦ rw e (
      count_if-line_candidates p selector everything index h le
        (λ c o pc. let m = matches_line selector c.reference (only c pc) e in (m.5, omega arith))
      ∙ count_if_congr _ p everything (
          All-intro _
            (λ c.
              absorb (p c) _ (λ pc. matches-in_bucket selector c.reference c.index (only c pc) e))
            everything))
  | inr e ↦ rw e (
      h.events_count p
      ∙ count_if_congr _ p everything (
          All-intro _
            (λ c.
              absorb (p c) _ (λ pc. rw (matches-is_line selector c.reference (only c pc), e) refl))
            everything))
]
