-- ===== src/Coverage/Index/Build.antt =====
-- `buildIndex` makes an index of the atoms that have a reference.
use changesaga.Prelude.{
  ℕ, zero, suc, ◌+◌, ◌≤◌, ◌<◌, ◌≡◌, refl, ◌∙◌, Bool, true, false, ◌&&◌, not, List, [], ◌∷◌, ◌++◌,
  append_assoc, map, Option, none, some, Text, text_eq, ◌==◌, count_if, count_if-append, All,
  All-append, Bool-cases, inl, inr, arith, get_elem?, text_eq_sound, ap, any, append-nil,
  Option-cases,
}
use changesaga.DiffUri.{Reference, UriParser, is_line, matches}
use changesaga.GitDiff.{Atom, ChangeSet}
use changesaga.Coverage.Index.{
  IndexedAtom, AtomIndex, line_index_key, bucket, set_bucket, atom_reference, add_atom, add_atoms,
  build_index,
}
use changesaga.Coverage.Index.Sorting.{IsOrdered}
use changesaga.Coverage.Index.Buckets.{IsIndexOf, in_bucket, bucket-set_bucket}

-- The references with their positions, from position `i` on.
abbrev pub indexed_from : ℕ → List (Option Reference) → List IndexedAtom
indexed_from i [] = []
indexed_from i (none ∷ rs) = indexed_from (suc i) rs
indexed_from i (some r ∷ rs) = record { index = i; reference = r } ∷ indexed_from (suc i) rs

-- An index under construction: no bucket has been sorted yet.
record IsFresh (everything : List IndexedAtom) (index : AtomIndex) : Type 0 where
  holds : IsIndexOf everything index
  unsorted : index.sorted ≡ []

module _ (everything : List IndexedAtom) (index : AtomIndex) (h : IsFresh everything index) (i : ℕ)
    (r : Reference) (le : r.start ≤ r.end) where
  abbrev added : IndexedAtom
  added = record { index = i; reference = r }

  grown-count :
      (q p : IndexedAtom → Bool) (vs : List IndexedAtom) (b : Bool)
      → count_if p vs ≡ count_if q everything
      → q added ≡ (p added && b)
      → b ≡ true
      → count_if p (vs ++ (added ∷ [])) ≡ count_if q (everything ++ (added ∷ []))
  grown-count q p vs b same test passes =
      rw
        (count_if-append p vs (added ∷ []), count_if-append q everything (added ∷ []), test, passes)
        (ground (arith, same))

  kept-count :
      (q p : IndexedAtom → Bool) (vs : List IndexedAtom)
      → count_if p vs ≡ count_if q everything
      → q added ≡ false
      → count_if p vs ≡ count_if q (everything ++ (added ∷ []))
  kept-count q p vs same test =
      rw (count_if-append q everything (added ∷ []), test) (omega (arith, same))

  line_grown : List (Text × List IndexedAtom)
  line_grown =
      set_bucket (line_index_key r) (bucket (line_index_key r) index.lines ++ (added ∷ []))
        index.lines

  line-lines_count :
      is_line r ≡ true
      → (k : Text) (p : IndexedAtom → Bool)
      → count_if p (bucket k line_grown)
        ≡ count_if (λ c. p c && in_bucket k c) (everything ++ (added ∷ []))
  unfolding line_grown
  line-lines_count l k p = elim (Bool-cases (text_eq (line_index_key r) k)) [
    | inl e ↦
        rw (bucket-set_bucket (line_index_key r) k _ index.lines, e)
          (grown-count _ p (bucket (line_index_key r) index.lines) true
            (ap (λ j. count_if p (bucket j index.lines)) (text_eq_sound _ k e)
              ∙ h.holds.lines_count k p)
            (rw (l, e) refl) refl)
    | inr e ↦
        rw (bucket-set_bucket (line_index_key r) k _ index.lines, e)
          (kept-count _ p (bucket k index.lines) (h.holds.lines_count k p)
            (rw (l, e) (ground arith)))
  ]

  line-IsOrdered : (k : Text) → All IsOrdered (bucket k line_grown)
  unfolding line_grown
  line-IsOrdered k = elim (Bool-cases (text_eq (line_index_key r) k)) [
    | inl e ↦
        rw (bucket-set_bucket (line_index_key r) k _ index.lines, e)
          (All-append IsOrdered (bucket (line_index_key r) index.lines) (added ∷ [])
            (h.holds.ordered (line_index_key r)) (le, tt))
    | inr e ↦ rw (bucket-set_bucket (line_index_key r) k _ index.lines, e) (h.holds.ordered k)
  ]

  add_atom-IsFresh : IsFresh (everything ++ (added ∷ [])) (add_atom i (some r) index)
  unfolding add_atom line_grown
  add_atom-IsFresh = elim (Bool-cases (is_line r)) [
    | inl l ↦ rw l (record {
      holds = record {
        lines_count = line-lines_count l;
        events_count =
            λ p. kept-count _ p index.events (h.holds.events_count p) (rw l (ground arith));
        ordered = line-IsOrdered;
        sorted = λ k flagged. cc (ap (any (λ j. text_eq j k)) h.unsorted);
      };
      unsorted = h.unsorted;
    })
    | inr l ↦ rw l (record {
      holds = record {
        lines_count = λ k p.
            kept-count _ p (bucket k index.lines) (h.holds.lines_count k p) (rw l (ground arith));
        events_count =
            λ p. grown-count _ p index.events true (h.holds.events_count p) (rw l refl) refl;
        ordered = h.holds.ordered;
        sorted = h.holds.sorted;
      };
      unsorted = h.unsorted;
    })
  ]

module _ (parser : UriParser) (changes : ChangeSet) where
  atom_reference-ordered :
      (atom : Atom) (r : Reference) → atom_reference parser changes atom ≡ some r → r.start ≤ r.end
  unfolding atom_reference
  atom_reference-ordered atom r h = ground (arith, parser.ordered atom.uri r)

  -- The references of the comparison's atoms.
  abbrev pub references : List Atom → List (Option Reference)
  references = map (atom_reference parser changes)

  add_atoms-IsFresh :
      (i : ℕ) (atoms : List Atom) (everything : List IndexedAtom) (index : AtomIndex)
      → IsFresh everything index
      → IsFresh
          (everything ++ indexed_from i (references atoms))
          (add_atoms parser changes i atoms index)
  unfolding add_atoms add_atom
  add_atoms-IsFresh i [] everything index h = rw append-nil h
  add_atoms-IsFresh i (atom ∷ atoms) everything index h =
      elim (Option-cases (atom_reference parser changes atom)) [
        | inl e ↦ rw e (add_atoms-IsFresh (suc i) atoms everything index h)
        | inr (r, e) ↦ rw e (
            rw append_assoc at (
              add_atoms-IsFresh (suc i) atoms
                (everything ++ (record { index = i; reference = r } ∷ [])) _
                (add_atom-IsFresh everything index h i r (atom_reference-ordered atom r e))))
      ]

  pub build_index-IsIndexOf :
      IsIndexOf (indexed_from 0 (references changes.atoms)) (build_index parser changes)
  unfolding build_index bucket
  build_index-IsIndexOf =
      (add_atoms-IsFresh 0 changes.atoms [] _ (record {
        holds = record {
          lines_count = λ k p. refl;
          events_count = λ p. refl;
          ordered = λ k. tt;
          sorted = λ k flagged. cc;
        };
        unsorted = refl;
      })).holds

-- How many atoms stand at a position and are matched.
abbrev pub hit : ℕ → Reference → IndexedAtom → Bool
hit i s c = (c.index == i) && matches s c.reference

abbrev pub selects : Reference → Option Reference → Bool
selects s none = false
selects s (some r) = matches s r

abbrev pub selects_at : Reference → Option (Option Reference) → Bool
selects_at s none = false
selects_at s (some o) = selects s o

abbrev pub to_number : Bool → ℕ
to_number true = 1
to_number false = 0

hit_before :
    (s : Reference) (i j : ℕ) (rs : List (Option Reference))
    → i < j
    → count_if (hit i s) (indexed_from j rs) ≡ 0
hit_before s i j [] lt = refl
hit_before s i j (none ∷ rs) lt = hit_before s i (suc j) rs (omega arith)
hit_before s i j (some r ∷ rs) lt = ground (arith, hit_before s i (suc j) rs)

hit_shift :
    (s : Reference) (j k : ℕ) (vs : List IndexedAtom)
    → count_if (hit (j + suc k) s) vs ≡ count_if (hit (suc j + k) s) vs
hit_shift s j k vs = ap (λ n. count_if (hit n s) vs) (omega arith)

hit_from :
    (s : Reference) (j k : ℕ) (rs : List (Option Reference))
    → count_if (hit (j + k) s) (indexed_from j rs) ≡ to_number (selects_at s (get_elem? rs k))
hit_from s j k [] = refl
hit_from s j zero (none ∷ rs) = hit_before s (j + 0) (suc j) rs (omega arith)
hit_from s j zero (some r ∷ rs) = ground (arith, hit_before s (j + 0) (suc j) rs)
hit_from s j (suc k) (none ∷ rs) =
    hit_shift s j k (indexed_from (suc j) rs) ∙ hit_from s (suc j) k rs
hit_from s j (suc k) (some r ∷ rs) =
    ground (arith, hit_shift s j k (indexed_from (suc j) rs), hit_from s (suc j) k rs)

-- Each atom is indexed once, at its own position.
pub hit_once :
    (s : Reference) (i : ℕ) (rs : List (Option Reference))
    → count_if (hit i s) (indexed_from 0 rs) ≡ to_number (selects_at s (get_elem? rs i))
hit_once s i rs = ap (λ n. count_if (hit n s) (indexed_from 0 rs)) (omega arith) ∙ hit_from s 0 i rs

-- Some atom is matched.
pub any-selects :
    (s : Reference) (j : ℕ) (rs : List (Option Reference))
    → (count_if (λ c. matches s c.reference) (indexed_from j rs) == 0) ≡ not (any (selects s) rs)
any-selects s j [] = refl
any-selects s j (none ∷ rs) = any-selects s (suc j) rs
any-selects s j (some r ∷ rs) = ground (arith, any-selects s (suc j) rs)
