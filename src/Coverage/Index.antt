-- ===== src/Coverage/Index.antt =====
-- The index of the atoms by kind and line: `buildIndex`, `lineCandidates` and `lineIndexKey`.
pub mod Sorting
pub mod Buckets
pub mod Candidates
pub mod Build
use changesaga.Prelude.{
  ℕ, zero, suc, ◌+◌, ◌-◌, Bool, true, false, ◌&&◌, ◌||◌, List, [], ◌∷◌, ◌++◌, Option, none, some,
  Text, codes, text_eq, ltb, leb, if◌then◌else◌, any, Result, ok, err,
}
use changesaga.DiffUri.{Reference, UriParser, is_line}
use changesaga.GitDiff.{Atom, ChangeSet}

pub record IndexedAtom : Type 0 where
  pub index : ℕ
  pub reference : Reference

-- The map `lines` is an association list; `sorted` lists the keys whose bucket has been sorted.
pub record AtomIndex : Type 0 where
  pub lines : List (Text × List IndexedAtom)
  pub events : List IndexedAtom
  pub sorted : List Text

abbrev pub is_empty : Text → Bool
is_empty [] = true
is_empty (c ∷ s) = false

-- The field values that a reference is joined from, a zero byte between two of them.
unfoldable pub line_index_key : Reference → Text
line_index_key r =
    r.repository ++ (0 ∷ r.base_oid ++ (0 ∷ r.head_oid ++ (0 ∷ r.path ++ (0 ∷ r.side))))

-- The values of a key, none if it is missing.
unfoldable pub bucket : Text → List (Text × List IndexedAtom) → List IndexedAtom
bucket k [] = []
bucket k ((j, vs) ∷ m) = if text_eq j k then vs else bucket k m

-- `lines[key] = values`.
unfoldable pub set_bucket :
    Text → List IndexedAtom → List (Text × List IndexedAtom) → List (Text × List IndexedAtom)
set_bucket k vs [] = (k, vs) ∷ []
set_bucket k vs ((j, ws) ∷ m) = if text_eq j k then (j, vs) ∷ m else (j, ws) ∷ set_bucket k vs m

-- One round of the loop of `buildIndex`: the atom goes to the end of its bucket, or of the events.
unfoldable pub add_atom : ℕ → Option Reference → AtomIndex → AtomIndex
unfolding bucket set_bucket line_index_key
add_atom i none index = index
add_atom i (some r) index =
    let value : IndexedAtom = record { index = i; reference = r } in
    if is_line r
    then record index {
      lines =
          set_bucket (line_index_key r) (bucket (line_index_key r) index.lines ++ (value ∷ []))
            index.lines;
    }
    else record index { events = index.events ++ (value ∷ []) }

module _ (parser : UriParser) (changes : ChangeSet) where
  -- The reference of one atom: from the comparison's shared identity, or, where a part of that is
  -- missing, parsed from the atom's own URI.
  unfoldable pub atom_reference : Atom → Option Reference
  atom_reference atom =
      let path =
        if text_eq atom.kind (codes "event") && text_eq atom.event (codes "rename")
        then []
        else atom.path in
      if is_empty changes.repository || is_empty changes.base_oid || is_empty changes.head_oid
      then elim (parser.parse atom.uri) [ ok r ↦ some r | err e ↦ none ]
      else some (record {
        repository = changes.repository;
        base_oid = changes.base_oid;
        head_oid = changes.head_oid;
        kind = atom.kind;
        path = path;
        side = atom.side;
        start = atom.line;
        end = atom.line;
        event = atom.event;
        old_path = atom.old_path;
        new_path = atom.new_path;
      })

  unfoldable pub add_atoms : ℕ → List Atom → AtomIndex → AtomIndex
  unfolding add_atom atom_reference
  add_atoms i [] index = index
  add_atoms i (atom ∷ atoms) index =
      add_atoms (suc i) atoms (add_atom i (atom_reference atom) index)

  unfoldable pub build_index : AtomIndex
  unfolding add_atoms
  build_index = add_atoms 0 changes.atoms (record { lines = []; events = []; sorted = [] })

-- `sort.SliceStable` by the start line, as an insertion sort.
unfoldable pub insert_by_start : IndexedAtom → List IndexedAtom → List IndexedAtom
insert_by_start v [] = v ∷ []
insert_by_start v (w ∷ ws) =
    if ltb w.reference.start v.reference.start then w ∷ insert_by_start v ws else v ∷ w ∷ ws

unfoldable pub sort_by_start : List IndexedAtom → List IndexedAtom
unfolding insert_by_start
sort_by_start [] = []
sort_by_start (v ∷ vs) = insert_by_start v (sort_by_start vs)

-- `sort.Search`: the first position at which the test holds, the length if there is none.
unfoldable pub search : (IndexedAtom → Bool) → List IndexedAtom → ℕ
search test [] = 0
search test (v ∷ vs) = let rest = search test vs in if test v then 0 else suc rest

unfoldable pub drop : ℕ → List IndexedAtom → List IndexedAtom
drop n [] = []
drop zero (v ∷ vs) = v ∷ vs
drop (suc n) (v ∷ vs) = drop n vs

unfoldable pub take : ℕ → List IndexedAtom → List IndexedAtom
take n [] = []
take zero (v ∷ vs) = []
take (suc n) (v ∷ vs) = v ∷ take n vs

-- `values[start:end]`, for bounds in order.
unfoldable pub slice : ℕ → ℕ → List IndexedAtom → List IndexedAtom
unfolding take drop
slice start end vs = take (end - start) (drop start vs)

-- The atoms that start in the selector's range. The values sorted by start.
unfoldable pub in_range : Reference → List IndexedAtom → List IndexedAtom
unfolding search slice
in_range selector vs =
    slice (search (λ v. leb selector.start v.reference.start) vs)
      (search (λ v. ltb selector.end v.reference.start) vs) vs

-- The bucket of a key, sorted in place; nothing changes if the key is missing.
unfoldable pub sort_bucket : Text → List (Text × List IndexedAtom) → List (Text × List IndexedAtom)
unfolding sort_by_start
sort_bucket k [] = []
sort_bucket k ((j, vs) ∷ m) =
    if text_eq j k then (j, sort_by_start vs) ∷ m else (j, vs) ∷ sort_bucket k m

-- `lineCandidates`: the bucket is sorted in place when it is first asked for.
unfoldable pub line_candidates : Reference → AtomIndex → AtomIndex × List IndexedAtom
unfolding bucket sort_bucket in_range line_index_key
line_candidates selector index =
    let key = line_index_key selector in
    let values = bucket key index.lines in
    if any (λ k. text_eq k key) index.sorted then (index, in_range selector values) else (
      record index { lines = sort_bucket key index.lines; sorted = key ∷ index.sorted },
      in_range selector (sort_by_start values),
    )

-- The candidates that `visitDiffs` and `visitDiffsSummary` walk.
unfoldable pub candidates : Reference → AtomIndex → AtomIndex × List IndexedAtom
unfolding line_candidates
candidates selector index =
    if is_line selector then line_candidates selector index else (index, index.events)
