-- ===== src/GitDiff/TypeChanges.antt =====
-- internal/gitdiff/gitdiff.go: `coalesceTypeChanges`, and `parse` with it.
pub mod Unique
use changesaga.Prelude.{
  ℕ, zero, suc, ◌+◌, ◌-◌, Bool, true, false, not, ◌&&◌, ◌||◌, Option, none, some, List, [], ◌∷◌,
  ◌++◌, map, Text, codes, text_eq, has, Result, ok, err, ◌>>=◌, Table, get, put, value_or,
  get_elem?, ◌==◌, if◌then◌else◌,
}
use changesaga.GitDiff.{Atom, DisplayLine}
use changesaga.GitDiff.Paths.{Library, key}
use changesaga.GitDiff.Parse.{State, parse_lines, event_atom, display_event}

-- The positions, from 1, of the last addition and the last deletion of a path; 0 is none.
pub record Pair : Type 0 where
  pub add : ℕ
  pub delete : ℕ

abbrev pub is_added : Atom → Bool
is_added a = text_eq a.event (codes "add")

abbrev pub is_lifecycle : Atom → Bool
is_lifecycle a = text_eq a.kind (codes "event") && (is_added a || text_eq a.event (codes "delete"))

abbrev pub no_pair : Pair
no_pair = record { add = 0; delete = 0 }

abbrev pub note_position : ℕ → Atom → Pair → Pair
note_position position a p =
    if is_added a then record p { add = position } else record p { delete = position }

unfoldable pub pairs_from : ℕ → List Atom → Table Pair → Table Pair
unfolding get put
pairs_from i [] pairs = pairs
pairs_from i (a ∷ atoms) pairs = pairs_from (suc i) atoms (
    if is_lifecycle a
    then put a.path (note_position (suc i) a (value_or no_pair (get a.path pairs))) pairs
    else pairs)

-- The event that stands for an addition and a deletion of one path.
unfoldable pub replacement : (ℕ → Text) → Text → Atom
unfolding key
replacement itoa path =
    let atom = event_atom (codes "type-change") path [] [] in record atom { key = key itoa atom }

abbrev pub is_whole : Pair → Bool
is_whole p = not (p.add == 0) && not (p.delete == 0)

abbrev pub key_at : List Atom → ℕ → List Text
key_at atoms position = elim (get_elem? atoms (position - 1)) [ none ↦ [] | some a ↦ a.key ∷ [] ]

module _ (itoa : ℕ → Text) where
  unfoldable pub replacements : Table Pair → Table Atom
  unfolding replacement
  replacements [] = []
  replacements ((path, p) ∷ pairs) =
      let rest = replacements pairs in
      if is_whole p then (path, replacement itoa path) ∷ rest else rest

unfoldable pub removed_keys : List Atom → Table Pair → List Text
removed_keys atoms [] = []
removed_keys atoms ((path, p) ∷ pairs) =
    let rest = removed_keys atoms pairs in
    if is_whole p then key_at atoms p.add ++ (key_at atoms p.delete ++ rest) else rest

-- The replacement of an atom or a line, if its path has one and its key is removed.
abbrev pub replaces : Table Atom → List Text → Text → Text → Option Atom
replaces table removed path k = if has k removed then get path table else none

unfoldable pub coalesce_atoms : Table Atom → List Text → List Text → List Atom → List Atom
unfolding get has
coalesce_atoms table removed emitted [] = []
coalesce_atoms table removed emitted (a ∷ atoms) =
    let kept = a ∷ coalesce_atoms table removed emitted atoms in
    let skipped = coalesce_atoms table removed emitted atoms in
    let fresh = coalesce_atoms table removed (a.path ∷ emitted) atoms in
    elim (replaces table removed a.path a.key) [
      | none ↦ kept
      | some r ↦ if has a.path emitted then skipped else r ∷ fresh
    ]

unfoldable pub coalesce_lines :
    Table Atom → List Text → List Text → List DisplayLine → List DisplayLine
unfolding get has
coalesce_lines table removed emitted [] = []
coalesce_lines table removed emitted (l ∷ ls) =
    let kept = l ∷ coalesce_lines table removed emitted ls in
    let skipped = coalesce_lines table removed emitted ls in
    let fresh = coalesce_lines table removed (l.path ∷ emitted) ls in
    elim (replaces table removed l.path l.atom_key) [
      | none ↦ kept
      | some r ↦
          if has l.path emitted then skipped else display_event r.event l.path [] [] r.key ∷ fresh
    ]

abbrev pub is_empty_table : {A : Type 0} → Table A → Bool
is_empty_table [] = true
is_empty_table (e ∷ t) = false

module _ (itoa : ℕ → Text) where
  unfoldable pub coalesce_type_changes : List Atom → List DisplayLine → List Atom × List DisplayLine
  unfolding pairs_from replacements removed_keys coalesce_atoms coalesce_lines
  coalesce_type_changes atoms lines =
      let pairs = pairs_from 0 atoms [] in
      let table = replacements itoa pairs in
      let removed = removed_keys atoms pairs in
      if is_empty_table table
      then (atoms, lines)
      else (coalesce_atoms table removed [] atoms, coalesce_lines table removed [] lines)

module _ (lib : Library) where
  -- `parse` on the lines that the scanner returns.
  unfoldable pub parse : List Text → Result Text (List Atom × List DisplayLine)
  unfolding parse_lines coalesce_type_changes
  parse lines =
      parse_lines lib lines >>= λ st. ok (coalesce_type_changes lib.itoa st.atoms st.display_lines)
