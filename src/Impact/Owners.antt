-- ===== src/Impact/Owners.antt =====
-- internal/impact/impact.go: the sets of owners, and whom the baseline and the neighbouring lines name.
-- A map that is only looked up in is a function.
use changesaga.Prelude.{
  ℕ, zero, suc, Bool, true, false, not, ◌&&◌, ◌||◌, Option, none, some, List, [], ◌∷◌, ◌++◌, Text,
  codes, text_eq, any, Table, get, put, value_or, get_elem?, ◌==◌, if◌then◌else◌,
}
use changesaga.GitDiff.{Atom, DisplayLine}
use changesaga.Coverage.Index.{is_empty}
use changesaga.Coverage.Visit.{Assignment}
use changesaga.Impact.Records.{OwnerSet}

abbrev pub is_line_atom : Atom → Bool
is_line_atom a = text_eq a.kind (codes "line")

abbrev pub is_event_atom : Atom → Bool
is_event_atom a = text_eq a.kind (codes "event")

-- `baselineAtomExistsAtHead`
abbrev pub baseline_atom_exists_at_head : Atom → Bool
baseline_atom_exists_at_head a =
    if is_line_atom a then text_eq a.side (codes "new") else not (text_eq a.event (codes "delete"))

-- `atomPaths`: the path and the new path, each once and none empty.
unfoldable pub atom_paths : Atom → List Text
atom_paths a =
    let path = if is_empty a.path then [] else a.path ∷ [] in
    if is_empty a.new_path || (not (is_empty a.path) && text_eq a.path a.new_path)
    then path
    else path ++ (a.new_path ∷ [])

abbrev pub same_evidence : Assignment → Assignment → Bool
same_evidence a e = text_eq e.diff_file a.diff_file && e.diff == a.diff

-- One assignment joins those of its target, unless they hold it already.
unfoldable pub merge_assignment : OwnerSet → Assignment → OwnerSet
merge_assignment destination a =
    let existing = value_or [] (get a.target destination) in
    if any (same_evidence a) existing
    then destination
    else put a.target (existing ++ (a ∷ [])) destination

unfoldable pub merge_assignments : OwnerSet → List Assignment → OwnerSet
unfolding merge_assignment
merge_assignments destination [] = destination
merge_assignments destination (a ∷ given) = merge_assignments (merge_assignment destination a) given

unfoldable pub merge_owner_sets : OwnerSet → OwnerSet → OwnerSet
unfolding merge_assignments
merge_owner_sets destination [] = destination
merge_owner_sets destination ((target, given) ∷ source) =
    merge_owner_sets (merge_assignments destination given) source

-- `ownership[key]`
abbrev pub owners_of_key : Table (List Assignment) → Text → List Assignment
owners_of_key ownership key = value_or [] (get key ownership)

-- `currentLines`: the new lines of the baseline by path and number, the last of each.
abbrev pub CurrentLines : Type 0
CurrentLines = Text → ℕ → Option Atom

abbrev pub FileOwners : Type 0
FileOwners = Text → OwnerSet

unfoldable pub add_current_line : Atom → CurrentLines → CurrentLines
add_current_line a current =
    if is_line_atom a && text_eq a.side (codes "new")
    then (λ path line. if text_eq a.path path && a.line == line then some a else current path line)
    else current

unfoldable pub add_path_owners : List Assignment → List Text → FileOwners → FileOwners
unfolding merge_assignments
add_path_owners given [] files = files
add_path_owners given (p ∷ ps) files =
    add_path_owners given ps
      (λ q. if text_eq p q then merge_assignments (files p) given else files q)

unfoldable pub add_file_owners : Table (List Assignment) → Atom → FileOwners → FileOwners
unfolding add_path_owners atom_paths
add_file_owners ownership a files =
    if baseline_atom_exists_at_head a
    then add_path_owners (owners_of_key ownership a.key) (atom_paths a) files
    else files

-- The first loop of `Analyze`, over the atoms of the baseline.
unfoldable pub index_baseline :
    Table (List Assignment) → List Atom → CurrentLines → FileOwners → CurrentLines × FileOwners
unfolding add_current_line add_file_owners
index_baseline ownership [] current files = (current, files)
index_baseline ownership (a ∷ atoms) current files =
    index_baseline ownership atoms (add_current_line a current) (add_file_owners ownership a files)

-- The path under which the baseline knows the file of an event.
abbrev pub event_path : Atom → Text
event_path a =
    if text_eq a.event (codes "rename") && not (is_empty a.old_path) then a.old_path else a.path

unfoldable pub owners_of_line : Table (List Assignment) → Atom → Option Atom → OwnerSet
unfolding merge_assignments
owners_of_line ownership a none = []
owners_of_line ownership a (some b) =
    if text_eq b.content a.content then merge_assignments [] (owners_of_key ownership b.key) else []

-- The owners of the source that an incoming atom removes or alters.
unfoldable pub direct_owners_of :
    Table (List Assignment) → CurrentLines → FileOwners → Atom → OwnerSet
unfolding owners_of_line merge_owner_sets
direct_owners_of ownership current files a =
    if is_line_atom a && text_eq a.side (codes "old")
    then owners_of_line ownership a (current a.path a.line)
    else if is_event_atom a && not (text_eq a.event (codes "add"))
    then merge_owner_sets [] (files (event_path a))
    else []

abbrev pub has_owners : OwnerSet → Bool
has_owners [] = false
has_owners (o ∷ os) = true

-- `owners[key] = found`, if something was found.
abbrev pub record_owners : Text → OwnerSet → (Text → OwnerSet) → Text → OwnerSet
record_owners key found owners =
    if has_owners found then (λ k. if text_eq key k then found else owners k) else owners

-- A loop of `Analyze` that records the owners of some atoms.
unfoldable pub owners_by_key : (Atom → OwnerSet) → List Atom → (Text → OwnerSet) → Text → OwnerSet
owners_by_key found [] owners = owners
owners_by_key found (a ∷ atoms) owners =
    owners_by_key found atoms (record_owners a.key (found a) owners)

-- The lines before a position, the nearest first, and the lines behind it.
unfoldable pub lines_before : {A : Type 0} → ℕ → List A → List A → List A
lines_before zero xs nearest = nearest
lines_before (suc n) [] nearest = nearest
lines_before (suc n) (x ∷ xs) nearest = lines_before n xs (x ∷ nearest)

unfoldable pub lines_after : {A : Type 0} → ℕ → List A → List A
lines_after n [] = []
lines_after zero (x ∷ xs) = xs
lines_after (suc n) (x ∷ xs) = lines_after n xs

abbrev pub is_context : DisplayLine → Bool
is_context l = text_eq l.kind (codes "context")

abbrev pub is_event_line : DisplayLine → Bool
is_event_line l = text_eq l.kind (codes "event")

abbrev pub is_old : Option Atom → Bool
is_old none = false
is_old (some a) = text_eq a.side (codes "old")

abbrev pub key_of : Option Atom → Text
key_of none = []
key_of (some a) = a.key

-- One loop of `replacementOwners`: the changed lines next to the position, up to the first other.
unfoldable pub replaced :
    Text → (Text → Option Atom) → (Text → OwnerSet) → List DisplayLine → OwnerSet → OwnerSet
unfolding merge_owner_sets
replaced path atoms direct [] owners = owners
replaced path atoms direct (l ∷ ls) owners =
    let atom = atoms l.atom_key in
    let rest =
      replaced path atoms direct ls
        (if is_old atom then merge_owner_sets owners (direct (key_of atom)) else owners) in
    if is_context l || is_event_line l || not (text_eq l.path path) then owners else rest

-- `lines[position].Path`; the position is one of the list.
abbrev pub path_at : ℕ → List DisplayLine → Text
path_at position lines = elim (get_elem? lines position) [ none ↦ [] | some l ↦ l.path ]

unfoldable pub replacement_owners :
    ℕ → List DisplayLine → (Text → Option Atom) → (Text → OwnerSet) → OwnerSet
unfolding replaced lines_before lines_after
replacement_owners position lines atoms direct =
    let path = path_at position lines in
    replaced path atoms direct (lines_after position lines)
      (replaced path atoms direct (lines_before position lines []) [])

unfoldable pub add_context_owners : Table (List Assignment) → Option Atom → OwnerSet → OwnerSet
unfolding merge_assignments
add_context_owners ownership none owners = owners
add_context_owners ownership (some a) owners =
    merge_assignments owners (owners_of_key ownership a.key)

-- One loop of `adjacentOwners`: the nearest context line of the file.
unfoldable pub adjacent :
    Text → CurrentLines → Table (List Assignment) → List DisplayLine → OwnerSet → OwnerSet
unfolding add_context_owners
adjacent path current ownership [] owners = owners
adjacent path current ownership (l ∷ ls) owners =
    let rest = adjacent path current ownership ls owners in
    if not (text_eq l.path path) || is_event_line l
    then owners
    else if is_context l
    then add_context_owners ownership (current path l.old_line) owners
    else rest

unfoldable pub adjacent_owners :
    ℕ → List DisplayLine → CurrentLines → Table (List Assignment) → OwnerSet
unfolding adjacent lines_before lines_after
adjacent_owners position lines current ownership =
    let path = path_at position lines in
    adjacent path current ownership (lines_after position lines)
      (adjacent path current ownership (lines_before position lines []) [])

-- `incomingByKey` and `linePosition`: the last of each key.
unfoldable pub atoms_by_key : List Atom → (Text → Option Atom) → Text → Option Atom
atoms_by_key [] found = found
atoms_by_key (a ∷ atoms) found =
    atoms_by_key atoms (λ k. if text_eq a.key k then some a else found k)

unfoldable pub line_positions : ℕ → List DisplayLine → (Text → Option ℕ) → Text → Option ℕ
line_positions index [] found = found
line_positions index (l ∷ ls) found = line_positions (suc index) ls (
    if is_empty l.atom_key then found else λ k.
    if text_eq l.atom_key k then some index else found k)

-- The owners of the source around an incoming new line.
unfoldable pub contextual_owners_at :
    List DisplayLine
    → (Text → Option Atom)
    → (Text → OwnerSet)
    → CurrentLines
    → Table (List Assignment)
    → Option ℕ
    → OwnerSet
unfolding merge_owner_sets replacement_owners adjacent_owners
contextual_owners_at lines atoms direct current ownership none = []
contextual_owners_at lines atoms direct current ownership (some position) =
    let replaced_here = merge_owner_sets [] (replacement_owners position lines atoms direct) in
    if has_owners replaced_here
    then replaced_here
    else merge_owner_sets replaced_here (adjacent_owners position lines current ownership)

unfoldable pub contextual_owners_of :
    List DisplayLine
    → (Text → Option Atom)
    → (Text → OwnerSet)
    → CurrentLines
    → Table (List Assignment)
    → (Text → Option ℕ)
    → Atom
    → OwnerSet
unfolding contextual_owners_at
contextual_owners_of lines atoms direct current ownership position a =
    if is_line_atom a && text_eq a.side (codes "new")
    then contextual_owners_at lines atoms direct current ownership (position a.key)
    else []
