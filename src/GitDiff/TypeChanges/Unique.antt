-- ===== src/GitDiff/TypeChanges/Unique.antt =====
-- The keys of the atoms are unique behind `coalesceTypeChanges` too.
use mathlib.Core.List.Memᴰ
use mathlib.Core.List.{Memᴰ}
use changesaga.Prelude.{
  ℕ, ◌≡◌, ◌≢◌, refl, sym, ap, ◌∙◌, ◌⊎◌, inl, inr, false, none, some, List, [], ◌∷◌, ◌++◌, Text,
  codes, text_eq, text_eq_sound, has, has_absent, ok, ok-injective, subst, All, Table, get,
  Bool-cases, Option-cases, if◌then◌else◌, arith,
}
use changesaga.GitDiff.{Atom, DisplayLine}
use changesaga.GitDiff.Paths.{Library, key}
use changesaga.GitDiff.Parse.{State, parse_lines}
use changesaga.GitDiff.Parse.Keys.{keys, IsUnique, parse_lines-IsConsistent}
use changesaga.GitDiff.TypeChanges.{
  Pair, replacement, is_whole, replacements, removed_keys, pairs_from, replaces, coalesce_atoms,
  coalesce_type_changes, is_empty_table, parse,
}

-- The key of the event that stands for both.
abbrev pub type_change_key : Text → Text
type_change_key path = codes "event:" ++ (codes "type-change" ++ (58 ∷ path ++ (58 ∷ 58 ∷ [])))

replacement-key :
    (itoa : ℕ → Text) (path : Text) → (replacement itoa path).key ≡ type_change_key path
unfolding replacement key text_eq
replacement-key itoa path = refl

colons-injective : (p q : Text) → p ++ (58 ∷ 58 ∷ []) ≡ q ++ (58 ∷ 58 ∷ []) → p ≡ q
colons-injective [] [] h = refl
colons-injective [] (b ∷ []) h = cc
colons-injective [] (b ∷ c ∷ []) h = cc
colons-injective [] (b ∷ c ∷ d ∷ q) h = cc
colons-injective (a ∷ []) [] h = cc
colons-injective (a ∷ b ∷ []) [] h = cc
colons-injective (a ∷ b ∷ c ∷ p) [] h = cc
colons-injective (a ∷ p) (b ∷ q) h = cc (colons-injective p q (cc))

type_change_key-injective : (p q : Text) → type_change_key p ≡ type_change_key q → p ≡ q
type_change_key-injective p q h = colons-injective p q (cc)

-- Every replacement has the key of its path.
abbrev AreReplacements : Table Atom → Type 0
AreReplacements table =
    (path : Text) (r : Atom) → get path table ≡ some r → r.key ≡ type_change_key path

replacements-AreReplacements :
    (itoa : ℕ → Text) (pairs : Table Pair) → AreReplacements (replacements itoa pairs)
unfolding replacements get
replacements-AreReplacements itoa [] path r e = cc
replacements-AreReplacements itoa ((q, p) ∷ pairs) path r e = elim (Bool-cases (is_whole p)) [
  | inl w ↦ elim (Bool-cases (text_eq q path)) [
    | inl same ↦
        let here : replacement itoa q ≡ r = cc (rw (w, same) at e) in
        ap (λ (x : Atom). x.key) (sym here)
        ∙ replacement-key itoa q
        ∙ ap type_change_key (text_eq_sound q path same)
    | inr other ↦ replacements-AreReplacements itoa pairs path r (rw (w, other) at e)
  ]
  | inr w ↦ replacements-AreReplacements itoa pairs path r (rw w at e)
]

-- No atom has the key of a type change of some path.
abbrev pub HasNoTypeChange : List Atom → Type 0
HasNoTypeChange = All (λ a. (path : Text) → a.key ≢ type_change_key path)

module _ (table : Table Atom) (removed : List Text) (reps : AreReplacements table) where
  replaces-key :
      (path k : Text) (r : Atom)
      → replaces table removed path k ≡ some r
      → r.key ≡ type_change_key path
  replaces-key path k r e = elim (Bool-cases (has k removed)) [
    | inl h ↦ reps path r (rw h at e)
    | inr h ↦ cc (rw h at e)
  ]

  coalesce_kept :
      (emitted : List Text) (a : Atom) (atoms : List Atom)
      → replaces table removed a.path a.key ≡ none
      → coalesce_atoms table removed emitted (a ∷ atoms)
        ≡ a ∷ coalesce_atoms table removed emitted atoms
  unfolding coalesce_atoms
  coalesce_kept emitted a atoms n = rw (n, coalesce_atoms) refl

  coalesce_replaced :
      (emitted : List Text) (a : Atom) (atoms : List Atom) (r : Atom)
      → replaces table removed a.path a.key ≡ some r
      → coalesce_atoms table removed emitted (a ∷ atoms) ≡ (
          if has a.path emitted
          then coalesce_atoms table removed emitted atoms
          else r ∷ coalesce_atoms table removed (a.path ∷ emitted) atoms)
  unfolding coalesce_atoms
  coalesce_replaced emitted a atoms r e = rw (e, coalesce_atoms) refl

  -- A key of the result is one of before, or that of a path not yet emitted.
  coalesced_key :
      (emitted : List Text) (atoms : List Atom) (k : Text)
      → Memᴰ k (keys (coalesce_atoms table removed emitted atoms))
      → Memᴰ k (keys atoms)
        ⊎ ((path : Text) × (has path emitted ≡ false) × (k ≡ type_change_key path))
  unfolding coalesce_atoms has
  coalesced_key emitted [] k i = inl i
  coalesced_key emitted (a ∷ atoms) k i =
      elim (Option-cases (replaces table removed a.path a.key)) [
        | inl n ↦ elim (Memᴰ.cases_cons (rw (coalesce_kept emitted a atoms n) at i)) [
          | inl same ↦ inl (Memᴰ.head same)
          | inr j ↦ later (coalesced_key emitted atoms k j)
        ]
        | inr (r, e) ↦ elim (Bool-cases (has a.path emitted)) [
          | inl old ↦
              later (
                coalesced_key emitted atoms k
                  (rw (coalesce_replaced emitted a atoms r e, old) at i))
          | inr new ↦
              elim (Memᴰ.cases_cons (rw (coalesce_replaced emitted a atoms r e, new) at i)) [
                | inl same ↦ inr (a.path, new, same ∙ replaces-key a.path a.key r e)
                | inr j ↦ elim (coalesced_key (a.path ∷ emitted) atoms k j) [
                  | inl m ↦ inl (Memᴰ.tail m)
                  | inr (path, fresh, q) ↦ inr (path, unseen path fresh, q)
                ]
              ]
        ]
      ]
    where
      later :
          Memᴰ k (keys atoms)
            ⊎ ((path : Text) × (has path emitted ≡ false) × (k ≡ type_change_key path))
          → Memᴰ k (keys (a ∷ atoms))
            ⊎ ((path : Text) × (has path emitted ≡ false) × (k ≡ type_change_key path))
      later (inl m) = inl (Memᴰ.tail m)
      later (inr x) = inr x

      unseen : (path : Text) → has path (a.path ∷ emitted) ≡ false → has path emitted ≡ false
      unseen path fresh = ground (arith, fresh)

  none_named :
      (atoms : List Atom) (path : Text)
      → HasNoTypeChange atoms
      → Memᴰ (type_change_key path) (keys atoms)
      → ⊥
  none_named [] path h i = elim i [ ]
  none_named (a ∷ atoms) path h (Memᴰ.head e) = h.0 path (sym e)
  none_named (a ∷ atoms) path h (Memᴰ.tail i) = none_named atoms path h.1 i

  coalesce_atoms-IsUnique :
      (emitted : List Text) (atoms : List Atom)
      → IsUnique (keys atoms)
      → HasNoTypeChange atoms
      → IsUnique (keys (coalesce_atoms table removed emitted atoms))
  unfolding coalesce_atoms
  coalesce_atoms-IsUnique emitted [] u h = tt
  coalesce_atoms-IsUnique emitted (a ∷ atoms) u h =
      elim (Option-cases (replaces table removed a.path a.key)) [
        | inl n ↦ rw (coalesce_kept emitted a atoms n) (
          λ i. elim (coalesced_key emitted atoms a.key i) [
            | inl m ↦ u.0 m
            | inr (path, fresh, q) ↦ h.0 path q
          ],
          coalesce_atoms-IsUnique emitted atoms u.1 h.1,
        )
        | inr (r, e) ↦ elim (Bool-cases (has a.path emitted)) [
          | inl old ↦
              rw (coalesce_replaced emitted a atoms r e, old)
                (coalesce_atoms-IsUnique emitted atoms u.1 h.1)
          | inr new ↦
              rw (coalesce_replaced emitted a atoms r e, new)
                (
                  λ i.
                      let named = replaces-key a.path a.key r e in
                      elim (coalesced_key (a.path ∷ emitted) atoms r.key i) [
                        | inl m ↦ none_named atoms a.path h.1 (rw named at m)
                        | inr (path, fresh, q) ↦
                            not_emitted path fresh
                              (type_change_key-injective a.path path (sym named ∙ q))
                      ],
                  coalesce_atoms-IsUnique (a.path ∷ emitted) atoms u.1 h.1,
                )
        ]
      ]
    where
      not_emitted : (path : Text) → has path (a.path ∷ emitted) ≡ false → a.path ≡ path → ⊥
      not_emitted path fresh same = has_absent path (a.path ∷ emitted) fresh (Memᴰ.head (sym same))

coalesce_type_changes-IsUnique :
    (itoa : ℕ → Text) (atoms : List Atom) (lines : List DisplayLine)
    → IsUnique (keys atoms)
    → HasNoTypeChange atoms
    → IsUnique (keys (coalesce_type_changes itoa atoms lines).0)
unfolding coalesce_type_changes
coalesce_type_changes-IsUnique itoa atoms lines u h =
    let pairs = pairs_from 0 atoms [] in
    elim (Bool-cases (is_empty_table (replacements itoa pairs))) [
      | inl e ↦ rw e u
      | inr e ↦ rw e (
          coalesce_atoms-IsUnique (replacements itoa pairs) (removed_keys atoms pairs)
            (replacements-AreReplacements itoa pairs) [] atoms u h)
    ]

-- The keys that `parse` gives are unique, if the patch itself has no change of a file's type.
pub parse-IsUnique :
    (lib : Library) (lines : List Text) (st : State)
    → parse_lines lib lines ≡ ok st
    → HasNoTypeChange st.atoms
    → (atoms : List Atom) (shown : List DisplayLine) → parse lib lines ≡ ok (atoms, shown)
    → IsUnique (keys atoms)
unfolding parse
parse-IsUnique lib lines st e h atoms shown p =
    let u = (parse_lines-IsConsistent lib lines st e).0 in
    subst (λ r. IsUnique (keys r.0)) (ok-injective (rw e at p))
      (coalesce_type_changes-IsUnique lib.itoa st.atoms st.display_lines u h)
