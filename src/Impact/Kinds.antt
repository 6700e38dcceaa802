-- ===== src/Impact/Kinds.antt =====
-- Which incoming atoms can have direct owners, and which contextual ones: no atom has both.

use mathlib.Core.List.{Memᴰ}
use changesaga.Prelude.{
  ◌≡◌, refl, sym, ap, ◌∙◌, inl, inr, Bool, true, false, ◌&&◌, none, List, [], ◌∷◌, Text, codes,
  text_eq, text_eq_sound, text_eq_refl, Bool-cases, Table, arith,
}
use changesaga.GitDiff.{Atom, ChangeSet}
use changesaga.GitDiff.Parse.Keys.{keys, IsUnique}
use changesaga.Coverage.Visit.{Assignment}
use changesaga.Coverage.Report.{Report}
use changesaga.Impact.Records.{OwnerSet}
use changesaga.Impact.Owners.{
  is_line_atom, has_owners, owners_by_key, record_owners, direct_owners_of, contextual_owners_of,
  CurrentLines, FileOwners, index_baseline,
}
use changesaga.Impact.Analyze.{direct_owners, contextual_owners}

record_self :
    (k : Text) (found : OwnerSet) (owners : Text → OwnerSet)
    → owners k ≡ []
    → record_owners k found owners k ≡ found
record_self k [] owners h = h
record_self k (o ∷ os) owners h = rw (text_eq_refl k) refl

record_other :
    (j k : Text) (found : OwnerSet) (owners : Text → OwnerSet)
    → text_eq j k ≡ false
    → record_owners j found owners k ≡ owners k
record_other j k [] owners h = refl
record_other j k (o ∷ os) owners h = rw h refl

pub Mem-key : (a : Atom) (atoms : List Atom) → Memᴰ a atoms → Memᴰ a.key (keys atoms)
Mem-key a [] i = elim i [ ]
Mem-key a (b ∷ atoms) (Memᴰ.head e) = Memᴰ.head (ap (λ (x : Atom). x.key) e)
Mem-key a (b ∷ atoms) (Memᴰ.tail i) = Memᴰ.tail (Mem-key a atoms i)

different : (j k : Text) (ks : List Text) → (Memᴰ j ks → ⊥) → Memᴰ k ks → text_eq j k ≡ false
different j k ks n i = elim (Bool-cases (text_eq j k)) [
  | inl e ↦ absurd (n (rw (text_eq_sound j k e) i))
  | inr e ↦ e
]

owners_by_key-absent :
    (found : Atom → OwnerSet) (atoms : List Atom) (owners : Text → OwnerSet) (k : Text)
    → (Memᴰ k (keys atoms) → ⊥)
    → owners_by_key found atoms owners k ≡ owners k
unfolding owners_by_key
owners_by_key-absent found [] owners k h = refl
owners_by_key-absent found (b ∷ atoms) owners k h =
    owners_by_key-absent found atoms _ k (λ i. h (Memᴰ.tail i))
    ∙ record_other b.key k (found b) owners (elim (Bool-cases (text_eq b.key k)) [
      | inl e ↦ absurd (h (Memᴰ.head (sym (text_eq_sound b.key k e))))
      | inr e ↦ e
    ])

-- With unique keys, the owners under the key of an atom are those found for it.
pub owners_by_key-at :
    (found : Atom → OwnerSet) (atoms : List Atom) (owners : Text → OwnerSet) (a : Atom)
    → IsUnique (keys atoms)
    → Memᴰ a atoms
    → owners a.key ≡ []
    → owners_by_key found atoms owners a.key ≡ found a
unfolding owners_by_key
owners_by_key-at found [] owners a u i h = elim i [ ]
owners_by_key-at found (b ∷ atoms) owners a u (Memᴰ.head e) h =
    owners_by_key-absent found atoms _ a.key (rw e u.0)
    ∙ rw (← e) (record_self a.key (found a) owners h)
owners_by_key-at found (b ∷ atoms) owners a u (Memᴰ.tail i) h =
    owners_by_key-at found atoms _ a u.1 i (
      record_other b.key a.key (found b) owners
        (different b.key a.key (keys atoms) u.0 (Mem-key a atoms i))
      ∙ h)

abbrev pub is_new_line : Atom → Bool
is_new_line a = is_line_atom a && text_eq a.side (codes "new")

new_line-direct :
    (ownership : Table (List Assignment)) (current : CurrentLines) (files : FileOwners) (a : Atom)
    → is_new_line a ≡ true
    → direct_owners_of ownership current files a ≡ []
unfolding direct_owners_of text_eq
new_line-direct ownership current files a h =
    let kind = text_eq_sound a.kind (codes "line") (ground arith) in
    let side = text_eq_sound a.side (codes "new") (ground arith) in rw (kind, side) refl

module _ (baseline : ChangeSet) (report : Report) (incoming : ChangeSet) where
  -- What the analysis knows of the baseline.
  abbrev pub baseline_index : CurrentLines × FileOwners
  baseline_index = index_baseline report.ownership baseline.atoms (λ path line. none) (λ path. [])

  pub direct_at :
      (a : Atom)
      → IsUnique (keys incoming.atoms)
      → Memᴰ a incoming.atoms
      → direct_owners baseline report incoming a.key
        ≡ direct_owners_of report.ownership baseline_index.0 baseline_index.1 a
  unfolding direct_owners
  direct_at a u i = owners_by_key-at _ incoming.atoms (λ k. []) a u i refl

  contextual_of_other :
      (a : Atom)
      → IsUnique (keys incoming.atoms)
      → Memᴰ a incoming.atoms
      → is_new_line a ≡ false
      → contextual_owners baseline report incoming a.key ≡ []
  unfolding contextual_owners contextual_owners_of
  contextual_of_other a u i e = owners_by_key-at _ incoming.atoms (λ k. []) a u i refl ∙ rw e refl

  -- With unique keys, no incoming atom has both direct and contextual owners.
  pub owners_disjoint :
      (a : Atom)
      → IsUnique (keys incoming.atoms)
      → Memᴰ a incoming.atoms
      → (has_owners (direct_owners baseline report incoming a.key)
          && has_owners (contextual_owners baseline report incoming a.key))
        ≡ false
  owners_disjoint a u i = elim (Bool-cases (is_new_line a)) [
    | inl e ↦ rw (direct_at a u i, new_line-direct _ _ _ a e) refl
    | inr e ↦ rw (contextual_of_other a u i e) (ground arith)
  ]
