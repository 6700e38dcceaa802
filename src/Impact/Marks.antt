-- ===== src/Impact/Marks.antt =====
-- The sets of keys that `Analyze` fills, and their sizes.

use mathlib.Core.List.{Memᴰ}
use changesaga.Prelude.{
  ◌+◌, ◌≡◌, refl, ◌∙◌, inl, inr, Bool, true, false, ◌&&◌, ◌||◌, List, [], ◌∷◌, Text, text_eq,
  text_eq_sound, has, count_if, length, Bool-cases, if◌then◌else◌, arith,
}
use changesaga.GitDiff.{Atom}
use changesaga.GitDiff.Parse.Keys.{keys, IsUnique}
use changesaga.Impact.Analyze.{add_key}

-- The key joins the set, if the atom has an owner.
abbrev pub mark : Bool → Text → List Text → List Text
mark found k ks = if found then add_key k ks else ks

has-add_key : (j k : Text) (ks : List Text) → has j (add_key k ks) ≡ (has j ks || text_eq k j)
unfolding has
has-add_key j k ks = elim (Bool-cases (has k ks)) [
  | inl e ↦ elim (Bool-cases (text_eq k j)) [
    | inl f ↦ let same = text_eq_sound k j f in rw (e, f) (rw (← same) (rw e refl))
    | inr f ↦ rw (e, f) (ground arith)
  ]
  | inr e ↦ rw e (ground arith)
]

pub has-mark :
    (found : Bool) (j k : Text) (ks : List Text)
    → has j (mark found k ks) ≡ (has j ks || (found && text_eq k j))
has-mark true j k ks = has-add_key j k ks
has-mark false j k ks = ground arith

length-mark :
    (found : Bool) (k : Text) (ks : List Text)
    → has k ks ≡ false
    → length (mark found k ks) ≡ length ks + (if found then 1 else 0)
length-mark true k ks h = rw h (omega arith)
length-mark false k ks h = omega arith

abbrev pub mark_all : (Text → Bool) → List Atom → List Text → List Text
mark_all found [] ks = ks
mark_all found (a ∷ atoms) ks = mark_all found atoms (mark (found a.key) a.key ks)

abbrev pub AreNew : List Atom → List Text → Type 0
AreNew atoms ks = (k : Text) → Memᴰ k (keys atoms) → has k ks ≡ false

mark-AreNew :
    (found : Bool) (a : Atom) (atoms : List Atom) (ks : List Text)
    → IsUnique (keys (a ∷ atoms))
    → AreNew (a ∷ atoms) ks
    → AreNew atoms (mark found a.key ks)
mark-AreNew found a atoms ks u h k i =
    has-mark found k a.key ks ∙ elim (Bool-cases (text_eq a.key k)) [
      | inl e ↦ absurd (u.0 (rw (text_eq_sound a.key k e) i))
      | inr e ↦ rw (e, h k (Memᴰ.tail i)) (ground arith)
    ]

-- With unique keys, as many keys are marked as atoms have an owner.
pub length-mark_all :
    (found : Text → Bool) (atoms : List Atom) (ks : List Text)
    → IsUnique (keys atoms)
    → AreNew atoms ks
    → length (mark_all found atoms ks) ≡ length ks + count_if (λ a. found a.key) atoms
length-mark_all found [] ks u h = omega arith
length-mark_all found (a ∷ atoms) ks u h =
    let here = length-mark (found a.key) a.key ks (h a.key (Memᴰ.head refl)) in
    length-mark_all found atoms (mark (found a.key) a.key ks) u.1
      (mark-AreNew (found a.key) a atoms ks u h)
    ∙ ground (arith, here)
