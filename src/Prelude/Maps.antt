-- ===== src/Prelude/Maps.antt =====
-- Go maps with string keys, as association lists.
use mathlib.Core.Bool.{Bool, true, false, ◌&&◌, ◌||◌}
use mathlib.Core.List.{List, [], ◌∷◌}
use mathlib.Core.Logic.{inl, inr}
use mathlib.Core.Option.{Option, none, some}
use mathlib.Core.Path.{◌≡◌, refl}
use native.Mathlib.Omega.{arith}
use changesaga.Prelude.Tests.{if◌then◌else◌, Bool-cases}
use changesaga.Prelude.Lists.{count_if}
use changesaga.Prelude.Strings.{Text, text_eq, text_eq_sound}

-- A map by a string, in some order of its keys. No key stands twice.
abbrev pub Table : Type 0 → Type 0
Table A = List (Text × A)

-- `table[key]`, and nil on a missing key.
unfoldable pub get : {A : Type 0} → Text → Table A → Option A
get k [] = none
get k ((j, x) ∷ t) = if text_eq j k then some x else get k t

-- `table[k] = x`.
unfoldable pub put : {A : Type 0} → Text → A → Table A → Table A
put k x [] = (k, x) ∷ []
put k x ((j, y) ∷ t) = if text_eq j k then (j, x) ∷ t else (j, y) ∷ put k x t

-- `table[key]`, and the zero value on a missing key.
abbrev pub value_or : {A : Type 0} → A → Option A → A
value_or d none = d
value_or d (some x) = x

abbrev pub is_some : {A : Type 0} → Option A → Bool
is_some none = false
is_some (some x) = true

-- `_, ok := table[key]`
abbrev pub has_key : {A : Type 0} → Text → Table A → Bool
has_key k t = is_some (get k t)

pub text_eq_sym : (s t : Text) → text_eq s t ≡ text_eq t s
unfolding text_eq
text_eq_sym [] [] = refl
text_eq_sym [] (b ∷ t) = refl
text_eq_sym (a ∷ s) [] = refl
text_eq_sym (a ∷ s) (b ∷ t) = ground (arith, text_eq_sym s t)

-- Equal texts have equal tests.
pub text_eq_trans : (r s t : Text) → text_eq r s ≡ true → text_eq r t ≡ text_eq s t
text_eq_trans r s t h = rw (text_eq_sound r s h) refl

module _ {A : Type 0} where
  pub get-put :
      (j k : Text) (x : A) (t : Table A)
      → get j (put k x t) ≡ (if text_eq k j then some x else get j t)
  unfolding get put
  get-put j k x [] = refl
  get-put j k x ((i, y) ∷ t) = elim (Bool-cases (text_eq i k)) [
    | inl e ↦ rw (e, text_eq_trans i k j e) (ground arith)
    | inr e ↦ ground (arith, get-put j k x t, text_eq_sound i j, text_eq_sound k j, text_eq_sym i k)
  ]

  pub has_key-put :
      (j k : Text) (x : A) (t : Table A) → has_key j (put k x t) ≡ (text_eq k j || has_key j t)
  has_key-put j k x t = rw (get-put j k x t) (ground arith)

  -- No key stands twice.
  abbrev pub IsTable : Table A → Type 0
  IsTable [] = Unit {0}
  IsTable ((j, x) ∷ t) = (has_key j t ≡ false) × IsTable t

  pub put-IsTable : (k : Text) (x : A) (t : Table A) → IsTable t → IsTable (put k x t)
  unfolding get put
  put-IsTable k x [] h = (refl, tt)
  put-IsTable k x ((j, y) ∷ t) (hj, ht) = elim (Bool-cases (text_eq j k)) [
    | inl e ↦ rw e (hj, ht)
    | inr e ↦ rw e (ground (arith, has_key-put j k x t, text_eq_sym j k), put-IsTable k x t ht)
  ]

  -- The test holds of the value, if there is one.
  abbrev pub holds : (A → Bool) → Option A → Bool
  holds p none = false
  holds p (some x) = p x

  pub holds-put :
      (p : A → Bool) (j k : Text) (x : A) (t : Table A)
      → holds p (get j (put k x t)) ≡ (if text_eq k j then p x else holds p (get j t))
  holds-put p j k x t = rw (get-put j k x t) (ground arith)

  pub count_absent :
      (p : A → Bool) (k : Text) (t : Table A)
      → has_key k t ≡ false
      → count_if (λ e. text_eq e.0 k && p e.1) t ≡ 0
  unfolding get
  count_absent p k [] h = refl
  count_absent p k ((j, y) ∷ t) h = ground (arith, count_absent p k t)

  -- The entries of a key whose value passes: one, or none.
  pub count_entry :
      (p : A → Bool) (k : Text) (t : Table A)
      → IsTable t
      → count_if (λ e. text_eq e.0 k && p e.1) t ≡ (if holds p (get k t) then 1 else 0)
  unfolding get
  count_entry p k [] h = refl
  count_entry p k ((j, y) ∷ t) (hj, ht) = elim (Bool-cases (text_eq j k)) [
    | inl e ↦
        let same = text_eq_sound j k e in rw (e, count_absent p k t (rw same at hj)) (ground arith)
    | inr e ↦ rw e (count_entry p k t ht)
  ]
