-- ===== src/GitDiff/ChangeSets/Split.antt =====
-- Where the atoms of a patch go.
use mathlib.Core.List.Memᴰ
use mathlib.Core.List.{Memᴰ}
use changesaga.Prelude.{
  ◌≡◌, refl, sym, ap, ◌∙◌, inl, inr, Bool, List, [], ◌∷◌, ◌++◌, append_assoc, append-nil, Text,
  filter, Result, ok, err, ◌>>=◌, >>=-eq-ok, ok-injective, Bool-cases, subst,
}
use changesaga.DiffUri.Urls
use changesaga.DiffUri.Parse.{build}
use changesaga.GitDiff.{Atom, DisplayLine, ChangeSet}
use changesaga.GitDiff.Paths.{Library}
use changesaga.GitDiff.Parse.{State, parse_lines}
use changesaga.GitDiff.Parse.Keys.{keys, IsUnique}
use changesaga.GitDiff.TypeChanges.{parse}
use changesaga.GitDiff.TypeChanges.Unique.{HasNoTypeChange, parse-IsUnique}
use changesaga.GitDiff.ChangeSets.{
  PreparedComparison, has_saga_path, has_product_path, paths_of_atom, reference_of, with_uri,
  add_atoms, append_if, build_error, change_set_from_patch,
}

abbrev pub is_saga_atom : Atom → Bool
is_saga_atom a = has_saga_path (paths_of_atom a)

abbrev pub is_product_atom : Atom → Bool
is_product_atom a = has_product_path (paths_of_atom a)

append_if-filter :
    (p : Atom → Bool) (b : Atom) (before rest : List Atom)
    → append_if (p b) b before ++ filter p rest ≡ before ++ filter p (b ∷ rest)
append_if-filter p b before rest = elim (Bool-cases (p b)) [
  | inl e ↦ rw e (append_assoc before (b ∷ []) (filter p rest))
  | inr e ↦ rw e refl
]

module _ (uris : Urls.Library) (prepared : PreparedComparison) where
  -- The atom with the URI that `Build` gives its reference.
  abbrev pub Names : Atom → Atom → Type 0
  Names a b = (build uris (reference_of prepared a) ≡ ok b.uri) × (b ≡ record a { uri = b.uri })

  abbrev pub AllNamed : List Atom → List Atom → Type 0
  AllNamed [] [] = Unit {0}
  AllNamed [] (b ∷ bs) = ⊥
  AllNamed (a ∷ atoms) [] = ⊥
  AllNamed (a ∷ atoms) (b ∷ bs) = Names a b × AllNamed atoms bs

  -- The two lists of a result, and the parts that the loop leaves alone.
  abbrev HasSplit : List Atom → ChangeSet → ChangeSet → Type 0
  HasSplit bs before after =
      (after.saga_changes ≡ before.saga_changes ++ filter is_saga_atom bs)
      × (after.atoms ≡ before.atoms ++ filter is_product_atom bs)
      × (after.display_lines ≡ before.display_lines)

  with_uri-Names : (a b : Atom) → with_uri uris prepared a ≡ ok b → Names a b
  unfolding with_uri
  with_uri-Names a b h = from_build (build uris (reference_of prepared a)) refl h
    where
      from_build :
          (r : Result Text Text)
          → build uris (reference_of prepared a) ≡ r
          → (build_error a r >>= λ uri. ok (record a { uri = uri })) ≡ ok b
          → Names a b
      from_build (ok uri) e k = let same = ok-injective k in rw (← same) (e, refl)
      from_build (err x) e k = cc

  add_atoms-HasSplit :
      (atoms : List Atom) (before after : ChangeSet)
      → add_atoms uris prepared atoms before ≡ ok after
      → (bs : List Atom) × AllNamed atoms bs × HasSplit bs before after
  unfolding add_atoms
  add_atoms-HasSplit [] before after h =
      let same = ok-injective h in
      rw (← same)
        ([], tt, (sym (append-nil before.saga_changes), sym (append-nil before.atoms), refl))
  add_atoms-HasSplit (a ∷ atoms) before after h =
      let (b, named, rest) = >>=-eq-ok (with_uri uris prepared a) _ h in
      let (bs, all_named, split) = add_atoms-HasSplit atoms _ after rest in
      (
        b ∷ bs,
        (with_uri-Names a b named, all_named),
        (
          split.0 ∙ append_if-filter is_saga_atom b before.saga_changes bs,
          split.1 ∙ append_if-filter is_product_atom b before.atoms bs,
          split.2,
        ),
      )

  AllNamed-keys : (atoms bs : List Atom) → AllNamed atoms bs → keys bs ≡ keys atoms
  AllNamed-keys [] [] h = refl
  AllNamed-keys [] (b ∷ bs) h = absurd h
  AllNamed-keys (a ∷ atoms) [] h = absurd h
  AllNamed-keys (a ∷ atoms) (b ∷ bs) (n, h) =
      cc (ap (λ (x : Atom). x.key) n.1, AllNamed-keys atoms bs h)

  -- A change set that is read from a patch has, in order, the atoms of the patch with the URIs of
  -- their references: those with a path of a Saga among its Saga changes, and those with a path of
  -- the product among its atoms.
  pub change_set_from_patch-split :
      (lib : Library) (lines : List Text) (result : ChangeSet)
      → change_set_from_patch uris prepared lib lines ≡ ok result
      → (parsed : List Atom × List DisplayLine) × (parse lib lines ≡ ok parsed)
        × ((bs : List Atom) × AllNamed parsed.0 bs
            × (result.saga_changes ≡ filter is_saga_atom bs)
            × (result.atoms ≡ filter is_product_atom bs)
            × (result.display_lines ≡ parsed.1))
  unfolding change_set_from_patch
  change_set_from_patch-split lib lines result h =
      let (parsed, ran, rest) = >>=-eq-ok (parse lib lines) _ h in
      let (bs, named, split) = add_atoms-HasSplit parsed.0 _ result rest in
      (parsed, ran, (bs, named, split.0, split.1, split.2))

filter-IsUnique :
    (p : Atom → Bool) (atoms : List Atom) → IsUnique (keys atoms) → IsUnique (keys (filter p atoms))
filter-IsUnique p [] u = tt
filter-IsUnique p (a ∷ atoms) u = elim (Bool-cases (p a)) [
  | inl e ↦ rw e ((λ i. u.0 (sub_key p a.key atoms i)), filter-IsUnique p atoms u.1)
  | inr e ↦ rw e (filter-IsUnique p atoms u.1)
]
  where
    sub_key :
        (q : Atom → Bool) (k : Text) (bs : List Atom)
        → Memᴰ k (keys (filter q bs))
        → Memᴰ k (keys bs)
    sub_key q k [] i = i
    sub_key q k (b ∷ bs) i = elim (Bool-cases (q b)) [
      | inl f ↦ elim (Memᴰ.cases_cons (rw f at i)) [
        | inl same ↦ Memᴰ.head same
        | inr j ↦ Memᴰ.tail (sub_key q k bs j)
      ]
      | inr f ↦ Memᴰ.tail (sub_key q k bs (rw f at i))
    ]

-- The keys of such a change set's atoms are unique, if the patch has no change of a file's type.
pub change_set_from_patch-IsUnique :
    (uris : Urls.Library) (prepared : PreparedComparison) (lib : Library) (lines : List Text)
    (st : State) (result : ChangeSet)
    → parse_lines lib lines ≡ ok st
    → HasNoTypeChange st.atoms
    → change_set_from_patch uris prepared lib lines ≡ ok result
    → IsUnique (keys result.atoms)
change_set_from_patch-IsUnique uris prepared lib lines st result e n h =
    let (parsed, ran, (bs, named, saga, product, shown)) =
      change_set_from_patch-split uris prepared lib lines result h in
    let u = parse-IsUnique lib lines st e n parsed.0 parsed.1 ran in
    rw product (
      filter-IsUnique is_product_atom bs
        (subst IsUnique (sym (AllNamed-keys uris prepared parsed.0 bs named)) u))
