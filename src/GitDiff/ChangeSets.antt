-- ===== src/GitDiff/ChangeSets.antt =====
-- internal/gitdiff/gitdiff.go: `changeSetFromPatch`, which names the atoms and tells the changes of a
-- Saga from those of the product.
pub mod Split
use changesaga.Prelude.{
  Bool, true, false, not, ◌&&◌, List, [], ◌∷◌, ◌++◌, Text, codes, text_eq, any, Result, ok, err,
  ◌>>=◌, if◌then◌else◌,
}
use changesaga.DiffUri.Urls
use changesaga.DiffUri.{Reference}
use changesaga.DiffUri.Parse.{build}
use changesaga.GitDiff.{Atom, DisplayLine, ChangeSet}
use changesaga.GitDiff.Paths.{Library, is_saga_path}
use changesaga.GitDiff.TypeChanges.{parse}

pub record PreparedComparison : Type 0 where
  pub repo : Text
  pub repository : Text
  pub base : Text
  pub head : Text
  pub base_oid : Text
  pub head_oid : Text
  pub head_commit : Text
  pub comparison : Text

abbrev pub is_present : Text → Bool
is_present [] = false
is_present (c ∷ t) = true

-- The results of `classifyAtomPaths` and of `classifyCatalogPaths`, which run over the paths given.
unfoldable pub has_saga_path : List Text → Bool
unfolding is_saga_path
has_saga_path = any (λ p. is_present p && is_saga_path p)

unfoldable pub has_product_path : List Text → Bool
unfolding is_saga_path
has_product_path = any (λ p. is_present p && not (is_saga_path p))

abbrev pub paths_of_atom : Atom → List Text
paths_of_atom a = a.path ∷ a.old_path ∷ a.new_path ∷ []

unfoldable pub reference_of : PreparedComparison → Atom → Reference
reference_of prepared a = record {
  repository = prepared.repository;
  base_oid = prepared.base_oid;
  head_oid = prepared.head_oid;
  kind = a.kind;
  path = if text_eq a.kind (codes "event") && text_eq a.event (codes "rename") then [] else a.path;
  side = a.side;
  start = a.line;
  end = a.line;
  event = a.event;
  old_path = a.old_path;
  new_path = a.new_path;
}

abbrev pub build_error : {A : Type 0} → Atom → Result Text A → Result Text A
build_error a (ok x) = ok x
build_error a (err e) = err (codes "build diff URI for " ++ (a.key ++ (codes ": " ++ e)))

abbrev pub append_if : Bool → Atom → List Atom → List Atom
append_if b a atoms = if b then atoms ++ (a ∷ []) else atoms

module _ (uris : Urls.Library) (prepared : PreparedComparison) where
  unfoldable pub with_uri : Atom → Result Text Atom
  unfolding build reference_of
  with_uri a =
      build_error a (build uris (reference_of prepared a)) >>= λ uri. ok (record a { uri = uri })

  -- The loop over the atoms, on the two lists of the result.
  unfoldable pub add_atoms : List Atom → ChangeSet → Result Text ChangeSet
  unfolding with_uri has_saga_path has_product_path
  add_atoms [] result = ok result
  add_atoms (a ∷ atoms) result = with_uri a >>= λ b. add_atoms atoms (record result {
    saga_changes = append_if (has_saga_path (paths_of_atom b)) b result.saga_changes;
    atoms = append_if (has_product_path (paths_of_atom b)) b result.atoms;
  })

  abbrev pub empty_change_set : List DisplayLine → ChangeSet
  empty_change_set lines = record {
    repository = prepared.repository;
    base = prepared.base;
    head = prepared.head;
    base_oid = prepared.base_oid;
    head_oid = prepared.head_oid;
    atoms = [];
    saga_changes = [];
    display_lines = lines;
  }

  unfoldable pub change_set_from_patch : Library → List Text → Result Text ChangeSet
  unfolding parse add_atoms
  change_set_from_patch lib lines = parse lib lines >>= λ r. add_atoms r.0 (empty_change_set r.1)
