-- ===== src/Impact/Sourced.antt =====
-- Where the owners come from that the index of the baseline holds.
use mathlib.Core.List.{Memᴰ}
use changesaga.Prelude.{
  ℕ, ◌≡◌, refl, inl, inr, true, ◌&&◌, some, List, [], ◌∷◌, Text, text_eq, text_eq_sound, has, Table,
  ◌==◌, Bool-cases, arith,
}
use changesaga.GitDiff.{Atom}
use changesaga.Coverage.Visit.{Assignment}
use changesaga.Impact.Owners.{
  baseline_atom_exists_at_head, atom_paths, owners_of_key, CurrentLines, FileOwners,
  add_current_line, add_path_owners, add_file_owners, index_baseline,
}
use changesaga.Impact.Kinds.{is_new_line}
use changesaga.Impact.Mentions.{assigns, mentions, merge_assignments-mentions}

module _ (target : Text) (ownership : Table (List Assignment)) (all : List Atom) where
  -- An atom of the baseline that the target owns.
  abbrev pub IsOwned : Atom → Type 0
  IsOwned b = Memᴰ b all × (assigns target (owners_of_key ownership b.key) ≡ true)

  abbrev FileSource : Text → Type 0
  FileSource path =
      (b : Atom) × IsOwned b
      × (baseline_atom_exists_at_head b ≡ true)
      × (has path (atom_paths b) ≡ true)

  abbrev pub FilesSourced : FileOwners → Type 0
  FilesSourced files = (path : Text) → mentions target (files path) ≡ true → FileSource path

  abbrev pub LinesSourced : CurrentLines → Type 0
  LinesSourced current =
      (path : Text) (line : ℕ) (b : Atom)
      → current path line ≡ some b
      → Memᴰ b all × (is_new_line b ≡ true) × (b.path ≡ path) × (b.line ≡ line)

  add_current_line-LinesSourced :
      (a : Atom) (current : CurrentLines)
      → Memᴰ a all
      → LinesSourced current
      → LinesSourced (add_current_line a current)
  unfolding add_current_line
  add_current_line-LinesSourced a current i h path line b e = elim (Bool-cases (is_new_line a)) [
    | inl n ↦ elim (Bool-cases (text_eq a.path path && a.line == line)) [
      | inl m ↦
          let same : a ≡ b = cc (rw (n, m) at e) in
          rw (← same) (i, n, text_eq_sound a.path path (ground arith), ground arith)
      | inr m ↦ h path line b (rw (n, m) at e)
    ]
    | inr n ↦ h path line b (rw n at e)
  ]

  add_path_owners-FilesSourced :
      (found : List Assignment) (ps : List Text) (files : FileOwners)
      → ((p : Text) → has p ps ≡ true → assigns target found ≡ true → FileSource p)
      → FilesSourced files
      → FilesSourced (add_path_owners found ps files)
  unfolding add_path_owners has
  add_path_owners-FilesSourced found [] files g h = h
  add_path_owners-FilesSourced found (p ∷ ps) files g h =
      add_path_owners-FilesSourced found ps _ (λ q here. g q (later q here))
        (λ q m. elim (Bool-cases (text_eq p q)) [
          | inl e ↦ elim (merge_assignments-mentions target (files p) found (rw e at m)) [
            | inl old ↦ h q (rw (← text_eq_sound p q e) old)
            | inr owned ↦ g q (rw e refl) owned
          ]
          | inr e ↦ h q (rw e at m)
        ])
    where
      later : (q : Text) → has q ps ≡ true → has q (p ∷ ps) ≡ true
      later q here = ground (arith, here)

  add_file_owners-FilesSourced :
      (a : Atom) (files : FileOwners)
      → Memᴰ a all
      → FilesSourced files
      → FilesSourced (add_file_owners ownership a files)
  unfolding add_file_owners
  add_file_owners-FilesSourced a files i h = elim (Bool-cases (baseline_atom_exists_at_head a)) [
    | inl e ↦ rw e (
        add_path_owners-FilesSourced (owners_of_key ownership a.key) (atom_paths a) files
          (λ p here owned. (a, (i, owned), e, here)) h)
    | inr e ↦ rw e h
  ]

  pub index_baseline-sourced :
      (atoms : List Atom) (current : CurrentLines) (files : FileOwners)
      → ((a : Atom) → Memᴰ a atoms → Memᴰ a all)
      → LinesSourced current
      → FilesSourced files
      → let r = index_baseline ownership atoms current files in LinesSourced r.0 × FilesSourced r.1
  unfolding index_baseline
  index_baseline-sourced [] current files s l f = (l, f)
  index_baseline-sourced (a ∷ atoms) current files s l f =
      index_baseline-sourced atoms _ _ (λ b i. s b (Memᴰ.tail i))
        (add_current_line-LinesSourced a current (s a (Memᴰ.head refl)) l)
        (add_file_owners-FilesSourced a files (s a (Memᴰ.head refl)) f)
