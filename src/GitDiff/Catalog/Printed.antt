-- ===== src/GitDiff/Catalog/Printed.antt =====
-- How git prints the catalog of changed files, and what reading splits it into.
use changesaga.Prelude.{
  ℕ, suc, ◌-◌, ◌≡◌, refl, ap, ◌∙◌, Bool, true, false, Option, none, some, List, [], ◌∷◌, ◌++◌, Text,
  codes, text_eq, split, split-append, Lacks, All, ok, if◌then◌else◌, arith,
}
use changesaga.GitDiff.ChangeSets.{is_present}
use changesaga.GitDiff.Catalog.{
  FileSummary, split_n, Atoi, numstat_file, is_rename, then_files, parse_fields,
}

-- What is asked of the decimal form of a number and of `strconv.Atoi`.
pub record Decimal (itoa : ℕ → Text) (atoi : Atoi) : Type 0 where
  pub reads : (n : ℕ) → atoi (itoa n) ≡ some (false, n)
  pub no_end : (n : ℕ) → Lacks 0 (itoa n)
  pub no_tab : (n : ℕ) → Lacks 9 (itoa n)
  pub no_dash : (n : ℕ) → text_eq (itoa n) (codes "-") ≡ false

-- A file as git reports it: a path, or the two paths of a rename; counts, or none for a binary file.
pub record IsReported (f : FileSummary) : Type 0 where
  pub named : is_present f.path ≡ true
  pub ends : Lacks 0 f.path
  pub old_ends : Lacks 0 f.old_path
  pub one_path : is_present f.new_path ≡ false → f.old_path ≡ []
  pub same_path : is_present f.new_path ≡ true → f.path ≡ f.new_path
  pub no_added : f.binary ≡ true → f.added ≡ 0
  pub no_deleted : f.binary ≡ true → f.deleted ≡ 0

pub split_n-append :
    (n : ℕ) (p rest : Text) (sep : ℕ)
    → Lacks sep p
    → split_n (suc (suc n)) (p ++ (sep ∷ rest)) sep ≡ p ∷ split_n (suc n) rest sep
unfolding split_n
split_n-append n [] rest sep h = let e : suc (suc n) - 1 ≡ suc n = omega arith in ground (arith, e)
split_n-append n (c ∷ p) rest sep (hc, hp) = ground (arith, split_n-append n p rest sep hp)

pub split_n_last : (s : Text) (sep : ℕ) → split_n 1 s sep ≡ s ∷ []
unfolding split_n
split_n_last [] sep = refl
split_n_last (c ∷ s) sep = ground (arith, split_n_last s sep)

-- Each field, ended by a zero byte.
abbrev pub ended : List Text → Text
ended [] = []
ended (f ∷ fs) = f ++ (0 ∷ ended fs)

pub split-ended : (fs : List Text) → All (Lacks 0) fs → split (ended fs) 0 ≡ fs ++ ([] ∷ [])
unfolding split
split-ended [] h = refl
split-ended (f ∷ fs) (hf, hs) = split-append f (ended fs) 0 hf ∙ ap (λ r. f ∷ r) (split-ended fs hs)

module _ (itoa : ℕ → Text) where
  abbrev pub count_text : Bool → ℕ → Text
  count_text binary n = if binary then codes "-" else itoa n

  abbrev pub columns_text : FileSummary → Text → Text
  columns_text f path =
      count_text f.binary f.added ++ (9 ∷ count_text f.binary f.deleted ++ (9 ∷ path))

  -- The fields of one file in the form of `git diff --numstat -z`.
  abbrev pub fields_of : FileSummary → List Text
  fields_of f =
      if is_present f.new_path
      then columns_text f [] ∷ f.old_path ∷ f.new_path ∷ []
      else columns_text f f.path ∷ []

  abbrev pub all_fields : List FileSummary → List Text
  all_fields [] = []
  all_fields (f ∷ fs) = fields_of f ++ all_fields fs

  abbrev pub print_numstat : List FileSummary → Text
  print_numstat fs = ended (all_fields fs)

module _ (atoi : Atoi) where
  pub plain_field :
      (f : Text) (rest : List Text) (file : FileSummary)
      → is_present f ≡ true
      → ((next : Option (Text × Text)) → numstat_file atoi (split_n 3 f 9) next ≡ ok file)
      → is_rename atoi (split_n 3 f 9) ≡ false
      → parse_fields atoi (f ∷ rest) ≡ then_files atoi (ok file) (parse_fields atoi rest)
  unfolding parse_fields
  plain_field [] rest file p r n = cc
  plain_field (c ∷ f) [] file p r n = rw (r none) refl
  plain_field (c ∷ f) (x ∷ []) file p r n = rw (r none) refl
  plain_field (c ∷ f) (x ∷ y ∷ rest) file p r n = rw (r (some (x, y)), n) refl

  pub rename_field :
      (f x y : Text) (rest : List Text) (file : FileSummary)
      → is_present f ≡ true
      → numstat_file atoi (split_n 3 f 9) (some (x, y)) ≡ ok file
      → is_rename atoi (split_n 3 f 9) ≡ true
      → parse_fields atoi (f ∷ x ∷ y ∷ rest) ≡ then_files atoi (ok file) (parse_fields atoi rest)
  unfolding parse_fields
  rename_field [] x y rest file p r n = cc
  rename_field (c ∷ f) x y rest file p r n = rw (r, n) refl
