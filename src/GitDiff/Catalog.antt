-- ===== src/GitDiff/Catalog.antt =====
-- internal/gitdiff/gitdiff.go: the catalog of changed files, read from `git diff --numstat -z`.
pub mod Printed
pub mod RoundTrip
use changesaga.Prelude.{
  ℕ, zero, suc, ◌-◌, Bool, true, false, not, ◌&&◌, ◌||◌, Option, none, some, List, [], ◌∷◌, ◌++◌,
  Text, codes, text_eq, text_lt, filter, sort_by, split, cons_head, ltb, Result, ok, err, ◌>>=◌,
  ◌==◌, if◌then◌else◌,
}
use changesaga.GitDiff.ChangeSets.{is_present, has_saga_path, has_product_path}

pub record FileSummary : Type 0 where
  pub path : Text
  pub old_path : Text
  pub new_path : Text
  pub added : ℕ
  pub deleted : ℕ
  pub binary : Bool

abbrev pub paths_of_file : FileSummary → List Text
paths_of_file f = f.path ∷ f.old_path ∷ f.new_path ∷ []

-- `strings.SplitN(s, sep, n)` for a separator of one byte and a positive number of parts.
unfoldable pub split_n : ℕ → Text → ℕ → List Text
split_n n [] sep = [] ∷ []
split_n n (c ∷ s) sep =
    let here = [] ∷ split_n (n - 1) s sep in
    let later = cons_head c (split_n n s sep) in if c == sep && ltb 1 n then here else later

abbrev pub catalog_error : {A : Type 0} → Text → Result Text A
catalog_error message = err (codes "parse changed-file catalog: " ++ message)

-- `strconv.Atoi`, as the sign and the size of its result.
abbrev pub Atoi : Type 0
Atoi = Text → Option (Bool × ℕ)

module _ (atoi : Atoi) where
  abbrev pub count_of : Text → Option (Bool × ℕ) → Result Text (ℕ × Bool)
  count_of value none = catalog_error (codes "invalid count " ++ value)
  count_of value (some (true, n)) =
      if n == 0 then ok (0, false) else catalog_error (codes "invalid count " ++ value)
  count_of value (some (false, n)) = ok (n, false)

  unfoldable pub parse_numstat_count : Text → Result Text (ℕ × Bool)
  parse_numstat_count value =
      if text_eq value (codes "-") then ok (0, true) else count_of value (atoi value)

  -- The paths of a record: its third column, or the next two fields.
  abbrev pub renamed : ℕ → ℕ → Bool → Option (Text × Text) → Result Text FileSummary
  renamed added deleted binary none = catalog_error (codes "truncated rename record")
  renamed added deleted binary (some (old, new)) =
      if is_present new
      then ok (record {
        path = new;
        old_path = old;
        new_path = new;
        added = added;
        deleted = deleted;
        binary = binary;
      })
      else catalog_error (codes "empty path")

  abbrev pub with_paths : ℕ → ℕ → Bool → Text → Option (Text × Text) → Result Text FileSummary
  with_paths added deleted binary [] next = renamed added deleted binary next
  with_paths added deleted binary (c ∷ path) next = ok (record {
    path = c ∷ path;
    old_path = [];
    new_path = [];
    added = added;
    deleted = deleted;
    binary = binary;
  })

  unfoldable pub numstat_file : List Text → Option (Text × Text) → Result Text FileSummary
  unfolding parse_numstat_count
  numstat_file (a ∷ d ∷ path ∷ []) next = parse_numstat_count a >>= λ added.
      parse_numstat_count d >>= λ deleted.
      with_paths added.0 deleted.0 (added.1 || deleted.1) path next
  numstat_file _ next = catalog_error (codes "malformed numstat record")

  -- The third column is empty: the record has its paths in the next two fields.
  abbrev pub is_rename : List Text → Bool
  is_rename (a ∷ d ∷ [] ∷ []) = true
  is_rename _ = false

  abbrev pub then_files :
      Result Text FileSummary → Result Text (List FileSummary) → Result Text (List FileSummary)
  then_files file rest = file >>= λ f. (rest >>= λ fs. ok (f ∷ fs))

  unfoldable pub parse_fields : List Text → Result Text (List FileSummary)
  unfolding numstat_file split_n
  parse_fields [] = ok []
  parse_fields ([] ∷ fields) = parse_fields fields
  parse_fields ((c ∷ f) ∷ []) = then_files (numstat_file (split_n 3 (c ∷ f) 9) none) (ok [])
  parse_fields ((c ∷ f) ∷ x ∷ []) =
      then_files (numstat_file (split_n 3 (c ∷ f) 9) none) (parse_fields (x ∷ []))
  parse_fields ((c ∷ f) ∷ x ∷ y ∷ fields) =
      let columns = split_n 3 (c ∷ f) 9 in
      let behind = parse_fields fields in
      let next = parse_fields (x ∷ y ∷ fields) in
      then_files (numstat_file columns (some (x, y))) (if is_rename columns then behind else next)

  unfoldable pub parse_numstat : Text → Result Text (List FileSummary)
  unfolding parse_fields split
  parse_numstat output = parse_fields (split output 0)

-- The files that `ReadCatalog` keeps, in the order of their paths.
abbrev pub path_less : FileSummary → FileSummary → Bool
path_less f g = text_lt f.path g.path

unfoldable pub product_files : List FileSummary → List FileSummary
unfolding sort_by has_product_path text_lt
product_files files = sort_by path_less (filter (λ f. has_product_path (paths_of_file f)) files)
