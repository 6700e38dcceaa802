-- ===== src/Tests/ChangeSets.antt =====
-- The change set of a fixed patch, and a catalog of three files.
use changesaga.Prelude.{
  ℕ, ◌≡◌, refl, true, false, Bool, some, List, [], ◌∷◌, Text, codes, text_eq, has, has_prefix,
  has_suffix, trim_prefix, trim_suffix, drop, filter, All, Lacks, length, Result, ok, err, zero,
  suc, ◌==◌, ◌++◌, arith,
}
use changesaga.DiffUri.Parse.{build}
use changesaga.DiffUri.Urls.{split_host_port, split_colon, strip_brackets, is_bracketed, drop_last}
use changesaga.DiffUri.Repository.{write_host, canonical_path, canonical_url, canonical_repository}
use changesaga.DiffUri.Validate.{validate, is_valid_path}
use changesaga.GitDiff.{Atom, DisplayLine, ChangeSet}
use changesaga.GitDiff.Paths.{
  key, parse_diff_header, scan_separators, parse_header_path, unquote_git_path, before_tab,
}
use changesaga.GitDiff.Parse.{parse_lines, run, step, classify, flush, add, add_event}
use changesaga.GitDiff.Parse.Keys.{keys, IsUnique}
use changesaga.GitDiff.TypeChanges.{parse}
use changesaga.GitDiff.TypeChanges.Unique.{HasNoTypeChange}
use changesaga.GitDiff.ChangeSets.{PreparedComparison, change_set_from_patch}
use changesaga.GitDiff.ChangeSets.Split.{
  AllNamed, is_saga_atom, is_product_atom, change_set_from_patch-split,
  change_set_from_patch-IsUnique,
}
use changesaga.GitDiff.Catalog.{FileSummary, Atoi, parse_numstat}
use changesaga.GitDiff.Catalog.Printed.{Decimal, IsReported, print_numstat}
use changesaga.GitDiff.Catalog.RoundTrip.{parse_numstat-print}
use changesaga.Tests.GitDiff.{lib, patch, state, parsed}
use changesaga.Tests.DiffUri

abbrev prepared : PreparedComparison
prepared = record {
  repo = codes "/r";
  repository = DiffUri.repository;
  base = codes "main";
  head = codes "topic";
  base_oid = codes "b";
  head_oid = codes "h";
  head_commit = codes "c";
  comparison = codes "b..c";
}

abbrev change_set : Result Text ChangeSet → ChangeSet
change_set (ok c) = c
change_set (err e) = record {
  repository = [];
  base = [];
  head = [];
  base_oid = [];
  head_oid = [];
  atoms = [];
  saga_changes = [];
  display_lines = [];
}

abbrev result : ChangeSet
result = change_set (change_set_from_patch DiffUri.lib prepared lib patch)

read_patch : change_set_from_patch DiffUri.lib prepared lib patch ≡ ok result
unfolding change_set_from_patch parse parse_lines run step classify flush add add_event key
    parse_diff_header scan_separators parse_header_path unquote_git_path before_tab has has_prefix
    trim_prefix drop text_eq build validate is_valid_path canonical_repository canonical_url
    write_host canonical_path split_host_port split_colon strip_brackets is_bracketed drop_last
    trim_suffix has_suffix
read_patch = refl

atoms-HasNoTypeChange : HasNoTypeChange (state (parse_lines lib patch)).atoms
unfolding parse_lines run step classify flush add add_event key parse_diff_header scan_separators
    parse_header_path unquote_git_path before_tab has has_prefix trim_prefix drop text_eq
atoms-HasNoTypeChange = ((λ path e. cc), ((λ path e. cc), tt))

change_set_from_patch-IsUnique_example : IsUnique (keys result.atoms)
change_set_from_patch-IsUnique_example =
    change_set_from_patch-IsUnique DiffUri.lib prepared lib patch (state (parse_lines lib patch))
      result parsed atoms-HasNoTypeChange read_patch

change_set_from_patch-split_example :
    (r : List Atom × List DisplayLine) × (parse lib patch ≡ ok r)
    × ((bs : List Atom) × AllNamed DiffUri.lib prepared r.0 bs
        × (result.saga_changes ≡ filter is_saga_atom bs)
        × (result.atoms ≡ filter is_product_atom bs)
        × (result.display_lines ≡ r.1))
change_set_from_patch-split_example =
    change_set_from_patch-split DiffUri.lib prepared lib patch result read_patch

-- Numbers as strokes.
ones : ℕ → Text
ones zero = []
ones (suc n) = 49 ∷ ones n

abbrev count_ones : Atoi
count_ones t = some (false, length t)

length-ones : (n : ℕ) → length (ones n) ≡ n
unfolding ones
length-ones zero = refl
length-ones (suc n) = omega (arith, length-ones n)

ones_lack : (b n : ℕ) → ◌≡◌ {A = Bool} (49 == b) false → Lacks b (ones n)
unfolding ones
ones_lack b zero h = tt
ones_lack b (suc n) h = (ground arith, ones_lack b n h)

ones_dash : (n : ℕ) → text_eq (ones n) (codes "-") ≡ false
unfolding ones text_eq
ones_dash zero = refl
ones_dash (suc n) = refl

ones-Decimal : Decimal ones count_ones
ones-Decimal = record {
  reads = λ n. rw (length-ones n) refl;
  no_end = λ n. ones_lack 0 n refl;
  no_tab = λ n. ones_lack 9 n refl;
  no_dash = ones_dash;
}

abbrev file : Text → Text → Text → ℕ → ℕ → Bool → FileSummary
file path old_path new_path added deleted binary = record {
  path = path;
  old_path = old_path;
  new_path = new_path;
  added = added;
  deleted = deleted;
  binary = binary;
}

abbrev files : List FileSummary
files =
    file (codes "a") [] [] 1 2 false
    ∷ file (codes "c") (codes "b") (codes "c") 0 0 false
    ∷ file (codes "d") [] [] 0 0 true
    ∷ []

printed :
    print_numstat ones files
    ≡ codes "1"
      ++ (9 ∷ codes "11"
          ++ (9 ∷ codes "a"
              ++ (0 ∷ 9 ∷ 9 ∷ 0 ∷ codes "b"
                  ++ (0 ∷ codes "c"
                      ++ (0 ∷ codes "-" ++ (9 ∷ codes "-" ++ (9 ∷ codes "d" ++ (0 ∷ []))))))))
unfolding ones
printed = refl

files-IsReported : All IsReported files
files-IsReported = (
  record {
    named = refl;
    ends = (omega arith, tt);
    old_ends = tt;
    one_path = λ e. refl;
    same_path = λ e. cc;
    no_added = λ e. cc;
    no_deleted = λ e. cc;
  },
  (
    record {
      named = refl;
      ends = (omega arith, tt);
      old_ends = (omega arith, tt);
      one_path = λ e. cc;
      same_path = λ e. refl;
      no_added = λ e. cc;
      no_deleted = λ e. cc;
    },
    (
      record {
        named = refl;
        ends = (omega arith, tt);
        old_ends = tt;
        one_path = λ e. refl;
        same_path = λ e. cc;
        no_added = λ e. refl;
        no_deleted = λ e. refl;
      },
      tt,
    ),
  ),
)

parse_numstat-print_example : parse_numstat count_ones (print_numstat ones files) ≡ ok files
parse_numstat-print_example =
    parse_numstat-print ones count_ones ones-Decimal files files-IsReported
