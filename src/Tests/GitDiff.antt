-- ===== src/Tests/GitDiff.antt =====
-- internal/gitdiff at a fixed patch.
use changesaga.Prelude.{
  ◌≡◌, refl, false, none, some, List, [], ◌∷◌, ◌+◌, Text, codes, text_eq, has, has_prefix,
  trim_prefix, drop, All, Result, ok, err,
}
use changesaga.GitDiff.Paths.{
  Library, key, parse_diff_header, scan_separators, parse_header_path, unquote_git_path, before_tab,
}
use changesaga.GitDiff.Parse.{State, parse_lines, run, step, classify, flush, add, add_event}
use changesaga.GitDiff.Parse.Keys.{keys, IsUnique, HasAtom, parse_lines-IsConsistent}

-- One digit, and the one hunk of the patch.
abbrev pub lib : Library
lib = record {
  unquote = λ t. none;
  trim_space = λ t. t;
  itoa = λ n. (48 + n) ∷ [];
  hunk_starts = λ t. some (1, 1);
}

abbrev pub patch : List Text
patch =
    codes "diff --git a/x b/x"
    ∷ codes "--- a/x"
    ∷ codes "+++ b/x"
    ∷ codes "@@ -1,2 +1,2 @@"
    ∷ codes " same"
    ∷ codes "-old"
    ∷ codes "+new"
    ∷ []

abbrev pub state : Result Text State → State
state (ok st) = st
state (err e) = record {
  atoms = [];
  display_lines = [];
  seen = [];
  old_path = [];
  new_path = [];
  renamed_from = [];
  mode = [];
  old_line = 0;
  new_line = 0;
  in_hunk = false;
  file_had_atom = false;
}

pub parsed : parse_lines lib patch ≡ ok (state (parse_lines lib patch))
unfolding parse_lines run step classify flush add add_event key parse_diff_header scan_separators
    parse_header_path unquote_git_path before_tab has has_prefix trim_prefix drop text_eq
parsed = refl

keys_run :
    keys (state (parse_lines lib patch)).atoms ≡ codes "line:x:old:2" ∷ codes "line:x:new:2" ∷ []
unfolding parse_lines run step classify flush add add_event key parse_diff_header scan_separators
    parse_header_path unquote_git_path before_tab has has_prefix trim_prefix drop text_eq
keys_run = refl

parse_lines-IsConsistent_example :
    IsUnique (keys (state (parse_lines lib patch)).atoms)
    × All
        (HasAtom (keys (state (parse_lines lib patch)).atoms))
        (state (parse_lines lib patch)).display_lines
parse_lines-IsConsistent_example =
    parse_lines-IsConsistent lib patch (state (parse_lines lib patch)) parsed
