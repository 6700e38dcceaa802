-- ===== src/GitDiff/Parse.antt =====
-- internal/gitdiff/gitdiff.go: `parse` up to `coalesceTypeChanges`: the lines of a patch, one by one.
pub mod Keys
use changesaga.Prelude.{
  ℕ, suc, ◌+◌, Bool, true, false, not, ◌&&◌, ◌||◌, Option, none, some, List, [], ◌∷◌, ◌++◌, Text,
  codes, text_eq, has_prefix, trim_prefix, has, Result, ok, err, ◌>>=◌, if◌then◌else◌,
}
use changesaga.GitDiff.{Atom, DisplayLine}
use changesaga.GitDiff.Paths.{
  Library, preferred_path, key, mode_type, unquote_git_path, parse_header_path, parse_diff_header,
}

-- The cases of the switch, each with what it reads of the line.
pub data Line : Type 0 where
  diff_header : Text → Line
  new_file deleted_file : Line
  removed added context : Text → Line
  no_newline : Line
  old_header new_header rename_from rename_to old_mode new_mode : Text → Line
  binary : Line
  hunk : Text → Line
  other : Line

-- The variables of `parse`.
pub record State : Type 0 where
  pub atoms : List Atom
  pub display_lines : List DisplayLine
  pub seen : List Text
  pub old_path : Text
  pub new_path : Text
  pub renamed_from : Text
  pub mode : Text
  pub old_line : ℕ
  pub new_line : ℕ
  pub in_hunk : Bool
  pub file_had_atom : Bool

abbrev pub rest_of : Text → Text → Text
rest_of line prefix = trim_prefix line prefix

unfoldable pub classify : Bool → Text → Line
unfolding has_prefix trim_prefix
classify in_hunk line =
    if has_prefix line (codes "diff --git ")
    then diff_header (rest_of line (codes "diff --git "))
    else if has_prefix line (codes "new file mode ")
    then new_file
    else if has_prefix line (codes "deleted file mode ")
    then deleted_file
    else if in_hunk && has_prefix line (codes "-")
    then removed (rest_of line (codes "-"))
    else if in_hunk && has_prefix line (codes "+")
    then added (rest_of line (codes "+"))
    else if in_hunk && has_prefix line (codes " ")
    then context (rest_of line (codes " "))
    else if in_hunk && has_prefix line (92 ∷ codes " No newline")
    then no_newline
    else if has_prefix line (codes "--- ")
    then old_header (rest_of line (codes "--- "))
    else if has_prefix line (codes "+++ ")
    then new_header (rest_of line (codes "+++ "))
    else if has_prefix line (codes "rename from ")
    then rename_from (rest_of line (codes "rename from "))
    else if has_prefix line (codes "rename to ")
    then rename_to (rest_of line (codes "rename to "))
    else if has_prefix line (codes "old mode ")
    then old_mode (rest_of line (codes "old mode "))
    else if has_prefix line (codes "new mode ")
    then new_mode (rest_of line (codes "new mode "))
    else if has_prefix line (codes "GIT binary patch") || has_prefix line (codes "Binary files ")
    then binary
    else if has_prefix line (codes "@@ ")
    then hunk line
    else other

abbrev pub event_atom : Text → Text → Text → Text → Atom
event_atom event path old new = record {
  key = [];
  uri = [];
  kind = codes "event";
  path = path;
  side = [];
  line = 0;
  content = [];
  event = event;
  old_path = old;
  new_path = new;
}

abbrev pub line_atom : Text → Text → ℕ → Text → Atom
line_atom path side line content = record {
  key = [];
  uri = [];
  kind = codes "line";
  path = path;
  side = side;
  line = line;
  content = content;
  event = [];
  old_path = [];
  new_path = [];
}

abbrev pub display : Text → Text → ℕ → ℕ → Text → Text → DisplayLine
display kind path old new content atom_key = record {
  kind = kind;
  path = path;
  old_line = old;
  new_line = new;
  content = content;
  atom_key = atom_key;
  event = [];
  old_path = [];
  new_path = [];
}

abbrev pub display_event : Text → Text → Text → Text → Text → DisplayLine
display_event event path old new atom_key = record (display (codes "event") path 0 0 [] atom_key) {
  event = event;
  old_path = old;
  new_path = new;
}

module _ (lib : Library) where
  -- `add`, and the display line of the atom by its key.
  unfoldable pub add : Atom → (Text → DisplayLine) → State → State
  unfolding key has
  add atom shown st =
      let k = key lib.itoa atom in
      record st {
        file_had_atom = true;
        seen = if has k st.seen then st.seen else k ∷ st.seen;
        atoms = if has k st.seen then st.atoms else st.atoms ++ (record atom { key = k } ∷ []);
        display_lines = st.display_lines ++ (shown k ∷ []);
      }

  unfoldable pub add_event : Text → Text → Text → Text → State → State
  unfolding add
  add_event event path old new st =
      add (event_atom event path old new) (display_event event path old new) st

  abbrev pub flush_path : Text → State → State
  flush_path [] st = st
  flush_path (c ∷ p) st = add_event (codes "modify") (c ∷ p) [] [] st

  unfoldable pub flush : State → State
  unfolding add_event
  flush st = if st.file_had_atom then st else flush_path (preferred_path st.new_path st.old_path) st

  abbrev pub out_of_hunk : State → State
  out_of_hunk st = record st { in_hunk = false }

  abbrev pub start_hunk : Text → Option (ℕ × ℕ) → State → Result Text State
  start_hunk line none st = err (codes "parse hunk header " ++ line)
  start_hunk line (some (old, new)) st =
      ok (record st { old_line = old; new_line = new; in_hunk = true })

  unfoldable pub step : Line → State → Result Text State
  unfolding add add_event flush parse_diff_header parse_header_path unquote_git_path mode_type
  step (diff_header header) st =
      let paths = parse_diff_header lib header in
      ok (record (flush st) {
        old_path = paths.0;
        new_path = paths.1;
        renamed_from = [];
        mode = [];
        file_had_atom = false;
        in_hunk = false;
      })
  step new_file st =
      ok (out_of_hunk (add_event (codes "add") (preferred_path st.new_path st.old_path) [] [] st))
  step deleted_file st =
      ok
        (out_of_hunk (add_event (codes "delete") (preferred_path st.old_path st.new_path) [] [] st))
  step (removed content) st =
      let shown =
        add (line_atom st.old_path (codes "old") st.old_line content)
          (display (codes "old") st.old_path st.old_line 0 content) st in
      ok (record shown { old_line = st.old_line + 1 })
  step (added content) st =
      let shown =
        add (line_atom st.new_path (codes "new") st.new_line content)
          (display (codes "new") st.new_path 0 st.new_line content) st in
      ok (record shown { new_line = st.new_line + 1 })
  step (context content) st = ok (record st {
    display_lines =
        st.display_lines
        ++ (display (codes "context") (preferred_path st.new_path st.old_path) st.old_line
              st.new_line content []
            ∷ []);
    old_line = st.old_line + 1;
    new_line = st.new_line + 1;
  })
  step no_newline st = ok st
  step (old_header text) st =
      ok (record st { old_path = parse_header_path lib text (codes "a/"); in_hunk = false })
  step (new_header text) st =
      ok (record st { new_path = parse_header_path lib text (codes "b/"); in_hunk = false })
  step (rename_from text) st =
      let from = unquote_git_path lib text in
      ok (record st { renamed_from = from; old_path = from; in_hunk = false })
  step (rename_to text) st =
      let to = unquote_git_path lib text in
      ok (
        out_of_hunk
          (add_event (codes "rename") to st.renamed_from to (record st { new_path = to })))
  step (old_mode text) st = ok (record st { mode = lib.trim_space text; in_hunk = false })
  step (new_mode text) st =
      let event =
        if text_eq (mode_type st.mode) (mode_type (lib.trim_space text))
        then codes "mode"
        else codes "type-change" in
      ok (out_of_hunk (add_event event (preferred_path st.new_path st.old_path) [] [] st))
  step binary st =
      ok
        (out_of_hunk (add_event (codes "binary") (preferred_path st.new_path st.old_path) [] [] st))
  step (hunk line) st = start_hunk line (lib.hunk_starts line) st
  step other st = ok (out_of_hunk st)

  unfoldable pub run : List Text → State → Result Text State
  unfolding step classify
  run [] st = ok st
  run (line ∷ lines) st = step (classify st.in_hunk line) st >>= run lines

  abbrev pub initial : State
  initial = record {
    atoms = [];
    display_lines = [];
    seen = [];
    old_path = [];
    new_path = [];
    renamed_from = [];
    mode = [];
    old_line = 0;
    new_line = 0;
    in_hunk = false;
    file_had_atom = false;
  }

  -- The loop and the last `flush`, on the lines that the scanner returns.
  unfoldable pub parse_lines : List Text → Result Text State
  unfolding run flush
  parse_lines lines = run lines initial >>= λ st. ok (flush st)
