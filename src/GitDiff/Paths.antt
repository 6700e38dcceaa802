-- ===== src/GitDiff/Paths.antt =====
-- internal/gitdiff/gitdiff.go: the paths of a patch's headers, the keys of atoms, and the paths of a Saga.
use changesaga.Prelude.{
  ℕ, Bool, true, false, Option, none, some, [], ◌∷◌, ◌++◌, Text, codes, text_eq, has_prefix,
  has_suffix, trim_prefix, any, split, ◌==◌, if◌then◌else◌, take,
}
use changesaga.GitDiff.{Atom}

-- `strconv.Unquote`, `strings.TrimSpace`, the decimal form of a number, and the two numbers that the
-- pattern of hunk headers captures as starts.
pub record Library : Type 0 where
  pub unquote : Text → Option Text
  pub trim_space : Text → Text
  pub itoa : ℕ → Text
  pub hunk_starts : Text → Option (ℕ × ℕ)

-- `preferredPath` of two paths.
abbrev pub preferred_path : Text → Text → Text
preferred_path [] q = q
preferred_path (c ∷ p) q = c ∷ p

-- `Key`
unfoldable pub key : (ℕ → Text) → Atom → Text
key itoa a =
    if text_eq a.kind (codes "event")
    then codes "event:" ++ (a.event ++ (58 ∷ a.path ++ (58 ∷ a.old_path ++ (58 ∷ a.new_path))))
    else codes "line:" ++ (a.path ++ (58 ∷ a.side ++ (58 ∷ itoa a.line)))

-- `IsSagaPath`, on a path with slashes.
unfoldable pub is_saga_path : Text → Bool
unfolding has_suffix split
is_saga_path path = any (λ part. has_suffix part (codes ".saga")) (split path 47)

-- `modeType`
unfoldable pub mode_type : Text → Text
unfolding take
mode_type mode = take 3 mode

-- `value[:tab]` up to the first tab.
unfoldable pub before_tab : Text → Text
before_tab [] = []
before_tab (c ∷ t) = let rest = c ∷ before_tab t in if c == 9 then [] else rest

module _ (lib : Library) where
  abbrev pub or_same : Text → Option Text → Text
  or_same value none = value
  or_same value (some unquoted) = unquoted

  unfoldable pub unquote_git_path : Text → Text
  unfolding has_prefix
  unquote_git_path value =
      if has_prefix value (34 ∷ []) then or_same value (lib.unquote value) else value

  unfoldable pub parse_header_path : Text → Text → Text
  unfolding unquote_git_path before_tab trim_prefix
  parse_header_path value prefix =
      if text_eq value (codes "/dev/null")
      then []
      else trim_prefix (unquote_git_path (before_tab value)) prefix

  abbrev pub unquoted_and : Text → Option Text → Option (Text × Text)
  unquoted_and rest none = none
  unquoted_and rest (some unquoted) = some (unquoted, rest)

  -- The loop of `takeQuoted`: what has been read, and whether the last byte escapes the next.
  unfoldable pub scan_quoted : Text → Bool → Text → Option (Text × Text)
  scan_quoted read escaped [] = none
  scan_quoted read true (c ∷ t) = scan_quoted (read ++ (c ∷ [])) false t
  scan_quoted read false (c ∷ t) =
      let escapes = scan_quoted (read ++ (c ∷ [])) true t in
      let goes_on = scan_quoted (read ++ (c ∷ [])) false t in
      if c == 92
      then escapes
      else if c == 34
      then unquoted_and t (lib.unquote (read ++ (c ∷ [])))
      else goes_on

  unfoldable pub take_quoted : Text → Option (Text × Text)
  unfolding scan_quoted
  take_quoted [] = none
  take_quoted (c ∷ t) = let read = scan_quoted (c ∷ []) false t in if c == 34 then read else none

  abbrev pub second_quoted : Text → Option (Text × Text) → Text × Text
  second_quoted first none = ([], [])
  second_quoted first (some (second, rest)) =
      (trim_prefix first (codes "a/"), trim_prefix second (codes "b/"))

  abbrev pub first_quoted : Option (Text × Text) → Text × Text
  first_quoted none = ([], [])
  first_quoted (some (first, rest)) = second_quoted first (take_quoted (lib.trim_space rest))

  -- The loop over the separators " b/": the first that parts two equal paths, or else the last.
  unfoldable pub scan_separators : Text → Text × Text → Text → Text × Text
  unfolding has_prefix trim_prefix
  scan_separators before fallback [] = fallback
  scan_separators before fallback (c ∷ t) =
      let old = trim_prefix before (codes "a/") in
      let new = trim_prefix t (codes "b/") in
      let found = scan_separators (before ++ (c ∷ [])) (old, new) t in
      let goes_on = scan_separators (before ++ (c ∷ [])) fallback t in
      if has_prefix (c ∷ t) (codes " b/")
      then (if text_eq old new then (old, new) else found)
      else goes_on

  unfoldable pub parse_diff_header : Text → Text × Text
  unfolding take_quoted scan_separators has_prefix
  parse_diff_header value =
      if has_prefix value (34 ∷ [])
      then first_quoted (take_quoted value)
      else scan_separators [] ([], []) value
