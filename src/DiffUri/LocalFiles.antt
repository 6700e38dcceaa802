-- ===== src/DiffUri/LocalFiles.antt =====
-- internal/diffuri/diffuri.go: `FileRepository` and `RepositoryFilePath`, between local paths and file
-- repository URIs.
pub mod RoundTrip
use changesaga.Prelude.{
  ℕ, Bool, true, false, not, ◌&&◌, [], ◌∷◌, ◌++◌, Text, codes, text_eq, has_prefix, trim_prefix,
  Result, ok, err, ◌>>=◌, ◌>>◌, require, ◌==◌, if◌then◌else◌, Option, none, some,
}
use changesaga.DiffUri.Urls.{Url, Library, is_blank}
use changesaga.DiffUri.Repository.{canonical_repository}

-- `runtime.GOOS` and what the code takes from path/filepath.
pub record System : Type 0 where
  pub is_windows : Bool
  -- `filepath.Abs`.
  pub absolute : Text → Result Text Text
  pub clean : Text → Text
  pub to_slash : Text → Text
  pub from_slash : Text → Text
  pub is_absolute : Text → Bool

abbrev pub cut_behind : Text × Option Text → ℕ → Text × Option Text
cut_behind (before, after) c = (c ∷ before, after)

-- `strings.SplitN(s, "/", 2)`: what stands before the first slash, and what stands behind it.
unfoldable pub cut_slash : Text → Text × Option Text
cut_slash [] = ([], none)
cut_slash (c ∷ t) = let rest = cut_slash t in if c == 47 then ([], some t) else cut_behind rest c

-- Host and path of a share: `parts[0]`, and "/" with `parts[1]` if there is one.
abbrev pub share_place : Text × Option Text → Text × Text
share_place (host, some rest) = (host, 47 ∷ rest)
share_place (host, none) = (host, codes "/")

unfoldable pub file_place : Bool → Text → Text × Text
unfolding has_prefix trim_prefix cut_slash
file_place false slash = ([], slash)
file_place true slash =
    if has_prefix slash (codes "//")
    then share_place (cut_slash (trim_prefix slash (codes "//")))
    else if not (has_prefix slash (codes "/"))
    then ([], 47 ∷ slash)
    else ([], slash)

-- `&url.URL{Scheme: "file", Host: host, Path: path}`
abbrev pub file_at : Text × Text → Url
file_at (host, path) = record {
  scheme = codes "file";
  opaque = [];
  has_user = false;
  host = host;
  path = path;
  raw_path = [];
  omit_host = false;
  force_query = false;
  raw_query = [];
  fragment = [];
}

-- "/C:/x" is "C:/x".
abbrev pub drop_drive_slash : Text → Text
drop_drive_slash (c ∷ d ∷ e ∷ t) = if c == 47 && e == 58 then d ∷ e ∷ t else c ∷ d ∷ e ∷ t
drop_drive_slash (c ∷ d ∷ []) = c ∷ d ∷ []
drop_drive_slash (c ∷ []) = c ∷ []
drop_drive_slash [] = []

-- The path behind the slashes of a share, or without the slash before a drive.
unfoldable pub local_slash : Bool → Text → Text → Text
local_slash windows (c ∷ host) path = codes "//" ++ (c ∷ host) ++ path
local_slash true [] path = drop_drive_slash path
local_slash false [] path = path

module _ (lib : Library) (system : System) where
  unfoldable pub file_repository : Text → Result Text Text
  unfolding file_place canonical_repository
  file_repository value = do
    path ← system.absolute value
    canonical_repository lib (
        lib.print_url
          (file_at (file_place system.is_windows (system.to_slash (system.clean path)))))

  -- What is done with the URL of the canonical form.
  unfoldable pub resolve : Url → Result Text Text
  unfolding local_slash
  resolve parsed = do
    require (text_eq parsed.scheme (codes "file")) (codes "repository URI is not file://")
    require (system.is_absolute (local_path parsed))
        (codes "file repository URI does not resolve to an absolute local path")
    ok (local_path parsed)
    where
      local_path : Url → Text
      local_path u = system.clean (system.from_slash (local_slash system.is_windows u.host u.path))

  -- `parsed, _ := url.Parse(canonical)`: where that fails, the nil URL is read, which panics (`none`).
  abbrev pub resolve_parsed : Result Text Url → Option (Result Text Text)
  resolve_parsed (ok parsed) = some (resolve parsed)
  resolve_parsed (err e) = none

  abbrev pub resolve_canonical : Result Text Text → Option (Result Text Text)
  resolve_canonical (ok canonical) = resolve_parsed (lib.parse_url canonical)
  resolve_canonical (err e) = some (err e)

  unfoldable pub repository_file_path : Text → Option (Result Text Text)
  unfolding resolve canonical_repository
  repository_file_path value = resolve_canonical (canonical_repository lib value)
