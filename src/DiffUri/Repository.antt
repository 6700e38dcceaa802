-- ===== src/DiffUri/Repository.antt =====
-- internal/diffuri/diffuri.go: `CanonicalRepository`.
pub mod Stable
use changesaga.Prelude.{
  Bool, true, false, not, ◌&&◌, ◌||◌, [], ◌∷◌, ◌++◌, Text, codes, text_eq, has_prefix, trim_prefix,
  trim_suffix, Result, ok, err, ◌>>=◌, ◌>>◌, require, if◌then◌else◌,
}
use changesaga.DiffUri.Urls.{
  Url, Library, is_blank, has_colon, hostname, port, in_brackets, join_host_port, split_host_port,
}

abbrev pub is_default_port : Text → Text → Bool
is_default_port scheme port =
    (text_eq scheme (codes "https") && text_eq port (codes "443"))
    || (text_eq scheme (codes "http") && text_eq port (codes "80"))
    || (text_eq scheme (codes "ssh") && text_eq port (codes "22"))

-- The host that is written for a scheme, a name in small letters and a port.
unfoldable pub write_host : Text → Text → Text → Text
write_host scheme host port =
    if not (is_blank port)
    then (if not (is_default_port scheme port) then join_host_port host port else host)
    else if has_colon host
    then in_brackets host
    else host

-- `if cleanPath != "/" { cleanPath = strings.TrimSuffix(cleanPath, "/") }`
abbrev pub trim_slash : Text → Text
trim_slash path = if not (text_eq path (codes "/")) then trim_suffix path (codes "/") else path

abbrev pub is_file_place : Text → Text → Bool
unfolding has_prefix
is_file_place opaque path =
    not (not (is_blank opaque) || is_blank path || not (has_prefix path (codes "/")))

abbrev pub with_place : Url → Text → Text → Url
with_place u host path = record u { host = host; path = path; raw_path = [] }

module _ (lib : Library) where
  unfoldable pub canonical_path : Text → Text
  unfolding trim_prefix
  canonical_path path = trim_slash (lib.clean (codes "/" ++ trim_prefix path (codes "/")))

  abbrev pub file_form : Url → Url
  file_form u = with_place u (lib.lower u.host) (lib.clean u.path)

  abbrev pub file_url : Url → Result Text Url
  file_url u = do
    require (is_file_place u.opaque u.path) (codes "file repository URI must have an absolute path")
    ok (file_form u)

  abbrev pub host_form : Url → Url
  host_form u =
      with_place u (write_host u.scheme (lib.lower (hostname u)) (port u)) (canonical_path u.path)

  abbrev pub host_url : Url → Result Text Url
  host_url u = do
    require (is_blank u.opaque) (codes "repository must be an absolute URI with a host")
    require (not (is_blank u.host)) (codes "repository must be an absolute URI with a host")
    ok (host_form u)

  abbrev pub scheme_url : Url → Result Text Url
  scheme_url u = if text_eq u.scheme (codes "file") then file_url u else host_url u

  abbrev pub scheme_form : Url → Url
  scheme_form u = record u { scheme = lib.lower u.scheme; has_user = false }

  -- What is done to the URL between `url.Parse` and `String`.
  unfoldable pub canonical_url : Url → Result Text Url
  unfolding has_prefix write_host canonical_path split_host_port
  canonical_url u = do
    require (not (is_blank u.scheme)) (codes "repository must be an absolute URI")
    require (not (not (is_blank u.raw_query) || not (is_blank u.fragment)))
        (codes "repository URI cannot contain a query or fragment")
    scheme_url (scheme_form u)

  -- An error of `url.Parse` gives the same message as a URL that is not absolute.
  abbrev pub parse_absolute : Text → Result Text Url
  parse_absolute value = read (lib.parse_url value)
    where
      read : Result Text Url → Result Text Url
      read (ok u) = ok u
      read (err e) = err (codes "repository must be an absolute URI")

  unfoldable pub canonical_repository : Text → Result Text Text
  unfolding canonical_url
  canonical_repository value = do
    parsed ← parse_absolute (lib.trim_space value)
    canonical ← canonical_url parsed
    ok (lib.print_url canonical)
