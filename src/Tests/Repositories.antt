-- ===== src/Tests/Repositories.antt =====
-- internal/diffuri: `CanonicalRepository` at fixed inputs, with a library that knows three URLs.
use changesaga.Prelude.{
  ℕ, ◌+◌, ◌≡◌, refl, true, false, ◌&&◌, none, [], ◌∷◌, ◌++◌, Text, codes, text_eq, text_eq_sound,
  Bool-cases, inl, inr, ap, has_prefix, has_suffix, trim_prefix, trim_suffix, drop, Result, ok, err,
  require, ◌>>◌, leb, ◌==◌, if◌then◌else◌, arith,
}
use changesaga.DiffUri.{Reference}
use changesaga.DiffUri.Urls.{
  Url, Library, IsLawful, is_blank, split_host_port, split_colon, strip_brackets, is_bracketed,
  drop_last,
}
use changesaga.DiffUri.Repository.{write_host, canonical_path, canonical_url, canonical_repository}
use changesaga.DiffUri.Repository.Stable.{canonical_url-idempotent}
use changesaga.DiffUri.Validate.{validate, validate_kind}
use changesaga.DiffUri.Parse.{build}
use changesaga.DiffUri.Parse.Repositories.{with_repository, build-canonical}

abbrev pub to_lower : ℕ → ℕ
to_lower c = if leb 65 c && leb c 90 then c + 32 else c

unfoldable pub lower : Text → Text
lower [] = []
lower (c ∷ t) = to_lower c ∷ lower t

-- A text without the slashes at its end.
unfoldable pub strip_slashes : Text → Text
strip_slashes [] = []
strip_slashes (c ∷ t) =
    let rest = strip_slashes t in if c == 47 && is_blank rest then [] else c ∷ rest

-- `path.Clean` as far as the slashes at the end.
abbrev pub clean : Text → Text
clean [] = codes "."
clean (c ∷ t) = c ∷ strip_slashes t

abbrev pub with_host : Text → Text → Text → Url
with_host scheme host path = record {
  scheme = scheme;
  opaque = [];
  has_user = false;
  host = host;
  path = path;
  raw_path = [];
  omit_host = false;
  force_query = false;
  raw_query = [];
  fragment = [];
}

-- A URL with a user, and what it becomes.
abbrev pub spelled : Url
spelled = record (with_host (codes "HTTPS") (codes "Host:8443") (codes "/R/")) { has_user = true }

abbrev pub canonical : Url
canonical = with_host (codes "https") (codes "host:8443") (codes "/R")

abbrev pub parse_known : Text → Result Text Url
parse_known t =
    if text_eq t (codes "HTTPS://me@Host:8443/R/")
    then ok spelled
    else if text_eq t (codes "https://host:8443/R")
    then ok canonical
    else err (codes "no URL")

abbrev pub lib : Library
lib = record {
  parse_url = parse_known;
  print_url = λ u. u.scheme ++ codes "://" ++ u.host ++ u.path;
  parse_query = λ q. ok [];
  render = λ path pairs. path;
  atoi = λ t. none;
  itoa = λ n. codes "1";
  clean = clean;
  trim_space = λ t. t;
  lower = lower;
  is_utf8 = λ t. true;
  quote = λ t. t;
}

lower-lower : (t : Text) → lower (lower t) ≡ lower t
unfolding lower
lower-lower [] = refl
lower-lower (c ∷ t) = ground (arith, lower-lower t)

lower-is_blank : (t : Text) → is_blank (lower t) ≡ is_blank t
unfolding lower
lower-is_blank [] = refl
lower-is_blank (c ∷ t) = refl

strip_slashes-idempotent : (t : Text) → strip_slashes (strip_slashes t) ≡ strip_slashes t
unfolding strip_slashes
strip_slashes-idempotent [] = refl
strip_slashes-idempotent (c ∷ t) = ground (arith, strip_slashes-idempotent t)

has_suffix-strip_slashes : (t : Text) → has_suffix (strip_slashes t) (codes "/") ≡ false
unfolding strip_slashes has_suffix text_eq
has_suffix-strip_slashes [] = refl
has_suffix-strip_slashes (c ∷ t) = elim (Bool-cases (is_blank (strip_slashes t))) [
  | inl e ↦ blank_rest (strip_slashes t) e
  | inr e ↦ rest_kept (strip_slashes t) e (has_suffix-strip_slashes t)
]
  where
    kept : Text → Text
    kept s = if c == 47 && is_blank s then [] else c ∷ s

    blank_rest : (s : Text) → is_blank s ≡ true → has_suffix (kept s) (codes "/") ≡ false
    blank_rest [] e = ground arith
    blank_rest (d ∷ s) e = cc

    rest_kept :
        (s : Text)
        → is_blank s ≡ false
        → has_suffix s (codes "/") ≡ false
        → has_suffix (kept s) (codes "/") ≡ false
    rest_kept [] e h = cc
    rest_kept (d ∷ s) e h = ground arith

clean-idempotent : (t : Text) → clean (clean t) ≡ clean t
unfolding strip_slashes
clean-idempotent [] = refl
clean-idempotent (c ∷ t) = ap (λ s. c ∷ s) (strip_slashes-idempotent t)

clean-slash : (t : Text) → has_suffix (clean t) (codes "/") ≡ true → clean t ≡ codes "/"
unfolding has_suffix text_eq
clean-slash [] h = absurd (ground arith)
clean-slash (c ∷ t) h = text_eq_sound _ _ (ground (arith, has_suffix-strip_slashes t))

pub lib-IsLawful : IsLawful lib
lib-IsLawful = record {
  lower_lower = lower-lower;
  lower_blank = lower-is_blank;
  clean_clean = clean-idempotent;
  clean_rooted = λ t. (strip_slashes t, refl);
  clean_slash = clean-slash;
}

spelled-canonical : canonical_url lib spelled ≡ ok canonical
unfolding canonical_url lower strip_slashes split_host_port split_colon strip_brackets is_bracketed
    write_host canonical_path trim_prefix has_prefix drop text_eq has_suffix trim_suffix
spelled-canonical = refl

canonical_url-idempotent_example : canonical_url lib canonical ≡ ok canonical
unfolding lower split_host_port split_colon strip_brackets is_bracketed has_prefix has_suffix
    text_eq
canonical_url-idempotent_example =
    canonical_url-idempotent lib lib-IsLawful spelled canonical refl spelled-canonical

abbrev reference : Reference
reference = record {
  repository = codes "HTTPS://me@Host:8443/R/";
  base_oid = codes "b";
  head_oid = codes "h";
  kind = codes "file";
  path = codes "x.go";
  side = [];
  start = 0;
  end = 0;
  event = [];
  old_path = [];
  new_path = [];
}

build-canonical_example :
    (canonical_repository lib (codes "https://host:8443/R") ≡ ok (codes "https://host:8443/R"))
    × (build lib reference ≡ build lib (with_repository reference (codes "https://host:8443/R")))
    × (validate lib (with_repository reference (codes "https://host:8443/R")) ≡ (
        require true (codes "base and head identities are required")
        >> validate_kind lib (with_repository reference (codes "https://host:8443/R"))))
unfolding lower split_host_port split_colon strip_brackets is_bracketed has_prefix has_suffix
    text_eq
build-canonical_example =
    build-canonical lib reference spelled canonical lib-IsLawful refl refl spelled-canonical refl

-- A name with colons loses its brackets where the port is left out.
bare_name :
    canonical_url lib (with_host (codes "https") (codes "[::1]:443") (codes "/r"))
    ≡ ok (with_host (codes "https") (codes "::1") (codes "/r"))
unfolding canonical_url lower strip_slashes split_host_port split_colon strip_brackets is_bracketed
    drop_last write_host canonical_path trim_prefix has_prefix drop text_eq has_suffix trim_suffix
bare_name = refl

-- A port without a name leaves a URL without a host, which is refused.
bare_port :
    canonical_url lib (with_host (codes "https") (codes ":443") (codes "/r"))
    ≡ ok (with_host (codes "https") [] (codes "/r"))
unfolding canonical_url lower strip_slashes split_host_port split_colon strip_brackets is_bracketed
    drop_last write_host canonical_path trim_prefix has_prefix drop text_eq has_suffix trim_suffix
bare_port = refl
