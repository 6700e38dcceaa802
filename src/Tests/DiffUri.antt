-- ===== src/Tests/DiffUri.antt =====
-- internal/diffuri at a fixed input, with a library that knows one URL.
use changesaga.Prelude.{
  ℕ, ◌≤◌, ◌≡◌, refl, true, false, Option, none, some, [], ◌∷◌, Text, codes, text_eq, has,
  has_prefix, has_suffix, trim_prefix, trim_suffix, drop, Result, ok, err, if◌then◌else◌,
}
use changesaga.DiffUri.{Reference}
use changesaga.DiffUri.Urls.{
  Url, Query, Library, split_host_port, split_colon, strip_brackets, is_bracketed, drop_last,
}
use changesaga.DiffUri.Repository.{write_host, canonical_path, canonical_url, canonical_repository}
use changesaga.DiffUri.Validate.{validate, is_valid_path}
use changesaga.DiffUri.Parse.{build, parse, read_url, values_of, get_value, check_keys}
use changesaga.DiffUri.Parse.Canonical.{parse_unique}

abbrev pub spelling : Text
spelling =
    codes
      "saga-diff://v1/line?base=b&end=2&head=h&path=x.go&repository=https%3A%2F%2Fh%2Fr&side=new&start=1"

abbrev pub repository : Text
repository = codes "https://h/r"

abbrev pub url_at : Text → Text → Text → Url
url_at scheme host path = record {
  scheme = scheme;
  opaque = [];
  has_user = false;
  host = host;
  path = path;
  raw_path = [];
  omit_host = false;
  force_query = false;
  raw_query = [];
  fragment = [];
}

abbrev pub query : Query
query =
    (codes "base", codes "b" ∷ [])
    ∷ (codes "end", codes "2" ∷ [])
    ∷ (codes "head", codes "h" ∷ [])
    ∷ (codes "path", codes "x.go" ∷ [])
    ∷ (codes "repository", repository ∷ [])
    ∷ (codes "side", codes "new" ∷ [])
    ∷ (codes "start", codes "1" ∷ [])
    ∷ []

unfoldable pub parse_digit : Text → Option ℕ
parse_digit t =
    if text_eq t (codes "1") then some 1 else if text_eq t (codes "2") then some 2 else none

abbrev pub parse_known : Text → Result Text Url
parse_known t =
    if text_eq t spelling
    then ok (url_at (codes "saga-diff") (codes "v1") (codes "/line"))
    else if text_eq t repository
    then ok (url_at (codes "https") (codes "h") (codes "/r"))
    else err (codes "no URL")

abbrev pub lib : Library
lib = record {
  parse_url = parse_known;
  print_url = λ u. repository;
  parse_query = λ q. ok query;
  render = λ path pairs. spelling;
  atoi = parse_digit;
  itoa = λ n. codes "1";
  clean = λ p. p;
  is_utf8 = λ p. true;
  quote = λ k. k;
  trim_space = λ t. t;
  lower = λ t. t;
}

abbrev selector : Reference
selector = record {
  repository = repository;
  base_oid = codes "b";
  head_oid = codes "h";
  kind = codes "line";
  path = codes "x.go";
  side = codes "new";
  start = 1;
  end = 2;
  event = [];
  old_path = [];
  new_path = [];
}

parse_run : parse lib spelling ≡ ok selector
unfolding parse read_url values_of get_value check_keys build validate is_valid_path has has_prefix
    text_eq parse_digit canonical_repository canonical_url write_host canonical_path split_host_port
    split_colon strip_brackets is_bracketed drop_last trim_suffix trim_prefix drop has_suffix
parse_run = refl

parse_unique_example :
    (spelling ≡ spelling)
    × (build lib selector ≡ ok spelling)
    × (validate lib selector ≡ ok tt)
    × (1 ≤ 2)
parse_unique_example = parse_unique lib spelling spelling selector parse_run parse_run
