-- ===== src/DiffUri/Parse.antt =====
-- internal/diffuri/diffuri.go: `Build` and `Parse`.
pub mod Canonical
pub mod Repositories
use changesaga.Prelude.{
  ℕ, zero, suc, Bool, true, false, not, ◌&&◌, ◌||◌, List, [], ◌∷◌, ◌++◌, Text, codes, text_eq, has,
  has_prefix, Result, ok, err, ◌>>=◌, ◌>>◌, require, ltb, leb, ◌==◌, if◌then◌else◌, Option, none,
  some,
}
use changesaga.DiffUri.{Reference}
use changesaga.DiffUri.Urls.{Url, Query, Library, is_blank}
use changesaga.DiffUri.Repository.{canonical_repository}
use changesaga.DiffUri.Validate.{validate}

-- `query[key]`, which is nil on a missing key.
unfoldable pub values_of : Text → Query → List Text
values_of key [] = []
values_of key ((k, vs) ∷ q) = if text_eq k key then vs else values_of key q

-- `if values := query[key]; len(values) == 1 { field = values[0] }`
abbrev pub only_value : List Text → Text
only_value (v ∷ []) = v
only_value _ = []

abbrev pub wrap_error : {A : Type 0} → Text → Result Text A → Result Text A
wrap_error context (ok a) = ok a
wrap_error context (err e) = err (context ++ e)

unfoldable pub kind_of_path : Text → Result Text Text
kind_of_path path =
    if text_eq path (codes "/line")
    then ok (codes "line")
    else if text_eq path (codes "/event")
    then ok (codes "event")
    else if text_eq path (codes "/file")
    then ok (codes "file")
    else err (codes "URI path must be /line, /event, or /file")

abbrev pub allowed_keys : Text → List Text
allowed_keys kind =
    codes "repository"
    ∷ codes "base"
    ∷ codes "head"
    ∷ (if text_eq kind (codes "line")
        then codes "path" ∷ codes "side" ∷ codes "start" ∷ codes "end" ∷ []
        else if text_eq kind (codes "event")
        then codes "event" ∷ codes "path" ∷ codes "old_path" ∷ codes "new_path" ∷ []
        else codes "path" ∷ [])

-- What `Build` sets in the query, behind the comparison.
unfoldable pub query_of : (ℕ → Text) → Reference → List (Text × Text)
query_of itoa r =
    (codes "repository", r.repository)
    ∷ (codes "base", r.base_oid)
    ∷ (codes "head", r.head_oid)
    ∷ (if text_eq r.kind (codes "line")
        then (codes "path", r.path)
          ∷ (codes "side", r.side)
          ∷ (codes "start", itoa r.start)
          ∷ (codes "end", itoa r.end)
          ∷ []
        else if text_eq r.kind (codes "file")
        then (codes "path", r.path) ∷ []
        else (codes "event", r.event)
          ∷ (if text_eq r.event (codes "rename")
              then (codes "old_path", r.old_path) ∷ (codes "new_path", r.new_path) ∷ []
              else (codes "path", r.path) ∷ []))

abbrev pub path_of : Reference → Text
path_of r =
    if text_eq r.kind (codes "line")
    then codes "/line"
    else if text_eq r.kind (codes "file")
    then codes "/file"
    else codes "/event"

module _ (lib : Library) where
  unfoldable pub build : Reference → Result Text Text
  unfolding validate query_of canonical_repository
  build reference = do
    repository ← canonical_repository lib reference.repository
    validate lib (record reference { repository = repository })
    ok (
        lib.render (path_of (record reference { repository = repository }))
          (query_of lib.itoa (record reference { repository = repository })))

  -- The loop over the query: no key that is not allowed, and every key once.
  unfoldable pub check_keys : List Text → Query → Result Text (Unit {0})
  check_keys allowed [] = ok tt
  check_keys allowed ((k, vs) ∷ q) =
      require (has k allowed) (codes "unknown query parameter " ++ lib.quote k)
      >> require (is_single vs)
          (codes "query parameter " ++ lib.quote k ++ codes " must appear exactly once")
      >> check_keys allowed q
    where
      is_single : List Text → Bool
      is_single (v ∷ []) = true
      is_single _ = false

  unfoldable pub get_value : Text → List Text → Result Text Text
  get_value key ((c ∷ v) ∷ []) = ok (c ∷ v)
  get_value key _ =
      err (codes "query parameter " ++ lib.quote key ++ codes " is required exactly once")

  abbrev pub required : Query → Text → Result Text Text
  required q key = get_value key (values_of key q)

  abbrev pub number : Text → Option ℕ → Result Text ℕ
  number message none = err message
  number message (some n) = ok n

  -- What every kind has: the comparison.
  abbrev pub comparison : Text → Text → Text → Text → Reference
  comparison kind repository base_oid head_oid = record {
    repository = repository;
    base_oid = base_oid;
    head_oid = head_oid;
    kind = kind;
    path = [];
    side = [];
    start = 0;
    end = 0;
    event = [];
    old_path = [];
    new_path = [];
  }

  unfoldable pub read_line : Query → Reference → Result Text Reference
  unfolding get_value values_of
  read_line q r = do
    path ← required q (codes "path")
    side ← required q (codes "side")
    start_text ← required q (codes "start")
    start ← number (codes "invalid start line") (lib.atoi start_text)
    end_text ← required q (codes "end")
    end ← number (codes "invalid end line") (lib.atoi end_text)
    ok (record r { path = path; side = side; start = start; end = end })

  unfoldable pub read_event : Query → Reference → Result Text Reference
  unfolding get_value values_of
  read_event q r = do
    event ← required q (codes "event")
    ok (record r {
      event = event;
      path = only_value (values_of (codes "path") q);
      old_path = only_value (values_of (codes "old_path") q);
      new_path = only_value (values_of (codes "new_path") q);
    })

  unfoldable pub read_file : Query → Reference → Result Text Reference
  unfolding get_value values_of
  read_file q r = do path ← required q (codes "path"); ok (record r { path = path })

  unfoldable pub read_kind : Text → Query → Reference → Result Text Reference
  unfolding read_line read_event read_file
  read_kind kind q r =
      if text_eq kind (codes "line")
      then read_line q r
      else if text_eq kind (codes "event")
      then read_event q r
      else read_file q r

  unfoldable pub read_query : Text → Query → Result Text Reference
  unfolding check_keys read_kind
  read_query kind q = do
    check_keys (allowed_keys kind) q
    repository ← required q (codes "repository")
    base_oid ← required q (codes "base")
    head_oid ← required q (codes "head")
    read_kind kind q (comparison kind repository base_oid head_oid)

  abbrev pub uses_scheme : Url → Bool
  uses_scheme u =
      text_eq u.scheme (codes "saga-diff")
      && text_eq u.host (codes "v1")
      && not u.has_user
      && is_blank u.fragment

  unfoldable pub read_url : Text → Result Text Reference
  unfolding read_query kind_of_path
  read_url value = do
    parsed ← wrap_error (codes "parse diff URI: ") (lib.parse_url value)
    require (uses_scheme parsed) (codes "URI must use saga-diff://v1 without userinfo or fragment")
    q ← wrap_error (codes "parse diff URI query: ") (lib.parse_query parsed.raw_query)
    kind ← kind_of_path parsed.path
    read_query kind q

  unfoldable pub parse : Text → Result Text Reference
  unfolding read_url validate build
  parse value = do
    reference ← read_url value
    validate lib reference
    canonical ← build reference
    require (text_eq value canonical)
        (codes "diff URI is not canonical; canonical form is " ++ canonical)
    ok reference
