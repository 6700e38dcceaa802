-- ===== src/DiffUri/Urls.antt =====
-- What internal/diffuri takes from Go's library: net/url and net on hosts, path, strconv and strings.
pub mod Hosts
use changesaga.Prelude.{
  ℕ, ◌≡◌, Bool, true, false, not, ◌&&◌, ◌||◌, List, [], ◌∷◌, ◌++◌, Text, codes, has_prefix,
  has_suffix, take, length, all, any, Result, leb, ◌-◌, ◌==◌, if◌then◌else◌, Option, none, some,
}

-- `url.URL`, as far as the package reads or prints it.
pub record Url : Type 0 where
  pub scheme : Text
  pub opaque : Text
  pub has_user : Bool
  pub host : Text
  pub path : Text
  pub raw_path : Text
  pub omit_host : Bool
  pub force_query : Bool
  pub raw_query : Text
  pub fragment : Text

-- `url.Values`: the values of each key.
abbrev pub Query : Type 0
Query = List (Text × List Text)

-- The functions that are parameters, without laws.
pub record Library : Type 0 where
  pub parse_url : Text → Result Text Url
  -- `URL.String`.
  pub print_url : Url → Text
  pub parse_query : Text → Result Text Query
  -- The text of a URL of the scheme with host "v1", a path and the encoded query.
  pub render : Text → List (Text × Text) → Text
  -- `strconv.Atoi`, with 0 for a negative number.
  pub atoi : Text → Option ℕ
  pub itoa : ℕ → Text
  -- `path.Clean`.
  pub clean : Text → Text
  pub trim_space : Text → Text
  -- `strings.ToLower`.
  pub lower : Text → Text
  pub is_utf8 : Text → Bool
  pub quote : Text → Text

abbrev pub is_blank : Text → Bool
is_blank [] = true
is_blank (c ∷ t) = false

-- What the documentation of path and strings says of `Clean` and `ToLower`.
pub record IsLawful (lib : Library) : Type 0 where
  pub lower_lower : (t : Text) → lib.lower (lib.lower t) ≡ lib.lower t
  pub lower_blank : (t : Text) → is_blank (lib.lower t) ≡ is_blank t
  pub clean_clean : (t : Text) → lib.clean (lib.clean t) ≡ lib.clean t
  pub clean_rooted : (t : Text) → (q : Text) × (lib.clean (47 ∷ t) ≡ 47 ∷ q)
  -- A cleaned path ends in a slash only if it is the root.
  pub clean_slash :
      (t : Text) → has_suffix (lib.clean t) (codes "/") ≡ true → lib.clean t ≡ codes "/"

abbrev pub has_colon : Text → Bool
has_colon t = any (λ c. c == 58) t

abbrev pub is_digits : Text → Bool
is_digits t = all (λ c. leb 48 c && leb c 57) t

-- A byte in front of a text of which a colon is found behind, or not.
abbrev pub behind_colon : ℕ → Text → Option (Text × Text) → Option (Text × Text)
behind_colon c t (some (before, after)) = some (c ∷ before, after)
behind_colon c t none = if c == 58 then some ([], t) else none

-- The text before its last colon, and the text behind it.
unfoldable pub split_colon : Text → Option (Text × Text)
split_colon [] = none
split_colon (c ∷ t) = behind_colon c t (split_colon t)

unfoldable pub is_bracketed : Text → Bool
unfolding has_prefix has_suffix
is_bracketed t = has_prefix t (codes "[") && has_suffix t (codes "]")

unfoldable pub drop_last : Text → Text
drop_last [] = []
drop_last (c ∷ []) = []
drop_last (c ∷ d ∷ t) = c ∷ drop_last (d ∷ t)

unfoldable pub strip_brackets : Text → Text
unfolding is_bracketed drop_last
strip_brackets [] = []
strip_brackets (c ∷ t) = if is_bracketed (c ∷ t) then drop_last t else c ∷ t

abbrev pub read_port : Text → Option (Text × Text) → Text × Text
read_port t (some (host, port)) =
    if is_digits port then (strip_brackets host, port) else (strip_brackets t, [])
read_port t none = (strip_brackets t, [])

-- `splitHostPort` of net/url: a port is what follows the last colon, if it has only digits.
unfoldable pub split_host_port : Text → Text × Text
unfolding split_colon strip_brackets
split_host_port t = read_port t (split_colon t)

-- `URL.Hostname`.
abbrev pub hostname : Url → Text
hostname u = (split_host_port u.host).0

-- `URL.Port`.
abbrev pub port : Url → Text
port u = (split_host_port u.host).1

abbrev pub in_brackets : Text → Text
in_brackets t = 91 ∷ (t ++ codes "]")

-- `net.JoinHostPort`.
abbrev pub join_host_port : Text → Text → Text
join_host_port host port =
    if has_colon host then in_brackets host ++ (58 ∷ port) else host ++ (58 ∷ port)
