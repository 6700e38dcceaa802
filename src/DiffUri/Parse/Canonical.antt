-- ===== src/DiffUri/Parse/Canonical.antt =====
-- What `Parse` returns is valid and is spelled in one way.
use changesaga.Prelude.{
  ◌≤◌, ◌≡◌, ◌⊎◌, inl, inr, sym, ◌∙◌, ap, subst, Text, codes, text_eq, text_eq_sound,
  text_eq_complete, ok, ok-injective, >>=-eq-ok, require-eq-ok, Bool-cases, arith,
}
use changesaga.DiffUri.{Reference, UriParser}
use changesaga.DiffUri.Urls.{Query, Library}
use changesaga.DiffUri.Repository.{canonical_repository}
use changesaga.DiffUri.Validate.{validate, validate_kind, validate_line}
use changesaga.DiffUri.Parse.{
  build, parse, read_url, read_query, read_kind, read_line, read_event, read_file, comparison,
  required, number, check_keys, wrap_error, uses_scheme, kind_of_path, allowed_keys,
}

module _ (lib : Library) where
  -- `Parse` accepts a text only if it is the canonical spelling of the reference it returns, and that
  -- reference is valid.
  pub parse-canonical :
      (v : Text) {r : Reference}
      → parse lib v ≡ ok r
      → (read_url lib v ≡ ok r) × (validate lib r ≡ ok tt) × (build lib r ≡ ok v)
  unfolding parse
  parse-canonical v h =
      let (s, read, h1) = >>=-eq-ok (read_url lib v) _ h in
      let (u, valid, h2) = >>=-eq-ok (validate lib s) _ h1 in
      let (c, built, h3) = >>=-eq-ok (build lib s) _ h2 in
      let (same, h4) = require-eq-ok (text_eq v c) _ _ h3 in
      subst (λ x. (read_url lib v ≡ ok x) × (validate lib x ≡ ok tt) × (build lib x ≡ ok v))
        (ok-injective h4) (read, valid, built ∙ ap ok (sym (text_eq_sound v c same)))

  read_line-kind :
      (q : Query) (r0 : Reference) {r : Reference} → read_line lib q r0 ≡ ok r → r.kind ≡ r0.kind
  unfolding read_line
  read_line-kind q r0 h =
      let (path, e1, h1) = >>=-eq-ok (required lib q (codes "path")) _ h in
      let (side, e2, h2) = >>=-eq-ok (required lib q (codes "side")) _ h1 in
      let (start_text, e3, h3) = >>=-eq-ok (required lib q (codes "start")) _ h2 in
      let (start, e4, h4) =
        >>=-eq-ok (number lib (codes "invalid start line") (lib.atoi start_text)) _ h3 in
      let (end_text, e5, h5) = >>=-eq-ok (required lib q (codes "end")) _ h4 in
      let (end, e6, h6) =
        >>=-eq-ok (number lib (codes "invalid end line") (lib.atoi end_text)) _ h5 in
      ap (λ x. x.kind) (sym (ok-injective h6))

  read_event-lines :
      (q : Query) (r0 : Reference) {r : Reference}
      → read_event lib q r0 ≡ ok r
      → (r.start ≡ r0.start) × (r.end ≡ r0.end)
  unfolding read_event
  read_event-lines q r0 h =
      let (event, e, rest) = >>=-eq-ok (required lib q (codes "event")) _ h in
      (ap (λ x. x.start) (sym (ok-injective rest)), ap (λ x. x.end) (sym (ok-injective rest)))

  read_file-lines :
      (q : Query) (r0 : Reference) {r : Reference}
      → read_file lib q r0 ≡ ok r
      → (r.start ≡ r0.start) × (r.end ≡ r0.end)
  unfolding read_file
  read_file-lines q r0 h =
      let (path, e, rest) = >>=-eq-ok (required lib q (codes "path")) _ h in
      (ap (λ x. x.start) (sym (ok-injective rest)), ap (λ x. x.end) (sym (ok-injective rest)))

  -- A line reference keeps its kind, and any other has no lines.
  read_kind-lines :
      (kind : Text) (q : Query) (r0 : Reference) {r : Reference}
      → read_kind lib kind q r0 ≡ ok r
      → ((kind ≡ codes "line") × (r.kind ≡ r0.kind)) ⊎ ((r.start ≡ r0.start) × (r.end ≡ r0.end))
  unfolding read_kind
  read_kind-lines kind q r0 h = elim (Bool-cases (text_eq kind (codes "line"))) [
    | inl e ↦ inl (text_eq_sound kind (codes "line") e, read_line-kind q r0 (rw e at h))
    | inr e ↦ elim (Bool-cases (text_eq kind (codes "event"))) [
      | inl f ↦ inr (read_event-lines q r0 (rw (e, f) at h))
      | inr f ↦ inr (read_file-lines q r0 (rw (e, f) at h))
    ]
  ]

  read_query-lines :
      (kind : Text) (q : Query) {r : Reference}
      → read_query lib kind q ≡ ok r
      → (r.kind ≡ codes "line") ⊎ ((r.start ≡ 0) × (r.end ≡ 0))
  unfolding read_query
  read_query-lines kind q h =
      let (u, e0, h0) = >>=-eq-ok (check_keys lib (allowed_keys kind) q) _ h in
      let (repository, e1, h1) = >>=-eq-ok (required lib q (codes "repository")) _ h0 in
      let (base_oid, e2, h2) = >>=-eq-ok (required lib q (codes "base")) _ h1 in
      let (head_oid, e3, h3) = >>=-eq-ok (required lib q (codes "head")) _ h2 in
      elim (read_kind-lines kind q (comparison lib kind repository base_oid head_oid) h3) [
        | inl c ↦ inl (c.1 ∙ c.0)
        | inr c ↦ inr c
      ]

  read_url-lines :
      (v : Text) {r : Reference}
      → read_url lib v ≡ ok r
      → (r.kind ≡ codes "line") ⊎ ((r.start ≡ 0) × (r.end ≡ 0))
  unfolding read_url
  read_url-lines v h =
      let (parsed, e0, h0) =
        >>=-eq-ok (wrap_error (codes "parse diff URI: ") (lib.parse_url v)) _ h in
      let (used, h1) = require-eq-ok (uses_scheme lib parsed) _ _ h0 in
      let (q, e2, h2) =
        >>=-eq-ok (wrap_error (codes "parse diff URI query: ") (lib.parse_query parsed.raw_query)) _
          h1 in
      let (kind, e3, h3) = >>=-eq-ok (kind_of_path parsed.path) _ h2 in read_query-lines kind q h3

  validate_line-ordered : (r : Reference) → validate_line lib r ≡ ok tt → r.start ≤ r.end
  unfolding validate_line
  validate_line-ordered r h = ground arith

  validate-kind : (r : Reference) → validate lib r ≡ ok tt → validate_kind lib r ≡ ok tt
  unfolding validate
  validate-kind r h =
      let (repository, e, h1) = >>=-eq-ok (canonical_repository lib r.repository) _ h in
      let (same, h2) = require-eq-ok (text_eq repository r.repository) _ _ h1 in
      let (named, h3) = require-eq-ok _ _ _ h2 in h3

  validate-ordered :
      (r : Reference) → r.kind ≡ codes "line" → validate lib r ≡ ok tt → r.start ≤ r.end
  unfolding validate_kind
  validate-ordered r line h =
      validate_line-ordered r
        (rw (text_eq_complete r.kind (codes "line") line) at (validate-kind r h))

  -- The lines of a reference that `Parse` returns are in order.
  pub parse-ordered : (v : Text) (r : Reference) → parse lib v ≡ ok r → r.start ≤ r.end
  parse-ordered v r h =
      let (read, valid, built) = parse-canonical v h in
      elim (read_url-lines v read) [
        | inl line ↦ validate-ordered r line valid
        | inr none_read ↦ omega (arith, none_read)
      ]

-- `Parse` as the coverage component uses it.
abbrev pub uri_parser : Library → UriParser
uri_parser lib = record { parse = parse lib; ordered = parse-ordered lib }

-- A reference has one spelling: two texts that `Parse` reads as the same reference are the same text.
-- Each is what `Build` makes of the reference, which is valid and whose lines are in order.
pub parse_unique :
    (lib : Library) (v w : Text) (r : Reference)
    → parse lib v ≡ ok r
    → parse lib w ≡ ok r
    → (v ≡ w) × (build lib r ≡ ok v) × (validate lib r ≡ ok tt) × (r.start ≤ r.end)
parse_unique lib v w r h k =
    let (read, valid, built) = parse-canonical lib v h in
    let (read', valid', built') = parse-canonical lib w k in
    (ok-injective (sym built ∙ built'), built, valid, parse-ordered lib v r h)
