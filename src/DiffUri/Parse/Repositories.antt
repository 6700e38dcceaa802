-- ===== src/DiffUri/Parse/Repositories.antt =====
-- internal/diffuri/diffuri.go: `Build` on references whose repository is spelled in different ways.
use changesaga.Prelude.{
  ◌≡◌, refl, sym, ◌∙◌, ap, true, not, ◌||◌, Text, codes, text_eq_refl, Result, ok, require, ◌>>◌,
  ◌>>=◌,
}
use changesaga.DiffUri.{Reference}
use changesaga.DiffUri.Urls.{Url, Library, IsLawful, is_blank}
use changesaga.DiffUri.Repository.{canonical_repository, canonical_url, parse_absolute}
use changesaga.DiffUri.Repository.Stable.{keeps_host, canonical_url-idempotent}
use changesaga.DiffUri.Validate.{validate, validate_kind}
use changesaga.DiffUri.Parse.{build, query_of, path_of}

abbrev pub with_repository : Reference → Text → Reference
with_repository r t = record r { repository = t }

module _ (lib : Library) where
  canonical_repository-print :
      (t : Text) (u w : Url)
      → parse_absolute lib (lib.trim_space t) ≡ ok u
      → canonical_url lib u ≡ ok w
      → canonical_repository lib t ≡ ok (lib.print_url w)
  unfolding canonical_repository
  canonical_repository-print t u w e f = rw (e, f) refl

  -- A reference with a canonical repository is checked on.
  validate-canonical :
      (r : Reference)
      → canonical_repository lib r.repository ≡ ok r.repository
      → validate lib r ≡ (
          require
            (not (is_blank r.base_oid || is_blank r.head_oid))
            (codes "base and head identities are required")
          >> validate_kind lib r)
  unfolding validate
  validate-canonical r h = rw (h, text_eq_refl r.repository) refl

  build_congr :
      (r : Reference) (t : Text)
      → canonical_repository lib r.repository ≡ ok t
      → canonical_repository lib t ≡ ok t
      → build lib r ≡ build lib (with_repository r t)
  unfolding build
  build_congr r t h k = ap (λ c. c >>= build_with) (h ∙ sym k)
    where
      build_with : Text → Result Text Text
      build_with s =
          validate lib (with_repository r s)
          >> ok
              (lib.render (path_of (with_repository r s)) (query_of lib.itoa (with_repository r s)))

-- If `Clean` and `ToLower` are as documented, the URL of the canonical form of a reference's repository
-- reads back as it is printed, and the name of its host is not empty, stands in no brackets of its own
-- and has no colon beside a port that is left out, then the canonical text is its own canonical form,
-- `Build` gives for it what it gives for the text it came from, and with it `Validate` goes on to the
-- identities and the fields of the kind.
pub build-canonical :
    (lib : Library) (r : Reference) (u w : Url)
    → IsLawful lib
    → parse_absolute lib (lib.trim_space r.repository) ≡ ok u
    → keeps_host lib u ≡ true
    → canonical_url lib u ≡ ok w
    → parse_absolute lib (lib.trim_space (lib.print_url w)) ≡ ok w
    → (canonical_repository lib (lib.print_url w) ≡ ok (lib.print_url w))
      × (build lib r ≡ build lib (with_repository r (lib.print_url w)))
      × (validate lib (with_repository r (lib.print_url w)) ≡ (
          require
            (not (is_blank r.base_oid || is_blank r.head_oid))
            (codes "base and head identities are required")
          >> validate_kind lib (with_repository r (lib.print_url w))))
build-canonical lib r u w laws parsed plain canonical again =
    let first = canonical_repository-print lib r.repository u w parsed canonical in
    let second =
      canonical_repository-print lib (lib.print_url w) w w again
        (canonical_url-idempotent lib laws u w plain canonical) in
    (
      second,
      build_congr lib r (lib.print_url w) first second,
      validate-canonical lib (with_repository r (lib.print_url w)) second,
    )
