-- ===== src/DiffUri/Repository/Stable.antt =====
-- internal/diffuri/diffuri.go: what `CanonicalRepository` returns is its own canonical form.
use changesaga.Prelude.{
  ◌≡◌, refl, sym, ◌∙◌, ap, subst, inl, inr, Bool, true, false, not, ◌&&◌, ◌||◌, [], ◌∷◌, Text,
  Result, require, ◌>>◌, codes, text_eq, has_prefix, has_suffix, trim_prefix, trim_suffix, drop, ok,
  ok-injective, require-eq-ok, Bool-cases, arith,
}
use changesaga.DiffUri.Urls.{
  Url, Library, IsLawful, is_blank, has_colon, hostname, port, split_host_port, is_bracketed,
  is_digits,
}
use changesaga.DiffUri.Urls.Hosts.{
  split_host_port-in_brackets, split_host_port_plain, join_host_port-split, split_host_port-digits,
}
use changesaga.DiffUri.Repository.{
  is_file_place, is_default_port, write_host, trim_slash, canonical_path, with_place, file_form,
  file_url, host_form, host_url, scheme_form, scheme_url, canonical_url,
}

-- The name of a host stands alone or in brackets, and a name with a colon has no port that the scheme
-- leaves out.
abbrev pub is_plain_host : Text → Text → Text → Bool
is_plain_host scheme name port =
    not (is_blank name)
    && not (is_bracketed name)
    && not (is_default_port scheme port && has_colon name)

-- The condition under which a URL keeps its host when it is printed and read.
abbrev pub keeps_host : Library → Url → Bool
keeps_host lib u =
    text_eq (lib.lower u.scheme) (codes "file")
    || is_plain_host (lib.lower u.scheme) (lib.lower (hostname u)) (port u)

-- A written host is read as its name, with its port or without one that the scheme leaves out.
write_host-split :
    (s n p : Text)
    → is_plain_host s n p ≡ true
    → is_digits p ≡ true
    → (q : Text) × (split_host_port (write_host s n p) ≡ (n, q))
      × (write_host s n q ≡ write_host s n p)
unfolding write_host
write_host-split s n p h d = elim (Bool-cases (is_blank p)) [
  | inl e ↦ elim (Bool-cases (has_colon n)) [
    | inl c ↦ ([], rw (e, c) (split_host_port-in_brackets n), rw (e, c) refl)
    | inr c ↦ ([], rw (e, c) (split_host_port_plain n c (ground arith)), rw (e, c) refl)
  ]
  | inr e ↦ elim (Bool-cases (is_default_port s p)) [
    | inl f ↦
        let c : has_colon n ≡ false = ground arith in
        ([], rw (e, f) (split_host_port_plain n c (ground arith)), rw (e, f, c) refl)
    | inr f ↦ (p, rw (e, f) (join_host_port-split n p (ground arith) d), refl)
  ]
]

write_host-ne_blank : (s n p : Text) → is_blank n ≡ false → is_blank (write_host s n p) ≡ false
unfolding write_host
write_host-ne_blank s [] p h = cc
write_host-ne_blank s (c ∷ n) p h = ground arith

trim_slash-id : (p : Text) → (has_suffix p (codes "/") ≡ true → p ≡ codes "/") → trim_slash p ≡ p
unfolding trim_suffix text_eq
trim_slash-id p h = elim (Bool-cases (has_suffix p (codes "/"))) [
  | inl e ↦ rw (h e) refl
  | inr e ↦ elim (Bool-cases (text_eq p (codes "/"))) [ inl f ↦ rw f refl | inr f ↦ rw (f, e) refl ]
]

require-pass :
    {passed : Bool} (holds : passed ≡ true) (e : Text) {rest out : Result Text Url}
    → rest ≡ out
    → (require passed e >> rest) ≡ out
require-pass holds e same = rw holds same

module _ (lib : Library) (laws : IsLawful lib) where
  canonical_path-clean :
      (p : Text) → canonical_path lib p ≡ lib.clean (47 ∷ trim_prefix p (codes "/"))
  unfolding canonical_path
  canonical_path-clean p = trim_slash-id _ (laws.clean_slash (47 ∷ trim_prefix p (codes "/")))

  canonical_path-idempotent :
      (p : Text) → canonical_path lib (canonical_path lib p) ≡ canonical_path lib p
  unfolding trim_prefix has_prefix drop
  canonical_path-idempotent p =
      let (q, e) = laws.clean_rooted (trim_prefix p (codes "/")) in
      let c : canonical_path lib p ≡ 47 ∷ q = canonical_path-clean p ∙ e in
      canonical_path-clean (canonical_path lib p)
      ∙ ap (λ x. lib.clean (47 ∷ trim_prefix x (codes "/"))) c
      ∙ ap lib.clean (sym e)
      ∙ laws.clean_clean _
      ∙ sym (canonical_path-clean p)

  host_form-idempotent :
      (u : Url)
      → is_plain_host u.scheme (lib.lower (hostname u)) (port u) ≡ true
      → host_form lib (host_form lib u) ≡ host_form lib u
  host_form-idempotent u plain =
      let (q, e, f) =
        write_host-split u.scheme (lib.lower (hostname u)) (port u) plain
          (split_host_port-digits u.host) in
      ap
        (λ x.
          with_place u (write_host u.scheme (lib.lower x.0) x.1)
            (canonical_path lib (canonical_path lib u.path)))
        e
      ∙ ap
          (λ x.
            with_place u (write_host u.scheme x q) (canonical_path lib (canonical_path lib u.path)))
          (laws.lower_lower (hostname u))
      ∙ ap (λ x. with_place u x (canonical_path lib (canonical_path lib u.path))) f
      ∙ ap (with_place u (write_host u.scheme (lib.lower (hostname u)) (port u)))
          (canonical_path-idempotent u.path)

  host_url-idempotent :
      (u : Url) {w : Url}
      → is_plain_host u.scheme (lib.lower (hostname u)) (port u) ≡ true
      → host_url lib u ≡ ok w
      → (w ≡ host_form lib u) × (host_url lib (host_form lib u) ≡ ok (host_form lib u))
  host_url-idempotent u plain h =
      let (o, h1) = require-eq-ok (is_blank u.opaque) _ _ h in
      let (a, h2) = require-eq-ok (not (is_blank u.host)) _ _ h1 in
      (
        sym (ok-injective h2),
        rw (o, write_host-ne_blank u.scheme (lib.lower (hostname u)) (port u) (ground arith))
            (ap ok (host_form-idempotent u plain)),
      )

  is_file_place-clean :
      (o p : Text) → is_file_place o p ≡ true → is_file_place o (lib.clean p) ≡ true
  unfolding has_prefix
  is_file_place-clean o [] h = ground arith
  is_file_place-clean o (c ∷ p) h =
      let root : c ≡ 47 = ground arith in
      let (q, e) = laws.clean_rooted p in
      let e' : lib.clean (c ∷ p) ≡ 47 ∷ q = ap (λ x. lib.clean (x ∷ p)) root ∙ e in
      let o' : is_blank o ≡ true = ground arith in rw (e', o') refl

  file_form-idempotent : (u : Url) → file_form lib (file_form lib u) ≡ file_form lib u
  file_form-idempotent u =
      ap (λ x. with_place u x (lib.clean (lib.clean u.path))) (laws.lower_lower u.host)
      ∙ ap (with_place u (lib.lower u.host)) (laws.clean_clean u.path)

  file_url-idempotent :
      (u : Url) {w : Url}
      → file_url lib u ≡ ok w
      → (w ≡ file_form lib u) × (file_url lib (file_form lib u) ≡ ok (file_form lib u))
  file_url-idempotent u h =
      let (a, h1) = require-eq-ok (is_file_place u.opaque u.path) _ _ h in
      (
        sym (ok-injective h1),
        rw (is_file_place-clean u.opaque u.path a) (ap ok (file_form-idempotent u)),
      )

  scheme_url-idempotent :
      (u : Url) {w : Url}
      → (text_eq u.scheme (codes "file")
          || is_plain_host u.scheme (lib.lower (hostname u)) (port u))
        ≡ true
      → scheme_url lib u ≡ ok w
      → (scheme_url lib w ≡ ok w) × (w ≡ with_place u w.host w.path)
  scheme_url-idempotent u plain h = elim (Bool-cases (text_eq u.scheme (codes "file"))) [
    | inl e ↦
        let (form, same) = file_url-idempotent u (rw e at h) in
        subst (λ x. (scheme_url lib x ≡ ok x) × (x ≡ with_place u x.host x.path)) (sym form)
          (rw e same, refl)
    | inr e ↦
        let (form, same) = host_url-idempotent u (rw e at plain) (rw e at h) in
        subst (λ x. (scheme_url lib x ≡ ok x) × (x ≡ with_place u x.host x.path)) (sym form)
          (rw e same, refl)
  ]

  pub canonical_url-idempotent :
      (u w : Url)
      → keeps_host lib u ≡ true
      → canonical_url lib u ≡ ok w
      → canonical_url lib w ≡ ok w
  unfolding canonical_url
  canonical_url-idempotent u w plain h =
      let (s, h1) = require-eq-ok (not (is_blank u.scheme)) _ _ h in
      let (n, h2) =
        require-eq-ok (not (not (is_blank u.raw_query) || not (is_blank u.fragment))) _ _ h1 in
      let (same, form) = scheme_url-idempotent (scheme_form lib u) plain h2 in
      let written : scheme_form lib w ≡ w =
        ap (scheme_form lib) form
        ∙ ap (λ x. with_place (record u { scheme = x; has_user = false }) w.host w.path)
            (laws.lower_lower u.scheme)
        ∙ sym form in
      let s' : not (is_blank w.scheme) ≡ true =
        ap (λ x. not (is_blank x.scheme)) form ∙ ap not (laws.lower_blank u.scheme) ∙ s in
      let n' : not (not (is_blank w.raw_query) || not (is_blank w.fragment)) ≡ true =
        ap (λ x. not (not (is_blank x.raw_query) || not (is_blank x.fragment))) form ∙ n in
      require-pass s' _ (require-pass n' _ (ap (scheme_url lib) written ∙ same))
