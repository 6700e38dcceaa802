-- ===== src/SagaRef/Target/RoundTrip.antt =====
-- `ParseTarget` and `URN` undo one another.
use changesaga.Prelude.{
  ◌≡◌, refl, ◌∙◌, true, ◌∷◌, [], ◌++◌, List, Text, codes, split, text_eq, text_eq_refl,
  text_eq_sound, Lacks, arith, ok, ◌≢◌, ◌↔◌, >>=-eq-ok, require-eq-ok,
}
use changesaga.LivingId.{valid_id, colon, base}
use changesaga.LivingId.Shape.{valid_id-Lacks, split-five, split-seven}
use changesaga.SagaRef.Target.{
  TargetKind, Target, criterion, landmark, item, other, kind_text, kind_of, is_flat, nested_urn,
  urn_kind, urn, nested_kind, finish, parse_flat, parse_nested, parse_parts, parse_target,
  has_scheme,
}

finish-eq-ok :
    (v : Text) (s : Target) {t : Target}
    → finish v s ≡ ok t
    → (s ≡ t) × (valid_id s.id ≡ true) × (urn s ≡ v)
unfolding finish
finish-eq-ok v s h = ground (arith, text_eq_sound (urn s) v)

of_finish :
    (v : Text) (s : Target) {t : Target} → finish v s ≡ ok t → (urn t ≡ v) × (valid_id t.id ≡ true)
of_finish v s {t} h =
    let (same, valid, spelled) = finish-eq-ok v s h in (rw same at spelled, rw same at valid)

urn-parse_flat :
    (v saga word id : Text) {t : Target}
    → parse_flat v saga word id ≡ ok t
    → (urn t ≡ v) × (valid_id t.id ≡ true)
unfolding parse_flat
urn-parse_flat v saga word id h =
    let (vs, h1) = require-eq-ok (valid_id saga) _ _ h in
    let (flat, h2) = require-eq-ok (is_flat (kind_of word)) _ _ h1 in
    let s : Target = record { saga_id = saga; kind = kind_of word; id = id; parent_id = [] } in
    of_finish v s h2

urn-parse_nested :
    (v saga outer parent inner id : Text) {t : Target}
    → parse_nested v saga outer parent inner id ≡ ok t
    → (urn t ≡ v) × (valid_id t.id ≡ true)
unfolding parse_nested
urn-parse_nested v saga outer parent inner id h =
    let (vs, h1) = require-eq-ok (valid_id saga) _ _ h in
    let (kind, nk, h2) = >>=-eq-ok (nested_kind outer inner) _ h1 in
    let (vp, h3) = require-eq-ok (valid_id parent) _ _ h2 in
    let s : Target = record { saga_id = saga; kind = kind; id = id; parent_id = parent } in
    of_finish v s h3

urn-parse_parts :
    (v : Text) (parts : List Text) {t : Target}
    → parse_parts v parts ≡ ok t
    → (urn t ≡ v) × (valid_id t.id ≡ true)
unfolding parse_parts
urn-parse_parts v (a ∷ b ∷ saga ∷ word ∷ id ∷ []) h =
    urn-parse_flat v saga word id (require-eq-ok (has_scheme a b) _ _ h).1
urn-parse_parts v (a ∷ b ∷ saga ∷ outer ∷ parent ∷ inner ∷ id ∷ []) h =
    urn-parse_nested v saga outer parent inner id (require-eq-ok (has_scheme a b) _ _ h).1
urn-parse_parts v _ h = cc

-- What is returned is spelled by the very text that was read.
urn-parse_target :
    (v : Text) {t : Target} → parse_target v ≡ ok t → (urn t ≡ v) × (valid_id t.id ≡ true)
unfolding parse_target
urn-parse_target v h = urn-parse_parts v (split v colon) h

parsed-ne-nil : (v : Text) {t : Target} → parse_target v ≡ ok t → v ≢ []
unfolding parse_target parse_parts split
parsed-ne-nil [] h e = cc
parsed-ne-nil (c ∷ v) h e = cc

has_scheme_lem : has_scheme (codes "urn") (codes "change-saga") ≡ true
unfolding text_eq
has_scheme_lem = refl

finish_own : (t : Target) → valid_id t.id ≡ true → finish (urn t) t ≡ ok t
unfolding finish
finish_own t h = rw (h, text_eq_refl (urn t))

finish_same : (t s : Target) → valid_id t.id ≡ true → s ≡ t → finish (urn t) s ≡ ok t
finish_same t s h e = rw e (finish_own t h)

module _ (t : Target) (vs : valid_id t.saga_id ≡ true) (vi : valid_id t.id ≡ true) where
  parse-flat :
      (k : TargetKind)
      → t.kind ≡ k
      → Lacks colon (kind_text k)
      → kind_of (kind_text k) ≡ k
      → is_flat k ≡ true
      → t.parent_id ≡ []
      → urn t ≡ base t.saga_id (kind_text k ++ (colon ∷ t.id))
      → parse_target (urn t) ≡ ok t
  unfolding parse_target parse_parts parse_flat text_eq
  parse-flat k kind lacks known flat no_parent shape =
      rw (parts, vs, known, flat)
        (finish_same t (record { saga_id = t.saga_id; kind = k; id = t.id; parent_id = [] }) vi
          (ground arith))
    where
      parts :
          split (urn t) colon
          ≡ codes "urn" ∷ codes "change-saga" ∷ t.saga_id ∷ kind_text k ∷ t.id ∷ []
      parts = rw shape (
          split-five t.saga_id (kind_text k) t.id (valid_id-Lacks _ vs) lacks (valid_id-Lacks _ vi))

  parse-nested :
      (k : TargetKind) (outer inner : Text)
      → t.kind ≡ k
      → Lacks colon outer
      → Lacks colon inner
      → nested_kind outer inner ≡ ok k
      → valid_id t.parent_id ≡ true
      → urn t ≡ base t.saga_id (outer ++ (colon ∷ t.parent_id ++ (colon ∷ inner ++ (colon ∷ t.id))))
      → parse_target (urn t) ≡ ok t
  unfolding parse_target parse_parts parse_nested text_eq
  parse-nested k outer inner kind ho hn known vp shape =
      rw (parts, vs, known, vp)
        (finish_same t
          (record { saga_id = t.saga_id; kind = k; id = t.id; parent_id = t.parent_id }) vi
          (ground arith))
    where
      parts :
          split (urn t) colon
          ≡ codes "urn" ∷ codes "change-saga" ∷ t.saga_id ∷ outer ∷ t.parent_id ∷ inner ∷ t.id ∷ []
      parts = rw shape (
          split-seven t.saga_id outer t.parent_id inner t.id (valid_id-Lacks _ vs) ho
            (valid_id-Lacks _ vp) hn (valid_id-Lacks _ vi))

-- What a spelled target has.
urn_supported :
    (t : Target)
    → urn t ≢ []
    → (valid_id t.saga_id ≡ true) × (valid_id t.id ≡ true) × (urn t ≡ urn_kind t.kind t)
unfolding urn
urn_supported t h = ground arith

flat_urn :
    (k : TargetKind) (t : Target)
    → is_flat k ≡ true
    → urn_kind k t ≢ []
    → (t.parent_id ≡ []) × (urn_kind k t ≡ base t.saga_id (kind_text k ++ (colon ∷ t.id)))
unfolding urn_kind
flat_urn criterion t f h = cc
flat_urn landmark t f h = cc
flat_urn item t f h = cc
flat_urn (other w) t f h = cc
flat_urn _ t f h = ground arith

nested_urn_lem :
    (outer inner : Text) (t : Target)
    → nested_urn outer inner t ≢ []
    → (valid_id t.parent_id ≡ true)
      × (nested_urn outer inner t
          ≡ base t.saga_id (outer ++ (colon ∷ t.parent_id ++ (colon ∷ inner ++ (colon ∷ t.id)))))
unfolding nested_urn
nested_urn_lem outer inner t h = ground arith

known_flat :
    (k : TargetKind) → is_flat k ≡ true → (kind_of (kind_text k) ≡ k) × Lacks colon (kind_text k)
unfolding kind_of text_eq
known_flat criterion h = cc
known_flat landmark h = cc
known_flat item h = cc
known_flat (other w) h = cc
known_flat _ h = (refl, omega arith)

parse_of_kind :
    (t : Target) (k : TargetKind)
    → t.kind ≡ k
    → valid_id t.saga_id ≡ true
    → valid_id t.id ≡ true
    → urn t ≡ urn_kind k t
    → urn_kind k t ≢ []
    → parse_target (urn t) ≡ ok t
unfolding urn_kind nested_kind text_eq
parse_of_kind t criterion kind vs vi shape some =
    let (vp, built) = nested_urn_lem (codes "story") (codes "criterion") t some in
    parse-nested t vs vi criterion (codes "story") (codes "criterion") kind (omega arith)
      (omega arith) refl vp (shape ∙ built)
parse_of_kind t landmark kind vs vi shape some =
    let (vp, built) = nested_urn_lem (codes "fragment") (codes "landmark") t some in
    parse-nested t vs vi landmark (codes "fragment") (codes "landmark") kind (omega arith)
      (omega arith) refl vp (shape ∙ built)
parse_of_kind t item kind vs vi shape some =
    let (vp, built) = nested_urn_lem (codes "slide") (codes "item") t some in
    parse-nested t vs vi item (codes "slide") (codes "item") kind (omega arith) (omega arith) refl
      vp (shape ∙ built)
parse_of_kind t (other w) kind vs vi shape some = absurd (some refl)
parse_of_kind t k kind vs vi shape some =
    let (known, lacks) = known_flat k refl in
    let (no_parent, built) = flat_urn k t refl some in
    parse-flat t vs vi k kind lacks known refl no_parent (shape ∙ built)

-- `ParseTarget` inverts `URN`: it returns a target exactly for the text that spells that target, and
-- only for a target that can be spelled.
pub parse_target_iff-urn :
    (v : Text) (t : Target) → (parse_target v ≡ ok t) ↔ ((urn t ≡ v) × (v ≢ []))
parse_target_iff-urn v t = (
  λ h. ((urn-parse_target v h).0, parsed-ne-nil v h),
  λ s.
      let spelled : urn t ≢ [] = λ e. s.1 (cc) in
      let (vs, vi, shape) = urn_supported t spelled in
      rw (← s.0) (parse_of_kind t t.kind refl vs vi shape (λ e. spelled (shape ∙ e))),
)
