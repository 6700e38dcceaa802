-- ===== src/LivingId/RoundTrip.antt =====
-- `Parse` and `Build` undo one another.
use changesaga.Prelude.{
  ◌≡◌, refl, ap, ◌∙◌, sym, true, ◌∷◌, [], ◌++◌, Text, split, text_eq, text_eq_sound, has_prefix,
  arith, ok, ◌≢◌, ◌↔◌, ok-injective, >>=-eq-ok, require-eq-ok,
}
use changesaga.LivingId.{
  Kind, DesignKind, Reference, story, criterion, revision, citation, relation, design, wave,
  work_item, dependency, contract, unset, other, chapter, section, fragment, landmark, no_design,
  other_design, design_text, valid_id, validate_id, build_design, build_kind, build, colon, prefix,
  base,
}
use changesaga.LivingId.Parse.{top_level_kind, parse_parts, parse, wrap}
use changesaga.LivingId.Spelled.{
  canonical_as, canonical, build_valid, parse-flat, parse-criterion, parse-revision, parse-landmark,
  parse-design,
}

flat_shape :
    (r : Reference) (d : DesignKind) {v : Text}
    → build_design d r ≡ ok v
    → d ≢ landmark
    → (r.parent_id ≡ []) × (v ≡ base r.saga_id (design_text d ++ (colon ∷ r.id)))
unfolding build_design validate_id
flat_shape r landmark h n = absurd (n refl)
flat_shape r _ h n = ground arith

-- The switch on the design kind.
parse_of_design :
    (r : Reference) (d : DesignKind) {v : Text}
    → r.kind ≡ design
    → r.design_kind ≡ d
    → valid_id r.saga_id ≡ true
    → valid_id r.id ≡ true
    → build_design d r ≡ ok v
    → build r ≡ ok v
    → parse v ≡ ok (record r { parent_kind = unset })
unfolding top_level_kind text_eq
parse_of_design r landmark kind of_d vs vi shaped built =
    parse-landmark r vs vi kind of_d shaped built
parse_of_design r chapter kind of_d vs vi shaped built =
    parse-design r vs vi chapter (omega arith) refl (flat_shape r chapter shaped (λ e. cc)) kind
      of_d built
parse_of_design r section kind of_d vs vi shaped built =
    parse-design r vs vi section (omega arith) refl (flat_shape r section shaped (λ e. cc)) kind
      of_d built
parse_of_design r fragment kind of_d vs vi shaped built =
    parse-design r vs vi fragment (omega arith) refl (flat_shape r fragment shaped (λ e. cc)) kind
      of_d built
parse_of_design r no_design kind of_d vs vi shaped built = unfold build_design in cc
parse_of_design r (other_design t) kind of_d vs vi shaped built = unfold build_design in cc

-- The switch on the kind.
parse_of_kind :
    (r : Reference) (k : Kind) {v : Text}
    → r.kind ≡ k
    → valid_id r.saga_id ≡ true
    → valid_id r.id ≡ true
    → build_kind k r ≡ ok v
    → build r ≡ ok v
    → parse v ≡ ok (canonical_as k r)
unfolding build_kind top_level_kind text_eq
parse_of_kind r story kind vs vi shaped built =
    parse-flat r vs vi story (omega arith) refl kind shaped built
parse_of_kind r citation kind vs vi shaped built =
    parse-flat r vs vi citation (omega arith) refl kind shaped built
parse_of_kind r relation kind vs vi shaped built =
    parse-flat r vs vi relation (omega arith) refl kind shaped built
parse_of_kind r wave kind vs vi shaped built =
    parse-flat r vs vi wave (omega arith) refl kind shaped built
parse_of_kind r work_item kind vs vi shaped built =
    parse-flat r vs vi work_item (omega arith) refl kind shaped built
parse_of_kind r dependency kind vs vi shaped built =
    parse-flat r vs vi dependency (omega arith) refl kind shaped built
parse_of_kind r contract kind vs vi shaped built =
    parse-flat r vs vi contract (omega arith) refl kind shaped built
parse_of_kind r criterion kind vs vi shaped built = parse-criterion r vs vi kind shaped built
parse_of_kind r revision kind vs vi shaped built = parse-revision r vs vi kind shaped built
parse_of_kind r design kind vs vi shaped built =
    parse_of_design r r.design_kind kind refl vs vi shaped built
parse_of_kind r unset kind vs vi shaped built = cc
parse_of_kind r (other t) kind vs vi shaped built = cc

-- `Parse` reads every URN that `Build` returns, and gives back the reference it was built from, in
-- its canonical form.
pub parse-build : (r : Reference) {v : Text} → build r ≡ ok v → parse v ≡ ok (canonical r)
parse-build r h =
    let (vs, vi, shaped) = build_valid r h in parse_of_kind r r.kind refl vs vi shaped h

build-parse : (v : Text) {r : Reference} → parse v ≡ ok r → build r ≡ ok v
unfolding parse
build-parse v h =
    let (prefixed, read) = require-eq-ok (has_prefix v prefix) _ _ h in
    let (s, parts, checked) = >>=-eq-ok (parse_parts (split v colon)) _ read in
    let (c, built, same) = >>=-eq-ok (wrap (build s)) _ checked in ground (arith, text_eq_sound c v)

-- `Parse` inverts `Build`: it returns a reference exactly when that reference is canonical and is
-- built to the very text that was read. So it accepts no second spelling of a URN, and no URN stands
-- for two references.
pub parse_iff-build :
    (v : Text) (r : Reference) → (parse v ≡ ok r) ↔ ((build r ≡ ok v) × (canonical r ≡ r))
parse_iff-build v r = (
  λ h. (build-parse v h, ok-injective (sym (parse-build r (build-parse v h)) ∙ h)),
  λ b. parse-build r b.0 ∙ ap ok b.1,
)
