-- ===== src/LivingId/Spelled.antt =====
-- What Parse reads of the text that Build spells, for each shape of a reference.
use changesaga.Prelude.{
  ◌≡◌, refl, true, ◌∷◌, [], ◌++◌, Text, codes, split, text_eq, text_eq_refl, has_prefix,
  has_prefix-append, Lacks, arith, ok,
}
use changesaga.LivingId.{
  Kind, DesignKind, Reference, story, criterion, revision, design, wave, work_item, contract, unset,
  other, landmark, no_design, kind_text, design_text, valid_id, validate_id, build_flat,
  build_criterion, build_revision, build_design, build_kind, build, colon, prefix, base,
  parent_kind_or_story, is_revision_parent,
}
use changesaga.LivingId.Parse.{
  top_level_kind, nested_kind, parse_top_level, parse_nested, parse_parts, parse, unset_story,
}
use changesaga.LivingId.Shape.{valid_id-Lacks, split-five, split-seven}

-- The one form in which `Parse` returns a reference: a revision of a story keeps the zero value of
-- its parent kind, and a design reference carries no parent kind.
abbrev pub canonical_as : Kind → Reference → Reference
canonical_as revision r = record r { parent_kind = unset_story r.parent_kind }
canonical_as design r = record r { parent_kind = unset }
canonical_as _ r = r

abbrev pub canonical : Reference → Reference
canonical r = canonical_as r.kind r

-- What every built reference has.
pub build_valid :
    (r : Reference) {v : Text}
    → build r ≡ ok v
    → (valid_id r.saga_id ≡ true) × (valid_id r.id ≡ true) × (build_kind r.kind r ≡ ok v)
unfolding build validate_id
build_valid r h = ground arith

has_prefix-base : (saga rest : Text) → has_prefix (base saga rest) prefix ≡ true
has_prefix-base saga rest = has_prefix-append prefix (saga ++ (colon ∷ rest))

parse_of_parts :
    (v : Text) (r : Reference)
    → has_prefix v prefix ≡ true
    → parse_parts (split v colon) ≡ ok r
    → build r ≡ ok v
    → parse v ≡ ok r
unfolding parse
parse_of_parts v r hp hs hb = rw (hp, hs, hb, text_eq_refl v)

nested_criterion : nested_kind (codes "story") (codes "criterion") ≡ (criterion, unset, no_design)
unfolding nested_kind text_eq
nested_criterion = refl

nested_landmark : nested_kind (codes "fragment") (codes "landmark") ≡ (design, unset, landmark)
unfolding nested_kind text_eq
nested_landmark = refl

nested_revision :
    (k : Kind)
    → is_revision_parent (parent_kind_or_story k) ≡ true
    → nested_kind (kind_text (parent_kind_or_story k)) (codes "revision")
      ≡ (revision, unset_story k, no_design)
unfolding nested_kind text_eq
nested_revision story h = refl
nested_revision wave h = refl
nested_revision work_item h = refl
nested_revision contract h = refl
nested_revision unset h = refl
nested_revision _ h = cc

parent-Lacks :
    (k : Kind)
    → is_revision_parent (parent_kind_or_story k) ≡ true
    → Lacks colon (kind_text (parent_kind_or_story k))
parent-Lacks (other t) h = cc
parent-Lacks _ h = omega arith

module _ (r : Reference) (valid_saga : valid_id r.saga_id ≡ true)
    (valid : valid_id r.id ≡ true) where
  parse-five :
      (word : Text) {s : Reference} {v : Text}
      → Lacks colon word
      → v ≡ base r.saga_id (word ++ (colon ∷ r.id))
      → parse_top_level r.saga_id word r.id ≡ s
      → build s ≡ ok v
      → parse v ≡ ok s
  unfolding parse_parts
  parse-five word {s} {v} lacks shape read again =
      parse_of_parts v s (rw shape (has_prefix-base r.saga_id (word ++ (colon ∷ r.id))))
        (rw (
          shape,
          split-five r.saga_id word r.id (valid_id-Lacks _ valid_saga) lacks
              (valid_id-Lacks _ valid),
          read,
        ))
        again

  parse-seven :
      (outer inner : Text) {s : Reference} {v : Text}
      → Lacks colon outer
      → Lacks colon inner
      → valid_id r.parent_id ≡ true
      → v ≡ base r.saga_id (outer ++ (colon ∷ r.parent_id ++ (colon ∷ inner ++ (colon ∷ r.id))))
      → parse_nested r.saga_id outer r.parent_id inner r.id ≡ s
      → build s ≡ ok v
      → parse v ≡ ok s
  unfolding parse_parts
  parse-seven outer inner {s} {v} ho hn hp shape read again =
      parse_of_parts v s
        (rw shape (
          has_prefix-base r.saga_id
            (outer ++ (colon ∷ r.parent_id ++ (colon ∷ inner ++ (colon ∷ r.id))))))
        (rw (
          shape,
          split-seven r.saga_id outer r.parent_id inner r.id (valid_id-Lacks _ valid_saga) ho
              (valid_id-Lacks _ hp) hn (valid_id-Lacks _ valid),
          read,
        ))
        again

  pub parse-flat :
      (k : Kind) {v : Text}
      → Lacks colon (kind_text k)
      → top_level_kind (kind_text k) ≡ (k, no_design)
      → r.kind ≡ k
      → build_flat k r ≡ ok v
      → build r ≡ ok v
      → parse v ≡ ok r
  unfolding build_flat parse_top_level
  parse-flat k {v} lacks known kind flat built =
      parse-five (kind_text k) {v = v} lacks (ground arith) (ground arith) built

  pub parse-criterion :
      {v : Text} → r.kind ≡ criterion → build_criterion r ≡ ok v → build r ≡ ok v → parse v ≡ ok r
  unfolding build_criterion parse_nested
  parse-criterion {v} kind shaped built =
      parse-seven (codes "story") (codes "criterion") {v = v} (omega arith) (omega arith)
        (ground arith) (ground arith) (ground (arith, nested_criterion)) built

  pub parse-revision :
      {v : Text}
      → r.kind ≡ revision
      → build_revision r ≡ ok v
      → build r ≡ ok v
      → parse v ≡ ok (record r { parent_kind = unset_story r.parent_kind })
  unfolding build_revision validate_id parse_nested build build_kind
  parse-revision {v} kind shaped built =
      parse-seven (kind_text (parent_kind_or_story r.parent_kind)) (codes "revision") {v = v}
        (parent-Lacks r.parent_kind (ground arith)) (omega arith) (ground arith) (ground arith)
        (ground (arith, nested_revision r.parent_kind)) (ground arith)

  pub parse-landmark :
      {v : Text}
      → r.kind ≡ design
      → r.design_kind ≡ landmark
      → build_design landmark r ≡ ok v
      → build r ≡ ok v
      → parse v ≡ ok (record r { parent_kind = unset })
  unfolding build_design validate_id parse_nested build build_kind
  parse-landmark {v} kind of_landmark shaped built =
      parse-seven (codes "fragment") (codes "landmark") {v = v} (omega arith) (omega arith)
        (ground arith) (ground arith) (ground (arith, nested_landmark)) (ground arith)

  pub parse-design :
      (d : DesignKind) {v : Text}
      → Lacks colon (design_text d)
      → top_level_kind (design_text d) ≡ (design, d)
      → (r.parent_id ≡ []) × (v ≡ base r.saga_id (design_text d ++ (colon ∷ r.id)))
      → r.kind ≡ design
      → r.design_kind ≡ d
      → build r ≡ ok v
      → parse v ≡ ok (record r { parent_kind = unset })
  unfolding parse_top_level build build_kind build_design validate_id
  parse-design d {v} lacks known shape kind of_d built =
      parse-five (design_text d) {v = v} lacks (ground arith) (ground arith) (ground arith)
