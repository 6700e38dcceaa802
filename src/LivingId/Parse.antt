-- ===== src/LivingId/Parse.antt =====
-- internal/livingid/urn.go: `Parse`, `parseTopLevel` and `parseNested`.
use changesaga.Prelude.{
  ◌&&◌, List, [], ◌∷◌, Text, codes, text_eq, has_prefix, split, if◌then◌else◌, Result, ok, err,
  ◌>>=◌, ◌>>◌, require,
}
use changesaga.LivingId.{
  Kind, DesignKind, Reference, Error, prefix, colon, build, story, criterion, revision, citation,
  relation, design, wave, work_item, dependency, contract, unset, other, chapter, section, fragment,
  landmark, no_design, not_prefixed, bad_shape, invalid_urn, not_canonical,
}

-- `Kind(text)`.
unfoldable pub kind_of : Text → Kind
kind_of t =
    if text_eq t (codes "story")
    then story
    else if text_eq t (codes "criterion")
    then criterion
    else if text_eq t (codes "revision")
    then revision
    else if text_eq t (codes "citation")
    then citation
    else if text_eq t (codes "relation")
    then relation
    else if text_eq t (codes "design")
    then design
    else if text_eq t (codes "wave")
    then wave
    else if text_eq t (codes "work-item")
    then work_item
    else if text_eq t (codes "dependency")
    then dependency
    else if text_eq t (codes "contract")
    then contract
    else if text_eq t []
    then unset
    else other t

-- The switch of `parseTopLevel` on the fourth part.
unfoldable pub top_level_kind : Text → Kind × DesignKind
top_level_kind t =
    if text_eq t (codes "story")
    then (story, no_design)
    else if text_eq t (codes "citation")
    then (citation, no_design)
    else if text_eq t (codes "relation")
    then (relation, no_design)
    else if text_eq t (codes "wave")
    then (wave, no_design)
    else if text_eq t (codes "work-item")
    then (work_item, no_design)
    else if text_eq t (codes "dependency")
    then (dependency, no_design)
    else if text_eq t (codes "contract")
    then (contract, no_design)
    else if text_eq t (codes "chapter")
    then (design, chapter)
    else if text_eq t (codes "section")
    then (design, section)
    else if text_eq t (codes "fragment")
    then (design, fragment)
    else (unset, no_design)

unfoldable pub parse_top_level : Text → Text → Text → Reference
unfolding top_level_kind
parse_top_level saga word id =
    let (kind, design_kind) = top_level_kind word in
    record {
      saga_id = saga;
      kind = kind;
      id = id;
      parent_id = [];
      parent_kind = unset;
      design_kind = design_kind;
    }

-- A story revision keeps the zero value of its parent kind.
abbrev pub unset_story : Kind → Kind
unset_story story = unset
unset_story k = k

-- The switch of `parseNested` on the fourth and the sixth part.
unfoldable pub nested_kind : Text → Text → Kind × Kind × DesignKind
unfolding kind_of
nested_kind outer inner =
    if text_eq outer (codes "story") && text_eq inner (codes "criterion")
    then (criterion, unset, no_design)
    else if text_eq inner (codes "revision")
    then (revision, unset_story (kind_of outer), no_design)
    else if text_eq outer (codes "fragment") && text_eq inner (codes "landmark")
    then (design, unset, landmark)
    else (unset, unset, no_design)

unfoldable pub parse_nested : Text → Text → Text → Text → Text → Reference
unfolding nested_kind
parse_nested saga outer parent inner id =
    let (kind, parent_kind, design_kind) = nested_kind outer inner in
    record {
      saga_id = saga;
      kind = kind;
      id = id;
      parent_id = parent;
      parent_kind = parent_kind;
      design_kind = design_kind;
    }

-- The switch of `Parse` on the number of parts.
unfoldable pub parse_parts : List Text → Result Error Reference
unfolding parse_top_level parse_nested
parse_parts (urn ∷ scheme ∷ saga ∷ word ∷ id ∷ []) = ok (parse_top_level saga word id)
parse_parts (urn ∷ scheme ∷ saga ∷ outer ∷ parent ∷ inner ∷ id ∷ []) =
    ok (parse_nested saga outer parent inner id)
parse_parts _ = err bad_shape

abbrev pub wrap : Result Error Text → Result Error Text
wrap (ok t) = ok t
wrap (err e) = err (invalid_urn e)

unfoldable pub parse : Text → Result Error Reference
parse value = do
  require (has_prefix value prefix) not_prefixed
  reference ← parse_parts (split value colon)
  canonical ← wrap (build reference)
  require (text_eq canonical value) (not_canonical canonical)
  ok reference
