-- ===== src/SagaRef/Target.antt =====
-- internal/sagaref/target.go: the stable targets of cross-Saga references. A kind is a Go string; the
-- named constants are constructors, any other string is under `other`.
pub mod RoundTrip
use changesaga.Prelude.{
  ℕ, ◌≡◌, refl, Bool, true, false, ◌&&◌, not, List, [], ◌∷◌, ◌++◌, Text, codes, text_eq, split,
  if◌then◌else◌, Result, ok, err, ◌>>=◌, ◌>>◌, require,
}
use changesaga.LivingId.{valid_id, colon, base, is_empty}

pub data TargetKind : Type 0 where
  story criterion prototype chapter section fragment landmark : TargetKind
  deck slide item work_item claim verification : TargetKind
  other : Text → TargetKind

-- `string(kind)`.
abbrev pub kind_text : TargetKind → Text
kind_text story = codes "story"
kind_text criterion = codes "criterion"
kind_text prototype = codes "prototype"
kind_text chapter = codes "chapter"
kind_text section = codes "section"
kind_text fragment = codes "fragment"
kind_text landmark = codes "landmark"
kind_text deck = codes "deck"
kind_text slide = codes "slide"
kind_text item = codes "item"
kind_text work_item = codes "work-item"
kind_text claim = codes "claim"
kind_text verification = codes "verification"
kind_text (other t) = t

-- `TargetKind(text)`.
unfoldable pub kind_of : Text → TargetKind
kind_of t =
    if text_eq t (codes "story")
    then story
    else if text_eq t (codes "criterion")
    then criterion
    else if text_eq t (codes "prototype")
    then prototype
    else if text_eq t (codes "chapter")
    then chapter
    else if text_eq t (codes "section")
    then section
    else if text_eq t (codes "fragment")
    then fragment
    else if text_eq t (codes "landmark")
    then landmark
    else if text_eq t (codes "deck")
    then deck
    else if text_eq t (codes "slide")
    then slide
    else if text_eq t (codes "item")
    then item
    else if text_eq t (codes "work-item")
    then work_item
    else if text_eq t (codes "claim")
    then claim
    else if text_eq t (codes "verification")
    then verification
    else other t

pub record Target : Type 0 where
  pub saga_id : Text
  pub kind : TargetKind
  pub id : Text
  pub parent_id : Text

pub data Error : Type 0 where
  unsupported_urn bad_saga_id bad_parent_id bad_id not_canonical unsupported_nested : Error
  unsupported_kind : Text → Error

-- The kinds that `ParseTarget` and `URN` list together.
abbrev pub is_flat : TargetKind → Bool
is_flat criterion = false
is_flat landmark = false
is_flat item = false
is_flat (other t) = false
is_flat _ = true

-- `base + outer + ":" + ParentID + ":" + inner + ":" + ID`, where the parent is valid.
unfoldable pub nested_urn : Text → Text → Target → Text
nested_urn outer inner t =
    if valid_id t.parent_id
    then base t.saga_id (outer ++ (colon ∷ t.parent_id ++ (colon ∷ inner ++ (colon ∷ t.id))))
    else []

-- The switch of `URN` on the kind.
unfoldable pub urn_kind : TargetKind → Target → Text
unfolding nested_urn
urn_kind criterion t = nested_urn (codes "story") (codes "criterion") t
urn_kind landmark t = nested_urn (codes "fragment") (codes "landmark") t
urn_kind item t = nested_urn (codes "slide") (codes "item") t
urn_kind (other k) t = []
urn_kind kind t =
    if is_empty t.parent_id then base t.saga_id (kind_text kind ++ (colon ∷ t.id)) else []

unfoldable pub urn : Target → Text
unfolding urn_kind
urn t = if valid_id t.saga_id && valid_id t.id then urn_kind t.kind t else []

-- The switch on a target of seven parts.
unfoldable pub nested_kind : Text → Text → Result Error TargetKind
nested_kind outer inner =
    if text_eq outer (codes "story") && text_eq inner (codes "criterion")
    then ok criterion
    else if text_eq outer (codes "fragment") && text_eq inner (codes "landmark")
    then ok landmark
    else if text_eq outer (codes "slide") && text_eq inner (codes "item")
    then ok item
    else err unsupported_nested

-- The checks behind the switch on the number of parts.
unfoldable pub finish : Text → Target → Result Error Target
finish value t = do
  require (valid_id t.id) bad_id
  require (text_eq (urn t) value) not_canonical
  ok t

unfoldable pub parse_flat : Text → Text → Text → Text → Result Error Target
parse_flat value saga word id = do
  require (valid_id saga) bad_saga_id
  require (is_flat (kind_of word)) (unsupported_kind word)
  finish value (record { saga_id = saga; kind = kind_of word; id = id; parent_id = [] })

unfoldable pub parse_nested : Text → Text → Text → Text → Text → Text → Result Error Target
parse_nested value saga outer parent inner id = do
  require (valid_id saga) bad_saga_id
  kind ← nested_kind outer inner
  require (valid_id parent) bad_parent_id
  finish value (record { saga_id = saga; kind = kind; id = id; parent_id = parent })

-- `parts[0] == "urn" && parts[1] == "change-saga"`.
abbrev pub has_scheme : Text → Text → Bool
has_scheme a b = text_eq a (codes "urn") && text_eq b (codes "change-saga")

unfoldable pub parse_parts : Text → List Text → Result Error Target
parse_parts value (a ∷ b ∷ saga ∷ word ∷ id ∷ []) = do
  require (has_scheme a b) unsupported_urn
  parse_flat value saga word id
parse_parts value (a ∷ b ∷ saga ∷ outer ∷ parent ∷ inner ∷ id ∷ []) = do
  require (has_scheme a b) unsupported_urn
  parse_nested value saga outer parent inner id
parse_parts value _ = err unsupported_urn

unfoldable pub parse_target : Text → Result Error Target
parse_target value = parse_parts value (split value colon)
