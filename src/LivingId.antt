-- ===== src/LivingId.antt =====
-- internal/livingid/urn.go: the stable URNs of living-Saga resources. A `Kind` or `DesignKind` of the
-- source is a string; its named constants are constructors here, `unset` and `no_design` are "", and
-- any other string is under `other`.
pub mod Parse
pub mod Shape
pub mod Spelled
pub mod RoundTrip
pub mod Urns
use changesaga.Prelude.{
  ℕ, ◌≡◌, refl, Bool, true, false, ◌&&◌, ◌||◌, not, List, [], ◌∷◌, ◌++◌, Text, codes, text_eq,
  has_prefix, split, all, length, leb, ltb, ◌==◌, if◌then◌else◌, Result, ok, err, ◌>>=◌, ◌>>◌,
  require,
}

pub data Kind : Type 0 where
  story criterion revision citation relation design : Kind
  wave work_item dependency contract : Kind
  unset : Kind
  other : Text → Kind

pub data DesignKind : Type 0 where
  chapter section fragment landmark : DesignKind
  no_design : DesignKind
  other_design : Text → DesignKind

-- `string(kind)`.
abbrev pub kind_text : Kind → Text
kind_text story = codes "story"
kind_text criterion = codes "criterion"
kind_text revision = codes "revision"
kind_text citation = codes "citation"
kind_text relation = codes "relation"
kind_text design = codes "design"
kind_text wave = codes "wave"
kind_text work_item = codes "work-item"
kind_text dependency = codes "dependency"
kind_text contract = codes "contract"
kind_text unset = []
kind_text (other t) = t

abbrev pub design_text : DesignKind → Text
design_text chapter = codes "chapter"
design_text section = codes "section"
design_text fragment = codes "fragment"
design_text landmark = codes "landmark"
design_text no_design = []
design_text (other_design t) = t

pub record Reference : Type 0 where
  pub saga_id : Text
  pub kind : Kind
  pub id : Text
  pub parent_id : Text
  pub parent_kind : Kind
  pub design_kind : DesignKind

pub data Error : Type 0 where
  invalid_id : Text → Error
  has_parent has_parent_kind has_design_kind revision_parent_kind : Error
  unsupported_design : DesignKind → Error
  unsupported_kind : Kind → Error
  not_prefixed bad_shape : Error
  invalid_urn : Error → Error
  not_canonical : Text → Error

-- `[A-Za-z0-9]`.
abbrev pub is_alnum : ℕ → Bool
is_alnum c = (leb b'A' c && leb c b'Z') || (leb b'a' c && leb c b'z') || (leb b'0' c && leb c b'9')

-- `[A-Za-z0-9._-]`.
abbrev pub is_id_byte : ℕ → Bool
is_id_byte c = is_alnum c || c == b'.' || c == b'_' || c == b'-'

-- `^[A-Za-z0-9][A-Za-z0-9._-]{0,127}$`.
unfoldable pub valid_id : Text → Bool
valid_id [] = false
valid_id (c ∷ s) = is_alnum c && all is_id_byte s && leb (length s) 127

unfoldable pub validate_id : Text → Text → Result Error (Unit {0})
validate_id name value = require (valid_id value) (invalid_id name)

abbrev pub prefix : Text
prefix = codes "urn:change-saga:"

abbrev pub colon : ℕ
colon = b':'

-- `prefix + SagaID + ":" + rest`.
abbrev pub base : Text → Text → Text
base saga rest = prefix ++ (saga ++ (colon ∷ rest))

abbrev pub is_empty : Text → Bool
is_empty [] = true
is_empty (c ∷ s) = false

abbrev pub is_unset : Kind → Bool
is_unset unset = true
is_unset _ = false

abbrev pub is_no_design : DesignKind → Bool
is_no_design no_design = true
is_no_design _ = false

unfoldable pub build_flat : Kind → Reference → Result Error Text
build_flat kind r = do
  require (is_empty r.parent_id && is_unset r.parent_kind && is_no_design r.design_kind) has_parent
  ok (base r.saga_id (kind_text kind ++ (colon ∷ r.id)))

unfoldable pub build_criterion : Reference → Result Error Text
unfolding validate_id
build_criterion r = do
  validate_id (codes "story") r.parent_id
  require (is_unset r.parent_kind && is_no_design r.design_kind) has_parent_kind
  ok (
      base r.saga_id
        (codes "story" ++ (colon ∷ r.parent_id ++ (colon ∷ codes "criterion" ++ (colon ∷ r.id)))))

-- "" means a story.
abbrev pub parent_kind_or_story : Kind → Kind
parent_kind_or_story unset = story
parent_kind_or_story k = k

abbrev pub is_revision_parent : Kind → Bool
is_revision_parent story = true
is_revision_parent wave = true
is_revision_parent work_item = true
is_revision_parent contract = true
is_revision_parent _ = false

unfoldable pub build_revision : Reference → Result Error Text
unfolding validate_id
build_revision r = do
  let parent_kind = parent_kind_or_story r.parent_kind
  require (is_revision_parent parent_kind) revision_parent_kind
  validate_id (kind_text parent_kind) r.parent_id
  require (is_no_design r.design_kind) has_design_kind
  ok (
      base r.saga_id (
        kind_text parent_kind
        ++ (colon ∷ r.parent_id ++ (colon ∷ codes "revision" ++ (colon ∷ r.id)))))

unfoldable pub build_design : DesignKind → Reference → Result Error Text
unfolding validate_id
build_design landmark r = do
  validate_id (codes "fragment") r.parent_id
  ok (
      base r.saga_id
        (codes "fragment" ++ (colon ∷ r.parent_id ++ (colon ∷ codes "landmark" ++ (colon ∷ r.id)))))
build_design no_design r = err (unsupported_design no_design)
build_design (other_design t) r = err (unsupported_design (other_design t))
build_design kind r = do
  require (is_empty r.parent_id) has_parent
  ok (base r.saga_id (design_text kind ++ (colon ∷ r.id)))

-- The switch of `Build` on the kind.
unfoldable pub build_kind : Kind → Reference → Result Error Text
unfolding build_flat build_criterion build_revision build_design
build_kind criterion r = build_criterion r
build_kind revision r = build_revision r
build_kind design r = build_design r.design_kind r
build_kind unset r = err (unsupported_kind unset)
build_kind (other t) r = err (unsupported_kind (other t))
build_kind kind r = build_flat kind r

unfoldable pub build : Reference → Result Error Text
unfolding validate_id build_kind
build r = do
  validate_id (codes "saga") r.saga_id
  validate_id (kind_text r.kind) r.id
  build_kind r.kind r
