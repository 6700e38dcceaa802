-- ===== src/LivingId/Urns.antt =====
-- internal/livingid/urn.go: the functions that build the URN of one kind of resource.
use changesaga.Prelude.{◌≡◌, refl, [], Text, Result}
use changesaga.LivingId.{
  Kind, DesignKind, Reference, Error, story, criterion, revision, citation, relation, design, wave,
  work_item, dependency, contract, unset, landmark, no_design, build,
}

-- A reference without a parent.
abbrev pub top_level : Kind → Text → Text → Reference
top_level kind saga id = record {
  saga_id = saga;
  kind = kind;
  id = id;
  parent_id = [];
  parent_kind = unset;
  design_kind = no_design;
}

unfoldable pub story_urn : Text → Text → Result Error Text
unfolding build
story_urn saga id = build (top_level story saga id)

unfoldable pub citation_urn : Text → Text → Result Error Text
unfolding build
citation_urn saga id = build (top_level citation saga id)

unfoldable pub relation_urn : Text → Text → Result Error Text
unfolding build
relation_urn saga id = build (top_level relation saga id)

unfoldable pub wave_urn : Text → Text → Result Error Text
unfolding build
wave_urn saga id = build (top_level wave saga id)

unfoldable pub work_item_urn : Text → Text → Result Error Text
unfolding build
work_item_urn saga id = build (top_level work_item saga id)

unfoldable pub dependency_urn : Text → Text → Result Error Text
unfolding build
dependency_urn saga id = build (top_level dependency saga id)

unfoldable pub contract_urn : Text → Text → Result Error Text
unfolding build
contract_urn saga id = build (top_level contract saga id)

unfoldable pub criterion_urn : Text → Text → Text → Result Error Text
unfolding build
criterion_urn saga parent id = build (record (top_level criterion saga id) { parent_id = parent })

unfoldable pub revision_urn : Text → Text → Text → Result Error Text
unfolding build
revision_urn saga parent id = build (record (top_level revision saga id) { parent_id = parent })

unfoldable pub definition_revision_urn : Text → Kind → Text → Text → Result Error Text
unfolding build
definition_revision_urn saga parent_kind parent id =
    build (record (top_level revision saga id) { parent_kind = parent_kind; parent_id = parent })

unfoldable pub design_urn : Text → DesignKind → Text → Result Error Text
unfolding build
design_urn saga kind id = build (record (top_level design saga id) { design_kind = kind })

unfoldable pub landmark_urn : Text → Text → Text → Result Error Text
unfolding build
landmark_urn saga fragment_id id =
    build (record (top_level design saga id) { parent_id = fragment_id; design_kind = landmark })

-- A revision of a story has one URN, whether its parent's kind is written out or not.
pub revision_urn-definition_revision_urn :
    (saga parent id : Text)
    → revision_urn saga parent id ≡ definition_revision_urn saga story parent id
unfolding revision_urn definition_revision_urn build
revision_urn-definition_revision_urn saga parent id = refl
