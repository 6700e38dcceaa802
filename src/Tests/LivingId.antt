-- ===== src/Tests/LivingId.antt =====
-- internal/livingid at fixed inputs.
use changesaga.Prelude.{◌≡◌, refl, ◌↔◌, codes, split, text_eq, has_prefix, ok, err}
use changesaga.LivingId.{
  Reference, story, revision, unset, no_design, valid_id, build, bad_shape, invalid_urn, invalid_id,
}
use changesaga.LivingId.Parse.{parse, parse_parts}
use changesaga.LivingId.Spelled.{canonical}
use changesaga.LivingId.RoundTrip.{parse-build, parse_iff-build}

-- A revision of a story, whose parent kind is written out.
abbrev story_revision : Reference
story_revision = record {
  saga_id = codes "s1";
  kind = revision;
  id = codes "r1";
  parent_id = codes "checkout";
  parent_kind = story;
  design_kind = no_design;
}

build-story_revision :
    build story_revision ≡ ok (codes "urn:change-saga:s1:story:checkout:revision:r1")
unfolding build valid_id
build-story_revision = refl

parse-build_example :
    parse (codes "urn:change-saga:s1:story:checkout:revision:r1")
    ≡ ok (record story_revision { parent_kind = unset })
parse-build_example = parse-build story_revision build-story_revision

parse_iff-build_example : (parse (codes "urn:change-saga:s1:wave:w") ≡ ok story_revision) ↔ (
    (build story_revision ≡ ok (codes "urn:change-saga:s1:wave:w"))
    × (canonical story_revision ≡ story_revision))
parse_iff-build_example = parse_iff-build (codes "urn:change-saga:s1:wave:w") story_revision

short_urn : parse (codes "urn:change-saga:s1:story") ≡ err bad_shape
unfolding parse parse_parts has_prefix split
short_urn = refl

empty_id :
    parse (codes "urn:change-saga:s1:story:") ≡ err (invalid_urn (invalid_id (codes "story")))
unfolding parse parse_parts has_prefix split build valid_id text_eq
empty_id = refl
