-- ===== src/Tests/SagaRef.antt =====
-- internal/sagaref at fixed inputs.
use changesaga.Prelude.{◌≡◌, refl, ◌≢◌, ◌↔◌, [], codes, split, text_eq, ok, err}
use changesaga.LivingId.{valid_id}
use changesaga.SagaRef.Target.{
  Target, landmark, urn, parse_target, parse_parts, parse_nested, parse_flat, nested_kind, kind_of,
  finish, unsupported_kind,
}
use changesaga.SagaRef.Target.RoundTrip.{parse_target_iff-urn}

abbrev a_landmark : Target
a_landmark = record {
  saga_id = codes "s1";
  kind = landmark;
  id = codes "node";
  parent_id = codes "overview";
}

parse_target_iff-urn_example :
    (parse_target (codes "urn:change-saga:s1:fragment:overview:landmark:node") ≡ ok a_landmark) ↔ (
      (urn a_landmark ≡ codes "urn:change-saga:s1:fragment:overview:landmark:node")
      × (codes "urn:change-saga:s1:fragment:overview:landmark:node" ≢ []))
parse_target_iff-urn_example =
    parse_target_iff-urn (codes "urn:change-saga:s1:fragment:overview:landmark:node") a_landmark

parse_landmark :
    parse_target (codes "urn:change-saga:s1:fragment:overview:landmark:node") ≡ ok a_landmark
unfolding parse_target parse_parts parse_nested nested_kind finish urn split text_eq valid_id
parse_landmark = refl

-- A wave is a resource of a Saga, and no target of a reference.
wave_refused :
    parse_target (codes "urn:change-saga:s1:wave:w") ≡ err (unsupported_kind (codes "wave"))
unfolding parse_target parse_parts parse_flat kind_of finish urn split text_eq valid_id
wave_refused = refl
