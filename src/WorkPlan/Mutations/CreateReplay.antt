-- ===== src/WorkPlan/Mutations/CreateReplay.antt =====
-- What a repeated request to create a dependency is answered.
use changesaga.Prelude.{
  ◌≡◌, refl, ap, ◌∙◌, true, false, none, some, [], ◌∷◌, Text, codes, text_eq, get, has_key, Result,
  ok, err, if◌then◌else◌,
}
use changesaga.LivingId.Urns.{dependency_urn}
use changesaga.WorkPlan.Records.{Dependency, Plan, RequestRecord}
use changesaga.WorkPlan.Nodes.{is_nil}
use changesaga.WorkPlan.Checks.{Library, valid_request_id, is_digest}
use changesaga.WorkPlan.Items.{text_or_empty}
use changesaga.WorkPlan.Mutations.{MutationError, Outcome, World, nothing, different_payload}
use changesaga.WorkPlan.Mutations.Create.{stamp_dependency, create_dependency}
use changesaga.WorkPlan.Mutations.Requests.{
  Registered, load_dependency, register_request, mutate, replay,
}
use changesaga.WorkPlan.Mutations.Replay.{register_request-get, answer-put, valid_id-nil, no_issues}
use changesaga.WorkPlan.Mutations.Acyclic.{create_dependency-eq-ok}

module _ (lib : Library) (w : World) (request_id digest : Text) where
  -- The plan that a later load finds: the dependency and its request.
  abbrev pub reloaded : Plan → Dependency → Text → Plan
  reloaded plan d path =
      let loaded =
        load_dependency path (stamp_dependency lib w request_id digest d) plan.dependencies
          plan.requests in
      record plan { dependencies = loaded.0; requests = loaded.2.0 }

  abbrev dependency_request : Dependency → Text → RequestRecord
  dependency_request d path = record {
    operation = codes "dependency-create";
    digest = digest;
    resource = d.id;
    event_id = [];
    path = path;
  }

  load_dependency-requests :
      (plan : Plan) (d : Dependency) (path : Text)
      → has_key d.id plan.dependencies ≡ false
      → (reloaded plan d path).requests
        ≡ (register_request plan.requests request_id (dependency_request d path)).0
  unfolding load_dependency
  load_dependency-requests plan d path h = rw (reloaded, h) refl

  replay-dependency :
      (d : Dependency) (path : Text)
      → is_nil d.id ≡ false
      → replay (dependency_request d path)
        ≡ record { urn = d.id; path = path; created = d.id ∷ []; event_ids = []; replayed = true }
  replay-dependency d path h = rw h refl

  -- The first answer names a new dependency by its URN. After it is loaded, the same request with the
  -- same payload is answered with the bare identifier in place of the URN, and with another payload
  -- it is refused; nothing is written either way.
  pub mutate-replay_dependency :
      (d : Dependency) (plan before : Plan) (out : Outcome) (path again : Text)
      (apply : Text → Plan → Result MutationError Outcome)
      → valid_request_id request_id ≡ true
      → is_digest digest ≡ true
      → get request_id plan.requests ≡ none
      → create_dependency lib w request_id digest d plan ≡ ok out
      → (out.1.urn ≡ text_or_empty (dependency_urn plan.saga_id d.id))
        × (mutate request_id lib
              (some again)
              (ok (before, no_issues lib w plan request_id digest))
              none
              (ok (reloaded plan d path, no_issues lib w plan request_id digest))
              apply
            ≡ (if text_eq digest again
                then ok (
                  nothing,
                  record {
                    urn = d.id;
                    path = path;
                    created = d.id ∷ [];
                    event_ids = [];
                    replayed = true;
                  },
                )
                else err (different_payload request_id)))
  unfolding mutate
  mutate-replay_dependency d plan before out path again apply v dg new h =
      let (valid, absent, limit, checked, named) =
        create_dependency-eq-ok lib w request_id digest d plan out h in
      let stored =
        load_dependency-requests plan d path absent
        ∙ ap (λ (r : Registered). r.0)
            (register_request-get plan.requests request_id (dependency_request d path) v dg new) in
      (
        named,
        rw v (
            answer-put request_id again (apply again) (reloaded plan d path)
              (dependency_request d path) plan.requests stored
            ∙ ap
                (λ r.
                  if text_eq digest again
                  then ok (nothing, r)
                  else err (different_payload request_id))
                (replay-dependency d path (valid_id-nil d.id valid))),
      )
