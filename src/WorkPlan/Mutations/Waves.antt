-- ===== src/WorkPlan/Mutations/Waves.antt =====
-- internal/workplan/mutation.go: `CreateWave` and `ReviseWave`, behind the lock and the look-up of the
-- request.
use changesaga.Prelude.{
  ℕ, not, ◌&&◌, none, [], ◌∷◌, ◌++◌, Text, codes, text_eq, length, ltb, get, has_key, Result, ◌>>=◌,
  ◌>>◌, require,
}
use changesaga.LivingId.{wave, valid_id}
use changesaga.LivingId.Parse
use changesaga.LivingId.Urns.{wave_urn, definition_revision_urn}
use changesaga.WorkPlan.Records.{WaveRevision, Wave, Plan, elements}
use changesaga.WorkPlan.Nodes.{is_nil}
use changesaga.WorkPlan.Checks.{Library, root_dir, schema, version, has_errors, in_saga}
use changesaga.WorkPlan.Items.{text_or_empty, revision_urn_of}
use changesaga.WorkPlan.Contracts.{validate_wave}
use changesaga.WorkPlan.Mutations.{
  wave_package, wave_revision, MutationError, does_not_exist, limit_reached, head_conflict,
  invalid_id, invalid_reference, cannot_have_parents, already_exists, invalid_candidate,
  not_written, Outcome, World, max_revisions_per_resource, done_or, found_or, empty_strings,
  stamp_time, commit, new_identity, same_set, join_issues,
}

abbrev pub max_waves : ℕ
max_waves = 10000

abbrev pub wave_dir : Text → Text
wave_dir id = root_dir ++ (codes "/waves/" ++ (id ++ codes ".wave"))

module _ (lib : Library) (w : World) (plan : Plan) (request_id digest : Text) where
  abbrev pub stamp_wave_revision : WaveRevision → WaveRevision
  stamp_wave_revision r = record r {
    schema = schema (codes "workplan-revision");
    version = version;
    parents = empty_strings r.parents;
    entry_conditions = empty_strings r.entry_conditions;
    exit_conditions = empty_strings r.exit_conditions;
    created_at = stamp_time w r.created_at;
    request_id = request_id;
    request_digest = digest;
  }

  abbrev pub new_wave : Text → WaveRevision → Wave
  new_wave id r = record {
    identity = new_identity w (codes "wave") id;
    revisions =
        stamp_wave_revision (record r { wave = text_or_empty (wave_urn plan.saga_id id) }) ∷ [];
    heads = [];
    current_revision = none;
  }

  -- The body of `CreateWave`.
  unfoldable pub create_wave : Text → WaveRevision → Result MutationError Outcome
  unfolding valid_id get wave_urn validate_wave has_errors join_issues commit
  create_wave id r =
      let urn = text_or_empty (wave_urn plan.saga_id id) in
      let stamped = stamp_wave_revision (record r { wave = urn }) in
      let issues = (validate_wave lib plan (new_wave id r)).issues in
      require (valid_id id && valid_id r.id) invalid_id
      >> (require (not (has_key id plan.waves)) (already_exists id)
          >> (require (ltb (length plan.waves) max_waves) (limit_reached (codes "wave") max_waves)
              >> (require (is_nil (elements r.parents)) (cannot_have_parents (codes "wave"))
                  >> (require (not (has_errors issues))
                        (invalid_candidate (codes "wave") (join_issues lib issues))
                      >> (done_or not_written (w.ensure_dir (root_dir ++ codes "/waves"))
                          >> commit w (wave_dir id) urn (urn ∷ []) []
                              (wave_package (new_identity w (codes "wave") id) stamped))))))

  unfoldable pub revise_wave_of : Text → Wave → WaveRevision → Result MutationError Outcome
  unfolding same_set valid_id validate_wave has_errors join_issues definition_revision_urn commit
  revise_wave_of id old r =
      let stamped = stamp_wave_revision r in
      let issues =
        (validate_wave lib plan
          (record old { revisions = old.revisions ++ (stamped ∷ []) })).issues in
      let urn = revision_urn_of plan.saga_id wave id r.id in
      require (same_set (elements r.parents) old.heads)
        (head_conflict (codes "wave revision") old.heads)
      >> (require (valid_id r.id) invalid_id
          >> (require (ltb (length old.revisions) max_revisions_per_resource)
                (limit_reached (codes "revision") max_revisions_per_resource)
              >> (require (not (has_errors issues))
                    (invalid_candidate (codes "wave revision") (join_issues lib issues))
                  >> commit w (wave_dir id ++ (codes "/revisions/" ++ (r.id ++ codes ".revision")))
                      urn (urn ∷ []) [] (wave_revision id stamped))))

  -- The body of `ReviseWave`.
  unfoldable pub revise_wave : WaveRevision → Result MutationError Outcome
  unfolding Parse.parse text_eq get revise_wave_of
  revise_wave r =
      found_or (invalid_reference (codes "wave")) (in_saga plan.saga_id wave (Parse.parse r.wave))
      >>= λ ref. found_or (does_not_exist (codes "wave")) (get ref.id plan.waves) >>= λ old.
          revise_wave_of ref.id old r
