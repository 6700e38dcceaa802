-- ===== src/WorkPlan/Mutations/WorkItems.antt =====
-- internal/workplan/mutation.go: `CreateWorkItem` and `ReviseWorkItem`, behind the lock and the look-up
-- of the request.
use changesaga.Prelude.{
  ℕ, not, ◌&&◌, none, [], ◌∷◌, ◌++◌, map, Text, codes, text_eq, length, ltb, get, put, has_key,
  Result, ◌>>=◌, ◌>>◌, require,
}
use changesaga.LivingId.{work_item, valid_id}
use changesaga.LivingId.Parse
use changesaga.LivingId.Urns.{work_item_urn, definition_revision_urn}
use changesaga.WorkPlan.Records.{
  TouchArea, WorkItemRevision, WorkItem, ProgressEvent, Plan, Slice, null, slice, elements,
}
use changesaga.WorkPlan.Nodes.{is_nil}
use changesaga.WorkPlan.Checks.{Library, root_dir, schema, version, has_errors, in_saga}
use changesaga.WorkPlan.Items.{text_or_empty, revision_urn_of, validate_work_item}
use changesaga.WorkPlan.Mutations.{
  work_item_package, work_item_revision, MutationError, does_not_exist, limit_reached,
  head_conflict, invalid_id, invalid_reference, cannot_have_parents, already_exists,
  invalid_candidate, not_written, Outcome, World, max_revisions_per_resource, done_or, found_or,
  empty_strings, stamp_time, commit, first_event, new_identity, same_set, join_issues,
}

abbrev pub max_work_items : ℕ
max_work_items = 20000

abbrev pub work_item_dir : Text → Text
work_item_dir id = root_dir ++ (codes "/work-items/" ++ (id ++ codes ".work-item"))

-- `emptyTouchAreas`
abbrev pub empty_touch_areas : Slice TouchArea → Slice TouchArea
empty_touch_areas null = slice []
empty_touch_areas (slice areas) =
    slice (map (λ (a : TouchArea). record a { intents = empty_strings a.intents }) areas)

module _ (lib : Library) (w : World) (plan : Plan) (request_id digest : Text) where
  -- `normalizeWorkItemRevision` and `stampRevision`, behind the fields that the callers set.
  abbrev pub stamp_work_item_revision : WorkItemRevision → WorkItemRevision
  stamp_work_item_revision r = record r {
    schema = schema (codes "workplan-revision");
    version = version;
    parents = empty_strings r.parents;
    deliverables = empty_strings r.deliverables;
    relations = empty_strings r.relations;
    dependencies = empty_strings r.dependencies;
    contracts = empty_strings r.contracts;
    expected_touch_areas = empty_touch_areas r.expected_touch_areas;
    completion_checks = empty_strings r.completion_checks;
    merge_units = empty_strings r.merge_units;
    created_at = stamp_time w r.created_at;
    request_id = request_id;
    request_digest = digest;
  }

  abbrev pub planned : Text → ProgressEvent
  planned id = record {
    base = first_event w request_id digest;
    work_item = text_or_empty (work_item_urn plan.saga_id id);
    state = codes "planned";
    reason = [];
  }

  abbrev pub new_work_item : Text → WorkItemRevision → WorkItem
  new_work_item id r = record {
    identity = new_identity w (codes "work-item") id;
    revisions =
        stamp_work_item_revision
          (record r { work_item = text_or_empty (work_item_urn plan.saga_id id) })
        ∷ [];
    heads = [];
    progress = planned id ∷ [];
    workspaces = [];
    merges = [];
    current_revision = none;
    current_progress = none;
  }

  -- The copy of the plan with the item.
  abbrev pub with_work_item : Text → WorkItemRevision → Plan
  with_work_item id r = record plan { work_items = put id (new_work_item id r) plan.work_items }

  -- The body of `CreateWorkItem`.
  unfoldable pub create_work_item : Text → WorkItemRevision → Result MutationError Outcome
  unfolding valid_id get put work_item_urn validate_work_item has_errors join_issues commit
  create_work_item id r =
      let urn = text_or_empty (work_item_urn plan.saga_id id) in
      let stamped = stamp_work_item_revision (record r { work_item = urn }) in
      let issues = (validate_work_item lib (with_work_item id r) (new_work_item id r)).issues in
      require (valid_id id && valid_id r.id) invalid_id
      >> (require (not (has_key id plan.work_items)) (already_exists id)
          >> (require (ltb (length plan.work_items) max_work_items)
                (limit_reached (codes "work-item") max_work_items)
              >> (require (is_nil (elements r.parents)) (cannot_have_parents (codes "work-item"))
                  >> (require (not (has_errors issues))
                        (invalid_candidate (codes "work item") (join_issues lib issues))
                      >> (done_or not_written (w.ensure_dir (root_dir ++ codes "/work-items"))
                          >> commit w (work_item_dir id) urn (urn ∷ []) (w.event_id w.now ∷ []) (
                              work_item_package (new_identity w (codes "work-item") id) stamped
                                (planned id)))))))

  unfoldable pub revise_work_item_of :
      Text → WorkItem → WorkItemRevision → Result MutationError Outcome
  unfolding same_set valid_id validate_work_item has_errors join_issues definition_revision_urn
      commit
  revise_work_item_of id old r =
      let stamped = stamp_work_item_revision r in
      let issues =
        (validate_work_item lib plan
          (record old { revisions = old.revisions ++ (stamped ∷ []) })).issues in
      let urn = revision_urn_of plan.saga_id work_item id r.id in
      require (same_set (elements r.parents) old.heads)
        (head_conflict (codes "work-item revision") old.heads)
      >> (require (valid_id r.id) invalid_id
          >> (require (ltb (length old.revisions) max_revisions_per_resource)
                (limit_reached (codes "revision") max_revisions_per_resource)
              >> (require (not (has_errors issues))
                    (invalid_candidate (codes "work-item revision") (join_issues lib issues))
                  >> commit w
                      (work_item_dir id ++ (codes "/revisions/" ++ (r.id ++ codes ".revision"))) urn
                      (urn ∷ []) [] (work_item_revision id stamped))))

  -- The body of `ReviseWorkItem`.
  unfoldable pub revise_work_item : WorkItemRevision → Result MutationError Outcome
  unfolding Parse.parse text_eq get revise_work_item_of
  revise_work_item r =
      found_or (invalid_reference (codes "work_item"))
        (in_saga plan.saga_id work_item (Parse.parse r.work_item))
      >>= λ ref.
          found_or (does_not_exist (codes "work item")) (get ref.id plan.work_items) >>= λ old.
          revise_work_item_of ref.id old r
