-- ===== src/WorkPlan/Mutations/Created.antt =====
-- What every work item that `CreateWorkItem` wrote keeps, whatever is recorded of it.
use changesaga.Prelude.{
  ◌≡◌, refl, true, some, List, [], ◌∷◌, has, add_all, insert_text, sort_texts, Text, codes,
  text_eq_refl, ◌&&◌, not, has_key, ltb, length, ok, require-eq-ok, arith,
}
use changesaga.WorkPlan.Records.{WorkItemRevision, WorkItem, Plan, elements}
use changesaga.LivingId.{valid_id, work_item}
use changesaga.WorkPlan.Nodes.{is_nil, heads_of, validate_revision_graph}
use changesaga.WorkPlan.Nodes.Accepted.{IsEventGraph}
use changesaga.WorkPlan.Checks.{Library, has_errors}
use changesaga.WorkPlan.Items.{validate_work_item, revision_urn_of}
use changesaga.WorkPlan.Readiness.{progress_heads, single_state}
use changesaga.WorkPlan.Mutations.{Outcome, World}
use changesaga.WorkPlan.Mutations.WorkItems.{
  max_work_items, create_work_item, new_work_item, with_work_item,
}
use changesaga.WorkPlan.Mutations.Recorded.{
  elements-empty_strings, progress_nodes, validate_work_item-progress, false_of_not,
}
use changesaga.WorkPlan.Mutations.Steps.{Reaches, IsWithin, reaches-IsEventGraph, reaches-IsWithin}

nil_of : (ts : List Text) → is_nil ts ≡ true → ts ≡ []
nil_of [] h = refl
nil_of (t ∷ ts) h = cc

module _ (lib : Library) (w : World) (plan : Plan) (request_id digest : Text) where
  abbrev pub created : Text → WorkItemRevision → WorkItem
  created id r = new_work_item lib w plan request_id digest id r

  create_work_item-eq-ok :
      (id : Text) (r : WorkItemRevision) (out : Outcome)
      → create_work_item lib w plan request_id digest id r ≡ ok out
      → let probe = with_work_item lib w plan request_id digest id r in
        ((valid_id id && valid_id r.id) ≡ true)
        × (not (has_key id plan.work_items) ≡ true)
        × (ltb (length plan.work_items) max_work_items ≡ true)
        × (is_nil (elements r.parents) ≡ true)
        × (not (has_errors (validate_work_item lib probe (created id r)).issues) ≡ true)
  unfolding create_work_item
  create_work_item-eq-ok id r out h =
      let (ids, h1) = require-eq-ok _ _ _ h in
      let (new, h2) = require-eq-ok _ _ _ h1 in
      let (limit, h3) = require-eq-ok _ _ _ h2 in
      let (initial, h4) = require-eq-ok _ _ _ h3 in
      let (valid, h5) = require-eq-ok _ _ _ h4 in (ids, new, limit, initial, valid)

  -- The item as a load with any plan returns it.
  abbrev pub loaded : Plan → Text → WorkItemRevision → WorkItem
  loaded later id r = (validate_work_item lib later (created id r)).resource

  -- Without parents, the revision is the single head.
  loaded-heads :
      (later : Plan) (id : Text) (r : WorkItemRevision)
      → is_nil (elements r.parents) ≡ true
      → (loaded later id r).heads ≡ revision_urn_of later.saga_id work_item id r.id ∷ []
  unfolding validate_work_item validate_revision_graph heads_of has add_all sort_texts insert_text
  loaded-heads later id r h =
      rw (elements-empty_strings r.parents, nil_of (elements r.parents) h) refl

  starts_planned :
      (later : Plan) (id : Text) (r : WorkItemRevision)
      → single_state (progress_heads (loaded later id r)) ≡ some (codes "planned")
  unfolding progress_heads single_state validate_work_item
  starts_planned later id r = rw (text_eq_refl _) refl

  -- An item that CreateWorkItem wrote, as any later load returns it, has its revision as the single
  -- head and one head of progress, planned. Whatever sequence of successful RecordProgress,
  -- RecordWorkspace and RecordMerge calls follows, with loads between them, its progress is one graph
  -- of events, and its streams are within their limits.
  pub create_work_item-Reaches :
      (id : Text) (r : WorkItemRevision) (out : Outcome) (later : Plan) (last : WorkItem)
      → create_work_item lib w plan request_id digest id r ≡ ok out
      → Reaches (loaded later id r) last
      → ((loaded later id r).heads ≡ revision_urn_of later.saga_id work_item id r.id ∷ [])
        × (single_state (progress_heads (loaded later id r)) ≡ some (codes "planned"))
        × IsEventGraph (progress_nodes lib plan last)
        × IsWithin last
  unfolding validate_work_item
  create_work_item-Reaches id r out later last h reach =
      let probe = with_work_item lib w plan request_id digest id r in
      let (ids, new, limit, initial, valid) = create_work_item-eq-ok id r out h in
      let first = (validate_work_item-progress lib probe (created id r) (false_of_not _ valid)).0 in
      (
        loaded-heads later id r initial,
        starts_planned later id r,
        reaches-IsEventGraph lib plan (loaded later id r) last first reach,
        reaches-IsWithin (loaded later id r) last (omega arith, omega arith, omega arith) reach,
      )
