-- ===== src/WorkPlan/Mutations/Recorded.antt =====
-- What a recorded event does to the heads of its stream.
use mathlib.Core.List.{Memᴰ}
use changesaga.Prelude.{
  ◌≡◌, refl, ◌↔◌, inl, inr, sym, ap, ◌∙◌, subst, Bool, true, false, not, Option, some, List, [],
  ◌∷◌, ◌++◌, append_assoc, append-nil, map, Text, codes, length, ltb, ok, >>=-eq-ok, require-eq-ok,
  require-ok, ok-injective, Table, arith, All,
}
use changesaga.WorkPlan.Records.{ProgressEvent, WorkItem, Plan, elements, null, slice, Slice}
use changesaga.WorkPlan.Graph.{EventNode}
use changesaga.WorkPlan.Nodes.{is_nil, event_ids, event_parents, event_heads}
use changesaga.WorkPlan.Nodes.Accepted.{IsEventGraph}
use changesaga.WorkPlan.Nodes.Errors.{
  no_errors-all_issues, no_errors-each_issues, no_errors-IsEventGraph,
}
use changesaga.WorkPlan.Nodes.Resolved.{ids-append, parent_lists-append, event_heads-append}
use changesaga.WorkPlan.Checks.{Library, has_errors}
use changesaga.WorkPlan.Readiness.{
  Stream, add_event, progress_heads, progress_stream, single_state, event_urn_for_work_item,
}
use changesaga.WorkPlan.Items.{
  validate_work_item, work_item_issues, progress_issues, progress_path, progress_node,
}
use changesaga.WorkPlan.Mutations.{
  Outcome, World, progress_event, same_set, Written, not_written, stamp_event, done_or,
  empty_strings, max_events_per_stream,
}
use changesaga.WorkPlan.Mutations.Transitions.{progress_transition}
use changesaga.WorkPlan.Mutations.Events.{
  validate_candidate_item, record_progress_of, stamp_progress, write_event, single_head, permit,
  item_events_dir,
}

-- The node of a stamped event has the parents that the event came with.
pub elements-empty_strings : {A : Type 0} (s : Slice A) → elements (empty_strings s) ≡ elements s
elements-empty_strings null = refl
elements-empty_strings (slice xs) = refl

pub false_of_not : (b : Bool) → not b ≡ true → b ≡ false
false_of_not b h = ground arith

some-injective : {A : Type 0} {a b : A} → ◌≡◌ {A = Option A} (some a) (some b) → a ≡ b
some-injective h = cc

module _ (lib : Library) (plan : Plan) where
  -- The stream that the validator checks.
  abbrev pub progress_nodes : WorkItem → List EventNode
  progress_nodes item = map (progress_node lib plan item) item.progress

  -- A valid item's progress is a stream of events, each of them valid.
  no_errors-progress :
      (item checked : WorkItem)
      → All (λ is. has_errors is ≡ false) (work_item_issues lib plan item checked)
      → IsEventGraph (progress_nodes item)
        × All (λ e. has_errors (progress_issues lib plan item e) ≡ false) item.progress
  unfolding work_item_issues
  no_errors-progress item checked h = (
    elim (no_errors-IsEventGraph (progress_path item) (progress_nodes item) true h.1.1.1.1.0) [
      | inl e ↦ cc (e.1)
      | inr g ↦ g
    ],
    no_errors-each_issues (progress_issues lib plan item) item.progress h.1.1.1.0,
  )

  pub validate_work_item-progress :
      (item : WorkItem)
      → has_errors (validate_work_item lib plan item).issues ≡ false
      → IsEventGraph (progress_nodes item)
        × All (λ e. has_errors (progress_issues lib plan item e) ≡ false) item.progress
  unfolding validate_work_item
  validate_work_item-progress item h =
      no_errors-progress item (validate_work_item lib plan item).resource (
        no_errors-all_issues
          (work_item_issues lib plan item (validate_work_item lib plan item).resource) h)

  pub validate_candidate_item-eq-ok :
      (w : World) (request_id digest : Text) (item : WorkItem)
      → validate_candidate_item lib w plan request_id digest item ≡ ok tt
      → IsEventGraph (progress_nodes item)
        × All (λ e. has_errors (progress_issues lib plan item e) ≡ false) item.progress
  unfolding validate_candidate_item
  validate_candidate_item-eq-ok w request_id digest item h =
      let issues = (validate_work_item lib plan item).issues in
      validate_work_item-progress item
        (false_of_not (has_errors issues) (require-ok (not (has_errors issues)) _ h))

  stream_ids :
      (item : WorkItem) (es : List ProgressEvent) (s : Stream)
      → event_ids (progress_stream es s).0
        ≡ event_ids s.0 ++ event_ids (map (progress_node lib plan item) es)
  unfolding progress_stream add_event
  stream_ids item [] s = sym (append-nil _)
  stream_ids item (e ∷ es) s =
      rw (stream_ids item es (add_event _ _ _ s), ids-append s.0, append_assoc) refl

  stream_parents :
      (item : WorkItem) (es : List ProgressEvent) (s : Stream)
      → event_parents (progress_stream es s).0
        ≡ event_parents s.0 ++ event_parents (map (progress_node lib plan item) es)
  unfolding progress_stream add_event
  stream_parents item [] s = sym (append-nil _)
  stream_parents item (e ∷ es) s =
      rw (stream_parents item es (add_event _ _ _ s), parent_lists-append s.0, append_assoc) refl

  -- The heads that a mutation computes are those of the stream that the validator checks.
  pub progress_heads-nodes :
      (item : WorkItem) → (progress_heads item).0 ≡ event_heads (progress_nodes item)
  unfolding progress_heads event_heads
  progress_heads-nodes item =
      rw (stream_ids item item.progress ([], []), stream_parents item item.progress ([], [])) refl

  nodes-append :
      (item : WorkItem) (e : ProgressEvent) (es : List ProgressEvent)
      → map (progress_node lib plan item) (es ++ (e ∷ []))
        ≡ map (progress_node lib plan item) es ++ (progress_node lib plan item e ∷ [])
  nodes-append item e [] = refl
  nodes-append item e (d ∷ es) = rw (nodes-append item e es) refl

module _ (lib : Library) (w : World) (plan : Plan) (request_id digest : Text) where
  abbrev pub with_progress : WorkItem → Text → ProgressEvent → WorkItem
  with_progress item item_id event = record item {
    progress = item.progress ++ (stamp_progress lib w plan request_id digest item_id event ∷ []);
  }

  -- The conditions under which `RecordProgress` writes.
  pub record_progress_of-eq-ok :
      (item : WorkItem) (item_id : Text) (event : ProgressEvent) (out : Outcome)
      → record_progress_of lib w plan request_id digest item item_id event ≡ ok out
      → let stamped = stamp_progress lib w plan request_id digest item_id event in
        (ltb (length item.progress) max_events_per_stream ≡ true)
        × (same_set (elements event.base.parents) (progress_heads item).0 ≡ true)
        × (single_head
              (permit progress_transition (codes "progress") event.state)
              (progress_heads item)
            ≡ ok tt)
        × (not (is_nil (progress_heads item).0) ≡ true)
        × (validate_candidate_item lib w plan request_id digest (with_progress item item_id event)
            ≡ ok tt)
        × (write_event w
              (item_events_dir item_id (codes "progress"))
              (event_urn_for_work_item stamped.work_item (codes "progress-event") stamped.base.id)
              stamped.base.id
              (progress_event item_id stamped)
            ≡ ok out)
  unfolding record_progress_of
  record_progress_of-eq-ok item item_id event out h =
      let (limit, h1) = require-eq-ok _ _ _ h in
      let (same, h2) = require-eq-ok _ _ _ h1 in
      let (u, single, h3) = >>=-eq-ok _ _ h2 in
      let (some_head, h4) = require-eq-ok _ _ _ h3 in
      let (reason, h5) = require-eq-ok _ _ _ h4 in
      let (v, valid, h6) = >>=-eq-ok _ _ h5 in (limit, same, single, some_head, valid, h6)

  pub write_event-eq-ok :
      (dir urn id : Text) (written : Written) (out : Outcome)
      → write_event w dir urn id written ≡ ok out
      → out ≡ (
        written,
        record {
          urn = urn;
          path = dir ++ (codes "/" ++ (id ++ codes ".json"));
          created = [];
          event_ids = id ∷ [];
          replayed = false;
        },
      )
  unfolding write_event
  write_event-eq-ok dir urn id written out h =
      let (u, made, h1) = >>=-eq-ok (done_or not_written (w.ensure_dir dir)) _ h in
      let (v, wrote, h2) = >>=-eq-ok (done_or not_written (w.write_json _)) _ h1 in
      sym (ok-injective h2)

  pub single_head-permit :
      (transition : Text → Text → Bool) (kind to : Text) (heads : List Text × Table Text)
      (from : Text)
      → single_head (permit transition kind to) heads ≡ ok tt
      → single_state heads ≡ some from
      → transition from to ≡ true
  unfolding single_state
  single_head-permit transition kind to ([], states) from h s = cc
  single_head-permit transition kind to (i ∷ [], states) from h s =
      require-ok _ _ (subst (λ t. permit transition kind to t ≡ ok tt) (some-injective s) h)
  single_head-permit transition kind to (i ∷ j ∷ is, states) from h s = cc

  -- The parents of the stamped event are those that the event came with.
  pub stamped_parents :
      (item : WorkItem) (item_id : Text) (event : ProgressEvent)
      → (progress_node lib plan item
          (stamp_progress lib w plan request_id digest item_id event)).parents
        ≡ elements event.base.parents
  unfolding stamp_event
  stamped_parents item item_id event = elements-empty_strings event.base.parents

  -- A progress event is recorded only in the state that the single head permits, and it becomes the
  -- single head of a valid stream.
  pub record_progress_of-IsEventGraph :
      (item : WorkItem) (item_id : Text) (event : ProgressEvent) (out : Outcome)
      → IsEventGraph (progress_nodes lib plan item)
      → record_progress_of lib w plan request_id digest item item_id event ≡ ok out
      → IsEventGraph (progress_nodes lib plan (with_progress item item_id event))
        × ((h : Text)
            → Memᴰ h (progress_heads (with_progress item item_id event)).0 ↔ (h ≡ out.1.urn))
        × ((from : Text)
            → single_state (progress_heads item) ≡ some from
            → progress_transition from event.state ≡ true)
  record_progress_of-IsEventGraph item item_id event out old h =
      let (limit, same, single, some_head, valid, wrote) =
        record_progress_of-eq-ok item item_id event out h in
      let stamped = stamp_progress lib w plan request_id digest item_id event in
      let next = with_progress item item_id event in
      let node = progress_node lib plan item stamped in
      let new = (validate_candidate_item-eq-ok lib plan w request_id digest next valid).0 in
      let split = nodes-append lib plan item stamped item.progress in
      let same_nodes =
        subst (λ ps. same_set ps (event_heads (progress_nodes lib plan item)) ≡ true)
          (sym (stamped_parents item item_id event))
          (subst (λ hs. same_set (elements event.base.parents) hs ≡ true)
            (progress_heads-nodes lib plan item) same) in
      let heads =
        event_heads-append (progress_nodes lib plan item) node old (subst IsEventGraph split new)
          same_nodes in
      (
        new,
        λ t.
            subst (λ hs. Memᴰ t hs ↔ (t ≡ out.1.urn))
              (sym (progress_heads-nodes lib plan next ∙ ap event_heads split))
              (subst
                (λ u. Memᴰ t (event_heads (progress_nodes lib plan item ++ (node ∷ []))) ↔ (t ≡ u))
                (sym (ap (λ o. o.1.urn) (write_event-eq-ok _ _ _ _ out wrote))) (heads t)),
        λ from. single_head-permit progress_transition _ event.state _ from single,
      )
