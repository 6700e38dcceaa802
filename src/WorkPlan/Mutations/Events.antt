-- ===== src/WorkPlan/Mutations/Events.antt =====
-- internal/workplan/mutation.go: `RecordProgress`, `RecordWorkspace`, `RecordMerge` and
-- `RecordContractState`, behind the lock and the look-up of the request. The candidate that the code
-- validates is the resource with the event at the end of its stream.
use changesaga.Prelude.{
  Bool, false, not, ◌&&◌, ◌||◌, List, [], ◌∷◌, ◌++◌, Text, codes, text_eq, length, ltb, Table, get,
  has_key, Result, ok, ◌>>=◌, ◌>>◌, require,
}
use changesaga.LivingId.Urns.{work_item_urn, contract_urn}
use changesaga.WorkPlan.Records.{
  ProgressEvent, WorkspaceEvent, MergeEvent, WorkItem, ContractEvent, Contract, Plan, elements,
}
use changesaga.WorkPlan.Nodes.{is_nil}
use changesaga.WorkPlan.Readiness.{
  event_urn_for_work_item, event_urn_for_contract, progress_heads, merge_heads, contract_heads,
  or_empty, current_merge_units,
}
use changesaga.WorkPlan.Checks.{Library, root_dir, has_errors, is_blank}
use changesaga.WorkPlan.Items.{text_or_empty, validate_work_item}
use changesaga.WorkPlan.Contracts.{validate_contract}
use changesaga.WorkPlan.Mutations.{
  Written, progress_event, workspace_event, merge_event, contract_event, MutationError,
  does_not_exist, limit_reached, head_conflict, invalid_transition, no_initial_event,
  initial_must_be, already, requires_reason, unknown_merge_unit, invalid_candidate, not_written,
  Outcome, World, max_events_per_stream, done_or, found_or, empty_strings, stamp_event, same_set,
  join_issues,
}
use changesaga.WorkPlan.Mutations.Transitions.{
  progress_transition, merge_transition, contract_transition, workspace_heads,
}

-- The check that `len(heads) == 1` guards, on the state of the head.
abbrev pub single_head :
    (Text → Result MutationError (Unit {0}))
    → List Text × Table Text
    → Result MutationError (Unit {0})
single_head check ([], states) = ok tt
single_head check (h ∷ [], states) = check (or_empty (get h states))
single_head check (h ∷ i ∷ hs, states) = ok tt

abbrev pub permit : (Text → Text → Bool) → Text → Text → Text → Result MutationError (Unit {0})
permit transition kind to from = require (transition from to) (invalid_transition kind from to)

-- The end of every `Record`: the directory, the file and the result.
unfoldable pub write_event : World → Text → Text → Text → Written → Result MutationError Outcome
write_event w dir urn event_id written =
    let path = dir ++ (codes "/" ++ (event_id ++ codes ".json")) in
    done_or not_written (w.ensure_dir dir)
    >> (done_or not_written (w.write_json path)
        >> ok (
          written,
          record {
            urn = urn;
            path = path;
            created = [];
            event_ids = event_id ∷ [];
            replayed = false;
          },
        ))

-- The directory of `writeItemEvent`.
abbrev pub item_events_dir : Text → Text → Text
item_events_dir item_id stream =
    root_dir ++ (codes "/work-items/" ++ (item_id ++ (codes ".work-item/events/" ++ stream)))

abbrev pub contract_events_dir : Text → Text
contract_events_dir id = root_dir ++ (codes "/contracts/" ++ (id ++ codes ".contract/events"))

module _ (lib : Library) (w : World) (plan : Plan) (request_id digest : Text) where
  -- `validateCandidateItem`
  unfoldable pub validate_candidate_item : WorkItem → Result MutationError (Unit {0})
  unfolding validate_work_item has_errors join_issues
  validate_candidate_item candidate =
      let issues = (validate_work_item lib plan candidate).issues in
      require (not (has_errors issues))
        (invalid_candidate (codes "work-item event") (join_issues lib issues))

  abbrev pub stamp_progress : Text → ProgressEvent → ProgressEvent
  stamp_progress item_id e = record e {
    work_item = text_or_empty (work_item_urn plan.saga_id item_id);
    base = stamp_event w request_id digest e.base;
  }

  abbrev pub stamp_workspace : Text → WorkspaceEvent → WorkspaceEvent
  stamp_workspace item_id e = record e {
    work_item = text_or_empty (work_item_urn plan.saga_id item_id);
    base = stamp_event w request_id digest e.base;
  }

  abbrev pub stamp_merge : Text → MergeEvent → MergeEvent
  stamp_merge item_id e = record e {
    work_item = text_or_empty (work_item_urn plan.saga_id item_id);
    base = stamp_event w request_id digest e.base;
  }

  abbrev pub stamp_contract : Text → ContractEvent → ContractEvent
  stamp_contract contract_id e = record e {
    contract = text_or_empty (contract_urn plan.saga_id contract_id);
    evidence = empty_strings e.evidence;
    base = stamp_event w request_id digest e.base;
  }

  unfoldable pub record_progress_of : WorkItem → Text → ProgressEvent → Result MutationError Outcome
  unfolding progress_heads same_set progress_transition text_eq stamp_event work_item_urn
      validate_candidate_item write_event
  record_progress_of item item_id event =
      let heads = progress_heads item in
      let stamped = stamp_progress item_id event in
      require (ltb (length item.progress) max_events_per_stream)
        (limit_reached (codes "progress event") max_events_per_stream)
      >> (require (same_set (elements event.base.parents) heads.0)
            (head_conflict (codes "progress") heads.0)
          >> (single_head (permit progress_transition (codes "progress") event.state) heads
              >> (require (not (is_nil heads.0)) no_initial_event
                  >> (require
                        (not (
                          (text_eq event.state (codes "blocked")
                            || text_eq event.state (codes "cancelled"))
                          && is_blank lib event.reason))
                        (requires_reason event.state)
                      >> (validate_candidate_item
                            (record item { progress = item.progress ++ (stamped ∷ []) })
                          >> write_event w (item_events_dir item_id (codes "progress"))
                              (event_urn_for_work_item stamped.work_item (codes "progress-event")
                                stamped.base.id)
                              stamped.base.id (progress_event item_id stamped))))))

  -- The body of `RecordProgress`.
  unfoldable pub record_progress : Text → ProgressEvent → Result MutationError Outcome
  unfolding get record_progress_of
  record_progress item_id event =
      found_or (does_not_exist (codes "work item")) (get item_id plan.work_items) >>= λ item.
      record_progress_of item item_id event

  unfoldable pub record_workspace_of :
      WorkItem → Text → WorkspaceEvent → Result MutationError Outcome
  unfolding workspace_heads same_set text_eq stamp_event work_item_urn validate_candidate_item
      write_event
  record_workspace_of item item_id event =
      let heads = workspace_heads item event.workspace.id event.role in
      let stamped = stamp_workspace item_id event in
      require (ltb (length item.workspaces) max_events_per_stream)
        (limit_reached (codes "workspace event") max_events_per_stream)
      >> (require (same_set (elements event.base.parents) heads.0)
            (head_conflict (codes "workspace assignment") heads.0)
          >> (require (not (is_nil heads.0 && not (text_eq event.action (codes "assigned"))))
                (initial_must_be (codes "assigned"))
              >> (single_head
                    (λ state. require (not (text_eq state event.action)) (already event.action))
                    heads
                  >> (validate_candidate_item
                        (record item { workspaces = item.workspaces ++ (stamped ∷ []) })
                      >> write_event w (item_events_dir item_id (codes "workspaces"))
                          (event_urn_for_work_item stamped.work_item (codes "workspace-event")
                            stamped.base.id)
                          stamped.base.id (workspace_event item_id stamped)))))

  -- The body of `RecordWorkspace`.
  unfoldable pub record_workspace : Text → WorkspaceEvent → Result MutationError Outcome
  unfolding get record_workspace_of
  record_workspace item_id event =
      found_or (does_not_exist (codes "work item")) (get item_id plan.work_items) >>= λ item.
      record_workspace_of item item_id event

  unfoldable pub record_merge_of : WorkItem → Text → MergeEvent → Result MutationError Outcome
  unfolding merge_heads same_set merge_transition text_eq get current_merge_units stamp_event
      work_item_urn validate_candidate_item write_event
  record_merge_of item item_id event =
      let heads = merge_heads item event.unit in
      let stamped = stamp_merge item_id event in
      require (ltb (length item.merges) max_events_per_stream)
        (limit_reached (codes "merge event") max_events_per_stream)
      >> (require (has_key event.unit (current_merge_units item)) unknown_merge_unit
          >> (require (same_set (elements event.base.parents) heads.0)
                (head_conflict (codes "merge") heads.0)
              >> (require (not (is_nil heads.0 && not (text_eq event.state (codes "planned"))))
                    (initial_must_be (codes "planned"))
                  >> (single_head (permit merge_transition (codes "merge") event.state) heads
                      >> (validate_candidate_item
                            (record item { merges = item.merges ++ (stamped ∷ []) })
                          >> write_event w (item_events_dir item_id (codes "merges"))
                              (event_urn_for_work_item stamped.work_item (codes "merge-event")
                                stamped.base.id)
                              stamped.base.id (merge_event item_id stamped))))))

  -- The body of `RecordMerge`.
  unfoldable pub record_merge : Text → MergeEvent → Result MutationError Outcome
  unfolding get record_merge_of
  record_merge item_id event =
      found_or (does_not_exist (codes "work item")) (get item_id plan.work_items) >>= λ item.
      record_merge_of item item_id event

  unfoldable pub record_contract_state_of :
      Contract → Text → ContractEvent → Result MutationError Outcome
  unfolding contract_heads same_set contract_transition stamp_event contract_urn validate_contract
      has_errors join_issues write_event
  record_contract_state_of contract contract_id event =
      let heads = contract_heads contract in
      let stamped = stamp_contract contract_id event in
      let candidate = record contract { events = contract.events ++ (stamped ∷ []) } in
      let issues = (validate_contract lib plan candidate).issues in
      require (ltb (length contract.events) max_events_per_stream)
        (limit_reached (codes "contract event") max_events_per_stream)
      >> (require (same_set (elements event.base.parents) heads.0)
            (head_conflict (codes "contract state") heads.0)
          >> (single_head (permit contract_transition (codes "contract") event.state) heads
              >> (require (not (has_errors issues))
                    (invalid_candidate (codes "contract event") (join_issues lib issues))
                  >> write_event w (contract_events_dir contract_id)
                      (event_urn_for_contract stamped.contract stamped.base.id) stamped.base.id
                      (contract_event contract_id stamped))))

  -- The body of `RecordContractState`.
  unfoldable pub record_contract_state : Text → ContractEvent → Result MutationError Outcome
  unfolding get record_contract_state_of
  record_contract_state contract_id event =
      found_or (does_not_exist (codes "contract")) (get contract_id plan.contracts) >>= λ contract.
      record_contract_state_of contract contract_id event
