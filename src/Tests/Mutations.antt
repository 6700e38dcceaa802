-- ===== src/Tests/Mutations.antt =====
-- The mutations of internal/workplan at fixed inputs.
pub mod Inputs
use mathlib.Core.List.{Memᴰ}
use changesaga.Prelude.{
  ◌≡◌, refl, ◌↔◌, true, false, none, some, List, [], ◌∷◌, ◌++◌, Text, codes, text_eq, has, has_key,
  get, ok, err, if◌then◌else◌, has_prefix, arith, inl, inr, split,
}
use changesaga.LivingId.{valid_id}
use changesaga.LivingId.Parse.{parse_parts}
use changesaga.LivingId.Urns.{dependency_urn, definition_revision_urn}
use changesaga.WorkPlan.Records.{
  Time, EventBase, WorkItem, WorkItemRevision, ProgressEvent, MergeEvent, Dependency, Contract,
  ContractEvent, Plan, Validation, slice,
}
use changesaga.WorkPlan.Checks.{Library, schema, valid_request_id, is_digest}
use changesaga.WorkPlan.Nodes.{validate_event_graph}
use changesaga.WorkPlan.Nodes.Issues.{IsDistinct}
use changesaga.WorkPlan.Nodes.Accepted.{IsEventGraph, validate_event_graph-IsEventGraph}
use changesaga.WorkPlan.Readiness.{
  single_state, progress_heads, merge_heads, contract_heads, current_merge_units,
}
use changesaga.WorkPlan.Items.{text_or_empty, validate_work_item}
use changesaga.WorkPlan.Dependencies.{sorted_dependencies}
use changesaga.WorkPlan.Dependencies.Accepted.{IsAcyclic, edge_keys}
use changesaga.WorkPlan.Mutations.{
  World, Outcome, progress_event, dependency_record, nothing, different_payload,
}
use changesaga.WorkPlan.Mutations.Transitions.{progress_transition}
use changesaga.WorkPlan.Mutations.Events.{
  record_progress_of, record_merge_of, record_contract_state_of, stamp_progress,
}
use changesaga.WorkPlan.Mutations.Requests.{mutate}
use changesaga.WorkPlan.Mutations.Create.{create_dependency, probe, stamp_dependency}
use changesaga.WorkPlan.Mutations.Recorded.{
  progress_nodes, with_progress, record_progress_of-IsEventGraph,
}
use changesaga.WorkPlan.Mutations.Replay
use changesaga.WorkPlan.Mutations.CreateReplay
use changesaga.WorkPlan.Mutations.Acyclic.{create_dependency-IsAcyclic}
use changesaga.WorkPlan.Mutations.Steps.{
  Call, Step, Reaches, IsWithin, after_merge, after_progress, reaches-IsWithin,
  reaches-IsEventGraph,
}
use changesaga.WorkPlan.Mutations.Progress.{
  Attempt, IsOpen, IsRefused, progress_transition-IsOpen, recorded_after_end-IsRefused,
}
use changesaga.WorkPlan.Mutations.WorkItems.{create_work_item}
use changesaga.WorkPlan.Mutations.Created.{create_work_item-Reaches}
use Inputs.{
  empty_plan, new_item, new_outcome, to_merge, merge_outcome, merging, item_urn, no_issues, lib,
  world, item, plan, digest, request, joined, outcome, abandoned, waived, ended, ended_contract,
  order, ordered, order_path,
}

joined_run : record_progress_of lib world plan request digest item (codes "w1") joined ≡ ok outcome
unfolding record_progress_of has_prefix parse_parts split
joined_run = refl

item-IsEventGraph : IsEventGraph (progress_nodes lib plan item)
unfolding validate_event_graph text_eq
item-IsEventGraph =
    elim ((validate_event_graph-IsEventGraph no_issues (codes "p") (progress_nodes lib plan item)
        true).0
      refl) [ inl e ↦ cc (e.1) | inr g ↦ g ]

record_progress_of-IsEventGraph_example :
    IsEventGraph (
      progress_nodes lib plan
        (with_progress lib world plan request digest item (codes "w1") joined))
    × ((h : Text)
        → Memᴰ h
            (progress_heads
              (with_progress lib world plan request digest item (codes "w1") joined)).0
          ↔ (h ≡ outcome.1.urn))
    × ((from : Text)
        → single_state (progress_heads item) ≡ some from
        → progress_transition from joined.state ≡ true)
record_progress_of-IsEventGraph_example =
    record_progress_of-IsEventGraph lib world plan request digest item (codes "w1") joined outcome
      item-IsEventGraph joined_run

-- The plan as a load finds it, with the request.
abbrev remembering : Plan
remembering = record plan {
  requests =
      Replay.requests_after lib world plan request digest item (codes "w1") joined outcome.1.path;
}

mutate-replay_example :
    mutate request lib
      (some (codes "x"))
      (ok (plan, no_issues))
      none
      (ok (remembering, no_issues))
      (λ d p. record_progress_of lib world p request d item (codes "w1") joined)
    ≡ (if text_eq digest (codes "x")
        then ok (nothing, record outcome.1 { replayed = true })
        else err (different_payload request))
unfolding valid_request_id is_digest get
mutate-replay_example =
    Replay.mutate-replay lib world plan request digest item (codes "w1") joined outcome plan
      remembering no_issues no_issues (codes "x")
      (λ d p. record_progress_of lib world p request d item (codes "w1") joined) refl refl refl
      joined_run refl

abbrev call : Call
call = record {
  lib = lib;
  world = world;
  plan = plan;
  request_id = request;
  digest = digest;
  item_id = codes "w1";
}

abbrev two_steps : Reaches item (after_progress call item joined)
two_steps = Reaches.next Reaches.start (Step.progress call {item = item} joined joined_run)

reaches-IsWithin_example : IsWithin (after_progress call item joined)
reaches-IsWithin_example =
    reaches-IsWithin item (after_progress call item joined) (omega arith, omega arith, omega arith)
      two_steps

reaches-IsEventGraph_example :
    IsEventGraph (progress_nodes lib plan (after_progress call item joined))
reaches-IsEventGraph_example =
    reaches-IsEventGraph lib plan item (after_progress call item joined) item-IsEventGraph two_steps

progress_transition-IsOpen_example : IsOpen (codes "done")
unfolding has text_eq
progress_transition-IsOpen_example = progress_transition-IsOpen (codes "done") refl refl

recorded_after_end-IsRefused_example :
    IsRefused
      (record_contract_state_of lib world plan request digest ended_contract (codes "w1") waived)
unfolding single_state contract_heads text_eq
recorded_after_end-IsRefused_example =
    recorded_after_end-IsRefused lib world plan request digest (codes "w1")
      (Attempt.contract_state_of ended_contract waived) refl

order_run : create_dependency lib world request digest order plan ≡ ok ordered
unfolding create_dependency has_prefix parse_parts split
order_run = refl

create_dependency-IsAcyclic_example :
    let ds = sorted_dependencies (probe lib world request digest plan order) in
    (has_key order.id plan.dependencies ≡ false) × IsDistinct (edge_keys ds) × IsAcyclic ds
create_dependency-IsAcyclic_example =
    create_dependency-IsAcyclic lib world request digest order plan ordered order_run

mutate-replay_dependency_example :
    (ordered.1.urn ≡ text_or_empty (dependency_urn plan.saga_id order.id))
    × (mutate request lib
          (some digest)
          (ok (plan, no_issues))
          none
          (ok (CreateReplay.reloaded lib world request digest plan order order_path, no_issues))
          (λ d p. create_dependency lib world request d order p)
        ≡ (if text_eq digest digest
            then ok (
              nothing,
              record {
                urn = codes "d1";
                path = order_path;
                created = codes "d1" ∷ [];
                event_ids = [];
                replayed = true;
              },
            )
            else err (different_payload request)))
unfolding valid_request_id is_digest get
mutate-replay_dependency_example =
    CreateReplay.mutate-replay_dependency lib world request digest order plan plan ordered
      order_path digest (λ d p. create_dependency lib world request d order p) refl refl refl
      order_run

new_run : create_work_item lib world empty_plan request digest (codes "w1") merging ≡ ok new_outcome
unfolding create_work_item has_prefix parse_parts split
new_run = refl

merge_run :
    record_merge_of lib world plan request digest new_item (codes "w1") to_merge ≡ ok merge_outcome
unfolding record_merge_of validate_work_item current_merge_units text_eq get has_prefix parse_parts
    split
merge_run = refl

create_work_item-Reaches_example :
    (new_item.heads ≡ (item_urn ++ codes ":revision:r1") ∷ [])
    × (single_state (progress_heads new_item) ≡ some (codes "planned"))
    × IsEventGraph (progress_nodes lib plan (after_merge call new_item to_merge))
    × IsWithin (after_merge call new_item to_merge)
unfolding definition_revision_urn valid_id
create_work_item-Reaches_example =
    create_work_item-Reaches lib world empty_plan request digest (codes "w1") merging new_outcome
      plan (after_merge call new_item to_merge) new_run
      (Reaches.next Reaches.start (Step.merge call {item = new_item} to_merge merge_run))
