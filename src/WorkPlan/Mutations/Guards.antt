-- ===== src/WorkPlan/Mutations/Guards.antt =====
-- What the mutations of the other streams have checked when they write.
use changesaga.Prelude.{◌≡◌, true, Text, codes, length, ltb, ok, >>=-eq-ok, require-eq-ok}
use changesaga.WorkPlan.Records.{
  WorkspaceEvent, MergeEvent, ContractEvent, WorkItem, Contract, Plan, elements,
}
use changesaga.WorkPlan.Readiness.{merge_heads, contract_heads}
use changesaga.WorkPlan.Checks.{Library}
use changesaga.WorkPlan.Mutations.{Outcome, World, same_set, max_events_per_stream}
use changesaga.WorkPlan.Mutations.Transitions.{
  workspace_heads, merge_transition, contract_transition,
}
use changesaga.WorkPlan.Mutations.Events.{
  record_workspace_of, record_merge_of, record_contract_state_of, single_head, permit,
}

module _ (lib : Library) (w : World) (plan : Plan) (request_id digest : Text) where
  pub record_workspace_of-eq-ok :
      (item : WorkItem) (item_id : Text) (event : WorkspaceEvent) (out : Outcome)
      → record_workspace_of lib w plan request_id digest item item_id event ≡ ok out
      → (ltb (length item.workspaces) max_events_per_stream ≡ true)
        × (same_set
              (elements event.base.parents)
              (workspace_heads item event.workspace.id event.role).0
            ≡ true)
  unfolding record_workspace_of
  record_workspace_of-eq-ok item item_id event out h =
      let (limit, h1) = require-eq-ok _ _ _ h in
      let (same, h2) = require-eq-ok _ _ _ h1 in (limit, same)

  pub record_merge_of-eq-ok :
      (item : WorkItem) (item_id : Text) (event : MergeEvent) (out : Outcome)
      → record_merge_of lib w plan request_id digest item item_id event ≡ ok out
      → (ltb (length item.merges) max_events_per_stream ≡ true)
        × (same_set (elements event.base.parents) (merge_heads item event.unit).0 ≡ true)
        × (single_head
              (permit merge_transition (codes "merge") event.state)
              (merge_heads item event.unit)
            ≡ ok tt)
  unfolding record_merge_of
  record_merge_of-eq-ok item item_id event out h =
      let (limit, h1) = require-eq-ok _ _ _ h in
      let (known, h2) = require-eq-ok _ _ _ h1 in
      let (same, h3) = require-eq-ok _ _ _ h2 in
      let (initial, h4) = require-eq-ok _ _ _ h3 in
      let (u, single, h5) = >>=-eq-ok _ _ h4 in (limit, same, single)

  pub record_contract_state_of-eq-ok :
      (contract : Contract) (id : Text) (event : ContractEvent) (out : Outcome)
      → record_contract_state_of lib w plan request_id digest contract id event ≡ ok out
      → (ltb (length contract.events) max_events_per_stream ≡ true)
        × (same_set (elements event.base.parents) (contract_heads contract).0 ≡ true)
        × (single_head
              (permit contract_transition (codes "contract") event.state)
              (contract_heads contract)
            ≡ ok tt)
  unfolding record_contract_state_of
  record_contract_state_of-eq-ok contract id event out h =
      let (limit, h1) = require-eq-ok _ _ _ h in
      let (same, h2) = require-eq-ok _ _ _ h1 in
      let (u, single, h3) = >>=-eq-ok _ _ h2 in (limit, same, single)
