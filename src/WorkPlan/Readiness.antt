-- ===== src/WorkPlan/Readiness.antt =====
-- internal/workplan/readiness.go: when a dependency is satisfied, with the heads of the event graphs
-- of internal/workplan/mutation.go.
pub mod Identifiers
pub mod Satisfied
use changesaga.Prelude.{
  ℕ, zero, suc, ◌+◌, ◌-◌, Bool, true, false, Option, none, some, List, [], ◌∷◌, ◌++◌, map, Text,
  codes, text_eq, has_suffix, drop, take, last_index, length, Table, get, put, ltb, leb, ◌==◌,
  if◌then◌else◌,
}
use changesaga.WorkPlan.Records.{
  MergeUnit, ProgressEvent, MergeEvent, WorkItem, WorkItemRevision, DependencyCondition, Dependency,
  ContractEvent, Contract, Plan, elements,
}
use changesaga.WorkPlan.Graph.{EventNode}
use changesaga.WorkPlan.Nodes.{event_heads}

-- `eventURNForWorkItem`
abbrev pub event_urn_for_work_item : Text → Text → Text → Text
event_urn_for_work_item work_item kind id = work_item ++ codes ":" ++ kind ++ codes ":" ++ id

-- `eventURNForContract`
abbrev pub event_urn_for_contract : Text → Text → Text
event_urn_for_contract contract id = contract ++ codes ":event:" ++ id

-- A node of each event, and the state by identifier, where a later event replaces an earlier one.
abbrev pub Stream : Type 0
Stream = List EventNode × Table Text

unfoldable pub add_event : Text → List Text → Text → Stream → Stream
unfolding put
add_event id parents state (nodes, states) =
    (nodes ++ (record { id = id; parents = parents; state = [] } ∷ []), put id state states)

unfoldable pub progress_stream : List ProgressEvent → Stream → Stream
unfolding add_event
progress_stream [] s = s
progress_stream (e ∷ es) s = progress_stream es (
    add_event (event_urn_for_work_item e.work_item (codes "progress-event") e.base.id)
      (elements e.base.parents) e.state s)

unfoldable pub merge_stream : Text → List MergeEvent → Stream → Stream
unfolding add_event
merge_stream unit [] s = s
merge_stream unit (e ∷ es) s = merge_stream unit es (
    if text_eq e.unit unit
    then add_event (event_urn_for_work_item e.work_item (codes "merge-event") e.base.id)
        (elements e.base.parents) e.state s
    else s)

unfoldable pub contract_stream : List ContractEvent → Stream → Stream
unfolding add_event
contract_stream [] s = s
contract_stream (e ∷ es) s =
    contract_stream es
      (add_event (event_urn_for_contract e.contract e.base.id) (elements e.base.parents) e.state s)

-- `eventHeads(nodes)` with the states.
abbrev pub heads : Stream → List Text × Table Text
heads s = (event_heads s.0, s.1)

unfoldable pub progress_heads : WorkItem → List Text × Table Text
unfolding progress_stream event_heads
progress_heads item = heads (progress_stream item.progress ([], []))

unfoldable pub merge_heads : WorkItem → Text → List Text × Table Text
unfolding merge_stream event_heads
merge_heads item unit = heads (merge_stream unit item.merges ([], []))

unfoldable pub contract_heads : Contract → List Text × Table Text
unfolding contract_stream event_heads
contract_heads contract = heads (contract_stream contract.events ([], []))

abbrev pub or_empty : Option Text → Text
or_empty none = []
or_empty (some t) = t

-- The state of the single head; `none` if there is not exactly one.
unfoldable pub single_state : List Text × Table Text → Option Text
unfolding get
single_state ([], states) = none
single_state (h ∷ [], states) = some (or_empty (get h states))
single_state (h ∷ i ∷ hs, states) = none

unfoldable pub put_units : List MergeUnit → Table MergeUnit → Table MergeUnit
unfolding put
put_units [] t = t
put_units (u ∷ us) t = put_units us (put u.id u t)

-- The first revision whose identifier ends the head, and its units.
unfoldable pub units_of_head : Text → List WorkItemRevision → Table MergeUnit
unfolding put_units has_suffix
units_of_head head [] = []
units_of_head head (r ∷ rs) =
    if has_suffix head (codes ":revision:" ++ r.id)
    then put_units (elements r.merge_units) []
    else units_of_head head rs

unfoldable pub current_merge_units : WorkItem → Table MergeUnit
unfolding units_of_head
current_merge_units item = of_heads item.heads
  where
    of_heads : List Text → Table MergeUnit
    of_heads [] = []
    of_heads (h ∷ []) = units_of_head h item.revisions
    of_heads (h ∷ i ∷ hs) = []

-- `workItemID`
unfoldable pub work_item_id : Text → Text
unfolding last_index drop
work_item_id urn = after (last_index urn (codes ":work-item:"))
  where
    after : Option ℕ → Text
    after none = []
    after (some i) = drop (i + 11) urn

-- `urn[contract+10:revision]` and the text behind the revision's marker. A slice whose end stands
-- before its start panics: `none`.
unfoldable pub between : Text → ℕ → ℕ → Option (Text × Text)
unfolding drop take
between urn contract revision =
    if leb revision contract
    then some ([], [])
    else if ltb revision (contract + 10)
    then none
    else some
        (take (revision - (contract + 10)) (drop (contract + 10) urn), drop (revision + 10) urn)

-- `contractRevisionIDs`, by the two positions. A missing revision is not behind the contract.
unfoldable pub contract_revision_ids : Text → Option (Text × Text)
unfolding last_index between
contract_revision_ids urn =
    positions (last_index urn (codes ":contract:")) (last_index urn (codes ":revision:"))
  where
    positions : Option ℕ → Option ℕ → Option (Text × Text)
    positions none r = some ([], [])
    positions (some c) none = some ([], [])
    positions (some c) (some r) = between urn c r

-- What `DependencySatisfied` returns; `none` if it panics.
abbrev pub Verdict : Type 0
Verdict = Option (Bool × Text)

abbrev pub refuse : Text → Verdict
refuse reason = some (false, reason)

abbrev pub accept : Verdict
accept = some (true, [])

-- A single head in the right state.
abbrev pub expect_state : Text → Text → Text → Option Text → Verdict → Verdict
expect_state state conflicted other none next = refuse conflicted
expect_state state conflicted other (some s) next = if text_eq s state then next else refuse other

abbrev pub merge_states : Option Text → Verdict → Verdict
merge_states =
    expect_state (codes "integrated") (codes "merge_conflicted") (codes "merge_not_integrated")

-- The loop over the units, in the order of the map.
unfoldable pub merges_satisfied : WorkItem → Table MergeUnit → ℕ → Verdict
unfolding merge_heads single_state
merges_satisfied item [] required =
    if required == 0 then refuse (codes "required_merge_not_planned") else accept
merges_satisfied item ((id, u) ∷ us) required =
    let skipped = merges_satisfied item us required in
    let counted = merges_satisfied item us (suc required) in
    if u.required then merge_states (single_state (merge_heads item id)) counted else skipped

unfoldable pub progress_satisfied : WorkItem → Verdict
unfolding progress_heads single_state
progress_satisfied item =
    expect_state (codes "done") (codes "progress_conflicted") (codes "progress_not_done")
      (single_state (progress_heads item)) accept

-- The contract's one head is the revision.
abbrev pub is_current : List Text → Text → Bool
is_current [] revision = false
is_current (h ∷ []) revision = has_suffix h (codes ":revision:" ++ revision)
is_current (h ∷ i ∷ hs) revision = false

unfoldable pub contract_satisfied : Option Contract → Text → Verdict
unfolding contract_heads single_state
contract_satisfied none revision = refuse (codes "contract_not_found")
contract_satisfied (some c) revision =
    if is_current c.heads revision
    then expect_state (codes "fulfilled") (codes "contract_conflicted")
        (codes "contract_not_fulfilled") (single_state (contract_heads c)) accept
    else refuse (codes "contract_revision_stale")

abbrev pub contract_of : Plan → Option (Text × Text) → Verdict
contract_of plan none = none
contract_of plan (some (contract, revision)) =
    contract_satisfied (get contract plan.contracts) revision

unfoldable pub condition_satisfied : Plan → WorkItem → DependencyCondition → Verdict
unfolding progress_satisfied merges_satisfied current_merge_units contract_satisfied
    contract_revision_ids get
condition_satisfied plan item condition =
    if text_eq condition.kind (codes "progress_done")
    then progress_satisfied item
    else if text_eq condition.kind (codes "merge_integrated")
    then merges_satisfied item (current_merge_units item) 0
    else if text_eq condition.kind (codes "contract_fulfilled")
    then contract_of plan (contract_revision_ids condition.contract_revision)
    else refuse (codes "invalid_condition")

abbrev pub prerequisite_satisfied : Plan → Dependency → Option WorkItem → Verdict
prerequisite_satisfied plan d none = refuse (codes "prerequisite_not_found")
prerequisite_satisfied plan d (some item) = condition_satisfied plan item d.condition

abbrev pub found_dependency : Plan → Option Dependency → Verdict
found_dependency plan none = refuse (codes "dependency_not_found")
found_dependency plan (some d) =
    prerequisite_satisfied plan d (get (work_item_id d.prerequisite) plan.work_items)

unfoldable pub dependency_satisfied : Plan → Text → Verdict
unfolding get condition_satisfied work_item_id
dependency_satisfied plan id = found_dependency plan (get id plan.dependencies)
