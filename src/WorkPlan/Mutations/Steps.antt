-- ===== src/WorkPlan/Mutations/Steps.antt =====
-- The items that sequences of recorded events lead to: a step is one successful call of
-- `RecordProgress`, `RecordWorkspace` or `RecordMerge`, each with a clock, a plan and a request of its
-- own, or what a load fills in: the heads of the revisions and the current records.
use changesaga.Prelude.{
  ℕ, suc, ◌≤◌, ◌≡◌, refl, true, List, [], ◌∷◌, ◌++◌, Text, length, ltb, ok, arith,
}
use changesaga.WorkPlan.Records.{ProgressEvent, WorkspaceEvent, MergeEvent, WorkItem, Plan}
use changesaga.WorkPlan.Nodes.Accepted.{IsEventGraph}
use changesaga.WorkPlan.Checks.{Library}
use changesaga.WorkPlan.Items.{validate_work_item}
use changesaga.WorkPlan.Mutations.{Outcome, World, max_events_per_stream}
use changesaga.WorkPlan.Mutations.Events.{
  record_progress_of, record_workspace_of, record_merge_of, stamp_workspace, stamp_merge,
}
use changesaga.WorkPlan.Mutations.Recorded.{
  progress_nodes, with_progress, record_progress_of-eq-ok, record_progress_of-IsEventGraph,
}
use changesaga.WorkPlan.Mutations.Guards.{record_workspace_of-eq-ok, record_merge_of-eq-ok}

-- What a call takes beside the item and the event.
pub record Call : Type 0 where
  pub lib : Library
  pub world : World
  pub plan : Plan
  pub request_id : Text
  pub digest : Text
  pub item_id : Text

-- The item with the event that the call writes.
abbrev pub after_progress : Call → WorkItem → ProgressEvent → WorkItem
after_progress c item e = with_progress c.lib c.world c.plan c.request_id c.digest item c.item_id e

abbrev pub after_workspace : Call → WorkItem → WorkspaceEvent → WorkItem
after_workspace c item e = record item {
  workspaces =
      item.workspaces
      ++ (stamp_workspace c.lib c.world c.plan c.request_id c.digest c.item_id e ∷ []);
}

abbrev pub after_merge : Call → WorkItem → MergeEvent → WorkItem
after_merge c item e = record item {
  merges = item.merges ++ (stamp_merge c.lib c.world c.plan c.request_id c.digest c.item_id e ∷ []);
}

-- The item as `Load` returns it, where it found the records of this one.
abbrev pub after_load : Call → WorkItem → WorkItem
after_load c item = (validate_work_item c.lib c.plan item).resource

pub data Step : WorkItem → WorkItem → Type 0 where
  load : (c : Call) {item : WorkItem} → Step item (after_load c item)
  progress :
      (c : Call) {item : WorkItem} (e : ProgressEvent) {out : Outcome}
      → record_progress_of c.lib c.world c.plan c.request_id c.digest item c.item_id e ≡ ok out
      → Step item (after_progress c item e)
  workspace :
      (c : Call) {item : WorkItem} (e : WorkspaceEvent) {out : Outcome}
      → record_workspace_of c.lib c.world c.plan c.request_id c.digest item c.item_id e ≡ ok out
      → Step item (after_workspace c item e)
  merge :
      (c : Call) {item : WorkItem} (e : MergeEvent) {out : Outcome}
      → record_merge_of c.lib c.world c.plan c.request_id c.digest item c.item_id e ≡ ok out
      → Step item (after_merge c item e)

-- Any number of steps.
pub data Reaches : WorkItem → WorkItem → Type 0 where
  start : {item : WorkItem} → Reaches item item
  next :
      {first middle last : WorkItem} → Reaches first middle → Step middle last → Reaches first last

-- No stream is longer than its limit.
abbrev pub IsWithin : WorkItem → Type 0
IsWithin item =
    (length item.progress ≤ max_events_per_stream)
    × (length item.workspaces ≤ max_events_per_stream)
    × (length item.merges ≤ max_events_per_stream)

length-snoc : {A : Type 0} (xs : List A) (x : A) → length (xs ++ (x ∷ [])) ≡ suc (length xs)
length-snoc [] x = refl
length-snoc (y ∷ xs) x = ground (arith, length-snoc xs x)

snoc-within :
    {A : Type 0} (xs : List A) (x : A) (limit : ℕ)
    → ltb (length xs) limit ≡ true
    → length (xs ++ (x ∷ [])) ≤ limit
snoc-within xs x limit h = ground (arith, length-snoc xs x)

-- Every sequence of successful calls, with loads between them, keeps the streams of an item within
-- their limits.
pub reaches-IsWithin : (item last : WorkItem) → IsWithin item → Reaches item last → IsWithin last
unfolding validate_work_item
reaches-IsWithin item last h start = h
reaches-IsWithin item last h (next {middle = middle} r (load c)) = reaches-IsWithin item middle h r
reaches-IsWithin item last h (next {middle = middle} r (progress c e did)) =
    let before = reaches-IsWithin item middle h r in
    (
      snoc-within middle.progress _ max_events_per_stream
          (record_progress_of-eq-ok c.lib c.world c.plan c.request_id c.digest middle c.item_id e _
            did).0,
      before.1,
      before.2,
    )
reaches-IsWithin item last h (next {middle = middle} r (workspace c e did)) =
    let before = reaches-IsWithin item middle h r in
    (
      before.0,
      snoc-within middle.workspaces _ max_events_per_stream
          (record_workspace_of-eq-ok c.lib c.world c.plan c.request_id c.digest middle c.item_id e _
            did).0,
      before.2,
    )
reaches-IsWithin item last h (next {middle = middle} r (merge c e did)) =
    let before = reaches-IsWithin item middle h r in
    (
      before.0,
      before.1,
      snoc-within middle.merges _ max_events_per_stream
          (record_merge_of-eq-ok c.lib c.world c.plan c.request_id c.digest middle c.item_id e _
            did).0,
    )

-- Every sequence of successful calls, with loads between them, keeps the progress of an item one graph
-- of events: distinct identifiers, parents among the events, one initial event, and no cycle.
pub reaches-IsEventGraph :
    (lib : Library) (plan : Plan) (item last : WorkItem)
    → IsEventGraph (progress_nodes lib plan item)
    → Reaches item last
    → IsEventGraph (progress_nodes lib plan last)
unfolding validate_work_item
reaches-IsEventGraph lib plan item last h start = h
reaches-IsEventGraph lib plan item last h (next {middle = middle} r (load c)) =
    reaches-IsEventGraph lib plan item middle h r
reaches-IsEventGraph lib plan item last h (next {middle = middle} r (progress c e did)) =
    (record_progress_of-IsEventGraph c.lib c.world c.plan c.request_id c.digest middle c.item_id e _
      (reaches-IsEventGraph lib plan item middle h r) did).0
reaches-IsEventGraph lib plan item last h (next {middle = middle} r (workspace c e did)) =
    reaches-IsEventGraph lib plan item middle h r
reaches-IsEventGraph lib plan item last h (next {middle = middle} r (merge c e did)) =
    reaches-IsEventGraph lib plan item middle h r
