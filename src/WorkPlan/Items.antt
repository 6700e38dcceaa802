-- ===== src/WorkPlan/Items.antt =====
-- internal/workplan/validate.go: `validateWorkItem` with its streams of events. A map of streams is
-- run through in the order in which its keys first came; Go leaves the order open.
mod Shared
mod Events
use changesaga.Prelude.{
  ℕ, zero, suc, ◌+◌, Result, ok, err, Bool, true, false, not, ◌&&◌, ◌||◌, Option, none, some, List,
  [], ◌∷◌, ◌++◌, map, Text, codes, text_eq, has, has_suffix, sort_texts, count_if, Table, has_key,
  get, put, value_or, ltb, leb, ◌==◌, if◌then◌else◌,
}
use changesaga.LivingId.{Kind, work_item}
use changesaga.LivingId.Urns.{work_item_urn, definition_revision_urn}
use changesaga.WorkPlan.Records.{
  EventBase, MergeUnit, WorkItemRevision, ProgressEvent, WorkspaceEvent, MergeEvent, WorkItem,
  Issue, Conflict, Plan, elements,
}
use changesaga.WorkPlan.Graph.{RevisionNode, EventNode}
use changesaga.WorkPlan.Nodes.{error_if, validate_revision_graph, validate_event_graph}
use changesaga.WorkPlan.Readiness.{event_urn_for_work_item, current_merge_units}
use changesaga.WorkPlan.Checks.{
  Library, root_dir, schema, all_issues, each_issues, one_of, identity_issues, event_base_issues,
  reference_is, is_blank, is_hex, is_full_oid,
}
use changesaga.WorkPlan.Revisions.{work_item_revision_issues}
unfoldable pub use Shared.*
unfoldable pub use Events.*

module _ (lib : Library) (plan : Plan) (item : WorkItem) where
  abbrev pub add_node : Text → EventNode → Table (List EventNode) → Table (List EventNode)
  add_node key node streams = put key (value_or [] (get key streams) ++ (node ∷ [])) streams

  -- `event.Workspace.ID + "\x00" + event.Role`
  abbrev pub workspace_key : WorkspaceEvent → Text
  workspace_key e = e.workspace.id ++ (0 ∷ e.role)

  unfoldable pub workspace_streams :
      List WorkspaceEvent → Table (List EventNode) → Table (List EventNode)
  unfolding get put
  workspace_streams [] streams = streams
  workspace_streams (e ∷ es) streams =
      workspace_streams es (add_node (workspace_key e) (workspace_node lib plan item e) streams)

  unfoldable pub merge_streams : List MergeEvent → Table (List EventNode) → Table (List EventNode)
  unfolding get put
  merge_streams [] streams = streams
  merge_streams (e ∷ es) streams =
      merge_streams es (add_node e.unit (merge_node lib plan item e) streams)

  -- The assigned owners at the single head of a stream.
  abbrev pub active_owners : Text → List EventNode → List Text → ℕ
  active_owners key events (h ∷ []) =
      count_if
        (λ (e : EventNode).
          text_eq e.id h
          && text_eq e.state (codes "assigned")
          && has_suffix key (0 ∷ codes "owner"))
        events
  active_owners key events _ = 0

  -- `activeWorkspaceOwnerHeads`
  abbrev pub workspace_parents : List WorkspaceEvent → List Text
  workspace_parents [] = []
  workspace_parents (e ∷ es) = elements e.base.parents ++ workspace_parents es

  unfoldable pub owner_heads : List Text → List WorkspaceEvent → List Text
  unfolding text_eq has
  owner_heads parents [] = []
  owner_heads parents (e ∷ es) =
      let rest = owner_heads parents es in
      let id = (workspace_node lib plan item e).id in
      if text_eq e.role (codes "owner")
        && text_eq e.action (codes "assigned")
        && not (has id parents)
      then id ∷ rest
      else rest

  -- The loop over the workspace streams: issues, conflicts, and active owners.
  unfoldable pub check_workspaces : Table (List EventNode) → List Issue × List Conflict × ℕ
  unfolding validate_event_graph text_eq has_suffix sort_texts
  check_workspaces [] = ([], [], 0)
  check_workspaces ((key, events) ∷ streams) =
      let path = item_base item ++ codes "/events/workspaces" in
      let heads = event_graph_heads path events false in
      let (issues, conflicts, owners) = check_workspaces streams in
      (
        event_graph_issues path events false ++ issues,
        conflict_if_many (codes "workspace_assignment_heads") (item_urn lib plan item) heads
            ++ conflicts,
        active_owners key events heads + owners,
      )

  -- `validateWorkspaceEvents`
  unfoldable pub validate_workspace_events : List Issue × List Conflict
  unfolding workspace_issues workspace_streams check_workspaces owner_heads sort_texts
  validate_workspace_events =
      let (issues, conflicts, owners) = check_workspaces (workspace_streams item.workspaces []) in
      (
        each_issues (workspace_issues lib plan item) item.workspaces ++ issues,
        conflicts
            ++ (if ltb 1 owners
                then record {
                  kind = codes "multiple_active_owners";
                  resource = item_urn lib plan item;
                  heads = sort_texts (
                      sort_texts (owner_heads (workspace_parents item.workspaces) item.workspaces));
                }
                  ∷ []
                else []),
      )

  unfoldable pub check_merges : Table (List EventNode) → List Issue × List Conflict
  unfolding validate_event_graph sort_texts
  check_merges [] = ([], [])
  check_merges ((unit, events) ∷ streams) =
      let path = item_base item ++ codes "/events/merges" in
      let (issues, conflicts) = check_merges streams in
      (
        event_graph_issues path events false ++ issues,
        conflict_if_many (codes "merge_event_heads") (item_urn lib plan item ++ (codes "#" ++ unit))
              (event_graph_heads path events false)
            ++ conflicts,
      )

  -- `validateMergeEvents`
  unfoldable pub validate_merge_events : List Issue × List Conflict
  unfolding merge_issues merge_streams check_merges current_merge_units
  validate_merge_events =
      let (issues, conflicts) = check_merges (merge_streams item.merges []) in
      (
        each_issues (merge_issues lib plan item (current_merge_units item)) item.merges ++ issues,
        conflicts,
      )

abbrev pub revision_path : Text → Text → Text
revision_path base id = base ++ (codes "/revisions/" ++ (id ++ codes ".revision/revision.json"))

abbrev pub progress_path : WorkItem → Text
progress_path item = item_base item ++ codes "/events/progress"

module _ (lib : Library) (plan : Plan) where
  -- The checks of `validateWorkItem` in order, on the item as it came and as it is filled in.
  unfoldable pub work_item_issues : WorkItem → WorkItem → List (List Issue)
  unfolding identity_issues work_item_revision_issues validate_revision_graph validate_event_graph
      progress_issues validate_workspace_events validate_merge_events definition_revision_urn
  work_item_issues item checked =
      identity_issues (item_base item ++ codes "/work-item.json") (schema (codes "work-item"))
        item.identity
      ∷ each_issues
          (λ (r : WorkItemRevision).
            work_item_revision_issues lib plan item.identity.id
              (revision_path (item_base item) r.id) r)
          item.revisions
      ∷ revision_graph_issues (item_base item) (revision_nodes lib plan item)
      ∷ each_issues (progress_issues lib plan item) item.progress
      ∷ event_graph_issues (progress_path item) (map (progress_node lib plan item) item.progress)
          true
      ∷ (validate_workspace_events lib plan checked).0
      ∷ (validate_merge_events lib plan checked).0
      ∷ []

  -- `validateWorkItem`. The heads of the revisions are known before the merge events are checked.
  unfoldable pub validate_work_item : WorkItem → Checked WorkItem
  unfolding work_item_issues validate_revision_graph validate_event_graph validate_workspace_events
      validate_merge_events has_suffix text_eq sort_texts definition_revision_urn work_item_urn
  validate_work_item item =
      let heads = revision_graph_heads (item_base item) (revision_nodes lib plan item) in
      let nodes = map (progress_node lib plan item) item.progress in
      let progress_heads = event_graph_heads (progress_path item) nodes true in
      let checked = record item {
        heads = heads;
        current_revision =
            find_single (λ h (r : WorkItemRevision). names_revision h r.id) item.revisions heads
              item.current_revision;
        current_progress =
            find_single (λ h (e : ProgressEvent). text_eq (progress_node lib plan item e).id h)
              item.progress progress_heads item.current_progress;
      } in
      record {
        resource = checked;
        issues = all_issues (work_item_issues item checked);
        conflicts =
            conflict_if_many (codes "work_item_revision_heads") (item_urn lib plan item) heads
            ++ (conflict_if_many (codes "progress_heads") (item_urn lib plan item) progress_heads
                ++ ((validate_workspace_events lib plan checked).1
                    ++ (validate_merge_events lib plan checked).1));
      }
