-- ===== src/WorkPlan/Items/Events.antt =====
-- internal/workplan/validate.go: the checks of one event of a work item, and its node.
use changesaga.Prelude.{
  Bool, not, ◌&&◌, ◌||◌, List, [], ◌∷◌, map, Text, codes, text_eq, has, Table, has_key, get,
}
use changesaga.LivingId.{work_item}
use changesaga.LivingId.Urns.{work_item_urn}
use changesaga.WorkPlan.Records.{
  MergeUnit, WorkItemRevision, ProgressEvent, WorkspaceEvent, MergeEvent, WorkItem, Issue, Plan,
  elements,
}
use changesaga.WorkPlan.Graph.{RevisionNode, EventNode}
use changesaga.WorkPlan.Nodes.{error_if}
use changesaga.WorkPlan.Readiness.{event_urn_for_work_item}
use changesaga.WorkPlan.Checks.{
  Library, all_issues, one_of, event_base_issues, reference_is, is_blank, is_full_oid,
}
use changesaga.WorkPlan.Items.Shared.{
  text_or_empty, revision_urn_of, item_base, stream_path, is_uuid,
}

module _ (lib : Library) (plan : Plan) (item : WorkItem) where
  abbrev pub belongs : Text → Bool
  belongs urn = reference_is urn plan.saga_id work_item item.identity.id

  abbrev pub item_urn : Text
  item_urn = text_or_empty (work_item_urn plan.saga_id item.identity.id)

  abbrev pub revision_nodes : List RevisionNode
  revision_nodes =
      map
        (λ (r : WorkItemRevision). record {
          id = revision_urn_of plan.saga_id work_item item.identity.id r.id;
          parents = elements r.parents;
        })
        item.revisions

  abbrev pub progress_node : ProgressEvent → EventNode
  progress_node e = record {
    id = event_urn_for_work_item e.work_item (codes "progress-event") e.base.id;
    parents = elements e.base.parents;
    state = e.state;
  }

  abbrev pub workspace_node : WorkspaceEvent → EventNode
  workspace_node e = record {
    id = event_urn_for_work_item e.work_item (codes "workspace-event") e.base.id;
    parents = elements e.base.parents;
    state = e.action;
  }

  abbrev pub merge_node : MergeEvent → EventNode
  merge_node e = record {
    id = event_urn_for_work_item e.work_item (codes "merge-event") e.base.id;
    parents = elements e.base.parents;
    state = e.state;
  }

  -- The checks of one progress event.
  unfoldable pub progress_issues : ProgressEvent → List Issue
  unfolding event_base_issues reference_is has text_eq
  progress_issues e =
      let path = stream_path (item_base item) (codes "/events/progress/") e.base in
      all_issues (
        event_base_issues path e.base
        ∷ error_if (not (belongs e.work_item)) path
            (codes "progress event work item does not match package")
        ∷ error_if
            (not (
              one_of e.state (
                codes "planned"
                ∷ codes "ready"
                ∷ codes "in_progress"
                ∷ codes "blocked"
                ∷ codes "done"
                ∷ codes "cancelled"
                ∷ [])))
            path (codes "invalid progress state")
        ∷ error_if
            ((text_eq e.state (codes "blocked") || text_eq e.state (codes "cancelled"))
              && is_blank lib e.reason)
            path (codes "blocked and cancelled progress requires a reason")
        ∷ [])

  -- The checks of one workspace event.
  unfoldable pub workspace_issues : WorkspaceEvent → List Issue
  unfolding event_base_issues reference_is has text_eq is_uuid
  workspace_issues e =
      let path = stream_path (item_base item) (codes "/events/workspaces/") e.base in
      all_issues (
        event_base_issues path e.base
        ∷ error_if (not (belongs e.work_item)) path
            (codes "workspace event work item does not match package")
        ∷ error_if
            (not (one_of e.action (codes "assigned" ∷ codes "released" ∷ []))
              || not (one_of e.role (codes "owner" ∷ codes "contributor" ∷ codes "observer" ∷ [])))
            path (codes "invalid workspace action or role")
        ∷ error_if
            (not (text_eq e.workspace.provider (codes "devswarm"))
              || not (is_uuid e.workspace.id)
              || is_blank lib e.workspace.repository_id
              || is_blank lib e.workspace.branch)
            path (codes "DevSwarm workspace id, repository id, and branch are required")
        ∷ [])

  -- The checks of one merge event, whose unit is one of the current units.
  unfoldable pub merge_issues : Table MergeUnit → MergeEvent → List Issue
  unfolding event_base_issues reference_is has text_eq get is_full_oid
  merge_issues units e =
      let path = stream_path (item_base item) (codes "/events/merges/") e.base in
      let is_state = λ (s : Text). text_eq e.state s in
      all_issues (
        event_base_issues path e.base
        ∷ error_if (not (belongs e.work_item)) path
            (codes "merge event work item does not match package")
        ∷ error_if (not (has_key e.unit units)) path
            (codes "merge event names an unknown current merge unit")
        ∷ error_if
            (not (
              one_of e.state (
                codes "planned"
                ∷ codes "ready"
                ∷ codes "integrated"
                ∷ codes "reverted"
                ∷ codes "abandoned"
                ∷ [])))
            path (codes "invalid merge state")
        ∷ error_if
            ((is_state (codes "ready") || is_state (codes "integrated"))
              && not (is_full_oid e.head_oid))
            path (codes "ready and integrated merge events require a full head_oid")
        ∷ error_if (is_state (codes "integrated") && not (is_full_oid e.merge_oid)) path
            (codes "integrated merge events require a full merge_oid")
        ∷ error_if
            (is_state (codes "reverted")
              && (not (is_full_oid e.merge_oid) || not (is_full_oid e.revert_oid)))
            path (codes "reverted merge events require full merge_oid and revert_oid evidence")
        ∷ [])
