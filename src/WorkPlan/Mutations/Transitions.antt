-- ===== src/WorkPlan/Mutations/Transitions.antt =====
-- internal/workplan/mutation.go: which state may follow which, and the heads of a stream of workspace
-- events.
use changesaga.Prelude.{
  Bool, false, ◌&&◌, List, [], ◌∷◌, Text, codes, text_eq, has, if◌then◌else◌, Table,
}
use changesaga.WorkPlan.Records.{WorkspaceEvent, WorkItem, elements}
use changesaga.WorkPlan.Nodes.{event_heads}
use changesaga.WorkPlan.Readiness.{Stream, add_event, heads, event_urn_for_work_item}

-- `map[string]map[string]bool`, by the state that is left.
abbrev pub Moves : Type 0
Moves = List (Text × List Text)

-- `moves[from][to]`
unfoldable pub may_move : Moves → Text → Text → Bool
unfolding has text_eq
may_move [] from to = false
may_move ((state, next) ∷ moves) from to =
    if text_eq state from then has to next else may_move moves from to

abbrev pub progress_moves : Moves
progress_moves =
    (
      codes "planned",
      codes "ready" ∷ codes "in_progress" ∷ codes "blocked" ∷ codes "cancelled" ∷ [],
    )
    ∷ (codes "ready", codes "in_progress" ∷ codes "blocked" ∷ codes "cancelled" ∷ [])
    ∷ (codes "in_progress", codes "blocked" ∷ codes "done" ∷ codes "cancelled" ∷ [])
    ∷ (codes "blocked", codes "ready" ∷ codes "in_progress" ∷ codes "cancelled" ∷ [])
    ∷ (codes "done", codes "in_progress" ∷ [])
    ∷ []

abbrev pub merge_moves : Moves
merge_moves =
    (codes "planned", codes "ready" ∷ codes "abandoned" ∷ [])
    ∷ (codes "ready", codes "integrated" ∷ codes "abandoned" ∷ [])
    ∷ (codes "integrated", codes "reverted" ∷ [])
    ∷ (codes "reverted", codes "ready" ∷ codes "abandoned" ∷ [])
    ∷ []

abbrev pub contract_moves : Moves
contract_moves =
    (codes "proposed", codes "accepted" ∷ codes "waived" ∷ [])
    ∷ (codes "accepted", codes "fulfilled" ∷ codes "violated" ∷ codes "waived" ∷ [])
    ∷ (codes "fulfilled", codes "violated" ∷ [])
    ∷ (codes "violated", codes "accepted" ∷ codes "waived" ∷ [])
    ∷ []

unfoldable pub progress_transition : Text → Text → Bool
unfolding may_move
progress_transition = may_move progress_moves

unfoldable pub merge_transition : Text → Text → Bool
unfolding may_move
merge_transition = may_move merge_moves

unfoldable pub contract_transition : Text → Text → Bool
unfolding may_move
contract_transition = may_move contract_moves

unfoldable pub workspace_stream : Text → Text → List WorkspaceEvent → Stream → Stream
unfolding add_event text_eq
workspace_stream id role [] s = s
workspace_stream id role (e ∷ es) s = workspace_stream id role es (
    if text_eq e.workspace.id id && text_eq e.role role
    then add_event (event_urn_for_work_item e.work_item (codes "workspace-event") e.base.id)
        (elements e.base.parents) e.action s
    else s)

unfoldable pub workspace_heads : WorkItem → Text → Text → List Text × Table Text
unfolding workspace_stream event_heads
workspace_heads item id role = heads (workspace_stream id role item.workspaces ([], []))
