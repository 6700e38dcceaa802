-- ===== src/WorkPlan/Nodes.antt =====
-- internal/workplan/validate.go and mutation.go: the checks of one graph of revisions or events
-- (`validateRevisionGraph`, `validateEventGraph`), and its heads.
pub mod Issues
pub mod Accepted
pub mod Errors
pub mod Resolved
use changesaga.Prelude.{
  ℕ, suc, Bool, true, false, not, List, [], ◌∷◌, ◌++◌, map, Text, codes, has, add_all, sort_texts,
  filter, count_if, ◌==◌, if◌then◌else◌,
}
use changesaga.WorkPlan.Records.{Issue, Validation}
use changesaga.WorkPlan.Graph.{RevisionNode, EventNode, graph_cycle_revisions, graph_cycle_events}

-- What `addIssue` appends, if the condition holds.
abbrev pub error_if : Bool → Text → Text → List Issue
error_if true path message =
    record { severity = codes "error"; path = path; message = message } ∷ []
error_if false path message = []

-- `addIssue` for every issue of the list, in order.
abbrev pub add_issues : Validation → List Issue → Validation
add_issues v issues = record v { issues = v.issues ++ issues }

abbrev pub is_nil : {A : Type 0} → List A → Bool
is_nil [] = true
is_nil (x ∷ xs) = false

-- The first loop: the identifiers that stand in the set already.
unfoldable pub duplicate_issues : Text → Text → List Text → List Text → List Issue
duplicate_issues path message set [] = []
duplicate_issues path message set (id ∷ ids) =
    error_if (has id set) path message ++ duplicate_issues path message (id ∷ set) ids

-- The inner part of the second loop: the parents that are no node.
unfoldable pub missing_issues : Text → Text → List Text → List Text → List Issue
missing_issues path message ids [] = []
missing_issues path message ids (p ∷ ps) =
    error_if (not (has p ids)) path (message ++ p) ++ missing_issues path message ids ps

unfoldable pub duplicate_strings_from : List Text → List Text → Bool
duplicate_strings_from set [] = false
duplicate_strings_from set (t ∷ ts) =
    if has t set then true else duplicate_strings_from (t ∷ set) ts

unfoldable pub duplicate_strings : List Text → Bool
unfolding duplicate_strings_from
duplicate_strings ts = duplicate_strings_from [] ts

-- The identifiers that are no node's parent, sorted. The second list holds the parents of all nodes.
unfoldable pub heads_of : List Text → List Text → List Text
unfolding has add_all sort_texts
heads_of ids children = sort_texts (filter (λ id. not (has id children)) (add_all [] ids))

abbrev pub initial_count : List (List Text) → ℕ
initial_count = count_if is_nil

abbrev pub concat_texts : List (List Text) → List Text
concat_texts [] = []
concat_texts (ps ∷ pss) = ps ++ concat_texts pss

abbrev pub revision_ids : List RevisionNode → List Text
revision_ids = map (λ n. n.id)

abbrev pub revision_parents : List RevisionNode → List (List Text)
revision_parents = map (λ n. n.parents)

abbrev pub event_ids : List EventNode → List Text
event_ids = map (λ n. n.id)

abbrev pub event_parents : List EventNode → List (List Text)
event_parents = map (λ n. n.parents)

-- The second loop of `validateRevisionGraph`.
unfoldable pub revision_parent_issues : Text → List Text → List (List Text) → List Issue
unfolding missing_issues
revision_parent_issues path ids [] = []
revision_parent_issues path ids (ps ∷ pss) =
    missing_issues path (codes "revision parent does not exist: ") ids ps
    ++ revision_parent_issues path ids pss

unfoldable pub validate_revision_graph :
    Validation → Text → List RevisionNode → Validation × List Text
unfolding duplicate_issues revision_parent_issues graph_cycle_revisions heads_of
validate_revision_graph v path [] = (
  add_issues v (error_if true path (codes "resource must have at least one definition revision")),
  [],
)
validate_revision_graph v path (n ∷ ns) =
    let ids = revision_ids (n ∷ ns) in
    let parents = revision_parents (n ∷ ns) in
    (
      add_issues v (
          duplicate_issues path (codes "duplicate revision id") [] ids
          ++ (revision_parent_issues path ids parents
              ++ (error_if (not (initial_count parents == 1)) path
                    (codes "revision graph must have exactly one initial revision")
                  ++ error_if (graph_cycle_revisions (n ∷ ns)) path
                      (codes "revision graph must be acyclic")))),
      heads_of ids (concat_texts parents),
    )

-- The second loop of `validateEventGraph`.
unfoldable pub event_parent_issues : Text → List Text → List (List Text) → List Issue
unfolding missing_issues duplicate_strings
event_parent_issues path ids [] = []
event_parent_issues path ids (ps ∷ pss) =
    error_if (duplicate_strings ps) path (codes "event parents must be unique")
    ++ (missing_issues path (codes "event parent does not exist: ") ids ps
        ++ event_parent_issues path ids pss)

abbrev pub initial_message : Bool → Text
initial_message true = codes "event graph must have exactly one initial event"
initial_message false = codes "each event stream must have exactly one initial event"

unfoldable pub validate_event_graph :
    Validation → Text → List EventNode → Bool → Validation × List Text
unfolding duplicate_issues event_parent_issues graph_cycle_events heads_of
validate_event_graph v path [] require_initial = (
  add_issues v (error_if require_initial path (codes "event graph requires an initial event")),
  [],
)
validate_event_graph v path (n ∷ ns) require_initial =
    let ids = event_ids (n ∷ ns) in
    let parents = event_parents (n ∷ ns) in
    (
      add_issues v (
          duplicate_issues path (codes "duplicate event id") [] ids
          ++ (event_parent_issues path ids parents
              ++ (error_if (not (initial_count parents == 1)) path (initial_message require_initial)
                  ++ error_if (graph_cycle_events (n ∷ ns)) path
                      (codes "event graph must be acyclic")))),
      heads_of ids (concat_texts parents),
    )

-- `eventHeads`.
unfoldable pub event_heads : List EventNode → List Text
unfolding heads_of
event_heads ns = heads_of (event_ids ns) (concat_texts (event_parents ns))
