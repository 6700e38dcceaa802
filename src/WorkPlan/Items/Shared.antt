-- ===== src/WorkPlan/Items/Shared.antt =====
-- internal/workplan/validate.go: what the validators of the resources share: the checks of a graph,
-- the current record of a single head, paths, and the pattern of a UUID.
use changesaga.Prelude.{
  ℕ, zero, suc, Result, ok, err, Bool, true, false, ◌&&◌, ◌||◌, Option, none, some, List, [], ◌∷◌,
  ◌++◌, Text, codes, has_suffix, sort_texts, leb, ◌==◌, if◌then◌else◌,
}
use changesaga.LivingId.{Kind}
use changesaga.LivingId.Urns.{definition_revision_urn}
use changesaga.WorkPlan.Records.{EventBase, WorkItem, Issue, Conflict}
use changesaga.WorkPlan.Graph.{RevisionNode, EventNode}
use changesaga.WorkPlan.Nodes.{validate_revision_graph, validate_event_graph}
use changesaga.WorkPlan.Checks.{root_dir, is_hex}

-- What a validator returns: the resource with its heads and current records, the issues that it adds
-- and the conflicts that it notes.
pub record Checked (A : Type 0) : Type 0 where
  pub resource : A
  pub issues : List Issue
  pub conflicts : List Conflict

-- `addConflict`, for more than one head.
abbrev pub conflict_if_many : Text → Text → List Text → List Conflict
conflict_if_many kind resource (h ∷ i ∷ hs) =
    record { kind = kind; resource = resource; heads = sort_texts (h ∷ i ∷ hs) } ∷ []
conflict_if_many kind resource _ = []

-- What `validateEventGraph` and `validateRevisionGraph` add.
abbrev pub event_graph_issues : Text → List EventNode → Bool → List Issue
event_graph_issues path nodes required =
    (validate_event_graph (record { valid = true; issues = [] }) path nodes required).0.issues

abbrev pub event_graph_heads : Text → List EventNode → Bool → List Text
event_graph_heads path nodes required =
    (validate_event_graph (record { valid = true; issues = [] }) path nodes required).1

abbrev pub revision_graph_issues : Text → List RevisionNode → List Issue
revision_graph_issues path nodes =
    (validate_revision_graph (record { valid = true; issues = [] }) path nodes).0.issues

abbrev pub revision_graph_heads : Text → List RevisionNode → List Text
revision_graph_heads path nodes =
    (validate_revision_graph (record { valid = true; issues = [] }) path nodes).1

abbrev pub text_or_empty : {E : Type 0} → Result E Text → Text
text_or_empty (ok t) = t
text_or_empty (err e) = []

-- `revisionURN`
abbrev pub revision_urn_of : Text → Kind → Text → Text → Text
revision_urn_of saga_id kind parent id =
    text_or_empty (definition_revision_urn saga_id kind parent id)

-- The first element that passes.
abbrev pub find : {A : Type 0} → (A → Bool) → List A → Option A
find p [] = none
find p (x ∷ xs) = if p x then some x else find p xs

abbrev pub find_single : {A : Type 0} → (Text → A → Bool) → List A → List Text → Option A → Option A
find_single p xs (h ∷ []) before = find (p h) xs
find_single p xs _ before = before

abbrev pub names_revision : Text → Text → Bool
names_revision urn id = has_suffix urn (codes ":revision:" ++ id)

abbrev pub item_base : WorkItem → Text
item_base item = root_dir ++ (codes "/work-items/" ++ (item.identity.id ++ codes ".work-item"))

abbrev pub stream_path : Text → Text → EventBase → Text
stream_path base stream event = base ++ (stream ++ (event.id ++ codes ".json"))

-- The groups of `uuidPattern`: so many hex digits, and what comes behind them.
abbrev pub hex_group : ℕ → Text → Option Text
hex_group zero t = some t
hex_group (suc n) [] = none
hex_group (suc n) (c ∷ t) = if is_hex c then hex_group n t else none

abbrev pub byte_of : (ℕ → Bool) → Option Text → Option Text
byte_of p none = none
byte_of p (some []) = none
byte_of p (some (c ∷ t)) = if p c then some t else none

abbrev pub hex_behind : ℕ → Option Text → Option Text
hex_behind n none = none
hex_behind n (some t) = hex_group n t

abbrev pub is_end : Option Text → Bool
is_end none = false
is_end (some []) = true
is_end (some (c ∷ t)) = false

abbrev pub is_dash : ℕ → Bool
is_dash c = c == 45

-- `uuidPattern`: the third group begins with 1 to 5, the fourth with 8, 9, a or b.
unfoldable pub is_uuid : Text → Bool
is_uuid t =
    let first = byte_of is_dash (hex_group 8 t) in
    let second = byte_of is_dash (hex_behind 4 first) in
    let third = byte_of is_dash (hex_behind 3 (byte_of (λ c. leb 49 c && leb c 53) second)) in
    let variant = λ (c : ℕ). c == 56 || c == 57 || c == 97 || c == 98 || c == 65 || c == 66 in
    let fourth = byte_of is_dash (hex_behind 3 (byte_of variant third)) in
    is_end (hex_behind 12 fourth)
