-- ===== src/WorkPlan/Urns.antt =====
-- internal/workplan/urn.go: the exported functions, which check the identifiers of an event URN.
-- Go runs through the map of identifiers in an order that it leaves open: an error has the names of all
-- identifiers that are not stable, and the sentence that is printed has one of them.
use changesaga.Prelude.{
  ◌≡◌, ap, ◌∙◌, append_assoc, ok-injective, require-eq-ok, true, List, [], ◌∷◌, ◌++◌, Text, codes,
  Result, ok, err, if◌then◌else◌,
}
use changesaga.LivingId.{valid_id, validate_id, build, build_kind, build_flat}
use changesaga.LivingId.Urns.{work_item_urn}
use changesaga.WorkPlan.Readiness.{event_urn_for_work_item}

-- The names of the identifiers that `livingid.ValidID` refuses.
unfoldable pub invalid_names : List (Text × Text) → List Text
unfolding valid_id
invalid_names [] = []
invalid_names ((name, value) ∷ ids) =
    let rest = invalid_names ids in if valid_id value then rest else name ∷ rest

abbrev pub unless_invalid : List Text → Text → Result (List Text) Text
unless_invalid [] urn = ok urn
unless_invalid (name ∷ names) urn = err (name ∷ names)

unfoldable pub item_event_urn : Text → Text → Text → Text → Result (List Text) Text
unfolding invalid_names
item_event_urn saga_id item_id kind event_id =
    unless_invalid
      (invalid_names
        ((codes "saga", saga_id) ∷ (codes "work item", item_id) ∷ (codes "event", event_id) ∷ []))
      (codes "urn:change-saga:"
        ++ saga_id
        ++ codes ":work-item:"
        ++ item_id
        ++ codes ":"
        ++ kind
        ++ codes ":"
        ++ event_id)

unfoldable pub contract_event_urn : Text → Text → Text → Result (List Text) Text
unfolding invalid_names
contract_event_urn saga_id contract_id event_id =
    unless_invalid
      (invalid_names (
        (codes "saga", saga_id) ∷ (codes "contract", contract_id) ∷ (codes "event", event_id) ∷ []))
      (codes "urn:change-saga:"
        ++ saga_id
        ++ codes ":contract:"
        ++ contract_id
        ++ codes ":event:"
        ++ event_id)

abbrev pub progress_event_urn : Text → Text → Text → Result (List Text) Text
progress_event_urn saga_id item_id = item_event_urn saga_id item_id (codes "progress-event")

abbrev pub workspace_event_urn : Text → Text → Text → Result (List Text) Text
workspace_event_urn saga_id item_id = item_event_urn saga_id item_id (codes "workspace-event")

abbrev pub merge_event_urn : Text → Text → Text → Result (List Text) Text
merge_event_urn saga_id item_id = item_event_urn saga_id item_id (codes "merge-event")

-- The URN of an event is the item's URN, as its events and parents are compared, with the event's
-- kind and identifier.
pub item_event_urn-event_urn_for_work_item :
    (saga_id item_id kind event_id : Text) {urn : Text}
    → valid_id event_id ≡ true
    → work_item_urn saga_id item_id ≡ ok urn
    → item_event_urn saga_id item_id kind event_id ≡ ok (event_urn_for_work_item urn kind event_id)
unfolding item_event_urn work_item_urn build build_kind build_flat validate_id
item_event_urn-event_urn_for_work_item saga_id item_id kind event_id valid h =
    let (s, h1) = require-eq-ok (valid_id saga_id) _ _ h in
    let (i, h2) = require-eq-ok (valid_id item_id) _ _ h1 in
    rw (s, i, valid)
      (ap (λ u. ok (event_urn_for_work_item u kind event_id))
        (ap (λ t. codes "urn:change-saga:" ++ t)
            (append_assoc saga_id (codes ":work-item:") item_id)
          ∙ ok-injective h2))
