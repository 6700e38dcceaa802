-- ===== src/WorkPlan/Nodes/Errors.antt =====
-- Issues of severity error: a list without them is empty if the checks add no other.
use changesaga.Prelude.{
  ◌≡◌, refl, ◌⊎◌, inl, inr, ◌∙◌, sym, ap, Bool, true, false, not, ◌||◌, List, [], ◌∷◌, ◌++◌, Text,
  codes, text_eq, has, All, ◌==◌, arith, Bool-cases,
}
use changesaga.WorkPlan.Records.{Issue}
use changesaga.WorkPlan.Graph.{EventNode, graph_cycle_events}
use changesaga.WorkPlan.Nodes.{
  error_if, duplicate_issues, missing_issues, duplicate_strings, event_parent_issues,
  validate_event_graph, event_ids, event_parents, initial_count, initial_message,
}
use changesaga.WorkPlan.Nodes.Accepted.{IsEventGraph, validate_event_graph-IsEventGraph}
use changesaga.WorkPlan.Checks.{has_errors, all_issues, each_issues}
use changesaga.WorkPlan.Items.{event_graph_issues}

pub has_errors-append :
    (xs ys : List Issue) → has_errors (xs ++ ys) ≡ (has_errors xs || has_errors ys)
unfolding has_errors
has_errors-append [] ys = refl
has_errors-append (x ∷ xs) ys = ground (arith, has_errors-append xs ys)

-- No errors in either list.
pub no_errors-append :
    (xs ys : List Issue)
    → has_errors (xs ++ ys) ≡ false
    → (has_errors xs ≡ false) × (has_errors ys ≡ false)
no_errors-append xs ys h =
    let e = sym (has_errors-append xs ys) ∙ h in
    elim (Bool-cases (has_errors xs)) [ inl t ↦ ground arith | inr f ↦ (f, ground arith) ]

-- No errors in any of the checks.
pub no_errors-all_issues :
    (iss : List (List Issue))
    → has_errors (all_issues iss) ≡ false
    → All (λ is. has_errors is ≡ false) iss
no_errors-all_issues [] h = tt
no_errors-all_issues (is ∷ iss) h =
    let both = no_errors-append is (all_issues iss) h in (both.0, no_errors-all_issues iss both.1)

-- No errors in the check of any element.
pub no_errors-each_issues :
    {A : Type 0} (check : A → List Issue) (xs : List A)
    → has_errors (each_issues check xs) ≡ false
    → All (λ x. has_errors (check x) ≡ false) xs
no_errors-each_issues check [] h = tt
no_errors-each_issues check (x ∷ xs) h =
    let both = no_errors-append (check x) (each_issues check xs) h in
    (both.0, no_errors-each_issues check xs both.1)

pub no_errors-error_if :
    (b : Bool) (path message : Text) → has_errors (error_if b path message) ≡ false → b ≡ false
unfolding has_errors text_eq
no_errors-error_if true path message h = cc
no_errors-error_if false path message h = refl

-- A list that is empty unless it has an error.
abbrev pub HasOnlyErrors : List Issue → Type 0
HasOnlyErrors xs = has_errors xs ≡ false → xs ≡ []

pub append-HasOnlyErrors :
    (xs ys : List Issue) → HasOnlyErrors xs → HasOnlyErrors ys → HasOnlyErrors (xs ++ ys)
append-HasOnlyErrors xs ys p q h = let (a, b) = no_errors-append xs ys h in rw (p a, q b) refl

pub error_if-HasOnlyErrors :
    (b : Bool) (path message : Text) → HasOnlyErrors (error_if b path message)
error_if-HasOnlyErrors b path message h = rw (no_errors-error_if b path message h) refl

duplicate_issues-HasOnlyErrors :
    (path message : Text) (set ids : List Text)
    → HasOnlyErrors (duplicate_issues path message set ids)
unfolding duplicate_issues
duplicate_issues-HasOnlyErrors path message set [] = λ h. refl
duplicate_issues-HasOnlyErrors path message set (id ∷ ids) =
    append-HasOnlyErrors (error_if (has id set) path message) _
      (error_if-HasOnlyErrors (has id set) path message)
      (duplicate_issues-HasOnlyErrors path message (id ∷ set) ids)

missing_issues-HasOnlyErrors :
    (path message : Text) (ids ps : List Text) → HasOnlyErrors (missing_issues path message ids ps)
unfolding missing_issues
missing_issues-HasOnlyErrors path message ids [] = λ h. refl
missing_issues-HasOnlyErrors path message ids (p ∷ ps) =
    append-HasOnlyErrors (error_if (not (has p ids)) path (message ++ p)) _
      (error_if-HasOnlyErrors (not (has p ids)) path (message ++ p))
      (missing_issues-HasOnlyErrors path message ids ps)

event_parent_issues-HasOnlyErrors :
    (path : Text) (ids : List Text) (pss : List (List Text))
    → HasOnlyErrors (event_parent_issues path ids pss)
unfolding event_parent_issues
event_parent_issues-HasOnlyErrors path ids [] = λ h. refl
event_parent_issues-HasOnlyErrors path ids (ps ∷ pss) =
    append-HasOnlyErrors
      (error_if (duplicate_strings ps) path (codes "event parents must be unique")) _
      (error_if-HasOnlyErrors _ path _)
      (append-HasOnlyErrors (missing_issues path (codes "event parent does not exist: ") ids ps) _
        (missing_issues-HasOnlyErrors path (codes "event parent does not exist: ") ids ps)
        (event_parent_issues-HasOnlyErrors path ids pss))

event_graph_issues-HasOnlyErrors :
    (path : Text) (ns : List EventNode) (required : Bool)
    → HasOnlyErrors (event_graph_issues path ns required)
unfolding validate_event_graph
event_graph_issues-HasOnlyErrors path [] required = error_if-HasOnlyErrors required path _
event_graph_issues-HasOnlyErrors path (n ∷ ns) required =
    let ids = event_ids (n ∷ ns) in
    let pss = event_parents (n ∷ ns) in
    append-HasOnlyErrors (duplicate_issues path (codes "duplicate event id") [] ids) _
      (duplicate_issues-HasOnlyErrors path (codes "duplicate event id") [] ids)
      (append-HasOnlyErrors (event_parent_issues path ids pss) _
        (event_parent_issues-HasOnlyErrors path ids pss)
        (append-HasOnlyErrors
          (error_if (not (initial_count pss == 1)) path (initial_message required))
          (error_if (graph_cycle_events (n ∷ ns)) path (codes "event graph must be acyclic"))
          (error_if-HasOnlyErrors _ path _) (error_if-HasOnlyErrors _ path _)))

kept :
    (path : Text) (ns : List EventNode) (required : Bool)
    → event_graph_issues path ns required ≡ []
    → (validate_event_graph (record { valid = true; issues = [] }) path ns required).0
      ≡ record { valid = true; issues = [] }
unfolding validate_event_graph
kept path [] required h = ap (λ is. record { valid = true; issues = is }) h
kept path (n ∷ ns) required h = ap (λ is. record { valid = true; issues = is }) h

-- Checks of a stream that add no error accept it.
pub no_errors-IsEventGraph :
    (path : Text) (ns : List EventNode) (required : Bool)
    → has_errors (event_graph_issues path ns required) ≡ false
    → ((ns ≡ []) × (required ≡ false)) ⊎ IsEventGraph ns
no_errors-IsEventGraph path ns required h =
    (validate_event_graph-IsEventGraph _ path ns required).0
      (kept path ns required (event_graph_issues-HasOnlyErrors path ns required h))
