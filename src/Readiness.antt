-- ===== src/Readiness.antt =====
-- internal/readiness/readiness.go: the delivery projections of a living Saga.
pub mod Delivered
pub mod Axes
use changesaga.Prelude.{
  ℕ, suc, ◌+◌, ◌-◌, Bool, true, false, not, ◌&&◌, List, [], ◌∷◌, ◌++◌, Text, codes, text_eq,
  text_lt, has, sort_texts, sort_by, length, any, ltb, ◌==◌, if◌then◌else◌,
}

pub record Blocker : Type 0 where
  pub code : Text
  pub resource : Text
  pub detail : Text
  pub path : List Text

pub record BlockerPath : Type 0 where
  pub path : List Text
  pub blocker : Blocker

pub record Criterion : Type 0 where
  pub urn : Text
  pub designed : Bool
  pub planned : Bool
  pub evidence : List Text
  pub direct_blockers : List Blocker
  pub upstream_paths : List BlockerPath

pub record CriterionResult : Type 0 where
  pub criterion : Text
  pub designed : Bool
  pub planned : Bool
  pub delivered : Bool
  pub evidence : List Text
  pub blockers : List Blocker
  pub transitive_paths : List BlockerPath

pub record Axis : Type 0 where
  pub total : ℕ
  pub covered : ℕ
  pub missing : ℕ

pub record Projection : Type 0 where
  pub peer_review_ready : Bool
  pub requirement_coverage : Axis
  pub plan_coverage : Axis
  pub delivery_coverage : Axis
  pub criteria : List CriterionResult

-- `blocker.Code != "design_missing" && blocker.Code != "work_item_missing"`
abbrev pub prevents_delivery : Blocker → Bool
prevents_delivery b =
    not (text_eq b.code (codes "design_missing"))
    && not (text_eq b.code (codes "work_item_missing"))

unfoldable pub has_delivery_blocker : List Blocker → Bool
has_delivery_blocker [] = false
has_delivery_blocker (b ∷ bs) = if prevents_delivery b then true else has_delivery_blocker bs

abbrev pub is_blank : Text → Bool
is_blank [] = true
is_blank (c ∷ t) = false

-- The loop of `uniqueSorted`.
unfoldable pub unique_from : List Text → List Text → List Text
unfolding has
unique_from seen [] = []
unique_from seen (v ∷ vs) =
    let skipped = unique_from seen vs in
    let kept = v ∷ unique_from (v ∷ seen) vs in
    if not (is_blank v) && not (has v seen) then kept else skipped

unfoldable pub unique_sorted : List Text → List Text
unfolding unique_from sort_texts
unique_sorted vs = sort_texts (unique_from [] vs)

abbrev pub add_nodes : Text → List Text → Text
add_nodes key [] = key
add_nodes key (n ∷ ns) = add_nodes (key ++ (0 ∷ n)) ns

unfoldable pub path_key : BlockerPath → Text
path_key p = add_nodes (p.blocker.code ++ (0 ∷ p.blocker.resource)) p.path

abbrev pub urn_lt : Criterion → Criterion → Bool
urn_lt c d = text_lt c.urn d.urn

abbrev pub blocker_lt : Blocker → Blocker → Bool
blocker_lt a b =
    if not (text_eq a.code b.code) then text_lt a.code b.code else text_lt a.resource b.resource

abbrev pub path_lt : BlockerPath → BlockerPath → Bool
path_lt p q = text_lt (path_key p) (path_key q)

abbrev pub is_none : {A : Type 0} → List A → Bool
is_none [] = true
is_none (x ∷ xs) = false

-- The item that the loop appends for a criterion.
unfoldable pub project : Criterion → CriterionResult
unfolding unique_sorted has_delivery_blocker sort_by path_key
project input =
    let evidence = unique_sorted input.evidence in
    let blockers = sort_by blocker_lt input.direct_blockers in
    let paths = sort_by path_lt input.upstream_paths in
    record {
      criterion = input.urn;
      designed = input.designed;
      planned = input.planned;
      delivered = not (is_none evidence) && not (has_delivery_blocker blockers) && is_none paths;
      evidence = evidence;
      blockers = blockers;
      transitive_paths = paths;
    }

abbrev pub cover : Bool → Axis → Axis
cover b a = record a { covered = if b then a.covered + 1 else a.covered }

unfoldable pub evaluate_each : List Criterion → Projection → Projection
unfolding project
evaluate_each [] p = p
evaluate_each (c ∷ cs) p =
    let item = project c in
    evaluate_each cs (record p {
      criteria = p.criteria ++ (item ∷ []);
      requirement_coverage = cover c.designed p.requirement_coverage;
      plan_coverage = cover c.planned p.plan_coverage;
      delivery_coverage = cover item.delivered p.delivery_coverage;
    })

abbrev pub close : ℕ → Axis → Axis
close n a = record { total = n; covered = a.covered; missing = n - a.covered }

abbrev pub no_axis : Axis
no_axis = record { total = 0; covered = 0; missing = 0 }

unfoldable pub evaluate : List Criterion → Projection
unfolding evaluate_each sort_by
evaluate criteria =
    let ordered = sort_by urn_lt criteria in
    let p = evaluate_each ordered (record {
      peer_review_ready = false;
      requirement_coverage = no_axis;
      plan_coverage = no_axis;
      delivery_coverage = no_axis;
      criteria = [];
    }) in
    let delivery = close (length ordered) p.delivery_coverage in
    record {
      peer_review_ready = ltb 0 (length ordered) && delivery.missing == 0;
      requirement_coverage = close (length ordered) p.requirement_coverage;
      plan_coverage = close (length ordered) p.plan_coverage;
      delivery_coverage = delivery;
      criteria = p.criteria;
    }
