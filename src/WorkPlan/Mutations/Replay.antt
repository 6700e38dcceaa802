-- ===== src/WorkPlan/Mutations/Replay.antt =====
-- A request that is made again after its event was loaded is answered as the first time.
use mathlib.Core.List.{Memᴰ}
use changesaga.Prelude.{
  ◌≡◌, refl, sym, ap, ◌∙◌, Bool, true, false, not, ◌||◌, ◌==◌, none, some, List, [], ◌∷◌, ◌++◌,
  Text, codes, text_eq, text_eq_refl, Table, get, get-put, put, Result, ok, err, if◌then◌else◌,
  arith, All, Bool-cases, inl, inr,
}
use changesaga.LivingId.{valid_id}
use changesaga.WorkPlan.Records.{
  EventBase, ProgressEvent, WorkItem, RequestRecord, Plan, Validation, elements, is_null,
}
use changesaga.WorkPlan.Nodes.{is_nil, error_if}
use changesaga.WorkPlan.Nodes.Errors.{no_errors-append, no_errors-error_if}
use changesaga.WorkPlan.Nodes.Resolved.{same_set-Memᴰ}
use changesaga.WorkPlan.Readiness.{event_urn_for_work_item, progress_heads}
use changesaga.WorkPlan.Checks.{
  Library, valid_request_id, is_digest, has_errors, all_issues, schema, version, valid_time,
  event_base_issues, request_issues,
}
use changesaga.WorkPlan.Items.{progress_issues, stream_path, item_base}
use changesaga.WorkPlan.Mutations.{
  progress_event, MutationError, nothing, different_payload, invalid_plan, join_issues, Outcome,
  World, same_set, stamp_event,
}
use changesaga.WorkPlan.Mutations.Events.{
  record_progress_of, stamp_progress, write_event, item_events_dir,
}
use changesaga.WorkPlan.Mutations.Requests.{
  Registered, register_request, load_progress, answer, replay, mutate,
}
use changesaga.WorkPlan.Mutations.Recorded.{
  validate_candidate_item-eq-ok, with_progress, record_progress_of-eq-ok, write_event-eq-ok,
  elements-empty_strings,
}

-- A set that is as large as one with a head has an element.
same_set-nil :
    (left right : List Text)
    → same_set left right ≡ true
    → not (is_nil right) ≡ true
    → is_nil left ≡ false
same_set-nil [] [] h n = cc
same_set-nil [] (t ∷ ts) h n = elim ((same_set-Memᴰ [] (t ∷ ts) h t).1 (Memᴰ.head refl)) [ ]
same_set-nil (s ∷ ss) right h n = refl

pub valid_id-nil : (t : Text) → valid_id t ≡ true → is_nil t ≡ false
unfolding valid_id
valid_id-nil [] h = cc
valid_id-nil (c ∷ t) h = refl

third_of_four : (a b c d : Bool) → (a || b || not c || d) ≡ false → c ≡ true
third_of_four a b c d h = ground arith

-- An event that is checked without errors has an identifier.
event_base_issues-id :
    (path : Text) (e : EventBase)
    → has_errors (event_base_issues path e) ≡ false
    → is_nil e.id ≡ false
unfolding event_base_issues
event_base_issues-id path e h =
    let bad_schema = not (text_eq e.schema (schema (codes "workplan-event"))) in
    let bad_version = not (e.version == version) in
    let bad_time = not (valid_time e.created_at) in
    let message = codes "event requires the v3 event schema, stable id, and UTC creation time" in
    let first =
      error_if (bad_schema || bad_version || not (valid_id e.id) || bad_time) path message in
    let rest = all_issues (
      request_issues path e.request_id e.request_digest
      ∷ error_if (is_null e.parents) path (codes "event parents must be an array, not null")
      ∷ []) in
    valid_id-nil e.id (
      third_of_four bad_schema bad_version (valid_id e.id) bad_time
        (no_errors-error_if _ path message (no_errors-append first rest h).0))

progress_issues-id :
    (lib : Library) (plan : Plan) (item : WorkItem) (e : ProgressEvent)
    → has_errors (progress_issues lib plan item e) ≡ false
    → is_nil e.base.id ≡ false
unfolding progress_issues
progress_issues-id lib plan item e h =
    event_base_issues-id _ e.base
      (no_errors-append
        (event_base_issues (stream_path (item_base item) (codes "/events/progress/") e.base) e.base)
        _ h).0

valid_request_id-nil : (t : Text) → valid_request_id t ≡ true → is_nil t ≡ false
unfolding valid_request_id
valid_request_id-nil [] h = cc
valid_request_id-nil (c ∷ t) h = refl

-- A new request is entered.
pub register_request-get :
    (requests : Table RequestRecord) (id : Text) (r : RequestRecord)
    → valid_request_id id ≡ true
    → is_digest r.digest ≡ true
    → get id requests ≡ none
    → register_request requests id r ≡ (put id r requests, [])
unfolding register_request
register_request-get requests id r v d n = rw (v, d, n, valid_request_id-nil id v) refl

last-All : {A : Type 0} (P : A → Type 0) (xs : List A) (x : A) → All P (xs ++ (x ∷ [])) → P x
last-All P [] x h = h.0
last-All P (y ∷ xs) x h = last-All P xs x h.1

get-stored :
    (id : Text) (r : RequestRecord) (after requests : Table RequestRecord)
    → after ≡ put id r requests
    → get id after ≡ some r
get-stored id r after requests h = rw (h, get-put id id r requests, text_eq_refl id) refl

-- A remembered request is answered from its record.
answer-get :
    (request_id again : Text) (apply : Plan → Result MutationError Outcome) (p : Plan)
    (r : RequestRecord)
    → get request_id p.requests ≡ some r
    → answer request_id again apply p ≡ (
        if text_eq r.digest again
        then ok (nothing, replay r)
        else err (different_payload request_id))
unfolding answer
answer-get request_id again apply p r h =
    rw h (elim (Bool-cases (text_eq r.digest again)) [ inl e ↦ rw e refl | inr e ↦ rw e refl ])

pub answer-put :
    (request_id again : Text) (apply : Plan → Result MutationError Outcome) (p : Plan)
    (r : RequestRecord) (requests : Table RequestRecord)
    → p.requests ≡ put request_id r requests
    → answer request_id again apply p ≡ (
        if text_eq r.digest again
        then ok (nothing, replay r)
        else err (different_payload request_id))
answer-put request_id again apply p r requests h =
    answer-get request_id again apply p r (get-stored request_id r p.requests requests h)

replay-event :
    (r : RequestRecord)
    → is_nil r.event_id ≡ false
    → replay r ≡ record {
      urn = r.resource;
      path = r.path;
      created = [];
      event_ids = r.event_id ∷ [];
      replayed = true;
    }
replay-event r h = elim (Bool-cases (is_nil r.resource)) [
  | inl e ↦ rw (h, e) refl
  | inr e ↦ rw (h, e) refl
]

module _ (lib : Library) (w : World) (plan : Plan) (request_id digest : Text) where
  -- The record that loading the event enters.
  abbrev pub progress_request : Text → Text → ProgressEvent → RequestRecord
  progress_request path item_id event =
      let e = stamp_progress lib w plan request_id digest item_id event in
      record {
        operation = codes "progress";
        digest = digest;
        resource = event_urn_for_work_item e.work_item (codes "progress-event") e.base.id;
        event_id = e.base.id;
        path = path;
      }

  load_progress-request :
      (path item_id : Text) (event : ProgressEvent) (item : WorkItem)
      (requests : Table RequestRecord)
      → is_nil (elements event.base.parents) ≡ false
      → load_progress path (stamp_progress lib w plan request_id digest item_id event) item requests
        ≡ (
          with_progress lib w plan request_id digest item item_id event,
          register_request requests request_id (progress_request path item_id event),
        )
  unfolding load_progress stamp_event
  load_progress-request path item_id event item requests h =
      rw (elements-empty_strings event.base.parents, h) refl

  replay-progress :
      (item_id : Text) (event : ProgressEvent) (out : Outcome)
      → is_nil (stamp_progress lib w plan request_id digest item_id event).base.id ≡ false
      → write_event w
          (item_events_dir item_id (codes "progress"))
          (progress_request [] item_id event).resource
          (progress_request [] item_id event).event_id
          (progress_event item_id (stamp_progress lib w plan request_id digest item_id event))
        ≡ ok out
      → replay (progress_request out.1.path item_id event) ≡ record out.1 { replayed = true }
  replay-progress item_id event out named wrote =
      let stamped = stamp_progress lib w plan request_id digest item_id event in
      replay-event (progress_request out.1.path item_id event) named
      ∙ sym (
          ap (λ (o : Outcome). record o.1 { path = out.1.path; replayed = true })
            (write_event-eq-ok lib w plan request_id digest _ _ _ (progress_event item_id stamped)
              out wrote))

  -- The requests when the event has been entered behind those of the plan.
  abbrev pub requests_after : WorkItem → Text → ProgressEvent → Text → Table RequestRecord
  requests_after item item_id event path =
      (load_progress path (stamp_progress lib w plan request_id digest item_id event) item
        plan.requests).1.0

  abbrev pub no_issues : Validation
  no_issues = record { valid = true; issues = [] }

  -- RecordProgress has written an event for a new request with a valid identifier and digest. The two
  -- loads of a later call with the same request may find any plans with any validations, where the
  -- second remembers the request as entering the event makes it. If both plans are valid, the call is
  -- answered as the first was if its payload is the same, and refused if it is another; if one is not
  -- valid, as behind an event called revision, whose file is checked as a revision's, the call is
  -- refused with its issues. Nothing is written in any case.
  pub mutate-replay :
      (item : WorkItem) (item_id : Text) (event : ProgressEvent) (out : Outcome)
      (before later : Plan) (u v : Validation) (again : Text)
      (apply : Text → Plan → Result MutationError Outcome)
      → valid_request_id request_id ≡ true
      → is_digest digest ≡ true
      → get request_id plan.requests ≡ none
      → record_progress_of lib w plan request_id digest item item_id event ≡ ok out
      → get request_id later.requests
        ≡ get request_id (requests_after item item_id event out.1.path)
      → mutate request_id lib (some again) (ok (before, u)) none (ok (later, v)) apply ≡ (
          if not u.valid
          then err (invalid_plan (join_issues lib u.issues))
          else if not v.valid
          then err (invalid_plan (join_issues lib v.issues))
          else if text_eq digest again
          then ok (nothing, record out.1 { replayed = true })
          else err (different_payload request_id))
  unfolding mutate
  mutate-replay item item_id event out before later u v again apply name d new h remembered =
      let (limit, same, single, some_head, valid, wrote) =
        record_progress_of-eq-ok lib w plan request_id digest item item_id event out h in
      let stamped = stamp_progress lib w plan request_id digest item_id event in
      let checked =
        (validate_candidate_item-eq-ok lib plan w request_id digest
          (with_progress lib w plan request_id digest item item_id event) valid).1 in
      let named =
        progress_issues-id lib plan (with_progress lib w plan request_id digest item item_id event)
          stamped (last-All _ item.progress stamped checked) in
      let stored =
        ap (λ (l : WorkItem × Registered). l.1.0)
          (load_progress-request out.1.path item_id event item plan.requests
            (same_set-nil (elements event.base.parents) (progress_heads item).0 same some_head))
        ∙ ap (λ (r : Registered). r.0)
            (register_request-get plan.requests request_id
              (progress_request out.1.path item_id event) name d new) in
      let found =
        remembered
        ∙ get-stored request_id (progress_request out.1.path item_id event)
            (requests_after item item_id event out.1.path) plan.requests stored in
      elim (Bool-cases u.valid) [
        | inl a ↦ elim (Bool-cases v.valid) [
          | inl b ↦
              rw (name, a, b)
                (answer-get request_id again (apply again) later
                    (progress_request out.1.path item_id event) found
                  ∙ ap
                      (λ r.
                        if text_eq digest again
                        then ok (nothing, r)
                        else err (different_payload request_id))
                      (replay-progress item_id event out named wrote))
          | inr b ↦ rw (name, a, b) refl
        ]
        | inr a ↦ rw (name, a) refl
      ]
