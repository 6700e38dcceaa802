-- ===== src/WorkPlan/Mutations/Requests.antt =====
-- internal/workplan/load.go and mutation.go: the requests that a plan remembers (`registerRequest`,
-- with the callbacks of `scanItemEvents`, `scanContracts` and `scanDependencies` that enter the records), and `mutate`,
-- which answers a request that was made before from them. The two loads and the lock are parameters.
use changesaga.Prelude.{
  Bool, true, not, ◌&&◌, ◌||◌, Option, none, some, List, [], ◌∷◌, ◌++◌, Text, codes, text_eq, Table,
  get, put, has_key, Result, ok, err, ◌>>=◌, ◌>>◌, require, if◌then◌else◌,
}
use changesaga.WorkPlan.Records.{
  ProgressEvent, WorkspaceEvent, MergeEvent, WorkItem, ContractEvent, Contract, RequestRecord,
  Issue, Dependency, Validation, Plan, elements,
}
use changesaga.WorkPlan.Nodes.{is_nil, error_if}
use changesaga.WorkPlan.Readiness.{event_urn_for_work_item, event_urn_for_contract}
use changesaga.WorkPlan.Checks.{Library, valid_request_id, is_digest}
use changesaga.WorkPlan.Mutations.{
  MutationResult, nothing, MutationError, not_marshalled, invalid_request_id, load_failed,
  invalid_plan, not_locked, different_payload, Outcome, done_or, found_or, join_issues,
}

-- The requests, with the issues that entering one adds.
abbrev pub Registered : Type 0
Registered = Table RequestRecord × List Issue

-- The requests agree, as far as both name an event.
abbrev pub same_request : RequestRecord → RequestRecord → Bool
same_request prior r =
    text_eq prior.operation r.operation
    && text_eq prior.digest r.digest
    && text_eq prior.resource r.resource
    && (is_nil prior.event_id || is_nil r.event_id || text_eq prior.event_id r.event_id)

abbrev pub register_again : Table RequestRecord → Text → RequestRecord → RequestRecord → Registered
register_again requests id prior r =
    if same_request prior r
    then (
      if is_nil prior.event_id
          then put id (record prior { event_id = r.event_id }) requests
          else requests,
      [],
    )
    else (requests, error_if true r.path (codes "request id is reused by a different mutation"))

-- `registerRequest`
unfoldable pub register_request : Table RequestRecord → Text → RequestRecord → Registered
unfolding text_eq get put valid_request_id is_digest
register_request requests id r =
    if is_nil id && is_nil r.digest
    then (requests, [])
    else if not (valid_request_id id) || not (is_digest r.digest)
    then (
      requests,
      error_if true r.path (codes "request id requires a stable id and request digest"),
    )
    else enter (get id requests)
  where
    enter : Option RequestRecord → Registered
    enter none = (put id r requests, [])
    enter (some prior) = register_again requests id prior r

-- The callback on an event of a stream: the event goes to the end, and its request is entered.
unfoldable pub load_progress :
    Text → ProgressEvent → WorkItem → Table RequestRecord → WorkItem × Registered
unfolding register_request text_eq
load_progress path e item requests =
    let urn = event_urn_for_work_item e.work_item (codes "progress-event") e.base.id in
    let creates = is_nil (elements e.base.parents) && text_eq e.state (codes "planned") in
    (
      record item { progress = item.progress ++ (e ∷ []) },
      register_request requests e.base.request_id (record {
        operation = if creates then codes "work-item-create" else codes "progress";
        digest = e.base.request_digest;
        resource = if creates then e.work_item else urn;
        event_id = e.base.id;
        path = path;
      }),
    )

unfoldable pub load_workspace :
    Text → WorkspaceEvent → WorkItem → Table RequestRecord → WorkItem × Registered
unfolding register_request
load_workspace path e item requests = (
  record item { workspaces = item.workspaces ++ (e ∷ []) },
  register_request requests e.base.request_id (record {
    operation = codes "workspace";
    digest = e.base.request_digest;
    resource = event_urn_for_work_item e.work_item (codes "workspace-event") e.base.id;
    event_id = e.base.id;
    path = path;
  }),
)

unfoldable pub load_merge :
    Text → MergeEvent → WorkItem → Table RequestRecord → WorkItem × Registered
unfolding register_request
load_merge path e item requests = (
  record item { merges = item.merges ++ (e ∷ []) },
  register_request requests e.base.request_id (record {
    operation = codes "merge";
    digest = e.base.request_digest;
    resource = event_urn_for_work_item e.work_item (codes "merge-event") e.base.id;
    event_id = e.base.id;
    path = path;
  }),
)

unfoldable pub load_contract_event :
    Text → ContractEvent → Contract → Table RequestRecord → Contract × Registered
unfolding register_request text_eq
load_contract_event path e contract requests =
    let urn = event_urn_for_contract e.contract e.base.id in
    let creates = is_nil (elements e.base.parents) && text_eq e.state (codes "proposed") in
    (
      record contract { events = contract.events ++ (e ∷ []) },
      register_request requests e.base.request_id (record {
        operation = if creates then codes "contract-create" else codes "contract-state";
        digest = e.base.request_digest;
        resource = if creates then e.contract else urn;
        event_id = e.base.id;
        path = path;
      }),
    )

-- The callback of `scanDependencies` behind the reading of the record.
unfoldable pub load_dependency :
    Text
    → Dependency
    → Table Dependency
    → Table RequestRecord
    → Table Dependency × List Issue × Registered
unfolding register_request get put
load_dependency path d dependencies requests =
    let registered = register_request requests d.request_id (record {
      operation = codes "dependency-create";
      digest = d.request_digest;
      resource = d.id;
      event_id = [];
      path = path;
    }) in
    if has_key d.id dependencies
    then (dependencies, error_if true path (codes "duplicate dependency id"), registered)
    else (put d.id d dependencies, [], registered)

-- What `Load` returns, or its error.
abbrev pub Loaded : Type 0
Loaded = Result Text (Plan × Validation)

abbrev pub loaded_plan : Library → Loaded → Result MutationError Plan
loaded_plan lib (err e) = err (load_failed e)
loaded_plan lib (ok (plan, v)) =
    require v.valid (invalid_plan (join_issues lib v.issues)) >> ok plan

-- The result of a request that the plan remembers.
abbrev pub replay : RequestRecord → MutationResult
replay prior = record {
  urn = prior.resource;
  path = prior.path;
  created =
      if not (is_nil prior.resource) && is_nil prior.event_id then prior.resource ∷ [] else [];
  event_ids = if not (is_nil prior.event_id) then prior.event_id ∷ [] else [];
  replayed = true;
}

module _ (request_id : Text) where
  -- Behind the second load: a remembered request is answered, a new one is applied.
  unfoldable pub answer :
      Text → (Plan → Result MutationError Outcome) → Plan → Result MutationError Outcome
  unfolding text_eq get
  answer digest apply plan = of_prior (get request_id plan.requests)
    where
      of_prior : Option RequestRecord → Result MutationError Outcome
      of_prior none = apply plan
      of_prior (some prior) =
          require (text_eq prior.digest digest) (different_payload request_id)
          >> ok (nothing, replay prior)

  -- `mutate` behind `requestDigest`, with the load before the lock, the lock, and the load under it.
  unfoldable pub mutate :
      Library
      → Option Text
      → Loaded
      → Option Text
      → Loaded
      → (Text → Plan → Result MutationError Outcome)
      → Result MutationError Outcome
  unfolding valid_request_id join_issues answer
  mutate lib digest before lock under apply = found_or not_marshalled digest >>= λ d.
      require (valid_request_id request_id) invalid_request_id
      >> (loaded_plan lib before >>= λ p.
          done_or not_locked lock >> (loaded_plan lib under >>= λ plan. answer d (apply d) plan))
