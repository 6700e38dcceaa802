-- ===== src/WorkPlan/Mutations/Contracts.antt =====
-- internal/workplan/mutation.go: `CreateContract` and `ReviseContract`, behind the lock and the look-up
-- of the request.
use changesaga.Prelude.{
  ℕ, not, ◌&&◌, none, [], ◌∷◌, ◌++◌, Text, codes, text_eq, length, ltb, get, put, has_key, Result,
  ◌>>=◌, ◌>>◌, require,
}
use changesaga.LivingId.{contract, valid_id}
use changesaga.LivingId.Parse
use changesaga.LivingId.Urns.{contract_urn, definition_revision_urn}
use changesaga.WorkPlan.Records.{ContractRevision, Contract, ContractEvent, Plan, slice, elements}
use changesaga.WorkPlan.Nodes.{is_nil}
use changesaga.WorkPlan.Checks.{Library, root_dir, schema, version, has_errors, in_saga}
use changesaga.WorkPlan.Items.{text_or_empty, revision_urn_of}
use changesaga.WorkPlan.Contracts.{validate_contract}
use changesaga.WorkPlan.Mutations.{
  contract_package, contract_revision, MutationError, does_not_exist, limit_reached, head_conflict,
  invalid_id, invalid_reference, cannot_have_parents, already_exists, invalid_candidate,
  not_written, Outcome, World, max_revisions_per_resource, done_or, found_or, empty_strings,
  stamp_time, commit, first_event, new_identity, same_set, join_issues,
}

abbrev pub max_contracts : ℕ
max_contracts = 20000

abbrev pub contract_dir : Text → Text
contract_dir id = root_dir ++ (codes "/contracts/" ++ (id ++ codes ".contract"))

module _ (lib : Library) (w : World) (plan : Plan) (request_id digest : Text) where
  abbrev pub stamp_contract_revision : ContractRevision → ContractRevision
  stamp_contract_revision r = record r {
    schema = schema (codes "workplan-revision");
    version = version;
    parents = empty_strings r.parents;
    acceptance = empty_strings r.acceptance;
    created_at = stamp_time w r.created_at;
    request_id = request_id;
    request_digest = digest;
  }

  abbrev pub proposed : Text → ContractEvent
  proposed id = record {
    base = first_event w request_id digest;
    contract = text_or_empty (contract_urn plan.saga_id id);
    state = codes "proposed";
    evidence = slice [];
  }

  abbrev pub new_contract : Text → ContractRevision → Contract
  new_contract id r = record {
    identity = new_identity w (codes "contract") id;
    revisions =
        stamp_contract_revision
          (record r { contract = text_or_empty (contract_urn plan.saga_id id) })
        ∷ [];
    heads = [];
    events = proposed id ∷ [];
    current_revision = none;
    current_event = none;
  }

  -- The body of `CreateContract`. The copy of the plan that it validates has the contract.
  unfoldable pub create_contract : Text → ContractRevision → Result MutationError Outcome
  unfolding valid_id get put contract_urn validate_contract has_errors join_issues commit
  create_contract id r =
      let urn = text_or_empty (contract_urn plan.saga_id id) in
      let stamped = stamp_contract_revision (record r { contract = urn }) in
      let candidate = new_contract id r in
      let probe = record plan { contracts = put id candidate plan.contracts } in
      let issues = (validate_contract lib probe candidate).issues in
      require (valid_id id && valid_id r.id) invalid_id
      >> (require (not (has_key id plan.contracts)) (already_exists id)
          >> (require (ltb (length plan.contracts) max_contracts)
                (limit_reached (codes "contract") max_contracts)
              >> (require (is_nil (elements r.parents)) (cannot_have_parents (codes "contract"))
                  >> (require (not (has_errors issues))
                        (invalid_candidate (codes "contract") (join_issues lib issues))
                      >> (done_or not_written (w.ensure_dir (root_dir ++ codes "/contracts"))
                          >> commit w (contract_dir id) urn (urn ∷ []) (w.event_id w.now ∷ []) (
                              contract_package (new_identity w (codes "contract") id) stamped
                                (proposed id)))))))

  unfoldable pub revise_contract_of :
      Text → Contract → ContractRevision → Result MutationError Outcome
  unfolding same_set valid_id validate_contract has_errors join_issues definition_revision_urn
      commit
  revise_contract_of id old r =
      let stamped = stamp_contract_revision r in
      let issues =
        (validate_contract lib plan
          (record old { revisions = old.revisions ++ (stamped ∷ []) })).issues in
      let urn = revision_urn_of plan.saga_id contract id r.id in
      require (same_set (elements r.parents) old.heads)
        (head_conflict (codes "contract revision") old.heads)
      >> (require (valid_id r.id) invalid_id
          >> (require (ltb (length old.revisions) max_revisions_per_resource)
                (limit_reached (codes "revision") max_revisions_per_resource)
              >> (require (not (has_errors issues))
                    (invalid_candidate (codes "contract revision") (join_issues lib issues))
                  >> commit w
                      (contract_dir id ++ (codes "/revisions/" ++ (r.id ++ codes ".revision"))) urn
                      (urn ∷ []) [] (contract_revision id stamped))))

  -- The body of `ReviseContract`.
  unfoldable pub revise_contract : ContractRevision → Result MutationError Outcome
  unfolding Parse.parse text_eq get revise_contract_of
  revise_contract r =
      found_or (invalid_reference (codes "contract"))
        (in_saga plan.saga_id contract (Parse.parse r.contract))
      >>= λ ref. found_or (does_not_exist (codes "contract")) (get ref.id plan.contracts) >>= λ old.
          revise_contract_of ref.id old r
