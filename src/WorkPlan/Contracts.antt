-- ===== src/WorkPlan/Contracts.antt =====
-- internal/workplan/validate.go: `validateContract` and `validateWave`.
use changesaga.Prelude.{
  true, not, ◌&&◌, ◌||◌, List, [], ◌∷◌, ◌++◌, map, Text, codes, text_eq, has, has_suffix,
  sort_texts, ◌==◌,
}
use changesaga.LivingId.{wave, contract, valid_id}
use changesaga.LivingId.Urns.{wave_urn, contract_urn, definition_revision_urn}
use changesaga.WorkPlan.Records.{
  WaveRevision, Wave, ContractRevision, ContractEvent, Contract, Issue, Plan, elements, is_null,
}
use changesaga.WorkPlan.Graph.{EventNode}
use changesaga.WorkPlan.Nodes.{
  error_if, is_nil, duplicate_strings, validate_revision_graph, validate_event_graph,
}
use changesaga.WorkPlan.Readiness.{event_urn_for_contract}
use changesaga.WorkPlan.Checks.{
  Library, root_dir, version, schema, all_issues, each_issues, one_of, valid_time, request_issues,
  identity_issues, event_base_issues, reference_is, work_item_reference, is_blank,
  string_list_issues,
}
use changesaga.WorkPlan.Items.{
  Checked, conflict_if_many, event_graph_issues, event_graph_heads, revision_graph_issues,
  revision_graph_heads, text_or_empty, revision_urn_of, find_single, names_revision, stream_path,
  revision_path,
}

module _ (lib : Library) (plan : Plan) where
  unfoldable pub wave_revision_issues : Text → Text → WaveRevision → List Issue
  unfolding text_eq valid_id request_issues reference_is duplicate_strings
  wave_revision_issues wave_id path r = all_issues (
      error_if
        (not (text_eq r.schema (schema (codes "workplan-revision")))
          || not (r.version == version)
          || not (valid_id r.id)
          || not (valid_time r.created_at)
          || is_blank lib r.title
          || is_blank lib r.objective)
        path
        (codes
          "wave revision requires the v3 revision schema, stable id, title, objective, and UTC creation time")
      ∷ request_issues path r.request_id r.request_digest
      ∷ error_if (is_null r.parents || is_null r.entry_conditions || is_null r.exit_conditions) path
          (codes "wave revision collections must be arrays, not null")
      ∷ error_if (not (reference_is r.wave plan.saga_id wave wave_id)) path
          (codes "wave revision target does not match its package")
      ∷ error_if (duplicate_strings (elements r.parents)) path
          (codes "revision parents must be unique")
      ∷ [])

  -- `validateWave`
  unfoldable pub validate_wave : Wave → Checked Wave
  unfolding identity_issues wave_revision_issues validate_revision_graph has_suffix sort_texts
      definition_revision_urn wave_urn
  validate_wave w =
      let id = w.identity.id in
      let base = root_dir ++ (codes "/waves/" ++ (id ++ codes ".wave")) in
      let nodes =
        map
          (λ (r : WaveRevision). record {
            id = revision_urn_of plan.saga_id wave id r.id;
            parents = elements r.parents;
          })
          w.revisions in
      let heads = revision_graph_heads base nodes in
      record {
        resource = record w {
          heads = heads;
          current_revision =
              find_single (λ h (r : WaveRevision). names_revision h r.id) w.revisions heads
                w.current_revision;
        };
        issues = all_issues (
            identity_issues (base ++ codes "/wave.json") (schema (codes "wave")) w.identity
            ∷ each_issues
                (λ (r : WaveRevision). wave_revision_issues id (revision_path base r.id) r)
                w.revisions
            ∷ revision_graph_issues base nodes
            ∷ []);
        conflicts =
            conflict_if_many (codes "wave_revision_heads")
              (text_or_empty (wave_urn plan.saga_id id)) heads;
      }

  unfoldable pub contract_revision_issues : Text → Text → ContractRevision → List Issue
  unfolding text_eq valid_id has request_issues reference_is work_item_reference string_list_issues
  contract_revision_issues contract_id path r = all_issues (
      error_if
        (not (text_eq r.schema (schema (codes "workplan-revision")))
          || not (r.version == version)
          || not (valid_id r.id)
          || not (valid_time r.created_at)
          || not (
              one_of r.kind (
                codes "deliverable"
                ∷ codes "interface"
                ∷ codes "handoff"
                ∷ codes "quality_gate"
                ∷ []))
          || is_blank lib r.statement
          || is_nil (elements r.acceptance))
        path
        (codes
          "contract revision requires the v3 revision schema, valid kind, statement, acceptance checks, and UTC creation time")
      ∷ request_issues path r.request_id r.request_digest
      ∷ error_if (is_null r.parents || is_null r.acceptance) path
          (codes "contract revision collections must be arrays, not null")
      ∷ error_if (not (reference_is r.contract plan.saga_id contract contract_id)) path
          (codes "contract revision target does not match its package")
      ∷ error_if
          (not (work_item_reference plan r.provider) || not (work_item_reference plan r.consumer))
          path (codes "contract provider and consumer must be existing work items")
      ∷ string_list_issues lib path (codes "acceptance") (elements r.acceptance) true
      ∷ [])

  unfoldable pub contract_event_issues : Text → Text → ContractEvent → List Issue
  unfolding event_base_issues reference_is has
  contract_event_issues contract_id path e = all_issues (
      event_base_issues path e.base
      ∷ error_if (not (reference_is e.contract plan.saga_id contract contract_id)) path
          (codes "contract event target does not match package")
      ∷ error_if
          (not (
            one_of e.state (
              codes "proposed"
              ∷ codes "accepted"
              ∷ codes "fulfilled"
              ∷ codes "violated"
              ∷ codes "waived"
              ∷ [])))
          path (codes "invalid contract state")
      ∷ error_if (is_null e.evidence) path (codes "contract evidence must be an array, not null")
      ∷ error_if
          (one_of e.state (codes "fulfilled" ∷ codes "violated" ∷ codes "waived" ∷ [])
            && is_blank lib e.base.summary)
          path (codes "fulfilled, violated, and waived contract events require a summary")
      ∷ [])

  abbrev pub contract_node : ContractEvent → EventNode
  contract_node e = record {
    id = event_urn_for_contract e.contract e.base.id;
    parents = elements e.base.parents;
    state = e.state;
  }

  -- `validateContract`
  unfoldable pub validate_contract : Contract → Checked Contract
  unfolding identity_issues contract_revision_issues contract_event_issues validate_revision_graph
      validate_event_graph has_suffix text_eq sort_texts definition_revision_urn contract_urn
  validate_contract c =
      let id = c.identity.id in
      let urn = text_or_empty (contract_urn plan.saga_id id) in
      let base = root_dir ++ (codes "/contracts/" ++ (id ++ codes ".contract")) in
      let nodes =
        map
          (λ (r : ContractRevision). record {
            id = revision_urn_of plan.saga_id contract id r.id;
            parents = elements r.parents;
          })
          c.revisions in
      let heads = revision_graph_heads base nodes in
      let events = map contract_node c.events in
      let events_path = base ++ codes "/events" in
      let event_heads = event_graph_heads events_path events true in
      record {
        resource = record c {
          heads = heads;
          current_revision =
              find_single (λ h (r : ContractRevision). names_revision h r.id) c.revisions heads
                c.current_revision;
          current_event =
              find_single (λ h (e : ContractEvent). text_eq (contract_node e).id h) c.events
                event_heads c.current_event;
        };
        issues = all_issues (
            identity_issues (base ++ codes "/contract.json") (schema (codes "contract")) c.identity
            ∷ each_issues
                (λ (r : ContractRevision). contract_revision_issues id (revision_path base r.id) r)
                c.revisions
            ∷ revision_graph_issues base nodes
            ∷ each_issues
                (λ (e : ContractEvent).
                  contract_event_issues id (stream_path base (codes "/events/") e.base) e)
                c.events
            ∷ event_graph_issues events_path events true
            ∷ []);
        conflicts =
            conflict_if_many (codes "contract_revision_heads") urn heads
            ++ conflict_if_many (codes "contract_event_heads") urn event_heads;
      }
