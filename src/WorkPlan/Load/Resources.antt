-- ===== src/WorkPlan/Load/Resources.antt =====
-- internal/workplan/load.go: the packages of waves, work items, contracts and dependencies.
use changesaga.Prelude.{
  Bool, true, false, not, Option, none, some, List, [], ◌∷◌, ◌++◌, Text, codes, text_eq, Table, put,
  get, has_key, Result, ok, err, ◌>>=◌, if◌then◌else◌,
}
use changesaga.WorkPlan.Records.{Identity, Wave, WorkItem, Contract, Dependency, Issue, Plan}
use changesaga.WorkPlan.Nodes.{add_issues}
use changesaga.WorkPlan.Mutations.Requests.{
  Registered, register_request, load_progress, load_workspace, load_merge, load_contract_event,
  load_dependency,
}
use changesaga.WorkPlan.Load.Disk.{Node, Reader, child, read_dir, read_strict_json, real_dir, under}
use changesaga.WorkPlan.Load.Walks.{Walk, add_error, check_package_id, each_entry, ensure_only}
use changesaga.WorkPlan.Load.Files.{read_record, scan_event_files, scan_revisions}
use changesaga.WorkPlan.Load.Parts.{
  Part, load_contract_revision, load_event, load_wave_revision, load_work_item_revision,
  new_contract, new_wave, new_work_item, put_contract, put_wave, put_work_item,
}

module _ (reader : Reader) where
  -- What the packages of a wave, a work item and a contract share: the record with the identity, whose
  -- file and kind have a name, the check of its identifier, the resource's own directories, the entry
  -- of the resource, and the other entries of the package.
  unfoldable pub scan_resource :
      {A : Type 0}
      → Text
      → (Plan → Text → Bool)
      → (Identity → A)
      → (Text → Node → Part A → Result Text (Part A))
      → (Text → A × Plan → Plan)
      → Table Bool
      → Text
      → Text
      → Node
      → Walk Plan
      → Result Text (Walk Plan)
  unfolding read_strict_json child ensure_only
  scan_resource {A} kind exists start scan enter allowed path name node (plan, v) = of_read (
      read_strict_json reader reader.decode_identity (under path (kind ++ codes ".json"))
        (child node (kind ++ codes ".json")))
    where
      -- The resource with what was found, in the plan.
      finish : Identity → Part A → Result Text (Walk Plan)
      finish identity (part, issues) =
          ensure_only path node ((kind ++ codes ".json", false) ∷ allowed)
            (enter identity.id part, issues)

      of_read : Result Text Identity → Result Text (Walk Plan)
      of_read (err e) = ok (add_error (under path (kind ++ codes ".json")) e (plan, v))
      of_read (ok identity) =
          let checked = check_package_id path name identity.id (plan, v) in
          if exists plan identity.id
          then ok (add_error path (codes "duplicate " ++ (kind ++ codes " id")) checked)
          else (scan path node ((start identity, plan), checked.1) >>= finish identity)

  abbrev pub scan_wave_parts : Text → Node → Part Wave → Result Text (Part Wave)
  scan_wave_parts = scan_revisions λ path.
      read_record reader reader.decode_wave_revision (λ r. r.id) (load_wave_revision path) path

  -- The package of a wave.
  unfoldable pub scan_wave : Text → Text → Node → Walk Plan → Result Text (Walk Plan)
  unfolding scan_resource scan_revisions read_record register_request get put text_eq
  scan_wave =
      scan_resource (codes "wave") (λ plan id. has_key id plan.waves) new_wave scan_wave_parts
        put_wave ((codes "revisions", true) ∷ [])

  -- One entry of the directory with the streams of an item.
  unfoldable pub scan_stream : Text → Text → Node → Part WorkItem → Result Text (Part WorkItem)
  unfolding scan_event_files read_record load_progress load_workspace load_merge text_eq
  scan_stream dir_path name node w =
      if not (real_dir node)
      then ok (add_error (under dir_path name) (codes "event stream must be a real directory") w)
      else if text_eq name (codes "progress")
      then scan_event_files
          (λ path.
            read_record reader reader.decode_progress (λ e. e.base.id)
              (load_event load_progress path) path)
          (under dir_path name) node w
      else if text_eq name (codes "workspaces")
      then scan_event_files
          (λ path.
            read_record reader reader.decode_workspace (λ e. e.base.id)
              (load_event load_workspace path) path)
          (under dir_path name) node w
      else if text_eq name (codes "merges")
      then scan_event_files
          (λ path.
            read_record reader reader.decode_merge (λ e. e.base.id) (load_event load_merge path)
              path)
          (under dir_path name) node w
      else ok (add_error (under dir_path name) (codes "unknown work-item event stream") w)

  -- The directory of the events of a resource, if there is one.
  abbrev pub scan_events :
      {A : Type 0}
      → (Text → Node → Part A → Result Text (Part A))
      → Text
      → Option Node
      → Part A
      → Result Text (Part A)
  scan_events scan path none w = ok w
  scan_events scan path (some node) w =
      if not (real_dir node)
      then ok (add_error path (codes "events must be a real directory") w)
      else scan path node w

  abbrev pub scan_streams : Text → Node → Part WorkItem → Result Text (Part WorkItem)
  scan_streams dir_path streams w = do
    entries ← read_dir streams
    each_entry (scan_stream dir_path) entries w

  -- `scanItemEvents`
  unfoldable pub scan_item_events : Text → Node → Part WorkItem → Result Text (Part WorkItem)
  unfolding child each_entry scan_stream
  scan_item_events path node =
      scan_events scan_streams (under path (codes "events")) (child node (codes "events"))

  abbrev pub scan_work_item_parts : Text → Node → Part WorkItem → Result Text (Part WorkItem)
  scan_work_item_parts path node w =
      scan_revisions
        (λ p.
          read_record reader reader.decode_work_item_revision (λ r. r.id)
            (load_work_item_revision p) p)
        path node w
      >>= scan_item_events path node

  -- The package of a work item.
  unfoldable pub scan_work_item : Text → Text → Node → Walk Plan → Result Text (Walk Plan)
  unfolding scan_resource scan_revisions read_record register_request scan_item_events get put
      text_eq
  scan_work_item =
      scan_resource (codes "work-item") (λ plan id. has_key id plan.work_items) new_work_item
        scan_work_item_parts put_work_item ((codes "revisions", true) ∷ (codes "events", true) ∷ [])

  abbrev pub scan_contract_events : Text → Node → Part Contract → Result Text (Part Contract)
  scan_contract_events = scan_event_files λ p.
      read_record reader reader.decode_contract_event (λ e. e.base.id)
        (load_event load_contract_event p) p

  abbrev pub scan_contract_parts : Text → Node → Part Contract → Result Text (Part Contract)
  scan_contract_parts path node w =
      scan_revisions
        (λ p.
          read_record reader reader.decode_contract_revision (λ r. r.id) (load_contract_revision p)
            p)
        path node w
      >>= scan_events scan_contract_events (under path (codes "events"))
          (child node (codes "events"))

  -- The package of a contract.
  unfoldable pub scan_contract : Text → Text → Node → Walk Plan → Result Text (Walk Plan)
  unfolding scan_resource scan_revisions scan_event_files read_record register_request
      load_contract_event child get put text_eq
  scan_contract =
      scan_resource (codes "contract") (λ plan id. has_key id plan.contracts) new_contract
        scan_contract_parts put_contract ((codes "revisions", true) ∷ (codes "events", true) ∷ [])

  -- The plan with the dependency and its request, and the issues of both.
  abbrev pub keep_dependency : Table Dependency × List Issue × Registered → Walk Plan → Walk Plan
  keep_dependency (dependencies, issues, (requests, more)) (plan, v) = (
    record plan { dependencies = dependencies; requests = requests },
    add_issues v (issues ++ more),
  )

  -- The package of a dependency.
  unfoldable pub scan_dependency : Text → Text → Node → Walk Plan → Result Text (Walk Plan)
  unfolding read_strict_json child ensure_only load_dependency
  scan_dependency dir_path name node (plan, v) =
      of_read (
        read_strict_json reader reader.decode_dependency path
          (child node (codes "dependency.json")))
    where
      path : Text
      path = under dir_path (codes "dependency.json")

      of_read : Result Text Dependency → Result Text (Walk Plan)
      of_read (err e) = ok (add_error path e (plan, v))
      of_read (ok d) = ensure_only dir_path node ((codes "dependency.json", false) ∷ []) (
          keep_dependency (load_dependency path d plan.dependencies plan.requests)
            (check_package_id dir_path name d.id (plan, v)))
