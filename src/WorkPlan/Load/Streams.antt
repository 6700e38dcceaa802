-- ===== src/WorkPlan/Load/Streams.antt =====
-- internal/workplan/load.go: the revisions and events of a resource change only its own part of a plan
-- and the requests.
use changesaga.Prelude.{
  ◌≡◌, not, inl, inr, Option, none, some, Text, codes, text_eq, Bool-cases, subst, Table, Result,
  ok, ok-injective, >>=-eq-ok,
}
use changesaga.WorkPlan.Records.{Wave, WorkItem, Contract, RequestRecord, Plan}
use changesaga.WorkPlan.Mutations.Requests.{
  Registered, load_progress, load_workspace, load_merge, load_contract_event,
}
use changesaga.WorkPlan.Load.Disk.{Node, Reader, child, read_dir, real_dir, under}
use changesaga.WorkPlan.Load.Files.{read_record, scan_event_files, scan_revisions}
use changesaga.WorkPlan.Load.Parts.{
  Part, keep_registered, load_contract_revision, load_event, load_wave_revision,
  load_work_item_revision, set_requests,
}
use changesaga.WorkPlan.Load.Resources.{
  scan_contract_events, scan_contract_parts, scan_events, scan_item_events, scan_stream,
  scan_streams, scan_wave_parts, scan_work_item_parts,
}
use changesaga.WorkPlan.Load.Kept.{
  Extends, Extends-refl, Extends-trans, clean_before, add_issues-Extends, each_entry-Extends,
  read_record-Extends, scan_revisions-Extends, scan_event_files-Extends,
}

module _ {X : Type 0} (reader : Reader) (part : Plan → X)
    (same : (plan : Plan) (requests : Table RequestRecord)
      → part (set_requests plan requests) ≡ part plan) where
  -- The part of a plan that a resource stands beside.
  abbrev beside : {A : Type 0} → A × Plan → X
  beside s = part s.1

  keep_registered-Extends :
      {A : Type 0} (r : A × Registered) (w : Part A) → Extends beside w (keep_registered r w)
  keep_registered-Extends (resource, (requests, issues)) ((old, plan), v) h =
      (clean_before v issues h, same plan requests)

  -- A stream of events that are read, checked and entered.
  event_files-Extends :
      {A E : Type 0} (decode : Text → Result Text E) (id_of : E → Text)
      (load : Text → E → A → Table RequestRecord → A × Registered) (path : Text) (node : Node)
      (w x : Part A)
      → scan_event_files (λ p. read_record reader decode id_of (load_event load p) p) path node w
        ≡ ok x
      → Extends beside w x
  event_files-Extends decode id_of load = scan_event_files-Extends beside _ λ p n w.
      read_record-Extends beside reader decode id_of (load_event load p)
        (λ e y. keep_registered-Extends (load p e y.0.0 y.0.1.requests) y) p n w

  revisions-Extends :
      {A R : Type 0} (decode : Text → Result Text R) (id_of : R → Text)
      (load : Text → R → Part A → Part A)
      → ((path : Text) (r : R) (w : Part A) → Extends beside w (load path r w))
      → (path : Text) (node : Node) (w x : Part A)
      → scan_revisions (λ p. read_record reader decode id_of (load p) p) path node w ≡ ok x
      → Extends beside w x
  revisions-Extends decode id_of load kept =
      scan_revisions-Extends beside _
        λ p n w. read_record-Extends beside reader decode id_of (load p) (λ r y. kept p r y) p n w

  scan_events-Extends :
      {A : Type 0} (scan : Text → Node → Part A → Result Text (Part A))
      → ((path : Text) (node : Node) (w x : Part A) → scan path node w ≡ ok x → Extends beside w x)
      → (path : Text) (node : Option Node) (w x : Part A)
      → scan_events reader scan path node w ≡ ok x
      → Extends beside w x
  scan_events-Extends scan kept path none w x h =
      subst (Extends beside w) (ok-injective h) (Extends-refl beside w)
  scan_events-Extends scan kept path (some node) w x h = elim (Bool-cases (not (real_dir node))) [
    | inl e ↦ subst (Extends beside w) (ok-injective (rw e at h)) (add_issues-Extends beside w _)
    | inr e ↦ kept path node w x (rw e at h)
  ]

  scan_stream-Extends :
      (dir_path name : Text) (node : Node) (w x : Part WorkItem)
      → scan_stream reader dir_path name node w ≡ ok x
      → Extends beside w x
  unfolding scan_stream
  scan_stream-Extends dir_path name node w x h = elim (Bool-cases (not (real_dir node))) [
    | inl e ↦ subst (Extends beside w) (ok-injective (rw e at h)) (add_issues-Extends beside w _)
    | inr e ↦ elim (Bool-cases (text_eq name (codes "progress"))) [
      | inl f ↦
          event_files-Extends reader.decode_progress (λ v. v.base.id) load_progress
            (under dir_path name) node w x (rw (e, f) at h)
      | inr f ↦ elim (Bool-cases (text_eq name (codes "workspaces"))) [
        | inl g ↦
            event_files-Extends reader.decode_workspace (λ v. v.base.id) load_workspace
              (under dir_path name) node w x (rw (e, f, g) at h)
        | inr g ↦ elim (Bool-cases (text_eq name (codes "merges"))) [
          | inl k ↦
              event_files-Extends reader.decode_merge (λ v. v.base.id) load_merge
                (under dir_path name) node w x (rw (e, f, g, k) at h)
          | inr k ↦
              subst (Extends beside w) (ok-injective (rw (e, f, g, k) at h))
                (add_issues-Extends beside w _)
        ]
      ]
    ]
  ]

  scan_streams-Extends :
      (path : Text) (node : Node) (w x : Part WorkItem)
      → scan_streams reader path node w ≡ ok x
      → Extends beside w x
  scan_streams-Extends path node w x h =
      let (es, listed, loop) = >>=-eq-ok (read_dir node) _ h in
      each_entry-Extends beside (scan_stream reader path) (scan_stream-Extends path) es w x loop

  scan_item_events-Extends :
      (path : Text) (node : Node) (w x : Part WorkItem)
      → scan_item_events reader path node w ≡ ok x
      → Extends beside w x
  unfolding scan_item_events
  scan_item_events-Extends path node w x h =
      scan_events-Extends (scan_streams reader) scan_streams-Extends (under path (codes "events"))
        (child node (codes "events")) w x h

  pub scan_wave_parts-Extends :
      (path : Text) (node : Node) (w x : Part Wave)
      → scan_wave_parts reader path node w ≡ ok x
      → Extends beside w x
  scan_wave_parts-Extends =
      revisions-Extends reader.decode_wave_revision (λ r. r.id) load_wave_revision
        (λ path r w h. (clean_before w.1 _ h, same w.0.1 _))

  pub scan_work_item_parts-Extends :
      (path : Text) (node : Node) (w x : Part WorkItem)
      → scan_work_item_parts reader path node w ≡ ok x
      → Extends beside w x
  scan_work_item_parts-Extends path node w x h =
      let (y, revised, events) = >>=-eq-ok (scan_revisions _ path node w) _ h in
      Extends-trans beside w y x
        (revisions-Extends reader.decode_work_item_revision (λ r. r.id) load_work_item_revision
          (λ p r z h. (clean_before z.1 _ h, same z.0.1 _)) path node w y revised)
        (scan_item_events-Extends path node y x events)

  pub scan_contract_parts-Extends :
      (path : Text) (node : Node) (w x : Part Contract)
      → scan_contract_parts reader path node w ≡ ok x
      → Extends beside w x
  scan_contract_parts-Extends path node w x h =
      let (y, revised, events) = >>=-eq-ok (scan_revisions _ path node w) _ h in
      Extends-trans beside w y x
        (revisions-Extends reader.decode_contract_revision (λ r. r.id) load_contract_revision
          (λ p r z h. (clean_before z.1 _ h, same z.0.1 _)) path node w y revised)
        (scan_events-Extends (scan_contract_events reader)
          (event_files-Extends reader.decode_contract_event (λ e. e.base.id) load_contract_event)
          (under path (codes "events")) (child node (codes "events")) y x events)
