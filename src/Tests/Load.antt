-- ===== src/Tests/Load.antt =====
-- internal/workplan/load.go on a small tree of files.
use mathlib.Core.Int.{pos}
use changesaga.Prelude.{
  ◌≡◌, refl, true, false, none, some, [], ◌++◌, Text, codes, text_eq, has_suffix, trim_suffix, take,
  split, get, put, Result, ok, err,
}
use changesaga.LivingId.{valid_id}
use changesaga.LivingId.Parse.{parse_parts}
use changesaga.WorkPlan.Records.{Time, Plan, Validation, slice}
use changesaga.WorkPlan.Nodes.{error_if}
use changesaga.WorkPlan.Checks.{schema, has_errors}
use changesaga.WorkPlan.Mutations.Requests.{register_request}
use changesaga.WorkPlan.Plans.{validate_plan}
use changesaga.WorkPlan.Load.{empty_plan, load, load_workplan, scan_workplan_root, scan_waves}
use changesaga.WorkPlan.Load.Disk.{
  Node, Reader, child, dir, end, entry, file, read_strict_json, read_selected_manifest,
}
use changesaga.WorkPlan.Load.Walks.{each_entry, ensure_only, scan_packages}
use changesaga.WorkPlan.Load.Files.{check_record_id, read_record, scan_revisions}
use changesaga.WorkPlan.Load.Resources.{scan_resource, scan_wave}
use changesaga.WorkPlan.Load.Collected.{wave_packages, ids_of}
use changesaga.WorkPlan.Load.Root.{IsLoaded}
use changesaga.WorkPlan.Load.Whole.{load-IsLoaded}
use changesaga.Tests.Mutations.Inputs.{lib}

abbrev now : Time
now = record { seconds = 9; is_utc = true }

-- A decoder that takes a text for an identifier.
abbrev reader : Reader
reader = record {
  missing = λ path. path ++ codes ": no such file";
  decimal = λ n. codes "n";
  decode_manifest = λ t. ok (3, t);
  decode_identity =
      λ t. ok (record { schema = schema (codes "wave"); version = 3; id = t; created_at = now });
  decode_wave_revision = λ t. ok (record {
    schema = schema (codes "workplan-revision");
    version = 3;
    id = t;
    wave = codes "urn:change-saga:s1:wave:w1";
    parents = slice [];
    title = codes "title";
    objective = codes "objective";
    order = pos 1;
    entry_conditions = slice [];
    exit_conditions = slice [];
    created_at = now;
    request_id = [];
    request_digest = [];
  });
  decode_work_item_revision = λ t. err t;
  decode_contract_revision = λ t. err t;
  decode_progress = λ t. err t;
  decode_workspace = λ t. err t;
  decode_merge = λ t. err t;
  decode_contract_event = λ t. err t;
  decode_dependency = λ t. err t;
}

-- A wave with one revision.
abbrev wave_package : Text → Text → Node
wave_package id revision_id = dir none (
    entry (codes "revisions")
      (dir none (
        entry (codes "r1.revision")
          (dir none (entry (codes "revision.json") (file (ok revision_id)) end)) end))
      (entry (codes "wave.json") (file (ok id)) end))

abbrev waves : Node
waves = dir none (entry (codes "w1.wave") (wave_package (codes "w1") (codes "r1")) end)

-- A Saga with one wave in its plan of work.
abbrev saga : Node
saga = dir none (
    entry (codes "___workplan") (dir none (entry (codes "waves") waves end))
      (entry (codes "saga.json") (file (ok (codes "s1"))) end))

abbrev result : Plan × Validation
result = value (load reader lib (codes "/s") (some saga))
  where
    value : Result Text (Plan × Validation) → Plan × Validation
    value (ok loaded) = loaded
    value (err e) = (empty_plan [] [], record { valid = false; issues = [] })

loaded_saga : load reader lib (codes "/s") (some saga) ≡ ok result
unfolding load load_workplan scan_workplan_root scan_waves scan_packages each_entry scan_wave
    scan_resource scan_revisions ensure_only read_record read_strict_json read_selected_manifest
    child register_request valid_id has_suffix trim_suffix take get put text_eq
loaded_saga = refl

valid_saga : result.1.valid ≡ true
unfolding load load_workplan scan_workplan_root scan_waves scan_packages each_entry scan_wave
    scan_resource scan_revisions ensure_only read_record read_strict_json read_selected_manifest
    child register_request valid_id has_suffix trim_suffix take get put text_eq has_errors
    validate_plan parse_parts split
valid_saga = refl

-- An event called revision is compared with the directory of its stream, another with its file.
abbrev found : Validation
found = record { valid = true; issues = [] }

revision_event :
    (check_record_id
      (codes "i.work-item/events/progress/revision.json")
      (codes "revision")
      (tt, found)).1.issues
    ≡ error_if true
        (codes "i.work-item/events/progress/revision.json")
        (codes "revision id must match its package name")
unfolding check_record_id
revision_event = refl

progress_event :
    (check_record_id
      (codes "i.work-item/events/progress/revision.json")
      (codes "progress")
      (tt, found)).1.issues
    ≡ []
unfolding check_record_id
progress_event = refl

other_event :
    (check_record_id
      (codes "i.work-item/events/progress/e2.json")
      (codes "e1")
      (tt, found)).1.issues
    ≡ error_if true
        (codes "i.work-item/events/progress/e2.json")
        (codes "event id must match its file name")
unfolding check_record_id
other_event = refl

load-IsLoaded_example : IsLoaded wave_packages (some waves) [] (ids_of wave_packages result.0)
unfolding child get text_eq
load-IsLoaded_example =
    load-IsLoaded reader lib wave_packages (codes "/s") saga result.0 result.1 (refl, tt)
      loaded_saga valid_saga
