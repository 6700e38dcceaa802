-- ===== src/Impact/Analyze.antt =====
-- internal/impact/impact.go: `Analyze`, with the targets it accumulates.
use changesaga.Prelude.{
  Bool, true, false, not, ◌&&◌, Option, none, some, List, [], ◌∷◌, ◌++◌, map, Text, codes, text_eq,
  has, sort_by, count_if, length, Table, if◌then◌else◌,
}
use changesaga.GitDiff.{Atom, ChangeSet}
use changesaga.Saga.{Saga}
use changesaga.Coverage.Report.{Report}
use changesaga.Impact.Records.{
  SourceIdentity, UnownedChange, Diagnostic, Analysis, TargetLocation, TargetAccumulator, OwnerSet,
  IncomingStatus,
}
use changesaga.Impact.Owners.{
  is_line_atom, is_event_atom, index_baseline, direct_owners_of, owners_by_key, has_owners,
  atoms_by_key, line_positions, contextual_owners_of,
}
use changesaga.Impact.Targets.{
  index_targets, must_update, consider_update, conflicting_intersection, additive_near_owned_code,
  add_target_changes, impact_less, unowned_less, atom_less, target_impact,
}

unfoldable pub unowned_reason : Atom → Text
unowned_reason atom =
    if is_event_atom atom && text_eq atom.event (codes "add")
    then codes "new file has no existing Saga owner"
    else if is_line_atom atom && text_eq atom.side (codes "new")
    then codes "addition is not adjacent to source evidence owned by the existing Saga"
    else codes "changed source does not intersect evidence owned by the existing Saga"

-- The variables of the last loop over the incoming atoms.
pub record Projection : Type 0 where
  pub accumulators : Table TargetAccumulator
  pub direct_atoms : List Text
  pub contextual_atoms : List Text
  pub owned_atoms : List Text
  pub new_content : List UnownedChange

abbrev pub add_key : Text → List Text → List Text
add_key k ks = if has k ks then ks else k ∷ ks

module _ (locations : Table TargetLocation) (direct contextual : Text → OwnerSet) where
  unfoldable pub project_direct : Atom → Projection → Projection
  unfolding add_target_changes has
  project_direct atom p =
      if has_owners (direct atom.key)
      then record p {
        direct_atoms = add_key atom.key p.direct_atoms;
        owned_atoms = add_key atom.key p.owned_atoms;
        accumulators =
            add_target_changes locations (direct atom.key) atom conflicting_intersection must_update
              p.accumulators;
      }
      else p

  unfoldable pub project_contextual : Atom → Projection → Projection
  unfolding add_target_changes has
  project_contextual atom p =
      if has_owners (contextual atom.key)
      then record p {
        contextual_atoms = add_key atom.key p.contextual_atoms;
        owned_atoms = add_key atom.key p.owned_atoms;
        accumulators =
            add_target_changes locations (contextual atom.key) atom additive_near_owned_code
              consider_update p.accumulators;
      }
      else p

  unfoldable pub project_unowned : Atom → Projection → Projection
  unfolding unowned_reason has
  project_unowned atom p = if has atom.key p.owned_atoms then p else record p {
    new_content = p.new_content ++ (record { atom = atom; reason = unowned_reason atom } ∷ []);
  }

  unfoldable pub project_atoms : List Atom → Projection → Projection
  unfolding project_direct project_contextual project_unowned
  project_atoms [] p = p
  project_atoms (atom ∷ atoms) p =
      project_atoms atoms (project_unowned atom (project_contextual atom (project_direct atom p)))

unfoldable pub source_identity : ChangeSet → SourceIdentity
source_identity c = record {
  repository = c.repository;
  base = c.base;
  head = c.head;
  base_oid = c.base_oid;
  head_oid = c.head_oid;
}

abbrev pub incoming_status : Option Saga → ChangeSet → IncomingStatus
incoming_status none c = record { saga_id = []; title = []; source = source_identity c }
incoming_status (some s) c = record {
  saga_id = s.manifest.id;
  title = s.manifest.title;
  source = source_identity c;
}

abbrev pub incomplete_diagnostic : Bool → List Diagnostic
incomplete_diagnostic true = []
incomplete_diagnostic false =
    record {
      code = codes "baseline_incomplete";
      message =
          codes
            "the maintained Saga does not completely map the incoming comparison base; impact results may omit affected content";
    }
    ∷ []

abbrev pub empty_projection : Projection
empty_projection = record {
  accumulators = [];
  direct_atoms = [];
  contextual_atoms = [];
  owned_atoms = [];
  new_content = [];
}

-- The owners that `Analyze` finds for the incoming atoms, by key: first those of the source that they
-- remove, then those of the source around their new lines.
unfoldable pub direct_owners : ChangeSet → Report → ChangeSet → Text → OwnerSet
unfolding index_baseline owners_by_key direct_owners_of
direct_owners baseline report incoming =
    let (current, files) =
      index_baseline report.ownership baseline.atoms (λ path line. none) (λ path. []) in
    owners_by_key (direct_owners_of report.ownership current files) incoming.atoms (λ k. [])

unfoldable pub contextual_owners : ChangeSet → Report → ChangeSet → Text → OwnerSet
unfolding index_baseline owners_by_key direct_owners contextual_owners_of atoms_by_key
    line_positions
contextual_owners baseline report incoming =
    let (current, files) =
      index_baseline report.ownership baseline.atoms (λ path line. none) (λ path. []) in
    owners_by_key
      (contextual_owners_of incoming.display_lines (atoms_by_key incoming.atoms (λ k. none))
        (direct_owners baseline report incoming) current report.ownership
        (line_positions 0 incoming.display_lines (λ k. none)))
      incoming.atoms (λ k. [])

unfoldable pub projection : Saga → ChangeSet → Report → ChangeSet → Projection
unfolding index_targets direct_owners contextual_owners project_atoms
projection document baseline report incoming =
    project_atoms (index_targets document.manifest.title document.section)
      (direct_owners baseline report incoming) (contextual_owners baseline report incoming)
      incoming.atoms empty_projection

unfoldable pub analyze : Saga → ChangeSet → Report → ChangeSet → Text → Option Saga → Analysis
unfolding projection target_impact sort_by atom_less source_identity
analyze document baseline report incoming mode incoming_saga =
    let p = projection document baseline report incoming in
    let targets = sort_by impact_less (map target_impact p.accumulators) in
    let new_content = sort_by unowned_less p.new_content in
    record {
      schema = codes "change-saga.impact/v1";
      mode = mode;
      basis = codes "source_diffs_only";
      content_compared = false;
      baseline = record {
        saga_id = document.manifest.id;
        title = document.manifest.title;
        source = source_identity baseline;
        complete = report.complete;
        covered = report.summary.covered;
        total = report.summary.total;
        uncovered = report.summary.uncovered;
        stale = report.summary.orphaned;
        overlapping = report.summary.overlapping;
      };
      incoming = incoming_status incoming_saga incoming;
      summary = record {
        incoming_atoms = length incoming.atoms;
        direct_intersections = length p.direct_atoms;
        contextual_additions = length p.contextual_atoms;
        new_content_required = length new_content;
        targets_must_update = count_if (λ t. text_eq t.action must_update) targets;
        targets_consider_update = count_if (λ t. not (text_eq t.action must_update)) targets;
      };
      targets = targets;
      new_content = new_content;
      diagnostics = incomplete_diagnostic report.complete;
    }
