-- ===== src/Impact/Targets.antt =====
-- internal/impact/impact.go: the places of the targets (`indexTargets`), what gathers for a target
-- (`addTargetChanges`), and its report.
use changesaga.Prelude.{
  Bool, false, not, ◌||◌, Option, none, some, List, [], ◌∷◌, ◌++◌, map, Text, codes, text_eq,
  text_lt, ltb, has, sort_texts, sort_by, Table, get, put, value_or, ◌==◌, if◌then◌else◌,
}
use changesaga.GitDiff.{Atom}
use changesaga.Saga.{Landmark, Fragment, Section, Sections, section, nil, cons}
use changesaga.Coverage.Index.{is_empty}
use changesaga.Coverage.Visit.{Assignment}
use changesaga.Impact.Records.{
  Change, TargetImpact, UnownedChange, TargetLocation, TargetAccumulator, OwnerSet,
}

abbrev pub first_text : Text → Text → Text
first_text a b = if is_empty a then b else a

unfoldable pub landmark_locations :
    Text → List Landmark → Table TargetLocation → Table TargetLocation
unfolding put
landmark_locations content_path [] m = m
landmark_locations content_path (l ∷ ls) m = landmark_locations content_path ls (
    put l.target
      (record {
        kind = codes "landmark";
        title = l.label;
        location = l.path;
        content_path = content_path;
      })
      m)

unfoldable pub fragment_locations : List Fragment → Table TargetLocation → Table TargetLocation
unfolding landmark_locations put
fragment_locations [] m = m
fragment_locations (f ∷ fs) m =
    let content_path = f.path ++ codes "/" ++ f.entrypoint in
    fragment_locations fs (
      landmark_locations content_path f.landmarks (
        put f.target
          (record {
            kind = codes "fragment";
            title = first_text f.title f.id;
            location = f.path;
            content_path = content_path;
          })
          m))

-- The walk of `indexTargets` below the document's own section.
unfoldable mutual
  unfolding fragment_locations put

  pub section_locations : Section → Table TargetLocation → Table TargetLocation
  section_locations (section d children) m = children_locations children (
      fragment_locations d.fragments (
        put d.target
          (record { kind = d.kind; title = d.title; location = d.path; content_path = [] }) m))

  pub children_locations : Sections → Table TargetLocation → Table TargetLocation
  children_locations nil m = m
  children_locations (cons s ss) m = children_locations ss (section_locations s m)

-- `indexTargets`. The document's own section has its entry before the walk, which passes it over.
unfoldable pub index_targets : Text → Section → Table TargetLocation
unfolding section_locations children_locations fragment_locations put
index_targets title (section d children) = children_locations children (
    fragment_locations d.fragments (
      put d.target
        (record { kind = codes "saga"; title = title; location = codes "."; content_path = [] })
        []))

abbrev pub no_location : TargetLocation
no_location = record { kind = []; title = []; location = []; content_path = [] }

abbrev pub must_update : Text
must_update = codes "must_update"

abbrev pub consider_update : Text
consider_update = codes "consider_update"

abbrev pub conflicting_intersection : Text
conflicting_intersection = codes "conflicting_intersection"

abbrev pub additive_near_owned_code : Text
additive_near_owned_code = codes "additive_near_owned_code"

unfoldable pub add_evidence : List Assignment → List Text → List Text
unfolding has
add_evidence [] evidence = evidence
add_evidence (a ∷ rest) evidence =
    add_evidence rest (
      if is_empty a.diff_file || has a.diff_file evidence then evidence else a.diff_file ∷ evidence)

abbrev pub keeps_change : Option Change → Bool
keeps_change none = false
keeps_change (some c) = text_eq c.relationship conflicting_intersection

-- The loop body of `addTargetChanges` on the accumulator of the target.
unfoldable pub accumulate :
    List Assignment → Atom → Text → Text → TargetAccumulator → TargetAccumulator
unfolding add_evidence get put
accumulate found atom relationship action acc = record {
  location = acc.location;
  action = if text_eq action must_update then action else acc.action;
  evidence = add_evidence found acc.evidence;
  changes =
      if keeps_change (get atom.key acc.changes)
      then acc.changes
      else put atom.key (record { relationship = relationship; atom = atom }) acc.changes;
}

abbrev pub new_accumulator : TargetLocation → Text → TargetAccumulator
new_accumulator location action = record {
  location = location;
  action = action;
  evidence = [];
  changes = [];
}

unfoldable pub add_target_changes :
    Table TargetLocation
    → OwnerSet
    → Atom
    → Text
    → Text
    → Table TargetAccumulator
    → Table TargetAccumulator
unfolding accumulate get put
add_target_changes locations [] atom relationship action accs = accs
add_target_changes locations ((target, found) ∷ owners) atom relationship action accs =
    let before =
      value_or (new_accumulator (value_or no_location (get target locations)) action)
        (get target accs) in
    add_target_changes locations owners atom relationship action
      (put target (accumulate found atom relationship action before) accs)

-- `atomLess`
unfoldable pub atom_less : Atom → Atom → Bool
unfolding text_lt
atom_less l r =
    if not (text_eq l.path r.path)
    then text_lt l.path r.path
    else if not (l.line == r.line)
    then ltb l.line r.line
    else if not (text_eq l.side r.side)
    then text_lt l.side r.side
    else text_lt l.uri r.uri

abbrev pub impact_less : TargetImpact → TargetImpact → Bool
impact_less i j =
    if not (text_eq i.action j.action)
    then text_eq i.action must_update
    else text_lt i.target j.target

abbrev pub change_less : Change → Change → Bool
change_less c d = atom_less c.atom d.atom

abbrev pub unowned_less : UnownedChange → UnownedChange → Bool
unowned_less u v = atom_less u.atom v.atom

abbrev pub values : {A : Type 0} → Table A → List A
values = map (λ e. e.1)

unfoldable pub target_impact : Text × TargetAccumulator → TargetImpact
unfolding sort_texts sort_by atom_less
target_impact (target, acc) = record {
  target = target;
  kind = acc.location.kind;
  title = acc.location.title;
  location = acc.location.location;
  content_path = acc.location.content_path;
  action = acc.action;
  evidence_files = sort_texts acc.evidence;
  changes = sort_by change_less (values acc.changes);
}
