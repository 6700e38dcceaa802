-- ===== src/WorkPlan/Load/Kept.antt =====
-- internal/workplan/load.go: what a walk that finds no error leaves as it was.
use changesaga.Prelude.{
  ◌≡◌, refl, sym, ◌∙◌, subst, Bool, true, false, not, ◌||◌, ◌&&◌, contains, inl, inr, Option, none,
  some, List, [], ◌∷◌, Text, codes, text_eq, has_suffix, trim_suffix, Bool-cases, Option-cases,
  Result-cases, Table, get, Result, ok, ok-injective, >>=-eq-ok, require-eq-ok, arith, length, ltb,
}
use changesaga.LivingId.{valid_id}
use changesaga.WorkPlan.Records.{Issue, Validation}
use changesaga.WorkPlan.Checks.{has_errors}
use changesaga.WorkPlan.Nodes.{is_nil, add_issues, error_if}
use changesaga.WorkPlan.Nodes.Errors.{has_errors-append}
use changesaga.WorkPlan.Load.Disk.{
  Node, Reader, child, read_dir, read_strict_json, real_dir, real_file, under,
}
use changesaga.WorkPlan.Load.Walks.{
  Walk, add_error, each_entry, ensure_entry, ensure_only, ensure_step,
}
use changesaga.WorkPlan.Load.Files.{
  base_name, check_record_id, read_record, scan_event_file, scan_event_files, scan_revision,
  scan_revisions,
}

-- A walk that has found no error.
abbrev pub IsClean : {S : Type 0} → Walk S → Type 0
IsClean w = has_errors w.1.issues ≡ false

-- If the second walk is clean, so was the first, and the part of the state is the same.
abbrev pub Extends : {S X : Type 0} → (S → X) → Walk S → Walk S → Type 0
Extends part w x = IsClean x → IsClean w × (part x.0 ≡ part w.0)

pub clean_before :
    (v : Validation) (issues : List Issue)
    → has_errors (add_issues v issues).issues ≡ false
    → has_errors v.issues ≡ false
clean_before v issues h = ground (arith, has_errors-append v.issues issues)

-- An issue that is added is an error.
pub clean_of_error_if :
    (v : Validation) (wrong : Bool) (path message : Text)
    → has_errors (add_issues v (error_if wrong path message)).issues ≡ false
    → wrong ≡ false
unfolding has_errors text_eq
clean_of_error_if v false path message h = refl
clean_of_error_if v true path message h =
    absurd (ground (arith, has_errors-append v.issues (error_if true path message)))

-- A walk that ends with an error is not clean.
pub add_error-ne_clean :
    {S : Type 0} (path message : Text) (w x : Walk S)
    → ◌≡◌ {A = Result Text (Walk S)} (ok (add_error path message w)) (ok x)
    → IsClean x
    → ⊥
add_error-ne_clean path message w x h clean =
    let wrong =
      clean_of_error_if w.1 true path message (subst IsClean (sym (ok-injective h)) clean) in
    ground arith

module _ {S X : Type 0} (part : S → X) where
  pub Extends-refl : (w : Walk S) → Extends part w w
  Extends-refl w h = (h, refl)

  pub Extends-trans : (w x y : Walk S) → Extends part w x → Extends part x y → Extends part w y
  Extends-trans w x y f g h = let (hx, e) = g h in let (hw, d) = f hx in (hw, e ∙ d)

  pub add_issues-Extends :
      (w : Walk S) (issues : List Issue) → Extends part w (w.0, add_issues w.1 issues)
  add_issues-Extends w issues h = (clean_before w.1 issues h, refl)

  pub each_entry-Extends :
      (step : Text → Node → Walk S → Result Text (Walk S))
      → ((name : Text) (node : Node) (w x : Walk S) → step name node w ≡ ok x → Extends part w x)
      → (es : List (Text × Node)) (w x : Walk S) → each_entry step es w ≡ ok x
      → Extends part w x
  unfolding each_entry
  each_entry-Extends step extends [] w x h =
      subst (Extends part w) (ok-injective h) (Extends-refl w)
  each_entry-Extends step extends ((name, node) ∷ es) w x h =
      let (y, e, rest) = >>=-eq-ok (step name node w) _ h in
      Extends-trans w y x (extends name node w y e) (each_entry-Extends step extends es y x rest)

  ensure_entry-Extends :
      (path : Text) (node : Node) (allowed : Option Bool) (w : Walk S)
      → Extends part w (ensure_entry path node allowed w)
  ensure_entry-Extends path node none w = add_issues-Extends w _
  ensure_entry-Extends path node (some true) w = add_issues-Extends w _
  ensure_entry-Extends path node (some false) w = add_issues-Extends w _

  pub ensure_only-Extends :
      (path : Text) (node : Node) (allowed : Table Bool) (w x : Walk S)
      → ensure_only path node allowed w ≡ ok x
      → Extends part w x
  unfolding ensure_only
  ensure_only-Extends path node allowed w x h =
      let (es, e, rest) = >>=-eq-ok (read_dir node) _ h in
      each_entry-Extends (ensure_step path allowed)
        (λ name n y z same.
          subst (Extends part y) (ok-injective same)
            (ensure_entry-Extends (under path name) n (get name allowed) y))
        es w x rest

  check_record_id-Extends :
      (path id : Text) (w : Walk S) → Extends part w (check_record_id path id w)
  unfolding check_record_id
  check_record_id-Extends path id w = elim (Bool-cases (is_nil id)) [
    | inl e ↦ rw e (Extends-refl w)
    | inr e ↦ elim (Bool-cases (text_eq (base_name path) (codes "revision.json"))) [
      | inl f ↦ rw (e, f) (add_issues-Extends w _)
      | inr f ↦
          elim (Bool-cases (has_suffix path (codes ".json") && contains path (codes "/events/"))) [
            | inl g ↦ rw (e, f, g) (add_issues-Extends w _)
            | inr g ↦ rw (e, f, g) (Extends-refl w)
          ]
    ]
  ]

  -- A record that is read, where its use keeps the part.
  pub read_record-Extends :
      {A : Type 0} (reader : Reader) (decode : Text → Result Text A) (id_of : A → Text)
      (use_record : A → Walk S → Walk S)
      → ((a : A) (w : Walk S) → Extends part w (use_record a w))
      → (path : Text) (node : Option Node) (w : Walk S)
      → Extends part w (read_record reader decode id_of use_record path node w)
  unfolding read_record
  read_record-Extends reader decode id_of use_record used path node w =
      elim (Result-cases (read_strict_json reader decode path node)) [
        | inl (a, e) ↦ rw e (
            let checked = check_record_id path (id_of a) w in
            Extends-trans w checked (use_record a checked)
              (check_record_id-Extends path (id_of a) w) (used a checked))
        | inr (message, e) ↦ rw e (add_issues-Extends w (error_if true path message))
      ]

  module _ (load : Text → Option Node → Walk S → Walk S)
      (kept : (path : Text) (node : Option Node) (w : Walk S)
        → Extends part w (load path node w)) where
    scan_revision-Extends :
        (dir_path name : Text) (node : Node) (w x : Walk S)
        → scan_revision dir_path load name node w ≡ ok x
        → Extends part w x
    scan_revision-Extends dir_path name node w x h =
        elim (Bool-cases (not (has_suffix name (codes ".revision")) || not (real_dir node))) [
          | inl e ↦ subst (Extends part w) (ok-injective (rw e at h)) (add_issues-Extends w _)
          | inr e ↦ elim (Bool-cases (not (valid_id (trim_suffix name (codes ".revision"))))) [
            | inl f ↦
                subst (Extends part w) (ok-injective (rw (e, f) at h)) (add_issues-Extends w _)
            | inr f ↦
                let y =
                  load (under (under dir_path name) (codes "revision.json"))
                    (child node (codes "revision.json")) w in
                Extends-trans w y x (kept _ _ w) (
                  ensure_only-Extends (under dir_path name) node
                    ((codes "revision.json", false) ∷ []) y x (rw (e, f) at h))
          ]
        ]

    pub scan_revisions-Extends :
        (path : Text) (node : Node) (w x : Walk S)
        → scan_revisions load path node w ≡ ok x
        → Extends part w x
    unfolding scan_revisions
    scan_revisions-Extends path node w x h = elim (Option-cases (child node (codes "revisions"))) [
      | inl e ↦ subst (Extends part w) (ok-injective (rw e at h)) (Extends-refl w)
      | inr (d, e) ↦ elim (Bool-cases (not (real_dir d))) [
        | inl f ↦ subst (Extends part w) (ok-injective (rw (e, f) at h)) (add_issues-Extends w _)
        | inr f ↦
            let (es, listed, rest) = >>=-eq-ok (read_dir d) _ (rw (e, f) at h) in
            let (small, loop) = require-eq-ok (not (ltb 10000 (length es))) _ _ rest in
            each_entry-Extends (scan_revision (under path (codes "revisions")) load)
              (scan_revision-Extends (under path (codes "revisions"))) es w x loop
      ]
    ]

    scan_event_file-Extends :
        (dir_path name : Text) (node : Node) (w x : Walk S)
        → scan_event_file dir_path load name node w ≡ ok x
        → Extends part w x
    scan_event_file-Extends dir_path name node w x h =
        elim (Bool-cases (not (has_suffix name (codes ".json")) || not (real_file node))) [
          | inl e ↦ subst (Extends part w) (ok-injective (rw e at h)) (add_issues-Extends w _)
          | inr e ↦ subst (Extends part w) (ok-injective (rw e at h)) (kept _ _ w)
        ]

    pub scan_event_files-Extends :
        (path : Text) (node : Node) (w x : Walk S)
        → scan_event_files load path node w ≡ ok x
        → Extends part w x
    unfolding scan_event_files
    scan_event_files-Extends path node w x h =
        let (es, e, rest) = >>=-eq-ok (read_dir node) _ h in
        let (small, loop) = require-eq-ok (not (ltb 50000 (length es))) _ _ rest in
        each_entry-Extends (scan_event_file path load) (scan_event_file-Extends path) es w x loop
