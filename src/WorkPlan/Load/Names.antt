-- ===== src/WorkPlan/Load/Names.antt =====
-- internal/workplan/load.go: the names of the packages that are loaded into a plan.
use changesaga.Prelude.{
  ◌≡◌, refl, sym, ◌∙◌, ap, subst, Bool, true, false, not, ◌||◌, inl, inr, List, [], ◌∷◌, ◌++◌,
  append_assoc, append-nil, map, Text, codes, text_eq, text_eq_sound, text_eq_sym, has, has_suffix,
  trim_suffix, All, Bool-cases, Result-cases, Table, get, put, has_key, Result, ok, ok-injective,
  >>=-eq-ok, arith,
}
use changesaga.LivingId.{valid_id}
use changesaga.WorkPlan.Records.{Identity, Plan}
use changesaga.WorkPlan.Dependencies.{table_keys}
use changesaga.WorkPlan.Load.Disk.{Node, Reader, child, read_dir, read_strict_json, real_dir, under}
use changesaga.WorkPlan.Load.Walks.{Walk, check_package_id, each_entry, scan_package, scan_packages}
use changesaga.WorkPlan.Load.Parts.{Part}
use changesaga.WorkPlan.Load.Resources.{scan_resource}
use changesaga.WorkPlan.Load.Kept.{
  IsClean, Extends, clean_before, clean_of_error_if, add_error-ne_clean, ensure_only-Extends,
}

-- An entry of a collection that is a package.
abbrev pub IsPackage : Text → Text × Node → Type 0
IsPackage suffix e =
    (has_suffix e.0 suffix ≡ true)
    × (real_dir e.1 ≡ true)
    × (valid_id (trim_suffix e.0 suffix) ≡ true)

abbrev pub name_of : Text → Text × Node → Text
name_of suffix e = trim_suffix e.0 suffix

-- The identifiers behind are those before with the names of a directory's entries, which are packages.
pub record IsCollected (suffix : Text) (node : Node) (before after : List Text) : Type 0 where
  pub entries : List (Text × Node)
  pub listed : read_dir node ≡ ok entries
  pub packages : All (IsPackage suffix) entries
  pub names : after ≡ before ++ map (name_of suffix) entries

-- What a callback of `scanPackages` does to the identifiers, where it finds no error.
abbrev pub AddsName :
    (Plan → List Text) → (Text → Text → Node → Walk Plan → Result Text (Walk Plan)) → Type 0
AddsName part load =
    (path name : Text) (node : Node) (w x : Walk Plan)
    → load path name node w ≡ ok x
    → IsClean x
    → IsClean w × (part x.0 ≡ part w.0 ++ (name ∷ []))

module _ (part : Plan → List Text) (suffix dir_path : Text)
    (load : Text → Text → Node → Walk Plan → Result Text (Walk Plan))
    (adds : AddsName part load) where
  scan_package-IsPackage :
      (name : Text) (node : Node) (w x : Walk Plan)
      → scan_package dir_path suffix load name node w ≡ ok x
      → IsClean x
      → IsPackage suffix (name, node)
        × IsClean w
        × (part x.0 ≡ part w.0 ++ (trim_suffix name suffix ∷ []))
  scan_package-IsPackage name node w x h clean =
      elim (Bool-cases (not (has_suffix name suffix) || not (real_dir node))) [
        | inl e ↦ absurd (add_error-ne_clean _ _ w x (rw e at h) clean)
        | inr e ↦ elim (Bool-cases (not (valid_id (trim_suffix name suffix)))) [
          | inl f ↦ absurd (add_error-ne_clean _ _ w x (rw (e, f) at h) clean)
          | inr f ↦
              let (before, names) =
                adds (under dir_path name) (trim_suffix name suffix) node w x (rw (e, f) at h)
                  clean in
              ((ground arith, ground arith, ground arith), before, names)
        ]
      ]

  each_entry-names :
      (es : List (Text × Node)) (w x : Walk Plan)
      → each_entry (scan_package dir_path suffix load) es w ≡ ok x
      → IsClean x
      → IsClean w × All (IsPackage suffix) es × (part x.0 ≡ part w.0 ++ map (name_of suffix) es)
  unfolding each_entry
  each_entry-names [] w x h clean = (
    subst IsClean (sym (ok-injective h)) clean,
    tt,
    ap (λ y. part y.0) (sym (ok-injective h)) ∙ sym (append-nil (part w.0)),
  )
  each_entry-names ((name, node) ∷ es) w x h clean =
      let (y, e, rest) = >>=-eq-ok (scan_package dir_path suffix load name node w) _ h in
      let (clean_y, packs, names) = each_entry-names es y x rest clean in
      let (pack, clean_w, name_y) = scan_package-IsPackage name node w y e clean_y in
      (
        clean_w,
        (pack, packs),
        names
            ∙ ap (λ t. t ++ map (name_of suffix) es) name_y
            ∙ append_assoc (part w.0) (trim_suffix name suffix ∷ []) (map (name_of suffix) es),
      )

  pub scan_packages-IsCollected :
      (node : Node) (w x : Walk Plan)
      → scan_packages dir_path node suffix load w ≡ ok x
      → IsClean x
      → IsClean w × IsCollected suffix node (part w.0) (part x.0)
  unfolding scan_packages
  scan_packages-IsCollected node w x h clean =
      let (es, listed, loop) = >>=-eq-ok (read_dir node) _ h in
      let (before, packs, names) = each_entry-names es w x loop clean in
      (before, record { entries = es; listed = listed; packages = packs; names = names })

-- The entry of a key that is new goes to the end.
pub table_keys-put :
    {A : Type 0} (k : Text) (x : A) (t : Table A)
    → has_key k t ≡ false
    → table_keys (put k x t) ≡ table_keys t ++ (k ∷ [])
unfolding get put
table_keys-put k x [] h = refl
table_keys-put k x ((j, y) ∷ t) h = elim (Bool-cases (text_eq j k)) [
  | inl e ↦ absurd (ground arith)
  | inr e ↦ rw e (ap (λ ks. j ∷ ks) (table_keys-put k x t (rw e at h)))
]

-- Whether a key is there hangs on the keys.
pub has_key-has : {A : Type 0} (k : Text) (t : Table A) → has_key k t ≡ has k (table_keys t)
unfolding get has
has_key-has k [] = refl
has_key-has k ((j, y) ∷ t) = ground (arith, has_key-has k t, text_eq_sym j k)

module _ {A : Type 0} (reader : Reader) (part : Plan → List Text) (kind : Text)
    (exists : Plan → Text → Bool) (start : Identity → A)
    (scan : Text → Node → Part A → Result Text (Part A)) (enter : Text → A × Plan → Plan)
    (allowed : Table Bool) (knows : (plan : Plan) (id : Text) → exists plan id ≡ has id (part plan))
    (kept : (path : Text) (node : Node) (w x : Part A)
      → scan path node w ≡ ok x
      → Extends (λ s. part s.1) w x)
    (enters : (id : Text) (s : A × Plan)
      → has id (part s.1) ≡ false
      → part (enter id s) ≡ part s.1 ++ (id ∷ [])) where
  pub scan_resource-AddsName :
      AddsName part (scan_resource reader kind exists start scan enter allowed)
  unfolding scan_resource
  scan_resource-AddsName path name node (plan, v) x h clean =
      elim (Result-cases (
        read_strict_json reader reader.decode_identity (under path (kind ++ codes ".json"))
          (child node (kind ++ codes ".json")))) [
            | inr (message, e) ↦ absurd (add_error-ne_clean _ _ (plan, v) x (rw e at h) clean)
            | inl (identity, e) ↦ elim (Bool-cases (exists plan identity.id)) [
              | inl f ↦ absurd (add_error-ne_clean _ _ _ x (rw (e, f) at h) clean)
              | inr f ↦
                  let (p, scanned, finished) =
                    >>=-eq-ok
                      (scan path node (
                        (start identity, plan),
                        (check_package_id path name identity.id (plan, v)).1,
                      ))
                      _ (rw (e, f) at h) in
                  let (clean_p, put_in) =
                    ensure_only-Extends part path node ((kind ++ codes ".json", false) ∷ allowed)
                      (enter identity.id p.0, p.1) x finished clean in
                  let (clean_start, same_part) = kept path node _ p scanned clean_p in
                  let wrong =
                    clean_of_error_if v (not (text_eq name identity.id)) path
                      (codes "record id must match package name") clean_start in
                  let same : name ≡ identity.id = text_eq_sound name identity.id (ground arith) in
                  let absent : has identity.id (part p.0.1) ≡ false =
                    ap (has identity.id) same_part ∙ sym (knows plan identity.id) ∙ f in
                  (
                    clean_before v _ clean_start,
                    put_in
                        ∙ enters identity.id p.0 absent
                        ∙ ap (λ ids. ids ++ (identity.id ∷ [])) same_part
                        ∙ ap (λ n. part plan ++ (n ∷ [])) (sym same),
                  )
            ]
          ]
