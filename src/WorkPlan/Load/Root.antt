-- ===== src/WorkPlan/Load/Root.antt =====
-- internal/workplan/load.go: what the scan of the root does to the resources of one kind.
use changesaga.Prelude.{
  ◌≡◌, refl, sym, ◌∙◌, ap, subst, true, false, not, inl, inr, Option, none, some, List, [], ◌∷◌,
  Text, codes, text_eq, text_eq_sound, Bool-cases, Option-cases, Table, IsTable, get, has_key,
  Result, ok, ok-injective, >>=-eq-ok, arith,
}
use changesaga.WorkPlan.Records.{Plan}
use changesaga.WorkPlan.Checks.{root_dir}
use changesaga.WorkPlan.Load.{scan_empty_events, loader, scan_collection}
use changesaga.WorkPlan.Load.Disk.{
  Node, file, dir, other, to_list, read_dir, child, real_dir, Reader, under,
}
use changesaga.WorkPlan.Load.Walks.{Walk, add_error, each_entry}
use changesaga.WorkPlan.Load.Names.{IsCollected}
use changesaga.WorkPlan.Load.Kept.{
  IsClean, Extends, add_error-ne_clean, add_issues-Extends, each_entry-Extends,
}
use changesaga.WorkPlan.Load.Collected.{
  Collection, wave_packages, work_item_packages, contract_packages, dependency_packages, suffix_of,
  ids_of, scan_of, scan_of-IsCollected,
}
use changesaga.WorkPlan.Load.Others.{dir_of, scan_of-Extends}

-- The identifiers are the names of the packages in the directory, if there is one.
abbrev pub IsLoaded : Collection → Option Node → List Text → List Text → Type 0
IsLoaded c none before after = after ≡ before
IsLoaded c (some node) before after = IsCollected (suffix_of c) node before after

absent : {A : Type 0} (k : Text) (t : Table A) → has_key k t ≡ false → get k t ≡ none
absent k t h = elim (Option-cases (get k t)) [ inl e ↦ e | inr (x, e) ↦ absurd (ground arith) ]

pub child-read_dir :
    (node : Node) (name : Text) (es : List (Text × Node))
    → read_dir node ≡ ok es
    → child node name ≡ get name es
unfolding child
child-read_dir (dir none es) name fs h = ap (get name) (ok-injective h)
child-read_dir (dir (some e) es) name fs h = cc
child-read_dir (file content) name fs h = cc
child-read_dir other name fs h = cc

-- The names in a directory are distinct.
abbrev pub HasNames : Option Node → Type 0
HasNames none = Unit {0}
HasNames (some (dir unlisted es)) = IsTable (to_list es)
HasNames (some _) = Unit {0}

pub names_of-read_dir :
    (node : Node) (es : List (Text × Node))
    → HasNames (some node)
    → read_dir node ≡ ok es
    → IsTable es
names_of-read_dir (dir none es) fs table h = subst IsTable (ok-injective h) table
names_of-read_dir (dir (some e) es) fs table h = cc
names_of-read_dir (file content) fs table h = cc
names_of-read_dir other fs table h = cc

-- The directory of a collection, if there is one.
abbrev pub collection_dir : Option Node → Collection → Option Node
collection_dir none c = none
collection_dir (some work) c = child work (dir_of c)

module _ (reader : Reader) (c : Collection) where
  scan_empty_events-Extends :
      (path : Text) (node : Node) (w x : Walk Plan)
      → scan_empty_events reader path node w ≡ ok x
      → Extends (ids_of c) w x
  unfolding scan_empty_events
  scan_empty_events-Extends path node w x h =
      let (es, listed, loop) = >>=-eq-ok (read_dir node) _ h in
      each_entry-Extends (ids_of c)
        (λ name n y. ok (add_error (under path name) (codes "unknown plan-global event") y))
        (λ name n y z same.
          subst (Extends (ids_of c) y) (ok-injective same) (add_issues-Extends (ids_of c) y _))
        es w x loop

  -- The directory of the collection.
  own_collection :
      (path : Text) (node : Node) (w x : Walk Plan)
      → scan_collection reader (some (scan_of reader c)) path node w ≡ ok x
      → IsClean x
      → IsClean w × IsCollected (suffix_of c) node (ids_of c w.0) (ids_of c x.0)
  own_collection path node w x h clean = elim (Bool-cases (not (real_dir node))) [
    | inl e ↦ absurd (add_error-ne_clean _ _ w x (rw e at h) clean)
    | inr e ↦ scan_of-IsCollected reader c path node w x (rw e at h) clean
  ]

  loader-own : (d : Collection) → loader reader (dir_of d) ≡ some (scan_of reader d)
  unfolding text_eq
  loader-own wave_packages = refl
  loader-own work_item_packages = refl
  loader-own contract_packages = refl
  loader-own dependency_packages = refl

  -- An entry that is not the collection's directory.
  other_collection :
      (path : Text) (node : Node) (w x : Walk Plan)
      (scan : Text → Node → Walk Plan → Result Text (Walk Plan))
      → ((p : Text) (n : Node) (y z : Walk Plan) → scan p n y ≡ ok z → Extends (ids_of c) y z)
      → scan_collection reader (some scan) path node w ≡ ok x
      → Extends (ids_of c) w x
  other_collection path node w x scan kept h = elim (Bool-cases (not (real_dir node))) [
    | inl e ↦
        subst (Extends (ids_of c) w) (ok-injective (rw e at h)) (add_issues-Extends (ids_of c) w _)
    | inr e ↦ kept path node w x (rw e at h)
  ]

  other_name :
      (name path : Text) (node : Node) (w x : Walk Plan)
      → text_eq name (dir_of c) ≡ false
      → scan_collection reader (loader reader name) path node w ≡ ok x
      → Extends (ids_of c) w x
  other_name name path node w x apart h = elim (Bool-cases (text_eq name (codes "waves"))) [
    | inl e ↦ named wave_packages e
    | inr e ↦ elim (Bool-cases (text_eq name (codes "work-items"))) [
      | inl f ↦ named work_item_packages f
      | inr f ↦ elim (Bool-cases (text_eq name (codes "dependencies"))) [
        | inl g ↦ named dependency_packages g
        | inr g ↦ elim (Bool-cases (text_eq name (codes "contracts"))) [
          | inl k ↦ named contract_packages k
          | inr k ↦ elim (Bool-cases (text_eq name (codes "events"))) [
            | inl l ↦
                other_collection path node w x (scan_empty_events reader) scan_empty_events-Extends
                  (rw (e, f, g, k, l) at h)
            | inr l ↦
                subst (Extends (ids_of c) w) (ok-injective (rw (e, f, g, k, l) at h))
                  (add_issues-Extends (ids_of c) w _)
          ]
        ]
      ]
    ]
  ]
    where
      named : (d : Collection) → text_eq name (dir_of d) ≡ true → Extends (ids_of c) w x
      named d e =
          let same = text_eq_sound name (dir_of d) e in
          other_collection path node w x (scan_of reader d)
            (scan_of-Extends reader c d (ap (λ n. text_eq n (dir_of c)) (sym same) ∙ apart))
            (subst (λ l. scan_collection reader l path node w ≡ ok x)
              (ap (loader reader) same ∙ loader-own d) h)

  -- The loop over the entries of the root.
  pub each_entry-IsLoaded :
      (es : List (Text × Node)) (w x : Walk Plan)
      → IsTable es
      → each_entry (λ name. scan_collection reader (loader reader name) (under root_dir name)) es w
        ≡ ok x
      → IsClean x
      → IsClean w × IsLoaded c (get (dir_of c) es) (ids_of c w.0) (ids_of c x.0)
  unfolding each_entry get
  each_entry-IsLoaded [] w x table h clean =
      (subst IsClean (sym (ok-injective h)) clean, ap (λ y. ids_of c y.0) (sym (ok-injective h)))
  each_entry-IsLoaded ((name, node) ∷ es) w x (fresh, table) h clean =
      let (y, e, rest) =
        >>=-eq-ok (scan_collection reader (loader reader name) (under root_dir name) node w) _ h in
      let (clean_y, later) = each_entry-IsLoaded es y x table rest clean in
      elim (Bool-cases (text_eq name (dir_of c))) [
        | inl f ↦
            let same = text_eq_sound name (dir_of c) f in
            let (clean_w, collected) =
              own_collection (under root_dir name) node w y
                (subst (λ l. scan_collection reader l (under root_dir name) node w ≡ ok y)
                  (ap (loader reader) same ∙ loader-own c) e)
                clean_y in
            let gone : get (dir_of c) es ≡ none =
              ap (λ n. get n es) (sym same) ∙ absent name es fresh in
            let unchanged = subst (λ o. IsLoaded c o (ids_of c y.0) (ids_of c x.0)) gone later in
            (
              clean_w,
              rw f
                  (subst (IsCollected (suffix_of c) node (ids_of c w.0)) (sym unchanged) collected),
            )
        | inr f ↦
            let (clean_w, same) = other_name name (under root_dir name) node w y f e clean_y in
            (
              clean_w,
              rw f (subst (λ b. IsLoaded c (get (dir_of c) es) b (ids_of c x.0)) same later),
            )
      ]
