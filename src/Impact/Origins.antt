-- ===== src/Impact/Origins.antt =====
-- Where the direct owners come from: the source of the baseline that an incoming atom touches.

use mathlib.Core.List.{Memᴰ}
use changesaga.Prelude.{
  ℕ, ◌≡◌, refl, sym, ap, ◌∙◌, inl, inr, Bool, true, false, not, ◌&&◌, ◌||◌, Option, none, some,
  List, [], ◌∷◌, Text, codes, text_eq, text_eq_complete, has, any, count_if, get, has_key, ◌==◌,
  Bool-cases, if◌then◌else◌, arith,
}
use changesaga.GitDiff.{Atom, ChangeSet}
use changesaga.GitDiff.Parse.Keys.{keys, IsUnique}
use changesaga.Coverage.Report.{Report}
use changesaga.Impact.Owners.{
  is_line_atom, is_event_atom, baseline_atom_exists_at_head, atom_paths, owners_of_key, event_path,
  owners_of_line, direct_owners_of,
}
use changesaga.Saga.{Saga}
use changesaga.Impact.Analyze.{analyze}
use changesaga.Impact.Updates.{names_urgent, is_hit, analyze-targets}
use changesaga.Impact.Kinds.{direct_at, baseline_index, is_new_line}
use changesaga.Impact.Mentions.{merge_assignments-has_key, merge_owner_sets-has_key}
use changesaga.Impact.Sourced.{IsOwned, FilesSourced, LinesSourced, index_baseline-sourced}

-- The incoming atom removes the line that the baseline's atom is, with its content, or is an event
-- other than an addition on a file that the baseline's atom stands in at the head.
abbrev pub touches : Atom → Atom → Bool
touches a b =
    (is_line_atom a
      && text_eq a.side (codes "old")
      && is_new_line b
      && text_eq b.path a.path
      && b.line == a.line
      && text_eq b.content a.content)
    || (is_event_atom a
        && not (text_eq a.event (codes "add"))
        && baseline_atom_exists_at_head b
        && has (event_path a) (atom_paths b))

touches_line :
    (a b : Atom)
    → (is_line_atom a && text_eq a.side (codes "old")) ≡ true
    → is_new_line b ≡ true
    → b.path ≡ a.path
    → b.line ≡ a.line
    → text_eq b.content a.content ≡ true
    → touches a b ≡ true
touches_line a b l n p q c = ground (arith, text_eq_complete b.path a.path p)

touches_event :
    (a b : Atom)
    → (is_event_atom a && not (text_eq a.event (codes "add"))) ≡ true
    → baseline_atom_exists_at_head b ≡ true
    → has (event_path a) (atom_paths b) ≡ true
    → touches a b ≡ true
touches_event a b v here there = ground arith

module _ (target : Text) (baseline : ChangeSet) (report : Report) (incoming : ChangeSet) where
  -- A touched atom of the baseline that the target owns.
  abbrev pub Touched : Atom → Type 0
  Touched a = (b : Atom) × IsOwned target report.ownership baseline.atoms b × (touches a b ≡ true)

  sources :
      let r = baseline_index baseline report incoming in
      LinesSourced target report.ownership baseline.atoms r.0
      × FilesSourced target report.ownership baseline.atoms r.1
  sources =
      index_baseline-sourced target report.ownership baseline.atoms baseline.atoms
        (λ path line. none) (λ path. []) (λ a i. i) (λ path line b e. cc) (λ path m. cc)

  line_source :
      (a : Atom) (o : Option Atom)
      → (baseline_index baseline report incoming).0 a.path a.line ≡ o
      → (is_line_atom a && text_eq a.side (codes "old")) ≡ true
      → has_key target (owners_of_line report.ownership a o) ≡ true
      → Touched a
  unfolding owners_of_line get
  line_source a none e l h = cc
  line_source a (some b) e l h = elim (Bool-cases (text_eq b.content a.content)) [
    | inl same ↦
        let (i, n, p, q) = sources.0 a.path a.line b e in
        elim (merge_assignments-has_key target [] (owners_of_key report.ownership b.key)
          (rw same at h)) [
            | inl old ↦ cc
            | inr owned ↦ (b, (i, owned), touches_line a b l n p q same)
          ]
    | inr other ↦ cc (rw other at h)
  ]

  direct_of-Touched :
      (a : Atom)
      → has_key target (
          direct_owners_of report.ownership
            (baseline_index baseline report incoming).0
            (baseline_index baseline report incoming).1
            a)
        ≡ true
      → Touched a
  unfolding direct_owners_of get
  direct_of-Touched a h = elim (Bool-cases (is_line_atom a && text_eq a.side (codes "old"))) [
    | inl l ↦ line_source a _ refl l (rw l at h)
    | inr l ↦ elim (Bool-cases (is_event_atom a && not (text_eq a.event (codes "add")))) [
      | inl v ↦
          elim (merge_owner_sets-has_key target []
            ((baseline_index baseline report incoming).1 (event_path a)) (rw (l, v) at h)) [
              | inl old ↦ cc
              | inr m ↦
                  let (b, owned, here, there) = sources.1 (event_path a) m in
                  (b, owned, touches_event a b v here there)
            ]
      | inr v ↦ cc (rw (l, v) at h)
    ]
  ]

any_witness :
    (p : Atom → Bool) (xs : List Atom) → any p xs ≡ true → (a : Atom) × Memᴰ a xs × (p a ≡ true)
any_witness p [] h = cc
any_witness p (x ∷ xs) h = elim (Bool-cases (p x)) [
  | inl e ↦ (x, Memᴰ.head refl, e)
  | inr e ↦ let (a, i, q) = any_witness p xs (rw e at h) in (a, Memᴰ.tail i, q)
]

one_if_any : (b : Bool) → ◌≡◌ {A = ℕ} (if b then 1 else 0) 1 → b ≡ true
one_if_any true h = refl
one_if_any false h = absurd (omega arith)

-- If the incoming keys are unique, `Analyze` asks for an update of a target only if some incoming
-- atom touches an atom of the baseline that the target owns.
pub analyze-Touched :
    (document : Saga) (baseline : ChangeSet) (report : Report) (incoming : ChangeSet) (mode : Text)
    (incoming_saga : Option Saga) (target : Text)
    → IsUnique (keys incoming.atoms)
    → count_if
        (names_urgent target)
        (analyze document baseline report incoming mode incoming_saga).targets
      ≡ 1
    → (a : Atom) × Memᴰ a incoming.atoms × Touched target baseline report incoming a
analyze-Touched document baseline report incoming mode incoming_saga target u h =
    let asked =
      one_if_any _
        (sym (analyze-targets document baseline report incoming mode incoming_saga target).1 ∙ h) in
    let (a, i, hit) =
      any_witness (is_hit document baseline report incoming target) incoming.atoms asked in
    (
      a,
      i,
      direct_of-Touched target baseline report incoming a
          (ap (has_key target) (sym (direct_at baseline report incoming a u i)) ∙ hit),
    )
