-- ===== src/WorkPlan/Nodes/Issues.antt =====
-- When the checks of a graph of revisions or events add no issue.

use mathlib.Core.List.{Memᴰ}
use changesaga.Prelude.{
  ℕ, ◌≡◌, refl, ◌↔◌, inl, inr, ◌∙◌, ap, Bool, true, false, not, List, [], ◌∷◌, ◌++◌, append-nil,
  Text, codes, has, has_sound, has_complete, has_absent, All, ◌==◌, Bool-cases, arith,
}
use changesaga.WorkPlan.Records.{Issue, Validation}
use changesaga.WorkPlan.Nodes.{
  error_if, add_issues, duplicate_issues, missing_issues, duplicate_strings_from, duplicate_strings,
  revision_parent_issues, event_parent_issues,
}

-- No text stands in the set or earlier in the list.
abbrev pub IsDistinctFrom : List Text → List Text → Type 0
IsDistinctFrom set [] = Unit {0}
IsDistinctFrom set (t ∷ ts) = (Memᴰ t set → ⊥) × IsDistinctFrom (t ∷ set) ts

abbrev pub IsDistinct : List Text → Type 0
IsDistinct = IsDistinctFrom []

pub append-empty : {A : Type 0} (xs ys : List A) → (xs ++ ys ≡ []) ↔ ((xs ≡ []) × (ys ≡ []))
append-empty [] ys = (λ h. (refl, h), λ h. h.1)
append-empty (x ∷ xs) ys = (λ h. cc, λ h. cc)

pub error_if-empty :
    (b : Bool) (path message : Text) {P : Type 0}
    → (b ≡ false) ↔ P
    → (error_if b path message ≡ []) ↔ P
error_if-empty true path message p = (λ h. cc, λ h. cc (p.1 h))
error_if-empty false path message p = (λ h. p.0 refl, λ h. refl)

-- Two lists of issues are both empty.
pub both_empty :
    {xs ys : List Issue} {P Q : Type 0} → (xs ≡ []) ↔ P → (ys ≡ []) ↔ Q → (xs ++ ys ≡ []) ↔ (P × Q)
both_empty {xs = xs} {ys = ys} p q = (
  λ h. let (x, y) = (append-empty xs ys).0 h in (p.0 x, q.0 y),
  λ h. (append-empty xs ys).1 (p.1 h.0, q.1 h.1),
)

pub has-absent_iff : (t : Text) (set : List Text) → (has t set ≡ false) ↔ (Memᴰ t set → ⊥)
has-absent_iff t set = (
  has_absent t set,
  λ h. elim (Bool-cases (has t set)) [ inl e ↦ absurd (h (has_sound t set e)) | inr e ↦ e ],
)

has-present_iff : (t : Text) (set : List Text) → (not (has t set) ≡ false) ↔ Memᴰ t set
has-present_iff t set = (λ h. has_sound t set (ground arith), λ i. rw (has_complete t set i))

pub duplicate_issues-empty :
    (path message : Text) (set ids : List Text)
    → (duplicate_issues path message set ids ≡ []) ↔ IsDistinctFrom set ids
unfolding duplicate_issues
duplicate_issues-empty path message set [] = (λ h. tt, λ h. refl)
duplicate_issues-empty path message set (id ∷ ids) =
    both_empty (error_if-empty (has id set) path message (has-absent_iff id set))
      (duplicate_issues-empty path message (id ∷ set) ids)

missing_issues-empty :
    (path message : Text) (ids ps : List Text)
    → (missing_issues path message ids ps ≡ []) ↔ All (λ p. Memᴰ p ids) ps
unfolding missing_issues
missing_issues-empty path message ids [] = (λ h. tt, λ h. refl)
missing_issues-empty path message ids (p ∷ ps) =
    both_empty (error_if-empty (not (has p ids)) path (message ++ p) (has-present_iff p ids))
      (missing_issues-empty path message ids ps)

duplicate_strings_from_iff :
    (set ts : List Text) → (duplicate_strings_from set ts ≡ false) ↔ IsDistinctFrom set ts
unfolding duplicate_strings_from
duplicate_strings_from_iff set [] = (λ h. tt, λ h. refl)
duplicate_strings_from_iff set (t ∷ ts) = elim (Bool-cases (has t set)) [
  | inl e ↦ rw e (λ h. cc, λ h. absurd (h.0 (has_sound t set e)))
  | inr e ↦ rw e (
    λ h. (has_absent t set e, (duplicate_strings_from_iff (t ∷ set) ts).0 h),
    λ h. (duplicate_strings_from_iff (t ∷ set) ts).1 h.1,
  )
]

-- `duplicateStrings` is false exactly on lists where no text stands twice.
pub duplicate_strings-IsDistinct : (ts : List Text) → (duplicate_strings ts ≡ false) ↔ IsDistinct ts
unfolding duplicate_strings
duplicate_strings-IsDistinct ts = duplicate_strings_from_iff [] ts

-- Every parent is a node.
abbrev pub ParentsExist : List Text → List (List Text) → Type 0
ParentsExist ids = All (All (λ p. Memᴰ p ids))

pub revision_parent_issues-empty :
    (path : Text) (ids : List Text) (pss : List (List Text))
    → (revision_parent_issues path ids pss ≡ []) ↔ ParentsExist ids pss
unfolding revision_parent_issues
revision_parent_issues-empty path ids [] = (λ h. tt, λ h. refl)
revision_parent_issues-empty path ids (ps ∷ pss) =
    both_empty (missing_issues-empty path (codes "revision parent does not exist: ") ids ps)
      (revision_parent_issues-empty path ids pss)

pub event_parent_issues-empty :
    (path : Text) (ids : List Text) (pss : List (List Text))
    → (event_parent_issues path ids pss ≡ [])
      ↔ All (λ ps. IsDistinct ps × All (λ p. Memᴰ p ids) ps) pss
unfolding event_parent_issues
event_parent_issues-empty path ids [] = (λ h. tt, λ h. refl)
event_parent_issues-empty path ids (ps ∷ pss) =
    let head =
      error_if-empty (duplicate_strings ps) path (codes "event parents must be unique")
        (duplicate_strings-IsDistinct ps) in
    let rest =
      both_empty (missing_issues-empty path (codes "event parent does not exist: ") ids ps)
        (event_parent_issues-empty path ids pss) in
    let all = both_empty head rest in
    (λ h. let r = all.0 h in ((r.0, r.1.0), r.1.1), λ h. all.1 (h.0.0, (h.0.1, h.1)))

pub one-initial_iff : (n : ℕ) → (not (n == 1) ≡ false) ↔ (n ≡ 1)
one-initial_iff n = (λ h. ground arith, λ h. ground arith)

pub acyclic_iff : {b : Bool} {C : Type 0} → (b ≡ true) ↔ C → (b ≡ false) ↔ (C → ⊥)
acyclic_iff {b = true} c = (λ h. cc, λ h. absurd (h (c.0 refl)))
acyclic_iff {b = false} c = (λ h x. cc (c.1 x), λ h. refl)

pub add_issues-same :
    (v : Validation) (issues : List Issue) → (add_issues v issues ≡ v) ↔ (issues ≡ [])
add_issues-same v issues = (
  λ h. no_longer v.issues issues (ap (λ w. w.issues) h),
  λ h. ap (λ is. record v { issues = is }) (ap (λ is. v.issues ++ is) h ∙ append-nil v.issues),
)
  where
    no_longer : {A : Type 0} (xs ys : List A) → xs ++ ys ≡ xs → ys ≡ []
    no_longer [] ys h = h
    no_longer (x ∷ xs) ys h = no_longer xs ys cc
