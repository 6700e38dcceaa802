-- ===== src/WorkPlan/Nodes/Resolved.antt =====
-- An event whose parents are the heads of its stream becomes the only head.
use mathlib.Core.List.{Memᴰ}
use mathlib.Core.List.Memᴰ
use changesaga.Prelude.{
  ◌≡◌, refl, ◌↔◌, inl, inr, sym, subst, append_assoc, true, List, [], ◌∷◌, ◌++◌, Text,
  text_eq_sound, text_eq, sort_texts, sort_texts-Memᴰ, All, Bool-cases, arith,
}
use changesaga.WorkPlan.Graph.{EventNode}
use changesaga.WorkPlan.Nodes.{event_ids, event_parents, concat_texts, event_heads}
use changesaga.WorkPlan.Nodes.Issues.{IsDistinct, IsDistinctFrom}
use changesaga.WorkPlan.Nodes.Accepted.{IsEventGraph, heads_of-Memᴰ}
use changesaga.WorkPlan.Mutations.{same_set, same_texts}

same_texts_sound : (ss ts : List Text) → same_texts ss ts ≡ true → ss ≡ ts
unfolding text_eq
same_texts_sound [] [] h = refl
same_texts_sound [] (t ∷ ts) h = cc
same_texts_sound (s ∷ ss) [] h = cc
same_texts_sound (s ∷ ss) (t ∷ ts) h = elim (Bool-cases (text_eq s t)) [
  | inl e ↦ rw (text_eq_sound s t e, same_texts_sound ss ts (ground arith)) refl
  | inr e ↦ ground arith
]

-- `sameSet` holds only of lists with the same elements.
pub same_set-Memᴰ :
    (left right : List Text) → same_set left right ≡ true → (t : Text) → Memᴰ t left ↔ Memᴰ t right
unfolding same_set
same_set-Memᴰ left right h t =
    let e = same_texts_sound (sort_texts left) (sort_texts right) (ground arith) in
    (
      λ i. (sort_texts-Memᴰ t right).0 (subst (λ ss. Memᴰ t ss) e ((sort_texts-Memᴰ t left).1 i)),
      λ i.
          (sort_texts-Memᴰ t left).0
            (subst (λ ss. Memᴰ t ss) (sym e) ((sort_texts-Memᴰ t right).1 i)),
    )

pub ids-append :
    (ns : List EventNode) (n : EventNode) → event_ids (ns ++ (n ∷ [])) ≡ event_ids ns ++ (n.id ∷ [])
ids-append [] n = refl
ids-append (m ∷ ns) n = rw (ids-append ns n) refl

pub parent_lists-append :
    (ns : List EventNode) (n : EventNode)
    → event_parents (ns ++ (n ∷ [])) ≡ event_parents ns ++ (n.parents ∷ [])
parent_lists-append [] n = refl
parent_lists-append (m ∷ ns) n = rw (parent_lists-append ns n) refl

parents-append :
    (ns : List EventNode) (n : EventNode)
    → concat_texts (event_parents (ns ++ (n ∷ [])))
      ≡ concat_texts (event_parents ns) ++ (n.parents ++ [])
parents-append [] n = refl
parents-append (m ∷ ns) n = rw (parents-append ns n, append_assoc) refl

distinct-later :
    (set ts : List Text) (t : Text) → IsDistinctFrom set ts → Memᴰ t set → Memᴰ t ts → ⊥
distinct-later set [] t d i j = elim j [ ]
distinct-later set (u ∷ ts) t d i (Memᴰ.head e) = d.0 (subst (λ x. Memᴰ x set) e i)
distinct-later set (u ∷ ts) t d i (Memᴰ.tail j) = distinct-later (u ∷ set) ts t d.1 (Memᴰ.tail i) j

-- The last text of a list without duplicates stands nowhere before.
distinct-last :
    (set ts : List Text) (t : Text) → IsDistinctFrom set (ts ++ (t ∷ [])) → Memᴰ t ts → ⊥
distinct-last set [] t d i = elim i [ ]
distinct-last set (u ∷ ts) t d (Memᴰ.head e) =
    distinct-later (u ∷ set) (ts ++ (t ∷ [])) t d.1 (Memᴰ.head e)
      (Memᴰ.append_right ts (Memᴰ.head refl))
distinct-last set (u ∷ ts) t d (Memᴰ.tail i) = distinct-last (u ∷ set) ts t d.1 i

parents_exist :
    (ids : List Text) (pss : List (List Text))
    → All (λ ps. IsDistinct ps × All (λ p. Memᴰ p ids) ps) pss
    → (p : Text) → Memᴰ p (concat_texts pss)
    → Memᴰ p ids
parents_exist ids [] h p i = elim i [ ]
parents_exist ids (ps ∷ pss) h p i = elim (Memᴰ.append_cases ps i) [
  | inl j ↦ at ps h.0.1 j
  | inr j ↦ parents_exist ids pss h.1 p j
]
  where
    at : (qs : List Text) → All (λ q. Memᴰ q ids) qs → Memᴰ p qs → Memᴰ p ids
    at [] k j = elim j [ ]
    at (q ∷ qs) k (Memᴰ.head e) = subst (λ x. Memᴰ x ids) (sym e) k.0
    at (q ∷ qs) k (Memᴰ.tail j) = at qs k.1 j

pub event_heads-Memᴰ :
    (h : Text) (ns : List EventNode)
    → Memᴰ h (event_heads ns)
      ↔ (Memᴰ h (event_ids ns) × (Memᴰ h (concat_texts (event_parents ns)) → ⊥))
unfolding event_heads
event_heads-Memᴰ h ns = heads_of-Memᴰ h (event_ids ns) (concat_texts (event_parents ns))

module _ (ns : List EventNode) (n : EventNode) where
  -- The event is then the only head.
  pub event_heads-append :
      IsEventGraph ns
      → IsEventGraph (ns ++ (n ∷ []))
      → same_set n.parents (event_heads ns) ≡ true
      → (h : Text) → Memᴰ h (event_heads (ns ++ (n ∷ []))) ↔ (h ≡ n.id)
  event_heads-append old new same h = (only, head)
    where
      fresh : Memᴰ n.id (event_ids ns) → ⊥
      fresh = distinct-last [] (event_ids ns) n.id (subst IsDistinct (ids-append ns n) new.0)

      only : Memᴰ h (event_heads (ns ++ (n ∷ []))) → h ≡ n.id
      only i =
          let both = (event_heads-Memᴰ h (ns ++ (n ∷ []))).0 i in
          let apart = λ (j : Memᴰ h (concat_texts (event_parents ns) ++ (n.parents ++ []))).
            both.1 (subst (λ ps. Memᴰ h ps) (sym (parents-append ns n)) j) in
          elim (Memᴰ.append_cases (event_ids ns)
            (subst (λ is. Memᴰ h is) (ids-append ns n) both.0)) [
              | inl j ↦ absurd (
                  apart (
                    Memᴰ.append_right (concat_texts (event_parents ns)) (
                      Memᴰ.append_left [] (
                        (same_set-Memᴰ n.parents (event_heads ns) same h).1 (
                          (event_heads-Memᴰ h ns).1
                            (j, λ k. apart (Memᴰ.append_left (n.parents ++ []) k)))))))
              | inr j ↦ elim (Memᴰ.cases_cons j) [ inl e ↦ e | inr k ↦ elim k [ ] ]
            ]

      earlier : Memᴰ h (concat_texts (event_parents (ns ++ (n ∷ [])))) → Memᴰ h (event_ids ns)
      earlier j =
          elim (Memᴰ.append_cases (concat_texts (event_parents ns))
            (subst (λ ps. Memᴰ h ps) (parents-append ns n) j)) [
              | inl k ↦ parents_exist (event_ids ns) (event_parents ns) old.1 h k
              | inr k ↦ elim (Memᴰ.append_cases n.parents k) [
                | inl l ↦
                    ((event_heads-Memᴰ h ns).0
                      ((same_set-Memᴰ n.parents (event_heads ns) same h).0 l)).0
                | inr l ↦ elim l [ ]
              ]
            ]

      head : h ≡ n.id → Memᴰ h (event_heads (ns ++ (n ∷ [])))
      head e = (event_heads-Memᴰ h (ns ++ (n ∷ []))).1 (
        subst (λ is. Memᴰ h is) (sym (ids-append ns n))
            (Memᴰ.append_right (event_ids ns) (Memᴰ.head e)),
        λ j. fresh (subst (λ x. Memᴰ x (event_ids ns)) e (earlier j)),
      )
