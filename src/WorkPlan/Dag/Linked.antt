-- ===== src/WorkPlan/Dag/Linked.antt =====
-- Lists of nodes that follow each other, and the cycle that a stack closes.
use mathlib.Core.List.Memᴰ
use mathlib.Core.List.{Memᴰ}
use changesaga.Prelude.{
  ◌≡◌, ap, subst, false, List, [], ◌∷◌, ◌++◌, Text, text_eq, text_eq_sound, text_eq_refl,
  Bool-cases, inl, inr,
}
use changesaga.WorkPlan.Graph.{Graph}
use changesaga.WorkPlan.Graph.Paths.{Edge, Walk, last, first, Cycle}
use changesaga.WorkPlan.Dag.{stack_from}

module _ (g : Graph) where
  -- An edge leads from each node to the next.
  abbrev pub IsLinked : List Text → Type 0
  IsLinked [] = Unit {0}
  IsLinked (a ∷ []) = Unit {0}
  IsLinked (a ∷ b ∷ ns) = Edge g a b × IsLinked (b ∷ ns)

  -- A list of linked nodes, more than one, that ends where it starts.
  abbrev pub IsClosedWalk : List Text → Type 0
  IsClosedWalk path =
      (a : Text) × (mid : List Text) × (path ≡ a ∷ (mid ++ (a ∷ []))) × IsLinked path

  pub IsLinked-snoc :
      (ns : List Text) (a b : Text)
      → IsLinked (ns ++ (a ∷ []))
      → Edge g a b
      → IsLinked (ns ++ (a ∷ []) ++ (b ∷ []))
  IsLinked-snoc [] a b h e = (e, tt)
  IsLinked-snoc (c ∷ []) a b h e = (h.0, (e, tt))
  IsLinked-snoc (c ∷ d ∷ ns) a b h e = (h.0, IsLinked-snoc (d ∷ ns) a b h.1 e)

  IsLinked-tail : (a : Text) (ns : List Text) → IsLinked (a ∷ ns) → IsLinked ns
  IsLinked-tail a [] h = tt
  IsLinked-tail a (b ∷ ns) h = h.1

  IsLinked-stack_from : (n : Text) (ns : List Text) → IsLinked ns → IsLinked (stack_from n ns)
  unfolding stack_from
  IsLinked-stack_from n [] h = tt
  IsLinked-stack_from n (s ∷ ss) h = elim (Bool-cases (text_eq s n)) [
    | inl e ↦ rw e h
    | inr e ↦ rw e (IsLinked-stack_from n ss (IsLinked-tail s ss h))
  ]

  stack_from-append :
      (n : Text) (ns ms : List Text) → Memᴰ n ns → stack_from n (ns ++ ms) ≡ stack_from n ns ++ ms
  unfolding stack_from
  stack_from-append n [] ms i = elim i [ ]
  stack_from-append n (s ∷ ss) ms i = elim (Bool-cases (text_eq s n)) [
    | inl e ↦ rw e
    | inr e ↦ elim (Memᴰ.cases_cons i) [
      | inl same ↦ absurd (other s e same)
      | inr j ↦ rw e (stack_from-append n ss ms j)
    ]
  ]
    where
      other : (t : Text) → text_eq t n ≡ false → n ≡ t → ⊥
      other t e same = cc (rw same at e, text_eq_refl t)

  stack_from-head :
      (n : Text) (ns : List Text) → Memᴰ n ns → (mid : List Text) × (stack_from n ns ≡ n ∷ mid)
  unfolding stack_from
  stack_from-head n [] i = elim i [ ]
  stack_from-head n (s ∷ ss) i = elim (Bool-cases (text_eq s n)) [
    | inl e ↦ (ss, rw e (ap (λ t. t ∷ ss) (text_eq_sound s n e)))
    | inr e ↦ rw e (
        stack_from-head n ss
          (elim (Memᴰ.cases_cons i) [ inl same ↦ absurd (other s e same) | inr j ↦ j ]))
  ]
    where
      other : (t : Text) → text_eq t n ≡ false → n ≡ t → ⊥
      other t e same = cc (rw same at e, text_eq_refl t)

  -- An edge back to a node of the stack closes a cycle.
  pub closed_walk :
      (ss : List Text) (node n : Text)
      → IsLinked (ss ++ (node ∷ []))
      → Edge g node n
      → Memᴰ n (ss ++ (node ∷ []))
      → IsClosedWalk (stack_from n (ss ++ (node ∷ [])) ++ (n ∷ []))
  closed_walk ss node n linked edge i =
      let (mid, e) = stack_from-head n (ss ++ (node ∷ [])) i in
      (
        n,
        mid,
        ap (λ t. t ++ (n ∷ [])) e,
        subst IsLinked (stack_from-append n (ss ++ (node ∷ [])) (n ∷ []) i) (
            IsLinked-stack_from n (ss ++ (node ∷ []) ++ (n ∷ []))
              (IsLinked-snoc ss node n linked edge)),
      )

  IsLinked-Walk :
      (a : Text) (mid : List Text) (b : Text) → IsLinked (a ∷ (mid ++ (b ∷ []))) → Walk g a b
  IsLinked-Walk a [] b h = last h.0
  IsLinked-Walk a (c ∷ mid) b h = first h.0 (IsLinked-Walk c mid b h.1)

  pub closed_walk-Cycle : (path : List Text) → IsClosedWalk path → Cycle g
  closed_walk-Cycle path c = (c.0, IsLinked-Walk c.0 c.1 c.0 (subst IsLinked c.2 c.3))
