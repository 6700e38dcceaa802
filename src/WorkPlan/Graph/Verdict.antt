-- ===== src/WorkPlan/Graph/Verdict.antt =====
-- What a walk leaves behind: a cycle, or marks whose finished nodes lie on none.
use mathlib.Core.List.{Memᴰ}
use changesaga.Prelude.{
  ℕ, zero, suc, ◌≡◌, refl, ◌≢◌, sym, ◌∙◌, subst, true, false, none, some, List, [], ◌∷◌, Text,
  text_eq, text_eq_sound, text_eq_complete, ap, text_eq_refl, Bool-cases, inl, inr, arith, All, ◌⊎◌,
}
use changesaga.WorkPlan.Graph.{
  Graph, parents_of, Mark, unvisited, visiting, visited, Marks, set_mark, Visit, unless_found,
  visit_each, enter, leave, visit,
}
use changesaga.WorkPlan.Graph.Paths.{Edge, Walk, last, Ends, ends, Cycle, extend}

set_mark_same : (n : Text) (k : Mark) (marks : Marks) → set_mark n k marks n ≡ k
set_mark_same n k marks = rw (text_eq_refl n)

visiting-ne-visited : visiting ≢ visited
visiting-ne-visited e = cc

unvisited-ne-visited : unvisited ≢ visited
unvisited-ne-visited e = cc

other_node : {m n : Text} → text_eq m n ≡ false → m ≡ n → ⊥
other_node {m = m} {n = n} h e = ground (arith, text_eq_complete m n)

-- A mark is the new one, or the old one of another node.
pub set_mark-cases :
    (n : Text) (k : Mark) (marks : Marks) (m : Text)
    → ((m ≡ n) × (set_mark n k marks m ≡ k))
      ⊎ ((text_eq m n ≡ false) × (set_mark n k marks m ≡ marks m))
set_mark-cases n k marks m = elim (Bool-cases (text_eq m n)) [
  | inl e ↦ inl (text_eq_sound m n e, rw e)
  | inr e ↦ inr (e, rw e)
]

module _ (g : Graph) where
  -- Every walk from a finished node ends.
  abbrev pub Finished : Marks → Type 0
  Finished marks = (m : Text) → marks m ≡ visited → Ends g m

  -- No node is opened for good, and none is forgotten.
  abbrev pub Keeps : Marks → Marks → Type 0
  Keeps before after =
      ((m : Text) → after m ≡ visiting → before m ≡ visiting)
      × ((m : Text) → before m ≡ visited → after m ≡ visited)

  -- The nodes that are being visited have a path to this one.
  abbrev pub LeadsTo : Marks → Text → Type 0
  LeadsTo marks n = (m : Text) → marks m ≡ visiting → Walk g m n

  abbrev pub Outcome : List Text → Marks → Visit → Type 0
  Outcome ns before none = Unit {0}
  Outcome ns before (some (true, after)) = Cycle g
  Outcome ns before (some (false, after)) =
      Finished after × Keeps before after × All (λ n. after n ≡ visited) ns

  All-kept :
      (ns : List Text) {before after : Marks}
      → Keeps before after
      → All (λ n. before n ≡ visited) ns
      → All (λ n. after n ≡ visited) ns
  All-kept [] k h = tt
  All-kept (n ∷ ns) k h = (k.1 n h.0, All-kept ns k h.1)

  after_rest :
      (p : Text) (ps : List Text) {before middle : Marks}
      → Keeps before middle
      → middle p ≡ visited
      → (v : Visit) → Outcome ps middle v
      → Outcome (p ∷ ps) before v
  after_rest p ps k e none o = tt
  after_rest p ps k e (some (true, after)) o = o
  after_rest p ps k e (some (false, after)) o =
      (o.0, (λ m a. k.0 m (o.1.0 m a), λ m a. o.1.1 m (k.1 m a)), (o.1.1 p e, o.2))

  after_first :
      (p : Text) (ps : List Text) (before : Marks) (rest : Marks → Visit)
      → ((middle : Marks) → Finished middle → Keeps before middle → Outcome ps middle (rest middle))
      → (v : Visit) → Outcome (p ∷ []) before v
      → Outcome (p ∷ ps) before (unless_found rest v)
  after_first p ps before rest h none o = tt
  after_first p ps before rest h (some (true, middle)) o = o
  after_first p ps before rest h (some (false, middle)) o =
      after_rest p ps o.1 o.2.0 (rest middle) (h middle o.0 o.1)

  pub visit_each-Outcome :
      (go : Text → Marks → Visit)
      → ((p : Text) (marks : Marks)
          → Finished marks
          → LeadsTo marks p
          → Outcome (p ∷ []) marks (go p marks))
      → (ps : List Text) (marks : Marks) → Finished marks
      → ((p : Text) → Memᴰ p ps → LeadsTo marks p)
      → Outcome ps marks (visit_each go ps marks)
  unfolding visit_each
  visit_each-Outcome go each [] marks fin leads = (fin, (λ m e. e, λ m e. e), tt)
  visit_each-Outcome go each (p ∷ ps) marks fin leads =
      after_first p ps marks (visit_each go ps)
        (λ middle fin' k.
          visit_each-Outcome go each ps middle fin' (λ q i m e. leads q (Memᴰ.tail i) m (k.0 m e)))
        (go p marks) (each p marks fin (leads p (Memᴰ.head refl)))

  -- The parents of a node are walked while it is being visited.
  pub Finished-visiting :
      (n : Text) (marks : Marks) → Finished marks → Finished (set_mark n visiting marks)
  Finished-visiting n marks fin m e = elim (set_mark-cases n visiting marks m) [
    | inl s ↦ absurd (visiting-ne-visited (sym s.1 ∙ e))
    | inr s ↦ fin m (sym s.1 ∙ e)
  ]

  LeadsTo-visiting :
      (n p : Text) (marks : Marks)
      → LeadsTo marks n
      → Edge g n p
      → LeadsTo (set_mark n visiting marks) p
  LeadsTo-visiting n p marks leads edge m e = elim (set_mark-cases n visiting marks m) [
    | inl s ↦ subst (λ x. Walk g x p) (sym s.0) (last edge)
    | inr s ↦ extend (leads m (sym s.1 ∙ e)) edge
  ]

  -- Once all its parents are finished, a node is.
  All-Ends :
      (ps : List Text) {marks : Marks}
      → Finished marks
      → All (λ n. marks n ≡ visited) ps
      → (p : Text) → Memᴰ p ps
      → Ends g p
  All-Ends [] fin h p i = elim i [ ]
  All-Ends (q ∷ ps) fin h p (Memᴰ.head e) = subst (Ends g) (sym e) (fin q h.0)
  All-Ends (q ∷ ps) fin h p (Memᴰ.tail i) = All-Ends ps fin h.1 p i

  pub leave-Outcome :
      (n : Text) (marks : Marks) (v : Visit)
      → marks n ≡ unvisited
      → Outcome (parents_of g n) (set_mark n visiting marks) v
      → Outcome (n ∷ []) marks (unless_found (leave n) v)
  leave-Outcome n marks none new o = tt
  leave-Outcome n marks (some (true, after)) new o = o
  leave-Outcome n marks (some (false, after)) new o = (
    λ m e. elim (set_mark-cases n visited after m) [
      | inl s ↦ subst (Ends g) (sym s.0) (ends (All-Ends (parents_of g n) o.0 o.2))
      | inr s ↦ o.0 m (sym s.1 ∙ e)
    ],
    (
      λ m e. elim (set_mark-cases n visited after m) [
        | inl s ↦ absurd (visiting-ne-visited (sym e ∙ s.1))
        | inr s ↦ elim (set_mark-cases n visiting marks m) [
          | inl t ↦ absurd (other_node s.0 t.0)
          | inr t ↦ sym t.1 ∙ o.1.0 m (sym s.1 ∙ e)
        ]
      ],
      λ m e. elim (set_mark-cases n visiting marks m) [
        | inl t ↦ absurd (unvisited-ne-visited (sym new ∙ ap marks (sym t.0) ∙ e))
        | inr t ↦ elim (set_mark-cases n visited after m) [
          | inl s ↦ s.1
          | inr s ↦ s.1 ∙ o.1.1 m (t.1 ∙ e)
        ]
      ],
    ),
    (set_mark_same n visited after, tt),
  )

  enter-Outcome :
      (walk : Marks → Visit) (n : Text) (marks : Marks)
      → Finished marks
      → LeadsTo marks n
      → (Finished (set_mark n visiting marks)
          → ((p : Text) → Edge g n p → LeadsTo (set_mark n visiting marks) p)
          → Outcome (parents_of g n) (set_mark n visiting marks) (walk (set_mark n visiting marks)))
      → (k : Mark) → marks n ≡ k
      → Outcome (n ∷ []) marks (enter walk n marks k)
  unfolding enter
  enter-Outcome walk n marks fin leads walks visiting e = (n, leads n e)
  enter-Outcome walk n marks fin leads walks visited e = (fin, (λ m h. h, λ m h. h), (e, tt))
  enter-Outcome walk n marks fin leads walks unvisited e =
      leave-Outcome n marks (walk (set_mark n visiting marks)) e
        (walks (Finished-visiting n marks fin) (λ p edge. LeadsTo-visiting n p marks leads edge))

  pub visit-Outcome :
      (fuel : ℕ) (n : Text) (marks : Marks)
      → Finished marks
      → LeadsTo marks n
      → Outcome (n ∷ []) marks (visit g fuel n marks)
  unfolding visit
  visit-Outcome zero n marks fin leads = tt
  visit-Outcome (suc fuel) n marks fin leads =
      enter-Outcome (visit_each (visit g fuel) (parents_of g n)) n marks fin leads
        (λ fin' leads'.
          visit_each-Outcome (visit g fuel) (visit-Outcome fuel) (parents_of g n)
            (set_mark n visiting marks) fin' leads')
        (marks n) refl
