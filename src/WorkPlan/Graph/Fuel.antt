-- ===== src/WorkPlan/Graph/Fuel.antt =====
-- A walk that has more fuel than there are nodes comes to an end.
use mathlib.Core.List.Memᴰ
use mathlib.Core.List.{Memᴰ}
use changesaga.Prelude.{
  ℕ, zero, suc, ◌≤◌, ◌<◌, ◌≡◌, refl, sym, ◌∙◌, ap, Bool, true, false, none, some, List, [], ◌∷◌,
  Text, text_eq, text_eq_refl, Bool-cases, inl, inr, arith, length, count_if,
}
use changesaga.WorkPlan.Graph.{
  Graph, parents_of, Mark, unvisited, visiting, visited, Marks, set_mark, Visit, unless_found,
  visit_each, enter, leave, visit, nodes, keys, all_parents,
}
use changesaga.WorkPlan.Graph.Paths.{Edge}
use changesaga.WorkPlan.Graph.Verdict.{set_mark-cases}

abbrev pub is_unvisited : Mark → Bool
is_unvisited unvisited = true
is_unvisited visiting = false
is_unvisited visited = false

count_if-le :
    {A : Type 0} (p q : A → Bool) (h : (x : A) → p x ≡ true → q x ≡ true) (xs : List A)
    → count_if p xs ≤ count_if q xs
count_if-le p q h [] = omega arith
count_if-le p q h (x ∷ xs) = ground (arith, count_if-le p q h xs, h x)

count_if-lt :
    {A : Type 0} (p q : A → Bool) (h : (x : A) → p x ≡ true → q x ≡ true)
    → {a : A} → p a ≡ false
    → q a ≡ true
    → (xs : List A) → Memᴰ a xs
    → count_if p xs < count_if q xs
count_if-lt p q h out in_q [] i = elim i [ ]
count_if-lt p q h {a = a} out in_q (x ∷ xs) (Memᴰ.head e) =
    rw (← e) (rw (out, in_q) (omega (arith, count_if-le p q h xs)))
count_if-lt p q h out in_q (x ∷ xs) (Memᴰ.tail i) =
    ground (arith, count_if-lt p q h out in_q xs i, h x)

pub count_if-length : {A : Type 0} (p : A → Bool) (xs : List A) → count_if p xs ≤ length xs
count_if-length p [] = omega arith
count_if-length p (x ∷ xs) = ground (arith, count_if-length p xs)

parents_of-all_parents : (g : Graph) (n p : Text) → Edge g n p → Memᴰ p (all_parents g)
unfolding parents_of
parents_of-all_parents [] n p i = elim i [ ]
parents_of-all_parents ((m, ps) ∷ g) n p i = elim (Bool-cases (text_eq m n)) [
  | inl e ↦ Memᴰ.append_left (all_parents g) (rw e at i)
  | inr e ↦ Memᴰ.append_right ps (parents_of-all_parents g n p (rw e at i))
]

module _ (g : Graph) where
  pub Edge-nodes : (n p : Text) → Edge g n p → Memᴰ p (nodes g)
  Edge-nodes n p i = Memᴰ.append_right (keys g) (parents_of-all_parents g n p i)

  -- How many nodes no visit has met.
  abbrev pub left : Marks → ℕ
  left marks = count_if (λ m. is_unvisited (marks m)) (nodes g)

  abbrev pub Shrinks : Marks → Marks → Type 0
  Shrinks before after = (m : Text) → is_unvisited (after m) ≡ true → is_unvisited (before m) ≡ true

  -- The fuel did not run out.
  abbrev pub Returns : Marks → Visit → Type 0
  Returns before none = ⊥
  Returns before (some (true, after)) = Unit {0}
  Returns before (some (false, after)) = Shrinks before after

  pub Shrinks-set_mark :
      (n : Text) (k : Mark) (marks : Marks)
      → is_unvisited k ≡ false
      → Shrinks marks (set_mark n k marks)
  Shrinks-set_mark n k marks h m e = elim (set_mark-cases n k marks m) [
    | inl s ↦ cc (ap is_unvisited s.1)
    | inr s ↦ ap is_unvisited (sym s.1) ∙ e
  ]

  pub left-set_mark :
      (n : Text) (marks : Marks)
      → Memᴰ n (nodes g)
      → marks n ≡ unvisited
      → left (set_mark n visiting marks) < left marks
  left-set_mark n marks i e =
      count_if-lt _ _ (Shrinks-set_mark n visiting marks refl) {a = n} (rw (text_eq_refl n)) (rw e)
        (nodes g) i

  Returns-then :
      (before : Marks) (rest : Marks → Visit)
      → ((after : Marks) → Shrinks before after → Returns after (rest after))
      → (v : Visit) → Returns before v
      → Returns before (unless_found rest v)
  Returns-then before rest h none r = r
  Returns-then before rest h (some (true, after)) r = r
  Returns-then before rest h (some (false, after)) r = through (rest after) (h after r)
    where
      through : (v : Visit) → Returns after v → Returns before v
      through none s = s
      through (some (true, end)) s = s
      through (some (false, end)) s = λ m e. r m (s m e)

  pub left-Shrinks : (before after : Marks) → Shrinks before after → left after ≤ left before
  left-Shrinks before after s = count_if-le _ _ s (nodes g)

  pub visit_each-Returns :
      (go : Text → Marks → Visit) (fuel : ℕ)
      → ((p : Text) (marks : Marks)
          → Memᴰ p (nodes g)
          → left marks < fuel
          → Returns marks (go p marks))
      → (ps : List Text) (marks : Marks) → ((p : Text) → Memᴰ p ps → Memᴰ p (nodes g))
      → left marks < fuel
      → Returns marks (visit_each go ps marks)
  unfolding visit_each
  visit_each-Returns go fuel each [] marks known lt = λ m e. e
  visit_each-Returns go fuel each (p ∷ ps) marks known lt =
      Returns-then marks (visit_each go ps)
        (λ after s.
          visit_each-Returns go fuel each ps after (λ q i. known q (Memᴰ.tail i))
            (omega (arith, left-Shrinks marks after s)))
        (go p marks) (each p marks (known p (Memᴰ.head refl)) lt)

  leave-Returns :
      (n : Text) (marks : Marks) (v : Visit)
      → Returns (set_mark n visiting marks) v
      → Returns marks (unless_found (leave n) v)
  leave-Returns n marks none r = r
  leave-Returns n marks (some (true, after)) r = r
  leave-Returns n marks (some (false, after)) r = λ m e.
      Shrinks-set_mark n visiting marks refl m (r m (Shrinks-set_mark n visited after refl m e))

  enter-Returns :
      (walk : Marks → Visit) (n : Text) (marks : Marks)
      → (marks n ≡ unvisited
          → Returns (set_mark n visiting marks) (walk (set_mark n visiting marks)))
      → (k : Mark) → marks n ≡ k
      → Returns marks (enter walk n marks k)
  unfolding enter
  enter-Returns walk n marks walks visiting e = tt
  enter-Returns walk n marks walks visited e = λ m h. h
  enter-Returns walk n marks walks unvisited e =
      leave-Returns n marks (walk (set_mark n visiting marks)) (walks e)

  pub visit-Returns :
      (fuel : ℕ) (n : Text) (marks : Marks)
      → Memᴰ n (nodes g)
      → left marks < fuel
      → Returns marks (visit g fuel n marks)
  unfolding visit
  visit-Returns zero n marks i lt = elim lt [ ]
  visit-Returns (suc fuel) n marks i lt =
      enter-Returns (visit_each (visit g fuel) (parents_of g n)) n marks
        (λ e.
          visit_each-Returns (visit g fuel) fuel (visit-Returns fuel) (parents_of g n)
            (set_mark n visiting marks) (Edge-nodes n) (omega (arith, left-set_mark n marks i e)))
        (marks n) refl
