-- ===== src/Prelude/Sorting.antt =====
-- `sort.Slice` by a comparison. Elements that compare as equal keep their order here; Go leaves their
-- order open, and no lemma depends on it.
use mathlib.Core.Bool.{Bool, true, not}
use mathlib.Core.List.{List, [], ◌∷◌, map}
use mathlib.Core.Path.{◌≡◌, refl, sym, ap, ◌∙◌}
use native.Mathlib.Omega.{arith}
use changesaga.Prelude.Tests.{if◌then◌else◌, ◌==◌}
use changesaga.Prelude.Lists.{length, count_if, all, any}

module _ {A : Type 0} (lt : A → A → Bool) where
  unfoldable pub insert_by : A → List A → List A
  insert_by x [] = x ∷ []
  insert_by x (y ∷ ys) = if lt x y then x ∷ y ∷ ys else y ∷ insert_by x ys

  unfoldable pub sort_by : List A → List A
  unfolding insert_by
  sort_by [] = []
  sort_by (x ∷ xs) = insert_by x (sort_by xs)

  count_if-insert_by :
      (p : A → Bool) (x : A) (ys : List A) → count_if p (insert_by x ys) ≡ count_if p (x ∷ ys)
  unfolding insert_by
  count_if-insert_by p x [] = refl
  count_if-insert_by p x (y ∷ ys) = ground (arith, count_if-insert_by p x ys)

  -- Sorting changes no count.
  pub count_if-sort_by : (p : A → Bool) (xs : List A) → count_if p (sort_by xs) ≡ count_if p xs
  unfolding sort_by
  count_if-sort_by p [] = refl
  count_if-sort_by p (x ∷ xs) =
      count_if-insert_by p x (sort_by xs) ∙ ground (arith, count_if-sort_by p xs)

pub length-count_if : {A : Type 0} (xs : List A) → count_if (λ x. true) xs ≡ length xs
length-count_if [] = refl
length-count_if (x ∷ xs) = ground (arith, length-count_if xs)

pub count_if-map :
    {A B : Type 0} (p : B → Bool) (f : A → B) (xs : List A)
    → count_if p (map f xs) ≡ count_if (λ x. p (f x)) xs
count_if-map p f [] = refl
count_if-map p f (x ∷ xs) = ground (arith, count_if-map p f xs)

pub length-sort_by :
    {A : Type 0} (lt : A → A → Bool) (xs : List A) → length (sort_by lt xs) ≡ length xs
length-sort_by lt xs =
    sym (length-count_if (sort_by lt xs)) ∙ count_if-sort_by lt (λ x. true) xs ∙ length-count_if xs

-- A test for all is a count of those that fail, and a test for any a count of those that pass.
pub all-count_if :
    {A : Type 0} (p : A → Bool) (xs : List A) → all p xs ≡ (count_if (λ x. not (p x)) xs == 0)
all-count_if p [] = refl
all-count_if p (x ∷ xs) = ground (arith, all-count_if p xs)

pub any-count_if : {A : Type 0} (p : A → Bool) (xs : List A) → any p xs ≡ not (count_if p xs == 0)
any-count_if p [] = refl
any-count_if p (x ∷ xs) = ground (arith, any-count_if p xs)

pub all-sort_by :
    {A : Type 0} (lt : A → A → Bool) (p : A → Bool) (xs : List A) → all p (sort_by lt xs) ≡ all p xs
all-sort_by lt p xs =
    all-count_if p (sort_by lt xs)
    ∙ ap (λ n. n == 0) (count_if-sort_by lt (λ x. not (p x)) xs)
    ∙ sym (all-count_if p xs)
