-- ===== src/Readiness/Delivered.antt =====
-- When a criterion counts as delivered, and when a Saga is ready for peer review.
use changesaga.Prelude.{
  ◌≡◌, refl, Bool, false, not, ◌&&◌, List, [], ◌∷◌, Text, has, sort_texts, insert_text, sort_by,
  insert_by, all-sort_by, any, all, Bool-cases, inl, inr, arith,
}
use changesaga.Readiness.{
  Blocker, Criterion, prevents_delivery, has_delivery_blocker, is_blank, unique_from, unique_sorted,
  blocker_lt, path_lt, is_none, project,
}

-- Some evidence has a text, no blocker prevents delivery, and no path leads upstream.
abbrev pub is_delivered : Criterion → Bool
is_delivered c =
    any (λ e. not (is_blank e)) c.evidence
    && all (λ b. not (prevents_delivery b)) c.direct_blockers
    && is_none c.upstream_paths

has_delivery_blocker-all :
    (bs : List Blocker) → not (has_delivery_blocker bs) ≡ all (λ b. not (prevents_delivery b)) bs
unfolding has_delivery_blocker
has_delivery_blocker-all [] = refl
has_delivery_blocker-all (b ∷ bs) = elim (Bool-cases (prevents_delivery b)) [
  | inl e ↦ rw e
  | inr e ↦ rw e (has_delivery_blocker-all bs)
]

is_none-insert_by :
    {A : Type 0} (lt : A → A → Bool) (x : A) (ys : List A) → is_none (insert_by lt x ys) ≡ false
unfolding insert_by
is_none-insert_by lt x [] = refl
is_none-insert_by lt x (y ∷ ys) = ground arith

is_none-sort_by :
    {A : Type 0} (lt : A → A → Bool) (xs : List A) → is_none (sort_by lt xs) ≡ is_none xs
unfolding sort_by
is_none-sort_by lt [] = refl
is_none-sort_by lt (x ∷ xs) = is_none-insert_by lt x (sort_by lt xs)

is_none-sort_texts : (ts : List Text) → is_none (sort_texts ts) ≡ is_none ts
unfolding sort_texts insert_text
is_none-sort_texts [] = refl
is_none-sort_texts (t ∷ ts) = is_none-insert (sort_texts ts)
  where
    is_none-insert : (ss : List Text) → is_none (insert_text t ss) ≡ false
    is_none-insert [] = refl
    is_none-insert (s ∷ ss) = ground arith

is_none-unique_from :
    (vs : List Text) → not (is_none (unique_from [] vs)) ≡ any (λ e. not (is_blank e)) vs
unfolding unique_from has
is_none-unique_from [] = refl
is_none-unique_from ([] ∷ vs) = is_none-unique_from vs
is_none-unique_from ((c ∷ v) ∷ vs) = refl

-- The code's verdict on a criterion.
pub project-is_delivered : (c : Criterion) → (project c).delivered ≡ is_delivered c
unfolding project unique_sorted
project-is_delivered c = rw (
  is_none-sort_texts (unique_from [] c.evidence),
  is_none-unique_from c.evidence,
  has_delivery_blocker-all (sort_by blocker_lt c.direct_blockers),
  all-sort_by blocker_lt (λ b. not (prevents_delivery b)) c.direct_blockers,
  is_none-sort_by path_lt c.upstream_paths,
)
