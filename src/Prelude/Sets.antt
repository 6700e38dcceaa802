-- ===== src/Prelude/Sets.antt =====
-- Sets of strings as lists (`map[string]bool`), and sorted strings (`sort.Strings`).
use mathlib.Core.List.Memᴰ
use mathlib.Core.List.{Memᴰ, List, [], ◌∷◌}
use mathlib.Core.Bool.{Bool, true, false}
use mathlib.Core.Logic.{◌↔◌, ◌⊎◌, inl, inr}
use mathlib.Core.Path.{◌≡◌, sym, subst}
use native.Mathlib.Omega.{arith}
use changesaga.Prelude.Tests.{if◌then◌else◌, Bool-cases}
use changesaga.Prelude.Lists.{filter}
use changesaga.Prelude.Strings.{Text, text_eq, text_eq_sound, text_eq_refl, text_lt}

unfoldable pub has : Text → List Text → Bool
has t [] = false
has t (s ∷ ss) = if text_eq s t then true else has t ss

pub has_sound : (t : Text) (ss : List Text) → has t ss ≡ true → Memᴰ t ss
unfolding has
has_sound t [] h = cc
has_sound t (s ∷ ss) h = elim (Bool-cases (text_eq s t)) [
  | inl e ↦ Memᴰ.head (sym (text_eq_sound s t e))
  | inr e ↦ Memᴰ.tail (has_sound t ss (rw e at h))
]

pub has_complete : (t : Text) (ss : List Text) → Memᴰ t ss → has t ss ≡ true
unfolding has
has_complete t [] i = elim i [ ]
has_complete t (s ∷ ss) (Memᴰ.head e) = rw (← e) (rw (text_eq_refl t))
has_complete t (s ∷ ss) (Memᴰ.tail i) = ground (arith, has_complete t ss i)

pub has_absent : (t : Text) (ss : List Text) → has t ss ≡ false → Memᴰ t ss → ⊥
has_absent t ss h i = ground (arith, has_complete t ss i)

-- The texts of the second list join the set, each of them once.
unfoldable pub add_all : List Text → List Text → List Text
unfolding has
add_all set [] = set
add_all set (t ∷ ts) = add_all (if has t set then set else t ∷ set) ts

unfoldable pub insert_text : Text → List Text → List Text
unfolding text_lt
insert_text t [] = t ∷ []
insert_text t (s ∷ ss) = if text_lt s t then s ∷ insert_text t ss else t ∷ s ∷ ss

-- `sort.Strings`: equal strings cannot be told apart, so there is one result.
unfoldable pub sort_texts : List Text → List Text
unfolding insert_text
sort_texts [] = []
sort_texts (t ∷ ts) = insert_text t (sort_texts ts)

pub add_all-Memᴰ :
    (t : Text) (set ts : List Text) → Memᴰ t (add_all set ts) ↔ (Memᴰ t set ⊎ Memᴰ t ts)
unfolding add_all
add_all-Memᴰ t set [] = (inl, λ c. elim c [ inl i ↦ i | inr i ↦ elim i [ ] ])
add_all-Memᴰ t set (s ∷ ts) = elim (Bool-cases (has s set)) [
  | inl e ↦ rw e (
    λ i. elim ((add_all-Memᴰ t set ts).0 i) [ inl j ↦ inl j | inr j ↦ inr (Memᴰ.tail j) ],
    λ c. (add_all-Memᴰ t set ts).1 (elim c [
      | inl i ↦ inl i
      | inr i ↦ elim (Memᴰ.cases_cons i) [
        | inl same ↦ inl (subst (λ x. Memᴰ x set) (sym same) (has_sound s set e))
        | inr j ↦ inr j
      ]
    ]),
  )
  | inr e ↦ rw e (
    λ i. elim ((add_all-Memᴰ t (s ∷ set) ts).0 i) [
      | inl j ↦ elim (Memᴰ.cases_cons j) [ inl same ↦ inr (Memᴰ.head same) | inr k ↦ inl k ]
      | inr j ↦ inr (Memᴰ.tail j)
    ],
    λ c. (add_all-Memᴰ t (s ∷ set) ts).1 (elim c [
      | inl i ↦ inl (Memᴰ.tail i)
      | inr i ↦ elim (Memᴰ.cases_cons i) [ inl same ↦ inl (Memᴰ.head same) | inr j ↦ inr j ]
    ]),
  )
]

insert_text-Memᴰ : (t s : Text) (ss : List Text) → Memᴰ t (insert_text s ss) ↔ Memᴰ t (s ∷ ss)
unfolding insert_text
insert_text-Memᴰ t s [] = (λ i. i, λ i. i)
insert_text-Memᴰ t s (r ∷ rs) = elim (Bool-cases (text_lt r s)) [
  | inl e ↦ rw e (
    λ i. elim (Memᴰ.cases_cons i) [
      | inl same ↦ Memᴰ.tail (Memᴰ.head same)
      | inr j ↦ elim (Memᴰ.cases_cons ((insert_text-Memᴰ t s rs).0 j)) [
        | inl same ↦ Memᴰ.head same
        | inr k ↦ Memᴰ.tail (Memᴰ.tail k)
      ]
    ],
    λ i. elim (Memᴰ.cases_cons i) [
      | inl same ↦ Memᴰ.tail ((insert_text-Memᴰ t s rs).1 (Memᴰ.head same))
      | inr j ↦ elim (Memᴰ.cases_cons j) [
        | inl same ↦ Memᴰ.head same
        | inr k ↦ Memᴰ.tail ((insert_text-Memᴰ t s rs).1 (Memᴰ.tail k))
      ]
    ],
  )
  | inr e ↦ rw e (λ i. i, λ i. i)
]

pub sort_texts-Memᴰ : (t : Text) (ss : List Text) → Memᴰ t (sort_texts ss) ↔ Memᴰ t ss
unfolding sort_texts
sort_texts-Memᴰ t [] = (λ i. i, λ i. i)
sort_texts-Memᴰ t (s ∷ ss) = (
  λ i. elim (Memᴰ.cases_cons ((insert_text-Memᴰ t s (sort_texts ss)).0 i)) [
    | inl same ↦ Memᴰ.head same
    | inr j ↦ Memᴰ.tail ((sort_texts-Memᴰ t ss).0 j)
  ],
  λ i. (insert_text-Memᴰ t s (sort_texts ss)).1 (elim (Memᴰ.cases_cons i) [
    | inl same ↦ Memᴰ.head same
    | inr j ↦ Memᴰ.tail ((sort_texts-Memᴰ t ss).1 j)
  ]),
)

pub filter-Memᴰ {ℓ} :
    {A : Type ℓ} (p : A → Bool) (a : A) (xs : List A)
    → Memᴰ a (filter p xs) ↔ (Memᴰ a xs × (p a ≡ true))
filter-Memᴰ p a [] = (λ i. elim i [ ], λ i. i.0)
filter-Memᴰ p a (x ∷ xs) = elim (Bool-cases (p x)) [
  | inl e ↦ rw e (
    λ i. elim (Memᴰ.cases_cons i) [
      | inl same ↦ (Memᴰ.head same, rw same e)
      | inr j ↦ let k = (filter-Memᴰ p a xs).0 j in (Memᴰ.tail k.0, k.1)
    ],
    λ k. elim (Memᴰ.cases_cons k.0) [
      | inl same ↦ Memᴰ.head same
      | inr j ↦ Memᴰ.tail ((filter-Memᴰ p a xs).1 (j, k.1))
    ],
  )
  | inr e ↦ rw e (
    λ i. let k = (filter-Memᴰ p a xs).0 i in (Memᴰ.tail k.0, k.1),
    λ k. elim (Memᴰ.cases_cons k.0) [ inl same ↦ cc | inr j ↦ (filter-Memᴰ p a xs).1 (j, k.1) ],
  )
]
