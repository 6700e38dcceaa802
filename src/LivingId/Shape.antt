-- ===== src/LivingId/Shape.antt =====
-- The shape of the built URNs: what a valid identifier excludes, and how a URN splits at its colons.
use changesaga.Prelude.{
  ◌≡◌, true, ◌∷◌, [], ◌++◌, Text, codes, split, split-append, split_lacking, Lacks, all, arith,
}
use changesaga.LivingId.{valid_id, is_id_byte, colon, base}

all-Lacks-colon : (s : Text) → all is_id_byte s ≡ true → Lacks colon s
all-Lacks-colon [] h = tt
all-Lacks-colon (c ∷ s) h = (ground arith, all-Lacks-colon s (ground arith))

-- A valid identifier holds no colon.
pub valid_id-Lacks : (s : Text) → valid_id s ≡ true → Lacks colon s
unfolding valid_id
valid_id-Lacks [] h = tt
valid_id-Lacks (c ∷ s) h = (ground arith, all-Lacks-colon s (ground arith))

pub split-base :
    (saga rest : Text)
    → Lacks colon saga
    → split (base saga rest) colon ≡ codes "urn" ∷ codes "change-saga" ∷ saga ∷ split rest colon
split-base saga rest h = rw (
  split-append (codes "urn") (codes "change-saga:" ++ (saga ++ (colon ∷ rest))) colon (omega arith),
  split-append (codes "change-saga") (saga ++ (colon ∷ rest)) colon (omega arith),
  split-append saga rest colon h,
)

pub split-five :
    (saga word id : Text)
    → Lacks colon saga
    → Lacks colon word
    → Lacks colon id
    → split (base saga (word ++ (colon ∷ id))) colon
      ≡ codes "urn" ∷ codes "change-saga" ∷ saga ∷ word ∷ id ∷ []
split-five saga word id hs hw hi =
    rw (split-base saga _ hs, split-append word id colon hw, split_lacking id colon hi)

pub split-seven :
    (saga outer parent inner id : Text)
    → Lacks colon saga
    → Lacks colon outer
    → Lacks colon parent
    → Lacks colon inner
    → Lacks colon id
    → split (base saga (outer ++ (colon ∷ parent ++ (colon ∷ inner ++ (colon ∷ id))))) colon
      ≡ codes "urn" ∷ codes "change-saga" ∷ saga ∷ outer ∷ parent ∷ inner ∷ id ∷ []
split-seven saga outer parent inner id hs ho hp hn hi = rw (
  split-base saga _ hs,
  split-append outer (parent ++ (colon ∷ inner ++ (colon ∷ id))) colon ho,
  split-append parent (inner ++ (colon ∷ id)) colon hp,
  split-append inner id colon hn,
  split_lacking id colon hi,
)
