-- ===== src/WorkPlan/Readiness/Identifiers.antt =====
-- The identifiers that `contractRevisionIDs` reads off the URN of a contract's revision.
use changesaga.Prelude.{
  ℕ, suc, ◌+◌, ◌-◌, ◌≡◌, refl, sym, ◌∙◌, ap, ◌≤◌, ◌<◌, ok, true, false, none, some, [], ◌∷◌, ◌++◌,
  append_assoc, append-nil, subst, Text, codes, text_eq, text_eq_sound, has_prefix, drop, take,
  last_index, Lacks, length, if◌then◌else◌, Bool-cases, inl, inr, arith,
}
use changesaga.LivingId.{
  Reference, revision, contract, colon, base, prefix, valid_id, build, build_kind, build_revision,
  validate_id,
}
use changesaga.LivingId.Spelled.{build_valid}
use changesaga.LivingId.Shape.{valid_id-Lacks}
use changesaga.WorkPlan.Readiness.{between, contract_revision_ids}

-- The last occurrence stands in what follows, if there is one there.
last_index-append :
    (s t p : Text) {i : ℕ} → last_index t p ≡ some i → last_index (s ++ t) p ≡ some (length s + i)
unfolding last_index
last_index-append [] t p h = rw h (ap some (omega arith))
last_index-append (c ∷ s) t p h = rw (last_index-append s t p h) (ap some (omega arith))

-- A text without a colon begins with no text that has one.
misses-lacking :
    (s m t : Text)
    → Lacks colon s
    → last_index t (colon ∷ m) ≡ none
    → last_index (s ++ t) (colon ∷ m) ≡ none
unfolding last_index has_prefix
misses-lacking [] m t h k = k
misses-lacking (c ∷ s) m t (hc, hs) k = rw (misses-lacking s m t hs k) (ground arith)

-- A text without a colon does not begin with a text that has one.
no_prefix : (s w q : Text) → Lacks colon s → has_prefix s (w ++ (colon ∷ q)) ≡ false
unfolding has_prefix
no_prefix [] [] q h = refl
no_prefix [] (a ∷ w) q h = refl
no_prefix (c ∷ s) [] q (hc, hs) = ground arith
no_prefix (c ∷ s) (a ∷ w) q (hc, hs) = ground (arith, no_prefix s w q hs)

-- Up to its first colon, a text begins with a marker exactly if it is the marker.
prefix_same :
    (p w rest : Text)
    → Lacks colon p
    → Lacks colon w
    → has_prefix (p ++ (colon ∷ rest)) (w ++ (colon ∷ [])) ≡ text_eq p w
unfolding has_prefix text_eq
prefix_same [] [] [] hp hw = refl
prefix_same [] [] (c ∷ rest) hp hw = refl
prefix_same [] (a ∷ w) rest hp (ha, hw) = ground arith
prefix_same (c ∷ p) [] rest (hc, hp) hw = ground arith
prefix_same (c ∷ p) (a ∷ w) rest (hc, hp) (ha, hw) = rw (prefix_same p w rest hp hw)

misses-alone : (s m : Text) → Lacks colon s → last_index s (colon ∷ m) ≡ none
unfolding last_index has_prefix
misses-alone s m h =
    subst (λ t. last_index t (colon ∷ m) ≡ none) (append-nil s) (misses-lacking s m [] h refl)

-- No marker stands behind the last colon.
misses-last :
    (w r : Text) → Lacks colon r → last_index (colon ∷ r) (colon ∷ (w ++ (colon ∷ []))) ≡ none
unfolding last_index has_prefix
misses-last w r h = rw (misses-alone r (w ++ (colon ∷ [])) h, no_prefix r w [] h)

-- A marker between two colons stands at the first of them, or nowhere.
at_colon :
    (w s rest : Text)
    → Lacks colon s
    → Lacks colon w
    → last_index (colon ∷ rest) (colon ∷ (w ++ (colon ∷ []))) ≡ none
    → last_index (colon ∷ (s ++ (colon ∷ rest))) (colon ∷ (w ++ (colon ∷ [])))
      ≡ (if text_eq s w then some 0 else none)
unfolding last_index has_prefix
at_colon w s rest hs hw h = elim (Bool-cases (text_eq s w)) [
  | inl e ↦
      rw (misses-lacking s (w ++ (colon ∷ [])) (colon ∷ rest) hs h, prefix_same s w rest hs hw, e)
  | inr e ↦
      rw (misses-lacking s (w ++ (colon ∷ [])) (colon ∷ rest) hs h, prefix_same s w rest hs hw, e)
]

suc-add : (m n : ℕ) → suc m + n ≡ suc (m + n)
suc-add m n = omega arith

drop-length : (s t : Text) (n : ℕ) → drop (length s + n) (s ++ t) ≡ drop n t
unfolding drop
drop-length [] t n = ap (λ k. drop k t) (omega arith)
drop-length (c ∷ s) t n = ap (λ k. drop k (c ∷ (s ++ t))) (suc-add (length s) n) ∙ drop-length s t n

take-length : (s t : Text) → take (length s) (s ++ t) ≡ s
unfolding take
take-length [] t = refl
take-length (c ∷ s) t = ap (λ u. c ∷ u) (take-length s t)

between_panics : (urn : Text) (c r : ℕ) → c < r → r < c + 10 → between urn c r ≡ none
unfolding between
between_panics urn c r h k = ground arith

between_slices :
    (urn : Text) (c r : ℕ) {p q : Text}
    → c + 10 ≤ r
    → take (r - (c + 10)) (drop (c + 10) urn) ≡ p
    → drop (r + 10) urn ≡ q
    → between urn c r ≡ some (p, q)
unfolding between
between_slices urn c r h ep eq = rw (← ep, ← eq) (ground arith)

-- The URN of a contract's revision behind its Saga.
abbrev tail : Text → Text → Text
tail p r = codes ":contract:" ++ (p ++ (codes ":revision:" ++ r))

module _ (pre p r : Text) (hp : Lacks colon p) (hr : Lacks colon r) where
  revision_at :
      last_index (pre ++ tail p r) (codes ":revision:") ≡ some (length pre + (10 + (length p + 0)))
  unfolding last_index text_eq
  revision_at = last_index-append pre (tail p r) (codes ":revision:") (
      last_index-append (codes ":contract:") (p ++ (codes ":revision:" ++ r)) (codes ":revision:") (
        last_index-append p (codes ":revision:" ++ r) (codes ":revision:") (
          at_colon (codes "revision") (codes "revision") r (omega arith) (omega arith)
            (misses-last (codes "revision") r hr))))

  no_contract :
      last_index (colon ∷ (p ++ (codes ":revision:" ++ r))) (codes ":contract:")
      ≡ (if text_eq p (codes "contract") then some 0 else none)
  unfolding last_index text_eq
  no_contract = at_colon (codes "contract") p (codes "revision:" ++ r) hp (omega arith) (
      at_colon (codes "contract") (codes "revision") r (omega arith) (omega arith)
        (misses-last (codes "contract") r hr))

  contract_at_id :
      text_eq p (codes "contract") ≡ true
      → last_index (pre ++ tail p r) (codes ":contract:") ≡ some (length pre + (9 + 0))
  contract_at_id e = last_index-append pre (tail p r) (codes ":contract:") (
      last_index-append (codes ":contract") (colon ∷ (p ++ (codes ":revision:" ++ r)))
        (codes ":contract:") {i = 0} (no_contract ∙ rw e))

  contract_at :
      text_eq p (codes "contract") ≡ false
      → last_index (pre ++ tail p r) (codes ":contract:") ≡ some (length pre + 0)
  unfolding last_index text_eq
  contract_at e = last_index-append pre (tail p r) (codes ":contract:") (
      at_colon (codes "contract") (codes "contract") (p ++ (codes ":revision:" ++ r)) (omega arith)
        (omega arith) (no_contract ∙ rw e))

  slices :
      between (pre ++ tail p r) (length pre + 0) (length pre + (10 + (length p + 0))) ≡ some (p, r)
  unfolding drop
  slices =
      between_slices (pre ++ tail p r) _ _ (omega arith)
        (ap (λ n. take n (drop (length pre + 0 + 10) (pre ++ tail p r))) here
          ∙ ap (λ n. take (length p) (drop n (pre ++ tail p r))) front
          ∙ ap (take (length p)) (drop-length pre (tail p r) 10)
          ∙ take-length p (codes ":revision:" ++ r))
        (ap (λ n. drop n (pre ++ tail p r)) back
          ∙ drop-length pre (tail p r) (10 + (length p + 10))
          ∙ drop-length (codes ":contract:") (p ++ (codes ":revision:" ++ r)) (length p + 10)
          ∙ drop-length p (codes ":revision:" ++ r) 10)
    where
      here : length pre + (10 + (length p + 0)) - (length pre + 0 + 10) ≡ length p
      here = omega arith

      front : length pre + 0 + 10 ≡ length pre + 10
      front = omega arith

      back : length pre + (10 + (length p + 0)) + 10 ≡ length pre + (10 + (length p + 10))
      back = omega arith

  panics :
      length p ≡ 8
      → between (pre ++ tail p r) (length pre + (9 + 0)) (length pre + (10 + (length p + 0))) ≡ none
  panics e = between_panics (pre ++ tail p r) _ _ (omega arith) (omega arith)

  tail_ids :
      contract_revision_ids (pre ++ tail p r)
      ≡ (if text_eq p (codes "contract") then none else some (p, r))
  unfolding contract_revision_ids
  tail_ids = elim (Bool-cases (text_eq p (codes "contract"))) [
    | inl e ↦
        rw (contract_at_id e, revision_at, e)
          (panics (ap length (text_eq_sound p (codes "contract") e)))
    | inr e ↦ rw (contract_at e, revision_at, e) slices
  ]

build_revision-shape :
    (ref : Reference) {urn : Text}
    → ref.parent_kind ≡ contract
    → build_revision ref ≡ ok urn
    → (valid_id ref.parent_id ≡ true)
      × (urn
          ≡ base ref.saga_id (
              codes "contract"
              ++ (colon ∷ ref.parent_id ++ (colon ∷ codes "revision" ++ (colon ∷ ref.id)))))
unfolding build_revision validate_id
build_revision-shape ref parent h = ground (arith, (rw parent at h))

-- `contractRevisionIDs` takes the URN that `Build` gives a contract's revision apart into the
-- contract's and the revision's identifiers, unless the contract is called "contract": then it slices
-- from behind the end, and panics.
pub contract_revision_ids-build :
    (ref : Reference) {urn : Text}
    → ref.kind ≡ revision
    → ref.parent_kind ≡ contract
    → build ref ≡ ok urn
    → contract_revision_ids urn
      ≡ (if text_eq ref.parent_id (codes "contract") then none else some (ref.parent_id, ref.id))
unfolding build_kind
contract_revision_ids-build ref {urn = urn} kind parent h =
    let (vs, vi, built) = build_valid ref h in
    let (vp, shape) = build_revision-shape ref parent (by_kind built) in
    ap contract_revision_ids
      (shape ∙ sym (append_assoc prefix ref.saga_id (tail ref.parent_id ref.id)))
    ∙ tail_ids (prefix ++ ref.saga_id) ref.parent_id ref.id (valid_id-Lacks _ vp)
        (valid_id-Lacks _ vi)
  where
    by_kind : build_kind ref.kind ref ≡ ok urn → build_revision ref ≡ ok urn
    by_kind b = sym (ap (λ k. build_kind k ref) kind) ∙ b
