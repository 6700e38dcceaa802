-- ===== src/Coverage/Report/Agree/Counters.antt =====
-- The counters of the summary pass go along with the tally of the full report.
use changesaga.Prelude.{
  ℕ, suc, ◌+◌, ◌≡◌, refl, sym, ap, ◌∙◌, true, false, List, [], ◌∷◌, map, Option, some, Text, ◌==◌,
  length, length-append, All, get_elem?, arith, ltb, subst,
}
use mathlib.Core.Option
use changesaga.GitDiff.{Atom}
use changesaga.Coverage.Visit.{Assignment}
use changesaga.Coverage.Report.{Tally, tally_atom, tally, bump, bump_distinct}
use changesaga.Coverage.Report.Rollup.{
  Counts, SummaryAssignment, SummaryState, summarise_atom, summarise, bump_all,
}
use changesaga.Coverage.Report.Complete.{overlap}
use changesaga.Coverage.Report.Distinct.{distinct_from, bump_distinct-bump_all, answered-keep_first}
use changesaga.Coverage.Report.Agree.Kept.{HasTarget, kept_at, kept}

-- The counters of the two evaluators agree.
pub record Agrees (t : Tally) (c : Counts) : Type 0 where
  pub uncovered : c.uncovered ≡ length t.uncovered
  pub overlapping : c.overlapping ≡ length t.overlaps
  pub counts : c.counts ≡ t.counts

two_owners : (n : ℕ) → ltb 1 (suc (suc n)) ≡ true
two_owners n = ground arith

two_ne_zero : (n : ℕ) → (suc (suc n) == 0) ≡ false
two_ne_zero n = ground arith

shared_counts :
    (o : Assignment) (os : List Assignment) (m n : List (Text × ℕ))
    → n ≡ m
    → bump_all (distinct_from (o.target ∷ []) os) (bump o.target n) ≡ bump_distinct [] (o ∷ os) m
shared_counts o os m n e =
    ap (λ l. bump_all (distinct_from (o.target ∷ []) os) (bump o.target l)) e
    ∙ sym (bump_distinct-bump_all [] (o ∷ os) m ∙ unfold bump_all in refl)

abbrev pub paired : List Text → SummaryAssignment → SummaryAssignment × List Text
paired os s = (s, os)

shift_others :
    (k j : ℕ) (others : ℕ → List Text) (ss : List SummaryAssignment)
    → Option.map (paired (others (suc k + j))) (get_elem? ss j)
      ≡ Option.map (paired (others (k + suc j))) (get_elem? ss j)
shift_others k j others ss = ap (λ n. Option.map (paired (others n)) (get_elem? ss j)) (omega arith)

head_kept :
    (k : ℕ) (others : ℕ → List Text) (s : SummaryAssignment) (q : SummaryAssignment × List Text)
    → ◌≡◌ {A = Option (SummaryAssignment × List Text)} (some (paired (others (k + 0)) s)) (some q)
    → paired (others k) s ≡ q
head_kept k others s q e =
    let same : k ≡ k + 0 = omega arith in ap (λ n. paired (others n) s) same ∙ cc

atom-Agrees :
    (atom : Atom) (os : List Assignment) (t : Tally) (c : Counts)
    → All HasTarget os
    → Agrees t c
    → Agrees (tally_atom atom os t) (summarise_atom (kept os).0 (kept os).1 c)
unfolding tally_atom summarise_atom
atom-Agrees atom [] t c h r = record {
  uncovered = omega (arith, r.uncovered, length-append t.uncovered (atom ∷ []));
  overlapping = r.overlapping;
  counts = r.counts;
}
atom-Agrees atom (o ∷ []) t c (ho, hs) r = rw (answered-keep_first o [] ho) (record {
  uncovered = r.uncovered;
  overlapping = r.overlapping;
  counts = unfold bump_all in ap (bump o.target) r.counts;
})
atom-Agrees atom (o ∷ p ∷ os) t c (ho, hs) r =
    rw (answered-keep_first o (p ∷ os) ho, two_owners (length os), two_ne_zero (length os))
      (record {
        uncovered = r.uncovered;
        overlapping =
            omega (arith, r.overlapping, length-append t.overlaps (overlap atom (o ∷ p ∷ os) ∷ []));
        counts = shared_counts o (p ∷ os) t.counts c.counts r.counts;
      })

pub summarise-Agrees :
    (f : Atom → List Assignment) (atoms : List Atom) (k : ℕ) (ss : List SummaryAssignment)
    (others : ℕ → List Text) (t : Tally) (c : Counts)
    → ((a : Atom) → All HasTarget (f a))
    → ((j : ℕ)
        → Option.map (paired (others (k + j))) (get_elem? ss j)
          ≡ Option.map (λ a. kept (f a)) (get_elem? atoms j))
    → Agrees t c
    → Agrees (tally atoms (map f atoms) t) (summarise k ss others c)
unfolding tally summarise
summarise-Agrees f [] k [] others t c named same r = r
summarise-Agrees f [] k (s ∷ ss) others t c named same r = cc (same 0)
summarise-Agrees f (a ∷ atoms) k [] others t c named same r = cc (same 0)
summarise-Agrees f (a ∷ atoms) k (s ∷ ss) others t c named same r =
    summarise-Agrees f atoms (suc k) ss others (tally_atom a (f a) t)
      (summarise_atom s (others k) c) named (λ j. shift_others k j others ss ∙ same (suc j))
      (subst
        (λ (q : SummaryAssignment × List Text).
          Agrees (tally_atom a (f a) t) (summarise_atom q.0 q.1 c))
        (sym (head_kept k others s (kept (f a)) (same 0))) (atom-Agrees a (f a) t c (named a) r))

pub zero_others :
    (j : ℕ) (st : SummaryState)
    → Option.map (paired (st.other_targets (0 + j))) (get_elem? st.assignments j) ≡ kept_at st j
zero_others j st =
    ap (λ n. Option.map (paired (st.other_targets n)) (get_elem? st.assignments j)) (omega arith)
