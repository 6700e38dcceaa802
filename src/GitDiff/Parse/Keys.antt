-- ===== src/GitDiff/Parse/Keys.antt =====
-- internal/gitdiff/gitdiff.go: the keys of the atoms that the loop of parse finds, before
-- coalesceTypeChanges.
use mathlib.Core.List.Memᴰ
use mathlib.Core.List.{Memᴰ}
use changesaga.Prelude.{
  ◌≡◌, refl, sym, ◌⊎◌, inl, inr, ap, subst, List, [], ◌∷◌, ◌++◌, map, Text, codes, has, has_sound,
  has_absent, text_eq, All, ok, >>=-eq-ok, ok-injective, Bool-cases, if◌then◌else◌, Option-cases,
}
use changesaga.GitDiff.{Atom, DisplayLine}
use changesaga.GitDiff.Paths.{Library, key, preferred_path, mode_type, unquote_git_path}
use changesaga.GitDiff.Parse.{
  Line, diff_header, new_file, deleted_file, removed, added, context, no_newline, old_header,
  new_header, rename_from, rename_to, old_mode, new_mode, binary, hunk, other, State, event_atom,
  line_atom, display, display_event, add, add_event, flush, flush_path, step, classify, run,
  initial, parse_lines,
}

abbrev pub keys : List Atom → List Text
keys = map (λ a. a.key)

-- No text stands twice.
abbrev pub IsUnique : List Text → Type 0
IsUnique [] = Unit {0}
IsUnique (k ∷ ks) = (Memᴰ k ks → ⊥) × IsUnique ks

-- A display line is context, or the line of an atom.
abbrev pub HasAtom : List Text → DisplayLine → Type 0
HasAtom ks l = (l.kind ≡ codes "context") ⊎ Memᴰ l.atom_key ks

-- The set of the keys seen is the set of the atoms' keys, which are unique, and every display line
-- that is no context names one of them.
abbrev pub IsConsistent : State → Type 0
IsConsistent st =
    IsUnique (keys st.atoms)
    × ((k : Text) → Memᴰ k st.seen → Memᴰ k (keys st.atoms))
    × ((k : Text) → Memᴰ k (keys st.atoms) → Memᴰ k st.seen)
    × All (HasAtom (keys st.atoms)) st.display_lines

IsUnique-snoc :
    (ks : List Text) (k : Text) → IsUnique ks → (Memᴰ k ks → ⊥) → IsUnique (ks ++ (k ∷ []))
IsUnique-snoc [] k u n = ((λ i. elim i [ ]), tt)
IsUnique-snoc (j ∷ ks) k u n = (
  λ i. elim (Memᴰ.append_cases ks i) [
    | inl m ↦ u.0 m
    | inr m ↦ elim (Memᴰ.cases_cons m) [ inl same ↦ n (Memᴰ.head (sym same)) | inr o ↦ elim o [ ] ]
  ],
  IsUnique-snoc ks k u.1 (λ i. n (Memᴰ.tail i)),
)

keys-snoc : (atoms : List Atom) (a : Atom) → keys (atoms ++ (a ∷ [])) ≡ keys atoms ++ (a.key ∷ [])
keys-snoc [] a = refl
keys-snoc (b ∷ atoms) a = ap (λ ks. b.key ∷ ks) (keys-snoc atoms a)

All-snoc :
    {A : Type 0} (P : A → Type 0) (xs : List A) (x : A) → All P xs → P x → All P (xs ++ (x ∷ []))
All-snoc P [] x h p = (p, tt)
All-snoc P (y ∷ xs) x h p = (h.0, All-snoc P xs x h.1 p)

All-HasAtom :
    (ks js : List Text) (ls : List DisplayLine)
    → ((k : Text) → Memᴰ k ks → Memᴰ k js)
    → All (HasAtom ks) ls
    → All (HasAtom js) ls
All-HasAtom ks js [] h a = tt
All-HasAtom ks js (l ∷ ls) h a =
    (elim a.0 [ inl c ↦ inl c | inr i ↦ inr (h l.atom_key i) ], All-HasAtom ks js ls h a.1)

module _ (lib : Library) where
  add-IsConsistent :
      (atom : Atom) (shown : Text → DisplayLine) (st : State)
      → ((k : Text) → (shown k).atom_key ≡ k)
      → IsConsistent st
      → IsConsistent (add lib atom shown st)
  unfolding add
  add-IsConsistent atom shown st named h =
      let k = key lib.itoa atom in
      elim (Bool-cases (has k st.seen)) [
        | inl e ↦ rw e (
          h.0,
          h.1,
          h.2,
          All-snoc (HasAtom (keys st.atoms)) st.display_lines (shown k) h.3 (
              inr (
                subst (λ x. Memᴰ x (keys st.atoms)) (sym (named k))
                  (h.1 k (has_sound k st.seen e)))),
        )
        | inr e ↦
            rw (e, keys-snoc st.atoms (record atom { key = k }))
              (
                IsUnique-snoc (keys st.atoms) k h.0 (λ i. has_absent k st.seen e (h.2 k i)),
                λ j i. elim (Memᴰ.cases_cons i) [
                  | inl same ↦ Memᴰ.append_right (keys st.atoms) (Memᴰ.head same)
                  | inr m ↦ Memᴰ.append_left (k ∷ []) (h.1 j m)
                ],
                λ j i. elim (Memᴰ.append_cases (keys st.atoms) i) [
                  | inl m ↦ Memᴰ.tail (h.2 j m)
                  | inr m ↦ elim (Memᴰ.cases_cons m) [
                    | inl same ↦ Memᴰ.head same
                    | inr o ↦ elim o [ ]
                  ]
                ],
                All-snoc (HasAtom (keys st.atoms ++ (k ∷ []))) st.display_lines (shown k)
                    (All-HasAtom (keys st.atoms) (keys st.atoms ++ (k ∷ [])) st.display_lines
                      (λ j i. Memᴰ.append_left (k ∷ []) i) h.3)
                    (inr (Memᴰ.append_right (keys st.atoms) (Memᴰ.head (named k)))),
              )
      ]

  event-IsConsistent :
      (event path old new : Text) (st : State)
      → IsConsistent st
      → IsConsistent (add_event lib event path old new st)
  unfolding add_event
  event-IsConsistent event path old new st h =
      add-IsConsistent (event_atom event path old new) (display_event event path old new) st
        (λ k. refl) h

  flush_path-IsConsistent :
      (path : Text) (st : State) → IsConsistent st → IsConsistent (flush_path lib path st)
  flush_path-IsConsistent [] st h = h
  flush_path-IsConsistent (c ∷ p) st h = event-IsConsistent (codes "modify") (c ∷ p) [] [] st h

  flush-IsConsistent : (st : State) → IsConsistent st → IsConsistent (flush lib st)
  unfolding flush
  flush-IsConsistent st h = elim (Bool-cases st.file_had_atom) [
    | inl e ↦
        subst
          (λ b.
            IsConsistent
              (if b then st else flush_path lib (preferred_path st.new_path st.old_path) st))
          (sym e) h
    | inr e ↦
        subst
          (λ b.
            IsConsistent
              (if b then st else flush_path lib (preferred_path st.new_path st.old_path) st))
          (sym e) (flush_path-IsConsistent (preferred_path st.new_path st.old_path) st h)
  ]

  step-IsConsistent :
      (line : Line) (st : State) {after : State}
      → IsConsistent st
      → step lib line st ≡ ok after
      → IsConsistent after
  unfolding step
  step-IsConsistent (diff_header header) st h e =
      subst IsConsistent (ok-injective e) (flush-IsConsistent st h)
  step-IsConsistent new_file st h e =
      subst IsConsistent (ok-injective e)
        (event-IsConsistent (codes "add") (preferred_path st.new_path st.old_path) [] [] st h)
  step-IsConsistent deleted_file st h e =
      subst IsConsistent (ok-injective e)
        (event-IsConsistent (codes "delete") (preferred_path st.old_path st.new_path) [] [] st h)
  step-IsConsistent (removed content) st h e = subst IsConsistent (ok-injective e) (
      add-IsConsistent (line_atom st.old_path (codes "old") st.old_line content)
        (display (codes "old") st.old_path st.old_line 0 content) st (λ k. refl) h)
  step-IsConsistent (added content) st h e = subst IsConsistent (ok-injective e) (
      add-IsConsistent (line_atom st.new_path (codes "new") st.new_line content)
        (display (codes "new") st.new_path 0 st.new_line content) st (λ k. refl) h)
  step-IsConsistent (context content) st h e = subst IsConsistent (ok-injective e) (
    h.0,
    h.1,
    h.2,
    All-snoc (HasAtom (keys st.atoms)) st.display_lines
        (display (codes "context") (preferred_path st.new_path st.old_path) st.old_line st.new_line
          content [])
        h.3 (inl refl),
  )
  step-IsConsistent no_newline st h e = subst IsConsistent (ok-injective e) h
  step-IsConsistent (old_header text) st h e = subst IsConsistent (ok-injective e) h
  step-IsConsistent (new_header text) st h e = subst IsConsistent (ok-injective e) h
  step-IsConsistent (rename_from text) st h e = subst IsConsistent (ok-injective e) h
  step-IsConsistent (rename_to text) st h e =
      let to = unquote_git_path lib text in
      subst IsConsistent (ok-injective e)
        (event-IsConsistent (codes "rename") to st.renamed_from to (record st { new_path = to }) h)
  step-IsConsistent (old_mode text) st h e = subst IsConsistent (ok-injective e) h
  step-IsConsistent (new_mode text) st h e = subst IsConsistent (ok-injective e) (
      event-IsConsistent
        (if text_eq (mode_type st.mode) (mode_type (lib.trim_space text))
          then codes "mode"
          else codes "type-change")
        (preferred_path st.new_path st.old_path) [] [] st h)
  step-IsConsistent binary st h e =
      subst IsConsistent (ok-injective e)
        (event-IsConsistent (codes "binary") (preferred_path st.new_path st.old_path) [] [] st h)
  step-IsConsistent (hunk line) st h e = elim (Option-cases (lib.hunk_starts line)) [
    | inl n ↦ cc (rw n at e)
    | inr (starts, n) ↦ subst IsConsistent (ok-injective (rw n at e)) h
  ]
  step-IsConsistent other st h e = subst IsConsistent (ok-injective e) h

  run-IsConsistent :
      (lines : List Text) (st : State) {after : State}
      → IsConsistent st
      → run lib lines st ≡ ok after
      → IsConsistent after
  unfolding run
  run-IsConsistent [] st h e = subst IsConsistent (ok-injective e) h
  run-IsConsistent (line ∷ lines) st h e =
      let (middle, one, rest) = >>=-eq-ok (step lib (classify st.in_hunk line) st) _ e in
      run-IsConsistent lines middle (step-IsConsistent (classify st.in_hunk line) st h one) rest

-- Whatever the patch, when the loop of parse ends without an error and the last file is flushed, and
-- before coalesceTypeChanges, the keys of the atoms found so far are unique, and every display line that
-- is no context names one of them.
pub parse_lines-IsConsistent :
    (lib : Library) (lines : List Text) (st : State)
    → parse_lines lib lines ≡ ok st
    → IsUnique (keys st.atoms) × All (HasAtom (keys st.atoms)) st.display_lines
unfolding parse_lines
parse_lines-IsConsistent lib lines st e =
    let (last_state, ran, end) = >>=-eq-ok (run lib lines (initial lib)) _ e in
    let h =
      flush-IsConsistent lib last_state
        (run-IsConsistent lib lines (initial lib) ((tt, (λ k i. i), (λ k i. i), tt)) ran) in
    subst (λ s. IsUnique (keys s.atoms) × All (HasAtom (keys s.atoms)) s.display_lines)
      (ok-injective end) (h.0, h.3)
