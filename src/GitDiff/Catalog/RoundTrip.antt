-- ===== src/GitDiff/Catalog/RoundTrip.antt =====
-- The catalog that is read back is the one that was written.
use changesaga.Prelude.{
  ℕ, ◌≡◌, refl, sym, ap, ◌∙◌, inl, inr, Bool, true, false, ◌||◌, Option, some, List, [], ◌∷◌, ◌++◌,
  append_assoc, Text, text_eq, Lacks, All, All-append, subst, Result, ok, Bool-cases, arith,
}
use changesaga.GitDiff.ChangeSets.{is_present}
use changesaga.GitDiff.Catalog.{
  FileSummary, split_n, Atoi, parse_numstat_count, with_paths, numstat_file, is_rename, then_files,
  parse_fields, parse_numstat,
}
use changesaga.GitDiff.Catalog.Printed.{
  Decimal, IsReported, split_n-append, split_n_last, split-ended, count_text, columns_text,
  fields_of, all_fields, print_numstat, plain_field, rename_field,
}

module _ (itoa : ℕ → Text) (atoi : Atoi) (decimal : Decimal itoa atoi) where
  count_back :
      (binary : Bool) (n : ℕ)
      → (binary ≡ true → n ≡ 0)
      → parse_numstat_count atoi (count_text itoa binary n) ≡ ok (n, binary)
  unfolding parse_numstat_count text_eq
  count_back true n h = rw (h refl) refl
  count_back false n h = rw (decimal.no_dash n, decimal.reads n) refl

  count_no_tab : (binary : Bool) (n : ℕ) → Lacks 9 (count_text itoa binary n)
  count_no_tab true n = omega arith
  count_no_tab false n = decimal.no_tab n

  count_no_end : (binary : Bool) (n : ℕ) → Lacks 0 (count_text itoa binary n)
  count_no_end true n = omega arith
  count_no_end false n = decimal.no_end n

  columns :
      (f : FileSummary) (path : Text)
      → split_n 3 (columns_text itoa f path) 9
        ≡ count_text itoa f.binary f.added ∷ count_text itoa f.binary f.deleted ∷ path ∷ []
  columns f path =
      split_n-append 1 (count_text itoa f.binary f.added) _ 9 (count_no_tab f.binary f.added)
      ∙ ap (λ r. count_text itoa f.binary f.added ∷ r)
          (split_n-append 0 (count_text itoa f.binary f.deleted) path 9
              (count_no_tab f.binary f.deleted)
            ∙ ap (λ r. count_text itoa f.binary f.deleted ∷ r) (split_n_last path 9))

  columns_present : (f : FileSummary) (path : Text) → is_present (columns_text itoa f path) ≡ true
  columns_present f path = starts (count_text itoa f.binary f.added) _
    where
      starts : (p rest : Text) → is_present (p ++ (9 ∷ rest)) ≡ true
      starts [] rest = refl
      starts (c ∷ p) rest = refl

  file_back :
      (f : FileSummary) (path : Text) (next : Option (Text × Text))
      → IsReported f
      → numstat_file atoi (split_n 3 (columns_text itoa f path) 9) next
        ≡ with_paths atoi f.added f.deleted (f.binary || f.binary) path next
  unfolding numstat_file
  file_back f path next h =
      rw
        (
          columns f path,
          count_back f.binary f.added h.no_added,
          count_back f.binary f.deleted h.no_deleted,
        )
        refl

  abbrev reported : FileSummary → Result Text FileSummary
  reported f = ok f

  absent : (t : Text) → is_present t ≡ false → t ≡ []
  absent [] h = refl
  absent (c ∷ t) h = cc

  or_self : (b : Bool) → (b || b) ≡ b
  or_self true = refl
  or_self false = refl

  plain_back :
      (f : FileSummary) (path : Text) (next : Option (Text × Text))
      → IsReported f
      → path ≡ f.path
      → is_present f.new_path ≡ false
      → with_paths atoi f.added f.deleted (f.binary || f.binary) path next ≡ ok f
  plain_back f [] next h same e = cc (ap is_present same ∙ h.named)
  plain_back f (c ∷ path) next h same e =
      rw (or_self f.binary, same)
        (ap (λ (t : Text). reported (record f { old_path = t; new_path = [] })) (sym (h.one_path e))
          ∙ ap (λ (t : Text). reported (record f { new_path = t })) (sym (absent f.new_path e)))

  renamed_back :
      (f : FileSummary)
      → IsReported f
      → is_present f.new_path ≡ true
      → with_paths atoi f.added f.deleted (f.binary || f.binary) [] (some (f.old_path, f.new_path))
        ≡ ok f
  renamed_back f h e = rw (or_self f.binary, e, sym (h.same_path e)) refl

  fields_back :
      (f : FileSummary) (rest : List Text)
      → IsReported f
      → parse_fields atoi (fields_of itoa f ++ rest)
        ≡ then_files atoi (ok f) (parse_fields atoi rest)
  fields_back f rest h = elim (Bool-cases (is_present f.new_path)) [
    | inl e ↦ rw e (
        rename_field atoi (columns_text itoa f []) f.old_path f.new_path rest f
          (columns_present f []) (file_back f [] _ h ∙ renamed_back f h e)
          (ap (is_rename atoi) (columns f [])))
    | inr e ↦ rw e (
        plain_field atoi (columns_text itoa f f.path) rest f (columns_present f f.path)
          (λ next. file_back f f.path next h ∙ plain_back f f.path next h refl e)
          (ap (is_rename atoi) (columns f f.path) ∙ no_rename f.path h.named))
  ]
    where
      no_rename :
          (path : Text)
          → is_present path ≡ true
          → is_rename atoi
              (count_text itoa f.binary f.added ∷ count_text itoa f.binary f.deleted ∷ path ∷ [])
            ≡ false
      no_rename [] p = cc
      no_rename (c ∷ path) p = refl

  read_back :
      (fs : List FileSummary)
      → All IsReported fs
      → parse_fields atoi (all_fields itoa fs ++ ([] ∷ [])) ≡ ok fs
  unfolding parse_fields
  read_back [] h = refl
  read_back (f ∷ fs) (hf, hs) =
      ap (parse_fields atoi) (append_assoc (fields_of itoa f) (all_fields itoa fs) ([] ∷ []))
      ∙ fields_back f (all_fields itoa fs ++ ([] ∷ [])) hf
      ∙ ap (then_files atoi (ok f)) (read_back fs hs)

  columns_no_end :
      (f : FileSummary) (path : Text) → Lacks 0 path → Lacks 0 (columns_text itoa f path)
  columns_no_end f path h =
      All-append _ (count_text itoa f.binary f.added) _ (count_no_end f.binary f.added) (
        omega arith,
        All-append _ (count_text itoa f.binary f.deleted) _ (count_no_end f.binary f.deleted)
            (omega arith, h),
      )

  fields_no_end : (f : FileSummary) → IsReported f → All (Lacks 0) (fields_of itoa f)
  fields_no_end f h = elim (Bool-cases (is_present f.new_path)) [
    | inl e ↦
        rw e (columns_no_end f [] tt, (h.old_ends, (subst (Lacks 0) (h.same_path e) h.ends, tt)))
    | inr e ↦ rw e (columns_no_end f f.path h.ends, tt)
  ]

  fields_ended : (fs : List FileSummary) → All IsReported fs → All (Lacks 0) (all_fields itoa fs)
  fields_ended [] h = tt
  fields_ended (f ∷ fs) (hf, hs) =
      All-append (Lacks 0) (fields_of itoa f) (all_fields itoa fs) (fields_no_end f hf)
        (fields_ended fs hs)

  -- The catalog is read back from the form in which git prints it: counts, or dashes for a binary
  -- file, then the path, or two paths behind an empty one for a rename.
  pub parse_numstat-print :
      (fs : List FileSummary)
      → All IsReported fs
      → parse_numstat atoi (print_numstat itoa fs) ≡ ok fs
  unfolding parse_numstat
  parse_numstat-print fs h =
      ap (parse_fields atoi) (split-ended (all_fields itoa fs) (fields_ended fs h)) ∙ read_back fs h
