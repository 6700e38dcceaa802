-- ===== src/DiffUri/LocalFiles/RoundTrip.antt =====
-- internal/diffuri/diffuri.go: a local path is found again in its repository URI.
use changesaga.Prelude.{
  ◌≡◌, refl, sym, ◌∙◌, ap, true, false, some, [], ◌∷◌, Text, codes, text_eq, has_prefix, ok,
}
use changesaga.DiffUri.Urls.{Library, IsLawful}
use changesaga.DiffUri.Repository.{canonical_repository, canonical_url}
use changesaga.DiffUri.LocalFiles.{
  System, file_at, file_place, local_slash, file_repository, resolve, repository_file_path,
}

-- What the documentation of path/filepath says for a system whose separator is the slash, and that
-- small letters are kept and the URL of a file is read as it is printed.
pub record IsSlashSystem (lib : Library) (system : System) : Type 0 where
  pub no_windows : system.is_windows ≡ false
  pub same_clean : (t : Text) → system.clean t ≡ lib.clean t
  pub same_slash : (t : Text) → (system.to_slash t ≡ t) × (system.from_slash t ≡ t)
  pub rooted : (t : Text) → system.is_absolute (47 ∷ t) ≡ true
  pub small : (lib.lower (codes "file") ≡ codes "file") × (lib.lower [] ≡ [])
  pub printed :
      (t : Text)
      → (lib.parse_url (lib.print_url (file_at ([], 47 ∷ t))) ≡ ok (file_at ([], 47 ∷ t)))
        × (lib.trim_space (lib.print_url (file_at ([], 47 ∷ t)))
            ≡ lib.print_url (file_at ([], 47 ∷ t)))

module _ (lib : Library) (system : System) (laws : IsLawful lib)
    (slash : IsSlashSystem lib system) where
  canonical_url-file :
      (t : Text)
      → lib.clean (47 ∷ t) ≡ 47 ∷ t
      → canonical_url lib (file_at ([], 47 ∷ t)) ≡ ok (file_at ([], 47 ∷ t))
  unfolding canonical_url has_prefix text_eq
  canonical_url-file t clean = rw (slash.small.0, slash.small.1, clean) refl

  canonical_repository-file :
      (t : Text)
      → lib.clean (47 ∷ t) ≡ 47 ∷ t
      → canonical_repository lib (lib.print_url (file_at ([], 47 ∷ t)))
        ≡ ok (lib.print_url (file_at ([], 47 ∷ t)))
  unfolding canonical_repository
  canonical_repository-file t clean =
      rw ((slash.printed t).1, (slash.printed t).0, canonical_url-file t clean) refl

  -- The local path of a cleaned file URL.
  resolve-file :
      (t : Text)
      → lib.clean (47 ∷ t) ≡ 47 ∷ t
      → resolve lib system (file_at ([], 47 ∷ t)) ≡ ok (47 ∷ t)
  unfolding resolve local_slash text_eq
  resolve-file t clean =
      rw
        (
          slash.no_windows,
          (slash.same_slash (47 ∷ t)).1,
          slash.same_clean (47 ∷ t),
          clean,
          slash.rooted t,
        )
        refl

  file_repository-clean :
      (v p q : Text)
      → system.absolute v ≡ ok (47 ∷ p)
      → lib.clean (47 ∷ p) ≡ 47 ∷ q
      → file_repository lib system v
        ≡ canonical_repository lib (lib.print_url (file_at ([], 47 ∷ q)))
  unfolding file_repository file_place
  file_repository-clean v p q absolute e =
      rw
        (
          absolute,
          slash.no_windows,
          (slash.same_slash (system.clean (47 ∷ p))).0,
          slash.same_clean (47 ∷ p),
          e,
        )
        refl

  repository_file_path-file :
      (t : Text)
      → lib.clean (47 ∷ t) ≡ 47 ∷ t
      → repository_file_path lib system (lib.print_url (file_at ([], 47 ∷ t))) ≡ some (ok (47 ∷ t))
  unfolding repository_file_path
  repository_file_path-file t clean =
      rw (canonical_repository-file t clean, (slash.printed t).0, resolve-file t clean) refl

-- On a system whose separator is the slash, with `Clean`, `ToLower` and the printing of file URLs as
-- documented, `FileRepository` gives every path that has an absolute
-- form a URI, and `RepositoryFilePath` reads that URI, without an error or a panic, as the absolute
-- form of the path, cleaned.
pub repository_file_path-file_repository :
    (lib : Library) (system : System)
    → IsLawful lib
    → IsSlashSystem lib system
    → (v p : Text) → system.absolute v ≡ ok (47 ∷ p)
    → (c : Text) × (file_repository lib system v ≡ ok c)
      × (repository_file_path lib system c ≡ some (ok (lib.clean (47 ∷ p))))
repository_file_path-file_repository lib system laws slash v p absolute =
    let (q, e) = laws.clean_rooted p in
    let clean : lib.clean (47 ∷ q) ≡ 47 ∷ q =
      ap lib.clean (sym e) ∙ laws.clean_clean (47 ∷ p) ∙ e in
    (
      lib.print_url (file_at ([], 47 ∷ q)),
      file_repository-clean lib system laws slash v p q absolute e
          ∙ canonical_repository-file lib system laws slash q clean,
      repository_file_path-file lib system laws slash q clean ∙ ap (λ t. some (ok t)) (sym e),
    )
