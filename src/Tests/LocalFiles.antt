-- ===== src/Tests/LocalFiles.antt =====
-- internal/diffuri: local paths and file URIs at fixed inputs.
use changesaga.Prelude.{
  ◌≡◌, refl, true, false, some, [], ◌++◌, Text, codes, ok, err, drop, has_prefix, trim_prefix,
  if◌then◌else◌,
}
use changesaga.DiffUri.Urls.{Library, IsLawful}
use changesaga.DiffUri.LocalFiles.{
  System, file_at, file_place, cut_slash, local_slash, file_repository, repository_file_path,
}
use changesaga.DiffUri.LocalFiles.RoundTrip.{IsSlashSystem, repository_file_path-file_repository}
use changesaga.Tests.Repositories.{lib, lib-IsLawful, lower, clean, strip_slashes}

-- A library that prints and reads file URLs without a host.
abbrev files : Library
files = record lib {
  parse_url = λ t. if has_prefix t (codes "file://") then ok (file_at ([], drop 7 t)) else err t;
  print_url = λ u. codes "file://" ++ u.path;
}

abbrev system : System
system = record {
  is_windows = false;
  absolute = λ t. ok (codes "/w/" ++ t);
  clean = clean;
  to_slash = λ t. t;
  from_slash = λ t. t;
  is_absolute = λ t. has_prefix t (codes "/");
}

files-IsLawful : IsLawful files
files-IsLawful = record {
  lower_lower = lib-IsLawful.lower_lower;
  lower_blank = lib-IsLawful.lower_blank;
  clean_clean = lib-IsLawful.clean_clean;
  clean_rooted = lib-IsLawful.clean_rooted;
  clean_slash = lib-IsLawful.clean_slash;
}

system-IsSlashSystem : IsSlashSystem files system
unfolding lower has_prefix drop
system-IsSlashSystem = record {
  no_windows = refl;
  same_clean = λ t. refl;
  same_slash = λ t. (refl, refl);
  rooted = λ t. refl;
  small = (refl, refl);
  printed = λ t. (refl, refl);
}

repository_file_path-file_repository_example :
    (c : Text) × (file_repository files system (codes "a/") ≡ ok c)
    × (repository_file_path files system c ≡ some (ok (codes "/w/a")))
unfolding strip_slashes
repository_file_path-file_repository_example =
    repository_file_path-file_repository files system files-IsLawful system-IsSlashSystem
      (codes "a/") (codes "w/a/") refl

-- A share, a drive and a share without a path.
windows_places :
    (file_place true (codes "//srv/share/x") ≡ (codes "srv", codes "/share/x"))
    × (file_place true (codes "C:/x") ≡ ([], codes "/C:/x"))
    × (file_place true (codes "//srv") ≡ (codes "srv", codes "/"))
    × (local_slash true [] (codes "/C:/x") ≡ codes "C:/x")
    × (local_slash false (codes "srv") (codes "/x") ≡ codes "//srv/x")
unfolding file_place local_slash cut_slash has_prefix trim_prefix drop
windows_places = (refl, refl, refl, refl, refl)
