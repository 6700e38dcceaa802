-- ===== src/Tests/Impact.antt =====
-- internal/impact at a fixed input: a documented line that the incoming comparison replaces, and a
-- line that it adds elsewhere.

use mathlib.Core.List.{Memᴰ}
use changesaga.Prelude.{
  ℕ, ◌+◌, ◌≡◌, refl, not, ◌||◌, none, [], ◌∷◌, map, Text, codes, any, count_if, filter, has,
  text_eq, sort_by, has_absent, if◌then◌else◌,
}
use changesaga.GitDiff.{Atom, DisplayLine, ChangeSet}
use changesaga.Saga.{Saga}
use changesaga.Coverage.Report.{Report, evaluate}
use changesaga.Coverage.Visit.{visit_all, document_visits}
use changesaga.Coverage.Index.{candidates, build_index}
use changesaga.DiffUri.{matches}
use changesaga.Impact.Targets.{unowned_less}
use changesaga.Impact.Accounts.{unowned}
use changesaga.Impact.Summarised.{hits, borders, analyze-new_content, analyze_accounts}
use changesaga.Impact.Updates.{names, names_urgent, is_hit, is_neighbour, analyze-targets}
use changesaga.Impact.Origins.{Touched, analyze-Touched}
use changesaga.Impact.Analyze.{analyze}
use changesaga.GitDiff.Parse.Keys.{keys, IsUnique}
use changesaga.Tests.Coverage.{changes, document, sample, parse_sample, validation}

abbrev saga : Saga
saga = record { manifest = record { id = codes "s"; title = codes "S" }; section = document }

abbrev atom : Text → ℕ → Text → Text → Atom
atom side line content key = record {
  key = key;
  uri = [];
  kind = codes "line";
  path = codes "x";
  side = side;
  line = line;
  content = content;
  event = [];
  old_path = [];
  new_path = [];
}

abbrev shown : Text → ℕ → ℕ → Text → DisplayLine
shown kind old_line new_line key = record {
  kind = kind;
  path = codes "x";
  old_line = old_line;
  new_line = new_line;
  content = [];
  atom_key = key;
  event = [];
  old_path = [];
  new_path = [];
}

abbrev incoming : ChangeSet
incoming = record changes {
  atoms =
      atom (codes "old") 2 [] (codes "a")
      ∷ atom (codes "new") 2 (codes "t") (codes "b")
      ∷ atom (codes "new") 9 (codes "u") (codes "c")
      ∷ [];
  display_lines =
      shown (codes "context") 1 1 []
      ∷ shown (codes "delete") 2 0 (codes "a")
      ∷ shown (codes "add") 0 2 (codes "b")
      ∷ shown (codes "context") 8 8 []
      ∷ shown (codes "add") 0 9 (codes "c")
      ∷ [];
}

abbrev report : Report
report = evaluate sample changes document validation

summary_sample : (analyze saga changes report incoming (codes "m") none).summary ≡ record {
  incoming_atoms = 3;
  direct_intersections = 1;
  contextual_additions = 1;
  new_content_required = 1;
  targets_must_update = 2;
  targets_consider_update = 0;
}
unfolding analyze evaluate parse_sample text_eq visit_all document_visits candidates build_index
    matches
summary_sample = refl

analyze-new_content_example :
    (analyze saga changes report incoming (codes "m") none).new_content
    ≡ sort_by unowned_less (
        map unowned (
          filter
            (λ a. not (
              hits saga changes report incoming (codes "m") none a
              || borders saga changes report incoming (codes "m") none a))
            incoming.atoms))
analyze-new_content_example = analyze-new_content saga changes report incoming (codes "m") none

keys-IsUnique : IsUnique (keys incoming.atoms)
unfolding has text_eq
keys-IsUnique = (
  has_absent (codes "a") (codes "b" ∷ codes "c" ∷ []) refl,
  (has_absent (codes "b") (codes "c" ∷ []) refl, ((λ i. elim i [ ]), tt)),
)

analyze_accounts_example :
    let s = (analyze saga changes report incoming (codes "m") none).summary in
    s.incoming_atoms ≡ s.direct_intersections + s.contextual_additions + s.new_content_required
analyze_accounts_example =
    analyze_accounts saga changes report incoming (codes "m") none keys-IsUnique

analyze-targets_example :
    let r = analyze saga changes report incoming (codes "m") none in
    (count_if (names (codes "root")) r.targets ≡ (
      if any
        (λ a.
          is_hit saga changes report incoming (codes "root") a
          || is_neighbour saga changes report incoming (codes "root") a)
        incoming.atoms
      then 1
      else 0))
    × (count_if (names_urgent (codes "root")) r.targets ≡ (
        if any (is_hit saga changes report incoming (codes "root")) incoming.atoms then 1 else 0))
analyze-targets_example =
    analyze-targets saga changes report incoming (codes "m") none (codes "root")

root_asked :
    count_if
      (names_urgent (codes "root"))
      (analyze saga changes report incoming (codes "m") none).targets
    ≡ 1
unfolding analyze evaluate parse_sample text_eq visit_all document_visits candidates build_index
    matches
root_asked = refl

analyze-Touched_example :
    (a : Atom) × Memᴰ a incoming.atoms × Touched (codes "root") changes report incoming a
analyze-Touched_example =
    analyze-Touched saga changes report incoming (codes "m") none (codes "root") keys-IsUnique
      root_asked
