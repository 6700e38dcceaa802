-- ===== src/DiffUri.antt =====
-- internal/diffuri/diffuri.go: selectors of changed lines, files and events of one comparison.
pub mod Urls
pub mod Repository
pub mod LocalFiles
pub mod Validate
pub mod Parse
use changesaga.Prelude.{
  ℕ, ◌≡◌, ◌≤◌, Bool, false, ◌&&◌, not, Text, codes, text_eq, leb, if◌then◌else◌, Result, ok,
}

-- The kinds and the sides are Go strings. Line numbers are Go ints: `Parse` returns none below 1.
pub record Reference : Type 0 where
  pub repository : Text
  pub base_oid : Text
  pub head_oid : Text
  pub kind : Text
  pub path : Text
  pub side : Text
  pub start : ℕ
  pub end : ℕ
  pub event : Text
  pub old_path : Text
  pub new_path : Text

abbrev pub is_line : Reference → Bool
is_line r = text_eq r.kind (codes "line")

unfoldable pub matches : Reference → Reference → Bool
matches selector atom =
    if not (
      text_eq selector.repository atom.repository
      && text_eq selector.base_oid atom.base_oid
      && text_eq selector.head_oid atom.head_oid
      && text_eq selector.kind atom.kind)
    then false
    else if text_eq selector.kind (codes "line")
    then text_eq selector.path atom.path
      && text_eq selector.side atom.side
      && leb selector.start atom.start
      && leb atom.end selector.end
    else if text_eq selector.kind (codes "file")
    then text_eq selector.path atom.path
    else if not (text_eq selector.event atom.event)
    then false
    else if text_eq selector.event (codes "rename")
    then text_eq selector.old_path atom.old_path && text_eq selector.new_path atom.new_path
    else text_eq selector.path atom.path

-- What the clients use of `Parse`: its results, and that `Validate` refuses a line range whose end
-- is before its start.
pub record UriParser : Type 0 where
  pub parse : Text → Result Text Reference
  pub ordered : (uri : Text) (r : Reference) → parse uri ≡ ok r → r.start ≤ r.end
