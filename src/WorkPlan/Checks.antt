-- ===== src/WorkPlan/Checks.antt =====
-- internal/workplan/validate.go: the checks that the validators of the records share. A check is the
-- list of the issues that it adds.
use changesaga.Prelude.{
  ℕ, Bool, false, not, ◌&&◌, ◌||◌, Option, none, some, List, [], ◌∷◌, ◌++◌, Text, codes, text_eq,
  has, any, all, length, Table, has_key, get, Result, ok, err, leb, ◌==◌, if◌then◌else◌,
}
use changesaga.LivingId
use changesaga.LivingId.{Kind, kind_text, valid_id, is_alnum, work_item}
use changesaga.LivingId.Parse
use changesaga.WorkPlan.Records.{Time, Identity, EventBase, Issue, Plan, is_null}
use changesaga.WorkPlan.Nodes.{error_if, is_nil}

-- `url.URL`, as far as the validator reads it.
pub record RepositoryUrl : Type 0 where
  pub is_absolute : Bool
  pub has_user : Bool
  pub host : Text

-- What the validators take from Go's library, without laws.
pub record Library : Type 0 where
  pub trim_space : Text → Text
  pub parse_url : Text → Option RepositoryUrl
  pub clean : Text → Text
  pub itoa : ℕ → Text

abbrev pub version : ℕ
version = 3

abbrev pub root_dir : Text
root_dir = codes "___workplan"

abbrev pub schema : Text → Text
schema name = codes "https://changesaga.dev/schema/v3/" ++ (name ++ codes ".schema.json")

-- The issues of several checks, in order.
abbrev pub all_issues : List (List Issue) → List Issue
all_issues [] = []
all_issues (is ∷ iss) = is ++ all_issues iss

-- The issues of a check on each element.
abbrev pub each_issues : {A : Type 0} → (A → List Issue) → List A → List Issue
each_issues check [] = []
each_issues check (x ∷ xs) = check x ++ each_issues check xs

-- `hasErrors`
unfoldable pub has_errors : List Issue → Bool
unfolding text_eq
has_errors = any (λ i. text_eq i.severity (codes "error"))

-- `oneOf`, and `contains`.
abbrev pub one_of : Text → List Text → Bool
one_of = has

-- `validTime`
abbrev pub valid_time : Time → Bool
valid_time t = not (t.seconds == 0) && t.is_utc

abbrev pub is_request_byte : ℕ → Bool
is_request_byte c = is_alnum c || c == 46 || c == 95 || c == 58 || c == 45

abbrev pub starts_alnum : Text → Bool
starts_alnum [] = false
starts_alnum (c ∷ t) = is_alnum c

-- `requestIDPattern`
unfoldable pub valid_request_id : Text → Bool
valid_request_id t = starts_alnum t && all is_request_byte t && leb (length t) 256

abbrev pub is_digit : ℕ → Bool
is_digit c = leb 48 c && leb c 57

abbrev pub is_lower_hex : ℕ → Bool
is_lower_hex c = is_digit c || (leb 97 c && leb c 102)

abbrev pub is_hex : ℕ → Bool
is_hex c = is_lower_hex c || (leb 65 c && leb c 70)

-- `regexpDigest`
unfoldable pub is_digest : Text → Bool
is_digest t = length t == 64 && all is_lower_hex t

-- `fullOIDPattern`
unfoldable pub is_full_oid : Text → Bool
is_full_oid t = (length t == 40 || length t == 64) && all is_hex t

-- `validateRequestFields`
unfoldable pub request_issues : Text → Text → Text → List Issue
unfolding valid_request_id is_digest
request_issues path request_id digest =
    if is_nil request_id && is_nil digest
    then []
    else error_if (not (valid_request_id request_id) || not (is_digest digest)) path
        (codes "request_id and its 64-character request_digest must be present together")

-- `validateIdentity`
unfoldable pub identity_issues : Text → Text → Identity → List Issue
unfolding text_eq valid_id
identity_issues path expected identity =
    error_if
      (not (text_eq identity.schema expected)
        || not (identity.version == version)
        || not (valid_id identity.id)
        || not (valid_time identity.created_at))
      path (codes "identity requires the v3 schema, stable id, and UTC creation time")

-- `validateEventBase`
unfoldable pub event_base_issues : Text → EventBase → List Issue
unfolding text_eq valid_id request_issues
event_base_issues path event = all_issues (
    error_if
      (not (text_eq event.schema (schema (codes "workplan-event")))
        || not (event.version == version)
        || not (valid_id event.id)
        || not (valid_time event.created_at))
      path (codes "event requires the v3 event schema, stable id, and UTC creation time")
    ∷ request_issues path event.request_id event.request_digest
    ∷ error_if (is_null event.parents) path (codes "event parents must be an array, not null")
    ∷ [])

abbrev pub is_reference : Text → Kind → Text → Result LivingId.Error LivingId.Reference → Bool
is_reference saga_id kind id (err e) = false
is_reference saga_id kind id (ok r) =
    text_eq r.saga_id saga_id && text_eq (kind_text r.kind) (kind_text kind) && text_eq r.id id

-- `referenceIs`
unfoldable pub reference_is : Text → Text → Kind → Text → Bool
unfolding Parse.parse text_eq
reference_is value saga_id kind id = is_reference saga_id kind id (Parse.parse value)

-- A reference of the Saga and the kind, parsed.
abbrev pub in_saga :
    Text → Kind → Result LivingId.Error LivingId.Reference → Option LivingId.Reference
in_saga saga_id kind (err e) = none
in_saga saga_id kind (ok r) =
    if text_eq r.saga_id saga_id && text_eq (kind_text r.kind) (kind_text kind)
    then some r
    else none

abbrev pub names_key : {A : Type 0} → Table A → Option LivingId.Reference → Bool
names_key table none = false
names_key table (some r) = has_key r.id table

-- `workItemReference`
unfoldable pub work_item_reference : Plan → Text → Bool
unfolding Parse.parse text_eq get
work_item_reference plan value =
    names_key plan.work_items (in_saga plan.saga_id work_item (Parse.parse value))

module _ (lib : Library) where
  -- `strings.TrimSpace(value) == ""`
  abbrev pub is_blank : Text → Bool
  is_blank value = is_nil (lib.trim_space value)

  abbrev pub valid_url : Option RepositoryUrl → Bool
  valid_url none = false
  valid_url (some u) = u.is_absolute && not u.has_user && not (is_nil u.host)

  -- `validRepository`
  abbrev pub valid_repository : Text → Bool
  valid_repository value = valid_url (lib.parse_url value)

  -- `validateStringList`
  unfoldable pub string_list_issues : Text → Text → List Text → Bool → List Issue
  string_list_issues path name values required =
      error_if (required && is_nil values) path (name ++ codes " must not be empty")
      ++ each_issues
          (λ v. error_if (is_blank v) path (name ++ codes " cannot contain empty values")) values
