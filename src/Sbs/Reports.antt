-- ===== src/Sbs/Reports.antt =====
-- src/sbs/reports.py: the checks of the status, of the check list and of the migration table.
pub mod Validate
pub mod Accepted
use iclr.Base.{
  String, Bool, true, false, not, ◌&&◌, ◌||◌, Option, none, some, List, [], ◌∷◌, length, member,
  str_eq, is_none, ◌==◌, Result, ok, err, raise_if, ◌>>=◌, ◌>>◌, if◌then◌else◌,
}
use iclr.Base.Integers.{pos, int_eq}
use iclr.Base.Texts.{codes, contains}
use iclr.Json.{
  Json, null, bool, int, float, str, arr, obj, Items, nil, cons, Fields, end, field, get,
}
use iclr.Sbs.Errors.{Failure, value_error, type_error, stop_iteration, index_error}

abbrev pub migration_header : List String
migration_header =
    "path" ∷ "decision" ∷ "reason" ∷ "base_sha" ∷ "replacement_path" ∷ "verification"
    ∷ "rollback_note" ∷ []

abbrev pub check_fields : List String
check_fields = "check_id" ∷ "command" ∷ "started_at" ∷ "finished_at" ∷ "exit_code" ∷ "status" ∷ []

-- `ALLOWED_ENG` and `ALLOWED_DATA`
abbrev pub allowed_progress : List String
allowed_progress = "not_started" ∷ "completed" ∷ "partial" ∷ "blocked" ∷ []

abbrev pub allowed_delivery : List String
allowed_delivery = "not_pushed" ∷ "checkpoint_verified" ∷ "failed" ∷ []

abbrev pub migration_decisions : List String
migration_decisions = "keep" ∷ "adapt" ∷ "archive_reference" ∷ "remove" ∷ "defer_unknown" ∷ []

abbrev pub texts_eq : List String → List String → Bool
texts_eq [] [] = true
texts_eq (x ∷ xs) (y ∷ ys) = str_eq x y && texts_eq xs ys
texts_eq xs ys = false

-- `row[1]`, of a row that is not empty
abbrev pub second_cell : List String → Result Failure String
second_cell (path ∷ decision ∷ rest) = ok decision
second_cell row = err index_error

unfoldable pub check_decisions : List (List String) → Result Failure Unit
check_decisions [] = ok tt
check_decisions ([] ∷ rows) = check_decisions rows
check_decisions ((cell ∷ cells) ∷ rows) =
    let rest = check_decisions rows in
    second_cell (cell ∷ cells) >>= λ decision.
    if member decision migration_decisions then rest else err value_error

-- `validate_migration_csv`, on the rows that `csv.reader` gives.
unfoldable pub validate_migration_csv : List (List String) → Result Failure Unit
unfolding check_decisions
validate_migration_csv [] = err stop_iteration
validate_migration_csv (header ∷ rows) =
    if texts_eq header migration_header then check_decisions rows else err value_error

-- `value == text`
abbrev pub is_text : String → Option Json → Bool
is_text text (some (str s)) = str_eq s text
is_text text other = false

-- `value in allowed`, where a list or an object cannot be hashed.
abbrev pub in_set : List String → Option Json → Result Failure Bool
in_set allowed (some (str s)) = ok (member s allowed)
in_set allowed (some (arr xs)) = err type_error
in_set allowed (some (obj fs)) = err type_error
in_set allowed other = ok false

abbrev pub require : Bool → Result Failure Unit
require test = raise_if (not test) value_error

abbrev pub require_in : List String → Option Json → Result Failure Unit
require_in allowed value = in_set allowed value >>= require

-- `validate_status`, on the fields of the payload.
unfoldable pub validate_status : Fields → String → Result Failure Unit
validate_status payload phase = do
  require (is_text "1.0" (get "schema_version" payload))
  require (is_text "R01" (get "round_id" payload))
  require_in allowed_progress (get "engineering_status" payload)
  require_in allowed_progress (get "data_status" payload)
  require_in allowed_delivery (get "delivery_status" payload)
  require (is_text "pending" (get "review_status" payload))
  require (is_text "unverified_404" (get "assistant_repo_access" payload))
  require (is_text "not_run_by_design" (get "real_model_run_status" payload))
  require (is_text "not_started_by_design" (get "training_status" payload))
  require (
      not
        (str_eq phase "pre-push" && is_text "checkpoint_verified" (get "delivery_status" payload)))

-- `not value`, for a value or for none
abbrev pub is_falsy : Option Json → Bool
is_falsy none = true
is_falsy (some null) = true
is_falsy (some (bool b)) = not b
is_falsy (some (int n)) = int_eq n (pos 0)
is_falsy (some (float x)) = str_eq x "0.0" || str_eq x "-0.0"
is_falsy (some (str s)) = length (codes s) == 0
is_falsy (some (arr nil)) = true
is_falsy (some (arr (cons x xs))) = false
is_falsy (some (obj end)) = true
is_falsy (some (obj (field k v fs))) = false

-- `value is None`, for a value or for none
abbrev pub is_null : Option Json → Bool
is_null none = true
is_null (some null) = true
is_null (some v) = false

abbrev pub item_is_text : String → Items → Bool
item_is_text text nil = false
item_is_text text (cons x xs) = is_text text (some x) || item_is_text text xs

-- `name in row`
abbrev pub row_has : String → Json → Result Failure Bool
row_has name (obj fs) = ok (not (is_none (get name fs)))
row_has name (arr xs) = ok (item_is_text name xs)
row_has name (str s) = ok (contains (codes s) (codes name))
row_has name other = err type_error

unfoldable pub require_fields : List String → Json → Result Failure Unit
require_fields [] row = ok tt
require_fields (name ∷ names) row =
    let rest = require_fields names row in
    row_has name row >>= λ has. if has then rest else err value_error

-- The tests on `status`, `notes` and `exit_code`; a row that is no object has no item "status".
unfoldable pub check_run : Json → Result Failure Unit
check_run (obj fs) =
    let not_run = is_text "not_run" (get "status" fs) in
    raise_if (not_run && is_falsy (get "notes" fs)) value_error
    >> raise_if (not not_run && is_null (get "exit_code" fs)) value_error
check_run row = err type_error

unfoldable pub check_row : Json → Result Failure Unit
unfolding require_fields check_run
check_row row = require_fields check_fields row >> check_run row

unfoldable pub check_rows : Items → Result Failure Unit
check_rows nil = ok tt
check_rows (cons row rows) = let rest = check_rows rows in check_row row >>= λ _. rest

-- The rows of `payload["checks"]`: iterating over an object gives its keys, and over a text its
-- characters, none of which holds a field's name.
unfoldable pub check_all : Json → Result Failure Unit
unfolding check_rows
check_all (arr rows) = check_rows rows
check_all (obj end) = ok tt
check_all (obj (field k v fs)) = check_row (str k)
check_all (str s) = if length (codes s) == 0 then ok tt else err value_error
check_all other = err type_error

unfoldable pub validate_checks : Json → Result Failure Unit
unfolding check_all
validate_checks (obj fs) = elim (get "checks" fs) [ none ↦ err value_error | some v ↦ check_all v ]
validate_checks payload = err value_error
