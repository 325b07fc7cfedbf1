-- ===== src/Sbs/Reports/Validate.antt =====
-- `validate_reports` of src/sbs/reports.py, on the files of a repository.
use iclr.Base.{
  ℕ, String, Bool, true, false, not, ◌||◌, Option, none, some, List, [], ◌∷◌, ◌++◌, select, str_eq,
  ◌==◌, Result, ok, err, raise_if, ◌>>=◌, ◌>>◌, if◌then◌else◌,
}
use iclr.Base.Integers.{pos, int_eq}
use iclr.Json.{Json, bool, int, float, obj, Fields, end, get}
use iclr.Sbs.Errors.{Failure, value_error, attribute_error, file_not_found}
use iclr.Sbs.Registry.{CsvRow, Inventory, load_candidates, load_readiness, count_inventory}
use iclr.Sbs.Reports.{
  is_text, is_null, is_falsy, in_set, require, validate_status, validate_checks,
  validate_migration_csv,
}

-- What `validate_reports` reads, each file as its parser gives it.
pub record Files : Type 0 where
  -- `is_file` of a name in the directory of the round, of "reports/latest.json" in the repository
  pub is_file : String → Bool
  pub status : Result Failure Json
  pub checks : Result Failure Json
  pub run_manifest : Result Failure Json
  pub latest : Result Failure Json
  pub push_receipt : Result Failure Json
  pub migration : List (List String)
  pub json_loads : List ℕ → Option Json
  pub candidate_lines : List (List ℕ)
  pub readiness_header : Option (List String)
  pub readiness_rows : List CsvRow
  pub fixture_ids : List String

abbrev pub required_round_files : List String
required_round_files =
    "SUMMARY.md" ∷ "status.json" ∷ "inventory.json" ∷ "migration.csv" ∷ "checks.json"
    ∷ "run_manifest.json" ∷ "submission_checklist.md" ∷ []

abbrev pub is_post_push : String → Bool
is_post_push phase = str_eq phase "post-push"

-- The names in `missing`.
unfoldable pub missing_files : Files → String → List String
missing_files files phase =
    select (λ name. not (files.is_file name)) required_round_files
    ++ (select (λ name. not (files.is_file name)) ("reports/latest.json" ∷ [])
        ++ (if is_post_push phase
            then select (λ name. not (files.is_file name)) ("push_receipt.json" ∷ [])
            else []))

-- An attribute `get` is there for an object alone.
abbrev pub fields_of : Json → Result Failure Fields
fields_of (obj fs) = ok fs
fields_of other = err attribute_error

-- `value == n` with `n` a count: `False` and `True` are 0 and 1, and a float is read by its text.
abbrev pub is_count : (String → ℕ → Bool) → Option Json → ℕ → Bool
is_count float_is (some (int z)) n = int_eq z (pos n)
is_count float_is (some (bool true)) n = n == 1
is_count float_is (some (bool false)) n = n == 0
is_count float_is (some (float x)) n = float_is x n
is_count float_is other n = false

abbrev pub counts_of : Inventory → List (String × ℕ)
counts_of counts =
    ("candidate_pairs", counts.candidate_pairs)
    ∷ ("real_ready_pairs", counts.real_ready_pairs)
    ∷ ("human_verified_pairs", counts.human_verified_pairs)
    ∷ ("project_families", counts.project_families)
    ∷ ("fixture_cases", counts.fixture_cases)
    ∷ []

-- The loop over the counts.
unfoldable pub require_counts :
    (String → ℕ → Bool) → Fields → List (String × ℕ) → Result Failure Unit
require_counts float_is reported [] = ok tt
require_counts float_is reported ((key, n) ∷ counts) =
    let rest = require_counts float_is reported counts in
    if is_count float_is (get key reported) n then rest else err value_error

-- `status.get("counts") or {}`
abbrev pub reported_counts : Fields → Result Failure Fields
reported_counts status =
    if is_falsy (get "counts" status)
    then ok end
    else elim (get "counts" status) [ none ↦ ok end | some v ↦ fields_of v ]

abbrev pub is_empty : List String → Bool
is_empty [] = true
is_empty (x ∷ xs) = false

-- The check of the receipt, after the push.
unfoldable pub check_receipt : Files → String → Result Failure Unit
check_receipt files phase =
    if is_post_push phase
    then (do
      value ← files.push_receipt
      receipt ← fields_of value
      match ← in_set ("yes" ∷ "no" ∷ "not_verified" ∷ []) (get "remote_sha_match" receipt)
      require match)
    else ok tt

-- The status, which is read and checked first.
unfoldable pub read_status : Files → String → Result Failure Fields
read_status files phase = do
  value ← files.status
  status ← fields_of value
  validate_status status phase
  ok status

-- The check list, the migration table and the manifest of the run. `float_is x n` tells whether the
-- float that is written `x` equals `n`.
unfoldable pub check_documents : (String → ℕ → Bool) → Files → Result Failure Unit
check_documents float_is files = do
  checks ← files.checks
  validate_checks checks
  validate_migration_csv files.migration
  value ← files.run_manifest
  manifest ← fields_of value
  require (is_count float_is (get "model_calls" manifest) 0)
  require (is_null (get "detection_metrics" manifest))
  require (is_text "not_evaluated" (get "detection_metrics_status" manifest))

-- The counts of the files, against the reported ones.
unfoldable pub check_inventory : (String → ℕ → Bool) → Files → Fields → Result Failure Inventory
check_inventory float_is files status = do
  candidates ← load_candidates files.json_loads files.candidate_lines
  readiness ← load_readiness files.readiness_header files.readiness_rows
  reported ← reported_counts status
  require_counts float_is reported
      (counts_of (count_inventory candidates readiness files.fixture_ids))
  ok (count_inventory candidates readiness files.fixture_ids)

unfoldable pub check_latest : Files → Result Failure Unit
check_latest files = do
  value ← files.latest
  latest ← fields_of value
  require (is_text "R01" (get "round_id" latest))
  require (is_text "pending" (get "review_status" latest))

unfoldable pub validate_reports :
    (String → ℕ → Bool) → Files → String → String → Result Failure Inventory
validate_reports float_is files round_id phase = do
  require (str_eq round_id "R01")
  require (str_eq phase "pre-push" || is_post_push phase)
  raise_if (not (is_empty (missing_files files phase))) file_not_found
  status ← read_status files phase
  check_documents float_is files
  counts ← check_inventory float_is files status
  check_latest files
  check_receipt files phase
  ok counts
