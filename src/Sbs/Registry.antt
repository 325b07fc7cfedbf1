-- ===== src/Sbs/Registry.antt =====
-- src/sbs/registry.py: the candidate registry. A line is its code points, and a row of the CSV
-- file is the dictionary that `csv.DictReader` makes.
pub mod Rows
use iclr.Base.{
  ℕ, String, Bool, true, false, not, Option, none, some, List, [], ◌∷◌, map, length, select, dedup,
  is_unique, is_none, member, str_eq, ◌==◌, Result, ok, err, raise_if, or_raise, ◌>>=◌, ◌>>◌,
  if◌then◌else◌,
}
use iclr.Base.Texts.{is_blank}
use iclr.Json.{Json}
use iclr.Sbs.Errors.{Failure, value_error}
use iclr.Sbs.Schema.Records.{CandidatePair, CandidateStatus, SplitId}
use iclr.Sbs.Schema.Scripts.{candidate_pair}

-- `json.loads` of a line and the validation of its value.
abbrev pub parse_row : (List ℕ → Option Json) → List ℕ → Option CandidatePair
parse_row json_loads raw = elim (json_loads raw) [ none ↦ none | some value ↦ candidate_pair value ]

-- The loop of `load_candidates`.
unfoldable pub load_rows :
    (List ℕ → Option Json) → List (List ℕ) → Result Failure (List CandidatePair)
load_rows json_loads [] = ok []
load_rows json_loads (raw ∷ lines) =
    let rest = load_rows json_loads lines in
    let read =
      or_raise (parse_row json_loads raw) value_error >>= λ row. rest >>= λ rows. ok (row ∷ rows) in
    if is_blank raw then rest else read

unfoldable pub load_candidates :
    (List ℕ → Option Json) → List (List ℕ) → Result Failure (List CandidatePair)
load_candidates json_loads lines = do
  rows ← load_rows json_loads lines
  raise_if (not (is_unique (map (λ row. row.pair_id) rows))) value_error
  ok rows

-- `row.split != "dev_pilot"` is never true of the one split.
abbrev pub is_dev_pilot : SplitId → Bool
is_dev_pilot SplitId.dev_pilot = true

unfoldable pub assert_r01_split : List CandidatePair → Result Failure Unit
assert_r01_split [] = ok tt
assert_r01_split (row ∷ rows) =
    let rest = assert_r01_split rows in if is_dev_pilot row.split then rest else err value_error

abbrev pub is_human_verified : CandidateStatus → Bool
is_human_verified CandidateStatus.human_verified = true
is_human_verified _ = false

unfoldable pub human_verified_count : List CandidatePair → ℕ
human_verified_count rows = length (select (λ row. is_human_verified row.status) rows)

-- A row of a CSV file: its columns and their values.
abbrev pub CsvRow : Type 0
CsvRow = List (String × String)

abbrev pub column : String → CsvRow → Option String
column k [] = none
column k ((j, v) ∷ row) = if str_eq j k then some v else column k row

abbrev pub required_columns : List String
required_columns =
    "pair_id" ∷ "category_claim" ∷ "versions_locatable" ∷ "license_clear" ∷ "citation_range_exists"
    ∷ "actor_view_generated" ∷ "ready" ∷ "blocker" ∷ "split" ∷ []

-- `required.issubset(set(fieldnames))`
abbrev pub is_subset : List String → List String → Bool
is_subset [] names = true
is_subset (x ∷ xs) names = if member x names then is_subset xs names else false

unfoldable pub load_readiness : Option (List String) → List CsvRow → Result Failure (List CsvRow)
load_readiness none rows = err value_error
load_readiness (some fieldnames) rows =
    if is_subset required_columns fieldnames then ok rows else err value_error

abbrev pub is_ready : CsvRow → Bool
is_ready row = elim (column "ready" row) [ none ↦ false | some v ↦ str_eq v "yes" ]

pub record Inventory : Type 0 where
  pub candidate_pairs : ℕ
  pub real_ready_pairs : ℕ
  pub human_verified_pairs : ℕ
  pub project_families : ℕ
  pub fixture_cases : ℕ
  pub real_registry_rows : ℕ
  pub fixture_not_in_registry : ℕ

abbrev pub family_count : List CandidatePair → ℕ
family_count rows = length (dedup (map (λ row. row.project_family) rows))

unfoldable pub count_inventory : List CandidatePair → List CsvRow → List String → Inventory
count_inventory candidates readiness fixture_case_ids = record {
  candidate_pairs = length candidates;
  real_ready_pairs = length (select is_ready readiness);
  human_verified_pairs = human_verified_count candidates;
  project_families = family_count candidates;
  fixture_cases = length fixture_case_ids;
  real_registry_rows = length candidates;
  fixture_not_in_registry = length fixture_case_ids;
}

-- The report of `validate_registry_file`; `valid`, `split` and the count of 0 are constants.
pub record RegistryReport : Type 0 where
  pub candidate_pairs : ℕ
  pub project_families : ℕ
  pub human_verified_pairs : ℕ
  pub null_source_locator_rows : ℕ

abbrev pub report_of : List CandidatePair → RegistryReport
report_of rows = record {
  candidate_pairs = length rows;
  project_families = family_count rows;
  human_verified_pairs = 0;
  null_source_locator_rows = length (select (λ row. is_none row.source_locator) rows);
}

unfoldable pub validate_registry_file :
    (List ℕ → Option Json) → List (List ℕ) → Result Failure RegistryReport
validate_registry_file json_loads lines = do
  rows ← load_candidates json_loads lines
  assert_r01_split rows
  raise_if (not (human_verified_count rows == 0)) value_error
  ok (report_of rows)

unfoldable pub never_sets_human_verified : CandidateStatus → Result Failure CandidateStatus
never_sets_human_verified status = raise_if (is_human_verified status) value_error >> ok status
