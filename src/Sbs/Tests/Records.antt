-- ===== src/Sbs/Tests/Records.antt =====
-- The theorems on the registry, the static checks and the reports at concrete inputs.
use iclr.Base.{
  ℕ, String, ◌≡◌, ◌≢◌, refl, ◌⊎◌, Bool, true, false, Option, none, some, List, [], ◌∷◌, map, length,
  IsUnique, ok, err, ok_of, is_unique, dedup_from, dedup, ◌+◌, ◌↔◌, select, not, is_none,
}
use iclr.Base.Texts.{codes, lower}
use iclr.Json.{Json, str, obj, arr, int, nil, null, field, end}
use iclr.Sbs.Errors.{Failure}
use iclr.Sbs.Registry.{
  RegistryReport, Inventory, required_columns, load_readiness, count_inventory, load_candidates,
  load_rows, validate_registry_file, human_verified_count,
}
use iclr.Sbs.Registry.Rows.{row_lines, load_candidates-rows, validate_registry_file-load_candidates}
use iclr.Sbs.Reports.{
  migration_header, validate_status, validate_checks, check_all, check_rows, validate_migration_csv,
  check_decisions,
}
use iclr.Sbs.Reports.Accepted.{IsAccepted, validate_reports-IsAccepted}
use iclr.Sbs.Reports.Validate.{
  Files, missing_files, read_status, check_documents, check_inventory, check_latest, check_receipt,
  require_counts, validate_reports,
}
use iclr.Base.Integers.{pos}
use iclr.Sbs.Schema.Answers.{reject_passes, iter_answer_field_hits, is_answer_field}
use iclr.Sbs.Schema.Records.{CandidatePair, CandidateStatus}
use iclr.Sbs.Schema.Scripts.{candidate_pair, nulls_are_explicit}
use iclr.Sbs.StaticCheck.{Candidate, Readiness, classify_readiness}
use iclr.Sbs.StaticCheck.Blockers.{IsUnblocked, classify_readiness_lem}

abbrev row_json : Json
row_json = obj (
    field "pair_id" (str "p1") (
      field "project_family" (str "f") (
        field "dataset_origin" (str "d") (
          field "dataset_revision" null (
            field "source_locator" null (
              field "buggy_revision" null (
                field "fixed_revision" null (
                  field "category_claim" (str "logic") (
                    field "obligation_basis" null (
                      field "status" (str "metadata_only") (
                        field "license_note" null (
                          field "split" (str "dev_pilot")
                            (field "blocker" (str "b") end)))))))))))))

abbrev loads : List ℕ → Option Json
loads text = some row_json

abbrev lines : List (List ℕ)
lines = codes "row" ∷ codes " " ∷ []

loaded_rows : (rows : List CandidatePair) × (load_candidates loads lines ≡ ok rows)
unfolding load_candidates load_rows candidate_pair nulls_are_explicit reject_passes
    iter_answer_field_hits is_answer_field lower is_unique dedup_from
loaded_rows = ok_of (load_candidates loads lines) refl

load_candidates-rows_example :
    (length loaded_rows.0 ≡ length (row_lines lines))
    × IsUnique (map (λ (row : CandidatePair). row.pair_id) loaded_rows.0)
    × (human_verified_count loaded_rows.0 ≡ 0)
load_candidates-rows_example = load_candidates-rows loads lines loaded_rows.0 loaded_rows.1

validate_registry_file-load_candidates_example :
    ((e : Failure) × (load_candidates loads lines ≡ err e)
      × (validate_registry_file loads lines ≡ err e))
    ⊎ ((rows : List CandidatePair) × (report : RegistryReport) × (load_candidates loads lines
          ≡ ok rows)
        × (validate_registry_file loads lines ≡ ok report)
        × (report.candidate_pairs ≡ length (row_lines lines))
        × (report.project_families
            ≡ length (dedup (map (λ (row : CandidatePair). row.project_family) rows)))
        × (report.human_verified_pairs ≡ human_verified_count rows)
        × (report.null_source_locator_rows
              + length (select (λ row. not (is_none row.source_locator)) rows)
            ≡ length (row_lines lines)))
validate_registry_file-load_candidates_example = validate_registry_file-load_candidates loads lines

abbrev candidate : Candidate
candidate = record {
  category_claim = codes "logic flaw";
  versions_locatable = true;
  license_clear = false;
  citation_range_exists = true;
  actor_view_generated = true;
  obligation_basis = some (codes "owner check");
}

classify_readiness_lem_example :
    (r : Readiness) × (classify_readiness candidate ≡ ok r)
    × (r.status ≢ CandidateStatus.human_verified)
    × ((IsUnblocked candidate × (candidate.actor_view_generated ≡ true))
          × (r.status ≡ CandidateStatus.evidence_draft)
          × (r.ready ≡ "yes")
          × (r.blocker ≡ none)
        ⊎ ¬ (IsUnblocked candidate × (candidate.actor_view_generated ≡ true))
          × (r.ready ≡ "no")
          × ((candidate.versions_locatable ≡ true) × (r.status ≡ CandidateStatus.source_resolved)
              ⊎ (candidate.versions_locatable ≡ false) × (r.status ≡ CandidateStatus.metadata_only))
          × ((r.blocker ≡ none) ↔ IsUnblocked candidate))
classify_readiness_lem_example = classify_readiness_lem candidate

abbrev status_json : Json
status_json = obj (
    field "schema_version" (str "1.0") (
      field "round_id" (str "R01") (
        field "engineering_status" (str "completed") (
          field "data_status" (str "blocked") (
            field "delivery_status" (str "not_pushed") (
              field "review_status" (str "pending") (
                field "assistant_repo_access" (str "unverified_404") (
                  field "real_model_run_status" (str "not_run_by_design") (
                    field "training_status" (str "not_started_by_design") (
                      field "counts"
                        (obj (
                          field "candidate_pairs" (int (pos 1)) (
                            field "real_ready_pairs" (int (pos 0)) (
                              field "human_verified_pairs" (int (pos 0)) (
                                field "project_families" (int (pos 1))
                                  (field "fixture_cases" (int (pos 0)) end))))))
                        end))))))))))

abbrev files : Files
files = record {
  is_file = λ name. true;
  status = ok status_json;
  checks = ok (obj (field "checks" (arr nil) end));
  run_manifest = ok (
      obj (
        field "model_calls" (int (pos 0)) (
          field "detection_metrics" null
            (field "detection_metrics_status" (str "not_evaluated") end))));
  latest = ok (obj (field "round_id" (str "R01") (field "review_status" (str "pending") end)));
  push_receipt = err Failure.file_not_found;
  migration = migration_header ∷ [];
  json_loads = loads;
  candidate_lines = lines;
  readiness_header = some required_columns;
  readiness_rows = [];
  fixture_ids = [];
}

abbrev no_float : String → ℕ → Bool
no_float x n = false

validated :
    (inventory : Inventory) × (validate_reports no_float files "R01" "pre-push" ≡ ok inventory)
unfolding validate_reports read_status check_documents check_inventory check_latest check_receipt
    require_counts validate_status validate_checks check_all check_rows validate_migration_csv
    check_decisions load_candidates load_rows candidate_pair nulls_are_explicit reject_passes
    iter_answer_field_hits is_answer_field lower is_unique dedup_from load_readiness count_inventory
    missing_files human_verified_count
validated = ok_of (validate_reports no_float files "R01" "pre-push") refl

validate_reports-IsAccepted_example : IsAccepted no_float files validated.0
validate_reports-IsAccepted_example =
    validate_reports-IsAccepted no_float files "pre-push" "R01" validated.0 validated.1
