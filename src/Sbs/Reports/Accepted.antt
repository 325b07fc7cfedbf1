-- ===== src/Sbs/Reports/Accepted.antt =====
-- What reports that validate say.
use iclr.Base.{
  ℕ, String, ◌≡◌, refl, inl, inr, Bool, true, false, List, ◌∷◌, length, Result, ok, arith,
  Bool-cases, Returns, Returns-ok, Returns-bind, returned, ◌>>◌,
}
use iclr.Json.{Json, Fields, get}
use iclr.Sbs.Errors.{Failure}
use iclr.Sbs.Registry.{CsvRow, Inventory, load_candidates, count_inventory}
use iclr.Sbs.Registry.Rows.{row_lines, load_candidates-rows}
use iclr.Sbs.Reports.{is_text, require, validate_status}
use iclr.Sbs.Reports.Validate.{
  Files, fields_of, is_count, counts_of, reported_counts, require_counts, read_status,
  check_inventory, validate_reports,
}
use iclr.Sbs.Schema.Records.{CandidatePair}

-- The reported counts that pass are those of the files.
require_counts-head :
    (float_is : String → ℕ → Bool) (reported : Fields) (key : String) (n : ℕ)
    (counts : List (String × ℕ))
    → require_counts float_is reported ((key, n) ∷ counts) ≡ ok tt
    → (is_count float_is (get key reported) n ≡ true)
      × (require_counts float_is reported counts ≡ ok tt)
unfolding require_counts
require_counts-head float_is reported key n counts h =
    elim (Bool-cases (is_count float_is (get key reported) n)) [
      | inl good ↦ (good, ground (arith, good))
      | inr bad ↦ absurd (ground (arith, bad))
    ]

require-eq_ok : (b : Bool) (u : Unit) → require b ≡ ok u → b ≡ true
require-eq_ok true u h = refl
require-eq_ok false u h = cc

abbrev IsUnderReview : Fields → Unit {0} → Type 0
IsUnderReview payload u = is_text "pending" (get "review_status" payload) ≡ true

review_after :
    (payload : Fields) (m : Result Failure Unit)
    → Returns
        (IsUnderReview payload)
        (require (is_text "pending" (get "review_status" payload)) >> m)
review_after payload m = record {
  at = λ u h. elim (Bool-cases (is_text "pending" (get "review_status" payload))) [
    | inl good ↦ good
    | inr bad ↦ absurd (ground (arith, bad))
  ];
}

validate_status-pending :
    (payload : Fields) (phase : String)
    → Returns (IsUnderReview payload) (validate_status payload phase)
unfolding validate_status
validate_status-pending payload phase = search (review_after, Returns-bind) depth 20

-- The status that was read and is pending review.
abbrev IsStatus : Files → Fields → Type 0
IsStatus files status =
    ((value : Json) × (files.status ≡ ok value) × (fields_of value ≡ ok status))
    × (is_text "pending" (get "review_status" status) ≡ true)

module _ (files : Files) (phase : String) where
  pending_fields :
      (value : Json) (status : Fields) (u : Unit {0})
      → files.status ≡ ok value
      → fields_of value ≡ ok status
      → validate_status status phase ≡ ok u
      → Returns (IsStatus files) (returned Failure status)
  pending_fields value status u read fields valid =
      Returns-ok status ((value, read, fields), (validate_status-pending status phase).at u valid)

  read_status-IsStatus : Returns (IsStatus files) (read_status files phase)
  unfolding read_status
  read_status-IsStatus = search (Returns-bind, pending_fields) depth 12

-- Counts of the files that agree with the reported ones.
pub record IsCounted (float_is : String → ℕ → Bool) (files : Files) (status : Fields)
    (inventory : Inventory) : Type 0 where
  pub reported : Fields
  pub counts_read : reported_counts status ≡ ok reported
  pub pairs :
      is_count float_is (get "candidate_pairs" reported) (length (row_lines files.candidate_lines))
      ≡ true
  pub verified : is_count float_is (get "human_verified_pairs" reported) 0 ≡ true
  pub same_pairs : inventory.candidate_pairs ≡ length (row_lines files.candidate_lines)
  pub none_verified : inventory.human_verified_pairs ≡ 0

module _ (float_is : String → ℕ → Bool) (files : Files) (status : Fields) where
  counted :
      (reported : Fields) (candidates : List CandidatePair) (readiness : List CsvRow) (u : Unit {0})
      → load_candidates files.json_loads files.candidate_lines ≡ ok candidates
      → reported_counts status ≡ ok reported
      → require_counts float_is reported
          (counts_of (count_inventory candidates readiness files.fixture_ids))
        ≡ ok u
      → Returns
          (IsCounted float_is files status)
          (returned Failure (count_inventory candidates readiness files.fixture_ids))
  unfolding count_inventory
  counted reported candidates readiness u loaded counts required =
      let (rows, unique, verified) =
        load_candidates-rows files.json_loads files.candidate_lines candidates loaded in
      let (pairs, r1) = require_counts-head float_is reported _ _ _ required in
      let (ready, r2) = require_counts-head float_is reported _ _ _ r1 in
      let (human, r3) = require_counts-head float_is reported _ _ _ r2 in
      Returns-ok _ (record {
        reported = reported;
        counts_read = counts;
        pairs = rw rows at pairs;
        verified = rw verified at human;
        same_pairs = rows;
        none_verified = verified;
      })

  check_inventory-IsCounted :
      Returns (IsCounted float_is files status) (check_inventory float_is files status)
  unfolding check_inventory
  check_inventory-IsCounted = search (Returns-bind, counted) depth 14

-- Reports that validate.
abbrev pub IsAccepted : (String → ℕ → Bool) → Files → Inventory → Type 0
IsAccepted float_is files inventory =
    (status : Fields) × IsStatus files status × IsCounted float_is files status inventory

module _ (float_is : String → ℕ → Bool) (files : Files) (phase : String) where
  accepted :
      (status : Fields) (inventory : Inventory)
      → read_status files phase ≡ ok status
      → check_inventory float_is files status ≡ ok inventory
      → Returns (IsAccepted float_is files) (returned Failure inventory)
  accepted status inventory read counts = Returns-ok inventory (
    status,
    (read_status-IsStatus files phase).at status read,
    (check_inventory-IsCounted float_is files status).at inventory counts,
  )

  validate_reports-Returns :
      (round_id : String)
      → Returns (IsAccepted float_is files) (validate_reports float_is files round_id phase)
  unfolding validate_reports
  validate_reports-Returns round_id = search (Returns-bind, accepted) depth 20

  -- When `validate_reports` accepts, the status is pending review and reports as many candidate pairs
  -- as the registry has rows and no pair that a human verified, and the inventory that it returns
  -- says the same.
  pub validate_reports-IsAccepted :
      (round_id : String) (inventory : Inventory)
      → validate_reports float_is files round_id phase ≡ ok inventory
      → IsAccepted float_is files inventory
  validate_reports-IsAccepted round_id inventory done =
      (validate_reports-Returns round_id).at inventory done
