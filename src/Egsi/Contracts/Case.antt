-- ===== src/Egsi/Contracts/Case.antt =====
-- src/egsi/contracts/case.py. What a model admits beside its fields is its `extra`.
use iclr.Base.{
  Result, ok, err, ◌>>=◌, ℕ, suc, String, Bool, false, not, ◌&&◌, Option, none, some, List, [], ◌∷◌,
  any, member, if◌then◌else◌,
}
use iclr.Base.Texts.{codes, codes_eq, is_blank, is_digit}
use iclr.Egsi.Episode.Events.{is_hex_of, is_sha256}
use iclr.Json.{Fields, Items}

pub record RepositoryRef : Type 0 where
  pub url : String
  pub upstream_id : String
  pub vulnerable_commit : String
  pub fixed_commit : String
  pub extra : Fields

pub record ArtifactRefs : Type 0 where
  pub patch_path : String
  pub proof_obligations_path : String
  pub manifest_path : String
  pub poc_status : String
  pub poc_url : Option String
  pub test_paths : List String
  pub extra : Fields

pub record ViewRefs : Type 0 where
  pub oracle_view_path : String
  pub policy_view_path : String
  pub redaction_manifest_sha256 : String
  pub extra : Fields

pub record CaseManifest : Type 0 where
  pub schema_version : String
  pub case_id : String
  pub evidence_tier : String
  pub family : String
  pub cwe_normalized_primary : String
  pub split : String
  pub repository : RepositoryRef
  pub artifacts : ArtifactRefs
  pub views : ViewRefs
  pub affected_locations : Items
  pub extra : Fields

abbrev pub poc_statuses : List String
poc_statuses = "not_collected" ∷ "url_only" ∷ "available_unverified" ∷ "adapted" ∷ "replayed" ∷ []

-- `^CWE-[0-9]+$`
abbrev pub is_cwe : List ℕ → Bool
is_cwe (c ∷ w ∷ e ∷ dash ∷ d ∷ rest) =
    codes_eq (c ∷ w ∷ e ∷ dash ∷ []) (codes "CWE-")
    && is_digit d
    && not (any (λ x. not (is_digit x)) rest)
is_cwe text = false

-- `validate_commit`
abbrev pub is_commit : String → Bool
is_commit value = is_hex_of 40 (codes value)

-- The literals, the patterns and the validators of the models.
unfoldable pub case_is_valid : CaseManifest → Bool
case_is_valid case =
    member case.schema_version ("1.0" ∷ [])
    && member case.evidence_tier ("T0" ∷ "T1" ∷ "T2" ∷ "T3" ∷ [])
    && member case.family ("source_to_sink" ∷ "authorization" ∷ [])
    && is_cwe (codes case.cwe_normalized_primary)
    && member case.split ("train" ∷ "dev" ∷ "time_ood_test" ∷ [])
    && is_commit case.repository.vulnerable_commit
    && is_commit case.repository.fixed_commit
    && member case.artifacts.poc_status poc_statuses
    && is_sha256 (codes case.views.redaction_manifest_sha256)

-- `model_validate_json` of a line: `parse` decodes the JSON and the types of the fields.
unfoldable pub validate_case_json : (List ℕ → Option CaseManifest) → List ℕ → Option CaseManifest
validate_case_json parse raw_line = elim (parse raw_line) [
  | none ↦ none
  | some case ↦ if case_is_valid case then some case else none
]

-- The loop of `load_case_catalog`; an error names the line.
unfoldable pub load_cases :
    (List ℕ → Option CaseManifest) → ℕ → List (List ℕ) → Result ℕ (List CaseManifest)
unfolding validate_case_json
load_cases parse line_number [] = ok []
load_cases parse line_number (raw_line ∷ lines) =
    let rest = load_cases parse (suc line_number) lines in
    if is_blank raw_line then rest else elim (validate_case_json parse raw_line) [
      | none ↦ err line_number
      | some case ↦ rest >>= λ cases. ok (case ∷ cases)
    ]

-- `load_case_catalog`, of the lines of the file.
unfoldable pub load_case_catalog :
    (List ℕ → Option CaseManifest) → List (List ℕ) → Result ℕ (List CaseManifest)
load_case_catalog parse lines = load_cases parse 1 lines
