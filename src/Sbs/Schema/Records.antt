-- ===== src/Sbs/Schema/Records.antt =====
-- The models of src/sbs/schema.py.
use iclr.Base.{ℕ, String, Bool, Option, List}
use iclr.Base.Integers.{ℤ}

-- `TerminalKind`
pub data TerminalKind : Type 0 where
  finish unresolved : TerminalKind

-- `DecisionVerdict`
pub data DecisionVerdict : Type 0 where
  supported refuted unresolved : DecisionVerdict

-- `HypothesisStatus`; `opened` is "open".
pub data HypothesisStatus : Type 0 where
  opened supported refuted unresolved : HypothesisStatus

pub data MaterialKind : Type 0 where
  fixture real : MaterialKind

pub data SplitId : Type 0 where
  dev_pilot : SplitId

pub data SourceCategory : Type 0 where
  source_snippet structured_record document_excerpt : SourceCategory

pub record LineSpan : Type 0 where
  pub start_line : Option ℤ
  pub end_line : Option ℤ

pub record EvidenceRecord : Type 0 where
  pub evidence_id : String
  pub display_path : String
  pub span : LineSpan
  pub content_sha256 : String
  pub source_category : SourceCategory
  pub material_kind : MaterialKind
  pub generation_id : Option String
  pub source_revision : Option String
  pub relative_read_path : String

pub record CaseView : Type 0 where
  pub case_id : String
  pub visible_context : String
  pub allowed_evidence_ids : List String
  pub split : SplitId
  pub material_kind : MaterialKind
  pub project_family : Option String

pub record Hypothesis : Type 0 where
  pub hypothesis_id : String
  pub entities : List String
  pub security_relation : String
  pub relation_source : String
  pub support_refs : List String
  pub counter_refs : List String
  pub unknowns : List String
  pub status : HypothesisStatus

-- `material` is the text of the evidence, by code points.
pub record Observation : Type 0 where
  pub evidence_id : String
  pub material : Option (List ℕ)
  pub parseable : Bool
  pub provenance : String
  pub uncertainty : String
  pub found : Bool

pub record Decision : Type 0 where
  pub verdict : DecisionVerdict
  pub applies_to_hypothesis_id : String
  pub not_a_global_safety_guarantee : Bool

-- `remaining_budget` is never negative: `_budget_non_negative` refuses the initial one, and the
-- replay counts it down from a positive value only.
pub record AuditState : Type 0 where
  pub observed_evidence : List String
  pub hypotheses : List Hypothesis
  pub unresolved_items : List String
  pub remaining_budget : ℕ
  pub inspection_history : List String
  pub terminal : Option TerminalKind
  pub termination_reason : Option String
  pub decision : Option Decision

pub data Representation : Type 0 where
  history sbs : Representation

-- `mode`, `evidence_order`, `split`, `model_calls_allowed`, `compute_detection_metrics` and
-- `value_scorer_available` are literals with one value: a config that validates has these values.
pub record SmokeConfig : Type 0 where
  pub seed : ℤ
  pub representations : List Representation
  pub max_observations : ℤ
  pub split : SplitId
  pub fixtures_root : String

pub record ScriptedUpdate : Type 0 where
  pub hypothesis_id : String
  pub add_support : List String
  pub add_counter : List String
  pub add_unknowns : List String
  pub remove_unknowns : List String
  pub status : Option HypothesisStatus
  pub terminal : Option TerminalKind
  pub termination_reason : Option String

-- `script_kind` is a literal with one value.
pub record ReplayScript : Type 0 where
  pub observation_order : List String
  pub initial_hypothesis : Hypothesis
  pub updates : List (String × ScriptedUpdate)

pub data CandidateStatus : Type 0 where
  metadata_only source_resolved evidence_draft human_verified excluded : CandidateStatus

pub record CandidatePair : Type 0 where
  pub pair_id : String
  pub project_family : String
  pub dataset_origin : String
  pub dataset_revision : Option String
  pub source_locator : Option String
  pub buggy_revision : Option String
  pub fixed_revision : Option String
  pub category_claim : String
  pub obligation_basis : Option String
  pub status : CandidateStatus
  pub license_note : Option String
  pub split : SplitId
  pub blocker : Option String
  pub local_catalog_key : Option String
