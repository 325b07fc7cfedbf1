-- ===== src/Egsi/Contracts/Enrichment.antt =====
-- src/egsi/contracts/enrichment.py. A free text that no rule of the contracts reads has no field.
use iclr.Base.{
  ℕ, String, Bool, true, false, not, ◌&&◌, ◌||◌, Option, none, some, List, [], ◌∷◌, ◌++◌, map, any,
  member, length, is_none, is_unique, str_eq, leb,
}
use iclr.Base.Options.{◌>>◌, guard}
use iclr.Base.Texts.{codes, codes_eq}
use iclr.Egsi.Candidates.Steps.{Payload}
use iclr.Egsi.Candidates.Steps as Policy
use iclr.Egsi.Episode.Events.{is_sha256}

pub record EnrichedLocation : Type 0 where
  pub path : String
  pub start_line : Option ℕ
  pub end_line : Option ℕ
  pub role : String

pub record ProofObligation : Type 0 where
  pub obligation_id : String
  pub kind : String
  pub description : String

pub record TraceStep : Type 0 where
  pub step_id : String
  pub goal : String
  pub operation : String
  pub target_kind : String
  pub target_id : String
  pub expected_evidence_type : String
  pub tool_class : String
  pub resolves_unknowns : List String

-- `AuthorizationSemantics`: free texts.
pub record AuthorizationSemantics : Type 0 where
  pub texts : List String

pub record EnrichmentPayload : Type 0 where
  pub family : String
  pub hypothesis : String
  pub locations : List EnrichedLocation
  pub obligations : List ProofObligation
  pub trace : List TraceStep
  pub authorization : Option AuthorizationSemantics
  pub limitations : List String

abbrev pub roles : List String
roles =
    "entry" ∷ "source" ∷ "propagation" ∷ "guard" ∷ "sink" ∷ "resource" ∷ "identity" ∷ "impact" ∷ []

-- `NonEmpty`
abbrev pub is_text : String → Bool
is_text value = not (str_eq value "")

-- `ge=1`
abbrev pub is_line : Option ℕ → Bool
is_line none = true
is_line (some n) = leb 1 n

-- `valid_line_range`
abbrev pub ordered_lines : Option ℕ → Option ℕ → Bool
ordered_lines (some first) (some last) = leb first last
ordered_lines none last = true
ordered_lines (some first) none = true

unfoldable pub location_is_valid : EnrichedLocation → Bool
location_is_valid location =
    is_text location.path
    && is_line location.start_line
    && is_line location.end_line
    && member location.role roles
    && ordered_lines location.start_line location.end_line

unfoldable pub obligation_is_valid : ProofObligation → Bool
obligation_is_valid obligation =
    is_text obligation.obligation_id && is_text obligation.kind && is_text obligation.description

unfoldable pub trace_step_is_valid : TraceStep → Bool
trace_step_is_valid step =
    is_text step.step_id
    && is_text step.goal
    && is_text step.operation
    && is_text step.target_kind
    && is_text step.target_id
    && is_text step.expected_evidence_type
    && is_text step.tool_class

abbrev pub obligation_ids : EnrichmentPayload → List String
obligation_ids payload = map (λ o. o.obligation_id) payload.obligations

abbrev pub step_ids : EnrichmentPayload → List String
step_ids payload = map (λ t. t.step_id) payload.trace

-- The last two tests of `validate_family_semantics`.
abbrev pub family_fits : String → Option AuthorizationSemantics → Bool
family_fits family authorization =
    not (str_eq family "authorization" && is_none authorization)
    && not (str_eq family "source_to_sink" && not (is_none authorization))

-- The fields of `EnrichmentPayload`, and `validate_family_semantics`.
unfoldable pub payload_is_valid : EnrichmentPayload → Bool
payload_is_valid payload =
    member payload.family ("source_to_sink" ∷ "authorization" ∷ [])
    && is_text payload.hypothesis
    && leb 1 (length payload.locations)
    && not (any (λ l. not (location_is_valid l)) payload.locations)
    && leb 1 (length payload.obligations)
    && not (any (λ o. not (obligation_is_valid o)) payload.obligations)
    && leb 1 (length payload.trace)
    && not (any (λ t. not (trace_step_is_valid t)) payload.trace)
    && is_unique (obligation_ids payload)
    && is_unique (step_ids payload)
    && family_fits payload.family payload.authorization

pub record EnrichmentValidation : Type 0 where
  pub valid : Bool
  pub family_mismatch : Bool
  pub invalid_locations : List String
  pub invalid_trace_locations : List String
  pub invalid_goals : List String
  pub invalid_operations : List String
  pub invalid_target_kinds : List String
  pub invalid_tool_classes : List String

-- `bool(values)`
abbrev pub is_any : List String → Bool
is_any [] = false
is_any (x ∷ xs) = true

abbrev pub bool_eq : Bool → Bool → Bool
bool_eq true b = b
bool_eq false b = not b

abbrev pub diagnostics : EnrichmentValidation → Bool
diagnostics v =
    v.family_mismatch
    || is_any v.invalid_locations
    || is_any v.invalid_trace_locations
    || is_any v.invalid_goals
    || is_any v.invalid_operations
    || is_any v.invalid_target_kinds
    || is_any v.invalid_tool_classes

-- `consistent_validity`
unfoldable pub validation_is_valid : EnrichmentValidation → Bool
validation_is_valid v = bool_eq v.valid (not (diagnostics v))

-- `temperature` is whether the number is finite, `usage` the sign of each value.
pub record EnrichmentRecord : Type 0 where
  pub case_id : String
  pub generation_mode : String
  pub provider : String
  pub model : String
  pub requested_model : String
  pub provider_response_model : String
  pub teacher_response_commitment_sha256 : String
  pub provider_request_id : Option String
  pub prompt_sha256 : String
  pub source_context_sha256 : String
  pub temperature_is_finite : Bool
  pub max_tokens : ℕ
  pub usage : List (String × Bool)
  pub structured_output_valid : Bool
  pub payload : EnrichmentPayload
  pub validation : EnrichmentValidation
  pub record_commitment_sha256 : List ℕ

abbrev pub optional_text : Option String → Bool
optional_text none = true
optional_text (some value) = is_text value

-- The fields of the record but the commitment, `finite_temperature`, `valid_usage`, and the first test
-- of `valid_record_commitment`.
unfoldable pub other_fields_are_valid : EnrichmentRecord → Bool
other_fields_are_valid r =
    is_text r.case_id
    && member r.generation_mode ("fixture" ∷ "live" ∷ [])
    && is_text r.provider
    && is_text r.model
    && is_text r.requested_model
    && is_text r.provider_response_model
    && is_sha256 (codes r.teacher_response_commitment_sha256)
    && optional_text r.provider_request_id
    && is_sha256 (codes r.prompt_sha256)
    && is_sha256 (codes r.source_context_sha256)
    && r.temperature_is_finite
    && leb 1 r.max_tokens
    && not (any (λ (entry : String × Bool). entry.1) r.usage)
    && payload_is_valid r.payload
    && validation_is_valid r.validation
    && str_eq r.model r.requested_model

unfoldable pub record_fields_are_valid : EnrichmentRecord → Bool
unfolding other_fields_are_valid
record_fields_are_valid r = other_fields_are_valid r && is_sha256 r.record_commitment_sha256

-- The record under another commitment.
abbrev pub with_commitment : EnrichmentRecord → List ℕ → EnrichmentRecord
with_commitment r commitment = record r { record_commitment_sha256 = commitment }

abbrev pub no_commitment : List ℕ
no_commitment = codes "sha256:0000000000000000000000000000000000000000000000000000000000000000"

-- `digest` is SHA-256 over the canonical JSON, in hexadecimal.
module _ (digest : EnrichmentRecord → List ℕ) where
  -- `enrichment_record_commitment`: of every field but the commitment.
  unfoldable pub enrichment_record_commitment : EnrichmentRecord → List ℕ
  enrichment_record_commitment r = codes "sha256:" ++ digest (with_commitment r no_commitment)

  -- `EnrichmentRecord.model_validate`
  unfoldable pub record_is_valid : EnrichmentRecord → Bool
  record_is_valid r =
      record_fields_are_valid r
      && codes_eq r.record_commitment_sha256 (enrichment_record_commitment r)

  -- `committed_enrichment_record`; `none` is a ValidationError.
  unfoldable pub committed_enrichment_record : EnrichmentRecord → Option EnrichmentRecord
  committed_enrichment_record value = do
    let normalized = with_commitment value no_commitment
    guard (record_fields_are_valid normalized)
    let committed = with_commitment normalized (enrichment_record_commitment normalized)
    guard (record_is_valid committed)
    some committed

-- What the policy's compiler reads of a payload.
abbrev pub policy_step : TraceStep → Policy.TraceStep
policy_step step = record {
  operation = step.operation;
  target_kind = step.target_kind;
  target_id = codes step.target_id;
  resolves_unknowns = map codes step.resolves_unknowns;
}

abbrev pub policy_payload : EnrichmentPayload → Payload
policy_payload payload = record {
  obligation_ids = map codes (obligation_ids payload);
  trace = map policy_step payload.trace;
}
