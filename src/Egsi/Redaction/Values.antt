-- ===== src/Egsi/Redaction/Values.antt =====
-- `policy_value_hits` of src/egsi/generation/redaction.py. A ValueError is `none`.
use iclr.Base.{
  String, Bool, true, false, not, ◌&&◌, ◌||◌, Option, none, some, List, [], ◌∷◌, ◌++◌, map, any,
  select, length, str_eq, leb, ◌==◌,
}
use iclr.Base.Options.{◌>>=◌}
use iclr.Base.Texts.{codes, contains}
use iclr.Egsi.Candidates.Profile.{Profile, operation_profile, target_kinds, expected_evidence_type}
use iclr.Egsi.Candidates.Steps.{Text, text_member}
use iclr.Egsi.Contracts.Case.{CaseManifest}
use iclr.Egsi.Contracts.Enrichment.{EnrichmentRecord, EnrichmentPayload}
use iclr.Egsi.Redaction.Oracle.{
  Unicode, map_all, normalised_scalar, oracle_scalar_sets, policy_case_id, to_option,
}
use iclr.Egsi.Redaction.Traversal.{all_scalar_strings, forbidden_keys}
use iclr.Json.{Json}

abbrev pub policy_canonicalizer_version : String
policy_canonicalizer_version = "policy-trace-v1"

abbrev pub seed_unknowns : List String
seed_unknowns = "entrypoint" ∷ "security_invariant" ∷ "guard" ∷ "impact" ∷ []

-- `expected_evidence_type(operation, target_kind) for target_kind in TARGET_KINDS`
abbrev pub evidence_of : String → List String → List String
evidence_of operation [] = []
evidence_of operation (kind ∷ kinds) =
    let rest = evidence_of operation kinds in
    elim (expected_evidence_type operation kind) [ none ↦ rest | some evidence ↦ evidence ∷ rest ]

abbrev pub profile_texts : List (String × Profile) → List String
profile_texts [] = []
profile_texts ((operation, p) ∷ profiles) =
    operation
    ∷ p.goal
    ∷ p.tool_class
    ∷ (evidence_of operation target_kinds ++ profile_texts profiles)

-- `allowed`, without the policy's identifier of the case.
unfoldable pub allowed_texts : CaseManifest → EnrichmentPayload → List String
allowed_texts case payload =
    case.repository.upstream_id
      ∷ case.repository.vulnerable_commit
      ∷ policy_canonicalizer_version
      ∷ "patch_grounded_bc"
      ∷ "patch_grounded"
      ∷ "PATCH_GROUNDED_LABEL_RECORDED"
      ∷ profile_texts operation_profile
    ++ target_kinds
    ++ forbidden_keys
    ++ seed_unknowns
    ++ map (λ location. location.path) payload.locations
    ++ map (λ step. step.target_id) (select (λ step. str_eq step.target_kind "path") payload.trace)

-- What is looked for, in normal form.
pub record Secrets : Type 0 where
  pub allowed : List Text
  pub exact : List Text
  pub substrings : List Text

-- `matched`, after the test on `allowed`.
abbrev pub is_hit : Secrets → Text → Bool
is_hit s emitted =
    not (text_member emitted s.allowed)
    && (text_member emitted s.exact || any (λ secret. contains emitted secret) s.substrings)

-- `if normalized and normalized not in normalized_allowed`
abbrev pub is_secret : List Text → Text → Bool
is_secret allowed text = not (length text == 0) && not (text_member text allowed)

abbrev pub hit_digests : (Text → Text) → Secrets → List Text → List Text
hit_digests digest s emitted =
    map (λ text. codes "sha256:" ++ digest text) (select (is_hit s) emitted)

-- `if len(...) >= 8: substring_sensitive.add(scalar) else: exact_only.add(scalar)`
abbrev pub place : Bool → String → List String × List String → List String × List String
place true scalar (exact, substrings) = (exact, scalar ∷ substrings)
place false scalar (exact, substrings) = (scalar ∷ exact, substrings)

module _ (unicode : Unicode) where
  -- The split of the payload's texts by their length.
  unfoldable pub split_scalars : List String → Option (List String × List String)
  split_scalars [] = some ([], [])
  split_scalars (scalar ∷ scalars) = do
    text ← normalised_scalar unicode scalar
    (exact, substrings) ← split_scalars scalars
    some (place (leb 8 (length text)) scalar (exact, substrings))

  -- The sets that `policy_value_hits` makes before its loop; `payload_json` is the payload's dump.
  unfoldable pub secrets_of : CaseManifest → EnrichmentRecord → Json → Option Secrets
  secrets_of case r payload_json = do
    (exact_only, substring_sensitive) ← oracle_scalar_sets unicode case
    scalars ← to_option (all_scalar_strings payload_json)
    (short, long) ← split_scalars scalars
    policy_id ← policy_case_id unicode case
    allowed ← map_all (normalised_scalar unicode) (allowed_texts case r.payload)
    let all_allowed = unicode.fold policy_id ∷ allowed
    exact ← map_all (normalised_scalar unicode) (exact_only ++ short)
    substrings ←
        map_all (normalised_scalar unicode) (case.case_id ∷ r.case_id ∷ substring_sensitive ++ long)
    some (record {
      allowed = all_allowed;
      exact = select (is_secret all_allowed) exact;
      substrings = select (is_secret all_allowed) substrings;
    })

  -- `policy_value_hits`
  unfoldable pub policy_value_hits :
      CaseManifest → EnrichmentRecord → Json → Json → Option (List Text)
  policy_value_hits case r payload_json value = do
    s ← secrets_of case r payload_json
    scalars ← to_option (all_scalar_strings value)
    emitted ← map_all (normalised_scalar unicode) scalars
    some (hit_digests unicode.text_digest s emitted)
