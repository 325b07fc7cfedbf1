-- ===== src/Egsi/Tests/Redactions.antt =====
-- The theorems on the contracts and on the redaction, at the case of the labels.
use iclr.Base.{
  ok, err, ℕ, suc, ◌≡◌, refl, inl, inr, true, false, ◌&&◌, Option, none, some, List, [], ◌∷◌,
  member, leb, is_unique, dedup_from, if◌then◌else◌,
}
use iclr.Base.Options.{some_of}
use iclr.Base.Texts.{codes, codes_eq, contains, utf8_length}
use iclr.Egsi.Candidates.Profile.{expected_evidence_type}
use iclr.Egsi.Candidates.Steps.{text_member}
use iclr.Egsi.Episode.Events.{is_sha256}
use iclr.Egsi.Contracts.Case.{
  CaseManifest, case_is_valid, validate_case_json, load_cases, load_case_catalog,
}
use iclr.Egsi.Contracts.Catalog.{Outcome, load_case_catalog-Outcome}
use iclr.Egsi.Contracts.Committed.{
  commitment_of, committed_enrichment_record-record_is_valid, IsUnambiguous,
  payload_is_valid-IsUnambiguous,
}
use iclr.Egsi.Contracts.Enrichment.{
  EnrichmentRecord, with_commitment, committed_enrichment_record, record_is_valid,
  other_fields_are_valid, payload_is_valid, location_is_valid, obligation_is_valid,
  trace_step_is_valid, validation_is_valid, enrichment_record_commitment,
}
use iclr.Egsi.Redaction.Artifacts.{policy_value_hits-contains}
use iclr.Egsi.Redaction.Collected.{occurs, member-key_hits}
use iclr.Egsi.Redaction.Extensions.{
  Identities, child_state, count_node, classify_scalar, scan_child, scan_fields, scan_items,
  scan_value, scan, top_extension_scalar_sets,
}
use iclr.Egsi.Redaction.Limits.{traversal-Verdict}
use iclr.Egsi.Redaction.Counts.{Verdict, below, fits}
use iclr.Egsi.Redaction.Oracle.{map_all, normalised_scalar, policy_case_id, oracle_scalar_sets}
use iclr.Egsi.Redaction.Placed.{placed}
use iclr.Egsi.Redaction.Secrecy.{IsAbsent, build_policy_seed-IsAbsent}
use iclr.Egsi.Redaction.Traversal.{
  queue, queue_fields, queue_items, visit, visit_within, traverse, traversal, all_scalar_strings,
  key_hits, forbidden_keys, max_nodes,
}
use iclr.Egsi.Redaction.Values.{
  Secrets, secrets_of, split_scalars, allowed_texts, policy_value_hits,
}
use iclr.Egsi.Tests.Episodes.{hashes, sixty_four}
use iclr.Egsi.Tests.Labels.{case, unicode, payload, enrichment, tools, seeded}
use iclr.Json.{Json, str, obj, arr, nil, cons, Fields, end, field}

-- A tree with a forbidden key.
abbrev tree : Json
tree = obj (field "state" (arr (cons (obj (field "patch" (str "cwe") end)) nil)) end)

traversal-Verdict_example :
    Verdict
      (traversal (λ key. member key forbidden_keys) false tree)
      (leb (suc (below tree)) max_nodes && fits 0 tree)
traversal-Verdict_example = traversal-Verdict (λ key. member key forbidden_keys) false tree

tree_hits : key_hits tree ≡ ok ("patch" ∷ [])
unfolding key_hits traverse visit_within visit queue_fields queue_items queue
tree_hits = refl

member-key_hits_example :
    member "patch" ("patch" ∷ []) ≡ occurs (λ key. member key forbidden_keys) false "patch" tree
member-key_hits_example = member-key_hits tree ("patch" ∷ []) "patch" tree_hits

-- What one symbol of the affected locations is.
location_is_sensitive :
    occurs (λ key. false) true "Render.write" (arr case.affected_locations) ≡ true
unfolding occurs
location_is_sensitive = refl

location_normal : normalised_scalar unicode "Render.write" ≡ some (codes "Render.write")
unfolding normalised_scalar utf8_length
location_normal = refl

build_policy_seed-IsAbsent_example :
    IsAbsent (codes "Render.write") seeded.0.0.case_id
    × IsAbsent (codes "Render.write") seeded.0.0.upstream_id
    × IsAbsent (codes "Render.write") seeded.0.0.vulnerable_commit
build_policy_seed-IsAbsent_example =
    build_policy_seed-IsAbsent unicode hashes case seeded.0.0 seeded.0.1 "Render.write"
      (codes "Render.write") seeded.1
      (inr (inl (3, arr case.affected_locations, refl, location_is_sensitive))) location_normal refl

-- Top-level extensions of which one text is sensitive, at any identities, and two are not.
abbrev extensions : Fields
extensions =
    field "note" (arr (cons (str "CWE-79 in render") nil))
      (field "status" (str "open") (field "build" (obj (field "status" (str "green") end)) end))

extensions-placed :
    (ids : Identities)
    → (placed ids "CWE-79 in render" extensions ≡ true)
      × (placed ids "open" extensions ≡ false)
      × (placed ids "green" extensions ≡ false)
unfolding occurs
extensions-placed ids = (refl, refl, refl)

-- An artifact that shows a text that is no secret.
abbrev artifact : Json
artifact = obj (field "state" (str "SELECT_ACTION") end)

secrets :
    (s : Secrets) × (secrets_of unicode case enrichment (tools.payload_json payload) ≡ some s)
    × (text_member (codes "SELECT_ACTION") s.allowed ≡ false)
    × (text_member (codes "Render.write") s.allowed ≡ false)
unfolding some_of secrets_of split_scalars allowed_texts policy_case_id oracle_scalar_sets
    all_scalar_strings traverse visit_within visit queue queue_fields queue_items map_all
    normalised_scalar utf8_length top_extension_scalar_sets scan scan_value scan_fields scan_items
    scan_child count_node classify_scalar child_state expected_evidence_type
secrets =
    let s = some_of (secrets_of unicode case enrichment (tools.payload_json payload)) refl in
    (s.0, s.1, refl, refl)

artifact_clean :
    policy_value_hits unicode case enrichment (tools.payload_json payload) artifact ≡ some []
unfolding policy_value_hits secrets_of split_scalars allowed_texts policy_case_id oracle_scalar_sets
    all_scalar_strings traverse visit_within visit queue queue_fields queue_items map_all
    normalised_scalar utf8_length top_extension_scalar_sets scan scan_value scan_fields scan_items
    scan_child count_node classify_scalar child_state expected_evidence_type
artifact_clean = refl

artifact_text :
    (occurs (λ key. false) true "SELECT_ACTION" artifact ≡ true)
    × (normalised_scalar unicode "SELECT_ACTION" ≡ some (codes "SELECT_ACTION"))
unfolding occurs normalised_scalar utf8_length
artifact_text = (refl, refl)

policy_value_hits-contains_example : contains (codes "SELECT_ACTION") (codes "Render.write") ≡ false
policy_value_hits-contains_example =
    policy_value_hits-contains unicode case enrichment (tools.payload_json payload) secrets.0
      artifact "SELECT_ACTION" "Render.write" (codes "SELECT_ACTION") (codes "Render.write")
      secrets.1 artifact_clean artifact_text.0 artifact_text.1 secrets.2
      (inr (inr (inl (inr (inl (3, arr case.affected_locations, refl, location_is_sensitive))))))
      location_normal refl secrets.3

-- The digest of every record is the same here.
abbrev digest : EnrichmentRecord → List ℕ
digest r = sixty_four

fields_valid : other_fields_are_valid enrichment ≡ true
unfolding other_fields_are_valid payload_is_valid location_is_valid obligation_is_valid
    trace_step_is_valid validation_is_valid is_unique dedup_from
fields_valid = refl

digest_form : is_sha256 (commitment_of digest enrichment) ≡ true
unfolding enrichment_record_commitment
digest_form = refl

committed_enrichment_record-record_is_valid_example :
    (committed_enrichment_record digest enrichment
      ≡ some (with_commitment enrichment (commitment_of digest enrichment)))
    × (record_is_valid digest (with_commitment enrichment (commitment_of digest enrichment)) ≡ true)
committed_enrichment_record-record_is_valid_example =
    committed_enrichment_record-record_is_valid digest enrichment fields_valid digest_form

payload_valid : payload_is_valid payload ≡ true
unfolding payload_is_valid location_is_valid obligation_is_valid trace_step_is_valid is_unique
    dedup_from
payload_valid = refl

payload_is_valid-IsUnambiguous_example : IsUnambiguous payload
payload_is_valid-IsUnambiguous_example = payload_is_valid-IsUnambiguous payload payload_valid

-- A catalog of a blank line, a case and a line that is none.
abbrev parse : List ℕ → Option CaseManifest
parse line = if codes_eq line (codes "{}") then some case else none

abbrev lines : List (List ℕ)
lines = codes " " ∷ codes "{}" ∷ codes "{" ∷ []

third_line : load_case_catalog parse lines ≡ err 3
unfolding load_case_catalog load_cases validate_case_json case_is_valid
third_line = refl

load_case_catalog-Outcome_example : Outcome parse 1 lines (load_case_catalog parse lines)
load_case_catalog-Outcome_example = load_case_catalog-Outcome parse lines
