-- ===== src/Egsi/Tests/Labels.antt =====
-- A case with its enrichment, the episode that is compiled of it, and the theorems at them.
use iclr.Base.{String, ◌≡◌, refl, true, false, not, any, none, some, List, [], ◌∷◌, ◌++◌, map, All}
use iclr.Base.Options.{some_of}
use iclr.Base.Texts.{codes, utf8_length}
use iclr.Egsi.Candidates.Steps.{
  Text, CanonicalPolicyStep, all_different, canonicalize_policy_trace, canonicalize_from,
  canonicalize_step, raw_target, resolve_obligations, obligation_number, require_identifier,
  items_fit, trace_list_fits, target_is_bound, fits_profile, validate_step,
}
use iclr.Egsi.Candidates.Profile.{profile_of, alternatives, expected_evidence_type}
use iclr.Egsi.Candidates.Actions.{action_eq, base_eq, base_action, make_action}
use iclr.Egsi.Candidates.Compile.{
  operations_of, insert_action, sort_actions, make_actions, check_compiled, compile_candidates,
}
use iclr.Egsi.Contracts.Case.{CaseManifest}
use iclr.Egsi.Contracts.Enrichment.{EnrichmentRecord, EnrichmentPayload, policy_payload}
use iclr.Egsi.Episode.Compile.{
  Tools, Builder, validated_t1_inputs, episode_id_of, append_event, record_label, compile_step,
  compile_steps, open_episode, build_episode, artifacts_are_clean, is_clean,
  compile_validated_t1_episode, compile_t1_episode,
}
use iclr.Egsi.Episode.Events.{
  EpisodeEvent, Seed, Manifest, valid_emitted_text, seed_is_exact, event_is_valid, event_hash,
  make_event,
}
use iclr.Egsi.Episode.Loop.{IsAllLegal}
use iclr.Egsi.Episode.Replay.{replay_events}
use iclr.Egsi.Episode.RoundTrip.{replayed_of, compile_t1_episode-replay_events}
use iclr.Egsi.Episode.Selections.{choice}
use iclr.Egsi.Episode.Transitions.{
  T1Transition, transition_is_valid, history_is_valid, values_fit, normalize_values,
  episode_commitment,
}
use iclr.Egsi.Redaction.Extensions.{
  child_state, count_node, classify_scalar, scan_child, scan_fields, scan_items, scan_value, scan,
  top_extension_scalar_sets,
}
use iclr.Egsi.Redaction.Oracle.{
  Unicode, map_all, normalised_scalar, policy_case_id, oracle_scalar_sets, compare_scalars,
  no_oracle_scalar_smuggling, build_policy_seed, verify_policy_seed,
}
use iclr.Egsi.Redaction.Values.{secrets_of, split_scalars, allowed_texts, policy_value_hits}
use iclr.Egsi.Redaction.Traversal.{
  queue, queue_fields, queue_items, visit, visit_within, traverse, all_scalar_strings, key_hits,
}
use iclr.Egsi.Tests.{lib}
use iclr.Egsi.Tests.Episodes.{hashes, sizes, sixty_four}
use iclr.Json.{null, str, obj, nil, cons, end, field}

abbrev pub commit : String
commit = "0123456789012345678901234567890123456789"

abbrev pub case : CaseManifest
case = record {
  schema_version = "1.0";
  case_id = "GHSA-1";
  evidence_tier = "T1";
  family = "source_to_sink";
  cwe_normalized_primary = "CWE-79";
  split = "train";
  repository = record {
    url = "https://example.org/r";
    upstream_id = "org/upstream";
    vulnerable_commit = commit;
    fixed_commit = "aaaaaaaaaaaaaaaaaaaaaaaaaaaaaaaaaaaaaaaa";
    extra = end;
  };
  artifacts = record {
    patch_path = "a/fix.patch";
    proof_obligations_path = "a/proof.json";
    manifest_path = "a/manifest.json";
    poc_status = "not_collected";
    poc_url = none;
    test_paths = "a/ATest.java" ∷ [];
    extra = end;
  };
  views = record {
    oracle_view_path = "v/oracle.json";
    policy_view_path = "v/policy.json";
    redaction_manifest_sha256 =
        "sha256:cccccccccccccccccccccccccccccccccccccccccccccccccccccccccccccccc";
    extra = end;
  };
  affected_locations = cons (obj (field "symbol" (str "Render.write") end)) nil;
  extra = field "status" (str "open") end;
}

abbrev pub unicode : Unicode
unicode = record {
  fold = λ text. text;
  list_digest = λ texts. sixty_four;
  text_digest = λ text. sixty_four;
}

abbrev pub payload : EnrichmentPayload
payload = record {
  family = "source_to_sink";
  hypothesis = "The writer takes what the caller sends.";
  locations =
      record { path = "src/A.java"; start_line = some 3; end_line = some 9; role = "sink" } ∷ [];
  obligations =
      record { obligation_id = "guard"; kind = "guard"; description = "No guard stands before." }
      ∷ [];
  trace =
      record {
        step_id = "1";
        goal = "ESTABLISH_REACHABILITY";
        operation = "find_callers";
        target_kind = "function";
        target_id = "com.example.A#run";
        expected_evidence_type = "program_element";
        tool_class = "graph_query";
        resolves_unknowns = "guard" ∷ [];
      }
      ∷ [];
  authorization = none;
  limitations = [];
}

abbrev pub enrichment : EnrichmentRecord
enrichment = record {
  case_id = "GHSA-1";
  generation_mode = "fixture";
  provider = "fixture";
  model = "m";
  requested_model = "m";
  provider_response_model = "m";
  teacher_response_commitment_sha256 =
      "sha256:cccccccccccccccccccccccccccccccccccccccccccccccccccccccccccccccc";
  provider_request_id = none;
  prompt_sha256 = "sha256:cccccccccccccccccccccccccccccccccccccccccccccccccccccccccccccccc";
  source_context_sha256 = "sha256:cccccccccccccccccccccccccccccccccccccccccccccccccccccccccccccccc";
  temperature_is_finite = true;
  max_tokens = 8192;
  usage = [];
  structured_output_valid = true;
  payload = payload;
  validation = record {
    valid = true;
    family_mismatch = false;
    invalid_locations = [];
    invalid_trace_locations = [];
    invalid_goals = [];
    invalid_operations = [];
    invalid_target_kinds = [];
    invalid_tool_classes = [];
  };
  record_commitment_sha256 = codes "sha256:" ++ sixty_four;
}

-- The dumps show nothing here.
abbrev pub tools : Tools
tools = record {
  lib = lib;
  hashes = hashes;
  unicode = unicode;
  store_contains = λ commit path. true;
  episode_digest = λ case r. codes "bbbbbbbbbbbbbbbbbbbbbbbbbbbbbbbbbbbbbbbb";
  payload_json = λ payload. obj (field "hypothesis" (str payload.hypothesis) end);
  transition_json = λ t. null;
  event_json = λ e. null;
}

pub sets : (s : List String × List String) × (oracle_scalar_sets unicode case ≡ some s)
unfolding some_of oracle_scalar_sets all_scalar_strings traverse visit_within visit queue
    queue_fields queue_items map_all normalised_scalar utf8_length top_extension_scalar_sets scan
    scan_value scan_fields scan_items scan_child count_node classify_scalar child_state
sets = some_of (oracle_scalar_sets unicode case) refl

pub seeded : (s : Seed × Manifest) × (build_policy_seed unicode hashes case ≡ some s)
unfolding some_of build_policy_seed no_oracle_scalar_smuggling compare_scalars policy_case_id
    oracle_scalar_sets all_scalar_strings traverse visit_within visit queue queue_fields queue_items
    map_all normalised_scalar utf8_length top_extension_scalar_sets scan scan_value scan_fields
    scan_items scan_child count_node classify_scalar child_state valid_emitted_text seed_is_exact
seeded = some_of (build_policy_seed unicode hashes case) refl

pub inputs : validated_t1_inputs case enrichment ≡ true
unfolding validated_t1_inputs
inputs = refl

abbrev episode : Text
episode = episode_id_of tools case enrichment

steps :
    (s : List CanonicalPolicyStep) × (canonicalize_policy_trace
        (tools.store_contains commit)
        (policy_payload payload)
        episode
      ≡ some s)
unfolding some_of canonicalize_policy_trace canonicalize_from canonicalize_step profile_of
    raw_target resolve_obligations obligation_number expected_evidence_type
steps =
    some_of
      (canonicalize_policy_trace (tools.store_contains commit) (policy_payload payload) episode)
      refl

verified : verify_policy_seed unicode hashes seeded.0.0 seeded.0.1 case ≡ true
unfolding verify_policy_seed seeded some_of build_policy_seed no_oracle_scalar_smuggling
    compare_scalars policy_case_id oracle_scalar_sets all_scalar_strings traverse visit_within visit
    queue queue_fields queue_items map_all normalised_scalar utf8_length top_extension_scalar_sets
    scan scan_value scan_fields scan_items scan_child count_node classify_scalar child_state
    valid_emitted_text seed_is_exact
verified = refl

built : (b : Builder) × (build_episode tools episode seeded.0.0 seeded.0.1 1 steps.0 ≡ some b)
unfolding some_of seeded steps build_policy_seed no_oracle_scalar_smuggling compare_scalars
    policy_case_id oracle_scalar_sets all_scalar_strings traverse visit_within visit queue
    queue_fields queue_items map_all normalised_scalar utf8_length top_extension_scalar_sets scan
    scan_value scan_fields scan_items scan_child count_node classify_scalar child_state
    valid_emitted_text seed_is_exact canonicalize_policy_trace canonicalize_from canonicalize_step
    profile_of raw_target resolve_obligations obligation_number expected_evidence_type build_episode
    open_episode append_event compile_steps compile_step record_label make_event event_hash
    event_is_valid compile_candidates check_compiled operations_of alternatives make_actions
    make_action base_action sort_actions insert_action action_eq base_eq require_identifier
    validate_step fits_profile target_is_bound trace_list_fits items_fit transition_is_valid
    history_is_valid
built = some_of (build_episode tools episode seeded.0.0 seeded.0.1 1 steps.0) refl

no_hits : policy_value_hits unicode case enrichment (tools.payload_json payload) null ≡ some []
unfolding policy_value_hits secrets_of split_scalars allowed_texts policy_case_id oracle_scalar_sets
    all_scalar_strings traverse visit_within visit queue queue_fields queue_items map_all
    normalised_scalar utf8_length top_extension_scalar_sets scan scan_value scan_fields scan_items
    scan_child count_node classify_scalar child_state expected_evidence_type
no_hits = refl

null_clean : is_clean tools case enrichment null ≡ true
unfolding is_clean key_hits traverse visit_within visit
null_clean = rw no_hits

none_dirty :
    {A : Type 0} (xs : List A) → any (λ x. not (is_clean tools case enrichment null)) xs ≡ false
none_dirty [] = refl
none_dirty (x ∷ xs) = rw null_clean (none_dirty xs)

clean :
    (transitions : List T1Transition) (events : List EpisodeEvent)
    → artifacts_are_clean tools case enrichment transitions events ≡ true
unfolding artifacts_are_clean
clean transitions events = rw (none_dirty transitions, none_dirty events)

compiled_episode :
    compile_t1_episode tools case enrichment true ≡ some (built.0.transitions, built.0.events)
unfolding compile_t1_episode compile_validated_t1_episode
compiled_episode =
    rw (inputs, steps.1, seeded.1, verified, built.1, clean built.0.transitions built.0.events)

facts :
    ((c : Text) × (episode_commitment lib sizes built.0.transitions built.0.events ≡ some c))
    × All IsAllLegal built.0.transitions
    × (all_different (map choice built.0.transitions) ≡ true)
unfolding episode_commitment normalize_values values_fit built some_of seeded steps
    build_policy_seed no_oracle_scalar_smuggling compare_scalars policy_case_id oracle_scalar_sets
    all_scalar_strings traverse visit_within visit queue queue_fields queue_items map_all
    normalised_scalar utf8_length top_extension_scalar_sets scan scan_value scan_fields scan_items
    scan_child count_node classify_scalar child_state valid_emitted_text seed_is_exact
    canonicalize_policy_trace canonicalize_from canonicalize_step profile_of raw_target
    resolve_obligations obligation_number expected_evidence_type build_episode open_episode
    append_event compile_steps compile_step record_label make_event event_hash event_is_valid
    compile_candidates check_compiled operations_of alternatives make_actions make_action
    base_action sort_actions insert_action action_eq base_eq require_identifier validate_step
    fits_profile target_is_bound trace_list_fits items_fit transition_is_valid history_is_valid
facts = (
  some_of (episode_commitment lib sizes built.0.transitions built.0.events) refl,
  (refl, tt),
  refl,
)

compile_t1_episode-replay_events_example :
    replay_events lib hashes built.0.transitions sizes built.0.events facts.0.0
    ≡ some (replayed_of tools case enrichment built.0.transitions)
compile_t1_episode-replay_events_example =
    compile_t1_episode-replay_events tools case enrichment true built.0.transitions built.0.events
      sizes facts.0.0 compiled_episode facts.1 facts.2 facts.0.1
