-- ===== src/Egsi/Tests/Episodes.antt =====
-- A replayed episode, and the theorems on the replay at it.
use iclr.Base.{ℕ, String, ◌≡◌, refl, true, Option, none, some, List, [], ◌∷◌, map}
use iclr.Base.Options.{some_of}
use iclr.Base.Texts.{codes, utf8_length}
use iclr.Egsi.Candidates.Actions.{
  action_eq, base_eq, base_action, make_action, action_integrity, selected_target_fits,
  canonical_step_from_selected_action,
}
use iclr.Egsi.Candidates.Compile.{
  operations_of, insert_action, sort_actions, make_actions, check_compiled, compile_candidates,
}
use iclr.Egsi.Candidates.Profile.{profile_of, alternatives, expected_evidence_type}
use iclr.Egsi.Candidates.Steps.{
  Text, require_identifier, items_fit, trace_list_fits, target_is_bound, fits_profile,
  validate_step,
}
use iclr.Egsi.Episode.Chain.{IsChain, replay_events-IsChain}
use iclr.Egsi.Episode.Events.{
  EpisodeEvent, Payload, Hashes, Seed, label_scope, event_is_valid, valid_emitted_text,
  seed_is_exact, event_hash, validate_started,
}
use iclr.Egsi.Episode.Grammar.{replay_events-rounds}
use iclr.Egsi.Episode.Rounds.{rounds}
use iclr.Egsi.Episode.Replay.{
  Replayer, initial, Replayed, replay_events, replay_from, replay_end, on_event, on_phase,
  on_started, on_proposed, on_selected, on_label, on_closed, validate_actions,
}
use iclr.Egsi.Episode.Selections.{choice, replay_events-selected_actions}
use iclr.Egsi.Episode.Transitions.{
  T1Transition, Sizes, transition_is_valid, history_is_valid, values_fit, normalize_values,
  episode_commitment, validate_compiled_transition,
}
use iclr.Egsi.Tests.{lib, compiled}

abbrev pub sixty_four : Text
sixty_four = codes "aaaaaaaaaaaaaaaaaaaaaaaaaaaaaaaaaaaaaaaaaaaaaaaaaaaaaaaaaaaaaaaa"

abbrev pub prefixed : Text
prefixed = codes "sha256:aaaaaaaaaaaaaaaaaaaaaaaaaaaaaaaaaaaaaaaaaaaaaaaaaaaaaaaaaaaaaaaa"

abbrev pub hashes : Hashes
hashes = record {
  event_digest = λ sequence episode_id event_type payload previous. some sixty_four;
  sha = λ seed. prefixed;
}

abbrev pub sizes : Sizes
sizes = record {
  event_size = λ event. some 100;
  transition_size = λ t. some 5000;
  transition_digest = λ t. sixty_four;
  commitment_digest = λ episode_id last digests. sixty_four;
}

abbrev seed : Seed
seed = record {
  case_id = codes "C-1";
  upstream_id = codes "upstream";
  vulnerable_commit = codes "0123456789012345678901234567890123456789";
}

abbrev transition : T1Transition
transition = record {
  episode_id = codes "EP-1";
  state_version = 0;
  seed = seed;
  state_number = 0;
  history = [];
  candidate_actions = compiled.0.actions;
  legal_mask = compiled.0.legal_mask;
  selected_action = compiled.0.selected;
  next_state_version = 1;
  done = true;
}

abbrev event : ℕ → String → Payload → Option Text → EpisodeEvent
event sequence event_type payload previous = record {
  sequence = sequence;
  episode_id = codes "EP-1";
  event_type = event_type;
  payload = payload;
  previous_event_sha256 = previous;
  event_sha256 = prefixed;
}

abbrev events : List EpisodeEvent
events =
    event 0 "EPISODE_STARTED"
      (Payload.started seed (record { case_id = codes "C-1"; policy_sha256 = prefixed })) none
    ∷ event 1 "HYPOTHESIS_CREATED" (Payload.hypothesis "H-1" label_scope) (some prefixed)
    ∷ event 2 "ACTION_PROPOSED" (Payload.proposed compiled.0.actions compiled.0.legal_mask)
        (some prefixed)
    ∷ event 3 "ACTION_SELECTED" (Payload.selected compiled.0.selected.action_id) (some prefixed)
    ∷ event 4 "PATCH_GROUNDED_LABEL_RECORDED"
        (Payload.label 0 compiled.0.selected.action_id label_scope) (some prefixed)
    ∷ event 5 "EPISODE_CLOSED" (Payload.closed "LABEL_SEQUENCE_COMPLETE" "not_applicable")
        (some prefixed)
    ∷ []

-- The replay of the events, test by test.
committed : episode_commitment lib sizes (transition ∷ []) events ≡ some prefixed
unfolding compiled some_of compile_candidates check_compiled operations_of alternatives make_actions
    make_action base_action profile_of expected_evidence_type sort_actions insert_action action_eq
    base_eq require_identifier validate_step fits_profile target_is_bound trace_list_fits items_fit
    utf8_length event_is_valid transition_is_valid history_is_valid values_fit normalize_values
    episode_commitment
committed = refl

validated : validate_compiled_transition lib transition ≡ true
unfolding compiled some_of compile_candidates check_compiled operations_of alternatives make_actions
    make_action base_action profile_of expected_evidence_type sort_actions insert_action action_eq
    base_eq require_identifier validate_step fits_profile target_is_bound trace_list_fits items_fit
    utf8_length validate_compiled_transition action_integrity selected_target_fits
    canonical_step_from_selected_action
validated = refl

run : (r : Replayer) × (replay_from lib hashes (transition ∷ []) 0 events initial ≡ some r)
unfolding compiled some_of compile_candidates check_compiled operations_of alternatives make_actions
    make_action base_action profile_of expected_evidence_type sort_actions insert_action action_eq
    base_eq require_identifier validate_step fits_profile target_is_bound trace_list_fits items_fit
    utf8_length replay_from on_event on_phase on_started on_proposed on_selected on_label on_closed
    validate_actions valid_emitted_text seed_is_exact event_hash validate_started action_integrity
run = some_of (replay_from lib hashes (transition ∷ []) 0 events initial) refl

ended : (out : Replayed) × (replay_end lib hashes (transition ∷ []) run.0 ≡ some out)
unfolding compiled some_of compile_candidates check_compiled operations_of alternatives make_actions
    make_action base_action profile_of expected_evidence_type sort_actions insert_action action_eq
    base_eq require_identifier validate_step fits_profile target_is_bound trace_list_fits items_fit
    utf8_length run replay_from replay_end on_event on_phase on_started on_proposed on_selected
    on_label on_closed validate_actions valid_emitted_text seed_is_exact event_hash validate_started
    action_integrity
ended = some_of (replay_end lib hashes (transition ∷ []) run.0) refl

replayed :
    (out : Replayed) × (replay_events lib hashes (transition ∷ []) sizes events prefixed ≡ some out)
unfolding replay_events
replayed = (ended.0, rw (committed, validated, run.1) ended.1)

replay_events-IsChain_example :
    (episode : Text) × IsChain lib hashes (transition ∷ []) 0 episode none events
    × (replayed.0.episode_id ≡ some episode)
replay_events-IsChain_example =
    replay_events-IsChain lib hashes (transition ∷ []) sizes events prefixed replayed.0 replayed.1

replay_events-rounds_example :
    (map (λ (e : EpisodeEvent). e.event_type) events
      ≡ "EPISODE_STARTED" ∷ "HYPOTHESIS_CREATED" ∷ rounds 1)
    × (replayed.0.steps ≡ 1)
replay_events-rounds_example =
    replay_events-rounds lib hashes (transition ∷ []) sizes events prefixed replayed.0 replayed.1

replay_events-selected_actions_example : replayed.0.selected_actions ≡ map choice (transition ∷ [])
replay_events-selected_actions_example =
    replay_events-selected_actions lib hashes (transition ∷ []) sizes events prefixed replayed.0
      replayed.1
