-- ===== src/Egsi/Episode/Compile.antt =====
-- `_compile_validated_t1_episode` of src/egsi/generation/trajectory.py, and the gate before it. A
-- ValueError is `none`; a copy is the value itself. The state of a transition has few nodes and short
-- texts, so it is strict JSON of bounded size.
use iclr.Base.{
  ℕ, suc, ◌-◌, String, Bool, true, false, not, ◌&&◌, Option, none, some, List, [], ◌∷◌, ◌++◌, any,
  length, str_eq, leb, ◌==◌,
}
use iclr.Base.Options.{◌>>=◌, ◌>>◌, guard}
use iclr.Base.Texts.{codes, codes_eq, take}
use iclr.Egsi.Candidates.Actions.{Action, Library}
use iclr.Egsi.Candidates.Compile.{Compiled, compile_candidates, mask_of}
use iclr.Egsi.Candidates.Steps.{Text, CanonicalPolicyStep, canonicalize_policy_trace}
use iclr.Egsi.Contracts.Case.{CaseManifest}
use iclr.Egsi.Contracts.Enrichment.{EnrichmentRecord, EnrichmentPayload, is_any, policy_payload}
use iclr.Egsi.Episode.Events.{
  EpisodeEvent, Payload, started, hypothesis, proposed, selected, label, closed, Seed, Manifest,
  Hashes, make_event, label_scope,
}
use iclr.Egsi.Episode.Transitions.{T1Transition, HistoryItem, transition_is_valid, is_true}
use iclr.Egsi.Redaction.Oracle.{Unicode, build_policy_seed, verify_policy_seed, to_option}
use iclr.Egsi.Redaction.Traversal.{key_hits}
use iclr.Egsi.Redaction.Values.{policy_value_hits}
use iclr.Json.{Json}

-- What the compiler is given beside its arguments: the schema and the hashes, the repository, and the
-- dumps of the models.
pub record Tools : Type 0 where
  pub lib : Library
  pub hashes : Hashes
  pub unicode : Unicode
  -- `store.contains(commit, path)`
  pub store_contains : String → Text → Bool
  -- `_digest` of the case and the record, in hexadecimal
  pub episode_digest : CaseManifest → EnrichmentRecord → Text
  pub payload_json : EnrichmentPayload → Json
  pub transition_json : T1Transition → Json
  pub event_json : EpisodeEvent → Json

-- `_clean_validation`
unfoldable pub clean_validation : EnrichmentRecord → Bool
clean_validation r =
    r.structured_output_valid
    && r.validation.valid
    && not r.validation.family_mismatch
    && not (is_any r.validation.invalid_locations)
    && not (is_any r.validation.invalid_trace_locations)
    && not (is_any r.validation.invalid_goals)
    && not (is_any r.validation.invalid_operations)
    && not (is_any r.validation.invalid_target_kinds)
    && not (is_any r.validation.invalid_tool_classes)

-- The tests of `_validated_t1_inputs` after both contracts are validated again.
unfoldable pub validated_t1_inputs : CaseManifest → EnrichmentRecord → Bool
unfolding clean_validation
validated_t1_inputs case r =
    str_eq r.case_id case.case_id
    && str_eq r.payload.family case.family
    && clean_validation r
    && leb 1 (length r.payload.trace)
    && leb (length r.payload.trace) 64

-- `_episode_id`
abbrev pub episode_id_of : Tools → CaseManifest → EnrichmentRecord → Text
episode_id_of tools case r = codes "EP-" ++ take 32 (tools.episode_digest case r)

-- The lists that the compiler appends to.
pub record Builder : Type 0 where
  pub events : List EpisodeEvent
  pub transitions : List T1Transition
  pub history : List HistoryItem

abbrev pub empty_builder : Builder
empty_builder = record { events = []; transitions = []; history = [] }

-- `events[-1].event_sha256`, none before the first event.
abbrev pub last_hash_of : List EpisodeEvent → Option Text
last_hash_of [] = none
last_hash_of (event ∷ []) = some event.event_sha256
last_hash_of (event ∷ next ∷ events) = last_hash_of (next ∷ events)

abbrev pub has_identifier : Action → Action → Bool
has_identifier choice a = codes_eq a.action_id choice.action_id

abbrev pub history_of : ℕ → Compiled → HistoryItem
history_of index c = record { state_version = index; action_id = c.selected.action_id }

abbrev pub with_transition : T1Transition → Builder → Builder
with_transition t b = record b { transitions = b.transitions ++ t ∷ [] }

abbrev pub with_history : HistoryItem → Builder → Builder
with_history item b = record b { history = b.history ++ item ∷ [] }

module _ (tools : Tools) (episode_id : Text) where
  open tools use {lib, hashes}

  -- `events.append(make_event(len(events), ...))`
  unfoldable pub append_event : String → Payload → Builder → Option Builder
  append_event event_type payload b =
      make_event hashes (length b.events) episode_id event_type payload (last_hash_of b.events)
      >>= λ event. some (record b { events = b.events ++ event ∷ [] })

  -- `T1Transition(...)`, before its validation.
  abbrev pub transition_of : Seed → ℕ → ℕ → Compiled → List HistoryItem → T1Transition
  transition_of seed trace_length index c history = record {
    episode_id = episode_id;
    state_version = index;
    seed = seed;
    state_number = index;
    history = history;
    candidate_actions = c.actions;
    legal_mask = c.legal_mask;
    selected_action = c.selected;
    next_state_version = suc index;
    done = index == trace_length - 1;
  }

  -- The round of one compiled step.
  unfoldable pub record_label : Seed → ℕ → ℕ → Compiled → Builder → Option Builder
  record_label seed trace_length index c b = do
    b1 ← append_event "ACTION_PROPOSED" (proposed c.actions c.legal_mask) b
    b2 ← append_event "ACTION_SELECTED" (selected c.selected.action_id) b1
    let t = transition_of seed trace_length index c b.history
    guard (leb (length b.history) 64 && transition_is_valid lib t)
    b3 ←
        append_event "PATCH_GROUNDED_LABEL_RECORDED" (label index c.selected.action_id label_scope)
          (with_transition t b2)
    some (with_history (history_of index c) b3)

  -- One round of the loop over the policy trace.
  unfoldable pub compile_step : Seed → ℕ → ℕ → CanonicalPolicyStep → Builder → Option Builder
  compile_step seed trace_length index step b = do
    c ← compile_candidates lib seed.case_id episode_id (codes "B-1") step
    guard (is_true (mask_of (has_identifier c.selected) c.actions c.legal_mask))
    record_label seed trace_length index c b

  unfoldable pub compile_steps : Seed → ℕ → ℕ → List CanonicalPolicyStep → Builder → Option Builder
  compile_steps seed trace_length index [] b = some b
  compile_steps seed trace_length index (step ∷ steps) b =
      compile_step seed trace_length index step b
      >>= compile_steps seed trace_length (suc index) steps

  -- The events before the loop.
  unfoldable pub open_episode : Seed → Manifest → Option Builder
  open_episode seed manifest = do
    b ← append_event "EPISODE_STARTED" (started seed manifest) empty_builder
    append_event "HYPOTHESIS_CREATED" (hypothesis "H-1" label_scope) b

  -- The events of a policy trace, from the first to the last.
  unfoldable pub build_episode : Seed → Manifest → ℕ → List CanonicalPolicyStep → Option Builder
  build_episode seed manifest trace_length steps = do
    b ← open_episode seed manifest
    b' ← compile_steps seed trace_length 0 steps b
    append_event "EPISODE_CLOSED" (closed "LABEL_SEQUENCE_COMPLETE" "not_applicable") b'

-- `not (key_hits(item) or policy_value_hits(case, record, item))`, of a JSON artifact; a traversal that
-- raises is no pass.
abbrev pub is_empty {ℓ} : {A : Type ℓ} → Option (List A) → Bool
is_empty none = false
is_empty (some []) = true
is_empty (some (x ∷ xs)) = false

module _ (tools : Tools) (case : CaseManifest) (r : EnrichmentRecord) where
  unfoldable pub is_clean : Json → Bool
  is_clean item =
      is_empty (to_option (key_hits item))
      && is_empty (policy_value_hits tools.unicode case r (tools.payload_json r.payload) item)

  unfoldable pub artifacts_are_clean : List T1Transition → List EpisodeEvent → Bool
  unfolding is_clean
  artifacts_are_clean transitions events =
      not (any (λ t. not (is_clean (tools.transition_json t))) transitions)
      && not (any (λ e. not (is_clean (tools.event_json e))) events)

  -- `_compile_validated_t1_episode`
  unfoldable pub compile_validated_t1_episode : Option (List T1Transition × List EpisodeEvent)
  compile_validated_t1_episode = do
    let episode_id = episode_id_of tools case r
    policy_trace ←
        canonicalize_policy_trace (tools.store_contains case.repository.vulnerable_commit)
          (policy_payload r.payload) episode_id
    (seed, manifest) ← build_policy_seed tools.unicode tools.hashes case
    guard (verify_policy_seed tools.unicode tools.hashes seed manifest case)
    b ← build_episode tools episode_id seed manifest (length r.payload.trace) policy_trace
    guard (artifacts_are_clean b.transitions b.events)
    some (b.transitions, b.events)

  -- `compile_t1_episode`: the gate, and the compiler. `provenance` is whether the context, the prompt
  -- and the validation of the record are found again.
  unfoldable pub compile_t1_episode : Bool → Option (List T1Transition × List EpisodeEvent)
  compile_t1_episode provenance =
      guard (validated_t1_inputs case r) >> (guard provenance >> compile_validated_t1_episode)
