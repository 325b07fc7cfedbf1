-- ===== src/Egsi/Episode/Replay.antt =====
-- `replay_events` of src/egsi/generation/replay.py. Every `_fail` is `none`.
use iclr.Base.{
  ℕ, zero, suc, String, Bool, true, false, not, ◌&&◌, Option, none, some, List, [], ◌∷◌, ◌++◌, map,
  any, length, str_eq, leb, ◌==◌, if◌then◌else◌,
}
use iclr.Base.Options.{◌>>=◌, ◌>>◌, guard}
use iclr.Base.Texts.{codes_eq}
use iclr.Egsi.Candidates.Actions.{Action, Library, action_eq, action_integrity}
use iclr.Egsi.Candidates.Compile.{sum_mask}
use iclr.Egsi.Candidates.Steps.{Text, all_different, text_is, text_member}
use iclr.Egsi.Episode.Events.{
  EpisodeEvent, Payload, started, hypothesis, proposed, selected, label, closed, Seed, Manifest,
  Hashes, event_hash, validate_started, label_scope,
}
use iclr.Egsi.Episode.Transitions.{
  T1Transition, Sizes, actions_eq, masks_eq, episode_commitment, validate_compiled_transition,
}

pub data Phase : Type 0 where
  start at_hypothesis at_proposed at_selected at_label proposed_or_close at_closed : Phase

-- The variables of the loop.
pub record Replayer : Type 0 where
  pub phase : Phase
  pub episode_id : Option Text
  pub previous : Option Text
  pub proposal : Option (List Action × List Bool)
  pub selected_actions : List Text
  pub state_version : ℕ
  pub is_closed : Bool

abbrev pub initial : Replayer
initial = record {
  phase = Phase.start;
  episode_id = none;
  previous = none;
  proposal = none;
  selected_actions = [];
  state_version = 0;
  is_closed = false;
}

-- What the replay returns.
pub record Replayed : Type 0 where
  pub episode_id : Option Text
  pub selected_actions : List Text
  pub steps : ℕ

-- The payload under the keys that a phase expects.
abbrev pub as_started : Payload → Option (Seed × Manifest)
as_started (started seed manifest) = some (seed, manifest)
as_started _ = none

abbrev pub is_hypothesis : Payload → Bool
is_hypothesis (hypothesis id scope) = str_eq id "H-1" && str_eq scope label_scope
is_hypothesis _ = false

abbrev pub as_proposed : Payload → Option (List Action × List Bool)
as_proposed (proposed actions mask) = some (actions, mask)
as_proposed _ = none

abbrev pub as_selected : Payload → Option Text
as_selected (selected action_id) = some action_id
as_selected _ = none

abbrev pub is_label : ℕ → Option Text → Payload → Bool
is_label version (some action_id) (label n id scope) =
    n == version && codes_eq id action_id && str_eq scope label_scope
is_label version _ _ = false

abbrev pub is_closing : Payload → Bool
is_closing (closed outcome verdict) =
    str_eq outcome "LABEL_SEQUENCE_COMPLETE" && str_eq verdict "not_applicable"
is_closing _ = false

-- `transitions[index]`, where there is one.
abbrev pub nth {ℓ} : {A : Type ℓ} → List A → ℕ → Option A
nth [] index = none
nth (x ∷ xs) zero = some x
nth (x ∷ xs) (suc index) = nth xs index

-- `selected_actions[-1]`
abbrev pub last : List Text → Option Text
last [] = none
last (x ∷ []) = some x
last (x ∷ y ∷ xs) = last (y ∷ xs)

-- The masks of the proposed actions with the identifier.
abbrev pub matches : Text → List Action → List Bool → List Bool
matches id [] mask = []
matches id (a ∷ actions) [] = []
matches id (a ∷ actions) (b ∷ mask) =
    if codes_eq a.action_id id then b ∷ matches id actions mask else matches id actions mask

abbrev pub is_one_legal : List Bool → Bool
is_one_legal (true ∷ []) = true
is_one_legal _ = false

abbrev pub same_bool : Bool → Bool → Bool
same_bool true b = b
same_bool false b = not b

abbrev pub same_previous : Option Text → Option Text → Bool
same_previous none none = true
same_previous (some a) (some b) = codes_eq a b
same_previous a b = false

-- `if episode_id is None: episode_id = event.episode_id`
abbrev pub episode_of : Option Text → EpisodeEvent → Text
episode_of none event = event.episode_id
episode_of (some id) event = id

module _ (lib : Library) (hashes : Hashes) (transitions : List T1Transition) where
  -- `_validate_actions`; a proposed action has the label scope, since `_base_action` gives it.
  unfoldable pub validate_actions : Text → List Action → List Bool → Bool
  validate_actions episode_id actions mask =
      leb 1 (length actions)
      && leb (length actions) 64
      && length actions == length mask
      && not (any (λ action. not (codes_eq action.base.episode_id episode_id)) actions)
      && all_different (map (λ action. action.action_id) actions)
      && masks_eq mask (map lib.is_legal actions)
      && not (any (λ action. not (action_integrity lib action)) actions)
      && leb 4 (sum_mask mask)

  -- A proposal in the phases PROPOSED and PROPOSED_OR_CLOSE.
  unfoldable pub on_proposed : Text → Payload → Replayer → Option Replayer
  on_proposed episode_id payload r = do
    (actions, mask) ← as_proposed payload
    guard (validate_actions episode_id actions mask)
    t ← nth transitions r.state_version
    guard (actions_eq actions t.candidate_actions && masks_eq mask t.legal_mask)
    some (record r { proposal = some (actions, mask); phase = Phase.at_selected })

  unfoldable pub on_selected : Payload → Replayer → Option Replayer
  on_selected payload r = do
    action_id ← as_selected payload
    (actions, mask) ← r.proposal
    guard (is_one_legal (matches action_id actions mask))
    guard (not (text_member action_id r.selected_actions))
    t ← nth transitions r.state_version
    guard (
        codes_eq action_id t.selected_action.action_id && any (action_eq t.selected_action) actions)
    some (record r {
      selected_actions = r.selected_actions ++ action_id ∷ [];
      phase = Phase.at_label;
    })

  unfoldable pub on_label : Payload → Replayer → Option Replayer
  on_label payload r = do
    guard (is_label r.state_version (last r.selected_actions) payload)
    t ← nth transitions r.state_version
    guard (t.state_version == r.state_version && t.next_state_version == suc r.state_version)
    guard (same_bool t.done (suc r.state_version == length transitions))
    some (record r {
      state_version = suc r.state_version;
      proposal = none;
      phase = Phase.proposed_or_close;
    })

  unfoldable pub on_closed : Payload → Replayer → Option Replayer
  on_closed payload r = do
    guard (is_closing payload)
    some (record r { is_closed = true; phase = Phase.at_closed })

  unfoldable pub on_started : Payload → Replayer → Option Replayer
  on_started payload r = do
    (seed, manifest) ← as_started payload
    guard (validate_started hashes seed manifest)
    some (record r { phase = Phase.at_hypothesis })

  -- The chain of `if phase == ...`.
  unfoldable pub on_phase : Phase → Text → String → Payload → Replayer → Option Replayer
  on_phase Phase.start episode_id event_type payload r =
      guard (str_eq event_type "EPISODE_STARTED") >> on_started payload r
  on_phase Phase.at_hypothesis episode_id event_type payload r =
      guard (str_eq event_type "HYPOTHESIS_CREATED" && is_hypothesis payload)
      >> some (record r { phase = Phase.at_proposed })
  on_phase Phase.at_proposed episode_id event_type payload r =
      guard (str_eq event_type "ACTION_PROPOSED") >> on_proposed episode_id payload r
  on_phase Phase.at_selected episode_id event_type payload r =
      guard (str_eq event_type "ACTION_SELECTED") >> on_selected payload r
  on_phase Phase.at_label episode_id event_type payload r =
      guard (str_eq event_type "PATCH_GROUNDED_LABEL_RECORDED") >> on_label payload r
  on_phase Phase.proposed_or_close episode_id event_type payload r =
      if str_eq event_type "ACTION_PROPOSED"
      then on_proposed episode_id payload r
      else guard (str_eq event_type "EPISODE_CLOSED") >> on_closed payload r
  on_phase Phase.at_closed episode_id event_type payload r = none

  -- One round of the loop, at an index.
  unfoldable pub on_event : ℕ → EpisodeEvent → Replayer → Option Replayer
  on_event index event r = do
    guard (event.sequence == index)
    let episode_id = episode_of r.episode_id event
    guard (codes_eq event.episode_id episode_id)
    guard (same_previous event.previous_event_sha256 r.previous)
    wanted ←
        event_hash hashes event.sequence event.episode_id event.event_type event.payload r.previous
    guard (codes_eq event.event_sha256 wanted)
    guard (not r.is_closed)
    next ←
        on_phase r.phase episode_id event.event_type event.payload
          (record r { episode_id = some episode_id })
    some (record next { previous = some event.event_sha256 })

  unfoldable pub replay_from : ℕ → List EpisodeEvent → Replayer → Option Replayer
  replay_from index [] r = some r
  replay_from index (event ∷ events) r = on_event index event r >>= replay_from (suc index) events

  -- The last test, and the dictionary that is returned.
  unfoldable pub replay_end : Replayer → Option Replayed
  replay_end r = do
    guard (
        r.is_closed
        && not (length r.selected_actions == 0)
        && r.state_version == length transitions)
    some (record {
      episode_id = r.episode_id;
      selected_actions = r.selected_actions;
      steps = r.state_version;
    })

  -- `replay_events`, with both trusted arguments.
  unfoldable pub replay_events : Sizes → List EpisodeEvent → Text → Option Replayed
  replay_events sizes events expected = do
    guard (leb 1 (length events) && leb (length events) 256)
    guard (text_is (episode_commitment lib sizes transitions events) expected)
    guard (not (any (λ t. not (validate_compiled_transition lib t)) transitions))
    r ← replay_from 0 events initial
    replay_end r
