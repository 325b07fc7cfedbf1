-- ===== src/Egsi/Episode/Transitions.antt =====
-- `T1Transition` of src/egsi/contracts/trajectory.py, and `_validate_compiled_transition`,
-- `_normalize_values` and `episode_commitment` of src/egsi/generation/trajectory.py. An entry that the
-- contract requires to be one constant has no field, and an action is a dictionary of `_base_action`.
use iclr.Base.{
  ℕ, suc, ◌+◌, Bool, true, false, not, ◌&&◌, Option, none, some, List, [], ◌∷◌, ◌++◌, map, any,
  length, leb, ◌==◌, if◌then◌else◌,
}
use iclr.Base.Options.{◌>>=◌, ◌>>◌, guard}
use iclr.Base.Texts.{codes, codes_eq, utf8_length}
use iclr.Egsi.Candidates.Actions.{
  Action, Library, texts_eq, option_eq, action_eq, action_integrity,
  canonical_step_from_selected_action,
}
use iclr.Egsi.Candidates.Compile.{compile_candidates, sum_mask}
use iclr.Egsi.Candidates.Steps.{Text, all_different, is_bounded}
use iclr.Egsi.Episode.Events.{EpisodeEvent, Seed, event_is_valid, is_hex_of}

-- An entry of the bounded history.
pub record HistoryItem : Type 0 where
  pub state_version : ℕ
  pub action_id : Text

-- `seed` and `state_number` are the entries of `state`, the latter under "state_version".
pub record T1Transition : Type 0 where
  pub episode_id : Text
  pub state_version : ℕ
  pub seed : Seed
  pub state_number : ℕ
  pub history : List HistoryItem
  pub candidate_actions : List Action
  pub legal_mask : List Bool
  pub selected_action : Action
  pub next_state_version : ℕ
  pub done : Bool

-- `^A-[0-9a-f]{24}$`
abbrev pub is_action_id : Text → Bool
is_action_id (a ∷ dash ∷ rest) = a == b'A' && dash == b'-' && is_hex_of 24 rest
is_action_id text = false

-- The loop over the history, from an index on.
unfoldable pub history_is_valid : ℕ → List HistoryItem → Bool
history_is_valid index [] = true
history_is_valid index (item ∷ items) =
    item.state_version == index && is_action_id item.action_id && history_is_valid (suc index) items

abbrev pub is_short : Text → Bool
is_short value = not (length value == 0) && is_bounded 512 (utf8_length value)

abbrev pub is_true : Option Bool → Bool
is_true none = false
is_true (some b) = b

-- `fingerprints.index(selected_fingerprint)`, and the mask there.
abbrev pub mask_at : Text → List Text → List Bool → Option Bool
mask_at print [] mask = none
mask_at print (p ∷ prints) [] = none
mask_at print (p ∷ prints) (b ∷ mask) =
    if codes_eq p print then some b else mask_at print prints mask

-- `validate_transition` and the fields of the contract.
unfoldable pub transition_is_valid : Library → T1Transition → Bool
transition_is_valid lib t =
    not (length t.episode_id == 0)
    && t.state_number == t.state_version
    && is_short t.seed.case_id
    && is_short t.seed.upstream_id
    && is_hex_of 40 t.seed.vulnerable_commit
    && length t.history == t.state_version
    && leb (length t.history) 64
    && history_is_valid 0 t.history
    && t.next_state_version == suc t.state_version
    && leb 1 (length t.candidate_actions)
    && leb (length t.candidate_actions) 64
    && length t.candidate_actions == length t.legal_mask
    && leb 4 (sum_mask t.legal_mask)
    && all_different (map lib.fingerprint t.candidate_actions)
    && is_true (
        mask_at (lib.fingerprint t.selected_action) (map lib.fingerprint t.candidate_actions)
          t.legal_mask)

abbrev pub masks_eq : List Bool → List Bool → Bool
masks_eq [] [] = true
masks_eq (true ∷ xs) (true ∷ ys) = masks_eq xs ys
masks_eq (false ∷ xs) (false ∷ ys) = masks_eq xs ys
masks_eq xs ys = false

abbrev pub actions_eq : List Action → List Action → Bool
actions_eq [] [] = true
actions_eq (x ∷ xs) (y ∷ ys) = action_eq x y && actions_eq xs ys
actions_eq xs ys = false

-- The length of the canonical JSON of a record, `none` where it is not strict JSON of bounded size,
-- and the digests that the commitment takes.
pub record Sizes : Type 0 where
  pub event_size : EpisodeEvent → Option ℕ
  pub transition_size : T1Transition → Option ℕ
  pub transition_digest : T1Transition → Text
  pub commitment_digest : Text → Text → List Text → Text

-- The loop of `_normalize_values`: sizes and contracts, from the total so far.
unfoldable pub values_fit {ℓ} : {A : Type ℓ} → (A → Option ℕ) → (A → Bool) → ℕ → List A → Bool
values_fit size is_valid total [] = true
values_fit size is_valid total (x ∷ xs) = elim (size x) [
  | none ↦ false
  | some n ↦
      leb (total + n + 1) 16777216 && is_valid x && values_fit size is_valid (total + n + 1) xs
]

-- `_normalize_values(..., validate_compiled=False)`
unfoldable pub normalize_values {ℓ} : {A : Type ℓ} → (A → Option ℕ) → (A → Bool) → List A → Bool
unfolding values_fit
normalize_values size is_valid values =
    leb 1 (length values) && leb (length values) 1024 && values_fit size is_valid 0 values

abbrev pub last_hash : EpisodeEvent → List EpisodeEvent → Text
last_hash event [] = event.event_sha256
last_hash event (next ∷ events) = last_hash next events

abbrev pub first_event : List EpisodeEvent → Option EpisodeEvent
first_event [] = none
first_event (event ∷ events) = some event

module _ (lib : Library) (sizes : Sizes) where
  open sizes use {event_size, transition_size, transition_digest, commitment_digest}

  -- `episode_commitment`; `none` is a ValueError.
  unfoldable pub episode_commitment : List T1Transition → List EpisodeEvent → Option Text
  episode_commitment transitions events = do
    guard (normalize_values transition_size (transition_is_valid lib) transitions)
    guard (normalize_values event_size event_is_valid events)
    first ← first_event events
    guard (not (any (λ event. not (codes_eq event.episode_id first.episode_id)) events))
    guard (not (any (λ t. not (codes_eq t.episode_id first.episode_id)) transitions))
    some (
        codes "sha256:"
        ++ commitment_digest first.episode_id (last_hash first events)
            (map transition_digest transitions))

module _ (lib : Library) (t : T1Transition) where
  -- The first block of the loop over the actions.
  abbrev pub is_bound : Action → Bool
  is_bound action =
      action_integrity lib action
      && codes_eq action.base.episode_id t.episode_id
      && codes_eq action.base.branch_id (codes "B-1")
      && codes_eq action.base.case_id t.seed.case_id

  -- The sets of step identifiers, unknowns and obligations have one element each.
  abbrev pub same_frontier : Action → Action → Bool
  same_frontier a b =
      codes_eq a.base.step_id b.base.step_id
      && texts_eq a.base.resolves_unknowns b.base.resolves_unknowns
      && option_eq a.base.obligation_id b.base.obligation_id

  abbrev pub one_frontier : List Action → Bool
  one_frontier [] = false
  one_frontier (a ∷ actions) = not (any (λ b. not (same_frontier a b)) actions)

  -- `_validate_compiled_transition`
  unfoldable pub validate_compiled_transition : Bool
  validate_compiled_transition =
      not (any (λ action. not (is_bound action)) t.candidate_actions)
      && one_frontier t.candidate_actions
      && masks_eq (map lib.is_legal t.candidate_actions) t.legal_mask
      && any (action_eq t.selected_action) t.candidate_actions
      && action_integrity lib t.selected_action
      && codes_eq t.selected_action.base.branch_id (codes "B-1")
      && leb 4 (sum_mask t.legal_mask)
      && elim (canonical_step_from_selected_action lib t.selected_action) [
        | none ↦ false
        | some step ↦
            elim (compile_candidates lib t.seed.case_id t.episode_id
              t.selected_action.base.branch_id step) [
                | none ↦ false
                | some c ↦
                    actions_eq c.actions t.candidate_actions
                    && masks_eq c.legal_mask t.legal_mask
                    && action_eq c.selected t.selected_action
              ]
      ]
