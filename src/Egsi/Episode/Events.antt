-- ===== src/Egsi/Episode/Events.antt =====
-- `EpisodeEvent` of src/egsi/contracts/trajectory.py, `make_event` and `event_hash` of
-- src/egsi/generation/trajectory.py, and the seed of src/egsi/generation/redaction.py. An entry that
-- the code requires to be one constant has no field.
use iclr.Base.{
  ℕ, String, Bool, true, false, not, ◌&&◌, ◌||◌, Option, none, some, List, [], ◌∷◌, ◌++◌, any,
  member, length, is_none, str_eq, leb, ◌==◌,
}
use iclr.Base.Options.{◌>>=◌, ◌>>◌, guard}
use iclr.Base.Texts.{codes, codes_eq, is_hex, utf8_length}
use iclr.Egsi.Candidates.Actions.{Action}
use iclr.Egsi.Candidates.Steps.{Text, is_bounded}
use iclr.Json.{Json}

abbrev pub label_scope : String
label_scope = "patch_grounded_bc"

-- The BOOTSTRAP seed and the redaction manifest.
pub record Seed : Type 0 where
  pub case_id : Text
  pub upstream_id : Text
  pub vulnerable_commit : Text

pub record Manifest : Type 0 where
  pub case_id : Text
  pub policy_sha256 : Text

-- A payload by its shape. The number of a label is what its entry equals, as Python compares numbers:
-- 0 for `0.0` and `False` too. `other` is an object of none of these shapes, or with an action that is
-- no dictionary of `_base_action`; no phase takes one, since the actions of a validated transition are
-- such dictionaries.
pub data Payload : Type 0 where
  started : Seed → Manifest → Payload
  hypothesis : String → String → Payload
  proposed : List Action → List Bool → Payload
  selected : Text → Payload
  label : ℕ → Text → String → Payload
  closed : String → String → Payload
  other : Json → Payload

pub record EpisodeEvent : Type 0 where
  pub sequence : ℕ
  pub episode_id : Text
  pub event_type : String
  pub payload : Payload
  pub previous_event_sha256 : Option Text
  pub event_sha256 : Text

abbrev pub event_types : List String
event_types =
    "EPISODE_STARTED" ∷ "HYPOTHESIS_CREATED" ∷ "ACTION_PROPOSED" ∷ "ACTION_SELECTED"
    ∷ "PATCH_GROUNDED_LABEL_RECORDED" ∷ "EPISODE_CLOSED" ∷ []

-- `^[0-9a-f]{n}$`
abbrev pub is_hex_of : ℕ → Text → Bool
is_hex_of n text = length text == n && not (any (λ c. not (is_hex c)) text)

-- `^sha256:[0-9a-f]{64}$`
abbrev pub is_sha256 : Text → Bool
is_sha256 (s ∷ h ∷ a ∷ d ∷ e ∷ f ∷ colon ∷ rest) =
    codes_eq (s ∷ h ∷ a ∷ d ∷ e ∷ f ∷ colon ∷ []) (codes "sha256:") && is_hex_of 64 rest
is_sha256 text = false

abbrev pub optional_sha256 : Option Text → Bool
optional_sha256 none = true
optional_sha256 (some text) = is_sha256 text

-- The fields of the contract, and `validate_event`; the payload is strict JSON by its digest.
unfoldable pub event_is_valid : EpisodeEvent → Bool
event_is_valid event =
    not (length event.episode_id == 0)
    && member event.event_type event_types
    && optional_sha256 event.previous_event_sha256
    && is_sha256 event.event_sha256
    && (event.sequence == 0 || not (is_none event.previous_event_sha256))
    && (not (event.sequence == 0) || is_none event.previous_event_sha256)

-- `_valid_emitted_text`
unfoldable pub valid_emitted_text : Text → Bool
valid_emitted_text value =
    not (length value == 0) && leb (length value) 512 && is_bounded 512 (utf8_length value)

-- `_seed_is_exact`
unfoldable pub seed_is_exact : Seed → Bool
seed_is_exact seed =
    valid_emitted_text seed.case_id
    && valid_emitted_text seed.upstream_id
    && valid_emitted_text seed.vulnerable_commit
    && is_hex_of 40 seed.vulnerable_commit

-- `_manifest_has_exact_shape`
abbrev pub manifest_has_exact_shape : Manifest → Bool
manifest_has_exact_shape manifest = length manifest.policy_sha256 == 71

-- SHA-256 over canonical JSON, which is `none` where the value is not strict JSON of bounded size.
pub record Hashes : Type 0 where
  -- `_digest` of the content of an event
  pub event_digest : ℕ → Text → String → Payload → Option Text → Option Text
  -- `sha` of a seed
  pub sha : Seed → Text

module _ (hashes : Hashes) where
  open hashes use {event_digest, sha}

  -- `event_hash`
  unfoldable pub event_hash : ℕ → Text → String → Payload → Option Text → Option Text
  event_hash sequence episode_id event_type payload previous = do
    guard (not (length episode_id == 0))
    guard (not (str_eq event_type ""))
    digest ← event_digest sequence episode_id event_type payload previous
    some (codes "sha256:" ++ digest)

  -- `make_event`; `none` is a ValueError.
  unfoldable pub make_event : ℕ → Text → String → Payload → Option Text → Option EpisodeEvent
  make_event sequence episode_id event_type payload previous = do
    hash ← event_hash sequence episode_id event_type payload previous
    let event : EpisodeEvent = record {
      sequence = sequence;
      episode_id = episode_id;
      event_type = event_type;
      payload = payload;
      previous_event_sha256 = previous;
      event_sha256 = hash;
    }
    guard (event_is_valid event)
    some event

  -- `_validate_started`; the keys of an exact seed and manifest are none of the forbidden ones.
  unfoldable pub validate_started : Seed → Manifest → Bool
  validate_started seed manifest =
      seed_is_exact seed
      && manifest_has_exact_shape manifest
      && codes_eq manifest.policy_sha256 (sha seed)
