-- ===== src/Egsi/Candidates/RoundTrip.antt =====
-- The canonical step that a selected action embeds is the step that was compiled.
use iclr.Base.{
  ℕ, ◌≡◌, refl, sym, Bool, true, not, ◌&&◌, Option, none, some, List, [], ◌∷◌, any, length, member,
  str_eq, eq_refl, arith, ◌==◌,
}
use mathlib.Core.Path.{subst}
use iclr.Base.Texts.{codes_eq}
use iclr.Egsi.Candidates.Actions.{
  Action, Library, make_action, signed, action_integrity, canonical_step_from_selected_action,
  selected_target_fits, option_eq, first_of_list,
}
use iclr.Egsi.Candidates.Profile.{Profile, profile_of, expected_evidence_type, target_kinds}
use iclr.Egsi.Candidates.Steps.{
  Text, TraceStep, CanonicalPolicyStep, canonicalize_step, validate_step, require_identifier,
  fits_profile, target_is_bound, is_identifier, type_is,
}
use iclr.Egsi.Candidates.Canonical.{
  IsCanonical, target_of, own_base, canonicalize_step-IsCanonical, base_action-own_base,
}

pub codes_eq_refl : (text : Text) → codes_eq text text ≡ true
codes_eq_refl [] = refl
codes_eq_refl (c ∷ text) = ground (arith, codes_eq_refl text)

pub option_eq_refl : (value : Option Text) → option_eq value value ≡ true
option_eq_refl none = refl
option_eq_refl (some text) = codes_eq_refl text

require_identifier-some :
    (value : Text) → require_identifier value ≡ true → not (length value == 0) ≡ true
unfolding require_identifier
require_identifier-some value h = ground arith

-- What `_validate_step` tests of what the reconstruction tests too.
validate_step-parts :
    (step : CanonicalPolicyStep)
    → validate_step step ≡ true
    → (require_identifier step.step_id ≡ true)
      × (is_identifier b'S' step.step_id ≡ true)
      × (not (any (λ item. not (is_identifier b'O' item)) step.resolves_unknowns) ≡ true)
      × (fits_profile step ≡ true)
unfolding validate_step
validate_step-parts step h = ground arith

last_of_five : (a b c d e : Bool) → (a && b && c && d && e) ≡ true → e ≡ true
last_of_five a b c d e h = ground arith

fits_profile-target :
    (step : CanonicalPolicyStep) (p : Profile)
    → profile_of step.operation ≡ some p
    → fits_profile step ≡ true
    → target_is_bound p step ≡ true
unfolding fits_profile
fits_profile-target step p known h =
    last_of_five (str_eq step.goal p.goal) (str_eq step.tool_class p.tool_class)
      (member step.target_kind target_kinds)
      (type_is (expected_evidence_type step.operation step.target_kind) step.expected_evidence_type)
      (target_is_bound p step) (rw (known, fits_profile) at h)

module _ (lib : Library) (case_id episode_id branch_id : Text) (step : CanonicalPolicyStep) where
  abbrev own_action : Action
  own_action = signed lib (own_base case_id episode_id branch_id step)

  own_action-integrity :
      validate_step step ≡ true
      → not (length case_id == 0) ≡ true
      → lib.is_legal own_action ≡ true
      → action_integrity lib own_action ≡ true
  unfolding action_integrity
  own_action-integrity valid named legal =
      let some_id = require_identifier-some step.step_id (validate_step-parts step valid).0 in
      rw (
        legal,
        named,
        some_id,
        codes_eq_refl own_action.action_id,
        codes_eq_refl own_action.idempotency_key,
      )

  own_action-target :
      (p : Profile)
      → target_is_bound p step ≡ true
      → selected_target_fits lib p step.step_id (target_of step) ≡ true
  unfolding selected_target_fits target_is_bound
  own_action-target p h = h

  -- The reconstruction of the step from the action that was selected for it.
  own_action-step :
      (c : IsCanonical episode_id step)
      → validate_step step ≡ true
      → not (length case_id == 0) ≡ true
      → lib.is_legal own_action ≡ true
      → canonical_step_from_selected_action lib own_action ≡ some step
  unfolding canonical_step_from_selected_action
  own_action-step c valid named legal =
      let (some_id, is_step, obligations, fits) = validate_step-parts step valid in
      let bound = own_action-target c.profile (fits_profile-target step c.profile c.known fits) in
      let goal : str_eq step.goal c.profile.goal ≡ true =
        rw (c.same_goal) (eq_refl c.profile.goal) in
      let tool : str_eq step.tool_class c.profile.tool_class ≡ true =
        rw (c.same_tool) (eq_refl c.profile.tool_class) in
      rw (
        own_action-integrity valid named legal,
        c.known,
        goal,
        tool,
        is_step,
        obligations,
        option_eq_refl (first_of_list step.resolves_unknowns),
        bound,
        valid,
      )

  own_action-make_action :
      (a : Action)
      → IsCanonical episode_id step
      → make_action lib case_id episode_id branch_id step step.operation ≡ some a
      → own_action ≡ a
  unfolding make_action
  own_action-make_action a c made =
      ground (arith, base_action-own_base case_id episode_id branch_id step c)

-- A step that `canonicalize_policy_trace` makes of a trace, and that validates, is what
-- `canonical_step_from_selected_action` reads back from the action that `make_action` makes for the
-- step's own operation, in any branch and for any case with a name, if the schema takes the action.
pub canonical_step_from_selected_action-make_action :
    (lib : Library) (vulnerable_path_exists : Text → Bool) (case_id episode_id branch_id : Text)
    (obligation_ids : List Text) (index : ℕ) (raw : TraceStep) (step : CanonicalPolicyStep)
    (a : Action)
    → canonicalize_step vulnerable_path_exists episode_id obligation_ids index raw ≡ some step
    → validate_step step ≡ true
    → not (length case_id == 0) ≡ true
    → make_action lib case_id episode_id branch_id step step.operation ≡ some a
    → lib.is_legal a ≡ true
    → canonical_step_from_selected_action lib a ≡ some step
canonical_step_from_selected_action-make_action lib vulnerable_path_exists case_id episode_id
      branch_id obligation_ids index raw step a canonicalized valid named made legal =
    let c =
      (canonicalize_step-IsCanonical vulnerable_path_exists episode_id obligation_ids index raw).at
        step canonicalized in
    let same = own_action-make_action lib case_id episode_id branch_id step a c made in
    subst (λ (x : Action). canonical_step_from_selected_action lib x ≡ some step) same
      (own_action-step lib case_id episode_id branch_id step c valid named
        (subst (λ (x : Action). lib.is_legal x ≡ true) (sym same) legal))
