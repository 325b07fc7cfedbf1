-- ===== src/Egsi/Candidates/Canonical.antt =====
-- The steps that `canonicalize_policy_trace` makes, and the action base of a step's own operation.
use iclr.Base.{ℕ, String, ◌≡◌, refl, sym, ap, ◌∙◌, Bool, Option, none, some, List, ◌++◌}
use iclr.Base.Options.{Ensures, ensures_rules}
use iclr.Base.Texts.{codes, four_digits}
use iclr.Egsi.Candidates.Actions.{ActionBase, base_action, first_of_list}
use iclr.Egsi.Candidates.Profile.{Profile, profile_of, expected_evidence_type}
use iclr.Egsi.Candidates.Steps.{
  Text, TraceStep, CanonicalPolicyStep, Target, override_target, canonicalize_step,
}

-- An override applies once: a target that has it stays.
override_target_idem :
    (episode_id : Text) (override : Option (String × Option String)) (target : Target)
    → override_target episode_id override (override_target episode_id override target)
      ≡ override_target episode_id override target
override_target_idem episode_id none target = refl
override_target_idem episode_id (some (kind, id)) target = refl

abbrev pub target_of : CanonicalPolicyStep → Target
target_of step = record {
  kind = step.target_kind;
  id = step.target_id;
  location = step.target_location;
}

-- A step whose goal, tool, target and evidence are those of its operation in the episode.
pub record IsCanonical (episode_id : Text) (step : CanonicalPolicyStep) : Type 0 where
  pub profile : Profile
  pub known : profile_of step.operation ≡ some profile
  pub same_goal : step.goal ≡ profile.goal
  pub same_tool : step.tool_class ≡ profile.tool_class
  pub target : Target
  pub same_target : target_of step ≡ override_target episode_id profile.override target
  pub evidence :
      expected_evidence_type step.operation step.target_kind ≡ some step.expected_evidence_type

module _ (vulnerable_path_exists : Text → Bool) (episode_id : Text)
    (obligation_ids : List Text) where
  canonical :
      (index : ℕ) (raw : TraceStep) (p : Profile) (target : Target) (resolves : List Text)
      (evidence : String)
      → profile_of raw.operation ≡ some p
      → expected_evidence_type raw.operation (override_target episode_id p.override target).kind
        ≡ some evidence
      → IsCanonical episode_id (record {
        step_id = codes "S-" ++ four_digits index;
        goal = p.goal;
        operation = raw.operation;
        target_kind = (override_target episode_id p.override target).kind;
        target_id = (override_target episode_id p.override target).id;
        target_location = (override_target episode_id p.override target).location;
        resolves_unknowns = resolves;
        expected_evidence_type = evidence;
        tool_class = p.tool_class;
      })
  canonical index raw p target resolves evidence known expected = record {
    profile = p;
    known = known;
    same_goal = refl;
    same_tool = refl;
    target = target;
    same_target = refl;
    evidence = expected;
  }

  pub canonicalize_step-IsCanonical :
      (index : ℕ) (raw : TraceStep)
      → Ensures
          (IsCanonical episode_id)
          (canonicalize_step vulnerable_path_exists episode_id obligation_ids index raw)
  unfolding canonicalize_step
  canonicalize_step-IsCanonical index raw = search (ensures_rules, canonical) depth 14

-- The base of the action of a step's own operation.
abbrev pub own_base : Text → Text → Text → CanonicalPolicyStep → ActionBase
own_base case_id episode_id branch_id step = record {
  case_id = case_id;
  episode_id = episode_id;
  branch_id = branch_id;
  obligation_id = first_of_list step.resolves_unknowns;
  goal = step.goal;
  operation = step.operation;
  target = target_of step;
  resolves_unknowns = step.resolves_unknowns;
  expected_evidence_type = step.expected_evidence_type;
  tool_class = step.tool_class;
  step_id = step.step_id;
}

pub base_action-own_base :
    (case_id episode_id branch_id : Text) (step : CanonicalPolicyStep)
    → IsCanonical episode_id step
    → base_action case_id episode_id branch_id step step.operation
      ≡ some (own_base case_id episode_id branch_id step)
unfolding base_action
base_action-own_base case_id episode_id branch_id step c =
    let same : override_target episode_id c.profile.override (target_of step) ≡ target_of step =
      ap (override_target episode_id c.profile.override) c.same_target
      ∙ override_target_idem episode_id c.profile.override c.target
      ∙ sym c.same_target in
    rw (c.known, same, c.evidence, c.same_goal, c.same_tool)
