-- ===== src/Egsi/Candidates/Actions.antt =====
-- The actions of src/egsi/generation/candidates.py. An `ActionBase` is the dictionary of
-- `_base_action` without the entries that are the same in every action.
use iclr.Base.{
  String, Bool, true, false, not, ◌&&◌, Option, none, some, List, [], ◌∷◌, ◌++◌, any, length,
  is_none, str_eq, ◌==◌, if◌then◌else◌,
}
use iclr.Base.Options.{◌>>=◌, ◌>>◌, guard}
use iclr.Base.Texts.{codes, codes_eq, take}
use iclr.Egsi.Candidates.Profile.{Profile, profile_of, expected_evidence_type}
use iclr.Egsi.Candidates.Steps.{
  Text, CanonicalPolicyStep, Target, override_target, is_identifier, validate_step, numbered,
  ordinal_of, matches_override, text_is,
}
use iclr.Egsi.RepositoryPaths.{canonical_repo_blob_path}

pub record ActionBase : Type 0 where
  pub case_id : Text
  pub episode_id : Text
  pub branch_id : Text
  pub obligation_id : Option Text
  pub goal : String
  pub operation : String
  pub target : Target
  pub resolves_unknowns : List Text
  pub expected_evidence_type : String
  pub tool_class : String
  pub step_id : Text

pub record Action : Type 0 where
  pub base : ActionBase
  pub action_id : Text
  pub idempotency_key : Text

-- The code beneath: SHA-256 over canonical JSON, in hexadecimal, and the schema of the Action DSL.
pub record Library : Type 0 where
  -- `_digest` of a base
  pub digest : ActionBase → Text
  -- `_ordering_key`
  pub ordering_key : ActionBase → Text
  -- `_canonical_json_bytes` of an action
  pub fingerprint : Action → Text
  -- `not any(validator.iter_errors(action))`
  pub is_legal : Action → Bool

abbrev pub first_of_list : List Text → Option Text
first_of_list [] = none
first_of_list (x ∷ xs) = some x

-- `_base_action`; `none` is a KeyError.
unfoldable pub base_action : Text → Text → Text → CanonicalPolicyStep → String → Option ActionBase
base_action case_id episode_id branch_id step operation = do
  p ← profile_of operation
  let target =
      override_target episode_id p.override
        (record { kind = step.target_kind; id = step.target_id; location = step.target_location })
  evidence ← expected_evidence_type operation target.kind
  some (record {
    case_id = case_id;
    episode_id = episode_id;
    branch_id = branch_id;
    obligation_id = first_of_list step.resolves_unknowns;
    goal = p.goal;
    operation = operation;
    target = target;
    resolves_unknowns = step.resolves_unknowns;
    expected_evidence_type = evidence;
    tool_class = p.tool_class;
    step_id = step.step_id;
  })

abbrev pub texts_eq : List Text → List Text → Bool
texts_eq [] [] = true
texts_eq (x ∷ xs) (y ∷ ys) = codes_eq x y && texts_eq xs ys
texts_eq xs ys = false

abbrev pub option_eq : Option Text → Option Text → Bool
option_eq none none = true
option_eq (some x) (some y) = codes_eq x y
option_eq x y = false

-- `==` on bases and on actions.
unfoldable pub base_eq : ActionBase → ActionBase → Bool
base_eq a b =
    codes_eq a.case_id b.case_id
    && codes_eq a.episode_id b.episode_id
    && codes_eq a.branch_id b.branch_id
    && option_eq a.obligation_id b.obligation_id
    && str_eq a.goal b.goal
    && str_eq a.operation b.operation
    && str_eq a.target.kind b.target.kind
    && codes_eq a.target.id b.target.id
    && option_eq a.target.location b.target.location
    && texts_eq a.resolves_unknowns b.resolves_unknowns
    && str_eq a.expected_evidence_type b.expected_evidence_type
    && str_eq a.tool_class b.tool_class
    && codes_eq a.step_id b.step_id

unfoldable pub action_eq : Action → Action → Bool
unfolding base_eq
action_eq a b =
    base_eq a.base b.base
    && codes_eq a.action_id b.action_id
    && codes_eq a.idempotency_key b.idempotency_key

-- The compiler's input that a base embeds.
abbrev pub step_of : ActionBase → CanonicalPolicyStep
step_of base = record {
  step_id = base.step_id;
  goal = base.goal;
  operation = base.operation;
  target_kind = base.target.kind;
  target_id = base.target.id;
  target_location = base.target.location;
  resolves_unknowns = base.resolves_unknowns;
  expected_evidence_type = base.expected_evidence_type;
  tool_class = base.tool_class;
}

module _ (lib : Library) where
  open lib use {digest, is_legal}

  -- The action with the identity of its content.
  abbrev pub signed : ActionBase → Action
  signed base = record {
    base = base;
    action_id = codes "A-" ++ take 24 (digest base);
    idempotency_key = codes "sha256:" ++ digest base;
  }

  -- `make_action`
  unfoldable pub make_action : Text → Text → Text → CanonicalPolicyStep → String → Option Action
  make_action case_id episode_id branch_id step operation =
      base_action case_id episode_id branch_id step operation >>= λ base. some (signed base)

  -- `validate_action_identity`, on an action that has the entries of `_base_action`.
  unfoldable pub action_integrity : Action → Bool
  action_integrity action =
      is_legal action
      && not (length action.base.case_id == 0)
      && not (length action.base.step_id == 0)
      && codes_eq action.action_id (codes "A-" ++ take 24 (digest action.base))
      && codes_eq action.idempotency_key (codes "sha256:" ++ digest action.base)

  -- The tests of `canonical_step_from_selected_action` on the target.
  unfoldable pub selected_target_fits : Profile → Text → Target → Bool
  selected_target_fits p step_id target =
      if str_eq target.kind "path"
      then text_is (canonical_repo_blob_path target.id) target.id
        && text_is target.location target.id
      else is_none target.location && elim p.override [
        | none ↦ codes_eq target.id (numbered target.kind (ordinal_of step_id))
        | some (kind, id) ↦ str_eq target.kind kind && matches_override id target.id
      ]

  -- `canonical_step_from_selected_action`
  unfoldable pub canonical_step_from_selected_action : Action → Option CanonicalPolicyStep
  canonical_step_from_selected_action action = do
    guard (action_integrity action)
    let base = action.base
    p ← profile_of base.operation
    guard (str_eq base.goal p.goal && str_eq base.tool_class p.tool_class)
    guard (is_identifier b'S' base.step_id)
    guard (not (any (λ value. not (is_identifier b'O' value)) base.resolves_unknowns))
    guard (option_eq base.obligation_id (first_of_list base.resolves_unknowns))
    guard (selected_target_fits p base.step_id base.target)
    guard (validate_step (step_of base))
    some (step_of base)
