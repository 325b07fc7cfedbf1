-- ===== src/Egsi/Candidates/Compile.antt =====
-- `compile_candidates` of src/egsi/generation/candidates.py.
use iclr.Base.{
  ℕ, suc, String, Bool, true, false, not, ◌&&◌, Option, none, some, List, [], ◌∷◌, map, select,
  str_eq, leb, if◌then◌else◌,
}
use iclr.Base.Options.{◌>>=◌, ◌>>◌, guard}
use iclr.Base.Texts.{text_le}
use iclr.Egsi.Candidates.Actions.{Action, Library, make_action, action_eq}
use iclr.Egsi.Candidates.Profile.{alternatives}
use iclr.Egsi.Candidates.Steps.{
  Text, CanonicalPolicyStep, all_different, validate_step, require_identifier,
}

-- `(step.operation,) + tuple(operation for operation in ALTERNATIVES if operation != step.operation)`
unfoldable pub operations_of : String → List String
operations_of operation = operation ∷ select (λ other. not (str_eq other operation)) alternatives

-- The number of legal actions.
abbrev pub sum_mask : List Bool → ℕ
sum_mask [] = 0
sum_mask (true ∷ mask) = suc (sum_mask mask)
sum_mask (false ∷ mask) = sum_mask mask

-- `legal_mask[actions.index(selected)]`; without the action, a ValueError.
abbrev pub mask_of : (Action → Bool) → List Action → List Bool → Option Bool
mask_of is_it [] mask = none
mask_of is_it (a ∷ actions) [] = none
mask_of is_it (a ∷ actions) (b ∷ mask) = if is_it a then some b else mask_of is_it actions mask

pub record Compiled : Type 0 where
  pub actions : List Action
  pub legal_mask : List Bool
  pub selected : Action

-- `actions[0]`
abbrev pub head_action : List Action → Option Action
head_action [] = none
head_action (a ∷ actions) = some a

module _ (lib : Library) where
  open lib use {digest, ordering_key, fingerprint, is_legal}

  -- `actions.sort(key=...)`, a stable sort.
  unfoldable pub insert_action : Action → List Action → List Action
  insert_action a [] = a ∷ []
  insert_action a (b ∷ bs) =
      if text_le (ordering_key a.base) (ordering_key b.base)
      then a ∷ b ∷ bs
      else b ∷ insert_action a bs

  unfoldable pub sort_actions : List Action → List Action
  unfolding insert_action
  sort_actions [] = []
  sort_actions (a ∷ actions) = insert_action a (sort_actions actions)

  -- `[make_action(...) for operation in operations]`
  unfoldable pub make_actions :
      Text → Text → Text → CanonicalPolicyStep → List String → Option (List Action)
  make_actions case_id episode_id branch_id step [] = some []
  make_actions case_id episode_id branch_id step (operation ∷ operations) =
      make_action lib case_id episode_id branch_id step operation >>= λ action.
      make_actions case_id episode_id branch_id step operations >>= λ rest. some (action ∷ rest)

  -- The tests after the sort.
  unfoldable pub check_compiled : Compiled → Bool
  check_compiled c =
      elim (mask_of (action_eq c.selected) c.actions c.legal_mask) [ none ↦ false | some b ↦ b ]
      && leb 4 (sum_mask c.legal_mask)
      && all_different (map fingerprint c.actions)
      && all_different (map (λ a. a.action_id) c.actions)
      && all_different (map (λ a. a.idempotency_key) c.actions)

  abbrev pub compiled_of : List Action → Action → Compiled
  compiled_of actions selected = record {
    actions = sort_actions actions;
    legal_mask = map is_legal (sort_actions actions);
    selected = selected;
  }

  -- `compile_candidates`; `none` is a ValueError. There are fewer than 64 operations.
  unfoldable pub compile_candidates : Text → Text → Text → CanonicalPolicyStep → Option Compiled
  compile_candidates case_id episode_id branch_id step = do
    guard (require_identifier case_id)
    guard (require_identifier episode_id)
    guard (require_identifier branch_id)
    guard (validate_step step)
    actions ← make_actions case_id episode_id branch_id step (operations_of step.operation)
    selected ← head_action actions
    guard (check_compiled (compiled_of actions selected))
    some (compiled_of actions selected)
