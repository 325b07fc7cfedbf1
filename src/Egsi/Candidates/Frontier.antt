-- ===== src/Egsi/Candidates/Frontier.antt =====
-- What `compile_candidates` returns: every operation once, the selected action legal, and nothing
-- beside the operation, its profile and its target that tells the candidates apart.
use iclr.Base.{
  ◌≤◌, String, ◌≡◌, refl, sym, inl, inr, true, some, List, [], ◌∷◌, map, member, arith, All,
  Bool-cases, Option-cases,
}
use mathlib.Core.List.{Perm}
use mathlib.Core.Path.{subst}
use iclr.Base.Texts.{text_le}
use iclr.Egsi.Candidates.Actions.{
  Action, Library, base_action, make_action, signed, first_of_list, action_eq,
}
use iclr.Egsi.Candidates.Choices.{sort_actions-operations, operation_of}
use iclr.Egsi.Candidates.Compile.{
  operations_of, insert_action, sort_actions, make_actions, Compiled, compiled_of, check_compiled,
  head_action, compile_candidates, sum_mask, mask_of,
}
use iclr.Egsi.Candidates.Profile.{Profile, profile_of, lookup, operation_profile, alternatives}
use iclr.Egsi.Candidates.Steps.{
  Text, CanonicalPolicyStep, validate_step, fits_profile, all_different,
}

lookup-member :
    {A : Type 0} (k : String) (table : List (String × A)) (a : A)
    → lookup k table ≡ some a
    → member k (map (λ (e : String × A). e.0) table) ≡ true
lookup-member k [] a h = cc
lookup-member k ((j, b) ∷ table) a h = ground (arith, lookup-member k table a)

profile_of-member :
    (operation : String) (p : Profile)
    → profile_of operation ≡ some p
    → member operation alternatives ≡ true
unfolding profile_of alternatives
profile_of-member operation p h = lookup-member operation operation_profile p h

-- A step that validates has an operation of the vocabulary.
pub validate_step-profile :
    (step : CanonicalPolicyStep)
    → validate_step step ≡ true
    → (p : Profile) × (profile_of step.operation ≡ some p)
unfolding validate_step fits_profile
validate_step-profile step h = elim (Option-cases (profile_of step.operation)) [
  | inl e ↦ absurd (ground (arith, e))
  | inr (p, e) ↦ (p, e)
]

module _ (lib : Library) (case_id episode_id branch_id : Text) (step : CanonicalPolicyStep) where
  -- The action states the step's obligations and its own content's identity.
  pub record IsCandidate (a : Action) : Type 0 where
    pub same_case : a.base.case_id ≡ case_id
    pub same_episode : a.base.episode_id ≡ episode_id
    pub same_branch : a.base.branch_id ≡ branch_id
    pub same_step : a.base.step_id ≡ step.step_id
    pub same_unknowns : a.base.resolves_unknowns ≡ step.resolves_unknowns
    pub first_obligation : a.base.obligation_id ≡ first_of_list step.resolves_unknowns
    pub same_identity : a ≡ signed lib a.base

  make_action-IsCandidate :
      (operation : String) (a : Action)
      → make_action lib case_id episode_id branch_id step operation ≡ some a
      → IsCandidate a
  unfolding make_action base_action
  make_action-IsCandidate operation a h = ground arith

  pub make_actions-IsCandidate :
      (operations : List String) (actions : List Action)
      → make_actions lib case_id episode_id branch_id step operations ≡ some actions
      → All IsCandidate actions
  unfolding make_actions
  make_actions-IsCandidate [] actions h =
      let e : [] ≡ actions = ground arith in subst (All IsCandidate) e tt
  make_actions-IsCandidate (operation ∷ operations) actions h =
      elim (Option-cases (make_action lib case_id episode_id branch_id step operation)) [
        | inl e ↦ absurd (ground (arith, e))
        | inr (a, e) ↦
            elim (Option-cases (make_actions lib case_id episode_id branch_id step operations)) [
              | inl e' ↦ absurd (ground (arith, e, e'))
              | inr (rest, e') ↦
                  let same : (a ∷ rest) ≡ actions = ground (arith, e, e') in
                  subst (All IsCandidate) same (
                    make_action-IsCandidate operation a e,
                    make_actions-IsCandidate operations rest e',
                  )
            ]
      ]

  insert_action-All :
      (P : Action → Type 0) (a : Action) (actions : List Action)
      → P a
      → All P actions
      → All P (insert_action lib a actions)
  unfolding insert_action
  insert_action-All P a [] pa h = (pa, tt)
  insert_action-All P a (b ∷ actions) pa h =
      elim (Bool-cases (text_le (lib.ordering_key a.base) (lib.ordering_key b.base))) [
        | inl first ↦ rw first (pa, h)
        | inr after ↦ rw after (h.0, insert_action-All P a actions pa h.1)
      ]

  sort_actions-All :
      (P : Action → Type 0) (actions : List Action)
      → All P actions
      → All P (sort_actions lib actions)
  unfolding sort_actions
  sort_actions-All P [] h = tt
  sort_actions-All P (a ∷ actions) h =
      insert_action-All P a (sort_actions lib actions) h.0 (sort_actions-All P actions h.1)

  -- What a compiled candidate set satisfies.
  pub record IsCompiled (c : Compiled) : Type 0 where
    pub complete : Perm (map operation_of c.actions) alternatives
    pub candidates : All IsCandidate c.actions
    pub mask : c.legal_mask ≡ map lib.is_legal c.actions
    pub selected_operation : c.selected.base.operation ≡ step.operation
    pub selected_legal : mask_of (action_eq c.selected) c.actions c.legal_mask ≡ some true
    pub enough : 4 ≤ sum_mask c.legal_mask
    pub distinct :
        (all_different (map lib.fingerprint c.actions) ≡ true)
        × (all_different (map (λ a. a.action_id) c.actions) ≡ true)
        × (all_different (map (λ a. a.idempotency_key) c.actions) ≡ true)

  pub compiled_parts :
      (c : Compiled)
      → compile_candidates lib case_id episode_id branch_id step ≡ some c
      → (actions : List Action) × (selected : Action) × (validate_step step ≡ true)
        × (make_actions lib case_id episode_id branch_id step (operations_of step.operation)
            ≡ some actions)
        × (head_action actions ≡ some selected)
        × (check_compiled lib (compiled_of lib actions selected) ≡ true)
        × (c ≡ compiled_of lib actions selected)
  unfolding compile_candidates
  compiled_parts c h =
      elim (Option-cases
        (make_actions lib case_id episode_id branch_id step (operations_of step.operation))) [
          | inl e ↦ absurd (ground (arith, e))
          | inr (actions, e) ↦ elim (Option-cases (head_action actions)) [
            | inl e' ↦ absurd (ground (arith, e, e'))
            | inr (selected, e') ↦ (
              actions,
              selected,
              ground (arith, e, e'),
              e,
              e',
              ground (arith, e, e'),
              ground (arith, e, e'),
            )
          ]
        ]

  -- The selected action is the one of the step's own operation.
  selected_of :
      (actions : List Action) (selected : Action)
      → make_actions lib case_id episode_id branch_id step (operations_of step.operation)
        ≡ some actions
      → head_action actions ≡ some selected
      → selected.base.operation ≡ step.operation
  unfolding operations_of make_actions make_action base_action
  selected_of actions selected h s = ground arith

  -- When `compile_candidates` returns, the actions carry every operation of the vocabulary exactly
  -- once, each built from the step and signed with its own content's identity, the mask is the
  -- schema's verdict on each, the selected action is the step's operation and is legal at its place,
  -- at least four actions are legal, and fingerprints, identifiers and keys are all different.
  pub compile_candidates-IsCompiled :
      (c : Compiled)
      → compile_candidates lib case_id episode_id branch_id step ≡ some c
      → IsCompiled c
  unfolding check_compiled
  compile_candidates-IsCompiled c h =
      let (actions, selected, valid, made, first, checked, same) = compiled_parts c h in
      let (p, known) = validate_step-profile step valid in
      let good : IsCompiled (compiled_of lib actions selected) = record {
        complete =
            sort_actions-operations lib case_id episode_id branch_id step actions
              (profile_of-member step.operation p known) made;
        candidates =
            sort_actions-All IsCandidate actions
              (make_actions-IsCandidate (operations_of step.operation) actions made);
        mask = refl;
        selected_operation = selected_of actions selected made first;
        selected_legal = ground arith;
        enough = ground arith;
        distinct = ground arith;
      } in
      subst IsCompiled (sym same) good
