-- ===== src/Egsi/Episode/Validated.antt =====
-- A transition of a compiled step passes `_validate_compiled_transition`.
use mathlib.Core.Path.{subst}
use mathlib.Core.Option.{some-injective}
use iclr.Base.{
  ◌≡◌, sym, ◌∙◌, ap, inl, inr, true, false, not, some, List, [], ◌∷◌, map, any, All, All-map,
  length, leb, Bool-cases, String,
}
use iclr.Base.Options.{>>=-eq-some}
use iclr.Base.Texts.{codes, codes_eq, text_le}
use iclr.Egsi.Candidates.Actions.{
  Action, Library, action_eq, make_action, first_of_list, canonical_step_from_selected_action,
}
use iclr.Egsi.Candidates.Compile.{
  Compiled, compile_candidates, make_actions, operations_of, head_action, insert_action,
  sort_actions, sum_mask,
}
use iclr.Egsi.Candidates.Frontier.{IsCandidate, compiled_parts, make_actions-IsCandidate}
use iclr.Egsi.Candidates.RoundTrip.{codes_eq_refl, option_eq_refl}
use iclr.Egsi.Candidates.Steps.{Text, CanonicalPolicyStep}
use iclr.Egsi.Episode.Candidates.{
  texts_eq_refl, action_eq_refl, actions_eq_refl, masks_eq_refl, any-not-false, mask_of-any,
  legal_of, IsCandidate-action_integrity,
}
use iclr.Egsi.Episode.Round.{IsSound, transition_is_valid-sizes}
use iclr.Egsi.Episode.Transitions.{
  T1Transition, actions_eq, masks_eq, is_bound, same_frontier, one_frontier,
  validate_compiled_transition,
}

module _ (lib : Library) (P : Action → Type 0) where
  insert_action-All_back :
      (a : Action) (actions : List Action)
      → All P (insert_action lib a actions)
      → P a × All P actions
  unfolding insert_action
  insert_action-All_back a [] h = (h.0, tt)
  insert_action-All_back a (b ∷ actions) h =
      elim (Bool-cases (text_le (lib.ordering_key a.base) (lib.ordering_key b.base))) [
        | inl first ↦ rw first at h
        | inr after ↦
            let h' : P b × All P (insert_action lib a actions) = rw after at h in
            let (pa, rest) = insert_action-All_back a actions h'.1 in (pa, (h'.0, rest))
      ]

  sort_actions-All_back : (actions : List Action) → All P (sort_actions lib actions) → All P actions
  unfolding sort_actions
  sort_actions-All_back [] h = tt
  sort_actions-All_back (a ∷ actions) h =
      let (pa, rest) = insert_action-All_back a (sort_actions lib actions) h in
      (pa, sort_actions-All_back actions rest)

head_action-All :
    (P : Action → Type 0) (actions : List Action) (a : Action)
    → head_action actions ≡ some a
    → All P actions
    → P a
head_action-All P [] a h all = cc
head_action-All P (b ∷ actions) a h all = subst P (some-injective b a h) (all.0)

make_actions-head :
    (lib : Library) (case_id episode_id branch_id : Text) (step : CanonicalPolicyStep)
    (operation : String) (operations : List String) (actions : List Action) (a : Action)
    → make_actions lib case_id episode_id branch_id step (operation ∷ operations) ≡ some actions
    → head_action actions ≡ some a
    → make_action lib case_id episode_id branch_id step operation ≡ some a
unfolding make_actions
make_actions-head lib case_id episode_id branch_id step operation operations actions a h first =
    let (b, e, h1) =
      >>=-eq-some (make_action lib case_id episode_id branch_id step operation) _ h in
    let (rest, e', h2) =
      >>=-eq-some (make_actions lib case_id episode_id branch_id step operations) _ h1 in
    e ∙ ap head_action (some-injective (b ∷ rest) actions h2) ∙ first

module _ (lib : Library) (case_id episode_id branch_id : Text) (step : CanonicalPolicyStep)
    (c : Compiled)
    (compiled : compile_candidates lib case_id episode_id branch_id step ≡ some c) where
  -- The selected action is the candidate of the step's own operation.
  pub selected-make_action :
      make_action lib case_id episode_id branch_id step step.operation ≡ some c.selected
  unfolding operations_of
  selected-make_action =
      let (actions, chosen, valid, made, first, checked, same) =
        compiled_parts lib case_id episode_id branch_id step c compiled in
      make_actions-head lib case_id episode_id branch_id step step.operation _ actions chosen made
        first
      ∙ ap (λ (x : Compiled). some x.selected) (sym same)

  selected-IsCandidate : IsCandidate lib case_id episode_id branch_id step c.selected
  selected-IsCandidate =
      let (actions, chosen, valid, made, first, checked, same) =
        compiled_parts lib case_id episode_id branch_id step c compiled in
      subst (IsCandidate lib case_id episode_id branch_id step)
        (ap (λ (x : Compiled). x.selected) (sym same))
        (head_action-All (IsCandidate lib case_id episode_id branch_id step) actions chosen first (
          make_actions-IsCandidate lib case_id episode_id branch_id step
            (operations_of step.operation) actions made))

  pub selected_legal : All (λ a. lib.is_legal a ≡ true) c.actions → lib.is_legal c.selected ≡ true
  selected_legal legal =
      let (actions, chosen, valid, made, first, checked, same) =
        compiled_parts lib case_id episode_id branch_id step c compiled in
      let sorted : All (λ a. lib.is_legal a ≡ true) (sort_actions lib actions) =
        subst (λ (x : Compiled). All (λ a. lib.is_legal a ≡ true) x.actions) same legal in
      ap (λ (x : Compiled). lib.is_legal x.selected) same
      ∙ head_action-All (λ a. lib.is_legal a ≡ true) actions chosen first
          (sort_actions-All_back lib (λ a. lib.is_legal a ≡ true) actions sorted)

module _ (lib : Library) (step : CanonicalPolicyStep) (c : Compiled) (t : T1Transition)
    (s : IsSound lib step c t) where
  is_bound-candidate :
      (a : Action)
      → IsCandidate lib t.seed.case_id t.episode_id (codes "B-1") step a × (lib.is_legal a ≡ true)
      → is_bound lib t a ≡ true
  is_bound-candidate a (h, legal) = rw (
    IsCandidate-action_integrity lib t.seed.case_id t.episode_id (codes "B-1") step s.named
        s.numbered a h legal,
    h.same_episode,
    codes_eq_refl t.episode_id,
    h.same_branch,
    h.same_case,
    codes_eq_refl t.seed.case_id,
  )

  same_frontier-candidates :
      (a b : Action)
      → IsCandidate lib t.seed.case_id t.episode_id (codes "B-1") step a
      → IsCandidate lib t.seed.case_id t.episode_id (codes "B-1") step b
      → same_frontier lib t a b ≡ true
  same_frontier-candidates a b ha hb = rw (
    ha.same_step,
    hb.same_step,
    codes_eq_refl step.step_id,
    ha.same_unknowns,
    hb.same_unknowns,
    texts_eq_refl step.resolves_unknowns,
    ha.first_obligation,
    hb.first_obligation,
    option_eq_refl (first_of_list step.resolves_unknowns),
  )

  one_frontier-candidates :
      (actions : List Action)
      → leb 1 (length actions) ≡ true
      → All (IsCandidate lib t.seed.case_id t.episode_id (codes "B-1") step) actions
      → one_frontier lib t actions ≡ true
  one_frontier-candidates [] h all = cc
  one_frontier-candidates (a ∷ actions) h all = ap not (
      any-not-false (same_frontier lib t a) actions (
        All-map (IsCandidate lib t.seed.case_id t.episode_id (codes "B-1") step)
          (λ b. same_frontier lib t a b ≡ true) actions
          (λ b hb. same_frontier-candidates a b all.0 hb) all.1))

  legal_candidates : All (λ a. lib.is_legal a ≡ true) c.actions
  legal_candidates =
      legal_of lib.is_legal c.actions c.legal_mask s.compiled.mask
        (rw (← s.same_mask) (s.all_legal))

  all_bound : any (λ a. not (is_bound lib t a)) c.actions ≡ false
  all_bound =
      any-not-false (is_bound lib t) c.actions
        (bound_each c.actions s.compiled.candidates legal_candidates)
    where
      bound_each :
          (actions : List Action)
          → All (IsCandidate lib t.seed.case_id t.episode_id (codes "B-1") step) actions
          → All (λ a. lib.is_legal a ≡ true) actions
          → All (λ a. is_bound lib t a ≡ true) actions
      bound_each [] h l = tt
      bound_each (a ∷ actions) h l = (is_bound-candidate a (h.0, l.0), bound_each actions h.1 l.1)

  -- Everything that `_validate_compiled_transition` tests holds of the compiler's transition.
  pub validate_compiled_transition_sound :
      compile_candidates lib t.seed.case_id t.episode_id (codes "B-1") step ≡ some c
      → canonical_step_from_selected_action lib c.selected ≡ some step
      → validate_compiled_transition lib t ≡ true
  unfolding validate_compiled_transition
  validate_compiled_transition_sound compiled reads =
      let (some_action, few, same_length, enough) = transition_is_valid-sizes lib t s.valid in
      let chosen =
        selected-IsCandidate lib t.seed.case_id t.episode_id (codes "B-1") step c compiled in
      let chosen_legal =
        selected_legal lib t.seed.case_id t.episode_id (codes "B-1") step c compiled
          legal_candidates in
      let integrity =
        IsCandidate-action_integrity lib t.seed.case_id t.episode_id (codes "B-1") step s.named
          s.numbered c.selected chosen chosen_legal in
      let frontier =
        one_frontier-candidates c.actions (rw (← s.same_actions) some_action)
          s.compiled.candidates in
      let masks : masks_eq (map lib.is_legal c.actions) c.legal_mask ≡ true =
        rw (← s.compiled.mask) (masks_eq_refl c.legal_mask) in
      let listed =
        mask_of-any (action_eq c.selected) c.actions c.legal_mask true s.compiled.selected_legal in
      let many : leb 4 (sum_mask c.legal_mask) ≡ true = rw (← s.same_mask) enough in
      let branch : codes_eq c.selected.base.branch_id (codes "B-1") ≡ true =
        ap (λ b. codes_eq b (codes "B-1")) chosen.same_branch in
      let again =
        ap
          (λ (a : Action). compile_candidates lib t.seed.case_id t.episode_id a.base.branch_id step)
          s.same_choice
        ∙ ap (λ b. compile_candidates lib t.seed.case_id t.episode_id b step) chosen.same_branch
        ∙ compiled in
      let actions_same : actions_eq c.actions t.candidate_actions ≡ true =
        ap (actions_eq c.actions) s.same_actions ∙ actions_eq_refl c.actions in
      let masks_same : masks_eq c.legal_mask t.legal_mask ≡ true =
        ap (masks_eq c.legal_mask) s.same_mask ∙ masks_eq_refl c.legal_mask in
      let choice_same : action_eq c.selected t.selected_action ≡ true =
        ap (action_eq c.selected) s.same_choice ∙ action_eq_refl c.selected in
      rw (
        s.same_actions, s.same_mask, s.same_choice, all_bound, frontier, masks, listed, integrity,
        branch, many, reads, again, actions_same, masks_same, choice_same,
      )
