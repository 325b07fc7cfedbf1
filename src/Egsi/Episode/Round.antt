-- ===== src/Egsi/Episode/Round.antt =====
-- The three events of one compiled step pass the tests of their phases.
use iclr.Base.{
  ℕ, suc, ◌≡◌, ap, true, false, not, none, some, List, [], ◌∷◌, ◌++◌, map, any, All, All-map,
  length, leb, ◌==◌, arith,
}
use iclr.Base.Texts.{codes, codes_eq}
use iclr.Egsi.Candidates.Actions.{Action, Library, action_eq, action_integrity}
use iclr.Egsi.Candidates.Compile.{Compiled, sum_mask}
use iclr.Egsi.Candidates.Frontier.{IsCandidate, IsCompiled}
use iclr.Egsi.Candidates.RoundTrip.{codes_eq_refl}
use iclr.Egsi.Candidates.Steps.{CanonicalPolicyStep, text_member}
use iclr.Egsi.Episode.Candidates.{
  actions_eq_refl, masks_eq_refl, any-not-false, mask_of-any, legal_of, matches-is_one_legal,
  IsCandidate-action_integrity,
}
use iclr.Egsi.Episode.Compile.{has_identifier}
use iclr.Egsi.Episode.Events.{proposed, selected, label, Hashes, label_scope}
use iclr.Egsi.Episode.Replay.{
  Replayer, Phase, nth, last, same_bool, is_label, matches, is_one_legal, validate_actions,
  on_proposed, on_selected, on_label,
}
use iclr.Egsi.Episode.Transitions.{T1Transition, transition_is_valid, actions_eq, masks_eq}

eq_self : (n : ℕ) → (n == n) ≡ true
eq_self n = ground arith

-- What the contract of a transition says of its candidates.
pub transition_is_valid-sizes :
    (lib : Library) (t : T1Transition)
    → transition_is_valid lib t ≡ true
    → (leb 1 (length t.candidate_actions) ≡ true)
      × (leb (length t.candidate_actions) 64 ≡ true)
      × ((length t.candidate_actions == length t.legal_mask) ≡ true)
      × (leb 4 (sum_mask t.legal_mask) ≡ true)
unfolding transition_is_valid
transition_is_valid-sizes lib t h = ground arith

-- A transition that the compiler makes of a step whose candidates are all legal.
pub record IsSound (lib : Library) (step : CanonicalPolicyStep) (c : Compiled) (t : T1Transition)
    : Type 0 where
  pub compiled : IsCompiled lib t.seed.case_id t.episode_id (codes "B-1") step c
  pub same_actions : t.candidate_actions ≡ c.actions
  pub same_mask : t.legal_mask ≡ c.legal_mask
  pub same_choice : t.selected_action ≡ c.selected
  pub named : not (length t.seed.case_id == 0) ≡ true
  pub numbered : not (length step.step_id == 0) ≡ true
  pub all_legal : any not t.legal_mask ≡ false
  pub valid : transition_is_valid lib t ≡ true
  pub identified : any (has_identifier c.selected) c.actions ≡ true

module _ (lib : Library) (hashes : Hashes) (step : CanonicalPolicyStep) (c : Compiled)
    (t : T1Transition) (s : IsSound lib step c t) where
  legal : All (λ a. lib.is_legal a ≡ true) c.actions
  legal =
      legal_of lib.is_legal c.actions c.legal_mask s.compiled.mask
        (rw (← s.same_mask) (s.all_legal))

  abbrev IsLegalCandidate : Action → Type 0
  IsLegalCandidate a =
      IsCandidate lib t.seed.case_id t.episode_id (codes "B-1") step a × (lib.is_legal a ≡ true)

  both :
      (actions : List Action)
      → All (IsCandidate lib t.seed.case_id t.episode_id (codes "B-1") step) actions
      → All (λ a. lib.is_legal a ≡ true) actions
      → All IsLegalCandidate actions
  both [] h l = tt
  both (a ∷ actions) h l = ((h.0, l.0), both actions h.1 l.1)

  candidates : All IsLegalCandidate c.actions
  candidates = both c.actions s.compiled.candidates legal

  pub all_integrity : any (λ a. not (action_integrity lib a)) c.actions ≡ false
  all_integrity = any-not-false (action_integrity lib) c.actions (
      All-map IsLegalCandidate (λ a. action_integrity lib a ≡ true) c.actions
        (λ a h.
          IsCandidate-action_integrity lib t.seed.case_id t.episode_id (codes "B-1") step s.named
            s.numbered a h.0 h.1)
        candidates)

  one_episode : any (λ a. not (codes_eq a.base.episode_id t.episode_id)) c.actions ≡ false
  one_episode =
      any-not-false (λ a. codes_eq a.base.episode_id t.episode_id) c.actions
        (All-map IsLegalCandidate (λ a. codes_eq a.base.episode_id t.episode_id ≡ true) c.actions
          (λ a h. rw (h.0.same_episode) (codes_eq_refl t.episode_id)) candidates)

  validate_actions_sound :
      (transitions : List T1Transition)
      → validate_actions lib hashes transitions t.episode_id c.actions c.legal_mask ≡ true
  unfolding validate_actions
  validate_actions_sound transitions =
      let (some_action, few, same_length, enough) = transition_is_valid-sizes lib t s.valid in
      let e1 : leb 1 (length c.actions) ≡ true = rw (← s.same_actions) some_action in
      let e2 : leb (length c.actions) 64 ≡ true = rw (← s.same_actions) few in
      let e3 : (length c.actions == length c.legal_mask) ≡ true =
        rw (← s.same_actions, ← s.same_mask) same_length in
      let e4 : leb 4 (sum_mask c.legal_mask) ≡ true = rw (← s.same_mask) enough in
      let e5 : masks_eq c.legal_mask (map lib.is_legal c.actions) ≡ true =
        rw (← s.compiled.mask) (masks_eq_refl c.legal_mask) in
      rw (e1, e2, e3, one_episode, s.compiled.distinct.1, e5, all_integrity, e4)

  module _ (transitions : List T1Transition) (r : Replayer)
      (there : nth transitions r.state_version ≡ some t) where
    pub on_proposed_sound :
        on_proposed lib hashes transitions t.episode_id (proposed c.actions c.legal_mask) r
        ≡ some (record r { proposal = some (c.actions, c.legal_mask); phase = Phase.at_selected })
    unfolding on_proposed
    on_proposed_sound =
        let e : actions_eq c.actions t.candidate_actions ≡ true =
          rw (s.same_actions) (actions_eq_refl c.actions) in
        let e' : masks_eq c.legal_mask t.legal_mask ≡ true =
          rw (s.same_mask) (masks_eq_refl c.legal_mask) in
        rw (validate_actions_sound transitions, there, e, e')

    pub on_selected_sound :
        r.proposal ≡ some (c.actions, c.legal_mask)
        → text_member c.selected.action_id r.selected_actions ≡ false
        → on_selected lib hashes transitions (selected c.selected.action_id) r
          ≡ some (record r {
            selected_actions = r.selected_actions ++ c.selected.action_id ∷ [];
            phase = Phase.at_label;
          })
    unfolding on_selected
    on_selected_sound proposal fresh =
        let id = c.selected.action_id in
        let one : is_one_legal (matches id c.actions c.legal_mask) ≡ true = rw (s.compiled.mask) (
          matches-is_one_legal lib.is_legal id c.actions s.compiled.distinct.1 legal
            s.identified) in
        let not_yet : not (text_member id r.selected_actions) ≡ true = ap not fresh in
        let same : codes_eq id t.selected_action.action_id ≡ true =
          rw (s.same_choice) (codes_eq_refl id) in
        let listed : any (action_eq t.selected_action) c.actions ≡ true = rw (s.same_choice) (
          mask_of-any (action_eq c.selected) c.actions c.legal_mask true
            s.compiled.selected_legal) in
        rw (proposal, one, not_yet, there, same, listed)

    pub on_label_sound :
        t.state_version ≡ r.state_version
        → t.next_state_version ≡ suc r.state_version
        → same_bool t.done (suc r.state_version == length transitions) ≡ true
        → last r.selected_actions ≡ some c.selected.action_id
        → on_label lib hashes transitions (label r.state_version c.selected.action_id label_scope) r
          ≡ some (record r {
            state_version = suc r.state_version;
            proposal = none;
            phase = Phase.proposed_or_close;
          })
    unfolding on_label
    on_label_sound version next done latest =
        let counted : (t.state_version == r.state_version) ≡ true = ground (arith, version) in
        let follows : (t.next_state_version == suc r.state_version) ≡ true = ground (arith, next) in
        let named : is_label r.state_version (last r.selected_actions)
              (label r.state_version c.selected.action_id label_scope)
            ≡ true =
          rw latest (rw (eq_self r.state_version, codes_eq_refl c.selected.action_id)) in
        rw (named, there, counted, follows, done)
