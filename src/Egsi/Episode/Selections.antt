-- ===== src/Egsi/Episode/Selections.antt =====
-- The selected actions that `replay_events` returns.
use iclr.Base.{
  ℕ, zero, suc, String, ◌≡◌, refl, sym, ap, ◌∙◌, inl, inr, some, List, [], ◌∷◌, ◌++◌, map, length,
  str_eq, arith, Bool-cases, Option-cases,
}
use mathlib.Core.Path.{subst}
use iclr.Egsi.Candidates.Actions.{Library}
use iclr.Egsi.Candidates.Steps.{Text}
use iclr.Egsi.Episode.Chain.{on_event-IsTaken, replay_events-replayed}
use iclr.Egsi.Episode.Grammar.{replay_from-closed}
use iclr.Egsi.Episode.Events.{EpisodeEvent, Payload, Hashes}
use iclr.Egsi.Episode.Replay.{
  Phase, Replayer, Replayed, initial, nth, as_selected, on_phase, on_event, on_started, on_proposed,
  on_selected, on_label, on_closed, replay_from, replay_end, replay_events,
}
use iclr.Egsi.Episode.Transitions.{T1Transition, Sizes}
use iclr.Egsi.RepositoryPaths.{codes_eq-eq}

-- The identifier of the action that a transition selects.
abbrev pub choice : T1Transition → Text
choice t = t.selected_action.action_id

-- The choices of the first `n` transitions.
abbrev choices : ℕ → List T1Transition → List Text
choices zero ts = []
choices (suc n) [] = []
choices (suc n) (t ∷ ts) = choice t ∷ choices n ts

choices-length : (ts : List T1Transition) → choices (length ts) ts ≡ map choice ts
choices-length [] = refl
choices-length (t ∷ ts) = ap (λ rest. choice t ∷ rest) (choices-length ts)

choices-suc :
    (n : ℕ) (ts : List T1Transition) (t : T1Transition)
    → nth ts n ≡ some t
    → choices (suc n) ts ≡ choices n ts ++ choice t ∷ []
choices-suc n [] t h = cc
choices-suc zero (u ∷ ts) t h = ground arith
choices-suc (suc n) (u ∷ ts) t h = ap (λ rest. choice u ∷ rest) (choices-suc n ts t h)

-- The number of selections so far.
abbrev selections : Phase → ℕ → ℕ
selections Phase.at_label version = suc version
selections _ version = version

module _ (lib : Library) (hashes : Hashes) (transitions : List T1Transition) where
  abbrev IsChosen : Phase → Replayer → Type 0
  IsChosen phase r = r.selected_actions ≡ choices (selections phase r.state_version) transitions

  on_proposed-IsChosen :
      (id : Text) (payload : Payload) (r mid : Replayer)
      → r.selected_actions ≡ choices r.state_version transitions
      → on_proposed lib hashes transitions id payload r ≡ some mid
      → IsChosen mid.phase mid
  unfolding on_proposed
  on_proposed-IsChosen id payload r mid chosen q =
      let p : mid.phase ≡ Phase.at_selected = ground arith in
      let a : mid.selected_actions ≡ r.selected_actions = ground arith in
      let v : mid.state_version ≡ r.state_version = ground arith in rw (p, a, v) chosen

  on_selected-IsChosen :
      (payload : Payload) (r mid : Replayer)
      → r.selected_actions ≡ choices r.state_version transitions
      → on_selected lib hashes transitions payload r ≡ some mid
      → IsChosen mid.phase mid
  unfolding on_selected
  on_selected-IsChosen payload r mid chosen q = elim (Option-cases (as_selected payload)) [
    | inl e ↦ absurd (ground (arith, e))
    | inr (id, e) ↦ elim (Option-cases (nth transitions r.state_version)) [
      | inl e' ↦ absurd (ground (arith, e, e'))
      | inr (t, e') ↦
          let same : id ≡ choice t = codes_eq-eq id (choice t) (ground (arith, e, e')) in
          let p : mid.phase ≡ Phase.at_label = ground (arith, e, e') in
          let a : mid.selected_actions ≡ r.selected_actions ++ id ∷ [] = ground (arith, e, e') in
          let v : mid.state_version ≡ r.state_version = ground (arith, e, e') in
          let grown : mid.selected_actions ≡ choices (suc mid.state_version) transitions =
            a
            ∙ ap (λ ids. ids ++ id ∷ []) chosen
            ∙ ap (λ x. choices r.state_version transitions ++ x ∷ []) same
            ∙ sym (choices-suc r.state_version transitions t e')
            ∙ ap (λ k. choices (suc k) transitions) (sym v) in
          rw p grown
    ]
  ]

  on_label-IsChosen :
      (payload : Payload) (r mid : Replayer)
      → r.selected_actions ≡ choices (suc r.state_version) transitions
      → on_label lib hashes transitions payload r ≡ some mid
      → IsChosen mid.phase mid
  unfolding on_label
  on_label-IsChosen payload r mid chosen q =
      let p : mid.phase ≡ Phase.proposed_or_close = ground arith in
      let a : mid.selected_actions ≡ r.selected_actions = ground arith in
      let v : mid.state_version ≡ suc r.state_version = ground arith in rw (p, a, v) chosen

  -- Every phase keeps the selections those of the transitions.
  on_phase-IsChosen :
      (phase : Phase) (id : Text) (type : String) (payload : Payload) (r mid : Replayer)
      → IsChosen phase r
      → on_phase lib hashes transitions phase id type payload r ≡ some mid
      → IsChosen mid.phase mid
  unfolding on_phase on_started on_closed
  on_phase-IsChosen Phase.start id type payload r mid chosen q =
      let p : mid.phase ≡ Phase.at_hypothesis = ground arith in
      let a : mid.selected_actions ≡ r.selected_actions = ground arith in
      let v : mid.state_version ≡ r.state_version = ground arith in rw (p, a, v) chosen
  on_phase-IsChosen Phase.at_hypothesis id type payload r mid chosen q =
      let p : mid.phase ≡ Phase.at_proposed = ground arith in
      let a : mid.selected_actions ≡ r.selected_actions = ground arith in
      let v : mid.state_version ≡ r.state_version = ground arith in rw (p, a, v) chosen
  on_phase-IsChosen Phase.at_proposed id type payload r mid chosen q =
      on_proposed-IsChosen id payload r mid chosen (ground arith)
  on_phase-IsChosen Phase.at_selected id type payload r mid chosen q =
      on_selected-IsChosen payload r mid chosen (ground arith)
  on_phase-IsChosen Phase.at_label id type payload r mid chosen q =
      on_label-IsChosen payload r mid chosen (ground arith)
  on_phase-IsChosen Phase.proposed_or_close id type payload r mid chosen q =
      elim (Bool-cases (str_eq type "ACTION_PROPOSED")) [
        | inl again ↦ on_proposed-IsChosen id payload r mid chosen (ground arith)
        | inr ends ↦
            let p : mid.phase ≡ Phase.at_closed = ground arith in
            let a : mid.selected_actions ≡ r.selected_actions = ground arith in
            let v : mid.state_version ≡ r.state_version = ground arith in rw (p, a, v) chosen
      ]
  on_phase-IsChosen Phase.at_closed id type payload r mid chosen q = absurd (ground arith)

  replay_from-IsChosen :
      (index : ℕ) (events : List EpisodeEvent) (r out : Replayer)
      → IsChosen r.phase r
      → replay_from lib hashes transitions index events r ≡ some out
      → IsChosen out.phase out
  unfolding replay_from
  replay_from-IsChosen index [] r out chosen q =
      let e : r ≡ out = ground arith in subst (λ (x : Replayer). IsChosen x.phase x) e chosen
  replay_from-IsChosen index (event ∷ events) r out chosen q =
      elim (Option-cases (on_event lib hashes transitions index event r)) [
        | inl e ↦ absurd (ground (arith, e))
        | inr (next, e) ↦
            let taken = on_event-IsTaken lib hashes transitions index event r next e in
            let kept =
              on_phase-IsChosen r.phase _ event.event_type event.payload _ taken.mid chosen
                taken.phase in
            replay_from-IsChosen (suc index) events next out (rw (taken.after) kept)
              (ground (arith, e))
      ]

  selections_closed :
      (phase : Phase) (version : ℕ) → phase ≡ Phase.at_closed → selections phase version ≡ version
  selections_closed phase version h = rw h

  -- When `replay_events` accepts, the selected actions that it returns are the ones that the trusted
  -- transitions select, in their order.
  pub replay_events-selected_actions :
      (sizes : Sizes) (events : List EpisodeEvent) (expected : Text) (out : Replayed)
      → replay_events lib hashes transitions sizes events expected ≡ some out
      → out.selected_actions ≡ map choice transitions
  unfolding replay_end
  replay_events-selected_actions sizes events expected out q =
      let (r, some_event, ran, ended) =
        replay_events-replayed lib hashes transitions sizes events expected out q in
      let chosen = replay_from-IsChosen 0 events initial r refl ran in
      let last_phase : r.phase ≡ Phase.at_closed = ground (
        arith,
        replay_from-closed lib hashes transitions 0 events initial r ran (inl refl),
        ended,
      ) in
      let version : r.state_version ≡ length transitions = ground (arith, ended) in
      let same : out.selected_actions ≡ r.selected_actions = ground (arith, ended) in
      same ∙ rw (last_phase, version) at chosen ∙ choices-length transitions
