-- ===== src/Egsi/Episode/Grammar.antt =====
-- The order of the events that `replay_events` accepts: its phases as a step relation.
use iclr.Base.{
  ℕ, suc, ◌+◌, String, ◌≡◌, refl, sym, ap, ◌⊎◌, inl, inr, false, some, List, [], ◌∷◌, map, length,
  str_eq, eq_iff, arith, Bool-cases, Option-cases,
}
use mathlib.Core.Path.{subst}
use iclr.Egsi.Candidates.Actions.{Library}
use iclr.Egsi.Candidates.Steps.{Text}
use iclr.Egsi.Episode.Chain.{on_event-IsTaken, replay_events-replayed}
use iclr.Egsi.Episode.Events.{EpisodeEvent, Payload, Hashes}
use iclr.Egsi.Episode.Replay.{
  Phase, Replayer, Replayed, initial, on_phase, on_event, on_started, on_proposed, on_selected,
  on_label, on_closed, replay_from, replay_end, replay_events,
}
use iclr.Egsi.Episode.Transitions.{T1Transition, Sizes}
use iclr.Egsi.Episode.Rounds.{
  Rule, Walk, opens, creates, proposes, selects, labels, proposes_again, closes, stay, then_walk,
  rounds, plus_zero, Walk-rounds,
}

module _ (lib : Library) (hashes : Hashes) (transitions : List T1Transition) where
  -- A phase that takes an event follows a rule, counts its label, and closes only as the rule does.
  record IsRuled (phase : Phase) (type : String) (r mid : Replayer) : Type 0 where
    count : ℕ
    rule : Rule phase type mid.phase count
    counted : mid.state_version ≡ r.state_version + count
    closed_last : (mid.is_closed ≡ r.is_closed) ⊎ (mid.phase ≡ Phase.at_closed)

  on_phase-IsRuled :
      (phase : Phase) (id : Text) (type : String) (payload : Payload) (r mid : Replayer)
      → on_phase lib hashes transitions phase id type payload r ≡ some mid
      → IsRuled phase type r mid
  unfolding on_phase on_started on_proposed on_selected on_label on_closed
  on_phase-IsRuled Phase.start id type payload r mid q =
      let e : type ≡ "EPISODE_STARTED" = (eq_iff _ _).0 (ground arith) in
      let p : mid.phase ≡ Phase.at_hypothesis = ground arith in
      record {
        count = 0;
        rule = rw (e, p) opens;
        counted = ground arith;
        closed_last = ground arith;
      }
  on_phase-IsRuled Phase.at_hypothesis id type payload r mid q =
      let e : type ≡ "HYPOTHESIS_CREATED" = (eq_iff _ _).0 (ground arith) in
      let p : mid.phase ≡ Phase.at_proposed = ground arith in
      record {
        count = 0;
        rule = rw (e, p) creates;
        counted = ground arith;
        closed_last = ground arith;
      }
  on_phase-IsRuled Phase.at_proposed id type payload r mid q =
      let e : type ≡ "ACTION_PROPOSED" = (eq_iff _ _).0 (ground arith) in
      let p : mid.phase ≡ Phase.at_selected = ground arith in
      record {
        count = 0;
        rule = rw (e, p) proposes;
        counted = ground arith;
        closed_last = ground arith;
      }
  on_phase-IsRuled Phase.at_selected id type payload r mid q =
      let e : type ≡ "ACTION_SELECTED" = (eq_iff _ _).0 (ground arith) in
      let p : mid.phase ≡ Phase.at_label = ground arith in
      record {
        count = 0;
        rule = rw (e, p) selects;
        counted = ground arith;
        closed_last = ground arith;
      }
  on_phase-IsRuled Phase.at_label id type payload r mid q =
      let e : type ≡ "PATCH_GROUNDED_LABEL_RECORDED" = (eq_iff _ _).0 (ground arith) in
      let p : mid.phase ≡ Phase.proposed_or_close = ground arith in
      record {
        count = 1;
        rule = rw (e, p) labels;
        counted = ground arith;
        closed_last = ground arith;
      }
  on_phase-IsRuled Phase.proposed_or_close id type payload r mid q =
      elim (Bool-cases (str_eq type "ACTION_PROPOSED")) [
        | inl again ↦
            let e : type ≡ "ACTION_PROPOSED" = (eq_iff _ _).0 again in
            let p : mid.phase ≡ Phase.at_selected = ground arith in
            record {
              count = 0;
              rule = rw (e, p) proposes_again;
              counted = ground arith;
              closed_last = ground arith;
            }
        | inr ends ↦
            let e : type ≡ "EPISODE_CLOSED" = (eq_iff _ _).0 (ground arith) in
            let p : mid.phase ≡ Phase.at_closed = ground arith in
            record {
              count = 0;
              rule = rw (e, p) closes;
              counted = ground arith;
              closed_last = inr p;
            }
      ]
  on_phase-IsRuled Phase.at_closed id type payload r mid q = absurd (ground arith)

  -- The events that the loop takes are a walk from its phase.
  replay_from-Walk :
      (index : ℕ) (events : List EpisodeEvent) (r out : Replayer)
      → replay_from lib hashes transitions index events r ≡ some out
      → (n : ℕ) × Walk r.phase (map (λ (event : EpisodeEvent). event.event_type) events) out.phase n
        × (out.state_version ≡ r.state_version + n)
  unfolding replay_from
  replay_from-Walk index [] r out q =
      let e : r ≡ out = ground arith in
      subst
        (λ (x : Replayer).
          (n : ℕ) × Walk r.phase [] x.phase n × (x.state_version ≡ r.state_version + n))
        e (0, stay, sym (plus_zero r.state_version))
  replay_from-Walk index (event ∷ events) r out q =
      elim (Option-cases (on_event lib hashes transitions index event r)) [
        | inl e ↦ absurd (ground (arith, e))
        | inr (next, e) ↦
            let taken = on_event-IsTaken lib hashes transitions index event r next e in
            let ruled =
              on_phase-IsRuled r.phase _ event.event_type event.payload _ taken.mid taken.phase in
            let (n, walk, counted) =
              replay_from-Walk (suc index) events next out (ground (arith, e)) in
            let same : next.phase ≡ taken.mid.phase = ap (λ (x : Replayer). x.phase) taken.after in
            let version : next.state_version ≡ taken.mid.state_version =
              ap (λ (x : Replayer). x.state_version) taken.after in
            (
              n + ruled.count,
              then_walk ruled.rule (
                  subst (λ p. Walk p (map (λ (x : EpisodeEvent). x.event_type) events) out.phase n)
                    same walk),
              omega (arith, counted, version, ruled.counted),
            )
      ]

  -- A loop that is closed is in the last phase.
  pub replay_from-closed :
      (index : ℕ) (events : List EpisodeEvent) (r out : Replayer)
      → replay_from lib hashes transitions index events r ≡ some out
      → (r.is_closed ≡ false) ⊎ (r.phase ≡ Phase.at_closed)
      → (out.is_closed ≡ false) ⊎ (out.phase ≡ Phase.at_closed)
  unfolding replay_from
  replay_from-closed index [] r out q h = ground arith
  replay_from-closed index (event ∷ events) r out q h =
      elim (Option-cases (on_event lib hashes transitions index event r)) [
        | inl e ↦ absurd (ground (arith, e))
        | inr (next, e) ↦
            let taken = on_event-IsTaken lib hashes transitions index event r next e in
            let ruled =
              on_phase-IsRuled r.phase _ event.event_type event.payload _ taken.mid taken.phase in
            replay_from-closed (suc index) events next out (ground (arith, e))
              (rw (taken.after) (ground (arith, ruled.closed_last, taken.still_open)))
      ]

  -- When `replay_events` accepts, the events are the start, the hypothesis, for each trusted
  -- transition its proposal, its selection and its label, and the close, in this order and no other;
  -- the steps that it returns are the transitions.
  pub replay_events-rounds :
      (sizes : Sizes) (events : List EpisodeEvent) (expected : Text) (out : Replayed)
      → replay_events lib hashes transitions sizes events expected ≡ some out
      → (map (λ (event : EpisodeEvent). event.event_type) events
          ≡ "EPISODE_STARTED" ∷ "HYPOTHESIS_CREATED" ∷ rounds (length transitions))
        × (out.steps ≡ length transitions)
  unfolding replay_end
  replay_events-rounds sizes events expected out q =
      let (r, some_event, ran, ended) =
        replay_events-replayed lib hashes transitions sizes events expected out q in
      let (n, walk, counted) = replay_from-Walk 0 events initial r ran in
      let last_phase : r.phase ≡ Phase.at_closed =
        ground (arith, replay_from-closed 0 events initial r ran (inl refl), ended) in
      let version : r.state_version ≡ length transitions = ground (arith, ended) in
      let all : n ≡ length transitions = omega (arith, counted, version) in
      (
        Walk-rounds _ (length transitions) (
            subst
              (λ k.
                Walk Phase.start (map (λ (event : EpisodeEvent). event.event_type) events)
                  Phase.at_closed k)
              all
              (subst
                (λ p.
                  Walk Phase.start (map (λ (event : EpisodeEvent). event.event_type) events) p n)
                last_phase walk)),
        ground (arith, version, ended),
      )
