-- ===== src/Egsi/Episode/Chain.antt =====
-- What one event of a replayed episode satisfies, and the hash chain of all of them.
use iclr.Base.{
  ℕ, suc, String, ◌≡◌, refl, ap, inl, inr, true, false, Option, none, some, List, [], ◌∷◌, length,
  arith, Option-cases, leb,
}
use mathlib.Core.Path.{subst}
use iclr.Egsi.Candidates.Actions.{Library}
use iclr.Egsi.Candidates.Steps.{Text}
use iclr.Egsi.RepositoryPaths.{codes_eq-eq}
use iclr.Egsi.Episode.Events.{EpisodeEvent, Payload, Hashes, event_hash}
use iclr.Egsi.Episode.Replay.{
  Replayer, initial, episode_of, same_previous, on_phase, on_event, on_started, on_proposed,
  on_selected, on_label, on_closed, replay_from, replay_end, replay_events, Replayed, Phase,
}
use iclr.Egsi.Episode.Transitions.{T1Transition, Sizes}

same_previous-eq : (a b : Option Text) → same_previous a b ≡ true → a ≡ b
same_previous-eq none none h = refl
same_previous-eq (some a) (some b) h = ground (arith, codes_eq-eq a b)
same_previous-eq none (some b) h = cc
same_previous-eq (some a) none h = cc

module _ (lib : Library) (hashes : Hashes) (transitions : List T1Transition) where
  -- What `on_event` tested of an event, and the phase that it ran.
  pub record IsTaken (index : ℕ) (event : EpisodeEvent) (r next : Replayer) : Type 0 where
    pub number : event.sequence ≡ index
    pub episode : event.episode_id ≡ episode_of r.episode_id event
    pub chained : event.previous_event_sha256 ≡ r.previous
    pub hashed :
        event_hash hashes event.sequence event.episode_id event.event_type event.payload r.previous
        ≡ some event.event_sha256
    pub still_open : r.is_closed ≡ false
    pub mid : Replayer
    pub phase :
        on_phase lib hashes transitions r.phase
          (episode_of r.episode_id event)
          event.event_type
          event.payload
          (record r { episode_id = some (episode_of r.episode_id event) })
        ≡ some mid
    pub after : next ≡ record mid { previous = some event.event_sha256 }

  pub on_event-IsTaken :
      (index : ℕ) (event : EpisodeEvent) (r next : Replayer)
      → on_event lib hashes transitions index event r ≡ some next
      → IsTaken index event r next
  unfolding on_event
  on_event-IsTaken index event r next q =
      elim (Option-cases (
        event_hash hashes event.sequence event.episode_id event.event_type event.payload
          r.previous)) [
            | inl e ↦ absurd (ground (arith, e))
            | inr (wanted, e) ↦
                elim (Option-cases (
                  on_phase lib hashes transitions r.phase (episode_of r.episode_id event)
                    event.event_type event.payload
                    (record r { episode_id = some (episode_of r.episode_id event) }))) [
                      | inl p ↦ absurd (ground (arith, e, p))
                      | inr (mid, p) ↦
                          let same : event.event_sha256 ≡ wanted =
                            codes_eq-eq event.event_sha256 wanted (ground (arith, e, p)) in
                          record {
                            number = ground (arith, e, p);
                            episode = codes_eq-eq _ _ (ground (arith, e, p));
                            chained = same_previous-eq _ _ (ground (arith, e, p));
                            hashed = rw same e;
                            still_open = ground (arith, e, p);
                            mid = mid;
                            phase = p;
                            after = ground (arith, e, p);
                          }
                    ]
          ]

  -- No phase changes the episode.
  on_phase-episode :
      (phase : Phase) (id : Text) (type : String) (payload : Payload) (r mid : Replayer)
      → on_phase lib hashes transitions phase id type payload r ≡ some mid
      → mid.episode_id ≡ r.episode_id
  unfolding on_phase on_started on_proposed on_selected on_label on_closed
  on_phase-episode Phase.start id type payload r mid q = ground arith
  on_phase-episode Phase.at_hypothesis id type payload r mid q = ground arith
  on_phase-episode Phase.at_proposed id type payload r mid q = ground arith
  on_phase-episode Phase.at_selected id type payload r mid q = ground arith
  on_phase-episode Phase.at_label id type payload r mid q = ground arith
  on_phase-episode Phase.proposed_or_close id type payload r mid q = ground arith
  on_phase-episode Phase.at_closed id type payload r mid q = ground arith

  -- The events from an index on: numbered one after the other, all of the episode, each with the hash
  -- of the event before it, and each with the hash of its own content.
  abbrev pub IsChain : ℕ → Text → Option Text → List EpisodeEvent → Type 0
  IsChain index episode previous [] = Unit
  IsChain index episode previous (event ∷ events) =
      (event.sequence ≡ index)
      × (event.episode_id ≡ episode)
      × (event.previous_event_sha256 ≡ previous)
      × (event_hash hashes index episode event.event_type event.payload previous
          ≡ some event.event_sha256)
      × IsChain (suc index) episode (some event.event_sha256) events

  replay_from-IsChain :
      (index : ℕ) (episode : Text) (events : List EpisodeEvent) (r out : Replayer)
      → r.episode_id ≡ some episode
      → replay_from lib hashes transitions index events r ≡ some out
      → IsChain index episode r.previous events × (out.episode_id ≡ some episode)
  unfolding replay_from
  replay_from-IsChain index episode [] r out known q = (tt, ground arith)
  replay_from-IsChain index episode (event ∷ events) r out known q =
      elim (Option-cases (on_event lib hashes transitions index event r)) [
        | inl e ↦ absurd (ground (arith, e))
        | inr (next, e) ↦
            let taken = on_event-IsTaken index event r next e in
            let kept =
              on_phase-episode r.phase _ event.event_type event.payload _ taken.mid taken.phase in
            let same : event.episode_id ≡ episode = ground (arith, taken.episode) in
            let chain =
              replay_from-IsChain (suc index) episode events next out
                (rw (taken.after) (ground (arith, kept))) (ground (arith, e)) in
            (
              (
                taken.number,
                same,
                taken.chained,
                rw (taken.number, same) at taken.hashed,
                subst (λ (p : Option Text). IsChain (suc index) episode p events)
                    (ap (λ (x : Replayer). x.previous) taken.after) chain.0,
              ),
              chain.1,
            )
      ]

  start-IsChain :
      (events : List EpisodeEvent) (r : Replayer)
      → leb 1 (length events) ≡ true
      → replay_from lib hashes transitions 0 events initial ≡ some r
      → (episode : Text) × IsChain 0 episode none events × (r.episode_id ≡ some episode)
  unfolding replay_from
  start-IsChain [] r some_event q = cc
  start-IsChain (event ∷ events) r some_event q =
      elim (Option-cases (on_event lib hashes transitions 0 event initial)) [
        | inl e ↦ absurd (ground (arith, e))
        | inr (next, e) ↦
            let taken = on_event-IsTaken 0 event initial next e in
            let kept =
              on_phase-episode Phase.start _ event.event_type event.payload _ taken.mid
                taken.phase in
            let chain =
              replay_from-IsChain 1 event.episode_id events next r (rw (taken.after) kept)
                (ground (arith, e)) in
            (
              event.episode_id,
              (
                taken.number,
                refl,
                taken.chained,
                rw (taken.number) at taken.hashed,
                subst (λ (p : Option Text). IsChain 1 event.episode_id p events)
                    (ap (λ (x : Replayer). x.previous) taken.after) chain.0,
              ),
              chain.1,
            )
      ]

  pub replay_events-replayed :
      (sizes : Sizes) (events : List EpisodeEvent) (expected : Text) (out : Replayed)
      → replay_events lib hashes transitions sizes events expected ≡ some out
      → (r : Replayer) × (leb 1 (length events) ≡ true)
        × (replay_from lib hashes transitions 0 events initial ≡ some r)
        × (replay_end lib hashes transitions r ≡ some out)
  unfolding replay_events
  replay_events-replayed sizes events expected out q =
      elim (Option-cases (replay_from lib hashes transitions 0 events initial)) [
        | inl e ↦ absurd (ground (arith, e))
        | inr (r, e) ↦ (r, ground (arith, e), e, ground (arith, e))
      ]

  -- When `replay_events` accepts, the events are numbered from 0 on, all of the episode that it
  -- returns, each names the hash of the event before it and carries the hash of its own content.
  pub replay_events-IsChain :
      (sizes : Sizes) (events : List EpisodeEvent) (expected : Text) (out : Replayed)
      → replay_events lib hashes transitions sizes events expected ≡ some out
      → (episode : Text) × IsChain 0 episode none events × (out.episode_id ≡ some episode)
  unfolding replay_end
  replay_events-IsChain sizes events expected out q =
      let (r, some_event, ran, ended) = replay_events-replayed sizes events expected out q in
      let (episode, chain, same) = start-IsChain events r some_event ran in
      (episode, chain, ground (arith, same, ended))
