-- ===== src/Egsi/Episode/Accepted.antt =====
-- What the compiler makes is what the replay accepts.
use iclr.Base.{
  ℕ, suc, ◌+◌, ◌*◌, ◌≤◌, ◌≡◌, refl, sym, ◌∙◌, ap, inl, inr, true, not, some, List, [], ◌++◌, map,
  All, length, ◌==◌, arith,
}
use iclr.Base.Options.{>>=-eq-some}
use iclr.Base.Texts.{codes_eq}
use iclr.Egsi.Candidates.RoundTrip.{codes_eq_refl}
use iclr.Egsi.Candidates.Steps.{Text, CanonicalPolicyStep, all_different}
use iclr.Egsi.Episode.Appended.{IsRead, append_event-IsRead, append_event-replay_from}
use iclr.Egsi.Episode.Compile.{
  Tools, Builder, empty_builder, last_hash_of, append_event, compile_steps, open_episode,
  build_episode,
}
use iclr.Egsi.Episode.Events.{
  Payload, started, hypothesis, closed, Seed, Manifest, label_scope, seed_is_exact,
  manifest_has_exact_shape, valid_emitted_text, validate_started,
}
use iclr.Egsi.Episode.Labelled.{Stands}
use iclr.Egsi.Episode.Recorded.{append_event-rest}
use iclr.Egsi.Episode.Loop.{IsAllLegal, compile_steps-extends, compile_steps-Stands}
use iclr.Egsi.Episode.Replay.{
  Phase, Replayer, initial, on_phase, on_started, on_closed, replay_from,
}
use iclr.Egsi.Episode.Selections.{choice}
use iclr.Egsi.Episode.Transitions.{T1Transition}

module _ (tools : Tools) (episode_id : Text) (seed : Seed) (manifest : Manifest)
    (exact : seed_is_exact seed ≡ true) (shaped : manifest_has_exact_shape manifest ≡ true)
    (hashed : manifest.policy_sha256 ≡ tools.hashes.sha seed) where
  open tools use {lib, hashes}

  pub seed_named : not (length seed.case_id == 0) ≡ true
  unfolding seed_is_exact valid_emitted_text
  seed_named = ground (arith, exact)

  started_validates : validate_started hashes seed manifest ≡ true
  unfolding validate_started
  started_validates =
      let same : codes_eq manifest.policy_sha256 (hashes.sha seed) ≡ true =
        ap (codes_eq manifest.policy_sha256) (sym hashed) ∙ codes_eq_refl manifest.policy_sha256 in
      rw (exact, shaped, same)

  -- The replay takes the events before the loop.
  open_episode-Stands :
      (transitions : List T1Transition) (b : Builder)
      → open_episode tools episode_id seed manifest ≡ some b
      → (r : Replayer) × Stands tools transitions episode_id 0 b r × (b.transitions ≡ [])
  unfolding open_episode on_phase on_started replay_from
  open_episode-Stands transitions b h =
      let (b1, e1, e2) =
        >>=-eq-some
          (append_event tools episode_id "EPISODE_STARTED" (started seed manifest) empty_builder) _
          h in
      let at_start : IsRead tools transitions episode_id empty_builder initial = record {
        read = refl;
        chained = refl;
        episode = inl refl;
        still_open = refl;
      } in
      let mid1 : Replayer = record initial {
        episode_id = some episode_id;
        phase = Phase.at_hypothesis;
      } in
      let read1 =
        append_event-IsRead tools transitions episode_id "EPISODE_STARTED" (started seed manifest)
          empty_builder b1 initial mid1 at_start e1 (rw started_validates) refl refl in
      let r1 : Replayer = record mid1 { previous = last_hash_of b1.events } in
      let mid2 : Replayer = record r1 { phase = Phase.at_proposed } in
      let read2 =
        append_event-IsRead tools transitions episode_id "HYPOTHESIS_CREATED"
          (hypothesis "H-1" label_scope) b1 b r1 mid2 read1 e2 refl refl refl in
      let kept1 = append_event-rest tools episode_id _ _ empty_builder b1 e1 in
      let kept2 = append_event-rest tools episode_id _ _ b1 b e2 in
      let none_yet : b.transitions ≡ [] = kept2.0 ∙ kept1.0 in
      (
        record mid2 { previous = last_hash_of b.events },
        record {
          read = read2;
          phase = inl (refl, refl);
          version = refl;
          chosen = ap (map choice) (sym none_yet);
          count = ap length none_yet;
          emitted = kept2.1 ∙ ap suc kept1.1;
        },
        none_yet,
      )

  abbrev closing : Payload
  closing = closed "LABEL_SEQUENCE_COMPLETE" "not_applicable"

  on_phase-closed :
      (transitions : List T1Transition) (r : Replayer) (phase : Phase)
      → phase ≡ Phase.proposed_or_close
      → on_phase lib hashes transitions phase episode_id "EPISODE_CLOSED" closing r
        ≡ some (record r { is_closed = true; phase = Phase.at_closed })
  unfolding on_phase on_closed
  on_phase-closed transitions r phase e = rw e

  -- The replay accepts the events of a whole episode.
  pub build_episode-replay_from :
      (trace_length : ℕ) (steps : List CanonicalPolicyStep) (b : Builder)
      → build_episode tools episode_id seed manifest trace_length steps ≡ some b
      → length steps ≡ trace_length
      → 1 ≤ trace_length
      → all_different (map choice b.transitions) ≡ true
      → All IsAllLegal b.transitions
      → (r : Replayer) × (replay_from lib hashes b.transitions 0 b.events initial ≡ some r)
        × (r.episode_id ≡ some episode_id)
        × (r.selected_actions ≡ map choice b.transitions)
        × (r.state_version ≡ trace_length)
        × (length b.transitions ≡ trace_length)
        × (r.is_closed ≡ true)
        × (length b.events ≡ 3 + 3 * trace_length)
  unfolding build_episode
  build_episode-replay_from trace_length steps b h size some_step different legal =
      let (b1, e1, h1) = >>=-eq-some (open_episode tools episode_id seed manifest) _ h in
      let (b2, e2, e3) =
        >>=-eq-some (compile_steps tools episode_id seed trace_length 0 steps b1) _ h1 in
      let (r1, i1, empty) = open_episode-Stands b.transitions b1 e1 in
      let (kept, grown) = append_event-rest tools episode_id _ _ b2 b e3 in
      let (rest, extended, count) =
        compile_steps-extends tools episode_id seed trace_length steps 0 b1 b2 e2 in
      let whole : b.transitions ≡ rest = kept ∙ extended ∙ ap (λ ts. ts ++ rest) empty in
      let sized : length b.transitions ≡ trace_length = ap length whole ∙ count ∙ size in
      let (n, r2, i2) =
        compile_steps-Stands tools episode_id seed trace_length b.transitions sized some_step
          different legal seed_named steps 0 b1 b2 r1 e2 kept i1 in
      let n_is : n ≡ trace_length = sym i2.count ∙ ap length (sym kept) ∙ sized in
      let ends : r2.phase ≡ Phase.proposed_or_close = elim (i2.phase) [
        | inl (p, none_done) ↦ absurd (ground (arith, n_is, none_done))
        | inr p ↦ p
      ] in
      let r3 : Replayer = record r2 { episode_id = some episode_id } in
      let mid : Replayer = record r3 { is_closed = true; phase = Phase.at_closed } in
      let read =
        append_event-replay_from tools b.transitions episode_id "EPISODE_CLOSED" closing b2 b r2 mid
          i2.read e3 (on_phase-closed b.transitions r3 r2.phase ends) in
      (
        record mid { previous = last_hash_of b.events },
        read,
        refl,
        i2.chosen ∙ ap (map choice) (sym kept),
        i2.version ∙ n_is,
        sized,
        refl,
        omega (arith, grown, i2.emitted, n_is),
      )
