-- ===== src/Egsi/Episode/RoundTrip.antt =====
-- A compiled episode replays under its own commitment.
use mathlib.Core.Path.{subst}
use iclr.Base.{
  ℕ, suc, ◌≤◌, ◌≡◌, refl, sym, ◌∙◌, ap, Bool, true, not, ◌&&◌, Option, some, List, [], ◌∷◌, map,
  All, length, leb, ◌==◌, arith,
}
use iclr.Base.Options.{◌>>◌, guard, guard-eq-some}
use iclr.Egsi.Candidates.RoundTrip.{codes_eq_refl}
use iclr.Egsi.Candidates.Steps.{Text, all_different}
use iclr.Egsi.Contracts.Case.{CaseManifest}
use iclr.Egsi.Contracts.Enrichment.{EnrichmentRecord, policy_payload, policy_step}
use iclr.Egsi.Episode.Accepted.{build_episode-replay_from, seed_named}
use iclr.Egsi.Episode.Candidates.{any-not-false}
use iclr.Egsi.Episode.Compile.{
  Tools, validated_t1_inputs, compile_validated_t1_episode, compile_t1_episode,
}
use iclr.Egsi.Episode.Events.{EpisodeEvent, Manifest}
use iclr.Egsi.Episode.Loop.{IsAllLegal}
use iclr.Egsi.Episode.Replay.{Replayer, Replayed, replay_end, replay_events}
use iclr.Egsi.Episode.Selections.{choice}
use iclr.Egsi.Episode.Transitions.{
  T1Transition, Sizes, episode_commitment, validate_compiled_transition,
}
use iclr.Egsi.Redaction.Secrecy.{build_policy_seed-IsSeedOf}
use iclr.Egsi.Episode.Trusted.{canonicalize_from-IsFromTrace, build_episode-validates}
use iclr.Egsi.Episode.Built.{
  IsBuilt, compile_validated_t1_episode-IsBuilt, verify_shape, episode, in_repository,
}

length-map : {A B : Type 0} (f : A → B) (xs : List A) → length (map f xs) ≡ length xs
length-map f [] = refl
length-map f (x ∷ xs) = ap suc (length-map f xs)

module _ (tools : Tools) (case : CaseManifest) (r : EnrichmentRecord) where
  open tools use {lib, hashes}

  validated_length :
      validated_t1_inputs case r ≡ true
      → (1 ≤ length r.payload.trace) × (length r.payload.trace ≤ 64)
  unfolding validated_t1_inputs
  validated_length h = ground (arith, h)

  -- What the replay returns of the compiled episode.
  abbrev pub replayed_of : List T1Transition → Replayed
  replayed_of transitions = record {
    episode_id = some (episode tools case r);
    selected_actions = map choice transitions;
    steps = length transitions;
  }

  replay_end_complete :
      (transitions : List T1Transition) (last : Replayer)
      → last.episode_id ≡ some (episode tools case r)
      → last.selected_actions ≡ map choice transitions
      → last.state_version ≡ length transitions
      → last.is_closed ≡ true
      → 1 ≤ length transitions
      → replay_end lib hashes transitions last ≡ some (replayed_of transitions)
  unfolding replay_end
  replay_end_complete transitions last named chosen version ended some_step =
      let chosen_length : length last.selected_actions ≡ length transitions =
        ap length chosen ∙ length-map choice transitions in
      let tests : (last.is_closed
            && not (length last.selected_actions == 0)
            && last.state_version == length transitions)
          ≡ true =
        ground (arith, ended, chosen_length, version, some_step) in
      rw tests (
        ap
          (λ (x : Option Text). some (record {
            episode_id = x;
            selected_actions = last.selected_actions;
            steps = last.state_version;
          }))
          named
        ∙ ap
            (λ (x : List Text). some (record {
              episode_id = some (episode tools case r);
              selected_actions = x;
              steps = last.state_version;
            }))
            chosen
        ∙ ap
            (λ (x : ℕ). some (record {
              episode_id = some (episode tools case r);
              selected_actions = map choice transitions;
              steps = x;
            }))
            version)

  replay_events-built :
      (transitions : List T1Transition) (events : List EpisodeEvent) (sizes : Sizes)
      (expected : Text)
      → validated_t1_inputs case r ≡ true
      → (d : IsBuilt tools case r transitions events) → All IsAllLegal d.b.transitions
      → all_different (map choice d.b.transitions) ≡ true
      → episode_commitment lib sizes d.b.transitions d.b.events ≡ some expected
      → replay_events lib hashes d.b.transitions sizes d.b.events expected
        ≡ some (replayed_of d.b.transitions)
  unfolding replay_events replay_end
  replay_events-built transitions events sizes expected inputs d legal different committed =
      let s = build_policy_seed-IsSeedOf tools.unicode hashes case d.seed d.manifest d.sown in
      let shaped = verify_shape tools d.seed d.manifest case d.verified in
      let hashed : d.manifest.policy_sha256 ≡ hashes.sha d.seed =
        ap (λ (m : Manifest). m.policy_sha256) s.same_manifest in
      let named = seed_named tools (episode tools case r) d.seed d.manifest s.exact shaped hashed in
      let (some_step, few) = validated_length inputs in
      let (from, count) =
        canonicalize_from-IsFromTrace tools (episode tools case r) (in_repository tools case r)
          (policy_payload r.payload).obligation_ids 1 (policy_payload r.payload).trace d.steps
          d.canonical in
      let (last, ran, named_episode, chosen, version, size, ended, emitted) =
        build_episode-replay_from tools (episode tools case r) d.seed d.manifest s.exact shaped
          hashed (length r.payload.trace) d.steps d.b d.built
          (count ∙ length-map policy_step r.payload.trace) some_step different legal in
      let valid =
        build_episode-validates tools (episode tools case r) (in_repository tools case r)
          (policy_payload r.payload).obligation_ids d.seed d.manifest (length r.payload.trace)
          d.steps d.b named d.built from legal in
      let bounded : (leb 1 (length d.b.events) && leb (length d.b.events) 256) ≡ true =
        ground (arith, emitted, few) in
      let trusted = any-not-false (validate_compiled_transition lib) d.b.transitions valid in
      let complete =
        replay_end_complete d.b.transitions last named_episode chosen (version ∙ sym size) ended
          (rw size some_step) in
      rw (bounded, committed, codes_eq_refl expected, trusted, ran) complete

  -- A validated case and record compile to an episode that replays. Whatever `compile_t1_episode`
  -- returns, if the candidates of every transition are all legal, no identifier is selected twice, and
  -- the episode has a commitment, then `replay_events` accepts the events under the transitions and
  -- that commitment, and returns the episode, the selected actions in their order, and the number of
  -- the transitions.
  pub compile_t1_episode-replay_events :
      (provenance : Bool) (transitions : List T1Transition) (events : List EpisodeEvent)
      (sizes : Sizes) (expected : Text)
      → compile_t1_episode tools case r provenance ≡ some (transitions, events)
      → All IsAllLegal transitions
      → all_different (map choice transitions) ≡ true
      → episode_commitment lib sizes transitions events ≡ some expected
      → replay_events lib hashes transitions sizes events expected ≡ some (replayed_of transitions)
  unfolding compile_t1_episode
  compile_t1_episode-replay_events provenance transitions events sizes expected h legal different
        committed =
      let (inputs, h1) =
        guard-eq-some (validated_t1_inputs case r)
          (guard provenance >> compile_validated_t1_episode tools case r) h in
      let (gate, h2) = guard-eq-some provenance (compile_validated_t1_episode tools case r) h1 in
      let d = compile_validated_t1_episode-IsBuilt tools case r transitions events h2 in
      let same_t = d.same_transitions in
      let same_e = d.same_events in
      let result =
        replay_events-built transitions events sizes expected inputs d
          (subst (All IsAllLegal) (sym same_t) legal)
          (ap (λ ts. all_different (map choice ts)) same_t ∙ different)
          (ap (λ ts. episode_commitment lib sizes ts d.b.events) same_t
            ∙ ap (λ es. episode_commitment lib sizes transitions es) same_e
            ∙ committed) in
      ap (λ es. replay_events lib hashes transitions sizes es expected) (sym same_e)
      ∙ ap (λ ts. replay_events lib hashes ts sizes d.b.events expected) (sym same_t)
      ∙ result
      ∙ ap (λ ts. some (replayed_of ts)) same_t
