-- ===== src/Egsi/Episode/Built.antt =====
-- What the compiler of episodes did, when it returns.
use mathlib.Core.Option.{some-injective}
use iclr.Base.{◌≡◌, ap, Bool, true, not, ◌&&◌, some, List, length, ◌==◌, arith}
use iclr.Base.Options.{◌>>=◌, ◌>>◌, guard, >>=-eq-some, guard-eq-some}
use iclr.Egsi.Candidates.Steps.{
  Text, CanonicalPolicyStep, canonicalize_from, canonicalize_policy_trace,
}
use iclr.Egsi.Contracts.Case.{CaseManifest}
use iclr.Egsi.Contracts.Enrichment.{EnrichmentRecord, policy_payload}
use iclr.Egsi.Episode.Compile.{
  Tools, Builder, build_episode, episode_id_of, artifacts_are_clean, compile_validated_t1_episode,
}
use iclr.Egsi.Episode.Events.{EpisodeEvent, Seed, Manifest, manifest_has_exact_shape}
use iclr.Egsi.Episode.Transitions.{T1Transition}
use iclr.Egsi.Redaction.Oracle.{build_policy_seed, verify_policy_seed}

second_of_three : (a b c : Bool) → (a && b && c) ≡ true → b ≡ true
second_of_three a b c h = ground arith

pub verify_shape :
    (tools : Tools) (seed : Seed) (manifest : Manifest) (case : CaseManifest)
    → verify_policy_seed tools.unicode tools.hashes seed manifest case ≡ true
    → manifest_has_exact_shape manifest ≡ true
unfolding verify_policy_seed
verify_shape tools seed manifest case h = second_of_three _ _ _ h

module _ (tools : Tools) (case : CaseManifest) (r : EnrichmentRecord) where
  open tools use {lib, hashes}

  abbrev pub episode : Text
  episode = episode_id_of tools case r

  abbrev pub in_repository : Text → Bool
  in_repository = tools.store_contains case.repository.vulnerable_commit

  -- What the compiler did, when it returns.
  pub record IsBuilt (transitions : List T1Transition) (events : List EpisodeEvent) : Type 0 where
    pub seed : Seed
    pub manifest : Manifest
    pub steps : List CanonicalPolicyStep
    pub b : Builder
    pub canonical :
        canonicalize_from in_repository episode
          (policy_payload r.payload).obligation_ids
          1
          (policy_payload r.payload).trace
        ≡ some steps
    pub sown : build_policy_seed tools.unicode hashes case ≡ some (seed, manifest)
    pub verified : verify_policy_seed tools.unicode hashes seed manifest case ≡ true
    pub built : build_episode tools episode seed manifest (length r.payload.trace) steps ≡ some b
    pub same_transitions : b.transitions ≡ transitions
    pub same_events : b.events ≡ events

  pub compile_validated_t1_episode-IsBuilt :
      (transitions : List T1Transition) (events : List EpisodeEvent)
      → compile_validated_t1_episode tools case r ≡ some (transitions, events)
      → IsBuilt transitions events
  unfolding compile_validated_t1_episode canonicalize_policy_trace
  compile_validated_t1_episode-IsBuilt transitions events h =
      let (steps, e1, h1) =
        >>=-eq-some (canonicalize_policy_trace in_repository (policy_payload r.payload) episode) _
          h in
      let (named, canonical) =
        guard-eq-some (not (length episode == 0))
          (canonicalize_from in_repository episode (policy_payload r.payload).obligation_ids 1
            (policy_payload r.payload).trace)
          e1 in
      let (sown, e2, h2) = >>=-eq-some (build_policy_seed tools.unicode hashes case) _ h1 in
      let (verified, h3) =
        guard-eq-some (verify_policy_seed tools.unicode hashes sown.0 sown.1 case)
          (build_episode tools episode sown.0 sown.1 (length r.payload.trace) steps >>= λ b.
            guard (artifacts_are_clean tools case r b.transitions b.events)
            >> some (b.transitions, b.events))
          h2 in
      let (b, built, h4) =
        >>=-eq-some (build_episode tools episode sown.0 sown.1 (length r.payload.trace) steps) _
          h3 in
      let (clean, same) =
        guard-eq-some (artifacts_are_clean tools case r b.transitions b.events)
          (some (b.transitions, b.events)) h4 in
      let pairs = some-injective _ (transitions, events) same in
      record {
        seed = sown.0;
        manifest = sown.1;
        steps = steps;
        b = b;
        canonical = canonical;
        sown = e2;
        verified = verified;
        built = built;
        same_transitions = ap (λ (p : List T1Transition × List EpisodeEvent). p.0) pairs;
        same_events = ap (λ (p : List T1Transition × List EpisodeEvent). p.1) pairs;
      }
