-- ===== src/Egsi/Episode/Appended.antt =====
-- The replay of the events that the compiler appends.
use mathlib.Core.Path.{subst}
use mathlib.Core.Option.{some-injective}
use iclr.Base.{
  ℕ, suc, ◌+◌, String, ◌≡◌, refl, sym, ◌∙◌, ap, ◌⊎◌, inl, inr, true, false, not, Option, none, some,
  List, [], ◌∷◌, ◌++◌, length, ◌==◌, arith, Option-cases,
}
use iclr.Base.Options.{◌>>=◌, >>=-eq-some}
use iclr.Egsi.Candidates.RoundTrip.{codes_eq_refl}
use iclr.Egsi.Candidates.Steps.{Text}
use iclr.Egsi.Episode.Compile.{Tools, Builder, append_event, last_hash_of}
use iclr.Egsi.Episode.Events.{EpisodeEvent, Payload, event_hash, make_event}
use iclr.Egsi.Episode.Replay.{
  Replayer, initial, episode_of, same_previous, on_phase, on_event, replay_from,
}
use iclr.Egsi.Episode.Transitions.{T1Transition}

pub length_snoc : {A : Type 0} (xs : List A) (x : A) → length (xs ++ x ∷ []) ≡ suc (length xs)
length_snoc [] x = refl
length_snoc (y ∷ xs) x = ap suc (length_snoc xs x)

pub last_hash_of-append :
    (events : List EpisodeEvent) (event : EpisodeEvent)
    → last_hash_of (events ++ event ∷ []) ≡ some event.event_sha256
last_hash_of-append [] event = refl
last_hash_of-append (e ∷ []) event = refl
last_hash_of-append (e ∷ f ∷ events) event = last_hash_of-append (f ∷ events) event

same_previous_refl : (previous : Option Text) → same_previous previous previous ≡ true
same_previous_refl none = refl
same_previous_refl (some text) = codes_eq_refl text

>>=-some : {A : Type 0} (m : Option A) → (m >>= λ a. some a) ≡ m
>>=-some none = refl
>>=-some (some a) = refl

eq_self : (n : ℕ) → (n == n) ≡ true
eq_self n = ground arith

abbrev made_event : Text → ℕ → String → Payload → Option Text → Text → EpisodeEvent
made_event episode_id index event_type payload previous hash = record {
  sequence = index;
  episode_id = episode_id;
  event_type = event_type;
  payload = payload;
  previous_event_sha256 = previous;
  event_sha256 = hash;
}

module _ (tools : Tools) (transitions : List T1Transition) where
  open tools use {lib, hashes}

  replay_from-append :
      (index end : ℕ) (events : List EpisodeEvent) (event : EpisodeEvent) (r : Replayer)
      → end ≡ index + length events
      → replay_from lib hashes transitions index (events ++ event ∷ []) r ≡ (
          replay_from lib hashes transitions index events r >>= λ r'.
          on_event lib hashes transitions end event r')
  unfolding replay_from
  replay_from-append index end [] event r e =
      let same : index ≡ end = omega arith in
      >>=-some (on_event lib hashes transitions index event r)
      ∙ ap (λ n. on_event lib hashes transitions n event r) same
  replay_from-append index end (first ∷ events) event r e =
      elim (Option-cases (on_event lib hashes transitions index first r)) [
        | inl e' ↦ rw e'
        | inr (next, e') ↦
            rw e' (replay_from-append (suc index) end events event next (omega arith))
      ]

  -- The replay has read the events of the builder, and stands where the compiler does.
  pub record IsRead (episode_id : Text) (b : Builder) (r : Replayer) : Type 0 where
    pub read : replay_from lib hashes transitions 0 b.events initial ≡ some r
    pub chained : r.previous ≡ last_hash_of b.events
    pub episode : (r.episode_id ≡ none) ⊎ (r.episode_id ≡ some episode_id)
    pub still_open : r.is_closed ≡ false

  episode_of-same :
      (episode_id : Text) (known : Option Text) (event : EpisodeEvent)
      → event.episode_id ≡ episode_id
      → (known ≡ none) ⊎ (known ≡ some episode_id)
      → episode_of known event ≡ episode_id
  episode_of-same episode_id none event e h = e
  episode_of-same episode_id (some id) event e (inl h) = cc
  episode_of-same episode_id (some id) event e (inr h) = some-injective id episode_id h

  on_event-made :
      (episode_id : Text) (index : ℕ) (event_type : String) (payload : Payload) (r mid : Replayer)
      (event : EpisodeEvent)
      → make_event hashes index episode_id event_type payload r.previous ≡ some event
      → (r.episode_id ≡ none) ⊎ (r.episode_id ≡ some episode_id)
      → r.is_closed ≡ false
      → on_phase lib hashes transitions r.phase episode_id event_type payload
          (record r { episode_id = some episode_id })
        ≡ some mid
      → on_event lib hashes transitions index event r
        ≡ some (record mid { previous = some event.event_sha256 })
  unfolding on_event make_event
  on_event-made episode_id index event_type payload r mid event made known closed phase =
      elim (Option-cases (event_hash hashes index episode_id event_type payload r.previous)) [
        | inl e ↦ absurd (ground (arith, e))
        | inr (hash, e) ↦
            let built = made_event episode_id index event_type payload r.previous hash in
            let same : built ≡ event = ground (arith, e) in
            let not_closed : not r.is_closed ≡ true = ap not closed in
            let named = episode_of-same episode_id r.episode_id built refl known in
            subst
              (λ (x : EpisodeEvent).
                on_event lib hashes transitions index x r
                ≡ some (record mid { previous = some x.event_sha256 }))
              same
              (rw (
                eq_self index,
                named,
                codes_eq_refl episode_id,
                same_previous_refl r.previous,
                e,
                codes_eq_refl hash,
                not_closed,
                phase,
              ))
      ]

  -- An event is appended, and the replay takes it by its phase.
  pub append_event-replay_from :
      (episode_id : Text) (event_type : String) (payload : Payload) (b b' : Builder)
      (r mid : Replayer)
      → IsRead episode_id b r
      → append_event tools episode_id event_type payload b ≡ some b'
      → on_phase lib hashes transitions r.phase episode_id event_type payload
          (record r { episode_id = some episode_id })
        ≡ some mid
      → replay_from lib hashes transitions 0 b'.events initial
        ≡ some (record mid { previous = last_hash_of b'.events })
  unfolding append_event
  append_event-replay_from episode_id event_type payload b b' r mid i h phase =
      let (event, made, grown) =
        >>=-eq-some
          (make_event hashes (length b.events) episode_id event_type payload
            (last_hash_of b.events))
          _ h in
      let same : (record b { events = b.events ++ event ∷ [] }) ≡ b' = some-injective _ b' grown in
      let made' : make_event hashes (length b.events) episode_id event_type payload r.previous
          ≡ some event =
        rw (i.chained) made in
      let taken =
        on_event-made episode_id (length b.events) event_type payload r mid event made' i.episode
          i.still_open phase in
      let events : b.events ++ event ∷ [] ≡ b'.events = ap (λ (x : Builder). x.events) same in
      let last : last_hash_of b'.events ≡ some event.event_sha256 =
        ap last_hash_of (sym events) ∙ last_hash_of-append b.events event in
      let ran : replay_from lib hashes transitions 0 (b.events ++ event ∷ []) initial
          ≡ some (record mid { previous = some event.event_sha256 }) =
        replay_from-append 0 (length b.events) b.events event initial (omega arith)
        ∙ rw (i.read) taken in
      ap (λ es. replay_from lib hashes transitions 0 es initial) (sym events)
      ∙ ran
      ∙ ap (λ hash. some (record mid { previous = hash })) (sym last)

  pub append_event-IsRead :
      (episode_id : Text) (event_type : String) (payload : Payload) (b b' : Builder)
      (r mid : Replayer)
      → IsRead episode_id b r
      → append_event tools episode_id event_type payload b ≡ some b'
      → on_phase lib hashes transitions r.phase episode_id event_type payload
          (record r { episode_id = some episode_id })
        ≡ some mid
      → mid.episode_id ≡ some episode_id
      → mid.is_closed ≡ false
      → IsRead episode_id b' (record mid { previous = last_hash_of b'.events })
  append_event-IsRead episode_id event_type payload b b' r mid i h phase named open_still = record {
    read = append_event-replay_from episode_id event_type payload b b' r mid i h phase;
    chained = refl;
    episode = inr named;
    still_open = open_still;
  }
