-- ===== src/Egsi/Episode/Recorded.antt =====
-- What a recorded round adds to the lists of the compiler.
use mathlib.Core.Option.{some-injective}
use iclr.Base.{
  ℕ, zero, suc, ◌≡◌, refl, sym, ◌∙◌, ap, inl, inr, true, false, ◌&&◌, some, List, [], ◌∷◌, ◌++◌,
  map, length, leb, arith, Bool-cases, String,
}
use iclr.Base.Options.{◌>>=◌, >>=-eq-some, guard-eq-some}
use iclr.Base.Texts.{codes_eq}
use iclr.Egsi.Candidates.Compile.{Compiled}
use iclr.Egsi.Candidates.RoundTrip.{codes_eq_refl}
use iclr.Egsi.Candidates.Steps.{Text, all_different, text_member}
use iclr.Egsi.Episode.Appended.{length_snoc}
use iclr.Egsi.Episode.Compile.{
  Tools, Builder, append_event, transition_of, with_transition, with_history, history_of,
  record_label,
}
use iclr.Egsi.Episode.Events.{Payload, proposed, selected, label, Seed, label_scope, make_event}
use iclr.Egsi.Episode.Replay.{nth, last}
use iclr.Egsi.Episode.Selections.{choice}
use iclr.Egsi.Episode.Transitions.{T1Transition, transition_is_valid}
use iclr.Egsi.RepositoryPaths.{codes_eq-eq}

pub nth-append :
    (xs : List T1Transition) (t : T1Transition) (ys : List T1Transition) (n : ℕ)
    → length xs ≡ n
    → nth (xs ++ t ∷ ys) n ≡ some t
nth-append [] t ys zero h = refl
nth-append [] t ys (suc n) h = absurd (omega arith)
nth-append (x ∷ xs) t ys zero h = absurd (omega arith)
nth-append (x ∷ xs) t ys (suc n) h = nth-append xs t ys n (omega arith)

pub last-append : (ids : List Text) (id : Text) → last (ids ++ id ∷ []) ≡ some id
last-append [] id = refl
last-append (x ∷ []) id = refl
last-append (x ∷ y ∷ ids) id = last-append (y ∷ ids) id

pub chosen_there :
    (xs ys : List T1Transition) (t : T1Transition)
    → text_member (choice t) (map choice (xs ++ t ∷ ys)) ≡ true
chosen_there [] ys t = rw (codes_eq_refl (choice t))
chosen_there (x ∷ xs) ys t = ground (arith, chosen_there xs ys t)

-- A text that stands later is no earlier one, where all are different.
pub different-fresh :
    (xs ys : List T1Transition) (t : T1Transition)
    → all_different (map choice (xs ++ t ∷ ys)) ≡ true
    → text_member (choice t) (map choice xs) ≡ false
different-fresh [] ys t h = refl
different-fresh (x ∷ xs) ys t h = elim (Bool-cases (codes_eq (choice x) (choice t))) [
  | inl here ↦
      let same : choice x ≡ choice t = codes_eq-eq (choice x) (choice t) here in
      let again : text_member (choice x) (map choice (xs ++ t ∷ ys)) ≡ true =
        ap (λ id. text_member id (map choice (xs ++ t ∷ ys))) same ∙ chosen_there xs ys t in
      absurd (ground (arith, h, again))
  | inr apart ↦ rw apart (different-fresh xs ys t (ground (arith, h)))
]

pub map-choice-append :
    (xs : List T1Transition) (t : T1Transition)
    → map choice (xs ++ t ∷ []) ≡ map choice xs ++ choice t ∷ []
map-choice-append [] t = refl
map-choice-append (x ∷ xs) t = ap (λ ids. choice x ∷ ids) (map-choice-append xs t)

module _ (tools : Tools) (episode_id : Text) where
  pub append_event-rest :
      (event_type : String) (payload : Payload) (b b' : Builder)
      → append_event tools episode_id event_type payload b ≡ some b'
      → (b'.transitions ≡ b.transitions) × (length b'.events ≡ suc (length b.events))
  unfolding append_event
  append_event-rest event_type payload b b' h =
      let (event, made, grown) = >>=-eq-some (make_event _ _ _ _ _ _) _ h in
      let same = some-injective _ b' grown in
      (
        ap (λ (x : Builder). x.transitions) (sym same),
        ap (λ (x : Builder). length x.events) (sym same) ∙ length_snoc b.events event,
      )

  pub record_label-parts :
      (seed : Seed) (trace_length index : ℕ) (c : Compiled) (b b' : Builder)
      → record_label tools episode_id seed trace_length index c b ≡ some b'
      → (b1 : Builder) × (b2 : Builder) × (b3 : Builder) × (append_event tools episode_id
            "ACTION_PROPOSED"
            (proposed c.actions c.legal_mask)
            b
          ≡ some b1)
        × (append_event tools episode_id "ACTION_SELECTED" (selected c.selected.action_id) b1
            ≡ some b2)
        × (transition_is_valid tools.lib
              (transition_of tools episode_id seed trace_length index c b.history)
            ≡ true)
        × (append_event tools episode_id "PATCH_GROUNDED_LABEL_RECORDED"
              (label index c.selected.action_id label_scope)
              (with_transition
                (transition_of tools episode_id seed trace_length index c b.history)
                b2)
            ≡ some b3)
        × (with_history (history_of index c) b3 ≡ b')
  unfolding record_label
  record_label-parts seed trace_length index c b b' h =
      let t = transition_of tools episode_id seed trace_length index c b.history in
      let (b1, e1, h1) =
        >>=-eq-some
          (append_event tools episode_id "ACTION_PROPOSED" (proposed c.actions c.legal_mask) b) _
          h in
      let (b2, e2, h2) =
        >>=-eq-some
          (append_event tools episode_id "ACTION_SELECTED" (selected c.selected.action_id) b1) _
          h1 in
      let (valid, h3) =
        guard-eq-some (leb (length b.history) 64 && transition_is_valid tools.lib t)
          (append_event tools episode_id "PATCH_GROUNDED_LABEL_RECORDED"
              (label index c.selected.action_id label_scope) (with_transition t b2)
            >>= λ b3. some (with_history (history_of index c) b3))
          h2 in
      let (b3, e3, h4) =
        >>=-eq-some
          (append_event tools episode_id "PATCH_GROUNDED_LABEL_RECORDED"
            (label index c.selected.action_id label_scope) (with_transition t b2))
          _ h3 in
      (b1, b2, b3, e1, e2, ground (arith, valid), e3, some-injective _ b' h4)

  pub record_label-transitions :
      (seed : Seed) (trace_length index : ℕ) (c : Compiled) (b b' : Builder)
      → record_label tools episode_id seed trace_length index c b ≡ some b'
      → b'.transitions
        ≡ b.transitions ++ transition_of tools episode_id seed trace_length index c b.history ∷ []
  record_label-transitions seed trace_length index c b b' h =
      let t = transition_of tools episode_id seed trace_length index c b.history in
      let (b1, b2, b3, e1, e2, valid, e3, same) =
        record_label-parts seed trace_length index c b b' h in
      let kept1 = (append_event-rest _ _ b b1 e1).0 in
      let kept2 = (append_event-rest _ _ b1 b2 e2).0 in
      let kept3 = (append_event-rest _ _ (with_transition t b2) b3 e3).0 in
      ap (λ (x : Builder). x.transitions) (sym same)
      ∙ kept3
      ∙ ap (λ ts. ts ++ t ∷ []) (kept2 ∙ kept1)
