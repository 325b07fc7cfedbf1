-- ===== src/Egsi/Episode/Trusted.antt =====
-- The transitions that the compiler makes are those that the validator trusts.
use mathlib.Core.Path.{subst}
use mathlib.Core.List.{append_assoc}
use mathlib.Core.Option.{some-injective}
use iclr.Base.{
  ℕ, suc, ◌≡◌, sym, ◌∙◌, ap, Bool, true, not, some, List, [], ◌∷◌, ◌++◌, All, All-append, length,
  ◌==◌,
}
use iclr.Base.Options.{>>=-eq-some}
use iclr.Base.Texts.{codes}
use iclr.Egsi.Candidates.RoundTrip.{canonical_step_from_selected_action-make_action}
use iclr.Egsi.Candidates.Steps.{
  Text, TraceStep, CanonicalPolicyStep, canonicalize_step, canonicalize_from,
}
use iclr.Egsi.Episode.Candidates.{legal_of}
use iclr.Egsi.Episode.Compile.{
  Tools, Builder, empty_builder, append_event, compile_step, compile_steps, open_episode,
  build_episode,
}
use iclr.Egsi.Episode.Events.{Seed, Manifest}
use iclr.Egsi.Episode.Recorded.{append_event-rest, record_label-transitions}
use iclr.Egsi.Episode.Loop.{
  IsAllLegal, All-at, IsRound, made, compile_step-IsRound, IsRound-IsSound, compile_steps-extends,
}
use iclr.Egsi.Episode.Transitions.{T1Transition, validate_compiled_transition}
use iclr.Egsi.Episode.Validated.{
  validate_compiled_transition_sound, selected-make_action, selected_legal,
}

module _ (tools : Tools) (episode_id : Text) (path_exists : Text → Bool)
    (obligation_ids : List Text) where
  open tools use {lib}

  -- The step is one that the canonicalizer makes.
  abbrev pub IsFromTrace : CanonicalPolicyStep → Type 0
  IsFromTrace step =
      (index : ℕ) × (raw : TraceStep) × (canonicalize_step path_exists episode_id obligation_ids
          index raw
        ≡ some step)

  pub canonicalize_from-IsFromTrace :
      (index : ℕ) (trace : List TraceStep) (steps : List CanonicalPolicyStep)
      → canonicalize_from path_exists episode_id obligation_ids index trace ≡ some steps
      → All IsFromTrace steps × (length steps ≡ length trace)
  unfolding canonicalize_from
  canonicalize_from-IsFromTrace index [] steps h =
      let e : [] ≡ steps = some-injective [] steps h in
      (subst (All IsFromTrace) e tt, ap length (sym e))
  canonicalize_from-IsFromTrace index (raw ∷ trace) steps h =
      let (step, first, h1) =
        >>=-eq-some (canonicalize_step path_exists episode_id obligation_ids index raw) _ h in
      let (rest, others, h2) =
        >>=-eq-some (canonicalize_from path_exists episode_id obligation_ids (suc index) trace) _
          h1 in
      let (from, count) = canonicalize_from-IsFromTrace (suc index) trace rest others in
      let e : (step ∷ rest) ≡ steps = some-injective _ steps h2 in
      (subst (All IsFromTrace) e ((index, raw, first), from), ap length (sym e) ∙ ap suc count)

  module _ (seed : Seed) (trace_length : ℕ) (named : not (length seed.case_id == 0) ≡ true) where
    abbrev IsValid : T1Transition → Type 0
    IsValid t = validate_compiled_transition lib t ≡ true

    made-validates :
        (index : ℕ) (step : CanonicalPolicyStep) (b b' : Builder)
        (d : IsRound tools episode_id seed trace_length index step b b')
        → IsFromTrace step
        → IsAllLegal (made tools episode_id seed trace_length index step b b' d)
        → IsValid (made tools episode_id seed trace_length index step b b' d)
    made-validates index step b b' d (position, raw, canonicalized) legal =
        let t = made tools episode_id seed trace_length index step b b' d in
        let s = IsRound-IsSound tools episode_id seed trace_length index step b b' d named legal in
        let all_legal = legal_of lib.is_legal d.c.actions d.c.legal_mask s.compiled.mask legal in
        let chosen_legal =
          selected_legal lib seed.case_id episode_id (codes "B-1") step d.c d.compiled all_legal in
        let reads =
          canonical_step_from_selected_action-make_action lib path_exists seed.case_id episode_id
            (codes "B-1") obligation_ids position raw step d.c.selected canonicalized d.valid named
            (selected-make_action lib seed.case_id episode_id (codes "B-1") step d.c d.compiled)
            chosen_legal in
        validate_compiled_transition_sound lib step d.c t s d.compiled reads

    compile_steps-validates :
        (steps : List CanonicalPolicyStep) (index : ℕ) (b b' : Builder)
        → compile_steps tools episode_id seed trace_length index steps b ≡ some b'
        → All IsFromTrace steps
        → All IsAllLegal b'.transitions
        → All IsValid b.transitions
        → All IsValid b'.transitions
    unfolding compile_steps
    compile_steps-validates [] index b b' h from legal valid =
        subst (λ (x : Builder). All IsValid x.transitions) (some-injective b b' h) valid
    compile_steps-validates (step ∷ steps) index b b' h from legal valid =
        let (b1, first, others) =
          >>=-eq-some (compile_step tools episode_id seed trace_length index step b) _ h in
        let d = compile_step-IsRound tools episode_id seed trace_length index step b b1 first in
        let t = made tools episode_id seed trace_length index step b b1 d in
        let grown =
          record_label-transitions tools episode_id seed trace_length index d.c b b1 d.recorded in
        let (rest, extended, _) =
          compile_steps-extends tools episode_id seed trace_length steps (suc index) b1 b' others in
        let split : b'.transitions ≡ b.transitions ++ t ∷ rest =
          extended ∙ ap (λ ts. ts ++ rest) grown ∙ append_assoc b.transitions (t ∷ []) rest in
        let t_legal = All-at IsAllLegal b.transitions t rest (subst (All IsAllLegal) split legal) in
        let here = made-validates index step b b1 d from.0 t_legal in
        compile_steps-validates steps (suc index) b1 b' others from.1 legal (
          subst (All IsValid) (sym grown)
            (All-append IsValid b.transitions (t ∷ []) valid (here, tt)))

  pub build_episode-validates :
      (seed : Seed) (manifest : Manifest) (trace_length : ℕ) (steps : List CanonicalPolicyStep)
      (b : Builder)
      → not (length seed.case_id == 0) ≡ true
      → build_episode tools episode_id seed manifest trace_length steps ≡ some b
      → All IsFromTrace steps
      → All IsAllLegal b.transitions
      → All (λ t. validate_compiled_transition lib t ≡ true) b.transitions
  unfolding build_episode open_episode
  build_episode-validates seed manifest trace_length steps b named h from legal =
      let (b1, e1, h1) = >>=-eq-some (open_episode tools episode_id seed manifest) _ h in
      let (b2, e2, e3) =
        >>=-eq-some (compile_steps tools episode_id seed trace_length 0 steps b1) _ h1 in
      let (b0, e0, e0') = >>=-eq-some (append_event tools episode_id _ _ empty_builder) _ e1 in
      let none_yet : b1.transitions ≡ [] =
        (append_event-rest tools episode_id _ _ b0 b1 e0').0
        ∙ (append_event-rest tools episode_id _ _ empty_builder b0 e0).0 in
      let kept = (append_event-rest tools episode_id _ _ b2 b e3).0 in
      subst (All (λ t. validate_compiled_transition lib t ≡ true)) (sym kept) (
        compile_steps-validates seed trace_length named steps 0 b1 b2 e2 from
          (subst (All IsAllLegal) kept legal)
          (subst (All (λ t. validate_compiled_transition lib t ≡ true)) (sym none_yet) tt))
