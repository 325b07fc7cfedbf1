-- ===== src/Egsi/Episode/Loop.antt =====
-- The compiler's loop: the replay takes every round, and every transition is one that was compiled.
use mathlib.Core.Path.{subst}
use mathlib.Core.Option.{some-injective}
use mathlib.Core.List.{append-nil, append_assoc}
use iclr.Base.{
  ℕ, suc, ◌≤◌, ◌≡◌, refl, sym, ◌∙◌, ap, Bool, true, false, not, Option, none, some, List, [], ◌∷◌,
  ◌++◌, map, any, All, length, ◌==◌, arith,
}
use iclr.Base.Options.{>>=-eq-some, guard-eq-some}
use iclr.Base.Texts.{codes}
use iclr.Egsi.Candidates.Compile.{Compiled, compile_candidates, mask_of}
use iclr.Egsi.Candidates.Frontier.{compiled_parts, compile_candidates-IsCompiled}
use iclr.Egsi.Candidates.Steps.{
  Text, CanonicalPolicyStep, all_different, validate_step, require_identifier,
}
use iclr.Egsi.Episode.Candidates.{mask_of-any}
use iclr.Egsi.Episode.Compile.{
  Tools, Builder, transition_of, has_identifier, record_label, compile_step, compile_steps,
}
use iclr.Egsi.Episode.Events.{Seed}
use iclr.Egsi.Episode.Labelled.{Stands, record_label-Stands}
use iclr.Egsi.Episode.Recorded.{record_label-parts, record_label-transitions}
use iclr.Egsi.Episode.Replay.{Replayer}
use iclr.Egsi.Episode.Round.{IsSound}
use iclr.Egsi.Episode.Selections.{choice}
use iclr.Egsi.Episode.Transitions.{T1Transition, is_true}

-- Every candidate of the transition is legal.
abbrev pub IsAllLegal : T1Transition → Type 0
IsAllLegal t = any not t.legal_mask ≡ false

pub All-at :
    (P : T1Transition → Type 0) (xs : List T1Transition) (t : T1Transition) (ys : List T1Transition)
    → All P (xs ++ t ∷ ys)
    → P t
All-at P [] t ys h = h.0
All-at P (x ∷ xs) t ys h = All-at P xs t ys h.1

is_true-some : (o : Option Bool) → is_true o ≡ true → o ≡ some true
is_true-some none h = cc
is_true-some (some b) h = ap some h

validate_step-numbered :
    (step : CanonicalPolicyStep) → validate_step step ≡ true → not (length step.step_id == 0) ≡ true
unfolding validate_step require_identifier
validate_step-numbered step h = ground arith

module _ (tools : Tools) (episode_id : Text) (seed : Seed) (trace_length : ℕ) where
  open tools use {lib}

  -- What a round that returns did: it compiled the step, and recorded the label.
  pub record IsRound (index : ℕ) (step : CanonicalPolicyStep) (b b' : Builder) : Type 0 where
    pub c : Compiled
    pub compiled : compile_candidates lib seed.case_id episode_id (codes "B-1") step ≡ some c
    pub identified : any (has_identifier c.selected) c.actions ≡ true
    pub recorded : record_label tools episode_id seed trace_length index c b ≡ some b'
    pub valid : validate_step step ≡ true

  pub compile_step-IsRound :
      (index : ℕ) (step : CanonicalPolicyStep) (b b' : Builder)
      → compile_step tools episode_id seed trace_length index step b ≡ some b'
      → IsRound index step b b'
  unfolding compile_step
  compile_step-IsRound index step b b' h =
      let (c, compiled, h1) =
        >>=-eq-some (compile_candidates lib seed.case_id episode_id (codes "B-1") step) _ h in
      let (legal, recorded) =
        guard-eq-some (is_true (mask_of (has_identifier c.selected) c.actions c.legal_mask))
          (record_label tools episode_id seed trace_length index c b) h1 in
      record {
        c = c;
        compiled = compiled;
        identified =
            mask_of-any (has_identifier c.selected) c.actions c.legal_mask true
              (is_true-some _ legal);
        recorded = recorded;
        valid = (compiled_parts lib seed.case_id episode_id (codes "B-1") step c compiled).2;
      }

  abbrev pub made :
      (index : ℕ) (step : CanonicalPolicyStep) (b b' : Builder)
      → IsRound index step b b'
      → T1Transition
  made index step b b' d = transition_of tools episode_id seed trace_length index d.c b.history

  pub IsRound-IsSound :
      (index : ℕ) (step : CanonicalPolicyStep) (b b' : Builder) (d : IsRound index step b b')
      → not (length seed.case_id == 0) ≡ true
      → IsAllLegal (made index step b b' d)
      → IsSound lib step d.c (made index step b b' d)
  IsRound-IsSound index step b b' d named legal = record {
    compiled =
        compile_candidates-IsCompiled lib seed.case_id episode_id (codes "B-1") step d.c d.compiled;
    same_actions = refl;
    same_mask = refl;
    same_choice = refl;
    named = named;
    numbered = validate_step-numbered step d.valid;
    all_legal = legal;
    valid = (record_label-parts tools episode_id seed trace_length index d.c b b' d.recorded).5;
    identified = d.identified;
  }

  -- The loop only appends transitions, one for each step.
  pub compile_steps-extends :
      (steps : List CanonicalPolicyStep) (index : ℕ) (b b' : Builder)
      → compile_steps tools episode_id seed trace_length index steps b ≡ some b'
      → (rest : List T1Transition) × (b'.transitions ≡ b.transitions ++ rest)
        × (length rest ≡ length steps)
  unfolding compile_steps
  compile_steps-extends [] index b b' h =
      let same : b ≡ b' = some-injective b b' h in
      ([], ap (λ (x : Builder). x.transitions) (sym same) ∙ sym (append-nil b.transitions), refl)
  compile_steps-extends (step ∷ steps) index b b' h =
      let (b1, first, others) =
        >>=-eq-some (compile_step tools episode_id seed trace_length index step b) _ h in
      let (rest, grown, size) = compile_steps-extends steps (suc index) b1 b' others in
      let d = compile_step-IsRound index step b b1 first in
      let t = made index step b b1 d in
      (
        t ∷ rest,
        grown
            ∙ ap (λ ts. ts ++ rest)
                (record_label-transitions tools episode_id seed trace_length index d.c b b1
                  d.recorded)
            ∙ append_assoc b.transitions (t ∷ []) rest,
        ap suc size,
      )

  module _ (transitions : List T1Transition) (size : length transitions ≡ trace_length)
      (some_step : 1 ≤ trace_length) (different : all_different (map choice transitions) ≡ true)
      (legal : All IsAllLegal transitions) (named : not (length seed.case_id == 0) ≡ true) where
    pub compile_steps-Stands :
        (steps : List CanonicalPolicyStep) (index : ℕ) (b b' : Builder) (r : Replayer)
        → compile_steps tools episode_id seed trace_length index steps b ≡ some b'
        → transitions ≡ b'.transitions
        → Stands tools transitions episode_id index b r
        → (n : ℕ) × (r' : Replayer) × Stands tools transitions episode_id n b' r'
    unfolding compile_steps
    compile_steps-Stands [] index b b' r h whole i = (
      index,
      r,
      subst (λ (x : Builder). Stands tools transitions episode_id index x r) (some-injective b b' h)
          i,
    )
    compile_steps-Stands (step ∷ steps) index b b' r h whole i =
        let (b1, first, others) =
          >>=-eq-some (compile_step tools episode_id seed trace_length index step b) _ h in
        let d = compile_step-IsRound index step b b1 first in
        let t = made index step b b1 d in
        let (rest, grown, _) = compile_steps-extends steps (suc index) b1 b' others in
        let split : transitions ≡ b.transitions ++ t ∷ rest =
          whole
          ∙ grown
          ∙ ap (λ ts. ts ++ rest)
              (record_label-transitions tools episode_id seed trace_length index d.c b b1
                d.recorded)
          ∙ append_assoc b.transitions (t ∷ []) rest in
        let t_legal = All-at IsAllLegal b.transitions t rest (subst (All IsAllLegal) split legal) in
        let (r1, i1) =
          record_label-Stands tools episode_id transitions seed trace_length index step d.c b b1 r
            rest d.recorded split size some_step different
            (IsRound-IsSound index step b b1 d named t_legal) i in
        compile_steps-Stands steps (suc index) b1 b' r1 others whole i1
