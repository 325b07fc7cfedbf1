-- ===== src/Sbs/Replay/Loop.antt =====
-- The loop of `replay_case`: a rule for its invariants.
use iclr.Base.{
  ◌<◌, String, ◌≡◌, ◌≢◌, refl, ◌⊎◌, inl, inr, false, none, List, [], ◌∷◌, ok, arith, Bool-cases,
  Option-cases, Result-cases, leb,
}
use mathlib.Core.Path.{subst}
use iclr.Sbs.Isolation.Store.{World, IsolatedStore}
use iclr.Sbs.Replay.Case.{Run, with_state, exhausted, observe_one, observe_all}
use iclr.Sbs.Schema.Records.{CaseView, ReplayScript}

-- An invariant of the loop, over the part of the order that is left, and what it gives at the end.
pub record IsInvariant (w : World) (view : CaseView) (script : ReplayScript)
    (P : List String → Run → IsolatedStore → Type 0) (Q : Run → Type 0) : Type 0 where
  pub step :
      (evidence_id : String) (order : List String) (run run' : Run) (s : IsolatedStore)
      → P (evidence_id ∷ order) run s
      → run.state.terminal ≡ none
      → 0 < run.state.remaining_budget
      → (observe_one w view script evidence_id run s).0 ≡ ok run'
      → P order run' (observe_one w view script evidence_id run s).1
  pub stop :
      (order : List String) (run run' : Run) (s : IsolatedStore)
      → P order run s
      → run.state.terminal ≡ none
      → run.state.remaining_budget ≡ 0
      → with_state run.observations (exhausted run.state) ≡ ok run'
      → Q run'
  pub leave :
      (order : List String) (run : Run) (s : IsolatedStore)
      → P order run s
      → (order ≡ []) ⊎ (run.state.terminal ≢ none)
      → Q run

-- A run that goes on reads one evidence, and the rest of the loop starts from there.
observe_all_step :
    (w : World) (view : CaseView) (script : ReplayScript) (evidence_id : String)
    (order : List String) (run run' : Run) (s : IsolatedStore)
    → run.state.terminal ≡ none
    → leb run.state.remaining_budget 0 ≡ false
    → (observe_all w view script (evidence_id ∷ order) run s).0 ≡ ok run'
    → (next : Run) × ((observe_one w view script evidence_id run s).0 ≡ ok next)
      × ((observe_all w view script order next (observe_one w view script evidence_id run s).1).0
          ≡ ok run')
unfolding observe_all
observe_all_step w view script evidence_id order run run' s running left done =
    elim (Result-cases (observe_one w view script evidence_id run s).0) [
      | inl (e, q) ↦ absurd (ground (arith, running, left, q))
      | inr (next, q) ↦ (next, q, ground (arith, running, left, q))
    ]

pub observe_all-inv :
    (w : World) (view : CaseView) (script : ReplayScript)
    (P : List String → Run → IsolatedStore → Type 0) (Q : Run → Type 0)
    → IsInvariant w view script P Q
    → (order : List String) (run run' : Run) (s : IsolatedStore) → P order run s
    → (observe_all w view script order run s).0 ≡ ok run'
    → Q run'
unfolding observe_all
observe_all-inv w view script P Q inv [] run run' s p done =
    let e : run ≡ run' = ground arith in subst Q e (inv.leave [] run s p (inl refl))
observe_all-inv w view script P Q inv (evidence_id ∷ order) run run' s p done =
    elim (Option-cases run.state.terminal) [
      | inr (t, ended) ↦
          let e : run ≡ run' = ground (arith, ended) in
          subst Q e (inv.leave (evidence_id ∷ order) run s p (inr (λ q. cc)))
      | inl running ↦ elim (Bool-cases (leb run.state.remaining_budget 0)) [
        | inl spent ↦
            inv.stop (evidence_id ∷ order) run run' s p running (ground arith)
              (ground (arith, running, spent))
        | inr left ↦
            let (next, q, rest) =
              observe_all_step w view script evidence_id order run run' s running left done in
            observe_all-inv w view script P Q inv order next run'
              (observe_one w view script evidence_id run s).1
              (inv.step evidence_id order run next s p running (ground arith) q) rest
      ]
    ]
