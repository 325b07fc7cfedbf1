-- ===== src/Sbs/Replay/Outcome.antt =====
-- How `replay_case` ends: always with a terminal and the decision that goes with it.
use iclr.Base.{
  ℕ, String, ◌≡◌, ◌≢◌, refl, ◌⊎◌, inl, inr, Option, none, some, List, [], ok, arith, Option-cases,
  ◌∙◌, Result-cases, Bool-cases, leb,
}
use mathlib.Core.Path.{subst}
use iclr.Base.Integers.{pos}
use iclr.Sbs.Isolation.Paths.{FilePath}
use iclr.Sbs.Isolation.Reads.{IsIsolated}
use iclr.Sbs.Isolation.Store.{World, IsolatedStore}
use iclr.Sbs.Replay.Audit.{
  IsAudit, IsOver, IsStopped, terminated-IsAudit, logged-IsAudit, observe_all-IsOver,
}
use iclr.Sbs.Replay.Case.{
  Run, log_entry, close, first_state, initial_state, observe_all, run_script,
}
use iclr.Sbs.Replay.Settled.{terminate-terminal, terminate-IsSameAudit}
use iclr.Sbs.Replay.Update.{terminate}
use iclr.Sbs.Schema.Records.{TerminalKind, CaseView, AuditState, ReplayScript, SmokeConfig}

-- How `close` went: a termination, a run that an update ended unresolved, or a finished run.
close-cases :
    (state state' : AuditState)
    → close state ≡ ok state'
    → ((reason : String) × (state'' : AuditState) × (terminate state TerminalKind.unresolved
            (some reason)
          ≡ ok state'')
        × (state' ≡ log_entry "UNRESOLVED" state''))
      ⊎ ((state.terminal ≢ none) × ((state' ≡ state) ⊎ (state' ≡ log_entry "FINISH" state)))
unfolding close
close-cases state state' done = elim (Option-cases state.terminal) [
  | inr (TerminalKind.finish, q) ↦ inr (λ z. cc, inr (ground (arith, q)))
  | inr (TerminalKind.unresolved, q) ↦ inr (λ z. cc, inl (ground (arith, q)))
  | inl alive ↦ elim (Bool-cases (leb state.remaining_budget 0)) [
    | inl spent ↦
        elim (Result-cases (terminate state TerminalKind.unresolved (some "budget_exhausted"))) [
          | inl (e, q) ↦ absurd (ground (arith, alive, spent, q))
          | inr (state'', q) ↦ inl ("budget_exhausted", state'', q, ground (arith, alive, spent, q))
        ]
    | inr left ↦
        elim (Result-cases
          (terminate state TerminalKind.unresolved (some "insufficient_material"))) [
            | inl (e, q) ↦ absurd (ground (arith, alive, left, q))
            | inr (state'', q) ↦
                inl ("insufficient_material", state'', q, ground (arith, alive, left, q))
          ]
  ]
]

module _ (w : World) (view : CaseView) (script : ReplayScript) (actor_root : FilePath)
    (evaluator_root : Option FilePath) (budget : ℕ) where
  -- A finished replay: audited, with a reason for what was not read, and with a terminal.
  pub record IsFinished (run : Run) : Type 0 where
    pub rest : List String
    pub audit : IsAudit w view script actor_root evaluator_root budget run rest
    pub stopped : IsStopped w view script actor_root evaluator_root budget rest run.state
    pub ended : run.state.terminal ≢ none

  IsStopped-kept :
      (rest : List String) (state state' : AuditState)
      → (state'.observed_evidence ≡ state.observed_evidence)
      → (state'.remaining_budget ≡ state.remaining_budget)
      → IsStopped w view script actor_root evaluator_root budget rest state
      → IsStopped w view script actor_root evaluator_root budget rest state'
  IsStopped-kept rest state state' observed left (inl whole) = inl whole
  IsStopped-kept rest state state' observed left (inr (inl spent)) = inr (inl (left ∙ spent))
  IsStopped-kept rest state state' observed left
        (inr (inr (before, id, update, t, last, there, ends))) =
      inr (inr (before, id, update, t, observed ∙ last, there, ends))

  terminated-IsFinished :
      (run : Run) (state' : AuditState) (reason : String)
      → IsOver w view script actor_root evaluator_root budget run
      → terminate run.state TerminalKind.unresolved (some reason) ≡ ok state'
      → IsFinished
          (record { state = log_entry "UNRESOLVED" state'; observations = run.observations })
  terminated-IsFinished run state' reason over done =
      let same =
        terminate-IsSameAudit run.state state' TerminalKind.unresolved (some reason) done in
      record {
        rest = over.rest;
        audit =
            terminated-IsAudit w view script actor_root evaluator_root budget run over.rest state'
              TerminalKind.unresolved (some reason) "UNRESOLVED" over.audit done;
        stopped =
            IsStopped-kept over.rest run.state (log_entry "UNRESOLVED" state') same.observed
              same.budget over.stopped;
        ended = terminate-terminal run.state state' TerminalKind.unresolved (some reason) done;
      }

  close-IsFinished :
      (run : Run) (state' : AuditState)
      → IsOver w view script actor_root evaluator_root budget run
      → close run.state ≡ ok state'
      → IsFinished (record { state = state'; observations = run.observations })
  close-IsFinished run state' over done = elim (close-cases run.state state' done) [
    | inl (reason, state'', q, e) ↦ rw e (terminated-IsFinished run state'' reason over q)
    | inr (ended, inl e) ↦
        rw e
          (record { rest = over.rest; audit = over.audit; stopped = over.stopped; ended = ended })
    | inr (ended, inr e) ↦ rw e (record {
      rest = over.rest;
      audit =
          logged-IsAudit w view script actor_root evaluator_root budget run over.rest "FINISH"
            over.audit;
      stopped =
          IsStopped-kept over.rest run.state (log_entry "FINISH" run.state) refl refl over.stopped;
      ended = ended;
    })
  ]

  start-IsAudit :
      IsAudit w view script actor_root evaluator_root budget
        (record { state = first_state script.initial_hypothesis budget; observations = [] })
        script.observation_order
  start-IsAudit = record {
    settled = record {
      h = script.initial_hypothesis;
      only = refl;
      same_id = refl;
      unknowns = refl;
      decided = refl;
    };
    spent = omega arith;
    observed = refl;
    order = refl;
    grounded = tt;
  }

  -- Whatever the script and the file system, a replay that returns is finished: it has a terminal
  -- and the decision that goes with it, and all that `IsAudit` says.
  pub run_script-IsFinished :
      (config : SmokeConfig) (s : IsolatedStore) (run : Run)
      → config.max_observations ≡ pos budget
      → IsIsolated actor_root evaluator_root s
      → (run_script w config view script s).0 ≡ ok run
      → IsFinished run
  unfolding run_script initial_state
  run_script-IsFinished config s run e isolated done =
      let start : Run = record {
        state = first_state script.initial_hypothesis budget;
        observations = [];
      } in
      elim (Result-cases (observe_all w view script script.observation_order start s).0) [
        | inl (f, q) ↦ absurd (ground (arith, e, q))
        | inr (run', q) ↦ elim (Result-cases (close run'.state)) [
          | inl (f, q') ↦ absurd (ground (arith, e, q, q'))
          | inr (state', q') ↦
              let over =
                observe_all-IsOver w view script actor_root evaluator_root budget
                  script.observation_order start run' s start-IsAudit refl isolated q in
              let last : Run = record { state = state'; observations = run'.observations } in
              let same : last ≡ run = ground (arith, e, q, q') in
              subst IsFinished same (close-IsFinished run' state' over q')
        ]
      ]
