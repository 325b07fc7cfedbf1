-- ===== src/Sbs/Replay/Audit.antt =====
-- What every run of a script has kept to: the allow-list, the order, the budget, the store.
use iclr.Base.{
  ℕ, ◌+◌, ◌<◌, String, ◌≡◌, ◌≢◌, refl, sym, ◌∙◌, ◌⊎◌, inl, inr, Option, none, some, List, [], ◌∷◌,
  ◌++◌, map, All, All-append, length, length-append, ok, arith, Result-cases, Option-cases,
}
use mathlib.Core.List.{append_assoc, map-append}
use mathlib.Core.Path.{subst}
use iclr.Sbs.Isolation.Evidence.{IsVerified, read_evidence-IsVerified}
use iclr.Sbs.Isolation.Paths.{FilePath}
use iclr.Sbs.Isolation.Reads.{IsIsolated, read_evidence-IsIsolated}
use iclr.Sbs.Isolation.Store.{World, IsolatedStore, read_evidence, observe}
use iclr.Sbs.Replay.Case.{
  Run, update_of, log_entry, observed, update_if, with_state, exhausted, observe_one, observe_all,
}
use iclr.Sbs.Replay.Loop.{IsInvariant, observe_all-inv}
use iclr.Sbs.Replay.Settled.{
  IsSettled, IsSameAudit, apply_update-IsSettled, apply_update-IsSameAudit, terminate-IsSettled,
  terminate-IsSameAudit,
}
use iclr.Sbs.Replay.Update.{terminate, apply_update, change_first}
use iclr.Sbs.Schema.Records.{
  TerminalKind, Hypothesis, CaseView, AuditState, Observation, EvidenceRecord, ReplayScript,
  ScriptedUpdate,
}

pub update_if-kept :
    (first : Hypothesis) (state state' : AuditState) (update : Option ScriptedUpdate)
    → IsSettled first state
    → state.terminal ≡ none
    → update_if state update ≡ ok state'
    → IsSettled first state' × IsSameAudit state state'
update_if-kept first state state' none settled alive h =
    let e : state ≡ state' = ground arith in (subst (IsSettled first) e settled, ground arith)
update_if-kept first state state' (some update) settled alive h = (
  apply_update-IsSettled first state state' update settled alive h,
  apply_update-IsSameAudit state state' update h,
)

-- An update ends a run only where it says so.
update_if-terminal :
    (state state' : AuditState) (update : Option ScriptedUpdate)
    → state.terminal ≡ none
    → update_if state update ≡ ok state'
    → (state'.terminal ≡ none)
      ⊎ ((u : ScriptedUpdate) × (t : TerminalKind) × (update ≡ some u) × (u.terminal ≡ some t))
unfolding apply_update
update_if-terminal state state' none alive h =
    let e : state ≡ state' = ground arith in inl (rw (← e) alive)
update_if-terminal state state' (some u) alive h = elim (Option-cases u.terminal) [
  | inr (t, ends) ↦ inr (u, t, refl, ends)
  | inl open_still ↦ elim (Option-cases (change_first u state.hypotheses)) [
    | inl e ↦ absurd (ground (arith, e))
    | inr (hs, e) ↦ inl (ground (arith, e, open_still, alive))
  ]
]

store-observe_one :
    (w : World) (view : CaseView) (script : ReplayScript) (evidence_id : String) (run : Run)
    (s : IsolatedStore)
    → (observe_one w view script evidence_id run s).1 ≡ (read_evidence w view evidence_id none s).1
unfolding observe_one
store-observe_one w view script evidence_id run s = ground arith

pub log_entry-IsSettled :
    (first : Hypothesis) (entry : String) (state : AuditState)
    → IsSettled first state
    → IsSettled first (log_entry entry state)
log_entry-IsSettled first entry state old = record {
  h = old.h;
  only = old.only;
  same_id = old.same_id;
  unknowns = old.unknowns;
  decided = old.decided;
}

pub observed-IsSettled :
    (first : Hypothesis) (id : String) (state : AuditState)
    → IsSettled first state
    → IsSettled first (observed id state)
observed-IsSettled first id state old = record {
  h = old.h;
  only = old.only;
  same_id = old.same_id;
  unknowns = old.unknowns;
  decided = old.decided;
}

map-append_one :
    (items : List Observation) (o : Observation)
    → map (λ (x : Observation). x.evidence_id) (items ++ o ∷ [])
      ≡ map (λ (x : Observation). x.evidence_id) items ++ o.evidence_id ∷ []
map-append_one items o = simp map-append

-- An observation names the evidence that was asked for.
observe-id :
    (evidence_id : String) (r : EvidenceRecord) (text : Option (List ℕ))
    → (observe evidence_id r text).evidence_id ≡ evidence_id
unfolding observe
observe-id evidence_id r none = refl
observe-id evidence_id r (some text) = refl

module _ (w : World) (view : CaseView) (script : ReplayScript) (actor_root : FilePath)
    (evaluator_root : Option FilePath) (budget : ℕ) where
  -- The observation is of verified evidence.
  abbrev IsGrounded : Observation → Type 0
  IsGrounded o =
      (r : EvidenceRecord) × IsVerified w view o.evidence_id none actor_root evaluator_root r o

  -- What holds of a run at any time: `rest` of the order is left to read.
  pub record IsAudit (run : Run) (rest : List String) : Type 0 where
    pub settled : IsSettled script.initial_hypothesis run.state
    pub spent : length run.state.observed_evidence + run.state.remaining_budget ≡ budget
    pub observed : map (λ o. o.evidence_id) run.observations ≡ run.state.observed_evidence
    pub order : run.state.observed_evidence ++ rest ≡ script.observation_order
    pub grounded : All IsGrounded run.observations

  -- The script's update for the evidence that was read last ends the run.
  abbrev IsEndedByUpdate : AuditState → Type 0
  IsEndedByUpdate state =
      (before : List String) × (id : String) × (update : ScriptedUpdate) × (t : TerminalKind)
      × (state.observed_evidence ≡ before ++ id ∷ [])
      × (update_of id script.updates ≡ some update)
      × (update.terminal ≡ some t)

  -- Why nothing more is read: the order is at its end, or the budget is, or an update ended the run.
  abbrev pub IsStopped : List String → AuditState → Type 0
  IsStopped rest state = (rest ≡ []) ⊎ ((state.remaining_budget ≡ 0) ⊎ IsEndedByUpdate state)

  record IsRunning (rest : List String) (run : Run) (s : IsolatedStore) : Type 0 where
    audit : IsAudit run rest
    isolated : IsIsolated actor_root evaluator_root s
    alive_or_ended : (run.state.terminal ≡ none) ⊎ IsEndedByUpdate run.state

  -- At the end, there is a reason for what was not read.
  pub record IsOver (run : Run) : Type 0 where
    pub rest : List String
    pub audit : IsAudit run rest
    pub stopped : IsStopped rest run.state

  module _ (evidence_id : String) (rest : List String) (run run' : Run) (s : IsolatedStore)
      (running : IsRunning (evidence_id ∷ rest) run s) (alive : run.state.terminal ≡ none)
      (left : 0 < run.state.remaining_budget)
      (done : (observe_one w view script evidence_id run s).0 ≡ ok run') where
    read_and_updated :
        (r : EvidenceRecord) × (o : Observation) × (state' : AuditState) × ((read_evidence w view
            evidence_id none s).0
          ≡ ok (r, o))
        × (update_if (observed evidence_id run.state) (update_of evidence_id script.updates)
            ≡ ok state')
        × (run' ≡ record { state = state'; observations = run.observations ++ o ∷ [] })
    unfolding observe_one
    read_and_updated = elim (Result-cases (read_evidence w view evidence_id none s).0) [
      | inl (e, q) ↦ absurd (ground (arith, q))
      | inr ((r, o), q) ↦
          elim (Result-cases
            (update_if (observed evidence_id run.state) (update_of evidence_id script.updates))) [
              | inl (e, u) ↦ absurd (ground (arith, q, u))
              | inr (state', u) ↦ (r, o, state', q, u, ground (arith, q, u))
            ]
    ]

    -- The audit after the step, of the run in its parts.
    step-IsAudit :
        (r : EvidenceRecord) (o : Observation) (state' : AuditState)
        → IsVerified w view evidence_id none actor_root evaluator_root r o
        → IsSettled script.initial_hypothesis state'
        → IsSameAudit (observed evidence_id run.state) state'
        → IsAudit (record { state = state'; observations = run.observations ++ o ∷ [] }) rest
    step-IsAudit r o state' verified settled same =
        let audit = running.audit in
        let named : o.evidence_id ≡ evidence_id =
          rw (verified.observed) (observe-id evidence_id r _) in
        record {
          settled = settled;
          spent =
              rw (same.observed, same.budget)
                (omega (
                  arith,
                  length-append run.state.observed_evidence (evidence_id ∷ []),
                  audit.spent,
                  left,
                ));
          observed =
              rw (same.observed)
                (ground (arith, map-append_one run.observations o, audit.observed, named));
          order =
              rw (same.observed)
                (append_assoc run.state.observed_evidence (evidence_id ∷ []) rest ∙ audit.order);
          grounded = All-append IsGrounded run.observations (o ∷ []) audit.grounded (
            subst
                (λ id.
                  (x : EvidenceRecord) × IsVerified w view id none actor_root evaluator_root x o)
                (sym named) (r, verified),
            tt,
          );
        }

    step-ended :
        (state' : AuditState)
        → IsSameAudit (observed evidence_id run.state) state'
        → update_if (observed evidence_id run.state) (update_of evidence_id script.updates)
          ≡ ok state'
        → (state'.terminal ≡ none) ⊎ IsEndedByUpdate state'
    step-ended state' same u =
        elim (update_if-terminal (observed evidence_id run.state) state'
          (update_of evidence_id script.updates) alive u) [
            | inl still ↦ inl still
            | inr (update, t, there, ends) ↦
                inr
                  (run.state.observed_evidence, evidence_id, update, t, same.observed, there, ends)
          ]

    step-IsRunning : IsRunning rest run' (observe_one w view script evidence_id run s).1
    step-IsRunning =
        let (r, o, state', q, u, e) = read_and_updated in
        let (settled, same) =
          update_if-kept script.initial_hypothesis (observed evidence_id run.state) state'
            (update_of evidence_id script.updates)
            (observed-IsSettled script.initial_hypothesis evidence_id run.state
              running.audit.settled)
            alive u in
        let verified =
          read_evidence-IsVerified w actor_root evaluator_root view evidence_id none s r o
            running.isolated q in
        record {
          audit = rw e (step-IsAudit r o state' verified settled same);
          isolated = rw (store-observe_one w view script evidence_id run s) (
              (read_evidence-IsIsolated w actor_root evaluator_root view evidence_id none).at s
                running.isolated);
          alive_or_ended = rw e (step-ended state' same u);
        }

  -- A state that differs in the log of phases and in what a termination decides.
  ended-IsAudit :
      (run : Run) (rest : List String) (state' : AuditState)
      → IsAudit run rest
      → IsSettled script.initial_hypothesis state'
      → (state'.observed_evidence ≡ run.state.observed_evidence)
      → (state'.remaining_budget ≡ run.state.remaining_budget)
      → IsAudit (record { state = state'; observations = run.observations }) rest
  ended-IsAudit run rest state' audit settled same_observed same_budget = record {
    settled = settled;
    spent = rw (same_observed, same_budget) (audit.spent);
    observed = audit.observed ∙ sym same_observed;
    order = rw same_observed (audit.order);
    grounded = audit.grounded;
  }

  -- Logging a phase.
  pub logged-IsAudit :
      (run : Run) (rest : List String) (entry : String)
      → IsAudit run rest
      → IsAudit (record { state = log_entry entry run.state; observations = run.observations }) rest
  logged-IsAudit run rest entry audit =
      ended-IsAudit run rest (log_entry entry run.state) audit
        (log_entry-IsSettled _ entry run.state audit.settled) refl refl

  -- Ending a run that still runs: `exhausted` and `insufficient`.
  pub terminated-IsAudit :
      (run : Run) (rest : List String) (state' : AuditState) (t : TerminalKind)
      (reason : Option String) (entry : String)
      → IsAudit run rest
      → terminate run.state t reason ≡ ok state'
      → IsAudit (record { state = log_entry entry state'; observations = run.observations }) rest
  terminated-IsAudit run rest state' t reason entry audit done =
      let settled =
        terminate-IsSettled script.initial_hypothesis run.state state' t reason audit.settled
          done in
      let same = terminate-IsSameAudit run.state state' t reason done in
      ended-IsAudit run rest (log_entry entry state') audit
        (log_entry-IsSettled _ entry state' settled) same.observed same.budget

  leave-IsOver :
      (rest : List String) (run : Run) → IsAudit run rest → IsStopped rest run.state → IsOver run
  leave-IsOver rest run audit why = record { rest = rest; audit = audit; stopped = why }

  why_left :
      (rest : List String) (run : Run)
      → (run.state.terminal ≡ none) ⊎ IsEndedByUpdate run.state
      → (rest ≡ []) ⊎ (run.state.terminal ≢ none)
      → IsStopped rest run.state
  why_left rest run ended (inl done) = inl done
  why_left rest run (inl alive) (inr over) = absurd (over alive)
  why_left rest run (inr ended) (inr over) = inr (inr ended)

  stop-IsOver :
      (rest : List String) (run run' : Run)
      → IsAudit run rest
      → run.state.remaining_budget ≡ 0
      → with_state run.observations (exhausted run.state) ≡ ok run'
      → IsOver run'
  stop-IsOver rest run run' audit spent done =
      elim (Result-cases (terminate run.state TerminalKind.unresolved (some "budget_exhausted"))) [
        | inl (e, q) ↦ absurd (ground (arith, q))
        | inr (state', q) ↦
            let after : Run = record {
              state = log_entry "UNRESOLVED" state';
              observations = run.observations;
            } in
            let e : after ≡ run' = ground (arith, q) in
            subst IsOver e (
              leave-IsOver rest after
                (terminated-IsAudit run rest state' TerminalKind.unresolved
                  (some "budget_exhausted") "UNRESOLVED" audit q)
                (inr (
                  inl (
                    (terminate-IsSameAudit run.state state' TerminalKind.unresolved
                      (some "budget_exhausted") q).budget
                    ∙ spent))))
      ]

  observe_all-IsInvariant : IsInvariant w view script IsRunning IsOver
  observe_all-IsInvariant = record {
    step = step-IsRunning;
    stop = λ order run run' s p alive none_left done.
        stop-IsOver order run run' p.audit none_left done;
    leave = λ order run s p why.
        leave-IsOver order run p.audit (why_left order run (p.alive_or_ended) why);
  }

  -- The loop, begun in an audited run, ends in one.
  pub observe_all-IsOver :
      (order : List String) (run run' : Run) (s : IsolatedStore)
      → IsAudit run order
      → run.state.terminal ≡ none
      → IsIsolated actor_root evaluator_root s
      → (observe_all w view script order run s).0 ≡ ok run'
      → IsOver run'
  observe_all-IsOver order run run' s audit alive isolated done =
      observe_all-inv w view script IsRunning IsOver observe_all-IsInvariant order run run' s
        (record { audit = audit; isolated = isolated; alive_or_ended = inl alive }) done
