-- ===== src/Sbs/Replay/Failures.antt =====
-- Why a run of a script can fail: the loop and what follows it of src/sbs/replay.py.
use iclr.Base.{
  ℕ, ◌<◌, ◌-◌, length, String, ◌≡◌, ◌≢◌, refl, ◌⊎◌, inl, inr, false, Option, none, some, List, [],
  ◌∷◌, ◌++◌, str_eq, Result, ok, err, arith, Bool-cases, Option-cases, Result-cases, leb, ap,
}
use mathlib.Core.Path.{subst}
use iclr.Base.Integers.{pos}
use iclr.Sbs.Errors.{Failure, stop_iteration}
use iclr.Sbs.Isolation.Store.{World, IsolatedStore, read_evidence}
use iclr.Sbs.Replay.Audit.{update_if-kept, log_entry-IsSettled, observed-IsSettled}
use iclr.Sbs.Replay.Case.{
  Run, update_of, log_entry, observed, update_if, exhausted, with_state, observe_one, observe_all,
  close, first_state, initial_state, run_script,
}
use iclr.Sbs.Replay.Loop.{observe_all-inv}
use iclr.Sbs.Replay.Settled.{
  IsSettled, change_first_one, update_hypothesis-IsSettled, terminate-IsSettled,
}
use iclr.Sbs.Replay.Update.{terminate, cleared, apply_update, update_hypothesis, with_update}
use iclr.Sbs.Schema.Records.{
  SmokeConfig, TerminalKind, Hypothesis, EvidenceRecord, CaseView, AuditState, Observation,
  ReplayScript, ScriptedUpdate,
}

-- A settled state always terminates.
terminate-no_error :
    (first : Hypothesis) (state : AuditState) (t : TerminalKind) (reason : Option String)
    (e : Failure)
    → IsSettled first state
    → terminate state t reason ≢ err e
unfolding terminate cleared
terminate-no_error first state t reason e settled q = ground (arith, settled.only)

-- An update of a settled state that still runs fails only where it names another hypothesis.
apply_update-error :
    (first : Hypothesis) (state : AuditState) (update : ScriptedUpdate) (e : Failure)
    → IsSettled first state
    → state.terminal ≡ none
    → apply_update state update ≡ err e
    → (str_eq first.hypothesis_id update.hypothesis_id ≡ false) × (e ≡ stop_iteration)
unfolding apply_update
apply_update-error first state update e settled running q =
    elim (Bool-cases (str_eq settled.h.hypothesis_id update.hypothesis_id)) [
      | inr other ↦ (
        rw (← settled.same_id) other,
        ground (arith, settled.only, change_first_one update settled.h, other),
      )
      | inl same ↦ elim (Option-cases update.terminal) [
        | inl open_still ↦
            absurd
              (ground (arith, settled.only, change_first_one update settled.h, same, open_still))
        | inr (t, ends) ↦ absurd (
            terminate-no_error first
              (with_update state update (update_hypothesis update settled.h ∷ [])) t
              update.termination_reason e
              (update_hypothesis-IsSettled first state update settled running)
              (ground (arith, settled.only, change_first_one update settled.h, same, ends)))
      ]
    ]

pub close-no_error :
    (first : Hypothesis) (state : AuditState) (e : Failure)
    → IsSettled first state
    → close state ≢ err e
unfolding close
close-no_error first state e settled q = elim (Option-cases state.terminal) [
  | inr (TerminalKind.finish, ended) ↦ ground (arith, ended)
  | inr (TerminalKind.unresolved, ended) ↦ ground (arith, ended)
  | inl alive ↦ ground (
    arith,
    alive,
    terminate-no_error first state TerminalKind.unresolved (some "budget_exhausted") e settled,
    terminate-no_error first state TerminalKind.unresolved (some "insufficient_material") e settled,
  )
]

with_state-error :
    (observations : List Observation) (m : Result Failure AuditState) (e : Failure)
    → with_state observations m ≡ err e
    → m ≡ err e
with_state-error observations (err f) e q = ground arith
with_state-error observations (ok state) e q = cc

exhausted-kept :
    (first : Hypothesis) (run run' : Run)
    → IsSettled first run.state
    → with_state run.observations (exhausted run.state) ≡ ok run'
    → IsSettled first run'.state
exhausted-kept first run run' p done =
    elim (Result-cases (terminate run.state TerminalKind.unresolved (some "budget_exhausted"))) [
      | inl (e, q) ↦ absurd (ground (arith, q))
      | inr (state', q) ↦
          let after : Run = record {
            state = log_entry "UNRESOLVED" state';
            observations = run.observations;
          } in
          let same : after ≡ run' = ground (arith, q) in
          subst (λ (x : Run). IsSettled first x.state) same
            (log_entry-IsSettled first "UNRESOLVED" state' (
              terminate-IsSettled first run.state state' TerminalKind.unresolved
                (some "budget_exhausted") p q))
    ]

module _ (w : World) (view : CaseView) (script : ReplayScript) where
  -- The evidence was read in this order, from the one store to the other.
  abbrev pub IsReadTo : List String → IsolatedStore → IsolatedStore → Type 0
  IsReadTo [] s s' = s ≡ s'
  IsReadTo (id ∷ ids) s s' =
      (ro : EvidenceRecord × Observation) × ((read_evidence w view id none s).0 ≡ ok ro)
      × IsReadTo ids (read_evidence w view id none s).1 s'

  -- The script's update for the evidence names another hypothesis than the one that the script begins
  -- with.
  abbrev pub NamesOther : String → Type 0
  NamesOther id =
      (update : ScriptedUpdate) × (update_of id script.updates ≡ some update)
      × (str_eq script.initial_hypothesis.hypothesis_id update.hypothesis_id ≡ false)

  -- The evidence before `id` was read from the store `s`, and some of the budget was left. Then the
  -- read of `id` failed with this failure; or it was read, and its update names another hypothesis.
  pub record IsExplained (budget : ℕ) (order : List String) (s : IsolatedStore) (e : Failure)
      : Type 0 where
    pub before : List String
    pub id : String
    pub after : List String
    pub in_order : order ≡ before ++ id ∷ after
    pub within : length before < budget
    pub store : IsolatedStore
    pub read : IsReadTo before s store
    pub cause :
        ((read_evidence w view id none store).0 ≡ err e)
        ⊎ ((ro : EvidenceRecord × Observation) × ((read_evidence w view id none store).0 ≡ ok ro)
            × NamesOther id
            × (e ≡ stop_iteration))

  -- An explanation from the first of an order, and one from the rest after the first was read.
  IsExplained-first :
      (budget : ℕ) (id : String) (order : List String) (s : IsolatedStore) (e : Failure)
      → 0 < budget
      → ((read_evidence w view id none s).0 ≡ err e)
        ⊎ ((ro : EvidenceRecord × Observation) × ((read_evidence w view id none s).0 ≡ ok ro)
            × NamesOther id
            × (e ≡ stop_iteration))
      → IsExplained budget (id ∷ order) s e
  IsExplained-first budget id order s e left cause = record {
    before = [];
    id = id;
    after = order;
    in_order = refl;
    within = left;
    store = s;
    read = refl;
    cause = cause;
  }

  shorter :
      (budget : ℕ) (id : String) (before : List String)
      → length before < budget - 1
      → length (id ∷ before) < budget
  shorter budget id before h = ground (arith, h)

  IsExplained-later :
      (budget : ℕ) (id : String) (order : List String) (s : IsolatedStore) (e : Failure)
      (ro : EvidenceRecord × Observation)
      → (read_evidence w view id none s).0 ≡ ok ro
      → IsExplained (budget - 1) order (read_evidence w view id none s).1 e
      → IsExplained budget (id ∷ order) s e
  IsExplained-later budget id order s e ro done x = record {
    before = id ∷ x.before;
    id = x.id;
    after = x.after;
    in_order = ap (λ ids. id ∷ ids) (x.in_order);
    within = shorter budget id x.before x.within;
    store = x.store;
    read = (ro, done, x.read);
    cause = x.cause;
  }

  update_if-error :
      (id : String) (state : AuditState) (e : Failure)
      → IsSettled script.initial_hypothesis state
      → state.terminal ≡ none
      → update_if state (update_of id script.updates) ≡ err e
      → NamesOther id × (e ≡ stop_iteration)
  update_if-error id state e settled running q = elim (Option-cases (update_of id script.updates)) [
    | inl none_given ↦ absurd (ground (arith, none_given))
    | inr (update, given) ↦
        let (other, same) =
          apply_update-error script.initial_hypothesis state update e settled running
            (ground (arith, given)) in
        ((update, given, other), same)
  ]

  observe_one-error :
      (id : String) (order : List String) (run : Run) (s : IsolatedStore) (e : Failure)
      → IsSettled script.initial_hypothesis run.state
      → run.state.terminal ≡ none
      → 0 < run.state.remaining_budget
      → (observe_one w view script id run s).0 ≡ err e
      → IsExplained run.state.remaining_budget (id ∷ order) s e
  unfolding observe_one
  observe_one-error id order run s e settled running left q =
      elim (Result-cases (read_evidence w view id none s).0) [
        | inl (f, r) ↦
            IsExplained-first run.state.remaining_budget id order s e left (inl (ground (arith, r)))
        | inr ((r, o), read) ↦
            let (other, same) =
              update_if-error id (observed id run.state) e
                (observed-IsSettled script.initial_hypothesis id run.state settled) running
                (with_state-error (run.observations ++ o ∷ []) _ e (ground (arith, read))) in
            IsExplained-first run.state.remaining_budget id order s e left
              (inr ((r, o), read, other, same))
      ]

  -- A step that returned has read its evidence, and left the store of that read.
  observe_one-read :
      (id : String) (run next : Run) (s : IsolatedStore)
      → (observe_one w view script id run s).0 ≡ ok next
      → (ro : EvidenceRecord × Observation) × ((read_evidence w view id none s).0 ≡ ok ro)
        × ((observe_one w view script id run s).1 ≡ (read_evidence w view id none s).1)
  unfolding observe_one
  observe_one-read id run next s q = elim (Result-cases (read_evidence w view id none s).0) [
    | inl (f, r) ↦ absurd (ground (arith, r))
    | inr (ro, read) ↦ (ro, read, ground (arith, read))
  ]

  observe_one-kept :
      (id : String) (run next : Run) (s : IsolatedStore)
      → IsSettled script.initial_hypothesis run.state
      → run.state.terminal ≡ none
      → (observe_one w view script id run s).0 ≡ ok next
      → IsSettled script.initial_hypothesis next.state
        × (next.state.remaining_budget ≡ run.state.remaining_budget - 1)
  unfolding observe_one
  observe_one-kept id run next s settled running q =
      elim (Result-cases (read_evidence w view id none s).0) [
        | inl (f, r) ↦ absurd (ground (arith, r))
        | inr ((r, o), read) ↦
            elim (Result-cases (update_if (observed id run.state) (update_of id script.updates))) [
              | inl (f, u) ↦ absurd (ground (arith, read, u))
              | inr (state', u) ↦
                  let after : Run = record {
                    state = state';
                    observations = run.observations ++ o ∷ [];
                  } in
                  let same : after ≡ next = ground (arith, read, u) in
                  let (kept, audit) =
                    update_if-kept script.initial_hypothesis (observed id run.state) state'
                      (update_of id script.updates)
                      (observed-IsSettled script.initial_hypothesis id run.state settled) running
                      u in
                  subst
                    (λ (x : Run).
                      IsSettled script.initial_hypothesis x.state
                      × (x.state.remaining_budget ≡ run.state.remaining_budget - 1))
                    same (kept, audit.budget)
            ]
      ]

  -- A loop that fails has an explanation.
  observe_all-error :
      (order : List String) (run : Run) (s : IsolatedStore) (e : Failure)
      → IsSettled script.initial_hypothesis run.state
      → (observe_all w view script order run s).0 ≡ err e
      → IsExplained run.state.remaining_budget order s e
  unfolding observe_all
  observe_all-error [] run s e settled q = absurd (ground arith)
  observe_all-error (id ∷ order) run s e settled q = elim (Option-cases run.state.terminal) [
    | inr (t, ended) ↦ absurd (ground (arith, ended))
    | inl running ↦ elim (Bool-cases (leb run.state.remaining_budget 0)) [
      | inl spent ↦ absurd (
          terminate-no_error script.initial_hypothesis run.state TerminalKind.unresolved
            (some "budget_exhausted") e settled (ground (arith, running, spent)))
      | inr left ↦ elim (Result-cases (observe_one w view script id run s).0) [
        | inl (f, one) ↦
            observe_one-error id order run s e settled running (ground (arith, left))
              (ground (arith, running, left, one))
        | inr (next, one) ↦
            let (ro, read, same) = observe_one-read id run next s one in
            let (kept, budget) = observe_one-kept id run next s settled running one in
            let rest =
              observe_all-error order next (observe_one w view script id run s).1 e kept
                (ground (arith, running, left, one)) in
            IsExplained-later run.state.remaining_budget id order s e ro read (
              subst (λ n. IsExplained n order (read_evidence w view id none s).1 e) budget
                (subst (λ after. IsExplained next.state.remaining_budget order after e) same rest))
      ]
    ]
  ]

  observe_all-kept :
      (order : List String) (run next : Run) (s : IsolatedStore)
      → IsSettled script.initial_hypothesis run.state
      → (observe_all w view script order run s).0 ≡ ok next
      → IsSettled script.initial_hypothesis next.state
  observe_all-kept order run next s settled q =
      observe_all-inv w view script (λ order run s. IsSettled script.initial_hypothesis run.state)
        (λ run. IsSettled script.initial_hypothesis run.state)
        (record {
          step = λ id order run run' s p alive left done.
              (observe_one-kept id run run' s p alive done).0;
          stop = λ order run run' s p alive none_left done.
              exhausted-kept script.initial_hypothesis run run' p done;
          leave = λ order run s p why. p;
        })
        order run next s settled q

  -- With a configured budget that is not negative, a run of a script from a store fails only so: the
  -- evidence of an initial part of the script's order, shorter than the budget, was read, one after
  -- the other from that store, and for the next in the order either reading it from the store that was left failed, with this
  -- failure, or it was read and its update names another hypothesis than the script's own. The
  -- termination and the closing of a run never fail.
  pub run_script-IsExplained :
      (config : SmokeConfig) (budget : ℕ) (s : IsolatedStore) (e : Failure)
      → config.max_observations ≡ pos budget
      → (run_script w config view script s).0 ≡ err e
      → IsExplained budget script.observation_order s e
  unfolding run_script initial_state
  run_script-IsExplained config budget s e limit q =
      let start : Run = record {
        state = first_state script.initial_hypothesis budget;
        observations = [];
      } in
      let settled : IsSettled script.initial_hypothesis start.state = record {
        h = script.initial_hypothesis;
        only = refl;
        same_id = refl;
        unknowns = refl;
        decided = refl;
      } in
      elim (Result-cases (observe_all w view script script.observation_order start s).0) [
        | inl (f, all) ↦
            observe_all-error script.observation_order start s e settled
              (ground (arith, limit, all))
        | inr (run, all) ↦ absurd (
            close-no_error script.initial_hypothesis run.state e
              (observe_all-kept script.observation_order start run s settled all)
              (with_state-error run.observations (close run.state) e (ground (arith, limit, all))))
      ]
