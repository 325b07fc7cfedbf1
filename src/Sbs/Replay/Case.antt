-- ===== src/Sbs/Replay/Case.antt =====
-- `replay_case` of src/sbs/replay.py.
use iclr.Base.{
  ℕ, ◌-◌, String, Bool, true, not, Option, none, some, List, [], ◌∷◌, ◌++◌, str_eq, leb, is_none,
  Result, ok, err, or_raise, if◌then◌else◌,
}
use iclr.Base.Exec.{pure, lift, gets, ◌>>=◌, ◌>>◌}
use iclr.Base.Integers.{ℤ, pos, negsuc}
use iclr.Base.Texts.{codes}
use iclr.Sbs.Errors.{Failure, replay_config, runtime_error, validation}
use iclr.Sbs.Isolation.Paths.{FilePath}
use iclr.Sbs.Isolation.Store.{
  World, IsolatedStore, Action, raise_when, open_store, read_text, read_evidence, load_case_view,
  evaluator_was_read,
}
use iclr.Sbs.Replay.Update.{terminate, apply_update}
use iclr.Sbs.Schema.Records.{
  TerminalKind, SplitId, CaseView, AuditState, Observation, SmokeConfig, ScriptedUpdate,
  ReplayScript, Hypothesis,
}
use iclr.Sbs.Schema.Scripts.{replay_script}
use iclr.Sbs.Scorer.{require_scorer_unavailable}
use iclr.Sbs.Views.{HistoryView, SbsView, build_views, views_share_evidence}

-- The state of the loop: `state` and `observations`.
pub record Run : Type 0 where
  pub state : AuditState
  pub observations : List Observation

-- `script.updates.get(evidence_id)`
abbrev pub update_of : String → List (String × ScriptedUpdate) → Option ScriptedUpdate
update_of k [] = none
update_of k ((j, u) ∷ us) = if str_eq j k then some u else update_of k us

-- `state.inspection_history.append(entry)`
abbrev pub log_entry : String → AuditState → AuditState
log_entry entry state = record state { inspection_history = state.inspection_history ++ entry ∷ [] }

-- The state after `read_evidence` returned and before the update.
abbrev pub observed : String → AuditState → AuditState
observed evidence_id state = record state {
  remaining_budget = state.remaining_budget - 1;
  observed_evidence = state.observed_evidence ++ evidence_id ∷ [];
  inspection_history = state.inspection_history ++ "READ_ALLOWED_EVIDENCE" ∷ "UPDATE" ∷ [];
}

abbrev pub update_if : AuditState → Option ScriptedUpdate → Result Failure AuditState
update_if state none = ok state
update_if state (some update) = apply_update state update

abbrev pub exhausted : AuditState → Result Failure AuditState
exhausted state = elim (terminate state TerminalKind.unresolved (some "budget_exhausted")) [
  | err e ↦ err e
  | ok state' ↦ ok (log_entry "UNRESOLVED" state')
]

abbrev pub with_state : List Observation → Result Failure AuditState → Result Failure Run
with_state observations (err e) = err e
with_state observations (ok state) = ok (record { state = state; observations = observations })

-- The body of the loop, from the read on.
unfoldable pub observe_one : World → CaseView → ReplayScript → String → Run → Action Run
observe_one w view script evidence_id run = do
  (r, observation) ← read_evidence w view evidence_id none
  lift (
      with_state (run.observations ++ observation ∷ [])
        (update_if (observed evidence_id run.state) (update_of evidence_id script.updates)))

-- The loop over `script.observation_order`.
unfoldable pub observe_all : World → CaseView → ReplayScript → List String → Run → Action Run
observe_all w view script [] run = pure run
observe_all w view script (evidence_id ∷ order) run =
    let next = observe_one w view script evidence_id run >>= observe_all w view script order in
    if not (is_none run.state.terminal)
    then pure run
    else if leb run.state.remaining_budget 0
    then lift (with_state run.observations (exhausted run.state))
    else next

abbrev pub insufficient : AuditState → Result Failure AuditState
insufficient state = elim (terminate state TerminalKind.unresolved (some "insufficient_material")) [
  | err e ↦ err e
  | ok state' ↦ ok (log_entry "UNRESOLVED" state')
]

-- What follows the loop.
abbrev pub close_open : AuditState → Option TerminalKind → Result Failure AuditState
close_open state none = if leb state.remaining_budget 0 then exhausted state else insufficient state
close_open state (some TerminalKind.finish) = ok (log_entry "FINISH" state)
close_open state (some TerminalKind.unresolved) = ok state

unfoldable pub close : AuditState → Result Failure AuditState
close state = close_open state state.terminal

abbrev pub first_state : Hypothesis → ℕ → AuditState
first_state h budget = record {
  observed_evidence = [];
  hypotheses = h ∷ [];
  unresolved_items = h.unknowns;
  remaining_budget = budget;
  inspection_history = "INIT" ∷ "REPRESENT" ∷ [];
  terminal = none;
  termination_reason = none;
  decision = none;
}

-- `AuditState(...)`, whose validator refuses a negative budget.
unfoldable pub initial_state : Hypothesis → ℤ → Result Failure AuditState
initial_state h (negsuc n) = err validation
initial_state h (pos budget) = ok (first_state h budget)

abbrev pub same_split : SplitId → SplitId → Bool
same_split SplitId.dev_pilot SplitId.dev_pilot = true

-- The dictionary that `replay_case` returns; its store is the state of the action.
pub record CaseResult : Type 0 where
  pub view : CaseView
  pub state : AuditState
  pub history : HistoryView
  pub sbs : SbsView
  pub observations : List Observation

-- The run of the loop and what follows it, on a script.
unfoldable pub run_script : World → SmokeConfig → CaseView → ReplayScript → Action Run
run_script w config view script = do
  state ← lift (initial_state script.initial_hypothesis config.max_observations)
  run ←
      observe_all w view script script.observation_order
        (record { state = state; observations = [] })
  lift (with_state run.observations (close run.state))

-- `replay_case`, after the store is open. `script_kind` and `evidence_order` are literals of one
-- value, so the tests of them pass.
unfoldable pub replay_store : World → SmokeConfig → Action CaseResult
replay_store w config = do
  view ← load_case_view w
  raise_when (not (same_split view.split config.split)) replay_config
  payload ← read_text w (codes "script.json")
  value ← lift (or_raise (w.pydantic_json payload) validation)
  script ← lift (or_raise (replay_script value) validation)
  run ← run_script w config view script
  (history, sbs) ← lift (build_views view run.state run.observations)
  raise_when (not (views_share_evidence history sbs)) runtime_error
  touched ← gets evaluator_was_read
  raise_when touched runtime_error
  pure (record {
    view = view;
    state = run.state;
    history = history;
    sbs = sbs;
    observations = run.observations;
  })

abbrev pub replay_opened :
    World → SmokeConfig → Result Failure IsolatedStore → Result Failure CaseResult
replay_opened w config (err e) = err e
replay_opened w config (ok s) = (replay_store w config s).0

abbrev pub replay_available :
    World
    → FilePath
    → SmokeConfig
    → Option FilePath
    → Result Failure Unit
    → Result Failure CaseResult
replay_available w actor_root config evaluator_root (err e) = err e
replay_available w actor_root config evaluator_root (ok u) =
    replay_opened w config (open_store w actor_root evaluator_root)

unfoldable pub replay_case :
    World → FilePath → SmokeConfig → Option FilePath → Result Failure CaseResult
replay_case w actor_root config evaluator_root =
    replay_available w actor_root config evaluator_root require_scorer_unavailable
