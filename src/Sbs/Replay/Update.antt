-- ===== src/Sbs/Replay/Update.antt =====
-- `_apply_update` and `_terminate` of src/sbs/replay.py.
use iclr.Base.{
  String, Bool, true, false, not, Option, none, some, List, [], ◌∷◌, ◌++◌, map, member, select,
  str_eq, Result, ok, err, if◌then◌else◌,
}
use iclr.Base.Options.{or_default}
use iclr.Sbs.Errors.{Failure, stop_iteration, index_error}
use iclr.Sbs.Schema.Records.{
  TerminalKind, DecisionVerdict, HypothesisStatus, Hypothesis, AuditState, ScriptedUpdate,
}

-- `if ref not in refs: refs.append(ref)`
unfoldable pub append_new : String → List String → List String
append_new ref refs = if member ref refs then refs else refs ++ ref ∷ []

-- `for ref in new: ...`
unfoldable pub append_all : List String → List String → List String
unfolding append_new
append_all [] refs = refs
append_all (ref ∷ new) refs = append_all new (append_new ref refs)

-- `[u for u in items if u != item]`
unfoldable pub drop_item : String → List String → List String
drop_item item items = select (λ u. not (str_eq u item)) items

unfoldable pub drop_all : List String → List String → List String
unfolding drop_item
drop_all [] items = items
drop_all (item ∷ old) items = drop_all old (drop_item item items)

-- The hypothesis after the loops of `_apply_update` and the assignment of its status.
unfoldable pub update_hypothesis : ScriptedUpdate → Hypothesis → Hypothesis
update_hypothesis update h = record h {
  support_refs = append_all update.add_support h.support_refs;
  counter_refs = append_all update.add_counter h.counter_refs;
  unknowns = drop_all update.remove_unknowns (append_all update.add_unknowns h.unknowns);
  status = or_default update.status h.status;
}

-- `next(item for item in hypotheses if ...)`, which is then changed in place.
unfoldable pub change_first : ScriptedUpdate → List Hypothesis → Option (List Hypothesis)
change_first update [] = none
change_first update (h ∷ hs) =
    let rest = change_first update hs in
    if str_eq h.hypothesis_id update.hypothesis_id
    then some (update_hypothesis update h ∷ hs)
    else elim rest [ none ↦ none | some hs' ↦ some (h ∷ hs') ]

-- `if hypothesis.status in {"supported", "refuted"}: hypothesis.status = "unresolved"`
abbrev pub cleared_status : HypothesisStatus → HypothesisStatus
cleared_status HypothesisStatus.supported = HypothesisStatus.unresolved
cleared_status HypothesisStatus.refuted = HypothesisStatus.unresolved
cleared_status s = s

abbrev pub clear : Hypothesis → Hypothesis
clear h = record h { status = cleared_status h.status }

abbrev pub is_budget_exhausted : Option String → Bool
is_budget_exhausted none = false
is_budget_exhausted (some reason) = str_eq reason "budget_exhausted"

-- The hypotheses after the first test of `_terminate`.
unfoldable pub cleared : TerminalKind → Option String → List Hypothesis → List Hypothesis
cleared TerminalKind.unresolved reason hs = if is_budget_exhausted reason then map clear hs else hs
cleared TerminalKind.finish reason hs = hs

-- What `_terminate` decides from the first hypothesis.
pub record Outcome : Type 0 where
  pub status : HypothesisStatus
  pub verdict : DecisionVerdict
  pub terminal : TerminalKind
  pub reason : Option String

unfoldable pub outcome_of : TerminalKind → Option String → HypothesisStatus → Outcome
outcome_of TerminalKind.unresolved reason s = record {
  status = HypothesisStatus.unresolved;
  verdict = DecisionVerdict.unresolved;
  terminal = TerminalKind.unresolved;
  reason = reason;
}
outcome_of TerminalKind.finish reason HypothesisStatus.supported = record {
  status = HypothesisStatus.supported;
  verdict = DecisionVerdict.supported;
  terminal = TerminalKind.finish;
  reason = reason;
}
outcome_of TerminalKind.finish reason HypothesisStatus.refuted = record {
  status = HypothesisStatus.refuted;
  verdict = DecisionVerdict.refuted;
  terminal = TerminalKind.finish;
  reason = reason;
}
outcome_of TerminalKind.finish reason s = record {
  status = s;
  verdict = DecisionVerdict.unresolved;
  terminal = TerminalKind.unresolved;
  reason = some (or_default reason "insufficient_material");
}

abbrev pub decide : AuditState → Outcome → Hypothesis → List Hypothesis → AuditState
decide state out h hs = record state {
  hypotheses = record h { status = out.status } ∷ hs;
  terminal = some out.terminal;
  termination_reason = out.reason;
  decision = some (record {
    verdict = out.verdict;
    applies_to_hypothesis_id = h.hypothesis_id;
    not_a_global_safety_guarantee = true;
  });
}

abbrev pub terminate_first :
    AuditState → TerminalKind → Option String → List Hypothesis → Result Failure AuditState
terminate_first state terminal reason [] = err index_error
terminate_first state terminal reason (h ∷ hs) =
    ok (decide state (outcome_of terminal reason h.status) h hs)

unfoldable pub terminate : AuditState → TerminalKind → Option String → Result Failure AuditState
terminate state terminal reason =
    terminate_first state terminal reason (cleared terminal reason state.hypotheses)

abbrev pub terminate_if :
    AuditState → Option TerminalKind → Option String → Result Failure AuditState
terminate_if state none reason = ok state
terminate_if state (some terminal) reason = terminate state terminal reason

abbrev pub with_update : AuditState → ScriptedUpdate → List Hypothesis → AuditState
with_update state update hs = record state {
  hypotheses = hs;
  unresolved_items =
      drop_all update.remove_unknowns (append_all update.add_unknowns state.unresolved_items);
}

unfoldable pub apply_update : AuditState → ScriptedUpdate → Result Failure AuditState
apply_update state update = elim (change_first update state.hypotheses) [
  | none ↦ err stop_iteration
  | some hs ↦ terminate_if (with_update state update hs) update.terminal update.termination_reason
]
