-- ===== src/Sbs/Replay/Closing.antt =====
-- How `replay_case` closes a run that no update has ended.
use iclr.Base.{
  refl, Result-cases, ◌≡◌, inl, inr, true, none, some, ok, arith, Bool-cases, leb, if◌then◌else◌,
}
use iclr.Sbs.Replay.Case.{close}
use iclr.Sbs.Replay.Failures.{close-no_error}
use iclr.Sbs.Replay.Settled.{IsSettled}
use iclr.Sbs.Replay.Update.{terminate, cleared, outcome_of}
use iclr.Sbs.Schema.Records.{TerminalKind, DecisionVerdict, Hypothesis, AuditState, Decision}

-- A run that is closed unresolved, for the reason that the budget gives.
pub record IsUnresolved (state state' : AuditState) : Type 0 where
  pub terminal : state'.terminal ≡ some TerminalKind.unresolved
  pub reason :
      state'.termination_reason
      ≡ some (if leb state.remaining_budget 0 then "budget_exhausted" else "insufficient_material")
  pub decision : Decision
  pub decided : state'.decision ≡ some decision
  pub verdict : decision.verdict ≡ DecisionVerdict.unresolved

abbrev unresolved_decision : Hypothesis → Decision
unresolved_decision h = record {
  verdict = DecisionVerdict.unresolved;
  applies_to_hypothesis_id = h.hypothesis_id;
  not_a_global_safety_guarantee = true;
}

module _ (first : Hypothesis) (state state' : AuditState) (settled : IsSettled first state)
    (alive : state.terminal ≡ none) (done : close state ≡ ok state') where
  closed-IsUnresolved : IsUnresolved state state'
  unfolding close terminate cleared outcome_of
  closed-IsUnresolved = elim (Bool-cases (leb state.remaining_budget 0)) [
    | inl spent ↦ record {
      terminal = ground (arith, spent, settled.only);
      reason = ground (arith, spent, settled.only);
      decision = unresolved_decision settled.h;
      decided = ground (arith, spent, settled.only);
      verdict = refl;
    }
    | inr left ↦ record {
      terminal = ground (arith, left, settled.only);
      reason = ground (arith, left, settled.only);
      decision = unresolved_decision settled.h;
      decided = ground (arith, left, settled.only);
      verdict = refl;
    }
  ]

-- A state with one hypothesis that no update has ended always closes, whatever the evidence said of
-- the hypothesis: unresolved, with an unresolved verdict, and with the budget as the reason exactly
-- when none is left.
pub close-IsUnresolved :
    (first : Hypothesis) (state : AuditState)
    → IsSettled first state
    → state.terminal ≡ none
    → (state' : AuditState) × (close state ≡ ok state') × IsUnresolved state state'
close-IsUnresolved first state settled alive = elim (Result-cases (close state)) [
  | inl (e, q) ↦ absurd (close-no_error first state e settled q)
  | inr (state', q) ↦ (state', q, closed-IsUnresolved first state state' settled alive q)
]
