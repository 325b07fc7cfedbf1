-- ===== src/Sbs/Replay/Settled.antt =====
-- What a replay keeps true of its one hypothesis, and what `_terminate` decides.
use iclr.Base.{
  String, ◌≡◌, ◌≢◌, refl, ◌⊎◌, inl, inr, true, false, Option, none, some, List, [], ◌∷◌, ◌++◌,
  member, member-append, IsUnique, str_eq, eq_iff, ok, arith, Bool-cases, Option-cases,
  if◌then◌else◌,
}
use mathlib.Core.Path.{subst}
use iclr.Sbs.Replay.Update.{
  append_new, append_all, update_hypothesis, change_first, cleared, cleared_status,
  is_budget_exhausted, decide, outcome_of, terminate, with_update, apply_update,
}
use iclr.Sbs.Schema.Records.{
  TerminalKind, DecisionVerdict, HypothesisStatus, Hypothesis, Decision, AuditState, ScriptedUpdate,
}

IsUnique-append_one :
    (x : String) (xs : List String) → member x xs ≡ false → IsUnique xs → IsUnique (xs ++ x ∷ [])
IsUnique-append_one x [] h u = (refl, tt)
IsUnique-append_one x (y ∷ xs) h u = (
  ground (arith, member-append y xs (x ∷ []), eq_iff x y, eq_iff y x),
  IsUnique-append_one x xs (ground arith) u.1,
)

append_new-IsUnique : (x : String) (xs : List String) → IsUnique xs → IsUnique (append_new x xs)
unfolding append_new
append_new-IsUnique x xs u = elim (Bool-cases (member x xs)) [
  | inl old ↦ rw old u
  | inr new ↦ rw new (IsUnique-append_one x xs new u)
]

-- Appending what is not there yet makes no duplicate.
append_all-IsUnique : (new xs : List String) → IsUnique xs → IsUnique (append_all new xs)
unfolding append_all
append_all-IsUnique [] xs u = u
append_all-IsUnique (x ∷ new) xs u =
    append_all-IsUnique new (append_new x xs) (append_new-IsUnique x xs u)

abbrev decision_of : DecisionVerdict → Hypothesis → Option Decision
decision_of v h = some (record {
  verdict = v;
  applies_to_hypothesis_id = h.hypothesis_id;
  not_a_global_safety_guarantee = true;
})

-- The decision that goes with a terminal: a finished run states the status that the evidence gave
-- its hypothesis, and an unresolved one states nothing of it.
abbrev pub IsDecided : Option TerminalKind → Option Decision → Hypothesis → Type 0
IsDecided none d h = d ≡ none
IsDecided (some TerminalKind.finish) d h =
    ((h.status ≡ HypothesisStatus.supported) × (d ≡ decision_of DecisionVerdict.supported h))
    ⊎ ((h.status ≡ HypothesisStatus.refuted) × (d ≡ decision_of DecisionVerdict.refuted h))
IsDecided (some TerminalKind.unresolved) d h =
    (h.status ≢ HypothesisStatus.supported)
    × (h.status ≢ HypothesisStatus.refuted)
    × (d ≡ decision_of DecisionVerdict.unresolved h)

-- The state has one hypothesis, `h`, with the identifier of the hypothesis that the script
-- begins with and the unknowns that the state lists as unresolved, and the decision goes with the
-- terminal.
pub record IsSettled (first : Hypothesis) (state : AuditState) : Type 0 where
  pub h : Hypothesis
  pub only : state.hypotheses ≡ h ∷ []
  pub same_id : h.hypothesis_id ≡ first.hypothesis_id
  pub unknowns : state.unresolved_items ≡ h.unknowns
  pub decided : IsDecided state.terminal state.decision h

-- The parts of the state that neither an update nor a termination changes.
pub record IsSameAudit (state state' : AuditState) : Type 0 where
  pub observed : state'.observed_evidence ≡ state.observed_evidence
  pub budget : state'.remaining_budget ≡ state.remaining_budget
  pub history : state'.inspection_history ≡ state.inspection_history

pub terminate-IsSameAudit :
    (state state' : AuditState) (t : TerminalKind) (reason : Option String)
    → terminate state t reason ≡ ok state'
    → IsSameAudit state state'
unfolding terminate
terminate-IsSameAudit state state' t reason h = ground arith

pub apply_update-IsSameAudit :
    (state state' : AuditState) (update : ScriptedUpdate)
    → apply_update state update ≡ ok state'
    → IsSameAudit state state'
unfolding apply_update
apply_update-IsSameAudit state state' update h =
    elim (Option-cases (change_first update state.hypotheses)) [
      | inl e ↦ absurd (ground (arith, e))
      | inr (hs, e) ↦ elim (Option-cases update.terminal) [
        | inl open_still ↦ ground (arith, e, open_still)
        | inr (t, ends) ↦ ground (
          arith,
          e,
          ends,
          terminate-IsSameAudit (with_update state update hs) state' t update.termination_reason,
        )
      ]
    ]

-- The status that `outcome_of` reads.
abbrev read_status : TerminalKind → Option String → HypothesisStatus → HypothesisStatus
read_status TerminalKind.unresolved reason s =
    if is_budget_exhausted reason then cleared_status s else s
read_status TerminalKind.finish reason s = s

module _ (first : Hypothesis) (state state' : AuditState) (t : TerminalKind)
    (reason : Option String) (settled : IsSettled first state)
    (done : terminate state t reason ≡ ok state') where
  ended : Hypothesis
  ended = record settled.h {
    status = (outcome_of t reason (read_status t reason settled.h.status)).status;
  }

  state_ended :
      state'
      ≡ decide state (outcome_of t reason (read_status t reason settled.h.status)) settled.h []
  unfolding terminate cleared
  state_ended = ground (arith, settled.only)

outcome_of-IsDecided :
    (t : TerminalKind) (reason : Option String) (s : HypothesisStatus) (h : Hypothesis)
    → let out = outcome_of t reason s in
      IsDecided (some out.terminal) (decision_of out.verdict h) (record h { status = out.status })
unfolding outcome_of
outcome_of-IsDecided TerminalKind.unresolved reason s h = ground arith
outcome_of-IsDecided TerminalKind.finish reason HypothesisStatus.supported h = ground arith
outcome_of-IsDecided TerminalKind.finish reason _ h = ground arith

-- A termination decides, and keeps what was settled of the hypothesis.
pub terminate-IsSettled :
    (first : Hypothesis) (state state' : AuditState) (t : TerminalKind) (reason : Option String)
    → IsSettled first state
    → terminate state t reason ≡ ok state'
    → IsSettled first state'
unfolding ended
terminate-IsSettled first state state' t reason settled done =
    rw (state_ended first state state' t reason settled done) (record {
      h = ended first state state' t reason settled done;
      only = refl;
      same_id = settled.same_id;
      unknowns = settled.unknowns;
      decided = outcome_of-IsDecided t reason (read_status t reason settled.h.status) settled.h;
    })

-- A termination always leaves a terminal.
pub terminate-terminal :
    (state state' : AuditState) (t : TerminalKind) (reason : Option String)
    → terminate state t reason ≡ ok state'
    → state'.terminal ≢ none
unfolding terminate outcome_of
terminate-terminal state state' t reason done = ground arith

-- An update that adds references to support and to counter-evidence repeats none, whatever it names
-- twice: lists of references without a repetition stay so.
pub update_hypothesis-IsUnique :
    (update : ScriptedUpdate) (h : Hypothesis)
    → IsUnique h.support_refs
    → IsUnique h.counter_refs
    → IsUnique (update_hypothesis update h).support_refs
      × IsUnique (update_hypothesis update h).counter_refs
unfolding update_hypothesis
update_hypothesis-IsUnique update h support counter = (
  append_all-IsUnique update.add_support h.support_refs support,
  append_all-IsUnique update.add_counter h.counter_refs counter,
)

pub update_hypothesis-IsSettled :
    (first : Hypothesis) (state : AuditState) (update : ScriptedUpdate)
    (settled : IsSettled first state)
    → state.terminal ≡ none
    → IsSettled first (with_update state update (update_hypothesis update settled.h ∷ []))
unfolding update_hypothesis
update_hypothesis-IsSettled first state update settled running = record {
  h = update_hypothesis update settled.h;
  only = refl;
  same_id = settled.same_id;
  unknowns = rw settled.unknowns;
  decided = rw running (rw running at settled.decided);
}

pub change_first_one :
    (update : ScriptedUpdate) (h : Hypothesis)
    → change_first update (h ∷ []) ≡ (
        if str_eq h.hypothesis_id update.hypothesis_id
        then some (update_hypothesis update h ∷ [])
        else none)
unfolding change_first
change_first_one update h = ground arith

-- An update that returns keeps the state of a running audit settled: still one hypothesis, with the
-- same identifier and the unknowns that the state lists, and a decision that goes with the terminal
-- which the update may have set.
pub apply_update-IsSettled :
    (first : Hypothesis) (state state' : AuditState) (update : ScriptedUpdate)
    → IsSettled first state
    → state.terminal ≡ none
    → apply_update state update ≡ ok state'
    → IsSettled first state'
unfolding apply_update
apply_update-IsSettled first state state' update settled running done =
    let after = with_update state update (update_hypothesis update settled.h ∷ []) in
    let kept = update_hypothesis-IsSettled first state update settled running in
    elim (Bool-cases (str_eq settled.h.hypothesis_id update.hypothesis_id)) [
      | inr other ↦ absurd (ground (arith, settled.only, change_first_one update settled.h, other))
      | inl same ↦ elim (Option-cases update.terminal) [
        | inl open_still ↦
            let e : after ≡ state' =
              ground (arith, settled.only, change_first_one update settled.h, same, open_still) in
            subst (IsSettled first) e kept
        | inr (t, ends) ↦
            terminate-IsSettled first after state' t update.termination_reason kept
              (ground (arith, settled.only, change_first_one update settled.h, same, ends))
      ]
    ]
