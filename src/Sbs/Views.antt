-- ===== src/Sbs/Views.antt =====
-- src/sbs/views.py: the two views of one frozen sequence of observations.
pub mod Agree
use iclr.Base.{
  ℕ, String, Bool, true, false, ◌&&◌, Option, List, [], ◌∷◌, map, str_eq, dedup, if◌then◌else◌,
  Result, ok, err,
}
use iclr.Sbs.Errors.{Failure, index_error}
use iclr.Sbs.Schema.Records.{AuditState, CaseView, Hypothesis, Observation, TerminalKind}

-- One entry of `HistoryView.events`.
pub record Event : Type 0 where
  pub kind : String
  pub evidence_id : String
  pub found : Bool
  pub provenance : String
  pub uncertainty : String

pub record HistoryView : Type 0 where
  pub case_id : String
  pub visible_context : String
  pub allowed_evidence_ids : List String
  pub events : List Event

pub record SbsView : Type 0 where
  pub case_id : String
  pub visible_context : String
  pub allowed_evidence_ids : List String
  pub hypothesis : Hypothesis
  pub observations : List Observation
  pub unresolved_items : List String
  pub remaining_budget : ℕ
  pub terminal : Option TerminalKind
  pub termination_reason : Option String

-- `==` on lists of texts.
abbrev pub texts_eq : List String → List String → Bool
texts_eq [] [] = true
texts_eq [] (y ∷ ys) = false
texts_eq (x ∷ xs) [] = false
texts_eq (x ∷ xs) (y ∷ ys) = str_eq x y && texts_eq xs ys

-- `HistoryView.observation_order`
unfoldable pub observation_ids : List Event → List String
observation_ids [] = []
observation_ids (e ∷ es) =
    let rest = observation_ids es in
    if str_eq e.kind "observation" then e.evidence_id ∷ rest else rest

unfoldable pub history_observation_order : HistoryView → List String
unfolding observation_ids
history_observation_order h = observation_ids h.events

unfoldable pub history_visible_evidence_ids : HistoryView → List String
unfolding history_observation_order
history_visible_evidence_ids h = dedup (history_observation_order h)

unfoldable pub sbs_observation_order : SbsView → List String
sbs_observation_order v = map (λ o. o.evidence_id) v.observations

unfoldable pub sbs_visible_evidence_ids : SbsView → List String
unfolding sbs_observation_order
sbs_visible_evidence_ids v = dedup (sbs_observation_order v)

unfoldable pub views_share_evidence : HistoryView → SbsView → Bool
views_share_evidence h v =
    str_eq h.case_id v.case_id
    && texts_eq h.allowed_evidence_ids v.allowed_evidence_ids
    && texts_eq (history_observation_order h) (sbs_observation_order v)
    && texts_eq (history_visible_evidence_ids h) (sbs_visible_evidence_ids v)

abbrev pub event_of : Observation → Event
event_of item = record {
  kind = "observation";
  evidence_id = item.evidence_id;
  found = item.found;
  provenance = item.provenance;
  uncertainty = item.uncertainty;
}

-- The views with the hypothesis that `state.hypotheses[0]` is.
unfoldable pub views_of :
    CaseView → AuditState → List Observation → Hypothesis → HistoryView × SbsView
views_of view state observations hypothesis = (
  record {
    case_id = view.case_id;
    visible_context = view.visible_context;
    allowed_evidence_ids = view.allowed_evidence_ids;
    events = map event_of observations;
  },
  record {
    case_id = view.case_id;
    visible_context = view.visible_context;
    allowed_evidence_ids = view.allowed_evidence_ids;
    hypothesis = hypothesis;
    observations = observations;
    unresolved_items = state.unresolved_items;
    remaining_budget = state.remaining_budget;
    terminal = state.terminal;
    termination_reason = state.termination_reason;
  },
)

abbrev pub first_hypothesis : List Hypothesis → Result Failure Hypothesis
first_hypothesis [] = err index_error
first_hypothesis (h ∷ hs) = ok h

unfoldable pub build_views :
    CaseView → AuditState → List Observation → Result Failure (HistoryView × SbsView)
build_views view state observations = elim (first_hypothesis state.hypotheses) [
  | err e ↦ err e
  | ok h ↦ ok (views_of view state observations h)
]
