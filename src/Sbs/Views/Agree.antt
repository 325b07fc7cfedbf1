-- ===== src/Sbs/Views/Agree.antt =====
-- The two views of one run show the same evidence.
use iclr.Base.{
  String, ◌≡◌, refl, true, List, [], ◌∷◌, map, eq_refl, arith, ok, Result-cases, inl, inr,
}
use iclr.Sbs.Schema.Records.{AuditState, CaseView, Hypothesis, Observation}
use iclr.Sbs.Views.{
  HistoryView, SbsView, texts_eq, observation_ids, history_observation_order,
  history_visible_evidence_ids, sbs_observation_order, sbs_visible_evidence_ids,
  views_share_evidence, event_of, first_hypothesis, views_of, build_views,
}

texts_eq_refl : (xs : List String) → texts_eq xs xs ≡ true
texts_eq_refl [] = refl
texts_eq_refl (x ∷ xs) = ground (arith, eq_refl x, texts_eq_refl xs)

observation_ids-event_of :
    (items : List Observation)
    → observation_ids (map event_of items) ≡ map (λ (o : Observation). o.evidence_id) items
unfolding observation_ids
observation_ids-event_of [] = refl
observation_ids-event_of (o ∷ items) = ground (arith, observation_ids-event_of items)

views_of-share :
    (view : CaseView) (state : AuditState) (observations : List Observation) (h : Hypothesis)
    → views_share_evidence
        (views_of view state observations h).0
        (views_of view state observations h).1
      ≡ true
unfolding views_share_evidence views_of history_observation_order history_visible_evidence_ids
    sbs_observation_order sbs_visible_evidence_ids
views_of-share view state observations h = simp (observation_ids-event_of, texts_eq_refl, eq_refl)

-- The views that `build_views` returns always pass `views_share_evidence`.
pub build_views-share :
    (view : CaseView) (state : AuditState) (observations : List Observation) (history : HistoryView)
    (sbs : SbsView)
    → build_views view state observations ≡ ok (history, sbs)
    → views_share_evidence history sbs ≡ true
unfolding build_views
build_views-share view state observations history sbs h =
    elim (Result-cases (first_hypothesis state.hypotheses)) [
      | inl (e, q) ↦ absurd (ground (arith, q))
      | inr (hyp, q) ↦ ground (arith, q, views_of-share view state observations hyp)
    ]
