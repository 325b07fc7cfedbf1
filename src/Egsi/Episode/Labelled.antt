-- ===== src/Egsi/Episode/Labelled.antt =====
-- One round of the compiler's loop, and the replay of it.
use mathlib.Core.Path.{subst}
use iclr.Base.{
  ℕ, suc, ◌+◌, ◌-◌, ◌*◌, ◌≤◌, ◌≡◌, refl, sym, ◌∙◌, ap, ◌⊎◌, inl, inr, true, false, none, some, List,
  [], ◌∷◌, ◌++◌, map, length, ◌==◌, arith,
}
use iclr.Egsi.Candidates.Compile.{Compiled}
use iclr.Egsi.Candidates.Steps.{Text, all_different, text_member}
use iclr.Egsi.Candidates.Steps.{CanonicalPolicyStep}
use iclr.Egsi.Episode.Appended.{IsRead, append_event-IsRead, length_snoc}
use iclr.Egsi.Episode.Compile.{
  Tools, Builder, last_hash_of, append_event, transition_of, with_transition, with_history,
  history_of, record_label,
}
use iclr.Egsi.Episode.Events.{Payload, proposed, selected, label, Seed, label_scope}
use iclr.Egsi.Episode.Replay.{Replayer, Phase, nth, same_bool, on_phase, on_proposed}
use iclr.Egsi.Episode.Round.{IsSound, on_proposed_sound, on_selected_sound, on_label_sound}
use iclr.Egsi.Episode.Selections.{choice}
use iclr.Egsi.Episode.Transitions.{T1Transition}
use iclr.Egsi.Episode.Recorded.{
  nth-append, last-append, different-fresh, map-choice-append, append_event-rest,
  record_label-parts, record_label-transitions,
}

-- The replay has taken the rounds before the index.
pub record Stands (tools : Tools) (transitions : List T1Transition) (episode_id : Text) (index : ℕ)
    (b : Builder) (r : Replayer) : Type 0 where
  pub read : IsRead tools transitions episode_id b r
  pub phase : ((r.phase ≡ Phase.at_proposed) × (index ≡ 0)) ⊎ (r.phase ≡ Phase.proposed_or_close)
  pub version : r.state_version ≡ index
  pub chosen : r.selected_actions ≡ map choice b.transitions
  pub count : length b.transitions ≡ index
  pub emitted : length b.events ≡ 2 + 3 * index

done_last : (index n : ℕ) → 1 ≤ n → same_bool (index == n - 1) (suc index == n) ≡ true
done_last index n h = ground arith

module _ (tools : Tools) (episode_id : Text) (transitions : List T1Transition) where
  open tools use {lib, hashes}

  on_phase-proposed :
      (r mid : Replayer) (phase : Phase) (payload : Payload) (index : ℕ)
      → ((phase ≡ Phase.at_proposed) × (index ≡ 0)) ⊎ (phase ≡ Phase.proposed_or_close)
      → on_proposed lib hashes transitions episode_id payload r ≡ some mid
      → on_phase lib hashes transitions phase episode_id "ACTION_PROPOSED" payload r ≡ some mid
  unfolding on_phase
  on_phase-proposed r mid phase payload index (inl (e, _)) h = rw e h
  on_phase-proposed r mid phase payload index (inr e) h = rw e h

  -- The replay takes the three events of a round.
  pub record_label-Stands :
      (seed : Seed) (trace_length index : ℕ) (step : CanonicalPolicyStep) (c : Compiled)
      (b b' : Builder) (r : Replayer) (rest : List T1Transition)
      → record_label tools episode_id seed trace_length index c b ≡ some b'
      → transitions
        ≡ b.transitions ++ transition_of tools episode_id seed trace_length index c b.history ∷ rest
      → length transitions ≡ trace_length
      → 1 ≤ trace_length
      → all_different (map choice transitions) ≡ true
      → IsSound lib step c (transition_of tools episode_id seed trace_length index c b.history)
      → Stands tools transitions episode_id index b r
      → (r' : Replayer) × Stands tools transitions episode_id (suc index) b' r'
  unfolding on_phase
  record_label-Stands seed trace_length index step c b b' r rest h split size some_step different s
        i =
      let t = transition_of tools episode_id seed trace_length index c b.history in
      let (b1, b2, b3, e1, e2, valid, e3, same) =
        record_label-parts tools episode_id seed trace_length index c b b' h in
      let there : nth transitions r.state_version ≡ some t =
        ap (nth transitions) i.version
        ∙ ap (λ ts. nth ts index) split
        ∙ nth-append b.transitions t rest index i.count in
      let fresh : text_member (choice t) r.selected_actions ≡ false =
        ap (text_member (choice t)) i.chosen
        ∙ different-fresh b.transitions rest t (rw (← split) different) in
      let r0 : Replayer = record r { episode_id = some episode_id } in
      let mid1 : Replayer = record r0 {
        proposal = some (c.actions, c.legal_mask);
        phase = Phase.at_selected;
      } in
      let read1 =
        append_event-IsRead tools transitions episode_id "ACTION_PROPOSED"
          (proposed c.actions c.legal_mask) b b1 r mid1 i.read e1
          (on_phase-proposed r0 mid1 r.phase (proposed c.actions c.legal_mask) index i.phase
            (on_proposed_sound lib hashes step c t s transitions r0 there))
          refl i.read.still_open in
      let r1 : Replayer = record mid1 { previous = last_hash_of b1.events } in
      let mid2 : Replayer = record r1 {
        selected_actions = r.selected_actions ++ c.selected.action_id ∷ [];
        phase = Phase.at_label;
      } in
      let read2 =
        append_event-IsRead tools transitions episode_id "ACTION_SELECTED"
          (selected c.selected.action_id) b1 b2 r1 mid2 read1 e2
          (on_selected_sound lib hashes step c t s transitions r1 there refl fresh) refl
          i.read.still_open in
      let r2 : Replayer = record mid2 { previous = last_hash_of b2.events } in
      let mid3 : Replayer = record r2 {
        state_version = suc r.state_version;
        proposal = none;
        phase = Phase.proposed_or_close;
      } in
      let latest = last-append r.selected_actions c.selected.action_id in
      let e3' =
        subst
          (λ (n : ℕ).
            append_event tools episode_id "PATCH_GROUNDED_LABEL_RECORDED"
              (label n c.selected.action_id label_scope) (with_transition t b2)
            ≡ some b3)
          (sym i.version) e3 in
      let read2' : IsRead tools transitions episode_id (with_transition t b2) r2 = record {
        read = read2.read;
        chained = read2.chained;
        episode = read2.episode;
        still_open = read2.still_open;
      } in
      let read3 =
        append_event-IsRead tools transitions episode_id "PATCH_GROUNDED_LABEL_RECORDED"
          (label r.state_version c.selected.action_id label_scope) (with_transition t b2) b3 r2 mid3
          read2' e3'
          (on_label_sound lib hashes step c t s transitions r2 there (sym i.version)
            (ap suc (sym i.version)) (rw (i.version, size) (done_last index trace_length some_step))
            latest)
          refl i.read.still_open in
      let grown : b'.transitions ≡ b.transitions ++ t ∷ [] =
        record_label-transitions tools episode_id seed trace_length index c b b' h in
      let r3 : Replayer = record mid3 { previous = last_hash_of b3.events } in
      let at_end : IsRead tools transitions episode_id (with_history (history_of index c) b3) r3 =
        record {
          read = read3.read;
          chained = read3.chained;
          episode = read3.episode;
          still_open = read3.still_open;
        } in
      (
        r3,
        record {
          read = subst (λ (x : Builder). IsRead tools transitions episode_id x r3) same at_end;
          phase = inr refl;
          version = ap suc i.version;
          chosen =
              ap (λ ids. ids ++ choice t ∷ []) i.chosen
              ∙ sym (map-choice-append b.transitions t)
              ∙ ap (map choice) (sym grown);
          count = ap length grown ∙ length_snoc b.transitions t ∙ ap suc i.count;
          emitted =
              ap (λ (x : Builder). length x.events) (sym same)
              ∙ omega (
                arith,
                (append_event-rest tools episode_id _ _ b b1 e1).1,
                (append_event-rest tools episode_id _ _ b1 b2 e2).1,
                (append_event-rest tools episode_id _ _ (with_transition t b2) b3 e3).1,
                i.emitted,
              );
        },
      )
