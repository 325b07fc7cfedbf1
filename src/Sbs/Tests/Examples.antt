-- ===== src/Sbs/Tests/Examples.antt =====
-- The theorems of the package at concrete inputs.
use iclr.Base.{
  ◌↔◌, String, ◌≡◌, refl, true, false, none, some, [], ◌∷◌, IsUnique, ok, err, ok_of, err_of,
  dedup_from, is_unique,
}
use iclr.Base.PosixPath.{parts}
use iclr.Base.Texts.{lower}
use iclr.Base.Utf8.{decode_utf8}
use iclr.Json.{arr, obj, nil, cons, end, field, null}
use iclr.Sbs.Errors.{Failure}
use iclr.Sbs.Isolation.Evidence.{IsVerified, read_evidence-IsVerified}
use iclr.Sbs.Isolation.Paths.{is_relative_posix}
use iclr.Sbs.Isolation.Reads.{IsIsolated, read_evidence-keeps_isolation}
use iclr.Sbs.Isolation.Store.{
  IsolatedStore, open_store, read_evidence, load_case_view, load_evidence_record, read_text,
  read_bytes, resolve_actor_path, is_stale, observe, sha256_bytes, evaluator_was_read,
  resolve_optional,
}
use iclr.Sbs.Replay.Case.{
  CaseResult, first_state, replay_case, replay_store, run_script, observe_all, observe_one, close,
  initial_state,
}
use iclr.Sbs.Replay.Closing.{IsUnresolved, close-IsUnresolved}
use iclr.Sbs.Replay.Failures.{IsExplained, run_script-IsExplained}
use iclr.Sbs.Replay.Faithful.{IsFaithful, replay_case-IsFaithful}
use iclr.Sbs.Replay.Settled.{IsSettled, apply_update-IsSettled, update_hypothesis-IsUnique}
use iclr.Sbs.Replay.Update.{
  terminate, apply_update, change_first, update_hypothesis, append_all, append_new, drop_all,
  drop_item, cleared, outcome_of,
}
use iclr.Sbs.Schema.Answers.{reject_passes, iter_answer_field_hits, is_answer_field}
use iclr.Sbs.Schema.Occurs.{Occurs, reject_passes_iff}
use iclr.Sbs.Schema.Fields.{hash_prefix, relative_path, opaque_case_id, unique_ids}
use iclr.Sbs.Schema.Models.{case_view, evidence_record, line_span}
use iclr.Sbs.Schema.Records.{
  AuditState, CaseView, EvidenceRecord, Observation, Hypothesis, HypothesisStatus, MaterialKind,
  ReplayScript, ScriptedUpdate, SplitId, TerminalKind,
}
use iclr.Sbs.Schema.Scripts.{replay_script, scripted_updates, scripted_update, hypothesis}
use iclr.Sbs.Tests.{world, root, other_root, config}
use iclr.Sbs.Views.{
  HistoryView, SbsView, build_views, views_of, views_share_evidence, history_observation_order,
  history_visible_evidence_ids, sbs_observation_order, sbs_visible_evidence_ids, observation_ids,
}
use iclr.Sbs.Views.Agree.{build_views-share}

replayed_case : (c : CaseResult) × (replay_case world root (config 4) (some other_root) ≡ ok c)
unfolding replay_case replay_store run_script observe_all observe_one close initial_state terminate
    apply_update change_first update_hypothesis append_all append_new drop_all drop_item cleared
    outcome_of build_views views_of views_share_evidence history_observation_order
    history_visible_evidence_ids sbs_observation_order sbs_visible_evidence_ids observation_ids
    dedup_from is_unique open_store load_case_view read_evidence load_evidence_record read_text
    read_bytes resolve_actor_path is_relative_posix parts is_stale observe sha256_bytes
    evaluator_was_read decode_utf8 reject_passes iter_answer_field_hits is_answer_field lower
    case_view evidence_record line_span replay_script scripted_updates scripted_update hypothesis
    hash_prefix relative_path opaque_case_id unique_ids
replayed_case = ok_of (replay_case world root (config 4) (some other_root)) refl

replay_case-IsFaithful_example :
    (s : IsolatedStore) × (open_store world root (some other_root) ≡ ok s)
    × (world.resolve root ≡ some s.actor_root)
    × (resolve_optional world (some other_root) ≡ some s.evaluator_root)
    × IsFaithful world (config 4) s replayed_case.0
replay_case-IsFaithful_example =
    replay_case-IsFaithful world (config 4) root (some other_root) replayed_case.0 replayed_case.1

abbrev view : CaseView
view = record {
  case_id = "case-0001";
  visible_context = "ctx";
  allowed_evidence_ids = "e1" ∷ "e2" ∷ [];
  split = SplitId.dev_pilot;
  material_kind = MaterialKind.fixture;
  project_family = none;
}

abbrev first : Hypothesis
first = record {
  hypothesis_id = "h1";
  entities = [];
  security_relation = "r";
  relation_source = "s";
  support_refs = [];
  counter_refs = [];
  unknowns = "u1" ∷ [];
  status = HypothesisStatus.opened;
}

abbrev update : ScriptedUpdate
update = record {
  hypothesis_id = "h1";
  add_support = "e1" ∷ "e1" ∷ [];
  add_counter = [];
  add_unknowns = [];
  remove_unknowns = "u1" ∷ [];
  status = some HypothesisStatus.supported;
  terminal = some TerminalKind.finish;
  termination_reason = none;
}

-- An update of a hypothesis that the script does not have.
abbrev script : ReplayScript
script = record {
  observation_order = "e1" ∷ [];
  initial_hypothesis = first;
  updates = ("e1", record update { hypothesis_id = "h2" }) ∷ [];
}

abbrev store : IsolatedStore
store = record { actor_root = root; evaluator_root = some other_root; read_paths = [] }

store-IsIsolated : IsIsolated root (some other_root) store
store-IsIsolated = record { same_actor = refl; same_evaluator = refl; readable = tt }

first_state-IsSettled : IsSettled first (first_state first 3)
first_state-IsSettled = record {
  h = first;
  only = refl;
  same_id = refl;
  unknowns = refl;
  decided = refl;
}

failed_run : (e : Failure) × ((run_script world (config 4) view script store).0 ≡ err e)
unfolding run_script observe_all observe_one close initial_state terminate apply_update change_first
    read_evidence load_evidence_record read_text read_bytes resolve_actor_path is_relative_posix
    parts is_stale observe sha256_bytes decode_utf8 reject_passes iter_answer_field_hits
    is_answer_field lower evidence_record line_span hash_prefix relative_path
failed_run = err_of (run_script world (config 4) view script store).0 refl

run_script-IsExplained_example : IsExplained world view script 4 ("e1" ∷ []) store failed_run.0
run_script-IsExplained_example =
    run_script-IsExplained world view script (config 4) 4 store failed_run.0 refl failed_run.1

evidence_read :
    (ro : EvidenceRecord × Observation) × ((read_evidence world view "e1" none store).0 ≡ ok ro)
unfolding read_evidence load_evidence_record read_text read_bytes resolve_actor_path
    is_relative_posix parts is_stale observe sha256_bytes decode_utf8 reject_passes
    iter_answer_field_hits is_answer_field lower evidence_record line_span hash_prefix relative_path
evidence_read = ok_of (read_evidence world view "e1" none store).0 refl

read_evidence-IsVerified_example :
    IsVerified world view "e1" none root (some other_root) evidence_read.0.0 evidence_read.0.1
read_evidence-IsVerified_example =
    read_evidence-IsVerified world root (some other_root) view "e1" none store evidence_read.0.0
      evidence_read.0.1 store-IsIsolated evidence_read.1

read_evidence-keeps_isolation_example :
    IsIsolated root (some other_root) (read_evidence world view "e2" (some "g") store).1
read_evidence-keeps_isolation_example =
    read_evidence-keeps_isolation world root (some other_root) view "e2" (some "g") store
      store-IsIsolated

close-IsUnresolved_example :
    (state' : AuditState) × (close (first_state first 3) ≡ ok state')
    × IsUnresolved (first_state first 3) state'
close-IsUnresolved_example =
    close-IsUnresolved first (first_state first 3) first_state-IsSettled refl

updated : (state : AuditState) × (apply_update (first_state first 3) update ≡ ok state)
unfolding terminate apply_update change_first update_hypothesis append_all append_new drop_all
    drop_item cleared outcome_of
updated = ok_of (apply_update (first_state first 3) update) refl

apply_update-IsSettled_example : IsSettled first updated.0
apply_update-IsSettled_example =
    apply_update-IsSettled first (first_state first 3) updated.0 update first_state-IsSettled refl
      updated.1

update_hypothesis-IsUnique_example :
    IsUnique (update_hypothesis update first).support_refs
    × IsUnique (update_hypothesis update first).counter_refs
update_hypothesis-IsUnique_example = update_hypothesis-IsUnique update first tt tt

reject_passes_iff_example :
    (reject_passes (obj (field "note" (arr (cons (obj (field "label" null end)) nil)) end)) ≡ true)
    ↔ ((key : String)
        → Occurs key (obj (field "note" (arr (cons (obj (field "label" null end)) nil)) end))
        → is_answer_field key ≡ false)
reject_passes_iff_example =
    reject_passes_iff (obj (field "note" (arr (cons (obj (field "label" null end)) nil)) end))

views_built : (vs : HistoryView × SbsView) × (build_views view (first_state first 3) [] ≡ ok vs)
unfolding build_views views_of
views_built = ok_of (build_views view (first_state first 3) []) refl

build_views-share_example : views_share_evidence views_built.0.0 views_built.0.1 ≡ true
build_views-share_example =
    build_views-share view (first_state first 3) [] views_built.0.0 views_built.0.1 views_built.1
