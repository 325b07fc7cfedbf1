-- ===== src/Sbs/Tests.antt =====
-- A small world, the test runs in it, and the theorems of the package at those inputs.
mod Examples
mod Records
use iclr.Base.{
  ℕ, zero, String, ◌≡◌, refl, Bool, true, false, ◌&&◌, Option, none, some, List, [], ◌∷◌, Result,
  ok, err, if◌then◌else◌, dedup_from, is_unique,
}
use iclr.Base.Integers.{ℤ, pos}
use iclr.Base.PosixPath.{parts}
use iclr.Base.Texts.{codes, codes_eq, lower}
use iclr.Base.Utf8.{decode_utf8}
use iclr.Json.{Json, bool, int, str, arr, obj, nil, cons, end, field}
use iclr.Sbs.Errors.{Failure}
use iclr.Sbs.Isolation.Paths.{FilePath, is_relative_posix}
use iclr.Sbs.Isolation.Store.{
  World, Contents, bytes, not_found, open_store, read_evidence, load_case_view,
  load_evidence_record, read_text, read_bytes, resolve_actor_path, is_stale, observe, sha256_bytes,
  evaluator_was_read,
}
use iclr.Sbs.Replay.Case.{
  CaseResult, replay_case, replay_store, run_script, observe_all, observe_one, close, initial_state,
}
use iclr.Sbs.Replay.Update.{
  terminate, apply_update, change_first, update_hypothesis, append_all, append_new, drop_all,
  drop_item, cleared, outcome_of,
}
use iclr.Sbs.Schema.Answers.{reject_passes, iter_answer_field_hits, is_answer_field}
use iclr.Sbs.Schema.Fields.{hash_prefix, relative_path, opaque_case_id, unique_ids}
use iclr.Sbs.Schema.Models.{case_view, evidence_record, line_span}
use iclr.Sbs.Schema.Records.{SmokeConfig, SplitId, Representation, TerminalKind}
use iclr.Sbs.Schema.Scripts.{replay_script, scripted_updates, scripted_update, hypothesis}
use iclr.Sbs.Views.{
  build_views, views_of, views_share_evidence, history_observation_order,
  history_visible_evidence_ids, sbs_observation_order, sbs_visible_evidence_ids, observation_ids,
}

abbrev int_of : Json → Option ℤ
int_of (int n) = some n
int_of _ = none

abbrev is_zero : Json → Bool
is_zero (int (pos zero)) = true
is_zero _ = false

abbrev is_false : Json → Bool
is_false (bool false) = true
is_false _ = false

abbrev case_json : Json
case_json = obj (
    field "case_id" (str "case-0001") (
      field "visible_context" (str "ctx") (
        field "allowed_evidence_ids" (arr (cons (str "e1") (cons (str "e2") nil)))
          (field "split" (str "dev_pilot") (field "material_kind" (str "fixture") end)))))

abbrev record_json : String → Json
record_json id = obj (
    field "evidence_id" (str id) (
      field "display_path" (str "src/A.java") (
        field "content_sha256"
          (str "sha256:aaaaaaaaaaaaaaaaaaaaaaaaaaaaaaaaaaaaaaaaaaaaaaaaaaaaaaaaaaaaaaaa")
          (field "source_category" (str "source_snippet") (
            field "material_kind" (str "fixture")
              (field "relative_read_path" (str "evidence/body") end))))))

abbrev script_json : Json
script_json = obj (
    field "observation_order" (arr (cons (str "e1") (cons (str "e2") nil))) (
      field "initial_hypothesis"
        (obj (
          field "hypothesis_id" (str "h1") (
            field "entities" (arr nil) (
              field "security_relation" (str "r") (
                field "relation_source" (str "s")
                  (field "unknowns" (arr (cons (str "u1") nil)) end))))))
        (field "updates"
          (obj (
            field "e2"
              (obj (
                field "hypothesis_id" (str "h1") (
                  field "add_support" (arr (cons (str "e2") nil)) (
                    field "remove_unknowns" (arr (cons (str "u1") nil))
                      (field "status" (str "supported") (field "terminal" (str "FINISH") end))))))
              end))
          end)))

-- The files of the actor: the contents stand for their values.
abbrev root : FilePath
root = codes "actor" ∷ []

abbrev other_root : FilePath
other_root = codes "evaluator" ∷ []

abbrev path_eq : FilePath → FilePath → Bool
path_eq [] [] = true
path_eq (x ∷ xs) (y ∷ ys) = codes_eq x y && path_eq xs ys
path_eq xs ys = false

abbrev files : List (FilePath × List ℕ)
files =
    (codes "actor" ∷ codes "case.json" ∷ [], codes "case")
    ∷ (codes "actor" ∷ codes "script.json" ∷ [], codes "script")
    ∷ (codes "actor" ∷ codes "evidence" ∷ codes "e1.json" ∷ [], codes "e1")
    ∷ (codes "actor" ∷ codes "evidence" ∷ codes "e2.json" ∷ [], codes "e2")
    ∷ (codes "actor" ∷ codes "evidence" ∷ codes "body" ∷ [], codes "body")
    ∷ []

abbrev contents_of : FilePath → List (FilePath × List ℕ) → Contents
contents_of path [] = not_found
contents_of path ((p, body) ∷ rest) = if path_eq p path then bytes body else contents_of path rest

abbrev parse : List ℕ → Option Json
parse text =
    if codes_eq text (codes "case")
    then some case_json
    else if codes_eq text (codes "script")
    then some script_json
    else if codes_eq text (codes "e1")
    then some (record_json "e1")
    else if codes_eq text (codes "e2")
    then some (record_json "e2")
    else none

abbrev world : World
world = record {
  resolve = λ path. some path;
  read_file = λ path. contents_of path files;
  hexdigest = λ _. codes "aaaaaaaaaaaaaaaaaaaaaaaaaaaaaaaaaaaaaaaaaaaaaaaaaaaaaaaaaaaaaaaa";
  json_loads = parse;
  pydantic_json = parse;
  pydantic = record { lax_int = int_of; is_literal_zero = is_zero; is_literal_false = is_false };
}

abbrev config : ℕ → SmokeConfig
config budget = record {
  seed = pos 17;
  representations = Representation.history ∷ Representation.sbs ∷ [];
  max_observations = pos budget;
  split = SplitId.dev_pilot;
  fixtures_root = "fixtures/r01";
}

abbrev terminal_of : Result Failure CaseResult → Option TerminalKind
terminal_of (ok c) = c.state.terminal
terminal_of (err e) = none

replayed : ℕ → Result Failure CaseResult
unfolding replay_case replay_store run_script observe_all observe_one close initial_state terminate
    apply_update change_first update_hypothesis append_all append_new drop_all drop_item cleared
    outcome_of build_views views_of views_share_evidence history_observation_order
    history_visible_evidence_ids sbs_observation_order sbs_visible_evidence_ids observation_ids
    dedup_from is_unique open_store load_case_view read_evidence load_evidence_record read_text
    read_bytes resolve_actor_path is_relative_posix parts is_stale observe sha256_bytes
    evaluator_was_read decode_utf8 reject_passes iter_answer_field_hits is_answer_field lower
    case_view evidence_record line_span replay_script scripted_updates scripted_update hypothesis
    hash_prefix relative_path opaque_case_id unique_ids
replayed budget = replay_case world root (config budget) (some other_root)

ends_finished : terminal_of (replayed 4) ≡ some TerminalKind.finish
unfolding replayed
ends_finished = refl

-- One observation is too few: the run ends unresolved.
ends_unresolved : terminal_of (replayed 1) ≡ some TerminalKind.unresolved
unfolding replayed
ends_unresolved = refl
