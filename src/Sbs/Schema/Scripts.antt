-- ===== src/Sbs/Schema/Scripts.antt =====
-- `Hypothesis`, `ScriptedUpdate`, `ReplayScript` and `CandidatePair` of src/sbs/schema.py, read
-- from JSON: `none` is a ValidationError.
use iclr.Base.{String, Bool, true, false, Option, none, some, List, [], ◌∷◌}
use iclr.Base.Options.{◌>>=◌, ◌>>◌, guard}
use iclr.Json.{Json, obj, Fields, end, field}
use iclr.Sbs.Schema.Fields.{
  required, defaulted, optional, as_str, as_list, as_literal, as_actor_model, split_names,
  status_names, terminal_names, candidate_status_names,
}
use iclr.Sbs.Schema.Records.{
  Hypothesis, HypothesisStatus, ScriptedUpdate, ReplayScript, CandidatePair, CandidateStatus,
}

unfoldable pub hypothesis : Json → Option Hypothesis
hypothesis value = do
  fs ←
      as_actor_model
        ("hypothesis_id" ∷ "entities" ∷ "security_relation" ∷ "relation_source" ∷ "support_refs"
          ∷ "counter_refs" ∷ "unknowns" ∷ "status" ∷ [])
        value
  hypothesis_id ← required as_str "hypothesis_id" fs
  entities ← required (as_list as_str) "entities" fs
  security_relation ← required as_str "security_relation" fs
  relation_source ← required as_str "relation_source" fs
  support_refs ← defaulted (as_list as_str) [] "support_refs" fs
  counter_refs ← defaulted (as_list as_str) [] "counter_refs" fs
  unknowns ← defaulted (as_list as_str) [] "unknowns" fs
  status ← defaulted (as_literal status_names) HypothesisStatus.opened "status" fs
  some (record {
    hypothesis_id = hypothesis_id;
    entities = entities;
    security_relation = security_relation;
    relation_source = relation_source;
    support_refs = support_refs;
    counter_refs = counter_refs;
    unknowns = unknowns;
    status = status;
  })

unfoldable pub scripted_update : Json → Option ScriptedUpdate
scripted_update value = do
  fs ←
      as_actor_model
        ("hypothesis_id" ∷ "add_support" ∷ "add_counter" ∷ "add_unknowns" ∷ "remove_unknowns"
          ∷ "status" ∷ "terminal" ∷ "termination_reason" ∷ [])
        value
  hypothesis_id ← required as_str "hypothesis_id" fs
  add_support ← defaulted (as_list as_str) [] "add_support" fs
  add_counter ← defaulted (as_list as_str) [] "add_counter" fs
  add_unknowns ← defaulted (as_list as_str) [] "add_unknowns" fs
  remove_unknowns ← defaulted (as_list as_str) [] "remove_unknowns" fs
  status ← defaulted (optional (as_literal status_names)) none "status" fs
  terminal ← defaulted (optional (as_literal terminal_names)) none "terminal" fs
  termination_reason ← defaulted (optional as_str) none "termination_reason" fs
  some (record {
    hypothesis_id = hypothesis_id;
    add_support = add_support;
    add_counter = add_counter;
    add_unknowns = add_unknowns;
    remove_unknowns = remove_unknowns;
    status = status;
    terminal = terminal;
    termination_reason = termination_reason;
  })

-- `dict[str, ScriptedUpdate]`
unfoldable pub scripted_updates : Fields → Option (List (String × ScriptedUpdate))
unfolding scripted_update
scripted_updates end = some []
scripted_updates (field key v fs) =
    scripted_update v >>= λ update. scripted_updates fs >>= λ rest. some ((key, update) ∷ rest)

abbrev updates_of : Json → Option (List (String × ScriptedUpdate))
updates_of (obj fs) = scripted_updates fs
updates_of _ = none

unfoldable pub replay_script : Json → Option ReplayScript
unfolding hypothesis scripted_updates
replay_script value = do
  fs ←
      as_actor_model ("observation_order" ∷ "initial_hypothesis" ∷ "updates" ∷ "script_kind" ∷ [])
        value
  observation_order ← required (as_list as_str) "observation_order" fs
  initial_hypothesis ← required hypothesis "initial_hypothesis" fs
  updates ← required updates_of "updates" fs
  defaulted (as_literal (("fixture_script", tt) ∷ [])) tt "script_kind" fs
  some (record {
    observation_order = observation_order;
    initial_hypothesis = initial_hypothesis;
    updates = updates;
  })

-- `CandidatePair._nulls_are_explicit`
unfoldable pub nulls_are_explicit : CandidateStatus → Bool
nulls_are_explicit CandidateStatus.human_verified = false
nulls_are_explicit _ = true

unfoldable pub candidate_pair : Json → Option CandidatePair
unfolding nulls_are_explicit
candidate_pair value = do
  fs ←
      as_actor_model
        ("pair_id" ∷ "project_family" ∷ "dataset_origin" ∷ "dataset_revision" ∷ "source_locator"
          ∷ "buggy_revision" ∷ "fixed_revision" ∷ "category_claim" ∷ "obligation_basis" ∷ "status"
          ∷ "license_note" ∷ "split" ∷ "blocker" ∷ "local_catalog_key" ∷ [])
        value
  pair_id ← required as_str "pair_id" fs
  project_family ← required as_str "project_family" fs
  dataset_origin ← required as_str "dataset_origin" fs
  dataset_revision ← required (optional as_str) "dataset_revision" fs
  source_locator ← required (optional as_str) "source_locator" fs
  buggy_revision ← required (optional as_str) "buggy_revision" fs
  fixed_revision ← required (optional as_str) "fixed_revision" fs
  category_claim ← required as_str "category_claim" fs
  obligation_basis ← required (optional as_str) "obligation_basis" fs
  status ← required (as_literal candidate_status_names) "status" fs
  license_note ← required (optional as_str) "license_note" fs
  split ← required (as_literal split_names) "split" fs
  blocker ← defaulted (optional as_str) none "blocker" fs
  local_catalog_key ← defaulted (optional as_str) none "local_catalog_key" fs
  guard (nulls_are_explicit status)
  some (record {
    pair_id = pair_id;
    project_family = project_family;
    dataset_origin = dataset_origin;
    dataset_revision = dataset_revision;
    source_locator = source_locator;
    buggy_revision = buggy_revision;
    fixed_revision = fixed_revision;
    category_claim = category_claim;
    obligation_basis = obligation_basis;
    status = status;
    license_note = license_note;
    split = split;
    blocker = blocker;
    local_catalog_key = local_catalog_key;
  })
