-- ===== src/Sbs/Schema/Models.antt =====
-- The validation of the models of src/sbs/schema.py that are read from JSON: `none` is a
-- ValidationError.
use iclr.Base.{Option, none, some, [], ◌∷◌}
use iclr.Base.Options.{◌>>=◌, ◌>>◌, guard}
use iclr.Json.{Json, get}
use iclr.Sbs.Schema.Fields.{
  Pydantic, required, defaulted, optional, as_str, as_list, as_literal, as_actor_model, split_names,
  material_names, category_names, representation_names, hash_prefix, relative_path, opaque_case_id,
  unique_ids,
}
use iclr.Sbs.Schema.Records.{LineSpan, EvidenceRecord, CaseView, SmokeConfig}

abbrev pub empty_span : LineSpan
empty_span = record { start_line = none; end_line = none }

module _ (pydantic : Pydantic) where
  open pydantic use {lax_int, is_literal_zero, is_literal_false}

  unfoldable pub line_span : Json → Option LineSpan
  line_span value = do
    fs ← as_actor_model ("start_line" ∷ "end_line" ∷ []) value
    start_line ← defaulted (optional lax_int) none "start_line" fs
    end_line ← defaulted (optional lax_int) none "end_line" fs
    some (record { start_line = start_line; end_line = end_line })

  unfoldable pub evidence_record : Json → Option EvidenceRecord
  unfolding line_span
  evidence_record value = do
    fs ←
        as_actor_model
          ("evidence_id" ∷ "display_path" ∷ "span" ∷ "content_sha256" ∷ "source_category"
            ∷ "material_kind" ∷ "generation_id" ∷ "source_revision" ∷ "relative_read_path" ∷ [])
          value
    evidence_id ← required as_str "evidence_id" fs
    display_path ← required as_str "display_path" fs
    guard (relative_path display_path)
    span ← defaulted line_span empty_span "span" fs
    content_sha256 ← required as_str "content_sha256" fs
    guard (hash_prefix content_sha256)
    source_category ← required (as_literal category_names) "source_category" fs
    material_kind ← required (as_literal material_names) "material_kind" fs
    generation_id ← defaulted (optional as_str) none "generation_id" fs
    source_revision ← defaulted (optional as_str) none "source_revision" fs
    relative_read_path ← required as_str "relative_read_path" fs
    guard (relative_path relative_read_path)
    some (record {
      evidence_id = evidence_id;
      display_path = display_path;
      span = span;
      content_sha256 = content_sha256;
      source_category = source_category;
      material_kind = material_kind;
      generation_id = generation_id;
      source_revision = source_revision;
      relative_read_path = relative_read_path;
    })

  unfoldable pub smoke_config : Json → Option SmokeConfig
  smoke_config value = do
    fs ←
        as_actor_model
          ("mode" ∷ "seed" ∷ "representations" ∷ "evidence_order" ∷ "max_observations" ∷ "split"
            ∷ "model_calls_allowed" ∷ "compute_detection_metrics" ∷ "fixtures_root"
            ∷ "value_scorer_available" ∷ [])
          value
    required (as_literal (("fixture_replay", tt) ∷ [])) "mode" fs
    seed ← required lax_int "seed" fs
    representations ← required (as_list (as_literal representation_names)) "representations" fs
    required (as_literal (("frozen", tt) ∷ [])) "evidence_order" fs
    max_observations ← required lax_int "max_observations" fs
    split ← required (as_literal split_names) "split" fs
    model_calls_allowed ← get "model_calls_allowed" fs
    guard (is_literal_zero model_calls_allowed)
    compute_detection_metrics ← get "compute_detection_metrics" fs
    guard (is_literal_false compute_detection_metrics)
    fixtures_root ← defaulted as_str "fixtures/r01" "fixtures_root" fs
    defaulted (λ v. guard (is_literal_false v)) tt "value_scorer_available" fs
    some (record {
      seed = seed;
      representations = representations;
      max_observations = max_observations;
      split = split;
      fixtures_root = fixtures_root;
    })

unfoldable pub case_view : Json → Option CaseView
case_view value = do
  fs ←
      as_actor_model
        ("case_id" ∷ "visible_context" ∷ "allowed_evidence_ids" ∷ "split" ∷ "material_kind"
          ∷ "project_family" ∷ [])
        value
  case_id ← required as_str "case_id" fs
  guard (opaque_case_id case_id)
  visible_context ← required as_str "visible_context" fs
  allowed_evidence_ids ← required (as_list as_str) "allowed_evidence_ids" fs
  guard (unique_ids allowed_evidence_ids)
  split ← required (as_literal split_names) "split" fs
  material_kind ← required (as_literal material_names) "material_kind" fs
  project_family ← defaulted (optional as_str) none "project_family" fs
  some (record {
    case_id = case_id;
    visible_context = visible_context;
    allowed_evidence_ids = allowed_evidence_ids;
    split = split;
    material_kind = material_kind;
    project_family = project_family;
  })
