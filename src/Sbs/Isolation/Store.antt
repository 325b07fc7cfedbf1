-- ===== src/Sbs/Isolation/Store.antt =====
-- `IsolatedStore` of src/sbs/isolation.py, and `load_case_view`.
use iclr.Base.{
  ℕ, String, Bool, true, false, not, Option, none, some, List, [], ◌∷◌, ◌++◌, any, member, str_eq,
  Result, ok, err, or_raise,
}
use iclr.Base.Exec.{Exec, pure, raise, lift, gets, ◌>>=◌, ◌>>◌}
use iclr.Base.Texts.{codes, codes_eq, ends_with}
use iclr.Base.Utf8.{decode_utf8}
use iclr.Json.{Json}
use iclr.Sbs.Errors.{
  Failure, unauthorized_evidence, path_escape, evaluator_read, missing_evidence, hash_mismatch,
  stale_evidence, schema_answer_field, validation, json_decode, unicode_decode, os_error,
}
use iclr.Sbs.Isolation.Paths.{FilePath, is_relative_posix, is_under}
use iclr.Base.PosixPath.{parts}
use iclr.Sbs.Schema.Answers.{reject_passes}
use iclr.Sbs.Schema.Fields.{Pydantic}
use iclr.Sbs.Schema.Models.{evidence_record, case_view}
use iclr.Sbs.Schema.Records.{EvidenceRecord, CaseView, Observation}

-- What `read_bytes` of a file answers.
pub data Contents : Type 0 where
  bytes : List ℕ → Contents
  not_found failed : Contents

-- The file system and the libraries beneath the package.
pub record World : Type 0 where
  -- `Path.resolve`, which follows links; `none` is an error of the system
  pub resolve : FilePath → Option FilePath
  pub read_file : FilePath → Contents
  -- `hashlib.sha256(...).hexdigest()`
  pub hexdigest : List ℕ → List ℕ
  -- `json.loads`, and the parser of `model_validate_json`
  pub json_loads : List ℕ → Option Json
  pub pydantic_json : List ℕ → Option Json
  pub pydantic : Pydantic

pub record IsolatedStore : Type 0 where
  pub actor_root : FilePath
  pub evaluator_root : Option FilePath
  pub read_paths : List FilePath

abbrev pub Action : Type 0 → Type 0
Action A = Exec IsolatedStore Failure A

-- The path is inside the evaluator root, where there is one.
abbrev pub is_evaluator_path : Option FilePath → FilePath → Bool
is_evaluator_path none path = false
is_evaluator_path (some root) path = is_under root path

abbrev pub raise_when : Bool → Failure → Action Unit
raise_when true e = raise e
raise_when false e = pure tt

-- `sha256_bytes` of src/sbs/schema.py
unfoldable pub sha256_bytes : World → List ℕ → List ℕ
sha256_bytes w payload = codes "sha256:" ++ w.hexdigest payload

unfoldable pub evaluator_was_read : IsolatedStore → Bool
evaluator_was_read s = any (is_evaluator_path s.evaluator_root) s.read_paths

abbrev pub contents_or_raise : Contents → Action (List ℕ)
contents_or_raise (bytes body) = pure body
contents_or_raise not_found = raise missing_evidence
contents_or_raise failed = raise os_error

abbrev pub append_read : FilePath → Action Unit
append_read path s = (ok tt, record s { read_paths = s.read_paths ++ path ∷ [] })

-- The two tests of `read_evidence` on the generation of a record.
unfoldable pub is_stale : Option String → Option String → Bool
is_stale (some expected) (some generation) = not (str_eq generation expected)
is_stale none (some generation) = ends_with (codes generation) (codes "-stale")
is_stale _ none = false

-- The observation of a body that is or is not text.
unfoldable pub observe : String → EvidenceRecord → Option (List ℕ) → Observation
observe evidence_id r (some text) = record {
  evidence_id = evidence_id;
  material = some text;
  parseable = true;
  provenance = r.display_path;
  uncertainty = "none";
  found = true;
}
observe evidence_id r none = record {
  evidence_id = evidence_id;
  material = none;
  parseable = false;
  provenance = r.display_path;
  uncertainty = "not_found_unparseable";
  found = false;
}

module _ (w : World) where
  abbrev pub opened : FilePath → Option (Option FilePath) → Result Failure IsolatedStore
  opened root none = err os_error
  opened root (some evaluator_root) =
      ok (record { actor_root = root; evaluator_root = evaluator_root; read_paths = [] })

  -- `Path(root).resolve() if root is not None else None`
  abbrev pub resolve_optional : Option FilePath → Option (Option FilePath)
  resolve_optional none = some none
  resolve_optional (some root) = elim (w.resolve root) [
    | none ↦ none
    | some path ↦ some (some path)
  ]

  -- `IsolatedStore.__init__`
  unfoldable pub open_store : FilePath → Option FilePath → Result Failure IsolatedStore
  open_store actor_root evaluator_root = elim (w.resolve actor_root) [
    | none ↦ err os_error
    | some root ↦ opened root (resolve_optional evaluator_root)
  ]

  unfoldable pub resolve_actor_path : List ℕ → Action FilePath
  resolve_actor_path relative = do
    raise_when (not (is_relative_posix relative)) path_escape
    root ← gets (λ s. s.actor_root)
    resolved ← lift (or_raise (w.resolve (root ++ parts relative)) os_error)
    raise_when (not (is_under root resolved)) path_escape
    evaluator ← gets (λ s. s.evaluator_root)
    raise_when (is_evaluator_path evaluator resolved) evaluator_read
    pure resolved

  unfoldable pub read_bytes : List ℕ → Action (List ℕ)
  read_bytes relative = do
    path ← resolve_actor_path relative
    append_read path
    evaluator ← gets (λ s. s.evaluator_root)
    raise_when (is_evaluator_path evaluator path) evaluator_read
    contents_or_raise (w.read_file path)

  unfoldable pub read_text : List ℕ → Action (List ℕ)
  read_text relative = do
    body ← read_bytes relative
    lift (or_raise (decode_utf8 body) unicode_decode)

  unfoldable pub load_evidence_record : String → Action EvidenceRecord
  load_evidence_record evidence_id = do
    payload ← read_text (codes "evidence/" ++ codes evidence_id ++ codes ".json")
    value ← lift (or_raise (w.pydantic_json payload) validation)
    lift (or_raise (evidence_record w.pydantic value) validation)

  -- A missing record is raised again under the same class.
  unfoldable pub read_evidence :
      CaseView → String → Option String → Action (EvidenceRecord × Observation)
  read_evidence view evidence_id expected_generation = do
    raise_when (not (member evidence_id view.allowed_evidence_ids)) unauthorized_evidence
    r ← load_evidence_record evidence_id
    raise_when (not (str_eq r.evidence_id evidence_id)) hash_mismatch
    body ← read_bytes (codes r.relative_read_path)
    raise_when (not (codes_eq (sha256_bytes w body) (codes r.content_sha256))) hash_mismatch
    raise_when (is_stale expected_generation r.generation_id) stale_evidence
    pure (r, observe evidence_id r (decode_utf8 body))

  -- `load_case_view`, with `parse_case_view` of src/sbs/schema.py.
  unfoldable pub load_case_view : Action CaseView
  load_case_view = do
    payload ← read_text (codes "case.json")
    value ← lift (or_raise (w.json_loads payload) json_decode)
    raise_when (not (reject_passes value)) schema_answer_field
    lift (or_raise (case_view value) validation)
