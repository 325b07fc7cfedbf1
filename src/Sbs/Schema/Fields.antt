-- ===== src/Sbs/Schema/Fields.antt =====
-- How pydantic reads one field of a model of src/sbs/schema.py, and the validators of fields.
use iclr.Base.{
  String, Bool, not, ◌&&◌, ◌||◌, Option, none, some, List, [], ◌∷◌, ◌==◌, length, map, is_unique,
  str_eq, ltb, if◌then◌else◌,
}
use iclr.Base.Options.{◌>>=◌, ◌>>◌, guard}
use iclr.Base.Texts.{codes, starts_with, contains, lower}
use iclr.Base.Integers.{ℤ}
use iclr.Json.{Json, null, str, arr, obj, Items, nil, cons, Fields, get, only_keys}
use iclr.Sbs.Schema.Answers.{reject_passes}
use iclr.Sbs.Schema.Records.{
  SplitId, MaterialKind, SourceCategory, Representation, HypothesisStatus, TerminalKind,
  CandidateStatus,
}

-- What pydantic does on its own in its lax mode.
pub record Pydantic : Type 0 where
  -- the conversion of a value to an `int`, which also takes some floats and texts
  pub lax_int : Json → Option ℤ
  -- the tests against `Literal[0]`, `Literal[False]`
  pub is_literal_zero : Json → Bool
  pub is_literal_false : Json → Bool

-- A required field.
abbrev pub required : {A : Type 0} → (Json → Option A) → String → Fields → Option A
required read name fs = get name fs >>= read

-- A field with a default.
abbrev pub defaulted : {A : Type 0} → (Json → Option A) → A → String → Fields → Option A
defaulted read default name fs = elim (get name fs) [ none ↦ some default | some v ↦ read v ]

-- `T | None`
abbrev pub optional : {A : Type 0} → (Json → Option A) → Json → Option (Option A)
optional read null = some none
optional read v = read v >>= λ a. some (some a)

abbrev pub as_str : Json → Option String
as_str (str s) = some s
as_str _ = none

-- `list[T]`
abbrev pub as_items : {A : Type 0} → (Json → Option A) → Items → Option (List A)
as_items read nil = some []
as_items read (cons x xs) = read x >>= λ a. as_items read xs >>= λ rest. some (a ∷ rest)

abbrev pub as_list : {A : Type 0} → (Json → Option A) → Json → Option (List A)
as_list read (arr xs) = as_items read xs
as_list read _ = none

-- A literal type: the value of the name that the text is.
abbrev pub one_of : {A : Type 0} → List (String × A) → String → Option A
one_of [] s = none
one_of ((name, a) ∷ rest) s = if str_eq s name then some a else one_of rest s

abbrev pub as_literal : {A : Type 0} → List (String × A) → Json → Option A
as_literal names v = as_str v >>= one_of names

-- An object whose keys are fields of the model, with `extra="forbid"` and the validator
-- `_ActorModel._reject_answer_fields`.
abbrev pub as_actor_model : List String → Json → Option Fields
as_actor_model names (obj fs) =
    guard (reject_passes (obj fs)) >> guard (only_keys names fs) >> some fs
as_actor_model names _ = none

abbrev pub split_names : List (String × SplitId)
split_names = ("dev_pilot", SplitId.dev_pilot) ∷ []

abbrev pub material_names : List (String × MaterialKind)
material_names = ("fixture", MaterialKind.fixture) ∷ ("real", MaterialKind.real) ∷ []

abbrev pub category_names : List (String × SourceCategory)
category_names =
    ("source_snippet", SourceCategory.source_snippet)
    ∷ ("structured_record", SourceCategory.structured_record)
    ∷ ("document_excerpt", SourceCategory.document_excerpt)
    ∷ []

abbrev pub status_names : List (String × HypothesisStatus)
status_names =
    ("open", HypothesisStatus.opened)
    ∷ ("supported", HypothesisStatus.supported)
    ∷ ("refuted", HypothesisStatus.refuted)
    ∷ ("unresolved", HypothesisStatus.unresolved)
    ∷ []

abbrev pub terminal_names : List (String × TerminalKind)
terminal_names = ("FINISH", TerminalKind.finish) ∷ ("UNRESOLVED", TerminalKind.unresolved) ∷ []

abbrev pub representation_names : List (String × Representation)
representation_names = ("history", Representation.history) ∷ ("sbs", Representation.sbs) ∷ []

abbrev pub candidate_status_names : List (String × CandidateStatus)
candidate_status_names =
    ("metadata_only", CandidateStatus.metadata_only)
    ∷ ("source_resolved", CandidateStatus.source_resolved)
    ∷ ("evidence_draft", CandidateStatus.evidence_draft)
    ∷ ("human_verified", CandidateStatus.human_verified)
    ∷ ("excluded", CandidateStatus.excluded)
    ∷ []

-- `EvidenceRecord._hash_prefix`
unfoldable pub hash_prefix : String → Bool
hash_prefix value = starts_with (codes value) (codes "sha256:") && length (codes value) == 71

-- `EvidenceRecord._relative_path`
unfoldable pub relative_path : String → Bool
relative_path value =
    let text = codes value in
    not (length text == 0) && not (starts_with text (codes "/")) && not (contains text (codes "\\"))

-- `CaseView._opaque_case_id`
unfoldable pub opaque_case_id : String → Bool
unfolding lower
opaque_case_id value =
    let lowered = map lower (codes value) in
    not (starts_with lowered (codes "cve-") || starts_with lowered (codes "ghsa-"))

-- `CaseView._unique_ids`
unfoldable pub unique_ids : List String → Bool
unfolding is_unique
unique_ids value = ltb 0 (length value) && is_unique value
