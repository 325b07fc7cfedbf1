-- ===== src/Egsi/Teacher/Responses.antt =====
-- `TeacherRequest` and `TeacherResponse` of src/egsi/teacher/base.py.
use iclr.Base.{ℕ, Bool, true, false, not, ◌&&◌, Option, some, List, [], ◌∷◌, ◌++◌, any, ltb}
use iclr.Base.Options.{◌>>◌, guard}
use iclr.Base.Texts.{codes, codes_eq}
use iclr.Egsi.Episode.Events.{is_sha256}
use iclr.Json.{Fields}

abbrev pub Text : Type 0
Text = List ℕ

-- `temperature` is whether the number is finite.
pub record TeacherRequest : Type 0 where
  pub system : Text
  pub user : Text
  pub schema : Fields
  pub temperature_is_finite : Bool
  pub max_tokens : ℕ

-- `latency_is_valid` is whether the latency is finite and not negative, `usage` has the sign of each
-- value.
pub record TeacherResponse : Type 0 where
  pub provider_request_id : Option Text
  pub provider : Text
  pub model : Text
  pub requested_model : Text
  pub provider_response_model : Text
  pub text : Text
  pub usage : List (Text × Bool)
  pub latency_is_valid : Bool
  pub cached : Bool
  pub response_commitment_sha256 : Text

abbrev pub is_given : Text → Bool
is_given [] = false
is_given (c ∷ cs) = true

-- The validators of `TeacherRequest`.
abbrev pub request_is_valid : TeacherRequest → Bool
request_is_valid request = request.temperature_is_finite && ltb 0 request.max_tokens

abbrev pub with_response_commitment : TeacherResponse → Text → TeacherResponse
with_response_commitment r commitment = record r { response_commitment_sha256 = commitment }

-- `model_copy(update={"cached": ...})`
abbrev pub with_cached : TeacherResponse → Bool → TeacherResponse
with_cached r cached = record r { cached = cached }

-- What the commitment is of: neither itself nor the state of the cache.
abbrev pub without_local : TeacherResponse → TeacherResponse
without_local r = with_cached (with_response_commitment r []) false

-- The field validators, and the tests of `validate_model_identity_and_commitment` on the models.
unfoldable pub response_fields_are_valid : TeacherResponse → Bool
response_fields_are_valid r =
    is_sha256 r.response_commitment_sha256
    && r.latency_is_valid
    && not (any (λ (entry : Text × Bool). entry.1) r.usage)
    && is_given r.model
    && is_given r.requested_model
    && codes_eq r.model r.requested_model
    && is_given r.provider_response_model

-- `digest` is SHA-256 over the canonical JSON, in hexadecimal.
module _ (digest : TeacherResponse → Text) where
  -- `teacher_response_commitment`
  unfoldable pub teacher_response_commitment : TeacherResponse → Text
  teacher_response_commitment r = codes "sha256:" ++ digest (without_local r)

  -- `TeacherResponse.model_validate`
  unfoldable pub response_is_valid : TeacherResponse → Bool
  response_is_valid r =
      response_fields_are_valid r
      && codes_eq r.response_commitment_sha256 (teacher_response_commitment r)

  -- `committed_teacher_response`; `none` is a ValidationError.
  unfoldable pub committed_teacher_response : TeacherResponse → Option TeacherResponse
  committed_teacher_response value = do
    let normalized =
        with_response_commitment value
          (codes "sha256:0000000000000000000000000000000000000000000000000000000000000000")
    guard (response_fields_are_valid normalized)
    let committed = with_response_commitment normalized (teacher_response_commitment normalized)
    guard (response_is_valid committed)
    some committed
