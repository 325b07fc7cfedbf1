-- ===== src/Egsi/Teacher/Cache/Store.antt =====
-- `TeacherCache` and `CachedTeacher` of src/egsi/teacher/cache.py.
use iclr.Base.{
  ℕ, Bool, true, false, not, ◌&&◌, if◌then◌else◌, Option, none, some, List, Result, ok, err,
  or_raise,
}
use iclr.Base.Exec.{pure, raise, lift, ◌>>=◌, ◌>>◌}
use iclr.Base.Texts.{codes_eq}
use iclr.Egsi.Teacher.Cache.Directory.{open_directory}
use iclr.Egsi.Teacher.Cache.Entry.{Entry, read_entry_at}
use iclr.Egsi.Teacher.Cache.Keys.{cache_key, path_for}
use iclr.Egsi.Teacher.Cache.Run.{
  Failure, os_error, runtime_error, value_error, teacher_error, System, Action, closing, raise_when,
  finally, except,
}
use iclr.Egsi.Teacher.Cache.Write.{serialized_response, atomic_write_at}
use iclr.Egsi.Teacher.Responses.{
  Text, TeacherRequest, TeacherResponse, response_is_valid, with_cached,
}

-- What the cache stands on besides the system: the digests of a response and of a key, the JSON of a
-- response, and the decoding of one with the types of its fields.
pub record Codec : Type 0 where
  pub digest : TeacherResponse → Text
  pub key_digest : Text → Text → TeacherRequest → Option Text → Option Text
  pub dump : TeacherResponse → List ℕ
  pub parse : List ℕ → Option TeacherResponse

-- A teacher, whose answer may be an exception.
pub record Teacher (W : Type 0) : Type 0 where
  pub provider : Text
  pub model : Text
  pub cache_identity : Option Text
  pub ask : TeacherRequest → W → Option TeacherResponse × W

-- `TeacherResponse.model_validate(json.loads(raw))`, as it is read from the cache.
unfoldable pub decoded : Codec → List ℕ → Option TeacherResponse
decoded codec raw = elim (codec.parse raw) [
  | none ↦ none
  | some r ↦ if response_is_valid codec.digest r then some (with_cached r true) else none
]

abbrev pub decode_entry : Codec → Entry → Result Failure (Option TeacherResponse)
decode_entry codec none = ok none
decode_entry codec (some (raw, token)) = elim (decoded codec raw) [
  | none ↦ err value_error
  | some r ↦ ok (some r)
]

module _ {W : Type 0} where
  -- `except (OSError, ..., ValueError): raise RuntimeError("teacher cache invalid")`
  abbrev pub cache_invalid : {A : Type 0} → Failure → Action W A
  cache_invalid (os_error fault) = raise runtime_error
  cache_invalid value_error = raise runtime_error
  cache_invalid e = raise e

  -- `except Exception: raise RuntimeError("teacher cache write failed")`
  abbrev pub write_failed : {A : Type 0} → Failure → Action W A
  write_failed e = raise runtime_error

module _ {W : Type 0} (sys : System W) (codec : Codec) (directory : List Text) where
  unfoldable pub read_response : Text → ℕ → Action W (Option TeacherResponse)
  read_response name fd = read_entry_at sys fd name >>= λ entry. lift (decode_entry codec entry)

  -- The body of `read` with its directory, which is closed in the end.
  abbrev pub read_under : Text → Option ℕ → Action W (Option TeacherResponse)
  read_under name none = pure none
  read_under name (some fd) =
      finally (except (read_response name fd) cache_invalid) (closing fd (sys.close fd))

  -- `TeacherCache.read`
  unfoldable pub read : Text → Action W (Option TeacherResponse)
  read key = do
    name ← lift (or_raise (path_for key) value_error)
    directory_fd ← except (open_directory sys false directory) cache_invalid
    read_under name directory_fd

  abbrev pub write_under : Text → List ℕ → Option ℕ → Action W (Unit {0})
  write_under name raw none = raise runtime_error
  write_under name raw (some fd) =
      finally (except (atomic_write_at sys fd name raw) write_failed) (closing fd (sys.close fd))

  -- `TeacherCache.write`
  unfoldable pub write : Text → TeacherResponse → Action W (Unit {0})
  write key response = do
    name ← lift (or_raise (path_for key) value_error)
    raw ← lift (or_raise (serialized_response codec.digest codec.dump response) runtime_error)
    directory_fd ← except (open_directory sys true directory) write_failed
    write_under name raw directory_fd

  module _ (teacher : Teacher W) where
    -- `_validate_requested_identity` does not raise.
    unfoldable pub has_requested_identity : TeacherResponse → Bool
    has_requested_identity response =
        codes_eq response.provider teacher.provider
        && codes_eq response.model teacher.model
        && codes_eq response.requested_model teacher.model

    abbrev pub ask : TeacherRequest → Action W TeacherResponse
    ask request run = (
      or_raise (teacher.ask request run.world).0 teacher_error,
      record run { world = (teacher.ask request run.world).1 },
    )

    -- The rest of `generate` with what the cache has.
    unfoldable pub answer :
        Text → TeacherRequest → Option TeacherResponse → Action W TeacherResponse
    answer key request (some cached) =
        raise_when (not (has_requested_identity cached)) runtime_error >> pure cached
    answer key request none = do
      response ← ask request
      raise_when (not (has_requested_identity response)) runtime_error
      write key response
      pure response

    -- `CachedTeacher.generate`
    unfoldable pub generate : TeacherRequest → Action W TeacherResponse
    generate request = do
      key ← lift (
          or_raise
            (cache_key codec.key_digest teacher.provider teacher.model request
              teacher.cache_identity)
            value_error)
      cached ← read key
      answer key request cached
