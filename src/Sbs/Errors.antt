-- ===== src/Sbs/Errors.antt =====
-- src/sbs/errors.py, and the errors of Python and pydantic that the package lets pass.
pub data Failure : Type 0 where
  -- UnauthorizedEvidenceError, PathEscapeError, EvaluatorReadError, MissingEvidenceError
  unauthorized_evidence path_escape evaluator_read missing_evidence : Failure
  -- HashMismatchError, StaleEvidenceError, SchemaAnswerFieldError
  hash_mismatch stale_evidence schema_answer_field : Failure
  -- ValueScorerUnavailable, ReplayConfigError
  value_scorer_unavailable replay_config : Failure
  -- pydantic's ValidationError, json's JSONDecodeError, UnicodeDecodeError, another OSError
  validation json_decode unicode_decode os_error : Failure
  -- ValueError, TypeError, AttributeError, RuntimeError, StopIteration, IndexError, FileNotFoundError
  value_error type_error attribute_error runtime_error stop_iteration index_error file_not_found :
      Failure
