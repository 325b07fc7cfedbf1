-- ===== src/Egsi/Teacher/Cache/Write.antt =====
-- The writing of an entry in src/egsi/teacher/cache.py: `_atomic_write_at` and what it calls.
use iclr.Base.{
  ℕ, Bool, true, false, not, ◌&&◌, if◌then◌else◌, Option, none, some, List, ◌++◌, ◌==◌, ltb, length,
  ok,
}
use iclr.Base.Exec.{pure, raise, ◌>>=◌, ◌>>◌}
use iclr.Base.Texts.{codes, codes_eq}
use iclr.Egsi.Teacher.Cache.Entry.{
  Entry, invalid, max_cache_entry_bytes, is_regular, token_eq, is_cache_file, stat_entry,
  read_entry_at,
}
use iclr.Egsi.Teacher.Cache.Run.{
  Failure, os_error, file_not_found, runtime_error, Info, System, Action, call, opening, closing,
  raise_when, finally, except, on_failure,
}
use iclr.Egsi.Teacher.Responses.{Text, TeacherResponse, response_is_valid}

-- The bytes of an entry, where there is one.
abbrev pub raw_of : Entry → Option (List ℕ)
raw_of none = none
raw_of (some (raw, token)) = some raw

abbrev pub token_of : Entry → Option Info
token_of none = none
token_of (some (raw, token)) = some token

abbrev pub raw_eq : Option (List ℕ) → Option (List ℕ) → Bool
raw_eq none none = true
raw_eq (some a) (some b) = codes_eq a b
raw_eq _ _ = false

abbrev pub tokens_eq : Option Info → Option Info → Bool
tokens_eq none none = true
tokens_eq (some a) (some b) = token_eq a b
tokens_eq _ _ = false

-- `f".{name}.{secrets.token_hex(16)}.tmp"`
abbrev pub temporary_name : Text → Text → Text
temporary_name name token = codes "." ++ name ++ codes "." ++ token ++ codes ".tmp"

-- `_serialized_response`; `dump` is the sorted JSON of a response.
unfoldable pub serialized_response :
    (TeacherResponse → Text) → (TeacherResponse → List ℕ) → TeacherResponse → Option (List ℕ)
serialized_response digest dump response =
    if response_is_valid digest response && not (ltb max_cache_entry_bytes (length (dump response)))
    then some (dump response)
    else none

module _ {W : Type 0} where
  abbrev pub or_done : Failure → Action W (Unit {0})
  or_done (os_error file_not_found) = pure tt
  or_done e = raise e

module _ {W : Type 0} (sys : System W) (directory_fd : ℕ) where
  abbrev pub token_if_valid : Option Info → Action W (Option Info)
  token_if_valid none = pure none
  token_if_valid (some info) = raise_when (not (is_cache_file info)) invalid >> pure (some info)

  -- `_destination_token_at`
  unfoldable pub destination_token_at : Text → Action W (Option Info)
  destination_token_at name = stat_entry sys directory_fd name >>= token_if_valid

  -- `_unlink_temporary_at`
  unfoldable pub unlink_temporary_at : Text → Action W (Unit {0})
  unlink_temporary_at name = except (call (sys.unlink_at directory_fd name)) or_done

  -- The tests on the temporary file that was opened.
  unfoldable pub check_temporary : ℕ → Action W (Unit {0})
  check_temporary fd = call (sys.fstat fd) >>= λ info.
      raise_when (not (is_regular info.mode && info.nlink == 1)) invalid

  -- After a failure of the replacement: what stands there now decides.
  unfoldable pub settle_replace : Text → Text → List ℕ → Entry → Failure → Action W (Unit {0})
  settle_replace name temporary raw previous replace_error =
      read_entry_at sys directory_fd name >>= λ observed.
      elim (raw_eq (raw_of observed) (some raw)) [
        | true ↦ unlink_temporary_at temporary
        | false ↦ elim (raw_eq (raw_of observed) (raw_of previous)) [
          | true ↦ raise replace_error
          | false ↦ raise runtime_error
        ]
      ]

  -- From the verification of the temporary file to the replacement.
  unfoldable pub replace_entry : Text → Text → List ℕ → Entry → Action W (Unit {0})
  replace_entry name temporary raw previous = do
    written ← read_entry_at sys directory_fd temporary
    raise_when (not (raw_eq (raw_of written) (some raw))) invalid
    token ← destination_token_at name
    raise_when (not (tokens_eq token (token_of previous))) invalid
    except (call (sys.replace_at directory_fd temporary name))
        (settle_replace name temporary raw previous)

  -- The verification of the entry, and the synchronisation, whose failure is passed over.
  unfoldable pub confirm : Text → List ℕ → Action W (Unit {0})
  confirm name raw = do
    committed ← read_entry_at sys directory_fd name
    raise_when (not (raw_eq (raw_of committed) (some raw))) invalid
    except (call (sys.fsync directory_fd)) (λ e. pure tt)

  -- The tests on the open file; if they fail it is closed, and its name unlinked.
  unfoldable pub accept_temporary : Text → ℕ → Action W (Unit {0})
  accept_temporary temporary fd =
      on_failure (check_temporary fd) (closing fd (sys.close fd) >> unlink_temporary_at temporary)

  -- From the writing, which closes the file, to the replacement; on a failure the name is unlinked.
  unfoldable pub install : Text → Text → List ℕ → Entry → ℕ → Action W (Unit {0})
  install name temporary raw previous fd =
      on_failure
        (finally (call (sys.write fd raw)) (closing fd (sys.close fd))
          >> replace_entry name temporary raw previous)
        (unlink_temporary_at temporary)

  -- The body of the `try`, with what its `finally` does.
  unfoldable pub write_temporary : Text → Text → List ℕ → Entry → ℕ → Action W (Unit {0})
  write_temporary name temporary raw previous fd =
      accept_temporary temporary fd >> install name temporary raw previous fd >> confirm name raw

  abbrev pub fresh_token : Action W Text
  fresh_token run =
      (ok (sys.token_hex run.world).0, record run { world = (sys.token_hex run.world).1 })

  -- `_atomic_write_at`
  unfoldable pub atomic_write_at : Text → List ℕ → Action W (Unit {0})
  atomic_write_at name raw = do
    previous ← read_entry_at sys directory_fd name
    token ← fresh_token
    fd ← opening (sys.create_at directory_fd (temporary_name name token))
    write_temporary name (temporary_name name token) raw previous fd
