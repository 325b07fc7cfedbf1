-- ===== src/Egsi/Teacher/Cache/Entry.antt =====
-- The reading of an entry in src/egsi/teacher/cache.py: `_read_entry_once_at` and `_read_entry_at`.
use iclr.Base.{
  ℕ, zero, suc, ◌-◌, ◌/◌, ◌%◌, Bool, true, false, not, ◌&&◌, if◌then◌else◌, Option, none, some,
  List, [], ◌∷◌, ◌++◌, length, leb, ◌==◌,
}
use iclr.Base.Exec.{pure, raise, ◌>>=◌, ◌>>◌}
use iclr.Egsi.Teacher.Cache.Run.{
  Failure, retryable_race, os_error, assertion_error, out_of_fuel, file_not_found, other_fault,
  Info, System, Action, call, opening, closing, raise_when, finally, except,
}
use iclr.Egsi.Teacher.Responses.{Text}

abbrev pub max_cache_entry_bytes : ℕ
max_cache_entry_bytes = 2097152

abbrev pub read_race_attempts : ℕ
read_race_attempts = 3

-- `stat.S_ISREG`
abbrev pub is_regular : ℕ → Bool
is_regular mode = mode / 4096 % 16 == 8

-- `_file_token(a) == _file_token(b)`
abbrev pub token_eq : Info → Info → Bool
token_eq a b =
    a.dev == b.dev
    && a.ino == b.ino
    && a.mode == b.mode
    && a.nlink == b.nlink
    && a.size == b.size
    && a.mtime_ns == b.mtime_ns
    && a.ctime_ns == b.ctime_ns

-- `_file_identity(a) == _file_identity(b)`
abbrev pub identity_eq : Info → Info → Bool
identity_eq a b = a.dev == b.dev && a.ino == b.ino

-- `_validate_cache_file` does not raise.
unfoldable pub is_cache_file : Info → Bool
is_cache_file info = is_regular info.mode && info.nlink == 1 && leb info.size max_cache_entry_bytes

-- What a read gives: the bytes and the token of the file, or nothing where there is no file.
abbrev pub Entry : Type 0
Entry = Option (List ℕ × Info)

abbrev pub invalid : Failure
invalid = os_error other_fault

-- The last test of a read.
abbrev pub is_unchanged : List ℕ → Info → Info → Bool
is_unchanged raw before after =
    leb (length raw) max_cache_entry_bytes && length raw == after.size && token_eq before after

module _ {W : Type 0} where
  -- `except FileNotFoundError: return None`
  abbrev pub or_none : {A : Type 0} → Failure → Action W (Option A)
  or_none (os_error file_not_found) = pure none
  or_none e = raise e

  -- `except FileNotFoundError: raise _RetryableCacheRace`
  abbrev pub or_race : {A : Type 0} → Failure → Action W A
  or_race (os_error file_not_found) = raise retryable_race
  or_race e = raise e

  abbrev pub unless_last : ℕ → Action W Entry → Action W Entry
  unless_last zero again = raise invalid
  unless_last (suc left) again = again

  -- `except _RetryableCacheRace`, with the attempts that are left and what they do.
  abbrev pub retry_race : ℕ → Action W Entry → Failure → Action W Entry
  retry_race left again retryable_race = unless_last left again
  retry_race left again e = raise e

module _ {W : Type 0} (sys : System W) where
  abbrev pub stat_entry : ℕ → Text → Action W (Option Info)
  stat_entry directory_fd name =
      except (call (sys.stat_at directory_fd name) >>= λ info. pure (some info)) or_none

  -- `while remaining: ...`, up to the end of the file.
  unfoldable pub read_chunks : ℕ → ℕ → ℕ → Action W (List ℕ)
  read_chunks zero fd remaining = raise out_of_fuel
  read_chunks (suc fuel) fd remaining = elim (remaining == 0) [
    | true ↦ pure []
    | false ↦ call (sys.read fd (if leb remaining 1048576 then remaining else 1048576)) >>= λ chunk.
        elim chunk [
          | [] ↦ pure []
          | b ∷ bs ↦
              read_chunks fuel fd (remaining - suc (length bs)) >>= λ rest. pure (b ∷ bs ++ rest)
        ]
  ]

  -- The part of a read between the open and the close.
  unfoldable pub read_open : Info → ℕ → Action W Entry
  read_open expected fd = do
    before ← call (sys.fstat fd)
    raise_when (not (is_cache_file before)) invalid
    raise_when (not (identity_eq expected before)) retryable_race
    raise_when (not (token_eq expected before)) invalid
    raw ← read_chunks (suc (suc max_cache_entry_bytes)) fd (suc max_cache_entry_bytes)
    after ← call (sys.fstat fd)
    raise_when (not (is_cache_file after)) invalid
    raise_when (not (is_unchanged raw before after)) invalid
    pure (some (raw, after))

  -- A read of a file that was there.
  unfoldable pub read_expected : ℕ → Text → Info → Action W Entry
  read_expected directory_fd name expected = do
    raise_when (not (is_cache_file expected)) invalid
    fd ← except (opening (sys.open_at directory_fd name)) or_race
    finally (read_open expected fd) (closing fd (sys.close fd))

  -- `_read_entry_once_at`
  unfoldable pub read_entry_once_at : ℕ → Text → Action W Entry
  read_entry_once_at directory_fd name = stat_entry directory_fd name >>= λ expected.
      elim expected [ none ↦ pure none | some info ↦ read_expected directory_fd name info ]

  -- The loop of `_read_entry_at`, with the attempts that are left.
  unfoldable pub read_attempts : ℕ → ℕ → Text → Action W Entry
  read_attempts zero directory_fd name = raise assertion_error
  read_attempts (suc left) directory_fd name =
      except (read_entry_once_at directory_fd name)
        (retry_race left (read_attempts left directory_fd name))

  -- `_read_entry_at`
  unfoldable pub read_entry_at : ℕ → Text → Action W Entry
  read_entry_at directory_fd name = read_attempts read_race_attempts directory_fd name
