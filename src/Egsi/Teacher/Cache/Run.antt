-- ===== src/Egsi/Teacher/Cache/Run.antt =====
-- The calls of the operating system that src/egsi/teacher/cache.py makes, and what it holds open.
use iclr.Base.{ℕ, Bool, true, false, if◌then◌else◌, List, [], ◌∷◌, ◌==◌, Result, ok, err}
use iclr.Base.Exec.{Exec, pure, raise, ◌>>=◌}
use iclr.Egsi.Teacher.Responses.{Text}

-- Errors of the operating system: FileNotFoundError, FileExistsError, and every other OSError.
pub data Fault : Type 0 where
  file_not_found file_exists other_fault : Fault

-- `_RetryableCacheRace`, OSError, ValueError, RuntimeError and AssertionError.
pub data Failure : Type 0 where
  retryable_race : Failure
  os_error : Fault → Failure
  value_error runtime_error assertion_error : Failure
  -- what a teacher raises
  teacher_error : Failure
  -- not an error of the code: the steps that the model allows are used up
  out_of_fuel : Failure

-- The fields of `os.stat_result` that the cache compares.
pub record Info : Type 0 where
  pub dev : ℕ
  pub ino : ℕ
  pub mode : ℕ
  pub nlink : ℕ
  pub size : ℕ
  pub mtime_ns : ℕ
  pub ctime_ns : ℕ

-- The system: the state `W` has all that other processes may change between two calls. A descriptor
-- is a number; directories are opened and read from under one.
pub record System (W : Type 0) : Type 0 where
  pub stat_at : ℕ → Text → W → Result Fault Info × W
  -- `os.open` of the root, of a directory, and of a file that is read
  pub open_root : W → Result Fault ℕ × W
  pub open_directory_at : ℕ → Text → W → Result Fault ℕ × W
  pub open_at : ℕ → Text → W → Result Fault ℕ × W
  pub mkdir_at : ℕ → Text → W → Result Fault (Unit {0}) × W
  pub fstat : ℕ → W → Result Fault Info × W
  -- `os.read`, which gives at most as many bytes as it is asked for
  pub read : ℕ → ℕ → W → Result Fault (List ℕ) × W
  pub close : ℕ → W → Result Fault (Unit {0}) × W
  -- the descriptor of a new file
  pub create_at : ℕ → Text → W → Result Fault ℕ × W
  -- what is written, flushed and synchronised
  pub write : ℕ → List ℕ → W → Result Fault (Unit {0}) × W
  pub replace_at : ℕ → Text → Text → W → Result Fault (Unit {0}) × W
  pub unlink_at : ℕ → Text → W → Result Fault (Unit {0}) × W
  pub fsync : ℕ → W → Result Fault (Unit {0}) × W
  -- `secrets.token_hex(16)`
  pub token_hex : W → Text × W

-- The system, and the descriptors that the cache has open, the latest first.
pub record Run (W : Type 0) : Type 0 where
  pub world : W
  pub held : List ℕ

abbrev pub Action : Type 0 → Type 0 → Type 0
Action W A = Exec (Run W) Failure A

abbrev pub release : ℕ → List ℕ → List ℕ
release fd [] = []
release fd (d ∷ ds) = if d == fd then ds else d ∷ release fd ds

abbrev pub raised : {A : Type 0} → Result Fault A → Result Failure A
raised (ok a) = ok a
raised (err fault) = err (os_error fault)

abbrev pub hold : Result Fault ℕ → List ℕ → List ℕ
hold (ok fd) held = fd ∷ held
hold (err fault) held = held

-- The result of the body, unless the cleanup raised.
abbrev pub unless_raised :
    {A : Type 0} → Result Failure A → Result Failure (Unit {0}) → Result Failure A
unless_raised r (ok done) = r
unless_raised r (err e) = err e

module _ {W : Type 0} where
  -- A call that opens and closes nothing; its error is raised.
  abbrev pub call : {A : Type 0} → (W → Result Fault A × W) → Action W A
  call f run = (raised (f run.world).0, record run { world = (f run.world).1 })

  -- A call that opens a descriptor.
  abbrev pub opening : (W → Result Fault ℕ × W) → Action W ℕ
  opening f run = (
    raised (f run.world).0,
    record { world = (f run.world).1; held = hold (f run.world).0 run.held },
  )

  -- A call that closes the descriptor, which is gone also if the call fails.
  abbrev pub closing : ℕ → (W → Result Fault (Unit {0}) × W) → Action W (Unit {0})
  closing fd f run =
      (raised (f run.world).0, record { world = (f run.world).1; held = release fd run.held })

  -- `if test: raise e`
  abbrev pub raise_when : Bool → Failure → Action W (Unit {0})
  raise_when true e = raise e
  raise_when false e = pure tt

  -- `try: body finally: cleanup`
  abbrev pub finally : {A : Type 0} → Action W A → Action W (Unit {0}) → Action W A
  finally body cleanup run =
      let after = body run in let done = cleanup after.1 in (unless_raised after.0 done.0, done.1)

  -- `try: body except: handler`, the handler told of every failure.
  abbrev pub handled : {A : Type 0} → Result Failure A → (Failure → Action W A) → Action W A
  handled (ok a) handler run = (ok a, run)
  handled (err e) handler run = handler e run

  abbrev pub except : {A : Type 0} → Action W A → (Failure → Action W A) → Action W A
  except body handler run = handled (body run).0 handler (body run).1

  -- A cleanup that only a failure of the body needs.
  abbrev pub on_failure : {A : Type 0} → Action W A → Action W (Unit {0}) → Action W A
  on_failure body cleanup = except body (λ e. cleanup >>= λ done. raise e)
