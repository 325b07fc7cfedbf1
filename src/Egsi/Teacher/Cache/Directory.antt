-- ===== src/Egsi/Teacher/Cache/Directory.antt =====
-- `_open_directory` of src/egsi/teacher/cache.py.
use iclr.Base.{ℕ, Bool, true, false, ◌||◌, Option, none, some, List, [], ◌∷◌, ◌%◌, ◌/◌, ◌==◌, any}
use iclr.Base.Exec.{pure, raise, ◌>>=◌, ◌>>◌}
use iclr.Base.Texts.{codes, codes_eq}
use iclr.Egsi.Teacher.Cache.Entry.{invalid}
use iclr.Egsi.Teacher.Cache.Run.{
  Failure, os_error, file_not_found, file_exists, System, Action, call, opening, closing,
  raise_when, except,
}
use iclr.Egsi.Teacher.Responses.{Text}

-- `stat.S_ISDIR`
abbrev pub is_directory : ℕ → Bool
is_directory mode = mode / 4096 % 16 == 4

abbrev pub is_bad_part : Text → Bool
is_bad_part part = codes_eq part [] || codes_eq part (codes ".") || codes_eq part (codes "..")

module _ {W : Type 0} where
  abbrev pub unless_exists : Failure → Action W (Unit {0})
  unless_exists (os_error file_exists) = pure tt
  unless_exists e = raise e

module _ {W : Type 0} (sys : System W) (create : Bool) where
  -- `except FileNotFoundError: ...`
  unfoldable pub create_component : Text → ℕ → Action W (Option ℕ)
  create_component component current_fd = elim create [
    | false ↦ closing current_fd (sys.close current_fd) >> pure none
    | true ↦
        except (call (sys.mkdir_at current_fd component)) unless_exists
        >> (opening (sys.open_directory_at current_fd component) >>= λ fd. pure (some fd))
  ]

  abbrev pub if_missing : Text → ℕ → Failure → Action W (Option ℕ)
  if_missing component current_fd (os_error file_not_found) = create_component component current_fd
  if_missing component current_fd e = raise e

  -- The tests on the component that was opened, and the step to it.
  unfoldable pub enter_component : ℕ → Option ℕ → Action W (Option ℕ)
  enter_component current_fd none = pure none
  enter_component current_fd (some next_fd) = call (sys.fstat next_fd) >>= λ info.
      elim (is_directory info.mode) [
        | false ↦ closing next_fd (sys.close next_fd) >> raise invalid
        | true ↦ closing current_fd (sys.close current_fd) >> pure (some next_fd)
      ]

  unfoldable pub open_component : Text → ℕ → Action W (Option ℕ)
  open_component component current_fd =
      except (opening (sys.open_directory_at current_fd component) >>= λ fd. pure (some fd))
        (if_missing component current_fd)
      >>= enter_component current_fd

  -- `except Exception: ...`: the directory that is open is closed.
  unfoldable pub close_and_raise : ℕ → Failure → Action W (Option ℕ)
  close_and_raise current_fd e =
      except (closing current_fd (sys.close current_fd)) (λ e'. pure tt) >> raise e

  -- The loop over the components.
  unfoldable pub open_components : List Text → ℕ → Action W (Option ℕ)
  open_components [] current_fd = pure (some current_fd)
  open_components (component ∷ components) current_fd =
      except (open_component component current_fd) (close_and_raise current_fd) >>= λ next.
      elim next [ none ↦ pure none | some next_fd ↦ open_components components next_fd ]

  -- `_open_directory`, of the parts of the absolute path below the root.
  unfoldable pub open_directory : List Text → Action W (Option ℕ)
  open_directory components =
      raise_when (any is_bad_part components) invalid
      >> (opening sys.open_root >>= open_components components)
