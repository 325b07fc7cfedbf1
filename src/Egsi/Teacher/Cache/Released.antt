-- ===== src/Egsi/Teacher/Cache/Released.antt =====
-- A write closes what it opens, on every branch.
use iclr.Base.{ℕ, refl, Bool, true, false, not, ◌&&◌, Option, none, some, List, ◌==◌, Result}
use iclr.Base.Exec.{raise, ◌>>◌}
use iclr.Egsi.Teacher.Cache.Bounded.{IsBounded, is_os_error, read_entry_at-IsBounded}
use iclr.Egsi.Teacher.Cache.Entry.{
  Entry, is_regular, is_cache_file, stat_entry, read_entry_at, or_none,
}
use iclr.Egsi.Teacher.Cache.Outcomes.{Runs, Any, Runs-pure, Runs-raise, Runs-bind, Runs-call}
use iclr.Egsi.Teacher.Cache.Run.{
  Fault, file_not_found, file_exists, other_fault, os_error, runtime_error, Info, System, Action,
  call, closing, finally,
}
use iclr.Egsi.Teacher.Cache.Write.{
  raw_of, raw_eq, token_of, tokens_eq, temporary_name, or_done, token_if_valid,
  destination_token_at, unlink_temporary_at, check_temporary, settle_replace, replace_entry,
  confirm, accept_temporary, install, write_temporary, fresh_token, atomic_write_at,
}
use iclr.Egsi.Teacher.Responses.{Text}
use iclr.Egsi.Teacher.Cache.Releases.{
  is_write_failure, Releases, Runs-Any, except-Runs, guarded, checked, closing-Releases,
  Releases-bind, finally-Releases, on_failure-Releases, then_Releases, opening-Runs,
}

module _ {W : Type 0} (sys : System W) (directory_fd : ℕ) where
  read-Runs : (name : Text) → Runs Any is_write_failure (read_entry_at sys directory_fd name)
  read-Runs name =
      Runs-Any IsBounded (read_entry_at sys directory_fd name)
        (read_entry_at-IsBounded sys directory_fd name)

  os_call : {A : Type 0} (f : W → Result Fault A × W) → Runs {A = A} Any is_os_error (call f)
  os_call f = Runs-call W is_os_error (λ fault. refl) f

  stat_entry-Runs : (name : Text) → Runs Any is_write_failure (stat_entry sys directory_fd name)
  stat_entry-Runs name =
      except-Runs _ or_none
        (Runs-bind W is_os_error (call (sys.stat_at directory_fd name)) _
          (os_call (sys.stat_at directory_fd name))
          (λ info any. Runs-pure W is_os_error {P = Any} (some info) tt))
        missing
    where
      missing :
          (fault : Fault)
          → Runs {W = W} {A = Option Info} Any is_write_failure (or_none (os_error fault))
      missing file_not_found = Runs-pure W is_write_failure {P = Any} none tt
      missing file_exists = Runs-raise W is_write_failure (os_error file_exists) refl
      missing other_fault = Runs-raise W is_write_failure (os_error other_fault) refl

  destination_token_at-Runs :
      (name : Text) → Runs Any is_write_failure (destination_token_at sys directory_fd name)
  unfolding destination_token_at
  destination_token_at-Runs name =
      Runs-bind W is_write_failure (stat_entry sys directory_fd name) _ (stat_entry-Runs name)
        (λ info any. valid info)
    where
      valid :
          (info : Option Info) → Runs Any is_write_failure (token_if_valid sys directory_fd info)
      valid none = Runs-pure W is_write_failure {P = Any} none tt
      valid (some info) =
          guarded (not (is_cache_file info)) (Runs-pure W is_write_failure {P = Any} (some info) tt)

  unlink-Runs :
      (name : Text) → Runs Any is_write_failure (unlink_temporary_at sys directory_fd name)
  unfolding unlink_temporary_at
  unlink-Runs name =
      except-Runs (call (sys.unlink_at directory_fd name)) or_done
        (os_call (sys.unlink_at directory_fd name)) done
    where
      done : (fault : Fault) → Runs {W = W} Any is_write_failure (or_done (os_error fault))
      done file_not_found = Runs-pure W is_write_failure {P = Any} tt tt
      done file_exists = Runs-raise W is_write_failure (os_error file_exists) refl
      done other_fault = Runs-raise W is_write_failure (os_error other_fault) refl

  settle_replace-Runs :
      (name temporary : Text) (raw : List ℕ) (previous : Entry) (fault : Fault)
      → Runs Any is_write_failure
          (settle_replace sys directory_fd name temporary raw previous (os_error fault))
  unfolding settle_replace
  settle_replace-Runs name temporary raw previous fault =
      Runs-bind W is_write_failure (read_entry_at sys directory_fd name) _ (read-Runs name)
        (λ observed any.
          settled (raw_eq (raw_of observed) (some raw))
            (raw_eq (raw_of observed) (raw_of previous)))
    where
      settled :
          (same old : Bool)
          → Runs Any is_write_failure (elim same as (λ b. Action W (Unit {0})) [
            | true ↦ unlink_temporary_at sys directory_fd temporary
            | false ↦ elim old [ true ↦ raise (os_error fault) | false ↦ raise runtime_error ]
          ])
      settled true old = unlink-Runs temporary
      settled false true = Runs-raise W is_write_failure (os_error fault) refl
      settled false false = Runs-raise W is_write_failure runtime_error refl

  replace_entry-Runs :
      (name temporary : Text) (raw : List ℕ) (previous : Entry)
      → Runs Any is_write_failure (replace_entry sys directory_fd name temporary raw previous)
  unfolding replace_entry
  replace_entry-Runs name temporary raw previous =
      Runs-bind W is_write_failure (read_entry_at sys directory_fd temporary) _
        (read-Runs temporary)
        (λ written any. guarded (not (raw_eq (raw_of written) (some raw))) (
          Runs-bind W is_write_failure (destination_token_at sys directory_fd name) _
            (destination_token_at-Runs name)
            (λ token any. guarded (not (tokens_eq token (token_of previous))) (
              except-Runs (call (sys.replace_at directory_fd temporary name)) _
                (os_call (sys.replace_at directory_fd temporary name))
                (settle_replace-Runs name temporary raw previous)))))

  confirm-Runs :
      (name : Text) (raw : List ℕ) → Runs Any is_write_failure (confirm sys directory_fd name raw)
  unfolding confirm
  confirm-Runs name raw =
      Runs-bind W is_write_failure (read_entry_at sys directory_fd name) _ (read-Runs name)
        (λ committed any. guarded (not (raw_eq (raw_of committed) (some raw))) (
          except-Runs (call (sys.fsync directory_fd)) _ (os_call (sys.fsync directory_fd))
            (λ fault. Runs-pure W is_write_failure {P = Any} tt tt)))

  check_temporary-Runs : (fd : ℕ) → Runs Any is_write_failure (check_temporary sys directory_fd fd)
  unfolding check_temporary
  check_temporary-Runs fd =
      Runs-bind W is_write_failure (call (sys.fstat fd)) _
        (Runs-call W is_write_failure (λ fault. refl) (sys.fstat fd))
        (λ info any. checked (not (is_regular info.mode && info.nlink == 1)))

  install-Releases :
      (name temporary : Text) (raw : List ℕ) (previous : Entry) (fd : ℕ)
      → Releases fd Any (install sys directory_fd name temporary raw previous fd)
  unfolding install
  install-Releases name temporary raw previous fd =
      on_failure-Releases fd _ (unlink_temporary_at sys directory_fd temporary)
        (Releases-bind fd (finally (call (sys.write fd raw)) (closing fd (sys.close fd))) _
          (finally-Releases fd (call (sys.write fd raw)) (sys.close fd)
            (Runs-call W is_write_failure (λ fault. refl) (sys.write fd raw)))
          (λ done any. replace_entry-Runs name temporary raw previous))
        (unlink-Runs temporary)

  write_temporary-Releases :
      (name temporary : Text) (raw : List ℕ) (previous : Entry) (fd : ℕ)
      → Releases fd Any (write_temporary sys directory_fd name temporary raw previous fd)
  unfolding write_temporary accept_temporary
  write_temporary-Releases name temporary raw previous fd =
      Releases-bind fd
        (accept_temporary sys directory_fd temporary fd
          >> install sys directory_fd name temporary raw previous fd)
        _
        (then_Releases fd (check_temporary sys directory_fd fd)
          (closing fd (sys.close fd) >> unlink_temporary_at sys directory_fd temporary) _
          (check_temporary-Runs fd)
          (Releases-bind fd (closing fd (sys.close fd)) _ (closing-Releases fd (sys.close fd))
            (λ done any. unlink-Runs temporary))
          (λ done. install-Releases name temporary raw previous fd))
        (λ done any. confirm-Runs name raw)

  fresh_token-Runs : Runs Any is_write_failure (fresh_token sys directory_fd)
  fresh_token-Runs = record { kept = λ run. refl; at = λ run. tt }

  -- Whatever other processes do between its calls, and whichever of them fails, a write closes what it
  -- opens, and it returns or raises an error of the system, or that the replacement was ambiguous.
  pub atomic_write_at-Runs :
      (name : Text) (raw : List ℕ)
      → Runs Any is_write_failure (atomic_write_at sys directory_fd name raw)
  unfolding atomic_write_at
  atomic_write_at-Runs name raw =
      Runs-bind W is_write_failure (read_entry_at sys directory_fd name) _ (read-Runs name)
        (λ previous any.
          Runs-bind W is_write_failure (fresh_token sys directory_fd) _ fresh_token-Runs
            (λ token any.
              opening-Runs (sys.create_at directory_fd (temporary_name name token)) _
                (write_temporary-Releases name (temporary_name name token) raw previous)))
