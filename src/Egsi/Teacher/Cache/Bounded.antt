-- ===== src/Egsi/Teacher/Cache/Bounded.antt =====
-- What a read of an entry gives, and that it ends with nothing left open.
use iclr.Base.{
  ℕ, zero, suc, ◌-◌, ◌<◌, ◌≤◌, ◌≡◌, refl, inl, inr, Bool, true, false, not, Option, none, some,
  List, [], ◌∷◌, ◌++◌, length, ◌==◌, arith, Bool-cases,
}
use iclr.Base.Exec.{pure, ◌>>=◌, ◌>>◌}
use iclr.Egsi.Teacher.Cache.Entry.{
  max_cache_entry_bytes, Entry, invalid, is_cache_file, identity_eq, token_eq, is_unchanged,
  or_none, or_race, stat_entry, read_chunks, read_open, read_expected, read_entry_once_at,
  read_attempts, read_entry_at, retry_race, unless_last,
}
use iclr.Egsi.Teacher.Cache.Outcomes.{
  Runs, Any, AllowsFaults, Runs-pure, Runs-raise, Runs-raise_when, Runs-bind, Runs-except,
  Runs-call, Runs-opening,
}
use iclr.Egsi.Teacher.Cache.Run.{
  Fault, file_not_found, file_exists, other_fault, Failure, retryable_race, os_error, value_error,
  runtime_error, assertion_error, teacher_error, out_of_fuel, Info, System, Action, call,
  raise_when,
}
use iclr.Egsi.Teacher.Responses.{Text}

-- Errors of the system only.
abbrev pub is_os_error : Failure → Bool
is_os_error (os_error fault) = true
is_os_error e = false

-- Errors of the system, and the race that is tried again.
abbrev is_read_failure : Failure → Bool
is_read_failure retryable_race = true
is_read_failure e = is_os_error e

-- Nothing, or bytes within the limit beside the token of the regular file of just that size.
abbrev pub IsBounded : Entry → Type 0
IsBounded none = Unit {0}
IsBounded (some (raw, info)) =
    (length raw ≤ max_cache_entry_bytes) × (length raw ≡ info.size) × (is_cache_file info ≡ true)

is_unchanged-IsBounded :
    (raw : List ℕ) (before after : Info)
    → not (is_cache_file after) ≡ false
    → not (is_unchanged raw before after) ≡ false
    → IsBounded (some (raw, after))
is_unchanged-IsBounded raw before after h h' = ground arith

module _ {W : Type 0} (sys : System W) where
  read_faults : AllowsFaults is_read_failure
  read_faults fault = refl

  -- The loop ends at the end of the file or the limit, before its fuel is used up.
  read_chunks-Runs :
      (fuel fd remaining : ℕ)
      → remaining < fuel
      → Runs Any is_read_failure (read_chunks sys fuel fd remaining)
  unfolding read_chunks
  read_chunks-Runs zero fd remaining h = absurd (omega arith)
  read_chunks-Runs (suc fuel) fd remaining h = elim (Bool-cases (remaining == 0)) [
    | inl done ↦ rw (done, read_chunks) (Runs-pure W is_read_failure {P = Any} [] tt)
    | inr more ↦
        rw (more, read_chunks)
          (Runs-bind W is_read_failure {Q = Any} (call (sys.read fd _)) _
            (Runs-call W is_read_failure read_faults (sys.read fd _))
            (λ chunk any.
              chunk_rest fuel fd remaining chunk
                (λ left below. read_chunks-Runs fuel fd left (ground (arith, more, below)))))
  ]
    where
      chunk_rest :
          (fuel fd remaining : ℕ) (chunk : List ℕ)
          → ((left : ℕ)
              → left ≤ remaining - 1
              → Runs Any is_read_failure (read_chunks sys fuel fd left))
          → Runs Any is_read_failure (elim chunk as (λ c. Action W (List ℕ)) [
            | [] ↦ pure []
            | b ∷ bs ↦ read_chunks sys fuel fd (remaining - suc (length bs)) >>= λ rest.
                pure (b ∷ bs ++ rest)
          ])
      chunk_rest fuel fd remaining [] rec = Runs-pure W is_read_failure {P = Any} [] tt
      chunk_rest fuel fd remaining (b ∷ bs) rec =
          Runs-bind W is_read_failure {Q = Any}
            (read_chunks sys fuel fd (remaining - suc (length bs))) _
            (rec (remaining - suc (length bs)) (omega arith))
            (λ rest any. Runs-pure W is_read_failure {P = Any} (b ∷ bs ++ rest) tt)

  guarded :
      {A : Type 0} {P : A → Type 0} (test : Bool) (e : Failure) {m : Action W A}
      → is_read_failure e ≡ true
      → (test ≡ false → Runs P is_read_failure m)
      → Runs P is_read_failure (raise_when test e >> m)
  guarded test e h rest =
      Runs-bind W is_read_failure (raise_when test e) _ (Runs-raise_when W is_read_failure test e h)
        (λ done off. rest off)

  read_open-IsBounded :
      (expected : Info) (fd : ℕ) → Runs IsBounded is_read_failure (read_open sys expected fd)
  unfolding read_open
  read_open-IsBounded expected fd =
      let stat = Runs-call W is_read_failure read_faults (sys.fstat fd) in
      Runs-bind W is_read_failure _ _ stat (λ before any.
        guarded (not (is_cache_file before)) invalid refl (λ regular.
          guarded (not (identity_eq expected before)) retryable_race refl (λ same.
            guarded (not (token_eq expected before)) invalid refl (λ still.
              Runs-bind W is_read_failure _ _ (read_chunks-Runs 2097154 fd 2097153 (omega arith))
                (λ raw any. Runs-bind W is_read_failure _ _ stat (λ after any.
                  guarded (not (is_cache_file after)) invalid refl (λ regular'.
                    guarded (not (is_unchanged raw before after)) invalid refl (λ unchanged.
                      Runs-pure W is_read_failure (some (raw, after))
                        (is_unchanged-IsBounded raw before after regular' unchanged)))))))))

  or_none-Runs :
      (e : Failure)
      → is_read_failure e ≡ true
      → Runs {W = W} {A = Option Info} Any is_read_failure (or_none e)
  or_none-Runs (os_error file_not_found) h = Runs-pure W is_read_failure {P = Any} none tt
  or_none-Runs (os_error file_exists) h = Runs-raise W is_read_failure (os_error file_exists) refl
  or_none-Runs (os_error other_fault) h = Runs-raise W is_read_failure (os_error other_fault) refl
  or_none-Runs retryable_race h = Runs-raise W is_read_failure retryable_race refl
  or_none-Runs value_error h = Runs-raise W is_read_failure value_error h
  or_none-Runs runtime_error h = Runs-raise W is_read_failure runtime_error h
  or_none-Runs assertion_error h = Runs-raise W is_read_failure assertion_error h
  or_none-Runs teacher_error h = Runs-raise W is_read_failure teacher_error h
  or_none-Runs out_of_fuel h = Runs-raise W is_read_failure out_of_fuel h

  or_race-Runs :
      (fault : Fault) → Runs {W = W} (λ (fd : ℕ). ⊥) is_read_failure (or_race (os_error fault))
  or_race-Runs file_not_found = Runs-raise W is_read_failure retryable_race refl
  or_race-Runs file_exists = Runs-raise W is_read_failure (os_error file_exists) refl
  or_race-Runs other_fault = Runs-raise W is_read_failure (os_error other_fault) refl

  stat_entry-Runs :
      (directory_fd : ℕ) (name : Text) → Runs Any is_read_failure (stat_entry sys directory_fd name)
  stat_entry-Runs directory_fd name =
      Runs-except W is_read_failure is_read_failure
        (call (sys.stat_at directory_fd name) >>= λ info. pure (some info)) or_none
        (Runs-bind W is_read_failure (call (sys.stat_at directory_fd name)) _
          (Runs-call W is_read_failure read_faults (sys.stat_at directory_fd name))
          (λ info any. Runs-pure W is_read_failure {P = Any} (some info) tt))
        or_none-Runs

  read_expected-IsBounded :
      (directory_fd : ℕ) (name : Text) (expected : Info)
      → Runs IsBounded is_read_failure (read_expected sys directory_fd name expected)
  unfolding read_expected
  read_expected-IsBounded directory_fd name expected =
      guarded (not (is_cache_file expected)) invalid refl (λ regular.
        Runs-opening W is_read_failure read_faults (read_open sys expected) sys.close or_race
          (read_open-IsBounded expected) or_race-Runs (sys.open_at directory_fd name))

  read_entry_once_at-IsBounded :
      (directory_fd : ℕ) (name : Text)
      → Runs IsBounded is_read_failure (read_entry_once_at sys directory_fd name)
  unfolding read_entry_once_at
  read_entry_once_at-IsBounded directory_fd name =
      Runs-bind W is_read_failure (stat_entry sys directory_fd name) _
        (stat_entry-Runs directory_fd name) (λ expected any. rest expected)
    where
      rest :
          (expected : Option Info)
          → Runs IsBounded is_read_failure (elim expected as (λ e. Action W Entry) [
            | none ↦ pure none
            | some info ↦ read_expected sys directory_fd name info
          ])
      rest none = Runs-pure W is_read_failure none tt
      rest (some info) = read_expected-IsBounded directory_fd name info

  unless_last-IsBounded :
      (left : ℕ) (again : Action W Entry)
      → ((n : ℕ) → left ≡ suc n → Runs IsBounded is_os_error again)
      → Runs IsBounded is_os_error (unless_last left again)
  unless_last-IsBounded zero again h = Runs-raise W is_os_error invalid refl
  unless_last-IsBounded (suc left) again h = h left refl

  retry_race-IsBounded :
      (left : ℕ) (again : Action W Entry)
      → ((n : ℕ) → left ≡ suc n → Runs IsBounded is_os_error again)
      → (e : Failure) → is_read_failure e ≡ true
      → Runs IsBounded is_os_error (retry_race left again e)
  retry_race-IsBounded left again h retryable_race f = unless_last-IsBounded left again h
  retry_race-IsBounded left again h (os_error fault) f =
      Runs-raise W is_os_error (os_error fault) refl
  retry_race-IsBounded left again h value_error f = Runs-raise W is_os_error value_error f
  retry_race-IsBounded left again h runtime_error f = Runs-raise W is_os_error runtime_error f
  retry_race-IsBounded left again h assertion_error f = Runs-raise W is_os_error assertion_error f
  retry_race-IsBounded left again h teacher_error f = Runs-raise W is_os_error teacher_error f
  retry_race-IsBounded left again h out_of_fuel f = Runs-raise W is_os_error out_of_fuel f

  read_attempts-IsBounded :
      (left n directory_fd : ℕ) (name : Text)
      → left ≡ suc n
      → Runs IsBounded is_os_error (read_attempts sys left directory_fd name)
  unfolding read_attempts
  read_attempts-IsBounded zero n directory_fd name h = absurd (omega arith)
  read_attempts-IsBounded (suc left) n directory_fd name h =
      Runs-except W is_os_error is_read_failure (read_entry_once_at sys directory_fd name) _
        (read_entry_once_at-IsBounded directory_fd name)
        (retry_race-IsBounded left (read_attempts sys left directory_fd name)
          (λ m e. read_attempts-IsBounded left m directory_fd name e))

  -- Whatever other processes do between its calls, a read of an entry closes what it opens, gives
  -- nothing or at most two mebibytes that are all of a regular file with one link, and raises only
  -- errors of the system: no race escapes, and the loops do not run out.
  pub read_entry_at-IsBounded :
      (directory_fd : ℕ) (name : Text)
      → Runs IsBounded is_os_error (read_entry_at sys directory_fd name)
  unfolding read_entry_at
  read_entry_at-IsBounded directory_fd name = read_attempts-IsBounded 3 2 directory_fd name refl
