-- ===== src/Egsi/Teacher/Cache/Releases.antt =====
-- Rules for actions that close a descriptor, or keep all of them, whatever fails.
use mathlib.Core.Path.{subst}
use iclr.Base.{ℕ, ◌≡◌, refl, sym, ◌∙◌, ap, Bool, true, false, List, ◌∷◌, Result, ok, err}
use iclr.Base.Exec
use iclr.Base.Exec.{raise, ◌>>=◌, ◌>>◌}
use iclr.Egsi.Teacher.Cache.Bounded.{is_os_error}
use iclr.Egsi.Teacher.Cache.Entry.{invalid}
use iclr.Egsi.Teacher.Cache.Outcomes.{
  AllowsFaults, Outcome, Runs, kept-continue, kept-handled, Any, Runs-pure, Runs-raise,
  Runs-raise_when, Runs-bind, Runs-except, release-head, Outcome-unless_raised, Outcome-raised,
}
use iclr.Egsi.Teacher.Cache.Run.{
  Fault, Failure, os_error, retryable_race, runtime_error, value_error, assertion_error,
  teacher_error, out_of_fuel, Run, Action, release, opening, closing, raise_when, finally, except,
  on_failure, handled, hold, raised,
}

-- Errors of the system, and the error of an ambiguous replacement.
abbrev pub is_write_failure : Failure → Bool
is_write_failure runtime_error = true
is_write_failure e = is_os_error e

fault_of : (e : Failure) → is_os_error e ≡ true → (fault : Fault) × (e ≡ os_error fault)
fault_of (os_error fault) h = (fault, refl)
fault_of retryable_race h = cc
fault_of value_error h = cc
fault_of runtime_error h = cc
fault_of assertion_error h = cc
fault_of teacher_error h = cc
fault_of out_of_fuel h = cc

write_fault : (e : Failure) → is_os_error e ≡ true → is_write_failure e ≡ true
write_fault e h = let (fault, same) = fault_of e h in rw same refl

Outcome-Any :
    {A : Type 0} (P : A → Type 0) (r : Result Failure A)
    → Outcome P is_os_error r
    → Outcome Any is_write_failure r
Outcome-Any P (ok a) h = tt
Outcome-Any P (err e) h = write_fault e h

write_faults : AllowsFaults is_write_failure
write_faults fault = refl

-- The action ends with the descriptor closed that was the last to be opened before it.
pub record Releases {W A : Type 0} (fd : ℕ) (P : A → Type 0) (m : Action W A) : Type 0 where
  pub kept : (run : Run W) (held : List ℕ) → run.held ≡ fd ∷ held → (m run).1.held ≡ held
  pub at : (run : Run W) → Outcome P is_write_failure (m run).0

module _ {W : Type 0} where
  pub Runs-Any :
      {A : Type 0} (P : A → Type 0) (m : Action W A)
      → Runs P is_os_error m
      → Runs Any is_write_failure m
  Runs-Any P m h = record { kept = h.kept; at = λ run. Outcome-Any P (m run).0 (h.at run) }

  -- A handler of the errors of the system.
  pub except-Runs :
      {A : Type 0} {P : A → Type 0} (m : Action W A) (handler : Failure → Action W A)
      → Runs P is_os_error m
      → ((fault : Fault) → Runs P is_write_failure (handler (os_error fault)))
      → Runs P is_write_failure (except m handler)
  except-Runs {P = P} m handler hm h =
      Runs-except W is_write_failure is_os_error m handler hm (λ e allowed.
        let (fault, same) = fault_of e allowed in
        subst (λ x. Runs P is_write_failure (handler x)) (sym same) (h fault))

  pub guarded :
      {A : Type 0} {P : A → Type 0} (test : Bool) {m : Action W A}
      → Runs P is_write_failure m
      → Runs P is_write_failure (raise_when test invalid >> m)
  guarded test h =
      Runs-bind W is_write_failure (raise_when test invalid) _
        (Runs-raise_when W is_write_failure test invalid refl) (λ done off. h)

  pub checked : (test : Bool) → Runs {W = W} Any is_write_failure (raise_when test invalid)
  checked true = Runs-raise W is_write_failure invalid refl
  checked false = Runs-pure W is_write_failure tt tt

  pub closing-Releases :
      (fd : ℕ) (f : W → Result Fault (Unit {0}) × W) → Releases {W = W} fd Any (closing fd f)
  closing-Releases fd f = record {
    kept = λ run held h. ap (release fd) h ∙ release-head fd held;
    at = λ run. Outcome-raised is_write_failure write_faults (f run.world).0;
  }

  pub Releases-bind :
      {A B : Type 0} {Q : A → Type 0} {P : B → Type 0} (fd : ℕ) (m : Action W A)
      (f : A → Action W B)
      → Releases fd Q m
      → ((a : A) → Q a → Runs P is_write_failure (f a))
      → Releases fd P (m >>= f)
  Releases-bind fd m f hm h = record {
    kept = λ run held e.
        (kept-continue W is_write_failure (m run).0 f (hm.at run) h (m run).1).0
        ∙ hm.kept run held e;
    at = λ run. (kept-continue W is_write_failure (m run).0 f (hm.at run) h (m run).1).1;
  }

  pub finally-Releases :
      {A : Type 0} {P : A → Type 0} (fd : ℕ) (body : Action W A)
      (f : W → Result Fault (Unit {0}) × W)
      → Runs P is_write_failure body
      → Releases fd P (finally body (closing fd f))
  finally-Releases {P = P} fd body f h = record {
    kept = λ run held e. ap (release fd) (h.kept run ∙ e) ∙ release-head fd held;
    at = λ run.
        Outcome-unless_raised is_write_failure write_faults P (body run).0 (f (body run).1.world).0
          (h.at run);
  }

  -- A cleanup after the descriptor was closed, or that closes it.
  cleanup_and_raise :
      {A : Type 0} {P : A → Type 0} (cleanup : Action W (Unit {0})) (e : Failure)
      → is_write_failure e ≡ true
      → Runs Any is_write_failure cleanup
      → Runs {A = A} P is_write_failure (cleanup >>= λ done. raise e)
  cleanup_and_raise cleanup e allowed h =
      Runs-bind W is_write_failure cleanup _ h (λ done any. Runs-raise W is_write_failure e allowed)

  pub on_failure-Releases :
      {A : Type 0} {P : A → Type 0} (fd : ℕ) (m : Action W A) (cleanup : Action W (Unit {0}))
      → Releases fd P m
      → Runs Any is_write_failure cleanup
      → Releases fd P (on_failure m cleanup)
  on_failure-Releases fd m cleanup hm hc = record {
    kept = λ run held e.
        (kept-handled W is_write_failure is_write_failure (m run).0 _ (hm.at run)
          (λ e allowed. cleanup_and_raise cleanup e allowed hc) (m run).1).0
        ∙ hm.kept run held e;
    at = λ run.
        (kept-handled W is_write_failure is_write_failure (m run).0 _ (hm.at run)
          (λ e allowed. cleanup_and_raise cleanup e allowed hc) (m run).1).1;
  }

  -- A test before the rest: where it fails, the cleanup closes the descriptor; otherwise the rest does.
  pub then_Releases :
      {A B : Type 0} {P : B → Type 0} (fd : ℕ) (m : Action W A) (cleanup : Action W (Unit {0}))
      (f : A → Action W B)
      → Runs Any is_write_failure m
      → Releases fd Any cleanup
      → ((a : A) → Releases fd P (f a))
      → Releases fd P (on_failure m cleanup >>= f)
  then_Releases {A = A} {P = P} fd m cleanup f hm hc hf = record {
    kept = λ run held e. (branch (m run).0 (hm.at run) (m run).1).0 held (hm.kept run ∙ e);
    at = λ run. (branch (m run).0 (hm.at run) (m run).1).1;
  }
    where
      branch :
          (r : Result Failure A)
          → Outcome Any is_write_failure r
          → (run : Run W)
          → ((held : List ℕ)
              → run.held ≡ fd ∷ held
              → (Exec.continue
                  (handled r (λ e. cleanup >>= λ done. raise e) run).0
                  f
                  (handled r (λ e. cleanup >>= λ done. raise e) run).1).1.held
                ≡ held)
            × Outcome P is_write_failure
                (Exec.continue
                  (handled r (λ e. cleanup >>= λ done. raise e) run).0
                  f
                  (handled r (λ e. cleanup >>= λ done. raise e) run).1).0
      branch (ok a) o run = ((hf a).kept run, (hf a).at run)
      branch (err e) o run =
          let raising : Releases {W = W} {A = A} fd (λ a. ⊥) (cleanup >>= λ done. raise e) =
            Releases-bind fd cleanup _ hc (λ done any. Runs-raise W is_write_failure e o) in
          let b =
            Releases-bind {P = P} fd (cleanup >>= λ done. raise e) f raising (λ a no. absurd no) in
          (b.kept run, b.at run)

  kept-opened :
      {A : Type 0} {P : A → Type 0} (body : ℕ → Action W A)
      → ((fd : ℕ) → Releases fd P (body fd))
      → (r : Result Fault ℕ) (world : W) (held : List ℕ)
      → ((Exec.continue (raised r) body (record { world = world; held = hold r held })).1.held
          ≡ held)
        × Outcome P is_write_failure
            (Exec.continue (raised r) body (record { world = world; held = hold r held })).0
  kept-opened body h (ok fd) world held = ((h fd).kept _ held refl, (h fd).at _)
  kept-opened body h (err fault) world held = (refl, refl)

  pub opening-Runs :
      {A : Type 0} {P : A → Type 0} (f : W → Result Fault ℕ × W) (body : ℕ → Action W A)
      → ((fd : ℕ) → Releases fd P (body fd))
      → Runs P is_write_failure (opening f >>= body)
  opening-Runs f body h = record {
    kept = λ run. (kept-opened body h (f run.world).0 (f run.world).1 run.held).0;
    at = λ run. (kept-opened body h (f run.world).0 (f run.world).1 run.held).1;
  }
