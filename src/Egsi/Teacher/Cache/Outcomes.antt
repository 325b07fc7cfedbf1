-- ===== src/Egsi/Teacher/Cache/Outcomes.antt =====
-- What an action of the cache may give, and that it closes what it opens.
use iclr.Base.{ℕ, ◌≡◌, refl, ◌∙◌, ap, Bool, true, false, List, ◌∷◌, Result, ok, err, arith}
use iclr.Base.Exec
use iclr.Base.Exec.{pure, raise, ◌>>=◌}
use iclr.Egsi.Teacher.Cache.Run.{
  Fault, Failure, os_error, Run, Action, raised, hold, release, call, opening, closing, raise_when,
  finally, unless_raised, handled, except,
}

-- The value satisfies `P`, or the failure is one of those that are allowed.
abbrev pub Outcome : {A : Type 0} → (A → Type 0) → (Failure → Bool) → Result Failure A → Type 0
Outcome P allowed (ok a) = P a
Outcome P allowed (err e) = allowed e ≡ true

-- The action ends with such an outcome, with the descriptors open that were open before.
pub record Runs {W A : Type 0} (P : A → Type 0) (allowed : Failure → Bool) (m : Action W A)
    : Type 0 where
  pub kept : (run : Run W) → (m run).1.held ≡ run.held
  pub at : (run : Run W) → Outcome P allowed (m run).0

abbrev pub Any : {A : Type 0} → A → Type 0
Any a = Unit {0}

-- Every error of the system is allowed.
abbrev pub AllowsFaults : (Failure → Bool) → Type 0
AllowsFaults allowed = (fault : Fault) → allowed (os_error fault) ≡ true

pub release-head : (fd : ℕ) (held : List ℕ) → release fd (fd ∷ held) ≡ held
release-head fd held = ground arith

module _ (allowed : Failure → Bool) (faults : AllowsFaults allowed) where
  pub Outcome-raised : {A : Type 0} (r : Result Fault A) → Outcome Any allowed (raised r)
  Outcome-raised (ok a) = tt
  Outcome-raised (err fault) = faults fault

  pub Outcome-unless_raised :
      {A : Type 0} (P : A → Type 0) (r : Result Failure A) (done : Result Fault (Unit {0}))
      → Outcome P allowed r
      → Outcome P allowed (unless_raised r (raised done))
  Outcome-unless_raised P r (ok done) o = o
  Outcome-unless_raised P r (err fault) o = faults fault

module _ (W : Type 0) (allowed : Failure → Bool) where
  pub Runs-pure : {A : Type 0} {P : A → Type 0} (a : A) → P a → Runs {W = W} P allowed (pure a)
  Runs-pure a p = record { kept = λ run. refl; at = λ run. p }

  pub Runs-raise :
      {A : Type 0} {P : A → Type 0} (e : Failure)
      → allowed e ≡ true
      → Runs {W = W} P allowed (raise e)
  Runs-raise e h = record { kept = λ run. refl; at = λ run. h }

  pub Runs-raise_when :
      (test : Bool) (e : Failure)
      → allowed e ≡ true
      → Runs {W = W} (λ done. test ≡ false) allowed (raise_when test e)
  Runs-raise_when true e h = Runs-raise e h
  Runs-raise_when false e h = Runs-pure tt refl

  module _ {A B : Type 0} {Q : A → Type 0} {P : B → Type 0} where
    pub kept-continue :
        (r : Result Failure A) (f : A → Action W B)
        → Outcome Q allowed r
        → ((a : A) → Q a → Runs P allowed (f a))
        → (run : Run W)
        → ((Exec.continue r f run).1.held ≡ run.held) × Outcome P allowed (Exec.continue r f run).0
    kept-continue (ok a) f q h run = ((h a q).kept run, (h a q).at run)
    kept-continue (err e) f q h run = (refl, q)

    pub Runs-bind :
        (m : Action W A) (f : A → Action W B)
        → Runs Q allowed m
        → ((a : A) → Q a → Runs P allowed (f a))
        → Runs P allowed (m >>= f)
    Runs-bind m f hm hf = record {
      kept = λ run. (kept-continue (m run).0 f (hm.at run) hf (m run).1).0 ∙ hm.kept run;
      at = λ run. (kept-continue (m run).0 f (hm.at run) hf (m run).1).1;
    }

  module _ {A : Type 0} {P : A → Type 0} where
    pub kept-handled :
        (inner : Failure → Bool) (r : Result Failure A) (handler : Failure → Action W A)
        → Outcome P inner r
        → ((e : Failure) → inner e ≡ true → Runs P allowed (handler e))
        → (run : Run W)
        → ((handled r handler run).1.held ≡ run.held) × Outcome P allowed (handled r handler run).0
    kept-handled inner (ok a) handler o h run = (refl, o)
    kept-handled inner (err e) handler o h run = ((h e o).kept run, (h e o).at run)

    -- A handler of the failures that the body may have.
    pub Runs-except :
        (inner : Failure → Bool) (m : Action W A) (handler : Failure → Action W A)
        → Runs P inner m
        → ((e : Failure) → inner e ≡ true → Runs P allowed (handler e))
        → Runs P allowed (except m handler)
    Runs-except inner m handler hm h = record {
      kept = λ run. (kept-handled inner (m run).0 handler (hm.at run) h (m run).1).0 ∙ hm.kept run;
      at = λ run. (kept-handled inner (m run).0 handler (hm.at run) h (m run).1).1;
    }

  module _ (faults : AllowsFaults allowed) where
    pub Runs-call : {A : Type 0} (f : W → Result Fault A × W) → Runs {A = A} Any allowed (call f)
    Runs-call f = record {
      kept = λ run. refl;
      at = λ run. Outcome-raised allowed faults (f run.world).0;
    }

    module _ {A : Type 0} {P : A → Type 0} (body : ℕ → Action W A)
        (close : ℕ → W → Result Fault (Unit {0}) × W) (handler : Failure → Action W ℕ)
        (h : (fd : ℕ) → Runs P allowed (body fd))
        (h' : (fault : Fault) → Runs (λ (fd : ℕ). ⊥) allowed (handler (os_error fault))) where
      abbrev closed_after : ℕ → Action W A
      closed_after fd = finally (body fd) (closing fd (close fd))

      kept-opened :
          (r : Result Fault ℕ) (world : W) (held : List ℕ)
          → ((((except (λ run. (raised r, record { world = world; held = hold r held })) handler
                    >>= closed_after)
                  (record { world = world; held = held })).1.held
                ≡ held)
              × Outcome P allowed
                  ((except (λ run. (raised r, record { world = world; held = hold r held })) handler
                      >>= closed_after)
                    (record { world = world; held = held })).0)
      kept-opened (ok fd) world held =
          let opened : Run W = record { world = world; held = fd ∷ held } in
          (
            ap (release fd) ((h fd).kept opened) ∙ release-head fd held,
            Outcome-unless_raised allowed faults P ((body fd) opened).0
                (close fd ((body fd) opened).1.world).0 ((h fd).at opened),
          )
      kept-opened (err fault) world held =
          let run : Run W = record { world = world; held = held } in
          let k =
            kept-continue {Q = λ (fd : ℕ). ⊥} {P = P} ((handler (os_error fault)) run).0
              closed_after ((h' fault).at run) (λ fd no. absurd no)
              ((handler (os_error fault)) run).1 in
          (k.0 ∙ (h' fault).kept run, k.1)

      -- A descriptor that is opened, used, and closed in the end.
      pub Runs-opening :
          (f : W → Result Fault ℕ × W)
          → Runs P allowed (except (opening f) handler >>= closed_after)
      Runs-opening f = record {
        kept = λ run. (kept-opened (f run.world).0 (f run.world).1 run.held).0;
        at = λ run. (kept-opened (f run.world).0 (f run.world).1 run.held).1;
      }
