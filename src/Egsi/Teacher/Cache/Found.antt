-- ===== src/Egsi/Teacher/Cache/Found.antt =====
-- What `TeacherCache.read` finds.
use mathlib.Core.Path.{subst}
use iclr.Base.{
  ℕ, ◌≡◌, refl, ◌∙◌, inl, inr, Bool, true, false, Option, none, some, List, Result, ok, err,
  or_raise, arith, Bool-cases, Option-cases,
}
use iclr.Base.Exec.{◌>>◌, continue-eq-ok}
use iclr.Egsi.Teacher.Cache.Directory.{open_directory}
use iclr.Egsi.Teacher.Cache.Entry.{Entry, read_entry_at}
use iclr.Egsi.Teacher.Cache.Keys.{path_for}
use iclr.Egsi.Teacher.Cache.Run.{
  Failure, os_error, runtime_error, value_error, teacher_error, retryable_race, assertion_error,
  out_of_fuel, System, Run, Action, raise_when, except, unless_raised, handled, raised,
}
use iclr.Egsi.Teacher.Cache.Store.{
  Codec, decoded, decode_entry, cache_invalid, read_response, read_under, read,
}
use iclr.Egsi.Teacher.Responses.{
  Text, TeacherResponse, with_cached, teacher_response_commitment, response_fields_are_valid,
  response_is_valid,
}

unless_raised-eq-ok :
    {A : Type 0} (r : Result Failure A) (done : Result Failure (Unit {0})) (a : A)
    → unless_raised r done ≡ ok a
    → r ≡ ok a
unless_raised-eq-ok r (ok done) a h = h
unless_raised-eq-ok r (err e) a h = cc

handled-eq-ok :
    {W A : Type 0} (r : Result Failure A) (run : Run W) (a : A)
    → (handled r cache_invalid run).0 ≡ ok a
    → r ≡ ok a
handled-eq-ok (ok b) run a h = h
handled-eq-ok (err (os_error fault)) run a h = cc
handled-eq-ok (err value_error) run a h = cc
handled-eq-ok (err runtime_error) run a h = cc
handled-eq-ok (err retryable_race) run a h = cc
handled-eq-ok (err assertion_error) run a h = cc
handled-eq-ok (err teacher_error) run a h = cc
handled-eq-ok (err out_of_fuel) run a h = cc

pub or_raise-eq-ok :
    {A : Type 0} (o : Option A) (e : Failure) (a : A) → or_raise o e ≡ ok a → o ≡ some a
or_raise-eq-ok none e a h = cc
or_raise-eq-ok (some b) e a h = cc

pub off_of :
    {W A : Type 0} (test : Bool) (e : Failure) (m : Action W A) (run : Run W) (a : A)
    → ((raise_when test e >> m) run).0 ≡ ok a
    → (test ≡ false) × ((m run).0 ≡ ok a)
off_of true e m run a h = cc
off_of false e m run a h = (refl, h)

-- A response that was found in the cache: marked so, and valid under its own commitment.
pub record IsFound (codec : Codec) (r : TeacherResponse) : Type 0 where
  pub cached : r.cached ≡ true
  pub valid : response_is_valid codec.digest r ≡ true

response_is_valid-with_cached :
    (digest : TeacherResponse → Text) (r : TeacherResponse) (b : Bool)
    → response_is_valid digest (with_cached r b) ≡ response_is_valid digest r
unfolding response_is_valid response_fields_are_valid teacher_response_commitment
response_is_valid-with_cached digest r b = refl

decoded-IsFound :
    (codec : Codec) (raw : List ℕ) (r : TeacherResponse)
    → decoded codec raw ≡ some r
    → IsFound codec r
unfolding decoded
decoded-IsFound codec raw r h = elim (Option-cases (codec.parse raw)) [
  | inl e ↦ absurd (ground (arith, e))
  | inr (parsed, e) ↦ elim (Bool-cases (response_is_valid codec.digest parsed)) [
    | inl valid ↦
        let same : with_cached parsed true ≡ r = ground (arith, e, valid) in
        subst (IsFound codec) same (record {
          cached = refl;
          valid = response_is_valid-with_cached codec.digest parsed true ∙ valid;
        })
    | inr invalid ↦ absurd (ground (arith, e, invalid))
  ]
]

decode_entry-IsFound :
    (codec : Codec) (entry : Entry) (r : TeacherResponse)
    → decode_entry codec entry ≡ ok (some r)
    → IsFound codec r
decode_entry-IsFound codec none r h = absurd (ground arith)
decode_entry-IsFound codec (some (raw, token)) r h = elim (Option-cases (decoded codec raw)) [
  | inl e ↦ absurd (ground (arith, e))
  | inr (found, e) ↦ decoded-IsFound codec raw r (e ∙ ground (arith, e))
]

module _ {W : Type 0} (sys : System W) (codec : Codec) (directory : List Text) where
  read_under-IsFound :
      (name : Text) (fd : Option ℕ) (run : Run W) (r : TeacherResponse)
      → (read_under sys codec directory name fd run).0 ≡ ok (some r)
      → IsFound codec r
  unfolding read_response
  read_under-IsFound name none run r h = absurd (ground arith)
  read_under-IsFound name (some fd) run r h =
      let body = except (read_response sys codec directory name fd) cache_invalid in
      let h1 =
        unless_raised-eq-ok (body run).0 (raised (sys.close fd (body run).1.world).0) (some r) h in
      let h2 =
        handled-eq-ok (read_response sys codec directory name fd run).0
          (read_response sys codec directory name fd run).1 (some r) h1 in
      let (entry, _, h3) =
        continue-eq-ok (read_entry_at sys fd name run).0 _ (read_entry_at sys fd name run).1 h2 in
      decode_entry-IsFound codec entry r h3

  pub read-IsFound :
      (key : Text) (run : Run W) (r : TeacherResponse)
      → (read sys codec directory key run).0 ≡ ok (some r)
      → IsFound codec r
  unfolding read
  read-IsFound key run r h =
      let (name, _, h1) = continue-eq-ok (or_raise (path_for key) value_error) _ run h in
      let opened = except (open_directory sys false directory) cache_invalid in
      let (fd, _, h2) = continue-eq-ok (opened run).0 _ (opened run).1 h1 in
      read_under-IsFound name fd (opened run).1 r h2
