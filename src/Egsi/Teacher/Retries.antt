-- ===== src/Egsi/Teacher/Retries.antt =====
-- `post_json` of src/egsi/teacher/base.py, and when it stops.
use iclr.Base.{
  ℕ, zero, suc, ◌+◌, ◌<◌, ◌≤◌, ◌≡◌, refl, inl, inr, Bool, true, false, not, ◌&&◌, ◌||◌, List, [],
  ◌∷◌, any, leb, ltb, ◌==◌, Result, ok, err, arith, Bool-cases, ◌⊎◌, if◌then◌else◌,
}
use iclr.Base.Integers.{ℤ, pos, negsuc}

-- What one `client.post` gives: an error of the transport, another exception, or a response with its
-- status.
pub data Reply : Type 0 where
  transport_error other_exception : Reply
  response : ℕ → Reply

pub data PostError : Type 0 where
  bad_retries teacher_transport_error : PostError
  -- the exception of the client, which passes through
  client_exception : PostError
  teacher_http_error : ℕ → PostError

abbrev pub max_retries_allowed : ℕ
max_retries_allowed = 10

abbrev pub retryable_statuses : List ℕ
retryable_statuses = 408 ∷ 409 ∷ 425 ∷ 429 ∷ []

abbrev pub is_success : ℕ → Bool
is_success status = leb 200 status && ltb status 300

-- The loop goes on after this reply, if an attempt is left.
unfoldable pub is_retried : Reply → Bool
is_retried transport_error = true
is_retried other_exception = false
is_retried (response status) =
    not (is_success status)
    && (any (λ retryable. retryable == status) retryable_statuses || leb 500 status)

-- What is returned or raised for a reply that is not retried.
unfoldable pub conclude : Reply → Result PostError ℕ
conclude transport_error = err teacher_transport_error
conclude other_exception = err client_exception
conclude (response status) =
    if is_success status then ok status else err (teacher_http_error status)

-- `answers` has the reply to each attempt of the client.
module _ (answers : ℕ → Reply) where
  -- The loop, with the attempts that are left after this one; beside the result, how often it posted.
  unfoldable pub post_from : ℕ → ℕ → Result PostError ℕ × ℕ
  post_from zero attempt = (conclude (answers attempt), suc attempt)
  post_from (suc left) attempt = elim (is_retried (answers attempt)) [
    | true ↦ post_from left (suc attempt)
    | false ↦ (conclude (answers attempt), suc attempt)
  ]

  -- `post_json`
  unfoldable pub post_json : ℤ → Result PostError ℕ × ℕ
  post_json (negsuc n) = (err bad_retries, 0)
  post_json (pos max_retries) =
      if leb max_retries max_retries_allowed then post_from max_retries 0 else (err bad_retries, 0)

  -- The loop stopped at the attempt `last`, for a reason, and went on at each one before.
  pub record IsConcluded (first final : ℕ) (r : Result PostError ℕ × ℕ) : Type 0 where
    pub last : ℕ
    pub bounded : last ≤ final
    pub posted : r.1 ≡ suc last
    pub result : r.0 ≡ conclude (answers last)
    pub retried : (n : ℕ) → first ≤ n → n < last → is_retried (answers n) ≡ true
    pub stopped : (is_retried (answers last) ≡ false) ⊎ (last ≡ final)

  post_from-IsConcluded :
      (left attempt final : ℕ)
      → attempt + left ≡ final
      → IsConcluded attempt final (post_from left attempt)
  unfolding post_from
  post_from-IsConcluded zero attempt final h = record {
    last = attempt;
    bounded = omega arith;
    posted = refl;
    result = refl;
    retried = λ n above below. absurd (omega arith);
    stopped = inr (omega arith);
  }
  post_from-IsConcluded (suc left) attempt final h =
      elim (Bool-cases (is_retried (answers attempt))) [
        | inl again ↦
            let c = post_from-IsConcluded left (suc attempt) final (omega arith) in
            record {
              last = c.last;
              bounded = c.bounded;
              posted = rw (again, post_from) (c.posted);
              result = rw (again, post_from) (c.result);
              retried = λ n above below. elim (Bool-cases (n == attempt)) [
                | inl here ↦ ground (arith, here, again)
                | inr later ↦ c.retried n (ground (arith, later)) below
              ];
              stopped = c.stopped;
            }
        | inr stop ↦ record {
          last = attempt;
          bounded = omega arith;
          posted = rw (stop, post_from) refl;
          result = rw (stop, post_from) refl;
          retried = λ n above below. absurd (omega arith);
          stopped = inl stop;
        }
      ]

  leb-true : (a b : ℕ) → a ≤ b → leb a b ≡ true
  leb-true a b h = ground arith

  -- With at most ten retries, `post_json` posts at least once and at most once more than there are
  -- retries. It goes on after each reply that may be retried while a retry is left, and what it returns
  -- or raises is the conclusion from the last reply, which may not be retried or was the last attempt.
  pub post_json-IsConcluded :
      (max_retries : ℕ)
      → max_retries ≤ max_retries_allowed
      → IsConcluded 0 max_retries (post_json (pos max_retries))
  unfolding post_json
  post_json-IsConcluded max_retries h =
      rw (leb-true max_retries max_retries_allowed h)
        (post_from-IsConcluded max_retries 0 max_retries (omega arith))
