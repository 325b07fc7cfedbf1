-- ===== src/Sbs/Scorer.antt =====
-- src/sbs/scorer.py: the reserved value scorer, which never scores.
use iclr.Base.{Bool, false, Result, err, raise_if}
use iclr.Sbs.Errors.{Failure, value_scorer_unavailable, runtime_error}

-- `ValueScorer.available`
abbrev pub available : Bool
available = false

-- `ValueScorer.__init__` and `ValueScorer.score` raise, whatever the arguments.
unfoldable pub construct : {A : Type 0} → Result Failure A
construct = err value_scorer_unavailable

unfoldable pub score : {A B : Type 0} → A → Result Failure B
score arguments = err value_scorer_unavailable

abbrev pub require_scorer_unavailable : Result Failure Unit
require_scorer_unavailable = raise_if available runtime_error
