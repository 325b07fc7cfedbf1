-- ===== src/Egsi/Episode/Rounds.antt =====
-- The phases of `replay_events` as a step relation, and the walks that end closed.
use iclr.Base.{ℕ, zero, suc, ◌+◌, String, ◌≡◌, refl, List, [], ◌∷◌, arith}
use iclr.Egsi.Episode.Replay.{Phase}

-- What a phase takes, and the phase after it; the number counts the labels.
pub data Rule : Phase → String → Phase → ℕ → Type 0 where
  opens : Rule Phase.start "EPISODE_STARTED" Phase.at_hypothesis 0
  creates : Rule Phase.at_hypothesis "HYPOTHESIS_CREATED" Phase.at_proposed 0
  proposes : Rule Phase.at_proposed "ACTION_PROPOSED" Phase.at_selected 0
  selects : Rule Phase.at_selected "ACTION_SELECTED" Phase.at_label 0
  labels : Rule Phase.at_label "PATCH_GROUNDED_LABEL_RECORDED" Phase.proposed_or_close 1
  proposes_again : Rule Phase.proposed_or_close "ACTION_PROPOSED" Phase.at_selected 0
  closes : Rule Phase.proposed_or_close "EPISODE_CLOSED" Phase.at_closed 0

pub data Walk : Phase → List String → Phase → ℕ → Type 0 where
  stay : {p : Phase} → Walk p [] p 0
  then_walk :
      {p q r : Phase} {type : String} {types : List String} {m n : ℕ}
      → Rule p type q m
      → Walk q types r n
      → Walk p (type ∷ types) r (n + m)

-- The events of `n` transitions, from their proposals on.
abbrev pub rounds : ℕ → List String
rounds zero = "EPISODE_CLOSED" ∷ []
rounds (suc n) = "ACTION_PROPOSED" ∷ "ACTION_SELECTED" ∷ "PATCH_GROUNDED_LABEL_RECORDED" ∷ rounds n

pub plus_zero : (n : ℕ) → n + 0 ≡ n
plus_zero n = omega arith

rounds-suc :
    (types : List String) (n m : ℕ)
    → n ≡ suc m
    → types ≡ "ACTION_SELECTED" ∷ "PATCH_GROUNDED_LABEL_RECORDED" ∷ rounds m
    → ("ACTION_PROPOSED" ∷ types) ≡ rounds (n + 0)
rounds-suc types n m count same = rw (plus_zero n, count, same)

-- The walks that end closed, from where a proposal or the end may follow, and from a selection.
mutual
  rounds-again :
      (types : List String) (n : ℕ)
      → Walk Phase.proposed_or_close types Phase.at_closed n
      → types ≡ rounds n
  rounds-again types n (then_walk proposes_again w) =
      let (m, count, same) = rounds-selected _ _ w in rounds-suc _ _ m count same
  rounds-again types n (then_walk closes stay) = refl
  rounds-again types n (then_walk closes (then_walk r w)) = elim r [ ]

  rounds-selected :
      (types : List String) (n : ℕ)
      → Walk Phase.at_selected types Phase.at_closed n
      → (m : ℕ) × (n ≡ suc m)
        × (types ≡ "ACTION_SELECTED" ∷ "PATCH_GROUNDED_LABEL_RECORDED" ∷ rounds m)
  rounds-selected types n (then_walk selects (then_walk {n = m} labels w)) =
      (m, omega arith, rw (rounds-again _ _ w))

-- A whole episode.
pub Walk-rounds :
    (types : List String) (n : ℕ)
    → Walk Phase.start types Phase.at_closed n
    → types ≡ "EPISODE_STARTED" ∷ "HYPOTHESIS_CREATED" ∷ rounds n
Walk-rounds types n (then_walk opens (then_walk creates (then_walk {n = k} proposes w))) =
    let (m, count, same) = rounds-selected _ _ w in
    rw (plus_zero (k + 0 + 0), plus_zero (k + 0), rounds-suc _ _ m count same)
