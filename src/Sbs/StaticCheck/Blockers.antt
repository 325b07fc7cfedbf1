-- ===== src/Sbs/StaticCheck/Blockers.antt =====
-- What a classification says of a candidate.
use iclr.Base.{
  ◌≡◌, ◌≢◌, refl, ◌⊎◌, inl, inr, Bool, true, false, none, ok, arith, Bool-cases, if◌then◌else◌, not,
  ◌&&◌, ◌↔◌,
}
use iclr.Base.Texts.{codes, starts_with}
use iclr.Sbs.Registry.{never_sets_human_verified}
use iclr.Sbs.Schema.Records.{CandidateStatus}
use iclr.Sbs.StaticCheck.{
  Candidate, Readiness, blocker_parts, is_ready, blocker_of, classify_readiness, lacks_obligation,
  obligation_is_generic,
}

abbrev held_status : Bool → CandidateStatus
held_status located =
    if located then CandidateStatus.source_resolved else CandidateStatus.metadata_only

held_status-cases : (located : Bool) → held_status located ≢ CandidateStatus.human_verified
held_status-cases true e = cc
held_status-cases false e = cc

held_status-located :
    (located : Bool)
    → (located ≡ true) × (held_status located ≡ CandidateStatus.source_resolved)
      ⊎ (located ≡ false) × (held_status located ≡ CandidateStatus.metadata_only)
held_status-located true = inl (refl, refl)
held_status-located false = inr (refl, refl)

-- All that a blocker can name is in order: only the actor view may be missing.
pub record IsUnblocked (c : Candidate) : Type 0 where
  pub located : c.versions_locatable ≡ true
  pub licensed : c.license_clear ≡ true
  pub cited : c.citation_range_exists ≡ true
  pub obliged :
      (starts_with c.category_claim (codes "logic") ≡ false)
      ⊎ (obligation_is_generic c.obligation_basis ≡ false)

or_not : (a b : Bool) → not (a && b) ≡ true → (a ≡ false) ⊎ (b ≡ false)
or_not true b h = inr (ground arith)
or_not false b h = inl refl

IsUnblocked-of :
    (c : Candidate)
    → (c.versions_locatable
        && c.license_clear
        && c.citation_range_exists
        && not (lacks_obligation c))
      ≡ true
    → IsUnblocked c
unfolding lacks_obligation
IsUnblocked-of c h = record {
  located = ground arith;
  licensed = ground arith;
  cited = ground arith;
  obliged =
      or_not (starts_with c.category_claim (codes "logic"))
        (obligation_is_generic c.obligation_basis) (ground arith);
}

obliged-lacks_obligation : (c : Candidate) → IsUnblocked c → lacks_obligation c ≡ false
unfolding lacks_obligation
obliged-lacks_obligation c u = ground (arith, u.obliged)

is_ready-IsUnblocked :
    (c : Candidate) → is_ready c ≡ true → IsUnblocked c × (c.actor_view_generated ≡ true)
unfolding is_ready
is_ready-IsUnblocked c h = (IsUnblocked-of c (ground arith), ground arith)

IsUnblocked-is_ready :
    (c : Candidate) → IsUnblocked c → c.actor_view_generated ≡ true → is_ready c ≡ true
unfolding is_ready lacks_obligation
IsUnblocked-is_ready c u view =
    rw (u.located, u.licensed, u.cited, view, obliged-lacks_obligation c u) refl

-- There is no blocker exactly if there is nothing to name.
blocker_of-none : (c : Candidate) → (blocker_of (blocker_parts c) ≡ none) ↔ IsUnblocked c
unfolding blocker_parts lacks_obligation
blocker_of-none c = (
  λ e. IsUnblocked-of c (ground (arith, e)),
  λ u. rw (u.located, u.licensed, u.cited, obliged-lacks_obligation c u) refl,
)

-- A classification always returns, and never as verified by a human. It is "yes", with the status
-- "evidence_draft" and no blocker, where the versions can be located, the license is clear, the
-- citation exists, a claim of logic has an obligation that is not generic, and the actor view was
-- generated. Else one of these fails, and it is "no", with the status "source_resolved" if the versions
-- can be located and "metadata_only" if not; the blocker is missing exactly where only the actor view
-- is.
pub classify_readiness_lem :
    (c : Candidate)
    → (r : Readiness) × (classify_readiness c ≡ ok r)
      × (r.status ≢ CandidateStatus.human_verified)
      × ((IsUnblocked c × (c.actor_view_generated ≡ true))
            × (r.status ≡ CandidateStatus.evidence_draft)
            × (r.ready ≡ "yes")
            × (r.blocker ≡ none)
          ⊎ ¬ (IsUnblocked c × (c.actor_view_generated ≡ true))
            × (r.ready ≡ "no")
            × ((c.versions_locatable ≡ true) × (r.status ≡ CandidateStatus.source_resolved)
                ⊎ (c.versions_locatable ≡ false) × (r.status ≡ CandidateStatus.metadata_only))
            × ((r.blocker ≡ none) ↔ IsUnblocked c))
unfolding classify_readiness never_sets_human_verified
classify_readiness_lem c = elim (Bool-cases (is_ready c)) [
  | inl h ↦ (
    record { status = CandidateStatus.evidence_draft; ready = "yes"; blocker = none },
    ground (arith, h),
    λ e. cc,
    inl (is_ready-IsUnblocked c h, refl, refl, refl),
  )
  | inr h ↦ (
    record {
      status = held_status c.versions_locatable;
      ready = "no";
      blocker = blocker_of (blocker_parts c);
    },
    ground (arith, h),
    held_status-cases c.versions_locatable,
    inr (
      λ all. cc (h, IsUnblocked-is_ready c all.0 all.1),
      refl,
      held_status-located c.versions_locatable,
      blocker_of-none c,
    ),
  )
]
