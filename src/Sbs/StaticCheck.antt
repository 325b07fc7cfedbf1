-- ===== src/Sbs/StaticCheck.antt =====
-- `obligation_is_generic` and `classify_readiness` of src/sbs/static_check.py.
pub mod Blockers
use iclr.Base.{
  ℕ, String, Bool, true, false, not, ◌&&◌, ◌||◌, Option, none, some, List, [], ◌∷◌, ◌++◌, map, any,
  Result, ok, ◌>>=◌, if◌then◌else◌,
}
use iclr.Base.Texts.{codes, lower, contains, starts_with, is_blank, join}
use iclr.Sbs.Errors.{Failure}
use iclr.Sbs.Registry.{never_sets_human_verified}
use iclr.Sbs.Schema.Records.{CandidateStatus}

-- `GENERIC_OBLIGATION_MARKERS`
abbrev pub generic_obligation_markers : List String
generic_obligation_markers =
    "establish attacker principal, target resource, expected authorization relation"
    ∷ "establish untrusted source, dangerous sink" ∷ []

unfoldable pub obligation_is_generic : Option (List ℕ) → Bool
unfolding lower
obligation_is_generic none = true
obligation_is_generic (some text) =
    is_blank text
    || any (λ marker. contains (map lower text) (codes marker)) generic_obligation_markers

-- The arguments of `classify_readiness`.
pub record Candidate : Type 0 where
  pub category_claim : List ℕ
  pub versions_locatable : Bool
  pub license_clear : Bool
  pub citation_range_exists : Bool
  pub actor_view_generated : Bool
  pub obligation_basis : Option (List ℕ)

-- `logic and obligation_is_generic(obligation_basis)`
unfoldable pub lacks_obligation : Candidate → Bool
lacks_obligation c =
    starts_with c.category_claim (codes "logic") && obligation_is_generic c.obligation_basis

-- `blocker_parts.append(part)` under a test.
abbrev pub part_if : Bool → String → List String
part_if true part = part ∷ []
part_if false part = []

unfoldable pub blocker_parts : Candidate → List String
blocker_parts c =
    part_if (not c.versions_locatable) "frozen_revision_not_locatable"
    ++ (part_if (not c.license_clear) "license_unclear"
        ++ (part_if (not c.citation_range_exists) "citation_range_missing"
            ++ part_if (lacks_obligation c) "obligation_basis_generic_or_missing"))

unfoldable pub is_ready : Candidate → Bool
is_ready c =
    c.versions_locatable
    && c.license_clear
    && c.citation_range_exists
    && c.actor_view_generated
    && not (lacks_obligation c)

-- The status, "yes" or "no", and the blocker.
pub record Readiness : Type 0 where
  pub status : CandidateStatus
  pub ready : String
  pub blocker : Option (List ℕ)

-- `";".join(blocker_parts) if blocker_parts else None`
abbrev pub blocker_of : List String → Option (List ℕ)
blocker_of [] = none
blocker_of (part ∷ parts) = some (join (codes ";") (map codes (part ∷ parts)))

unfoldable pub classify_readiness : Candidate → Result Failure Readiness
classify_readiness c =
    if is_ready c
    then (never_sets_human_verified CandidateStatus.evidence_draft >>= λ status.
        ok (record { status = status; ready = "yes"; blocker = none }))
    else (never_sets_human_verified (
          if c.versions_locatable
          then CandidateStatus.source_resolved
          else CandidateStatus.metadata_only)
        >>= λ status.
            ok (record { status = status; ready = "no"; blocker = blocker_of (blocker_parts c) }))
