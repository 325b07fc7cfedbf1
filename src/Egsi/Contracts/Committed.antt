-- ===== src/Egsi/Contracts/Committed.antt =====
-- A record that commits to itself is valid, and a valid payload has unambiguous identifiers.
use iclr.Base.{
  ◌≤◌, All, All-map, any-All, ℕ, String, ◌≡◌, refl, ◌↔◌, true, false, some, List, [], ◌∷◌, member,
  eq_iff, IsUnique, is_unique-IsUnique, is_none, arith, Option,
}
use iclr.Egsi.Candidates.RoundTrip.{codes_eq_refl}
use iclr.Egsi.Episode.Events.{is_sha256}
use iclr.Egsi.Contracts.Enrichment.{
  EnrichmentRecord, EnrichmentPayload, AuthorizationSemantics, EnrichedLocation, location_is_valid,
  payload_is_valid, obligation_ids, step_ids, family_fits, with_commitment, no_commitment,
  enrichment_record_commitment, other_fields_are_valid, record_fields_are_valid, record_is_valid,
  committed_enrichment_record,
}

module _ (digest : EnrichmentRecord → List ℕ) where
  abbrev pub commitment_of : EnrichmentRecord → List ℕ
  commitment_of r = enrichment_record_commitment digest r

  -- The commitment does not depend on the one that the record carries.
  commitment_of-with_commitment :
      (r : EnrichmentRecord) (c : List ℕ) → commitment_of (with_commitment r c) ≡ commitment_of r
  unfolding enrichment_record_commitment
  commitment_of-with_commitment r c = refl

  other_fields_are_valid-with_commitment :
      (r : EnrichmentRecord) (c : List ℕ)
      → other_fields_are_valid (with_commitment r c) ≡ other_fields_are_valid r
  unfolding other_fields_are_valid
  other_fields_are_valid-with_commitment r c = refl

  -- A valid record, complete but for its commitment, commits to itself: what
  -- `committed_enrichment_record` returns is the record with the commitment to its other fields, and
  -- it is valid. The commitment is in the form of a SHA-256 digest.
  pub committed_enrichment_record-record_is_valid :
      (value : EnrichmentRecord)
      → other_fields_are_valid value ≡ true
      → is_sha256 (commitment_of value) ≡ true
      → (committed_enrichment_record digest value
          ≡ some (with_commitment value (commitment_of value)))
        × (record_is_valid digest (with_commitment value (commitment_of value)) ≡ true)
  unfolding committed_enrichment_record record_is_valid record_fields_are_valid
  committed_enrichment_record-record_is_valid value h e =
      let c = commitment_of value in
      let fields = other_fields_are_valid-with_commitment value in
      let same = commitment_of-with_commitment value in
      let first : record_fields_are_valid (with_commitment value no_commitment) ≡ true =
        rw (fields no_commitment, h) in
      let second : record_is_valid digest (with_commitment value c) ≡ true =
        rw (fields c, h, e, same c, codes_eq_refl c) in
      (rw (first, same no_commitment, second), second)

authorization_iff :
    (family : String) (authorization : Option AuthorizationSemantics)
    → member family ("source_to_sink" ∷ "authorization" ∷ []) ≡ true
    → family_fits family authorization ≡ true
    → (family ≡ "authorization") ↔ (is_none authorization ≡ false)
authorization_iff family authorization known fits = (
  λ same. ground (arith, eq_iff family "authorization", same),
  λ there. ground (
    arith,
    eq_iff family "authorization",
    eq_iff "source_to_sink" family,
    eq_iff family "source_to_sink",
    eq_iff "authorization" family,
    there,
  ),
)

-- The lines of a location, where both are known, are in order and count from 1.
pub record HasLines (l : EnrichedLocation) : Type 0 where
  pub counted : (n : ℕ) → l.start_line ≡ some n → 1 ≤ n
  pub ordered : (n m : ℕ) → l.start_line ≡ some n → l.end_line ≡ some m → n ≤ m

location_is_valid-HasLines : (l : EnrichedLocation) → location_is_valid l ≡ true → HasLines l
unfolding location_is_valid
location_is_valid-HasLines l h = record {
  counted = λ n e. ground (arith, e);
  ordered = λ n m e e'. ground (arith, e, e');
}

-- What holds of a payload whatever its texts say.
pub record IsUnambiguous (payload : EnrichmentPayload) : Type 0 where
  pub obligations : IsUnique (obligation_ids payload)
  pub steps : IsUnique (step_ids payload)
  pub authorization : (payload.family ≡ "authorization") ↔ (is_none payload.authorization ≡ false)
  pub lines : All HasLines payload.locations

-- A payload that validates names each obligation and each step once, has authorization semantics
-- exactly if its family is authorization, and each of its locations has its lines in order.
pub payload_is_valid-IsUnambiguous :
    (payload : EnrichmentPayload) → payload_is_valid payload ≡ true → IsUnambiguous payload
unfolding payload_is_valid
payload_is_valid-IsUnambiguous payload h = record {
  obligations = is_unique-IsUnique (obligation_ids payload) (ground arith);
  steps = is_unique-IsUnique (step_ids payload) (ground arith);
  authorization =
      authorization_iff payload.family payload.authorization (ground arith) (ground arith);
  lines =
      All-map (λ l. location_is_valid l ≡ true) HasLines payload.locations
        location_is_valid-HasLines (any-All location_is_valid payload.locations (ground arith));
}
