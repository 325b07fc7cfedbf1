-- ===== src/Egsi/Redaction/Oracle.antt =====
-- `_oracle_scalar_sets`, `_assert_no_oracle_scalar_smuggling`, `build_policy_seed` and
-- `verify_policy_seed` of src/egsi/generation/redaction.py. A ValueError is `none`.
use iclr.Base.{
  Result, ok, err, String, Bool, false, not, ◌&&◌, Option, none, some, List, [], ◌∷◌, ◌++◌, any,
  length, str_eq, ◌==◌,
}
use iclr.Base.Options.{◌>>=◌, ◌>>◌, guard}
use iclr.Base.Texts.{codes, codes_eq, contains, take, utf8_length}
use iclr.Egsi.Candidates.Steps.{Text, text_member}
use iclr.Egsi.Contracts.Case.{CaseManifest, is_commit}
use iclr.Egsi.Episode.Events.{
  Seed, Manifest, Hashes, valid_emitted_text, seed_is_exact, manifest_has_exact_shape,
}
use iclr.Egsi.Redaction.Extensions.{Identities, top_extension_scalar_sets}
use iclr.Egsi.Redaction.Traversal.{all_scalar_strings}
use iclr.Json.{Json, str, arr, obj, Items, nil, cons}

-- The standard library: NFKC and case folding of a text that is UTF-8, and SHA-256 in hexadecimal of
-- the JSON of a list of texts and of a text.
pub record Unicode : Type 0 where
  pub fold : Text → Text
  pub list_digest : List String → Text
  pub text_digest : Text → Text

abbrev pub to_option : {E A : Type 0} → Result E A → Option A
to_option (ok a) = some a
to_option (err e) = none

-- A list of texts as JSON.
abbrev pub text_items : List String → Items
text_items [] = nil
text_items (x ∷ xs) = cons (str x) (text_items xs)

abbrev pub optional : Option String → List String
optional none = []
optional (some x) = x ∷ []

-- `{_normalised_scalar(value) for value in values}`; `none` if one of them raises.
unfoldable pub map_all : {A B : Type 0} → (A → Option B) → List A → Option (List B)
map_all f [] = some []
map_all f (a ∷ rest) = f a >>= λ b. map_all f rest >>= λ bs. some (b ∷ bs)

-- The fields that are sensitive as they stand.
abbrev pub sensitive_fields : CaseManifest → List String
sensitive_fields case =
    case.cwe_normalized_primary
    ∷ case.repository.fixed_commit
    ∷ case.artifacts.patch_path
    ∷ case.artifacts.proof_obligations_path
    ∷ case.artifacts.manifest_path
    ∷ case.views.oracle_view_path
    ∷ case.views.policy_view_path
    ∷ case.views.redaction_manifest_sha256
    ∷ optional case.artifacts.poc_url

-- The sources whose every text is sensitive.
abbrev pub oracle_sources : CaseManifest → List Json
oracle_sources case =
    arr (text_items case.artifacts.test_paths)
    ∷ obj case.artifacts.extra
    ∷ obj case.views.extra
    ∷ arr case.affected_locations
    ∷ obj case.repository.extra
    ∷ []

abbrev pub concat : List (List String) → List String
concat [] = []
concat (xs ∷ xss) = xs ++ concat xss

-- The texts of the case that are emitted, or were looked at with them.
abbrev pub emitted_texts : CaseManifest → List String
emitted_texts case =
    case.case_id ∷ case.repository.upstream_id ∷ case.repository.vulnerable_commit ∷ []

-- `normalised_oracle and any(normalised_oracle in value for value in normalised_emitted)`
abbrev pub is_leaked : List Text → Text → Bool
is_leaked emitted oracle = not (length oracle == 0) && any (λ value. contains value oracle) emitted

abbrev pub seed_eq : Seed → Seed → Bool
seed_eq a b =
    codes_eq a.case_id b.case_id
    && codes_eq a.upstream_id b.upstream_id
    && codes_eq a.vulnerable_commit b.vulnerable_commit

abbrev pub manifest_eq : Manifest → Manifest → Bool
manifest_eq a b = codes_eq a.case_id b.case_id && codes_eq a.policy_sha256 b.policy_sha256

module _ (unicode : Unicode) where
  open unicode use {fold, list_digest}

  -- `_normalised_scalar`
  unfoldable pub normalised_scalar : String → Option Text
  normalised_scalar value = utf8_length (codes value) >>= λ n. some (fold (codes value))

  -- `policy_case_id`; a text that is no UTF-8 raises.
  unfoldable pub policy_case_id : CaseManifest → Option Text
  policy_case_id case = do
    let parts = case.case_id ∷ case.repository.upstream_id ∷ case.repository.vulnerable_commit ∷ []
    lengths ← map_all (λ part. utf8_length (codes part)) parts
    some (codes "case-" ++ take 24 (list_digest parts))

  abbrev pub identities : CaseManifest → Option Identities
  identities case = do
    case_id ← normalised_scalar case.case_id
    upstream_id ← normalised_scalar case.repository.upstream_id
    vulnerable_commit ← normalised_scalar case.repository.vulnerable_commit
    some (record {
      case_id = case_id;
      upstream_id = upstream_id;
      vulnerable_commit = vulnerable_commit;
      normalised = normalised_scalar;
    })

  -- `_oracle_scalar_sets`: the texts that are matched exactly, and those matched as parts.
  unfoldable pub oracle_scalar_sets : CaseManifest → Option (List String × List String)
  oracle_scalar_sets case = do
    scalars ← map_all (λ source. to_option (all_scalar_strings source)) (oracle_sources case)
    ids ← identities case
    (top_exact, top_substrings) ← to_option (top_extension_scalar_sets ids case.extra)
    some (
      (case.family ∷ case.evidence_tier ∷ case.split ∷ case.artifacts.poc_status ∷ top_exact),
      sensitive_fields case ++ concat scalars ++ top_substrings,
    )

  -- The end of `_assert_no_oracle_scalar_smuggling`: the comparisons in normal form.
  unfoldable pub compare_scalars :
      Text → CaseManifest → List String × List String → Option (Unit {0})
  compare_scalars policy_id case (exact_only, substring_sensitive) = do
    emitted ← map_all normalised_scalar (emitted_texts case)
    exact ← map_all normalised_scalar exact_only
    guard (not (any (λ value. text_member value exact) (fold policy_id ∷ emitted)))
    sensitive ← map_all normalised_scalar substring_sensitive
    guard (not (any (is_leaked (fold policy_id ∷ emitted)) sensitive))
    some tt

  -- `_assert_no_oracle_scalar_smuggling`; it looks at the policy's identifier first.
  unfoldable pub no_oracle_scalar_smuggling : CaseManifest → Option (Unit {0})
  unfolding compare_scalars
  no_oracle_scalar_smuggling case = do
    guard (not (str_eq case.repository.vulnerable_commit case.repository.fixed_commit))
    policy_id ← policy_case_id case
    guard (valid_emitted_text policy_id)
    guard (not (any (λ value. not (valid_emitted_text (codes value))) (emitted_texts case)))
    guard (is_commit case.repository.vulnerable_commit)
    sets ← oracle_scalar_sets case
    compare_scalars policy_id case sets

  -- `build_policy_seed`; the keys of a seed and of a manifest are none of the forbidden ones.
  unfoldable pub build_policy_seed : Hashes → CaseManifest → Option (Seed × Manifest)
  build_policy_seed hashes case = do
    no_oracle_scalar_smuggling case
    policy_id ← policy_case_id case
    let seed : Seed = record {
      case_id = policy_id;
      upstream_id = codes case.repository.upstream_id;
      vulnerable_commit = codes case.repository.vulnerable_commit;
    }
    guard (seed_is_exact seed)
    let manifest : Manifest = record { case_id = policy_id; policy_sha256 = hashes.sha seed }
    some (seed, manifest)

  -- `verify_policy_seed`
  unfoldable pub verify_policy_seed : Hashes → Seed → Manifest → CaseManifest → Bool
  verify_policy_seed hashes seed manifest case =
      seed_is_exact seed
      && manifest_has_exact_shape manifest
      && elim (build_policy_seed hashes case) [
        | none ↦ false
        | some (expected_seed, expected_manifest) ↦
            seed_eq seed expected_seed
            && manifest_eq manifest expected_manifest
            && codes_eq manifest.policy_sha256 (hashes.sha seed)
      ]
