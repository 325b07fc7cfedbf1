-- ===== src/Egsi/Redaction/Secrecy.antt =====
-- No text of the oracle shows in a policy seed, nor in an artifact without hits.
use mathlib.Core.Option.{some-injective}
use iclr.Base.{
  String, ◌≡◌, sym, ◌∙◌, ap, inl, inr, Bool, true, false, ◌||◌, some, List, ◌∷◌, any, length, ◌==◌,
  arith, Option-cases,
}
use iclr.Base.Texts.{codes, contains}
use iclr.Egsi.Candidates.Steps.{Text}
use iclr.Egsi.Contracts.Case.{CaseManifest}
use iclr.Egsi.Episode.Events.{Seed, Manifest, Hashes, seed_is_exact}
use iclr.Egsi.Redaction.Hidden.{
  IsSensitive, map_all-any, oracle_scalar_sets-member, emitted_fold,
  no_oracle_scalar_smuggling-IsChecked,
}
use iclr.Egsi.Redaction.Oracle.{
  Unicode, normalised_scalar, policy_case_id, is_leaked, no_oracle_scalar_smuggling,
  build_policy_seed,
}

-- The text is no part of the value.
abbrev pub IsAbsent : Text → Text → Type 0
IsAbsent text value = contains value text ≡ false

module _ (unicode : Unicode) (hashes : Hashes) (case : CaseManifest) where
  -- The seed's three texts are the policy's identifier and the case's own.
  pub record IsSeedOf (seed : Seed) (manifest : Manifest) : Type 0 where
    pub guarded : no_oracle_scalar_smuggling unicode case ≡ some tt
    pub identified : policy_case_id unicode case ≡ some seed.case_id
    pub same_upstream : seed.upstream_id ≡ codes case.repository.upstream_id
    pub same_commit : seed.vulnerable_commit ≡ codes case.repository.vulnerable_commit
    pub exact : seed_is_exact seed ≡ true
    pub same_manifest :
        manifest ≡ record { case_id = seed.case_id; policy_sha256 = hashes.sha seed }

  pub build_policy_seed-IsSeedOf :
      (seed : Seed) (manifest : Manifest)
      → build_policy_seed unicode hashes case ≡ some (seed, manifest)
      → IsSeedOf seed manifest
  unfolding build_policy_seed
  build_policy_seed-IsSeedOf seed manifest h =
      elim (Option-cases (no_oracle_scalar_smuggling unicode case)) [
        | inl e ↦ absurd (ground (arith, e))
        | inr (done, e) ↦ elim (Option-cases (policy_case_id unicode case)) [
          | inl e' ↦ absurd (ground (arith, e, e'))
          | inr (policy_id, e') ↦ record {
            guarded = e;
            identified = e' ∙ ground (arith, e, e');
            same_upstream = ground (arith, e, e');
            same_commit = ground (arith, e, e');
            exact = ground (arith, e, e');
            same_manifest = ground (arith, e, e');
          }
        ]
      ]

  is_leaked_not :
      (emitted : List Text) (text : Text)
      → is_leaked emitted text ≡ false
      → (length text == 0) ≡ false
      → any (λ value. contains value text) emitted ≡ false
  is_leaked_not emitted text h e = ground (arith, h, e)

  parts_of :
      (a b c d : Bool)
      → (a || (b || (c || (d || false)))) ≡ false
      → (a ≡ false) × (c ≡ false) × (d ≡ false)
  parts_of a b c d h = ground arith

  -- The normal form of a sensitive text, unless it is empty, is no part of the normal form of any of
  -- the three texts in a seed that `build_policy_seed` returns. Sensitive are the fields that are
  -- looked at as they stand; every text at any depth of the test paths, the affected locations and the
  -- extensions of the artifacts, the views and the repository; and every text at any depth of the
  -- top-level extensions, except the status, the status of a build, the project families of the
  -- deduplication and the split groups, and, each in its own places, the identifier, the upstream
  -- identifier and the vulnerable commit of the case.
  pub build_policy_seed-IsAbsent :
      (seed : Seed) (manifest : Manifest) (x : String) (text : Text)
      → build_policy_seed unicode hashes case ≡ some (seed, manifest)
      → IsSensitive unicode case x
      → normalised_scalar unicode x ≡ some text
      → (length text == 0) ≡ false
      → IsAbsent text (unicode.fold seed.case_id)
        × IsAbsent text (unicode.fold seed.upstream_id)
        × IsAbsent text (unicode.fold seed.vulnerable_commit)
  build_policy_seed-IsAbsent seed manifest x text h sensitive normal not_empty =
      let s = build_policy_seed-IsSeedOf seed manifest h in
      let (policy_id, sets, identified, found, hidden) =
        (no_oracle_scalar_smuggling-IsChecked unicode case).at tt s.guarded in
      let there = oracle_scalar_sets-member unicode case sets x found sensitive in
      let apart =
        map_all-any (normalised_scalar unicode)
          (is_leaked (unicode.fold policy_id ∷ hidden.emitted)) sets.1 hidden.sensitive x text
          hidden.sensitive_normal hidden.hidden there normal in
      let three = is_leaked_not (unicode.fold policy_id ∷ hidden.emitted) text apart not_empty in
      let texts =
        emitted_fold unicode case case.case_id case.repository.upstream_id
          case.repository.vulnerable_commit hidden.emitted hidden.emitted_normal in
      let each =
        ap (λ emitted. any (λ value. contains value text) (unicode.fold policy_id ∷ emitted))
          (sym texts)
        ∙ three in
      let same_id : policy_id ≡ seed.case_id = some-injective _ _ (sym identified ∙ s.identified) in
      let (a, b, c) = parts_of _ _ _ _ each in
      (
        ap (λ v. contains (unicode.fold v) text) (sym same_id) ∙ a,
        ap (λ v. contains (unicode.fold v) text) s.same_upstream ∙ b,
        ap (λ v. contains (unicode.fold v) text) s.same_commit ∙ c,
      )
