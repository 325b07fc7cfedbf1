-- ===== src/Egsi/Redaction/Artifacts.antt =====
-- No secret of a case or of its enrichment shows in an artifact without hits.
use mathlib.Core.Option.{some-injective}
use mathlib.Core.Path.{subst}
use iclr.Base.{
  String, ◌≡◌, refl, sym, ◌∙◌, ap, inl, inr, ◌⊎◌, Bool, true, false, ◌&&◌, ◌||◌, some, List, [],
  ◌∷◌, ◌++◌, map, any, member, member-append, select, length, leb, str_eq, eq_iff, ◌==◌, arith,
  Bool-cases,
}
use iclr.Base.Options.{>>=-eq-some}
use iclr.Base.Texts.{contains}
use iclr.Egsi.Candidates.Steps.{Text, text_member}
use iclr.Egsi.Contracts.Case.{CaseManifest}
use iclr.Egsi.Contracts.Enrichment.{EnrichmentRecord}
use iclr.Egsi.Redaction.Hidden.{
  IsSensitive, IsValueOf, map_all-any, scalars_of, all_scalar_strings-member,
  oracle_scalar_sets-member,
}
use iclr.Egsi.Redaction.Oracle.{
  Unicode, map_all, normalised_scalar, policy_case_id, oracle_scalar_sets,
}
use iclr.Egsi.Redaction.Values.{
  Secrets, is_hit, is_secret, place, allowed_texts, secrets_of, split_scalars, policy_value_hits,
}
use iclr.Json.{Json}

any-select :
    {A : Type 0} (p q : A → Bool) (xs : List A) → any q (select p xs) ≡ any (λ x. p x && q x) xs
any-select p q [] = refl
any-select p q (x ∷ xs) = elim (Bool-cases (p x)) [
  | inl h ↦ rw h (ap (λ b. q x || b) (any-select p q xs))
  | inr h ↦ rw h (any-select p q xs)
]

select_nothing :
    {A B : Type 0} (f : A → B) (p : A → Bool) (xs : List A)
    → map f (select p xs) ≡ []
    → any p xs ≡ false
select_nothing f p [] h = refl
select_nothing f p (x ∷ xs) h = elim (Bool-cases (p x)) [
  | inl e ↦ absurd (ground (arith, rw e at h))
  | inr e ↦ rw e (select_nothing f p xs (rw e at h))
]

place_here :
    (b : Bool) (z y : String) (parts : List String × List String)
    → b ≡ true
    → str_eq z y ≡ true
    → member y (place b z parts).1 ≡ true
place_here true z y parts h e = ground (arith, e)
place_here false z y parts h e = cc

place_later :
    (b : Bool) (z y : String) (parts : List String × List String)
    → member y parts.1 ≡ true
    → member y (place b z parts).1 ≡ true
place_later true z y parts h = ground (arith, h)
place_later false z y parts h = h

module _ (unicode : Unicode) where
  split_scalars-long :
      (scalars : List String) (parts : List String × List String) (y : String) (text : Text)
      → split_scalars unicode scalars ≡ some parts
      → member y scalars ≡ true
      → normalised_scalar unicode y ≡ some text
      → leb 8 (length text) ≡ true
      → member y parts.1 ≡ true
  unfolding split_scalars
  split_scalars-long [] parts y text h m e long = cc
  split_scalars-long (z ∷ scalars) parts y text h m e long =
      let (t, first, h1) = >>=-eq-some (normalised_scalar unicode z) _ h in
      let (rest, others, h2) = >>=-eq-some (split_scalars unicode scalars) _ h1 in
      elim (Bool-cases (str_eq z y)) [
        | inl here ↦
            let same : z ≡ y = (eq_iff z y).0 here in
            let texts : t ≡ text = cc (first, e, same) in
            let placed = some-injective _ parts h2 in
            ap (λ (x : List String × List String). member y x.1) (sym placed)
            ∙ place_here (leb 8 (length t)) z y rest (rw texts long) here
        | inr later ↦
            let more =
              split_scalars-long scalars rest y text others (ground (arith, later)) e long in
            ap (λ (x : List String × List String). member y x.1) (sym (some-injective _ parts h2))
            ∙ place_later (leb 8 (length t)) z y rest more
      ]

module _ (unicode : Unicode) (case : CaseManifest) (r : EnrichmentRecord)
    (payload_json : Json) where
  -- A secret: the identifiers of the case, a sensitive text, and a text of the payload whose normal
  -- form has eight characters or more.
  abbrev pub IsSecret : String → Text → Type 0
  IsSecret y text =
      (y ≡ case.case_id)
      ⊎ ((y ≡ r.case_id)
          ⊎ (IsSensitive unicode case y
              ⊎ (IsValueOf payload_json y × (leb 8 (length text) ≡ true))))

  secrets_parts :
      (s : Secrets)
      → secrets_of unicode case r payload_json ≡ some s
      → (sets : List String × List String) × (scalars : List String) × (parts : List String
          × List String)
        × (mapped : List Text) × (oracle_scalar_sets unicode case ≡ some sets)
        × (scalars_of payload_json ≡ some scalars)
        × (split_scalars unicode scalars ≡ some parts)
        × (map_all (normalised_scalar unicode) (case.case_id ∷ r.case_id ∷ sets.1 ++ parts.1)
            ≡ some mapped)
        × (s.substrings ≡ select (is_secret s.allowed) mapped)
  unfolding secrets_of
  secrets_parts s h =
      let (sets, e1, h1) = >>=-eq-some (oracle_scalar_sets unicode case) _ h in
      let (scalars, e2, h2) = >>=-eq-some (scalars_of payload_json) _ h1 in
      let (parts, e3, h3) = >>=-eq-some (split_scalars unicode scalars) _ h2 in
      let (policy_id, e4, h4) = >>=-eq-some (policy_case_id unicode case) _ h3 in
      let (allowed, e5, h5) =
        >>=-eq-some (map_all (normalised_scalar unicode) (allowed_texts case r.payload)) _ h4 in
      let (exact, e6, h6) =
        >>=-eq-some (map_all (normalised_scalar unicode) (sets.0 ++ parts.0)) _ h5 in
      let (mapped, e7, h7) =
        >>=-eq-some
          (map_all (normalised_scalar unicode) (case.case_id ∷ r.case_id ∷ sets.1 ++ parts.1)) _
          h6 in
      let same = some-injective _ s h7 in
      (
        sets,
        scalars,
        parts,
        mapped,
        e1,
        e2,
        e3,
        e7,
        subst (λ (x : Secrets). x.substrings ≡ select (is_secret x.allowed) mapped) same refl,
      )

  secrets-member :
      (sets parts : List String × List String) (scalars : List String) (y : String) (text : Text)
      → oracle_scalar_sets unicode case ≡ some sets
      → scalars_of payload_json ≡ some scalars
      → split_scalars unicode scalars ≡ some parts
      → normalised_scalar unicode y ≡ some text
      → IsSecret y text
      → member y (case.case_id ∷ r.case_id ∷ sets.1 ++ parts.1) ≡ true
  secrets-member sets parts scalars y text e1 e2 e3 normal (inl first) =
      ground (arith, eq_iff case.case_id y, first)
  secrets-member sets parts scalars y text e1 e2 e3 normal (inr (inl second)) =
      ground (arith, eq_iff r.case_id y, second)
  secrets-member sets parts scalars y text e1 e2 e3 normal (inr (inr (inl sensitive))) =
      let there = oracle_scalar_sets-member unicode case sets y e1 sensitive in
      ground (arith, member-append y sets.1 parts.1, there)
  secrets-member sets parts scalars y text e1 e2 e3 normal (inr (inr (inr (v, long)))) =
      let found = all_scalar_strings-member payload_json scalars y e2 v in
      let there = split_scalars-long unicode scalars parts y text e3 found normal long in
      ground (arith, member-append y sets.1 parts.1, there)

  no_hits :
      (s : Secrets) (value : Json)
      → secrets_of unicode case r payload_json ≡ some s
      → policy_value_hits unicode case r payload_json value ≡ some []
      → (scalars : List String) × (emitted : List Text) × (scalars_of value ≡ some scalars)
        × (map_all (normalised_scalar unicode) scalars ≡ some emitted)
        × (any (is_hit s) emitted ≡ false)
  unfolding policy_value_hits
  no_hits s value e h =
      let (s', e', h1) = >>=-eq-some (secrets_of unicode case r payload_json) _ h in
      let (scalars, e2, h2) = >>=-eq-some (scalars_of value) _ h1 in
      let (emitted, e3, h3) = >>=-eq-some (map_all (normalised_scalar unicode) scalars) _ h2 in
      let same : s' ≡ s = some-injective _ _ (sym e' ∙ e) in
      (
        scalars,
        emitted,
        e2,
        e3,
        subst (λ (x : Secrets). any (is_hit x) emitted ≡ false) same
            (select_nothing _ (is_hit s') emitted (some-injective _ _ h3)),
      )

  no_part :
      (s : Secrets) (emitted secret : Text)
      → is_hit s emitted ≡ false
      → text_member emitted s.allowed ≡ false
      → any (λ x. contains emitted x) s.substrings ≡ false
  no_part s emitted secret h e = ground (arith, h, e)

  secret_apart :
      (s : Secrets) (emitted secret : Text)
      → (is_secret s.allowed secret && contains emitted secret) ≡ false
      → (length secret == 0) ≡ false
      → text_member secret s.allowed ≡ false
      → contains emitted secret ≡ false
  secret_apart s emitted secret h e a = ground (arith, h, e, a)

  -- In an artifact of which `policy_value_hits` reports nothing, no text at any depth contains a
  -- secret in normal form: neither the identifier of the case, nor a sensitive text of the case (as
  -- `IsSensitive` lists them, those of the top-level extensions included), nor a text of the
  -- enrichment's payload of eight characters or more. Texts whose normal form is one of the
  -- allowed values may stand in the artifact, and are no secrets.
  pub policy_value_hits-contains :
      (s : Secrets) (value : Json) (x y : String) (emitted secret : Text)
      → secrets_of unicode case r payload_json ≡ some s
      → policy_value_hits unicode case r payload_json value ≡ some []
      → IsValueOf value x
      → normalised_scalar unicode x ≡ some emitted
      → text_member emitted s.allowed ≡ false
      → IsSecret y secret
      → normalised_scalar unicode y ≡ some secret
      → (length secret == 0) ≡ false
      → text_member secret s.allowed ≡ false
      → contains emitted secret ≡ false
  policy_value_hits-contains s value x y emitted secret e h v normal visible hidden normal'
        some_text not_allowed =
      let (sets, scalars, parts, mapped, e1, e2, e3, e4, same) = secrets_parts s e in
      let (texts, all_emitted, f1, f2, clean) = no_hits s value e h in
      let there = all_scalar_strings-member value texts x f1 v in
      let missed =
        map_all-any (normalised_scalar unicode) (is_hit s) texts all_emitted x emitted f2 clean
          there normal in
      let apart = no_part s emitted secret missed visible in
      let each =
        sym (any-select (is_secret s.allowed) (λ t. contains emitted t) mapped)
        ∙ ap (any (λ t. contains emitted t)) (sym same)
        ∙ apart in
      let listed = secrets-member sets parts scalars y secret e1 e2 e3 normal' hidden in
      secret_apart s emitted secret
        (map_all-any (normalised_scalar unicode) (λ t. is_secret s.allowed t && contains emitted t)
          (case.case_id ∷ r.case_id ∷ sets.1 ++ parts.1) mapped y secret e4 each listed normal')
        some_text not_allowed
