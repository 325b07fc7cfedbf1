-- ===== src/Egsi/Episode/Candidates.antt =====
-- The candidates of a compiled step pass the tests of the replay.
use iclr.Base.{
  ◌≡◌, refl, sym, ◌∙◌, ap, inl, inr, Bool, true, false, not, some, List, [], ◌∷◌, ◌++◌, map, any,
  All, length, ◌==◌, arith, Bool-cases, eq_refl,
}
use iclr.Base.Texts.{codes, codes_eq, take}
use iclr.Egsi.Candidates.Actions.{
  Action, ActionBase, Library, texts_eq, base_eq, action_eq, action_integrity,
}
use iclr.Egsi.Candidates.Compile.{mask_of}
use iclr.Egsi.Candidates.Frontier.{IsCandidate}
use iclr.Egsi.Candidates.RoundTrip.{codes_eq_refl, option_eq_refl}
use iclr.Egsi.Candidates.Steps.{Text, CanonicalPolicyStep, all_different, text_member}
use iclr.Egsi.Episode.Replay.{matches, is_one_legal}
use iclr.Egsi.Episode.Transitions.{masks_eq, actions_eq}
use iclr.Egsi.RepositoryPaths.{codes_eq-eq}

pub texts_eq_refl : (texts : List Text) → texts_eq texts texts ≡ true
texts_eq_refl [] = refl
texts_eq_refl (text ∷ texts) = rw (codes_eq_refl text) (texts_eq_refl texts)

base_eq_refl : (base : ActionBase) → base_eq base base ≡ true
unfolding base_eq
base_eq_refl base = rw (
  codes_eq_refl base.case_id,
  codes_eq_refl base.episode_id,
  codes_eq_refl base.branch_id,
  option_eq_refl base.obligation_id,
  eq_refl base.goal,
  eq_refl base.operation,
  eq_refl base.target.kind,
  codes_eq_refl base.target.id,
  option_eq_refl base.target.location,
  texts_eq_refl base.resolves_unknowns,
  eq_refl base.expected_evidence_type,
  eq_refl base.tool_class,
  codes_eq_refl base.step_id,
)

pub action_eq_refl : (a : Action) → action_eq a a ≡ true
unfolding action_eq
action_eq_refl a =
    rw (base_eq_refl a.base, codes_eq_refl a.action_id, codes_eq_refl a.idempotency_key)

pub actions_eq_refl : (actions : List Action) → actions_eq actions actions ≡ true
actions_eq_refl [] = refl
actions_eq_refl (a ∷ actions) = rw (action_eq_refl a) (actions_eq_refl actions)

pub masks_eq_refl : (mask : List Bool) → masks_eq mask mask ≡ true
masks_eq_refl [] = refl
masks_eq_refl (true ∷ mask) = masks_eq_refl mask
masks_eq_refl (false ∷ mask) = masks_eq_refl mask

-- `all(p(x) for x in xs)`, as the code writes it, from its instances.
pub any-not-false {ℓ} :
    {A : Type ℓ} (p : A → Bool) (xs : List A)
    → All (λ x. p x ≡ true) xs
    → any (λ x. not (p x)) xs ≡ false
any-not-false p [] h = refl
any-not-false p (x ∷ xs) (px, h) = rw px (any-not-false p xs h)

pub mask_of-any :
    (p : Action → Bool) (actions : List Action) (mask : List Bool) (b : Bool)
    → mask_of p actions mask ≡ some b
    → any p actions ≡ true
mask_of-any p [] mask b h = cc
mask_of-any p (a ∷ actions) [] b h = cc
mask_of-any p (a ∷ actions) (c ∷ mask) b h = ground (arith, mask_of-any p actions mask b)

-- A mask with no false entry says that every action is legal.
pub legal_of :
    (is_legal : Action → Bool) (actions : List Action) (mask : List Bool)
    → mask ≡ map is_legal actions
    → any not mask ≡ false
    → All (λ a. is_legal a ≡ true) actions
legal_of is_legal [] mask e h = tt
legal_of is_legal (a ∷ actions) [] e h = cc
legal_of is_legal (a ∷ actions) (b ∷ mask) e h =
    (ground arith, legal_of is_legal actions mask (ground arith) (ground arith))

abbrev pub identifiers : List Action → List Text
identifiers actions = map (λ a. a.action_id) actions

matches_nothing :
    (id : Text) (actions : List Action) (mask : List Bool)
    → text_member id (identifiers actions) ≡ false
    → matches id actions mask ≡ []
matches_nothing id [] mask h = refl
matches_nothing id (a ∷ actions) [] h = refl
matches_nothing id (a ∷ actions) (b ∷ mask) h =
    let apart : codes_eq a.action_id id ≡ false = ground arith in
    rw apart (matches_nothing id actions mask (ground arith))

-- An identifier that the actions have is that of one action, and it is legal.
pub matches-is_one_legal :
    (is_legal : Action → Bool) (id : Text) (actions : List Action)
    → all_different (identifiers actions) ≡ true
    → All (λ a. is_legal a ≡ true) actions
    → any (λ a. codes_eq a.action_id id) actions ≡ true
    → is_one_legal (matches id actions (map is_legal actions)) ≡ true
matches-is_one_legal is_legal id [] d l m = cc
matches-is_one_legal is_legal id (a ∷ actions) d (legal, l) m =
    elim (Bool-cases (codes_eq a.action_id id)) [
      | inl here ↦
          let same : a.action_id ≡ id = codes_eq-eq a.action_id id here in
          let alone : text_member id (identifiers actions) ≡ false =
            rw (← same) (ground (arith, d)) in
          rw (here, matches_nothing id actions (map is_legal actions) alone, legal)
      | inr later ↦
          rw later
            (matches-is_one_legal is_legal id actions (ground (arith, d)) l (ground (arith, later)))
    ]

module _ (lib : Library) (case_id episode_id branch_id : Text) (step : CanonicalPolicyStep)
    (named : not (length case_id == 0) ≡ true)
    (numbered : not (length step.step_id == 0) ≡ true) where
  -- A legal candidate of the step has the identity of its content.
  pub IsCandidate-action_integrity :
      (a : Action)
      → IsCandidate lib case_id episode_id branch_id step a
      → lib.is_legal a ≡ true
      → action_integrity lib a ≡ true
  unfolding action_integrity
  IsCandidate-action_integrity a c legal =
      let case_named : not (length a.base.case_id == 0) ≡ true = rw (c.same_case) named in
      let step_named : not (length a.base.step_id == 0) ≡ true = rw (c.same_step) numbered in
      let id : a.action_id ≡ codes "A-" ++ take 24 (lib.digest a.base) =
        ap (λ (x : Action). x.action_id) c.same_identity in
      let key : a.idempotency_key ≡ codes "sha256:" ++ lib.digest a.base =
        ap (λ (x : Action). x.idempotency_key) c.same_identity in
      let id_is : codes_eq a.action_id (codes "A-" ++ take 24 (lib.digest a.base)) ≡ true =
        ap (λ t. codes_eq a.action_id t) (sym id) ∙ codes_eq_refl a.action_id in
      let key_is : codes_eq a.idempotency_key (codes "sha256:" ++ lib.digest a.base) ≡ true =
        ap (λ t. codes_eq a.idempotency_key t) (sym key) ∙ codes_eq_refl a.idempotency_key in
      rw (legal, case_named, step_named, id_is, key_is)
