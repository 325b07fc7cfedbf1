-- ===== src/Egsi/Redaction/Hidden.antt =====
-- What the policy seed and the policy artifacts do not show.
use mathlib.Core.Option.{some-injective}
use mathlib.Core.Path.{subst}
use iclr.Base.{
  Result, ok, err, ℕ, zero, suc, String, ◌≡◌, sym, ◌∙◌, ap, ◌⊎◌, inl, inr, Bool, true, false, not,
  ◌||◌, Option, some, List, [], ◌∷◌, ◌++◌, any, member, member-append, get_elem?, str_eq, eq_iff,
  arith, Bool-cases,
}
use iclr.Base.Options.{>>=-eq-some, Ensures, ensures_rules}
use iclr.Base.Texts.{codes, utf8_length}
use iclr.Egsi.Candidates.Steps.{Text}
use iclr.Egsi.Contracts.Case.{CaseManifest}
use iclr.Egsi.Redaction.Collected.{occurs, traverse-member}
use iclr.Egsi.Redaction.Extensions.{Identities, top_extension_scalar_sets}
use iclr.Egsi.Redaction.Oracle.{
  Unicode, to_option, map_all, normalised_scalar, policy_case_id, identities, sensitive_fields,
  oracle_sources, concat, oracle_scalar_sets, emitted_texts, is_leaked, no_oracle_scalar_smuggling,
  compare_scalars,
}
use iclr.Egsi.Redaction.Placed.{placed, top_extension_scalar_sets-placed}
use iclr.Egsi.Redaction.Traversal.{all_scalar_strings, max_nodes}
use iclr.Json.{Json}

-- The text is a value of the tree, at some depth.
abbrev pub IsValueOf : Json → String → Type 0
IsValueOf source x = occurs (λ key. false) true x source ≡ true

pub to_option-ok : {E A : Type 0} (r : Result E A) (a : A) → to_option r ≡ some a → r ≡ ok a
to_option-ok (ok b) a h = ap ok (some-injective b a h)
to_option-ok (err e) a h = cc

pub all_scalar_strings-member :
    (source : Json) (out : List String) (x : String)
    → to_option (all_scalar_strings source) ≡ some out
    → IsValueOf source x
    → member x out ≡ true
unfolding all_scalar_strings
all_scalar_strings-member source out x h v =
    let found =
      traverse-member (λ key. false) true (suc max_nodes) 1 ((source, 0) ∷ []) [] out x
        (to_option-ok _ out h) in
    found ∙ rw v

pub map_all-cons :
    {A B : Type 0} (f : A → Option B) (x : A) (xs : List A) (ys : List B)
    → map_all f (x ∷ xs) ≡ some ys
    → (y : B) × (rest : List B) × (f x ≡ some y) × (map_all f xs ≡ some rest) × ((y ∷ rest) ≡ ys)
unfolding map_all
map_all-cons f x xs ys h =
    let (y, first, h1) = >>=-eq-some (f x) _ h in
    let (rest, others, h2) = >>=-eq-some (map_all f xs) _ h1 in
    (y, rest, first, others, some-injective _ _ h2)

-- A predicate that holds of no mapped value does not hold of the value of a member.
pub map_all-any :
    {B : Type 0} (f : String → Option B) (p : B → Bool) (xs : List String) (ys : List B)
    (x : String) (y : B)
    → map_all f xs ≡ some ys
    → any p ys ≡ false
    → member x xs ≡ true
    → f x ≡ some y
    → p y ≡ false
unfolding map_all
map_all-any f p [] ys x y h none_of m e = cc
map_all-any f p (z ∷ xs) ys x y h none_of m e =
    let (w, ws, first, others, same) = map_all-cons f z xs ys h in
    let split : (p w || any p ws) ≡ false = ap (any p) same ∙ none_of in
    elim (Bool-cases (str_eq z x)) [
      | inl here ↦
          let z_is_x : z ≡ x = (eq_iff z x).0 here in
          let w_is_y : w ≡ y = cc (first, e, z_is_x) in rw (← w_is_y) (ground (arith, split))
      | inr later ↦
          map_all-any f p xs ws x y others (ground (arith, split)) (ground (arith, later)) e
    ]

pub not-false : (b : Bool) → not b ≡ true → b ≡ false
not-false b h = ground arith

module _ (unicode : Unicode) (case : CaseManifest) where
  -- No sensitive text is a part of what is emitted.
  pub record IsHidden (policy_id : Text) (sets : List String × List String) : Type 0 where
    pub emitted : List Text
    pub emitted_normal : map_all (normalised_scalar unicode) (emitted_texts case) ≡ some emitted
    pub sensitive : List Text
    pub sensitive_normal : map_all (normalised_scalar unicode) sets.1 ≡ some sensitive
    pub hidden : any (is_leaked (unicode.fold policy_id ∷ emitted)) sensitive ≡ false

  hides :
      (policy_id : Text) (sets : List String × List String) (emitted sensitive : List Text)
      → map_all (normalised_scalar unicode) (emitted_texts case) ≡ some emitted
      → map_all (normalised_scalar unicode) sets.1 ≡ some sensitive
      → not (any (is_leaked (unicode.fold policy_id ∷ emitted)) sensitive) ≡ true
      → IsHidden policy_id sets
  hides policy_id sets emitted sensitive e s h = record {
    emitted = emitted;
    emitted_normal = e;
    sensitive = sensitive;
    sensitive_normal = s;
    hidden = not-false _ h;
  }

  compare_scalars-IsHidden :
      (policy_id : Text) (sets : List String × List String)
      → Ensures (λ done. IsHidden policy_id sets) (compare_scalars unicode policy_id case sets)
  unfolding compare_scalars
  compare_scalars-IsHidden policy_id sets = search (ensures_rules, hides) depth 14

  abbrev pub IsChecked : Unit {0} → Type 0
  IsChecked done =
      (policy_id : Text) × (sets : List String × List String) × (policy_case_id unicode case
        ≡ some policy_id)
      × (oracle_scalar_sets unicode case ≡ some sets)
      × IsHidden policy_id sets

  checked :
      (policy_id : Text) (sets : List String × List String)
      → policy_case_id unicode case ≡ some policy_id
      → oracle_scalar_sets unicode case ≡ some sets
      → Ensures IsChecked (compare_scalars unicode policy_id case sets)
  checked policy_id sets e s = record {
    at = λ done h. (policy_id, sets, e, s, (compare_scalars-IsHidden policy_id sets).at done h);
  }

  pub no_oracle_scalar_smuggling-IsChecked :
      Ensures IsChecked (no_oracle_scalar_smuggling unicode case)
  unfolding no_oracle_scalar_smuggling
  no_oracle_scalar_smuggling-IsChecked = search (ensures_rules, checked) depth 14

-- A sensitive text: a field that is sensitive as it stands, a value at any depth of the test paths,
-- the affected locations, or the extensions of the artifacts, the views and the repository, or a text
-- of the top-level extensions that `placed` finds in a place where it is sensitive.
abbrev pub IsSensitive : Unicode → CaseManifest → String → Type 0
IsSensitive unicode case x =
    (member x (sensitive_fields case) ≡ true)
    ⊎ (((index : ℕ) × (source : Json) × (get_elem? (oracle_sources case) index ≡ some source)
          × IsValueOf source x)
        ⊎ ((ids : Identities) × (identities unicode case ≡ some ids)
            × (placed ids x case.extra ≡ true)))

abbrev pub scalars_of : Json → Option (List String)
scalars_of source = to_option (all_scalar_strings source)

concat-member :
    (sources : List Json) (scalars : List (List String)) (index : ℕ) (source : Json) (x : String)
    → map_all scalars_of sources ≡ some scalars
    → get_elem? sources index ≡ some source
    → IsValueOf source x
    → member x (concat scalars) ≡ true
concat-member [] scalars index source x h there v = cc
concat-member (first ∷ sources) scalars zero source x h there v =
    let (found, rest, e, e', same) = map_all-cons scalars_of first sources scalars h in
    let first_is : first ≡ source = ground arith in
    let here = all_scalar_strings-member first found x e (rw first_is v) in
    subst (λ (xss : List (List String)). member x (concat xss) ≡ true) same
      (member-append x found (concat rest) ∙ ground (arith, here))
concat-member (first ∷ sources) scalars (suc index) source x h there v =
    let (found, rest, e, e', same) = map_all-cons scalars_of first sources scalars h in
    let later = concat-member sources rest index source x e' there v in
    subst (λ (xss : List (List String)). member x (concat xss) ≡ true) same
      (member-append x found (concat rest) ∙ ground (arith, later))

module _ (unicode : Unicode) (case : CaseManifest) where
  oracle_scalar_sets-substrings :
      (sets : List String × List String)
      → oracle_scalar_sets unicode case ≡ some sets
      → (scalars : List (List String)) × (ids : Identities) × (top : List String × List String)
        × (map_all scalars_of (oracle_sources case) ≡ some scalars)
        × (identities unicode case ≡ some ids)
        × (top_extension_scalar_sets ids case.extra ≡ ok top)
        × (sets.1 ≡ sensitive_fields case ++ concat scalars ++ top.1)
  unfolding oracle_scalar_sets
  oracle_scalar_sets-substrings sets h =
      let (scalars, first, h1) = >>=-eq-some (map_all scalars_of (oracle_sources case)) _ h in
      let (ids, second, h2) = >>=-eq-some (identities unicode case) _ h1 in
      let (top, third, h3) =
        >>=-eq-some (to_option (top_extension_scalar_sets ids case.extra)) _ h2 in
      (
        scalars,
        ids,
        top,
        first,
        second,
        to_option-ok _ top third,
        ap (λ s. s.1) (sym (some-injective _ sets h3)),
      )

  pub oracle_scalar_sets-member :
      (sets : List String × List String) (x : String)
      → oracle_scalar_sets unicode case ≡ some sets
      → IsSensitive unicode case x
      → member x sets.1 ≡ true
  oracle_scalar_sets-member sets x h sensitive =
      let (scalars, ids, top, found, identified, scanned, same) =
        oracle_scalar_sets-substrings sets h in
      let parts =
        member-append x (sensitive_fields case ++ concat scalars) top.1
        ∙ ap (λ b. b || member x top.1)
            (member-append x (sensitive_fields case) (concat scalars)) in
      let within : ((member x (sensitive_fields case) || member x (concat scalars))
            || member x top.1)
          ≡ true =
        elim sensitive [
          | inl field ↦ ground (arith, field)
          | inr (inl (index, source, there, v)) ↦
              ground
                (arith, concat-member (oracle_sources case) scalars index source x found there v)
          | inr (inr (same_ids, e, place)) ↦
              let one : same_ids ≡ ids = some-injective _ _ (sym e ∙ identified) in
              let at_ids = subst (λ (i : Identities). placed i x case.extra ≡ true) one place in
              let top_one =
                top_extension_scalar_sets-placed ids case.extra top x scanned ∙ at_ids in
              ground (arith, top_one)
        ] in
      ap (member x) same ∙ parts ∙ within

  pub normalised_scalar-fold :
      (value : String) (text : Text)
      → normalised_scalar unicode value ≡ some text
      → text ≡ unicode.fold (codes value)
  unfolding normalised_scalar
  normalised_scalar-fold value text h =
      let (n, _, e) = >>=-eq-some (utf8_length (codes value)) _ h in sym (some-injective _ _ e)

  -- The three texts in normal form.
  pub emitted_fold :
      (a b c : String) (emitted : List Text)
      → map_all (normalised_scalar unicode) (a ∷ b ∷ c ∷ []) ≡ some emitted
      → emitted ≡ unicode.fold (codes a) ∷ unicode.fold (codes b) ∷ unicode.fold (codes c) ∷ []
  unfolding map_all
  emitted_fold a b c emitted h =
      let f = normalised_scalar unicode in
      let (x, xs, ex, hx, sx) = map_all-cons f a (b ∷ c ∷ []) emitted h in
      let (y, ys, ey, hy, sy) = map_all-cons f b (c ∷ []) xs hx in
      let (z, zs, ez, hz, sz) = map_all-cons f c [] ys hy in
      let done : [] ≡ zs = some-injective _ _ hz in
      cc (
        sx,
        sy,
        sz,
        done,
        normalised_scalar-fold a x ex,
        normalised_scalar-fold b y ey,
        normalised_scalar-fold c z ez,
      )
