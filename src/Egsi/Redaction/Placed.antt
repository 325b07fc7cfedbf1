-- ===== src/Egsi/Redaction/Placed.antt =====
-- The texts of the top-level extensions that are sensitive, by the keys that they stand under.
use mathlib.Core.Path.{subst}
use iclr.Base.{
  String, ◌≡◌, refl, sym, ◌∙◌, ap, inl, inr, Bool, true, false, not, ◌&&◌, ◌||◌, Option, none, some,
  List, str_eq, eq_iff, member, ok, arith, Bool-cases, if◌then◌else◌,
}
use iclr.Egsi.Redaction.Collected.{occurs, occurs_in_items, occurs_in_fields}
use iclr.Egsi.Redaction.Exposed.{
  differs, counts, exposed, exposed_items, exposed_fields, top_extension_scalar_sets-member,
}
use iclr.Egsi.Redaction.Extensions.{
  ScanState, root, advisory_map, case_identity, revision_map, split_groups_map, dedup_map,
  exact_low, build_map, generic, vulnerable_identity, upstream_identity, Identities, child_state,
  top_extension_scalar_sets,
}
use iclr.Json.{Json, null, bool, int, float, str, arr, obj, Items, nil, cons, Fields, end, field}

-- The text is a value of the tree, at some depth.
abbrev has_value : String → Json → Bool
has_value x child = occurs (λ key. false) true x child

module _ (ids : Identities) where
  -- Whether a text under these two keys is sensitive. The case's identifier may stand as the `ghsa_id`
  -- or the `osv_id` of an advisory, its vulnerable commit as a parent of the revision's resolution, and
  -- its upstream identifier as the repository of the split groups; any text may stand as a project
  -- family and as the status of a build.
  abbrev sensitive_at : String → String → String → Bool
  sensitive_at key second x =
      if str_eq "advisory" key && (str_eq second "ghsa_id" || str_eq second "osv_id")
      then differs ids ids.case_id x
      else if str_eq "revision_resolution" key
          && (str_eq second "vulnerable_parent" || str_eq second "all_parents")
      then differs ids ids.vulnerable_commit x
      else if str_eq "split_groups" key && str_eq second "repository"
      then differs ids ids.upstream_id x
      else not (
          (str_eq "split_groups" key && str_eq second "project_family")
          || (str_eq "dedup" key && str_eq second "project_family")
          || (str_eq "build" key && str_eq second "status"))

  abbrev beneath_fields : String → String → Fields → Bool
  beneath_fields key x end = false
  beneath_fields key x (field second child fields) =
      (sensitive_at key second x && has_value x child) || beneath_fields key x fields

  -- The text stands in the value of a top-level key other than `aliases` and `status`, where it is
  -- sensitive. A value that is no object is sensitive in full.
  abbrev beneath : String → String → Json → Bool
  beneath key x (obj fields) = beneath_fields key x fields
  beneath key x child = has_value x child

  -- The text stands in the value of this top-level key, where it is sensitive: the identifier of the
  -- case may be an alias, and any text may stand as the status.
  abbrev under : String → String → Json → Bool
  under key x child =
      if str_eq "aliases" key
      then differs ids ids.case_id x && has_value x child
      else if str_eq "status" key
      then false
      else beneath key x child

  -- The text stands in the top-level extensions, where it is sensitive.
  abbrev pub placed : String → Fields → Bool
  placed x end = false
  placed x (field key child fields) = under key x child || placed x fields

  or_false : (a : Bool) → (a || false) ≡ a
  or_false a = ground arith

  and_or : (a b c : Bool) → ((a && b) || (a && c)) ≡ (a && (b || c))
  and_or a b c = ground arith

  module _ (state : ScanState) (x : String)
      (stays : (key : Option String) → child_state state key false ≡ state) where
    -- Where the state stays, a text counts at every depth or at none.
    mutual
      unfolding exposed exposed_items exposed_fields occurs occurs_in_items occurs_in_fields

      exposed-stays :
          (child : Json)
          → exposed ids state false x child ≡ (counts ids state x && has_value x child)
      exposed-stays (str text) = refl
      exposed-stays (arr items) = exposed_items-stays items
      exposed-stays (obj fields) = exposed_fields-stays fields
      exposed-stays null = ground arith
      exposed-stays (bool b) = ground arith
      exposed-stays (int n) = ground arith
      exposed-stays (float text) = ground arith

      exposed_items-stays :
          (items : Items)
          → exposed_items ids state false x items
            ≡ (counts ids state x && occurs_in_items (λ key. false) true x items)
      exposed_items-stays nil = ground arith
      exposed_items-stays (cons child items) =
          ap (λ b. b || exposed_items ids state false x items)
            (ap (λ st. exposed ids st false x child) (stays none) ∙ exposed-stays child)
          ∙ ap (λ b. (counts ids state x && has_value x child) || b) (exposed_items-stays items)
          ∙ and_or (counts ids state x) (has_value x child)
              (occurs_in_items (λ key. false) true x items)

      exposed_fields-stays :
          (fields : Fields)
          → exposed_fields ids state false x fields
            ≡ (counts ids state x && occurs_in_fields (λ key. false) true x fields)
      exposed_fields-stays end = ground arith
      exposed_fields-stays (field key child fields) =
          ap (λ b. b || exposed_fields ids state false x fields)
            (ap (λ st. exposed ids st false x child) (stays (some key)) ∙ exposed-stays child)
          ∙ ap (λ b. (counts ids state x && has_value x child) || b) (exposed_fields-stays fields)
          ∙ and_or (counts ids state x) (has_value x child)
              (occurs_in_fields (λ key. false) true x fields)

  at_generic : (x : String) (child : Json) → exposed ids generic false x child ≡ has_value x child
  unfolding child_state
  at_generic x child = exposed-stays generic x (λ key. refl) child

  at_case :
      (x : String) (child : Json)
      → exposed ids case_identity false x child ≡ (differs ids ids.case_id x && has_value x child)
  unfolding child_state
  at_case x child = exposed-stays case_identity x (λ key. refl) child

  at_commit :
      (x : String) (child : Json)
      → exposed ids vulnerable_identity false x child
        ≡ (differs ids ids.vulnerable_commit x && has_value x child)
  unfolding child_state
  at_commit x child = exposed-stays vulnerable_identity x (λ key. refl) child

  at_upstream :
      (x : String) (child : Json)
      → exposed ids upstream_identity false x child
        ≡ (differs ids ids.upstream_id x && has_value x child)
  unfolding child_state
  at_upstream x child = exposed-stays upstream_identity x (λ key. refl) child

  at_low : (x : String) (child : Json) → exposed ids exact_low false x child ≡ false
  unfolding child_state
  at_low x child = exposed-stays exact_low x (λ key. refl) child

  module _ (state : ScanState) (key x : String) (plain : counts ids state x ≡ true)
      (in_list : child_state state none false ≡ generic)
      (places : (second : String) (child : Json)
        → exposed ids (child_state state (some second) false) false x child
          ≡ (sensitive_at key second x && has_value x child)) where
    exposed_items-beneath :
        (items : Items)
        → exposed_items ids state false x items ≡ occurs_in_items (λ key. false) true x items
    unfolding exposed_items occurs_in_items
    exposed_items-beneath nil = refl
    exposed_items-beneath (cons child items) =
        ap (λ b. b || exposed_items ids state false x items)
          (ap (λ st. exposed ids st false x child) in_list ∙ at_generic x child)
        ∙ ap (λ b. has_value x child || b) (exposed_items-beneath items)

    exposed_fields-beneath :
        (fields : Fields) → exposed_fields ids state false x fields ≡ beneath_fields key x fields
    unfolding exposed_fields
    exposed_fields-beneath end = refl
    exposed_fields-beneath (field second child fields) =
        ap (λ b. b || exposed_fields ids state false x fields) (places second child)
        ∙ ap (λ b. (sensitive_at key second x && has_value x child) || b)
            (exposed_fields-beneath fields)

    exposed-beneath : (child : Json) → exposed ids state false x child ≡ beneath key x child
    unfolding exposed occurs
    exposed-beneath (str text) = ap (λ b. b && str_eq text x) plain
    exposed-beneath (arr items) = exposed_items-beneath items
    exposed-beneath (obj fields) = exposed_fields-beneath fields
    exposed-beneath null = refl
    exposed-beneath (bool b) = refl
    exposed-beneath (int n) = refl
    exposed-beneath (float text) = refl

  -- A place that is found by a test of the inner key.
  placed_if :
      (test sensitive : Bool) (place : ScanState) (x : String) (child : Json)
      → exposed ids place false x child ≡ (sensitive && has_value x child)
      → exposed ids (if test then place else generic) false x child
        ≡ ((if test then sensitive else true) && has_value x child)
  placed_if true sensitive place x child h = h
  placed_if false sensitive place x child h = at_generic x child

  advisory_place :
      (x second : String) (child : Json)
      → exposed ids (child_state advisory_map (some second) false) false x child
        ≡ (sensitive_at "advisory" second x && has_value x child)
  unfolding child_state
  advisory_place x second child =
      placed_if (str_eq second "ghsa_id" || str_eq second "osv_id") _ case_identity x child
        (at_case x child)

  revision_place :
      (x second : String) (child : Json)
      → exposed ids (child_state revision_map (some second) false) false x child
        ≡ (sensitive_at "revision_resolution" second x && has_value x child)
  unfolding child_state
  revision_place x second child =
      placed_if (str_eq second "vulnerable_parent" || str_eq second "all_parents") _
        vulnerable_identity x child (at_commit x child)

  low_if :
      (test : Bool) (x : String) (child : Json)
      → exposed ids (if test then exact_low else generic) false x child
        ≡ (not (test || false) && has_value x child)
  low_if true x child = at_low x child
  low_if false x child = at_generic x child

  low_if_two :
      (test : Bool) (x : String) (child : Json)
      → exposed ids (if test then exact_low else generic) false x child
        ≡ (not (test || false || false) && has_value x child)
  low_if_two true x child = at_low x child
  low_if_two false x child = at_generic x child

  split_groups_place :
      (x second : String) (child : Json)
      → exposed ids (child_state split_groups_map (some second) false) false x child
        ≡ (sensitive_at "split_groups" second x && has_value x child)
  unfolding child_state
  split_groups_place x second child = elim (Bool-cases (str_eq second "repository")) [
    | inl here ↦ rw here (at_upstream x child)
    | inr other ↦ rw other (low_if_two (str_eq second "project_family") x child)
  ]

  dedup_place :
      (x second : String) (child : Json)
      → exposed ids (child_state dedup_map (some second) false) false x child
        ≡ (sensitive_at "dedup" second x && has_value x child)
  unfolding child_state
  dedup_place x second child = low_if (str_eq second "project_family") x child

  build_place :
      (x second : String) (child : Json)
      → exposed ids (child_state build_map (some second) false) false x child
        ≡ (sensitive_at "build" second x && has_value x child)
  unfolding child_state
  build_place x second child =
      low_if (str_eq second "status") x child
      ∙ ap (λ b. not b && has_value x child) (or_false (str_eq second "status"))

  -- What is found under a top-level key.
  abbrev Found : String → Json → String → Type 0
  Found x child key =
      exposed ids (child_state root (some key) true) false x child ≡ under key x child

  module _ (x : String) (child : Json) where
    Found-at_key :
        (literal key : String)
        → str_eq literal key ≡ true
        → Found x child literal
        → Found x child key
    Found-at_key literal key h f = subst (Found x child) ((eq_iff literal key).0 h) f

    unplaced :
        (key : String)
        → str_eq "advisory" key ≡ false
        → str_eq "revision_resolution" key ≡ false
        → str_eq "split_groups" key ≡ false
        → str_eq "dedup" key ≡ false
        → str_eq "build" key ≡ false
        → exposed ids generic false x child ≡ beneath key x child
    unfolding child_state
    unplaced key a r g d b =
        exposed-beneath generic key x refl refl
          (λ second inner.
            at_generic x inner
            ∙ ap (λ t. t && has_value x inner)
                (sym (
                  let plain : sensitive_at key second x ≡ true = rw (a, r, g, d, b) refl in plain)))
          child

    exposed-under : (key : String) → Found x child key
    unfolding child_state
    exposed-under key = elim (Bool-cases (str_eq "advisory" key)) [
      | inl h ↦
          Found-at_key "advisory" key h
            (exposed-beneath advisory_map "advisory" x refl refl (advisory_place x) child)
      | inr a ↦ elim (Bool-cases (str_eq "aliases" key)) [
        | inl h ↦ Found-at_key "aliases" key h (at_case x child)
        | inr l ↦ elim (Bool-cases (str_eq "revision_resolution" key)) [
          | inl h ↦ Found-at_key "revision_resolution" key h (
              exposed-beneath revision_map "revision_resolution" x refl refl (revision_place x)
                child)
          | inr r ↦ elim (Bool-cases (str_eq "split_groups" key)) [
            | inl h ↦ Found-at_key "split_groups" key h (
                exposed-beneath split_groups_map "split_groups" x refl refl (split_groups_place x)
                  child)
            | inr g ↦ elim (Bool-cases (str_eq "dedup" key)) [
              | inl h ↦
                  Found-at_key "dedup" key h
                    (exposed-beneath dedup_map "dedup" x refl refl (dedup_place x) child)
              | inr d ↦ elim (Bool-cases (str_eq "status" key)) [
                | inl h ↦ Found-at_key "status" key h (at_low x child)
                | inr s ↦ elim (Bool-cases (str_eq "build" key)) [
                  | inl h ↦
                      Found-at_key "build" key h
                        (exposed-beneath build_map "build" x refl refl (build_place x) child)
                  | inr b ↦ rw (a, l, r, g, d, s, b) (unplaced key a r g d b)
                ]
              ]
            ]
          ]
        ]
      ]
    ]

  exposed_fields-placed :
      (x : String) (extra : Fields) → exposed_fields ids root true x extra ≡ placed x extra
  unfolding exposed_fields
  exposed_fields-placed x end = refl
  exposed_fields-placed x (field key child fields) =
      ap (λ b. b || exposed_fields ids root true x fields) (exposed-under x child key)
      ∙ ap (λ b. under key x child || b) (exposed_fields-placed x fields)

  -- The substring-sensitive texts of the top-level extensions are exactly those that are placed so.
  pub top_extension_scalar_sets-placed :
      (extra : Fields) (sets : List String × List String) (x : String)
      → top_extension_scalar_sets ids extra ≡ ok sets
      → member x sets.1 ≡ placed x extra
  unfolding exposed
  top_extension_scalar_sets-placed extra sets x h =
      top_extension_scalar_sets-member ids extra sets x h ∙ exposed_fields-placed x extra
