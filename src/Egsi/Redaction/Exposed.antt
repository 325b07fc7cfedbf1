-- ===== src/Egsi/Redaction/Exposed.antt =====
-- Which texts of the top-level extensions of a case the scan takes for sensitive.
use iclr.Base.{
  Result, ok, err, ◌>>=◌, ℕ, zero, suc, String, ◌≡◌, refl, sym, ◌∙◌, ap, inl, inr, Bool, true,
  false, not, ◌&&◌, ◌||◌, none, some, List, [], ◌∷◌, member, str_eq, eq_iff, ltb, arith, Bool-cases,
  Result-cases, Option-cases,
}
use iclr.Base.Texts.{codes_eq}
use iclr.Egsi.Redaction.Extensions.{
  ScanState, root, advisory_map, case_identity, revision_map, split_groups_map, dedup_map,
  exact_low, build_map, generic, vulnerable_identity, upstream_identity, child_state, Scan, Failure,
  count_node, Identities, unless_same, classify_scalar, schedule, scan_child, scan_fields,
  scan_items, scan_value, scan_popped, scan, top_extension_scalar_sets,
}
use iclr.Egsi.Redaction.Traversal.{max_depth, max_nodes}
use iclr.Json.{Json, null, bool, int, float, str, arr, obj, Items, nil, cons, Fields, end, field}

or_false : (a : Bool) → a ≡ (a || false)
or_false a = ground arith

or_or : (a b c : Bool) → ((a || b) || c) ≡ (a || (b || c))
or_or a b c = ground arith

module _ (ids : Identities) where
  -- The normal form of the text is not this identity.
  abbrev pub differs : List ℕ → String → Bool
  differs identity value = elim (ids.normalised value) [
    | none ↦ true
    | some text ↦ not (codes_eq text identity)
  ]

  -- A text is sensitive in its place: not an identity where that may stand, and not of low value.
  abbrev pub counts : ScanState → String → Bool
  counts case_identity value = differs ids.case_id value
  counts vulnerable_identity value = differs ids.vulnerable_commit value
  counts upstream_identity value = differs ids.upstream_id value
  counts exact_low value = false
  counts root value = true
  counts advisory_map value = true
  counts revision_map value = true
  counts split_groups_map value = true
  counts dedup_map value = true
  counts build_map value = true
  counts generic value = true

  -- A text stands in the tree, at some depth, where it is sensitive.
  unfoldable mutual
    pub exposed : ScanState → Bool → String → Json → Bool
    exposed state is_root x (str text) = counts state x && str_eq text x
    exposed state is_root x (arr items) = exposed_items state is_root x items
    exposed state is_root x (obj fields) = exposed_fields state is_root x fields
    exposed state is_root x null = false
    exposed state is_root x (bool b) = false
    exposed state is_root x (int n) = false
    exposed state is_root x (float text) = false

    pub exposed_items : ScanState → Bool → String → Items → Bool
    exposed_items state is_root x nil = false
    exposed_items state is_root x (cons child items) =
        exposed (child_state state none is_root) false x child
        || exposed_items state is_root x items

    pub exposed_fields : ScanState → Bool → String → Fields → Bool
    exposed_fields state is_root x end = false
    exposed_fields state is_root x (field key child fields) =
        exposed (child_state state (some key) is_root) false x child
        || exposed_fields state is_root x fields

  abbrev exposed_pending : String → List (Json × ScanState × ℕ × Bool) → Bool
  exposed_pending x [] = false
  exposed_pending x ((value, state, depth, is_root) ∷ pending) =
      exposed state is_root x value || exposed_pending x pending

  -- What is found, or will be.
  abbrev reach : String → Scan → Bool
  reach x s = member x s.substring_sensitive || exposed_pending x s.pending

  counts_same :
      (state : ScanState) (value x : String)
      → (counts state value && str_eq value x) ≡ (counts state x && str_eq value x)
  counts_same state value x = elim (Bool-cases (str_eq value x)) [
    | inl h ↦ ap (λ v. counts state v && str_eq value x) ((eq_iff value x).0 h)
    | inr h ↦ ground (arith, h)
  ]

  reach-unless_same :
      (identity : List ℕ) (value x : String) (s w : Scan)
      → unless_same ids identity value s ≡ ok w
      → reach x w ≡ (reach x s || (differs identity value && str_eq value x))
  reach-unless_same identity value x s w h = elim (Option-cases (ids.normalised value)) [
    | inl e ↦ absurd (ground (arith, e))
    | inr (text, e) ↦ ground (arith, e)
  ]

  reach-classify_scalar :
      (value x : String) (state : ScanState) (s w : Scan)
      → classify_scalar ids value state s ≡ ok w
      → reach x w ≡ (reach x s || (counts state value && str_eq value x))
  unfolding classify_scalar
  reach-classify_scalar value x case_identity s w h = reach-unless_same ids.case_id value x s w h
  reach-classify_scalar value x vulnerable_identity s w h =
      reach-unless_same ids.vulnerable_commit value x s w h
  reach-classify_scalar value x upstream_identity s w h =
      reach-unless_same ids.upstream_id value x s w h
  reach-classify_scalar value x exact_low s w h = ground arith
  reach-classify_scalar value x root s w h = ground arith
  reach-classify_scalar value x advisory_map s w h = ground arith
  reach-classify_scalar value x revision_map s w h = ground arith
  reach-classify_scalar value x split_groups_map s w h = ground arith
  reach-classify_scalar value x dedup_map s w h = ground arith
  reach-classify_scalar value x build_map s w h = ground arith
  reach-classify_scalar value x generic s w h = ground arith

  reach-text :
      (text x : String) (state : ScanState) (is_root : Bool) (s w : Scan)
      → classify_scalar ids text state s ≡ ok w
      → reach x w ≡ (reach x s || exposed state is_root x (str text))
  unfolding exposed
  reach-text text x state is_root s w h =
      reach-classify_scalar text x state s w h ∙ ap (λ b. reach x s || b) (counts_same state text x)

  reach-count_node : (x : String) (s w : Scan) → count_node s ≡ ok w → reach x w ≡ reach x s
  unfolding count_node
  reach-count_node x s w h = ground arith

  -- A child that is counted, and then classified or scheduled.
  reach-counted :
      (x : String) (s w : Scan) (f : Scan → Result Failure Scan) (b : Bool)
      → ((u v : Scan) → f u ≡ ok v → reach x v ≡ (reach x u || b))
      → (count_node s >>= f) ≡ ok w
      → reach x w ≡ (reach x s || b)
  reach-counted x s w f b step h = elim (Result-cases (count_node s)) [
    | inl (e, failed) ↦ absurd (ground (arith, failed))
    | inr (u, counted) ↦
        let ran : f u ≡ ok w = rw counted at h in
        step u w ran ∙ ap (λ r. r || b) (reach-count_node x s u counted)
  ]

  reach-schedule :
      (x : String) (child : Json) (state : ScanState) (depth : ℕ) (u v : Scan)
      → schedule ids child state depth u ≡ ok v
      → reach x v ≡ (reach x u || exposed state false x child)
  reach-schedule x child state depth u v h = ground arith

  nothing_found : (x : String) (s w : Scan) → count_node s ≡ ok w → reach x w ≡ (reach x s || false)
  nothing_found x s w h = reach-count_node x s w h ∙ or_false (reach x s)

  reach-scan_child :
      (x : String) (child : Json) (state : ScanState) (depth : ℕ) (s w : Scan)
      → scan_child ids child state depth s ≡ ok w
      → reach x w ≡ (reach x s || exposed state false x child)
  unfolding scan_child exposed
  reach-scan_child x (str text) state depth s w h =
      reach-counted x s w (classify_scalar ids text state) (exposed state false x (str text))
        (λ u v. reach-text text x state false u v) h
  reach-scan_child x (arr items) state depth s w h =
      reach-counted x s w (schedule ids (arr items) state depth) (exposed state false x (arr items))
        (λ u v. reach-schedule x (arr items) state depth u v) h
  reach-scan_child x (obj fields) state depth s w h =
      reach-counted x s w (schedule ids (obj fields) state depth)
        (exposed state false x (obj fields)) (λ u v. reach-schedule x (obj fields) state depth u v)
        h
  reach-scan_child x null state depth s w h = nothing_found x s w h
  reach-scan_child x (bool b) state depth s w h = nothing_found x s w h
  reach-scan_child x (int n) state depth s w h = nothing_found x s w h
  reach-scan_child x (float text) state depth s w h = nothing_found x s w h

  -- A step and the rest of a loop.
  reach-then :
      (x : String) (r : Result Failure Scan) (f : Scan → Result Failure Scan) (s w : Scan)
      (a b : Bool)
      → ((u : Scan) → r ≡ ok u → reach x u ≡ (reach x s || a))
      → ((u : Scan) → f u ≡ ok w → reach x w ≡ (reach x u || b))
      → (r >>= f) ≡ ok w
      → reach x w ≡ (reach x s || (a || b))
  reach-then x (err e) f s w a b first rest h = absurd (ground arith)
  reach-then x (ok u) f s w a b first rest h =
      rest u h ∙ ap (λ r. r || b) (first u refl) ∙ or_or (reach x s) a b

  reach-scan_fields :
      (x : String) (state : ScanState) (is_root : Bool) (depth : ℕ) (fields : Fields) (s w : Scan)
      → scan_fields ids state is_root depth fields s ≡ ok w
      → reach x w ≡ (reach x s || exposed_fields state is_root x fields)
  unfolding scan_fields exposed_fields
  reach-scan_fields x state is_root depth end s w h = ground arith
  reach-scan_fields x state is_root depth (field key child fields) s w h =
      reach-then x (scan_child ids child (child_state state (some key) is_root) depth s)
        (scan_fields ids state is_root depth fields) s w
        (exposed (child_state state (some key) is_root) false x child)
        (exposed_fields state is_root x fields)
        (λ u e. reach-scan_child x child (child_state state (some key) is_root) depth s u e)
        (λ u e. reach-scan_fields x state is_root depth fields u w e) h

  reach-scan_items :
      (x : String) (state : ScanState) (is_root : Bool) (depth : ℕ) (items : Items) (s w : Scan)
      → scan_items ids state is_root depth items s ≡ ok w
      → reach x w ≡ (reach x s || exposed_items state is_root x items)
  unfolding scan_items exposed_items
  reach-scan_items x state is_root depth nil s w h = ground arith
  reach-scan_items x state is_root depth (cons child items) s w h =
      reach-then x (scan_child ids child (child_state state none is_root) depth s)
        (scan_items ids state is_root depth items) s w
        (exposed (child_state state none is_root) false x child)
        (exposed_items state is_root x items)
        (λ u e. reach-scan_child x child (child_state state none is_root) depth s u e)
        (λ u e. reach-scan_items x state is_root depth items u w e) h

  reach-scan_value :
      (x : String) (value : Json) (state : ScanState) (depth : ℕ) (is_root : Bool) (s w : Scan)
      → scan_value ids value state depth is_root s ≡ ok w
      → reach x w ≡ (reach x s || exposed state is_root x value)
  unfolding scan_value exposed
  reach-scan_value x (str text) state depth is_root s w h = reach-text text x state is_root s w h
  reach-scan_value x (arr items) state depth is_root s w h =
      reach-scan_items x state is_root (suc depth) items s w h
  reach-scan_value x (obj fields) state depth is_root s w h =
      reach-scan_fields x state is_root (suc depth) fields s w h
  reach-scan_value x null state depth is_root s w h = ground arith
  reach-scan_value x (bool b) state depth is_root s w h = ground arith
  reach-scan_value x (int n) state depth is_root s w h = ground arith
  reach-scan_value x (float text) state depth is_root s w h = ground arith

  reach-scan_popped :
      (x : String) (value : Json) (state : ScanState) (depth : ℕ) (is_root : Bool) (s w : Scan)
      → scan_popped ids value state depth is_root s ≡ ok w
      → reach x w ≡ (reach x s || exposed state is_root x value)
  reach-scan_popped x value state depth is_root s w h = elim (Bool-cases (ltb max_depth depth)) [
    | inl deep ↦ absurd (ground (arith, deep))
    | inr within ↦
        reach-counted x s w (scan_value ids value state depth is_root)
          (exposed state is_root x value) (λ u v. reach-scan_value x value state depth is_root u v)
          (rw within at h)
  ]

  pop : (a b c : Bool) → ((a || c) || b) ≡ (a || (b || c))
  pop a b c = ground arith

  reach-scan :
      (fuel processed : ℕ) (pending : List (Json × ScanState × ℕ × Bool))
      (exact found : List String) (w : Scan) (x : String)
      → scan ids fuel (record {
        pending = pending;
        processed = processed;
        exact_only = exact;
        substring_sensitive = found;
      })
        ≡ ok w
      → member x w.substring_sensitive ≡ (member x found || exposed_pending x pending)
  unfolding scan
  reach-scan zero processed pending exact found w x h = absurd (ground arith)
  reach-scan (suc fuel) processed [] exact found w x h = ground arith
  reach-scan (suc fuel) processed ((value, state, depth, is_root) ∷ pending) exact found w x h =
      let s : Scan = record {
        pending = pending;
        processed = processed;
        exact_only = exact;
        substring_sensitive = found;
      } in
      elim (Result-cases (scan_popped ids value state depth is_root s)) [
        | inl (e, failed) ↦ absurd (ground (arith, failed))
        | inr (u, popped) ↦
            let ran : scan ids fuel u ≡ ok w = rw (popped, scan) at h in
            reach-scan fuel u.processed u.pending u.exact_only u.substring_sensitive w x ran
            ∙ reach-scan_popped x value state depth is_root s u popped
            ∙ pop (member x found) (exposed state is_root x value) (exposed_pending x pending)
      ]

  abbrev first_scan : Fields → Scan
  first_scan extra = record {
    pending = (obj extra, root, 0, true) ∷ [];
    processed = 0;
    exact_only = [];
    substring_sensitive = [];
  }

  -- The scan finds exactly the texts that stand where they are sensitive.
  pub top_extension_scalar_sets-member :
      (extra : Fields) (sets : List String × List String) (x : String)
      → top_extension_scalar_sets ids extra ≡ ok sets
      → member x sets.1 ≡ exposed root true x (obj extra)
  unfolding top_extension_scalar_sets
  top_extension_scalar_sets-member extra sets x h =
      elim (Result-cases (scan ids (suc (suc max_nodes)) (first_scan extra))) [
        | inl (e, failed) ↦ absurd (ground (arith, failed))
        | inr (w, scanned) ↦
            let same : (w.exact_only, w.substring_sensitive) ≡ sets = ground (arith, scanned) in
            ap (λ (p : List String × List String). member x p.1) (sym same)
            ∙ reach-scan (suc (suc max_nodes)) 0 ((obj extra, root, 0, true) ∷ []) [] [] w x scanned
            ∙ sym (or_false (exposed root true x (obj extra)))
      ]
