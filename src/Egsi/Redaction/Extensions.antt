-- ===== src/Egsi/Redaction/Extensions.antt =====
-- `_top_extension_scalar_sets` of src/egsi/generation/redaction.py, on a JSON tree: no container of it
-- is scheduled twice. The key of a list's element is `none`: a number, which is no name.
use iclr.Base.{
  Result, ok, err, ◌>>=◌, ℕ, zero, suc, String, Bool, true, false, ◌||◌, Option, none, some, List,
  [], ◌∷◌, str_eq, ltb, if◌then◌else◌,
}
use iclr.Base.Texts.{codes_eq}
use iclr.Egsi.Candidates.Profile.{lookup}
use iclr.Egsi.Redaction.Traversal.{Limit, max_nodes, max_depth}
use iclr.Json.{Json, null, bool, int, float, str, arr, obj, Items, nil, cons, Fields, end, field}

pub data ScanState : Type 0 where
  root advisory_map case_identity revision_map split_groups_map : ScanState
  dedup_map exact_low build_map generic vulnerable_identity upstream_identity : ScanState

abbrev root_states : List (String × ScanState)
root_states =
    ("advisory", advisory_map)
    ∷ ("aliases", case_identity)
    ∷ ("revision_resolution", revision_map)
    ∷ ("split_groups", split_groups_map)
    ∷ ("dedup", dedup_map)
    ∷ ("status", exact_low)
    ∷ ("build", build_map)
    ∷ []

abbrev or_generic : Option ScanState → ScanState
or_generic none = generic
or_generic (some state) = state

-- `child_state`
unfoldable pub child_state : ScanState → Option String → Bool → ScanState
child_state parent none true = generic
child_state parent (some key) true = or_generic (lookup key root_states)
child_state advisory_map (some key) false =
    if str_eq key "ghsa_id" || str_eq key "osv_id" then case_identity else generic
child_state revision_map (some key) false =
    if str_eq key "vulnerable_parent" || str_eq key "all_parents"
    then vulnerable_identity
    else generic
child_state split_groups_map (some key) false =
    if str_eq key "repository"
    then upstream_identity
    else if str_eq key "project_family"
    then exact_low
    else generic
child_state dedup_map (some key) false = if str_eq key "project_family" then exact_low else generic
child_state build_map (some key) false = if str_eq key "status" then exact_low else generic
child_state advisory_map none false = generic
child_state revision_map none false = generic
child_state split_groups_map none false = generic
child_state dedup_map none false = generic
child_state build_map none false = generic
child_state root key false = root
child_state case_identity key false = case_identity
child_state exact_low key false = exact_low
child_state generic key false = generic
child_state vulnerable_identity key false = vulnerable_identity
child_state upstream_identity key false = upstream_identity

-- The top of the stack comes first.
pub record Scan : Type 0 where
  pub pending : List (Json × ScanState × ℕ × Bool)
  pub processed : ℕ
  pub exact_only : List String
  pub substring_sensitive : List String

pub data Failure : Type 0 where
  limit : Limit → Failure
  -- `_normalised_scalar` of a text that is no UTF-8
  malformed : Failure

-- `count_node`
unfoldable pub count_node : Scan → Result Failure Scan
count_node s =
    if ltb max_nodes (suc s.processed)
    then err (limit Limit.maximum_nodes)
    else ok (record s { processed = suc s.processed })

-- The identities of the case in their normal form, and `_normalised_scalar`.
pub record Identities : Type 0 where
  pub case_id : List ℕ
  pub upstream_id : List ℕ
  pub vulnerable_commit : List ℕ
  pub normalised : String → Option (List ℕ)

abbrev pub sensitive : String → Scan → Scan
sensitive value s = record s { substring_sensitive = value ∷ s.substring_sensitive }

module _ (ids : Identities) where
  -- The text is the identity that its state allows, or it is sensitive.
  abbrev pub unless_same : List ℕ → String → Scan → Result Failure Scan
  unless_same identity value s = elim (ids.normalised value) [
    | none ↦ err malformed
    | some text ↦ if codes_eq text identity then ok s else ok (sensitive value s)
  ]

  -- `classify_scalar`
  unfoldable pub classify_scalar : String → ScanState → Scan → Result Failure Scan
  classify_scalar value case_identity s = unless_same ids.case_id value s
  classify_scalar value vulnerable_identity s = unless_same ids.vulnerable_commit value s
  classify_scalar value upstream_identity s = unless_same ids.upstream_id value s
  classify_scalar value exact_low s = ok (record s { exact_only = value ∷ s.exact_only })
  classify_scalar value root s = ok (sensitive value s)
  classify_scalar value advisory_map s = ok (sensitive value s)
  classify_scalar value revision_map s = ok (sensitive value s)
  classify_scalar value split_groups_map s = ok (sensitive value s)
  classify_scalar value dedup_map s = ok (sensitive value s)
  classify_scalar value build_map s = ok (sensitive value s)
  classify_scalar value generic s = ok (sensitive value s)

  abbrev pub schedule : Json → ScanState → ℕ → Scan → Result Failure Scan
  schedule child state depth s =
      ok (record s { pending = (child, state, depth, false) ∷ s.pending })

  -- One child of a container: a text is classified at once, a container is scheduled.
  unfoldable pub scan_child : Json → ScanState → ℕ → Scan → Result Failure Scan
  scan_child (str text) state depth s = count_node s >>= classify_scalar text state
  scan_child (arr items) state depth s = count_node s >>= schedule (arr items) state depth
  scan_child (obj fields) state depth s = count_node s >>= schedule (obj fields) state depth
  scan_child null state depth s = count_node s
  scan_child (bool b) state depth s = count_node s
  scan_child (int n) state depth s = count_node s
  scan_child (float text) state depth s = count_node s

  unfoldable pub scan_fields : ScanState → Bool → ℕ → Fields → Scan → Result Failure Scan
  scan_fields state is_root depth end s = ok s
  scan_fields state is_root depth (field key child fields) s =
      scan_child child (child_state state (some key) is_root) depth s
      >>= scan_fields state is_root depth fields

  unfoldable pub scan_items : ScanState → Bool → ℕ → Items → Scan → Result Failure Scan
  scan_items state is_root depth nil s = ok s
  scan_items state is_root depth (cons child items) s =
      scan_child child (child_state state none is_root) depth s
      >>= scan_items state is_root depth items

  -- A popped value, after it is counted.
  unfoldable pub scan_value : Json → ScanState → ℕ → Bool → Scan → Result Failure Scan
  scan_value (str text) state depth is_root s = classify_scalar text state s
  scan_value (arr items) state depth is_root s = scan_items state is_root (suc depth) items s
  scan_value (obj fields) state depth is_root s = scan_fields state is_root (suc depth) fields s
  scan_value null state depth is_root s = ok s
  scan_value (bool b) state depth is_root s = ok s
  scan_value (int n) state depth is_root s = ok s
  scan_value (float text) state depth is_root s = ok s

  abbrev pub scan_popped : Json → ScanState → ℕ → Bool → Scan → Result Failure Scan
  scan_popped current state depth is_root s =
      if ltb max_depth depth
      then err (limit Limit.maximum_depth)
      else (count_node s >>= scan_value current state depth is_root)

  -- `while pending: ...`; each round counts a node, so the fuel of the limit is enough.
  unfoldable pub scan : ℕ → Scan → Result Failure Scan
  scan zero s = err (limit Limit.out_of_fuel)
  scan (suc fuel) s = elim s.pending [
    | [] ↦ ok s
    | (current, state, depth, is_root) ∷ pending ↦
        scan_popped current state depth is_root (record s { pending = pending }) >>= scan fuel
  ]

  -- `_top_extension_scalar_sets`
  unfoldable pub top_extension_scalar_sets : Fields → Result Failure (List String × List String)
  unfolding scan
  top_extension_scalar_sets extra =
      scan (suc (suc max_nodes)) (record {
        pending = (obj extra, root, 0, true) ∷ [];
        processed = 0;
        exact_only = [];
        substring_sensitive = [];
      })
      >>= λ s. ok (s.exact_only, s.substring_sensitive)
