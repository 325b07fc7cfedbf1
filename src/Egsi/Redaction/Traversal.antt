-- ===== src/Egsi/Redaction/Traversal.antt =====
-- `_walk_limited`, `key_hits` and `_all_scalar_strings` of src/egsi/generation/redaction.py, on a JSON
-- tree: no container of it is met twice, so the test of identities finds nothing.
use iclr.Base.{
  Result, ok, err, ◌>>=◌, ℕ, zero, suc, String, Bool, true, false, List, [], ◌∷◌, member, ltb,
  if◌then◌else◌,
}
use iclr.Json.{Json, null, bool, int, float, str, arr, obj, Items, nil, cons, Fields, end, field}

abbrev pub max_nodes : ℕ
max_nodes = 4096

abbrev pub max_depth : ℕ
max_depth = 128

pub data Limit : Type 0 where
  maximum_depth maximum_nodes : Limit
  -- not an error of the code: the steps that the model allows are used up
  out_of_fuel : Limit

-- What is pending, the top of the stack first, the count of what was ever queued, and the findings.
pub record Visit : Type 0 where
  pub pending : List (Json × ℕ)
  pub queued : ℕ
  pub found : List String

abbrev pub with_found : Bool → String → Visit → Visit
with_found true text v = record v { found = text ∷ v.found }
with_found false text v = v

-- `queued += 1`, the test, and `pending.append`
unfoldable pub queue : Json → ℕ → Visit → Result Limit Visit
queue child depth v =
    if ltb max_nodes (suc v.queued)
    then err Limit.maximum_nodes
    else ok (record v { pending = (child, depth) ∷ v.pending; queued = suc v.queued })

-- The traversal collects the keys that it is asked for, and the texts if it is asked for them.
module _ (wanted_key : String → Bool) (wanted_texts : Bool) where
  -- The loops over the children of one container.
  unfoldable pub queue_fields : Fields → ℕ → Visit → Result Limit Visit
  queue_fields end depth v = ok v
  queue_fields (field key child fields) depth v =
      queue child depth (with_found (wanted_key key) key v) >>= queue_fields fields depth

  unfoldable pub queue_items : Items → ℕ → Visit → Result Limit Visit
  queue_items nil depth v = ok v
  queue_items (cons child items) depth v = queue child depth v >>= queue_items items depth

  -- A popped value within the depth.
  unfoldable pub visit : Json → ℕ → Visit → Result Limit Visit
  visit (str text) depth v = ok (with_found wanted_texts text v)
  visit (arr items) depth v = queue_items items (suc depth) v
  visit (obj fields) depth v = queue_fields fields (suc depth) v
  visit null depth v = ok v
  visit (bool b) depth v = ok v
  visit (int n) depth v = ok v
  visit (float text) depth v = ok v

  -- `if depth > MAX_DEPTH: ...`, and the visit.
  unfoldable pub visit_within : Json → ℕ → Visit → Result Limit Visit
  unfolding visit
  visit_within current depth v =
      if ltb max_depth depth then err Limit.maximum_depth else visit current depth v

  -- `while pending: ...`
  unfoldable pub traverse : ℕ → Visit → Result Limit (List String)
  traverse zero v = err Limit.out_of_fuel
  traverse (suc fuel) v = elim v.pending [
    | [] ↦ ok v.found
    | (current, depth) ∷ pending ↦
        visit_within current depth (record v { pending = pending }) >>= traverse fuel
  ]

  abbrev pub traversal : Json → Result Limit (List String)
  traversal value =
      traverse (suc max_nodes) (record { pending = (value, 0) ∷ []; queued = 1; found = [] })

abbrev pub forbidden_keys : List String
forbidden_keys =
    "cwe" ∷ "cwe_normalized_primary" ∷ "aliases" ∷ "advisory" ∷ "fixed_commit" ∷ "patch"
    ∷ "gold_locations" ∷ "gold_proof_obligations" ∷ "authorization_model" ∷ "authorization" ∷ []

-- `key_hits`
unfoldable pub key_hits : Json → Result Limit (List String)
key_hits value = traversal (λ key. member key forbidden_keys) false value

-- `_all_scalar_strings`
unfoldable pub all_scalar_strings : Json → Result Limit (List String)
all_scalar_strings value = traversal (λ key. false) true value
