-- ===== src/Sbs/Schema/Answers.antt =====
-- `iter_answer_field_hits` and `reject_answer_fields` of src/sbs/schema.py.
use iclr.Base.{ℕ, suc, String, Bool, true, false, List, [], ◌∷◌, ◌++◌, map, any}
use iclr.Base.Texts.{codes, codes_eq, lower, decimal}
use iclr.Json.{Json, null, bool, int, float, str, arr, obj, Items, nil, cons, Fields, end, field}

-- `ANSWER_FIELD_NAMES`
abbrev pub answer_field_names : List String
answer_field_names =
    "advisory" ∷ "aliases" ∷ "answer" ∷ "cve" ∷ "cve_id" ∷ "exploit" ∷ "fix_pair" ∷ "fix_pairing"
    ∷ "fixed_label" ∷ "fixed_patch" ∷ "gold" ∷ "gold_label" ∷ "gold_locations"
    ∷ "gold_proof_obligations" ∷ "patch" ∷ "poc" ∷ "vulnerable_label" ∷ []

-- `key.lower() in ANSWER_FIELD_NAMES`
unfoldable pub is_answer_field : String → Bool
unfolding lower
is_answer_field key = any (λ name. codes_eq (map lower (codes key)) (codes name)) answer_field_names

-- `f"{prefix}.{key}" if prefix else str(key)`
abbrev pub key_path : List ℕ → String → List ℕ
key_path [] key = codes key
key_path (c ∷ prefix) key = (c ∷ prefix) ++ b'.' ∷ codes key

-- `f"{prefix}[{index}]"`
abbrev pub index_path : List ℕ → ℕ → List ℕ
index_path prefix index = prefix ++ b'[' ∷ decimal index ++ b']' ∷ []

-- `[path] if test else []`
abbrev pub hit_if : Bool → List ℕ → List (List ℕ)
hit_if true path = path ∷ []
hit_if false path = []

-- The dotted paths of the forbidden keys, in the order in which the object is read.
unfoldable mutual
  pub iter_answer_field_hits : Json → List ℕ → List (List ℕ)
  iter_answer_field_hits (obj fs) prefix = iter_fields fs prefix
  iter_answer_field_hits (arr xs) prefix = iter_items xs 0 prefix
  iter_answer_field_hits null prefix = []
  iter_answer_field_hits (bool b) prefix = []
  iter_answer_field_hits (int n) prefix = []
  iter_answer_field_hits (float x) prefix = []
  iter_answer_field_hits (str s) prefix = []

  pub iter_items : Items → ℕ → List ℕ → List (List ℕ)
  iter_items nil index prefix = []
  iter_items (cons x xs) index prefix =
      iter_answer_field_hits x (index_path prefix index) ++ iter_items xs (suc index) prefix

  pub iter_fields : Fields → List ℕ → List (List ℕ)
  iter_fields end prefix = []
  iter_fields (field key value fs) prefix =
      hit_if (is_answer_field key) (key_path prefix key)
      ++ (iter_answer_field_hits value (key_path prefix key) ++ iter_fields fs prefix)

-- `reject_answer_fields` lets the payload pass.
unfoldable pub reject_passes : Json → Bool
reject_passes payload = elim (iter_answer_field_hits payload []) [ [] ↦ true | _ ↦ false ]
