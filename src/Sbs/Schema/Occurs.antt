-- ===== src/Sbs/Schema/Occurs.antt =====
-- What `reject_answer_fields` guarantees, against the keys that occur in a payload.
use iclr.Base.{
  ◌↔◌, ℕ, suc, String, ◌≡◌, refl, ◌⊎◌, inl, inr, Bool, true, false, List, [], ◌∷◌, ◌++◌, arith,
  Bool-cases,
}
use iclr.Json.{Json, null, bool, int, float, str, arr, obj, Items, nil, cons, Fields, end, field}
use iclr.Sbs.Schema.Answers.{
  is_answer_field, key_path, index_path, hit_if, iter_answer_field_hits, iter_items, iter_fields,
  reject_passes,
}

-- `key` is a key of an object somewhere in the value, however deep.
mutual
  pub data Occurs (key : String) : Json → Type 0 where
    in_obj : {fs : Fields} → OccursFields key fs → Occurs key (obj fs)
    in_arr : {xs : Items} → OccursItems key xs → Occurs key (arr xs)

  pub data OccursItems (key : String) : Items → Type 0 where
    at_item : {x : Json} {xs : Items} → Occurs key x → OccursItems key (cons x xs)
    later_item : {x : Json} {xs : Items} → OccursItems key xs → OccursItems key (cons x xs)

  pub data OccursFields (key : String) : Fields → Type 0 where
    at_key : {v : Json} {fs : Fields} → OccursFields key (field key v fs)
    in_value :
        {k : String} {v : Json} {fs : Fields} → Occurs key v → OccursFields key (field k v fs)
    later_field :
        {k : String} {v : Json} {fs : Fields}
        → OccursFields key fs
        → OccursFields key (field k v fs)

append-nil_left : {A : Type 0} (xs ys : List A) → (xs ++ ys) ≡ [] → (xs ≡ []) × (ys ≡ [])
append-nil_left [] ys h = (refl, h)
append-nil_left (x ∷ xs) ys h = cc

hit_if-nil : (b : Bool) (path : List ℕ) → hit_if b path ≡ [] → b ≡ false
hit_if-nil true path h = cc
hit_if-nil false path h = refl

-- Without a hit, no key that occurs is forbidden.
mutual
  unfolding iter_answer_field_hits

  hits_sound :
      (j : Json) (prefix : List ℕ) (key : String)
      → iter_answer_field_hits j prefix ≡ []
      → Occurs key j
      → is_answer_field key ≡ false
  hits_sound (obj fs) prefix key h (in_obj o) = fields_sound fs prefix key h o
  hits_sound (arr xs) prefix key h (in_arr o) = items_sound xs 0 prefix key h o
  hits_sound null prefix key h o = elim o [ ]
  hits_sound (bool b) prefix key h o = elim o [ ]
  hits_sound (int n) prefix key h o = elim o [ ]
  hits_sound (float x) prefix key h o = elim o [ ]
  hits_sound (str s) prefix key h o = elim o [ ]

  items_sound :
      (xs : Items) (index : ℕ) (prefix : List ℕ) (key : String)
      → iter_items xs index prefix ≡ []
      → OccursItems key xs
      → is_answer_field key ≡ false
  items_sound nil index prefix key h o = elim o [ ]
  items_sound (cons x xs) index prefix key h (at_item o) =
      hits_sound x (index_path prefix index) key (append-nil_left _ _ h).0 o
  items_sound (cons x xs) index prefix key h (later_item o) =
      items_sound xs (suc index) prefix key
        (append-nil_left (iter_answer_field_hits x (index_path prefix index)) _ h).1 o

  fields_sound :
      (fs : Fields) (prefix : List ℕ) (key : String)
      → iter_fields fs prefix ≡ []
      → OccursFields key fs
      → is_answer_field key ≡ false
  fields_sound end prefix key h o = elim o [ ]
  fields_sound (field k v fs) prefix key h at_key = hit_if-nil _ _ (append-nil_left _ _ h).0
  fields_sound (field k v fs) prefix key h (in_value o) =
      hits_sound v (key_path prefix k) key
        (append-nil_left _ _
          (append-nil_left (hit_if (is_answer_field k) (key_path prefix k)) _ h).1).0
        o
  fields_sound (field k v fs) prefix key h (later_field o) =
      fields_sound fs prefix key
        (append-nil_left (iter_answer_field_hits v (key_path prefix k)) _
          (append-nil_left (hit_if (is_answer_field k) (key_path prefix k)) _ h).1).1
        o

-- A forbidden key that occurs in the value, with the place where it does.
abbrev Forbidden : (String → Type 0) → Type 0
Forbidden P = (key : String) × P key × (is_answer_field key ≡ true)

-- Either nothing is hit, or a key that occurs is forbidden.
mutual
  unfolding iter_answer_field_hits

  hits_found :
      (j : Json) (prefix : List ℕ)
      → (iter_answer_field_hits j prefix ≡ []) ⊎ Forbidden (λ key. Occurs key j)
  hits_found (obj fs) prefix = elim (fields_found fs prefix) [
    | inl none_hit ↦ inl none_hit
    | inr (key, o, h) ↦ inr (key, in_obj o, h)
  ]
  hits_found (arr xs) prefix = elim (items_found xs 0 prefix) [
    | inl none_hit ↦ inl none_hit
    | inr (key, o, h) ↦ inr (key, in_arr o, h)
  ]
  hits_found _ prefix = inl refl

  items_found :
      (xs : Items) (index : ℕ) (prefix : List ℕ)
      → (iter_items xs index prefix ≡ []) ⊎ Forbidden (λ key. OccursItems key xs)
  items_found nil index prefix = inl refl
  items_found (cons x xs) index prefix = elim (hits_found x (index_path prefix index)) [
    | inr (key, o, h) ↦ inr (key, at_item o, h)
    | inl e ↦ elim (items_found xs (suc index) prefix) [
      | inr (key, o, h) ↦ inr (key, later_item o, h)
      | inl e' ↦ inl (rw e e')
    ]
  ]

  fields_found :
      (fs : Fields) (prefix : List ℕ)
      → (iter_fields fs prefix ≡ []) ⊎ Forbidden (λ key. OccursFields key fs)
  fields_found end prefix = inl refl
  fields_found (field k v fs) prefix = elim (Bool-cases (is_answer_field k)) [
    | inl h ↦ inr (k, at_key, h)
    | inr miss ↦ elim (hits_found v (key_path prefix k)) [
      | inr (key, o, h) ↦ inr (key, in_value o, h)
      | inl e ↦ elim (fields_found fs prefix) [
        | inr (key, o, h) ↦ inr (key, later_field o, h)
        | inl e' ↦ inl (rw (miss, e) e')
      ]
    ]
  ]

-- A payload passes exactly when no key of an object in it, however deep, is forbidden.
pub reject_passes_iff :
    (j : Json)
    → (reject_passes j ≡ true) ↔ ((key : String) → Occurs key j → is_answer_field key ≡ false)
unfolding reject_passes
reject_passes_iff j = (
  λ h key o. hits_sound j [] key (ground arith) o,
  λ clean. elim (hits_found j []) [
    | inl e ↦ rw (e, reject_passes)
    | inr (key, o, h) ↦ cc (clean key o)
  ],
)
