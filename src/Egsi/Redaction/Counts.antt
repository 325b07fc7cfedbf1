-- ===== src/Egsi/Redaction/Counts.antt =====
-- How a traversal keeps count, and what is within its limits.
use iclr.Base.{
  Result, ok, err, ◌>>=◌, ℕ, suc, ◌+◌, ◌≤◌, String, ◌≡◌, refl, sym, ◌⊎◌, ◌∙◌, inl, inr, Bool, true,
  false, ◌&&◌, List, [], ◌∷◌, length, ltb, leb, arith, Bool-cases,
}
use mathlib.Core.Path.{subst}
use iclr.Json.{Json, null, bool, int, float, str, arr, obj, Items, nil, cons, Fields, end, field}
use iclr.Egsi.Redaction.Traversal.{
  Limit, maximum_depth, maximum_nodes, out_of_fuel, Visit, max_nodes, max_depth, with_found, queue,
}

-- The values below a value, and whether a value at a depth reaches no deeper than the limit.
unfoldable mutual
  pub below : Json → ℕ
  below (arr items) = below_items items
  below (obj fields) = below_fields fields
  below null = 0
  below (bool b) = 0
  below (int n) = 0
  below (float text) = 0
  below (str text) = 0

  pub below_items : Items → ℕ
  below_items nil = 0
  below_items (cons child items) = suc (below child) + below_items items

  pub below_fields : Fields → ℕ
  below_fields end = 0
  below_fields (field key child fields) = suc (below child) + below_fields fields

unfoldable mutual
  pub fits : ℕ → Json → Bool
  fits depth (arr items) = leb depth max_depth && fits_items (suc depth) items
  fits depth (obj fields) = leb depth max_depth && fits_fields (suc depth) fields
  fits depth null = leb depth max_depth
  fits depth (bool b) = leb depth max_depth
  fits depth (int n) = leb depth max_depth
  fits depth (float text) = leb depth max_depth
  fits depth (str text) = leb depth max_depth

  pub fits_items : ℕ → Items → Bool
  fits_items depth nil = true
  fits_items depth (cons child items) = fits depth child && fits_items depth items

  pub fits_fields : ℕ → Fields → Bool
  fits_fields depth end = true
  fits_fields depth (field key child fields) = fits depth child && fits_fields depth fields

abbrev pub below_pending : List (Json × ℕ) → ℕ
below_pending [] = 0
below_pending ((value, depth) ∷ pending) = below value + below_pending pending

abbrev pub fits_pending : List (Json × ℕ) → Bool
fits_pending [] = true
fits_pending ((value, depth) ∷ pending) = fits depth value && fits_pending pending

-- The whole is within the limits: what was queued, what is below it, and what else is to come.
abbrev pub is_small : Visit → ℕ → Bool → Bool
is_small v more rest_fits =
    leb (v.queued + below_pending v.pending + more) max_nodes
    && (fits_pending v.pending && rest_fits)

-- A traversal ends by itself, and returns exactly if the whole is within the limits.
abbrev pub Verdict : {A : Type 0} → Result Limit A → Bool → Type 0
Verdict (ok a) small = small ≡ true
Verdict (err maximum_depth) small = small ≡ false
Verdict (err maximum_nodes) small = small ≡ false
Verdict (err out_of_fuel) small = ⊥

-- A part of a traversal keeps the count, or fails since the whole is beyond the limits.
pub record Counts (v w : Visit) : Type 0 where
  pub grows : w.queued + length v.pending ≡ v.queued + length w.pending
  pub bounded : w.queued ≤ max_nodes

abbrev pub Keeps : Result Limit Visit → Visit → Bool → Type 0
Keeps (ok w) v small = (is_small w 0 true ≡ small) × Counts v w
Keeps (err maximum_depth) v small = small ≡ false
Keeps (err maximum_nodes) v small = small ≡ false
Keeps (err out_of_fuel) v small = ⊥

pub queue_verdict :
    (child : Json) (depth : ℕ) (v : Visit) (more : ℕ) (b : Bool)
    → v.queued ≤ max_nodes
    → ((w : Visit) × (queue child depth v ≡ ok w)
        × Counts v w
        × (is_small w more b ≡ is_small v (suc (below child) + more) (fits depth child && b)))
      ⊎ ((queue child depth v ≡ err maximum_nodes)
          × (is_small v (suc (below child) + more) (fits depth child && b) ≡ false))
unfolding queue
queue_verdict child depth v more b h = elim (Bool-cases (ltb max_nodes (suc v.queued))) [
  | inl full ↦ inr (rw full, ground (arith, full))
  | inr room ↦ inl (
    record v { pending = (child, depth) ∷ v.pending; queued = suc v.queued },
    rw room,
    record { grows = omega arith; bounded = ground (arith, room) },
    ground (arith, room),
  )
]

pub with_found_same :
    (b : Bool) (text : String) (v : Visit)
    → ((with_found b text v).pending ≡ v.pending) × ((with_found b text v).queued ≡ v.queued)
with_found_same true text v = (refl, refl)
with_found_same false text v = (refl, refl)

pub Keeps-from :
    (r : Result Limit Visit) (v w : Visit) (s s' : Bool)
    → Counts v w
    → s ≡ s'
    → Keeps r w s
    → Keeps r v s'
Keeps-from (ok u) v w s s' c e (k, c') =
    (k ∙ e, record { grows = ground (arith, c, c'); bounded = c'.bounded })
Keeps-from (err maximum_depth) v w s s' c e k = sym e ∙ k
Keeps-from (err maximum_nodes) v w s s' c e k = sym e ∙ k
Keeps-from (err out_of_fuel) v w s s' c e k = k

-- One child is queued, and the others follow.
pub queue_then :
    (rest : Visit → Result Limit Visit) (child : Json) (depth : ℕ) (v : Visit) (more : ℕ) (b : Bool)
    → v.queued ≤ max_nodes
    → ((w : Visit) → w.queued ≤ max_nodes → Keeps (rest w) w (is_small w more b))
    → Keeps
        (queue child depth v >>= rest)
        v
        (is_small v (suc (below child) + more) (fits depth child && b))
queue_then rest child depth v more b h keep = elim (queue_verdict child depth v more b h) [
  | inl (w, queued, c, small) ↦ rw queued (Keeps-from (rest w) v w _ _ c small (keep w c.bounded))
  | inr (failed, small) ↦ rw failed small
]

pub Keeps-scalar :
    (depth : ℕ) (v : Visit)
    → v.queued ≤ max_nodes
    → ltb max_depth depth ≡ false
    → Keeps (ok v) v (is_small v 0 (leb depth max_depth))
Keeps-scalar depth v h k = (ground arith, record { grows = refl; bounded = h })

pub deep_fits :
    (current : Json) (depth : ℕ) → ltb max_depth depth ≡ true → fits depth current ≡ false
unfolding fits
deep_fits (arr items) depth h = ground arith
deep_fits (obj fields) depth h = ground arith
deep_fits null depth h = ground arith
deep_fits (bool b) depth h = ground arith
deep_fits (int n) depth h = ground arith
deep_fits (float text) depth h = ground arith
deep_fits (str text) depth h = ground arith

abbrev pub popped : ℕ → List (Json × ℕ) → List String → Visit
popped queued pending found = record { pending = pending; queued = queued; found = found }

pub pop_small :
    (current : Json) (depth : ℕ) (v : Visit)
    → is_small (popped v.queued ((current, depth) ∷ v.pending) v.found) 0 true
      ≡ is_small v (below current) (fits depth current)
pop_small current depth v = ground arith

pub whole :
    (value : Json)
    → is_small (popped 1 ((value, 0) ∷ []) []) 0 true
      ≡ (leb (suc (below value)) max_nodes && fits 0 value)
whole value = ground arith

pub then-Verdict :
    (r : Result Limit Visit) (v : Visit) (s : Bool) (rest : Visit → Result Limit (List String))
    → Keeps r v s
    → ((w : Visit) → Counts v w → Verdict (rest w) (is_small w 0 true))
    → Verdict (r >>= rest) s
then-Verdict (ok w) v s rest (same, c) h = subst (λ (b : Bool). Verdict (rest w) b) same (h w c)
then-Verdict (err maximum_depth) v s rest k h = k
then-Verdict (err maximum_nodes) v s rest k h = k
then-Verdict (err out_of_fuel) v s rest k h = k
