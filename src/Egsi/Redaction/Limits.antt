-- ===== src/Egsi/Redaction/Limits.antt =====
-- Which trees the traversal takes: those with few enough nodes, none of them too deep.
use iclr.Base.{
  ℕ, zero, suc, ◌+◌, ◌≤◌, String, ◌≡◌, refl, inl, inr, Bool, true, false, ◌&&◌, List, [], ◌∷◌,
  length, ltb, leb, arith, Bool-cases,
}
use mathlib.Core.Path.{subst}
use iclr.Json.{Json, null, bool, int, float, str, arr, obj, Items, nil, cons, Fields, end, field}
use iclr.Egsi.Redaction.Traversal.{
  Visit, max_nodes, max_depth, with_found, queue_fields, queue_items, visit, visit_within, traverse,
  traversal,
}
use iclr.Egsi.Redaction.Counts.{
  below, below_items, below_fields, fits, fits_items, fits_fields, is_small, Verdict, Keeps,
  with_found_same, Keeps-from, queue_then, Keeps-scalar, deep_fits, popped, pop_small, whole,
  then-Verdict,
}

module _ (wanted_key : String → Bool) (wanted_texts : Bool) where
  queue_items-Keeps :
      (items : Items) (depth : ℕ) (v : Visit)
      → v.queued ≤ max_nodes
      → Keeps
          (queue_items wanted_key wanted_texts items depth v)
          v
          (is_small v (below_items items) (fits_items depth items))
  unfolding queue_items below_items fits_items
  queue_items-Keeps nil depth v h = (refl, record { grows = refl; bounded = h })
  queue_items-Keeps (cons child items) depth v h =
      queue_then (queue_items wanted_key wanted_texts items depth) child depth v (below_items items)
        (fits_items depth items) h (λ w k. queue_items-Keeps items depth w k)

  queue_fields-Keeps :
      (fields : Fields) (depth : ℕ) (v : Visit)
      → v.queued ≤ max_nodes
      → Keeps
          (queue_fields wanted_key wanted_texts fields depth v)
          v
          (is_small v (below_fields fields) (fits_fields depth fields))
  unfolding queue_fields below_fields fits_fields
  queue_fields-Keeps end depth v h = (refl, record { grows = refl; bounded = h })
  queue_fields-Keeps (field key child fields) depth v h =
      let w = with_found (wanted_key key) key v in
      let (same_pending, same_queued) = with_found_same (wanted_key key) key v in
      Keeps-from _ v w _ _
        (record { grows = rw (same_pending, same_queued); bounded = rw same_queued h })
        (rw (same_pending, same_queued))
        (queue_then (queue_fields wanted_key wanted_texts fields depth) child depth w
          (below_fields fields) (fits_fields depth fields) (rw same_queued h)
          (λ u k. queue_fields-Keeps fields depth u k))

  visit-Keeps :
      (current : Json) (depth : ℕ) (v : Visit)
      → v.queued ≤ max_nodes
      → ltb max_depth depth ≡ false
      → Keeps
          (visit wanted_key wanted_texts current depth v)
          v
          (is_small v (below current) (fits depth current))
  unfolding visit below fits
  visit-Keeps (arr items) depth v h k =
      let e : leb depth max_depth ≡ true = ground (arith, k) in
      rw e (queue_items-Keeps items (suc depth) v h)
  visit-Keeps (obj fields) depth v h k =
      let e : leb depth max_depth ≡ true = ground (arith, k) in
      rw e (queue_fields-Keeps fields (suc depth) v h)
  visit-Keeps null depth v h k = Keeps-scalar depth v h k
  visit-Keeps (bool b) depth v h k = Keeps-scalar depth v h k
  visit-Keeps (int n) depth v h k = Keeps-scalar depth v h k
  visit-Keeps (float text) depth v h k = Keeps-scalar depth v h k
  visit-Keeps (str text) depth v h k =
      let (same_pending, same_queued) = with_found_same wanted_texts text v in
      let (small, c) = Keeps-scalar depth v h k in
      (
        rw (same_pending, same_queued) small,
        record { grows = rw (same_pending, same_queued); bounded = rw same_queued h },
      )

  -- A traversal with fuel for what may be queued ends, and returns exactly if the whole is within
  -- the limits.
  traverse-Verdict :
      (fuel queued : ℕ) (pending : List (Json × ℕ)) (found : List String)
      → queued ≤ max_nodes
      → fuel + queued ≡ suc max_nodes + length pending
      → Verdict
          (traverse wanted_key wanted_texts fuel
            (record { pending = pending; queued = queued; found = found }))
          (is_small (record { pending = pending; queued = queued; found = found }) 0 true)
  unfolding traverse visit_within
  traverse-Verdict zero queued pending found h f = absurd (omega arith)
  traverse-Verdict (suc fuel) queued [] found h f = ground arith
  traverse-Verdict (suc fuel) queued ((current, depth) ∷ pending) found h f =
      elim (Bool-cases (ltb max_depth depth)) [
        | inl deep ↦ rw (deep, visit_within) (ground (arith, deep_fits current depth deep))
        | inr within ↦
            let v = popped queued pending found in
            let kept = visit-Keeps current depth v h within in
            let stepped : visit_within wanted_key wanted_texts current depth v
                ≡ visit wanted_key wanted_texts current depth v =
              rw (within, visit_within) in
            rw (stepped, pop_small current depth v)
              (then-Verdict (visit wanted_key wanted_texts current depth v) v
                (is_small v (below current) (fits depth current))
                (traverse wanted_key wanted_texts fuel) kept
                (λ w c.
                  traverse-Verdict fuel w.queued w.pending w.found (c.bounded) (ground (arith, c))))
      ]

  -- The traversal of any JSON tree ends, with no fuel wanting. It returns exactly if the tree has at
  -- most 4,096 values and none lies deeper than 128, and otherwise fails with one of the two limits.
  pub traversal-Verdict :
      (value : Json)
      → Verdict
          (traversal wanted_key wanted_texts value)
          (leb (suc (below value)) max_nodes && fits 0 value)
  traversal-Verdict value =
      subst (λ (b : Bool). Verdict (traversal wanted_key wanted_texts value) b) (whole value)
        (traverse-Verdict (suc max_nodes) 1 ((value, 0) ∷ []) [] (omega arith) (omega arith))
