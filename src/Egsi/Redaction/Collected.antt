-- ===== src/Egsi/Redaction/Collected.antt =====
-- The traversal ends by itself, and finds what occurs in the tree.
use iclr.Base.{
  Result, ok, ℕ, zero, suc, String, ◌≡◌, ◌∙◌, ap, inl, inr, Bool, true, false, ◌&&◌, ◌||◌, List, [],
  ◌∷◌, member, str_eq, ltb, arith, Bool-cases, Result-cases,
}
use iclr.Json.{Json, null, bool, int, float, str, arr, obj, Items, nil, cons, Fields, end, field}
use iclr.Egsi.Redaction.Traversal.{
  Visit, max_nodes, max_depth, with_found, queue, queue_fields, queue_items, visit, visit_within,
  traverse, forbidden_keys, key_hits,
}

ok-injective : {E A : Type 0} {a b : A} → ◌≡◌ {A = Result E A} (ok a) (ok b) → a ≡ b
ok-injective h = cc

module _ (wanted_key : String → Bool) (wanted_texts : Bool) where
  -- A text or a key that the traversal is asked for occurs at some depth.
  unfoldable mutual
    pub occurs : String → Json → Bool
    occurs x (str text) = wanted_texts && str_eq text x
    occurs x (arr items) = occurs_in_items x items
    occurs x (obj fields) = occurs_in_fields x fields
    occurs x null = false
    occurs x (bool b) = false
    occurs x (int n) = false
    occurs x (float text) = false

    pub occurs_in_items : String → Items → Bool
    occurs_in_items x nil = false
    occurs_in_items x (cons child items) = occurs x child || occurs_in_items x items

    pub occurs_in_fields : String → Fields → Bool
    occurs_in_fields x end = false
    occurs_in_fields x (field key child fields) =
        (wanted_key key && str_eq key x) || (occurs x child || occurs_in_fields x fields)

  abbrev occurs_pending : String → List (Json × ℕ) → Bool
  occurs_pending x [] = false
  occurs_pending x ((value, depth) ∷ pending) = occurs x value || occurs_pending x pending

  -- What was found, or will be.
  abbrev reach : String → Visit → Bool
  reach x v = member x v.found || occurs_pending x v.pending

  reach-with_found :
      (x : String) (b : Bool) (text : String) (v : Visit)
      → reach x (with_found b text v) ≡ (reach x v || (b && str_eq text x))
  reach-with_found x true text v = ground arith
  reach-with_found x false text v = ground arith

  reach-queue :
      (x : String) (child : Json) (depth : ℕ) (v w : Visit)
      → queue child depth v ≡ ok w
      → reach x w ≡ (reach x v || occurs x child)
  unfolding queue
  reach-queue x child depth v w h = ground arith

  or_or : (a b c : Bool) → ((a || b) || c) ≡ (a || (b || c))
  or_or a b c = ground arith

  or_four : (a b c d : Bool) → (((a || b) || c) || d) ≡ (a || (b || (c || d)))
  or_four a b c d = ground arith

  reach-queue_fields :
      (x : String) (fields : Fields) (depth : ℕ) (v w : Visit)
      → queue_fields wanted_key wanted_texts fields depth v ≡ ok w
      → reach x w ≡ (reach x v || occurs_in_fields x fields)
  unfolding queue_fields occurs_in_fields
  reach-queue_fields x end depth v w h = ground arith
  reach-queue_fields x (field key child fields) depth v w h =
      elim (Result-cases (queue child depth (with_found (wanted_key key) key v))) [
        | inl (e, failed) ↦ absurd (ground (arith, failed))
        | inr (u, queued) ↦
            let ran : queue_fields wanted_key wanted_texts fields depth u ≡ ok w =
              rw (queued, queue_fields) at h in
            reach-queue_fields x fields depth u w ran
            ∙ ap (λ b. b || occurs_in_fields x fields)
                (reach-queue x child depth _ u queued
                  ∙ ap (λ b. b || occurs x child) (reach-with_found x (wanted_key key) key v))
            ∙ or_four (reach x v) (wanted_key key && str_eq key x) (occurs x child)
                (occurs_in_fields x fields)
      ]

  reach-queue_items :
      (x : String) (items : Items) (depth : ℕ) (v w : Visit)
      → queue_items wanted_key wanted_texts items depth v ≡ ok w
      → reach x w ≡ (reach x v || occurs_in_items x items)
  unfolding queue_items occurs_in_items
  reach-queue_items x nil depth v w h = ground arith
  reach-queue_items x (cons child items) depth v w h = elim (Result-cases (queue child depth v)) [
    | inl (e, failed) ↦ absurd (ground (arith, failed))
    | inr (u, queued) ↦
        let ran : queue_items wanted_key wanted_texts items depth u ≡ ok w =
          rw (queued, queue_items) at h in
        reach-queue_items x items depth u w ran
        ∙ ap (λ b. b || occurs_in_items x items) (reach-queue x child depth v u queued)
        ∙ or_or (reach x v) (occurs x child) (occurs_in_items x items)
  ]

  reach-visit :
      (x : String) (current : Json) (depth : ℕ) (v w : Visit)
      → visit wanted_key wanted_texts current depth v ≡ ok w
      → reach x w ≡ (reach x v || occurs x current)
  unfolding visit occurs
  reach-visit x (str text) depth v w h =
      let e : with_found wanted_texts text v ≡ w = ok-injective h in
      rw (← e) (reach-with_found x wanted_texts text v)
  reach-visit x (arr items) depth v w h = reach-queue_items x items (suc depth) v w h
  reach-visit x (obj fields) depth v w h = reach-queue_fields x fields (suc depth) v w h
  reach-visit x null depth v w h = ground arith
  reach-visit x (bool b) depth v w h = ground arith
  reach-visit x (int n) depth v w h = ground arith
  reach-visit x (float text) depth v w h = ground arith

  pop : (a b c : Bool) → ((a || c) || b) ≡ (a || (b || c))
  pop a b c = ground arith

  reach-visit_within :
      (x : String) (current : Json) (depth : ℕ) (v w : Visit)
      → visit_within wanted_key wanted_texts current depth v ≡ ok w
      → reach x w ≡ (reach x v || occurs x current)
  unfolding visit_within
  reach-visit_within x current depth v w h = elim (Bool-cases (ltb max_depth depth)) [
    | inl deep ↦ absurd (ground (arith, deep))
    | inr within ↦ reach-visit x current depth v w (rw within at h)
  ]

  -- What a traversal that ends has found: what was found before, and what occurs in the pending
  -- values.
  pub traverse-member :
      (fuel queued : ℕ) (pending : List (Json × ℕ)) (found out : List String) (x : String)
      → traverse wanted_key wanted_texts fuel
          (record { pending = pending; queued = queued; found = found })
        ≡ ok out
      → member x out ≡ (member x found || occurs_pending x pending)
  unfolding traverse
  traverse-member zero queued pending found out x h = absurd (ground arith)
  traverse-member (suc fuel) queued [] found out x h = ground arith
  traverse-member (suc fuel) queued ((current, depth) ∷ pending) found out x h =
      elim (Result-cases (
        visit_within wanted_key wanted_texts current depth
          (record { pending = pending; queued = queued; found = found }))) [
            | inl (e, failed) ↦ absurd (ground (arith, failed))
            | inr (w, visited) ↦
                let ran : traverse wanted_key wanted_texts fuel w ≡ ok out =
                  rw (visited, traverse) at h in
                traverse-member fuel w.queued w.pending w.found out x ran
                ∙ reach-visit_within x current depth _ w visited
                ∙ pop (member x found) (occurs x current) (occurs_pending x pending)
          ]

or_false : (a : Bool) → (a || false) ≡ a
or_false a = ground arith

-- When `key_hits` returns, a text is among the hits exactly if it is one of the forbidden keys and is
-- a key at some depth of the value.
pub member-key_hits :
    (value : Json) (hits : List String) (x : String)
    → key_hits value ≡ ok hits
    → member x hits ≡ occurs (λ key. member key forbidden_keys) false x value
unfolding key_hits
member-key_hits value hits x h =
    traverse-member (λ key. member key forbidden_keys) false (suc max_nodes) 1 ((value, 0) ∷ []) []
      hits x h
    ∙ or_false _
