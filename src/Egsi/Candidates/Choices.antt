-- ===== src/Egsi/Candidates/Choices.antt =====
-- The candidates of a step are all the operations, each once, whichever was selected.
use iclr.Base.{
  String, ◌≡◌, refl, inl, inr, true, false, not, some, List, [], ◌∷◌, map, select, member, IsUnique,
  is_unique, is_unique-IsUnique, dedup_from, str_eq, eq_iff, arith, Bool-cases, Option-cases,
}
use mathlib.Core.List.{Perm}
use mathlib.Core.List.Perm
use iclr.Base.Texts.{text_le}
use iclr.Egsi.Candidates.Actions.{Action, Library, base_action, make_action}
use iclr.Egsi.Candidates.Compile.{operations_of, insert_action, sort_actions, make_actions}
use iclr.Egsi.Candidates.Profile.{alternatives}
use iclr.Egsi.Candidates.Steps.{Text, CanonicalPolicyStep}

abbrev without : String → List String → List String
without x xs = select (λ other. not (str_eq other x)) xs

without_absent : (x : String) (xs : List String) → member x xs ≡ false → without x xs ≡ xs
without_absent x [] h = refl
without_absent x (y ∷ xs) h = ground (arith, without_absent x xs)

cons-without-perm :
    (x : String) (xs : List String) → member x xs ≡ true → IsUnique xs → Perm (x ∷ without x xs) xs
cons-without-perm x [] h u = cc
cons-without-perm x (y ∷ xs) h u = elim (Bool-cases (str_eq y x)) [
  | inl same ↦
      let e : y ≡ x = (eq_iff y x).0 same in
      let absent : member x xs ≡ false = rw (← e) (u.0) in
      rw (same, without_absent x xs absent, e) (Perm.refl _)
  | inr other ↦ rw other (
      Perm.trans (Perm.swap _ _ _)
        (Perm.cons y (cons-without-perm x xs (ground (arith, other)) u.1)))
]

alternatives-IsUnique : IsUnique alternatives
unfolding alternatives is_unique dedup_from
alternatives-IsUnique = is_unique-IsUnique alternatives refl

-- The operations that are tried are the alternatives, in another order.
operations_of-perm :
    (operation : String)
    → member operation alternatives ≡ true
    → Perm (operations_of operation) alternatives
unfolding operations_of
operations_of-perm operation h = cons-without-perm operation alternatives h alternatives-IsUnique

abbrev pub operation_of : Action → String
operation_of a = a.base.operation

module _ (lib : Library) where
  insert_action-perm :
      (a : Action) (actions : List Action) → Perm (insert_action lib a actions) (a ∷ actions)
  unfolding insert_action
  insert_action-perm a [] = Perm.refl _
  insert_action-perm a (b ∷ actions) =
      elim (Bool-cases (text_le (lib.ordering_key a.base) (lib.ordering_key b.base))) [
        | inl first ↦ rw first (Perm.refl _)
        | inr after ↦
            rw after (Perm.trans (Perm.cons b (insert_action-perm a actions)) (Perm.swap _ _ _))
      ]

  pub sort_actions-perm : (actions : List Action) → Perm (sort_actions lib actions) actions
  unfolding sort_actions
  sort_actions-perm [] = Perm.refl _
  sort_actions-perm (a ∷ actions) =
      Perm.trans (insert_action-perm a (sort_actions lib actions))
        (Perm.cons a (sort_actions-perm actions))

  make_action-operation :
      (case_id episode_id branch_id : Text) (step : CanonicalPolicyStep) (operation : String)
      (a : Action)
      → make_action lib case_id episode_id branch_id step operation ≡ some a
      → operation_of a ≡ operation
  unfolding make_action base_action
  make_action-operation case_id episode_id branch_id step operation a h = ground arith

  make_actions-operations :
      (case_id episode_id branch_id : Text) (step : CanonicalPolicyStep) (operations : List String)
      (actions : List Action)
      → make_actions lib case_id episode_id branch_id step operations ≡ some actions
      → map operation_of actions ≡ operations
  unfolding make_actions
  make_actions-operations case_id episode_id branch_id step [] actions h = ground arith
  make_actions-operations case_id episode_id branch_id step (operation ∷ operations) actions h =
      elim (Option-cases (make_action lib case_id episode_id branch_id step operation)) [
        | inl e ↦ absurd (ground (arith, e))
        | inr (a, e) ↦
            elim (Option-cases (make_actions lib case_id episode_id branch_id step operations)) [
              | inl e' ↦ absurd (ground (arith, e, e'))
              | inr (rest, e') ↦
                  let same : (a ∷ rest) ≡ actions = ground (arith, e, e') in
                  rw (← same) (
                    cc (
                      make_action-operation case_id episode_id branch_id step operation a e,
                      make_actions-operations case_id episode_id branch_id step operations rest e',
                    ))
            ]
      ]

  -- Every alternative is the operation of exactly one compiled action, whichever was selected.
  pub sort_actions-operations :
      (case_id episode_id branch_id : Text) (step : CanonicalPolicyStep) (actions : List Action)
      → member step.operation alternatives ≡ true
      → make_actions lib case_id episode_id branch_id step (operations_of step.operation)
        ≡ some actions
      → Perm (map operation_of (sort_actions lib actions)) alternatives
  sort_actions-operations case_id episode_id branch_id step actions known h =
      Perm.trans (Perm.map operation_of (sort_actions-perm actions)) (
        rw
          (make_actions-operations case_id episode_id branch_id step (operations_of step.operation)
            actions h)
          (operations_of-perm step.operation known))
