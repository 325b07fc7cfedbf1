-- ===== src/Base/Lists.antt =====
-- Lists over the native numbers: lengths, predicates, and Python's `in`, `set` and `dict.fromkeys`.
use Prim.Native.Nat.{ℕ, zero, suc, ◌+◌, ◌≤◌}
use Prim.Native.String.{String}
use mathlib.Core.Path.{◌≡◌, refl}
use mathlib.Core.Logic.{inl, inr}
use mathlib.Core.Bool.{Bool, true, false, not, ◌||◌}
use mathlib.Core.Option.{Option, none, some}
use mathlib.Core.List.{List, [], ◌∷◌, ◌++◌}
use native.Mathlib.Omega.{arith}
use text.Mathlib.TextEquality.{eq_iff}
use iclr.Base.Tests.{str_eq, ◌==◌, Bool-cases, if◌then◌else◌}

module _ {ℓ} {A : Type ℓ} where
  abbrev pub length : List A → ℕ
  length [] = 0
  length (x ∷ xs) = suc (length xs)

  abbrev pub get_elem? : List A → ℕ → Option A
  get_elem? [] i = none
  get_elem? (x ∷ xs) zero = some x
  get_elem? (x ∷ xs) (suc i) = get_elem? xs i

  pub length-append : (xs ys : List A) → length (xs ++ ys) ≡ length xs + length ys
  length-append [] ys = omega arith
  length-append (x ∷ xs) ys = omega (arith, length-append xs ys)

  -- `any(p(x) for x in xs)`
  abbrev pub any : (A → Bool) → List A → Bool
  any p [] = false
  any p (x ∷ xs) = p x || any p xs

  -- `[x for x in xs if p(x)]`
  abbrev pub select : (A → Bool) → List A → List A
  select p [] = []
  select p (x ∷ xs) = let rest = select p xs in if p x then x ∷ rest else rest

abbrev pub All {ℓ κ} : {A : Type ℓ} → (A → Type κ) → List A → Type κ
All P [] = Unit
All P (x ∷ xs) = P x × All P xs

pub All-append {ℓ κ} :
    {A : Type ℓ} (P : A → Type κ) (front back : List A)
    → All P front
    → All P back
    → All P (front ++ back)
All-append P [] back left right = right
All-append P (a ∷ front) back (pa, left) right = (pa, All-append P front back left right)

-- `all(p(x) for x in xs)`, as the code writes it.
pub any-All {ℓ} :
    {A : Type ℓ} (p : A → Bool) (xs : List A)
    → not (any (λ x. not (p x)) xs) ≡ true
    → All (λ x. p x ≡ true) xs
any-All p [] h = tt
any-All p (x ∷ xs) h = (ground arith, any-All p xs (ground arith))

pub All-map {ℓ κ} :
    {A : Type ℓ} (P Q : A → Type κ) (xs : List A) → ((x : A) → P x → Q x) → All P xs → All Q xs
All-map P Q [] f h = tt
All-map P Q (x ∷ xs) f (px, h) = (f x px, All-map P Q xs f h)

-- `x in xs`
abbrev pub member : String → List String → Bool
member x [] = false
member x (y ∷ ys) = str_eq y x || member x ys

-- No text stands twice.
abbrev pub IsUnique : List String → Type 0
IsUnique [] = Unit
IsUnique (x ∷ xs) = (member x xs ≡ false) × IsUnique xs

-- Every text of the first list stands in the second.
abbrev pub IsWithin : List String → List String → Type 0
IsWithin xs ys = (x : String) → member x xs ≡ true → member x ys ≡ true

pub member-append :
    (x : String) (xs ys : List String) → member x (xs ++ ys) ≡ (member x xs || member x ys)
member-append x [] ys = refl
member-append x (y ∷ xs) ys = ground (arith, member-append x xs ys)

-- `dict.fromkeys`: the first occurrence of each text, in order.
unfoldable pub dedup_from : List String → List String → List String
dedup_from seen [] = []
dedup_from seen (x ∷ xs) =
    let old = dedup_from seen xs in
    let new = x ∷ dedup_from (x ∷ seen) xs in if member x seen then old else new

abbrev pub dedup : List String → List String
dedup xs = dedup_from [] xs

-- `len(set(xs)) == len(xs)`
unfoldable pub is_unique : List String → Bool
is_unique xs = length (dedup xs) == length xs

pub length-dedup_from : (seen xs : List String) → length (dedup_from seen xs) ≤ length xs
unfolding dedup_from
length-dedup_from seen [] = omega arith
length-dedup_from seen (x ∷ xs) = elim (Bool-cases (member x seen)) [
  | inl h ↦ rw h (omega (arith, length-dedup_from seen xs))
  | inr h ↦ rw h (omega (arith, length-dedup_from (x ∷ seen) xs))
]

-- The members of the list are new to what was seen, and the list itself has no member twice.
dedup_from-fresh :
    (seen xs : List String)
    → length (dedup_from seen xs) ≡ length xs
    → IsUnique xs × ((y : String) → member y xs ≡ true → member y seen ≡ false)
unfolding dedup_from
dedup_from-fresh seen [] h = (tt, λ y m. cc)
dedup_from-fresh seen (x ∷ xs) h = elim (Bool-cases (member x seen)) [
  | inl old ↦ let k = rw old at h in absurd (omega (arith, length-dedup_from seen xs))
  | inr new ↦
      let k = rw new at h in
      let (unique, fresh) = dedup_from-fresh (x ∷ seen) xs (omega arith) in
      ((ground (arith, fresh x, eq_iff x x), unique), λ y m. ground (arith, fresh y, eq_iff x y))
]

-- The test by sets finds a list without repetition.
pub is_unique-IsUnique : (xs : List String) → is_unique xs ≡ true → IsUnique xs
unfolding is_unique
is_unique-IsUnique xs h = (dedup_from-fresh [] xs (ground arith)).0
