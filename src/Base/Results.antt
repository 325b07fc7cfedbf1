-- ===== src/Base/Results.antt =====
-- Code that raises: a value or an error, and the same beside a state that outlives the error.
use mathlib.Core.Path.{◌≡◌, refl, subst}
use mathlib.Core.Logic.{◌⊎◌, inl, inr}
use mathlib.Core.Bool.{Bool, true, false}
use mathlib.Core.Option.{Option, none, some}

pub data Result {ℓ} (E : Type ℓ) (A : Type ℓ) : Type ℓ where
  ok : A → Result E A
  err : E → Result E A

-- To split on a computed result and keep the equation.
pub Result-cases {ℓ} :
    {E A : Type ℓ} (r : Result E A) → ((e : E) × (r ≡ err e)) ⊎ ((a : A) × (r ≡ ok a))
Result-cases (ok a) = inr (a, refl)
Result-cases (err e) = inl (e, refl)

abbrev pub is_ok {ℓ} : {E A : Type ℓ} → Result E A → Bool
is_ok (ok a) = true
is_ok (err e) = false

-- The value or the error of a computed result, with the equation that says so.
pub ok_of {ℓ} : {E A : Type ℓ} (r : Result E A) → is_ok r ≡ true → (a : A) × (r ≡ ok a)
ok_of (ok a) h = (a, refl)
ok_of (err e) h = cc

pub err_of {ℓ} : {E A : Type ℓ} (r : Result E A) → is_ok r ≡ false → (e : E) × (r ≡ err e)
err_of (ok a) h = cc
err_of (err e) h = (e, refl)

module _ {ℓ} {E A B : Type ℓ} where
  infixl 5 ◌>>=◌
  abbrev pub ◌>>=◌ : Result E A → (A → Result E B) → Result E B
  ok a >>= f = f a
  err e >>= f = err e

infixl 5 ◌>>◌
abbrev pub ◌>>◌ : {E B : Type 0} → Result E Unit → Result E B → Result E B
m >> k = m >>= λ _. k

-- `if test: raise e`
abbrev pub raise_if : {E : Type 0} → Bool → E → Result E Unit
raise_if true e = err e
raise_if false e = ok tt

abbrev pub or_raise {ℓ} : {E A : Type ℓ} → Option A → E → Result E A
or_raise none e = err e
or_raise (some a) e = ok a

-- Whatever the chain returns satisfies `P`.
pub record Returns {E A : Type 0} (P : A → Type 0) (m : Result E A) : Type 0 where
  pub at : (a : A) → m ≡ ok a → P a

abbrev pub returned : (E : Type 0) {A : Type 0} → A → Result E A
returned E a = ok a

ok-injective : {E A : Type 0} (a b : A) → ◌≡◌ {A = Result E A} (ok a) (ok b) → a ≡ b
ok-injective a b e = cc

module _ {E A : Type 0} {P : A → Type 0} where
  pub Returns-ok : (a : A) → P a → Returns P (returned E a)
  Returns-ok a p = record { at = λ b e. subst P (ok-injective {E = E} a b e) p }

  pub Returns-bind :
      {B : Type 0} (m : Result E B) (f : B → Result E A)
      → ((b : B) → m ≡ ok b → Returns P (f b))
      → Returns P (m >>= f)
  Returns-bind (ok b) f h = h b refl
  Returns-bind (err e) f h = record { at = λ a q. cc }
