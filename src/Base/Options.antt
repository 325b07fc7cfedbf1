-- ===== src/Base/Options.antt =====
-- Chains of steps that may fail with nothing to say.
use mathlib.Core.Bool.{Bool, true, false}
use mathlib.Core.Option.{Option, none, some, some-injective}
use iclr.Base.Tests.{is_none}
use mathlib.Core.Path.{◌≡◌, refl, subst}

infixl 5 ◌>>=◌ ◌>>◌
abbrev pub ◌>>=◌ {ℓ κ} : {A : Type ℓ} {B : Type κ} → Option A → (A → Option B) → Option B
none >>= f = none
some a >>= f = f a

abbrev pub ◌>>◌ {ℓ} : {B : Type ℓ} → Option (Unit {0}) → Option B → Option B
m >> k = m >>= λ _. k

abbrev pub guard : Bool → Option (Unit {0})
guard true = some tt
guard false = none

-- `value if value is not None else default`
abbrev pub or_default {ℓ} : {A : Type ℓ} → Option A → A → A
or_default none a = a
or_default (some a) _ = a

-- A value that is there, with the equation that says so.
unfoldable pub some_of {ℓ} :
    {A : Type ℓ} (m : Option A) → is_none m ≡ false → (a : A) × (m ≡ some a)
some_of none h = cc
some_of (some a) h = (a, refl)

-- A chain that returned: its first part returned, and the rest did.
pub >>=-eq-some {ℓ κ} :
    {A : Type ℓ} {B : Type κ} (m : Option A) (f : A → Option B) {b : B}
    → (m >>= f) ≡ some b
    → (a : A) × (m ≡ some a) × (f a ≡ some b)
>>=-eq-some none f h = cc
>>=-eq-some (some a) f h = (a, refl, h)

pub guard-eq-some {ℓ} :
    {B : Type ℓ} (test : Bool) (m : Option B) {b : B}
    → (guard test >> m) ≡ some b
    → (test ≡ true) × (m ≡ some b)
guard-eq-some true m h = (refl, h)
guard-eq-some false m h = cc

-- Whatever the chain returns satisfies `P`.
pub record Ensures {A : Type 0} (P : A → Type 0) (m : Option A) : Type 0 where
  pub at : (a : A) → m ≡ some a → P a

module _ {A : Type 0} {P : A → Type 0} where
  pub Ensures-some : (a : A) → P a → Ensures P (some a)
  Ensures-some a p = record { at = λ b e. subst P (some-injective _ _ e) p }

  pub Ensures-none : Ensures P none
  Ensures-none = record { at = λ b e. cc }

  pub Ensures-bind :
      {B : Type 0} (m : Option B) (f : B → Option A)
      → ((b : B) → m ≡ some b → Ensures P (f b))
      → Ensures P (m >>= f)
  Ensures-bind none f h = Ensures-none
  Ensures-bind (some b) f h = h b refl

  -- The rest of a chain may use the test that it passed.
  pub Ensures-guard :
      (b : Bool) (m : Option A) → (b ≡ true → Ensures P m) → Ensures P (guard b >> m)
  Ensures-guard true m h = h refl
  Ensures-guard false m h = Ensures-none

pub ruleset ensures_rules = (Ensures-guard, Ensures-bind, Ensures-some, Ensures-none)
