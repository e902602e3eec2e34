-- ===== src/Base/Results.antt =====
-- A call that returns, or that throws (a task) or reverts (a contract). The text is the message of
-- the source's error, or its name.
use Prim.Native.String.{String}
use mathlib.Core.Path.{◌≡◌, refl}
use mathlib.Core.Logic.{◌⊎◌, inl, inr}
use mathlib.Core.Bool.{Bool, true, false}
use mathlib.Core.Option.{Option, none, some}

pub data Outcome {ℓ} (A : Type ℓ) : Type ℓ where
  ok : A → Outcome A
  fail : String → Outcome A

-- `if (b) revert e;`
abbrev pub fail_if : Bool → String → Outcome (Unit {0})
fail_if false _ = ok tt
fail_if true message = fail message

module _ {ℓ} {A : Type ℓ} where
  -- `x!`, where the value is then used: `undefined` throws.
  abbrev pub present : Option A → Outcome A
  present (some value) = ok value
  present none = fail "TypeError: undefined"

  -- To split on a result and keep the equation.
  pub Outcome-cases : (m : Outcome A) → ((a : A) × (m ≡ ok a)) ⊎ ((e : String) × (m ≡ fail e))
  Outcome-cases (fail message) = inr (message, refl)
  Outcome-cases (ok value) = inl (value, refl)

  pub ok-injective : {x y : A} → ok x ≡ ok y → x ≡ y
  ok-injective same = cc

-- What comes after a call that threw is not run.
infixl 5 ◌>>=◌
abbrev pub ◌>>=◌ {ℓ κ} : {A : Type ℓ} {B : Type κ} → Outcome A → (A → Outcome B) → Outcome B
fail message >>= next = fail message
ok value >>= next = next value

pub >>=-eq-ok {ℓ κ} :
    {A : Type ℓ} {B : Type κ} (first : Outcome A) (next : A → Outcome B) {y : B}
    → (first >>= next) ≡ ok y
    → (x : A) × (first ≡ ok x) × (next x ≡ ok y)
>>=-eq-ok (fail message) next returned = cc
>>=-eq-ok (ok value) next returned = (value, refl, returned)

infixl 5 ◌>>◌
abbrev pub ◌>>◌ {ℓ} : {B : Type ℓ} → Outcome (Unit {0}) → Outcome B → Outcome B
check >> rest = check >>= λ _. rest

-- A call that returns
abbrev pub Succeeds {ℓ} : {A : Type ℓ} → Outcome A → Type ℓ
Succeeds m = (a : _) × (m ≡ ok a)

pub >>=-Succeeds {ℓ κ} :
    {A : Type ℓ} {B : Type κ} (first : Outcome A) (next : A → Outcome B) (s : Succeeds first)
    → Succeeds (next s.0)
    → Succeeds (first >>= next)
>>=-Succeeds first next (a, e) (b, h) = (b, rw e h)

pub >>=-ok {ℓ κ} :
    {A : Type ℓ} {B : Type κ} (first : Outcome A) (next : A → Outcome B) {x : A} {y : B}
    → first ≡ ok x
    → next x ≡ ok y
    → (first >>= next) ≡ ok y
>>=-ok first next e h = rw e h
