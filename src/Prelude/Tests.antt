-- ===== src/Prelude/Tests.antt =====
-- Boolean tests on the native numbers, the conditional, and equality as an interface.
use Prim.Native.Nat.{ℕ, ◌<◌, compare, Ordering}
use mathlib.Core.Path.{◌≡◌, refl}
use mathlib.Core.Logic.{◌↔◌, ◌⊎◌, inl, inr}
use mathlib.Core.Bool.{Bool, true, false}
use mathlib.Core.Option.{Option, none, some}
use native.Mathlib.Omega.{arith}

abbrev pub ltb : ℕ → ℕ → Bool
ltb a b = elim (compare a b) [ Ordering.lt ↦ true | _ ↦ false ]

abbrev pub leb : ℕ → ℕ → Bool
leb a b = elim (compare a b) [ Ordering.gt ↦ false | _ ↦ true ]

infix 50 ◌=ℕ◌
abbrev pub ◌=ℕ◌ : ℕ → ℕ → Bool
a =ℕ b = elim (compare a b) [ Ordering.eq ↦ true | _ ↦ false ]

pub =ℕ_iff : (a b : ℕ) → ((a =ℕ b) ≡ true) ↔ (a ≡ b)
=ℕ_iff a b = ground arith

infix 1 if◌then◌else◌
abbrev pub if◌then◌else◌ {ℓ} : {A : Type ℓ} → Bool → A → A → A
if true then x else y = x
if false then x else y = y

pub ltb→lt : (a b : ℕ) → ltb a b ≡ true → a < b
ltb→lt a b h = ground arith

pub lt→ltb : (a b : ℕ) → a < b → ltb a b ≡ true
lt→ltb a b h = ground arith

-- To split on a computed value and keep the equation.
pub Bool-cases : (b : Bool) → (b ≡ true) ⊎ (b ≡ false)
Bool-cases true = inl refl
Bool-cases false = inr refl

pub Option-cases {ℓ} : {A : Type ℓ} (o : Option A) → (o ≡ none) ⊎ ((a : A) × (o ≡ some a))
Option-cases none = inl refl
Option-cases (some a) = inr (a, refl)

-- `a === b` at a type whose values are compared by content.
pub record JsEqual {ℓ} (A : Type ℓ) : Type ℓ where
  pub equals : A → A → Bool
  pub equals_iff : (a a' : A) → (equals a a' ≡ true) ↔ (a ≡ a')

infix 50 ◌==◌
abbrev pub ◌==◌ {ℓ} : {A : Type ℓ} ⦃comparison : JsEqual A⦄ (x y : A) → Bool
◌==◌ ⦃comparison⦄ x y = comparison.equals x y

pub ==_refl {ℓ} : {A : Type ℓ} ⦃comparison : JsEqual A⦄ (x : A) → (x == x) ≡ true
==_refl ⦃comparison⦄ x = (comparison.equals_iff x x).1 refl

instance abbrev pub nat_eq : JsEqual ℕ
nat_eq = record { equals = ◌=ℕ◌; equals_iff = =ℕ_iff }

abbrev pub option_beq {ℓ} : {A : Type ℓ} → JsEqual A → Option A → Option A → Bool
option_beq e none none = true
option_beq e (some a) (some b) = e.equals a b
option_beq e _ _ = false

pub option_beq_iff {ℓ} :
    {A : Type ℓ} (e : JsEqual A) (a b : Option A) → (option_beq e a b ≡ true) ↔ (a ≡ b)
option_beq_iff e none none = (λ _. refl, λ _. refl)
option_beq_iff e none (some b) = (λ h. cc, λ h. cc)
option_beq_iff e (some a) none = (λ h. cc, λ h. cc)
option_beq_iff e (some a) (some b) =
    (λ h. cc ((e.equals_iff a b).0 h), λ h. (e.equals_iff a b).1 (cc))

-- `null === null`, and otherwise by content.
instance abbrev pub option_eq {ℓ} : {A : Type ℓ} ⦃e : JsEqual A⦄ → JsEqual (Option A)
option_eq ⦃e⦄ = record { equals = option_beq e; equals_iff = option_beq_iff e }
