-- ===== src/Base/Tests.antt =====
-- Boolean tests on the native numbers, the conditional, and the interface of `==`.
use Prim.Native.Nat.{ℕ, ◌≤◌, ◌<◌, compare, Ordering}
use mathlib.Core.Path.{◌≡◌, refl}
use mathlib.Core.Logic.{◌⊎◌, inl, inr}
use mathlib.Core.Bool.{Bool, true, false, ◌&&◌}
use mathlib.Core.Option.{Option, none, some}
use native.Mathlib.Omega.{arith}

abbrev pub ltb : ℕ → ℕ → Bool
ltb a b = elim (compare a b) [ Ordering.lt ↦ true | _ ↦ false ]

abbrev pub leb : ℕ → ℕ → Bool
leb a b = elim (compare a b) [ Ordering.gt ↦ false | _ ↦ true ]

abbrev pub nat_eqb : ℕ → ℕ → Bool
nat_eqb a b = elim (compare a b) [ Ordering.eq ↦ true | _ ↦ false ]

infix 1 if◌then◌else◌
abbrev pub if◌then◌else◌ {ℓ} : {A : Type ℓ} → Bool → A → A → A
if true then x else y = x
if false then x else y = y

pub Bool-cases : (b : Bool) → (b ≡ true) ⊎ (b ≡ false)
Bool-cases true = inl refl
Bool-cases false = inr refl

-- The branch that a test takes.
pub if_true {ℓ} :
    {A : Type ℓ} (t : Bool) (a b : A) {c : A} → t ≡ true → (if t then a else b) ≡ c → a ≡ c
if_true true a b h k = k
if_true false a b h k = cc

pub if_false {ℓ} :
    {A : Type ℓ} (t : Bool) (a b : A) {c : A} → t ≡ false → (if t then a else b) ≡ c → b ≡ c
if_false true a b h k = cc
if_false false a b h k = k

pub Option-cases {ℓ} : {A : Type ℓ} (o : Option A) → (o ≡ none) ⊎ ((a : A) × (o ≡ some a))
Option-cases none = inl refl
Option-cases (some a) = inr (a, refl)

pub and_both : (a b : Bool) → (a && b) ≡ true → (a ≡ true) × (b ≡ true)
and_both true b h = (refl, h)
and_both false b h = cc

-- Rust's `PartialEq` on a type where `==` decides equality.
pub record Eq {ℓ} (A : Type ℓ) : Type ℓ where
  pub eqb : A → A → Bool
  pub sound : (a b : A) → eqb a b ≡ true → a ≡ b
  pub reflexive : (a : A) → eqb a a ≡ true

infix 50 ◌==◌
abbrev pub ◌==◌ {ℓ} : {A : Type ℓ} ⦃e : Eq A⦄ → A → A → Bool
◌==◌ ⦃e⦄ = e.eqb

pub nat_sound : (a b : ℕ) → nat_eqb a b ≡ true → a ≡ b
nat_sound a b h = ground arith

pub nat-reflexive : (a : ℕ) → nat_eqb a a ≡ true
nat-reflexive a = ground arith

instance abbrev pub nat_eq : Eq ℕ
nat_eq = record { eqb = nat_eqb; sound = nat_sound; reflexive = nat-reflexive }

-- `omega` reads a test through these.
pub leb→le : (a b : ℕ) → leb a b ≡ true → a ≤ b
leb→le a b h = ground arith

pub leb→gt : (a b : ℕ) → leb a b ≡ false → b < a
leb→gt a b h = ground arith
