-- ===== src/Common/Tests.antt =====
-- Boolean tests on the native numbers, the conditional, and splits on a computed value.
use Prim.Native.Nat.{ℕ, ◌≤◌, ◌<◌, compare, Ordering}
use mathlib.Core.Path.{◌≡◌, refl, ap}
use mathlib.Core.Logic.{◌↔◌, ◌⊎◌, inl, inr}
use mathlib.Core.Bool.{Bool, true, false}
use mathlib.Core.Option.{Option, none, some}
use native.Mathlib.Omega.{arith}

abbrev pub ltb : ℕ → ℕ → Bool
ltb a b = elim (compare a b) [ Ordering.lt ↦ true | _ ↦ false ]

abbrev pub leb : ℕ → ℕ → Bool
leb a b = elim (compare a b) [ Ordering.gt ↦ false | _ ↦ true ]

infix 50 ◌==◌
abbrev pub ◌==◌ : ℕ → ℕ → Bool
a == b = elim (compare a b) [ Ordering.eq ↦ true | _ ↦ false ]

infix 1 if◌then◌else◌
abbrev pub if◌then◌else◌ {ℓ} : {A : Type ℓ} → Bool → A → A → A
if true then x else y = x
if false then x else y = y

pub ltb→lt : (a b : ℕ) → ltb a b ≡ true → a < b
ltb→lt a b h = ground arith

pub lt→ltb : (a b : ℕ) → a < b → ltb a b ≡ true
lt→ltb a b h = ground arith

pub leb→le : (a b : ℕ) → leb a b ≡ true → a ≤ b
leb→le a b h = ground arith

pub ==_iff : (a b : ℕ) → ((a == b) ≡ true) ↔ (a ≡ b)
==_iff a b = ground arith

pub eq_refl : (n : ℕ) → (n == n) ≡ true
eq_refl n = ground arith

pub Bool-cases : (b : Bool) → (b ≡ true) ⊎ (b ≡ false)
Bool-cases true = inl refl
Bool-cases false = inr refl

pub Option-cases {ℓ} : {A : Type ℓ} (o : Option A) → (o ≡ none) ⊎ ((a : A) × (o ≡ some a))
Option-cases none = inl refl
Option-cases (some a) = inr (a, refl)

module _ {ℓ} {A : Type ℓ} where
  -- `o is None`
  abbrev pub is_none : Option A → Bool
  is_none none = true
  is_none (some a) = false

  -- `d.get(k, default)`, after the lookup.
  abbrev pub get_or : Option A → A → A
  get_or none d = d
  get_or (some a) d = a

  pub some_injective : {a b : A} → some a ≡ some b → a ≡ b
  some_injective {a} e = ap (λ o. get_or o a) e

  -- What a guarded result says.
  pub if-some :
      (test : Bool) (a b : A) → (if test then some a else none) ≡ some b → (test ≡ true) × (a ≡ b)
  if-some true a b e = (refl, some_injective e)
  if-some false a b e = cc

  pub if-option :
      (test : Bool) (o : Option A) (a : A)
      → (if test then o else none) ≡ some a
      → (test ≡ true) × (o ≡ some a)
  if-option true o a e = (refl, e)
  if-option false o a e = cc
