-- ===== src/Base/Eq.antt =====
-- Python's `==` on the values that the program compares: numbers, texts, and optional values.
use Prim.Native.Nat.{ℕ}
use Prim.Native.String.{String}
use mathlib.Core.Path.{◌≡◌}
use mathlib.Core.Logic.{◌↔◌}
use mathlib.Core.Bool.{Bool, true, false}
use mathlib.Core.Option.{Option, none, some}
use native.Mathlib.Omega.{arith}
use text.Mathlib.Text.{◌==◌ as string_beq}
use text.Mathlib.TextEquality.{eq_iff}
use model_runner_client.Base.Tests.{nat_beq, nat_beq_iff}

-- Types with a Boolean test for equal values.
pub record Equality {ℓ} (V : Type ℓ) : Type ℓ where
  pub test : V → V → Bool
  pub test_iff : (x y : V) → (test x y ≡ true) ↔ (x ≡ y)

-- `None` is equal to itself only.
abbrev pub option_beq {ℓ} : {V : Type ℓ} → Equality V → Option V → Option V → Bool
option_beq e none none = true
option_beq e (some x) none = false
option_beq e none (some y) = false
option_beq e (some x) (some y) = e.test x y

pub option_beq_iff {ℓ} :
    {V : Type ℓ} (e : Equality V) (x y : Option V) → (option_beq e x y ≡ true) ↔ (x ≡ y)
option_beq_iff e none none = ground arith
option_beq_iff e (some x) none = ground arith
option_beq_iff e none (some y) = ground arith
option_beq_iff e (some x) (some y) = ground (arith, e.test_iff x y)

instance abbrev pub string_equality : Equality String
string_equality = record { test = string_beq; test_iff = eq_iff }

instance abbrev pub nat_equality : Equality ℕ
nat_equality = record { test = nat_beq; test_iff = nat_beq_iff }

instance abbrev pub option_equality {ℓ} : {V : Type ℓ} ⦃e : Equality V⦄ → Equality (Option V)
option_equality ⦃e⦄ = record { test = option_beq e; test_iff = option_beq_iff e }

infix 50 ◌==◌
abbrev pub ◌==◌ {ℓ} : {V : Type ℓ} ⦃e : Equality V⦄ → V → V → Bool
◌==◌ ⦃e⦄ x y = e.test x y
