-- ===== src/Base/Number.antt =====
-- What the program uses of Python's floats, as an interface: an order and three operations, with the
-- laws that IEEE arithmetic with rounding keeps on the finite values.
use Prim.Native.Nat.{ℕ}
use mathlib.Core.Path.{◌≡◌}
use mathlib.Core.Bool.{Bool, true, not}
use mathlib.Core.Option.{Option, none, some}
use mathlib.Core.List.{List, [], ◌∷◌}
use mathlib.Core.Logic.{◌⊎◌}
use local_network_kafka_moni.Base.Tests.{if◌then◌else◌}

pub record Number (R : Type 0) : Type 0 where
  pub leb : R → R → Bool
  pub of_ℕ : ℕ → R
  pub neg : R → R
  pub half : R
  pub three_quarters : R
  pub quarter : R
  pub add : R → R → R
  pub mul : R → R → R
  pub leb_refl : (a : R) → leb a a ≡ true
  pub leb_trans : (a b c : R) → leb a b ≡ true → leb b c ≡ true → leb a c ≡ true
  pub leb_total : (a b : R) → (leb a b ≡ true) ⊎ (leb b a ≡ true)
  pub of_ℕ_nonneg : (n : ℕ) → leb (of_ℕ 0) (of_ℕ n) ≡ true
  pub quarter_nonneg : leb (of_ℕ 0) quarter ≡ true
  pub add_mono : (a b c d : R) → leb a b ≡ true → leb c d ≡ true → leb (add a c) (add b d) ≡ true
  pub le-add : (a b : R) → leb (of_ℕ 0) b ≡ true → leb a (add a b) ≡ true
  pub mul_nonneg :
      (a b : R) → leb (of_ℕ 0) a ≡ true → leb (of_ℕ 0) b ≡ true → leb (of_ℕ 0) (mul a b) ≡ true
  pub mul_mono :
      (a b c d : R)
      → leb (of_ℕ 0) a ≡ true
      → leb (of_ℕ 0) c ≡ true
      → leb a b ≡ true
      → leb c d ≡ true
      → leb (mul a c) (mul b d) ≡ true
  pub mul_one : (a : R) → mul a (of_ℕ 1) ≡ a

module _ {R : Type 0} ⦃num : Number R⦄ where
  -- `a < b` on finite values.
  abbrev pub lt : R → R → Bool
  lt a b = not (num.leb b a)

  abbrev pub maximum_from : R → List R → R
  maximum_from a [] = a
  maximum_from a (b ∷ bs) = maximum_from (if num.leb b a then a else b) bs

  -- `max(values, default=None)`: the first of the greatest values.
  abbrev pub maximum : List R → Option R
  maximum [] = none
  maximum (a ∷ as') = some (maximum_from a as')

  -- `min(a, b)` and `max(a, b)`: the first argument where they compare equal.
  abbrev pub min_of : R → R → R
  min_of a b = if num.leb a b then a else b

  abbrev pub max_of : R → R → R
  max_of a b = if num.leb b a then a else b
