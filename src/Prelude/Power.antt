-- ===== src/Prelude/Power.antt =====
-- Powers of a radix, and how `/` and `%` by them take a number apart.
use Prim.Native.Nat.{ℕ, zero, suc, ◌+◌, ◌-◌, ◌*◌, ◌/◌, ◌%◌, ◌^◌, ◌≤◌, ◌<◌}
use mathlib.Core.Path.{◌≡◌, ap, ◌∙◌}
use mathlib.Core.Logic.{◌↔◌}
use native.Mathlib.Decide.{dec_lt}
use native.Mathlib.Omega.{arith}
use native.Mathlib.Nat.{
  pow-suc, pow-zero, pow-le-pow_right, pow-le-pow_left, one-le-pow, le-div_iff_mul-le,
  div-lt_iff_lt-mul, mul-div_cancel, mod-lt, div-add-mod',
}

module _ (r : ℕ) (r2 : 2 ≤ r) where
  pub pow_pos : (n : ℕ) → 1 ≤ r ^ n
  pow_pos n = one-le-pow n r (omega arith)

  pub pow_mono : (m n : ℕ) → m ≤ n → r ^ m ≤ r ^ n
  pow_mono m n h = pow-le-pow_right (omega arith) h

  -- A power grows by at least a factor of two at each step.
  pub pow_double : (n : ℕ) → 2 * r ^ n ≤ r ^ suc n
  pow_double n = rw pow-suc (grind arith)

  pub lt_pow : (n : ℕ) → n < r ^ n
  lt_pow zero = rw pow-zero (omega arith)
  lt_pow (suc n) = omega (arith, lt_pow n, pow_double n)

  pub pow-div : (n : ℕ) → r ^ suc n / r ≡ r ^ n
  pow-div n = rw pow-suc (mul-div_cancel (r ^ n) (omega arith))

  pub le-div : (b u : ℕ) → (b ≤ u / r) ↔ (b * r ≤ u)
  le-div b u = le-div_iff_mul-le (omega arith)

  -- A leading digit is below the radix.
  pub div-pow-lt : (n v : ℕ) → v < r ^ suc n → v / r ^ n < r
  div-pow-lt n v h =
      (div-lt_iff_lt-mul {k = r ^ n} {x = v} {y = r} (pow_pos n)).1 (omega (arith, pow-suc r n))

  pub mod-pow-lt : (n v : ℕ) → v % r ^ n < r ^ n
  mod-pow-lt n v = mod-lt v (pow_pos n)

  pub div-mod-pow : (n v : ℕ) → v / r ^ n * r ^ n + v % r ^ n ≡ v
  div-mod-pow n v = div-add-mod' v (r ^ n)

  pub div-pow_pos : (n v : ℕ) → r ^ n ≤ v → 1 ≤ v / r ^ n
  div-pow_pos n v h = (le-div_iff_mul-le {k = r ^ n} {x = 1} {y = v} (pow_pos n)).1 (omega arith)

  -- Every positive number lies between two neighbouring powers.
  pub between_powers :
      (k v : ℕ) → 1 ≤ v → v < r ^ k → (m : ℕ) × (m < k) × (r ^ m ≤ v) × (v < r ^ suc m)
  between_powers zero v lo hi = absurd (omega (arith, pow-zero r))
  between_powers (suc k) v lo hi = elim (dec_lt v (r ^ k)) [
    | yes p ↦ let (m, lt, a, b) = between_powers k v lo p in (m, omega arith, a, b)
    | no p ↦ (k, omega arith, omega arith, hi)
  ]

  -- A power that a 64-bit word holds has an exponent below 64.
  pub exponent_lt : (k m v : ℕ) → r ^ m ≤ v → v < 2 ^ k → m < k
  exponent_lt k m v lo hi = elim (dec_lt m k) [
    | yes p ↦ p
    | no p ↦ absurd (
        omega (
          arith,
          pow-le-pow_right {n = 2} (omega arith) {i = k} {j = m} (omega arith),
          pow-le-pow_left {n = 2} {m = r} r2 m,
        ))
  ]

  pub pow-div_pred : (n : ℕ) → 1 ≤ n → r ^ n / r ≡ r ^ (n - 1)
  pow-div_pred zero h = absurd (omega arith)
  pow-div_pred (suc n) h = pow-div n ∙ ap (λ k. r ^ k) (omega arith)

  -- Exponents compare as the powers do.
  pub lt_of_pow-lt : (a b : ℕ) → r ^ a < r ^ b → a < b
  lt_of_pow-lt a b h = elim (dec_lt a b) [
    | yes p ↦ p
    | no p ↦ absurd (omega (arith, pow_mono b a (omega arith)))
  ]

  pub word_lt_pow : (k v : ℕ) → v < 2 ^ k → v < r ^ k
  word_lt_pow k v h = omega (arith, pow-le-pow_left {n = 2} {m = r} r2 k)
