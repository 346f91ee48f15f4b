-- ===== src/Conversions/Loops.antt =====
-- The loops of src/conversions.c end within the fuel given, without a wrap-around.
use freestanding_custom_c_li.Prelude.{
  ℕ, zero, suc, ◌+◌, ◌*◌, ◌/◌, ◌%◌, ◌^◌, ◌≤◌, ◌<◌, ◌≡◌, arith, ap, leb-false, leb_iff,
}
use freestanding_custom_c_li.Prelude.Power.{pow_mono, le-div, pow_pos}
use freestanding_custom_c_li.Conversions.{count_digits, pow_loop, top_power}
use native.Mathlib.Decide.{dec_lt}
use native.Mathlib.Nat.{pow-zero, pow-suc, div-lt_iff_lt-mul}

module _ (r : ℕ) (r2 : 2 ≤ r) where
  div-lt-pow : (n v : ℕ) → v < r ^ suc n → v / r < r ^ n
  div-lt-pow n v h =
      (div-lt_iff_lt-mul {k = r} {x = v} {y = r ^ n} (omega arith)).1 (omega (arith, pow-suc r n))

  pow-le-div : (n v : ℕ) → r ^ suc n ≤ v → r ^ n ≤ v / r
  pow-le-div n v h = (le-div r r2 (r ^ n) v).1 (omega (arith, pow-suc r n))

  -- The digit count is exact: one more than the exponent of the power below.
  pub count_digits-pow :
      (fuel m v d : ℕ)
      → m + 1 < fuel
      → r ^ m ≤ v
      → v < r ^ suc m
      → d + m + 1 < 2 ^ 32
      → count_digits r fuel v d ≡ d + m + 1
  unfolding count_digits
  count_digits-pow zero m v d f lo hi s = absurd (omega arith)
  count_digits-pow (suc zero) m v d f lo hi s = absurd (omega arith)
  count_digits-pow (suc (suc fuel)) zero v d f lo hi s =
      ground (arith, pow-zero r, div-lt-pow 0 v hi)
  count_digits-pow (suc (suc fuel)) (suc m) v d f lo hi s = ground (
    arith,
    pow_pos r r2 (suc m),
    count_digits-pow (suc fuel) m (v / r) (d + 1) (omega arith) (pow-le-div m v lo)
        (div-lt-pow (suc m) v hi),
  )

  -- Where the power fits a word, the product loop computes it.
  pub pow_loop-pow : (n j : ℕ) → r ^ (j + n) < 2 ^ 64 → pow_loop r n (r ^ j) ≡ r ^ (j + n)
  unfolding pow_loop
  pow_loop-pow zero j h = ap (λ k. r ^ k) (omega arith)
  pow_loop-pow (suc n) j h =
      let fits : r ^ suc j < 2 ^ 64 =
        omega (arith, pow_mono r r2 (suc j) (j + suc n) (omega arith)) in
      let step : r ^ j * r % 2 ^ 64 ≡ r ^ suc j = omega (arith, pow-suc r j) in
      let shift : suc j + n ≡ j + suc n = omega arith in
      rw step (rw (← shift) (pow_loop-pow n (suc j) (rw shift h)))

  -- The power loop stops at the highest power that is at most `u`.
  pub top_power-pow :
      (fuel m u j : ℕ)
      → j ≤ m
      → m < j + fuel
      → r ^ m ≤ u
      → u < r ^ suc m
      → u < 2 ^ 64
      → m < 2 ^ 32
      → top_power r fuel u (r ^ j) j ≡ (r ^ m, m)
  unfolding top_power
  top_power-pow zero m u j le f lo hi w s = absurd (omega arith)
  top_power-pow (suc fuel) m u j le f lo hi w s = elim (dec_lt j m) [
    | yes lt ↦
        let up : r ^ j * r ≤ u =
          omega (arith, pow-suc r j, pow_mono r r2 (suc j) m (omega arith)) in
        let step : r ^ j * r % 2 ^ 64 ≡ r ^ suc j = omega (arith, pow-suc r j) in
        let next : (j + 1) % 2 ^ 32 ≡ suc j = omega arith in
        rw ((leb_iff (r ^ j) (u / r)).1 ((le-div r r2 (r ^ j) u).1 up), step, next)
          (top_power-pow fuel m u (suc j) (omega arith) (omega arith) lo hi w s)
    | no ge ↦
        let e : j ≡ m = omega arith in
        let over : u / r < r ^ j = div-lt-pow j u (rw e hi) in
        rw (leb-false (r ^ j) (u / r) over, e)
  ]
