-- ===== src/Printf/Decimal/Bignum.antt =====
-- The big integers of `fp_to_decimal` (src/stdio.c) by their values.
use freestanding_custom_c_li.Prelude.{
  ℕ, zero, suc, ◌+◌, ◌-◌, ◌*◌, ◌%◌, ◌/◌, ◌^◌, ◌≤◌, ◌<◌, ◌≡◌, refl, ap, sym, ◌∙◌, List, [], ◌∷◌,
  arith, ==_false, leb_iff, leb-false,
}
use freestanding_custom_c_li.Printf.Decimal.{
  big_base, push_loop, mul_loop, fp_big_mul, strip_loop, scale_two, five_loop, scale_five,
}
use native.Mathlib.Decide.{dec_lt, dec_le}
use freestanding_custom_c_li.Prelude.Power.{pow_pos, pow_mono}
use native.Mathlib.Nat.{mod-eq_of_lt, mul-le-mul, mul_assoc, pow-suc, pow-zero}

-- The value of the words.
abbrev pub big_value : List ℕ → ℕ
big_value [] = 0
big_value (d ∷ big) = d + big_base * big_value big

-- Every word is below 10^9.
abbrev pub AllWords : List ℕ → Type 0
AllWords [] = Unit
AllWords (d ∷ big) = (d < big_base) × AllWords big

pub push_loop-value : (fuel c : ℕ) → c < big_base ^ fuel → big_value (push_loop fuel c) ≡ c
unfolding push_loop
push_loop-value zero c h = omega arith
push_loop-value (suc fuel) c h =
    let below : c / big_base < big_base ^ fuel = omega (arith, pow-suc big_base fuel) in
    let ih = push_loop-value fuel (c / big_base) below in
    elim (dec_lt 0 c) [
      | yes some_left ↦ rw (==_false c 0 (omega arith), ih) (omega arith)
      | no done ↦ let z : c ≡ 0 = omega arith in rw z refl
    ]

pub push_loop-AllWords : (fuel c : ℕ) → AllWords (push_loop fuel c)
unfolding push_loop
push_loop-AllWords zero c = tt
push_loop-AllWords (suc fuel) c =
    let ih = push_loop-AllWords fuel (c / big_base) in
    let w : c % big_base < big_base = omega arith in ground (arith, ih, w)

mul_loop-value :
    (factor carry : ℕ) (big : List ℕ)
    → factor < 2 ^ 32
    → carry < 2 ^ 33
    → AllWords big
    → (big_value (mul_loop factor carry big) ≡ factor * big_value big + carry)
      × AllWords (mul_loop factor carry big)
unfolding mul_loop
mul_loop-value factor carry [] f c all =
    (push_loop-value 3 carry (omega arith) ∙ omega arith, push_loop-AllWords 3 carry)
mul_loop-value factor carry (d ∷ big) f c (small, all) =
    let t = d * factor in
    let bound : t ≤ 999999999 * 4294967295 =
      mul-le-mul {n₂ = 999999999} {m₂ = 4294967295} (omega arith) (omega arith) in
    let x = t + carry in
    let fits : x % 2 ^ 64 ≡ x = omega (arith, bound) in
    let out : x / big_base < 2 ^ 33 = omega (arith, bound) in
    let (ih, words) = mul_loop-value factor (x / big_base) big f out all in
    let parts : x % big_base + big_base * (x / big_base) ≡ x = omega arith in
    rw (fits, ih) (grind (arith, parts), (omega arith, words))

-- `fp_big_mul` multiplies.
abbrev Scaled : (n : ℕ) → List ℕ → List ℕ → Type 0
Scaled n big res = (big_value res ≡ n * big_value big) × AllWords res

-- `fp_big_mul` of words below 10^9 and a 32-bit factor: the value of the result is the factor
-- times the value of the words, so that no 64-bit product wraps, and its words are below 10^9.
pub fp_big_mul-value :
    (big : List ℕ) (factor : ℕ)
    → factor < 2 ^ 32
    → AllWords big
    → Scaled factor big (fp_big_mul big factor)
unfolding fp_big_mul
fp_big_mul-value big factor f all =
    let (e, words) = mul_loop-value factor 0 big f (omega arith) all in (e ∙ omega arith, words)

pub pow_add : (b j k : ℕ) → b ^ j * b ^ k ≡ b ^ (j + k)
pow_add b j zero = let e : j + 0 ≡ j = omega arith in rw (e, pow-zero) (omega arith)
pow_add b j (suc k) =
    let e : j + suc k ≡ suc (j + k) = omega arith in
    rw (e, pow-suc b k, pow-suc b (j + k), ← pow_add b j k) (sym (mul_assoc (b ^ j) (b ^ k) b))

small_two : (k : ℕ) → k < 29 → 2 ^ k < 2 ^ 32
small_two k h = omega (arith, pow_mono 2 (omega arith) k 29 (omega arith))

pub scale_two-Scaled :
    (fuel k : ℕ) (big : List ℕ)
    → k < fuel
    → AllWords big
    → Scaled (2 ^ k) big (scale_two fuel k big)
unfolding scale_two
scale_two-Scaled zero k big h all = absurd (omega arith)
scale_two-Scaled (suc fuel) k big h all = elim (dec_le 29 k) [
  | yes more ↦
      let (e1, w1) = fp_big_mul-value big (2 ^ 29) (omega arith) all in
      let (e2, w2) = scale_two-Scaled fuel (k - 29) (fp_big_mul big (2 ^ 29)) (omega arith) w1 in
      let p = pow_add 2 (k - 29) 29 ∙ ap (λ n. 2 ^ n) (omega arith) in
      let e : big_value (scale_two fuel (k - 29) (fp_big_mul big (2 ^ 29)))
          ≡ 2 ^ k * big_value big =
        e2
        ∙ ap (λ t. 2 ^ (k - 29) * t) e1
        ∙ sym (mul_assoc (2 ^ (k - 29)) (2 ^ 29) (big_value big))
        ∙ ap (λ t. t * big_value big) p in
      rw ((leb_iff 29 k).1 more) (e, w2)
  | no last ↦
      rw (leb-false 29 k (omega arith))
        (fp_big_mul-value big (2 ^ k) (small_two k (omega arith)) all)
]

five_loop-pow : (k f : ℕ) → 5 ^ k * f < 2 ^ 32 → five_loop k f ≡ 5 ^ k * f
unfolding five_loop
five_loop-pow zero f h = omega arith
five_loop-pow (suc k) f h =
    let p : 5 ^ suc k * f ≡ 5 ^ k * (f * 5) = rw (pow-suc 5 k) (grind arith) in
    let one : 1 ≤ 5 ^ k = pow_pos 5 (omega arith) k in
    let fits : 1 * (f * 5) ≤ 5 ^ k * (f * 5) = mul-le-mul one (omega arith) in
    rw (mod-eq_of_lt {n = f * 5} {m = 2 ^ 32} (omega arith))
      (five_loop-pow k (f * 5) (omega arith) ∙ sym p)

pub scale_five-Scaled :
    (fuel k : ℕ) (big : List ℕ)
    → k < fuel
    → AllWords big
    → Scaled (5 ^ k) big (scale_five fuel k big)
unfolding scale_five
scale_five-Scaled zero k big h all = absurd (omega arith)
scale_five-Scaled (suc fuel) k big h all = elim (dec_le 13 k) [
  | yes more ↦
      let (e1, w1) = fp_big_mul-value big 1220703125 (omega arith) all in
      let (e2, w2) = scale_five-Scaled fuel (k - 13) (fp_big_mul big 1220703125) (omega arith) w1 in
      let p = pow_add 5 (k - 13) 13 ∙ ap (λ n. 5 ^ n) (omega arith) in
      let e : big_value (scale_five fuel (k - 13) (fp_big_mul big 1220703125))
          ≡ 5 ^ k * big_value big =
        e2
        ∙ ap (λ t. 5 ^ (k - 13) * t) e1
        ∙ sym (mul_assoc (5 ^ (k - 13)) 1220703125 (big_value big))
        ∙ ap (λ t. t * big_value big) p in
      rw ((leb_iff 13 k).1 more) (e, w2)
  | no last ↦
      let small = pow_mono 5 (omega arith) k 12 (omega arith) in
      let f : five_loop k 1 ≡ 5 ^ k = five_loop-pow k 1 (omega (arith, small)) ∙ omega arith in
      rw (leb-false 13 k (omega arith), f) (fp_big_mul-value big (5 ^ k) (omega (arith, small)) all)
]

-- The twos that were taken off the mantissa.
pub strip_loop-odd :
    (fuel mantissa shifts : ℕ)
    → (j : ℕ) × ((strip_loop fuel mantissa shifts).1 ≡ shifts + j)
      × ((strip_loop fuel mantissa shifts).0 * 2 ^ j ≡ mantissa)
unfolding strip_loop
strip_loop-odd zero mantissa shifts = (0, omega arith, omega arith)
strip_loop-odd (suc fuel) mantissa shifts = elim (dec_lt 0 (mantissa % 2)) [
  | yes odd ↦ rw (==_false (mantissa % 2) 0 (omega arith)) (0, omega arith, omega arith)
  | no even ↦
      let (j, e, p) = strip_loop-odd fuel (mantissa / 2) (shifts + 1) in
      let z : mantissa % 2 ≡ 0 = omega arith in
      let odd = (strip_loop fuel (mantissa / 2) (shifts + 1)).0 in
      let twice : odd * 2 ^ suc j ≡ mantissa =
        ap (λ t. odd * t) (pow-suc 2 j) ∙ sym (mul_assoc odd (2 ^ j) 2) ∙ omega (arith, p) in
      rw z (suc j, omega (arith, e), twice)
]
