-- ===== src/Printf/Decimal/Exact.antt =====
-- The digits that `fp_to_decimal` of src/stdio.c writes are those of the number, exactly.
use freestanding_custom_c_li.Prelude.{
  ℕ, zero, suc, ◌+◌, ◌-◌, ◌*◌, ◌^◌, ◌≤◌, ◌<◌, ◌≡◌, ◌≢◌, refl, ap, sym, ◌∙◌, true, false, arith,
  length, ==_false, leb_iff, leb-false, ltb, Bool-cases, inl, inr,
}
use freestanding_custom_c_li.Prelude.Int.{ℤ, pos, pos_part, neg_part, sub_ℕ, ◌+ℤ◌, ltb_ℤ}
use freestanding_custom_c_li.Prelude.Power.{pow_pos}
use freestanding_custom_c_li.Conversions.Digits.{value, AllBelow}
use freestanding_custom_c_li.Printf.Decimal.{
  push_loop, strip_loop, scale_two, scale_five, big_digits, FpDecimal, fp_to_decimal,
}
use freestanding_custom_c_li.Printf.Decimal.Bignum.{
  big_value, pow_add, push_loop-value, push_loop-AllWords, scale_two-Scaled, scale_five-Scaled,
  strip_loop-odd,
}
use native.Mathlib.Decide.{dec_le}
use native.Mathlib.Nat.{mul-le-mul_left, pow-suc}
use freestanding_custom_c_li.Printf.Decimal.Digits.{
  big_digits-value, trim-Trims, big_digits-AllBelow, trim-AllBelow, LastNonzero, trim-LastNonzero,
}

parts-sub_ℕ : (a b : ℕ) → (pos_part (sub_ℕ a b) ≡ a - b) × (neg_part (sub_ℕ a b) ≡ b - a)
parts-sub_ℕ a b = elim (dec_le b a) [
  | yes h ↦ rw ((leb_iff b a).1 h) (refl, omega arith)
  | no h ↦ rw (leb-false b a (omega arith)) (omega arith, omega arith)
]

pow_ten : (n : ℕ) → 10 ^ n ≡ 2 ^ n * 5 ^ n
pow_ten zero = refl
pow_ten (suc n) = rw (pow-suc 10 n, pow-suc 2 n, pow-suc 5 n, pow_ten n) (grind arith)

-- The powers of two on both sides, where the exponent is not negative.
twos_up : (odd j p n k m : ℕ) → odd * 2 ^ j ≡ m → p + j ≡ n + k → m * 2 ^ p ≡ 2 ^ k * odd * 2 ^ n
twos_up odd j p n k m e h =
    let a = pow_add 2 j p in
    let b = pow_add 2 k n in
    let c : 2 ^ (j + p) ≡ 2 ^ (k + n) = ap (λ i. 2 ^ i) (omega arith) in
    let whole : odd * (2 ^ j * 2 ^ p) ≡ odd * (2 ^ k * 2 ^ n) = ap (λ t. odd * t) (a ∙ c ∙ sym b) in
    rw (← e) (grind (arith, whole))

-- The same where it is negative: each power of ten is one of two and one of five.
twos_down :
    (odd j p n k m : ℕ) → odd * 2 ^ j ≡ m → p + j + k ≡ n → m * 2 ^ p * 10 ^ k ≡ 5 ^ k * odd * 2 ^ n
twos_down odd j p n k m e h =
    let a = ap (λ t. t * 2 ^ k) (pow_add 2 j p) ∙ pow_add 2 (j + p) k in
    let c : 2 ^ (j + p + k) ≡ 2 ^ n = ap (λ i. 2 ^ i) (omega arith) in
    let whole : odd * 5 ^ k * (2 ^ j * 2 ^ p * 2 ^ k) ≡ odd * 5 ^ k * 2 ^ n =
      ap (λ t. odd * 5 ^ k * t) (a ∙ c) in
    rw (← e, pow_ten k) (grind (arith, whole))

parts-sum :
    (a : ℤ) (b : ℕ)
    → (pos_part (a +ℤ pos b) ≡ pos_part a + b - neg_part a)
      × (neg_part (a +ℤ pos b) ≡ neg_part a - (pos_part a + b))
unfolding ◌+ℤ◌
parts-sum a b =
    let (p, n) = parts-sub_ℕ (pos_part a + b) (neg_part a + 0) in (p ∙ omega arith, n ∙ omega arith)

ltb_above : (a b : ℕ) → ltb (0 + a) (b + 0) ≡ true → a < b
ltb_above a b h = ground arith

ltb_below : (a b : ℕ) → ltb (0 + a) (b + 0) ≡ false → b ≤ a
ltb_below a b h = ground arith

odd_le : (odd j m : ℕ) → odd * 2 ^ j ≡ m → odd ≤ m
odd_le odd j m e =
    let h : odd * 1 ≤ odd * 2 ^ j = mul-le-mul_left odd (pow_pos 2 (omega arith) j) in omega arith

-- The value of `dec` is `mantissa * 2 ^ exp2`: with `z` zeros more, the digits are those of the
-- number times `10 ^ n`, and the exponent counts from the first of them.
pub record Exact (mantissa : ℕ) (exp2 : ℤ) (dec : FpDecimal) : Type 0 where
  pub z : ℕ
  pub n : ℕ
  pub digits : AllBelow 10 dec.digits
  pub trimmed : LastNonzero dec.digits
  pub exponent : dec.exp10 ≡ sub_ℕ (length dec.digits + z) (1 + n)
  pub spells :
      mantissa * 2 ^ pos_part exp2 * 10 ^ n ≡ value 10 0 dec.digits * 10 ^ z * 2 ^ neg_part exp2

-- `fp_to_decimal` of a mantissa that is not 0 and below 2^64, and of any exponent: the digits are
-- below 10, the last is not 0, and with the exponent they stand for `mantissa * 2 ^ exp2` exactly.
-- That is, for some `z` and `n`, the number that the digits spell times 10^z is the value times
-- 10^n, and the decimal exponent is the count of the digits plus `z`, less `n` and 1.
pub fp_to_decimal-Exact :
    (mantissa : ℕ) (exp2 : ℤ)
    → mantissa ≢ 0
    → mantissa < 2 ^ 64
    → Exact mantissa exp2 (fp_to_decimal mantissa exp2)
unfolding fp_to_decimal
fp_to_decimal-Exact mantissa exp2 nonzero word =
    let odd = (strip_loop 64 mantissa 0).0 in
    let (j, shifts, twice) = strip_loop-odd 64 mantissa 0 in
    let p = pos_part exp2 in
    let n = neg_part exp2 in
    let e = exp2 +ℤ pos (strip_loop 64 mantissa 0).1 in
    let (plus, minus) = parts-sum exp2 (strip_loop 64 mantissa 0).1 in
    let big = push_loop 3 odd in
    let small = odd_le odd j mantissa twice in
    let start : big_value big ≡ odd = push_loop-value 3 odd (omega (arith, small)) in
    let words = push_loop-AllWords 3 odd in
    rw (==_false mantissa 0 nonzero) (elim (Bool-cases (ltb_ℤ (pos 0) e)) [
      | inl up ↦
          let (v, all) = scale_two-Scaled (pos_part e + 1) (pos_part e) big (omega arith) words in
          let ds = big_digits (scale_two (pos_part e + 1) (pos_part e) big) in
          let t = trim-Trims ds in
          let above : neg_part e < pos_part e = ltb_above (neg_part e) (pos_part e) up in
          let none_below : neg_part e ≡ 0 = omega (arith, plus, minus) in
          rw up (record {
            z = t.z;
            trimmed = trim-LastNonzero ds;
            n = 0;
            digits =
                trim-AllBelow ds
                  (big_digits-AllBelow (scale_two (pos_part e + 1) (pos_part e) big));
            exponent = λ i. sub_ℕ (t.size i) (1 + none_below i);
            spells =
                omega arith
                ∙ twos_up odd j p n (pos_part e) mantissa twice (omega (arith, plus, minus, shifts))
                ∙ ap (λ x. x * 2 ^ n)
                    (ap (λ x. 2 ^ pos_part e * x) (sym start)
                      ∙ sym v
                      ∙ sym (big_digits-value (scale_two (pos_part e + 1) (pos_part e) big) all)
                      ∙ t.spells);
          })
      | inr down ↦
          let (v, all) = scale_five-Scaled (neg_part e + 1) (neg_part e) big (omega arith) words in
          let ds = big_digits (scale_five (neg_part e + 1) (neg_part e) big) in
          let t = trim-Trims ds in
          let below : pos_part e ≤ neg_part e = ltb_below (neg_part e) (pos_part e) down in
          rw down (record {
            z = t.z;
            trimmed = trim-LastNonzero ds;
            n = neg_part e;
            digits =
                trim-AllBelow ds
                  (big_digits-AllBelow (scale_five (neg_part e + 1) (neg_part e) big));
            exponent = λ i. sub_ℕ (t.size i) (1 + neg_part e);
            spells =
                twos_down odd j p n (neg_part e) mantissa twice
                  (omega (arith, plus, minus, shifts, below))
                ∙ ap (λ x. x * 2 ^ n)
                    (ap (λ x. 5 ^ neg_part e * x) (sym start)
                      ∙ sym v
                      ∙ sym (big_digits-value (scale_five (neg_part e + 1) (neg_part e) big) all)
                      ∙ t.spells);
          })
    ])
