-- ===== src/Conversions/Signed.antt =====
-- `itoa_generic` and `itoa` of src/conversions.c, call by call.
use freestanding_custom_c_li.Prelude.{
  ℕ, suc, ◌+◌, ◌-◌, ◌%◌, ◌^◌, ◌≤◌, ◌<◌, ◌≡◌, true, false, arith, Bytes, set, length-set, length,
  ltb-false, ==_false,
}
use freestanding_custom_c_li.Prelude.Power.{pow_pos}
use freestanding_custom_c_li.Conversions.{
  enc_span, int64_min, encode_signed, digit_of, decimal_digit, signed_print, decimal_print,
  signed_encoded, slt64, magnitude,
}
use freestanding_custom_c_li.Conversions.Digits.{digits_of}
use freestanding_custom_c_li.Conversions.Finish.{
  Prints, Fits, Fits-mono, finish-Prints, rest_plan-IsSound, rest_plan-Fits, first_plan-IsSound,
  decode-IsSound, measure-IsSound,
}

-- A pattern that is no encoding: a number that is not negative, `INT64_MIN`, or a negative number
-- above the encoded ones.
abbrev pub IsPlain : ℕ → Type 0
IsPlain i = (signed_encoded i ≡ false) × (i < 2 ^ 64)

pub encoded_test : (t : ℕ) → 1 ≤ t → t ≤ enc_span → signed_encoded (encode_signed t) ≡ true
encoded_test t t1 fits = ground arith

nonnegative_test : (i : ℕ) → i < 2 ^ 63 → (signed_encoded i ≡ false) × (slt64 i 0 ≡ false)
nonnegative_test i h = ground arith

negative_test : (i : ℕ) → 2 ^ 63 ≤ i → i < 2 ^ 64 → (slt64 i 0 ≡ true) × (magnitude i ≡ 2 ^ 64 - i)
negative_test i h k = ground arith

pub offset : (t : ℕ) → t ≤ enc_span → (encode_signed t + 2 ^ 64 - int64_min) % 2 ^ 64 ≡ t
offset t fits = omega arith

module _ (r : ℕ) (r2 : 2 ≤ r) (table : Bytes) (max_rem : ℕ) (span : Fits r max_rem) where
  -- A call on an encoded rest continues where the last call stopped.
  pub signed_print-resume :
      (m s : ℕ) (buffer : Bytes) (n : ℕ)
      → 1 ≤ m
      → s < r ^ m
      → r ^ m + s ≤ enc_span
      → 1 ≤ n
      → n ≤ length buffer
      → Prints encode_signed
          (digit_of table)
          r
          n
          0
          (digits_of r m s)
          buffer
          (signed_print (encode_signed (r ^ m + s)) buffer n r table max_rem)
  unfolding signed_print
  signed_print-resume m s buffer n m1 lt fits n1 room =
      let t : 1 ≤ r ^ m + s = omega (arith, pow_pos r r2 m) in
      rw
        (
          ==_false n 0 (omega arith),
          ==_false (encode_signed (r ^ m + s)) 0 (omega arith),
          encoded_test (r ^ m + s) t fits,
          offset (r ^ m + s) fits,
          decode-IsSound r r2 m s m1 lt fits,
          ==_false m 0 (omega arith),
        )
        (finish-Prints r r2 encode_signed (digit_of table) buffer n 0 _
          (rest_plan-IsSound r r2 m s m1 lt fits) (omega arith) (omega arith)
          (rest_plan-Fits r r2 m n m1 n1 (omega arith)))

  -- The first call on a positive number.
  pub signed_print-start :
      (i m : ℕ) (buffer : Bytes) (n : ℕ)
      → i < 2 ^ 63
      → r ^ m ≤ i
      → i < r ^ suc m
      → 1 ≤ n
      → n ≤ length buffer
      → n < 2 ^ 32
      → max_rem < 2 ^ 32
      → m + 1 ≤ max_rem + n
      → Prints encode_signed
          (digit_of table)
          r
          n
          0
          (digits_of r (m + 1) i)
          buffer
          (signed_print i buffer n r table max_rem)
  unfolding signed_print
  signed_print-start i m buffer n sign lo hi n1 room small few enough =
      rw
        (
          ==_false n 0 (omega arith),
          ==_false i 0 (omega (arith, pow_pos r r2 m)),
          (nonnegative_test i sign).0,
          (nonnegative_test i sign).1,
          measure-IsSound r r2 m i lo hi (omega arith),
          ltb-false ((max_rem + n) % 2 ^ 64) (m + 1) (omega arith),
        )
        (finish-Prints r r2 encode_signed (digit_of table) buffer n 0 _
          (first_plan-IsSound r r2 m i lo hi (omega arith)) (omega arith) (omega arith)
          (Fits-mono r r2 (m + 1 - n) max_rem (omega arith) span))

  -- The first call on a negative number prints the sign and the magnitude.
  pub signed_print-negative :
      (i m : ℕ) (buffer : Bytes) (n : ℕ)
      → 2 ^ 63 ≤ i
      → IsPlain i
      → r ^ m ≤ 2 ^ 64 - i
      → 2 ^ 64 - i < r ^ suc m
      → 2 ≤ n
      → n ≤ length buffer
      → n < 2 ^ 32
      → max_rem < 2 ^ 32
      → m + 1 ≤ max_rem + (n - 1)
      → Prints encode_signed
          (digit_of table)
          r
          (n - 1)
          1
          (digits_of r (m + 1) (2 ^ 64 - i))
          (set buffer 0 b'-')
          (signed_print i buffer n r table max_rem)
  unfolding signed_print
  signed_print-negative i m buffer n sign (plain, word) lo hi n2 room small few enough =
      rw
        (
          ==_false n 0 (omega arith),
          ==_false i 0 (omega arith),
          plain,
          (negative_test i sign word).0,
          (negative_test i sign word).1,
          ltb-false n 2 n2,
          measure-IsSound r r2 m (2 ^ 64 - i) lo hi (omega arith),
          ltb-false ((max_rem + (n - 1)) % 2 ^ 64) (m + 1) (omega arith),
        )
        (finish-Prints r r2 encode_signed (digit_of table) (set buffer 0 b'-') (n - 1) 1 _
          (first_plan-IsSound r r2 m (2 ^ 64 - i) lo hi (omega arith)) (omega arith)
          (omega (arith, length-set buffer 0 b'-'))
          (Fits-mono r r2 (m + 1 - (n - 1)) max_rem (omega arith) span))

ten : 2 ≤ 10
ten = omega arith

decimal_span : Fits 10 18
decimal_span = omega arith

-- A call on an encoded rest continues where the last call stopped.
pub decimal_print-resume :
    (m s : ℕ) (buffer : Bytes) (n : ℕ)
    → 1 ≤ m
    → s < 10 ^ m
    → 10 ^ m + s ≤ enc_span
    → 1 ≤ n
    → n ≤ length buffer
    → Prints encode_signed decimal_digit 10 n 0
        (digits_of 10 m s)
        buffer
        (decimal_print (encode_signed (10 ^ m + s)) buffer n)
unfolding decimal_print
decimal_print-resume m s buffer n m1 lt fits n1 room =
    let t : 1 ≤ 10 ^ m + s = omega (arith, pow_pos 10 ten m) in
    rw
      (
        ==_false n 0 (omega arith),
        ==_false (encode_signed (10 ^ m + s)) 0 (omega arith),
        encoded_test (10 ^ m + s) t fits,
        offset (10 ^ m + s) fits,
        decode-IsSound 10 ten m s m1 lt fits,
        ==_false m 0 (omega arith),
      )
      (finish-Prints 10 ten encode_signed decimal_digit buffer n 0 _
        (rest_plan-IsSound 10 ten m s m1 lt fits) (omega arith) (omega arith)
        (rest_plan-Fits 10 ten m n m1 n1 (omega arith)))

-- The first call on a positive number.
pub decimal_print-start :
    (i m : ℕ) (buffer : Bytes) (n : ℕ)
    → i < 2 ^ 63
    → 10 ^ m ≤ i
    → i < 10 ^ suc m
    → 1 ≤ n
    → n ≤ length buffer
    → m + 1 ≤ 18 + n
    → Prints encode_signed decimal_digit 10 n 0
        (digits_of 10 (m + 1) i)
        buffer
        (decimal_print i buffer n)
unfolding decimal_print
decimal_print-start i m buffer n sign lo hi n1 room enough =
    rw
      (
        ==_false n 0 (omega arith),
        ==_false i 0 (omega (arith, pow_pos 10 ten m)),
        (nonnegative_test i sign).0,
        (nonnegative_test i sign).1,
        measure-IsSound 10 ten m i lo hi (omega arith),
      )
      (finish-Prints 10 ten encode_signed decimal_digit buffer n 0 _
        (first_plan-IsSound 10 ten m i lo hi (omega arith)) (omega arith) (omega arith)
        (Fits-mono 10 ten (m + 1 - n) 18 (omega arith) decimal_span))

-- The first call on a negative number prints the sign and the magnitude.
pub decimal_print-negative :
    (i m : ℕ) (buffer : Bytes) (n : ℕ)
    → 2 ^ 63 ≤ i
    → IsPlain i
    → 10 ^ m ≤ 2 ^ 64 - i
    → 2 ^ 64 - i < 10 ^ suc m
    → 2 ≤ n
    → n ≤ length buffer
    → m + 1 ≤ 18 + (n - 1)
    → Prints encode_signed decimal_digit 10
        (n - 1)
        1
        (digits_of 10 (m + 1) (2 ^ 64 - i))
        (set buffer 0 b'-')
        (decimal_print i buffer n)
unfolding decimal_print
decimal_print-negative i m buffer n sign (plain, word) lo hi n2 room enough =
    rw
      (
        ==_false n 0 (omega arith),
        ==_false i 0 (omega arith),
        plain,
        (negative_test i sign word).0,
        (negative_test i sign word).1,
        ltb-false n 2 n2,
        measure-IsSound 10 ten m (2 ^ 64 - i) lo hi (omega arith),
      )
      (finish-Prints 10 ten encode_signed decimal_digit (set buffer 0 b'-') (n - 1) 1 _
        (first_plan-IsSound 10 ten m (2 ^ 64 - i) lo hi (omega arith)) (omega arith)
        (omega (arith, length-set buffer 0 b'-'))
        (Fits-mono 10 ten (m + 1 - (n - 1)) 18 (omega arith) decimal_span))
