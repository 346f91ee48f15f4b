-- ===== src/Conversions/Unsigned.antt =====
-- `utoa_generic` of src/conversions.c, call by call.
use freestanding_custom_c_li.Prelude.{
  ℕ, suc, ◌+◌, ◌-◌, ◌%◌, ◌^◌, ◌≤◌, ◌<◌, ◌≡◌, arith, Bytes, length, leb_iff, leb-false, ltb-false,
  ==_false,
}
use freestanding_custom_c_li.Prelude.Power.{pow_pos}
use freestanding_custom_c_li.Conversions.{
  enc_span, uint64_max, encode_unsigned, digit_of, unsigned_print,
}
use freestanding_custom_c_li.Conversions.Digits.{digits_of}
use freestanding_custom_c_li.Conversions.Finish.{
  Prints, Fits, Fits-mono, finish-Prints, rest_plan-IsSound, rest_plan-Fits, first_plan-IsSound,
  decode-IsSound, measure-IsSound,
}

module _ (r : ℕ) (r2 : 2 ≤ r) (table : Bytes) (max_rem : ℕ) (span : Fits r max_rem) where
  -- A call on an encoded rest continues where the last call stopped.
  pub unsigned_print-resume :
      (m s : ℕ) (buffer : Bytes) (n : ℕ)
      → 1 ≤ m
      → s < r ^ m
      → r ^ m + s ≤ enc_span
      → 1 ≤ n
      → n ≤ length buffer
      → Prints encode_unsigned
          (digit_of table)
          r
          n
          0
          (digits_of r m s)
          buffer
          (unsigned_print (encode_unsigned (r ^ m + s)) buffer n r table max_rem)
  unfolding unsigned_print
  unsigned_print-resume m s buffer n m1 lt fits n1 room =
      let back : uint64_max - (uint64_max - (r ^ m + s)) ≡ r ^ m + s = omega arith in
      rw
        (
          ==_false n 0 (omega arith),
          ==_false (uint64_max - (r ^ m + s)) 0 (omega arith),
          (leb_iff (uint64_max - enc_span) (uint64_max - (r ^ m + s))).1 (omega arith),
          back,
          decode-IsSound r r2 m s m1 lt fits,
          ==_false m 0 (omega arith),
        )
        (finish-Prints r r2 encode_unsigned (digit_of table) buffer n 0 _
          (rest_plan-IsSound r r2 m s m1 lt fits) (omega arith) (omega arith)
          (rest_plan-Fits r r2 m n m1 n1 (omega arith)))

  -- The first call on a value below the encoded ones prints its numeral, if at most `max_rem`
  -- digits are left over.
  pub unsigned_print-start :
      (v : ℕ) (m : ℕ) (buffer : Bytes) (n : ℕ)
      → r ^ m ≤ v
      → v < r ^ suc m
      → v < uint64_max - enc_span
      → 1 ≤ n
      → n ≤ length buffer
      → n < 2 ^ 32
      → max_rem < 2 ^ 32
      → m + 1 ≤ max_rem + n
      → Prints encode_unsigned
          (digit_of table)
          r
          n
          0
          (digits_of r (m + 1) v)
          buffer
          (unsigned_print v buffer n r table max_rem)
  unfolding unsigned_print
  unsigned_print-start v m buffer n lo hi fresh n1 room small few enough =
      rw
        (
          ==_false n 0 (omega arith),
          ==_false v 0 (omega (arith, pow_pos r r2 m)),
          leb-false (uint64_max - enc_span) v fresh,
          measure-IsSound r r2 m v lo hi (omega arith),
          ltb-false ((max_rem + n) % 2 ^ 64) (m + 1) (omega arith),
        )
        (finish-Prints r r2 encode_unsigned (digit_of table) buffer n 0 _
          (first_plan-IsSound r r2 m v lo hi (omega arith)) (omega arith) (omega arith)
          (Fits-mono r r2 (m + 1 - n) max_rem (omega arith) span))
