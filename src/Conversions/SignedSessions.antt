-- ===== src/Conversions/SignedSessions.antt =====
-- `itoa`, `itoab`, `itoao` and `itoax` of src/conversions.c through any row of buffers.
use freestanding_custom_c_li.Prelude.{
  ℕ, suc, ◌+◌, ◌-◌, ◌^◌, ◌≤◌, ◌<◌, ◌≡◌, refl, ap, ◌∙◌, List, [], ◌∷◌, ◌++◌, map, arith, Bytes,
  length, take, set, leb, leb_iff, leb-false, if◌then◌else◌, length-set,
}
use freestanding_custom_c_li.Prelude.Power.{between_powers, pow_mono}
use freestanding_custom_c_li.Conversions.{
  enc_span, encode_signed, digit_of, decimal_digit, binary_table, octal_table, hex_table,
  itoa_generic, itoa,
}
use freestanding_custom_c_li.Conversions.Digits.{digits_of}
use freestanding_custom_c_li.Conversions.Finish.{Prints, Fits}
use freestanding_custom_c_li.Conversions.Signed.{
  IsPlain, signed_print-resume, signed_print-start, signed_print-negative, decimal_print-resume,
  decimal_print-start, decimal_print-negative,
}
use freestanding_custom_c_li.Conversions.Drain.{
  Printer, printer, drain, room, AllUsable, take-Prints, drain-start,
}
use freestanding_custom_c_li.Conversions.Sessions.{
  Base, decimal, binary, octal, hex, radix, table, spare, signed_call, Session, Drained-Session,
  radix_two, radix-Fits, spare_small,
}
use native.Mathlib.Decide.{dec_lt}

-- The number that a 64-bit pattern stands for: its sign, and its magnitude.
abbrev pub sign : ℕ → Bytes
sign i = if leb (2 ^ 63) i then b'-' ∷ [] else []

abbrev pub abs : ℕ → ℕ
abs i = if leb (2 ^ 63) i then 2 ^ 64 - i else i

abbrev pub signed_digit : Base → ℕ → ℕ
signed_digit decimal = decimal_digit
signed_digit base = digit_of (table base)

take-sign : (b : Bytes) → 1 ≤ length b → take 1 (set b 0 b'-') ≡ b'-' ∷ []
take-sign [] h = absurd (omega arith)
take-sign (c ∷ b) h = refl

nonzero : (t : ℕ) → 1 ≤ t → t ≤ enc_span → 1 ≤ encode_signed t
nonzero t t1 fits = omega arith

-- What a session needs of a signed printer, the three lemmas of `Signed`.
module _ (digit : ℕ → ℕ) (r : ℕ) (r2 : 2 ≤ r) (max_rem : ℕ) (print : Printer)
    (resume : (m s : ℕ) (b : Bytes)
      → 1 ≤ m
      → s < r ^ m
      → r ^ m + s ≤ enc_span
      → 1 ≤ length b
      → Prints encode_signed digit r
          (length b)
          0
          (digits_of r m s)
          b
          (print (encode_signed (r ^ m + s)) b (length b)))
    (start : (i m : ℕ) (b : Bytes)
      → i < 2 ^ 63
      → r ^ m ≤ i
      → i < r ^ suc m
      → 1 ≤ length b
      → length b < 2 ^ 32
      → m + 1 ≤ max_rem + length b
      → Prints encode_signed digit r (length b) 0 (digits_of r (m + 1) i) b (print i b (length b)))
    (negative : (i m : ℕ) (b : Bytes)
      → 2 ^ 63 ≤ i
      → IsPlain i
      → r ^ m ≤ 2 ^ 64 - i
      → 2 ^ 64 - i < r ^ suc m
      → 2 ≤ length b
      → length b < 2 ^ 32
      → m + 1 ≤ max_rem + (length b - 1)
      → Prints encode_signed digit r
          (length b - 1)
          1
          (digits_of r (m + 1) (2 ^ 64 - i))
          (set b 0 b'-')
          (print i b (length b))) where
  positive-Session :
      (i : ℕ) (b : Bytes) (bs : List Bytes)
      → 1 ≤ i
      → i < 2 ^ 63
      → i < r ^ (max_rem + length b)
      → AllUsable (b ∷ bs)
      → length b < 2 ^ 32
      → Session r digit [] (room (b ∷ bs)) i (drain print i (b ∷ bs))
  positive-Session i b bs i1 below width usable small =
      let (m, lt, lo, hi) = between_powers r r2 (max_rem + length b) i i1 width in
      let first = start i m b below lo hi usable.0 small (omega arith) in
      Drained-Session encode_signed digit r r2 [] (room (b ∷ bs)) m i _ lo hi (
        drain-start encode_signed digit r print nonzero resume [] (length b) (digits_of r (m + 1) i)
          i b bs usable.1 (take-Prints encode_signed digit r first (omega arith)) first.left)

  negative-Session :
      (i : ℕ) (b : Bytes) (bs : List Bytes)
      → IsPlain i
      → 2 ^ 63 ≤ i
      → 2 ^ 64 - i < r ^ (max_rem + (length b - 1))
      → AllUsable (b ∷ bs)
      → 2 ≤ length b
      → length b < 2 ^ 32
      → Session r digit (b'-' ∷ []) (length b - 1 + room bs) (2 ^ 64 - i) (drain print i (b ∷ bs))
  negative-Session i b bs plain above width usable two small =
      let (m, lt, lo, hi) =
        between_powers r r2 (max_rem + (length b - 1)) (2 ^ 64 - i) (omega arith) width in
      let first = negative i m b above plain lo hi two small (omega arith) in
      Drained-Session encode_signed digit r r2 (b'-' ∷ []) (length b - 1 + room bs) m (2 ^ 64 - i) _
        lo hi
        (drain-start encode_signed digit r print nonzero resume (b'-' ∷ []) (length b - 1)
          (digits_of r (m + 1) (2 ^ 64 - i)) i b bs usable.1
          (take-Prints encode_signed digit r first (omega (arith, length-set b 0 b'-'))
            ∙ ap (λ t. t ++ map digit (take (length b - 1) (digits_of r (m + 1) (2 ^ 64 - i))))
                (take-sign b (omega arith)))
          first.left)

  signed-Session :
      (i : ℕ) (b : Bytes) (bs : List Bytes)
      → 1 ≤ i
      → IsPlain i
      → abs i < r ^ (max_rem + (length b - length (sign i)))
      → AllUsable (b ∷ bs)
      → 1 + length (sign i) ≤ length b
      → length b < 2 ^ 32
      → Session r digit (sign i) (room (b ∷ bs) - length (sign i)) (abs i) (drain print i (b ∷ bs))
  signed-Session i b bs i1 plain width usable room_left small = elim (dec_lt i (2 ^ 63)) [
    | yes below ↦
        let e = leb-false (2 ^ 63) i below in
        let w : i < r ^ (max_rem + (length b - 0)) = rw e at width in
        let whole : length b - 0 ≡ length b = omega arith in
        let total : room (b ∷ bs) - 0 ≡ room (b ∷ bs) = omega arith in
        rw (e, total) (positive-Session i b bs i1 below (rw whole at w) usable small)
    | no above ↦
        let e = (leb_iff (2 ^ 63) i).1 (omega arith) in
        let w : 2 ^ 64 - i < r ^ (max_rem + (length b - 1)) = rw e at width in
        let two : 2 ≤ length b = rw e at room_left in
        let total : length b - 1 + room bs ≡ room (b ∷ bs) - 1 = omega arith in
        rw (e, ← total) (negative-Session i b bs plain (omega arith) w usable two small)
  ]

module _ (r : ℕ) (r2 : 2 ≤ r) (t : Bytes) (max_rem : ℕ) (span : Fits r max_rem)
    (few : max_rem < 2 ^ 32) where
  itoa_generic-Session :
      (i : ℕ) (b : Bytes) (bs : List Bytes)
      → 1 ≤ i
      → IsPlain i
      → abs i < r ^ (max_rem + (length b - length (sign i)))
      → AllUsable (b ∷ bs)
      → 1 + length (sign i) ≤ length b
      → length b < 2 ^ 32
      → Session r
          (digit_of t)
          (sign i)
          (room (b ∷ bs) - length (sign i))
          (abs i)
          (drain (printer (λ i buf n. itoa_generic i buf n r t max_rem)) i (b ∷ bs))
  unfolding itoa_generic
  itoa_generic-Session =
      signed-Session (digit_of t) r r2 max_rem _
        (λ m s b m1 lt fits n1.
          signed_print-resume r r2 t max_rem span m s b (length b) m1 lt fits n1 (omega arith))
        (λ i m b below lo hi n1 small enough.
          signed_print-start r r2 t max_rem span i m b (length b) below lo hi n1 (omega arith) small
            few enough)
        (λ i m b above plain lo hi n2 small enough.
          signed_print-negative r r2 t max_rem span i m b (length b) above plain lo hi n2
            (omega arith) small few enough)

-- One byte of the first buffer is enough for the sign.
pub sign-width : (i k n x : ℕ) → x < 10 ^ (k + (n - 1)) → x < 10 ^ (k + (n - length (sign i)))
sign-width i k n x h =
    let few : length (sign i) ≤ 1 = ground arith in
    omega (
      arith,
      h,
      pow_mono 10 (radix_two decimal) (k + (n - 1)) (k + (n - length (sign i))) (omega arith),
    )

pub itoa-Session :
    (i : ℕ) (b : Bytes) (bs : List Bytes)
    → 1 ≤ i
    → IsPlain i
    → abs i < 10 ^ (18 + (length b - length (sign i)))
    → AllUsable (b ∷ bs)
    → 1 + length (sign i) ≤ length b
    → length b < 2 ^ 32
    → Session 10 decimal_digit
        (sign i)
        (room (b ∷ bs) - length (sign i))
        (abs i)
        (drain (printer itoa) i (b ∷ bs))
unfolding itoa
itoa-Session =
    signed-Session decimal_digit 10 (radix_two decimal) 18 _
      (λ m s b m1 lt fits n1. decimal_print-resume m s b (length b) m1 lt fits n1 (omega arith))
      (λ i m b below lo hi n1 small enough.
        decimal_print-start i m b (length b) below lo hi n1 (omega arith) enough)
      (λ i m b above plain lo hi n2 small enough.
        decimal_print-negative i m b (length b) above plain lo hi n2 (omega arith) enough)

-- `itoa`, `itoab`, `itoao` and `itoax` through any row of buffers. The pattern `i` is not 0 and
-- not one of those that stand for an encoded rest, the buffers have room for a byte each, the
-- first for one more than the sign takes, for fewer than 2^32 bytes, and for so many digits behind
-- the sign that at most `spare base` are left behind the first call. Then the bytes that the calls
-- write are the sign and, as far as the room reaches, the numeral of the magnitude in the base,
-- and the integer is 0 at the end if the room is enough for the numeral.
pub signed_call-Session :
    (base : Base) (i : ℕ) (b : Bytes) (bs : List Bytes)
    → 1 ≤ i
    → IsPlain i
    → abs i < radix base ^ (spare base + (length b - length (sign i)))
    → AllUsable (b ∷ bs)
    → 1 + length (sign i) ≤ length b
    → length b < 2 ^ 32
    → Session
        (radix base)
        (signed_digit base)
        (sign i)
        (room (b ∷ bs) - length (sign i))
        (abs i)
        (drain (printer (signed_call base)) i (b ∷ bs))
unfolding signed_call
signed_call-Session decimal = itoa-Session
signed_call-Session binary =
    itoa_generic-Session 2 (radix_two binary) binary_table 60 (radix-Fits binary)
      (spare_small binary)
signed_call-Session octal =
    itoa_generic-Session 8 (radix_two octal) octal_table 20 (radix-Fits octal) (spare_small octal)
signed_call-Session (hex upper) =
    itoa_generic-Session 16 (radix_two (hex upper)) (hex_table upper) 15 (radix-Fits (hex upper))
      (spare_small (hex upper))
