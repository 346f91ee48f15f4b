-- ===== src/Conversions/RoundTrip.antt =====
-- `atoi` reads back what `itoa` prints (src/conversions.c).
use freestanding_custom_c_li.Prelude.{
  ℕ, ◌+◌, ◌-◌, ◌%◌, ◌^◌, ◌≤◌, ◌<◌, ◌≡◌, ap, ◌∙◌, some, List, [], ◌∷◌, ◌++◌, map, arith, Bytes,
  length, take-length, leb, if◌then◌else◌,
}
use freestanding_custom_c_li.Conversions.{decimal_digit, itoa}
use freestanding_custom_c_li.Conversions.Digits.{IsNumeral-length}
use freestanding_custom_c_li.Conversions.Drain.{printer, drain, room, AllUsable}
use freestanding_custom_c_li.Conversions.SignedSessions.{sign, abs, sign-width, itoa-Session}
use freestanding_custom_c_li.Conversions.Atoi.{
  atoi, int_max, Sign, unsigned, minus, sign_bytes, read_int, atoi-numeral,
}
use freestanding_custom_c_li.Conversions.Signed.{IsPlain}
use freestanding_custom_c_li.Prelude.Power.{pow_mono}
use mathlib.Core.List.{append-nil}

-- The sign of a pattern, as `atoi` reads it.
sign_of : ℕ → Sign
sign_of i = if leb (2 ^ 63) i then minus else unsigned

sign_bytes-sign_of : (i : ℕ) → sign_bytes (sign_of i) ≡ sign i
unfolding sign_of
sign_bytes-sign_of i = ground arith

read_int-sign_of :
    (i : ℕ) → i < 2 ^ 64 → abs i ≤ int_max → read_int (sign_of i) (abs i) ≡ some (i % 2 ^ 32)
unfolding sign_of
read_int-sign_of i word fits = ground arith

IsPlain-of_small : (i : ℕ) → i < 2 ^ 64 → abs i ≤ int_max → IsPlain i
IsPlain-of_small i word fits = ground arith

pub length-sign : (i : ℕ) → length (sign i) ≤ 1
length-sign i = ground arith

ten : 2 ≤ 10
ten = omega arith

-- `itoa` through any row of buffers, and `atoi` on the bytes that came out. The pattern `i` is not
-- 0 and of magnitude `INT_MAX` at most, the buffers have room for a byte each, the first for two,
-- and all for eleven. Then the integer is 0 at the end, and `atoi` returns the `int` with the same
-- value.
pub atoi-itoa :
    (i : ℕ) (b : Bytes) (bs : List Bytes)
    → 1 ≤ i
    → i < 2 ^ 64
    → abs i ≤ int_max
    → AllUsable (b ∷ bs)
    → 2 ≤ length b
    → length b < 2 ^ 32
    → 11 ≤ room (b ∷ bs)
    → let (out, rest) = drain (printer itoa) i (b ∷ bs) in
      (rest ≡ 0) × (atoi (some out) ≡ some (i % 2 ^ 32))
atoi-itoa i b bs i1 word fits usable two small wide =
    let width : abs i < 10 ^ (18 + (length b - 1)) =
      omega (arith, pow_mono 10 ten 18 (18 + (length b - 1)) (omega arith)) in
    let s =
      itoa-Session i b bs i1 (IsPlain-of_small i word fits)
        (sign-width i 18 (length b) (abs i) width) usable (omega (arith, length-sign i)) small in
    let short = IsNumeral-length 10 ten (abs i) 10 s.numeral s.spells (omega arith) in
    let total : length s.numeral ≤ room (b ∷ bs) - length (sign i) = omega (arith, length-sign i) in
    let text : (drain (printer itoa) i (b ∷ bs)).0 ≡ sign i ++ map decimal_digit s.numeral =
      s.out ∙ ap (λ t. sign i ++ map decimal_digit t) (take-length _ s.numeral total) in
    let read = atoi-numeral [] (sign_of i) (abs i) s.numeral [] tt s.spells tt in
    (
      s.complete total,
      rw (text, ← sign_bytes-sign_of i, ← append-nil (map decimal_digit s.numeral))
          (read ∙ read_int-sign_of i word fits),
    )
