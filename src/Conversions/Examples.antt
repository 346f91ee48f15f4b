-- ===== src/Conversions/Examples.antt =====
-- Examples for src/conversions.c.
use freestanding_custom_c_li.Prelude.{
  ℕ, ◌+◌, ◌-◌, ◌^◌, ◌≡◌, refl, some, List, [], ◌∷◌, arith, Bytes, replicate, false,
}
use freestanding_custom_c_li.Conversions.{
  itoa, utoax, decimal_digit, digit_of, decimal_print, unsigned_print, decode, measure, finish,
  count_digits, pow_loop, top_power, emit,
}
use freestanding_custom_c_li.Conversions.Digits.{IsNumeral}
use freestanding_custom_c_li.Conversions.Drain.{printer, drain}
use freestanding_custom_c_li.Conversions.Sessions.{
  decimal, binary, unsigned_call, signed_call, Session, unsigned_call-Session,
}
use freestanding_custom_c_li.Conversions.SignedSessions.{signed_call-Session}
use freestanding_custom_c_li.Conversions.Refusals.{unsigned_call-short, itoa-marker}
use freestanding_custom_c_li.Conversions.Atoi.{atoi, minus, atoi-numeral}
use freestanding_custom_c_li.Conversions.RoundTrip.{atoi-itoa}

-- Three buffers of four bytes.
abbrev buffers : List Bytes
buffers = replicate 4 0 ∷ replicate 4 0 ∷ replicate 4 0 ∷ []

abbrev one_buffer : List Bytes
one_buffer = replicate 4 0 ∷ replicate 4 0 ∷ []

-- -1234567
abbrev negative : ℕ
negative = 2 ^ 64 - 1234567

itoa_in_pieces :
    drain (printer itoa) negative buffers
    ≡ (b'-' ∷ b'1' ∷ b'2' ∷ b'3' ∷ b'4' ∷ b'5' ∷ b'6' ∷ b'7' ∷ [], 0)
unfolding drain itoa decimal_print decode measure finish count_digits pow_loop top_power emit
itoa_in_pieces = refl

utoax_at_once :
    utoax (some 48879) (some (replicate 6 0)) 6 false
    ≡ (4, some 0, some (b'b' ∷ b'e' ∷ b'e' ∷ b'f' ∷ 0 ∷ 0 ∷ []))
unfolding utoax unsigned_print decode measure finish count_digits pow_loop top_power emit
utoax_at_once = refl

signed_call-Session_example :
    Session 10 decimal_digit
      (b'-' ∷ [])
      11
      1234567
      (drain (printer (signed_call decimal)) negative buffers)
signed_call-Session_example =
    signed_call-Session decimal negative (replicate 4 0) one_buffer (omega arith)
      (refl, omega arith) (omega arith) (omega arith) (omega arith) (omega arith)

unsigned_call-Session_example :
    Session 2
      (digit_of (b'0' ∷ b'1' ∷ []))
      []
      12
      1000
      (drain (printer (unsigned_call binary)) 1000 buffers)
unsigned_call-Session_example =
    unsigned_call-Session binary 1000 (replicate 4 0) one_buffer (omega arith) (omega arith)
      (omega arith) (omega arith) (omega arith)

atoi-itoa_example :
    let (out, rest) = drain (printer itoa) negative buffers in
    (rest ≡ 0) × (atoi (some out) ≡ some (2 ^ 32 - 1234567))
atoi-itoa_example =
    atoi-itoa negative (replicate 4 0) one_buffer (omega arith) (omega arith) (omega arith)
      (omega arith) (omega arith) (omega arith) (omega arith)

forty_two : IsNumeral 10 42 (4 ∷ 2 ∷ [])
forty_two = record { spells = refl; below = omega arith; leading = (4, 2 ∷ [], refl, omega arith) }

-- " -42;"
atoi-numeral_example : atoi (some (b' ' ∷ b'-' ∷ b'4' ∷ b'2' ∷ b';' ∷ [])) ≡ some (2 ^ 32 - 42)
atoi-numeral_example =
    atoi-numeral (b' ' ∷ []) minus 42 (4 ∷ 2 ∷ []) (b';' ∷ []) (refl, tt) forty_two refl

unsigned_call-short_example :
    unsigned_call binary (some (2 ^ 63)) (some (0 ∷ 0 ∷ [])) 2
    ≡ (0, some (2 ^ 63), some (0 ∷ 0 ∷ []))
unsigned_call-short_example =
    unsigned_call-short binary (2 ^ 63) (0 ∷ 0 ∷ []) 2 (omega arith) (omega arith) (omega arith)
      (omega arith)

itoa-marker_example :
    itoa (some (2 ^ 63 + 5)) (some (replicate 4 0)) 4 ≡ (0, some 4, some (replicate 4 0))
itoa-marker_example = itoa-marker 5 (replicate 4 0) 4 (omega arith) (omega arith) (omega arith)
