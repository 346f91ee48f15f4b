-- ===== src/Conversions/Refusals.antt =====
-- What the printers of src/conversions.c do when they print nothing, and the integers that they
-- take for an encoded rest.
use freestanding_custom_c_li.Prelude.{
  ℕ, suc, ◌+◌, ◌-◌, ◌*◌, ◌/◌, ◌%◌, ◌^◌, ◌≤◌, ◌<◌, ◌≡◌, ap, sym, ◌∙◌, some, arith, Bytes, leb-false,
  ltb_iff, ==_false,
}
use freestanding_custom_c_li.Prelude.Power.{between_powers, pow_pos, lt_of_pow-lt, word_lt_pow}
use freestanding_custom_c_li.Conversions.{
  uint64_max, enc_span, encode_signed, top_power, decode, decimal_table, binary_table, octal_table,
  hex_table, utoa_generic, itoa, unsigned_print, decimal_print,
}
use freestanding_custom_c_li.Conversions.Finish.{measure-IsSound}
use freestanding_custom_c_li.Conversions.Loops.{top_power-pow}
use freestanding_custom_c_li.Conversions.Signed.{encoded_test, offset}
use freestanding_custom_c_li.Conversions.Sessions.{
  Base, decimal, binary, octal, hex, radix, spare, unsigned_call, radix_two, spare_small,
}
use native.Mathlib.Nat.{pow-zero, pow-suc}

module _ (r : ℕ) (r2 : 2 ≤ r) (t : Bytes) (max_rem : ℕ) (few : max_rem < 2 ^ 32) where
  utoa_generic-short :
      (v : ℕ) (b : Bytes) (n : ℕ)
      → 1 ≤ n
      → n < 2 ^ 32
      → v < uint64_max - enc_span
      → r ^ (max_rem + n) ≤ v
      → utoa_generic (some v) (some b) n r t max_rem ≡ (0, some v, some b)
  unfolding utoa_generic unsigned_print
  utoa_generic-short v b n n1 small fresh wide =
      let v1 : 1 ≤ v = omega (arith, pow_pos r r2 (max_rem + n)) in
      let (m, lt, lo, hi) = between_powers r r2 64 v v1 (word_lt_pow r r2 64 v (omega arith)) in
      let beyond : max_rem + n < suc m = lt_of_pow-lt r r2 (max_rem + n) (suc m) (omega arith) in
      rw (
        ==_false n 0 (omega arith),
        ==_false v 0 (omega arith),
        leb-false (uint64_max - enc_span) v fresh,
        measure-IsSound r r2 m v lo hi (omega arith),
        (ltb_iff ((max_rem + n) % 2 ^ 64) (m + 1)).1 (omega arith),
      )

-- `utoa`, `utoab`, `utoao` and `utoax` with a buffer of `n` bytes, 1 at least and fewer than 2^32,
-- and an integer below the range of the encoded rests that has more than `spare base + n` digits:
-- they write nothing, return 0, and leave the integer and the buffer as they are.
pub unsigned_call-short :
    (base : Base) (v : ℕ) (b : Bytes) (n : ℕ)
    → 1 ≤ n
    → n < 2 ^ 32
    → v < uint64_max - enc_span
    → radix base ^ (spare base + n) ≤ v
    → unsigned_call base (some v) (some b) n ≡ (0, some v, some b)
unfolding unsigned_call
unsigned_call-short decimal =
    utoa_generic-short 10 (radix_two decimal) decimal_table 18 (spare_small decimal)
unsigned_call-short binary =
    utoa_generic-short 2 (radix_two binary) binary_table 60 (spare_small binary)
unsigned_call-short octal =
    utoa_generic-short 8 (radix_two octal) octal_table 20 (spare_small octal)
unsigned_call-short (hex upper) =
    utoa_generic-short 16 (radix_two (hex upper)) (hex_table upper) 15 (spare_small (hex upper))

-- A number below the radix is decoded as a lone marker with no digit behind it.
decode-marker :
    (r u : ℕ)
    → 2 ≤ r
    → r ≤ 64
    → 1 ≤ u
    → u < r
    → decode r u ≡ record { v = u - 1; digits = 0; div = 1 / r }
unfolding decode
decode-marker r u r2 r64 u1 lt =
    let one : r ^ suc 0 ≡ r = omega (arith, pow-suc r 0, ap (λ (t : ℕ). t * r) (pow-zero r)) in
    let found : top_power r 64 u 1 0 ≡ (1, 0) =
      ap (λ b. top_power r 64 u b 0) (sym (pow-zero r))
      ∙ top_power-pow r r2 64 0 u 0 (omega arith) (omega arith) (omega (arith, pow-zero r))
          (omega arith) (omega arith) (omega arith)
      ∙ ap (λ b. (b, 0)) (pow-zero r) in
    let rest : (u + 2 ^ 64 - 1) % 2 ^ 64 ≡ u - 1 = omega arith in
    rw found (λ i. record { v = rest i; digits = 0; div = 1 / r })

-- `itoa` on `INT64_MIN + u` for `u` from 1 to 9 and a buffer of at least a byte: it prints
-- nothing, returns 0, and sets the integer to `u - 1`.
pub itoa-marker :
    (u : ℕ) (b : Bytes) (n : ℕ)
    → 1 ≤ u
    → u < 10
    → 1 ≤ n
    → itoa (some (encode_signed u)) (some b) n ≡ (0, some (u - 1), some b)
unfolding itoa decimal_print
itoa-marker u b n u1 lt n1 = rw (
  ==_false n 0 (omega arith),
  ==_false (encode_signed u) 0 (omega arith),
  encoded_test u u1 (omega arith),
  offset u (omega arith),
  decode-marker 10 u (omega arith) (omega arith) u1 lt,
)
