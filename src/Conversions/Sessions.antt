-- ===== src/Conversions/Sessions.antt =====
-- The printers of src/conversions.c through any row of buffers: the whole numeral comes out, in
-- order, however it is cut.
use freestanding_custom_c_li.Prelude.{
  ℕ, suc, ◌+◌, ◌-◌, ◌^◌, ◌≤◌, ◌<◌, ◌≡◌, ap, sym, ◌∙◌, Bool, List, [], ◌∷◌, ◌++◌, map, Option, arith,
  Bytes, length, take, drop, drop-length,
}
use freestanding_custom_c_li.Prelude.Power.{between_powers}
use native.Mathlib.Numerals.{add-one}
use freestanding_custom_c_li.Conversions.{
  Call, uint64_max, enc_span, encode_unsigned, digit_of, decimal_table, binary_table, octal_table,
  hex_table, utoa_generic, utoa, utoab, utoao, utoax, itoa, itoab, itoao, itoax,
}
use freestanding_custom_c_li.Conversions.Digits.{
  digits_of, IsNumeral, digits_of-IsNumeral, length-digits_of,
}
use freestanding_custom_c_li.Conversions.Finish.{Left, done, more, Fits}
use freestanding_custom_c_li.Conversions.Unsigned.{unsigned_print-resume, unsigned_print-start}
use freestanding_custom_c_li.Conversions.Drain.{
  printer, drain, room, AllUsable, Drained, take-Prints, drain-start,
}

-- The bases of the printers, with what each passes to the generic function.
pub data Base : Type 0 where
  decimal binary octal : Base
  hex : Bool → Base

abbrev pub radix : Base → ℕ
radix decimal = 10
radix binary = 2
radix octal = 8
radix (hex upper) = 16

abbrev pub table : Base → Bytes
table decimal = decimal_table
table binary = binary_table
table octal = octal_table
table (hex upper) = hex_table upper

-- The most digits that a call may leave for the next.
abbrev pub spare : Base → ℕ
spare decimal = 18
spare binary = 60
spare octal = 20
spare (hex upper) = 15

unfoldable pub unsigned_call : Base → Option ℕ → Option Bytes → ℕ → Call
unfolding utoa utoab utoao utoax
unsigned_call decimal = utoa
unsigned_call binary = utoab
unsigned_call octal = utoao
unsigned_call (hex upper) = λ i buf n. utoax i buf n upper

unfoldable pub signed_call : Base → Option ℕ → Option Bytes → ℕ → Call
unfolding itoa itoab itoao itoax
signed_call decimal = itoa
signed_call binary = itoab
signed_call octal = itoao
signed_call (hex upper) = λ i buf n. itoax i buf n upper

-- What comes out of a print of `v` behind the bytes `pre`: the numeral of `v`, as far as `total`
-- bytes reach. The integer is 0 at the end if the whole numeral is out.
pub record Session (r : ℕ) (digit : ℕ → ℕ) (pre : Bytes) (total v : ℕ) (res : Bytes × ℕ)
    : Type 0 where
  pub numeral : List ℕ
  pub spells : IsNumeral r v numeral
  pub out : res.0 ≡ pre ++ map digit (take total numeral)
  pub complete : length numeral ≤ total → res.1 ≡ 0

module _ (encode digit : ℕ → ℕ) (r : ℕ) (r2 : 2 ≤ r) where
  eq_zero_of_done :
      (x total : ℕ) (ds : List ℕ) → Left encode r x (drop total ds) → length ds ≤ total → x ≡ 0
  eq_zero_of_done x total ds (done z e) h = z
  eq_zero_of_done x total ds (more m s m1 lt fits e es) h =
      absurd (omega (arith, ap length (sym es ∙ drop-length total ds h), length-digits_of r m s))

  pub Drained-Session :
      (pre : Bytes) (total m v : ℕ) (res : Bytes × ℕ)
      → r ^ m ≤ v
      → v < r ^ suc m
      → Drained encode digit r pre total (digits_of r (m + 1) v) res
      → Session r digit pre total v res
  Drained-Session pre total m v res lo hi d = record {
    numeral = digits_of r (m + 1) v;
    spells = rw (add-one m) (digits_of-IsNumeral r r2 m v lo hi);
    out = d.out;
    complete = λ h. eq_zero_of_done res.1 total (digits_of r (m + 1) v) d.left h;
  }

module _ (r : ℕ) (r2 : 2 ≤ r) (t : Bytes) (max_rem : ℕ) (span : Fits r max_rem)
    (few : max_rem < 2 ^ 32) where
  -- `utoa_generic` through buffers.
  utoa_generic-Session :
      (v : ℕ) (b : Bytes) (bs : List Bytes)
      → 1 ≤ v
      → v < uint64_max - enc_span
      → v < r ^ (max_rem + length b)
      → AllUsable (b ∷ bs)
      → length b < 2 ^ 32
      → Session r
          (digit_of t)
          []
          (room (b ∷ bs))
          v
          (drain (printer (λ i buf n. utoa_generic i buf n r t max_rem)) v (b ∷ bs))
  unfolding utoa_generic
  utoa_generic-Session v b bs v1 fresh width usable small =
      let (m, lt, lo, hi) = between_powers r r2 (max_rem + length b) v v1 width in
      let first =
        unsigned_print-start r r2 t max_rem span v m b (length b) lo hi fresh usable.0 (omega arith)
          small few (omega arith) in
      Drained-Session encode_unsigned (digit_of t) r r2 [] (room (b ∷ bs)) m v _ lo hi (
        drain-start encode_unsigned (digit_of t) r _ (λ t t1 fits. omega arith)
          (λ m s b' m1 lt fits n1.
            unsigned_print-resume r r2 t max_rem span m s b' (length b') m1 lt fits n1
              (omega arith))
          [] (length b) (digits_of r (m + 1) v) v b bs usable.1
          (take-Prints encode_unsigned (digit_of t) r first (omega arith)) first.left)

pub radix_two : (base : Base) → 2 ≤ radix base
radix_two decimal = omega arith
radix_two binary = omega arith
radix_two octal = omega arith
radix_two (hex upper) = omega arith

pub radix-Fits : (base : Base) → Fits (radix base) (spare base)
radix-Fits decimal = omega arith
radix-Fits binary = omega arith
radix-Fits octal = omega arith
radix-Fits (hex upper) = omega arith

pub spare_small : (base : Base) → spare base < 2 ^ 32
spare_small decimal = omega arith
spare_small binary = omega arith
spare_small octal = omega arith
spare_small (hex upper) = omega arith

-- `utoa`, `utoab`, `utoao` and `utoax` through any row of buffers. The integer `v` is not 0 and
-- below the range of the encoded rests, the buffers have room for a byte each, and the first for
-- fewer than 2^32 bytes and for so many digits that at most `spare base` are left behind the first
-- call. Then the bytes that the calls write are, as far as the room reaches, the numeral of `v` in
-- the base, and the integer is 0 at the end if the room is enough for the numeral.
pub unsigned_call-Session :
    (base : Base) (v : ℕ) (b : Bytes) (bs : List Bytes)
    → 1 ≤ v
    → v < uint64_max - enc_span
    → v < radix base ^ (spare base + length b)
    → AllUsable (b ∷ bs)
    → length b < 2 ^ 32
    → Session
        (radix base)
        (digit_of (table base))
        []
        (room (b ∷ bs))
        v
        (drain (printer (unsigned_call base)) v (b ∷ bs))
unfolding unsigned_call
unsigned_call-Session decimal =
    utoa_generic-Session 10 (radix_two decimal) decimal_table 18 (radix-Fits decimal)
      (spare_small decimal)
unsigned_call-Session binary =
    utoa_generic-Session 2 (radix_two binary) binary_table 60 (radix-Fits binary)
      (spare_small binary)
unsigned_call-Session octal =
    utoa_generic-Session 8 (radix_two octal) octal_table 20 (radix-Fits octal) (spare_small octal)
unsigned_call-Session (hex upper) =
    utoa_generic-Session 16 (radix_two (hex upper)) (hex_table upper) 15 (radix-Fits (hex upper))
      (spare_small (hex upper))
