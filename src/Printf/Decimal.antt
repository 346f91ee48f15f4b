-- ===== src/Printf/Decimal.antt =====
-- The exact decimal expansion of a binary floating-point number, and its rounding (src/stdio.c).
-- A digit is stored by its value, where the source has the character `'0' + d`; the `count` of a
-- `fp_decimal` is the length of its digits. A big integer is the list of its words in base 10^9,
-- the lowest first. The loops run on as many rounds as a `uint64_t` or the exponent needs.
pub mod Bignum
pub mod Digits
pub mod Exact
pub mod HalfEven
pub mod Rounding
use freestanding_custom_c_li.Prelude.{
  ℕ, zero, suc, ◌+◌, ◌-◌, ◌*◌, ◌/◌, ◌%◌, ◌^◌, Bool, true, false, ◌&&◌, ◌||◌, Option, none, some,
  List, [], ◌∷◌, ◌++◌, length, get_or, take, ltb, leb, ◌==◌, if◌then◌else◌,
}
use freestanding_custom_c_li.Prelude.Int.{
  ℤ, pos, negsuc, pos_part, neg_part, sub_ℕ, ◌+ℤ◌, ◌-ℤ◌, ltb_ℤ, leb_ℤ,
}
use freestanding_custom_c_li.Printf.VarArgs.{Float, double, extended}

pub data FpClass : Type 0 where
  fp_finite fp_inf fp_nan : FpClass

pub record FpParts : Type 0 where
  pub cls : FpClass
  pub negative : Bool
  pub mantissa : ℕ
  pub exp2 : ℤ
  pub hex_frac_bits : ℕ

abbrev biased : ℕ → ℕ → ℤ
biased exp bias = sub_ℕ (if exp == 0 then 1 else exp) bias

unfoldable pub fp_split : Float → FpParts
fp_split (extended mantissa sign_exp) =
    let exp = sign_exp % 2 ^ 15 in
    record {
      cls =
          if exp == 0x7FFF
          then (if mantissa * 2 % 2 ^ 64 == 0 then fp_inf else fp_nan)
          else fp_finite;
      negative = sign_exp / 2 ^ 15 % 2 == 1;
      mantissa = mantissa;
      exp2 = biased exp (16383 + 63);
      hex_frac_bits = 60;
    }
fp_split (double bits) =
    let exp = bits / 2 ^ 52 % 2 ^ 11 in
    let fraction = bits % 2 ^ 52 in
    record {
      cls = if exp == 0x7FF then (if fraction == 0 then fp_inf else fp_nan) else fp_finite;
      negative = bits / 2 ^ 63 % 2 == 1;
      mantissa = if exp == 0 then fraction else fraction + 2 ^ 52;
      exp2 = biased exp (1023 + 52);
      hex_frac_bits = 52;
    }

abbrev pub big_base : ℕ
big_base = 1000000000

-- `while (carry) { big[n++] = carry % base; carry /= base; }`
unfoldable pub push_loop : ℕ → ℕ → List ℕ
push_loop zero carry = []
push_loop (suc fuel) carry =
    let more = push_loop fuel (carry / big_base) in
    if carry == 0 then [] else (carry % big_base) ∷ more

-- The words times `factor`, with a carry that goes in below and out above.
unfoldable pub mul_loop : (factor carry : ℕ) → List ℕ → List ℕ
mul_loop factor carry [] = push_loop 3 carry
mul_loop factor carry (d ∷ big) =
    let x = (d * factor + carry) % 2 ^ 64 in (x % big_base) ∷ mul_loop factor (x / big_base) big

unfoldable pub fp_big_mul : List ℕ → (factor : ℕ) → List ℕ
fp_big_mul big factor = mul_loop factor 0 big

-- `while (!(mantissa & 1)) { mantissa >>= 1; ++exp2; }`, with the shifts that were made.
unfoldable pub strip_loop : ℕ → ℕ → ℕ → ℕ × ℕ
strip_loop zero mantissa shifts = (mantissa, shifts)
strip_loop (suc fuel) mantissa shifts =
    let more = strip_loop fuel (mantissa / 2) (shifts + 1) in
    if mantissa % 2 == 0 then more else (mantissa, shifts)

-- `for (; k >= 29; k -= 29) n = fp_big_mul(big, n, 1u << 29);` and the factor `1u << k` behind it.
unfoldable pub scale_two : ℕ → ℕ → List ℕ → List ℕ
scale_two zero k big = big
scale_two (suc fuel) k big =
    let more = scale_two fuel (k - 29) (fp_big_mul big (2 ^ 29)) in
    if leb 29 k then more else fp_big_mul big (2 ^ k)

-- `while (k--) factor *= 5;`
unfoldable pub five_loop : ℕ → ℕ → ℕ
five_loop zero factor = factor
five_loop (suc k) factor = five_loop k (factor * 5 % 2 ^ 32)

unfoldable pub scale_five : ℕ → ℕ → List ℕ → List ℕ
scale_five zero k big = big
scale_five (suc fuel) k big =
    let more = scale_five fuel (k - 13) (fp_big_mul big 1220703125) in
    if leb 13 k then more else fp_big_mul big (five_loop k 1)

-- The digits of the highest word, of which there are 10 at most.
unfoldable pub top_digits : ℕ → ℕ → List ℕ → List ℕ
top_digits zero w digits = digits
top_digits (suc room) w digits =
    let more = top_digits room (w / 10) (w % 10 ∷ digits) in if w == 0 then digits else more

-- `n` digits of a word.
unfoldable pub word_digits : ℕ → ℕ → List ℕ → List ℕ
word_digits zero w digits = digits
word_digits (suc n) w digits = word_digits n (w / 10) (w % 10 ∷ digits)

unfoldable pub big_digits : List ℕ → List ℕ
big_digits [] = []
big_digits (w ∷ []) = top_digits 10 w []
big_digits (w ∷ v ∷ big) = big_digits (v ∷ big) ++ word_digits 9 w []

-- `fp_decimal`
pub record FpDecimal : Type 0 where
  pub digits : List ℕ
  pub exp10 : ℤ

abbrev cons_unless_zero : ℕ → List ℕ → List ℕ
cons_unless_zero d [] = if d == 0 then [] else d ∷ []
cons_unless_zero d (e ∷ ds) = d ∷ e ∷ ds

-- `while (count > 0 && digits[count - 1] == '0') --count;`
unfoldable pub trim : List ℕ → List ℕ
trim [] = []
trim (d ∷ ds) = cons_unless_zero d (trim ds)

unfoldable pub fp_to_decimal : (mantissa : ℕ) → (exp2 : ℤ) → FpDecimal
fp_to_decimal mantissa exp2 =
    let (odd, shifts) = strip_loop 64 mantissa 0 in
    let e = exp2 +ℤ pos shifts in
    let big = push_loop 3 odd in
    let scaled =
      if ltb_ℤ (pos 0) e
      then scale_two (pos_part e + 1) (pos_part e) big
      else scale_five (neg_part e + 1) (neg_part e) big in
    let digits = big_digits scaled in
    if mantissa == 0
    then record { digits = []; exp10 = pos 0 }
    else record { digits = trim digits; exp10 = sub_ℕ (length digits) (1 + neg_part e) }

-- The digit before the nines at the end goes up, and the nines go. `none` is a list of nines.
unfoldable pub bump : List ℕ → Option (List ℕ)
bump [] = none
bump (d ∷ ds) = elim (bump ds) [
  | none ↦ if d == 9 then none else some ((d + 1) ∷ [])
  | some more ↦ some (d ∷ more)
]

-- Whether the digits go up when the first `n` are kept.
abbrev pub rounds_up : List ℕ → ℕ → Bool
rounds_up digits n =
    let next = get_or digits n 0 in
    ltb 5 next
    || (next == 5 && (ltb (n + 1) (length digits) || (ltb 0 n && get_or digits (n - 1) 0 % 2 == 1)))

unfoldable pub round_at : FpDecimal → ℕ → FpDecimal
round_at dec n =
    let kept = take n dec.digits in
    if rounds_up dec.digits n
    then elim (bump kept) [
      | none ↦ record { digits = 1 ∷ []; exp10 = dec.exp10 +ℤ pos 1 }
      | some more ↦ record dec { digits = trim more }
    ]
    else record dec { digits = trim kept }

unfoldable pub fp_round : FpDecimal → (keep : ℤ) → FpDecimal
fp_round dec (negsuc n) = record dec { digits = [] }
fp_round dec (pos n) = if leb (length dec.digits) n then dec else round_at dec n

unfoldable pub fp_digit_at : FpDecimal → (power : ℤ) → ℕ
fp_digit_at dec power =
    let i = dec.exp10 -ℤ power in
    if leb_ℤ (pos 0) i then b'0' + get_or dec.digits (pos_part i) 0 else b'0'

unfoldable pub count_loop : ℕ → ℕ → ℕ → ℕ
count_loop zero value n = n
count_loop (suc fuel) value n =
    let more = count_loop fuel (value / 10) (n + 1) in if leb 10 value then more else n

-- An `unsigned` has 10 digits at most.
unfoldable pub fp_count_digits : ℕ → ℕ
fp_count_digits value = count_loop 10 value 1
