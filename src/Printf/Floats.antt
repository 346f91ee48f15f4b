-- ===== src/Printf/Floats.antt =====
-- The conversions of floating-point numbers of src/stdio.c: `%f`, `%e`, `%g` and `%a`.
use Prim.Native.Nat.{bit_or}
use freestanding_custom_c_li.Prelude.{
  ℕ, zero, suc, ◌+◌, ◌-◌, ◌*◌, ◌/◌, ◌%◌, ◌^◌, Bool, false, ◌&&◌, ◌||◌, not, Option, none, some,
  List, [], ◌∷◌, ◌++◌, map, Bytes, length, get_or, take, drop, min, ltb, ◌==◌, if◌then◌else◌,
}
use freestanding_custom_c_li.Prelude.Int.{
  ℤ, pos, negsuc, pos_part, neg_part, sub_ℕ, ◌+ℤ◌, ◌-ℤ◌, ltb_ℤ, leb_ℤ,
}
use freestanding_custom_c_li.Kernel.{Kernel}
use freestanding_custom_c_li.Conversions.{hex_table}
use freestanding_custom_c_li.Printf.Formats.{State, float, scientific, hex_float}
use freestanding_custom_c_li.Printf.VarArgs.{Float}
use freestanding_custom_c_li.Printf.Integer.{fprintf_sign, sign_prefix}
use freestanding_custom_c_li.Printf.Decimal.{
  FpClass, fp_finite, fp_inf, FpParts, fp_split, FpDecimal, fp_to_decimal, fp_round, fp_digit_at,
  fp_count_digits, word_digits,
}
use freestanding_custom_c_li.Printf.Sinks.{
  Writer, ◌>>>◌, succeed, sink_bytes, sink_char, sink_repeat, fprintf_field_begin,
  fprintf_field_end,
}

-- `precision > 0 || (state->flags & USE_ALTERNATE)`: whether a point is printed, and its length.
abbrev pub has_point : State → ℕ → Bool
has_point state precision = ltb 0 precision || state.flags.use_alternate

abbrev pub point_length : State → ℕ → ℕ
point_length state precision = if has_point state precision then 1 else 0

abbrev pub integer_digits : FpDecimal → ℕ
integer_digits dec =
    if ltb 0 (length dec.digits) && ltb_ℤ (pos 0) dec.exp10 then pos_part dec.exp10 + 1 else 1

abbrev pub exponent_of : FpDecimal → ℤ
exponent_of dec = if length dec.digits == 0 then pos 0 else dec.exp10

-- The absolute value of an exponent.
abbrev pub abs_exponent : ℤ → ℕ
abs_exponent e = pos_part e + neg_part e

abbrev pub exponent_sign : ℤ → ℕ
exponent_sign e = if ltb_ℤ e (pos 0) then b'-' else b'+'

abbrev pub exponent_digits : ℤ → ℕ
exponent_digits e = let n = fp_count_digits (abs_exponent e) in if ltb n 2 then 2 else n

abbrev pub characters : List ℕ → Bytes
characters ds = map (λ d. b'0' + d) ds

-- `while (precision > 0 && !((frac >> (4 * (n - precision))) & 0xF)) --precision;`
pub hex_precision : (frac n precision : ℕ) → ℕ
hex_precision frac n zero = 0
hex_precision frac n (suc p) =
    let less = hex_precision frac n p in
    if frac / 2 ^ (4 * (n - suc p)) % 16 == 0 then less else suc p

-- The parts of a `%a` field.
pub record HexParts : Type 0 where
  pub lead : ℕ
  pub frac : ℕ
  pub exp : ℤ
  pub precision : ℕ

-- Rounding to `precision` hexadecimal digits, of the `n` that there are.
pub round_hex : (lead frac : ℕ) → (exp : ℤ) → (n precision : ℕ) → HexParts
round_hex lead frac exp n precision =
    let drop = 4 * (n - precision) in
    let rest = frac % 2 ^ drop in
    let half = 2 ^ (drop - 1) in
    let kept = bit_or (lead * 2 ^ (4 * precision) % 2 ^ 64) (frac / 2 ^ drop) in
    let rounded =
      if ltb half rest || (rest == half && kept % 2 == 1) then (kept + 1) % 2 ^ 64 else kept in
    let lead' = rounded / 2 ^ (4 * precision) in
    let frac' = rounded % 2 ^ (4 * precision) * 2 ^ drop % 2 ^ 64 in
    if ltb 15 lead'
    then record { lead = lead' / 16; frac = frac'; exp = exp +ℤ pos 4; precision = precision }
    else record { lead = lead'; frac = frac'; exp = exp; precision = precision }

pub hex_parts : FpParts → Option ℕ → HexParts
hex_parts parts precision =
    let bits = parts.hex_frac_bits in
    let n = bits / 4 in
    let lead = parts.mantissa / 2 ^ bits in
    let frac = parts.mantissa % 2 ^ bits in
    let exp = if parts.mantissa == 0 then pos 0 else parts.exp2 +ℤ pos bits in
    elim precision [
      | none ↦ record { lead = lead; frac = frac; exp = exp; precision = hex_precision frac n n }
      | some p ↦
          if ltb p n
          then round_hex lead frac exp n p
          else record { lead = lead; frac = frac; exp = exp; precision = p }
    ]

-- The `i`-th of the `n` hexadecimal digits behind the point, or 0 behind them.
abbrev pub hex_digit_at : Bytes → (frac n i : ℕ) → ℕ
hex_digit_at table frac n i =
    if ltb i n then get_or table (frac / 2 ^ (4 * (n - 1 - i)) % 16) 0 else b'0'

-- `%g` drops zeros at the end: the digits behind the point of a fixed number.
abbrev pub needed_digits : FpDecimal → ℤ → ℕ → ℕ
needed_digits dec exp10 frac_digits =
    let needed = sub_ℕ (length dec.digits) 1 -ℤ exp10 in
    if ltb_ℤ needed (pos frac_digits) then pos_part needed else frac_digits

module _ (k : Kernel) where
  -- `for (int power = int_digits - 1; power >= 0; --power)`
  unfoldable pub integer_loop : FpDecimal → ℕ → Writer k
  integer_loop dec zero = succeed
  integer_loop dec (suc power) =
      sink_char k (fp_digit_at dec (pos power)) >>> integer_loop dec power

  -- `for (int power = -1; power >= -precision; --power)`, at the power `-place`, with `rounds` digits
  -- to go.
  unfoldable pub fraction_loop : FpDecimal → (rounds place : ℕ) → Writer k
  fraction_loop dec zero place = succeed
  fraction_loop dec (suc rounds) place =
      let more =
        sink_char k (fp_digit_at dec (sub_ℕ 0 place)) >>> fraction_loop dec rounds (place + 1) in
      if leb_ℤ (pos (length dec.digits)) (dec.exp10 +ℤ pos place)
      then sink_repeat k b'0' (suc rounds)
      else more

  abbrev pub output_point : State → ℕ → Writer k
  output_point state precision = if has_point state precision then sink_char k b'.' else succeed

  unfoldable pub fp_output_fixed : State → FpDecimal → (precision : ℕ) → (prefix : Bytes) → Writer k
  fp_output_fixed state dec precision prefix =
      let n = integer_digits dec in
      let len = length prefix + n + point_length state precision + precision in
      fprintf_field_begin k state len prefix state.flags.leading_zeros
      >>> (integer_loop dec n
          >>> (output_point state precision
              >>> (fraction_loop dec precision 1 >>> fprintf_field_end k state len)))

  unfoldable pub fp_output_exponent :
      State → FpDecimal → (precision : ℕ) → (prefix : Bytes) → Writer k
  fp_output_exponent state dec precision prefix =
      let e = exponent_of dec in
      let n = exponent_digits e in
      let len = length prefix + 1 + point_length state precision + precision + 2 + n in
      let frac_digits = min (length dec.digits - 1) precision in
      let fraction =
        if ltb 0 frac_digits
        then sink_bytes k (characters (take frac_digits (drop 1 dec.digits)))
        else succeed in
      let exponent =
        (if state.upper then b'E' else b'e')
        ∷ exponent_sign e
        ∷ characters (word_digits n (abs_exponent e) []) in
      fprintf_field_begin k state len prefix state.flags.leading_zeros
      >>> (sink_char k (b'0' + get_or dec.digits 0 0)
          >>> (output_point state precision
              >>> (fraction
                  >>> (sink_repeat k b'0' (precision - frac_digits)
                      >>> (sink_bytes k exponent >>> fprintf_field_end k state len)))))

  -- `for (int i = 0; i < precision; ++i)`
  pub hex_loop : Bytes → (frac n rounds i : ℕ) → Writer k
  hex_loop table frac n zero i = succeed
  hex_loop table frac n (suc rounds) i =
      sink_char k (hex_digit_at table frac n i) >>> hex_loop table frac n rounds (i + 1)

  pub fp_output_hex : State → FpParts → (sign : Bytes) → Writer k
  fp_output_hex state parts sign =
      let table = hex_table state.upper in
      let h = hex_parts parts state.precision in
      let prefix = sign ++ (b'0' ∷ (if state.upper then b'X' else b'x') ∷ []) in
      let n = fp_count_digits (abs_exponent h.exp) in
      let len = length prefix + 1 + point_length state h.precision + h.precision + 2 + n in
      let exponent =
        (if state.upper then b'P' else b'p')
        ∷ exponent_sign h.exp
        ∷ characters (word_digits n (abs_exponent h.exp) []) in
      fprintf_field_begin k state len prefix state.flags.leading_zeros
      >>> (sink_char k (get_or table (h.lead % 16) 0)
          >>> (output_point state h.precision
              >>> (hex_loop table h.frac (parts.hex_frac_bits / 4) h.precision 0
                  >>> (sink_bytes k exponent >>> fprintf_field_end k state len))))

  -- `inf` and `nan`
  pub output_special : State → FpClass → (sign : Bytes) → Writer k
  output_special state cls sign =
      let text : Bytes = elim cls [
        | fp_inf ↦ if state.upper then b'I' ∷ b'N' ∷ b'F' ∷ [] else b'i' ∷ b'n' ∷ b'f' ∷ []
        | _ ↦ if state.upper then b'N' ∷ b'A' ∷ b'N' ∷ [] else b'n' ∷ b'a' ∷ b'n' ∷ []
      ] in
      let len = length sign + 3 in
      fprintf_field_begin k state len sign false
      >>> (sink_bytes k text >>> fprintf_field_end k state len)

  -- `%g`: the precision is the number of significant digits, and the exponent after rounding
  -- decides between the two styles.
  unfoldable pub output_smart : State → FpDecimal → (precision : ℕ) → (sign : Bytes) → Writer k
  output_smart state dec precision sign =
      let p = if precision == 0 then 1 else precision in
      let r = fp_round dec (pos p) in
      let e = exponent_of r in
      let behind = sub_ℕ p 1 -ℤ e in
      let fixed =
        fp_output_fixed state r
          (if state.flags.use_alternate
            then pos_part behind
            else needed_digits r e (pos_part behind))
          sign in
      let digits = length r.digits - 1 in
      let significant =
        if not state.flags.use_alternate && ltb digits (p - 1) then digits else p - 1 in
      if ltb_ℤ e (pos p) && leb_ℤ (negsuc 3) e
      then fixed
      else fp_output_exponent state r significant sign

  -- The conversions of a finite number.
  unfoldable pub output_finite : State → FpParts → (sign : Bytes) → Writer k
  output_finite state parts sign =
      let dec = fp_to_decimal parts.mantissa parts.exp2 in
      let precision : ℕ = elim state.precision [ none ↦ 6 | some p ↦ p ] in
      elim state.specifier [
        | hex_float ↦ fp_output_hex state parts sign
        | float ↦
            fp_output_fixed state
              (if length dec.digits == 0
                then dec
                else fp_round dec (dec.exp10 +ℤ pos (1 + precision)))
              precision sign
        | scientific ↦ fp_output_exponent state (fp_round dec (pos (precision + 1))) precision sign
        | _ ↦ output_smart state dec precision sign
      ]

  unfoldable pub fprintf_output_float : Float → State → Writer k
  fprintf_output_float value state =
      let parts = fp_split value in
      let sign = sign_prefix (fprintf_sign state.flags parts.negative) in
      elim parts.cls [
        | fp_finite ↦ output_finite state parts sign
        | cls ↦ output_special state cls sign
      ]
