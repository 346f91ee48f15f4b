-- ===== src/Printf/Integer.antt =====
-- `fprintf_sign` and `fprintf_output_integer` of src/stdio.c.
pub mod Digits
pub mod Described
pub mod Output
use freestanding_custom_c_li.Prelude.{
  ℕ, zero, suc, ◌+◌, ◌-◌, ◌%◌, ◌/◌, ◌^◌, Bool, true, false, ◌&&◌, ◌||◌, not, Option, none, some, [],
  ◌∷◌, ◌++◌, Bytes, length, get_or, ltb, leb, ◌==◌, if◌then◌else◌,
}
use freestanding_custom_c_li.Kernel.{Kernel}
use freestanding_custom_c_li.Conversions.{hex_table}
use freestanding_custom_c_li.Printf.Formats.{
  Flags, State, Specifier, signed_decimal, octal, hex, pointer,
}
use freestanding_custom_c_li.Printf.Parse.{first}
use freestanding_custom_c_li.Printf.Sinks.{
  Writer, ◌>>>◌, sink_bytes, sink_repeat, fprintf_field_begin, fprintf_field_end,
}

-- 0 for no sign.
unfoldable pub fprintf_sign : Flags → (negative : Bool) → ℕ
fprintf_sign flags negative =
    if negative
    then b'-'
    else if flags.show_sign
    then b'+'
    else if flags.space_if_no_sign
    then b' '
    else 0

abbrev pub sign_prefix : ℕ → Bytes
sign_prefix sign = if sign == 0 then [] else sign ∷ []

abbrev pub is_signed_decimal : Specifier → Bool
is_signed_decimal signed_decimal = true
is_signed_decimal _ = false

abbrev pub is_octal : Specifier → Bool
is_octal octal = true
is_octal _ = false

abbrev pub is_pointer : Specifier → Bool
is_pointer pointer = true
is_pointer _ = false

abbrev pub base_of : Specifier → ℕ
base_of octal = 8
base_of hex = 16
base_of pointer = 16
base_of _ = 10

-- `do { digits[--i] = hex_digits[value % base]; value /= base; } while (value);` with the digits
-- written so far. The buffer has 24 bytes.
unfoldable pub digits_loop : ℕ → (table : Bytes) → (base value : ℕ) → Bytes → Bytes
digits_loop zero table base value digits = digits
digits_loop (suc room) table base value digits =
    let next = get_or table (value % base) 0 ∷ digits in
    let more = digits_loop room table base (value / base) next in
    if value / base == 0 then next else more

abbrev pub is_some_zero : Option ℕ → Bool
is_some_zero none = false
is_some_zero (some p) = p == 0

-- A precision of 0 prints no digits for the value 0.
unfoldable pub digits_of_value : State → ℕ → Bytes
digits_of_value state value =
    if value == 0 && is_some_zero state.precision
    then []
    else digits_loop 24 (hex_table state.upper) (base_of state.specifier) value []

abbrev pub missing_zeros : Option ℕ → ℕ → ℕ
missing_zeros none n = 0
missing_zeros (some p) n = p - n

-- What a field consists of.
pub record Field : Type 0 where
  pub prefix : Bytes
  pub zeros : ℕ
  pub digits : Bytes

-- `value`, negated as unsigned where the data is negative.
abbrev pub is_negative : State → ℕ → Bool
is_negative state u = is_signed_decimal state.specifier && leb (2 ^ 63) u

abbrev pub magnitude_of : State → ℕ → ℕ
magnitude_of state u = if is_negative state u then (2 ^ 64 - u) % 2 ^ 64 else u

unfoldable pub integer_field : State → ℕ → Field
integer_field state u =
    let digits = digits_of_value state (magnitude_of state u) in
    let zeros = missing_zeros state.precision (length digits) in
    if is_signed_decimal state.specifier
    then record {
      prefix = sign_prefix (fprintf_sign state.flags (is_negative state u));
      zeros = zeros;
      digits = digits;
    }
    else if is_octal state.specifier
    then record {
      prefix = [];
      zeros =
          if state.flags.use_alternate && (zeros == 0 && not (first digits == b'0'))
          then 1
          else zeros;
      digits = digits;
    }
    else record {
      prefix =
          if base_of state.specifier == 16
            && (not (u == 0) && (state.flags.use_alternate || is_pointer state.specifier))
          then b'0' ∷ (if state.upper then b'X' else b'x') ∷ []
          else [];
      zeros = zeros;
      digits = digits;
    }

abbrev pub is_none : Option ℕ → Bool
is_none none = true
is_none (some p) = false

module _ (k : Kernel) where
  unfoldable pub fprintf_output_integer : (u : ℕ) → State → Writer k
  fprintf_output_integer u state =
      let f = integer_field state u in
      let zero_pad = state.flags.leading_zeros && is_none state.precision in
      let len = length f.prefix + f.zeros + length f.digits in
      fprintf_field_begin k state len f.prefix zero_pad
      >>> (sink_repeat k b'0' f.zeros >>> (sink_bytes k f.digits >>> fprintf_field_end k state len))
