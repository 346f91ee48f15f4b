-- ===== src/Printf/VarArgs.antt =====
-- `fprintf_get_data` of src/stdio.c, and the argument list that it reads.
-- An argument is the 64-bit word that passes an integer or a pointer, or a floating-point number by
-- its bits. `none` is an argument that is missing or of another kind, which C leaves undefined.
-- The sizes are those of x86-64 (intf/stdint.h).
use freestanding_custom_c_li.Prelude.{
  ℕ, ◌+◌, ◌-◌, ◌%◌, ◌^◌, Option, none, some, List, ◌∷◌, ltb, if◌then◌else◌, ◌>>=◌,
}
use freestanding_custom_c_li.Printf.Formats.{
  LengthModifier, default_length, char_length, short_length, long_length, long_long_length,
  size_length, ptrdiff_length, intmax_length, long_double_length, Specifier, unknown,
  signed_decimal, unsigned_decimal, octal, hex, float, scientific, smart, hex_float, character,
  string, pointer, count,
}

-- A `double` by its 64 bits; a `long double` by its mantissa and its sign and exponent.
pub data Float : Type 0 where
  double : ℕ → Float
  extended : ℕ → ℕ → Float

pub data Argument : Type 0 where
  word : ℕ → Argument
  floating : Float → Argument

-- `va_list`
abbrev pub Arguments : Type 0
Arguments = List Argument

-- `fprintf_data`: the word that `i`, `u` and `p` share, or `f`.
pub data Data : Type 0 where
  word_data : ℕ → Data
  float_data : Float → Data

abbrev pub next_word : Arguments → Option (ℕ × Arguments)
next_word (word x ∷ args) = some (x, args)
next_word _ = none

-- A `w`-bit pattern as a 64-bit one with the same signed value.
abbrev pub sign_extend_from : ℕ → ℕ → ℕ
sign_extend_from w x =
    let low = x % 2 ^ w in if ltb low (2 ^ (w - 1)) then low else low + (2 ^ 64 - 2 ^ w)

-- How many bits of its argument a conversion to an integer reads.
abbrev pub bits_of : LengthModifier → ℕ
bits_of char_length = 8
bits_of short_length = 16
bits_of long_length = 64
bits_of long_long_length = 64
bits_of size_length = 64
bits_of ptrdiff_length = 64
bits_of intmax_length = 64
bits_of default_length = 32
bits_of long_double_length = 32

-- A `float` argument is passed as a `double`, and a `long double` as itself.
unfoldable pub next_float : LengthModifier → Arguments → Option (Data × Arguments)
next_float long_double_length (floating (extended m e) ∷ args) =
    some (float_data (extended m e), args)
next_float long_double_length _ = none
next_float _ (floating (double b) ∷ args) = some (float_data (double b), args)
next_float _ _ = none

unfoldable pub fprintf_get_data : Arguments → LengthModifier → Specifier → Option (Data × Arguments)
fprintf_get_data args length string =
    next_word args >>= λ (p, more). some (word_data (p % 2 ^ 64), more)
fprintf_get_data args length pointer =
    next_word args >>= λ (p, more). some (word_data (p % 2 ^ 64), more)
fprintf_get_data args length count =
    next_word args >>= λ (p, more). some (word_data (p % 2 ^ 64), more)
fprintf_get_data args length signed_decimal =
    next_word args >>= λ (x, more). some (word_data (sign_extend_from (bits_of length) x), more)
fprintf_get_data args length octal =
    next_word args >>= λ (x, more). some (word_data (x % 2 ^ bits_of length), more)
fprintf_get_data args length hex =
    next_word args >>= λ (x, more). some (word_data (x % 2 ^ bits_of length), more)
fprintf_get_data args length unsigned_decimal =
    next_word args >>= λ (x, more). some (word_data (x % 2 ^ bits_of length), more)
fprintf_get_data args length character =
    next_word args >>= λ (x, more). some (word_data (x % 2 ^ 32), more)
fprintf_get_data args length float = next_float length args
fprintf_get_data args length scientific = next_float length args
fprintf_get_data args length smart = next_float length args
fprintf_get_data args length hex_float = next_float length args
fprintf_get_data args length unknown = some (word_data 0, args)
