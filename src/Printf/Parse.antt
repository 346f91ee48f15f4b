-- ===== src/Printf/Parse.antt =====
-- The parts of a conversion specification (src/stdio.c). A text is the list of its bytes before the
-- NUL, which the end of the list stands for. `none` is the overflow of an `int`.
pub mod Numbers
pub mod RoundTrip
use freestanding_custom_c_li.Prelude.{
  ℕ, ◌+◌, ◌-◌, ◌*◌, ◌^◌, Bool, true, false, ◌&&◌, Option, none, some, [], ◌∷◌, Bytes, ltb, leb,
  ◌==◌, if◌then◌else◌,
}
use freestanding_custom_c_li.Conversions.Atoi.{int_max, is_digit}
use freestanding_custom_c_li.Printf.Formats.{
  Flags, no_flags, LengthModifier, default_length, char_length, short_length, long_length,
  long_long_length, size_length, ptrdiff_length, intmax_length, long_double_length, Specifier,
  unknown, signed_decimal, unsigned_decimal, octal, hex, float, scientific, smart, hex_float,
  character, string, pointer, count,
}

-- `**str` and `(*str)[1]`
abbrev pub first : Bytes → ℕ
first [] = 0
first (c ∷ s) = c

abbrev pub rest : Bytes → Bytes
rest [] = []
rest (c ∷ s) = s

unfoldable pub number_loop : ℕ → Bytes → Option (ℕ × Bytes)
number_loop value [] = some (value, [])
number_loop value (c ∷ s) =
    let next = value * 10 + (c - b'0') in
    let more = number_loop next s in
    if is_digit c then (if ltb int_max next then none else more) else some (value, c ∷ s)

unfoldable pub parse_number : Bytes → Option (ℕ × Bytes)
parse_number fmt = number_loop 0 fmt

unfoldable pub flags_loop : Flags → Bytes → Flags × Bytes
flags_loop flags [] = (flags, [])
flags_loop flags (c ∷ s) =
    let left = flags_loop (record flags { left_align = true }) s in
    let sign = flags_loop (record flags { show_sign = true }) s in
    let space = flags_loop (record flags { space_if_no_sign = true }) s in
    let zeros = flags_loop (record flags { leading_zeros = true }) s in
    let alternate = flags_loop (record flags { use_alternate = true }) s in
    if c == b'-'
    then left
    else if c == b'+'
    then sign
    else if c == b' '
    then space
    else if c == b'0'
    then zeros
    else if c == b'#'
    then alternate
    else (flags, c ∷ s)

unfoldable pub get_fprintf_flags : Bytes → Flags × Bytes
get_fprintf_flags str = flags_loop no_flags str

unfoldable pub get_length_modifier : Bytes → LengthModifier × Bytes
get_length_modifier str =
    let c = first str in
    let after = rest str in
    if c == b'h'
    then (if first after == b'h' then (char_length, rest after) else (short_length, after))
    else if c == b'l'
    then (if first after == b'l' then (long_long_length, rest after) else (long_length, after))
    else if c == b'z'
    then (size_length, after)
    else if c == b't'
    then (ptrdiff_length, after)
    else if c == b'j'
    then (intmax_length, after)
    else if c == b'L'
    then (long_double_length, after)
    else (default_length, str)

-- The `switch` of `get_format_specifier`.
unfoldable pub specifier_of : ℕ → Specifier
specifier_of c =
    if c == b'd'
    then signed_decimal
    else if c == b'i'
    then signed_decimal
    else if c == b'u'
    then unsigned_decimal
    else if c == b'o'
    then octal
    else if c == b'X'
    then hex
    else if c == b'x'
    then hex
    else if c == b'F'
    then float
    else if c == b'f'
    then float
    else if c == b'e'
    then scientific
    else if c == b'E'
    then scientific
    else if c == b'g'
    then smart
    else if c == b'G'
    then smart
    else if c == b'a'
    then hex_float
    else if c == b'A'
    then hex_float
    else if c == b'c'
    then character
    else if c == b's'
    then string
    else if c == b'p'
    then pointer
    else if c == b'n'
    then count
    else unknown

abbrev pub is_upper : ℕ → Bool
is_upper c = leb b'A' c && leb c b'Z'

abbrev pub is_unknown : Specifier → Bool
is_unknown unknown = true
is_unknown _ = false

-- The specifier, its bit for upper case, and the text behind it. An unknown one is not consumed.
unfoldable pub get_format_specifier : Bytes → Specifier × Bool × Bytes
get_format_specifier str =
    let c = first str in
    let s = specifier_of c in
    if is_unknown s then (unknown, false, str) else (s, is_upper c, rest str)
