-- ===== src/Printf.antt =====
-- `fprintf` of src/stdio.c: the loop over the format, the parts of a conversion specification, and
-- the choice of the conversion. The children model the parts.
-- `none` is undefined behaviour of C (an argument that is missing or of another kind, the overflow
-- of an `int`), or fuel that ran out: `fuel` bounds the length of the strings that are printed.
pub mod Formats
pub mod Parse
pub mod VarArgs
pub mod Sinks
pub mod Integer
pub mod Text
pub mod Decimal
pub mod Floats
pub mod Conversions
pub mod Loop
mod Examples
use freestanding_custom_c_li.Prelude.{
  ℕ, zero, suc, ◌+◌, ◌-◌, ◌%◌, ◌^◌, Bool, true, false, not, Option, none, some, [], ◌∷◌, Bytes,
  length, take, ltb, ◌==◌, if◌then◌else◌, ◌>>=◌,
}
use freestanding_custom_c_li.Kernel.{Kernel}
use freestanding_custom_c_li.Stdio.{File}
use freestanding_custom_c_li.Strings.Memory.{Mem}
use freestanding_custom_c_li.Printf.Formats.{
  Flags, LengthModifier, long_length, State, Specifier, unknown, signed_decimal, unsigned_decimal,
  octal, hex, float, scientific, smart, hex_float, character, string, pointer, count,
}
use freestanding_custom_c_li.Printf.Parse.{
  first, rest, parse_number, get_fprintf_flags, get_length_modifier, get_format_specifier,
  is_unknown,
}
use freestanding_custom_c_li.Printf.VarArgs.{
  Float, Arguments, Data, word_data, float_data, next_word, fprintf_get_data,
}
use freestanding_custom_c_li.Printf.Sinks.{
  Sink, WriterOf, Writer, refuse, proceed, sink_bytes, sink_char,
}
use freestanding_custom_c_li.Printf.Integer.{fprintf_output_integer}
use freestanding_custom_c_li.Printf.Text.{
  fprintf_store_count, fprintf_output_string, output_character, output_string,
}
use freestanding_custom_c_li.Printf.Floats.{fprintf_output_float}

-- `va_arg(va, int)`: whether it is negative, and its absolute value. That of `INT_MIN` overflows.
pub next_int : Arguments → Option ((Bool × ℕ) × Arguments)
next_int args = next_word args >>= λ (x, more).
    let low = x % 2 ^ 32 in
    if ltb low (2 ^ 31)
    then some ((false, low), more)
    else if low == 2 ^ 31
    then none
    else some ((true, 2 ^ 32 - low), more)

abbrev pub set_left : Flags → Bool → Flags
set_left flags negative = if negative then record flags { left_align = true } else flags

-- `*`, or digits.
pub read_width : Flags → Bytes → Arguments → Option (Flags × ℕ × Bytes × Arguments)
read_width flags str args =
    if first str == b'*'
    then (next_int args >>= λ ((negative, n), more).
        some (set_left flags negative, n, rest str, more))
    else (parse_number str >>= λ (n, after). some (flags, n, after, args))

-- `va_arg(va, int)` without the overflow, since a negative precision is dropped.
pub next_precision : Arguments → Option (Option ℕ × Arguments)
next_precision args = next_word args >>= λ (x, more).
    let low = x % 2 ^ 32 in some (if ltb low (2 ^ 31) then some low else none, more)

pub read_precision : Bytes → Arguments → Option (Option ℕ × Bytes × Arguments)
read_precision str args =
    if not (first str == b'.')
    then some (none, str, args)
    else if first (rest str) == b'*'
    then (next_precision args >>= λ (p, more). some (p, rest (rest str), more))
    else (parse_number (rest str) >>= λ (p, after). some (some p, after, args))

-- The left align flag overrides the leading zeros flag.
abbrev pub settle : Flags → Flags
settle flags = if flags.left_align then record flags { leading_zeros = false } else flags

-- The specification behind a `%`, and the text and the arguments behind it.
pub read_conversion : Bytes → Arguments → Option (State × Bytes × Arguments)
read_conversion str args =
    let (flags, s1) = get_fprintf_flags str in
    read_width flags s1 args >>= λ (flags', width, s2, more).
    read_precision s2 more >>= λ (precision, s3, left).
    let (modifier, s4) = get_length_modifier s3 in
    let (specifier, upper, s5) = get_format_specifier s4 in
    some (
      record {
        flags = settle flags';
        width = width;
        precision = precision;
        modifier = modifier;
        specifier = specifier;
        upper = upper;
      },
      s5,
      left,
    )

abbrev pub is_long : LengthModifier → Bool
is_long long_length = true
is_long _ = false

abbrev pub is_count : Specifier → Bool
is_count count = true
is_count _ = false

-- The text up to the next `%`, and what follows it.
pub before_percent : Bytes → Bytes × Bytes
before_percent [] = ([], [])
before_percent (c ∷ s) =
    let (text, after) = before_percent s in if c == b'%' then ([], c ∷ s) else (c ∷ text, after)

module _ (k : Kernel) where
  open k use {World}

  abbrev on_word : Data → (ℕ → Writer k) → Writer k
  on_word (word_data u) f = f u
  on_word (float_data v) f = λ s w. none

  abbrev on_float : Data → (Float → Writer k) → Writer k
  on_float (float_data v) f = f v
  on_float (word_data u) f = λ s w. none

  -- `case __STDIO_FPRINTF_FORMAT_SPECIFIER_POINTER`
  pub output_pointer : ℕ → State → Writer k
  output_pointer p state =
      if p == 0
      then fprintf_output_string k (b'(' ∷ b'n' ∷ b'i' ∷ b'l' ∷ b')' ∷ []) state
      else fprintf_output_integer k p state

  pub fprintf_output_formatted : (fuel : ℕ) → Mem → Data → State → Writer k
  fprintf_output_formatted fuel m d state =
      let wide = is_long state.modifier in
      let integer : Writer k = on_word d (λ u. fprintf_output_integer k u state) in
      let real : Writer k = on_float d (λ v. fprintf_output_float k v state) in
      elim state.specifier [
        | signed_decimal ↦ integer
        | unsigned_decimal ↦ integer
        | octal ↦ integer
        | hex ↦ integer
        | pointer ↦ on_word d (λ p. output_pointer p state)
        | float ↦ real
        | scientific ↦ real
        | smart ↦ real
        | hex_float ↦ real
        | character ↦ on_word d (λ u. output_character k u wide state)
        | string ↦ on_word d (λ p. output_string k fuel m p wide state)
        | unknown ↦ refuse
        | count ↦ refuse
      ]

  -- What `fprintf` returns, with the memory, the sink and the world.
  abbrev pub Printed : Type 0
  Printed = Option (Bool × Mem × Sink × World)

  -- The test of `status` at the head of the loop.
  abbrev pub resume : Mem → (Sink → World → Printed) → Bool × Sink × World → Printed
  resume m again (true, s, w) = again s w
  resume m again (false, s, w) = some (false, m, s, w)

  -- What is done with a conversion that has been read. `str` begins with its `%`.
  pub run_conversion :
      (fuel : ℕ)
      → (Bytes → Arguments → Mem → Sink → World → Printed)
      → Bytes
      → State × Bytes × Arguments
      → Mem
      → Sink
      → World
      → Printed
  run_conversion fuel again str (state, behind, args) m s w =
      let after = rest behind in
      let argument = fprintf_get_data args state.modifier state.specifier in
      if is_unknown state.specifier
      then (sink_bytes k (take (length str - length after) str) s w
          >>= resume m (again after args m))
      else if is_count state.specifier
      then (argument >>= λ (d, left). elim d [
        | word_data p ↦ again behind left (fprintf_store_count m p state.modifier s.count) s w
        | float_data v ↦ none
      ])
      else (argument >>= λ (d, left).
          fprintf_output_formatted fuel m d state s w >>= resume m (again behind left m))

  -- The loop. `rounds` bounds the passes; `fuel` is for the strings.
  pub fprintf_loop : (rounds fuel : ℕ) → Bytes → Arguments → Mem → Sink → World → Printed
  fprintf_loop zero fuel str args m s w = none
  fprintf_loop (suc rounds) fuel [] args m s w = some (true, m, s, w)
  fprintf_loop (suc rounds) fuel (c ∷ str) args m s w =
      let again = fprintf_loop rounds fuel in
      let (text, after) = before_percent (c ∷ str) in
      let literal = sink_bytes k text s w >>= resume m (again after args m) in
      let percent = sink_char k b'%' s w >>= resume m (again (rest str) args m) in
      let conversion =
        read_conversion str args >>= λ r. run_conversion fuel again (c ∷ str) r m s w in
      if not (c == b'%') then literal else if first str == b'%' then percent else conversion

  -- Each pass takes a byte of the format at least, so a pass for each and one for the end are
  -- enough.
  pub fprintf : (fuel : ℕ) → File → (format : Bytes) → Arguments → Mem → World → Printed
  fprintf fuel out format args m w =
      fprintf_loop (length format + 1) fuel format args m (record { out = out; count = 0 }) w
