-- ===== src/Printf/Examples.antt =====
-- Examples for `fprintf` of src/stdio.c.
use freestanding_custom_c_li.Prelude.{
  ℕ, ◌-◌, ◌^◌, ◌≡◌, arith, false, refl, true, Option, none, some, List, [], ◌∷◌, Bytes, take,
  replicate, get_or,
}
use freestanding_custom_c_li.Stdio.{File, fput_bytes, buffer_all, fill, make_room, copy_in}
use freestanding_custom_c_li.Examples.Streams.{whole, nothing, whole-Complete}
use freestanding_custom_c_li.Stdio.Buffered.{IsOpen}
use freestanding_custom_c_li.Printf.Formats.{
  Specifier, unknown, hex, string, count, State, no_flags, default_length, long_length,
}
use freestanding_custom_c_li.Printf.Loop.{
  Prints, finished, literal, percent, conversion, stored, as_is, Ran, fprintf-Ran,
}
use freestanding_custom_c_li.Printf.Sinks.Written.{Writes}
use freestanding_custom_c_li.Printf.Integer.Described.{Shown, integer_text}
use freestanding_custom_c_li.Printf.Integer.Output.{fprintf_output_integer-Writes}
use freestanding_custom_c_li.Printf.Text.Output.{output_string-Writes}
use freestanding_custom_c_li.Printf.Conversions.{
  Conversion, letter_d, IsConversion, conversion_text, state_of, read_conversion-text,
}
use freestanding_custom_c_li.Printf.Decimal.{FpDecimal, fp_big_mul, fp_round, fp_to_decimal}
use freestanding_custom_c_li.Printf.Decimal.Rounding.{Rounded, fp_round-nearest}
use freestanding_custom_c_li.Printf.Decimal.Exact.{Exact, fp_to_decimal-Exact}
use freestanding_custom_c_li.Strings.Memory.{Mem, IsString, end, char}
use freestanding_custom_c_li.Printf.VarArgs.{
  Arguments, word, floating, double, word_data, fprintf_get_data, next_float,
}
use freestanding_custom_c_li.Printf.Parse.{
  number_loop, parse_number, flags_loop, get_fprintf_flags, get_length_modifier, specifier_of,
  get_format_specifier,
}
use freestanding_custom_c_li.Printf.Sinks.{
  sink_bytes, sink_char, repeat_loop, sink_repeat, fprintf_field_begin, fprintf_field_end,
}
use freestanding_custom_c_li.Printf.Integer.{
  fprintf_sign, digits_loop, digits_of_value, integer_field, fprintf_output_integer,
}
use freestanding_custom_c_li.Printf.Text.{
  bounded_length, fprintf_output_string, output_string, fprintf_store_count,
}
use freestanding_custom_c_li.Prelude.Int.{pos, negsuc, ◌+ℤ◌, ◌-ℤ◌}
use freestanding_custom_c_li.Printf.Decimal
use freestanding_custom_c_li.Printf.Floats
use freestanding_custom_c_li.Printf.{
  Printed, fprintf, fprintf_loop, run_conversion, before_percent, fprintf_output_formatted,
  read_conversion, read_width, read_precision, next_int, next_precision,
}

abbrev empty_stream : File
empty_stream = record { fd = 1; buffer_index = 0; buffer = replicate 1024 0 }

abbrev memory : Mem
memory p = get_or (0 ∷ b'h' ∷ b'i' ∷ 0 ∷ []) p 0

-- The bytes that wait in the buffer behind a run that returned true.
shown : Printed whole → Option Bytes
shown (some (true, m, s, w)) = some (take s.out.buffer_index s.out.buffer)
shown _ = none

run : Bytes → Arguments → Option Bytes
unfolding shown
run format args = shown (fprintf whole 100 empty_stream format args memory nothing)

-- "%5d|%-4x|%s"
padded :
    run
      (b'%' ∷ b'5' ∷ b'd' ∷ b'|' ∷ b'%' ∷ b'-' ∷ b'4' ∷ b'x' ∷ b'|' ∷ b'%' ∷ b's' ∷ [])
      (word (2 ^ 32 - 42) ∷ word 255 ∷ word 1 ∷ [])
    ≡ some (
        b' ' ∷ b' ' ∷ b'-' ∷ b'4' ∷ b'2' ∷ b'|' ∷ b'f' ∷ b'f' ∷ b' ' ∷ b' ' ∷ b'|' ∷ b'h' ∷ b'i'
        ∷ [])
unfolding run fprintf fprintf_loop run_conversion before_percent fprintf_output_formatted
    read_conversion read_width read_precision next_int next_precision number_loop parse_number
    flags_loop get_fprintf_flags get_length_modifier specifier_of get_format_specifier sink_bytes
    sink_char repeat_loop sink_repeat fprintf_field_begin fprintf_field_end fprintf_sign digits_loop
    digits_of_value integer_field fprintf_output_integer bounded_length fprintf_output_string
    output_string fput_bytes buffer_all fill make_room copy_in fprintf_get_data
padded = refl

-- "%+.2f %g %e" of 2.675, 0.0001 and 0
floats :
    run
      (b'%' ∷ b'+' ∷ b'.' ∷ b'2' ∷ b'f' ∷ b' ' ∷ b'%' ∷ b'g' ∷ b' ' ∷ b'%' ∷ b'.' ∷ b'1' ∷ b'e'
        ∷ [])
      (floating (double 0x4005666666666666)
        ∷ floating (double 0x3F1A36E2EB1C432D)
        ∷ floating (double 0)
        ∷ [])
    ≡ some (
        b'+' ∷ b'2' ∷ b'.' ∷ b'6' ∷ b'7' ∷ b' ' ∷ b'0' ∷ b'.' ∷ b'0' ∷ b'0' ∷ b'0' ∷ b'1' ∷ b' '
        ∷ b'0' ∷ b'.' ∷ b'0' ∷ b'e' ∷ b'+' ∷ b'0' ∷ b'0' ∷ [])
unfolding run fprintf fprintf_loop run_conversion before_percent fprintf_output_formatted
    read_conversion read_width read_precision next_int next_precision number_loop parse_number
    flags_loop get_fprintf_flags get_length_modifier specifier_of get_format_specifier sink_bytes
    sink_char repeat_loop sink_repeat fprintf_field_begin fprintf_field_end fprintf_sign fput_bytes
    buffer_all fill make_room copy_in fprintf_get_data next_float Decimal.fp_split Decimal.push_loop
    Decimal.mul_loop Decimal.fp_big_mul Decimal.strip_loop Decimal.scale_two Decimal.five_loop
    Decimal.scale_five Decimal.top_digits Decimal.word_digits Decimal.big_digits Decimal.trim
    Decimal.fp_to_decimal Decimal.bump Decimal.round_at Decimal.fp_round Decimal.fp_digit_at
    Decimal.count_loop Decimal.fp_count_digits Floats.integer_loop Floats.fraction_loop
    Floats.fp_output_fixed Floats.fp_output_exponent Floats.output_smart Floats.output_finite
    Floats.fprintf_output_float ◌+ℤ◌ ◌-ℤ◌
floats = refl

fprintf_loop_memory : IsString memory 1 (b'h' ∷ b'i' ∷ [])
fprintf_loop_memory =
    char refl (λ e. omega (arith, e)) (char refl (λ e. omega (arith, e)) (end refl))

empty_stream-IsOpen : IsOpen empty_stream
empty_stream-IsOpen = record { size = refl; within = omega arith }

-- "%s" and "%n" without flags
abbrev plain : Specifier → State
plain s = record {
  flags = no_flags;
  width = 0;
  precision = none;
  modifier = default_length;
  specifier = s;
  upper = false;
}

abbrev program : Bytes
program = b'a' ∷ b'%' ∷ b's' ∷ b'%' ∷ b'%' ∷ b'%' ∷ b'n' ∷ b'%' ∷ b'?' ∷ []

-- "a%s%%%n%?"
program-Prints :
    Prints whole 100 program
      (word 1 ∷ word 8 ∷ [])
      memory
      0
      (b'a' ∷ b'h' ∷ b'i' ∷ b'%' ∷ b'%' ∷ b'?' ∷ [])
      (fprintf_store_count memory 8 default_length 4)
unfolding number_loop parse_number flags_loop get_fprintf_flags get_length_modifier specifier_of
    get_format_specifier read_conversion read_width read_precision fprintf_get_data
    fprintf_output_formatted
program-Prints =
    literal b'a' [] (b'%' ∷ b's' ∷ b'%' ∷ b'%' ∷ b'%' ∷ b'n' ∷ b'%' ∷ b'?' ∷ [])
      ((λ e. omega (arith, e)), tt) refl
      (conversion {state = plain string} {d = word_data 1} (λ e. omega (arith, e)) refl refl refl
        refl
        (output_string-Writes whole whole-Complete 100 memory 1 (plain string) (b'h' ∷ b'i' ∷ [])
          (λ e. omega (arith, e)) fprintf_loop_memory (omega arith))
        (percent (
          stored {state = plain count} (λ e. omega (arith, e)) refl refl refl refl
            (as_is {state = plain unknown} (λ e. omega (arith, e)) refl refl finished))))

fprintf-Ran_example :
    Ran whole 100
      (record { out = empty_stream; count = 0 })
      (b'a' ∷ b'h' ∷ b'i' ∷ b'%' ∷ b'%' ∷ b'?' ∷ [])
      (fprintf_store_count memory 8 default_length 4)
      nothing
      (fprintf whole 100 empty_stream program (word 1 ∷ word 8 ∷ []) memory nothing)
fprintf-Ran_example =
    fprintf-Ran whole 100 whole-Complete empty_stream program (word 1 ∷ word 8 ∷ []) memory nothing
      (b'a' ∷ b'h' ∷ b'i' ∷ b'%' ∷ b'%' ∷ b'?' ∷ []) (fprintf_store_count memory 8 default_length 4)
      empty_stream-IsOpen program-Prints

-- "%#-6x"
abbrev wide_hex : State
wide_hex = record {
  flags = record no_flags { left_align = true; use_alternate = true };
  width = 6;
  precision = none;
  modifier = default_length;
  specifier = hex;
  upper = false;
}

fprintf_output_integer-Writes_example :
    (ns : List ℕ) × Shown wide_hex 255 ns
    × Writes whole (fprintf_output_integer whole 255 wide_hex) (integer_text wide_hex 255 ns)
fprintf_output_integer-Writes_example =
    fprintf_output_integer-Writes whole whole-Complete 255 wide_hex (omega arith)

output_string-Writes_example :
    Writes whole
      (output_string whole 3 memory 1 false (record (plain string) { precision = some 1 }))
      (b'h' ∷ [])
output_string-Writes_example =
    output_string-Writes whole whole-Complete 3 memory 1
      (record (plain string) { precision = some 1 }) (b'h' ∷ b'i' ∷ []) (λ e. omega (arith, e))
      fprintf_loop_memory (omega arith)

-- "-12.3ld"
abbrev long_decimal : Conversion
long_decimal = record {
  marks = b'-' ∷ [];
  width = 1 ∷ 2 ∷ [];
  precision = some (3 ∷ []);
  modifier = long_length;
  letter = letter_d;
}

long_decimal-IsConversion : IsConversion long_decimal
long_decimal-IsConversion = record {
  marks = (refl, tt);
  width = ((omega arith, (omega arith, tt)), omega arith);
  leading = omega arith;
  precision = ((omega arith, tt), omega arith);
}

read_conversion-text_example :
    read_conversion (conversion_text long_decimal (b'!' ∷ [])) []
    ≡ some (state_of long_decimal, b'!' ∷ [], [])
read_conversion-text_example =
    read_conversion-text long_decimal (b'!' ∷ []) [] long_decimal-IsConversion

fp_to_decimal-Exact_example : Exact 3 (negsuc 2) (fp_to_decimal 3 (negsuc 2))
fp_to_decimal-Exact_example = fp_to_decimal-Exact 3 (negsuc 2) (λ e. omega (arith, e)) (omega arith)

-- A tie: 1.25 to two digits is 1.2.
abbrev tie : FpDecimal
tie = record { digits = 1 ∷ 2 ∷ 5 ∷ []; exp10 = pos 0 }

fp_round-nearest_example : Rounded tie 2 (fp_round tie (pos 2))
fp_round-nearest_example =
    fp_round-nearest tie 2 (omega arith, (omega arith, (omega arith, tt))) (omega arith)
      (omega arith)
