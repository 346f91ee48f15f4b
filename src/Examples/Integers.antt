-- ===== src/Examples/Integers.antt =====
-- Examples for `fputi` of src/stdio.c and `__assert_fail` of src/assert.c.
use freestanding_custom_c_li.Prelude.{
  ◌-◌, ◌^◌, ◌≡◌, ◌==◌, if◌then◌else◌, refl, true, Option, none, some, [], ◌∷◌, Bytes,
}
use freestanding_custom_c_li.Conversions.{
  itoa, decimal_print, decode, measure, finish, count_digits, pow_loop, top_power, emit,
}
use freestanding_custom_c_li.Assert.{assert_fail}
use freestanding_custom_c_li.Stdio.{File, Run, no_buffer, make_room, fflush, after_write}
use freestanding_custom_c_li.Stdio.Buffered.{held}
use freestanding_custom_c_li.Stdio.Fputi.{fputi, print_unbuffered, print_buffered, printed_into}
use freestanding_custom_c_li.Examples.Streams.{whole, nothing, stdout}

-- The bytes that a run sent and holds, if it returned true.
text : Run whole → Option Bytes
text (some (true, f, w)) = some (held whole f w)
text _ = none

-- -42 behind three bytes in the buffer.
fputi_behind :
    text (fputi whole stdout (2 ^ 32 - 42) nothing)
    ≡ some (b'x' ∷ b'y' ∷ b'z' ∷ b'-' ∷ b'4' ∷ b'2' ∷ [])
unfolding text itoa decimal_print decode measure finish count_digits pow_loop top_power emit
    make_room fflush fputi print_buffered printed_into
fputi_behind = refl

abbrev stderr : File
stderr = record { fd = 2; buffer_index = no_buffer; buffer = [] }

fputi_unbuffered :
    (fputi whole stderr (2 ^ 31 - 1) nothing)
    ≡ some (
      true,
      stderr,
      λ d.
          if d == 2
          then b'2' ∷ b'1' ∷ b'4' ∷ b'7' ∷ b'4' ∷ b'8' ∷ b'3' ∷ b'6' ∷ b'4' ∷ b'7' ∷ []
          else [],
    )
unfolding text itoa decimal_print decode measure finish count_digits pow_loop top_power emit
    after_write fputi print_unbuffered
fputi_unbuffered = refl

-- A failed assertion "x" in line 7 of file "f" and function "g".
assert_fail_message :
    assert_fail whole (b'x' ∷ []) (b'f' ∷ []) 7 (b'g' ∷ []) nothing 2
    ≡ b'A' ∷ b's' ∷ b's' ∷ b'e' ∷ b'r' ∷ b't' ∷ b'i' ∷ b'o' ∷ b'n' ∷ b' ' ∷ b'f' ∷ b'a' ∷ b'i'
      ∷ b'l' ∷ b'e' ∷ b'd' ∷ b':' ∷ b' ' ∷ b'x' ∷ b',' ∷ b' ' ∷ b'f' ∷ b'i' ∷ b'l' ∷ b'e' ∷ b' '
      ∷ b'f' ∷ b',' ∷ b' ' ∷ b'l' ∷ b'i' ∷ b'n' ∷ b'e' ∷ b' ' ∷ b'7' ∷ b',' ∷ b' ' ∷ b'f' ∷ b'u'
      ∷ b'n' ∷ b'c' ∷ b't' ∷ b'i' ∷ b'o' ∷ b'n' ∷ b' ' ∷ b'g' ∷ b'.' ∷ 10 ∷ []
unfolding itoa decimal_print decode measure finish count_digits pow_loop top_power emit assert_fail
assert_fail_message = refl
