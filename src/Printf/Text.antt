-- ===== src/Printf/Text.antt =====
-- The conversions of characters and strings, and `%n`, of src/stdio.c. Memory is a function from
-- addresses to bytes, as in Strings.antt. A `wchar_t` has four bytes, the lowest first.
pub mod Output
use freestanding_custom_c_li.Prelude.{
  ℕ, zero, suc, ◌+◌, ◌*◌, ◌%◌, ◌/◌, ◌^◌, Bool, true, false, ◌&&◌, ◌||◌, not, Option, none, some, [],
  ◌∷◌, Bytes, length, take, ltb, leb, ◌==◌, if◌then◌else◌, ◌>>=◌,
}
use freestanding_custom_c_li.Kernel.{Kernel}
use freestanding_custom_c_li.Strings.Memory.{Mem, store}
use freestanding_custom_c_li.Printf.Formats.{
  State, LengthModifier, default_length, char_length, short_length, long_length, long_long_length,
  size_length, ptrdiff_length, intmax_length, long_double_length,
}
use freestanding_custom_c_li.Printf.Sinks.{
  Writer, ◌>>>◌, succeed, refuse, sink_bytes, sink_char, fprintf_field_begin, fprintf_field_end,
}

-- `state->precision < 0 || len < (size_t)state->precision`
abbrev pub within : Option ℕ → ℕ → Bool
within none len = true
within (some p) len = ltb len p

-- The bytes from `p` on.
abbrev pub load_bytes : Mem → ℕ → ℕ → Bytes
load_bytes m p zero = []
load_bytes m p (suc n) = m p ∷ load_bytes m (suc p) n

abbrev pub load_wide : Mem → ℕ → ℕ
load_wide m p = m p + 256 * m (p + 1) + 65536 * m (p + 2) + 16777216 * m (p + 3)

-- The length of a string, or the precision if it is shorter. No byte behind it is read.
unfoldable pub bounded_length : ℕ → Mem → ℕ → Option ℕ → ℕ → Option ℕ
bounded_length zero m str precision len = none
bounded_length (suc fuel) m str precision len =
    let more = bounded_length fuel m str precision (len + 1) in
    if within precision len && not (m (str + len) == 0) then more else some len

-- The part of a literal that the precision allows.
abbrev pub bounded : Bytes → Option ℕ → Bytes
bounded text none = text
bounded text (some p) = take p text

-- The same for wide characters, where `some none` is one that is not ASCII.
pub wide_length : ℕ → Mem → ℕ → Option ℕ → ℕ → Option (Option ℕ)
wide_length zero m str precision len = none
wide_length (suc fuel) m str precision len =
    let more = wide_length fuel m str precision (len + 1) in
    let c = load_wide m (str + 4 * len) in
    if within precision len && not (c == 0)
    then (if leb 128 c then some none else more)
    else some (some len)

-- A `count` in `n` bytes at `p`, the lowest first.
pub store_bytes : ℕ → Mem → ℕ → ℕ → Mem
store_bytes zero m p count = m
store_bytes (suc n) m p count = store_bytes n (store m p (count % 256)) (suc p) (count / 256)

abbrev pub size_of : LengthModifier → ℕ
size_of char_length = 1
size_of short_length = 2
size_of long_length = 8
size_of long_long_length = 8
size_of size_length = 8
size_of ptrdiff_length = 8
size_of intmax_length = 8
size_of default_length = 4
size_of long_double_length = 4

pub fprintf_store_count : Mem → (p : ℕ) → LengthModifier → (count : ℕ) → Mem
fprintf_store_count m p length count = store_bytes (size_of length) m p count

module _ (k : Kernel) where
  unfoldable pub fprintf_output_string : Bytes → State → Writer k
  fprintf_output_string str state =
      fprintf_field_begin k state (length str) [] false
      >>> (sink_bytes k str >>> fprintf_field_end k state (length str))

  -- `for (size_t i = 0; i < len; ++i)`, a byte of each character.
  pub wide_chars : Mem → ℕ → ℕ → Writer k
  wide_chars m str zero = succeed
  wide_chars m str (suc n) = sink_char k (load_wide m str % 256) >>> wide_chars m (str + 4) n

  pub fprintf_output_wide_string : ℕ → Mem → ℕ → State → Writer k
  fprintf_output_wide_string fuel m str state s w =
      wide_length fuel m str state.precision 0 >>= λ found. elim found [
        | none ↦ refuse s w
        | some len ↦
            (fprintf_field_begin k state len [] false
                >>> (wide_chars m str len >>> fprintf_field_end k state len))
              s w
      ]

  -- `case __STDIO_FPRINTF_FORMAT_SPECIFIER_CHAR`
  pub output_character : ℕ → (wide : Bool) → State → Writer k
  output_character u wide state =
      if wide && leb 128 u then refuse else fprintf_output_string (u % 256 ∷ []) state

  -- `case __STDIO_FPRINTF_FORMAT_SPECIFIER_STRING`
  unfoldable pub output_string : ℕ → Mem → ℕ → (wide : Bool) → State → Writer k
  output_string fuel m p wide state s w =
      let null_text : Bytes = b'(' ∷ b'n' ∷ b'u' ∷ b'l' ∷ b'l' ∷ b')' ∷ [] in
      let shown = bounded_length fuel m p state.precision 0 >>= λ len.
      fprintf_output_string (load_bytes m p len) state s w in
      if p == 0
      then fprintf_output_string (bounded null_text state.precision) state s w
      else if wide
      then fprintf_output_wide_string fuel m p state s w
      else shown
