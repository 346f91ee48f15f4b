-- ===== src/Printf/Conversions.antt =====
-- A conversion specification of `fprintf` (src/stdio.c) read back from its text.
use freestanding_custom_c_li.Prelude.{
  ◌<◌, ℕ, ◌^◌, ◌<◌, Bool, true, ◌&&◌, not, sym, ◌≢◌, if◌then◌else◌, Bool-cases, inl, inr, ◌≤◌, ◌≡◌,
  refl, ◌∙◌, false, Option, none, some, List, [], ◌∷◌, ◌++◌, map, arith, Bytes, leb_iff, ◌==◌,
  ==_false,
}
use freestanding_custom_c_li.Conversions.{decimal_digit}
use freestanding_custom_c_li.Conversions.Atoi.{int_max, is_digit}
use freestanding_custom_c_li.Conversions.Digits.{value, AllBelow}
use freestanding_custom_c_li.Printf.Formats.{
  Flags, State, LengthModifier, default_length, char_length, short_length, long_length,
  long_long_length, size_length, ptrdiff_length, intmax_length, long_double_length, Specifier,
  unknown, signed_decimal, unsigned_decimal, octal, hex, float, scientific, smart, hex_float,
  character, string, pointer, count,
}
use freestanding_custom_c_li.Printf.Parse.{first, parse_number, specifier_of, is_upper}
use freestanding_custom_c_li.Printf.Parse.Numbers.{
  is_mark, AllMarks, has, flags_of, get_fprintf_flags-marks, parse_number-value,
}
use freestanding_custom_c_li.Printf.Parse.RoundTrip.{
  modifier_text, IsKnown, letter_of_known, get_length_modifier-text, get_format_specifier-text,
}
use freestanding_custom_c_li.Printf.VarArgs.{Arguments}
use freestanding_custom_c_li.Printf.{read_width, read_precision, read_conversion, settle}

-- The letters of the conversions. `%x`, `%f`, `%e`, `%g` and `%a` have a capital form.
pub data Letter : Type 0 where
  letter_d letter_i letter_u letter_o letter_c letter_s letter_p letter_n : Letter
  letter_x letter_f letter_e letter_g letter_a : (capital : Bool) → Letter

abbrev pub letter_text : Letter → ℕ
letter_text letter_d = b'd'
letter_text letter_i = b'i'
letter_text letter_u = b'u'
letter_text letter_o = b'o'
letter_text letter_c = b'c'
letter_text letter_s = b's'
letter_text letter_p = b'p'
letter_text letter_n = b'n'
letter_text (letter_x capital) = if capital then b'X' else b'x'
letter_text (letter_f capital) = if capital then b'F' else b'f'
letter_text (letter_e capital) = if capital then b'E' else b'e'
letter_text (letter_g capital) = if capital then b'G' else b'g'
letter_text (letter_a capital) = if capital then b'A' else b'a'

-- The conversion that a letter asks for, and whether it is a capital.
abbrev pub meaning : Letter → Specifier × Bool
meaning letter_d = (signed_decimal, false)
meaning letter_i = (signed_decimal, false)
meaning letter_u = (unsigned_decimal, false)
meaning letter_o = (octal, false)
meaning letter_c = (character, false)
meaning letter_s = (string, false)
meaning letter_p = (pointer, false)
meaning letter_n = (count, false)
meaning (letter_x capital) = (hex, capital)
meaning (letter_f capital) = (float, capital)
meaning (letter_e capital) = (scientific, capital)
meaning (letter_g capital) = (smart, capital)
meaning (letter_a capital) = (hex_float, capital)

letter-meaning :
    (l : Letter)
    → (specifier_of (letter_text l) ≡ (meaning l).0) × (is_upper (letter_text l) ≡ (meaning l).1)
unfolding specifier_of
letter-meaning letter_d = (refl, refl)
letter-meaning letter_i = (refl, refl)
letter-meaning letter_u = (refl, refl)
letter-meaning letter_o = (refl, refl)
letter-meaning letter_c = (refl, refl)
letter-meaning letter_s = (refl, refl)
letter-meaning letter_p = (refl, refl)
letter-meaning letter_n = (refl, refl)
letter-meaning (letter_x true) = (refl, refl)
letter-meaning (letter_x false) = (refl, refl)
letter-meaning (letter_f true) = (refl, refl)
letter-meaning (letter_f false) = (refl, refl)
letter-meaning (letter_e true) = (refl, refl)
letter-meaning (letter_e false) = (refl, refl)
letter-meaning (letter_g true) = (refl, refl)
letter-meaning (letter_g false) = (refl, refl)
letter-meaning (letter_a true) = (refl, refl)
letter-meaning (letter_a false) = (refl, refl)

meaning-known : (l : Letter) → (meaning l).0 ≢ unknown
meaning-known l = ground arith

letter-IsKnown : (l : Letter) → IsKnown (letter_text l)
letter-IsKnown l = let e = (letter-meaning l).0 in λ z. meaning-known l (sym e ∙ z)

-- What is written behind a `%`: flags, the digits of the width and of the precision, a length
-- modifier, and the letter of the conversion.
pub record Conversion : Type 0 where
  pub marks : Bytes
  pub width : List ℕ
  pub precision : Option (List ℕ)
  pub modifier : LengthModifier
  pub letter : Letter

abbrev pub LeadsNonzero : List ℕ → Type 0
LeadsNonzero [] = Unit
LeadsNonzero (d ∷ ds) = 1 ≤ d

abbrev pub FitsInt : List ℕ → Type 0
FitsInt ds = AllBelow 10 ds × (value 10 0 ds < 2 ^ 31)

abbrev pub PrecisionFits : Option (List ℕ) → Type 0
PrecisionFits none = Unit
PrecisionFits (some ds) = FitsInt ds

pub record IsConversion (x : Conversion) : Type 0 where
  pub marks : AllMarks x.marks
  pub width : FitsInt x.width
  pub leading : LeadsNonzero x.width
  pub precision : PrecisionFits x.precision

abbrev pub precision_text : Option (List ℕ) → Bytes → Bytes
precision_text none s = s
precision_text (some ds) s = b'.' ∷ (map decimal_digit ds ++ s)

-- The text of a specification, in front of `s`.
abbrev pub conversion_text : Conversion → Bytes → Bytes
conversion_text x s =
    x.marks
    ++ (map decimal_digit x.width
        ++ precision_text x.precision (modifier_text x.modifier ++ (letter_text x.letter ∷ s)))

abbrev pub precision_of : Option (List ℕ) → Option ℕ
precision_of none = none
precision_of (some ds) = some (value 10 0 ds)

-- The flag of the zeros is void beside the left one.
abbrev pub settled : Bytes → Flags
settled marks = record {
  left_align = has b'-' marks;
  show_sign = has b'+' marks;
  space_if_no_sign = has b' ' marks;
  leading_zeros = has b'0' marks && not (has b'-' marks);
  use_alternate = has b'#' marks;
}

and_false : (b : Bool) → b && not true ≡ false
and_false true = refl
and_false false = refl

and_true : (b : Bool) → b && not false ≡ b
and_true true = refl
and_true false = refl

settle-flags_of : (marks : Bytes) → settle (flags_of marks) ≡ settled marks
settle-flags_of marks = elim (Bool-cases (has b'-' marks)) [
  | inl y ↦ rw (y, and_false (has b'0' marks)) refl
  | inr y ↦ rw (y, and_true (has b'0' marks)) refl
]

-- What a specification means.
abbrev pub state_of : Conversion → State
state_of x = record {
  flags = settled x.marks;
  width = value 10 0 x.width;
  precision = precision_of x.precision;
  modifier = x.modifier;
  specifier = (meaning x.letter).0;
  upper = (meaning x.letter).1;
}

modifier_head :
    (l : LengthModifier) (c : ℕ) (s : Bytes) → 65 ≤ c → 65 ≤ first (modifier_text l ++ (c ∷ s))
modifier_head default_length c s h = h
modifier_head char_length c s h = omega arith
modifier_head short_length c s h = omega arith
modifier_head long_length c s h = omega arith
modifier_head long_long_length c s h = omega arith
modifier_head size_length c s h = omega arith
modifier_head ptrdiff_length c s h = omega arith
modifier_head intmax_length c s h = omega arith
modifier_head long_double_length c s h = omega arith

-- Neither a flag, nor a digit, nor a star.
abbrev Stops : ℕ → Type 0
Stops c = (is_mark c ≡ false) × (is_digit c ≡ false) × ((c == b'*') ≡ false)

letter-Stops : (c : ℕ) → 65 ≤ c → Stops c
letter-Stops c h = (ground arith, ground arith, ground arith)

precision_head :
    (p : Option (List ℕ)) (s : Bytes) → 65 ≤ first s → Stops (first (precision_text p s))
precision_head none s h = letter-Stops (first s) h
precision_head (some ds) s h = (refl, refl, refl)

width_head :
    (ds : List ℕ) (s : Bytes)
    → AllBelow 10 ds
    → LeadsNonzero ds
    → Stops (first s)
    → let c = first (map decimal_digit ds ++ s) in (is_mark c ≡ false) × ((c == b'*') ≡ false)
width_head [] s below leads stops = (stops.0, stops.2)
width_head (d ∷ ds) s below leads stops = (ground arith, ground arith)

digits_head :
    (ds : List ℕ) (s : Bytes)
    → AllBelow 10 ds
    → 65 ≤ first s
    → (first (map decimal_digit ds ++ s) == b'*') ≡ false
digits_head [] s below h = (letter-Stops (first s) h).2
digits_head (d ∷ ds) s below h = ground arith

parse_number-fits :
    (ds : List ℕ) (s : Bytes)
    → FitsInt ds
    → is_digit (first s) ≡ false
    → parse_number (map decimal_digit ds ++ s) ≡ some (value 10 0 ds, s)
parse_number-fits ds s (below, fits) stop =
    parse_number-value ds s below stop ∙ rw ((leb_iff (value 10 0 ds) int_max).1 (omega arith)) refl

read_width-text :
    (f : Flags) (ds : List ℕ) (s : Bytes) (args : Arguments)
    → FitsInt ds
    → LeadsNonzero ds
    → Stops (first s)
    → read_width f (map decimal_digit ds ++ s) args ≡ some (f, value 10 0 ds, s, args)
unfolding read_width
read_width-text f ds s args fits leads stops =
    rw ((width_head ds s fits.0 leads stops).1, parse_number-fits ds s fits stops.1) refl

read_precision-text :
    (p : Option (List ℕ)) (s : Bytes) (args : Arguments)
    → PrecisionFits p
    → 65 ≤ first s
    → read_precision (precision_text p s) args ≡ some (precision_of p, s, args)
unfolding read_precision
read_precision-text none s args fits h = rw (==_false (first s) b'.' (omega arith)) refl
read_precision-text (some ds) s args fits h =
    rw (digits_head ds s fits.0 h, parse_number-fits ds s fits (letter-Stops (first s) h).1) refl

-- The text of a conversion specification is read back by `read_conversion`: flags in any order and
-- number, the digits of a width that does not begin with 0 and of a precision, both below 2^31 and
-- both optional, a length modifier, and one of the letters of the conversions. It gives the flags
-- that stand there, without the one of the zeros beside the left one, the width (0 if there is
-- none), the precision, the modifier, the specifier that the letter means and whether it is a
-- capital, and it leaves the text behind the letter and all the arguments.
pub read_conversion-text :
    (x : Conversion) (s : Bytes) (args : Arguments)
    → IsConversion x
    → read_conversion (conversion_text x s) args ≡ some (state_of x, s, args)
unfolding read_conversion
read_conversion-text x s args ok =
    let c = letter_text x.letter in
    let known = letter-IsKnown x.letter in
    let s3 = modifier_text x.modifier ++ (c ∷ s) in
    let h3 = modifier_head x.modifier c s (letter_of_known c known) in
    let s2 = precision_text x.precision s3 in
    let h2 = precision_head x.precision s3 h3 in
    let s1 = map decimal_digit x.width ++ s2 in
    let h1 = width_head x.width s2 ok.width.0 ok.leading h2 in
    rw
      (
        get_fprintf_flags-marks x.marks s1 ok.marks h1.0,
        read_width-text (flags_of x.marks) x.width s2 args ok.width ok.leading h2,
        read_precision-text x.precision s3 args ok.precision h3,
        get_length_modifier-text x.modifier c s known,
        get_format_specifier-text c s known,
        (letter-meaning x.letter).0,
        (letter-meaning x.letter).1,
        settle-flags_of x.marks,
      )
      refl
