-- ===== src/Printf/Integer/Described.antt =====
-- What `fprintf_output_integer` of src/stdio.c should print, written down without its parts.
use freestanding_custom_c_li.Prelude.{
  ℕ, zero, suc, ◌+◌, ◌-◌, ◌^◌, ◌≤◌, ◌<◌, ◌≡◌, refl, ◌∙◌, Bool, true, false, ◌&&◌, not, List, [],
  ◌∷◌, ◌++◌, map, arith, Bytes, length, replicate, Option, none, some, leb, ltb, ◌==◌, ==_iff,
  ==_false, if◌then◌else◌, Bool-cases, inl, inr,
}
use freestanding_custom_c_li.Conversions.{hex_table, digit_of}
use freestanding_custom_c_li.Conversions.Digits.{IsNumeral, AllBelow}
use freestanding_custom_c_li.Conversions.SignedSessions.{abs}
use freestanding_custom_c_li.Printf.Formats.{
  Flags, State, Specifier, unknown, signed_decimal, unsigned_decimal, octal, hex, float, scientific,
  smart, hex_float, character, string, pointer, count,
}
use freestanding_custom_c_li.Printf.Sinks.Written.{framed}
use freestanding_custom_c_li.Printf.Integer.{
  base_of, is_none, is_some_zero, magnitude_of, missing_zeros,
}
use freestanding_custom_c_li.Printf.Integer.Digits.{Numeral}
use native.Mathlib.Decide.{dec_lt}

-- The base of a conversion.
abbrev pub radix_for : Specifier → ℕ
radix_for octal = 8
radix_for hex = 16
radix_for pointer = 16
radix_for _ = 10

-- The number without its sign: `%d` and `%i` read the word as a signed one.
abbrev pub magnitude_for : Specifier → ℕ → ℕ
magnitude_for signed_decimal u = abs u
magnitude_for _ u = u

-- 0 has one digit, and none with a precision of 0.
abbrev pub digits_of_zero : Option ℕ → List ℕ
digits_of_zero none = 0 ∷ []
digits_of_zero (some zero) = []
digits_of_zero (some (suc p)) = 0 ∷ []

-- The digits of an integer.
pub record Shown (state : State) (u : ℕ) (ns : List ℕ) : Type 0 where
  pub of_positive :
      1 ≤ magnitude_for state.specifier u
      → IsNumeral (radix_for state.specifier) (magnitude_for state.specifier u) ns
  pub of_zero : magnitude_for state.specifier u ≡ 0 → ns ≡ digits_of_zero state.precision

abbrev pub hex_char : (upper : Bool) → ℕ → ℕ
hex_char upper n = if ltb n 10 then b'0' + n else (if upper then b'A' else b'a') + (n - 10)

-- The sign of a signed number, and the mark of a hexadecimal one.
abbrev pub prefix_for : Flags → (upper : Bool) → (u : ℕ) → Specifier → Bytes
prefix_for flags upper u signed_decimal =
    if leb (2 ^ 63) u
    then b'-' ∷ []
    else if flags.show_sign
    then b'+' ∷ []
    else if flags.space_if_no_sign
    then b' ' ∷ []
    else []
prefix_for flags upper u hex =
    if flags.use_alternate && not (u == 0) then b'0' ∷ (if upper then b'X' else b'x') ∷ [] else []
prefix_for flags upper u pointer = if u == 0 then [] else b'0' ∷ (if upper then b'X' else b'x') ∷ []
prefix_for flags upper u _ = []

-- Zeros up to the precision.
abbrev pub filled : Option ℕ → Bytes → Bytes
filled none shown = shown
filled (some p) shown = replicate (p - length shown) b'0' ++ shown

abbrev pub leading_zero : Bytes → Bytes
leading_zero [] = b'0' ∷ []
leading_zero (c ∷ body) = if c == b'0' then c ∷ body else b'0' ∷ c ∷ body

-- The alternate form of an octal number begins with a zero.
abbrev pub body_for : Flags → Option ℕ → Specifier → Bytes → Bytes
body_for flags p octal shown =
    if flags.use_alternate then leading_zero (filled p shown) else filled p shown
body_for flags p _ shown = filled p shown

-- The flag of the zeros counts only without a precision.
abbrev pub zeros_fill : Flags → Option ℕ → Bool
zeros_fill flags none = flags.leading_zeros
zeros_fill flags (some p) = false

abbrev pub integer_text : State → ℕ → List ℕ → Bytes
integer_text state u ns =
    framed state (prefix_for state.flags state.upper u state.specifier)
      (body_for state.flags state.precision state.specifier (map (hex_char state.upper) ns))
      (zeros_fill state.flags state.precision)

base_of-radix : (s : Specifier) → base_of s ≡ radix_for s
base_of-radix unknown = refl
base_of-radix unsigned_decimal = refl
base_of-radix octal = refl
base_of-radix float = refl
base_of-radix scientific = refl
base_of-radix smart = refl
base_of-radix hex_float = refl
base_of-radix character = refl
base_of-radix string = refl
base_of-radix count = refl
base_of-radix signed_decimal = refl
base_of-radix hex = refl
base_of-radix pointer = refl

pub magnitude_of-abs :
    (state : State) (u : ℕ) (s : Specifier)
    → u < 2 ^ 64
    → magnitude_of (record state { specifier = s }) u ≡ magnitude_for s u
magnitude_of-abs state u unknown h = refl
magnitude_of-abs state u unsigned_decimal h = refl
magnitude_of-abs state u octal h = refl
magnitude_of-abs state u float h = refl
magnitude_of-abs state u scientific h = refl
magnitude_of-abs state u smart h = refl
magnitude_of-abs state u hex_float h = refl
magnitude_of-abs state u character h = refl
magnitude_of-abs state u string h = refl
magnitude_of-abs state u count h = refl
magnitude_of-abs state u signed_decimal h = ground arith
magnitude_of-abs state u hex h = refl
magnitude_of-abs state u pointer h = refl

-- A test of all numbers below a bound.
all_below : (ℕ → Bool) → ℕ → Bool
all_below f zero = true
all_below f (suc n) = f n && all_below f n

all_below-holds : (f : ℕ → Bool) (n d : ℕ) → all_below f n ≡ true → d < n → f d ≡ true
unfolding all_below
all_below-holds f zero d h lt = absurd (omega arith)
all_below-holds f (suc n) d h lt = elim (Bool-cases (f n)) [
  | inl y ↦ elim (dec_lt d n) [
    | yes less ↦ all_below-holds f n d (rw y at h) less
    | no last ↦ let e : d ≡ n = omega arith in rw e y
  ]
  | inr n ↦ let e : false ≡ true = rw n at h in cc
]

digit_of-hex_char :
    (upper : Bool) (d : ℕ) → d < 16 → digit_of (hex_table upper) d ≡ hex_char upper d
unfolding all_below
digit_of-hex_char true d h =
    (==_iff (digit_of (hex_table true) d) (hex_char true d)).0
      (all_below-holds (λ n. digit_of (hex_table true) n == hex_char true n) 16 d refl h)
digit_of-hex_char false d h =
    (==_iff (digit_of (hex_table false) d) (hex_char false d)).0
      (all_below-holds (λ n. digit_of (hex_table false) n == hex_char false n) 16 d refl h)

digits-hex_chars :
    (upper : Bool) (r : ℕ) (ns : List ℕ)
    → r ≤ 16
    → AllBelow r ns
    → map (digit_of (hex_table upper)) ns ≡ map (hex_char upper) ns
digits-hex_chars upper r [] small below = refl
digits-hex_chars upper r (d ∷ ns) small below =
    rw (
      digit_of-hex_char upper d (omega (arith, below.0)),
      digits-hex_chars upper r ns small below.1,
    )

radix_for-small : (s : Specifier) → radix_for s ≤ 16
radix_for-small s = ground arith

zero_digits : (p : Option ℕ) → (if is_some_zero p then [] else 0 ∷ []) ≡ digits_of_zero p
zero_digits none = refl
zero_digits (some zero) = refl
zero_digits (some (suc p)) = rw (==_false (suc p) 0 (omega arith)) refl

digits_of_zero-below : (p : Option ℕ) → AllBelow 16 (digits_of_zero p)
digits_of_zero-below none = (omega arith, tt)
digits_of_zero-below (some zero) = tt
digits_of_zero-below (some (suc p)) = (omega arith, tt)

-- The digits of the code, in these terms.
pub Numeral-Shown :
    (state : State) (u : ℕ) (ns : List ℕ)
    → u < 2 ^ 64
    → Numeral state (magnitude_of state u) ns
    → Shown state u ns
Numeral-Shown state u ns word n =
    let m = magnitude_of-abs state u state.specifier word in
    let r = base_of-radix state.specifier in
    record {
      of_positive = λ pos. rw (r, m) at (n.of_positive (rw m pos));
      of_zero = λ z. n.of_zero (m ∙ z) ∙ zero_digits state.precision;
    }

pub Shown-text :
    (state : State) (u : ℕ) (ns : List ℕ)
    → Shown state u ns
    → map (digit_of (hex_table state.upper)) ns ≡ map (hex_char state.upper) ns
Shown-text state u ns n = elim (dec_lt 0 (magnitude_for state.specifier u)) [
  | yes pos ↦
      digits-hex_chars state.upper (radix_for state.specifier) ns (radix_for-small state.specifier)
        (n.of_positive pos).below
  | no zero_shown ↦ rw (n.of_zero (omega arith)) (
      digits-hex_chars state.upper 16 (digits_of_zero state.precision) (omega arith)
        (digits_of_zero-below state.precision))
]

pub missing-filled :
    (p : Option ℕ) (shown : Bytes)
    → replicate (missing_zeros p (length shown)) b'0' ++ shown ≡ filled p shown
missing-filled none shown = refl
missing-filled (some p) shown = refl

pub none-zeros_fill :
    (flags : Flags) (p : Option ℕ) → flags.leading_zeros && is_none p ≡ zeros_fill flags p
none-zeros_fill flags none = ground arith
none-zeros_fill flags (some p) = ground arith
