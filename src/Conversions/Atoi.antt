-- ===== src/Conversions/Atoi.antt =====
-- `atoi` of src/conversions.c. A C string is the list of its bytes before the NUL, so the end of
-- the list is where `*nptr` reads 0. An `int` is its 32-bit pattern, and `none` is a signed overflow.
use freestanding_custom_c_li.Prelude.{
  ℕ, ◌+◌, ◌-◌, ◌*◌, ◌%◌, ◌^◌, ◌≤◌, ◌<◌, ◌≡◌, refl, ap, Bool, true, false, ◌||◌, ◌&&◌, Option, none,
  some, List, [], ◌∷◌, ◌++◌, map, arith, Bytes, ltb, leb, ◌==◌, if◌then◌else◌,
}
use freestanding_custom_c_li.Conversions.{decimal_digit}
use freestanding_custom_c_li.Conversions.Digits.{value, AllBelow, IsNumeral}

abbrev pub int_max : ℕ
int_max = 2 ^ 31 - 1

abbrev pub is_space : ℕ → Bool
is_space c = c == b' ' || c == 9 || c == 10 || c == 13 || c == 12 || c == 11

abbrev pub is_digit : ℕ → Bool
is_digit c = leb b'0' c && leb c b'9'

-- `while (*nptr == ' ' || …) ++nptr;`
pub skip_spaces : Bytes → Bytes
skip_spaces [] = []
skip_spaces (c ∷ s) = let rest = skip_spaces s in if is_space c then rest else c ∷ s

-- `while (*nptr >= '0' && *nptr <= '9') val = val * 10 + (*nptr - '0');`
pub scan_digits : ℕ → Bytes → Option ℕ
scan_digits val [] = some val
scan_digits val (c ∷ s) =
    let next = val * 10 + (c - b'0') in
    let rest = scan_digits next s in
    if is_digit c then (if ltb int_max next then none else rest) else some val

-- `sign * val`, as a 32-bit pattern.
abbrev pub apply_sign : Bool → Option ℕ → Option ℕ
apply_sign negative none = none
apply_sign negative (some val) = some (if negative then (2 ^ 32 - val) % 2 ^ 32 else val)

-- The sign and the digits, behind the white space.
pub scan_signed : Bytes → Option ℕ
scan_signed [] = apply_sign false (scan_digits 0 [])
scan_signed (c ∷ s) =
    if c == b'-'
    then apply_sign true (scan_digits 0 s)
    else if c == b'+'
    then apply_sign false (scan_digits 0 s)
    else apply_sign false (scan_digits 0 (c ∷ s))

pub atoi : Option Bytes → Option ℕ
atoi none = some 0
atoi (some nptr) = scan_signed (skip_spaces nptr)

abbrev pub AllSpace : Bytes → Type 0
AllSpace [] = Unit
AllSpace (c ∷ s) = (is_space c ≡ true) × AllSpace s

-- What follows the number does not go on with a digit.
abbrev pub Stops : Bytes → Type 0
Stops [] = Unit
Stops (c ∷ s) = is_digit c ≡ false

skip_spaces-append : (w s : Bytes) → AllSpace w → skip_spaces (w ++ s) ≡ skip_spaces s
unfolding skip_spaces
skip_spaces-append [] s h = refl
skip_spaces-append (c ∷ w) s h = rw h.0 (skip_spaces-append w s h.1)

value_mono : (ds : List ℕ) (acc : ℕ) → acc ≤ value 10 acc ds
value_mono [] acc = omega arith
value_mono (d ∷ ds) acc = omega (arith, value_mono ds (acc * 10 + d))

scan_digits-stop : (val : ℕ) (rest : Bytes) → Stops rest → scan_digits val rest ≡ some val
unfolding scan_digits
scan_digits-stop val [] h = refl
scan_digits-stop val (c ∷ s) h = rw h

-- Digits are read as the number they spell, and reading overflows exactly when that exceeds `int`.
scan_digits-value :
    (ds : List ℕ) (val : ℕ) (rest : Bytes)
    → AllBelow 10 ds
    → Stops rest
    → val ≤ int_max
    → scan_digits val (map decimal_digit ds ++ rest)
      ≡ (if leb (value 10 val ds) int_max then some (value 10 val ds) else none)
unfolding scan_digits
scan_digits-value [] val rest h stop fits = ground (arith, scan_digits-stop val rest stop)
scan_digits-value (d ∷ ds) val rest h stop fits =
    ground (arith, scan_digits-value ds (val * 10 + d) rest h.1 stop, value_mono ds (val * 10 + d))

-- What may stand in front of the digits.
pub data Sign : Type 0 where
  unsigned plus minus : Sign

abbrev pub sign_bytes : Sign → Bytes
sign_bytes unsigned = []
sign_bytes plus = b'+' ∷ []
sign_bytes minus = b'-' ∷ []

abbrev pub is_minus : Sign → Bool
is_minus minus = true
is_minus _ = false

-- The `int` that a sign and a magnitude stand for, where the magnitude is an `int`.
abbrev pub read_int : Sign → ℕ → Option ℕ
read_int g v =
    if leb v int_max then some (if is_minus g then (2 ^ 32 - v) % 2 ^ 32 else v) else none

apply_sign-read :
    (g : Sign) (v : ℕ)
    → apply_sign (is_minus g) (if leb v int_max then some v else none) ≡ read_int g v
apply_sign-read g v = ground arith

-- A digit is neither white space nor a sign.
digit_head :
    (d : ℕ) (s : Bytes)
    → d < 10
    → scan_signed (skip_spaces (decimal_digit d ∷ s))
      ≡ apply_sign false (scan_digits 0 (decimal_digit d ∷ s))
unfolding skip_spaces scan_signed
digit_head d s h = ground arith

atoi-head :
    (g : Sign) (d : ℕ) (s : Bytes)
    → d < 10
    → scan_signed (skip_spaces (sign_bytes g ++ decimal_digit d ∷ s))
      ≡ apply_sign (is_minus g) (scan_digits 0 (decimal_digit d ∷ s))
atoi-head unsigned d s h = digit_head d s h
atoi-head plus d s h = unfold skip_spaces scan_signed in refl
atoi-head minus d s h = unfold skip_spaces scan_signed in refl

-- `atoi` on white space, an optional sign, a decimal numeral of `v`, and text that does not go on
-- with a digit: the result is that of `read_int`, the `int` with this sign and magnitude when `v`
-- is `INT_MAX` at most, and a signed overflow otherwise, for `-2147483648` too.
pub atoi-numeral :
    (w : Bytes) (g : Sign) (v : ℕ) (ds : List ℕ) (rest : Bytes)
    → AllSpace w
    → IsNumeral 10 v ds
    → Stops rest
    → atoi (some (w ++ (sign_bytes g ++ (map decimal_digit ds ++ rest)))) ≡ read_int g v
unfolding atoi
atoi-numeral w g v ds rest space n stop =
    let (d, more, e, _) = n.leading in
    let below : AllBelow 10 (d ∷ more) = rw e at n.below in
    let text : map decimal_digit ds ++ rest ≡ decimal_digit d ∷ (map decimal_digit more ++ rest) =
      ap (λ t. map decimal_digit t ++ rest) e in
    let scanned = scan_digits-value ds 0 rest n.below stop (omega arith) in
    rw
      (
        skip_spaces-append,
        text,
        atoi-head g d (map decimal_digit more ++ rest) below.0,
        ← text,
        scanned,
        n.spells,
      )
      (apply_sign-read g v)
