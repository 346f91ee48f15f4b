-- ===== src/Conversions.antt =====
-- src/conversions.c: the resumable integer printers (`itoa`, `itoab`, `itoao`, `itoax`, `utoa`,
-- `utoab`, `utoao`, `utoax`) and `atoi`.
-- A `uint64_t` is a number below `2 ^ 64`; an `int64_t` is its bit pattern. A pointer that may be
-- NULL is an option. The C functions repeat four loops, which are functions of their own here.
pub mod Digits
mod Examples
mod Loops
pub mod RoundTrip
pub mod Atoi
pub mod Refusals
pub mod SignedSessions
pub mod Sessions
pub mod Signed
pub mod Drain
mod Unsigned
mod Finish
mod Emit
use freestanding_custom_c_li.Prelude.{
  ℕ, zero, suc, ◌+◌, ◌-◌, ◌*◌, ◌/◌, ◌%◌, ◌^◌, Bool, ◌&&◌, ◌||◌, Option, none, some, [], ◌∷◌, ◌++◌,
  Bytes, get_or, set, ltb, leb, ◌==◌, if◌then◌else◌,
}

-- What a call leaves behind: the count returned, the integer behind `i`, and the buffer.
pub record Ret : Type 0 where
  pub written : ℕ
  pub value : ℕ
  pub buffer : Bytes

abbrev pub ret : ℕ → ℕ → Bytes → Ret
ret written value buffer = record { written = written; value = value; buffer = buffer }

abbrev pub uint64_max : ℕ
uint64_max = 2 ^ 64 - 1

-- The bit pattern of `INT64_MIN`.
abbrev pub int64_min : ℕ
int64_min = 2 ^ 63

abbrev pub enc_span : ℕ
enc_span = 2 ^ 61

-- Signed comparison of two bit patterns.
abbrev pub slt64 : ℕ → ℕ → Bool
slt64 a b = ltb ((a + 2 ^ 63) % 2 ^ 64) ((b + 2 ^ 63) % 2 ^ 64)

abbrev pub sle64 : ℕ → ℕ → Bool
sle64 a b = leb ((a + 2 ^ 63) % 2 ^ 64) ((b + 2 ^ 63) % 2 ^ 64)

-- `while (t) { ++digits; t /= radix; }`
unfoldable pub count_digits : ℕ → ℕ → ℕ → ℕ → ℕ
count_digits radix zero t digits = digits
count_digits radix (suc fuel) t digits =
    let rest = count_digits radix fuel (t / radix) ((digits + 1) % 2 ^ 32) in
    if t == 0 then digits else rest

-- `for (j = 0; j < n; ++j) base *= radix;`
unfoldable pub pow_loop : ℕ → ℕ → ℕ → ℕ
pow_loop radix zero base = base
pow_loop radix (suc n) base = pow_loop radix n (base * radix % 2 ^ 64)

-- `while (base <= u / radix) { base *= radix; ++m; }`
unfoldable pub top_power : ℕ → ℕ → ℕ → ℕ → ℕ → ℕ × ℕ
top_power radix zero u base m = (base, m)
top_power radix (suc fuel) u base m =
    let rest = top_power radix fuel u (base * radix % 2 ^ 64) ((m + 1) % 2 ^ 32) in
    if leb base (u / radix) then rest else (base, m)

pub record Emitted : Type 0 where
  pub buffer : Bytes
  pub w : ℕ
  pub v : ℕ

-- `for (j = 0; j < k; ++j) { d = v / div; buffer[w++] = digits[d]; v %= div; div /= radix; }`
unfoldable pub emit : ℕ → (ℕ → ℕ) → ℕ → Bytes → ℕ → ℕ → ℕ → Emitted
emit radix digit zero buffer w v div = record { buffer = buffer; w = w; v = v }
emit radix digit (suc k) buffer w v div =
    emit radix digit k (set buffer w (digit (v / div))) ((w + 1) % 2 ^ 32) (v % div) (div / radix)

-- The state of a print: what is left to print, its digits, and the weight of the first of them.
pub record Plan : Type 0 where
  pub v : ℕ
  pub digits : ℕ
  pub div : ℕ

-- A value that an earlier call has encoded, `u = radix^m + suffix`.
unfoldable pub decode : ℕ → ℕ → Plan
decode radix u =
    let (base, m) = top_power radix 64 u 1 0 in
    record { v = (u + 2 ^ 64 - base) % 2 ^ 64; digits = m; div = base / radix }

-- A value that no call has seen.
unfoldable pub measure : ℕ → ℕ → Plan
measure radix v =
    let digits = count_digits radix 65 v 0 in
    record { v = v; digits = digits; div = pow_loop radix (digits - 1) 1 }

-- The end of each printer: at most `buff_size` digits from index `w` on, then the encoded rest.
unfoldable pub finish : (encode digit : ℕ → ℕ) → ℕ → Bytes → ℕ → ℕ → Plan → Ret
finish encode digit radix buffer buff_size w p =
    let k : ℕ = if ltb buff_size p.digits then buff_size % 2 ^ 32 else p.digits in
    let e = emit radix digit k buffer w p.v p.div in
    let remaining = p.digits - k in
    if remaining == 0
    then ret e.w 0 e.buffer
    else ret e.w (encode ((pow_loop radix remaining 1 + e.v) % 2 ^ 64)) e.buffer

-- `*i = UINT64_MAX - (base + v)`, and `*i = INT64_MIN + (int64_t)(base + v)`.
abbrev pub encode_unsigned : ℕ → ℕ
encode_unsigned t = uint64_max - t

abbrev pub encode_signed : ℕ → ℕ
encode_signed t = (int64_min + t) % 2 ^ 64

-- `digits[d]`; the tables have `radix` characters.
abbrev pub digit_of : Bytes → ℕ → ℕ
digit_of table d = get_or table d 0

-- `utoa_generic` behind non-null pointers.
pub unsigned_print : ℕ → Bytes → ℕ → ℕ → Bytes → ℕ → Ret
unsigned_print i buffer buff_size radix digits max_rem_digits =
    if buff_size == 0
    then ret 0 i buffer
    else if i == 0
    then ret 1 i (set buffer 0 b'0')
    else if leb (uint64_max - enc_span) i
    then (let p = decode radix (uint64_max - i) in
        if p.digits == 0
        then ret 0 p.v buffer
        else finish encode_unsigned (digit_of digits) radix buffer buff_size 0 p)
    else (let p = measure radix i in
        if ltb ((max_rem_digits + buff_size) % 2 ^ 64) p.digits
        then ret 0 i buffer
        else finish encode_unsigned (digit_of digits) radix buffer buff_size 0 p)

-- `(*i > INT64_MIN) && (*i <= enc_limit)`
abbrev pub signed_encoded : ℕ → Bool
signed_encoded i = slt64 int64_min i && sle64 i ((int64_min + enc_span) % 2 ^ 64)

-- The magnitude of a negative pattern: `(uint64_t)(-(sv + 1)) + 1`.
abbrev pub magnitude : ℕ → ℕ
magnitude i = (2 ^ 64 - (i + 1) % 2 ^ 64 + 1) % 2 ^ 64

-- `itoa_generic` behind non-null pointers.
pub signed_print : ℕ → Bytes → ℕ → ℕ → Bytes → ℕ → Ret
signed_print i buffer buff_size radix digits max_rem_digits =
    if buff_size == 0
    then ret 0 i buffer
    else if i == 0
    then ret 1 i (set buffer 0 b'0')
    else if signed_encoded i
    then (let p = decode radix ((i + 2 ^ 64 - int64_min) % 2 ^ 64) in
        if p.digits == 0
        then ret 0 p.v buffer
        else finish encode_signed (digit_of digits) radix buffer buff_size 0 p)
    else if slt64 i 0
    then (let p = measure radix (magnitude i) in
        if ltb buff_size 2
        then ret 0 i buffer
        else if ltb ((max_rem_digits + (buff_size - 1)) % 2 ^ 64) p.digits
        then ret 0 i (set buffer 0 b'-')
        else finish encode_signed (digit_of digits) radix (set buffer 0 b'-') (buff_size - 1) 1 p)
    else (let p = measure radix i in
        if ltb ((max_rem_digits + buff_size) % 2 ^ 64) p.digits
        then ret 0 i buffer
        else finish encode_signed (digit_of digits) radix buffer buff_size 0 p)

-- `(char)('0' + (char)d)`
abbrev pub decimal_digit : ℕ → ℕ
decimal_digit d = (b'0' + d % 256) % 256

-- `itoa` behind non-null pointers. It has no bound on the digits that are left.
unfoldable pub decimal_print : ℕ → Bytes → ℕ → Ret
decimal_print i buffer buff_size =
    if buff_size == 0
    then ret 0 i buffer
    else if i == 0
    then ret 1 i (set buffer 0 b'0')
    else if signed_encoded i
    then (let p = decode 10 ((i + 2 ^ 64 - int64_min) % 2 ^ 64) in
        if p.digits == 0
        then ret 0 p.v buffer
        else finish encode_signed decimal_digit 10 buffer buff_size 0 p)
    else if slt64 i 0
    then (if ltb buff_size 2
        then ret 0 i buffer
        else finish encode_signed decimal_digit 10 (set buffer 0 b'-') (buff_size - 1) 1
            (measure 10 (magnitude i)))
    else finish encode_signed decimal_digit 10 buffer buff_size 0 (measure 10 i)

-- A call through the pointers `i` and `buffer`: the count, and what they point to afterwards.
abbrev pub Call : Type 0
Call = ℕ × Option ℕ × Option Bytes

-- The guard `i == NULL || buffer == NULL`, and a print where both point somewhere.
abbrev pub through : (ℕ → Bytes → Ret) → Option ℕ → Option Bytes → Call
through print none buffer = (0, none, buffer)
through print (some i) none = (0, some i, none)
through print (some i) (some buffer) =
    let r = print i buffer in (r.written, some r.value, some r.buffer)

abbrev pub decimal_table : Bytes
decimal_table = b'0' ∷ b'1' ∷ b'2' ∷ b'3' ∷ b'4' ∷ b'5' ∷ b'6' ∷ b'7' ∷ b'8' ∷ b'9' ∷ []

abbrev pub binary_table : Bytes
binary_table = b'0' ∷ b'1' ∷ []

abbrev pub octal_table : Bytes
octal_table = b'0' ∷ b'1' ∷ b'2' ∷ b'3' ∷ b'4' ∷ b'5' ∷ b'6' ∷ b'7' ∷ []

abbrev pub hex_table : Bool → Bytes
hex_table upper =
    decimal_table
    ++ (if upper
        then b'A' ∷ b'B' ∷ b'C' ∷ b'D' ∷ b'E' ∷ b'F' ∷ []
        else b'a' ∷ b'b' ∷ b'c' ∷ b'd' ∷ b'e' ∷ b'f' ∷ [])

pub utoa_generic : Option ℕ → Option Bytes → ℕ → ℕ → Bytes → ℕ → Call
unfolding unsigned_print
utoa_generic i buffer buff_size radix digits max_rem_digits =
    through (λ x b. unsigned_print x b buff_size radix digits max_rem_digits) i buffer

pub itoa_generic : Option ℕ → Option Bytes → ℕ → ℕ → Bytes → ℕ → Call
unfolding signed_print
itoa_generic i buffer buff_size radix digits max_rem_digits =
    through (λ x b. signed_print x b buff_size radix digits max_rem_digits) i buffer

unfoldable pub itoa : Option ℕ → Option Bytes → ℕ → Call
unfolding decimal_print
itoa i buffer buff_size = through (λ x b. decimal_print x b buff_size) i buffer

pub utoa : Option ℕ → Option Bytes → ℕ → Call
unfolding utoa_generic
utoa i buf buff_size = utoa_generic i buf buff_size 10 decimal_table 18

pub utoab : Option ℕ → Option Bytes → ℕ → Call
unfolding utoa_generic
utoab i buf buff_size = utoa_generic i buf buff_size 2 binary_table 60

pub utoao : Option ℕ → Option Bytes → ℕ → Call
unfolding utoa_generic
utoao i buf buff_size = utoa_generic i buf buff_size 8 octal_table 20

pub utoax : Option ℕ → Option Bytes → ℕ → Bool → Call
unfolding utoa_generic
utoax i buf buff_size upper = utoa_generic i buf buff_size 16 (hex_table upper) 15

pub itoab : Option ℕ → Option Bytes → ℕ → Call
unfolding itoa_generic
itoab i buf buff_size = itoa_generic i buf buff_size 2 binary_table 60

pub itoao : Option ℕ → Option Bytes → ℕ → Call
unfolding itoa_generic
itoao i buf buff_size = itoa_generic i buf buff_size 8 octal_table 20

pub itoax : Option ℕ → Option Bytes → ℕ → Bool → Call
unfolding itoa_generic
itoax i buf buff_size upper = itoa_generic i buf buff_size 16 (hex_table upper) 15
