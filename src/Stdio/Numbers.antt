-- ===== src/Stdio/Numbers.antt =====
-- `fputi` of src/stdio.c on an unbuffered stream.
use freestanding_custom_c_li.Prelude.{ℕ, ◌≡◌, ◌≢◌, List, ◌++◌, map, take, replicate}
use freestanding_custom_c_li.Kernel.{Kernel}
use freestanding_custom_c_li.Conversions.{itoa, decimal_digit}
use freestanding_custom_c_li.Conversions.Digits.{IsNumeral}
use freestanding_custom_c_li.Conversions.Drain.{printer}
use freestanding_custom_c_li.Conversions.SignedSessions.{sign, abs}
use freestanding_custom_c_li.Stdio.Fputi.{widened}

-- What `itoa` does to it in the buffer of 32 bytes.
abbrev Whole : (i : ℕ) → Type 0
Whole i =
    let r = printer itoa (widened i) (replicate 32 0) 32 in
    (numeral : List ℕ) × IsNumeral 10 (abs (widened i)) numeral
    × (take r.written r.buffer ≡ sign (widened i) ++ map decimal_digit numeral)
    × (r.value ≡ 0)
    × (r.written ≢ 0)
