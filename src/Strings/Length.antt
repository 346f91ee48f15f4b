-- ===== src/Strings/Length.antt =====
-- `strlen` (src/string/strlen.c).
use freestanding_custom_c_li.Prelude.{
  ℕ, zero, suc, ◌+◌, ◌%◌, ◌^◌, ◌<◌, ◌≡◌, ap, ◌∙◌, some, arith, Bytes, length, ==_false,
}
use freestanding_custom_c_li.Strings.Memory.{Mem, IsString, end, char}
use freestanding_custom_c_li.Strings.{strlen_loop, strlen}

strlen_loop-length :
    (fuel : ℕ) {m : Mem} {p : ℕ} {s : Bytes} (len : ℕ)
    → IsString m p s
    → length s < fuel
    → len + length s < 2 ^ 64
    → strlen_loop fuel m p len ≡ some (len + length s)
unfolding strlen_loop
strlen_loop-length zero len t h fits = absurd (omega arith)
strlen_loop-length (suc fuel) len (end e) h fits = rw e (ap some (omega arith))
strlen_loop-length (suc fuel) {m} {p} len (char e ne t) h fits =
    let next : (len + 1) % 2 ^ 64 ≡ len + 1 = omega arith in
    rw (e, ==_false _ 0 ne, next)
      (strlen_loop-length fuel (len + 1) t (omega arith) (omega arith) ∙ ap some (omega arith))

-- `strlen` on a string shorter than the fuel and than 2^64 returns the number of bytes before the
-- NUL.
pub strlen-length :
    (fuel : ℕ) {m : Mem} {p : ℕ} {s : Bytes}
    → IsString m p s
    → length s < fuel
    → length s < 2 ^ 64
    → strlen fuel m p ≡ some (length s)
unfolding strlen
strlen-length fuel t h fits = strlen_loop-length fuel 0 t h (omega arith) ∙ ap some (omega arith)
