-- ===== src/Strings/Copy.antt =====
-- `strcpy` and `strncpy` (src/string/strcpy.c, src/string/strncpy.c).
use freestanding_custom_c_li.Prelude.{
  ℕ, zero, suc, ◌+◌, ◌-◌, ◌%◌, ◌^◌, ◌≤◌, ◌<◌, ◌≡◌, ◌⊎◌, inl, inr, refl, Option, none, some, [], ◌∷◌,
  arith, min, Bytes, length, take, ltb_iff, ltb-false, ==_false,
}
use freestanding_custom_c_li.Strings.Memory.{
  Mem, store, Holds, IsString, end, char, SameOutside, IsString-frame,
}
use freestanding_custom_c_li.Strings.{copy_loop, strcpy, strncpy}
use mathlib.Core.Path.{subst, subst₂}
use native.Mathlib.Decide.{dec_lt}

-- How many bytes of a string a copy with a bound still takes.
abbrev pub quota : Option ℕ → ℕ → ℕ → ℕ
quota none copied len = len
quota (some n) copied len = min (n - copied) len

-- The target and the source, its NUL included, do not overlap, as `restrict` promises.
abbrev pub Apart : ℕ → ℕ → ℕ → Type 0
Apart dst src len = (dst + len ≤ src) ⊎ (src + len < dst)

-- The first `k` bytes of `s` have been copied to `dst`, and nothing else has changed.
pub record Copied (m : Mem) (dst : ℕ) (s : Bytes) (k count : ℕ) (res : Option (ℕ × Mem))
    : Type 0 where
  pub mem : Mem
  pub ends : res ≡ some (count, mem)
  pub holds : Holds mem dst (take k s)
  pub same : SameOutside dst (dst + k) m mem

stopped : (m : Mem) (dst : ℕ) (s : Bytes) (count : ℕ) → Copied m dst s 0 count (some (count, m))
stopped m dst s count = record { mem = m; ends = refl; holds = tt; same = λ a h. refl }

Copied-cons :
    {m : Mem} {dst c k count : ℕ} {s : Bytes} {res : Option (ℕ × Mem)}
    → Copied (store m dst c) (suc dst) s k count res
    → Copied m dst (c ∷ s) (suc k) count res
Copied-cons {dst} r = record {
  mem = r.mem;
  ends = r.ends;
  holds = (ground (arith, r.same dst), r.holds);
  same = λ a h. ground (arith, r.same a, h);
}

-- The step of the loop to the next address.
copy_next :
    (c : ℕ) {m : Mem} {dst src : ℕ} {s : Bytes}
    → IsString m (suc src) s
    → Apart dst src (suc (length s))
    → IsString (store m dst c) (suc src) s
copy_next c {dst} {src} {s} t apart = IsString-frame t (λ a lo hi. ground (arith, apart))

Apart-suc : (dst src len : ℕ) → Apart dst src (suc len) → Apart (suc dst) (suc src) len
Apart-suc dst src len (inl h) = inl (omega arith)
Apart-suc dst src len (inr h) = inr (omega arith)

copy_loop-Copied :
    (bound : Option ℕ) (fuel : ℕ) {m : Mem} {dst src : ℕ} {s : Bytes} (copied : ℕ)
    → IsString m src s
    → Apart dst src (length s)
    → length s < fuel
    → copied + length s < 2 ^ 64
    → Copied m dst s
        (quota bound copied (length s))
        (copied + quota bound copied (length s))
        (copy_loop bound fuel m dst src copied)
unfolding copy_loop
copy_loop-Copied bound zero copied t apart h fits = absurd (omega arith)
copy_loop-Copied none (suc fuel) {m} {dst} copied (end e) apart h fits =
    let z : copied + 0 ≡ copied = omega arith in rw (e, z) (stopped m dst [] copied)
copy_loop-Copied (some n) (suc fuel) {m} {dst} copied (end e) apart h fits =
    let q : min (n - copied) 0 ≡ 0 = omega arith in
    let z : copied + 0 ≡ copied = omega arith in rw (e, q, z) (stopped m dst [] copied)
copy_loop-Copied none (suc fuel) {m} {dst} copied (char {c} {s} e ne t) apart h fits =
    let next : (copied + 1) % 2 ^ 64 ≡ copied + 1 = omega arith in
    let shift : copied + suc (length s) ≡ copied + 1 + length s = omega arith in
    rw (e, ==_false c 0 ne, next, shift)
      (Copied-cons (
        copy_loop-Copied none fuel (copied + 1) (copy_next c t apart)
          (Apart-suc dst _ (length s) apart) (omega arith) (omega arith)))
copy_loop-Copied (some n) (suc fuel) {m} {dst} copied (char {c} {s} e ne t) apart h fits =
    elim (dec_lt copied n) [
      | yes lt ↦
          let next : (copied + 1) % 2 ^ 64 ≡ copied + 1 = omega arith in
          let q : min (n - copied) (suc (length s)) ≡ suc (min (n - (copied + 1)) (length s)) =
            omega arith in
          let shift : copied + suc (min (n - (copied + 1)) (length s))
              ≡ copied + 1 + min (n - (copied + 1)) (length s) =
            omega arith in
          rw (e, ==_false c 0 ne, (ltb_iff copied n).1 lt, next, q, shift)
            (Copied-cons (
              copy_loop-Copied (some n) fuel (copied + 1) (copy_next c t apart)
                (Apart-suc dst _ (length s) apart) (omega arith) (omega arith)))
      | no ge ↦
          let q : min (n - copied) (suc (length s)) ≡ 0 = omega arith in
          let z : copied + 0 ≡ copied = omega arith in
          rw (e, ==_false c 0 ne, ltb-false copied n (omega arith), q, z)
            (stopped m dst (c ∷ s) copied)
    ]

module _ (fuel : ℕ) {m : Mem} {dst src : ℕ} {s : Bytes} (t : IsString m src s)
    (apart : Apart dst src (length s)) (h : length s < fuel) (fits : length s < 2 ^ 64) where
  -- `strcpy` from the string `s` at `src`, its NUL included apart from the target, shorter than
  -- the fuel and than 2^64: it returns the length of `s`, the bytes of `s` stand at `dst`, and no
  -- other byte has changed, so that no NUL is written.
  pub strcpy-Copied : Copied m dst s (length s) (length s) (strcpy fuel m dst src)
  unfolding strcpy
  strcpy-Copied =
      let z : 0 + length s ≡ length s = omega arith in
      let r = copy_loop-Copied none fuel 0 t apart h (omega arith) in
      subst (λ n. Copied m dst s (length s) n (copy_loop none fuel m dst src 0)) z r

  -- `strncpy` from the string `s` at `src`, its NUL included apart from the target, shorter than
  -- the fuel and than 2^64: it returns the smaller of `n` and the length of `s`, so many bytes of
  -- `s` stand at `dst`, and no other byte has changed.
  pub strncpy-Copied :
      (n : ℕ) → Copied m dst s (min n (length s)) (min n (length s)) (strncpy fuel m dst src n)
  unfolding strncpy
  strncpy-Copied n =
      let q : min (n - 0) (length s) ≡ min n (length s) = omega arith in
      let z : 0 + min (n - 0) (length s) ≡ min n (length s) = omega arith in
      let r = copy_loop-Copied (some n) fuel 0 t apart h (omega arith) in
      subst₂ (λ k c. Copied m dst s k c (copy_loop (some n) fuel m dst src 0)) q z r
