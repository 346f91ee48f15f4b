-- ===== src/Memory.antt =====
-- `memcpy_large` of src/memory.c as it is built for the baseline of x86-64, in the `__SSE2__` branch:
-- a loop over the bytes. Memory is a function from addresses to bytes, as in Strings.antt.
pub mod Wide
pub mod Overrun
use freestanding_custom_c_li.Prelude.{
  ℕ, zero, suc, ◌+◌, ◌≤◌, ◌<◌, ◌≡◌, ◌≢◌, ◌⊎◌, inl, refl, ◌∙◌, arith, ==_iff, ==_false,
}
use freestanding_custom_c_li.Strings.Memory.{Mem, store, SameOutside}

-- `for (size_t i = 0; i < n; ++i) d[i] = s[i];`
unfoldable pub copy_bytes : (n : ℕ) → Mem → (d s : ℕ) → Mem
copy_bytes zero m d s = m
copy_bytes (suc n) m d s = copy_bytes n (store m d (m s)) (suc d) (suc s)

-- What is returned, and the memory.
unfoldable pub memcpy_large : Mem → (dst src n : ℕ) → ℕ × Mem
memcpy_large m dst src n = (dst, copy_bytes n m dst src)

pub copy_bytes-SameOutside :
    (n : ℕ) (m : Mem) (d s : ℕ) → SameOutside d (d + n) m (copy_bytes n m d s)
unfolding copy_bytes
copy_bytes-SameOutside zero m d s a h = refl
copy_bytes-SameOutside (suc n) m d s a h =
    let outside : (a < suc d) ⊎ (suc d + n ≤ a) = ground arith in
    let other : d ≢ a = ground arith in
    copy_bytes-SameOutside n (store m d (m s)) (suc d) (suc s) a outside
    ∙ rw (==_false d a other) refl

pub copy_bytes-copied :
    (n : ℕ) (m : Mem) (d s : ℕ)
    → (d ≤ s) ⊎ (s + n ≤ d)
    → (i : ℕ) → i < n
    → copy_bytes n m d s (d + i) ≡ m (s + i)
unfolding copy_bytes
copy_bytes-copied zero m d s apart i h = absurd (omega arith)
copy_bytes-copied (suc n) m d s apart zero h =
    let m' = store m d (m s) in
    let at : d + 0 ≡ d = omega arith in
    let from : s + 0 ≡ s = omega arith in
    rw (at, from)
      (copy_bytes-SameOutside n m' (suc d) (suc s) d (inl (omega arith))
        ∙ rw ((==_iff d d).1 refl) refl)
copy_bytes-copied (suc n) m d s apart (suc i) h =
    let m' = store m d (m s) in
    let at : d + suc i ≡ suc d + i = omega arith in
    let from : s + suc i ≡ suc s + i = omega arith in
    let apart' : (suc d ≤ suc s) ⊎ (suc s + n ≤ suc d) = ground arith in
    let other : d ≢ suc s + i = ground arith in
    rw (at, from)
      (copy_bytes-copied n m' (suc d) (suc s) apart' i (omega arith)
        ∙ rw (==_false d (suc s + i) other) refl)

-- `memcpy_large` of `n` bytes, where the target does not begin inside the source behind its first
-- byte: it returns the target, each of the `n` bytes there is the byte that stood in the source at
-- the same place, and no other byte has changed.
pub memcpy_large-copied :
    (m : Mem) (dst src n : ℕ)
    → (dst ≤ src) ⊎ (src + n ≤ dst)
    → let (p, g) = memcpy_large m dst src n in
      (p ≡ dst) × ((i : ℕ) → i < n → g (dst + i) ≡ m (src + i)) × SameOutside dst (dst + n) m g
unfolding memcpy_large
memcpy_large-copied m dst src n apart =
    (refl, copy_bytes-copied n m dst src apart, copy_bytes-SameOutside n m dst src)
