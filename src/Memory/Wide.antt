-- ===== src/Memory/Wide.antt =====
-- The branches of `memcpy_large` of src/memory.c in inline assembly: for AVX-512, for AVX2, and the
-- fallback. An instruction does what the processor's manual says: `rep movsb` copies `rcx` bytes
-- upwards and leaves `rcx` 0, `vmovdqu64` loads a register of `width` bytes from any address, and
-- `vmovdqa64` stores it, with a fault when the address is not a
-- multiple of `width`. (The AVX2 branch uses the same two instructions, which a processor without
-- AVX-512VL refuses with a fault of its own.)
use freestanding_custom_c_li.Prelude.{
  ℕ, zero, suc, ◌+◌, ◌-◌, ◌%◌, ◌^◌, ltb, leb, ◌==◌, if◌then◌else◌,
}
use freestanding_custom_c_li.Memory.{copy_bytes}
use freestanding_custom_c_li.Strings.Memory.{Mem}

-- The memory, and the variables `dst`, `src` and the counter.
pub record Copying : Type 0 where
  pub mem : Mem
  pub dst : ℕ
  pub src : ℕ
  pub count : ℕ

pub data Outcome (A : Type 0) : Type 0 where
  done : A → Outcome A
  fault : Outcome A
  out_of_fuel : Outcome A

-- `rep movsb` with `"+D"(dst), "+S"(src), "+c"(count)`: all three are outputs.
unfoldable pub rep_movsb : Copying → Copying
rep_movsb c = record {
  mem = copy_bytes c.count c.mem c.dst c.src;
  dst = c.dst + c.count;
  src = c.src + c.count;
  count = 0;
}

-- `vmovdqu64 (src), %reg; vmovdqa64 %reg, (dst)` where it does not fault.
unfoldable pub move_wide : (width : ℕ) → Mem → (dst src : ℕ) → Mem
move_wide width m dst src a =
    if leb dst a then (if ltb a (dst + width) then m (src + (a - dst)) else m a) else m a

-- `while (n >= width)`: both loops count by 64.
unfoldable pub wide_loop : (width fuel : ℕ) → Copying → Outcome Copying
wide_loop width zero c = out_of_fuel
wide_loop width (suc fuel) c =
    let rest = wide_loop width fuel (record {
      mem = move_wide width c.mem c.dst c.src;
      dst = c.dst + 64;
      src = c.src + 64;
      count = (c.count + 2 ^ 64 - 64) % 2 ^ 64;
    }) in
    if leb width c.count then (if c.dst % width == 0 then rest else fault) else done c

-- The bytes behind the loop.
unfoldable pub last_bytes : (dst : ℕ) → Outcome Copying → Outcome (ℕ × Mem)
last_bytes dst (done c) = done (dst, (rep_movsb c).mem)
last_bytes dst fault = fault
last_bytes dst out_of_fuel = out_of_fuel

-- The bytes before the loop: `n -= align` reads what `rep movsb` has left in `align`.
unfoldable pub first_bytes : Mem → (dst src n align : ℕ) → Copying
first_bytes m dst src n align =
    let c = rep_movsb (record { mem = m; dst = dst; src = src; count = align }) in
    record c { count = (n + 2 ^ 64 - c.count) % 2 ^ 64 }

-- `align` in the two branches: `(64 - (dst & 63)) & 63` and `(31 - (dst & 31)) & 31`, at most `n`.
abbrev pub align_512 : (dst n : ℕ) → ℕ
align_512 dst n = let align = (64 - dst % 64) % 64 in if ltb n align then n else align

abbrev pub align_256 : (dst n : ℕ) → ℕ
align_256 dst n = let align = (31 - dst % 32) % 32 in if ltb n align then n else align

-- `memcpy_large` with `__AVX512F__`, with `__AVX2__` and without any of the three macros.
unfoldable pub memcpy_avx512 : (fuel : ℕ) → Mem → (dst src n : ℕ) → Outcome (ℕ × Mem)
memcpy_avx512 fuel m dst src n =
    last_bytes dst (wide_loop 64 fuel (first_bytes m dst src n (align_512 dst n)))

unfoldable pub memcpy_avx2 : (fuel : ℕ) → Mem → (dst src n : ℕ) → Outcome (ℕ × Mem)
memcpy_avx2 fuel m dst src n =
    last_bytes dst (wide_loop 32 fuel (first_bytes m dst src n (align_256 dst n)))

unfoldable pub memcpy_scalar : Mem → (dst src n : ℕ) → ℕ × Mem
memcpy_scalar m dst src n =
    (dst, (rep_movsb (record { mem = m; dst = dst; src = src; count = n })).mem)
