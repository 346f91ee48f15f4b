-- ===== src/Memory/Overrun.antt =====
-- What the branches of `memcpy_large` of src/memory.c in inline assembly copy.
use freestanding_custom_c_li.Prelude.{ℕ, ◌+◌, ◌≤◌, ◌<◌, ◌≡◌, ◌⊎◌}
use freestanding_custom_c_li.Memory.Wide.{Copying}
use freestanding_custom_c_li.Strings.Memory.{Mem, SameOutside}

-- The `n` bytes at `s` of `m` stand at `d` of `g`, which is `m` elsewhere.
pub record Copies (n : ℕ) (m : Mem) (d s : ℕ) (g : Mem) : Type 0 where
  pub bytes : (i : ℕ) → i < n → g (d + i) ≡ m (s + i)
  pub same : SameOutside d (d + n) m g

-- The target does not begin inside the source behind its first byte.
abbrev pub Upwards : (n d s : ℕ) → Type 0
Upwards n d s = (d ≤ s) ⊎ (s + n ≤ d)

-- A loop that has ended, or gone so far, has copied all but the bytes still counted.
record Advanced (c q : Copying) : Type 0 where
  moved : ℕ
  total : c.count ≡ moved + q.count
  dst_is : q.dst ≡ c.dst + moved
  src_is : q.src ≡ c.src + moved
  copies : Copies moved c.mem c.dst c.src q.mem
