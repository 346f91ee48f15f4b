-- ===== src/Kernel.antt =====
-- The Linux system calls that the library makes, as an interface: intf/syscalls.h declares the
-- wrappers, src/syscalls.asm only moves the arguments into registers. `sent fd w` is what the
-- descriptor has received in the world `w`.
use freestanding_custom_c_li.Prelude.{ℕ, ◌≤◌, ◌≡◌, ◌++◌, Bytes, length, take}

-- The result of `write`: a count, or a negative number.
pub data Outcome : Type 0 where
  wrote : ℕ → Outcome
  failed : Outcome

-- write(2): a call that succeeds appends the first bytes of the buffer, perhaps not all of them;
-- one that fails appends none.
pub record Kernel : Type 1 where
  pub World : Type 0
  pub write : ℕ → Bytes → World → Outcome × World
  pub sent : ℕ → World → Bytes
  pub wrote_le :
      (fd : ℕ) (bs : Bytes) (w w' : World) (n : ℕ) → write fd bs w ≡ (wrote n, w') → n ≤ length bs
  pub sent_wrote :
      (fd : ℕ) (bs : Bytes) (w w' : World) (n : ℕ)
      → write fd bs w ≡ (wrote n, w')
      → sent fd w' ≡ sent fd w ++ take n bs
  pub sent_failed :
      (fd : ℕ) (bs : Bytes) (w w' : World) → write fd bs w ≡ (failed, w') → sent fd w' ≡ sent fd w
