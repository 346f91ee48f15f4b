-- ===== src/Heap/Malloc.antt =====
-- `malloc` of src/stdlib.c: from a free block, with the heap refused, and at the top of the sizes.
use freestanding_custom_c_li.Prelude.{
  ℕ, suc, ◌+◌, ◌-◌, ◌^◌, ◌≤◌, ◌<◌, ◌≡◌, ◌≢◌, inl, inr, refl, ap, ◌∙◌, List, [], ◌∷◌, ◌++◌, arith,
  Option, some, length, leb, leb_iff, leb-false, ltb_iff, ltb-false, ==_false, ==_iff,
  if◌then◌else◌, ltb, ◌%◌, false, Bool-cases,
}
use freestanding_custom_c_li.Heap.{
  Arena, Pages, align16, align_page, extend, find_fit, allocate, malloc, malloc_after_lock,
}
use freestanding_custom_c_li.Heap.Blocks.{Block, Separate}
use freestanding_custom_c_li.Heap.FreeList.{FreeList}
use freestanding_custom_c_li.Heap.Split.{first_fit, find_fit-first}
use freestanding_custom_c_li.Heap.Allocate.{Allocated, granted, remainder, allocate-Allocated}
use mathlib.Core.Path.{subst}
use native.Mathlib.Decide.{dec_lt}

-- The first block that is large enough, and the blocks around it.
pub record Fitting (n : ℕ) (bs : List Block) : Type 0 where
  pub before : List Block
  pub block : Block
  pub behind : List Block
  pub whole : bs ≡ before ++ (block ∷ behind)
  pub found : first_fit n bs ≡ block.at
  pub enough : n ≤ block.bytes

pub first_fit-Fitting : (n : ℕ) (bs : List Block) → first_fit n bs ≢ 0 → Fitting n bs
first_fit-Fitting n [] h = absurd (h refl)
first_fit-Fitting n (b ∷ bs) h = elim (Bool-cases (leb n b.bytes)) [
  | inl y ↦ record {
    before = [];
    block = b;
    behind = bs;
    whole = refl;
    found = rw y refl;
    enough = (leb_iff n b.bytes).0 y;
  }
  | inr y ↦
      let e : first_fit n (b ∷ bs) ≡ first_fit n bs = rw y refl in
      let f = first_fit-Fitting n bs (λ z. h (e ∙ z)) in
      record {
        before = b ∷ f.before;
        block = f.block;
        behind = f.behind;
        whole = ap (λ l. b ∷ l) f.whole;
        found = e ∙ f.found;
        enough = f.enough;
      }
]

pub granted_enough : (b : Block) (n : ℕ) → n ≤ b.bytes → n ≤ (granted b n).bytes
granted_enough b n h = elim (dec_lt 40 (b.bytes - n)) [
  | yes wide ↦ rw ((ltb_iff 40 (b.bytes - n)).1 wide) (omega arith)
  | no narrow ↦ rw (ltb-false 40 (b.bytes - n) (omega arith)) h
]

module _ (k : Pages) where
  open k use {World, brk}

  -- An allocation of `n` bytes from one of the blocks `bs`, without a system call.
  pub record Served (a : Arena) (n : ℕ) (bs : List Block) (w : World)
      (res : Option (ℕ × Arena × World)) : Type 0 where
    pub before : List Block
    pub block : Block
    pub behind : List Block
    pub whole : bs ≡ before ++ (block ∷ behind)
    pub fits : align16 n ≤ block.bytes
    pub granting : Block
    pub place : granting ≡ granted block (align16 n)
    pub roomy : n ≤ granting.bytes
    pub pointer : ℕ
    pub arena : Arena
    pub ends : res ≡ some (pointer, arena, w)
    pub allocated :
        Allocated a
          (before ++ (block ∷ behind))
          (before ++ (remainder block (align16 n) ++ behind))
          granting
          (pointer, arena)

  -- `malloc` of `n` bytes, at most 131056, where the free list has fewer blocks than the fuel
  -- of a search and one of them is large enough for `n` rounded up to 16: it returns without a
  -- system call, with the address behind the header of a block of `n` bytes at least, which was
  -- one of the free list or the first part of one. That block is marked as used, the free list has
  -- what is left of it in its place, in a sound state and apart from the granted block, and no
  -- word outside the blocks of the list has changed.
  pub malloc-Served :
      (rounds fuel : ℕ) (a : Arena) (n : ℕ) (bs : List Block) (w : World)
      → FreeList a.mem 0 a.head bs
      → Separate bs
      → length bs < fuel
      → n + 15 < 2 ^ 17
      → first_fit (align16 n) bs ≢ 0
      → Served a n bs w (malloc k (suc rounds) fuel a n w)
  unfolding malloc malloc_after_lock
  malloc-Served rounds fuel a n bs w list sep h small found =
      let f = first_fit-Fitting (align16 n) bs found in
      let search : find_fit fuel a.mem a.head (align16 n) ≡ some f.block.at =
        find_fit-first fuel a.mem 0 a.head (align16 n) bs list h ∙ ap some f.found in
      let r =
        allocate-Allocated a f.block (align16 n) f.before f.behind
          (subst (λ l. FreeList a.mem 0 a.head l) f.whole list)
          (subst (λ l. Separate l) f.whole sep) in
      let below = leb-false (2 ^ 17) (align16 n) (omega arith) in
      let nonzero = ==_false f.block.at 0 (λ z. found (f.found ∙ z)) in
      record {
        before = f.before;
        block = f.block;
        behind = f.behind;
        whole = f.whole;
        fits = f.enough;
        granting = granted f.block (align16 n);
        place = refl;
        roomy = omega (arith, granted_enough f.block (align16 n) f.enough);
        pointer = (allocate a f.block.at (align16 n)).0;
        arena = (allocate a f.block.at (align16 n)).1;
        ends = rw (below, search, nonzero) refl;
        allocated = r;
      }

  -- The break that `malloc` asks for when no free block has `n` bytes.
  abbrev pub wanted_break : Arena → ℕ → ℕ
  wanted_break a n =
      let grown = if ltb (align16 n) 32 then 32 else align16 n in
      align_page ((a.p_brk + (grown + 32) % 2 ^ 64) % 2 ^ 64)

  extend-refused :
      (a : Arena) (n : ℕ) (w w' : World)
      → brk (align_page ((a.p_brk + n) % 2 ^ 64)) w ≡ (a.p_brk, w')
      → extend k a n w ≡ (false, a, w')
  unfolding extend
  extend-refused a n w w' refused = rw (refused, (==_iff a.p_brk a.p_brk).1 refl) refl

  -- `malloc` of `n` bytes, 131056 at most, so that the size stays below 128 KiB when it is rounded
  -- up to 16, where the free list has fewer blocks than the fuel of a search, none of them is
  -- large enough, and the kernel answers the call of `brk` with the break as it is: it returns
  -- NULL, and memory, free list and break are those from before.
  pub malloc-refused :
      (rounds fuel : ℕ) (a : Arena) (n : ℕ) (bs : List Block) (w w' : World)
      → FreeList a.mem 0 a.head bs
      → length bs < fuel
      → n + 15 < 2 ^ 17
      → first_fit (align16 n) bs ≡ 0
      → brk (wanted_break a n) w ≡ (a.p_brk, w')
      → malloc k (suc rounds) fuel a n w ≡ some (0, a, w')
  unfolding malloc malloc_after_lock
  malloc-refused rounds fuel a n bs w w' list h small absent refused =
      let search : find_fit fuel a.mem a.head (align16 n) ≡ some 0 =
        find_fit-first fuel a.mem 0 a.head (align16 n) bs list h ∙ ap some absent in
      let below = leb-false (2 ^ 17) (align16 n) (omega arith) in
      let grown = if ltb (align16 n) 32 then 32 else align16 n in
      rw (below, search, extend-refused a ((grown + 32) % 2 ^ 64) w w' refused) refl

  -- `malloc` of `n` bytes with `n` among the fifteen greatest values of a `size_t` does what
  -- `malloc` of 0 bytes does in the same heap, the returned pointer included.
  pub malloc-wrapped :
      (rounds fuel : ℕ) (a : Arena) (n : ℕ) (w : World)
      → 2 ^ 64 - 15 ≤ n
      → n < 2 ^ 64
      → malloc k (suc rounds) fuel a n w ≡ malloc k (suc rounds) fuel a 0 w
  unfolding malloc malloc_after_lock
  malloc-wrapped rounds fuel a n w lo hi = let e : align16 n ≡ 0 = omega arith in rw e refl
