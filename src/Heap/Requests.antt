-- ===== src/Heap/Requests.antt =====
-- `malloc` of src/stdlib.c with the kernel's help, and `free` behind `malloc`.
use freestanding_custom_c_li.Prelude.{
  ℕ, suc, ◌+◌, ◌-◌, ◌%◌, ◌^◌, ◌≤◌, ◌<◌, ◌≡◌, ◌≢◌, inl, inr, refl, sym, ap, ◌∙◌, List, [], ◌∷◌, ◌++◌,
  arith, length, some, leb, leb_iff, leb-false, ltb, ltb_iff, ltb-false, if◌then◌else◌, Bool-cases,
}
use freestanding_custom_c_li.Heap.{
  Arena, Words, Pages, align16, align_page, find_fit, malloc, malloc_after_lock, free,
}
use freestanding_custom_c_li.Heap.Blocks.{Block}
use freestanding_custom_c_li.Heap.FreeList.{FreeList}
use freestanding_custom_c_li.Heap.Split.{first_fit, find_fit-first}
use freestanding_custom_c_li.Heap.Malloc.{wanted_break}
use freestanding_custom_c_li.Heap.Cells.{Cell, useds}
use freestanding_custom_c_li.Heap.Sound.{Sound}
use freestanding_custom_c_li.Heap.Release.{free-Sound}
use freestanding_custom_c_li.Heap.Extend.{extend-Extended}
use freestanding_custom_c_li.Heap.Serve.{Allocation, served}
use mathlib.Core.Path.{subst}
use native.Mathlib.Decide.{dec_lt}

-- The search finds a block when there is one.
first_fit-room :
    (m : Words) (prev p n : ℕ) (xs ys : List Block) (b : Block)
    → FreeList m prev p (xs ++ (b ∷ ys))
    → n ≤ b.bytes
    → first_fit n (xs ++ (b ∷ ys)) ≢ 0
first_fit-room m prev p n [] ys b list h = rw ((leb_iff n b.bytes).1 h) list.1
first_fit-room m prev p n (x ∷ xs) ys b list h = elim (Bool-cases (leb n x.bytes)) [
  | inl y ↦ rw y list.1
  | inr y ↦ rw y (first_fit-room m x.at (m x.at) n xs ys b list.4 h)
]

-- The size that `malloc` asks for when it extends the heap.
abbrev pub grown_size : ℕ → ℕ
grown_size n = if ltb (align16 n) 32 then 32 else align16 n

pub grown_size-bounds :
    (n : ℕ)
    → n + 15 < 2 ^ 17
    → (n ≤ grown_size n)
      × (32 ≤ grown_size n)
      × (align16 (grown_size n) ≡ grown_size n)
      × (grown_size n + 15 < 2 ^ 17)
grown_size-bounds n h = elim (dec_lt (align16 n) 32) [
  | yes few ↦ rw ((ltb_iff (align16 n) 32).1 few) (omega arith, omega arith, refl, omega arith)
  | no many ↦
      rw (ltb-false (align16 n) 32 (omega arith))
        (omega arith, omega arith, omega arith, omega arith)
]

-- The new break leaves room for the block and its tags.
pub wanted_break-room :
    (p m top : ℕ)
    → m + 15 < 2 ^ 17
    → 32 ≤ m
    → p + 2 ^ 18 < 2 ^ 63
    → top ≡ align_page ((p + (m + 32) % 2 ^ 64) % 2 ^ 64)
    → (m + 32 ≤ top - p) × (32 ≤ (m + 32) % 2 ^ 64) × (p + (m + 32) % 2 ^ 64 + 4096 < 2 ^ 63)
wanted_break-room p m top small least low high =
    let size : (m + 32) % 2 ^ 64 ≡ m + 32 = omega arith in
    let sum : (p + (m + 32) % 2 ^ 64) % 2 ^ 64 ≡ p + m + 32 = omega arith in
    (omega (arith, high, sum), omega arith, omega arith)

module _ (k : Pages) where
  open k use {World, brk}

  -- `malloc` returns a block, in a heap with the same blocks in use besides it.
  abbrev pub Answered : (bottom n fuel rounds : ℕ) → Arena → List Cell → World → Type 0
  Answered bottom n fuel rounds a cells w =
      (end : ℕ) × (back : List Cell) × (v : World) × (useds back ≡ useds cells)
      × Allocation k bottom end n (useds cells) back v (malloc k (suc (suc rounds)) fuel a n w)

  -- The way without a system call.
  pub malloc-served :
      (bottom dummy rounds fuel n : ℕ) (a : Arena) (cells : List Cell) (w : World)
      (s : Sound bottom dummy a cells)
      → length s.blocks < fuel
      → n + 15 < 2 ^ 17
      → first_fit (align16 n) s.blocks ≢ 0
      → Allocation k bottom dummy n (useds cells) cells w (malloc k (suc rounds) fuel a n w)
  unfolding malloc
  malloc-served bottom dummy rounds fuel n a cells w s h small fits =
      served k bottom dummy rounds fuel a n cells w s h small fits

  -- The way by `extend`.
  extended_served :
      (bottom dummy top rounds fuel n : ℕ) (a : Arena) (cells : List Cell) (w w' : World)
      (s : Sound bottom dummy a cells)
      → suc (length s.blocks) < fuel
      → n + 15 < 2 ^ 17
      → a.p_brk + 2 ^ 18 < 2 ^ 63
      → top ≡ align_page ((a.p_brk + (grown_size n + 32) % 2 ^ 64) % 2 ^ 64)
      → brk top w ≡ (top, w')
      → first_fit (align16 n) s.blocks ≡ 0
      → Answered bottom n fuel rounds a cells w
  unfolding malloc malloc_after_lock
  extended_served bottom dummy top rounds fuel n a cells w w' s h small low high granted none_fits =
      let m = grown_size n in
      let (up, least, fixed, bounded) = grown_size-bounds n small in
      let (room, more, limit) = wanted_break-room a.p_brk m top bounded least low high in
      let search : find_fit fuel a.mem a.head (align16 n) ≡ some 0 =
        find_fit-first fuel a.mem 0 a.head (align16 n) s.blocks s.tiled.list (omega arith)
        ∙ ap some none_fits in
      let below = leb-false (2 ^ 17) (align16 n) (omega arith) in
      let (r, e, x) =
        extend-Extended k bottom dummy top ((m + 32) % 2 ^ 64) a cells w w' s more limit high
          granted in
      let large = x.room in
      let count = x.count in
      let roomy =
        first_fit-room r.mem 0 r.head m x.before x.behind x.block
          (subst (λ l. FreeList r.mem 0 r.head l) x.whole x.sound.tiled.list) (omega arith) in
      let fits : first_fit (align16 m) x.sound.blocks ≢ 0 = λ z. roomy (
        ap (λ l. first_fit m l) (sym x.whole)
        ∙ ap (λ q. first_fit q x.sound.blocks) (sym fixed)
        ∙ z) in
      let al =
        served k bottom (dummy + (top - a.p_brk)) rounds fuel r m x.now w' x.sound (omega arith)
          bounded fits in
      let enough = al.room in
      (
        dummy + (top - a.p_brk),
        x.now,
        w',
        x.kept,
        rw (below, search, e)
            (record {
              pointer = al.pointer;
              arena = al.arena;
              ends = al.ends;
              front = al.front;
              block = al.block;
              rest = al.rest;
              at = al.at;
              room = omega arith;
              sound = al.sound;
              others = al.others ∙ x.kept;
              joined = al.joined;
            }),
      )

  -- `malloc` of `n` bytes, 131056 at most, so that the size stays below 128 KiB when it is rounded
  -- up to 16, on a heap in order with its break below the upper half of the addresses, with a fuel
  -- for searches above the length of the free list by two and with two rounds, where the kernel
  -- grants the break that is asked for when no free block is large enough: it returns the address
  -- behind the header of a block of `n` bytes at least. The heap is in order, that block is in use
  -- in it, and besides it the blocks in use are those from before. If it is freed, the free cells
  -- around it are joined to a heap with the blocks in use from before.
  pub malloc-Allocation :
      (bottom dummy top rounds fuel n : ℕ) (a : Arena) (cells : List Cell) (w w' : World)
      (s : Sound bottom dummy a cells)
      → suc (length s.blocks) < fuel
      → n + 15 < 2 ^ 17
      → a.p_brk + 2 ^ 18 < 2 ^ 63
      → top ≡ wanted_break k a n
      → brk top w ≡ (top, w')
      → Answered bottom n fuel rounds a cells w
  unfolding malloc
  malloc-Allocation bottom dummy top rounds fuel n a cells w w' s h small low high granted =
      elim (dec_lt 0 (first_fit (align16 n) s.blocks)) [
        | yes fits ↦ (
          dummy,
          cells,
          w,
          refl,
          served k bottom dummy (suc rounds) fuel a n cells w s (omega arith) small (omega arith),
        )
        | no none_fits ↦
            extended_served bottom dummy top rounds fuel n a cells w w' s h small low high granted
              (omega arith)
      ]

  -- `malloc` of `n` bytes, 131056 at most, so that the size stays below 128 KiB when it is rounded
  -- up to 16, on a heap in order with fewer free blocks than the fuel, one of them large enough,
  -- and then `free` of the pointer that it returns: both return without a system call, and the
  -- heap is in order and has the blocks from before, in use and free, with their places and sizes.
  pub free-malloc :
      (bottom dummy rounds fuel n : ℕ) (a : Arena) (cells : List Cell) (w : World)
      (s : Sound bottom dummy a cells)
      → length s.blocks < fuel
      → n + 15 < 2 ^ 17
      → first_fit (align16 n) s.blocks ≢ 0
      → (p : ℕ) × (g : Arena) × (r : Arena) × (malloc k (suc rounds) fuel a n w ≡ some (p, g, w))
        × (free k g p w ≡ (r, w))
        × Sound bottom dummy r cells
  unfolding malloc
  free-malloc bottom dummy rounds fuel n a cells w s h small fits =
      let al = served k bottom dummy rounds fuel a n cells w s h small fits in
      let (r, e, sound) = free-Sound bottom dummy k al.arena w al.front al.rest al.block al.sound in
      (
        al.pointer,
        al.arena,
        r,
        al.ends,
        ap (λ p. free k al.arena p w) al.at ∙ e,
        subst (λ l. Sound bottom dummy r l) al.joined sound,
      )
