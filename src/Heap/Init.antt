-- ===== src/Heap/Init.antt =====
-- `__heap_init` and `init` of src/stdlib.c: the heap that a process starts with.
use freestanding_custom_c_li.Prelude.{
  ℕ, ◌+◌, ◌-◌, ◌%◌, ◌^◌, ◌≤◌, ◌<◌, ◌≡◌, refl, [], ◌∷◌, some, arith, ==_iff, ==_false,
}
use freestanding_custom_c_li.Heap.{Arena, Pages, used_normal, align16, align_page, init, heap_init}
use freestanding_custom_c_li.Heap.FreeList.{FreeList}

-- The heap from `bottom` to `top`: one free block, between two tags that say that what is outside
-- is used.
pub record Started (bottom top : ℕ) (a : Arena) : Type 0 where
  pub list : FreeList a.mem 0 a.head (record { at = bottom + 16; bytes = top - bottom - 64 } ∷ [])
  pub footer_below : a.mem bottom ≡ used_normal
  pub header_above : a.mem (top - 16) ≡ used_normal
  pub reaches : a.p_brk ≡ top

init-Started :
    (a : Arena) (bottom top : ℕ)
    → a.p_brk ≡ top
    → bottom + 64 ≤ top
    → Started bottom top (init a bottom (top - bottom))
unfolding init
init-Started a bottom top e h =
    let above : bottom + (top - bottom) - 16 ≡ top - 16 = omega arith in
    let footer : top - 16 - 16 ≡ bottom + 16 + 16 + (top - bottom - 64) = omega arith in
    let b = bottom + 16 in
    let f = bottom + 16 + 16 + (top - bottom - 64) in
    rw (above, footer, (==_iff (b + 8) (b + 8)).1 refl)
      (record {
        list = (
          refl,
          omega arith,
          (
            rw (==_false f (b + 8) (omega arith), ==_false (f + 8) (b + 8) (omega arith))
                (rw ((==_iff (b + 8) (b + 8)).1 refl) refl),
            rw (==_false f (f + 8) (omega arith), (==_iff (f + 8) (f + 8)).1 refl) refl,
          ),
          rw ((==_iff f f).1 refl) refl,
          rw
              (
                ==_false f b (omega arith),
                ==_false (f + 8) b (omega arith),
                ==_false (b + 8) b (omega arith),
                (==_iff b b).1 refl,
              )
              refl,
        );
        footer_below =
            rw
              (
                ==_false f bottom (omega arith),
                ==_false (f + 8) bottom (omega arith),
                ==_false (b + 8) bottom (omega arith),
                ==_false b bottom (omega arith),
                ==_false (top - 16) bottom (omega arith),
                (==_iff bottom bottom).1 refl,
              )
              refl;
        header_above =
            rw
              (
                ==_false f (top - 16) (omega arith),
                ==_false (f + 8) (top - 16) (omega arith),
                ==_false (b + 8) (top - 16) (omega arith),
                ==_false b (top - 16) (omega arith),
                (==_iff (top - 16) (top - 16)).1 refl,
              )
              refl;
        reaches = e;
      })

module _ (k : Pages) where
  open k use {World, brk}

  -- `__heap_init` where the break starts 8 KiB or more below 2^64 and the kernel grants the new
  -- break: it returns, and the heap, from the start rounded up to 16 to the page end that is 1 KiB
  -- above it at least, is one free block, the only one on the free list, between a footer and a
  -- header that are marked as used; the recorded break is the end of the heap.
  pub heap_init-Started :
      (a : Arena) (start bottom top : ℕ) (w w' w'' : World)
      → bottom ≡ align16 start
      → top ≡ align_page ((bottom + 1024) % 2 ^ 64)
      → start + 8192 < 2 ^ 64
      → brk 0 w ≡ (start, w')
      → brk top w' ≡ (top, w'')
      → (a' : Arena) × (heap_init k a w ≡ (some a', w''))
        × Started bottom top a'
        × (bottom % 16 ≡ 0)
        × (bottom + 1024 ≤ top)
  unfolding heap_init
  heap_init-Started a start bottom top w w' w'' low high fits first second = (
    init (record a { p_brk = top }) bottom (top - bottom),
    rw (first, ← low, ← high, second, (==_iff top top).1 refl) refl,
    init-Started (record a { p_brk = top }) bottom top refl (omega arith),
    omega arith,
    omega arith,
  )
