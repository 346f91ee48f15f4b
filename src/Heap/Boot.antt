-- ===== src/Heap/Boot.antt =====
-- `__heap_init` of src/stdlib.c gives a heap with its invariant.
use freestanding_custom_c_li.Prelude.{
  ℕ, ◌+◌, ◌-◌, ◌%◌, ◌^◌, ◌≤◌, ◌<◌, ◌≡◌, refl, [], ◌∷◌, some, arith,
}
use freestanding_custom_c_li.Heap.{Arena, Pages, align16, align_page, heap_init}
use freestanding_custom_c_li.Heap.Init.{Started, heap_init-Started}
use freestanding_custom_c_li.Heap.Cells.{vacant}
use freestanding_custom_c_li.Heap.Sound.{Sound}
use mathlib.Core.List.Permᴰ

Started-Sound :
    (bottom top : ℕ) (a : Arena)
    → Started bottom top a
    → bottom + 64 ≤ top
    → top < 2 ^ 63
    → Sound bottom
        (top - 16)
        a
        (vacant (record { at = bottom + 16; bytes = top - bottom - 64 }) ∷ [])
Started-Sound bottom top a s h low =
    let end = s.reaches in
    record {
      blocks = record { at = bottom + 16; bytes = top - bottom - 64 } ∷ [];
      tiled = record {
        row = (refl, omega arith);
        list = s.list;
        all = Permᴰ.refl _;
        tagged = tt;
        footer_below = s.footer_below;
        header_above = s.header_above;
        low = omega arith;
      };
      coalesced = (tt, tt);
      reaches = omega arith;
    }

module _ (k : Pages) where
  open k use {World, brk}

  -- `__heap_init` where the break starts below the upper half of the addresses and the kernel grants
  -- the new one: the heap is in order, with one free block.
  pub heap_init-Sound :
      (a : Arena) (start bottom top : ℕ) (w w' w'' : World)
      → bottom ≡ align16 start
      → top ≡ align_page ((bottom + 1024) % 2 ^ 64)
      → start + 8192 < 2 ^ 63
      → brk 0 w ≡ (start, w')
      → brk top w' ≡ (top, w'')
      → (a' : Arena) × (heap_init k a w ≡ (some a', w''))
        × Sound bottom
            (top - 16)
            a'
            (vacant (record { at = bottom + 16; bytes = top - bottom - 64 }) ∷ [])
  heap_init-Sound a start bottom top w w' w'' low high fits first second =
      let (a', e, s, round, wide) =
        heap_init-Started k a start bottom top w w' w'' low high (omega arith) first second in
      (a', e, Started-Sound bottom top a' s (omega arith) (omega arith))
