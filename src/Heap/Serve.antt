-- ===== src/Heap/Serve.antt =====
-- `malloc` of src/stdlib.c on a heap with its invariant, and `free` behind it.
use freestanding_custom_c_li.Prelude.{
  ℕ, suc, ◌+◌, ◌-◌, ◌^◌, ◌≤◌, ◌<◌, ◌≡◌, ◌≢◌, refl, sym, ap, ◌∙◌, List, [], ◌∷◌, ◌++◌, arith, length,
  Option, some, leb-false, ltb_iff, ltb-false, ==_false,
}
use freestanding_custom_c_li.Heap.{Arena, Pages, align16, allocate, find_fit, malloc_after_lock}
use freestanding_custom_c_li.Heap.Blocks.{Block}
use freestanding_custom_c_li.Heap.Split.{first_fit, find_fit-first}
use freestanding_custom_c_li.Heap.Malloc.{first_fit-Fitting, granted_enough}
use freestanding_custom_c_li.Heap.Allocate.{granted, remainder}
use freestanding_custom_c_li.Heap.Arrange.{find}
use freestanding_custom_c_li.Heap.Cells.{Cell, taken, vacant, frees, useds, useds_append}
use freestanding_custom_c_li.Heap.Coalesce.{
  coalesce, Coalesced, Coalesced-left, Coalesced-right, Coalesced-EndsUsed, coalesce-behind,
  coalesce-Coalesced, coalesce_joined,
}
use freestanding_custom_c_li.Heap.Sound.{Sound}
use freestanding_custom_c_li.Heap.Grant.{allocate-Sound, granted_at, vacants, useds-vacants}
use mathlib.Core.List.Permᴰ
use mathlib.Core.List.{head-eq_of_cons-eq, tail-eq_of_cons-eq, cons≢nil}
use mathlib.Core.Path.{subst}
use native.Mathlib.Decide.{dec_lt}

-- The cell of a free block.
record FreeCell (b : Block) (cells : List Cell) : Type 0 where
  front : List Cell
  rest : List Cell
  parts : cells ≡ front ++ (vacant b ∷ rest)

free_cell :
    (b : Block) (cells : List Cell) (us vs : List Block)
    → frees cells ≡ us ++ (b ∷ vs)
    → FreeCell b cells
free_cell b [] [] vs e = absurd (cons≢nil (sym e))
free_cell b [] (u ∷ us) vs e = absurd (cons≢nil (sym e))
free_cell b (taken c ∷ cells) us vs e =
    let f = free_cell b cells us vs e in
    record { front = taken c ∷ f.front; rest = f.rest; parts = ap (λ l. taken c ∷ l) f.parts }
free_cell b (vacant c ∷ cells) [] vs e = record {
  front = [];
  rest = cells;
  parts = ap (λ z. vacant z ∷ cells) (head-eq_of_cons-eq e);
}
free_cell b (vacant c ∷ cells) (u ∷ us) vs e =
    let f = free_cell b cells us vs (tail-eq_of_cons-eq e) in
    record { front = vacant c ∷ f.front; rest = f.rest; parts = ap (λ l. vacant c ∷ l) f.parts }

-- A grant that is taken back leaves the cells as they were.
grant_cells-joined :
    (b : Block) (n : ℕ) (ys : List Cell)
    → n ≤ b.bytes
    → Coalesced (vacant b ∷ ys)
    → coalesce (vacant (granted b n) ∷ (vacants (remainder b n) ++ ys)) ≡ vacant b ∷ ys
grant_cells-joined b n ys h c = elim (dec_lt 40 (b.bytes - n)) [
  | yes wide ↦
      let sum : n + 32 + (b.bytes - n - 32) ≡ b.bytes = omega arith in
      rw ((ltb_iff 40 (b.bytes - n)).1 wide) (
        coalesce_joined (record { at = b.at; bytes = n })
          (record { at = b.at + 32 + n; bytes = b.bytes - n - 32 }) ys
        ∙ ap (λ k. coalesce (vacant (record { at = b.at; bytes = k }) ∷ ys)) sum
        ∙ coalesce-Coalesced (vacant b ∷ ys) c)
  | no narrow ↦ rw (ltb-false 40 (b.bytes - n) (omega arith)) (coalesce-Coalesced (vacant b ∷ ys) c)
]

module _ (k : Pages) where
  open k use {World, brk}

  -- A block of `n` bytes at least that `malloc` has returned, in a heap that has the blocks `old` in
  -- use besides it, and that has the cells `back` when the block is freed.
  pub record Allocation (bottom dummy n : ℕ) (old : List Block) (back : List Cell) (w : World)
      (res : Option (ℕ × Arena × World)) : Type 0 where
    pub pointer : ℕ
    pub arena : Arena
    pub ends : res ≡ some (pointer, arena, w)
    pub front : List Cell
    pub block : Block
    pub rest : List Cell
    pub at : pointer ≡ block.at + 16
    pub room : n ≤ block.bytes
    pub sound : Sound bottom dummy arena (front ++ (taken block ∷ rest))
    pub others : useds (front ++ rest) ≡ old
    pub joined : coalesce (front ++ (vacant block ∷ rest)) ≡ back

  -- `malloc` when a free block is large enough.
  pub served :
      (bottom dummy rounds fuel : ℕ) (a : Arena) (n : ℕ) (cells : List Cell) (w : World)
      (s : Sound bottom dummy a cells)
      → length s.blocks < fuel
      → n + 15 < 2 ^ 17
      → first_fit (align16 n) s.blocks ≢ 0
      → Allocation bottom dummy n
          (useds cells)
          cells
          w
          (malloc_after_lock k (suc rounds) fuel a n w)
  unfolding malloc_after_lock
  served bottom dummy rounds fuel a n cells w s h small found =
      let m = align16 n in
      let f = first_fit-Fitting m s.blocks found in
      let b = f.block in
      let search : find_fit fuel a.mem a.head m ≡ some b.at =
        find_fit-first fuel a.mem 0 a.head m s.blocks s.tiled.list h ∙ ap some f.found in
      let place = find b (Permᴰ.symm s.tiled.all) f.before f.behind f.whole in
      let c = free_cell b cells place.before place.behind place.whole in
      let xs = c.front in
      let ys = c.rest in
      let s' : Sound bottom dummy a (xs ++ (vacant b ∷ ys)) =
        subst (λ l. Sound bottom dummy a l) c.parts s in
      let (at, sound) = allocate-Sound bottom dummy a xs ys b m s' f.enough in
      let below = leb-false (2 ^ 17) m (omega arith) in
      let nonzero = ==_false b.at 0 (λ z. found (f.found ∙ z)) in
      let whole = s'.coalesced in
      record {
        pointer = (allocate a b.at m).0;
        arena = (allocate a b.at m).1;
        ends = rw (below, search, nonzero) refl;
        front = xs;
        block = granted b m;
        rest = vacants (remainder b m) ++ ys;
        at = at ∙ ap (λ z. z + 16) (sym (granted_at b m f.enough));
        room = omega (arith, granted_enough b m f.enough);
        sound = sound;
        others =
            useds_append xs (vacants (remainder b m) ++ ys)
            ∙ ap (λ l. useds xs ++ l) (useds-vacants (remainder b m) ys)
            ∙ sym (useds_append xs (vacant b ∷ ys))
            ∙ ap (λ l. useds l) (sym c.parts);
        joined =
            coalesce-behind xs (vacant (granted b m) ∷ (vacants (remainder b m) ++ ys))
              (Coalesced-left xs (vacant b ∷ ys) whole) (Coalesced-EndsUsed xs ys b whole)
            ∙ ap (λ l. xs ++ l)
                (grant_cells-joined b m ys f.enough (Coalesced-right xs (vacant b ∷ ys) whole))
            ∙ sym c.parts;
      }
