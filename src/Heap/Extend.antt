-- ===== src/Heap/Extend.antt =====
-- `extend` of src/stdlib.c, where the kernel moves the break.
use freestanding_custom_c_li.Prelude.{
  Bool-cases, ℕ, ◌+◌, ◌-◌, ◌%◌, ◌^◌, ◌≤◌, ◌<◌, ◌≡◌, inl, inr, refl, sym, ap, ◌∙◌, List, [], ◌∷◌,
  ◌++◌, arith, true, ◌==◌, if◌then◌else◌, ==_iff, ==_false,
}
use freestanding_custom_c_li.Heap.{
  Arena, Pages, used_normal, align_page, add_block, grow_last, extend,
}
use freestanding_custom_c_li.Heap.Blocks.{foot}
use freestanding_custom_c_li.Heap.Cells.{Cell, taken, vacant, body, Row, Row-split}
use freestanding_custom_c_li.Heap.Coalesce.{EndsUsed, EndsUsed-taken, Last-cell}
use freestanding_custom_c_li.Heap.Sound.{Sound, vacant_tags, taken_tags}
use freestanding_custom_c_li.Heap.AddBlock.{Extended, add_block-Extended}
use freestanding_custom_c_li.Heap.GrowLast.{grow_last-Extended}
use mathlib.Core.Path.{subst}

-- The heap behind the new break `dummy + delta + 16`.
extended : (dummy delta : ℕ) → Arena → Arena
extended dummy delta a =
    let moved = record a { p_brk = dummy + delta + 16 } in
    if a.mem (dummy - 16) == used_normal
    then add_block moved (dummy - 16) delta (dummy + delta + 16)
    else grow_last moved (dummy - 16) delta

module _ (bottom dummy delta : ℕ) (a : Arena) (d32 : 32 ≤ delta)
    (low : dummy + delta < 2 ^ 63) where
  used_last :
      (cells : List Cell) (s : Sound bottom dummy a cells)
      → EndsUsed cells
      → a.mem (dummy - 16) ≡ used_normal
      → Extended bottom dummy delta cells s.blocks (extended dummy delta a)
  unfolding extended
  used_last cells s e tag =
      rw ((==_iff (a.mem (dummy - 16)) used_normal).1 tag)
        (add_block-Extended bottom dummy delta a cells s d32 low e)

  end_at :
      (ws : List Cell) (c : Cell)
      → Row (bottom + 16) (ws ++ (c ∷ [])) dummy
      → dummy - 16 ≡ foot (body c)
  end_at ws c r =
      let (m, front, (e, end)) = Row-split (bottom + 16) dummy ws (c ∷ []) r in omega (arith, end)

  behind_last :
      (ws : List Cell) (c : Cell) (s : Sound bottom dummy a (ws ++ (c ∷ [])))
      → Extended bottom dummy delta (ws ++ (c ∷ [])) s.blocks (extended dummy delta a)
  unfolding extended
  behind_last ws (taken b) s =
      let there = end_at ws (taken b) s.tiled.row in
      let tags = taken_tags bottom dummy a s.blocks ws [] b s.tiled in
      used_last (ws ++ (taken b ∷ [])) s (EndsUsed-taken ws b) (ap a.mem there ∙ tags.2)
  behind_last ws (vacant l) s =
      let there = end_at ws (vacant l) s.tiled.row in
      let (_, tag) = vacant_tags bottom dummy a s.blocks ws [] l s.tiled in
      rw (there, ==_false (a.mem (foot l)) used_normal tag)
        (grow_last-Extended bottom dummy delta a ws l s d32 low)

  no_last :
      (s : Sound bottom dummy a [])
      → Extended bottom dummy delta [] s.blocks (extended dummy delta a)
  no_last s =
      let end = s.tiled.row in
      let there : dummy - 16 ≡ bottom = omega (arith, end) in
      used_last [] s tt (ap a.mem there ∙ s.tiled.footer_below)

  any_last :
      (cells : List Cell) (s : Sound bottom dummy a cells)
      → Extended bottom dummy delta cells s.blocks (extended dummy delta a)
  any_last cells s =
      let Claim : List Cell → Type 0 = λ l.
        (z : Sound bottom dummy a l)
        → Extended bottom dummy delta l z.blocks (extended dummy delta a) in
      elim (Last-cell cells) [
        | inl e ↦ subst Claim (sym e) no_last s
        | inr r ↦ subst Claim (sym r.whole) (behind_last r.before r.cell) s
      ]

module _ (k : Pages) where
  open k use {World, brk}

  -- `extend` of `n` bytes, 32 or more, on a heap in order, where the kernel grants the new break
  -- and it stays below the upper half of the addresses: it returns true, and the heap up to the
  -- new break is in order, with the same blocks in use, a free block of the new bytes less 32 at
  -- least, and at most one free block more.
  pub extend-Extended :
      (bottom dummy top n : ℕ) (a : Arena) (cells : List Cell) (w w' : World)
      (s : Sound bottom dummy a cells)
      → 32 ≤ n
      → a.p_brk + n + 4096 < 2 ^ 63
      → top ≡ align_page ((a.p_brk + n) % 2 ^ 64)
      → brk top w ≡ (top, w')
      → (r : Arena) × (extend k a n w ≡ (true, r, w'))
        × Extended bottom dummy (top - a.p_brk) cells s.blocks r
  unfolding extend extended
  extend-Extended bottom dummy top n a cells w w' s n32 low high granted =
      let brk_at = s.reaches in
      let up : (a.p_brk + n) % 2 ^ 64 ≡ a.p_brk + n = omega arith in
      let higher : a.p_brk + n ≤ top = omega (arith, high, up) in
      let limit : top < 2 ^ 63 = omega (arith, high, up) in
      let delta = top - a.p_brk in
      let whole : dummy + delta + 16 ≡ top = omega (arith, brk_at) in
      let diff : (top + 2 ^ 64 - a.p_brk) % 2 ^ 64 ≡ delta = omega arith in
      let low_end : a.p_brk - 32 ≡ dummy - 16 = omega (arith, brk_at) in
      let r = any_last bottom dummy delta a (omega arith) (omega (arith, brk_at)) cells s in
      (
        extended dummy delta a,
        rw (← high, granted, ==_false a.p_brk top (omega arith), diff, low_end, whole)
            (elim (Bool-cases (a.mem (dummy - 16) == used_normal)) [
              | inl y ↦ rw y refl
              | inr y ↦ rw y refl
            ]),
        r,
      )
