-- ===== src/Heap/Release.antt =====
-- `free` of src/stdlib.c keeps the invariant of the heap.
use freestanding_custom_c_li.Prelude.{
  ℕ, ◌+◌, ◌-◌, ◌≡◌, ◌≢◌, inl, inr, refl, sym, ap, ◌∙◌, List, [], ◌∷◌, ◌++◌, arith, ◌==◌, ==_iff,
  ==_false, if◌then◌else◌,
}
use freestanding_custom_c_li.Heap.{
  Arena, Pages, used_normal, used_mmap, footer_of, insert_into_list, merge_previous, merge_next,
  release, free,
}
use freestanding_custom_c_li.Heap.Blocks.{Block, foot}
use freestanding_custom_c_li.Heap.Cells.{Cell, taken, vacant, Row-split}
use freestanding_custom_c_li.Heap.Tiled.{Tiled}
use freestanding_custom_c_li.Heap.Coalesce.{
  joined, coalesce, coalesced, Coalesced, EndsUsed, EndsUsed-taken, coalesce_joined,
  coalesce-behind, coalesce-Coalesced, cons_cell, Coalesced-left, Coalesced-right,
  Coalesced-EndsUsed, Last-cell,
}
use freestanding_custom_c_li.Heap.Joins.{insert_into_list-Tiled}
use freestanding_custom_c_li.Heap.Neighbours.{merge_next-Tiled, merge_previous-Tiled}
use mathlib.Core.List.{append_assoc}
use mathlib.Core.Path.{subst}
use freestanding_custom_c_li.Heap.Break.{
  p_brk_if, p_brk-insert_into_list, p_brk-merge_previous, p_brk-merge_next,
}
use freestanding_custom_c_li.Heap.Sound.{Sound, vacant_tags, taken_tags, next_to}

module _ (bottom dummy : ℕ) where
  -- The heap when the freed block has been joined with what lies before it.
  record Stage (xs ys : List Cell) (b : Block) (r : Arena) : Type 0 where
    front : List Cell
    block : Block
    rest : List Block
    tiled : Tiled bottom dummy r (block ∷ rest) (front ++ (vacant block ∷ ys))
    cells : coalesce (xs ++ (vacant b ∷ ys)) ≡ front ++ coalesce (vacant block ∷ ys)
    same_foot : foot block ≡ foot b

  module _ (a : Arena) (bs : List Block) (b : Block) (ys : List Cell) where
    -- The test of the footer before the freed block, and what follows it.
    before_freed : Arena
    before_freed = if a.mem (b.at - 16) == used_normal then a else merge_previous a (b.at - 16)

    kept_before :
        (xs : List Cell)
        → Tiled bottom dummy a (b ∷ bs) (xs ++ (vacant b ∷ ys))
        → Coalesced xs
        → EndsUsed xs
        → a.mem (b.at - 16) ≡ used_normal
        → Stage xs ys b before_freed
    unfolding before_freed
    kept_before xs t h e tag = rw ((==_iff (a.mem (b.at - 16)) used_normal).1 tag) (record {
      front = xs;
      block = b;
      rest = bs;
      tiled = t;
      cells = coalesce-behind xs (vacant b ∷ ys) h e;
      same_foot = refl;
    })

    joined_before :
        (ws : List Cell) (p : Block)
        → Tiled bottom dummy a (b ∷ bs) (ws ++ (vacant p ∷ vacant b ∷ ys))
        → Coalesced ws
        → EndsUsed ws
        → Stage (ws ++ (vacant p ∷ [])) ys b before_freed
    unfolding before_freed
    joined_before ws p t h e =
        let next = next_to bottom dummy (bottom + 16) ws ys (vacant p) (vacant b) t.row in
        let there : b.at - 16 ≡ foot p = omega (arith, next) in
        let (_, tag) = vacant_tags bottom dummy a (b ∷ bs) ws (vacant b ∷ ys) p t in
        let (rest, tiled) = merge_previous-Tiled bottom dummy a bs ws ys p b t in
        rw (there, ==_false (a.mem (foot p)) used_normal tag)
          (record {
            front = ws;
            block = joined p b;
            rest = rest;
            tiled = tiled;
            cells =
                ap (λ l. coalesce l) (append_assoc ws (vacant p ∷ []) (vacant b ∷ ys))
                ∙ coalesce-behind ws (vacant p ∷ vacant b ∷ ys) h e
                ∙ ap (λ l. ws ++ l) (coalesce_joined p b ys);
            same_foot = omega (arith, next);
          })

    behind :
        (ws : List Cell) (c : Cell)
        → Tiled bottom dummy a (b ∷ bs) ((ws ++ (c ∷ [])) ++ (vacant b ∷ ys))
        → Coalesced ((ws ++ (c ∷ [])) ++ (taken b ∷ ys))
        → Stage (ws ++ (c ∷ [])) ys b before_freed
    behind ws (taken c) t h =
        let xs = ws ++ (taken c ∷ []) in
        let t' =
          subst (λ l. Tiled bottom dummy a (b ∷ bs) l)
            (append_assoc ws (taken c ∷ []) (vacant b ∷ ys)) t in
        let next = next_to bottom dummy (bottom + 16) ws ys (taken c) (vacant b) t'.row in
        let there : b.at - 16 ≡ foot c = omega (arith, next) in
        let tags = taken_tags bottom dummy a (b ∷ bs) ws (vacant b ∷ ys) c t' in
        kept_before xs t (Coalesced-left xs (taken b ∷ ys) h) (EndsUsed-taken ws c)
          (ap a.mem there ∙ tags.2)
    behind ws (vacant p) t h =
        let t' =
          subst (λ l. Tiled bottom dummy a (b ∷ bs) l)
            (append_assoc ws (vacant p ∷ []) (vacant b ∷ ys)) t in
        let h' = subst (λ l. Coalesced l) (append_assoc ws (vacant p ∷ []) (taken b ∷ ys)) h in
        joined_before ws p t' (Coalesced-left ws (vacant p ∷ taken b ∷ ys) h')
          (Coalesced-EndsUsed ws (taken b ∷ ys) p h')

    stage :
        (xs : List Cell)
        → Tiled bottom dummy a (b ∷ bs) (xs ++ (vacant b ∷ ys))
        → Coalesced (xs ++ (taken b ∷ ys))
        → Stage xs ys b before_freed
    stage xs t h = elim (Last-cell xs) [
      | inl e ↦
          let t' = subst (λ l. Tiled bottom dummy a (b ∷ bs) (l ++ (vacant b ∷ ys))) e t in
          let first = t'.row.0 in
          let there : b.at - 16 ≡ bottom = omega (arith, first) in
          subst (λ l. Stage l ys b before_freed) (sym e)
            (kept_before [] t' tt tt (ap a.mem there ∙ t'.footer_below))
      | inr r ↦
          subst (λ l. Stage l ys b before_freed) (sym r.whole)
            (behind r.before r.cell
              (subst (λ l. Tiled bottom dummy a (b ∷ bs) (l ++ (vacant b ∷ ys))) r.whole t)
              (subst (λ l. Coalesced (l ++ (taken b ∷ ys))) r.whole h))
    ]

  -- The test of the header behind the freed block, and what follows it.
  after_freed : Arena → ℕ → Arena
  after_freed c next_header =
      if c.mem next_header == used_normal then c else merge_next c next_header

  finished :
      (c : Arena) (xs ys : List Cell) (b : Block)
      → Stage xs ys b c
      → Coalesced ys
      → c.p_brk ≡ dummy + 16
      → Sound bottom dummy (after_freed c (foot b + 16)) (coalesce (xs ++ (vacant b ∷ ys)))
  unfolding after_freed
  finished c xs [] b s h brk =
      let (m, front, (e, end)) =
        Row-split (bottom + 16) dummy s.front (vacant s.block ∷ []) s.tiled.row in
      let same = s.same_foot in
      let there : foot b + 16 ≡ dummy = omega (arith, end) in
      rw (there, (==_iff (c.mem dummy) used_normal).1 s.tiled.header_above)
        (record {
          blocks = s.block ∷ s.rest;
          tiled = subst (λ l. Tiled bottom dummy c (s.block ∷ s.rest) l) (sym s.cells) s.tiled;
          coalesced = coalesced (xs ++ (vacant b ∷ []));
          reaches = brk;
        })
  finished c xs (taken n ∷ ys) b s h brk =
      let next =
        next_to bottom dummy (bottom + 16) s.front ys (vacant s.block) (taken n) s.tiled.row in
      let same = s.same_foot in
      let there : foot b + 16 ≡ n.at = omega (arith, next) in
      let t' =
        subst (λ l. Tiled bottom dummy c (s.block ∷ s.rest) l)
          (sym (append_assoc s.front (vacant s.block ∷ []) (taken n ∷ ys))) s.tiled in
      let tags =
        taken_tags bottom dummy c (s.block ∷ s.rest) (s.front ++ (vacant s.block ∷ [])) ys n t' in
      let cells =
        s.cells
        ∙ ap (λ l. s.front ++ cons_cell (vacant s.block) l) (coalesce-Coalesced (taken n ∷ ys) h) in
      rw (there, (==_iff (c.mem n.at) used_normal).1 tags.1)
        (record {
          blocks = s.block ∷ s.rest;
          tiled = subst (λ l. Tiled bottom dummy c (s.block ∷ s.rest) l) (sym cells) s.tiled;
          coalesced = coalesced (xs ++ (vacant b ∷ taken n ∷ ys));
          reaches = brk;
        })
  finished c xs (vacant n ∷ ys) b s h brk =
      let next =
        next_to bottom dummy (bottom + 16) s.front ys (vacant s.block) (vacant n) s.tiled.row in
      let same = s.same_foot in
      let there : foot b + 16 ≡ n.at = omega (arith, next) in
      let t' =
        subst (λ l. Tiled bottom dummy c (s.block ∷ s.rest) l)
          (sym (append_assoc s.front (vacant s.block ∷ []) (vacant n ∷ ys))) s.tiled in
      let (tag, _) =
        vacant_tags bottom dummy c (s.block ∷ s.rest) (s.front ++ (vacant s.block ∷ [])) ys n t' in
      let cells =
        s.cells
        ∙ ap (λ l. s.front ++ cons_cell (vacant s.block) l)
            (coalesce-Coalesced (vacant n ∷ ys) h) in
      let (rest, tiled) = merge_next-Tiled bottom dummy c s.rest s.front ys s.block n s.tiled in
      rw (there, ==_false (c.mem n.at) used_normal tag)
        (record {
          blocks = joined s.block n ∷ rest;
          tiled =
              subst (λ l. Tiled bottom dummy (merge_next c n.at) (joined s.block n ∷ rest) l)
                (sym cells) tiled;
          coalesced = coalesced (xs ++ (vacant b ∷ vacant n ∷ ys));
          reaches = p_brk-merge_next c n.at ∙ brk;
        })

  release-Sound :
      (a : Arena) (xs ys : List Cell) (b : Block)
      → Sound bottom dummy a (xs ++ (taken b ∷ ys))
      → Sound bottom dummy (release a b.at) (coalesce (xs ++ (vacant b ∷ ys)))
  unfolding release after_freed before_freed
  release-Sound a xs ys b s =
      let t = insert_into_list-Tiled bottom dummy a s.blocks xs ys b s.tiled in
      let tags = taken_tags bottom dummy a s.blocks xs ys b s.tiled in
      let st = stage (insert_into_list a 0 b.at 0) s.blocks b ys xs t s.coalesced in
      let c = before_freed (insert_into_list a 0 b.at 0) s.blocks b ys in
      let put = insert_into_list a 0 b.at 0 in
      let first = p_brk-insert_into_list a 0 b.at 0 ∙ s.reaches in
      let brk : c.p_brk ≡ dummy + 16 =
        p_brk_if _ put (merge_previous put (b.at - 16)) (dummy + 16) first
          (p_brk-merge_previous put (b.at - 16) ∙ first) in
      let there : footer_of a.mem b.at + 16 ≡ foot b + 16 = ap (λ n. b.at + 16 + n + 16) tags.0.0 in
      let e : release a b.at ≡ after_freed c (foot b + 16) = ap (λ h. after_freed c h) there in
      subst (λ r. Sound bottom dummy r (coalesce (xs ++ (vacant b ∷ ys)))) (sym e)
        (finished c xs ys b st (Coalesced-right xs (taken b ∷ ys) s.coalesced) brk)

  -- `free` of a block in use of a heap in order, whatever its neighbours are: it returns without a
  -- system call, and the heap is in order, with the freed block joined with the free block before
  -- it and with the free block behind it, if there are such, and all other blocks as they were.
  pub free-Sound :
      (k : Pages) (a : Arena) (w : Pages.World k) (xs ys : List Cell) (b : Block)
      → Sound bottom dummy a (xs ++ (taken b ∷ ys))
      → (r : Arena) × (free k a (b.at + 16) w ≡ (r, w))
        × Sound bottom dummy r (coalesce (xs ++ (vacant b ∷ ys)))
  unfolding free
  free-Sound k a w xs ys b s =
      let tags = taken_tags bottom dummy a s.blocks xs ys b s.tiled in
      let there : b.at + 16 - 16 ≡ b.at = omega arith in
      let tag : a.mem b.at ≢ used_mmap = omega (arith, tags.1) in
      (
        release a b.at,
        rw (there, ==_false (b.at + 16) 0 (omega arith), ==_false (a.mem b.at) used_mmap tag) refl,
        release-Sound a xs ys b s,
      )
