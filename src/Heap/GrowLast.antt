-- ===== src/Heap/GrowLast.antt =====
-- `extend` of src/stdlib.c where the last block is free: that block grows.
use freestanding_custom_c_li.Prelude.{
  length-append, ℕ, ◌+◌, ◌%◌, ◌^◌, ◌≤◌, ◌<◌, ◌≡◌, ◌≢◌, refl, sym, ap, ◌∙◌, List, [], ◌∷◌, ◌++◌,
  arith, length, ==_iff, ==_false,
}
use freestanding_custom_c_li.Heap.{Arena, Words, store, header_of, move_tags, grow_last}
use freestanding_custom_c_li.Heap.Blocks.{in_middle, Block, foot, Within, Inside, Separate}
use freestanding_custom_c_li.Heap.FreeList.{FreeList, FreeList-Sized, Sized}
use freestanding_custom_c_li.Heap.Split.{FreeList-resize}
use freestanding_custom_c_li.Heap.Arrange.{Arranges, Arranges-Inside, find}
use freestanding_custom_c_li.Heap.Cells.{
  Row-le, Row-disjoint, Cell, vacant, frees, useds, Row-split, Row-join, Row-Inside, frees_append,
  useds_append, frees-bodies, useds-bodies,
}
use freestanding_custom_c_li.Heap.Coalesce.{Coalesced-left, Coalesced-EndsUsed, Coalesced-append}
use freestanding_custom_c_li.Heap.Tiled.{Tiled, Tagged, Tagged-frame, list-Separate}
use freestanding_custom_c_li.Heap.Sound.{Sound}
use freestanding_custom_c_li.Heap.Grant.{Arranges-within}
use freestanding_custom_c_li.Heap.AddBlock.{Extended}
use mathlib.Core.Path.{subst}

module _ (bottom dummy delta : ℕ) (a : Arena) (ws : List Cell) (l : Block)
    (s : Sound bottom dummy a (ws ++ (vacant l ∷ []))) (d32 : 32 ≤ delta)
    (low : dummy + delta < 2 ^ 63) where
  abbrev pub larger : Block
  larger = record { at = l.at; bytes = l.bytes + delta }

  -- The words when the last block has grown.
  abbrev m1 : Words
  m1 = move_tags a.mem (foot l + delta) (foot l)

  abbrev g : Words
  g = store (store m1 (l.at + 8) larger.bytes) (foot larger + 8) larger.bytes

  last_at : foot l + 16 ≡ dummy
  last_at =
      let (m, front, (e, end)) = Row-split (bottom + 16) dummy ws (vacant l ∷ []) s.tiled.row in end

  g-other : (x : ℕ) → x < dummy → x ≢ l.at + 8 → g x ≡ a.mem x
  unfolding move_tags
  g-other x h ne =
      let end = last_at in
      rw
        (
          ==_false (foot larger + 8) x (omega (arith, end)),
          ==_false (l.at + 8) x (λ z. ne (sym z)),
          ==_false (foot l + delta + 24) x (omega (arith, end)),
          ==_false (foot l + delta + 16) x (omega (arith, end)),
          ==_false (foot l + delta + 8) x (omega (arith, end)),
          ==_false (foot l + delta) x (omega (arith, end)),
        )
        refl

  g-Sized : Sized g larger
  g-Sized = (
    rw (==_false (foot larger + 8) (l.at + 8) (omega arith), (==_iff (l.at + 8) (l.at + 8)).1 refl)
        refl,
    rw ((==_iff (foot larger + 8) (foot larger + 8)).1 refl) refl,
  )

  moved : foot larger ≡ foot l + delta
  moved = omega arith

  g-foot : g (foot larger) ≡ a.mem (foot l)
  unfolding move_tags
  g-foot =
      rw
        (
          moved,
          ==_false (foot l + delta + 8) (foot l + delta) (omega arith),
          ==_false (l.at + 8) (foot l + delta) (omega arith),
          ==_false (foot l + delta + 24) (foot l + delta) (omega arith),
          ==_false (foot l + delta + 16) (foot l + delta) (omega arith),
          (==_iff (foot l + delta) (foot l + delta)).1 refl,
        )
        refl

  g-dummy : g (dummy + delta) ≡ a.mem dummy
  unfolding move_tags
  g-dummy =
      let end = last_at in
      let there : dummy + delta ≡ foot l + delta + 16 = omega (arith, end) in
      rw
        (
          there,
          moved,
          ==_false (foot l + delta + 8) (foot l + delta + 16) (omega arith),
          ==_false (l.at + 8) (foot l + delta + 16) (omega arith),
          ==_false (foot l + delta + 24) (foot l + delta + 16) (omega arith),
          (==_iff (foot l + delta + 16) (foot l + delta + 16)).1 refl,
        )
        (ap a.mem end)

  -- What `grow_last` does to the words.
  grow_last-words :
      Sized a.mem l
      → grow_last (record a { p_brk = dummy + delta + 16 }) (foot l) delta
        ≡ record { mem = g; head = a.head; p_brk = dummy + delta + 16 }
  unfolding grow_last move_tags
  grow_last-words fits =
      let end = last_at in
      let up : header_of a.mem (foot l) ≡ l.at = omega (arith, fits.1) in
      let size_kept : m1 (l.at + 8) ≡ l.bytes =
        rw
          (
            ==_false (foot l + delta + 24) (l.at + 8) (omega arith),
            ==_false (foot l + delta + 16) (l.at + 8) (omega arith),
            ==_false (foot l + delta + 8) (l.at + 8) (omega arith),
            ==_false (foot l + delta) (l.at + 8) (omega arith),
          )
          fits.0 in
      let sum : (l.bytes + delta) % 2 ^ 64 ≡ larger.bytes = omega (arith, end) in
      rw (up, size_kept, sum, (==_iff (l.at + 8) (l.at + 8)).1 refl) refl

  -- The free list with the larger block.
  larger-FreeList :
      (us vs : List Block)
      → s.blocks ≡ us ++ (l ∷ vs)
      → Sized a.mem l × FreeList g 0 a.head (us ++ (larger ∷ vs))
  larger-FreeList us vs whole =
      let t = s.tiled in
      let cells = ws ++ (vacant l ∷ []) in
      let end = last_at in
      let below : (x : ℕ) → Inside x s.blocks → x < dummy = λ x i.
        (Row-Inside (bottom + 16) dummy x cells t.row
          (frees-bodies x cells (Arranges-Inside x t.all i))).1 in
      let list = subst (λ k. FreeList a.mem 0 a.head k) whole t.list in
      let sep =
        subst (λ k. Separate k) whole
          (list-Separate (bottom + 16) dummy s.blocks cells t.row t.all) in
      (
        FreeList-Sized a.mem 0 a.head l us vs list,
        FreeList-resize a.mem g 0 a.head l larger us vs list sep refl g-Sized g-foot
            (g-other l.at (omega (arith, end)) (omega arith))
            (λ x i out.
              g-other x (below x (subst (λ k. Inside x k) (sym whole) i))
                (λ z. out (omega (arith, z)))),
      )

  -- The tags of the blocks in use.
  larger-Tagged : Tagged g (useds (ws ++ (vacant larger ∷ [])))
  larger-Tagged =
      let row = s.tiled.row in
      let cells = ws ++ (vacant l ∷ []) in
      let in_l : (x : ℕ) → Within x l → Inside x (frees cells) = λ x w.
        subst (λ k. Inside x k) (sym (frees_append ws (vacant l ∷ [])))
          (in_middle x l (frees ws) [] w) in
      let tags : Tagged g (useds cells) =
        Tagged-frame {m = a.mem} {g = g} (useds cells) s.tiled.tagged (λ x i.
          g-other x (Row-Inside (bottom + 16) dummy x cells row (useds-bodies x cells i)).1
            (λ z. Row-disjoint (bottom + 16) dummy x cells row i (in_l x (omega (arith, z))))) in
      subst (λ k. Tagged g k)
        (useds_append ws (vacant l ∷ []) ∙ sym (useds_append ws (vacant larger ∷ []))) tags

  larger-Tiled :
      (us vs : List Block)
      → s.blocks ≡ us ++ (l ∷ vs)
      → Arranges (us ++ vs) (frees ws ++ [])
      → Tiled bottom
          (dummy + delta)
          (record { mem = g; head = a.head; p_brk = dummy + delta + 16 })
          (us ++ (larger ∷ vs))
          (ws ++ (vacant larger ∷ []))
  larger-Tiled us vs whole rest =
      let t = s.tiled in
      let end = last_at in
      let (m, front, (e, _)) = Row-split (bottom + 16) dummy ws (vacant l ∷ []) t.row in
      let edge = Row-le (bottom + 16) m ws front in
      record {
        row =
            Row-join (bottom + 16) m (dummy + delta) ws (vacant larger ∷ []) front
              (e, omega (arith, end));
        list = (larger-FreeList us vs whole).1;
        all =
            subst (λ k. Arranges (us ++ (larger ∷ vs)) k)
              (sym (frees_append ws (vacant larger ∷ [])))
              (Arranges-within us vs (frees ws) [] (larger ∷ []) rest);
        tagged = larger-Tagged;
        footer_below = g-other bottom (omega (arith, e, end)) (omega (arith, e)) ∙ t.footer_below;
        header_above = g-dummy ∙ t.header_above;
        low = low;
      }

  pub grow_last-Extended :
      Extended bottom dummy delta
        (ws ++ (vacant l ∷ []))
        s.blocks
        (grow_last (record a { p_brk = dummy + delta + 16 }) (foot l) delta)
  grow_last-Extended =
      let f = find l s.tiled.all (frees ws) [] (frees_append ws (vacant l ∷ [])) in
      let us = f.before in
      let vs = f.behind in
      let sum = length-append us (larger ∷ vs) in
      let old = ap (λ k. length k) f.whole ∙ length-append us (l ∷ vs) in
      rw (grow_last-words (larger-FreeList us vs f.whole).0) (record {
        now = ws ++ (vacant larger ∷ []);
        sound = record {
          blocks = us ++ (larger ∷ vs);
          tiled = larger-Tiled us vs f.whole f.rest;
          coalesced =
              Coalesced-append ws (vacant larger ∷ [])
                (Coalesced-left ws (vacant l ∷ []) s.coalesced)
                (Coalesced-EndsUsed ws [] l s.coalesced) (tt, tt);
          reaches = refl;
        };
        kept = useds_append ws (vacant larger ∷ []) ∙ sym (useds_append ws (vacant l ∷ []));
        before = us;
        block = larger;
        behind = vs;
        whole = refl;
        room = omega arith;
        count = omega (arith, sum, old);
      })
