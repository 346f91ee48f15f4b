-- ===== src/Heap/AddBlock.antt =====
-- `extend` of src/stdlib.c where the last block is in use: the new memory is a free block of its own.
use freestanding_custom_c_li.Prelude.{
  ℕ, suc, ◌+◌, ◌-◌, ◌%◌, ◌^◌, ◌≤◌, ◌<◌, ◌≡◌, inl, inr, refl, sym, ◌∙◌, List, [], ◌∷◌, ◌++◌, arith,
  length, ==_iff, ==_false,
}
use freestanding_custom_c_li.Heap.{Arena, Words, store, used_normal, insert_into_list, add_block}
use freestanding_custom_c_li.Heap.Blocks.{Block, foot, Inside}
use freestanding_custom_c_li.Heap.FreeList.{
  FreeList, FreeList-frame, Sized, store_same, store_other,
}
use freestanding_custom_c_li.Heap.Insert.{insert_into_list-front, Becomes}
use freestanding_custom_c_li.Heap.Arrange.{Arranges, Arranges-Inside}
use freestanding_custom_c_li.Heap.Cells.{
  Cell, vacant, frees, useds, Row, Row-join, Row-le, Row-Inside, Row-disjoint, frees_append,
  useds_append, frees-bodies, useds-bodies,
}
use freestanding_custom_c_li.Heap.Coalesce.{EndsUsed, Coalesced-append}
use freestanding_custom_c_li.Heap.Tiled.{Tiled, Tagged, Tagged-frame, list-Separate}
use freestanding_custom_c_li.Heap.Break.{p_brk-insert_into_list}
use freestanding_custom_c_li.Heap.Sound.{Sound}
use mathlib.Core.List.{append-nil}
use mathlib.Core.List.Permᴰ
use mathlib.Core.Path.{subst}

-- A heap of the cells `cells` and the free list `blocks` has got `delta` bytes more: the blocks in
-- use are the same, and there is a free block of nearly `delta` bytes.
pub record Extended (bottom dummy delta : ℕ) (cells : List Cell) (blocks : List Block) (r : Arena)
    : Type 0 where
  pub now : List Cell
  pub sound : Sound bottom (dummy + delta) r now
  pub kept : useds now ≡ useds cells
  pub before : List Block
  pub block : Block
  pub behind : List Block
  pub whole : sound.blocks ≡ before ++ (block ∷ behind)
  pub room : delta ≤ block.bytes + 32
  pub count : length sound.blocks ≤ suc (length blocks)

module _ (bottom dummy delta : ℕ) (a : Arena) (cells : List Cell) (s : Sound bottom dummy a cells)
    (d32 : 32 ≤ delta) (low : dummy + delta < 2 ^ 63) where
  abbrev pub added : Block
  added = record { at = dummy; bytes = delta - 32 }

  -- The memory with the sizes of the new block.
  abbrev m2 : Words
  m2 = store (store a.mem (dummy + 8) added.bytes) (foot added + 8) added.bytes

  abbrev a2 : Arena
  a2 = record { mem = m2; head = a.head; p_brk = dummy + delta + 16 }

  abbrev put : Arena
  put = insert_into_list a2 0 dummy (foot added)

  m2-other : (x : ℕ) → x < dummy → m2 x ≡ a.mem x
  m2-other x h =
      rw (==_false (foot added + 8) x (omega arith), ==_false (dummy + 8) x (omega arith)) refl

  m2-Sized : Sized m2 added
  m2-Sized = (
    rw
        (
          ==_false (foot added + 8) (dummy + 8) (omega arith),
          (==_iff (dummy + 8) (dummy + 8)).1 refl,
        )
        refl,
    rw ((==_iff (foot added + 8) (foot added + 8)).1 refl) refl,
  )

  row' : Row (bottom + 16) (cells ++ (vacant added ∷ [])) (dummy + delta)
  row' =
      Row-join (bottom + 16) dummy (dummy + delta) cells (vacant added ∷ []) s.tiled.row
        (refl, omega arith)

  all' : Arranges (added ∷ s.blocks) (frees (cells ++ (vacant added ∷ [])))
  all' =
      subst (λ l. Arranges (added ∷ s.blocks) l) (sym (frees_append cells (vacant added ∷ [])))
        (Permᴰ.trans (Permᴰ.cons refl s.tiled.all) (
          subst (λ l. Arranges (added ∷ l) (frees cells ++ (added ∷ []))) (append-nil (frees cells))
            (Permᴰ.symm (Permᴰ.middle added (frees cells) []))))

  free_below : (x : ℕ) → Inside x s.blocks → x < dummy
  free_below x i =
      (Row-Inside (bottom + 16) dummy x cells s.tiled.row
        (frees-bodies x cells (Arranges-Inside x s.tiled.all i))).1

  -- What `add_block` does, by its parts.
  add_block-parts :
      add_block (record a { p_brk = dummy + delta + 16 }) (dummy - 16) delta (dummy + delta + 16)
      ≡ record put { mem = store put.mem (dummy + delta) used_normal }
  unfolding add_block
  add_block-parts =
      let edge = Row-le (bottom + 16) dummy cells s.tiled.row in
      let at : dummy - 16 + 16 ≡ dummy = omega arith in
      let sized : (delta + 2 ^ 64 - 32) % 2 ^ 64 ≡ delta - 32 = omega arith in
      let ends : dummy + delta + 16 - 16 ≡ dummy + delta = omega arith in
      rw (at, sized, ends, (==_iff (dummy + 8) (dummy + 8)).1 refl) refl

  -- The words with the header of the new end.
  abbrev finished : Words
  finished = store put.mem (dummy + delta) used_normal

  put-Becomes : Becomes a2 (added ∷ s.blocks) (added ∷ s.blocks) put
  put-Becomes =
      let edge = Row-le (bottom + 16) dummy cells s.tiled.row in
      insert_into_list-front a2 added (foot added) (omega arith) m2-Sized (inr refl) s.blocks
        (FreeList-frame 0 a.head s.blocks s.tiled.list (λ x i. m2-other x (free_below x i)))
        (list-Separate (bottom + 16) (dummy + delta) (added ∷ s.blocks) _ row' all')

  finished-old : (x : ℕ) → x < dummy → (Inside x s.blocks → ⊥) → finished x ≡ a.mem x
  finished-old x h out =
      store_other put.mem (dummy + delta) used_normal x (omega arith)
      ∙ put-Becomes.same x (λ i. elim i [ inl w ↦ omega arith | inr j ↦ out j ])
      ∙ m2-other x h

  finished-FreeList : FreeList finished 0 put.head (added ∷ s.blocks)
  finished-FreeList =
      let inside : (x : ℕ) → Inside x (added ∷ s.blocks) → x < dummy + delta =
        λ x i. elim i [ inl w ↦ omega arith | inr j ↦ (let h = free_below x j in omega arith) ] in
      FreeList-frame 0 put.head (added ∷ s.blocks) put-Becomes.list (λ x i.
        let h = inside x i in store_other put.mem (dummy + delta) used_normal x (omega arith))

  finished-Tagged : Tagged finished (useds (cells ++ (vacant added ∷ [])))
  finished-Tagged =
      let row = s.tiled.row in
      let tags : Tagged finished (useds cells) =
        Tagged-frame {m = a.mem} {g = finished} (useds cells) s.tiled.tagged (λ x i.
          finished-old x (Row-Inside (bottom + 16) dummy x cells row (useds-bodies x cells i)).1
            (λ j.
              Row-disjoint (bottom + 16) dummy x cells row i (Arranges-Inside x s.tiled.all j))) in
      subst (λ l. Tagged finished l)
        (sym (useds_append cells (vacant added ∷ []) ∙ append-nil (useds cells))) tags

  finished-Tiled :
      Tiled bottom
        (dummy + delta)
        (record put { mem = finished })
        (added ∷ s.blocks)
        (cells ++ (vacant added ∷ []))
  finished-Tiled =
      let t = s.tiled in
      let edge = Row-le (bottom + 16) dummy cells t.row in
      let outside : (Inside bottom s.blocks → ⊥) = λ j.
        (let h =
            Row-Inside (bottom + 16) dummy bottom cells t.row
              (frees-bodies bottom cells (Arranges-Inside bottom t.all j)) in
          omega (arith, h.0)) in
      record {
        row = row';
        list = finished-FreeList;
        all = all';
        tagged = finished-Tagged;
        footer_below = finished-old bottom (omega arith) outside ∙ t.footer_below;
        header_above = store_same put.mem (dummy + delta) used_normal;
        low = low;
      }

  pub add_block-Extended :
      EndsUsed cells
      → Extended bottom dummy delta cells s.blocks (
          add_block
            (record a { p_brk = dummy + delta + 16 })
            (dummy - 16)
            delta
            (dummy + delta + 16))
  add_block-Extended e = rw add_block-parts (record {
    now = cells ++ (vacant added ∷ []);
    sound = record {
      blocks = added ∷ s.blocks;
      tiled = finished-Tiled;
      coalesced = Coalesced-append cells (vacant added ∷ []) s.coalesced e (tt, tt);
      reaches = p_brk-insert_into_list a2 0 dummy (foot added);
    };
    kept = useds_append cells (vacant added ∷ []) ∙ append-nil (useds cells);
    before = [];
    block = added;
    behind = s.blocks;
    whole = refl;
    room = omega arith;
    count = omega arith;
  })
