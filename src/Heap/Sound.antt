-- ===== src/Heap/Sound.antt =====
-- The state of the heap of src/stdlib.c between two calls, and what the tags in it say.
use freestanding_custom_c_li.Prelude.{ℕ, ◌+◌, ◌^◌, ◌<◌, ◌≡◌, ◌≢◌, sym, List, [], ◌∷◌, ◌++◌, arith}
use freestanding_custom_c_li.Heap.{Arena, used_normal}
use freestanding_custom_c_li.Heap.Blocks.{Block, foot, Inside}
use freestanding_custom_c_li.Heap.FreeList.{FreeList}
use freestanding_custom_c_li.Heap.Arrange.{find, Arranges-Inside}
use freestanding_custom_c_li.Heap.Cells.{
  Cell, taken, vacant, body, frees, useds, Row, Row-split, Row-Inside, frees_append, useds_append,
  frees-bodies,
}
use freestanding_custom_c_li.Heap.Tiled.{Tiled, Tagged, Tagged-middle, FreeList-below}
use freestanding_custom_c_li.Heap.Coalesce.{Coalesced}
use mathlib.Core.Path.{subst}

-- The heap between `bottom` and `dummy` has the cells, no two of them free next to each other, and
-- the break lies behind the header `dummy`.
pub record Sound (bottom dummy : ℕ) (a : Arena) (cells : List Cell) : Type 0 where
  pub blocks : List Block
  pub tiled : Tiled bottom dummy a blocks cells
  pub coalesced : Coalesced cells
  pub reaches : a.p_brk ≡ dummy + 16

module _ (bottom dummy : ℕ) where
  -- What the tags of a cell say.
  pub vacant_tags :
      (a : Arena) (bs : List Block) (xs ys : List Cell) (p : Block)
      → Tiled bottom dummy a bs (xs ++ (vacant p ∷ ys))
      → (a.mem p.at ≢ used_normal) × (a.mem (foot p) ≢ used_normal)
  vacant_tags a bs xs ys p t =
      let cells = xs ++ (vacant p ∷ ys) in
      let f = find p t.all (frees xs) (frees ys) (frees_append xs (vacant p ∷ ys)) in
      let low = t.low in
      let below : (x : ℕ) → Inside x bs → x < dummy = λ x i.
        (Row-Inside (bottom + 16) dummy x cells t.row
          (frees-bodies x cells (Arranges-Inside x t.all i))).1 in
      let row = Row-Inside (bottom + 16) dummy in
      let (h, k) =
        FreeList-below a.mem (2 ^ 63) 0 a.head p f.before f.behind
          (subst (λ l. FreeList a.mem 0 a.head l) f.whole t.list)
          (λ x i. let u = below x (subst (λ l. Inside x l) (sym f.whole) i) in omega arith)
          (omega arith) in
      (omega arith, omega arith)

  pub taken_tags :
      (a : Arena) (bs : List Block) (xs ys : List Cell) (c : Block)
      → Tiled bottom dummy a bs (xs ++ (taken c ∷ ys))
      → Tagged a.mem (c ∷ [])
  taken_tags a bs xs ys c t =
      (Tagged-middle a.mem (useds xs) (useds ys) c
        (subst (λ l. Tagged a.mem l) (useds_append xs (taken c ∷ ys)) t.tagged)).0

  pub next_to :
      (q : ℕ) (xs ys : List Cell) (c d : Cell)
      → Row q (xs ++ (c ∷ d ∷ ys)) dummy
      → (body d).at ≡ foot (body c) + 16
  next_to q xs ys c d r =
      let (m, front, (e, (next, behind))) = Row-split q dummy xs (c ∷ d ∷ ys) r in next
