-- ===== src/Heap/Tiled.antt =====
-- The invariant of the heap of src/stdlib.c: blocks that fill it, free or in use, with their tags.
use freestanding_custom_c_li.Prelude.{
  ℕ, ◌+◌, ◌^◌, ◌≤◌, ◌<◌, ◌≡◌, inl, inr, ◌∙◌, List, [], ◌∷◌, ◌++◌, arith,
}
use freestanding_custom_c_li.Heap.{Arena, Words, used_normal}
use freestanding_custom_c_li.Heap.Blocks.{Block, foot, Inside, Separate, at-Within, foot-Within}
use freestanding_custom_c_li.Heap.FreeList.{FreeList, Sized, Sized-frame}
use freestanding_custom_c_li.Heap.Arrange.{Arranges, Arranges-Inside, Arranges-Separate}
use freestanding_custom_c_li.Heap.Cells.{
  Cell, frees, useds, Row, Row-Inside, Row-Separate, Row-disjoint, frees-bodies,
}

-- The blocks carry the tag of a block in use, and their sizes.
abbrev pub Tagged : Words → List Block → Type 0
Tagged m [] = Unit
Tagged m (b ∷ bs) = Sized m b × (m b.at ≡ used_normal) × (m (foot b) ≡ used_normal) × Tagged m bs

-- The heap from `bottom` to the header `dummy` at its end: the cells fill it, the free list has the
-- free ones, the others are tagged, and so are the two ends.
pub record Tiled (bottom dummy : ℕ) (a : Arena) (bs : List Block) (cells : List Cell) : Type 0 where
  pub row : Row (bottom + 16) cells dummy
  pub list : FreeList a.mem 0 a.head bs
  pub all : Arranges bs (frees cells)
  pub tagged : Tagged a.mem (useds cells)
  pub footer_below : a.mem bottom ≡ used_normal
  pub header_above : a.mem dummy ≡ used_normal
  pub low : dummy < 2 ^ 63

pub Tagged-frame :
    {m g : Words} (bs : List Block)
    → Tagged m bs
    → ((a : ℕ) → Inside a bs → g a ≡ m a)
    → Tagged g bs
Tagged-frame [] t same = tt
Tagged-frame (b ∷ bs) (fits, head, tail, t) same = (
  Sized-frame b fits (λ a w _ _. same a (inl w)),
  same b.at (inl (at-Within b)) ∙ head,
  same (foot b) (inl (foot-Within b)) ∙ tail,
  Tagged-frame bs t (λ a i. same a (inr i)),
)

pub Tagged-middle :
    (m : Words) (xs ys : List Block) (b : Block)
    → Tagged m (xs ++ (b ∷ ys))
    → Tagged m (b ∷ []) × Tagged m (xs ++ ys)
Tagged-middle m [] ys b (fits, head, tail, t) = ((fits, head, tail, tt), t)
Tagged-middle m (x ∷ xs) ys b (fits, head, tail, t) =
    let (one, others) = Tagged-middle m xs ys b t in (one, (fits, head, tail, others))

pub Tagged-insert :
    (m : Words) (xs ys : List Block) (b : Block)
    → Tagged m (b ∷ [])
    → Tagged m (xs ++ ys)
    → Tagged m (xs ++ (b ∷ ys))
Tagged-insert m [] ys b (fits, head, tail, _) t = (fits, head, tail, t)
Tagged-insert m (x ∷ xs) ys b one (fits, head, tail, t) =
    (fits, head, tail, Tagged-insert m xs ys b one t)

-- The free list of a row has separate blocks.
pub list-Separate :
    (p q : ℕ) (bs : List Block) (cells : List Cell)
    → Row p cells q
    → Arranges bs (frees cells)
    → Separate bs
list-Separate p q bs cells row all = Arranges-Separate all (Row-Separate p q cells row)

-- A change of the heap inside its free blocks.
pub Tiled-change :
    {bottom dummy : ℕ} (m : Words) (r : Arena) (bs : List Block) (cells : List Cell)
    → Row (bottom + 16) cells dummy
    → Arranges bs (frees cells)
    → FreeList r.mem 0 r.head bs
    → Tagged m (useds cells)
    → m bottom ≡ used_normal
    → m dummy ≡ used_normal
    → dummy < 2 ^ 63
    → ((x : ℕ) → (Inside x bs → ⊥) → r.mem x ≡ m x)
    → Tiled bottom dummy r bs cells
Tiled-change {bottom} {dummy} m r bs cells row all list tagged below above low same =
    let within : (x : ℕ) → Inside x bs → (bottom + 16 ≤ x) × (x < dummy) = λ x i.
      Row-Inside (bottom + 16) dummy x cells row (frees-bodies x cells (Arranges-Inside x all i)) in
    record {
      row = row;
      list = list;
      all = all;
      tagged = Tagged-frame (useds cells) tagged (λ x i.
          same x (λ j. Row-disjoint (bottom + 16) dummy x cells row i (Arranges-Inside x all j)));
      footer_below = same bottom (λ i. let h = within bottom i in omega (arith, h.0)) ∙ below;
      header_above = same dummy (λ i. let h = within dummy i in omega (arith, h.1)) ∙ above;
      low = low;
    }

-- The links of a list whose blocks lie below `top` are below it.
pub FreeList-below :
    (m : Words) (top prev p : ℕ) (b : Block) (us vs : List Block)
    → FreeList m prev p (us ++ (b ∷ vs))
    → ((x : ℕ) → Inside x (us ++ (b ∷ vs)) → x < top)
    → prev < top
    → (m b.at < top) × (m (foot b) < top)
FreeList-below m top prev p b [] [] (e, b1, fits, back, more) below h =
    let here = below b.at (inl (at-Within b)) in (omega (arith, more), omega (arith, back))
FreeList-below m top prev p b [] (d ∷ vs) (e, b1, fits, back, more) below h =
    let there = below d.at (inr (inl (at-Within d))) in
    let next = more.0 in (omega (arith, next), omega (arith, back))
FreeList-below m top prev p b (u ∷ us) vs (e, u1, fits, back, more) below h =
    FreeList-below m top u.at (m u.at) b us vs more (λ x i. below x (inr i))
      (below u.at (inl (at-Within u)))
