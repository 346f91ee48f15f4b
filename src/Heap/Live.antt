-- ===== src/Heap/Live.antt =====
-- The blocks in use in the heap of src/stdlib.c.
use freestanding_custom_c_li.Prelude.{
  ℕ, suc, ◌+◌, ◌*◌, ◌≤◌, ◌≡◌, refl, sym, ap, ◌∙◌, List, [], ◌∷◌, ◌++◌, arith, length,
}
use freestanding_custom_c_li.Heap.Blocks.{Block, foot, Separate}
use freestanding_custom_c_li.Heap.Arrange.{Arranges}
use freestanding_custom_c_li.Heap.Cells.{
  Cell, taken, vacant, frees, useds, Row, Row-apart, useds-bodies,
}
use freestanding_custom_c_li.Heap.Coalesce.{coalesce, cons_cell}
use mathlib.Core.List.{head-eq_of_cons-eq, tail-eq_of_cons-eq, cons≢nil}
use mathlib.Core.List.Permᴰ

-- The blocks in use do not overlap.
pub useds-Separate : (p q : ℕ) (cs : List Cell) → Row p cs q → Separate (useds cs)
useds-Separate p q [] r = tt
useds-Separate p q (vacant b ∷ cs) (e, r) = useds-Separate (foot b + 16) q cs r
useds-Separate p q (taken b ∷ cs) (e, r) = (
  λ a w i. Row-apart p q a (taken b) cs (e, r) w (useds-bodies a cs i),
  useds-Separate (foot b + 16) q cs r,
)

pub useds-coalesce : (cs : List Cell) → useds (coalesce cs) ≡ useds cs
useds-coalesce [] = refl
useds-coalesce (taken b ∷ cs) = ap (λ l. b ∷ l) (useds-coalesce cs)
useds-coalesce (vacant b ∷ cs) = go (coalesce cs) ∙ useds-coalesce cs
  where
    go : (l : List Cell) → useds (cons_cell (vacant b) l) ≡ useds l
    go [] = refl
    go (taken c ∷ l) = refl
    go (vacant c ∷ l) = refl

-- A heap has fewer free blocks than bytes.
pub frees-length : (p q : ℕ) (cs : List Cell) → Row p cs q → p + length (frees cs) * 32 ≤ q
frees-length p q [] e = omega (arith, e)
frees-length p q (taken b ∷ cs) (e, r) =
    let h = frees-length (foot b + 16) q cs r in omega (arith, e, h)
frees-length p q (vacant b ∷ cs) (e, r) =
    let h = frees-length (foot b + 16) q cs r in omega (arith, e, h)

pub Arranges-length : {bs fs : List Block} → Arranges bs fs → length bs ≡ length fs
Arranges-length Permᴰ.nil = refl
Arranges-length (Permᴰ.cons e d) = ap (λ n. suc n) (Arranges-length d)
Arranges-length (Permᴰ.swap e f) = refl
Arranges-length (Permᴰ.trans d e) = Arranges-length d ∙ Arranges-length e

-- The cell of a block in use.
pub record UsedCell (b : Block) (cells : List Cell) (others : List Block) : Type 0 where
  pub front : List Cell
  pub rest : List Cell
  pub parts : cells ≡ front ++ (taken b ∷ rest)
  pub left : useds (front ++ rest) ≡ others

pub used_cell :
    (b : Block) (cells : List Cell) (us vs : List Block)
    → useds cells ≡ us ++ (b ∷ vs)
    → UsedCell b cells (us ++ vs)
used_cell b [] [] vs e = absurd (cons≢nil (sym e))
used_cell b [] (u ∷ us) vs e = absurd (cons≢nil (sym e))
used_cell b (vacant c ∷ cells) us vs e =
    let f = used_cell b cells us vs e in
    record {
      front = vacant c ∷ f.front;
      rest = f.rest;
      parts = ap (λ l. vacant c ∷ l) f.parts;
      left = f.left;
    }
used_cell b (taken c ∷ cells) [] vs e = record {
  front = [];
  rest = cells;
  parts = ap (λ z. taken z ∷ cells) (head-eq_of_cons-eq e);
  left = tail-eq_of_cons-eq e;
}
used_cell b (taken c ∷ cells) (u ∷ us) vs e =
    let f = used_cell b cells us vs (tail-eq_of_cons-eq e) in
    record {
      front = taken c ∷ f.front;
      rest = f.rest;
      parts = ap (λ l. taken c ∷ l) f.parts;
      left =
          ap (λ z. z ∷ useds (f.front ++ f.rest)) (head-eq_of_cons-eq e) ∙ ap (λ l. u ∷ l) f.left;
    }
