-- ===== src/Heap/Grant.antt =====
-- `allocate` of src/stdlib.c, the part of `malloc` behind the search, keeps the invariant of the heap.
use freestanding_custom_c_li.Prelude.{
  ℕ, ◌+◌, ◌-◌, ◌≤◌, ◌<◌, ◌≡◌, refl, sym, ap, ◌∙◌, List, [], ◌∷◌, ◌++◌, arith, ltb_iff, ltb-false,
}
use freestanding_custom_c_li.Heap.{Arena, allocate}
use freestanding_custom_c_li.Heap.Blocks.{Block, foot, Inside, Separate}
use freestanding_custom_c_li.Heap.FreeList.{FreeList}
use freestanding_custom_c_li.Heap.Allocate.{Allocated, allocate-Allocated, granted, remainder}
use freestanding_custom_c_li.Heap.Arrange.{Arranges, Arranges-Inside, find}
use freestanding_custom_c_li.Heap.Cells.{
  Cell, taken, vacant, frees, useds, Row, Row-split, Row-join, Row-Inside, Row-disjoint,
  frees_append, useds_append, frees-bodies,
}
use freestanding_custom_c_li.Heap.Coalesce.{
  Coalesced, Coalesced-left, Coalesced-right, Coalesced-EndsUsed, Coalesced-append,
}
use freestanding_custom_c_li.Heap.Tiled.{Tiled, Tagged, Tagged-insert, Tagged-frame, list-Separate}
use freestanding_custom_c_li.Heap.Break.{p_brk-allocate}
use freestanding_custom_c_li.Heap.Sound.{Sound}
use mathlib.Core.List.Permᴰ
use mathlib.Core.Path.{subst}
use native.Mathlib.Decide.{dec_lt}

abbrev pub vacants : List Block → List Cell
vacants [] = []
vacants (r ∷ rs) = vacant r ∷ vacants rs

-- The cells of a block when `n` bytes of it are granted.
abbrev pub grant_cells : Block → ℕ → List Cell
grant_cells b n = taken (granted b n) ∷ vacants (remainder b n)

frees-vacants : (rs : List Block) (ys : List Cell) → frees (vacants rs ++ ys) ≡ rs ++ frees ys
frees-vacants [] ys = refl
frees-vacants (r ∷ rs) ys = ap (λ l. r ∷ l) (frees-vacants rs ys)

pub useds-vacants : (rs : List Block) (ys : List Cell) → useds (vacants rs ++ ys) ≡ useds ys
useds-vacants [] ys = refl
useds-vacants (r ∷ rs) ys = useds-vacants rs ys

-- Blocks are put into two arrangements of the same blocks.
pub Arranges-within :
    (us vs fs gs rs : List Block)
    → Arranges (us ++ vs) (fs ++ gs)
    → Arranges (us ++ (rs ++ vs)) (fs ++ (rs ++ gs))
Arranges-within us vs fs gs [] d = d
Arranges-within us vs fs gs (r ∷ rs) d = Permᴰ.trans (Permᴰ.middle r us (rs ++ vs)) (
    Permᴰ.trans (Permᴰ.cons refl (Arranges-within us vs fs gs rs d))
      (Permᴰ.symm (Permᴰ.middle r fs (rs ++ gs))))

module _ (bottom dummy : ℕ) (a : Arena) (xs ys : List Cell) where
  -- The invariant behind an allocation, for any cut of the block.
  Allocated-Tiled :
      (bs : List Block) (b c : Block) (rs us vs : List Block) (r : ℕ × Arena)
      → Tiled bottom dummy a bs (xs ++ (vacant b ∷ ys))
      → bs ≡ us ++ (b ∷ vs)
      → Arranges (us ++ vs) (frees xs ++ frees ys)
      → Row b.at (taken c ∷ vacants rs) (foot b + 16)
      → Allocated a (us ++ (b ∷ vs)) (us ++ (rs ++ vs)) c r
      → Tiled bottom dummy r.1 (us ++ (rs ++ vs)) (xs ++ (taken c ∷ (vacants rs ++ ys)))
  Allocated-Tiled bs b c rs us vs r t whole order cut al =
      let cells = xs ++ (vacant b ∷ ys) in
      let tail = taken c ∷ (vacants rs ++ ys) in
      let (m, front, (e, back)) = Row-split (bottom + 16) dummy xs (vacant b ∷ ys) t.row in
      let row : Row (bottom + 16) (xs ++ tail) dummy =
        Row-join (bottom + 16) b.at dummy xs tail
          (subst (λ k. Row (bottom + 16) xs k) (sym e) front)
          (Row-join b.at (foot b + 16) dummy (taken c ∷ vacants rs) ys cut back) in
      let within : (x : ℕ) → Inside x (us ++ (b ∷ vs)) → Inside x (frees cells) =
        λ x i. Arranges-Inside x t.all (subst (λ l. Inside x l) (sym whole) i) in
      let bounds : (x : ℕ) → Inside x (us ++ (b ∷ vs)) → (bottom + 16 ≤ x) × (x < dummy) =
        λ x i. Row-Inside (bottom + 16) dummy x cells t.row (frees-bodies x cells (within x i)) in
      let others : Tagged r.1.mem (useds cells) =
        Tagged-frame (useds cells) t.tagged
          (λ x i. al.same x (λ j. Row-disjoint (bottom + 16) dummy x cells t.row i (within x j))) in
      let tags : Tagged r.1.mem (useds xs ++ (c ∷ useds ys)) =
        Tagged-insert r.1.mem (useds xs) (useds ys) c (al.sized, al.header, al.footer, tt)
          (subst (λ l. Tagged r.1.mem l) (useds_append xs (vacant b ∷ ys)) others) in
      let plain : useds (xs ++ tail) ≡ useds xs ++ (c ∷ useds ys) =
        useds_append xs tail ∙ ap (λ l. useds xs ++ (c ∷ l)) (useds-vacants rs ys) in
      let free_plain : frees (xs ++ tail) ≡ frees xs ++ (rs ++ frees ys) =
        frees_append xs tail ∙ ap (λ l. frees xs ++ l) (frees-vacants rs ys) in
      record {
        row = row;
        list = al.list;
        all =
            subst (λ l. Arranges (us ++ (rs ++ vs)) l) (sym free_plain)
              (Arranges-within us vs (frees xs) (frees ys) rs order);
        tagged = subst (λ l. Tagged r.1.mem l) (sym plain) tags;
        footer_below =
            al.same bottom (λ i. let h = bounds bottom i in omega (arith, h.0)) ∙ t.footer_below;
        header_above =
            al.same dummy (λ i. let h = bounds dummy i in omega (arith, h.1)) ∙ t.header_above;
        low = t.low;
      }

-- The granted block and what is left of it fill the block.
grant_cells-Row : (b : Block) (n : ℕ) → n ≤ b.bytes → Row b.at (grant_cells b n) (foot b + 16)
grant_cells-Row b n h = elim (dec_lt 40 (b.bytes - n)) [
  | yes wide ↦ rw ((ltb_iff 40 (b.bytes - n)).1 wide) (refl, (omega arith, omega arith))
  | no narrow ↦ rw (ltb-false 40 (b.bytes - n) (omega arith)) (refl, refl)
]

-- The granted block begins where the block does.
pub granted_at : (b : Block) (n : ℕ) → n ≤ b.bytes → (granted b n).at ≡ b.at
granted_at b n h = (grant_cells-Row b n h).0

grant_cells-Coalesced :
    (b : Block) (n : ℕ) (ys : List Cell)
    → Coalesced (vacant b ∷ ys)
    → Coalesced (vacants (remainder b n) ++ ys)
grant_cells-Coalesced b n ys h = elim (dec_lt 40 (b.bytes - n)) [
  | yes wide ↦ rw ((ltb_iff 40 (b.bytes - n)).1 wide) h
  | no narrow ↦ rw (ltb-false 40 (b.bytes - n) (omega arith)) h.1
]

-- `allocate` of `n` bytes from a free block of `n` bytes at least: the result points behind the header
-- of that block, and the heap is in order, with the granted block and what is left in its place.
pub allocate-Sound :
    (bottom dummy : ℕ) (a : Arena) (xs ys : List Cell) (b : Block) (n : ℕ)
    → Sound bottom dummy a (xs ++ (vacant b ∷ ys))
    → n ≤ b.bytes
    → let (p, r) = allocate a b.at n in
      (p ≡ b.at + 16) × Sound bottom dummy r (xs ++ (grant_cells b n ++ ys))
allocate-Sound bottom dummy a xs ys b n s h =
    let t = s.tiled in
    let f = find b t.all (frees xs) (frees ys) (frees_append xs (vacant b ∷ ys)) in
    let sep =
      subst (λ l. Separate l) f.whole
        (list-Separate (bottom + 16) dummy s.blocks (xs ++ (vacant b ∷ ys)) t.row t.all) in
    let list = subst (λ l. FreeList a.mem 0 a.head l) f.whole t.list in
    let al = allocate-Allocated a b n f.before f.behind list sep in
    let same_at : (granted b n).at ≡ b.at = granted_at b n h in
    let all_cells = Coalesced-left xs (vacant b ∷ ys) s.coalesced in
    (
      al.payload ∙ ap (λ k. k + 16) same_at,
      record {
        blocks = f.before ++ (remainder b n ++ f.behind);
        tiled =
            Allocated-Tiled bottom dummy a xs ys s.blocks b (granted b n) (remainder b n) f.before
              f.behind (allocate a b.at n) t f.whole f.rest (grant_cells-Row b n h) al;
        coalesced =
            Coalesced-append xs (grant_cells b n ++ ys) all_cells
              (Coalesced-EndsUsed xs ys b s.coalesced)
              (grant_cells-Coalesced b n ys (Coalesced-right xs (vacant b ∷ ys) s.coalesced));
        reaches = p_brk-allocate a b.at n ∙ s.reaches;
      },
    )
