-- ===== src/Heap/Joins.antt =====
-- The steps of `free` in src/stdlib.c keep the invariant of the heap: a block becomes free, and it is
-- joined with the free block before it and with the one behind it.
use freestanding_custom_c_li.Prelude.{
  ℕ, ◌+◌, ◌≤◌, ◌≡◌, ◌⊎◌, inl, inr, refl, sym, ◌∙◌, List, ◌∷◌, ◌++◌, arith,
}
use freestanding_custom_c_li.Heap.{Arena, insert_into_list, remove_from_list}
use freestanding_custom_c_li.Heap.Blocks.{
  Inside-without, Block, foot, Within, Inside, Separate, Inside-others,
}
use freestanding_custom_c_li.Heap.FreeList.{FreeList, Sized, Sized-frame, FreeList-Sized}
use freestanding_custom_c_li.Heap.Insert.{IsFooter, insert_into_list-front, Becomes}
use freestanding_custom_c_li.Heap.Remove.{remove_from_list-Becomes}
use freestanding_custom_c_li.Heap.Arrange.{Arranges, find}
use freestanding_custom_c_li.Heap.Cells.{
  body, Cell, taken, vacant, frees, useds, Row, Row-split, Row-join, Row-le, frees_append,
  useds_append,
}
use freestanding_custom_c_li.Heap.Tiled.{Tiled, Tagged, Tagged-middle, Tiled-change, list-Separate}
use freestanding_custom_c_li.Heap.Coalesce.{joined}
use mathlib.Core.List.Permᴰ
use mathlib.Core.Path.{subst}

-- A block among the cells changes its state.
Row-freed :
    (p q : ℕ) (xs ys : List Cell) (b : Block)
    → Row p (xs ++ (taken b ∷ ys)) q
    → Row p (xs ++ (vacant b ∷ ys)) q
Row-freed p q xs ys b r =
    let (m, front, behind) = Row-split p q xs (taken b ∷ ys) r in
    Row-join p m q xs (vacant b ∷ ys) front behind

-- The free blocks, with one of them first.
frees-middle :
    (xs ys : List Cell) (b : Block)
    → Arranges (b ∷ frees (xs ++ ys)) (frees (xs ++ (vacant b ∷ ys)))
frees-middle xs ys b =
    subst (λ l. Arranges (b ∷ l) (frees (xs ++ (vacant b ∷ ys)))) (sym (frees_append xs ys))
      (subst (λ l. Arranges (b ∷ (frees xs ++ frees ys)) l) (sym (frees_append xs (vacant b ∷ ys)))
        (Permᴰ.symm (Permᴰ.middle b (frees xs) (frees ys))))

-- The bounds of a block of the heap.
pub cell_bounds :
    (p q : ℕ) (xs ys : List Cell) (c : Cell)
    → Row p (xs ++ (c ∷ ys)) q
    → (p ≤ (body c).at) × (foot (body c) + 16 ≤ q)
cell_bounds p q xs ys c r =
    let (m, front, (e, behind)) = Row-split p q xs (c ∷ ys) r in
    let h = Row-le p m xs front in
    let k = Row-le (foot (body c) + 16) q ys behind in (omega (arith, e), k)

-- A block in use is put on the free list.
pub insert_into_list-Tiled :
    (bottom dummy : ℕ) (a : Arena) (bs : List Block) (xs ys : List Cell) (b : Block)
    → Tiled bottom dummy a bs (xs ++ (taken b ∷ ys))
    → Tiled bottom dummy (insert_into_list a 0 b.at 0) (b ∷ bs) (xs ++ (vacant b ∷ ys))
insert_into_list-Tiled bottom dummy a bs xs ys b t =
    let row = Row-freed (bottom + 16) dummy xs ys b t.row in
    let (lo, hi) = cell_bounds (bottom + 16) dummy xs ys (taken b) t.row in
    let plain : frees (xs ++ (taken b ∷ ys)) ≡ frees (xs ++ ys) =
      frees_append xs (taken b ∷ ys) ∙ sym (frees_append xs ys) in
    let all : Arranges (b ∷ bs) (frees (xs ++ (vacant b ∷ ys))) =
      Permᴰ.trans (Permᴰ.cons refl (subst (λ l. Arranges bs l) plain t.all))
        (frees-middle xs ys b) in
    let tags = subst (λ l. Tagged a.mem l) (useds_append xs (taken b ∷ ys)) t.tagged in
    let (one, others) = Tagged-middle a.mem (useds xs) (useds ys) b tags in
    let rest : Tagged a.mem (useds (xs ++ (vacant b ∷ ys))) =
      subst (λ l. Tagged a.mem l) (sym (useds_append xs (vacant b ∷ ys))) others in
    let r =
      insert_into_list-front a b 0 (omega arith) one.0 (inl refl) bs t.list
        (list-Separate (bottom + 16) dummy (b ∷ bs) (xs ++ (vacant b ∷ ys)) row all) in
    Tiled-change a.mem (insert_into_list a 0 b.at 0) (b ∷ bs) (xs ++ (vacant b ∷ ys)) row all r.list
      rest t.footer_below t.header_above t.low r.same

-- The cells `lo` and `up` have become one free block, the first of the list.
pub joined-Tiled :
    (bottom dummy : ℕ) (a r : Arena) (bs bs' : List Block) (xs ys : List Cell) (lo up : Block)
    → Tiled bottom dummy a bs (xs ++ (vacant lo ∷ vacant up ∷ ys))
    → FreeList r.mem 0 r.head (joined lo up ∷ bs')
    → Arranges bs' (frees xs ++ frees ys)
    → ((x : ℕ) → (Inside x (joined lo up ∷ bs') → ⊥) → r.mem x ≡ a.mem x)
    → Tiled bottom dummy r (joined lo up ∷ bs') (xs ++ (vacant (joined lo up) ∷ ys))
joined-Tiled bottom dummy a r bs bs' xs ys lo up t list all same =
    let j = joined lo up in
    let (m, front, (e, (next, behind))) =
      Row-split (bottom + 16) dummy xs (vacant lo ∷ vacant up ∷ ys) t.row in
    let ends : foot up + 16 ≡ foot j + 16 = omega (arith, next) in
    let row : Row (bottom + 16) (xs ++ (vacant j ∷ ys)) dummy =
      Row-join (bottom + 16) m dummy xs (vacant j ∷ ys) front
        (e, subst (λ k. Row k ys dummy) ends behind) in
    let plain : useds (xs ++ (vacant lo ∷ vacant up ∷ ys)) ≡ useds (xs ++ (vacant j ∷ ys)) =
      useds_append xs (vacant lo ∷ vacant up ∷ ys) ∙ sym (useds_append xs (vacant j ∷ ys)) in
    let tags = subst (λ l. Tagged a.mem l) plain t.tagged in
    let all' : Arranges (j ∷ bs') (frees (xs ++ (vacant j ∷ ys))) =
      Permᴰ.trans (Permᴰ.cons refl (subst (λ l. Arranges bs' l) (sym (frees_append xs ys)) all))
        (frees-middle xs ys j) in
    Tiled-change a.mem r (j ∷ bs') (xs ++ (vacant j ∷ ys)) row all' list tags t.footer_below
      t.header_above t.low same

-- What is joined is apart from the other free blocks.
pub joined-apart :
    (lo up b d : Block) (us vs : List Block)
    → ((x : ℕ) → Within x (joined lo up) → Within x b ⊎ Within x d)
    → Separate (b ∷ (us ++ (d ∷ vs)))
    → (x : ℕ) → Within x (joined lo up)
    → Inside x (us ++ vs)
    → ⊥
joined-apart lo up b d us vs parts sep x w i = elim (parts x w) [
  | inl v ↦ sep.0 x v (Inside-without x d us vs i)
  | inr v ↦ Inside-others x d (b ∷ us) vs sep v (inr i)
]

-- The free list `b ∷ bs` without one of its blocks behind the first, `d`.
pub record Without (a : Arena) (b d : Block) (f : ℕ) (rest : List Block) : Type 0 where
  pub before : List Block
  pub behind : List Block
  pub order : Arranges (before ++ behind) rest
  pub sep : Separate (b ∷ (before ++ (d ∷ behind)))
  pub sized : Sized a.mem d
  pub left : Becomes a (b ∷ (before ++ behind)) (b ∷ (before ++ behind)) (remove_from_list a d.at f)
  pub left_sized : Sized (remove_from_list a d.at f).mem d

pub remove_from_list-Without :
    (a : Arena) (b d : Block) (f : ℕ) (bs xs ys : List Block)
    → IsFooter f d
    → FreeList a.mem 0 a.head (b ∷ bs)
    → Separate (b ∷ bs)
    → Arranges bs (xs ++ (d ∷ ys))
    → Without a b d f (xs ++ ys)
remove_from_list-Without a b d f bs xs ys given list sep others =
    let p = find d others xs ys refl in
    let us = p.before in
    let vs = p.behind in
    let sep' : Separate (b ∷ (us ++ (d ∷ vs))) = subst (λ l. Separate (b ∷ l)) p.whole sep in
    let list' : FreeList a.mem 0 a.head (b ∷ (us ++ (d ∷ vs))) =
      subst (λ l. FreeList a.mem 0 a.head (b ∷ l)) p.whole list in
    let r = remove_from_list-Becomes a d f given (b ∷ us) vs list' sep' in
    let fits = FreeList-Sized a.mem 0 a.head d (b ∷ us) vs list' in
    record {
      before = us;
      behind = vs;
      order = p.rest;
      sep = sep';
      sized = fits;
      left = r;
      left_sized = Sized-frame d fits (λ x w _ _. r.same x (Inside-others x d (b ∷ us) vs sep' w));
    }
