-- ===== src/Heap/Neighbours.antt =====
-- The two merges of `free` in src/stdlib.c keep the invariant of the heap.
use freestanding_custom_c_li.Prelude.{
  ℕ, ◌+◌, ◌≡◌, ◌≢◌, ◌⊎◌, inl, inr, refl, sym, ◌∙◌, List, ◌∷◌, ◌++◌, arith,
}
use freestanding_custom_c_li.Heap.{
  Arena, store, link_back, merge_previous, merge_next, remove_from_list,
}
use freestanding_custom_c_li.Heap.Blocks.{Separate-without, Block, foot, Within, Inside, Separate}
use freestanding_custom_c_li.Heap.FreeList.{
  FreeList, FreeList-frame, Sized-frame, link_back-LinkedBack, store_same, store_other,
}
use freestanding_custom_c_li.Heap.Arrange.{Arranges, Arranges-cancel}
use freestanding_custom_c_li.Heap.Cells.{Cell, vacant, frees, Row-split, Row-le, frees_append}
use freestanding_custom_c_li.Heap.Tiled.{Tiled, list-Separate}
use freestanding_custom_c_li.Heap.Coalesce.{joined}
use freestanding_custom_c_li.Heap.Merge.{
  grown, grown-Sized, grown-foot, grown-other, grown-outside, merge_next-grown,
  merge_previous-grown,
}
use freestanding_custom_c_li.Heap.Joins.{
  joined-Tiled, joined-apart, cell_bounds, remove_from_list-Without,
}
use mathlib.Core.List.Permᴰ
use mathlib.Core.Path.{subst}

-- The list behind the merges, from the list `b ∷ bs'` without the other block.
next_list :
    (c : Arena) (b n : Block) (bs' : List Block)
    → n.at ≡ foot b + 16
    → ((x : ℕ) → Within x (joined b n) → Inside x bs' → ⊥)
    → FreeList c.mem 0 c.head (b ∷ bs')
    → FreeList (grown c.mem (joined b n)) 0 c.head (joined b n ∷ bs')
next_list c b n bs' next apart (head, b1, fits, back, more) =
    let j = joined b n in
    let g = grown c.mem j in
    let here : g b.at ≡ c.mem b.at =
      grown-other c.mem j b.at (omega arith) (omega arith) (omega arith) in
    (
      head,
      b1,
      grown-Sized c.mem j,
      grown-foot c.mem j,
      subst (λ k. FreeList g b.at k bs') (sym here)
          (FreeList-frame b.at (c.mem b.at) bs' more
            (λ x i. grown-outside c.mem j x (λ w. apart x w i))),
    )

previous_list :
    (c : Arena) (p b : Block) (bs' : List Block)
    → b.at ≡ foot p + 16
    → p.at ≢ 0
    → ((x : ℕ) → Within x (joined p b) → Inside x bs' → ⊥)
    → Separate bs'
    → FreeList c.mem 0 c.head (b ∷ bs')
    → let g = link_back (store (grown c.mem (joined p b)) p.at (c.mem b.at)) p.at in
      FreeList g 0 p.at (joined p b ∷ bs')
      × ((x : ℕ) → (Inside x (joined p b ∷ bs') → ⊥) → g x ≡ c.mem x)
previous_list c p b bs' next p1 apart sep (head, b1, fits, back, more) =
    let j = joined p b in
    let m = grown c.mem j in
    let link = c.mem b.at in
    let h = store m p.at link in
    let h-outside : (x : ℕ) → (Within x j → ⊥) → h x ≡ c.mem x = λ x out.
      store_other m p.at link x (λ z. out (omega (arith, z))) ∙ grown-outside c.mem j x out in
    let there : FreeList h b.at (h p.at) bs' =
      subst (λ k. FreeList h b.at k bs') (sym (store_same m p.at link))
        (FreeList-frame b.at link bs' more (λ x i. h-outside x (λ w. apart x w i))) in
    let back_to = link_back-LinkedBack h b.at p.at bs' there sep in
    let g = link_back h p.at in
    let own : (x : ℕ) → Within x j → g x ≡ h x = λ x w. back_to.same x (apart x w) in
    let at_foot : h (foot j) ≡ 0 =
      store_other m p.at link (foot j) (omega arith) ∙ grown-foot c.mem j in
    (
      (
        refl,
        p1,
        Sized-frame j (grown-Sized c.mem j)
            (λ x w ne _. own x w ∙ store_other m p.at link x (λ z. ne (sym z))),
        own (foot j) (omega arith) ∙ at_foot,
        subst (λ k. FreeList g p.at k bs') (sym (own p.at (omega arith))) back_to.list,
      ),
      λ x out. back_to.same x (λ i. out (inr i)) ∙ h-outside x (λ w. out (inl w)),
    )

module _ (bottom dummy : ℕ) (a : Arena) (bs : List Block) (xs ys : List Cell) where
  pub merge_next-Tiled :
      (b n : Block)
      → Tiled bottom dummy a (b ∷ bs) (xs ++ (vacant b ∷ vacant n ∷ ys))
      → (bs' : List Block) × Tiled bottom dummy
          (merge_next a n.at)
          (joined b n ∷ bs')
          (xs ++ (vacant (joined b n) ∷ ys))
  merge_next-Tiled b n t =
      let (m, front, (e, (next, behind))) =
        Row-split (bottom + 16) dummy xs (vacant b ∷ vacant n ∷ ys) t.row in
      let limit = Row-le (foot n + 16) dummy ys behind in
      let low = t.low in
      let j = joined b n in
      let others : Arranges bs (frees xs ++ (n ∷ frees ys)) =
        Arranges-cancel b bs (frees xs ++ (n ∷ frees ys)) (
          Permᴰ.trans
            (subst (λ l. Arranges (b ∷ bs) l) (frees_append xs (vacant b ∷ vacant n ∷ ys)) t.all)
            (Permᴰ.middle b (frees xs) (n ∷ frees ys))) in
      let u =
        remove_from_list-Without a b n 0 bs (frees xs) (frees ys) (inl refl) t.list
          (list-Separate (bottom + 16) dummy (b ∷ bs) (xs ++ (vacant b ∷ vacant n ∷ ys)) t.row
            t.all)
          others in
      let bs' = u.before ++ u.behind in
      let c = remove_from_list a n.at 0 in
      let (head, b1, fits, back, more) = u.left.list in
      let d = merge_next-grown a b n next (omega arith) b1 c refl head fits u.left_sized in
      let parts : (x : ℕ) → Within x j → Within x b ⊎ Within x n = λ x w. ground (arith, next) in
      let apart = joined-apart b n b n u.before u.behind parts u.sep in
      let g = grown c.mem j in
      let new = next_list c b n bs' next apart u.left.list in
      let within : (x : ℕ) → Inside x (b ∷ bs') → Inside x (j ∷ bs') =
        λ x i. elim i [ inl w ↦ inl (omega arith) | inr k ↦ inr k ] in
      (
        bs',
        rw d (
            joined-Tiled bottom dummy a (record c { mem = g }) (b ∷ bs) bs' xs ys b n t new u.order
              (λ x out.
                grown-outside c.mem j x (λ w. out (inl w))
                ∙ u.left.same x (λ i. out (within x i)))),
      )

  pub merge_previous-Tiled :
      (p b : Block)
      → Tiled bottom dummy a (b ∷ bs) (xs ++ (vacant p ∷ vacant b ∷ ys))
      → (bs' : List Block) × Tiled bottom dummy
          (merge_previous a (foot p))
          (joined p b ∷ bs')
          (xs ++ (vacant (joined p b) ∷ ys))
  merge_previous-Tiled p b t =
      let (m, front, (e, (next, behind))) =
        Row-split (bottom + 16) dummy xs (vacant p ∷ vacant b ∷ ys) t.row in
      let (lo, hi) = cell_bounds (bottom + 16) dummy xs (vacant b ∷ ys) (vacant p) t.row in
      let limit = Row-le (foot b + 16) dummy ys behind in
      let low = t.low in
      let j = joined p b in
      let others : Arranges bs (frees xs ++ (p ∷ frees ys)) =
        Arranges-cancel b bs (frees xs ++ (p ∷ frees ys)) (
          Permᴰ.trans
            (subst (λ l. Arranges (b ∷ bs) l) (frees_append xs (vacant p ∷ vacant b ∷ ys)) t.all)
            (Permᴰ.trans (Permᴰ.append_left (frees xs) (Permᴰ.swap refl refl))
              (Permᴰ.middle b (frees xs) (p ∷ frees ys)))) in
      let sep_all =
        list-Separate (bottom + 16) dummy (b ∷ bs) (xs ++ (vacant p ∷ vacant b ∷ ys)) t.row t.all in
      let u =
        remove_from_list-Without a b p (foot p) bs (frees xs) (frees ys) (inr refl) t.list sep_all
          others in
      let bs' = u.before ++ u.behind in
      let c = remove_from_list a p.at (foot p) in
      let (head, b1, fits, back, more) = u.left.list in
      let p1 : p.at ≢ 0 = omega arith in
      let d =
        merge_previous-grown a p b next (omega arith) p1 c u.sized refl u.left_sized head fits in
      let parts : (x : ℕ) → Within x j → Within x b ⊎ Within x p = λ x w. ground (arith, next) in
      let apart = joined-apart p b b p u.before u.behind parts u.sep in
      let g = link_back (store (grown c.mem j) p.at (c.mem b.at)) p.at in
      let sep = Separate-without p u.before u.behind u.sep.1 in
      let (new, kept) = previous_list c p b bs' next p1 apart sep u.left.list in
      let within : (x : ℕ) → Inside x (b ∷ bs') → Inside x (j ∷ bs') =
        λ x i. elim i [ inl w ↦ inl (omega (arith, next)) | inr k ↦ inr k ] in
      (
        bs',
        rw d (
            joined-Tiled bottom dummy a (record c { mem = g; head = p.at }) (b ∷ bs) bs' xs ys p b t
              new u.order (λ x out. kept x out ∙ u.left.same x (λ i. out (within x i)))),
      )
