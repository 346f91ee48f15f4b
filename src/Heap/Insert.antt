-- ===== src/Heap/Insert.antt =====
-- `insert_into_list` of src/stdlib.c on a free list.
use freestanding_custom_c_li.Prelude.{
  ℕ, ◌≡◌, ◌≢◌, ◌⊎◌, inl, inr, refl, sym, ◌∙◌, List, [], ◌∷◌, ◌++◌, arith, ◌==◌, ==_iff, ==_false,
  if◌then◌else◌,
}
use freestanding_custom_c_li.Heap.{
  Arena, Words, store, size, footer_of, link_back, insert_into_list,
}
use freestanding_custom_c_li.Heap.Blocks.{
  Block, foot, Within, Inside, Separate, at-Within, foot-Within, ne_of_apart, Separate-left,
  Separate-right, Inside-left, Inside-right, Separate-disjoint,
}
use freestanding_custom_c_li.Heap.FreeList.{
  Sized, Sized-frame, FreeList, FreeList-frame, store_same, store_other, link_back-LinkedBack, end,
  end-Inside, end-nonzero, FreeList-drop, FreeList-retarget,
}
use mathlib.Core.Path.{subst}

-- After a change of the free list it has the blocks `bs`, and the words outside the blocks
-- `touched` are those from before.
pub record Becomes (a : Arena) (touched bs : List Block) (r : Arena) : Type 0 where
  pub list : FreeList r.mem 0 r.head bs
  pub same : (x : ℕ) → (Inside x touched → ⊥) → r.mem x ≡ a.mem x
  pub same_brk : r.p_brk ≡ a.p_brk

-- The footer that a caller passes, or NULL.
abbrev pub IsFooter : ℕ → Block → Type 0
IsFooter f b = (f ≡ 0) ⊎ (f ≡ foot b)

pub footer_arg :
    (m : Words) (b : Block) (f : ℕ)
    → size m b.at ≡ b.bytes
    → IsFooter f b
    → (if f == 0 then footer_of m b.at else f) ≡ foot b
footer_arg m b f fits (inl z) = rw ((==_iff f 0).1 z, fits) refl
footer_arg m b f fits (inr e) = rw (==_false f 0 (omega arith)) e

module _ (a : Arena) (b : Block) (f : ℕ) (b1 : b.at ≢ 0) (fits : Sized a.mem b)
    (given : IsFooter f b) where
  -- The words of a block that gets the links `next` and `prev`.
  linked : (next prev : ℕ) → Words
  linked next prev = store (store a.mem b.at next) (foot b) prev

  linked-at : (next prev : ℕ) → linked next prev b.at ≡ next
  unfolding linked
  linked-at next prev =
      store_other (store a.mem b.at next) (foot b) prev b.at (omega arith)
      ∙ store_same a.mem b.at next

  linked-Sized : (next prev : ℕ) → Sized (linked next prev) b
  unfolding linked
  linked-Sized next prev = Sized-frame b fits (λ x w ne nf.
      store_other (store a.mem b.at next) (foot b) prev x (λ z. nf (sym z))
      ∙ store_other a.mem b.at next x (λ z. ne (sym z)))

  linked-foot : (next prev : ℕ) → linked next prev (foot b) ≡ prev
  unfolding linked
  linked-foot next prev = store_same (store a.mem b.at next) (foot b) prev

  linked-other :
      (next prev x : ℕ) (bs : List Block)
      → Inside b.at bs
      → Inside (foot b) bs
      → (Inside x bs → ⊥)
      → linked next prev x ≡ a.mem x
  unfolding linked
  linked-other next prev x bs i j out =
      store_other (store a.mem b.at next) (foot b) prev x (ne_of_apart x (foot b) bs j out)
      ∙ store_other a.mem b.at next x (ne_of_apart x b.at bs i out)

  insert-front :
      insert_into_list a 0 b.at f ≡ record a { mem = link_back (linked a.head 0) b.at; head = b.at }
  unfolding insert_into_list linked
  insert-front = rw (==_false b.at 0 b1, footer_arg a.mem b f fits.0 given) refl

  insert-after :
      (c : ℕ)
      → c ≢ 0
      → insert_into_list a c b.at f
        ≡ record a { mem = link_back (store (linked (a.mem c) c) c b.at) b.at }
  unfolding insert_into_list linked
  insert-after c c1 =
      rw (==_false b.at 0 b1, footer_arg a.mem b f fits.0 given, ==_false c 0 c1) refl

  -- `insert_into_list` of a block that is not NULL and not part of the list, with a null
  -- `prev_head`, and with the block's footer or NULL: the free list has the block first and the
  -- others behind it, with all links and sizes in place, and no word outside these blocks has
  -- changed.
  pub insert_into_list-front :
      (bs : List Block)
      → FreeList a.mem 0 a.head bs
      → Separate (b ∷ bs)
      → Becomes a (b ∷ bs) (b ∷ bs) (insert_into_list a 0 b.at f)
  insert_into_list-front bs list (apart, sep) =
      let m = linked a.head 0 in
      let i = inl (at-Within b) in
      let j = inl (foot-Within b) in
      let untouched : (x : ℕ) → Inside x bs → m x ≡ a.mem x = λ x k.
        linked-other a.head 0 x (b ∷ []) i j (λ w. elim w [ inl q ↦ apart x q k | inr q ↦ q ]) in
      let there : FreeList m 0 (m b.at) bs =
        subst (λ n. FreeList m 0 n bs) (sym (linked-at a.head 0))
          (FreeList-frame 0 a.head bs list untouched) in
      let back = link_back-LinkedBack m 0 b.at bs there sep in
      let g = link_back m b.at in
      let at_b : (x : ℕ) → Within x b → g x ≡ m x = λ x w. back.same x (apart x w) in
      rw insert-front (record {
        list = (
          refl,
          b1,
          Sized-frame b (linked-Sized a.head 0) (λ x w _ _. at_b x w),
          at_b (foot b) (foot-Within b) ∙ linked-foot a.head 0,
          subst (λ n. FreeList g b.at n bs) (sym (at_b b.at (at-Within b))) back.list,
        );
        same = λ x out.
            back.same x (λ k. out (inr k))
            ∙ linked-other a.head 0 x (b ∷ bs) (inl (at-Within b)) (inl (foot-Within b)) out;
        same_brk = refl;
      })

  -- `insert_into_list` of a block that is not NULL and not part of the list, behind the last of
  -- the blocks `c` and `xs` that the free list begins with, and with the block's footer or NULL:
  -- the free list has the block at that place, with all links and sizes in place, and no word
  -- outside these blocks has changed.
  pub insert_into_list-after :
      (c : Block) (xs ys : List Block)
      → FreeList a.mem 0 a.head ((c ∷ xs) ++ ys)
      → Separate (b ∷ ((c ∷ xs) ++ ys))
      → Becomes a
          (b ∷ ((c ∷ xs) ++ ys))
          ((c ∷ xs) ++ (b ∷ ys))
          (insert_into_list a (end c xs).at b.at f)
  insert_into_list-after c xs ys list (apart, sep) =
      let e = (end c xs).at in
      let e_in : Inside e (c ∷ xs) = end-Inside e c xs (at-Within (end c xs)) in
      let next = a.mem e in
      let m = store (linked next e) e b.at in
      let e_apart : (x : ℕ) → Within x b → e ≢ x = λ x w z.
        apart x w (subst (λ q. Inside q ((c ∷ xs) ++ ys)) z (Inside-left e (c ∷ xs) ys e_in)) in
      let kept : (x : ℕ) → Inside x ((c ∷ xs) ++ ys) → e ≢ x → m x ≡ a.mem x = λ x k ne.
        store_other (linked next e) e b.at x ne
        ∙ linked-other next e x (b ∷ []) (inl (at-Within b)) (inl (foot-Within b))
            (λ w. elim w [ inl q ↦ apart x q k | inr q ↦ q ]) in
      let own : (x : ℕ) → Within x b → m x ≡ linked next e x =
        λ x w. store_other (linked next e) e b.at x (e_apart x w) in
      let at_b : m b.at ≡ next = own b.at (at-Within b) ∙ linked-at next e in
      let there : FreeList m e (m b.at) ys =
        subst (λ n. FreeList m e n ys) (sym at_b)
          (FreeList-frame e next ys (FreeList-drop a.mem 0 a.head c xs ys list) (λ x k.
            kept x (Inside-right x (c ∷ xs) ys k) (λ z.
              Separate-disjoint x (c ∷ xs) ys sep (subst (λ q. Inside q (c ∷ xs)) z e_in) k))) in
      let back = link_back-LinkedBack m e b.at ys there (Separate-right (c ∷ xs) ys sep) in
      let g = link_back m b.at in
      let in_b : (x : ℕ) → Within x b → g x ≡ m x =
        λ x w. back.same x (λ k. apart x w (Inside-right x (c ∷ xs) ys k)) in
      let in_front : (x : ℕ) → Inside x (c ∷ xs) → g x ≡ m x =
        λ x k. back.same x (Separate-disjoint x (c ∷ xs) ys sep k) in
      let new : FreeList g e b.at (b ∷ ys) = (
        refl,
        b1,
        Sized-frame b (linked-Sized next e) (λ x w _ _. in_b x w ∙ own x w),
        in_b (foot b) (foot-Within b) ∙ own (foot b) (foot-Within b) ∙ linked-foot next e,
        subst (λ n. FreeList g b.at n ys) (sym (in_b b.at (at-Within b))) back.list,
      ) in
      rw (insert-after e (end-nonzero a.mem 0 a.head c xs ys list)) (record {
        list =
            FreeList-retarget 0 a.head b.at c xs ys (b ∷ ys) list (Separate-left (c ∷ xs) ys sep)
              (in_front e e_in ∙ store_same (linked next e) e b.at)
              (λ x k ne. in_front x k ∙ kept x (Inside-left x (c ∷ xs) ys k) (λ z. ne (sym z))) new;
        same = λ x out.
            back.same x (λ k. out (inr (Inside-right x (c ∷ xs) ys k)))
            ∙ store_other (linked next e) e b.at x
                (ne_of_apart x e (b ∷ ((c ∷ xs) ++ ys)) (inr (Inside-left e (c ∷ xs) ys e_in)) out)
            ∙ linked-other next e x (b ∷ ((c ∷ xs) ++ ys)) (inl (at-Within b)) (inl (foot-Within b))
                out;
        same_brk = refl;
      })
