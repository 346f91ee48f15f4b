-- ===== src/Heap/Remove.antt =====
-- `remove_from_list` of src/stdlib.c on a free list.
use freestanding_custom_c_li.Prelude.{
  ℕ, ◌+◌, ◌≡◌, ◌≢◌, inl, inr, refl, ap, sym, ◌∙◌, List, [], ◌∷◌, ◌++◌, ==_iff, ==_false,
}
use freestanding_custom_c_li.Heap.{Arena, store, footer_of, remove_from_list}
use freestanding_custom_c_li.Heap.Blocks.{
  Block, foot, Inside, Separate, at-Within, foot-Within, ne_of_apart, Separate-left, Separate-right,
  Inside-left, Inside-right, Separate-disjoint,
}
use freestanding_custom_c_li.Heap.FreeList.{
  FreeList, FreeList-frame, FreeList-back, store_same, store_other, end, end-Inside, end-nonzero,
  FreeList-drop, FreeList-retarget,
}
use freestanding_custom_c_li.Heap.Insert.{Becomes, IsFooter, footer_arg}
use mathlib.Core.Path.{subst}

module _ (a : Arena) (b : Block) (f : ℕ) (given : IsFooter f b) where
  -- The only block of a list.
  remove-only : FreeList a.mem 0 a.head (b ∷ []) → Becomes a [] [] (remove_from_list a b.at f)
  unfolding remove_from_list
  remove-only (e, b1, fits, back, more) =
      rw
        (
          ==_false b.at 0 b1,
          footer_arg a.mem b f fits.0 given,
          (==_iff (a.mem (foot b)) 0).1 back,
          (==_iff (a.mem b.at) 0).1 more,
        )
        (record { list = refl; same = λ x out. refl; same_brk = refl })

  -- The first of several.
  remove-first :
      (d : Block) (ys : List Block)
      → FreeList a.mem 0 a.head (b ∷ d ∷ ys)
      → Separate (b ∷ d ∷ ys)
      → Becomes a (d ∷ ys) (d ∷ ys) (remove_from_list a b.at f)
  unfolding remove_from_list
  remove-first d ys (e, b1, fits, back, more) (apart, sep) =
      let (next, d1, fits_d, _, _) = more in
      let there : footer_of a.mem (a.mem b.at) ≡ foot d = rw (next, fits_d.0) refl in
      rw
        (
          ==_false b.at 0 b1,
          footer_arg a.mem b f fits.0 given,
          (==_iff (a.mem (foot b)) 0).1 back,
          ==_false (a.mem b.at) 0 (λ z. d1 (sym next ∙ z)),
          there,
        )
        (record {
          list =
              FreeList-back b.at 0 (a.mem b.at) d ys more sep (store_same a.mem (foot d) 0)
                (λ x k ne. store_other a.mem (foot d) 0 x (λ z. ne (sym z)));
          same = λ x out.
              store_other a.mem (foot d) 0 x
                (ne_of_apart x (foot d) (d ∷ ys) (inl (foot-Within d)) out);
          same_brk = refl;
        })

  module _ (c : Block) (xs : List Block) where
    -- The last of several.
    remove-last :
        FreeList a.mem 0 a.head ((c ∷ xs) ++ (b ∷ []))
        → Separate ((c ∷ xs) ++ (b ∷ []))
        → Becomes a ((c ∷ xs) ++ []) ((c ∷ xs) ++ []) (remove_from_list a b.at f)
    unfolding remove_from_list
    remove-last list sep =
        let e = (end c xs).at in
        let e_in : Inside e (c ∷ xs) = end-Inside e c xs (at-Within (end c xs)) in
        let (here, b1, fits, back, more) = FreeList-drop a.mem 0 a.head c xs (b ∷ []) list in
        let e1 = end-nonzero a.mem 0 a.head c xs (b ∷ []) list in
        rw
          (
            ==_false b.at 0 b1,
            footer_arg a.mem b f fits.0 given,
            back,
            ==_false e 0 e1,
            (==_iff (a.mem b.at) 0).1 more,
          )
          (record {
            list =
                FreeList-retarget 0 a.head 0 c xs (b ∷ []) [] list
                  (Separate-left (c ∷ xs) (b ∷ []) sep) (store_same a.mem e 0)
                  (λ x k ne. store_other a.mem e 0 x (λ z. ne (sym z))) refl;
            same = λ x out.
                store_other a.mem e 0 x
                  (ne_of_apart x e ((c ∷ xs) ++ []) (Inside-left e (c ∷ xs) [] e_in) out);
            same_brk = refl;
          })

    -- One between two others.
    remove-between :
        (d : Block) (ys : List Block)
        → FreeList a.mem 0 a.head ((c ∷ xs) ++ (b ∷ d ∷ ys))
        → Separate ((c ∷ xs) ++ (b ∷ d ∷ ys))
        → Becomes a ((c ∷ xs) ++ (d ∷ ys)) ((c ∷ xs) ++ (d ∷ ys)) (remove_from_list a b.at f)
    unfolding remove_from_list
    remove-between d ys list sep =
        let e = (end c xs).at in
        let e_in : Inside e (c ∷ xs) = end-Inside e c xs (at-Within (end c xs)) in
        let (here, b1, fits, back, more) = FreeList-drop a.mem 0 a.head c xs (b ∷ d ∷ ys) list in
        let (next, d1, fits_d, back_d, more_d) = more in
        let e1 = end-nonzero a.mem 0 a.head c xs (b ∷ d ∷ ys) list in
        let m = store a.mem e (a.mem b.at) in
        let apart_e : (x : ℕ) → Inside x (b ∷ d ∷ ys) → e ≢ x = λ x k z.
          Separate-disjoint x (c ∷ xs) (b ∷ d ∷ ys) sep (subst (λ q. Inside q (c ∷ xs)) z e_in) k in
        let behind : FreeList m b.at (a.mem b.at) (d ∷ ys) =
          FreeList-frame b.at (a.mem b.at) (d ∷ ys) more
            (λ x k. store_other a.mem e (a.mem b.at) x (apart_e x (inr k))) in
        let there : footer_of m (a.mem b.at) ≡ foot d =
          ap (footer_of m) behind.0 ∙ ap (λ n. d.at + 16 + n) behind.2.0 in
        let g = store m (foot d) e in
        let sep_d = (Separate-right (c ∷ xs) (b ∷ d ∷ ys) sep).1 in
        let d_in : Inside (foot d) (b ∷ d ∷ ys) = inr (inl (foot-Within d)) in
        let in_front : (x : ℕ) → Inside x (c ∷ xs) → g x ≡ m x = λ x k.
          store_other m (foot d) e x (λ z.
            Separate-disjoint x (c ∷ xs) (b ∷ d ∷ ys) sep k
              (subst (λ q. Inside q (b ∷ d ∷ ys)) z d_in)) in
        rw
          (
            ==_false b.at 0 b1,
            footer_arg a.mem b f fits.0 given,
            back,
            ==_false e 0 e1,
            ==_false (a.mem b.at) 0 (λ z. d1 (sym next ∙ z)),
            there,
          )
          (record {
            list =
                FreeList-retarget 0 a.head (a.mem b.at) c xs (b ∷ d ∷ ys) (d ∷ ys) list
                  (Separate-left (c ∷ xs) (b ∷ d ∷ ys) sep)
                  (in_front e e_in ∙ store_same a.mem e (a.mem b.at))
                  (λ x k ne. in_front x k ∙ store_other a.mem e (a.mem b.at) x (λ z. ne (sym z)))
                  (FreeList-back b.at e (a.mem b.at) d ys behind sep_d (store_same m (foot d) e)
                    (λ x k ne. store_other m (foot d) e x (λ z. ne (sym z))));
            same = λ x out.
                store_other m (foot d) e x (
                  ne_of_apart x (foot d) ((c ∷ xs) ++ (d ∷ ys))
                    (Inside-right (foot d) (c ∷ xs) (d ∷ ys) (inl (foot-Within d))) out)
                ∙ store_other a.mem e (a.mem b.at) x (
                    ne_of_apart x e ((c ∷ xs) ++ (d ∷ ys)) (Inside-left e (c ∷ xs) (d ∷ ys) e_in)
                      out);
            same_brk = refl;
          })

  -- `remove_from_list` of a block of the free list, with its footer or NULL, whether it is the
  -- only block, the first, the last or between two others: the free list has the other blocks in
  -- their order, with all links and sizes in place, and no word outside the blocks of the list has
  -- changed.
  pub remove_from_list-Becomes :
      (xs ys : List Block)
      → FreeList a.mem 0 a.head (xs ++ (b ∷ ys))
      → Separate (xs ++ (b ∷ ys))
      → Becomes a (xs ++ ys) (xs ++ ys) (remove_from_list a b.at f)
  remove_from_list-Becomes [] [] list sep = remove-only list
  remove_from_list-Becomes [] (d ∷ ys) list sep = remove-first d ys list sep
  remove_from_list-Becomes (c ∷ xs) [] list sep = remove-last c xs list sep
  remove_from_list-Becomes (c ∷ xs) (d ∷ ys) list sep = remove-between c xs d ys list sep
