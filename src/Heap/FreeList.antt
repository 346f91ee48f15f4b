-- ===== src/Heap/FreeList.antt =====
-- The free list of src/stdlib.c: a list through `info.next` of the headers and `info.prev` of the
-- footers.
use freestanding_custom_c_li.Prelude.{
  ℕ, ◌+◌, ◌≡◌, ◌≢◌, inl, inr, refl, ap, sym, ◌∙◌, List, [], ◌∷◌, ◌++◌, arith, ==_iff, ==_false,
}
use freestanding_custom_c_li.Heap.{Words, store, size, footer_of, link_back}
use freestanding_custom_c_li.Heap.Blocks.{
  Block, foot, Within, Inside, Separate, at-Within, foot-Within, ne_of_apart,
}
use mathlib.Core.Path.{subst}

-- The header and the footer of the block say how large it is.
abbrev pub Sized : Words → Block → Type 0
Sized m b = (size m b.at ≡ b.bytes) × (size m (foot b) ≡ b.bytes)

-- The list from the pointer `p` on has the blocks `bs`, with their sizes in headers and footers,
-- and the first of them points back to `prev`.
abbrev pub FreeList : Words → (prev p : ℕ) → List Block → Type 0
FreeList m prev p [] = p ≡ 0
FreeList m prev p (b ∷ bs) =
    (p ≡ b.at) × (b.at ≢ 0) × Sized m b × (m (foot b) ≡ prev) × FreeList m b.at (m b.at) bs

pub store_same : (m : Words) (p c : ℕ) → store m p c p ≡ c
store_same m p c = rw ((==_iff p p).1 refl) refl

pub store_other : (m : Words) (p c a : ℕ) → p ≢ a → store m p c a ≡ m a
store_other m p c a ne = rw (==_false p a ne) refl

-- The sizes of a block survive a change of its links.
pub Sized-frame :
    {m g : Words} (b : Block)
    → Sized m b
    → ((a : ℕ) → Within a b → a ≢ b.at → a ≢ foot b → g a ≡ m a)
    → Sized g b
Sized-frame b (head, tail) same = (
  same (b.at + 8) (omega arith) (omega arith) (omega arith) ∙ head,
  same (foot b + 8) (omega arith) (omega arith) (omega arith) ∙ tail,
)

-- A list lives in its blocks.
pub FreeList-frame :
    {m g : Words} (prev p : ℕ) (bs : List Block)
    → FreeList m prev p bs
    → ((a : ℕ) → Inside a bs → g a ≡ m a)
    → FreeList g prev p bs
FreeList-frame prev p [] f same = f
FreeList-frame {m} {g} prev p (b ∷ bs) (e, ne, fits, back, more) same = (
  e,
  ne,
  Sized-frame b fits (λ a w _ _. same a (inl w)),
  same (foot b) (inl (foot-Within b)) ∙ back,
  subst (λ n. FreeList g b.at n bs) (sym (same b.at (inl (at-Within b))))
      (FreeList-frame b.at (m b.at) bs more (λ a i. same a (inr i))),
)

-- A block of a list has its sizes.
pub FreeList-Sized :
    (m : Words) (prev p : ℕ) (c : Block) (xs ys : List Block)
    → FreeList m prev p (xs ++ (c ∷ ys))
    → Sized m c
FreeList-Sized m prev p c [] ys list = list.2
FreeList-Sized m prev p c (x ∷ xs) ys list = FreeList-Sized m x.at (m x.at) c xs ys list.4

-- Another block before a list is another link back from its first block.
pub FreeList-back :
    {m g : Words} (prev prev' p : ℕ) (b : Block) (bs : List Block)
    → FreeList m prev p (b ∷ bs)
    → Separate (b ∷ bs)
    → g (foot b) ≡ prev'
    → ((a : ℕ) → Inside a (b ∷ bs) → a ≢ foot b → g a ≡ m a)
    → FreeList g prev' p (b ∷ bs)
FreeList-back {m} {g} prev prev' p b bs (e, ne, fits, back, more) (apart, sep) now same = (
  e,
  ne,
  Sized-frame b fits (λ a w _ ne. same a (inl w) ne),
  now,
  subst (λ n. FreeList g b.at n bs) (sym (same b.at (inl (at-Within b)) (omega arith)))
      (FreeList-frame b.at (m b.at) bs more (λ a i.
        same a (inr i) (λ z. apart (foot b) (foot-Within b) (subst (λ q. Inside q bs) z i)))),
)

-- The last block of a list that is not empty.
abbrev pub end : Block → List Block → Block
end c [] = c
end c (d ∷ xs) = end d xs

pub end-Inside : (a : ℕ) (c : Block) (xs : List Block) → Within a (end c xs) → Inside a (c ∷ xs)
end-Inside a c [] w = inl w
end-Inside a c (d ∷ xs) w = inr (end-Inside a d xs w)

pub end-nonzero :
    (m : Words) (prev p : ℕ) (c : Block) (xs ys : List Block)
    → FreeList m prev p ((c ∷ xs) ++ ys)
    → (end c xs).at ≢ 0
end-nonzero m prev p c [] ys f = f.1
end-nonzero m prev p c (d ∷ xs) ys f = end-nonzero m c.at (m c.at) d xs ys f.4

-- The list behind its first blocks.
pub FreeList-drop :
    (m : Words) (prev p : ℕ) (c : Block) (xs ys : List Block)
    → FreeList m prev p ((c ∷ xs) ++ ys)
    → FreeList m (end c xs).at (m (end c xs).at) ys
FreeList-drop m prev p c [] ys f = f.4
FreeList-drop m prev p c (d ∷ xs) ys f = FreeList-drop m c.at (m c.at) d xs ys f.4

-- The blocks behind the first ones are replaced, when the last of the first ones points to them.
pub FreeList-retarget :
    {m g : Words} (prev p next : ℕ) (c : Block) (xs ys zs : List Block)
    → FreeList m prev p ((c ∷ xs) ++ ys)
    → Separate (c ∷ xs)
    → g (end c xs).at ≡ next
    → ((a : ℕ) → Inside a (c ∷ xs) → a ≢ (end c xs).at → g a ≡ m a)
    → FreeList g (end c xs).at next zs
    → FreeList g prev p ((c ∷ xs) ++ zs)
FreeList-retarget {m} {g} prev p next c [] ys zs (e, ne, fits, back, more) sep now same new = (
  e,
  ne,
  Sized-frame c fits (λ a w ne _. same a (inl w) ne),
  same (foot c) (inl (foot-Within c)) (omega arith) ∙ back,
  subst (λ n. FreeList g c.at n zs) (sym now) new,
)
FreeList-retarget {m} {g} prev p next c (d ∷ xs) ys zs (e, ne, fits, back, more) (apart, sep) now
      same new =
    let other : (a : ℕ) → Within a c → a ≢ (end d xs).at = λ a w z.
      apart a w
        (subst (λ q. Inside q (d ∷ xs)) (sym z) (end-Inside _ d xs (at-Within (end d xs)))) in
    (
      e,
      ne,
      Sized-frame c fits (λ a w _ _. same a (inl w) (other a w)),
      same (foot c) (inl (foot-Within c)) (other (foot c) (foot-Within c)) ∙ back,
      subst (λ n. FreeList g c.at n ((d ∷ xs) ++ zs))
          (sym (same c.at (inl (at-Within c)) (other c.at (at-Within c))))
          (FreeList-retarget c.at (m c.at) next d xs ys zs more sep now (λ a i. same a (inr i))
            new),
    )

-- The link back from the first block of a list, which `h` points to.
pub record LinkedBack (m : Words) (h : ℕ) (bs : List Block) : Type 0 where
  pub list : FreeList (link_back m h) h (m h) bs
  pub same : (a : ℕ) → (Inside a bs → ⊥) → link_back m h a ≡ m a

pub link_back-LinkedBack :
    (m : Words) (prev h : ℕ) (bs : List Block)
    → FreeList m prev (m h) bs
    → Separate bs
    → LinkedBack m h bs
unfolding link_back
link_back-LinkedBack m prev h [] f s = record {
  list = f;
  same = λ a out. rw ((==_iff (m h) 0).1 f) refl;
}
link_back-LinkedBack m prev h (b ∷ bs) f s =
    let there : footer_of m (m h) ≡ foot b = rw (f.0, f.2.0) refl in
    let test = ==_false (m h) 0 (λ z. f.1 (sym f.0 ∙ z)) in
    let e : link_back m h ≡ store m (foot b) h = rw (test, there) refl in
    record {
      list =
          subst (λ g. FreeList g h (m h) (b ∷ bs)) (sym e)
            (FreeList-back prev h (m h) b bs f s (store_same m (foot b) h)
              (λ a i ne. store_other m (foot b) h a (λ z. ne (sym z))));
      same = λ a out.
          ap (λ (g : Words). g a) e
          ∙ store_other m (foot b) h a (ne_of_apart a (foot b) (b ∷ bs) (inl (foot-Within b)) out);
    }
