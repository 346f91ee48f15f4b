-- ===== src/Heap/Allocate.antt =====
-- The part of `malloc` behind the search, in src/stdlib.c.
use freestanding_custom_c_li.Prelude.{
  ℕ, ◌+◌, ◌-◌, ◌<◌, ◌≡◌, inl, inr, refl, ap, sym, ◌∙◌, List, [], ◌∷◌, ◌++◌, arith, ltb, ltb_iff,
  ltb-false, if◌then◌else◌,
}
use freestanding_custom_c_li.Heap.{
  Arena, store, used_normal, footer_of, split, remove_from_list, detach, allocate,
}
use freestanding_custom_c_li.Heap.Blocks.{
  Inside-without, Separate-without, ne_of_Inside, Inside-others, Block, foot, Within, Inside,
  Separate, at-Within, foot-Within, ne_of_apart, in_middle,
}
use freestanding_custom_c_li.Heap.FreeList.{
  Sized-frame, Sized, FreeList-Sized, FreeList, FreeList-frame, store_same, store_other,
}
use freestanding_custom_c_li.Heap.Remove.{remove_from_list-Becomes}
use freestanding_custom_c_li.Heap.Split.{kept, rest, split-Becomes}
use native.Mathlib.Decide.{dec_lt}

-- What an allocation of the block `c` leaves behind: the address of its payload, the tags that say
-- that it is used, its sizes, and the free list `left`, which the block is not part of. The words
-- outside the blocks `touched` are those from before.
pub record Allocated (a : Arena) (touched left : List Block) (c : Block) (r : ℕ × Arena)
    : Type 0 where
  pub payload : r.0 ≡ c.at + 16
  pub header : r.1.mem c.at ≡ used_normal
  pub footer : r.1.mem (foot c) ≡ used_normal
  pub sized : Sized r.1.mem c
  pub list : FreeList r.1.mem 0 r.1.head left
  pub apart : Separate (c ∷ left)
  pub same : (x : ℕ) → (Inside x touched → ⊥) → r.1.mem x ≡ a.mem x

detach-Allocated :
    (a : Arena) (c : Block) (xs ys : List Block)
    → FreeList a.mem 0 a.head (xs ++ (c ∷ ys))
    → Separate (xs ++ (c ∷ ys))
    → Allocated a (xs ++ (c ∷ ys)) (xs ++ ys) c (detach a c.at)
unfolding detach
detach-Allocated a c xs ys list sep =
    let fits = FreeList-Sized a.mem 0 a.head c xs ys list in
    let there : footer_of a.mem c.at ≡ foot c = ap (λ k. c.at + 16 + k) fits.0 in
    let r = remove_from_list-Becomes a c (foot c) (inr refl) xs ys list sep in
    let b = remove_from_list a c.at (foot c) in
    let m = store b.mem c.at used_normal in
    rw there (record {
      payload = refl;
      header =
          store_other m (foot c) used_normal c.at (omega arith) ∙ store_same b.mem c.at used_normal;
      footer = store_same m (foot c) used_normal;
      sized = Sized-frame c fits (λ x w ne nf.
          store_other m (foot c) used_normal x (λ z. nf (sym z))
          ∙ store_other b.mem c.at used_normal x (λ z. ne (sym z))
          ∙ r.same x (Inside-others x c xs ys sep w));
      list = FreeList-frame 0 b.head (xs ++ ys) r.list (λ x i.
          store_other m (foot c) used_normal x (
            ne_of_Inside x (foot c) c (xs ++ ys) i
              (Inside-others (foot c) c xs ys sep (foot-Within c)))
          ∙ store_other b.mem c.at used_normal x
              (ne_of_Inside x c.at c (xs ++ ys) i (Inside-others c.at c xs ys sep (at-Within c))));
      apart = (λ x w i. Inside-others x c xs ys sep w i, Separate-without c xs ys sep);
      same = λ x out.
          store_other m (foot c) used_normal x (
            ne_of_apart x (foot c) (xs ++ (c ∷ ys)) (in_middle (foot c) c xs ys (foot-Within c))
              out)
          ∙ store_other b.mem c.at used_normal x
              (ne_of_apart x c.at (xs ++ (c ∷ ys)) (in_middle c.at c xs ys (at-Within c)) out)
          ∙ r.same x (λ i. out (Inside-without x c xs ys i));
    })

-- A block in two parts.
module _ (b c d : Block) (first : (a : ℕ) → Within a c → Within a b)
    (second : (a : ℕ) → Within a d → Within a b)
    (disjoint : (a : ℕ) → Within a c → Within a d → ⊥) where
  Inside-parts :
      (a : ℕ) (xs ys : List Block) → Inside a (xs ++ (c ∷ d ∷ ys)) → Inside a (xs ++ (b ∷ ys))
  Inside-parts a [] ys (inl w) = inl (first a w)
  Inside-parts a [] ys (inr (inl w)) = inl (second a w)
  Inside-parts a [] ys (inr (inr i)) = inr i
  Inside-parts a (x ∷ xs) ys (inl w) = inl w
  Inside-parts a (x ∷ xs) ys (inr i) = inr (Inside-parts a xs ys i)

  Separate-parts : (xs ys : List Block) → Separate (xs ++ (b ∷ ys)) → Separate (xs ++ (c ∷ d ∷ ys))
  Separate-parts [] ys (apart, sep) = (
    λ a w i. elim i [ inl v ↦ disjoint a w v | inr k ↦ apart a (first a w) k ],
    (λ a w i. apart a (second a w) i, sep),
  )
  Separate-parts (x ∷ xs) ys (apart, sep) =
      (λ a w i. apart a w (Inside-parts a xs ys i), Separate-parts xs ys sep)

-- The block that an allocation of `n` bytes takes, and what it leaves of the block `b`.
abbrev pub granted : Block → ℕ → Block
granted b n = if ltb 40 (b.bytes - n) then record { at = b.at; bytes = n } else b

abbrev pub remainder : Block → ℕ → List Block
remainder b n =
    if ltb 40 (b.bytes - n)
    then record { at = b.at + 32 + n; bytes = b.bytes - n - 32 } ∷ []
    else []

-- `allocate` of `n` bytes from a block of the free list, wherever it stands: the result is the
-- address behind the header of the granted block, which is the first `n` bytes of the block if
-- more than 40 are left over and all of it otherwise. Its header and footer are marked as used,
-- and the free list has what is left of the block, if any, in its place among the others, in a
-- sound state and apart from the granted block. No word outside the blocks of the list has
-- changed.
pub allocate-Allocated :
    (a : Arena) (b : Block) (n : ℕ) (xs ys : List Block)
    → FreeList a.mem 0 a.head (xs ++ (b ∷ ys))
    → Separate (xs ++ (b ∷ ys))
    → Allocated a (xs ++ (b ∷ ys)) (xs ++ (remainder b n ++ ys)) (granted b n) (allocate a b.at n)
unfolding allocate
allocate-Allocated a b n xs ys list sep =
    let fits = (FreeList-Sized a.mem 0 a.head b xs ys list).0 in
    elim (dec_lt 40 (b.bytes - n)) [
      | yes wide ↦
          let test = (ltb_iff 40 (b.bytes - n)).1 wide in
          let w : n + 40 < b.bytes = omega arith in
          let s = split-Becomes a b n w fits xs ys list sep in
          let c = kept a b n w fits in
          let d = rest a b n w fits in
          let first : (x : ℕ) → Within x c → Within x b = λ x v. omega arith in
          let second : (x : ℕ) → Within x d → Within x b = λ x v. omega arith in
          let disjoint : (x : ℕ) → Within x c → Within x d → ⊥ = λ x v u. omega arith in
          let r =
            detach-Allocated (split a b.at n) c xs (d ∷ ys) s.list
              (Separate-parts b c d first second disjoint xs ys sep) in
          rw (fits, test)
            (record {
              payload = r.payload;
              header = r.header;
              footer = r.footer;
              sized = r.sized;
              list = r.list;
              apart = r.apart;
              same = λ x out.
                  r.same x (λ i. out (Inside-parts b c d first second disjoint x xs ys i))
                  ∙ s.same x out;
            })
      | no narrow ↦
          let test = ltb-false 40 (b.bytes - n) (omega arith) in
          rw (fits, test) (detach-Allocated a b xs ys list sep)
    ]
