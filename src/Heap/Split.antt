-- ===== src/Heap/Split.antt =====
-- The search of `malloc` in src/stdlib.c, and the block that it cuts in two.
use freestanding_custom_c_li.Prelude.{
  ℕ, zero, suc, ◌+◌, ◌-◌, ◌<◌, ◌≡◌, ◌≢◌, inl, inr, refl, ap, sym, ◌∙◌, List, [], ◌∷◌, ◌++◌, arith,
  some, length, leb, ==_iff, ==_false, if◌then◌else◌, Bool-cases,
}
use freestanding_custom_c_li.Heap.{Arena, Words, store, size, find_fit, split, insert_into_list}
use freestanding_custom_c_li.Heap.Blocks.{
  in_middle, Block, foot, Within, Inside, Separate, at-Within, foot-Within,
}
use freestanding_custom_c_li.Heap.FreeList.{
  store_same, Sized, Sized-frame, FreeList, FreeList-frame, end,
}
use freestanding_custom_c_li.Heap.Insert.{Becomes, IsFooter, insert_into_list-after}
use mathlib.Core.Path.{subst}
use mathlib.Core.List.{append_assoc}

-- The address of the first block of `n` bytes at least, or 0.
abbrev pub first_fit : ℕ → List Block → ℕ
first_fit n [] = 0
first_fit n (b ∷ bs) = if leb n b.bytes then b.at else first_fit n bs

-- The search of `malloc` through a free list of fewer blocks than the fuel: it ends, with the
-- address of the first block of `n` bytes at least, or 0 if there is none.
pub find_fit-first :
    (fuel : ℕ) (m : Words) (prev p n : ℕ) (bs : List Block)
    → FreeList m prev p bs
    → length bs < fuel
    → find_fit fuel m p n ≡ some (first_fit n bs)
unfolding find_fit
find_fit-first zero m prev p n bs list h = absurd (omega arith)
find_fit-first (suc fuel) m prev p n [] list h = rw ((==_iff p 0).1 list) refl
find_fit-first (suc fuel) m prev p n (b ∷ bs) (e, b1, fits, back, more) h =
    let test = ==_false p 0 (λ z. b1 (sym e ∙ z)) in
    let here : size m p ≡ b.bytes = ap (size m) e ∙ fits.0 in
    let next : find_fit fuel m (m p) n ≡ some (first_fit n bs) =
      ap (λ q. find_fit fuel m (m q) n) e
      ∙ find_fit-first fuel m b.at (m b.at) n bs more (omega arith) in
    rw (test, here, next)
      (elim (Bool-cases (leb n b.bytes)) [ inl y ↦ rw y (ap some e) | inr y ↦ rw y refl ])

-- A block of the list gets another size, in a memory that has the words of the others.
pub FreeList-resize :
    (m g : Words) (prev p : ℕ) (b c : Block) (xs ys : List Block)
    → FreeList m prev p (xs ++ (b ∷ ys))
    → Separate (xs ++ (b ∷ ys))
    → c.at ≡ b.at
    → Sized g c
    → g (foot c) ≡ m (foot b)
    → g b.at ≡ m b.at
    → ((a : ℕ) → Inside a (xs ++ (b ∷ ys)) → (Within a b → ⊥) → g a ≡ m a)
    → FreeList g prev p (xs ++ (c ∷ ys))
FreeList-resize m g prev p b c [] ys (e, b1, fits, back, more) (apart, sep) ce sz ft at same = (
  e ∙ sym ce,
  (λ z. b1 (sym ce ∙ z)),
  sz,
  ft ∙ back,
  subst (λ q. FreeList g q (g q) ys) (sym ce)
      (subst (λ n. FreeList g b.at n ys) (sym at)
        (FreeList-frame b.at (m b.at) ys more (λ a i. same a (inr i) (λ w. apart a w i)))),
)
FreeList-resize m g prev p b c (x ∷ xs) ys (e, x1, fits, back, more) (apart, sep) ce sz ft at same =
    let out : (a : ℕ) → Within a x → Within a b → ⊥ = λ a w v. apart a w (in_middle a b xs ys v) in
    (
      e,
      x1,
      Sized-frame x fits (λ a w _ _. same a (inl w) (out a w)),
      same (foot x) (inl (foot-Within x)) (out (foot x) (foot-Within x)) ∙ back,
      subst (λ n. FreeList g x.at n (xs ++ (c ∷ ys)))
          (sym (same x.at (inl (at-Within x)) (out x.at (at-Within x))))
          (FreeList-resize m g x.at (m x.at) b c xs ys more sep ce sz ft at
            (λ a i o. same a (inr i) o)),
    )

-- A block is cut down to a part of it: the blocks stay separate, and the rest is apart from them.
pub Inside-rest :
    (a : ℕ) (b c : Block) (xs ys : List Block)
    → Separate (xs ++ (b ∷ ys))
    → Within a b
    → (Within a c → ⊥)
    → Inside a (xs ++ (c ∷ ys))
    → ⊥
Inside-rest a b c [] ys (apart, sep) w out (inl v) = out v
Inside-rest a b c [] ys (apart, sep) w out (inr i) = apart a w i
Inside-rest a b c (x ∷ xs) ys (apart, sep) w out (inl v) = apart a v (in_middle a b xs ys w)
Inside-rest a b c (x ∷ xs) ys (apart, sep) w out (inr i) = Inside-rest a b c xs ys sep w out i

pub Inside-resize :
    (a : ℕ) (b c : Block) (xs ys : List Block)
    → (Within a c → Within a b)
    → Inside a (xs ++ (c ∷ ys))
    → Inside a (xs ++ (b ∷ ys))
Inside-resize a b c [] ys part (inl w) = inl (part w)
Inside-resize a b c [] ys part (inr i) = inr i
Inside-resize a b c (x ∷ xs) ys part (inl w) = inl w
Inside-resize a b c (x ∷ xs) ys part (inr i) = inr (Inside-resize a b c xs ys part i)

pub Separate-resize :
    (b c : Block) (xs ys : List Block)
    → ((a : ℕ) → Within a c → Within a b)
    → Separate (xs ++ (b ∷ ys))
    → Separate (xs ++ (c ∷ ys))
Separate-resize b c [] ys part (apart, sep) = (λ a w i. apart a (part a w) i, sep)
Separate-resize b c (x ∷ xs) ys part (apart, sep) =
    (λ a w i. apart a w (Inside-resize a b c xs ys (part a) i), Separate-resize b c xs ys part sep)

end_append : (c e : Block) (xs : List Block) → end c (xs ++ (e ∷ [])) ≡ e
end_append c e [] = refl
end_append c e (x ∷ xs) = end_append x e xs

-- Insertion behind any block of the list.
pub insert_into_list-behind :
    (a : Arena) (e d : Block) (f : ℕ) (xs ys : List Block)
    → d.at ≢ 0
    → Sized a.mem d
    → IsFooter f d
    → FreeList a.mem 0 a.head (xs ++ (e ∷ ys))
    → Separate (d ∷ (xs ++ (e ∷ ys)))
    → Becomes a (d ∷ (xs ++ (e ∷ ys))) (xs ++ (e ∷ d ∷ ys)) (insert_into_list a e.at d.at f)
insert_into_list-behind a e d f [] ys d1 fits given list sep =
    insert_into_list-after a d f d1 fits given e [] ys list sep
insert_into_list-behind a e d f (x ∷ xs) ys d1 fits given list sep =
    let shift : (zs : List Block) → (xs ++ (e ∷ [])) ++ zs ≡ xs ++ (e ∷ zs) =
      λ zs. append_assoc xs (e ∷ []) zs in
    let list' : FreeList a.mem 0 a.head (x ∷ ((xs ++ (e ∷ [])) ++ ys)) =
      subst (λ l. FreeList a.mem 0 a.head (x ∷ l)) (sym (shift ys)) list in
    let sep' : Separate (d ∷ x ∷ ((xs ++ (e ∷ [])) ++ ys)) =
      subst (λ l. Separate (d ∷ x ∷ l)) (sym (shift ys)) sep in
    let r = insert_into_list-after a d f d1 fits given x (xs ++ (e ∷ [])) ys list' sep' in
    subst (λ l. Becomes a (d ∷ x ∷ l) (x ∷ (xs ++ (e ∷ d ∷ ys))) (insert_into_list a e.at d.at f))
      (shift ys)
      (subst
        (λ l. Becomes a (d ∷ x ∷ ((xs ++ (e ∷ [])) ++ ys)) (x ∷ l) (insert_into_list a e.at d.at f))
        (shift (d ∷ ys))
        (subst
          (λ q.
            Becomes a (d ∷ x ∷ ((xs ++ (e ∷ [])) ++ ys)) (x ∷ ((xs ++ (e ∷ [])) ++ (d ∷ ys)))
              (insert_into_list a q d.at f))
          (ap (λ (q : Block). q.at) (end_append x e xs)) r))

-- The block `b` of the list is cut to `n` bytes, with more than 40 left.
module _ (a : Arena) (b : Block) (n : ℕ) (wide : n + 40 < b.bytes)
    (fits : size a.mem b.at ≡ b.bytes) where
  abbrev pub kept : Block
  kept = record { at = b.at; bytes = n }

  abbrev pub rest : Block
  rest = record { at = b.at + 32 + n; bytes = b.bytes - n - 32 }

  abbrev m3 : Words
  m3 = store (store (store a.mem (b.at + 8) n) (foot kept + 8) n) (foot kept) (a.mem (foot b))

  abbrev cut : Words
  cut = store (store m3 (rest.at + 8) rest.bytes) (foot rest + 8) rest.bytes

  split-cut : split a b.at n ≡ insert_into_list (record a { mem = cut }) b.at rest.at (foot rest)
  unfolding split
  split-cut =
      rw
        (
          fits,
          (==_iff (b.at + 8) (b.at + 8)).1 refl,
          ==_false (foot kept + 8) (b.at + 8) (omega arith),
          (==_iff (rest.at + 8) (rest.at + 8)).1 refl,
        )
        refl

  cut-other : (x : ℕ) → (Within x b → ⊥) → cut x ≡ a.mem x
  cut-other x out =
      rw
        (
          ==_false (foot rest + 8) x (λ z. out (omega arith)),
          ==_false (rest.at + 8) x (λ z. out (omega arith)),
          ==_false (foot kept) x (λ z. out (omega arith)),
          ==_false (foot kept + 8) x (λ z. out (omega arith)),
          ==_false (b.at + 8) x (λ z. out (omega arith)),
        )
        refl

  cut-at : cut b.at ≡ a.mem b.at
  cut-at =
      rw
        (
          ==_false (foot rest + 8) b.at (omega arith),
          ==_false (rest.at + 8) b.at (omega arith),
          ==_false (foot kept) b.at (omega arith),
          ==_false (foot kept + 8) b.at (omega arith),
          ==_false (b.at + 8) b.at (omega arith),
        )
        refl

  cut-size : cut (b.at + 8) ≡ n
  cut-size =
      rw
        (
          ==_false (foot rest + 8) (b.at + 8) (omega arith),
          ==_false (rest.at + 8) (b.at + 8) (omega arith),
          ==_false (foot kept) (b.at + 8) (omega arith),
          ==_false (foot kept + 8) (b.at + 8) (omega arith),
          (==_iff (b.at + 8) (b.at + 8)).1 refl,
        )
        refl

  cut-foot : cut (foot kept) ≡ a.mem (foot b)
  cut-foot =
      rw
        (
          ==_false (foot rest + 8) (foot kept) (omega arith),
          ==_false (rest.at + 8) (foot kept) (omega arith),
          (==_iff (foot kept) (foot kept)).1 refl,
        )
        refl

  cut-rest : cut (rest.at + 8) ≡ rest.bytes
  cut-rest =
      rw
        (
          ==_false (foot rest + 8) (rest.at + 8) (omega arith),
          (==_iff (rest.at + 8) (rest.at + 8)).1 refl,
        )
        refl

  cut-kept : cut (foot kept + 8) ≡ n
  cut-kept =
      rw
        (
          ==_false (foot rest + 8) (foot kept + 8) (omega arith),
          ==_false (rest.at + 8) (foot kept + 8) (omega arith),
          ==_false (foot kept) (foot kept + 8) (omega arith),
          (==_iff (foot kept + 8) (foot kept + 8)).1 refl,
        )
        refl

  cut-end : cut (foot rest + 8) ≡ rest.bytes
  cut-end = store_same (store m3 (rest.at + 8) rest.bytes) (foot rest + 8) rest.bytes

  -- The list behind `split`: the kept part in the place of the block, and the rest behind it.
  pub split-Becomes :
      (xs ys : List Block)
      → FreeList a.mem 0 a.head (xs ++ (b ∷ ys))
      → Separate (xs ++ (b ∷ ys))
      → Becomes a (xs ++ (b ∷ ys)) (xs ++ (kept ∷ rest ∷ ys)) (split a b.at n)
  split-Becomes xs ys list sep =
      let a' : Arena = record a { mem = cut } in
      let list' : FreeList cut 0 a.head (xs ++ (kept ∷ ys)) =
        FreeList-resize a.mem cut 0 a.head b kept xs ys list sep refl (cut-size, cut-kept) cut-foot
          cut-at (λ x i out. cut-other x out) in
      let part : (x : ℕ) → Within x kept → Within x b = λ x w. omega arith in
      let sep' : Separate (rest ∷ (xs ++ (kept ∷ ys))) = (
        λ x w. Inside-rest x b kept xs ys sep (omega arith) (λ v. omega arith),
        Separate-resize b kept xs ys part sep,
      ) in
      let r =
        insert_into_list-behind a' kept rest (foot rest) xs ys (omega arith) (cut-rest, cut-end)
          (inr refl) list' sep' in
      let inside : (x : ℕ) → Inside x (rest ∷ (xs ++ (kept ∷ ys))) → Inside x (xs ++ (b ∷ ys)) =
        λ x i. elim i [
          | inl w ↦ in_middle x b xs ys (omega arith)
          | inr k ↦ Inside-resize x b kept xs ys (part x) k
        ] in
      rw split-cut (record {
        list = r.list;
        same = λ x out.
            r.same x (λ i. out (inside x i)) ∙ cut-other x (λ w. out (in_middle x b xs ys w));
        same_brk = r.same_brk;
      })
