-- ===== src/Heap/Blocks.antt =====
-- The blocks of the heap of src/stdlib.c, and when they do not overlap.
use freestanding_custom_c_li.Prelude.{
  ℕ, ◌+◌, ◌≤◌, ◌<◌, ◌≢◌, ◌⊎◌, inl, inr, sym, List, [], ◌∷◌, ◌++◌, arith,
}
use mathlib.Core.Path.{subst}

pub record Block : Type 0 where
  pub at : ℕ
  pub bytes : ℕ

abbrev pub foot : Block → ℕ
foot b = b.at + 16 + b.bytes

-- The address `a` is one of the block, or of one of the blocks.
abbrev pub Within : ℕ → Block → Type 0
Within a b = (b.at ≤ a) × (a < foot b + 16)

abbrev pub Inside : ℕ → List Block → Type 0
Inside a [] = ⊥
Inside a (b ∷ bs) = Within a b ⊎ Inside a bs

-- No two of the blocks overlap.
abbrev pub Separate : List Block → Type 0
Separate [] = Unit
Separate (b ∷ bs) = ((a : ℕ) → Within a b → Inside a bs → ⊥) × Separate bs

pub at-Within : (b : Block) → Within b.at b
at-Within b = omega arith

pub size-Within : (b : Block) → Within (b.at + 8) b
size-Within b = omega arith

pub foot-Within : (b : Block) → Within (foot b) b
foot-Within b = omega arith

-- Blocks that are separate are so without those behind them, and without those before them.
pub Inside-left : (a : ℕ) (xs ys : List Block) → Inside a xs → Inside a (xs ++ ys)
Inside-left a [] ys i = elim i [ ]
Inside-left a (x ∷ xs) ys (inl w) = inl w
Inside-left a (x ∷ xs) ys (inr i) = inr (Inside-left a xs ys i)

pub Inside-right : (a : ℕ) (xs ys : List Block) → Inside a ys → Inside a (xs ++ ys)
Inside-right a [] ys i = i
Inside-right a (x ∷ xs) ys i = inr (Inside-right a xs ys i)

pub Separate-left : (xs ys : List Block) → Separate (xs ++ ys) → Separate xs
Separate-left [] ys s = tt
Separate-left (x ∷ xs) ys (apart, s) =
    (λ a w i. apart a w (Inside-left a xs ys i), Separate-left xs ys s)

pub Separate-right : (xs ys : List Block) → Separate (xs ++ ys) → Separate ys
Separate-right [] ys s = s
Separate-right (x ∷ xs) ys (apart, s) = Separate-right xs ys s

-- No address is in the first blocks and in those behind them.
pub Separate-disjoint :
    (a : ℕ) (xs ys : List Block) → Separate (xs ++ ys) → Inside a xs → Inside a ys → ⊥
Separate-disjoint a [] ys s j i = j
Separate-disjoint a (x ∷ xs) ys (apart, s) (inl w) i = apart a w (Inside-right a xs ys i)
Separate-disjoint a (x ∷ xs) ys (apart, s) (inr j) i = Separate-disjoint a xs ys s j i

-- Two words of blocks that do not overlap are different words.
pub ne_of_apart : (p q : ℕ) (bs : List Block) → Inside q bs → (Inside p bs → ⊥) → q ≢ p
ne_of_apart p q bs i out z = out (subst (λ a. Inside a bs) z i)

pub in_middle : (a : ℕ) (b : Block) (xs ys : List Block) → Within a b → Inside a (xs ++ (b ∷ ys))
in_middle a b [] ys w = inl w
in_middle a b (x ∷ xs) ys w = inr (in_middle a b xs ys w)

-- A block of the list is apart from the others.
pub Inside-others :
    (a : ℕ) (c : Block) (xs ys : List Block)
    → Separate (xs ++ (c ∷ ys))
    → Within a c
    → Inside a (xs ++ ys)
    → ⊥
Inside-others a c [] ys (apart, sep) w i = apart a w i
Inside-others a c (x ∷ xs) ys (apart, sep) w (inl v) = apart a v (in_middle a c xs ys w)
Inside-others a c (x ∷ xs) ys (apart, sep) w (inr i) = Inside-others a c xs ys sep w i

pub Inside-without :
    (a : ℕ) (c : Block) (xs ys : List Block) → Inside a (xs ++ ys) → Inside a (xs ++ (c ∷ ys))
Inside-without a c [] ys i = inr i
Inside-without a c (x ∷ xs) ys (inl w) = inl w
Inside-without a c (x ∷ xs) ys (inr i) = inr (Inside-without a c xs ys i)

pub Separate-without :
    (c : Block) (xs ys : List Block) → Separate (xs ++ (c ∷ ys)) → Separate (xs ++ ys)
Separate-without c [] ys (apart, sep) = sep
Separate-without c (x ∷ xs) ys (apart, sep) =
    (λ a w i. apart a w (Inside-without a c xs ys i), Separate-without c xs ys sep)

pub ne_of_Inside : (x q : ℕ) (c : Block) (bs : List Block) → Inside x bs → (Inside q bs → ⊥) → q ≢ x
ne_of_Inside x q c bs i out z = out (subst (λ p. Inside p bs) (sym z) i)
