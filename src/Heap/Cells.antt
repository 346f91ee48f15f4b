-- ===== src/Heap/Cells.antt =====
-- The heap of src/stdlib.c as a row of cells: blocks that are free or in use, one behind the other.
use freestanding_custom_c_li.Prelude.{
  ℕ, ◌+◌, ◌≤◌, ◌<◌, ◌≡◌, inl, inr, refl, sym, ap, List, [], ◌∷◌, ◌++◌, arith,
}
use freestanding_custom_c_li.Heap.Blocks.{Block, foot, Within, Inside, Separate}
use mathlib.Core.Path.{subst}

pub data Cell : Type 0 where
  taken : Block → Cell
  vacant : Block → Cell

abbrev pub body : Cell → Block
body (taken b) = b
body (vacant b) = b

abbrev pub bodies : List Cell → List Block
bodies [] = []
bodies (c ∷ cs) = body c ∷ bodies cs

abbrev pub frees : List Cell → List Block
frees [] = []
frees (taken b ∷ cs) = frees cs
frees (vacant b ∷ cs) = b ∷ frees cs

abbrev pub useds : List Cell → List Block
useds [] = []
useds (taken b ∷ cs) = b ∷ useds cs
useds (vacant b ∷ cs) = useds cs

-- The cells fill the addresses from `p` up to `q`.
abbrev pub Row : ℕ → List Cell → ℕ → Type 0
Row p [] q = p ≡ q
Row p (c ∷ cs) q = ((body c).at ≡ p) × Row (foot (body c) + 16) cs q

pub frees_append : (xs ys : List Cell) → frees (xs ++ ys) ≡ frees xs ++ frees ys
frees_append [] ys = refl
frees_append (taken b ∷ xs) ys = frees_append xs ys
frees_append (vacant b ∷ xs) ys = ap (λ l. b ∷ l) (frees_append xs ys)

pub useds_append : (xs ys : List Cell) → useds (xs ++ ys) ≡ useds xs ++ useds ys
useds_append [] ys = refl
useds_append (taken b ∷ xs) ys = ap (λ l. b ∷ l) (useds_append xs ys)
useds_append (vacant b ∷ xs) ys = useds_append xs ys

-- A row in two parts.
pub Row-split :
    (p q : ℕ) (xs ys : List Cell) → Row p (xs ++ ys) q → (m : ℕ) × Row p xs m × Row m ys q
Row-split p q [] ys r = (p, refl, r)
Row-split p q (x ∷ xs) ys (e, r) =
    let (m, front, behind) = Row-split (foot (body x) + 16) q xs ys r in (m, (e, front), behind)

pub Row-join : (p m q : ℕ) (xs ys : List Cell) → Row p xs m → Row m ys q → Row p (xs ++ ys) q
Row-join p m q [] ys e r = subst (λ k. Row k ys q) (sym e) r
Row-join p m q (x ∷ xs) ys (e, f) r = (e, Row-join (foot (body x) + 16) m q xs ys f r)

pub Row-le : (p q : ℕ) (cs : List Cell) → Row p cs q → p ≤ q
Row-le p q [] e = omega (arith, e)
Row-le p q (c ∷ cs) (e, r) = let h = Row-le (foot (body c) + 16) q cs r in omega (arith, e, h)

-- The addresses of the cells are those of the row.
pub Row-Inside :
    (p q a : ℕ) (cs : List Cell) → Row p cs q → Inside a (bodies cs) → (p ≤ a) × (a < q)
Row-Inside p q a [] r i = elim i [ ]
Row-Inside p q a (c ∷ cs) (e, r) (inl (lo, hi)) =
    let h = Row-le (foot (body c) + 16) q cs r in (omega arith, omega arith)
Row-Inside p q a (c ∷ cs) (e, r) (inr i) =
    let h = Row-Inside (foot (body c) + 16) q a cs r i in (omega (arith, h.0, e), h.1)

pub frees-bodies : (a : ℕ) (cs : List Cell) → Inside a (frees cs) → Inside a (bodies cs)
frees-bodies a [] i = i
frees-bodies a (taken b ∷ cs) i = inr (frees-bodies a cs i)
frees-bodies a (vacant b ∷ cs) (inl w) = inl w
frees-bodies a (vacant b ∷ cs) (inr i) = inr (frees-bodies a cs i)

pub useds-bodies : (a : ℕ) (cs : List Cell) → Inside a (useds cs) → Inside a (bodies cs)
useds-bodies a [] i = i
useds-bodies a (vacant b ∷ cs) i = inr (useds-bodies a cs i)
useds-bodies a (taken b ∷ cs) (inl w) = inl w
useds-bodies a (taken b ∷ cs) (inr i) = inr (useds-bodies a cs i)

-- The cells of a row do not overlap.
pub Row-apart :
    (p q a : ℕ) (c : Cell) (cs : List Cell)
    → Row p (c ∷ cs) q
    → Within a (body c)
    → Inside a (bodies cs)
    → ⊥
Row-apart p q a c cs (e, r) w i =
    let h = Row-Inside (foot (body c) + 16) q a cs r i in omega (arith, h.0, w.1)

pub Row-Separate : (p q : ℕ) (cs : List Cell) → Row p cs q → Separate (frees cs)
Row-Separate p q [] r = tt
Row-Separate p q (taken b ∷ cs) (e, r) = Row-Separate (foot b + 16) q cs r
Row-Separate p q (vacant b ∷ cs) (e, r) = (
  λ a w i. Row-apart p q a (vacant b) cs (e, r) w (frees-bodies a cs i),
  Row-Separate (foot b + 16) q cs r,
)

pub Row-disjoint :
    (p q a : ℕ) (cs : List Cell) → Row p cs q → Inside a (useds cs) → Inside a (frees cs) → ⊥
Row-disjoint p q a [] r i j = i
Row-disjoint p q a (taken b ∷ cs) (e, r) (inl w) j =
    Row-apart p q a (taken b) cs (e, r) w (frees-bodies a cs j)
Row-disjoint p q a (taken b ∷ cs) (e, r) (inr i) j = Row-disjoint (foot b + 16) q a cs r i j
Row-disjoint p q a (vacant b ∷ cs) (e, r) i (inl w) =
    Row-apart p q a (vacant b) cs (e, r) w (useds-bodies a cs i)
Row-disjoint p q a (vacant b ∷ cs) (e, r) i (inr j) = Row-disjoint (foot b + 16) q a cs r i j
