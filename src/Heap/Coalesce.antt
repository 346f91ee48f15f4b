-- ===== src/Heap/Coalesce.antt =====
-- The joining of free cells that lie next to each other, as `free` of src/stdlib.c keeps the heap.
use freestanding_custom_c_li.Prelude.{inr, inl, ◌⊎◌, ◌+◌, ◌≡◌, refl, ap, List, [], ◌∷◌, ◌++◌, arith}
use freestanding_custom_c_li.Heap.Blocks.{Block}
use freestanding_custom_c_li.Heap.Cells.{Cell, taken, vacant}

-- The next cell, if there is one, is in use.
abbrev pub StartsUsed : List Cell → Type 0
StartsUsed [] = Unit
StartsUsed (taken b ∷ cs) = Unit
StartsUsed (vacant b ∷ cs) = ⊥

-- No two free cells lie next to each other.
abbrev pub Coalesced : List Cell → Type 0
Coalesced [] = Unit
Coalesced (taken b ∷ cs) = Coalesced cs
Coalesced (vacant b ∷ cs) = StartsUsed cs × Coalesced cs

-- Two blocks that lie next to each other, as one.
abbrev pub joined : Block → Block → Block
joined b c = record { at = b.at; bytes = b.bytes + 32 + c.bytes }

abbrev pub cons_cell : Cell → List Cell → List Cell
cons_cell (taken b) cs = taken b ∷ cs
cons_cell (vacant b) [] = vacant b ∷ []
cons_cell (vacant b) (taken c ∷ cs) = vacant b ∷ taken c ∷ cs
cons_cell (vacant b) (vacant c ∷ cs) = vacant (joined b c) ∷ cs

abbrev pub coalesce : List Cell → List Cell
coalesce [] = []
coalesce (c ∷ cs) = cons_cell c (coalesce cs)

pub coalesce-Coalesced : (cs : List Cell) → Coalesced cs → coalesce cs ≡ cs
coalesce-Coalesced [] h = refl
coalesce-Coalesced (taken b ∷ cs) h = ap (λ l. taken b ∷ l) (coalesce-Coalesced cs h)
coalesce-Coalesced (vacant b ∷ []) h = refl
coalesce-Coalesced (vacant b ∷ taken c ∷ cs) h =
    ap (λ l. vacant b ∷ taken c ∷ l) (coalesce-Coalesced cs h.1)
coalesce-Coalesced (vacant b ∷ vacant c ∷ cs) h = elim h.0 [ ]

-- The cells end with one in use, or there are none.
abbrev pub EndsUsed : List Cell → Type 0
EndsUsed [] = Unit
EndsUsed (taken b ∷ cs) = EndsUsed cs
EndsUsed (vacant b ∷ []) = ⊥
EndsUsed (vacant b ∷ c ∷ cs) = EndsUsed (c ∷ cs)

-- Cells in front that are coalesced and end with one in use stay as they are.
pub coalesce-behind :
    (xs ys : List Cell) → Coalesced xs → EndsUsed xs → coalesce (xs ++ ys) ≡ xs ++ coalesce ys
coalesce-behind [] ys h e = refl
coalesce-behind (taken b ∷ xs) ys h e = ap (λ l. taken b ∷ l) (coalesce-behind xs ys h e)
coalesce-behind (vacant b ∷ []) ys h e = elim e [ ]
coalesce-behind (vacant b ∷ taken c ∷ xs) ys h e =
    ap (λ l. vacant b ∷ taken c ∷ l) (coalesce-behind xs ys h.1 e)
coalesce-behind (vacant b ∷ vacant c ∷ xs) ys h e = elim h.0 [ ]

pub Coalesced-left : (xs ys : List Cell) → Coalesced (xs ++ ys) → Coalesced xs
Coalesced-left [] ys h = tt
Coalesced-left (taken b ∷ xs) ys h = Coalesced-left xs ys h
Coalesced-left (vacant b ∷ []) ys h = (tt, tt)
Coalesced-left (vacant b ∷ taken c ∷ xs) ys h = (tt, Coalesced-left xs ys h.1)
Coalesced-left (vacant b ∷ vacant c ∷ xs) ys h = elim h.0 [ ]

pub Coalesced-right : (xs ys : List Cell) → Coalesced (xs ++ ys) → Coalesced ys
Coalesced-right [] ys h = h
Coalesced-right (taken b ∷ xs) ys h = Coalesced-right xs ys h
Coalesced-right (vacant b ∷ xs) ys h = Coalesced-right xs ys h.1

-- Before a free cell of a coalesced heap there is one in use.
pub Coalesced-EndsUsed :
    (xs ys : List Cell) (b : Block) → Coalesced (xs ++ (vacant b ∷ ys)) → EndsUsed xs
Coalesced-EndsUsed [] ys b h = tt
Coalesced-EndsUsed (taken c ∷ xs) ys b h = Coalesced-EndsUsed xs ys b h
Coalesced-EndsUsed (vacant c ∷ []) ys b h = h.0
Coalesced-EndsUsed (vacant c ∷ x ∷ xs) ys b h = Coalesced-EndsUsed (x ∷ xs) ys b h.1

-- A coalesced row behind another one that ends with a cell in use.
pub Coalesced-append :
    (xs ys : List Cell) → Coalesced xs → EndsUsed xs → Coalesced ys → Coalesced (xs ++ ys)
Coalesced-append [] ys h e k = k
Coalesced-append (taken b ∷ xs) ys h e k = Coalesced-append xs ys h e k
Coalesced-append (vacant b ∷ []) ys h e k = elim e [ ]
Coalesced-append (vacant b ∷ taken c ∷ xs) ys h e k = (tt, Coalesced-append xs ys h.1 e k)
Coalesced-append (vacant b ∷ vacant c ∷ xs) ys h e k = elim h.0 [ ]

-- The result is coalesced, whatever the cells.
pub coalesced : (cs : List Cell) → Coalesced (coalesce cs)
coalesced [] = tt
coalesced (c ∷ cs) = go c (coalesce cs) (coalesced cs)
  where
    go : (c : Cell) (cs : List Cell) → Coalesced cs → Coalesced (cons_cell c cs)
    go (taken b) cs h = h
    go (vacant b) [] h = (tt, tt)
    go (vacant b) (taken c ∷ cs) h = (tt, h)
    go (vacant b) (vacant c ∷ cs) h = h

-- Two free cells may be joined first.
pub coalesce_joined :
    (p b : Block) (ys : List Cell)
    → coalesce (vacant p ∷ vacant b ∷ ys) ≡ coalesce (vacant (joined p b) ∷ ys)
coalesce_joined p b ys = go (coalesce ys)
  where
    go :
        (l : List Cell)
        → cons_cell (vacant p) (cons_cell (vacant b) l) ≡ cons_cell (vacant (joined p b)) l
    go [] = refl
    go (taken c ∷ l) = refl
    go (vacant c ∷ l) =
        let sum : p.bytes + 32 + (b.bytes + 32 + c.bytes) ≡ p.bytes + 32 + b.bytes + 32 + c.bytes =
          omega arith in
        ap (λ n. vacant (record { at = p.at; bytes = n }) ∷ l) sum

pub EndsUsed-taken : (xs : List Cell) (b : Block) → EndsUsed (xs ++ (taken b ∷ []))
EndsUsed-taken [] b = tt
EndsUsed-taken (taken c ∷ xs) b = EndsUsed-taken xs b
EndsUsed-taken (vacant c ∷ []) b = tt
EndsUsed-taken (vacant c ∷ x ∷ xs) b = EndsUsed-taken (x ∷ xs) b

-- The last of the cells, if there is one.
pub record Last (cs : List Cell) : Type 0 where
  pub before : List Cell
  pub cell : Cell
  pub whole : cs ≡ before ++ (cell ∷ [])

pub Last-cell : (cs : List Cell) → (cs ≡ []) ⊎ Last cs
Last-cell [] = inl refl
Last-cell (c ∷ cs) = elim (Last-cell cs) [
  | inl e ↦ inr (record { before = []; cell = c; whole = ap (λ l. c ∷ l) e })
  | inr r ↦ inr (record { before = c ∷ r.before; cell = r.cell; whole = ap (λ l. c ∷ l) r.whole })
]
