-- ===== src/Heap/Report/Walk.antt =====
-- What the reports of src/stdlib.c on the heap say of a heap in order.
use freestanding_custom_c_li.Prelude.{
  ℕ, zero, suc, ◌+◌, ◌%◌, ◌^◌, ◌≤◌, ◌<◌, ◌≡◌, refl, sym, ap, ◌∙◌, List, [], ◌∷◌, ◌++◌, map, arith,
  some, length, ==_iff, ==_false, Bytes,
}
use freestanding_custom_c_li.Heap.{Arena, Words, size, footer_of}
use freestanding_custom_c_li.Heap.Blocks.{Block, foot}
use freestanding_custom_c_li.Heap.FreeList.{FreeList, FreeList-Sized}
use freestanding_custom_c_li.Heap.Arrange.{Arranges, find}
use freestanding_custom_c_li.Heap.Cells.{
  Row-le, Cell, taken, vacant, body, frees, Row, frees_append,
}
use freestanding_custom_c_li.Heap.Tiled.{Tiled}
use freestanding_custom_c_li.Heap.Sound.{Sound, taken_tags}
use freestanding_custom_c_li.Heap.Live.{frees-length, Arranges-length}
use freestanding_custom_c_li.Heap.Report.{
  print_loop, print_heap, block_line, separator, length_loop, total_loop, heap_free_list_length,
  heap_free_total_size,
}
use mathlib.Core.List.{append_assoc}
use mathlib.Core.List.Permᴰ
use mathlib.Core.Path.{subst}

-- The header of a cell has the size of the cell.
cell-size :
    (bottom dummy : ℕ) (a : Arena) (bs : List Block) (xs ys : List Cell) (c : Cell)
    → Tiled bottom dummy a bs (xs ++ (c ∷ ys))
    → size a.mem (body c).at ≡ (body c).bytes
cell-size bottom dummy a bs xs ys (taken b) t = (taken_tags bottom dummy a bs xs ys b t).0.0
cell-size bottom dummy a bs xs ys (vacant b) t =
    let f = find b t.all (frees xs) (frees ys) (frees_append xs (vacant b ∷ ys)) in
    (FreeList-Sized a.mem 0 a.head b f.before f.behind
      (subst (λ l. FreeList a.mem 0 a.head l) f.whole t.list)).0

-- The lines on the cells.
abbrev pub lines : Arena → (start : ℕ) → List Cell → List Bytes
lines a start cs = map (λ c. block_line a start (body c).at) cs

walk :
    (bottom dummy fuel p : ℕ) (a : Arena) (bs : List Block) (xs ys : List Cell)
    → Tiled bottom dummy a bs (xs ++ ys)
    → a.p_brk ≡ dummy + 16
    → Row p ys dummy
    → length ys < fuel
    → print_loop fuel a bottom p ≡ some (lines a bottom ys ++ (separator ∷ []))
unfolding print_loop
walk bottom dummy zero p a bs xs ys t brk r h = absurd (omega arith)
walk bottom dummy (suc fuel) p a bs xs [] t brk r h =
    rw ((==_iff (p + 16) a.p_brk).1 (omega (arith, r, brk))) refl
walk bottom dummy (suc fuel) p a bs xs (c ∷ ys) t brk (e, r) h =
    let fits = cell-size bottom dummy a bs xs ys c t in
    let edge = Row-le (foot (body c) + 16) dummy ys r in
    let there : footer_of a.mem p + 16 ≡ foot (body c) + 16 =
      ap (λ q. footer_of a.mem q + 16) (sym e) ∙ ap (λ n. (body c).at + 16 + n + 16) fits in
    let rest =
      walk bottom dummy fuel (foot (body c) + 16) a bs (xs ++ (c ∷ [])) ys
        (subst (λ l. Tiled bottom dummy a bs l) (sym (append_assoc xs (c ∷ []) ys)) t) brk r
        (omega arith) in
    rw
      (
        ==_false (p + 16) a.p_brk (omega (arith, e, brk)),
        there,
        ==_false (foot (body c) + 16) p (omega (arith, e)),
        rest,
      )
      (ap (λ q. some (block_line a bottom q ∷ (lines a bottom ys ++ (separator ∷ [])))) (sym e))

-- `__print_heap` on a heap in order, with more fuel than blocks and with the bottom of the heap as
-- its start: it ends, and writes a separator, then for each block of the heap, free or in use,
-- once and in the order of the addresses, the line on that block, and then a separator; it never
-- takes the heap for an infinite loop.
pub print_heap-lines :
    (bottom dummy fuel : ℕ) (a : Arena) (cells : List Cell)
    → Sound bottom dummy a cells
    → length cells < fuel
    → print_heap fuel a bottom ≡ some (separator ∷ (lines a bottom cells ++ (separator ∷ [])))
unfolding print_heap
print_heap-lines bottom dummy fuel a cells s h =
    let loop =
      walk bottom dummy fuel (bottom + 16) a s.blocks [] cells s.tiled s.reaches s.tiled.row h in
    rw loop refl

-- The bytes of the blocks.
abbrev pub total : List Block → ℕ
total [] = 0
total (b ∷ bs) = b.bytes + total bs

Arranges-total : {bs fs : List Block} → Arranges bs fs → total bs ≡ total fs
Arranges-total Permᴰ.nil = refl
Arranges-total (Permᴰ.cons e d) =
    let h = Arranges-total d in let f = ap (λ (b : Block). b.bytes) e in omega (arith, h, f)
Arranges-total (Permᴰ.swap e f) =
    let g = ap (λ (b : Block). b.bytes) e in
    let h = ap (λ (b : Block). b.bytes) f in omega (arith, g, h)
Arranges-total (Permᴰ.trans d e) = Arranges-total d ∙ Arranges-total e

frees-total : (p q : ℕ) (cs : List Cell) → Row p cs q → p + total (frees cs) ≤ q
frees-total p q [] e = omega (arith, e)
frees-total p q (taken b ∷ cs) (e, r) =
    let h = frees-total (foot b + 16) q cs r in omega (arith, e, h)
frees-total p q (vacant b ∷ cs) (e, r) =
    let h = frees-total (foot b + 16) q cs r in omega (arith, e, h)

length_loop-list :
    (fuel : ℕ) (m : Words) (count prev p : ℕ) (bs : List Block)
    → FreeList m prev p bs
    → length bs < fuel
    → count + length bs < 2 ^ 64
    → length_loop fuel m count p ≡ some (count + length bs)
unfolding length_loop
length_loop-list zero m count prev p bs list h low = absurd (omega arith)
length_loop-list (suc fuel) m count prev p [] list h low =
    rw ((==_iff p 0).1 list) (ap (λ n. some n) (omega arith))
length_loop-list (suc fuel) m count prev p (b ∷ bs) (e, b1, fits, back, more) h low =
    let next = (count + 1) % 2 ^ 64 in
    let up : next ≡ count + 1 = omega arith in
    let sum : count + 1 + length bs ≡ count + suc (length bs) = omega arith in
    rw (==_false p 0 (λ z. b1 (sym e ∙ z))) (
      ap (λ q. length_loop fuel m next (m q)) e
      ∙ length_loop-list fuel m next b.at (m b.at) bs more (omega arith) (omega arith)
      ∙ ap (λ n. some (n + length bs)) up
      ∙ ap (λ n. some n) sum)

total_loop-list :
    (fuel : ℕ) (m : Words) (sum prev p : ℕ) (bs : List Block)
    → FreeList m prev p bs
    → length bs < fuel
    → sum + total bs < 2 ^ 64
    → total_loop fuel m sum p ≡ some (sum + total bs)
unfolding total_loop
total_loop-list zero m sum prev p bs list h low = absurd (omega arith)
total_loop-list (suc fuel) m sum prev p [] list h low =
    rw ((==_iff p 0).1 list) (ap (λ n. some n) (omega arith))
total_loop-list (suc fuel) m sum prev p (b ∷ bs) (e, b1, fits, back, more) h low =
    let here : size m p ≡ b.bytes = ap (size m) e ∙ fits.0 in
    let next = (sum + b.bytes) % 2 ^ 64 in
    let up : next ≡ sum + b.bytes = omega arith in
    let whole : sum + b.bytes + total bs ≡ sum + (b.bytes + total bs) = omega arith in
    rw (==_false p 0 (λ z. b1 (sym e ∙ z)), here)
      (ap (λ q. total_loop fuel m next (m q)) e
        ∙ total_loop-list fuel m next b.at (m b.at) bs more (omega arith) (omega arith)
        ∙ ap (λ n. some (n + total bs)) up
        ∙ ap (λ n. some n) whole)

-- `__heap_free_list_length` and `__heap_free_total_size` on a heap in order, with more fuel than
-- free blocks: both end, and return the number of the free blocks that lie in the heap and the sum
-- of their sizes, without a wrap.
pub heap_free_list_length-counts :
    (bottom dummy fuel : ℕ) (a : Arena) (cells : List Cell) (s : Sound bottom dummy a cells)
    → length s.blocks < fuel
    → (heap_free_list_length fuel a ≡ some (length (frees cells)))
      × (heap_free_total_size fuel a ≡ some (total (frees cells)))
unfolding heap_free_list_length heap_free_total_size
heap_free_list_length-counts bottom dummy fuel a cells s h =
    let t = s.tiled in
    let low = t.low in
    let number = frees-length (bottom + 16) dummy cells t.row in
    let bytes = frees-total (bottom + 16) dummy cells t.row in
    let same_number = Arranges-length t.all in
    let same_bytes = Arranges-total t.all in
    (
      length_loop-list fuel a.mem 0 0 a.head s.blocks t.list h (omega arith)
          ∙ ap (λ n. some n) (omega arith),
      total_loop-list fuel a.mem 0 0 a.head s.blocks t.list h (omega arith)
          ∙ ap (λ n. some n) (omega arith),
    )
