-- ===== src/Heap/Merge.antt =====
-- The two merges of `free` in src/stdlib.c, on a heap with its invariant.
use freestanding_custom_c_li.Prelude.{
  ℕ, ◌+◌, ◌%◌, ◌^◌, ◌<◌, ◌≡◌, ◌≢◌, refl, sym, arith, ==_iff, ==_false,
}
use freestanding_custom_c_li.Heap.{
  Arena, Words, store, header_of, link_back, remove_from_list, merge_previous, merge_next,
}
use freestanding_custom_c_li.Heap.Blocks.{Block, foot, Within}
use freestanding_custom_c_li.Heap.FreeList.{Sized}
use freestanding_custom_c_li.Heap.Coalesce.{joined}

-- The words that say that `j` is a free block, the first of the list.
abbrev pub grown : Words → Block → Words
grown m j = store (store (store m (j.at + 8) j.bytes) (foot j + 8) j.bytes) (foot j) 0

pub grown-Sized : (m : Words) (j : Block) → Sized (grown m j) j
grown-Sized m j = (
  rw
      (
        ==_false (foot j) (j.at + 8) (omega arith),
        ==_false (foot j + 8) (j.at + 8) (omega arith),
        (==_iff (j.at + 8) (j.at + 8)).1 refl,
      )
      refl,
  rw (==_false (foot j) (foot j + 8) (omega arith), (==_iff (foot j + 8) (foot j + 8)).1 refl) refl,
)

pub grown-foot : (m : Words) (j : Block) → grown m j (foot j) ≡ 0
grown-foot m j = rw ((==_iff (foot j) (foot j)).1 refl) refl

pub grown-other :
    (m : Words) (j : Block) (x : ℕ) → x ≢ j.at + 8 → x ≢ foot j → x ≢ foot j + 8 → grown m j x ≡ m x
grown-other m j x h f k =
    rw
      (
        ==_false (foot j) x (λ z. f (sym z)),
        ==_false (foot j + 8) x (λ z. k (sym z)),
        ==_false (j.at + 8) x (λ z. h (sym z)),
      )
      refl

pub grown-outside : (m : Words) (j : Block) (x : ℕ) → (Within x j → ⊥) → grown m j x ≡ m x
grown-outside m j x out =
    grown-other m j x (λ e. out (omega (arith, e))) (λ e. out (omega (arith, e)))
      (λ e. out (omega (arith, e)))

module _ (a : Arena) (p b : Block) (next_to : b.at ≡ foot p + 16) (low : foot b < 2 ^ 63)
    (p1 : p.at ≢ 0) where
  abbrev pub whole : Block
  whole = joined p b

  -- `merge_previous` when the list without `p` begins with `b`.
  pub merge_previous-grown :
      (c : Arena)
      → Sized a.mem p
      → remove_from_list a p.at (foot p) ≡ c
      → Sized c.mem p
      → c.head ≡ b.at
      → Sized c.mem b
      → merge_previous a (foot p) ≡ record c {
        mem = link_back (store (grown c.mem whole) p.at (c.mem b.at)) p.at;
        head = p.at;
      }
  unfolding merge_previous
  merge_previous-grown c fits_p removed fits_p' head fits_b =
      let up : header_of a.mem (foot p) ≡ p.at = omega (arith, fits_p.1) in
      let sum : (p.bytes + b.bytes + 32) % 2 ^ 64 ≡ whole.bytes = omega arith in
      rw (up, removed, head, fits_p'.0, fits_b.0, sum)
        (rw
          (
            (==_iff (p.at + 8) (p.at + 8)).1 refl,
            ==_false (foot whole) b.at (omega arith),
            ==_false (foot whole + 8) b.at (omega arith),
            ==_false (p.at + 8) b.at (omega arith),
          )
          refl)

  pub merge_next-grown :
      (c : Arena)
      → remove_from_list a b.at 0 ≡ c
      → c.head ≡ p.at
      → Sized c.mem p
      → Sized c.mem b
      → merge_next a b.at ≡ record c { mem = grown c.mem whole }
  unfolding merge_next
  merge_next-grown c removed head fits_p fits_b =
      let sum : (p.bytes + b.bytes + 32) % 2 ^ 64 ≡ whole.bytes = omega arith in
      rw (removed, head, fits_p.0, fits_b.0, sum) (rw ((==_iff (p.at + 8) (p.at + 8)).1 refl) refl)
