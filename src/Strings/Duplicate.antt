-- ===== src/Strings/Duplicate.antt =====
-- `strdup` (src/string/strdup.c) on the heap of src/stdlib.c: `malloc` changes the words of the heap,
-- and the string functions read and write the bytes of the same memory. The fuel is that of the
-- string functions, `rounds` and `steps` are those of `malloc`.
use freestanding_custom_c_li.Prelude.{
  ℕ, ◌+◌, ◌≤◌, ◌≡◌, List, Option, some, Bytes, length, ◌==◌, if◌then◌else◌, ◌>>=◌,
}
use freestanding_custom_c_li.Heap.{Arena, Pages, malloc, free}
use freestanding_custom_c_li.Heap.Blocks.{Block, Within, Inside}
use freestanding_custom_c_li.Heap.FreeList.{FreeList}
use freestanding_custom_c_li.Heap.Allocate.{Allocated}
use freestanding_custom_c_li.Strings.Memory.{Mem, Holds}
use freestanding_custom_c_li.Strings.{strlen, strcpy}
use freestanding_custom_c_li.Strings.Bytewise.{word_at, view, put}

-- The bytes from `str` on, one more than `n`, are in none of the blocks.
abbrev pub Spared : List Block → (str n : ℕ) → Type 0
Spared bs str n = (a : ℕ) → str ≤ a → a ≤ str + n → Inside (word_at a) bs → ⊥

module _ (k : Pages) where
  open k use {World}

  -- `if (strcpy(copy, str) != len) { free(copy); return NULL; }`, with the bytes put back into words.
  copied_or_freed : Arena → (copy len : ℕ) → World → ℕ × Mem → ℕ × Arena × World
  copied_or_freed h copy len w (n, m) =
      let filled : Arena = record h { mem = put h.mem m } in
      let (freed, w') = free k filled copy w in
      if n == len then (copy, filled, w) else (0, freed, w')

  pub strdup : (fuel rounds steps : ℕ) → Arena → (str : ℕ) → World → Option (ℕ × Arena × World)
  strdup fuel rounds steps a str w = strlen fuel (view a.mem) str >>= λ len.
      malloc k rounds steps a len w >>= λ (copy, h, w').
      if copy == 0
      then some (0, h, w')
      else (strcpy fuel (view h.mem) copy str >>= λ r. some (copied_or_freed h copy len w' r))

  -- A copy of the string `s` in a block from the free blocks `bs`.
  pub record Duplicated (a : Arena) (bs : List Block) (s : Bytes) (w : World)
      (res : Option (ℕ × Arena × World)) : Type 0 where
    pub block : Block
    pub heap : Arena
    pub ends : res ≡ some (block.at + 16, heap, w)
    pub free_before : (x : ℕ) → Within x block → Inside x bs
    pub room : length s ≤ block.bytes
    pub left : List Block
    pub allocated : Allocated a bs left block (block.at + 16, heap)
    pub holds : Holds (view heap.mem) (block.at + 16) s
    pub same : (x : ℕ) → (Inside (word_at x) bs → ⊥) → view heap.mem x ≡ view a.mem x
