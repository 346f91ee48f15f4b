-- ===== src/Heap/Examples.antt =====
-- Examples for src/stdlib.c.
use freestanding_custom_c_li.Prelude.{
  ℕ, ◌+◌, ◌≡◌, ◌==◌, if◌then◌else◌, ◌-◌, ◌^◌, refl, some, List, [], ◌∷◌, inl, arith,
}
use freestanding_custom_c_li.Heap.{
  Arena, Pages, malloc, Words, store, init, release, allocate, detach, split, insert_into_list,
  remove_from_list, link_back, merge_previous, merge_next,
}
use freestanding_custom_c_li.Heap.Blocks.{Block, Separate}
use freestanding_custom_c_li.Heap.FreeList.{FreeList}
use freestanding_custom_c_li.Heap.Insert.{Becomes}
use freestanding_custom_c_li.Heap.Remove.{remove_from_list-Becomes}
use freestanding_custom_c_li.Heap.Malloc.{malloc-refused, malloc-wrapped}

abbrev empty : Arena
empty = record { mem = λ _. 0; head = 0; p_brk = 8192 }

-- Three words of the heap: the head of the free list, with the link and the size of that block.
view : Arena → List ℕ
view a = a.head ∷ a.mem a.head ∷ a.mem (a.head + 8) ∷ []

fresh : Arena
unfolding init
fresh = init empty 4096 4096

fresh-view : view fresh ≡ 4112 ∷ 0 ∷ 4032 ∷ []
unfolding view fresh init
fresh-view = refl

first : Arena
first = (allocate fresh 4112 64).1

first-view : view first ≡ 4208 ∷ 0 ∷ 3936 ∷ []
unfolding view first fresh init allocate detach split insert_into_list remove_from_list link_back
first-view = refl

second : Arena
second = (allocate first 4208 128).1

-- The two blocks are freed in the order of their allocation, and the whole heap is free again.
freed-view : view (release (release second 4112) 4208) ≡ 4112 ∷ 0 ∷ 4032 ∷ []
unfolding view second first fresh init allocate detach split insert_into_list remove_from_list
    link_back release merge_previous merge_next
freed-view = refl

-- Three blocks of 32 bytes. The first two are on the free list, the third is not.
abbrev x_block : Block
x_block = record { at = 16; bytes = 32 }

abbrev y_block : Block
y_block = record { at = 112; bytes = 32 }

abbrev z_block : Block
z_block = record { at = 208; bytes = 32 }

abbrev words : Words
words =
    store
      (store
        (store (store (store (store (store (store (λ _. 0) 16 112) 24 32) 120 32) 160 16) 216 32)
          264 32)
        72 32)
      168 32

abbrev arena : Arena
arena = record { mem = words; head = 16; p_brk = 4096 }

arena-FreeList : FreeList words 0 16 (x_block ∷ y_block ∷ [])
arena-FreeList =
    (refl, omega arith, (refl, refl), refl, (refl, omega arith, (refl, refl), refl, refl))

xy-Separate : Separate (x_block ∷ y_block ∷ [])
xy-Separate = (λ a w i. omega arith, (λ a w i. i, tt))

zxy-Separate : Separate (z_block ∷ x_block ∷ y_block ∷ [])
zxy-Separate = (λ a w i. omega arith, xy-Separate)

remove_from_list-Becomes_example :
    Becomes arena (x_block ∷ []) (x_block ∷ []) (remove_from_list arena 112 0)
remove_from_list-Becomes_example =
    remove_from_list-Becomes arena y_block 0 (inl refl) (x_block ∷ []) [] arena-FreeList xy-Separate

-- A free list of one block, of 128 bytes.
abbrev wide_block : Block
wide_block = record { at = 16; bytes = 128 }

abbrev wide_arena : Arena
wide_arena = record { mem = store (store (λ _. 0) 24 128) 168 128; head = 16; p_brk = 4096 }

-- A kernel that gives no memory.
abbrev no_pages : Pages
no_pages = record {
  World = ℕ;
  brk = λ p w. (4096, w);
  mmap = λ n w. (2 ^ 64 - 1, w);
  munmap = λ p n w. w;
}

-- The heap has 128 bytes, and the break stays at 4096.
malloc-refused_example : malloc no_pages 1 2 wide_arena 1000 7 ≡ some (0, wide_arena, 7)
malloc-refused_example =
    malloc-refused no_pages 0 2 wide_arena 1000 (wide_block ∷ []) 7 7
      (refl, omega arith, (refl, refl), refl, refl) (omega arith) (omega arith) refl refl

malloc-wrapped_example :
    malloc no_pages 1 2 wide_arena (2 ^ 64 - 1) 7 ≡ malloc no_pages 1 2 wide_arena 0 7
malloc-wrapped_example =
    malloc-wrapped no_pages 0 2 wide_arena (2 ^ 64 - 1) 7 (omega arith) (omega arith)

-- A kernel that gives all the memory that it is asked for, from 4096 on.
abbrev all_pages : Pages
all_pages = record {
  World = ℕ;
  brk = λ p w. (if p == 0 then 4096 else p, w);
  mmap = λ n w. (2 ^ 64 - 1, w);
  munmap = λ p n w. w;
}
