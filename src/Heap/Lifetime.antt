-- ===== src/Heap/Lifetime.antt =====
-- Examples for the heap of src/stdlib.c as a whole.
use freestanding_custom_c_li.Prelude.{
  ◌+◌, ◌*◌, inl, ℕ, ◌-◌, ◌≡◌, ◌^◌, ◌==◌, if◌then◌else◌, refl, some, true, [], ◌∷◌, ◌++◌, arith,
}
use freestanding_custom_c_li.Heap.{
  Arena, Pages, store, used_normal, init, heap_init, malloc, malloc_after_lock, find_fit, extend,
  free, allocate, detach, split, insert_into_list, remove_from_list, link_back,
}
use freestanding_custom_c_li.Heap.Blocks.{Block}
use freestanding_custom_c_li.Heap.Cells.{taken, vacant}
use freestanding_custom_c_li.Heap.Coalesce.{coalesce}
use freestanding_custom_c_li.Heap.Sound.{Sound}
use freestanding_custom_c_li.Heap.Release.{free-Sound}
use freestanding_custom_c_li.Heap.AddBlock.{Extended}
use freestanding_custom_c_li.Heap.Extend.{extend-Extended}
use freestanding_custom_c_li.Heap.Requests.{Answered, malloc-Allocation, free-malloc}
use freestanding_custom_c_li.Heap.Reached.{Reached, started, allocated, Safe, Reached-Safe}
use freestanding_custom_c_li.Heap.Report.{
  separator, print_heap, heap_free_list_length, heap_free_total_size,
}
use freestanding_custom_c_li.Heap.Report.Walk.{
  lines, print_heap-lines, heap_free_list_length-counts,
}
use mathlib.Core.List.Permᴰ

-- A kernel that gives all the memory that it is asked for, from 4096 on.
abbrev generous : Pages
generous = record {
  World = ℕ;
  brk = λ p w. (if p == 0 then 4096 else p, w);
  mmap = λ n w. (2 ^ 64 - 1, w);
  munmap = λ p n w. w;
}

-- One free block of 128 bytes.
abbrev only : Block
only = record { at = 4112; bytes = 128 }

abbrev heap : Arena
heap = record {
  mem = store (store (store (store (λ _. 0) 4096 used_normal) 4120 128) 4264 128) 4272 used_normal;
  head = 4112;
  p_brk = 4288;
}

abbrev heap_sound : Sound 4096 4272 heap (vacant only ∷ [])
heap_sound = record {
  blocks = only ∷ [];
  tiled = record {
    row = (refl, refl);
    list = (refl, omega arith, (refl, refl), refl, refl);
    all = Permᴰ.refl (only ∷ []);
    tagged = tt;
    footer_below = refl;
    header_above = refl;
    low = omega arith;
  };
  coalesced = (tt, tt);
  reaches = refl;
}

-- A block in use of 32 bytes, and a free one of 64.
abbrev first : Block
first = record { at = 4112; bytes = 32 }

abbrev second : Block
second = record { at = 4176; bytes = 64 }

abbrev mixed : Arena
mixed = record {
  mem = store (store (store (store heap.mem 4112 used_normal) 4120 32) 4160 used_normal) 4168 32;
  head = 4176;
  p_brk = 4288;
}

abbrev mixed' : Arena
mixed' = record mixed { mem = store (store mixed.mem 4184 64) 4264 64 }

abbrev mixed_sound : Sound 4096 4272 mixed' (taken first ∷ vacant second ∷ [])
mixed_sound = record {
  blocks = second ∷ [];
  tiled = record {
    row = (refl, (refl, refl));
    list = (refl, omega arith, (refl, refl), refl, refl);
    all = Permᴰ.refl (second ∷ []);
    tagged = ((refl, refl), refl, refl, tt);
    footer_below = refl;
    header_above = refl;
    low = omega arith;
  };
  coalesced = (tt, tt);
  reaches = refl;
}

free-Sound_example :
    (r : Arena) × (free generous mixed' 4128 7 ≡ (r, 7))
    × Sound 4096 4272 r (coalesce ([] ++ (vacant first ∷ vacant second ∷ [])))
free-Sound_example =
    free-Sound 4096 4272 generous mixed' 7 [] (vacant second ∷ []) first mixed_sound

extend-Extended_example :
    (r : Arena) × (extend generous heap 64 7 ≡ (true, r, 7))
    × Extended 4096 4272 (8192 - 4288) (vacant only ∷ []) (only ∷ []) r
extend-Extended_example =
    extend-Extended generous 4096 4272 8192 64 heap (vacant only ∷ []) 7 7 heap_sound (omega arith)
      (omega arith) refl refl

-- The heap has 128 bytes, and is extended for 1000.
malloc-Allocation_example : Answered generous 4096 1000 3 0 heap (vacant only ∷ []) 7
malloc-Allocation_example =
    malloc-Allocation generous 4096 4272 8192 0 3 1000 heap (vacant only ∷ []) 7 7 heap_sound
      (omega arith) (omega arith) (omega arith) refl refl

free-malloc_example :
    (p : ℕ) × (g : Arena) × (r : Arena) × (malloc generous 1 2 heap 10 7 ≡ some (p, g, 7))
    × (free generous g p 7 ≡ (r, 7))
    × Sound 4096 4272 r (vacant only ∷ [])
free-malloc_example =
    free-malloc generous 4096 4272 0 2 10 heap (vacant only ∷ []) 7 heap_sound (omega arith)
      (omega arith) (omega arith)

-- "hi" below the heap.
abbrev greeting : Arena
greeting = record heap { mem = store heap.mem 104 (b'h' + 256 * b'i') }

-- The process starts, and asks for 100 bytes.
booted : Arena
unfolding init
booted = init (record { mem = λ _. 0; head = 0; p_brk = 8192 }) 4096 4096

after : Arena
after = (allocate booted 4112 112).1

abbrev given : Block
given = record { at = 4112; bytes = 112 }

booted-Reached : Reached generous 4096 booted [] 7
unfolding booted heap_init
booted-Reached =
    started (record { mem = λ _. 0; head = 0; p_brk = 0 }) booted 4096 8192 7 7 7 refl refl
      (omega arith) refl refl refl

after-Reached : Reached generous 4096 after (given ∷ []) 7
unfolding after booted init malloc malloc_after_lock find_fit allocate detach split insert_into_list
    remove_from_list link_back
after-Reached =
    allocated booted after [] given 100 0 8192 7 7 booted-Reached (omega arith) (omega arith)
      (omega arith) (inl refl) refl refl

Reached-Safe_example : Safe generous 4096 after (given ∷ [])
Reached-Safe_example = Reached-Safe generous 4096 after (given ∷ []) 7 after-Reached

print_heap-lines_example :
    print_heap 2 heap 4096
    ≡ some (separator ∷ (lines heap 4096 (vacant only ∷ []) ++ (separator ∷ [])))
print_heap-lines_example =
    print_heap-lines 4096 4272 2 heap (vacant only ∷ []) heap_sound (omega arith)

heap_free_list_length-counts_example :
    (heap_free_list_length 2 heap ≡ some 1) × (heap_free_total_size 2 heap ≡ some 128)
heap_free_list_length-counts_example =
    heap_free_list_length-counts 4096 4272 2 heap (vacant only ∷ []) heap_sound (omega arith)
