-- ===== src/Heap.antt =====
-- src/stdlib.c: the heap, `__heap_init`, `extend`, `malloc` and `free`.
-- Memory is a function from addresses to 64-bit words; every access of the source is a word at a
-- multiple of 8. An address is a number, and 0 is NULL: pointer arithmetic stays inside the heap.
-- A block is a header, its payload and a footer. The header is two words, `info` and `size`, and so
-- is the footer. The weak functions `__malloc_lock` and `__malloc_unlock` do nothing and are left out.
pub mod Blocks
pub mod FreeList
pub mod Arrange
pub mod Cells
pub mod Coalesce
pub mod Tiled
pub mod Merge
pub mod Joins
pub mod Neighbours
pub mod Sound
pub mod Break
pub mod Release
pub mod Grant
pub mod AddBlock
pub mod GrowLast
pub mod Extend
pub mod Serve
pub mod Requests
pub mod Boot
pub mod Live
pub mod Reached
pub mod Report
pub mod Insert
pub mod Remove
pub mod Split
pub mod Allocate
pub mod Malloc
pub mod Init
mod Examples
mod Lifetime
use freestanding_custom_c_li.Prelude.{
  ℕ, zero, suc, ◌+◌, ◌-◌, ◌*◌, ◌/◌, ◌%◌, ◌^◌, Bool, true, false, not, Option, none, some, ltb, leb,
  ◌==◌, if◌then◌else◌, ◌>>=◌,
}

abbrev pub Words : Type 0
Words = ℕ → ℕ

abbrev pub store : Words → ℕ → ℕ → Words
store m p c q = if p == q then c else m q

-- `__HEAP_MEMORY_USED_NORMAL` and `__HEAP_MEMORY_USED_MMAP`
abbrev pub used_normal : ℕ
used_normal = 2 ^ 63

abbrev pub used_mmap : ℕ
used_mmap = 2 ^ 62

-- The static variables `head_` and `p_brk_`, with the memory.
pub record Arena : Type 0 where
  pub mem : Words
  pub head : ℕ
  pub p_brk : ℕ

-- `->size` of a header or a footer; `->info` is the word at the address itself.
abbrev pub size : Words → ℕ → ℕ
size m p = m (p + 8)

abbrev pub header_of : Words → ℕ → ℕ
header_of m footer = footer - 16 - size m footer

abbrev pub footer_of : Words → ℕ → ℕ
footer_of m header = header + 16 + size m header

-- `if (curr_head->info.next != NULL) footer_of(curr_head->info.next)->info.prev = curr_head;`
pub link_back : Words → ℕ → Words
link_back m curr_head =
    let next = m curr_head in if next == 0 then m else store m (footer_of m next) curr_head

pub insert_into_list : Arena → (prev_head curr_head curr_foot : ℕ) → Arena
insert_into_list a prev_head head_arg foot_arg =
    let curr_head = if head_arg == 0 then header_of a.mem foot_arg else head_arg in
    let curr_foot = if foot_arg == 0 then footer_of a.mem curr_head else foot_arg in
    let next = if prev_head == 0 then a.head else a.mem prev_head in
    let linked = store (store a.mem curr_head next) curr_foot prev_head in
    if prev_head == 0
    then record a { mem = link_back linked curr_head; head = curr_head }
    else record a { mem = link_back (store linked prev_head curr_head) curr_head }

pub remove_from_list : Arena → (header footer : ℕ) → Arena
remove_from_list a header_arg footer_arg =
    let header = if header_arg == 0 then header_of a.mem footer_arg else header_arg in
    let footer = if footer_arg == 0 then footer_of a.mem header else footer_arg in
    let prev = a.mem footer in
    let next = a.mem header in
    if prev == 0
    then (if next == 0
        then record a { head = 0 }
        else record a { mem = store a.mem (footer_of a.mem next) 0; head = next })
    else if next == 0
    then record a { mem = store a.mem prev 0 }
    else (let m = store a.mem prev next in record a { mem = store m (footer_of m next) prev })

-- `init`: a dummy footer, one free block, a dummy header. `p_brk_` is set before.
pub init : Arena → (head size : ℕ) → Arena
init a head bytes =
    let bottom = head + bytes - 16 in
    let first_header = head + 16 in
    let first_footer = bottom - 16 in
    let m1 = store (store a.mem head used_normal) bottom used_normal in
    let m2 = store (store m1 first_header 0) (first_header + 8) (bytes - 64) in
    let m3 = store m2 (first_footer + 8) (size m2 first_header) in
    record a { mem = store m3 first_footer 0; head = first_header }

-- `(n + 15) & ~0xF` and `(n + 4095) & ~0xfff`
abbrev pub align16 : ℕ → ℕ
align16 n = (n + 15) % 2 ^ 64 / 16 * 16

abbrev pub align_page : ℕ → ℕ
align_page n = (n + 4095) % 2 ^ 64 / 4096 * 4096

-- `memcpy_small` of 32 bytes, the last footer and the dummy header.
pub move_tags : Words → (dst src : ℕ) → Words
move_tags m dst src =
    store (store (store (store m dst (m src)) (dst + 8) (m (src + 8))) (dst + 16) (m (src + 16)))
      (dst + 24) (m (src + 24))

-- The two cases of `extend` behind the system call: the last block is free, or it is not.
pub grow_last : Arena → (bottom delta : ℕ) → Arena
grow_last a bottom delta =
    let last = header_of a.mem bottom in
    let m1 = move_tags a.mem (bottom + delta) bottom in
    let m2 = store m1 (last + 8) ((size m1 last + delta) % 2 ^ 64) in
    record a { mem = store m2 (footer_of m2 last + 8) (size m2 last) }

pub add_block : Arena → (bottom delta new_end : ℕ) → Arena
add_block a bottom delta new_end =
    let new_header = bottom + 16 in
    let m1 = store a.mem (new_header + 8) ((delta + 2 ^ 64 - 32) % 2 ^ 64) in
    let new_footer = footer_of m1 new_header in
    let m2 = store m1 (new_footer + 8) (size m1 new_header) in
    let b = insert_into_list (record a { mem = m2 }) 0 new_header new_footer in
    record b { mem = store b.mem (new_end - 16) used_normal }

-- `while (current)`: the first free block of `n` bytes at least, or 0.
pub find_fit : ℕ → Words → (current n : ℕ) → Option ℕ
find_fit zero m current n = none
find_fit (suc fuel) m current n =
    let rest = find_fit fuel m (m current) n in
    if current == 0 then some 0 else if leb n (size m current) then some current else rest

-- The block `current` is cut down to `n` bytes, and the rest is a free block of its own.
pub split : Arena → (current n : ℕ) → Arena
split a current n =
    let total = size a.mem current in
    let prev = a.mem (footer_of a.mem current) in
    let next_header = current + 32 + n in
    let m1 = store a.mem (current + 8) n in
    let m2 = store m1 (footer_of m1 current + 8) n in
    let m3 = store m2 (footer_of m2 current) prev in
    let m4 = store m3 (next_header + 8) (total - n - 32) in
    let next_footer = footer_of m4 next_header in
    let m5 = store m4 (next_footer + 8) (size m4 next_header) in
    insert_into_list (record a { mem = m5 }) current next_header next_footer

-- The block is taken off the list and marked as used.
pub detach : Arena → (current : ℕ) → ℕ × Arena
detach a current =
    let footer = footer_of a.mem current in
    let b = remove_from_list a current footer in
    (current + 16, record b { mem = store (store b.mem current used_normal) footer used_normal })

-- The part of `malloc` behind the search.
pub allocate : Arena → (current n : ℕ) → ℕ × Arena
allocate a current n =
    detach (if ltb 40 (size a.mem current - n) then split a current n else a) current

-- The two cases of `free`: the block before the freed one is free, and the one behind it.
pub merge_previous : Arena → (prev_footer : ℕ) → Arena
merge_previous a prev_footer =
    let new_head = header_of a.mem prev_footer in
    let b = remove_from_list a new_head prev_footer in
    let m1 = store b.mem (new_head + 8) ((size b.mem new_head + size b.mem b.head + 32) % 2 ^ 64) in
    let new_footer = footer_of m1 new_head in
    let m2 = store (store m1 (new_footer + 8) (size m1 new_head)) new_footer 0 in
    record b { mem = link_back (store m2 new_head (m2 b.head)) new_head; head = new_head }

pub merge_next : Arena → (next_header : ℕ) → Arena
merge_next a next_header =
    let b = remove_from_list a next_header 0 in
    let m1 =
      store b.mem (b.head + 8) ((size b.mem b.head + size b.mem next_header + 32) % 2 ^ 64) in
    let new_footer = footer_of m1 b.head in
    record b { mem = store (store m1 (new_footer + 8) (size m1 b.head)) new_footer 0 }

-- `free` of a block of the heap, behind the tests for NULL and for a mapping.
pub release : Arena → (head : ℕ) → Arena
release a head =
    let prev_footer = head - 16 in
    let next_header = footer_of a.mem head + 16 in
    let b = insert_into_list a 0 head 0 in
    let c = if b.mem prev_footer == used_normal then b else merge_previous b prev_footer in
    if c.mem next_header == used_normal then c else merge_next c next_header

-- The system calls that the heap makes, on a world of their own.
pub record Pages : Type 1 where
  pub World : Type 0
  pub brk : ℕ → World → ℕ × World
  pub mmap : ℕ → World → ℕ × World
  pub munmap : ℕ → ℕ → World → World

module _ (k : Pages) where
  open k use {World, brk, mmap, munmap}

  -- `none` is `exit(EXIT_FAILURE_BAD_HEAP_INITIALIZATION)`.
  pub heap_init : Arena → World → Option Arena × World
  heap_init a w =
      let (start, w') = brk 0 w in
      let bottom = align16 start in
      let top = align_page ((bottom + 1024) % 2 ^ 64) in
      let (p_brk, w'') = brk top w' in
      if p_brk == top
      then (some (init (record a { p_brk = p_brk }) bottom (top - bottom)), w'')
      else (none, w'')

  pub extend : Arena → ℕ → World → Bool × Arena × World
  extend a n w =
      let old_end = a.p_brk in
      let bottom = old_end - 32 in
      let (new_end, w') = brk (align_page ((old_end + n) % 2 ^ 64)) w in
      let delta = (new_end + 2 ^ 64 - old_end) % 2 ^ 64 in
      let b : Arena = record a { p_brk = new_end } in
      if old_end == new_end
      then (false, a, w')
      else if b.mem bottom == used_normal
      then (true, add_block b bottom delta new_end, w')
      else (true, grow_last b bottom delta, w')

  -- An allocation of 128 KiB or more.
  pub map_block : Arena → ℕ → World → ℕ × Arena × World
  map_block a n w =
      let bytes = align_page ((n + 16) % 2 ^ 64) in
      let (ptr, w') = mmap bytes w in
      if leb (2 ^ 64 - 4095) ptr
      then (0, a, w')
      else (ptr + 16, record a { mem = store (store a.mem ptr used_mmap) (ptr + 8) bytes }, w')

  -- The label `malloc_after_lock`; `rounds` bounds the jumps to it and `fuel` the searches.
  pub malloc_after_lock : (rounds fuel : ℕ) → Arena → ℕ → World → Option (ℕ × Arena × World)
  malloc_after_lock zero fuel a n w = none
  malloc_after_lock (suc rounds) fuel a n w =
      let n16 = align16 n in
      let grown = if ltb n16 32 then 32 else n16 in
      let (ok, b, w') = extend a ((grown + 32) % 2 ^ 64) w in
      let again = malloc_after_lock rounds fuel b grown w' in
      let search = find_fit fuel a.mem a.head n16 >>= λ current.
      if current == 0
      then (if ok then again else some (0, b, w'))
      else (let (ptr, c) = allocate a current n16 in some (ptr, c, w)) in
      if leb (2 ^ 17) n16 then some (map_block a n16 w) else search

  pub malloc : (rounds fuel : ℕ) → Arena → ℕ → World → Option (ℕ × Arena × World)
  malloc rounds fuel a n w = malloc_after_lock rounds fuel a n w

  pub free : Arena → (ptr : ℕ) → World → Arena × World
  free a ptr w =
      let head = ptr - 16 in
      if ptr == 0
      then (a, w)
      else if a.mem head == used_mmap
      then (a, munmap head (size a.mem head) w)
      else (release a head, w)
