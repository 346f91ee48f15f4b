-- ===== src/Heap/Report.antt =====
-- The reports on the heap in the test build of src/stdlib.c: the message of `init`, the two counts of
-- the free list, and `__print_heap`. A report is the list of the texts that are passed to `write`,
-- whose results are dropped. `heap_start` is the static variable of that build. The bytes of a
-- buffer are written before they are read.
pub mod Walk
use freestanding_custom_c_li.Prelude.{
  ℕ, zero, suc, ◌+◌, ◌-◌, ◌%◌, ◌^◌, List, [], ◌∷◌, ◌++◌, Option, none, some, Bytes, take, replicate,
  length, ◌==◌, if◌then◌else◌, ◌>>=◌,
}
use freestanding_custom_c_li.Conversions.{itoa}
use freestanding_custom_c_li.Conversions.Drain.{printer}
use freestanding_custom_c_li.Heap.{Arena, Words, size, footer_of, used_normal}

abbrev pub separator : Bytes
separator =
    b'-' ∷ b'-' ∷ b'-' ∷ b'-' ∷ b'-' ∷ b'-' ∷ b'-' ∷ b'-' ∷ b'-' ∷ b'-' ∷ b'-' ∷ b'-' ∷ b'-' ∷ b'-'
    ∷ b'-' ∷ b'-' ∷ 10 ∷ []

abbrev pub at_start : Bytes
at_start = b'[' ∷ b's' ∷ b't' ∷ b'a' ∷ b'r' ∷ b't' ∷ b' ' ∷ b'+' ∷ b' ' ∷ []

abbrev pub size_is : Bytes
size_is = b']' ∷ b' ' ∷ b'S' ∷ b'i' ∷ b'z' ∷ b'e' ∷ b':' ∷ b' ' ∷ []

abbrev pub in_use : Bytes
in_use =
    b',' ∷ b' ' ∷ b'm' ∷ b'e' ∷ b'm' ∷ b'o' ∷ b'r' ∷ b'y' ∷ b' ' ∷ b'i' ∷ b'n' ∷ b' ' ∷ b'u' ∷ b's'
    ∷ b'e' ∷ b'.' ∷ []

abbrev pub no_next : Bytes
no_next = b',' ∷ b' ' ∷ b'n' ∷ b'e' ∷ b'x' ∷ b't' ∷ b':' ∷ b' ' ∷ b'[' ∷ b'0' ∷ b']' ∷ []

abbrev pub next_is : Bytes
next_is =
    b',' ∷ b' ' ∷ b'n' ∷ b'e' ∷ b'x' ∷ b't' ∷ b':' ∷ b' ' ∷ b'[' ∷ b's' ∷ b't' ∷ b'a' ∷ b'r' ∷ b't'
    ∷ b' ' ∷ b'+' ∷ b' ' ∷ []

abbrev pub no_prev : Bytes
no_prev = b',' ∷ b' ' ∷ b'p' ∷ b'r' ∷ b'e' ∷ b'v' ∷ b':' ∷ b' ' ∷ b'[' ∷ b'0' ∷ b']' ∷ []

abbrev pub prev_is : Bytes
prev_is =
    b',' ∷ b' ' ∷ b'p' ∷ b'r' ∷ b'e' ∷ b'v' ∷ b':' ∷ b' ' ∷ b'[' ∷ b's' ∷ b't' ∷ b'a' ∷ b'r' ∷ b't'
    ∷ b' ' ∷ b'+' ∷ b' ' ∷ []

abbrev pub head_mark : Bytes
head_mark =
    b' ' ∷ b'<' ∷ b'-' ∷ b'-' ∷ b'-' ∷ b'-' ∷ b'-' ∷ b'-' ∷ b' ' ∷ b'H' ∷ b'E' ∷ b'A' ∷ b'D' ∷ []

abbrev pub endless : Bytes
endless =
    b'I' ∷ b'n' ∷ b'f' ∷ b'i' ∷ b'n' ∷ b'i' ∷ b't' ∷ b'e' ∷ b' ' ∷ b'l' ∷ b'o' ∷ b'o' ∷ b'p' ∷ b' '
    ∷ b'd' ∷ b'e' ∷ b't' ∷ b'e' ∷ b'c' ∷ b't' ∷ b'e' ∷ b'd' ∷ b' ' ∷ b'-' ∷ b'-' ∷ b' ' ∷ b't'
    ∷ b'e' ∷ b'r' ∷ b'm' ∷ b'i' ∷ b'n' ∷ b'a' ∷ b't' ∷ b'i' ∷ b'n' ∷ b'g' ∷ b' ' ∷ b'f' ∷ b'u'
    ∷ b'n' ∷ b'c' ∷ b't' ∷ b'i' ∷ b'o' ∷ b'n' ∷ b'.' ∷ 10 ∷ []

abbrev pub initialized : Bytes
initialized =
    b'H' ∷ b'e' ∷ b'a' ∷ b'p' ∷ b' ' ∷ b'i' ∷ b'n' ∷ b'i' ∷ b't' ∷ b'i' ∷ b'a' ∷ b'l' ∷ b'i' ∷ b'z'
    ∷ b'e' ∷ b'd' ∷ b' ' ∷ b't' ∷ b'o' ∷ b' ' ∷ []

abbrev pub bytes_end : Bytes
bytes_end = b' ' ∷ b'b' ∷ b'y' ∷ b't' ∷ b'e' ∷ b's' ∷ b'.' ∷ 10 ∷ []

-- A number behind a text in a buffer of `total` bytes, by `itoa`.
unfoldable pub number_behind : (total : ℕ) → Bytes → (v : ℕ) → Bytes
number_behind total text v =
    let room = total - length text in
    let r = printer itoa v (replicate room 0) room in text ++ take r.written r.buffer

unfoldable pub init_message : (bytes : ℕ) → Bytes
init_message bytes = number_behind 64 initialized bytes ++ bytes_end

-- A link of the list in a line of `__print_heap`.
unfoldable pub link_text : (start : ℕ) → (missing present : Bytes) → (link : ℕ) → Bytes → Bytes
link_text start missing present link text =
    if link == 0
    then text ++ missing
    else number_behind 256 (text ++ present) ((link + 2 ^ 64 - start) % 2 ^ 64) ++ (b']' ∷ [])

-- The line on the block at `curr`.
unfoldable pub block_line : Arena → (start curr : ℕ) → Bytes
block_line a start curr =
    let info = a.mem curr in
    let place = number_behind 256 at_start ((curr + 2 ^ 64 - start) % 2 ^ 64) in
    let sized = number_behind 256 (place ++ size_is) (size a.mem curr) in
    let linked =
      if info == used_normal
      then sized ++ in_use
      else link_text start no_prev prev_is (a.mem (footer_of a.mem curr))
          (link_text start no_next next_is info sized) in
    (if curr == a.head then linked ++ head_mark else linked) ++ (10 ∷ [])

unfoldable pub print_loop : (fuel : ℕ) → Arena → (start curr : ℕ) → Option (List Bytes)
print_loop zero a start curr = none
print_loop (suc fuel) a start curr =
    let next = footer_of a.mem curr + 16 in
    let rest = print_loop fuel a start next in
    if curr + 16 == a.p_brk
    then some (separator ∷ [])
    else if next == curr
    then some (block_line a start curr ∷ endless ∷ separator ∷ [])
    else (rest >>= λ texts. some (block_line a start curr ∷ texts))

unfoldable pub print_heap : (fuel : ℕ) → Arena → (heap_start : ℕ) → Option (List Bytes)
print_heap fuel a heap_start =
    print_loop fuel a heap_start (heap_start + 16) >>= λ texts. some (separator ∷ texts)

-- `__heap_free_list_length` and `__heap_free_total_size`
unfoldable pub length_loop : (fuel : ℕ) → Words → (count curr : ℕ) → Option ℕ
length_loop zero m count curr = none
length_loop (suc fuel) m count curr =
    let rest = length_loop fuel m ((count + 1) % 2 ^ 64) (m curr) in
    if curr == 0 then some count else rest

unfoldable pub total_loop : (fuel : ℕ) → Words → (total curr : ℕ) → Option ℕ
total_loop zero m total curr = none
total_loop (suc fuel) m total curr =
    let rest = total_loop fuel m ((total + size m curr) % 2 ^ 64) (m curr) in
    if curr == 0 then some total else rest

unfoldable pub heap_free_list_length : (fuel : ℕ) → Arena → Option ℕ
heap_free_list_length fuel a = length_loop fuel a.mem 0 a.head

unfoldable pub heap_free_total_size : (fuel : ℕ) → Arena → Option ℕ
heap_free_total_size fuel a = total_loop fuel a.mem 0 a.head

-- `__heap_end`
abbrev pub heap_end : Arena → ℕ
heap_end a = a.p_brk
