-- ===== src/Lib.antt =====
-- A freestanding C library for x86-64 Linux: what its parts compute, and why it is what they
-- promise.
--
-- The library has no other C library below it. src/conversions.c turns integers into text and
-- back, src/stdio.c buffers bytes on their way to a descriptor, src/exit.c keeps the callbacks
-- that a process runs before it ends, src/string/ has the usual functions on C strings, and
-- src/stdlib.c is the allocator.
--
-- Conversions.antt models src/conversions.c. The printers can resume: a call that runs out of
-- buffer stores the digits that are left in the integer itself, as radix^m + suffix beside the
-- least signed or the greatest unsigned integer, and the next call decodes that.
-- `unsigned_print` is the body of `utoa_generic`, `signed_print` that of `itoa_generic` and
-- `decimal_print` that of `itoa`, each behind the test for null pointers, which is `through`.
-- The four loops that these three bodies repeat are `count_digits`, `pow_loop`, `top_power` and
-- `emit`; `decode`, `measure` and `finish` are the parts of a body that they have in common. An
-- `int64_t` is its 64-bit pattern. Conversions/Atoi.antt models `atoi` on the list of bytes
-- before the NUL. Conversions/Drain.antt calls a printer again until the integer is 0, as
-- intf/stdlib.h says that a client does.
--
-- Stdio.antt models the output streams of src/stdio.c: `fput_bytes`, `fputs`, `fputc` and
-- `fflush`; Stdio/Fputi.antt has `fputi`, whose numerals Stdio/Numbers.antt relates to those of
-- the conversions, and Stdio/AtExit.antt has `flush_streams` and its registration, with `stdout`
-- as a part of the world that callbacks act on. Kernel.antt is the interface to the system calls
-- of src/syscalls.asm: any kernel whose `write` appends the first bytes of the buffer, perhaps
-- not all of them, or fails and appends none. Its count is taken to fit an `int`, and so it does
-- for buffers below 2 GiB.
--
-- Printf.antt models `fprintf` of src/stdio.c, for a stream, a format without its NUL, a list of
-- arguments and a memory of bytes. Printf/Formats.antt has the state of a conversion
-- (src/_stdio.h), Printf/Parse.antt the parser of its parts, Printf/VarArgs.antt the argument
-- list and `fprintf_get_data`, Printf/Sinks.antt the sink with its count and the padding of
-- fields, Printf/Integer.antt, Printf/Text.antt and Printf/Floats.antt the conversions (what an
-- integer should look like is written in Printf/Integer/Described.antt), and Printf/Decimal.antt
-- the exact decimal expansion and its rounding. A body that prints is a function from a sink and
-- a world to the result that it returns, with the new ones; `p >>> q` is `p && q`. A
-- floating-point number is its bits. The parts of the loop of `fprintf` are `before_percent`,
-- `read_conversion` and `run_conversion`; Printf/Loop.antt describes what a format prints by the
-- data type `Prints`.
--
-- Exit.antt models src/exit.c, where a callback is a name and what it does to the world a
-- parameter; the callbacks do not change the table. The report that `exit` prints in the test
-- build is left out.
--
-- Strings.antt models src/string/; Strings/Duplicate.antt has `strdup` on the heap of Heap.antt,
-- whose words Strings/Bytewise.antt reads and writes as bytes. Memory is a function from
-- addresses to bytes, so that an access outside an object is not seen; the theorems say which
-- bytes are read as a string and which change. `strtokc` keeps its static variables in the
-- record `Tokenizer`.
--
-- Memory.antt models `memcpy_large` of src/memory.c as it is built without AVX, and
-- Memory/Wide.antt its branches in inline assembly, where an instruction does what the
-- processor's manual says: a copy ends, faults at a target that is not aligned, or has run out
-- of fuel. Assert.antt models `__assert_fail` of src/assert.c, as the calls of `write` that it
-- makes.
--
-- Heap.antt models src/stdlib.c. Memory is a function from addresses to 64-bit words.
-- `insert_into_list`, `remove_from_list`, `init`, `extend`, `malloc` and `free` are as in the
-- source; `allocate` is the part of `malloc` behind the search, and `split` and `detach` its
-- parts that cut a block and take it; `release` is `free` behind its tests for NULL and for a
-- mapping, `merge_previous` and `merge_next` its two cases; `grow_last` and `add_block` are the
-- two cases of `extend`. The calls `brk`, `mmap` and `munmap` are parameters, and the locks,
-- which do nothing unless a client replaces them, are left out. Heap/FreeList.antt says what it
-- means that a list of blocks is the free list in memory. Heap/Cells.antt has the heap as a row
-- of cells, blocks that are free or in use, and Heap/Coalesce.antt the joining of free
-- neighbours; Heap/Tiled.antt and Heap/Sound.antt state the invariant of the heap on these
-- cells, and Heap/Reached.antt the sequences of calls as a data type. Heap/Report.antt models
-- the reports on the heap in the test build, `__print_heap` and the counts of the free list.
--
-- Prelude.antt has what the parts share: byte lists, Boolean tests, powers, overwriting.
--
-- Bounds. The words of the source wrap at 2^64 and 2^32 in the definitions. The digit loop of
-- `measure` has 65 rounds, enough for 64 binary digits and the last test; `top_power` has 64,
-- since a power of the radix below 2^64 has fewer factors. `fput_bytes` has one round for each
-- byte and one more. `fputi` has 64 passes for a text of at most 11 bytes. The string functions
-- take their fuel as an argument, and the theorems ask for more than the length of the string.
-- `fprintf` has one pass for each byte of its format and one more, and each pass takes a byte at
-- least; its fuel is for the strings that it prints. The loops on big integers have as many
-- rounds as the exponent. `malloc` takes the number of its rounds, of which two are enough, and
-- of the steps of a search, for which the number of bytes of the heap is enough. A copy by
-- AVX-512 has one round for 64 bytes. `none` is fuel that ran out, an overflow of an `int`, or
-- an access outside an array.
--
-- Not modelled: `enable_fsrm` (src/init.c), `abort` behind a failed assertion, and the assembly
-- (src/entry.asm, src/syscalls.asm, src/memcpy_small_fsrm.asm, src/string/strlen.asm). The fixed
-- sizes of the buffers of the floating-point conversions are not modelled either: their digits
-- are lists. The decimal exponents, and the number of digits that `fp_round` keeps, are integers
-- without bounds, where the source adds them as `int`.
pub mod Prelude
pub mod Assert
pub mod Conversions
pub mod Kernel
pub mod Stdio
pub mod Exit
pub mod Strings
pub mod Heap
pub mod Memory
pub mod Printf
pub mod Examples
