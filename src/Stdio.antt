-- ===== src/Stdio.antt =====
-- The output streams of src/stdio.c: the buffer, `fflush`, `fput_bytes`, `fputs` and `fputc`.
-- A function that changes the stream returns the new one, with the world behind the system calls.
pub mod Unbuffered
pub mod Buffered
pub mod Fputi
pub mod Numbers
pub mod AtExit
use freestanding_custom_c_li.Prelude.{
  ℕ, zero, suc, ◌+◌, ◌-◌, ◌%◌, ◌^◌, Bool, true, false, Option, none, some, [], ◌∷◌, ◌++◌, Bytes,
  length, take, drop, set, ltb, ◌==◌, if◌then◌else◌,
}
use freestanding_custom_c_li.Kernel.{Kernel, Outcome, wrote, failed}

abbrev pub buffer_size : ℕ
buffer_size = 1024

-- `UINT32_MAX`
abbrev pub no_buffer : ℕ
no_buffer = 2 ^ 32 - 1

-- `struct _File`
pub record File : Type 0 where
  pub fd : ℕ
  pub buffer_index : ℕ
  pub buffer : Bytes

-- `for (i = 0; i < chunk; ++i) buffer_[buffer_index_ + i] = str[i];`
unfoldable pub copy_in : Bytes → ℕ → Bytes → Bytes
copy_in buffer at [] = buffer
copy_in buffer at (c ∷ str) = copy_in (set buffer at c) (suc at) str

-- The smaller of the free space and what is left.
abbrev pub chunk_of : ℕ → ℕ → ℕ
chunk_of index n = let chunk = buffer_size - index in if ltb n chunk then n else chunk

module _ (k : Kernel) where
  open k use {World, write}

  -- What a call returns, with the stream and the world; `none` is fuel that ran out.
  abbrev pub Run : Type 0
  Run = Option (Bool × File × World)

  abbrev pub succeeded : Outcome → Bool
  succeeded (wrote n) = true
  succeeded failed = false

  unfoldable pub fflush : File → World → Bool × File × World
  fflush file w =
      if file.buffer_index == no_buffer
      then (false, file, w)
      else (let (res, w') = write file.fd (take file.buffer_index file.buffer) w in
          (succeeded res, record file { buffer_index = 0 }, w'))

  -- `if (written < 0) return false;`, and the rest of the loop otherwise.
  unfoldable pub after_write : File → (ℕ → World → Run) → Outcome × World → Run
  after_write out rest (failed, w') = some (false, out, w')
  after_write out rest (wrote n, w') = rest n w'

  -- The loop on an unbuffered stream, `while (n) { … write … }`.
  pub write_all : ℕ → File → Bytes → World → Run
  write_all zero out str w = none
  write_all (suc fuel) out [] w = some (true, out, w)
  write_all (suc fuel) out (c ∷ str) w =
      after_write out (λ n w'. write_all fuel out (drop n (c ∷ str)) w') (write out.fd (c ∷ str) w)

  -- One round of the buffered loop behind the flush: copy what fits.
  unfoldable pub fill : File → Bytes → File
  fill out str =
      let chunk = chunk_of out.buffer_index (length str) in
      record out {
        buffer_index = (out.buffer_index + chunk) % 2 ^ 32;
        buffer = copy_in out.buffer out.buffer_index (take chunk str);
      }

  -- `buffer_index_ == __STDIO_BUFFER_SIZE && !fflush(out)`, as a flush that is made only when full.
  unfoldable pub make_room : File → World → Bool × File × World
  make_room out w = if out.buffer_index == buffer_size then fflush out w else (true, out, w)

  -- The loop on a buffered stream.
  unfoldable pub buffer_all : ℕ → File → Bytes → World → Run
  buffer_all zero out str w = none
  buffer_all (suc fuel) out [] w = some (true, out, w)
  buffer_all (suc fuel) out (c ∷ str) w =
      let (room, out', w') = make_room out w in
      let rest =
        buffer_all fuel (fill out' (c ∷ str))
          (drop (chunk_of out'.buffer_index (length (c ∷ str))) (c ∷ str)) w' in
      if room then rest else some (false, out', w')

  -- Each round takes a byte at least, so a round for each byte and one for the end are enough.
  unfoldable pub fput_bytes : File → Bytes → World → Run
  fput_bytes out str w =
      if out.buffer_index == no_buffer
      then write_all (length str + 1) out str w
      else buffer_all (length str + 1) out str w

  -- A C string is the list of its bytes before the NUL, which `strlen` counts.
  pub fputs : File → Bytes → World → Run
  fputs out str w = fput_bytes out str w

  pub fputc : File → ℕ → World → Run
  fputc out ch w = fput_bytes out (ch ∷ []) w
