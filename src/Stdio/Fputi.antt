-- ===== src/Stdio/Fputi.antt =====
-- `fputi` of src/stdio.c: an `int` through `itoa`, which resumes where the buffer was too short.
-- The integer is its 32-bit pattern. `none` is fuel that ran out: `rounds` bounds the passes, which
-- print a byte each unless the buffer is flushed behind them.
use freestanding_custom_c_li.Prelude.{
  ℕ, zero, suc, ◌+◌, ◌-◌, ◌%◌, ◌^◌, true, false, not, none, some, ◌++◌, Bytes, take, drop,
  replicate, ltb, ◌==◌, if◌then◌else◌,
}
use freestanding_custom_c_li.Kernel.{Kernel}
use freestanding_custom_c_li.Conversions.{Ret, itoa}
use freestanding_custom_c_li.Conversions.Drain.{printer}
use freestanding_custom_c_li.Stdio.{
  File, Run, buffer_size, no_buffer, make_room, fflush, after_write,
}

-- `(int64_t)i`
abbrev pub widened : ℕ → ℕ
widened i = if ltb i (2 ^ 31) then i else i + (2 ^ 64 - 2 ^ 32)

module _ (k : Kernel) where
  open k use {World, write}

  -- The loop on an unbuffered stream. The bytes of `tmp` are written before they are read.
  unfoldable pub print_unbuffered : (rounds : ℕ) → File → (v : ℕ) → (tmp : Bytes) → World → Run k
  print_unbuffered zero out v tmp w = none
  print_unbuffered (suc rounds) out v tmp w =
      let r = printer itoa v tmp 32 in
      let more = print_unbuffered rounds out r.value r.buffer in
      if r.written == 0
      then some (false, out, w)
      else after_write k out (λ n w'. if r.value == 0 then some (true, out, w') else more w')
          (write out.fd (take r.written r.buffer) w)

  -- What `itoa` leaves in the buffer.
  unfoldable pub printed_into : File → (v : ℕ) → Ret × File
  printed_into out v =
      let at = out.buffer_index in
      let r = printer itoa v (drop at out.buffer) (buffer_size - at) in
      (
        r,
        record out {
          buffer_index = (at + r.written) % 2 ^ 32;
          buffer = take at out.buffer ++ r.buffer;
        },
      )

  -- The loop on a buffered stream.
  unfoldable pub print_buffered : (rounds : ℕ) → File → (v : ℕ) → World → Run k
  print_buffered zero out v w = none
  print_buffered (suc rounds) out v w =
      let (room, out', w') = make_room k out w in
      let (r, after) = printed_into out' v in
      let (flushed, empty, w'') = fflush k after w' in
      let more = print_buffered rounds after r.value w' in
      let retry = print_buffered rounds empty r.value w'' in
      if not room
      then some (false, out', w')
      else if r.value == 0
      then some (true, after, w')
      else if r.written == 0
      then (if flushed then retry else some (false, empty, w''))
      else more

  unfoldable pub fputi : File → (i : ℕ) → World → Run k
  fputi out i w =
      if out.buffer_index == no_buffer
      then print_unbuffered 64 out (widened i) (replicate 32 0) w
      else print_buffered 64 out (widened i) w
