-- ===== src/Printf/Sinks.antt =====
-- The sink of `fprintf` in src/stdio.c: a stream, and the number of bytes that went to it. A writer
-- is the rest of a body that prints: it returns what the C code returns, with the new sink.
pub mod Written
pub mod Fields
use freestanding_custom_c_li.Prelude.{
  ℕ, zero, suc, ◌+◌, ◌-◌, ◌%◌, ◌^◌, Bool, true, false, Option, none, some, [], ◌∷◌, Bytes, length,
  min, replicate, leb, ◌==◌, if◌then◌else◌, ◌>>=◌,
}
use freestanding_custom_c_li.Kernel.{Kernel}
use freestanding_custom_c_li.Stdio.{File, fput_bytes}
use freestanding_custom_c_li.Printf.Formats.{State}

-- `fprintf_sink`
pub record Sink : Type 0 where
  pub out : File
  pub count : ℕ

-- `none` is fuel that ran out.
abbrev pub WriterOf : Type 0 → Type 0
WriterOf W = Sink → W → Option (Bool × Sink × W)

module _ {W : Type 0} where
  -- `return true` and `return false`
  abbrev pub succeed : WriterOf W
  succeed s w = some (true, s, w)

  abbrev pub refuse : WriterOf W
  refuse s w = some (false, s, w)

  -- `p && q`
  abbrev pub proceed : WriterOf W → Bool × Sink × W → Option (Bool × Sink × W)
  proceed q (true, s, w) = q s w
  proceed q (false, s, w) = some (false, s, w)

  infixr 5 ◌>>>◌
  abbrev pub ◌>>>◌ : WriterOf W → WriterOf W → WriterOf W
  ◌>>>◌ p q s w = p s w >>= proceed q

module _ (k : Kernel) where
  open k use {World}

  abbrev pub Writer : Type 0
  Writer = WriterOf World

  -- The sink behind a write of `n` bytes.
  abbrev pub counted : ℕ → Sink → Bool × File × World → Option (Bool × Sink × World)
  counted n s (ok, out, w) = some (ok, record { out = out; count = (s.count + n) % 2 ^ 64 }, w)

  unfoldable pub sink_bytes : Bytes → Writer
  sink_bytes str s w = fput_bytes k s.out str w >>= counted (length str) s

  unfoldable pub sink_char : ℕ → Writer
  sink_char ch = sink_bytes (ch ∷ [])

  -- `while (n) { … }`, in chunks of 64 bytes.
  unfoldable pub repeat_loop : ℕ → ℕ → ℕ → Writer
  repeat_loop zero ch n = λ s w. none
  repeat_loop (suc fuel) ch n =
      let len = min n 64 in
      let more = sink_bytes (replicate len ch) >>> repeat_loop fuel ch (n - len) in
      if n == 0 then succeed else more

  -- Each round writes a byte at least, so one more round than bytes is enough.
  unfoldable pub sink_repeat : ℕ → ℕ → Writer
  sink_repeat ch n = repeat_loop (n + 1) ch n

  unfoldable pub fprintf_field_begin :
      State → (len : ℕ) → (prefix : Bytes) → (zero_pad : Bool) → Writer
  fprintf_field_begin state len prefix zero_pad =
      let pad = state.width - len in
      if state.flags.left_align
      then sink_bytes prefix
      else if zero_pad
      then sink_bytes prefix >>> sink_repeat b'0' pad
      else sink_repeat b' ' pad >>> sink_bytes prefix

  unfoldable pub fprintf_field_end : State → (len : ℕ) → Writer
  fprintf_field_end state len =
      if state.flags.left_align
      then (if leb state.width len then succeed else sink_repeat b' ' (state.width - len))
      else succeed
