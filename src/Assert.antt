-- ===== src/Assert.antt =====
-- `__assert_fail` of src/assert.c up to its call of `abort`: the message, in nine calls of `write`
-- whose results are dropped. The line is a `uint32_t`, and the bytes of `buf` are written before
-- they are read.
use freestanding_custom_c_li.Prelude.{ℕ, ◌∷◌, [], Bytes, take, replicate}
use freestanding_custom_c_li.Kernel.{Kernel}
use freestanding_custom_c_li.Conversions.{itoa}
use freestanding_custom_c_li.Conversions.Drain.{printer}

module _ (k : Kernel) where
  open k use {World, write}

  -- A call of `write` to the descriptor of `stderr`.
  abbrev pub say : Bytes → World → World
  say bs w = let (res, w') = write 2 bs w in w'

  -- The world at the call of `abort`.
  unfoldable pub assert_fail : (expr file : Bytes) → (line : ℕ) → (func : Bytes) → World → World
  assert_fail expr file line func w =
      let m1 : Bytes =
        b'A' ∷ b's' ∷ b's' ∷ b'e' ∷ b'r' ∷ b't' ∷ b'i' ∷ b'o' ∷ b'n' ∷ b' ' ∷ b'f' ∷ b'a' ∷ b'i'
        ∷ b'l' ∷ b'e' ∷ b'd' ∷ b':' ∷ b' ' ∷ [] in
      let m2 : Bytes = b',' ∷ b' ' ∷ b'f' ∷ b'i' ∷ b'l' ∷ b'e' ∷ b' ' ∷ [] in
      let m3 : Bytes = b',' ∷ b' ' ∷ b'l' ∷ b'i' ∷ b'n' ∷ b'e' ∷ b' ' ∷ [] in
      let m4 : Bytes =
        b',' ∷ b' ' ∷ b'f' ∷ b'u' ∷ b'n' ∷ b'c' ∷ b't' ∷ b'i' ∷ b'o' ∷ b'n' ∷ b' ' ∷ [] in
      let m5 : Bytes = b'.' ∷ 10 ∷ [] in
      let r = printer itoa line (replicate 32 0) 32 in
      say m5 (
        say func (
          say m4
            (say (take r.written r.buffer) (say m3 (say file (say m2 (say expr (say m1 w))))))))
