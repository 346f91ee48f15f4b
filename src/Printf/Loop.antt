-- ===== src/Printf/Loop.antt =====
-- The loop of `fprintf` (src/stdio.c) against a description of what a format prints.
pub mod Shorter
use freestanding_custom_c_li.Prelude.{
  ℕ, zero, suc, ◌+◌, ◌-◌, ◌%◌, ◌^◌, ◌≤◌, ◌<◌, ◌≡◌, ◌≢◌, refl, ap, sym, ◌∙◌, Bool, true, false, not,
  Option, none, some, [], ◌∷◌, ◌++◌, arith, Bytes, length, length-append, take, ◌==◌, ==_iff,
  ==_false, if◌then◌else◌, ◌>>=◌,
}
use freestanding_custom_c_li.Kernel.{Kernel}
use freestanding_custom_c_li.Strings.Memory.{Mem}
use freestanding_custom_c_li.Stdio.{File}
use freestanding_custom_c_li.Stdio.Buffered.{IsOpen, Complete}
use freestanding_custom_c_li.Printf.Formats.{State}
use freestanding_custom_c_li.Printf.Parse.{first, rest, is_unknown}
use freestanding_custom_c_li.Printf.VarArgs.{Arguments, Data, word_data, fprintf_get_data}
use freestanding_custom_c_li.Printf.Sinks.{Sink, sink_bytes, sink_char}
use freestanding_custom_c_li.Printf.Sinks.Written.{
  Put, Wrote, Writes, succeed-Put, sink_bytes-Writes, sink_char-Writes, failed-Put, next-Put,
}
use freestanding_custom_c_li.Printf.Text.{fprintf_store_count}
use freestanding_custom_c_li.Printf.{
  Printed, resume, is_count, before_percent, read_conversion, run_conversion, fprintf_loop, fprintf,
  fprintf_output_formatted,
}
use freestanding_custom_c_li.Printf.Loop.Shorter.{length-rest, read_conversion-shorter}
use mathlib.Core.Path.{subst}

-- Text without `%`.
abbrev pub AllPlain : Bytes → Type 0
AllPlain [] = Unit
AllPlain (c ∷ s) = (c ≢ b'%') × AllPlain s

-- The end of a format, or a `%`.
abbrev pub AtPercent : Bytes → Type 0
AtPercent [] = Unit
AtPercent (c ∷ s) = c ≡ b'%'

before_percent-plain :
    (text s : Bytes) → AllPlain text → AtPercent s → before_percent (text ++ s) ≡ (text, s)
unfolding before_percent
before_percent-plain [] [] plain at = refl
before_percent-plain [] (c ∷ s) plain at = rw ((==_iff c b'%').1 at) refl
before_percent-plain (c ∷ text) s (other, plain) at =
    rw (==_false c b'%' other, before_percent-plain text s plain at) refl

-- An unknown conversion, with the byte that it stops at.
abbrev pub unread : Bytes → Bytes → Bytes
unread str behind = take (suc (length str) - length (rest behind)) (b'%' ∷ str)

module _ (k : Kernel) (fuel : ℕ) where
  open k use {World}

  -- What a format prints with its arguments, from a memory and a count of bytes on: a text, and the
  -- memory behind it, where `%n` has stored the count that stands there.
  pub data Prints : Bytes → Arguments → Mem → ℕ → Bytes → Mem → Type 0 where
    finished : {args : Arguments} {m : Mem} {n : ℕ} → Prints [] args m n [] m
    literal :
        (c : ℕ) (text s : Bytes) {ys : Bytes} {args : Arguments} {m m' : Mem} {n : ℕ}
        → AllPlain (c ∷ text)
        → AtPercent s
        → Prints s args m ((n + length (c ∷ text)) % 2 ^ 64) ys m'
        → Prints ((c ∷ text) ++ s) args m n ((c ∷ text) ++ ys) m'
    percent :
        {s ys : Bytes} {args : Arguments} {m m' : Mem} {n : ℕ}
        → Prints s args m ((n + 1) % 2 ^ 64) ys m'
        → Prints (b'%' ∷ b'%' ∷ s) args m n (b'%' ∷ ys) m'
    conversion :
        {str behind shown ys : Bytes} {args more left : Arguments} {m m' : Mem} {n : ℕ}
        {state : State} {d : Data}
        → first str ≢ b'%'
        → read_conversion str args ≡ some (state, behind, more)
        → is_unknown state.specifier ≡ false
        → is_count state.specifier ≡ false
        → fprintf_get_data more state.modifier state.specifier ≡ some (d, left)
        → Writes k (fprintf_output_formatted k fuel m d state) shown
        → Prints behind left m ((n + length shown) % 2 ^ 64) ys m'
        → Prints (b'%' ∷ str) args m n (shown ++ ys) m'
    stored :
        {str behind ys : Bytes} {args more left : Arguments} {m m' : Mem} {n p : ℕ} {state : State}
        → first str ≢ b'%'
        → read_conversion str args ≡ some (state, behind, more)
        → is_unknown state.specifier ≡ false
        → is_count state.specifier ≡ true
        → fprintf_get_data more state.modifier state.specifier ≡ some (word_data p, left)
        → Prints behind left (fprintf_store_count m p state.modifier n) n ys m'
        → Prints (b'%' ∷ str) args m n ys m'
    as_is :
        {str behind ys : Bytes} {args more : Arguments} {m m' : Mem} {n : ℕ} {state : State}
        → first str ≢ b'%'
        → read_conversion str args ≡ some (state, behind, more)
        → is_unknown state.specifier ≡ true
        → Prints (rest behind) more m ((n + length (unread str behind)) % 2 ^ 64) ys m'
        → Prints (b'%' ∷ str) args m n (unread str behind ++ ys) m'

  -- The run has ended. After success the text is in the stream and the memory is `m'`; after
  -- failure the buffer is empty.
  pub record Ran (s : Sink) (ys : Bytes) (m' : Mem) (w : World) (r : Printed k) : Type 0 where
    pub result : Bool × Mem × Sink × World
    pub ends : r ≡ some result
    pub put : Put k s ys w (result.0, result.2, result.3)
    pub memory : result.0 ≡ true → result.1 ≡ m'

  resume-Ran :
      (s : Sink) (xs ys : Bytes) (m m' : Mem) (w : World) (n : ℕ) (again : Sink → World → Printed k)
      {r : Option (Bool × Sink × World)}
      → Wrote k s xs w r
      → s.count ≡ n
      → ((s' : Sink) (w' : World)
          → IsOpen s'.out
          → s'.count < 2 ^ 64
          → s'.count ≡ (n + length xs) % 2 ^ 64
          → Ran s' ys m' w' (again s' w'))
      → Ran s (xs ++ ys) m' w (r >>= resume k m again)
  resume-Ran s xs ys m m' w n again wrote e next = rw (wrote.ends) (go wrote.result wrote.put)
    where
      go :
          (res : Bool × Sink × World)
          → Put k s xs w res
          → Ran s (xs ++ ys) m' w (resume k m again res)
      go (false, s', w') p = record {
        result = (false, m, s', w');
        ends = refl;
        put = failed-Put k s xs ys w p;
        memory = λ e. cc;
      }
      go (true, s', w') p =
          let n =
            next s' w' p.opened p.word (p.tallied refl ∙ ap (λ a. (a + length xs) % 2 ^ 64) e) in
          record {
            result = n.result;
            ends = n.ends;
            put = next-Put k s xs ys w p n.put;
            memory = n.memory;
          }

  module _ (complete : Complete k) where
    pub fprintf_loop-Ran :
        (rounds : ℕ) {format ys : Bytes} {args : Arguments} {m m' : Mem} {n : ℕ}
        → Prints format args m n ys m'
        → length format < rounds
        → (s : Sink) (w : World) → IsOpen s.out
        → s.count < 2 ^ 64
        → s.count ≡ n
        → Ran s ys m' w (fprintf_loop k rounds fuel format args m s w)
    unfolding fprintf_loop run_conversion
    fprintf_loop-Ran zero p h s w o c e = absurd (omega arith)
    fprintf_loop-Ran (suc rounds) (finished {m = m}) h s w o c e = record {
      result = (true, m, s, w);
      ends = refl;
      put = succeed-Put k s w o c;
      memory = λ _. refl;
    }
    fprintf_loop-Ran (suc rounds) (literal c text str {ys} {args} {m} {m'} {n} plain at next) h s w
          o ok e =
        let xs = c ∷ text in
        let l = length-append text str in
        rw (==_false c b'%' plain.0, before_percent-plain xs str plain at)
          (resume-Ran s xs ys m m' w n (fprintf_loop k rounds fuel str args m)
            (sink_bytes-Writes k complete xs s w o ok) e
            (fprintf_loop-Ran rounds next (omega arith)))
    fprintf_loop-Ran (suc rounds) (percent {s = str} {ys} {args} {m} {m'} {n} next) h s w o ok e =
        resume-Ran s (b'%' ∷ []) ys m m' w n (fprintf_loop k rounds fuel str args m)
          (sink_char-Writes k complete b'%' s w o ok) e (fprintf_loop-Ran rounds next (omega arith))
    fprintf_loop-Ran (suc rounds)
          (conversion {str} {behind} {shown} {ys} {args} {more} {left} {m} {m'} {n} other reads
            known printed gets writes next)
          h s w o ok e =
        rw (==_false (first str) b'%' other, reads, known, printed, gets)
          (resume-Ran s shown ys m m' w n (fprintf_loop k rounds fuel behind left m)
            (writes s w o ok) e
            (fprintf_loop-Ran rounds next (omega (arith, read_conversion-shorter str args reads))))
    fprintf_loop-Ran (suc rounds)
          (stored {str} {behind} {ys} {args} {more} {left} {m} {m'} {p = p} {state} other reads
            known counts gets next)
          h s w o ok e =
        let next' : Prints behind left (fprintf_store_count m p state.modifier s.count) s.count ys
            m' =
          subst (λ a. Prints behind left (fprintf_store_count m p state.modifier a) a ys m') (sym e)
            next in
        rw (==_false (first str) b'%' other, reads, known, counts, gets)
          (fprintf_loop-Ran rounds next' (omega (arith, read_conversion-shorter str args reads)) s w
            o ok refl)
    fprintf_loop-Ran (suc rounds)
          (as_is {str} {behind} {ys} {args} {more} {m} {m'} {n} other reads new next) h s w o ok e =
        rw (==_false (first str) b'%' other, reads, new)
          (resume-Ran s (unread str behind) ys m m' w n
            (fprintf_loop k rounds fuel (rest behind) more m)
            (sink_bytes-Writes k complete (unread str behind) s w o ok) e
            (fprintf_loop-Ran rounds next
              (omega (arith, length-rest behind, read_conversion-shorter str args reads))))

    -- `fprintf` on an open buffered stream, over a kernel without short writes, with a format and
    -- arguments that print `ys` by `Prints`: plain text as it is, a percent sign for two, a
    -- conversion as the text that `fprintf_output_formatted` writes for it, nothing for `%n`,
    -- which stores the number of bytes so far, and an unknown conversion as it stands. The run
    -- ends. If it returns true, `ys` has been added to what the stream holds, the count is its
    -- length modulo 2^64, and the memory is the one behind the stores of `%n`. If it returns
    -- false, the buffer is empty. The stream is open still and has its descriptor.
    pub fprintf-Ran :
        (out : File) (format : Bytes) (args : Arguments) (m : Mem) (w : World) (ys : Bytes)
        (m' : Mem)
        → IsOpen out
        → Prints format args m 0 ys m'
        → Ran (record { out = out; count = 0 }) ys m' w (fprintf k fuel out format args m w)
    unfolding fprintf
    fprintf-Ran out format args m w ys m' o p =
        fprintf_loop-Ran (length format + 1) p (omega arith) (record { out = out; count = 0 }) w o
          (omega arith) refl
