-- ===== src/Printf/Sinks/Written.antt =====
-- What the writers of src/stdio.c leave in an open buffered stream, and the fields that they print.
use freestanding_custom_c_li.Prelude.{
  ℕ, zero, suc, ◌+◌, ◌-◌, ◌%◌, ◌^◌, ◌<◌, ◌≡◌, refl, ap, sym, ◌∙◌, Bool, true, false, Option, some,
  [], ◌∷◌, ◌++◌, arith, Bytes, length, min, replicate, length-append, ==_false, if◌then◌else◌,
}
use freestanding_custom_c_li.Kernel.{Kernel}
use freestanding_custom_c_li.Stdio.{File}
use freestanding_custom_c_li.Stdio.Buffered.{IsOpen, Complete, Appended, held, fput_bytes-buffered}
use freestanding_custom_c_li.Printf.Formats.{State}
use freestanding_custom_c_li.Printf.Sinks.{
  Sink, Writer, ◌>>>◌, succeed, proceed, counted, sink_bytes, sink_char, repeat_loop, sink_repeat,
}
use mathlib.Core.List.{append-nil, append_assoc}
use native.Mathlib.Decide.{dec_lt}

-- A field of `state`: the prefix and the body, padded to the width on the side that the flags say.
abbrev pub framed : State → (prefix body : Bytes) → (zero_pad : Bool) → Bytes
framed state prefix body zero_pad =
    let pad = state.width - (length prefix + length body) in
    if state.flags.left_align
    then prefix ++ (body ++ replicate pad b' ')
    else if zero_pad
    then prefix ++ (replicate pad b'0' ++ body)
    else replicate pad b' ' ++ (prefix ++ body)

pub length-replicate {ℓ} : {A : Type ℓ} (n : ℕ) (a : A) → length (replicate n a) ≡ n
length-replicate zero a = refl
length-replicate (suc n) a = ap suc (length-replicate n a)

pub replicate-add {ℓ} :
    {A : Type ℓ} (m n : ℕ) (a : A) → replicate m a ++ replicate n a ≡ replicate (m + n) a
replicate-add zero n a = ap (λ k. replicate k a) (omega arith)
replicate-add (suc m) n a =
    ap (λ t. a ∷ t) (replicate-add m n a)
    ∙ ap (λ k. replicate k a) (let e : suc (m + n) ≡ suc m + n = omega arith in e)

module _ (k : Kernel) where
  open k use {World}

  -- A sink after a call that returned: on an open stream still, on the same descriptor. After
  -- success the bytes `ys` have been added to what the stream holds and to the count; after failure
  -- the buffer is empty.
  pub record Put (s : Sink) (ys : Bytes) (w : World) (res : Bool × Sink × World) : Type 0 where
    pub opened : IsOpen res.1.out
    pub same_fd : res.1.out.fd ≡ s.out.fd
    pub added : res.0 ≡ true → held k res.1.out res.2 ≡ held k s.out w ++ ys
    pub tallied : res.0 ≡ true → res.1.count ≡ (s.count + length ys) % 2 ^ 64
    pub emptied : res.0 ≡ false → res.1.out.buffer_index ≡ 0
    pub word : res.1.count < 2 ^ 64

  -- The run has ended, and `Put` holds of its result.
  pub record Wrote (s : Sink) (ys : Bytes) (w : World) (r : Option (Bool × Sink × World))
      : Type 0 where
    pub result : Bool × Sink × World
    pub ends : r ≡ some result
    pub put : Put s ys w result

  -- The writer writes `ys`, from any sink on an open stream.
  abbrev pub Writes : Writer k → Bytes → Type 0
  Writes p ys = (s : Sink) (w : World) → IsOpen s.out → s.count < 2 ^ 64 → Wrote s ys w (p s w)

  pub succeed-Put :
      (s : Sink) (w : World) → IsOpen s.out → s.count < 2 ^ 64 → Put s [] w (true, s, w)
  succeed-Put s w o c = record {
    opened = o;
    same_fd = refl;
    added = λ _. sym (append-nil (held k s.out w));
    tallied = λ _. omega arith;
    emptied = λ p. cc;
    word = c;
  }

  pub succeed-Writes : Writes succeed []
  succeed-Writes s w o c = record { result = (true, s, w); ends = refl; put = succeed-Put s w o c }

  -- A writer that failed, in front of another.
  pub failed-Put :
      (s : Sink) (xs ys : Bytes) (w : World) {s' : Sink} {w' : World}
      → Put s xs w (false, s', w')
      → Put s (xs ++ ys) w (false, s', w')
  failed-Put s xs ys w p = record {
    opened = p.opened;
    same_fd = p.same_fd;
    added = λ e. cc;
    tallied = λ e. cc;
    emptied = p.emptied;
    word = p.word;
  }

  -- One writer behind another.
  pub next-Put :
      (s : Sink) (xs ys : Bytes) (w : World) {s' : Sink} {w' : World} {res : Bool × Sink × World}
      → Put s xs w (true, s', w')
      → Put s' ys w' res
      → Put s (xs ++ ys) w res
  next-Put s xs ys w p n = record {
    opened = n.opened;
    same_fd = n.same_fd ∙ p.same_fd;
    added = λ e. n.added e ∙ ap (λ t. t ++ ys) (p.added refl) ∙ append_assoc (held k s.out w) xs ys;
    tallied = λ e. omega (arith, n.tallied e, p.tallied refl, length-append xs ys);
    emptied = n.emptied;
    word = n.word;
  }

  proceed-Wrote :
      (s : Sink) (xs ys : Bytes) (w : World) (q : Writer k) (res : Bool × Sink × World)
      → Put s xs w res
      → Writes q ys
      → Wrote s (xs ++ ys) w (proceed q res)
  proceed-Wrote s xs ys w q (false, s', w') p next = record {
    result = (false, s', w');
    ends = refl;
    put = failed-Put s xs ys w p;
  }
  proceed-Wrote s xs ys w q (true, s', w') p next =
      let n = next s' w' p.opened p.word in
      record { result = n.result; ends = n.ends; put = next-Put s xs ys w p n.put }

  pub >>>-Writes :
      (p q : Writer k) (xs ys : Bytes) → Writes p xs → Writes q ys → Writes (p >>> q) (xs ++ ys)
  >>>-Writes p q xs ys first next s w o c =
      let f = first s w o c in rw (f.ends) (proceed-Wrote s xs ys w q f.result f.put next)

  module _ (complete : Complete k) where
    counted-Wrote :
        (s : Sink) (str : Bytes) (w : World) (res : Bool × File × World)
        → s.count < 2 ^ 64
        → Appended k s.out str w res
        → Wrote s str w (counted k (length str) s res)
    counted-Wrote s str w (ok, out, w') c a = record {
      result = (ok, record { out = out; count = (s.count + length str) % 2 ^ 64 }, w');
      ends = refl;
      put = record {
        opened = a.opened;
        same_fd = a.same_fd;
        added = a.added;
        tallied = λ _. refl;
        emptied = a.emptied;
        word = omega arith;
      };
    }

    pub sink_bytes-Writes : (str : Bytes) → Writes (sink_bytes k str) str
    unfolding sink_bytes
    sink_bytes-Writes str s w o c =
        let e = fput_bytes-buffered k complete s.out str w o in
        rw (e.ends) (counted-Wrote s str w e.result c e.appended)

    pub sink_char-Writes : (ch : ℕ) → Writes (sink_char k ch) (ch ∷ [])
    unfolding sink_char
    sink_char-Writes ch = sink_bytes-Writes (ch ∷ [])

    repeat_loop-Writes :
        (fuel ch n : ℕ) → n < fuel → Writes (repeat_loop k fuel ch n) (replicate n ch)
    unfolding repeat_loop
    repeat_loop-Writes zero ch n h = absurd (omega arith)
    repeat_loop-Writes (suc fuel) ch n h = elim (dec_lt 0 n) [
      | no none_left ↦ let z : n ≡ 0 = omega arith in rw z succeed-Writes
      | yes some_left ↦
          let len = min n 64 in
          let whole : len + (n - len) ≡ n = omega arith in
          let e = replicate-add len (n - len) ch ∙ ap (λ t. replicate t ch) whole in
          rw (==_false n 0 (omega arith), ← e)
            (>>>-Writes (sink_bytes k (replicate len ch)) (repeat_loop k fuel ch (n - len))
              (replicate len ch) (replicate (n - len) ch) (sink_bytes-Writes (replicate len ch))
              (repeat_loop-Writes fuel ch (n - len) (omega arith)))
    ]

    pub sink_repeat-Writes : (ch n : ℕ) → Writes (sink_repeat k ch n) (replicate n ch)
    unfolding sink_repeat
    sink_repeat-Writes ch n = repeat_loop-Writes (n + 1) ch n (omega arith)
