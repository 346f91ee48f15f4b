-- ===== src/Stdio/Buffered.antt =====
-- Output to a buffered stream of src/stdio.c, as `stdout` is.
use freestanding_custom_c_li.Prelude.{
  ℕ, zero, suc, ◌+◌, ◌-◌, ◌%◌, ◌^◌, ◌≤◌, ◌<◌, ◌≡◌, refl, ap, sym, ◌∙◌, Bool, true, false, some, [],
  ◌∷◌, ◌++◌, arith, Bytes, length, take, drop, set, take-append-drop, take-length, length-take,
  length-drop, length-append, length-set, ◌==◌, ==_false, if◌then◌else◌, Bool-cases, inl, inr,
}
use freestanding_custom_c_li.Prelude.Overwrite.{
  overwrite, overwrite-set, overwrite-nil, length-overwrite, take-overwrite,
}
use freestanding_custom_c_li.Kernel.{Kernel, Outcome, wrote, failed}
use freestanding_custom_c_li.Stdio.{
  File, Run, no_buffer, buffer_size, copy_in, chunk_of, fflush, fill, make_room, buffer_all,
  fput_bytes, succeeded,
}
use mathlib.Core.List.{append-nil, append_assoc}

-- The invariant of a buffered stream.
pub record IsOpen (f : File) : Type 0 where
  pub size : length f.buffer ≡ buffer_size
  pub within : f.buffer_index ≤ buffer_size

-- A `write` that succeeds takes the whole buffer.
abbrev pub Complete : Kernel → Type 0
Complete k =
    (fd : ℕ) (bs : Bytes) (w w' : Kernel.World k) (n : ℕ)
    → Kernel.write k fd bs w ≡ (wrote n, w')
    → n ≡ length bs

-- The bytes that wait in the buffer.
abbrev pub pending : File → Bytes
pending f = take f.buffer_index f.buffer

copy_in-overwrite :
    (b : Bytes) (at : ℕ) (str : Bytes)
    → at + length str ≤ length b
    → copy_in b at str ≡ overwrite b at str
unfolding copy_in
copy_in-overwrite b at [] h = overwrite-nil b at
copy_in-overwrite b at (c ∷ str) h =
    copy_in-overwrite (set b at c) (suc at) str (omega (arith, length-set b at c))
    ∙ overwrite-set b at c str (omega arith)

module _ (k : Kernel) where
  open k use {World, write, sent, sent_wrote, sent_failed, wrote_le}

  -- What has been sent, and behind it what waits.
  abbrev pub held : File → World → Bytes
  held f w = sent f.fd w ++ pending f

  chunk_bounds : (i n : ℕ) → i ≤ buffer_size → (chunk_of i n ≤ n) × (i + chunk_of i n ≤ buffer_size)
  chunk_bounds i n h = ground arith

  chunk_pos : (i n : ℕ) → i < buffer_size → 1 ≤ chunk_of i (suc n)
  chunk_pos i n h = ground arith

  fill-fd : (f : File) (str : Bytes) → (fill k f str).fd ≡ f.fd
  unfolding fill
  fill-fd f str = refl

  module _ (f : File) (str : Bytes) (o : IsOpen f) where
    run : Bytes
    run = take (chunk_of f.buffer_index (length str)) str

    length-run : length run ≡ chunk_of f.buffer_index (length str)
    unfolding run
    length-run = omega (
      arith,
      length-take (chunk_of f.buffer_index (length str)) str,
      chunk_bounds f.buffer_index (length str) o.within,
    )

    run-le : f.buffer_index + length run ≤ buffer_size
    run-le = omega (arith, length-run, chunk_bounds f.buffer_index (length str) o.within)

    fill-run : fill k f str ≡ record f {
      buffer_index = f.buffer_index + length run;
      buffer = overwrite f.buffer f.buffer_index run;
    }
    unfolding fill run
    fill-run =
        let at : (f.buffer_index + chunk_of f.buffer_index (length str)) % 2 ^ 32
            ≡ f.buffer_index + length run =
          omega (arith, run-le, length-run) in
        let copied =
          copy_in-overwrite f.buffer f.buffer_index run (omega (arith, run-le, o.size)) in
        λ i. record f { buffer_index = at i; buffer = copied i }

    fill-IsOpen : IsOpen (fill k f str)
    fill-IsOpen = rw fill-run (record {
      size = length-overwrite f.buffer f.buffer_index run (omega (arith, run-le, o.size)) ∙ o.size;
      within = run-le;
    })

    pending-fill : pending (fill k f str) ≡ pending f ++ run
    pending-fill =
        rw fill-run (take-overwrite f.buffer f.buffer_index run (omega (arith, o.size, o.within)))

  -- The two ways that a flush of an open stream ends.
  module _ (f : File) (o : IsOpen f) (w w' : World) where
    fflush-step :
        (r : Outcome)
        → write f.fd (pending f) w ≡ (r, w')
        → fflush k f w ≡ (succeeded k r, record f { buffer_index = 0 }, w')
    unfolding fflush
    fflush-step r e = rw (==_false f.buffer_index no_buffer (omega (arith, o.within)), e)

    -- `fflush` on an open stream where `write` takes `n` bytes: it returns true, and of the bytes
    -- sent and waiting as many are lost as `write` did not take.
    pub fflush-short :
        (n : ℕ)
        → write f.fd (pending f) w ≡ (wrote n, w')
        → let (ok, f', after) = fflush k f w in
          (ok ≡ true) × (length (held f' after) + (f.buffer_index - n) ≡ length (held f w))
    fflush-short n e =
        let sent_length = length-append (sent f.fd w) (take n (pending f)) in
        let waiting = length-take f.buffer_index f.buffer in
        let taken = length-take n (pending f) in
        let le = wrote_le f.fd (pending f) w w' n e in
        rw (fflush-step (wrote n) e, append-nil, sent_wrote f.fd (pending f) w w' n e)
          (
            refl,
            omega (
              arith,
              sent_length,
              waiting,
              taken,
              le,
              o.size,
              o.within,
              length-append (sent f.fd w) (pending f),
            ),
          )

  -- A stream after a call: still open, on the same descriptor. If the call succeeded, `str` has
  -- been added to what is held; if it failed, the buffer is empty.
  pub record Appended (f : File) (str : Bytes) (w : World) (res : Bool × File × World)
      : Type 0 where
    pub opened : IsOpen res.1
    pub same_fd : res.1.fd ≡ f.fd
    pub added : res.0 ≡ true → held res.1 res.2 ≡ held f w ++ str
    pub emptied : res.0 ≡ false → res.1.buffer_index ≡ 0

  -- The run has ended, and `Appended` holds of its result.
  pub record Ends (f : File) (str : Bytes) (w : World) (r : Run k) : Type 0 where
    pub result : Bool × File × World
    pub ends : r ≡ some result
    pub appended : Appended f str w result

  module _ (complete : Complete k) where
    fflush-cases :
        (f : File) (w : World) (r : Outcome × World)
        → IsOpen f
        → write f.fd (pending f) w ≡ r
        → Appended f [] w (fflush k f w) × ((fflush k f w).1.buffer_index ≡ 0)
    fflush-cases f w (failed, w') o e = rw (fflush-step f o w w' failed e) (
      record {
        opened = record { size = o.size; within = omega arith };
        same_fd = refl;
        added = λ p. cc;
        emptied = λ _. refl;
      },
      refl,
    )
    fflush-cases f w (wrote n, w') o e =
        let whole : take n (pending f) ≡ pending f =
          take-length n (pending f) (omega (arith, complete f.fd (pending f) w w' n e)) in
        rw (fflush-step f o w w' (wrote n) e) (
          record {
            opened = record { size = o.size; within = omega arith };
            same_fd = refl;
            added = λ _. rw (append-nil, append-nil, sent_wrote f.fd (pending f) w w' n e, whole);
            emptied = λ p. cc;
          },
          refl,
        )

    -- `fflush` on an open stream, where a `write` that succeeds takes the whole buffer: the stream
    -- stays open on the same descriptor with an empty buffer, and if the result is true, what the
    -- stream held has been sent.
    pub fflush-Appended :
        (f : File) (w : World)
        → IsOpen f
        → Appended f [] w (fflush k f w) × ((fflush k f w).1.buffer_index ≡ 0)
    fflush-Appended f w o = fflush-cases f w (write f.fd (pending f) w) o refl

    -- After `make_room` a stream that can go on has room.
    record Roomy (f : File) (w : World) (res : Bool × File × World) : Type 0 where
      appended : Appended f [] w res
      roomy : res.0 ≡ true → res.1.buffer_index < buffer_size

    make_room-Roomy : (f : File) (w : World) → IsOpen f → Roomy f w (make_room k f w)
    unfolding make_room
    make_room-Roomy f w o = elim (Bool-cases (f.buffer_index == buffer_size)) [
      | inl full ↦
          let (a, empty) = fflush-Appended f w o in
          rw full (record { appended = a; roomy = λ _. omega arith })
      | inr free ↦ rw free (record {
        appended = record {
          opened = o;
          same_fd = refl;
          added = λ _. sym (append-nil (held f w));
          emptied = λ p. cc;
        };
        roomy = λ _. ground (arith, o.within);
      })
    ]

    -- What is held once a round has copied its bytes, with the rest of the text behind.
    held-fill :
        (f : File) (str : Bytes) (w : World)
        → IsOpen f
        → held (fill k f str) w ++ drop (chunk_of f.buffer_index (length str)) str ≡ held f w ++ str
    held-fill f str w o =
        let parts = take-append-drop (chunk_of f.buffer_index (length str)) str in
        rw (fill-fd f str, pending-fill f str o, ← append_assoc, append_assoc)
          (ap (λ t. held f w ++ t) (unfold run in parts))

    -- One round, given what the rounds behind it do.
    buffer_all-cons :
        (fuel : ℕ) (f : File) (c : ℕ) (str : Bytes) (w : World)
        → length str < fuel
        → ((f' : File) (str' : Bytes) (w' : World)
            → length str' < fuel
            → IsOpen f'
            → Ends f' str' w' (buffer_all k fuel f' str' w'))
        → (res : Bool × File × World) → Roomy f w res
        → Ends f (c ∷ str) w (
            if res.0
            then buffer_all k fuel
                (fill k res.1 (c ∷ str))
                (drop (chunk_of res.1.buffer_index (length (c ∷ str))) (c ∷ str))
                res.2
            else some (false, res.1, res.2))
    buffer_all-cons fuel f c str w h rest (false, f', w') r = record {
      result = (false, f', w');
      ends = refl;
      appended = record {
        opened = r.appended.opened;
        same_fd = r.appended.same_fd;
        added = λ p. cc;
        emptied = r.appended.emptied;
      };
    }
    buffer_all-cons fuel f c str w h rest (true, f', w') r =
        let s = c ∷ str in
        let n = chunk_of f'.buffer_index (length s) in
        let left : length (drop n s) < fuel =
          omega (arith, length-drop n s, chunk_pos f'.buffer_index (length str) (r.roomy refl)) in
        let e = rest (fill k f' s) (drop n s) w' left (fill-IsOpen f' s r.appended.opened) in
        record {
          result = e.result;
          ends = e.ends;
          appended = record {
            opened = e.appended.opened;
            same_fd = e.appended.same_fd ∙ fill-fd f' s ∙ r.appended.same_fd;
            added = λ p.
                e.appended.added p
                ∙ held-fill f' s w' r.appended.opened
                ∙ ap (λ t. t ++ s) (r.appended.added refl ∙ append-nil (held f w));
            emptied = e.appended.emptied;
          };
        }

    buffer_all-Ends :
        (fuel : ℕ) (f : File) (str : Bytes) (w : World)
        → length str < fuel
        → IsOpen f
        → Ends f str w (buffer_all k fuel f str w)
    unfolding buffer_all
    buffer_all-Ends zero f str w h o = absurd (omega arith)
    buffer_all-Ends (suc fuel) f [] w h o = record {
      result = (true, f, w);
      ends = refl;
      appended = record {
        opened = o;
        same_fd = refl;
        added = λ _. sym (append-nil (held f w));
        emptied = λ p. cc;
      };
    }
    buffer_all-Ends (suc fuel) f (c ∷ str) w h o =
        buffer_all-cons fuel f c str w (omega arith)
          (λ f' str' w' h' o'. buffer_all-Ends fuel f' str' w' h' o') (make_room k f w)
          (make_room-Roomy f w o)

    -- `fput_bytes` on an open buffered stream, where a `write` that succeeds takes the whole
    -- buffer. It returns, and the stream is still open on the same descriptor. If it returns true,
    -- the bytes sent and waiting are those from before with `str` behind them; if it returns
    -- false, the buffer is empty.
    pub fput_bytes-buffered :
        (f : File) (str : Bytes) (w : World) → IsOpen f → Ends f str w (fput_bytes k f str w)
    unfolding fput_bytes
    fput_bytes-buffered f str w o =
        rw (==_false f.buffer_index no_buffer (omega (arith, o.within)))
          (buffer_all-Ends (length str + 1) f str w (omega arith) o)
