-- ===== src/Stdio/Unbuffered.antt =====
-- Output to an unbuffered stream of src/stdio.c, as `stderr` is.
use freestanding_custom_c_li.Prelude.{
  ℕ, zero, suc, ◌+◌, ◌<◌, ◌≡◌, refl, ap, sym, ◌∙◌, Bool, true, false, some, [], ◌∷◌, ◌++◌, arith,
  Bytes, length, take, drop, take-append-drop, length-drop, ==_iff,
}
use freestanding_custom_c_li.Kernel.{Kernel, Outcome, wrote, failed}
use freestanding_custom_c_li.Stdio.{File, Run, no_buffer, write_all, after_write, fput_bytes}
use mathlib.Core.List.{append-nil, append_assoc}

-- A `write` of some bytes takes one of them at least, or fails.
abbrev pub Progress : Kernel → Type 0
Progress k =
    (fd : ℕ) (c : ℕ) (bs : Bytes) (w w' : Kernel.World k)
    → Kernel.write k fd (c ∷ bs) w ≡ (wrote 0, w')
    → ⊥

module _ (k : Kernel) where
  open k use {World, write, sent, sent_wrote, sent_failed, wrote_le}

  -- A run has ended: the descriptor has received `front`, the beginning of `str`, and all of `str`
  -- if the run says so.
  pub record Delivered (out : File) (str : Bytes) (w : World) (run : Run k) : Type 0 where
    pub ok : Bool
    pub world : World
    pub ends : run ≡ some (ok, out, world)
    pub front : Bytes
    pub back : Bytes
    pub split : str ≡ front ++ back
    pub received : sent out.fd world ≡ sent out.fd w ++ front
    pub all : ok ≡ true → back ≡ []

  Delivered-wrote :
      (out : File) (n : ℕ) (c : ℕ) (str : Bytes) (w w' : World) (run : Run k)
      → write out.fd (c ∷ str) w ≡ (wrote n, w')
      → Delivered out (drop n (c ∷ str)) w' run
      → Delivered out (c ∷ str) w run
  Delivered-wrote out n c str w w' run e d = record {
    ok = d.ok;
    world = d.world;
    ends = d.ends;
    front = take n (c ∷ str) ++ d.front;
    back = d.back;
    split =
        sym (take-append-drop n (c ∷ str))
        ∙ ap (λ t. take n (c ∷ str) ++ t) d.split
        ∙ sym (append_assoc (take n (c ∷ str)) d.front d.back);
    received =
        d.received
        ∙ ap (λ t. t ++ d.front) (sent_wrote out.fd (c ∷ str) w w' n e)
        ∙ append_assoc (sent out.fd w) (take n (c ∷ str)) d.front;
    all = d.all;
  }

  module _ (progress : Progress k) where
    -- One round, given what the rounds behind it do.
    write_all-cons :
        (fuel : ℕ) (out : File) (c : ℕ) (str : Bytes) (w : World)
        → ((n : ℕ) (w' : World)
            → Delivered out (drop n str) w' (write_all k fuel out (drop n str) w'))
        → (r : Outcome × World) → write out.fd (c ∷ str) w ≡ r
        → Delivered out (c ∷ str) w (write_all k (suc fuel) out (c ∷ str) w)
    unfolding write_all after_write
    write_all-cons fuel out c str w rest (failed, w') e = rw e (record {
      ok = false;
      world = w';
      ends = refl;
      front = [];
      back = c ∷ str;
      split = refl;
      received = sent_failed out.fd (c ∷ str) w w' e ∙ sym (append-nil (sent out.fd w));
      all = λ p. cc;
    })
    write_all-cons fuel out c str w rest (wrote zero, w') e = absurd (progress out.fd c str w w' e)
    write_all-cons fuel out c str w rest (wrote (suc n), w') e =
        rw e (Delivered-wrote out (suc n) c str w w' _ e (rest n w'))

    write_all-Delivered :
        (fuel : ℕ) (out : File) (str : Bytes) (w : World)
        → length str < fuel
        → Delivered out str w (write_all k fuel out str w)
    write_all-Delivered zero out str w h = absurd (omega arith)
    write_all-Delivered (suc fuel) out [] w h =
        unfold write_all in
        record {
          ok = true;
          world = w;
          ends = refl;
          front = [];
          back = [];
          split = refl;
          received = sym (append-nil (sent out.fd w));
          all = λ _. refl;
        }
    write_all-Delivered (suc fuel) out (c ∷ str) w h =
        write_all-cons fuel out c str w
          (λ n w'. write_all-Delivered fuel out (drop n str) w' (omega (arith, length-drop n str)))
          (write out.fd (c ∷ str) w) refl

    -- `fput_bytes` on an unbuffered stream, where no `write` of some bytes takes 0 of them.
    -- However the kernel cuts the writes, it returns with the stream unchanged, the descriptor has
    -- received a beginning of `str` in order, and all of `str` if it returns true.
    pub fput_bytes-unbuffered :
        (out : File) (str : Bytes) (w : World)
        → out.buffer_index ≡ no_buffer
        → Delivered out str w (fput_bytes k out str w)
    unfolding fput_bytes
    fput_bytes-unbuffered out str w e =
        rw ((==_iff out.buffer_index no_buffer).1 e)
          (write_all-Delivered (length str + 1) out str w (omega arith))
