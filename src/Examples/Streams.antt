-- ===== src/Examples/Streams.antt =====
-- Examples for the streams of src/stdio.c.
use freestanding_custom_c_li.Prelude.{
  ℕ, ◌+◌, ◌-◌, ◌≤◌, ◌≡◌, refl, ap, sym, ◌∙◌, true, [], ◌∷◌, ◌++◌, arith, min, Bytes, length, take,
  replicate, ◌==◌, ==_iff, if◌then◌else◌,
}
use freestanding_custom_c_li.Kernel.{Kernel, Outcome, wrote, failed}
use freestanding_custom_c_li.Stdio.{File, no_buffer, fflush, fput_bytes}
use freestanding_custom_c_li.Stdio.Unbuffered.{Progress, Delivered, fput_bytes-unbuffered}
use freestanding_custom_c_li.Stdio.Buffered.{
  IsOpen, Complete, Appended, Ends, held, fflush-Appended, fflush-short, fput_bytes-buffered,
}

abbrev pub Received : Type 0
Received = ℕ → Bytes

count_of : Outcome → ℕ
count_of (wrote n) = n
count_of failed = 0

-- A kernel that takes `limit n` of `n` bytes.
module _ (limit : ℕ → ℕ) where
  abbrev pub accept : ℕ → Bytes → Received → Outcome × Received
  accept fd bs w =
      (wrote (limit (length bs)), λ d. if d == fd then w d ++ take (limit (length bs)) bs else w d)

  accept_count :
      (fd : ℕ) (bs : Bytes) (w w' : Received) (n : ℕ)
      → accept fd bs w ≡ (wrote n, w')
      → limit (length bs) ≡ n
  unfolding count_of
  accept_count fd bs w w' n e = ap (λ (r : Outcome × Received). count_of r.0) e

  pub accept_sent :
      (fd : ℕ) (bs : Bytes) (w w' : Received) (n : ℕ)
      → accept fd bs w ≡ (wrote n, w')
      → w' fd ≡ w fd ++ take n bs
  accept_sent fd bs w w' n e =
      ap (λ (r : Outcome × Received). r.1 fd) (sym e)
      ∙ rw ((==_iff fd fd).1 refl) (ap (λ k. w fd ++ take k bs) (accept_count fd bs w w' n e))

  pub accept_ok :
      (fd : ℕ) (bs : Bytes) (w w' : Received) → accept fd bs w ≡ (failed, w') → w' fd ≡ w fd
  accept_ok fd bs w w' e =
      let impossible : wrote (limit (length bs)) ≡ failed =
        ap (λ (r : Outcome × Received). r.0) e in
      cc

  pub accept_le :
      ((n : ℕ) → limit n ≤ n)
      → (fd : ℕ) (bs : Bytes) (w w' : Received) (n : ℕ) → accept fd bs w ≡ (wrote n, w')
      → n ≤ length bs
  accept_le small fd bs w w' n e = omega (arith, small (length bs), accept_count fd bs w w' n e)

abbrev pub kernel : (limit : ℕ → ℕ) → ((n : ℕ) → limit n ≤ n) → Kernel
kernel limit small = record {
  World = Received;
  write = accept limit;
  sent = λ fd w. w fd;
  wrote_le = accept_le limit small;
  sent_wrote = accept_sent limit;
  sent_failed = accept_ok limit;
}

pub whole_le : (n : ℕ) → n ≤ n
whole_le n = omega arith

pub two_le : (n : ℕ) → min 2 n ≤ n
two_le n = omega arith

abbrev pub whole : Kernel
whole = kernel (λ n. n) whole_le

-- At most two bytes at a time.
abbrev pub halting : Kernel
halting = kernel (min 2) two_le

pub whole-Complete : Complete whole
whole-Complete fd bs w w' n e = sym (accept_count (λ n. n) fd bs w w' n e)

halting-Progress : Progress halting
halting-Progress fd c bs w w' e = absurd (omega (arith, accept_count (min 2) fd (c ∷ bs) w w' 0 e))

abbrev pub nothing : Received
nothing fd = []

abbrev stderr : File
stderr = record { fd = 2; buffer_index = no_buffer; buffer = replicate 1024 0 }

-- A buffer with three bytes in it.
abbrev pub stdout : File
stdout = record { fd = 1; buffer_index = 3; buffer = b'x' ∷ b'y' ∷ b'z' ∷ replicate 1021 0 }

pub stdout-IsOpen : IsOpen stdout
stdout-IsOpen = record { size = refl; within = omega arith }

fput_bytes-unbuffered_example :
    Delivered halting stderr
      (b'a' ∷ b'b' ∷ b'c' ∷ [])
      nothing
      (fput_bytes halting stderr (b'a' ∷ b'b' ∷ b'c' ∷ []) nothing)
fput_bytes-unbuffered_example =
    fput_bytes-unbuffered halting halting-Progress stderr (b'a' ∷ b'b' ∷ b'c' ∷ []) nothing refl

fput_bytes-buffered_example :
    Ends whole stdout
      (b'a' ∷ b'b' ∷ [])
      nothing
      (fput_bytes whole stdout (b'a' ∷ b'b' ∷ []) nothing)
fput_bytes-buffered_example =
    fput_bytes-buffered whole whole-Complete stdout (b'a' ∷ b'b' ∷ []) nothing stdout-IsOpen

fflush-Appended_example :
    Appended whole stdout [] nothing (fflush whole stdout nothing)
    × ((fflush whole stdout nothing).1.buffer_index ≡ 0)
fflush-Appended_example = fflush-Appended whole whole-Complete stdout nothing stdout-IsOpen

fflush-short_example :
    let (ok, f', after) = fflush halting stdout nothing in
    (ok ≡ true) × (length (held halting f' after) + (3 - 2) ≡ length (held halting stdout nothing))
fflush-short_example =
    fflush-short halting stdout stdout-IsOpen nothing
      (λ d. if d == 1 then nothing d ++ (b'x' ∷ b'y' ∷ []) else nothing d) 2 refl
