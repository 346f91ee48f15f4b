-- ===== src/Conversions/Drain.antt =====
-- Printing an integer through a row of buffers, as the comment on the resumable API in
-- intf/stdlib.h describes it: call again until the integer is 0.
use freestanding_custom_c_li.Prelude.{
  ℕ, ◌+◌, ◌^◌, ◌≤◌, ◌<◌, ◌≡◌, refl, ap, ◌∙◌, List, [], ◌∷◌, ◌++◌, map, some, arith, Bytes, Option,
  length, take, drop, take-length, drop-length, take-add, drop-add, length-map, length-take, ◌==◌,
  ==_false, ==_iff, if◌then◌else◌,
}
use freestanding_custom_c_li.Conversions.{Ret, ret, Call, enc_span}
use freestanding_custom_c_li.Conversions.Digits.{digits_of}
use freestanding_custom_c_li.Prelude.Overwrite.{take-overwrite}
use freestanding_custom_c_li.Conversions.Finish.{Left, done, more, Prints}
use mathlib.Core.List.{map-append, append-nil, append_assoc}

abbrev pub Printer : Type 0
Printer = ℕ → Bytes → ℕ → Ret

-- What a call through non-null pointers leaves behind.
abbrev pub chunk : Call → Ret
chunk (w, some v, some b) = ret w v b
chunk (w, _, _) = ret w 0 []

abbrev pub printer : (Option ℕ → Option Bytes → ℕ → Call) → Printer
printer call x b n = chunk (call (some x) (some b) n)

-- The bytes that come out of the buffers, and the integer at the end.
unfoldable pub drain : Printer → ℕ → List Bytes → Bytes × ℕ
drain print x [] = ([], x)
drain print x (b ∷ bs) =
    let r = print x b (length b) in
    let rest = drain print r.value bs in
    let (out, y) = if r.value == 0 then ([], 0) else rest in (take r.written r.buffer ++ out, y)

drain-nil : (print : Printer) (x : ℕ) → drain print x [] ≡ ([], x)
unfolding drain
drain-nil print x = refl

abbrev pub room : List Bytes → ℕ
room [] = 0
room (b ∷ bs) = length b + room bs

-- Each buffer has room for a byte.
abbrev pub AllUsable : List Bytes → Type 0
AllUsable [] = Unit
AllUsable (b ∷ bs) = (1 ≤ length b) × AllUsable bs

module _ (encode digit : ℕ → ℕ) (r : ℕ) where
  pub take-Prints :
      {n w : ℕ} {ds : List ℕ} {b : Bytes} {c : Ret}
      → Prints encode digit r n w ds b c
      → w ≤ length b
      → take c.written c.buffer ≡ take w b ++ map digit (take n ds)
  take-Prints {n} {w} {ds} {b} {c} p h =
      let e : c.written ≡ w + length (map digit (take n ds)) =
        omega (arith, p.count, length-map digit (take n ds), length-take n ds) in
      rw (e, p.bytes) (take-overwrite b w (map digit (take n ds)) h)

  -- Behind `pre`, the first `total` of the digits `ds` have gone out, and the integer stands for
  -- the others.
  pub record Drained (pre : Bytes) (total : ℕ) (ds : List ℕ) (res : Bytes × ℕ) : Type 0 where
    pub out : res.0 ≡ pre ++ map digit (take total ds)
    pub left : Left encode r res.1 (drop total ds)

  take-digits :
      (pre : Bytes) (n k : ℕ) (ds : List ℕ)
      → (pre ++ map digit (take n ds)) ++ map digit (take k (drop n ds))
        ≡ pre ++ map digit (take (n + k) ds)
  take-digits pre n k ds = rw (append_assoc, take-add n k ds, map-append)

  -- One call and the drain behind it: it stops at 0, and goes on with what an encoding stands for.
  pub drain-cons :
      (print : Printer) (pre : Bytes) (n : ℕ) (ds : List ℕ) (x : ℕ) (b : Bytes) (bs : List Bytes)
      → ((t : ℕ) → 1 ≤ t → t ≤ enc_span → 1 ≤ encode t)
      → let c = print x b (length b) in
        take c.written c.buffer ≡ pre ++ map digit (take n ds)
        → Left encode r c.value (drop n ds)
        → ((m s : ℕ)
            → 1 ≤ m
            → s < r ^ m
            → r ^ m + s ≤ enc_span
            → Drained [] (room bs) (digits_of r m s) (drain print (encode (r ^ m + s)) bs))
        → Drained pre (n + room bs) ds (drain print x (b ∷ bs))
  unfolding drain
  drain-cons print pre n ds x b bs nonzero first (done z e) rest =
      let all : take (n + room bs) ds ≡ take n ds =
        take-add n (room bs) ds
        ∙ ap (λ t. take n ds ++ t) (rw e (take-length (room bs) [] (omega arith)))
        ∙ append-nil (take n ds) in
      rw ((==_iff (print x b (length b)).value 0).1 z, append-nil, first)
        (record {
          out = rw all;
          left = done refl (rw (drop-add, e) (drop-length (room bs) [] (omega arith)));
        })
  drain-cons print pre n ds x b bs nonzero first (more m s m1 lt fits e es) rest =
      let t = rest m s m1 lt fits in
      let going : 1 ≤ encode (r ^ m + s) = nonzero (r ^ m + s) (omega arith) fits in
      rw (e, ==_false (encode (r ^ m + s)) 0 (omega arith), first)
        (record {
          out = rw t.out (rw (← es) (take-digits pre n (room bs) ds));
          left = rw (drop-add, es) t.left;
        })

  module _ (print : Printer) (nonzero : (t : ℕ) → 1 ≤ t → t ≤ enc_span → 1 ≤ encode t)
      (resume : (m s : ℕ) (b : Bytes)
        → 1 ≤ m
        → s < r ^ m
        → r ^ m + s ≤ enc_span
        → 1 ≤ length b
        → Prints encode digit r
            (length b)
            0
            (digits_of r m s)
            b
            (print (encode (r ^ m + s)) b (length b))) where
    -- A printer that resumes prints an encoded rest in order, through any buffers.
    pub drain-resume :
        (bs : List Bytes) (m s : ℕ)
        → AllUsable bs
        → 1 ≤ m
        → s < r ^ m
        → r ^ m + s ≤ enc_span
        → Drained [] (room bs) (digits_of r m s) (drain print (encode (r ^ m + s)) bs)
    drain-resume [] m s usable m1 lt fits =
        rw drain-nil (record { out = refl; left = more m s m1 lt fits refl refl })
    drain-resume (b ∷ bs) m s usable m1 lt fits =
        let p = resume m s b m1 lt fits usable.0 in
        drain-cons print [] (length b) (digits_of r m s) (encode (r ^ m + s)) b bs nonzero
          (take-Prints p (omega arith)) p.left
          (λ m' s' m1' lt' fits'. drain-resume bs m' s' usable.1 m1' lt' fits')

    -- So does a fresh integer whose first call prints `pre` and its first digits.
    pub drain-start :
        (pre : Bytes) (n : ℕ) (ds : List ℕ) (x : ℕ) (b : Bytes) (bs : List Bytes)
        → AllUsable bs
        → let c = print x b (length b) in
          take c.written c.buffer ≡ pre ++ map digit (take n ds)
          → Left encode r c.value (drop n ds)
          → Drained pre (n + room bs) ds (drain print x (b ∷ bs))
    drain-start pre n ds x b bs usable first left =
        drain-cons print pre n ds x b bs nonzero first left
          (λ m s m1 lt fits. drain-resume bs m s usable m1 lt fits)
