-- ===== src/Conversions/Finish.antt =====
-- The end of each printer of src/conversions.c, and the two ways to begin: what a call writes, and
-- what the integer it leaves behind stands for.
use freestanding_custom_c_li.Prelude.{
  ℕ, suc, ◌+◌, ◌-◌, ◌*◌, ◌%◌, ◌^◌, ◌≤◌, ◌<◌, ◌≡◌, refl, ap, sym, ◌∙◌, List, [], map, arith, min,
  Bytes, length, take, drop, take-length, drop-length, ltb_iff, ltb-false, ==_false, ==_iff,
}
use freestanding_custom_c_li.Prelude.Overwrite.{overwrite}
use freestanding_custom_c_li.Prelude.Power.{pow_mono, pow_double, exponent_lt, pow-div_pred}
use freestanding_custom_c_li.Conversions.{
  Ret, Plan, pow_loop, finish, decode, measure, enc_span, top_power, count_digits,
}
use freestanding_custom_c_li.Conversions.Digits.{digits_of, length-digits_of}
use freestanding_custom_c_li.Conversions.Loops.{pow_loop-pow, top_power-pow, count_digits-pow}
use freestanding_custom_c_li.Conversions.Emit.{emit-Emits}
use native.Mathlib.Decide.{dec_lt}
use native.Mathlib.Nat.{pow-zero}

-- `x` stands for the digits `ds` that are still to be printed: 0 for none, and otherwise the
-- encoding of a 1 followed by them.
pub data Left (encode : ℕ → ℕ) (r x : ℕ) (ds : List ℕ) : Type 0 where
  done : x ≡ 0 → ds ≡ [] → Left encode r x ds
  more :
      (m s : ℕ)
      → 1 ≤ m
      → s < r ^ m
      → r ^ m + s ≤ enc_span
      → x ≡ encode (r ^ m + s)
      → ds ≡ digits_of r m s
      → Left encode r x ds

-- A call that could write `n` bytes from index `w` on has written the first digits of `ds`, as
-- many as fit, and left the others to be printed.
pub record Prints (encode digit : ℕ → ℕ) (r n w : ℕ) (ds : List ℕ) (buffer : Bytes) (out : Ret)
    : Type 0 where
  pub count : out.written ≡ w + min n (length ds)
  pub bytes : out.buffer ≡ overwrite buffer w (map digit (take n ds))
  pub left : Left encode r out.value (drop n ds)

-- A plan is sound if its digits hold the value and its weight is that of the first digit.
pub record IsSound (r : ℕ) (p : Plan) : Type 0 where
  pub holds : p.v < r ^ p.digits
  pub some_digits : 1 ≤ p.digits
  pub few : p.digits ≤ 64
  pub weight : p.div ≡ r ^ (p.digits - 1)

-- With `rem` digits left the encoding fits its span.
abbrev pub Fits : ℕ → ℕ → Type 0
Fits r rem = 2 * r ^ rem ≤ enc_span

module _ (r : ℕ) (r2 : 2 ≤ r) where
  pow_loop-one : (n : ℕ) → r ^ n < 2 ^ 64 → pow_loop r n 1 ≡ r ^ n
  pow_loop-one n h =
      let e : 0 + n ≡ n = omega arith in
      ap (pow_loop r n) (sym (pow-zero r)) ∙ pow_loop-pow r r2 n 0 (rw e h) ∙ ap (λ k. r ^ k) e

  pub Fits-mono : (a b : ℕ) → a ≤ b → Fits r b → Fits r a
  Fits-mono a b h f = omega (arith, pow_mono r r2 a b h)

  module _ (encode digit : ℕ → ℕ) where
    -- The buffer ends before the digits do.
    finish_short :
        (buffer : Bytes) (n w : ℕ) (p : Plan)
        → IsSound r p
        → w ≤ 1
        → w + n ≤ length buffer
        → Fits r (p.digits - n)
        → n < p.digits
        → Prints encode digit r n w
            (digits_of r p.digits p.v)
            buffer
            (finish encode digit r buffer n w p)
    unfolding finish
    finish_short buffer n w p sound w1 room fits lt =
        let short : n % 2 ^ 32 ≡ n = omega (arith, sound.few) in
        let e =
          emit-Emits r r2 digit n p.digits p.v buffer w p.div sound.holds (omega arith)
            (λ _. sound.weight) room (omega (arith, sound.few)) in
        let power : pow_loop r (p.digits - n) 1 ≡ r ^ (p.digits - n) =
          pow_loop-one (p.digits - n) (omega arith) in
        rw ((ltb_iff n p.digits).1 lt, short, ==_false (p.digits - n) 0 (omega arith), power)
          (record {
            count = omega (arith, e.count, length-digits_of r p.digits p.v);
            bytes = e.bytes;
            left =
                more (p.digits - n) _ (omega arith) e.small (omega (arith, e.small))
                  (ap encode (omega (arith, e.small))) (sym e.rest);
          })

    -- All the digits fit.
    finish_long :
        (buffer : Bytes) (n w : ℕ) (p : Plan)
        → IsSound r p
        → w ≤ 1
        → w + n ≤ length buffer
        → p.digits ≤ n
        → Prints encode digit r n w
            (digits_of r p.digits p.v)
            buffer
            (finish encode digit r buffer n w p)
    unfolding finish
    finish_long buffer n w p sound w1 room ge =
        let size = length-digits_of r p.digits p.v in
        let e =
          emit-Emits r r2 digit p.digits p.digits p.v buffer w p.div sound.holds (omega arith)
            (λ _. sound.weight) (omega arith) (omega (arith, sound.few)) in
        rw (ltb-false n p.digits ge, (==_iff (p.digits - p.digits) 0).1 (omega arith))
          (record {
            count = omega (arith, e.count, size);
            bytes = rw (take-length n (digits_of r p.digits p.v) (omega (arith, size))) (
                e.bytes
                ∙ ap (λ ds. overwrite buffer w (map digit ds))
                    (take-length p.digits (digits_of r p.digits p.v) (omega (arith, size))));
            left = done refl (drop-length n (digits_of r p.digits p.v) (omega (arith, size)));
          })

    pub finish-Prints :
        (buffer : Bytes) (n w : ℕ) (p : Plan)
        → IsSound r p
        → w ≤ 1
        → w + n ≤ length buffer
        → Fits r (p.digits - n)
        → Prints encode digit r n w
            (digits_of r p.digits p.v)
            buffer
            (finish encode digit r buffer n w p)
    finish-Prints buffer n w p sound w1 room fits = elim (dec_lt n p.digits) [
      | yes lt ↦ finish_short buffer n w p sound w1 room fits lt
      | no ge ↦ finish_long buffer n w p sound w1 room (omega arith)
    ]

  pub decode-IsSound :
      (m s : ℕ)
      → 1 ≤ m
      → s < r ^ m
      → r ^ m + s ≤ enc_span
      → decode r (r ^ m + s) ≡ record { v = s; digits = m; div = r ^ (m - 1) }
  unfolding decode
  decode-IsSound m s m1 lt fits =
      let below : m < 64 = exponent_lt r r2 64 m (r ^ m) (omega arith) (omega arith) in
      let found : top_power r 64 (r ^ m + s) 1 0 ≡ (r ^ m, m) =
        ap (λ b. top_power r 64 (r ^ m + s) b 0) (sym (pow-zero r))
        ∙ top_power-pow r r2 64 m (r ^ m + s) 0 (omega arith) below (omega arith)
            (omega (arith, pow_double r r2 m)) (omega arith) (omega arith) in
      let rest : (r ^ m + s + 2 ^ 64 - r ^ m) % 2 ^ 64 ≡ s = omega arith in
      rw found (λ i. record { v = rest i; digits = m; div = pow-div_pred r r2 m m1 i })

  pub measure-IsSound :
      (m v : ℕ)
      → r ^ m ≤ v
      → v < r ^ suc m
      → v < 2 ^ 64
      → measure r v ≡ record { v = v; digits = m + 1; div = r ^ m }
  unfolding measure
  measure-IsSound m v lo hi fits =
      let below : m < 64 = exponent_lt r r2 64 m v lo fits in
      let counted : count_digits r 65 v 0 ≡ m + 1 =
        count_digits-pow r r2 65 m v 0 (omega arith) lo hi (omega arith) ∙ omega arith in
      let weight : pow_loop r (m + 1 - 1) 1 ≡ r ^ m =
        ap (λ k. pow_loop r k 1) (omega arith) ∙ pow_loop-one m (omega arith) in
      rw counted (λ i. record { v = v; digits = m + 1; div = weight i })

  -- The plan of a resumed print, and the room that its rest leaves for the next encoding.
  pub rest_plan-IsSound :
      (m s : ℕ)
      → 1 ≤ m
      → s < r ^ m
      → r ^ m + s ≤ enc_span
      → IsSound r (record { v = s; digits = m; div = r ^ (m - 1) })
  rest_plan-IsSound m s m1 lt fits =
      let below : m < 64 = exponent_lt r r2 64 m (r ^ m) (omega arith) (omega arith) in
      record { holds = lt; some_digits = m1; few = omega arith; weight = refl }

  pub rest_plan-Fits : (m n : ℕ) → 1 ≤ m → 1 ≤ n → r ^ m ≤ enc_span → Fits r (m - n)
  rest_plan-Fits m n m1 n1 fits =
      omega (arith, pow_double r r2 (m - n), pow_mono r r2 (suc (m - n)) m (omega arith))

  -- The plan of a fresh print.
  pub first_plan-IsSound :
      (m v : ℕ)
      → r ^ m ≤ v
      → v < r ^ suc m
      → v < 2 ^ 64
      → IsSound r (record { v = v; digits = m + 1; div = r ^ m })
  first_plan-IsSound m v lo hi word =
      let below : m < 64 = exponent_lt r r2 64 m v lo word in
      let same : r ^ suc m ≡ r ^ (m + 1) = ap (λ k. r ^ k) (omega arith) in
      record {
        holds = omega (arith, same);
        some_digits = omega arith;
        few = omega arith;
        weight = ap (λ k. r ^ k) (omega arith);
      }
