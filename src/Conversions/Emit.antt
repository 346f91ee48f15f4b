-- ===== src/Conversions/Emit.antt =====
-- The digit loop that ends each printer of src/conversions.c.
use freestanding_custom_c_li.Prelude.{
  ℕ, zero, suc, ◌+◌, ◌-◌, ◌/◌, ◌%◌, ◌^◌, ◌≤◌, ◌<◌, ◌≡◌, ap, ◌∙◌, map, arith, Bytes, length, take,
  drop, set, length-set,
}
use freestanding_custom_c_li.Prelude.Overwrite.{overwrite, overwrite-set, overwrite-nil}
use freestanding_custom_c_li.Prelude.Power.{mod-pow-lt, pow-div_pred}
use freestanding_custom_c_li.Conversions.{Emitted, emit}
use freestanding_custom_c_li.Conversions.Digits.{digits_of}

module _ (r : ℕ) (r2 : 2 ≤ r) (digit : ℕ → ℕ) where
  -- `k` rounds at `d` digits left write the first `k` of them and leave the others.
  pub record Emits (k d v : ℕ) (buffer : Bytes) (w : ℕ) (e : Emitted) : Type 0 where
    pub count : e.w ≡ w + k
    pub bytes : e.buffer ≡ overwrite buffer w (map digit (take k (digits_of r d v)))
    pub rest : digits_of r (d - k) e.v ≡ drop k (digits_of r d v)
    pub small : e.v < r ^ (d - k)

  Emits-suc :
      (k d v : ℕ) (buffer : Bytes) (w : ℕ) (e : Emitted)
      → w < length buffer
      → Emits k d (v % r ^ d) (set buffer w (digit (v / r ^ d))) (suc w) e
      → Emits (suc k) (suc d) v buffer w e
  Emits-suc k d v buffer w e h s =
      let n : suc d - suc k ≡ d - k = omega arith in
      record {
        count = omega (arith, s.count);
        bytes = s.bytes ∙ overwrite-set buffer w (digit (v / r ^ d)) _ h;
        rest = rw n s.rest;
        small = rw n s.small;
      }

  pub emit-Emits :
      (k d v : ℕ) (buffer : Bytes) (w div : ℕ)
      → v < r ^ d
      → k ≤ d
      → (1 ≤ d → div ≡ r ^ (d - 1))
      → w + k ≤ length buffer
      → w + k < 2 ^ 32
      → Emits k d v buffer w (emit r digit k buffer w v div)
  unfolding emit
  emit-Emits zero d v buffer w div lt le weight room fits =
      let e : d - 0 ≡ d = omega arith in
      record { count = omega arith; bytes = overwrite-nil buffer w; rest = rw e; small = rw e lt }
  emit-Emits (suc k) zero v buffer w div lt le weight room fits = absurd (omega arith)
  emit-Emits (suc k) (suc d) v buffer w div lt le weight room fits =
      let here : div ≡ r ^ d = weight (omega arith) ∙ ap (λ n. r ^ n) (omega arith) in
      let next : (w + 1) % 2 ^ 32 ≡ suc w = omega arith in
      rw (here, next)
        (Emits-suc k d v buffer w _ (omega arith) (
          emit-Emits k d (v % r ^ d) (set buffer w (digit (v / r ^ d))) (suc w) (r ^ d / r)
            (mod-pow-lt r r2 d v) (omega arith) (λ p. pow-div_pred r r2 d p)
            (omega (arith, length-set buffer w (digit (v / r ^ d)))) (omega arith)))
