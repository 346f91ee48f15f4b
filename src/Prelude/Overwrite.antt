-- ===== src/Prelude/Overwrite.antt =====
-- Writing a run of bytes into a buffer.
use freestanding_custom_c_li.Prelude.Lists.{
  Bytes, length, take, drop, set, take-append-drop, take-set, drop-set, take-append, length-append,
  length-take, length-drop,
}
use Prim.Native.Nat.{ℕ, suc, ◌+◌, ◌≤◌, ◌<◌}
use mathlib.Core.Path.{◌≡◌, ap, sym}
use mathlib.Core.List.{[], ◌∷◌, ◌++◌, append_assoc}
use native.Mathlib.Omega.{arith}

-- `buffer` with `out` written over it from index `w` on.
abbrev pub overwrite : Bytes → ℕ → Bytes → Bytes
overwrite buffer w out = take w buffer ++ (out ++ drop (w + length out) buffer)

-- Writing a byte and then `out` behind it is writing both.
pub overwrite-set :
    (buffer : Bytes) (w c : ℕ) (out : Bytes)
    → w < length buffer
    → overwrite (set buffer w c) (suc w) out ≡ overwrite buffer w (c ∷ out)
overwrite-set buffer w c out h =
    rw (take-set w buffer c h, drop-set (suc w + length out) w buffer c (omega arith), append_assoc)
      (ap (λ n. take w buffer ++ (c ∷ (out ++ drop n buffer))) (omega arith))

pub overwrite-nil : (buffer : Bytes) (w : ℕ) → buffer ≡ overwrite buffer w []
overwrite-nil buffer w = let e : w + 0 ≡ w = omega arith in rw e (sym (take-append-drop w buffer))

-- The first bytes of an overwritten buffer.
pub take-overwrite :
    (b : Bytes) (w : ℕ) (out : Bytes)
    → w ≤ length b
    → take (w + length out) (overwrite b w out) ≡ take w b ++ out
take-overwrite b w out h =
    let e : w + length out ≡ length (take w b ++ out) =
      omega (arith, length-append (take w b) out, length-take w b) in
    rw (e, ← append_assoc) (take-append (take w b ++ out) _)

pub length-overwrite :
    (b : Bytes) (w : ℕ) (out : Bytes)
    → w + length out ≤ length b
    → length (overwrite b w out) ≡ length b
length-overwrite b w out h = omega (
  arith,
  length-append (take w b) (out ++ drop (w + length out) b),
  length-append out (drop (w + length out) b),
  length-take w b,
  length-drop (w + length out) b,
)
