-- ===== src/Strings/Compare.antt =====
-- `strcmp` (src/string/strcmp.c).
use freestanding_custom_c_li.Prelude.{
  leb, ◌+◌, ◌-◌, ◌^◌, ◌%◌, leb, ℕ, zero, suc, ◌<◌, ◌≡◌, ◌≢◌, ◌↔◌, refl, ap, sym, ◌∙◌, some, [], ◌∷◌,
  arith, Bytes, length, ◌==◌, ==_iff, ==_false, if◌then◌else◌, Bool-cases, inl, inr,
}
use freestanding_custom_c_li.Strings.Memory.{Mem, IsString, end, char}
use freestanding_custom_c_li.Strings.{strcmp, char_diff}

-- The place of a byte among the 256 values of a signed `char`, in their order: 0 for -128, 128
-- for 0 and 255 for 127.
abbrev pub place : ℕ → ℕ
place c = (c + 128) % 256

-- The pattern of `x - y`, where that may be negative.
abbrev pub minus : ℕ → ℕ → ℕ
minus x y = if leb y x then x - y else 2 ^ 64 - (y - x)

-- The comparison of two texts: how far the first is in front at the first place where they differ,
-- the end of a text counting as NUL.
abbrev pub difference : Bytes → Bytes → ℕ
difference [] [] = 0
difference [] (d ∷ t) = minus (place 0) (place d)
difference (c ∷ s) [] = minus (place c) (place 0)
difference (c ∷ s) (d ∷ t) = if c == d then difference s t else minus (place c) (place d)

-- The code's difference of two signed bytes.
char_diff-minus : (c d : ℕ) → c < 256 → d < 256 → char_diff c d ≡ minus (place c) (place d)
char_diff-minus c d hc hd = ground arith

abbrev pub AllBytes : Bytes → Type 0
AllBytes [] = Unit
AllBytes (c ∷ s) = (c < 256) × (c ≢ 0) × AllBytes s

strcmp-difference :
    (fuel : ℕ) {m : Mem} {p q : ℕ} {s t : Bytes}
    → IsString m p s
    → IsString m q t
    → AllBytes s
    → AllBytes t
    → length s < fuel
    → strcmp fuel m p q ≡ some (difference s t)
unfolding strcmp
strcmp-difference zero a b hs ht h = absurd (omega arith)
strcmp-difference (suc fuel) (end e) (end f) hs ht h = rw (e, f)
strcmp-difference (suc fuel) (end e) (char {c = d} f ne b) hs ht h =
    rw (e, f, char_diff-minus 0 d (omega arith) ht.0)
strcmp-difference (suc fuel) (char {c} e ne a) (end f) hs ht h =
    rw (e, f, ==_false c 0 ne, char_diff-minus c 0 hs.0 (omega arith))
strcmp-difference (suc fuel) (char {c} e ne a) (char {c = d} f ne' b) hs ht h =
    elim (Bool-cases (c == d)) [
      | inl same ↦
          rw (e, f, ==_false c 0 ne, ==_false d 0 ne', same)
            (strcmp-difference fuel a b hs.2 ht.2 (omega arith))
      | inr other ↦
          rw (e, f, ==_false c 0 ne, ==_false d 0 ne', other, char_diff-minus c d hs.0 ht.0)
    ]

eq_of_difference : (s t : Bytes) → AllBytes s → AllBytes t → difference s t ≡ 0 → s ≡ t
eq_of_difference [] [] hs ht e = refl
eq_of_difference [] (d ∷ t) hs ht e = absurd (ground arith)
eq_of_difference (c ∷ s) [] hs ht e = absurd (ground arith)
eq_of_difference (c ∷ s) (d ∷ t) hs ht e = elim (Bool-cases (c == d)) [
  | inl same ↦
      let e' : difference s t ≡ 0 = rw same at e in
      let c_d : c ≡ d = (==_iff c d).0 same in
      let s_t = eq_of_difference s t hs.2 ht.2 e' in λ i. c_d i ∷ s_t i
  | inr other ↦ let e' : minus (place c) (place d) ≡ 0 = rw other at e in absurd (ground arith)
]

difference_self : (s : Bytes) → difference s s ≡ 0
difference_self [] = refl
difference_self (c ∷ s) = rw ((==_iff c c).1 refl) (difference_self s)

-- `strcmp` on two strings of bytes from 1 to 255, the first shorter than the fuel: it returns how
-- far the first differing byte of the first string is in front of that of the second in the order
-- of signed bytes from -128 to 127, as a 64-bit pattern, where the NUL counts as 0, and that is 0
-- exactly when the strings are equal.
pub strcmp-eq :
    (fuel : ℕ) {m : Mem} {p q : ℕ} {s t : Bytes}
    → IsString m p s
    → IsString m q t
    → AllBytes s
    → AllBytes t
    → length s < fuel
    → (strcmp fuel m p q ≡ some (difference s t)) × ((difference s t ≡ 0) ↔ (s ≡ t))
strcmp-eq fuel {s} {t} a b hs ht h = (
  strcmp-difference fuel a b hs ht h,
  (λ e. eq_of_difference s t hs ht e, λ e. ap (difference s) (sym e) ∙ difference_self s),
)
