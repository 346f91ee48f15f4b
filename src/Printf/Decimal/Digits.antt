-- ===== src/Printf/Decimal/Digits.antt =====
-- The digits of a big integer, and digits without the zeros at their end (src/stdio.c).
use freestanding_custom_c_li.Prelude.{
  ℕ, ◌≤◌, zero, suc, ◌+◌, ◌*◌, ◌%◌, ◌/◌, ◌^◌, ◌<◌, ◌≡◌, refl, ap, sym, ◌∙◌, List, [], ◌∷◌, ◌++◌,
  arith, length, ◌==◌, ==_false, Bool-cases, inl, inr,
}
use freestanding_custom_c_li.Conversions.Digits.{value, AllBelow}
use freestanding_custom_c_li.Printf.Decimal.{
  top_digits, word_digits, big_digits, cons_unless_zero, trim,
}
use freestanding_custom_c_li.Printf.Decimal.Bignum.{big_value, AllWords, pow_add}
use native.Mathlib.Decide.{dec_lt}
use native.Mathlib.Nat.{mul-le-mul_right, pow-suc, pow-zero}

-- What a list of digits says behind `acc`.
value_split : (acc : ℕ) (ds : List ℕ) → value 10 acc ds ≡ acc * 10 ^ length ds + value 10 0 ds
value_split acc [] = rw pow-zero (omega arith)
value_split acc (d ∷ ds) =
    let b = 10 ^ length ds in
    let first = value_split (0 * 10 + d) ds in
    let p : acc * 10 ^ suc (length ds) ≡ acc * (b * 10) =
      ap (λ t. acc * t) (pow-suc 10 (length ds)) in
    let q : (acc * 10 + d) * b ≡ acc * (b * 10) + d * b = grind arith in
    let z : (0 * 10 + d) * b ≡ d * b =
      ap (λ t. t * b) (let e : 0 * 10 + d ≡ d = omega arith in e) in
    omega (arith, value_split (acc * 10 + d) ds, first, p, q, z)

pub value_cons : (d : ℕ) (ds : List ℕ) → value 10 0 (d ∷ ds) ≡ d * 10 ^ length ds + value 10 0 ds
value_cons d ds =
    let z : 0 * 10 + d ≡ d = omega arith in ap (λ a. value 10 a ds) z ∙ value_split d ds

pub value-++ :
    (xs ys : List ℕ) → value 10 0 (xs ++ ys) ≡ value 10 0 xs * 10 ^ length ys + value 10 0 ys
value-++ xs ys = go 0 xs
  where
    go :
        (acc : ℕ) (xs : List ℕ)
        → value 10 acc (xs ++ ys) ≡ value 10 acc xs * 10 ^ length ys + value 10 0 ys
    go acc [] = value_split acc ys
    go acc (x ∷ xs) = go (acc * 10 + x) xs

-- A digit in front of others.
value_digit :
    (v : ℕ) (ds : List ℕ)
    → v / 10 * 10 ^ suc (length ds) + value 10 0 (v % 10 ∷ ds) ≡ v * 10 ^ length ds + value 10 0 ds
value_digit v ds =
    let b = 10 ^ length ds in
    let p : 10 ^ suc (length ds) ≡ b * 10 = pow-suc 10 (length ds) in
    let e : v / 10 * 10 + v % 10 ≡ v = omega arith in
    let first = value_cons (v % 10) ds in
    let q : v / 10 * (b * 10) + v % 10 * b ≡ (v / 10 * 10 + v % 10) * b = grind arith in
    let r : (v / 10 * 10 + v % 10) * b ≡ v * b = ap (λ t. t * b) e in
    let s : v / 10 * 10 ^ suc (length ds) ≡ v / 10 * (b * 10) = ap (λ t. v / 10 * t) p in
    omega (arith, first, q, r, s)

top_digits-value :
    (room w : ℕ) (ds : List ℕ)
    → w < 10 ^ room
    → value 10 0 (top_digits room w ds) ≡ w * 10 ^ length ds + value 10 0 ds
unfolding top_digits
top_digits-value zero w ds h = let z : w ≡ 0 = omega arith in rw z (omega arith)
top_digits-value (suc room) w ds h = elim (dec_lt 0 w) [
  | no done ↦ let z : w ≡ 0 = omega arith in rw z (omega arith)
  | yes more ↦
      let below : w / 10 < 10 ^ room = omega (arith, pow-suc 10 room) in
      rw (==_false w 0 (omega arith))
        (top_digits-value room (w / 10) (w % 10 ∷ ds) below ∙ value_digit w ds)
]

length-word_digits : (n w : ℕ) (ds : List ℕ) → length (word_digits n w ds) ≡ n + length ds
unfolding word_digits
length-word_digits zero w ds = omega arith
length-word_digits (suc n) w ds = omega (arith, length-word_digits n (w / 10) (w % 10 ∷ ds))

word_digits-value :
    (n w : ℕ) (ds : List ℕ)
    → w < 10 ^ n
    → value 10 0 (word_digits n w ds) ≡ w * 10 ^ length ds + value 10 0 ds
unfolding word_digits
word_digits-value zero w ds h = let z : w ≡ 0 = omega arith in rw z (omega arith)
word_digits-value (suc n) w ds h =
    let below : w / 10 < 10 ^ n = omega (arith, pow-suc 10 n) in
    word_digits-value n (w / 10) (w % 10 ∷ ds) below ∙ value_digit w ds

pub big_digits-value : (big : List ℕ) → AllWords big → value 10 0 (big_digits big) ≡ big_value big
unfolding big_digits
big_digits-value [] all = refl
big_digits-value (w ∷ []) all = top_digits-value 10 w [] (omega (arith, all.0)) ∙ omega arith
big_digits-value (w ∷ v ∷ big) (small, all) =
    let low = word_digits 9 w [] in
    let l : length low ≡ 9 = length-word_digits 9 w [] ∙ omega arith in
    let e : value 10 0 low ≡ w = word_digits-value 9 w [] small ∙ omega arith in
    value-++ (big_digits (v ∷ big)) low ∙ rw (l, e, big_digits-value (v ∷ big) all) (omega arith)

-- The digits `ts` are the digits `ds` without `z` zeros at the end.
pub record Trims (ds ts : List ℕ) : Type 0 where
  pub z : ℕ
  pub size : length ds ≡ length ts + z
  pub spells : value 10 0 ds ≡ value 10 0 ts * 10 ^ z

keep-Trims : (d : ℕ) (ds ts : List ℕ) → Trims ds ts → Trims (d ∷ ds) (d ∷ ts)
keep-Trims d ds ts t = record {
  z = t.z;
  size = omega (arith, t.size);
  spells =
      let b = 10 ^ length ts in
      let c = 10 ^ t.z in
      let p : d * 10 ^ length ds ≡ d * (b * c) =
        ap (λ n. d * n) (ap (λ n. 10 ^ n) (t.size) ∙ sym (pow_add 10 (length ts) t.z)) in
      let q : d * (b * c) + value 10 0 ts * c ≡ (d * b + value 10 0 ts) * c = grind arith in
      value_cons d ds ∙ omega (arith, p, q, t.spells) ∙ ap (λ n. n * c) (sym (value_cons d ts));
}

cons-Trims : (d : ℕ) (ds ts : List ℕ) → Trims ds ts → Trims (d ∷ ds) (cons_unless_zero d ts)
cons-Trims d ds (e ∷ ts) t = keep-Trims d ds (e ∷ ts) t
cons-Trims zero ds [] t = record {
  z = suc t.z;
  size = omega (arith, t.size);
  spells = value_cons 0 ds ∙ omega (arith, t.spells);
}
cons-Trims (suc d) ds [] t = rw (==_false (suc d) 0 (omega arith)) (keep-Trims (suc d) ds [] t)

pub trim-Trims : (ds : List ℕ) → Trims ds (trim ds)
unfolding trim
trim-Trims [] = record { z = 0; size = omega arith; spells = omega arith }
trim-Trims (d ∷ ds) = cons-Trims d ds (trim ds) (trim-Trims ds)

top_digits-AllBelow :
    (room w : ℕ) (ds : List ℕ) → AllBelow 10 ds → AllBelow 10 (top_digits room w ds)
unfolding top_digits
top_digits-AllBelow zero w ds h = h
top_digits-AllBelow (suc room) w ds h = elim (Bool-cases (w == 0)) [
  | inl e ↦ rw e h
  | inr e ↦ rw e (top_digits-AllBelow room (w / 10) (w % 10 ∷ ds) (omega arith, h))
]

word_digits-AllBelow : (n w : ℕ) (ds : List ℕ) → AllBelow 10 ds → AllBelow 10 (word_digits n w ds)
unfolding word_digits
word_digits-AllBelow zero w ds h = h
word_digits-AllBelow (suc n) w ds h = word_digits-AllBelow n (w / 10) (w % 10 ∷ ds) (omega arith, h)

AllBelow-++ : (xs ys : List ℕ) → AllBelow 10 xs → AllBelow 10 ys → AllBelow 10 (xs ++ ys)
AllBelow-++ [] ys h t = t
AllBelow-++ (x ∷ xs) ys (b, h) t = (b, AllBelow-++ xs ys h t)

pub big_digits-AllBelow : (big : List ℕ) → AllBelow 10 (big_digits big)
unfolding big_digits
big_digits-AllBelow [] = tt
big_digits-AllBelow (w ∷ []) = top_digits-AllBelow 10 w [] tt
big_digits-AllBelow (w ∷ v ∷ big) =
    AllBelow-++ (big_digits (v ∷ big)) (word_digits 9 w []) (big_digits-AllBelow (v ∷ big))
      (word_digits-AllBelow 9 w [] tt)

cons-AllBelow :
    (d : ℕ) (ds : List ℕ) → d < 10 → AllBelow 10 ds → AllBelow 10 (cons_unless_zero d ds)
cons-AllBelow zero [] b h = tt
cons-AllBelow (suc d) [] b h = rw (==_false (suc d) 0 (omega arith)) (b, tt)
cons-AllBelow d (e ∷ ds) b h = (b, h)

pub trim-AllBelow : (ds : List ℕ) → AllBelow 10 ds → AllBelow 10 (trim ds)
unfolding trim
trim-AllBelow [] h = tt
trim-AllBelow (d ∷ ds) (b, h) = cons-AllBelow d (trim ds) b (trim-AllBelow ds h)

-- No zero at the end.
abbrev pub LastNonzero : List ℕ → Type 0
LastNonzero [] = Unit
LastNonzero (d ∷ []) = 1 ≤ d
LastNonzero (d ∷ e ∷ ds) = LastNonzero (e ∷ ds)

cons-LastNonzero : (d : ℕ) (ds : List ℕ) → LastNonzero ds → LastNonzero (cons_unless_zero d ds)
cons-LastNonzero zero [] h = tt
cons-LastNonzero (suc d) [] h = rw (==_false (suc d) 0 (omega arith)) (omega arith)
cons-LastNonzero d (e ∷ ds) h = h

pub trim-LastNonzero : (ds : List ℕ) → LastNonzero (trim ds)
unfolding trim
trim-LastNonzero [] = tt
trim-LastNonzero (d ∷ ds) = cons-LastNonzero d (trim ds) (trim-LastNonzero ds)

pub value_pos : (d : ℕ) (ds : List ℕ) → LastNonzero (d ∷ ds) → 1 ≤ value 10 0 (d ∷ ds)
value_pos d [] h = omega arith
value_pos d (e ∷ ds) h = omega (arith, value_cons d (e ∷ ds), value_pos e ds h)

pub value-lt : (ds : List ℕ) → AllBelow 10 ds → value 10 0 ds < 10 ^ length ds
value-lt [] h = omega arith
value-lt (d ∷ ds) (b, h) =
    let t = 10 ^ length ds in
    let p : d * t ≤ 9 * t = mul-le-mul_right t (omega arith) in
    omega (arith, value_cons d ds, value-lt ds h, p, pow-suc 10 (length ds))
