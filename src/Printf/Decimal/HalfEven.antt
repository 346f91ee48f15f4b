-- ===== src/Printf/Decimal/HalfEven.antt =====
-- The test of `fp_round` of src/stdio.c: the digits go up exactly if the nearest number is above
-- them, or if of two that are as near it is the even one.
use freestanding_custom_c_li.Prelude.{
  ℕ, suc, ◌+◌, ◌-◌, ◌*◌, ◌%◌, ◌/◌, ◌^◌, ◌≤◌, ◌<◌, ◌≡◌, refl, ap, sym, ◌∙◌, ◌&&◌, ◌||◌, List, [],
  ◌∷◌, ◌++◌, arith, length, length-append, get_or, ◌==◌, ltb, if◌then◌else◌,
}
use freestanding_custom_c_li.Conversions.Digits.{value, AllBelow}
use freestanding_custom_c_li.Printf.Decimal.{rounds_up}
use freestanding_custom_c_li.Printf.Decimal.Digits.{
  value_cons, value-++, LastNonzero, value_pos, value-lt,
}
use native.Mathlib.Decide.{dec_lt}
use native.Mathlib.Nat.{
  pow-suc, mul-le-mul_right, add-mul-div_left, div-eq_of_lt, add-mul-mod_self_left, mod-eq_of_lt,
}

-- v / d to the nearest, and to the even one of two that are as near.
abbrev pub half_even : ℕ → ℕ → ℕ
half_even v d =
    let r = v % d in
    if ltb d (2 * r) then v / d + 1 else if 2 * r == d then v / d + v / d % 2 else v / d

-- The digits around the place of rounding, as numbers: `k` is the kept ones, `x` the next, `t` the
-- others, which are below `b`.
half_even-cases :
    (k x t b : ℕ)
    → x < 10
    → t < b
    → half_even ((k * 10 + x) * b + t) (10 * b)
      ≡ (if ltb 5 x || (x == 5 && (ltb 0 t || k % 2 == 1)) then k + 1 else k)
half_even-cases k x t b small below =
    let v = (k * 10 + x) * b + t in
    let r0 = x * b + t in
    let nine : x * b ≤ 9 * b = mul-le-mul_right b (omega arith) in
    let whole : v ≡ r0 + 10 * b * k = grind arith in
    let q : v / (10 * b) ≡ k =
      ap (λ n. n / (10 * b)) whole
      ∙ add-mul-div_left r0 k {y = 10 * b} (omega arith)
      ∙ ap (λ n. n + k) (div-eq_of_lt {n = r0} {m = 10 * b} (omega (arith, nine)))
      ∙ omega arith in
    let r : v % (10 * b) ≡ r0 =
      ap (λ n. n % (10 * b)) whole
      ∙ add-mul-mod_self_left r0 (10 * b) k
      ∙ mod-eq_of_lt {n = r0} {m = 10 * b} (omega (arith, nine)) in
    rw (q, r)
      (elim (dec_lt x 5) [
        | yes low ↦ let l : x * b ≤ 4 * b = mul-le-mul_right b (omega arith) in ground (arith, l)
        | no h ↦ elim (dec_lt 5 x) [
          | yes high ↦ let l : 6 * b ≤ x * b = mul-le-mul_right b (omega arith) in ground (arith, l)
          | no same ↦
              let l : x * b ≡ 5 * b = ap (λ n. n * b) (let e : x ≡ 5 = omega arith in e) in
              ground (arith, l)
        ]
      ])

get_or-append : (xs ys : List ℕ) (y : ℕ) → get_or (xs ++ (y ∷ ys)) (length xs) 0 ≡ y
get_or-append [] ys y = refl
get_or-append (x ∷ xs) ys y = get_or-append xs ys y

-- The last of the kept digits says whether they are odd.
parity :
    (acc d : ℕ) (ds ys : List ℕ)
    → value 10 acc (d ∷ ds) % 2 ≡ get_or (d ∷ (ds ++ ys)) (length ds) 0 % 2
parity acc d [] ys = omega arith
parity acc d (e ∷ ds) ys = parity (acc * 10 + d) e ds ys

tail_pos :
    (kept : List ℕ) (x y : ℕ) (ys : List ℕ)
    → LastNonzero (kept ++ (x ∷ y ∷ ys))
    → 1 ≤ value 10 0 (y ∷ ys)
tail_pos [] x y ys h = value_pos y ys h
tail_pos (d ∷ []) x y ys h = value_pos y ys h
tail_pos (d ∷ e ∷ kept) x y ys h = tail_pos (e ∷ kept) x y ys h

-- Digits follow the next one exactly if they are not all zero.
more_test :
    (kept ys : List ℕ) (x : ℕ)
    → LastNonzero (kept ++ (x ∷ ys))
    → ltb (length kept + 1) (length (kept ++ (x ∷ ys))) ≡ ltb 0 (value 10 0 ys)
more_test kept [] x last = ground (arith, length-append kept (x ∷ []))
more_test kept (y ∷ ys) x last =
    ground (arith, length-append kept (x ∷ y ∷ ys), tail_pos kept x y ys last)

odd_test :
    (kept ys : List ℕ)
    → (ltb 0 (length kept) && get_or (kept ++ ys) (length kept - 1) 0 % 2 == 1)
      ≡ (value 10 0 kept % 2 == 1)
odd_test [] ys = refl
odd_test (d ∷ kept) ys =
    let e : suc (length kept) - 1 ≡ length kept = omega arith in
    rw (e, parity 0 d kept ys) (ground arith)

rounds_up-test :
    (kept ys : List ℕ) (x : ℕ)
    → LastNonzero (kept ++ (x ∷ ys))
    → rounds_up (kept ++ (x ∷ ys)) (length kept)
      ≡ (ltb 5 x || (x == 5 && (ltb 0 (value 10 0 ys) || value 10 0 kept % 2 == 1)))
rounds_up-test kept ys x last =
    rw (get_or-append kept ys x, more_test kept ys x last, odd_test kept (x ∷ ys)) refl

-- The number that rounding gives.
pub half_even-parts :
    (kept ys : List ℕ) (x : ℕ)
    → AllBelow 10 (x ∷ ys)
    → LastNonzero (kept ++ (x ∷ ys))
    → half_even (value 10 0 (kept ++ (x ∷ ys))) (10 ^ (length (kept ++ (x ∷ ys)) - length kept)) ≡ (
        if rounds_up (kept ++ (x ∷ ys)) (length kept) then value 10 0 kept + 1 else value 10 0 kept)
half_even-parts kept ys x (small, below) last =
    let k = value 10 0 kept in
    let t = value 10 0 ys in
    let b = 10 ^ length ys in
    let e : length (kept ++ (x ∷ ys)) - length kept ≡ suc (length ys) =
      omega (arith, length-append kept (x ∷ ys)) in
    let d : 10 ^ (length (kept ++ (x ∷ ys)) - length kept) ≡ 10 * b =
      ap (λ i. 10 ^ i) e ∙ omega (arith, pow-suc 10 (length ys)) in
    let v : value 10 0 (kept ++ (x ∷ ys)) ≡ (k * 10 + x) * b + t =
      (let p : k * 10 ^ suc (length ys) ≡ k * (b * 10) = ap (λ i. k * i) (pow-suc 10 (length ys)) in
        let q : (k * 10 + x) * b ≡ k * (b * 10) + x * b = grind arith in
        omega (arith, value-++ kept (x ∷ ys), value_cons x ys, p, q)) in
    (λ i. half_even (v i) (d i))
    ∙ half_even-cases k x t b small (value-lt ys below)
    ∙ ap (λ c. if c then k + 1 else k) (sym (rounds_up-test kept ys x last))
