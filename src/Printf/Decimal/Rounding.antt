-- ===== src/Printf/Decimal/Rounding.antt =====
-- `fp_round` of src/stdio.c rounds to the nearest decimal, and ties to the even one.
use freestanding_custom_c_li.Prelude.{
  ℕ, zero, suc, ◌+◌, ◌-◌, ◌*◌, ◌^◌, ◌<◌, ◌≡◌, refl, ap, sym, ◌∙◌, Option, none, some, List, [], ◌∷◌,
  ◌++◌, arith, length, take-append, ◌==◌, ==_iff, leb-false, if◌then◌else◌, Bool-cases, inl, inr,
  ◌⊎◌,
}
use freestanding_custom_c_li.Prelude.Int.{ℤ, pos, ◌+ℤ◌}
use freestanding_custom_c_li.Conversions.Digits.{value, AllBelow}
use freestanding_custom_c_li.Printf.Decimal.{trim, FpDecimal, bump, rounds_up, round_at, fp_round}
use freestanding_custom_c_li.Printf.Decimal.Bignum.{pow_add}
use freestanding_custom_c_li.Printf.Decimal.Digits.{value_cons, trim-Trims, LastNonzero}
use mathlib.Core.Path.{subst}
use native.Mathlib.Nat.{pow-suc, mul_assoc}
use freestanding_custom_c_li.Printf.Decimal.HalfEven.{half_even, half_even-parts}

-- In a decimal of `n` digits, without the zeros at its end, the digits `ts` spell `v`.
record Spelled (n v : ℕ) (ts : List ℕ) : Type 0 where
  z : ℕ
  size : length ts + z ≡ n
  spells : value 10 0 ts * 10 ^ z ≡ v

-- The digits that are kept, one up. `none` is all nines.
Bumped : List ℕ → Option (List ℕ) → Type 0
Bumped ds none = value 10 0 ds + 1 ≡ 10 ^ length ds
Bumped ds (some ts) = Spelled (length ds) (value 10 0 ds + 1) ts

keep_spelling :
    (d : ℕ) (ts ds : List ℕ) (s : Spelled (length ds) (value 10 0 ds + 1) ts)
    → value 10 0 (d ∷ ts) * 10 ^ s.z ≡ value 10 0 (d ∷ ds) + 1
keep_spelling d ts ds s =
    let b = 10 ^ length ts in
    let c = 10 ^ s.z in
    let p : d * (b * c) ≡ d * 10 ^ length ds =
      ap (λ n. d * n) (pow_add 10 (length ts) (s.z) ∙ ap (λ n. 10 ^ n) (s.size)) in
    let q : (d * b + value 10 0 ts) * c ≡ d * (b * c) + value 10 0 ts * c = grind arith in
    ap (λ n. n * c) (value_cons d ts) ∙ omega (arith, p, q, s.spells, value_cons d ds)

bump-Bumped : (ds : List ℕ) → AllBelow 10 ds → Bumped ds (bump ds)
unfolding bump Bumped
bump-Bumped [] all = refl
bump-Bumped (d ∷ ds) (b, all) = go (bump ds) (bump-Bumped ds all)
  where
    go :
        (r : Option (List ℕ))
        → Bumped ds r
        → Bumped (d ∷ ds) (elim r [
          | none ↦ if d == 9 then none else some ((d + 1) ∷ [])
          | some more ↦ some (d ∷ more)
        ])
    go none nines =
        let whole : value 10 0 (d ∷ ds) + 1 ≡ (d + 1) * 10 ^ length ds =
          let t = 10 ^ length ds in
          let m : (d + 1) * t ≡ d * t + t = grind arith in
          omega (arith, value_cons d ds, nines, m) in
        elim (Bool-cases (d == 9)) [
          | inl e ↦
              let nine : d ≡ 9 = (==_iff d 9).0 e in
              rw e (whole ∙ rw nine (omega (arith, pow-suc 10 (length ds))))
          | inr e ↦
              let one : value 10 0 ((d + 1) ∷ []) ≡ d + 1 = omega arith in
              rw e (record {
                z = length ds;
                size = omega arith;
                spells = ap (λ t. t * 10 ^ length ds) one ∙ sym whole;
              })
        ]
    go (some more) s = record {
      z = s.z;
      size = omega (arith, s.size);
      spells = keep_spelling d more ds s;
    }

-- `dec` rounded to `n` digits: the digits spell the nearest number, at the old place, or at the
-- next higher one after a carry out of nines.
pub record Rounded (dec : FpDecimal) (n : ℕ) (res : FpDecimal) : Type 0 where
  pub z : ℕ
  pub spells :
      value 10 0 res.digits * 10 ^ z
      ≡ half_even (value 10 0 dec.digits) (10 ^ (length dec.digits - n))
  pub placed :
      ((res.exp10 ≡ dec.exp10) × (length res.digits + z ≡ n))
      ⊎ ((res.exp10 ≡ dec.exp10 +ℤ pos 1) × (length res.digits + z ≡ n + 1))

-- What rounding keeps, and what it drops.
record Parts (ds : List ℕ) (n : ℕ) : Type 0 where
  kept : List ℕ
  next : ℕ
  others : List ℕ
  whole : ds ≡ kept ++ (next ∷ others)
  size : length kept ≡ n

split_place : (n : ℕ) (ds : List ℕ) → n < length ds → Parts ds n
split_place n [] h = absurd (omega arith)
split_place zero (d ∷ ds) h = record { kept = []; next = d; others = ds; whole = refl; size = refl }
split_place (suc n) (d ∷ ds) h =
    let p = split_place n ds (omega arith) in
    record {
      kept = d ∷ p.kept;
      next = p.next;
      others = p.others;
      whole = ap (λ t. d ∷ t) (p.whole);
      size = ap suc (p.size);
    }

AllBelow-front : (xs ys : List ℕ) → AllBelow 10 (xs ++ ys) → AllBelow 10 xs × AllBelow 10 ys
AllBelow-front [] ys h = (tt, h)
AllBelow-front (x ∷ xs) ys (b, h) = let (front, back) = AllBelow-front xs ys h in ((b, front), back)

trim-Spelled : (n v : ℕ) (ts : List ℕ) → Spelled n v ts → Spelled n v (trim ts)
trim-Spelled n v ts s =
    let t = trim-Trims ts in
    let a = 10 ^ t.z in
    let p : value 10 0 (trim ts) * 10 ^ (t.z + s.z) ≡ value 10 0 (trim ts) * a * 10 ^ s.z =
      ap (λ i. value 10 0 (trim ts) * i) (sym (pow_add 10 (t.z) (s.z)))
      ∙ sym (mul_assoc (value 10 0 (trim ts)) a (10 ^ s.z)) in
    record {
      z = t.z + s.z;
      size = omega (arith, t.size, s.size);
      spells = p ∙ ap (λ i. i * 10 ^ s.z) (sym (t.spells)) ∙ s.spells;
    }

round_parts :
    (kept ys : List ℕ) (x : ℕ) (e : ℤ)
    → AllBelow 10 (kept ++ (x ∷ ys))
    → LastNonzero (kept ++ (x ∷ ys))
    → let dec : FpDecimal = record { digits = kept ++ (x ∷ ys); exp10 = e } in
      Rounded dec (length kept) (round_at dec (length kept))
unfolding round_at Bumped
round_parts kept ys x e all last =
    let ds = kept ++ (x ∷ ys) in
    let n = length kept in
    let k = value 10 0 kept in
    let (front, back) = AllBelow-front kept (x ∷ ys) all in
    let half = half_even-parts kept ys x back last in
    elim (Bool-cases (rounds_up ds n)) [
      | inl up ↦
          let h = half ∙ ap (λ c. if c then k + 1 else k) up in
          rw (up, take-append kept (x ∷ ys)) (carry h (bump kept) (bump-Bumped kept front))
      | inr down ↦
          let h = half ∙ ap (λ c. if c then k + 1 else k) down in
          let s =
            trim-Spelled n k kept (record { z = 0; size = omega arith; spells = omega arith }) in
          rw (down, take-append kept (x ∷ ys))
            (record { z = s.z; spells = s.spells ∙ sym h; placed = inl (refl, s.size) })
    ]
  where
    carry :
        half_even (value 10 0 (kept ++ (x ∷ ys))) (10 ^ (length (kept ++ (x ∷ ys)) - length kept))
          ≡ value 10 0 kept + 1
        → (r : Option (List ℕ)) → Bumped kept r
        → let dec : FpDecimal = record { digits = kept ++ (x ∷ ys); exp10 = e } in
          Rounded dec (length kept) (elim r [
            | none ↦ record { digits = 1 ∷ []; exp10 = dec.exp10 +ℤ pos 1 }
            | some more ↦ record dec { digits = trim more }
          ])
    carry h none nines = record {
      z = length kept;
      spells = omega arith ∙ sym nines ∙ sym h;
      placed = inr (refl, omega arith);
    }
    carry h (some more) s =
        let t = trim-Spelled (length kept) (value 10 0 kept + 1) more s in
        record { z = t.z; spells = t.spells ∙ sym h; placed = inl (refl, t.size) }

-- `fp_round` to `n` digits of a decimal of more than `n` digits, which are below 10 and end
-- without a zero: with `z` zeros more, the digits of the result spell the quotient of the old
-- digits by the power of ten that is dropped, rounded to the nearest number, and to the even one
-- of two that are as near. With these zeros there are `n` digits and the exponent is as it was, or
-- there is one digit more and the exponent is one higher, after a carry.
pub fp_round-nearest :
    (dec : FpDecimal) (n : ℕ)
    → AllBelow 10 dec.digits
    → LastNonzero dec.digits
    → n < length dec.digits
    → Rounded dec n (fp_round dec (pos n))
unfolding fp_round
fp_round-nearest dec n all last h =
    let p = split_place n dec.digits h in
    let place =
      subst (λ i. Rounded dec i (round_at dec i)) (p.size)
        (subst
          (λ ds.
            AllBelow 10 ds
            → LastNonzero ds
            → Rounded (record { digits = ds; exp10 = dec.exp10 }) (length p.kept)
                (round_at (record { digits = ds; exp10 = dec.exp10 }) (length p.kept)))
          (sym p.whole) (round_parts p.kept p.others p.next dec.exp10) all last) in
    rw (leb-false (length dec.digits) n (omega arith)) place
