-- ===== src/Conversions/Digits.antt =====
-- What the printers of src/conversions.c are held to: the digits of a number, first digit first.
use freestanding_custom_c_li.Prelude.{
  ℕ, zero, suc, ◌+◌, ◌*◌, ◌/◌, ◌%◌, ◌^◌, ◌≤◌, ◌<◌, ◌≡◌, refl, List, [], ◌∷◌, arith, length, ap,
}
use freestanding_custom_c_li.Prelude.Power.{
  lt_of_pow-lt, div-pow-lt, div-pow_pos, mod-pow-lt, div-mod-pow,
}
use native.Mathlib.Nat.{pow-zero, pow-suc}

-- The `n` digits of `v`, leading zeros included.
abbrev pub digits_of : ℕ → ℕ → ℕ → List ℕ
digits_of r zero v = []
digits_of r (suc n) v = v / r ^ n ∷ digits_of r n (v % r ^ n)

-- The number that a list of digits spells behind `acc`.
abbrev pub value : ℕ → ℕ → List ℕ → ℕ
value r acc [] = acc
value r acc (d ∷ ds) = value r (acc * r + d) ds

abbrev pub AllBelow : ℕ → List ℕ → Type 0
AllBelow r [] = Unit
AllBelow r (d ∷ ds) = (d < r) × AllBelow r ds

-- `ds` is the numeral of `v`: it spells `v`, each digit is below the radix, and the first is not 0.
pub record IsNumeral (r v : ℕ) (ds : List ℕ) : Type 0 where
  pub spells : value r 0 ds ≡ v
  pub below : AllBelow r ds
  pub leading : (d : ℕ) × (rest : List ℕ) × (ds ≡ d ∷ rest) × (1 ≤ d)

pub length-digits_of : (r n v : ℕ) → length (digits_of r n v) ≡ n
length-digits_of r zero v = refl
length-digits_of r (suc n) v = omega (arith, length-digits_of r n (v % r ^ n))

module _ (r : ℕ) (r2 : 2 ≤ r) where
  value-digits_of : (n acc v : ℕ) → v < r ^ n → value r acc (digits_of r n v) ≡ acc * r ^ n + v
  value-digits_of zero acc v h = rw pow-zero (ground (arith, pow-zero r))
  value-digits_of (suc n) acc v h = omega (
    arith,
    value-digits_of n (acc * r + v / r ^ n) (v % r ^ n) (mod-pow-lt r r2 n v),
    div-mod-pow r r2 n v,
    ap (λ (t : ℕ). acc * t) (pow-suc r n),
  )

  below-digits_of : (n v : ℕ) → v < r ^ n → AllBelow r (digits_of r n v)
  below-digits_of zero v h = tt
  below-digits_of (suc n) v h =
      (div-pow-lt r r2 n v h, below-digits_of n (v % r ^ n) (mod-pow-lt r r2 n v))

  -- With the leading place in use, the digits are the numeral.
  pub digits_of-IsNumeral :
      (n v : ℕ) → r ^ n ≤ v → v < r ^ suc n → IsNumeral r v (digits_of r (suc n) v)
  digits_of-IsNumeral n v lo hi = record {
    spells = omega (arith, value-digits_of (suc n) 0 v hi);
    below = below-digits_of (suc n) v hi;
    leading = (v / r ^ n, digits_of r n (v % r ^ n), refl, div-pow_pos r r2 n v lo);
  }

  pow-le-value : (ds : List ℕ) (acc : ℕ) → acc * r ^ length ds ≤ value r acc ds
  pow-le-value [] acc = rw pow-zero (omega arith)
  pow-le-value (d ∷ ds) acc =
      omega (arith, pow-le-value ds (acc * r + d), ap (λ (t : ℕ). acc * t) (pow-suc r (length ds)))

  -- A numeral of a number below a power has no more digits than its exponent.
  pub IsNumeral-length : (v k : ℕ) (ds : List ℕ) → IsNumeral r v ds → v < r ^ k → length ds ≤ k
  IsNumeral-length v k ds n h =
      let (d, rest, e, d1) = n.leading in
      let spelled : value r (0 * r + d) rest ≡ v = rw e at n.spells in
      let low : r ^ length rest ≤ d * r ^ length rest = grind arith in
      let start : 0 * r + d ≡ d = omega arith in
      let below : length rest < k =
        lt_of_pow-lt r r2 (length rest) k
          (omega (arith, pow-le-value rest d, ap (λ (a : ℕ). value r a rest) start)) in
      omega (arith, ap length e)
