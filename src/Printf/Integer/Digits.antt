-- ===== src/Printf/Integer/Digits.antt =====
-- The digits that `fprintf_output_integer` of src/stdio.c prints.
use freestanding_custom_c_li.Prelude.{
  ℕ, zero, suc, ◌+◌, ◌*◌, ◌/◌, ◌%◌, ◌^◌, ◌≤◌, ◌<◌, ◌≡◌, refl, ap, sym, ◌∙◌, List, [], ◌∷◌, ◌++◌,
  map, arith, Bytes, length, ==_iff, ==_false, if◌then◌else◌, Bool-cases, inl, inr,
}
use freestanding_custom_c_li.Conversions.{hex_table, digit_of}
use freestanding_custom_c_li.Conversions.Digits.{IsNumeral-length, value, AllBelow, IsNumeral}
use freestanding_custom_c_li.Printf.Formats.{
  State, Specifier, unknown, signed_decimal, unsigned_decimal, octal, hex, float, scientific, smart,
  hex_float, character, string, pointer, count,
}
use freestanding_custom_c_li.Printf.Integer.{digits_loop, digits_of_value, base_of, is_some_zero}
use mathlib.Core.List.{append-nil, append_assoc, map-append}
use native.Mathlib.Decide.{dec_lt}
use native.Mathlib.Nat.{pow-suc, pow-zero}

value-append : (r acc d : ℕ) (ds : List ℕ) → value r acc (ds ++ (d ∷ [])) ≡ value r acc ds * r + d
value-append r acc d [] = refl
value-append r acc d (e ∷ ds) = value-append r (acc * r + e) d ds

AllBelow-append : (r d : ℕ) (ds : List ℕ) → AllBelow r ds → d < r → AllBelow r (ds ++ (d ∷ []))
AllBelow-append r d [] h lt = (lt, tt)
AllBelow-append r d (e ∷ ds) h lt = (h.0, AllBelow-append r d ds h.1 lt)

-- One more digit behind a numeral.
pub IsNumeral-append :
    (r v d : ℕ) (ds : List ℕ) → IsNumeral r v ds → d < r → IsNumeral r (v * r + d) (ds ++ (d ∷ []))
IsNumeral-append r v d ds n lt =
    let (e, more, q, pos) = n.leading in
    record {
      spells = value-append r 0 d ds ∙ ap (λ (t : ℕ). t * r + d) n.spells;
      below = AllBelow-append r d ds n.below lt;
      leading = (e, more ++ (d ∷ []), ap (λ l. l ++ (d ∷ [])) q, pos);
    }

IsNumeral-digit : (r v : ℕ) → 1 ≤ v → v < r → IsNumeral r v (v ∷ [])
IsNumeral-digit r v pos lt = record {
  spells = omega arith;
  below = (lt, tt);
  leading = (v, [], refl, pos);
}

module _ (table : Bytes) (r : ℕ) (r2 : 2 ≤ r) where
  -- The loop writes the numeral of the value in front of what is there.
  pub digits_loop-IsNumeral :
      (room v : ℕ) (digits : Bytes)
      → 1 ≤ v
      → v < r ^ room
      → (ns : List ℕ) × IsNumeral r v ns
        × (digits_loop room table r v digits ≡ map (digit_of table) ns ++ digits)
  unfolding digits_loop
  digits_loop-IsNumeral zero v digits pos lt = absurd (omega (arith, pow-zero r))
  digits_loop-IsNumeral (suc room) v digits pos lt = elim (dec_lt v r) [
    | yes small ↦
        let z : v / r ≡ 0 = grind arith in
        let m : v % r ≡ v = grind arith in
        (v ∷ [], IsNumeral-digit r v pos small, rw ((==_iff (v / r) 0).1 z, m) refl)
    | no large ↦
        let next = digit_of table (v % r) ∷ digits in
        let more1 : 1 ≤ v / r = grind arith in
        let below : v < r ^ room * r = rw (pow-suc r room) at lt in
        let less : v / r < r ^ room = grind arith in
        let low : v % r < r = grind arith in
        let whole : v / r * r + v % r ≡ v = grind arith in
        let (ns, n, e) = digits_loop-IsNumeral room (v / r) next more1 less in
        (
          ns ++ (v % r ∷ []),
          rw whole at (IsNumeral-append r (v / r) (v % r) ns n low),
          rw (==_false (v / r) 0 (omega arith), e, map-append)
              (sym (append_assoc (map (digit_of table) ns) (digit_of table (v % r) ∷ []) digits)),
        )
  ]

-- The digits that stand for a value: its numeral, or for 0 the digit 0, which a precision of 0
-- leaves out.
pub record Numeral (state : State) (v : ℕ) (ns : List ℕ) : Type 0 where
  pub of_positive : 1 ≤ v → IsNumeral (base_of state.specifier) v ns
  pub of_zero : v ≡ 0 → ns ≡ (if is_some_zero state.precision then [] else 0 ∷ [])

pub base_bounds : (s : Specifier) → (2 ≤ base_of s) × (2 ^ 64 ≤ base_of s ^ 24) × (base_of s ≤ 16)
base_bounds unknown = omega arith
base_bounds signed_decimal = omega arith
base_bounds unsigned_decimal = omega arith
base_bounds octal = omega arith
base_bounds hex = omega arith
base_bounds float = omega arith
base_bounds scientific = omega arith
base_bounds smart = omega arith
base_bounds hex_float = omega arith
base_bounds character = omega arith
base_bounds string = omega arith
base_bounds pointer = omega arith
base_bounds count = omega arith

zero_digits : (r : ℕ) (table : Bytes) → 2 ≤ r → digits_loop 24 table r 0 [] ≡ digit_of table 0 ∷ []
unfolding digits_loop
zero_digits r table r2 =
    let z : 0 / r ≡ 0 = grind arith in
    let m : 0 % r ≡ 0 = grind arith in rw (m, (==_iff (0 / r) 0).1 z) refl

pub digits_of_value-Numeral :
    (state : State) (v : ℕ)
    → v < 2 ^ 64
    → (ns : List ℕ) × Numeral state v ns
      × (digits_of_value state v ≡ map (digit_of (hex_table state.upper)) ns)
unfolding digits_of_value
digits_of_value-Numeral state v word =
    let table = hex_table state.upper in
    let r = base_of state.specifier in
    let (r2, fits, _) = base_bounds state.specifier in
    elim (dec_lt 0 v) [
      | yes pos ↦
          let (ns, n, e) = digits_loop-IsNumeral table r r2 24 v [] pos (omega arith) in
          (
            ns,
            record { of_positive = λ _. n; of_zero = λ z. absurd (omega arith) },
            rw (==_false v 0 (omega arith)) (e ∙ append-nil (map (digit_of table) ns)),
          )
      | no none_left ↦
          let z : v ≡ 0 = omega arith in
          (
            (if is_some_zero state.precision then [] else 0 ∷ []),
            record { of_positive = λ pos. absurd (omega arith); of_zero = λ _. refl },
            rw z (elim (Bool-cases (is_some_zero state.precision)) [
              | inl none_shown ↦ rw none_shown refl
              | inr one ↦ rw one (zero_digits r table r2)
            ]),
          )
    ]

base_pow : (s : Specifier) → 2 ^ 64 ≤ base_of s ^ 22
base_pow unknown = omega arith
base_pow signed_decimal = omega arith
base_pow unsigned_decimal = omega arith
base_pow octal = omega arith
base_pow hex = omega arith
base_pow float = omega arith
base_pow scientific = omega arith
base_pow smart = omega arith
base_pow hex_float = omega arith
base_pow character = omega arith
base_pow string = omega arith
base_pow pointer = omega arith
base_pow count = omega arith

length-map : (f : ℕ → ℕ) (ns : List ℕ) → length (map f ns) ≡ length ns
length-map f [] = refl
length-map f (n ∷ ns) = ap suc (length-map f ns)

-- The digits of a 64-bit value, in the base of any specifier, are 22 at most, so that they fit the
-- buffer of 24 bytes.
pub digits_of_value-fits :
    (state : State) (v : ℕ) → v < 2 ^ 64 → length (digits_of_value state v) ≤ 22
digits_of_value-fits state v word =
    let (ns, n, e) = digits_of_value-Numeral state v word in
    let r = base_of state.specifier in
    let size = ap length e ∙ length-map (digit_of (hex_table state.upper)) ns in
    let fits = base_pow state.specifier in
    let bound : length ns ≤ 22 = elim (dec_lt 0 v) [
      | yes more ↦
          IsNumeral-length r ((base_bounds state.specifier).0) v 22 ns (n.of_positive more)
            (omega arith)
      | no less ↦ rw (n.of_zero (omega arith)) (ground arith)
    ] in
    omega (arith, size, bound)
