-- ===== src/Printf/Parse/Numbers.antt =====
-- The flags and the numbers of a conversion specification (src/stdio.c).
use freestanding_custom_c_li.Prelude.{
  ℕ, ◌+◌, ◌*◌, ◌≤◌, ◌≡◌, refl, sym, ◌∙◌, Bool, true, false, ◌||◌, none, some, List, [], ◌∷◌, ◌++◌,
  map, arith, Bytes, leb, ◌==◌, ==_iff, if◌then◌else◌, Bool-cases, inl, inr,
}
use freestanding_custom_c_li.Conversions.{decimal_digit}
use freestanding_custom_c_li.Conversions.Atoi.{int_max, is_digit}
use freestanding_custom_c_li.Conversions.Digits.{value, AllBelow}
use freestanding_custom_c_li.Printf.Formats.{Flags, no_flags}
use freestanding_custom_c_li.Printf.Parse.{
  first, number_loop, parse_number, flags_loop, get_fprintf_flags,
}

-- The characters of the flags.
abbrev pub is_mark : ℕ → Bool
is_mark c = c == b'-' || c == b'+' || c == b' ' || c == b'0' || c == b'#'

abbrev pub AllMarks : Bytes → Type 0
AllMarks [] = Unit
AllMarks (c ∷ marks) = (is_mark c ≡ true) × AllMarks marks

abbrev pub has : ℕ → Bytes → Bool
has a [] = false
has a (c ∷ marks) = c == a || has a marks

-- Each flag is set if its character is among the marks.
abbrev pub flags_of : Bytes → Flags
flags_of marks = record {
  left_align = has b'-' marks;
  show_sign = has b'+' marks;
  space_if_no_sign = has b' ' marks;
  leading_zeros = has b'0' marks;
  use_alternate = has b'#' marks;
}

abbrev add_marks : Flags → Bytes → Flags
add_marks f marks = record {
  left_align = f.left_align || has b'-' marks;
  show_sign = f.show_sign || has b'+' marks;
  space_if_no_sign = f.space_if_no_sign || has b' ' marks;
  leading_zeros = f.leading_zeros || has b'0' marks;
  use_alternate = f.use_alternate || has b'#' marks;
}

flags_loop-stop : (f : Flags) (s : Bytes) → is_mark (first s) ≡ false → flags_loop f s ≡ (f, s)
unfolding flags_loop
flags_loop-stop f [] h = refl
flags_loop-stop f (c ∷ s) h = ground arith

or_false : (b : Bool) → b || false ≡ b
or_false true = refl
or_false false = refl

or_true : (b : Bool) → b || true ≡ true
or_true true = refl
or_true false = refl

or_assoc : (a b c : Bool) → (a || (b || false)) || c ≡ a || (b || c)
or_assoc true b c = refl
or_assoc false true c = refl
or_assoc false false c = refl

-- One mark, or another one, in front of the text.
flags_loop-cons :
    (c : ℕ) (s : Bytes) (f : Flags)
    → is_mark c ≡ true
    → flags_loop f (c ∷ s) ≡ flags_loop (add_marks f (c ∷ [])) s
unfolding flags_loop
flags_loop-cons c s f m = elim (Bool-cases (c == b'-')) [
  | inl e0 ↦
      rw
        (
          (==_iff c b'-').0 e0,
          or_true f.left_align,
          or_false f.show_sign,
          or_false f.space_if_no_sign,
          or_false f.leading_zeros,
          or_false f.use_alternate,
        )
        refl
  | inr e0 ↦ elim (Bool-cases (c == b'+')) [
    | inl e1 ↦
        rw
          (
            (==_iff c b'+').0 e1,
            or_false f.left_align,
            or_true f.show_sign,
            or_false f.space_if_no_sign,
            or_false f.leading_zeros,
            or_false f.use_alternate,
          )
          refl
    | inr e1 ↦ elim (Bool-cases (c == b' ')) [
      | inl e2 ↦
          rw
            (
              (==_iff c b' ').0 e2,
              or_false f.left_align,
              or_false f.show_sign,
              or_true f.space_if_no_sign,
              or_false f.leading_zeros,
              or_false f.use_alternate,
            )
            refl
      | inr e2 ↦ elim (Bool-cases (c == b'0')) [
        | inl e3 ↦
            rw
              (
                (==_iff c b'0').0 e3,
                or_false f.left_align,
                or_false f.show_sign,
                or_false f.space_if_no_sign,
                or_true f.leading_zeros,
                or_false f.use_alternate,
              )
              refl
        | inr e3 ↦ elim (Bool-cases (c == b'#')) [
          | inl e4 ↦
              rw
                (
                  (==_iff c b'#').0 e4,
                  or_false f.left_align,
                  or_false f.show_sign,
                  or_false f.space_if_no_sign,
                  or_false f.leading_zeros,
                  or_true f.use_alternate,
                )
                refl
          | inr e4 ↦ let z : false ≡ true = rw (e0, e1, e2, e3, e4) at m in cc
        ]
      ]
    ]
  ]
]

flags_loop-marks :
    (marks s : Bytes) (f : Flags)
    → AllMarks marks
    → is_mark (first s) ≡ false
    → flags_loop f (marks ++ s) ≡ (add_marks f marks, s)
flags_loop-marks [] s f all h = flags_loop-stop f s h ∙ λ i. (
  record {
    left_align = sym (or_false f.left_align) i;
    show_sign = sym (or_false f.show_sign) i;
    space_if_no_sign = sym (or_false f.space_if_no_sign) i;
    leading_zeros = sym (or_false f.leading_zeros) i;
    use_alternate = sym (or_false f.use_alternate) i;
  },
  s,
)
flags_loop-marks (c ∷ marks) s f (m, all) h =
    flags_loop-cons c (marks ++ s) f m
    ∙ flags_loop-marks marks s (add_marks f (c ∷ [])) all h
    ∙ λ i. (
      record {
        left_align = or_assoc f.left_align (c == b'-') (has b'-' marks) i;
        show_sign = or_assoc f.show_sign (c == b'+') (has b'+' marks) i;
        space_if_no_sign = or_assoc f.space_if_no_sign (c == b' ') (has b' ' marks) i;
        leading_zeros = or_assoc f.leading_zeros (c == b'0') (has b'0' marks) i;
        use_alternate = or_assoc f.use_alternate (c == b'#') (has b'#' marks) i;
      },
      s,
    )

value_mono : (ds : List ℕ) (acc : ℕ) → acc ≤ value 10 acc ds
value_mono [] acc = omega arith
value_mono (d ∷ ds) acc = omega (arith, value_mono ds (acc * 10 + d))

number_loop-stop : (v : ℕ) (s : Bytes) → is_digit (first s) ≡ false → number_loop v s ≡ some (v, s)
unfolding number_loop
number_loop-stop v [] h = refl
number_loop-stop v (c ∷ s) h = rw h

number_loop-value :
    (ds : List ℕ) (v : ℕ) (s : Bytes)
    → AllBelow 10 ds
    → is_digit (first s) ≡ false
    → v ≤ int_max
    → number_loop v (map decimal_digit ds ++ s)
      ≡ (if leb (value 10 v ds) int_max then some (value 10 v ds, s) else none)
unfolding number_loop
number_loop-value [] v s all h fits = ground (arith, number_loop-stop v s h)
number_loop-value (d ∷ ds) v s all h fits =
    ground (arith, number_loop-value ds (v * 10 + d) s all.1 h, value_mono ds (v * 10 + d))

-- `parse_number` of decimal digits, perhaps none, in front of a byte that is no digit or of the
-- end: the number that the digits spell and the text behind them if the number is INT_MAX at most,
-- and otherwise `none`, an overflow.
pub parse_number-value :
    (ds : List ℕ) (s : Bytes)
    → AllBelow 10 ds
    → is_digit (first s) ≡ false
    → parse_number (map decimal_digit ds ++ s)
      ≡ (if leb (value 10 0 ds) int_max then some (value 10 0 ds, s) else none)
unfolding parse_number
parse_number-value ds s all h = number_loop-value ds 0 s all h (omega arith)

pub get_fprintf_flags-marks :
    (marks s : Bytes)
    → AllMarks marks
    → is_mark (first s) ≡ false
    → get_fprintf_flags (marks ++ s) ≡ (flags_of marks, s)
unfolding get_fprintf_flags
get_fprintf_flags-marks marks s all h = flags_loop-marks marks s no_flags all h
