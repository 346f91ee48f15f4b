-- ===== src/Printf/Loop/Shorter.antt =====
-- What is left of the format behind a part of a conversion specification (src/stdio.c).
use freestanding_custom_c_li.Prelude.{
  ℕ, ◌+◌, ◌-◌, ◌*◌, ◌≤◌, ◌≡◌, Bool, true, false, Option, none, some, [], ◌∷◌, arith, Bytes, length,
  ltb, not, ◌==◌, if◌then◌else◌, ◌>>=◌,
}
use freestanding_custom_c_li.Conversions.Atoi.{int_max, is_digit}
use freestanding_custom_c_li.Printf.Formats.{Flags, State, no_flags}
use freestanding_custom_c_li.Printf.Parse.{
  first, rest, number_loop, parse_number, flags_loop, get_fprintf_flags, get_length_modifier,
  get_format_specifier,
}
use freestanding_custom_c_li.Printf.VarArgs.{Arguments}
use freestanding_custom_c_li.Printf.{
  next_int, next_precision, read_width, read_precision, read_conversion,
}
use mathlib.Core.Path.{subst}

pub length-rest : (s : Bytes) → length (rest s) ≤ length s
length-rest [] = omega arith
length-rest (c ∷ s) = omega arith

-- `P` of a result, where there is one.
data Each {ℓ} {A : Type ℓ} (P : A → Type 0) : Option A → Type ℓ where
  absent : Each P none
  present : {a : A} → P a → Each P (some a)

Each-some {ℓ} : {A : Type ℓ} {P : A → Type 0} {a : A} → Each P (some a) → P a
Each-some (present x) = x

-- No condition on the result of a step.
Each-any {ℓ} : {A : Type ℓ} (o : Option A) → Each (λ a. Unit) o
Each-any none = absent
Each-any (some a) = present tt

Each-if {ℓ} :
    {A : Type ℓ} {P : A → Type 0} {o q : Option A} (b : Bool)
    → Each P o
    → Each P q
    → Each P (if b then o else q)
Each-if true x y = x
Each-if false x y = y

Each-bind {ℓ ℓ'} :
    {A : Type ℓ} {B : Type ℓ'} {P : A → Type 0} {Q : B → Type 0} (o : Option A) {f : A → Option B}
    → Each P o
    → ((a : A) → P a → Each Q (f a))
    → Each Q (o >>= f)
Each-bind none absent next = absent
Each-bind (some a) (present x) next = next a x

number_loop-shorter :
    (s : Bytes) (v n : ℕ) → length s ≤ n → Each (λ r. length r.1 ≤ n) (number_loop v s)
unfolding number_loop
number_loop-shorter [] v n h = present h
number_loop-shorter (c ∷ s) v n h =
    let next = v * 10 + (c - b'0') in
    Each-if (is_digit c)
      (Each-if (ltb int_max next) absent (number_loop-shorter s next n (omega arith))) (present h)

flags_loop-shorter : (s : Bytes) (f : Flags) → length (flags_loop f s).1 ≤ length s
unfolding flags_loop
flags_loop-shorter [] f = omega arith
flags_loop-shorter (c ∷ s) f =
    let l = flags_loop-shorter s (record f { left_align = true }) in
    let a = flags_loop-shorter s (record f { show_sign = true }) in
    let b = flags_loop-shorter s (record f { space_if_no_sign = true }) in
    let d = flags_loop-shorter s (record f { leading_zeros = true }) in
    let e = flags_loop-shorter s (record f { use_alternate = true }) in ground arith

pub get_length_modifier-shorter : (s : Bytes) → length (get_length_modifier s).1 ≤ length s
unfolding get_length_modifier
get_length_modifier-shorter s = ground (arith, length-rest s, length-rest (rest s))

pub get_format_specifier-shorter : (s : Bytes) → length (get_format_specifier s).2 ≤ length s
unfolding get_format_specifier
get_format_specifier-shorter s = ground (arith, length-rest s)

read_width-shorter :
    (f : Flags) (s : Bytes) (args : Arguments) (n : ℕ)
    → length s ≤ n
    → Each (λ r. length r.2 ≤ n) (read_width f s args)
unfolding read_width parse_number
read_width-shorter f s args n h =
    Each-if (first s == b'*')
      (Each-bind (next_int args) (Each-any (next_int args))
        (λ a _. present (omega (arith, length-rest s))))
      (Each-bind (number_loop 0 s) (number_loop-shorter s 0 n h) (λ a x. present x))

read_precision-shorter :
    (s : Bytes) (args : Arguments) (n : ℕ)
    → length s ≤ n
    → Each (λ r. length r.1 ≤ n) (read_precision s args)
unfolding read_precision parse_number
read_precision-shorter s args n h = Each-if (not (first s == b'.')) (present h) (
    Each-if (first (rest s) == b'*')
      (Each-bind (next_precision args) (Each-any (next_precision args))
        (λ a _. present (omega (arith, length-rest s, length-rest (rest s)))))
      (Each-bind (number_loop 0 (rest s))
        (number_loop-shorter (rest s) 0 n (omega (arith, length-rest s))) (λ a x. present x)))

read_conversion-Each :
    (s : Bytes) (args : Arguments) → Each (λ r. length r.1 ≤ length s) (read_conversion s args)
unfolding read_conversion get_fprintf_flags
read_conversion-Each s args =
    let n = length s in
    let f = flags_loop no_flags s in
    Each-bind (read_width f.0 f.1 args)
      (read_width-shorter f.0 f.1 args n (flags_loop-shorter s no_flags))
      (λ (f', w, s2, more) h2.
        Each-bind (read_precision s2 more) (read_precision-shorter s2 more n h2)
          (λ (p, s3, left) h3. present (
            omega (
              arith,
              h3,
              get_length_modifier-shorter s3,
              get_format_specifier-shorter (get_length_modifier s3).1,
            ))))

-- Where `read_conversion` has a result, the text behind the specification is no longer than the
-- text that it is read from, so that each pass of `fprintf` shortens the format.
pub read_conversion-shorter :
    (s : Bytes) (args : Arguments) {state : State} {behind : Bytes} {more : Arguments}
    → read_conversion s args ≡ some (state, behind, more)
    → length behind ≤ length s
read_conversion-shorter s args e =
    Each-some (subst (λ o. Each (λ r. length r.1 ≤ length s) o) e (read_conversion-Each s args))
