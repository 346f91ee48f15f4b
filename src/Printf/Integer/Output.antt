-- ===== src/Printf/Integer/Output.antt =====
-- `fprintf_output_integer` of src/stdio.c against a description of the fields of integers.
use freestanding_custom_c_li.Prelude.{
  ℕ, zero, suc, ◌+◌, ◌^◌, ◌<◌, ◌≡◌, refl, ap, sym, ◌∙◌, Bool, true, false, ◌&&◌, not, List, [], ◌∷◌,
  ◌++◌, arith, Bytes, length, replicate, length-append, ◌==◌, ==_false, if◌then◌else◌, Bool-cases,
  inl, inr,
}
use freestanding_custom_c_li.Kernel.{Kernel}
use freestanding_custom_c_li.Stdio.Buffered.{Complete}
use freestanding_custom_c_li.Printf.Formats.{
  State, Specifier, unknown, signed_decimal, unsigned_decimal, octal, hex, float, scientific, smart,
  hex_float, character, string, pointer, count,
}
use freestanding_custom_c_li.Printf.Parse.{first}
use freestanding_custom_c_li.Printf.Sinks.{
  ◌>>>◌, sink_bytes, sink_repeat, fprintf_field_begin, fprintf_field_end,
}
use freestanding_custom_c_li.Printf.Sinks.Written.{
  framed, length-replicate, Writes, >>>-Writes, sink_bytes-Writes, sink_repeat-Writes,
}
use freestanding_custom_c_li.Printf.Sinks.Fields.{trailing, field_end-Writes, field-Writes}
use freestanding_custom_c_li.Printf.Integer.{
  fprintf_sign, is_none, is_negative, magnitude_of, missing_zeros, digits_of_value, integer_field,
  fprintf_output_integer,
}
use freestanding_custom_c_li.Printf.Integer.Digits.{digits_of_value-Numeral}
use freestanding_custom_c_li.Printf.Integer.Described.{
  Shown, prefix_for, leading_zero, body_for, integer_text, Numeral-Shown, Shown-text,
  missing-filled, none-zeros_fill,
}
use mathlib.Core.List.{append_assoc}
use mathlib.Core.Path.{subst}

prefix-integer_field :
    (state : State) (u : ℕ) (s : Specifier)
    → (integer_field (record state { specifier = s }) u).prefix
      ≡ prefix_for state.flags state.upper u s
unfolding integer_field fprintf_sign
prefix-integer_field state u signed_decimal = ground arith
prefix-integer_field state u hex = ground arith
prefix-integer_field state u pointer = ground arith
prefix-integer_field state u unknown = refl
prefix-integer_field state u unsigned_decimal = refl
prefix-integer_field state u octal = refl
prefix-integer_field state u float = refl
prefix-integer_field state u scientific = refl
prefix-integer_field state u smart = refl
prefix-integer_field state u hex_float = refl
prefix-integer_field state u character = refl
prefix-integer_field state u string = refl
prefix-integer_field state u count = refl

-- One zero in front of an octal number that begins with another digit.
octal_body :
    (z : ℕ) (alternate : Bool) (shown : Bytes)
    → replicate (if alternate && (z == 0 && not (first shown == b'0')) then 1 else z) b'0' ++ shown
      ≡ (if alternate then leading_zero (replicate z b'0' ++ shown) else replicate z b'0' ++ shown)
octal_body z false shown = refl
octal_body zero true [] = refl
octal_body zero true (c ∷ shown) = elim (Bool-cases (c == b'0')) [
  | inl e ↦ rw e refl
  | inr e ↦ rw e refl
]
octal_body (suc z) true shown = rw (==_false (suc z) 0 (omega arith)) refl

body-integer_field :
    (state : State) (u : ℕ) (s : Specifier)
    → let t = record state { specifier = s } in
      let f = integer_field t u in
      replicate f.zeros b'0' ++ f.digits
      ≡ body_for state.flags state.precision s (digits_of_value t (magnitude_of t u))
unfolding integer_field
body-integer_field state u octal =
    let t = record state { specifier = octal } in
    let shown = digits_of_value t (magnitude_of t u) in
    let e = missing-filled state.precision shown in
    octal_body (missing_zeros state.precision (length shown)) state.flags.use_alternate shown
    ∙ ap (λ b. if state.flags.use_alternate then leading_zero b else b) e
body-integer_field state u unknown = missing-filled state.precision _
body-integer_field state u unsigned_decimal = missing-filled state.precision _
body-integer_field state u float = missing-filled state.precision _
body-integer_field state u scientific = missing-filled state.precision _
body-integer_field state u smart = missing-filled state.precision _
body-integer_field state u hex_float = missing-filled state.precision _
body-integer_field state u character = missing-filled state.precision _
body-integer_field state u string = missing-filled state.precision _
body-integer_field state u count = missing-filled state.precision _
body-integer_field state u signed_decimal = missing-filled state.precision _
body-integer_field state u hex = missing-filled state.precision _
body-integer_field state u pointer = missing-filled state.precision _

magnitude_word : (state : State) (u : ℕ) → u < 2 ^ 64 → magnitude_of state u < 2 ^ 64
magnitude_word state u h = elim (Bool-cases (is_negative state u)) [
  | inl e ↦ rw e (omega arith)
  | inr e ↦ rw e h
]

module _ (k : Kernel) (complete : Complete k) where
  -- `fprintf_output_integer` of a 64-bit word, whatever the state, on an open buffered stream over
  -- a kernel without short writes: there are digits, which are the numeral of the magnitude in
  -- base 8 for `%o`, 16 for `%x` and `%p` and 10 otherwise (of 0: the digit 0, or none if the
  -- precision is 0), where `%d` and `%i` read the word as a signed one, and what it writes is the
  -- field of these digits, with zeros up to the precision and a zero in front of an alternate
  -- octal number, behind the sign or the `0x` that the flags ask for, and padded to the width with
  -- blanks on the side that the flags say, or with zeros where no precision is given.
  pub fprintf_output_integer-Writes :
      (u : ℕ) (state : State)
      → u < 2 ^ 64
      → (ns : List ℕ) × Shown state u ns
        × Writes k (fprintf_output_integer k u state) (integer_text state u ns)
  unfolding fprintf_output_integer
  fprintf_output_integer-Writes u state word =
      let (ns, n, e) =
        digits_of_value-Numeral state (magnitude_of state u) (magnitude_word state u word) in
      let f = integer_field state u in
      let zeros = replicate f.zeros b'0' in
      let zero_pad = state.flags.leading_zeros && is_none state.precision in
      let len = length f.prefix + f.zeros + length f.digits in
      let end = trailing state len in
      let rest = sink_bytes k f.digits >>> fprintf_field_end k state len in
      let tail = sink_repeat k b'0' f.zeros >>> rest in
      let written : Writes k tail ((zeros ++ f.digits) ++ end) =
        subst (λ l. Writes k tail l) (sym (append_assoc zeros f.digits end))
          (>>>-Writes k (sink_repeat k b'0' f.zeros) rest zeros (f.digits ++ end)
            (sink_repeat-Writes k complete b'0' f.zeros)
            (>>>-Writes k (sink_bytes k f.digits) (fprintf_field_end k state len) f.digits end
              (sink_bytes-Writes k complete f.digits) (field_end-Writes k complete state len))) in
      let size : len ≡ length f.prefix + length (zeros ++ f.digits) =
        omega (arith, length-append zeros f.digits, length-replicate {A = ℕ} f.zeros b'0') in
      let whole =
        field-Writes k complete state f.prefix (zeros ++ f.digits) zero_pad len tail size written in
      let shown = Numeral-Shown state u ns word n in
      let body =
        body-integer_field state u state.specifier
        ∙ ap (body_for state.flags state.precision state.specifier)
            (e ∙ Shown-text state u ns shown) in
      let fills = none-zeros_fill state.flags state.precision in
      (
        ns,
        shown,
        subst (λ t. Writes k (fprintf_field_begin k state len f.prefix zero_pad >>> tail) t)
            (λ i. framed state (prefix-integer_field state u state.specifier i) (body i) (fills i))
            whole,
      )
