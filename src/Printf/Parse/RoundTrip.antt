-- ===== src/Printf/Parse/RoundTrip.antt =====
-- Length modifiers and specifiers (src/stdio.c) read back from their text.
use freestanding_custom_c_li.Prelude.{
  ℕ, ◌≤◌, ◌<◌, ◌≡◌, ◌≢◌, refl, ap, ◌∙◌, false, [], ◌∷◌, ◌++◌, arith, Bytes, ◌==◌, ==_false,
}
use freestanding_custom_c_li.Printf.Formats.{
  LengthModifier, default_length, char_length, short_length, long_length, long_long_length,
  size_length, ptrdiff_length, intmax_length, long_double_length, Specifier, unknown,
}
use freestanding_custom_c_li.Printf.Parse.{
  get_length_modifier, specifier_of, is_upper, is_unknown, get_format_specifier,
}
use native.Mathlib.Decide.{dec_le}

-- The characters of a length modifier.
abbrev pub modifier_text : LengthModifier → Bytes
modifier_text default_length = []
modifier_text char_length = b'h' ∷ b'h' ∷ []
modifier_text short_length = b'h' ∷ []
modifier_text long_length = b'l' ∷ []
modifier_text long_long_length = b'l' ∷ b'l' ∷ []
modifier_text size_length = b'z' ∷ []
modifier_text ptrdiff_length = b't' ∷ []
modifier_text intmax_length = b'j' ∷ []
modifier_text long_double_length = b'L' ∷ []

-- The character of a specifier.
abbrev pub IsKnown : ℕ → Type 0
IsKnown c = specifier_of c ≢ unknown

small-unknown : (c : ℕ) → c < b'A' → specifier_of c ≡ unknown
unfolding specifier_of
small-unknown c h = ground arith

pub letter_of_known : (c : ℕ) → IsKnown c → b'A' ≤ c
letter_of_known c known = elim (dec_le b'A' c) [
  | yes h ↦ h
  | no h ↦ absurd (known (small-unknown c (omega arith)))
]

-- A specifier is no modifier.
not_modifier : (a c : ℕ) → IsKnown c → specifier_of a ≡ unknown → (c == a) ≡ false
not_modifier a c known u = ==_false c a (λ e. known (ap specifier_of e ∙ u))

pub get_length_modifier-text :
    (l : LengthModifier) (c : ℕ) (s : Bytes)
    → IsKnown c
    → get_length_modifier (modifier_text l ++ (c ∷ s)) ≡ (l, c ∷ s)
unfolding get_length_modifier
get_length_modifier-text default_length c s known =
    let u = λ (a : ℕ) (e : specifier_of a ≡ unknown). not_modifier a c known e in
    rw
      (
        u b'h' (unfold specifier_of in refl),
        u b'l' (unfold specifier_of in refl),
        u b'z' (unfold specifier_of in refl),
        u b't' (unfold specifier_of in refl),
        u b'j' (unfold specifier_of in refl),
        u b'L' (unfold specifier_of in refl),
      )
      refl
get_length_modifier-text char_length c s known = refl
get_length_modifier-text short_length c s known =
    rw (not_modifier b'h' c known (unfold specifier_of in refl)) refl
get_length_modifier-text long_length c s known =
    rw (not_modifier b'l' c known (unfold specifier_of in refl)) refl
get_length_modifier-text long_long_length c s known = refl
get_length_modifier-text size_length c s known = refl
get_length_modifier-text ptrdiff_length c s known = refl
get_length_modifier-text intmax_length c s known = refl
get_length_modifier-text long_double_length c s known = refl

is_unknown-known : (s : Specifier) → s ≢ unknown → is_unknown s ≡ false
is_unknown-known s h = ground arith

pub get_format_specifier-text :
    (c : ℕ) (s : Bytes) → IsKnown c → get_format_specifier (c ∷ s) ≡ (specifier_of c, is_upper c, s)
unfolding get_format_specifier
get_format_specifier-text c s known = rw (is_unknown-known (specifier_of c) known) refl
