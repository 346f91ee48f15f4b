-- ===== src/Examples/Texts.antt =====
-- Examples for src/string/*.c and src/memory.c.
use freestanding_custom_c_li.Prelude.{
  ℕ, ◌+◌, ◌<◌, ◌≡◌, ◌↔◌, refl, inl, inr, some, none, [], ◌∷◌, arith, Bytes, get_or, false,
}
use freestanding_custom_c_li.Strings.{Tokenizer, strlen, strcpy, strncpy, strcmp, strtokc}
use freestanding_custom_c_li.Strings.Memory.{Mem, IsString, end, char, SameOutside}
use freestanding_custom_c_li.Memory.{memcpy_large, memcpy_large-copied}
use freestanding_custom_c_li.Strings.Length.{strlen-length}
use freestanding_custom_c_li.Strings.Copy.{Copied, strcpy-Copied, strncpy-Copied}
use freestanding_custom_c_li.Strings.Compare.{difference, strcmp-eq}
use freestanding_custom_c_li.Strings.Tokens.{Token, strtokc-next}

-- "a,b" stands at address 1.
abbrev memory : Mem
memory p = get_or (0 ∷ b'a' ∷ b',' ∷ b'b' ∷ []) p 0

abbrev text : Bytes
text = b'a' ∷ b',' ∷ b'b' ∷ []

text_at_1 : IsString memory 1 text
text_at_1 = char refl (omega arith) (char refl (omega arith) (char refl (omega arith) (end refl)))

b_at_3 : IsString memory 3 (b'b' ∷ [])
b_at_3 = char refl (omega arith) (end refl)

-- The tokenizer behind the first token of "a,b".
abbrev behind_a : Tokenizer
behind_a = record {
  mem = λ p. get_or (0 ∷ b'a' ∷ 0 ∷ b'b' ∷ []) p 0;
  prev = 2;
  missing_char = b',';
  at_end = false;
}

strlen-length_example : strlen 10 memory 1 ≡ some 3
strlen-length_example = strlen-length 10 text_at_1 (omega arith) (omega arith)

strcpy-Copied_example : Copied memory 100 text 3 3 (strcpy 10 memory 100 1)
strcpy-Copied_example = strcpy-Copied 10 text_at_1 (inr (omega arith)) (omega arith) (omega arith)

strncpy-Copied_example : Copied memory 100 text 2 2 (strncpy 10 memory 100 1 2)
strncpy-Copied_example =
    strncpy-Copied 10 text_at_1 (inr (omega arith)) (omega arith) (omega arith) 2

strcmp-eq_example :
    (strcmp 10 memory 1 3 ≡ some (difference text (b'b' ∷ [])))
    × ((difference text (b'b' ∷ []) ≡ 0) ↔ (text ≡ b'b' ∷ []))
strcmp-eq_example = strcmp-eq 10 text_at_1 b_at_3 (omega arith) (omega arith) (omega arith)

strtokc-next_example : Token 2 (b',' ∷ b'b' ∷ []) [] (strtokc 10 behind_a none b',')
strtokc-next_example =
    strtokc-next 10 behind_a b',' b',' (b'b' ∷ [])
      (refl, refl, omega arith, char refl (omega arith) (end refl)) (omega arith)

memcpy_large-copied_example :
    let (p, g) = memcpy_large memory 0 1 3 in
    (p ≡ 0) × ((i : ℕ) → i < 3 → g (0 + i) ≡ memory (1 + i)) × SameOutside 0 3 memory g
memcpy_large-copied_example = memcpy_large-copied memory 0 1 3 (inl (omega arith))
