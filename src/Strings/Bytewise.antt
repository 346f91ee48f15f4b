-- ===== src/Strings/Bytewise.antt =====
-- The bytes of the 64-bit words that the heap of src/stdlib.c is modelled on, for the string
-- functions that read and write them as a `char *`. A word is stored with its lowest byte first.
use freestanding_custom_c_li.Prelude.{
  ℕ, zero, suc, refl, sym, inl, inr, Bool-cases, ==_iff, ◌==◌, if◌then◌else◌, ◌+◌, ◌*◌, ◌/◌, ◌%◌,
  ◌≤◌, ◌<◌, ◌≡◌, ap, ◌∙◌, [], ◌∷◌, arith, Bytes, length,
}
use freestanding_custom_c_li.Heap.{Words}
use freestanding_custom_c_li.Strings.Memory.{Mem, IsString, Holds, end, char}
use native.Mathlib.Decide.{dec_lt}

-- The byte number `r` of a word.
abbrev pub byte_at : ℕ → ℕ → ℕ
byte_at zero w = w % 256
byte_at (suc r) w = byte_at r (w / 256)

-- The address of the word that has the byte at an address.
abbrev pub word_at : ℕ → ℕ
word_at a = a / 8 * 8

abbrev pub view : Words → Mem
view m a = byte_at (a % 8) (m (word_at a))

-- `n` bytes as a number.
pub little : ℕ → Mem → ℕ → ℕ
little zero m p = 0
little (suc n) m p = m p + 256 * little n m (suc p)

-- The words behind a change of the bytes: a word changes if one of its bytes does.
pub put : Words → Mem → Words
put w m p = if little 8 (view w) p == little 8 m p then w p else little 8 m p

abbrev pub IsBytewise : Mem → Type 0
IsBytewise m = (a : ℕ) → m a < 256

byte_at-small : (r w : ℕ) → byte_at r w < 256
byte_at-small zero w = omega arith
byte_at-small (suc r) w = byte_at-small r (w / 256)

pub view-IsBytewise : (m : Words) → IsBytewise (view m)
view-IsBytewise m a = byte_at-small (a % 8) (m (word_at a))

byte_at-little :
    (n r : ℕ) (m : Mem) (p : ℕ) → IsBytewise m → r < n → byte_at r (little n m p) ≡ m (p + r)
unfolding little
byte_at-little zero r m p small lt = absurd (omega arith)
byte_at-little (suc n) zero m p small lt =
    let same : p + 0 ≡ p = omega arith in rw same (omega (arith, small p))
byte_at-little (suc n) (suc r) m p small lt =
    let next : (m p + 256 * little n m (suc p)) / 256 ≡ little n m (suc p) =
      omega (arith, small p) in
    let at : suc p + r ≡ p + suc r = omega arith in
    rw next (byte_at-little n r m (suc p) small (omega arith) ∙ ap m at)

-- Bytes that are put into words are there.
pub view-put : (w : Words) (m : Mem) (a : ℕ) → IsBytewise m → view (put w m) a ≡ m a
unfolding put
view-put w m a small =
    let p = word_at a in
    let r = a % 8 in
    let whole : p + r ≡ a = omega arith in
    let stored = byte_at-little 8 r m p small (omega arith) ∙ ap m whole in
    elim (Bool-cases (little 8 (view w) p == little 8 m p)) [
      | inl same ↦ rw same (
          ap (view w) (sym whole)
          ∙ sym (byte_at-little 8 r (view w) p (view-IsBytewise w) (omega arith))
          ∙ ap (byte_at r) ((==_iff (little 8 (view w) p) (little 8 m p)).0 same)
          ∙ stored)
      | inr changed ↦ rw changed stored
    ]

little-same :
    (n : ℕ) (m g : Mem) (p : ℕ)
    → ((a : ℕ) → p ≤ a → a < p + n → g a ≡ m a)
    → little n g p ≡ little n m p
unfolding little
little-same zero m g p same = refl
little-same (suc n) m g p same =
    rw
      (
        same p (omega arith) (omega arith),
        little-same n m g (suc p) (λ a lo hi. same a (omega arith) (omega arith)),
      )
      refl

-- A word without a changed byte is as it was.
pub put-same :
    (w : Words) (m : Mem) (p : ℕ) → ((a : ℕ) → p ≤ a → a < p + 8 → m a ≡ view w a) → put w m p ≡ w p
unfolding put
put-same w m p same =
    rw ((==_iff (little 8 (view w) p) (little 8 m p)).1 (sym (little-same 8 (view w) m p same)))
      refl

pub Holds-same : {m g : Mem} (p : ℕ) (s : Bytes) → Holds m p s → ((a : ℕ) → g a ≡ m a) → Holds g p s
Holds-same p [] h same = tt
Holds-same p (c ∷ s) (e, h) same = (same p ∙ e, Holds-same (suc p) s h same)

-- A copy of a string consists of bytes.
pub Holds-small :
    {m : Mem} {str : ℕ} {s : Bytes} (g : Mem) (p a : ℕ)
    → IsBytewise m
    → IsString m str s
    → Holds g p s
    → p ≤ a
    → a < p + length s
    → g a < 256
Holds-small g p a small (end e) h lo hi = absurd (omega arith)
Holds-small g p a small (char {p = str} {c} e ne t) (first, h) lo hi = elim (dec_lt p a) [
  | yes later ↦ Holds-small g (suc p) a small t h (omega arith) (omega arith)
  | no here ↦ let at : a ≡ p = omega arith in omega (arith, ap g at, first, e, small str)
]
