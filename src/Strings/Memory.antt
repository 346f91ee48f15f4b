-- ===== src/Strings/Memory.antt =====
-- Memory, and the C strings in it, for src/string/*.c.
use freestanding_custom_c_li.Prelude.{
  ℕ, suc, ◌+◌, ◌≤◌, ◌<◌, ◌≡◌, ◌≢◌, ◌⊎◌, ◌∙◌, [], ◌∷◌, arith, Bytes, length, ◌==◌, if◌then◌else◌,
}

abbrev pub Mem : Type 0
Mem = ℕ → ℕ

abbrev pub store : Mem → ℕ → ℕ → Mem
store m p c q = if p == q then c else m q

-- The bytes `s` stand at `p`.
abbrev pub Holds : Mem → ℕ → Bytes → Type 0
Holds m p [] = Unit
Holds m p (c ∷ s) = (m p ≡ c) × Holds m (suc p) s

abbrev pub NoNul : Bytes → Type 0
NoNul [] = Unit
NoNul (c ∷ s) = (c ≢ 0) × NoNul s

-- A C string: the bytes `s`, none of them NUL, and a NUL behind them.
pub data IsString (m : Mem) : ℕ → Bytes → Type 0 where
  end : {p : ℕ} → m p ≡ 0 → IsString m p []
  char : {p c : ℕ} {s : Bytes} → m p ≡ c → c ≢ 0 → IsString m (suc p) s → IsString m p (c ∷ s)

-- `g` is `m` outside the addresses from `p` to `q`.
abbrev pub SameOutside : ℕ → ℕ → Mem → Mem → Type 0
SameOutside p q m g = (a : ℕ) → (a < p) ⊎ (q ≤ a) → g a ≡ m a

-- A string survives a change that spares its addresses.
pub IsString-frame :
    {m g : Mem} {p : ℕ} {s : Bytes}
    → IsString m p s
    → ((a : ℕ) → p ≤ a → a ≤ p + length s → g a ≡ m a)
    → IsString g p s
IsString-frame (end {p} e) same = end (same p (omega arith) (omega arith) ∙ e)
IsString-frame (char {p} e ne t) same =
    char (same p (omega arith) (omega arith) ∙ e) ne
      (IsString-frame t (λ a lo hi. same a (omega arith) (omega arith)))
