-- ===== src/Printf/Text/Output.antt =====
-- What `%s` prints, and what `%n` stores (src/stdio.c).
use freestanding_custom_c_li.Prelude.{
  ℕ, zero, suc, ◌+◌, ◌-◌, ◌*◌, ◌%◌, ◌/◌, ◌^◌, ◌≤◌, ◌<◌, ◌≡◌, ◌≢◌, refl, ap, sym, ◌∙◌, false, Option,
  none, some, [], arith, Bytes, length, ==_iff, ==_false, ◌⊎◌, inl, min, length-take,
}
use freestanding_custom_c_li.Kernel.{Kernel}
use freestanding_custom_c_li.Strings.Memory.{Mem, IsString, end, char, store, SameOutside}
use freestanding_custom_c_li.Stdio.Buffered.{Complete}
use freestanding_custom_c_li.Printf.Formats.{State, LengthModifier}
use freestanding_custom_c_li.Printf.Sinks.{◌>>>◌, sink_bytes, fprintf_field_end}
use freestanding_custom_c_li.Printf.Sinks.Written.{framed, Writes, >>>-Writes, sink_bytes-Writes}
use freestanding_custom_c_li.Printf.Sinks.Fields.{trailing, field_end-Writes, field-Writes}
use freestanding_custom_c_li.Printf.Text.{
  bounded, bounded_length, load_bytes, fprintf_output_string, output_string, store_bytes, size_of,
  fprintf_store_count,
}
use freestanding_custom_c_li.Prelude.Power.{pow_pos}
use native.Mathlib.Nat.{mod-add-div, mod-lt, mod-eq_of_lt, add-mul-mod_self_left, pow-suc}

-- How many of the bytes `s` the precision allows behind `n` others.
abbrev visible : Option ℕ → (n : ℕ) → Bytes → ℕ
visible none n s = length s
visible (some q) n s = min (q - n) (length s)

length-bounded : (q : Option ℕ) (s : Bytes) → length (bounded s q) ≡ visible q 0 s
length-bounded none s = refl
length-bounded (some q) s = omega (arith, length-take q s)

bounded_length-IsString :
    (fuel : ℕ) (m : Mem) (p : ℕ) (q : Option ℕ) (n : ℕ) {a : ℕ} {s : Bytes}
    → IsString m a s
    → a ≡ p + n
    → length s < fuel
    → bounded_length fuel m p q n ≡ some (n + visible q n s)
unfolding bounded_length
bounded_length-IsString zero m p q n str at h = absurd (omega arith)
bounded_length-IsString (suc fuel) m p none n (end z) at h =
    let z' : m (p + n) ≡ 0 = ap m (sym at) ∙ z in rw z' (ap some (omega arith))
bounded_length-IsString (suc fuel) m p (some q) n (end z) at h =
    let z' : m (p + n) ≡ 0 = ap m (sym at) ∙ z in ground (arith, z')
bounded_length-IsString (suc fuel) m p none n (char {c = c} {s = s} e other more) at h =
    let e' : m (p + n) ≡ c = ap m (sym at) ∙ e in
    let ih = bounded_length-IsString fuel m p none (n + 1) more (omega arith) (omega arith) in
    rw (e', ==_false c 0 other, ih) (ap some (omega arith))
bounded_length-IsString (suc fuel) m p (some q) n (char {c = c} {s = s} e other more) at h =
    let e' : m (p + n) ≡ c = ap m (sym at) ∙ e in
    let ih = bounded_length-IsString fuel m p (some q) (n + 1) more (omega arith) (omega arith) in
    ground (arith, e', ih)

load_bytes-bounded :
    (m : Mem) (p : ℕ) (q : Option ℕ) {s : Bytes}
    → IsString m p s
    → load_bytes m p (length (bounded s q)) ≡ bounded s q
load_bytes-bounded m p none (end z) = refl
load_bytes-bounded m p none (char e other more) =
    rw (e, load_bytes-bounded m (suc p) none more) refl
load_bytes-bounded m p (some zero) str = refl
load_bytes-bounded m p (some (suc q)) (end z) = refl
load_bytes-bounded m p (some (suc q)) (char e other more) =
    rw (e, load_bytes-bounded m (suc p) (some q) more) refl

module _ (k : Kernel) (complete : Complete k) where
  pub fprintf_output_string-Writes :
      (str : Bytes) (state : State)
      → Writes k (fprintf_output_string k str state) (framed state [] str false)
  unfolding fprintf_output_string
  fprintf_output_string-Writes str state =
      let len = length str in
      field-Writes k complete state [] str false len
        (sink_bytes k str >>> fprintf_field_end k state len) (omega arith)
        (>>>-Writes k (sink_bytes k str) (fprintf_field_end k state len) str (trailing state len)
          (sink_bytes-Writes k complete str) (field_end-Writes k complete state len))

  -- `%s` without the length modifier `l`, of a pointer that is not NULL to a string with fewer
  -- bytes than the fuel, on an open buffered stream over a kernel without short writes: it writes
  -- the bytes of the string, or as many of them as the precision says if that is fewer, in a field
  -- of the width with blanks on the side that the flags say.
  pub output_string-Writes :
      (fuel : ℕ) (m : Mem) (p : ℕ) (state : State) (s : Bytes)
      → p ≢ 0
      → IsString m p s
      → length s < fuel
      → Writes k
          (output_string k fuel m p false state)
          (framed state [] (bounded s state.precision) false)
  unfolding output_string
  output_string-Writes fuel m p state s nonnull str h =
      let q = state.precision in
      let found : bounded_length fuel m p q 0 ≡ some (length (bounded s q)) =
        bounded_length-IsString fuel m p q 0 str (omega arith) h
        ∙ ap some (omega (arith, length-bounded q s)) in
      λ sink w o c.
        rw (==_false p 0 nonnull, found, load_bytes-bounded m p q str)
          (fprintf_output_string-Writes (bounded s q) state sink w o c)

-- The `n` bytes at `p` as a number, the lowest first.
abbrev pub load_count : Mem → (p n : ℕ) → ℕ
load_count m p zero = 0
load_count m p (suc n) = m p + 256 * load_count m (suc p) n

store_bytes-SameOutside :
    (n : ℕ) (m : Mem) (p count : ℕ) → SameOutside p (p + n) m (store_bytes n m p count)
unfolding store_bytes
store_bytes-SameOutside zero m p count a h = refl
store_bytes-SameOutside (suc n) m p count a h =
    let outside : (a < suc p) ⊎ (suc p + n ≤ a) = ground arith in
    let other : a ≢ p = ground arith in
    store_bytes-SameOutside n (store m p (count % 256)) (suc p) (count / 256) a outside
    ∙ rw (==_false p a (λ e. other (sym e))) refl

mod_pow : (n c : ℕ) → c % 256 + 256 * (c / 256 % 256 ^ n) ≡ c % 256 ^ suc n
mod_pow n c =
    let q = c / 256 in
    let b = 256 ^ n in
    let x = c % 256 + 256 * (q % b) in
    let parts : q % b + b * (q / b) ≡ q = mod-add-div q b in
    let small : q % b < b = mod-lt q (pow_pos 256 (omega arith) n) in
    let whole : c ≡ x + 256 * b * (q / b) = grind (arith, parts) in
    let below : x < 256 * b = omega (arith, small) in
    let p : 256 ^ suc n ≡ 256 * b = grind (arith, pow-suc 256 n) in
    rw p (
      sym (
        ap (λ t. t % (256 * b)) whole
        ∙ add-mul-mod_self_left x (256 * b) (q / b)
        ∙ mod-eq_of_lt below))

load-store_bytes :
    (n : ℕ) (m : Mem) (p count : ℕ) → load_count (store_bytes n m p count) p n ≡ count % 256 ^ n
unfolding store_bytes
load-store_bytes zero m p count = omega arith
load-store_bytes (suc n) m p count =
    let m' = store m p (count % 256) in
    let here = store_bytes-SameOutside n m' (suc p) (count / 256) p (inl (omega arith)) in
    rw (here, load-store_bytes n m' (suc p) (count / 256), (==_iff p p).1 refl) (mod_pow n count)

-- `fprintf_store_count`: the object at `p`, of as many bytes as the length modifier says, has the
-- count modulo its size, and all other bytes of the memory are as they were.
pub fprintf_store_count-stored :
    (m : Mem) (p : ℕ) (modifier : LengthModifier) (count : ℕ)
    → let g = fprintf_store_count m p modifier count in
      let n = size_of modifier in (load_count g p n ≡ count % 256 ^ n) × SameOutside p (p + n) m g
unfolding fprintf_store_count
fprintf_store_count-stored m p modifier count =
    let n = size_of modifier in (load-store_bytes n m p count, store_bytes-SameOutside n m p count)
