-- ===== src/Strings/Tokens.antt =====
-- `strtokc` and `strtok_end` (src/string/strtok.c).
use freestanding_custom_c_li.Prelude.{
  ℕ, zero, suc, ◌+◌, ◌<◌, ◌≡◌, ◌≢◌, refl, ap, sym, ◌∙◌, Option, none, some, [], ◌∷◌, ◌++◌, arith,
  true, false, Bytes, length, ◌==◌, ==_iff, ==_false, if◌then◌else◌, Bool-cases, inl, inr,
}
use freestanding_custom_c_li.Strings.Memory.{Mem, store, IsString, end, char, IsString-frame}
use mathlib.Core.Path.{subst}
use freestanding_custom_c_li.Strings.{Tokenizer, find_end, close_token, token_from, strtokc}

-- The text before the first `ch`, and the text from it on.
abbrev pub before : ℕ → Bytes → Bytes
before ch [] = []
before ch (c ∷ s) = if c == ch then [] else c ∷ before ch s

abbrev pub after : ℕ → Bytes → Bytes
after ch [] = []
after ch (c ∷ s) = if c == ch then c ∷ s else after ch s

pub before-append-after : (ch : ℕ) (s : Bytes) → before ch s ++ after ch s ≡ s
before-append-after ch [] = refl
before-append-after ch (c ∷ s) = elim (Bool-cases (c == ch)) [
  | inl e ↦ rw e
  | inr e ↦ rw e (ap (λ t. c ∷ t) (before-append-after ch s))
]

-- The text `rest` is what a tokenizer has still to split. Its first byte has been overwritten, and
-- is kept beside.
abbrev pub Rest : Tokenizer → Bytes → Type 0
Rest t [] = t.at_end ≡ true
Rest t (d ∷ r) = (t.at_end ≡ false) × (t.missing_char ≡ d) × (d ≢ 0) × IsString t.mem (suc t.prev) r

store_self : (m : Mem) (p : ℕ) → store m p 0 p ≡ 0
store_self m p = rw ((==_iff p p).1 refl)

zero_store : (m : Mem) (e a : ℕ) → m e ≡ 0 → m a ≡ store m e 0 a
zero_store m e a z = elim (Bool-cases (e == a)) [
  | inl same ↦ rw same (rw (← (==_iff e a).0 same) z)
  | inr other ↦ rw other
]

-- Where the search of a string ends.
data Found (m : Mem) (e : ℕ) : Bytes → Type 0 where
  at_nul : m e ≡ 0 → Found m e []
  at_char : {d : ℕ} {r : Bytes} → m e ≡ d → d ≢ 0 → IsString m (suc e) r → Found m e (d ∷ r)

record Search (m : Mem) (p ch : ℕ) (s : Bytes) (e : ℕ) : Type 0 where
  place : e ≡ p + length (before ch s)
  found : Found m e (after ch s)
  cut : IsString (store m e 0) p (before ch s)

find_end-Search :
    (fuel : ℕ) (ch : ℕ) {m : Mem} {p : ℕ} {s : Bytes}
    → IsString m p s
    → length s < fuel
    → (e : ℕ) × (find_end fuel m p ch ≡ some e) × Search m p ch s e
unfolding find_end
find_end-Search zero ch t h = absurd (omega arith)
find_end-Search (suc fuel) ch {m} {p} (end e) h =
    (p, ground arith, record { place = omega arith; found = at_nul e; cut = end (store_self m p) })
find_end-Search (suc fuel) ch {m} {p} (char {c} {s} e ne t) h = elim (Bool-cases (c == ch)) [
  | inl hit ↦ (
    p,
    ground arith,
    record {
      place = rw hit (omega arith);
      found = rw hit (at_char e ne t);
      cut = rw hit (end (store_self m p));
    },
  )
  | inr miss ↦
      let (x, ends, search) = find_end-Search fuel ch t (omega arith) in
      (
        x,
        rw (e, miss, ==_false c 0 ne) ends,
        record {
          place = rw miss (omega (arith, search.place));
          found = rw miss search.found;
          cut = rw miss (char (rw (==_false x p (omega (arith, search.place))) e) ne search.cut);
        },
      )
]

-- What a call gives that begins a token at `begin`: the token, as a C string of its own, and the
-- rest of the text.
pub record Token (begin : ℕ) (text rest : Bytes) (res : Option (Option ℕ × Tokenizer))
    : Type 0 where
  pub next : Tokenizer
  pub returns : res ≡ some (some begin, next)
  pub string : IsString next.mem begin text
  pub remains : Rest next rest

close_token-Token :
    (t : Tokenizer) (begin c e ch : ℕ) (s : Bytes)
    → c ≢ 0
    → t.mem begin ≡ c
    → IsString t.mem (suc begin) s
    → Search t.mem (suc begin) ch s e
    → (rest : Bytes) → after ch s ≡ rest
    → Found t.mem e rest
    → Token begin (c ∷ before ch s) rest (some (close_token t begin e))
unfolding close_token
close_token-Token t begin c e ch s ne first tail search rest is (at_nul z) = record {
  next = record t { at_end = true };
  returns = rw z;
  string = char first ne (IsString-frame search.cut (λ a lo hi. zero_store t.mem e a z));
  remains = refl;
}
close_token-Token t begin c e ch s ne first tail search rest is (at_char {d} {r} hit dn more) =
    record {
      next = record { mem = store t.mem e 0; prev = e; missing_char = t.mem e; at_end = false };
      returns = rw (==_false (t.mem e) 0 (λ z. dn (sym hit ∙ z)));
      string = char (rw (==_false e begin (omega (arith, search.place))) first) ne search.cut;
      remains = (refl, hit, dn, IsString-frame more (λ a lo hi. rw (==_false e a (omega arith))));
    }

token_from-Token :
    (fuel : ℕ) (t : Tokenizer) (begin c ch : ℕ) {s : Bytes}
    → c ≢ 0
    → IsString t.mem (suc begin) s
    → length s < fuel
    → Token begin (c ∷ before ch s) (after ch s) (token_from fuel t begin c ch)
unfolding token_from
token_from-Token fuel t begin c ch {s} ne tail h =
    let t' : Tokenizer = record t { mem = store t.mem begin c } in
    let there : IsString t'.mem (suc begin) s =
      IsString-frame tail (λ a lo hi. rw (==_false begin a (omega arith))) in
    let (e, ends, search) = find_end-Search fuel ch there h in
    let here : t'.mem begin ≡ c = rw ((==_iff begin begin).1 refl) in
    rw ends
      (close_token-Token t' begin c e ch s ne here there search (after ch s) refl search.found)

-- `strtokc` with the address `p` of a string of one byte at least, `c` and the text `s`, and fuel
-- above the length of `s`: it returns `p`, where `c` and the beginning of `s` up to the first `ch`
-- stand, NUL-terminated, and the rest to split is the text from that `ch` on, or nothing, with the
-- end flag set.
strtokc-first :
    (fuel : ℕ) (t : Tokenizer) (p ch c : ℕ) {s : Bytes}
    → IsString t.mem p (c ∷ s)
    → length s < fuel
    → Token p (c ∷ before ch s) (after ch s) (strtokc fuel t (some p) ch)
unfolding strtokc
strtokc-first fuel t p ch c {s} (char e ne tail) h =
    subst (λ x. Token p (x ∷ before ch s) (after ch s) (token_from fuel t p (t.mem p) ch)) e
      (token_from-Token fuel t p (t.mem p) ch (λ z. ne (sym e ∙ z)) tail h)

-- `strtokc` with a null pointer, where the rest to split is `d` and the text `r`, and the fuel is
-- more than the length of `r`: it returns the address of the token `d` and the beginning of `r` up
-- to the first `ch`, NUL-terminated in memory, and the rest to split is then the text from that
-- `ch` on, or nothing, with the end flag set.
pub strtokc-next :
    (fuel : ℕ) (t : Tokenizer) (ch d : ℕ) (r : Bytes)
    → Rest t (d ∷ r)
    → length r < fuel
    → Token t.prev (d ∷ before ch r) (after ch r) (strtokc fuel t none ch)
unfolding strtokc
strtokc-next fuel t ch d r (going, kept, ne, tail) h = simp going (
    subst
      (λ x.
        Token t.prev (x ∷ before ch r) (after ch r) (token_from fuel t t.prev t.missing_char ch))
      kept (token_from-Token fuel t t.prev t.missing_char ch (λ z. ne (sym kept ∙ z)) tail h))
