-- ===== src/Strings.antt =====
-- src/string/*.c: `strlen`, `strcpy`, `strncpy`, `strcmp`, `strtokc` and `strdup`.
-- Memory is a function from addresses to bytes. The loops run on fuel; `none` is fuel that ran out.
pub mod Memory
pub mod Length
pub mod Copy
pub mod Compare
pub mod Tokens
pub mod Bytewise
pub mod Duplicate
use freestanding_custom_c_li.Prelude.{
  ℕ, zero, suc, ◌+◌, ◌-◌, ◌%◌, ◌^◌, Bool, true, false, Option, none, some, ◌&&◌, ◌||◌, not, ltb,
  ◌==◌, if◌then◌else◌, ◌>>=◌,
}
use freestanding_custom_c_li.Strings.Memory.{Mem, store}

pub strlen_loop : ℕ → Mem → ℕ → ℕ → Option ℕ
strlen_loop zero m str len = none
strlen_loop (suc fuel) m str len =
    let rest = strlen_loop fuel m (suc str) ((len + 1) % 2 ^ 64) in
    if m str == 0 then some len else rest

pub strlen : ℕ → Mem → ℕ → Option ℕ
strlen fuel m str = strlen_loop fuel m str 0

-- `while (*src && bytes_copied < n)`; `strcpy` has no bound, which `none` stands for.
pub copy_loop : Option ℕ → ℕ → Mem → ℕ → ℕ → ℕ → Option (ℕ × Mem)
copy_loop bound zero m dst src copied = none
copy_loop bound (suc fuel) m dst src copied =
    let rest =
      copy_loop bound fuel (store m dst (m src)) (suc dst) (suc src) ((copied + 1) % 2 ^ 64) in
    let in_bound : Bool = elim bound [ none ↦ true | some n ↦ ltb copied n ] in
    if m src == 0 then some (copied, m) else if in_bound then rest else some (copied, m)

pub strcpy : ℕ → Mem → ℕ → ℕ → Option (ℕ × Mem)
strcpy fuel m dst src = copy_loop none fuel m dst src 0

pub strncpy : ℕ → Mem → ℕ → ℕ → ℕ → Option (ℕ × Mem)
strncpy fuel m dst src n = copy_loop (some n) fuel m dst src 0

-- A `char` is signed: the byte as a 64-bit pattern, and `*s1 - *s2` as a `ptrdiff_t` pattern.
abbrev pub sign_extend : ℕ → ℕ
sign_extend c = if ltb c 128 then c else c + (2 ^ 64 - 256)

abbrev pub char_diff : ℕ → ℕ → ℕ
char_diff a b = (sign_extend a + 2 ^ 64 - sign_extend b) % 2 ^ 64

pub strcmp : ℕ → Mem → ℕ → ℕ → Option ℕ
strcmp zero m s1 s2 = none
strcmp (suc fuel) m s1 s2 =
    let rest = strcmp fuel m (suc s1) (suc s2) in
    if m s1 == 0 || m s2 == 0
    then some (char_diff (m s1) (m s2))
    else if m s1 == m s2
    then rest
    else some (char_diff (m s1) (m s2))

-- The static variables of `strtokc`, with the memory. A null `prev` is 0.
pub record Tokenizer : Type 0 where
  pub mem : Mem
  pub prev : ℕ
  pub missing_char : ℕ
  pub at_end : Bool

-- `while (*end != ch && *end != '\0') ++end;`
pub find_end : ℕ → Mem → ℕ → ℕ → Option ℕ
find_end zero m end ch = none
find_end (suc fuel) m end ch =
    let rest = find_end fuel m (suc end) ch in if m end == ch || m end == 0 then some end else rest

-- The part of `strtokc` behind the search.
pub close_token : Tokenizer → ℕ → ℕ → Option ℕ × Tokenizer
close_token t begin end = if t.mem end == 0 then (some begin, record t { at_end = true }) else (
  some begin,
  record { mem = store t.mem end 0; prev = end; missing_char = t.mem end; at_end = false },
)

-- `*begin = str ? *begin : missing_char;` and the search from `begin + 1`.
pub token_from : ℕ → Tokenizer → ℕ → ℕ → ℕ → Option (Option ℕ × Tokenizer)
token_from fuel t begin first ch = find_end fuel (store t.mem begin first) (suc begin) ch >>= λ end.
    some (close_token (record t { mem = store t.mem begin first }) begin end)

-- `str` is an option: `none` is NULL.
pub strtokc : ℕ → Tokenizer → Option ℕ → ℕ → Option (Option ℕ × Tokenizer)
strtokc fuel t (some str) ch = token_from fuel t str (t.mem str) ch
strtokc fuel t none ch =
    if t.at_end then some (none, t) else token_from fuel t t.prev t.missing_char ch

pub strtok_end : Tokenizer → Bool
strtok_end t = t.at_end
