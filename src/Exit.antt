-- ===== src/Exit.antt =====
-- src/exit.c: the table of `atexit` callbacks and `exit`.
-- A callback is a name for the function; what calling it does to the world is a parameter, and it
-- leaves the table alone. `n_callbacks` is the 32-bit pattern of an `int`. `none` is an access
-- outside the table or a call through a null pointer.
pub mod Laws
use freestanding_custom_c_li.Prelude.{
  ℕ, zero, suc, ◌+◌, ◌-◌, ◌%◌, ◌^◌, Bool, true, false, Option, none, some, List, get_or, set,
  replicate, ltb, ◌==◌, if◌then◌else◌, ◌>>=◌,
}

abbrev pub max_callbacks : ℕ
max_callbacks = 64

abbrev pub Callback : Type 0
Callback = ℕ

pub record Table : Type 0 where
  pub atexit : List (Option Callback)
  pub n_callbacks : ℕ

pub initial : Table
initial = record { atexit = replicate max_callbacks none; n_callbacks = 0 }

pub atexit_push : Table → Callback → Option (Bool × Table)
atexit_push t func =
    if t.n_callbacks == max_callbacks
    then some (false, t)
    else if ltb t.n_callbacks max_callbacks
    then some (
      true,
      record {
        atexit = set t.atexit t.n_callbacks (some func);
        n_callbacks = (t.n_callbacks + 1) % 2 ^ 32;
      },
    )
    else none

-- `return atexit[n_callbacks--];`
pub atexit_pop : Table → Option (Option Callback × Table)
atexit_pop t =
    if ltb t.n_callbacks max_callbacks
    then some (
      get_or t.atexit t.n_callbacks none,
      record t { n_callbacks = (t.n_callbacks + 2 ^ 32 - 1) % 2 ^ 32 },
    )
    else none

module _ {World : Type 0} (run : Callback → World → World) where
  pub call : Option Callback → World → Option World
  call none w = none
  call (some func) w = some (run func w)

  -- `for (j = n_callbacks - 1; j >= 0; --j) atexit[j]();` with `j + 1` calls to make.
  pub call_all : ℕ → List (Option Callback) → World → Option World
  call_all zero atexit w = some w
  call_all (suc j) atexit w = call (get_or atexit j none) w >>= λ w'. call_all j atexit w'

  -- The calls, and then `terminate(exit_code)`: the world and the code that the process ends with.
  -- A count that is negative as an `int` makes no call.
  pub exit : Table → ℕ → World → Option (ℕ × World)
  exit t exit_code w =
      call_all (if ltb t.n_callbacks (2 ^ 31) then t.n_callbacks else 0) t.atexit w >>= λ w'.
      some (exit_code, w')
