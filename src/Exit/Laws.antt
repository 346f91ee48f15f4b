-- ===== src/Exit/Laws.antt =====
-- src/exit.c against a list of registered callbacks.
use freestanding_custom_c_li.Prelude.{
  ℕ, zero, suc, ◌+◌, ◌-◌, ◌%◌, ◌^◌, ◌≤◌, ◌<◌, ◌≡◌, refl, ap, sym, ◌∙◌, Option, none, some, List, [],
  ◌∷◌, ◌++◌, map, arith, length, get_or, set, take, ltb, ltb_iff, ltb-false, ==_iff, ==_false,
  if◌then◌else◌, length-set, length-append, length-map, take-set, take-take, take-append, ◌>>=◌,
  inl, inr, Option-cases,
}
use freestanding_custom_c_li.Exit.{
  Table, Callback, max_callbacks, initial, atexit_push, atexit_pop, call, call_all, exit,
}
use mathlib.Core.List.{map-append}
use native.Mathlib.Decide.{dec_lt}

-- The table holds the callbacks `fs`, the first registered first.
pub record Registered (t : Table) (fs : List Callback) : Type 0 where
  pub size : length t.atexit ≡ max_callbacks
  pub count : t.n_callbacks ≡ length fs
  pub fits : length fs ≤ max_callbacks
  pub slots : take (length fs) t.atexit ≡ map some fs

pub initial-Registered : Registered initial []
unfolding initial
initial-Registered = record { size = refl; count = refl; fits = omega arith; slots = refl }

push-free :
    (t : Table) (fs : List Callback) (f : Callback)
    → Registered t fs
    → length fs < max_callbacks
    → Registered
        (record {
          atexit = set t.atexit t.n_callbacks (some f);
          n_callbacks = (t.n_callbacks + 1) % 2 ^ 32;
        })
        (fs ++ (f ∷ []))
push-free t fs f r room =
    let size = length-append fs (f ∷ []) in
    let e : length (fs ++ (f ∷ [])) ≡ suc (length fs) = omega (arith, size) in
    record {
      size = length-set t.atexit t.n_callbacks (some f) ∙ r.size;
      count = omega (arith, r.count, size);
      fits = omega (arith, size);
      slots = rw (
        e,
        r.count,
        take-set (length fs) t.atexit (some f) (omega (arith, r.size)),
        r.slots,
        map-append,
      );
    }

-- `atexit_push` on a table that holds the callbacks `fs`: with fewer than 64 of them it returns
-- true and the table then holds `f` behind them; with 64 it returns false and the table holds
-- `fs`.
pub atexit_push-Registered :
    (t : Table) (fs : List Callback) (f : Callback)
    → Registered t fs
    → let done = ltb (length fs) max_callbacks in
      (t' : Table) × (atexit_push t f ≡ some (done, t'))
      × Registered t' (if done then fs ++ (f ∷ []) else fs)
unfolding atexit_push
atexit_push-Registered t fs f r = elim (dec_lt (length fs) max_callbacks) [
  | yes room ↦
      rw
        (
          ==_false t.n_callbacks max_callbacks (omega (arith, r.count)),
          r.count,
          (ltb_iff (length fs) max_callbacks).1 room,
        )
        (_, refl, rw (← r.count) (push-free t fs f r room))
  | no full ↦
      rw
        (
          (==_iff t.n_callbacks max_callbacks).1 (omega (arith, r.count, r.fits)),
          ltb-false (length fs) max_callbacks (omega arith),
        )
        (t, refl, r)
]

module _ {World : Type 0} (run : Callback → World → World) where
  -- The callbacks in the order opposite to that of registration.
  abbrev pub run_all : List Callback → World → World
  run_all [] w = w
  run_all (f ∷ fs) w = run f (run_all fs w)

  -- The callback in the first slot is called last.
  call_all-cons :
      (n : ℕ) (f : Callback) (slots : List (Option Callback)) (w : World)
      → call_all run (suc n) (some f ∷ slots) w ≡ (call_all run n slots w >>= λ w'. some (run f w'))
  unfolding call_all call
  call_all-cons zero f slots w = refl
  call_all-cons (suc n) f slots w = elim (Option-cases (call run (get_or slots n none) w)) [
    | inl e ↦ rw e
    | inr (w', e) ↦ rw e (call_all-cons n f slots w')
  ]

  call_all-run :
      (fs : List Callback) (slots : List (Option Callback)) (w : World)
      → take (length fs) slots ≡ map some fs
      → call_all run (length fs) slots w ≡ some (run_all fs w)
  call_all-run [] slots w h = unfold call_all in refl
  call_all-run (f ∷ fs) [] w h = cc
  call_all-run (f ∷ fs) (s ∷ slots) w h =
      let head : s ≡ some f = cc in
      let rest : take (length fs) slots ≡ map some fs = cc in
      rw (head, call_all-cons (length fs) f slots w, call_all-run fs slots w rest)

  -- `exit` with a table that holds the callbacks `fs` calls each of them once, the last registered
  -- first, and the process ends with the given code.
  pub exit-lifo :
      (t : Table) (fs : List Callback) (exit_code : ℕ) (w : World)
      → Registered t fs
      → exit run t exit_code w ≡ some (exit_code, run_all fs w)
  unfolding exit
  exit-lifo t fs exit_code w r = rw (
    (ltb_iff t.n_callbacks (2 ^ 31)).1 (omega (arith, r.count, r.fits)),
    r.count,
    call_all-run fs t.atexit w r.slots,
  )

-- `atexit_pop` on a table of `f` behind the callbacks `fs`, with 62 of `fs` at most: the table
-- then holds `fs`, and what is returned is not `f` but the slot behind it.
pub atexit_pop-next :
    (t : Table) (fs : List Callback) (f : Callback)
    → Registered t (fs ++ (f ∷ []))
    → length fs + 1 < max_callbacks
    → (t' : Table) × (atexit_pop t ≡ some (get_or t.atexit (length fs + 1) none, t'))
      × Registered t' fs
unfolding atexit_pop
atexit_pop-next t fs f r room =
    let size = length-append fs (f ∷ []) in
    let shorter : (t.n_callbacks + 2 ^ 32 - 1) % 2 ^ 32 ≡ length fs =
      omega (arith, size, r.count) in
    let at : t.n_callbacks ≡ length fs + 1 = omega (arith, size, r.count) in
    (
      record t { n_callbacks = (t.n_callbacks + 2 ^ 32 - 1) % 2 ^ 32 },
      rw ((ltb_iff t.n_callbacks max_callbacks).1 (omega arith), at),
      record {
        size = r.size;
        count = shorter;
        fits = omega arith;
        slots =
            sym (take-take (length fs) (length (fs ++ (f ∷ []))) t.atexit (omega (arith, size)))
            ∙ ap (take (length fs)) (r.slots ∙ map-append some fs (f ∷ []))
            ∙ rw (← length-map some fs) (take-append (map some fs) (some f ∷ []));
      },
    )
