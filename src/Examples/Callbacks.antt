-- ===== src/Examples/Callbacks.antt =====
-- Examples for src/exit.c, and for the stream that it flushes (src/stdio.c).
use freestanding_custom_c_li.Prelude.{◌≡◌, refl, true, some, none, List, [], ◌∷◌, arith, replicate}
use freestanding_custom_c_li.Exit.{Table, Callback, atexit_push, atexit_pop, exit}
use freestanding_custom_c_li.Exit.Laws.{
  Registered, atexit_push-Registered, atexit_pop-next, exit-lifo,
}
use freestanding_custom_c_li.Stdio.{fflush}
use freestanding_custom_c_li.Stdio.Buffered.{held}
use freestanding_custom_c_li.Stdio.AtExit.{Process, run_callback, exit-flushed}
use freestanding_custom_c_li.Examples.Streams.{
  whole, whole-Complete, nothing, stdout, stdout-IsOpen,
}

-- The callbacks 7 and 8, registered in this order.
abbrev two : Table
two = record { atexit = some 7 ∷ some 8 ∷ replicate 62 none; n_callbacks = 2 }

two-Registered : Registered two (7 ∷ 8 ∷ [])
two-Registered = record { size = refl; count = refl; fits = omega arith; slots = refl }

-- A world that notes the callbacks, the last one first.
abbrev note : Callback → List Callback → List Callback
note f log = f ∷ log

exit-lifo_example : exit note two 3 [] ≡ some (3, 7 ∷ 8 ∷ [])
exit-lifo_example = exit-lifo note two (7 ∷ 8 ∷ []) 3 [] two-Registered

atexit_push-Registered_example :
    (t' : Table) × (atexit_push two 9 ≡ some (true, t')) × Registered t' (7 ∷ 8 ∷ 9 ∷ [])
atexit_push-Registered_example = atexit_push-Registered two (7 ∷ 8 ∷ []) 9 two-Registered

atexit_pop-next_example : (t' : Table) × (atexit_pop two ≡ some (none, t')) × Registered t' (7 ∷ [])
atexit_pop-next_example = atexit_pop-next two (7 ∷ []) 8 two-Registered (omega arith)

-- A process that has written three bytes to `stdout`.
abbrev process : Process whole
process = record { stdout = stdout; world = nothing }

-- `flush_streams` is the callback 7, and the callback 8 does nothing.
exit-flushed_example :
    let (ok, out, w) = fflush whole stdout nothing in
    (exit (run_callback whole 7 (λ f p. p)) two 3 process
      ≡ some (3, record { stdout = out; world = w }))
    × (out.buffer_index ≡ 0)
    × (ok ≡ true → w out.fd ≡ held whole stdout nothing)
exit-flushed_example =
    exit-flushed whole whole-Complete 7 (λ f p. p) (λ f p o. o) two (8 ∷ []) 3 process
      two-Registered stdout-IsOpen
