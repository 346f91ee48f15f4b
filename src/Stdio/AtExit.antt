-- ===== src/Stdio/AtExit.antt =====
-- `flush_streams` and `__stdio_register_streams` of src/stdio.c, over the table of src/exit.c.
use freestanding_custom_c_li.Prelude.{
  ℕ, ◌≡◌, refl, ap, ◌∙◌, Bool, true, Option, some, List, [], ◌∷◌, ◌++◌, sym, Bool-cases, inl, inr,
  take, ◌==◌, if◌then◌else◌, ==_iff,
}
use freestanding_custom_c_li.Kernel.{Kernel}
use freestanding_custom_c_li.Exit.{Table, Callback, initial, atexit_push, exit}
use freestanding_custom_c_li.Exit.Laws.{
  Registered, initial-Registered, atexit_push-Registered, run_all, exit-lifo,
}
use freestanding_custom_c_li.Stdio.{File, fflush}
use freestanding_custom_c_li.Stdio.Buffered.{IsOpen, Complete, held, fflush-Appended}
use mathlib.Core.List.{append-nil}

-- `__stdio_register_streams`. `flush` is the address of `flush_streams`. The source drops the
-- result of `atexit_push`.
pub stdio_register_streams : (flush : Callback) → Table → Option (Bool × Table)
stdio_register_streams flush t = atexit_push t flush

-- On the table that a process starts with.
pub stdio_register_streams-Registered :
    (flush : Callback)
    → (t : Table) × (stdio_register_streams flush initial ≡ some (true, t))
      × Registered t (flush ∷ [])
unfolding stdio_register_streams
stdio_register_streams-Registered flush = atexit_push-Registered initial [] flush initial-Registered

module _ (k : Kernel) where
  open k use {World}

  -- What callbacks act on: `stdout` and the rest of the world.
  pub record Process : Type 0 where
    pub stdout : File
    pub world : World

  pub flush_streams : Process → Process
  flush_streams p =
      let (ok, out, w) = fflush k p.stdout p.world in record { stdout = out; world = w }

  -- A call through the table: `flush_streams`, or a callback of a client.
  abbrev pub run_callback :
      (flush : Callback) → (client : Callback → Process → Process) → Callback → Process → Process
  run_callback flush client f p = if f == flush then flush_streams p else client f p

  module _ (complete : Complete k) (flush : Callback) (client : Callback → Process → Process)
      (keeps : (f : Callback) (p : Process) → IsOpen p.stdout → IsOpen (client f p).stdout) where
    run_callback-IsOpen :
        (f : Callback) (p : Process)
        → IsOpen p.stdout
        → IsOpen (run_callback flush client f p).stdout
    run_callback-IsOpen f p o = elim (Bool-cases (f == flush)) [
      | inl e ↦
          rw e (unfold flush_streams in (fflush-Appended k complete p.stdout p.world o).0.opened)
      | inr e ↦ rw e (keeps f p o)
    ]

    run_all-IsOpen :
        (fs : List Callback) (p : Process)
        → IsOpen p.stdout
        → IsOpen (run_all (run_callback flush client) fs p).stdout
    run_all-IsOpen [] p o = o
    run_all-IsOpen (f ∷ fs) p o =
        run_callback-IsOpen f (run_all (run_callback flush client) fs p) (run_all-IsOpen fs p o)

    -- `exit` with a table that holds `flush_streams` in front of the callbacks `fs`, over a kernel
    -- without short writes, where the other callbacks keep an open `stdout` open, and it is open
    -- at the call: the callbacks `fs` are called, the last first, and then `stdout` is flushed, so
    -- that its buffer is empty, and if that flush succeeds, all that the stream held behind those
    -- callbacks has been sent. The process ends with the given code.
    pub exit-flushed :
        (t : Table) (fs : List Callback) (exit_code : ℕ) (p : Process)
        → Registered t (flush ∷ fs)
        → IsOpen p.stdout
        → let q = run_all (run_callback flush client) fs p in
          let (ok, out, w) = fflush k q.stdout q.world in
          (exit (run_callback flush client) t exit_code p
            ≡ some (exit_code, record { stdout = out; world = w }))
          × (out.buffer_index ≡ 0)
          × (ok ≡ true → k.sent out.fd w ≡ held k q.stdout q.world)
    unfolding flush_streams
    exit-flushed t fs exit_code p r o =
        let q = run_all (run_callback flush client) fs p in
        let (a, empty) = fflush-Appended k complete q.stdout q.world (run_all-IsOpen fs p o) in
        (
          exit-lifo (run_callback flush client) t (flush ∷ fs) exit_code p r
              ∙ rw ((==_iff flush flush).1 refl) refl,
          empty,
          λ ok.
              let (done, out, w) = fflush k q.stdout q.world in
              sym (append-nil (k.sent out.fd w))
              ∙ ap (λ i. k.sent out.fd w ++ take i out.buffer) (sym empty)
              ∙ a.added ok
              ∙ append-nil (held k q.stdout q.world),
        )
