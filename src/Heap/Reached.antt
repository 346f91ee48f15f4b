-- ===== src/Heap/Reached.antt =====
-- The heap of src/stdlib.c under any sequence of calls of `malloc` and `free`.
use freestanding_custom_c_li.Prelude.{
  ℕ, inl, inr, ◌⊎◌, length, suc, ◌+◌, ◌-◌, ◌%◌, ◌^◌, ◌≤◌, ◌<◌, ◌≡◌, refl, sym, ap, ◌∙◌, List, [],
  ◌∷◌, ◌++◌, arith, Option, some,
}
use freestanding_custom_c_li.Heap.{Arena, Pages, size, align16, align_page, heap_init, malloc, free}
use freestanding_custom_c_li.Heap.Blocks.{Block, Separate}
use freestanding_custom_c_li.Heap.Arrange.{Arranges, Arranges-Separate, find}
use freestanding_custom_c_li.Heap.Cells.{Cell, taken, vacant, useds, useds_append}
use freestanding_custom_c_li.Heap.Coalesce.{coalesce}
use freestanding_custom_c_li.Heap.Malloc.{wanted_break, malloc-refused}
use freestanding_custom_c_li.Heap.Sound.{Sound, taken_tags}
use freestanding_custom_c_li.Heap.Release.{free-Sound}
use freestanding_custom_c_li.Heap.Serve.{Allocation}
use freestanding_custom_c_li.Heap.Requests.{malloc-Allocation, malloc-served}
use freestanding_custom_c_li.Heap.Boot.{heap_init-Sound}
use freestanding_custom_c_li.Heap.Split.{first_fit}
use native.Mathlib.Decide.{dec_lt}
use mathlib.Core.List.Permᴰ
use mathlib.Core.Path.{subst}
use mathlib.Core.Option.{some-injective}
use freestanding_custom_c_li.Heap.Live.{
  useds-Separate, useds-coalesce, frees-length, Arranges-length, used_cell,
}

module _ (k : Pages) where
  open k use {World, brk}

  -- What the kernel answers when `malloc` asks it for a break: that break, or the one from before.
  abbrev Answers : Arena → (n : ℕ) → World → Type 0
  Answers a n w = let top = wanted_break k a n in ((brk top w).0 ≡ top) ⊎ ((brk top w).0 ≡ a.p_brk)

  -- The states that calls lead to, with the blocks that the program has been given and has not freed.
  -- `malloc` is called for at most 131056 bytes, with the break 256 KiB below the upper half of the
  -- addresses, and with fuel for a search; it returns a block, or NULL.
  pub data Reached (bottom : ℕ) : Arena → List Block → World → Type 0 where
    started :
        (a b : Arena) (start top : ℕ) (w w' w'' : World)
        → bottom ≡ align16 start
        → top ≡ align_page ((bottom + 1024) % 2 ^ 64)
        → start + 8192 < 2 ^ 63
        → brk 0 w ≡ (start, w')
        → brk top w' ≡ (top, w'')
        → heap_init k a w ≡ (some b, w'')
        → Reached bottom b [] w''
    allocated :
        (a b : Arena) (live : List Block) (block : Block) (n rounds fuel : ℕ) (w v : World)
        → Reached bottom a live w
        → n + 15 < 2 ^ 17
        → a.p_brk + 2 ^ 18 < 2 ^ 63
        → a.p_brk ≤ fuel
        → Answers a n w
        → malloc k (suc (suc rounds)) fuel a n w ≡ some (block.at + 16, b, v)
        → size b.mem block.at ≡ block.bytes
        → Reached bottom b (block ∷ live) v
    refused :
        (a b : Arena) (live : List Block) (n rounds fuel : ℕ) (w v : World)
        → Reached bottom a live w
        → n + 15 < 2 ^ 17
        → a.p_brk + 2 ^ 18 < 2 ^ 63
        → a.p_brk ≤ fuel
        → Answers a n w
        → malloc k (suc (suc rounds)) fuel a n w ≡ some (0, b, v)
        → Reached bottom b live v
    freed :
        (a b : Arena) (before behind : List Block) (block : Block) (w v : World)
        → Reached bottom a (before ++ (block ∷ behind)) w
        → free k a (block.at + 16) w ≡ (b, v)
        → Reached bottom b (before ++ behind) v

  -- The heap is in order, and its blocks in use are those that the program has.
  pub record Safe (bottom : ℕ) (a : Arena) (live : List Block) : Type 0 where
    pub dummy : ℕ
    pub cells : List Cell
    pub sound : Sound bottom dummy a cells
    pub have : Arranges live (useds cells)
    pub apart : Separate live

  safe :
      (bottom dummy : ℕ) (a : Arena) (cells : List Cell) (live : List Block)
      → Sound bottom dummy a cells
      → Arranges live (useds cells)
      → Safe bottom a live
  safe bottom dummy a cells live s have = record {
    dummy = dummy;
    cells = cells;
    sound = s;
    have = have;
    apart = Arranges-Separate have (useds-Separate (bottom + 16) dummy cells s.tiled.row);
  }

  freed-Safe :
      (bottom : ℕ) (a b : Arena) (xs ys : List Block) (c : Block) (w v : World)
      → Safe bottom a (xs ++ (c ∷ ys))
      → free k a (c.at + 16) w ≡ (b, v)
      → Safe bottom b (xs ++ ys)
  freed-Safe bottom a b xs ys c w v s e =
      let f = find c (Permᴰ.symm s.have) xs ys refl in
      let u = used_cell c s.cells f.before f.behind f.whole in
      let (r, run, sound) =
        free-Sound bottom s.dummy k a w u.front u.rest c
          (subst (λ l. Sound bottom s.dummy a l) u.parts s.sound) in
      let same : r ≡ b = ap (λ (z : Arena × World). z.0) (sym run ∙ e) in
      let now = coalesce (u.front ++ (vacant c ∷ u.rest)) in
      let kept : useds now ≡ f.before ++ f.behind =
        useds-coalesce (u.front ++ (vacant c ∷ u.rest))
        ∙ useds_append u.front (vacant c ∷ u.rest)
        ∙ sym (useds_append u.front u.rest)
        ∙ u.left in
      safe bottom s.dummy b now (xs ++ ys) (subst (λ z. Sound bottom s.dummy z now) same sound)
        (subst (λ l. Arranges (xs ++ ys) l) (sym kept) (Permᴰ.symm f.rest))

  -- The block that the program reads off the result is the one that has been allocated.
  Allocation-Safe :
      (bottom end n : ℕ) (old live : List Block) (back : List Cell) (b : Arena) (block : Block)
      (v u : World) (res : Option (ℕ × Arena × World))
      → Allocation k bottom end n old back u res
      → Arranges live old
      → res ≡ some (block.at + 16, b, v)
      → size b.mem block.at ≡ block.bytes
      → Safe bottom b (block ∷ live)
  Allocation-Safe bottom end n old live back b block v u res al have e sized =
      let result : (al.pointer, al.arena, u) ≡ (block.at + 16, b, v) =
        some-injective (al.pointer, al.arena, u) (block.at + 16, b, v) (sym al.ends ∙ e) in
      let arena : al.arena ≡ b = ap (λ (z : ℕ × Arena × World). z.1) result in
      let pointer : al.pointer ≡ block.at + 16 = ap (λ (z : ℕ × Arena × World). z.0) result in
      let place = al.at in
      let at : al.block.at ≡ block.at = omega (arith, place, pointer) in
      let tags =
        taken_tags bottom end al.arena al.sound.blocks al.front al.rest al.block al.sound.tiled in
      let bytes : al.block.bytes ≡ block.bytes =
        sym tags.0.0
        ∙ ap (λ (z : Arena). size z.mem al.block.at) arena
        ∙ ap (λ z. size b.mem z) at
        ∙ sized in
      let whole : al.block ≡ block =
        ap (λ z. record { at = z; bytes = al.block.bytes }) at
        ∙ ap (λ z. record { at = block.at; bytes = z }) bytes in
      let cells = al.front ++ (taken al.block ∷ al.rest) in
      let others : useds al.front ++ useds al.rest ≡ old =
        sym (useds_append al.front al.rest) ∙ al.others in
      let all : Arranges (al.block ∷ live) (useds cells) =
        subst (λ l. Arranges (al.block ∷ live) l)
          (sym (useds_append al.front (taken al.block ∷ al.rest)))
          (Permᴰ.trans (Permᴰ.cons refl (subst (λ l. Arranges live l) (sym others) have))
            (Permᴰ.symm (Permᴰ.middle al.block (useds al.front) (useds al.rest)))) in
      subst (λ z. Safe bottom z (block ∷ live)) arena
        (subst (λ z. Safe bottom al.arena (z ∷ live)) whole
          (safe bottom end al.arena cells (al.block ∷ live) al.sound all))

  -- `malloc` on a heap in order returns a block, or it returns NULL and leaves the heap.
  malloc-cases :
      (bottom : ℕ) (a : Arena) (live : List Block) (n rounds fuel : ℕ) (w : World)
      (s : Safe bottom a live)
      → n + 15 < 2 ^ 17
      → a.p_brk + 2 ^ 18 < 2 ^ 63
      → a.p_brk ≤ fuel
      → Answers a n w
      → let res = malloc k (suc (suc rounds)) fuel a n w in
        ((end : ℕ) × (back : List Cell) × (u : World) × Allocation k bottom end n
            (useds s.cells)
            back
            u
            res)
        ⊎ ((u : World) × (res ≡ some (0, a, u)))
  malloc-cases bottom a live n rounds fuel w s small low long answer =
      let top = wanted_break k a n in
      let after = (brk top w).1 in
      let count = frees-length (bottom + 16) s.dummy s.cells s.sound.tiled.row in
      let same_count = Arranges-length s.sound.tiled.all in
      let reaches = s.sound.reaches in
      let enough : suc (length s.sound.blocks) < fuel = omega (arith, count, same_count, reaches) in
      elim answer [
        | inl granted ↦
            let (end, back, u, kept, al) =
              malloc-Allocation k bottom s.dummy top rounds fuel n a s.cells w after s.sound enough
                small low refl (ap (λ p. (p, after)) granted) in
            inl (end, back, u, al)
        | inr as_before ↦ elim (dec_lt 0 (first_fit (align16 n) s.sound.blocks)) [
          | yes fits ↦ inl (
            s.dummy,
            s.cells,
            w,
            malloc-served k bottom s.dummy (suc rounds) fuel n a s.cells w s.sound (omega arith)
                small (omega arith),
          )
          | no none_fits ↦ inr (
            after,
            malloc-refused k (suc rounds) fuel a n s.sound.blocks w after s.sound.tiled.list
                (omega arith) small (omega arith) (ap (λ p. (p, after)) as_before),
          )
        ]
      ]

  pointer_of :
      (p q : ℕ) (a b : Arena) (u v : World)
      → ◌≡◌ {A = Option (ℕ × Arena × World)} (some (p, a, u)) (some (q, b, v))
      → p ≡ q
  pointer_of p q a b u v e =
      ap (λ (z : ℕ × Arena × World). z.0) (some-injective (p, a, u) (q, b, v) e)

  allocated-Safe :
      (bottom : ℕ) (a b : Arena) (live : List Block) (block : Block) (n rounds fuel : ℕ)
      (w v : World)
      → Safe bottom a live
      → n + 15 < 2 ^ 17
      → a.p_brk + 2 ^ 18 < 2 ^ 63
      → a.p_brk ≤ fuel
      → Answers a n w
      → malloc k (suc (suc rounds)) fuel a n w ≡ some (block.at + 16, b, v)
      → size b.mem block.at ≡ block.bytes
      → Safe bottom b (block ∷ live)
  allocated-Safe bottom a b live block n rounds fuel w v s small low long answer e sized =
      elim (malloc-cases bottom a live n rounds fuel w s small low long answer) [
        | inl (end, back, u, al) ↦
            Allocation-Safe bottom end n (useds s.cells) live back b block v u
              (malloc k (suc (suc rounds)) fuel a n w) al s.have e sized
        | inr (u, null) ↦
            absurd (omega (arith, pointer_of 0 (block.at + 16) a b u v (sym null ∙ e)))
      ]

  refused-Safe :
      (bottom : ℕ) (a b : Arena) (live : List Block) (n rounds fuel : ℕ) (w v : World)
      → Safe bottom a live
      → n + 15 < 2 ^ 17
      → a.p_brk + 2 ^ 18 < 2 ^ 63
      → a.p_brk ≤ fuel
      → Answers a n w
      → malloc k (suc (suc rounds)) fuel a n w ≡ some (0, b, v)
      → Safe bottom b live
  refused-Safe bottom a b live n rounds fuel w v s small low long answer e =
      elim (malloc-cases bottom a live n rounds fuel w s small low long answer) [
        | inl (end, back, u, al) ↦
            let place = al.at in
            absurd (omega (arith, place, pointer_of al.pointer 0 al.arena b u v (sym al.ends ∙ e)))
        | inr (u, null) ↦
            subst (λ z. Safe bottom z live)
              (ap (λ (z : ℕ × Arena × World). z.1)
                (some-injective (0, a, u) (0, b, v) (sym null ∙ e)))
              s
      ]

  -- Any state that `__heap_init`, with the break that it asks for granted and the first one more
  -- than 8 KiB below the upper half of the addresses, and any sequence of calls of `malloc` and
  -- `free` lead to, where each `malloc` is for 131056 bytes at most, with the break more than 256
  -- KiB below that half and fuel for its searches, and returns a block or NULL, the kernel answers
  -- its call of `brk` with the break that it asks for or with the break as it is, and `free` is
  -- called on blocks that the program still has: the heap is tiled by blocks with sound sizes,
  -- tags and free list and no two free neighbours, the blocks in use are exactly those that the
  -- program has been given and has not freed, with the sizes in their headers, and no two of them
  -- overlap.
  pub Reached-Safe :
      (bottom : ℕ) (a : Arena) (live : List Block) (w : World)
      → Reached bottom a live w
      → Safe bottom a live
  Reached-Safe bottom a live w (started a' _ start top w1 w2 _ low high small first second run) =
      let (r, e, s) = heap_init-Sound k a' start bottom top w1 w2 w low high small first second in
      let same : r ≡ a =
        some-injective _ _ (ap (λ (z : Option Arena × World). z.0) (sym e ∙ run)) in
      subst (λ z. Safe bottom z []) same (safe bottom (top - 16) r _ [] s Permᴰ.nil)
  Reached-Safe bottom a live w
        (allocated a' _ live' block n rounds fuel w' _ reached small low long answer run sized) =
      allocated-Safe bottom a' a live' block n rounds fuel w' w
        (Reached-Safe bottom a' live' w' reached) small low long answer run sized
  Reached-Safe bottom a live w
        (refused a' _ _ n rounds fuel w' _ reached small low long answer run) =
      refused-Safe bottom a' a live n rounds fuel w' w (Reached-Safe bottom a' live w' reached)
        small low long answer run
  Reached-Safe bottom a live w (freed a' _ before behind block w' _ reached run) =
      freed-Safe bottom a' a before behind block w' w
        (Reached-Safe bottom a' (before ++ (block ∷ behind)) w' reached) run
