-- ===== src/Heap/Break.antt =====
-- The program break, which the operations of src/stdlib.c on blocks leave as it is.
use freestanding_custom_c_li.Prelude.{
  arith, ℕ, ◌≡◌, refl, ◌∙◌, ◌==◌, if◌then◌else◌, Bool, true, false,
}
use freestanding_custom_c_li.Heap.{
  Arena, header_of, insert_into_list, remove_from_list, merge_previous, merge_next, split, detach,
  allocate,
}

-- Both branches of a test have the break.
pub p_brk_if :
    (t : Bool) (a b : Arena) (n : ℕ) → a.p_brk ≡ n → b.p_brk ≡ n → (if t then a else b).p_brk ≡ n
p_brk_if true a b n e f = e
p_brk_if false a b n e f = f

pub p_brk-insert_into_list : (a : Arena) (p h f : ℕ) → (insert_into_list a p h f).p_brk ≡ a.p_brk
unfolding insert_into_list
p_brk-insert_into_list a p h f = p_brk_if (p == 0) _ _ a.p_brk refl refl

pub p_brk-remove_from_list : (a : Arena) (h f : ℕ) → (remove_from_list a h f).p_brk ≡ a.p_brk
unfolding remove_from_list
p_brk-remove_from_list a h f = ground arith

pub p_brk-merge_previous : (a : Arena) (f : ℕ) → (merge_previous a f).p_brk ≡ a.p_brk
unfolding merge_previous
p_brk-merge_previous a f = p_brk-remove_from_list a (header_of a.mem f) f

pub p_brk-merge_next : (a : Arena) (h : ℕ) → (merge_next a h).p_brk ≡ a.p_brk
unfolding merge_next
p_brk-merge_next a h = p_brk-remove_from_list a h 0

p_brk-split : (a : Arena) (c n : ℕ) → (split a c n).p_brk ≡ a.p_brk
unfolding split
p_brk-split a c n = p_brk-insert_into_list _ c _ _

p_brk-detach : (a : Arena) (c : ℕ) → (detach a c).1.p_brk ≡ a.p_brk
unfolding detach
p_brk-detach a c = p_brk-remove_from_list a c _

pub p_brk-allocate : (a : Arena) (c n : ℕ) → (allocate a c n).1.p_brk ≡ a.p_brk
unfolding allocate
p_brk-allocate a c n = p_brk-detach _ c ∙ p_brk_if _ _ _ a.p_brk (p_brk-split a c n) refl
