-- ===== src/Heap/Arrange.antt =====
-- The order of the free list of src/stdlib.c, which is not that of the addresses.
use freestanding_custom_c_li.Prelude.{ℕ, ◌≡◌, inl, inr, refl, sym, ap, ◌∙◌, List, [], ◌∷◌, ◌++◌}
use freestanding_custom_c_li.Heap.Blocks.{Block, Within, Inside, Separate}
use mathlib.Core.List.{Permᴰ, cons≢nil, head-eq_of_cons-eq, tail-eq_of_cons-eq}
use mathlib.Core.List.Permᴰ
use mathlib.Core.Path.{subst}

-- The blocks `bs` are the blocks `fs`, perhaps in another order.
abbrev pub Arranges : List Block → List Block → Type 0
Arranges bs fs = Permᴰ bs fs

pub Arranges-Inside : (a : ℕ) {bs fs : List Block} → Arranges bs fs → Inside a bs → Inside a fs
Arranges-Inside a Permᴰ.nil i = i
Arranges-Inside a (Permᴰ.cons e d) (inl w) = inl (subst (λ b. Within a b) e w)
Arranges-Inside a (Permᴰ.cons e d) (inr i) = inr (Arranges-Inside a d i)
Arranges-Inside a (Permᴰ.swap e f) (inl w) = inr (inl (subst (λ b. Within a b) e w))
Arranges-Inside a (Permᴰ.swap e f) (inr (inl w)) = inl (subst (λ b. Within a b) f w)
Arranges-Inside a (Permᴰ.swap e f) (inr (inr i)) = inr (inr i)
Arranges-Inside a (Permᴰ.trans d e) i = Arranges-Inside a e (Arranges-Inside a d i)

pub Arranges-Separate : {bs fs : List Block} → Arranges bs fs → Separate fs → Separate bs
Arranges-Separate Permᴰ.nil s = s
Arranges-Separate (Permᴰ.cons e d) (apart, s) =
    (λ a w i. apart a (subst (λ b. Within a b) e w) (Arranges-Inside a d i), Arranges-Separate d s)
Arranges-Separate (Permᴰ.swap e f) (apart, (apart', s)) = (
  λ a w i. elim i [
    | inl v ↦ apart a (subst (λ b. Within a b) f v) (inl (subst (λ b. Within a b) e w))
    | inr j ↦ apart' a (subst (λ b. Within a b) e w) j
  ],
  (λ a v j. apart a (subst (λ b. Within a b) f v) (inr j), s),
)
Arranges-Separate (Permᴰ.trans d e) s = Arranges-Separate d (Arranges-Separate e s)

-- The place of a block in an arrangement, and the arrangement of the others.
pub record Found (p : Block) (bs others : List Block) : Type 0 where
  pub before : List Block
  pub behind : List Block
  pub whole : bs ≡ before ++ (p ∷ behind)
  pub rest : Arranges (before ++ behind) others

pub find :
    (p : Block) {bs fs : List Block}
    → Arranges bs fs
    → (xs ys : List Block) → fs ≡ xs ++ (p ∷ ys)
    → Found p bs (xs ++ ys)
find p Permᴰ.nil [] ys e = absurd (cons≢nil (sym e))
find p Permᴰ.nil (x ∷ xs) ys e = absurd (cons≢nil (sym e))
find p (Permᴰ.cons {l₁ = l₁} ab d) [] ys e = record {
  before = [];
  behind = l₁;
  whole = ap (λ z. z ∷ l₁) (ab ∙ head-eq_of_cons-eq e);
  rest = subst (λ l. Arranges l₁ l) (tail-eq_of_cons-eq e) d;
}
find p (Permᴰ.cons {a = a} ab d) (x ∷ xs) ys e =
    let f = find p d xs ys (tail-eq_of_cons-eq e) in
    record {
      before = a ∷ f.before;
      behind = f.behind;
      whole = ap (λ l. a ∷ l) f.whole;
      rest = Permᴰ.cons (ab ∙ head-eq_of_cons-eq e) f.rest;
    }
find p (Permᴰ.swap {a = a} {l = l} ab' ba') [] ys e = record {
  before = a ∷ [];
  behind = l;
  whole = ap (λ z. a ∷ z ∷ l) (ba' ∙ head-eq_of_cons-eq e);
  rest = subst (λ k. Arranges (a ∷ l) k) (tail-eq_of_cons-eq e) (Permᴰ.cons ab' (Permᴰ.refl l));
}
find p (Permᴰ.swap {b = b} {l = l} ab' ba') (x ∷ []) ys e = record {
  before = [];
  behind = b ∷ l;
  whole = ap (λ z. z ∷ b ∷ l) (ab' ∙ head-eq_of_cons-eq (tail-eq_of_cons-eq e));
  rest =
      Permᴰ.cons (ba' ∙ head-eq_of_cons-eq e)
        (subst (λ k. Arranges l k) (tail-eq_of_cons-eq (tail-eq_of_cons-eq e)) (Permᴰ.refl l));
}
find p (Permᴰ.swap {a = a} {b = b} ab' ba') (x ∷ y ∷ xs) ys e = record {
  before = a ∷ b ∷ xs;
  behind = ys;
  whole = ap (λ k. a ∷ b ∷ k) (tail-eq_of_cons-eq (tail-eq_of_cons-eq e));
  rest = Permᴰ.swap (ab' ∙ head-eq_of_cons-eq (tail-eq_of_cons-eq e)) (ba' ∙ head-eq_of_cons-eq e);
}
find p (Permᴰ.trans d d') xs ys e =
    let f = find p d' xs ys e in
    let g = find p d f.before f.behind f.whole in
    record {
      before = g.before;
      behind = g.behind;
      whole = g.whole;
      rest = Permᴰ.trans g.rest f.rest;
    }

-- A block at the head of the list, and somewhere among the others, is taken off both.
pub Arranges-cancel : (b : Block) (bs fs : List Block) → Arranges (b ∷ bs) (b ∷ fs) → Arranges bs fs
Arranges-cancel b bs fs d = let f = find b d [] fs refl in go f.before f.behind f.whole f.rest
  where
    go : (us vs : List Block) → b ∷ bs ≡ us ++ (b ∷ vs) → Arranges (us ++ vs) fs → Arranges bs fs
    go [] vs e p = subst (λ l. Arranges l fs) (sym (tail-eq_of_cons-eq e)) p
    go (u ∷ us) vs e p =
        subst (λ l. Arranges l fs) (sym (tail-eq_of_cons-eq e))
          (Permᴰ.trans (Permᴰ.middle b us vs)
            (subst (λ z. Arranges (z ∷ (us ++ vs)) fs) (sym (head-eq_of_cons-eq e)) p))
