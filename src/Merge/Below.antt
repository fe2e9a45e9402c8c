-- ===== src/Merge/Below.antt =====
-- src/main/paisa/LogMerge.c: the order of entries that memcmp gives.
use unspecified_garbage.Common.{
  ℕ, zero, suc, ◌<◌, ◌≡◌, ◌⊎◌, inl, inr, ◌∙◌, refl, arith, true, false, [], ◌∷◌, Bytes, length,
  take, Bool-cases,
}
use unspecified_garbage.Merge.Program.{is_below}

-- No text is below itself, nor are two texts below each other.
pub is_below_asymmetric : (a b : Bytes) → is_below a b ≡ true → is_below b a ≡ false
unfolding is_below
is_below_asymmetric [] b e = absurd cc
is_below_asymmetric (c ∷ cs) [] e = absurd cc
is_below_asymmetric (c ∷ cs) (d ∷ ds) e = elim (Bool-cases (is_below cs ds)) [
  | inl t ↦ ground (arith, t, is_below_asymmetric cs ds t)
  | inr f ↦ ground (arith, f)
]

-- What is not below another text is not below it in its first bytes either.
pub is_below-take :
    (n : ℕ) (a b : Bytes) → is_below a b ≡ false → is_below (take n a) (take n b) ≡ false
unfolding is_below
is_below-take zero a b e = refl
is_below-take (suc n) [] b e = refl
is_below-take (suc n) (c ∷ cs) [] e = refl
is_below-take (suc n) (c ∷ cs) (d ∷ ds) e = elim (Bool-cases (is_below cs ds)) [
  | inl t ↦ ground (arith, t)
  | inr f ↦ ground (arith, f, is_below-take n cs ds f)
]

is_below-cons :
    (c d : ℕ) (cs ds : Bytes)
    → is_below (c ∷ cs) (d ∷ ds) ≡ false
    → (d < c) ⊎ ((c ≡ d) × (is_below cs ds ≡ false))
unfolding is_below
is_below-cons c d cs ds e = ground (arith, e)

is_below-cons_iff :
    (c d : ℕ) (cs ds : Bytes)
    → (d < c) ⊎ ((c ≡ d) × (is_below cs ds ≡ false))
    → is_below (c ∷ cs) (d ∷ ds) ≡ false
unfolding is_below
is_below-cons_iff c d cs ds (inl h) = ground arith
is_below-cons_iff c d cs ds (inr (h, f)) = ground (arith, f)

pub is_below_trans :
    (x y z : Bytes)
    → length x ≡ length y
    → length y ≡ length z
    → is_below x y ≡ false
    → is_below y z ≡ false
    → is_below x z ≡ false
unfolding is_below
is_below_trans [] y z l k p q = refl
is_below_trans (a ∷ xs) [] z l k p q = absurd (omega arith)
is_below_trans (a ∷ xs) (b ∷ bs) [] l k p q = absurd (omega arith)
is_below_trans (a ∷ xs) (b ∷ bs) (c ∷ cs) l k p q = elim (is_below-cons a b xs bs p) [
  | inl h ↦ elim (is_below-cons b c bs cs q) [
    | inl i ↦ is_below-cons_iff a c xs cs (inl (omega arith))
    | inr (i, _) ↦ is_below-cons_iff a c xs cs (inl (omega arith))
  ]
  | inr (h, f) ↦ elim (is_below-cons b c bs cs q) [
    | inl i ↦ is_below-cons_iff a c xs cs (inl (omega arith))
    | inr (i, g) ↦
        is_below-cons_iff a c xs cs
          (inr (h ∙ i, is_below_trans xs bs cs (omega arith) (omega arith) f g))
  ]
]

pub self_not_below : (a : Bytes) → is_below a a ≡ false
unfolding is_below
self_not_below [] = refl
self_not_below (c ∷ cs) = is_below-cons_iff c c cs cs (inr (refl, self_not_below cs))
