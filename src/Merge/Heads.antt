-- ===== src/Merge/Heads.antt =====
-- What the heads of texts, as src/main/paisa/LogMerge.c finds them, leave behind.
use unspecified_garbage.Common.{
  ◌==◌, ℕ, suc, ◌+◌, ◌-◌, ◌≤◌, ◌<◌, ◌≡◌, inl, inr, ◌∙◌, refl, sym, ap, arith, Bool, true, false,
  ◌&&◌, [], ◌∷◌, Option, none, some, Bytes, length, length-drop, take, drop, Bool-cases,
  Option-cases,
}
use unspecified_garbage.Merge.Pattern.{is_log_begin, find_log_begin}
use unspecified_garbage.Merge.Spec.{Head, head}

begin_long : (c : ℕ) (cs : Bytes) (b : Bool) → (b && is_log_begin (c ∷ cs)) ≡ true → 1 ≤ length cs
unfolding is_log_begin
begin_long c [] true e = absurd cc
begin_long c [] false e = absurd cc
begin_long c (d ∷ cs) b e = omega arith

some-injective {ℓ} : {A : Type ℓ} {a b : A} → some a ≡ some b → a ≡ b
some-injective e = cc

no_some : {o : Option ℕ} {n : ℕ} → o ≡ none → o ≡ some n → ⊥
no_some e f = absurd cc

pub find_log_begin-lt :
    (b : Bool) (text : Bytes) {n : ℕ} → find_log_begin b text ≡ some n → n + 2 ≤ length text
unfolding find_log_begin
find_log_begin-lt b [] e = absurd cc
find_log_begin-lt b (c ∷ cs) {n} e = elim (Bool-cases (b && is_log_begin (c ∷ cs))) [
  | inl t ↦ omega (
    arith,
    begin_long c cs b t,
    some-injective {A = ℕ} {a = 0} {b = n} (sym (rw (t, find_log_begin) refl) ∙ e),
  )
  | inr t ↦ elim (Option-cases (find_log_begin (c == b'\n') cs)) [
    | inl f ↦ absurd (no_some (rw (t, f, find_log_begin) refl) e)
    | inr (m, f) ↦ omega (
      arith,
      find_log_begin-lt (c == b'\n') cs f,
      some-injective {A = ℕ} {a = suc m} {b = n} (sym (rw (t, f, find_log_begin) refl) ∙ e),
    )
  ]
]

find_log_begin-positive : (text : Bytes) {m : ℕ} → find_log_begin false text ≡ some m → 1 ≤ m
unfolding find_log_begin
find_log_begin-positive [] e = absurd cc
find_log_begin-positive (c ∷ cs) {m} e = go (find_log_begin (c == b'\n') cs) e
  where
    go : (o : Option ℕ) → elim o [ none ↦ none | some n ↦ some (suc n) ] ≡ some m → 1 ≤ m
    go none q = absurd cc
    go (some n) q = omega (arith, some-injective {A = ℕ} {a = suc n} {b = m} q)

-- A head leaves less than there was.
pub head-shorter : (text : Bytes) {h : Head} → head text ≡ some h → length h.rest < length text
unfolding head
head-shorter text {h} e = go (find_log_begin true text) refl e
  where
    end :
        (n : ℕ)
        → n + 2 ≤ length text
        → (o : Option ℕ) → find_log_begin false (drop (suc n) text) ≡ o
        → elim o [
          | none ↦ some (record {
            entry = take (length text - 1 - n) (drop n text);
            rest = drop (length text - 1) text;
          })
          | some m ↦ some (record { entry = take m (drop n text); rest = drop (n + m) text })
        ]
          ≡ some h
        → length h.rest < length text
    end n l none f q = omega (
      arith,
      ap (λ (x : Head). length x.rest) (some-injective {A = Head} q),
      length-drop (length text - 1) text,
    )
    end n l (some m) f q = omega (
      arith,
      ap (λ (x : Head). length x.rest) (some-injective {A = Head} q),
      length-drop (n + m) text,
      find_log_begin-positive (drop (suc n) text) f,
    )

    go :
        (o : Option ℕ)
        → find_log_begin true text ≡ o
        → elim o [
          | none ↦ none
          | some n ↦ elim (find_log_begin false (drop (suc n) text)) [
            | none ↦ some (record {
              entry = take (length text - 1 - n) (drop n text);
              rest = drop (length text - 1) text;
            })
            | some m ↦ some (record { entry = take m (drop n text); rest = drop (n + m) text })
          ]
        ]
          ≡ some h
        → length h.rest < length text
    go none f q = absurd cc
    go (some n) f q =
        end n (find_log_begin-lt true text f) (find_log_begin false (drop (suc n) text)) refl q
