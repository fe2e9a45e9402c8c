-- ===== src/Merge/Prefix.antt =====
-- src/main/paisa/LogMerge.c: what the search finds in the first part of a text it finds in the whole text.
use unspecified_garbage.Common.{
  length-drop, ◌==◌, ℕ, suc, ◌+◌, ◌-◌, ◌≤◌, ◌≡◌, inl, inr, ◌∙◌, refl, sym, ap, arith, Bool, true,
  false, ◌&&◌, List, [], ◌∷◌, ◌++◌, Option, none, some, if◌then◌else◌, Bytes, up_to_nul, length,
  length-append, drop, drop-append_le, Bool-cases, Option-cases,
}
use unspecified_garbage.Merge.Pattern.{
  Class, starts_with, is_in, patrn_log_begin, without_last, is_log_begin, find_log_begin,
}

starts_with-length : (ks : List Class) (t : Bytes) → starts_with ks t ≡ true → length ks ≤ length t
starts_with-length [] t e = omega arith
starts_with-length (k ∷ ks) [] e = absurd cc
starts_with-length (k ∷ ks) (c ∷ cs) e = elim (Bool-cases (is_in k c)) [
  | inl i ↦ omega (arith, starts_with-length ks cs (rw i at e))
  | inr i ↦ absurd (false_true (sym (rw i refl) ∙ e))
]
  where
    false_true : false ≡ true → ⊥
    false_true q = absurd cc

-- A match reads no more than the length of the pattern.
starts_with-append :
    (ks : List Class) (t q : Bytes)
    → length ks ≤ length t
    → starts_with ks (up_to_nul (t ++ q)) ≡ starts_with ks (up_to_nul t)
unfolding up_to_nul
starts_with-append [] t q h = refl
starts_with-append (k ∷ ks) [] q h = absurd (omega arith)
starts_with-append (k ∷ ks) (c ∷ cs) q h = elim (Bool-cases (c == 0)) [
  | inl z ↦ rw z refl
  | inr z ↦
      rw z (
        ap (λ (b : Bool). if is_in k c then b else false)
          (starts_with-append ks cs q (omega arith)))
]

length-without_last : (t : Bytes) → length (without_last t) ≡ length t - 1
unfolding without_last
length-without_last [] = refl
length-without_last (c ∷ []) = refl
length-without_last (c ∷ d ∷ cs) = omega (arith, length-without_last (d ∷ cs))

-- More of a text leaves what is in front of its last byte as it is.
without_last-append :
    (c : ℕ) (cs q : Bytes)
    → (r : Bytes) × (without_last ((c ∷ cs) ++ q) ≡ without_last (c ∷ cs) ++ r)
unfolding without_last
without_last-append c [] q = (without_last (c ∷ q), refl)
without_last-append c (d ∷ cs) q = let (r, e) = without_last-append d cs q in (r, ap (◌∷◌ c) e)

length-up_to_nul : (t : Bytes) → length (up_to_nul t) ≤ length t
unfolding up_to_nul
length-up_to_nul [] = omega arith
length-up_to_nul (c ∷ cs) = ground (arith, length-up_to_nul cs)

pattern_length : length patrn_log_begin ≡ 20
pattern_length = refl

is_log_begin-long : (t : Bytes) → is_log_begin t ≡ true → 21 ≤ length t
unfolding is_log_begin
is_log_begin-long [] e = absurd cc
is_log_begin-long (c ∷ []) e = absurd cc
is_log_begin-long (c ∷ d ∷ cs) e = elim (Bool-cases (c == b'2' && d == b'0')) [
  | inl y ↦ omega (
    arith,
    starts_with-length patrn_log_begin (up_to_nul (without_last (c ∷ d ∷ cs))) (rw y at e),
    length-up_to_nul (without_last (c ∷ d ∷ cs)),
    length-without_last (c ∷ d ∷ cs),
  )
  | inr y ↦ absurd (false_true (sym (rw y refl) ∙ e))
]
  where
    false_true : false ≡ true → ⊥
    false_true q = absurd cc

is_log_begin-append : (t q : Bytes) → 21 ≤ length t → is_log_begin (t ++ q) ≡ is_log_begin t
unfolding is_log_begin
is_log_begin-append [] q h = absurd (omega arith)
is_log_begin-append (c ∷ []) q h = absurd (omega arith)
is_log_begin-append (c ∷ d ∷ cs) q h =
    let (r, e) = without_last-append c (d ∷ cs) q in
    ap (λ (b : Bool). if c == b'2' && d == b'0' then b else false)
      (ap (λ t. starts_with patrn_log_begin (up_to_nul t)) e
        ∙ starts_with-append patrn_log_begin (without_last (c ∷ d ∷ cs)) r
            (omega (arith, length-without_last (c ∷ d ∷ cs))))

and_right : (b c : Bool) → (b && c) ≡ true → c ≡ true
and_right true c e = e
and_right false c e = absurd cc

some-injective : {a b : ℕ} → some a ≡ some b → a ≡ b
some-injective e = cc

no_some : {o : Option ℕ} {n : ℕ} → o ≡ none → o ≡ some n → ⊥
no_some e f = absurd cc

-- The place of a beginning stands in front of the bytes that the pattern reads and one more.
pub find_log_begin-append :
    (b : Bool) (t q : Bytes) {n : ℕ}
    → find_log_begin b t ≡ some n
    → (find_log_begin b (t ++ q) ≡ some n) × (n + 21 ≤ length t)
unfolding find_log_begin
find_log_begin-append b [] q e = absurd cc
find_log_begin-append b (c ∷ cs) q {n} e = elim (Bool-cases (b && is_log_begin (c ∷ cs))) [
  | inl y ↦
      let l = is_log_begin-long (c ∷ cs) (and_right b (is_log_begin (c ∷ cs)) y) in
      let z : 0 ≡ n = some-injective {a = 0} {b = n} (sym (rw (y, find_log_begin) refl) ∙ e) in
      (rw (find_log_begin, same l ∙ y) (ap some z), omega (arith, l, z))
  | inr y ↦ elim (Option-cases (find_log_begin (c == b'\n') cs)) [
    | inl f ↦ absurd (no_some (rw (y, f, find_log_begin) refl) e)
    | inr (m, f) ↦
        let r = find_log_begin-append (c == b'\n') cs q f in
        let z : suc m ≡ n =
          some-injective {a = suc m} {b = n} (sym (rw (y, f, find_log_begin) refl) ∙ e) in
        (rw (find_log_begin, same (omega (arith, r.1)) ∙ y, r.0) (ap some z), omega (arith, r.1, z))
  ]
]
  where
    same : 21 ≤ length (c ∷ cs) → (b && is_log_begin ((c ∷ cs) ++ q)) ≡ (b && is_log_begin (c ∷ cs))
    same l = ap (λ (x : Bool). b && x) (is_log_begin-append (c ∷ cs) q l)

-- The beginnings of two entries, the first at the start of a line.
pub record Two (t : Bytes) : Type 0 where
  pub first : ℕ
  pub found : find_log_begin true t ≡ some first
  pub second : ℕ
  pub next : find_log_begin false (drop (suc first) t) ≡ some second
  pub inside : first + second + 22 ≤ length t

pub two_in :
    (t : Bytes) {n m : ℕ}
    → find_log_begin true t ≡ some n
    → find_log_begin false (drop (suc n) t) ≡ some m
    → n + m + 22 ≤ length t
two_in t {n} {m} e f = omega (
  arith,
  (find_log_begin-append true t [] e).1,
  (find_log_begin-append false (drop (suc n) t) [] f).1,
  length-drop (suc n) t,
)

-- They are found in every longer text.
pub find_log_begin-Two :
    (t q : Bytes) (w : Two t)
    → (find_log_begin true (t ++ q) ≡ some w.first)
      × (find_log_begin false (drop (suc w.first) (t ++ q)) ≡ some w.second)
find_log_begin-Two t q w = (
  (find_log_begin-append true t q w.found).0,
  ap (find_log_begin false) (drop-append_le (suc w.first) t q (omega (arith, w.inside)))
      ∙ (find_log_begin-append false (drop (suc w.first) t) q w.next).0,
)

pub Two-append : (t q : Bytes) → Two t → Two (t ++ q)
Two-append t q w = record {
  first = w.first;
  found = (find_log_begin-Two t q w).0;
  second = w.second;
  next = (find_log_begin-Two t q w).1;
  inside = omega (arith, w.inside, length-append t q);
}
