-- ===== src/Merge/Repeats.antt =====
-- src/main/paisa/LogMerge.c: a file of any size whose entries are short.
use unspecified_garbage.Common.{
  ℕ, zero, suc, ◌-◌, ◌*◌, ◌≤◌, ◌<◌, ◌≡◌, ◌∙◌, refl, sym, ap, arith, Bool, true, false, inl, inr, [],
  ◌++◌, append_assoc, none, some, Bytes, codes, length, length-append, length-drop, take, drop,
  drop-drop, drop-append, drop-append_le, take-append_ge, passes, test_below, Option-cases,
}
use mathlib.Core.Path.{subst}
use native.Mathlib.Decide.{dec_lt}
use unspecified_garbage.Merge.Pattern.{find_log_begin}
use unspecified_garbage.Merge.Prefix.{Two, two_in, Two-append}
use unspecified_garbage.Merge.Full.{half, IsDense}

abbrev pub line : Bytes
line = codes "2024-12-31T23:59:58 a\n"

pub repeated : ℕ → Bytes
repeated zero = []
repeated (suc n) = line ++ repeated n

pub length-repeated : (n : ℕ) → length (repeated n) ≡ n * 22
unfolding repeated
length-repeated zero = refl
length-repeated (suc n) = omega (arith, length-append line (repeated n), length-repeated n)

has_two : Bytes → Bool
has_two t = elim (find_log_begin true t) [
  | none ↦ false
  | some n ↦ elim (find_log_begin false (drop (suc n) t)) [ none ↦ false | some m ↦ true ]
]

has_two-Two : (t : Bytes) → has_two t ≡ true → Two t
unfolding has_two
has_two-Two t e = elim (Option-cases (find_log_begin true t)) [
  | inl f ↦ absurd (false_true (sym (rw (f, has_two) refl) ∙ e))
  | inr (n, f) ↦ elim (Option-cases (find_log_begin false (drop (suc n) t))) [
    | inl g ↦ absurd (false_true (sym (rw (f, g, has_two) refl) ∙ e))
    | inr (m, g) ↦ record { first = n; found = f; second = m; next = g; inside = two_in t f g }
  ]
]
  where
    false_true : false ≡ true → ⊥
    false_true q = absurd cc

-- The rest of a line, and three lines.
abbrev lines_from : ℕ → Bytes
lines_from j = drop j line ++ (line ++ (line ++ line))

lines_from-Two : (j : ℕ) → j < 22 → Two (lines_from j)
unfolding has_two passes find_log_begin
lines_from-Two j h =
    has_two-Two (lines_from j) (test_below (λ i. has_two (lines_from i)) 22 j refl h)

-- What is left behind any place starts with the rest of a line.
record Cut (t : Bytes) : Type 0 where
  place : ℕ
  inside : place < 22
  left : ℕ
  cut : t ≡ drop place line ++ repeated left
  long : 3 ≤ left

repeated-Cut : (n k : ℕ) → half ≤ length (drop k (repeated n)) → Cut (drop k (repeated n))
unfolding repeated
repeated-Cut zero k h = absurd (omega (arith, h, length-drop k (repeated zero)))
repeated-Cut (suc n) k h = elim (dec_lt k 22) [
  | yes l ↦ record {
    place = k;
    inside = l;
    left = n;
    cut = drop-append_le k line (repeated n) (omega arith);
    long = omega (
      arith,
      h,
      length-drop k (line ++ repeated n),
      length-append line (repeated n),
      length-repeated n,
    );
  }
  | no l ↦
      let e : drop k (line ++ repeated n) ≡ drop (k - 22) (repeated n) =
        sym (drop-drop 22 (k - 22) k (line ++ repeated n) (omega arith))
        ∙ ap (drop (k - 22)) (drop-append 22 line (repeated n) refl) in
      subst Cut (sym e) (repeated-Cut n (k - 22) (subst (λ (t : Bytes). half ≤ length t) e h))
]

repeated-three_lines : (n : ℕ) → 3 ≤ n → repeated n ≡ line ++ (line ++ (line ++ repeated (n - 3)))
unfolding repeated
repeated-three_lines zero h = absurd (omega arith)
repeated-three_lines (suc zero) h = absurd (omega arith)
repeated-three_lines (suc (suc zero)) h = absurd (omega arith)
repeated-three_lines (suc (suc (suc n))) h =
    let e : n ≡ suc (suc (suc n)) - 3 = omega arith in
    ap (λ m. line ++ (line ++ (line ++ repeated m))) e

pub repeated-IsDense : (n : ℕ) → IsDense (repeated n)
repeated-IsDense n k h =
    let c = repeated-Cut n k h in
    let rest = repeated (Cut.left c - 3) in
    let j = Cut.place c in
    let short : length (lines_from j) ≤ half =
      omega (arith, length-append (drop j line) (line ++ (line ++ line)), length-drop j line) in
    let e : drop k (repeated n) ≡ lines_from j ++ rest =
      c.cut
      ∙ ap (λ (t : Bytes). drop j line ++ t) (repeated-three_lines c.left c.long)
      ∙ sym (append_assoc (drop j line) (line ++ (line ++ line)) rest) in
    subst (λ t. Two (take half t)) (sym e)
      (subst Two (sym (take-append_ge half (lines_from j) rest short)) (
        Two-append (lines_from j) (take (half - length (lines_from j)) rest)
          (lines_from-Two j (Cut.inside c))))
