-- ===== src/Merge/Oldest.antt =====
-- src/main/paisa/LogMerge.c, `findOldestLogEntryFromAllHeads`: no entry at hand has an older time than the one that is chosen.
use unspecified_garbage.Common.{
  ℕ, ◌+◌, ◌≤◌, ◌≡◌, inl, inr, ◌∙◌, refl, sym, ap, arith, true, false, not, ◌&&◌, List, [], ◌∷◌,
  Option, none, some, if◌then◌else◌, Bytes, length, length-take, take, drop, All, Bool-cases,
}
use mathlib.Core.Path.{subst}
use unspecified_garbage.Merge.Source.{Source}
use unspecified_garbage.Merge.Program.{entry_of, is_below, first_head, lowest_from, find_oldest}
use unspecified_garbage.Merge.Below.{
  is_below_asymmetric, is_below-take, is_below_trans, self_not_below,
}

-- "2024-12-31T23:59:59"
abbrev pub stamp : Source → Bytes
stamp src = take 19 (entry_of src)

abbrev pub IsStamped : Source → Type 0
IsStamped src = 19 ≤ length (entry_of src)

abbrev pub IsRunning : Source → Type 0
IsRunning src = src.is_no_more_entries ≡ false

-- Unless it has ended, a source's time is not below that of the other.
abbrev pub IsNotBelow : Source → Source → Type 0
IsNotBelow low src = IsRunning src → is_below (stamp src) (stamp low) ≡ false

length-stamp : (src : Source) → IsStamped src → length (stamp src) ≡ 19
length-stamp src h = omega (arith, length-take 19 (entry_of src))

module _ (x y z : Source) (hx : IsStamped x) (hy : IsStamped y) (hz : IsStamped z) where
  stamp_trans :
      is_below (stamp x) (stamp y) ≡ false
      → is_below (stamp y) (stamp z) ≡ false
      → is_below (stamp x) (stamp z) ≡ false
  stamp_trans =
      is_below_trans (stamp x) (stamp y) (stamp z) (length-stamp x hx ∙ sym (length-stamp y hy))
        (length-stamp y hy ∙ sym (length-stamp z hz))

-- The lowest of the rest is not above the lowest so far.
record Lowest (low : Source) (srcs : List Source) (r : Source) : Type 0 where
  stamped : IsStamped r
  not_above : is_below (stamp low) (stamp r) ≡ false
  no_older : All (IsNotBelow r) srcs

below_test :
    (src low : Source)
    → (not src.is_no_more_entries && is_below (entry_of src) (entry_of low)) ≡ true
    → IsRunning src × (is_below (entry_of src) (entry_of low) ≡ true)
below_test src low e = elim (Bool-cases src.is_no_more_entries) [
  | inl t ↦ absurd (cc (e, t))
  | inr f ↦ (f, sym (ap (λ b. not b && is_below (entry_of src) (entry_of low)) f) ∙ e)
]

above_test :
    (src low : Source)
    → (not src.is_no_more_entries && is_below (entry_of src) (entry_of low)) ≡ false
    → IsRunning src
    → is_below (entry_of src) (entry_of low) ≡ false
above_test src low e f = sym (ap (λ b. not b && is_below (entry_of src) (entry_of low)) f) ∙ e

lowest_from-Lowest :
    (i : ℕ) (srcs : List Source) (low : ℕ × Source)
    → IsStamped low.1
    → All (λ src. IsRunning src → IsStamped src) srcs
    → Lowest low.1 srcs (lowest_from i srcs low).1
unfolding lowest_from
lowest_from-Lowest i [] low h a = record {
  stamped = h;
  not_above = self_not_below (stamp low.1);
  no_older = tt;
}
lowest_from-Lowest i (src ∷ srcs) low h a =
    elim (Bool-cases (not src.is_no_more_entries && is_below (entry_of src) (entry_of low.1))) [
      | inl t ↦
          let (r, b) = below_test src low.1 t in
          let v = lowest_from-Lowest (i + 1) srcs (i, src) (a.0 r) a.1 in
          let first =
            is_below-take 19 (entry_of low.1) (entry_of src)
              (is_below_asymmetric (entry_of src) (entry_of low.1) b) in
          rw t (record {
            stamped = v.stamped;
            not_above =
                stamp_trans low.1 src (lowest_from (i + 1) srcs (i, src)).1 h (a.0 r) v.stamped
                  first v.not_above;
            no_older = (λ _. v.not_above, v.no_older);
          })
      | inr f ↦
          let v = lowest_from-Lowest (i + 1) srcs low h a.1 in
          rw f (record {
            stamped = v.stamped;
            not_above = v.not_above;
            no_older = (
              λ r.
                  stamp_trans src low.1 (lowest_from (i + 1) srcs low).1 (a.0 r) h v.stamped
                    (is_below-take 19 (entry_of src) (entry_of low.1) (above_test src low.1 f r))
                    v.not_above,
              v.no_older,
            );
          })
    ]

ended-IsNotBelow : (src low : Source) → src.is_no_more_entries ≡ true → IsNotBelow low src
ended-IsNotBelow src low e r = absurd cc

some_pair : {a b : ℕ × Source} → some a ≡ some b → a ≡ b
some_pair e = cc

first_head-IsStamped :
    (i : ℕ) (srcs : List Source) {first : ℕ × Source}
    → All (λ src. IsRunning src → IsStamped src) srcs
    → first_head i srcs ≡ some first
    → IsStamped first.1
unfolding first_head
first_head-IsStamped i [] a e = absurd cc
first_head-IsStamped i (src ∷ srcs) {first} a e = elim (Bool-cases src.is_no_more_entries) [
  | inl t ↦
      first_head-IsStamped (i + 1) srcs a.1
        (sym (ap (λ b. if b then first_head (i + 1) srcs else some (i, src)) t) ∙ e)
  | inr f ↦
      subst (λ (p : ℕ × Source). IsStamped p.1)
        (some_pair {a = (i, src)}
          (sym (ap (λ b. if b then first_head (i + 1) srcs else some (i, src)) f) ∙ e))
        (a.0 f)
]

-- The sources in front of the first that has not ended have ended, and it is not above the others.
first_head-Lowest :
    (i j : ℕ) (srcs : List Source) {first : ℕ × Source}
    → All (λ src. IsRunning src → IsStamped src) srcs
    → first_head i srcs ≡ some first
    → All (IsNotBelow (lowest_from j (drop 1 srcs) first).1) srcs
unfolding first_head
first_head-Lowest i j [] a e = absurd cc
first_head-Lowest i j (src ∷ srcs) {first} a e = elim (Bool-cases src.is_no_more_entries) [
  | inl t ↦
      let s = sym (ap (λ b. if b then first_head (i + 1) srcs else some (i, src)) t) ∙ e in
      (
        ended-IsNotBelow src (lowest_from j srcs first).1 t,
        Lowest.no_older
            (lowest_from-Lowest j srcs first (first_head-IsStamped (i + 1) srcs a.1 s) a.1),
      )
  | inr f ↦
      let s =
        some_pair {a = (i, src)}
          (sym (ap (λ b. if b then first_head (i + 1) srcs else some (i, src)) f) ∙ e) in
      let v = lowest_from-Lowest j srcs (i, src) (a.0 f) a.1 in
      subst (λ p. All (IsNotBelow (lowest_from j srcs p).1) (src ∷ srcs)) s
        ((λ _. v.not_above), v.no_older)
]

-- Where the entries of the sources that have not ended have at least 19 bytes, as a time in the
-- pattern has, no such source has an entry whose first 19 bytes are below those of the entry that is chosen.
pub find_oldest-IsNotBelow :
    (srcs : List Source) (i : ℕ) (src : Source)
    → All (λ s. IsRunning s → IsStamped s) srcs
    → find_oldest srcs ≡ some (i, src)
    → All (IsNotBelow src) srcs
unfolding find_oldest
find_oldest-IsNotBelow srcs i src a e = go (first_head 0 srcs) refl e
  where
    go :
        (o : Option (ℕ × Source))
        → first_head 0 srcs ≡ o
        → elim o [ none ↦ none | some first ↦ some (lowest_from 1 (drop 1 srcs) first) ]
          ≡ some (i, src)
        → All (IsNotBelow src) srcs
    go none f q = absurd cc
    go (some first) f q =
        subst (λ (p : ℕ × Source). All (IsNotBelow p.1) srcs) (some_pair q)
          (first_head-Lowest 0 1 srcs a f)
