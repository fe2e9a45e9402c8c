-- ===== src/Merge/Lowest.antt =====
-- src/main/paisa/LogMerge.c, `findOldestLogEntryFromAllHeads`: its choice is that of the heads alone.
use unspecified_garbage.Common.{
  ◌++◌, ℕ, suc, ◌+◌, ◌≡◌, ◌⊎◌, inl, inr, ◌∙◌, refl, sym, ap, arith, true, false, not, ◌&&◌, List,
  [], ◌∷◌, map, Option, none, some, if◌then◌else◌, get_elem?, drop, Bool-cases,
}
use mathlib.Core.Path.{subst}
use unspecified_garbage.Merge.Source.{Source}
use unspecified_garbage.Merge.Program.{entry_of, is_below, first_head, lowest_from, find_oldest}
use unspecified_garbage.Merge.Spec.{Head, first_some, lowest_head, oldest}
use unspecified_garbage.Merge.Small.{head_of}

abbrev pub found_head : Source → Head
found_head src = record { entry = entry_of src; rest = drop src.log_end src.inn_buf ++ src.unread }

abbrev at_head : ℕ × Source → ℕ × Head
at_head low = (low.0, found_head low.1)

abbrev pub maybe_head : Option (ℕ × Source) → Option (ℕ × Head)
maybe_head none = none
maybe_head (some low) = some (at_head low)

first_head-first_some :
    (i : ℕ) (srcs : List Source) → maybe_head (first_head i srcs) ≡ first_some i (map head_of srcs)
unfolding first_head first_some
first_head-first_some i [] = refl
first_head-first_some i (src ∷ srcs) = elim (Bool-cases src.is_no_more_entries) [
  | inl e ↦ rw e (first_head-first_some (i + 1) srcs)
  | inr e ↦ rw e refl
]

lowest_from-lowest_head :
    (i : ℕ) (srcs : List Source) (low : ℕ × Source)
    → at_head (lowest_from i srcs low) ≡ lowest_head i (map head_of srcs) (at_head low)
unfolding lowest_from lowest_head
lowest_from-lowest_head i [] low = refl
lowest_from-lowest_head i (src ∷ srcs) low = elim (Bool-cases src.is_no_more_entries) [
  | inl e ↦ rw e (lowest_from-lowest_head (i + 1) srcs low)
  | inr e ↦ elim (Bool-cases (is_below (entry_of src) (entry_of low.1))) [
    | inl f ↦ simp (e, f) (lowest_from-lowest_head (i + 1) srcs (i, src))
    | inr f ↦ rw (e, f) (lowest_from-lowest_head (i + 1) srcs low)
  ]
]

map-drop : (srcs : List Source) → map head_of (drop 1 srcs) ≡ drop 1 (map head_of srcs)
map-drop [] = refl
map-drop (x ∷ xs) = refl

pub find_oldest-oldest :
    (srcs : List Source) → maybe_head (find_oldest srcs) ≡ oldest (map head_of srcs)
unfolding find_oldest oldest
find_oldest-oldest srcs = go (first_head 0 srcs) (first_head-first_some 0 srcs)
  where
    go :
        (o : Option (ℕ × Source))
        → maybe_head o ≡ first_some 0 (map head_of srcs)
        → maybe_head (elim o [ none ↦ none | some low ↦ some (lowest_from 1 (drop 1 srcs) low) ])
          ≡ elim (first_some 0 (map head_of srcs)) [
            | none ↦ none
            | some low ↦ some (lowest_head 1 (drop 1 (map head_of srcs)) low)
          ]
    go none e = rw⁻¹ e refl
    go (some low) e = rw⁻¹ e (
        ap some (
          lowest_from-lowest_head 1 (drop 1 srcs) low
          ∙ ap (λ hs. lowest_head 1 hs (at_head low)) (map-drop srcs)))

-- A source that has not ended, at a place of the list that starts at place `i`.
pub record At (i : ℕ) (srcs : List Source) (low : ℕ × Source) : Type 0 where
  pub place : ℕ
  pub place_eq : low.0 ≡ i + place
  pub get : get_elem? srcs place ≡ some low.1
  pub runs : (Source.is_no_more_entries low.1) ≡ false

At-later :
    {i : ℕ} {srcs : List Source} {low : ℕ × Source} (src : Source)
    → At (i + 1) srcs low
    → At i (src ∷ srcs) low
At-later src a = record {
  place = suc a.place;
  place_eq = omega (arith, a.place_eq);
  get = a.get;
  runs = a.runs;
}

first_head-At :
    (i : ℕ) (srcs : List Source) {low : ℕ × Source} → first_head i srcs ≡ some low → At i srcs low
unfolding first_head
first_head-At i [] e = absurd cc
first_head-At i (src ∷ srcs) {low} e = elim (Bool-cases src.is_no_more_entries) [
  | inl t ↦ At-later src (
      first_head-At (i + 1) srcs
        (sym (ap (λ b. if b then first_head (i + 1) srcs else some (i, src)) t) ∙ e))
  | inr f ↦
      subst (At i (src ∷ srcs))
        (some_eq (sym (ap (λ b. if b then first_head (i + 1) srcs else some (i, src)) f) ∙ e))
        (record { place = 0; place_eq = omega arith; get = refl; runs = f })
]
  where
    some_eq : {a : ℕ × Source} → some a ≡ some low → a ≡ low
    some_eq q = cc

lowest_from-At :
    (i : ℕ) (srcs : List Source) (low : ℕ × Source)
    → (lowest_from i srcs low ≡ low) ⊎ At i srcs (lowest_from i srcs low)
unfolding lowest_from
lowest_from-At i [] low = inl refl
lowest_from-At i (src ∷ srcs) low =
    elim (Bool-cases (not src.is_no_more_entries && is_below (entry_of src) (entry_of low.1))) [
      | inl t ↦ rw t (elim (lowest_from-At (i + 1) srcs (i, src)) [
        | inl e ↦ inr (
            subst (At i (src ∷ srcs)) (sym e)
              (record { place = 0; place_eq = omega arith; get = refl; runs = runs src t }))
        | inr a ↦ inr (At-later src a)
      ])
      | inr f ↦
          rw f (elim (lowest_from-At (i + 1) srcs low) [
            | inl e ↦ inl e
            | inr a ↦ inr (At-later src a)
          ])
    ]
  where
    runs :
        (s : Source)
        → (not s.is_no_more_entries && is_below (entry_of s) (entry_of low.1)) ≡ true
        → s.is_no_more_entries ≡ false
    runs s e = elim (Bool-cases s.is_no_more_entries) [ inl t ↦ absurd (cc (t, e)) | inr f ↦ f ]

-- The source that is found is at its place, and has not ended.
pub find_oldest-At :
    (srcs : List Source) {low : ℕ × Source} → find_oldest srcs ≡ some low → At 0 srcs low
unfolding find_oldest
find_oldest-At [] e = absurd cc
find_oldest-At (src ∷ srcs) {low} e = go (first_head 0 (src ∷ srcs)) refl e
  where
    some_eq : {a : ℕ × Source} → some a ≡ some low → a ≡ low
    some_eq q = cc

    go :
        (o : Option (ℕ × Source))
        → first_head 0 (src ∷ srcs) ≡ o
        → elim o [ none ↦ none | some first ↦ some (lowest_from 1 (drop 1 (src ∷ srcs)) first) ]
          ≡ some low
        → At 0 (src ∷ srcs) low
    go none f q = absurd cc
    go (some first) f q =
        subst (At 0 (src ∷ srcs)) (some_eq q) (elim (lowest_from-At 1 srcs first) [
          | inl r ↦ subst (At 0 (src ∷ srcs)) (sym r) (first_head-At 0 (src ∷ srcs) f)
          | inr a ↦ At-later src a
        ])
