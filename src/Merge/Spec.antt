-- ===== src/Merge/Spec.antt =====
-- What merging log files is, on their texts alone. Nothing here looks at the buffers of
-- src/main/paisa/LogMerge.c.
use unspecified_garbage.Common.{
  ℕ, zero, suc, ◌+◌, ◌-◌, ◌≡◌, Bool, true, false, ◌&&◌, min, List, [], ◌∷◌, ◌++◌, map, Option, none,
  some, ltb, if◌then◌else◌, Bytes, bytes_eq, up_to_nul, length, take, drop,
}
use unspecified_garbage.Merge.Pattern.{find_log_begin}
use unspecified_garbage.Merge.Program.{is_below}

-- An entry, and the text behind it.
pub record Head : Type 0 where
  pub entry : Bytes
  pub rest : Bytes

-- The first entry ends before the line end in front of the next one; the last entry ends before the last byte.
unfoldable pub head : Bytes → Option Head
head text = elim (find_log_begin true text) [
  | none ↦ none
  | some n ↦ elim (find_log_begin false (drop (suc n) text)) [
    | none ↦ some (record {
      entry = take (length text - 1 - n) (drop n text);
      rest = drop (length text - 1) text;
    })
    | some m ↦ some (record { entry = take m (drop n text); rest = drop (n + m) text })
  ]
]

-- The first of those heads that no other is below, as one goes from left to right.
unfoldable pub first_some : ℕ → List (Option Head) → Option (ℕ × Head)
first_some i [] = none
first_some i (none ∷ hs) = first_some (i + 1) hs
first_some i (some h ∷ hs) = some (i, h)

unfoldable pub lowest_head : ℕ → List (Option Head) → ℕ × Head → ℕ × Head
lowest_head i [] low = low
lowest_head i (none ∷ hs) low = lowest_head (i + 1) hs low
lowest_head i (some h ∷ hs) low =
    if is_below h.entry (Head.entry low.1)
    then lowest_head (i + 1) hs (i, h)
    else lowest_head (i + 1) hs low

unfoldable pub oldest : List (Option Head) → Option (ℕ × Head)
unfolding first_some lowest_head
oldest hs = elim (first_some 0 hs) [ none ↦ none | some low ↦ some (lowest_head 1 (drop 1 hs) low) ]

unfoldable pub set_text : List Bytes → ℕ → Bytes → List Bytes
set_text [] i t = []
set_text (x ∷ xs) zero t = t ∷ xs
set_text (x ∷ xs) (suc i) t = x ∷ set_text xs i t

-- One of two texts starts like the other, and neither is empty.
unfoldable pub is_similar : Bytes → Bytes → Bool
is_similar a b = let n = min (length a) (length b) in ltb 0 n && bytes_eq (take n a) (take n b)

-- What is written from the texts that are left, the last entry that was written and what has been written.
pub data Merges (is_dedupe : Bool) : List Bytes → Bytes → Bytes → Bytes → Type 0 where
  finished :
      (texts : List Bytes) (last out : Bytes)
      → oldest (map head texts) ≡ none
      → Merges is_dedupe texts last out out
  skipped :
      (texts : List Bytes) (last out final : Bytes) (i : ℕ) (h : Head)
      → oldest (map head texts) ≡ some (i, h)
      → (is_dedupe && is_similar last h.entry) ≡ true
      → Merges is_dedupe (set_text texts i h.rest) last out final
      → Merges is_dedupe texts last out final
  written :
      (texts : List Bytes) (last out final : Bytes) (i : ℕ) (h : Head)
      → oldest (map head texts) ≡ some (i, h)
      → (is_dedupe && is_similar last h.entry) ≡ false
      → Merges is_dedupe
          (set_text texts i h.rest)
          h.entry
          (out ++ (up_to_nul h.entry ++ (b'\n' ∷ [])))
          final
      → Merges is_dedupe texts last out final
