-- ===== src/Houston/Lines.antt =====
-- src/main/paisa/HoustonLogGet.c: the name that is found, against a reading of the list by its lines.
use unspecified_garbage.Common.{
  is_prefix, prefix_split, ◌≤◌, ◌<◌, ◌≡◌, ◌≢◌, inl, inr, refl, sym, ap, arith, Bool, true, false,
  List, [], ◌∷◌, ◌++◌, Option, none, ltb, ◌==◌, ==_ne, if◌then◌else◌, Bytes, codes, length,
  length-append, All, Bool-cases,
}
use unspecified_garbage.Houston.Pods.{up_to_blank, check_if_houston, seek_next_line, find_pod}

-- Each line with its end.
unfoldable pub unlines : List Bytes → Bytes
unlines [] = []
unlines (line ∷ lines) = line ++ (b'\n' ∷ unlines lines)

abbrev pub is_houston : Bytes → Bool
is_houston line = is_prefix (codes "houston-") line

-- The name in the first line that has one.
unfoldable pub first_pod : List Bytes → Option Bytes
first_pod [] = none
first_pod (line ∷ lines) = if is_houston line then up_to_blank line else first_pod lines

-- A line, which has a blank if it starts like the name of a houston pod.
pub record IsLine (line : Bytes) : Type 0 where
  pub no_end : All (λ c. c ≢ b'\n') line
  pub has_blank : is_houston line ≡ true → up_to_blank line ≢ none

seek_line :
    (line rest : Bytes)
    → All (λ c. c ≢ b'\n') line
    → seek_next_line (line ++ (b'\n' ∷ rest)) ≡ check_if_houston rest (seek_next_line rest)
unfolding seek_next_line
seek_line [] rest a = refl
seek_line (c ∷ cs) rest a = rw (==_ne c b'\n' a.0) (seek_line cs rest a.1)

-- What follows a line without blanks is not looked at for a prefix without line ends.
prefix_line :
    (p line rest : Bytes)
    → All (λ c. c ≢ b'\n') p
    → is_prefix p (line ++ (b'\n' ∷ rest)) ≡ is_prefix p line
unfolding is_prefix
prefix_line [] line rest a = refl
prefix_line (p ∷ ps) [] rest a = rw (==_ne p b'\n' a.0) refl
prefix_line (p ∷ ps) (c ∷ cs) rest a =
    ap (λ b. if p == c then b else false) (prefix_line ps cs rest a.1)

blank_line :
    (line rest : Bytes) → up_to_blank line ≢ none → up_to_blank (line ++ rest) ≡ up_to_blank line
unfolding up_to_blank
blank_line [] rest h = absurd (h refl)
blank_line (c ∷ cs) rest h = elim (Bool-cases (c == b' ')) [
  | inl e ↦ rw e refl
  | inr e ↦ rw (e, blank_line cs rest (λ n. h (rw (e, n) refl))) refl
]

no_end_houston : All (λ c. c ≢ b'\n') (codes "houston-")
no_end_houston = (
  λ e. absurd (omega arith),
  (
    λ e. absurd (omega arith),
    (
      λ e. absurd (omega arith),
      (
        λ e. absurd (omega arith),
        (
          λ e. absurd (omega arith),
          (λ e. absurd (omega arith), (λ e. absurd (omega arith), (λ e. absurd (omega arith), tt))),
        ),
      ),
    ),
  ),
)

-- The prefix alone has no blank.
houston_long : (line : Bytes) → IsLine line → is_houston line ≡ true → 9 ≤ length line
unfolding up_to_blank
houston_long line l h = go (prefix_split (codes "houston-") line h)
  where
    go : ((rest : Bytes) × (line ≡ codes "houston-" ++ rest)) → 9 ≤ length line
    go ([], e) = absurd (l.has_blank h (ap up_to_blank e))
    go (c ∷ cs, e) = omega (arith, ap length e)

short_list :
    (lines : List Bytes) → All IsLine lines → length (unlines lines) < 10 → first_pod lines ≡ none
unfolding unlines first_pod
short_list [] a h = refl
short_list (line ∷ lines) a h = elim (Bool-cases (is_houston line)) [
  | inl e ↦
      absurd (omega (arith, houston_long line a.0 e, length-append line (b'\n' ∷ unlines lines)))
  | inr e ↦ rw e (short_list lines a.1 (omega (arith, length-append line (b'\n' ∷ unlines lines))))
]

-- In a list of lines, of which those that start like the name of a houston pod have a blank, the name that is
-- found is that up to the blank of the first such line; none is found exactly where there is
-- no such line.
pub find_pod-unlines :
    (lines : List Bytes) → All IsLine lines → find_pod (unlines lines) ≡ first_pod lines
unfolding find_pod check_if_houston unlines first_pod seek_next_line
find_pod-unlines [] a = refl
find_pod-unlines (line ∷ lines) a = elim (Bool-cases (ltb (length (unlines (line ∷ lines))) 10)) [
  | inl s ↦ rw s (sym (short_list (line ∷ lines) a (ground arith)))
  | inr s ↦ elim (Bool-cases (is_houston line)) [
    | inl e ↦
        rw (s, prefix_line (codes "houston-") line (unlines lines) no_end_houston, e)
          (blank_line line (b'\n' ∷ unlines lines) (IsLine.has_blank a.0 e))
    | inr e ↦
        rw
          (
            s,
            prefix_line (codes "houston-") line (unlines lines) no_end_houston,
            e,
            seek_line line (unlines lines) (IsLine.no_end a.0),
          )
          (find_pod-unlines lines a.1)
  ]
]
