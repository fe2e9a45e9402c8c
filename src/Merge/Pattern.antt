-- ===== src/Merge/Pattern.antt =====
-- src/main/paisa/LogMerge.c: the pattern that an entry begins with, and the search for it.
use unspecified_garbage.Common.{
  ℕ, suc, Bool, true, false, not, ◌&&◌, ◌||◌, List, [], ◌∷◌, Option, none, some, leb, ◌==◌,
  if◌then◌else◌, Bytes, up_to_nul,
}

abbrev pub is_digit : ℕ → Bool
is_digit c = leb b'0' c && leb c b'9'

-- One bracket expression or character of the pattern.
pub data Class : Type 0 where
  char : ℕ → Class
  digit separator no_digit : Class

abbrev pub is_in : Class → ℕ → Bool
is_in (char d) c = c == d
is_in digit c = is_digit c
is_in separator c = c == b'T' || (c == b'_' || c == b' ')
is_in no_digit c = not (is_digit c)

-- A match at the start of a text.
abbrev pub starts_with : List Class → Bytes → Bool
starts_with [] bytes = true
starts_with (k ∷ ks) [] = false
starts_with (k ∷ ks) (c ∷ cs) = if is_in k c then starts_with ks cs else false

-- "^20[0-9][0-9]-[0-9][0-9]-[0-9][0-9][T_ ][0-9][0-9]:[0-9][0-9]:[0-9][0-9][^0123456789]"
abbrev pub patrn_log_begin : List Class
patrn_log_begin =
    char b'2'
    ∷ char b'0'
    ∷ digit
    ∷ digit
    ∷ char b'-'
    ∷ digit
    ∷ digit
    ∷ char b'-'
    ∷ digit
    ∷ digit
    ∷ separator
    ∷ digit
    ∷ digit
    ∷ char b':'
    ∷ digit
    ∷ digit
    ∷ char b':'
    ∷ digit
    ∷ digit
    ∷ no_digit
    ∷ []

-- `BUF[END-1] = '\0'`
unfoldable pub without_last : Bytes → Bytes
without_last [] = []
without_last (c ∷ []) = []
without_last (c ∷ d ∷ cs) = c ∷ without_last (d ∷ cs)

-- The tests at a place in the buffer, on the bytes from there to `END`. Where only one byte is left, the
-- pattern gets an empty text, whatever stands behind it.
unfoldable pub is_log_begin : Bytes → Bool
unfolding without_last up_to_nul
is_log_begin [] = false
is_log_begin (c ∷ []) = false
is_log_begin (c ∷ d ∷ cs) =
    if c == b'2' && d == b'0'
    then starts_with patrn_log_begin (up_to_nul (without_last (c ∷ d ∷ cs)))
    else false

-- The first place where an entry begins. The flag tells whether the text starts a line.
unfoldable pub find_log_begin : Bool → Bytes → Option ℕ
unfolding is_log_begin
find_log_begin at_line [] = none
find_log_begin at_line (c ∷ cs) =
    let rest = find_log_begin (c == b'\n') cs in
    if at_line && is_log_begin (c ∷ cs)
    then some 0
    else elim rest [ none ↦ none | some n ↦ some (suc n) ]
