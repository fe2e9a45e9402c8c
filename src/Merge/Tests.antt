-- ===== src/Merge/Tests.antt =====
-- Runs of src/main/paisa/LogMerge.c, and its theorems at concrete inputs.
use unspecified_garbage.Common.{
  inl, inr, ◌≡◌, refl, arith, true, false, List, [], ◌∷◌, Option, some, if◌then◌else◌, Bytes,
  bytes_eq, codes, All,
}
use unspecified_garbage.Merge.Args.{Args, parse_args}
use unspecified_garbage.Merge.Source.{Source}
use unspecified_garbage.Merge.Program.{exit, main, find_oldest}
use unspecified_garbage.Merge.Together.{total}
use unspecified_garbage.Merge.Repeats.{repeated, length-repeated, repeated-IsDense}
use unspecified_garbage.Merge.Rounds.{Merged, main-Merged}
use unspecified_garbage.Merge.Oldest.{IsNotBelow, find_oldest-IsNotBelow}

abbrev one : Bytes
one = codes "2024-12-31T23:59:58 a\n2024-12-31T23:59:59 c\n"

abbrev two : Bytes
two = codes "2024-12-31T23:59:58 b\n and more\n"

abbrev fopen : Bytes → Option Bytes
fopen path = if bytes_eq path (codes "one") then some one else some two

abbrev args : List Bytes
args = codes "--" ∷ codes "one" ∷ codes "two" ∷ []

abbrev app : Args
app = record { is_help = false; is_dedupe = true; files = codes "one" ∷ codes "two" ∷ [] }

args-accepted : parse_args args ≡ some app
unfolding parse_args bytes_eq
args-accepted = refl

main-merged_text :
    main fopen 77 args
    ≡ exit 0
        (codes "2024-12-31T23:59:58 a\n2024-12-31T23:59:58 b\n and more\n2024-12-31T23:59:59 c\n")
unfolding main
main-merged_text = refl

-- The second file has 66000 bytes.
abbrev fopen_large : Bytes → Option Bytes
fopen_large path = if bytes_eq path (codes "one") then some one else some (repeated 3000)

total-large : total (one ∷ repeated 3000 ∷ []) ≡ 66044
unfolding total
total-large = omega (arith, length-repeated 3000)

main-Merged_example : Merged true (one ∷ repeated 3000 ∷ []) [] [] (main fopen_large 66045 args)
unfolding bytes_eq
main-Merged_example =
    main-Merged fopen_large 66045 args app (codes "one") (codes "two" ∷ [])
      (one ∷ repeated 3000 ∷ []) args-accepted refl refl (refl, (refl, tt))
      (inl (omega arith), (inr (repeated-IsDense 3000), tt)) (omega (arith, total-large))

-- One entry has been consumed, and the next one is cut off.
abbrev starved : Source
starved = record {
  is_eof = false;
  need_more = true;
  is_no_more_entries = false;
  inn_buf = codes "2024-12-31T23:59:58 abc\n2024-12-31";
  beg = 23;
  cap = 34;
  log_beg = 23;
  log_end = 23;
  unread = codes "T23:59:59 d\n";
}

abbrev later : Source
later = record starved { log_beg = 0; log_end = 23 }

abbrev sooner : Source
sooner = record later { inn_buf = codes "2023-12-31T23:59:58 abc\n" }

sooner-chosen : find_oldest (later ∷ sooner ∷ []) ≡ some (1, sooner)
unfolding find_oldest
sooner-chosen = refl

find_oldest-IsNotBelow_example : All (IsNotBelow sooner) (later ∷ sooner ∷ [])
find_oldest-IsNotBelow_example =
    find_oldest-IsNotBelow (later ∷ sooner ∷ []) 1 sooner
      ((λ _. omega arith), ((λ _. omega arith), tt)) sooner-chosen
