-- ===== src/Merge/Program.antt =====
-- src/main/paisa/LogMerge.c: the rounds over all sources, what is written, and main.
use unspecified_garbage.Common.{
  ℕ, zero, suc, ◌+◌, ◌-◌, ◌^◌, min, Bool, true, false, not, ◌&&◌, ◌||◌, List, [], ◌∷◌, ◌++◌, map,
  Option, none, some, ltb, ◌==◌, if◌then◌else◌, Bytes, bytes_eq, up_to_nul, length, take, drop,
}
use unspecified_garbage.Merge.Args.{parse_args}
use unspecified_garbage.Merge.Source.{
  Source, done, too_long, aborted, out_of_fuel, refill, mark_log_entry,
}

-- `lastWrittenMsg` up to its length, and what stdout has got.
pub record App : Type 0 where
  pub is_dedupe : Bool
  pub sources : List Source
  pub last_written_msg : Bytes
  pub out : Bytes

-- How the program ends: it returns a value; an assert fails, or a null pointer is used; it waits for ever, as the
-- count of the refills that run never gets to 0; or the fuel is used up.
pub data Exit : Type 0 where
  exit : ℕ → Bytes → Exit
  abort : Exit
  hang : Exit
  unfinished : Exit

-- The text from `logBeg` to `logEnd`.
abbrev pub entry_of : Source → Bytes
entry_of src = take (src.log_end - src.log_beg) (drop src.log_beg src.inn_buf)

-- `memcmp` over the length of the shorter text is below 0.
unfoldable pub is_below : Bytes → Bytes → Bool
is_below [] other = false
is_below (c ∷ cs) [] = false
is_below (c ∷ cs) (d ∷ ds) =
    let rest = is_below cs ds in if ltb c d then true else if c == d then rest else false

unfoldable pub first_head : ℕ → List Source → Option (ℕ × Source)
first_head i [] = none
first_head i (src ∷ srcs) =
    if src.is_no_more_entries then first_head (i + 1) srcs else some (i, src)

-- The second loop of `findOldestLogEntryFromAllHeads`, with the lowest so far.
unfoldable pub lowest_from : ℕ → List Source → ℕ × Source → ℕ × Source
unfolding is_below
lowest_from i [] lowest = lowest
lowest_from i (src ∷ srcs) lowest =
    if not src.is_no_more_entries && is_below (entry_of src) (entry_of lowest.1)
    then lowest_from (i + 1) srcs (i, src)
    else lowest_from (i + 1) srcs lowest

unfoldable pub find_oldest : List Source → Option (ℕ × Source)
unfolding first_head lowest_from
find_oldest srcs = elim (first_head 0 srcs) [
  | none ↦ none
  | some lowest ↦ some (lowest_from 1 (drop 1 srcs) lowest)
]

unfoldable pub set_source : List Source → ℕ → Source → List Source
set_source [] i src = []
set_source (x ∷ xs) zero src = src ∷ xs
set_source (x ∷ xs) (suc i) src = x ∷ set_source xs i src

-- An entry that starts like the last one, or the other way round, is left out.
unfoldable pub is_duplicate : App → Bytes → Bool
unfolding bytes_eq
is_duplicate app entry =
    let n = min (length app.last_written_msg) (length entry) in
    app.is_dedupe && (ltb 0 n && bytes_eq (take n app.last_written_msg) (take n entry))

abbrev pub consumed : Source → Source
consumed src = record src { beg = src.log_end; log_beg = src.log_end }

-- Where the entry ends before it begins, the assert fails.
unfoldable pub write_lowest : App → ℕ → Source → Option App
unfolding is_duplicate set_source
write_lowest app i src =
    let srcs = set_source app.sources i (consumed src) in
    if ltb src.log_end src.log_beg
    then none
    else if is_duplicate app (entry_of src)
    then some (record app { sources = srcs })
    else some (record app {
      sources = srcs;
      last_written_msg = entry_of src;
      out = app.out ++ (up_to_nul (entry_of src) ++ (b'\n' ∷ []));
    })

-- All sources are done, or the program ends.
pub data Round : Type 0 where
  all : List Source → Round
  stop : Exit → Round

-- Each thread of the pool works on a source of its own, so the order does not matter. The fuel of two is for
-- the buffer that is grown once. A source with an entry that is too long is never reported as done.
unfoldable pub refill_all : List Source → Round
unfolding refill
refill_all [] = all []
refill_all (src ∷ srcs) =
    let rest = refill_all srcs in
    elim (refill 2 src) [
      | done s ↦ elim rest [ all ss ↦ all (s ∷ ss) | stop e ↦ stop e ]
      | too_long ↦ elim rest [ all ss ↦ stop hang | stop e ↦ stop e ]
      | aborted ↦ stop abort
      | out_of_fuel ↦ stop unfinished
    ]

abbrev pub any_needs_more : List Source → Bool
any_needs_more [] = false
any_needs_more (src ∷ srcs) = src.need_more || any_needs_more srcs

-- From one `refillSrcBuffers` to the next.
unfoldable pub rounds : ℕ → App → Exit
unfolding refill_all mark_log_entry find_oldest write_lowest
rounds zero app = unfinished
rounds (suc fuel) app = elim (refill_all app.sources) [
  | stop e ↦ e
  | all srcs ↦
      let marked = record app { sources = map mark_log_entry srcs } in
      let again = rounds fuel marked in
      if any_needs_more marked.sources then again else elim (find_oldest marked.sources) [
        | none ↦ exit 0 marked.out
        | some lowest ↦ elim (write_lowest marked lowest.0 lowest.1) [
          | none ↦ abort
          | some app' ↦ rounds fuel app'
        ]
      ]
]

abbrev pub opened : Bytes → Source
opened content = record {
  is_eof = false;
  need_more = false;
  is_no_more_entries = false;
  inn_buf = [];
  beg = 0;
  cap = 2 ^ 16;
  log_beg = 0;
  log_end = 0;
  unread = content;
}

-- `openSrcFiles`, with what `fopen` gives, or stdin for "-".
unfoldable pub open_src_files : (Bytes → Option Bytes) → List Bytes → Option (List Source)
open_src_files fopen [] = some []
open_src_files fopen (path ∷ paths) =
    let rest = open_src_files fopen paths in
    elim (fopen path) [
      | none ↦ none
      | some content ↦ elim rest [ none ↦ none | some srcs ↦ some (opened content ∷ srcs) ]
    ]

-- Without a file there is no thread pool, which main uses nevertheless. The exit code is set to -1 before
-- help is looked for.
unfoldable pub main : (Bytes → Option Bytes) → ℕ → List Bytes → Exit
unfolding parse_args open_src_files rounds
main fopen fuel args = elim (parse_args args) [
  | none ↦ exit 1 []
  | some app ↦ if app.is_help then exit 1 [] else elim app.files [
    | [] ↦ abort
    | path ∷ paths ↦ elim (open_src_files fopen (path ∷ paths)) [
      | none ↦ exit 1 []
      | some srcs ↦
          rounds fuel
            (record { is_dedupe = app.is_dedupe; sources = srcs; last_written_msg = []; out = [] })
    ]
  ]
]
