-- ===== src/Disks/Loop.antt =====
-- src/main/c/paisa-fleet/FindFullDisks.c: the handlers of the event loop, and runs of it.
use unspecified_garbage.Common.{
  remove_at, up_to_nul, ℕ, zero, suc, ◌+◌, ◌-◌, ◌^◌, Bool, true, false, not, List, [], ◌∷◌, ◌++◌,
  Option, none, some, leb, ltb, ◌==◌, if◌then◌else◌, Bytes, length, get_elem?, drop, ℤ, pos, negsuc,
  Strtol,
}
use unspecified_garbage.Disks.State.{
  Output, stdout_buf_cap, held, below, Device, App, Task, feed, begin_next, examine, Parser, idle,
  writing, closing, closed, Loop,
}
use unspecified_garbage.Disks.Args.{parse_args}
use unspecified_garbage.Disks.Rows.{on_csv_row}
use unspecified_garbage.Disks.Visit.{visit_device}
use unspecified_garbage.Disks.Output.{failed, beyond, examine_device}

-- The loop goes on; an assert has failed; an int overflows, or memory outside of an array is used; or the event
-- cannot be in this state.
pub data Next : Type 0 where
  next : Loop → Next
  aborted : Next
  undefined : Next
  disabled : Next

-- The value at index `i`, if there is one, replaced.
unfoldable pub set_device : List Device → ℕ → Device → List Device
set_device [] i d = []
set_device (x ∷ xs) zero d = d ∷ xs
set_device (x ∷ xs) (suc i) d = x ∷ set_device xs i d

-- `numInProgress >= maxParallel`
unfoldable pub is_full : App → Bool
is_full app = elim app.max_parallel [ pos m ↦ leb m app.num_in_progress | negsuc m ↦ true ]

abbrev pub user_of : App → Bytes
user_of app = elim app.ssh_user [ none ↦ [] | some user ↦ user ]

-- The next device counts as triggered and in progress.
abbrev pub counted : App → App
counted app = record app { i_device = app.i_device + 1; num_in_progress = app.num_in_progress + 1 }

-- `newProcess` gives a child for an argument list, and is asked about it by `new_process`.
abbrev pub child_started : Loop → List Bytes → Loop
child_started s argv = record s {
  app = counted s.app;
  running = s.running ++ (s.app.i_device ∷ []);
  started = s.started ++ (argv ∷ []);
}

unfoldable pub command_for : App → Device → Option (List Bytes)
command_for app d =
    visit_device (user_of app) app.ssh_port (up_to_nul d.eddie_name) (up_to_nul d.hostname)

-- `feedNextChunkFromStdinToCsvParser`, where `fread` gives `n` bytes.
unfoldable pub feed_next_chunk : ℕ → Loop → Next
feed_next_chunk n s =
    if s.app.has_failed
    then next s
    else if n == 0
    then next (record s { parser = closing })
    else next (record s { parser = writing })

module _ (new_process : List Bytes → Bool) where
  -- The loop of `beginNextDevice`, over the devices from `iDevice` on.
  unfoldable pub begin_loop : List Device → Loop → Next
  unfolding is_full command_for
  begin_loop [] s = next s
  begin_loop (d ∷ ds) s = elim (is_full s.app) [
    | true ↦ next s
    | false ↦ elim (command_for s.app d) [
      | none ↦ aborted
      | some argv ↦ elim (new_process argv) [
        | true ↦ begin_loop ds (child_started s argv)
        | false ↦ aborted
      ]
    ]
  ]

  unfoldable pub begin_next_device : Loop → Next
  begin_next_device s = begin_loop (drop s.app.i_device s.app.devices) s

  -- Given is whether `fopen` gives a file, and what `fwrite` and `fread` return.
  unfoldable pub run_task : Bool → ℕ → ℕ → Task → Loop → Next
  unfolding begin_next_device feed_next_chunk examine_device
  run_task opened written n feed s = feed_next_chunk n s
  run_task opened written n begin_next s = begin_next_device s
  run_task opened written n (examine i) s = elim (get_elem? s.app.devices i) [
    | none ↦ disabled
    | some d ↦ elim (examine_device opened written d) [
      | failed ↦ aborted
      | beyond ↦ undefined
      | _ ↦ next s
    ]
  ]

-- `onCsvParserWriteDone`
unfoldable pub on_write_done : ℤ → Loop → Next
on_write_done (pos zero) s = aborted
on_write_done (pos (suc n)) s = next (record s { parser = idle; queue = s.queue ++ (feed ∷ []) })
on_write_done (negsuc n) s = aborted

-- `onCsvParserCloseSnkDone`
unfoldable pub on_close_done : Loop → Loop
on_close_done s = record s { parser = closed; queue = s.queue ++ (begin_next ∷ []) }

-- Not the end of the output: the sum of the two lengths is one of ints, and the octets are copied to where it says.
unfoldable pub more_output : ℕ → Device → Bytes → Loop → Output → Next
more_output i d buf s (below n) =
    if leb (stdout_buf_cap + n + 1) (length buf) then aborted else undefined
more_output i d buf s (held bytes) =
    if leb (2 ^ 31) (length bytes + length buf)
    then undefined
    else if leb stdout_buf_cap (length bytes + length buf)
    then aborted
    else next (record s {
      app = record s.app {
        devices = set_device s.app.devices i (record d { stdout = held (bytes ++ buf) });
      };
    })

-- `Child_onStdout`, on the device of the child.
unfoldable pub child_on_stdout : ℕ → Bytes → Loop → Next
unfolding more_output
child_on_stdout i buf s = elim (get_elem? s.app.devices i) [
  | none ↦ disabled
  | some d ↦ if length buf == 0 then next s else more_output i d buf s d.stdout
]

-- `Child_onJoined`, for the child at place `k` of those that run, which is that of device `i`.
unfoldable pub child_on_joined : ℕ → ℕ → Loop → Next
child_on_joined k i s =
    if ltb 0 s.app.num_in_progress
    then next (record s {
      app = record s.app { num_in_progress = s.app.num_in_progress - 1 };
      running = remove_at s.running k;
      queue = s.queue ++ (examine i ∷ begin_next ∷ []);
    })
    else aborted

-- What happens next: the next task of the queue runs (with whether `fopen` gives a file, and what `fwrite` and `fread`
-- return); the parser tells of a row (with what the memory for its device holds), of the end of a chunk with its
-- return value, or of the end; the child at a place of those that run writes, or ends.
pub data Event : Type 0 where
  task : Bool → ℕ → ℕ → Event
  row : Output → List Bytes → Event
  write_done : ℤ → Event
  close_done : Event
  stdout : ℕ → Bytes → Event
  joined : ℕ → Event

abbrev pub is_parsing : Parser → Bool
is_parsing writing = true
is_parsing closing = true
is_parsing _ = false

-- The event loop when `main` enters it: the parser's set-up feeds the first chunk.
abbrev pub entered : App → Loop
entered app = record { app = app; queue = feed ∷ []; parser = idle; running = []; started = [] }

-- How the process ends; `unknown` where an int overflows or memory outside of an array is used.
pub data Exit : Type 0 where
  code : ℕ → Exit
  abort : Exit
  unknown : Exit
  unfinished : Exit

-- The event loop returns once nothing is queued and no child runs.
abbrev pub is_quiet : Loop → Bool
is_quiet s = elim s.queue [
  | [] ↦ elim s.running [ [] ↦ not (is_parsing s.parser) | _ ↦ false ]
  | _ ↦ false
]

unfoldable pub exit_of : Next → Exit
exit_of (next s) = if is_quiet s then (if s.app.has_failed then code 1 else code 0) else unfinished
exit_of aborted = abort
exit_of undefined = unknown
exit_of disabled = unfinished

module _ (new_process : List Bytes → Bool) where
  unfoldable pub step : Event → Loop → Next
  unfolding run_task on_csv_row on_write_done on_close_done child_on_stdout child_on_joined
  step (task opened written n) s = elim s.queue [
    | [] ↦ disabled
    | t ∷ queue ↦ run_task new_process opened written n t (record s { queue = queue })
  ]
  step (row memory columns) s =
      if is_parsing s.parser
      then next (record s { app = on_csv_row memory s.app columns })
      else disabled
  step (write_done n) s = elim s.parser [ writing ↦ on_write_done n s | _ ↦ disabled ]
  step close_done s = elim s.parser [ closing ↦ next (on_close_done s) | _ ↦ disabled ]
  step (stdout k buf) s = elim (get_elem? s.running k) [
    | none ↦ disabled
    | some i ↦ child_on_stdout i buf s
  ]
  step (joined k) s = elim (get_elem? s.running k) [
    | none ↦ disabled
    | some i ↦ child_on_joined k i s
  ]

  unfoldable pub run : List Event → Loop → Next
  unfolding step
  run [] s = next s
  run (e ∷ es) s = elim (step e s) [ next s' ↦ run es s' | stopped ↦ stopped ]

  unfoldable pub main : (Bytes → Strtol) → List Event → List Bytes → Exit
  unfolding run exit_of parse_args
  main strtol events args = elim (parse_args strtol args) [
    | none ↦ code 1
    | some app ↦ if app.is_help then code 0 else exit_of (run events (entered app))
  ]
