-- ===== src/Disks/State.antt =====
-- src/main/c/paisa-fleet/FindFullDisks.c: the state of the program and of the event loop around it.
use unspecified_garbage.Common.{ℕ, Bool, List, Option, Bytes, ℤ}

-- `sizeof stdoutBuf`
abbrev pub stdout_buf_cap : ℕ
stdout_buf_cap = 8192

-- `stdoutBuf` with `stdoutBuf_len`: what is in memory from `stdoutBuf` on up to that length, also where it reaches
-- beyond the array; or a length below 0, by one more than the given number.
pub data Output : Type 0 where
  held : Bytes → Output
  below : ℕ → Output

pub record Device : Type 0 where
  pub hostname : Bytes
  pub eddie_name : Bytes
  pub stdout : Output

-- `has_failed` tells whether `exitCode` is not 0. `devices` holds `devices_cnt` devices.
pub record App : Type 0 where
  pub is_help : Bool
  pub ssh_user : Option Bytes
  pub ssh_port : ℤ
  pub max_parallel : ℤ
  pub num_in_progress : ℕ
  pub devices : List Device
  pub devices_cap : ℕ
  pub i_device : ℕ
  pub has_failed : Bool

-- What is enqueued in the event loop.
pub data Task : Type 0 where
  feed begin_next : Task
  examine : ℕ → Task

-- The parser of the device list: it waits for a chunk, works on one, works off the end, or is done.
pub data Parser : Type 0 where
  idle writing closing closed : Parser

-- The event loop: its queue, the parser, the devices whose child processes run, and the argument
-- lists of all the processes that were started.
pub record Loop : Type 0 where
  pub app : App
  pub queue : List Task
  pub parser : Parser
  pub running : List ℕ
  pub started : List (List Bytes)
