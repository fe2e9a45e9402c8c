-- ===== src/Flood/Loop.antt =====
-- src/main/paisa/HttpFlood.c: the handlers of the event loop, runs of it, and `main`.
use unspecified_garbage.Common.{
  remove_at, ℕ, zero, suc, ◌+◌, ◌-◌, ◌*◌, ◌^◌, Bool, false, List, [], ◌∷◌, Option, none, some, leb,
  ltb, ◌==◌, if◌then◌else◌, Bytes, get_elem?, ℤ, pos, negsuc, Scanned,
}
use unspecified_garbage.Flood.Args.{Args, parse_args}

pub record Timespec : Type 0 where
  pub tv_sec : ℤ
  pub tv_nsec : ℕ

-- What `periodicallyPrintProgress` computes in `float`, from the number of requests and two times: whether `durationMs`
-- is above its limit, and the number that is printed.
pub record Floats : Type 0 where
  pub is_long : Timespec → Timespec → Bool
  pub per_second : ℕ → Timespec → Timespec → ℤ

-- A line of the log: the status of a response, the settings, or a rate.
pub data Line : Type 0 where
  response : ℕ → Line
  settings : Line
  rate : ℤ → Line

-- The numbers of `App`, and what the library's event loop keeps for the program: its clock in milliseconds, when the
-- timers of `sendAnotherRequest` are due, when that of `periodicallyPrintProgress` is, and how many requests have no
-- end yet. `started` counts the requests, and `taken` those that a progress line has taken off `numReqDone`.
pub record Flood : Type 0 where
  pub now : ℕ
  pub timers : List ℕ
  pub progress_due : Option ℕ
  pub in_flight : ℕ
  pub num_req_done : ℕ
  pub progress_printed_at : Timespec
  pub log : List Line
  pub started : ℕ
  pub taken : ℕ

-- The loop goes on, an assert or `onError` has stopped the program, an `int` has overflown, or the event cannot be in
-- this state.
pub data Next : Type 0 where
  next : Flood → Next
  aborted : Next
  overflown : Next
  disabled : Next

infixl 5 ◌>>=◌
abbrev pub ◌>>=◌ : Next → (Flood → Next) → Next
next s >>= f = f s
aborted >>= f = aborted
overflown >>= f = overflown
disabled >>= f = disabled

-- `assert(err == 0)`
abbrev pub assert_ok : ℤ → Next → Next
assert_ok (pos n) rest = if n == 0 then rest else aborted
assert_ok (negsuc n) rest = aborted

-- The rounds of `i < nclients`, and the milliseconds of a timeout.
abbrev pub pos_part : ℤ → ℕ
pos_part (pos n) = n
pos_part (negsuc n) = 0

-- Given is whether `newHttpClientReq` gives a request.
unfoldable pub send_another_request : ℤ → Bool → Flood → Next
send_another_request eno is_made s = assert_ok eno (
    if is_made
    then next (record s { in_flight = s.in_flight + 1; started = s.started + 1 })
    else aborted)

unfoldable pub on_rsp_hdr : ℕ → Flood → Flood
on_rsp_hdr code s =
    if code == 200 then s else if code == 404 then s else record s { log = response code ∷ s.log }

-- Given is what locking and unlocking the mutex returns.
unfoldable pub on_rsp_done : Args → ℤ → ℤ → Flood → Next
on_rsp_done app lock unlock s = assert_ok lock (
    if ltb s.num_req_done (2 ^ 31 - 1)
    then assert_ok unlock (
        next (record s {
          in_flight = s.in_flight - 1;
          num_req_done = s.num_req_done + 1;
          timers = (s.now + pos_part app.pause_ms) ∷ s.timers;
        }))
    else overflown)

-- Given is also the time that `clock_gettime` tells, if it does.
unfoldable pub periodically_print_progress :
    Floats → Args → ℤ → ℤ → ℤ → Option Timespec → Flood → Next
periodically_print_progress floats app eno lock unlock clock s = assert_ok eno (
    assert_ok lock (
      assert_ok unlock (elim clock [
        | none ↦ aborted
        | some t ↦ next (record s {
          num_req_done = 0;
          taken = s.taken + s.num_req_done;
          progress_printed_at = t;
          log =
              (if floats.is_long s.progress_printed_at t
                then settings
                else rate (floats.per_second s.num_req_done s.progress_printed_at t))
              ∷ s.log;
          progress_due = some (s.now + pos_part app.print_progress_every_ms);
        })
      ])))

-- `MIN(1, nclients)`, as the macro computes it.
unfoldable pub num_thrds : ℕ → ℕ
num_thrds nclients =
    (if ltb 1 nclients then 1 else 0) * 1 + (if leb nclients 1 then 1 else 0) * nclients

-- The loop of `initStuff`, over the clients that are left.
unfoldable pub start_clients : ℕ → (ℕ → Bool) → ℕ → Flood → Next
unfolding send_another_request
start_clients zero is_made i s = next s
start_clients (suc n) is_made i s =
    send_another_request (pos 0) (is_made i) s >>= λ s'. start_clients n is_made (i + 1) s'

-- What `initStuff` meets: what the calls on the mutex return, the time, and whether a client has its request.
pub record Boot : Type 0 where
  pub mutex : ℤ
  pub lock : ℤ
  pub unlock : ℤ
  pub clock : Option Timespec
  pub is_made : ℕ → Bool

unfoldable pub init_stuff : Floats → Args → Boot → Flood → Next
unfolding periodically_print_progress start_clients
init_stuff floats app boot s = assert_ok boot.mutex (
    periodically_print_progress floats app (pos 0) boot.lock boot.unlock boot.clock s >>= λ s'.
    start_clients (pos_part app.nclients) boot.is_made 0 s')

-- What happens next: time goes by; the timer at a place is due; a response has its head, or its end; a request fails;
-- the progress is due. The numbers are what the program is handed there: the error of a timer, a status, what the
-- mutex returns.
pub data Event : Type 0 where
  tick : ℕ → Event
  timer : ℕ → ℤ → Bool → Event
  rsp_hdr : ℕ → Event
  rsp_done : ℤ → ℤ → Event
  error : Event
  progress : ℤ → ℤ → ℤ → Option Timespec → Event

unfoldable pub step : Floats → Args → Event → Flood → Next
unfolding send_another_request on_rsp_hdr on_rsp_done periodically_print_progress
step floats app (tick ms) s = next (record s { now = s.now + ms })
step floats app (timer k eno is_made) s = elim (get_elem? s.timers k) [
  | none ↦ disabled
  | some due ↦
      if leb due s.now
      then send_another_request eno is_made (record s { timers = remove_at s.timers k })
      else disabled
]
step floats app (rsp_hdr code) s = if ltb 0 s.in_flight then next (on_rsp_hdr code s) else disabled
step floats app (rsp_done lock unlock) s =
    if ltb 0 s.in_flight then on_rsp_done app lock unlock s else disabled
step floats app error s = if ltb 0 s.in_flight then aborted else disabled
step floats app (progress eno lock unlock clock) s = elim s.progress_due [
  | none ↦ disabled
  | some due ↦
      if leb due s.now
      then periodically_print_progress floats app eno lock unlock clock s
      else disabled
]

unfoldable pub run : Floats → Args → List Event → Flood → Next
unfolding step
run floats app [] s = next s
run floats app (e ∷ es) s = step floats app e s >>= λ s'. run floats app es s'

-- `App app = {0}`, and a loop with nothing to do.
abbrev pub booted : Flood
booted = record {
  now = 0;
  timers = [];
  progress_due = none;
  in_flight = 0;
  num_req_done = 0;
  progress_printed_at = record { tv_sec = pos 0; tv_nsec = 0 };
  log = [];
  started = 0;
  taken = 0;
}

-- `runUntilDone` returns once there is no timer and no request.
abbrev pub is_done : Flood → Bool
is_done s = elim s.progress_due [
  | none ↦ elim s.timers [ [] ↦ s.in_flight == 0 | _ ↦ false ]
  | some due ↦ false
]

-- How the process ends, if it does.
pub data Outcome : Type 0 where
  exited : ℕ → Outcome
  running : Args → Flood → Outcome
  abort : Outcome
  undefined : Outcome
  unmet : Outcome

abbrev pub outcome_of : Args → Next → Outcome
outcome_of app (next s) = if is_done s then exited 0 else running app s
outcome_of app aborted = abort
outcome_of app overflown = undefined
outcome_of app disabled = unmet

unfoldable pub main : Floats → (Bytes → Scanned) → Boot → List Event → List Bytes → Outcome
unfolding init_stuff run parse_args
main floats strtol boot events args = elim (parse_args strtol args) [
  | none ↦ exited 1
  | some app ↦
      if app.is_help
      then exited 1
      else outcome_of app (init_stuff floats app boot booted >>= λ s. run floats app events s)
]
