-- ===== src/Flood/Tests.antt =====
-- src/main/paisa/HttpFlood.c: tests, and witnesses of the theorems.
use unspecified_garbage.Common.{
  ℕ, ◌+◌, ◌*◌, ◌≤◌, ◌≡◌, ◌↔◌, ◌⊎◌, refl, true, false, List, [], ◌∷◌, ◌++◌, none, some, Bytes, codes,
  bytes_eq, if◌then◌else◌, pos, Scanned, scanned_int, to_int, remove_at,
}
use unspecified_garbage.Flood.Args.{Args, parse_args, defaults, InRange, parse_args-InRange}
use unspecified_garbage.Flood.Loop.{
  Timespec, Floats, response, rate, Flood, Boot, Event, tick, timer, rsp_hdr, rsp_done, error,
  progress, num_thrds, main, exited, running, abort,
}
use unspecified_garbage.Flood.Invariant.{Inv}
use unspecified_garbage.Flood.Pace.{main-Inv, main-pace}
use unspecified_garbage.Flood.Exits.{main_exits_iff}

-- Two numbers are enough here.
abbrev strtol : Bytes → Scanned
strtol text =
    if bytes_eq text (codes "80")
    then record { value = pos 80; is_error = false; at_start = false; at_end = true }
    else if bytes_eq text (codes "2")
    then record { value = pos 2; is_error = false; at_start = false; at_end = true }
    else if bytes_eq text (codes "4294967376")
    then record { value = pos 4294967376; is_error = false; at_start = false; at_end = true }
    else record { value = pos 0; is_error = false; at_start = true; at_end = false }

abbrev args : List Bytes
args =
    codes "--host"
    ∷ codes "h"
    ∷ codes "--port"
    ∷ codes "80"
    ∷ codes "--path"
    ∷ codes "/"
    ∷ codes "--nclients"
    ∷ codes "2"
    ∷ []

abbrev app : Args
app = record defaults {
  host = some (codes "h");
  port = pos 80;
  path = some (codes "/");
  nclients = pos 2;
}

parsed : parse_args strtol args ≡ some app
unfolding parse_args bytes_eq scanned_int to_int
parsed = refl

-- The port 2^32 + 80 is taken for 80.
parsed_far :
    parse_args strtol (
      codes "--host"
      ∷ codes "h"
      ∷ codes "--path"
      ∷ codes "/"
      ∷ codes "--nclients"
      ∷ codes "2"
      ∷ codes "--port"
      ∷ codes "4294967376"
      ∷ [])
    ≡ some app
unfolding parse_args bytes_eq scanned_int to_int
parsed_far = refl

parsed_no_host :
    parse_args strtol (codes "--port" ∷ codes "80" ∷ codes "--path" ∷ codes "/" ∷ []) ≡ none
unfolding parse_args bytes_eq scanned_int to_int
parsed_no_host = refl

thrds : (num_thrds 1 ≡ 1) × (num_thrds 7 ≡ 1)
unfolding num_thrds
thrds = (refl, refl)

abbrev floats : Floats
floats = record { is_long = λ a b. false; per_second = λ n a b. pos n }

abbrev clock : Timespec
clock = record { tv_sec = pos 5; tv_nsec = 0 }

abbrev boot : Boot
boot = record {
  mutex = pos 0;
  lock = pos 0;
  unlock = pos 0;
  clock = some clock;
  is_made = λ i. true;
}

-- Both requests end, with one that is not found, and one client sends again.
abbrev first : List Event
first =
    tick 10
    ∷ rsp_hdr 404
    ∷ rsp_done (pos 0) (pos 0)
    ∷ rsp_hdr 500
    ∷ tick 5
    ∷ rsp_done (pos 0) (pos 0)
    ∷ []

abbrev more : List Event
more =
    tick 1000
    ∷ timer 1 (pos 0) true
    ∷ tick 2000
    ∷ progress (pos 0) (pos 0) (pos 0) (some clock)
    ∷ []

abbrev after_first : Flood
after_first = record {
  now = 15;
  timers = 1015 ∷ 1010 ∷ [];
  progress_due = some 3000;
  in_flight = 0;
  num_req_done = 2;
  progress_printed_at = clock;
  log = response 500 ∷ rate (pos 0) ∷ [];
  started = 2;
  taken = 0;
}

abbrev after_more : Flood
after_more = record {
  now = 3015;
  timers = 1015 ∷ [];
  progress_due = some 6015;
  in_flight = 1;
  num_req_done = 0;
  progress_printed_at = clock;
  log = rate (pos 2) ∷ response 500 ∷ rate (pos 0) ∷ [];
  started = 3;
  taken = 2;
}

main-first : main floats strtol boot first args ≡ running app after_first
unfolding main remove_at bytes_eq scanned_int to_int
main-first = refl

main-more : main floats strtol boot (first ++ more) args ≡ running app after_more
unfolding main remove_at bytes_eq scanned_int to_int
main-more = refl

main-error : main floats strtol boot (error ∷ []) args ≡ abort
unfolding main remove_at bytes_eq scanned_int to_int
main-error = refl

parse_args-InRange_example : InRange app
parse_args-InRange_example = parse_args-InRange strtol args parsed

main-Inv_example : Inv 2 1000 after_first
main-Inv_example = main-Inv floats strtol boot args first 2 1000 refl refl main-first

main-pace_example :
    (3 * 1000 ≤ 2 * (3015 + 1000)) × (3 * 1000 + 2 * 15 ≤ 2 * 1000 + 2 * (3015 + 1000))
main-pace_example =
    main-pace floats strtol boot args first more 2 1000 refl refl main-first main-more

main_exits_iff_example : (main floats strtol boot [] (codes "--help" ∷ []) ≡ exited 1) ↔ (
    ◌≡◌ {A = ℕ} 1 1
    × ((parse_args strtol (codes "--help" ∷ []) ≡ none)
        ⊎ ((a : Args) × (parse_args strtol (codes "--help" ∷ []) ≡ some a) × (a.is_help ≡ true))))
main_exits_iff_example = main_exits_iff floats strtol boot (codes "--help" ∷ []) [] 1
