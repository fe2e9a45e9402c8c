-- ===== src/Disks/Tests.antt =====
-- Runs of src/main/c/paisa-fleet/FindFullDisks.c, and its theorems at concrete inputs.
use unspecified_garbage.Common.{
  remove_at, to_int, up_to_nul, ◌+◌, ◌≤◌, ◌<◌, ◌≡◌, ◌≢◌, ◌↔◌, refl, arith, Bool, true, false, List,
  [], ◌∷◌, map, some, Bytes, bytes_eq, codes, length, pos, Strtol,
}
use unspecified_garbage.Disks.State.{held, below, Device, App, Loop}
use unspecified_garbage.Disks.Args.{
  defaults, parse_args, user, parallel, noise, Word, spell, with_words, accept,
  parse_args-spell_words,
}
use unspecified_garbage.Disks.Visit.{
  at_eddie, wrong_host, ssh, at_host, eddie_cmd, user_at_eddie, child_argv, visit_device, is_port,
  visit_device_iff,
}
use unspecified_garbage.Disks.Output.{
  out_name, examine_device, nothing, file, failed, examine_device_iff,
}
use unspecified_garbage.Disks.Loop.{
  next, aborted, step, begin_loop, set_device, Event, task, row, write_done, close_done, stdout,
  joined, run, entered, code, main,
}
use unspecified_garbage.Disks.Invariant.{Inv}
use unspecified_garbage.Disks.Live.{row_argv}
use unspecified_garbage.Disks.OnNext.{rows_of}
use unspecified_garbage.Disks.Reach.{run-Inv, joined-no_abort}
use unspecified_garbage.Disks.Visits.{main-visited}

abbrev strtol : Bytes → Strtol
strtol text = record { value = pos 2; is_error = false }

abbrev new_process : List Bytes → Bool
new_process argv = true

abbrev words : List Word
words = user (codes "me") ∷ noise (codes "fast") ∷ parallel (codes "2") ∷ []

abbrev args : List Bytes
args = codes "--sshUser" ∷ codes "me" ∷ codes "fast" ∷ codes "--maxParallel" ∷ codes "2" ∷ []

abbrev app : App
app = record defaults { ssh_user = some (codes "me"); max_parallel = pos 2 }

-- Three devices, of which two may be visited at a time.
abbrev first_events : List Event
first_events =
    task true 0 9
    ∷ row (held []) (codes "eddie1" ∷ codes "fook-1" ∷ [])
    ∷ row (held (codes "old ")) (codes "eddie2" ∷ codes "lunkwill-2" ∷ [])
    ∷ row (below 4) (codes "eddie3" ∷ codes "fook-3" ∷ [])
    ∷ write_done (pos 9)
    ∷ task true 0 0
    ∷ close_done
    ∷ task true 0 0
    ∷ stdout 1 (codes "df")
    ∷ []

abbrev events : List Event
events =
    task true 0 9
    ∷ row (held []) (codes "eddie1" ∷ codes "fook-1" ∷ [])
    ∷ row (held (codes "old ")) (codes "eddie2" ∷ codes "lunkwill-2" ∷ [])
    ∷ row (below 4) (codes "eddie3" ∷ codes "fook-3" ∷ [])
    ∷ write_done (pos 9)
    ∷ task true 0 0
    ∷ close_done
    ∷ task true 0 0
    ∷ stdout 1 (codes "df")
    ∷ joined 1
    ∷ task true 6 0
    ∷ task true 6 0
    ∷ joined 0
    ∷ joined 0
    ∷ task true 6 0
    ∷ task true 6 0
    ∷ task true 6 0
    ∷ task true 6 0
    ∷ []

args-parsed : parse_args strtol args ≡ some app
unfolding parse_args to_int
args-parsed = refl

main-zero : main new_process strtol events args ≡ code 0
unfolding main begin_loop to_int visit_device eddie_cmd at_eddie up_to_nul wrong_host ssh at_host
    user_at_eddie set_device out_name remove_at
main-zero = refl

abbrev reached : Loop
unfolding run begin_loop to_int visit_device eddie_cmd at_eddie up_to_nul wrong_host ssh at_host
    user_at_eddie set_device out_name remove_at
reached = elim (run new_process first_events (entered app)) [ next s ↦ s | _ ↦ entered app ]

reached-eq : run new_process first_events (entered app) ≡ next reached
unfolding run reached begin_loop to_int visit_device eddie_cmd at_eddie up_to_nul wrong_host ssh
    at_host user_at_eddie set_device out_name remove_at
reached-eq = refl

two_running : length reached.running ≡ 2
unfolding run reached begin_loop to_int visit_device eddie_cmd at_eddie up_to_nul wrong_host ssh
    at_host user_at_eddie set_device out_name remove_at
two_running = refl

parse_args-spell_words_example :
    parse_args strtol (spell words) ≡ accept strtol (with_words strtol defaults words)
unfolding bytes_eq
parse_args-spell_words_example =
    parse_args-spell_words strtol words
      (tt, ((λ e. absurd cc, λ e. absurd cc, λ e. absurd cc, λ e. absurd cc), (refl, tt)))

visit_device_iff_example :
    (visit_device (codes "me") (pos 22) (codes "eddie1") (codes "fook-1")
      ≡ some (child_argv (codes "me") (pos 22) (codes "eddie1") (codes "fook-1")))
    ↔ ((is_port (pos 22) ≡ true) × (length (codes "me") + 1 + length (codes "eddie1") < 64))
visit_device_iff_example =
    visit_device_iff (codes "me") (pos 22) (codes "eddie1") (codes "fook-1") (omega arith)
      (omega arith)

abbrev device : Device
device = record {
  hostname = codes "fook-1";
  eddie_name = codes "eddie1";
  stdout = held (codes "df");
}

examine_device_iff_example :
    ((examine_device true 2 device ≡ nothing) ↔ (length (codes "df") ≡ 0))
    × ((examine_device true 2 device ≡ file (out_name device) (codes "df")) ↔ (
        (length (codes "df") ≢ 0)
        × (length (up_to_nul (codes "eddie1")) + length (up_to_nul (codes "fook-1")) < 36)))
    × ((examine_device true 2 device ≡ failed) ↔ (
        (length (codes "df") ≢ 0)
        × (36 ≤ length (up_to_nul (codes "eddie1")) + length (up_to_nul (codes "fook-1")))))
examine_device_iff_example = examine_device_iff device (codes "df") refl (omega arith)

run-Inv_example : Inv (codes "me") (pos 22) (pos 2) reached
run-Inv_example = run-Inv new_process strtol args first_events app args-parsed reached-eq

main-visited_example :
    (s : Loop) × (run new_process events (entered app) ≡ next s)
    × (s.started ≡ map (row_argv (codes "me") (pos 22)) (rows_of events))
main-visited_example =
    main-visited new_process strtol events args app 1 args-parsed refl refl main-zero

joined-no_abort_example : step new_process (joined 1) reached ≢ aborted
joined-no_abort_example =
    joined-no_abort new_process strtol args first_events app args-parsed 1 reached-eq
