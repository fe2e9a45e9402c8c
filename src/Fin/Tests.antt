-- ===== src/Fin/Tests.antt =====
-- src/main/paisa-SendAfterFin/SendAfterFin.c: tests, and witnesses of the theorems.
use unspecified_garbage.Common.{
  ◌≡◌, refl, true, false, if◌then◌else◌, List, [], ◌∷◌, Bytes, bytes_eq, codes, pos, negsuc,
  Scanned, scanned_int, to_int,
}
use unspecified_garbage.Fin.Args.{main, exits, Role, IsProper, main-IsProper}
use unspecified_garbage.Fin.Tcp.{View}
use unspecified_garbage.Fin.Sides.{
  Client, Server, accepting, receiving, closing, sending, server_ended, server_received,
}
use unspecified_garbage.Fin.Talk.{Side, client, server, run, started}
use unspecified_garbage.Fin.Queue.{queue, queue-Documented}
use unspecified_garbage.Fin.Outcome.{Honest, run-Honest}

abbrev strtol : Bytes → Scanned
strtol text =
    if bytes_eq text (codes "80")
    then record { value = pos 80; is_error = false; at_start = false; at_end = true }
    else record { value = pos 0; is_error = false; at_start = true; at_end = false }

abbrev served_anywhere : List Bytes
served_anywhere = codes "--server" ∷ codes "--port" ∷ codes "80" ∷ codes "--listen-any" ∷ []

main-server : main strtol served_anywhere ≡ Role.server (record { port = pos 80; ip = 0 })
unfolding main bytes_eq scanned_int to_int
main-server = refl

main-both : main strtol (codes "--client" ∷ served_anywhere) ≡ exits 1
unfolding main bytes_eq scanned_int to_int
main-both = refl

main-help : main strtol (codes "--help" ∷ []) ≡ exits 1
unfolding main bytes_eq
main-help = refl

-- A message behind the 'A' would end the server.
ended : (server_ended (pos 0) ≡ closing) × (server_ended (pos 1) ≡ Server.returned (negsuc 0))
unfolding server_ended
ended = (refl, refl)

-- A server that gets something else aborts.
wrong : server_received (pos 1) b'B' ≡ Server.aborted
unfolding server_received
wrong = refl

abbrev fresh : View
fresh = record { backlog = false; pending = []; is_shut = false }

-- The server waits for its client.
waits :
    run queue
      (server ∷ server ∷ client ∷ server ∷ server ∷ [])
      (started queue (pos 3) (pos 3) (pos 0) (pos 0) fresh)
    ≡ record { at_client = sending; at_server = receiving; net = fresh; received = []; served = 0 }
unfolding run started
waits = refl

main-IsProper_example : IsProper (main strtol served_anywhere)
main-IsProper_example = main-IsProper strtol served_anywhere

abbrev some_sides : List Side
some_sides = client ∷ client ∷ server ∷ server ∷ client ∷ client ∷ server ∷ server ∷ server ∷ []

run-Honest_example :
    Honest queue (run queue some_sides (started queue (pos 3) (pos 3) (pos 0) (pos 0) fresh))
run-Honest_example =
    run-Honest queue queue-Documented (pos 3) (pos 3) (pos 0) (pos 0) fresh refl some_sides

-- Both programs to the end of one client.
served_one : run queue some_sides (started queue (pos 3) (pos 3) (pos 0) (pos 0) fresh) ≡ record {
  at_client = Client.returned (pos 0);
  at_server = accepting;
  net = record { backlog = false; pending = []; is_shut = true };
  received = b'A' ∷ [];
  served = 1;
}
unfolding run started
served_one = refl
