-- ===== src/Fin/Sides.antt =====
-- src/main/paisa-SendAfterFin/SendAfterFin.c: `runClient` and `runServer`, from one call of the system to the next.
use unspecified_garbage.Common.{ℕ, Bool, false, ◌&&◌, ◌==◌, ltb, if◌then◌else◌, ℤ, pos, negsuc}

-- Where the client is: before a call, or at its end.
pub data Client : Type 0 where
  connecting : Client
  sending : Client
  shutting : Client
  sending_late : Client
  returned : ℤ → Client
  aborted : Client

pub data Server : Type 0 where
  accepting : Server
  receiving : Server
  replying : Server
  at_end : Server
  closing : Server
  returned : ℤ → Server
  aborted : Server

abbrev pub is_zero : ℤ → Bool
is_zero (pos n) = n == 0
is_zero (negsuc n) = false

abbrev pub is_one : ℤ → Bool
is_one (pos n) = n == 1
is_one (negsuc n) = false

-- With what `socket` returns.
unfoldable pub client_start : ℤ → Client
client_start (pos n) = if ltb 0 n then connecting else Client.aborted
client_start (negsuc n) = Client.aborted

unfoldable pub client_connected : ℤ → Client
client_connected err = if is_zero err then sending else Client.returned (negsuc 0)

unfoldable pub client_sent : ℤ → Client
client_sent err = if is_one err then shutting else Client.aborted

unfoldable pub client_shut : ℤ → Client
client_shut err = if is_zero err then sending_late else Client.aborted

-- With what the second `send` returns, and errno.
unfoldable pub client_sent_late : ℤ → ℕ → Client
client_sent_late (pos n) errno = Client.aborted
client_sent_late (negsuc n) errno =
    if n == 0 && ltb 0 errno then Client.returned (pos 0) else Client.aborted

-- With what `socket`, `bind` and `listen` return.
unfoldable pub server_start : ℤ → ℤ → ℤ → Server
server_start (negsuc n) bind listen = Server.returned (negsuc 0)
server_start (pos n) bind listen =
    if is_zero bind && is_zero listen then accepting else Server.aborted

unfoldable pub server_accepted : ℤ → Server
server_accepted (pos n) = receiving
server_accepted (negsuc n) = Server.aborted

-- With what `recv` returns, and the octet.
unfoldable pub server_received : ℤ → ℕ → Server
server_received err msg = if is_one err && (msg == b'A') then replying else Server.aborted

unfoldable pub server_replied : ℤ → Server
server_replied err = if is_one err then at_end else Server.aborted

unfoldable pub server_ended : ℤ → Server
server_ended err = if is_zero err then closing else Server.returned (negsuc 0)

unfoldable pub server_closed : ℤ → Server
server_closed err = if is_zero err then accepting else Server.aborted
