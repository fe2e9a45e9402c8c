-- ===== src/Fin/Tcp.antt =====
-- src/main/paisa-SendAfterFin/SendAfterFin.c: what the two programs rely on of one TCP connection.
use unspecified_garbage.Common.{
  ℕ, ◌<◌, ◌≡◌, ◌≢◌, Bool, true, false, List, [], ◌∷◌, ◌++◌, Option, some, ℤ, pos, negsuc,
}

-- What the system tells of the connection: whether it waits to be accepted, what has been sent to the server and has
-- not been received, and whether the client has shut its side.
pub record View : Type 0 where
  pub backlog : Bool
  pub pending : List ℕ
  pub is_shut : Bool

-- The calls on a connection, each with what it returns. `recv` and `accept` may block. `send` of the client gives errno
-- too, and `recv` an octet.
pub record Tcp : Type 1 where
  pub Net : Type 0
  pub view : Net → View
  pub connect : Net → ℤ × Net
  pub accept : Net → Option (ℤ × Net)
  pub client_send : ℕ → Net → ℤ × ℕ × Net
  pub shutdown : Net → ℤ × Net
  pub recv : Net → Option (ℤ × ℕ × Net)
  pub server_send : ℕ → Net → ℤ × Net
  pub close : Net → ℤ × Net

-- What the documentation of these calls says, each of which may fail: a call that fails changes nothing of the view; a
-- connection that is made waits to be accepted once; an octet that is sent is received once, in order; and sending
-- behind a shutdown fails with an errno.
pub record Documented (tcp : Tcp) : Type 0 where
  pub connects :
      (n : tcp.Net)
      → (tcp.connect n).0 ≡ pos 0
      → tcp.view (tcp.connect n).1 ≡ record (tcp.view n) { backlog = true }
  pub connect_fails :
      (n : tcp.Net) → (tcp.connect n).0 ≢ pos 0 → tcp.view (tcp.connect n).1 ≡ tcp.view n
  pub accepts :
      (n : tcp.Net) {k : ℕ} {n' : tcp.Net}
      → tcp.accept n ≡ some (pos k, n')
      → ((tcp.view n).backlog ≡ true) × (tcp.view n' ≡ record (tcp.view n) { backlog = false })
  pub accept_fails :
      (n : tcp.Net) {k : ℕ} {n' : tcp.Net}
      → tcp.accept n ≡ some (negsuc k, n')
      → tcp.view n' ≡ tcp.view n
  pub sends :
      (b : ℕ) (n : tcp.Net)
      → (tcp.client_send b n).0 ≡ pos 1
      → tcp.view (tcp.client_send b n).2
        ≡ record (tcp.view n) { pending = (tcp.view n).pending ++ (b ∷ []) }
  pub send_fails :
      (b : ℕ) (n : tcp.Net)
      → (tcp.client_send b n).0 ≢ pos 1
      → tcp.view (tcp.client_send b n).2 ≡ tcp.view n
  pub send_shut :
      (b : ℕ) (n : tcp.Net)
      → (tcp.view n).is_shut ≡ true
      → ((tcp.client_send b n).0 ≡ negsuc 0) × (0 < (tcp.client_send b n).1)
  pub shuts :
      (n : tcp.Net)
      → (tcp.shutdown n).0 ≡ pos 0
      → tcp.view (tcp.shutdown n).1 ≡ record (tcp.view n) { is_shut = true }
  pub shutdown_fails :
      (n : tcp.Net) → (tcp.shutdown n).0 ≢ pos 0 → tcp.view (tcp.shutdown n).1 ≡ tcp.view n
  pub receives :
      (n : tcp.Net) {b : ℕ} {n' : tcp.Net}
      → tcp.recv n ≡ some (pos 1, b, n')
      → (bs : List ℕ) × ((tcp.view n).pending ≡ b ∷ bs)
        × (tcp.view n' ≡ record (tcp.view n) { pending = bs })
  pub recv_fails :
      (n : tcp.Net) {k : ℤ} {b : ℕ} {n' : tcp.Net}
      → tcp.recv n ≡ some (k, b, n')
      → k ≢ pos 1
      → tcp.view n' ≡ tcp.view n
  pub replies : (b : ℕ) (n : tcp.Net) → tcp.view (tcp.server_send b n).1 ≡ tcp.view n
  pub closes : (n : tcp.Net) → tcp.view (tcp.close n).1 ≡ tcp.view n
