-- ===== src/Fin/Talk.antt =====
-- src/main/paisa-SendAfterFin/SendAfterFin.c: the client and the server, in any order of their steps.
use unspecified_garbage.Common.{ℕ, ◌+◌, List, [], ◌∷◌, Option, none, some, if◌then◌else◌, ℤ}
use unspecified_garbage.Fin.Tcp.{Tcp}
use unspecified_garbage.Fin.Sides.{
  Client, connecting, sending, shutting, sending_late, Server, accepting, receiving, replying,
  at_end, closing, is_one, client_start, server_start, client_connected, client_sent, client_shut,
  client_sent_late, server_accepted, server_received, server_replied, server_ended, server_closed,
}

pub data Side : Type 0 where
  client : Side
  server : Side

module _ (tcp : Tcp) where
  -- `received` is what the server has received, newest first, and `served` counts the clients that it has served.
  pub record World : Type 0 where
    pub at_client : Client
    pub at_server : Server
    pub net : tcp.Net
    pub received : List ℕ
    pub served : ℕ

  -- The next call of the client.
  unfoldable pub client_at : Client → World → World
  unfolding client_connected client_sent client_shut client_sent_late
  client_at connecting w =
      let r = tcp.connect w.net in record w { at_client = client_connected r.0; net = r.1 }
  client_at sending w =
      let r = tcp.client_send b'A' w.net in record w { at_client = client_sent r.0; net = r.2 }
  client_at shutting w =
      let r = tcp.shutdown w.net in record w { at_client = client_shut r.0; net = r.1 }
  client_at sending_late w =
      let r = tcp.client_send b'B' w.net in
      record w { at_client = client_sent_late r.0 r.1; net = r.2 }
  client_at (Client.returned k) w = w
  client_at Client.aborted w = w

  -- Where a call blocks, nothing changes.
  unfoldable pub after_accept : World → Option (ℤ × tcp.Net) → World
  unfolding server_accepted
  after_accept w none = w
  after_accept w (some (k, net)) = record w { at_server = server_accepted k; net = net }

  unfoldable pub after_recv : (ℤ → ℕ → Server) → World → Option (ℤ × ℕ × tcp.Net) → World
  after_recv next w none = w
  after_recv next w (some (k, msg, net)) = record w {
    at_server = next k msg;
    received = if is_one k then msg ∷ w.received else w.received;
    net = net;
  }

  -- The next call of the server.
  unfoldable pub server_at : Server → World → World
  unfolding after_accept after_recv server_received server_replied server_ended server_closed
  server_at accepting w = after_accept w (tcp.accept w.net)
  server_at receiving w = after_recv server_received w (tcp.recv w.net)
  server_at replying w =
      let r = tcp.server_send b'C' w.net in record w { at_server = server_replied r.0; net = r.1 }
  server_at at_end w = after_recv (λ k msg. server_ended k) w (tcp.recv w.net)
  server_at closing w =
      let r = tcp.close w.net in
      record w { at_server = server_closed r.0; net = r.1; served = w.served + 1 }
  server_at (Server.returned k) w = w
  server_at Server.aborted w = w

  unfoldable pub step : Side → World → World
  unfolding client_at server_at
  step client w = client_at w.at_client w
  step server w = server_at w.at_server w

  -- The sides in the order in which they are at turn.
  unfoldable pub run : List Side → World → World
  unfolding step
  run [] w = w
  run (side ∷ sides) w = run sides (step side w)

  -- Both have called `socket`, and the server `bind` and `listen`.
  unfoldable pub started : (client_socket server_socket bind listen : ℤ) → tcp.Net → World
  unfolding client_start server_start
  started client_socket server_socket bind listen net = record {
    at_client = client_start client_socket;
    at_server = server_start server_socket bind listen;
    net = net;
    received = [];
    served = 0;
  }
