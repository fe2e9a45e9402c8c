-- ===== src/Fin/Outcome.antt =====
-- src/main/paisa-SendAfterFin/SendAfterFin.c: what the two programs come to, whatever calls fail.
use unspecified_garbage.Common.{
  ℕ, ◌≤◌, ◌≡◌, ◌⊎◌, inl, inr, refl, ap, arith, Bool, true, false, List, [], ◌∷◌, Option, none, some,
  ℤ, pos, negsuc, if_both, ◌&&◌, ltb, ◌∙◌,
}
use mathlib.Core.Path.{subst}
use unspecified_garbage.Fin.Tcp.{View, Tcp, Documented}
use unspecified_garbage.Fin.Sides.{
  is_zero, Client, connecting, sending, shutting, sending_late, Server, accepting, receiving,
  replying, at_end, closing, client_start, server_start, server_received, server_ended,
}
use unspecified_garbage.Fin.Talk.{
  Side, client, server, World, client_at, server_at, after_accept, after_recv, step, run, started,
}
use unspecified_garbage.Fin.Honest.{
  is_connecting, ClientAt, ServerAt, Sound, ServerAt-over, client_connected-Sound,
  client_sent-Sound, client_shut-Sound, client_sent_late-Sound,
}
use unspecified_garbage.Fin.Serving.{
  Flow-last, accepted-Sound, accept_fails-Sound, server_received-Sound, server_replied-Sound,
  server_ended-Sound, server_closed-Sound,
}

-- After any calls. What has been received, and for what a client counts as served; where the client's side is shut,
-- it is before its late `send` or has returned 0, and it has returned 0 only there; and where the server waits
-- for the end, nothing else is on its way.
pub record Honest (tcp : Tcp) (w : World tcp) : Type 0 where
  pub only_a : (w.received ≡ []) ⊎ (w.received ≡ b'A' ∷ [])
  pub served_once : w.served ≤ 1
  pub served_a : w.served ≡ 1 → w.received ≡ b'A' ∷ []
  pub shut :
      (tcp.view w.net).is_shut ≡ true
      → (w.at_client ≡ sending_late) ⊎ (w.at_client ≡ Client.returned (pos 0))
  pub returned_shut : w.at_client ≡ Client.returned (pos 0) → (tcp.view w.net).is_shut ≡ true
  pub at_the_end : w.at_server ≡ at_end → (w.received ≡ b'A' ∷ []) × ((tcp.view w.net).pending ≡ [])

module _ (tcp : Tcp) (doc : Documented tcp) where
  abbrev Inv : World tcp → Type 0
  Inv w = Sound w.at_client w.at_server (tcp.view w.net) w.received w.served

  module _ (w : World tcp) (v : Inv w) where
    client-Inv :
        (c : Client)
        → Sound c w.at_server (tcp.view w.net) w.received w.served
        → Inv (client_at tcp c w)
    unfolding client_at
    client-Inv connecting h =
        client_connected-Sound w.at_server (tcp.view w.net) w.received w.served
          (tcp.connect w.net).0 (tcp.view (tcp.connect w.net).1) h (doc.connects w.net)
          (doc.connect_fails w.net)
    client-Inv sending h =
        client_sent-Sound w.at_server (tcp.view w.net) w.received w.served
          (tcp.client_send b'A' w.net).0 (tcp.view (tcp.client_send b'A' w.net).2) h
          (doc.sends b'A' w.net) (doc.send_fails b'A' w.net)
    client-Inv shutting h =
        client_shut-Sound w.at_server (tcp.view w.net) w.received w.served (tcp.shutdown w.net).0
          (tcp.view (tcp.shutdown w.net).1) h (doc.shuts w.net) (doc.shutdown_fails w.net)
    client-Inv sending_late h =
        client_sent_late-Sound w.at_server (tcp.view w.net) w.received w.served
          (tcp.client_send b'B' w.net).0 (tcp.client_send b'B' w.net).1
          (tcp.view (tcp.client_send b'B' w.net).2) h (doc.send_shut b'B' w.net h.1)
          (doc.send_fails b'B' w.net)
    client-Inv (Client.returned k) h = v
    client-Inv Client.aborted h = v

    accept-Inv :
        Sound w.at_client accepting (tcp.view w.net) w.received w.served
        → (o : Option (ℤ × tcp.Net)) → tcp.accept w.net ≡ o
        → Inv (after_accept tcp w o)
    unfolding after_accept
    accept-Inv h none e = v
    accept-Inv h (some (pos k, n)) e =
        accepted-Sound w.at_client (tcp.view w.net) w.received w.served k (tcp.view n) h
          (doc.accepts w.net e)
    accept-Inv h (some (negsuc k, n)) e =
        accept_fails-Sound w.at_client (tcp.view w.net) w.received w.served k (tcp.view n) h
          (doc.accept_fails w.net e)

    receive-Inv :
        Sound w.at_client receiving (tcp.view w.net) w.received w.served
        → (o : Option (ℤ × ℕ × tcp.Net)) → tcp.recv w.net ≡ o
        → Inv (after_recv tcp server_received w o)
    unfolding after_recv
    receive-Inv h none e = v
    receive-Inv h (some (k, msg, n)) e =
        server_received-Sound w.at_client (tcp.view w.net) w.received w.served k msg (tcp.view n) h
          (λ o. doc.receives w.net (e ∙ ap (λ i. some (i, msg, n)) o)) (doc.recv_fails w.net e)

    end-Inv :
        Sound w.at_client at_end (tcp.view w.net) w.received w.served
        → (o : Option (ℤ × ℕ × tcp.Net)) → tcp.recv w.net ≡ o
        → Inv (after_recv tcp (λ k msg. server_ended k) w o)
    unfolding after_recv
    end-Inv h none e = v
    end-Inv h (some (k, msg, n)) e =
        server_ended-Sound w.at_client (tcp.view w.net) w.received w.served k msg (tcp.view n) h
          (λ o. doc.receives w.net (e ∙ ap (λ i. some (i, msg, n)) o)) (doc.recv_fails w.net e)

    server-Inv :
        (s : Server)
        → Sound w.at_client s (tcp.view w.net) w.received w.served
        → Inv (server_at tcp s w)
    unfolding server_at
    server-Inv accepting h = accept-Inv h (tcp.accept w.net) refl
    server-Inv receiving h = receive-Inv h (tcp.recv w.net) refl
    server-Inv replying h =
        server_replied-Sound w.at_client (tcp.view w.net) w.received w.served
          (tcp.server_send b'C' w.net).0 (tcp.view (tcp.server_send b'C' w.net).1) h
          (doc.replies b'C' w.net)
    server-Inv at_end h = end-Inv h (tcp.recv w.net) refl
    server-Inv closing h =
        server_closed-Sound w.at_client (tcp.view w.net) w.received w.served (tcp.close w.net).0
          (tcp.view (tcp.close w.net).1) h (doc.closes w.net)
    server-Inv (Server.returned k) h = v
    server-Inv Server.aborted h = v

  run-Inv : (sides : List Side) (w : World tcp) → Inv w → Inv (run tcp sides w)
  unfolding run step
  run-Inv [] w v = v
  run-Inv (client ∷ sides) w v =
      run-Inv sides (client_at tcp w.at_client w) (client-Inv w v w.at_client v)
  run-Inv (server ∷ sides) w v =
      run-Inv sides (server_at tcp w.at_server w) (server-Inv w v w.at_server v)

  abbrev ServerIn : World tcp → Server → Type 0
  ServerIn w s = ServerAt s (is_connecting w.at_client) (tcp.view w.net).backlog w.received w.served

  ServerIn-over : (w : World tcp) → Inv w → (w.served ≤ 1) × (w.served ≡ 1 → w.received ≡ b'A' ∷ [])
  ServerIn-over w (_, _, s) =
      ServerAt-over w.at_server (is_connecting w.at_client) (tcp.view w.net).backlog w.received
        w.served s

  Inv-Honest : (w : World tcp) → Inv w → Honest tcp w
  Inv-Honest w (f, c, s) = record {
    only_a = elim f [ inl (r, _) ↦ inl r | inr (inl (r, _)) ↦ inl r | inr (inr (r, _)) ↦ inr r ];
    served_once = (ServerIn-over w (f, c, s)).0;
    served_a = (ServerIn-over w (f, c, s)).1;
    shut = shut w.at_client c;
    returned_shut = λ e. (subst (λ x. ClientAt x (tcp.view w.net) w.received) e c).0;
    at_the_end = λ e.
        let r = (subst (ServerIn w) e s).1 in
        (r, Flow-last w.received (tcp.view w.net).pending f r);
  }
    where
      shut :
          (x : Client)
          → ClientAt x (tcp.view w.net) w.received
          → (tcp.view w.net).is_shut ≡ true
          → (x ≡ sending_late) ⊎ (x ≡ Client.returned (pos 0))
      shut connecting h e = absurd (cc (h.0, e))
      shut sending h e = absurd (cc (h.0, e))
      shut shutting h e = absurd cc
      shut sending_late h e = inl refl
      shut (Client.returned (pos n)) h e = inr (ap (λ m. Client.returned (pos m)) h.1)
      shut (Client.returned (negsuc n)) h e = absurd cc
      shut Client.aborted h e = absurd cc

  module _ (client_socket server_socket bind listen : ℤ) (net : tcp.Net)
      (fresh : tcp.view net ≡ record { backlog = false; pending = []; is_shut = false }) where
    abbrev pub beginning : World tcp
    beginning = started tcp client_socket server_socket bind listen net

    begin_server :
        (c : Client)
        → (s : Server) → ClientAt c (tcp.view net) []
        → ((early backlog : Bool) → ServerAt s early backlog [] 0)
        → Sound c s (tcp.view net) [] 0
    begin_server c s h k = (
      inl (refl, ap (λ (x : View). x.pending) fresh),
      h,
      k (is_connecting c) (tcp.view net).backlog,
    )

    beginning-Inv : Inv beginning
    unfolding started client_start server_start
    beginning-Inv =
        begin_server (client_start client_socket) (server_start server_socket bind listen)
          (client_first client_socket) (λ early backlog. server_first server_socket early backlog)
      where
        unshut : (tcp.view net).is_shut ≡ false
        unshut = ap (λ (x : View). x.is_shut) fresh

        client_first : (k : ℤ) → ClientAt (client_start k) (tcp.view net) []
        client_first (pos n) =
            if_both (λ c. ClientAt c (tcp.view net) []) (ltb 0 n)
              (λ _. (
                unshut,
                ap (λ (x : View). x.pending) fresh,
                refl,
                ap (λ (x : View). x.backlog) fresh,
              ))
              (λ _. unshut)
        client_first (negsuc n) = unshut

        server_first :
            (k : ℤ) (early backlog : Bool)
            → ServerAt (server_start k bind listen) early backlog [] 0
        server_first (negsuc n) early backlog = (omega arith, λ e. absurd (omega arith))
        server_first (pos n) early backlog =
            if_both (λ s. ServerAt s early backlog [] 0) (is_zero bind && is_zero listen)
              (λ _. inl (refl, refl)) (λ _. (omega arith, λ e. absurd (omega arith)))

    -- At a fresh connection that does what is documented, whatever the calls of the set-up and the later ones return
    -- and whatever their order is: the server has received nothing or 'A' alone, so never 'B'; it has served at most one
    -- client, and that after the 'A'; once the client has shut its side, it is before its late send or has returned 0,
    -- so the assert on that send does not fail, and it returns 0 only there; and where the server waits
    -- for the end, it has received the 'A' and nothing is on its way.
    pub run-Honest : (sides : List Side) → Honest tcp (run tcp sides beginning)
    run-Honest sides = Inv-Honest (run tcp sides beginning) (run-Inv sides beginning beginning-Inv)
