-- ===== src/Fin/Queue.antt =====
-- src/main/paisa-SendAfterFin/SendAfterFin.c: a connection on which no call fails but a late one.
use unspecified_garbage.Common.{
  ℕ, ◌<◌, ◌≡◌, ◌≢◌, refl, sym, ap, arith, Bool, true, false, List, [], ◌∷◌, ◌++◌, Option, none,
  some, ℤ, pos, negsuc,
}
use mathlib.Core.Path.{subst}
use unspecified_garbage.Fin.Tcp.{View, Tcp, Documented}

abbrev queue_accept : Bool → View → Option (ℤ × View)
queue_accept true v = some (pos 0, record v { backlog = false })
queue_accept false v = none

abbrev queue_send : Bool → ℕ → View → ℤ × ℕ × View
queue_send true b v = (negsuc 0, 32, v)
queue_send false b v = (pos 1, 0, record v { pending = v.pending ++ (b ∷ []) })

abbrev queue_recv : List ℕ → Bool → View → Option (ℤ × ℕ × View)
queue_recv [] true v = some (pos 0, 0, v)
queue_recv [] false v = none
queue_recv (b ∷ bs) is_shut v = some (pos 1, b, record v { pending = bs })

abbrev pub queue : Tcp
queue = record {
  Net = View;
  view = λ v. v;
  connect = λ v. (pos 0, record v { backlog = true });
  accept = λ v. queue_accept v.backlog v;
  client_send = λ b v. queue_send v.is_shut b v;
  shutdown = λ v. (pos 0, record v { is_shut = true });
  recv = λ v. queue_recv v.pending v.is_shut v;
  server_send = λ b v. (pos 1, v);
  close = λ v. (pos 0, v);
}

pub queue-Documented : Documented queue
queue-Documented = record {
  connects = λ v e. refl;
  connect_fails = λ v e. absurd (e refl);
  accepts = λ v e. accepts v.backlog v e refl;
  accept_fails = λ v e. accept_fails v.backlog v e;
  sends = λ b v e. sends v.is_shut b v e;
  send_fails = λ b v e. send_fails v.is_shut b v e;
  send_shut = λ b v e. (
    ap (λ s. (queue_send s b v).0) e,
    subst (λ (s : Bool). 0 < (queue_send s b v).1) (sym e) (omega arith),
  );
  shuts = λ v e. refl;
  shutdown_fails = λ v e. absurd (e refl);
  receives = λ v e. receives v.pending v.is_shut v e;
  recv_fails = λ v e f. recv_fails v.pending v.is_shut v e f;
  replies = λ b v. refl;
  closes = λ v. refl;
}
  where
    accepts :
        (b : Bool) (v : View) {k : ℕ} {v' : View}
        → queue_accept b v ≡ some (pos k, v')
        → v.backlog ≡ b
        → (v.backlog ≡ true) × (v' ≡ record v { backlog = false })
    accepts true v e f = (f, cc)
    accepts false v e f = absurd cc

    accept_fails :
        (b : Bool) (v : View) {k : ℕ} {v' : View} → queue_accept b v ≡ some (negsuc k, v') → v' ≡ v
    accept_fails true v e = absurd cc
    accept_fails false v e = absurd cc

    sends :
        (s : Bool) (b : ℕ) (v : View)
        → (queue_send s b v).0 ≡ pos 1
        → (queue_send s b v).2 ≡ record v { pending = v.pending ++ (b ∷ []) }
    sends true b v e = absurd cc
    sends false b v e = refl

    send_fails :
        (s : Bool) (b : ℕ) (v : View) → (queue_send s b v).0 ≢ pos 1 → (queue_send s b v).2 ≡ v
    send_fails true b v e = refl
    send_fails false b v e = absurd (e refl)

    receives :
        (l : List ℕ) (s : Bool) (v : View) {b : ℕ} {v' : View}
        → queue_recv l s v ≡ some (pos 1, b, v')
        → (bs : List ℕ) × (l ≡ b ∷ bs) × (v' ≡ record v { pending = bs })
    receives [] true v e = absurd cc
    receives [] false v e = absurd cc
    receives (x ∷ xs) s v e = (xs, cc, cc)

    recv_fails :
        (l : List ℕ) (s : Bool) (v : View) {k : ℤ} {b : ℕ} {v' : View}
        → queue_recv l s v ≡ some (k, b, v')
        → k ≢ pos 1
        → v' ≡ v
    recv_fails [] true v e f = cc
    recv_fails [] false v e f = absurd cc
    recv_fails (x ∷ xs) s v e f = absurd (f cc)
