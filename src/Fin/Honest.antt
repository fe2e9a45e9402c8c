-- ===== src/Fin/Honest.antt =====
-- src/main/paisa-SendAfterFin/SendAfterFin.c: what the states of the two programs tell of the connection.
use unspecified_garbage.Common.{
  ℕ, ◌≤◌, ◌<◌, ◌≡◌, ◌≢◌, ◌⊎◌, if_both, inl, inr, refl, sym, ap, arith, Bool, true, false, List, [],
  ◌∷◌, ◌++◌, ℤ, pos, negsuc,
}
use mathlib.Core.Path.{subst}
use unspecified_garbage.Fin.Tcp.{View}
use unspecified_garbage.Fin.Sides.{
  is_zero, is_one, Client, connecting, sending, shutting, sending_late, Server, accepting,
  receiving, replying, at_end, closing, client_connected, client_sent, client_shut,
  client_sent_late,
}

abbrev pub is_connecting : Client → Bool
is_connecting connecting = true
is_connecting _ = false

-- Nothing has been sent; or 'A', which is on its way or has been received.
abbrev pub Flow : List ℕ → List ℕ → Type 0
Flow received pending =
    ((received ≡ []) × (pending ≡ []))
    ⊎ (((received ≡ []) × (pending ≡ b'A' ∷ [])) ⊎ ((received ≡ b'A' ∷ []) × (pending ≡ [])))

-- What the client's state tells.
abbrev pub ClientAt : Client → View → List ℕ → Type 0
ClientAt connecting v received =
    (v.is_shut ≡ false) × (v.pending ≡ []) × (received ≡ []) × (v.backlog ≡ false)
ClientAt sending v received = (v.is_shut ≡ false) × (v.pending ≡ []) × (received ≡ [])
ClientAt sending_late v received = v.is_shut ≡ true
ClientAt (Client.returned (pos n)) v received = (v.is_shut ≡ true) × (n ≡ 0)
ClientAt _ v received = v.is_shut ≡ false

-- What the server's state tells, with whether the client is yet to connect.
abbrev pub ServerAt : Server → Bool → Bool → List ℕ → ℕ → Type 0
ServerAt accepting early backlog received served =
    ((served ≡ 0) × (received ≡ []))
    ⊎ ((served ≡ 1) × (received ≡ b'A' ∷ []) × (early ≡ false) × (backlog ≡ false))
ServerAt receiving early backlog received served =
    (served ≡ 0) × (received ≡ []) × (early ≡ false) × (backlog ≡ false)
ServerAt (Server.returned k) early backlog received served =
    (served ≤ 1) × (served ≡ 1 → received ≡ b'A' ∷ [])
ServerAt Server.aborted early backlog received served =
    (served ≤ 1) × (served ≡ 1 → received ≡ b'A' ∷ [])
ServerAt _ early backlog received served =
    (served ≡ 0) × (received ≡ b'A' ∷ []) × (early ≡ false) × (backlog ≡ false)

-- All of it.
abbrev pub Sound : Client → Server → View → List ℕ → ℕ → Type 0
Sound c s v received served =
    Flow received v.pending
    × ClientAt c v received
    × ServerAt s (is_connecting c) v.backlog received served

is_zero-eq : (k : ℤ) → is_zero k ≡ true → k ≡ pos 0
is_zero-eq (pos n) e = ap pos (ground arith)
is_zero-eq (negsuc n) e = absurd cc

is_zero-ne : (k : ℤ) → is_zero k ≡ false → k ≢ pos 0
is_zero-ne k e z = absurd (cc (ap is_zero z))

pub is_one-eq : (k : ℤ) → is_one k ≡ true → k ≡ pos 1
is_one-eq (pos n) e = ap pos (ground arith)
is_one-eq (negsuc n) e = absurd cc

pub is_one-ne : (k : ℤ) → is_one k ≡ false → k ≢ pos 1
is_one-ne k e z = absurd (cc (ap is_one z))

-- The client connects: the server has served nobody.
ServerAt-connected :
    (s : Server) (before after : Bool) (received : List ℕ) (served : ℕ)
    → ServerAt s true before received served
    → ServerAt s false after received served
ServerAt-connected accepting before after received served (inl h) = inl h
ServerAt-connected accepting before after received served (inr (_, _, e, _)) = absurd cc
ServerAt-connected (Server.returned k) before after received served h = h
ServerAt-connected Server.aborted before after received served h = h
ServerAt-connected receiving before after received served (_, _, e, _) = absurd cc
ServerAt-connected replying before after received served (_, _, e, _) = absurd cc
ServerAt-connected at_end before after received served (_, _, e, _) = absurd cc
ServerAt-connected closing before after received served (_, _, e, _) = absurd cc

module _ (s : Server) (v : View) (received : List ℕ) (served : ℕ) where
  abbrev With : Client → View → Type 0
  With c w = Sound c s w received served

  pub client_connected-Sound :
      (k : ℤ) (v' : View)
      → With connecting v
      → (k ≡ pos 0 → v' ≡ record v { backlog = true })
      → (k ≢ pos 0 → v' ≡ v)
      → With (client_connected k) v'
  unfolding client_connected
  client_connected-Sound k v' (f, (a, b, c, d), h) made fails =
      if_both (λ x. With x v') (is_zero k)
        (λ e.
          subst (With sending) (sym (made (is_zero-eq k e)))
            (f, (a, b, c), ServerAt-connected s v.backlog true received served h))
        (λ e.
          subst (With (Client.returned (negsuc 0))) (sym (fails (is_zero-ne k e)))
            (f, a, ServerAt-connected s v.backlog v.backlog received served h))

  pub client_sent-Sound :
      (k : ℤ) (v' : View)
      → With sending v
      → (k ≡ pos 1 → v' ≡ record v { pending = v.pending ++ (b'A' ∷ []) })
      → (k ≢ pos 1 → v' ≡ v)
      → With (client_sent k) v'
  unfolding client_sent
  client_sent-Sound k v' (f, (a, b, c), h) made fails =
      if_both (λ x. With x v') (is_one k)
        (λ e.
          subst (With shutting) (sym (made (is_one-eq k e)))
            (inr (inl (c, ap (λ l. l ++ (b'A' ∷ [])) b)), a, h))
        (λ e. subst (With Client.aborted) (sym (fails (is_one-ne k e))) (f, a, h))

  pub client_shut-Sound :
      (k : ℤ) (v' : View)
      → With shutting v
      → (k ≡ pos 0 → v' ≡ record v { is_shut = true })
      → (k ≢ pos 0 → v' ≡ v)
      → With (client_shut k) v'
  unfolding client_shut
  client_shut-Sound k v' (f, c, h) made fails =
      if_both (λ x. With x v') (is_zero k)
        (λ e. subst (With sending_late) (sym (made (is_zero-eq k e))) (f, refl, h))
        (λ e. subst (With Client.aborted) (sym (fails (is_zero-ne k e))) (f, c, h))

  pub client_sent_late-Sound :
      (k : ℤ) (errno : ℕ) (v' : View)
      → With sending_late v
      → (k ≡ negsuc 0) × (0 < errno)
      → (k ≢ pos 1 → v' ≡ v)
      → With (client_sent_late k errno) v'
  unfolding client_sent_late
  client_sent_late-Sound k errno v' (f, c, h) (late, positive) fails =
      subst (λ x. With x v') (sym returned)
        (subst (With (Client.returned (pos 0))) (sym (fails (λ e. absurd cc))) (f, (c, refl), h))
    where
      returned : client_sent_late k errno ≡ Client.returned (pos 0)
      returned = rw late (ground arith)

-- What the server has received and served, wherever it is.
pub ServerAt-over :
    (s : Server) (early backlog : Bool) (received : List ℕ) (served : ℕ)
    → ServerAt s early backlog received served
    → (served ≤ 1) × (served ≡ 1 → received ≡ b'A' ∷ [])
ServerAt-over accepting early backlog received served (inl (z, e)) =
    (omega arith, λ o. absurd (omega arith))
ServerAt-over accepting early backlog received served (inr (o, e, _, _)) = (omega arith, λ _. e)
ServerAt-over (Server.returned k) early backlog received served h = h
ServerAt-over Server.aborted early backlog received served h = h
ServerAt-over receiving early backlog received served (z, e, _, _) =
    (omega arith, λ o. absurd (omega arith))
ServerAt-over replying early backlog received served (z, e, _, _) = (omega arith, λ _. e)
ServerAt-over at_end early backlog received served (z, e, _, _) = (omega arith, λ _. e)
ServerAt-over closing early backlog received served (z, e, _, _) = (omega arith, λ _. e)
