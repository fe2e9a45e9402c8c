-- ===== src/Fin/Serving.antt =====
-- src/main/paisa-SendAfterFin/SendAfterFin.c: what the server's calls keep of what the states tell.
use unspecified_garbage.Common.{
  ℕ, ◌+◌, ◌≡◌, ◌≢◌, inl, inr, refl, sym, ap, arith, true, false, List, [], ◌∷◌, if◌then◌else◌,
  if_both, ℤ, pos, negsuc, Bool-cases,
}
use mathlib.Core.Path.{subst}
use unspecified_garbage.Fin.Tcp.{View}
use unspecified_garbage.Fin.Sides.{
  is_zero, is_one, Client, connecting, sending, shutting, sending_late, Server, accepting,
  receiving, replying, at_end, closing, server_accepted, server_received, server_replied,
  server_ended, server_closed,
}
use unspecified_garbage.Fin.Honest.{is_connecting, Flow, ClientAt, Sound, is_one-eq, is_one-ne}

ClientAt-accepted :
    (c : Client) (v : View) (received : List ℕ)
    → ClientAt c v received
    → v.backlog ≡ true
    → (is_connecting c ≡ false) × ClientAt c (record v { backlog = false }) received
ClientAt-accepted connecting v received (_, _, _, e) b = absurd cc
ClientAt-accepted sending v received h b = (refl, h)
ClientAt-accepted shutting v received h b = (refl, h)
ClientAt-accepted sending_late v received h b = (refl, h)
ClientAt-accepted (Client.returned (pos n)) v received h b = (refl, h)
ClientAt-accepted (Client.returned (negsuc n)) v received h b = (refl, h)
ClientAt-accepted Client.aborted v received h b = (refl, h)

ClientAt-received :
    (c : Client) (v : View) (received more : List ℕ) (msg : ℕ) (rest : List ℕ)
    → ClientAt c v received
    → v.pending ≡ msg ∷ rest
    → ClientAt c (record v { pending = rest }) more
ClientAt-received connecting v received more msg rest (_, e, _, _) p = absurd cc
ClientAt-received sending v received more msg rest (_, e, _) p = absurd cc
ClientAt-received shutting v received more msg rest h p = h
ClientAt-received sending_late v received more msg rest h p = h
ClientAt-received (Client.returned (pos n)) v received more msg rest h p = h
ClientAt-received (Client.returned (negsuc n)) v received more msg rest h p = h
ClientAt-received Client.aborted v received more msg rest h p = h

-- What is received by a server that has received nothing is 'A', and nothing is behind it.
Flow-first :
    (received pending : List ℕ) (msg : ℕ) (rest : List ℕ)
    → Flow received pending
    → received ≡ []
    → pending ≡ msg ∷ rest
    → (msg ≡ b'A') × (rest ≡ [])
Flow-first received pending msg rest (inl (_, p)) r q = absurd cc
Flow-first received pending msg rest (inr (inl (_, p))) r q = (cc, cc)
Flow-first received pending msg rest (inr (inr (e, _))) r q = absurd cc

-- Behind 'A' nothing is on its way.
pub Flow-last :
    (received pending : List ℕ) → Flow received pending → received ≡ b'A' ∷ [] → pending ≡ []
Flow-last received pending (inl (_, p)) r = p
Flow-last received pending (inr (inl (e, _))) r = absurd cc
Flow-last received pending (inr (inr (_, p))) r = p

module _ (c : Client) (v : View) (received : List ℕ) (served : ℕ) where
  abbrev With : Server → View → Type 0
  With s w = Sound c s w received served

  pub accepted-Sound :
      (k : ℕ) (v' : View)
      → With accepting v
      → (v.backlog ≡ true) × (v' ≡ record v { backlog = false })
      → With (server_accepted (pos k)) v'
  unfolding server_accepted
  accepted-Sound k v' (f, h, inl (z, e)) (b, q) =
      let (late, h') = ClientAt-accepted c v received h b in
      subst (With receiving) (sym q) (f, h', (z, e, late, refl))
  accepted-Sound k v' (f, h, inr (_, _, _, e)) (b, q) = absurd cc

  pub accept_fails-Sound :
      (k : ℕ) (v' : View) → With accepting v → v' ≡ v → With (server_accepted (negsuc k)) v'
  unfolding server_accepted
  accept_fails-Sound k v' (f, h, inl (z, e)) q =
      subst (With Server.aborted) (sym q) (f, h, (omega arith, λ o. absurd (omega arith)))
  accept_fails-Sound k v' (f, h, inr (o, e, _, _)) q =
      subst (With Server.aborted) (sym q) (f, h, (omega arith, λ _. e))

  pub server_received-Sound :
      (k : ℤ) (msg : ℕ) (v' : View)
      → With receiving v
      → (k ≡ pos 1
          → (rest : List ℕ) × (v.pending ≡ msg ∷ rest) × (v' ≡ record v { pending = rest }))
      → (k ≢ pos 1 → v' ≡ v)
      → Sound c (server_received k msg) v' (if is_one k then msg ∷ received else received) served
  unfolding server_received
  server_received-Sound k msg v' (f, h, (z, e, late, b)) made fails = elim (Bool-cases (is_one k)) [
    | inl o ↦
        let (rest, p, q) = made (is_one-eq k o) in
        let (a, n) = Flow-first received v.pending msg rest f e p in
        rw o (
          subst (λ m. Sound c (server_received (pos 1) m) v' (m ∷ received) served) (sym a)
            (subst (λ w. Sound c replying w (b'A' ∷ received) served) (sym q)
              (
                inr (inr (ap (◌∷◌ b'A') e, n)),
                ClientAt-received c v received (b'A' ∷ received) msg rest h p,
                (z, ap (◌∷◌ b'A') e, late, b),
              )))
    | inr o ↦ rw o (
        subst (With Server.aborted) (sym (fails (is_one-ne k o)))
          (f, h, (omega arith, λ x. absurd (omega arith))))
  ]

  pub server_replied-Sound :
      (k : ℤ) (v' : View) → With replying v → v' ≡ v → With (server_replied k) v'
  unfolding server_replied
  server_replied-Sound k v' (f, h, (z, e, late, b)) q =
      if_both (λ s. With s v') (is_one k) (λ _. subst (With at_end) (sym q) (f, h, (z, e, late, b)))
        (λ _. subst (With Server.aborted) (sym q) (f, h, (omega arith, λ _. e)))

  pub server_ended-Sound :
      (k : ℤ) (msg : ℕ) (v' : View)
      → With at_end v
      → (k ≡ pos 1
          → (rest : List ℕ) × (v.pending ≡ msg ∷ rest) × (v' ≡ record v { pending = rest }))
      → (k ≢ pos 1 → v' ≡ v)
      → Sound c (server_ended k) v' (if is_one k then msg ∷ received else received) served
  unfolding server_ended
  server_ended-Sound k msg v' (f, h, (z, e, late, b)) made fails = elim (Bool-cases (is_one k)) [
    | inl o ↦
        let (rest, p, q) = made (is_one-eq k o) in
        let n = Flow-last received v.pending f e in absurd cc
    | inr o ↦
        let q = sym (fails (is_one-ne k o)) in
        rw o (
          if_both (λ s. With s v') (is_zero k) (λ _. subst (With closing) q (f, h, (z, e, late, b)))
            (λ _. subst (With (Server.returned (negsuc 0))) q (f, h, (omega arith, λ _. e))))
  ]

  pub server_closed-Sound :
      (k : ℤ) (v' : View)
      → With closing v
      → v' ≡ v
      → Sound c (server_closed k) v' received (served + 1)
  unfolding server_closed
  server_closed-Sound k v' (f, h, (z, e, late, b)) q =
      if_both (λ s. Sound c s v' received (served + 1)) (is_zero k)
        (λ _.
          subst (λ w. Sound c accepting w received (served + 1)) (sym q)
            (f, h, inr (omega arith, e, late, b)))
        (λ _.
          subst (λ w. Sound c Server.aborted w received (served + 1)) (sym q)
            (f, h, (omega arith, λ _. e)))
