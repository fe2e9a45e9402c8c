-- ===== src/Flood/Pace.antt =====
-- src/main/paisa/HttpFlood.c: how the program ends, and how fast it sends.
use unspecified_garbage.Common.{
  ℕ, ◌+◌, ◌*◌, ◌≤◌, ◌≡◌, refl, sym, ap, ◌∙◌, arith, Bool, true, false, List, [], ◌∷◌, ◌++◌, Option,
  none, some, if◌then◌else◌, Bytes, Scanned, pos,
}
use mathlib.Core.Path.{subst}
use unspecified_garbage.Flood.Args.{Args, parse_args}
use unspecified_garbage.Flood.Loop.{
  Floats, Flood, Next, next, aborted, overflown, disabled, ◌>>=◌, Boot, init_stuff, booted, Event,
  step, run, is_done, exited, running, outcome_of, main,
}
use unspecified_garbage.Flood.Rule.{OnNext, OnNext-elim, OnNext-bind, OnNext-both}
use unspecified_garbage.Flood.Potential.{potential, potential_fresh, potential_bounds}
use unspecified_garbage.Flood.Invariant.{
  Inv, Since, run-Since, Starting, Starting-Inv, init_stuff-Starting,
}

run-append :
    (floats : Floats) (app : Args) (es more : List Event) (n : Next)
    → (n >>= λ s. run floats app (es ++ more) s)
      ≡ ((n >>= λ s. run floats app es s) >>= λ s. run floats app more s)
unfolding run
run-append floats app es more aborted = refl
run-append floats app es more overflown = refl
run-append floats app es more disabled = refl
run-append floats app [] more (next s) = refl
run-append floats app (e ∷ es) more (next s) = run-append floats app es more (step floats app e s)

module _ (floats : Floats) (boot : Boot) where
  -- The loop after `events`, for settings that are accepted.
  abbrev pub after : Args → List Event → Next
  after app events = init_stuff floats app boot booted >>= λ s. run floats app events s

  -- What holds there.
  abbrev pub Ahead : ℕ → ℕ → Flood → Type 0
  Ahead n pause t = Inv n pause t × (t.started * pause ≤ potential pause t)

  pub after-Ahead :
      (app : Args) (n pause : ℕ)
      → app.nclients ≡ pos n
      → app.pause_ms ≡ pos pause
      → (events : List Event) → OnNext (Ahead n pause) (after app events)
  after-Ahead app n pause c p events =
      OnNext-bind (Starting n) (Ahead n pause) _ _ (init_stuff-Starting floats app n boot c) (λ s h.
        go s h (run floats app events s)
          (run-Since app n pause p floats events s s (Starting-Inv n pause s h, omega arith)))
    where
      go :
          (s : Flood)
          → Starting n s
          → (m : Next) → OnNext (Since app n pause p s) m
          → OnNext (Ahead n pause) m
      go s h m r =
          let fresh = potential_fresh pause s h.no_timers h.at_zero in
          let flying = ap (λ k. k * pause) h.flying in
          let sent = ap (λ k. k * pause) h.all_started in
          OnNext-both (Since app n pause p s) (Since app n pause p s) (Ahead n pause) m r r
            (λ t k _. (k.0, omega (arith, k.1, fresh, flying, sent)))

outcome_of-running :
    (app app' : Args) (n : Next) {s : Flood}
    → outcome_of app n ≡ running app' s
    → (app ≡ app') × (n ≡ next s)
outcome_of-running app app' (next t) {s} e = go (is_done t) e
  where
    go :
        (b : Bool)
        → (if b then exited 0 else running app t) ≡ running app' s
        → (app ≡ app') × (next t ≡ next s)
    go true q = absurd cc
    go false q = (cc, cc)
outcome_of-running app app' aborted e = absurd cc
outcome_of-running app app' overflown e = absurd cc
outcome_of-running app app' disabled e = absurd cc

module _ (floats : Floats) (strtol : Bytes → Scanned) (boot : Boot) (args : List Bytes) where
  main-running :
      (events : List Event) {app : Args} {s : Flood}
      → main floats strtol boot events args ≡ running app s
      → (parse_args strtol args ≡ some app) × (after floats boot app events ≡ next s)
  unfolding main
  main-running events {app} {s} e = parsed (parse_args strtol args) e
    where
      accepted :
          (app' : Args) (b : Bool)
          → (if b then exited 1 else outcome_of app' (after floats boot app' events))
            ≡ running app s
          → (some app' ≡ some app) × (after floats boot app events ≡ next s)
      accepted app' true q = absurd cc
      accepted app' false q =
          let r = outcome_of-running app' app _ q in
          (ap some r.0, subst (λ a. after floats boot a events ≡ next s) r.0 r.1)

      parsed :
          (o : Option Args)
          → (elim o [
            | none ↦ exited 1
            | some app' ↦
                if app'.is_help then exited 1 else outcome_of app' (after floats boot app' events)
          ])
            ≡ running app s
          → (o ≡ some app) × (after floats boot app events ≡ next s)
      parsed none q = absurd cc
      parsed (some app') q = accepted app' app'.is_help q

  -- While the program runs, with `n` clients and a pause of `pause` milliseconds: each client waits for a response or
  -- for its timer, so the requests on their way and the timers are `n` together; no timer is further ahead
  -- than the pause; every request is on its way, in the counter, or in what the progress lines took off it, once; the
  -- counter is an `int`; and the progress has its timer.
  pub main-Inv :
      (events : List Event) {app : Args} {s : Flood} (n pause : ℕ)
      → app.nclients ≡ pos n
      → app.pause_ms ≡ pos pause
      → main floats strtol boot events args ≡ running app s
      → Inv n pause s
  main-Inv events {app} {s} n pause c p e =
      (OnNext-elim (Ahead floats boot n pause) (main-running events e).1
        (after-Ahead floats boot app n pause c p events)).0

  -- A run goes on from where its first events have led.
  continues :
      (events more : List Event) {app app' : Args} {s t : Flood}
      → main floats strtol boot events args ≡ running app s
      → main floats strtol boot (events ++ more) args ≡ running app' t
      → (after floats boot app (events ++ more) ≡ next t) × (run floats app more s ≡ next t)
  continues events more {app} {app'} {s} {t} e f =
      let r = main-running events e in
      let q = main-running (events ++ more) f in
      let same : app' ≡ app = cc in
      let whole = subst (λ a. after floats boot a (events ++ more) ≡ next t) same q.1 in
      (
        whole,
        sym (ap (λ m. m >>= run floats app more) r.1)
            ∙ sym (run-append floats app events more (init_stuff floats app boot booted))
            ∙ whole,
      )

  -- While the program runs, with `n` clients and a pause of `pause` milliseconds, from its start to any moment and
  -- between any two moments: the requests that are sent, times the pause, are at most `n` times the time that has
  -- gone by and one more pause.
  pub main-pace :
      (events more : List Event) {app app' : Args} {s t : Flood} (n pause : ℕ)
      → app.nclients ≡ pos n
      → app.pause_ms ≡ pos pause
      → main floats strtol boot events args ≡ running app s
      → main floats strtol boot (events ++ more) args ≡ running app' t
      → (t.started * pause ≤ n * (t.now + pause))
        × (t.started * pause + n * s.now ≤ s.started * pause + n * (t.now + pause))
  main-pace events more {app} {app'} {s} {t} n pause c p e f =
      let r = main-running events e in
      let v = main-Inv events n pause c p e in
      let w =
        OnNext-elim (Ahead floats boot n pause) (continues events more e f).0
          (after-Ahead floats boot app n pause c p (events ++ more)) in
      let paid =
        OnNext-elim (Since app n pause p s) (continues events more e f).1
          (run-Since app n pause p floats more s s (v, omega arith)) in
      let low = rw v.clients at (potential_bounds pause s v.dues).0 in
      let high = rw w.0.clients at (potential_bounds pause t w.0.dues).1 in
      omega (arith, w.1, high, low, paid.1)
