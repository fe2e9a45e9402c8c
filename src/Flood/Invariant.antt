-- ===== src/Flood/Invariant.antt =====
-- src/main/paisa/HttpFlood.c: the invariant of the event loop, from `initStuff` on.
use unspecified_garbage.Common.{
  ℕ, zero, suc, ◌+◌, ◌-◌, ◌^◌, ◌≤◌, ◌<◌, ◌≡◌, refl, sym, ap, arith, Bool, List, [], ◌∷◌, some,
  length, get_elem?, remove_at, length-remove_at, All, pos,
}
use mathlib.Core.Path.{subst}
use unspecified_garbage.Flood.Args.{Args}
use unspecified_garbage.Flood.Loop.{
  Timespec, Floats, Line, Flood, pos_part, send_another_request, start_clients, Boot, init_stuff,
  booted, Event, step, run,
}
use unspecified_garbage.Flood.Rule.{
  OnNext, OnNext-bind, OnNext-both, OnNext-assert, sent, answered, printed, send-OnNext,
  print-OnNext, step-OnNext,
}
use unspecified_garbage.Flood.Potential.{Paid, step-Paid}

-- Each of `n` clients waits for a response or for its timer, which is at most `pause` ahead; the requests are those
-- that are on their way, those in the counter, and those that a progress line has taken; the counter is an
-- `int`; and the progress has its timer.
pub record Inv (n pause : ℕ) (s : Flood) : Type 0 where
  pub clients : s.in_flight + length s.timers ≡ n
  pub dues : All (λ due. due ≤ s.now + pause) s.timers
  pub counted : s.started ≡ s.in_flight + s.num_req_done + s.taken
  pub fits : s.num_req_done < 2 ^ 31
  pub pending : (due : ℕ) × (s.progress_due ≡ some due)

All-later :
    (now later pause : ℕ) (dues : List ℕ)
    → now ≤ later
    → All (λ due. due ≤ now + pause) dues
    → All (λ due. due ≤ later + pause) dues
All-later now later pause [] h a = tt
All-later now later pause (due ∷ dues) h a =
    (omega (arith, a.0), All-later now later pause dues h a.1)

module _ (P : ℕ → Type 0) where
  All-remove_at : (dues : List ℕ) (k : ℕ) → All P dues → All P (remove_at dues k)
  unfolding remove_at
  All-remove_at [] k a = tt
  All-remove_at (due ∷ dues) zero a = a.1
  All-remove_at (due ∷ dues) (suc k) a = (a.0, All-remove_at dues k a.1)

module _ (app : Args) (n pause : ℕ) (p : app.pause_ms ≡ pos pause) where
  module _ (s : Flood) (v : Inv n pause s) where
    sends-Inv :
        (k : ℕ) {due : ℕ}
        → get_elem? s.timers k ≡ some due
        → Inv n pause (sent (record s { timers = remove_at s.timers k }))
    sends-Inv k g = record {
      clients = omega (arith, v.clients, length-remove_at s.timers k g);
      dues = All-remove_at (λ due. due ≤ s.now + pause) s.timers k v.dues;
      counted = omega (arith, v.counted);
      fits = v.fits;
      pending = v.pending;
    }

    answers-Inv : 0 < s.in_flight → s.num_req_done < 2 ^ 31 - 1 → Inv n pause (answered app s)
    answers-Inv h r =
        let e : pos_part app.pause_ms ≡ pause = ap pos_part p in
        record {
          clients = omega (arith, v.clients, h);
          dues = (omega (arith, e), v.dues);
          counted = omega (arith, v.counted, h);
          fits = omega (arith, r);
          pending = v.pending;
        }

    pub prints-Inv : (t : Timespec) (line : Line) → Inv n pause (printed app t line s)
    prints-Inv t line = record {
      clients = v.clients;
      dues = v.dues;
      counted = omega (arith, v.counted);
      fits = omega arith;
      pending = (_, refl);
    }

    pub step-Inv : (floats : Floats) (e : Event) → OnNext (Inv n pause) (step floats app e s)
    step-Inv floats e = step-OnNext (Inv n pause) s floats app e (record {
      ticks = λ ms. record {
        clients = v.clients;
        dues = All-later s.now (s.now + ms) pause s.timers (omega arith) v.dues;
        counted = v.counted;
        fits = v.fits;
        pending = v.pending;
      };
      sends = λ k g _. sends-Inv k g;
      tells = λ code. record {
        clients = v.clients;
        dues = v.dues;
        counted = v.counted;
        fits = v.fits;
        pending = v.pending;
      };
      stays = v;
      answers = λ h r. answers-Inv h r;
      prints = λ t line. prints-Inv t line;
    })

  -- What a run from `s` has.
  abbrev pub Since : Flood → Flood → Type 0
  Since s t = Inv n pause t × Paid pause s t

  pub run-Since :
      (floats : Floats) (es : List Event) (s t : Flood)
      → Since s t
      → OnNext (Since s) (run floats app es t)
  unfolding run
  run-Since floats [] s t h = h
  run-Since floats (e ∷ es) s t h =
      OnNext-bind (Since s) (Since s) (step floats app e t) (λ u. run floats app es u)
        (OnNext-both (Inv n pause) (Paid pause t) (Since s) (step floats app e t)
          (step-Inv t h.0 floats e) (step-Paid app pause p t floats e)
          (λ u i c. (i, omega (arith, h.1, c))))
        (λ u k. run-Since floats es s u k)

-- While `initStuff` starts the clients: `i` requests, and the progress has its timer.
pub record Starting (i : ℕ) (s : Flood) : Type 0 where
  pub at_zero : s.now ≡ 0
  pub no_timers : s.timers ≡ []
  pub flying : s.in_flight ≡ i
  pub all_started : s.started ≡ i
  pub none_done : s.num_req_done ≡ 0
  pub none_taken : s.taken ≡ 0
  pub has_progress : (due : ℕ) × (s.progress_due ≡ some due)

start_clients-Starting :
    (k : ℕ) (is_made : ℕ → Bool) (i : ℕ) (s : Flood)
    → Starting i s
    → OnNext (Starting (i + k)) (start_clients k is_made i s)
unfolding start_clients
start_clients-Starting zero is_made i s h = subst (λ j. Starting j s) (omega arith) h
start_clients-Starting (suc k) is_made i s h =
    OnNext-bind (Starting (i + 1)) (Starting (i + suc k))
      (send_another_request (pos 0) (is_made i) s) (start_clients k is_made (i + 1))
      (send-OnNext (Starting (i + 1)) s (pos 0) (is_made i) (record {
        at_zero = h.at_zero;
        no_timers = h.no_timers;
        flying = omega (arith, h.flying);
        all_started = omega (arith, h.all_started);
        none_done = h.none_done;
        none_taken = h.none_taken;
        has_progress = h.has_progress;
      }))
      (λ t g.
        subst (λ j. OnNext (Starting j) (start_clients k is_made (i + 1) t)) (omega arith)
          (start_clients-Starting k is_made (i + 1) t g))

pub Starting-Inv : (n pause : ℕ) (s : Flood) → Starting n s → Inv n pause s
Starting-Inv n pause s h = record {
  clients = omega (arith, h.flying, ap length h.no_timers);
  dues = subst (All (λ due. due ≤ s.now + pause)) (sym h.no_timers) tt;
  counted = omega (arith, h.all_started, h.flying, h.none_done, h.none_taken);
  fits = omega (arith, h.none_done);
  pending = h.has_progress;
}

pub init_stuff-Starting :
    (floats : Floats) (app : Args) (n : ℕ) (boot : Boot)
    → app.nclients ≡ pos n
    → OnNext (Starting n) (init_stuff floats app boot booted)
unfolding init_stuff
init_stuff-Starting floats app n boot c = OnNext-assert (Starting n) boot.mutex _ (
    OnNext-bind (Starting 0) (Starting n) _ _
      (print-OnNext (Starting 0) booted floats app (pos 0) boot.lock boot.unlock boot.clock
        (λ t line. record {
          at_zero = refl;
          no_timers = refl;
          flying = refl;
          all_started = refl;
          none_done = refl;
          none_taken = refl;
          has_progress = (_, refl);
        }))
      (λ s h.
        subst (λ k. OnNext (Starting n) (start_clients k boot.is_made 0 s)) (sym (ap pos_part c))
          (subst (λ j. OnNext (Starting j) (start_clients n boot.is_made 0 s)) (omega arith)
            (start_clients-Starting n boot.is_made 0 s h))))
