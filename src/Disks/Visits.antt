-- ===== src/Disks/Visits.antt =====
-- src/main/c/paisa-fleet/FindFullDisks.c: what it means that the program returns 0.
use unspecified_garbage.Common.{
  take-all, ℕ, suc, ◌≤◌, ◌≡◌, ◌≢◌, inl, inr, ◌∙◌, refl, sym, ap, arith, Bool, true, false, not,
  List, [], ◌∷◌, map, some, if◌then◌else◌, Bytes, length, ℤ, pos, Strtol,
}
use mathlib.Core.Path.{subst}
use unspecified_garbage.Disks.State.{App, Task, Parser, idle, writing, closing, closed, Loop}
use unspecified_garbage.Disks.Args.{parse_args}
use unspecified_garbage.Disks.Loop.{
  Next, next, aborted, undefined, disabled, is_full, is_parsing, user_of, Event, entered, code,
  unfinished, is_quiet, exit_of, run, main,
}
use unspecified_garbage.Disks.Invariant.{argv_of, Inv}
use unspecified_garbage.Disks.Live.{Live, row_argv, feeds, begins}
use unspecified_garbage.Disks.OnNext.{rows_of}
use unspecified_garbage.Disks.Reach.{from_entered-Good}

not_lem : (b : Bool) → not b ≡ true → b ≡ false
not_lem true e = absurd cc
not_lem false e = refl

quiet-empty :
    (s : Loop)
    → is_quiet s ≡ true
    → (s.queue ≡ []) × (s.running ≡ []) × (is_parsing s.parser ≡ false)
quiet-empty s = go s.queue s.running
  where
    go :
        (queue : List Task) (running : List ℕ)
        → elim queue [
          | [] ↦ elim running [ [] ↦ not (is_parsing s.parser) | _ ↦ false ]
          | _ ↦ false
        ]
          ≡ true
        → (queue ≡ []) × (running ≡ []) × (is_parsing s.parser ≡ false)
    go [] [] q = (refl, refl, not_lem (is_parsing s.parser) q)
    go [] (k ∷ ks) q = absurd cc
    go (t ∷ ts) ks q = absurd cc

exit-zero :
    (n : Next)
    → exit_of n ≡ code 0
    → (s : Loop) × (n ≡ next s) × (is_quiet s ≡ true) × (s.app.has_failed ≡ false)
unfolding exit_of
exit-zero (next s) e = go (is_quiet s) s.app.has_failed refl refl e
  where
    go :
        (q f : Bool)
        → is_quiet s ≡ q
        → s.app.has_failed ≡ f
        → (if q then (if f then code 1 else code 0) else unfinished) ≡ code 0
        → (t : Loop) × (next s ≡ next t) × (is_quiet t ≡ true) × (t.app.has_failed ≡ false)
    go true true q f x = absurd cc
    go true false q f x = (s, refl, q, f)
    go false f q g x = absurd cc
exit-zero aborted e = absurd cc
exit-zero undefined e = absurd cc
exit-zero disabled e = absurd cc

not_idle-closed : (p : Parser) → is_parsing p ≡ false → p ≢ idle → p ≡ closed
not_idle-closed idle e i = absurd (i refl)
not_idle-closed writing e i = absurd cc
not_idle-closed closing e i = absurd cc
not_idle-closed closed e i = refl

has_room :
    (app : App) (m : ℕ)
    → app.max_parallel ≡ pos (suc m)
    → app.num_in_progress ≡ 0
    → is_full app ≢ true
unfolding is_full
has_room app m e z f = absurd (ground (arith, e))

module _ (user : Bytes) (port : ℤ) (m : ℕ) (rows : List (List Bytes)) (s : Loop) where
  quiet-visited :
      Inv user port (pos (suc m)) s
      → Live user port rows s
      → is_quiet s ≡ true
      → s.app.has_failed ≡ false
      → s.started ≡ map (row_argv user port) rows
  quiet-visited v l q h =
      let (queue, running, parser) = quiet-empty s q in
      v.commands
      ∙ ap (map (argv_of user port))
          (take-all s.app.i_device s.app.devices (done queue running parser))
      ∙ l.listed h
    where
      done :
          s.queue ≡ []
          → s.running ≡ []
          → is_parsing s.parser ≡ false
          → length s.app.devices ≤ s.app.i_device
      done queue running parser =
          elim (l.pending (
            not_idle-closed s.parser parser (λ i. elim (l.fed i) [
              | inl f ↦ omega (arith, ap feeds queue)
              | inr f ↦ absurd cc
            ]))) [
              | inl b ↦ absurd (omega (arith, ap begins queue))
              | inr (inl full) ↦
                  absurd (has_room s.app m v.max_kept (v.counted ∙ ap length running) full)
              | inr (inr n) ↦ n
            ]

module _ (new_process : List Bytes → Bool) (strtol : Bytes → Strtol) (events : List Event)
    (args : List Bytes) where
  main-runs :
      {app : App}
      → parse_args strtol args ≡ some app
      → app.is_help ≡ false
      → main new_process strtol events args ≡ exit_of (run new_process events (entered app))
  unfolding main
  main-runs {app} p h = rw (p, h, main) refl

  -- Where at least one child may run at a time and the program returns 0, the processes that it has
  -- started are those for the rows of the device list: one for each row, in the order of the rows.
  pub main-visited :
      (app : App) (m : ℕ)
      → parse_args strtol args ≡ some app
      → app.is_help ≡ false
      → app.max_parallel ≡ pos (suc m)
      → main new_process strtol events args ≡ code 0
      → (s : Loop) × (run new_process events (entered app) ≡ next s)
        × (s.started ≡ map (row_argv (user_of app) app.ssh_port) (rows_of events))
  main-visited app m p h x e =
      let (s, r, q, f) =
        exit-zero (run new_process events (entered app)) (sym (main-runs p h) ∙ e) in
      let (inv, live) = from_entered-Good new_process strtol args events app p r in
      (
        s,
        r,
        quiet-visited (user_of app) app.ssh_port m (rows_of events) s
            (subst (λ z. Inv (user_of app) app.ssh_port z s) x inv) live q f,
      )
