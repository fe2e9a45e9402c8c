-- ===== src/Disks/Reach.antt =====
-- src/main/c/paisa-fleet/FindFullDisks.c: what every run of the program has.
use unspecified_garbage.Common.{
  ℕ, ◌≡◌, ◌≢◌, refl, arith, Bool, List, [], Option, none, some, ltb, if_both, Bytes, get_elem?,
  Strtol,
}
use unspecified_garbage.Disks.State.{App, Loop}
use unspecified_garbage.Disks.Args.{parse_args}
use unspecified_garbage.Disks.Loop.{
  Next, next, aborted, disabled, user_of, child_on_joined, Event, joined, entered, step, run,
}
use unspecified_garbage.Disks.Invariant.{Inv}
use unspecified_garbage.Disks.Kept.{running-positive}
use unspecified_garbage.Disks.OnNext.{rows_of, OnNext-elim}
use unspecified_garbage.Disks.Steps.{Good}
use unspecified_garbage.Disks.Runs.{run-Good}
use unspecified_garbage.Disks.Fresh.{parse_args-Fresh, entered-Inv, entered-Live}

module _ (new_process : List Bytes → Bool) (strtol : Bytes → Strtol) (args : List Bytes)
    (events : List Event) (app : App) (p : parse_args strtol args ≡ some app) where
  pub from_entered-Good :
      {s : Loop}
      → run new_process events (entered app) ≡ next s
      → Good new_process (user_of app) app.ssh_port app.max_parallel (rows_of events) s
  from_entered-Good {s} r =
      let f = parse_args-Fresh strtol args p in
      OnNext-elim (Good new_process (user_of app) app.ssh_port app.max_parallel (rows_of events)) r
        (run-Good new_process (user_of app) app.ssh_port app.max_parallel events [] (entered app)
          (entered-Inv app f, entered-Live app f))

  -- After any events, with the options that were given: the counter is the number of children that
  -- run, which is at most `--maxParallel`; the names of each device are shorter than their buffers,
  -- and there is room for the devices; the children that run are those of devices that have been
  -- triggered; and the processes that were started are those of the triggered devices, once each, in the
  -- order of the list.
  pub run-Inv :
      {s : Loop}
      → run new_process events (entered app) ≡ next s
      → Inv (user_of app) app.ssh_port app.max_parallel s
  run-Inv r = (from_entered-Good r).0

  -- The assert of `Child_onJoined` that something is in progress holds whenever a child ends.
  pub joined-no_abort :
      {s : Loop} (k : ℕ)
      → run new_process events (entered app) ≡ next s
      → step new_process (joined k) s ≢ aborted
  unfolding step child_on_joined
  joined-no_abort {s} k r = go (get_elem? s.running k) refl
    where
      go :
          (o : Option ℕ)
          → get_elem? s.running k ≡ o
          → elim o [ none ↦ disabled | some i ↦ child_on_joined k i s ] ≢ aborted
      go none e = λ q. absurd cc
      go (some i) e =
          let h =
            running-positive (user_of app) app.ssh_port app.max_parallel s (run-Inv r) k i e in
          if_both (λ (n : Next). n ≢ aborted) (ltb 0 s.app.num_in_progress) (λ _ q. absurd cc)
            (λ l. absurd (ground arith))
