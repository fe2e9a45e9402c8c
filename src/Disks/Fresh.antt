-- ===== src/Disks/Fresh.antt =====
-- src/main/c/paisa-fleet/FindFullDisks.c: the event loop as `main` enters it.
use unspecified_garbage.Common.{
  to_int, ◌≡◌, refl, sym, ap, arith, Bool, true, false, List, [], ◌∷◌, Option, none, some, Bytes,
  length, All, inl, bytes_eq, codes, if_both, ℤ, pos, negsuc, Strtol,
}
use mathlib.Core.Path.{subst}
use unspecified_garbage.Disks.State.{App}
use unspecified_garbage.Disks.Args.{defaults, is_some, parse_loop, parse_args}
use unspecified_garbage.Disks.Loop.{user_of, entered}
use unspecified_garbage.Disks.Invariant.{AtMost, Fits, Inv}
use unspecified_garbage.Disks.Live.{Live}

-- No device yet.
pub record Fresh (app : App) : Type 0 where
  pub no_devices : app.devices ≡ []
  pub no_cap : app.devices_cap ≡ 0
  pub none_triggered : app.i_device ≡ 0
  pub none_running : app.num_in_progress ≡ 0
  pub not_failed : app.has_failed ≡ false

abbrev OnSome : (App → Type 0) → Option App → Type 0
OnSome P none = Unit
OnSome P (some app) = P app

module _ (strtol : Bytes → Strtol) where
  parse_loop-Fresh :
      (app : App) (args : List Bytes) → Fresh app → OnSome Fresh (parse_loop strtol app args)
  unfolding parse_loop
  parse_loop-Fresh app [] f = if_both (OnSome Fresh) (is_some app.ssh_user) (λ _. f) (λ _. tt)
  parse_loop-Fresh app (arg ∷ []) f =
      if_both (OnSome Fresh) (bytes_eq arg (codes "--help")) (λ _. fresh_as f)
        (λ _.
          if_both (OnSome Fresh) (bytes_eq arg (codes "--sshUser")) (λ _. tt)
            (λ _.
              if_both (OnSome Fresh) (bytes_eq arg (codes "--sshPort")) (λ _. tt)
                (λ _.
                  if_both (OnSome Fresh) (bytes_eq arg (codes "--maxParallel")) (λ _. tt)
                    (λ _. parse_loop-Fresh app [] f))))
    where
      fresh_as : Fresh app → Fresh (record app { is_help = true })
      fresh_as f = record {
        no_devices = f.no_devices;
        no_cap = f.no_cap;
        none_triggered = f.none_triggered;
        none_running = f.none_running;
        not_failed = f.not_failed;
      }
  parse_loop-Fresh app (arg ∷ value ∷ args) f =
      if_both (OnSome Fresh) (bytes_eq arg (codes "--help"))
        (λ _. kept true app.ssh_user app.ssh_port app.max_parallel)
        (λ _.
          if_both (OnSome Fresh) (bytes_eq arg (codes "--sshUser"))
            (λ _.
              parse_loop-Fresh (record app { ssh_user = some value }) args
                (kept app.is_help (some value) app.ssh_port app.max_parallel))
            (λ _.
              if_both (OnSome Fresh) (bytes_eq arg (codes "--sshPort"))
                (λ _.
                  if_both (OnSome Fresh) (strtol value).is_error (λ _. tt)
                    (λ _.
                      parse_loop-Fresh (record app { ssh_port = to_int (strtol value).value }) args
                        (kept app.is_help app.ssh_user (to_int (strtol value).value)
                          app.max_parallel)))
                (λ _.
                  if_both (OnSome Fresh) (bytes_eq arg (codes "--maxParallel"))
                    (λ _.
                      if_both (OnSome Fresh) (strtol value).is_error (λ _. tt)
                        (λ _.
                          parse_loop-Fresh
                            (record app { max_parallel = to_int (strtol value).value }) args
                            (kept app.is_help app.ssh_user app.ssh_port
                              (to_int (strtol value).value))))
                    (λ _. parse_loop-Fresh app (value ∷ args) f))))
    where
      kept :
          (h : Bool) (u : Option Bytes) (p m : ℤ)
          → Fresh (record app { is_help = h; ssh_user = u; ssh_port = p; max_parallel = m })
      kept h u p m = record {
        no_devices = f.no_devices;
        no_cap = f.no_cap;
        none_triggered = f.none_triggered;
        none_running = f.none_running;
        not_failed = f.not_failed;
      }

  pub parse_args-Fresh :
      (args : List Bytes) {app : App} → parse_args strtol args ≡ some app → Fresh app
  unfolding parse_args
  parse_args-Fresh args e = subst (OnSome Fresh) e (
      parse_loop-Fresh defaults args (record {
        no_devices = refl;
        no_cap = refl;
        none_triggered = refl;
        none_running = refl;
        not_failed = refl;
      }))

AtMost-zero : (max : ℤ) → AtMost max 0
AtMost-zero (pos m) = omega arith
AtMost-zero (negsuc m) = refl

module _ (app : App) (f : Fresh app) where
  no_length : length app.devices ≡ 0
  no_length = ap length f.no_devices

  pub entered-Inv : Inv (user_of app) app.ssh_port app.max_parallel (entered app)
  entered-Inv = record {
    user_kept = refl;
    port_kept = refl;
    max_kept = refl;
    counted = f.none_running;
    capped = subst (AtMost app.max_parallel) (sym f.none_running) (AtMost-zero app.max_parallel);
    triggered = omega (arith, f.none_triggered);
    room = omega (arith, no_length);
    fits = subst (All Fits) (sym f.no_devices) tt;
    in_range = tt;
    commands = rw f.none_triggered refl;
  }

  pub entered-Live : Live (user_of app) app.ssh_port [] (entered app)
  entered-Live = record {
    one_feed = omega arith;
    fed = λ _. inl (omega arith);
    pending = λ e. absurd cc;
    listed = λ _. rw f.no_devices refl;
  }
