-- ===== src/Disks/Invariant.antt =====
-- What holds in the event loop of src/main/c/paisa-fleet/FindFullDisks.c, and that the start of a device
-- keeps it.
use unspecified_garbage.Common.{
  up_to_nul, ℕ, zero, suc, ◌+◌, ◌≤◌, ◌<◌, ◌≡◌, inl, inr, ◌∙◌, sym, ap, arith, false, List, [], ◌∷◌,
  ◌++◌, map, some, Bytes, length, length-append, take, drop, All, All-append, ℤ, pos, negsuc,
}
use mathlib.Core.List.{map-append}
use unspecified_garbage.Disks.State.{Device, App, Loop}
use unspecified_garbage.Disks.Rows.{eddie_name_cap, hostname_cap}
use unspecified_garbage.Disks.Visit.{visit_device-cases, child_argv}
use unspecified_garbage.Disks.Loop.{is_full, user_of, child_started, command_for}

-- A number of processes that `maxParallel` allows.
abbrev pub AtMost : ℤ → ℕ → Type 0
AtMost (pos m) n = n ≤ m
AtMost (negsuc m) n = n ≡ 0

-- The names fit their buffers.
pub record Fits (d : Device) : Type 0 where
  pub eddie_fits : length d.eddie_name < eddie_name_cap
  pub host_fits : length d.hostname < hostname_cap

-- The argument list for a device.
abbrev pub argv_of : Bytes → ℤ → Device → List Bytes
argv_of user port d = child_argv user port (up_to_nul d.eddie_name) (up_to_nul d.hostname)

-- Between two events, for the options that were given.
pub record Inv (user : Bytes) (port max : ℤ) (s : Loop) : Type 0 where
  pub user_kept : user_of s.app ≡ user
  pub port_kept : s.app.ssh_port ≡ port
  pub max_kept : s.app.max_parallel ≡ max
  pub counted : s.app.num_in_progress ≡ length s.running
  pub capped : AtMost max s.app.num_in_progress
  pub triggered : s.app.i_device ≤ length s.app.devices
  pub room : length s.app.devices ≤ s.app.devices_cap
  pub fits : All Fits s.app.devices
  pub in_range : All (λ i. i < s.app.i_device) s.running
  pub commands : s.started ≡ map (argv_of user port) (take s.app.i_device s.app.devices)

pub drop-cons {ℓ} :
    {A : Type ℓ} (n : ℕ) (xs : List A) {y : A} {ys : List A}
    → drop n xs ≡ y ∷ ys
    → (drop (suc n) xs ≡ ys) × (take (suc n) xs ≡ take n xs ++ (y ∷ [])) × (n < length xs)
drop-cons zero [] e = absurd cc
drop-cons zero (x ∷ xs) e = (cc, cc, omega arith)
drop-cons (suc n) [] e = absurd cc
drop-cons (suc n) (x ∷ xs) e =
    let (rest, front, below) = drop-cons n xs e in (rest, ap (◌∷◌ x) front, omega arith)

pub drop-empty {ℓ} : {A : Type ℓ} (n : ℕ) (xs : List A) → drop n xs ≡ [] → length xs ≤ n
drop-empty zero [] e = omega arith
drop-empty zero (x ∷ xs) e = absurd cc
drop-empty (suc n) [] e = omega arith
drop-empty (suc n) (x ∷ xs) e = omega (arith, drop-empty n xs e)

All-weaken : (n m : ℕ) (xs : List ℕ) → n ≤ m → All (λ i. i < n) xs → All (λ i. i < m) xs
All-weaken n m [] h a = tt
All-weaken n m (x ∷ xs) h a = (omega (arith, a.0), All-weaken n m xs h a.1)

not_full :
    (app : App) (max : ℤ)
    → app.max_parallel ≡ max
    → is_full app ≡ false
    → AtMost max (app.num_in_progress + 1)
unfolding is_full
not_full app (pos m) e f = ground (arith, e)
not_full app (negsuc m) e f = ground (arith, e)

command-argv :
    (app : App) (d : Device) {argv : List Bytes}
    → command_for app d ≡ some argv
    → argv ≡ argv_of (user_of app) app.ssh_port d
unfolding command_for
command-argv app d {argv} e =
    elim (visit_device-cases (user_of app) app.ssh_port (up_to_nul d.eddie_name)
      (up_to_nul d.hostname)) [ inl n ↦ absurd cc | inr y ↦ cc ]

module _ (user : Bytes) (port max : ℤ) where
  -- The next device has been started.
  pub child_started-Inv :
      (s : Loop) (d : Device) (ds : List Device) (argv : List Bytes)
      → Inv user port max s
      → drop s.app.i_device s.app.devices ≡ d ∷ ds
      → is_full s.app ≡ false
      → command_for s.app d ≡ some argv
      → Inv user port max (child_started s argv)
  child_started-Inv s d ds argv v e f c =
      let (_, t, l) = drop-cons s.app.i_device s.app.devices e in
      let i : ℕ = s.app.i_device in
      let step_up : i + 1 ≡ suc i = omega arith in
      record {
        user_kept = v.user_kept;
        port_kept = v.port_kept;
        max_kept = v.max_kept;
        counted = omega (arith, v.counted, length-append s.running (i ∷ []));
        capped = not_full s.app max v.max_kept f;
        triggered = omega (arith, l);
        room = v.room;
        fits = v.fits;
        in_range =
            All-append (λ k. k < i + 1) s.running (i ∷ [])
              (All-weaken i (i + 1) s.running (omega arith) v.in_range) (omega arith, tt);
        commands =
            ap (λ c. c ++ (argv ∷ [])) v.commands
            ∙ ap (λ a. map (argv_of user port) (take i s.app.devices) ++ (a ∷ [])) same
            ∙ sym (map-append (argv_of user port) (take i s.app.devices) (d ∷ []))
            ∙ ap (map (argv_of user port)) (sym t ∙ ap (λ k. take k s.app.devices) (sym step_up));
      }
    where
      same : argv ≡ argv_of user port d
      same =
          command-argv s.app d c
          ∙ ap (λ u. argv_of u s.app.ssh_port d) v.user_kept
          ∙ ap (λ p. argv_of user p d) v.port_kept
