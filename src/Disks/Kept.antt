-- ===== src/Disks/Kept.antt =====
-- src/main/c/paisa-fleet/FindFullDisks.c: rows, output and the end of a child keep what holds in the
-- event loop.
use unspecified_garbage.Common.{
  remove_at, length-remove_at, ℕ, zero, suc, ◌-◌, ◌≤◌, ◌<◌, ◌≡◌, inl, inr, ◌∙◌, refl, sym, ap,
  arith, List, [], ◌∷◌, map, some, Bytes, length, length-append, take, take-append_le, get_elem?,
  All, All-append, ℤ, pos, negsuc,
}
use mathlib.Core.Path.{subst}
use unspecified_garbage.Disks.State.{Output, Device, App, Task, Parser, Loop}
use unspecified_garbage.Disks.Rows.{on_csv_row}
use unspecified_garbage.Disks.Loop.{set_device}
use unspecified_garbage.Disks.Added.{device_of, Refused, Added, on_csv_row-cases}
use unspecified_garbage.Disks.Invariant.{AtMost, Fits, argv_of, Inv}

module _ (d : Device) where
  pub length-set_device : (xs : List Device) (i : ℕ) → length (set_device xs i d) ≡ length xs
  unfolding set_device
  length-set_device [] i = refl
  length-set_device (x ∷ xs) zero = refl
  length-set_device (x ∷ xs) (suc i) = ap suc (length-set_device xs i)

  All-set_device : (xs : List Device) (i : ℕ) → All Fits xs → Fits d → All Fits (set_device xs i d)
  unfolding set_device
  All-set_device [] i a f = tt
  All-set_device (x ∷ xs) zero a f = (f, a.1)
  All-set_device (x ∷ xs) (suc i) a f = (a.0, All-set_device xs i a.1 f)

  -- A device with the same names has the same argument list.
  map-set_device :
      (user : Bytes) (port : ℤ) (n : ℕ) (xs : List Device) (i : ℕ) (x : Device)
      → get_elem? xs i ≡ some x
      → argv_of user port d ≡ argv_of user port x
      → map (argv_of user port) (take n (set_device xs i d)) ≡ map (argv_of user port) (take n xs)
  unfolding set_device
  map-set_device user port n [] i x g e = absurd cc
  map-set_device user port zero (y ∷ ys) zero x g e = refl
  map-set_device user port (suc n) (y ∷ ys) zero x g e = cc
  map-set_device user port zero (y ∷ ys) (suc i) x g e = refl
  map-set_device user port (suc n) (y ∷ ys) (suc i) x g e =
      ap (◌∷◌ (argv_of user port y)) (map-set_device user port n ys i x g e)

All-get : (xs : List Device) (i : ℕ) {x : Device} → All Fits xs → get_elem? xs i ≡ some x → Fits x
All-get [] i a g = absurd cc
All-get (y ∷ ys) zero {x} a g = subst Fits (some-eq g) a.0
  where
    some-eq : some y ≡ some x → y ≡ x
    some-eq e = cc
All-get (y ∷ ys) (suc i) a g = All-get ys i a.1 g

All-remove_at :
    (n : ℕ) (xs : List ℕ) (k : ℕ) → All (λ i. i < n) xs → All (λ i. i < n) (remove_at xs k)
unfolding remove_at
All-remove_at n [] k a = tt
All-remove_at n (x ∷ xs) zero a = a.1
All-remove_at n (x ∷ xs) (suc k) a = (a.0, All-remove_at n xs k a.1)

AtMost-less : (max : ℤ) (n m : ℕ) → m ≤ n → AtMost max n → AtMost max m
AtMost-less (pos k) n m h a = omega arith
AtMost-less (negsuc k) n m h a = omega arith

module _ (user : Bytes) (port max : ℤ) (s : Loop) (v : Inv user port max s) where
  -- The queue and the parser are free.
  pub queued-Inv :
      (queue : List Task) (parser : Parser)
      → Inv user port max (record s { queue = queue; parser = parser })
  queued-Inv queue parser = record {
    user_kept = v.user_kept;
    port_kept = v.port_kept;
    max_kept = v.max_kept;
    counted = v.counted;
    capped = v.capped;
    triggered = v.triggered;
    room = v.room;
    fits = v.fits;
    in_range = v.in_range;
    commands = v.commands;
  }

  Refused-Inv : (b : App) → Refused s.app b → Inv user port max (record s { app = b })
  Refused-Inv b (c, e, h) =
      subst (λ a. Inv user port max (record s { app = a })) (sym e)
        (record {
          user_kept = v.user_kept;
          port_kept = v.port_kept;
          max_kept = v.max_kept;
          counted = v.counted;
          capped = v.capped;
          triggered = v.triggered;
          room = omega (arith, v.room);
          fits = v.fits;
          in_range = v.in_range;
          commands = v.commands;
        })

  Added-Inv :
      (memory : Output) (b : App) {columns : List Bytes}
      → Added memory s.app columns b
      → Inv user port max (record s { app = b })
  Added-Inv memory b a =
      let d : Device = device_of memory a.eddie a.host in
      let l = length-append s.app.devices (d ∷ []) in
      subst (λ a. Inv user port max (record s { app = a })) (sym a.grown)
        (record {
          user_kept = v.user_kept;
          port_kept = v.port_kept;
          max_kept = v.max_kept;
          counted = v.counted;
          capped = v.capped;
          triggered = omega (arith, v.triggered, l);
          room = omega (arith, a.enough, l);
          fits =
              All-append Fits s.app.devices (d ∷ []) v.fits
                (record { eddie_fits = a.eddie_fits; host_fits = a.host_fits }, tt);
          in_range = v.in_range;
          commands =
              v.commands
              ∙ ap (map (argv_of user port))
                  (sym (take-append_le s.app.i_device s.app.devices (d ∷ []) v.triggered));
        })

  pub on_csv_row-Inv :
      (memory : Output) (columns : List Bytes)
      → Inv user port max (record s { app = on_csv_row memory s.app columns })
  on_csv_row-Inv memory columns = elim (on_csv_row-cases memory s.app columns v.room) [
    | inl r ↦ Refused-Inv (on_csv_row memory s.app columns) r
    | inr (_, r) ↦ Added-Inv memory (on_csv_row memory s.app columns) r
  ]

  -- More output of a device that fits.
  pub set_device-Inv :
      (i : ℕ) (d : Device) (output : Output)
      → get_elem? s.app.devices i ≡ some d
      → Inv user port max (record s {
        app = record s.app { devices = set_device s.app.devices i (record d { stdout = output }) };
      })
  set_device-Inv i d output g =
      let x : Device = record d { stdout = output } in
      let f = All-get s.app.devices i v.fits g in
      record {
        user_kept = v.user_kept;
        port_kept = v.port_kept;
        max_kept = v.max_kept;
        counted = v.counted;
        capped = v.capped;
        triggered = omega (arith, v.triggered, length-set_device x s.app.devices i);
        room = omega (arith, v.room, length-set_device x s.app.devices i);
        fits =
            All-set_device x s.app.devices i v.fits
              (record { eddie_fits = f.eddie_fits; host_fits = f.host_fits });
        in_range = v.in_range;
        commands =
            v.commands ∙ sym (map-set_device x user port s.app.i_device s.app.devices i d g refl);
      }

  -- A child less.
  pub remove_at-Inv :
      (k i : ℕ) (queue : List Task)
      → get_elem? s.running k ≡ some i
      → Inv user port max (record s {
        app = record s.app { num_in_progress = s.app.num_in_progress - 1 };
        running = remove_at s.running k;
        queue = queue;
      })
  remove_at-Inv k i queue g = record {
    user_kept = v.user_kept;
    port_kept = v.port_kept;
    max_kept = v.max_kept;
    counted = omega (arith, v.counted, length-remove_at s.running k g);
    capped =
        AtMost-less max s.app.num_in_progress (s.app.num_in_progress - 1) (omega arith) v.capped;
    triggered = v.triggered;
    room = v.room;
    fits = v.fits;
    in_range = All-remove_at s.app.i_device s.running k v.in_range;
    commands = v.commands;
  }

  -- With a child that runs, the assert of `Child_onJoined` holds.
  pub running-positive : (k i : ℕ) → get_elem? s.running k ≡ some i → 0 < s.app.num_in_progress
  running-positive k i g = omega (arith, v.counted, length-remove_at s.running k g)
