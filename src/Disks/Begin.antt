-- ===== src/Disks/Begin.antt =====
-- src/main/c/paisa-fleet/FindFullDisks.c: what beginNextDevice keeps.
use unspecified_garbage.Common.{
  suc, ◌+◌, ◌≤◌, ◌≡◌, ◌≢◌, ◌⊎◌, inl, inr, ◌∙◌, refl, sym, ap, arith, Bool, true, false, List, [],
  ◌∷◌, none, some, Bytes, length, drop, ℤ, Bool-cases, Option-cases,
}
use mathlib.Core.Path.{subst}
use unspecified_garbage.Disks.State.{Device, Loop}
use unspecified_garbage.Disks.Loop.{
  Next, next, aborted, is_full, child_started, command_for, begin_loop, begin_next_device,
}
use unspecified_garbage.Disks.Invariant.{Inv, drop-cons, drop-empty, child_started-Inv}

-- As many devices have been started as can be.
pub record Began (s t : Loop) : Type 0 where
  pub queue_kept : t.queue ≡ s.queue
  pub parser_kept : t.parser ≡ s.parser
  pub devices_kept : t.app.devices ≡ s.app.devices
  pub failed_kept : t.app.has_failed ≡ s.app.has_failed
  pub no_more : (is_full t.app ≡ true) ⊎ (length t.app.devices ≤ t.app.i_device)

next-injective : {s t : Loop} → next s ≡ next t → s ≡ t
next-injective e = cc

Began-earlier : {s t : Loop} (argv : List Bytes) → Began (child_started s argv) t → Began s t
Began-earlier argv b = record {
  queue_kept = b.queue_kept;
  parser_kept = b.parser_kept;
  devices_kept = b.devices_kept;
  failed_kept = b.failed_kept;
  no_more = b.no_more;
}

module _ (new_process : List Bytes → Bool) (d : Device) (ds : List Device) (s : Loop) where
  begin_loop-full : is_full s.app ≡ true → begin_loop new_process (d ∷ ds) s ≡ next s
  unfolding begin_loop
  begin_loop-full f = rw (f, begin_loop)

  begin_loop-unfit :
      is_full s.app ≡ false
      → command_for s.app d ≡ none
      → begin_loop new_process (d ∷ ds) s ≡ aborted
  unfolding begin_loop
  begin_loop-unfit f c = rw (f, c, begin_loop)

  begin_loop-refused :
      (argv : List Bytes)
      → is_full s.app ≡ false
      → command_for s.app d ≡ some argv
      → new_process argv ≡ false
      → begin_loop new_process (d ∷ ds) s ≡ aborted
  unfolding begin_loop
  begin_loop-refused argv f c p = rw (f, c, p, begin_loop)

  begin_loop-started :
      (argv : List Bytes)
      → is_full s.app ≡ false
      → command_for s.app d ≡ some argv
      → new_process argv ≡ true
      → begin_loop new_process (d ∷ ds) s ≡ begin_loop new_process ds (child_started s argv)
  unfolding begin_loop
  begin_loop-started argv f c p = rw (f, c, p, begin_loop)

aborted-ne-next : {n : Next} {t : Loop} → n ≡ aborted → n ≢ next t
aborted-ne-next a e = cc

module _ (new_process : List Bytes → Bool) (user : Bytes) (port max : ℤ) where
  begin_loop-Inv :
      (ds : List Device) (s : Loop) {t : Loop}
      → drop s.app.i_device s.app.devices ≡ ds
      → Inv user port max s
      → begin_loop new_process ds s ≡ next t
      → Inv user port max t × Began s t
  unfolding begin_loop
  begin_loop-Inv [] s {t} e v b =
      subst (λ u. Inv user port max u × Began s u) (next-injective b)
        (
          v,
          record {
            queue_kept = refl;
            parser_kept = refl;
            devices_kept = refl;
            failed_kept = refl;
            no_more = inr (drop-empty s.app.i_device s.app.devices e);
          },
        )
  begin_loop-Inv (d ∷ ds) s {t} e v b = elim (Bool-cases (is_full s.app)) [
    | inl f ↦
        subst (λ u. Inv user port max u × Began s u)
          (next-injective (sym (begin_loop-full new_process d ds s f) ∙ b))
          (
            v,
            record {
              queue_kept = refl;
              parser_kept = refl;
              devices_kept = refl;
              failed_kept = refl;
              no_more = inl f;
            },
          )
    | inr f ↦ elim (Option-cases (command_for s.app d)) [
      | inl c ↦ absurd (aborted-ne-next (begin_loop-unfit new_process d ds s f c) b)
      | inr (argv, c) ↦ elim (Bool-cases (new_process argv)) [
        | inl p ↦
            let (rest, _, _) = drop-cons s.app.i_device s.app.devices e in
            let (inv, began) =
              begin_loop-Inv ds (child_started s argv) {t = t}
                (ap (λ k. drop k s.app.devices) up ∙ rest)
                (child_started-Inv user port max s d ds argv v e f c)
                (sym (begin_loop-started new_process d ds s argv f c p) ∙ b) in
            (inv, Began-earlier argv began)
        | inr p ↦ absurd (aborted-ne-next (begin_loop-refused new_process d ds s argv f c p) b)
      ]
    ]
  ]
    where
      up : s.app.i_device + 1 ≡ suc s.app.i_device
      up = omega arith

  pub begin_next_device-Inv :
      (s : Loop) {t : Loop}
      → Inv user port max s
      → begin_next_device new_process s ≡ next t
      → Inv user port max t × Began s t
  unfolding begin_next_device
  begin_next_device-Inv s v b = begin_loop-Inv (drop s.app.i_device s.app.devices) s refl v b
