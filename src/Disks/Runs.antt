-- ===== src/Disks/Runs.antt =====
-- src/main/c/paisa-fleet/FindFullDisks.c: what a run keeps.
use unspecified_garbage.Common.{
  ◌≡◌, refl, sym, Bool, List, [], ◌∷◌, ◌++◌, append_assoc, append-nil, Bytes, ℤ,
}
use mathlib.Core.Path.{subst}
use unspecified_garbage.Disks.State.{Loop}
use unspecified_garbage.Disks.Loop.{
  Next, next, aborted, undefined, disabled, Event, task, row, write_done, close_done, stdout,
  joined, step, run,
}
use unspecified_garbage.Disks.OnNext.{rows_of, seen, OnNext}
use unspecified_garbage.Disks.Steps.{Good, step-Good}

seen-rows :
    (e : Event) (es : List Event) (rows : List (List Bytes))
    → seen e rows ++ rows_of es ≡ rows ++ rows_of (e ∷ es)
seen-rows (row memory columns) es rows = append_assoc rows (columns ∷ []) (rows_of es)
seen-rows (task opened written n) es rows = refl
seen-rows (write_done n) es rows = refl
seen-rows close_done es rows = refl
seen-rows (stdout k buf) es rows = refl
seen-rows (joined k) es rows = refl

module _ (new_process : List Bytes → Bool) (user : Bytes) (port max : ℤ) where
  -- A run keeps what holds between two events.
  pub run-Good :
      (es : List Event) (rows : List (List Bytes)) (s : Loop)
      → Good new_process user port max rows s
      → OnNext (Good new_process user port max (rows ++ rows_of es)) (run new_process es s)
  unfolding run
  run-Good [] rows s g = subst (λ r. Good new_process user port max r s) (sym (append-nil rows)) g
  run-Good (e ∷ es) rows s g =
      go (step new_process e s) (step-Good new_process user port max rows s g e)
        (λ t h. run-Good es (seen e rows) t h)
    where
      go :
          (n : Next)
          → OnNext (Good new_process user port max (seen e rows)) n
          → ((t : Loop)
              → Good new_process user port max (seen e rows) t
              → OnNext
                  (Good new_process user port max (seen e rows ++ rows_of es))
                  (run new_process es t))
          → OnNext
              (Good new_process user port max (rows ++ rows_of (e ∷ es)))
              (elim n [ next t ↦ run new_process es t | stopped ↦ stopped ])
      go (next t) h r =
          subst (λ q. OnNext (Good new_process user port max q) (run new_process es t))
            (seen-rows e es rows) (r t h)
      go aborted h r = tt
      go undefined h r = tt
      go disabled h r = tt
