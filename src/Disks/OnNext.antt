-- ===== src/Disks/OnNext.antt =====
-- src/main/c/paisa-fleet/FindFullDisks.c: the rows of a list of events, and what holds if the loop goes on.
use unspecified_garbage.Common.{◌≡◌, refl, List, [], ◌∷◌, ◌++◌, Bytes}
use mathlib.Core.Path.{subst}
use unspecified_garbage.Disks.State.{Loop}
use unspecified_garbage.Disks.Loop.{
  Next, next, aborted, undefined, disabled, Event, task, row, write_done, close_done, stdout,
  joined,
}

-- The rows that the parser tells of, in order.
abbrev pub rows_of : List Event → List (List Bytes)
rows_of [] = []
rows_of (row memory columns ∷ es) = columns ∷ rows_of es
rows_of (task opened written n ∷ es) = rows_of es
rows_of (write_done n ∷ es) = rows_of es
rows_of (close_done ∷ es) = rows_of es
rows_of (stdout k buf ∷ es) = rows_of es
rows_of (joined k ∷ es) = rows_of es

abbrev pub seen : Event → List (List Bytes) → List (List Bytes)
seen (row memory columns) rows = rows ++ (columns ∷ [])
seen (task opened written n) rows = rows
seen (write_done n) rows = rows
seen close_done rows = rows
seen (stdout k buf) rows = rows
seen (joined k) rows = rows

-- A property of the loop, if it goes on.
abbrev pub OnNext : (Loop → Type 0) → Next → Type 0
OnNext P (next s) = P s
OnNext P aborted = Unit
OnNext P undefined = Unit
OnNext P disabled = Unit

pub OnNext-intro : (P : Loop → Type 0) (n : Next) → ((t : Loop) → n ≡ next t → P t) → OnNext P n
OnNext-intro P (next s) h = h s refl
OnNext-intro P aborted h = tt
OnNext-intro P undefined h = tt
OnNext-intro P disabled h = tt

pub OnNext-elim : (P : Loop → Type 0) {n : Next} {t : Loop} → n ≡ next t → OnNext P n → P t
OnNext-elim P e o = subst (OnNext P) e o
