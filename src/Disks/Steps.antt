-- ===== src/Disks/Steps.antt =====
-- src/main/c/paisa-fleet/FindFullDisks.c: what each event keeps.
use unspecified_garbage.Common.{
  remove_at, ℕ, zero, suc, ◌+◌, ◌-◌, ◌^◌, ◌≡◌, inl, inr, refl, Bool, List, [], ◌∷◌, ◌++◌, Option,
  none, some, leb, ltb, ◌==◌, if◌then◌else◌, if_both, Bytes, length, get_elem?, ℤ, pos, negsuc,
  Bool-cases,
}
use unspecified_garbage.Disks.State.{
  stdout_buf_cap, Output, held, below, Device, Task, feed, begin_next, examine, Parser, idle,
  writing, closing, closed, Loop,
}
use unspecified_garbage.Disks.Output.{Examined, nothing, file, failed, beyond, examine_device}
use unspecified_garbage.Disks.Loop.{
  next, aborted, undefined, disabled, more_output, feed_next_chunk, begin_next_device, run_task,
  on_write_done, on_close_done, child_on_stdout, child_on_joined, Event, task, row, write_done,
  close_done, stdout, joined, is_parsing, step,
}
use unspecified_garbage.Disks.Invariant.{Inv}
use unspecified_garbage.Disks.Begin.{begin_next_device-Inv}
use unspecified_garbage.Disks.Kept.{queued-Inv, on_csv_row-Inv, set_device-Inv, remove_at-Inv}
use unspecified_garbage.Disks.Live.{
  Live, on_csv_row-Live, on_write_done-Live, on_close_done-Live, set_device-Live, joined-Live,
  examine-Live, feed_failed-Live, feed-Live, begin_next-Live,
}
use unspecified_garbage.Disks.OnNext.{seen, OnNext, OnNext-intro}

module _ (new_process : List Bytes → Bool) (user : Bytes) (port max : ℤ) where
  abbrev pub Good : List (List Bytes) → Loop → Type 0
  Good rows s = Inv user port max s × Live user port rows s

  module _ (rows : List (List Bytes)) (s : Loop) (g : Good rows s) where
    run_task-Good :
        (opened : Bool) (written n : ℕ) (t : Task) (queue : List Task)
        → s.queue ≡ t ∷ queue
        → OnNext (Good rows) (run_task new_process opened written n t (record s { queue = queue }))
    unfolding run_task feed_next_chunk
    run_task-Good opened written n feed queue e = elim (Bool-cases s.app.has_failed) [
      | inl f ↦
          if_both (OnNext (Good rows)) s.app.has_failed
            (λ _. (inv s.parser, feed_failed-Live user port rows s g.1 queue e f)) (λ h. absurd cc)
      | inr f ↦
          if_both (OnNext (Good rows)) s.app.has_failed (λ h. absurd cc)
            (λ _.
              if_both (OnNext (Good rows)) (n == 0)
                (λ _. (inv closing, feed-Live user port rows s g.1 queue closing e refl))
                (λ _. (inv writing, feed-Live user port rows s g.1 queue writing e refl)))
    ]
      where
        inv : (p : Parser) → Inv user port max (record s { queue = queue; parser = p })
        inv p = queued-Inv user port max s g.0 queue p
    run_task-Good opened written n begin_next queue e =
        OnNext-intro (Good rows) (begin_next_device new_process (record s { queue = queue }))
          (λ _ b.
            let (inv, began) =
              begin_next_device-Inv new_process user port max (record s { queue = queue })
                (queued-Inv user port max s g.0 queue s.parser) b in
            (inv, begin_next-Live user port rows s g.1 queue e began))
    run_task-Good opened written n (examine i) queue e = go (get_elem? s.app.devices i)
      where
        kept : Good rows (record s { queue = queue })
        kept = (
          queued-Inv user port max s g.0 queue s.parser,
          examine-Live user port rows s g.1 i queue e,
        )

        ends :
            (x : Examined)
            → OnNext (Good rows) (elim x [
              | failed ↦ aborted
              | beyond ↦ undefined
              | _ ↦ next (record s { queue = queue })
            ])
        ends failed = tt
        ends beyond = tt
        ends nothing = kept
        ends (file name content) = kept

        go :
            (o : Option Device)
            → OnNext (Good rows) (elim o [
              | none ↦ disabled
              | some d ↦ elim (examine_device opened written d) [
                | failed ↦ aborted
                | beyond ↦ undefined
                | _ ↦ next (record s { queue = queue })
              ]
            ])
        go none = tt
        go (some d) = ends (examine_device opened written d)

    task-Good :
        (opened : Bool) (written n : ℕ)
        → OnNext (Good rows) (step new_process (task opened written n) s)
    unfolding step
    task-Good opened written n = go s.queue refl
      where
        go :
            (queue : List Task)
            → s.queue ≡ queue
            → OnNext (Good rows) (elim queue [
              | [] ↦ disabled
              | t ∷ ts ↦ run_task new_process opened written n t (record s { queue = ts })
            ])
        go [] e = tt
        go (t ∷ ts) e = run_task-Good opened written n t ts e

    row-Good :
        (memory : Output) (columns : List Bytes)
        → OnNext (Good (rows ++ (columns ∷ []))) (step new_process (row memory columns) s)
    unfolding step
    row-Good memory columns =
        if_both (OnNext (Good (rows ++ (columns ∷ [])))) (is_parsing s.parser)
          (λ p. (
            on_csv_row-Inv user port max s g.0 memory columns,
            on_csv_row-Live user port rows s g.1 memory columns (Inv.room g.0) p,
          ))
          (λ _. tt)

    write_done-Good : (n : ℤ) → OnNext (Good rows) (step new_process (write_done n) s)
    unfolding step on_write_done
    write_done-Good n = go s.parser refl n
      where
        go :
            (p : Parser)
            → s.parser ≡ p
            → (m : ℤ) → OnNext (Good rows) (elim p [ writing ↦ on_write_done m s | _ ↦ disabled ])
        go writing e (pos zero) = tt
        go writing e (pos (suc m)) = (
          queued-Inv user port max s g.0 (s.queue ++ (feed ∷ [])) idle,
          on_write_done-Live user port rows s g.1 e,
        )
        go writing e (negsuc m) = tt
        go idle e m = tt
        go closing e m = tt
        go closed e m = tt

    close_done-Good : OnNext (Good rows) (step new_process close_done s)
    unfolding step on_close_done
    close_done-Good = go s.parser refl
      where
        go :
            (p : Parser)
            → s.parser ≡ p
            → OnNext (Good rows) (elim p [ closing ↦ next (on_close_done s) | _ ↦ disabled ])
        go writing e = tt
        go idle e = tt
        go closing e = (
          queued-Inv user port max s g.0 (s.queue ++ (begin_next ∷ [])) closed,
          on_close_done-Live user port rows s g.1 e,
        )
        go closed e = tt

    more_output-Good :
        (i : ℕ) (d : Device) (buf : Bytes) (o : Output)
        → get_elem? s.app.devices i ≡ some d
        → OnNext (Good rows) (more_output i d buf s o)
    unfolding more_output
    more_output-Good i d buf (below n) e =
        if_both (OnNext (Good rows)) (leb (stdout_buf_cap + n + 1) (length buf)) (λ _. tt) (λ _. tt)
    more_output-Good i d buf (held bytes) e =
        if_both (OnNext (Good rows)) (leb (2 ^ 31) (length bytes + length buf)) (λ _. tt)
          (λ _.
            if_both (OnNext (Good rows)) (leb stdout_buf_cap (length bytes + length buf)) (λ _. tt)
              (λ _. (
                set_device-Inv user port max s g.0 i d (held (bytes ++ buf)) e,
                set_device-Live user port rows s g.1 i d (held (bytes ++ buf)) e,
              )))

    child_on_stdout-Good : (i : ℕ) (buf : Bytes) → OnNext (Good rows) (child_on_stdout i buf s)
    unfolding child_on_stdout
    child_on_stdout-Good i buf = go (get_elem? s.app.devices i) refl
      where
        go :
            (o : Option Device)
            → get_elem? s.app.devices i ≡ o
            → OnNext (Good rows) (elim o [
              | none ↦ disabled
              | some d ↦ if length buf == 0 then next s else more_output i d buf s d.stdout
            ])
        go none e = tt
        go (some d) e =
            if_both (OnNext (Good rows)) (length buf == 0) (λ _. g)
              (λ _. more_output-Good i d buf d.stdout e)

    stdout-Good : (k : ℕ) (buf : Bytes) → OnNext (Good rows) (step new_process (stdout k buf) s)
    unfolding step
    stdout-Good k buf = go (get_elem? s.running k)
      where
        go :
            (o : Option ℕ)
            → OnNext (Good rows) (elim o [ none ↦ disabled | some i ↦ child_on_stdout i buf s ])
        go none = tt
        go (some i) = child_on_stdout-Good i buf

    joined-Good : (k : ℕ) → OnNext (Good rows) (step new_process (joined k) s)
    unfolding step child_on_joined
    joined-Good k = go (get_elem? s.running k) refl
      where
        go :
            (o : Option ℕ)
            → get_elem? s.running k ≡ o
            → OnNext (Good rows) (elim o [ none ↦ disabled | some i ↦ child_on_joined k i s ])
        go none e = tt
        go (some i) e =
            if_both (OnNext (Good rows)) (ltb 0 s.app.num_in_progress)
              (λ _. (
                remove_at-Inv user port max s g.0 k i (s.queue ++ (examine i ∷ begin_next ∷ [])) e,
                joined-Live user port rows s g.1 i (s.app.num_in_progress - 1)
                    (remove_at s.running k),
              ))
              (λ _. tt)

    pub step-Good : (e : Event) → OnNext (Good (seen e rows)) (step new_process e s)
    step-Good (task opened written n) = task-Good opened written n
    step-Good (row memory columns) = row-Good memory columns
    step-Good (write_done n) = write_done-Good n
    step-Good close_done = close_done-Good
    step-Good (stdout k buf) = stdout-Good k buf
    step-Good (joined k) = joined-Good k
