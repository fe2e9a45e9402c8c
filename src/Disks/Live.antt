-- ===== src/Disks/Live.antt =====
-- src/main/c/paisa-fleet/FindFullDisks.c: that the event loop has something left to do as long as a
-- device is left.
use unspecified_garbage.Common.{
  up_to_nul, ℕ, zero, suc, ◌+◌, ◌≤◌, ◌≡◌, ◌⊎◌, inl, inr, ◌∙◌, refl, sym, ap, arith, true, false,
  List, [], ◌∷◌, ◌++◌, map, some, Bytes, length, get_elem?, ℤ,
}
use mathlib.Core.Path.{subst}
use mathlib.Core.List.{map-append}
use unspecified_garbage.Disks.State.{
  Output, Device, App, Task, feed, begin_next, examine, Parser, idle, writing, closing, closed,
  Loop,
}
use unspecified_garbage.Disks.Rows.{on_csv_row}
use unspecified_garbage.Disks.Visit.{child_argv}
use unspecified_garbage.Disks.Loop.{set_device, is_full, on_close_done, is_parsing}
use unspecified_garbage.Disks.Added.{device_of, Added, on_csv_row-cases}
use unspecified_garbage.Disks.Invariant.{argv_of}
use unspecified_garbage.Disks.Begin.{Began}
use unspecified_garbage.Disks.Kept.{length-set_device}

-- How often a task is queued.
abbrev pub feeds : List Task → ℕ
feeds [] = 0
feeds (feed ∷ ts) = suc (feeds ts)
feeds (begin_next ∷ ts) = feeds ts
feeds (examine i ∷ ts) = feeds ts

abbrev pub begins : List Task → ℕ
begins [] = 0
begins (feed ∷ ts) = begins ts
begins (begin_next ∷ ts) = suc (begins ts)
begins (examine i ∷ ts) = begins ts

feeds-append : (ts us : List Task) → feeds (ts ++ us) ≡ feeds ts + feeds us
feeds-append [] us = omega arith
feeds-append (feed ∷ ts) us = omega (arith, feeds-append ts us)
feeds-append (begin_next ∷ ts) us = feeds-append ts us
feeds-append (examine i ∷ ts) us = feeds-append ts us

begins-append : (ts us : List Task) → begins (ts ++ us) ≡ begins ts + begins us
begins-append [] us = omega arith
begins-append (feed ∷ ts) us = begins-append ts us
begins-append (begin_next ∷ ts) us = omega (arith, begins-append ts us)
begins-append (examine i ∷ ts) us = begins-append ts us

abbrev pub feeds_allowed : Parser → ℕ
feeds_allowed idle = 1
feeds_allowed _ = 0

-- The argument list for the device of a row of two columns.
abbrev pub row_argv : Bytes → ℤ → List Bytes → List Bytes
row_argv user port (eddie ∷ host ∷ []) = child_argv user port (up_to_nul eddie) (up_to_nul host)
row_argv user port columns = []

-- Between two events, after the given rows.
pub record Live (user : Bytes) (port : ℤ) (rows : List (List Bytes)) (s : Loop) : Type 0 where
  pub one_feed : feeds s.queue ≤ feeds_allowed s.parser
  pub fed : s.parser ≡ idle → (1 ≤ feeds s.queue) ⊎ (s.app.has_failed ≡ true)
  pub pending :
      s.parser ≡ closed
      → (1 ≤ begins s.queue) ⊎ ((is_full s.app ≡ true) ⊎ (length s.app.devices ≤ s.app.i_device))
  pub listed :
      s.app.has_failed ≡ false
      → map (argv_of user port) s.app.devices ≡ map (row_argv user port) rows

parsing-not_idle : {p : Parser} → is_parsing p ≡ true → p ≡ idle → ⊥
parsing-not_idle e i = absurd (cc (ap is_parsing i))

parsing-not_closed : {p : Parser} → is_parsing p ≡ true → p ≡ closed → ⊥
parsing-not_closed e i = absurd (cc (ap is_parsing i))

map-set_device_all :
    (user : Bytes) (port : ℤ) (d : Device) (xs : List Device) (i : ℕ) (x : Device)
    → get_elem? xs i ≡ some x
    → argv_of user port d ≡ argv_of user port x
    → map (argv_of user port) (set_device xs i d) ≡ map (argv_of user port) xs
unfolding set_device
map-set_device_all user port d [] i x g e = absurd cc
map-set_device_all user port d (y ∷ ys) zero x g e = cc
map-set_device_all user port d (y ∷ ys) (suc i) x g e =
    ap (◌∷◌ (argv_of user port y)) (map-set_device_all user port d ys i x g e)

module _ (user : Bytes) (port : ℤ) (rows : List (List Bytes)) (s : Loop)
    (v : Live user port rows s) where
  Added-listed :
      (memory : Output) (b : App) (columns : List Bytes)
      → s.app.has_failed ≡ false
      → Added memory s.app columns b
      → map (argv_of user port) b.devices ≡ map (row_argv user port) (rows ++ (columns ∷ []))
  Added-listed memory b columns h a =
      let d : Device = device_of memory a.eddie a.host in
      ap (λ (x : App). map (argv_of user port) x.devices) a.grown
      ∙ map-append (argv_of user port) s.app.devices (d ∷ [])
      ∙ ap (λ l. l ++ (argv_of user port d ∷ [])) (v.listed h)
      ∙ ap (λ c. map (row_argv user port) rows ++ (row_argv user port c ∷ [])) (sym a.columns_eq)
      ∙ sym (map-append (row_argv user port) rows (columns ∷ []))

  pub on_csv_row-Live :
      (memory : Output) (columns : List Bytes)
      → length s.app.devices ≤ s.app.devices_cap
      → is_parsing s.parser ≡ true
      → Live user port (rows ++ (columns ∷ [])) (record s { app = on_csv_row memory s.app columns })
  on_csv_row-Live memory columns room p = record {
    one_feed = v.one_feed;
    fed = λ e. absurd (parsing-not_idle p e);
    pending = λ e. absurd (parsing-not_closed p e);
    listed = λ h. elim (on_csv_row-cases memory s.app columns room) [
      | inl (c, e, _) ↦ absurd (cc (ap (λ (x : App). x.has_failed) e, h))
      | inr (f, a) ↦ Added-listed memory (on_csv_row memory s.app columns) columns f a
    ];
  }

  pub on_write_done-Live :
      s.parser ≡ writing
      → Live user port rows (record s { parser = idle; queue = s.queue ++ (feed ∷ []) })
  on_write_done-Live e = record {
    one_feed = omega (arith, v.one_feed, ap feeds_allowed e, feeds-append s.queue (feed ∷ []));
    fed = λ _. inl (omega (arith, feeds-append s.queue (feed ∷ [])));
    pending = λ f. absurd cc;
    listed = v.listed;
  }

  pub on_close_done-Live : s.parser ≡ closing → Live user port rows (on_close_done s)
  unfolding on_close_done
  on_close_done-Live e = record {
    one_feed =
        omega (arith, v.one_feed, ap feeds_allowed e, feeds-append s.queue (begin_next ∷ []));
    fed = λ f. absurd cc;
    pending = λ _. inl (omega (arith, begins-append s.queue (begin_next ∷ [])));
    listed = v.listed;
  }

  pub set_device-Live :
      (i : ℕ) (d : Device) (output : Output)
      → get_elem? s.app.devices i ≡ some d
      → Live user port rows (record s {
        app = record s.app { devices = set_device s.app.devices i (record d { stdout = output }) };
      })
  unfolding is_full
  set_device-Live i d output g =
      let x : Device = record d { stdout = output } in
      record {
        one_feed = v.one_feed;
        fed = v.fed;
        pending = λ e. elim (v.pending e) [
          | inl h ↦ inl h
          | inr (inl f) ↦ inr (inl f)
          | inr (inr l) ↦ inr (inr (omega (arith, length-set_device x s.app.devices i)))
        ];
        listed = λ h. map-set_device_all user port x s.app.devices i d g refl ∙ v.listed h;
      }

  pub joined-Live :
      (i n : ℕ) (running : List ℕ)
      → Live user port rows (record s {
        app = record s.app { num_in_progress = n };
        running = running;
        queue = s.queue ++ (examine i ∷ begin_next ∷ []);
      })
  joined-Live i n running = record {
    one_feed = omega (arith, v.one_feed, feeds-append s.queue (examine i ∷ begin_next ∷ []));
    fed = λ e. elim (v.fed e) [
      | inl h ↦ inl (omega (arith, feeds-append s.queue (examine i ∷ begin_next ∷ [])))
      | inr h ↦ inr h
    ];
    pending = λ _. inl (omega (arith, begins-append s.queue (examine i ∷ begin_next ∷ [])));
    listed = v.listed;
  }

  -- The first task is taken off the queue.
  pub examine-Live :
      (i : ℕ) (queue : List Task)
      → s.queue ≡ examine i ∷ queue
      → Live user port rows (record s { queue = queue })
  examine-Live i queue e = record {
    one_feed = omega (arith, v.one_feed, ap feeds e);
    fed = λ p. elim (v.fed p) [ inl h ↦ inl (omega (arith, ap feeds e)) | inr h ↦ inr h ];
    pending = λ p. elim (v.pending p) [ inl h ↦ inl (omega (arith, ap begins e)) | inr h ↦ inr h ];
    listed = v.listed;
  }

  pub feed_failed-Live :
      (queue : List Task)
      → s.queue ≡ feed ∷ queue
      → s.app.has_failed ≡ true
      → Live user port rows (record s { queue = queue })
  feed_failed-Live queue e h = record {
    one_feed = omega (arith, v.one_feed, ap feeds e);
    fed = λ p. inr h;
    pending = λ p. elim (v.pending p) [ inl h ↦ inl (omega (arith, ap begins e)) | inr h ↦ inr h ];
    listed = v.listed;
  }

  pub feed-Live :
      (queue : List Task) (parser : Parser)
      → s.queue ≡ feed ∷ queue
      → is_parsing parser ≡ true
      → Live user port rows (record s { queue = queue; parser = parser })
  feed-Live queue parser e p = record {
    one_feed = omega (arith, v.one_feed, ap feeds e, at_most_one s.parser);
    fed = λ i. absurd (parsing-not_idle p i);
    pending = λ i. absurd (parsing-not_closed p i);
    listed = v.listed;
  }
    where
      at_most_one : (q : Parser) → feeds_allowed q ≤ 1
      at_most_one idle = omega arith
      at_most_one writing = omega arith
      at_most_one closing = omega arith
      at_most_one closed = omega arith

  pub begin_next-Live :
      (queue : List Task) {t : Loop}
      → s.queue ≡ begin_next ∷ queue
      → Began (record s { queue = queue }) t
      → Live user port rows t
  begin_next-Live queue {t} e b = record {
    one_feed =
        subst (λ p. feeds t.queue ≤ feeds_allowed p) (sym b.parser_kept)
          (omega (arith, v.one_feed, ap feeds e, ap feeds b.queue_kept));
    fed = λ p. elim (v.fed (sym b.parser_kept ∙ p)) [
      | inl h ↦ inl (omega (arith, ap feeds e, ap feeds b.queue_kept))
      | inr h ↦ inr (b.failed_kept ∙ h)
    ];
    pending = λ _. inr b.no_more;
    listed = λ h. ap (map (argv_of user port)) b.devices_kept ∙ v.listed (sym b.failed_kept ∙ h);
  }
