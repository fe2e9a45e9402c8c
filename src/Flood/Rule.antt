-- ===== src/Flood/Rule.antt =====
-- src/main/paisa/HttpFlood.c: what holds after a step, from its cases.
use unspecified_garbage.Common.{
  ℕ, Bool, ◌+◌, ◌-◌, ◌^◌, ◌≤◌, ◌<◌, ◌≡◌, refl, Option, none, some, leb, ltb, ◌==◌, if◌then◌else◌,
  if_both, ◌∷◌, get_elem?, remove_at, ltb→lt, leb→le, ℤ, pos, negsuc,
}
use mathlib.Core.Path.{subst}
use unspecified_garbage.Flood.Args.{Args}
use unspecified_garbage.Flood.Loop.{
  Timespec, Floats, Line, response, Flood, Next, next, aborted, overflown, disabled, ◌>>=◌,
  assert_ok, pos_part, send_another_request, on_rsp_hdr, on_rsp_done, periodically_print_progress,
  Event, tick, timer, rsp_hdr, rsp_done, error, progress, step,
}

-- A property of the loop, if it goes on.
abbrev pub OnNext : (Flood → Type 0) → Next → Type 0
OnNext P (next s) = P s
OnNext P aborted = Unit
OnNext P overflown = Unit
OnNext P disabled = Unit

pub OnNext-elim : (P : Flood → Type 0) {n : Next} {s : Flood} → n ≡ next s → OnNext P n → P s
OnNext-elim P e h = subst (OnNext P) e h

pub OnNext-bind :
    (P Q : Flood → Type 0) (n : Next) (f : Flood → Next)
    → OnNext P n
    → ((s : Flood) → P s → OnNext Q (f s))
    → OnNext Q (n >>= f)
OnNext-bind P Q (next s) f h k = k s h
OnNext-bind P Q aborted f h k = tt
OnNext-bind P Q overflown f h k = tt
OnNext-bind P Q disabled f h k = tt

pub OnNext-both :
    (P Q R : Flood → Type 0) (n : Next)
    → OnNext P n
    → OnNext Q n
    → ((s : Flood) → P s → Q s → R s)
    → OnNext R n
OnNext-both P Q R (next s) h k f = f s h k
OnNext-both P Q R aborted h k f = tt
OnNext-both P Q R overflown h k f = tt
OnNext-both P Q R disabled h k f = tt

pub OnNext-assert :
    (P : Flood → Type 0) (err : ℤ) (n : Next) → OnNext P n → OnNext P (assert_ok err n)
OnNext-assert P (pos k) n h = if_both (OnNext P) (k == 0) (λ _. h) (λ _. tt)
OnNext-assert P (negsuc k) n h = tt

abbrev pub sent : Flood → Flood
sent s = record s { in_flight = s.in_flight + 1; started = s.started + 1 }

abbrev pub answered : Args → Flood → Flood
answered app s = record s {
  in_flight = s.in_flight - 1;
  num_req_done = s.num_req_done + 1;
  timers = (s.now + pos_part app.pause_ms) ∷ s.timers;
}

abbrev pub printed : Args → Timespec → Line → Flood → Flood
printed app t line s = record s {
  num_req_done = 0;
  taken = s.taken + s.num_req_done;
  progress_printed_at = t;
  log = line ∷ s.log;
  progress_due = some (s.now + pos_part app.print_progress_every_ms);
}

module _ (P : Flood → Type 0) (s : Flood) where
  pub send-OnNext :
      (eno : ℤ) (is_made : Bool) → P (sent s) → OnNext P (send_another_request eno is_made s)
  unfolding send_another_request
  send-OnNext eno is_made h = OnNext-assert P eno _ (if_both (OnNext P) is_made (λ _. h) (λ _. tt))

  pub print-OnNext :
      (floats : Floats) (app : Args) (eno lock unlock : ℤ) (clock : Option Timespec)
      → ((t : Timespec) (line : Line) → P (printed app t line s))
      → OnNext P (periodically_print_progress floats app eno lock unlock clock s)
  unfolding periodically_print_progress
  print-OnNext floats app eno lock unlock none h =
      OnNext-assert P eno _ (OnNext-assert P lock _ (OnNext-assert P unlock _ tt))
  print-OnNext floats app eno lock unlock (some t) h =
      OnNext-assert P eno _ (OnNext-assert P lock _ (OnNext-assert P unlock _ (h t _)))

  -- What each event has to keep.
  pub record Cases (app : Args) : Type 0 where
    pub ticks : (ms : ℕ) → P (record s { now = s.now + ms })
    pub sends :
        (k : ℕ) {due : ℕ}
        → get_elem? s.timers k ≡ some due
        → due ≤ s.now
        → P (sent (record s { timers = remove_at s.timers k }))
    pub tells : (code : ℕ) → P (record s { log = response code ∷ s.log })
    pub stays : P s
    pub answers : 0 < s.in_flight → s.num_req_done < 2 ^ 31 - 1 → P (answered app s)
    pub prints : (t : Timespec) (line : Line) → P (printed app t line s)

  timer-OnNext :
      (floats : Floats) (app : Args) (k : ℕ) (eno : ℤ) (is_made : Bool)
      → Cases app
      → OnNext P (step floats app (timer k eno is_made) s)
  unfolding step send_another_request
  timer-OnNext floats app k eno is_made c = go (get_elem? s.timers k) refl
    where
      go :
          (o : Option ℕ)
          → get_elem? s.timers k ≡ o
          → OnNext P (elim o [
            | none ↦ disabled
            | some due ↦
                if leb due s.now
                then send_another_request eno is_made (record s { timers = remove_at s.timers k })
                else disabled
          ])
      go none e = tt
      go (some due) e =
          if_both (OnNext P) (leb due s.now)
            (λ l.
              OnNext-assert P eno _
                (if_both (OnNext P) is_made (λ _. c.sends k e (leb→le due s.now l)) (λ _. tt)))
            (λ _. tt)

  done-OnNext :
      (floats : Floats) (app : Args) (lock unlock : ℤ)
      → Cases app
      → OnNext P (step floats app (rsp_done lock unlock) s)
  unfolding step on_rsp_done
  done-OnNext floats app lock unlock c =
      if_both (OnNext P) (ltb 0 s.in_flight)
        (λ l. OnNext-assert P lock _ (
          if_both (OnNext P) (ltb s.num_req_done (2 ^ 31 - 1))
            (λ r.
              OnNext-assert P unlock _
                (c.answers (ltb→lt 0 s.in_flight l) (ltb→lt s.num_req_done (2 ^ 31 - 1) r)))
            (λ _. tt)))
        (λ _. tt)

  progress-OnNext :
      (floats : Floats) (app : Args) (eno lock unlock : ℤ) (clock : Option Timespec)
      → Cases app
      → OnNext P (step floats app (progress eno lock unlock clock) s)
  unfolding step
  progress-OnNext floats app eno lock unlock clock c = go s.progress_due
    where
      go :
          (o : Option ℕ)
          → OnNext P (elim o [
            | none ↦ disabled
            | some due ↦
                if leb due s.now
                then periodically_print_progress floats app eno lock unlock clock s
                else disabled
          ])
      go none = tt
      go (some due) =
          if_both (OnNext P) (leb due s.now)
            (λ _. print-OnNext floats app eno lock unlock clock (λ t line. c.prints t line))
            (λ _. tt)

  pub step-OnNext :
      (floats : Floats) (app : Args) (e : Event) → Cases app → OnNext P (step floats app e s)
  unfolding step on_rsp_hdr
  step-OnNext floats app (tick ms) c = c.ticks ms
  step-OnNext floats app (timer k eno is_made) c = timer-OnNext floats app k eno is_made c
  step-OnNext floats app (rsp_hdr code) c =
      if_both (OnNext P) (ltb 0 s.in_flight)
        (λ _.
          if_both P (code == 200) (λ _. c.stays)
            (λ _. if_both P (code == 404) (λ _. c.stays) (λ _. c.tells code)))
        (λ _. tt)
  step-OnNext floats app (rsp_done lock unlock) c = done-OnNext floats app lock unlock c
  step-OnNext floats app error c = if_both (OnNext P) (ltb 0 s.in_flight) (λ _. tt) (λ _. tt)
  step-OnNext floats app (progress eno lock unlock clock) c =
      progress-OnNext floats app eno lock unlock clock c
