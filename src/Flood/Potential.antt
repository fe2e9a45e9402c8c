-- ===== src/Flood/Potential.antt =====
-- src/main/paisa/HttpFlood.c: how far the clients have come, as one number that no step lowers.
use unspecified_garbage.Common.{
  ℕ, zero, suc, ◌+◌, ◌-◌, ◌*◌, ◌≤◌, ◌<◌, ◌≡◌, sym, ap, arith, List, [], ◌∷◌, some, leb,
  if◌then◌else◌, length, get_elem?, remove_at, All, pos,
}
use mathlib.Core.Path.{ap₂, ◌∙◌}
use native.Mathlib.Nat.{suc-mul, add-mul, mul-add}
use unspecified_garbage.Flood.Args.{Args}
use unspecified_garbage.Flood.Rule.{OnNext, sent, answered, step-OnNext}
use unspecified_garbage.Flood.Loop.{Floats, Flood, pos_part, Event, step}

-- When a client whose timer is due at `due` sends at the earliest.
abbrev pub at_earliest : ℕ → ℕ → ℕ
at_earliest now due = if leb due now then now else due

unfoldable pub sum_earliest : ℕ → List ℕ → ℕ
sum_earliest now [] = 0
sum_earliest now (due ∷ dues) = at_earliest now due + sum_earliest now dues

sum_earliest_mono :
    (now later : ℕ) (dues : List ℕ) → now ≤ later → sum_earliest now dues ≤ sum_earliest later dues
unfolding sum_earliest
sum_earliest_mono now later [] h = omega arith
sum_earliest_mono now later (due ∷ dues) h = ground (arith, sum_earliest_mono now later dues h)

sum_earliest-remove_at :
    (now : ℕ) (dues : List ℕ) (k : ℕ) {due : ℕ}
    → get_elem? dues k ≡ some due
    → due ≤ now
    → sum_earliest now (remove_at dues k) + now ≡ sum_earliest now dues
unfolding sum_earliest remove_at
sum_earliest-remove_at now [] k g h = absurd cc
sum_earliest-remove_at now (x ∷ xs) zero {due} g h = ground arith
sum_earliest-remove_at now (x ∷ xs) (suc k) g h = omega (arith, sum_earliest-remove_at now xs k g h)

-- Each of `n` timers is due between now and `pause` from now, or earlier.
pub sum_earliest_bounds :
    (now pause : ℕ) (dues : List ℕ)
    → All (λ due. due ≤ now + pause) dues
    → (length dues * now ≤ sum_earliest now dues)
      × (sum_earliest now dues ≤ length dues * (now + pause))
unfolding sum_earliest
sum_earliest_bounds now pause [] a = omega arith
sum_earliest_bounds now pause (due ∷ dues) a =
    let rest = sum_earliest_bounds now pause dues a.1 in
    let low = suc-mul (length dues) now in
    let high = suc-mul (length dues) (now + pause) in let first = a.0 in ground arith

less_mul : (f c : ℕ) → 0 < f → (f - 1) * c + c ≡ f * c
less_mul zero c h = absurd (omega arith)
less_mul (suc f) c h = let e : suc f - 1 ≡ f = omega arith in rw e (sym (suc-mul f c))

-- Each client counts with the time at which its next pause ends at the earliest.
pub potential : ℕ → Flood → ℕ
potential pause s = sum_earliest s.now s.timers + s.in_flight * (s.now + pause)

-- The requests of a step are paid for by the potential.
abbrev pub Paid : ℕ → Flood → Flood → Type 0
Paid pause s t = potential pause s + t.started * pause ≤ potential pause t + s.started * pause

module _ (app : Args) (pause : ℕ) (p : app.pause_ms ≡ pos pause) (s : Flood) where
  sends-Paid :
      (k : ℕ) {due : ℕ}
      → get_elem? s.timers k ≡ some due
      → due ≤ s.now
      → Paid pause s (sent (record s { timers = remove_at s.timers k }))
  unfolding potential
  sends-Paid k e l = omega (
    arith,
    sum_earliest-remove_at s.now s.timers k e l,
    add-mul s.in_flight 1 (s.now + pause),
    add-mul s.started 1 pause,
  )

  answers-Paid : 0 < s.in_flight → Paid pause s (answered app s)
  unfolding potential sum_earliest
  answers-Paid h =
      let again = less_mul s.in_flight (s.now + pause) h in
      let e : pos_part app.pause_ms ≡ pause = ap pos_part p in ground arith

  -- No step sends more than the potential pays for.
  pub step-Paid : (floats : Floats) (e : Event) → OnNext (Paid pause s) (step floats app e s)
  unfolding potential
  step-Paid floats e = step-OnNext (Paid pause s) s floats app e (record {
    ticks = λ ms. omega (
      arith,
      sum_earliest_mono s.now (s.now + ms) s.timers (omega arith),
      mul-add s.in_flight (s.now + pause) ms,
    );
    sends = λ k g l. sends-Paid k g l;
    tells = λ code. omega arith;
    stays = omega arith;
    answers = λ h _. answers-Paid h;
    prints = λ t line. omega arith;
  })

pub potential_fresh :
    (pause : ℕ) (s : Flood) → s.timers ≡ [] → s.now ≡ 0 → potential pause s ≡ s.in_flight * pause
unfolding potential sum_earliest
potential_fresh pause s e f =
    ap₂ (λ now dues. sum_earliest now dues + s.in_flight * (now + pause)) f e ∙ omega arith

-- What the potential can be where each client has a timer or a request.
pub potential_bounds :
    (pause : ℕ) (s : Flood)
    → All (λ due. due ≤ s.now + pause) s.timers
    → ((s.in_flight + length s.timers) * s.now ≤ potential pause s)
      × (potential pause s ≤ (s.in_flight + length s.timers) * (s.now + pause))
unfolding potential
potential_bounds pause s a = omega (
  arith,
  sum_earliest_bounds s.now pause s.timers a,
  add-mul s.in_flight (length s.timers) s.now,
  add-mul s.in_flight (length s.timers) (s.now + pause),
  mul-add s.in_flight s.now pause,
)
