-- ===== src/Flood/Exits.antt =====
-- src/main/paisa/HttpFlood.c: how the process ends.
use unspecified_garbage.Common.{
  ℕ, ◌≡◌, ◌≢◌, ◌↔◌, ◌⊎◌, inl, inr, refl, ap, Bool, true, false, List, Option, none, some,
  if◌then◌else◌, Bytes, Scanned,
}
use unspecified_garbage.Flood.Args.{Args, parse_args, parse_args-InRange}
use unspecified_garbage.Flood.Loop.{
  Floats, Next, next, aborted, overflown, disabled, Boot, Event, is_done, exited, running,
  outcome_of, main,
}
use unspecified_garbage.Flood.Rule.{OnNext}
use unspecified_garbage.Flood.Pace.{after, Ahead, after-Ahead}

outcome_of-ne-exited :
    (floats : Floats) (boot : Boot) (app : Args) (n pause k : ℕ) (m : Next)
    → OnNext (Ahead floats boot n pause) m
    → outcome_of app m ≢ exited k
outcome_of-ne-exited floats boot app n pause k (next s) h e =
    let busy : is_done s ≡ false = rw h.0.pending.1 refl in
    let q : outcome_of app (next s) ≡ running app s = rw busy refl in cc
outcome_of-ne-exited floats boot app n pause k aborted h e = cc
outcome_of-ne-exited floats boot app n pause k overflown h e = cc
outcome_of-ne-exited floats boot app n pause k disabled h e = cc

module _ (floats : Floats) (strtol : Bytes → Scanned) (boot : Boot) (args : List Bytes) where
  -- What `main` does with what `parseArgs` gives.
  abbrev pub Refused : Option Args → Type 0
  Refused o = (o ≡ none) ⊎ ((app : Args) × (o ≡ some app) × (app.is_help ≡ true))

  no_help : (app : Args) → app.is_help ≡ false → Refused (some app) → ⊥
  no_help app h (inl q) = cc
  no_help app h (inr (app', q, h')) =
      let e : app ≡ app' = cc in let f : app.is_help ≡ app'.is_help = ap Args.is_help e in cc

  never_done :
      (events : List Event) (k : ℕ) {app : Args}
      → parse_args strtol args ≡ some app
      → outcome_of app (after floats boot app events) ≢ exited k
  never_done events k {app} e =
      let r = parse_args-InRange strtol args e in
      let (n, c, _) = r.nclients_range in
      let (pause, p) = r.pause_range in
      outcome_of-ne-exited floats boot app n pause k _
        (after-Ahead floats boot app n pause c p events)

  -- The process exits with a number exactly where its arguments are refused or ask for help and the number is 1. (The loop
  -- itself is never left.)
  pub main_exits_iff :
      (events : List Event) (k : ℕ)
      → (main floats strtol boot events args ≡ exited k)
        ↔ ((k ≡ 1) × Refused (parse_args strtol args))
  unfolding main
  main_exits_iff events k = parsed (parse_args strtol args) refl
    where
      accepted :
          (app : Args)
          → parse_args strtol args ≡ some app
          → (b : Bool) → app.is_help ≡ b
          → ((if b then exited 1 else outcome_of app (after floats boot app events)) ≡ exited k)
            ↔ ((k ≡ 1) × Refused (some app))
      accepted app e true h = ((λ q. (cc, inr (app, refl, h))), λ q. cc)
      accepted app e false h =
          ((λ q. absurd (never_done events k e q)), λ q. absurd (no_help app h q.1))

      parsed :
          (o : Option Args)
          → parse_args strtol args ≡ o
          → ((elim o [
            | none ↦ exited 1
            | some app ↦
                if app.is_help then exited 1 else outcome_of app (after floats boot app events)
          ])
              ≡ exited k)
            ↔ ((k ≡ 1) × Refused o)
      parsed none e = ((λ q. (cc, inl refl)), λ q. cc)
      parsed (some app) e = accepted app e app.is_help refl
