-- ===== src/Asn1/Runs.antt =====
-- Sequences of calls in the loop of src/main/c/foo/Asn1Digger.c.
use unspecified_garbage.Common.{
  ℕ, zero, suc, ◌+◌, ◌*◌, ◌≡◌, ◌≢◌, ◌∙◌, refl, arith, Bool, true, false, Bytes, length,
}
use unspecified_garbage.Asn1.State.{AsnDigger, done}
use unspecified_garbage.Asn1.Loop.{call, returned, out_of_fuel, run_loop, run, initial}
use unspecified_garbage.Asn1.Termination.{run_loop-done, run_ends}

-- Calls lead from one state to another before the end of stdin is seen.
pub data Runs (broken : Bool) : AsnDigger → AsnDigger → Type 0 where
  stop : {app : AsnDigger} → Runs broken app app
  more :
      {app app' app'' : AsnDigger}
      → app.inn_is_eof ≡ false
      → call broken app.func_to_call app ≡ done app'
      → Runs broken app' app''
      → Runs broken app app''

pub Runs-trans :
    {broken : Bool} {a b c : AsnDigger} → Runs broken a b → Runs broken b c → Runs broken a c
Runs-trans stop s = s
Runs-trans (more e d r) s = more e d (Runs-trans r s)

run_loop-eof :
    (broken : Bool) (fuel : ℕ) (app : AsnDigger)
    → app.inn_is_eof ≡ true
    → run_loop broken fuel app ≢ out_of_fuel
    → run_loop broken fuel app ≡ returned app
unfolding run_loop
run_loop-eof broken zero app e n = absurd (n refl)
run_loop-eof broken (suc fuel) app e n = ground arith

run_loop-zero : (broken : Bool) (app : AsnDigger) → run_loop broken 0 app ≡ out_of_fuel
unfolding run_loop
run_loop-zero broken app = refl

run_loop-Runs :
    {broken : Bool} {app app' : AsnDigger} (fuel : ℕ)
    → Runs broken app app'
    → app'.inn_is_eof ≡ true
    → run_loop broken fuel app ≢ out_of_fuel
    → run_loop broken fuel app ≡ returned app'
run_loop-Runs {broken} {app} fuel stop e n = run_loop-eof broken fuel app e n
run_loop-Runs {broken} {app} zero (more c d r) e n = absurd (n (run_loop-zero broken app))
run_loop-Runs {broken} {app} (suc fuel) (more {app' = b} c d r) e n =
    let same = run_loop-done broken fuel app b c d in
    same ∙ run_loop-Runs fuel r e (λ x. n (same ∙ x))

-- Where calls lead to the end of stdin, that is how the run ends.
pub run-Runs :
    {broken : Bool} {app' : AsnDigger} (cols : ℕ) (gpg : Bool) (inp : Bytes)
    → Runs broken (initial cols gpg inp) app'
    → app'.inn_is_eof ≡ true
    → run broken cols gpg inp ≡ returned app'
unfolding run
run-Runs {broken} cols gpg inp r e =
    run_loop-Runs (2 * length inp + 2) r e (unfold run in run_ends broken cols gpg inp)
