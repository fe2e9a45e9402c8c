-- ===== src/Common/Bits.antt =====
-- Facts about bits over small ranges, by evaluation.
use Prim.Native.Nat.{ℕ, zero, suc, ◌+◌, ◌<◌}
use mathlib.Core.Path.{◌≡◌, sym, ap, ◌∙◌}
use mathlib.Core.Bool.{Bool, true, ◌&&◌}
use native.Mathlib.Omega.{arith}

-- The test holds of `count` numbers, of which `start` is the first.
unfoldable pub passes : (ℕ → Bool) → ℕ → ℕ → Bool
passes test start zero = true
passes test start (suc count) = test start && passes test (start + 1) count

passes-here :
    (test : ℕ → Bool) (start count : ℕ) → passes test start (suc count) ≡ true → test start ≡ true
unfolding passes
passes-here test start count e = ground arith

passes-next :
    (test : ℕ → Bool) (start count : ℕ)
    → passes test start (suc count) ≡ true
    → passes test (start + 1) count ≡ true
unfolding passes
passes-next test start count e = ground arith

pub test_of-passes :
    (test : ℕ → Bool) (start count i : ℕ)
    → passes test start count ≡ true
    → i < count
    → test (start + i) ≡ true
test_of-passes test start zero i e l = absurd (omega arith)
test_of-passes test start (suc count) zero e l =
    let first : start + 0 ≡ start = omega arith in rw first (passes-here test start count e)
test_of-passes test start (suc count) (suc i) e l =
    let shift : start + suc i ≡ start + 1 + i = omega arith in
    rw shift
      (test_of-passes test (start + 1) count i (passes-next test start count e) (omega arith))

-- One number below a bound, and two.
pub test_below :
    (test : ℕ → Bool) (bound i : ℕ) → passes test 0 bound ≡ true → i < bound → test i ≡ true
test_below test bound i e l =
    let here : 0 + i ≡ i = omega arith in ap test (sym here) ∙ test_of-passes test 0 bound i e l

pub test_below₂ :
    (bound : ℕ) (test : ℕ → ℕ → Bool) (i j : ℕ)
    → passes (λ a. passes (test a) 0 bound) 0 bound ≡ true
    → i < bound
    → j < bound
    → test i j ≡ true
test_below₂ bound test i j table l m =
    test_below (test i) bound j (test_below (λ a. passes (test a) 0 bound) bound i table l) m
