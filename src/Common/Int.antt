-- ===== src/Common/Int.antt =====
-- Integers over the native numbers, for C's signed values.
use Prim.Native.Nat.{ℕ, ◌-◌, ◌%◌, ◌^◌}
use mathlib.Core.Bool.{Bool, not, ◌||◌}
use mathlib.Core.Option.{Option, none, some}
use unspecified_garbage.Common.Tests.{ltb, if◌then◌else◌}

-- `negsuc n` is -(n + 1).
pub data ℤ : Type 0 where
  pos : ℕ → ℤ
  negsuc : ℕ → ℤ

-- What `strtol` gives for a text: the value, and whether it has set errno.
pub record Strtol : Type 0 where
  pub value : ℤ
  pub is_error : Bool

-- A `long` that is stored in an `int`.
unfoldable pub to_int : ℤ → ℤ
to_int z =
    let m : ℕ = elim z [ pos n ↦ n % 2 ^ 32 | negsuc n ↦ 2 ^ 32 - 1 - n % 2 ^ 32 ] in
    if ltb m (2 ^ 31) then pos m else negsuc (2 ^ 32 - 1 - m)

-- What `strtol` gives where the end of the number is asked for: also whether `endptr` is the start of the text, and
-- whether it is its end.
pub record Scanned : Type 0 where
  pub value : ℤ
  pub is_error : Bool
  pub at_start : Bool
  pub at_end : Bool

-- The whole text is a number, which is stored in an `int`.
unfoldable pub scanned_int : Scanned → Option ℤ
scanned_int n = if n.is_error || (n.at_start || not n.at_end) then none else some (to_int n.value)
