-- ===== src/Asn1/OpStack.antt =====
-- src/main/c/foo/Asn1Digger.c, `opStackPush` and `opStackPop`, which nothing calls.
use unspecified_garbage.Common.{
  ℕ, ◌+◌, ◌-◌, ◌<◌, ◌≡◌, refl, arith, true, false, Bytes, Option, none, some, take, drop, leb,
  if◌then◌else◌,
}

-- All the bytes of `opStack`, and `opStack_len`.
pub record OpStack : Type 0 where
  pub cells : Bytes
  pub len : ℕ

-- `sizeof opStack`
abbrev pub op_stack_cap : ℕ
op_stack_cap = 256

-- The `n` bytes at the top.
abbrev pub top : OpStack → ℕ → Bytes
top s n = take n (drop s.len s.cells)

-- The stack behind the call and what the argument's buffer holds; `none` where the process aborts.
unfoldable pub op_stack_push : OpStack → Bytes → ℕ → Option (OpStack × Bytes)
op_stack_push s buf n =
    if leb op_stack_cap (s.len + n) then none else some (record s { len = s.len + n }, top s n)

-- The stack, and what comes back.
unfoldable pub op_stack_pop : OpStack → ℕ → Option (OpStack × Bytes)
op_stack_pop s n =
    if leb n s.len
    then some (record s { len = s.len - n }, top (record s { len = s.len - n }) n)
    else none

-- A push of `n` bytes that fits, and a pop of as many behind it, end in the stack from before it.
-- Both give the bytes that stood above the top already, whatever those to be pushed are.
pub pop-push :
    (s : OpStack) (buf : Bytes) (n : ℕ)
    → s.len + n < op_stack_cap
    → (op_stack_push s buf n ≡ some (record s { len = s.len + n }, top s n))
      × (op_stack_pop (record s { len = s.len + n }) n ≡ some (s, top s n))
unfolding op_stack_push op_stack_pop
pop-push s buf n h =
    let back : s.len + n - n ≡ s.len = omega arith in
    let fits : leb op_stack_cap (s.len + n) ≡ false = ground arith in
    let enough : leb n (s.len + n) ≡ true = ground arith in (rw fits refl, rw (enough, back) refl)
