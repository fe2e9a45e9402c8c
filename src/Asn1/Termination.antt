-- ===== src/Asn1/Termination.antt =====
-- The dispatch loop of src/main/c/foo/Asn1Digger.c ends on every input.
use unspecified_garbage.Common.{
  if_both, ℕ, zero, suc, ◌+◌, ◌*◌, ◌/◌, ◌%◌, ◌<◌, ◌≡◌, ◌≢◌, ◌⊎◌, inl, inr, refl, arith, Bool, true,
  false, [], ◌∷◌, Bytes, length, length-drop, min, Option-cases, ltb, ◌==◌,
}
use unspecified_garbage.Asn1.State.{
  AsnDigger, FuncToCall, func_none, func_asn_type, func_asn_length, func_asn_value,
  func_hex_dump_read_chunk, func_hex_dump_dump_from_buf, Step, done, failed, aborted, fault,
}
use unspecified_garbage.Asn1.Names.{construct_printable_typename}
use unspecified_garbage.Asn1.Header.{asn_type, asn_length, asn_value, more_length, first_length}
use unspecified_garbage.Asn1.Dump.{hex_dump_read_chunk, hex_dump_dump_from_buf, read_len}
use unspecified_garbage.Asn1.Frame.{dumped-Frame}
use unspecified_garbage.Asn1.Loop.{call, out_of_fuel, run_loop, run, initial}

-- Two of the functions read nothing.
rank : FuncToCall → ℕ
rank func_asn_value = 1
rank func_hex_dump_dump_from_buf = 1
rank _ = 0

abbrev measure : AsnDigger → ℕ
measure app = 2 * length app.inp + rank app.func_to_call

-- A call that returns 0 sets the flag for the end of stdin or comes nearer to it.
abbrev Progress : AsnDigger → Step → Type 0
Progress app (done app') = (app'.inn_is_eof ≡ true) ⊎ (measure app' < measure app)
Progress app _ = Unit

abbrev LengthProgress : Bytes → Step → Type 0
LengthProgress bs (done app') =
    (app'.inn_is_eof ≡ true)
    ⊎ ((app'.func_to_call ≡ func_asn_value) × (length app'.inp < length bs))
LengthProgress bs _ = Unit

LengthProgress-cons :
    (b : ℕ) (bs : Bytes) (s : Step) → LengthProgress bs s → LengthProgress (b ∷ bs) s
LengthProgress-cons b bs (done app') h = ground arith
LengthProgress-cons b bs _ h = tt

more_length-LengthProgress :
    (broken : Bool) (n : ℕ) (app : AsnDigger) (bs : Bytes)
    → LengthProgress bs (more_length broken n app bs)
unfolding more_length
more_length-LengthProgress true n app [] = tt
more_length-LengthProgress false n app [] = inl refl
more_length-LengthProgress broken n app (b ∷ bs) =
    if_both (LengthProgress (b ∷ bs)) (ltb 4 (n + 1)) (λ _. tt)
      λ _.
        if_both (LengthProgress (b ∷ bs)) (b / 128 % 2 == 1)
          (λ _. LengthProgress-cons b bs _ (more_length-LengthProgress broken (n + 1) _ bs))
          (λ _. inr (refl, omega arith))

first_length-LengthProgress :
    (broken : Bool) (b : ℕ) (app : AsnDigger) (bs : Bytes)
    → LengthProgress (b ∷ bs) (first_length broken b app bs)
unfolding first_length
first_length-LengthProgress broken b app bs =
    if_both (LengthProgress (b ∷ bs)) (b % 32 == 31)
      (λ _.
        if_both (LengthProgress (b ∷ bs)) (b / 128 % 2 == 1)
          (λ _. LengthProgress-cons b bs _ (more_length-LengthProgress broken 1 _ bs))
          (λ _. inr (refl, omega arith)))
      (λ _. inr (refl, omega arith))

asn_type-Progress :
    (broken : Bool) (app : AsnDigger)
    → app.func_to_call ≡ func_asn_type
    → Progress app (asn_type broken app)
unfolding asn_type rank
asn_type-Progress broken app e = by_input app.inp refl
  where
    by_input : (bs : Bytes) → app.inp ≡ bs → Progress app (asn_type broken app)
    by_input [] i = ground arith
    by_input (b ∷ bs) i = ground arith

length_calls :
    (app : AsnDigger) (bs : Bytes) (s : Step)
    → app.func_to_call ≡ func_asn_length
    → app.inp ≡ bs
    → LengthProgress bs s
    → Progress app s
unfolding rank
length_calls app bs (done app') e i h = ground arith
length_calls app bs _ e i h = tt

asn_length-cons :
    (broken : Bool) (app : AsnDigger) (b : ℕ) (bs : Bytes)
    → app.inp ≡ b ∷ bs
    → asn_length broken app ≡ first_length broken b app bs
unfolding asn_length
asn_length-cons broken app b bs i = ground arith

asn_length-nil :
    (broken : Bool) (app : AsnDigger) → app.inp ≡ [] → Progress app (asn_length broken app)
unfolding asn_length
asn_length-nil broken app i = ground arith

asn_length-Progress :
    (broken : Bool) (app : AsnDigger)
    → app.func_to_call ≡ func_asn_length
    → Progress app (asn_length broken app)
asn_length-Progress broken app e = by_input app.inp refl
  where
    by_input : (bs : Bytes) → app.inp ≡ bs → Progress app (asn_length broken app)
    by_input [] i = asn_length-nil broken app i
    by_input (b ∷ bs) i =
        rw (asn_length-cons broken app b bs i)
          (length_calls app (b ∷ bs) _ e i (first_length-LengthProgress broken b app bs))

asn_value-Progress :
    (app : AsnDigger) → app.func_to_call ≡ func_asn_value → Progress app (asn_value app)
unfolding asn_value rank
asn_value-Progress app e =
    elim (Option-cases (construct_printable_typename app.type app.type_flg)) [
      | inl n ↦ rw (n, asn_value) tt
      | inr (name, n) ↦ rw (n, asn_value) (ground arith)
    ]

read_chunk-Progress :
    (broken : Bool) (app : AsnDigger)
    → app.func_to_call ≡ func_hex_dump_read_chunk
    → Progress app (hex_dump_read_chunk broken app)
unfolding hex_dump_read_chunk rank
read_chunk-Progress broken app e =
    ground (arith, length-drop (min (read_len app.remain_value_bytes) (length app.inp)) app.inp)

dump_from_buf-Progress :
    (app : AsnDigger)
    → app.func_to_call ≡ func_hex_dump_dump_from_buf
    → Progress app (hex_dump_dump_from_buf app)
unfolding hex_dump_dump_from_buf rank
dump_from_buf-Progress app e = ground (arith, (dumped-Frame app).inp)

call-Progress :
    (broken : Bool) (f : FuncToCall) (app : AsnDigger)
    → app.func_to_call ≡ f
    → Progress app (call broken f app)
unfolding call
call-Progress broken func_none app e = tt
call-Progress broken func_asn_type app e = asn_type-Progress broken app e
call-Progress broken func_asn_length app e = asn_length-Progress broken app e
call-Progress broken func_asn_value app e = asn_value-Progress app e
call-Progress broken func_hex_dump_read_chunk app e = read_chunk-Progress broken app e
call-Progress broken func_hex_dump_dump_from_buf app e = dump_from_buf-Progress app e

-- The loop runs on after a call.
pub run_loop-done :
    (broken : Bool) (fuel : ℕ) (app app' : AsnDigger)
    → app.inn_is_eof ≡ false
    → call broken app.func_to_call app ≡ done app'
    → run_loop broken (suc fuel) app ≡ run_loop broken fuel app'
unfolding run_loop
run_loop-done broken fuel app app' e c = ground arith

abbrev EnoughFuel : ℕ → AsnDigger → Type 0
EnoughFuel fuel app = ((app.inn_is_eof ≡ true) × (0 < fuel)) ⊎ (measure app + 1 < fuel)

run_loop-enough :
    (broken : Bool) (fuel : ℕ) (app : AsnDigger)
    → EnoughFuel fuel app
    → run_loop broken fuel app ≢ out_of_fuel
unfolding run_loop
run_loop-enough broken zero app h = absurd (ground arith)
run_loop-enough broken (suc fuel) app h =
    by_call (run_loop-enough broken fuel) (call broken app.func_to_call app) refl
      (call-Progress broken app.func_to_call app refl)
  where
    by_call :
        ((a : AsnDigger) → EnoughFuel fuel a → run_loop broken fuel a ≢ out_of_fuel)
        → (s : Step) → call broken app.func_to_call app ≡ s
        → Progress app s
        → run_loop broken (suc fuel) app ≢ out_of_fuel
    by_call ih (done app') c p = ground (arith, ih app')
    by_call ih (failed app') c p = ground arith
    by_call ih (aborted app') c p = ground arith
    by_call ih (fault app') c p = ground arith

-- On every input, with any number of columns, with and without the GPG flag, and whether stdin ends
-- cleanly or with a read error, the loop ends: its fuel of two rounds for each octet and two more is
-- enough.
pub run_ends :
    (broken : Bool) (cols : ℕ) (gpg : Bool) (inp : Bytes) → run broken cols gpg inp ≢ out_of_fuel
unfolding run rank
run_ends broken cols gpg inp =
    run_loop-enough broken (2 * length inp + 2) (initial cols gpg inp) (inr (omega arith))
