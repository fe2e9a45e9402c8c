-- ===== src/Asn1/Gpg.antt =====
-- The option "--gpg" of src/main/c/foo/Asn1Digger.c.
use unspecified_garbage.Common.{
  ℕ, zero, suc, ◌+◌, ◌*◌, ◌/◌, ◌%◌, ◌<◌, ◌≡◌, ◌∙◌, refl, ap, arith, Bool, true, false, [], ◌∷◌,
  Bytes, length, Option-cases, ltb, Bool-cases, inl, inr, ◌==◌, if_both₂,
}
use unspecified_garbage.Asn1.State.{
  AsnDigger, FuncToCall, func_none, func_asn_type, func_asn_length, func_asn_value,
  func_hex_dump_read_chunk, func_hex_dump_dump_from_buf, Step, done, failed, aborted, fault,
}
use unspecified_garbage.Asn1.Names.{construct_printable_typename}
use unspecified_garbage.Asn1.Header.{
  asn_type, asn_length, asn_value, more_length, first_length, value_of, short_read,
}
use unspecified_garbage.Asn1.Dump.{
  hex_dump_read_chunk, hex_dump_dump_from_buf, dump_octet, dump_octets, end_column, gpg_lines,
  dumped,
}
use unspecified_garbage.Asn1.Frame.{dumped-Frame}
use unspecified_garbage.Asn1.Loop.{
  call, Outcome, returned, error, abort, out_of_bounds, out_of_fuel, run_loop, run, initial,
}

abbrev with_gpg : AsnDigger → AsnDigger
with_gpg app = record app { assume_gpg = true }

abbrev step_with_gpg : Step → Step
step_with_gpg (done app) = done (with_gpg app)
step_with_gpg (failed app) = failed (with_gpg app)
step_with_gpg (aborted app) = aborted (with_gpg app)
step_with_gpg (fault app) = fault (with_gpg app)

abbrev pub outcome_with_gpg : Outcome → Outcome
outcome_with_gpg (returned app) = returned (with_gpg app)
outcome_with_gpg (error app) = error (with_gpg app)
outcome_with_gpg (abort app) = abort (with_gpg app)
outcome_with_gpg (out_of_bounds app) = out_of_bounds (with_gpg app)
outcome_with_gpg out_of_fuel = out_of_fuel

-- `asnType` masks the type with 0x1F.
abbrev TypeBelow : Step → Type 0
TypeBelow (done app) = app.type < 32
TypeBelow _ = Unit

-- The call behaves alike with the flag, and keeps the type small.
abbrev Alike : Step → Step → Type 0
Alike s t = (s ≡ step_with_gpg t) × TypeBelow t

gpg_lines_none : (app : AsnDigger) → app.type < 32 → gpg_lines app ≡ app
unfolding gpg_lines
gpg_lines_none app h = ground arith

dump_octets-with_gpg :
    (app : AsnDigger) (cs : Bytes) → dump_octets (with_gpg app) cs ≡ with_gpg (dump_octets app cs)
unfolding dump_octets
dump_octets-with_gpg app [] = refl
dump_octets-with_gpg app (c ∷ cs) =
    ap (λ a. dump_octets a cs) (dump_octet-with_gpg app c)
    ∙ dump_octets-with_gpg (dump_octet app c) cs
  where
    dump_octet-with_gpg :
        (a : AsnDigger) (x : ℕ) → dump_octet (with_gpg a) x ≡ with_gpg (dump_octet a x)
    dump_octet-with_gpg a x = ground arith

end_column-with_gpg :
    (app : AsnDigger) (n : ℕ) → end_column (with_gpg app) n ≡ with_gpg (end_column app n)
unfolding end_column
end_column-with_gpg app n = ground arith

dumped-with_gpg : (app : AsnDigger) → app.type < 32 → dumped (with_gpg app) ≡ with_gpg (dumped app)
unfolding dumped
dumped-with_gpg app h = rw (
  gpg_lines_none app h,
  gpg_lines_none (with_gpg app) h,
  dump_octets-with_gpg app app.inn_buf,
  end_column-with_gpg (dump_octets app app.inn_buf) (length app.inn_buf),
)

more_length-Alike :
    (broken : Bool) (n : ℕ) (app : AsnDigger) (bs : Bytes)
    → app.type < 32
    → Alike (more_length broken n (with_gpg app) bs) (more_length broken n app bs)
unfolding more_length
more_length-Alike true n app [] h = (refl, tt)
more_length-Alike false n app [] h = (refl, h)
more_length-Alike broken n app (b ∷ bs) h =
    if_both₂ Alike (ltb 4 (n + 1)) (λ _. (refl, tt))
      λ _.
        if_both₂ Alike (b / 128 % 2 == 1) (λ _. more_length-Alike broken (n + 1) _ bs h)
          (λ _. (refl, h))

first_length-Alike :
    (broken : Bool) (b : ℕ) (app : AsnDigger) (bs : Bytes)
    → app.type < 32
    → Alike (first_length broken b (with_gpg app) bs) (first_length broken b app bs)
unfolding first_length
first_length-Alike broken b app bs h =
    if_both₂ Alike (b % 32 == 31)
      (λ _.
        if_both₂ Alike (b / 128 % 2 == 1) (λ _. more_length-Alike broken 1 _ bs h) (λ _. (refl, h)))
      (λ _. (refl, h))

short_read-Alike :
    (broken : Bool) (app : AsnDigger)
    → app.type < 32
    → Alike (short_read broken (with_gpg app)) (short_read broken app)
unfolding short_read
short_read-Alike true app h = (refl, tt)
short_read-Alike false app h = (refl, h)

asn_length-Alike :
    (broken : Bool) (app : AsnDigger)
    → app.type < 32
    → Alike (asn_length broken (with_gpg app)) (asn_length broken app)
unfolding asn_length
asn_length-Alike broken app h = by_input app.inp
  where
    by_input :
        (bs : Bytes)
        → Alike
            (elim bs [
              | [] ↦ short_read broken (with_gpg app)
              | b ∷ r ↦ first_length broken b (with_gpg app) r
            ])
            (elim bs [ [] ↦ short_read broken app | b ∷ r ↦ first_length broken b app r ])
    by_input [] = short_read-Alike broken app h
    by_input (b ∷ r) = first_length-Alike broken b app r h

asn_type-Alike :
    (broken : Bool) (app : AsnDigger)
    → app.type < 32
    → Alike (asn_type broken (with_gpg app)) (asn_type broken app)
unfolding asn_type
asn_type-Alike broken app h =
    ground (arith, (short_read-Alike broken app h).0, (short_read-Alike broken app h).1)

value_of-Alike :
    (app : AsnDigger) (name : Bytes)
    → app.type < 32
    → Alike (value_of (with_gpg app) name) (value_of app name)
unfolding value_of
value_of-Alike app name h = ground arith

asn_value-Alike :
    (app : AsnDigger) → app.type < 32 → Alike (asn_value (with_gpg app)) (asn_value app)
unfolding asn_value
asn_value-Alike app h = elim (Option-cases (construct_printable_typename app.type app.type_flg)) [
  | inl e ↦ rw (e, asn_value) (refl, tt)
  | inr (name, e) ↦ rw (e, asn_value) (value_of-Alike app name h)
]

read_chunk-Alike :
    (broken : Bool) (app : AsnDigger)
    → app.type < 32
    → Alike (hex_dump_read_chunk broken (with_gpg app)) (hex_dump_read_chunk broken app)
unfolding hex_dump_read_chunk
read_chunk-Alike broken app h = ground arith

dump_from_buf-Alike :
    (app : AsnDigger)
    → app.type < 32
    → Alike (hex_dump_dump_from_buf (with_gpg app)) (hex_dump_dump_from_buf app)
unfolding hex_dump_dump_from_buf
dump_from_buf-Alike app h = ground (arith, dumped-with_gpg app h, (dumped-Frame app).type)

call-Alike :
    (broken : Bool) (f : FuncToCall) (app : AsnDigger)
    → app.type < 32
    → Alike (call broken f (with_gpg app)) (call broken f app)
unfolding call
call-Alike broken func_none app h = (refl, tt)
call-Alike broken func_asn_type app h = asn_type-Alike broken app h
call-Alike broken func_asn_length app h = asn_length-Alike broken app h
call-Alike broken func_asn_value app h = asn_value-Alike app h
call-Alike broken func_hex_dump_read_chunk app h = read_chunk-Alike broken app h
call-Alike broken func_hex_dump_dump_from_buf app h = dump_from_buf-Alike app h

run_loop-with_gpg :
    (broken : Bool) (fuel : ℕ) (app : AsnDigger)
    → app.type < 32
    → run_loop broken fuel (with_gpg app) ≡ outcome_with_gpg (run_loop broken fuel app)
unfolding run_loop
run_loop-with_gpg broken zero app h = refl
run_loop-with_gpg broken (suc fuel) app h = elim (Bool-cases app.inn_is_eof) [
  | inl e ↦ ground arith
  | inr e ↦
      let same = call-Alike broken app.func_to_call app h in
      by_call (run_loop-with_gpg broken fuel) e (call broken app.func_to_call app) refl same.0
        same.1
]
  where
    by_call :
        ((a : AsnDigger)
          → a.type < 32
          → run_loop broken fuel (with_gpg a) ≡ outcome_with_gpg (run_loop broken fuel a))
        → app.inn_is_eof ≡ false
        → (s : Step) → call broken app.func_to_call app ≡ s
        → call broken app.func_to_call (with_gpg app)
          ≡ step_with_gpg (call broken app.func_to_call app)
        → TypeBelow (call broken app.func_to_call app)
        → run_loop broken (suc fuel) (with_gpg app)
          ≡ outcome_with_gpg (run_loop broken (suc fuel) app)
    by_call ih e (done app') c q p = ground (arith, ih app')
    by_call ih e (failed app') c q p = ground arith
    by_call ih e (aborted app') c q p = ground arith
    by_call ih e (fault app') c q p = ground arith

-- The option "--gpg" changes no run: on every input, with any number of columns, the run with it ends
-- and prints as the run without it.
pub run-with_gpg :
    (broken : Bool) (cols : ℕ) (inp : Bytes)
    → run broken cols true inp ≡ outcome_with_gpg (run broken cols false inp)
unfolding run
run-with_gpg broken cols inp =
    run_loop-with_gpg broken (2 * length inp + 2) (initial cols false inp) (omega arith)
