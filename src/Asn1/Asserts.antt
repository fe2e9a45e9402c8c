-- ===== src/Asn1/Asserts.antt =====
-- The asserts and the buffers of src/main/c/foo/Asn1Digger.c.
use unspecified_garbage.Common.{
  ℕ, zero, suc, ◌+◌, ◌*◌, ◌/◌, ◌%◌, ◌≤◌, ◌<◌, ◌≡◌, inl, inr, refl, arith, Bool, true, false, [],
  ◌∷◌, ◌++◌, Bytes, length, length-append, Option-cases, some, ltb, lt→ltb, Bool-cases, ◌==◌,
  if_both, codes,
}
use unspecified_garbage.Asn1.State.{
  AsnDigger, FuncToCall, func_none, func_asn_type, func_asn_length, func_asn_value,
  func_hex_dump_read_chunk, func_hex_dump_dump_from_buf, Step, done, failed, aborted, fault,
}
use unspecified_garbage.Asn1.Header.{
  asn_type, asn_length, asn_value, more_length, first_length, value_of, short_read,
}
use unspecified_garbage.Asn1.Dump.{hex_dump_read_chunk, hex_dump_dump_from_buf}
use unspecified_garbage.Asn1.Frame.{dumped-Frame}
use unspecified_garbage.Asn1.Loop.{call, Outcome, abort, run_loop, run, initial}
use unspecified_garbage.Asn1.Names.{
  construct_printable_typename, known_name, tag_class, prim_or_constr, sub_type, generified,
  type_name_buf_cap,
}

length-tag_class : (f : ℕ) → length (tag_class f) ≤ 15
unfolding tag_class
length-tag_class f = ground arith

length-prim_or_constr : (f : ℕ) → length (prim_or_constr f) ≤ 11
unfolding prim_or_constr
length-prim_or_constr f = ground arith

length-sub_type : (t : ℕ) → length (sub_type t) ≤ 12
unfolding sub_type
length-sub_type t = ground arith

length-generified : (t f : ℕ) → length (generified t f) < 43
unfolding generified
length-generified t f = omega (
  arith,
  length-append (sub_type t) (codes ", " ++ (tag_class f ++ (codes ", " ++ prim_or_constr f))),
  length-append (tag_class f) (codes ", " ++ prim_or_constr f),
  length-sub_type t,
  length-tag_class f,
  length-prim_or_constr f,
)

length-known_name : (t : ℕ) {name : Bytes} → known_name t ≡ some name → length name < 43
unfolding known_name
length-known_name t e = ground arith

-- For every type and flags octet the name is written, with its terminator, within `typeNameBuf`.
pub typename_fits :
    (t f : ℕ)
    → (name : Bytes) × (construct_printable_typename t f ≡ some name)
      × (length name < type_name_buf_cap)
unfolding construct_printable_typename
typename_fits t f = elim (Option-cases (known_name t)) [
  | inl e ↦ (
    generified t f,
    rw (e, construct_printable_typename) (rw (lt→ltb _ _ (length-generified t f))),
    length-generified t f,
  )
  | inr (name, e) ↦ (name, rw (e, construct_printable_typename), length-known_name t e)
]

-- What a function relies on when it is called.
abbrev Ready : FuncToCall → AsnDigger → Type 0
Ready func_none app = app.inn_is_eof ≡ true
Ready func_hex_dump_read_chunk app = 0 < app.remain_value_bytes
Ready _ app = Unit

-- The call ends in no failed assert, and the next function finds what it relies on.
abbrev Safe : Step → Type 0
Safe (done app') = Ready app'.func_to_call app'
Safe (aborted app') = ⊥
Safe _ = Unit

more_length-Safe :
    (broken : Bool) (n : ℕ) (app : AsnDigger) (bs : Bytes) → Safe (more_length broken n app bs)
unfolding more_length
more_length-Safe true n app [] = tt
more_length-Safe false n app [] = refl
more_length-Safe broken n app (b ∷ bs) =
    if_both Safe (ltb 4 (n + 1)) (λ _. tt)
      λ _. if_both Safe (b / 128 % 2 == 1) (λ _. more_length-Safe broken (n + 1) _ bs) (λ _. tt)

first_length-Safe :
    (broken : Bool) (b : ℕ) (app : AsnDigger) (bs : Bytes) → Safe (first_length broken b app bs)
unfolding first_length
first_length-Safe broken b app bs =
    if_both Safe (b % 32 == 31)
      (λ _. if_both Safe (b / 128 % 2 == 1) (λ _. more_length-Safe broken 1 _ bs) (λ _. tt))
      (λ _. tt)

short_read-Safe : (broken : Bool) (app : AsnDigger) → Safe (short_read broken app)
unfolding short_read
short_read-Safe true app = tt
short_read-Safe false app = refl

asn_length-Safe : (broken : Bool) (app : AsnDigger) → Safe (asn_length broken app)
unfolding asn_length
asn_length-Safe broken app =
    elim app.inp
      as (λ bs.
        Safe (elim bs [ [] ↦ short_read broken app | b ∷ r ↦ first_length broken b app r ])) [
          | [] ↦ short_read-Safe broken app
          | b ∷ bs ↦ first_length-Safe broken b app bs
        ]

asn_type-Safe : (broken : Bool) (app : AsnDigger) → Safe (asn_type broken app)
unfolding asn_type
asn_type-Safe broken app = ground (arith, short_read-Safe broken app)

value_of-Safe : (app : AsnDigger) (name : Bytes) → Safe (value_of app name)
unfolding value_of
value_of-Safe app name = ground arith

asn_value-Safe : (app : AsnDigger) → Safe (asn_value app)
unfolding asn_value
asn_value-Safe app =
    let (name, e, _) = typename_fits app.type app.type_flg in
    rw (e, asn_value) (value_of-Safe app name)

read_chunk-Safe :
    (broken : Bool) (app : AsnDigger)
    → 0 < app.remain_value_bytes
    → Safe (hex_dump_read_chunk broken app)
unfolding hex_dump_read_chunk
read_chunk-Safe broken app h = ground arith

dump_from_buf-Safe : (app : AsnDigger) → Safe (hex_dump_dump_from_buf app)
unfolding hex_dump_dump_from_buf
dump_from_buf-Safe app = ground (arith, (dumped-Frame app).remain)

call-Safe :
    (broken : Bool) (f : FuncToCall) (app : AsnDigger)
    → app.inn_is_eof ≡ false
    → Ready f app
    → Safe (call broken f app)
unfolding call
call-Safe broken func_none app e h = cc
call-Safe broken func_asn_type app e h = asn_type-Safe broken app
call-Safe broken func_asn_length app e h = asn_length-Safe broken app
call-Safe broken func_asn_value app e h = asn_value-Safe app
call-Safe broken func_hex_dump_read_chunk app e h = read_chunk-Safe broken app h
call-Safe broken func_hex_dump_dump_from_buf app e h = dump_from_buf-Safe app

-- The run did not end in `abort` or at a failed assert.
abbrev pub IsNoAbort : Outcome → Type 0
IsNoAbort (abort app) = ⊥
IsNoAbort _ = Unit

run_loop-IsNoAbort :
    (broken : Bool) (fuel : ℕ) (app : AsnDigger)
    → Ready app.func_to_call app
    → IsNoAbort (run_loop broken fuel app)
unfolding run_loop
run_loop-IsNoAbort broken zero app h = tt
run_loop-IsNoAbort broken (suc fuel) app h = elim (Bool-cases app.inn_is_eof) [
  | inl e ↦ ground arith
  | inr e ↦
      by_call (run_loop-IsNoAbort broken fuel) (call broken app.func_to_call app) refl
        (call-Safe broken app.func_to_call app e h)
]
  where
    by_call :
        ((a : AsnDigger) → Ready a.func_to_call a → IsNoAbort (run_loop broken fuel a))
        → (s : Step) → call broken app.func_to_call app ≡ s
        → Safe s
        → IsNoAbort (run_loop broken (suc fuel) app)
    by_call ih (done app') c p = ground (arith, ih app' p)
    by_call ih (failed app') c p = ground arith
    by_call ih (aborted app') c p = absurd p
    by_call ih (fault app') c p = ground arith

-- On every input the run ends in no `abort` and at no failed assert.
pub run-IsNoAbort :
    (broken : Bool) (cols : ℕ) (gpg : Bool) (inp : Bytes) → IsNoAbort (run broken cols gpg inp)
unfolding run
run-IsNoAbort broken cols gpg inp =
    run_loop-IsNoAbort broken (2 * length inp + 2) (initial cols gpg inp) tt
