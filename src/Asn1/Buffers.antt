-- ===== src/Asn1/Buffers.antt =====
-- The bounds of `asciBuf` and `innBuf` in src/main/c/foo/Asn1Digger.c.
use unspecified_garbage.Common.{
  ◌↔◌, some, ==_ne, ℕ, suc, ◌+◌, ◌*◌, ◌/◌, ◌%◌, ◌^◌, ◌≤◌, ◌<◌, ◌≡◌, ◌≢◌, ◌∙◌, refl, sym, ap, arith,
  Bool, true, false, [], ◌∷◌, Bytes, length, length-append, if◌then◌else◌, ◌==◌,
}
use native.Mathlib.Nat.{mod-add-mod, mod-eq_of_lt, mod-lt, mod_self}
use native.Mathlib.Decide.{dec_lt}
use unspecified_garbage.Asn1.Frame.{dump_octet-Frame, dump_octets-Frame}
use unspecified_garbage.Asn1.State.{
  AsnDigger, Step, done, fault, func_asn_value, func_hex_dump_read_chunk, tag_line, print,
}
use unspecified_garbage.Asn1.Names.{construct_printable_typename}
use unspecified_garbage.Asn1.Header.{asn_type, asn_length, asn_value, value_of}
use unspecified_garbage.Asn1.Termination.{run_loop-done}
use unspecified_garbage.Asn1.Asserts.{typename_fits}
use unspecified_garbage.Asn1.Dump.{
  asci_of, hex_dump_read_chunk, dump_octet, dump_octets, inn_buf_cap,
}
use unspecified_garbage.Asn1.Loop.{call, run_loop, initial, Outcome, out_of_bounds, run}

-- `asciBuf` has 49 octets, and `parseArgs` takes 48 columns at most.
abbrev pub asci_buf_cap : ℕ
asci_buf_cap = 49

-- How many octets of the line the offset leaves behind it; at the start of a line, a full line's.
abbrev column : ℕ → ℕ → ℕ
column offs cols = if offs % cols == 0 then cols else offs % cols

column-suc : (offs cols : ℕ) → 0 < cols → column (offs + 1) cols ≡ offs % cols + 1
column-suc offs cols h = elim (dec_lt (offs % cols + 1) cols) [
  | yes p ↦
      let e : (offs + 1) % cols ≡ offs % cols + 1 =
        sym (mod-add-mod offs cols 1) ∙ mod-eq_of_lt p in
      ground arith
  | no p ↦
      let full : offs % cols + 1 ≡ cols = omega (arith, mod-lt offs h) in
      let e : (offs + 1) % cols ≡ 0 =
        sym (mod-add-mod offs cols 1) ∙ ap (λ k. k % cols) full ∙ mod_self cols in
      ground arith
]

-- What `asciBuf` holds before an octet of the dump is printed.
abbrev Fits : AsnDigger → Type 0
Fits app = length app.asci ≤ column app.hex_dump_offs app.hex_cols

dump_octet-Fits : (app : AsnDigger) (c : ℕ) → 0 < app.hex_cols → Fits app → Fits (dump_octet app c)
unfolding dump_octet
dump_octet-Fits app c h f =
    ground
      (arith, column-suc app.hex_dump_offs app.hex_cols h, length-append app.asci (asci_of c ∷ []))

dump_octets-Fits :
    (app : AsnDigger) (cs : Bytes) → 0 < app.hex_cols → Fits app → Fits (dump_octets app cs)
unfolding dump_octets
dump_octets-Fits app [] h f = f
dump_octets-Fits app (c ∷ cs) h f =
    dump_octets-Fits (dump_octet app c) cs (ground (arith, dump_octet-Frame app c))
      (dump_octet-Fits app c h f)

column-le : (offs cols : ℕ) → 0 < cols → column offs cols ≤ cols
column-le offs cols h = ground (arith, mod-lt offs h)

-- With the columns that `parseArgs` accepts, and the ascii column empty as it is at the start of a
-- chunk: after any number of octets it holds no more than a line's, and fewer than `asciBuf` can.
pub dump_octets_bounds :
    (app : AsnDigger) (cs : Bytes)
    → 0 < app.hex_cols
    → app.hex_cols ≤ 48
    → app.asci ≡ []
    → (length (dump_octets app cs).asci ≤ app.hex_cols)
      × (length (dump_octets app cs).asci < asci_buf_cap)
dump_octets_bounds app cs h k e =
    let start : Fits app = ground arith in
    let f = dump_octets-Fits app cs h start in
    let frame = dump_octets-Frame app cs in
    ground (arith, column-le (dump_octets app cs).hex_dump_offs app.hex_cols h, frame.hex_cols)

abbrev pub IsFault : Step → Type 0
IsFault (fault app) = Unit
IsFault _ = ⊥

-- Reading a chunk writes outside of `innBuf` exactly where the rest of the value, taken as an int, is
-- negative and stdin holds more than the buffer does.
pub read_chunk-IsFault_iff :
    (broken : Bool) (app : AsnDigger)
    → app.remain_value_bytes < 2 ^ 32
    → IsFault (hex_dump_read_chunk broken app)
      ↔ ((2 ^ 31 ≤ app.remain_value_bytes) × (inn_buf_cap < length app.inp))
unfolding hex_dump_read_chunk
read_chunk-IsFault_iff broken app h = (λ f. ground arith, λ k. ground arith)

read_chunk_fault :
    (broken : Bool) (app : AsnDigger)
    → 2 ^ 31 ≤ app.remain_value_bytes
    → inn_buf_cap < length app.inp
    → hex_dump_read_chunk broken app ≡ fault app
unfolding hex_dump_read_chunk
read_chunk_fault broken app h k = ground arith

abbrev pub IsOutOfBounds : Outcome → Type 0
IsOutOfBounds (out_of_bounds app) = Unit
IsOutOfBounds _ = ⊥

run_loop_fault :
    (broken : Bool) (fuel : ℕ) (app : AsnDigger)
    → app.inn_is_eof ≡ false
    → app.func_to_call ≡ func_hex_dump_read_chunk
    → 2 ^ 31 ≤ app.remain_value_bytes
    → inn_buf_cap < length app.inp
    → run_loop broken (suc fuel) app ≡ out_of_bounds app
unfolding run_loop call
run_loop_fault broken fuel app e f h k = ground (arith, read_chunk_fault broken app h k)

-- The digger where the length octets of 2 ^ 31 have been read and the tag's line is printed.
abbrev huge : ℕ → Bool → ℕ → Bytes → Bytes → AsnDigger
huge cols gpg t name payload =
    record (print
      (record (initial cols gpg payload) {
        type = t % 32;
        type_flg = t / 32 * 32;
        len = 2 ^ 31;
        len_flg = 128;
      })
      (tag_line (t % 32) (t / 32 * 32) (2 ^ 31) 128 name true)) {
        remain_value_bytes = 2 ^ 31;
        func_to_call = func_hex_dump_read_chunk;
      }

-- The digger with the length read.
abbrev huge_length : ℕ → Bool → ℕ → Bytes → AsnDigger
huge_length cols gpg t payload = record (initial cols gpg payload) {
  type = t % 32;
  type_flg = t / 32 * 32;
  len = 2 ^ 31;
  len_flg = 128;
  func_to_call = func_asn_value;
}

huge_value :
    (broken gpg : Bool) (cols t : ℕ) (name payload : Bytes)
    → t % 32 ≢ 16
    → construct_printable_typename (t % 32) (t / 32 * 32) ≡ some name
    → asn_value (huge_length cols gpg t payload) ≡ done (huge cols gpg t name payload)
unfolding asn_value value_of
huge_value broken gpg cols t name payload ne e = rw (e, asn_value) (rw (==_ne (t % 32) 16 ne))

huge_header :
    (broken gpg : Bool) (cols fuel t : ℕ) (payload : Bytes)
    → run_loop broken (suc (suc fuel)) (initial cols gpg (t ∷ 0x9F ∷ 0x80 ∷ 0x88 ∷ 0x00 ∷ payload))
      ≡ run_loop broken fuel (huge_length cols gpg t payload)
unfolding run_loop call asn_type asn_length
huge_header broken gpg cols fuel t payload = refl

huge_run :
    (broken gpg : Bool) (cols fuel t : ℕ) (name payload : Bytes)
    → t % 32 ≢ 16
    → construct_printable_typename (t % 32) (t / 32 * 32) ≡ some name
    → inn_buf_cap < length payload
    → run_loop broken
        (suc (suc (suc (suc fuel))))
        (initial cols gpg (t ∷ 0x9F ∷ 0x80 ∷ 0x88 ∷ 0x00 ∷ payload))
      ≡ out_of_bounds (huge cols gpg t name payload)
unfolding call
huge_run broken gpg cols fuel t name payload ne e h =
    huge_header broken gpg cols (suc (suc fuel)) t payload
    ∙ run_loop-done broken (suc fuel) (huge_length cols gpg t payload) _ refl
        (huge_value broken gpg cols t name payload ne e)
    ∙ run_loop_fault broken fuel (huge cols gpg t name payload) refl refl (omega arith) h

-- For every type octet but a sequence's, and more than 32768 octets behind the length octets
-- 9F 80 88 00: the run writes outside of its buffer, whatever the columns and flags are.
pub run_overflow :
    (broken gpg : Bool) (cols t : ℕ) (payload : Bytes)
    → t % 32 ≢ 16
    → inn_buf_cap < length payload
    → IsOutOfBounds (run broken cols gpg (t ∷ 0x9F ∷ 0x80 ∷ 0x88 ∷ 0x00 ∷ payload))
unfolding run
run_overflow broken gpg cols t payload ne h =
    let (name, e, _) = typename_fits (t % 32) (t / 32 * 32) in
    let enough : 2 * length (t ∷ 0x9F ∷ 0x80 ∷ 0x88 ∷ 0x00 ∷ payload) + 2
        ≡ suc (suc (suc (suc (2 * length payload + 8)))) =
      omega arith in
    rw (enough, huge_run broken gpg cols (2 * length payload + 8) t name payload ne e h) tt
