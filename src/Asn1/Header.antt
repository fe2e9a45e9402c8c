-- ===== src/Asn1/Header.antt =====
-- src/main/c/foo/Asn1Digger.c, `asnType`, `asnLength` and `asnValue`: one tag's header.
use unspecified_garbage.Common.{
  ℕ, ◌+◌, ◌*◌, ◌/◌, ◌%◌, ◌^◌, Bool, not, ◌||◌, [], ◌∷◌, none, some, ltb, ◌==◌, if◌then◌else◌,
  bit_or, Bytes,
}
use unspecified_garbage.Asn1.State.{
  AsnDigger, func_asn_type, func_asn_length, func_asn_value, func_hex_dump_read_chunk, tag_line,
  line_end, Step, done, failed, aborted, print, at_eof,
}
use unspecified_garbage.Asn1.Names.{construct_printable_typename}

-- `fread` came short: at the end of stdin (the function returns 0), or with an error where `broken`.
unfoldable pub short_read : Bool → AsnDigger → Step
short_read broken app = if broken then failed app else done (at_eof app)

unfoldable pub asn_type : Bool → AsnDigger → Step
unfolding short_read
asn_type broken app = elim app.inp [
  | [] ↦ short_read broken app
  | b ∷ rest ↦ done (record app {
    type = b % 32;
    type_flg = b / 32 * 32;
    func_to_call = func_asn_length;
    inp = rest;
  })
]

-- What the first length octet sets.
unfoldable pub first_octet : ℕ → AsnDigger → AsnDigger
first_octet b app = record app { len = if b % 32 == 31 then 0 else b % 32; len_flg = b / 32 * 32 }

-- `len << n * 7 | b & 0x7F` on 32 bits.
unfoldable pub shift_in : ℕ → ℕ → AsnDigger → AsnDigger
shift_in n b app = record app { len = bit_or (app.len * 2 ^ (n * 7) % 2 ^ 32) (b % 128) }

abbrev length_done : AsnDigger → Bytes → AsnDigger
length_done app rest = record app { func_to_call = func_asn_value; inp = rest }

-- The octets behind the first of a long length; `n` octets have been read.
unfoldable pub more_length : Bool → ℕ → AsnDigger → Bytes → Step
unfolding short_read shift_in
more_length broken n app [] = short_read broken (record app { inp = [] })
more_length broken n app (b ∷ bs) =
    let app' = shift_in (n + 1) b app in
    let rest = more_length broken (n + 1) app' bs in
    if ltb 4 (n + 1)
    then failed (record app { inp = bs })
    else if b / 128 % 2 == 1
    then rest
    else done (length_done app' bs)

-- The round for the first octet, which tells whether the length is long.
unfoldable pub first_length : Bool → ℕ → AsnDigger → Bytes → Step
unfolding first_octet more_length
first_length broken b app bs =
    let app' = shift_in 1 b (first_octet b app) in
    if b % 32 == 31
    then (if b / 128 % 2 == 1 then more_length broken 1 app' bs else done (length_done app' bs))
    else done (length_done (record app { len = b % 32; len_flg = b / 32 * 32 }) bs)

unfoldable pub asn_length : Bool → AsnDigger → Step
unfolding first_length
asn_length broken app = elim app.inp [
  | [] ↦ short_read broken app
  | b ∷ bs ↦ first_length broken b app bs
]

-- `asnValue` behind the name: the tag's line, and what to do with its value.
unfoldable pub value_of : AsnDigger → Bytes → Step
value_of app name =
    let has_value = not (app.len == 0) in
    let app' = print app (tag_line app.type app.type_flg app.len app.len_flg name has_value) in
    if app.len == 0 || app.type == 0x10
    then done (record (print app' line_end) { func_to_call = func_asn_type })
    else done (record app' {
      remain_value_bytes = app.len;
      hex_dump_offs = 0;
      asci = [];
      func_to_call = func_hex_dump_read_chunk;
    })

unfoldable pub asn_value : AsnDigger → Step
unfolding value_of
asn_value app = elim (construct_printable_typename app.type app.type_flg) [
  | none ↦ aborted app
  | some name ↦ value_of app name
]
