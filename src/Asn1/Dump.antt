-- ===== src/Asn1/Dump.antt =====
-- src/main/c/foo/Asn1Digger.c, `hexDump_readChunk` and `hexDump_dumpFromBuf`: a value as a hex dump.
use unspecified_garbage.Common.{
  ℕ, zero, suc, ◌+◌, ◌-◌, ◌%◌, ◌^◌, Bool, not, ◌&&◌, List, [], ◌∷◌, ◌++◌, leb, ltb, ◌==◌,
  if◌then◌else◌, Bytes, length, take, drop, min,
}
use unspecified_garbage.Asn1.State.{
  AsnDigger, func_asn_type, func_hex_dump_read_chunk, func_hex_dump_dump_from_buf, Event,
  gpg_secret_key, gpg_certificate, next_line, hex, blank, asci_column, Step, done, failed, aborted,
  fault, print, at_eof,
}

-- `sizeof innBuf`
abbrev pub inn_buf_cap : ℕ
inn_buf_cap = 32768

-- `MIN(remainValueBytes, innBuf_cap)` as a size_t: a negative int is the smaller, and becomes huge.
-- The alignment behind it compares a remainder with what it is the remainder of, and never applies.
unfoldable pub read_len : ℕ → ℕ
read_len remain = if leb (2 ^ 31) remain then remain + 2 ^ 64 - 2 ^ 32 else min remain inn_buf_cap

-- `remainValueBytes` as the assert compares it with a size_t.
unfoldable as_size : ℕ → ℕ
as_size remain = if leb (2 ^ 31) remain then remain + 2 ^ 64 - 2 ^ 32 else remain

-- The read gave `n` octets, not none. They are not more than are left of the value.
chunk : AsnDigger → ℕ → Step
unfolding as_size
chunk app n =
    if ltb inn_buf_cap n
    then fault app
    else if ltb (as_size app.remain_value_bytes) n
    then aborted app
    else done (record app {
      inn_buf = take n app.inp;
      inp = drop n app.inp;
      remain_value_bytes = (app.remain_value_bytes + 2 ^ 32 - n) % 2 ^ 32;
      func_to_call = func_hex_dump_dump_from_buf;
    })

-- `fread` gave nothing. At the end of stdin that is an error where `remainValueBytes > 0`.
no_octets : Bool → AsnDigger → Step
no_octets broken app =
    if leb (2 ^ 31) app.remain_value_bytes && not broken then done (at_eof app) else failed app

-- With none of the value's octets left to read the assert on `readLen` fails.
unfoldable pub hex_dump_read_chunk : Bool → AsnDigger → Step
unfolding read_len chunk no_octets
hex_dump_read_chunk broken app =
    if read_len app.remain_value_bytes == 0
    then aborted app
    else if min (read_len app.remain_value_bytes) (length app.inp) == 0
    then no_octets broken app
    else chunk app (min (read_len app.remain_value_bytes) (length app.inp))

-- `IS_PRINTABLE(c) ? c : '.'`
abbrev pub asci_of : ℕ → ℕ
asci_of c = if leb 0x20 c && leb c 0x7E then c else b'.'

-- One octet of the dump.
unfoldable pub dump_octet : AsnDigger → ℕ → AsnDigger
dump_octet app c =
    if app.hex_dump_offs % app.hex_cols == 0
    then record app {
      out = (app.out ++ (next_line app.asci app.hex_dump_offs ∷ [])) ++ (hex c ∷ []);
      asci = asci_of c ∷ [];
      hex_dump_offs = app.hex_dump_offs + 1;
    }
    else record app {
      out = app.out ++ (hex c ∷ []);
      asci = app.asci ++ (asci_of c ∷ []);
      hex_dump_offs = app.hex_dump_offs + 1;
    }

unfoldable pub dump_octets : AsnDigger → Bytes → AsnDigger
unfolding dump_octet
dump_octets app [] = app
dump_octets app (c ∷ cs) = dump_octets (dump_octet app c) cs

unfoldable pub blanks : ℕ → List Event
blanks zero = []
blanks (suc n) = blank ∷ blanks n

-- The ascii column of the last line; `n` octets came out of the buffer.
unfoldable pub end_column : AsnDigger → ℕ → AsnDigger
unfolding blanks
end_column app n =
    if leb 1 (length app.asci)
    then record app {
      out = (app.out ++ blanks (app.hex_cols - n % app.hex_cols)) ++ (asci_column app.asci ∷ []);
      asci = [];
    }
    else app

-- `innBuf[i]`, within what has been read.
pub octet_at : Bytes → ℕ → ℕ
octet_at [] i = 0
octet_at (x ∷ xs) zero = x
octet_at (x ∷ xs) (suc i) = octet_at xs i

pub is_first_run : AsnDigger → Bool
is_first_run app = app.remain_value_bytes == (app.len + 2 ^ 32 - length app.inn_buf) % 2 ^ 32

-- The GPG lines.
unfoldable pub gpg_lines : AsnDigger → AsnDigger
unfolding is_first_run octet_at
gpg_lines app =
    if app.assume_gpg && is_first_run app
    then (if app.type == 0x95
        then print app (gpg_secret_key (octet_at app.inn_buf 1))
        else if app.type == 0x99 && app.len == 1 && octet_at app.inn_buf 0 == 0x0D
        then print app gpg_certificate
        else app)
    else app

-- All that is printed of one buffer.
unfoldable pub dumped : AsnDigger → AsnDigger
unfolding gpg_lines dump_octets end_column
dumped app = end_column (dump_octets (gpg_lines app) app.inn_buf) (length app.inn_buf)

unfoldable pub hex_dump_dump_from_buf : AsnDigger → Step
hex_dump_dump_from_buf app =
    let app' = dumped app in
    if app.remain_value_bytes == 0
    then done (record app' { func_to_call = func_asn_type })
    else done (record app' { func_to_call = func_hex_dump_read_chunk })
