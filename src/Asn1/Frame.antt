-- ===== src/Asn1/Frame.antt =====
-- What printing a buffer leaves alone in the digger of src/main/c/foo/Asn1Digger.c.
use unspecified_garbage.Common.{ℕ, ◌≡◌, arith, [], ◌∷◌, Bytes, length}
use unspecified_garbage.Asn1.State.{AsnDigger}
use unspecified_garbage.Asn1.Dump.{dump_octet, dump_octets, end_column, gpg_lines, dumped}

pub record Frame (app app' : AsnDigger) : Type 0 where
  pub inn_is_eof : app'.inn_is_eof ≡ app.inn_is_eof
  pub hex_cols : app'.hex_cols ≡ app.hex_cols
  pub type : app'.type ≡ app.type
  pub len : app'.len ≡ app.len
  pub remain : app'.remain_value_bytes ≡ app.remain_value_bytes
  pub inp : app'.inp ≡ app.inp

pub dump_octet-Frame : (app : AsnDigger) (c : ℕ) → Frame app (dump_octet app c)
unfolding dump_octet
dump_octet-Frame app c = ground arith

Frame-trans : {a b c : AsnDigger} → Frame a b → Frame b c → Frame a c
Frame-trans f g = ground arith

pub dump_octets-Frame : (app : AsnDigger) (cs : Bytes) → Frame app (dump_octets app cs)
unfolding dump_octets
dump_octets-Frame app [] = ground arith
dump_octets-Frame app (c ∷ cs) =
    Frame-trans (dump_octet-Frame app c) (dump_octets-Frame (dump_octet app c) cs)

pub gpg_lines-Frame : (app : AsnDigger) → Frame app (gpg_lines app)
unfolding gpg_lines
gpg_lines-Frame app = ground arith

end_column-Frame : (app : AsnDigger) (n : ℕ) → Frame app (end_column app n)
unfolding end_column
end_column-Frame app n = ground arith

pub dumped-Frame : (app : AsnDigger) → Frame app (dumped app)
unfolding dumped
dumped-Frame app = Frame-trans (gpg_lines-Frame app) (
    Frame-trans (dump_octets-Frame (gpg_lines app) app.inn_buf)
      (end_column-Frame (dump_octets (gpg_lines app) app.inn_buf) (length app.inn_buf)))
