-- ===== src/Asn1/Loop.antt =====
-- src/main/c/foo/Asn1Digger.c, `run`: the dispatch loop, on fuel.
use unspecified_garbage.Common.{ℕ, zero, suc, ◌+◌, ◌*◌, Bool, true, false, [], Bytes, length}
use unspecified_garbage.Asn1.State.{
  AsnDigger, FuncToCall, func_none, func_asn_type, func_asn_length, func_asn_value,
  func_hex_dump_read_chunk, func_hex_dump_dump_from_buf, Step, done, failed, aborted, fault,
}
use unspecified_garbage.Asn1.Header.{asn_type, asn_length, asn_value}
use unspecified_garbage.Asn1.Dump.{hex_dump_read_chunk, hex_dump_dump_from_buf}

-- The switch of `run`. `broken` tells whether stdin ends with a read error.
unfoldable pub call : Bool → FuncToCall → AsnDigger → Step
call broken func_none app = aborted app
call broken func_asn_type app = asn_type broken app
call broken func_asn_length app = asn_length broken app
call broken func_asn_value app = asn_value app
call broken func_hex_dump_read_chunk app = hex_dump_read_chunk broken app
call broken func_hex_dump_dump_from_buf app = hex_dump_dump_from_buf app

-- How `run` ends, with what has been printed.
pub data Outcome : Type 0 where
  returned : AsnDigger → Outcome
  error : AsnDigger → Outcome
  abort : AsnDigger → Outcome
  out_of_bounds : AsnDigger → Outcome
  out_of_fuel : Outcome

unfoldable pub run_loop : Bool → ℕ → AsnDigger → Outcome
run_loop broken zero app = out_of_fuel
run_loop broken (suc fuel) app = elim app.inn_is_eof [
  | true ↦ returned app
  | false ↦ elim (call broken app.func_to_call app) [
    | done app' ↦ run_loop broken fuel app'
    | failed app' ↦ error app'
    | aborted app' ↦ abort app'
    | fault app' ↦ out_of_bounds app'
  ]
]

-- The state that `main` sets up: hexCols and the GPG flag come from the arguments.
abbrev pub initial : ℕ → Bool → Bytes → AsnDigger
initial cols gpg inp = record {
  inn_is_eof = false;
  assume_gpg = gpg;
  hex_cols = cols;
  type = 0;
  type_flg = 0;
  len = 0;
  len_flg = 0;
  hex_dump_offs = 0;
  remain_value_bytes = 0;
  func_to_call = func_asn_type;
  asci = [];
  inn_buf = [];
  inp = inp;
  out = [];
}

unfoldable pub run : Bool → ℕ → Bool → Bytes → Outcome
unfolding run_loop call
run broken cols gpg inp = run_loop broken (2 * length inp + 2) (initial cols gpg inp)
