-- ===== src/Asn1/State.antt =====
-- src/main/c/foo/Asn1Digger.c: the state of the digger, what it prints, how a function of it returns.
use unspecified_garbage.Common.{ℕ, Bool, true, List, [], ◌∷◌, ◌++◌, Bytes}

pub data FuncToCall : Type 0 where
  func_none func_asn_type func_asn_length func_asn_value : FuncToCall
  func_hex_dump_read_chunk func_hex_dump_dump_from_buf : FuncToCall

-- One call of `printf` or `puts`, with its arguments.
pub data Event : Type 0 where
  -- type, typeFlg, len, lenFlg and the type's name; the flag tells of ", value:" behind it
  tag_line : ℕ → ℕ → ℕ → ℕ → Bytes → Bool → Event
  line_end : Event
  gpg_secret_key : ℕ → Event
  gpg_certificate : Event
  -- the ascii column of the line before, and the offset that begins the next one
  next_line : Bytes → ℕ → Event
  hex : ℕ → Event
  blank : Event
  asci_column : Bytes → Event

-- `asci` and `inn_buf` are the used parts of `asciBuf` and `innBuf`; `remain_value_bytes` is the
-- 32 bit pattern of that int. `inp` is what is left of stdin and `out` what has been printed.
pub record AsnDigger : Type 0 where
  pub inn_is_eof : Bool
  pub assume_gpg : Bool
  pub hex_cols : ℕ
  pub type : ℕ
  pub type_flg : ℕ
  pub len : ℕ
  pub len_flg : ℕ
  pub hex_dump_offs : ℕ
  pub remain_value_bytes : ℕ
  pub func_to_call : FuncToCall
  pub asci : Bytes
  pub inn_buf : Bytes
  pub inp : Bytes
  pub out : List Event

-- A function returns 0, returns another number, ends the process (`abort` or an assert), or writes
-- outside of its buffer.
pub data Step : Type 0 where
  done : AsnDigger → Step
  failed : AsnDigger → Step
  aborted : AsnDigger → Step
  fault : AsnDigger → Step

abbrev pub print : AsnDigger → Event → AsnDigger
print app e = record app { out = app.out ++ (e ∷ []) }

-- `fread` gave nothing: at the end of stdin the flag is set (and, with debugging on, the function is
-- reset), and a read error is the caller's.
abbrev pub at_eof : AsnDigger → AsnDigger
at_eof app = record app { inn_is_eof = true; func_to_call = func_none }
