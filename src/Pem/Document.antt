-- ===== src/Pem/Document.antt =====
-- src/main/c/foo/PemCodec.c, `decodePem`: the armor round the base64 text. What goes to stderr is
-- left out but for the warning on the trailer, which is the only trace of that branch.
use unspecified_garbage.Common.{
  ℕ, zero, suc, ◌+◌, Bool, true, false, not, [], ◌∷◌, Option, none, some, leb, ◌==◌, if◌then◌else◌,
  Bytes, bytes_eq, codes, length, take, drop,
}
use unspecified_garbage.Pem.Base64.{
  indeterminate, ok, negative, B64, returned, read_assert, decode_b64_up_to_dash,
}

-- How `decodePem` ends: with 0, with a negative number, at a failed assert, or with the use of an
-- indeterminate value.
pub data Status : Type 0 where
  success failure aborted undefined : Status

pub record Result : Type 0 where
  pub status : Status
  pub out : Bytes
  pub warned : Bool
  pub unread : Bytes

abbrev pub header : Bytes
header = codes "-----BEGIN "

abbrev pub trailer : Bytes
trailer = codes "----END "

abbrev pub buf_cap : ℕ
buf_cap = 32768

-- `fread(buf, k, 1, stdin) == 1`, with the block and what is behind it.
unfoldable pub fread_block : ℕ → Bytes → Option (Bytes × Bytes)
fread_block k inp = if leb k (length inp) then some (take k inp, drop k inp) else none

-- The rest of the header line, which must end in five dashes; `dashes` is `numDashesInSequence`.
unfoldable pub read_label : ℕ → Bytes → Option Bytes
read_label dashes [] = none
read_label dashes (c ∷ cs) =
    let rest = read_label (if c == b'-' then dashes + 1 else 0) cs in
    if c == b'\n' then (if dashes == 5 then some cs else none) else rest

-- `drain`: whole buffers are read until one comes short.
unfoldable pub drain_blocks : ℕ → Bytes → Bytes
drain_blocks zero inp = inp
drain_blocks (suc fuel) inp =
    let rest = drain_blocks fuel (drop buf_cap inp) in if leb buf_cap (length inp) then rest else []

unfoldable pub drain : Bytes → Bytes
unfolding drain_blocks
drain inp = drain_blocks (suc (length inp)) inp

-- The end of the function, from the label `drain` on.
unfoldable pub finish : Bool → Bool → Bytes → Bytes → Result
finish broken warned out inp = record {
  status = if broken then failure else success;
  out = out;
  warned = warned;
  unread = drain inp;
}

abbrev pub stop : Status → Bytes → Bytes → Result
stop s out rest = record { status = s; out = out; warned = false; unread = rest }

-- From the read of the trailer on.
unfoldable pub read_trailer : Bool → Bytes → Bytes → Result
unfolding finish fread_block bytes_eq
read_trailer broken out inp = elim (fread_block 8 inp) [
  | none ↦ finish broken true out []
  | some (block, rest) ↦ finish broken (not (bytes_eq block trailer)) out rest
]

unfoldable pub after_b64 : Bool → B64 → Result
unfolding read_trailer
after_b64 broken (read_assert out) = stop aborted out []
after_b64 broken (returned indeterminate out rest) = stop undefined out rest
after_b64 broken (returned negative out rest) = stop failure out rest
after_b64 broken (returned (ok n) out rest) = read_trailer broken out rest

-- `broken` tells whether stdin ends with a read error; `printf_works` is the decoder's.
module _ (printf_works : Bytes → Bool) (broken : Bool) where
  unfoldable pub read_body : Option Bytes → Result
  unfolding after_b64
  read_body none = stop failure [] []
  read_body (some inp) = after_b64 broken (decode_b64_up_to_dash printf_works [] inp)

  unfoldable pub decode_pem : Bytes → Result
  unfolding read_body fread_block bytes_eq read_label
  decode_pem inp = elim (fread_block 11 inp) [
    | none ↦ stop failure [] []
    | some (block, rest) ↦
        if bytes_eq block header then read_body (read_label 0 rest) else stop failure [] rest
  ]
