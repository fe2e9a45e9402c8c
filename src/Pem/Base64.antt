-- ===== src/Pem/Base64.antt =====
-- src/main/c/foo/PemCodec.c, `decodeB64UpToDash`: base64 text up to a dash, three octets for four
-- characters. The loop takes one input octet a round, so it is a recursion on the input.
use unspecified_garbage.Common.{
  ℕ, ◌+◌, ◌-◌, ◌*◌, ◌/◌, ◌%◌, Bool, ◌&&◌, [], ◌∷◌, ◌++◌, bit_or, leb, ◌==◌, if◌then◌else◌, Bytes,
}

-- What the chain of conditions makes of one input octet.
pub data Octet : Type 0 where
  sextet : ℕ → Octet
  newline dash unexpected : Octet

-- The values of '+' and '/' are the source's.
unfoldable pub classify : ℕ → Octet
classify c =
    if leb b'A' c && leb c b'Z'
    then sextet (c - 65)
    else if leb b'a' c && leb c b'z'
    then sextet (c - 71)
    else if leb b'0' c && leb c b'9'
    then sextet (c + 4)
    else if c == b'+'
    then sextet 63
    else if c == b'/'
    then sextet 64
    else if c == b'='
    then sextet 0
    else if c == b'\n'
    then newline
    else if c == b'-'
    then dash
    else unexpected

-- `sextets[0 .. iByte - 1]`, with `iByte` below four.
pub data Sextets : Type 0 where
  no_sextets : Sextets
  one : ℕ → Sextets
  two : ℕ → ℕ → Sextets
  three : ℕ → ℕ → ℕ → Sextets

-- The variable `err`: never written, a result that is not negative, or a negative one.
pub data Err : Type 0 where
  indeterminate : Err
  ok : ℕ → Err
  negative : Err

-- The three arguments of `printf("%c%c%c")`, each written as an unsigned char.
unfoldable pub group_octets : ℕ → ℕ → ℕ → ℕ → Bytes
group_octets a b c d =
    (bit_or (a * 4) (b / 16) % 256)
    ∷ (bit_or (b % 16 * 16) (c / 4) % 256)
    ∷ (bit_or (c % 4 * 64) d % 256)
    ∷ []

-- The loop goes on with these variables and this output, or leaves by `endFn`.
pub data Round : Type 0 where
  again : Err → Sextets → Bytes → Round
  leave : Err → Bytes → Round

-- `decodeB64UpToDash` returns with what is left of the input, or its assert on `fread` fails.
pub data B64 : Type 0 where
  returned : Err → Bytes → Bytes → B64
  read_assert : Bytes → B64

-- `printf_works out` tells whether stdout takes three more octets behind `out`.
module _ (printf_works : Bytes → Bool) where
  pub put_group : ℕ → ℕ → ℕ → ℕ → Bytes → Round
  put_group a b c d out =
      if printf_works out
      then again (ok 3) no_sextets (out ++ group_octets a b c d)
      else leave negative out

  unfoldable pub push_sextet : Err → Sextets → Bytes → ℕ → Round
  unfolding put_group
  push_sextet err no_sextets out s = again err (one s) out
  push_sextet err (one a) out s = again err (two a s) out
  push_sextet err (two a b) out s = again err (three a b s) out
  push_sextet err (three a b c) out s = put_group a b c s out

  unfoldable pub octet_round : Octet → Err → Sextets → Bytes → Round
  unfolding push_sextet
  octet_round (sextet s) err q out = push_sextet err q out s
  octet_round newline err q out = again err q out
  octet_round dash err q out = leave err out
  octet_round unexpected err q out = leave negative out

  unfoldable pub decode_from : Err → Sextets → Bytes → Bytes → B64
  unfolding octet_round
  decode_from err q out [] = read_assert out
  decode_from err q out (c ∷ cs) = elim (octet_round (classify c) err q out) [
    | again err' q' out' ↦ decode_from err' q' out' cs
    | leave err' out' ↦ returned err' out' cs
  ]

  unfoldable pub decode_b64_up_to_dash : Bytes → Bytes → B64
  unfolding decode_from
  decode_b64_up_to_dash out inp = decode_from indeterminate no_sextets out inp
