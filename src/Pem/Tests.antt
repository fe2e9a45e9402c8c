-- ===== src/Pem/Tests.antt =====
-- Runs of the decoder of src/main/c/foo/PemCodec.c, and its theorems at concrete inputs.
use unspecified_garbage.Common.{
  ◌≡◌, ◌↔◌, refl, arith, Bool, true, false, [], ◌∷◌, ◌++◌, Bytes, codes, keep,
}
use unspecified_garbage.Pem.Base64.{
  ok, returned, decode_b64_up_to_dash, decode_from, classify, group_octets,
}
use unspecified_garbage.Pem.Stream.{encode, padded}
use unspecified_garbage.Pem.Exact.{HasPlainChars, decode_b64_exact}
use unspecified_garbage.Pem.Document.{decode_pem, undefined}
use unspecified_garbage.Pem.Armor.{armored, clean, decode_pem_exact, decode_pem_empty}

abbrev always : Bytes → Bool
always out = true

always-true : (o : Bytes) → always o ≡ true
always-true o = refl

abbrev man : Bytes
man = codes "Man"

decode-man : decode_b64_up_to_dash always [] (codes "TW\nFu\n-") ≡ returned (ok 3) man []
unfolding decode_b64_up_to_dash decode_from classify group_octets
decode-man = refl

-- The text "+/+/" stands for 0xfb 0xff 0xbf.
decode_high_chars :
    decode_b64_up_to_dash always [] (codes "+/+/-") ≡ returned (ok 3) (252 ∷ 15 ∷ 192 ∷ []) []
unfolding decode_b64_up_to_dash decode_from classify group_octets
decode_high_chars = refl

decode_b64_exact_example :
    (decode_b64_up_to_dash always [] (codes "TW\nFu\n" ++ b'-' ∷ [])
      ≡ returned (ok 3) (padded man) [])
    ↔ HasPlainChars man
unfolding keep encode
decode_b64_exact_example =
    decode_b64_exact always always-true man (codes "TW\nFu\n") [] [] (omega arith) (λ e. cc) refl

decode_pem_exact_example :
    (decode_pem always false (armored (codes "X") (codes "TW\nFu\n") (codes "X-----\n"))
      ≡ clean (padded man))
    ↔ HasPlainChars man
unfolding keep encode
decode_pem_exact_example =
    decode_pem_exact always always-true man (codes "X") (codes "TW\nFu\n") (codes "X-----\n")
      (omega arith) (λ e. cc) (omega arith) refl

decode_pem_empty_example :
    (decode_pem always false (armored (codes "X") (codes "\n") [])).status ≡ undefined
unfolding keep
decode_pem_empty_example =
    decode_pem_empty always always-true (codes "X") (codes "\n") [] (omega arith) refl
