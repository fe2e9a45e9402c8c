-- ===== src/Pem/Alphabet.antt =====
-- The base64 alphabet of RFC 4648 against the decoder's table.
use unspecified_garbage.Common.{ℕ, ◌+◌, ◌-◌, ◌<◌, ◌≡◌, ltb, ◌==◌, if◌then◌else◌, arith}
use unspecified_garbage.Pem.Base64.{sextet, classify}

-- The character of a sextet, after RFC 4648.
abbrev pub b64_char : ℕ → ℕ
b64_char s =
    if ltb s 26
    then s + b'A'
    else if ltb s 52
    then s - 26 + b'a'
    else if ltb s 62
    then s - 52 + b'0'
    else if s == 62
    then b'+'
    else b'/'

-- What the decoder reads for it: one too many for the last two characters.
abbrev pub shifted : ℕ → ℕ
shifted s = if ltb s 62 then s else s + 1

pub classify-b64_char : (s : ℕ) → s < 64 → classify (b64_char s) ≡ sextet (shifted s)
unfolding classify
classify-b64_char s h = ground arith
