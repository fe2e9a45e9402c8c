-- ===== src/Pem/Stream.antt =====
-- The decoder on whole base64 texts: what it makes of the encoding of any octets.
use unspecified_garbage.Common.{
  ℕ, ◌<◌, ◌↔◌, ◌≢◌, ◌+◌, ◌*◌, ◌/◌, ◌%◌, Bool, true, false, not, [], ◌∷◌, ◌++◌, ◌≡◌, ◌≢◌, refl, ◌∙◌,
  ◌==◌, arith, Bytes, IsByte, All, keep, append_assoc, append-nil, inl, inr, Bool-cases,
}
use unspecified_garbage.Pem.Base64.{
  sextet, newline, classify, Sextets, no_sextets, one, two, three, Err, ok, group_octets, returned,
  decode_from, push_sextet, again, octet_round,
}
use unspecified_garbage.Pem.Alphabet.{b64_char, shifted, classify-b64_char}

-- Three octets as four characters.
abbrev group : ℕ → ℕ → ℕ → ℕ → Bytes
group a b c d = b64_char a ∷ b64_char b ∷ b64_char c ∷ b64_char d ∷ []

-- The base64 text of some octets, after RFC 4648, on one line.
unfoldable pub encode : Bytes → Bytes
encode [] = []
encode (x ∷ []) = b64_char (x / 4) ∷ b64_char (x % 4 * 16) ∷ b'=' ∷ b'=' ∷ []
encode (x ∷ y ∷ []) =
    b64_char (x / 4) ∷ b64_char (x % 4 * 16 + y / 16) ∷ b64_char (y % 16 * 4) ∷ b'=' ∷ []
encode (x ∷ y ∷ z ∷ r) =
    b64_char (x / 4)
    ∷ b64_char (x % 4 * 16 + y / 16)
    ∷ b64_char (y % 16 * 4 + z / 64)
    ∷ b64_char (z % 64)
    ∷ encode r

-- The octets with zeros behind them up to a multiple of three.
unfoldable pub padded : Bytes → Bytes
padded [] = []
padded (x ∷ []) = x ∷ 0 ∷ 0 ∷ []
padded (x ∷ y ∷ []) = x ∷ y ∷ 0 ∷ []
padded (x ∷ y ∷ z ∷ r) = x ∷ y ∷ z ∷ padded r

abbrev pub not_newline : ℕ → Bool
not_newline c = not (c == b'\n')

abbrev pub IsPlainChar : ℕ → Type 0
IsPlainChar c = (c ≢ b'+') × (c ≢ b'/')

-- What comes out for them: each group read with the decoder's own values.
unfoldable pub heard_group : ℕ → ℕ → ℕ → ℕ → Bytes
heard_group a b c d = group_octets (shifted a) (shifted b) (shifted c) (shifted d)

unfoldable pub heard : Bytes → Bytes
unfolding heard_group
heard [] = []
heard (x ∷ []) = heard_group (x / 4) (x % 4 * 16) 0 0
heard (x ∷ y ∷ []) = heard_group (x / 4) (x % 4 * 16 + y / 16) (y % 16 * 4) 0
heard (x ∷ y ∷ z ∷ r) =
    heard_group (x / 4) (x % 4 * 16 + y / 16) (y % 16 * 4 + z / 64) (z % 64) ++ heard r

abbrev pub err_after : Err → Bytes → Err
err_after err [] = err
err_after err (x ∷ xs) = ok 3

err_after_ok : (bs : Bytes) → err_after (ok 3) bs ≡ ok 3
err_after_ok [] = refl
err_after_ok (x ∷ xs) = refl

classify_pad : classify b'=' ≡ sextet 0
unfolding classify
classify_pad = refl

classify_newline : (c : ℕ) → not_newline c ≡ false → classify c ≡ newline
unfolding classify
classify_newline c h = ground arith

pub IsSextetChar : ℕ → Type 0
IsSextetChar c = (s : ℕ) × (classify c ≡ sextet s)

module _ (w : Bytes → Bool) (works : (o : Bytes) → w o ≡ true) where
  decode_from_group :
      (err : Err) (c₁ c₂ c₃ c₄ a b c d : ℕ) (out rest : Bytes)
      → classify c₁ ≡ sextet a
      → classify c₂ ≡ sextet b
      → classify c₃ ≡ sextet c
      → classify c₄ ≡ sextet d
      → decode_from w err no_sextets out (c₁ ∷ c₂ ∷ c₃ ∷ c₄ ∷ rest)
        ≡ decode_from w (ok 3) no_sextets (out ++ group_octets a b c d) rest
  unfolding decode_from
  decode_from_group err c₁ c₂ c₃ c₄ a b c d out rest e₁ e₂ e₃ e₄ =
      rw (e₁, decode_from)
        (rw (e₂, decode_from) (rw (e₃, decode_from) (rw (e₄, decode_from) (rw (works out)))))

  decode_from_dash :
      (err : Err) (out rest : Bytes)
      → decode_from w err no_sextets out (b'-' ∷ rest) ≡ returned err out rest
  unfolding decode_from classify
  decode_from_dash err out rest = refl

  pub decode_from-encode :
      (bs : Bytes) (err : Err) (out rest : Bytes)
      → All IsByte bs
      → decode_from w err no_sextets out (encode bs ++ b'-' ∷ rest)
        ≡ returned (err_after err bs) (out ++ heard bs) rest
  unfolding encode heard
  decode_from-encode [] err out rest h = rw append-nil (decode_from_dash err out rest)
  decode_from-encode (x ∷ []) err out rest h =
      decode_from_group err _ _ _ _ _ _ _ _ out _ (classify-b64_char (x / 4) (omega arith))
        (classify-b64_char (x % 4 * 16) (omega arith)) classify_pad classify_pad
      ∙ decode_from_dash (ok 3) _ rest
  decode_from-encode (x ∷ y ∷ []) err out rest h =
      decode_from_group err _ _ _ _ _ _ _ _ out _ (classify-b64_char (x / 4) (omega arith))
        (classify-b64_char (x % 4 * 16 + y / 16) (omega arith))
        (classify-b64_char (y % 16 * 4) (omega arith)) classify_pad
      ∙ decode_from_dash (ok 3) _ rest
  decode_from-encode (x ∷ y ∷ z ∷ r) err out rest h =
      decode_from_group err _ _ _ _ _ _ _ _ out _ (classify-b64_char (x / 4) (omega arith))
        (classify-b64_char (x % 4 * 16 + y / 16) (omega arith))
        (classify-b64_char (y % 16 * 4 + z / 64) (omega arith))
        (classify-b64_char (z % 64) (omega arith))
      ∙ decode_from-encode r (ok 3) _ rest h.1.1.1
      ∙ rw (err_after_ok r, append_assoc)

  push_again :
      (q : Sextets) (err : Err) (out : Bytes) (s : ℕ)
      → (err' : Err) × (q' : Sextets) × (out' : Bytes) × (push_sextet w err q out s
          ≡ again err' q' out')
  unfolding push_sextet
  push_again no_sextets err out s = (err, one s, out, refl)
  push_again (one a) err out s = (err, two a s, out, refl)
  push_again (two a b) err out s = (err, three a b s, out, refl)
  push_again (three a b c) err out s =
      (ok 3, no_sextets, out ++ group_octets a b c s, rw (works out))

  -- Line ends are skipped.
  pub decode_from-keep :
      (inp : Bytes) (err : Err) (q : Sextets) (out rest : Bytes)
      → All IsSextetChar (keep not_newline inp)
      → decode_from w err q out (inp ++ b'-' ∷ rest)
        ≡ decode_from w err q out (keep not_newline inp ++ b'-' ∷ rest)
  unfolding decode_from keep IsSextetChar
  decode_from-keep [] err q out rest h = refl
  decode_from-keep (c ∷ cs) err q out rest h = elim (Bool-cases (not_newline c)) [
    | inl k ↦
        let h' : All IsSextetChar (c ∷ keep not_newline cs) = rw (k, keep) at h in
        let (s, e) = h'.0 in
        let (err', q', out', p) = push_again q err out s in
        rw (k, keep)
          (rw (e, decode_from) (rw (p, octet_round) (decode_from-keep cs err' q' out' rest h'.1)))
    | inr k ↦
        let h' : All IsSextetChar (keep not_newline cs) = rw (k, keep) at h in
        rw (k, keep)
          (rw (classify_newline c k, decode_from) (decode_from-keep cs err q out rest h'))
  ]

IsSextetChar-char : (s : ℕ) → s < 64 → IsSextetChar (b64_char s)
unfolding IsSextetChar
IsSextetChar-char s h = (shifted s, classify-b64_char s h)

IsSextetChar-pad : IsSextetChar b'='
unfolding IsSextetChar
IsSextetChar-pad = (0, classify_pad)

pub encode-IsSextetChar : (bs : Bytes) → All IsByte bs → All IsSextetChar (encode bs)
unfolding encode
encode-IsSextetChar [] h = tt
encode-IsSextetChar (x ∷ []) h = (
  IsSextetChar-char (x / 4) (omega arith),
  (IsSextetChar-char (x % 4 * 16) (omega arith), (IsSextetChar-pad, (IsSextetChar-pad, tt))),
)
encode-IsSextetChar (x ∷ y ∷ []) h = (
  IsSextetChar-char (x / 4) (omega arith),
  (
    IsSextetChar-char (x % 4 * 16 + y / 16) (omega arith),
    (IsSextetChar-char (y % 16 * 4) (omega arith), (IsSextetChar-pad, tt)),
  ),
)
encode-IsSextetChar (x ∷ y ∷ z ∷ r) h = (
  IsSextetChar-char (x / 4) (omega arith),
  (
    IsSextetChar-char (x % 4 * 16 + y / 16) (omega arith),
    (
      IsSextetChar-char (y % 16 * 4 + z / 64) (omega arith),
      (IsSextetChar-char (z % 64) (omega arith), encode-IsSextetChar r h.1.1.1),
    ),
  ),
)

pub b64_char-IsPlainChar : (s : ℕ) → s < 64 → IsPlainChar (b64_char s) ↔ (s < 62)
b64_char-IsPlainChar s h = ground arith
