-- ===== src/Pem/Exact.antt =====
-- Which base64 texts the decoder gets right: those without '+' and '/'.
use mathlib.Core.List.{append_cancel_left}
use unspecified_garbage.Common.{
  ℕ, ◌<◌, ◌↔◌, ◌≢◌, ◌+◌, ◌*◌, ◌/◌, ◌%◌, Bool, true, [], ◌∷◌, ◌++◌, ◌≡◌, refl, sym, ◌∙◌, ap, arith,
  Bytes, append-nil, IsByte, All, keep,
}
use unspecified_garbage.Pem.Base64.{
  group_octets, indeterminate, ok, returned, no_sextets, decode_b64_up_to_dash,
}
use unspecified_garbage.Pem.Alphabet.{b64_char}
use unspecified_garbage.Pem.Group.{
  ArePlain, joined, group_octets-shifted_plain, plain_of-group_octets,
}
use unspecified_garbage.Pem.Stream.{
  err_after, encode, padded, heard, heard_group, not_newline, IsPlainChar, b64_char-IsPlainChar,
  decode_from-encode, decode_from-keep, encode-IsSextetChar,
}

abbrev TriplePlain : ℕ → ℕ → ℕ → Type 0
TriplePlain x y z = ArePlain (x / 4) (x % 4 * 16 + y / 16) (y % 16 * 4 + z / 64) (z % 64)

abbrev heard_triple : ℕ → ℕ → ℕ → Bytes
heard_triple x y z = heard_group (x / 4) (x % 4 * 16 + y / 16) (y % 16 * 4 + z / 64) (z % 64)

module _ (x y z : ℕ) (hx : x < 256) (hy : y < 256) (hz : z < 256) where
  joined_triple :
      joined (x / 4) (x % 4 * 16 + y / 16) (y % 16 * 4 + z / 64) (z % 64) ≡ x ∷ y ∷ z ∷ []
  joined_triple = ground arith

  triple-heard : TriplePlain x y z → heard_triple x y z ≡ x ∷ y ∷ z ∷ []
  unfolding heard_group
  triple-heard p =
      group_octets-shifted_plain _ _ _ _ (omega arith) (omega arith) (omega arith) (omega arith) p
      ∙ joined_triple

  heard-triple : heard_triple x y z ≡ x ∷ y ∷ z ∷ [] → TriplePlain x y z
  unfolding heard_group
  heard-triple e =
      plain_of-group_octets _ _ _ _ (omega arith) (omega arith) (omega arith) (omega arith)
        (e ∙ sym joined_triple)

abbrev pub HasPlainChars : Bytes → Type 0
HasPlainChars bs = All IsPlainChar (encode bs)

heard_one : (x : ℕ) → heard_group (x / 4) (x % 4 * 16) 0 0 ≡ heard_triple x 0 0
heard_one x = ground arith

heard_two :
    (x y : ℕ) → heard_group (x / 4) (x % 4 * 16 + y / 16) (y % 16 * 4) 0 ≡ heard_triple x y 0
heard_two x y = ground arith

plain_char : (s : ℕ) → s < 64 → IsPlainChar (b64_char s) → s < 62
plain_char s h = (b64_char-IsPlainChar s h).0

char_plain : (s : ℕ) → s < 64 → s < 62 → IsPlainChar (b64_char s)
char_plain s h = (b64_char-IsPlainChar s h).1

encode-plain : (bs : Bytes) → All IsByte bs → HasPlainChars bs → heard bs ≡ padded bs
unfolding encode padded heard
encode-plain [] h p = refl
encode-plain (x ∷ []) h p =
    let p₁ = plain_char (x / 4) (omega arith) p.0 in
    let p₂ = plain_char (x % 4 * 16) (omega arith) p.1.0 in
    heard_one x ∙ triple-heard x 0 0 h.0 (omega arith) (omega arith) (omega arith)
encode-plain (x ∷ y ∷ []) h p =
    let p₁ = plain_char (x / 4) (omega arith) p.0 in
    let p₂ = plain_char (x % 4 * 16 + y / 16) (omega arith) p.1.0 in
    let p₃ = plain_char (y % 16 * 4) (omega arith) p.1.1.0 in
    heard_two x y ∙ triple-heard x y 0 h.0 h.1.0 (omega arith) (omega arith)
encode-plain (x ∷ y ∷ z ∷ r) h p =
    let p₁ = plain_char (x / 4) (omega arith) p.0 in
    let p₂ = plain_char (x % 4 * 16 + y / 16) (omega arith) p.1.0 in
    let p₃ = plain_char (y % 16 * 4 + z / 64) (omega arith) p.1.1.0 in
    let p₄ = plain_char (z % 64) (omega arith) p.1.1.1.0 in
    rw (triple-heard x y z h.0 h.1.0 h.1.1.0 (omega arith), encode-plain r h.1.1.1 p.1.1.1.1)

-- Lists that begin with three elements each are equal part by part.
three_cancel :
    {a b c x y z : ℕ} {r t : Bytes}
    → (a ∷ b ∷ c ∷ r) ≡ (x ∷ y ∷ z ∷ t)
    → ((a ∷ b ∷ c ∷ []) ≡ (x ∷ y ∷ z ∷ [])) × (r ≡ t)
three_cancel e = (cc, cc)

heard_cancel :
    (a b c d x y z : ℕ) (r t : Bytes)
    → heard_group a b c d ++ r ≡ x ∷ y ∷ z ∷ t
    → (heard_group a b c d ≡ x ∷ y ∷ z ∷ []) × (r ≡ t)
unfolding heard_group group_octets
heard_cancel a b c d x y z r t e = three_cancel e

plain-encode : (bs : Bytes) → All IsByte bs → heard bs ≡ padded bs → HasPlainChars bs
unfolding encode padded heard
plain-encode [] h e = tt
plain-encode (x ∷ []) h e =
    let t = heard-triple x 0 0 h.0 (omega arith) (omega arith) (sym (heard_one x) ∙ e) in
    (
      char_plain (x / 4) (omega arith) (omega arith),
      (char_plain (x % 4 * 16) (omega arith) (omega arith), ground arith),
    )
plain-encode (x ∷ y ∷ []) h e =
    let t = heard-triple x y 0 h.0 h.1.0 (omega arith) (sym (heard_two x y) ∙ e) in
    (
      char_plain (x / 4) (omega arith) (omega arith),
      (
        char_plain (x % 4 * 16 + y / 16) (omega arith) (omega arith),
        (char_plain (y % 16 * 4) (omega arith) (omega arith), ground arith),
      ),
    )
plain-encode (x ∷ y ∷ z ∷ r) h e =
    let (e₁, e₂) =
      heard_cancel (x / 4) (x % 4 * 16 + y / 16) (y % 16 * 4 + z / 64) (z % 64) x y z _ _ e in
    let t = heard-triple x y z h.0 h.1.0 h.1.1.0 e₁ in
    (
      char_plain (x / 4) (omega arith) (omega arith),
      (
        char_plain (x % 4 * 16 + y / 16) (omega arith) (omega arith),
        (
          char_plain (y % 16 * 4 + z / 64) (omega arith) (omega arith),
          (char_plain (z % 64) (omega arith) (omega arith), plain-encode r h.1.1.1 e₂),
        ),
      ),
    )

pub heard_iff : (bs : Bytes) → All IsByte bs → (heard bs ≡ padded bs) ↔ HasPlainChars bs
heard_iff bs h = (plain-encode bs h, encode-plain bs h)

module _ (w : Bytes → Bool) (works : (o : Bytes) → w o ≡ true) where
  pub decode-heard :
      (bs inp out rest : Bytes)
      → All IsByte bs
      → keep not_newline inp ≡ encode bs
      → decode_b64_up_to_dash w out (inp ++ b'-' ∷ rest)
        ≡ returned (err_after indeterminate bs) (out ++ heard bs) rest
  unfolding decode_b64_up_to_dash
  decode-heard bs inp out rest h e =
      decode_from-keep w works inp indeterminate no_sextets out rest
        (rw e (encode-IsSextetChar bs h))
      ∙ rw e (decode_from-encode w works bs indeterminate out rest h)

  -- For octets `bs` (at least one), a base64 text of `bs` with line ends anywhere and a dash behind
  -- it, and an stdout that takes all output: the decoder prints `bs`, with zeros up to a multiple of
  -- three, and returns 3, exactly when the text has neither '+' nor '/'.
  pub decode_b64_exact :
      (bs inp out rest : Bytes)
      → All IsByte bs
      → bs ≢ []
      → keep not_newline inp ≡ encode bs
      → (decode_b64_up_to_dash w out (inp ++ b'-' ∷ rest) ≡ returned (ok 3) (out ++ padded bs) rest)
        ↔ HasPlainChars bs
  decode_b64_exact [] inp out rest h ne e = absurd (ne refl)
  decode_b64_exact (x ∷ xs) inp out rest h ne e = (
    (λ r. plain-encode bs h (append_cancel_left out _ _ (out_of (sym d ∙ r)))),
    (λ p. d ∙ ap (λ o. returned (ok 3) (out ++ o) rest) (encode-plain bs h p)),
  )
    where
      bs : Bytes
      bs = x ∷ xs

      d : decode_b64_up_to_dash w out (inp ++ b'-' ∷ rest) ≡ returned (ok 3) (out ++ heard bs) rest
      d = decode-heard bs inp out rest h e

      out_of : {o o' : Bytes} → returned (ok 3) o rest ≡ returned (ok 3) o' rest → o ≡ o'
      out_of q = cc

  -- Where only line ends stand before the dash, and stdout takes all output, the decoder returns a
  -- variable it never wrote.
  pub decode_b64_empty :
      (inp out rest : Bytes)
      → keep not_newline inp ≡ []
      → decode_b64_up_to_dash w out (inp ++ b'-' ∷ rest) ≡ returned indeterminate out rest
  decode_b64_empty inp out rest e =
      decode-heard [] inp out rest tt (unfold encode in e) ∙ (unfold heard in rw append-nil)
