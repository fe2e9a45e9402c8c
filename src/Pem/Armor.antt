-- ===== src/Pem/Armor.antt =====
-- Whole PEM documents: what `decodePem` makes of an armored text.
use unspecified_garbage.Common.{
  ℕ, zero, suc, ◌<◌, ◌↔◌, ◌≢◌, Bool, true, false, [], ◌∷◌, ◌++◌, ◌≡◌, refl, sym, ◌∙◌, ap, arith,
  Bytes, some, leb, IsByte, All, keep, codes, length, drop, length-drop, length-append, take-append,
  drop-append, inl, inr, Bool-cases, le→leb,
}
use unspecified_garbage.Pem.Base64.{Err, indeterminate, ok, returned, decode_b64_up_to_dash}
use unspecified_garbage.Pem.Stream.{heard, encode, padded, not_newline}
use unspecified_garbage.Pem.Exact.{HasPlainChars, decode-heard, heard_iff, decode_b64_empty}
use unspecified_garbage.Pem.Document.{
  Result, success, undefined, header, trailer, fread_block, read_label, drain_blocks, drain, finish,
  read_trailer, after_b64, read_body, decode_pem,
}

drain_blocks-enough : (fuel : ℕ) (inp : Bytes) → length inp < fuel → drain_blocks fuel inp ≡ []
unfolding drain_blocks
drain_blocks-enough zero inp h = elim h [ ]
drain_blocks-enough (suc fuel) inp h = elim (Bool-cases (leb 32768 (length inp))) [
  | inl full ↦
      rw full
        (drain_blocks-enough fuel (drop 32768 inp) (rw (length-drop 32768 inp) (ground arith)))
  | inr short ↦ rw short
]

-- The fuel of `drain` is enough: nothing is left of any input.
pub drain-nil : (inp : Bytes) → drain inp ≡ []
unfolding drain
drain-nil inp = drain_blocks-enough (suc (length inp)) inp (omega arith)

fread_block-append :
    (block rest : Bytes) (k : ℕ)
    → length block ≡ k
    → fread_block k (block ++ rest) ≡ some (block, rest)
unfolding fread_block
fread_block-append block rest k h = rw (
  le→leb k (length (block ++ rest)) (omega (arith, length-append block rest)),
  take-append k block rest h,
  drop-append k block rest h,
)

-- No byte of a label ends the line or is a dash.
abbrev pub IsLabel : Bytes → Type 0
IsLabel label = All (λ c. (c ≢ b'\n') × (c ≢ b'-')) label

read_label-label :
    (label rest : Bytes) (n : ℕ)
    → IsLabel label
    → n ≡ 0
    → read_label n (label ++ (codes "-----\n" ++ rest)) ≡ some rest
unfolding read_label
read_label-label [] rest n h e = rw e
read_label-label (c ∷ cs) rest n h e = ground (arith, read_label-label cs rest 0 h.1 refl)

-- A document with the given label, base64 lines and text behind the trailer's first words.
abbrev pub armored : Bytes → Bytes → Bytes → Bytes
armored label lines tail =
    header ++ (label ++ (codes "-----\n" ++ (lines ++ (b'-' ∷ (trailer ++ tail)))))

module _ (w : Bytes → Bool) (broken : Bool) where
  -- Behind a good header the decoder's result decides.
  decode_pem-block :
      (block rest : Bytes)
      → fread_block 11 rest ≡ some (header, block)
      → decode_pem w broken rest ≡ read_body w broken (read_label 0 block)
  unfolding decode_pem
  decode_pem-block block rest e = rw (e, decode_pem)

  decode_pem-header :
      (label inp : Bytes)
      → IsLabel label
      → decode_pem w broken (header ++ (label ++ (codes "-----\n" ++ inp)))
        ≡ after_b64 broken (decode_b64_up_to_dash w [] inp)
  unfolding read_body
  decode_pem-header label inp h =
      decode_pem-block _ _
        (fread_block-append header (label ++ (codes "-----\n" ++ inp)) 11 (omega arith))
      ∙ rw (read_label-label label inp 0 h refl)

module _ (broken : Bool) where
  read_trailer-block :
      (out inp tail : Bytes)
      → fread_block 8 inp ≡ some (trailer, tail)
      → read_trailer broken out inp ≡ finish broken false out tail
  unfolding read_trailer
  read_trailer-block out inp tail e = rw (e, read_trailer)

  read_trailer-good :
      (out tail : Bytes) → read_trailer broken out (trailer ++ tail) ≡ finish broken false out tail
  read_trailer-good out tail =
      read_trailer-block out _ tail (fread_block-append trailer tail 8 (omega arith))

abbrev pub clean : Bytes → Result
clean out = record { status = success; out = out; warned = false; unread = [] }

module _ (w : Bytes → Bool) (works : (o : Bytes) → w o ≡ true) where
  clean_of-returned :
      (out tail : Bytes) (n : ℕ)
      → after_b64 false (returned (ok n) out (trailer ++ tail)) ≡ clean out
  unfolding after_b64 finish
  clean_of-returned out tail n = read_trailer-good false out tail ∙ rw (drain-nil tail)

  decode_armored :
      (label lines tail out : Bytes) (err : Err)
      → IsLabel label
      → decode_b64_up_to_dash w [] (lines ++ (b'-' ∷ (trailer ++ tail)))
        ≡ returned err out (trailer ++ tail)
      → decode_pem w false (armored label lines tail)
        ≡ after_b64 false (returned err out (trailer ++ tail))
  decode_armored label lines tail out err h e =
      decode_pem-header w false label _ h ∙ ap (after_b64 false) e

  -- For octets `bs` (at least one), a label without dashes and line ends, a base64 text of `bs` in
  -- `lines` with line ends anywhere, any text behind the trailer's first words, an stdin that ends
  -- with no read error and an stdout that takes all output: `decodePem` reads all input, returns 0
  -- with no warning and prints `bs`, with zeros up to a multiple of three, exactly when the text has
  -- neither '+' nor '/'.
  pub decode_pem_exact :
      (bs label lines tail : Bytes)
      → All IsByte bs
      → bs ≢ []
      → IsLabel label
      → keep not_newline lines ≡ encode bs
      → (decode_pem w false (armored label lines tail) ≡ clean (padded bs)) ↔ HasPlainChars bs
  decode_pem_exact [] label lines tail hb ne hl e = absurd (ne refl)
  decode_pem_exact (x ∷ xs) label lines tail hb ne hl e = (
    (λ r. (heard_iff bs hb).0 (ap (λ (q : Result). q.out) (sym run ∙ r))),
    (λ p. run ∙ ap clean ((heard_iff bs hb).1 p)),
  )
    where
      bs : Bytes
      bs = x ∷ xs

      run : decode_pem w false (armored label lines tail) ≡ clean (heard bs)
      run =
          decode_armored label lines tail (heard bs) (ok 3) hl
            (decode-heard w works bs lines [] _ hb e)
          ∙ clean_of-returned (heard bs) tail 3

  -- For a label without dashes and line ends, lines that hold line ends only, and an stdout that
  -- takes all output, `decodePem` tests a result that was never written.
  pub decode_pem_empty :
      (label lines tail : Bytes)
      → IsLabel label
      → keep not_newline lines ≡ []
      → (decode_pem w false (armored label lines tail)).status ≡ undefined
  decode_pem_empty label lines tail hl e =
      ap (λ (q : Result). q.status)
        (decode_armored label lines tail [] indeterminate hl
          (decode_b64_empty w works lines [] _ e))
      ∙ (unfold after_b64 in refl)
