-- ===== src/Pem/Group.antt =====
-- One group of four characters, as the decoder reads it, against the three octets it stands for.
use unspecified_garbage.Common.{
  ℕ, ◌+◌, ◌*◌, ◌/◌, ◌%◌, ◌<◌, Bool, true, ◌&&◌, ◌||◌, not, [], ◌∷◌, ◌≡◌, refl, ltb, ◌==◌, bit_or,
  arith, passes, test_below₂, Bytes,
}
use unspecified_garbage.Pem.Base64.{group_octets}
use unspecified_garbage.Pem.Alphabet.{shifted}

abbrev first : ℕ → ℕ → ℕ
first a b = bit_or (a * 4) (b / 16) % 256

abbrev second : ℕ → ℕ → ℕ
second b c = bit_or (b % 16 * 16) (c / 4) % 256

abbrev third : ℕ → ℕ → ℕ
third c d = bit_or (c % 4 * 64) d % 256

abbrev plain : ℕ → ℕ → Bool
plain a b = ltb a 62 && ltb b 62

-- `x` is right where both sextets are plain, and where it is right, `y` holds.
abbrev agrees : Bool → Bool → Bool → Bool
agrees p x y = (not p || x) && (not x || y)

first_test : ℕ → ℕ → Bool
first_test a b = agrees (plain a b) (first (shifted a) (shifted b) == a * 4 + b / 16) (ltb a 62)

second_test : ℕ → ℕ → Bool
second_test b c =
    agrees (plain b c) (second (shifted b) (shifted c) == b % 16 * 16 + c / 4) (ltb b 62)

third_test : ℕ → ℕ → Bool
third_test c d = agrees (plain c d) (third (shifted c) (shifted d) == c % 4 * 64 + d) (plain c d)

first_table : passes (λ a. passes (first_test a) 0 64) 0 64 ≡ true
unfolding passes first_test
first_table = refl

second_table : passes (λ a. passes (second_test a) 0 64) 0 64 ≡ true
unfolding passes second_test
second_table = refl

third_table : passes (λ a. passes (third_test a) 0 64) 0 64 ≡ true
unfolding passes third_test
third_table = refl

abbrev pub ArePlain : ℕ → ℕ → ℕ → ℕ → Type 0
ArePlain a b c d = (a < 62) × (b < 62) × (c < 62) × (d < 62)

-- The octets of four sextets, after RFC 4648.
abbrev pub joined : ℕ → ℕ → ℕ → ℕ → Bytes
joined a b c d = (a * 4 + b / 16) ∷ (b % 16 * 16 + c / 4) ∷ (c % 4 * 64 + d) ∷ []

module _ (a b c d : ℕ) (ha : a < 64) (hb : b < 64) (hc : c < 64) (hd : d < 64) where
  pub group_octets-shifted_plain :
      ArePlain a b c d
      → group_octets (shifted a) (shifted b) (shifted c) (shifted d) ≡ joined a b c d
  unfolding group_octets first_test second_test third_test
  group_octets-shifted_plain p = ground (
    arith,
    test_below₂ 64 first_test a b first_table ha hb,
    test_below₂ 64 second_test b c second_table hb hc,
    test_below₂ 64 third_test c d third_table hc hd,
  )

  pub plain_of-group_octets :
      group_octets (shifted a) (shifted b) (shifted c) (shifted d) ≡ joined a b c d
      → ArePlain a b c d
  unfolding group_octets first_test second_test third_test
  plain_of-group_octets e = ground (
    arith,
    test_below₂ 64 first_test a b first_table ha hb,
    test_below₂ 64 second_test b c second_table hb hc,
    test_below₂ 64 third_test c d third_table hc hd,
  )
