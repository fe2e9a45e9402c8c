-- ===== src/Asn1/Der.antt =====
-- The length and class octets of src/main/c/foo/Asn1Digger.c beside those of the encoding rules.
use unspecified_garbage.Common.{
  ℕ, ◌*◌, ◌/◌, ◌%◌, ◌<◌, ◌≡◌, ◌↔◌, ◌⊎◌, inl, inr, refl, arith, Bool, false, ◌∷◌, Bytes, codes, ◌==◌,
  Bool-cases, bit_or, not, ◌||◌, ltb, passes, test_below, if◌then◌else◌,
}
use unspecified_garbage.Asn1.State.{AsnDigger, func_asn_value, done}
use unspecified_garbage.Asn1.Names.{tag_class}
use unspecified_garbage.Asn1.Header.{asn_length, first_length, first_octet, shift_in}

-- What the digger makes of one length octet below 128, which X.690 reads as the length itself.
abbrev short_form : ℕ → ℕ
short_form b = if b % 32 == 31 then bit_or 0 b else b % 32

short_form_test : ℕ → Bool
short_form_test b =
    if short_form b == b then ltb b 32 || b % 32 == 31 else not (ltb b 32 || b % 32 == 31)

short_form_iff : (b : ℕ) → b < 128 → (short_form b ≡ b) ↔ ((b < 32) ⊎ (b % 32 ≡ 31))
unfolding short_form_test passes
short_form_iff b h = ground (arith, test_below short_form_test 128 b refl h)

-- Behind that octet.
abbrev short_length : AsnDigger → ℕ → Bytes → AsnDigger
short_length app b rest = record app {
  len = short_form b;
  len_flg = b / 32 * 32;
  func_to_call = func_asn_value;
  inp = rest;
}

short_length_done :
    (broken : Bool) (app : AsnDigger) (b : ℕ) (rest : Bytes)
    → b < 128
    → first_length broken b app rest ≡ done (short_length app b rest)
unfolding first_length first_octet shift_in
short_length_done broken app b rest h = elim (Bool-cases (b % 32 == 31)) [
  | inl l ↦
      let low : b % 128 ≡ b = omega arith in
      let top : (b / 128 % 2 == 1) ≡ false = ground arith in rw (l, top, low) refl
  | inr l ↦ rw l
]

-- On a length octet below 128, which X.690 reads as the length itself, the digger goes on to the
-- value, with the length right exactly where it is below 32 or ends in five one bits.
pub short_length_right_iff :
    (broken : Bool) (app : AsnDigger) (b : ℕ) (rest : Bytes)
    → app.inp ≡ b ∷ rest
    → b < 128
    → (app' : AsnDigger) × (asn_length broken app ≡ done app')
      × (app'.inp ≡ rest)
      × ((app'.len ≡ b) ↔ ((b < 32) ⊎ (b % 32 ≡ 31)))
unfolding asn_length
short_length_right_iff broken app b rest e h = (
  short_length app b rest,
  rw (asn_length, e) (short_length_done broken app b rest h),
  refl,
  short_form_iff b h,
)

-- X.690 has the class in the two high bits.
abbrev pub class_name : ℕ → Bytes
class_name c =
    if c == 0
    then codes "Universal"
    else if c == 1
    then codes "Application"
    else if c == 2
    then codes "ContextSpecific"
    else codes "Private"

-- Of the four classes that an octet's two high bits can tell, as X.690 names them, the name that is
-- printed is right for universal and private, and wrong for application and context-specific.
pub tag_class_right_iff :
    (f : ℕ) → f < 256 → (tag_class f ≡ class_name (f / 64)) ↔ ((f / 64 ≡ 0) ⊎ (f / 64 ≡ 3))
unfolding tag_class
tag_class_right_iff f h = ground arith
