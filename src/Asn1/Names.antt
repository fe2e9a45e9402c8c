-- ===== src/Asn1/Names.antt =====
-- src/main/c/foo/Asn1Digger.c, `constructPrintableTypename`.
use unspecified_garbage.Common.{
  ℕ, ◌+◌, ◌-◌, ◌/◌, ◌%◌, [], ◌∷◌, ◌++◌, Option, none, some, ltb, ◌==◌, if◌then◌else◌, Bytes, codes,
  length,
}

-- One digit of "%02X".
abbrev hex_digit : ℕ → ℕ
hex_digit d = if ltb d 10 then d + b'0' else d - 10 + b'A'

abbrev hex₂ : ℕ → Bytes
hex₂ b = hex_digit (b / 16) ∷ hex_digit (b % 16) ∷ []

-- The cases of the switch that have a name of their own.
unfoldable pub known_name : ℕ → Option Bytes
known_name t =
    if t == 0x00
    then some (codes "EndOfContent")
    else if t == 0x02
    then some (codes "Integer")
    else if t == 0x04
    then some (codes "OctetString")
    else if t == 0x05
    then some (codes "null")
    else if t == 0x06
    then some (codes "ObjectIdentifier")
    else if t == 0x08
    then some (codes "External")
    else if t == 0x0C
    then some (codes "Utf8String")
    else if t == 0x0F
    then some (codes "Reserved!!")
    else if t == 0x10
    then some (codes "Sequence")
    else if t == 0x12
    then some (codes "NumericString")
    else if t == 0x13
    then some (codes "PrintableString")
    else if t == 0x18
    then some (codes "GeneralizedTime")
    else if t == 0x1C
    then some (codes "UniversalString")
    else if t == 0x1D
    then some (codes "CharacterString")
    else if t == 0x23
    then some (codes "OID-IRI")
    else none

-- `& 0xC0`, `& 0x40`, `& 0x80` and `& 0x20` against 0, on one octet.
unfoldable pub tag_class : ℕ → Bytes
tag_class f =
    if f / 64 % 4 == 0
    then codes "Universal"
    else if f / 64 % 2 == 0
    then codes "Application"
    else if f / 128 % 2 == 0
    then codes "ContextSpecific"
    else codes "Private"

unfoldable pub prim_or_constr : ℕ → Bytes
prim_or_constr f = if f / 32 % 2 == 0 then codes "primitive" else codes "constructed"

unfoldable pub sub_type : ℕ → Bytes
sub_type t = if t == 0x1F then codes "LongType" else codes "subType 0x" ++ hex₂ t

unfoldable pub generified : ℕ → ℕ → Bytes
generified t f = sub_type t ++ (codes ", " ++ (tag_class f ++ (codes ", " ++ prim_or_constr f)))

-- `sizeof"subType 0xFF, ObjectIdentifier, constructed"`
abbrev pub type_name_buf_cap : ℕ
type_name_buf_cap = 43

-- The name in the buffer; `none` where the assert on `snprintf` fails.
unfoldable pub construct_printable_typename : ℕ → ℕ → Option Bytes
unfolding known_name
construct_printable_typename t f = elim (known_name t) [
  | some name ↦ some name
  | none ↦ if ltb (length (generified t f)) type_name_buf_cap then some (generified t f) else none
]
