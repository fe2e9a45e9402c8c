-- ===== src/Mdns/Header.antt =====
-- src/main/c/foo/MdnsSd.c, the functions that set the fields of a message, in the format of RFC 6887.
use unspecified_garbage.Common.{
  ℕ, zero, suc, ◌+◌, ◌*◌, ◌/◌, ◌%◌, ◌^◌, ◌≤◌, ◌<◌, ◌≡◌, ◌∙◌, refl, ap, arith, ◌&&◌, [], ◌∷◌, ◌++◌,
  Option, none, some, leb, if◌then◌else◌, Bytes, length, drop, replicate,
}

-- `msg[i] = b`, within the message.
unfoldable pub put : ℕ → ℕ → Bytes → Bytes
put i b [] = []
put zero b (x ∷ xs) = b ∷ xs
put (suc i) b (x ∷ xs) = x ∷ put i b xs

-- `msg[i]`
unfoldable pub octet : ℕ → Bytes → ℕ
octet i [] = 0
octet zero (x ∷ xs) = x
octet (suc i) (x ∷ xs) = octet i xs

-- `memset(msg + i, b, n)`
unfoldable pub fill : ℕ → ℕ → ℕ → Bytes → Bytes
unfolding put
fill i b zero msg = msg
fill i b (suc n) msg = fill (suc i) b n (put i b msg)

-- The four octets of a number, the highest first, from index `i` on.
unfoldable pub put_word : ℕ → ℕ → Bytes → Bytes
unfolding put
put_word i w msg =
    put (i + 3) (w % 256) (
      put (i + 2) (w / 2 ^ 8 % 256) (put (i + 1) (w / 2 ^ 16 % 256) (put i (w / 2 ^ 24 % 256) msg)))

-- Each function is `none` where one of its asserts fails.
unfoldable pub set_version : Bytes → ℕ → Option Bytes
unfolding put
set_version msg v = if leb 1 (length msg) && leb 1 v && leb v 0xFF then some (put 0 v msg) else none

unfoldable pub set_is_request : Bytes → Option Bytes
unfolding put octet
set_is_request msg = if leb 2 (length msg) then some (put 1 (octet 1 msg % 128) msg) else none

unfoldable pub set_opcode : Bytes → ℕ → Option Bytes
unfolding put octet
set_opcode msg op =
    if leb 2 (length msg) && leb op 0x7F
    then some (put 1 (octet 1 msg / 128 * 128 + op) msg)
    else none

unfoldable pub zero_reserved : Bytes → Option Bytes
unfolding put
zero_reserved msg = if leb 4 (length msg) then some (put 3 0 (put 2 0 msg)) else none

unfoldable pub set_requested_lifetime : Bytes → ℕ → Option Bytes
unfolding put_word
set_requested_lifetime msg seconds =
    if leb 8 (length msg) then some (put_word 4 seconds msg) else none

unfoldable pub set_ipv4_src : Bytes → ℕ → Option Bytes
unfolding put_word fill
set_ipv4_src msg ip =
    if leb 24 (length msg)
    then some (put_word 20 ip (fill 18 0xFF 2 (fill 8 0x00 10 msg)))
    else none

infixl 2 ◌>>=◌
abbrev ◌>>=◌ {ℓ κ} : {A : Type ℓ} {B : Type κ} → Option A → (A → Option B) → Option B
none >>= next = none
some a >>= next = next a

-- All of them, in the order of the file.
pub set_header : Bytes → ℕ → ℕ → ℕ → ℕ → Option Bytes
set_header msg v op seconds ip = do
  a ← set_version msg v
  b ← set_is_request a
  c ← set_opcode b op
  d ← zero_reserved c
  e ← set_requested_lifetime d seconds
  set_ipv4_src e ip

-- A request's header by RFC 6887: version, opcode with the request's bit, 16 reserved bits, the
-- lifetime, and the client's address as an IPv6 address.
abbrev pub word_octets : ℕ → Bytes
word_octets w = w / 2 ^ 24 % 256 ∷ w / 2 ^ 16 % 256 ∷ w / 2 ^ 8 % 256 ∷ w % 256 ∷ []

abbrev pub pcp_header : ℕ → ℕ → ℕ → ℕ → Bytes
pcp_header v op seconds ip =
    (v ∷ op ∷ 0 ∷ 0 ∷ [])
    ++ (word_octets seconds ++ (replicate 10 0 ++ (replicate 2 0xFF ++ word_octets ip)))

-- `ntohl` on four octets.
abbrev pub word_of : Bytes → ℕ
word_of (a ∷ b ∷ c ∷ d ∷ _) = ((a * 256 + b) * 256 + c) * 256 + d
word_of _ = 0

word_of-word_octets : (w : ℕ) → w < 2 ^ 32 → word_of (word_octets w) ≡ w
word_of-word_octets w h = omega arith

high_bit : (x op : ℕ) → op ≤ 0x7F → x % 128 / 128 * 128 + op ≡ op
high_bit x op h = omega arith

length-put : (i b : ℕ) (msg : Bytes) → length (put i b msg) ≡ length msg
unfolding put
length-put i b [] = refl
length-put zero b (x ∷ xs) = refl
length-put (suc i) b (x ∷ xs) = ap suc (length-put i b xs)

length-put_word : (i w : ℕ) (msg : Bytes) → length (put_word i w msg) ≡ length msg
unfolding put_word
length-put_word i w msg =
    length-put (i + 3) (w % 256) _
    ∙ length-put (i + 2) (w / 2 ^ 8 % 256) _
    ∙ length-put (i + 1) (w / 2 ^ 16 % 256) _
    ∙ length-put i (w / 2 ^ 24 % 256) msg

module _ (msg : Bytes) (v op seconds ip : ℕ) where
  abbrev m₁ : Bytes
  m₁ = put 0 v msg

  abbrev m₂ : Bytes
  m₂ = put 1 (octet 1 m₁ % 128) m₁

  abbrev m₃ : Bytes
  m₃ = put 1 (octet 1 m₂ / 128 * 128 + op) m₂

  abbrev m₄ : Bytes
  m₄ = put 3 0 (put 2 0 m₃)

  abbrev m₅ : Bytes
  m₅ = put_word 4 seconds m₄

  set_header-written :
      24 ≤ length msg
      → 1 ≤ v
      → v ≤ 0xFF
      → op ≤ 0x7F
      → set_header msg v op seconds ip ≡ some (put_word 20 ip (fill 18 0xFF 2 (fill 8 0x00 10 m₅)))
  unfolding set_header set_version set_is_request set_opcode zero_reserved set_requested_lifetime
      set_ipv4_src
  set_header-written h a b c =
      let l₁ = length-put 0 v msg in
      let l₂ = length-put 1 (octet 1 m₁ % 128) m₁ in
      let l₃ = length-put 1 (octet 1 m₂ / 128 * 128 + op) m₂ in
      let l₄ = length-put 3 0 (put 2 0 m₃) ∙ length-put 2 0 m₃ in
      let l₅ = length-put_word 4 seconds m₄ in
      let first : set_version msg v ≡ some m₁ = ground arith in
      let second : set_is_request m₁ ≡ some m₂ = ground (arith, l₁) in
      let third : set_opcode m₂ op ≡ some m₃ = ground (arith, l₁, l₂) in
      let fourth : zero_reserved m₃ ≡ some m₄ = ground (arith, l₁, l₂, l₃) in
      let fifth : set_requested_lifetime m₄ seconds ≡ some m₅ = ground (arith, l₁, l₂, l₃, l₄) in
      let sixth : set_ipv4_src m₅ ip ≡ some (put_word 20 ip (fill 18 0xFF 2 (fill 8 0x00 10 m₅))) =
        ground (arith, l₁, l₂, l₃, l₄, l₅) in
      rw (first, second, third, fourth, fifth, sixth)

-- On a message of 24 octets or more, with a version and an operation in range, the six functions one
-- behind the other write exactly a request's header and leave the rest of the message alone.
pub set_header_exact :
    (msg : Bytes) (v op seconds ip : ℕ)
    → 24 ≤ length msg
    → 1 ≤ v
    → v ≤ 0xFF
    → op ≤ 0x7F
    → set_header msg v op seconds ip ≡ some (pcp_header v op seconds ip ++ drop 24 msg)
unfolding put octet fill put_word
set_header_exact
      (x0 ∷ x1 ∷ x2 ∷ x3 ∷ x4 ∷ x5 ∷ x6 ∷ x7 ∷ x8 ∷ x9 ∷ x10 ∷ x11 ∷ x12 ∷ x13 ∷ x14 ∷ x15 ∷ x16
        ∷ x17 ∷ x18 ∷ x19 ∷ x20 ∷ x21 ∷ x22 ∷ x23 ∷ rest)
      v op seconds ip h a b c =
    set_header-written _ v op seconds ip h a b c ∙ rw (high_bit x1 op c)
set_header_exact _ v op seconds ip h a b c = absurd (omega arith)
