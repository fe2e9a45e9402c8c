-- ===== src/Common/Texts.antt =====
-- Bytes, and the bytes of a literal.
use Prim.Native.Nat.{ℕ, ◌<◌}
use Prim.Native.Char.{code}
use Prim.Native.String.{String}
use mathlib.Core.Path.{◌≡◌, refl, sym, ap, ◌∙◌}
use mathlib.Core.Logic.{◌↔◌, inl, inr}
use mathlib.Core.Bool.{Bool, true, false, ◌&&◌, ◌||◌}
use mathlib.Core.List.{List, [], ◌∷◌, ◌++◌}
use native.Mathlib.Omega.{arith}
use unspecified_garbage.Common.Tests.{◌==◌, ==_iff, if◌then◌else◌, Bool-cases}

abbrev pub Bytes : Type 0
Bytes = List ℕ

abbrev pub IsByte : ℕ → Type 0
IsByte c = c < 256

-- The code points of a literal, which are its bytes where it is ASCII.
abbrev pub codes : String → Bytes
codes String.[] = []
codes (String.◌∷◌ c s) = code c ∷ codes s

-- `strcmp(a, b) == 0`, and `memcmp` to zero on two blocks of one length.
unfoldable pub bytes_eq : Bytes → Bytes → Bool
bytes_eq [] [] = true
bytes_eq (x ∷ xs) (y ∷ ys) = x == y && bytes_eq xs ys
bytes_eq _ _ = false

pub bytes_eq_iff : (a b : Bytes) → (bytes_eq a b ≡ true) ↔ (a ≡ b)
unfolding bytes_eq
bytes_eq_iff (x ∷ a) (y ∷ b) = ground (arith, bytes_eq_iff a b)
bytes_eq_iff _ _ = ground arith

pub bytes_eq_refl : (a : Bytes) → bytes_eq a a ≡ true
bytes_eq_refl a = (bytes_eq_iff a a).1 refl

-- What "%s" prints of a buffer.
unfoldable pub up_to_nul : Bytes → Bytes
up_to_nul [] = []
up_to_nul (c ∷ cs) = if c == 0 then [] else c ∷ up_to_nul cs

unfoldable pub is_prefix : Bytes → Bytes → Bool
is_prefix [] bytes = true
is_prefix (p ∷ ps) [] = false
is_prefix (p ∷ ps) (c ∷ cs) = if p == c then is_prefix ps cs else false

pub prefix_split : (p line : Bytes) → is_prefix p line ≡ true → (rest : Bytes) × (line ≡ p ++ rest)
unfolding is_prefix
prefix_split [] line h = (line, refl)
prefix_split (p ∷ ps) [] h = absurd cc
prefix_split (p ∷ ps) (c ∷ cs) h = elim (Bool-cases (p == c)) [
  | inl e ↦
      let (rest, s) =
        prefix_split ps cs (sym (ap (λ b. if b then is_prefix ps cs else false) e) ∙ h) in
      (rest, cc (s, (==_iff p c).0 e))
  | inr e ↦ absurd (cc (e, h))
]

-- `strstr`
unfoldable pub contains : Bytes → Bytes → Bool
unfolding is_prefix
contains p [] = is_prefix p []
contains p (c ∷ cs) = is_prefix p (c ∷ cs) || contains p cs

is_prefix-append : (p post : Bytes) → is_prefix p (p ++ post) ≡ true
unfolding is_prefix
is_prefix-append [] post = refl
is_prefix-append (c ∷ cs) post = rw ((==_iff c c).1 refl) (is_prefix-append cs post)

or_true : (b : Bool) → (b || true) ≡ true
or_true true = refl
or_true false = refl

contains-append : (p pre post : Bytes) → contains p (pre ++ (p ++ post)) ≡ true
unfolding contains
contains-append p [] post = go (p ++ post) (is_prefix-append p post)
  where
    go : (text : Bytes) → is_prefix p text ≡ true → contains p text ≡ true
    go [] e = e
    go (c ∷ cs) e = ap (λ b. b || contains p cs) e
contains-append p (c ∷ cs) post =
    rw (contains-append p cs post) (or_true (is_prefix p (c ∷ (cs ++ (p ++ post)))))

contains_split :
    (p text : Bytes)
    → contains p text ≡ true
    → (pre : Bytes) × (post : Bytes) × (text ≡ pre ++ (p ++ post))
unfolding contains
contains_split p [] e = let (post, s) = prefix_split p [] e in ([], post, s)
contains_split p (c ∷ cs) e = elim (Bool-cases (is_prefix p (c ∷ cs))) [
  | inl t ↦ let (post, s) = prefix_split p (c ∷ cs) t in ([], post, s)
  | inr f ↦
      let (pre, post, s) = contains_split p cs (sym (ap (λ b. b || contains p cs) f) ∙ e) in
      (c ∷ pre, post, ap (◌∷◌ c) s)
]

pub contains_iff :
    (p text : Bytes)
    → (contains p text ≡ true) ↔ ((pre : Bytes) × (post : Bytes) × (text ≡ pre ++ (p ++ post)))
contains_iff p text =
    (contains_split p text, λ (pre, post, s). ap (contains p) s ∙ contains-append p pre post)

-- Chunks of a text, one behind the other.
unfoldable pub joined_chunks : List Bytes → Bytes
joined_chunks [] = []
joined_chunks (chunk ∷ chunks) = chunk ++ joined_chunks chunks
