-- ===== src/Mvn/Args.antt =====
-- The loop of src/main/c/postshit/launch/mvn/mvn-launch.c that appends the arguments, and what splits
-- them again.
use unspecified_garbage.Common.{
  ℕ, ◌+◌, ◌≤◌, ◌<◌, ◌≡◌, ◌↔◌, ◌⊎◌, ◌∙◌, refl, sym, ap, arith, List, [], ◌∷◌, ◌++◌, le→ltb, ◌==◌,
  ==_ne, if◌then◌else◌, Bytes, length, length-append, append-nil, append_assoc, All, Option, none,
  some, inl, inr,
}
use mathlib.Core.Path.{subst}
use unspecified_garbage.Mvn.Append.{
  Status, ok, no_bufs, not_sup, other, Appended, append_arg, and_then, go_on, copy-ok,
  copy-HasNoQuote, HasNoQuote, Within, append_arg-Within, and_then-Within,
}

unfoldable pub append_args : ℕ → Bytes → List Bytes → Appended
append_args cap dst [] = record { status = ok; dst = dst }
append_args cap dst (arg ∷ args) = and_then (append_arg cap dst arg) (λ d. append_args cap d args)

-- The text that the arguments become.
unfoldable pub quoted : List Bytes → Bytes
quoted [] = []
quoted (arg ∷ args) = b' ' ∷ b'"' ∷ (arg ++ (b'"' ∷ quoted args))

-- Where a splitter stands: between arguments, behind a blank, or in quotes.
pub data Place : Type 0 where
  between opened quotes : Place

with_first : Bytes → Option (List Bytes) → Option (List Bytes)
with_first arg none = none
with_first arg (some args) = some (arg ∷ args)

-- Splits blank-separated arguments in quotes.
pub split_from : Place → Bytes → Bytes → Option (List Bytes)
unfolding with_first
split_from between acc [] = some []
split_from opened acc [] = none
split_from quotes acc [] = none
split_from between acc (c ∷ cs) =
    let rest = split_from opened [] cs in if c == b' ' then rest else none
split_from opened acc (c ∷ cs) =
    let rest = split_from quotes [] cs in if c == b'"' then rest else none
split_from quotes acc (c ∷ cs) =
    let closed = split_from between [] cs in
    let rest = split_from quotes (acc ++ (c ∷ [])) cs in
    if c == b'"' then with_first acc closed else rest

pub split_quoted : Bytes → Option (List Bytes)
unfolding split_from
split_quoted cs = split_from between [] cs

split-arg :
    (acc arg rest : Bytes)
    → HasNoQuote arg
    → split_from quotes acc (arg ++ (b'"' ∷ rest))
      ≡ with_first (acc ++ arg) (split_from between [] rest)
unfolding split_from
split-arg acc [] rest h = rw append-nil
split-arg acc (c ∷ arg) rest (h, hs) =
    rw (==_ne c b'"' h) (split-arg (acc ++ (c ∷ [])) arg rest hs ∙ rw append_assoc)

split-quoted : (args : List Bytes) → All HasNoQuote args → split_quoted (quoted args) ≡ some args
unfolding split_quoted split_from quoted with_first
split-quoted [] h = refl
split-quoted (arg ∷ args) (h, hs) =
    split-arg [] arg (quoted args) h ∙ ap (λ r. with_first arg r) (split-quoted args hs)

pub append_args-Within :
    (cap : ℕ) (dst : Bytes) (args : List Bytes)
    → length dst ≤ cap
    → Within cap dst (append_args cap dst args)
unfolding append_args
append_args-Within cap dst [] h = record { grows = ([], sym (append-nil dst)); fits = h }
append_args-Within cap dst (arg ∷ args) h =
    and_then-Within cap dst (append_arg cap dst arg) (λ d. append_args cap d args)
      (append_arg-Within cap dst arg h) (λ d k. append_args-Within cap d args k)

-- One argument is appended exactly where it has no quote and leaves a byte of the buffer.
append_arg-ok :
    (cap : ℕ) (dst arg : Bytes)
    → HasNoQuote arg
    → length dst + length arg + 4 ≤ cap
    → append_arg cap dst arg
      ≡ record { status = ok; dst = dst ++ (b' ' ∷ b'"' ∷ (arg ++ (b'"' ∷ []))) }
unfolding append_arg
append_arg-ok cap dst arg h k = rw (le→ltb cap (length dst + length arg + 4) k) (
    copy-ok (b'"' ∷ []) (dst ++ (b' ' ∷ b'"' ∷ [])) arg h
    ∙ ap (λ d. record { status = ok; dst = d })
        (append_assoc dst (b' ' ∷ b'"' ∷ []) (arg ++ (b'"' ∷ []))))

append_arg-needs :
    (cap : ℕ) (dst arg : Bytes)
    → (append_arg cap dst arg).status ≡ ok
    → HasNoQuote arg × (length dst + length arg + 4 ≤ cap)
unfolding append_arg
append_arg-needs cap dst arg e =
    ground (arith, copy-HasNoQuote (b'"' ∷ []) (dst ++ (b' ' ∷ b'"' ∷ [])) arg)

pub go_on-ok :
    (s : Status) (d : Bytes) (next : Bytes → Appended)
    → (go_on s d next).status ≡ ok
    → (s ≡ ok) × ((next d).status ≡ ok)
unfolding go_on
go_on-ok ok d next e = (refl, e)
go_on-ok no_bufs d next e = absurd cc
go_on-ok not_sup d next e = absurd cc
go_on-ok other d next e = absurd cc

length-quoted :
    (arg : Bytes) (args : List Bytes)
    → length (quoted (arg ∷ args)) ≡ length arg + length (quoted args) + 3
unfolding quoted
length-quoted arg args = omega (arith, length-append arg (b'"' ∷ quoted args))

-- Behind one argument.
abbrev with_arg : Bytes → Bytes → Bytes
with_arg dst arg = dst ++ (b' ' ∷ b'"' ∷ (arg ++ (b'"' ∷ [])))

length-with_arg : (dst arg : Bytes) → length (with_arg dst arg) ≡ length dst + length arg + 3
length-with_arg dst arg =
    omega
      (arith, length-append dst (b' ' ∷ b'"' ∷ (arg ++ (b'"' ∷ []))), length-append arg (b'"' ∷ []))

length-quoted_empty : {args : List Bytes} → args ≡ [] → length (quoted args) ≡ 0
unfolding quoted
length-quoted_empty e = ap (λ a. length (quoted a)) e

-- There is a byte left behind the arguments, if there are any.
abbrev pub HasRoom : ℕ → Bytes → List Bytes → Type 0
HasRoom cap dst args = (args ≡ []) ⊎ (length dst + length (quoted args) < cap)

append_args-ok :
    (cap : ℕ) (dst : Bytes) (args : List Bytes)
    → All HasNoQuote args
    → HasRoom cap dst args
    → append_args cap dst args ≡ record { status = ok; dst = dst ++ quoted args }
unfolding append_args quoted go_on
append_args-ok cap dst [] hs r = ap (λ d. record { status = ok; dst = d }) (sym (append-nil dst))
append_args-ok cap dst (arg ∷ args) (h, hs) (inl e) = absurd cc
append_args-ok cap dst (arg ∷ args) (h, hs) (inr r) =
    let one = append_arg-ok cap dst arg h (omega (arith, length-quoted arg args)) in
    let room : length (with_arg dst arg) + length (quoted args) < cap =
      omega (arith, length-quoted arg args, length-with_arg dst arg) in
    ap (λ a. go_on a.status a.dst (λ d. append_args cap d args)) one
    ∙ append_args-ok cap (with_arg dst arg) args hs (inr room)
    ∙ ap (λ d. record { status = ok; dst = d }) simp append_assoc

append_args-needs :
    (cap : ℕ) (dst : Bytes) (args : List Bytes)
    → (append_args cap dst args).status ≡ ok
    → All HasNoQuote args × HasRoom cap dst args
unfolding append_args quoted
append_args-needs cap dst [] e = (tt, inl refl)
append_args-needs cap dst (arg ∷ args) e =
    let (first, others) =
      go_on-ok (append_arg cap dst arg).status (append_arg cap dst arg).dst
        (λ d. append_args cap d args) e in
    let (h, k) = append_arg-needs cap dst arg first in
    let same = ap (λ a. a.dst) (append_arg-ok cap dst arg h k) in
    let (hs, r) =
      append_args-needs cap (with_arg dst arg) args
        (subst (λ d. (append_args cap d args).status ≡ ok) same others) in
    ((h, hs), inr (room k r))
  where
    room :
        length dst + length arg + 4 ≤ cap
        → HasRoom cap (with_arg dst arg) args
        → length dst + length (quoted (arg ∷ args)) < cap
    room k (inl z) = omega (arith, length-quoted arg args, length-quoted_empty z)
    room k (inr r) = omega (arith, length-quoted arg args, length-with_arg dst arg)

-- The loop over the arguments succeeds exactly where no argument has a quote and, if there are any,
-- all of them with their blanks and quotes leave a byte of the buffer. Then they are what has been
-- appended, and splitting that gives the arguments back.
pub append_args_iff :
    (cap : ℕ) (dst : Bytes) (args : List Bytes)
    → (((append_args cap dst args).status ≡ ok) ↔ (All HasNoQuote args × HasRoom cap dst args))
      × ((append_args cap dst args).status ≡ ok
          → ((append_args cap dst args).dst ≡ dst ++ quoted args)
            × (split_quoted (quoted args) ≡ some args))
append_args_iff cap dst args = (
  (append_args-needs cap dst args, λ p. ap (λ a. a.status) (append_args-ok cap dst args p.0 p.1)),
  λ e.
      let (hs, r) = append_args-needs cap dst args e in
      (ap (λ a. a.dst) (append_args-ok cap dst args hs r), split-quoted args hs),
)
