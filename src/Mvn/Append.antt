-- ===== src/Mvn/Append.antt =====
-- The append functions of src/main/c/postshit/launch/mvn/mvn-launch.c and mvn-versions-set.c.
use unspecified_garbage.Common.{
  ℕ, ◌+◌, ◌≤◌, ◌≡◌, ◌≢◌, ◌∙◌, refl, sym, ap, arith, [], ◌∷◌, ◌++◌, ltb, ◌==◌, ==_ne, if◌then◌else◌,
  Bytes, length, length-append, append-nil, append_assoc, All, if_both,
}

-- The return values: 0, -ENOBUFS, -ENOTSUP and -1.
pub data Status : Type 0 where
  ok no_bufs not_sup other : Status

-- What `dst` holds up to `*dst_len`, behind a call.
pub record Appended : Type 0 where
  pub status : Status
  pub dst : Bytes

-- `char cmdline[32767]`
abbrev pub cmdline_cap : ℕ
cmdline_cap = 32767

unfoldable pub append_raw : ℕ → Bytes → Bytes → Appended
append_raw cap dst src =
    if ltb cap (length dst + length src)
    then record { status = no_bufs; dst = dst }
    else record { status = ok; dst = dst ++ src }

-- The loop that copies up to a quote; `close` follows where there is none.
unfoldable pub copy_unquoted : Bytes → Bytes → Bytes → Appended
copy_unquoted close dst [] = record { status = ok; dst = dst ++ close }
copy_unquoted close dst (c ∷ src) =
    let rest = copy_unquoted close (dst ++ (c ∷ [])) src in
    if c == b'"' then record { status = not_sup; dst = dst } else rest

unfoldable pub append_quot_escaped : ℕ → Bytes → Bytes → Appended
unfolding copy_unquoted
append_quot_escaped cap dst src =
    if ltb cap (length dst + length src)
    then record { status = no_bufs; dst = dst }
    else copy_unquoted [] dst src

-- `sizeof" \"\""` is 4.
unfoldable pub append_arg : ℕ → Bytes → Bytes → Appended
unfolding copy_unquoted
append_arg cap dst arg =
    if ltb cap (length dst + length arg + 4)
    then record { status = no_bufs; dst = dst }
    else copy_unquoted (b'"' ∷ []) (dst ++ (b' ' ∷ b'"' ∷ [])) arg

-- The chain of calls stops at the first that fails.
unfoldable pub go_on : Status → Bytes → (Bytes → Appended) → Appended
go_on ok dst next = next dst
go_on no_bufs dst next = record { status = no_bufs; dst = dst }
go_on not_sup dst next = record { status = not_sup; dst = dst }
go_on other dst next = record { status = other; dst = dst }

abbrev pub and_then : Appended → (Bytes → Appended) → Appended
and_then r next = go_on r.status r.dst next

-- No byte is a quote.
abbrev pub HasNoQuote : Bytes → Type 0
HasNoQuote src = All (λ c. c ≢ b'"') src

-- A call only appends, and never behind the end of the buffer.
pub record Within (cap : ℕ) (dst : Bytes) (r : Appended) : Type 0 where
  pub grows : (bs : Bytes) × (r.dst ≡ dst ++ bs)
  pub fits : length r.dst ≤ cap

copy-dst :
    (close dst src : Bytes)
    → (bs : Bytes) × ((copy_unquoted close dst src).dst ≡ dst ++ bs)
      × (length bs ≤ length src + length close)
unfolding copy_unquoted
copy-dst close dst [] = (close, refl, omega arith)
copy-dst close dst (c ∷ src) =
    let (bs, e, l) = copy-dst close (dst ++ (c ∷ [])) src in
    if_both {A = Appended}
      (λ r. (bs : Bytes) × (r.dst ≡ dst ++ bs) × (length bs ≤ length (c ∷ src) + length close))
      (c == b'"') (λ _. ([], sym (append-nil dst), omega arith))
      (λ _. (c ∷ bs, e ∙ append_assoc dst (c ∷ []) bs, omega arith))

pub append_raw-Within :
    (cap : ℕ) (dst src : Bytes) → length dst ≤ cap → Within cap dst (append_raw cap dst src)
unfolding append_raw
append_raw-Within cap dst src h =
    if_both {A = Appended} (Within cap dst) (ltb cap (length dst + length src))
      (λ _. record { grows = ([], sym (append-nil dst)); fits = h })
      (λ e. record { grows = (src, refl); fits = ground (arith, length-append dst src) })

copy-Within :
    (cap : ℕ) (close dst src : Bytes)
    → length dst + length src + length close ≤ cap
    → Within cap dst (copy_unquoted close dst src)
copy-Within cap close dst src h =
    let (bs, e, l) = copy-dst close dst src in
    record { grows = (bs, e); fits = rw e (omega (arith, length-append dst bs)) }

pub append_quot_escaped-Within :
    (cap : ℕ) (dst src : Bytes)
    → length dst ≤ cap
    → Within cap dst (append_quot_escaped cap dst src)
unfolding append_quot_escaped
append_quot_escaped-Within cap dst src h =
    if_both {A = Appended} (Within cap dst) (ltb cap (length dst + length src))
      (λ _. record { grows = ([], sym (append-nil dst)); fits = h })
      (λ e. copy-Within cap [] dst src (ground arith))

pub append_arg-Within :
    (cap : ℕ) (dst arg : Bytes) → length dst ≤ cap → Within cap dst (append_arg cap dst arg)
unfolding append_arg
append_arg-Within cap dst arg h =
    if_both {A = Appended} (Within cap dst) (ltb cap (length dst + length arg + 4))
      (λ _. record { grows = ([], sym (append-nil dst)); fits = h })
      (λ e.
        let start = dst ++ (b' ' ∷ b'"' ∷ []) in
        let w =
          copy-Within cap (b'"' ∷ []) start arg
            (ground (arith, length-append dst (b' ' ∷ b'"' ∷ []))) in
        record {
          grows =
              (b' ' ∷ b'"' ∷ w.grows.0, w.grows.1 ∙ append_assoc dst (b' ' ∷ b'"' ∷ []) w.grows.0);
          fits = w.fits;
        })

-- A chain keeps within the buffer where each call does.
go_on-Within :
    (cap : ℕ) (dst : Bytes) (s : Status) (d : Bytes) (next : Bytes → Appended)
    → Within cap dst (record { status = s; dst = d })
    → ((d : Bytes) → length d ≤ cap → Within cap d (next d))
    → Within cap dst (go_on s d next)
unfolding go_on
go_on-Within cap dst ok d next w n =
    let (xs, e) = w.grows in
    let v = n d w.fits in
    let (ys, f) = v.grows in
    record { grows = (xs ++ ys, f ∙ ap (λ z. z ++ ys) e ∙ append_assoc dst xs ys); fits = v.fits }
go_on-Within cap dst no_bufs d next w n = w
go_on-Within cap dst not_sup d next w n = w
go_on-Within cap dst other d next w n = w

pub and_then-Within :
    (cap : ℕ) (dst : Bytes) (r : Appended) (next : Bytes → Appended)
    → Within cap dst r
    → ((d : Bytes) → length d ≤ cap → Within cap d (next d))
    → Within cap dst (and_then r next)
and_then-Within cap dst r next w n = go_on-Within cap dst r.status r.dst next w n

-- Copying succeeds exactly where there is no quote, and then has copied everything.
pub copy-ok :
    (close dst src : Bytes)
    → HasNoQuote src
    → copy_unquoted close dst src ≡ record { status = ok; dst = dst ++ (src ++ close) }
unfolding copy_unquoted
copy-ok close dst [] h = refl
copy-ok close dst (c ∷ src) (h, hs) = rw (==_ne c b'"' h) (
    copy-ok close (dst ++ (c ∷ [])) src hs
    ∙ ap (λ d. record { status = ok; dst = d }) (append_assoc dst (c ∷ []) (src ++ close)))

pub copy-HasNoQuote :
    (close dst src : Bytes) → (copy_unquoted close dst src).status ≡ ok → HasNoQuote src
unfolding copy_unquoted
copy-HasNoQuote close dst [] e = tt
copy-HasNoQuote close dst (c ∷ src) e = ground (arith, copy-HasNoQuote close (dst ++ (c ∷ [])) src)
