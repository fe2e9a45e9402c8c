-- ===== src/Mvn/Started.antt =====
-- src/main/c/postshit/launch/mvn/mvn-launch.c: what the started command line is.
use unspecified_garbage.Common.{
  ℕ, zero, suc, ◌≡◌, ◌≢◌, ◌↔◌, ◌∙◌, sym, ap, arith, List, [], ◌∷◌, ◌++◌, ◌==◌, if◌then◌else◌, Bytes,
  length, take, drop, get_elem?, append-nil, append_assoc, some, All,
}
use unspecified_garbage.Mvn.Append.{
  Status, ok, Appended, append_raw, append_quot_escaped, and_then, go_on, copy-ok, copy-HasNoQuote,
  cmdline_cap,
}
use unspecified_garbage.Mvn.Args.{go_on-ok}
use unspecified_garbage.Mvn.Launch.{
  System, c_string, Piece, literal, environ, username, work_dir, envval_max, append_environ,
  append_piece, append_pieces,
}

append_raw-ok :
    (dst src : Bytes)
    → (append_raw cmdline_cap dst src).status ≡ ok
    → append_raw cmdline_cap dst src ≡ record { status = ok; dst = dst ++ src }
unfolding append_raw
append_raw-ok dst src e = ground arith

append_quot_escaped-ok :
    (dst src : Bytes)
    → (append_quot_escaped cmdline_cap dst src).status ≡ ok
    → append_quot_escaped cmdline_cap dst src ≡ record { status = ok; dst = dst ++ src }
unfolding append_quot_escaped
append_quot_escaped-ok dst src e =
    ground (arith, copy-HasNoQuote [] dst src, copy-ok [] dst src, append-nil src)

go_on-next : (s : Status) (d : Bytes) (next : Bytes → Appended) → s ≡ ok → go_on s d next ≡ next d
unfolding go_on
go_on-next s d next e = ap (λ t. go_on t d next) e

two_raws-ok :
    (dst xs ys : Bytes)
    → (and_then (append_raw cmdline_cap dst xs) (λ d. append_raw cmdline_cap d ys)).status ≡ ok
    → (and_then (append_raw cmdline_cap dst xs) (λ d. append_raw cmdline_cap d ys)).dst
      ≡ dst ++ (xs ++ ys)
two_raws-ok dst xs ys e =
    let r = append_raw cmdline_cap dst xs in
    let (first, others) = go_on-ok r.status r.dst (λ d. append_raw cmdline_cap d ys) e in
    ap (λ a. a.dst) (go_on-next r.status r.dst (λ d. append_raw cmdline_cap d ys) first)
    ∙ ap (λ a. a.dst) (append_raw-ok r.dst ys others)
    ∙ ap (λ d. d ++ ys) (ap (λ a. a.dst) (append_raw-ok dst xs first))
    ∙ append_assoc dst xs ys

-- The text of a chain's entry.
module _ (sys : System) (user dir : Bytes) where
  unfoldable pub text : Piece → Bytes
  text (literal t n) = take n t
  text (environ key) =
      let got = sys.get_environment_variable key envval_max in
      if got.ret == 0 then [] else b' ' ∷ take got.ret got.buf
  text username = user
  text work_dir = dir

  unfoldable pub texts : List Piece → Bytes
  texts [] = []
  texts (p ∷ ps) = text p ++ texts ps

  append_piece-ok :
      (dst : Bytes) (p : Piece)
      → (append_piece sys user dir dst p).status ≡ ok
      → (append_piece sys user dir dst p).dst ≡ dst ++ text p
  unfolding append_piece text append_environ
  append_piece-ok dst (literal t n) e = ap (λ a. a.dst) (append_raw-ok dst (take n t) e)
  append_piece-ok dst (environ key) e =
      let got = sys.get_environment_variable key envval_max in
      ground (arith, two_raws-ok dst (b' ' ∷ []) (take got.ret got.buf), append-nil dst)
  append_piece-ok dst username e = ap (λ a. a.dst) (append_raw-ok dst user e)
  append_piece-ok dst work_dir e = ap (λ a. a.dst) (append_quot_escaped-ok dst dir e)

  -- A chain of calls that succeeds has appended the text of each of its entries, in order.
  pub append_pieces-ok :
      (dst : Bytes) (ps : List Piece)
      → (append_pieces sys user dir dst ps).status ≡ ok
      → (append_pieces sys user dir dst ps).dst ≡ dst ++ texts ps
  unfolding append_pieces texts
  append_pieces-ok dst [] e = sym (append-nil dst)
  append_pieces-ok dst (p ∷ ps) e =
      let r = append_piece sys user dir dst p in
      let (first, others) = go_on-ok r.status r.dst (λ d. append_pieces sys user dir d ps) e in
      ap (λ a. a.dst) (go_on-next r.status r.dst (λ d. append_pieces sys user dir d ps) first)
      ∙ append_pieces-ok r.dst ps others
      ∙ ap (λ d. d ++ texts ps) (append_piece-ok dst p first)
      ∙ append_assoc dst (text p) (texts ps)

c_string-empty_iff :
    (n : ℕ) (stack : Bytes) → (c_string (drop n stack) ≡ some []) ↔ (get_elem? stack n ≡ some 0)
unfolding c_string
c_string-empty_iff zero [] = (λ e. cc, λ e. cc)
c_string-empty_iff (suc n) [] = (λ e. cc, λ e. cc)
c_string-empty_iff zero (c ∷ cs) = ground arith
c_string-empty_iff (suc n) (c ∷ cs) = c_string-empty_iff n cs

c_string-append :
    (dst rest : Bytes)
    → All (λ c. c ≢ 0) dst
    → (c_string (dst ++ rest) ≡ some dst) ↔ (c_string rest ≡ some [])
unfolding c_string
c_string-append [] rest h = (λ e. e, λ e. e)
c_string-append (c ∷ dst) rest (h, hs) = ground (arith, c_string-append dst rest hs)

-- In an array whose text is followed by what was on the stack, the text that is found is the one
-- that was written exactly where the stack has a NUL there.
pub c_string-right_iff :
    (dst stack : Bytes)
    → All (λ c. c ≢ 0) dst
    → (c_string (dst ++ drop (length dst) stack) ≡ some dst)
      ↔ (get_elem? stack (length dst) ≡ some 0)
c_string-right_iff dst stack h =
    let (a, b) = c_string-append dst (drop (length dst) stack) h in
    let (f, g) = c_string-empty_iff (length dst) stack in (λ e. f (a e), λ e. b (g e))
