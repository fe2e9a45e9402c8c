-- ===== src/Pem/Program.antt =====
-- src/main/c/foo/PemCodec.c, `parseArgs` and `main`. The arguments are `argv[1 ..]`.
use unspecified_garbage.Common.{
  ℕ, ◌≡◌, ◌≢◌, ◌∙◌, refl, arith, Bool, true, false, List, [], ◌∷◌, Option, none, some, Bytes,
  bytes_eq, bytes_eq_iff, codes, if◌then◌else◌, All,
}
use unspecified_garbage.Pem.Document.{Status, success, failure, aborted, undefined, decode_pem}

pub data Mode : Type 0 where
  mode_none mode_encode mode_decode : Mode

pub record PemCodec : Type 0 where
  pub is_help : Bool
  pub mode : Mode

-- The loop over the arguments; `none` is the return value -1.
unfoldable pub parse_loop : PemCodec → List Bytes → Option PemCodec
unfolding bytes_eq
parse_loop app [] = some app
parse_loop app (arg ∷ args) =
    let rest = parse_loop (record app { mode = mode_decode }) args in
    if bytes_eq arg (codes "--help")
    then some (record app { is_help = true })
    else if bytes_eq arg (codes "-d")
    then rest
    else none

unfoldable pub parse_args : List Bytes → Option PemCodec
unfolding parse_loop
parse_args [] = none
parse_args (arg ∷ args) = parse_loop (record { is_help = false; mode = mode_encode }) (arg ∷ args)

-- The process ends with an exit code, at a failed assert, or with undefined behaviour.
pub data Exit : Type 0 where
  code : ℕ → Exit
  abort undefined_behaviour : Exit

pub exit_of : Status → Exit
exit_of success = code 0
exit_of failure = code 1
exit_of aborted = abort
exit_of undefined = undefined_behaviour

-- `main`: the exit and what is on stdout (the help text is `help`).
module _ (printf_works : Bytes → Bool) (broken : Bool) (help : Bytes) where
  pub run_mode : Mode → Bytes → Exit × Bytes
  unfolding exit_of
  run_mode mode_encode inp = (code 1, [])
  run_mode mode_none inp = (abort, [])
  run_mode mode_decode inp = let r = decode_pem printf_works broken inp in (exit_of r.status, r.out)

  unfoldable pub main : List Bytes → Bytes → Exit × Bytes
  unfolding run_mode
  main args inp = elim (parse_args args) [
    | none ↦ (code 1, [])
    | some app ↦ if app.is_help then (code 0, help) else run_mode app.mode inp
  ]

parse_loop_mode :
    (args : List Bytes) (app : PemCodec) {app' : PemCodec}
    → app.is_help ≡ false
    → app.mode ≡ mode_decode
    → parse_loop app args ≡ some app'
    → app'.is_help ≡ false
    → All (λ a. a ≡ codes "-d") args × (app'.mode ≡ mode_decode)
unfolding parse_loop
parse_loop_mode [] app h m e k = ground arith
parse_loop_mode (arg ∷ args) app {app'} h m e k = ground (
  arith,
  bytes_eq_iff arg (codes "--help"),
  bytes_eq_iff arg (codes "-d"),
  parse_loop_mode args (record app { mode = mode_decode }) {app' = app'} h refl,
)

-- Arguments that are accepted and do not ask for help are all "-d", at least one, and choose the
-- decoder.
pub parse_args_decode :
    (args : List Bytes) {app : PemCodec}
    → parse_args args ≡ some app
    → app.is_help ≡ false
    → (args ≢ []) × All (λ a. a ≡ codes "-d") args × (app.mode ≡ mode_decode)
unfolding parse_args
parse_args_decode [] e k = cc
parse_args_decode (arg ∷ args) {app} e k = ground (
  arith,
  bytes_eq_iff arg (codes "--help"),
  bytes_eq_iff arg (codes "-d"),
  parse_loop_mode args (record { is_help = false; mode = mode_decode }) {app' = app} refl refl,
)

parse_loop_flags :
    (args : List Bytes) (app : PemCodec)
    → app.mode ≡ mode_decode
    → All (λ a. a ≡ codes "-d") args
    → parse_loop app args ≡ some app
unfolding parse_loop
parse_loop_flags [] app m h = refl
parse_loop_flags (arg ∷ args) app m h =
    rw h.0 (parse_loop_flags args (record app { mode = mode_decode }) refl h.1 ∙ ground arith)

parse_args_flags :
    (args : List Bytes)
    → args ≢ []
    → All (λ a. a ≡ codes "-d") args
    → parse_args args ≡ some (record { is_help = false; mode = mode_decode })
unfolding parse_args
parse_args_flags [] ne h = absurd (ne refl)
parse_args_flags (arg ∷ args) ne h = rw h.0 (parse_loop_flags args _ refl h.1)

-- `main` with the flag "-d", once or more, ends as the decoder does and prints what it prints.
pub main_decodes :
    (printf_works : Bytes → Bool) (broken : Bool) (help inp : Bytes) (args : List Bytes)
    → args ≢ []
    → All (λ a. a ≡ codes "-d") args
    → main printf_works broken help args inp ≡ (
      exit_of (decode_pem printf_works broken inp).status,
      (decode_pem printf_works broken inp).out,
    )
unfolding main
main_decodes w broken help inp args ne h = rw (parse_args_flags args ne h, main)
