-- ===== src/Asn1/Program.antt =====
-- src/main/c/foo/Asn1Digger.c, `parseArgs` and `main`. The arguments are `argv[1 ..]`.
use unspecified_garbage.Common.{
  ℕ, ◌≤◌, ◌≡◌, refl, arith, Bool, true, false, List, [], ◌∷◌, ◌&&◌, Option, none, some, Bytes,
  bytes_eq, codes, if◌then◌else◌, leb, ℤ, pos, negsuc, Strtol,
}
use unspecified_garbage.Asn1.Loop.{Outcome, returned, error, abort, out_of_bounds, out_of_fuel, run}

pub record Options : Type 0 where
  pub is_help : Bool
  pub assume_gpg : Bool
  pub hex_cols : ℤ

-- The check behind the loop.
abbrev pub are_cols_supported : ℤ → Bool
are_cols_supported (pos n) = leb 1 n && leb n 48
are_cols_supported (negsuc n) = false

-- `strtol(arg, NULL, 0)`, and whether it has set errno.
module _ (strtol : Bytes → Strtol) where
  -- The loop over the arguments with the check behind it; `none` is the return value -1.
  pub parse_loop : Options → List Bytes → Option Options
  parse_loop app [] = if are_cols_supported app.hex_cols then some app else none
  parse_loop app (arg ∷ []) =
      if bytes_eq arg (codes "--help")
      then some (record app { is_help = true })
      else if bytes_eq arg (codes "-c")
      then none
      else if bytes_eq arg (codes "--gpg")
      then parse_loop (record app { assume_gpg = true }) []
      else if bytes_eq arg (codes "--no-gpg")
      then parse_loop (record app { assume_gpg = false }) []
      else none
  parse_loop app (arg ∷ value ∷ args) =
      let with_value = parse_loop (record app { hex_cols = (strtol value).value }) args in
      let gpg = parse_loop (record app { assume_gpg = true }) (value ∷ args) in
      let no_gpg = parse_loop (record app { assume_gpg = false }) (value ∷ args) in
      if bytes_eq arg (codes "--help")
      then some (record app { is_help = true })
      else if bytes_eq arg (codes "-c")
      then (if (strtol value).is_error then none else with_value)
      else if bytes_eq arg (codes "--gpg")
      then gpg
      else if bytes_eq arg (codes "--no-gpg")
      then no_gpg
      else none

  unfoldable pub parse_args : List Bytes → Option Options
  unfolding parse_loop
  parse_args args =
      parse_loop (record { is_help = false; assume_gpg = false; hex_cols = pos 16 }) args

  -- `main`'s return value; `none` where the process ends otherwise (a failed assert, or undefined
  -- behaviour), for a given stdin.
  module _ (broken : Bool) (inp : Bytes) where
    pub cols_of : ℤ → ℕ
    cols_of (pos n) = n
    cols_of (negsuc n) = 0

    pub exit_of : Outcome → Option ℕ
    exit_of (returned app) = some 0
    exit_of (error app) = some 1
    exit_of (abort app) = none
    exit_of (out_of_bounds app) = none
    exit_of out_of_fuel = none

    unfoldable pub main : List Bytes → Option ℕ
    unfolding cols_of exit_of
    main args = elim (parse_args args) [
      | none ↦ some 1
      | some app ↦
          if app.is_help
          then some 0
          else exit_of (run broken (cols_of app.hex_cols) app.assume_gpg inp)
    ]

  parse_loop_cols :
      (args : List Bytes) (app : Options) {app' : Options}
      → app.is_help ≡ false
      → parse_loop app args ≡ some app'
      → app'.is_help ≡ false
      → are_cols_supported app'.hex_cols ≡ true
  unfolding parse_loop
  parse_loop_cols [] app h e k = ground arith
  parse_loop_cols (arg ∷ []) app {app'} h e k = ground (
    arith,
    parse_loop_cols [] (record app { assume_gpg = true }) {app' = app'} h,
    parse_loop_cols [] (record app { assume_gpg = false }) {app' = app'} h,
  )
  parse_loop_cols (arg ∷ value ∷ args) app {app'} h e k = ground (
    arith,
    parse_loop_cols args (record app { hex_cols = (strtol value).value }) {app' = app'} h,
    parse_loop_cols (value ∷ args) (record app { assume_gpg = true }) {app' = app'} h,
    parse_loop_cols (value ∷ args) (record app { assume_gpg = false }) {app' = app'} h,
  )

  supported_range :
      (c : ℤ) → are_cols_supported c ≡ true → (n : ℕ) × (c ≡ pos n) × (1 ≤ n) × (n ≤ 48)
  supported_range (pos n) e = (n, refl, ground arith, ground arith)
  supported_range (negsuc n) e = absurd cc

  -- Options that are accepted and do not ask for help have 1 to 48 columns, whatever numbers
  -- `strtol` makes of the arguments.
  pub parse_args_cols :
      (args : List Bytes) {app : Options}
      → parse_args args ≡ some app
      → app.is_help ≡ false
      → (n : ℕ) × (app.hex_cols ≡ pos n) × (1 ≤ n) × (n ≤ 48)
  unfolding parse_args
  parse_args_cols args {app} e k = supported_range app.hex_cols (parse_loop_cols args _ refl e k)
