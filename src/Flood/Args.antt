-- ===== src/Flood/Args.antt =====
-- src/main/paisa/HttpFlood.c, `parseArgs`. The arguments are `argv[1 ..]`.
use unspecified_garbage.Common.{
  ℕ, ◌-◌, ◌*◌, ◌/◌, ◌^◌, ◌≤◌, ◌<◌, ◌≡◌, refl, arith, Bool, true, false, ◌&&◌, List, [], ◌∷◌, Option,
  none, some, leb, ltb, if◌then◌else◌, if_both, Bytes, bytes_eq, codes, ℤ, pos, negsuc, Scanned,
  scanned_int,
}
use mathlib.Core.Path.{subst}

pub record Args : Type 0 where
  pub is_help : Bool
  pub host : Option Bytes
  pub path : Option Bytes
  pub port : ℤ
  pub nclients : ℤ
  pub pause_ms : ℤ
  pub print_progress_every_ms : ℤ

abbrev pub defaults : Args
defaults = record {
  is_help = false;
  host = none;
  path = none;
  port = pos 0;
  nclients = pos 1;
  pause_ms = pos 1000;
  print_progress_every_ms = pos 3000;
}

abbrev pub is_port : ℤ → Bool
is_port (pos n) = leb 1 n && leb n 0xFFFF
is_port (negsuc n) = false

abbrev pub is_positive : ℤ → Bool
is_positive (pos n) = leb 1 n
is_positive (negsuc n) = false

abbrev pub is_natural : ℤ → Bool
is_natural (pos n) = true
is_natural (negsuc n) = false

-- `INT_MAX/1000`
abbrev pub progress_limit : ℕ
progress_limit = (2 ^ 31 - 1) / 1000

abbrev pub is_progress : ℤ → Bool
is_progress (pos n) = leb 1 n && ltb n progress_limit
is_progress (negsuc n) = false

abbrev pub in_ms : ℤ → ℤ
in_ms (pos n) = pos (n * 1000)
in_ms (negsuc n) = negsuc n

-- A number that passes its test, or the return value -1.
abbrev pub checked : Option ℤ → (ℤ → Bool) → (ℤ → Args) → Option Args
checked none is_valid store = none
checked (some n) is_valid store = if is_valid n then some (store n) else none

abbrev pub is_complete : Args → Bool
is_complete app = elim app.host [
  | none ↦ false
  | some host ↦ elim app.port [
    | pos port ↦ if leb 1 port then elim app.path [ none ↦ false | some path ↦ true ] else false
    | negsuc port ↦ elim app.path [ none ↦ false | some path ↦ true ]
  ]
]

module _ (strtol : Bytes → Scanned) where
  -- An option with its value.
  unfoldable pub with_value : Args → Bytes → Bytes → Option Args
  unfolding bytes_eq scanned_int
  with_value app arg value =
      if bytes_eq arg (codes "--host")
      then some (record app { host = some value })
      else if bytes_eq arg (codes "--port")
      then checked (scanned_int (strtol value)) is_port (λ n. record app { port = n })
      else if bytes_eq arg (codes "--path")
      then some (record app { path = some value })
      else if bytes_eq arg (codes "--nclients")
      then checked (scanned_int (strtol value)) is_positive (λ n. record app { nclients = n })
      else if bytes_eq arg (codes "--pause")
      then checked (scanned_int (strtol value)) is_natural (λ n. record app { pause_ms = n })
      else if bytes_eq arg (codes "--progress")
      then checked (scanned_int (strtol value)) is_progress
          (λ n. record app { print_progress_every_ms = in_ms n })
      else none

  -- `none` is the return value -1.
  unfoldable pub parse_loop : Args → List Bytes → Option Args
  unfolding with_value
  parse_loop app [] = if is_complete app then some app else none
  parse_loop app (arg ∷ []) =
      if bytes_eq arg (codes "--help") then some (record app { is_help = true }) else none
  parse_loop app (arg ∷ value ∷ args) =
      if bytes_eq arg (codes "--help")
      then some (record app { is_help = true })
      else elim (with_value app arg value) [ none ↦ none | some changed ↦ parse_loop changed args ]

  unfoldable pub parse_args : List Bytes → Option Args
  unfolding parse_loop
  parse_args [] = none
  parse_args (arg ∷ args) = parse_loop defaults (arg ∷ args)

-- What the numbers are where the arguments are accepted.
pub record InRange (app : Args) : Type 0 where
  pub nclients_range : (n : ℕ) × (app.nclients ≡ pos n) × (1 ≤ n)
  pub pause_range : (n : ℕ) × (app.pause_ms ≡ pos n)
  pub progress_range : (n : ℕ) × (app.print_progress_every_ms ≡ pos n) × (1000 ≤ n) × (n < 2 ^ 31)
  pub port_range : (n : ℕ) × (app.port ≡ pos n) × (n ≤ 0xFFFF)

abbrev OnSome : (Args → Type 0) → Option Args → Type 0
OnSome P none = Unit
OnSome P (some app) = P app

checked-InRange :
    (o : Option ℤ) (is_valid : ℤ → Bool) (store : ℤ → Args)
    → ((n : ℤ) → is_valid n ≡ true → InRange (store n))
    → OnSome InRange (checked o is_valid store)
checked-InRange none is_valid store h = tt
checked-InRange (some n) is_valid store h = if_both (OnSome InRange) (is_valid n) (h n) (λ _. tt)

module _ (app : Args) (r : InRange app) where
  port-InRange : (n : ℤ) → is_port n ≡ true → InRange (record app { port = n })
  port-InRange (pos n) e = record {
    nclients_range = r.nclients_range;
    pause_range = r.pause_range;
    progress_range = r.progress_range;
    port_range = (n, refl, ground (arith, e));
  }
  port-InRange (negsuc n) e = absurd cc

  nclients-InRange : (n : ℤ) → is_positive n ≡ true → InRange (record app { nclients = n })
  nclients-InRange (pos n) e = record {
    nclients_range = (n, refl, ground (arith, e));
    pause_range = r.pause_range;
    progress_range = r.progress_range;
    port_range = r.port_range;
  }
  nclients-InRange (negsuc n) e = absurd cc

  pause-InRange : (n : ℤ) → is_natural n ≡ true → InRange (record app { pause_ms = n })
  pause-InRange (pos n) e = record {
    nclients_range = r.nclients_range;
    pause_range = (n, refl);
    progress_range = r.progress_range;
    port_range = r.port_range;
  }
  pause-InRange (negsuc n) e = absurd cc

  progress-InRange :
      (n : ℤ) → is_progress n ≡ true → InRange (record app { print_progress_every_ms = in_ms n })
  progress-InRange (pos n) e = record {
    nclients_range = r.nclients_range;
    pause_range = r.pause_range;
    progress_range = (n * 1000, refl, ground (arith, e), ground (arith, e));
    port_range = r.port_range;
  }
  progress-InRange (negsuc n) e = absurd cc

  text-InRange :
      (h p : Option Bytes) (b : Bool) → InRange (record app { host = h; path = p; is_help = b })
  text-InRange h p b = record {
    nclients_range = r.nclients_range;
    pause_range = r.pause_range;
    progress_range = r.progress_range;
    port_range = r.port_range;
  }

module _ (strtol : Bytes → Scanned) where
  with_value-InRange :
      (app : Args) (arg value : Bytes)
      → InRange app
      → OnSome InRange (with_value strtol app arg value)
  unfolding with_value
  with_value-InRange app arg value r =
      let number = scanned_int (strtol value) in
      if_both (OnSome InRange) (bytes_eq arg (codes "--host"))
        (λ _. text-InRange app r (some value) app.path app.is_help)
        λ _.
          if_both (OnSome InRange) (bytes_eq arg (codes "--port"))
            (λ _. checked-InRange number is_port _ (port-InRange app r))
            λ _.
              if_both (OnSome InRange) (bytes_eq arg (codes "--path"))
                (λ _. text-InRange app r app.host (some value) app.is_help)
                λ _.
                  if_both (OnSome InRange) (bytes_eq arg (codes "--nclients"))
                    (λ _. checked-InRange number is_positive _ (nclients-InRange app r))
                    λ _.
                      if_both (OnSome InRange) (bytes_eq arg (codes "--pause"))
                        (λ _. checked-InRange number is_natural _ (pause-InRange app r))
                        λ _.
                          if_both (OnSome InRange) (bytes_eq arg (codes "--progress"))
                            (λ _. checked-InRange number is_progress _ (progress-InRange app r))
                            (λ _. tt)

  parse_loop-InRange :
      (args : List Bytes) (app : Args) → InRange app → OnSome InRange (parse_loop strtol app args)
  unfolding parse_loop
  parse_loop-InRange [] app r = if_both (OnSome InRange) (is_complete app) (λ _. r) (λ _. tt)
  parse_loop-InRange (arg ∷ []) app r =
      if_both (OnSome InRange) (bytes_eq arg (codes "--help"))
        (λ _. text-InRange app r app.host app.path true) (λ _. tt)
  parse_loop-InRange (arg ∷ value ∷ args) app r =
      if_both (OnSome InRange) (bytes_eq arg (codes "--help"))
        (λ _. text-InRange app r app.host app.path true)
        (λ _.
          go (with_value strtol app arg value) (with_value-InRange app arg value r)
            (parse_loop-InRange args))
    where
      go :
          (o : Option Args)
          → OnSome InRange o
          → ((a : Args) → InRange a → OnSome InRange (parse_loop strtol a args))
          → OnSome InRange (elim o [ none ↦ none | some changed ↦ parse_loop strtol changed args ])
      go none h rest = tt
      go (some a) h rest = rest a h

  -- Whatever `strtol` gives: where the arguments are accepted, there is at least one client, the pause is not negative,
  -- the progress is printed at most once in a second and its period in milliseconds is an `int`, and the port fits in
  -- 16 bits.
  pub parse_args-InRange :
      {app : Args} (args : List Bytes) → parse_args strtol args ≡ some app → InRange app
  unfolding parse_args
  parse_args-InRange [] e = absurd cc
  parse_args-InRange (arg ∷ args) e = subst (OnSome InRange) e (
      parse_loop-InRange (arg ∷ args) defaults (record {
        nclients_range = (1, refl, omega arith);
        pause_range = (1000, refl);
        progress_range = (3000, refl, omega arith, omega arith);
        port_range = (0, refl, omega arith);
      }))
