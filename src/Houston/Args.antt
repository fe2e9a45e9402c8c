-- ===== src/Houston/Args.antt =====
-- src/main/paisa/HoustonLogGet.c, `parseArgs`. The arguments are `argv[1 ..]`.
use unspecified_garbage.Common.{
  Bool, true, false, ◌||◌, List, [], ◌∷◌, Option, none, some, Bytes, bytes_eq, codes, if◌then◌else◌,
}

pub record Args : Type 0 where
  pub is_help : Bool
  pub namespace : Option Bytes

abbrev is_namespace : Bytes → Bool
is_namespace arg = bytes_eq arg (codes "--namespace") || bytes_eq arg (codes "-n")

-- `none` is the return value -1.
unfoldable pub parse_loop : Args → List Bytes → Option Args
unfolding bytes_eq
parse_loop app [] = some app
parse_loop app (arg ∷ []) =
    if bytes_eq arg (codes "--help") then some (record app { is_help = true }) else none
parse_loop app (arg ∷ value ∷ args) =
    let with_help = parse_loop (record app { is_help = true }) (value ∷ args) in
    let with_namespace = parse_loop (record app { namespace = some value }) args in
    if bytes_eq arg (codes "--help")
    then with_help
    else if is_namespace arg
    then with_namespace
    else none

abbrev pub no_args : Args
no_args = record { is_help = false; namespace = none }

unfoldable pub parse_args : List Bytes → Option Args
unfolding parse_loop
parse_args [] = none
parse_args (arg ∷ args) = parse_loop no_args (arg ∷ args)
