-- ===== src/Merge/Args.antt =====
-- src/main/paisa/LogMerge.c, `parseArgs`. The arguments are `argv[1 ..]`.
use unspecified_garbage.Common.{
  Bool, true, false, List, [], ◌∷◌, ◌++◌, Option, none, some, Bytes, bytes_eq, codes, if◌then◌else◌,
}

pub record Args : Type 0 where
  pub is_help : Bool
  pub is_dedupe : Bool
  pub files : List Bytes

abbrev with_file : Args → Bytes → Args
with_file app arg = record app { files = app.files ++ (arg ∷ []) }

-- The flag is `isStrictlyNonOpt`; behind "--help" no argument is looked at.
unfoldable pub parse_loop : Bool → Args → List Bytes → Args
unfolding bytes_eq
parse_loop is_strictly_non_opt app [] = app
parse_loop is_strictly_non_opt app (arg ∷ args) =
    let with_arg = parse_loop is_strictly_non_opt (with_file app arg) args in
    let with_no_dedupe = parse_loop is_strictly_non_opt (record app { is_dedupe = false }) args in
    let strictly = parse_loop true app args in
    if is_strictly_non_opt
    then with_arg
    else if bytes_eq arg (codes "--help")
    then record app { is_help = true }
    else if bytes_eq arg (codes "--no-dedupe")
    then with_no_dedupe
    else if bytes_eq arg (codes "--")
    then strictly
    else with_arg

-- `none` is the return value -1.
unfoldable pub parse_args : List Bytes → Option Args
unfolding parse_loop
parse_args [] = none
parse_args (arg ∷ args) =
    some (parse_loop false (record { is_help = false; is_dedupe = true; files = [] }) (arg ∷ args))
