-- ===== src/Jenkins/Args.antt =====
-- src/main/paisa/JenkinsReBuild.c, `parseArgs`. The arguments are `argv[1 ..]`.
use unspecified_garbage.Common.{
  Bool, true, false, ◌&&◌, List, [], ◌∷◌, Option, none, some, Bytes, bytes_eq, codes, if◌then◌else◌,
}

pub record Args : Type 0 where
  pub is_help : Bool
  pub service_name : Option Bytes
  pub branch_name : Option Bytes
  pub cookie : Option Bytes

abbrev pub is_given : Option Bytes → Bool
is_given none = false
is_given (some name) = true

-- `none` is the return value -1.
unfoldable pub parse_loop : Args → List Bytes → Option Args
unfolding bytes_eq
parse_loop app [] = if is_given app.service_name && is_given app.branch_name then some app else none
parse_loop app (arg ∷ []) =
    if bytes_eq arg (codes "--help") then some (record app { is_help = true }) else none
parse_loop app (arg ∷ value ∷ args) =
    let with_service = parse_loop (record app { service_name = some value }) args in
    let with_branch = parse_loop (record app { branch_name = some value }) args in
    let with_cookie = parse_loop (record app { cookie = some value }) args in
    if bytes_eq arg (codes "--help")
    then some (record app { is_help = true })
    else if bytes_eq arg (codes "--service")
    then with_service
    else if bytes_eq arg (codes "--branch")
    then with_branch
    else if bytes_eq arg (codes "--cookie")
    then with_cookie
    else none

unfoldable pub parse_args : List Bytes → Option Args
unfolding parse_loop
parse_args args =
    parse_loop (record { is_help = false; service_name = none; branch_name = none; cookie = none })
      args
