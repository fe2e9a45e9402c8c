-- ===== src/Ocexec/Program.antt =====
-- src/main/c/postshit/launch/openshift/ocexec.c. The arguments are `argv[1 ..]`.
use unspecified_garbage.Common.{
  ℕ, ◌≡◌, ◌≢◌, ◌↔◌, refl, arith, Bool, true, false, ◌||◌, List, [], ◌∷◌, Option, none, some, Bytes,
  bytes_eq, codes, if_both, if◌then◌else◌,
}

pub record App : Type 0 where
  pub is_help : Bool
  pub oc_namespace : Option Bytes
  pub pod_name : Option Bytes

-- The loop over the arguments; `none` is the return value -1.
unfoldable pub parse_loop : App → List Bytes → Option App
unfolding bytes_eq
parse_loop app [] = some app
parse_loop app (arg ∷ []) =
    if bytes_eq arg (codes "--help") then some (record app { is_help = true }) else none
parse_loop app (arg ∷ value ∷ args) =
    let with_namespace = parse_loop (record app { oc_namespace = some value }) args in
    let with_pod = parse_loop (record app { pod_name = some value }) args in
    if bytes_eq arg (codes "--help")
    then some (record app { is_help = true })
    else if bytes_eq arg (codes "-n") || bytes_eq arg (codes "--namespace")
    then with_namespace
    else if bytes_eq arg (codes "-p") || bytes_eq arg (codes "--pod")
    then with_pod
    else none

abbrev pub no_options : App
no_options = record { is_help = false; oc_namespace = none; pod_name = none }

unfoldable pub parse_args : List Bytes → Option App
unfolding parse_loop
parse_args [] = none
parse_args (arg ∷ args) = parse_loop no_options (arg ∷ args)

-- The short names of three namespaces; another name is used as it is.
unfoldable pub resolve_name : Bytes → Bytes
unfolding bytes_eq
resolve_name name =
    if bytes_eq name (codes "test")
    then codes "isa-houston-test"
    else if bytes_eq name (codes "int")
    then codes "isa-houston-int"
    else if bytes_eq name (codes "preprod")
    then codes "isa-houston-preprod"
    else name

-- `none` where there is no namespace, and `strcmp` gets a null pointer.
unfoldable pub resolve_namespace : App → Option App
unfolding resolve_name
resolve_namespace app = elim app.oc_namespace [
  | none ↦ none
  | some name ↦ some (record app { oc_namespace = some (resolve_name name) })
]

pub data Exit : Type 0 where
  code : ℕ → Exit
  abort null_pointer : Exit

-- `fetchPodnames` is an assert that always fails, so nothing behind the call of `resolvePodname` is
-- reached.
unfoldable pub run : App → Exit
unfolding resolve_namespace
run app = elim (resolve_namespace app) [ none ↦ null_pointer | some app' ↦ abort ]

unfoldable pub main : List Bytes → Exit
unfolding parse_args run
main args = elim (parse_args args) [
  | none ↦ code 1
  | some app ↦ if app.is_help then code 0 else run app
]

-- An option with its value, in the long or the short spelling.
pub data Opt : Type 0 where
  namespace pod : Bool → Bytes → Opt

pub spell : List Opt → List Bytes
spell [] = []
spell (namespace true v ∷ os) = codes "--namespace" ∷ v ∷ spell os
spell (namespace false v ∷ os) = codes "-n" ∷ v ∷ spell os
spell (pod true v ∷ os) = codes "--pod" ∷ v ∷ spell os
spell (pod false v ∷ os) = codes "-p" ∷ v ∷ spell os

-- The options' effect, the later ones last.
pub with_options : App → List Opt → App
with_options app [] = app
with_options app (namespace b v ∷ os) = with_options (record app { oc_namespace = some v }) os
with_options app (pod b v ∷ os) = with_options (record app { pod_name = some v }) os

parse_loop-spell :
    (app : App) (os : List Opt) → parse_loop app (spell os) ≡ some (with_options app os)
unfolding parse_loop spell with_options bytes_eq
parse_loop-spell app [] = refl
parse_loop-spell app (namespace true v ∷ os) =
    parse_loop-spell (record app { oc_namespace = some v }) os
parse_loop-spell app (namespace false v ∷ os) =
    parse_loop-spell (record app { oc_namespace = some v }) os
parse_loop-spell app (pod true v ∷ os) = parse_loop-spell (record app { pod_name = some v }) os
parse_loop-spell app (pod false v ∷ os) = parse_loop-spell (record app { pod_name = some v }) os

-- At least one option, each in its long or its short spelling with any text behind it, be it the name
-- of an option, is accepted, and of each kind the last one counts.
pub parse_args-spell :
    (o : Opt) (os : List Opt)
    → parse_args (spell (o ∷ os)) ≡ some (with_options no_options (o ∷ os))
unfolding parse_args spell
parse_args-spell (namespace true v) os = parse_loop-spell no_options (namespace true v ∷ os)
parse_args-spell (namespace false v) os = parse_loop-spell no_options (namespace false v ∷ os)
parse_args-spell (pod true v) os = parse_loop-spell no_options (pod true v ∷ os)
parse_args-spell (pod false v) os = parse_loop-spell no_options (pod false v ∷ os)

-- A resolved namespace resolves to itself.
pub resolve_name_idempotent : (name : Bytes) → resolve_name (resolve_name name) ≡ resolve_name name
unfolding resolve_name bytes_eq
resolve_name_idempotent name =
    if_both P (bytes_eq name (codes "test")) (λ _. refl)
      λ a.
        if_both P (bytes_eq name (codes "int")) (λ _. refl)
          λ b. if_both P (bytes_eq name (codes "preprod")) (λ _. refl) λ c. rw (a, b, c) refl
  where
    P : Bytes → Type 0
    P n = resolve_name n ≡ n

run_ne : (app : App) → run app ≢ code 0
unfolding run
run_ne app = go (resolve_namespace app)
  where
    go :
        (o : Option App)
        → elim o as (λ t. Exit) [ none ↦ null_pointer | some app' ↦ abort ] ≢ code 0
    go none e = cc
    go (some app') e = cc

-- Whatever the arguments are, the program returns 0 exactly where they are accepted and ask for help.
pub main_helps_iff :
    (args : List Bytes)
    → (main args ≡ code 0) ↔ ((app : App) × (parse_args args ≡ some app) × (app.is_help ≡ true))
unfolding main
main_helps_iff args = go (parse_args args)
  where
    helps : (app : App) → (if app.is_help then code 0 else run app) ≡ code 0 → app.is_help ≡ true
    helps app e = ground (arith, run_ne app)

    zero_where_help :
        (app a : App)
        → some app ≡ some a
        → a.is_help ≡ true
        → (if app.is_help then code 0 else run app) ≡ code 0
    zero_where_help app a e h = ground (arith, e, h)

    go :
        (o : Option App)
        → (elim o as (λ t. Exit) [
          | none ↦ code 1
          | some app ↦ if app.is_help then code 0 else run app
        ]
            ≡ code 0)
          ↔ ((app : App) × (o ≡ some app) × (app.is_help ≡ true))
    go none = (λ e. absurd cc, λ p. absurd cc)
    go (some app) = (λ e. (app, refl, helps app e), λ p. zero_where_help app p.0 p.1 p.2)
