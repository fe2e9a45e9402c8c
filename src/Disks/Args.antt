-- ===== src/Disks/Args.antt =====
-- src/main/c/paisa-fleet/FindFullDisks.c, `parseArgs`. The arguments are `argv[1 ..]`.
use unspecified_garbage.Common.{
  to_int, ◌≡◌, ◌≢◌, ◌∙◌, refl, arith, Bool, true, false, List, [], ◌∷◌, Option, none, some, Bytes,
  bytes_eq, bytes_eq_iff, codes, if◌then◌else◌, pos, Strtol, All,
}
use unspecified_garbage.Disks.State.{App}

abbrev pub defaults : App
defaults = record {
  is_help = false;
  ssh_user = none;
  ssh_port = pos 22;
  max_parallel = pos 1;
  num_in_progress = 0;
  devices = [];
  devices_cap = 0;
  i_device = 0;
  has_failed = false;
}

abbrev pub is_some {ℓ} : {A : Type ℓ} → Option A → Bool
is_some none = false
is_some (some a) = true

-- An option with its value, or a word that is no option.
pub data Word : Type 0 where
  user port parallel noise : Bytes → Word

pub spell : List Word → List Bytes
spell [] = []
spell (user v ∷ ws) = codes "--sshUser" ∷ v ∷ spell ws
spell (port v ∷ ws) = codes "--sshPort" ∷ v ∷ spell ws
spell (parallel v ∷ ws) = codes "--maxParallel" ∷ v ∷ spell ws
spell (noise v ∷ ws) = v ∷ spell ws

abbrev pub IsNoOption : Bytes → Type 0
IsNoOption v =
    (v ≢ codes "--help")
    × (v ≢ codes "--sshUser")
    × (v ≢ codes "--sshPort")
    × (v ≢ codes "--maxParallel")

module _ (strtol : Bytes → Strtol) where
  -- The loop with the check behind it; `none` is the return value -1. Another argument is only
  -- complained of.
  unfoldable pub parse_loop : App → List Bytes → Option App
  unfolding bytes_eq
  parse_loop app [] = if is_some app.ssh_user then some app else none
  parse_loop app (arg ∷ []) =
      let rest = parse_loop app [] in
      if bytes_eq arg (codes "--help")
      then some (record app { is_help = true })
      else if bytes_eq arg (codes "--sshUser")
      then none
      else if bytes_eq arg (codes "--sshPort")
      then none
      else if bytes_eq arg (codes "--maxParallel")
      then none
      else rest
  parse_loop app (arg ∷ value ∷ args) =
      let with_user = parse_loop (record app { ssh_user = some value }) args in
      let with_port = parse_loop (record app { ssh_port = to_int (strtol value).value }) args in
      let with_parallel =
        parse_loop (record app { max_parallel = to_int (strtol value).value }) args in
      let rest = parse_loop app (value ∷ args) in
      if bytes_eq arg (codes "--help")
      then some (record app { is_help = true })
      else if bytes_eq arg (codes "--sshUser")
      then with_user
      else if bytes_eq arg (codes "--sshPort")
      then (if (strtol value).is_error then none else with_port)
      else if bytes_eq arg (codes "--maxParallel")
      then (if (strtol value).is_error then none else with_parallel)
      else rest

  unfoldable pub parse_args : List Bytes → Option App
  unfolding parse_loop
  parse_args args = parse_loop defaults args

  abbrev pub IsNumber : Bytes → Type 0
  IsNumber v = (strtol v).is_error ≡ false

  abbrev pub IsWord : Word → Type 0
  IsWord (user v) = Unit
  IsWord (port v) = IsNumber v
  IsWord (parallel v) = IsNumber v
  IsWord (noise v) = IsNoOption v

  -- The words' effect, the later ones last; words that are no options have none.
  pub with_words : App → List Word → App
  with_words app [] = app
  with_words app (user v ∷ ws) = with_words (record app { ssh_user = some v }) ws
  with_words app (port v ∷ ws) = with_words (record app { ssh_port = to_int (strtol v).value }) ws
  with_words app (parallel v ∷ ws) =
      with_words (record app { max_parallel = to_int (strtol v).value }) ws
  with_words app (noise v ∷ ws) = with_words app ws

  abbrev pub accept : App → Option App
  accept app = if is_some app.ssh_user then some app else none

  parse_loop-noise :
      (app : App) (v : Bytes) (args : List Bytes)
      → IsNoOption v
      → parse_loop app (v ∷ args) ≡ parse_loop app args
  unfolding parse_loop
  parse_loop-noise app v [] h = ground (
    arith,
    bytes_eq_iff v (codes "--help"),
    bytes_eq_iff v (codes "--sshUser"),
    bytes_eq_iff v (codes "--sshPort"),
    bytes_eq_iff v (codes "--maxParallel"),
  )
  parse_loop-noise app v (w ∷ args) h = ground (
    arith,
    bytes_eq_iff v (codes "--help"),
    bytes_eq_iff v (codes "--sshUser"),
    bytes_eq_iff v (codes "--sshPort"),
    bytes_eq_iff v (codes "--maxParallel"),
  )

  parse_loop-spell :
      (app : App) (ws : List Word)
      → All IsWord ws
      → parse_loop app (spell ws) ≡ accept (with_words app ws)
  unfolding parse_loop spell with_words bytes_eq
  parse_loop-spell app [] h = refl
  parse_loop-spell app (user v ∷ ws) h = parse_loop-spell (record app { ssh_user = some v }) ws h.1
  parse_loop-spell app (port v ∷ ws) h =
      rw h.0 (parse_loop-spell (record app { ssh_port = to_int (strtol v).value }) ws h.1)
  parse_loop-spell app (parallel v ∷ ws) h =
      rw h.0 (parse_loop-spell (record app { max_parallel = to_int (strtol v).value }) ws h.1)
  parse_loop-spell app (noise v ∷ ws) h =
      parse_loop-noise app v (spell ws) h.0 ∙ parse_loop-spell app ws h.1

  -- Options with their values (numbers where they must be), in any order and number and with any words
  -- that are no options between them, are accepted exactly where a user is among them. Of each kind
  -- the last one counts, and the other words have no effect.
  pub parse_args-spell_words :
      (ws : List Word) → All IsWord ws → parse_args (spell ws) ≡ accept (with_words defaults ws)
  unfolding parse_args
  parse_args-spell_words ws h = parse_loop-spell defaults ws h
