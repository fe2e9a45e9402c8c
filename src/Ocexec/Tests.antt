-- ===== src/Ocexec/Tests.antt =====
-- Runs of src/main/c/postshit/launch/openshift/ocexec.c, and its theorems at concrete inputs.
use unspecified_garbage.Common.{◌≡◌, true, false, List, [], ◌∷◌, some, codes}
use unspecified_garbage.Ocexec.Program.{
  Opt, namespace, pod, spell, with_options, no_options, parse_args, parse_args-spell,
}

-- The value "--help" asks for no help.
abbrev opts : List Opt
opts = pod true (codes "--help") ∷ namespace true (codes "int") ∷ []

parse_args-spell_example :
    parse_args (spell (namespace false (codes "test") ∷ opts))
    ≡ some (with_options no_options (namespace false (codes "test") ∷ opts))
parse_args-spell_example = parse_args-spell (namespace false (codes "test")) opts
