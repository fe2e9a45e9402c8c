-- ===== src/Mvn/VersionsSet.antt =====
-- src/main/c/postshit/launch/mvn/mvn-versions-set.c. Its append functions are those of mvn-launch.c.
use unspecified_garbage.Common.{
  ◌+◌, ◌≤◌, ◌≡◌, ◌≢◌, ◌↔◌, ◌∙◌, refl, ap, arith, List, [], ◌∷◌, ◌++◌, le→ltb, Bytes, length,
  length-append, take, get_elem?, append-nil, codes, Option, none, some, All, bytes_eq,
  bytes_eq_iff, if◌then◌else◌,
}
use unspecified_garbage.Mvn.Append.{
  Status, ok, no_bufs, not_sup, other, Appended, append_raw, append_quot_escaped, and_then, go_on,
  cmdline_cap, HasNoQuote, Within, copy-ok, append_raw-Within, append_quot_escaped-Within,
  and_then-Within,
}
use unspecified_garbage.Mvn.Launch.{System}
use unspecified_garbage.Mvn.Main.{Launch, exit, uninitialised, exit_of, start, start-Fits}
use unspecified_garbage.Mvn.Success.{start-right}

-- The loop over the arguments: help is asked for, there is more than one version, or it ends with the
-- version, if there is one.
pub data Parsed : Type 0 where
  help too_many : Parsed
  version : Option Bytes → Parsed

unfoldable pub parse_versions : Option Bytes → List Bytes → Parsed
unfolding bytes_eq
parse_versions new_version [] = version new_version
parse_versions none (arg ∷ args) =
    let rest = parse_versions (some arg) args in
    if bytes_eq arg (codes "--help") then help else rest
parse_versions (some v) (arg ∷ args) = if bytes_eq arg (codes "--help") then help else too_many

abbrev pub set_text : Bytes
set_text = codes " versions:set -DgenerateBackupPoms=false \"-DnewVersion="

-- The chain of calls; 55 is the length that is given for the literal.
unfoldable pub append_set : Bytes → Bytes → Appended
append_set mvn_exe new_version = and_then (append_raw cmdline_cap [] mvn_exe) λ a.
    and_then (append_raw cmdline_cap a (take 55 set_text)) λ b.
      and_then (append_quot_escaped cmdline_cap b new_version)
        λ c. append_raw cmdline_cap c (b'"' ∷ [])

abbrev pub mvn_or_default : Option Bytes → Bytes
mvn_or_default none = codes "mvn"
mvn_or_default (some exe) = exe

-- `mvn_exe` is what `getenv` gives for MVN_EXE.
module _ (sys : System) (mvn_exe : Option Bytes) where
  unfoldable pub start_set : Appended → Launch
  start_set r = elim r.status [
    | ok ↦ start sys r.dst
    | no_bufs ↦ record { ending = exit 1; dst = r.dst; command = none }
    | not_sup ↦ record { ending = exit 1; dst = r.dst; command = none }
    | other ↦ record { ending = exit 1; dst = r.dst; command = none }
  ]

  abbrev before_declared : Launch
  before_declared = record { ending = uninitialised; dst = []; command = none }

  unfoldable pub set_version : Parsed → Launch
  unfolding append_set start_set
  set_version help = before_declared
  set_version too_many = before_declared
  set_version (version none) = before_declared
  set_version (version (some v)) = start_set (append_set (mvn_or_default mvn_exe) v)

  unfoldable pub main : List Bytes → Launch
  unfolding parse_versions set_version
  main args = set_version (parse_versions none args)

-- The arguments give a version exactly where there is one argument, and it does not ask for help.
pub parse_versions_iff :
    (args : List Bytes) (v : Bytes)
    → (parse_versions none args ≡ version (some v)) ↔ ((args ≡ v ∷ []) × (v ≢ codes "--help"))
unfolding parse_versions
parse_versions_iff [] v = (λ e. cc, λ p. cc)
parse_versions_iff (arg ∷ []) v = ground (arith, bytes_eq_iff arg (codes "--help"))
parse_versions_iff (arg ∷ other_arg ∷ args) v =
    ground (arith, bytes_eq_iff arg (codes "--help"), bytes_eq_iff other_arg (codes "--help"))

raw_fits :
    (dst src : Bytes)
    → length dst + length src ≤ cmdline_cap
    → append_raw cmdline_cap dst src ≡ record { status = ok; dst = dst ++ src }
unfolding append_raw
raw_fits dst src h = rw (le→ltb cmdline_cap (length dst + length src) h)

quot_fits :
    (dst src : Bytes)
    → HasNoQuote src
    → length dst + length src ≤ cmdline_cap
    → append_quot_escaped cmdline_cap dst src ≡ record { status = ok; dst = dst ++ src }
unfolding append_quot_escaped
quot_fits dst src q h =
    rw (le→ltb cmdline_cap (length dst + length src) h)
      (copy-ok [] dst src q ∙ ap (λ s. record { status = ok; dst = dst ++ s }) (append-nil src))

-- The command line for a version.
abbrev pub set_line : Bytes → Bytes → Bytes
set_line exe v = ((exe ++ set_text) ++ v) ++ (b'"' ∷ [])

append_set-fits :
    (exe v : Bytes)
    → HasNoQuote v
    → length exe + length v + 56 ≤ cmdline_cap
    → append_set exe v ≡ record { status = ok; dst = set_line exe v }
unfolding append_set go_on
append_set-fits exe v q h =
    ap (λ r. and_then r first) (raw_fits [] exe (omega arith))
    ∙ ap (λ r. and_then r second) (raw_fits exe set_text (omega arith))
    ∙ ap (λ r. and_then r third)
        (quot_fits (exe ++ set_text) v q (omega (arith, length-append exe set_text)))
    ∙ raw_fits ((exe ++ set_text) ++ v) (b'"' ∷ [])
        (omega (arith, length-append (exe ++ set_text) v, length-append exe set_text))
  where
    third : Bytes → Appended
    third c = append_raw cmdline_cap c (b'"' ∷ [])

    second : Bytes → Appended
    second b = and_then (append_quot_escaped cmdline_cap b v) third

    first : Bytes → Appended
    first a = and_then (append_raw cmdline_cap a (take 55 set_text)) second

-- With one argument that does not ask for help and has no quote, and enough room in the array: if
-- there is no NUL in the command line and the array happened to hold one behind it, the program
-- starts maven, by the name that MVN_EXE gives or "mvn", with the goal and the version in quotes,
-- and returns what comes of that process.
pub main_sets :
    (sys : System) (mvn_exe : Option Bytes) (v : Bytes)
    → v ≢ codes "--help"
    → HasNoQuote v
    → length (mvn_or_default mvn_exe) + length v + 56 ≤ cmdline_cap
    → All (λ c. c ≢ 0) (set_line (mvn_or_default mvn_exe) v)
    → get_elem? sys.stack (length (set_line (mvn_or_default mvn_exe) v)) ≡ some 0
    → main sys mvn_exe (v ∷ []) ≡ record {
      ending = exit (exit_of (sys.create_process (set_line (mvn_or_default mvn_exe) v)));
      dst = set_line (mvn_or_default mvn_exe) v;
      command = some (set_line (mvn_or_default mvn_exe) v);
    }
unfolding main set_version start_set
main_sets sys mvn_exe v n q h z s =
    ap (λ p. set_version sys mvn_exe p) ((parse_versions_iff (v ∷ []) v).1 (refl, n))
    ∙ ap (λ r. start_set sys mvn_exe r) (append_set-fits (mvn_or_default mvn_exe) v q h)
    ∙ start-right sys (set_line (mvn_or_default mvn_exe) v) z s

append_set-Within : (exe v : Bytes) → Within cmdline_cap [] (append_set exe v)
unfolding append_set
append_set-Within exe v =
    and_then-Within cmdline_cap [] (append_raw cmdline_cap [] exe) _
      (append_raw-Within cmdline_cap [] exe (omega arith))
      λ a h.
        and_then-Within cmdline_cap a (append_raw cmdline_cap a (take 55 set_text)) _
          (append_raw-Within cmdline_cap a (take 55 set_text) h)
          λ b k.
            and_then-Within cmdline_cap b (append_quot_escaped cmdline_cap b v) _
              (append_quot_escaped-Within cmdline_cap b v k)
              λ c l. append_raw-Within cmdline_cap c (b'"' ∷ []) l

start_set-Fits :
    (sys : System) (mvn_exe : Option Bytes) (r : Appended)
    → length r.dst ≤ cmdline_cap
    → length (start_set sys mvn_exe r).dst ≤ cmdline_cap
unfolding start_set
start_set-Fits sys mvn_exe r h = go r.status
  where
    go :
        (s : Status)
        → length
            (elim s as (λ t. Launch) [
              | ok ↦ start sys r.dst
              | no_bufs ↦ record { ending = exit 1; dst = r.dst; command = none }
              | not_sup ↦ record { ending = exit 1; dst = r.dst; command = none }
              | other ↦ record { ending = exit 1; dst = r.dst; command = none }
            ]).dst
          ≤ cmdline_cap
    go ok = start-Fits sys r.dst h
    go no_bufs = h
    go not_sup = h
    go other = h

set_version-Fits :
    (sys : System) (mvn_exe : Option Bytes) (p : Parsed)
    → length (set_version sys mvn_exe p).dst ≤ cmdline_cap
unfolding set_version
set_version-Fits sys mvn_exe help = omega arith
set_version-Fits sys mvn_exe too_many = omega arith
set_version-Fits sys mvn_exe (version none) = omega arith
set_version-Fits sys mvn_exe (version (some v)) =
    start_set-Fits sys mvn_exe (append_set (mvn_or_default mvn_exe) v)
      (append_set-Within (mvn_or_default mvn_exe) v).fits

-- Whatever the arguments, the environment and the stack are, the program ends with at most 32767
-- bytes in its array for the command line.
pub set_fits :
    (sys : System) (mvn_exe : Option Bytes) (args : List Bytes)
    → length (main sys mvn_exe args).dst ≤ cmdline_cap
unfolding main
set_fits sys mvn_exe args = set_version-Fits sys mvn_exe (parse_versions none args)
