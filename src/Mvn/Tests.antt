-- ===== src/Mvn/Tests.antt =====
-- Runs of the maven launchers of src/main/c/postshit/launch/mvn, and their theorems at concrete inputs.
use unspecified_garbage.Common.{
  ℕ, ◌≤◌, ◌≡◌, ◌≢◌, ◌↔◌, inr, refl, arith, Bool, true, not, ◌&&◌, List, [], ◌∷◌, ◌++◌, ◌==◌, Bytes,
  length, codes, none, some, All, bytes_eq, if◌then◌else◌, replicate, ltb→lt,
}
use unspecified_garbage.Mvn.Append.{
  ok, cmdline_cap, HasNoQuote, copy_unquoted, append_raw, append_quot_escaped, go_on,
}
use unspecified_garbage.Mvn.Args.{append_args, append_args_iff, HasRoom, quoted, split_quoted}
use unspecified_garbage.Mvn.Launch.{
  Got, System, Piece, literal, java_pieces, project_pieces, append_pieces, append_piece,
  append_environ,
}
use unspecified_garbage.Mvn.Started.{texts, text}
use unspecified_garbage.Mvn.Main.{exit, exit_of, main, main_fits}
use unspecified_garbage.Mvn.Success.{command_line, main_starts}
use unspecified_garbage.Mvn.VersionsSet
use unspecified_garbage.Mvn.VersionsSet.{
  version, parse_versions, set_text, set_line, main_sets, set_fits,
}

-- Each literal has the length that is given for it.
literal_lengths : List Piece → Bool
literal_lengths [] = true
literal_lengths (literal text n ∷ ps) = length text == n && literal_lengths ps
literal_lengths (_ ∷ ps) = literal_lengths ps

java_lengths : literal_lengths java_pieces ≡ true
unfolding literal_lengths
java_lengths = refl

project_lengths : literal_lengths project_pieces ≡ true
unfolding literal_lengths
project_lengths = refl

lacks : ℕ → Bytes → Bool
lacks n [] = true
lacks n (c ∷ cs) = not (c == n) && lacks n cs

lacks-All : (n : ℕ) (cs : Bytes) → lacks n cs ≡ true → All (λ c. c ≢ n) cs
unfolding lacks
lacks-All n [] e = tt
lacks-All n (c ∷ cs) e = ground (arith, lacks-All n cs)

abbrev user : Got
user = record { ret = 2; buf = codes "me" }

abbrev dir : Got
dir = record { ret = 5; buf = codes "C:\\w\\" }

abbrev missing : Got
missing = record { ret = 0; buf = [] }

abbrev environment : Bytes → ℕ → Got
environment key size = if bytes_eq key (codes "USERNAME") then user else missing

abbrev sys : System
sys = record {
  get_environment_variable = environment;
  is_not_found = λ key. true;
  get_current_directory = λ size. dir;
  create_process =
      λ cmd. record { starts = true; is_awaited = true; has_exit_code = true; exit_code = 3 };
  enobufs = 119;
  enotsup = 129;
  stack = replicate 1000 0;
}

abbrev args : List Bytes
args = codes "clean" ∷ codes "a b" ∷ []

args-HasNoQuote : All HasNoQuote args
unfolding lacks
args-HasNoQuote = (lacks-All b'"' (codes "clean") refl, (lacks-All b'"' (codes "a b") refl, tt))

-- "C:\\w\\" with slashes, and the quoted arguments.
abbrev expected : Bytes
expected = command_line sys user dir args

append_args_iff_example :
    (((append_args 20 (codes "mvn") args).status ≡ ok)
      ↔ (All HasNoQuote args × HasRoom 20 (codes "mvn") args))
    × ((append_args 20 (codes "mvn") args).status ≡ ok
        → ((append_args 20 (codes "mvn") args).dst ≡ codes "mvn" ++ quoted args)
          × (split_quoted (quoted args) ≡ some args))
append_args_iff_example = append_args_iff 20 (codes "mvn") args

main_fits_example : length (main sys args).dst ≤ cmdline_cap
main_fits_example = main_fits sys args

main_starts_example : main sys args ≡ record {
  ending = exit (exit_of (sys.create_process expected));
  dst = expected;
  command = some expected;
}
unfolding append_pieces append_piece append_environ append_raw append_quot_escaped copy_unquoted
    go_on texts text quoted lacks bytes_eq
main_starts_example =
    main_starts sys user dir args refl refl refl (λ e. omega arith) (omega arith) refl
      (λ e. omega arith) (omega arith) refl refl args-HasNoQuote (inr (ltb→lt _ _ refl))
      (lacks-All 0 expected refl) refl

set_text-length : length set_text ≡ 55
set_text-length = refl

main_sets_example : VersionsSet.main sys none (codes "1.0" ∷ []) ≡ record {
  ending = exit (exit_of (sys.create_process (set_line (codes "mvn") (codes "1.0"))));
  dst = set_line (codes "mvn") (codes "1.0");
  command = some (set_line (codes "mvn") (codes "1.0"));
}
unfolding lacks
main_sets_example =
    main_sets sys none (codes "1.0") (λ e. cc) (lacks-All b'"' (codes "1.0") refl) (omega arith)
      (lacks-All 0 (set_line (codes "mvn") (codes "1.0")) refl) refl

set_fits_example :
    length (VersionsSet.main sys none (codes "1.0" ∷ codes "2.0" ∷ [])).dst ≤ cmdline_cap
set_fits_example = set_fits sys none (codes "1.0" ∷ codes "2.0" ∷ [])
