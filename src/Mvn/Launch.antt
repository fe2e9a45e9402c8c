-- ===== src/Mvn/Launch.antt =====
-- src/main/c/postshit/launch/mvn/mvn-launch.c, `appendFromEnvironIfNotEmpty` and `main`.
use unspecified_garbage.Common.{
  ℕ, ◌≤◌, sym, Bool, List, [], ◌∷◌, leb, ltb, ◌==◌, if◌then◌else◌, Bytes, length, take, append-nil,
  codes, Option, none, some, if_both,
}
use unspecified_garbage.Mvn.Append.{
  Status, ok, no_bufs, Appended, append_raw, append_quot_escaped, and_then, cmdline_cap, Within,
  append_raw-Within, append_quot_escaped-Within, and_then-Within,
}

-- What a call of the system gives: the return value, and the bytes of the caller's buffer.
pub record Got : Type 0 where
  pub ret : ℕ
  pub buf : Bytes

-- What the parent sees of the process it starts: whether it starts, whether the wait for it ends
-- well, whether there is an exit code, and that code.
pub record Child : Type 0 where
  pub starts : Bool
  pub is_awaited : Bool
  pub has_exit_code : Bool
  pub exit_code : ℕ

-- The system: `GetEnvironmentVariable` by name and size (and whether the error is that there is no
-- such variable), `GetCurrentDirectory` by size, what `CreateProcessA` and the calls behind it do on
-- a command line, the numbers of two errors, and the bytes that `cmdline` holds at first.
pub record System : Type 0 where
  pub get_environment_variable : Bytes → ℕ → Got
  pub is_not_found : Bytes → Bool
  pub get_current_directory : ℕ → Got
  pub create_process : Bytes → Child
  pub enobufs : ℕ
  pub enotsup : ℕ
  pub stack : Bytes

-- The text up to the first NUL; `none` where there is none in the array.
unfoldable pub c_string : Bytes → Option Bytes
c_string [] = none
c_string (c ∷ cs) =
    let rest = c_string cs in
    if c == 0 then some [] else elim rest [ none ↦ none | some s ↦ some (c ∷ s) ]

-- One entry of the chains of calls in `main`: a literal with the length that is given for it, a
-- variable of the environment, the user's name, the working directory.
pub data Piece : Type 0 where
  literal : Bytes → ℕ → Piece
  environ : Bytes → Piece
  username : Piece
  work_dir : Piece

abbrev pub java_pieces : List Piece
java_pieces =
    literal (codes "C:/work/opt/java-open-jdk-21.0.5_11/bin/java.exe") 48
    ∷ environ (codes "JVM_CONFIG_MAVEN_PROPS")
    ∷ environ (codes "MAVEN_OPTS")
    ∷ environ (codes "MAVEN_DEBUG_OPTS")
    ∷ literal (codes " -classpath") 11
    ∷ literal (codes " C:/Users/") 10
    ∷ username
    ∷ literal (codes "/.opt/maven/boot/plexus-classworlds-2.5.2.jar") 45
    ∷ literal (codes " -Dclassworlds.conf=C:/Users/") 29
    ∷ username
    ∷ literal (codes "/.opt/maven/bin/m2.conf") 23
    ∷ literal (codes " -Dmaven.home=C:/Users/") 23
    ∷ username
    ∷ literal (codes "/.opt/maven") 11
    ∷ []

abbrev pub project_pieces : List Piece
project_pieces =
    literal (codes " \"-Dmaven.multiModuleProjectDirectory=") 38
    ∷ work_dir
    ∷ literal (codes "\"") 1
    ∷ literal (codes " org.codehaus.plexus.classworlds.launcher.Launcher") 50
    ∷ []

-- `if( workDir[err] == '\\' ) workDir[err] = '/'`
abbrev pub slash : ℕ → ℕ
slash c = if c == b'\\' then b'/' else c

-- `sizeof envval - 1`
abbrev pub envval_max : ℕ
envval_max = 0x7FFE

abbrev pub work_dir_cap : ℕ
work_dir_cap = 0x7FFF

abbrev pub username_cap : ℕ
username_cap = 16

module _ (sys : System) where
  -- `appendFromEnvironIfNotEmpty`
  unfoldable pub append_environ : Bytes → Bytes → Appended
  append_environ dst key =
      let got = sys.get_environment_variable key envval_max in
      if leb envval_max got.ret
      then record { status = no_bufs; dst = dst }
      else if ltb 0 got.ret
      then and_then (append_raw cmdline_cap dst (b' ' ∷ []))
          (λ d. append_raw cmdline_cap d (take got.ret got.buf))
      else record { status = ok; dst = dst }

  -- One call of a chain, with the user's name and the working directory.
  unfoldable pub append_piece : Bytes → Bytes → Bytes → Piece → Appended
  unfolding append_environ
  append_piece user dir dst (literal text n) = append_raw cmdline_cap dst (take n text)
  append_piece user dir dst (environ key) = append_environ dst key
  append_piece user dir dst username = append_raw cmdline_cap dst user
  append_piece user dir dst work_dir = append_quot_escaped cmdline_cap dst dir

  unfoldable pub append_pieces : Bytes → Bytes → Bytes → List Piece → Appended
  append_pieces user dir dst [] = record { status = ok; dst = dst }
  append_pieces user dir dst (p ∷ ps) =
      and_then (append_piece user dir dst p) (λ d. append_pieces user dir d ps)

  append_environ-Within :
      (dst key : Bytes) → length dst ≤ cmdline_cap → Within cmdline_cap dst (append_environ dst key)
  unfolding append_environ
  append_environ-Within dst key h =
      let got = sys.get_environment_variable key envval_max in
      let same : (s : Status) → Within cmdline_cap dst (record { status = s; dst = dst }) =
        λ s. record { grows = ([], sym (append-nil dst)); fits = h } in
      if_both {A = Appended} (Within cmdline_cap dst) (leb envval_max got.ret) (λ _. same no_bufs)
        λ _.
          if_both {A = Appended} (Within cmdline_cap dst) (ltb 0 got.ret)
            (λ _.
              and_then-Within cmdline_cap dst (append_raw cmdline_cap dst (b' ' ∷ []))
                (λ d. append_raw cmdline_cap d (take got.ret got.buf))
                (append_raw-Within cmdline_cap dst (b' ' ∷ []) h)
                (λ d k. append_raw-Within cmdline_cap d (take got.ret got.buf) k))
            (λ _. same ok)

  append_piece-Within :
      (user dir dst : Bytes) (p : Piece)
      → length dst ≤ cmdline_cap
      → Within cmdline_cap dst (append_piece user dir dst p)
  unfolding append_piece
  append_piece-Within user dir dst (literal text n) h =
      append_raw-Within cmdline_cap dst (take n text) h
  append_piece-Within user dir dst (environ key) h = append_environ-Within dst key h
  append_piece-Within user dir dst username h = append_raw-Within cmdline_cap dst user h
  append_piece-Within user dir dst work_dir h = append_quot_escaped-Within cmdline_cap dst dir h

  pub append_pieces-Within :
      (user dir dst : Bytes) (ps : List Piece)
      → length dst ≤ cmdline_cap
      → Within cmdline_cap dst (append_pieces user dir dst ps)
  unfolding append_pieces
  append_pieces-Within user dir dst [] h = record { grows = ([], sym (append-nil dst)); fits = h }
  append_pieces-Within user dir dst (p ∷ ps) h =
      and_then-Within cmdline_cap dst (append_piece user dir dst p)
        (λ d. append_pieces user dir d ps) (append_piece-Within user dir dst p h)
        (λ d k. append_pieces-Within user dir d ps k)
