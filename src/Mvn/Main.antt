-- ===== src/Mvn/Main.antt =====
-- src/main/c/postshit/launch/mvn/mvn-launch.c, `main`: from the environment to the started process.
use unspecified_garbage.Common.{
  ◌∷◌, ℕ, ◌^◌, ◌≤◌, arith, not, List, [], ◌++◌, leb, ltb, ◌==◌, if◌then◌else◌, Bytes, length, take,
  drop, codes, map, Option, none, some, if_both,
}
use unspecified_garbage.Mvn.Append.{Status, ok, no_bufs, not_sup, other, Appended, cmdline_cap}
use unspecified_garbage.Mvn.Args.{append_args, append_args-Within}
use unspecified_garbage.Mvn.Launch.{
  Child, System, c_string, java_pieces, project_pieces, slash, work_dir_cap, username_cap,
  append_pieces, append_pieces-Within,
}

-- The process returns a number, or reads what has no value yet: `cmdline_len` behind a `goto` that
-- comes before its declaration, or what is behind the array's end.
pub data Ending : Type 0 where
  exit : ℕ → Ending
  uninitialised : Ending
  over_read : Ending

-- How `main` ends, what `cmdline` holds up to `cmdline_len`, and the command line that is started.
pub record Launch : Type 0 where
  pub ending : Ending
  pub dst : Bytes
  pub command : Option Bytes

-- Behind `CreateProcessA`: its result, the wait, and the exit code.
unfoldable pub exit_of : Child → ℕ
exit_of child =
    if not child.starts
    then 1
    else if not child.is_awaited
    then 1
    else if not child.has_exit_code
    then 1
    else if leb (2 ^ 31) child.exit_code
    then 1
    else child.exit_code

-- What the array holds before a text is written: the first byte is set to NUL.
unfoldable pub array : Bytes → Bytes
array [] = []
array (c ∷ cs) = 0 ∷ cs

module _ (sys : System) where
  -- The text that `CreateProcessA` finds in the array: no NUL has been written behind the last byte.
  unfoldable pub command_in : Bytes → Option Bytes
  unfolding array
  command_in dst = c_string (dst ++ drop (length dst) (array sys.stack))

  unfoldable pub start : Bytes → Launch
  unfolding exit_of command_in
  start dst = elim (command_in dst) [
    | none ↦ record { ending = over_read; dst = dst; command = none }
    | some cmd ↦ record {
      ending = exit (exit_of (sys.create_process cmd));
      dst = dst;
      command = some cmd;
    }
  ]

  abbrev stop_with : ℕ → Bytes → Launch
  stop_with code dst = record { ending = exit code; dst = dst; command = none }

  -- The arguments are appended, and the process is started.
  unfoldable pub finish : Appended → Launch
  unfolding start
  finish r = elim r.status [
    | ok ↦ start r.dst
    | no_bufs ↦ stop_with sys.enobufs r.dst
    | not_sup ↦ stop_with sys.enotsup r.dst
    | other ↦ stop_with 1 r.dst
  ]

  unfoldable pub with_project : List Bytes → Appended → Launch
  unfolding finish
  with_project args r = elim r.status [
    | ok ↦ finish (append_args cmdline_cap r.dst args)
    | no_bufs ↦ stop_with 1 r.dst
    | not_sup ↦ stop_with 1 r.dst
    | other ↦ stop_with 1 r.dst
  ]

  unfoldable pub in_work_dir : Bytes → List Bytes → Bytes → Launch
  unfolding with_project
  in_work_dir user args dst =
      let got = sys.get_current_directory work_dir_cap in
      if got.ret == 0
      then stop_with 1 dst
      else if leb work_dir_cap got.ret
      then stop_with sys.enobufs dst
      else with_project args
          (append_pieces sys user (map slash (take got.ret got.buf)) dst project_pieces)

  unfoldable pub with_java : Bytes → List Bytes → Appended → Launch
  unfolding in_work_dir
  with_java user args r = elim r.status [
    | ok ↦ in_work_dir user args r.dst
    | no_bufs ↦ stop_with 1 r.dst
    | not_sup ↦ stop_with 1 r.dst
    | other ↦ stop_with 1 r.dst
  ]

  abbrev too_early : Launch
  too_early = record { ending = uninitialised; dst = []; command = none }

  -- `args` are `argv[1 ..]`.
  unfoldable pub main : List Bytes → Launch
  unfolding with_java
  main args =
      let help = sys.get_environment_variable (codes "LAUNCHR_HELP") 1 in
      let user = sys.get_environment_variable (codes "USERNAME") username_cap in
      if not (help.ret == 0)
      then too_early
      else if not (sys.is_not_found (codes "LAUNCHR_HELP"))
      then too_early
      else if user.ret == 0
      then too_early
      else if ltb username_cap user.ret
      then too_early
      else with_java (take user.ret user.buf) args
          (append_pieces sys (take user.ret user.buf) [] [] java_pieces)

  -- The command line so far is within its array.
  abbrev pub Fits : Launch → Type 0
  Fits l = length l.dst ≤ cmdline_cap

  pub start-Fits : (dst : Bytes) → length dst ≤ cmdline_cap → Fits (start dst)
  unfolding start
  start-Fits dst h = go (command_in dst)
    where
      go :
          (c : Option Bytes)
          → Fits (elim c [
            | none ↦ record { ending = over_read; dst = dst; command = none }
            | some cmd ↦ record {
              ending = exit (exit_of (sys.create_process cmd));
              dst = dst;
              command = some cmd;
            }
          ])
      go none = h
      go (some cmd) = h

  finish-Fits : (r : Appended) → length r.dst ≤ cmdline_cap → Fits (finish r)
  unfolding finish
  finish-Fits r h = go r.status
    where
      go :
          (s : Status)
          → Fits (elim s [
            | ok ↦ start r.dst
            | no_bufs ↦ stop_with sys.enobufs r.dst
            | not_sup ↦ stop_with sys.enotsup r.dst
            | other ↦ stop_with 1 r.dst
          ])
      go ok = start-Fits r.dst h
      go no_bufs = h
      go not_sup = h
      go other = h

  with_project-Fits :
      (args : List Bytes) (r : Appended) → length r.dst ≤ cmdline_cap → Fits (with_project args r)
  unfolding with_project
  with_project-Fits args r h = go r.status
    where
      go :
          (s : Status)
          → Fits (elim s [
            | ok ↦ finish (append_args cmdline_cap r.dst args)
            | no_bufs ↦ stop_with 1 r.dst
            | not_sup ↦ stop_with 1 r.dst
            | other ↦ stop_with 1 r.dst
          ])
      go ok =
          finish-Fits (append_args cmdline_cap r.dst args)
            (append_args-Within cmdline_cap r.dst args h).fits
      go no_bufs = h
      go not_sup = h
      go other = h

  in_work_dir-Fits :
      (user : Bytes) (args : List Bytes) (dst : Bytes)
      → length dst ≤ cmdline_cap
      → Fits (in_work_dir user args dst)
  unfolding in_work_dir
  in_work_dir-Fits user args dst h =
      let got = sys.get_current_directory work_dir_cap in
      if_both Fits (got.ret == 0) (λ _. h)
        λ _.
          if_both Fits (leb work_dir_cap got.ret) (λ _. h)
            λ _.
              let dir = map slash (take got.ret got.buf) in
              with_project-Fits args (append_pieces sys user dir dst project_pieces)
                (append_pieces-Within sys user dir dst project_pieces h).fits

  with_java-Fits :
      (user : Bytes) (args : List Bytes) (r : Appended)
      → length r.dst ≤ cmdline_cap
      → Fits (with_java user args r)
  unfolding with_java
  with_java-Fits user args r h = go r.status
    where
      go :
          (s : Status)
          → Fits (elim s [
            | ok ↦ in_work_dir user args r.dst
            | no_bufs ↦ stop_with 1 r.dst
            | not_sup ↦ stop_with 1 r.dst
            | other ↦ stop_with 1 r.dst
          ])
      go ok = in_work_dir-Fits user args r.dst h
      go no_bufs = h
      go not_sup = h
      go other = h

  -- Whatever the environment, the working directory and the arguments are, `main` ends with at most
  -- 32767 bytes in its array for the command line.
  pub main_fits : (args : List Bytes) → length (main args).dst ≤ cmdline_cap
  unfolding main
  main_fits args =
      let help = sys.get_environment_variable (codes "LAUNCHR_HELP") 1 in
      let user = sys.get_environment_variable (codes "USERNAME") username_cap in
      if_both Fits (not (help.ret == 0)) (λ _. omega arith)
        λ _.
          if_both Fits (not (sys.is_not_found (codes "LAUNCHR_HELP"))) (λ _. omega arith)
            λ _.
              if_both Fits (user.ret == 0) (λ _. omega arith)
                λ _.
                  if_both Fits (ltb username_cap user.ret) (λ _. omega arith)
                    λ _.
                      let u = take user.ret user.buf in
                      with_java-Fits u args (append_pieces sys u [] [] java_pieces)
                        (append_pieces-Within sys u [] [] java_pieces (omega arith)).fits
