-- ===== src/Mvn/Success.antt =====
-- src/main/c/postshit/launch/mvn/mvn-launch.c: a start of maven from end to end.
use unspecified_garbage.Common.{
  ℕ, zero, suc, [], ◌∷◌, refl, ◌≤◌, ◌<◌, ◌≡◌, ◌≢◌, ◌∙◌, ap, arith, true, false, List, [], ◌++◌,
  ==_ne, leb, le→ltb, Bytes, length, take, get_elem?, codes, map, some, All,
}
use unspecified_garbage.Mvn.Append.{ok, Appended, cmdline_cap, HasNoQuote}
use unspecified_garbage.Mvn.Args.{append_args, append_args_iff, HasRoom, quoted}
use unspecified_garbage.Mvn.Launch.{
  Got, System, java_pieces, project_pieces, slash, work_dir_cap, username_cap, append_pieces,
}
use unspecified_garbage.Mvn.Started.{texts, append_pieces-ok, c_string-right_iff}
use unspecified_garbage.Mvn.Main.{
  array, exit, exit_of, command_in, start, finish, with_project, in_work_dir, with_java, main,
}

-- A NUL is found behind the written text whether or not it is the one at the front.
get_elem?-array :
    (stack : Bytes) (n : ℕ) → get_elem? stack n ≡ some 0 → get_elem? (array stack) n ≡ some 0
unfolding array
get_elem?-array [] n e = e
get_elem?-array (c ∷ cs) zero e = refl
get_elem?-array (c ∷ cs) (suc n) e = e

module _ (sys : System) where
  command_in-right :
      (dst : Bytes)
      → All (λ c. c ≢ 0) dst
      → get_elem? sys.stack (length dst) ≡ some 0
      → command_in sys dst ≡ some dst
  unfolding command_in
  command_in-right dst h z =
      (c_string-right_iff dst (array sys.stack) h).1 (get_elem?-array sys.stack (length dst) z)

  pub start-right :
      (dst : Bytes)
      → All (λ c. c ≢ 0) dst
      → get_elem? sys.stack (length dst) ≡ some 0
      → start sys dst
        ≡ record { ending = exit (exit_of (sys.create_process dst)); dst = dst; command = some dst }
  unfolding start
  start-right dst h z = rw (command_in-right dst h z, start)

  finish-ok : (r : Appended) → r.status ≡ ok → finish sys r ≡ start sys r.dst
  unfolding finish
  finish-ok r e = rw (e, finish)

  with_project-ok :
      (args : List Bytes) (r : Appended)
      → r.status ≡ ok
      → with_project sys args r ≡ finish sys (append_args cmdline_cap r.dst args)
  unfolding with_project
  with_project-ok args r e = rw (e, with_project)

  with_java-ok :
      (user : Bytes) (args : List Bytes) (r : Appended)
      → r.status ≡ ok
      → with_java sys user args r ≡ in_work_dir sys user args r.dst
  unfolding with_java
  with_java-ok user args r e = rw (e, with_java)

  module _ (user dir : Got) where
    abbrev pub user_name : Bytes
    user_name = take user.ret user.buf

    abbrev pub project_dir : Bytes
    project_dir = map slash (take dir.ret dir.buf)

    -- The whole command line.
    abbrev pub command_line : List Bytes → Bytes
    command_line args =
        (texts sys user_name [] java_pieces ++ texts sys user_name project_dir project_pieces)
        ++ quoted args

    in_work_dir-ok :
        (args : List Bytes) (dst : Bytes)
        → sys.get_current_directory work_dir_cap ≡ dir
        → dir.ret ≢ 0
        → dir.ret < work_dir_cap
        → in_work_dir sys user_name args dst
          ≡ with_project sys args (append_pieces sys user_name project_dir dst project_pieces)
    unfolding in_work_dir
    in_work_dir-ok args dst e n l =
        let big : leb work_dir_cap dir.ret ≡ false = ground arith in rw (e, ==_ne dir.ret 0 n, big)

    main-ok :
        (args : List Bytes)
        → (sys.get_environment_variable (codes "LAUNCHR_HELP") 1).ret ≡ 0
        → sys.is_not_found (codes "LAUNCHR_HELP") ≡ true
        → sys.get_environment_variable (codes "USERNAME") username_cap ≡ user
        → user.ret ≢ 0
        → user.ret ≤ username_cap
        → main sys args
          ≡ with_java sys user_name args (append_pieces sys user_name [] [] java_pieces)
    unfolding main
    main-ok args h f e n l = rw (h, f, e, ==_ne user.ret 0 n, le→ltb username_cap user.ret l)

    project_text :
        (append_pieces sys user_name [] [] java_pieces).status ≡ ok
        → (append_pieces sys user_name project_dir
            (texts sys user_name [] java_pieces)
            project_pieces).status
          ≡ ok
        → (args : List Bytes)
        → with_java sys user_name args (append_pieces sys user_name [] [] java_pieces)
          ≡ in_work_dir sys user_name args (texts sys user_name [] java_pieces)
    project_text j p args =
        with_java-ok user_name args (append_pieces sys user_name [] [] java_pieces) j
        ∙ ap (λ d. in_work_dir sys user_name args d)
            (append_pieces-ok sys user_name [] [] java_pieces j)

    -- Where no help is asked for, there is a user's name of at most 16 bytes and a working directory,
    -- both chains of calls succeed, no argument has a quote and the arguments leave a byte of the
    -- array: if there is no NUL in the command line and the array happened to hold one behind it,
    -- `main` starts exactly the java call, the project's directory and the quoted arguments, in this
    -- order, and returns what comes of that process.
    pub main_starts :
        (args : List Bytes)
        → (sys.get_environment_variable (codes "LAUNCHR_HELP") 1).ret ≡ 0
        → sys.is_not_found (codes "LAUNCHR_HELP") ≡ true
        → sys.get_environment_variable (codes "USERNAME") username_cap ≡ user
        → user.ret ≢ 0
        → user.ret ≤ username_cap
        → sys.get_current_directory work_dir_cap ≡ dir
        → dir.ret ≢ 0
        → dir.ret < work_dir_cap
        → (append_pieces sys user_name [] [] java_pieces).status ≡ ok
        → (append_pieces sys user_name project_dir
            (texts sys user_name [] java_pieces)
            project_pieces).status
          ≡ ok
        → All HasNoQuote args
        → HasRoom cmdline_cap
            (texts sys user_name [] java_pieces ++ texts sys user_name project_dir project_pieces)
            args
        → All (λ c. c ≢ 0) (command_line args)
        → get_elem? sys.stack (length (command_line args)) ≡ some 0
        → main sys args ≡ record {
          ending = exit (exit_of (sys.create_process (command_line args)));
          dst = command_line args;
          command = some (command_line args);
        }
    main_starts args h f e n l d dn dl j p q room z s =
        main-ok args h f e n l
        ∙ project_text j p args
        ∙ in_work_dir-ok args java d dn dl
        ∙ with_project-ok args (append_pieces sys user_name project_dir java project_pieces) p
        ∙ ap (λ b. finish sys (append_args cmdline_cap b args))
            (append_pieces-ok sys user_name project_dir java project_pieces p)
        ∙ finish-ok (append_args cmdline_cap before args) done
        ∙ ap (λ b. start sys b) ((append_args_iff cmdline_cap before args).1 done).0
        ∙ start-right (command_line args) z s
      where
        java : Bytes
        java = texts sys user_name [] java_pieces

        before : Bytes
        before = java ++ texts sys user_name project_dir project_pieces

        done : (append_args cmdline_cap before args).status ≡ ok
        done = (append_args_iff cmdline_cap before args).0.1 (q, room)
