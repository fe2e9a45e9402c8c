-- ===== src/Houston/Program.antt =====
-- src/main/paisa/HoustonLogGet.c: the two child processes and the file, and main.
use unspecified_garbage.Common.{
  ℕ, ◌+◌, Bool, not, List, [], ◌∷◌, ◌++◌, Option, none, some, leb, ◌==◌, if◌then◌else◌, Bytes,
  up_to_nul, codes, length, take,
}
use unspecified_garbage.Houston.Args.{parse_args}
use unspecified_garbage.Houston.Pods.{PodsBuf, no_pods, append_all, find_pod}

-- The return value, the processes that were started, and the file with what is in it; or an assert that fails, or a
-- write behind the end of a buffer.
pub data Exit : Type 0 where
  exit : ℕ → List (List Bytes) → Option Bytes → Exit
  aborted : Exit
  fault : Exit

-- A chunk of output, how much of it `fwrite` writes, and `errno` behind that.
pub record Chunk : Type 0 where
  pub text : Bytes
  pub written : ℕ
  pub errno : ℕ

-- The program has failed where `error` is not 0.
pub record Out : Type 0 where
  pub error : ℕ
  pub file : Option Bytes

abbrev write : Chunk → Bytes → Out
write chunk file = record {
  error = if chunk.written == length chunk.text then 0 else chunk.errno;
  file = some (file ++ take chunk.written chunk.text);
}

-- `sizeof podName`
abbrev pub pod_name_cap : ℕ
pod_name_cap = 20

abbrev pub list_argv : Option Bytes → List Bytes
list_argv namespace =
    codes "oc"
    ∷ codes "-n"
    ∷ (elim namespace [ none ↦ [] | some n ↦ n ∷ codes "get" ∷ codes "pods" ∷ [] ])

unfoldable pub archive : Bytes
archive = codes "cd /usr/local/vertx/logs && tar cz $(ls -d houston.log* | sort -r)"

abbrev pub zip_argv : Option Bytes → Bytes → List Bytes
zip_argv namespace name = codes "oc" ∷ codes "-n" ∷ (elim namespace [
  | none ↦ []
  | some n ↦
      n
      ∷ codes "exec"
      ∷ codes "-i"
      ∷ up_to_nul name
      ∷ codes "--"
      ∷ codes "sh"
      ∷ codes "-c"
      ∷ archive
      ∷ []
])

-- `newProcess`, the text that `strftime` gives for the name of the file, whether `fopen` gives a file,
-- and `errno` if it does not.
module _ (new_process : List Bytes → Bool) (path : Bytes) (opened : Bool) (open_errno : ℕ) where
  unfoldable pub append_to_current_outfile : Out → Chunk → Out
  append_to_current_outfile out chunk = if not (out.error == 0) then out else elim out.file [
    | none ↦ if opened then write chunk [] else record out { error = open_errno }
    | some file ↦ write chunk file
  ]

  unfoldable pub append_chunks : Out → List Chunk → Out
  unfolding append_to_current_outfile
  append_chunks out [] = out
  append_chunks out (chunk ∷ chunks) = append_chunks (append_to_current_outfile out chunk) chunks

  -- `beginZipDownload`, up to the end of its child.
  unfoldable pub begin_zip_download : Option Bytes → List Chunk → Bytes → Exit
  unfolding append_chunks
  begin_zip_download namespace chunks name =
      if not (length path == 30)
      then aborted
      else if new_process (zip_argv namespace name)
      then (let out = append_chunks (record { error = 0; file = none }) chunks in
          exit (if out.error == 0 then 0 else 1)
            (list_argv namespace ∷ zip_argv namespace name ∷ []) out.file)
      else aborted

  unfoldable pub on_get_pods_joined : Option Bytes → List Chunk → PodsBuf → Exit
  unfolding begin_zip_download
  on_get_pods_joined namespace chunks buf = elim (find_pod buf.text) [
    | none ↦ exit 1 (list_argv namespace ∷ []) none
    | some name ↦
        if leb pod_name_cap (length name + 1)
        then aborted
        else begin_zip_download namespace chunks name
  ]

  -- `getHoustonPodname`, with the output of its child, and that of the second one.
  unfoldable pub get_houston_podname : Option Bytes → List Bytes → List Chunk → Exit
  unfolding on_get_pods_joined
  get_houston_podname namespace pods chunks =
      if new_process (list_argv namespace)
      then elim (append_all no_pods pods) [
        | none ↦ fault
        | some buf ↦ on_get_pods_joined namespace chunks buf
      ]
      else aborted

  unfoldable pub main : List Bytes → List Bytes → List Chunk → Exit
  unfolding get_houston_podname parse_args
  main args pods chunks = elim (parse_args args) [
    | none ↦ exit 1 [] none
    | some app ↦
        if app.is_help then exit 0 [] none else get_houston_podname app.namespace pods chunks
  ]
