-- ===== src/Houston/Fetch.antt =====
-- src/main/paisa/HoustonLogGet.c: what a run comes to, from the lines of the list of pods.
use unspecified_garbage.Common.{
  joined_chunks, ℕ, ◌+◌, ◌≤◌, ◌≡◌, ◌∙◌, refl, sym, ap, arith, Bool, true, false, List, [], ◌∷◌,
  ◌++◌, append-nil, append_assoc, Option, none, some, leb, inl, inr, Bool-cases, le→leb, ltb,
  ==_iff, if◌then◌else◌, Bytes, length, take, All,
}
use unspecified_garbage.Houston.Args.{Args, parse_args}
use unspecified_garbage.Houston.Pods.{PodsBuf, no_pods, append_all-Holds, find_pod}
use unspecified_garbage.Houston.Lines.{unlines, first_pod, IsLine, find_pod-unlines}
use unspecified_garbage.Houston.Program.{
  Exit, exit, aborted, Chunk, list_argv, zip_argv, append_to_current_outfile, append_chunks,
  begin_zip_download, on_get_pods_joined, get_houston_podname, main,
}

abbrev pub IsWritten : Chunk → Type 0
IsWritten chunk = chunk.written ≡ length chunk.text

pub texts : List Chunk → Bytes
texts [] = []
texts (chunk ∷ chunks) = chunk.text ++ texts chunks

-- A file for chunks that are all written, if there are any.
abbrev pub file_of : List Chunk → Option Bytes
file_of [] = none
file_of (chunk ∷ chunks) = some (texts (chunk ∷ chunks))

-- What comes of the name that was found.
abbrev pub outcome : Option Bytes → List Chunk → Option Bytes → Exit
outcome namespace chunks none = exit 1 (list_argv namespace ∷ []) none
outcome namespace chunks (some name) =
    if ltb (length name) 19
    then exit 0 (list_argv namespace ∷ zip_argv namespace name ∷ []) (file_of chunks)
    else aborted

take-length : (xs : Bytes) → take (length xs) xs ≡ xs
take-length [] = refl
take-length (x ∷ xs) = ap (◌∷◌ x) (take-length xs)

take-written : (chunk : Chunk) → IsWritten chunk → take chunk.written chunk.text ≡ chunk.text
take-written chunk w = ap (λ n. take n chunk.text) w ∙ take-length chunk.text

module _ (new_process : List Bytes → Bool) (path : Bytes) (errno : ℕ) where
  append_more :
      (file : Bytes) (chunk : Chunk)
      → IsWritten chunk
      → append_to_current_outfile new_process path true errno
          (record { error = 0; file = some file })
          chunk
        ≡ record { error = 0; file = some (file ++ chunk.text) }
  unfolding append_to_current_outfile
  append_more file chunk w =
      rw ((==_iff chunk.written (length chunk.text)).1 w, take-written chunk w) refl

  append_first :
      (chunk : Chunk)
      → IsWritten chunk
      → append_to_current_outfile new_process path true errno
          (record { error = 0; file = none })
          chunk
        ≡ record { error = 0; file = some chunk.text }
  unfolding append_to_current_outfile
  append_first chunk w =
      rw ((==_iff chunk.written (length chunk.text)).1 w, take-written chunk w) refl

  append_chunks-some :
      (file : Bytes) (chunks : List Chunk)
      → All IsWritten chunks
      → append_chunks new_process path true errno (record { error = 0; file = some file }) chunks
        ≡ record { error = 0; file = some (file ++ texts chunks) }
  unfolding append_chunks texts
  append_chunks-some file [] a =
      ap (λ f. record { error = 0; file = some f }) (sym (append-nil file))
  append_chunks-some file (chunk ∷ chunks) a =
      ap (λ out. append_chunks new_process path true errno out chunks) (append_more file chunk a.0)
      ∙ append_chunks-some (file ++ chunk.text) chunks a.1
      ∙ ap (λ f. record { error = 0; file = some f }) (append_assoc file chunk.text (texts chunks))

  append_chunks-file_of :
      (chunks : List Chunk)
      → All IsWritten chunks
      → append_chunks new_process path true errno (record { error = 0; file = none }) chunks
        ≡ record { error = 0; file = file_of chunks }
  unfolding append_chunks texts
  append_chunks-file_of [] a = refl
  append_chunks-file_of (chunk ∷ chunks) a =
      ap (λ out. append_chunks new_process path true errno out chunks) (append_first chunk a.0)
      ∙ append_chunks-some chunk.text chunks a.1

short_name : (name : Bytes) → ltb (length name) 19 ≡ true → leb 20 (length name + 1) ≡ false
short_name name s = ground arith

module _ (new_process : List Bytes → Bool) (path : Bytes) (errno : ℕ) (app : Args)
    (chunks : List Chunk) where
  begin_zip_download-exit :
      (name : Bytes)
      → ((argv : List Bytes) → new_process argv ≡ true)
      → length path ≡ 30
      → All IsWritten chunks
      → begin_zip_download new_process path true errno app.namespace chunks name
        ≡ exit 0 (list_argv app.namespace ∷ zip_argv app.namespace name ∷ []) (file_of chunks)
  unfolding begin_zip_download
  begin_zip_download-exit name n l a =
      rw
        (
          (==_iff (length path) 30).1 l,
          n (zip_argv app.namespace name),
          append_chunks-file_of new_process path errno chunks a,
        )
        refl

  on_get_pods_joined-outcome :
      (buf : PodsBuf) (found : Option Bytes)
      → find_pod buf.text ≡ found
      → ((argv : List Bytes) → new_process argv ≡ true)
      → length path ≡ 30
      → All IsWritten chunks
      → on_get_pods_joined new_process path true errno app.namespace chunks buf
        ≡ outcome app.namespace chunks found
  unfolding on_get_pods_joined
  on_get_pods_joined-outcome buf none f n l a = rw (f, on_get_pods_joined) refl
  on_get_pods_joined-outcome buf (some name) f n l a = elim (Bool-cases (ltb (length name) 19)) [
    | inl s ↦ rw (f, on_get_pods_joined, s, short_name name s) (begin_zip_download-exit name n l a)
    | inr s ↦ rw (f, on_get_pods_joined, s, le→leb 20 (length name + 1) (ground arith)) refl
  ]

-- Where the arguments are accepted and ask for no help, all processes start, the time fills the
-- name of the file, and all output is written: for a list of pods that comes in chunks of at most 4096
-- bytes and whose lines that start like the name of a houston pod have a blank, the program
-- returns 1 where there is no such line; otherwise it takes the first such name, puts the whole output of the
-- second process in the file (no file if there is none) and returns 0 where the name has fewer than 19
-- bytes, and aborts where it has 19 or more.
pub main-outcome :
    (new_process : List Bytes → Bool) (path : Bytes) (errno : ℕ) (args : List Bytes) (app : Args)
    (pods : List Bytes) (lines : List Bytes) (chunks : List Chunk)
    → ((argv : List Bytes) → new_process argv ≡ true)
    → length path ≡ 30
    → parse_args args ≡ some app
    → app.is_help ≡ false
    → All (λ chunk. length chunk ≤ 4096) pods
    → joined_chunks pods ≡ unlines lines
    → All IsLine lines
    → All IsWritten chunks
    → main new_process path true errno args pods chunks
      ≡ outcome app.namespace chunks (first_pod lines)
unfolding main get_houston_podname
main-outcome new_process path errno args app pods lines chunks n l p h c j i a =
    let r = append_all-Holds no_pods pods (omega arith) c in
    rw (p, main, h, n (list_argv app.namespace), r.holds, get_houston_podname)
      (on_get_pods_joined-outcome new_process path errno app chunks r.buf (first_pod lines)
        (ap find_pod (r.text_eq ∙ j) ∙ find_pod-unlines lines i) n l a)
