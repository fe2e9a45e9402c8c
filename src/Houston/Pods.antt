-- ===== src/Houston/Pods.antt =====
-- src/main/paisa/HoustonLogGet.c: the list of pods, and the name of a houston pod in it.
use unspecified_garbage.Common.{
  joined_chunks, is_prefix, ℕ, ◌+◌, ◌≤◌, ◌<◌, ◌≡◌, ◌↔◌, ◌∙◌, refl, sym, arith, List, [], ◌∷◌, ◌++◌,
  Option, none, some, ltb, ◌==◌, if◌then◌else◌, Bytes, codes, length, length-append, All,
  append-nil, append_assoc,
}

-- `getPodsBuf` up to `getPodsBuf_len`.
pub record PodsBuf : Type 0 where
  pub text : Bytes
  pub cap : ℕ

abbrev pub no_pods : PodsBuf
no_pods = record { text = []; cap = 0 }

abbrev cap_for : PodsBuf → ℕ → ℕ
cap_for buf n = if ltb buf.cap (length buf.text + n) then buf.cap + 4096 else buf.cap

-- `appendToGetPodsBuf`; `none` where `memcpy` writes behind the end of the buffer.
unfoldable pub append_to_get_pods_buf : PodsBuf → Bytes → Option PodsBuf
append_to_get_pods_buf buf chunk =
    if ltb (cap_for buf (length chunk)) (length buf.text + length chunk)
    then none
    else some (record { text = buf.text ++ chunk; cap = cap_for buf (length chunk) })

unfoldable pub append_all : PodsBuf → List Bytes → Option PodsBuf
unfolding append_to_get_pods_buf
append_all buf [] = some buf
append_all buf (chunk ∷ chunks) = elim (append_to_get_pods_buf buf chunk) [
  | none ↦ none
  | some grown ↦ append_all grown chunks
]

-- `seekEndOfHoustonName`
unfoldable pub up_to_blank : Bytes → Option Bytes
up_to_blank [] = none
up_to_blank (c ∷ cs) =
    if c == b' '
    then some []
    else elim (up_to_blank cs) [ none ↦ none | some name ↦ some (c ∷ name) ]

-- `checkIfHouston`, where `rest` is what comes of a line that is another.
unfoldable pub check_if_houston : Bytes → Option Bytes → Option Bytes
unfolding is_prefix up_to_blank
check_if_houston bytes rest =
    if ltb (length bytes) 10
    then none
    else if is_prefix (codes "houston-") bytes
    then up_to_blank bytes
    else rest

-- `seekBeginOfNextLine`
unfoldable pub seek_next_line : Bytes → Option Bytes
unfolding check_if_houston
seek_next_line [] = none
seek_next_line (c ∷ cs) =
    let rest = seek_next_line cs in if c == b'\n' then check_if_houston cs rest else rest

unfoldable pub find_pod : Bytes → Option Bytes
unfolding check_if_houston seek_next_line
find_pod bytes = check_if_houston bytes (seek_next_line bytes)

pub record Holds (text : Bytes) (r : Option PodsBuf) : Type 0 where
  pub buf : PodsBuf
  pub holds : r ≡ some buf
  pub text_eq : buf.text ≡ text

-- With a buffer that has room for its text, a chunk overruns it exactly where the chunk is longer
-- than what is left and 4096 bytes more.
pub append_to_get_pods_buf-none_iff :
    (buf : PodsBuf) (chunk : Bytes)
    → length buf.text ≤ buf.cap
    → (append_to_get_pods_buf buf chunk ≡ none) ↔ (buf.cap + 4096 < length buf.text + length chunk)
unfolding append_to_get_pods_buf
append_to_get_pods_buf-none_iff buf chunk h = (λ e. ground arith, λ e. ground arith)

append-some :
    (buf : PodsBuf) (chunk : Bytes)
    → length buf.text ≤ buf.cap
    → length chunk ≤ 4096
    → (cap : ℕ) × (append_to_get_pods_buf buf chunk
        ≡ some (record { text = buf.text ++ chunk; cap = cap }))
      × (length (buf.text ++ chunk) ≤ cap)
unfolding append_to_get_pods_buf
append-some buf chunk h c =
    (cap_for buf (length chunk), ground (arith), ground (arith, length-append buf.text chunk))

-- Chunks of at most 4096 bytes fit, and are put one behind the other.
pub append_all-Holds :
    (buf : PodsBuf) (chunks : List Bytes)
    → length buf.text ≤ buf.cap
    → All (λ chunk. length chunk ≤ 4096) chunks
    → Holds (buf.text ++ joined_chunks chunks) (append_all buf chunks)
unfolding append_all joined_chunks
append_all-Holds buf [] h a = record {
  buf = buf;
  holds = refl;
  text_eq = sym (append-nil buf.text);
}
append_all-Holds buf (chunk ∷ chunks) h a =
    let (cap, e, room) = append-some buf chunk h a.0 in
    let rest = append_all-Holds (record { text = buf.text ++ chunk; cap = cap }) chunks room a.1 in
    record {
      buf = rest.buf;
      holds = rw (append_all, e) rest.holds;
      text_eq = rest.text_eq ∙ append_assoc buf.text chunk (joined_chunks chunks);
    }
