-- ===== src/Observe/Program.antt =====
-- src/main/paisa/ObserveDeployedVersions.c: the arguments, the handlers of the response, and `main`.
use unspecified_garbage.Common.{
  ℕ, Bool, true, false, List, [], ◌∷◌, ◌++◌, Option, none, some, ◌==◌, if◌then◌else◌, Bytes,
  bytes_eq, codes, ◌||◌,
}
use unspecified_garbage.Observe.Fetch.{App, fetch_service_status}

-- The loop of `parseArgs`, with `isYolo`. `none` is the return value -1.
unfoldable pub parse_loop : Bool → List Bytes → App → Option App
unfolding bytes_eq
parse_loop is_yolo [] app = if is_yolo then some app else none
parse_loop is_yolo (arg ∷ args) app =
    if bytes_eq arg (codes "--help")
    then some (record app { is_help = true })
    else elim (bytes_eq arg (codes "--yolo")) [ true ↦ parse_loop true args app | false ↦ none ]

unfoldable pub parse_args : App → List Bytes → Option App
unfolding parse_loop
parse_args app args = parse_loop false args app

-- What the handlers log: the status line, a header, an empty line, a chunk of a body, and that the code for a body or
-- for the end of a response is not there yet.
pub data Line : Type 0 where
  status : ℕ → Line
  header : Bytes → Bytes → Line
  blank : Line
  text : Bytes → Line
  todo_body : Line
  todo_done : Line

pub record State : Type 0 where
  pub app : App
  pub log : List Line

unfoldable pub header_lines : List (Bytes × Bytes) → List Line
header_lines [] = []
header_lines ((key, val) ∷ hdrs) = header key val ∷ header_lines hdrs

unfoldable pub on_http_rsp_hdr : ℕ → List (Bytes × Bytes) → State → State
unfolding header_lines
on_http_rsp_hdr rsp_code hdrs s =
    let t = record s { app = record s.app { http_rsp_code = rsp_code } } in
    if rsp_code == 200
    then t
    else if rsp_code == 401 || rsp_code == 404
    then record t { log = s.log ++ (status rsp_code ∷ []) }
    else record t { log = s.log ++ (status rsp_code ∷ (header_lines hdrs ++ (blank ∷ []))) }

unfoldable pub on_http_rsp_body : Bytes → State → State
on_http_rsp_body buf s =
    if s.app.http_rsp_code == 200 || s.app.http_rsp_code == 404
    then record s { log = s.log ++ (todo_body ∷ []) }
    else record s { log = s.log ++ (text buf ∷ []) }

unfoldable pub on_http_rsp_done : State → State
on_http_rsp_done s = record s { log = s.log ++ (todo_done ∷ []) }

-- What the library tells of a response.
pub data Event : Type 0 where
  rsp_hdr : ℕ → List (Bytes × Bytes) → Event
  rsp_body : Bytes → Event
  rsp_done : Event
  error : Event

-- `none` is the assert of `onHttpsError`.
unfoldable pub handle : Event → State → Option State
unfolding on_http_rsp_hdr on_http_rsp_body on_http_rsp_done
handle (rsp_hdr rsp_code hdrs) s = some (on_http_rsp_hdr rsp_code hdrs s)
handle (rsp_body buf) s = some (on_http_rsp_body buf s)
handle rsp_done s = some (on_http_rsp_done s)
handle error s = none

unfoldable pub handle_all : List Event → State → Option State
unfolding handle
handle_all [] s = some s
handle_all (e ∷ es) s = elim (handle e s) [ none ↦ none | some t ↦ handle_all es t ]

unfoldable pub run : Bool → App → Option App
unfolding fetch_service_status
run is_made app = fetch_service_status is_made app (codes "preflux") (codes "TEST")

pub data Exit : Type 0 where
  code : ℕ → List Line → Exit
  abort : Exit

abbrev pub initial : App
initial = record { is_help = false; http_rsp_code = 0; req = none }

-- Given is whether the library makes the request, and what it tells until it has nothing left to do.
unfoldable pub main : Bool → List Event → List Bytes → Exit
unfolding parse_args run handle_all
main is_made events args = elim (parse_args initial args) [
  | none ↦ code 1 []
  | some app ↦ if app.is_help then code 1 [] else elim (run is_made app) [
    | none ↦ abort
    | some app' ↦ elim (handle_all events (record { app = app'; log = [] })) [
      | none ↦ abort
      | some s ↦ code 0 s.log
    ]
  ]
]
