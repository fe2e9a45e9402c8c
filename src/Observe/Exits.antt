-- ===== src/Observe/Exits.antt =====
-- src/main/paisa/ObserveDeployedVersions.c: a whole response, and when it is asked for.
use unspecified_garbage.Common.{
  ℕ, ◌≡◌, ◌≢◌, ◌↔◌, inl, inr, refl, sym, ap, ◌∙◌, arith, Bool, true, false, List, [], ◌∷◌, ◌++◌,
  map, append_assoc, Option, none, some, ◌==◌, ◌||◌, if◌then◌else◌, Bytes, bytes_eq, bytes_eq_iff,
  Bool-cases, codes, All,
}
use unspecified_garbage.Observe.Fetch.{App}
use unspecified_garbage.Observe.Program.{
  parse_loop, parse_args, Line, status, header, blank, text, todo_body, todo_done, header_lines,
  on_http_rsp_hdr, on_http_rsp_body, on_http_rsp_done, Event, rsp_hdr, rsp_body, rsp_done, handle,
  handle_all, run, Exit, code, abort, initial, main,
}

-- A response in chunks, as the library tells of it.
abbrev pub response : ℕ → List (Bytes × Bytes) → List Bytes → List Event
response rsp_code hdrs chunks = rsp_hdr rsp_code hdrs ∷ (map rsp_body chunks ++ (rsp_done ∷ []))

-- What is logged of its head.
abbrev pub head_lines : ℕ → List (Bytes × Bytes) → List Line
head_lines rsp_code hdrs =
    if rsp_code == 200
    then []
    else if rsp_code == 401 || rsp_code == 404
    then status rsp_code ∷ []
    else status rsp_code ∷ (map (λ (h : Bytes × Bytes). header h.0 h.1) hdrs ++ (blank ∷ []))

-- And of a chunk of its body.
abbrev pub body_line : ℕ → Bytes → Line
body_line rsp_code chunk = if rsp_code == 200 || rsp_code == 404 then todo_body else text chunk

header_lines-map :
    (hdrs : List (Bytes × Bytes))
    → header_lines hdrs ≡ map (λ (h : Bytes × Bytes). header h.0 h.1) hdrs
unfolding header_lines
header_lines-map [] = refl
header_lines-map ((key, val) ∷ hdrs) = ap (◌∷◌ (header key val)) (header_lines-map hdrs)

on_http_rsp_body-line :
    (chunk : Bytes) (app : App) (log : List Line)
    → on_http_rsp_body chunk (record { app = app; log = log })
      ≡ record { app = app; log = log ++ (body_line app.http_rsp_code chunk ∷ []) }
unfolding on_http_rsp_body
on_http_rsp_body-line chunk app log =
    elim (Bool-cases (app.http_rsp_code == 200 || app.http_rsp_code == 404)) [
      | inl e ↦ rw e refl
      | inr e ↦ rw e refl
    ]

on_http_rsp_hdr-lines :
    (rsp_code : ℕ) (hdrs : List (Bytes × Bytes)) (app : App)
    → on_http_rsp_hdr rsp_code hdrs (record { app = app; log = [] })
      ≡ record { app = record app { http_rsp_code = rsp_code }; log = head_lines rsp_code hdrs }
unfolding on_http_rsp_hdr
on_http_rsp_hdr-lines rsp_code hdrs app = elim (Bool-cases (rsp_code == 200)) [
  | inl e ↦ rw e refl
  | inr e ↦ rw e (elim (Bool-cases (rsp_code == 401 || rsp_code == 404)) [
    | inl f ↦ rw f refl
    | inr f ↦ rw f (rw (header_lines-map hdrs) refl)
  ])
]

handle_all-chunks :
    (chunks : List Bytes) (app : App) (log : List Line)
    → handle_all (map rsp_body chunks ++ (rsp_done ∷ [])) (record { app = app; log = log })
      ≡ some (record {
        app = app;
        log = log ++ (map (body_line app.http_rsp_code) chunks ++ (todo_done ∷ []));
      })
unfolding handle_all handle on_http_rsp_done
handle_all-chunks [] app log = refl
handle_all-chunks (chunk ∷ chunks) app log =
    let line = body_line app.http_rsp_code chunk in
    ap (handle_all (map rsp_body chunks ++ (rsp_done ∷ []))) (on_http_rsp_body-line chunk app log)
    ∙ handle_all-chunks chunks app (log ++ (line ∷ []))
    ∙ ap (λ (l : List Line). some (record { app = app; log = l })) (append_assoc log (line ∷ []) _)

handle_all-response :
    (rsp_code : ℕ) (hdrs : List (Bytes × Bytes)) (chunks : List Bytes) (app : App)
    → handle_all (response rsp_code hdrs chunks) (record { app = app; log = [] })
      ≡ some (record {
        app = record app { http_rsp_code = rsp_code };
        log = head_lines rsp_code hdrs ++ (map (body_line rsp_code) chunks ++ (todo_done ∷ []));
      })
unfolding handle_all handle
handle_all-response rsp_code hdrs chunks app =
    ap (handle_all (map rsp_body chunks ++ (rsp_done ∷ [])))
      (on_http_rsp_hdr-lines rsp_code hdrs app)
    ∙ handle_all-chunks chunks (record app { http_rsp_code = rsp_code }) (head_lines rsp_code hdrs)

-- Arguments that are all --yolo.
abbrev pub AllYolo : List Bytes → Type 0
AllYolo args = All (λ arg. arg ≡ codes "--yolo") args

parse_loop-yolo :
    (args : List Bytes) (app : App) → AllYolo args → parse_loop true args app ≡ some app
unfolding parse_loop bytes_eq
parse_loop-yolo [] app a = refl
parse_loop-yolo (arg ∷ args) app a = rw a.0 (parse_loop-yolo args app a.1)

-- What is logged of a response.
abbrev pub response_lines : ℕ → List (Bytes × Bytes) → List Bytes → List Line
response_lines rsp_code hdrs chunks =
    head_lines rsp_code hdrs ++ (map (body_line rsp_code) chunks ++ (todo_done ∷ []))

-- Arguments that are accepted and ask for no help.
parse_loop-AllYolo :
    (is_yolo : Bool) (args : List Bytes) (app app' : App)
    → parse_loop is_yolo args app ≡ some app'
    → app'.is_help ≡ false
    → AllYolo args × (is_yolo ≡ false → args ≢ [])
unfolding parse_loop
parse_loop-AllYolo true [] app app' e h = (tt, λ q. absurd cc)
parse_loop-AllYolo false [] app app' e h = absurd cc
parse_loop-AllYolo is_yolo (arg ∷ args) app app' e h =
    go (bytes_eq arg (codes "--help")) (bytes_eq arg (codes "--yolo")) refl e
      (parse_loop-AllYolo true args app app')
  where
    go :
        (b c : Bool)
        → bytes_eq arg (codes "--yolo") ≡ c
        → (if b
            then some (record app { is_help = true })
            else (elim c [ true ↦ parse_loop true args app | false ↦ none ]))
          ≡ some app'
        → (parse_loop true args app ≡ some app'
            → app'.is_help ≡ false
            → AllYolo args × (true ≡ false → args ≢ []))
        → AllYolo (arg ∷ args) × (is_yolo ≡ false → (arg ∷ args) ≢ [])
    go true c f q rest =
        let k : record app { is_help = true } ≡ app' = cc in
        let l : true ≡ app'.is_help = ap App.is_help k in absurd cc
    go false true f q rest =
        (((bytes_eq_iff arg (codes "--yolo")).0 f, (rest q h).0), λ _ r. absurd cc)
    go false false f q rest = absurd cc

module _ (rsp_code : ℕ) (hdrs : List (Bytes × Bytes)) (chunks : List Bytes) where
  main-response :
      (args : List Bytes)
      → args ≢ []
      → AllYolo args
      → main true (response rsp_code hdrs chunks) args
        ≡ code 0 (response_lines rsp_code hdrs chunks)
  unfolding main parse_args parse_loop bytes_eq run
  main-response [] h a = absurd (h refl)
  main-response (arg ∷ args) h a =
      rw a.0 (rw (parse_loop-yolo args initial a.1, handle_all-response rsp_code hdrs chunks) refl)

  -- With a library that makes the request and tells of a response: the program returns 0 with a log exactly where the
  -- arguments are --yolo, once or more, and the log is the head of the response where its code is not 200 (with
  -- the headers where it is not 401 or 404 either), its body where the code is neither 200 nor 404 (else a line for each
  -- chunk that tells that its handling is missing), and a line that tells the same of the end. The code of
  -- the response does not matter for what is returned.
  pub main_zero_iff :
      (args : List Bytes) (log : List Line)
      → (main true (response rsp_code hdrs chunks) args ≡ code 0 log)
        ↔ ((args ≢ []) × AllYolo args × (log ≡ response_lines rsp_code hdrs chunks))
  unfolding main parse_args
  main_zero_iff args log = (forth, λ h. main-response args h.0 h.1 ∙ ap (code 0) (sym h.2))
    where
      exit_code : Exit → ℕ
      exit_code (code n l) = n
      exit_code abort = 0

      after : Option App → Exit
      after none = abort
      after (some app') =
          elim (handle_all (response rsp_code hdrs chunks) (record { app = app'; log = [] })) [
            | none ↦ abort
            | some s ↦ code 0 s.log
          ]

      log_of : Exit → List Line
      log_of (code n l) = l
      log_of abort = []

      asked :
          (app : App) (b : Bool) (x : Exit)
          → parse_loop false args initial ≡ some app
          → app.is_help ≡ b
          → (if b then code 1 [] else x) ≡ code 0 log
          → AllYolo args × (args ≢ [])
      asked app true x e h q = absurd (omega (arith, ap exit_code q))
      asked app false x e h q =
          let r = parse_loop-AllYolo false args initial app e h in (r.0, r.1 refl)

      parsed :
          (o : Option App)
          → parse_loop false args initial ≡ o
          → (elim o [
            | none ↦ code 1 []
            | some app ↦ if app.is_help then code 1 [] else after (run true app)
          ])
            ≡ code 0 log
          → AllYolo args × (args ≢ [])
      parsed none e q = absurd (omega (arith, ap exit_code q))
      parsed (some app) e q = asked app app.is_help (after (run true app)) e refl q

      forth :
          main true (response rsp_code hdrs chunks) args ≡ code 0 log
          → (args ≢ []) × AllYolo args × (log ≡ response_lines rsp_code hdrs chunks)
      forth q =
          let h = parsed (parse_loop false args initial) refl q in
          (h.1, h.0, ap log_of (sym q ∙ main-response args h.1 h.0))
