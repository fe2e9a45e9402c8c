-- ===== src/Jenkins/Program.antt =====
-- src/main/paisa/JenkinsReBuild.c: one request with its response, and main.
use unspecified_garbage.Common.{
  ℕ, ◌+◌, ◌≤◌, ◌<◌, ◌≡◌, ◌≢◌, ◌↔◌, ◌∙◌, refl, sym, ap, arith, Bool, true, false, List, [], ◌∷◌,
  ◌++◌, Option, none, some, ==_ne, if◌then◌else◌, Bytes, codes, length, contains, contains_iff,
  joined_chunks, All,
}
use unspecified_garbage.Jenkins.Args.{Args, parse_args}
use unspecified_garbage.Jenkins.Request.{Url, request_url, full_url, request_url_iff}
use unspecified_garbage.Jenkins.Response.{
  on_rsp_hdr, receive, running, failure, on_rsp_done, receive-Received, up_to_nul-append,
}

-- What comes of a request: an error, or a code and a body in chunks.
pub data Reply : Type 0 where
  failed : Reply
  reply : ℕ → List Bytes → Reply

-- The return value and what is printed, an assert that fails, or a write behind the end of a buffer.
pub data Exit : Type 0 where
  exit : ℕ → Bytes → Exit
  aborted : Exit
  fault : Exit

abbrev name_of : Option Bytes → Bytes
name_of none = []
name_of (some name) = name

-- The reply to a cookie and a URL, and what stands behind the body in memory.
module _ (http : Option Bytes → Bytes → Reply) (after : Bytes) where
  unfoldable pub on_reply : Reply → Exit
  unfolding receive on_rsp_done
  on_reply failed = exit 0 []
  on_reply (reply code chunks) = elim (receive (on_rsp_hdr code) chunks) [
    | none ↦ fault
    | some rsp ↦ elim (on_rsp_done after rsp) [
      | none ↦ aborted
      | some status ↦ exit 0 (status ++ (b'\n' ∷ []))
    ]
  ]

  -- `TODO_refactorMeToAProperApi`
  unfoldable pub request_status : Args → Option Url → Exit
  unfolding on_reply
  request_status app none = fault
  request_status app (some url) = on_reply (http app.cookie url.text)

  -- The exit code is -1 until help has been looked for.
  unfoldable pub main : List Bytes → Exit
  unfolding parse_args
  main args = elim (parse_args args) [
    | none ↦ exit 1 []
    | some app ↦
        if app.is_help
        then exit 1 []
        else request_status app (request_url (name_of app.service_name) (name_of app.branch_name))
  ]

-- The status that is printed for a body.
status_of : Bytes → Bytes
status_of body =
    if contains running body
    then codes "running"
    else if contains failure body
    then codes "failure"
    else codes "OK"

some-if :
    (a b : Bool) (x y z : Bytes)
    → (if a then some x else if b then some y else some z)
      ≡ some (if a then x else if b then y else z)
some-if true b x y z = refl
some-if false true x y z = refl
some-if false false x y z = refl

on_rsp_done-status :
    (rest body : Bytes) (cap : ℕ)
    → All (λ c. c ≢ 0) body
    → cap ≢ 0
    → on_rsp_done (0 ∷ rest) (record { http_rsp_code = 200; rsp_body = body; rsp_body_cap = cap })
      ≡ some (status_of body)
unfolding on_rsp_done status_of
on_rsp_done-status rest body cap a n =
    rw (==_ne cap 0 n, up_to_nul-append body rest a)
      (some-if (contains running body) (contains failure body) (codes "running") (codes "failure")
        (codes "OK"))

no_bytes : (xs : Bytes) → length xs ≤ 0 → xs ≡ []
no_bytes [] h = refl
no_bytes (x ∷ xs) h = absurd (omega arith)

running_status :
    (body : Bytes)
    → contains running body ≡ true
    → exit 0 (status_of body ++ (b'\n' ∷ [])) ≡ exit 0 (codes "running\n")
unfolding status_of
running_status body e = rw e refl

abbrev first_letter : Exit → ℕ
first_letter (exit code []) = 0
first_letter (exit code (c ∷ cs)) = c
first_letter aborted = 0
first_letter fault = 0

status_running :
    (body : Bytes)
    → exit 0 (status_of body ++ (b'\n' ∷ [])) ≡ exit 0 (codes "running\n")
    → contains running body ≡ true
unfolding status_of
status_running body e = go (contains running body) (contains failure body) e
  where
    go :
        (a b : Bool)
        → exit 0 (
            (if a then codes "running" else if b then codes "failure" else codes "OK")
            ++ (b'\n' ∷ []))
          ≡ exit 0 (codes "running\n")
        → a ≡ true
    go true b q = refl
    go false true q = absurd (omega (arith, ap first_letter q))
    go false false q = absurd (omega (arith, ap first_letter q))

module _ (http : Option Bytes → Bytes → Reply) (rest : Bytes) (args : List Bytes) (app : Args)
    (service branch : Bytes) (chunks : List Bytes) where
  main-status :
      parse_args args ≡ some app
      → app.is_help ≡ false
      → app.service_name ≡ some service
      → app.branch_name ≡ some branch
      → length service + length branch < 216
      → http app.cookie (full_url service branch) ≡ reply 200 chunks
      → All (λ c. c ≢ 0) (joined_chunks chunks)
      → joined_chunks chunks ≢ []
      → main http (0 ∷ rest) args ≡ exit 0 (status_of (joined_chunks chunks) ++ (b'\n' ∷ []))
  unfolding main request_status on_reply
  main-status p h s b l r a n =
      let (url, u, t) = (request_url_iff service branch).1.1 l in
      let v = receive-Received [] chunks 0 (omega arith) in
      rw (main, p, h)
        (ap
            (λ n.
              request_status http (0 ∷ rest) app
                (request_url (name_of n) (name_of app.branch_name)))
            s
          ∙ ap (λ n. request_status http (0 ∷ rest) app (request_url service (name_of n))) b
          ∙ ap (request_status http (0 ∷ rest) app) u
          ∙ ap (on_reply http (0 ∷ rest)) (ap (http app.cookie) t ∙ r)
          ∙ rw
              (
                on_reply,
                v.received,
                on_rsp_done-status rest (joined_chunks chunks) v.cap a (full v.cap v.room),
              )
              refl)
    where
      full : (c : ℕ) → length (joined_chunks chunks) ≤ c → c ≢ 0
      full c m e = n (no_bytes (joined_chunks chunks) (omega (arith, m, e)))

  -- Where the names of the service and the branch have fewer than 216 bytes together, and the reply to
  -- the request for the URL, with the cookie, has the code 200 and a body, in any chunks, that is not
  -- empty, has no NUL and happens to have one behind it in memory: the program prints "running" exactly where
  -- the text of a running state is somewhere in the body.
  pub main-running_iff :
      parse_args args ≡ some app
      → app.is_help ≡ false
      → app.service_name ≡ some service
      → app.branch_name ≡ some branch
      → length service + length branch < 216
      → http app.cookie (full_url service branch) ≡ reply 200 chunks
      → All (λ c. c ≢ 0) (joined_chunks chunks)
      → joined_chunks chunks ≢ []
      → (main http (0 ∷ rest) args ≡ exit 0 (codes "running\n"))
        ↔ ((pre : Bytes) × (post : Bytes) × (joined_chunks chunks ≡ pre ++ (running ++ post)))
  main-running_iff p h s b l r a n =
      let e = main-status p h s b l r a n in
      let body = joined_chunks chunks in
      (
        λ q. (contains_iff running body).0 (status_running body (sym e ∙ q)),
        λ q. e ∙ running_status body ((contains_iff running body).1 q),
      )
