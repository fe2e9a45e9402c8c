-- ===== src/Jenkins/Response.antt =====
-- src/main/paisa/JenkinsReBuild.c: the handlers of the response.
use unspecified_garbage.Common.{
  ℕ, ◌+◌, ◌-◌, ◌≤◌, ◌≡◌, ◌≢◌, ◌∙◌, refl, sym, ap, arith, not, ◌&&◌, List, [], ◌∷◌, ◌++◌, append-nil,
  append_assoc, Option, none, some, ltb, ◌==◌, ==_ne, if◌then◌else◌, Bytes, codes, length,
  length-append, up_to_nul, contains, joined_chunks, All,
}

-- `rspBody` up to `rspBody_end`.
pub record Response : Type 0 where
  pub http_rsp_code : ℕ
  pub rsp_body : Bytes
  pub rsp_body_cap : ℕ

-- `HttpReq_onRspHdr`
abbrev pub on_rsp_hdr : ℕ → Response
on_rsp_hdr code = record { http_rsp_code = code; rsp_body = []; rsp_body_cap = 0 }

abbrev pub cap_for : Response → ℕ → ℕ
cap_for rsp n =
    if ltb (rsp.rsp_body_cap - length rsp.rsp_body) n
    then rsp.rsp_body_cap + n
    else rsp.rsp_body_cap

-- `HttpReq_onRspBody`; `none` where `memcpy` writes behind the end of the buffer.
unfoldable pub on_rsp_body : Response → Bytes → Option Response
on_rsp_body rsp chunk =
    if not (rsp.http_rsp_code == 200) && not (rsp.http_rsp_code == 404)
    then some rsp
    else if ltb (cap_for rsp (length chunk)) (length rsp.rsp_body + length chunk)
    then none
    else some
        (record rsp { rsp_body = rsp.rsp_body ++ chunk; rsp_body_cap = cap_for rsp (length chunk) })

unfoldable pub receive : Response → List Bytes → Option Response
unfolding on_rsp_body
receive rsp [] = some rsp
receive rsp (chunk ∷ chunks) = elim (on_rsp_body rsp chunk) [
  | none ↦ none
  | some more ↦ receive more chunks
]

abbrev pub running : Bytes
running = codes "\"state\":\"running\""

abbrev pub failure : Bytes
failure = codes "\"state\":\"failure\""

-- `HttpReq_onRspDone`, with what stands behind the body in memory, which `strstr` reads up to a NUL. `none` where
-- the assert fails that there is a body.
unfoldable pub on_rsp_done : Bytes → Response → Option Bytes
unfolding contains up_to_nul
on_rsp_done after rsp =
    if rsp.http_rsp_code == 404
    then some (codes "ENOENT")
    else if not (rsp.http_rsp_code == 200)
    then some (codes "ERROR")
    else if rsp.rsp_body_cap == 0
    then none
    else if contains running (up_to_nul (rsp.rsp_body ++ after))
    then some (codes "running")
    else if contains failure (up_to_nul (rsp.rsp_body ++ after))
    then some (codes "failure")
    else some (codes "OK")

-- A response of 200 that has its body in the buffer.
pub record Received (body : Bytes) (r : Option Response) : Type 0 where
  pub cap : ℕ
  pub received : r ≡ some (record { http_rsp_code = 200; rsp_body = body; rsp_body_cap = cap })
  pub room : length body ≤ cap

on_rsp_body-Received :
    (body chunk : Bytes) (cap : ℕ)
    → length body ≤ cap
    → Received
        (body ++ chunk)
        (on_rsp_body (record { http_rsp_code = 200; rsp_body = body; rsp_body_cap = cap }) chunk)
unfolding on_rsp_body
on_rsp_body-Received body chunk cap h = record {
  cap =
      cap_for (record { http_rsp_code = 200; rsp_body = body; rsp_body_cap = cap }) (length chunk);
  received = ground arith;
  room = ground (arith, length-append body chunk);
}

pub receive-Received :
    (body : Bytes) (chunks : List Bytes) (cap : ℕ)
    → length body ≤ cap
    → Received
        (body ++ joined_chunks chunks)
        (receive (record { http_rsp_code = 200; rsp_body = body; rsp_body_cap = cap }) chunks)
unfolding receive joined_chunks
receive-Received body [] cap h = record {
  cap = cap;
  received =
      ap (λ b. some (record { http_rsp_code = 200; rsp_body = b; rsp_body_cap = cap }))
        (sym (append-nil body));
  room = omega (arith, h, length-append body []);
}
receive-Received body (chunk ∷ chunks) cap h =
    let first = on_rsp_body-Received body chunk cap h in
    let rest = receive-Received (body ++ chunk) chunks first.cap first.room in
    let same = append_assoc body chunk (joined_chunks chunks) in
    record {
      cap = rest.cap;
      received =
          rw (receive, first.received)
            (rest.received
              ∙ ap
                  (λ b.
                    some (record { http_rsp_code = 200; rsp_body = b; rsp_body_cap = rest.cap }))
                  same);
      room = omega (arith, rest.room, ap length same);
    }

pub up_to_nul-append :
    (text rest : Bytes) → All (λ c. c ≢ 0) text → up_to_nul (text ++ (0 ∷ rest)) ≡ text
unfolding up_to_nul
up_to_nul-append [] rest a = refl
up_to_nul-append (c ∷ cs) rest a = rw (==_ne c 0 a.0) (ap (◌∷◌ c) (up_to_nul-append cs rest a.1))
