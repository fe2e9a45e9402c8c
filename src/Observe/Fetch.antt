-- ===== src/Observe/Fetch.antt =====
-- src/main/paisa/ObserveDeployedVersions.c: the request for the state of a service.
use unspecified_garbage.Common.{
  ℕ, ◌+◌, ◌≤◌, ◌<◌, ◌≡◌, ◌↔◌, ◌⊎◌, inl, inr, refl, sym, ap, arith, Bool, true, List, [], ◌∷◌, ◌++◌,
  Option, none, some, ltb, if◌then◌else◌, Bytes, bytes_eq, bytes_eq_iff, Bool-cases, codes, length,
  length-append, if_both, ltb→lt, lt→ltb, ◌∙◌,
}

-- What is asked of the library's HTTP client.
pub record Request : Type 0 where
  pub mthd : Bytes
  pub host : Bytes
  pub url : Bytes
  pub port : ℕ

pub record App : Type 0 where
  pub is_help : Bool
  pub http_rsp_code : ℕ
  pub req : Option Request

-- The name of a stage in lower case.
unfoldable pub stage_lc : Bytes → Option Bytes
stage_lc stage =
    if bytes_eq stage (codes "PROD")
    then some (codes "prod")
    else if bytes_eq stage (codes "PREPROD")
    then some (codes "preprod")
    else if bytes_eq stage (codes "INT")
    then some (codes "int")
    else if bytes_eq stage (codes "TEST")
    then some (codes "test")
    else if bytes_eq stage (codes "SNAPSHOT")
    then some (codes "snapshot")
    else none

abbrev pub host_cap : ℕ
host_cap = 48

abbrev pub path_cap : ℕ
path_cap = 64

-- The texts that `snprintf` is asked for.
unfoldable pub host_of : Bytes → Bytes
host_of stage = codes "isa-houston-" ++ (stage ++ codes ".isa.aws.pnetcloud.ch")

unfoldable pub path_of : Bytes → Bytes
path_of svc_name = codes "/houston/services/" ++ (svc_name ++ codes "/info")

unfoldable pub new_https_request : Bytes → Bytes → Bytes → Request
new_https_request host mthd path = record { mthd = mthd; host = host; url = path; port = 443 }

-- `none` is a failed assert. Given is whether `newHttpClientReq` gives a request.
unfoldable pub fetch_service_status : Bool → App → Bytes → Bytes → Option App
unfolding stage_lc host_of path_of new_https_request
fetch_service_status is_made app svc_name stage = elim (stage_lc stage) [
  | none ↦ none
  | some lc ↦
      if ltb (length (host_of lc)) host_cap
      then if ltb (length (path_of svc_name)) path_cap
        then elim app.req [
          | none ↦
              if is_made
              then some (record app {
                req = some (new_https_request (host_of lc) (codes "GET") (path_of svc_name));
              })
              else none
          | some req ↦ none
        ]
        else none
      else none
]

-- The stages, with their names in the host.
abbrev pub stages : List (Bytes × Bytes)
stages =
    (codes "PROD", codes "prod")
    ∷ (codes "PREPROD", codes "preprod")
    ∷ (codes "INT", codes "int")
    ∷ (codes "TEST", codes "test")
    ∷ (codes "SNAPSHOT", codes "snapshot")
    ∷ []

-- One of these pairs.
abbrev pub OneOf : Bytes → Bytes → List (Bytes × Bytes) → Type 0
OneOf a b [] = ⊥
OneOf a b ((x, y) ∷ xs) = ((a ≡ x) × (b ≡ y)) ⊎ OneOf a b xs

-- The first match in a table.
look_up : Bytes → List (Bytes × Bytes) → Option Bytes
look_up a [] = none
look_up a ((x, y) ∷ xs) = if bytes_eq a x then some y else look_up a xs

look_up-OneOf :
    (a : Bytes) (xs : List (Bytes × Bytes)) {b : Bytes} → look_up a xs ≡ some b → OneOf a b xs
unfolding look_up
look_up-OneOf a [] e = cc
look_up-OneOf a ((x, y) ∷ xs) {b} e = elim (Bool-cases (bytes_eq a x)) [
  | inl same ↦ inl ((bytes_eq_iff a x).0 same, sym (some-inj (rw same at e)))
  | inr other ↦ inr (look_up-OneOf a xs (rw other at e))
]
  where
    some-inj : some y ≡ some b → y ≡ b
    some-inj q = cc

module _ (stage lc : Bytes) where
  stage_lc-OneOf : stage_lc stage ≡ some lc → OneOf stage lc stages
  unfolding stage_lc look_up
  stage_lc-OneOf e = look_up-OneOf stage stages e

  OneOf-stage_lc : OneOf stage lc stages → stage_lc stage ≡ some lc
  unfolding stage_lc bytes_eq
  OneOf-stage_lc (inl (p, q)) = rw (p, q) refl
  OneOf-stage_lc (inr (inl (p, q))) = rw (p, q) refl
  OneOf-stage_lc (inr (inr (inl (p, q)))) = rw (p, q) refl
  OneOf-stage_lc (inr (inr (inr (inl (p, q))))) = rw (p, q) refl
  OneOf-stage_lc (inr (inr (inr (inr (inl (p, q)))))) = rw (p, q) refl
  OneOf-stage_lc (inr (inr (inr (inr (inr x))))) = elim x [ ]

  host_fits : OneOf stage lc stages → length (host_of lc) < host_cap
  unfolding host_of
  host_fits (inl (p, q)) = rw q (omega arith)
  host_fits (inr (inl (p, q))) = rw q (omega arith)
  host_fits (inr (inr (inl (p, q)))) = rw q (omega arith)
  host_fits (inr (inr (inr (inl (p, q))))) = rw q (omega arith)
  host_fits (inr (inr (inr (inr (inl (p, q)))))) = rw q (omega arith)
  host_fits (inr (inr (inr (inr (inr x))))) = elim x [ ]

length-path_of : (svc_name : Bytes) → length (path_of svc_name) ≡ length svc_name + 23
unfolding path_of
length-path_of svc_name = omega (arith, length-append svc_name (codes "/info"))

-- With a client that has no request and a library that makes one: the request is made exactly where the stage is
-- one of five and the name of the service has at most 40 bytes, and then it is a GET at port 443, its host names the
-- stage in lower case, and its path the service. On all other names an assert fails.
pub fetch_service_status_iff :
    (app app' : App) (svc_name stage : Bytes)
    → app.req ≡ none
    → (fetch_service_status true app svc_name stage ≡ some app') ↔ (
        (lc : Bytes) × OneOf stage lc stages
        × (length svc_name ≤ 40)
        × (app' ≡ record app {
          req = some (record {
            mthd = codes "GET";
            host = codes "isa-houston-" ++ (lc ++ codes ".isa.aws.pnetcloud.ch");
            url = codes "/houston/services/" ++ (svc_name ++ codes "/info");
            port = 443;
          });
        }))
unfolding fetch_service_status host_of path_of new_https_request
fetch_service_status_iff app app' svc_name stage fresh = (forth (stage_lc stage) refl, back)
  where
    Asked : Bytes → App
    Asked lc = record app {
      req = some (new_https_request (host_of lc) (codes "GET") (path_of svc_name));
    }

    Goal : Type 0
    Goal = (lc : Bytes) × OneOf stage lc stages × (length svc_name ≤ 40) × (app' ≡ Asked lc)

    fresh_req :
        (lc : Bytes) → (elim app.req [ none ↦ some (Asked lc) | some req ↦ none ]) ≡ some (Asked lc)
    fresh_req lc =
        ap (λ (o : Option Request). elim o [ none ↦ some (Asked lc) | some req ↦ none ]) fresh

    forth :
        (o : Option Bytes)
        → stage_lc stage ≡ o
        → (elim o [
          | none ↦ none
          | some lc ↦
              if ltb (length (host_of lc)) host_cap
              then (if ltb (length (path_of svc_name)) path_cap
                  then (elim app.req [ none ↦ some (Asked lc) | some req ↦ none ])
                  else none)
              else none
        ])
          ≡ some app'
        → Goal
    forth none e = λ q. cc
    forth (some lc) e =
        if_both (λ (r : Option App). r ≡ some app' → Goal) (ltb (length (host_of lc)) host_cap)
          (λ _.
            if_both (λ (r : Option App). r ≡ some app' → Goal)
              (ltb (length (path_of svc_name)) path_cap)
              (λ l q.
                let f = fresh_req lc in
                (
                  lc,
                  stage_lc-OneOf stage lc e,
                  omega (arith, ltb→lt _ _ l, length-path_of svc_name),
                  cc,
                ))
              (λ _ q. absurd cc))
          (λ _ q. absurd cc)

    back : Goal → fetch_service_status true app svc_name stage ≡ some app'
    back (lc, o, h, e) =
        rw
          (
            fetch_service_status,
            OneOf-stage_lc stage lc o,
            lt→ltb _ _ (host_fits stage lc o),
            lt→ltb (length (path_of svc_name)) 64 (omega (arith, length-path_of svc_name)),
          )
          (fresh_req lc ∙ ap some (sym e))
