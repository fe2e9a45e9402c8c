-- ===== src/Jenkins/Tests.antt =====
-- Runs of src/main/paisa/JenkinsReBuild.c, and its theorems at concrete inputs.
use unspecified_garbage.Common.{
  ◌+◌, ◌<◌, ◌≡◌, ◌≢◌, ◌↔◌, refl, arith, false, List, [], ◌∷◌, ◌++◌, Option, none, some, Bytes,
  codes, All, joined_chunks,
}
use unspecified_garbage.Jenkins.Args.{Args, parse_args}
use unspecified_garbage.Jenkins.Request.{Url, request_url, full_url, request_url_iff}
use unspecified_garbage.Jenkins.Response.{running}
use unspecified_garbage.Jenkins.Program.{Reply, reply, exit, main, main-running_iff}

abbrev args : List Bytes
args = codes "--service" ∷ codes "slarti" ∷ codes "--branch" ∷ codes "main" ∷ []

abbrev app : Args
app = record {
  is_help = false;
  service_name = some (codes "slarti");
  branch_name = some (codes "main");
  cookie = none;
}

abbrev chunks : List Bytes
chunks = codes "{\"sta" ∷ codes "te\":\"running\"}" ∷ []

abbrev http : Option Bytes → Bytes → Reply
http cookie url = reply 200 chunks

args-accepted : parse_args args ≡ some app
unfolding parse_args
args-accepted = refl

request_url_iff_example :
    ((request_url (codes "slarti") (codes "main") ≡ none) ↔ (246 < 6 + 4))
    × (((url : Url) × (request_url (codes "slarti") (codes "main") ≡ some url)
          × (url.text ≡ full_url (codes "slarti") (codes "main")))
        ↔ (6 + 4 < 216))
request_url_iff_example = request_url_iff (codes "slarti") (codes "main")

no_nul : (text : Bytes) → All (λ c. 0 < c) text → All (λ c. c ≢ 0) text
no_nul [] a = tt
no_nul (c ∷ cs) a = (λ e. absurd (omega (arith, a.0)), no_nul cs a.1)

body-no_nul : All (λ c. c ≢ 0) (joined_chunks chunks)
unfolding joined_chunks
body-no_nul = no_nul (codes "{\"state\":\"running\"}") (
  omega arith,
  (
    omega arith,
    (
      omega arith,
      (
        omega arith,
        (
          omega arith,
          (
            omega arith,
            (
              omega arith,
              (
                omega arith,
                (
                  omega arith,
                  (
                    omega arith,
                    (
                      omega arith,
                      (
                        omega arith,
                        (
                          omega arith,
                          (
                            omega arith,
                            (
                              omega arith,
                              (omega arith, (omega arith, (omega arith, (omega arith, tt)))),
                            ),
                          ),
                        ),
                      ),
                    ),
                  ),
                ),
              ),
            ),
          ),
        ),
      ),
    ),
  ),
)

body-given : joined_chunks chunks ≢ []
unfolding joined_chunks
body-given e = absurd cc

main-running_iff_example :
    (main http (0 ∷ []) args ≡ exit 0 (codes "running\n"))
    ↔ ((pre : Bytes) × (post : Bytes) × (joined_chunks chunks ≡ pre ++ (running ++ post)))
main-running_iff_example =
    main-running_iff http [] args app (codes "slarti") (codes "main") chunks args-accepted refl refl
      refl (omega arith) refl body-no_nul body-given
