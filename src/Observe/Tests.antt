-- ===== src/Observe/Tests.antt =====
-- src/main/paisa/ObserveDeployedVersions.c: tests, and witnesses of the theorems.
use unspecified_garbage.Common.{
  ◌≤◌, ◌≡◌, ◌≢◌, ◌↔◌, refl, true, List, [], ◌∷◌, ◌++◌, none, some, Bytes, bytes_eq, codes, length,
}
use unspecified_garbage.Observe.Fetch.{
  App, stages, OneOf, fetch_service_status, fetch_service_status_iff,
}
use unspecified_garbage.Observe.Program.{
  status, header, blank, text, todo_body, todo_done, error, code, abort, initial, main,
}
use unspecified_garbage.Observe.Exits.{response, response_lines, AllYolo, main_zero_iff}

abbrev yolo : List Bytes
yolo = codes "--yolo" ∷ []

abbrev chunks : List Bytes
chunks = codes "oh" ∷ codes "no" ∷ []

main-found :
    main true (response 200 [] chunks) yolo ≡ code 0 (todo_body ∷ todo_body ∷ todo_done ∷ [])
unfolding main bytes_eq
main-found = refl

main-broken :
    main true (response 500 ((codes "a", codes "b") ∷ []) chunks) yolo
    ≡ code 0 (
        status 500
        ∷ header (codes "a") (codes "b")
        ∷ blank
        ∷ text (codes "oh")
        ∷ text (codes "no")
        ∷ todo_done
        ∷ [])
unfolding main bytes_eq
main-broken = refl

main-help : main true [] (codes "--yolo" ∷ codes "--help" ∷ []) ≡ code 1 []
unfolding main bytes_eq
main-help = refl

main-error : main true (error ∷ []) yolo ≡ abort
unfolding main bytes_eq
main-error = refl

fetch_unknown : fetch_service_status true initial (codes "x") (codes "prod") ≡ none
unfolding fetch_service_status bytes_eq
fetch_unknown = refl

abbrev asked : App
asked = record initial {
  req = some (record {
    mthd = codes "GET";
    host = codes "isa-houston-int.isa.aws.pnetcloud.ch";
    url = codes "/houston/services/slarti/info";
    port = 443;
  });
}

fetch_service_status_iff_example :
    (fetch_service_status true initial (codes "slarti") (codes "INT") ≡ some asked) ↔ (
      (lc : Bytes) × OneOf (codes "INT") lc stages
      × (length (codes "slarti") ≤ 40)
      × (asked ≡ record initial {
        req = some (record {
          mthd = codes "GET";
          host = codes "isa-houston-" ++ (lc ++ codes ".isa.aws.pnetcloud.ch");
          url = codes "/houston/services/" ++ (codes "slarti" ++ codes "/info");
          port = 443;
        });
      }))
fetch_service_status_iff_example =
    fetch_service_status_iff initial asked (codes "slarti") (codes "INT") refl

main_zero_iff_example :
    (main true (response 404 [] chunks) yolo
      ≡ code 0 (status 404 ∷ todo_body ∷ todo_body ∷ todo_done ∷ []))
    ↔ ((yolo ≢ [])
        × AllYolo yolo
        × ((status 404 ∷ todo_body ∷ todo_body ∷ todo_done ∷ []) ≡ response_lines 404 [] chunks))
main_zero_iff_example =
    main_zero_iff 404 [] chunks yolo (status 404 ∷ todo_body ∷ todo_body ∷ todo_done ∷ [])
