-- ===== src/Houston/Tests.antt =====
-- Runs of src/main/paisa/HoustonLogGet.c, and its theorems at concrete inputs.
use unspecified_garbage.Common.{
  joined_chunks, is_prefix, ◌<◌, ◌≡◌, ◌≢◌, refl, arith, Bool, true, false, List, [], ◌∷◌, some,
  Bytes, bytes_eq, codes, All,
}
use unspecified_garbage.Houston.Args.{Args, parse_args}
use unspecified_garbage.Houston.Pods.{up_to_blank}
use unspecified_garbage.Houston.Lines.{unlines, first_pod, IsLine}
use unspecified_garbage.Houston.Program.{Chunk, main}
use unspecified_garbage.Houston.Fetch.{outcome, main-outcome}

abbrev app : Args
app = record { is_help = false; namespace = some (codes "int") }

abbrev header : Bytes
header = codes "NAME READY"

abbrev pod : Bytes
pod = codes "houston-1-abc 1/1"

abbrev lines : List Bytes
lines = header ∷ pod ∷ []

abbrev new_process : List Bytes → Bool
new_process argv = true

abbrev path : Bytes
path = codes "./houston-20241231-235959Z.tgz"

abbrev chunks : List Chunk
chunks = record { text = codes "tar"; written = 3; errno = 0 } ∷ []

pod_found : first_pod lines ≡ some (codes "houston-1-abc")
unfolding first_pod is_prefix up_to_blank
pod_found = refl

abbrev text : Bytes
text =
    78 ∷ 65 ∷ 77 ∷ 69 ∷ 32 ∷ 82 ∷ 69 ∷ 65 ∷ 68 ∷ 89 ∷ 10 ∷ 104 ∷ 111 ∷ 117 ∷ 115 ∷ 116 ∷ 111 ∷ 110
    ∷ 45 ∷ 49 ∷ 45 ∷ 97 ∷ 98 ∷ 99 ∷ 32 ∷ 49 ∷ 47 ∷ 49 ∷ 10 ∷ []

text-unlines : joined_chunks (text ∷ []) ≡ unlines lines
unfolding joined_chunks unlines
text-unlines = refl

args-accepted : parse_args (codes "-n" ∷ codes "int" ∷ []) ≡ some app
unfolding parse_args bytes_eq
args-accepted = refl

no_end : (line : Bytes) → All (λ c. 31 < c) line → All (λ c. c ≢ b'\n') line
no_end [] a = tt
no_end (c ∷ cs) a = (λ e. absurd (omega (arith, a.0)), no_end cs a.1)

header-IsLine : IsLine header
unfolding is_prefix
header-IsLine = record {
  no_end = no_end header (
    omega arith,
    (
      omega arith,
      (
        omega arith,
        (
          omega arith,
          (
            omega arith,
            (omega arith, (omega arith, (omega arith, (omega arith, (omega arith, tt))))),
          ),
        ),
      ),
    ),
  );
  has_blank = λ e. absurd cc;
}

pod-IsLine : IsLine pod
unfolding is_prefix up_to_blank
pod-IsLine = record {
  no_end = no_end pod (
    omega arith,
    (
      omega arith,
      (
        omega arith,
        (
          omega arith,
          (
            omega arith,
            (
              omega arith,
              (
                omega arith,
                (
                  omega arith,
                  (
                    omega arith,
                    (
                      omega arith,
                      (
                        omega arith,
                        (
                          omega arith,
                          (
                            omega arith,
                            (omega arith, (omega arith, (omega arith, (omega arith, tt)))),
                          ),
                        ),
                      ),
                    ),
                  ),
                ),
              ),
            ),
          ),
        ),
      ),
    ),
  );
  has_blank = λ e n. absurd cc;
}

main-outcome_example :
    main new_process path true 0 (codes "-n" ∷ codes "int" ∷ []) (text ∷ []) chunks
    ≡ outcome (some (codes "int")) chunks (first_pod lines)
main-outcome_example =
    main-outcome new_process path 0 (codes "-n" ∷ codes "int" ∷ []) app (text ∷ []) lines chunks
      (λ argv. refl) refl args-accepted refl (omega arith, tt) text-unlines
      (header-IsLine, (pod-IsLine, tt)) (refl, tt)
