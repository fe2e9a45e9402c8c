-- ===== src/Mdns/Tests.antt =====
-- Runs of src/main/c/foo/MdnsSd.c, and its theorems at concrete inputs.
use unspecified_garbage.Common.{
  ℕ, ◌<◌, ◌≡◌, ◌≢◌, ◌↔◌, refl, arith, true, [], ◌∷◌, ◌++◌, some, Bytes, codes, length, replicate,
  drop,
}
use unspecified_garbage.Mdns.Header.{set_header, pcp_header, set_header_exact}
use unspecified_garbage.Mdns.Program.{
  Net, Select, timeout, gave_up, out_of_fuel, wait, query, wait_gives_up_iff,
}

-- The last byte of the name is cut off.
query-end :
    drop 12 query
    ≡ (5 ∷ codes "_http" ++ 0 ∷ 4 ∷ codes "_tcp" ++ 0 ∷ 5 ∷ codes "loca")
      ++ (0 ∷ 0 ∷ 0x0C ∷ 0 ∷ 0x0C ∷ [])
query-end = refl

abbrev zero_octet : ℕ
zero_octet = 0

abbrev blank : Bytes
blank = replicate 30 zero_octet

set_header_exact_example :
    set_header blank 2 1 3600 0x7F000001 ≡ some (pcp_header 2 1 3600 0x7F000001 ++ drop 24 blank)
set_header_exact_example =
    set_header_exact blank 2 1 3600 0x7F000001 (omega arith) (omega arith) (omega arith)
      (omega arith)

abbrev silent : ℕ → Select
silent n = timeout

wait_gives_up_iff_example :
    (wait silent 7 0 0 ≢ out_of_fuel)
    × ((wait silent 7 0 0 ≡ gave_up) ↔ ((i : ℕ) → i < 6 → silent i ≡ timeout))
wait_gives_up_iff_example = wait_gives_up_iff silent

abbrev net : Net
net = record {
  starts = true;
  cleans_up = true;
  has_socket = true;
  send = λ m. some (length m);
  select = silent;
}
