-- ===== src/Asn1/Tests.antt =====
-- Runs of the digger of src/main/c/foo/Asn1Digger.c, and its theorems at concrete inputs.
use unspecified_garbage.Common.{
  ℕ, ◌^◌, ◌%◌, ◌≤◌, ◌<◌, ◌≡◌, ◌≢◌, ◌↔◌, ◌⊎◌, refl, arith, true, false, List, [], ◌∷◌, Bytes, codes,
  All, map, length, replicate, length-replicate,
}
use unspecified_garbage.Asn1.State.{AsnDigger, done}
use unspecified_garbage.Asn1.Header.{asn_length}
use unspecified_garbage.Asn1.Dump.{asci_of, dump_octets, hex_dump_read_chunk, inn_buf_cap}
use unspecified_garbage.Asn1.Loop.{returned, out_of_fuel, run, initial}
use unspecified_garbage.Asn1.Termination.{run_ends}
use unspecified_garbage.Asn1.Asserts.{run-IsNoAbort, IsNoAbort}
use unspecified_garbage.Asn1.Buffers.{
  asci_buf_cap, dump_octets_bounds, read_chunk-IsFault_iff, run_overflow, IsFault, IsOutOfBounds,
}
use unspecified_garbage.Asn1.Gpg.{run-with_gpg, outcome_with_gpg}
use unspecified_garbage.Asn1.Views.{hexes, tags, ascis}
use unspecified_garbage.Asn1.Items.{Item, IsItem, encode_items, octets, tag_of}
use unspecified_garbage.Asn1.Sequences.{run_items}
use unspecified_garbage.Asn1.Der.{short_length_right_iff}

-- A sequence of an integer and a text.
abbrev items : List Item
items =
    record { type_octet = 0x30; len_octet = 7; payload = [] }
    ∷ record { type_octet = 0x02; len_octet = 1; payload = 5 ∷ [] }
    ∷ record { type_octet = 0x0C; len_octet = 2; payload = codes "Hi" }
    ∷ []

items-IsItem : All IsItem items
items-IsItem = (
  record { short = λ e. omega arith; sized = refl },
  (
    record { short = λ e. omega arith; sized = refl },
    (record { short = λ e. omega arith; sized = refl }, tt),
  ),
)

run_items_example :
    (app : AsnDigger) × (run false 16 false (encode_items items) ≡ returned app)
    × (tags app.out ≡ map tag_of items)
    × (hexes app.out ≡ octets items)
    × (ascis app.out ≡ map asci_of (octets items))
    × (app.asci ≡ [])
run_items_example = run_items 16 false items items-IsItem

run_ends_example : run false 16 false (codes "Hi") ≢ out_of_fuel
run_ends_example = run_ends false 16 false (codes "Hi")

run-IsNoAbort_example : IsNoAbort (run true 16 true (codes "Hi"))
run-IsNoAbort_example = run-IsNoAbort true 16 true (codes "Hi")

abbrev nul : ℕ
nul = 0

abbrev many : Bytes
many = replicate 32769 nul

abbrev negative : AsnDigger
negative = record (initial 16 false many) { remain_value_bytes = 2 ^ 31 }

read_chunk-IsFault_iff_example :
    IsFault (hex_dump_read_chunk false negative) ↔ ((2 ^ 31 ≤ 2 ^ 31) × (inn_buf_cap < length many))
read_chunk-IsFault_iff_example = read_chunk-IsFault_iff false negative (omega arith)

run-with_gpg_example :
    run false 16 true (encode_items items)
    ≡ outcome_with_gpg (run false 16 false (encode_items items))
run-with_gpg_example = run-with_gpg false 16 (encode_items items)

run_overflow_example : IsOutOfBounds (run false 16 false (4 ∷ 0x9F ∷ 0x80 ∷ 0x88 ∷ 0x00 ∷ many))
run_overflow_example =
    run_overflow false false 16 4 many (λ e. omega arith)
      (omega (arith, length-replicate 32769 nul))

short_length_right_iff_example :
    (app' : AsnDigger) × (asn_length false (initial 16 false (40 ∷ [])) ≡ done app')
    × (app'.inp ≡ [])
    × ((app'.len ≡ 40) ↔ ((40 < 32) ⊎ (40 % 32 ≡ 31)))
short_length_right_iff_example =
    short_length_right_iff false (initial 16 false (40 ∷ [])) 40 [] refl (omega arith)

dump_octets_bounds_example :
    (length (dump_octets (initial 16 false []) (codes "seventeen octets!")).asci ≤ 16)
    × (length (dump_octets (initial 16 false []) (codes "seventeen octets!")).asci < asci_buf_cap)
dump_octets_bounds_example =
    dump_octets_bounds (initial 16 false []) (codes "seventeen octets!") (omega arith) (omega arith)
      refl
