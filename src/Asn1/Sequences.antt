-- ===== src/Asn1/Sequences.antt =====
-- Whole inputs of src/main/c/foo/Asn1Digger.c: from one tag to a sequence of them.
use unspecified_garbage.Common.{
  ℕ, ◌*◌, ◌/◌, ◌%◌, ◌≡◌, ◌≢◌, ◌∙◌, refl, sym, ap, arith, Bool, true, false, ◌||◌, List, [], ◌∷◌,
  ◌++◌, Bytes, length, All, map, ◌==◌, append-nil, Bool-cases, inl, inr, some,
}
use mathlib.Core.Path.{subst}
use unspecified_garbage.Asn1.State.{
  AsnDigger, func_asn_type, func_asn_value, func_hex_dump_read_chunk, print, line_end, at_eof,
}
use unspecified_garbage.Asn1.Names.{construct_printable_typename}
use unspecified_garbage.Asn1.Header.{asn_type, asn_value, value_of, short_read}
use unspecified_garbage.Asn1.Dump.{asci_of}
use unspecified_garbage.Asn1.Asserts.{typename_fits}
use unspecified_garbage.Asn1.Loop.{call, returned, run, initial}
use unspecified_garbage.Asn1.Views.{hexes, ascis, tags}
use unspecified_garbage.Asn1.Runs.{Runs, stop, more, Runs-trans, run-Runs}
use unspecified_garbage.Asn1.Values.{value_Runs}
use unspecified_garbage.Asn1.Items.{
  Item, IsItem, encode_items, octets, tag_of, AtTag, Prints, header_read, tag_printed, type_read,
  length_read, with_value, without_value, Prints-trans, Shows-Prints, tag_printed-Prints,
  without_value-Prints,
}

-- Behind the header the digger looks for the tag's name, and finds one.
value_named :
    (broken : Bool) (app : AsnDigger) (i : Item) (rest : Bytes)
    → (name : Bytes) × (call broken func_asn_value (header_read app i rest)
        ≡ value_of (header_read app i rest) name)
unfolding call asn_value
value_named broken app i rest =
    let (name, e, _) = typename_fits (i.type_octet % 32) (i.type_octet / 32 * 32) in
    (name, named name e)
  where
    named :
        (name : Bytes)
        → construct_printable_typename (i.type_octet % 32) (i.type_octet / 32 * 32) ≡ some name
        → asn_value (header_read app i rest) ≡ value_of (header_read app i rest) name
    named name e = rw (e, asn_value)

-- The two calls that read a header.
header_Runs :
    (broken : Bool) (app : AsnDigger) (i : Item) (rest : Bytes)
    → i.len_octet % 32 ≢ 31
    → AtTag app (i.type_octet ∷ i.len_octet ∷ rest)
    → Runs broken app (header_read app i rest)
unfolding call
header_Runs broken app i rest s a =
    more a.not_eof (type_read broken app i.type_octet (i.len_octet ∷ rest) a)
      (more a.not_eof (length_read broken app i rest s) stop)

-- What reading one tag, with its value, comes to.
record Dug (app app' : AsnDigger) (i : Item) (rest : Bytes) : Type 0 where
  prints : Prints app app' i.payload (tag_of i ∷ [])
  at_tag : AtTag app' rest

payload_nil :
    (i : Item)
    → IsItem i
    → (i.len_octet % 32 == 0 || i.type_octet % 32 == 16) ≡ true
    → i.payload ≡ []
payload_nil i h e = length_zero i.payload (ground (arith, h.sized, e))
  where
    length_zero : (bs : Bytes) → length bs ≡ 0 → bs ≡ []
    length_zero [] z = refl
    length_zero (x ∷ xs) z = absurd (omega arith)

dig_bare :
    (broken : Bool) (app : AsnDigger) (i : Item) (rest : Bytes)
    → i.payload ≡ []
    → (i.len_octet % 32 == 0 || i.type_octet % 32 == 16) ≡ true
    → AtTag app (i.type_octet ∷ i.len_octet ∷ rest)
    → (app' : AsnDigger) × Runs broken (header_read app i rest) app' × Dug app app' i rest
dig_bare broken app i rest p e a =
    let (name, v) = value_named broken app i rest in
    let app' = record (print (tag_printed app i rest name) line_end) {
      func_to_call = func_asn_type;
    } in
    (
      app',
      more a.not_eof (v ∙ without_value app i rest name e) stop,
      record {
        prints =
            subst (λ bs. Prints app app' bs (tag_of i ∷ [])) (sym p)
              (without_value-Prints app app' i rest name refl a.asci a.asci);
        at_tag = record { func = refl; not_eof = a.not_eof; inp = refl; asci = a.asci };
      },
    )

dig_value :
    (broken : Bool) (app : AsnDigger) (i : Item) (rest : Bytes)
    → IsItem i
    → (i.len_octet % 32 == 0 || i.type_octet % 32 == 16) ≡ false
    → AtTag app (i.type_octet ∷ i.len_octet ∷ (i.payload ++ rest))
    → (app' : AsnDigger) × Runs broken (header_read app i (i.payload ++ rest)) app'
      × Dug app app' i rest
dig_value broken app i rest h e a =
    let (name, v) = value_named broken app i (i.payload ++ rest) in
    let app₁ = record (tag_printed app i (i.payload ++ rest) name) {
      remain_value_bytes = i.len_octet % 32;
      hex_dump_offs = 0;
      asci = [];
      func_to_call = func_hex_dump_read_chunk;
    } in
    let (app', runs, c) =
      value_Runs broken 31 app₁ i.payload rest
        (record { func = refl; not_eof = a.not_eof; remain = sym sized; inp = refl; asci = refl })
        (omega (arith, sized, nonzero)) (omega (arith, sized)) (omega (arith, sized)) in
    (
      app',
      more a.not_eof (v ∙ with_value app i (i.payload ++ rest) name nonzero not_seq) runs,
      record {
        prints =
            subst (λ ts. Prints app app' i.payload ts) (append-nil (tag_of i ∷ []))
              (Prints-trans [] i.payload (tag_of i ∷ []) []
                (tag_printed-Prints app app₁ i (i.payload ++ rest) name refl a.asci refl)
                (Shows-Prints i.payload c.shows));
        at_tag = record { func = c.func; not_eof = c.not_eof; inp = c.inp; asci = c.asci };
      },
    )
  where
    nonzero : i.len_octet % 32 ≢ 0
    nonzero z = ground (arith, e)

    not_seq : i.type_octet % 32 ≢ 16
    not_seq z = ground (arith, e)

    sized : length i.payload ≡ i.len_octet % 32
    sized = ground (arith, h.sized, e)

dig :
    (broken : Bool) (app : AsnDigger) (i : Item) (rest : Bytes)
    → IsItem i
    → AtTag app (i.type_octet ∷ i.len_octet ∷ (i.payload ++ rest))
    → (app' : AsnDigger) × Runs broken app app' × Dug app app' i rest
dig broken app i rest h a = elim (Bool-cases (i.len_octet % 32 == 0 || i.type_octet % 32 == 16)) [
  | inl e ↦
      let p = payload_nil i h e in
      let at = subst (λ bs. AtTag app (i.type_octet ∷ i.len_octet ∷ (bs ++ rest))) p a in
      let (app', runs, d) = dig_bare broken app i rest p e at in
      (app', Runs-trans (header_Runs broken app i rest h.short at) runs, d)
  | inr e ↦
      let (app', runs, d) = dig_value broken app i rest h e a in
      (app', Runs-trans (header_Runs broken app i (i.payload ++ rest) h.short a) runs, d)
]

-- At the end of stdin, the next call sees it.
end_Runs : (app : AsnDigger) → AtTag app [] → Runs false app (at_eof app)
unfolding call asn_type short_read
end_Runs app a = more a.not_eof (ap (λ f. call false f app) a.func ∙ rw a.inp) stop

dig-All :
    (app : AsnDigger) (is : List Item)
    → All IsItem is
    → AtTag app (encode_items is)
    → (app' : AsnDigger) × Runs false app app'
      × (app'.inn_is_eof ≡ true)
      × (app'.asci ≡ [])
      × Prints app app' (octets is) (map tag_of is)
unfolding encode_items octets
dig-All app [] hs a = (
  at_eof app,
  end_Runs app a,
  refl,
  a.asci,
  record { hexes_of = rw append-nil; shown_of = rw append-nil; tags_of = rw append-nil },
)
dig-All app (i ∷ is) (h, hs) a =
    let (app₁, runs₁, d) = dig false app i (encode_items is) h a in
    let (app₂, runs₂, e, z, ps) = dig-All app₁ is hs d.at_tag in
    (
      app₂,
      Runs-trans runs₁ runs₂,
      e,
      z,
      Prints-trans i.payload (octets is) (tag_of i ∷ []) (map tag_of is) d.prints ps,
    )

-- On a sequence of tags with lengths of one octet, each followed by as many octets as its length
-- says (none behind a sequence's header) and whatever the columns and the GPG flag are, the program
-- returns 0 at the end of stdin. It has printed one line for each tag, in order and with its type,
-- length and flags; the octets of the hex dumps are those of the values, in order; and the ascii
-- columns that are printed hold each octet's character, in order, with none left in the buffer.
pub run_items :
    (cols : ℕ) (gpg : Bool) (is : List Item)
    → All IsItem is
    → (app : AsnDigger) × (run false cols gpg (encode_items is) ≡ returned app)
      × (tags app.out ≡ map tag_of is)
      × (hexes app.out ≡ octets is)
      × (ascis app.out ≡ map asci_of (octets is))
      × (app.asci ≡ [])
unfolding hexes ascis tags
run_items cols gpg is hs =
    let (app, runs, e, z, ps) =
      dig-All (initial cols gpg (encode_items is)) is hs
        (record { func = refl; not_eof = refl; inp = refl; asci = refl }) in
    (
      app,
      run-Runs cols gpg (encode_items is) runs e,
      ps.tags_of,
      ps.hexes_of,
      sym (append-nil (ascis app.out)) ∙ ap (λ a. ascis app.out ++ a) (sym z) ∙ ps.shown_of,
      z,
    )
