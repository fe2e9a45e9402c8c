-- ===== src/Asn1/Items.antt =====
-- Whole inputs of src/main/c/foo/Asn1Digger.c: a sequence of tags with lengths of one octet.
use unspecified_garbage.Common.{
  ℕ, ◌*◌, ◌/◌, ◌%◌, ◌≡◌, ◌≢◌, ◌∙◌, sym, ap, arith, Bool, true, false, not, ◌||◌, List, [], ◌∷◌,
  ◌++◌, Bytes, length, map, ◌==◌, ==_ne, if◌then◌else◌, append-nil, append_assoc,
}
use mathlib.Core.List.{map-append}
use unspecified_garbage.Asn1.State.{
  AsnDigger, func_asn_type, func_asn_length, func_asn_value, func_hex_dump_read_chunk, done, print,
  tag_line, line_end,
}
use unspecified_garbage.Asn1.Header.{asn_type, asn_length, value_of}
use unspecified_garbage.Asn1.Dump.{asci_of}
use unspecified_garbage.Asn1.Loop.{call}
use unspecified_garbage.Asn1.Views.{
  hexes, ascis, tags, TagLine, shown, hexes-append, ascis-append, tags-append, Shows,
}

-- A tag: its octet, its length's octet, and its value. A sequence has none, since what it holds is
-- read as the tags behind it.
pub record Item : Type 0 where
  pub type_octet : ℕ
  pub len_octet : ℕ
  pub payload : Bytes

-- The length is not long, and is that of the value.
pub record IsItem (i : Item) : Type 0 where
  pub short : i.len_octet % 32 ≢ 31
  pub sized : length i.payload ≡ (if i.type_octet % 32 == 16 then 0 else i.len_octet % 32)

unfoldable pub encode_items : List Item → Bytes
encode_items [] = []
encode_items (i ∷ is) = i.type_octet ∷ i.len_octet ∷ (i.payload ++ encode_items is)

unfoldable pub octets : List Item → Bytes
octets [] = []
octets (i ∷ is) = i.payload ++ octets is

abbrev pub tag_of : Item → TagLine
tag_of i = record {
  type = i.type_octet % 32;
  type_flg = i.type_octet / 32 * 32;
  len = i.len_octet % 32;
  len_flg = i.len_octet / 32 * 32;
}

-- The next tag is to be read from `rest`.
pub record AtTag (app : AsnDigger) (rest : Bytes) : Type 0 where
  pub func : app.func_to_call ≡ func_asn_type
  pub not_eof : app.inn_is_eof ≡ false
  pub inp : app.inp ≡ rest
  pub asci : app.asci ≡ []

-- `app'` has printed the octets `bs` and the tags `ts` behind what `app` had.
pub record Prints (app app' : AsnDigger) (bs : Bytes) (ts : List TagLine) : Type 0 where
  pub hexes_of : hexes app'.out ≡ hexes app.out ++ bs
  pub shown_of : shown app' ≡ shown app ++ map asci_of bs
  pub tags_of : tags app'.out ≡ tags app.out ++ ts

-- The digger with the header of an item read.
abbrev pub header_read : AsnDigger → Item → Bytes → AsnDigger
header_read app i rest = record app {
  type = i.type_octet % 32;
  type_flg = i.type_octet / 32 * 32;
  len = i.len_octet % 32;
  len_flg = i.len_octet / 32 * 32;
  func_to_call = func_asn_value;
  inp = rest;
}

abbrev pub tag_printed : AsnDigger → Item → Bytes → Bytes → AsnDigger
tag_printed app i rest name = print (header_read app i rest) (
    tag_line (i.type_octet % 32) (i.type_octet / 32 * 32) (i.len_octet % 32) (i.len_octet / 32 * 32)
      name (not (i.len_octet % 32 == 0)))

pub type_read :
    (broken : Bool) (app : AsnDigger) (t : ℕ) (rest : Bytes)
    → AtTag app (t ∷ rest)
    → call broken app.func_to_call app
      ≡ done (record app {
        type = t % 32;
        type_flg = t / 32 * 32;
        func_to_call = func_asn_length;
        inp = rest;
      })
unfolding call asn_type
type_read broken app t rest a = ap (λ f. call broken f app) a.func ∙ ground (arith, a.inp)

pub length_read :
    (broken : Bool) (app : AsnDigger) (i : Item) (rest : Bytes)
    → i.len_octet % 32 ≢ 31
    → asn_length broken (record app {
      type = i.type_octet % 32;
      type_flg = i.type_octet / 32 * 32;
      func_to_call = func_asn_length;
      inp = i.len_octet ∷ rest;
    })
      ≡ done (header_read app i rest)
unfolding asn_length
length_read broken app i rest s = rw (==_ne (i.len_octet % 32) 31 s)

-- The tag's line is printed, and its value is next.
pub with_value :
    (app : AsnDigger) (i : Item) (rest name : Bytes)
    → i.len_octet % 32 ≢ 0
    → i.type_octet % 32 ≢ 16
    → value_of (header_read app i rest) name
      ≡ done (record (tag_printed app i rest name) {
        remain_value_bytes = i.len_octet % 32;
        hex_dump_offs = 0;
        asci = [];
        func_to_call = func_hex_dump_read_chunk;
      })
unfolding value_of
with_value app i rest name l s = rw (==_ne (i.len_octet % 32) 0 l, ==_ne (i.type_octet % 32) 16 s)

pub without_value :
    (app : AsnDigger) (i : Item) (rest name : Bytes)
    → (i.len_octet % 32 == 0 || i.type_octet % 32 == 16) ≡ true
    → value_of (header_read app i rest) name
      ≡ done
          (record (print (tag_printed app i rest name) line_end) { func_to_call = func_asn_type })
unfolding value_of
without_value app i rest name e = rw e

pub Prints-trans :
    {a b c : AsnDigger} (xs ys : Bytes) (ts us : List TagLine)
    → Prints a b xs ts
    → Prints b c ys us
    → Prints a c (xs ++ ys) (ts ++ us)
Prints-trans xs ys ts us f g = record {
  hexes_of = rw (g.hexes_of, f.hexes_of, append_assoc);
  shown_of = simp (g.shown_of, f.shown_of, append_assoc, map-append);
  tags_of = rw (g.tags_of, f.tags_of, append_assoc);
}

pub Shows-Prints : {a b : AsnDigger} (bs : Bytes) → Shows a b bs → Prints a b bs []
Shows-Prints bs s = record {
  hexes_of = s.hexes_of;
  shown_of = s.shown_of;
  tags_of = s.tags_of ∙ sym (append-nil _);
}

pub tag_printed-Prints :
    (app app' : AsnDigger) (i : Item) (rest name : Bytes)
    → app'.out ≡ (tag_printed app i rest name).out
    → app.asci ≡ []
    → app'.asci ≡ []
    → Prints app app' [] (tag_of i ∷ [])
unfolding hexes ascis tags
tag_printed-Prints app app' i rest name e a a' = record {
  hexes_of = simp (e, hexes-append, append-nil);
  shown_of = simp (e, ascis-append, append-nil, a, a');
  tags_of = simp (e, tags-append);
}

pub without_value-Prints :
    (app app' : AsnDigger) (i : Item) (rest name : Bytes)
    → app'.out ≡ (tag_printed app i rest name).out ++ (line_end ∷ [])
    → app.asci ≡ []
    → app'.asci ≡ []
    → Prints app app' [] (tag_of i ∷ [])
unfolding hexes ascis tags
without_value-Prints app app' i rest name e a a' = record {
  hexes_of = simp (e, hexes-append, append-nil);
  shown_of = simp (e, ascis-append, append-nil, a, a');
  tags_of = simp (e, tags-append, append-nil);
}
