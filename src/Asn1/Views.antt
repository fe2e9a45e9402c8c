-- ===== src/Asn1/Views.antt =====
-- What a reader of the output of src/main/c/foo/Asn1Digger.c takes from it: the octets, the characters
-- and the tags, whatever the layout.
use unspecified_garbage.Common.{
  ℕ, ◌≡◌, ◌∙◌, refl, ap, arith, [], ◌∷◌, ◌++◌, List, Bytes, length, map, append-nil, append_assoc,
  if_both, ◌==◌, ◌%◌, leb, zero, suc, ◌&&◌,
}
use mathlib.Core.Path.{subst}
use mathlib.Core.List.{map-append}
use unspecified_garbage.Asn1.State.{
  print, AsnDigger, Event, tag_line, gpg_secret_key, gpg_certificate, next_line, hex, asci_column,
}
use unspecified_garbage.Asn1.Dump.{
  asci_of, dump_octet, dump_octets, blanks, end_column, gpg_lines, dumped, is_first_run, octet_at,
}

-- The octets of the hex dumps, in order.
unfoldable pub hexes : List Event → Bytes
hexes [] = []
hexes (hex b ∷ es) = b ∷ hexes es
hexes (_ ∷ es) = hexes es

-- The characters of the ascii columns, in order.
unfoldable pub ascis : List Event → Bytes
ascis [] = []
ascis (next_line a offs ∷ es) = a ++ ascis es
ascis (asci_column a ∷ es) = a ++ ascis es
ascis (_ ∷ es) = ascis es

-- A tag line without its name: type, flags, length, length flags.
pub record TagLine : Type 0 where
  pub type : ℕ
  pub type_flg : ℕ
  pub len : ℕ
  pub len_flg : ℕ

unfoldable pub tags : List Event → List TagLine
tags [] = []
tags (tag_line t f l g name v ∷ es) =
    record { type = t; type_flg = f; len = l; len_flg = g } ∷ tags es
tags (_ ∷ es) = tags es

pub hexes-append : (xs ys : List Event) → hexes (xs ++ ys) ≡ hexes xs ++ hexes ys
unfolding hexes
hexes-append [] ys = refl
hexes-append (hex b ∷ xs) ys = ap (◌∷◌ b) (hexes-append xs ys)
hexes-append (_ ∷ xs) ys = hexes-append xs ys

pub ascis-append : (xs ys : List Event) → ascis (xs ++ ys) ≡ ascis xs ++ ascis ys
unfolding ascis
ascis-append [] ys = refl
ascis-append (next_line a offs ∷ xs) ys = rw (ascis-append xs ys, append_assoc)
ascis-append (asci_column a ∷ xs) ys = rw (ascis-append xs ys, append_assoc)
ascis-append (_ ∷ xs) ys = ascis-append xs ys

pub tags-append : (xs ys : List Event) → tags (xs ++ ys) ≡ tags xs ++ tags ys
unfolding tags
tags-append [] ys = refl
tags-append (tag_line t f l g name v ∷ xs) ys = rw (tags-append xs ys)
tags-append (_ ∷ xs) ys = tags-append xs ys

-- The characters shown, those that wait for the end of the line included.
abbrev pub shown : AsnDigger → Bytes
shown app = ascis app.out ++ app.asci

-- `app'` has printed the octets `bs` behind what `app` had, and no tag.
pub record Shows (app app' : AsnDigger) (bs : Bytes) : Type 0 where
  pub hexes_of : hexes app'.out ≡ hexes app.out ++ bs
  pub shown_of : shown app' ≡ shown app ++ map asci_of bs
  pub tags_of : tags app'.out ≡ tags app.out

dump_octet-Shows : (app : AsnDigger) (c : ℕ) → Shows app (dump_octet app c) (c ∷ [])
unfolding dump_octet hexes ascis tags
dump_octet-Shows app c =
    if_both (λ a. Shows app a (c ∷ [])) (app.hex_dump_offs % app.hex_cols == 0)
      (λ _. record {
        hexes_of = simp (hexes-append, append_assoc);
        shown_of = simp (ascis-append, append_assoc, append-nil);
        tags_of = simp (tags-append, append_assoc, append-nil);
      })
      (λ _. record {
        hexes_of = simp hexes-append;
        shown_of = simp (ascis-append, append_assoc, append-nil);
        tags_of = simp (tags-append, append-nil);
      })

pub Shows-trans :
    {a b c : AsnDigger} (xs ys : Bytes) → Shows a b xs → Shows b c ys → Shows a c (xs ++ ys)
Shows-trans xs ys f g = record {
  hexes_of = rw (g.hexes_of, f.hexes_of, append_assoc);
  shown_of = simp (g.shown_of, f.shown_of, append_assoc, map-append);
  tags_of = g.tags_of ∙ f.tags_of;
}

dump_octets-Shows : (app : AsnDigger) (cs : Bytes) → Shows app (dump_octets app cs) cs
unfolding dump_octets
dump_octets-Shows app [] = record {
  hexes_of = rw append-nil;
  shown_of = rw append-nil;
  tags_of = refl;
}
dump_octets-Shows app (c ∷ cs) =
    Shows-trans (c ∷ []) cs (dump_octet-Shows app c) (dump_octets-Shows (dump_octet app c) cs)

gpg_lines-Shows : (app : AsnDigger) → Shows app (gpg_lines app) []
unfolding gpg_lines hexes ascis tags
gpg_lines-Shows app =
    if_both P (app.assume_gpg && is_first_run app)
      (λ _.
        if_both P (app.type == 0x95)
          (λ _. printed (gpg_secret_key (octet_at app.inn_buf 1)) refl refl refl)
          λ _.
            if_both P (app.type == 0x99 && app.len == 1 && octet_at app.inn_buf 0 == 0x0D)
              (λ _. printed gpg_certificate refl refl refl) (λ _. same))
      (λ _. same)
  where
    P : AsnDigger → Type 0
    P a = Shows app a []

    same : Shows app app []
    same = record { hexes_of = rw append-nil; shown_of = rw append-nil; tags_of = refl }

    printed :
        (e : Event)
        → hexes (e ∷ []) ≡ []
        → ascis (e ∷ []) ≡ []
        → tags (e ∷ []) ≡ []
        → Shows app (print app e) []
    printed e h a t = record {
      hexes_of = rw (hexes-append app.out (e ∷ []), h);
      shown_of = simp (ascis-append, a, append-nil);
      tags_of = rw (tags-append app.out (e ∷ []), t, append-nil);
    }

hexes-blanks : (n : ℕ) → hexes (blanks n) ≡ []
unfolding hexes blanks
hexes-blanks zero = refl
hexes-blanks (suc n) = hexes-blanks n

ascis-blanks : (n : ℕ) → ascis (blanks n) ≡ []
unfolding ascis blanks
ascis-blanks zero = refl
ascis-blanks (suc n) = ascis-blanks n

tags-blanks : (n : ℕ) → tags (blanks n) ≡ []
unfolding tags blanks
tags-blanks zero = refl
tags-blanks (suc n) = tags-blanks n

end_column-Shows : (app : AsnDigger) (n : ℕ) → Shows app (end_column app n) []
unfolding end_column hexes ascis tags
end_column-Shows app n =
    if_both (λ a. Shows app a []) (leb 1 (length app.asci))
      (λ _. record {
        hexes_of = simp (hexes-append, hexes-blanks, append-nil);
        shown_of = simp (ascis-append, ascis-blanks, append-nil, append_assoc);
        tags_of = simp (tags-append, tags-blanks, append-nil);
      })
      (λ _. record { hexes_of = rw append-nil; shown_of = rw append-nil; tags_of = refl })

-- A buffer is shown whole and in order, and its characters do not wait.
pub dumped-Shows : (app : AsnDigger) → Shows app (dumped app) app.inn_buf
unfolding dumped
dumped-Shows app =
    let f =
      Shows-trans [] app.inn_buf (gpg_lines-Shows app)
        (dump_octets-Shows (gpg_lines app) app.inn_buf) in
    let a = dump_octets (gpg_lines app) app.inn_buf in
    subst (λ bs. Shows app (end_column a (length app.inn_buf)) bs) (append-nil app.inn_buf)
      (Shows-trans app.inn_buf [] f (end_column-Shows a (length app.inn_buf)))

pub dumped-asci : (app : AsnDigger) → (dumped app).asci ≡ []
unfolding dumped end_column
dumped-asci app = asci_nil (dump_octets (gpg_lines app) app.inn_buf)
  where
    asci_nil : (a : AsnDigger) → (end_column a (length app.inn_buf)).asci ≡ []
    asci_nil a = ground arith
