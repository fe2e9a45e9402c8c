-- ===== src/Merge/Full.antt =====
-- src/main/paisa/LogMerge.c: a source whose buffer is full, in a file of any size with short entries.
use unspecified_garbage.Common.{
  ℕ, ◌+◌, ◌-◌, ◌^◌, ◌≤◌, ◌<◌, ◌≡◌, ◌⊎◌, inl, inr, ◌∙◌, refl, sym, ap, arith, Bool, true, false,
  ◌++◌, append_assoc, ◌&&◌, ltb, lt→ltb, le→ltb, ltb→lt, if◌then◌else◌, Bytes, length,
  length-append, length-drop, length-take, take, take-all, drop, drop-all, drop-drop,
  take-append-drop, Bool-cases,
}
use mathlib.Core.Path.{subst}
use unspecified_garbage.Merge.Source.{Source, done, count, compact, fill, refill}
use unspecified_garbage.Merge.Program.{opened}
use unspecified_garbage.Merge.Prefix.{Two}
use unspecified_garbage.Merge.Small.{SmallWith}

-- Half of the buffer.
abbrev pub half : ℕ
half = 2 ^ 15

-- Where so many bytes are left behind any place, two entries begin in them.
abbrev pub IsDense : Bytes → Type 0
IsDense text = (k : ℕ) → half ≤ length (drop k text) → Two (take half (drop k text))

pub IsDense-drop : (j : ℕ) (text : Bytes) → IsDense text → IsDense (drop j text)
IsDense-drop j text d k h =
    let e = drop-drop j k (j + k) text refl in
    subst (λ t. Two (take half t)) (sym e) (d (j + k) (subst (λ (t : Bytes). half ≤ length t) e h))

-- In the middle of the file, with a buffer that is full.
pub record Reading (src : Source) : Type 0 where
  pub goes_on : src.is_eof ≡ false
  pub calm : src.need_more ≡ false
  pub running : src.is_no_more_entries ≡ false
  pub full : length src.inn_buf ≡ 2 ^ 16
  pub whole : src.cap ≡ 2 ^ 16
  pub more : src.beg < 2 ^ 16

abbrev pub all_of : Source → Bytes
all_of src = drop src.beg src.inn_buf ++ src.unread

-- With the text that is left, and at least half of the buffer.
abbrev pub FullWith : Bytes → Source → Type 0
FullWith text src = Reading src × (src.beg ≤ half) × (all_of src ≡ text) × IsDense text

-- What a refill gives.
abbrev pub Held : Bytes → Source → Type 0
Held text src = SmallWith text src ⊎ FullWith text src

-- What `fread` gives behind the octets that are kept.
fill-Held :
    (src : Source) (text : Bytes)
    → src.need_more ≡ false
    → src.is_no_more_entries ≡ false
    → src.cap ≡ 2 ^ 16
    → length src.inn_buf < 2 ^ 16
    → src.beg ≡ 0
    → src.inn_buf ++ src.unread ≡ text
    → IsDense text
    → Held text (fill src)
unfolding fill
fill-Held src text calm running whole short start e d =
    let n = src.cap - length src.inn_buf in
    elim (Bool-cases (ltb (length src.unread) n)) [
      | inl l ↦ inl (
        record {
          read = l;
          calm = calm;
          all_read = drop-all n src.unread (omega (arith, ltb→lt (length src.unread) n l));
          ended = λ q. absurd (both running q);
        },
        ap (λ b. drop b (src.inn_buf ++ take n src.unread)) start
            ∙ ap (λ (u : Bytes). src.inn_buf ++ u)
                (take-all n src.unread (omega (arith, ltb→lt (length src.unread) n l)))
            ∙ e,
      )
      | inr l ↦ inr (
        record {
          goes_on = l;
          calm = calm;
          running = running;
          full = omega (
            arith,
            whole,
            short,
            length-append src.inn_buf (take n src.unread),
            length-take n src.unread,
            not_less n (length src.unread) l,
          );
          whole = whole;
          more = omega (arith, start);
        },
        omega (arith, start),
        ap (λ b. drop b (src.inn_buf ++ take n src.unread) ++ drop n src.unread) start
            ∙ append_assoc src.inn_buf (take n src.unread) (drop n src.unread)
            ∙ ap (λ (u : Bytes). src.inn_buf ++ u) (take-append-drop n src.unread)
            ∙ e,
        d,
      )
    ]
  where
    both : {b : Bool} → b ≡ false → b ≡ true → ⊥
    both p q = absurd cc

    not_less : (a b : ℕ) → ltb b a ≡ false → a ≤ b
    not_less a b q = ground (arith, q)

refill-filled :
    (src : Source)
    → ltb (length (compact src).inn_buf) (compact src).cap ≡ true
    → (compact src).is_eof ≡ false
    → refill 2 src ≡ done (fill (compact src))
unfolding refill
refill-filled src l e = rw (l, e) refl

refill-kept :
    (src : Source)
    → ltb (length (compact src).inn_buf) (compact src).cap ≡ false
    → (compact src).need_more ≡ false
    → refill 2 src ≡ done (compact src)
unfolding refill
refill-kept src l e = rw (l, e) refl

module _ (src : Source) (r : Reading src) (d : IsDense (all_of src)) where
  moved : Source
  moved = record src {
    inn_buf = drop src.beg src.inn_buf;
    log_beg = src.log_beg - src.beg;
    log_end = src.log_end - src.beg;
    beg = 0;
  }

  is_moved : Bool
  is_moved = ltb (count src) src.beg && ltb 0 (count src)

  moved-Held :
      is_moved ≡ true
      → compact src ≡ moved
      → (kept : Source) × (refill 2 src ≡ done kept) × Held (all_of src) kept
  unfolding is_moved moved
  moved-Held e c =
      let l : length (drop src.beg src.inn_buf) < 2 ^ 16 =
        ground (arith, e, r.full, length-drop src.beg src.inn_buf) in
      (
        fill moved,
        refill-filled src
              (ap (λ (s : Source). ltb (length s.inn_buf) s.cap) c
                ∙ lt→ltb _ _ (omega (arith, l, r.whole)))
              (ap (λ (s : Source). s.is_eof) c ∙ r.goes_on)
            ∙ ap (λ (s : Source). done (fill s)) c,
        fill-Held moved (all_of src) r.calm r.running r.whole l refl refl d,
      )

  rests-Held :
      is_moved ≡ false
      → compact src ≡ src
      → (kept : Source) × (refill 2 src ≡ done kept) × Held (all_of src) kept
  unfolding is_moved
  rests-Held e c = (
    src,
    refill-kept src
          (ap (λ (s : Source). ltb (length s.inn_buf) s.cap) c
            ∙ le→ltb _ _ (omega (arith, r.full, r.whole)))
          (ap (λ (s : Source). s.need_more) c ∙ r.calm)
        ∙ ap (λ (s : Source). done s) c,
    inr (r, ground (arith, e, r.full, r.more), refl, d),
  )

  pub refill-Reading : (kept : Source) × (refill 2 src ≡ done kept) × Held (all_of src) kept
  unfolding compact is_moved moved
  refill-Reading = elim (Bool-cases (ltb (count src) src.beg && ltb 0 (count src))) [
    | inl e ↦ moved-Held e (ap (λ (b : Bool). if b then moved else src) e)
    | inr e ↦ rests-Held e (ap (λ (b : Bool). if b then moved else src) e)
  ]

-- A file that fills the buffer.
pub full-opened :
    (content : Bytes)
    → 2 ^ 16 ≤ length content
    → IsDense content
    → FullWith content (fill (opened content))
unfolding fill
full-opened content h d = (
  record {
    goes_on = le→ltb (length content) 65536 h;
    calm = refl;
    running = refl;
    full = omega (arith, h, length-take 65536 content);
    whole = refl;
    more = omega arith;
  },
  omega arith,
  take-append-drop 65536 content,
  d,
)

pub refill-full : (content : Bytes) → refill 2 (opened content) ≡ done (fill (opened content))
unfolding refill compact
refill-full content = refl
