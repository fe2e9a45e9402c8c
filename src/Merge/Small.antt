-- ===== src/Merge/Small.antt =====
-- src/main/paisa/LogMerge.c: a source whose file has been read as a whole.
use unspecified_garbage.Common.{
  ℕ, suc, ◌+◌, ◌-◌, ◌^◌, ◌≤◌, ◌<◌, ◌≡◌, inl, inr, ◌∙◌, refl, sym, ap, arith, Bool, true, false,
  ◌&&◌, Option, none, some, ltb, lt→ltb, if◌then◌else◌, if_both, Bytes, length, length-drop, take,
  take-all, drop-all, drop, ◌++◌, append-nil, [], drop-drop, Bool-cases,
}
use unspecified_garbage.Merge.Pattern.{find_log_begin}
use unspecified_garbage.Merge.Source.{
  Source, done, count, compact, fill, refill, mark_end, mark_log_entry,
}
use unspecified_garbage.Merge.Program.{entry_of, opened}
use unspecified_garbage.Merge.Spec.{Head, head}
use unspecified_garbage.Merge.Heads.{find_log_begin-lt}

abbrev pub text_of : Source → Bytes
text_of src = drop src.beg src.inn_buf

abbrev pub head_of : Source → Option Head
head_of src =
    if src.is_no_more_entries
    then none
    else some (record { entry = entry_of src; rest = drop src.log_end src.inn_buf ++ src.unread })

-- Nothing is left in the file.
pub record Small (src : Source) : Type 0 where
  pub read : src.is_eof ≡ true
  pub calm : src.need_more ≡ false
  pub all_read : src.unread ≡ []
  pub ended : src.is_no_more_entries ≡ true → head (text_of src) ≡ none

-- A small source with a given text.
abbrev pub SmallWith : Bytes → Source → Type 0
SmallWith text src = Small src × (text_of src ≡ text)

pub compact-SmallWith : (src : Source) → Small src → SmallWith (text_of src) (compact src)
unfolding compact
compact-SmallWith src s =
    if_both (SmallWith (text_of src)) (ltb (count src) src.beg && ltb 0 (count src))
      (λ _. (record { read = s.read; calm = s.calm; all_read = s.all_read; ended = s.ended }, refl))
      (λ _. (s, refl))

and_false : (b : Bool) → (b && false) ≡ false
and_false true = refl
and_false false = refl

refill-done :
    (fuel : ℕ) (src : Source)
    → (compact src).is_eof ≡ true
    → (compact src).need_more ≡ false
    → refill (suc fuel) src ≡ done (compact src)
unfolding refill
refill-done fuel src e n =
    rw (e, and_false (ltb (length (compact src).inn_buf) (compact src).cap), n) refl

pub refill-Small :
    (fuel : ℕ) (src : Source)
    → Small src
    → (kept : Source) × (refill (suc fuel) src ≡ done kept) × SmallWith (text_of src) kept
refill-Small fuel src s =
    let (k, t) = compact-SmallWith src s in
    (compact src, refill-done fuel src k.read k.calm, (k, t))

-- A file of less than 64 KiB is read at once.
pub refill-opened :
    (fuel : ℕ) (content : Bytes)
    → length content < 2 ^ 16
    → (kept : Source) × (refill (suc fuel) (opened content) ≡ done kept) × SmallWith content kept
unfolding refill fill compact
refill-opened fuel content h = (
  fill (opened content),
  refl,
  (
    record {
      read = lt→ltb (length content) 65536 h;
      calm = refl;
      all_read = drop-all 65536 content (omega (arith, h));
      ended = λ e. absurd cc;
    },
    take-all 65536 content (omega (arith, h)),
  ),
)

-- With the head found, and what it is.
pub record SmallMarked (text : Bytes) (src : Source) : Type 0 where
  pub small : SmallWith text src
  pub headed : head_of src ≡ head text
  pub ordered : src.is_no_more_entries ≡ false → src.log_beg ≤ src.log_end

not_both : {b : Bool} → b ≡ true → b ≡ false → ⊥
not_both e f = absurd cc

module _ (src : Source) (s : Small src) where
  -- A source that has ended has no head.
  running : {h : Head} → head (text_of src) ≡ some h → src.is_no_more_entries ≡ false
  running {h} e = elim (Bool-cases src.is_no_more_entries) [
    | inl t ↦ absurd (none_some (s.ended t) e)
    | inr f ↦ f
  ]
    where
      none_some : {o : Option Head} → o ≡ none → o ≡ some h → ⊥
      none_some p q = absurd cc

  nothing_left :
      find_log_begin true (text_of src) ≡ none
      → SmallMarked (text_of src) (record src { is_no_more_entries = true })
  unfolding head
  nothing_left e = record {
    small = (
      record {
        read = s.read;
        calm = s.calm;
        all_read = s.all_read;
        ended = λ _. rw (head, e) refl;
      },
      refl,
    );
    headed = rw (head, e) refl;
    ordered = λ r. absurd cc;
  }

  head_of-found :
      (n k : ℕ) (h : Head)
      → head (text_of src) ≡ some h
      → take (k - n) (drop n src.inn_buf) ≡ h.entry
      → drop k src.inn_buf ≡ h.rest
      → n ≤ k
      → SmallMarked (text_of src) (record src { log_beg = n; log_end = k })
  head_of-found n k h e f g l = record {
    small = (record { read = s.read; calm = s.calm; all_read = s.all_read; ended = s.ended }, refl);
    headed =
        let g' : drop k src.inn_buf ++ src.unread ≡ h.rest =
          ap (λ (u : Bytes). drop k src.inn_buf ++ u) s.all_read
          ∙ append-nil (drop k src.inn_buf)
          ∙ g in
        rw (running e, f, g') (sym e);
    ordered = λ _. l;
  }

  mark_end-SmallMarked :
      (n : ℕ)
      → find_log_begin true (text_of src) ≡ some n
      → SmallMarked (text_of src) (mark_end src (src.beg + n))
  unfolding mark_end head
  mark_end-SmallMarked n e = go (find_log_begin false (drop (suc n) (text_of src))) refl
    where
      behind : drop (suc (src.beg + n)) src.inn_buf ≡ drop (suc n) (text_of src)
      behind = sym (drop-drop src.beg (suc n) (suc (src.beg + n)) src.inn_buf (omega arith))

      long : src.beg + n + 2 ≤ length src.inn_buf
      long = omega (arith, find_log_begin-lt true (text_of src) e, length-drop src.beg src.inn_buf)

      go :
          (o : Option ℕ)
          → find_log_begin false (drop (suc n) (text_of src)) ≡ o
          → SmallMarked (text_of src) (mark_end src (src.beg + n))
      go none f =
          rw (mark_end, behind, f)
            (if_both (SmallMarked (text_of src)) src.is_eof
              (λ _.
                head_of-found (src.beg + n) (length src.inn_buf - 1)
                  (record {
                    entry = take (length (text_of src) - 1 - n) (drop n (text_of src));
                    rest = drop (length (text_of src) - 1) (text_of src);
                  })
                  (rw (head, e, f) refl)
                  (ap (λ xs. take (length src.inn_buf - 1 - (src.beg + n)) xs)
                      (sym (drop-drop src.beg n (src.beg + n) src.inn_buf refl))
                    ∙ ap (λ i. take i (drop n (text_of src)))
                        (omega (arith, long, length-drop src.beg src.inn_buf)))
                  (sym (
                    drop-drop src.beg (length (text_of src) - 1) (length src.inn_buf - 1)
                      src.inn_buf (omega (arith, long, length-drop src.beg src.inn_buf))))
                  (omega (arith, long)))
              (λ h. absurd (not_both s.read h)))
      go (some m) f =
          rw (mark_end, behind, f)
            (head_of-found (src.beg + n) (src.beg + n + m)
              (record { entry = take m (drop n (text_of src)); rest = drop (n + m) (text_of src) })
              (rw (head, e, f) refl)
              (ap (λ xs. take (src.beg + n + m - (src.beg + n)) xs)
                  (sym (drop-drop src.beg n (src.beg + n) src.inn_buf refl))
                ∙ ap (λ i. take i (drop n (text_of src))) (omega arith))
              (sym (drop-drop src.beg (n + m) (src.beg + n + m) src.inn_buf (omega arith)))
              (omega arith))

  pub mark_log_entry-SmallMarked : SmallMarked (text_of src) (mark_log_entry src)
  unfolding mark_log_entry
  mark_log_entry-SmallMarked = go (find_log_begin true (text_of src)) refl
    where
      go :
          (o : Option ℕ)
          → find_log_begin true (text_of src) ≡ o
          → SmallMarked (text_of src) (mark_log_entry src)
      go none e =
          rw (mark_log_entry, e)
            (if_both (SmallMarked (text_of src)) src.is_eof (λ _. nothing_left e)
              (λ h. absurd (not_both s.read h)))
      go (some n) e = rw (mark_log_entry, e) (mark_end-SmallMarked n e)
