-- ===== src/Merge/Marks.antt =====
-- src/main/paisa/LogMerge.c: the mark that is set in a source, whether its file has been read or not.
use unspecified_garbage.Common.{
  ℕ, suc, ◌+◌, ◌-◌, ◌^◌, ◌≤◌, ◌<◌, ◌≡◌, ◌⊎◌, inl, inr, ◌∙◌, refl, sym, ap, arith, true, false, ◌++◌,
  none, some, if◌then◌else◌, Bytes, length, length-append, length-drop, take, drop, drop-drop,
  take-append-drop, take-append_le, drop-append_le,
}
use mathlib.Core.Path.{subst, ap₂}
use unspecified_garbage.Merge.Pattern.{find_log_begin}
use unspecified_garbage.Merge.Source.{Source, mark_end, mark_log_entry}
use unspecified_garbage.Merge.Program.{entry_of}
use unspecified_garbage.Merge.Spec.{Head, head}
use unspecified_garbage.Merge.Prefix.{Two, Two-append, find_log_begin-Two}
use unspecified_garbage.Merge.Small.{SmallWith, head_of, SmallMarked, mark_log_entry-SmallMarked}
use unspecified_garbage.Merge.Full.{half, IsDense, IsDense-drop, Reading, all_of, FullWith, Held}

-- With the head found, and what it is. What is left behind it is in order, too.
pub record Marked (text : Bytes) (src : Source) : Type 0 where
  pub held :
      SmallWith text src
      ⊎ (FullWith text src
          × (src.log_end < 2 ^ 16)
          × IsDense (drop src.log_end src.inn_buf ++ src.unread))
  pub headed : head_of src ≡ head text
  pub ordered : src.is_no_more_entries ≡ false → src.log_beg ≤ src.log_end

head-found :
    (text : Bytes) (n m : ℕ)
    → find_log_begin true text ≡ some n
    → find_log_begin false (drop (suc n) text) ≡ some m
    → head text ≡ some (record { entry = take m (drop n text); rest = drop (n + m) text })
unfolding head
head-found text n m e f = rw (head, e, f) refl

module _ (src : Source) (r : Reading src) (left : src.beg ≤ half) (d : IsDense (all_of src)) where
  buffer : Bytes
  buffer = drop src.beg src.inn_buf

  length-buffer : length buffer ≡ 2 ^ 16 - src.beg
  unfolding buffer
  length-buffer = omega (arith, r.full, length-drop src.beg src.inn_buf)

  -- Two entries begin in the buffer.
  buffer-Two : Two buffer
  unfolding buffer
  buffer-Two =
      let long : half ≤ length buffer = omega (arith, length-buffer, left) in
      let w = d 0 (omega (arith, long, length-append buffer src.unread)) in
      let v = subst Two (take-append_le half buffer src.unread long) w in
      subst Two (take-append-drop half buffer) (Two-append (take half buffer) (drop half buffer) v)

  at_mark : Source
  at_mark = record src {
    log_beg = src.beg + buffer-Two.first;
    log_end = src.beg + buffer-Two.first + buffer-Two.second;
  }

  mark_log_entry-at : mark_log_entry src ≡ at_mark
  unfolding mark_log_entry mark_end at_mark buffer
  mark_log_entry-at =
      let behind : drop (suc (src.beg + buffer-Two.first)) src.inn_buf
          ≡ drop (suc buffer-Two.first) buffer =
        sym (
          drop-drop src.beg (suc buffer-Two.first) (suc (src.beg + buffer-Two.first)) src.inn_buf
            (omega arith)) in
      rw (mark_log_entry, buffer-Two.found, mark_end, behind, buffer-Two.next) refl

  marked_rest :
      drop at_mark.log_end src.inn_buf ++ src.unread
      ≡ drop (buffer-Two.first + buffer-Two.second) (all_of src)
  unfolding at_mark buffer
  marked_rest =
      let n = buffer-Two.first in
      let m = buffer-Two.second in
      ap (λ (b : Bytes). b ++ src.unread)
        (sym (drop-drop src.beg (n + m) (src.beg + n + m) src.inn_buf (omega arith)))
      ∙ sym (drop-append_le (n + m) buffer src.unread (omega (arith, buffer-Two.inside)))

  at_mark-headed : head_of at_mark ≡ head (all_of src)
  unfolding at_mark buffer
  at_mark-headed =
      let n = buffer-Two.first in
      let m = buffer-Two.second in
      let inside = buffer-Two.inside in
      let entry : take (src.beg + n + m - (src.beg + n)) (drop (src.beg + n) src.inn_buf)
          ≡ take m (drop n (all_of src)) =
        ap (λ k. take k (drop (src.beg + n) src.inn_buf)) (omega arith)
        ∙ ap (take m) (sym (drop-drop src.beg n (src.beg + n) src.inn_buf refl))
        ∙ sym (
            take-append_le m (drop n buffer) src.unread
              (omega (arith, inside, length-drop n buffer)))
        ∙ ap (take m) (sym (drop-append_le n buffer src.unread (omega (arith, inside)))) in
      let found = find_log_begin-Two buffer src.unread buffer-Two in
      ap
        (λ b.
          if b
          then none
          else some (record {
            entry = entry_of at_mark;
            rest = drop at_mark.log_end src.inn_buf ++ src.unread;
          }))
        r.running
      ∙ ap₂ (λ (x y : Bytes). some (let h : Head = record { entry = x; rest = y } in h)) entry
          marked_rest
      ∙ sym (head-found (all_of src) n m found.0 found.1)

  at_mark-Marked : Marked (all_of src) at_mark
  unfolding at_mark
  at_mark-Marked = record {
    held = inr (
      (
        record {
          goes_on = r.goes_on;
          calm = r.calm;
          running = r.running;
          full = r.full;
          whole = r.whole;
          more = r.more;
        },
        left,
        refl,
        d,
      ),
      omega (arith, buffer-Two.inside, length-buffer),
      subst IsDense (sym marked_rest)
          (IsDense-drop (buffer-Two.first + buffer-Two.second) (all_of src) d),
    );
    headed = at_mark-headed;
    ordered = λ _. omega arith;
  }

  mark_log_entry-Reading : Marked (all_of src) (mark_log_entry src)
  mark_log_entry-Reading = subst (Marked (all_of src)) (sym mark_log_entry-at) at_mark-Marked

-- Each mark is right.
pub mark_log_entry-Marked :
    {text : Bytes} (src : Source) → Held text src → Marked text (mark_log_entry src)
mark_log_entry-Marked {text} src (inl s) =
    let m =
      subst (λ t. SmallMarked t (mark_log_entry src)) s.1 (mark_log_entry-SmallMarked src s.0) in
    record { held = inl m.small; headed = m.headed; ordered = m.ordered }
mark_log_entry-Marked {text} src (inr (r, left, e, d)) =
    subst (λ t. Marked t (mark_log_entry src)) e
      (mark_log_entry-Reading src r left (subst IsDense (sym e) d))
