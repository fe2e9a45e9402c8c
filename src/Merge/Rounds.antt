-- ===== src/Merge/Rounds.antt =====
-- src/main/paisa/LogMerge.c: for files that are read at once or have short entries, the rounds end and write the merged entries.
use unspecified_garbage.Common.{
  All, append-nil, ℕ, zero, suc, ◌<◌, ◌≡◌, inl, inr, ◌∙◌, refl, sym, ap, arith, Bool, true, false,
  ltb, ◌&&◌, List, [], ◌∷◌, ◌++◌, map, Option, none, some, if◌then◌else◌, Bytes, up_to_nul, drop,
  get_elem?, Bool-cases,
}
use unspecified_garbage.Merge.Args.{Args, parse_args}
use unspecified_garbage.Merge.Source.{Source, mark_log_entry}
use unspecified_garbage.Merge.Program.{
  App, Exit, exit, abort, find_oldest, set_source, is_duplicate, consumed, write_lowest, rounds,
  opened, main,
}
use unspecified_garbage.Merge.Spec.{
  Head, head, oldest, set_text, is_similar, Merges, finished, skipped, written,
}
use unspecified_garbage.Merge.Heads.{head-shorter}
use unspecified_garbage.Merge.Small.{Small}
use unspecified_garbage.Merge.Full.{Reading}
use unspecified_garbage.Merge.Marks.{Marked}
use unspecified_garbage.Merge.Lowest.{found_head, maybe_head, find_oldest-oldest, find_oldest-At}
use unspecified_garbage.Merge.Together.{
  Both, Ready, SmallWith-Ready, Reading-Ready, refill_all-Both, mark_all-Both, Marked-calm,
  Marked-heads, Marked-Ready, Marked-get, set-Both, total, total-set_text,
}
use unspecified_garbage.Merge.Opened.{Opens, IsMergeable, open_src_files-opened, opened-Ready}

-- The merge of the texts is what the rounds return.
pub record Merged (is_dedupe : Bool) (texts : List Bytes) (last out : Bytes) (e : Exit)
    : Type 0 where
  pub final : Bytes
  pub merges : Merges is_dedupe texts last out final
  pub exits : e ≡ exit 0 final

consumed-Ready :
    {text : Bytes} (src : Source)
    → Marked text src
    → src.is_no_more_entries ≡ false
    → Ready (drop src.log_end src.inn_buf ++ src.unread) (consumed src)
consumed-Ready src m r = elim m.held [
  | inl s ↦ SmallWith-Ready (consumed src) (
    record {
      read = Small.read s.0;
      calm = Small.calm s.0;
      all_read = Small.all_read s.0;
      ended = λ e. absurd (both r e);
    },
    sym (
        ap (λ (u : Bytes). drop src.log_end src.inn_buf ++ u) (Small.all_read s.0)
        ∙ append-nil (drop src.log_end src.inn_buf)),
  )
  | inr (f, near, dense) ↦
      Reading-Ready (consumed src)
        (record {
          goes_on = Reading.goes_on f.0;
          calm = Reading.calm f.0;
          running = r;
          full = Reading.full f.0;
          whole = Reading.whole f.0;
          more = near;
        })
        refl dense
]
  where
    both : {b : Bool} → b ≡ false → b ≡ true → ⊥
    both p q = absurd cc

running_head :
    {text : Bytes} (src : Source)
    → Marked text src
    → src.is_no_more_entries ≡ false
    → head text ≡ some (found_head src)
running_head src m r = sym m.headed ∙ ap (λ b. if b then none else some (found_head src)) r

module _ (is_dedupe : Bool) where
  abbrev app_with : List Source → Bytes → Bytes → App
  app_with srcs last out = record {
    is_dedupe = is_dedupe;
    sources = srcs;
    last_written_msg = last;
    out = out;
  }

  -- What the rounds do with the entry that was found.
  write_lowest-Merged :
      (fuel : ℕ) (texts : List Bytes) (srcs : List Source) (last out : Bytes) (i : ℕ) (src : Source)
      → ((ts : List Bytes) (ss : List Source) (l o : Bytes)
          → Both Ready ts ss
          → total ts < fuel
          → Merged is_dedupe ts l o (rounds fuel (app_with ss l o)))
      → Both Marked texts srcs
      → total texts < suc fuel
      → find_oldest srcs ≡ some (i, src)
      → Merged is_dedupe texts last out (elim (write_lowest (app_with srcs last out) i src) [
        | none ↦ abort
        | some app ↦ rounds fuel app
      ])
  unfolding write_lowest is_duplicate is_similar
  write_lowest-Merged fuel texts srcs last out i src more b t f =
      let a = find_oldest-At srcs f in
      let (text, g, m) = Marked-get texts srcs a.place b a.get in
      let place : i ≡ a.place = omega (arith, a.place_eq) in
      let h : Head = found_head src in
      let shorter = head-shorter text (running_head src m a.runs) in
      let rest =
        set-Both texts srcs i h.rest (consumed src) (Marked-Ready texts srcs b)
          (consumed-Ready src m a.runs) in
      let less = total-set_text texts i h.rest (ap (get_elem? texts) place ∙ g) shorter in
      let chosen : oldest (map head texts) ≡ some (i, h) =
        ap oldest (sym (Marked-heads texts srcs b))
        ∙ sym (find_oldest-oldest srcs)
        ∙ ap maybe_head f in
      let ordered : ltb src.log_end src.log_beg ≡ false = ground (arith, m.ordered a.runs) in
      elim (Bool-cases (is_dedupe && is_similar last h.entry)) [
        | inl d ↦
            let r =
              more (set_text texts i h.rest) (set_source srcs i (consumed src)) last out rest
                (omega (arith, less)) in
            rw (ordered, d)
              (record {
                final = r.final;
                merges = skipped texts last out r.final i h chosen d r.merges;
                exits = r.exits;
              })
        | inr d ↦
            let r =
              more (set_text texts i h.rest) (set_source srcs i (consumed src)) h.entry
                (out ++ (up_to_nul h.entry ++ (b'\n' ∷ []))) rest (omega (arith, less)) in
            rw (ordered, d)
              (record {
                final = r.final;
                merges = written texts last out r.final i h chosen d r.merges;
                exits = r.exits;
              })
      ]

  pub rounds-Merged :
      (fuel : ℕ) (texts : List Bytes) (srcs : List Source) (last out : Bytes)
      → Both Ready texts srcs
      → total texts < fuel
      → Merged is_dedupe texts last out (rounds fuel (app_with srcs last out))
  unfolding rounds
  rounds-Merged zero texts srcs last out b t = absurd (omega arith)
  rounds-Merged (suc fuel) texts srcs last out b t =
      let (kept, e, k) = refill_all-Both texts srcs b in
      let m = mark_all-Both texts kept k in
      rw (rounds, e, Marked-calm texts (map mark_log_entry kept) m)
        (go kept m (find_oldest (map mark_log_entry kept)) refl
          (λ ts ss l o. rounds-Merged fuel ts ss l o))
    where
      go :
          (kept : List Source)
          → Both Marked texts (map mark_log_entry kept)
          → (o : Option (ℕ × Source)) → find_oldest (map mark_log_entry kept) ≡ o
          → ((ts : List Bytes) (ss : List Source) (l u : Bytes)
              → Both Ready ts ss
              → total ts < fuel
              → Merged is_dedupe ts l u (rounds fuel (app_with ss l u)))
          → Merged is_dedupe texts last out (elim o [
            | none ↦ exit 0 out
            | some lowest ↦
                elim (write_lowest
                  (app_with (map mark_log_entry kept) last out)
                  lowest.0
                  lowest.1) [ none ↦ abort | some app ↦ rounds fuel app ]
          ])
      go kept m none f more = record {
        final = out;
        merges = finished texts last out (
            ap oldest (sym (Marked-heads texts (map mark_log_entry kept) m))
            ∙ sym (find_oldest-oldest (map mark_log_entry kept))
            ∙ ap maybe_head f);
        exits = refl;
      }
      go kept m (some lowest) f more =
          write_lowest-Merged fuel texts (map mark_log_entry kept) last out lowest.0 lowest.1 more m
            t f

-- Where the arguments ask for no help and name at least one file, all files can be opened, and each has fewer than 65536
-- bytes or has the beginnings of two entries in every 32768 bytes: with fuel for one round more than there
-- are bytes, the program ends, returns 0 and writes what the merge of the files' texts is. (The merge takes the
-- oldest head each time, as the first of those that no later head is below, and writes it unless it is similar to
-- the one that was written last.)
pub main-Merged :
    (fopen : Bytes → Option Bytes) (fuel : ℕ) (args : List Bytes) (app : Args) (path : Bytes)
    (paths contents : List Bytes)
    → parse_args args ≡ some app
    → app.is_help ≡ false
    → app.files ≡ path ∷ paths
    → Opens fopen (path ∷ paths) contents
    → All IsMergeable contents
    → total contents < fuel
    → Merged app.is_dedupe contents [] [] (main fopen fuel args)
unfolding main
main-Merged fopen fuel args app path paths contents p h f o a t =
    rw (main, p, h, f, open_src_files-opened fopen (path ∷ paths) contents o)
      (rounds-Merged app.is_dedupe fuel contents (map opened contents) [] []
        (opened-Ready contents a) t)
