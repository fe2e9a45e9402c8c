-- ===== src/Merge/Opened.antt =====
-- src/main/paisa/LogMerge.c: the files, and the sources that are made of them.
use unspecified_garbage.Common.{
  All, ◌⊎◌, ◌^◌, ◌<◌, ◌≡◌, inl, inr, refl, arith, List, [], ◌∷◌, map, Option, some, Bytes, length,
}
use native.Mathlib.Decide.{dec_lt}
use unspecified_garbage.Merge.Source.{fill}
use unspecified_garbage.Merge.Program.{opened, open_src_files}
use unspecified_garbage.Merge.Small.{refill-opened}
use unspecified_garbage.Merge.Full.{IsDense, full-opened, refill-full}
use unspecified_garbage.Merge.Together.{Both, Ready}

-- What the files hold.
abbrev pub Opens : (Bytes → Option Bytes) → List Bytes → List Bytes → Type 0
Opens fopen [] [] = Unit
Opens fopen [] (content ∷ contents) = ⊥
Opens fopen (path ∷ paths) [] = ⊥
Opens fopen (path ∷ paths) (content ∷ contents) =
    (fopen path ≡ some content) × Opens fopen paths contents

pub open_src_files-opened :
    (fopen : Bytes → Option Bytes) (paths contents : List Bytes)
    → Opens fopen paths contents
    → open_src_files fopen paths ≡ some (map opened contents)
unfolding open_src_files
open_src_files-opened fopen [] [] h = refl
open_src_files-opened fopen [] (c ∷ cs) h = absurd h
open_src_files-opened fopen (p ∷ ps) [] h = absurd h
open_src_files-opened fopen (p ∷ ps) (c ∷ cs) h =
    rw (open_src_files, h.0, open_src_files-opened fopen ps cs h.1) refl

-- A file that is read at once, or whose entries are short.
abbrev pub IsMergeable : Bytes → Type 0
IsMergeable content = (length content < 2 ^ 16) ⊎ IsDense content

short-Ready : (content : Bytes) → length content < 2 ^ 16 → Ready content (opened content)
short-Ready content h =
    let (kept, e, k) = refill-opened 1 content h in
    record { kept = kept; refilled = e; held = inl k }

pub opened-Ready :
    (contents : List Bytes) → All IsMergeable contents → Both Ready contents (map opened contents)
opened-Ready [] a = tt
opened-Ready (c ∷ cs) a = (one a.0, opened-Ready cs a.1)
  where
    one : IsMergeable c → Ready c (opened c)
    one (inl h) = short-Ready c h
    one (inr d) = elim (dec_lt (length c) (2 ^ 16)) [
      | yes h ↦ short-Ready c h
      | no h ↦ record {
        kept = fill (opened c);
        refilled = refill-full c;
        held = inr (full-opened c (omega (arith, h)) d);
      }
    ]
