-- ===== src/Merge/Together.antt =====
-- src/main/paisa/LogMerge.c: the texts and the sources side by side.
use unspecified_garbage.Common.{
  ℕ, zero, suc, ◌+◌, ◌<◌, ◌≡◌, ◌∙◌, refl, sym, inl, inr, arith, false, List, [], ◌∷◌, map, some,
  Bytes, length, get_elem?,
}
use mathlib.Core.Path.{subst}
use unspecified_garbage.Merge.Source.{Source, done, refill, mark_log_entry}
use unspecified_garbage.Merge.Program.{all, refill_all, any_needs_more, set_source}
use unspecified_garbage.Merge.Spec.{head, set_text}
use unspecified_garbage.Merge.Small.{SmallWith, Small, head_of, refill-Small}
use unspecified_garbage.Merge.Full.{IsDense, Reading, all_of, Held, refill-Reading}
use unspecified_garbage.Merge.Marks.{Marked, mark_log_entry-Marked}

-- Each source has its text.
abbrev pub Both : (Bytes → Source → Type 0) → List Bytes → List Source → Type 0
Both P [] [] = Unit
Both P [] (s ∷ ss) = ⊥
Both P (t ∷ ts) [] = ⊥
Both P (t ∷ ts) (s ∷ ss) = P t s × Both P ts ss

-- The next refill leaves the text in order.
pub record Ready (text : Bytes) (src : Source) : Type 0 where
  pub kept : Source
  pub refilled : refill 2 src ≡ done kept
  pub held : Held text kept

pub SmallWith-Ready : {text : Bytes} (src : Source) → SmallWith text src → Ready text src
SmallWith-Ready {text} src s =
    let (kept, e, (k, t)) = refill-Small 1 src s.0 in
    record { kept = kept; refilled = e; held = inl (k, t ∙ s.1) }

pub Reading-Ready :
    {text : Bytes} (src : Source) → Reading src → all_of src ≡ text → IsDense text → Ready text src
Reading-Ready {text} src r e d =
    let (kept, f, h) = refill-Reading src r (subst IsDense (sym e) d) in
    record { kept = kept; refilled = f; held = subst (λ t. Held t kept) e h }

pub refill_all-Both :
    (texts : List Bytes) (srcs : List Source)
    → Both Ready texts srcs
    → (kept : List Source) × (refill_all srcs ≡ all kept) × Both Held texts kept
unfolding refill_all
refill_all-Both [] [] b = ([], refl, tt)
refill_all-Both [] (s ∷ ss) b = absurd b
refill_all-Both (t ∷ ts) [] b = absurd b
refill_all-Both (t ∷ ts) (s ∷ ss) b =
    let (kept, e, k) = refill_all-Both ts ss b.1 in
    (Ready.kept b.0 ∷ kept, rw (refill_all, Ready.refilled b.0, e) refl, (Ready.held b.0, k))

pub mark_all-Both :
    (texts : List Bytes) (srcs : List Source)
    → Both Held texts srcs
    → Both Marked texts (map mark_log_entry srcs)
mark_all-Both [] [] b = tt
mark_all-Both [] (s ∷ ss) b = absurd b
mark_all-Both (t ∷ ts) [] b = absurd b
mark_all-Both (t ∷ ts) (s ∷ ss) b = (mark_log_entry-Marked s b.0, mark_all-Both ts ss b.1)

need_more-Marked : {text : Bytes} (src : Source) → Marked text src → src.need_more ≡ false
need_more-Marked src m = elim m.held [ inl s ↦ Small.calm s.0 | inr f ↦ Reading.calm f.0.0 ]

pub Marked-calm :
    (texts : List Bytes) (srcs : List Source) → Both Marked texts srcs → any_needs_more srcs ≡ false
Marked-calm [] [] b = refl
Marked-calm [] (s ∷ ss) b = absurd b
Marked-calm (t ∷ ts) [] b = absurd b
Marked-calm (t ∷ ts) (s ∷ ss) b = rw (need_more-Marked s b.0) (Marked-calm ts ss b.1)

pub Marked-heads :
    (texts : List Bytes) (srcs : List Source)
    → Both Marked texts srcs
    → map head_of srcs ≡ map head texts
Marked-heads [] [] b = refl
Marked-heads [] (s ∷ ss) b = absurd b
Marked-heads (t ∷ ts) [] b = absurd b
Marked-heads (t ∷ ts) (s ∷ ss) b = cc (Marked.headed b.0, Marked-heads ts ss b.1)

Ready-Marked : {text : Bytes} (src : Source) → Marked text src → Ready text src
Ready-Marked src m = elim m.held [
  | inl s ↦ SmallWith-Ready src s
  | inr f ↦ Reading-Ready src f.0.0 f.0.2 f.0.3
]

pub Marked-Ready :
    (texts : List Bytes) (srcs : List Source) → Both Marked texts srcs → Both Ready texts srcs
Marked-Ready [] [] b = tt
Marked-Ready [] (s ∷ ss) b = absurd b
Marked-Ready (t ∷ ts) [] b = absurd b
Marked-Ready (t ∷ ts) (s ∷ ss) b = (Ready-Marked s b.0, Marked-Ready ts ss b.1)

pub set-Both :
    (texts : List Bytes) (srcs : List Source) (i : ℕ) (text : Bytes) (src : Source)
    → Both Ready texts srcs
    → Ready text src
    → Both Ready (set_text texts i text) (set_source srcs i src)
unfolding set_text set_source
set-Both [] [] i text src b r = tt
set-Both [] (s ∷ ss) i text src b r = absurd b
set-Both (t ∷ ts) [] i text src b r = absurd b
set-Both (t ∷ ts) (s ∷ ss) zero text src b r = (r, b.1)
set-Both (t ∷ ts) (s ∷ ss) (suc i) text src b r = (b.0, set-Both ts ss i text src b.1 r)

some_source : {a b : Source} → some a ≡ some b → a ≡ b
some_source e = cc

-- The text of the source at a place.
pub Marked-get :
    (texts : List Bytes) (srcs : List Source) (i : ℕ) {src : Source}
    → Both Marked texts srcs
    → get_elem? srcs i ≡ some src
    → (text : Bytes) × (get_elem? texts i ≡ some text) × Marked text src
Marked-get [] [] i b e = absurd cc
Marked-get [] (s ∷ ss) i b e = absurd b
Marked-get (t ∷ ts) [] i b e = absurd b
Marked-get (t ∷ ts) (s ∷ ss) zero b e = (t, refl, subst (Marked t) (some_source e) b.0)
Marked-get (t ∷ ts) (s ∷ ss) (suc i) b e = Marked-get ts ss i b.1 e

unfoldable pub total : List Bytes → ℕ
total [] = 0
total (t ∷ ts) = length t + total ts

pub total-set_text :
    (texts : List Bytes) (i : ℕ) {old : Bytes} (text : Bytes)
    → get_elem? texts i ≡ some old
    → length text < length old
    → total (set_text texts i text) < total texts
unfolding total set_text
total-set_text [] i text e l = absurd cc
total-set_text (t ∷ ts) zero text e l = omega (arith, l, some_length e)
  where
    some_length : {a b : Bytes} → some a ≡ some b → length a ≡ length b
    some_length q = cc
total-set_text (t ∷ ts) (suc i) text e l = omega (arith, total-set_text ts i text e l)
