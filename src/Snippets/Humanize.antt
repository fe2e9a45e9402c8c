-- ===== src/Snippets/Humanize.antt =====
-- src/main/c/common/snippets.c: `HUMANIZE_SI`.
use unspecified_garbage.Common.{
  ℕ, ◌+◌, ◌-◌, ◌*◌, ◌/◌, ◌^◌, ◌≤◌, ◌<◌, ◌≡◌, ◌⊎◌, inl, inr, refl, arith, Bool, true, false,
  Bool-cases, leb, ap, if◌then◌else◌, Bytes, codes,
}
use native.Mathlib.Decide.{dec_lt}

-- A value with its unit and the padding in front of it.
pub record Humanized : Type 0 where
  pub val : ℕ
  pub unit : Bytes
  pub pad_len : ℕ

-- One of the four lines that scale.
unfoldable pub scale : Bytes → Humanized → Humanized
scale unit h = if leb 1000 h.val then record h { val = h.val / 1024; unit = unit } else h

unfoldable pub pad : Humanized → Humanized
pad h = record h {
  pad_len = 2 - (if leb 10 h.val then 1 else 0) - (if leb 100 h.val then 1 else 0);
}

-- For a value of an unsigned type.
unfoldable pub humanize_si : ℕ → Humanized
unfolding scale pad
humanize_si val = pad (
    scale (codes "Ti") (
      scale (codes "Gi") (
        scale (codes "Mi")
          (scale (codes "ki") (record { val = val; unit = codes ""; pad_len = 0 })))))

-- A unit is this power of 1024.
abbrev pub UnitIs : Bytes → ℕ → Type 0
UnitIs unit k =
    ((unit ≡ codes "") × (k ≡ 0))
    ⊎ ((unit ≡ codes "ki") × (k ≡ 1))
    ⊎ ((unit ≡ codes "Mi") × (k ≡ 2))
    ⊎ ((unit ≡ codes "Gi") × (k ≡ 3))
    ⊎ ((unit ≡ codes "Ti") × (k ≡ 4))

-- The number that is shown has at most three digits and is the value, rounded down, in a power of 1024 that its unit
-- names; and its digits and the padding are three together.
abbrev pub IsShown : ℕ → Humanized → Type 0
IsShown v h =
    (k : ℕ) × UnitIs h.unit k
    × (h.val * 1024 ^ k ≤ v)
    × (v < (h.val + 1) * 1024 ^ k)
    × (h.val < 10 ^ (3 - h.pad_len))
    × (((h.val < 10) × (h.pad_len ≡ 2)) ⊎ ((h.pad_len < 2) × (10 ^ (2 - h.pad_len) ≤ h.val)))

scale_rests : (unit : Bytes) (h : Humanized) → h.val < 1000 → scale unit h ≡ h
unfolding scale
scale_rests unit h l =
    let e : leb 1000 h.val ≡ false = ground (arith, l) in
    ap (λ (b : Bool). if b then record h { val = h.val / 1024; unit = unit } else h) e

scale_divides :
    (unit : Bytes) (h : Humanized)
    → 1000 ≤ h.val
    → scale unit h ≡ record h { val = h.val / 1024; unit = unit }
unfolding scale
scale_divides unit h l =
    let e : leb 1000 h.val ≡ true = ground (arith, l) in
    ap (λ (b : Bool). if b then record h { val = h.val / 1024; unit = unit } else h) e

pad-IsShown :
    (v k n : ℕ) (unit : Bytes)
    → UnitIs unit k
    → n < 1000
    → n * 1024 ^ k ≤ v
    → v < (n + 1) * 1024 ^ k
    → IsShown v (pad (record { val = n; unit = unit; pad_len = 0 }))
unfolding pad
pad-IsShown v k n unit u l low high = elim (Bool-cases (leb 10 n)) [
  | inr e ↦
      let f : leb 100 n ≡ false = ground (arith, e) in
      rw (e, f) (k, u, low, high, ground (arith, e), inl (ground (arith, e), refl))
  | inl e ↦ elim (Bool-cases (leb 100 n)) [
    | inr f ↦ rw (e, f) (k, u, low, high, ground (arith, f), inr (omega arith, ground (arith, e)))
    | inl f ↦ rw (e, f) (k, u, low, high, ground (arith, l), inr (omega arith, ground (arith, f)))
  ]
]

abbrev bare : ℕ → Bytes → Humanized
bare n unit = record { val = n; unit = unit; pad_len = 0 }

bytes-IsShown : (v : ℕ) → v < 1000 → IsShown v (humanize_si v)
unfolding humanize_si
bytes-IsShown v l =
    rw
      (
        scale_rests (codes "ki") (bare (v) (codes "")) l,
        scale_rests (codes "Mi") (bare (v) (codes "")) l,
        scale_rests (codes "Gi") (bare (v) (codes "")) l,
        scale_rests (codes "Ti") (bare (v) (codes "")) l,
      )
      (pad-IsShown v 0 (v) (codes "") (inl (refl, refl)) l (omega arith) (omega arith))

kibi-IsShown : (v : ℕ) → 1000 ≤ v → v / 1024 < 1000 → IsShown v (humanize_si v)
unfolding humanize_si
kibi-IsShown v a l =
    rw
      (
        scale_divides (codes "ki") (bare (v) (codes "")) a,
        scale_rests (codes "Mi") (bare (v / 1024) (codes "ki")) l,
        scale_rests (codes "Gi") (bare (v / 1024) (codes "ki")) l,
        scale_rests (codes "Ti") (bare (v / 1024) (codes "ki")) l,
      )
      (pad-IsShown v 1 (v / 1024) (codes "ki") (inr (inl (refl, refl))) l (omega arith)
        (omega arith))

mebi-IsShown :
    (v : ℕ) → 1000 ≤ v → 1000 ≤ v / 1024 → v / 1024 / 1024 < 1000 → IsShown v (humanize_si v)
unfolding humanize_si
mebi-IsShown v a b l =
    rw
      (
        scale_divides (codes "ki") (bare (v) (codes "")) a,
        scale_divides (codes "Mi") (bare (v / 1024) (codes "ki")) b,
        scale_rests (codes "Gi") (bare (v / 1024 / 1024) (codes "Mi")) l,
        scale_rests (codes "Ti") (bare (v / 1024 / 1024) (codes "Mi")) l,
      )
      (pad-IsShown v 2 (v / 1024 / 1024) (codes "Mi") (inr (inr (inl (refl, refl)))) l (omega arith)
        (omega arith))

gibi-IsShown :
    (v : ℕ)
    → 1000 ≤ v
    → 1000 ≤ v / 1024
    → 1000 ≤ v / 1024 / 1024
    → v / 1024 / 1024 / 1024 < 1000
    → IsShown v (humanize_si v)
unfolding humanize_si
gibi-IsShown v a b c l =
    rw
      (
        scale_divides (codes "ki") (bare (v) (codes "")) a,
        scale_divides (codes "Mi") (bare (v / 1024) (codes "ki")) b,
        scale_divides (codes "Gi") (bare (v / 1024 / 1024) (codes "Mi")) c,
        scale_rests (codes "Ti") (bare (v / 1024 / 1024 / 1024) (codes "Gi")) l,
      )
      (pad-IsShown v 3 (v / 1024 / 1024 / 1024) (codes "Gi") (inr (inr (inr (inl (refl, refl))))) l
        (omega arith) (omega arith))

tebi-IsShown :
    (v : ℕ)
    → 1000 ≤ v
    → 1000 ≤ v / 1024
    → 1000 ≤ v / 1024 / 1024
    → 1000 ≤ v / 1024 / 1024 / 1024
    → v / 1024 / 1024 / 1024 / 1024 < 1000
    → IsShown v (humanize_si v)
unfolding humanize_si
tebi-IsShown v a b c d l =
    rw
      (
        scale_divides (codes "ki") (bare (v) (codes "")) a,
        scale_divides (codes "Mi") (bare (v / 1024) (codes "ki")) b,
        scale_divides (codes "Gi") (bare (v / 1024 / 1024) (codes "Mi")) c,
        scale_divides (codes "Ti") (bare (v / 1024 / 1024 / 1024) (codes "Gi")) d,
      )
      (pad-IsShown v 4 (v / 1024 / 1024 / 1024 / 1024) (codes "Ti")
        (inr (inr (inr (inr (refl, refl))))) l (omega arith) (omega arith))

-- Below 1000 Ti, the number that is shown has at most three digits and is the value, rounded down, in a power of 1024
-- that its unit names; and its digits and the padding are three together.
pub humanize_si-IsShown : (v : ℕ) → v < 1000 * 1024 ^ 4 → IsShown v (humanize_si v)
humanize_si-IsShown v h = elim (dec_lt v 1000) [
  | yes l ↦ bytes-IsShown v l
  | no a ↦ elim (dec_lt (v / 1024) 1000) [
    | yes l ↦ kibi-IsShown v (omega arith) l
    | no b ↦ elim (dec_lt (v / 1024 / 1024) 1000) [
      | yes l ↦ mebi-IsShown v (omega arith) (omega arith) l
      | no c ↦ elim (dec_lt (v / 1024 / 1024 / 1024) 1000) [
        | yes l ↦ gibi-IsShown v (omega arith) (omega arith) (omega arith) l
        | no d ↦
            tebi-IsShown v (omega arith) (omega arith) (omega arith) (omega arith) (omega arith)
      ]
    ]
  ]
]
