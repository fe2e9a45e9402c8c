-- ===== src/Snippets/Buffer.antt =====
-- src/main/c/common/snippets.c: `ensureBufCap`.
use unspecified_garbage.Common.{
  ℕ, ◌-◌, ◌≤◌, ◌<◌, ◌≡◌, ◌⊎◌, inl, inr, refl, arith, Bool, true, false, Bool-cases, Option, none,
  some, leb, ltb, ltb→lt, lt→ltb, take-all, ap, ◌∙◌, if◌then◌else◌, Bytes, length, take, ℤ, pos,
  negsuc,
}

-- A buffer; its capacity is the length of the block that it points to.
pub record Buf : Type 0 where
  pub block : Bytes
  pub buf_cap : ℕ

-- What `allocFn` gives: a block, or an errno.
pub data Alloc : Type 0 where
  block : Bytes → Alloc
  failed : ℕ → Alloc

-- `none` is a failed assert.
unfoldable pub ensure_buf_cap : (Bytes → ℕ → ℕ → Alloc) → Buf → ℤ → Option (ℤ × Buf)
ensure_buf_cap alloc_fn buf (negsuc n) = none
ensure_buf_cap alloc_fn buf (pos wanted) =
    if leb wanted 0
    then none
    else if ltb buf.buf_cap wanted
    then elim (alloc_fn buf.block buf.buf_cap wanted) [
      | block tmp ↦ some (pos 0, record { block = tmp; buf_cap = wanted })
      | failed errno ↦ if ltb 0 errno then some (negsuc (errno - 1), buf) else none
    ]
    else some (pos 0, buf)

-- What `realloc` does: a block of the new size that starts like the old one, or an errno.
pub record Reallocates (alloc_fn : Bytes → ℕ → ℕ → Alloc) : Type 0 where
  pub answers :
      (b : Bytes) (old_sz new_sz : ℕ)
      → length b ≡ old_sz
      → ((tmp : Bytes) × (alloc_fn b old_sz new_sz ≡ Alloc.block tmp)
          × (length tmp ≡ new_sz)
          × (old_sz ≤ new_sz → take old_sz tmp ≡ take old_sz b))
        ⊎ ((errno : ℕ) × (alloc_fn b old_sz new_sz ≡ failed errno) × (0 < errno))

-- With an allocator that reallocates, and a buffer that is as long as its capacity: for a positive capacity that is
-- wanted, the function returns 0 with a buffer of at least that capacity and of the old one, as long as its
-- capacity, that starts with all that was in the old one; or it returns a negative number and the
-- buffer from before, which has less than is wanted.
pub ensure_buf_cap_lem :
    (alloc_fn : Bytes → ℕ → ℕ → Alloc)
    → Reallocates alloc_fn
    → (buf : Buf) (wanted : ℕ) → length buf.block ≡ buf.buf_cap
    → 0 < wanted
    → ((buf' : Buf) × (ensure_buf_cap alloc_fn buf (pos wanted) ≡ some (pos 0, buf'))
        × (wanted ≤ buf'.buf_cap)
        × (buf.buf_cap ≤ buf'.buf_cap)
        × (length buf'.block ≡ buf'.buf_cap)
        × (take buf.buf_cap buf'.block ≡ buf.block))
      ⊎ ((n : ℕ) × (ensure_buf_cap alloc_fn buf (pos wanted) ≡ some (negsuc n, buf))
          × (buf.buf_cap < wanted))
unfolding ensure_buf_cap
ensure_buf_cap_lem alloc_fn r buf wanted h w = elim (Bool-cases (ltb buf.buf_cap wanted)) [
  | inl less ↦ elim (r.answers buf.block buf.buf_cap wanted h) [
    | inl (tmp, e, l, same) ↦ inl (
      record { block = tmp; buf_cap = wanted },
      asked less ∙ ap after e,
      omega arith,
      omega (arith, ltb→lt _ _ less),
      l,
      same (omega (arith, ltb→lt _ _ less)) ∙ take-all buf.buf_cap buf.block (omega (arith, h)),
    )
    | inr (errno, e, l) ↦ inr (
      errno - 1,
      asked less
          ∙ ap after e
          ∙ ap (λ (b : Bool). if b then some (negsuc (errno - 1), buf) else none)
              (lt→ltb 0 errno l),
      ltb→lt _ _ less,
    )
  ]
  | inr enough ↦ inl (
    buf,
    rw (w', enough) refl,
    ground (arith, enough),
    omega arith,
    h,
    take-all buf.buf_cap buf.block (omega (arith, h)),
  )
]
  where
    w' : leb wanted 0 ≡ false
    w' = ground (arith, w)

    after : Alloc → Option (ℤ × Buf)
    after (block tmp) = some (pos 0, record { block = tmp; buf_cap = wanted })
    after (failed errno) = if ltb 0 errno then some (negsuc (errno - 1), buf) else none

    asked :
        ltb buf.buf_cap wanted ≡ true
        → ensure_buf_cap alloc_fn buf (pos wanted) ≡ after (alloc_fn buf.block buf.buf_cap wanted)
    asked less = rw (w', less) refl
