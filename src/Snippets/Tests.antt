-- ===== src/Snippets/Tests.antt =====
-- src/main/c/common/snippets.c: tests, and witnesses of the theorems.
use unspecified_garbage.Common.{
  ℕ, ◌-◌, ◌≤◌, ◌<◌, ◌≡◌, ◌⊎◌, inl, refl, arith, ◌++◌, some, Bytes, codes, length, take, take-append,
  take-all, ◌-◌, sym, length-take, length-append, length-replicate, replicate, ◌∙◌, pos, negsuc,
}
use unspecified_garbage.Snippets.Buffer.{
  Buf, Alloc, block, failed, ensure_buf_cap, Reallocates, ensure_buf_cap_lem,
}
use unspecified_garbage.Snippets.Humanize.{Humanized, humanize_si, IsShown, humanize_si-IsShown}

abbrev shown : ℕ → Bytes → ℕ → Humanized
shown val unit pad_len = record { val = val; unit = unit; pad_len = pad_len }

humanize_si-few : humanize_si 999 ≡ shown 999 (codes "") 0
unfolding humanize_si
humanize_si-few = refl

-- From 1000 to 1023 the number is 0.
humanize_si-thousand : humanize_si 1000 ≡ shown 0 (codes "ki") 2
unfolding humanize_si
humanize_si-thousand = refl

humanize_si-some : humanize_si 52428800 ≡ shown 50 (codes "Mi") 1
unfolding humanize_si
humanize_si-some = refl

humanize_si-IsShown_example : IsShown 52428800 (humanize_si 52428800)
humanize_si-IsShown_example = humanize_si-IsShown 52428800 (omega arith)

-- The old octets, cut off or with noughts behind.
abbrev resized : Bytes → ℕ → ℕ → Alloc
resized b old_sz new_sz = block (take new_sz b ++ replicate (new_sz - old_sz) 0)

resized-Reallocates : Reallocates resized
resized-Reallocates = record {
  answers = λ b old_sz new_sz h. inl (
    take new_sz b ++ replicate (new_sz - old_sz) 0,
    refl,
    omega (
      arith,
      h,
      length-append (take new_sz b) (replicate (new_sz - old_sz) 0),
      length-take new_sz b,
      length-replicate (new_sz - old_sz) (let z : ℕ = 0 in z),
    ),
    λ l. rw (take-all new_sz b (omega (arith, h))) (
        take-append old_sz b (replicate (new_sz - old_sz) 0) h
        ∙ sym (take-all old_sz b (omega (arith, h)))),
  );
}

abbrev three : Buf
three = record { block = codes "abc"; buf_cap = 3 }

ensure_buf_cap_lem_example :
    ((buf' : Buf) × (ensure_buf_cap resized three (pos 5) ≡ some (pos 0, buf'))
      × (5 ≤ buf'.buf_cap)
      × (3 ≤ buf'.buf_cap)
      × (length buf'.block ≡ buf'.buf_cap)
      × (take 3 buf'.block ≡ codes "abc"))
    ⊎ ((n : ℕ) × (ensure_buf_cap resized three (pos 5) ≡ some (negsuc n, three)) × (3 < 5))
ensure_buf_cap_lem_example =
    ensure_buf_cap_lem resized resized-Reallocates three 5 refl (omega arith)

ensure_buf_cap-fails :
    ensure_buf_cap (λ b old_sz new_sz. failed 12) three (pos 5) ≡ some (negsuc 11, three)
unfolding ensure_buf_cap
ensure_buf_cap-fails = refl
