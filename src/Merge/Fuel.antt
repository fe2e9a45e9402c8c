-- ===== src/Merge/Fuel.antt =====
-- src/main/paisa/LogMerge.c, `refillBufferForSourceByArg`: how often it calls itself.
use unspecified_garbage.Common.{
  ℕ, suc, ◌+◌, ◌≤◌, ◌<◌, ◌≡◌, ◌≢◌, ◌∙◌, refl, sym, arith, false, not, ◌&&◌, ltb, lt→ltb, if_both,
  length, length-drop,
}
use mathlib.Core.Path.{subst}
use unspecified_garbage.Merge.Source.{
  Source, Refilled, done, out_of_fuel, count, compact, fill, refill,
}

-- Compaction keeps what a refill looks at, and leaves at most as many bytes.
record Kept (src kept : Source) : Type 0 where
  eof_kept : kept.is_eof ≡ src.is_eof
  cap_kept : kept.cap ≡ src.cap
  no_longer : length kept.inn_buf ≤ length src.inn_buf

compact-Kept : (src : Source) → Kept src (compact src)
unfolding compact
compact-Kept src =
    if_both (Kept src) (ltb (count src) src.beg && ltb 0 (count src))
      (λ _. record {
        eof_kept = refl;
        cap_kept = refl;
        no_longer = omega (arith, length-drop src.beg src.inn_buf);
      })
      (λ _. record { eof_kept = refl; cap_kept = refl; no_longer = omega arith })

refill-fill :
    (fuel : ℕ) (src : Source)
    → src.is_eof ≡ false
    → length src.inn_buf < src.cap
    → refill (suc fuel) src ≡ done (fill (compact src))
unfolding refill
refill-fill fuel src e l =
    let k = compact-Kept src in
    rw
      (
        Kept.eof_kept k ∙ e,
        lt→ltb (length (compact src).inn_buf) (compact src).cap
            (omega (arith, Kept.no_longer k, Kept.cap_kept k, l)),
      )
      refl

-- Where the buffer holds no more than it has room for, the refill calls itself at most once.
pub refill-ends : (src : Source) → length src.inn_buf ≤ src.cap → refill 2 src ≢ out_of_fuel
unfolding refill
refill-ends src h =
    if_both P (ltb (length kept.inn_buf) kept.cap && not kept.is_eof) (λ _ e. absurd cc)
      (λ _.
        if_both P kept.need_more
          (λ _.
            if_both P kept.is_eof (λ _ e. absurd cc)
              (λ f.
                if_both P (ltb 0xFFFFFF (count kept)) (λ _ e. absurd cc)
                  (λ _.
                    subst P
                      (sym (
                        refill-fill 0 (record kept { need_more = false; cap = kept.cap + 4096 }) f
                          (omega (arith, Kept.no_longer k, Kept.cap_kept k, h))))
                      (λ e. absurd cc))))
          (λ _ e. absurd cc))
  where
    P : Refilled → Type 0
    P r = r ≢ out_of_fuel

    kept : Source
    kept = compact src

    k : Kept src (compact src)
    k = compact-Kept src
