-- ===== src/Merge/Source.antt =====
-- src/main/paisa/LogMerge.c: one log file; `refillBufferForSourceByArg` and
-- `markLogEntryForSourceByArg`.
use unspecified_garbage.Common.{
  ℕ, zero, suc, ◌+◌, ◌-◌, Bool, true, false, not, ◌&&◌, ◌++◌, none, some, ltb, if◌then◌else◌, Bytes,
  length, take, drop,
}
use unspecified_garbage.Merge.Pattern.{find_log_begin}

-- `inn_buf` is `innBuf` up to `innBuf_end`; `unread` is what is left in the file.
pub record Source : Type 0 where
  pub is_eof : Bool
  pub need_more : Bool
  pub is_no_more_entries : Bool
  pub inn_buf : Bytes
  pub beg : ℕ
  pub cap : ℕ
  pub log_beg : ℕ
  pub log_end : ℕ
  pub unread : Bytes

-- Done, with an entry that is too long, at a failed assert, or still growing the buffer when the fuel
-- is used up.
pub data Refilled : Type 0 where
  done : Source → Refilled
  too_long aborted out_of_fuel : Refilled

abbrev pub count : Source → ℕ
count src = length src.inn_buf - src.beg

-- The entries that were consumed make room. The indices stay 0 where they are.
unfoldable pub compact : Source → Source
compact src =
    if ltb (count src) src.beg && ltb 0 (count src)
    then record src {
      inn_buf = drop src.beg src.inn_buf;
      log_beg = src.log_beg - src.beg;
      log_end = src.log_end - src.beg;
      beg = 0;
    }
    else src

-- `fread` up to the end of the buffer. A read error is not modelled.
unfoldable pub fill : Source → Source
fill src =
    let n = src.cap - length src.inn_buf in
    record src {
      inn_buf = src.inn_buf ++ take n src.unread;
      unread = drop n src.unread;
      is_eof = ltb (length src.unread) n;
    }

unfoldable pub refill : ℕ → Source → Refilled
unfolding compact fill
refill zero src = out_of_fuel
refill (suc fuel) src =
    let kept = compact src in
    let again = refill fuel (record kept { need_more = false; cap = kept.cap + 4096 }) in
    if ltb (length kept.inn_buf) kept.cap && not kept.is_eof
    then done (fill kept)
    else if kept.need_more
    then (if kept.is_eof then aborted else if ltb 0xFFFFFF (count kept) then too_long else again)
    else done kept

-- The end of the entry that begins at `log_beg`, looked for from the byte behind that.
unfoldable pub mark_end : Source → ℕ → Source
unfolding find_log_begin
mark_end src n = elim (find_log_begin false (drop (suc n) src.inn_buf)) [
  | none ↦
      if src.is_eof
      then record src { log_beg = n; log_end = length src.inn_buf - 1 }
      else record src { log_beg = n; need_more = true }
  | some m ↦ record src { log_beg = n; log_end = n + m }
]

unfoldable pub mark_log_entry : Source → Source
unfolding mark_end
mark_log_entry src = elim (find_log_begin true (drop src.beg src.inn_buf)) [
  | none ↦
      if src.is_eof
      then record src { is_no_more_entries = true }
      else record src { need_more = true }
  | some n ↦ mark_end src (src.beg + n)
]
