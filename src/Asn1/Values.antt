-- ===== src/Asn1/Values.antt =====
-- The values of src/main/c/foo/Asn1Digger.c: a value of any length is dumped whole, chunk by chunk.
use unspecified_garbage.Common.{
  ℕ, zero, suc, ◌-◌, ◌^◌, ◌≤◌, ◌<◌, ◌≡◌, ◌≢◌, ◌∙◌, refl, sym, ap, arith, Bool, false, [], ◌∷◌, ◌++◌,
  Bytes, length, length-append, length-drop, take, drop, take-append_le, drop-append_le,
  take-append-drop, min, append-nil,
}
use mathlib.Core.Path.{subst}
use native.Mathlib.Decide.{dec_le}
use unspecified_garbage.Asn1.State.{
  AsnDigger, FuncToCall, func_asn_type, func_hex_dump_read_chunk, func_hex_dump_dump_from_buf, done,
}
use unspecified_garbage.Asn1.Dump.{hex_dump_read_chunk, hex_dump_dump_from_buf, dumped, inn_buf_cap}
use unspecified_garbage.Asn1.Frame.{Frame, dumped-Frame}
use unspecified_garbage.Asn1.Loop.{call}
use unspecified_garbage.Asn1.Views.{Shows, Shows-trans, dumped-Shows, dumped-asci}
use unspecified_garbage.Asn1.Runs.{Runs, stop, more, Runs-trans}

-- The value `payload` is next to be read, and `rest` behind it.
pub record Reads (app : AsnDigger) (payload rest : Bytes) : Type 0 where
  pub func : app.func_to_call ≡ func_hex_dump_read_chunk
  pub not_eof : app.inn_is_eof ≡ false
  pub remain : app.remain_value_bytes ≡ length payload
  pub inp : app.inp ≡ payload ++ rest
  pub asci : app.asci ≡ []

-- The value has been read and shown, and the next tag is to be read.
pub record Consumed (app app' : AsnDigger) (payload rest : Bytes) : Type 0 where
  pub shows : Shows app app' payload
  pub func : app'.func_to_call ≡ func_asn_type
  pub not_eof : app'.inn_is_eof ≡ false
  pub inp : app'.inp ≡ rest
  pub asci : app'.asci ≡ []

-- The digger behind the read of a chunk.
abbrev chunk_read : AsnDigger → Bytes → Bytes → ℕ → AsnDigger
chunk_read app payload rest n = record app {
  inn_buf = take n payload;
  inp = drop n payload ++ rest;
  remain_value_bytes = length payload - n;
  func_to_call = func_hex_dump_dump_from_buf;
}

read_chunk_done :
    (broken : Bool) (app : AsnDigger) (payload rest : Bytes)
    → Reads app payload rest
    → 0 < length payload
    → length payload < 2 ^ 31
    → hex_dump_read_chunk broken app
      ≡ done (chunk_read app payload rest (min (length payload) inn_buf_cap))
unfolding hex_dump_read_chunk
read_chunk_done broken app payload rest r h k =
    let n = min (length payload) 32768 in
    ground (
      arith,
      r.remain,
      r.inp,
      length-append payload rest,
      take-append_le (min (length payload) 32768) payload rest (omega arith),
      drop-append_le (min (length payload) 32768) payload rest (omega arith),
    )

call_read :
    (broken : Bool) (app : AsnDigger)
    → app.func_to_call ≡ func_hex_dump_read_chunk
    → call broken app.func_to_call app ≡ hex_dump_read_chunk broken app
unfolding call
call_read broken app e = ap (λ f. call broken f app) e

-- The digger behind the dump of a chunk.
abbrev chunk_dumped : AsnDigger → Bytes → Bytes → ℕ → FuncToCall → AsnDigger
chunk_dumped app payload rest n f = record (dumped (chunk_read app payload rest n)) {
  func_to_call = f;
}

chunk_Shows :
    (app : AsnDigger) (payload rest : Bytes) (n : ℕ) (f : FuncToCall)
    → Shows app (chunk_dumped app payload rest n f) (take n payload)
chunk_Shows app payload rest n f =
    let s = dumped-Shows (chunk_read app payload rest n) in
    record { hexes_of = s.hexes_of; shown_of = s.shown_of; tags_of = s.tags_of }

dump_last :
    (broken : Bool) (app : AsnDigger)
    → app.remain_value_bytes ≡ 0
    → hex_dump_dump_from_buf app ≡ done (record (dumped app) { func_to_call = func_asn_type })
unfolding hex_dump_dump_from_buf
dump_last broken app e = ground arith

dump_more :
    (broken : Bool) (app : AsnDigger)
    → app.remain_value_bytes ≢ 0
    → hex_dump_dump_from_buf app
      ≡ done (record (dumped app) { func_to_call = func_hex_dump_read_chunk })
unfolding hex_dump_dump_from_buf
dump_more broken app e = ground arith

-- One chunk: the read and the dump.
chunk_Runs :
    (broken : Bool) (app : AsnDigger) (payload rest : Bytes) (f : FuncToCall)
    → Reads app payload rest
    → 0 < length payload
    → length payload < 2 ^ 31
    → hex_dump_dump_from_buf (chunk_read app payload rest (min (length payload) inn_buf_cap))
      ≡ done (chunk_dumped app payload rest (min (length payload) inn_buf_cap) f)
    → Runs broken app (chunk_dumped app payload rest (min (length payload) inn_buf_cap) f)
unfolding call
chunk_Runs broken app payload rest f r h k d =
    more r.not_eof (call_read broken app r.func ∙ read_chunk_done broken app payload rest r h k)
      (more r.not_eof d stop)

module _ (broken : Bool) where
  last_chunk :
      (app : AsnDigger) (payload rest : Bytes)
      → Reads app payload rest
      → 0 < length payload
      → length payload < 2 ^ 31
      → length payload ≤ inn_buf_cap
      → (app' : AsnDigger) × Runs broken app app' × Consumed app app' payload rest
  last_chunk app payload rest r h k small = (
    chunk_dumped app payload rest n func_asn_type,
    chunk_Runs broken app payload rest func_asn_type r h k
        (dump_last broken (chunk_read app payload rest n) (omega arith)),
    record {
      shows =
          subst (λ bs. Shows app (chunk_dumped app payload rest n func_asn_type) bs) whole
            (chunk_Shows app payload rest n func_asn_type);
      func = refl;
      not_eof = frame.inn_is_eof ∙ r.not_eof;
      inp = frame.inp ∙ ap (λ bs. bs ++ rest) none_left;
      asci = dumped-asci (chunk_read app payload rest n);
    },
  )
    where
      n : ℕ
      n = min (length payload) inn_buf_cap

      frame : Frame (chunk_read app payload rest n) (dumped (chunk_read app payload rest n))
      frame = dumped-Frame (chunk_read app payload rest n)

      length_zero : (bs : Bytes) → length bs ≡ 0 → bs ≡ []
      length_zero [] e = refl
      length_zero (x ∷ xs) e = absurd (omega arith)

      none_left : drop n payload ≡ []
      none_left = length_zero _ (omega (arith, length-drop n payload))

      whole : take n payload ≡ payload
      whole =
          sym (append-nil _)
          ∙ ap (λ bs. take n payload ++ bs) (sym none_left)
          ∙ take-append-drop n payload

  next_Reads :
      (app : AsnDigger) (payload rest : Bytes)
      → Reads app payload rest
      → Reads
          (chunk_dumped app payload rest
            (min (length payload) inn_buf_cap)
            func_hex_dump_read_chunk)
          (drop (min (length payload) inn_buf_cap) payload)
          rest
  next_Reads app payload rest r =
      let n = min (length payload) inn_buf_cap in
      let frame = dumped-Frame (chunk_read app payload rest n) in
      record {
        func = refl;
        not_eof = frame.inn_is_eof ∙ r.not_eof;
        remain = frame.remain ∙ sym (length-drop n payload);
        inp = frame.inp;
        asci = dumped-asci (chunk_read app payload rest n);
      }

  join_Consumed :
      (app app₁ app₂ : AsnDigger) (payload rest : Bytes) (n : ℕ)
      → Shows app app₁ (take n payload)
      → Consumed app₁ app₂ (drop n payload) rest
      → Consumed app app₂ payload rest
  join_Consumed app app₁ app₂ payload rest n s c = record {
    shows =
        subst (λ bs. Shows app app₂ bs) (take-append-drop n payload)
          (Shows-trans (take n payload) (drop n payload) s c.shows);
    func = c.func;
    not_eof = c.not_eof;
    inp = c.inp;
    asci = c.asci;
  }

  pub value_Runs :
      (k : ℕ) (app : AsnDigger) (payload rest : Bytes)
      → Reads app payload rest
      → 0 < length payload
      → length payload < 2 ^ 31
      → length payload ≤ k
      → (app' : AsnDigger) × Runs broken app app' × Consumed app app' payload rest
  value_Runs zero app payload rest r h m e = absurd (omega arith)
  value_Runs (suc k) app payload rest r h m e = elim (dec_le (length payload) inn_buf_cap) [
    | yes small ↦ last_chunk app payload rest r h m small
    | no big ↦
        let n = min (length payload) inn_buf_cap in
        let app₁ = chunk_dumped app payload rest n func_hex_dump_read_chunk in
        let left = length-drop n payload in
        let (app₂, runs, c) =
          value_Runs k app₁ (drop n payload) rest (next_Reads app payload rest r) (omega arith)
            (omega arith) (omega arith) in
        (
          app₂,
          Runs-trans
              (chunk_Runs broken app payload rest func_hex_dump_read_chunk r h m
                (dump_more broken (chunk_read app payload rest n) (omega arith)))
              runs,
          join_Consumed app app₁ app₂ payload rest n
              (chunk_Shows app payload rest n func_hex_dump_read_chunk) c,
        )
  ]
