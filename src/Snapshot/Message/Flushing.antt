-- ===== src/Snapshot/Message/Flushing.antt =====
-- What `doFlushFields` writes, and the data of a DBI whose fields are set before its entries.
use mathlib.Core.List.{append-nil, append_assoc}
use lightningstream.Base.{
  ℕ, ◌+◌, ◌-◌, ◌*◌, ◌^◌, ◌<◌, ◌≤◌, ◌≡◌, sym, ap, ◌∙◌, subst, arith, true, false, ltb, if◌then◌else◌,
  length, take_all, [], ◌++◌, length-append, inl, inr, Bool-cases,
}
use lightningstream.Base.Bytes.{Bytes}
use lightningstream.Base.Result.{ok, ◌>>=◌}
use lightningstream.Snapshot.{Kv}
use lightningstream.Snapshot.Wire.{Csproto, IsVarint, encode_tag}
use lightningstream.Snapshot.Encoding.{bytes_field, varint_field, append_bytes}
use lightningstream.Snapshot.Chain.{concat, concat-one_if, concat_more}
use lightningstream.Snapshot.Message.{
  DbiMessage, put_varint, put_copy, put_bytes, do_flush_fields, flush_fields, append,
}
use lightningstream.Snapshot.Message.Indexing.{top_fields}

put_varint_lem : (w v : Bytes) → length w + length v ≤ 1000 → put_varint w v ≡ ok (w ++ v)
unfolding put_varint
put_varint_lem w v h = ground arith

put_copy_lem : (w b : Bytes) → length w + length b ≤ 1000 → put_copy w b ≡ w ++ b
put_copy_lem w b h = ap (λ x. w ++ x) (take_all (1000 - length w) b (omega arith))

module _ (p : Csproto) (laws : IsVarint p) where
  put_bytes_lem :
      (tag : ℕ) (b w : Bytes)
      → tag < 16
      → length w + length b + 20 ≤ 1000
      → put_bytes p tag b w ≡ ok (w ++ (if ltb 0 (length b) then bytes_field p tag b else []))
  unfolding put_bytes
  put_bytes_lem tag b w h1 h2 = elim (Bool-cases (ltb 0 (length b))) [
    | inl t ↦
        let tg = encode_tag p tag 2 in
        let size = p.encode_varint (length b) in
        let one = laws.one_byte (tag * 8 + 2) (omega arith) in
        let ten = laws.ten_bytes (length b) (omega arith) in
        rw
          (
            t,
            put_varint_lem w tg (omega (arith, one)),
            put_varint_lem (w ++ tg) size (omega (arith, one, ten, length-append w tg)),
            put_copy_lem ((w ++ tg) ++ size) b
                (omega (arith, one, ten, length-append w tg, length-append (w ++ tg) size)),
          )
          (ap ok (append_assoc (w ++ tg) size b ∙ append_assoc w tg (size ++ b)))
    | inr f ↦ rw (f) (ap ok (sym (append-nil w)))
  ]

  put_flags :
      (v : ℕ) (w : Bytes)
      → v < 2 ^ 64
      → length w ≤ 900
      → (if ltb 0 v
          then (put_varint w (encode_tag p 3 0) >>= λ t. put_varint t (p.encode_varint v))
          else ok w)
        ≡ ok (w ++ (if ltb 0 v then varint_field p 3 v else []))
  put_flags v w h1 h2 = elim (Bool-cases (ltb 0 v)) [
    | inl t ↦
        let tg = encode_tag p 3 0 in
        let one = laws.one_byte 24 (omega arith) in
        let ten = laws.ten_bytes v h1 in
        rw
          (
            t,
            put_varint_lem w tg (omega (arith, one)),
            put_varint_lem (w ++ tg) (p.encode_varint v)
                (omega (arith, one, ten, length-append w tg)),
          )
          (ap ok (append_assoc w tg (p.encode_varint v)))
    | inr f ↦ rw (f) (ap ok (sym (append-nil w)))
  ]

  length-bytes_if :
      (tag : ℕ) (b : Bytes)
      → tag < 16
      → length b < 1000
      → length (if ltb 0 (length b) then bytes_field p tag b else []) ≤ length b + 11
  length-bytes_if tag b h1 h2 = elim (Bool-cases (ltb 0 (length b))) [
    | inl t ↦ rw (t) (
        omega (
          arith,
          laws.one_byte (tag * 8 + 2) (omega arith),
          laws.ten_bytes (length b) (omega arith),
          length-append (encode_tag p tag 2) (p.encode_varint (length b) ++ b),
          length-append (p.encode_varint (length b)) b,
        ))
    | inr f ↦ rw (f) (omega arith)
  ]

  length-flags_if : (v : ℕ) → v < 2 ^ 64 → length (if ltb 0 v then varint_field p 3 v else []) ≤ 11
  length-flags_if v h = elim (Bool-cases (ltb 0 v)) [
    | inl t ↦ rw (t) (
        omega (
          arith,
          laws.one_byte 24 (omega arith),
          laws.ten_bytes v h,
          length-append (encode_tag p 3 0) (p.encode_varint v),
        ))
    | inr f ↦ rw (f) (omega arith)
  ]

  -- The fields of a DBI fit the buffer of `doFlushFields`.
  pub record FieldsFit (d : DbiMessage) : Type 0 where
    pub sizes : length d.name + length d.transform ≤ 800
    pub flags : d.flags < 2 ^ 64

  concat-top_fields :
      (d : DbiMessage)
      → ((if ltb 0 (length d.name) then bytes_field p 1 d.name else [])
            ++ (if ltb 0 d.flags then varint_field p 3 d.flags else []))
          ++ (if ltb 0 (length d.transform) then bytes_field p 4 d.transform else [])
        ≡ concat (top_fields p laws d)
  concat-top_fields d =
      let name = if ltb 0 (length d.name) then bytes_field p 1 d.name else [] in
      let flags = if ltb 0 d.flags then varint_field p 3 d.flags else [] in
      let transform = if ltb 0 (length d.transform) then bytes_field p 4 d.transform else [] in
      append_assoc name flags transform
      ∙ sym (
          concat_more (ltb 0 (length d.name)) _ _ _ (
            concat_more (ltb 0 d.flags) _ _ _
              (concat-one_if (ltb 0 (length d.transform)) (bytes_field p 4 d.transform))))

  do_flush_fields_lem :
      (d : DbiMessage)
      → FieldsFit d
      → do_flush_fields p d ≡ ok (record d { buffer = d.buffer ++ concat (top_fields p laws d) })
  unfolding do_flush_fields
  do_flush_fields_lem d fit =
      let name = if ltb 0 (length d.name) then bytes_field p 1 d.name else [] in
      let flags = if ltb 0 d.flags then varint_field p 3 d.flags else [] in
      let n1 = length-bytes_if 1 d.name (omega arith) (omega (arith, fit.sizes)) in
      let n2 = length-flags_if d.flags fit.flags in
      rw
        (
          put_bytes_lem 1 d.name [] (omega arith) (omega (arith, fit.sizes)),
          put_flags d.flags name fit.flags (omega (arith, n1, fit.sizes)),
          put_bytes_lem 4 d.transform (name ++ flags) (omega arith)
              (omega (arith, n1, n2, fit.sizes, length-append name flags)),
        )
        (ap (λ b. ok (record d { buffer = d.buffer ++ b })) (concat-top_fields d))

  abbrev pub flushed : DbiMessage → DbiMessage
  flushed d = record d {
    buffer = d.buffer ++ concat (top_fields p laws d);
    dirty = false;
    flushed = true;
  }

  pub flush_fields_lem :
      (d : DbiMessage) → d.dirty ≡ true → FieldsFit d → flush_fields p d ≡ ok (flushed d)
  unfolding flush_fields
  flush_fields_lem d dirty fit = rw (dirty) (
      do_flush_fields_lem (record d { flushed = true; dirty = false })
        (record { sizes = fit.sizes; flags = fit.flags }))

  -- An `Append` to a DBI whose fields are not flushed flushes them.
  pub append-flushed :
      (d : DbiMessage) (kv : Kv)
      → d.dirty ≡ true
      → FieldsFit d
      → append p d kv ≡ append p (flushed d) kv
  unfolding append
  append-flushed d kv dirty fit =
      let inner : (if d.dirty then flush_fields p d else ok d) ≡ ok (flushed d) =
        subst (λ b. (if b then flush_fields p d else ok d) ≡ ok (flushed d)) (sym dirty)
          (flush_fields_lem d dirty fit) in
      ap
        (λ r. r >>= λ d'. append_bytes p kv >>= λ written. ok (record d' {
          buffer = d'.buffer ++ written;
          num_written_entries = d'.num_written_entries + 1;
        }))
        inner
