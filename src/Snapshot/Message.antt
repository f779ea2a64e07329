-- ===== src/Snapshot/Message.antt =====
-- snapshot/dbi.go: a DBI as its protobuf message, to which `Append` adds entries and from which
-- `Next` reads them. The capacity of the buffer is not modelled.
pub mod Reading
pub mod Listing
pub mod Indexing
pub mod Flushing
pub mod Skipping
pub mod RoundTrip
mod Tests
use lightningstream.Base.{
  ℕ, zero, suc, ◌+◌, ◌-◌, ◌/◌, ◌%◌, ◌^◌, Bool, true, false, not, ◌&&◌, ◌||◌, ltb, leb, ◌==◌,
  if◌then◌else◌, length, drop, take, List, [], ◌∷◌, ◌++◌,
}
use lightningstream.Base.Bytes.{Bytes}
use lightningstream.Base.Result.{
  Result, ok, err, Error, end_of_data, panic, out_of_fuel, too_short, ◌>>=◌,
}
use lightningstream.Snapshot.{Kv}
use lightningstream.Snapshot.Wire.{
  Csproto, wire_varint, wire_length_delimited, expect_wt, slice_from, is_negative, encode_tag,
  skip_tag, read_bytes,
}
use lightningstream.Snapshot.Encoding.{
  field_dbi_name, field_dbi_entries, field_dbi_flags, field_dbi_transform, append_bytes, unmarshal,
}

pub record DbiMessage : Type 0 where
  pub name : Bytes
  pub flags : ℕ
  pub transform : Bytes
  pub buffer : Bytes
  pub dirty : Bool
  pub flushed : Bool
  pub cur : ℕ
  pub num_written_entries : ℕ

abbrev pub new_dbi : DbiMessage
new_dbi = record {
  name = [];
  flags = 0;
  transform = [];
  buffer = [];
  dirty = false;
  flushed = false;
  cur = 0;
  num_written_entries = 0;
}

unfoldable pub set_name : DbiMessage → Bytes → Result DbiMessage
set_name d s = if d.flushed then err panic else ok (record d { name = s; dirty = true })

unfoldable pub set_flags : DbiMessage → ℕ → Result DbiMessage
set_flags d v = if d.flushed then err panic else ok (record d { flags = v; dirty = true })

unfoldable pub set_transform : DbiMessage → Bytes → Result DbiMessage
set_transform d s = if d.flushed then err panic else ok (record d { transform = s; dirty = true })

abbrev pub reset_cursor : DbiMessage → DbiMessage
reset_cursor d = record d { cur = 0 }

-- `b` of `doFlushFields`
abbrev pub flush_room : ℕ
flush_room = 1000

-- What `EncodeTag` and `EncodeVarint` write behind the bytes `written` of the buffer, and what
-- `copy` does, which stops at the end of the buffer.
unfoldable pub put_varint : Bytes → Bytes → Result Bytes
put_varint written v =
    if ltb flush_room (length written + length v) then err panic else ok (written ++ v)

abbrev pub put_copy : Bytes → Bytes → Bytes
put_copy written b = written ++ take (flush_room - length written) b

-- The test `offset >= len(data)` of a Go `int`.
abbrev pub at_end : Bytes → ℕ → Bool
at_end buffer offset = leb (length buffer) offset && not (is_negative offset)

unfoldable pub is_end_of_data : Error → Bool
is_end_of_data end_of_data = true
is_end_of_data e = false

module _ (p : Csproto) where
  unfoldable pub put_bytes : ℕ → Bytes → Bytes → Result Bytes
  unfolding put_varint
  put_bytes tag b written =
      if ltb 0 (length b)
      then (do
        tagged ← put_varint written (encode_tag p tag wire_length_delimited)
        sized ← put_varint tagged (p.encode_varint (length b))
        ok (put_copy sized b))
      else ok written

  -- `doFlushFields`
  unfoldable pub do_flush_fields : DbiMessage → Result DbiMessage
  unfolding put_bytes put_varint
  do_flush_fields d = do
    b ← put_bytes field_dbi_name d.name []
    b' ←
        (if ltb 0 d.flags
          then (do
            tagged ← put_varint b (encode_tag p field_dbi_flags wire_varint)
            put_varint tagged (p.encode_varint d.flags))
          else ok b)
    b'' ← put_bytes field_dbi_transform d.transform b'
    ok (record d { buffer = d.buffer ++ b'' })

  unfoldable pub flush_fields : DbiMessage → Result DbiMessage
  unfolding do_flush_fields
  flush_fields d =
      if d.dirty
      then do_flush_fields (record d { flushed = true; dirty = false })
      else ok (record d { flushed = true })

  unfoldable pub marshal : DbiMessage → Result (DbiMessage × Bytes)
  unfolding flush_fields
  marshal d = do d' ← flush_fields d; ok (d', d'.buffer)

  -- `Append`; the fields are flushed where they have been set since.
  unfoldable pub append : DbiMessage → Kv → Result DbiMessage
  unfolding flush_fields append_bytes
  append d kv = do
    d' ← (if d.dirty then flush_fields d else ok d)
    written ← append_bytes p kv
    ok (record d' {
      buffer = d'.buffer ++ written;
      num_written_entries = d'.num_written_entries + 1;
    })

  -- The loop of `Next` to the next entry: its wire type, and the offset behind its tag.
  unfoldable pub find_entry : ℕ → Bytes → ℕ → Result (ℕ × ℕ)
  find_entry zero buffer offset = err out_of_fuel
  find_entry (suc fuel) buffer offset = if at_end buffer offset then err end_of_data else (do
    rest ← slice_from buffer offset
    (v, n) ← p.decode_varint rest
    if v / 8 == field_dbi_entries then ok (v % 8, offset + n) else (do
      m ← skip_tag p (drop n rest) (v % 8)
      find_entry fuel buffer ((offset + n + m) % 2 ^ 64)))

  -- `Next` to where it moves the cursor: the bytes of the entry, and the cursor.
  unfoldable pub next_bytes : DbiMessage → Result (Bytes × ℕ)
  unfolding find_entry
  next_bytes d = do
    (wire_type, offset) ← find_entry (suc (length d.buffer)) d.buffer d.cur
    right ← expect_wt wire_type wire_length_delimited
    rest ← slice_from d.buffer offset
    (b, n) ← read_bytes p rest
    ok (b, offset + n)

  -- `Next`
  unfoldable pub next : DbiMessage → DbiMessage × Result Kv
  unfolding next_bytes
  next d = elim (next_bytes d) [
    | err e ↦ (d, err e)
    | ok (b, offset) ↦ (record d { cur = offset }, unmarshal p b)
  ]

  -- The loop of `AsInefficientKVList`, to the end of the data.
  unfoldable pub kv_list : ℕ → DbiMessage → Result (List Kv)
  kv_list zero d = err out_of_fuel
  kv_list (suc fuel) d =
      let (d', r) = next d in
      elim r [
        | err e ↦ if is_end_of_data e then ok [] else err e
        | ok kv ↦ (do kvs ← kv_list fuel d'; ok (kv ∷ kvs))
      ]

  unfoldable pub as_inefficient_kv_list : DbiMessage → Result (List Kv)
  unfolding kv_list
  as_inefficient_kv_list d = kv_list (suc (length d.buffer)) (reset_cursor d)

  -- One field of `indexData`, behind its tag, in `buf`; an unknown field is skipped by the length
  -- of what stands at the beginning of the data.
  unfoldable pub index_field : ℕ → ℕ → Bytes → DbiMessage → Result (ℕ × DbiMessage)
  index_field tag wire_type buf d =
      if tag == field_dbi_entries || (tag == field_dbi_name || tag == field_dbi_transform)
      then (do
        right ← expect_wt wire_type wire_length_delimited
        (b, n) ← read_bytes p buf
        if tag == field_dbi_entries
            then ok (n, d)
            else if tag == field_dbi_name
            then ok (n, record d { name = b })
            else ok (n, record d { transform = b }))
      else if tag == field_dbi_flags
      then (do
        right ← expect_wt wire_type wire_varint
        (v, n) ← p.decode_varint buf
        ok (n, record d { flags = v }))
      else (do n ← skip_tag p d.buffer wire_type; ok (n, d))

  -- A field with its tag: the number of bytes read, and the DBI.
  unfoldable pub index_front : Bytes → DbiMessage → Result (ℕ × DbiMessage)
  unfolding index_field
  index_front rest d = do
    (v, n) ← p.decode_varint rest
    (m, d') ← index_field (v / 8) (v % 8) (drop n rest) d
    ok ((n + m) % 2 ^ 64, d')

  unfoldable pub index_loop : ℕ → ℕ → DbiMessage → Result DbiMessage
  index_loop zero offset d = err out_of_fuel
  index_loop (suc fuel) offset d = if at_end d.buffer offset then ok d else (do
    rest ← slice_from d.buffer offset
    (n, d') ← index_front rest d
    index_loop fuel ((offset + n) % 2 ^ 64) d')

  -- `indexData`
  unfoldable pub index_data : DbiMessage → Result DbiMessage
  unfolding index_loop index_front
  index_data d = index_loop (suc (length d.buffer)) 0 (record d { flushed = true })

  -- `NewDBIFromData`
  unfoldable pub new_dbi_from_data : Bytes → Result DbiMessage
  unfolding index_data
  new_dbi_from_data buffer = index_data (record new_dbi { buffer = buffer; flushed = true })
