-- ===== src/Snapshot/Encoding.antt =====
-- The protobuf encoding of entries and DBIs: snapshot/kv.go and snapshot/dbi.go. The growth of the
-- buffer is not modelled.
pub mod Fields
pub mod Messages
pub mod RoundTrip
mod Tests
use lightningstream.Base.{
  ℕ, zero, suc, ◌+◌, ◌-◌, ◌*◌, ◌/◌, ◌%◌, ◌^◌, Bool, true, false, not, ◌&&◌, ltb, leb, ◌==◌,
  if◌then◌else◌, length, drop, take, replicate, List, [], ◌∷◌, ◌++◌,
}
use lightningstream.Base.Bytes.{Bytes, put_le, get_le}
use lightningstream.Base.Result.{Result, ok, err, too_short, end_of_data, panic, out_of_fuel, ◌>>=◌}
use lightningstream.Snapshot.{Kv}
use lightningstream.Snapshot.Wire.{
  Csproto, wire_varint, wire_fixed64, wire_length_delimited, expect_wt, slice_from, is_negative,
  encode_tag, skip_tag, read_bytes,
}

-- The numbers of the fields of a KV and of a DBI, and `TagSize0To15`.
abbrev pub field_kv_key : ℕ
field_kv_key = 1

abbrev pub field_kv_value : ℕ
field_kv_value = 2

abbrev pub field_kv_timestamp_nano : ℕ
field_kv_timestamp_nano = 3

abbrev pub field_kv_flags : ℕ
field_kv_flags = 4

abbrev pub field_dbi_name : ℕ
field_dbi_name = 1

abbrev pub field_dbi_entries : ℕ
field_dbi_entries = 2

abbrev pub field_dbi_flags : ℕ
field_dbi_flags = 3

abbrev pub field_dbi_transform : ℕ
field_dbi_transform = 4

abbrev pub tag_size_0_to_15 : ℕ
tag_size_0_to_15 = 1

module _ (p : Csproto) where
  -- `msgSize` of `Append`
  unfoldable pub msg_size : Kv → ℕ
  msg_size kv =
      (if ltb 0 (length kv.key)
        then tag_size_0_to_15 + p.size_of_varint (length kv.key) + length kv.key
        else 0)
      + (if ltb 0 (length kv.value)
          then tag_size_0_to_15 + p.size_of_varint (length kv.value) + length kv.value
          else 0)
      + (if ltb 0 kv.flags then tag_size_0_to_15 + p.size_of_varint kv.flags else 0)
      + (if ltb 0 kv.timestamp_nano then tag_size_0_to_15 + 8 else 0)

  abbrev pub bytes_field : ℕ → Bytes → Bytes
  bytes_field tag b = encode_tag p tag wire_length_delimited ++ (p.encode_varint (length b) ++ b)

  abbrev pub varint_field : ℕ → ℕ → Bytes
  varint_field tag v = encode_tag p tag wire_varint ++ p.encode_varint v

  -- "Then write the actual KV fields"
  unfoldable pub kv_bytes : Kv → Bytes
  kv_bytes kv =
      (if ltb 0 (length kv.key) then bytes_field field_kv_key kv.key else [])
      ++ ((if ltb 0 (length kv.value) then bytes_field field_kv_value kv.value else [])
          ++ ((if ltb 0 kv.flags then varint_field field_kv_flags kv.flags else [])
              ++ (if ltb 0 kv.timestamp_nano
                  then encode_tag p field_kv_timestamp_nano wire_fixed64
                    ++ put_le 8 kv.timestamp_nano
                  else [])))

  -- What `Append` writes behind the data: the room is computed first, and holds zeros.
  unfoldable pub append_bytes : Kv → Result Bytes
  unfolding msg_size kv_bytes
  append_bytes kv =
      let size = msg_size kv in
      let outer_size = tag_size_0_to_15 + p.size_of_varint size + size in
      let written =
        encode_tag p field_dbi_entries wire_length_delimited
        ++ (p.encode_varint size ++ kv_bytes kv) in
      if size == 0
      then ok []
      else if ltb outer_size (length written)
      then err panic
      else ok (written ++ replicate (outer_size - length written) 0)

  -- One field of `KV.Unmarshal`, behind its tag: the number of bytes read, and the entry.
  unfoldable pub kv_value : ℕ → ℕ → Bytes → Kv → Result (ℕ × Kv)
  unfolding expect_wt read_bytes skip_tag
  kv_value tag wire_type buf kv =
      if tag == field_kv_key
      then (do
        right ← expect_wt wire_type wire_length_delimited
        (b, n) ← read_bytes p buf
        ok (n, record kv { key = b }))
      else if tag == field_kv_value
      then (do
        right ← expect_wt wire_type wire_length_delimited
        (b, n) ← read_bytes p buf
        ok (n, record kv { value = b }))
      else if tag == field_kv_flags
      then (do
        right ← expect_wt wire_type wire_varint
        (v, n) ← p.decode_varint buf
        ok (n, record kv { flags = v % 2 ^ 32 }))
      else if tag == field_kv_timestamp_nano
      then (do
        right ← expect_wt wire_type wire_fixed64
        if ltb (length buf) 8
            then err too_short
            else ok (8, record kv { timestamp_nano = get_le (take 8 buf) }))
      else (do n ← skip_tag p buf wire_type; ok (n, kv))

  unfoldable pub kv_field : Bytes → Kv → Result (ℕ × Kv)
  kv_field buf kv = do
    (v, n) ← p.decode_varint buf
    (m, kv') ← kv_value (v / 8) (v % 8) (drop n buf) kv
    ok ((n + m) % 2 ^ 64, kv')

  -- The loop of `KV.Unmarshal`; it ends where the offset is at the end of the data.
  unfoldable pub unmarshal_loop : ℕ → Bytes → ℕ → Kv → Result Kv
  unmarshal_loop zero buf offset kv = err out_of_fuel
  unmarshal_loop (suc fuel) buf offset kv = do
    rest ← slice_from buf offset
    (n, kv') ← kv_field rest kv
    let offset' = (offset + n) % 2 ^ 64
    if offset' == length buf then ok kv' else unmarshal_loop fuel buf offset' kv'

  abbrev pub no_kv : Kv
  no_kv = record { key = []; value = []; timestamp_nano = 0; flags = 0 }

  -- `KV.Unmarshal`, on an entry without any field set. Every field has a tag, so there are no more
  -- fields than bytes, unless a length leads backwards.
  unfoldable pub unmarshal : Bytes → Result Kv
  unfolding unmarshal_loop
  unmarshal buf = unmarshal_loop (length buf + 1) buf 0 no_kv
