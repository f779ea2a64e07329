-- ===== src/Snapshot/Encoding/Tests.antt =====
-- Runs of the encoding of snapshot/kv.go.
use lightningstream.Base.{◌≡◌, refl, arith, false, ◌==◌, if◌then◌else◌, length, [], ◌∷◌, ◌++◌}
use lightningstream.Base.Bytes.{Bytes}
use lightningstream.Base.Result.{ok, err, too_short, wrong_wire_type}
use lightningstream.Snapshot.{Kv}
use lightningstream.Snapshot.Groups.{groups, groups-IsVarint, encode_groups, decode_groups}
use lightningstream.Snapshot.Wire.{encode_tag, slice_from}
use lightningstream.Snapshot.Encoding.{
  msg_size, kv_bytes, append_bytes, unmarshal, kv_field, kv_value,
}
use lightningstream.Snapshot.Encoding.Messages.{Fits}
use lightningstream.Snapshot.Encoding.RoundTrip.{unmarshal-kv_bytes, append_bytes-exact}

abbrev entry : Kv
entry = record { key = 7 ∷ 8 ∷ []; value = 9 ∷ []; timestamp_nano = 300; flags = 200 }

entry-Fits : Fits entry
entry-Fits = record {
  key = omega arith;
  value = omega arith;
  timestamp_nano = omega arith;
  flags = omega arith;
}

abbrev encoded : Bytes
encoded = 10 ∷ 2 ∷ 7 ∷ 8 ∷ 18 ∷ 1 ∷ 9 ∷ 32 ∷ 200 ∷ 1 ∷ 25 ∷ 44 ∷ 1 ∷ 0 ∷ 0 ∷ 0 ∷ 0 ∷ 0 ∷ 0 ∷ []

kv_bytes_all : kv_bytes groups entry ≡ encoded
unfolding kv_bytes encode_groups
kv_bytes_all = refl

has_fields : (msg_size groups entry == 0) ≡ false
unfolding msg_size encode_groups
has_fields = refl

unmarshal-kv_bytes_example : unmarshal groups (kv_bytes groups entry) ≡ ok entry
unmarshal-kv_bytes_example = unmarshal-kv_bytes groups groups-IsVarint entry entry-Fits has_fields

append_bytes-exact_example : append_bytes groups entry ≡ (
    if msg_size groups entry == 0
    then ok []
    else ok (
        encode_tag groups 2 2
        ++ (encode_groups 9 (length (kv_bytes groups entry)) ++ kv_bytes groups entry)))
append_bytes-exact_example = append_bytes-exact groups groups-IsVarint entry entry-Fits

unmarshal_all : unmarshal groups encoded ≡ ok entry
unfolding unmarshal decode_groups slice_from kv_field kv_value
unmarshal_all = refl

-- The wire type of the key is that of a varint.
unmarshal_bad_key : unmarshal groups (8 ∷ 2 ∷ 7 ∷ 8 ∷ []) ≡ err wrong_wire_type
unfolding unmarshal decode_groups slice_from kv_field kv_value
unmarshal_bad_key = refl

-- The key is longer than the data.
unmarshal_short : unmarshal groups (10 ∷ 3 ∷ 7 ∷ 8 ∷ []) ≡ err too_short
unfolding unmarshal decode_groups slice_from kv_field kv_value
unmarshal_short = refl
