-- ===== src/Snapshot/GroupDecoder.antt =====
-- An instance of the decoder of csproto, over the varints of Groups.
use lightningstream.Base.{
  ℕ, ◌+◌, ◌-◌, ◌*◌, ◌/◌, ◌%◌, ◌^◌, ◌<◌, ◌≤◌, ◌≡◌, refl, ap, arith, ltb, if◌then◌else◌, length, drop,
  take, ◌++◌, length-append, take-append-length, drop-append-length,
}
use lightningstream.Base.Bytes.{Bytes, get_le, get_le-put_le_u64}
use lightningstream.Base.Result.{Result, ok, err, too_short, ◌>>=◌}
use lightningstream.Snapshot.Groups.{groups, groups-IsVarint, encode_groups, decode_groups}
use lightningstream.Snapshot.Decoder.{Decoder, IsDecoder}

unfoldable pub take_varint : Bytes → Result (ℕ × Bytes)
take_varint d = do (v, n) ← decode_groups d; ok (v, drop n d)

unfoldable pub take_tag : Bytes → Result (ℕ × ℕ × Bytes)
unfolding take_varint
take_tag d = do (v, d') ← take_varint d; ok (v / 8, v % 8, d')

unfoldable pub take_fixed64 : Bytes → Result (ℕ × Bytes)
take_fixed64 d = if ltb (length d) 8 then err too_short else ok (get_le (take 8 d), drop 8 d)

unfoldable pub take_bytes : ℕ → Bytes → Result (Bytes × Bytes)
unfolding take_varint
take_bytes limit d = do
  (size, d') ← take_varint d
  if ltb limit size
      then err too_short
      else if ltb (length d') size
      then err too_short
      else ok (take size d', drop size d')

abbrev pub group_decoder : Decoder
group_decoder = record {
  default_max_field_length = 2 ^ 31 - 1;
  decode_tag = take_tag;
  decode_uint32 = take_varint;
  decode_int64 = take_varint;
  decode_fixed64 = take_fixed64;
  decode_bytes = take_bytes;
  decode_string = take_bytes;
  skip = λ tag wire_type d. take_varint d >>= λ (v, d'). ok d';
}

take_varint_lem :
    (v : ℕ) (rest : Bytes) → v < 2 ^ 64 → take_varint (encode_groups 9 v ++ rest) ≡ ok (v, rest)
unfolding take_varint
take_varint_lem v rest h =
    rw (groups-IsVarint.decode_lem v rest h)
      (ap (λ d. ok (v, d)) (drop-append-length (encode_groups 9 v) rest))

take_bytes_lem :
    (limit : ℕ) (b rest : Bytes)
    → length b < 2 ^ 63
    → length b ≤ limit
    → take_bytes limit (encode_groups 9 (length b) ++ (b ++ rest)) ≡ ok (b, rest)
unfolding take_bytes
take_bytes_lem limit b rest h h' =
    rw (take_varint_lem (length b) (b ++ rest) (omega arith))
      (ground (arith, take-append-length b rest, drop-append-length b rest, length-append b rest))

pub group_decoder-IsDecoder : IsDecoder groups group_decoder
unfolding take_tag take_fixed64
group_decoder-IsDecoder = record {
  limit_lem = omega arith;
  tag_lem = λ tag wire_type rest h0 h1 h2.
      let quotient : (tag * 8 + wire_type) / 8 ≡ tag = omega arith in
      let remainder : (tag * 8 + wire_type) % 8 ≡ wire_type = omega arith in
      rw (take_varint_lem (tag * 8 + wire_type) rest (omega arith), quotient, remainder) refl;
  uint32_lem = λ v rest h. take_varint_lem v rest (omega arith);
  int64_lem = take_varint_lem;
  fixed64_lem = λ v rest h. ground (arith, get_le-put_le_u64 v h);
  bytes_lem = take_bytes_lem;
  string_lem = take_bytes_lem;
}
