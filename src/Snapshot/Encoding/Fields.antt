-- ===== src/Snapshot/Encoding/Fields.antt =====
-- What `Append` writes of a field, `Unmarshal` reads back.
use mathlib.Core.List.{append_assoc}
use lightningstream.Base.{
  ℕ, ◌+◌, ◌*◌, ◌/◌, ◌%◌, ◌^◌, ◌<◌, ◌≡◌, refl, ap, arith, length, drop, ◌++◌, length-append,
  take-append-length, drop-append-length,
}
use lightningstream.Base.Bytes.{Bytes, put_le, get_le-put_le_u64}
use lightningstream.Base.Result.{ok}
use lightningstream.Snapshot.{Kv}
use lightningstream.Snapshot.Wire.{Csproto, IsVarint, expect_wt, encode_tag, read_bytes}
use lightningstream.Snapshot.Encoding.{bytes_field, varint_field, kv_value, kv_field}

module _ (p : Csproto) (laws : IsVarint p) where
  decode_front :
      (v : ℕ) (rest : Bytes)
      → v < 2 ^ 64
      → (p.decode_varint (p.encode_varint v ++ rest) ≡ ok (v, length (p.encode_varint v)))
        × (drop (length (p.encode_varint v)) (p.encode_varint v ++ rest) ≡ rest)
  decode_front v rest h = (laws.decode_lem v rest h, drop-append-length (p.encode_varint v) rest)

  pub read_bytes_lem :
      (b rest : Bytes)
      → length b < 2 ^ 63
      → read_bytes p (p.encode_varint (length b) ++ (b ++ rest))
        ≡ ok (b, length (p.encode_varint (length b)) + length b)
  unfolding read_bytes
  read_bytes_lem b rest h =
      let (e, d) = decode_front (length b) (b ++ rest) (omega arith) in
      rw (e, d) (ground (arith, take-append-length b rest, length-append b rest))

  -- Behind a tag.
  pub kv_field_lem :
      (tag wire_type : ℕ) (value rest : Bytes) (n : ℕ) (kv kv' : Kv)
      → tag < 16
      → wire_type < 8
      → n < 2 ^ 63
      → kv_value p tag wire_type (value ++ rest) kv ≡ ok (n, kv')
      → kv_field p ((encode_tag p tag wire_type ++ value) ++ rest) kv
        ≡ ok (length (encode_tag p tag wire_type) + n, kv')
  unfolding kv_field
  kv_field_lem tag wire_type value rest n kv kv' h1 h2 h3 e =
      let v = tag * 8 + wire_type in
      let (d, r) = decode_front v (value ++ rest) (omega arith) in
      let one = laws.one_byte v (omega arith) in
      let quotient : v / 8 ≡ tag = omega arith in
      let remainder : v % 8 ≡ wire_type = omega arith in
      rw (append_assoc (p.encode_varint v) value rest, d, r, quotient, remainder, e)
        (ap (λ m. ok (m, kv')) (omega (arith, one)))

  -- `field` is read at the front of any bytes, and takes `kv` to `kv'`.
  abbrev pub Reads : Bytes → Kv → Kv → Type 0
  Reads field kv kv' =
      (0 < length field) × ((rest : Bytes) → kv_field p (field ++ rest) kv ≡ ok (length field, kv'))

  Reads-tagged :
      (tag wire_type : ℕ) (value : Bytes) (kv kv' : Kv)
      → tag < 16
      → wire_type < 8
      → length value < 2 ^ 63
      → ((rest : Bytes) → kv_value p tag wire_type (value ++ rest) kv ≡ ok (length value, kv'))
      → Reads (encode_tag p tag wire_type ++ value) kv kv'
  Reads-tagged tag wire_type value kv kv' h1 h2 h3 f = (
    omega (
      arith,
      laws.some_bytes (tag * 8 + wire_type),
      length-append (encode_tag p tag wire_type) value,
    ),
    λ rest.
        rw (length-append (encode_tag p tag wire_type) value)
          (kv_field_lem tag wire_type value rest (length value) kv kv' h1 h2 h3 (f rest)),
  )

  pub length-bytes :
      (b : Bytes) → length b < 2 ^ 62 → length (p.encode_varint (length b) ++ b) < 2 ^ 63
  length-bytes b h = omega (
    arith,
    h,
    laws.ten_bytes (length b) (omega arith),
    length-append (p.encode_varint (length b)) b,
  )

  pub read_field :
      (b rest : Bytes)
      → length b < 2 ^ 62
      → read_bytes p ((p.encode_varint (length b) ++ b) ++ rest)
        ≡ ok (b, length (p.encode_varint (length b) ++ b))
  read_field b rest h =
      rw
        (
          append_assoc (p.encode_varint (length b)) b rest,
          length-append (p.encode_varint (length b)) b,
        )
        (read_bytes_lem b rest (omega arith))

  pub Reads-key :
      (kv : Kv) (b : Bytes)
      → length b < 2 ^ 62
      → Reads (bytes_field p 1 b) kv (record kv { key = b })
  unfolding kv_value expect_wt
  Reads-key kv b h =
      Reads-tagged 1 2 (p.encode_varint (length b) ++ b) kv (record kv { key = b }) (omega arith)
        (omega arith) (length-bytes b h) (λ rest. rw (read_field b rest h) refl)

  pub Reads-value :
      (kv : Kv) (b : Bytes)
      → length b < 2 ^ 62
      → Reads (bytes_field p 2 b) kv (record kv { value = b })
  unfolding kv_value expect_wt
  Reads-value kv b h =
      Reads-tagged 2 2 (p.encode_varint (length b) ++ b) kv (record kv { value = b }) (omega arith)
        (omega arith) (length-bytes b h) (λ rest. rw (read_field b rest h) refl)

  pub Reads-flags :
      (kv : Kv) (v : ℕ) → v < 2 ^ 32 → Reads (varint_field p 4 v) kv (record kv { flags = v })
  unfolding kv_value expect_wt
  Reads-flags kv v h =
      let small : v % 2 ^ 32 ≡ v = omega arith in
      Reads-tagged 4 0 (p.encode_varint v) kv (record kv { flags = v }) (omega arith) (omega arith)
        (omega (arith, laws.ten_bytes v (omega arith)))
        (λ rest. rw (laws.decode_lem v rest (omega arith), small) refl)

  pub Reads-timestamp :
      (kv : Kv) (v : ℕ)
      → v < 2 ^ 64
      → Reads (encode_tag p 3 1 ++ put_le 8 v) kv (record kv { timestamp_nano = v })
  unfolding kv_value expect_wt
  Reads-timestamp kv v h =
      Reads-tagged 3 1 (put_le 8 v) kv (record kv { timestamp_nano = v }) (omega arith)
        (omega arith) (omega arith) (λ rest. ground (arith, get_le-put_le_u64 v h))
