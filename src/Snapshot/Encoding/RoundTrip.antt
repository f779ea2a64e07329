-- ===== src/Snapshot/Encoding/RoundTrip.antt =====
-- The size of an encoded entry, and the round trip of an entry.
use mathlib.Core.List.{append-nil}
use lightningstream.Base.{
  ℕ, ◌+◌, ◌-◌, ◌*◌, ◌^◌, ◌≤◌, ◌<◌, ◌≡◌, refl, ap, ◌∙◌, subst, arith, Bool, true, false, ltb, ◌==◌,
  if◌then◌else◌, length, List, [], ◌∷◌, ◌++◌, length-append, replicate,
}
use lightningstream.Base.Bytes.{Bytes, put_le}
use lightningstream.Base.Result.{ok, err, panic}
use lightningstream.Snapshot.{Kv}
use lightningstream.Snapshot.Wire.{Csproto, IsVarint, encode_tag}
use lightningstream.Snapshot.Encoding.{
  bytes_field, varint_field, msg_size, kv_bytes, unmarshal, no_kv, append_bytes,
}
use lightningstream.Snapshot.Encoding.Messages.{
  Fits, fields, Chain-fields, concat-fields, unmarshal_fields,
}
use lightningstream.Snapshot.Encoding.Fields.{Reads}
use lightningstream.Snapshot.Chain.{concat, Chain, length-Chain}

module _ (p : Csproto) (laws : IsVarint p) where
  length-tag :
      (tag wire_type : ℕ) (b : Bytes)
      → tag < 16
      → wire_type < 8
      → length (encode_tag p tag wire_type ++ b) ≡ 1 + length b
  length-tag tag wire_type b h1 h2 = omega (
    arith,
    laws.one_byte (tag * 8 + wire_type) (omega arith),
    length-append (encode_tag p tag wire_type) b,
  )

  length-bytes_field :
      (tag : ℕ) (b : Bytes)
      → tag < 16
      → length b < 2 ^ 60
      → length (bytes_field p tag b) ≡ 1 + p.size_of_varint (length b) + length b
  length-bytes_field tag b h1 h2 = omega (
    arith,
    length-tag tag 2 (p.encode_varint (length b) ++ b) h1 (omega arith),
    length-append (p.encode_varint (length b)) b,
    laws.size_lem (length b) (omega arith),
  )

  length-varint_field :
      (tag v : ℕ) → tag < 16 → v < 2 ^ 64 → length (varint_field p tag v) ≡ 1 + p.size_of_varint v
  length-varint_field tag v h1 h2 =
      omega (arith, length-tag tag 0 (p.encode_varint v) h1 (omega arith), laws.size_lem v h2)

  length_if :
      (c : Bool) (b : Bytes) (n : ℕ)
      → length b ≡ n
      → length (if c then b else []) ≡ (if c then n else 0)
  length_if true b n e = e
  length_if false b n e = refl

  -- The room that `Append` computes for an entry is what it writes.
  pub length-kv_bytes : (kv : Kv) → Fits kv → length (kv_bytes p kv) ≡ msg_size p kv
  unfolding kv_bytes msg_size
  length-kv_bytes kv fits =
      let b1 = if ltb 0 (length kv.key) then bytes_field p 1 kv.key else [] in
      let b2 = if ltb 0 (length kv.value) then bytes_field p 2 kv.value else [] in
      let b3 = if ltb 0 kv.flags then varint_field p 4 kv.flags else [] in
      let b4 =
        if ltb 0 kv.timestamp_nano then encode_tag p 3 1 ++ put_le 8 kv.timestamp_nano else [] in
      omega (
        arith,
        length-append b1 (b2 ++ (b3 ++ b4)),
        length-append b2 (b3 ++ b4),
        length-append b3 b4,
        length_if (ltb 0 (length kv.key)) _ _ (length-bytes_field 1 kv.key (omega arith) fits.key),
        length_if (ltb 0 (length kv.value)) _ _
            (length-bytes_field 2 kv.value (omega arith) fits.value),
        length_if (ltb 0 kv.flags) _ _
            (length-varint_field 4 kv.flags (omega arith) (omega (arith, fits.flags))),
        length_if (ltb 0 kv.timestamp_nano) _ _
            (length-tag 3 1 (put_le 8 kv.timestamp_nano) (omega arith) (omega arith)),
      )

  if-le : (c : Bool) (n bound : ℕ) → n ≤ bound → (if c then n else 0) ≤ bound
  if-le true n bound h = h
  if-le false n bound h = omega arith

  size_of_varint-le : (v : ℕ) → v < 2 ^ 64 → p.size_of_varint v ≤ 10
  size_of_varint-le v h = omega (arith, laws.size_lem v h, laws.ten_bytes v h)

  pub msg_size-lt : (kv : Kv) → Fits kv → msg_size p kv < 2 ^ 62
  unfolding msg_size
  msg_size-lt kv fits =
      let key_size = size_of_varint-le (length kv.key) (omega (arith, fits.key)) in
      let value_size = size_of_varint-le (length kv.value) (omega (arith, fits.value)) in
      let flags_size = size_of_varint-le kv.flags (omega (arith, fits.flags)) in
      omega (
        arith,
        if-le (ltb 0 (length kv.key)) (1 + p.size_of_varint (length kv.key) + length kv.key)
            (11 + 2 ^ 60) (omega (arith, key_size, fits.key)),
        if-le (ltb 0 (length kv.value)) (1 + p.size_of_varint (length kv.value) + length kv.value)
            (11 + 2 ^ 60) (omega (arith, value_size, fits.value)),
        if-le (ltb 0 kv.flags) (1 + p.size_of_varint kv.flags) 11 (omega (arith, flags_size)),
        if-le (ltb 0 kv.timestamp_nano) (1 + 8) 9 (omega arith),
      )

  from_fields :
      (fs : List Bytes) (kv : Kv)
      → Chain (Reads p laws) fs (no_kv p) kv
      → length (concat fs) < 2 ^ 62
      → (length (concat fs) == 0) ≡ false
      → unmarshal p (concat fs) ≡ ok kv
  unfolding unmarshal
  from_fields [] kv ch lt some = absurd (ground arith)
  from_fields (f ∷ fs) kv ch lt some =
      unmarshal_fields p laws f fs (length (concat (f ∷ fs)) + 1) [] (no_kv p) kv ch
        (omega (arith, length-Chain (Reads p laws) (f ∷ fs) (no_kv p) kv (λ g s s' r. r.0) ch))
        (omega arith)

  -- Unmarshal reads back the entry that Append writes, whichever of its fields are set, where at
  -- least one is; the fields fit Go's types, and the varints of csproto are decoded as they are
  -- encoded.
  pub unmarshal-kv_bytes :
      (kv : Kv) → Fits kv → (msg_size p kv == 0) ≡ false → unmarshal p (kv_bytes p kv) ≡ ok kv
  unmarshal-kv_bytes kv fits some =
      let same = concat-fields p laws kv in
      let size : length (concat (fields p laws kv)) ≡ msg_size p kv =
        ap length same ∙ length-kv_bytes kv fits in
      subst (λ b. unmarshal p b ≡ ok kv) same
        (from_fields (fields p laws kv) kv (Chain-fields p laws kv fits)
          (omega (arith, size, msg_size-lt kv fits)) (ap (λ n. n == 0) size ∙ some))

  length-written :
      (size : ℕ) (b : Bytes)
      → length b ≡ size
      → size < 2 ^ 62
      → length (encode_tag p 2 2 ++ (p.encode_varint size ++ b)) ≡ 1 + p.size_of_varint size + size
  length-written size b e lt = omega (
    arith,
    e,
    length-tag 2 2 (p.encode_varint size ++ b) (omega arith) (omega arith),
    length-append (p.encode_varint size) b,
    laws.size_lem size (omega arith),
  )

  exact_room :
      (written : Bytes) (room : ℕ)
      → length written ≡ room
      → (if ltb room (length written)
          then err panic
          else ok (written ++ replicate (room - length written) 0))
        ≡ ok written
  exact_room written room e =
      let fits : ltb room (length written) ≡ false = ground (arith, e) in
      let full : room - length written ≡ 0 = omega (arith, e) in
      rw (fits, full) (ap ok (append-nil written))

  -- Append makes exactly the room that it fills: nothing for an entry without fields, else the
  -- tag, the size and the fields, without a panic and without a zero behind them. The fields fit
  -- Go's types, and csproto knows the sizes of its varints.
  pub append_bytes-exact :
      (kv : Kv)
      → Fits kv
      → append_bytes p kv ≡ (
          if msg_size p kv == 0
          then ok []
          else ok (encode_tag p 2 2 ++ (p.encode_varint (length (kv_bytes p kv)) ++ kv_bytes p kv)))
  unfolding append_bytes
  append_bytes-exact kv fits =
      let size = length-kv_bytes kv fits in
      let written = length-written (msg_size p kv) (kv_bytes p kv) size (msg_size-lt kv fits) in
      rw (size) (ap (λ r. if msg_size p kv == 0 then ok [] else r) (exact_room _ _ written))
