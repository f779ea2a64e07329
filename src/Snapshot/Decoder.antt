-- ===== src/Snapshot/Decoder.antt =====
-- The decoder of csproto (github.com/CrowdStrike/csproto), which is not part of the repository, and
-- the getters of snapshot/utils.go over it.
use lightningstream.Base.{
  ℕ, zero, suc, ◌^◌, ◌<◌, ◌≤◌, ◌≡◌, refl, ap, arith, false, if◌then◌else◌, is_empty, length, List,
  [], ◌∷◌, ◌++◌,
}
use lightningstream.Base.Bytes.{Bytes, put_le}
use lightningstream.Base.Result.{Result, ok, err, out_of_fuel, ◌>>=◌}
use lightningstream.Snapshot.Wire.{
  Csproto, encode_tag, wire_varint, wire_fixed64, wire_length_delimited, expect_wt,
}
use lightningstream.Snapshot.Chain.{concat, Chain}

-- A `csproto.Decoder` in the fast mode, as the bytes that it has not read: its methods return what
-- they have read and the bytes behind it. `DecodeBytes` and `DecodeString` have the limit of
-- `SetMaxFieldLength`.
pub record Decoder : Type 0 where
  pub default_max_field_length : ℕ
  pub decode_tag : Bytes → Result (ℕ × ℕ × Bytes)
  pub decode_uint32 : Bytes → Result (ℕ × Bytes)
  pub decode_int64 : Bytes → Result (ℕ × Bytes)
  pub decode_fixed64 : Bytes → Result (ℕ × Bytes)
  pub decode_bytes : ℕ → Bytes → Result (Bytes × Bytes)
  pub decode_string : ℕ → Bytes → Result (Bytes × Bytes)
  pub skip : ℕ → ℕ → Bytes → Result Bytes

-- What is encoded as protobuf says is decoded, whatever follows.
pub record IsDecoder (p : Csproto) (c : Decoder) : Type 0 where
  pub limit_lem : c.default_max_field_length < 2 ^ 63
  pub tag_lem :
      (tag wire_type : ℕ) (rest : Bytes)
      → 0 < tag
      → tag < 16
      → wire_type < 6
      → c.decode_tag (encode_tag p tag wire_type ++ rest) ≡ ok (tag, wire_type, rest)
  pub uint32_lem :
      (v : ℕ) (rest : Bytes)
      → v < 2 ^ 32
      → c.decode_uint32 (p.encode_varint v ++ rest) ≡ ok (v, rest)
  pub int64_lem :
      (v : ℕ) (rest : Bytes)
      → v < 2 ^ 64
      → c.decode_int64 (p.encode_varint v ++ rest) ≡ ok (v, rest)
  pub fixed64_lem :
      (v : ℕ) (rest : Bytes) → v < 2 ^ 64 → c.decode_fixed64 (put_le 8 v ++ rest) ≡ ok (v, rest)
  pub bytes_lem :
      (limit : ℕ) (b rest : Bytes)
      → length b < 2 ^ 63
      → length b ≤ limit
      → c.decode_bytes limit (p.encode_varint (length b) ++ (b ++ rest)) ≡ ok (b, rest)
  pub string_lem :
      (limit : ℕ) (b rest : Bytes)
      → length b < 2 ^ 63
      → length b ≤ limit
      → c.decode_string limit (p.encode_varint (length b) ++ (b ++ rest)) ≡ ok (b, rest)

module _ (c : Decoder) where
  -- `getUInt32`
  unfoldable pub get_uint32 : ℕ → Bytes → Result (ℕ × Bytes)
  unfolding expect_wt
  get_uint32 wire_type d = do right ← expect_wt wire_type wire_varint; c.decode_uint32 d

  -- `getFixed64`
  unfoldable pub get_fixed64 : ℕ → Bytes → Result (ℕ × Bytes)
  unfolding expect_wt
  get_fixed64 wire_type d = do right ← expect_wt wire_type wire_fixed64; c.decode_fixed64 d

  -- `getInt64`; a negative number is one of at least 2^63.
  unfoldable pub get_int64 : ℕ → Bytes → Result (ℕ × Bytes)
  unfolding expect_wt
  get_int64 wire_type d = do right ← expect_wt wire_type wire_varint; c.decode_int64 d

  -- `getBytes`
  unfoldable pub get_bytes : ℕ → ℕ → Bytes → Result (Bytes × Bytes)
  unfolding expect_wt
  get_bytes limit wire_type d = do
    right ← expect_wt wire_type wire_length_delimited
    c.decode_bytes limit d

  -- `getString`
  unfoldable pub get_string : ℕ → ℕ → Bytes → Result (Bytes × Bytes)
  unfolding expect_wt
  get_string limit wire_type d = do
    right ← expect_wt wire_type wire_length_delimited
    c.decode_string limit d

  module _ {S : Type 0} (field : ℕ → ℕ → Bytes → S → Result (Bytes × S)) where
    -- The loop of an `Unmarshal` method, `for d.More()`: a tag, and what `field` makes of it.
    unfoldable pub each_field : ℕ → Bytes → S → Result S
    each_field zero d s = err out_of_fuel
    each_field (suc fuel) d s = if is_empty d then ok s else (do
      (tag, wire_type, d1) ← c.decode_tag d
      (d2, s') ← field tag wire_type d1 s
      each_field fuel d2 s')

    -- `f` is a tag and a value that `field` takes from `s` to `s'`, whatever follows.
    abbrev pub Decodes : Bytes → S → S → Type 0
    Decodes f s s' =
        (0 < length f)
        × ((rest : Bytes)
            → (tag : ℕ) × (wire_type : ℕ) × (d : Bytes) × (c.decode_tag (f ++ rest)
                ≡ ok (tag, wire_type, d))
              × (field tag wire_type d s ≡ ok (rest, s')))

    not_empty : (b rest : Bytes) → 0 < length b → is_empty (b ++ rest) ≡ false
    not_empty [] rest h = absurd (omega arith)
    not_empty (x ∷ xs) rest h = refl

    pub each_field_lem :
        (fs : List Bytes) (fuel : ℕ) (s s' : S)
        → Chain Decodes fs s s'
        → length fs < fuel
        → each_field fuel (concat fs) s ≡ ok s'
    unfolding each_field
    each_field_lem fs zero s s' ch h = absurd (omega arith)
    each_field_lem [] (suc fuel) s s' ch h = ap ok ch
    each_field_lem (f ∷ fs) (suc fuel) s s' (mid, (some, r), ch) h =
        let (tag, wire_type, d, e, e') = r (concat fs) in
        rw (not_empty f (concat fs) some, e, e')
          (each_field_lem fs fuel mid s' ch (omega (arith, h)))
