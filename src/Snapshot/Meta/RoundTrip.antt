-- ===== src/Snapshot/Meta/RoundTrip.antt =====
-- `Meta.Unmarshal` reads what `Meta.Marshal` writes.
use mathlib.Core.List.{append_assoc}
use lightningstream.Base.{
  ℕ, suc, ◌+◌, ◌*◌, ◌^◌, ◌<◌, ◌≤◌, ◌≡◌, refl, sym, ap, ◌∙◌, subst, arith, Bool, false, ltb, length,
  List, [], ◌++◌, length-append,
}
use lightningstream.Base.Bytes.{Bytes, put_le}
use lightningstream.Base.Result.{Result, ok}
use lightningstream.Snapshot.Wire.{Csproto, IsVarint, encode_tag, expect_wt}
use lightningstream.Snapshot.Encoding.{bytes_field, varint_field}
use lightningstream.Snapshot.Chain.{
  concat, one_if, concat-one_if, concat_more, not_some, zero_of, Chain, Chain-append, Chain-one_if,
  length-Chain,
}
use lightningstream.Snapshot.Decoder.{
  Decoder, IsDecoder, get_string, get_int64, get_fixed64, Decodes, each_field, each_field_lem,
}
use lightningstream.Snapshot.Meta.{
  Meta, no_meta, is_positive, marshal_meta, meta_field, unmarshal_meta,
}

module _ (p : Csproto) (laws : IsVarint p) (c : Decoder) (dec : IsDecoder p c) where
  -- The strings fit the decoder's limit, the numbers their types, and none is negative.
  pub record MetaFits (m : Meta) : Type 0 where
    pub generation_id : length m.generation_id ≤ c.default_max_field_length
    pub instance_id : length m.instance_id ≤ c.default_max_field_length
    pub hostname : length m.hostname ≤ c.default_max_field_length
    pub lmdb_txn_id : m.lmdb_txn_id < 2 ^ 63
    pub timestamp_nano : m.timestamp_nano < 2 ^ 64
    pub database_name : length m.database_name ≤ c.default_max_field_length
    pub from_lmdb_txn_id : m.from_lmdb_txn_id < 2 ^ 63

  module _ {S : Type 0} (field : ℕ → ℕ → Bytes → S → Result (Bytes × S)) where
    -- A tag and a value that `field` reads.
    pub Decodes-tagged :
        (tag wire_type : ℕ) (value : Bytes) (s s' : S)
        → 0 < tag
        → tag < 16
        → wire_type < 6
        → ((rest : Bytes) → field tag wire_type (value ++ rest) s ≡ ok (rest, s'))
        → Decodes c field (encode_tag p tag wire_type ++ value) s s'
    Decodes-tagged tag wire_type value s s' h0 h1 h2 f =
        let t = encode_tag p tag wire_type in
        (
          omega (arith, laws.some_bytes (tag * 8 + wire_type), length-append t value),
          λ rest. (
            tag,
            wire_type,
            value ++ rest,
            rw (append_assoc t value rest) (dec.tag_lem tag wire_type (value ++ rest) h0 h1 h2),
            f rest,
          ),
        )

  abbrev DecodesMeta : Bytes → Meta → Meta → Type 0
  DecodesMeta = Decodes c (meta_field c)

  pub read_string :
      (b rest : Bytes)
      → length b ≤ c.default_max_field_length
      → c.decode_string c.default_max_field_length ((p.encode_varint (length b) ++ b) ++ rest)
        ≡ ok (b, rest)
  read_string b rest h =
      rw (append_assoc (p.encode_varint (length b)) b rest)
        (dec.string_lem c.default_max_field_length b rest (omega (arith, dec.limit_lem)) h)

  not_positive : (n : ℕ) → n < 2 ^ 63 → is_positive n ≡ false → 0 ≡ n
  not_positive n h e = ground arith

  abbrev meta_fields : Meta → List Bytes
  meta_fields m =
      one_if (ltb 0 (length m.generation_id)) (bytes_field p 1 m.generation_id)
      ++ (one_if (ltb 0 (length m.instance_id)) (bytes_field p 2 m.instance_id)
          ++ (one_if (ltb 0 (length m.hostname)) (bytes_field p 3 m.hostname)
              ++ (one_if (ltb 0 (length m.database_name)) (bytes_field p 7 m.database_name)
                  ++ (one_if (is_positive m.lmdb_txn_id) (varint_field p 4 m.lmdb_txn_id)
                      ++ (one_if (ltb 0 m.timestamp_nano)
                            (encode_tag p 5 1 ++ put_le 8 m.timestamp_nano)
                          ++ one_if (is_positive m.from_lmdb_txn_id)
                              (varint_field p 8 m.from_lmdb_txn_id))))))

  concat-meta_fields : (m : Meta) → concat (meta_fields m) ≡ marshal_meta p m
  unfolding marshal_meta
  concat-meta_fields m = concat_more (ltb 0 (length m.generation_id)) _ _ _ (
      concat_more (ltb 0 (length m.instance_id)) _ _ _ (
        concat_more (ltb 0 (length m.hostname)) _ _ _ (
          concat_more (ltb 0 (length m.database_name)) _ _ _ (
            concat_more (is_positive m.lmdb_txn_id) _ _ _ (
              concat_more (ltb 0 m.timestamp_nano) _ _ _ (
                concat-one_if (is_positive m.from_lmdb_txn_id)
                  (varint_field p 8 m.from_lmdb_txn_id)))))))

  -- A string field that may be absent.
  string_if :
      (tag : ℕ) (b : Bytes) (a : Meta) (put : Bytes → Meta)
      → 0 < tag
      → tag < 16
      → put [] ≡ a
      → ((rest : Bytes)
          → meta_field c tag 2 ((p.encode_varint (length b) ++ b) ++ rest) a ≡ ok (rest, put b))
      → Chain DecodesMeta (one_if (ltb 0 (length b)) (bytes_field p tag b)) a (put b)
  string_if tag b a put h0 h1 same f =
      Chain-one_if DecodesMeta (ltb 0 (length b)) (bytes_field p tag b) a (put b)
        (λ t.
          Decodes-tagged (meta_field c) tag 2 (p.encode_varint (length b) ++ b) a (put b) h0 h1
            (omega arith) f)
        (λ e. sym same ∙ ap put (not_some b e))

  -- A number field that may be absent.
  number_if :
      (present : Bool) (tag wire_type v : ℕ) (value : Bytes) (a : Meta) (put : ℕ → Meta)
      → 0 < tag
      → tag < 16
      → wire_type < 6
      → put 0 ≡ a
      → (present ≡ false → 0 ≡ v)
      → ((rest : Bytes) → meta_field c tag wire_type (value ++ rest) a ≡ ok (rest, put v))
      → Chain DecodesMeta (one_if present (encode_tag p tag wire_type ++ value)) a (put v)
  number_if present tag wire_type v value a put h0 h1 h2 same zero f =
      Chain-one_if DecodesMeta present (encode_tag p tag wire_type ++ value) a (put v)
        (λ t. Decodes-tagged (meta_field c) tag wire_type value a (put v) h0 h1 h2 f)
        (λ e. sym same ∙ ap put (zero e))

  Chain-meta_fields : (m : Meta) → MetaFits m → Chain DecodesMeta (meta_fields m) no_meta m
  unfolding meta_field get_string get_int64 get_fixed64 expect_wt
  Chain-meta_fields m fit =
      let m1 = record no_meta { generation_id = m.generation_id } in
      let m2 = record m1 { instance_id = m.instance_id } in
      let m3 = record m2 { hostname = m.hostname } in
      let m4 = record m3 { database_name = m.database_name } in
      let m5 = record m4 { lmdb_txn_id = m.lmdb_txn_id } in
      let m6 = record m5 { timestamp_nano = m.timestamp_nano } in
      let c1 =
        string_if 1 m.generation_id no_meta (λ b. record no_meta { generation_id = b })
          (omega arith) (omega arith) refl
          (λ rest. rw (read_string m.generation_id rest fit.generation_id) refl) in
      let c2 =
        string_if 2 m.instance_id m1 (λ b. record m1 { instance_id = b }) (omega arith)
          (omega arith) refl (λ rest. rw (read_string m.instance_id rest fit.instance_id) refl) in
      let c3 =
        string_if 3 m.hostname m2 (λ b. record m2 { hostname = b }) (omega arith) (omega arith) refl
          (λ rest. rw (read_string m.hostname rest fit.hostname) refl) in
      let c4 =
        string_if 7 m.database_name m3 (λ b. record m3 { database_name = b }) (omega arith)
          (omega arith) refl
          (λ rest. rw (read_string m.database_name rest fit.database_name) refl) in
      let c5 =
        number_if (is_positive m.lmdb_txn_id) 4 0 m.lmdb_txn_id (p.encode_varint m.lmdb_txn_id) m4
          (λ n. record m4 { lmdb_txn_id = n }) (omega arith) (omega arith) (omega arith) refl
          (not_positive m.lmdb_txn_id fit.lmdb_txn_id)
          (λ rest. rw (dec.int64_lem m.lmdb_txn_id rest (omega (arith, fit.lmdb_txn_id))) refl) in
      let c6 =
        number_if (ltb 0 m.timestamp_nano) 5 1 m.timestamp_nano (put_le 8 m.timestamp_nano) m5
          (λ n. record m5 { timestamp_nano = n }) (omega arith) (omega arith) (omega arith) refl
          (zero_of m.timestamp_nano)
          (λ rest. rw (dec.fixed64_lem m.timestamp_nano rest fit.timestamp_nano) refl) in
      let c7 =
        number_if (is_positive m.from_lmdb_txn_id) 8 0 m.from_lmdb_txn_id
          (p.encode_varint m.from_lmdb_txn_id) m6 (λ n. record m6 { from_lmdb_txn_id = n })
          (omega arith) (omega arith) (omega arith) refl
          (not_positive m.from_lmdb_txn_id fit.from_lmdb_txn_id)
          (λ rest.
            rw (dec.int64_lem m.from_lmdb_txn_id rest (omega (arith, fit.from_lmdb_txn_id)))
              refl) in
      Chain-append DecodesMeta _ _ no_meta m1 m c1 (
        Chain-append DecodesMeta _ _ m1 m2 m c2 (
          Chain-append DecodesMeta _ _ m2 m3 m c3 (
            Chain-append DecodesMeta _ _ m3 m4 m c4 (
              Chain-append DecodesMeta _ _ m4 m5 m c5
                (Chain-append DecodesMeta _ _ m5 m6 m c6 c7)))))

  -- Meta.Unmarshal reads back what Meta.Marshal writes, whichever fields are set: the strings fit
  -- the decoder's limit, the numbers their types, and none is negative; csproto decodes what it
  -- encodes.
  pub unmarshal_meta-marshal_meta :
      (m : Meta) → MetaFits m → unmarshal_meta c no_meta (marshal_meta p m) ≡ ok m
  unfolding unmarshal_meta
  unmarshal_meta-marshal_meta m fit =
      let ch = Chain-meta_fields m fit in
      subst (λ b. each_field c (meta_field c) (suc (length b)) b no_meta ≡ ok m)
        (concat-meta_fields m)
        (each_field_lem c (meta_field c) (meta_fields m) (suc (length (concat (meta_fields m))))
          no_meta m ch
          (omega (arith, length-Chain DecodesMeta (meta_fields m) no_meta m (λ f a b r. r.0) ch)))
