-- ===== src/Snapshot/Meta.antt =====
-- snapshot/meta.go: what a snapshot says of its origin. The buffer of `Marshal`, which is large
-- enough for all fields, is not modelled.
pub mod RoundTrip
use lightningstream.Base.{
  ℕ, suc, Bool, not, ◌&&◌, ltb, ◌==◌, if◌then◌else◌, length, List, [], ◌∷◌, ◌++◌,
}
use lightningstream.Base.Bytes.{Bytes, put_le}
use lightningstream.Base.Result.{Result, ok, err, ◌>>=◌}
use lightningstream.Snapshot.Wire.{Csproto, is_negative, encode_tag, wire_fixed64}
use lightningstream.Snapshot.Encoding.{bytes_field, varint_field}
use lightningstream.Snapshot.Decoder.{Decoder, get_string, get_int64, get_fixed64, each_field}

abbrev pub field_meta_generation_id : ℕ
field_meta_generation_id = 1

abbrev pub field_meta_instance_id : ℕ
field_meta_instance_id = 2

abbrev pub field_meta_hostname : ℕ
field_meta_hostname = 3

abbrev pub field_meta_lmdb_txn_id : ℕ
field_meta_lmdb_txn_id = 4

abbrev pub field_meta_timestamp_nano : ℕ
field_meta_timestamp_nano = 5

abbrev pub field_meta_database_name : ℕ
field_meta_database_name = 7

abbrev pub field_meta_from_lmdb_txn_id : ℕ
field_meta_from_lmdb_txn_id = 8

-- `Meta`; an `int64` that is negative is here a number of at least 2^63.
pub record Meta : Type 0 where
  pub generation_id : Bytes
  pub instance_id : Bytes
  pub hostname : Bytes
  pub lmdb_txn_id : ℕ
  pub timestamp_nano : ℕ
  pub database_name : Bytes
  pub from_lmdb_txn_id : ℕ

abbrev pub no_meta : Meta
no_meta = record {
  generation_id = [];
  instance_id = [];
  hostname = [];
  lmdb_txn_id = 0;
  timestamp_nano = 0;
  database_name = [];
  from_lmdb_txn_id = 0;
}

abbrev pub is_positive : ℕ → Bool
is_positive v = ltb 0 v && not (is_negative v)

-- `Meta.Marshal`
unfoldable pub marshal_meta : Csproto → Meta → Bytes
marshal_meta p m =
    (if ltb 0 (length m.generation_id)
      then bytes_field p field_meta_generation_id m.generation_id
      else [])
    ++ ((if ltb 0 (length m.instance_id)
          then bytes_field p field_meta_instance_id m.instance_id
          else [])
        ++ ((if ltb 0 (length m.hostname) then bytes_field p field_meta_hostname m.hostname else [])
            ++ ((if ltb 0 (length m.database_name)
                  then bytes_field p field_meta_database_name m.database_name
                  else [])
                ++ ((if is_positive m.lmdb_txn_id
                      then varint_field p field_meta_lmdb_txn_id m.lmdb_txn_id
                      else [])
                    ++ ((if ltb 0 m.timestamp_nano
                          then encode_tag p field_meta_timestamp_nano wire_fixed64
                            ++ put_le 8 m.timestamp_nano
                          else [])
                        ++ (if is_positive m.from_lmdb_txn_id
                            then varint_field p field_meta_from_lmdb_txn_id m.from_lmdb_txn_id
                            else []))))))

module _ (c : Decoder) where
  -- One field of `Meta.Unmarshal`, behind its tag.
  unfoldable pub meta_field : ℕ → ℕ → Bytes → Meta → Result (Bytes × Meta)
  unfolding get_string get_int64 get_fixed64
  meta_field tag wire_type d m =
      let limit = c.default_max_field_length in
      if tag == field_meta_generation_id
      then (do (s, d') ← get_string c limit wire_type d; ok (d', record m { generation_id = s }))
      else if tag == field_meta_instance_id
      then (do (s, d') ← get_string c limit wire_type d; ok (d', record m { instance_id = s }))
      else if tag == field_meta_hostname
      then (do (s, d') ← get_string c limit wire_type d; ok (d', record m { hostname = s }))
      else if tag == field_meta_lmdb_txn_id
      then (do (v, d') ← get_int64 c wire_type d; ok (d', record m { lmdb_txn_id = v }))
      else if tag == field_meta_timestamp_nano
      then (do (v, d') ← get_fixed64 c wire_type d; ok (d', record m { timestamp_nano = v }))
      else if tag == field_meta_database_name
      then (do (s, d') ← get_string c limit wire_type d; ok (d', record m { database_name = s }))
      else if tag == field_meta_from_lmdb_txn_id
      then (do (v, d') ← get_int64 c wire_type d; ok (d', record m { from_lmdb_txn_id = v }))
      else (do d' ← c.skip tag wire_type d; ok (d', m))

  -- `Meta.Unmarshal`; every tag has a byte.
  unfoldable pub unmarshal_meta : Meta → Bytes → Result Meta
  unfolding meta_field each_field
  unmarshal_meta m buf = each_field c meta_field (suc (length buf)) buf m
