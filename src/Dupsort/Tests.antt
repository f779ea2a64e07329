-- ===== src/Dupsort/Tests.antt =====
-- The encoding of two entries with the same key, and the theorems at it.
use lightningstream.Base.{◌≡◌, refl, [], ◌∷◌, map}
use lightningstream.Base.Bytes.{Bytes, compare_bytes}
use lightningstream.Base.Result.{ok, err, bad_dupsort_key, dupsort_reversed}
use lightningstream.Snapshot.{Kv}
use lightningstream.Snapshot.Dbi.{Dbi}
use lightningstream.Dupsort.{decode_one, encode, decode}
use lightningstream.Snapshot.Transform.{transform_dupsort_hack_v1}
use lightningstream.Dupsort.RoundTrip.{without_timestamp, encode-decode}
use lightningstream.Dupsort.Sorted.{Rising, encode-Rising}

abbrev entry : Bytes → Bytes → Kv
entry k v = record { key = k; value = v; timestamp_nano = 0; flags = 1 }

abbrev two_values : Dbi
two_values = record {
  name = [];
  flags = 4;
  transform = [];
  entries = entry (7 ∷ []) (1 ∷ []) ∷ entry (7 ∷ []) (2 ∷ []) ∷ [];
}

abbrev encoded : Dbi
encoded = record {
  name = [];
  flags = 4;
  transform = transform_dupsort_hack_v1;
  entries =
      entry (7 ∷ 0 ∷ 0 ∷ 0 ∷ 0 ∷ 1 ∷ 1 ∷ []) (1 ∷ [])
      ∷ entry (7 ∷ 0 ∷ 0 ∷ 0 ∷ 0 ∷ 2 ∷ 1 ∷ []) (2 ∷ [])
      ∷ [];
}

encode-two_values : encode two_values ≡ ok encoded
unfolding encode compare_bytes
encode-two_values = refl

encode_reversed :
    encode (record two_values { entries = entry (7 ∷ []) (2 ∷ []) ∷ entry (7 ∷ []) (1 ∷ []) ∷ [] })
    ≡ err dupsort_reversed
unfolding encode compare_bytes
encode_reversed = refl

decode_cut : decode_one (entry (7 ∷ 0 ∷ 0 ∷ 0 ∷ 0 ∷ []) []) ≡ err bad_dupsort_key
unfolding decode_one
decode_cut = refl

encode-decode_example :
    decode encoded
    ≡ ok (record two_values { transform = []; entries = map without_timestamp two_values.entries })
encode-decode_example = encode-decode two_values encoded encode-two_values

encode-Rising_example : Rising [] encoded.entries
encode-Rising_example = encode-Rising two_values encoded encode-two_values
