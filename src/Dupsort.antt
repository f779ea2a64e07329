-- ===== src/Dupsort.antt =====
-- syncer/dupsorthack.go: the entries of a DBI with duplicate keys, with keys that are made unique.
pub mod RoundTrip
pub mod Sorted
mod Tests
use Prim.Native.Nat.{Ordering}
use lightningstream.Base.{
  ℕ, ◌+◌, ◌-◌, ◌%◌, Bool, not, ◌&&◌, List, [], ◌∷◌, ◌++◌, ltb, ◌==◌, if◌then◌else◌, length, get_or,
  take,
}
use lightningstream.Base.Bytes.{Bytes, compare_bytes}
use lightningstream.Base.Result.{
  Result, ok, err, bad_dupsort_key, dupsort_not_unique, dupsort_reversed, ◌>>=◌,
}
use lightningstream.Lmdb.{max_key_size}
use lightningstream.Snapshot.{Kv}
use lightningstream.Snapshot.Dbi.{Dbi, map_dbi}
use lightningstream.Snapshot.Transform.{transform_dupsort_hack_v1}

-- `DupSortHackMaxKeySize`
abbrev pub dupsort_max_key_size : ℕ
dupsort_max_key_size = 255

abbrev pub separator : Bytes
separator = 0 ∷ 0 ∷ 0 ∷ 0 ∷ []

-- The key that `dupSortHackEncodeOne` writes. The last byte is kept for the length.
unfoldable pub unique_key : Bytes → Bytes → Bytes
unique_key key value =
    let start = key ++ separator in
    let remaining = max_key_size - length start - 1 in
    start
    ++ (if ltb remaining (length value) then take remaining value else value)
    ++ (length key % 256 ∷ [])

-- `dupSortHackEncodeOne`: the timestamp is not set in the result.
unfoldable pub encode_one : Kv → Result Kv
unfolding unique_key
encode_one e =
    if length e.key == 0
    then err bad_dupsort_key
    else if ltb dupsort_max_key_size (length e.key)
    then err bad_dupsort_key
    else ok (record {
      key = unique_key e.key e.value;
      value = e.value;
      timestamp_nano = 0;
      flags = e.flags;
    })

unfoldable pub has_separator : Bytes → ℕ → Bool
has_separator key n =
    (get_or key n 0 == 0)
    && (get_or key (n + 1) 0 == 0)
    && (get_or key (n + 2) 0 == 0)
    && (get_or key (n + 3) 0 == 0)

-- `dupSortHackDecodeOne`
unfoldable pub decode_one : Kv → Result Kv
unfolding has_separator
decode_one e =
    if ltb (length e.key) 6
    then err bad_dupsort_key
    else (let key_len = get_or e.key (length e.key - 1) 0 in
        if ltb (length e.key) (key_len + 5)
        then err bad_dupsort_key
        else if not (has_separator e.key key_len)
        then err bad_dupsort_key
        else ok (record {
          key = take key_len e.key;
          value = e.value;
          timestamp_nano = 0;
          flags = e.flags;
        }))

-- The callback of `dupSortHackEncode`; its variable is `prevKey`.
unfoldable pub encode_next : Bytes → Kv → Result (Bytes × Kv)
unfolding encode_one
encode_next prev_key kv = do
  new ← encode_one kv
  elim (compare_bytes prev_key new.key) [
    | Ordering.eq ↦ err dupsort_not_unique
    | Ordering.gt ↦ err dupsort_reversed
    | Ordering.lt ↦ ok (new.key, new)
  ]

-- `dupSortHackEncode`
unfoldable pub encode : Dbi → Result Dbi
unfolding encode_next map_dbi
encode d = map_dbi d transform_dupsort_hack_v1 encode_next []

-- `dupSortHackDecode`; its callback has no variable.
unfoldable pub decode : Dbi → Result Dbi
unfolding decode_one map_dbi
decode d = map_dbi d [] (λ (s : Unit {0}) kv. do new ← decode_one kv; ok (s, new)) tt
