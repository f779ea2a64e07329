-- ===== src/Dupsort/RoundTrip.antt =====
-- What is encoded can be decoded.
use mathlib.Core.List.{append_assoc}
use lightningstream.Base.{
  ℕ, ◌+◌, ◌-◌, ◌%◌, ◌<◌, ◌≤◌, ◌≡◌, refl, ◌∙◌, ap, arith, List, [], ◌∷◌, ◌++◌, ltb, if◌then◌else◌,
  length, get_or, take, length-append, take-append-length, map, suc, zero,
}
use lightningstream.Base.Bytes.{Bytes}
use lightningstream.Base.Result.{Result, ok, ◌>>=◌}
use lightningstream.Snapshot.{Kv}
use lightningstream.Snapshot.Dbi.{Dbi, map_entries, map_dbi}
use lightningstream.Dupsort.Sorted.{append_kv-key, encode_cons, encode_nil, encode-shape}
use lightningstream.Dupsort.{
  encode_one, decode_one, encode, decode, encode_next, unique_key, separator,
}

-- An entry without its timestamp, which the hack does not keep.
abbrev pub without_timestamp : Kv → Kv
without_timestamp e = record e { timestamp_nano = 0 }

get_or-append :
    (xs ys : Bytes) (k n : ℕ) → k ≡ length xs + n → get_or (xs ++ ys) k 0 ≡ get_or ys n 0
get_or-append [] ys k n h = ap (λ i. get_or ys i 0) (omega arith)
get_or-append (x ∷ xs) ys zero n h = absurd (omega arith)
get_or-append (x ∷ xs) ys (suc k) n h = get_or-append xs ys k n (omega arith)

decode_of_parts :
    (e : Kv) (key : Bytes)
    → length key + 5 ≤ length e.key
    → 0 < length key
    → get_or e.key (length e.key - 1) 0 ≡ length key
    → ((i : ℕ) → i < 4 → get_or e.key (length key + i) 0 ≡ 0)
    → take (length key) e.key ≡ key
    → decode_one e ≡ ok (record { key = key; value = e.value; timestamp_nano = 0; flags = e.flags })
unfolding decode_one
decode_of_parts e key total lo last zeros start =
    let z0 : get_or e.key (length key) 0 ≡ 0 =
      ap (λ i. get_or e.key i 0) (omega arith) ∙ zeros 0 (omega arith) in
    let z1 = zeros 1 (omega arith) in
    let z2 = zeros 2 (omega arith) in
    let z3 = zeros 3 (omega arith) in ground (arith, total, lo, last, z0, z1, z2, z3, start)

zero_at : (middle : Bytes) (b i : ℕ) → i < 4 → get_or (separator ++ (middle ++ (b ∷ []))) i 0 ≡ 0
zero_at middle b zero h = refl
zero_at middle b (suc zero) h = refl
zero_at middle b (suc (suc zero)) h = refl
zero_at middle b (suc (suc (suc zero))) h = refl
zero_at middle b (suc (suc (suc (suc i)))) h = absurd (omega arith)

-- A key that is followed by the separator and by at least one byte, the last of which is its
-- length.
decode-unique_key :
    (key middle : Bytes) (b : ℕ) (e : Kv)
    → b ≡ length key
    → e.key ≡ key ++ (separator ++ (middle ++ (b ∷ [])))
    → 0 < length key
    → decode_one e ≡ ok (record { key = key; value = e.value; timestamp_nano = 0; flags = e.flags })
decode-unique_key key middle b e len is lo =
    let rest : Bytes = separator ++ (middle ++ (b ∷ [])) in
    let m : length (middle ++ (b ∷ [])) ≡ length middle + 1 = length-append middle (b ∷ []) in
    let total : length (key ++ rest) ≡ length key + (5 + length middle) =
      omega (arith, length-append key rest) in
    decode_of_parts e key (rw is (omega arith)) lo
      (rw is (
        get_or-append key rest (length (key ++ rest) - 1) (4 + length middle) (omega arith)
        ∙ get_or-append (0 ∷ 0 ∷ 0 ∷ 0 ∷ middle) (b ∷ []) (4 + length middle) 0 (omega arith)
        ∙ len))
      (λ i h. rw is (get_or-append key rest (length key + i) i refl ∙ zero_at middle b i h))
      (rw is (take-append-length key rest))

encode_one-shape :
    (e r : Kv)
    → encode_one e ≡ ok r
    → (0 < length e.key)
      × ((length e.key ≤ 255)
          × (r ≡ record {
            key = unique_key e.key e.value;
            value = e.value;
            timestamp_nano = 0;
            flags = e.flags;
          }))
unfolding encode_one
encode_one-shape e r h = ground arith

-- The part of the value that fits.
abbrev kept_value : Bytes → Bytes → Bytes
kept_value key value =
    let remaining = 511 - length (key ++ separator) - 1 in
    if ltb remaining (length value) then take remaining value else value

unique_key_shape :
    (key value : Bytes)
    → unique_key key value ≡ key ++ (separator ++ (kept_value key value ++ (length key % 256 ∷ [])))
unfolding unique_key
unique_key_shape key value =
    append_assoc (key ++ separator) (kept_value key value) (length key % 256 ∷ [])
    ∙ append_assoc key separator (kept_value key value ++ (length key % 256 ∷ []))

mod_small : {n : ℕ} → n ≤ 255 → n % 256 ≡ n
mod_small h = omega arith

-- What `dupSortHackEncodeOne` accepts, `dupSortHackDecodeOne` turns back into the entry, but for
-- its timestamp.
pub encode_one-decode_one :
    (e r : Kv) → encode_one e ≡ ok r → decode_one r ≡ ok (without_timestamp e)
encode_one-decode_one e r h =
    let (lo, (hi, is)) = encode_one-shape e r h in
    rw is (
      decode-unique_key e.key (kept_value e.key e.value) (length e.key % 256) _ (mod_small hi)
        (unique_key_shape e.key e.value) lo)

abbrev decode_next : Unit {0} → Kv → Result (Unit {0} × Kv)
decode_next s kv = do new ← decode_one kv; ok (s, new)

decode_entries :
    (prev : Bytes) (xs ys : List Kv)
    → map_entries encode_next prev xs ≡ ok ys
    → map_entries decode_next tt ys ≡ ok (map without_timestamp xs)
unfolding map_entries
decode_entries prev [] ys h = rw (encode_nil prev ys h) refl
decode_entries prev (x ∷ xs) ys h =
    let (new, (rest, (is, (one, (lt, more))))) = encode_cons prev x xs ys h in
    rw (is, encode_one-decode_one x new one, decode_entries new.key xs rest more)
      (ap ok (
        append_kv-key (without_timestamp x) (map without_timestamp xs)
          (encode_one-shape x new one).0))

-- What `dupSortHackEncode` accepts, `dupSortHackDecode` turns back into the entries in their
-- order, but for their timestamps, under the name and the flags of the DBI and without a
-- transform.
pub encode-decode :
    (d r : Dbi)
    → encode d ≡ ok r
    → decode r ≡ ok (record d { transform = []; entries = map without_timestamp d.entries })
unfolding decode map_dbi
encode-decode d r h =
    let (ys, (e, is)) = encode-shape d r h in rw (← is, decode_entries [] d.entries ys e) refl
