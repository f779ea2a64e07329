-- ===== src/Header.antt =====
-- lmdbenv/header/header.go: the header in front of every value of a native or shadow DBI.
pub mod RoundTrip
pub mod Skipping
mod Tests
use Prim.Native.Nat.{bit_and, bit_or}
use lightningstream.Base.{
  ℕ, suc, ◌+◌, ◌-◌, ◌*◌, ◌/◌, ◌%◌, ◌^◌, ◌<◌, Bool, ◌||◌, List, [], ◌∷◌, ◌++◌, ltb, ◌==◌,
  if◌then◌else◌, length, get_or, take, drop, replicate,
}
use lightningstream.Base.Bytes.{Bytes, put_be, get_be}
use lightningstream.Base.Result.{Result, ok, err, too_short, bad_version, ◌>>=◌}

-- `Version` and `NumExtra` are Go `int`s; no code gives them a negative value.
pub record Header : Type 0 where
  pub timestamp : ℕ
  pub txn_id : ℕ
  pub version : ℕ
  pub flags : ℕ
  pub num_extra : ℕ
  pub extra : Bytes

abbrev pub min_header_size : ℕ
min_header_size = 24

abbrev pub block_size : ℕ
block_size = 8

abbrev pub version_offset : ℕ
version_offset = 16

abbrev pub flags_offset : ℕ
flags_offset = 17

abbrev pub num_extra_offset_high : ℕ
num_extra_offset_high = 22

-- `FlagDeleted`, which is also `FlagSyncMask`, and `NoFlags`.
abbrev pub flag_deleted : ℕ
flag_deleted = 1

abbrev pub no_flags : ℕ
no_flags = 0

-- `Flags.IsDeleted`
unfoldable pub is_deleted : ℕ → Bool
is_deleted f = ltb 0 (bit_and f flag_deleted)

-- `Flags.Masked`
unfoldable pub masked : ℕ → ℕ
masked f = bit_and f flag_deleted

-- The number of extra blocks that `doBytes` writes: `NumExtra`, raised until `Extra` fits.
unfoldable pub blocks_needed : Header → ℕ
blocks_needed h =
    let n = h.num_extra in
    let extra_len = length h.extra in
    if ltb 0 n || ltb 0 extra_len
    then (if ltb (n * block_size) extra_len
        then (if ltb 0 (extra_len % block_size)
            then extra_len / block_size + 1
            else extra_len / block_size)
        else n)
    else n

-- The 24 bytes that every header begins with; the four reserved bytes stay zero.
unfoldable pub fixed_part : ℕ → ℕ → ℕ → ℕ → ℕ → Bytes
fixed_part timestamp txn_id version flags n =
    put_be 8 timestamp
    ++ put_be 8 txn_id
    ++ (version % 256 ∷ flags % 256 ∷ 0 ∷ 0 ∷ 0 ∷ 0 ∷ [])
    ++ put_be 2 (n % 2 ^ 16)

-- `Header.Bytes`: what is left of the last extra block stays zero.
unfoldable pub header_bytes : Header → Bytes
unfolding blocks_needed fixed_part
header_bytes h =
    let n = blocks_needed h in
    fixed_part h.timestamp h.txn_id h.version h.flags n
    ++ h.extra
    ++ replicate (n * block_size - length h.extra) 0

-- `PutBasic`, on the buffer of 24 bytes that its callers hand it.
unfoldable pub put_basic : ℕ → ℕ → ℕ → Bytes
put_basic timestamp txn_id flags =
    put_be 8 timestamp ++ put_be 8 txn_id ++ (0 ∷ flags % 256 ∷ 0 ∷ 0 ∷ 0 ∷ 0 ∷ 0 ∷ 0 ∷ [])

unfoldable pub get_num_extra : Bytes → ℕ
get_num_extra val = get_be (take 2 (drop num_extra_offset_high val))

unfoldable pub header_of : Bytes → ℕ → Header
header_of val num_extra = record {
  timestamp = get_be (take 8 val);
  txn_id = get_be (take 8 (drop 8 val));
  version = get_or val version_offset 0;
  flags = get_or val flags_offset 0;
  num_extra = num_extra;
  extra = take (num_extra * block_size) (drop min_header_size val);
}

-- `Parse`: the header, and the application's value behind it.
unfoldable pub parse : Bytes → Result (Header × Bytes)
unfolding get_num_extra header_of
parse val =
    if ltb (length val) min_header_size
    then err too_short
    else if ltb 0 (get_or val version_offset 0)
    then err bad_version
    else (let num_extra = get_num_extra val in
        if ltb 0 num_extra
        then (if ltb (length val) (min_header_size + block_size * num_extra)
            then err too_short
            else ok (header_of val num_extra, drop (min_header_size + block_size * num_extra) val))
        else ok (header_of val num_extra, drop min_header_size val))

-- `Skip`
unfoldable pub skip : Bytes → Result Bytes
unfolding get_num_extra
skip val =
    if ltb (length val) min_header_size
    then err too_short
    else if ltb 0 (get_or val version_offset 0)
    then err bad_version
    else (let num_extra = get_num_extra val in
        if ltb 0 num_extra
        then (if ltb (length val) (min_header_size + block_size * num_extra)
            then err too_short
            else ok (drop (min_header_size + block_size * num_extra) val))
        else ok (drop min_header_size val))

-- `ParseTimestamp`
unfoldable pub parse_timestamp : Bytes → Result ℕ
parse_timestamp val = if ltb (length val) 8 then err too_short else ok (get_be (take 8 val))
