-- ===== src/Iterators/Writing.antt =====
-- What `addHeader` writes stands for the entry.
use lightningstream.Base.{
  ℕ, ◌%◌, ◌^◌, ◌<◌, ◌≡◌, refl, true, [], ◌++◌, ◌==◌, if◌then◌else◌, arith, length-eq-zero,
  Bool-cases, inl, inr, replicate, set,
}
use lightningstream.Base.Bits.{lowest_bit, set_lowest}
use lightningstream.Base.Bytes.{Bytes}
use lightningstream.Base.Result.{ok, ◌>>=◌}
use lightningstream.Header.{parse, is_deleted, put_basic, fixed_part}
use lightningstream.Header.RoundTrip.{parse_fixed}
use lightningstream.Snapshot.{Kv, masked_flags}
use lightningstream.Iterators.{NativeIterator, written_flags, add_header}
use lightningstream.Iterators.Lww.{as_version, version_of, incoming}

-- The numbers that an iterator and an entry put into a header fit 64 bits, and an entry that is
-- marked as deleted has no value.
pub record Fits (it : NativeIterator) (entry : Kv) : Type 0 where
  pub default_timestamp : it.default_timestamp < 2 ^ 64
  pub txn_id : it.txn_id < 2 ^ 64
  pub timestamp : entry.timestamp_nano < 2 ^ 64
  pub no_value : is_deleted (masked_flags entry) ≡ true → entry.value ≡ []

-- What `addHeader` has put into its buffer in front of the value.
parse_buffer :
    (it : NativeIterator) (ts flags : ℕ) (app : Bytes)
    → ts < 2 ^ 64
    → it.txn_id < 2 ^ 64
    → flags < 256
    → (parse (
          (if it.padding_block
            then set (put_basic ts it.txn_id flags) 23 1 ++ replicate 8 0
            else put_basic ts it.txn_id flags)
          ++ app)
        >>= as_version)
      ≡ ok (record { timestamp = ts; flags = flags; value = app })
unfolding put_basic fixed_part
parse_buffer it ts flags app h1 h2 h3 = elim (Bool-cases it.padding_block) [
  | inl e ↦ rw (e, parse_fixed ts it.txn_id flags 1 (replicate 8 0) app h1 h2 h3 (omega arith) refl)
  | inr e ↦ rw (e, parse_fixed ts it.txn_id flags 0 [] app h1 h2 h3 (omega arith) refl)
]

written_flags-lt :
    (it : NativeIterator) (val : Bytes) (flags : ℕ) → flags < 2 → written_flags it val flags < 2
unfolding written_flags
written_flags-lt it val flags h = ground (arith, set_lowest flags h)

pub masked_flags-lt : (entry : Kv) → masked_flags entry < 2
unfolding masked_flags
masked_flags-lt entry = omega (arith, lowest_bit (entry.flags % 256) (omega arith))

pub version_of-add_header :
    (it : NativeIterator) (val : Bytes) (ts flags : ℕ)
    → it.default_timestamp < 2 ^ 64
    → it.txn_id < 2 ^ 64
    → ts < 2 ^ 64
    → flags < 2
    → version_of (add_header it val ts flags)
      ≡ ok (record {
        timestamp = if ts == 0 then it.default_timestamp else ts;
        flags = written_flags it val flags;
        value = if is_deleted (written_flags it val flags) then [] else val;
      })
unfolding version_of add_header
version_of-add_header it val ts flags h1 h2 h3 h4 =
    parse_buffer it (if ts == 0 then it.default_timestamp else ts) (written_flags it val flags)
      (if is_deleted (written_flags it val flags) then [] else val) (ground arith) h2
      (omega (arith, written_flags-lt it val flags h4))

-- A value that is read as deleted is one without bytes.
pub incoming-value :
    (it : NativeIterator) (entry : Kv) → Fits it entry → (incoming it entry).value ≡ entry.value
unfolding incoming written_flags
incoming-value it entry fits = ground (arith, length-eq-zero entry.value, fits.no_value)

pub incoming-timestamp :
    (it : NativeIterator) (entry : Kv)
    → 0 < entry.timestamp_nano
    → (incoming it entry).timestamp ≡ entry.timestamp_nano
unfolding incoming
incoming-timestamp it entry pos = ground arith

-- What `addHeader` makes of an entry stands for what the entry stands for.
pub version_of-incoming :
    (it : NativeIterator) (entry : Kv)
    → Fits it entry
    → version_of (add_header it entry.value entry.timestamp_nano (masked_flags entry))
      ≡ ok (incoming it entry)
unfolding incoming
version_of-incoming it entry fits =
    version_of-add_header it entry.value entry.timestamp_nano (masked_flags entry)
      fits.default_timestamp fits.txn_id fits.timestamp (masked_flags-lt entry)
