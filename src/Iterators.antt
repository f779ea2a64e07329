-- ===== src/Iterators.antt =====
-- syncer/iterators.go: how an entry of a snapshot is merged with the value that LMDB holds.
-- `Next` is in Strategy/Source. The buffer that `addHeader` reuses is not modelled: no caller keeps
-- a value past the next call.
pub mod Lww
pub mod Writing
pub mod Merging
pub mod Convergence
mod Tests
use Prim.Native.Nat.{bit_or, Ordering}
use lightningstream.Base.{
  ℕ, ◌+◌, ◌%◌, Bool, true, false, Option, none, some, List, [], ◌∷◌, ◌++◌, ◌&&◌, ltb, leb, ◌==◌,
  if◌then◌else◌, length, replicate, set,
}
use lightningstream.Base.Bytes.{Bytes, compare_bytes, equal_bytes}
use lightningstream.Base.Result.{Result, ok, err, no_txn_id, bad_format, ◌>>=◌}
use lightningstream.Header.{parse, put_basic, is_deleted, flag_deleted}
use lightningstream.Snapshot.{Kv, masked_flags, current_format_version, compat_format_version}

-- The fields of `NativeIterator` that `Merge` and `Clean` read; `curKV` is their argument.
pub record NativeIterator : Type 0 where
  pub default_timestamp : ℕ
  pub txn_id : ℕ
  pub format_version : ℕ
  pub padding_block : Bool
  pub deleted_cutoff : ℕ

-- `NewNativeIterator`
unfoldable pub new_native_iterator : ℕ → ℕ → ℕ → ℕ → ℕ → Result NativeIterator
new_native_iterator format_version compat_version default_ts txn_id deleted_cutoff =
    if format_version == 0
    then err bad_format
    else if ltb current_format_version compat_version
    then err bad_format
    else if ltb format_version compat_format_version
    then err bad_format
    else if txn_id == 0
    then err no_txn_id
    else ok (record {
      default_timestamp = default_ts;
      txn_id = txn_id;
      format_version = format_version;
      padding_block = false;
      deleted_cutoff = deleted_cutoff;
    })

-- The flags that `addHeader` writes: before version 2 an empty value meant a deleted entry.
unfoldable pub written_flags : NativeIterator → Bytes → ℕ → ℕ
written_flags it entry_val flags =
    if length entry_val == 0 && ltb it.format_version 2 then bit_or flags flag_deleted else flags

-- `addHeader`; its error is always nil, and it does not read `fromClean`.
unfoldable pub add_header : NativeIterator → Bytes → ℕ → ℕ → Bytes
unfolding written_flags
add_header it entry_val ts flags =
    let ts' = if ts == 0 then it.default_timestamp else ts in
    let flags' = written_flags it entry_val flags in
    let val = if is_deleted flags' then [] else entry_val in
    let buf = put_basic ts' it.txn_id flags' in
    let buf' = if it.padding_block then set buf 23 1 ++ replicate 8 0 else buf in buf' ++ val

-- `bytes.Compare(a, b) <= 0`
abbrev pub at_most : Bytes → Bytes → Bool
at_most a b = elim (compare_bytes a b) [ Ordering.gt ↦ false | _ ↦ true ]

-- The part of `Merge` behind the parse of the old value.
unfoldable pub merge_parsed : NativeIterator → Kv → Bytes → ℕ → Bytes → Bytes
unfolding equal_bytes
merge_parsed it entry oldval old_ts app_val =
    if entry.timestamp_nano == 0 && equal_bytes app_val entry.value
    then oldval
    else (let new_ts =
          if entry.timestamp_nano == 0 then it.default_timestamp else entry.timestamp_nano in
        if ltb new_ts old_ts
        then oldval
        else if new_ts == old_ts && at_most app_val entry.value
        then oldval
        else add_header it entry.value new_ts (masked_flags entry))

-- `NativeIterator.Merge`; `none` is nil, which asks the strategy not to store the key.
unfoldable pub merge : NativeIterator → Kv → Bytes → Result (Option Bytes)
unfolding merge_parsed
merge it entry oldval =
    if length oldval == 0
    then (if is_deleted (masked_flags entry) && ltb entry.timestamp_nano it.deleted_cutoff
        then ok none
        else ok (some (add_header it entry.value entry.timestamp_nano (masked_flags entry))))
    else (do
      (h, app_val) ← parse oldval
      ok (some (merge_parsed it entry oldval h.timestamp app_val)))

-- `NativeIterator.Clean`
unfoldable pub clean : NativeIterator → Bytes → Result (Option Bytes)
clean it oldval = do
  (h, _) ← parse oldval
  ok (some (if is_deleted h.flags then oldval else add_header it [] 0 flag_deleted))

-- `PlainIterator.Merge` and `PlainIterator.Clean`
unfoldable pub plain_merge : Kv → Bytes → Result (Option Bytes)
plain_merge entry oldval = if length entry.value == 0 then ok none else ok (some entry.value)

unfoldable pub plain_clean : Bytes → Result (Option Bytes)
plain_clean oldval = ok none
