-- ===== src/Syncer/Read.antt =====
-- `readDBI` of syncer/utils.go: the entries of a DBI of LMDB as those of a snapshot.
use Prim.Native.Nat.{bit_and}
use lightningstream.Base.{
  ℕ, Bool, true, false, not, ◌&&◌, Option, none, some, List, [], ◌∷◌, ltb, if◌then◌else◌,
}
use lightningstream.Base.Bytes.{Bytes, equal_bytes}
use lightningstream.Base.Result.{Result, ok, err, dupsort_disabled, duplicate_key, ◌>>=◌}
use lightningstream.Header.{parse, masked}
use lightningstream.Lmdb.{Lmdb}
use lightningstream.Lmdb.Entries.{Entry}
use lightningstream.Snapshot.{Kv}
use lightningstream.Snapshot.Dbi.{Dbi, append_kv}
use lightningstream.Snapshot.Transform.{dup_sort, transform_dupsort_hack_v1}
use lightningstream.Syncer.Env.{Env, SyncConfig, open_dbi}

-- `FilterReadDBIParams`
pub record FilterParams : Type 0 where
  pub timestamp : ℕ
  pub txn_id : ℕ
  pub flags : ℕ

-- `dupsort` of the flags of a DBI
abbrev pub is_dup_sort : ℕ → Bool
is_dup_sort flags = ltb 0 (bit_and flags dup_sort)

-- What the loop reads of a value: the header's fields, and the application's value.
unfoldable pub read_value : Bool → Bytes → Result (FilterParams × Bytes)
read_value raw val = if raw then ok (record { timestamp = 0; txn_id = 0; flags = 0 }, val) else do
  (h, app_val) ← parse val
  ok (record { timestamp = h.timestamp; txn_id = h.txn_id; flags = h.flags }, app_val)

module _ (filter : Option (FilterParams → Bool)) (raw is_dup : Bool) where
  abbrev pub included : FilterParams → Bool
  included p = elim filter [ none ↦ true | some f ↦ f p ]

  -- `prev != nil && !isDupSort && bytes.Equal(prev, key)`
  abbrev pub is_duplicate : Option Bytes → Bytes → Bool
  is_duplicate none key = false
  is_duplicate (some prev) key = not is_dup && equal_bytes prev key

  -- The loop over what the cursor yields with First and then Next.
  unfoldable pub read_entries : Option Bytes → List Entry → Result (List Kv)
  unfolding read_value append_kv equal_bytes
  read_entries prev [] = ok []
  read_entries prev ((key, val) ∷ rest) = if is_duplicate prev key then err duplicate_key else do
    (p, app_val) ← read_value raw val
    kvs ← read_entries (some key) rest
    ok (
        if included p
        then append_kv
            (record {
              key = key;
              value = app_val;
              timestamp_nano = p.timestamp;
              flags = masked p.flags;
            })
            kvs
        else kvs)

module _ (l : Lmdb) (env : Env l) (conf : SyncConfig) (filter : Option (FilterParams → Bool)) where
  -- `readDBI`
  unfoldable pub read_dbi : env.Txn → Bytes → Bytes → Bool → Result Dbi
  unfolding open_dbi read_entries equal_bytes
  read_dbi t dbi_name orig_dbi_name raw = do
    (own_flags, d) ← open_dbi l env t dbi_name
    flags ←
        if not (equal_bytes dbi_name orig_dbi_name)
        then (do (orig_flags, orig) ← open_dbi l env t orig_dbi_name; ok orig_flags)
        else ok own_flags
    if is_dup_sort flags && not conf.dup_sort_hack then err dupsort_disabled else do
      kvs ← read_entries filter raw (is_dup_sort flags) none (l.entries d)
      ok (record {
        name = orig_dbi_name;
        flags = flags;
        transform = if is_dup_sort flags then transform_dupsort_hack_v1 else [];
        entries = kvs;
      })
