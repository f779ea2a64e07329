-- ===== src/Syncer/Load.antt =====
-- `LoadOnce` of syncer/sync.go: one transaction that merges a snapshot into LMDB.
use Prim.Native.Nat.{bit_and}
use lightningstream.Base.{
  ℕ, ◌+◌, ◌-◌, ◌%◌, ◌^◌, Bool, true, false, not, ◌&&◌, Option, none, some, List, [], ◌∷◌, ◌++◌, ltb,
  if◌then◌else◌,
}
use lightningstream.Base.Bytes.{Bytes}
use lightningstream.Base.Maps.{assign}
use lightningstream.Base.Result.{Result, ok, err, unsafe_create, ◌>>=◌}
use lightningstream.Lmdb.{Lmdb}
use lightningstream.Snapshot.Dbi.{Dbi}
use lightningstream.Snapshot.Transform.{validate_transform}
use lightningstream.Iterators.{new_native_iterator}
use lightningstream.Strategy.Strategies.{update}
use lightningstream.Strategy.Source.{native_source}
use lightningstream.Syncer.Env.{
  Env, SyncConfig, open_dbi, dbi_exists, has_prefix, sync_dbi_prefix, sync_dbi_shadow_prefix,
  allowed_shadow_dbi_flags_mask, deleted_cutoff,
}
use lightningstream.Syncer.Read.{FilterParams}
use lightningstream.Syncer.Shadow.{main_to_shadow, shadow_to_main, unless_canceled}

-- `Snapshot`: the fields that `LoadOnce` reads.
pub record Snap : Type 0 where
  pub format_version : ℕ
  pub compat_version : ℕ
  pub databases : List Dbi

-- `snapshot.Update`: the fields that `LoadOnce` reads, the timestamp that of the file name.
pub record Update : Type 0 where
  pub snapshot : Snap
  pub timestamp : ℕ

-- `header.TxnID` has 64 bits.
abbrev pub has_local_changes : ℕ → ℕ → Bool
has_local_changes last_txn_id txn_id = ltb last_txn_id ((txn_id + 2 ^ 64 - 1) % 2 ^ 64)

module _ (l : Lmdb) (env : Env l) (conf : SyncConfig) (filter : Option (FilterParams → Bool)) where
  -- The flags with which a DBI of a snapshot is created.
  abbrev pub create_flags : Dbi → ℕ
  create_flags d = elim (conf.override_create_flags d.name) [
    | none ↦ d.flags % 2 ^ 16
    | some flags ↦ flags
  ]

  abbrev pub has_override : Dbi → Bool
  has_override d = elim (conf.override_create_flags d.name) [ none ↦ false | some flags ↦ true ]

  -- "We need to create the actual data DBI too if it does not exist yet."
  unfoldable pub create_main : Snap → Dbi → env.Txn → Result env.Txn
  unfolding dbi_exists
  create_main snap d t = do
    exists ← dbi_exists l env t d.name
    if exists
        then ok t
        else if ltb snap.format_version 3 && not (has_override d)
        then err unsafe_create
        else env.create t d.name (create_flags d)

  -- "Create the target DBI if needed"
  unfoldable pub create_target : Dbi → Bytes → env.Txn → Result env.Txn
  unfolding dbi_exists
  create_target d target_name t = do
    exists ← dbi_exists l env t target_name
    let flags =
        if conf.schema_tracks_changes
        then create_flags d
        else bit_and (create_flags d) allowed_shadow_dbi_flags_mask
    if exists then ok t else env.create t target_name flags

  abbrev pub target_of : Bytes → Bytes
  target_of name = if conf.schema_tracks_changes then name else sync_dbi_shadow_prefix ++ name

  -- The body of the loop over the DBIs of a snapshot; `now` is the time at the start.
  unfoldable pub load_dbi : ℕ → Snap → env.Txn → Dbi → Result env.Txn
  unfolding has_prefix validate_transform create_main create_target open_dbi new_native_iterator
      deleted_cutoff update
  load_dbi now snap t d = if has_prefix d.name sync_dbi_prefix then ok t else do
    valid ← validate_transform d snap.format_version conf.schema_tracks_changes
    t1 ← if conf.schema_tracks_changes then ok t else create_main snap d t
    t2 ← create_target d (target_of d.name) t1
    (flags, target) ← open_dbi l env t2 (target_of d.name)
    it ←
        new_native_iterator snap.format_version snap.compat_version 0 (env.txn_id t2)
          (deleted_cutoff conf now)
    let it' = if conf.header_extra_padding_block then record it { padding_block = true } else it
    target' ← update l (native_source it' d.entries) target
    unless_canceled l env (env.save t2 (target_of d.name) target')

  unfoldable pub load_dbis : ℕ → Snap → List Dbi → env.Txn → Result env.Txn
  unfolding load_dbi
  load_dbis now snap [] t = ok t
  load_dbis now snap (d ∷ ds) t = do t' ← load_dbi now snap t d; load_dbis now snap ds t'

  -- The transaction of `LoadOnce`; `now` is the time before it, `ts` the time in it.
  unfoldable pub load_txn : ℕ → ℕ → Snap → ℕ → env.Txn → Result env.Txn
  unfolding main_to_shadow load_dbis shadow_to_main
  load_txn now ts snap last_txn_id t = do
    t1 ←
        if not conf.schema_tracks_changes && has_local_changes last_txn_id (env.txn_id t)
        then main_to_shadow l env conf filter ts now t
        else ok t
    t2 ← load_dbis now snap snap.databases t1
    if conf.schema_tracks_changes then ok t2 else shadow_to_main l env conf filter t2

  -- The transaction ID that `LoadOnce` and `SendOnce` return: a transaction that has changed
  -- nothing is not recorded.
  abbrev pub adjusted : ℕ → ℕ → ℕ
  adjusted last txn_id = if ltb last txn_id then last else txn_id

  -- `LoadOnce`, with `lastByInstance`: the transaction ID, and whether there were local changes.
  unfoldable pub load_once :
      ℕ
      → ℕ
      → Bytes
      → Update
      → ℕ
      → env.World × List (Bytes × ℕ)
      → Result (ℕ × Bool × (env.World × List (Bytes × ℕ)))
  unfolding load_txn assign
  load_once now ts instance_id u last_txn_id (w, last_by_instance) = do
    t ← env.begin w
    t' ← load_txn now ts u.snapshot last_txn_id t
    w' ← env.commit t'
    last ← env.last_txn_id w'
    ok (
      adjusted last (env.txn_id t),
      has_local_changes last_txn_id (env.txn_id t),
      (w', assign instance_id u.timestamp last_by_instance),
    )
