-- ===== src/Syncer/Send.antt =====
-- syncer/send.go: `SendOnce` makes a snapshot of LMDB and stores it.
use lightningstream.Base.{
  ℕ, zero, suc, Bool, true, false, not, Option, none, some, List, [], ◌∷◌, if◌then◌else◌,
}
use lightningstream.Base.Bytes.{Bytes}
use lightningstream.Base.Result.{Result, ok, err, out_of_fuel, external, ◌>>=◌}
use lightningstream.Lmdb.{Lmdb}
use lightningstream.Snapshot.Dbi.{Dbi}
use lightningstream.Health.{HealthTracker, add_failure, add_success}
use lightningstream.Cleaner.{Worker, set_committed}
use lightningstream.Syncer.Env.{Env, SyncConfig, read_dbi_names, has_prefix, sync_dbi_prefix}
use lightningstream.Syncer.Read.{FilterParams, read_dbi}
use lightningstream.Syncer.Shadow.{main_to_shadow, unless_canceled}
use lightningstream.Syncer.Load.{target_of, adjusted}

-- What the retry loop has of the storage: `Store` of the snapshot's file, with the time after the
-- call, the text of an error, and `SleepContext`.
pub record Storage : Type 1 where
  pub State : Type 0
  pub store : State → Option Bytes × State
  pub now : State → ℕ
  pub sleep : State → Result State
  -- the hook `UpdateStored`, and the event of that name
  pub update_stored : State → Result State

-- The fields of `Syncer` that `SendOnce` changes.
pub record Sender : Type 0 where
  pub store_health : HealthTracker
  pub last_snapshot_time : ℕ
  pub cleaner : Worker

module _ (s : Storage) where
  -- The retry loop, with its counter: what is left of `StorageRetryCount`. With
  -- `StorageRetryForever` it is the fuel. The Boolean says whether the last error is nil.
  unfoldable pub store_loop :
      Bool → ℕ → Bool → HealthTracker → s.State → Result (Bool × HealthTracker × s.State)
  unfolding add_failure add_success
  store_loop forever zero stored ht w = if forever then err out_of_fuel else ok (stored, ht, w)
  store_loop forever (suc n) stored ht w =
      let (answer, w1) = s.store w in
      elim answer [
        | some text ↦ do
          w2 ← s.sleep w1
          store_loop forever n false (add_failure ht text (s.now w1)) w2
        | none ↦ do w2 ← s.update_stored w1; ok (true, add_success ht, w2)
      ]

module _ (l : Lmdb) (env : Env l) (conf : SyncConfig) (filter : Option (FilterParams → Bool)) where
  -- "Dump all DBIs using their shadow db"
  unfoldable pub dump_dbis : List Bytes → env.Txn → Result (List Dbi)
  unfolding has_prefix read_dbi
  dump_dbis [] t = ok []
  dump_dbis (name ∷ names) t =
      let further = dump_dbis names t in
      if has_prefix name sync_dbi_prefix then further else do
        d ← read_dbi l env conf filter t (target_of l env conf filter name) name false
        t' ← unless_canceled l env t
        ds ← further
        ok (d ∷ ds)

  -- The transaction of `SendOnce` behind the hook `BeforeRead`; `ts` is the time in it.
  unfoldable pub send_txn : ℕ → ℕ → env.Txn → Result (List Dbi × env.Txn)
  unfolding main_to_shadow read_dbi_names dump_dbis
  send_txn now ts t = do
    t' ← if not conf.schema_tracks_changes then main_to_shadow l env conf filter ts now t else ok t
    if conf.receive_only
        then ok ([], t')
        else do names ← read_dbi_names l env t'; ds ← dump_dbis names t'; ok (ds, t')

  -- `inTxn`: a native schema is only read.
  unfoldable pub dump_once : ℕ → ℕ → env.World → Result (ℕ × List Dbi × env.World)
  unfolding send_txn
  dump_once now ts w = do
    t ← if conf.schema_tracks_changes then env.begin_view w else env.begin w
    (ds, t') ← send_txn now ts t
    w' ← if conf.schema_tracks_changes then ok w else env.commit t'
    last ← env.last_txn_id w'
    ok (adjusted l env conf filter last (env.txn_id t), ds, w')

  -- `SendOnce` from the transaction on, with the health tracker, `lastSnapshotTime` and the
  -- cleaner: `pack` is `UpdateSnapshotInfo`, `BuildName` and `DumpData`, which give the storage the
  -- file that `Store` is called with, and say whether it is still of the kind of snapshots.
  unfoldable pub send_once :
      (s : Storage)
      → (List Dbi → ℕ → s.State → Result (Bool × s.State))
      → (fuel now ts : ℕ) → List (Bytes × ℕ)
      → Sender
      → env.World × s.State
      → Result (ℕ × Sender × (env.World × s.State))
  unfolding dump_once store_loop set_committed
  send_once s pack fuel now ts last_by_instance sender (w, st) = do
    (txn_id, ds, w') ← dump_once now ts w
    if conf.receive_only then ok (txn_id, sender, (w', st)) else do
      (is_snapshot, st1) ← pack ds txn_id st
      (stored, health, st2) ←
          store_loop s conf.storage_retry_forever
            (if conf.storage_retry_forever then fuel else conf.storage_retry_count) true
            sender.store_health st1
      if stored
          then ok (
            txn_id,
            record {
              store_health = health;
              last_snapshot_time = if is_snapshot then s.now st2 else sender.last_snapshot_time;
              cleaner = set_committed sender.cleaner last_by_instance;
            },
            (w', st2),
          )
          else err external
