-- ===== src/Syncer/Program/Synced.antt =====
-- What the sync loop with the calls of the program leaves to be sent.
use lightningstream.Base.{ℕ, ◌≤◌, ◌≡◌, Bool, true, Option}
use lightningstream.Base.Result.{ok}
use lightningstream.Lmdb.{Lmdb}
use lightningstream.Syncer.Env.{Env, SyncConfig}
use lightningstream.Syncer.Read.{FilterParams}
use lightningstream.Syncer.Loading.{NumbersTxns}
use lightningstream.Syncer.Send.{Storage}
use lightningstream.Syncer.Echo.{loop_passes-IsSynced}
use lightningstream.Syncer.Loads.{sent_count}
use lightningstream.Syncer.Loop.{LoopConfig, LoopState, loop_passes, sync_loop}
use lightningstream.Startup.{StartTracker}
use lightningstream.Syncer.CaughtUp.{sync_loop-IsCaughtUp}
use lightningstream.Syncer.Program.{Running, Surroundings, calls}
use lightningstream.Syncer.Program.Numbering.{IsAlone, calls-IsUntouched, send_snapshot-last_txn_id}

module _ (l : Lmdb) (env : Env l) (conf : SyncConfig) (filter : Option (FilterParams → Bool))
    (s : Storage) (around : Surroundings env s) where
  -- The loop with the calls of the program, where LMDB numbers its transactions one after the other,
  -- nothing but the loop writes to it, and no snapshot is forced: if LMDB has nothing that does not
  -- count as synced, then however many passes the loop makes and whatever it loads, it sends no
  -- snapshot, and LMDB still has nothing that does not count as synced.
  pub program-IsSynced :
      (loop_conf : LoopConfig) (has_data : Bool) (fuel passes n : ℕ) (stopped : Bool)
      (st st' : LoopState (calls l env conf filter s around))
      → NumbersTxns l env
      → IsAlone l env conf filter s around
      → (env.last_txn_id st.world.world ≡ ok st.last_synced)
        × (sent_count (calls l env conf filter s around) st.log ≡ n)
      → loop_passes (calls l env conf filter s around) loop_conf has_data fuel passes st
        ≡ ok (stopped, st')
      → (env.last_txn_id st'.world.world ≡ ok st'.last_synced)
        × (sent_count (calls l env conf filter s around) st'.log ≡ n)
  program-IsSynced loop_conf has_data fuel passes n stopped st st' numbers alone synced h =
      loop_passes-IsSynced (calls l env conf filter s around)
        (calls-IsUntouched l env conf filter s around numbers alone) n loop_conf has_data fuel
        passes stopped st st' synced h

  -- `syncLoop` with the calls of the program, where LMDB numbers its transactions one after the
  -- other, whatever the application and the other goroutines do between two passes and before a
  -- call of `Next`: when it stops after a single pass over all instances (`OnlyOnce`), no
  -- transaction of LMDB is newer than the one that counts as synced.
  pub program-IsCaughtUp :
      (loop_conf : LoopConfig) (fuel passes : ℕ) (w : Running env s) (tracker : StartTracker)
      (st : LoopState (calls l env conf filter s around))
      → NumbersTxns l env
      → sync_loop (calls l env conf filter s around) loop_conf fuel passes w tracker ≡ ok (true, st)
      → (last : ℕ) × (env.last_txn_id st.world.world ≡ ok last) × (last ≤ st.last_synced)
  program-IsCaughtUp loop_conf fuel passes w tracker st numbers h =
      sync_loop-IsCaughtUp (calls l env conf filter s around)
        (send_snapshot-last_txn_id l env conf filter s around numbers) loop_conf fuel passes w
        tracker st h
