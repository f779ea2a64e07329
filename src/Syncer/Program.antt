-- ===== src/Syncer/Program.antt =====
-- syncer/sync.go: the calls of `syncLoop` as the functions of the package and of its receiver: `Next`,
-- `SeenInstances` and `HasSnapshots` of receiver.go, `LoadOnce` with `Close` of the update,
-- `SendOnce`, and the transaction with `mainToShadow` at the start.
pub mod Numbering
pub mod Ready
pub mod Synced
mod Tests
use lightningstream.Base.{
  ℕ, ◌-◌, Bool, true, false, not, ◌&&◌, Option, none, some, List, [], ◌∷◌, ltb, map, head?,
  if◌then◌else◌,
}
use lightningstream.Base.Bytes.{Bytes, equal_bytes}
use lightningstream.Base.Result.{Result, ok, err, panic, ◌>>=◌}
use lightningstream.Health.{new_tracker}
use lightningstream.Cleaner.{Cleanup, no_cleanup, new_worker}
use lightningstream.Lmdb.{Lmdb}
use lightningstream.Snapshot.Name.{NameInfo, kind_snapshot, initial_extensions, parse_name}
use lightningstream.Snapshot.Dbi.{Dbi}
use lightningstream.Receiver.Downloader.{Pipeline, run_once, next, close}
use lightningstream.Syncer.Env.{Env, SyncConfig}
use lightningstream.Syncer.Read.{FilterParams}
use lightningstream.Syncer.Shadow.{main_to_shadow}
use lightningstream.Syncer.Load.{Snap, load_once}
use lightningstream.Syncer.Send.{Storage, Sender, send_once}
use lightningstream.Syncer.Loop.{Calls}

-- An LMDB and the storage, with the receiver, `lastByInstance`, and what `SendOnce` changes.
pub record Running {l : Lmdb} (env : Env l) (s : Storage) : Type 0 where
  pub world : env.World
  pub storage : s.State
  pub pipeline : Pipeline Snap
  pub last_by_instance : List (Bytes × ℕ)
  pub sender : Sender

-- What is not part of the syncer.
pub record Surroundings {l : Lmdb} (env : Env l) (s : Storage) : Type 0 where
  -- what the application and the goroutines do while the loop is between two calls
  pub meanwhile : Running env s → Running env s
  -- what `List` returns at the start, and `time.Parse`
  pub listing : Running env s → List Bytes
  pub parse_time : Bytes → Option ℕ
  -- the instance that the range of `Next` comes to first; it is empty if there is none
  pub first : Pipeline Snap → Bytes
  -- the time before a transaction, and in it
  pub times : Running env s → ℕ × ℕ
  -- the file of a snapshot, and the steps of the retry loop if it has no limit
  pub pack : List Dbi → ℕ → s.State → Result (Bool × s.State)
  pub fuel : ℕ
  -- the hooks, and `sort.Strings`
  pub instance_ready : Option (NameInfo → Bool)
  pub snapshot_overdue : Running env s → Result (Running env s)
  pub sort : List Bytes → List Bytes
  -- `StorageForceSnapshotInterval`
  pub force_snapshot_interval : ℕ

-- `New`, as far as `Sender` is concerned: the cleaner is disabled in receive-only mode.
unfoldable pub new_sender : Bool → Bytes → Cleanup → Sender
new_sender receive_only name cleanup = record {
  store_health = new_tracker;
  last_snapshot_time = 0;
  cleaner = new_worker name (if receive_only then no_cleanup else cleanup);
}

module _ (l : Lmdb) (env : Env l) (conf : SyncConfig) (filter : Option (FilterParams → Bool))
    (s : Storage) (around : Surroundings env s) where
  abbrev pub Taken : Type 0
  Taken = lightningstream.Receiver.Downloader.Update Snap

  -- The update that `Next` has taken last.
  abbrev pub with_update : Bytes → Option Taken → Option (Bytes × Taken)
  with_update inst none = none
  with_update inst (some u) = some (inst, u)

  -- `Next` with the update that it returns.
  unfoldable pub next_update : Running env s → Option (Bytes × Taken) × Running env s
  unfolding next
  next_update w =
      let inst = around.first w.pipeline in
      elim (next w.pipeline inst) [
        | none ↦ (none, w)
        | some p ↦ (with_update inst (head? p.taken), record w { pipeline = p })
      ]

  -- `LoadOnce` and `update.Close()`; an error of `LoadOnce` ends the loop.
  unfoldable pub load_and_close :
      Running env s → Bytes → Taken → ℕ → Result (ℕ × Bool × Running env s)
  unfolding load_once close
  load_and_close w i u last = do
    let (now, ts) = around.times w
    (txn_id, local_changed, (world, by)) ←
        load_once l env conf filter now ts i
          (record { snapshot = u.snapshot; timestamp = u.name_info.timestamp }) last
          (w.world, w.last_by_instance)
    elim (close w.pipeline) [
      | none ↦ err panic
      | some p ↦
          ok
            (txn_id, local_changed, record w { world = world; last_by_instance = by; pipeline = p })
    ]

  -- `SendOnce`
  unfoldable pub send_snapshot : Running env s → Result (ℕ × Running env s)
  unfolding send_once
  send_snapshot w = do
    let (now, ts) = around.times w
    (txn_id, sender, (world, storage)) ←
        send_once l env conf filter s around.pack around.fuel now ts w.last_by_instance w.sender
          (w.world, w.storage)
    ok (txn_id, record w { world = world; storage = storage; sender = sender })

  -- "Syncing main to shadow, in case data was changed before start"
  unfoldable pub save_changes : Running env s → Result (Running env s)
  unfolding main_to_shadow
  save_changes w = do
    t ← env.begin w.world
    t' ← main_to_shadow l env conf filter 1 (around.times w).0 t
    world ← env.commit t'
    ok (record w { world = world })

  -- `forceSnapshotEnabled` and the test for an overdue snapshot; the interval is not negative.
  unfoldable pub is_overdue : Running env s → Bool
  is_overdue w =
      not conf.receive_only
      && ltb 0 around.force_snapshot_interval
      && ltb around.force_snapshot_interval (s.now w.storage - w.sender.last_snapshot_time)

  unfoldable pub start_now : Running env s → Running env s
  start_now w = record w { sender = record (w.sender) { last_snapshot_time = s.now w.storage } }

  unfoldable pub list_first : Running env s → Running env s
  unfolding run_once parse_name
  list_first w = record w {
    pipeline =
        run_once (parse_name initial_extensions around.parse_time) w.pipeline true
          (around.listing w);
  }

  unfoldable pub sleep_poll : Running env s → Result (Running env s)
  sleep_poll w = do st ← s.sleep w.storage; ok (around.meanwhile (record w { storage = st }))

  abbrev pub calls : Calls
  calls = record {
    State = Running env s;
    Update = Taken;
    is_snapshot = λ u. equal_bytes u.name_info.kind kind_snapshot;
    first_listing = list_first;
    next = λ w. next_update (around.meanwhile w);
    seen_instances = λ w. map (λ e. e.0) w.pipeline.receiver.last_seen_by_instance;
    has_snapshots = λ w. w.pipeline.receiver.has_snapshots;
    last_txn_id = λ w. env.last_txn_id w.world;
    load_once = load_and_close;
    send_once = send_snapshot;
    save_main = save_changes;
    instance_ready = elim around.instance_ready [
      | none ↦ none
      | some ready ↦ some (λ w u. ready u.name_info)
    ];
    start_receiver = start_now;
    is_overdue = is_overdue;
    snapshot_overdue = around.snapshot_overdue;
    sleep = sleep_poll;
    sort = around.sort;
  }
