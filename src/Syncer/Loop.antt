-- ===== src/Syncer/Loop.antt =====
-- The sync loop of syncer/sync.go: `syncLoop` with what it calls of the receiver, of LMDB and of
-- the syncer's other methods as an interface. The cleaner, the sweeper and the receiver run in
-- goroutines of their own; what they and the application do between two calls is part of what a
-- call makes of the state.
use Prim.Native.Nat.{zero, suc}
use lightningstream.Base.{
  ℕ, ◌+◌, Bool, true, false, not, ◌&&◌, ◌||◌, Option, none, some, List, [], ◌∷◌, ◌++◌, ltb,
  if◌then◌else◌,
}
use lightningstream.Base.Bytes.{Bytes}
use lightningstream.Base.Result.{Result, ok, err, out_of_fuel, ◌>>=◌}
use lightningstream.Instances.{
  InstanceSet, add_instance, remove_instance, is_done, has_instance, clean_disappeared,
}
use lightningstream.Startup.{StartTracker, listing, store, pass, set_passed}

-- `MaxConsecutiveSnapshotLoads`
abbrev pub max_consecutive_snapshot_loads : ℕ
max_consecutive_snapshot_loads = 10

-- What `syncLoop` calls. A call that may change something returns the new state.
pub record Calls : Type 1 where
  pub State : Type 0
  -- what `Receiver.Next` hands out
  pub Update : Type 0
  -- `update.NameInfo.Kind == snapshot.KindSnapshot`
  pub is_snapshot : Update → Bool
  -- the loop around `Receiver.RunOnce` at the start, until a listing has succeeded
  pub first_listing : State → State
  -- `Receiver.Next`: an instance and its update, or none
  pub next : State → Option (Bytes × Update) × State
  -- `Receiver.SeenInstances` and `Receiver.HasSnapshots`
  pub seen_instances : State → List Bytes
  pub has_snapshots : State → Bool
  -- `env.Info().LastTxnID`
  pub last_txn_id : State → Result ℕ
  -- `Syncer.LoadOnce`: the transaction ID, and whether there were local changes
  pub load_once : State → Bytes → Update → ℕ → Result (ℕ × Bool × State)
  -- `Syncer.SendOnce`
  pub send_once : State → Result (ℕ × State)
  -- `env.Update` with `mainToShadow` at the timestamp 1
  pub save_main : State → Result State
  -- the hook `InstanceReady`, if there is one
  pub instance_ready : Option (State → Update → Bool)
  -- `s.lastSnapshotTime = time.Now()`, and the start of the receiver
  pub start_receiver : State → State
  -- `forceSnapshotEnabled`, and whether the interval has passed since `lastSnapshotTime`
  pub is_overdue : State → Bool
  -- the hook `SnapshotOverdue` with the event of that name
  pub snapshot_overdue : State → Result State
  -- `utils.SleepContext`
  pub sleep : State → Result State
  -- `sort.Strings`
  pub sort : List Bytes → List Bytes

-- The configuration that the loop reads, with the instance's own name.
pub record LoopConfig : Type 0 where
  pub own_instance : Bytes
  pub schema_tracks_changes : Bool
  pub only_once : Bool

-- What the loop has done: an update that `LoadOnce` has loaded, the instances that
-- `CleanDisappeared` has removed, and a call of `SendOnce`.
pub data LoopStep (U : Type 0) : Type 0 where
  loaded : Bytes → U → LoopStep U
  gone : List Bytes → LoopStep U
  sent : LoopStep U

-- `waitingForInstances` at the start.
unfoldable pub wait_for_all : List Bytes → InstanceSet → InstanceSet
unfolding add_instance
wait_for_all [] s = s
wait_for_all (i ∷ is) s = wait_for_all is (add_instance s i)

module _ (c : Calls) where
  -- The variables of `syncLoop`, the start tracker, and what the loop has done, the first in front.
  pub record LoopState : Type 0 where
    pub world : c.State
    pub last_synced : ℕ
    pub waiting : InstanceSet
    pub warned_empty : Bool
    pub tracker : StartTracker
    pub log : List (LoopStep c.Update)

  abbrev pub note : LoopState → List (LoopStep c.Update) → LoopState
  note st steps = record st { log = st.log ++ steps }

  -- Whether an update of an awaited instance ends the wait for it.
  unfoldable pub ends_wait : c.State → c.Update → Bool
  ends_wait w u = elim c.instance_ready [ none ↦ c.is_snapshot u | some ready ↦ ready w u ]

  -- The `waitingForInstances` before the load of an update.
  unfoldable pub wait_after : LoopState → Bytes → c.Update → InstanceSet
  unfolding ends_wait has_instance remove_instance
  wait_after st instance_id u =
      if has_instance st.waiting instance_id && ends_wait st.world u
      then remove_instance st.waiting instance_id
      else st.waiting

  -- One round of the loop over the updates that are ready: `waitingForInstances`, `LoadOnce`, and
  -- the transaction ID that counts as synced.
  unfoldable pub load_update : LoopState → Bytes → c.Update → Result (Bool × LoopState)
  unfolding wait_after
  load_update st instance_id u = do
    (txn_id, local_changed, w) ← c.load_once st.world instance_id u st.last_synced
    ok (
      local_changed,
      record st {
        world = w;
        waiting = wait_after st instance_id u;
        last_synced = if local_changed then st.last_synced else txn_id;
        log = st.log ++ (loaded instance_id u ∷ []);
      },
    )

  -- One round of `loadReadySnapshotsLoop` with what `Next` returns, and the further rounds.
  unfoldable pub load_next :
      (ℕ → LoopState → Result (ℕ × LoopState))
      → ℕ
      → LoopState
      → Option (Bytes × c.Update)
      → Result (ℕ × LoopState)
  unfolding load_update
  load_next further n_loads st none = ok (n_loads, st)
  load_next further n_loads st (some (instance_id, u)) = do
    (local_changed, st') ← load_update st instance_id u
    let n = if c.is_snapshot u then n_loads + 1 else n_loads
    if local_changed && ltb max_consecutive_snapshot_loads n then ok (n, st') else further n st'

  -- `loadReadySnapshotsLoop`, from a number of loads on. It ends when no update is ready, or for a
  -- snapshot of local changes.
  unfoldable pub load_ready : ℕ → ℕ → LoopState → Result (ℕ × LoopState)
  unfolding load_next
  load_ready zero n_loads st = err out_of_fuel
  load_ready (suc fuel) n_loads st =
      let (next, w) = c.next st.world in
      load_next (load_ready fuel) n_loads (record st { world = w }) next

  -- The check for instances that have disappeared.
  unfoldable pub clean_waiting : LoopState → LoopState
  unfolding is_done clean_disappeared
  clean_waiting st =
      if is_done st.waiting
      then st
      else (let (waiting, cleaned) =
            clean_disappeared c.sort st.waiting (c.seen_instances st.world) in
          note (record st { waiting = waiting }) (gone cleaned ∷ []))

  -- `SendOnce`, and what follows it in the loop.
  unfoldable pub store_snapshot : LoopState → Result LoopState
  unfolding set_passed
  store_snapshot st = do
    (txn_id, w) ← c.send_once st.world
    ok (record st {
      world = w;
      last_synced = txn_id;
      tracker = set_passed store st.tracker;
      log = st.log ++ (sent ∷ []);
    })

  -- The check for local changes, with `env.Info().LastTxnID` and `snapshotOverdue`.
  unfoldable pub send_changes : LoopConfig → Bool → ℕ → Bool → LoopState → Result LoopState
  unfolding has_instance store_snapshot
  send_changes conf has_data last overdue st =
      if ltb st.last_synced last || overdue
      then (if has_instance st.waiting conf.own_instance
          then ok st
          else if has_data || ltb 0 last
          then store_snapshot (record st { last_synced = last })
          else ok (record st { last_synced = last; warned_empty = true }))
      else ok st

  -- One pass of the loop, up to the start tracker.
  unfoldable pub loop_pass : LoopConfig → Bool → ℕ → LoopState → Result LoopState
  unfolding load_ready clean_waiting send_changes is_done set_passed
  loop_pass conf has_data fuel st = do
    (n_loads, st1) ← load_ready fuel 0 st
    let st2 = clean_waiting st1
    let overdue = c.is_overdue st2.world
    w ← if overdue then c.snapshot_overdue st2.world else ok st2.world
    last ← c.last_txn_id w
    st3 ← send_changes conf has_data last overdue (record st2 { world = w })
    ok (record st3 {
      tracker = if is_done st3.waiting then set_passed pass st3.tracker else st3.tracker;
    })

  -- The loop, for a number of passes. `true`: it has stopped after a single pass.
  unfoldable pub loop_passes : LoopConfig → Bool → ℕ → ℕ → LoopState → Result (Bool × LoopState)
  unfolding loop_pass is_done
  loop_passes conf has_data fuel zero st = ok (false, st)
  loop_passes conf has_data fuel (suc n) st = do
    st' ← loop_pass conf has_data fuel st
    if conf.only_once && is_done st'.waiting
        then ok (true, st')
        else do w ← c.sleep st'.world; loop_passes conf has_data fuel n (record st' { world = w })

  abbrev pub at_start : c.State → List Bytes → StartTracker → LoopState
  at_start w seen tracker = record {
    world = w;
    last_synced = 0;
    waiting = wait_for_all seen [];
    warned_empty = false;
    tracker = set_passed listing tracker;
    log = [];
  }

  -- What `syncLoop` does between the first listing and the loop; `has_data` is `hasDataAtStart`.
  unfoldable pub loop_start : LoopConfig → Bool → c.State → StartTracker → Result LoopState
  unfolding store_snapshot set_passed
  loop_start conf has_data w tracker = do
    w' ← if has_data && not conf.schema_tracks_changes then c.save_main w else ok w
    let st = at_start w' (c.seen_instances w) tracker
    st' ← if has_data && not (c.has_snapshots w) then store_snapshot st else ok st
    let st'' = record st' { world = c.start_receiver st'.world }
    ok (if not has_data then record st'' { tracker = set_passed store st''.tracker } else st'')

  -- `syncLoop`, for a number of passes.
  unfoldable pub sync_loop : LoopConfig → ℕ → ℕ → c.State → StartTracker → Result (Bool × LoopState)
  unfolding loop_start loop_passes
  sync_loop conf fuel passes w tracker = do
    last ← c.last_txn_id w
    st ← loop_start conf (ltb 0 last) (c.first_listing w) tracker
    loop_passes conf (ltb 0 last) fuel passes st
