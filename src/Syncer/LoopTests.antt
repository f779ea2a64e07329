-- ===== src/Syncer/LoopTests.antt =====
-- Concrete runs of the sync loop, and the theorems about it at concrete inputs.
use lightningstream.Base.{
  ℕ, ◌+◌, ◌≡◌, refl, ltb, Bool, true, false, none, some, List, [], ◌∷◌, arith,
}
use lightningstream.Base.Bytes.{Bytes, equal_bytes, compare_bytes}
use lightningstream.Base.Maps.{contains, any, filter}
use lightningstream.Base.Result.{Result, ok, err}
use lightningstream.Health.{new_tracker, add_failure, add_success}
use lightningstream.Instances.{
  add_instance, remove_instance, is_done, has_instance, remove_all, clean_disappeared,
}
use lightningstream.Startup.{new_start, set_passed}
use lightningstream.Syncer.Send.{Storage, store_loop}
use lightningstream.Syncer.Retry.{Ends, store_loop-Ends}
use lightningstream.Syncer.Loop.{
  Calls, LoopConfig, loaded, gone, sent, LoopState, ends_wait, wait_after, load_update, load_next,
  load_ready, clean_waiting, store_snapshot, send_changes, loop_pass, loop_passes, wait_for_all,
  at_start, loop_start,
}
use lightningstream.Syncer.Waiting.{sends_after}
use lightningstream.Syncer.Sending.{loop_pass-sends_after}

-- The own instance is "A". A state is the last transaction, and the instances whose snapshots are
-- ready. A load is a transaction; the snapshot of "A" becomes ready while the loop sleeps.
abbrev a : Bytes
a = 65 ∷ []

abbrev b : Bytes
b = 66 ∷ []

abbrev toy : Calls
toy = record {
  State = ℕ × List Bytes;
  Update = Bytes;
  is_snapshot = λ u. true;
  first_listing = λ w. w;
  next = λ w. elim w.1 [ [] ↦ (none, (w.0, [])) | i ∷ is ↦ (some (i, i), (w.0, is)) ];
  seen_instances = λ w. a ∷ b ∷ [];
  has_snapshots = λ w. true;
  last_txn_id = λ w. ok w.0;
  load_once = λ w i u last. ok (w.0 + 1, ltb last w.0, (w.0 + 1, w.1));
  send_once = λ w. ok (w.0, w);
  save_main = λ w. ok w;
  instance_ready = none;
  start_receiver = λ w. w;
  is_overdue = λ w. false;
  snapshot_overdue = λ w. ok w;
  sleep = λ w. ok (w.0, a ∷ []);
  sort = λ xs. xs;
}

abbrev conf_a : LoopConfig
conf_a = record { own_instance = a; schema_tracks_changes = true; only_once = false }

abbrev state_of : Result (LoopState toy) → LoopState toy
state_of (err e) = at_start toy (0, []) [] (new_start 0)
state_of (ok st) = st

abbrev run_of : Result (Bool × LoopState toy) → LoopState toy
run_of (err e) = at_start toy (0, []) [] (new_start 0)
run_of (ok (stopped, st)) = st

-- The first pass loads the snapshot of "B"; the local changes are not sent yet. The second loads
-- that of "A", and sends them.
abbrev start_b : LoopState toy
start_b = state_of (loop_start toy conf_a true (7, b ∷ []) (new_start 0))

abbrev after_b : LoopState toy
after_b = run_of (loop_passes toy conf_a true 5 1 start_b)

abbrev after_a : LoopState toy
after_a = state_of (loop_pass toy conf_a true 5 after_b)

after_b_log : (after_b.log ≡ loaded b b ∷ gone [] ∷ []) × (after_b.waiting ≡ a ∷ [])
unfolding loop_start loop_pass loop_passes load_ready load_next load_update wait_after ends_wait
    clean_waiting send_changes store_snapshot set_passed wait_for_all add_instance remove_instance
    is_done has_instance remove_all clean_disappeared contains any filter equal_bytes compare_bytes
after_b_log = (refl, refl)

after_a_log : (after_a.log ≡ loaded b b ∷ gone [] ∷ loaded a a ∷ sent ∷ []) × (after_a.waiting ≡ [])
unfolding loop_start loop_pass loop_passes load_ready load_next load_update wait_after ends_wait
    clean_waiting send_changes store_snapshot set_passed wait_for_all add_instance remove_instance
    is_done has_instance remove_all clean_disappeared contains any filter equal_bytes compare_bytes
after_a_log = (refl, refl)

loop_pass-sends_after_example : sends_after toy a false after_a.log ≡ true
unfolding loop_start loop_pass loop_passes load_ready load_next load_update wait_after ends_wait
    clean_waiting send_changes store_snapshot set_passed wait_for_all add_instance remove_instance
    is_done has_instance remove_all clean_disappeared contains any filter equal_bytes compare_bytes
loop_pass-sends_after_example =
    loop_pass-sends_after toy conf_a (λ i xs. refl) true 5 1 (7, b ∷ []) (new_start 0) false start_b
      after_b after_a refl refl refl refl refl

-- There is always another snapshot, and every load finds local changes.
abbrev busy : Calls
busy = record toy {
  next = λ w. (some (b, b), w);
  load_once = λ w i u last. ok (w.0 + 1, true, (w.0 + 1, w.1));
}

abbrev busy_start : LoopState busy
busy_start = at_start busy (7, []) [] (new_start 0)

abbrev count_of : Result (ℕ × LoopState busy) → ℕ
count_of (err e) = 0
count_of (ok r) = r.0

-- The loop does load 11 snapshots.
eleven_loads : count_of (load_ready busy 20 0 busy_start) ≡ 11
unfolding loop_start loop_pass loop_passes load_ready load_next load_update wait_after ends_wait
    clean_waiting send_changes store_snapshot set_passed wait_for_all add_instance remove_instance
    is_done has_instance remove_all clean_disappeared contains any filter equal_bytes compare_bytes
eleven_loads = refl

-- A storage that fails once.
abbrev flaky : Storage
flaky = record {
  State = List Bool;
  store = λ w. elim w [
    | [] ↦ (none, [])
    | fails ∷ rest ↦ (elim fails [ true ↦ some (101 ∷ []) | false ↦ none ], rest)
  ];
  now = λ w. 3;
  sleep = λ w. ok w;
  update_stored = λ w. ok w;
}

store_loop-Ends_example :
    Ends flaky 2 new_tracker (true ∷ false ∷ []) (true, record new_tracker { since = 3 }, [])
unfolding store_loop add_failure add_success
store_loop-Ends_example =
    store_loop-Ends flaky 1 new_tracker (true ∷ false ∷ [])
      (true, record new_tracker { since = 3 }, []) (omega arith) refl
