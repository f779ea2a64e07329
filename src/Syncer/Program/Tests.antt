-- ===== src/Syncer/Program/Tests.antt =====
-- A run of the sync loop with the calls of the program, in memory.
use native.Mathlib.Decide.{dec_lt, dec_le}
use native.Mathlib.Bridge.{IsLe}
use lightningstream.Base.{
  ℕ, ◌+◌, ◌≤◌, ◌≡◌, refl, Bool, true, false, none, some, [], ◌∷◌, head?, arith,
}
use lightningstream.Base.Bytes.{equal_bytes, compare_bytes}
use lightningstream.Base.Maps.{find, assign, contains, any, filter}
use lightningstream.Base.Result.{Result, ok, err}
use lightningstream.Climit.{release}
use lightningstream.Memory.{memory, memory_put}
use lightningstream.Lmdb.Entries.{lookup, insert, beyond}
use lightningstream.Snapshot.{masked_flags}
use lightningstream.Snapshot.Name.{NameInfo, kind_snapshot, parse_name}
use lightningstream.Snapshot.Dbi.{append_kv, Dbi}
use lightningstream.Snapshot.Transform.{transform_supported, validate_transform}
use lightningstream.Header.{is_deleted, put_basic, parse, get_num_extra, header_of, masked}
use lightningstream.Iterators.{
  merge, add_header, clean, merge_parsed, new_native_iterator, plain_clean, plain_merge,
  written_flags,
}
use lightningstream.Strategy.{
  fetch_item, fetch_entry, accept_item, advance, bytes_to_int, compare_integers, compare_keys,
  found_entry, iter_both, iter_loop, next_item,
}
use lightningstream.Strategy.Strategies.{
  clean_entry, del_if_there, iter_update, set_new_val, update, update_callback, update_entry,
  update_items,
}
use lightningstream.Dupsort.{decode}
use lightningstream.Health.{new_tracker, add_failure, add_success}
use lightningstream.Cleaner.{set_committed}
use lightningstream.Receiver.{receive_names, scan, notify}
use lightningstream.Receiver.Downloader.{
  Pipeline, run_once, notify_all, notify_instance, next, close, remove,
}
use lightningstream.Startup.{new_start, set_passed}
use lightningstream.Instances.{
  add_instance, remove_instance, is_done, has_instance, remove_all, clean_disappeared,
}
use lightningstream.Syncer.Env.{
  SyncConfig, dbi_exists, deleted_cutoff, has_prefix, open_dbi, read_dbi_names,
  retention_minus_cutoff,
}
use lightningstream.Syncer.Read.{read_dbi, read_entries, read_value}
use lightningstream.Syncer.Shadow.{
  each_dbi, main_of_shadow, main_to_shadow, shadow_of_main, shadow_to_main,
}
use lightningstream.Syncer.Load.{
  Snap, create_main, create_target, load_dbi, load_dbis, load_txn, load_once,
}
use lightningstream.Syncer.Send.{Storage, dump_dbis, send_txn, dump_once, store_loop, send_once}
use lightningstream.Syncer.Loop.{
  LoopConfig, LoopState, ends_wait, wait_after, load_update, load_next, load_ready, clean_waiting,
  store_snapshot, send_changes, loop_pass, loop_passes, wait_for_all, at_start, loop_start,
  sync_loop, max_consecutive_snapshot_loads,
}
use lightningstream.Syncer.Loads.{sent_count, Stops}
use lightningstream.Syncer.MemoryEnv.{
  memory_env, memory_env-NumbersTxns, memory_begin, memory_create, memory_save,
}
use lightningstream.Syncer.Program.{
  new_sender, Running, Surroundings, next_update, load_and_close, send_snapshot, save_changes,
  is_overdue, start_now, list_first, sleep_poll, calls,
}
use lightningstream.Syncer.Program.Numbering.{IsAlone}
use lightningstream.Syncer.Program.Ready.{HasChanges, program-Stops}
use lightningstream.Syncer.Program.Synced.{program-IsSynced, program-IsCaughtUp}

abbrev tracking : SyncConfig
tracking = record {
  instance_name = 65 ∷ [];
  schema_tracks_changes = true;
  dup_sort_hack = false;
  header_extra_padding_block = false;
  override_create_flags = λ name. none;
  sweeper_enabled = false;
  retention = 0;
  retention_load_cutoff = 0;
  receive_only = false;
  storage_retry_count = 2;
  storage_retry_forever = false;
  little_endian = true;
}

-- A storage that counts what it stores.
abbrev counting : Storage
counting = record {
  State = ℕ;
  store = λ n. (none, n + 1);
  now = λ n. 3;
  sleep = λ n. ok n;
  update_stored = λ n. ok n;
}

abbrev quiet : Surroundings memory_env counting
quiet = record {
  meanwhile = λ w. w;
  listing = λ w. [];
  parse_time = λ t. none;
  first = λ p. elim (head? p.snapshots_by_instance) [ none ↦ [] | some e ↦ e.0 ];
  times = λ w. (7, 8);
  pack = λ ds txn_id n. ok (true, n);
  fuel = 0;
  instance_ready = none;
  snapshot_overdue = λ w. ok w;
  sort = λ names. names;
  force_snapshot_interval = 0;
}

-- The snapshot of "B" is ready: a DBI "d" with one entry.
abbrev name_b : NameInfo
name_b = record {
  full_name = 98 ∷ [];
  base_name = [];
  extension = [];
  kind = kind_snapshot;
  syncer_name = [];
  instance_id = 66 ∷ [];
  generation_id = [];
  timestamp_string = [];
  timestamp = 9;
  extra = [];
}

abbrev one_dbi : Dbi
one_dbi = record {
  name = 100 ∷ [];
  flags = 0;
  transform = [];
  entries = record { key = 1 ∷ []; value = 65 ∷ []; timestamp_nano = 5; flags = 0 } ∷ [];
}

abbrev ready_b : Pipeline Snap
ready_b = record {
  receiver = record {
    prefix = [];
    own_instance = 65 ∷ [];
    last_notified_by_instance = [];
    ignored_filenames = [];
    last_seen_by_instance = [];
    has_snapshots = false;
    corrupt_snapshots = [];
  };
  snapshots_by_instance =
      (
        66 ∷ [],
        record {
          snapshot = record { format_version = 3; compat_version = 1; databases = one_dbi ∷ [] };
          name_info = name_b;
          token = 0;
        },
      )
      ∷ [];
  downloaders_by_instance = [];
  decompressed_snapshot_limit = record { capacity = 1; free = 0; released = false ∷ [] };
  download_snapshot_limit = record { capacity = 1; free = 1; released = [] };
  storage_load_health = new_tracker;
  taken = [];
}

abbrev start : Running memory_env counting
start = record {
  world = record { last = 4; dbis = [] };
  storage = 0;
  pipeline = ready_b;
  last_by_instance = [];
  sender =
      new_sender false []
        (record { enabled = true; must_keep_interval = 1; remove_old_instances_interval = 1 });
}

abbrev loop_conf : LoopConfig
loop_conf = record { own_instance = 65 ∷ []; schema_tracks_changes = true; only_once = true }

abbrev at_rest : LoopState (calls memory memory_env tracking none counting quiet)
at_rest = at_start (calls memory memory_env tracking none counting quiet) start [] (new_start 0)

abbrev state_of :
    Result (Bool × LoopState (calls memory memory_env tracking none counting quiet))
    → LoopState (calls memory memory_env tracking none counting quiet)
state_of (err e) = at_rest
state_of (ok (stopped, st)) = st

abbrev final : LoopState (calls memory memory_env tracking none counting quiet)
final = state_of (
    sync_loop (calls memory memory_env tracking none counting quiet) loop_conf 5 1 start
      (new_start 0))

-- One snapshot is stored at the start; the load of the snapshot of "B" is not sent.
final_state : (final.world.storage ≡ 1) × (final.last_synced ≡ 5)
unfolding loop_start loop_pass loop_passes load_ready load_next load_update wait_after ends_wait
    clean_waiting send_changes store_snapshot set_passed wait_for_all add_instance remove_instance
    is_done has_instance remove_all clean_disappeared contains any filter equal_bytes compare_bytes
    sync_loop new_sender next_update load_and_close send_snapshot save_changes is_overdue start_now
    list_first sleep_poll dump_dbis send_txn dump_once store_loop send_once add_failure add_success
    set_committed receive_names scan notify run_once notify_all notify_instance next close remove
    release parse_name beyond load_once load_txn find assign lookup insert memory_begin
    memory_create memory_save merge add_header clean merge_parsed new_native_iterator plain_clean
    plain_merge written_flags is_deleted put_basic parse get_num_extra header_of masked masked_flags
    memory_put fetch_item fetch_entry accept_item advance bytes_to_int compare_integers compare_keys
    found_entry iter_both iter_loop next_item decode transform_supported validate_transform
    clean_entry del_if_there iter_update set_new_val update update_callback update_entry
    update_items dbi_exists deleted_cutoff has_prefix open_dbi read_dbi_names retention_minus_cutoff
    create_main create_target load_dbi load_dbis append_kv read_dbi read_entries read_value each_dbi
    main_of_shadow main_to_shadow shadow_of_main shadow_to_main dec_lt dec_le IsLe
final_state = (refl, refl)

program-IsCaughtUp_example :
    (last : ℕ) × (memory_env.last_txn_id final.world.world ≡ ok last) × (last ≤ final.last_synced)
unfolding loop_start loop_pass loop_passes load_ready load_next load_update wait_after ends_wait
    clean_waiting send_changes store_snapshot set_passed wait_for_all add_instance remove_instance
    is_done has_instance remove_all clean_disappeared contains any filter equal_bytes compare_bytes
    sync_loop new_sender next_update load_and_close send_snapshot save_changes is_overdue start_now
    list_first sleep_poll dump_dbis send_txn dump_once store_loop send_once add_failure add_success
    set_committed receive_names scan notify run_once notify_all notify_instance next close remove
    release parse_name beyond load_once load_txn find assign lookup insert memory_begin
    memory_create memory_save merge add_header clean merge_parsed new_native_iterator plain_clean
    plain_merge written_flags is_deleted put_basic parse get_num_extra header_of masked masked_flags
    memory_put fetch_item fetch_entry accept_item advance bytes_to_int compare_integers compare_keys
    found_entry iter_both iter_loop next_item decode transform_supported validate_transform
    clean_entry del_if_there iter_update set_new_val update update_callback update_entry
    update_items dbi_exists deleted_cutoff has_prefix open_dbi read_dbi_names retention_minus_cutoff
    create_main create_target load_dbi load_dbis append_kv read_dbi read_entries read_value each_dbi
    main_of_shadow main_to_shadow shadow_of_main shadow_to_main dec_lt dec_le IsLe
program-IsCaughtUp_example =
    program-IsCaughtUp memory memory_env tracking none counting quiet loop_conf 5 1 start
      (new_start 0) final memory_env-NumbersTxns refl

quiet-IsAlone : IsAlone memory memory_env tracking none counting quiet
quiet-IsAlone = record { meanwhile_lem = λ w. refl; unforced = refl }

-- The last transaction counts as synced.
abbrev synced : LoopState (calls memory memory_env tracking none counting quiet)
synced = record at_rest { last_synced = 4 }

abbrev after_load : LoopState (calls memory memory_env tracking none counting quiet)
after_load =
    state_of
      (loop_passes (calls memory memory_env tracking none counting quiet) loop_conf true 5 1 synced)

program-IsSynced_example :
    (memory_env.last_txn_id after_load.world.world ≡ ok after_load.last_synced)
    × (sent_count (calls memory memory_env tracking none counting quiet) after_load.log ≡ 0)
unfolding loop_start loop_pass loop_passes load_ready load_next load_update wait_after ends_wait
    clean_waiting send_changes store_snapshot set_passed wait_for_all add_instance remove_instance
    is_done has_instance remove_all clean_disappeared contains any filter equal_bytes compare_bytes
    sync_loop new_sender next_update load_and_close send_snapshot save_changes is_overdue start_now
    list_first sleep_poll dump_dbis send_txn dump_once store_loop send_once add_failure add_success
    set_committed receive_names scan notify run_once notify_all notify_instance next close remove
    release parse_name beyond load_once load_txn find assign lookup insert memory_begin
    memory_create memory_save merge add_header clean merge_parsed new_native_iterator plain_clean
    plain_merge written_flags is_deleted put_basic parse get_num_extra header_of masked masked_flags
    memory_put fetch_item fetch_entry accept_item advance bytes_to_int compare_integers compare_keys
    found_entry iter_both iter_loop next_item decode transform_supported validate_transform
    clean_entry del_if_there iter_update set_new_val update update_callback update_entry
    update_items dbi_exists deleted_cutoff has_prefix open_dbi read_dbi_names retention_minus_cutoff
    create_main create_target load_dbi load_dbis append_kv read_dbi read_entries read_value each_dbi
    main_of_shadow main_to_shadow shadow_of_main shadow_to_main dec_lt dec_le IsLe
program-IsSynced_example =
    program-IsSynced memory memory_env tracking none counting quiet loop_conf true 5 1 0 true synced
      after_load memory_env-NumbersTxns quiet-IsAlone (refl, refl) refl

-- A transaction of the application's is newer than the last one that counts as synced.
abbrev unsynced : LoopState (calls memory memory_env tracking none counting quiet)
unsynced = record at_rest { last_synced = 3 }

program-Stops_example :
    Stops
      (calls memory memory_env tracking none counting quiet)
      (HasChanges memory memory_env tracking none counting quiet)
      (load_ready
        (calls memory memory_env tracking none counting quiet)
        (max_consecutive_snapshot_loads + 1)
        0
        unsynced)
unfolding equal_bytes compare_bytes
program-Stops_example =
    program-Stops memory memory_env tracking none counting quiet unsynced memory_env-NumbersTxns
      (λ w last h. h) ((4, refl, omega arith), (refl, tt))
