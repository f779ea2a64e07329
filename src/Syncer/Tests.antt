-- ===== src/Syncer/Tests.antt =====
-- Concrete runs of the transactions of the syncer, and the theorems at concrete inputs.
use lightningstream.Base.{
  ℕ, ◌≡◌, refl, inl, inr, Bool, true, false, Option, none, some, List, [], ◌∷◌,
}
use lightningstream.Base.Bytes.{Bytes, equal_bytes, compare_bytes}
use lightningstream.Base.Maps.{find, assign}
use lightningstream.Base.Result.{Result, ok, err, ok_inj}
use lightningstream.Memory.{memory}
use lightningstream.Snapshot.Dbi.{append_kv, Dbi}
use lightningstream.Lmdb.Entries.{lookup, insert, beyond}
use lightningstream.Syncer.Env.{SyncConfig}
use lightningstream.Syncer.Load.{Update, load_txn, load_once}
use lightningstream.Syncer.Touched.{IsWritten}
use lightningstream.Syncer.Loading.{load_txn-find_dbi, load_once-last_txn_id}
use lightningstream.Syncer.MemoryEnv.{
  MemoryWorld, MemoryTxn, memory_env, memory_env-KeepsOthers, memory_env-NumbersTxns,
}
use lightningstream.Syncer.MemoryEnv.{memory_begin, memory_create, memory_save}
use lightningstream.Iterators.{
  merge, add_header, clean, merge_parsed, new_native_iterator, plain_clean, plain_merge,
  written_flags,
}
use lightningstream.Header.{is_deleted, put_basic, parse, get_num_extra, header_of, masked}
use lightningstream.Snapshot.{masked_flags}
use lightningstream.Memory.{memory_put}
use lightningstream.Strategy.{
  fetch_item, fetch_entry, accept_item, advance, bytes_to_int, compare_integers, compare_keys,
  found_entry, iter_both, iter_loop, next_item,
}
use lightningstream.Dupsort.{decode}
use lightningstream.Snapshot.Transform.{transform_supported, validate_transform}
use lightningstream.Strategy.Strategies.{
  clean_entry, del_if_there, iter_update, set_new_val, update, update_callback, update_entry,
  update_items,
}
use lightningstream.Syncer.Env.{
  dbi_exists, deleted_cutoff, has_prefix, open_dbi, read_dbi_names, retention_minus_cutoff,
}
use lightningstream.Syncer.Load.{create_main, create_target, load_dbi, load_dbis}
use lightningstream.Syncer.Read.{read_dbi, read_entries, read_value}
use lightningstream.Syncer.Shadow.{
  each_dbi, main_of_shadow, main_to_shadow, shadow_of_main, shadow_to_main,
}
use native.Mathlib.Decide.{dec_lt, dec_le}
use native.Mathlib.Bridge.{IsLe}

Bool-differ : true ≡ false → ⊥
Bool-differ h = cc

abbrev tracking : SyncConfig
tracking = record {
  instance_name = 65 ∷ [];
  schema_tracks_changes = true;
  dup_sort_hack = false;
  header_extra_padding_block = false;
  override_create_flags = λ name. none;
  sweeper_enabled = false;
  retention = 0;
  retention_load_cutoff = 0;
  receive_only = false;
  storage_retry_count = 2;
  storage_retry_forever = false;
  little_endian = true;
}

abbrev shadowed : SyncConfig
shadowed = record tracking { schema_tracks_changes = false }

-- A DBI "d" with one entry.
abbrev one_dbi : Dbi
one_dbi = record {
  name = 100 ∷ [];
  flags = 0;
  transform = [];
  entries = record { key = 1 ∷ []; value = 65 ∷ []; timestamp_nano = 5; flags = 0 } ∷ [];
}

abbrev one_update : Update
one_update = record {
  snapshot = record { format_version = 3; compat_version = 1; databases = one_dbi ∷ [] };
  timestamp = 9;
}

abbrev fresh : MemoryWorld
fresh = record { last = 4; dbis = [] }

-- What a load leaves of the last transaction and of a main DBI.
abbrev after :
    Result (ℕ × Bool × (MemoryWorld × List (Bytes × ℕ))) → Option (ℕ × Bool × List (Bytes × Bytes))
after (err e) = none
after (ok (txn, changed, (w, by))) = elim w.dbis [
  | [] ↦ none
  | d ∷ ds ↦ some (txn, changed, d.1.1.held)
]

-- With shadow DBIs the value arrives in the main DBI without its header.
loaded_shadowed :
    after (load_once memory memory_env shadowed none 7 8 (66 ∷ []) one_update 4 (fresh, []))
    ≡ some (5, false, (1 ∷ [], 65 ∷ []) ∷ [])
unfolding beyond load_once load_txn compare_bytes equal_bytes find assign lookup insert memory_begin
    memory_create memory_save merge add_header clean merge_parsed new_native_iterator plain_clean
    plain_merge written_flags is_deleted put_basic parse get_num_extra header_of masked masked_flags
    memory_put fetch_item fetch_entry accept_item advance bytes_to_int compare_integers compare_keys
    found_entry iter_both iter_loop next_item decode transform_supported validate_transform
    clean_entry del_if_there iter_update set_new_val update update_callback update_entry
    update_items dbi_exists deleted_cutoff has_prefix open_dbi read_dbi_names retention_minus_cutoff
    create_main create_target load_dbi load_dbis append_kv read_dbi read_entries read_value each_dbi
    main_of_shadow main_to_shadow shadow_of_main shadow_to_main dec_lt dec_le IsLe
loaded_shadowed = refl

-- A transaction in an LMDB that has a private DBI, "_sync".
abbrev private_name : Bytes
private_name = 95 ∷ 115 ∷ 121 ∷ 110 ∷ 99 ∷ []

abbrev with_private : MemoryTxn
with_private = record {
  id = 5;
  dirty = false;
  dbis = (private_name, (0, record { held = []; is_sorted = tt; has_keys = tt })) ∷ [];
}

abbrev txn_of : Result MemoryTxn → MemoryTxn
txn_of (err e) = with_private
txn_of (ok t) = t

is_private : IsWritten tracking private_name → ⊥
unfolding has_prefix
is_private (inl m) = absurd (Bool-differ m)
is_private (inr (e, x)) = absurd (Bool-differ e)

load_txn-find_dbi_example :
    find private_name
      (txn_of
        (load_txn memory memory_env tracking none 7 8 one_update.snapshot 4 with_private)).dbis
    ≡ find private_name with_private.dbis
unfolding beyond load_once load_txn compare_bytes equal_bytes find assign lookup insert memory_begin
    memory_create memory_save merge add_header clean merge_parsed new_native_iterator plain_clean
    plain_merge written_flags is_deleted put_basic parse get_num_extra header_of masked masked_flags
    memory_put fetch_item fetch_entry accept_item advance bytes_to_int compare_integers compare_keys
    found_entry iter_both iter_loop next_item decode transform_supported validate_transform
    clean_entry del_if_there iter_update set_new_val update update_callback update_entry
    update_items dbi_exists deleted_cutoff has_prefix open_dbi read_dbi_names retention_minus_cutoff
    create_main create_target load_dbi load_dbis append_kv read_dbi read_entries read_value each_dbi
    main_of_shadow main_to_shadow shadow_of_main shadow_to_main dec_lt dec_le IsLe
load_txn-find_dbi_example = ok_inj (
    load_txn-find_dbi memory memory_env tracking none 7 8 one_update.snapshot 4 with_private
      (txn_of (load_txn memory memory_env tracking none 7 8 one_update.snapshot 4 with_private))
      private_name memory_env-KeepsOthers is_private refl)

abbrev world_of : Result (ℕ × Bool × (MemoryWorld × List (Bytes × ℕ))) → MemoryWorld
world_of (err e) = fresh
world_of (ok (txn, changed, (w, by))) = w

load_once-last_txn_id_example :
    (false ≡ false)
    × ((ok
            (world_of (
              load_once memory memory_env tracking none 7 8
                (66 ∷ [])
                one_update
                4
                (fresh, []))).last
          ≡ ok 5)
        × (◌≡◌ {A = List (Bytes × ℕ)} ((66 ∷ [], 9) ∷ []) (assign (66 ∷ []) 9 [])))
unfolding beyond load_once load_txn compare_bytes equal_bytes find assign lookup insert memory_begin
    memory_create memory_save merge add_header clean merge_parsed new_native_iterator plain_clean
    plain_merge written_flags is_deleted put_basic parse get_num_extra header_of masked masked_flags
    memory_put fetch_item fetch_entry accept_item advance bytes_to_int compare_integers compare_keys
    found_entry iter_both iter_loop next_item decode transform_supported validate_transform
    clean_entry del_if_there iter_update set_new_val update update_callback update_entry
    update_items dbi_exists deleted_cutoff has_prefix open_dbi read_dbi_names retention_minus_cutoff
    create_main create_target load_dbi load_dbis append_kv read_dbi read_entries read_value each_dbi
    main_of_shadow main_to_shadow shadow_of_main shadow_to_main dec_lt dec_le IsLe
load_once-last_txn_id_example =
    load_once-last_txn_id memory memory_env tracking none 7 8 (66 ∷ []) one_update 4 5 false fresh
      (world_of (load_once memory memory_env tracking none 7 8 (66 ∷ []) one_update 4 (fresh, [])))
      [] ((66 ∷ [], 9) ∷ []) memory_env-NumbersTxns refl refl
