-- ===== src/Syncer/Replication/Tests.antt =====
-- Two DBIs in memory: the sender has a newer value for the key 2, and a deletion of the key 3.
use lightningstream.Base.{◌≡◌, refl, arith, false, none, List, [], ◌∷◌, ◌++◌, All}
use lightningstream.Base.Bytes.{Bytes, Lt, compare_bytes}
use lightningstream.Base.Result.{ok}
use lightningstream.Header.{put_basic, parse, is_deleted}
use lightningstream.Lmdb.Entries.{Entry, lookup}
use lightningstream.Memory.{MemoryDbi, memory, memory-IsOrderedMap}
use lightningstream.Snapshot.{Kv}
use lightningstream.Iterators.{NativeIterator}
use lightningstream.Iterators.Lww.{Version, version_of}
use lightningstream.Strategy.Strategies.{update}
use lightningstream.Strategy.Source.{native_source}
use lightningstream.Strategy.Loaded.{
  HasVersion, IsLoadable, version_at, received_all, update-received_all,
}
use lightningstream.Syncer.Read.{read_entries}
use lightningstream.Syncer.Replication.{IsProper, IsSendable, taken_over, replicated}

in_order : Lt (2 ∷ []) (3 ∷ [])
unfolding compare_bytes
in_order = refl

abbrev sent : MemoryDbi
sent = record {
  held = (2 ∷ [], put_basic 5 2 0 ++ (65 ∷ [])) ∷ (3 ∷ [], put_basic 9 2 1) ∷ [];
  is_sorted = ((in_order, tt), (tt, tt));
  has_keys = ((omega arith, omega arith), ((omega arith, omega arith), tt));
}

abbrev own : MemoryDbi
own = record {
  held = (2 ∷ [], put_basic 4 7 0 ++ (66 ∷ [])) ∷ [];
  is_sorted = (tt, tt);
  has_keys = ((omega arith, omega arith), tt);
}

abbrev loader : NativeIterator
loader = record {
  default_timestamp = 0;
  txn_id = 8;
  format_version = 3;
  padding_block = false;
  deleted_cutoff = 7;
}

abbrev live : Version
live = record { timestamp = 5; flags = 0; value = 65 ∷ [] }

abbrev gone : Version
gone = record { timestamp = 9; flags = 1; value = [] }

live-IsProper : IsProper live
unfolding is_deleted
live-IsProper = record {
  timestamp = omega arith;
  fits = omega arith;
  flags = omega arith;
  no_value = λ h. cc h;
}

gone-IsProper : IsProper gone
gone-IsProper = record {
  timestamp = omega arith;
  fits = omega arith;
  flags = omega arith;
  no_value = λ h. refl;
}

sent-IsSendable : All (λ (e : Entry). IsSendable e.1) sent.held
unfolding version_of parse put_basic
sent-IsSendable = ((live, refl, live-IsProper), ((gone, refl, gone-IsProper), tt))

own-HasVersion : All (λ (e : Entry). HasVersion e.1) own.held
unfolding version_of parse put_basic
own-HasVersion = ((record { timestamp = 4; flags = 0; value = 66 ∷ [] }, refl), tt)

replicated_example :
    (kvs : List Kv) × (read_entries none false false none sent.held ≡ ok kvs)
    × ((own' : MemoryDbi) × (update memory (native_source loader kvs) own ≡ ok own')
        × ((k : Bytes)
            → version_at (lookup k own'.held)
              ≡ taken_over 7 (version_at (lookup k sent.held)) (version_at (lookup k own.held))))
replicated_example =
    replicated memory memory sent own loader memory-IsOrderedMap memory-IsOrderedMap (omega arith)
      (omega arith) (omega arith) sent-IsSendable own-HasVersion

-- A deletion that is newer than the cutoff.
abbrev loaded :
    IsLoadable loader (record { key = 3 ∷ []; value = []; timestamp_nano = 9; flags = 1 })
loaded = (
  record {
    default_timestamp = omega arith;
    txn_id = omega arith;
    timestamp = omega arith;
    no_value = λ h. refl;
  },
  omega arith,
)

update-received_all_example :
    (d' : MemoryDbi) × (update memory
        (native_source loader
          (record { key = 3 ∷ []; value = []; timestamp_nano = 9; flags = 1 } ∷ []))
        own
      ≡ ok d')
    × ((k : Bytes)
        → version_at (lookup k d'.held)
          ≡ received_all loader
              (record { key = 3 ∷ []; value = []; timestamp_nano = 9; flags = 1 } ∷ [])
              k
              (version_at (lookup k own.held)))
update-received_all_example =
    update-received_all memory loader
      (record { key = 3 ∷ []; value = []; timestamp_nano = 9; flags = 1 } ∷ []) own
      memory-IsOrderedMap ((omega arith, omega arith), tt) (loaded, tt) own-HasVersion
