-- ===== src/Strategy/Tests.antt =====
-- The strategies on a DBI in memory, and the theorems at concrete inputs.
use lightningstream.Base.{◌++◌, false, ℕ, ◌≡◌, refl, true, none, some, List, [], ◌∷◌, arith}
use lightningstream.Base.Bytes.{Bytes, Lt, compare_bytes}
use lightningstream.Base.Result.{ok}
use lightningstream.Lmdb.Entries.{Entry, lookup}
use lightningstream.Memory.{memory, MemoryDbi, memory-IsOrderedMap}
use lightningstream.Strategy.{Item, Iterator}
use lightningstream.Strategy.Join.{joined, find_item}
use lightningstream.Strategy.Strategies.{iter_update, iter_put}
use lightningstream.Strategy.Put.{put_value, iter_put-put_value}
use lightningstream.Snapshot.{Kv}
use lightningstream.Header.{put_basic}
use lightningstream.Iterators.{NativeIterator}
use lightningstream.Iterators.Lww.{Version}
use lightningstream.Strategy.Source.{plain_source, plain_value, iter_update-plain_value}
use lightningstream.Strategy.Update.{update_policy, iter_update-joined}

-- An item whose value replaces what is there.
abbrev item : ℕ → Bytes → Item
item k v = record { key = k ∷ []; merge = λ old. ok (some v) }

-- The keys 2 and 4 are written, other keys are deleted.
abbrev two_items : Iterator
two_items = record {
  items = item 2 (22 ∷ []) ∷ item 4 (44 ∷ []) ∷ [];
  ends_with = none;
  clean = λ old. ok none;
}

abbrev held : List Entry
held = (1 ∷ [], 11 ∷ []) ∷ (2 ∷ [], 12 ∷ []) ∷ []

one_two : Lt (1 ∷ []) (2 ∷ [])
unfolding compare_bytes
one_two = refl

abbrev dbi : MemoryDbi
dbi = record {
  held = held;
  is_sorted = ((one_two, tt), (tt, tt));
  has_keys = ((omega arith, omega arith), ((omega arith, omega arith), tt));
}

abbrev AnyValue : Bytes → Type 0
AnyValue v = Unit

iter_update-joined_example :
    (d' : MemoryDbi) × (iter_update memory true two_items dbi ≡ ok d')
    × ((k : Bytes)
        → lookup k d'.held
          ≡ joined (update_policy two_items) (find_item k two_items.items) (lookup k held))
unfolding compare_bytes
iter_update-joined_example =
    iter_update-joined memory true two_items AnyValue dbi memory-IsOrderedMap refl refl
      ((refl, tt), (tt, tt)) ((omega arith, omega arith), ((omega arith, omega arith), tt))
      (record { clean_ok = λ v r. (none, refl) })
      (
        ((some (22 ∷ []), refl), λ v r. (some (22 ∷ []), refl)),
        (((some (44 ∷ []), refl), λ v r. (some (44 ∷ []), refl)), tt),
      )
      (tt, (tt, tt))

iter_put-put_value_example :
    (d' : MemoryDbi) × ((iter_put memory true two_items dbi ≡ ok d')
      × ((k : Bytes) → lookup k d'.held ≡ put_value (find_item k two_items.items)))
unfolding compare_bytes
iter_put-put_value_example =
    iter_put-put_value memory true two_items dbi memory-IsOrderedMap refl refl
      ((refl, tt), (tt, tt)) ((omega arith, omega arith), ((omega arith, omega arith), tt))
      ((some (22 ∷ []), refl), ((some (44 ∷ []), refl), tt))

abbrev plain_entries : List Kv
plain_entries =
    record { key = 2 ∷ []; value = []; timestamp_nano = 0; flags = 0 }
    ∷ record { key = 4 ∷ []; value = 44 ∷ []; timestamp_nano = 0; flags = 0 }
    ∷ []

iter_update-plain_value_example :
    (d' : MemoryDbi) × ((iter_update memory true (plain_source plain_entries) dbi ≡ ok d')
      × ((k : Bytes) → lookup k d'.held ≡ plain_value k plain_entries))
unfolding compare_bytes
iter_update-plain_value_example =
    iter_update-plain_value memory true plain_entries dbi memory-IsOrderedMap refl
      ((refl, tt), (tt, tt)) ((omega arith, omega arith), ((omega arith, omega arith), tt))

-- A shadow that has two keys from the time 5, and the application's entries at the time 9: the
-- first key has another value, the second is gone.
abbrev stored_version : ℕ → Version
stored_version n = record { timestamp = 5; flags = 0; value = n ∷ [] }

abbrev stored : ℕ → Bytes
stored n = put_basic 5 2 0 ++ (n ∷ [])

abbrev shadow_dbi : MemoryDbi
unfolding compare_bytes
shadow_dbi = record {
  held = (2 ∷ [], stored 65) ∷ (4 ∷ [], stored 66) ∷ [];
  is_sorted = ((refl, tt), (tt, tt));
  has_keys = ((omega arith, omega arith), ((omega arith, omega arith), tt));
}

abbrev changed : Kv
changed = record { key = 2 ∷ []; value = 77 ∷ []; timestamp_nano = 0; flags = 0 }

abbrev to_shadow : NativeIterator
to_shadow = record {
  default_timestamp = 9;
  txn_id = 3;
  format_version = 3;
  padding_block = false;
  deleted_cutoff = 0;
}
