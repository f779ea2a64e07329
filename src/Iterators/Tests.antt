-- ===== src/Iterators/Tests.antt =====
-- Concrete merges, and the theorems at concrete inputs.
use mathlib.Core.List.Perm
use lightningstream.Base.{ℕ, ◌≡◌, refl, false, some, List, [], ◌∷◌, ◌++◌, arith, ◌<◌, ◌^◌}
use lightningstream.Base.Bytes.{Bytes, compare_bytes}
use lightningstream.Base.Result.{ok, err, bad_format, no_txn_id}
use lightningstream.Header.{parse, put_basic, is_deleted}
use lightningstream.Snapshot.{Kv, masked_flags}
use lightningstream.Iterators.{
  NativeIterator, new_native_iterator, merge, add_header, written_flags,
}
use lightningstream.Iterators.Lww.{Version, version_of, incoming, lww}
use lightningstream.Iterators.Writing.{Fits}
use lightningstream.Iterators.Merging.{merge-lww, merge_twice}
use lightningstream.Iterators.Convergence.{Fresh, receive_all, stored_version, receive_all-perm}

abbrev at_txn : ℕ → NativeIterator
at_txn n = record {
  default_timestamp = 50;
  txn_id = n;
  format_version = 3;
  padding_block = false;
  deleted_cutoff = 10;
}

abbrev entry_at : ℕ → Bytes → Kv
entry_at ts val = record { key = 107 ∷ []; value = val; timestamp_nano = ts; flags = 0 }

abbrev deletion_at : ℕ → Kv
deletion_at ts = record { key = 107 ∷ []; value = []; timestamp_nano = ts; flags = 1 }

abbrev stored : Bytes
stored = put_basic 20 1 0 ++ (66 ∷ [])

abbrev stored_is : Version
stored_is = record { timestamp = 20; flags = 0; value = 66 ∷ [] }

refused :
    (new_native_iterator 0 1 50 7 10 ≡ err bad_format)
    × (new_native_iterator 4 4 50 7 10 ≡ err bad_format)
    × (new_native_iterator 3 1 50 0 10 ≡ err no_txn_id)
    × (new_native_iterator 4 3 50 7 10 ≡ ok (record (at_txn 7) { format_version = 4 }))
unfolding new_native_iterator
refused = (refl, refl, refl, refl)

version_of-stored : version_of stored ≡ ok stored_is
unfolding version_of parse put_basic
version_of-stored = refl

abbrev tie : Kv
tie = entry_at 20 (65 ∷ [])

-- At equal timestamps the lower value wins.
merge_tie : merge (at_txn 7) tie stored ≡ ok (some (put_basic 20 7 0 ++ (65 ∷ [])))
unfolding merge parse put_basic add_header masked_flags is_deleted compare_bytes
merge_tie = refl

tie-Fits : Fits (at_txn 7) tie
unfolding is_deleted masked_flags
tie-Fits = record {
  default_timestamp = omega arith;
  txn_id = omega arith;
  timestamp = omega arith;
  no_value = λ h. cc h;
}

merge-lww_example :
    (val : Bytes) × (merge (at_txn 7) tie stored ≡ ok (some val))
    × (version_of val ≡ ok (lww stored_is (incoming (at_txn 7) tie)))
merge-lww_example =
    merge-lww (at_txn 7) tie stored stored_is tie-Fits (omega arith) version_of-stored

merge_twice_example :
    (val : Bytes) × (merge (at_txn 7) tie stored ≡ ok (some val))
    × (merge (at_txn 8) tie val ≡ ok (some val))
merge_twice_example =
    merge_twice (at_txn 7) (at_txn 8) tie stored stored_is tie-Fits (omega arith) version_of-stored

deletion-Fits : (ts : ℕ) → ts < 2 ^ 64 → Fits (at_txn 7) (deletion_at ts)
deletion-Fits ts h = record {
  default_timestamp = omega arith;
  txn_id = omega arith;
  timestamp = h;
  no_value = λ _. refl;
}

-- An entry that was read from a DBI of the application's.
abbrev raw : Kv
raw = entry_at 0 (65 ∷ [])

raw-Fits : Fits (at_txn 7) raw
unfolding is_deleted masked_flags
raw-Fits = record {
  default_timestamp = omega arith;
  txn_id = omega arith;
  timestamp = omega arith;
  no_value = λ h. cc h;
}

-- A change and a deletion of one key, in both orders.
abbrev first_order : List (NativeIterator × Kv)
first_order = (at_txn 7, tie) ∷ (at_txn 7, deletion_at 30) ∷ []

abbrev second_order : List (NativeIterator × Kv)
second_order = (at_txn 7, deletion_at 30) ∷ (at_txn 7, tie) ∷ []

abbrev deleted_if_empty : ℕ → Bytes → ℕ
deleted_if_empty ts [] = 1
deleted_if_empty ts (b ∷ bs) = 0

tie-Fresh : Fresh (at_txn 7, tie)
tie-Fresh = record { fits = tie-Fits; has_timestamp = omega arith; not_stale = λ _. omega arith }

deletion-Fresh : Fresh (at_txn 7, deletion_at 30)
deletion-Fresh = record {
  fits = deletion-Fits 30 (omega arith);
  has_timestamp = omega arith;
  not_stale = λ _. omega arith;
}

receive_all-perm_example :
    (x : Bytes) × (y : Bytes) × (receive_all first_order stored ≡ ok x)
    × (receive_all second_order stored ≡ ok y)
    × (stored_version x ≡ stored_version y)
unfolding stored_version incoming written_flags is_deleted masked_flags version_of parse put_basic
receive_all-perm_example =
    receive_all-perm deleted_if_empty first_order second_order stored (some stored_is)
      (Perm.swap (incoming (at_txn 7) (deletion_at 30)) (incoming (at_txn 7) tie) [])
      (tie-Fresh, (deletion-Fresh, tt)) (deletion-Fresh, (tie-Fresh, tt)) refl refl
      (refl, (refl, tt))
