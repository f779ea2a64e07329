-- ===== src/Memory.antt =====
-- A DBI in memory, which has the behaviour that the program relies on.
use native.Mathlib.Decide.{dec_lt, dec_le}
use lightningstream.Base.{◌≤◌, ◌<◌, ◌≡◌, refl, inl, inr, List, [], ◌∷◌, All, length, head?}
use lightningstream.Base.Bytes.{Bytes, Lt, Ordering-cases, compare_bytes, eq_of_compare, Lt_of_gt}
use lightningstream.Base.Result.{Result, ok, err, external}
use lightningstream.Lmdb.{Lmdb, IsKey, IsOrderedMap, max_key_size}
use lightningstream.Lmdb.Entries.{
  Entry, IsSorted, Above, Above-trans, lookup, insert, erase, beyond,
}

Above-insert : (j k v : Bytes) (es : List Entry) → Lt j k → Above j es → Above j (insert k v es)
unfolding insert
Above-insert j k v [] h a = (h, tt)
Above-insert j k v ((i, w) ∷ es) h (a, above) = elim (Ordering-cases (compare_bytes k i)) [
  | inl lt ↦ rw (lt, insert) (h, (a, above))
  | inr (inl eq) ↦ rw (eq, insert) (h, above)
  | inr (inr gt) ↦ rw (gt, insert) (a, Above-insert j k v es h above)
]

pub IsSorted-insert : (k v : Bytes) (es : List Entry) → IsSorted es → IsSorted (insert k v es)
unfolding insert
IsSorted-insert k v [] s = (tt, tt)
IsSorted-insert k v ((i, w) ∷ es) (a, s) = elim (Ordering-cases (compare_bytes k i)) [
  | inl lt ↦ rw (lt, insert) ((lt, Above-trans k i es lt a), (a, s))
  | inr (inl eq) ↦ rw (eq, insert) (rw (eq_of_compare k i eq) a, s)
  | inr (inr gt) ↦
      rw (gt, insert) (Above-insert i k v es (Lt_of_gt k i gt) a, IsSorted-insert k v es s)
]

pub All-insert :
    (k v : Bytes) (es : List Entry)
    → IsKey k
    → All (λ e. IsKey e.0) es
    → All (λ e. IsKey e.0) (insert k v es)
unfolding insert
All-insert k v [] h a = (h, tt)
All-insert k v ((i, w) ∷ es) h (a, rest) = elim (Ordering-cases (compare_bytes k i)) [
  | inl lt ↦ rw (lt, insert) (h, (a, rest))
  | inr (inl eq) ↦ rw (eq, insert) (h, rest)
  | inr (inr gt) ↦ rw (gt, insert) (a, All-insert k v es h rest)
]

Above-erase : (j k : Bytes) (es : List Entry) → Above j es → Above j (erase k es)
unfolding erase
Above-erase j k [] a = tt
Above-erase j k ((i, w) ∷ es) (a, above) = elim (Ordering-cases (compare_bytes k i)) [
  | inl lt ↦ rw (lt, erase) (a, Above-erase j k es above)
  | inr (inl eq) ↦ rw (eq, erase) above
  | inr (inr gt) ↦ rw (gt, erase) (a, Above-erase j k es above)
]

pub IsSorted-erase : (k : Bytes) (es : List Entry) → IsSorted es → IsSorted (erase k es)
unfolding erase
IsSorted-erase k [] s = tt
IsSorted-erase k ((i, w) ∷ es) (a, s) = elim (Ordering-cases (compare_bytes k i)) [
  | inl lt ↦ rw (lt, erase) (Above-erase i k es a, IsSorted-erase k es s)
  | inr (inl eq) ↦ rw (eq, erase) s
  | inr (inr gt) ↦ rw (gt, erase) (Above-erase i k es a, IsSorted-erase k es s)
]

pub All-erase :
    (k : Bytes) (es : List Entry) → All (λ e. IsKey e.0) es → All (λ e. IsKey e.0) (erase k es)
unfolding erase
All-erase k [] h = tt
All-erase k ((i, w) ∷ es) (a, rest) = elim (Ordering-cases (compare_bytes k i)) [
  | inl lt ↦ rw (lt, erase) (a, All-erase k es rest)
  | inr (inl eq) ↦ rw (eq, erase) rest
  | inr (inr gt) ↦ rw (gt, erase) (a, All-erase k es rest)
]

pub record MemoryDbi : Type 0 where
  pub held : List Entry
  pub is_sorted : IsSorted held
  pub has_keys : All (λ e. IsKey e.0) held

put_key : MemoryDbi → (k : Bytes) → Bytes → IsKey k → MemoryDbi
put_key d k v key = record {
  held = insert k v d.held;
  is_sorted = IsSorted-insert k v d.held d.is_sorted;
  has_keys = All-insert k v d.held key d.has_keys;
}

put_decided :
    MemoryDbi
    → (k : Bytes) → Bytes
    → Dec (0 < length k)
    → Dec (length k ≤ max_key_size)
    → Result MemoryDbi
put_decided d k v (yes h) (yes h') = ok (put_key d k v (h, h'))
put_decided d k v _ _ = err external

-- MDB_BAD_VALSIZE for what is no key.
unfoldable pub memory_put : MemoryDbi → Bytes → Bytes → Result MemoryDbi
unfolding put_decided put_key
memory_put d k v = put_decided d k v (dec_lt 0 (length k)) (dec_le (length k) max_key_size)

unfoldable pub memory_del : MemoryDbi → Bytes → MemoryDbi
memory_del d k = record {
  held = erase k d.held;
  is_sorted = IsSorted-erase k d.held d.is_sorted;
  has_keys = All-erase k d.held d.has_keys;
}

abbrev pub memory : Lmdb
memory = record {
  Dbi = MemoryDbi;
  flags = 0;
  get = λ d k. lookup k d.held;
  cursor_get = λ d at. head? (beyond at d.held);
  put = memory_put;
  append = memory_put;
  del = λ d k. ok (memory_del d k);
  empty = λ d. ok (record { held = []; is_sorted = tt; has_keys = tt });
  entries = λ d. d.held;
}

put_decided_lem :
    (d : MemoryDbi) (k v : Bytes) (a : Dec (0 < length k)) (b : Dec (length k ≤ max_key_size))
    → IsKey k
    → (d' : MemoryDbi) × (put_decided d k v a b ≡ ok d') × (d'.held ≡ insert k v d.held)
unfolding put_decided put_key
put_decided_lem d k v (yes a) (yes b) key = (put_key d k v (a, b), refl, refl)
put_decided_lem d k v (yes a) (no b) key = absurd (b key.1)
put_decided_lem d k v (no a) b key = absurd (a key.0)

memory_put_lem :
    (d : MemoryDbi) (k v : Bytes)
    → IsKey k
    → (d' : MemoryDbi) × (memory_put d k v ≡ ok d') × (d'.held ≡ insert k v d.held)
unfolding memory_put
memory_put_lem d k v key =
    put_decided_lem d k v (dec_lt 0 (length k)) (dec_le (length k) max_key_size) key

pub memory-IsOrderedMap : IsOrderedMap memory
unfolding memory_del
memory-IsOrderedMap = record {
  sorted = λ d. d.is_sorted;
  keys = λ d. d.has_keys;
  get_lem = λ d k. refl;
  cursor_get_lem = λ d at. refl;
  put_lem = memory_put_lem;
  append_lem = λ d k v key b. memory_put_lem d k v key;
  del_lem = λ d k v e. (memory_del d k, refl, refl);
  empty_lem = λ d. (record { held = []; is_sorted = tt; has_keys = tt }, refl, refl);
}
