-- ===== src/Strategy/Loaded.antt =====
-- What `Update` makes of a `NativeIterator`: how `LoadOnce` loads the entries of a snapshot.
use Prim.Native.Nat.{Ordering}
use lightningstream.Base.{
  ◌<◌, ◌≡◌, refl, sym, ap, ◌∙◌, subst, ◌&&◌, ltb, Option, none, some, List, [], ◌∷◌, All, arith,
  inl, inr, map, if◌then◌else◌, Bool-cases,
}
use lightningstream.Base.Bytes.{Bytes, compare_bytes, Ordering-cases}
use lightningstream.Base.Result.{ok, err}
use lightningstream.Header.{is_deleted}
use lightningstream.Lmdb.{Lmdb, IsOrderedMap, IsKey}
use lightningstream.Lmdb.Entries.{Entry, lookup}
use lightningstream.Snapshot.{Kv, masked_flags}
use lightningstream.Iterators.Writing.{Fits}
use lightningstream.Iterators.{NativeIterator, merge}
use lightningstream.Iterators.Lww.{Version, version_of, incoming, lww}
use lightningstream.Iterators.Merging.{merge-lww, merge_new}
use lightningstream.Strategy.Strategies.{bytes_of, update}
use lightningstream.Strategy.Source.{native_item, native_source}
use lightningstream.Strategy.Update.{kept}
use lightningstream.Strategy.Native.{kept_version}
use lightningstream.Strategy.Merged.{merged, Accepts, update-merged}

-- A value that `Parse` accepts.
abbrev pub HasVersion : Bytes → Type 0
HasVersion v = (old : Version) × (version_of v ≡ ok old)

-- An entry of a snapshot: it has a timestamp, and its numbers fit 64 bits.
abbrev pub IsLoadable : NativeIterator → Kv → Type 0
IsLoadable it kv = Fits it kv × (0 < kv.timestamp_nano)

-- What a key stands for; a value that `Parse` does not accept stands for nothing.
abbrev pub version_at : Option Bytes → Option Version
version_at none = none
version_at (some val) = elim (version_of val) [ err e ↦ none | ok v ↦ some v ]

-- No value, or one that `Parse` accepts.
abbrev pub IsReadable : Option Bytes → Type 0
IsReadable none = Unit
IsReadable (some val) = HasVersion val

IsReadable-lookup :
    (k : Bytes) (es : List Entry)
    → All (λ (e : Entry). HasVersion e.1) es
    → IsReadable (lookup k es)
unfolding lookup
IsReadable-lookup k [] h = tt
IsReadable-lookup k ((j, val) ∷ es) (h, hs) =
    elim (compare_bytes k j)
      as (λ c. IsReadable (elim c [ Ordering.eq ↦ some val | _ ↦ lookup k es ])) [
        | Ordering.lt ↦ IsReadable-lookup k es hs
        | Ordering.eq ↦ h
        | Ordering.gt ↦ IsReadable-lookup k es hs
      ]

-- An entry that arrives: the last writer wins, and a deletion of a key that is not there is dropped
-- if it is older than the cutoff.
unfoldable pub received : NativeIterator → Kv → Option Version → Option Version
received it kv none =
    if is_deleted (masked_flags kv) && ltb kv.timestamp_nano it.deleted_cutoff
    then none
    else some (incoming it kv)
received it kv (some old) = some (lww old (incoming it kv))

unfoldable pub received_all : NativeIterator → List Kv → Bytes → Option Version → Option Version
received_all it [] k o = o
received_all it (kv ∷ kvs) k o =
    received_all it kvs k (elim (compare_bytes k kv.key) [ Ordering.eq ↦ received it kv o | _ ↦ o ])

-- What is kept of a merge, and that it stands for what arrives.
abbrev Arrives : NativeIterator → Kv → Option Bytes → Option Bytes → Type 0
Arrives it kv o kept_value =
    IsReadable kept_value × (version_at kept_value ≡ received it kv (version_at o))

arrives :
    (it : NativeIterator) (kv : Kv) (o : Option Bytes) (val : Bytes) (v : Version)
    → version_of val ≡ ok v
    → some v ≡ received it kv (version_at o)
    → Arrives it kv o (kept (ok (some val)))
arrives it kv o val v stands e =
    subst (Arrives it kv o) (sym (kept_version val v stands))
      ((v, stands), ground (arith, stands, e))

merge_received :
    (it : NativeIterator) (kv : Kv) (o : Option Bytes)
    → IsLoadable it kv
    → IsReadable o
    → (new : Option Bytes) × (merge it kv (bytes_of o) ≡ ok new) × Arrives it kv o (kept (ok new))
unfolding received
merge_received it kv (some val) (fits, pos) (old, stands) =
    let (val', e, new) = merge-lww it kv val old fits pos stands in
    (
      some val',
      e,
      arrives it kv (some val) val' (lww old (incoming it kv)) new (ground (arith, stands)),
    )
merge_received it kv none (fits, pos) readable =
    let (dropped, stored) = merge_new it kv fits in
    elim (Bool-cases (is_deleted (masked_flags kv) && ltb kv.timestamp_nano it.deleted_cutoff)) [
      | inl stale ↦ (
        none,
        dropped (ground (arith, stale)) (ground (arith, stale)),
        (tt, ground (arith, stale)),
      )
      | inr fresh ↦
          (let (val, e, new) = stored (elim (Bool-cases (is_deleted (masked_flags kv))) [
            | inr live ↦ inl live
            | inl d ↦ inr (ground (arith, d, fresh))
          ]) in
            (some val, e, arrives it kv none val (incoming it kv) new (ground (arith, fresh))))
    ]

native-Accepts :
    (it : NativeIterator) (kvs : List Kv)
    → All (IsLoadable it) kvs
    → All (Accepts IsReadable) (map (native_item it) kvs)
native-Accepts it [] h = tt
native-Accepts it (kv ∷ kvs) (h, hs) = (
  λ o readable. let (new, e, (p, stands)) = merge_received it kv o h readable in (new, e, p),
  native-Accepts it kvs hs,
)

merged-received_all :
    (it : NativeIterator) (kvs : List Kv) (k : Bytes) (o : Option Bytes)
    → All (IsLoadable it) kvs
    → IsReadable o
    → version_at (merged (map (native_item it) kvs) k o) ≡ received_all it kvs k (version_at o)
unfolding merged received_all
merged-received_all it [] k o h p = refl
merged-received_all it (kv ∷ kvs) k o (h, hs) p =
    let (new, e, (p', stands)) = merge_received it kv o h p in
    elim (Ordering-cases (compare_bytes k kv.key)) [
      | inl less ↦ ground (arith, less, merged-received_all it kvs k o hs p)
      | inr (inl same) ↦
          ground (arith, same, e, stands, merged-received_all it kvs k (kept (ok new)) hs p')
      | inr (inr greater) ↦ ground (arith, greater, merged-received_all it kvs k o hs p)
    ]

-- Where LMDB orders by `bytes.Compare`, and for entries with keys of 1 to 511 bytes, all with a
-- timestamp, with numbers that fit 64 bits and without a value where they are marked as deleted, on
-- a DBI whose values `Parse` accepts: the load of the entries with `Update` ends without an error.
-- Afterwards every key stands for what it stood for, with the entries of the key received one after
-- the other: the last writer wins, and a deletion of a key that is not there is dropped if it is
-- older than the cutoff. A key without an entry stands for what it did.
pub update-received_all :
    (l : Lmdb) (it : NativeIterator) (kvs : List Kv) (d : l.Dbi)
    → IsOrderedMap l
    → All (λ x. IsKey x.key) (map (native_item it) kvs)
    → All (IsLoadable it) kvs
    → All (λ (e : Entry). HasVersion e.1) (l.entries d)
    → (d' : l.Dbi) × (update l (native_source it kvs) d ≡ ok d')
      × ((k : Bytes)
          → version_at (lookup k (l.entries d'))
            ≡ received_all it kvs k (version_at (lookup k (l.entries d))))
update-received_all l it kvs d laws keys loadable held =
    let readable = λ (k : Bytes). IsReadable-lookup k (l.entries d) held in
    let (d', e, w) =
      update-merged l laws IsReadable (native_source it kvs) d refl keys
        (native-Accepts it kvs loadable) readable in
    (
      d',
      e,
      λ k.
          ap version_at (w k)
          ∙ merged-received_all it kvs k (lookup k (l.entries d)) loadable (readable k),
    )
