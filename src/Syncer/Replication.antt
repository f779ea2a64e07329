-- ===== src/Syncer/Replication.antt =====
-- From one instance to another with a native schema: what `readDBI` writes for a DBI into a snapshot, and
-- what the load of it by `LoadOnce` makes of the DBI of the other instance.
mod Tests
use Prim.Native.Nat.{Ordering, bit_and}
use lightningstream.Base.{
  ℕ, zero, suc, ◌%◌, ◌^◌, ◌<◌, ◌≤◌, ◌≡◌, refl, sym, ap, ◌∙◌, subst, Bool, true, false, not, ◌&&◌,
  ◌==◌, ltb, Option, none, some, List, [], ◌∷◌, All, arith, inl, inr, map, length, if◌then◌else◌,
  Bool-cases,
}
use lightningstream.Base.Bits.{lowest_bit}
use lightningstream.Base.Bytes.{
  Bytes, Lt, compare_bytes, equal_bytes, eq_of_compare, Ordering-cases,
}
use lightningstream.Base.Result.{Result, ok, err, ◌>>=◌}
use lightningstream.Header.{Header, is_deleted, parse, masked}
use lightningstream.Lmdb.{Lmdb, IsOrderedMap, IsKey}
use lightningstream.Lmdb.Entries.{Entry, lookup, IsSorted, Above}
use lightningstream.Lmdb.Lookup.{lookup-Above}
use lightningstream.Snapshot.{Kv, masked_flags}
use lightningstream.Iterators.{NativeIterator, written_flags}
use lightningstream.Iterators.Lww.{Version, version_of, version_of-inv, incoming, lww}
use lightningstream.Iterators.Writing.{Fits}
use lightningstream.Strategy.{Item}
use lightningstream.Strategy.Strategies.{update}
use lightningstream.Strategy.Source.{native_item, native_source}
use lightningstream.Strategy.Loaded.{
  HasVersion, IsLoadable, version_at, IsReadable, received, received_all, update-received_all,
}
use lightningstream.Snapshot.Dbi.{append_kv}
use lightningstream.Syncer.Read.{FilterParams, read_value, is_duplicate, read_entries}

-- A version as Lightning Stream and a native application write it: a timestamp, no flag but the one
-- for deleted entries, and no value with it.
pub record IsProper (v : Version) : Type 0 where
  pub timestamp : 0 < v.timestamp
  pub fits : v.timestamp < 2 ^ 64
  pub flags : v.flags < 2
  pub no_value : is_deleted v.flags ≡ true → v.value ≡ []

-- A value with such a version.
abbrev pub IsSendable : Bytes → Type 0
IsSendable val = (v : Version) × (version_of val ≡ ok v) × IsProper v

-- What an instance makes of a version of another one and its own: the last writer wins, and a
-- deletion older than the cutoff of a key that it does not have is not taken over.
unfoldable pub taken_over : ℕ → Option Version → Option Version → Option Version
taken_over cutoff none own = own
taken_over cutoff (some v) none =
    if is_deleted v.flags && ltb v.timestamp cutoff then none else some v
taken_over cutoff (some v) (some own) = some (lww own v)

-- What is read for an entry.
abbrev kv_of : Bytes → Version → Kv
kv_of key v = record {
  key = key;
  value = v.value;
  timestamp_nano = v.timestamp;
  flags = masked v.flags;
}

masked_same : (f : ℕ) → f < 2 → masked (masked f % 256) ≡ f
unfolding masked
masked_same zero h = refl
masked_same (suc zero) h = refl
masked_same (suc (suc f)) h = absurd (omega arith)

module _ (it : NativeIterator) (recent : 1 < it.format_version) where
  masked_flags-kv_of :
      (key : Bytes) (v : Version) → IsProper v → masked_flags (kv_of key v) ≡ v.flags
  unfolding masked_flags
  masked_flags-kv_of key v p = masked_same v.flags p.flags

  incoming-kv_of : (key : Bytes) (v : Version) → IsProper v → incoming it (kv_of key v) ≡ v
  unfolding incoming written_flags
  incoming-kv_of key v p = ground (arith, masked_flags-kv_of key v p, p.timestamp, p.no_value)

  received-kv_of :
      (key : Bytes) (v : Version) (o : Option Version)
      → IsProper v
      → received it (kv_of key v) o ≡ taken_over it.deleted_cutoff (some v) o
  unfolding received taken_over
  received-kv_of key v none p = ground (arith, masked_flags-kv_of key v p, incoming-kv_of key v p)
  received-kv_of key v (some own) p = ap (λ z. some (lww own z)) (incoming-kv_of key v p)

  IsLoadable-kv_of :
      (key : Bytes) (v : Version)
      → it.default_timestamp < 2 ^ 64
      → it.txn_id < 2 ^ 64
      → IsProper v
      → IsLoadable it (kv_of key v)
  IsLoadable-kv_of key v h1 h2 p = (
    record {
      default_timestamp = h1;
      txn_id = h2;
      timestamp = p.fits;
      no_value = λ d. p.no_value (ap is_deleted (sym (masked_flags-kv_of key v p)) ∙ d);
    },
    p.timestamp,
  )

  -- Every key stands in front of those of the entries.
  abbrev Precedes : Option Bytes → List Entry → Type 0
  Precedes none es = Unit
  Precedes (some prev) es = Above prev es

  not_duplicate :
      (prev : Option Bytes) (j val : Bytes) (es : List Entry)
      → Precedes prev ((j, val) ∷ es)
      → is_duplicate none false false prev j ≡ false
  unfolding equal_bytes
  not_duplicate none j val es before = refl
  not_duplicate (some i) j val es (lt, before) = ground (arith, lt)

  read_value-version :
      (val : Bytes) (v : Version)
      → version_of val ≡ ok v
      → (txn_id : ℕ) × (read_value false val
          ≡ ok (record { timestamp = v.timestamp; txn_id = txn_id; flags = v.flags }, v.value))
  unfolding read_value
  read_value-version val v stands =
      let ((h, app), parsed, same) = version_of-inv val v stands in
      (h.txn_id, rw (parsed, same) refl)

  append_kv-key : (kv : Kv) (kvs : List Kv) → 0 < length kv.key → append_kv kv kvs ≡ kv ∷ kvs
  unfolding append_kv
  append_kv-key kv kvs h = ground arith

  -- What a DBI of a snapshot must be like for a load, and what is received from it.
  record Dumped (es : List Entry) (kvs : List Kv) : Type 0 where
    keys : All (λ x. IsKey x.key) (map (native_item it) kvs)
    loadable : All (IsLoadable it) kvs
    received_lem :
        (k : Bytes) (own : Option Version)
        → received_all it kvs k own ≡ taken_over it.deleted_cutoff (version_at (lookup k es)) own

  -- What is received of an entry and of those behind it.
  received-cons :
      (j val k : Bytes) (v : Version) (es : List Entry) (kvs : List Kv) (own : Option Version)
      → version_of val ≡ ok v
      → IsProper v
      → Above j es
      → Dumped es kvs
      → received_all it (kv_of j v ∷ kvs) k own
        ≡ taken_over it.deleted_cutoff (version_at (lookup k ((j, val) ∷ es))) own
  unfolding received_all lookup taken_over
  received-cons j val k v es kvs own stands p above rest =
      elim (Ordering-cases (compare_bytes k j)) [
        | inl less ↦ ground (arith, less, rest.received_lem k own)
        | inr (inl same) ↦ ground (
          arith,
          same,
          stands,
          received-kv_of j v own p,
          rest.received_lem k (received it (kv_of j v) own)
              ∙ ap (λ z. taken_over it.deleted_cutoff (version_at z) (received it (kv_of j v) own))
                  (lookup-Above k j es above same),
        )
        | inr (inr greater) ↦ ground (arith, greater, rest.received_lem k own)
      ]

  read_entries-Dumped :
      (prev : Option Bytes) (es : List Entry)
      → it.default_timestamp < 2 ^ 64
      → it.txn_id < 2 ^ 64
      → Precedes prev es
      → IsSorted es
      → All (λ e. IsKey e.0) es
      → All (λ e. IsSendable e.1) es
      → (kvs : List Kv) × (read_entries none false false prev es ≡ ok kvs) × Dumped es kvs
  unfolding read_entries received_all lookup taken_over
  read_entries-Dumped prev [] h1 h2 before s keys sendable =
      ([], refl, record { keys = tt; loadable = tt; received_lem = λ k own. refl })
  read_entries-Dumped prev ((j, val) ∷ es) h1 h2 before (a, s) (key, keys)
        ((v, stands, p), sendable) =
      let (txn_id, read) = read_value-version val v stands in
      let (kvs, e, rest) = read_entries-Dumped (some j) es h1 h2 a s keys sendable in
      (
        kv_of j v ∷ kvs,
        rw (not_duplicate prev j val es before, read, e)
            (ap ok (append_kv-key (kv_of j v) kvs key.0)),
        record {
          keys = (key, rest.keys);
          loadable = (IsLoadable-kv_of j v h1 h2 p, rest.loadable);
          received_lem = λ k own. received-cons j val k v es kvs own stands p a rest;
        },
      )

-- Where LMDB orders by `bytes.Compare`, the snapshot is not of the first format, every value of the
-- sender's DBI has a timestamp, at most the flag for deleted entries, and no value with that flag,
-- `Parse` accepts every value of the receiver's, and the numbers fit 64 bits: the sender reads its
-- whole DBI into a snapshot without an error, and the receiver loads it without an error. Afterwards
-- every key stands for the last writer of the two; a key that only one of them has stands for what
-- it does there, but a deletion older than the cutoff of a key that the receiver does not have is
-- not taken over.
pub replicated :
    (sender receiver : Lmdb) (sent : sender.Dbi) (own : receiver.Dbi) (it : NativeIterator)
    → IsOrderedMap sender
    → IsOrderedMap receiver
    → 1 < it.format_version
    → it.default_timestamp < 2 ^ 64
    → it.txn_id < 2 ^ 64
    → All (λ (e : Entry). IsSendable e.1) (sender.entries sent)
    → All (λ (e : Entry). HasVersion e.1) (receiver.entries own)
    → (kvs : List Kv) × (read_entries none false false none (sender.entries sent) ≡ ok kvs)
      × ((own' : receiver.Dbi) × (update receiver (native_source it kvs) own ≡ ok own')
          × ((k : Bytes)
              → version_at (lookup k (receiver.entries own'))
                ≡ taken_over it.deleted_cutoff
                    (version_at (lookup k (sender.entries sent)))
                    (version_at (lookup k (receiver.entries own)))))
replicated sender receiver sent own it laws laws' recent h1 h2 sendable readable =
    let es = sender.entries sent in
    let (kvs, e, dumped) =
      read_entries-Dumped it recent none es h1 h2 tt (laws.sorted sent) (laws.keys sent) sendable in
    let (own', e', w) =
      update-received_all receiver it kvs own laws' dumped.keys dumped.loadable readable in
    (
      kvs,
      e,
      (own', e', λ k. w k ∙ dumped.received_lem k (version_at (lookup k (receiver.entries own)))),
    )
