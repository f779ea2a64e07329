-- ===== src/Strategy/Native.antt =====
-- What `IterUpdate` makes of a `NativeIterator`: `mainToShadow` runs it on the shadow of a DBI of
-- the application's, with the entries of that DBI, which have no timestamp.
use Prim.Native.Nat.{Ordering}
use mathlib.Core.Option
use lightningstream.Base.{◌≡◌, ◌<◌, refl, false, Option, none, some, List, [], ◌∷◌, if◌then◌else◌}
use lightningstream.Base.Bytes.{Bytes, compare_bytes, equal_bytes}
use lightningstream.Base.Result.{ok}
use lightningstream.Header.{parse, is_deleted}
use lightningstream.Lmdb.{Lmdb}
use lightningstream.Snapshot.{Kv, masked_flags}
use lightningstream.Iterators.{NativeIterator}
use lightningstream.Iterators.Lww.{Version, version_of, incoming}
use lightningstream.Iterators.Writing.{Fits}
use lightningstream.Strategy.Update.{kept}

-- An entry that is read from a DBI of the application's: it has no timestamp and no mark of a
-- deletion, and the numbers of the iterator fit 64 bits.
abbrev pub IsRaw : NativeIterator → Kv → Type 0
IsRaw it kv = Fits it kv × (kv.timestamp_nano ≡ 0) × (is_deleted (masked_flags kv) ≡ false)

-- A value of the shadow: `Parse` accepts it, and it is from before the timestamp of the iterator.
abbrev pub IsEarlier : NativeIterator → Bytes → Type 0
IsEarlier it v = (old : Version) × (version_of v ≡ ok old) × (old.timestamp < it.default_timestamp)

-- The entry for a key.
abbrev pub find_kv : Bytes → List Kv → Option Kv
find_kv k [] = none
find_kv k (kv ∷ kvs) = elim (compare_bytes k kv.key) [ Ordering.eq ↦ some kv | _ ↦ find_kv k kvs ]

-- What a key of the shadow is to stand for, from the application's entry and the version before: a
-- value that has not changed keeps its version, a new or changed one becomes a version of the
-- timestamp of the iterator, and so does the deletion of a key that the application no longer has.
abbrev pub shadowed : NativeIterator → Option Kv → Option Version → Option Version
shadowed it none none = none
shadowed it none (some old) =
    if is_deleted old.flags
    then some old
    else some (record { timestamp = it.default_timestamp; flags = 1; value = [] })
shadowed it (some kv) none = some (incoming it kv)
shadowed it (some kv) (some old) =
    if equal_bytes kv.value old.value then some old else some (incoming it kv)

-- What a DBI holds for a key stands for a version, or it holds nothing and there is none.
abbrev pub Stands : Option Bytes → Option Version → Type 0
Stands none none = Unit
Stands none (some old) = ⊥
Stands (some v) none = ⊥
Stands (some v) (some old) = version_of v ≡ ok old

pub kept_version :
    (val : Bytes) (v : Version) → version_of val ≡ ok v → kept (ok (some val)) ≡ some val
unfolding version_of parse
kept_version [] v e = cc
kept_version (b ∷ bs) v e = refl

OptRaw : NativeIterator → Option Kv → Type 0
OptRaw it none = Unit
OptRaw it (some kv) = IsRaw it kv

OptEarlier : NativeIterator → Option Bytes → Type 0
OptEarlier it none = Unit
OptEarlier it (some v) = IsEarlier it v
