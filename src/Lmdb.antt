-- ===== src/Lmdb.antt =====
-- What the program relies on of LMDB (github.com/PowerDNS/lmdb-go), which is not part of the
-- repository: the calls on one DBI in one transaction, and their documented behaviour for a DBI
-- without duplicate keys and without the integer and reverse key orders.
pub mod Entries
pub mod Lookup
use lightningstream.Base.{ℕ, ◌≤◌, ◌<◌, ◌≡◌, Option, some, List, [], ◌++◌, length, head?, All}
use lightningstream.Base.Bytes.{Bytes}
use lightningstream.Base.Result.{Result, ok}
use lightningstream.Lmdb.Entries.{Entry, lookup, insert, erase, beyond, IsSorted, Below}

pub record Lmdb : Type 1 where
  -- a DBI as the transaction sees it
  pub Dbi : Type 0
  -- `txn.Flags(dbi)`
  pub flags : ℕ
  -- `txn.Get`; `none` is MDB_NOTFOUND. It is taken not to fail in another way, which it does at an
  -- empty key or one of more than 511 bytes.
  pub get : Dbi → Bytes → Option Bytes
  -- `Cursor.Get` with the flag First, or with Next on a cursor that stands at the key
  pub cursor_get : Dbi → Option Bytes → Option Entry
  -- `txn.Put`, `Put` with the flag Append, `Del` and `txn.Drop(dbi, false)`
  pub put : Dbi → Bytes → Bytes → Result Dbi
  pub append : Dbi → Bytes → Bytes → Result Dbi
  pub del : Dbi → Bytes → Result Dbi
  pub empty : Dbi → Result Dbi
  -- what the DBI holds
  pub entries : Dbi → List Entry

abbrev pub max_key_size : ℕ
max_key_size = 511

-- A key that LMDB takes.
abbrev pub IsKey : Bytes → Type 0
IsKey k = (0 < length k) × (length k ≤ max_key_size)

-- The calls return a new DBI, and what it holds.
module _ (l : Lmdb) where
  abbrev pub Holds : Result l.Dbi → List Entry → Type 0
  Holds r es = (d : l.Dbi) × (r ≡ ok d) × (l.entries d ≡ es)

-- A DBI is a map that is sorted by key, and there is room in the LMDB for every write. Keys have 1
-- to 511 bytes, and Append wants a key behind all others. A key that is deleted is one that is
-- there.
pub record IsOrderedMap (l : Lmdb) : Type 0 where
  pub sorted : (d : l.Dbi) → IsSorted (l.entries d)
  pub keys : (d : l.Dbi) → All (λ e. IsKey e.0) (l.entries d)
  pub get_lem : (d : l.Dbi) (k : Bytes) → l.get d k ≡ lookup k (l.entries d)
  pub cursor_get_lem :
      (d : l.Dbi) (at : Option Bytes) → l.cursor_get d at ≡ head? (beyond at (l.entries d))
  pub put_lem :
      (d : l.Dbi) (k v : Bytes) → IsKey k → Holds l (l.put d k v) (insert k v (l.entries d))
  pub append_lem :
      (d : l.Dbi) (k v : Bytes)
      → IsKey k
      → Below (l.entries d) k
      → Holds l (l.append d k v) (insert k v (l.entries d))
  pub del_lem :
      (d : l.Dbi) (k v : Bytes)
      → lookup k (l.entries d) ≡ some v
      → Holds l (l.del d k) (erase k (l.entries d))
  pub empty_lem : (d : l.Dbi) → Holds l (l.empty d) []
