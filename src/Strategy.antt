-- ===== src/Strategy.antt =====
-- lmdbenv/strategy: how the entries of an iterator are written to a DBI of LMDB.
-- Here are the iterator (iterator.go) and the walk over both sides (utils.go).
pub mod Join
pub mod Strategies
pub mod Writes
pub mod Rounds
pub mod Follows
pub mod Cases
pub mod Walk
pub mod Update
pub mod Put
pub mod Merged
pub mod Source
pub mod Native
pub mod Loaded
mod Tests
use Prim.Native.Nat.{Ordering, compare, bit_and}
use lightningstream.Base.{
  ℕ, zero, suc, ◌+◌, ◌*◌, ◌^◌, Bool, true, false, ◌&&◌, Option, none, some, List, [], ◌∷◌, ltb,
  if◌then◌else◌, length, ◌==◌,
}
use lightningstream.Base.Bytes.{Bytes, compare_bytes, get_le}
use lightningstream.Base.Result.{
  Result, Error, ok, err, not_sorted, key_too_long, out_of_fuel, ◌>>=◌,
}
use lightningstream.Lmdb.{Lmdb, max_key_size}
use lightningstream.Lmdb.Entries.{Entry}

-- What one call of `Iterator.Next` yields: the key, and what `Merge` answers until the next call.
-- A key without bytes is one that is nil or empty.
pub record Item : Type 0 where
  pub key : Bytes
  pub merge : Bytes → Result (Option Bytes)

-- The interface `Iterator`: what `Next` yields one after the other, the error that it returns then
-- (`none` is io.EOF), and `Clean`.
pub record Iterator : Type 0 where
  pub items : List Item
  pub ends_with : Option Error
  pub clean : Bytes → Result (Option Bytes)

-- `LMDBIntegerKeyFlag`
abbrev pub integer_key_flag : ℕ
integer_key_flag = 8

-- `bytesToInt`
unfoldable pub bytes_to_int : Bytes → ℕ
bytes_to_int b =
    if length b == 4
    then get_le b
    else if length b == 8
    then get_le b
    else if length b == 2
    then get_le b
    else 0

-- `cmpIntegerLittleEndian`
unfoldable pub compare_integers : Bytes → Bytes → Ordering
unfolding bytes_to_int
compare_integers a b = compare (bytes_to_int a) (bytes_to_int b)

-- The variables of the loop in `iterBoth`. `at` is the key at which the cursor stands; `none` is
-- the flag First.
pub record Both (D : Type 0) : Type 0 where
  pub it_key : Option Item
  pub it_eof : Bool
  pub db_key : Option Entry
  pub db_eof : Bool
  pub prev_key : Bytes
  pub items : List Item
  pub at : Option Bytes
  pub dbi : D

-- `iterBothFunc`: the item or the entry that is behind, or both, and the two EOF flags.
abbrev pub Callback : Type 0 → Type 0
Callback D = Option Item → Option Entry → Bool → Bool → D → Result D

module _ {D : Type 0} (cmp : Bytes → Bytes → Ordering) where
  -- The check of the order. A key that is longer than the room of `prevKey` is a panic.
  unfoldable pub accept_item : Both D → Item → List Item → Result (Both D)
  accept_item st x rest = elim (cmp st.prev_key x.key) [
    | Ordering.lt ↦
        if ltb max_key_size (length x.key)
        then err key_too_long
        else ok (record st { it_key = some x; prev_key = x.key; items = rest })
    | _ ↦ err not_sorted
  ]

  unfoldable pub next_item : Option Error → List Item → Both D → Result (Both D)
  next_item none [] st = ok (record st { it_eof = true })
  next_item (some e) [] st = err e
  next_item ends (x ∷ rest) st = accept_item st x rest

  -- "Next iterator key if needed"
  unfoldable pub fetch_item : Option Error → Both D → Result (Both D)
  unfolding accept_item next_item
  fetch_item ends st = elim st.it_key [
    | some x ↦ ok st
    | none ↦ if st.it_eof then ok st else next_item ends st.items st
  ]

module _ (l : Lmdb) where
  unfoldable pub found_entry : Both l.Dbi → Option Entry → Both l.Dbi
  found_entry st none = record st { db_eof = true }
  found_entry st (some (k, v)) = record st { db_key = some (k, v); at = some k }

  -- "Next LMDB key if needed"
  unfoldable pub fetch_entry : Both l.Dbi → Both l.Dbi
  unfolding found_entry
  fetch_entry st = elim st.db_key [
    | some e ↦ st
    | none ↦ if st.db_eof then st else found_entry st (l.cursor_get st.dbi st.at)
  ]

  -- The smaller key goes to the callback, or both if they are equal.
  unfoldable pub compare_keys :
      (Bytes → Bytes → Ordering) → Callback l.Dbi → Both l.Dbi → Item → Entry → Result (Both l.Dbi)
  compare_keys cmp f st x e = elim (cmp e.0 x.key) [
    | Ordering.lt ↦ do
      d ← f none (some e) false false st.dbi
      ok (record st { db_key = none; dbi = d })
    | Ordering.eq ↦ do
      d ← f (some x) (some e) false false st.dbi
      ok (record st { db_key = none; it_key = none; dbi = d })
    | Ordering.gt ↦ do
      d ← f (some x) none false false st.dbi
      ok (record st { it_key = none; dbi = d })
  ]

  -- The rest of the loop's body, where not both sides have ended.
  unfoldable pub advance :
      (Bytes → Bytes → Ordering) → Callback l.Dbi → Both l.Dbi → Result (Both l.Dbi)
  unfolding compare_keys
  advance cmp f st =
      if st.it_eof
      then (do d ← f none st.db_key true false st.dbi; ok (record st { db_key = none; dbi = d }))
      else if st.db_eof
      then (do d ← f st.it_key none false true st.dbi; ok (record st { it_key = none; dbi = d }))
      else elim st.it_key [
        | none ↦ ok st
        | some x ↦ elim st.db_key [ none ↦ ok st | some e ↦ compare_keys cmp f st x e ]
      ]

  -- The loop of `iterBoth`.
  unfoldable pub iter_loop :
      (Bytes → Bytes → Ordering) → Option Error → Callback l.Dbi → ℕ → Both l.Dbi → Result l.Dbi
  iter_loop cmp ends f zero st = err out_of_fuel
  iter_loop cmp ends f (suc n) st = do
    fetched ← fetch_item cmp ends st
    let st' = fetch_entry fetched
    if st'.it_eof && st'.db_eof
        then ok st'.dbi
        else do next ← advance cmp f st'; iter_loop cmp ends f n next

  abbrev pub both_start : Iterator → l.Dbi → Both l.Dbi
  both_start it d = record {
    it_key = none;
    it_eof = false;
    db_key = none;
    db_eof = false;
    prev_key = [];
    items = it.items;
    at = none;
    dbi = d;
  }

  abbrev pub both_order : Bool → Bool → Bytes → Bytes → Ordering
  both_order integer_key little_endian =
      if integer_key && little_endian then compare_integers else compare_bytes

  -- `iterBoth`. Each round takes an item or an entry, so the fuel is one more than there are.
  unfoldable pub iter_both : Bool → Iterator → Bool → Callback l.Dbi → l.Dbi → Result l.Dbi
  unfolding iter_loop
  iter_both little_endian it integer_key f d =
      iter_loop (both_order integer_key little_endian) it.ends_with f
        (length it.items + length (l.entries d) + 1) (both_start it d)
