-- ===== src/Strategy/Strategies.antt =====
-- The strategies: iterupdate.go, iterput.go, update.go, put.go, append.go, emptyput.go, pick.go,
-- and `setNewVal` of utils.go.
use Prim.Native.Nat.{bit_and, Ordering}
use mathlib.Core.Option
use lightningstream.Base.{
  Bool, true, false, Option, none, some, List, [], ◌∷◌, ltb, if◌then◌else◌, length, ◌==◌,
}
use lightningstream.Base.Bytes.{Bytes, compare_bytes, equal_bytes}
use lightningstream.Base.Result.{Result, Error, ok, err, not_sorted, key_too_long, ◌>>=◌}
use lightningstream.Lmdb.{Lmdb, max_key_size}
use lightningstream.Lmdb.Entries.{Entry}
use lightningstream.Strategy.{Item, Iterator, Callback, integer_key_flag, iter_both}

-- The bytes of a slice that may be nil.
abbrev pub bytes_of : Option Bytes → Bytes
bytes_of v = Option.get_or v []

-- `len(val) == 0`
abbrev pub no_bytes : Option Bytes → Bool
no_bytes v = length (bytes_of v) == 0

module _ (l : Lmdb) where
  -- The callback of `IterUpdate` where the iterator has no item for the entry.
  unfoldable pub clean_entry : Iterator → Entry → l.Dbi → Result l.Dbi
  unfolding equal_bytes
  clean_entry it (k, v) d = do
    cleaned ← it.clean v
    elim cleaned [ none ↦ l.del d k | some val ↦ if equal_bytes val v then ok d else l.put d k val ]

  -- Where both have the key.
  unfoldable pub update_entry : Item → Entry → l.Dbi → Result l.Dbi
  unfolding equal_bytes
  update_entry x (k, v) d = do
    val ← x.merge v
    if no_bytes val
        then l.del d k
        else if equal_bytes (bytes_of val) v
        then ok d
        else l.put d x.key (bytes_of val)

  -- The callback of `IterUpdate`.
  unfoldable pub update_callback : Iterator → Callback l.Dbi
  unfolding clean_entry update_entry
  update_callback it none db_entry it_eof db_eof d =
      clean_entry it (Option.get_or db_entry ([], [])) d
  update_callback it (some x) db_entry it_eof db_eof d =
      if it_eof then clean_entry it (Option.get_or db_entry ([], [])) d else do
        val ← x.merge []
        if db_eof
            then (if no_bytes val then ok d else l.append d x.key (bytes_of val))
            else elim db_entry [
              | none ↦ if no_bytes val then ok d else l.put d x.key (bytes_of val)
              | some e ↦ update_entry x e d
            ]

  -- `IterUpdate`
  unfoldable pub iter_update : Bool → Iterator → l.Dbi → Result l.Dbi
  unfolding iter_both update_callback
  iter_update little_endian it d =
      iter_both l little_endian it (ltb 0 (bit_and l.flags integer_key_flag)) (update_callback it) d

  -- The callback of `IterPut`.
  unfoldable pub put_callback : Iterator → Callback l.Dbi
  unfolding equal_bytes
  put_callback it none db_entry it_eof db_eof d = l.del d (Option.get_or db_entry ([], [])).0
  put_callback it (some x) db_entry it_eof db_eof d =
      if it_eof then l.del d (Option.get_or db_entry ([], [])).0 else do
        val ← x.merge []
        if db_eof then l.append d x.key (bytes_of val) else elim db_entry [
          | none ↦ l.put d x.key (bytes_of val)
          | some (k, v) ↦
              if equal_bytes (bytes_of val) v then ok d else l.put d x.key (bytes_of val)
        ]

  -- `IterPut`
  unfoldable pub iter_put : Bool → Iterator → l.Dbi → Result l.Dbi
  unfolding iter_both put_callback
  iter_put little_endian it d =
      iter_both l little_endian it (ltb 0 (bit_and l.flags integer_key_flag)) (put_callback it) d

  -- What a loop over `Next` returns when there is no further item.
  abbrev pub end_of : Option Error → l.Dbi → Result l.Dbi
  end_of none d = ok d
  end_of (some e) d = err e

  -- `txn.Del` where MDB_NOTFOUND is no error.
  unfoldable pub del_if_there : l.Dbi → Bytes → Result l.Dbi
  del_if_there d k = elim (l.get d k) [ none ↦ ok d | some v ↦ l.del d k ]

  -- `setNewVal`
  unfoldable pub set_new_val : Bytes → Bytes → Option Bytes → l.Dbi → Result l.Dbi
  unfolding del_if_there equal_bytes
  set_new_val k old new d =
      if no_bytes new
      then del_if_there d k
      else if equal_bytes (bytes_of new) old
      then ok d
      else l.put d k (bytes_of new)

  unfoldable pub update_items : List Item → Option Error → l.Dbi → Result l.Dbi
  unfolding set_new_val
  update_items [] ends d = end_of ends d
  update_items (x ∷ rest) ends d = do
    let old = bytes_of (l.get d x.key)
    val ← x.merge old
    d' ← set_new_val x.key old val d
    update_items rest ends d'

  -- `Update`
  unfoldable pub update : Iterator → l.Dbi → Result l.Dbi
  unfolding update_items
  update it d = update_items it.items it.ends_with d

  unfoldable pub put_items : Bool → List Item → Option Error → l.Dbi → Result l.Dbi
  unfolding del_if_there
  put_items is_empty [] ends d = end_of ends d
  put_items is_empty (x ∷ rest) ends d = do
    val ← x.merge []
    d' ←
        if no_bytes val
        then (if is_empty then ok d else del_if_there d x.key)
        else l.put d x.key (bytes_of val)
    put_items is_empty rest ends d'

  -- `doPut`, `Put` and `EmptyPut`
  unfoldable pub do_put : Iterator → Bool → l.Dbi → Result l.Dbi
  unfolding put_items
  do_put it is_empty d = put_items is_empty it.items it.ends_with d

  unfoldable pub put : Iterator → l.Dbi → Result l.Dbi
  unfolding do_put
  put it d = do_put it false d

  unfoldable pub empty_put : Iterator → l.Dbi → Result l.Dbi
  unfolding do_put
  empty_put it d = do d' ← l.empty d; do_put it true d'

  unfoldable pub append_items : Bytes → List Item → Option Error → l.Dbi → Result l.Dbi
  append_items prev [] ends d = end_of ends d
  append_items prev (x ∷ rest) ends d = elim (compare_bytes prev x.key) [
    | Ordering.lt ↦ if ltb max_key_size (length x.key) then err key_too_long else do
      val ← x.merge []
      d' ← if no_bytes val then ok d else l.append d x.key (bytes_of val)
      append_items x.key rest ends d'
    | _ ↦ err not_sorted
  ]

  -- `Append`
  unfoldable pub append : Iterator → l.Dbi → Result l.Dbi
  unfolding append_items
  append it d = append_items [] it.items it.ends_with d

  -- `Facts` and `Pick`; the error that `Pick` returns is always nil.
  unfoldable pub pick : Bool → Bool → Iterator → l.Dbi → Result l.Dbi
  unfolding append iter_put
  pick is_empty little_endian = if is_empty then append else iter_put little_endian
