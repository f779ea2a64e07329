-- ===== src/Strategy/Walk.antt =====
-- `iterBoth` over sorted items: for a callback that follows a policy, the walk ends, and the DBI
-- holds what `join_sorted` says.
use lightningstream.Base.{
  ℕ, zero, suc, ◌+◌, ◌<◌, ◌≡◌, refl, inl, inr, Bool, false, none, List, [], ◌∷◌, All, arith, length,
  head?, tail, is_empty,
}
use lightningstream.Base.Bytes.{Bytes, Ordering-cases, compare_bytes}
use lightningstream.Lmdb.{Lmdb, Holds, IsOrderedMap, IsKey}
use lightningstream.Lmdb.Entries.{Entry, beyond}
use lightningstream.Strategy.{Item, Iterator, both_start, Callback, iter_both}
use lightningstream.Strategy.Join.{Policy, join_sorted, ItemsSorted, ItemsAbove}
use lightningstream.Strategy.Rounds.{
  nothing_first, next_prev, fetch-item_taken, fetch-entry_taken, nothing_below,
}
use lightningstream.Strategy.Follows.{Follows}
use lightningstream.Strategy.Cases.{
  Walks, walk_end, walk_entry, walk_item, walk_entry_first, walk_same_key, walk_item_first,
}

module _ (l : Lmdb) (laws : IsOrderedMap l) (f : Callback l.Dbi) (p : Policy)
    (GoodValue : Bytes → Type 0) (GoodItem : Item → Type 0)
    (follows : Follows l f p GoodValue GoodItem) where
  walk :
      (n : ℕ) (xs : List Item) (es : List Entry)
      → ItemsSorted xs
      → All (λ x. IsKey x.key) xs
      → All GoodItem xs
      → All (λ e. GoodValue e.1) es
      → length xs + length es < n
      → Walks l laws f p GoodValue GoodItem follows n xs es
  walk zero xs es sx kx gx ge h = absurd (omega arith)
  walk (suc n) [] [] sx kx gx ge h = walk_end l laws f p GoodValue GoodItem follows n
  walk (suc n) [] ((k, v) ∷ es) sx kx gx (gv, ge) h =
      walk_entry l laws f p GoodValue GoodItem follows n k v es gv
        (walk n [] es tt tt tt ge (omega arith))
  walk (suc n) (x ∷ xs) [] (ax, sx) (kx, ks) (gx, gs) ge h =
      walk_item l laws f p GoodValue GoodItem follows n x xs ax (kx, ks) gx
        (walk n xs [] sx ks gs tt (omega arith))
  walk (suc n) (x ∷ xs) ((k, v) ∷ es) (ax, sx) (kx, ks) (gx, gs) (gv, ge) h =
      elim (Ordering-cases (compare_bytes k x.key)) [
        | inl lt ↦
            walk_entry_first l laws f p GoodValue GoodItem follows n x xs k v es ax (kx, ks) lt gv
              (walk n (x ∷ xs) es (ax, sx) (kx, ks) (gx, gs) ge (omega arith))
        | inr (inl eq) ↦
            walk_same_key l laws f p GoodValue GoodItem follows n x xs k v es ax (kx, ks) eq gx gv
              (walk n xs es sx ks gs ge (omega arith))
        | inr (inr gt) ↦
            walk_item_first l laws f p GoodValue GoodItem follows n x xs k v es ax (kx, ks) gt gx
              (walk n xs ((k, v) ∷ es) sx ks gs (gv, ge) (omega arith))
      ]

  above_nothing : (xs : List Item) → All (λ x. IsKey x.key) xs → ItemsAbove [] xs
  above_nothing [] h = tt
  above_nothing (x ∷ xs) (h, hs) = (nothing_first x.key h.0, above_nothing xs hs)

  -- The whole walk, on a DBI without integer keys.
  pub iter_both-join :
      (little_endian : Bool) (it : Iterator) (d : l.Dbi)
      → it.ends_with ≡ none
      → ItemsSorted it.items
      → All (λ x. IsKey x.key) it.items
      → All GoodItem it.items
      → All (λ e. GoodValue e.1) (l.entries d)
      → Holds l (iter_both l little_endian it false f d) (join_sorted p it.items (l.entries d))
  unfolding iter_both beyond
  iter_both-join little_endian it d eof sx kx gx ge =
      let es = l.entries d in
      rw eof (
        walk (length it.items + length es + 1) it.items es sx kx gx ge (omega arith) [] [] none d
          (both_start l it d) _
          (fetch-item_taken it.items [] none d none false kx (above_nothing it.items kx))
          (fetch-entry_taken l laws es (head? it.items) (is_empty it.items) (next_prev [] it.items)
            (tail it.items) none d (laws.cursor_get_lem d none))
          refl (nothing_below l laws it.items))
