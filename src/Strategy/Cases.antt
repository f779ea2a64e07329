-- ===== src/Strategy/Cases.antt =====
-- The loop of `iterBoth`, by what is left of both sides.
use Prim.Native.Nat.{Ordering}
use lightningstream.Base.{
  ℕ, suc, ◌≡◌, refl, sym, ◌∙◌, ap, true, false, Option, none, some, List, [], ◌∷◌, ◌++◌, All, head?,
  tail, is_empty,
}
use lightningstream.Base.Bytes.{Bytes, Lt, compare_bytes, eq_of_compare, Lt_of_gt}
use lightningstream.Base.Result.{ok}
use lightningstream.Lmdb.{Lmdb, Holds, IsOrderedMap, IsKey}
use lightningstream.Lmdb.Entries.{
  Entry, Above-trans, sorted_middle, Below-cons_some, append-cons_some, cons_some,
}
use lightningstream.Strategy.{Item, Both, Callback, fetch_item, fetch_entry, advance, iter_loop}
use lightningstream.Strategy.Join.{
  Policy, join_sorted, ItemsAbove, join-entry_first, join-same_key, join-item_first,
}
use lightningstream.Strategy.Rounds.{
  next_prev, fetched, fetch-item_taken, fetch-entry_taken, iter_loop_step, iter_loop_end,
  cursor_past, FrontBelow, front_below, after_round, advance-entry_first, advance-same_key,
  advance-item_first,
}
use lightningstream.Strategy.Follows.{Follows}

module _ (l : Lmdb) (laws : IsOrderedMap l) (f : Callback l.Dbi) (p : Policy)
    (GoodValue : Bytes → Type 0) (GoodItem : Item → Type 0)
    (follows : Follows l f p GoodValue GoodItem) where
  -- The loop, from variables that fetch what is left of both sides, behind `front`.
  abbrev pub Walks : ℕ → List Item → List Entry → Type 0
  Walks n xs es =
      (front : List Entry) (prev : Bytes) (at : Option Bytes) (d : l.Dbi) (st s : Both l.Dbi)
      → fetch_item compare_bytes none st ≡ ok s
      → fetch_entry l s ≡ fetched xs es prev at d
      → l.entries d ≡ front ++ es
      → FrontBelow l laws front xs
      → Holds l (iter_loop l compare_bytes none f n st) (front ++ join_sorted p xs es)

  pub walk_end : (n : ℕ) → Walks (suc n) [] []
  unfolding join_sorted
  walk_end n front prev at d st s fi fe e b =
      (d, iter_loop_end l laws none f n st s (fetched [] [] prev at d) fi fe refl, e)

  pub walk_entry :
      (n : ℕ) (k v : Bytes) (es : List Entry)
      → GoodValue v
      → Walks n [] es
      → Walks (suc n) [] ((k, v) ∷ es)
  unfolding fetch_item advance join_sorted
  walk_entry n k v es gv ih front prev at d st s fi fe e b =
      let o = p.on_entry v in
      let (d1, r1, e1) = follows.entry_only d front k v es true e gv in
      let next : Both l.Dbi = record {
        it_key = none;
        it_eof = true;
        db_key = none;
        db_eof = false;
        prev_key = prev;
        items = [];
        at = some k;
        dbi = d1;
      } in
      let (d2, r2, e2) =
        ih (front ++ cons_some k o []) prev (some k) d1 next next refl
          (fetch-entry_taken l laws es none true prev [] (some k) d1
            (cursor_past l laws d d1 front k v o es e e1))
          (e1 ∙ sym (append-cons_some front k o es)) tt in
      (
        d2,
        iter_loop_step l laws none f n st s (fetched [] ((k, v) ∷ es) prev at d) next fi fe refl
              (rw r1)
            ∙ r2,
        e2 ∙ append-cons_some front k o (join_sorted p [] es),
      )

  pub walk_item :
      (n : ℕ) (x : Item) (xs : List Item)
      → ItemsAbove x.key xs
      → All (λ x. IsKey x.key) (x ∷ xs)
      → GoodItem x
      → Walks n xs []
      → Walks (suc n) (x ∷ xs) []
  unfolding fetch_entry advance join_sorted
  walk_item n x xs ax (kx, ks) gx ih front prev at d st s fi fe e b =
      let o = p.on_item x none in
      let (d1, r1, e1) = follows.item_only d front x [] e b tt kx gx in
      let next : Both l.Dbi = record {
        it_key = none;
        it_eof = false;
        db_key = none;
        db_eof = true;
        prev_key = x.key;
        items = xs;
        at = at;
        dbi = d1;
      } in
      let (d2, r2, e2) =
        ih (front ++ cons_some x.key o []) x.key at d1 next (fetched xs [] x.key at d1)
          (fetch-item_taken xs x.key at d1 none true ks ax) refl
          (e1 ∙ sym (append-cons_some front x.key o [])) (front_below l laws front x o xs b ax) in
      (
        d2,
        iter_loop_step l laws none f n st s (fetched (x ∷ xs) [] prev at d) next fi fe refl (rw r1)
            ∙ r2,
        e2 ∙ append-cons_some front x.key o (join_sorted p xs []),
      )

  module _ (n : ℕ) (x : Item) (xs : List Item) (k v : Bytes) (es : List Entry)
      (ax : ItemsAbove x.key xs) (keys : All (λ x. IsKey x.key) (x ∷ xs)) where
    pub walk_entry_first :
        compare_bytes k x.key ≡ Ordering.lt
        → GoodValue v
        → Walks n (x ∷ xs) es
        → Walks (suc n) (x ∷ xs) ((k, v) ∷ es)
    unfolding fetch_item
    walk_entry_first lt gv ih front prev at d st s fi fe e b =
        let o = p.on_entry v in
        let (below, above) = sorted_middle front k v es (rw e at (laws.sorted d)) in
        let (d1, r1, e1) = follows.entry_only d front k v es false e gv in
        let next = after_round l f x xs k v es prev at d d1 (some x) none in
        let (d2, r2, e2) =
          ih (front ++ cons_some k o []) prev (some k) d1 next next refl
            (fetch-entry_taken l laws es (some x) false x.key xs (some k) d1
              (cursor_past l laws d d1 front k v o es e e1))
            (e1 ∙ sym (append-cons_some front k o es)) (Below-cons_some front k o x.key below lt) in
        (
          d2,
          iter_loop_step l laws none f n st s (fetched (x ∷ xs) ((k, v) ∷ es) prev at d) next fi fe
                refl (advance-entry_first l f x xs k v es prev at d d1 lt r1)
              ∙ r2,
          e2
              ∙ append-cons_some front k o (join_sorted p (x ∷ xs) es)
              ∙ ap (λ es. front ++ es) (sym (join-entry_first p x xs k v es lt)),
        )

    pub walk_same_key :
        compare_bytes k x.key ≡ Ordering.eq
        → GoodItem x
        → GoodValue v
        → Walks n xs es
        → Walks (suc n) (x ∷ xs) ((k, v) ∷ es)
    walk_same_key eq gx gv ih front prev at d st s fi fe e b =
        let o = p.on_item x (some v) in
        let same : k ≡ x.key = eq_of_compare k x.key eq in
        let e' : l.entries d ≡ front ++ ((x.key, v) ∷ es) = rw (← same) e in
        let (d1, r1, e1) = follows.both d front x v es e' keys.0 gx gv in
        let next = after_round l f x xs k v es prev at d d1 none none in
        let (d2, r2, e2) =
          ih (front ++ cons_some x.key o []) x.key (some k) d1 next _
            (fetch-item_taken xs x.key (some k) d1 none false keys.1 ax)
            (fetch-entry_taken l laws es (head? xs) (is_empty xs) (next_prev x.key xs) (tail xs)
              (some k) d1 (rw same (cursor_past l laws d d1 front x.key v o es e' e1)))
            (e1 ∙ sym (append-cons_some front x.key o es)) (front_below l laws front x o xs b ax) in
        (
          d2,
          iter_loop_step l laws none f n st s (fetched (x ∷ xs) ((k, v) ∷ es) prev at d) next fi fe
                refl (advance-same_key l f x xs k v es prev at d d1 eq (rw same r1))
              ∙ r2,
          e2
              ∙ append-cons_some front x.key o (join_sorted p xs es)
              ∙ ap (λ es. front ++ es) (sym (join-same_key p x xs k v es eq)),
        )

    pub walk_item_first :
        compare_bytes k x.key ≡ Ordering.gt
        → GoodItem x
        → Walks n xs ((k, v) ∷ es)
        → Walks (suc n) (x ∷ xs) ((k, v) ∷ es)
    unfolding fetch_entry
    walk_item_first gt gx ih front prev at d st s fi fe e b =
        let o = p.on_item x none in
        let lt : Lt x.key k = Lt_of_gt k x.key gt in
        let (below, above) = sorted_middle front k v es (rw e at (laws.sorted d)) in
        let (d1, r1, e1) =
          follows.item_only d front x ((k, v) ∷ es) e b (lt, Above-trans x.key k es lt above) keys.0
            gx in
        let next = after_round l f x xs k v es prev at d d1 none (some (k, v)) in
        let (d2, r2, e2) =
          ih (front ++ cons_some x.key o []) x.key (some k) d1 next
            (fetched xs ((k, v) ∷ es) x.key (some k) d1)
            (fetch-item_taken xs x.key (some k) d1 (some (k, v)) false keys.1 ax) refl
            (e1 ∙ sym (append-cons_some front x.key o ((k, v) ∷ es)))
            (front_below l laws front x o xs b ax) in
        (
          d2,
          iter_loop_step l laws none f n st s (fetched (x ∷ xs) ((k, v) ∷ es) prev at d) next fi fe
                refl (advance-item_first l f x xs k v es prev at d d1 gt r1)
              ∙ r2,
          e2
              ∙ append-cons_some front x.key o (join_sorted p xs ((k, v) ∷ es))
              ∙ ap (λ es. front ++ es) (sym (join-item_first p x xs k v es gt)),
        )
