-- ===== src/Strategy/Follows.antt =====
-- When a callback of `iterBoth` follows a policy.
use lightningstream.Base.{◌≡◌, Bool, false, none, some, List, ◌∷◌, ◌++◌, is_empty}
use lightningstream.Base.Bytes.{Bytes}
use lightningstream.Lmdb.{Lmdb, Holds, IsKey}
use lightningstream.Lmdb.Entries.{Entry, Below, Above, cons_some}
use lightningstream.Strategy.{Item, Callback}
use lightningstream.Strategy.Join.{Policy}

-- The callback follows the policy at values and items that are `Good`.
pub record Follows (l : Lmdb) (f : Callback l.Dbi) (p : Policy) (GoodValue : Bytes → Type 0)
    (GoodItem : Item → Type 0) : Type 0 where
  pub entry_only :
      (d : l.Dbi) (front : List Entry) (k v : Bytes) (es : List Entry) (eof : Bool)
      → l.entries d ≡ front ++ ((k, v) ∷ es)
      → GoodValue v
      → Holds l (f none (some (k, v)) eof false d) (front ++ cons_some k (p.on_entry v) es)
  pub item_only :
      (d : l.Dbi) (front : List Entry) (x : Item) (es : List Entry)
      → l.entries d ≡ front ++ es
      → Below front x.key
      → Above x.key es
      → IsKey x.key
      → GoodItem x
      → Holds l
          (f (some x) none false (is_empty es) d)
          (front ++ cons_some x.key (p.on_item x none) es)
  pub both :
      (d : l.Dbi) (front : List Entry) (x : Item) (v : Bytes) (es : List Entry)
      → l.entries d ≡ front ++ ((x.key, v) ∷ es)
      → IsKey x.key
      → GoodItem x
      → GoodValue v
      → Holds l
          (f (some x) (some (x.key, v)) false false d)
          (front ++ cons_some x.key (p.on_item x (some v)) es)
