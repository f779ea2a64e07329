-- ===== src/Strategy/Put.antt =====
-- `IterPut` makes the DBI hold the items of the iterator, and nothing else.
use Prim.Native.Nat.{bit_and}
use lightningstream.Base.{
  ◌≡◌, refl, ◌∙◌, Bool, false, Option, none, some, List, [], ◌∷◌, ◌++◌, All, ltb, is_empty,
}
use lightningstream.Base.Bytes.{Bytes}
use lightningstream.Base.Result.{Result, ok, err}
use lightningstream.Lmdb.{Lmdb, Holds, IsOrderedMap, IsKey}
use lightningstream.Lmdb.Entries.{Entry, Below, Above, cons_some, lookup}
use lightningstream.Strategy.{Item, Iterator, integer_key_flag}
use lightningstream.Strategy.Join.{Policy, joined, find_item, ItemsSorted, lookup-join_sorted}
use lightningstream.Strategy.Writes.{del_middle, put_between, append_last, put_changed}
use lightningstream.Strategy.Follows.{Follows}
use lightningstream.Strategy.Walk.{iter_both-join}
use lightningstream.Strategy.Strategies.{bytes_of, put_callback, iter_put}

-- The value of an item that was not there before; nil is written as an empty value.
abbrev pub value_of : Result (Option Bytes) → Bytes
value_of (ok o) = bytes_of o
value_of (err e) = []

abbrev pub item_value : Item → Bytes
item_value x = value_of (x.merge [])

abbrev pub put_policy : Policy
put_policy = record { on_entry = λ v. none; on_item = λ x o. some (item_value x) }

abbrev pub ItemHasValue : Item → Type 0
ItemHasValue x = (o : Option Bytes) × (x.merge [] ≡ ok o)

abbrev AnyValue : Bytes → Type 0
AnyValue v = Unit

module _ (l : Lmdb) (laws : IsOrderedMap l) (it : Iterator) where
  put_item_only :
      (d : l.Dbi) (front : List Entry) (x : Item) (es : List Entry)
      → l.entries d ≡ front ++ es
      → Below front x.key
      → Above x.key es
      → IsKey x.key
      → ItemHasValue x
      → Holds l
          (put_callback l it (some x) none false (is_empty es) d)
          (front ++ cons_some x.key (some (item_value x)) es)
  unfolding put_callback
  put_item_only d front x [] e b a key (o, c) =
      rw c (append_last l laws d front x.key (bytes_of o) e b key)
  put_item_only d front x (y ∷ ys) e b a key (o, c) =
      rw c (put_between l laws d front x.key (bytes_of o) (y ∷ ys) e b a key)

  put_both :
      (d : l.Dbi) (front : List Entry) (x : Item) (v : Bytes) (es : List Entry)
      → l.entries d ≡ front ++ ((x.key, v) ∷ es)
      → ItemHasValue x
      → Holds l
          (put_callback l it (some x) (some (x.key, v)) false false d)
          (front ++ cons_some x.key (some (item_value x)) es)
  unfolding put_callback
  put_both d front x v es e (o, c) = rw c (put_changed l laws d front x.key v (bytes_of o) es e)

  put_entry_only :
      (d : l.Dbi) (front : List Entry) (k v : Bytes) (es : List Entry) (eof : Bool)
      → l.entries d ≡ front ++ ((k, v) ∷ es)
      → Holds l (put_callback l it none (some (k, v)) eof false d) (front ++ es)
  unfolding put_callback
  put_entry_only d front k v es eof e = del_middle l laws d front k v es e

  put_callback-Follows : Follows l (put_callback l it) put_policy AnyValue ItemHasValue
  put_callback-Follows = record {
    entry_only = λ d front k v es eof e r. put_entry_only d front k v es eof e;
    item_only = λ d front x es e b a key g. put_item_only d front x es e b a key g;
    both = λ d front x v es e key g r. put_both d front x v es e g;
  }

any_values : (es : List Entry) → All (λ (e : Entry). AnyValue e.1) es
any_values [] = tt
any_values (e ∷ es) = (tt, any_values es)

-- What the iterator alone says of a key.
abbrev pub put_value : Option Item → Option Bytes
put_value none = none
put_value (some x) = some (item_value x)

joined-put_policy : (i : Option Item) (o : Option Bytes) → joined put_policy i o ≡ put_value i
unfolding joined
joined-put_policy none none = refl
joined-put_policy none (some v) = refl
joined-put_policy (some x) o = refl

-- On a DBI that LMDB orders by `bytes.Compare`, and for an iterator whose items have keys of 1 to
-- 511 bytes in rising order, which ends with io.EOF, and whose `Merge` returns no error at nil:
-- `IterPut` ends without an error. Afterwards a key of an item holds what `Merge` makes of nil, and
-- there is no other key.
pub iter_put-put_value :
    (l : Lmdb) (little_endian : Bool) (it : Iterator) (d : l.Dbi)
    → IsOrderedMap l
    → ltb 0 (bit_and l.flags integer_key_flag) ≡ false
    → it.ends_with ≡ none
    → ItemsSorted it.items
    → All (λ x. IsKey x.key) it.items
    → All ItemHasValue it.items
    → (d' : l.Dbi) × ((iter_put l little_endian it d ≡ ok d')
        × ((k : Bytes) → lookup k (l.entries d') ≡ put_value (find_item k it.items)))
unfolding iter_put
iter_put-put_value l little_endian it d laws order eof sx kx gx =
    let (d', r, e) =
      iter_both-join l laws (put_callback l it) put_policy AnyValue ItemHasValue
        (put_callback-Follows l laws it) little_endian it d eof sx kx gx
        (any_values (l.entries d)) in
    (
      d',
      (
        rw order r,
        λ k. rw e (
            lookup-join_sorted put_policy k it.items (l.entries d) sx (laws.sorted d)
            ∙ joined-put_policy (find_item k it.items) (lookup k (l.entries d))),
      ),
    )
