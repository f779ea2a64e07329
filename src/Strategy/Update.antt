-- ===== src/Strategy/Update.antt =====
-- `IterUpdate` merges every item of the iterator into the DBI and cleans the other entries.
use Prim.Native.Nat.{bit_and}
use lightningstream.Base.{
  ℕ, suc, ◌==◌, ◌≡◌, refl, Bool, false, Option, none, some, List, [], ◌∷◌, ◌++◌, All, arith, length,
  is_empty, ltb,
}
use lightningstream.Base.Bytes.{Bytes}
use lightningstream.Base.Result.{Result, ok, err}
use lightningstream.Lmdb.{Lmdb, Holds, IsOrderedMap, IsKey}
use lightningstream.Lmdb.Entries.{Entry, Below, Above, cons_some, lookup}
use lightningstream.Strategy.{Item, Iterator, integer_key_flag}
use lightningstream.Strategy.Join.{Policy, joined, find_item, ItemsSorted, lookup-join_sorted}
use lightningstream.Strategy.Writes.{del_middle, put_between, append_last, put_changed}
use lightningstream.Strategy.Follows.{Follows}
use lightningstream.Strategy.Walk.{iter_both-join}
use lightningstream.Strategy.Strategies.{bytes_of, update_callback, iter_update}

-- What is kept of a merge: nothing if the answer has no bytes.
abbrev pub kept : Result (Option Bytes) → Option Bytes
kept (ok (some (b ∷ bs))) = some (b ∷ bs)
kept _ = none

-- What is kept of an entry that the iterator does not have.
abbrev pub cleaned : Result (Option Bytes) → Option Bytes
cleaned (ok o) = o
cleaned (err e) = none

abbrev pub update_policy : Iterator → Policy
update_policy it = record {
  on_entry = λ v. cleaned (it.clean v);
  on_item = λ x o. kept (x.merge (bytes_of o));
}

-- `Clean` and `Merge` return no error at the values that the DBI holds.
pub record Answers (it : Iterator) (Readable : Bytes → Type 0) : Type 0 where
  pub clean_ok : (v : Bytes) → Readable v → (o : Option Bytes) × (it.clean v ≡ ok o)

abbrev pub ItemAnswers : (Bytes → Type 0) → Item → Type 0
ItemAnswers Readable x =
    ((o : Option Bytes) × (x.merge [] ≡ ok o))
    × ((v : Bytes) → Readable v → (o : Option Bytes) × (x.merge v ≡ ok o))

suc_not_zero : (n : ℕ) → (suc n == 0) ≡ false
suc_not_zero n = ground arith

module _ (l : Lmdb) (laws : IsOrderedMap l) where
  module _ (it : Iterator) where
    clean_at :
        (d : l.Dbi) (front : List Entry) (k v : Bytes) (es : List Entry) (eof : Bool)
        → l.entries d ≡ front ++ ((k, v) ∷ es)
        → (o : Option Bytes) → it.clean v ≡ ok o
        → Holds l (update_callback l it none (some (k, v)) eof false d) (front ++ cons_some k o es)
    unfolding update_callback
    clean_at d front k v es eof e none c = rw c (del_middle l laws d front k v es e)
    clean_at d front k v es eof e (some w) c = rw c (put_changed l laws d front k v w es e)

    insert_at :
        (d : l.Dbi) (front : List Entry) (x : Item) (es : List Entry)
        → l.entries d ≡ front ++ es
        → Below front x.key
        → Above x.key es
        → IsKey x.key
        → (o : Option Bytes) → x.merge [] ≡ ok o
        → Holds l
            (update_callback l it (some x) none false (is_empty es) d)
            (front ++ cons_some x.key (kept (ok o)) es)
    unfolding update_callback
    insert_at d front x [] e b a key none c = rw c (d, refl, e)
    insert_at d front x [] e b a key (some []) c = rw c (d, refl, e)
    insert_at d front x [] e b a key (some (w ∷ ws)) c =
        rw (c, suc_not_zero (length ws)) (append_last l laws d front x.key (w ∷ ws) e b key)
    insert_at d front x (y ∷ ys) e b a key none c = rw c (d, refl, e)
    insert_at d front x (y ∷ ys) e b a key (some []) c = rw c (d, refl, e)
    insert_at d front x (y ∷ ys) e b a key (some (w ∷ ws)) c =
        rw (c, suc_not_zero (length ws))
          (put_between l laws d front x.key (w ∷ ws) (y ∷ ys) e b a key)

    merge_at :
        (d : l.Dbi) (front : List Entry) (x : Item) (v : Bytes) (es : List Entry)
        → l.entries d ≡ front ++ ((x.key, v) ∷ es)
        → (n o : Option Bytes) → x.merge [] ≡ ok n
        → x.merge v ≡ ok o
        → Holds l
            (update_callback l it (some x) (some (x.key, v)) false false d)
            (front ++ cons_some x.key (kept (ok o)) es)
    unfolding update_callback
    merge_at d front x v es e n none cn c = rw (cn, c) (del_middle l laws d front x.key v es e)
    merge_at d front x v es e n (some []) cn c = rw (cn, c) (del_middle l laws d front x.key v es e)
    merge_at d front x v es e n (some (w ∷ ws)) cn c =
        rw (cn, c, suc_not_zero (length ws)) (put_changed l laws d front x.key v (w ∷ ws) es e)

  update_callback-Follows :
      (it : Iterator) (Readable : Bytes → Type 0)
      → Answers it Readable
      → Follows l (update_callback l it) (update_policy it) Readable (ItemAnswers Readable)
  update_callback-Follows it Readable answers = record {
    entry_only = λ d front k v es eof e r.
        let (o, c) = answers.clean_ok v r in rw c (clean_at it d front k v es eof e o c);
    item_only = λ d front x es e b a key g.
        let (o, c) = g.0 in rw c (insert_at it d front x es e b a key o c);
    both = λ d front x v es e key g r.
        let (n, cn) = g.0 in let (o, c) = g.1 v r in rw c (merge_at it d front x v es e n o cn c);
  }

-- On a DBI that LMDB orders by `bytes.Compare`, and for an iterator whose items have keys of 1 to
-- 511 bytes in rising order, which ends with io.EOF, and whose `Merge` and `Clean` return no error
-- at nil and at the values that the DBI holds: `IterUpdate` ends without an error. Afterwards a key
-- of an item holds what `Merge` made of the item and of what the key held, or is gone if that has
-- no bytes; any other key holds what `Clean` made of what it held, or is gone if that is nil.
pub iter_update-joined :
    (l : Lmdb) (little_endian : Bool) (it : Iterator) (Readable : Bytes → Type 0) (d : l.Dbi)
    → IsOrderedMap l
    → ltb 0 (bit_and l.flags integer_key_flag) ≡ false
    → it.ends_with ≡ none
    → ItemsSorted it.items
    → All (λ x. IsKey x.key) it.items
    → Answers it Readable
    → All (ItemAnswers Readable) it.items
    → All (λ e. Readable e.1) (l.entries d)
    → (d' : l.Dbi) × (iter_update l little_endian it d ≡ ok d')
      × ((k : Bytes)
          → lookup k (l.entries d')
            ≡ joined (update_policy it) (find_item k it.items) (lookup k (l.entries d)))
unfolding iter_update
iter_update-joined l little_endian it Readable d laws order eof sx kx answers gx ge =
    let (d', r, e) =
      iter_both-join l laws (update_callback l it) (update_policy it) Readable
        (ItemAnswers Readable) (update_callback-Follows l laws it Readable answers) little_endian it
        d eof sx kx gx ge in
    (
      d',
      rw order r,
      λ k. rw e (lookup-join_sorted (update_policy it) k it.items (l.entries d) sx (laws.sorted d)),
    )
