-- ===== src/Strategy/Rounds.antt =====
-- One round of the loop in `iterBoth`: what is fetched, and what the callback gets.
use Prim.Native.Nat.{Ordering}
use lightningstream.Base.{
  ℕ, suc, ◌<◌, ◌≡◌, refl, ◌∙◌, ap, ◌&&◌, Bool, true, false, Option, none, some, List, [], ◌∷◌, ◌++◌,
  All, arith, length, head?, tail, is_empty,
}
use lightningstream.Base.Bytes.{Bytes, Lt, compare_bytes}
use lightningstream.Base.Result.{Error, ok}
use lightningstream.Lmdb.{Lmdb, IsOrderedMap, IsKey}
use lightningstream.Lmdb.Entries.{
  Entry, Below, sorted_middle, beyond-cons_some, Below-cons_some, cons_some,
}
use lightningstream.Strategy.{Item, Both, Callback, fetch_item, fetch_entry, advance, iter_loop}
use lightningstream.Strategy.Join.{ItemsAbove}

pub nothing_first : (k : Bytes) → 0 < length k → Lt [] k
unfolding compare_bytes
nothing_first [] h = absurd (omega arith)
nothing_first (b ∷ bs) h = refl

abbrev pub next_prev : Bytes → List Item → Bytes
next_prev prev [] = prev
next_prev prev (x ∷ xs) = x.key

abbrev pub next_at : Option Bytes → List Entry → Option Bytes
next_at at [] = at
next_at at ((k, v) ∷ es) = some k

module _ {D : Type 0} where
  -- The variables where both sides have been fetched.
  abbrev pub fetched : List Item → List Entry → Bytes → Option Bytes → D → Both D
  fetched xs es prev at d = record {
    it_key = head? xs;
    it_eof = is_empty xs;
    db_key = head? es;
    db_eof = is_empty es;
    prev_key = next_prev prev xs;
    items = tail xs;
    at = next_at at es;
    dbi = d;
  }

  pub fetch-item_taken :
      (xs : List Item) (prev : Bytes) (at : Option Bytes) (d : D) (dk : Option Entry) (de : Bool)
      → All (λ x. IsKey x.key) xs
      → ItemsAbove prev xs
      → fetch_item compare_bytes none (record {
        it_key = none;
        it_eof = false;
        db_key = dk;
        db_eof = de;
        prev_key = prev;
        items = xs;
        at = at;
        dbi = d;
      })
        ≡ ok (record {
          it_key = head? xs;
          it_eof = is_empty xs;
          db_key = dk;
          db_eof = de;
          prev_key = next_prev prev xs;
          items = tail xs;
          at = at;
          dbi = d;
        })
  unfolding fetch_item
  fetch-item_taken [] prev at d dk de h a = refl
  fetch-item_taken (x ∷ xs) prev at d dk de (h, hs) (a, above) = ground arith

module _ (l : Lmdb) (laws : IsOrderedMap l) where
  pub fetch-entry_taken :
      (es : List Entry) (ik : Option Item) (ie : Bool) (prev : Bytes) (items : List Item)
      (at : Option Bytes) (d : l.Dbi)
      → l.cursor_get d at ≡ head? es
      → fetch_entry l (record {
        it_key = ik;
        it_eof = ie;
        db_key = none;
        db_eof = false;
        prev_key = prev;
        items = items;
        at = at;
        dbi = d;
      })
        ≡ record {
          it_key = ik;
          it_eof = ie;
          db_key = head? es;
          db_eof = is_empty es;
          prev_key = prev;
          items = items;
          at = next_at at es;
          dbi = d;
        }
  unfolding fetch_entry
  fetch-entry_taken [] ik ie prev items at d e = rw e
  fetch-entry_taken ((k, v) ∷ es) ik ie prev items at d e = rw e

  -- One round of the loop.
  pub iter_loop_step :
      (ends : Option Error) (f : Callback l.Dbi) (n : ℕ) (st s c next : Both l.Dbi)
      → fetch_item compare_bytes ends st ≡ ok s
      → fetch_entry l s ≡ c
      → (c.it_eof && c.db_eof) ≡ false
      → advance l compare_bytes f c ≡ ok next
      → iter_loop l compare_bytes ends f (suc n) st ≡ iter_loop l compare_bytes ends f n next
  unfolding iter_loop
  iter_loop_step ends f n st s c next e1 e2 more e3 = rw (e1, e2, more, e3)

  pub iter_loop_end :
      (ends : Option Error) (f : Callback l.Dbi) (n : ℕ) (st s c : Both l.Dbi)
      → fetch_item compare_bytes ends st ≡ ok s
      → fetch_entry l s ≡ c
      → (c.it_eof && c.db_eof) ≡ true
      → iter_loop l compare_bytes ends f (suc n) st ≡ ok c.dbi
  unfolding iter_loop
  iter_loop_end ends f n st s c e1 e2 done = rw (e1, e2, done)

  -- Where the cursor goes on after the entry at `k` has been handled.
  pub cursor_past :
      (d d1 : l.Dbi) (front : List Entry) (k v : Bytes) (o : Option Bytes) (es : List Entry)
      → l.entries d ≡ front ++ ((k, v) ∷ es)
      → l.entries d1 ≡ front ++ cons_some k o es
      → l.cursor_get d1 (some k) ≡ head? es
  cursor_past d d1 front k v o es e e1 =
      let (b, a) = sorted_middle front k v es (rw e at (laws.sorted d)) in
      laws.cursor_get_lem d1 (some k) ∙ rw e1 (ap head? (beyond-cons_some front k o es b a))

  abbrev pub FrontBelow : List Entry → List Item → Type 0
  FrontBelow front [] = Unit
  FrontBelow front (x ∷ xs) = Below front x.key

  pub nothing_below : (xs : List Item) → FrontBelow [] xs
  nothing_below [] = tt
  nothing_below (x ∷ xs) = tt

  pub front_below :
      (front : List Entry) (x : Item) (o : Option Bytes) (xs : List Item)
      → Below front x.key
      → ItemsAbove x.key xs
      → FrontBelow (front ++ cons_some x.key o []) xs
  front_below front x o [] b a = tt
  front_below front x o (y ∷ ys) b (a, above) = Below-cons_some front x.key o y.key b a

-- One round with an item and an entry at hand, by the order of their keys.
module _ (l : Lmdb) (f : Callback l.Dbi) (x : Item) (xs : List Item) (k v : Bytes) (es : List Entry)
    (prev : Bytes) (at : Option Bytes) (d d1 : l.Dbi) where
  abbrev pub after_round : Option Item → Option Entry → Both l.Dbi
  after_round it_key db_key = record {
    it_key = it_key;
    it_eof = false;
    db_key = db_key;
    db_eof = false;
    prev_key = x.key;
    items = xs;
    at = some k;
    dbi = d1;
  }

  pub advance-entry_first :
      compare_bytes k x.key ≡ Ordering.lt
      → f none (some (k, v)) false false d ≡ ok d1
      → advance l compare_bytes f (fetched (x ∷ xs) ((k, v) ∷ es) prev at d)
        ≡ ok (after_round (some x) none)
  unfolding advance
  advance-entry_first h r = ground arith

  pub advance-same_key :
      compare_bytes k x.key ≡ Ordering.eq
      → f (some x) (some (k, v)) false false d ≡ ok d1
      → advance l compare_bytes f (fetched (x ∷ xs) ((k, v) ∷ es) prev at d)
        ≡ ok (after_round none none)
  unfolding advance
  advance-same_key h r = ground arith

  pub advance-item_first :
      compare_bytes k x.key ≡ Ordering.gt
      → f (some x) none false false d ≡ ok d1
      → advance l compare_bytes f (fetched (x ∷ xs) ((k, v) ∷ es) prev at d)
        ≡ ok (after_round none (some (k, v)))
  unfolding advance
  advance-item_first h r = ground arith
