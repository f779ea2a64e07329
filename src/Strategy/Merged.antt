-- ===== src/Strategy/Merged.antt =====
-- What the strategy `Update` makes of an iterator: the items merged one after the other.
use lightningstream.Base.{
  ℕ, ◌≡◌, refl, sym, ap, ◌∙◌, subst, true, Option, none, some, List, [], ◌∷◌, All, arith, inl, inr,
  Bool-cases, Option-cases,
}
use lightningstream.Base.Bytes.{Bytes, compare_bytes, equal_bytes, eq_of_compare, Ordering-cases}
use lightningstream.Base.Maps.{eq_of_equal_bytes}
use lightningstream.Base.Result.{Result, ok}
use lightningstream.Lmdb.{Lmdb, IsOrderedMap, IsKey}
use lightningstream.Lmdb.Entries.{Entry, lookup}
use lightningstream.Lmdb.Lookup.{at_key, at_key-P, at_key-cong, lookup-insert, lookup-erase}
use lightningstream.Strategy.{Item, Iterator}
use lightningstream.Strategy.Strategies.{bytes_of, del_if_there, set_new_val, update_items, update}
use lightningstream.Strategy.Update.{kept}

-- What a key holds after the items.
unfoldable pub merged : List Item → Bytes → Option Bytes → Option Bytes
merged [] k o = o
merged (x ∷ xs) k o = merged xs k (at_key k x.key (kept (x.merge (bytes_of o))) o)

-- `Merge` returns no error, and what is kept of its answer is again what it can be called with.
abbrev pub Accepts : (Option Bytes → Type 0) → Item → Type 0
Accepts P x =
    (o : Option Bytes)
    → P o
    → (new : Option Bytes) × (x.merge (bytes_of o) ≡ ok new) × P (kept (ok new))

at_key-merge :
    (x : Item) (new : Option Bytes) (es : List Entry) (i : Bytes)
    → x.merge (bytes_of (lookup x.key es)) ≡ ok new
    → at_key i x.key (kept (ok new)) (lookup i es)
      ≡ at_key i x.key (kept (x.merge (bytes_of (lookup i es)))) (lookup i es)
at_key-merge x new es i e =
    at_key-cong i x.key (kept (ok new)) (kept (x.merge (bytes_of (lookup i es)))) (lookup i es)
      (λ same. ap kept (sym (ap (λ z. x.merge (bytes_of (lookup z es))) same ∙ e)))

module _ (l : Lmdb) (laws : IsOrderedMap l) where
  -- A write to one key.
  abbrev Writes : l.Dbi → Bytes → Option Bytes → Result l.Dbi → Type 0
  Writes d k o r =
      (d' : l.Dbi) × (r ≡ ok d')
      × ((i : Bytes) → lookup i (l.entries d') ≡ at_key i k o (lookup i (l.entries d)))

  unchanged :
      (d : l.Dbi) (k : Bytes) (o : Option Bytes)
      → lookup k (l.entries d) ≡ o
      → (i : Bytes) → lookup i (l.entries d) ≡ at_key i k o (lookup i (l.entries d))
  unchanged d k o e i = elim (Ordering-cases (compare_bytes i k)) [
    | inl less ↦ ground (arith, less)
    | inr (inl same) ↦
        ground (arith, same, e, ap (λ z. lookup z (l.entries d)) (eq_of_compare i k same))
    | inr (inr greater) ↦ ground (arith, greater)
  ]

  deleted : (d : l.Dbi) (k : Bytes) → Writes d k none (del_if_there l d k)
  unfolding del_if_there
  deleted d k = elim (Option-cases (lookup k (l.entries d))) [
    | inl e ↦ (d, ground (arith, laws.get_lem d k, e), unchanged d k none e)
    | inr (v, e) ↦
        (let (d1, r1, e1) = laws.del_lem d k v e in
          (
            d1,
            ground (arith, laws.get_lem d k, e, r1),
            λ i. ap (lookup i) e1 ∙ lookup-erase i k (l.entries d) (laws.sorted d),
          ))
  ]

  stored : (d : l.Dbi) (k v : Bytes) → IsKey k → Writes d k (some v) (l.put d k v)
  stored d k v key =
      let (d1, r1, e1) = laws.put_lem d k v key in
      (d1, r1, λ i. ap (lookup i) e1 ∙ lookup-insert i k v (l.entries d))

  held :
      (o : Option Bytes) (b : ℕ) (bs : Bytes)
      → equal_bytes (b ∷ bs) (bytes_of o) ≡ true
      → o ≡ some (b ∷ bs)
  held none b bs h = absurd (cc (eq_of_equal_bytes (b ∷ bs) [] h))
  held (some v) b bs h = ap some (sym (eq_of_equal_bytes (b ∷ bs) v h))

  set_new_val_lem :
      (d : l.Dbi) (k : Bytes) (new : Option Bytes)
      → IsKey k
      → Writes d k (kept (ok new)) (set_new_val l k (bytes_of (lookup k (l.entries d))) new d)
  unfolding set_new_val
  set_new_val_lem d k none key = deleted d k
  set_new_val_lem d k (some []) key = deleted d k
  set_new_val_lem d k (some (b ∷ bs)) key =
      elim (Bool-cases (equal_bytes (b ∷ bs) (bytes_of (lookup k (l.entries d))))) [
        | inl same ↦ (
          d,
          ground (arith, same),
          unchanged d k (some (b ∷ bs)) (held (lookup k (l.entries d)) b bs same),
        )
        | inr differ ↦
            (let (d1, r1, e1) = stored d k (b ∷ bs) key in (d1, ground (arith, differ, r1), e1))
      ]

  update_items_lem :
      (P : Option Bytes → Type 0) (xs : List Item) (d : l.Dbi)
      → All (λ x. IsKey x.key) xs
      → All (Accepts P) xs
      → ((i : Bytes) → P (lookup i (l.entries d)))
      → (d' : l.Dbi) × (update_items l xs none d ≡ ok d')
        × ((i : Bytes) → lookup i (l.entries d') ≡ merged xs i (lookup i (l.entries d)))
  unfolding update_items merged
  update_items_lem P [] d keys accepts p = (d, refl, λ i. refl)
  update_items_lem P (x ∷ xs) d (key, keys) (accept, accepts) p =
      let es = l.entries d in
      let (new, e1, p1) = accept (lookup x.key es) (p x.key) in
      let (d1, e2, w) = set_new_val_lem d x.key new key in
      let (d', e3, w') =
        update_items_lem P xs d1 keys accepts
          (λ i. subst P (sym (w i)) (at_key-P P i x.key (kept (ok new)) (lookup i es) p1 (p i))) in
      (
        d',
        rw (laws.get_lem d x.key, e1, e2) e3,
        λ i. w' i ∙ ap (merged xs i) (w i ∙ at_key-merge x new es i e1),
      )

  -- Where LMDB orders by `bytes.Compare` and the keys of the items have 1 to 511 bytes, and `Merge`
  -- returns no error: `Update` ends without an error, and every key holds what the merges of its
  -- items, one after the other, make of what it held. The items may be in any order.
  pub update-merged :
      (P : Option Bytes → Type 0) (it : Iterator) (d : l.Dbi)
      → it.ends_with ≡ none
      → All (λ x. IsKey x.key) it.items
      → All (Accepts P) it.items
      → ((i : Bytes) → P (lookup i (l.entries d)))
      → (d' : l.Dbi) × (update l it d ≡ ok d')
        × ((i : Bytes) → lookup i (l.entries d') ≡ merged it.items i (lookup i (l.entries d)))
  unfolding update
  update-merged P it d eof keys accepts p =
      let (d', e, w) = update_items_lem P it.items d keys accepts p in (d', rw eof e, w)
