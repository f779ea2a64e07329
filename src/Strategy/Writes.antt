-- ===== src/Strategy/Writes.antt =====
-- The writes of the strategies at a place in the sorted entries.
use mathlib.Core.List.{append-nil}
use lightningstream.Base.{
  ◌≡◌, refl, ◌∙◌, ap, true, List, [], ◌∷◌, ◌++◌, arith, Bool-cases, inl, inr, if◌then◌else◌,
}
use lightningstream.Base.Bytes.{Bytes, equal_bytes, eq_of_compare}
use lightningstream.Base.Result.{ok}
use lightningstream.Lmdb.{Lmdb, Holds, IsOrderedMap, IsKey}
use lightningstream.Lmdb.Entries.{
  Entry, Below, Above, insert, erase, lookup-middle, insert-between, insert-middle, erase-middle,
  sorted_middle, All-middle,
}

equal_bytes-eq : (a b : Bytes) → equal_bytes a b ≡ true → a ≡ b
unfolding equal_bytes
equal_bytes-eq a b h = ground (arith, eq_of_compare a b)

module _ (l : Lmdb) (laws : IsOrderedMap l) where
  pub del_middle :
      (d : l.Dbi) (front : List Entry) (k v : Bytes) (es : List Entry)
      → l.entries d ≡ front ++ ((k, v) ∷ es)
      → Holds l (l.del d k) (front ++ es)
  del_middle d front k v es e =
      let (b, a) = sorted_middle front k v es (rw e at (laws.sorted d)) in
      let (d1, r1, e1) = laws.del_lem d k v (rw e (lookup-middle front k v es b)) in
      (d1, r1, e1 ∙ ap (erase k) e ∙ erase-middle front k v es b)

  put_middle :
      (d : l.Dbi) (front : List Entry) (k v w : Bytes) (es : List Entry)
      → l.entries d ≡ front ++ ((k, v) ∷ es)
      → Holds l (l.put d k w) (front ++ ((k, w) ∷ es))
  put_middle d front k v w es e =
      let (b, a) = sorted_middle front k v es (rw e at (laws.sorted d)) in
      let (d1, r1, e1) =
        laws.put_lem d k w (All-middle (λ e. IsKey e.0) front (k, v) es (rw e at (laws.keys d))) in
      (d1, r1, e1 ∙ ap (insert k w) e ∙ insert-middle front k w v es b)

  pub put_between :
      (d : l.Dbi) (front : List Entry) (k w : Bytes) (es : List Entry)
      → l.entries d ≡ front ++ es
      → Below front k
      → Above k es
      → IsKey k
      → Holds l (l.put d k w) (front ++ ((k, w) ∷ es))
  put_between d front k w es e b a key =
      let (d1, r1, e1) = laws.put_lem d k w key in
      (d1, r1, e1 ∙ ap (insert k w) e ∙ insert-between front k w es b a)

  pub append_last :
      (d : l.Dbi) (front : List Entry) (k w : Bytes)
      → l.entries d ≡ front ++ []
      → Below front k
      → IsKey k
      → Holds l (l.append d k w) (front ++ ((k, w) ∷ []))
  append_last d front k w e b key =
      let (d1, r1, e1) = laws.append_lem d k w key (rw (e, append-nil front) b) in
      (d1, r1, e1 ∙ ap (insert k w) e ∙ insert-between front k w [] b tt)

  -- A write of the bytes that are there can be left out.
  pub put_changed :
      (d : l.Dbi) (front : List Entry) (k v w : Bytes) (es : List Entry)
      → l.entries d ≡ front ++ ((k, v) ∷ es)
      → Holds l (if equal_bytes w v then ok d else l.put d k w) (front ++ ((k, w) ∷ es))
  put_changed d front k v w es e = elim (Bool-cases (equal_bytes w v)) [
    | inl same ↦ rw (same, equal_bytes-eq w v same) (d, refl, e)
    | inr ne ↦ rw ne (put_middle d front k v w es e)
  ]
