-- ===== src/Dupsort/Sorted.antt =====
-- The keys that the encoding writes are in the order of LMDB.
use Prim.Native.Nat.{Ordering}
use lightningstream.Base.{◌≡◌, ◌<◌, ◌∙◌, refl, sym, subst, ap, arith, length, List, [], ◌∷◌}
use lightningstream.Base.Bytes.{Bytes, Lt, compare_bytes}
use lightningstream.Base.Result.{
  Result, ok, err, dupsort_reversed, dupsort_not_unique, >>=-eq-ok, ok_inj,
}
use lightningstream.Snapshot.{Kv}
use lightningstream.Snapshot.Dbi.{Dbi, append_kv, map_entries, map_dbi}
use lightningstream.Dupsort.{encode_one, encode_next, encode}
use lightningstream.Snapshot.Transform.{transform_dupsort_hack_v1}

in_order :
    (o : Ordering) (new : Kv) (p : Bytes × Kv)
    → (elim o as (λ x. Result (Bytes × Kv)) [
      | Ordering.eq ↦ err dupsort_not_unique
      | Ordering.gt ↦ err dupsort_reversed
      | Ordering.lt ↦ ok (new.key, new)
    ])
      ≡ ok p
    → (o ≡ Ordering.lt) × ((new.key, new) ≡ p)
in_order Ordering.lt new p h = (refl, cc)
in_order Ordering.eq new p h = cc
in_order Ordering.gt new p h = cc

-- What one step of the callback accepts.
encode_next-shape :
    (prev : Bytes) (x : Kv) (p : Bytes × Kv)
    → encode_next prev x ≡ ok p
    → (new : Kv) × ((p ≡ (new.key, new)) × ((encode_one x ≡ ok new) × Lt prev new.key))
unfolding encode_next
encode_next-shape prev x p h =
    let (new, e, h') = >>=-eq-ok (encode_one x) _ h in
    let (lt, is) = in_order (compare_bytes prev new.key) new p h' in (new, (sym is, (e, lt)))

-- `Append` writes an entry with a key.
pub append_kv-key : (kv : Kv) (rest : List Kv) → 0 < length kv.key → append_kv kv rest ≡ kv ∷ rest
unfolding append_kv
append_kv-key kv rest h = ground arith

length_of_Lt : (a b : Bytes) → Lt a b → 0 < length b
unfolding compare_bytes
length_of_Lt [] [] h = absurd (cc h)
length_of_Lt (x ∷ xs) [] h = absurd (cc h)
length_of_Lt a (y ∷ ys) h = omega arith

pub encode_cons :
    (prev : Bytes) (x : Kv) (xs ys : List Kv)
    → map_entries encode_next prev (x ∷ xs) ≡ ok ys
    → (new : Kv) × ((rest : List Kv) × ((ys ≡ new ∷ rest)
          × ((encode_one x ≡ ok new)
              × (Lt prev new.key × (map_entries encode_next new.key xs ≡ ok rest)))))
unfolding map_entries
encode_cons prev x xs ys h =
    let (p, e, h1) = >>=-eq-ok (encode_next prev x) _ h in
    let (rest, e', h2) = >>=-eq-ok (map_entries encode_next p.0 xs) _ h1 in
    let (new, (is, (one, lt))) = encode_next-shape prev x p e in
    (
      new,
      (
        rest,
        (
          sym (ok_inj h2)
              ∙ ap (λ (q : Bytes × Kv). append_kv q.1 rest) is
              ∙ append_kv-key new rest (length_of_Lt prev new.key lt),
          (one, (lt, rw (ap (λ q. q.0) is) at e')),
        ),
      ),
    )

pub encode_nil : (prev : Bytes) (ys : List Kv) → map_entries encode_next prev [] ≡ ok ys → ys ≡ []
unfolding map_entries
encode_nil prev ys h = cc

-- The keys rise strictly, from a key that precedes them.
abbrev pub Rising : Bytes → List Kv → Type 0
Rising prev [] = Unit
Rising prev (x ∷ xs) = Lt prev x.key × Rising x.key xs

encode_entries-Rising :
    (prev : Bytes) (xs ys : List Kv) → map_entries encode_next prev xs ≡ ok ys → Rising prev ys
encode_entries-Rising prev [] ys h = subst (Rising prev) (sym (encode_nil prev ys h)) tt
encode_entries-Rising prev (x ∷ xs) ys h =
    let (new, (rest, (is, (one, (lt, more))))) = encode_cons prev x xs ys h in
    subst (Rising prev) (sym is) (lt, encode_entries-Rising new.key xs rest more)

pub encode-shape :
    (d r : Dbi)
    → encode d ≡ ok r
    → (ys : List Kv) × ((map_entries encode_next [] d.entries ≡ ok ys)
        × (record d { transform = transform_dupsort_hack_v1; entries = ys } ≡ r))
unfolding encode map_dbi
encode-shape d r h =
    let (ys, e, h1) = >>=-eq-ok (map_entries encode_next [] d.entries) _ h in (ys, (e, cc))

-- The keys of what `dupSortHackEncode` returns are not empty and rise strictly.
pub encode-Rising : (d r : Dbi) → encode d ≡ ok r → Rising [] r.entries
encode-Rising d r h =
    let (ys, (e, is)) = encode-shape d r h in
    subst (λ (r : Dbi). Rising [] r.entries) is (encode_entries-Rising [] d.entries ys e)
