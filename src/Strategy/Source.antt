-- ===== src/Strategy/Source.antt =====
-- `Next` of syncer/iterators.go: its iterators as iterators of the strategies, and what `IterUpdate`
-- makes of a `PlainIterator`.
use Prim.Native.Nat.{Ordering, bit_and}
use lightningstream.Base.{
  ◌≡◌, refl, ◌∙◌, arith, Bool, false, ltb, Option, none, some, List, [], ◌∷◌, All, map, length,
  ◌==◌, if◌then◌else◌, inl, inr,
}
use lightningstream.Base.Bytes.{Bytes, compare_bytes, Ordering-cases}
use lightningstream.Base.Result.{ok}
use lightningstream.Lmdb.{Lmdb, IsOrderedMap, IsKey}
use lightningstream.Lmdb.Entries.{Entry, lookup}
use lightningstream.Snapshot.{Kv}
use lightningstream.Iterators.{NativeIterator, merge, clean, plain_merge, plain_clean}
use lightningstream.Strategy.{Item, Iterator, integer_key_flag}
use lightningstream.Strategy.Join.{joined, find_item, ItemsSorted}
use lightningstream.Strategy.Strategies.{iter_update}
use lightningstream.Strategy.Update.{kept, update_policy, Answers, ItemAnswers, iter_update-joined}

-- `NativeIterator.Next`: it yields the entries of the DBI message, and `Merge` reads the last one.
abbrev pub native_item : NativeIterator → Kv → Item
native_item it kv = record { key = kv.key; merge = λ oldval. merge it kv oldval }

abbrev pub native_source : NativeIterator → List Kv → Iterator
native_source it kvs = record {
  items = map (native_item it) kvs;
  ends_with = none;
  clean = λ oldval. clean it oldval;
}

-- `PlainIterator.Next`
abbrev pub plain_item : Kv → Item
plain_item kv = record { key = kv.key; merge = λ oldval. plain_merge kv oldval }

abbrev pub plain_source : List Kv → Iterator
plain_source kvs = record {
  items = map plain_item kvs;
  ends_with = none;
  clean = λ oldval. plain_clean oldval;
}

-- What an application finds under a key of the entries: an empty value stands for none.
abbrev pub plain_value : Bytes → List Kv → Option Bytes
plain_value k [] = none
plain_value k (kv ∷ kvs) = elim (compare_bytes k kv.key) [
  | Ordering.eq ↦ if length kv.value == 0 then none else some kv.value
  | _ ↦ plain_value k kvs
]

abbrev AnyValue : Bytes → Type 0
AnyValue v = Unit

plain-Answers : (kvs : List Kv) → Answers (plain_source kvs) AnyValue
unfolding plain_clean
plain-Answers kvs = record { clean_ok = λ v r. (none, refl) }

plain_merge_ok : (kv : Kv) (v : Bytes) → (o : Option Bytes) × (plain_merge kv v ≡ ok o)
unfolding plain_merge
plain_merge_ok kv v = (if length kv.value == 0 then none else some kv.value, ground arith)

plain-ItemAnswers : (kvs : List Kv) → All (ItemAnswers AnyValue) (map plain_item kvs)
plain-ItemAnswers [] = tt
plain-ItemAnswers (kv ∷ kvs) =
    ((plain_merge_ok kv [], λ v r. plain_merge_ok kv v), plain-ItemAnswers kvs)

any_values : (es : List Entry) → All (λ (e : Entry). AnyValue e.1) es
any_values [] = tt
any_values (e ∷ es) = (tt, any_values es)

kept_value :
    (v : Bytes)
    → kept (if length v == 0 then ok none else ok (some v))
      ≡ (if length v == 0 then none else some v)
kept_value [] = refl
kept_value (b ∷ bs) = ground arith

joined-plain_item :
    (all : List Kv) (kv : Kv) (o : Option Bytes)
    → joined (update_policy (plain_source all)) (some (plain_item kv)) o
      ≡ (if length kv.value == 0 then none else some kv.value)
unfolding joined plain_merge
joined-plain_item all kv o = kept_value kv.value

joined-plain_value :
    (all kvs : List Kv) (k : Bytes) (o : Option Bytes)
    → joined (update_policy (plain_source all)) (find_item k (map plain_item kvs)) o
      ≡ plain_value k kvs
unfolding find_item joined plain_clean
joined-plain_value all [] k none = refl
joined-plain_value all [] k (some v) = refl
joined-plain_value all (kv ∷ kvs) k o = elim (Ordering-cases (compare_bytes k kv.key)) [
  | inl lt ↦ ground (arith, lt, joined-plain_value all kvs k o)
  | inr (inl eq) ↦ ground (arith, eq, joined-plain_item all kv o)
  | inr (inr gt) ↦ ground (arith, gt, joined-plain_value all kvs k o)
]

-- On a DBI that LMDB orders by `bytes.Compare`, and for entries with keys of 1 to 511 bytes in
-- rising order: `IterUpdate` with a `PlainIterator` of them ends without an error. Afterwards the
-- DBI holds the entries whose value is not empty, and no other key.
pub iter_update-plain_value :
    (l : Lmdb) (little_endian : Bool) (kvs : List Kv) (d : l.Dbi)
    → IsOrderedMap l
    → ltb 0 (bit_and l.flags integer_key_flag) ≡ false
    → ItemsSorted (map plain_item kvs)
    → All (λ x. IsKey x.key) (map plain_item kvs)
    → (d' : l.Dbi) × ((iter_update l little_endian (plain_source kvs) d ≡ ok d')
        × ((k : Bytes) → lookup k (l.entries d') ≡ plain_value k kvs))
iter_update-plain_value l little_endian kvs d laws order sx kx =
    let (d', r, e) =
      iter_update-joined l little_endian (plain_source kvs) AnyValue d laws order refl sx kx
        (plain-Answers kvs) (plain-ItemAnswers kvs) (any_values (l.entries d)) in
    (d', (r, λ k. e k ∙ joined-plain_value kvs kvs k (lookup k (l.entries d))))
