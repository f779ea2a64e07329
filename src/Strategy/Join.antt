-- ===== src/Strategy/Join.antt =====
-- The specification of a walk over both sides: what the DBI holds afterwards, as a list and key by
-- key. A policy says what a strategy keeps for each key.
use Prim.Native.Nat.{Ordering}
use lightningstream.Base.{◌≡◌, refl, inl, inr, Option, none, some, List, [], ◌∷◌, All, arith}
use lightningstream.Base.Bytes.{
  Bytes, Lt, Ordering-cases, compare_bytes, eq_of_compare, Lt_of_gt, Lt-trans,
}
use lightningstream.Lmdb.Entries.{Entry, cons_some, lookup, IsSorted, Above, Above-trans}
use lightningstream.Strategy.{Item}

-- What is kept of an entry that the iterator does not have, and of an item and what the DBI holds
-- for its key.
pub record Policy : Type 0 where
  pub on_entry : Bytes → Option Bytes
  pub on_item : Item → Option Bytes → Option Bytes

-- Both sides in the order of their keys.
unfoldable pub join_sorted : Policy → List Item → List Entry → List Entry
join_sorted p [] [] = []
join_sorted p [] ((k, v) ∷ es) = cons_some k (p.on_entry v) (join_sorted p [] es)
join_sorted p (x ∷ xs) [] = cons_some x.key (p.on_item x none) (join_sorted p xs [])
join_sorted p (x ∷ xs) ((k, v) ∷ es) = elim (compare_bytes k x.key) [
  | Ordering.lt ↦ cons_some k (p.on_entry v) (join_sorted p (x ∷ xs) es)
  | Ordering.eq ↦ cons_some x.key (p.on_item x (some v)) (join_sorted p xs es)
  | Ordering.gt ↦ cons_some x.key (p.on_item x none) (join_sorted p xs ((k, v) ∷ es))
]

module _ (p : Policy) (x : Item) (xs : List Item) (k v : Bytes) (es : List Entry) where
  pub join-entry_first :
      compare_bytes k x.key ≡ Ordering.lt
      → join_sorted p (x ∷ xs) ((k, v) ∷ es)
        ≡ cons_some k (p.on_entry v) (join_sorted p (x ∷ xs) es)
  unfolding join_sorted
  join-entry_first h = ground arith

  pub join-same_key :
      compare_bytes k x.key ≡ Ordering.eq
      → join_sorted p (x ∷ xs) ((k, v) ∷ es)
        ≡ cons_some x.key (p.on_item x (some v)) (join_sorted p xs es)
  unfolding join_sorted
  join-same_key h = ground arith

  pub join-item_first :
      compare_bytes k x.key ≡ Ordering.gt
      → join_sorted p (x ∷ xs) ((k, v) ∷ es)
        ≡ cons_some x.key (p.on_item x none) (join_sorted p xs ((k, v) ∷ es))
  unfolding join_sorted
  join-item_first h = ground arith

unfoldable pub find_item : Bytes → List Item → Option Item
find_item k [] = none
find_item k (x ∷ xs) = elim (compare_bytes k x.key) [ Ordering.eq ↦ some x | _ ↦ find_item k xs ]

-- What a key holds after the walk.
unfoldable pub joined : Policy → Option Item → Option Bytes → Option Bytes
joined p none none = none
joined p none (some v) = p.on_entry v
joined p (some x) o = p.on_item x o

abbrev pub ItemsAbove : Bytes → List Item → Type 0
ItemsAbove k xs = All (λ x. Lt k x.key) xs

abbrev pub ItemsSorted : List Item → Type 0
ItemsSorted [] = Unit
ItemsSorted (x ∷ xs) = ItemsAbove x.key xs × ItemsSorted xs

-- A key in front of all others is in no list.
lookup-Above : (k : Bytes) (es : List Entry) → Above k es → lookup k es ≡ none
unfolding lookup
lookup-Above k [] a = refl
lookup-Above k ((j, w) ∷ es) (a, above) = ground (arith, lookup-Above k es above)

find_item-Above : (k : Bytes) (xs : List Item) → ItemsAbove k xs → find_item k xs ≡ none
unfolding find_item
find_item-Above k [] a = refl
find_item-Above k (x ∷ xs) (a, above) = ground (arith, find_item-Above k xs above)

lookup-cons_some :
    (k j : Bytes) (o : Option Bytes) (es : List Entry)
    → lookup k (cons_some j o es) ≡ elim (compare_bytes k j) [
      | Ordering.eq ↦ elim o [ none ↦ lookup k es | some v ↦ some v ]
      | _ ↦ lookup k es
    ]
unfolding lookup
lookup-cons_some k j none es = ground arith
lookup-cons_some k j (some v) es = ground arith

ItemsAbove-trans : (j k : Bytes) (xs : List Item) → Lt j k → ItemsAbove k xs → ItemsAbove j xs
ItemsAbove-trans j k [] h a = tt
ItemsAbove-trans j k (x ∷ xs) h (a, above) =
    (Lt-trans j k x.key h a, ItemsAbove-trans j k xs h above)

-- The key-by-key reading of `join_sorted`.
pub lookup-join_sorted :
    (p : Policy) (k : Bytes) (xs : List Item) (es : List Entry)
    → ItemsSorted xs
    → IsSorted es
    → lookup k (join_sorted p xs es) ≡ joined p (find_item k xs) (lookup k es)
unfolding join_sorted joined lookup find_item
lookup-join_sorted p k [] [] sx se = refl
lookup-join_sorted p k [] ((j, v) ∷ es) sx (a, se) = ground (
  arith,
  lookup-cons_some k j (p.on_entry v) (join_sorted p [] es),
  lookup-join_sorted p k [] es tt se,
  lookup-Above j es a,
  eq_of_compare k j,
)
lookup-join_sorted p k (x ∷ xs) [] (b, sx) se = ground (
  arith,
  lookup-cons_some k x.key (p.on_item x none) (join_sorted p xs []),
  lookup-join_sorted p k xs [] sx tt,
  find_item-Above x.key xs b,
  eq_of_compare k x.key,
)
lookup-join_sorted p k (x ∷ xs) ((j, v) ∷ es) (b, sx) (a, se) =
    elim (Ordering-cases (compare_bytes j x.key)) [
      | inl lt ↦ ground (
        arith,
        lookup-cons_some k j (p.on_entry v) (join_sorted p (x ∷ xs) es),
        lookup-join_sorted p k (x ∷ xs) es (b, sx) se,
        lookup-Above j es a,
        find_item-Above j (x ∷ xs) (lt, ItemsAbove-trans j x.key xs lt b),
        eq_of_compare k j,
      )
      | inr (inl eq) ↦ ground (
        arith,
        lookup-cons_some k x.key (p.on_item x (some v)) (join_sorted p xs es),
        lookup-join_sorted p k xs es sx se,
        lookup-Above j es a,
        find_item-Above x.key xs b,
        eq_of_compare j x.key eq,
        eq_of_compare k x.key,
      )
      | inr (inr gt) ↦ ground (
        arith,
        lookup-cons_some k x.key (p.on_item x none) (join_sorted p xs ((j, v) ∷ es)),
        lookup-join_sorted p k xs ((j, v) ∷ es) sx (a, se),
        lookup-Above x.key ((j, v) ∷ es)
            (Lt_of_gt j x.key gt, Above-trans x.key j es (Lt_of_gt j x.key gt) a),
        find_item-Above x.key xs b,
        eq_of_compare k x.key,
      )
    ]
